-- ===== src/Correlation/Orders.antt =====
-- The methods of `OrderCorrelationStore` on the order table (网关/order_correlation.py).
use qmt_python_tcp.Prelude.{
  ℕ, String, Bool, true, false, Option, none, some, List, map, not, ◌&&◌, ◌||◌, ◌=t=◌, is_empty,
  or_text, strip, upper, if◌then◌else◌, leb, ◌==◌, Action, value_error, integrity_error,
  idempotency_conflict, pure, raise, raise_if, gets, modify, transaction, ◌>>=◌, ◌>>◌, ok, err, any,
}
use qmt_python_tcp.Table.{find_row, count_where, update_where, delete_where, insert_row}
use qmt_python_tcp.Correlation.Rows.{
  OrderRow, OrderItem, Store, has_order, has_msg, has_qmt, next_rowid,
}
use qmt_python_tcp.Correlation.Stage.{stage_rank, is_terminal}

abbrev int_or_zero : Option ℕ → ℕ
int_or_zero none = 0
int_or_zero (some n) = n

-- the row that `reserve` inserts
unfoldable pub new_row : ℕ → OrderItem → ℕ → OrderRow
new_row now item rowid = record {
  rowid = rowid;
  account_id = item.account_id;
  client_order_id = item.client_order_id;
  trace_id = item.trace_id;
  msg_id = item.msg_id;
  request_id = item.request_id;
  qmt_user_order_id = item.qmt_user_order_id;
  trader_name = item.trader_name;
  authenticated_trader_key = strip item.authenticated_trader_key;
  side = upper (strip item.side);
  order_type = int_or_zero item.order_type;
  intent_hash = item.intent_hash;
  stage = or_text item.stage "RESERVED";
  order_id = none;
  order_sysid = none;
  created_at = now;
  updated_at = now;
  terminal_at = none;
}

-- INSERT fails where a row holds one of the three unique keys.
unfoldable pub violates_unique : OrderRow → List OrderRow → Bool
violates_unique row rows =
    any (has_order row.account_id row.client_order_id) rows
    || any (has_msg row.account_id row.msg_id) rows
    || any (has_qmt row.account_id row.qmt_user_order_id) rows

unfoldable pub insert_order : OrderRow → Action Store (Unit {0})
unfolding violates_unique insert_row
insert_order row s =
    if violates_unique row s.orders
    then (err integrity_error, s)
    else (ok tt, record s { orders = insert_row row s.orders })

-- `UPDATE order_correlation SET authenticated_trader_key=?, updated_at=?`
unfoldable pub bind_trader : ℕ → String → OrderRow → OrderRow
bind_trader now key row = record row { authenticated_trader_key = key; updated_at = now }

-- the branch of `reserve` where the row is there
unfoldable pub reserve_existing : ℕ → OrderItem → OrderRow → Action Store (OrderRow × Bool)
unfolding bind_trader update_where
reserve_existing now item row =
    let key = strip item.authenticated_trader_key in
    let existing = strip row.authenticated_trader_key in
    if not (row.intent_hash =t= item.intent_hash)
    then raise idempotency_conflict
    else if not (is_empty key) && not (is_empty existing) && not (key =t= existing)
    then raise idempotency_conflict
    else if not (is_empty key) && is_empty existing
    then (do
      modify (λ s. record s {
        orders =
            update_where (has_order item.account_id item.client_order_id) (bind_trader now key)
              s.orders;
      })
      pure (bind_trader now key row, true))
    else pure (row, true)

-- the branch of `reserve` where it is not
unfoldable pub reserve_new : ℕ → OrderItem → Action Store (OrderRow × Bool)
unfolding new_row insert_order next_rowid
reserve_new now item = do
  rowid ← gets (λ s. next_rowid (map (λ (r : OrderRow). r.rowid) s.orders))
  insert_order (new_row now item rowid)
  pure (new_row now item rowid, false)

unfoldable pub reserve_found : ℕ → OrderItem → Option OrderRow → Action Store (OrderRow × Bool)
unfolding reserve_existing reserve_new
reserve_found now item none = reserve_new now item
reserve_found now item (some row) = reserve_existing now item row

unfoldable pub lacks_identity : OrderItem → Bool
lacks_identity item =
    is_empty item.account_id
    || is_empty item.client_order_id
    || is_empty item.intent_hash
    || is_empty item.qmt_user_order_id

unfoldable pub reserve : ℕ → OrderItem → Action Store (OrderRow × Bool)
unfolding lacks_identity reserve_found find_row
reserve now item = do
  raise_if (lacks_identity item) value_error
  transaction (do
    found ← gets (λ s. find_row (has_order item.account_id item.client_order_id) s.orders)
    reserve_found now item found)

-- `WHERE account_id=? AND client_order_id=? AND intent_hash=? AND stage='RESERVED'`
abbrev pub is_exact_reservation : String → String → String → OrderRow → Bool
is_exact_reservation account client intent row =
    has_order account client row && row.intent_hash =t= intent && row.stage =t= "RESERVED"

unfoldable pub release_reservation : String → String → String → Action Store Bool
unfolding delete_where count_where
release_reservation account client intent = do
  raise_if (is_empty account || is_empty client || is_empty intent) value_error
  deleted ← gets (λ s. count_where (is_exact_reservation account client intent) s.orders)
  modify (λ s. record s {
    orders = delete_where (is_exact_reservation account client intent) s.orders;
  })
  pure (deleted == 1)

unfoldable pub get : String → String → Store → Option OrderRow
unfolding find_row
get account client s = find_row (has_order account client) s.orders

-- `COALESCE(NULLIF(?,''),column)`
abbrev pub coalesce_text : String → Option String → Option String
coalesce_text new old = if is_empty new then old else some new

-- the WHERE clause of `_update_stage_sql`
unfoldable pub may_move : String → String → String → OrderRow → Bool
may_move account client stage row =
    has_order account client row
    && not (is_terminal row.stage)
    && leb (stage_rank row.stage) (stage_rank stage)

-- its SET clause
unfoldable pub move_stage : ℕ → String → String → String → OrderRow → OrderRow
move_stage now stage order_id order_sysid row = record row {
  stage = stage;
  order_id = coalesce_text order_id row.order_id;
  order_sysid = coalesce_text order_sysid row.order_sysid;
  updated_at = now;
  terminal_at = if is_terminal stage then some now else row.terminal_at;
}

unfoldable pub update_stage :
    ℕ → String → String → String → String → String → Action Store (Unit {0})
unfolding may_move move_stage update_where
update_stage now account client stage order_id order_sysid = modify (λ s. record s {
  orders =
      update_where (may_move account client stage) (move_stage now stage order_id order_sysid)
        s.orders;
})
