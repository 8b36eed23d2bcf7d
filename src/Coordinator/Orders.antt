-- ===== src/Coordinator/Orders.antt =====
-- `submit_order` (外置策略API/qmt_local_api/coordinator.py), cut where the Gateway is called: the transaction
-- before the call, and the update or the mark after it.
use qmt_python_tcp.Prelude.{
  ℕ, ◌+◌, ◌*◌, String, Bool, true, false, Option, none, some, List, [], ◌∷◌, not, ◌&&◌, ◌||◌, ◌=t=◌,
  is_empty, or_text, strip, upper, if◌then◌else◌, ltb, ◌==◌, Action, Result, value_error,
  integrity_error, coordinator_conflict, risk_rejected, unavailable, pure, raise_if, gets, modify,
  transaction, lift, ◌>>=◌, ◌>>◌, ok, err, any, is_one_of, count_chars,
}
use qmt_python_tcp.Table.{find_row, update_where, insert_row, sum_where}
use qmt_python_tcp.Coordinator.Rows.{
  Number, natural, negative, not_finite, no_number, Intent, order_intent, Strategy, Command,
  Reservation, Database, Settings,
}
use qmt_python_tcp.Coordinator.Identifiers.{
  valid_strategy_id, client_order_id_of, request_id_of, trace_id_of, next_sequence, finite_positive,
}
use qmt_python_tcp.Coordinator.Stages.{is_terminal}
use qmt_python_tcp.Coordinator.Strategies.{strategy_row}

-- `WHERE account_id=? AND strategy_id=? AND strategy_order_id=? AND action_kind=?`
abbrev pub has_key : String → String → String → String → Command → Bool
has_key account strategy key kind row =
    row.account_id =t= account
    && row.strategy_id =t= strategy
    && row.strategy_order_id =t= key
    && row.action_kind =t= kind

-- `WHERE account_id=? AND request_id=?`
abbrev pub has_request : String → String → Command → Bool
has_request account request row = row.account_id =t= account && row.request_id =t= request

-- `WHERE account_id=? AND state='ACTIVE'`
abbrev pub is_active : String → Reservation → Bool
is_active account row = row.account_id =t= account && row.state =t= "ACTIVE"

abbrev pub is_active_of : String → String → Reservation → Bool
is_active_of account strategy row =
    row.account_id =t= account && row.strategy_id =t= strategy && row.state =t= "ACTIVE"

-- `_pending_notional_locked`, with a sum that is exact, where the code rounds
unfoldable pub pending_notional : String → Database → ℕ
unfolding sum_where
pending_notional account s =
    sum_where (is_active account) (λ (r : Reservation). r.notional) s.reservations

unfoldable pub strategy_notional : String → String → Database → ℕ
unfolding sum_where
strategy_notional account strategy s =
    sum_where (is_active_of account strategy) (λ (r : Reservation). r.notional) s.reservations

-- `_check_limit`: zero is no limit
unfoldable pub exceeds : ℕ → ℕ → Bool
exceeds limit value = ltb 0 limit && ltb limit value

-- The arguments of `submit_order`.
pub record OrderRequest : Type 0 where
  pub strategy_id : String
  pub strategy_order_id : String
  pub symbol : String
  pub side : String
  pub quantity : Number
  pub price : Number
  pub price_type : ℕ
  pub order_type : ℕ
  pub order_remark : String
  pub trace_id : String
  pub spread : Number
  pub business_order_type : String
  pub credit_mode : String

-- the checks of the texts, in one test: every failure is a ValueError
unfoldable pub order_problem : OrderRequest → Bool
unfolding valid_strategy_id
order_problem request =
    let key = strip request.strategy_order_id in
    not (valid_strategy_id (strip request.strategy_id))
    || is_empty key
    || ltb 128 (count_chars key)
    || is_empty (strip request.symbol)
    || not (is_one_of (upper (strip request.side)) ("BUY" ∷ "SELL" ∷ []))

-- `float(spread)`, which must also be JSON
unfoldable pub finite_spread : Number → Result Number
finite_spread (natural n) = ok (natural n)
finite_spread (negative n) = ok (negative n)
finite_spread not_finite = err value_error
finite_spread no_number = err value_error

-- the canonical `intent`
unfoldable pub intent_of : OrderRequest → ℕ → ℕ → Number → Intent
intent_of request quantity price spread =
    order_intent (strip request.symbol) (upper (strip request.side)) quantity price
      request.price_type request.order_type request.order_remark spread
      (or_text request.business_order_type "limit") request.credit_mode

-- What the transaction before the Gateway call ends with.
pub data Begun : Type 0 where
  known fresh : Command → Begun

-- the row under the strategy's own key
unfoldable pub existing_order : String → Command → Result Begun
existing_order fingerprint row =
    if row.intent_hash =t= fingerprint then ok (known row) else err coordinator_conflict

-- the four calls of `_check_limit`
unfoldable pub check_limits : Settings → Strategy → ℕ → Action Database (Unit {0})
check_limits settings row notional = do
  raise_if (exceeds row.max_order_notional notional) risk_rejected
  raise_if (exceeds settings.max_order_notional notional) risk_rejected
  own ← gets (strategy_notional settings.account_id row.strategy_id)
  raise_if (exceeds row.max_pending_notional (own + notional)) risk_rejected
  total ← gets (pending_notional settings.account_id)
  raise_if (exceeds settings.max_pending_notional (total + notional)) risk_rejected

-- the three UNIQUE constraints of coordinator_command
unfoldable pub clashes : Command → List Command → Bool
clashes row rows =
    any (has_key row.account_id row.strategy_id row.strategy_order_id row.action_kind) rows
    || any
        (λ (c : Command).
          c.account_id =t= row.account_id && c.client_order_id =t= row.client_order_id)
        rows
    || any (has_request row.account_id row.request_id) rows

unfoldable pub insert_command : Command → Action Database (Unit {0})
unfolding clashes insert_row
insert_command row s =
    if clashes row s.commands
    then (err integrity_error, s)
    else (ok tt, record s { commands = insert_row row s.commands })

unfoldable pub insert_reservation : Reservation → Action Database (Unit {0})
unfolding insert_row
insert_reservation row = modify (λ s. record s { reservations = insert_row row s.reservations })

-- the row that `submit_order` inserts
unfoldable pub new_command : Settings → ℕ → String → OrderRequest → Intent → ℕ → ℕ → ℕ → Command
unfolding client_order_id_of
new_command settings now strategy request intent quantity price sequence =
    let client = client_order_id_of settings now strategy sequence "" in
    record {
      command_id = sequence;
      account_id = settings.account_id;
      strategy_id = strategy;
      strategy_order_id = strip request.strategy_order_id;
      action_kind = "NEW";
      intent_hash = settings.intent_hash intent;
      client_order_id = client;
      request_id = request_id_of client;
      target_command_id = none;
      symbol = strip request.symbol;
      side = upper (strip request.side);
      quantity = quantity;
      price = price;
      notional = quantity * price;
      stage = "GATEWAY_SUBMITTING";
      gateway_msg_id = "";
      order_id = "";
      order_sysid = "";
      qmt_user_order_id = "";
      intent = intent;
      detail = record {
        trace_id = or_text request.trace_id (trace_id_of client);
        unknown_reason = none;
        last_event_type = none;
        last_event_at = none;
      };
      created_at = now;
      updated_at = now;
      terminal_at = none;
    }

unfoldable pub new_reservation : ℕ → Command → Reservation
new_reservation now row = record {
  command_id = row.command_id;
  account_id = row.account_id;
  strategy_id = row.strategy_id;
  notional = row.notional;
  state = "ACTIVE";
  release_reason = "";
  created_at = now;
  updated_at = now;
}

-- a fresh order: limits, identifiers, the command and its reservation
unfoldable pub persist_order :
    Settings → ℕ → String → OrderRequest → Intent → ℕ → ℕ → Action Database Begun
unfolding insert_reservation new_reservation
persist_order settings now strategy request intent quantity price = do
  row ← strategy_row strategy
  check_limits settings row (quantity * price)
  sequence ← gets (λ s. next_sequence s.commands)
  let command = new_command settings now strategy request intent quantity price sequence
  insert_command command
  insert_reservation (new_reservation now command)
  pure (fresh command)

unfoldable pub begin_found :
    Settings → ℕ → String → OrderRequest → Intent → ℕ → ℕ → Option Command → Action Database Begun
unfolding existing_order
begin_found settings now strategy request intent quantity price none =
    persist_order settings now strategy request intent quantity price
begin_found settings now strategy request intent quantity price (some row) =
    lift (existing_order (settings.intent_hash intent) row)

-- `submit_order` up to the call of the Gateway. `ready` is `_assert_ready_to_trade`.
unfoldable pub begin_order : Settings → ℕ → Bool → OrderRequest → Action Database Begun
unfolding begin_found
begin_order settings now ready request = do
  raise_if (not ready) unavailable
  raise_if (order_problem request) value_error
  quantity ← lift (finite_positive false request.quantity)
  price ← lift (finite_positive true request.price)
  spread ← lift (finite_spread request.spread)
  let intent = intent_of request quantity price spread
  let strategy = strip request.strategy_id
  transaction (do
    found ← gets (λ s.
        find_row (has_key settings.account_id strategy (strip request.strategy_order_id) "NEW")
          s.commands)
    begin_found settings now strategy request intent quantity price found)

-- The update behind a call that returned; a cancellation has its own list of stages.
unfoldable pub save_msg_id :
    Settings → ℕ → List String → String → String → Action Database (Option Command)
unfolding update_where find_row
save_msg_id settings now stages request_id gateway_msg_id = do
  modify (λ s. record s {
    commands =
        update_where
          (λ (c : Command).
            has_request settings.account_id request_id c && is_one_of c.stage stages)
          (λ (c : Command). record c { gateway_msg_id = gateway_msg_id; updated_at = now })
          s.commands;
  })
  gets (λ s. find_row (has_request settings.account_id request_id) s.commands)

unfoldable pub set_unknown : ℕ → String → Command → Command
set_unknown now reason row = record row {
  stage = "UNKNOWN";
  detail = record (row.detail) { unknown_reason = some reason };
  updated_at = now;
}

unfoldable pub mark_row : ℕ → String → Option Command → Action Database (Unit {0})
unfolding set_unknown is_terminal update_where
mark_row now reason none = pure tt
mark_row now reason (some row) = modify (λ s. record s {
  commands =
      update_where (λ (c : Command). c.command_id == row.command_id && not (is_terminal c.stage))
        (set_unknown now reason) s.commands;
})

-- `_mark_unknown`; the caller halts trading as well
unfoldable pub mark_unknown : Settings → ℕ → String → String → Action Database (Unit {0})
unfolding mark_row find_row
mark_unknown settings now request_id reason = transaction (do
  found ← gets (λ s. find_row (has_request settings.account_id request_id) s.commands)
  mark_row now reason found)
