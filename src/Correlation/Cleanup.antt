-- ===== src/Correlation/Cleanup.antt =====
-- Retention: `cleanup_completed` of `OrderCorrelationStore` (网关/order_correlation.py).
use qmt_python_tcp.Prelude.{
  ℕ, ◌+◌, ◌-◌, ◌*◌, Bool, false, Option, none, some, List, [], ◌∷◌, map, ◌&&◌, ◌||◌, if◌then◌else◌,
  ltb, leb, ◌==◌, Action, Result, value_error, type_error, pure, raise, raise_if, transaction, lift,
  ◌>>=◌, ◌>>◌, ok, err, length, take,
}
use qmt_python_tcp.Table.{select_where, delete_where, sort_by}
use qmt_python_tcp.Correlation.Rows.{OrderRow, EventRow, Store}
use qmt_python_tcp.Correlation.Stage.{is_terminal}

-- a Python value that should be a limit
pub data Given : Type 0 where
  no_integer negative : Given
  natural : ℕ → Given

-- MAX_CLEANUP_ROWS_PER_KIND, MIN_COMPLETED_RETENTION_SECONDS
abbrev pub max_cleanup_rows : ℕ
max_cleanup_rows = 10000

abbrev pub min_retention : ℕ
min_retention = 7 * 24 * 60 * 60

unfoldable pub validate_cleanup_limit : Given → Result ℕ
validate_cleanup_limit no_integer = err type_error
validate_cleanup_limit negative = err value_error
validate_cleanup_limit (natural n) = if ltb max_cleanup_rows n then err value_error else ok n

pub record Cleanup : Type 0 where
  pub events_deleted : ℕ
  pub orders_deleted : ℕ

-- `DELETE ... WHERE rowid IN (ids)`
abbrev pub is_member : ℕ → List ℕ → Bool
is_member n [] = false
is_member n (m ∷ ms) = n == m || is_member n ms

-- `created_at < ?`
unfoldable pub is_old_event : ℕ → EventRow → Bool
is_old_event cutoff row = ltb row.created_at cutoff

abbrev before_time : Option ℕ → ℕ → Bool
before_time none cutoff = false
before_time (some t) cutoff = ltb t cutoff

-- `terminal_at IS NOT NULL AND terminal_at < ? AND stage IN (...)`
unfoldable pub is_old_order : ℕ → OrderRow → Bool
is_old_order cutoff row = before_time row.terminal_at cutoff && is_terminal row.stage

-- ORDER BY created_at, rowid over rows that are in rowid order
abbrev event_order : EventRow → EventRow → Bool
event_order a b = leb a.created_at b.created_at

abbrev time_or_zero : Option ℕ → ℕ
time_or_zero none = 0
time_or_zero (some t) = t

-- ORDER BY terminal_at, rowid
abbrev order_order : OrderRow → OrderRow → Bool
order_order a b = leb (time_or_zero a.terminal_at) (time_or_zero b.terminal_at)

unfoldable pub oldest_events : ℕ → ℕ → List EventRow → List ℕ
unfolding is_old_event select_where sort_by
oldest_events cutoff limit rows =
    map (λ (r : EventRow). r.rowid)
      (take limit (sort_by event_order (select_where (is_old_event cutoff) rows)))

unfoldable pub oldest_orders : ℕ → ℕ → List OrderRow → List ℕ
unfolding is_old_order select_where sort_by
oldest_orders cutoff limit rows =
    map (λ (r : OrderRow). r.rowid)
      (take limit (sort_by order_order (select_where (is_old_order cutoff) rows)))

unfoldable pub delete_events : ℕ → ℕ → Store → Store
unfolding oldest_events delete_where
delete_events cutoff limit s = record s {
  events =
      delete_where (λ (r : EventRow). is_member r.rowid (oldest_events cutoff limit s.events))
        s.events;
}

unfoldable pub delete_orders : ℕ → ℕ → Store → Store
unfolding oldest_orders delete_where
delete_orders cutoff limit s = record s {
  orders =
      delete_where (λ (r : OrderRow). is_member r.rowid (oldest_orders cutoff limit s.orders))
        s.orders;
}

-- `if event_limit:`, and the difference of `total_changes`
unfoldable pub clean_events : ℕ → ℕ → Action Store ℕ
unfolding delete_events
clean_events cutoff limit s = if limit == 0 then (ok 0, s) else (
  ok (length s.events - length (delete_events cutoff limit s).events),
  delete_events cutoff limit s,
)

unfoldable pub clean_orders : ℕ → ℕ → Action Store ℕ
unfolding delete_orders
clean_orders cutoff limit s = if limit == 0 then (ok 0, s) else (
  ok (length s.orders - length (delete_orders cutoff limit s).orders),
  delete_orders cutoff limit s,
)

-- `before` is `none` where it is no finite number. The retention test is written as a sum.
unfoldable pub cleanup_completed : ℕ → Option ℕ → Given → Given → Action Store Cleanup
unfolding validate_cleanup_limit clean_events clean_orders
cleanup_completed now none event_limit order_limit = raise value_error
cleanup_completed now (some cutoff) event_limit order_limit = do
  raise_if (ltb now (cutoff + min_retention)) value_error
  events ← lift (validate_cleanup_limit event_limit)
  orders ← lift (validate_cleanup_limit order_limit)
  transaction (do
    events_deleted ← clean_events cutoff events
    orders_deleted ← clean_orders cutoff orders
    pure (record { events_deleted = events_deleted; orders_deleted = orders_deleted }))
