-- ===== src/Coordinator/Runs.antt =====
-- Sequences of transactions on the database of the coordinator (外置策略API/qmt_local_api/coordinator.py). The
-- two halves of a submission are calls of their own, so that events may come between them.
use qmt_python_tcp.Prelude.{ℕ, String, Bool, List, [], ◌∷◌}
use qmt_python_tcp.Coordinator.Rows.{Number, Message, Database, Settings}
use qmt_python_tcp.Coordinator.Strategies.{register_strategy}
use qmt_python_tcp.Coordinator.Orders.{OrderRequest, begin_order, save_msg_id, mark_unknown}
use qmt_python_tcp.Coordinator.Events.{handle_event}
use qmt_python_tcp.Coordinator.Outbox.{poll_events, acknowledge_event}
use qmt_python_tcp.Coordinator.Cancels.{begin_cancel}

pub data Call : Type 0 where
  register_call : String → String → Bool → ℕ → Number → Number → Call
  order_call : Bool → OrderRequest → Call
  cancel_call : Bool → String → String → String → Call
  saved_call : List String → String → String → Call
  unknown_call : String → String → Call
  event_call : Message → Call
  poll_call : String → ℕ → Call
  acknowledge_call : String → String → Call

-- what a call leaves, whether it returns or raises
unfoldable pub step : Settings → ℕ → Call → Database → Database
step settings now (register_call id token enabled priority a b) s =
    (register_strategy settings now id token enabled priority a b s).1
step settings now (order_call ready request) s = (begin_order settings now ready request s).1
step settings now (cancel_call ready id key target) s =
    (begin_cancel settings now ready id key target s).1
step settings now (saved_call stages request_id msg_id) s =
    (save_msg_id settings now stages request_id msg_id s).1
step settings now (unknown_call request_id reason) s =
    (mark_unknown settings now request_id reason s).1
step settings now (event_call message) s = (handle_event settings now message s).1
step settings now (poll_call id limit) s = (poll_events now id limit s).1
step settings now (acknowledge_call id event) s = (acknowledge_event now id event s).1

unfoldable pub run : Settings → List (ℕ × Call) → Database → Database
unfolding step
run settings [] s = s
run settings ((now, call) ∷ calls) s = run settings calls (step settings now call s)
