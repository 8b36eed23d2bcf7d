-- ===== src/Coordinator/Kept.antt =====
-- What a run of the coordinator (外置策略API/qmt_local_api/coordinator.py) keeps, if its statements do.
use qmt_python_tcp.Prelude.{ℕ, String, Bool, Option, none, some, List, [], ◌∷◌, Keeps}
use qmt_python_tcp.Coordinator.Rows.{Number, Intent, Strategy, Command, Message, Database, Settings}
use qmt_python_tcp.Coordinator.Strategies.{register_strategy, strategy_row}
use qmt_python_tcp.Coordinator.Orders.{OrderRequest, begin_order, mark_unknown}
use qmt_python_tcp.Coordinator.Events.{handle_event}
use qmt_python_tcp.Coordinator.Outbox.{poll_events, acknowledge_event}
use qmt_python_tcp.Coordinator.Orders.{begin_found}
use qmt_python_tcp.Coordinator.Cancels.{begin_cancel, cancel_found}
use qmt_python_tcp.Coordinator.Strategies.{upsert_strategy}
use qmt_python_tcp.Coordinator.Runs.{
  Call, step, run, register_call, order_call, cancel_call, saved_call, unknown_call, event_call,
  poll_call, acknowledge_call,
}
use qmt_python_tcp.Prelude.{modify, keeps_rules}
use qmt_python_tcp.Coordinator.Rows.{OutboxRow}
use qmt_python_tcp.Coordinator.Orders.{save_msg_id, mark_row, persist_order}
use qmt_python_tcp.Coordinator.Cancels.{persist_cancel}
use qmt_python_tcp.Coordinator.Events.{take_event}

-- The parts of the calls that write, each of which keeps `P`.
pub record StatementsKeep (settings : Settings) (P : Database → Type 0) : Type 0 where
  pub strategies :
      (f : Database → List Strategy) → Keeps P (modify (λ s. record s { strategies = f s }))
  pub outbox : (f : Database → List OutboxRow) → Keeps P (modify (λ s. record s { outbox = f s }))
  pub saved :
      (now : ℕ) (stages : List String) (request msg : String)
      → Keeps P (save_msg_id settings now stages request msg)
  pub marked :
      (now : ℕ) (reason : String) (found : Option Command) → Keeps P (mark_row now reason found)
  pub taken : (now : ℕ) (message : Message) → Keeps P (take_event settings now message)
  pub ordered :
      (now : ℕ) (strategy : String) (request : OrderRequest) (intent : Intent) (quantity price : ℕ)
      → Keeps P (persist_order settings now strategy request intent quantity price)
  pub cancelled :
      (now : ℕ) (strategy key target : String)
      → Keeps P (persist_cancel settings now strategy key target)

module _ (settings : Settings) (P : Database → Type 0) (laws : StatementsKeep settings P) where
  strategies-P :
      (f : Database → List Strategy) → Keeps P (modify (λ s. record s { strategies = f s }))
  strategies-P = laws.strategies

  outbox-P : (f : Database → List OutboxRow) → Keeps P (modify (λ s. record s { outbox = f s }))
  outbox-P = laws.outbox

  save_msg_id-P :
      (now : ℕ) (stages : List String) (request msg : String)
      → Keeps P (save_msg_id settings now stages request msg)
  save_msg_id-P = laws.saved

  mark_row-P :
      (now : ℕ) (reason : String) (found : Option Command) → Keeps P (mark_row now reason found)
  mark_row-P = laws.marked

  take_event-P : (now : ℕ) (message : Message) → Keeps P (take_event settings now message)
  take_event-P = laws.taken

  persist_order-P :
      (now : ℕ) (strategy : String) (request : OrderRequest) (intent : Intent) (quantity price : ℕ)
      → Keeps P (persist_order settings now strategy request intent quantity price)
  persist_order-P = laws.ordered

  persist_cancel-P :
      (now : ℕ) (strategy key target : String)
      → Keeps P (persist_cancel settings now strategy key target)
  persist_cancel-P = laws.cancelled

  ruleset run_rules = (
    keeps_rules, strategies-P, outbox-P, save_msg_id-P, mark_row-P, take_event-P, persist_order-P,
    persist_cancel-P,
  )

  begin_found-P :
      (now : ℕ) (strategy : String) (request : OrderRequest) (intent : Intent) (quantity price : ℕ)
      (found : Option Command)
      → Keeps P (begin_found settings now strategy request intent quantity price found)
  unfolding begin_found
  begin_found-P now strategy request intent quantity price none = search run_rules
  begin_found-P now strategy request intent quantity price (some row) = search run_rules

  begin_order-P :
      (now : ℕ) (ready : Bool) (request : OrderRequest)
      → Keeps P (begin_order settings now ready request)
  unfolding begin_order
  begin_order-P now ready request = search (run_rules, begin_found-P) depth 14

  strategy_row-P : (strategy : String) → Keeps P (strategy_row strategy)
  unfolding strategy_row
  strategy_row-P strategy = search run_rules

  upsert-P : (row : Strategy) (old : Option Strategy) → Keeps P (upsert_strategy row old)
  unfolding upsert_strategy
  upsert-P row none = search run_rules
  upsert-P row (some old) = search run_rules

  register-P :
      (now : ℕ) (id token : String) (enabled : Bool) (priority : ℕ) (a b : Number)
      → Keeps P (register_strategy settings now id token enabled priority a b)
  unfolding register_strategy
  register-P now id token enabled priority a b = search (run_rules, upsert-P) depth 12

  cancel_found-P :
      (now : ℕ) (strategy key target : String) (found : Option Command)
      → Keeps P (cancel_found settings now strategy key target found)
  unfolding cancel_found
  cancel_found-P now strategy key target none = search run_rules depth 12
  cancel_found-P now strategy key target (some row) = search run_rules

  begin_cancel-P :
      (now : ℕ) (ready : Bool) (id key target : String)
      → Keeps P (begin_cancel settings now ready id key target)
  unfolding begin_cancel
  begin_cancel-P now ready id key target = search (run_rules, cancel_found-P) depth 14

  mark_unknown-P :
      (now : ℕ) (request_id reason : String) → Keeps P (mark_unknown settings now request_id reason)
  unfolding mark_unknown
  mark_unknown-P now request_id reason = search run_rules

  handle_event-P : (now : ℕ) (message : Message) → Keeps P (handle_event settings now message)
  unfolding handle_event
  handle_event-P now message = search run_rules depth 12

  poll-P : (now : ℕ) (id : String) (limit : ℕ) → Keeps P (poll_events now id limit)
  unfolding poll_events
  poll-P now id limit = search (run_rules, strategy_row-P) depth 12

  acknowledge-P : (now : ℕ) (id event : String) → Keeps P (acknowledge_event now id event)
  unfolding acknowledge_event
  acknowledge-P now id event = search (run_rules, strategy_row-P) depth 14

  step-P : (now : ℕ) (call : Call) (s : Database) → P s → P (step settings now call s)
  unfolding step
  step-P now (register_call id token enabled priority a b) s =
      (register-P now id token enabled priority a b).at s
  step-P now (order_call ready request) s = (begin_order-P now ready request).at s
  step-P now (cancel_call ready id key target) s = (begin_cancel-P now ready id key target).at s
  step-P now (saved_call stages request_id msg_id) s =
      (save_msg_id-P now stages request_id msg_id).at s
  step-P now (unknown_call request_id reason) s = (mark_unknown-P now request_id reason).at s
  step-P now (event_call message) s = (handle_event-P now message).at s
  step-P now (poll_call id limit) s = (poll-P now id limit).at s
  step-P now (acknowledge_call id event) s = (acknowledge-P now id event).at s

  pub run-P : (calls : List (ℕ × Call)) (s : Database) → P s → P (run settings calls s)
  unfolding run
  run-P [] s h = h
  run-P ((now, call) ∷ calls) s h = run-P calls (step settings now call s) (step-P now call s h)
