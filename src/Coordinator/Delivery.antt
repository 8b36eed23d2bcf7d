-- ===== src/Coordinator/Delivery.antt =====
-- An acknowledged event over runs of the coordinator (外置策略API/qmt_local_api/coordinator.py).
use qmt_python_tcp.Prelude.{
  ℕ, String, ◌≡◌, inl, inr, refl, Bool, Option, none, some, List, [], ◌∷◌, modify, Keeps,
  keeps_rules, Keeps-modify, Bool-cases,
}
use qmt_python_tcp.Coordinator.Rows.{
  Number, Intent, Strategy, Command, Reservation, Message, InboxRow, Database, Settings,
}
use qmt_python_tcp.Coordinator.Strategies.{register_strategy}
use qmt_python_tcp.Coordinator.Orders.{
  OrderRequest, begin_order, insert_command, check_limits, save_msg_id, persist_order, mark_unknown,
  insert_reservation,
}
use qmt_python_tcp.Coordinator.Events.{update_command, handle_event, deliver}
use qmt_python_tcp.Coordinator.Orders.{begin_found, mark_row, clashes}
use qmt_python_tcp.Coordinator.Cancels.{begin_cancel, cancel_found, persist_cancel}
use qmt_python_tcp.Coordinator.Events.{take_event, update_found}
use qmt_python_tcp.Coordinator.Strategies.{upsert_strategy}
use qmt_python_tcp.Coordinator.Runs.{
  Call, step, run, register_call, order_call, cancel_call, saved_call, unknown_call, event_call,
  poll_call, acknowledge_call,
}
use qmt_python_tcp.Coordinator.Acknowledged.{
  IsDone, deliver-IsDone, strategy_row-IsDone, poll-IsDone, acknowledge-IsDone,
}

module _ (settings : Settings) (event : String) where
  outbox_kept :
      (f : Database → Database)
      → ((s : Database) → (f s).outbox ≡ s.outbox)
      → Keeps (IsDone event) (modify f)
  outbox_kept f same =
      Keeps-modify f
        (λ s h. record { there = rw (same s) (h.there); settled = rw (same s) (h.settled) })

  commands-IsDone :
      (f : Database → List Command)
      → Keeps (IsDone event) (modify (λ s. record s { commands = f s }))
  commands-IsDone f = outbox_kept _ (λ s. refl)

  strategies-IsDone :
      (f : Database → List Strategy)
      → Keeps (IsDone event) (modify (λ s. record s { strategies = f s }))
  strategies-IsDone f = outbox_kept _ (λ s. refl)

  reservations-IsDone :
      (f : Database → List Reservation)
      → Keeps (IsDone event) (modify (λ s. record s { reservations = f s }))
  reservations-IsDone f = outbox_kept _ (λ s. refl)

  inbox-IsDone :
      (f : Database → List InboxRow) → Keeps (IsDone event) (modify (λ s. record s { inbox = f s }))
  inbox-IsDone f = outbox_kept _ (λ s. refl)

  delivered-IsDone :
      (now : ℕ) (message : Message) (targets : Database → List String)
      → Keeps
          (IsDone event)
          (modify (λ s. record s { outbox = deliver settings now message (targets s) s.outbox }))
  delivered-IsDone now message targets =
      Keeps-modify _ (λ s h. deliver-IsDone event settings now message (targets s) s h)

  insert_command-IsDone : (row : Command) → Keeps (IsDone event) (insert_command row)
  unfolding insert_command
  insert_command-IsDone row = record {
    at = λ s h. elim (Bool-cases (clashes row s.commands)) [
      | inl clash ↦ rw clash h
      | inr free ↦ rw free (record { there = h.there; settled = h.settled })
    ];
  }

  ruleset done_rules = (
    keeps_rules, commands-IsDone, strategies-IsDone, reservations-IsDone, inbox-IsDone,
    delivered-IsDone, insert_command-IsDone, strategy_row-IsDone,
  )

  check_limits-IsDone :
      (row : Strategy) (notional : ℕ) → Keeps (IsDone event) (check_limits settings row notional)
  unfolding check_limits
  check_limits-IsDone row notional = search done_rules depth 14

  begin_found-IsDone :
      (now : ℕ) (strategy : String) (request : OrderRequest) (intent : Intent) (quantity price : ℕ)
      (found : Option Command)
      → Keeps (IsDone event) (begin_found settings now strategy request intent quantity price found)
  unfolding begin_found persist_order insert_reservation
  begin_found-IsDone now strategy request intent quantity price none =
      search (done_rules, check_limits-IsDone) depth 14
  begin_found-IsDone now strategy request intent quantity price (some row) = search done_rules

  begin_order-IsDone :
      (now : ℕ) (ready : Bool) (request : OrderRequest)
      → Keeps (IsDone event) (begin_order settings now ready request)
  unfolding begin_order
  begin_order-IsDone now ready request = search (done_rules, begin_found-IsDone) depth 14

  upsert-IsDone :
      (row : Strategy) (old : Option Strategy) → Keeps (IsDone event) (upsert_strategy row old)
  unfolding upsert_strategy
  upsert-IsDone row none = search done_rules
  upsert-IsDone row (some old) = search done_rules

  register-IsDone :
      (now : ℕ) (id token : String) (enabled : Bool) (priority : ℕ) (a b : Number)
      → Keeps (IsDone event) (register_strategy settings now id token enabled priority a b)
  unfolding register_strategy
  register-IsDone now id token enabled priority a b = search (done_rules, upsert-IsDone) depth 12

  cancel_found-IsDone :
      (now : ℕ) (strategy key target : String) (found : Option Command)
      → Keeps (IsDone event) (cancel_found settings now strategy key target found)
  unfolding cancel_found persist_cancel
  cancel_found-IsDone now strategy key target none = search done_rules depth 12
  cancel_found-IsDone now strategy key target (some row) = search done_rules

  begin_cancel-IsDone :
      (now : ℕ) (ready : Bool) (id key target : String)
      → Keeps (IsDone event) (begin_cancel settings now ready id key target)
  unfolding begin_cancel
  begin_cancel-IsDone now ready id key target = search (done_rules, cancel_found-IsDone) depth 14

  save_msg_id-IsDone :
      (now : ℕ) (stages : List String) (request msg : String)
      → Keeps (IsDone event) (save_msg_id settings now stages request msg)
  unfolding save_msg_id
  save_msg_id-IsDone now stages request msg = search done_rules

  mark_row-IsDone :
      (now : ℕ) (reason : String) (found : Option Command)
      → Keeps (IsDone event) (mark_row now reason found)
  unfolding mark_row
  mark_row-IsDone now reason none = search done_rules
  mark_row-IsDone now reason (some row) = search done_rules

  mark_unknown-IsDone :
      (now : ℕ) (request_id reason : String)
      → Keeps (IsDone event) (mark_unknown settings now request_id reason)
  unfolding mark_unknown
  mark_unknown-IsDone now request_id reason = search (done_rules, mark_row-IsDone)

  update_found-IsDone :
      (now : ℕ) (message : Message) (found : Option Command)
      → Keeps (IsDone event) (update_found now message found)
  unfolding update_found update_command
  update_found-IsDone now message none = search done_rules
  update_found-IsDone now message (some row) = search done_rules depth 12

  take_event-IsDone :
      (now : ℕ) (message : Message) → Keeps (IsDone event) (take_event settings now message)
  unfolding take_event
  take_event-IsDone now message = search (done_rules, update_found-IsDone) depth 12

  handle_event-IsDone :
      (now : ℕ) (message : Message) → Keeps (IsDone event) (handle_event settings now message)
  unfolding handle_event
  handle_event-IsDone now message = search (done_rules, take_event-IsDone) depth 12

  step-IsDone :
      (now : ℕ) (call : Call) (s : Database)
      → IsDone event s
      → IsDone event (step settings now call s)
  unfolding step
  step-IsDone now (register_call id token enabled priority a b) s =
      (register-IsDone now id token enabled priority a b).at s
  step-IsDone now (order_call ready request) s = (begin_order-IsDone now ready request).at s
  step-IsDone now (cancel_call ready id key target) s =
      (begin_cancel-IsDone now ready id key target).at s
  step-IsDone now (saved_call stages request_id msg_id) s =
      (save_msg_id-IsDone now stages request_id msg_id).at s
  step-IsDone now (unknown_call request_id reason) s =
      (mark_unknown-IsDone now request_id reason).at s
  step-IsDone now (event_call message) s = (handle_event-IsDone now message).at s
  step-IsDone now (poll_call id limit) s = (poll-IsDone event now id limit).at s
  step-IsDone now (acknowledge_call id key) s = (acknowledge-IsDone event now id key).at s

  pub run-IsDone :
      (calls : List (ℕ × Call)) (s : Database)
      → IsDone event s
      → IsDone event (run settings calls s)
  unfolding run
  run-IsDone [] s h = h
  run-IsDone ((now, call) ∷ calls) s h =
      run-IsDone calls (step settings now call s) (step-IsDone now call s h)
