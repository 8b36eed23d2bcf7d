-- ===== src/Client/Dispatches.antt =====
-- What the poll thread and the worker of a client (外置策略API/qmt_local_api/client.py) do to the deliveries.
use mathlib.Core.Path.{subst}
use qmt_python_tcp.Prelude.{
  ℕ, ◌+◌, String, ◌≡◌, ◌⊎◌, inl, inr, refl, sym, ◌∙◌, Bool, true, false, none, List, [], ◌∷◌, ◌++◌,
  ◌=t=◌, is_empty, if-both, is_one_of, arith, eq_iff, Bool-cases,
}
use qmt_python_tcp.Client.Broker.{Message, resolve}
use qmt_python_tcp.Client.Sets.{discard, touch, trim, is_one_of-touch, is_one_of-trim}
use qmt_python_tcp.Client.Dispatcher.{dispatch_item}
use qmt_python_tcp.Client.Delivery.{
  Client, note_completed, mark_completed_and_ack, is_pending, handle_response,
}
use qmt_python_tcp.Client.Flight.{
  Deliveries, deliveries, mark-deliveries, failed-deliveries, in_queue, in_queue-append, IsOnce,
  discard-IsOnce,
}

pub touch-IsOnce :
    (id : String) (away : String → ℕ) (d : Deliveries)
    → is_one_of id d.completed ≡ true
    → IsOnce away d
    → IsOnce away (record d { completed = touch id d.completed })
touch-IsOnce id away d done h = record {
  once = h.once;
  apart = λ y yes. elim (is_one_of-touch id y d.completed yes) [
    | inl same ↦ h.apart y (rw ((eq_iff y id).0 same) done)
    | inr before ↦ h.apart y before
  ];
}

-- A delivery that is not pending is neither queued nor away.
nowhere :
    (id : String) (away : String → ℕ) (d : Deliveries)
    → is_one_of id d.pending ≡ false
    → IsOnce away d
    → away id + in_queue id d.queue ≡ 0
nowhere id away d free h = h.once id ∙ rw free

-- A delivery that nobody has yet has failed.
pub failed-IsOnce :
    (id : String) (away : String → ℕ) (d : Deliveries)
    → is_one_of id d.pending ≡ false
    → IsOnce away d
    → IsOnce away (record d { pending = discard id d.pending })
failed-IsOnce id away d free h =
    discard-IsOnce id away away d d.queue d.completed (nowhere id away d free h) (λ y other. refl)
      (λ y done. inr done) h

pub completed-members :
    (id : String) (limit : ℕ) (ids : List String) (y : String)
    → is_one_of y (trim limit (touch id ids)) ≡ true
    → ((y =t= id) ≡ true) ⊎ (is_one_of y ids ≡ true)
completed-members id limit ids y h =
    is_one_of-touch id y ids (is_one_of-trim limit y (touch id ids) h)

pub marked-IsOnce :
    (takes : Bool) (id : String) (away away' : String → ℕ) (c : Client)
    → away' id + in_queue id c.dispatcher.queue ≡ 0
    → ((y : String)
        → (y =t= id) ≡ false
        → away' y + in_queue y c.dispatcher.queue ≡ away y + in_queue y c.dispatcher.queue)
    → IsOnce away (deliveries c)
    → IsOnce away' (deliveries (mark_completed_and_ack takes id c))
marked-IsOnce takes id away away' c gone others h =
    subst (IsOnce away') (sym (mark-deliveries takes id c)) (
      unfold note_completed in
      discard-IsOnce id away away' (deliveries c) c.dispatcher.queue
        (trim c.completed_delivery_cache (touch id c.completed_deliveries)) gone others
        (completed-members id c.completed_delivery_cache c.completed_deliveries) h)

pub handle_response-IsOnce :
    (takes : Bool) (message : Message) (away : String → ℕ) (c : Client)
    → is_pending message c ≡ false
    → IsOnce away (deliveries c)
    → IsOnce away (deliveries (handle_response takes message c))
unfolding handle_response
handle_response-IsOnce takes message away c free h =
    let id = message.delivery_id in
    let (resolved, b) = resolve message c.query_broker in
    let c' : Client = record c { query_broker = b } in
    let P : Client → Type 0 = λ c'. IsOnce away (deliveries c') in
    elim (Bool-cases (is_empty id)) [
      | inl anonymous ↦ rw anonymous h
      | inr named ↦
          let not_there : is_one_of id c.pending_deliveries ≡ false = ground (arith, free, named) in
          rw named (
            if-both P resolved _ _
              (marked-IsOnce takes id away away c' (nowhere id away (deliveries c) not_there h)
                (λ y other. refl) h)
              (subst (IsOnce away) (sym (failed-deliveries id c'))
                (failed-IsOnce id away (deliveries c) not_there h)))
    ]

pub quiet-IsOnce :
    (message : Message) (away : String → ℕ) (d : Deliveries)
    → IsOnce away d
    → IsOnce away (record d { queue = d.queue ++ dispatch_item message none ∷ [] })
quiet-IsOnce message away d h = record {
  once = λ y. omega (arith, h.once y, in_queue-append y d.queue (dispatch_item message none ∷ []));
  apart = h.apart;
}
