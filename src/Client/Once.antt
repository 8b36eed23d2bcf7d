-- ===== src/Client/Once.antt =====
-- How often a delivery is dispatched (外置策略API/qmt_local_api/client.py,
-- 外置策略API/qmt_local_api/dispatcher.py).
use mathlib.Core.Path.{subst}
use qmt_python_tcp.Prelude.{
  ℕ, ◌+◌, String, ◌≡◌, inl, inr, refl, sym, true, false, none, some, is_empty, if◌then◌else◌,
  is_one_of, arith, Bool-cases,
}
use qmt_python_tcp.Client.Broker.{Message}
use qmt_python_tcp.Client.Dispatcher.{dispatch_item, is_full, submit, dispatch_now}
use qmt_python_tcp.Client.Delivery.{Client, disconnect, hand_over}
use qmt_python_tcp.Client.Connect.{mismatches}
use qmt_python_tcp.Client.Interleaved.{
  waiting, checked, added, Threads, ThreadStep, touches, acknowledges, checks, responds, hands_over,
  adds, submits, takes_item, finishes, dies, ends, arranges, queries, disconnects, connects,
  ThreadRun, begun, onward, IsFresh,
}
use qmt_python_tcp.Client.Flight.{
  deliveries, send_delivery_ack-deliveries, in_queue, in_hand, IsOnce, add-IsOnce,
}
use qmt_python_tcp.Client.Dispatches.{touch-IsOnce, handle_response-IsOnce, quiet-IsOnce}
use qmt_python_tcp.Client.Placed.{
  in_poll, away_of, Unseen, IsKept, unmoved, checked-Unseen, Unseen-free, submit-IsOnce,
  finish-IsOnce, finish-Unseen,
}
use qmt_python_tcp.Client.Arranged.{taken-IsOnce, Arranges-queue, after_checks}

anonymous-IsOnce :
    (message : Message) (away : String → ℕ) (c : Client)
    → is_empty message.delivery_id ≡ true
    → IsOnce away (deliveries c)
    → IsOnce away (deliveries (hand_over message c))
unfolding hand_over submit
anonymous-IsOnce message away c anonymous h =
    rw anonymous (elim (Bool-cases (is_full c.dispatcher)) [
      | inl full ↦ rw full h
      | inr space ↦ rw space (quiet-IsOnce message away (deliveries c) h)
    ])

-- Every step keeps it that a delivery is handled once at a time.
Step-IsKept : {s s' : Threads} → ThreadStep s s' → IsKept s → IsKept s'
unfolding disconnect
Step-IsKept (touches c current lost message done) h = record {
  once =
      touch-IsOnce message.delivery_id (away_of waiting current lost) (deliveries c)
        (ground (arith, done)) h.once;
  unseen = tt;
}
Step-IsKept (acknowledges c poller current lost takes id) h =
    unmoved c _ poller current lost (send_delivery_ack-deliveries takes id c) h
Step-IsKept (checks c current lost message fresh free) h = record {
  once = record { once = λ y. omega (arith, h.once.once y); apart = h.once.apart };
  unseen = checked-Unseen message c fresh free;
}
Step-IsKept (responds c current lost takes message query) h = record {
  once =
      handle_response-IsOnce takes message (away_of waiting current lost) c
        (Unseen-free message c h.unseen)
        (record { once = λ y. omega (arith, h.once.once y); apart = h.once.apart });
  unseen = tt;
}
Step-IsKept (hands_over c current lost message event anonymous) h = record {
  once =
      anonymous-IsOnce message (away_of waiting current lost) c anonymous
        (record { once = λ y. omega (arith, h.once.once y); apart = h.once.apart });
  unseen = tt;
}
Step-IsKept (adds c current lost message event named) h = record {
  once =
      add-IsOnce message.delivery_id (away_of (checked message) current lost)
        (away_of (added message) current lost) (deliveries c) (h.unseen named).0 (h.unseen named).1
        (λ y. omega arith) h.once;
  unseen = tt;
}
Step-IsKept (submits c current lost message) h = record {
  once = submit-IsOnce message current lost c h.once;
  unseen = tt;
}
Step-IsKept (takes_item c poller lost running) h =
    let rest : String → ℕ = λ y. in_poll y poller + in_queue y lost in
    let before : IsOnce (λ y. in_hand y none + rest y) (deliveries c) = record {
      once = λ y. omega (arith, h.once.once y);
      apart = h.once.apart;
    } in
    let later =
      taken-IsOnce c.dispatcher c.dispatcher.queue rest c.pending_deliveries c.completed_deliveries
        refl before in
    record {
      once = record { once = λ y. omega (arith, later.once y); apart = later.apart };
      unseen = h.unseen;
    }
Step-IsKept (finishes c poller lost takes raises message completion) h =
    let rest : String → ℕ = λ y. in_poll y poller + in_queue y lost in
    let before : IsOnce (λ y. in_hand y (some (dispatch_item message completion)) + rest y)
        (deliveries c) =
      record { once = λ y. omega (arith, h.once.once y); apart = h.once.apart } in
    let result = dispatch_now raises message c.dispatcher in
    let later = finish-IsOnce takes completion result message rest c before in
    record {
      once = record { once = λ y. omega (arith, later.once y); apart = later.apart };
      unseen = finish-Unseen takes completion result message poller lost c h.once h.unseen;
    }
Step-IsKept (dies c poller lost item) h = record {
  once = record { once = λ y. omega (arith, h.once.once y); apart = h.once.apart };
  unseen = h.unseen;
}
Step-IsKept (ends c poller lost) h = record {
  once = record { once = λ y. omega (arith, h.once.once y); apart = h.once.apart };
  unseen = h.unseen;
}
Step-IsKept (arranges c poller current lost d how) h = record {
  once = record {
    once = λ y. omega (arith, h.once.once y, Arranges-queue how y);
    apart = h.once.apart;
  };
  unseen = h.unseen;
}
Step-IsKept (queries c poller current lost b) h = record { once = h.once; unseen = h.unseen }
Step-IsKept (disconnects c poller current lost) h =
    unmoved c (disconnect c) poller current lost refl h
Step-IsKept (connects c poller current lost accepted handshake) h =
    unmoved c _ poller current lost
      (after_checks c accepted handshake (mismatches c.config handshake) refl) h

IsFresh-IsKept : {s : Threads} → IsFresh s → IsKept s
IsFresh-IsKept {s} h = record {
  once = record {
    once = λ y.
        rw (h.nothing_polled, h.nothing_taken, h.nothing_lost, h.nothing_queued, h.nothing_pending);
    apart = λ y done. rw (h.nothing_pending);
  };
  unseen =
      subst (λ p. Unseen p s.client.pending_deliveries s.client.completed_deliveries)
        (sym h.nothing_polled) tt;
}

Run-IsKept : {first s : Threads} → IsKept first → ThreadRun first s → IsKept s
Run-IsKept h begun = h
Run-IsKept h (onward run step) = Step-IsKept step (Run-IsKept h run)

-- In every interleaving of the poll thread, the worker and the program, with handlers that end the
-- worker too: a delivery that is pending is in one place, which is the poll thread between adding it
-- and submitting it, the queue, the worker, or a worker that died with it; one that is not pending is
-- in none; and one that is among the completed ones is not pending.
pub handled_once_at_a_time :
    {first s : Threads}
    → IsFresh first
    → ThreadRun first s
    → (id : String)
    → (in_poll id s.poller
          + (in_hand id s.current + in_queue id s.lost)
          + in_queue id s.client.dispatcher.queue
        ≡ (if is_one_of id s.client.pending_deliveries then 1 else 0))
      × (is_one_of id s.client.completed_deliveries ≡ true
          → is_one_of id s.client.pending_deliveries ≡ false)
handled_once_at_a_time new run id =
    let h = Run-IsKept (IsFresh-IsKept new) run in (h.once.once id, h.once.apart id)
