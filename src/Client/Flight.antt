-- ===== src/Client/Flight.antt =====
-- Where the deliveries of a client (外置策略API/qmt_local_api/client.py) are: pending, completed, and
-- behind the dispatcher's items.
use mathlib.Core.Path.{subst}
use qmt_python_tcp.Prelude.{
  ℕ, ◌+◌, String, ◌≡◌, ◌⊎◌, inl, inr, refl, ◌∙◌, Bool, true, false, Option, none, some, List, [],
  ◌∷◌, ◌++◌, not, ◌=t=◌, if◌then◌else◌, if-both, Error, ok-injective, ok, err, is_one_of, arith,
  eq_iff, eq_comm, Bool-cases,
}
use qmt_python_tcp.Client.Broker.{Message}
use qmt_python_tcp.Client.Sets.{discard, add, is_one_of-discard_self, is_one_of-discard_other}
use qmt_python_tcp.Client.Dispatcher.{Item, stop_item, dispatch_item}
use qmt_python_tcp.Client.Delivery.{
  Client, is_connected, disconnect, send, note_acknowledged, send_delivery_ack, note_completed,
  mark_completed_and_ack, delivery_failed,
}

-- The parts of the client that deliveries are decided by.
pub record Deliveries : Type 0 where
  pub queue : List Item
  pub pending : List String
  pub completed : List String

abbrev pub deliveries : Client → Deliveries
deliveries c = record {
  queue = c.dispatcher.queue;
  pending = c.pending_deliveries;
  completed = c.completed_deliveries;
}

-- What a call that may raise has returned.
pub if-ok :
    {A : Type 0} (b : Bool) (e : Error) (x y : A) → (if b then err e else ok x) ≡ ok y → x ≡ y
if-ok true e x y h = absurd cc
if-ok false e x y h = ok-injective h

disconnect-deliveries : (c : Client) → deliveries (disconnect c) ≡ deliveries c
unfolding disconnect
disconnect-deliveries c = refl

send-deliveries :
    (takes : Bool) (id : String) (c : Client) → deliveries (send takes id c).1 ≡ deliveries c
unfolding send
send-deliveries takes id c =
    let P : Bool × Client → Type 0 = λ r. deliveries r.1 ≡ deliveries c in
    if-both P (not (is_connected c)) _ _ refl (if-both P takes _ _ refl refl)

pub send_delivery_ack-deliveries :
    (takes : Bool) (id : String) (c : Client)
    → deliveries (send_delivery_ack takes id c).1 ≡ deliveries c
unfolding send_delivery_ack note_acknowledged
send_delivery_ack-deliveries takes id c =
    let P : Bool × Client → Type 0 = λ r. deliveries r.1 ≡ deliveries c in
    let (went, c') = send takes id c in
    if-both P went (true, note_acknowledged id c') (false, c') (send-deliveries takes id c)
      (send-deliveries takes id c)

pub mark-deliveries :
    (takes : Bool) (id : String) (c : Client)
    → deliveries (mark_completed_and_ack takes id c) ≡ deliveries (note_completed id c)
unfolding mark_completed_and_ack disconnect
mark-deliveries takes id c =
    let P : Client → Type 0 = λ c'. deliveries c' ≡ deliveries (note_completed id c) in
    let e = send_delivery_ack-deliveries takes id (note_completed id c) in
    let (went, c') = send_delivery_ack takes id (note_completed id c) in
    if-both P went c' (if c'.connected then disconnect c' else c') e
      (if-both P c'.connected (disconnect c') c' e e)

pub failed-deliveries :
    (id : String) (c : Client)
    → deliveries (delivery_failed id c)
      ≡ record (deliveries c) { pending = discard id c.pending_deliveries }
unfolding delivery_failed disconnect
failed-deliveries id c = refl

-- How often a delivery is behind an item.
abbrev pub carries : String → Item → ℕ
carries id stop_item = 0
carries id (dispatch_item message none) = 0
carries id (dispatch_item message (some delivery_id)) = if delivery_id =t= id then 1 else 0

abbrev pub in_queue : String → List Item → ℕ
in_queue id [] = 0
in_queue id (item ∷ items) = carries id item + in_queue id items

-- What a thread has in hand.
abbrev pub in_hand : String → Option Item → ℕ
in_hand id none = 0
in_hand id (some item) = carries id item

pub in_queue-append :
    (id : String) (xs ys : List Item) → in_queue id (xs ++ ys) ≡ in_queue id xs + in_queue id ys
in_queue-append id [] ys = omega arith
in_queue-append id (x ∷ xs) ys = omega (arith, in_queue-append id xs ys)

-- Each delivery that is pending is queued or away, once, and no other is; and a completed delivery is
-- not pending.
pub record IsOnce (away : String → ℕ) (d : Deliveries) : Type 0 where
  pub once :
      (id : String) → away id + in_queue id d.queue ≡ (if is_one_of id d.pending then 1 else 0)
  pub apart : (id : String) → is_one_of id d.completed ≡ true → is_one_of id d.pending ≡ false

-- Where a delivery is queued or in hand no more, and nothing changes for the others.
pub discard-IsOnce :
    (id : String) (away away' : String → ℕ) (d : Deliveries) (queue : List Item)
    (completed : List String)
    → away' id + in_queue id queue ≡ 0
    → ((y : String) → (y =t= id) ≡ false → away' y + in_queue y queue ≡ away y + in_queue y d.queue)
    → ((y : String)
        → is_one_of y completed ≡ true
        → ((y =t= id) ≡ true) ⊎ (is_one_of y d.completed ≡ true))
    → IsOnce away d
    → IsOnce away' (record { queue = queue; pending = discard id d.pending; completed = completed })
discard-IsOnce id away away' d queue completed gone others old h = record {
  once = λ y. elim (Bool-cases (y =t= id)) [
    | inl same ↦ rw ((eq_iff y id).0 same, is_one_of-discard_self id d.pending) gone
    | inr other ↦ rw (is_one_of-discard_other id y d.pending other) (others y other ∙ h.once y)
  ];
  apart = λ y done. elim (Bool-cases (y =t= id)) [
    | inl same ↦ rw ((eq_iff y id).0 same) (is_one_of-discard_self id d.pending)
    | inr other ↦
        rw (is_one_of-discard_other id y d.pending other)
          (elim (old y done) [ inl same ↦ absurd cc | inr before ↦ h.apart y before ])
  ];
}

-- Where a new delivery is added to the pending ones.
pub add-IsOnce :
    (id : String) (away away' : String → ℕ) (d : Deliveries)
    → is_one_of id d.pending ≡ false
    → is_one_of id d.completed ≡ false
    → ((y : String) → away' y ≡ (if id =t= y then 1 else 0) + away y)
    → IsOnce away d
    → IsOnce away' (record d { pending = add id d.pending })
unfolding add
add-IsOnce id away away' d free fresh more h = record {
  once = λ y. elim (Bool-cases (y =t= id)) [
    | inl same ↦
        let is = (eq_iff y id).0 same in
        let none_yet : away y + in_queue y d.queue ≡ 0 = h.once y ∙ rw (is, free) in
        ground (arith, none_yet, same, eq_comm y id, more y)
    | inr other ↦
        ground (
          arith,
          other,
          eq_comm y id,
          h.once y,
          more y,
          is_one_of-discard_other id y d.pending other,
        )
  ];
  apart = λ y done. elim (Bool-cases (y =t= id)) [
    | inl same ↦
        absurd (
          let there = subst (λ z. is_one_of z d.completed ≡ true) ((eq_iff y id).0 same) done in cc)
    | inr other ↦
        ground (arith, other, is_one_of-discard_other id y d.pending other, h.apart y done)
  ];
}

-- Where what was away is queued.
pub queued-IsOnce :
    (id : String) (message : Message) (away away' : String → ℕ) (d : Deliveries)
    → ((y : String) → away y ≡ (if id =t= y then 1 else 0) + away' y)
    → IsOnce away d
    → IsOnce away' (record d { queue = d.queue ++ dispatch_item message (some id) ∷ [] })
queued-IsOnce id message away away' d more h = record {
  once = λ y.
      omega
        (arith, h.once y, more y, in_queue-append y d.queue (dispatch_item message (some id) ∷ []));
  apart = h.apart;
}
