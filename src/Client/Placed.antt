-- ===== src/Client/Placed.antt =====
-- Where a delivery is, and what a dispatch that ends leaves (外置策略API/qmt_local_api/client.py,
-- 外置策略API/qmt_local_api/dispatcher.py).
use mathlib.Core.Path.{subst}
use qmt_python_tcp.Prelude.{
  ℕ, ◌+◌, String, ◌≡◌, inl, inr, sym, ◌∙◌, Bool, true, false, Option, none, some, List, ◌=t=◌,
  is_empty, if◌then◌else◌, if-both, is_one_of, arith, eq_comm, eq_iff, eq_refl, Bool-cases,
}
use qmt_python_tcp.Client.Broker.{Message}
use qmt_python_tcp.Client.Sets.{discard, touch, trim, is_one_of-discard_other}
use qmt_python_tcp.Client.Dispatcher.{
  DispatchResult, acknowledgeable, Item, dispatch_item, is_full, submit,
}
use qmt_python_tcp.Client.Delivery.{
  Client, note_completed, finish_delivery, is_completed, is_pending, submit_delivery,
}
use qmt_python_tcp.Client.Runs.{finish_item}
use qmt_python_tcp.Client.Interleaved.{Poller, waiting, checked, added, Threads}
use qmt_python_tcp.Client.Flight.{
  Deliveries, deliveries, mark-deliveries, failed-deliveries, in_queue, in_hand, IsOnce,
  discard-IsOnce, queued-IsOnce,
}
use qmt_python_tcp.Client.Dispatches.{marked-IsOnce, completed-members}

-- How often a delivery is in the hand of the poll thread.
abbrev pub in_poll : String → Poller → ℕ
in_poll id (added message) = if message.delivery_id =t= id then 1 else 0
in_poll id _ = 0

-- How often a delivery is not in the queue, but with the poll thread, the worker or a worker that died.
abbrev pub away_of : Poller → Option Item → List Item → String → ℕ
away_of poller current lost id = in_poll id poller + (in_hand id current + in_queue id lost)

-- What the poll thread has found still holds.
abbrev pub Unseen : Poller → List String → List String → Type 0
Unseen (checked message) pending completed =
    is_empty message.delivery_id ≡ false
    → (is_one_of message.delivery_id pending ≡ false)
      × (is_one_of message.delivery_id completed ≡ false)
Unseen _ pending completed = Unit {0}

pub record IsKept (s : Threads) : Type 0 where
  pub once : IsOnce (away_of s.poller s.current s.lost) (deliveries s.client)
  pub unseen : Unseen s.poller s.client.pending_deliveries s.client.completed_deliveries

-- A step that moves none of the deliveries.
pub unmoved :
    (c c' : Client) (poller : Poller) (current : Option Item) (lost : List Item)
    → deliveries c' ≡ deliveries c
    → IsKept (record { client = c; poller = poller; current = current; lost = lost })
    → IsKept (record { client = c'; poller = poller; current = current; lost = lost })
unmoved c c' poller current lost e h = record {
  once = subst (IsOnce (away_of poller current lost)) (sym e) h.once;
  unseen = subst (λ d. Unseen poller d.pending d.completed) (sym e) h.unseen;
}

pub checked-Unseen :
    (message : Message) (c : Client)
    → is_completed message c ≡ false
    → is_pending message c ≡ false
    → Unseen (checked message) c.pending_deliveries c.completed_deliveries
checked-Unseen message c fresh free named =
    (ground (arith, free, named), ground (arith, fresh, named))

pub Unseen-free :
    (message : Message) (c : Client)
    → Unseen (checked message) c.pending_deliveries c.completed_deliveries
    → is_pending message c ≡ false
Unseen-free message c u = elim (Bool-cases (is_empty message.delivery_id)) [
  | inl anonymous ↦ rw anonymous
  | inr named ↦ rw (named, (u named).0)
]

pub submit-IsOnce :
    (message : Message) (current : Option Item) (lost : List Item) (c : Client)
    → IsOnce (away_of (added message) current lost) (deliveries c)
    → IsOnce (away_of waiting current lost) (deliveries (submit_delivery message c))
unfolding submit
submit-IsOnce message current lost c h =
    let id = message.delivery_id in
    let away = away_of (added message) current lost in
    let away' = away_of waiting current lost in
    elim (Bool-cases (is_full c.dispatcher)) [
      | inl full ↦ rw full (
          subst (IsOnce away') (sym (failed-deliveries id c)) (
            discard-IsOnce id away away' (deliveries c) c.dispatcher.queue c.completed_deliveries
              (elim (Bool-cases (is_one_of id c.pending_deliveries)) [
                | inl there ↦ (let e = h.once id in ground (arith, e, there, eq_refl id))
                | inr gone ↦ (let e = h.once id in ground (arith, e, gone, eq_refl id))
              ])
              (λ y other. ground (arith, other, eq_comm y id)) (λ y done. inr done) h))
      | inr space ↦
          rw space (queued-IsOnce id message away away' (deliveries c) (λ y. omega arith) h)
    ]

-- What is in hand is pending, and it is nowhere else.
in_hand_gone :
    (id : String) (message : Message) (rest : String → ℕ) (d : Deliveries)
    → IsOnce (λ y. in_hand y (some (dispatch_item message (some id))) + rest y) d
    → (rest id + in_queue id d.queue ≡ 0) × (is_one_of id d.pending ≡ true)
in_hand_gone id message rest d h = elim (Bool-cases (is_one_of id d.pending)) [
  | inl there ↦ (let e = h.once id in (ground (arith, e, there, eq_refl id), there))
  | inr gone ↦ (let e = h.once id in absurd (ground (arith, e, gone, eq_refl id)))
]

pub finish-IsOnce :
    (takes : Bool) (completion : Option String) (result : DispatchResult) (message : Message)
    (rest : String → ℕ) (c : Client)
    → IsOnce (λ y. in_hand y (some (dispatch_item message completion)) + rest y) (deliveries c)
    → IsOnce rest (deliveries (finish_item takes completion result c))
unfolding finish_item finish_delivery
finish-IsOnce takes none result message rest c h = record {
  once = λ y. omega (arith, h.once y);
  apart = h.apart;
}
finish-IsOnce takes (some id) result message rest c h =
    let away : String → ℕ = λ y. in_hand y (some (dispatch_item message (some id))) + rest y in
    let (gone, there) = in_hand_gone id message rest (deliveries c) h in
    let others : (y : String)
        → (y =t= id) ≡ false
        → rest y + in_queue y c.dispatcher.queue ≡ away y + in_queue y c.dispatcher.queue =
      λ y other. ground (arith, other, eq_comm y id) in
    let P : Client → Type 0 = λ c'. IsOnce rest (deliveries c') in
    if-both P (acknowledgeable result) _ _ (marked-IsOnce takes id away rest c gone others h) (
      subst (IsOnce rest) (sym (failed-deliveries id c)) (
        discard-IsOnce id away rest (deliveries c) c.dispatcher.queue c.completed_deliveries gone
          others (λ y done. inr done) h))

-- The end of another dispatch changes nothing for a delivery that is new.
still_unseen :
    (id other : String) (c : Client)
    → (id =t= other) ≡ false
    → (is_one_of id c.pending_deliveries ≡ false) × (is_one_of id c.completed_deliveries ≡ false)
    → (is_one_of id (discard other c.pending_deliveries) ≡ false)
      × (is_one_of id (trim c.completed_delivery_cache (touch other c.completed_deliveries))
          ≡ false)
still_unseen id other c distinct (free, fresh) = (
  is_one_of-discard_other other id c.pending_deliveries distinct ∙ free,
  elim (Bool-cases
      (is_one_of id (trim c.completed_delivery_cache (touch other c.completed_deliveries)))) [
        | inl done ↦
            elim (completed-members other c.completed_delivery_cache c.completed_deliveries id
              done) [ inl same ↦ absurd cc | inr before ↦ absurd cc ]
        | inr missing ↦ missing
      ],
)

pub finish-Unseen :
    (takes : Bool) (completion : Option String) (result : DispatchResult) (message : Message)
    (poller : Poller) (lost : List Item) (c : Client)
    → IsOnce (away_of poller (some (dispatch_item message completion)) lost) (deliveries c)
    → Unseen poller c.pending_deliveries c.completed_deliveries
    → Unseen poller
        (finish_item takes completion result c).pending_deliveries
        (finish_item takes completion result c).completed_deliveries
unfolding finish_item finish_delivery note_completed
finish-Unseen takes completion result message waiting lost c h u = tt
finish-Unseen takes completion result message (added new) lost c h u = tt
finish-Unseen takes none result message (checked new) lost c h u = u
finish-Unseen takes (some id) result message (checked new) lost c h u = λ named.
    let key = new.delivery_id in
    let (free, fresh) = u named in
    let rest : String → ℕ = λ y. in_poll y (checked new) + in_queue y lost in
    let (gone, there) =
      in_hand_gone id message rest (deliveries c)
        (record { once = λ y. omega (arith, h.once y); apart = h.apart }) in
    let distinct : (key =t= id) ≡ false = elim (Bool-cases (key =t= id)) [
      | inl same ↦ absurd (
          let is =
            subst (λ z. is_one_of z c.pending_deliveries ≡ false) ((eq_iff key id).0 same) free in
          cc)
      | inr other ↦ other
    ] in
    let (free', fresh') = still_unseen key id c distinct (free, fresh) in
    let P : Client → Type 0 = λ c'.
      (is_one_of key c'.pending_deliveries ≡ false)
      × (is_one_of key c'.completed_deliveries ≡ false) in
    if-both P (acknowledgeable result) _ _
      (subst (λ d. (is_one_of key d.pending ≡ false) × (is_one_of key d.completed ≡ false))
        (sym (mark-deliveries takes id c)) (free', fresh'))
      (subst (λ d. (is_one_of key d.pending ≡ false) × (is_one_of key d.completed ≡ false))
        (sym (failed-deliveries id c)) (free', fresh))
