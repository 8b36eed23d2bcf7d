-- ===== src/Client/Order.antt =====
-- The order of the dispatcher's queue (外置策略API/qmt_local_api/dispatcher.py).
use qmt_python_tcp.Prelude.{
  ◌≤◌, String, ◌≡◌, inl, inr, refl, sym, ap, ◌∙◌, Option, none, some, List, [], ◌∷◌, ◌++◌,
  if◌then◌else◌, arith, length, length-append, Bool-cases,
}
use qmt_python_tcp.Client.Broker.{Message}
use qmt_python_tcp.Client.Dispatcher.{
  Item, stop_item, dispatch_item, Dispatcher, is_full, submit, take_item,
}

-- A dispatcher, the items that it accepted and those that its worker has taken, in order.
pub record Trace : Type 0 where
  pub dispatcher : Dispatcher
  pub accepted : List Item
  pub out : List Item

abbrev pub item_list : Option Item → List Item
item_list none = []
item_list (some item) = item ∷ []

pub data QueueStep : Trace → Trace → Type 0 where
  submits :
      (d : Dispatcher) (accepted out : List Item) (message : Message) (completion : Option String)
      → QueueStep
          (record { dispatcher = d; accepted = accepted; out = out })
          (record {
            dispatcher = (submit message completion d).1;
            accepted =
                if (submit message completion d).0
                then accepted ++ dispatch_item message completion ∷ []
                else accepted;
            out = out;
          })
  takes :
      (d : Dispatcher) (accepted out : List Item)
      → QueueStep
          (record { dispatcher = d; accepted = accepted; out = out })
          (record {
            dispatcher = (take_item d).1;
            accepted = accepted;
            out = out ++ item_list (take_item d).0;
          })

pub data QueueRun (first : Trace) : Trace → Type 0 where
  begun : QueueRun first first
  extended : {t t' : Trace} → QueueRun first t → QueueStep t t' → QueueRun first t'

-- What was accepted is what was taken and what is still queued, in one order; and the queue is
-- bounded.
pub record IsFifo (t : Trace) : Type 0 where
  pub order : t.accepted ≡ t.out ++ t.dispatcher.queue
  pub bounded : length t.dispatcher.queue ≤ t.dispatcher.max_queue_size

append_assoc : (xs ys zs : List Item) → (xs ++ ys) ++ zs ≡ xs ++ (ys ++ zs)
append_assoc [] ys zs = refl
append_assoc (x ∷ xs) ys zs = ap (λ l. x ∷ l) (append_assoc xs ys zs)

append-nil : (xs : List Item) → xs ++ [] ≡ xs
append-nil [] = refl
append-nil (x ∷ xs) = ap (λ l. x ∷ l) (append-nil xs)

takes-IsFifo :
    (d : Dispatcher) (queue accepted out : List Item)
    → d.queue ≡ queue
    → accepted ≡ out ++ queue
    → length queue ≤ d.max_queue_size
    → IsFifo (record {
      dispatcher = (take_item d).1;
      accepted = accepted;
      out = out ++ item_list (take_item d).0;
    })
unfolding take_item
takes-IsFifo d [] accepted out e order bounded =
    rw (take_item, e) (record { order = rw (append-nil out, e) order; bounded = rw e bounded })
takes-IsFifo d (stop_item ∷ rest) accepted out e order bounded =
    rw (take_item, e)
      (record {
        order = order ∙ sym (append_assoc out (stop_item ∷ []) rest);
        bounded = omega (arith, bounded);
      })
takes-IsFifo d (dispatch_item message completion ∷ rest) accepted out e order bounded =
    rw (take_item, e)
      (record {
        order = order ∙ sym (append_assoc out (dispatch_item message completion ∷ []) rest);
        bounded = omega (arith, bounded);
      })

Step-IsFifo : {t t' : Trace} → QueueStep t t' → IsFifo t → IsFifo t'
unfolding submit
Step-IsFifo (submits d accepted out message completion) h = elim (Bool-cases (is_full d)) [
  | inl full ↦ rw full (record { order = h.order; bounded = h.bounded })
  | inr space ↦
      let item = dispatch_item message completion in
      rw space (record {
        order = ap (λ l. l ++ item ∷ []) (h.order) ∙ append_assoc out d.queue (item ∷ []);
        bounded = ground (arith, length-append d.queue (item ∷ []), space);
      })
]
Step-IsFifo (takes d accepted out) h = takes-IsFifo d d.queue accepted out refl h.order h.bounded

-- Whatever the poll thread submits and however the worker runs: the worker takes the accepted
-- messages in the order in which they were accepted, each once and without a gap; the queue holds
-- those that are left, and never more than its size.
pub taken_in_order :
    {first t : Trace}
    → first.accepted ≡ first.out ++ first.dispatcher.queue
    → length first.dispatcher.queue ≤ first.dispatcher.max_queue_size
    → QueueRun first t
    → (t.accepted ≡ t.out ++ t.dispatcher.queue)
      × (length t.dispatcher.queue ≤ t.dispatcher.max_queue_size)
taken_in_order order bounded begun = (order, bounded)
taken_in_order order bounded (extended run step) =
    let (order', bounded') = taken_in_order order bounded run in
    let h = Step-IsFifo step (record { order = order'; bounded = bounded' }) in (h.order, h.bounded)
