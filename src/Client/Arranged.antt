-- ===== src/Client/Arranged.antt =====
-- What the worker, the program and the connection do to the queue of the dispatcher (外置策略API/qmt_local_api/client.py,
-- 外置策略API/qmt_local_api/dispatcher.py).
use qmt_python_tcp.Prelude.{
  ℕ, ◌+◌, String, ◌≡◌, refl, sym, ap, Bool, true, false, none, List, [], ◌∷◌, ◌=t=◌, is_empty,
  if-both, value_error, arith,
}
use qmt_python_tcp.Client.Dispatcher.{
  Item, stop_item, dispatch_item, Thread, absent, alive, ended, Dispatcher, is_alive, register,
  unregister, start, is_full, stop, joined, take_item,
}
use qmt_python_tcp.Client.Delivery.{Handshake, Client}
use qmt_python_tcp.Client.Connect.{mismatches, connect_once}
use qmt_python_tcp.Client.Runs.{Arranges, registers, unregisters, starts, stops, joins}
use qmt_python_tcp.Client.Flight.{deliveries, if-ok, in_queue, in_hand, in_queue-append, IsOnce}

pub taken-IsOnce :
    (d : Dispatcher) (queue : List Item) (rest : String → ℕ) (pending completed : List String)
    → d.queue ≡ queue
    → IsOnce
        (λ y. in_hand y none + rest y)
        (record { queue = queue; pending = pending; completed = completed })
    → IsOnce
        (λ y. in_hand y (take_item d).0 + rest y)
        (record { queue = (take_item d).1.queue; pending = pending; completed = completed })
unfolding take_item
taken-IsOnce d [] rest pending completed e h =
    rw (take_item, e) (record { once = λ y. rw e (h.once y); apart = h.apart })
taken-IsOnce d (stop_item ∷ items) rest pending completed e h =
    rw (take_item, e) (record { once = λ y. omega (arith, h.once y); apart = h.apart })
taken-IsOnce d (dispatch_item message completion ∷ items) rest pending completed e h =
    rw (take_item, e) (record { once = λ y. omega (arith, h.once y); apart = h.apart })

stop-queue :
    (d : Dispatcher) (t : Thread)
    → d.thread ≡ t
    → (id : String) → in_queue id (stop d).queue ≡ in_queue id d.queue
unfolding stop
stop-queue d absent e id = rw (stop, e)
stop-queue d alive e id =
    let P : Dispatcher → Type 0 = λ d'. in_queue id d'.queue ≡ in_queue id d.queue in
    rw (stop, e)
      (if-both P (is_full d) _ _ refl (omega (arith, in_queue-append id d.queue (stop_item ∷ []))))
stop-queue d ended e id =
    let P : Dispatcher → Type 0 = λ d'. in_queue id d'.queue ≡ in_queue id d.queue in
    rw (stop, e)
      (if-both P (is_full d) _ _ refl (omega (arith, in_queue-append id d.queue (stop_item ∷ []))))

join-queue : (d : Dispatcher) (t : Thread) → d.thread ≡ t → (joined d).queue ≡ d.queue
unfolding joined
join-queue d absent e = rw (joined, e)
join-queue d alive e = rw (joined, e)
join-queue d ended e = rw (joined, e)

-- The program's calls on the dispatcher add no delivery to the queue.
pub Arranges-queue :
    {d d' : Dispatcher} → Arranges d d' → (id : String) → in_queue id d'.queue ≡ in_queue id d.queue
unfolding unregister start register
Arranges-queue (registers d d' msg_type h e) id =
    ap (λ d''. in_queue id d''.queue) (sym (if-ok (is_empty msg_type) value_error _ d' e))
Arranges-queue (unregisters d msg_type h) id = refl
Arranges-queue (starts d) id =
    let P : Dispatcher → Type 0 = λ d'. in_queue id d'.queue ≡ in_queue id d.queue in
    if-both P (is_alive d.thread) _ _ refl refl
Arranges-queue (stops d) id = stop-queue d d.thread refl id
Arranges-queue (joins d) id = ap (in_queue id) (join-queue d d.thread refl)

pub after_checks :
    (c : Client) (accepted : Bool) (handshake : Handshake) (fields : List String)
    → mismatches c.config handshake ≡ fields
    → deliveries (connect_once accepted handshake c).1 ≡ deliveries c
unfolding connect_once
after_checks c false handshake fields e =
    let P : Client → Type 0 = λ c'. deliveries c' ≡ deliveries c in
    if-both P (handshake.code =t= "HANDSHAKE_REJECTED") _ _ refl refl
after_checks c true handshake [] e = rw (connect_once, e)
after_checks c true handshake (x ∷ xs) e = rw (connect_once, e)
