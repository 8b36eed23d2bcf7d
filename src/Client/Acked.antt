-- ===== src/Client/Acked.antt =====
-- What the client (外置策略API/qmt_local_api/client.py) acknowledges, in a run.
use qmt_python_tcp.Prelude.{
  String, ◌≡◌, inl, inr, refl, ap, Bool, true, false, Option, none, some, List, [], ◌∷◌, ◌++◌,
  ◌=t=◌, if-both, is_one_of, arith, eq_iff, eq_refl, Bool-cases,
}
use qmt_python_tcp.Client.Broker.{Message, resolve}
use qmt_python_tcp.Client.Sets.{touch, is_one_of-touch}
use qmt_python_tcp.Client.Dispatcher.{DispatchResult, acknowledgeable, dispatch_now}
use qmt_python_tcp.Client.Delivery.{
  Handshake, Client, disconnect, send_delivery_ack, finish_delivery, is_query_response,
  is_completed, is_pending, handle_inbound, poll,
}
use qmt_python_tcp.Client.Connect.{mismatches, connect_once}
use qmt_python_tcp.Client.Runs.{
  System, newly_answered, finish_item, newly_finished, Step, polled, taken, finished, stopped,
  arranged, asked, answered, disconnected, connected, Reach, here, after, IsNew,
}
use qmt_python_tcp.Client.Handled.{
  OnlyHandled, more_handled, send_delivery_ack-OnlyHandled, disconnect-OnlyHandled,
  mark-OnlyHandled, failed-OnlyHandled, same_lists, handle_response-OnlyHandled,
  hand_over-OnlyHandled,
}

polled_with :
    (takes : Bool) (message : Message) (handled : List String) (c : Client)
    → (is_completed message c ≡ false
        → is_pending message c ≡ false
        → is_query_response message ≡ true
        → (resolve message c.query_broker).0 ≡ true
        → is_one_of message.delivery_id handled ≡ true)
    → OnlyHandled handled c
    → OnlyHandled handled (poll takes message c)
unfolding poll handle_inbound
polled_with takes message handled c there_when h =
    let P : Client → Type 0 = OnlyHandled handled in
    let id = message.delivery_id in
    elim (Bool-cases (is_completed message c)) [
      | inl done ↦
          let c' : Client = record c { completed_deliveries = touch id c.completed_deliveries } in
          let was_done : is_one_of id c.completed_deliveries ≡ true = ground (arith, done) in
          let there = h.completed_handled id was_done in
          let touched : OnlyHandled handled c' = record {
            sent_handled = h.sent_handled;
            completed_handled = λ y e. elim (is_one_of-touch id y c.completed_deliveries e) [
              | inl same ↦ rw ((eq_iff y id).0 same) there
              | inr before ↦ h.completed_handled y before
            ];
            acknowledged_sent = h.acknowledged_sent;
          } in
          let h' = send_delivery_ack-OnlyHandled takes id handled c' there touched in
          let (went, c'') = send_delivery_ack takes id c' in
          rw done (if-both P went c'' (disconnect c'') h' (disconnect-OnlyHandled handled c'' h'))
      | inr fresh ↦ elim (Bool-cases (is_pending message c)) [
        | inl waiting ↦ rw (fresh, waiting) h
        | inr free ↦ elim (Bool-cases (is_query_response message)) [
          | inl query ↦
              rw (fresh, free, query)
                (handle_response-OnlyHandled takes message handled c (there_when fresh free query)
                  h)
          | inr event ↦ rw (fresh, free, event) (hand_over-OnlyHandled message handled c h)
        ]
      ]
    ]

poll-OnlyHandled :
    (takes : Bool) (message : Message) (handled : List String) (c : Client)
    → OnlyHandled handled c
    → OnlyHandled (newly_answered message c ++ handled) (poll takes message c)
unfolding newly_answered
poll-OnlyHandled takes message handled c h =
    polled_with takes message (newly_answered message c ++ handled) c
      (λ fresh free query resolved.
        rw (newly_answered, fresh, free, query, resolved, eq_refl message.delivery_id))
      (more_handled (newly_answered message c) handled c h)

finish-OnlyHandled :
    (takes : Bool) (completion : Option String) (result : DispatchResult) (handled : List String)
    (c : Client)
    → OnlyHandled handled c
    → OnlyHandled
        (newly_finished completion result ++ handled)
        (finish_item takes completion result c)
unfolding finish_item finish_delivery newly_finished
finish-OnlyHandled takes none result handled c h = h
finish-OnlyHandled takes (some id) result handled c h = elim (Bool-cases (acknowledgeable result)) [
  | inl fine ↦ rw fine (
      mark-OnlyHandled takes id (id ∷ handled) c (rw (eq_refl id))
        (more_handled (id ∷ []) handled c h))
  | inr bad ↦ rw bad (failed-OnlyHandled id handled c h)
]

connect-OnlyHandled :
    (handled : List String) (c : Client) (accepted : Bool) (handshake : Handshake)
    (fields : List String)
    → mismatches c.config handshake ≡ fields
    → OnlyHandled handled c
    → OnlyHandled handled (connect_once accepted handshake c).1
unfolding connect_once
connect-OnlyHandled handled c false handshake fields e h =
    if-both (OnlyHandled handled) (handshake.code =t= "HANDSHAKE_REJECTED") _ _
      (same_lists handled c _ refl refl refl h) (same_lists handled c _ refl refl refl h)
connect-OnlyHandled handled c true handshake [] e h =
    rw (connect_once, e) (same_lists handled c _ refl refl refl h)
connect-OnlyHandled handled c true handshake (x ∷ xs) e h =
    rw (connect_once, e) (same_lists handled c _ refl refl refl h)

Step-OnlyHandled :
    {s s' : System} → Step s s' → OnlyHandled s.handled s.client → OnlyHandled s'.handled s'.client
Step-OnlyHandled (polled c current handled takes message) h =
    poll-OnlyHandled takes message handled c h
Step-OnlyHandled (taken c handled running) h = same_lists handled c _ refl refl refl h
Step-OnlyHandled (finished c handled takes raises message completion) h =
    finish-OnlyHandled takes completion (dispatch_now raises message c.dispatcher) handled c h
Step-OnlyHandled (stopped c handled) h = h
Step-OnlyHandled (arranged c current handled d how) h = same_lists handled c _ refl refl refl h
Step-OnlyHandled (asked c current handled msg_id b e) h = same_lists handled c _ refl refl refl h
Step-OnlyHandled (answered c current handled msg_id) h = same_lists handled c _ refl refl refl h
Step-OnlyHandled (disconnected c current handled) h = disconnect-OnlyHandled handled c h
Step-OnlyHandled (connected c current handled accepted handshake) h =
    connect-OnlyHandled handled c accepted handshake (mismatches c.config handshake) refl h

Reach-OnlyHandled :
    {first s : System}
    → OnlyHandled first.handled first.client
    → Reach first s
    → OnlyHandled s.handled s.client
Reach-OnlyHandled h here = h
Reach-OnlyHandled h (after reach step) = Step-OnlyHandled step (Reach-OnlyHandled h reach)

IsNew-OnlyHandled : {s : System} → IsNew s → OnlyHandled s.handled s.client
IsNew-OnlyHandled {s} new = record {
  sent_handled = λ y e. absurd (let bad = ap (is_one_of y) (new.nothing_sent) in cc);
  completed_handled = λ y e. absurd (let bad = ap (is_one_of y) (new.nothing_completed) in cc);
  acknowledged_sent = λ y e. absurd (let bad = ap (is_one_of y) (new.nothing_acknowledged) in cc);
}

-- In every interleaving of the poll thread, the worker and the program: the client has sent an
-- acknowledgement only for deliveries that were handled, and reports as acknowledged only deliveries
-- whose acknowledgement was sent.
pub acknowledged_means_handled :
    {first s : System}
    → IsNew first
    → Reach first s
    → (id : String)
    → (is_one_of id s.client.sent_acks ≡ true → is_one_of id s.handled ≡ true)
      × (is_one_of id s.client.acknowledged_deliveries ≡ true
          → is_one_of id s.client.sent_acks ≡ true)
acknowledged_means_handled new reach id =
    let h = Reach-OnlyHandled (IsNew-OnlyHandled new) reach in
    (h.sent_handled id, h.acknowledged_sent id)
