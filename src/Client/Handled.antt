-- ===== src/Client/Handled.antt =====
-- That the client (外置策略API/qmt_local_api/client.py) acknowledges only what was handled: its
-- operations.
use qmt_python_tcp.Prelude.{
  String, ◌≡◌, inl, inr, refl, sym, ap, ◌∙◌, Bool, true, List, [], ◌∷◌, ◌++◌, ◌=t=◌, is_empty,
  if◌then◌else◌, if-both, is_one_of, arith, eq_iff, Bool-cases,
}
use qmt_python_tcp.Client.Broker.{Message, resolve}
use qmt_python_tcp.Client.Sets.{
  discard, add, touch, is_one_of-append, is_one_of-touch, is_one_of-trim,
}
use qmt_python_tcp.Client.Dispatcher.{is_full, submit}
use qmt_python_tcp.Client.Delivery.{
  Client, is_connected, disconnect, send, note_acknowledged, send_delivery_ack, note_completed,
  mark_completed_and_ack, delivery_failed, handle_response, hand_over,
}

-- What went out or is remembered was handled, and what is remembered as acknowledged went out.
pub record OnlyHandled (handled : List String) (c : Client) : Type 0 where
  pub sent_handled : (y : String) → is_one_of y c.sent_acks ≡ true → is_one_of y handled ≡ true
  pub completed_handled :
      (y : String) → is_one_of y c.completed_deliveries ≡ true → is_one_of y handled ≡ true
  pub acknowledged_sent :
      (y : String) → is_one_of y c.acknowledged_deliveries ≡ true → is_one_of y c.sent_acks ≡ true

pub more_handled :
    (extra handled : List String) (c : Client)
    → OnlyHandled handled c
    → OnlyHandled (extra ++ handled) c
more_handled extra handled c h =
    let wider : (y : String) → is_one_of y handled ≡ true → is_one_of y (extra ++ handled) ≡ true =
      λ y there. ground (arith, is_one_of-append y extra handled, there) in
    record {
      sent_handled = λ y sent. wider y (h.sent_handled y sent);
      completed_handled = λ y done. wider y (h.completed_handled y done);
      acknowledged_sent = h.acknowledged_sent;
    }

went_out :
    (id : String) (handled : List String) (c : Client)
    → is_one_of id handled ≡ true
    → OnlyHandled handled c
    → OnlyHandled handled (record (note_acknowledged id c) { sent_acks = c.sent_acks ++ id ∷ [] })
unfolding note_acknowledged
went_out id handled c there h = record {
  sent_handled = λ y sent. elim (Bool-cases (y =t= id)) [
    | inl same ↦ rw ((eq_iff y id).0 same) there
    | inr other ↦
        h.sent_handled y (ground (arith, is_one_of-append y c.sent_acks (id ∷ []), sent, other))
  ];
  completed_handled = h.completed_handled;
  acknowledged_sent = λ y known.
      let wider = is_one_of-append y c.sent_acks (id ∷ []) in
      elim (is_one_of-touch id y c.acknowledged_deliveries
        (is_one_of-trim c.completed_delivery_cache y (touch id c.acknowledged_deliveries) known)) [
          | inl same ↦ ground (arith, wider, same)
          | inr before ↦ (let sent = h.acknowledged_sent y before in ground (arith, wider, sent))
        ];
}

pub send_delivery_ack-OnlyHandled :
    (takes : Bool) (id : String) (handled : List String) (c : Client)
    → is_one_of id handled ≡ true
    → OnlyHandled handled c
    → OnlyHandled handled (send_delivery_ack takes id c).1
unfolding send_delivery_ack send
send_delivery_ack-OnlyHandled takes id handled c there h = elim (Bool-cases (is_connected c)) [
  | inr off ↦ rw off h
  | inl on ↦ rw on (elim (Bool-cases takes) [
    | inl took ↦ rw took (went_out id handled c there h)
    | inr lost ↦ rw lost (record {
      sent_handled = h.sent_handled;
      completed_handled = h.completed_handled;
      acknowledged_sent = h.acknowledged_sent;
    })
  ])
]

pub disconnect-OnlyHandled :
    (handled : List String) (c : Client)
    → OnlyHandled handled c
    → OnlyHandled handled (disconnect c)
unfolding disconnect
disconnect-OnlyHandled handled c h = record {
  sent_handled = h.sent_handled;
  completed_handled = h.completed_handled;
  acknowledged_sent = h.acknowledged_sent;
}

note_completed-OnlyHandled :
    (id : String) (handled : List String) (c : Client)
    → is_one_of id handled ≡ true
    → OnlyHandled handled c
    → OnlyHandled handled (note_completed id c)
unfolding note_completed
note_completed-OnlyHandled id handled c there h = record {
  sent_handled = h.sent_handled;
  completed_handled = λ y done.
      elim (is_one_of-touch id y c.completed_deliveries
        (is_one_of-trim c.completed_delivery_cache y (touch id c.completed_deliveries) done)) [
          | inl same ↦ rw ((eq_iff y id).0 same) there
          | inr before ↦ h.completed_handled y before
        ];
  acknowledged_sent = h.acknowledged_sent;
}

pub mark-OnlyHandled :
    (takes : Bool) (id : String) (handled : List String) (c : Client)
    → is_one_of id handled ≡ true
    → OnlyHandled handled c
    → OnlyHandled handled (mark_completed_and_ack takes id c)
unfolding mark_completed_and_ack
mark-OnlyHandled takes id handled c there h =
    let P : Client → Type 0 = OnlyHandled handled in
    let noted = note_completed-OnlyHandled id handled c there h in
    let h' = send_delivery_ack-OnlyHandled takes id handled (note_completed id c) there noted in
    let (went, c') = send_delivery_ack takes id (note_completed id c) in
    if-both P went c' (if c'.connected then disconnect c' else c') h'
      (if-both P c'.connected (disconnect c') c' (disconnect-OnlyHandled handled c' h') h')

pub failed-OnlyHandled :
    (id : String) (handled : List String) (c : Client)
    → OnlyHandled handled c
    → OnlyHandled handled (delivery_failed id c)
unfolding delivery_failed
failed-OnlyHandled id handled c h =
    disconnect-OnlyHandled handled
      (record c { pending_deliveries = discard id c.pending_deliveries })
      (record {
        sent_handled = h.sent_handled;
        completed_handled = h.completed_handled;
        acknowledged_sent = h.acknowledged_sent;
      })

pub same_lists :
    (handled : List String) (c c' : Client)
    → c'.sent_acks ≡ c.sent_acks
    → c'.completed_deliveries ≡ c.completed_deliveries
    → c'.acknowledged_deliveries ≡ c.acknowledged_deliveries
    → OnlyHandled handled c
    → OnlyHandled handled c'
same_lists handled c c' sent completed acknowledged h = record {
  sent_handled = λ y e. h.sent_handled y (ap (is_one_of y) (sym sent) ∙ e);
  completed_handled = λ y e. h.completed_handled y (ap (is_one_of y) (sym completed) ∙ e);
  acknowledged_sent = λ y e.
      ap (is_one_of y) sent ∙ h.acknowledged_sent y (ap (is_one_of y) (sym acknowledged) ∙ e);
}

pub handle_response-OnlyHandled :
    (takes : Bool) (message : Message) (handled : List String) (c : Client)
    → ((resolve message c.query_broker).0 ≡ true → is_one_of message.delivery_id handled ≡ true)
    → OnlyHandled handled c
    → OnlyHandled handled (handle_response takes message c)
unfolding handle_response
handle_response-OnlyHandled takes message handled c resolved_there h =
    let P : Client → Type 0 = OnlyHandled handled in
    let id = message.delivery_id in
    let c' : Client = record c { query_broker = (resolve message c.query_broker).1 } in
    let h' = same_lists handled c c' refl refl refl h in
    if-both P (is_empty id) _ _ h' (elim (Bool-cases (resolve message c.query_broker).0) [
      | inl resolved ↦
          rw resolved (mark-OnlyHandled takes id handled c' (resolved_there resolved) h')
      | inr lost ↦ rw lost (failed-OnlyHandled id handled c' h')
    ])

pub hand_over-OnlyHandled :
    (message : Message) (handled : List String) (c : Client)
    → OnlyHandled handled c
    → OnlyHandled handled (hand_over message c)
unfolding hand_over submit
hand_over-OnlyHandled message handled c h =
    let P : Client → Type 0 = OnlyHandled handled in
    let id = message.delivery_id in
    if-both P (is_empty id) _ _ (same_lists handled c _ refl refl refl h)
      (elim (Bool-cases (is_full c.dispatcher)) [
        | inl full ↦ rw full (
            failed-OnlyHandled id handled
              (record c { pending_deliveries = add id c.pending_deliveries })
              (same_lists handled c _ refl refl refl h))
        | inr space ↦ rw space (same_lists handled c _ refl refl refl h)
      ])
