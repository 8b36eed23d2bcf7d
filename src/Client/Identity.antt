-- ===== src/Client/Identity.antt =====
-- The identity of the gateway that a client (外置策略API/qmt_local_api/client.py) is connected to.
use qmt_python_tcp.Prelude.{
  String, ◌≡◌, refl, sym, ◌∙◌, Bool, true, false, Option, none, some, List, [], ◌∷◌, not, ◌=t=◌,
  is_empty, if◌then◌else◌, if-both,
}
use qmt_python_tcp.Client.Broker.{Message, resolve}
use qmt_python_tcp.Client.Sets.{discard, add}
use qmt_python_tcp.Client.Dispatcher.{DispatchResult, acknowledgeable, submit}
use qmt_python_tcp.Client.Delivery.{
  Handshake, Client, is_connected, disconnect, send, note_acknowledged, send_delivery_ack,
  note_completed, mark_completed_and_ack, delivery_failed, finish_delivery, is_query_response,
  is_completed, is_pending, handle_response, hand_over, handle_inbound, poll,
}
use qmt_python_tcp.Client.Connect.{mismatches, connect_once}
use qmt_python_tcp.Client.Runs.{finish_item}

-- The identity is as it was, and the client is not connected anew.
pub record IsTame (c c' : Client) : Type 0 where
  pub same_config : c'.config ≡ c.config
  pub same_handshake : c'.last_handshake_response ≡ c.last_handshake_response
  pub not_anew : c'.connected ≡ true → c.connected ≡ true

pub unchanged :
    (c c' : Client)
    → c'.config ≡ c.config
    → c'.last_handshake_response ≡ c.last_handshake_response
    → c'.connected ≡ c.connected
    → IsTame c c'
unchanged c c' config handshake same = record {
  same_config = config;
  same_handshake = handshake;
  not_anew = λ up. sym same ∙ up;
}

pub disconnect-IsTame : (c c' : Client) → IsTame c c' → IsTame c (disconnect c')
unfolding disconnect
disconnect-IsTame c c' h = record {
  same_config = h.same_config;
  same_handshake = h.same_handshake;
  not_anew = λ up. absurd cc;
}

send-IsTame : (takes : Bool) (id : String) (c : Client) → IsTame c (send takes id c).1
unfolding send
send-IsTame takes id c =
    let P : Bool × Client → Type 0 = λ r. IsTame c r.1 in
    if-both P (not (is_connected c)) _ _ (unchanged c c refl refl refl)
      (if-both P takes _ _ (unchanged c _ refl refl refl) (unchanged c _ refl refl refl))

send_delivery_ack-IsTame :
    (takes : Bool) (id : String) (c c' : Client)
    → IsTame c c'
    → IsTame c (send_delivery_ack takes id c').1
unfolding send_delivery_ack note_acknowledged
send_delivery_ack-IsTame takes id c c' h =
    let P : Bool × Client → Type 0 = λ r. IsTame c r.1 in
    let h' = send-IsTame takes id c' in
    let all_of : IsTame c (send takes id c').1 = record {
      same_config = h'.same_config ∙ h.same_config;
      same_handshake = h'.same_handshake ∙ h.same_handshake;
      not_anew = λ up. h.not_anew (h'.not_anew up);
    } in
    let (went, c'') = send takes id c' in
    if-both P went (true, note_acknowledged id c'') (false, c'')
      (record {
        same_config = all_of.same_config;
        same_handshake = all_of.same_handshake;
        not_anew = all_of.not_anew;
      })
      all_of

mark-IsTame :
    (takes : Bool) (id : String) (c c' : Client)
    → IsTame c c'
    → IsTame c (mark_completed_and_ack takes id c')
unfolding mark_completed_and_ack note_completed
mark-IsTame takes id c c' h =
    let noted : IsTame c (note_completed id c') = record {
      same_config = h.same_config;
      same_handshake = h.same_handshake;
      not_anew = h.not_anew;
    } in
    let h' = send_delivery_ack-IsTame takes id c (note_completed id c') noted in
    let (went, c'') = send_delivery_ack takes id (note_completed id c') in
    if-both (IsTame c) went c'' (if c''.connected then disconnect c'' else c'') h'
      (if-both (IsTame c) c''.connected (disconnect c'') c'' (disconnect-IsTame c c'' h') h')

failed-IsTame : (id : String) (c c' : Client) → IsTame c c' → IsTame c (delivery_failed id c')
unfolding delivery_failed
failed-IsTame id c c' h =
    disconnect-IsTame c (record c' { pending_deliveries = discard id c'.pending_deliveries })
      (record {
        same_config = h.same_config;
        same_handshake = h.same_handshake;
        not_anew = h.not_anew;
      })

inbound-IsTame :
    (takes : Bool) (message : Message) (c : Client) → IsTame c (handle_inbound takes message c).1
unfolding handle_inbound handle_response hand_over
inbound-IsTame takes message c =
    let P : Bool × Client → Type 0 = λ r. IsTame c r.1 in
    let id = message.delivery_id in
    let (resolved, b) = resolve message c.query_broker in
    let c1 : Client = record c { query_broker = b } in
    let answering = unchanged c c1 refl refl refl in
    let c2 : Client = record c { pending_deliveries = add id c.pending_deliveries } in
    let (queued, d) = submit message (some id) c.dispatcher in
    if-both P (is_completed message c) _ _
      (send_delivery_ack-IsTame takes id c _ (unchanged c _ refl refl refl))
      (if-both P (is_pending message c) _ _ (unchanged c c refl refl refl) (
        if-both P (is_query_response message) _ _
          (if-both (IsTame c) (is_empty id) _ _ answering (
            if-both (IsTame c) resolved _ _ (mark-IsTame takes id c c1 answering)
              (failed-IsTame id c c1 answering)))
          (if-both (IsTame c) (is_empty id) _ _ (unchanged c _ refl refl refl) (
            if-both (IsTame c) queued (record c2 { dispatcher = d }) (delivery_failed id c2)
              (unchanged c _ refl refl refl)
              (failed-IsTame id c c2 (unchanged c c2 refl refl refl))))))

pub poll-IsTame : (takes : Bool) (message : Message) (c : Client) → IsTame c (poll takes message c)
unfolding poll
poll-IsTame takes message c =
    let h = inbound-IsTame takes message c in
    let (fine, c') = handle_inbound takes message c in
    if-both (IsTame c) fine c' (disconnect c') h (disconnect-IsTame c c' h)

pub finish-IsTame :
    (takes : Bool) (completion : Option String) (result : DispatchResult) (c : Client)
    → IsTame c (finish_item takes completion result c)
unfolding finish_item finish_delivery
finish-IsTame takes none result c = unchanged c c refl refl refl
finish-IsTame takes (some id) result c =
    if-both (IsTame c) (acknowledgeable result) _ _
      (mark-IsTame takes id c c (unchanged c c refl refl refl))
      (failed-IsTame id c c (unchanged c c refl refl refl))

-- While it is connected, the last handshake is the expected gateway's.
abbrev pub IsChecked : Client → Type 0
IsChecked c = c.connected ≡ true → mismatches c.config c.last_handshake_response ≡ []

pub tame-IsChecked : (c c' : Client) → IsTame c c' → IsChecked c → IsChecked c'
tame-IsChecked c c' tame h up = rw (tame.same_config, tame.same_handshake) (h (tame.not_anew up))

pub connect-IsChecked :
    (c : Client) (accepted : Bool) (handshake : Handshake) (fields : List String)
    → mismatches c.config handshake ≡ fields
    → IsChecked (connect_once accepted handshake c).1
unfolding connect_once
connect-IsChecked c false handshake fields e =
    if-both IsChecked (handshake.code =t= "HANDSHAKE_REJECTED") _ _ (λ up. absurd cc)
      (λ up. absurd cc)
connect-IsChecked c true handshake [] e = rw (connect_once, e) (λ up. e)
connect-IsChecked c true handshake (x ∷ xs) e = rw (connect_once, e) (λ up. absurd cc)
