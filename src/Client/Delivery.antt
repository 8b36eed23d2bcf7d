-- ===== src/Client/Delivery.antt =====
-- The reliable deliveries of `BridgeClient` (外置策略API/qmt_local_api/client.py). What the operating
-- system does with a frame is an argument.
use qmt_python_tcp.Prelude.{
  ℕ, String, Bool, true, false, none, some, List, [], ◌∷◌, ◌++◌, not, ◌&&◌, ◌=t=◌, is_empty,
  if◌then◌else◌, is_one_of,
}
use qmt_python_tcp.Client.Broker.{Message, Broker, resolve, cancel_all}
use qmt_python_tcp.Client.Sets.{discard, add, touch, trim}
use qmt_python_tcp.Client.Dispatcher.{DispatchResult, acknowledgeable, Dispatcher, submit}

-- The handshake's answer, with `int(...)` of the version done, 0 where that fails.
pub record Handshake : Type 0 where
  pub code : String
  pub protocol_version : ℕ
  pub build_id : String
  pub account_id : String
  pub account_name : String

pub record Config : Type 0 where
  pub account_id : String
  pub account_name : String
  pub expected_gateway_build_id : String

-- `connected` is `_connected`, `transport_connected` is the transport's `is_connected`, and
-- `sent_acks` are the delivery ids of the DELIVERY_ACK messages that went out on the socket.
pub record Client : Type 0 where
  pub config : Config
  pub dispatcher : Dispatcher
  pub query_broker : Broker
  pub completed_delivery_cache : ℕ
  pub completed_deliveries : List String
  pub acknowledged_deliveries : List String
  pub pending_deliveries : List String
  pub connected : Bool
  pub transport_connected : Bool
  pub last_handshake_response : Handshake
  pub identity_guard_failed : Bool
  pub identity_guard_reason : String
  pub sent_acks : List String

abbrev pub is_connected : Client → Bool
is_connected c = c.connected && c.transport_connected

unfoldable pub disconnect : Client → Client
unfolding cancel_all
disconnect c = record c {
  connected = false;
  query_broker = cancel_all c.query_broker;
  transport_connected = false;
}

-- `send` of a DELIVERY_ACK: false where it raises `TransportDisconnected`. `takes` says whether
-- `sendall` succeeds.
unfoldable pub send : Bool → String → Client → Bool × Client
send takes delivery_id c =
    if not (is_connected c)
    then (false, c)
    else if takes
    then (true, record c { sent_acks = c.sent_acks ++ delivery_id ∷ [] })
    else (false, record c { transport_connected = false })

-- `_send_delivery_ack`, behind a `send` that went well
unfoldable pub note_acknowledged : String → Client → Client
unfolding trim touch
note_acknowledged delivery_id c = record c {
  acknowledged_deliveries =
      trim c.completed_delivery_cache (touch delivery_id c.acknowledged_deliveries);
}

unfoldable pub send_delivery_ack : Bool → String → Client → Bool × Client
unfolding send note_acknowledged
send_delivery_ack takes delivery_id c =
    let (went, c') = send takes delivery_id c in
    if went then (true, note_acknowledged delivery_id c') else (false, c')

-- `_mark_completed_and_ack`, under the lock
unfoldable pub note_completed : String → Client → Client
unfolding trim touch discard
note_completed delivery_id c = record c {
  pending_deliveries = discard delivery_id c.pending_deliveries;
  completed_deliveries = trim c.completed_delivery_cache (touch delivery_id c.completed_deliveries);
}

unfoldable pub mark_completed_and_ack : Bool → String → Client → Client
unfolding send_delivery_ack disconnect note_completed
mark_completed_and_ack takes delivery_id c =
    let (went, c') = send_delivery_ack takes delivery_id (note_completed delivery_id c) in
    if went then c' else if c'.connected then disconnect c' else c'

unfoldable pub delivery_failed : String → Client → Client
unfolding discard disconnect
delivery_failed delivery_id c =
    disconnect (record c { pending_deliveries = discard delivery_id c.pending_deliveries })

unfoldable pub finish_delivery : Bool → String → DispatchResult → Client → Client
unfolding mark_completed_and_ack delivery_failed
finish_delivery takes delivery_id result c =
    if acknowledgeable result
    then mark_completed_and_ack takes delivery_id c
    else delivery_failed delivery_id c

abbrev pub is_query_response : Message → Bool
is_query_response message = message.msg_type =t= "QUERY_RESPONSE"

abbrev pub is_completed : Message → Client → Bool
is_completed message c =
    not (is_empty message.delivery_id) && is_one_of message.delivery_id c.completed_deliveries

abbrev pub is_pending : Message → Client → Bool
is_pending message c =
    not (is_empty message.delivery_id) && is_one_of message.delivery_id c.pending_deliveries

-- the branch for a QUERY_RESPONSE
unfoldable pub handle_response : Bool → Message → Client → Client
unfolding resolve mark_completed_and_ack delivery_failed
handle_response takes message c =
    let (resolved, b) = resolve message c.query_broker in
    let c' = record c { query_broker = b } in
    if is_empty message.delivery_id
    then c'
    else if resolved
    then mark_completed_and_ack takes message.delivery_id c'
    else delivery_failed message.delivery_id c'

-- the branch for the dispatcher: under the lock, and behind it
abbrev pub add_pending : String → Client → Client
add_pending delivery_id c = record c { pending_deliveries = add delivery_id c.pending_deliveries }

abbrev pub submit_delivery : Message → Client → Client
submit_delivery message c =
    let (accepted, d) = submit message (some message.delivery_id) c.dispatcher in
    if accepted then record c { dispatcher = d } else delivery_failed message.delivery_id c

unfoldable pub hand_over : Message → Client → Client
unfolding submit add delivery_failed
hand_over message c =
    if is_empty message.delivery_id
    then record c { dispatcher = (submit message none c.dispatcher).1 }
    else submit_delivery message (add_pending message.delivery_id c)

-- false where the acknowledgement of a completed delivery raises
unfoldable pub handle_inbound : Bool → Message → Client → Bool × Client
unfolding send_delivery_ack handle_response hand_over touch
handle_inbound takes message c =
    if is_completed message c
    then send_delivery_ack takes message.delivery_id
        (record c { completed_deliveries = touch message.delivery_id c.completed_deliveries })
    else if is_pending message c
    then (true, c)
    else if is_query_response message
    then (true, handle_response takes message c)
    else (true, hand_over message c)

-- `_poll_loop`, once the transport has returned a message; no other thread comes between
unfoldable pub poll : Bool → Message → Client → Client
unfolding handle_inbound disconnect
poll takes message c =
    let (fine, c') = handle_inbound takes message c in if fine then c' else disconnect c'
