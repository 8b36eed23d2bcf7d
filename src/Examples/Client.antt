-- ===== src/Examples/Client.antt =====
-- A client (外置策略API/qmt_local_api/client.py, 外置策略API/qmt_local_api/dispatcher.py,
-- 外置策略API/qmt_local_api/query_broker.py, 外置策略API/qmt_local_api/config.py) and an event that arrives
-- several times, with the theorems applied to them.
use qmt_python_tcp.Prelude.{
  ◌+◌, ◌≤◌, String, ◌≡◌, ◌⊎◌, ◌≢◌, ◌↔◌, refl, true, false, Option, none, some, [], ◌∷◌, ◌++◌, ◌=t=◌,
  strip, if◌then◌else◌, value_error, ok, err, is_one_of, arith, length, All, lookup,
}
use qmt_python_tcp.Client.Broker.{
  Message, Pending, Broker, new_pending, begin_request, answer, waiter, resolve, query_cancelled,
  detach_all,
}
use qmt_python_tcp.Client.Sets.{add}
use qmt_python_tcp.Client.Dispatcher.{
  Handler, acknowledgeable, Item, dispatch_item, alive, Dispatcher, handlers_of, is_in, register,
  unregister, submit, dispatch_now, take_item,
}
use qmt_python_tcp.Client.Delivery.{
  Handshake, Config, Client, send, note_acknowledged, note_completed, poll,
}
use qmt_python_tcp.Client.Connect.{protocol_version, connect_once}
use qmt_python_tcp.Client.Runs.{
  System, newly_answered, finish_item, newly_finished, polled, taken, finished, connected, Reach,
  here, after, IsNew,
}
use qmt_python_tcp.Client.Flight.{in_queue, in_hand}
use qmt_python_tcp.Client.Interleaved.{
  waiting, Threads, checks, adds, submits, takes_item, connects, ThreadRun, begun as begun_run,
  onward, IsFresh,
}
use qmt_python_tcp.Client.Placed.{in_poll}
use qmt_python_tcp.Client.Once.{handled_once_at_a_time}
use qmt_python_tcp.Client.Acked.{acknowledged_means_handled}
use qmt_python_tcp.Client.Checked.{connected_means_identified}
use qmt_python_tcp.Client.Callbacks.{dispatch_now-acknowledgeable, equal_handler_stays}
use qmt_python_tcp.Client.Order.{
  submits as submits_one, takes, QueueRun, begun, extended, taken_in_order,
}
use qmt_python_tcp.Client.Answers.{
  begins, resolves, detaches, BrokerRun, asked, moves_on, answers_its_own,
}
use qmt_python_tcp.Client.Settings.{
  Address, seconds, ConnectionConfig, gateway_build_id, max_frame_bytes, validate,
}
use qmt_python_tcp.Client.Accepted.{IsAcceptable, validate-IsAcceptable}

abbrev config : Config
config = record { account_id = "A1"; account_name = "main"; expected_gateway_build_id = "b7" }

abbrev handshake : Handshake
handshake = record {
  code = "";
  protocol_version = 2;
  build_id = "b7";
  account_id = "A1";
  account_name = "main";
}

abbrev on_order : Handler
on_order = record { identity = "1"; equality = "Strategy.on_order"; qualname = "Strategy.on_order" }

abbrev on_order_again : Handler
on_order_again = record {
  identity = "2";
  equality = "Strategy.on_order";
  qualname = "Strategy.on_order";
}

abbrev dispatcher : Dispatcher
dispatcher = record {
  handlers = ("ORDER_EVENT", on_order ∷ []) ∷ [];
  queue = [];
  max_queue_size = 4;
  thread = alive;
}

abbrev client : Client
client = record {
  config = config;
  dispatcher = dispatcher;
  query_broker = record { max_pending = 2; pending = []; detached = [] };
  completed_delivery_cache = 2;
  completed_deliveries = [];
  acknowledged_deliveries = [];
  pending_deliveries = [];
  connected = false;
  transport_connected = false;
  last_handshake_response = handshake;
  identity_guard_failed = false;
  identity_guard_reason = "";
  sent_acks = [];
}

abbrev new_system : System
new_system = record { client = client; current = none; handled = [] }

new_system-IsNew : IsNew new_system
new_system-IsNew = record {
  nothing_queued = refl;
  nothing_pending = refl;
  nothing_completed = refl;
  nothing_acknowledged = refl;
  nothing_sent = refl;
  nothing_taken = refl;
  nothing_handled = refl;
  not_connected = refl;
}

abbrev event : Message
event = record {
  msg_type = "ORDER_EVENT";
  msg_id = "m1";
  delivery_id = "d1";
  cancelled = false;
  body = "filled";
}

abbrev online : Client
online = record client { connected = true; transport_connected = true }

abbrev item : Item
item = dispatch_item event (some "d1")

abbrev queued_client : Client
queued_client = record online {
  pending_deliveries = "d1" ∷ [];
  dispatcher = record dispatcher { queue = item ∷ [] };
}

abbrev busy_client : Client
busy_client = record online { pending_deliveries = "d1" ∷ [] }

abbrev done_client : Client
done_client = record online {
  completed_deliveries = "d1" ∷ [];
  acknowledged_deliveries = "d1" ∷ [];
  sent_acks = "d1" ∷ [];
}

-- The event arrives twice, and once more while the worker runs its handlers.
queued_run : Reach new_system (record { client = busy_client; current = some item; handled = [] })
unfolding connect_once poll newly_answered take_item
queued_run =
    after
      (after
        (after
          (after (after here (connected client none [] true handshake))
            (polled online none [] true event))
          (polled queued_client none [] true event))
        (taken queued_client [] refl))
      (polled busy_client (some item) [] true event)

done_run : Reach new_system (record { client = done_client; current = none; handled = "d1" ∷ [] })
unfolding finish_item newly_finished dispatch_now send note_acknowledged note_completed
done_run = after queued_run (finished busy_client [] true (λ h. false) event (some "d1"))

abbrev new_threads : Threads
new_threads = record { client = client; poller = waiting; current = none; lost = [] }

new_threads-IsFresh : IsFresh new_threads
new_threads-IsFresh = record {
  nothing_queued = refl;
  nothing_pending = refl;
  nothing_completed = refl;
  nothing_polled = refl;
  nothing_taken = refl;
  nothing_lost = refl;
}

-- The event is checked, added and submitted, and the worker takes it.
taken_run :
    ThreadRun new_threads
      (record { client = busy_client; poller = waiting; current = some item; lost = [] })
unfolding connect_once submit add take_item
taken_run =
    onward
      (onward
        (onward
          (onward (onward begun_run (connects client waiting none [] true handshake))
            (checks online none [] event refl refl))
          (adds online none [] event refl refl))
        (submits busy_client none [] event))
      (takes_item queued_client waiting [] refl)

handled_once_at_a_time_example :
    (in_poll "d1" waiting
        + (in_hand "d1" (some item) + in_queue "d1" [])
        + in_queue "d1" busy_client.dispatcher.queue
      ≡ (if is_one_of "d1" busy_client.pending_deliveries then 1 else 0))
    × (is_one_of "d1" busy_client.completed_deliveries ≡ true
        → is_one_of "d1" busy_client.pending_deliveries ≡ false)
handled_once_at_a_time_example = handled_once_at_a_time new_threads-IsFresh taken_run "d1"

acknowledged_means_handled_example :
    (is_one_of "d1" done_client.sent_acks ≡ true → is_one_of "d1" ("d1" ∷ []) ≡ true)
    × (is_one_of "d1" done_client.acknowledged_deliveries ≡ true
        → is_one_of "d1" done_client.sent_acks ≡ true)
acknowledged_means_handled_example = acknowledged_means_handled new_system-IsNew done_run "d1"

connected_means_identified_example :
    (handshake.protocol_version ≡ protocol_version)
    × (handshake.build_id ≡ config.expected_gateway_build_id)
    × (handshake.account_id ≡ config.account_id)
    × (handshake.account_name ≡ config.account_name)
connected_means_identified_example = connected_means_identified refl done_run refl

dispatch_now-acknowledgeable_example :
    (acknowledgeable (dispatch_now (λ h. false) event dispatcher) ≡ true) ↔ (
      (handlers_of "ORDER_EVENT" dispatcher ≢ [])
      × All (λ h. false ≡ false) (handlers_of "ORDER_EVENT" dispatcher))
dispatch_now-acknowledgeable_example = dispatch_now-acknowledgeable (λ h. false) event dispatcher

abbrev no_handlers : Dispatcher
no_handlers = record dispatcher { handlers = [] }

equal_handler_stays_example :
    (handlers_of "ORDER_EVENT" dispatcher ≡ handlers_of "ORDER_EVENT" dispatcher)
    × (is_in on_order
          (handlers_of "ORDER_EVENT" (unregister "ORDER_EVENT" on_order_again dispatcher))
        ≡ true)
unfolding register handlers_of
equal_handler_stays_example =
    equal_handler_stays "ORDER_EVENT" on_order on_order_again no_handlers dispatcher dispatcher refl
      refl refl refl refl

abbrev small_queue : Dispatcher
small_queue = record dispatcher { max_queue_size = 1 }

-- Of two events the second finds the queue full.
order_run :
    QueueRun
      (record { dispatcher = small_queue; accepted = []; out = [] })
      (record { dispatcher = small_queue; accepted = item ∷ []; out = item ∷ [] })
unfolding submit take_item
order_run =
    let full = record small_queue { queue = item ∷ [] } in
    extended
      (extended (extended begun (submits_one small_queue [] [] event (some "d1")))
        (submits_one full (item ∷ []) [] event none))
      (takes full (item ∷ []) [])

taken_in_order_example :
    (item ∷ [] ≡ (item ∷ []) ++ small_queue.queue)
    × (length small_queue.queue ≤ small_queue.max_queue_size)
taken_in_order_example = taken_in_order refl (omega arith) order_run

abbrev broker : Broker
broker = record { max_pending = 2; pending = []; detached = [] }

abbrev reply : Message
reply = record {
  msg_type = "QUERY_RESPONSE";
  msg_id = "q1";
  delivery_id = "";
  cancelled = false;
  body = "positions";
}

abbrev answered_query : Pending
answered_query = record { event = true; response = some reply }

answer_run : BrokerRun broker (record broker { pending = ("q1", answered_query) ∷ [] })
unfolding begin_request resolve lookup
answer_run =
    let asking = record broker { pending = ("q1", new_pending) ∷ [] } in
    moves_on (moves_on asked (begins broker asking "q1" refl refl)) (resolves asking reply)

-- Between the second read and the third the query is cancelled: what is returned is no answer.
cancelled_between :
    answer true (some reply) (some reply) (some query_cancelled) ≡ some query_cancelled
cancelled_between = refl

-- The connection is lost behind the first read, but the query was not cancelled yet.
answers_its_own_example :
    ((reply.msg_id ≡ "q1") ⊎ (reply ≡ query_cancelled))
    × (answered_query.response ≡ answered_query.response
        → answered_query.response ≡ answered_query.response
        → reply.msg_id ≡ "q1")
    × (0 ≤ 2)
unfolding detach_all waiter lookup
answers_its_own_example =
    answers_its_own 2 refl answer_run
      (moves_on asked (detaches (record broker { pending = ("q1", answered_query) ∷ [] }))) asked
      "q1" true answered_query answered_query answered_query reply refl refl refl refl

abbrev ip_address : String → Option Address
ip_address text =
    if text =t= "127.0.0.1"
    then some (record { version = 4; is_loopback = true })
    else if text =t= "::1"
    then some (record { version = 6; is_loopback = true })
    else none

abbrev settings : ConnectionConfig
settings = record {
  account_name = "main";
  account_id = "A1";
  account_type = "STOCK";
  auth_token = "00112233445566778899aabbccddeeff00112233445566778899AABBCCDDEEFF";
  host = "127.0.0.1";
  local_host = "";
  port = 9550;
  expected_gateway_build_id = gateway_build_id;
  connect_timeout = seconds 5000;
  recv_timeout = seconds 200;
  handshake_timeout = seconds 5000;
  heartbeat_interval = seconds 5000;
  heartbeat_timeout = seconds 15000;
  max_frame_bytes = max_frame_bytes;
}

settings-accepted : validate ip_address settings ≡ ok tt
unfolding validate strip
settings-accepted = refl

v6_refused : validate ip_address (record settings { host = "::1" }) ≡ err value_error
unfolding validate strip
v6_refused = refl

validate-IsAcceptable_example :
    (validate ip_address settings ≡ ok tt) ↔ IsAcceptable ip_address settings
validate-IsAcceptable_example = validate-IsAcceptable ip_address settings
