-- ===== src/Client/Runs.antt =====
-- Runs of a client (外置策略API/qmt_local_api/client.py, 外置策略API/qmt_local_api/dispatcher.py,
-- 外置策略API/qmt_local_api/query_broker.py): its threads in any interleaving of steps that
-- dispose of one message or finish one item whole; Client/Interleaved has the regions under the lock.
use qmt_python_tcp.Prelude.{
  String, ◌≡◌, Bool, false, Option, none, some, List, [], ◌∷◌, ◌++◌, not, ◌&&◌, if◌then◌else◌, ok,
}
use qmt_python_tcp.Client.Broker.{Message, Broker, begin_request, end_request, resolve}
use qmt_python_tcp.Client.Dispatcher.{
  Handler, DispatchResult, acknowledgeable, Item, stop_item, dispatch_item, alive, Dispatcher,
  register, unregister, start, stop, joined, dispatch_now, take_item,
}
use qmt_python_tcp.Client.Delivery.{
  Handshake, Client, disconnect, finish_delivery, is_query_response, is_completed, is_pending, poll,
}
use qmt_python_tcp.Client.Connect.{connect_once}

-- The client, the item that the worker has taken and not finished, and the delivery ids that were
-- handled: each of their handlers returned without an exception, or a waiting query took them.
pub record System : Type 0 where
  pub client : Client
  pub current : Option Item
  pub handled : List String

-- The delivery that a query of its own takes in this message.
unfoldable pub newly_answered : Message → Client → List String
unfolding resolve
newly_answered message c =
    if is_query_response message
      && not (is_completed message c)
      && not (is_pending message c)
      && (resolve message c.query_broker).0
    then message.delivery_id ∷ []
    else []

-- `_run` on a taken item, which is not `_STOP`
unfoldable pub finish_item : Bool → Option String → DispatchResult → Client → Client
unfolding finish_delivery
finish_item takes none result c = c
finish_item takes (some delivery_id) result c = finish_delivery takes delivery_id result c

unfoldable pub newly_finished : Option String → DispatchResult → List String
newly_finished none result = []
newly_finished (some delivery_id) result = if acknowledgeable result then delivery_id ∷ [] else []

-- The calls of the program on the dispatcher.
pub data Arranges : Dispatcher → Dispatcher → Type 0 where
  registers :
      (d d' : Dispatcher) (msg_type : String) (h : Handler)
      → register msg_type h d ≡ ok d'
      → Arranges d d'
  unregisters :
      (d : Dispatcher) (msg_type : String) (h : Handler) → Arranges d (unregister msg_type h d)
  starts : (d : Dispatcher) → Arranges d (start d)
  stops : (d : Dispatcher) → Arranges d (stop d)
  joins : (d : Dispatcher) → Arranges d (joined d)

-- One step of the poll thread, of the dispatcher's worker or of the program that uses the client.
pub data Step : System → System → Type 0 where
  polled :
      (c : Client) (current : Option Item) (handled : List String) (takes : Bool)
      (message : Message)
      → Step
          (record { client = c; current = current; handled = handled })
          (record {
            client = poll takes message c;
            current = current;
            handled = newly_answered message c ++ handled;
          })
  taken :
      (c : Client) (handled : List String)
      → c.dispatcher.thread ≡ alive
      → Step
          (record { client = c; current = none; handled = handled })
          (record {
            client = record c { dispatcher = (take_item c.dispatcher).1 };
            current = (take_item c.dispatcher).0;
            handled = handled;
          })
  finished :
      (c : Client) (handled : List String) (takes : Bool) (raises : Handler → Bool)
      (message : Message) (completion : Option String)
      → Step
          (record {
            client = c;
            current = some (dispatch_item message completion);
            handled = handled;
          })
          (record {
            client = finish_item takes completion (dispatch_now raises message c.dispatcher) c;
            current = none;
            handled =
                newly_finished completion (dispatch_now raises message c.dispatcher) ++ handled;
          })
  stopped :
      (c : Client) (handled : List String)
      → Step
          (record { client = c; current = some stop_item; handled = handled })
          (record { client = c; current = none; handled = handled })
  -- the program: `on`, `off`, `start` and `stop` of the dispatcher
  arranged :
      (c : Client) (current : Option Item) (handled : List String) (d : Dispatcher)
      → Arranges c.dispatcher d
      → Step
          (record { client = c; current = current; handled = handled })
          (record { client = record c { dispatcher = d }; current = current; handled = handled })
  asked :
      (c : Client) (current : Option Item) (handled : List String) (msg_id : String) (b : Broker)
      → begin_request msg_id c.query_broker ≡ ok b
      → Step
          (record { client = c; current = current; handled = handled })
          (record { client = record c { query_broker = b }; current = current; handled = handled })
  answered :
      (c : Client) (current : Option Item) (handled : List String) (msg_id : String)
      → Step
          (record { client = c; current = current; handled = handled })
          (record {
            client = record c { query_broker = end_request msg_id c.query_broker };
            current = current;
            handled = handled;
          })
  -- `stop`, or the loss of the connection
  disconnected :
      (c : Client) (current : Option Item) (handled : List String)
      → Step
          (record { client = c; current = current; handled = handled })
          (record { client = disconnect c; current = current; handled = handled })
  connected :
      (c : Client) (current : Option Item) (handled : List String) (accepted : Bool)
      (handshake : Handshake)
      → Step
          (record { client = c; current = current; handled = handled })
          (record {
            client = (connect_once accepted handshake c).1;
            current = current;
            handled = handled;
          })

pub data Reach (first : System) : System → Type 0 where
  here : Reach first first
  after : {s s' : System} → Reach first s → Step s s' → Reach first s'

-- The client as `__init__` leaves it.
pub record IsNew (s : System) : Type 0 where
  pub nothing_queued : s.client.dispatcher.queue ≡ []
  pub nothing_pending : s.client.pending_deliveries ≡ []
  pub nothing_completed : s.client.completed_deliveries ≡ []
  pub nothing_acknowledged : s.client.acknowledged_deliveries ≡ []
  pub nothing_sent : s.client.sent_acks ≡ []
  pub nothing_taken : s.current ≡ none
  pub nothing_handled : s.handled ≡ []
  pub not_connected : s.client.connected ≡ false
