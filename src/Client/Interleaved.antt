-- ===== src/Client/Interleaved.antt =====
-- The poll thread and the worker of a client (外置策略API/qmt_local_api/client.py,
-- 外置策略API/qmt_local_api/dispatcher.py), step by step. A step has at most one region under
-- `_delivery_lock` or one operation on the dispatcher's queue, so that the other thread may come
-- between any two of them.
use qmt_python_tcp.Prelude.{
  String, ◌≡◌, Bool, true, false, Option, none, some, List, [], ◌∷◌, is_empty,
}
use qmt_python_tcp.Client.Broker.{Message, Broker}
use qmt_python_tcp.Client.Sets.{touch}
use qmt_python_tcp.Client.Dispatcher.{
  Handler, Item, stop_item, dispatch_item, alive, ended, Dispatcher, dispatch_now, take_item,
}
use qmt_python_tcp.Client.Delivery.{
  Handshake, Client, disconnect, send_delivery_ack, is_query_response, is_completed, is_pending,
  handle_response, hand_over, add_pending, submit_delivery,
}
use qmt_python_tcp.Client.Connect.{connect_once}
use qmt_python_tcp.Client.Runs.{finish_item, Arranges}

-- Where the poll thread stands in `_handle_inbound`: outside it; with a message whose delivery it
-- has found neither completed nor pending; with one whose delivery it has added to the pending ones.
pub data Poller : Type 0 where
  waiting : Poller
  checked added : Message → Poller

-- The client, its poll thread, the item that the worker has taken and not finished, and the items
-- with which a worker died.
pub record Threads : Type 0 where
  pub client : Client
  pub poller : Poller
  pub current : Option Item
  pub lost : List Item

pub data ThreadStep : Threads → Threads → Type 0 where
  -- the poll thread: a completed delivery comes once more, and is acknowledged again
  touches :
      (c : Client) (current : Option Item) (lost : List Item) (message : Message)
      → is_completed message c ≡ true
      → ThreadStep
          (record { client = c; poller = waiting; current = current; lost = lost })
          (record {
            client = record c {
              completed_deliveries = touch message.delivery_id c.completed_deliveries;
            };
            poller = waiting;
            current = current;
            lost = lost;
          })
  acknowledges :
      (c : Client) (poller : Poller) (current : Option Item) (lost : List Item) (takes : Bool)
      (delivery_id : String)
      → ThreadStep
          (record { client = c; poller = poller; current = current; lost = lost })
          (record {
            client = (send_delivery_ack takes delivery_id c).1;
            poller = poller;
            current = current;
            lost = lost;
          })
  checks :
      (c : Client) (current : Option Item) (lost : List Item) (message : Message)
      → is_completed message c ≡ false
      → is_pending message c ≡ false
      → ThreadStep
          (record { client = c; poller = waiting; current = current; lost = lost })
          (record { client = c; poller = checked message; current = current; lost = lost })
  responds :
      (c : Client) (current : Option Item) (lost : List Item) (takes : Bool) (message : Message)
      → is_query_response message ≡ true
      → ThreadStep
          (record { client = c; poller = checked message; current = current; lost = lost })
          (record {
            client = handle_response takes message c;
            poller = waiting;
            current = current;
            lost = lost;
          })
  hands_over :
      (c : Client) (current : Option Item) (lost : List Item) (message : Message)
      → is_query_response message ≡ false
      → is_empty message.delivery_id ≡ true
      → ThreadStep
          (record { client = c; poller = checked message; current = current; lost = lost })
          (record {
            client = hand_over message c;
            poller = waiting;
            current = current;
            lost = lost;
          })
  adds :
      (c : Client) (current : Option Item) (lost : List Item) (message : Message)
      → is_query_response message ≡ false
      → is_empty message.delivery_id ≡ false
      → ThreadStep
          (record { client = c; poller = checked message; current = current; lost = lost })
          (record {
            client = add_pending message.delivery_id c;
            poller = added message;
            current = current;
            lost = lost;
          })
  submits :
      (c : Client) (current : Option Item) (lost : List Item) (message : Message)
      → ThreadStep
          (record { client = c; poller = added message; current = current; lost = lost })
          (record {
            client = submit_delivery message c;
            poller = waiting;
            current = current;
            lost = lost;
          })
  -- the worker
  takes_item :
      (c : Client) (poller : Poller) (lost : List Item)
      → c.dispatcher.thread ≡ alive
      → ThreadStep
          (record { client = c; poller = poller; current = none; lost = lost })
          (record {
            client = record c { dispatcher = (take_item c.dispatcher).1 };
            poller = poller;
            current = (take_item c.dispatcher).0;
            lost = lost;
          })
  finishes :
      (c : Client) (poller : Poller) (lost : List Item) (takes : Bool) (raises : Handler → Bool)
      (message : Message) (completion : Option String)
      → ThreadStep
          (record {
            client = c;
            poller = poller;
            current = some (dispatch_item message completion);
            lost = lost;
          })
          (record {
            client = finish_item takes completion (dispatch_now raises message c.dispatcher) c;
            poller = poller;
            current = none;
            lost = lost;
          })
  -- a handler raises what is no `Exception`, and the worker's thread ends
  dies :
      (c : Client) (poller : Poller) (lost : List Item) (item : Item)
      → ThreadStep
          (record { client = c; poller = poller; current = some item; lost = lost })
          (record {
            client = record c { dispatcher = record (c.dispatcher) { thread = ended } };
            poller = poller;
            current = none;
            lost = item ∷ lost;
          })
  ends :
      (c : Client) (poller : Poller) (lost : List Item)
      → ThreadStep
          (record { client = c; poller = poller; current = some stop_item; lost = lost })
          (record { client = c; poller = poller; current = none; lost = lost })
  -- the program's calls of the dispatcher, the queries, and the connection
  arranges :
      (c : Client) (poller : Poller) (current : Option Item) (lost : List Item) (d : Dispatcher)
      → Arranges c.dispatcher d
      → ThreadStep
          (record { client = c; poller = poller; current = current; lost = lost })
          (record {
            client = record c { dispatcher = d };
            poller = poller;
            current = current;
            lost = lost;
          })
  queries :
      (c : Client) (poller : Poller) (current : Option Item) (lost : List Item) (b : Broker)
      → ThreadStep
          (record { client = c; poller = poller; current = current; lost = lost })
          (record {
            client = record c { query_broker = b };
            poller = poller;
            current = current;
            lost = lost;
          })
  disconnects :
      (c : Client) (poller : Poller) (current : Option Item) (lost : List Item)
      → ThreadStep
          (record { client = c; poller = poller; current = current; lost = lost })
          (record { client = disconnect c; poller = poller; current = current; lost = lost })
  connects :
      (c : Client) (poller : Poller) (current : Option Item) (lost : List Item) (accepted : Bool)
      (handshake : Handshake)
      → ThreadStep
          (record { client = c; poller = poller; current = current; lost = lost })
          (record {
            client = (connect_once accepted handshake c).1;
            poller = poller;
            current = current;
            lost = lost;
          })

pub data ThreadRun (first : Threads) : Threads → Type 0 where
  begun : ThreadRun first first
  onward : {s s' : Threads} → ThreadRun first s → ThreadStep s s' → ThreadRun first s'

-- The threads of a client that `__init__` has made.
pub record IsFresh (s : Threads) : Type 0 where
  pub nothing_queued : s.client.dispatcher.queue ≡ []
  pub nothing_pending : s.client.pending_deliveries ≡ []
  pub nothing_completed : s.client.completed_deliveries ≡ []
  pub nothing_polled : s.poller ≡ waiting
  pub nothing_taken : s.current ≡ none
  pub nothing_lost : s.lost ≡ []
