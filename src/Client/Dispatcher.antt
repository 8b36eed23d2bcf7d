-- ===== src/Client/Dispatcher.antt =====
-- `AsyncMessageDispatcher` (外置策略API/qmt_local_api/dispatcher.py). Handlers are not this
-- code's: which of them raise on a message is an argument.
use qmt_python_tcp.Prelude.{
  ℕ, String, Bool, true, false, Option, none, some, List, [], ◌∷◌, ◌++◌, ◌&&◌, ◌=t=◌, is_empty,
  if◌then◌else◌, leb, Result, value_error, ok, err, any, length, lookup, put,
}
use qmt_python_tcp.Client.Broker.{Message}

-- A registered callable: what `is` compares, what `==` compares, and `__qualname__`.
pub record Handler : Type 0 where
  pub identity : String
  pub equality : String
  pub qualname : String

pub record DispatchResult : Type 0 where
  pub handled : Bool
  pub succeeded : Bool
  pub handler_count : ℕ
  pub failed_handlers : List String

abbrev pub acknowledgeable : DispatchResult → Bool
acknowledgeable result = result.handled && result.succeeded

-- `_STOP`, or a `_DispatchItem`, whose completion is that of a delivery id or `None`
pub data Item : Type 0 where
  stop_item : Item
  dispatch_item : (message : Message) (completion : Option String) → Item

-- `_thread`: `None`, running, or ended
pub data Thread : Type 0 where
  absent alive ended : Thread

pub record Dispatcher : Type 0 where
  pub handlers : List (String × List Handler)
  pub queue : List Item
  pub max_queue_size : ℕ
  pub thread : Thread

abbrev pub is_alive : Thread → Bool
is_alive alive = true
is_alive _ = false

abbrev pub new_dispatcher : ℕ → Result Dispatcher
new_dispatcher max_queue_size =
    if leb max_queue_size 0
    then err value_error
    else ok (record { handlers = []; queue = []; max_queue_size = max_queue_size; thread = absent })

-- `self._handlers.get(msg_type, ())`
unfoldable pub handlers_of : String → Dispatcher → List Handler
unfolding lookup
handlers_of msg_type d = elim (lookup msg_type d.handlers) [ none ↦ [] | some hs ↦ hs ]

-- `handler in handlers`
abbrev pub is_in : Handler → List Handler → Bool
is_in h hs = any (λ k. k.equality =t= h.equality) hs

unfoldable pub register : String → Handler → Dispatcher → Result Dispatcher
unfolding put handlers_of
register msg_type h d =
    if is_empty msg_type
    then err value_error
    else (let hs = handlers_of msg_type d in
        ok (record d {
          handlers = put msg_type (if is_in h hs then hs else hs ++ h ∷ []) d.handlers;
        }))

-- `[item for item in handlers if item is not handler]`
unfoldable pub without : Handler → List Handler → List Handler
without h [] = []
without h (k ∷ hs) = let rest = without h hs in if k.identity =t= h.identity then rest else k ∷ rest

unfoldable pub unregister : String → Handler → Dispatcher → Dispatcher
unfolding put without handlers_of
unregister msg_type h d = record d {
  handlers = put msg_type (without h (handlers_of msg_type d)) d.handlers;
}

unfoldable pub start : Dispatcher → Dispatcher
start d = if is_alive d.thread then d else record d { thread = alive }

abbrev pub is_full : Dispatcher → Bool
is_full d = leb d.max_queue_size (length d.queue)

-- `stop`, up to the join; `is_full` is what the queue is when the time for `put` is over
unfoldable pub stop : Dispatcher → Dispatcher
stop d = elim (d.thread) [
  | absent ↦ d
  | _ ↦ if is_full d then d else record d { queue = d.queue ++ stop_item ∷ [] }
]

-- `stop`, behind the join
unfoldable pub joined : Dispatcher → Dispatcher
joined d = elim (d.thread) [ ended ↦ record d { thread = absent } | _ ↦ d ]

unfoldable pub submit : Message → Option String → Dispatcher → Bool × Dispatcher
submit message completion d =
    if is_full d
    then (false, d)
    else (true, record d { queue = d.queue ++ dispatch_item message completion ∷ [] })

-- `raises` says which handlers raise an `Exception` on this message; one that raises anything else ends
-- the worker, and there is no result.
unfoldable pub failures : (Handler → Bool) → List Handler → List String
failures raises [] = []
failures raises (h ∷ hs) =
    let rest = failures raises hs in if raises h then h.qualname ∷ rest else rest

abbrev pub nothing_registered : DispatchResult
nothing_registered = record {
  handled = false;
  succeeded = false;
  handler_count = 0;
  failed_handlers = [];
}

unfoldable pub dispatch_to : (Handler → Bool) → List Handler → DispatchResult
unfolding failures
dispatch_to raises [] = nothing_registered
dispatch_to raises (h ∷ hs) = record {
  handled = true;
  succeeded = elim (failures raises (h ∷ hs)) [ [] ↦ true | _ ↦ false ];
  handler_count = length (h ∷ hs);
  failed_handlers = failures raises (h ∷ hs);
}

unfoldable pub dispatch_now : (Handler → Bool) → Message → Dispatcher → DispatchResult
unfolding dispatch_to handlers_of
dispatch_now raises message d = dispatch_to raises (handlers_of message.msg_type d)

-- `_run`, its `get`: the worker has taken this item. `_STOP` ends the thread.
unfoldable pub take_item : Dispatcher → Option Item × Dispatcher
take_item d = elim (d.queue) [
  | [] ↦ (none, d)
  | stop_item ∷ rest ↦ (some stop_item, record d { queue = rest; thread = ended })
  | dispatch_item message completion ∷ rest ↦
      (some (dispatch_item message completion), record d { queue = rest })
]
