-- ===== src/Client/Broker.antt =====
-- `QueryBroker` (外置策略API/qmt_local_api/query_broker.py). Each region under the lock is one
-- function, and so is what runs without it; the wait is the time between `begin_request` and `end_request`.
use qmt_python_tcp.Prelude.{
  ℕ, String, Bool, true, false, Option, none, some, List, [], ◌∷◌, ◌++◌, is_empty, if◌then◌else◌,
  leb, Result, value_error, runtime_error, ok, err, length, lookup, put, remove,
}

-- A message from the wire: the fields that the client reads, and the rest.
pub record Message : Type 0 where
  pub msg_type : String
  pub msg_id : String
  pub delivery_id : String
  pub cancelled : Bool
  pub body : String

-- `_PendingQuery`
pub record Pending : Type 0 where
  pub event : Bool
  pub response : Option Message

-- `_max_pending` and `_pending`, and the `_PendingQuery` objects that `cancel_all` took out of
-- `_pending` while their threads still wait on them.
pub record Broker : Type 0 where
  pub max_pending : ℕ
  pub pending : List (String × Pending)
  pub detached : List (String × Pending)

abbrev pub new_pending : Pending
new_pending = record { event = false; response = none }

abbrev pub new_broker : ℕ → Result Broker
new_broker max_pending =
    if leb max_pending 0
    then err value_error
    else ok (record { max_pending = max_pending; pending = []; detached = [] })

-- `request`, up to the call of the sender
unfoldable pub begin_request : String → Broker → Result Broker
unfolding put
begin_request msg_id b =
    if leb b.max_pending (length b.pending)
    then err runtime_error
    else ok (record b { pending = put msg_id new_pending b.pending })

-- `request`, from its wait on: what `wait` returned, and what the three reads of `response` found, which
-- take no lock
abbrev pub answer : (event : Bool) (first second third : Option Message) → Option Message
answer false first second third = none
answer true none second third = third
answer true (some message) none third = none
answer true (some message) (some again) third = if again.cancelled then none else third

-- The object of a waiting thread.
unfoldable pub waiter : String → Broker → Option Pending
unfolding lookup
waiter msg_id b = elim (lookup msg_id b.detached) [
  | some p ↦ some p
  | none ↦ lookup msg_id b.pending
]

-- `request`, its `finally`
unfoldable pub end_request : String → Broker → Broker
unfolding remove
end_request msg_id b = record b {
  pending = remove msg_id b.pending;
  detached = remove msg_id b.detached;
}

unfoldable pub resolve : Message → Broker → Bool × Broker
unfolding lookup put
resolve message b =
    if is_empty message.msg_id then (false, b) else (elim (lookup message.msg_id b.pending) [
      | none ↦ (false, b)
      | some p ↦ (
        true,
        record b {
          pending = put message.msg_id (record { event = true; response = some message }) b.pending;
        },
      )
    ])

abbrev pub query_cancelled : Message
query_cancelled = record {
  msg_type = "QUERY_CANCELLED";
  msg_id = "";
  delivery_id = "";
  cancelled = true;
  body = "";
}

abbrev pub cancellation : Pending
cancellation = record { event = true; response = some query_cancelled }

-- `cancel_all`, under the lock
unfoldable pub detach_all : Broker → Broker
detach_all b = record b { pending = []; detached = b.pending ++ b.detached }

-- `cancel_all`, one round of its loop, without the lock
unfoldable pub cancel_item : String → Broker → Broker
unfolding lookup put
cancel_item msg_id b = elim (lookup msg_id b.detached) [
  | none ↦ b
  | some p ↦ record b { detached = put msg_id cancellation b.detached }
]

unfoldable pub cancel_items : List (String × Pending) → Broker → Broker
unfolding cancel_item
cancel_items [] b = b
cancel_items ((msg_id, p) ∷ items) b = cancel_items items (cancel_item msg_id b)

-- `cancel_all`, where no other thread comes between
unfoldable pub cancel_all : Broker → Broker
unfolding detach_all cancel_items
cancel_all b = cancel_items b.pending (detach_all b)
