-- ===== src/Gateway/Runtime.antt =====
-- The counters, reservations and caches of `AccountRuntime` (网关/bigqmt_gateway_proxy.py). Each
-- method runs under its lock, so it is one step.
use qmt_python_tcp.Prelude.{
  ℕ, ◌+◌, ◌-◌, max, String, Bool, true, false, Option, none, some, List, not, ◌&&◌, ◌||◌, ◌=t=◌,
  is_empty, if◌then◌else◌, leb, length, lookup, put, remove,
}

-- An entry of `pending_responses`: its fingerprint, whether a response was captured, and whether a
-- ready one is kept.
pub record PendingItem : Type 0 where
  pub fingerprint : String
  pub response_captured : Bool
  pub ready_response : Bool

-- An entry of `done`: the reply and its fingerprint.
pub record Done (Reply : Type 0) : Type 0 where
  pub reply : Reply
  pub effect_fingerprint : String

pub record Runtime (Reply : Type 0) : Type 0 where
  pub effect_inflight : ℕ
  pub last_gateway_enqueue_seq : ℕ
  pub command_capacity_reserved : ℕ
  pub command_enqueue_total : ℕ
  pub command_depth_sample_enqueue_total : ℕ
  pub command_queue_depth : ℕ
  pub pending_responses : List (String × PendingItem)
  pub pending_response_reservations : List (String × String)
  pub effect_request_reservations : List (String × String)
  pub response_delivery_tasks : ℕ
  pub response_fallback_cursor : ℕ
  pub done : List (String × Done Reply)
  pub done_order : List String

-- MAX_EFFECT_INFLIGHT_PER_ACCOUNT, COMMAND_QUEUE_HIGH_WATER_PER_ACCOUNT,
-- MAX_PENDING_RESPONSES_PER_ACCOUNT, MAX_RESPONSE_DELIVERY_TASKS_PER_ACCOUNT, and the length of `done`
abbrev pub max_effect_inflight : ℕ
max_effect_inflight = 8

abbrev pub command_high_water : ℕ
command_high_water = 224

abbrev pub max_pending_responses : ℕ
max_pending_responses = 256

abbrev pub max_delivery_tasks : ℕ
max_delivery_tasks = 32

abbrev pub max_done : ℕ
max_done = 2000

-- `code` of a refusal
pub data Code : Type 0 where
  in_progress conflict state_unknown : Code

abbrev pub same_or_conflict : Bool → Code
same_or_conflict same = if same then in_progress else conflict

-- Is there a response already?
abbrev pub has_response : PendingItem → Bool
has_response item = item.response_captured || item.ready_response

-- `(capacity, owned, code)`
pub record Reservation : Type 0 where
  pub capacity : Bool
  pub owned : Bool
  pub code : Option Code

abbrev pub verdict : Bool → Bool → Option Code → Reservation
verdict capacity owned code = record { capacity = capacity; owned = owned; code = code }

-- the answer for a request that is pending
unfoldable pub pending_verdict : String → Bool → PendingItem → Reservation
pending_verdict fingerprint takeover item =
    let same = item.fingerprint =t= fingerprint in
    if takeover && not (is_empty item.fingerprint) && same && not (has_response item)
    then verdict true false none
    else if same && has_response item
    then verdict true false (some state_unknown)
    else verdict true false (some (same_or_conflict (not (is_empty item.fingerprint) && same)))

module _ {Reply : Type 0} where
  -- `clock` is `time.time_ns()`
  unfoldable pub next_gateway_enqueue_seq : ℕ → Runtime Reply → ℕ × Runtime Reply
  next_gateway_enqueue_seq clock r =
      let seq = max (r.last_gateway_enqueue_seq + 1) clock in
      (seq, record r { last_gateway_enqueue_seq = seq })

  unfoldable pub try_acquire_effect : Runtime Reply → Bool × Runtime Reply
  try_acquire_effect r =
      if leb max_effect_inflight r.effect_inflight
      then (false, r)
      else (true, record r { effect_inflight = r.effect_inflight + 1 })

  unfoldable pub release_effect : Runtime Reply → Runtime Reply
  release_effect r = record r { effect_inflight = r.effect_inflight - 1 }

  -- what is in the command directory, as far as is known
  abbrev pub estimated_depth : Runtime Reply → ℕ
  estimated_depth r =
      r.command_queue_depth
      + (r.command_enqueue_total - r.command_depth_sample_enqueue_total)
      + r.command_capacity_reserved

  unfoldable pub try_reserve_command_capacity : Runtime Reply → Bool × Runtime Reply
  try_reserve_command_capacity r =
      if leb command_high_water (estimated_depth r)
      then (false, r)
      else (true, record r { command_capacity_reserved = r.command_capacity_reserved + 1 })

  unfoldable pub release_command_capacity : Bool → Runtime Reply → Runtime Reply
  release_command_capacity enqueued r = record r {
    command_capacity_reserved = r.command_capacity_reserved - 1;
    command_enqueue_total =
        if enqueued then r.command_enqueue_total + 1 else r.command_enqueue_total;
  }

  -- `depth` is the directory scan's, `total` is the enqueue count when the scan began
  unfoldable pub cache_helper_health : ℕ → ℕ → Runtime Reply → Runtime Reply
  cache_helper_health depth total r = record r {
    command_queue_depth = depth;
    command_depth_sample_enqueue_total = total;
  }

  abbrev pub occupied : Runtime Reply → ℕ
  occupied r = length r.pending_responses + length r.pending_response_reservations

  unfoldable pub reserve_slot : String → String → Runtime Reply → Reservation × Runtime Reply
  unfolding put
  reserve_slot request fingerprint r =
      if leb max_delivery_tasks r.response_delivery_tasks
      then (verdict false false none, r)
      else if leb max_pending_responses (occupied r)
      then (verdict false false none, r)
      else (
        verdict true true none,
        record r {
          pending_response_reservations = put request fingerprint r.pending_response_reservations;
        },
      )

  unfoldable pub try_reserve_pending_response :
      String → String → Bool → Runtime Reply → Reservation × Runtime Reply
  unfolding pending_verdict reserve_slot lookup
  try_reserve_pending_response request fingerprint takeover r =
      elim (lookup request r.pending_responses) [
        | some item ↦ (pending_verdict fingerprint takeover item, r)
        | none ↦ elim (lookup request r.pending_response_reservations) [
          | some reserved ↦
              (verdict true false (some (same_or_conflict (reserved =t= fingerprint))), r)
          | none ↦ reserve_slot request fingerprint r
        ]
      ]

  -- the part of `commit_pending_response` behind the database call
  unfoldable pub commit_pending_response : String → PendingItem → Runtime Reply → Runtime Reply
  unfolding put remove
  commit_pending_response request item r = record r {
    pending_response_reservations = remove request r.pending_response_reservations;
    pending_responses = put request item r.pending_responses;
  }

  unfoldable pub forget_pending_response : String → Runtime Reply → Runtime Reply
  unfolding remove
  forget_pending_response request r = record r {
    pending_response_reservations = remove request r.pending_response_reservations;
    pending_responses = remove request r.pending_responses;
  }

  unfoldable pub release_pending_response_reservation : String → Runtime Reply → Runtime Reply
  unfolding remove
  release_pending_response_reservation request r = record r {
    pending_response_reservations = remove request r.pending_response_reservations;
  }

  -- the code, or `none` where the request is now owned
  unfoldable pub try_reserve_effect_request :
      String → String → Runtime Reply → Option Code × Runtime Reply
  unfolding lookup put
  try_reserve_effect_request request fingerprint r =
      elim (lookup request r.effect_request_reservations) [
        | some existing ↦ (some (same_or_conflict (existing =t= fingerprint)), r)
        | none ↦ (
          none,
          record r {
            effect_request_reservations = put request fingerprint r.effect_request_reservations;
          },
        )
      ]

  unfoldable pub release_effect_request : String → Runtime Reply → Runtime Reply
  unfolding remove
  release_effect_request request r = record r {
    effect_request_reservations = remove request r.effect_request_reservations;
  }
