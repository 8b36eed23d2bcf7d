-- ===== src/Gateway/Helper.antt =====
-- The call of the helper for a command, in `FileQueueHelperClient` (网关/bigqmt_gateway_proxy.py). What
-- the file system and the helper do is a parameter: what becomes of each file operation.
use mathlib.Core.Path.{subst}
use qmt_python_tcp.Prelude.{
  String, ◌≡◌, refl, Bool, true, false, List, [], ◌∷◌, not, ◌&&◌, ◌=t=◌, if◌then◌else◌, arith,
}

-- An exception: `IoLaneFull`, or another one with its `code`, which is empty where it has none.
pub data Failure : Type 0 where
  io_lane_full : Failure
  failure : (code : String) → Failure

module _ (Reply : Type 0) where
  -- What becomes of `_prepare_request_sync` or `enqueue_action` on the file lane: the lane is full;
  -- an exception before the command file is written; an exception of the write, which may have
  -- published the file; a response or a request file that is there already; or the command file is
  -- written.
  pub data Prepared : Type 0 where
    not_run : Prepared
    refused_early : (code : String) → Prepared
    write_failed : (written : Bool) → Prepared
    answered_early : (reply : Reply) → Prepared
    command_written : Prepared

  -- One round of the loop that waits for the response.
  pub data Poll : Type 0 where
    poll_full : Poll
    poll_failed : (code : String) → Poll
    not_ready : Poll
    ready : (reply : Reply) → Poll

  -- What a call of the helper returns or raises; `queued` is the answer of a command that has none
  -- yet.
  pub data Answer : Type 0 where
    returned : (reply : Reply) → Answer
    queued : Answer
    raised : (reason : Failure) → Answer

module _ {Reply : Type 0} where
  -- Has this call written the command file?
  abbrev pub publishes : Prepared Reply → Bool
  publishes command_written = true
  publishes (write_failed written) = written
  publishes _ = false

  -- `_request_timeout_result`
  abbrev pub timeout_result : Bool → Answer Reply
  timeout_result timeout_as_queued =
      if timeout_as_queued then queued else raised (failure "HELPER_TIMEOUT")

  -- The loop of `request`; its rounds are those before the deadline. `is_effect` is
  -- `action in ("place_order", "cancel_order")`.
  unfoldable pub wait_response : Bool → Bool → List (Poll Reply) → Answer Reply
  wait_response is_effect as_queued [] = timeout_result as_queued
  wait_response is_effect as_queued (not_ready ∷ polls) = wait_response is_effect as_queued polls
  wait_response is_effect as_queued (ready reply ∷ polls) = returned reply
  wait_response is_effect as_queued (poll_full ∷ polls) =
      let rest = wait_response is_effect as_queued polls in
      if is_effect then rest else raised io_lane_full
  wait_response is_effect as_queued (poll_failed code ∷ polls) =
      raised (failure (if is_effect then "POST_ENQUEUE_RESPONSE_ERROR" else code))

  -- `request`, for a command that is not cancelled
  unfoldable pub request : Bool → Bool → Prepared Reply → List (Poll Reply) → Answer Reply
  unfolding wait_response
  request is_effect as_queued not_run polls = raised io_lane_full
  request is_effect as_queued (refused_early code) polls = raised (failure code)
  request is_effect as_queued (write_failed written) polls = raised (failure "")
  request is_effect as_queued (answered_early reply) polls = returned reply
  request is_effect as_queued command_written polls = wait_response is_effect as_queued polls

  -- `enqueue_action`, on the file lane
  unfoldable pub enqueue_action : Prepared Reply → Answer Reply
  enqueue_action not_run = raised io_lane_full
  enqueue_action (refused_early code) = raised (failure code)
  enqueue_action (write_failed written) = raised (failure "")
  enqueue_action (answered_early reply) = returned reply
  enqueue_action command_written = queued

  unfoldable pub place_order : Bool → Prepared Reply → List (Poll Reply) → Answer Reply
  unfolding request enqueue_action
  place_order wait prepared polls =
      if wait then request true true prepared polls else enqueue_action prepared

-- `known_not_enqueued`, of `handle_new`
unfoldable pub known_not_enqueued : Failure → Bool → Bool
known_not_enqueued io_lane_full helper_completed = not helper_completed
known_not_enqueued (failure code) helper_completed =
    code =t= "REQUEST_ID_CONFLICT" && not helper_completed

raised-same :
    {Reply : Type 0} {a b : Failure} → ◌≡◌ {A = Answer Reply} (raised a) (raised b) → a ≡ b
raised-same e = ground arith

wait_response-published :
    {Reply : Type 0} (polls : List (Poll Reply)) (reason : Failure)
    → wait_response true true polls ≡ raised reason
    → known_not_enqueued reason false ≡ false
unfolding wait_response known_not_enqueued
wait_response-published [] reason e = absurd cc
wait_response-published (not_ready ∷ polls) reason e = wait_response-published polls reason e
wait_response-published (ready reply ∷ polls) reason e = absurd cc
wait_response-published (poll_full ∷ polls) reason e = wait_response-published polls reason e
wait_response-published (poll_failed code ∷ polls) reason e =
    subst (λ r. known_not_enqueued r false ≡ false) (raised-same e) refl

-- A call of the helper that has written the command file never raises what is taken for the proof
-- that there is no command.
pub published_is_not_denied :
    {Reply : Type 0} (wait : Bool) (prepared : Prepared Reply) (polls : List (Poll Reply))
    (reason : Failure)
    → publishes prepared ≡ true
    → place_order wait prepared polls ≡ raised reason
    → known_not_enqueued reason false ≡ false
unfolding place_order request enqueue_action known_not_enqueued
published_is_not_denied true command_written polls reason there e =
    wait_response-published polls reason e
published_is_not_denied false command_written polls reason there e = absurd cc
published_is_not_denied true (write_failed written) polls reason there e =
    subst (λ r. known_not_enqueued r false ≡ false) (raised-same e) refl
published_is_not_denied false (write_failed written) polls reason there e =
    subst (λ r. known_not_enqueued r false ≡ false) (raised-same e) refl
published_is_not_denied wait not_run polls reason there e = absurd cc
published_is_not_denied wait (refused_early code) polls reason there e = absurd cc
published_is_not_denied wait (answered_early reply) polls reason there e = absurd cc
