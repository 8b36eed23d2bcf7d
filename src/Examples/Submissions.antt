-- ===== src/Examples/Submissions.antt =====
-- Submissions of one request (网关/bigqmt_gateway_proxy.py), with the theorems applied to them.
use qmt_python_tcp.Prelude.{
  ℕ, ◌≤◌, String, ◌≡◌, refl, true, false, Option, none, some, [], ◌∷◌, ◌=t=◌, strip, upper, lower,
  ◌>>=◌,
}
use qmt_python_tcp.Correlation.Rows.{EffectRow, Store, empty_store}
use qmt_python_tcp.Correlation.Effects.{
  reserve_effect_request, allowed_states, transition_effect_request,
}
use qmt_python_tcp.Gateway.Helper.{
  failure, not_run, command_written, poll_full, poll_failed, ready, wait_response, request,
  place_order, known_not_enqueued, published_is_not_denied,
}
use qmt_python_tcp.Gateway.Submit.{
  at_rest, unstarted, Effect, after_place, begin_dispatch, claims, begins, places, SubmitRun,
  untouched, and_then,
}
use qmt_python_tcp.Gateway.Barred.{IsBarred}
use qmt_python_tcp.Gateway.Published.{written_at_most_once}
use qmt_python_tcp.Gateway.Outcome.{sync_outcome, replay, replay-agrees}

abbrev dumps : String → Option String
dumps text = some text

abbrev row_at : String → ℕ → EffectRow
row_at state now = record {
  account_id = "A1";
  request_id = "r1";
  kind = "order";
  fingerprint = "f1";
  state = state;
  result_json = "";
  created_at = 7;
  updated_at = now;
}

abbrev with_row : EffectRow → Store
with_row row = record { orders = []; events = []; pending = []; effects = row ∷ [] }

abbrev submitted : Effect
submitted = record { store = with_row (row_at "DISPATCHING" 8); stage = at_rest; published = 1 }

-- The order is written; the file lane is full once while its response is awaited, and the retry finds
-- the row DISPATCHING.
submitted_run :
    SubmitRun String dumps "A1" "r1" "order" "f1"
      (record { store = empty_store; stage = at_rest; published = 0 })
      submitted
unfolding reserve_effect_request transition_effect_request begin_dispatch after_place place_order
    request wait_response allowed_states ◌>>=◌ strip lower upper
submitted_run =
    and_then
      (and_then (and_then untouched (claims empty_store 0 7 (row_at "PREPARED" 7) false refl refl))
        (begins (with_row (row_at "PREPARED" 7)) 0 8 refl))
      (places (with_row (row_at "DISPATCHING" 8)) 0 true command_written
        (poll_full ∷ ready "accepted" ∷ []) none)

-- The file lane is full, so that nothing is written; the task stands where it takes the request back.
refused_run :
    SubmitRun String dumps "A1" "r1" "order" "f1"
      (record { store = empty_store; stage = at_rest; published = 0 })
      (record { store = with_row (row_at "DISPATCHING" 8); stage = unstarted; published = 0 })
unfolding reserve_effect_request transition_effect_request begin_dispatch after_place place_order
    request known_not_enqueued allowed_states ◌>>=◌ strip lower upper
refused_run =
    and_then
      (and_then (and_then untouched (claims empty_store 0 7 (row_at "PREPARED" 7) false refl refl))
        (begins (with_row (row_at "PREPARED" 7)) 0 8 refl))
      (places (with_row (row_at "DISPATCHING" 8)) 0 true not_run [] none)

written_at_most_once_example :
    (submitted.published ≤ 1)
    × (submitted.published ≡ 1 → IsBarred "A1" "r1" submitted.store)
    × (submitted.stage ≡ unstarted → submitted.published ≡ 0)
written_at_most_once_example =
    written_at_most_once String dumps "A1" "r1" "order" "f1" empty_store submitted_run

published_is_not_denied_example :
    known_not_enqueued (failure "POST_ENQUEUE_RESPONSE_ERROR") false ≡ false
unfolding place_order request wait_response
published_is_not_denied_example =
    published_is_not_denied {Reply = String} true command_written
      (poll_full ∷ poll_failed "EIO" ∷ []) (failure "POST_ENQUEUE_RESPONSE_ERROR") refl refl

replay-agrees_example :
    let first = sync_outcome "queued" true in
    ((replay false first.stage).status ≡ first.status)
    × ((replay false first.stage).effect_state ≡ first.effect_state)
    × ((first.effect_state =t= "PREPARED") ≡ false)
replay-agrees_example = replay-agrees "queued" true
