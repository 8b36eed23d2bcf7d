-- ===== src/Gateway/Outcome.antt =====
-- What `handle_new` (网关/bigqmt_gateway_proxy.py) replies, of an order that was just placed and of one
-- that is stored already.
use qmt_python_tcp.Prelude.{
  String, ◌≡◌, inl, inr, refl, Bool, false, List, [], ◌∷◌, ◌&&◌, ◌||◌, ◌=t=◌, if◌then◌else◌,
  is_one_of, eq_iff, Bool-cases,
}

-- What a reply says of the order, with "" for a field that is not set, and the state that `dispatch`
-- then records for the effect.
pub record Outcome : Type 0 where
  pub status : String
  pub stage : String
  pub submit_result : String
  pub code : String
  pub effect_state : String

abbrev pub final_effect : String → String
final_effect stage =
    if stage =t= "SUBMIT_UNKNOWN"
    then "UNKNOWN"
    else if stage =t= "REJECTED"
    then "TERMINAL"
    else "ENQUEUED"

abbrev pub sync_stage : String → Bool → String
sync_stage submit_status queued_timeout =
    if submit_status =t= "failed"
    then "REJECTED"
    else if submit_status =t= "submit_unknown" || queued_timeout
    then "SUBMIT_UNKNOWN"
    else "QMT_SUBMITTED"

abbrev pub sync_status : String → Bool → String
sync_status submit_status queued_timeout =
    if queued_timeout
    then "UNKNOWN"
    else if submit_status =t= "failed"
    then "REJECTED"
    else if submit_status =t= "submit_unknown"
    then "UNKNOWN"
    else "ACCEPTED"

-- The reply of `handle_new` to a helper's answer with this `submit_status`, where it waits for the answer.
unfoldable pub sync_outcome : String → Bool → Outcome
sync_outcome submit_status timeout =
    let queued_timeout = submit_status =t= "queued" && timeout in
    record {
      status = sync_status submit_status queued_timeout;
      stage = sync_stage submit_status queued_timeout;
      submit_result =
          if queued_timeout || submit_status =t= "submit_unknown" then "UNKNOWN" else "";
      code =
          if queued_timeout
          then "HELPER_RESPONSE_TIMEOUT"
          else if submit_status =t= "submit_unknown"
          then "QMT_SUBMIT_RESULT_UNKNOWN"
          else "";
      effect_state = final_effect (sync_stage submit_status queued_timeout);
    }

abbrev pub known_submitted_stages : List String
known_submitted_stages =
    "QMT_SUBMITTED" ∷ "QMT_ORDER_CREATED" ∷ "BROKER_ACCEPTED" ∷ "PARTIAL" ∷ "FILLED" ∷ "CANCELLED"
    ∷ []

abbrev pub replay_effect : String → String
replay_effect stage =
    if is_one_of stage ("FILLED" ∷ "CANCELLED" ∷ "REJECTED" ∷ [])
    then "TERMINAL"
    else if stage =t= "SUBMIT_UNKNOWN"
    then "UNKNOWN"
    else if is_one_of stage known_submitted_stages
    then "ENQUEUED"
    else "PREPARED"

-- The reply of `handle_new` to an order that is stored at this stage.
unfoldable pub replay : Bool → String → Outcome
replay async_mode stage =
    let says : String → String → String → Outcome = λ status submit_result code. record {
      status = status;
      stage = stage;
      submit_result = submit_result;
      code = code;
      effect_state = replay_effect stage;
    } in
    if is_one_of stage known_submitted_stages
    then says (if async_mode then "SENT" else "ACCEPTED") "KNOWN" ""
    else if stage =t= "REJECTED"
    then says "REJECTED" "REJECTED" "ORDER_REJECTED"
    else if stage =t= "SUBMIT_UNKNOWN"
    then says "UNKNOWN" "UNKNOWN" "QMT_SUBMIT_RESULT_UNKNOWN"
    else if is_one_of stage ("RESERVED" ∷ "BRIDGE_QUEUED" ∷ [])
    then says "UNKNOWN" "PENDING" "REQUEST_IN_PROGRESS"
    else says "UNKNOWN" "UNKNOWN" "CORRELATION_STATE_UNKNOWN"

-- Whatever a helper answers to an order that waits for it: the order, asked for once more at the stage
-- that was stored, is reported with the same status and the same state of its effect, and that state
-- is not PREPARED.
pub replay-agrees :
    (submit_status : String) (timeout : Bool)
    → let first = sync_outcome submit_status timeout in
      ((replay false first.stage).status ≡ first.status)
      × ((replay false first.stage).effect_state ≡ first.effect_state)
      × ((first.effect_state =t= "PREPARED") ≡ false)
unfolding sync_outcome replay
replay-agrees submit_status timeout = elim (Bool-cases (submit_status =t= "failed")) [
  | inl failed ↦ let e = (eq_iff submit_status "failed").0 failed in rw e (refl, refl, refl)
  | inr fine ↦ elim (Bool-cases (submit_status =t= "submit_unknown")) [
    | inl unknown ↦
        let e = (eq_iff submit_status "submit_unknown").0 unknown in rw e (refl, refl, refl)
    | inr submitted_so ↦ elim (Bool-cases (submit_status =t= "queued" && timeout)) [
      | inl late ↦ rw (fine, submitted_so, late) (refl, refl, refl)
      | inr settled ↦ rw (fine, submitted_so, settled) (refl, refl, refl)
    ]
  ]
]
