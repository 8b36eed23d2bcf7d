-- ===== src/Coordinator/Stages.antt =====
-- The stages of a command (外置策略API/qmt_local_api/coordinator.py).
use qmt_python_tcp.Prelude.{
  String, Bool, [], ◌∷◌, ◌&&◌, ◌=t=◌, or_text, upper, if◌then◌else◌, is_one_of,
}
use qmt_python_tcp.Coordinator.Rows.{Message}

-- _TERMINAL_STAGES
unfoldable pub is_terminal : String → Bool
is_terminal stage =
    is_one_of stage ("FILLED" ∷ "CANCELLED" ∷ "CANCELED" ∷ "REJECTED" ∷ "FAILED" ∷ [])

-- _UNKNOWN_STAGES
unfoldable pub is_unknown : String → Bool
is_unknown stage =
    is_one_of stage
      ("UNKNOWN" ∷ "SUBMIT_UNKNOWN" ∷ "EFFECT_STATE_UNKNOWN" ∷ "POST_ENQUEUE_STATE_UNCERTAIN" ∷ [])

-- `_stage_from_event` behind its first test
stage_from_status : String → String → String
unfolding is_unknown is_terminal
stage_from_status kind status =
    if is_unknown status
    then "UNKNOWN"
    else if is_terminal status
    then (if status =t= "CANCELED" then "CANCELLED" else status)
    else if is_one_of status ("QMT_SUBMITTED" ∷ "ORDER_ACTIVE" ∷ "BRIDGE_QUEUED" ∷ [])
    then status
    else if kind =t= "ASYNC_ORDER_RESPONSE"
    then "QMT_SUBMITTED"
    else if kind =t= "ASYNC_CANCEL_RESPONSE"
    then "CANCEL_REQUESTED"
    else ""

unfoldable pub stage_from_event : Message → String
unfolding stage_from_status
stage_from_event message =
    let kind = upper message.message_type in
    let status = upper (or_text message.stage (or_text message.status message.order_status)) in
    if is_one_of kind ("ASYNC_ORDER" ∷ "ASYNC_CANCEL" ∷ []) && status =t= "SENT"
    then "BRIDGE_QUEUED"
    else if is_one_of kind ("ASYNC_ORDER" ∷ "ASYNC_CANCEL" ∷ []) && status =t= "REJECTED"
    then "REJECTED"
    else stage_from_status kind status
