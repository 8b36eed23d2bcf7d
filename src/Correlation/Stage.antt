-- ===== src/Correlation/Stage.antt =====
-- STAGE_RANK and TERMINAL_STAGES of `OrderCorrelationStore` (网关/order_correlation.py).
use qmt_python_tcp.Prelude.{
  ℕ, ◌≤◌, ◌≡◌, String, Bool, [], ◌∷◌, ◌=t=◌, is_one_of, if◌then◌else◌, arith, eq_iff,
}

-- One more than the source's number, so that the -1 of an unknown stage is 0.
unfoldable pub stage_rank : String → ℕ
stage_rank stage =
    if stage =t= "RESERVED"
    then 1
    else if stage =t= "BRIDGE_QUEUED"
    then 2
    else if stage =t= "SUBMIT_UNKNOWN"
    then 3
    else if stage =t= "QMT_SUBMITTED"
    then 4
    else if stage =t= "QMT_ORDER_CREATED"
    then 5
    else if stage =t= "BROKER_ACCEPTED"
    then 6
    else if stage =t= "PARTIAL"
    then 7
    else if stage =t= "FILLED"
    then 8
    else if stage =t= "CANCELLED"
    then 8
    else if stage =t= "REJECTED"
    then 8
    else 0

unfoldable pub is_terminal : String → Bool
is_terminal stage = is_one_of stage ("FILLED" ∷ "CANCELLED" ∷ "REJECTED" ∷ [])

pub stage_rank-le : (stage : String) → stage_rank stage ≤ 8
unfolding stage_rank
stage_rank-le stage = ground arith

stage_rank-cancelled : stage_rank "CANCELLED" ≡ 8
unfolding stage_rank
stage_rank-cancelled = ground (arith, eq_iff "CANCELLED" "RESERVED")
