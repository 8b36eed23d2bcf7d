-- ===== src/Correlation/Steps.antt =====
-- How each method of the store changes the order table and the effect table: one constructor for
-- each kind of statement that 网关/order_correlation.py runs on them.
use qmt_python_tcp.Prelude.{ℕ, String, ◌≡◌, Bool, true, false, Option, List}
use qmt_python_tcp.Table.{update_where, delete_where, insert_row}
use qmt_python_tcp.Correlation.Rows.{OrderRow, EffectRow, has_order}
use qmt_python_tcp.Correlation.Orders.{
  violates_unique, bind_trader, is_exact_reservation, may_move, move_stage,
}
use qmt_python_tcp.Correlation.Effects.{is_taken, may_transition, set_state}
use qmt_python_tcp.Correlation.Pending.{is_retryable, rearm}
use qmt_python_tcp.Correlation.Cleanup.{oldest_orders, is_member}

-- A statement that deletes asks that `deletes` is true.
pub data OrdersStep (deletes : Bool) (rows : List OrderRow) : List OrderRow → Type 0 where
  inserted :
      (row : OrderRow)
      → violates_unique row rows ≡ false
      → OrdersStep deletes rows (insert_row row rows)
  rebound :
      (now : ℕ) (account client key : String)
      → OrdersStep deletes rows (update_where (has_order account client) (bind_trader now key) rows)
  moved :
      (now : ℕ) (account client stage order_id order_sysid : String)
      → OrdersStep deletes rows (
          update_where
            (may_move account client stage)
            (move_stage now stage order_id order_sysid)
            rows)
  released :
      (account client intent : String)
      → deletes ≡ true
      → OrdersStep deletes rows (delete_where (is_exact_reservation account client intent) rows)
  cleaned :
      (cutoff limit : ℕ)
      → deletes ≡ true
      → OrdersStep deletes rows (
          delete_where (λ (r : OrderRow). is_member r.rowid (oldest_orders cutoff limit rows)) rows)

-- Any number of such changes.
pub data OrdersReach (deletes : Bool) (rows : List OrderRow) : List OrderRow → Type 0 where
  here : OrdersReach deletes rows rows
  next :
      {rows' rows'' : List OrderRow}
      → OrdersReach deletes rows rows'
      → OrdersStep deletes rows' rows''
      → OrdersReach deletes rows rows''

-- The statements that change the effect table: no method deletes from it.
pub data EffectsStep (rows : List EffectRow) : List EffectRow → Type 0 where
  registered :
      (row : EffectRow) → is_taken row rows ≡ false → EffectsStep rows (insert_row row rows)
  transitioned :
      (now : ℕ) (account request fingerprint state : String) (allowed : List String)
      (encoded : Option String)
      → EffectsStep rows (
          update_where
            (may_transition account request fingerprint allowed)
            (set_state now state encoded)
            rows)
  rearmed :
      (now : ℕ) (account request fingerprint : String)
      → EffectsStep rows (update_where (is_retryable account request fingerprint) (rearm now) rows)

pub data EffectsReach (rows : List EffectRow) : List EffectRow → Type 0 where
  start : EffectsReach rows rows
  more :
      {rows' rows'' : List EffectRow}
      → EffectsReach rows rows'
      → EffectsStep rows' rows''
      → EffectsReach rows rows''
