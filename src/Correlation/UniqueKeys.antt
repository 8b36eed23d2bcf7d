-- ===== src/Correlation/UniqueKeys.antt =====
-- The declared keys of the order table and of the effect table over runs (网关/order_correlation.py).
use mathlib.Core.Path.{subst}
use native.Mathlib.Nat.{le_trans}
use qmt_python_tcp.Prelude.{
  ℕ, ◌≤◌, String, ◌≡◌, inl, inr, refl, Bool, true, false, Option, List, ◌&&◌, ◌||◌, ◌=t=◌, any,
  arith, eq_iff, Bool-cases, &&-true,
}
use qmt_python_tcp.Table.{count_where, update_where, delete_where, insert_row}
use qmt_python_tcp.Table.Laws.{
  count_where-insert, count_where-delete, count_where-update, count_where-any,
}
use qmt_python_tcp.Correlation.Rows.{
  OrderRow, EffectRow, Store, has_order, has_msg, has_qmt, has_effect,
}
use qmt_python_tcp.Correlation.Orders.{violates_unique, bind_trader, move_stage}
use qmt_python_tcp.Correlation.Effects.{is_taken, may_transition, set_state}
use qmt_python_tcp.Correlation.Pending.{is_retryable, rearm}
use qmt_python_tcp.Correlation.Steps.{
  OrdersReach, EffectsReach, inserted, rebound, moved, released, cleaned, here, next, registered,
  transitioned, rearmed, start, more,
}
use qmt_python_tcp.Correlation.Runs.{Op, run, Allows-all}
use qmt_python_tcp.Correlation.OrderReach.{run-OrdersReach}
use qmt_python_tcp.Correlation.EffectReach.{run-EffectsReach}

-- PRIMARY KEY and UNIQUE of order_correlation: no key has two rows.
pub record HasUniqueOrders (rows : List OrderRow) : Type 0 where
  pub by_order : (account client : String) → count_where (has_order account client) rows ≤ 1
  pub by_msg : (account msg : String) → count_where (has_msg account msg) rows ≤ 1
  pub by_qmt : (account qmt : String) → count_where (has_qmt account qmt) rows ≤ 1

-- PRIMARY KEY of gateway_effect_request
pub record HasUniqueEffects (rows : List EffectRow) : Type 0 where
  pub by_request : (account request : String) → count_where (has_effect account request) rows ≤ 1

module _ {A : Type 0} (field : A → String) (field' : A → String) where
  abbrev has_pair : String → String → A → Bool
  has_pair a b row = field row =t= a && field' row =t= b

  -- A row whose own key is free leaves every key with one row at most.
  inserted_unique :
      (row : A) (rows : List A)
      → any (has_pair (field row) (field' row)) rows ≡ false
      → ((a b : String) → count_where (has_pair a b) rows ≤ 1)
      → (a b : String) → count_where (has_pair a b) (insert_row row rows) ≤ 1
  inserted_unique row rows free unique a b = elim (Bool-cases (has_pair a b row)) [
    | inl hit ↦
        let own = &&-true (field row =t= a) (field' row =t= b) hit in
        let ea = (eq_iff (field row) a).0 own.0 in
        let eb = (eq_iff (field' row) b).0 own.1 in
        rw count_where-insert (
          rw hit (
            omega (
              arith,
              subst (λ k. count_where (has_pair k b) rows ≡ 0) ea
                  (subst (λ k. count_where (has_pair (field row) k) rows ≡ 0) eb
                    (count_where-any _ rows free)),
            )))
    | inr miss ↦ rw count_where-insert (rw miss (omega (arith, unique a b)))
  ]

or_false : (a b c : Bool) → (a || b || c) ≡ false → (a ≡ false) × (b ≡ false) × (c ≡ false)
or_false a b c h = ground arith

inserted-HasUniqueOrders :
    (row : OrderRow) (rows : List OrderRow)
    → violates_unique row rows ≡ false
    → HasUniqueOrders rows
    → HasUniqueOrders (insert_row row rows)
unfolding violates_unique
inserted-HasUniqueOrders row rows free u =
    let (f, g, h) =
      or_false (any (has_order row.account_id row.client_order_id) rows)
        (any (has_msg row.account_id row.msg_id) rows)
        (any (has_qmt row.account_id row.qmt_user_order_id) rows) free in
    record {
      by_order = inserted_unique (λ r. r.account_id) (λ r. r.client_order_id) row rows f u.by_order;
      by_msg = inserted_unique (λ r. r.account_id) (λ r. r.msg_id) row rows g u.by_msg;
      by_qmt = inserted_unique (λ r. r.account_id) (λ r. r.qmt_user_order_id) row rows h u.by_qmt;
    }

-- An UPDATE that leaves the key columns alone.
updated-HasUniqueOrders :
    (q : OrderRow → Bool) (f : OrderRow → OrderRow) (rows : List OrderRow)
    → ((x y : String) (r : OrderRow) → has_order x y (f r) ≡ has_order x y r)
    → ((x y : String) (r : OrderRow) → has_msg x y (f r) ≡ has_msg x y r)
    → ((x y : String) (r : OrderRow) → has_qmt x y (f r) ≡ has_qmt x y r)
    → HasUniqueOrders rows
    → HasUniqueOrders (update_where q f rows)
updated-HasUniqueOrders q f rows o m k u = record {
  by_order =
      λ x y. omega (arith, count_where-update (has_order x y) q f (o x y) rows, u.by_order x y);
  by_msg = λ x y. omega (arith, count_where-update (has_msg x y) q f (m x y) rows, u.by_msg x y);
  by_qmt = λ x y. omega (arith, count_where-update (has_qmt x y) q f (k x y) rows, u.by_qmt x y);
}

deleted-HasUniqueOrders :
    (q : OrderRow → Bool) (rows : List OrderRow)
    → HasUniqueOrders rows
    → HasUniqueOrders (delete_where q rows)
deleted-HasUniqueOrders q rows u = record {
  by_order = λ x y. le_trans (count_where-delete _ q rows) (u.by_order x y);
  by_msg = λ x y. le_trans (count_where-delete _ q rows) (u.by_msg x y);
  by_qmt = λ x y. le_trans (count_where-delete _ q rows) (u.by_qmt x y);
}

OrdersReach-HasUniqueOrders :
    {deletes : Bool} {rows rows' : List OrderRow}
    → HasUniqueOrders rows
    → OrdersReach deletes rows rows'
    → HasUniqueOrders rows'
unfolding bind_trader move_stage
OrdersReach-HasUniqueOrders u here = u
OrdersReach-HasUniqueOrders u (next {rows' = mid} reach (inserted row free)) =
    inserted-HasUniqueOrders row mid free (OrdersReach-HasUniqueOrders u reach)
OrdersReach-HasUniqueOrders u (next {rows' = mid} reach (rebound now a c key)) =
    updated-HasUniqueOrders _ _ mid (λ x y r. refl) (λ x y r. refl) (λ x y r. refl)
      (OrdersReach-HasUniqueOrders u reach)
OrdersReach-HasUniqueOrders u (next {rows' = mid} reach (moved now a c stage id sysid)) =
    updated-HasUniqueOrders _ _ mid (λ x y r. refl) (λ x y r. refl) (λ x y r. refl)
      (OrdersReach-HasUniqueOrders u reach)
OrdersReach-HasUniqueOrders u (next {rows' = mid} reach (released a c i d)) =
    deleted-HasUniqueOrders _ mid (OrdersReach-HasUniqueOrders u reach)
OrdersReach-HasUniqueOrders u (next {rows' = mid} reach (cleaned cutoff limit d)) =
    deleted-HasUniqueOrders _ mid (OrdersReach-HasUniqueOrders u reach)

EffectsReach-HasUniqueEffects :
    {rows rows' : List EffectRow}
    → HasUniqueEffects rows
    → EffectsReach rows rows'
    → HasUniqueEffects rows'
unfolding set_state rearm is_taken
EffectsReach-HasUniqueEffects u start = u
EffectsReach-HasUniqueEffects u (more {rows' = mid} reach (registered row free)) = record {
  by_request =
      inserted_unique (λ e. e.account_id) (λ e. e.request_id) row mid free
        (EffectsReach-HasUniqueEffects u reach).by_request;
}
EffectsReach-HasUniqueEffects u
      (more {rows' = mid} reach (transitioned now a r f state allowed encoded)) =
    record {
      by_request = λ x y. omega (
        arith,
        count_where-update (has_effect x y) (may_transition a r f allowed)
            (set_state now state encoded) (λ e. refl) mid,
        (EffectsReach-HasUniqueEffects u reach).by_request x y,
      );
    }
EffectsReach-HasUniqueEffects u (more {rows' = mid} reach (rearmed now a r f)) = record {
  by_request = λ x y. omega (
    arith,
    count_where-update (has_effect x y) (is_retryable a r f) (rearm now) (λ e. refl) mid,
    (EffectsReach-HasUniqueEffects u reach).by_request x y,
  );
}

module _ {Document Body : Type 0} (dumps : Document → Option String)
    (dumps_item : String → String → Body → Option String) where
  -- Whatever calls are made, in any order and with any errors, the primary key and the two unique
  -- keys of the order table and the primary key of the effect table hold again after the run.
  pub run-HasUniqueKeys :
      (ops : List (ℕ × Op Document Body)) (s : Store)
      → HasUniqueOrders s.orders
      → HasUniqueEffects s.effects
      → HasUniqueOrders (run dumps dumps_item ops s).orders
        × HasUniqueEffects (run dumps dumps_item ops s).effects
  run-HasUniqueKeys ops s u v = (
    OrdersReach-HasUniqueOrders u (run-OrdersReach dumps dumps_item true ops s (Allows-all ops)),
    EffectsReach-HasUniqueEffects v (run-EffectsReach dumps dumps_item ops s),
  )
