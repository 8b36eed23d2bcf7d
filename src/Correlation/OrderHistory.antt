-- ===== src/Correlation/OrderHistory.antt =====
-- One order over runs of the store (网关/order_correlation.py).
use qmt_python_tcp.Prelude.{
  ℕ, ◌≤◌, String, ◌≡◌, inl, inr, refl, ◌∙◌, Bool, true, false, Option, some, List, arith,
  Bool-cases,
}
use qmt_python_tcp.Table.{find_row, update_where}
use qmt_python_tcp.Table.Laws.{find_row-insert, find_row-update}
use qmt_python_tcp.Correlation.Rows.{OrderRow, Store, has_order}
use qmt_python_tcp.Correlation.Stage.{stage_rank, is_terminal}
use qmt_python_tcp.Correlation.Orders.{bind_trader, get, may_move, move_stage}
use qmt_python_tcp.Correlation.Steps.{
  OrdersStep, OrdersReach, inserted, rebound, moved, released, cleaned, here, next,
}
use qmt_python_tcp.Correlation.Runs.{Op, run, Allows}
use qmt_python_tcp.Correlation.OrderReach.{run-OrdersReach}

-- How an order may change while it is in the table.
pub record Advances (r r' : OrderRow) : Type 0 where
  pub intent : r'.intent_hash ≡ r.intent_hash
  pub qmt : r'.qmt_user_order_id ≡ r.qmt_user_order_id
  pub rank : stage_rank r.stage ≤ stage_rank r'.stage
  pub final : is_terminal r.stage ≡ true → r'.stage ≡ r.stage

Advances-refl : (r : OrderRow) → Advances r r
Advances-refl r = record { intent = refl; qmt = refl; rank = omega arith; final = λ _. refl }

Advances-trans : {r r' r'' : OrderRow} → Advances r r' → Advances r' r'' → Advances r r''
Advances-trans {r} {r'} f g = record {
  intent = g.intent ∙ f.intent;
  qmt = g.qmt ∙ f.qmt;
  rank = omega (arith, f.rank, g.rank);
  final = λ t. g.final (rw (f.final t) t) ∙ f.final t;
}

bind_trader-Advances : (now : ℕ) (key : String) (r : OrderRow) → Advances r (bind_trader now key r)
unfolding bind_trader
bind_trader-Advances now key r = record {
  intent = refl;
  qmt = refl;
  rank = omega arith;
  final = λ _. refl;
}

-- `may_move` lets through what is not terminal, to a rank that is no smaller.
move_stage-Advances :
    (now : ℕ) (account client stage id sysid : String) (r : OrderRow)
    → may_move account client stage r ≡ true
    → Advances r (move_stage now stage id sysid r)
unfolding may_move move_stage
move_stage-Advances now account client stage id sysid r h = record {
  intent = refl;
  qmt = refl;
  rank = ground arith;
  final = λ t. ground arith;
}

-- What became of the order `r`.
abbrev Kept : String → String → OrderRow → List OrderRow → Type 0
Kept account client r rows =
    (r' : OrderRow) × (find_row (has_order account client) rows ≡ some r') × Advances r r'

module _ (account client : String) where
  updated-Kept :
      (q : OrderRow → Bool) (f : OrderRow → OrderRow)
      → ((r : OrderRow) → has_order account client (f r) ≡ has_order account client r)
      → ((r : OrderRow) → q r ≡ true → Advances r (f r))
      → {r : OrderRow} (rows : List OrderRow) → find_row (has_order account client) rows ≡ some r
      → Kept account client r (update_where q f rows)
  updated-Kept q f same adv {r} rows found = elim (Bool-cases (q r)) [
    | inl hit ↦ (f r, find_row-update _ q f same rows ∙ rw found (rw hit), adv r hit)
    | inr miss ↦ (r, find_row-update _ q f same rows ∙ rw found (rw miss), Advances-refl r)
  ]

  OrdersStep-Kept :
      {r : OrderRow} {rows rows' : List OrderRow}
      → OrdersStep false rows rows'
      → find_row (has_order account client) rows ≡ some r
      → Kept account client r rows'
  unfolding bind_trader move_stage
  OrdersStep-Kept {r} {rows} (inserted row free) found =
      (r, find_row-insert (has_order account client) row rows ∙ rw found, Advances-refl r)
  OrdersStep-Kept {r} {rows} (rebound now a c key) found =
      updated-Kept (has_order a c) (bind_trader now key) (λ r. refl)
        (λ r _. bind_trader-Advances now key r) rows found
  OrdersStep-Kept {r} {rows} (moved now a c stage id sysid) found =
      updated-Kept (may_move a c stage) (move_stage now stage id sysid) (λ r. refl)
        (move_stage-Advances now a c stage id sysid) rows found
  OrdersStep-Kept (released a c i d) found = cc
  OrdersStep-Kept (cleaned cutoff limit d) found = cc

  OrdersReach-Kept :
      {r : OrderRow} {rows rows' : List OrderRow}
      → find_row (has_order account client) rows ≡ some r
      → OrdersReach false rows rows'
      → Kept account client r rows'
  OrdersReach-Kept {r} found here = (r, found, Advances-refl r)
  OrdersReach-Kept found (next reach step) =
      let (r', found', adv) = OrdersReach-Kept found reach in
      let (r'', found'', adv') = OrdersStep-Kept step found' in
      (r'', found'', Advances-trans adv adv')

module _ {Document Body : Type 0} (dumps : Document → Option String)
    (dumps_item : String → String → Body → Option String) where
  -- Over any run that makes no release and no cleanup call, a stored order stays stored under its key
  -- with the same intent hash and QMT id, the rank of its stage never falls, and a terminal stage
  -- never changes.
  pub run-Advances :
      (ops : List (ℕ × Op Document Body)) (s : Store) (account client : String) (r : OrderRow)
      → Allows false ops
      → get account client s ≡ some r
      → (r' : OrderRow) × (get account client (run dumps dumps_item ops s) ≡ some r')
        × Advances r r'
  unfolding get
  run-Advances ops s account client r allows found =
      OrdersReach-Kept account client found (run-OrdersReach dumps dumps_item false ops s allows)
