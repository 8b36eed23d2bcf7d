-- ===== src/Correlation/EffectHistory.antt =====
-- One effect request over runs of the store (网关/order_correlation.py).
use qmt_python_tcp.Prelude.{
  ℕ, String, ◌≡◌, inl, inr, refl, ◌∙◌, Bool, Option, some, List, strip, Bool-cases,
}
use qmt_python_tcp.Table.{find_row, update_where}
use qmt_python_tcp.Table.Laws.{find_row-insert, find_row-update}
use qmt_python_tcp.Correlation.Rows.{EffectRow, Store, has_effect}
use qmt_python_tcp.Correlation.Effects.{may_transition, set_state, get_effect_request}
use qmt_python_tcp.Correlation.Pending.{is_retryable, rearm}
use qmt_python_tcp.Correlation.Steps.{
  EffectsStep, EffectsReach, registered, transitioned, rearmed, start, more,
}
use qmt_python_tcp.Correlation.Runs.{Op, run}
use qmt_python_tcp.Correlation.EffectReach.{run-EffectsReach}

-- What an effect request keeps for good.
pub record SameBinding (e e' : EffectRow) : Type 0 where
  pub kind : e'.kind ≡ e.kind
  pub fingerprint : e'.fingerprint ≡ e.fingerprint
  pub created : e'.created_at ≡ e.created_at

abbrev Kept : String → String → EffectRow → List EffectRow → Type 0
Kept account request e rows =
    (e' : EffectRow) × (find_row (has_effect account request) rows ≡ some e') × SameBinding e e'

SameBinding-refl : (e : EffectRow) → SameBinding e e
SameBinding-refl e = record { kind = refl; fingerprint = refl; created = refl }

module _ (account request : String) where
  updated-Kept :
      (q : EffectRow → Bool) (f : EffectRow → EffectRow)
      → ((e : EffectRow) → has_effect account request (f e) ≡ has_effect account request e)
      → ((e : EffectRow) → SameBinding e (f e))
      → {e : EffectRow} (rows : List EffectRow)
      → find_row (has_effect account request) rows ≡ some e
      → Kept account request e (update_where q f rows)
  updated-Kept q f same keep {e} rows found = elim (Bool-cases (q e)) [
    | inl hit ↦ (f e, find_row-update _ q f same rows ∙ rw found (rw hit), keep e)
    | inr miss ↦ (e, find_row-update _ q f same rows ∙ rw found (rw miss), SameBinding-refl e)
  ]

  EffectsStep-Kept :
      {e : EffectRow} {rows rows' : List EffectRow}
      → EffectsStep rows rows'
      → find_row (has_effect account request) rows ≡ some e
      → Kept account request e rows'
  unfolding set_state rearm
  EffectsStep-Kept {e} {rows} (registered row free) found =
      (e, find_row-insert (has_effect account request) row rows ∙ rw found, SameBinding-refl e)
  EffectsStep-Kept {e} {rows} (transitioned now a r f state allowed encoded) found =
      updated-Kept (may_transition a r f allowed) (set_state now state encoded) (λ e. refl)
        (λ e. record { kind = refl; fingerprint = refl; created = refl }) rows found
  EffectsStep-Kept {e} {rows} (rearmed now a r f) found =
      updated-Kept (is_retryable a r f) (rearm now) (λ e. refl)
        (λ e. record { kind = refl; fingerprint = refl; created = refl }) rows found

  EffectsReach-Kept :
      {e : EffectRow} {rows rows' : List EffectRow}
      → find_row (has_effect account request) rows ≡ some e
      → EffectsReach rows rows'
      → Kept account request e rows'
  EffectsReach-Kept {e} found start = (e, found, SameBinding-refl e)
  EffectsReach-Kept found (more reach step) =
      let (e', found', same) = EffectsReach-Kept found reach in
      let (e'', found'', same') = EffectsStep-Kept step found' in
      (
        e'',
        found'',
        record {
          kind = same'.kind ∙ same.kind;
          fingerprint = same'.fingerprint ∙ same.fingerprint;
          created = same'.created ∙ same.created;
        },
      )

module _ {Document Body : Type 0} (dumps : Document → Option String)
    (dumps_item : String → String → Body → Option String) where
  -- Over any run of calls, a request id that is bound to an effect stays bound to its kind and its
  -- fingerprint, cleanup included.
  pub run-SameBinding :
      (ops : List (ℕ × Op Document Body)) (s : Store) (account request : String) (e : EffectRow)
      → get_effect_request account request s ≡ some e
      → (e' : EffectRow) × (get_effect_request account request (run dumps dumps_item ops s)
          ≡ some e')
        × SameBinding e e'
  unfolding get_effect_request
  run-SameBinding ops s account request e found =
      EffectsReach-Kept (strip account) (strip request) found
        (run-EffectsReach dumps dumps_item ops s)
