-- ===== src/Gateway/Barred.antt =====
-- That the registry row of a request (网关/order_correlation.py) stays away from PREPARED once its
-- dispatch (网关/bigqmt_gateway_proxy.py) has begun: the calls.
use mathlib.Core.Path.{subst}
use qmt_python_tcp.Prelude.{
  ℕ, ◌≤◌, String, ◌≡◌, inl, inr, refl, ◌∙◌, true, false, Option, none, some, List, [], ◌∷◌, ◌=t=◌,
  strip, upper, if◌then◌else◌, if-both, ◌>>=◌, is_one_of, eq_iff, eq_refl, Bool-cases,
}
use qmt_python_tcp.Table.Laws.{find_row-true, find_row-update}
use qmt_python_tcp.Correlation.Rows.{EffectRow, Store, has_effect}
use qmt_python_tcp.Correlation.Effects.{
  allowed_states, no_states, encode_result, may_transition, set_state, transition_effect_request,
}
use qmt_python_tcp.Gateway.Helper.{request}
use qmt_python_tcp.Gateway.Submit.{
  Stage, at_rest, claimed, dispatching, unstarted, Effect, final_states, begin_dispatch,
}
use qmt_python_tcp.Gateway.Barrier.{row_of, moved_row, transition-row}

-- The row of the request is there, and not PREPARED.
abbrev pub IsBarred : String → String → Store → Type 0
IsBarred account request s =
    (row : EffectRow) × (row_of account request s ≡ some row) × ((row.state =t= "PREPARED") ≡ false)

-- What a task knows at its stage.
abbrev pub Knows : String → String → String → Stage → Effect → Type 0
Knows account request fingerprint at_rest e = Unit
Knows account request fingerprint claimed e =
    (e.published ≡ 0)
    × ((row : EffectRow) × (row_of account request e.store ≡ some row)
        × (row.fingerprint ≡ strip fingerprint))
Knows account request fingerprint dispatching e =
    (e.published ≡ 0) × IsBarred account request e.store
Knows account request fingerprint unstarted e = e.published ≡ 0

pub record IsSafe (account request fingerprint : String) (e : Effect) : Type 0 where
  pub few : e.published ≤ 1
  pub barred : e.published ≡ 1 → IsBarred account request e.store
  pub known_there : Knows account request fingerprint e.stage e

pub final_not_prepared :
    (state : String) → is_one_of state final_states ≡ true → (state =t= "PREPARED") ≡ false
final_not_prepared state h = elim (Bool-cases (state =t= "PREPARED")) [
  | inr other ↦ other
  | inl same ↦ absurd (
      let bad = subst (λ t. is_one_of t final_states ≡ true) ((eq_iff state "PREPARED").0 same) h in
      cc)
]

module _ {Document : Type 0} (dumps : Document → Option String)
    (account request fingerprint : String) where
  pub transition-IsBarred :
      (now : ℕ) (state : String) (result : Option Document) (allowed : List String) (s : Store)
      → (upper (strip state) =t= "PREPARED") ≡ false
      → IsBarred account request s
      → IsBarred account request
          (transition_effect_request dumps now account request fingerprint state result allowed s).1
  unfolding set_state
  transition-IsBarred now state result allowed s unprepared (row, found, other) =
      elim (transition-row dumps account request fingerprint now state result allowed s row found) [
        | inl same ↦ (row, same, other)
        | inr (encoded, moved_so) ↦ (
          moved_row (strip account) (strip request) (strip fingerprint) (allowed_states allowed) now
              (upper (strip state)) encoded row,
          moved_so,
          if-both (λ (r : EffectRow). (r.state =t= "PREPARED") ≡ false)
              (may_transition (strip account) (strip request) (strip fingerprint)
                (allowed_states allowed) row)
              _ _ unprepared other,
        )
      ]

  pub transition-fingerprint :
      (now : ℕ) (state : String) (result : Option Document) (allowed : List String) (s : Store)
      (row : EffectRow)
      → row_of account request s ≡ some row
      → (row' : EffectRow) × (row_of account request
            (transition_effect_request dumps now account request fingerprint state result allowed
              s).1
          ≡ some row')
        × (row'.fingerprint ≡ row.fingerprint)
  unfolding set_state
  transition-fingerprint now state result allowed s row found =
      elim (transition-row dumps account request fingerprint now state result allowed s row found) [
        | inl same ↦ (row, same, refl)
        | inr (encoded, moved_so) ↦ (
          moved_row (strip account) (strip request) (strip fingerprint) (allowed_states allowed) now
              (upper (strip state)) encoded row,
          moved_so,
          if-both (λ (r : EffectRow). r.fingerprint ≡ row.fingerprint)
              (may_transition (strip account) (strip request) (strip fingerprint)
                (allowed_states allowed) row)
              _ _ refl refl,
        )
      ]

  -- A row with the request's own fingerprint is not PREPARED once its dispatch has begun.
  pub begin-IsBarred :
      (now : ℕ) (s : Store) (row : EffectRow)
      → row_of account request s ≡ some row
      → row.fingerprint ≡ strip fingerprint
      → IsBarred account request (begin_dispatch dumps account request fingerprint now s).1
  unfolding begin_dispatch transition_effect_request set_state may_transition ◌>>=◌ strip upper
      allowed_states no_states encode_result
  begin-IsBarred now s row found own_print =
      let p = has_effect (strip account) (strip request) in
      let may =
        may_transition (strip account) (strip request) (strip fingerprint) ("PREPARED" ∷ []) in
      let row' = if may row then set_state now "DISPATCHING" none row else row in
      (
        row',
        find_row-update p may (set_state now "DISPATCHING" none) (λ e. refl) s.effects ∙ rw found,
        elim (Bool-cases (row.state =t= "PREPARED")) [
          | inl prepared ↦
              let it_is : p row ≡ true = find_row-true p s.effects row found in
              let fires : may row ≡ true =
                rw (it_is, own_print, eq_refl (strip fingerprint), prepared) in
              rw fires
          | inr other ↦
              if-both (λ (r : EffectRow). (r.state =t= "PREPARED") ≡ false) (may row)
                (set_state now "DISPATCHING" none row) row refl other
        ],
      )
