-- ===== src/Gateway/Barrier.antt =====
-- What the calls of the effect registry (网关/order_correlation.py) that the gateway makes do to the row
-- of one request.
use mathlib.Core.Path.{subst}
use qmt_python_tcp.Prelude.{
  ℕ, String, ◌≡◌, ◌⊎◌, inl, inr, refl, sym, ap, ◌∙◌, Bool, true, false, Option, none, some, List,
  not, ◌&&◌, ◌||◌, ◌=t=◌, is_empty, strip, upper, lower, if◌then◌else◌, Result, settle,
  Result-cases, value_error, idempotency_conflict, ok-injective, ◌>>=◌, ok, err, any, is_one_of,
  arith, eq_iff, eq_refl, Bool-cases, &&-true,
}
use qmt_python_tcp.Table.{find_row, insert_row}
use qmt_python_tcp.Table.Laws.{find_row-insert, find_row-update, find_row-any}
use qmt_python_tcp.Correlation.Rows.{EffectRow, Store, has_effect}
use qmt_python_tcp.Correlation.Effects.{
  new_effect, insert_effect, is_taken, same_effect, bind_effect, reserve_effect_request,
  effect_states, allowed_states, no_states, encode_result, may_transition, set_state,
  transition_effect_request,
}
use qmt_python_tcp.Gateway.Helper.{request}

-- The row of a request.
abbrev pub row_of : String → String → Store → Option EffectRow
row_of account request s = find_row (has_effect (strip account) (strip request)) s.effects

-- What a transition does to a row.
abbrev pub moved_row :
    String → String → String → List String → ℕ → String → Option String → EffectRow → EffectRow
moved_row account request fingerprint allowed now state encoded row =
    if may_transition account request fingerprint allowed row
    then set_state now state encoded row
    else row

module _ {Document : Type 0} (dumps : Document → Option String)
    (account request fingerprint : String) where
  pub transition-row :
      (now : ℕ) (state : String) (result : Option Document) (allowed : List String) (s : Store)
      (row : EffectRow)
      → row_of account request s ≡ some row
      → (row_of account request
            (transition_effect_request dumps now account request fingerprint state result allowed
              s).1
          ≡ some row)
        ⊎ ((encoded : Option String) × (row_of account request
                (transition_effect_request dumps now account request fingerprint state result
                  allowed s).1
              ≡ some (
                  moved_row
                    (strip account)
                    (strip request)
                    (strip fingerprint)
                    (allowed_states allowed)
                    now
                    (upper (strip state))
                    encoded
                    row)))
  unfolding transition_effect_request set_state ◌>>=◌
  transition-row now state result allowed s row found =
      elim (Bool-cases (not (is_one_of (upper (strip state)) effect_states))) [
        | inl bad ↦ inl (rw bad found)
        | inr known_state ↦ elim (Bool-cases (no_states (allowed_states allowed))) [
          | inl bad ↦ inl (rw (known_state, bad) found)
          | inr some_state ↦ elim (Result-cases (encode_result dumps result)) [
            | inr (e, raised_so) ↦ inl (rw (known_state, some_state, raised_so) found)
            | inl (encoded, done) ↦ inr (
              encoded,
              rw (known_state, some_state, done)
                  (find_row-update (has_effect (strip account) (strip request))
                      (may_transition (strip account) (strip request) (strip fingerprint)
                        (allowed_states allowed))
                      (set_state now (upper (strip state)) encoded) (λ e. refl) s.effects
                    ∙ rw found),
            )
          ]
        ]
      ]

-- What a call of the registry has returned is the row that is stored, and the one that was stored.
pub record IsBound (new : EffectRow) (s s' : Store) (row : EffectRow) (duplicate : Bool)
    : Type 0 where
  pub stored : find_row (has_effect new.account_id new.request_id) s'.effects ≡ some row
  pub same_fingerprint : row.fingerprint ≡ new.fingerprint
  pub was_stored :
      (e : EffectRow)
      → find_row (has_effect new.account_id new.request_id) s.effects ≡ some e
      → e ≡ row
  pub fresh : duplicate ≡ false → row.state ≡ new.state

first-same : {A B : Type 0} (x y : A × B) → ok x ≡ ok y → x.0 ≡ y.0
first-same x y e = ap (λ p. p.0) (ok-injective e)

second-same : {A B : Type 0} (x y : A × B) → ok x ≡ ok y → x.1 ≡ y.1
second-same x y e = ap (λ p. p.1) (ok-injective e)

pub some-same : {A : Type 0} {a b : A} → some a ≡ some b → a ≡ b
some-same e = ground arith

taken-IsBound :
    (new : EffectRow) (s : Store) (row : EffectRow) (duplicate : Bool) (old : Option EffectRow)
    → find_row (has_effect new.account_id new.request_id) s.effects ≡ old
    → same_effect new old ≡ ok (row, duplicate)
    → IsBound new s s row duplicate
unfolding same_effect
taken-IsBound new s row duplicate none found e = absurd cc
taken-IsBound new s row duplicate (some old) found e =
    elim (Bool-cases (old.kind =t= new.kind && old.fingerprint =t= new.fingerprint)) [
      | inr clash ↦
          absurd
            (let bad : err idempotency_conflict ≡ ok (row, duplicate) = sym (rw clash) ∙ e in cc)
      | inl same ↦
          let it_is : old ≡ row = first-same (old, true) (row, duplicate) (sym (rw same) ∙ e) in
          let (kinds, prints) =
            &&-true (old.kind =t= new.kind) (old.fingerprint =t= new.fingerprint) same in
          record {
            stored = found ∙ ap some it_is;
            same_fingerprint =
                ap (λ e. e.fingerprint) (sym it_is)
                ∙ (eq_iff old.fingerprint new.fingerprint).0 prints;
            was_stored = λ e' there. some-same (sym there ∙ found) ∙ it_is;
            fresh = λ no_duplicate. absurd (
                let known_before = second-same (old, true) (row, duplicate) (sym (rw same) ∙ e) in
                cc);
          }
    ]

bind-IsBound :
    (new : EffectRow) (s : Store) (row : EffectRow) (duplicate : Bool)
    → (bind_effect new s).0 ≡ ok (row, duplicate)
    → IsBound new s (bind_effect new s).1 row duplicate
unfolding bind_effect is_taken insert_effect ◌>>=◌
bind-IsBound new s row duplicate e =
    elim (Bool-cases (any (has_effect new.account_id new.request_id) s.effects)) [
      | inl taken ↦
          let old = find_row (has_effect new.account_id new.request_id) s.effects in
          let opened : (bind_effect new s).0 ≡ same_effect new old = rw taken in
          let nothing_written : (bind_effect new s).1 ≡ s = rw taken in
          subst (λ s'. IsBound new s s' row duplicate) (sym nothing_written)
            (taken-IsBound new s row duplicate old refl (sym opened ∙ e))
      | inr free ↦
          let opened : (bind_effect new s).0 ≡ ok (new, false) = rw free in
          let inserted : (bind_effect new s).1 ≡ record s { effects = insert_row new s.effects } =
            rw free in
          let it_is : new ≡ row = first-same (new, false) (row, duplicate) (sym opened ∙ e) in
          let nothing = find_row-any (has_effect new.account_id new.request_id) s.effects free in
          subst (λ s'. IsBound new s s' row duplicate) (sym inserted)
            (subst
              (λ r. IsBound new s (record s { effects = insert_row new s.effects }) r duplicate)
              it_is
              (record {
                stored =
                    find_row-insert (has_effect new.account_id new.request_id) new s.effects
                    ∙ rw (nothing, eq_refl new.account_id, eq_refl new.request_id);
                same_fingerprint = refl;
                was_stored = λ e' there. absurd (let bad = sym nothing ∙ there in cc);
                fresh = λ no_duplicate. refl;
              }))
    ]

committed :
    {S A : Type 0} (s : S) (p : Result A × S) (a : A)
    → (settle s p).0 ≡ ok a
    → (settle s p ≡ p) × (p.0 ≡ ok a)
committed s (ok b, s') a e = (refl, e)
committed s (err e', s') a e = absurd cc

pub reserve-IsBound :
    (now : ℕ) (account request kind fingerprint : String) (s : Store) (row : EffectRow)
    (duplicate : Bool)
    → (reserve_effect_request now account request kind fingerprint s).0 ≡ ok (row, duplicate)
    → IsBound
        (new_effect now
          (strip account)
          (strip request)
          (lower (strip kind))
          (strip fingerprint)
          "PREPARED")
        s
        (reserve_effect_request now account request kind fingerprint s).1
        row
        duplicate
unfolding reserve_effect_request ◌>>=◌
reserve-IsBound now account request kind fingerprint s row duplicate e =
    let new =
      new_effect now (strip account) (strip request) (lower (strip kind)) (strip fingerprint)
        "PREPARED" in
    let call = reserve_effect_request now account request kind fingerprint s in
    elim (Bool-cases (is_empty (strip account) || is_empty (strip request))) [
      | inl bad ↦ absurd (let refused : call.0 ≡ err value_error = rw bad in cc)
      | inr named ↦
          elim (Bool-cases (is_empty (lower (strip kind)) || is_empty (strip fingerprint))) [
            | inl bad ↦
                absurd (let refused : call.0 ≡ err idempotency_conflict = rw (named, bad) in cc)
            | inr printed ↦
                let whole : call ≡ settle s (bind_effect new s) = rw (named, printed) in
                let (same, inner) =
                  committed s (bind_effect new s) (row, duplicate)
                    (ap (λ p. p.0) (sym whole) ∙ e) in
                subst (λ p. IsBound new s p.1 row duplicate) (sym (whole ∙ same))
                  (bind-IsBound new s row duplicate inner)
          ]
    ]
