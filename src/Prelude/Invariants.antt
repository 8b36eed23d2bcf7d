-- ===== src/Prelude/Invariants.antt =====
-- Invariants of methods, one rule for each way to build a method.
use mathlib.Core.Path.{◌≡◌, refl}
use mathlib.Core.Bool.{Bool, true, false, false≢true}
use qmt_python_tcp.Prelude.Tests.{if◌then◌else◌}
use qmt_python_tcp.Prelude.Methods.{
  Error, Result, ok, err, is_err, ◌>>◌, Action, pure, raise, lift, gets, transaction, settle,
  modify, raise_if, ◌>>=◌, go_on,
}

-- Whether the method returns or raises, `P` holds of the state that it leaves.
pub record Keeps {S A : Type 0} (P : S → Type 0) (m : Action S A) : Type 0 where
  pub at : (s : S) → P s → P (m s).1

settle_keeps :
    {S A : Type 0} (P : S → Type 0) (s : S) (p : Result A × S) → P s → P p.1 → P (settle s p).1
settle_keeps P s (ok a, s') h h' = h'
settle_keeps P s (err e, s') h h' = h

module _ {S A : Type 0} {P : S → Type 0} where
  -- what only reads
  pub Keeps-gets : (read : S → A) → Keeps P (gets read)
  unfolding ◌>>=◌
  Keeps-gets read = record { at = λ _ before. before }

  pub Keeps-pure : (result : A) → Keeps P (pure result)
  unfolding ◌>>=◌
  Keeps-pure result = record { at = λ _ before. before }

  pub Keeps-lift : (outcome : Result A) → Keeps P (lift outcome)
  unfolding ◌>>=◌
  Keeps-lift outcome = record { at = λ _ before. before }

  pub Keeps-raise : (error : Error) → Keeps P (raise {A = A} error)
  unfolding ◌>>=◌
  Keeps-raise error = record { at = λ _ before. before }

  -- A rollback restores the state in which `P` held.
  pub Keeps-transaction : (body : Action S A) → Keeps P body → Keeps P (transaction body)
  unfolding ◌>>=◌
  Keeps-transaction body kept = record {
    at = λ s before. settle_keeps P s (body s) before (kept.at s before);
  }

  -- Each branch is kept under the outcome of its test.
  pub Keeps-if :
      (test : Bool) (first second : Action S A)
      → (test ≡ true → Keeps P first)
      → (test ≡ false → Keeps P second)
      → Keeps P (if test then first else second)
  Keeps-if false _ _ _ kept = kept refl
  Keeps-if true _ _ kept _ = kept refl

module _ {S : Type 0} {P : S → Type 0} where
  pub Keeps-modify : (f : S → S) → ((s : S) → P s → P (f s)) → Keeps P (modify f)
  unfolding ◌>>=◌
  Keeps-modify f k = record { at = k }

  pub Keeps-raise_if : (c : Bool) (e : Error) → Keeps P (raise_if c e)
  unfolding ◌>>=◌
  Keeps-raise_if c e = record { at = λ s h. h }

module _ {S A B : Type 0} {P : S → Type 0} where
  go_on_keeps :
      (f : A → Action S B) (p : Result A × S) → ((a : A) → Keeps P (f a)) → P p.1 → P (go_on f p).1
  go_on_keeps f (ok a, s) k h = (k a).at s h
  go_on_keeps f (err e, s) k h = h

  pub Keeps-bind :
      (first : Action S A) (after : A → Action S B)
      → Keeps P first
      → ((a : A) → Keeps P (after a))
      → Keeps P (first >>= after)
  unfolding ◌>>=◌
  Keeps-bind first after kept rest = record {
    at = λ s before. go_on_keeps after (first s) rest (kept.at s before);
  }

pub ruleset keeps_rules = (
  Keeps-pure, Keeps-raise, Keeps-lift, Keeps-gets, Keeps-transaction, Keeps-if, Keeps-raise_if,
  Keeps-bind,
)

-- A method that raises leaves the state that it was called in.
pub record IsAtomic {S A : Type 0} (m : Action S A) : Type 0 where
  pub restores : (s : S) → is_err (m s).0 ≡ true → (m s).1 ≡ s

settle_restores :
    {S A : Type 0} (s : S) (p : Result A × S) → is_err (settle s p).0 ≡ true → (settle s p).1 ≡ s
settle_restores s (ok a, s') h = absurd (false≢true h)
settle_restores s (err e, s') h = refl

module _ {S A : Type 0} where
  pub IsAtomic-transaction : (m : Action S A) → IsAtomic (transaction m)
  unfolding ◌>>=◌
  IsAtomic-transaction m = record { restores = λ s h. settle_restores s (m s) h }

  pub IsAtomic-raise : (e : Error) → IsAtomic {S = S} {A = A} (raise e)
  unfolding ◌>>=◌
  IsAtomic-raise e = record { restores = λ s h. refl }

  pub IsAtomic-gets : (f : S → A) → IsAtomic (gets f)
  unfolding ◌>>=◌
  IsAtomic-gets f = record { restores = λ s h. refl }

  pub IsAtomic-pure : (a : A) → IsAtomic {S = S} (pure a)
  unfolding ◌>>=◌
  IsAtomic-pure a = record { restores = λ s h. refl }

  pub IsAtomic-raise_if :
      (c : Bool) (e : Error) (m : Action S A) → IsAtomic m → IsAtomic (raise_if c e >> m)
  unfolding ◌>>=◌
  IsAtomic-raise_if true e m k = record { restores = λ s h. refl }
  IsAtomic-raise_if false e m k = record { restores = λ s h. k.restores s h }

  -- a last step that cannot raise
  pub IsAtomic-modify : (f : S → S) (a : A) → IsAtomic (modify f >> pure a)
  unfolding ◌>>=◌
  IsAtomic-modify f a = record { restores = λ s h. absurd (false≢true h) }

pub IsAtomic-modify_only : {S : Type 0} (f : S → S) → IsAtomic (modify f)
unfolding ◌>>=◌
IsAtomic-modify_only f = record { restores = λ s h. absurd (false≢true h) }

module _ {S A B : Type 0} where
  pub IsAtomic-lift :
      (r : Result A) (f : A → Action S B) → ((a : A) → IsAtomic (f a)) → IsAtomic (lift r >>= f)
  unfolding ◌>>=◌
  IsAtomic-lift (ok a) f k = record { restores = λ s h. (k a).restores s h }
  IsAtomic-lift (err e) f k = record { restores = λ s h. refl }

  pub IsAtomic-gets_then :
      (g : S → A) (f : A → Action S B) → ((a : A) → IsAtomic (f a)) → IsAtomic (gets g >>= f)
  unfolding ◌>>=◌
  IsAtomic-gets_then g f k = record { restores = λ s h. (k (g s)).restores s h }

pub ruleset atomic_rules = (
  IsAtomic-transaction, IsAtomic-raise, IsAtomic-gets, IsAtomic-pure, IsAtomic-raise_if,
  IsAtomic-modify, IsAtomic-modify_only, IsAtomic-lift, IsAtomic-gets_then,
)
