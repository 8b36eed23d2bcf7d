-- ===== src/Prelude/Methods.antt =====
-- Methods that change a state and may raise. What was written before a raise stays in the state
-- that comes back, unless the method runs in a transaction.
use mathlib.Core.Bool.{Bool, true, false}
use mathlib.Core.Logic.{◌⊎◌, inl, inr}
use mathlib.Core.Path.{◌≡◌, refl}
use native.Mathlib.Omega.{arith}
use qmt_python_tcp.Prelude.Tests.{if◌then◌else◌}

-- The exception classes that the modelled code raises.
pub data Error : Type 0 where
  value_error type_error runtime_error integrity_error : Error
  idempotency_conflict : Error
  coordinator_error coordinator_conflict risk_rejected unavailable : Error
  protocol_error struct_error recursion_error : Error

pub data Result (A : Type 0) : Type 0 where
  ok : A → Result A
  err : Error → Result A

pub ok-injective : {A : Type 0} {a b : A} → ok a ≡ ok b → a ≡ b
ok-injective h = ground arith

abbrev pub Action : Type 0 → Type 0 → Type 0
Action S A = S → Result A × S

module _ {S A : Type 0} where
  pub pure : A → Action S A
  pure a s = (ok a, s)

  pub raise : Error → Action S A
  raise e s = (err e, s)

  -- a call that reads and writes no state
  pub lift : Result A → Action S A
  lift r s = (r, s)

  pub gets : (S → A) → Action S A
  gets f s = (ok (f s), s)

  -- COMMIT, or ROLLBACK to the state before
  abbrev pub settle : S → Result A × S → Result A × S
  settle s (ok a, s') = (ok a, s')
  settle s (err e, s') = (err e, s)

  -- BEGIN IMMEDIATE; the body; COMMIT, or ROLLBACK and the same exception
  pub transaction : Action S A → Action S A
  transaction body s = settle s (body s)

pub modify : {S : Type 0} → (S → S) → Action S (Unit {0})
modify f s = (ok tt, f s)

pub raise_if : {S : Type 0} → Bool → Error → Action S (Unit {0})
raise_if c e s = (if c then err e else ok tt, s)

abbrev pub go_on : {S A B : Type 0} → (A → Action S B) → Result A × S → Result B × S
go_on f (ok a, s) = f a s
go_on f (err e, s) = (err e, s)

-- Opening this opens every action of this file.
infixl 5 ◌>>=◌ ◌>>◌
unfoldable pub ◌>>=◌ : {S A B : Type 0} → Action S A → (A → Action S B) → Action S B
unfolding pure raise lift gets transaction modify raise_if
◌>>=◌ m f s = go_on f (m s)

abbrev pub ◌>>◌ : {S B : Type 0} → Action S (Unit {0}) → Action S B → Action S B
m >> k = m >>= λ _. k

abbrev pub is_err : {A : Type 0} → Result A → Bool
is_err (ok a) = false
is_err (err e) = true

pub Result-cases :
    {A : Type 0} (r : Result A) → ((a : A) × (r ≡ ok a)) ⊎ ((e : Error) × (r ≡ err e))
Result-cases (ok a) = inl (a, refl)
Result-cases (err e) = inr (e, refl)

-- A method that raised has returned nothing.
pub err-no-ok :
    {S A C : Type 0} {e : Error} {a : A} {s s' : S} {p : Result A × S}
    → p ≡ (err e, s)
    → p ≡ (ok a, s')
    → C
err-no-ok raised returned = cc

-- A transaction that returned has returned what its body did.
pub settle-ok :
    {S A : Type 0} {a : A} {s' : S} (s : S) (p : Result A × S)
    → settle s p ≡ (ok a, s')
    → p ≡ (ok a, s')
settle-ok s (ok a, s') h = h
settle-ok s (err e, s') h = cc
