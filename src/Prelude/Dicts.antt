-- ===== src/Prelude/Dicts.antt =====
-- Python dicts with text keys, as pairs in insertion order.
use Prim.Native.Nat.{◌+◌, ◌≤◌}
use Prim.Native.String.{String}
use mathlib.Core.Path.{◌≡◌, refl, sym, ◌∙◌, subst}
use mathlib.Core.Logic.{inl, inr}
use mathlib.Core.Bool.{Bool, true, false}
use mathlib.Core.Option.{Option, none, some}
use mathlib.Core.List.{List, [], ◌∷◌}
use native.Mathlib.Omega.{arith}
use text.Mathlib.TextEquality.{eq_iff}
use qmt_python_tcp.Prelude.Tests.{if◌then◌else◌, Bool-cases}
use qmt_python_tcp.Prelude.Lists.{length}
use qmt_python_tcp.Prelude.Text.{◌=t=◌}

module _ {ℓ} {V : Type ℓ} where
  -- `d.get(key)`
  unfoldable pub lookup : String → List (String × V) → Option V
  lookup key [] = none
  lookup key ((k, v) ∷ d) = if k =t= key then some v else lookup key d

  -- `d[key] = value`: a key that is there keeps its place
  unfoldable pub put : String → V → List (String × V) → List (String × V)
  put key value [] = (key, value) ∷ []
  put key value ((k, v) ∷ d) =
      let rest = put key value d in if k =t= key then (k, value) ∷ d else (k, v) ∷ rest

  -- `d.pop(key, None)`
  unfoldable pub remove : String → List (String × V) → List (String × V)
  remove key [] = []
  remove key ((k, v) ∷ d) = let rest = remove key d in if k =t= key then rest else (k, v) ∷ rest

  abbrev pub is_key : String → List (String × V) → Bool
  is_key key [] = false
  is_key key ((k, v) ∷ d) = if k =t= key then true else is_key key d

  pub lookup-put_self :
      (key : String) (v : V) (d : List (String × V)) → lookup key (put key v d) ≡ some v
  unfolding lookup put
  lookup-put_self key v [] = rw ((eq_iff key key).1 refl)
  lookup-put_self key v ((k, w) ∷ d) = elim (Bool-cases (k =t= key)) [
    | inl same ↦ rw same (rw same)
    | inr other ↦ rw other (rw other (lookup-put_self key v d))
  ]

  pub lookup-put_other :
      (key other : String) (v : V) (d : List (String × V))
      → (other =t= key) ≡ false
      → lookup key (put other v d) ≡ lookup key d
  unfolding lookup put
  lookup-put_other key other v [] ne = rw ne
  lookup-put_other key other v ((k, w) ∷ d) ne = elim (Bool-cases (k =t= other)) [
    | inl same ↦
        let hidden : (k =t= key) ≡ false =
          subst (λ x. (x =t= key) ≡ false) (sym ((eq_iff k other).0 same)) ne in
        rw same (rw hidden)
    | inr far ↦ rw far (elim (Bool-cases (k =t= key)) [
      | inl same ↦ rw same
      | inr miss ↦ rw miss (lookup-put_other key other v d ne)
    ])
  ]

  pub lookup-remove_self : (key : String) (d : List (String × V)) → lookup key (remove key d) ≡ none
  unfolding lookup remove
  lookup-remove_self key [] = refl
  lookup-remove_self key ((k, w) ∷ d) = elim (Bool-cases (k =t= key)) [
    | inl same ↦ rw same (lookup-remove_self key d)
    | inr other ↦ rw other (rw other (lookup-remove_self key d))
  ]

  pub lookup-remove_other :
      (key other : String) (d : List (String × V))
      → (other =t= key) ≡ false
      → lookup key (remove other d) ≡ lookup key d
  unfolding lookup remove
  lookup-remove_other key other [] ne = refl
  lookup-remove_other key other ((k, w) ∷ d) ne = elim (Bool-cases (k =t= other)) [
    | inl same ↦
        let hidden : (k =t= key) ≡ false =
          subst (λ x. (x =t= key) ≡ false) (sym ((eq_iff k other).0 same)) ne in
        rw same (rw hidden (lookup-remove_other key other d ne))
    | inr far ↦ rw far (elim (Bool-cases (k =t= key)) [
      | inl same ↦ rw same
      | inr miss ↦ rw miss (lookup-remove_other key other d ne)
    ])
  ]

  pub length-remove : (key : String) (d : List (String × V)) → length (remove key d) ≤ length d
  unfolding remove
  length-remove key [] = omega arith
  length-remove key ((k, v) ∷ d) = ground (arith, length-remove key d)

  pub length-remove-some :
      (key : String) (v : V) (d : List (String × V))
      → lookup key d ≡ some v
      → length (remove key d) + 1 ≤ length d
  unfolding remove lookup
  length-remove-some key v [] h = cc
  length-remove-some key v ((k, w) ∷ d) h = elim (Bool-cases (k =t= key)) [
    | inl same ↦ rw same (omega (arith, length-remove key d))
    | inr other ↦
        let there : lookup key d ≡ some v =
          (let go : lookup key ((k, w) ∷ d) ≡ lookup key d = rw other in sym go ∙ h) in
        rw other (omega (arith, length-remove-some key v d there))
  ]

  pub length-put :
      (key : String) (v : V) (d : List (String × V)) → length (put key v d) ≤ length d + 1
  unfolding put
  length-put key v [] = omega arith
  length-put key v ((k, w) ∷ d) = ground (arith, length-put key v d)

  -- a key that is there is no new entry
  pub length-put-some :
      (key : String) (v w : V) (d : List (String × V))
      → lookup key d ≡ some w
      → length (put key v d) ≡ length d
  unfolding put lookup
  length-put-some key v w [] h = cc
  length-put-some key v w ((k, u) ∷ d) h = elim (Bool-cases (k =t= key)) [
    | inl same ↦ rw same
    | inr other ↦
        let there : lookup key d ≡ some w =
          (let go : lookup key ((k, u) ∷ d) ≡ lookup key d = rw other in sym go ∙ h) in
        rw other (omega (arith, length-put-some key v w d there))
  ]
