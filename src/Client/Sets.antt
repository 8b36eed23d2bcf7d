-- ===== src/Client/Sets.antt =====
-- Sets of texts, and `OrderedDict`s whose values are `None`, as the client
-- (外置策略API/qmt_local_api/client.py) keeps them: each as a list without repetition.
use mathlib.Core.Path.{subst}
use qmt_python_tcp.Prelude.{
  ℕ, zero, suc, ◌-◌, ◌≤◌, String, ◌≡◌, ◌⊎◌, inl, inr, refl, sym, ap, ◌∙◌, true, false, List, [],
  ◌∷◌, ◌++◌, ◌||◌, ◌=t=◌, if◌then◌else◌, is_one_of, arith, eq_iff, eq_comm, length, drop,
  length-drop, Bool-cases,
}

-- `ids.discard(id)`
unfoldable pub discard : String → List String → List String
discard id [] = []
discard id (x ∷ xs) = let rest = discard id xs in if x =t= id then rest else x ∷ rest

-- `ids.add(id)`
unfoldable pub add : String → List String → List String
unfolding discard
add id ids = id ∷ discard id ids

-- `ids[id] = None` and `ids.move_to_end(id)`
unfoldable pub touch : String → List String → List String
unfolding discard
touch id ids = discard id ids ++ id ∷ []

-- `popitem(last=False)` while there are more than `limit`
unfoldable pub trim : ℕ → List String → List String
trim limit ids = drop (length ids - limit) ids

pub is_one_of-discard_self :
    (id : String) (ids : List String) → is_one_of id (discard id ids) ≡ false
unfolding discard
is_one_of-discard_self id [] = refl
is_one_of-discard_self id (x ∷ xs) = elim (Bool-cases (x =t= id)) [
  | inl same ↦ rw same (is_one_of-discard_self id xs)
  | inr other ↦ rw (other, eq_comm id x, other) (is_one_of-discard_self id xs)
]

pub is_one_of-discard_other :
    (id y : String) (ids : List String)
    → (y =t= id) ≡ false
    → is_one_of y (discard id ids) ≡ is_one_of y ids
unfolding discard
is_one_of-discard_other id y [] e = refl
is_one_of-discard_other id y (x ∷ xs) e = elim (Bool-cases (x =t= id)) [
  | inl same ↦
      let x_is : x ≡ id = (eq_iff x id).0 same in
      rw same (is_one_of-discard_other id y xs e ∙ sym (rw (x_is, e)))
  | inr other ↦ rw other (ap (λ b. y =t= x || b) (is_one_of-discard_other id y xs e))
]

pub is_one_of-discard :
    (id y : String) (ids : List String)
    → is_one_of y (discard id ids) ≡ true
    → is_one_of y ids ≡ true
is_one_of-discard id y ids h = elim (Bool-cases (y =t= id)) [
  | inl same ↦ absurd (
      let gone =
        subst (λ z. is_one_of z (discard id ids) ≡ false) (sym ((eq_iff y id).0 same))
          (is_one_of-discard_self id ids) in
      cc)
  | inr other ↦ sym (is_one_of-discard_other id y ids other) ∙ h
]

pub is_one_of-append :
    (y : String) (xs ys : List String) → is_one_of y (xs ++ ys) ≡ is_one_of y xs || is_one_of y ys
is_one_of-append y [] ys = refl
is_one_of-append y (x ∷ xs) ys = ground (arith, is_one_of-append y xs ys)

pub is_one_of-touch :
    (id y : String) (ids : List String)
    → is_one_of y (touch id ids) ≡ true
    → ((y =t= id) ≡ true) ⊎ (is_one_of y ids ≡ true)
unfolding touch
is_one_of-touch id y ids h = elim (Bool-cases (y =t= id)) [
  | inl same ↦ inl same
  | inr other ↦ inr (
      is_one_of-discard id y ids
        (ground (arith, h, other, is_one_of-append y (discard id ids) (id ∷ []))))
]

pub is_one_of-drop :
    (n : ℕ) (y : String) (ids : List String)
    → is_one_of y (drop n ids) ≡ true
    → is_one_of y ids ≡ true
is_one_of-drop zero y ids h = h
is_one_of-drop (suc n) y [] h = h
is_one_of-drop (suc n) y (x ∷ xs) h = ground (arith, is_one_of-drop n y xs h)

pub is_one_of-trim :
    (limit : ℕ) (y : String) (ids : List String)
    → is_one_of y (trim limit ids) ≡ true
    → is_one_of y ids ≡ true
unfolding trim
is_one_of-trim limit y ids h = is_one_of-drop (length ids - limit) y ids h

pub length-trim : (limit : ℕ) (ids : List String) → length (trim limit ids) ≤ limit
unfolding trim
length-trim limit ids = omega (arith, length-drop (length ids - limit) ids)
