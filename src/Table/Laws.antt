-- ===== src/Table/Laws.antt =====
-- What the statements do to a search, to a count and to a property of all rows.
use qmt_python_tcp.Prelude.{
  ℕ, ◌+◌, ◌≤◌, any, ◌||◌, Option, ◌≡◌, refl, sym, ◌∙◌, inl, inr, Option-cases, Bool, true, false,
  none, some, List, [], ◌∷◌, arith, if◌then◌else◌, All, is_some,
}
use qmt_python_tcp.Table.{
  last_row, sum_where, find_row, count_where, update_where, delete_where, insert_row,
}

module _ {ℓ} {A : Type ℓ} (p : A → Bool) where
  pub find_row-insert :
      (x : A) (xs : List A)
      → find_row p (insert_row x xs)
        ≡ (if is_some (find_row p xs) then find_row p xs else if p x then some x else none)
  unfolding find_row insert_row
  find_row-insert x [] = ground arith
  find_row-insert x (y ∷ ys) = ground (arith, find_row-insert x ys)

  pub count_where-insert :
      (x : A) (xs : List A)
      → count_where p (insert_row x xs) ≡ count_where p xs + (if p x then 1 else 0)
  unfolding count_where insert_row
  count_where-insert x [] = ground arith
  count_where-insert x (y ∷ ys) = ground (arith, count_where-insert x ys)

  pub find_row-true : (xs : List A) (x : A) → find_row p xs ≡ some x → p x ≡ true
  unfolding find_row
  find_row-true [] x h = cc
  find_row-true (y ∷ ys) x h = ground (arith, find_row-true ys x)

  -- Nothing is found exactly where nothing is counted.
  pub count_where-zero : (xs : List A) → find_row p xs ≡ none → count_where p xs ≡ 0
  unfolding find_row count_where
  count_where-zero [] h = refl
  count_where-zero (y ∷ ys) h = ground (arith, count_where-zero ys)

  pub find_row-none : (xs : List A) → count_where p xs ≡ 0 → find_row p xs ≡ none
  unfolding find_row count_where
  find_row-none [] h = refl
  find_row-none (y ∷ ys) h = ground (arith, find_row-none ys)

module _ {ℓ} {A : Type ℓ} (p q : A → Bool) where
  pub count_where-delete : (xs : List A) → count_where p (delete_where q xs) ≤ count_where p xs
  unfolding count_where delete_where
  count_where-delete [] = omega arith
  count_where-delete (y ∷ ys) = ground (arith, count_where-delete ys)

  -- A deletion that spares every row that is sought.
  pub find_row-delete :
      ((x : A) → p x ≡ true → q x ≡ false)
      → (xs : List A) → find_row p (delete_where q xs) ≡ find_row p xs
  unfolding find_row delete_where
  find_row-delete h [] = refl
  find_row-delete h (y ∷ ys) = ground (arith, h y, find_row-delete h ys)

  module _ (f : A → A) (same : (x : A) → p (f x) ≡ p x) where
    pub find_row-update :
        (xs : List A)
        → find_row p (update_where q f xs)
          ≡ elim (find_row p xs) [ none ↦ none | some x ↦ some (if q x then f x else x) ]
    unfolding find_row update_where
    find_row-update [] = refl
    find_row-update (y ∷ ys) = ground (arith, same y, find_row-update ys)

    pub count_where-update : (xs : List A) → count_where p (update_where q f xs) ≡ count_where p xs
    unfolding count_where update_where
    count_where-update [] = refl
    count_where-update (y ∷ ys) = ground (arith, same y, count_where-update ys)

module _ {ℓ κ} {A : Type ℓ} (P : A → Type κ) (q : A → Bool) where
  pub All-delete : (xs : List A) → All P xs → All P (delete_where q xs)
  unfolding delete_where
  All-delete [] h = tt
  All-delete (y ∷ ys) h = ground (arith, All-delete ys h.1)

  pub All-update :
      (f : A → A)
      → ((x : A) → q x ≡ true → P x → P (f x))
      → (xs : List A) → All P xs
      → All P (update_where q f xs)
  unfolding update_where
  All-update f keep [] h = tt
  All-update f keep (y ∷ ys) h = ground (arith, keep y, All-update f keep ys h.1)

module _ {ℓ} {A : Type ℓ} (p : A → Bool) where
  pub count_where-any : (xs : List A) → any p xs ≡ false → count_where p xs ≡ 0
  unfolding count_where
  count_where-any [] h = refl
  count_where-any (y ∷ ys) h = ground (arith, count_where-any ys)

  pub find_row-any : (xs : List A) → any p xs ≡ false → find_row p xs ≡ none
  unfolding find_row
  find_row-any [] h = refl
  find_row-any (y ∷ ys) h = ground (arith, find_row-any ys)

  pub any-find_row : (xs : List A) → any p xs ≡ is_some (find_row p xs)
  unfolding find_row
  any-find_row [] = refl
  any-find_row (y ∷ ys) = ground (arith, any-find_row ys)

  pub any-insert : (x : A) (xs : List A) → any p (insert_row x xs) ≡ (any p xs || p x)
  unfolding insert_row
  any-insert x [] = ground arith
  any-insert x (y ∷ ys) = ground (arith, any-insert x ys)

  pub any-update :
      (q : A → Bool) (f : A → A)
      → ((x : A) → p (f x) ≡ p x)
      → (xs : List A) → any p (update_where q f xs) ≡ any p xs
  unfolding update_where
  any-update q f same [] = refl
  any-update q f same (y ∷ ys) = ground (arith, same y, any-update q f same ys)

  last_row-rest :
      (y : A) (ys : List A) (rest : Option A)
      → last_row p ys ≡ rest
      → last_row p (y ∷ ys) ≡ elim rest [ some z ↦ some z | none ↦ if p y then some y else none ]
  unfolding last_row
  last_row-rest y ys rest e = rw (last_row, e)

  -- The row of the greatest rowid that meets a test has what all rows have.
  pub last_row-All {κ} :
      (P : A → Type κ) (xs : List A) (x : A) → All P xs → last_row p xs ≡ some x → P x
  unfolding last_row
  last_row-All P [] x h e = cc
  last_row-All P (y ∷ ys) x h e = elim (Option-cases (last_row p ys)) [
    | inl empty ↦
        let own : (if p y then some y else none) ≡ some x =
          sym (last_row-rest y ys none empty) ∙ e in
        ground (arith, own)
    | inr (z, found) ↦
        let same : some z ≡ some x = sym (last_row-rest y ys (some z) found) ∙ e in
        last_row-All P ys x h.1 (found ∙ same)
  ]

module _ {ℓ} {A : Type ℓ} (p : A → Bool) (amount : A → ℕ) where
  pub sum_where-insert :
      (x : A) (xs : List A)
      → sum_where p amount (insert_row x xs) ≡ sum_where p amount xs + (if p x then amount x else 0)
  unfolding sum_where insert_row
  sum_where-insert x [] = ground arith
  sum_where-insert x (y ∷ ys) = ground (arith, sum_where-insert x ys)

  -- An UPDATE that raises no amount and brings no row in.
  pub sum_where-update :
      (q : A → Bool) (f : A → A)
      → ((x : A) → q x ≡ true → p (f x) ≡ true → (p x ≡ true) × (amount (f x) ≤ amount x))
      → (xs : List A) → sum_where p amount (update_where q f xs) ≤ sum_where p amount xs
  unfolding sum_where update_where
  sum_where-update q f shrinks [] = omega arith
  sum_where-update q f shrinks (y ∷ ys) = ground (arith, shrinks y, sum_where-update q f shrinks ys)
