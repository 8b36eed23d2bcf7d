-- ===== src/Table.antt =====
-- SQL tables as lists of rows in rowid order: the statements that the stores use.
pub mod Laws
use qmt_python_tcp.Prelude.{ℕ, ◌+◌, Bool, Option, none, some, List, [], ◌∷◌, ◌++◌, if◌then◌else◌}

module _ {ℓ} {A : Type ℓ} where
  -- SELECT ... WHERE p LIMIT 1, in rowid order
  unfoldable pub find_row : (A → Bool) → List A → Option A
  find_row p [] = none
  find_row p (x ∷ xs) = if p x then some x else find_row p xs

  -- SELECT ... WHERE p
  unfoldable pub select_where : (A → Bool) → List A → List A
  select_where p [] = []
  select_where p (x ∷ xs) = let rest = select_where p xs in if p x then x ∷ rest else rest

  -- SELECT COUNT(*) WHERE p, and the `rowcount` of an UPDATE or DELETE WHERE p
  unfoldable pub count_where : (A → Bool) → List A → ℕ
  count_where p [] = 0
  count_where p (x ∷ xs) = (if p x then 1 else 0) + count_where p xs

  -- UPDATE ... SET f WHERE p
  unfoldable pub update_where : (A → Bool) → (A → A) → List A → List A
  update_where p f [] = []
  update_where p f (x ∷ xs) = (if p x then f x else x) ∷ update_where p f xs

  -- DELETE ... WHERE p
  unfoldable pub delete_where : (A → Bool) → List A → List A
  delete_where p [] = []
  delete_where p (x ∷ xs) = let rest = delete_where p xs in if p x then rest else x ∷ rest

  -- INSERT: a new row has the largest rowid
  unfoldable pub insert_row : A → List A → List A
  insert_row x xs = xs ++ x ∷ []

  -- ORDER BY: the first row of the smallest stays first
  unfoldable pub insert_sorted : (A → A → Bool) → A → List A → List A
  insert_sorted le x [] = x ∷ []
  insert_sorted le x (y ∷ ys) =
      let rest = insert_sorted le x ys in if le x y then x ∷ y ∷ ys else y ∷ rest

  unfoldable pub sort_by : (A → A → Bool) → List A → List A
  unfolding insert_sorted
  sort_by le [] = []
  sort_by le (x ∷ xs) = insert_sorted le x (sort_by le xs)

  -- SELECT ... ORDER BY rowid DESC LIMIT 1
  unfoldable pub last_row : (A → Bool) → List A → Option A
  last_row p [] = none
  last_row p (x ∷ xs) = elim (last_row p xs) [
    | some y ↦ some y
    | none ↦ if p x then some x else none
  ]

  -- SELECT COALESCE(SUM(amount),0) WHERE p
  unfoldable pub sum_where : (A → Bool) → (A → ℕ) → List A → ℕ
  sum_where p amount [] = 0
  sum_where p amount (x ∷ xs) = (if p x then amount x else 0) + sum_where p amount xs
