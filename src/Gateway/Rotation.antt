-- ===== src/Gateway/Rotation.antt =====
-- The rotating slice of pending requests, `next_response_fallback_ids`
-- (网关/bigqmt_gateway_proxy.py).
use mathlib.Core.Path.{subst}
use qmt_python_tcp.Prelude.{
  ℕ, zero, suc, ◌+◌, ◌-◌, ◌*◌, ◌%◌, ◌≤◌, ◌<◌, min, max, String, ◌≡◌, inl, inr, refl, sym, ap, ◌∙◌,
  Bool, true, List, [], ◌∷◌, ◌++◌, ◌||◌, ◌=t=◌, leb, is_one_of, arith, eq_refl, length, Bool-cases,
}
use qmt_python_tcp.Gateway.Runtime.{Runtime}
use native.Mathlib.Nat.{mod-lt, mod-eq_of_lt, mod-mod, mod-add-mod, add-mod_right}
use native.Mathlib.Nat.{suc-mul}

-- `ids[i]`; the code asks for no index out of range
abbrev pub nth : List String → ℕ → String
nth [] i = ""
nth (x ∷ xs) zero = x
nth (x ∷ xs) (suc i) = nth xs i

-- the ids at `(start + offset) % len`, for so many offsets
unfoldable pub picks : List String → ℕ → ℕ → List String
picks ids start zero = []
picks ids start (suc n) = nth ids (start % length ids) ∷ picks ids (start + 1) n

abbrev pub slice_size : List String → ℕ → ℕ
slice_size ids limit = min (length ids) (max 1 limit)

module _ {Reply : Type 0} where
  unfoldable pub next_response_fallback_ids :
      List String → ℕ → Runtime Reply → List String × Runtime Reply
  unfolding picks
  next_response_fallback_ids [] limit r = ([], record r { response_fallback_cursor = 0 })
  next_response_fallback_ids (x ∷ xs) limit r =
      let ids = x ∷ xs in
      let start = r.response_fallback_cursor % length ids in
      (
        picks ids start (slice_size ids limit),
        record r { response_fallback_cursor = (start + slice_size ids limit) % length ids },
      )

  -- The calls of so many ticks, with the same requests pending.
  unfoldable pub ticks : ℕ → List String → ℕ → Runtime Reply → List String
  unfolding next_response_fallback_ids
  ticks zero ids limit r = []
  ticks (suc n) ids limit r =
      let (selected, r') = next_response_fallback_ids ids limit r in
      selected ++ ticks n ids limit r'

picks-append :
    (ids : List String) (a k m : ℕ) → picks ids a k ++ picks ids (a + k) m ≡ picks ids a (k + m)
unfolding picks
picks-append ids a zero m =
    let e : a + 0 ≡ a = omega arith in let e' : 0 + m ≡ m = omega arith in rw (e, e')
picks-append ids a (suc k) m =
    let e : suc k + m ≡ suc (k + m) = omega arith in
    let e' : a + suc k ≡ a + 1 + k = omega arith in
    rw (e, e')
      (ap (λ (xs : List String). nth ids (a % length ids) ∷ xs) (picks-append ids (a + 1) k m))

picks-mod :
    (ids : List String) (a b m : ℕ)
    → a % length ids ≡ b % length ids
    → picks ids a m ≡ picks ids b m
unfolding picks
picks-mod ids a b zero e = refl
picks-mod ids a b (suc m) e = rw e (
    ap (λ (xs : List String). nth ids (b % length ids) ∷ xs)
      (picks-mod ids (a + 1) (b + 1) m
        (sym (mod-add-mod a (length ids) 1) ∙ rw e (mod-add-mod b (length ids) 1))))

or_right : (a b : Bool) → b ≡ true → (a || b) ≡ true
or_right a b h = ground arith

picks-covers :
    (ids : List String) (a o m : ℕ)
    → o < m
    → is_one_of (nth ids ((a + o) % length ids)) (picks ids a m) ≡ true
unfolding picks
picks-covers ids a o zero h = absurd (omega arith)
picks-covers ids a zero (suc m) h =
    (let e : a + 0 ≡ a = omega arith in rw (e, eq_refl (nth ids (a % length ids))))
picks-covers ids a (suc o) (suc m) h =
    let e : a + suc o ≡ a + 1 + o = omega arith in
    subst (λ k. is_one_of (nth ids (k % length ids)) (picks ids a (suc m)) ≡ true) (sym e)
      (or_right (nth ids ((a + 1 + o) % length ids) =t= nth ids (a % length ids)) _
        (picks-covers ids (a + 1) o m (omega arith)))

-- every index is at some offset below the length
offset_of : (n start i : ℕ) → i < n → (o : ℕ) × (o < n) × ((start + o) % n ≡ i)
offset_of n start i h =
    let small = mod-lt start {m = n} (omega arith) in
    elim (Bool-cases (leb (start % n) i)) [
      | inl below ↦ (
        i - start % n,
        ground arith,
        sym (mod-add-mod start n (i - start % n))
            ∙ ap (λ k. k % n) (ground (arith, below))
            ∙ mod-eq_of_lt h,
      )
      | inr above ↦ (
        i + n - start % n,
        ground (arith, above, small),
        sym (mod-add-mod start n (i + n - start % n))
            ∙ ap (λ k. k % n) (ground (arith, small))
            ∙ add-mod_right i n
            ∙ mod-eq_of_lt h,
      )
    ]

module _ {Reply : Type 0} where
  -- The ticks go round the requests without a gap.
  ticks-picks :
      (n : ℕ) (x : String) (xs : List String) (limit : ℕ) (r : Runtime Reply)
      → ticks n (x ∷ xs) limit r
        ≡ picks (x ∷ xs) r.response_fallback_cursor (n * slice_size (x ∷ xs) limit)
  unfolding ticks
  ticks-picks zero x xs limit r =
      (let e : 0 * slice_size (x ∷ xs) limit ≡ 0 = omega arith in rw e (unfold picks in refl))
  ticks-picks (suc n) x xs limit r =
      let ids = x ∷ xs in
      let start = r.response_fallback_cursor % length ids in
      let count = slice_size ids limit in
      let cursor = r.response_fallback_cursor in
      ap (λ l. picks ids start count ++ l)
        (ticks-picks n x xs limit (next_response_fallback_ids ids limit r).1
          ∙ picks-mod ids ((start + count) % length ids) (cursor + count) (n * count)
              (mod-mod (start + count) (length ids) ∙ mod-add-mod cursor (length ids) count))
      ∙ ap (λ l. l ++ picks ids (cursor + count) (n * count))
          (picks-mod ids start cursor count (mod-mod cursor (length ids)))
      ∙ picks-append ids cursor count (n * count)
      ∙ ap (picks ids cursor) (omega (arith, suc-mul n count))

  -- Where the same requests stay pending: so many ticks that their slices are as long as the list
  -- together select every request, wherever the cursor stood.
  pub every_id_is_selected :
      (n : ℕ) (ids : List String) (limit : ℕ) (r : Runtime Reply) (i : ℕ)
      → i < length ids
      → length ids ≤ n * slice_size ids limit
      → is_one_of (nth ids i) (ticks n ids limit r) ≡ true
  every_id_is_selected n [] limit r i h enough = absurd (omega arith)
  every_id_is_selected n (x ∷ xs) limit r i h enough =
      let (o, below, e) = offset_of (length (x ∷ xs)) r.response_fallback_cursor i h in
      rw (ticks-picks n x xs limit r) (
        subst
          (λ k.
            is_one_of (nth (x ∷ xs) k)
              (picks (x ∷ xs) r.response_fallback_cursor (n * slice_size (x ∷ xs) limit))
            ≡ true)
          e
          (picks-covers (x ∷ xs) r.response_fallback_cursor o (n * slice_size (x ∷ xs) limit)
            (omega arith)))
