-- ===== src/Prelude/Text.antt =====
-- Python's text operations, over the native `String`. Case is that of the ASCII letters.
use Prim.Native.Nat.{ℕ, suc, Ordering}
use Prim.Native.String.{◌++◌ as append_text, compare as compare_text}
use mathlib.Core.Option.{Option, none, some}
use Prim.Native.Char.{Char, code}
use Prim.Native.String.{String}
use mathlib.Core.Bool.{true, Bool, false, ◌&&◌, ◌||◌}
use mathlib.Core.List.{List, [], ◌∷◌}
use text.Mathlib.Text.{◌==◌ as text_eq}
use mathlib.Core.Path.{◌≡◌, sym, ◌∙◌}
use mathlib.Core.Logic.{inl, inr}
use text.Mathlib.TextEquality.{eq_iff}
use qmt_python_tcp.Prelude.Tests.{leb, ◌==◌, if◌then◌else◌, Bool-cases}

-- `a == b` on texts
infix 50 ◌=t=◌
abbrev pub ◌=t=◌ : String → String → Bool
a =t= b = text_eq a b

-- `not text`: the empty text is falsy
abbrev pub is_empty : String → Bool
is_empty s = s =t= ""

-- `value in {...}`
abbrev pub is_one_of : String → List String → Bool
is_one_of s [] = false
is_one_of s (x ∷ xs) = s =t= x || is_one_of s xs

-- the characters that `str.strip` removes
pub is_space : Char → Bool
is_space c =
    let n = code c in
    leb 9 n && leb n 13
    || leb 28 n && leb n 32
    || n == 133
    || n == 160
    || n == 5760
    || leb 8192 n && leb n 8202
    || n == 8232
    || n == 8233
    || n == 8239
    || n == 8287
    || n == 12288

lstrip : String → String
lstrip String.[] = ""
lstrip (String.◌∷◌ c s) = let rest = lstrip s in if is_space c then rest else String.◌∷◌ c s

-- a space is kept only if something is left behind it
rstrip : String → String
rstrip String.[] = ""
rstrip (String.◌∷◌ c s) =
    let rest = rstrip s in if is_space c && is_empty rest then "" else String.◌∷◌ c rest

unfoldable pub strip : String → String
unfolding lstrip rstrip is_space
strip s = rstrip (lstrip s)

-- the letter of `to` at the place that `c` has in `from`
translate : Char → String → String → Char
translate c String.[] to = c
translate c (String.◌∷◌ f from) String.[] = c
translate c (String.◌∷◌ f from) (String.◌∷◌ t to) =
    let rest = translate c from to in if code c == code f then t else rest

map_text : (Char → Char) → String → String
map_text f String.[] = ""
map_text f (String.◌∷◌ c s) = String.◌∷◌ (f c) (map_text f s)

unfoldable pub upper : String → String
unfolding map_text translate
upper = map_text (λ c. translate c "abcdefghijklmnopqrstuvwxyz" "ABCDEFGHIJKLMNOPQRSTUVWXYZ")

unfoldable pub lower : String → String
unfolding map_text translate
lower = map_text (λ c. translate c "ABCDEFGHIJKLMNOPQRSTUVWXYZ" "abcdefghijklmnopqrstuvwxyz")

-- `a or b` on texts
abbrev pub or_text : String → String → String
or_text a b = if is_empty a then b else a

-- the number of characters
abbrev pub count_chars : String → ℕ
count_chars String.[] = 0
count_chars (String.◌∷◌ c s) = suc (count_chars s)

-- `s.rpartition(sep)` for one character: what stands before and behind its last place
unfoldable pub rpartition : ℕ → String → Option (String × String)
rpartition sep String.[] = none
rpartition sep (String.◌∷◌ c s) = elim (rpartition sep s) [
  | some (before, after) ↦ some (String.◌∷◌ c before, after)
  | none ↦ if code c == sep then some ("", s) else none
]

-- does the test hold of every character?
abbrev pub all_chars : (Char → Bool) → String → Bool
all_chars p String.[] = true
all_chars p (String.◌∷◌ c s) = p c && all_chars p s

-- the texts one behind the other
abbrev pub join_texts : List String → String
join_texts [] = ""
join_texts (x ∷ xs) = append_text x (join_texts xs)

-- `a <= b`, byte by byte
abbrev pub leb_text : String → String → Bool
leb_text a b = elim (compare_text a b) [ Ordering.gt ↦ false | _ ↦ true ]

-- A test of two texts does not depend on their order.
pub eq_comm : (a b : String) → (a =t= b) ≡ (b =t= a)
eq_comm a b = elim (Bool-cases (a =t= b)) [
  | inl same ↦ rw same (sym ((eq_iff b a).1 (sym ((eq_iff a b).0 same))))
  | inr other ↦ elim (Bool-cases (b =t= a)) [
    | inl same ↦ let back = (eq_iff a b).1 (sym ((eq_iff b a).0 same)) in cc
    | inr other' ↦ other ∙ sym other'
  ]
]
