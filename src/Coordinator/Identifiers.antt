-- ===== src/Coordinator/Identifiers.antt =====
-- Checks and identifiers of `AccountCoordinator` (外置策略API/qmt_local_api/coordinator.py).
use Prim.Native.Char.{Char, code}
use qmt_python_tcp.Prelude.{
  ℕ, zero, suc, ◌+◌, ◌-◌, ◌/◌, ◌%◌, max, String, Bool, false, List, [], ◌∷◌, not, ◌&&◌, ◌||◌,
  is_empty, or_text, strip, if◌then◌else◌, leb, ◌==◌, Result, value_error, ok, err, count_chars,
  join_texts, all_chars,
}
use qmt_python_tcp.Coordinator.Rows.{
  Number, natural, negative, not_finite, no_number, Command, Settings,
}

abbrev is_letter : Char → Bool
is_letter c = leb b'A' (code c) && leb (code c) b'Z' || leb b'a' (code c) && leb (code c) b'z'

-- [A-Za-z0-9_-]
abbrev is_word : Char → Bool
is_word c =
    is_letter c || leb b'0' (code c) && leb (code c) b'9' || code c == b'_' || code c == b'-'

-- `^[A-Za-z][A-Za-z0-9_-]{0,47}$` as a full match
unfoldable pub valid_strategy_id : String → Bool
valid_strategy_id String.[] = false
valid_strategy_id (String.◌∷◌ c s) = is_letter c && all_chars is_word s && leb (count_chars s) 47

-- `re.sub(r"[^A-Za-z0-9_-]+", "-", text)`; `inside` is true within a run that is replaced
unfoldable pub replace_runs : Bool → String → String
replace_runs inside String.[] = ""
replace_runs inside (String.◌∷◌ c s) =
    let rest = replace_runs (not (is_word c)) s in
    if is_word c then String.◌∷◌ c rest else if inside then rest else join_texts ("-" ∷ rest ∷ [])

abbrev is_mark : Char → Bool
is_mark c = code c == b'_' || code c == b'-'

-- `text.strip("-_")`
unfoldable pub lstrip_marks : String → String
lstrip_marks String.[] = ""
lstrip_marks (String.◌∷◌ c s) =
    let rest = lstrip_marks s in if is_mark c then rest else String.◌∷◌ c s

unfoldable pub rstrip_marks : String → String
rstrip_marks String.[] = ""
rstrip_marks (String.◌∷◌ c s) =
    let rest = rstrip_marks s in if is_mark c && is_empty rest then "" else String.◌∷◌ c rest

-- `text[:n]`
unfoldable pub first_chars : ℕ → String → String
first_chars zero s = ""
first_chars (suc n) String.[] = ""
first_chars (suc n) (String.◌∷◌ c s) = String.◌∷◌ c (first_chars n s)

unfoldable pub sanitize_segment : String → String → String
unfolding replace_runs lstrip_marks rstrip_marks first_chars
sanitize_segment value fallback =
    first_chars 24
      (or_text (rstrip_marks (lstrip_marks (replace_runs false (strip value)))) fallback)

unfoldable pub digit : ℕ → String
digit n =
    if n == 0
    then "0"
    else if n == 1
    then "1"
    else if n == 2
    then "2"
    else if n == 3
    then "3"
    else if n == 4
    then "4"
    else if n == 5
    then "5"
    else if n == 6
    then "6"
    else if n == 7
    then "7"
    else if n == 8
    then "8"
    else "9"

-- the digits of a number that has at most `fuel` of them before `rest`
unfoldable pub decimal : ℕ → ℕ → String → String
unfolding digit
decimal zero n rest = rest
decimal (suc fuel) n rest =
    let text = join_texts (digit (n % 10) ∷ rest ∷ []) in
    let more = decimal fuel (n / 10) text in if n / 10 == 0 then text else more

unfoldable pub zeros : ℕ → String
zeros zero = ""
zeros (suc n) = join_texts ("0" ∷ zeros n ∷ [])

-- `"%06d" % n`; a number has no more digits than `n + 1`
unfoldable pub six_digits : ℕ → String
unfolding decimal zeros
six_digits n =
    let text = decimal (n + 1) n "" in join_texts (zeros (6 - count_chars text) ∷ text ∷ [])

-- `COALESCE(MAX(command_id),0)+1`
unfoldable pub next_sequence : List Command → ℕ
next_sequence [] = 1
next_sequence (c ∷ cs) = max (c.command_id + 1) (next_sequence cs)

-- `_next_identifiers_locked`: the client order id, and the two that are made of it
unfoldable pub client_order_id_of : Settings → ℕ → String → ℕ → String → String
unfolding sanitize_segment six_digits
client_order_id_of settings now strategy sequence suffix = join_texts (
    sanitize_segment settings.account_name "account"
    ∷ "-"
    ∷ strategy
    ∷ "-"
    ∷ settings.day now
    ∷ "-"
    ∷ six_digits sequence
    ∷ suffix
    ∷ [])

abbrev pub request_id_of : String → String
request_id_of client = join_texts (client ∷ "-effect" ∷ [])

abbrev pub trace_id_of : String → String
trace_id_of client = join_texts ("coordinator-" ∷ client ∷ [])

-- `_finite_positive`
unfoldable pub finite_positive : Bool → Number → Result ℕ
finite_positive allow_zero (natural n) = if not allow_zero && n == 0 then err value_error else ok n
finite_positive allow_zero (negative n) = err value_error
finite_positive allow_zero not_finite = err value_error
finite_positive allow_zero no_number = err value_error
