-- ===== src/Correlation/Lookup.antt =====
-- How an event finds its order: `qmt_correlation_value`, `resolve`, `pending` and `recent` of
-- 网关/order_correlation.py.
use Prim.Native.Char.{Char, code}
use qmt_python_tcp.Prelude.{
  ℕ, min, max, String, Bool, false, Option, none, some, List, [], ◌∷◌, not, ◌&&◌, ◌||◌, ◌=t=◌,
  is_empty, strip, if◌then◌else◌, leb, ◌==◌, is_one_of, take, count_chars, rpartition, all_chars,
}
use qmt_python_tcp.Table.{select_where, sort_by}
use qmt_python_tcp.Correlation.Rows.{OrderRow, Store}

-- `character.lower() in "0123456789abcdef"`
unfoldable pub is_hex : Char → Bool
is_hex c =
    let n = code c in
    leb b'0' n && leb n b'9' || leb b'a' n && leb n b'f' || leb b'A' n && leb n b'F'

-- what an event dict shows; a missing value reads ""
pub record Event : Type 0 where
  pub order_id : String
  pub order_sysid : String
  pub qmt_user_order_id : String
  pub order_remark : String

-- `str.isalnum` of one character, over all of Unicode, is a parameter.
module _ (is_alnum : Char → Bool) where
  -- the test of a remark that is cut at its last underscore
  unfoldable pub is_generated_id : String → Option (String × String) → Bool
  unfolding is_hex
  is_generated_id remark none = false
  is_generated_id remark (some (before, after)) =
      leb (count_chars remark) 23
      && leb 1 (count_chars before)
      && leb (count_chars before) 6
      && all_chars is_alnum before
      && count_chars after == 16
      && all_chars is_hex after

  unfoldable pub qmt_correlation_value : Event → String
  unfolding is_generated_id rpartition strip
  qmt_correlation_value event =
      let remark = strip event.order_remark in
      if not (is_empty (strip event.qmt_user_order_id))
      then strip event.qmt_user_order_id
      else if is_generated_id remark (rpartition b'_' remark)
      then remark
      else ""

abbrev matches_id : Option String → String → Bool
matches_id none value = false
matches_id (some id) value = id =t= value

-- the three identifiers that may name an order, `WHERE account_id=? AND column=?`
pub data Column : Type 0 where
  by_order_id by_order_sysid by_qmt_user_order_id : Column

unfoldable pub matches_column : String → Column → String → OrderRow → Bool
matches_column account by_order_id value row =
    row.account_id =t= account && matches_id row.order_id value
matches_column account by_order_sysid value row =
    row.account_id =t= account && matches_id row.order_sysid value
matches_column account by_qmt_user_order_id value row =
    row.account_id =t= account && row.qmt_user_order_id =t= value

-- `ORDER BY created_at DESC LIMIT 1`; of equally new rows the first in rowid order
unfoldable pub newest : List OrderRow → Option OrderRow
newest [] = none
newest (row ∷ rows) = elim (newest rows) [
  | none ↦ some row
  | some best ↦ if leb best.created_at row.created_at then some row else some best
]

unfoldable pub is_usable : String → Bool
is_usable value = not (is_empty value) && not (value =t= "0")

unfoldable pub lookup_column : String → Column → String → Store → Option OrderRow
unfolding newest select_where matches_column is_usable
lookup_column account column value s =
    if is_usable value
    then newest (select_where (matches_column account column value) s.orders)
    else none

-- the loop over the candidates
unfoldable pub first_match : String → List (Column × String) → Store → Option OrderRow
unfolding lookup_column
first_match account [] s = none
first_match account ((column, value) ∷ rest) s =
    let later = first_match account rest s in
    elim (lookup_column account column value s) [ some row ↦ some row | none ↦ later ]

module _ (is_alnum : Char → Bool) where
  abbrev pub candidates : Event → List (Column × String)
  candidates event =
      (by_order_id, event.order_id)
      ∷ (by_order_sysid, event.order_sysid)
      ∷ (by_qmt_user_order_id, qmt_correlation_value is_alnum event)
      ∷ []

  unfoldable pub resolve : String → Event → Store → Option OrderRow
  unfolding first_match
  resolve account event s = first_match account (candidates event) s

-- orders that QMT has not confirmed
unfoldable pub is_unconfirmed : String → OrderRow → Bool
is_unconfirmed account row =
    row.account_id =t= account
    && is_one_of row.stage ("RESERVED" ∷ "BRIDGE_QUEUED" ∷ "SUBMIT_UNKNOWN" ∷ [])

unfoldable pub pending : String → Store → List OrderRow
unfolding select_where is_unconfirmed
pending account s = select_where (is_unconfirmed account) s.orders

-- `ORDER BY created_at DESC LIMIT ?`
unfoldable pub recent : String → ℕ → Store → List OrderRow
unfolding select_where sort_by
recent account limit s = take (max 1 (min limit 100000)) (
    sort_by (λ (a b : OrderRow). leb b.created_at a.created_at)
      (select_where (λ (r : OrderRow). r.account_id =t= account) s.orders))
