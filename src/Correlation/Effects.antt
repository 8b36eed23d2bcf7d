-- ===== src/Correlation/Effects.antt =====
-- The effect-request registry of `OrderCorrelationStore` (网关/order_correlation.py).
use qmt_python_tcp.Prelude.{
  ℕ, String, Bool, true, false, Option, none, some, List, [], ◌∷◌, not, ◌&&◌, ◌||◌, ◌=t=◌, is_empty,
  strip, upper, lower, if◌then◌else◌, ◌==◌, Action, Result, value_error, idempotency_conflict, pure,
  raise_if, gets, modify, transaction, lift, ◌>>=◌, ◌>>◌, ok, err, any, is_one_of,
}
use qmt_python_tcp.Table.{find_row, count_where, update_where, insert_row}
use qmt_python_tcp.Correlation.Rows.{EffectRow, Store, has_effect}

-- the row that `reserve_effect_request` inserts
unfoldable pub new_effect : ℕ → String → String → String → String → String → EffectRow
new_effect now account request kind fingerprint state = record {
  account_id = account;
  request_id = request;
  kind = kind;
  fingerprint = fingerprint;
  state = state;
  result_json = "";
  created_at = now;
  updated_at = now;
}

-- INSERT OR IGNORE
unfoldable pub insert_effect : EffectRow → List EffectRow → List EffectRow
unfolding insert_row
insert_effect row rows =
    if any (has_effect row.account_id row.request_id) rows then rows else insert_row row rows

-- the row under a request id that was taken: the same request again, or a conflict
unfoldable pub same_effect : EffectRow → Option EffectRow → Result (EffectRow × Bool)
same_effect row none = err idempotency_conflict
same_effect row (some old) =
    if old.kind =t= row.kind && old.fingerprint =t= row.fingerprint
    then ok (old, true)
    else err idempotency_conflict

unfoldable pub is_taken : EffectRow → List EffectRow → Bool
is_taken row rows = any (has_effect row.account_id row.request_id) rows

-- the transaction of `reserve_effect_request`
unfoldable pub bind_effect : EffectRow → Action Store (EffectRow × Bool)
unfolding insert_effect same_effect is_taken find_row
bind_effect row = do
  taken ← gets (λ s. is_taken row s.effects)
  modify (λ s. record s { effects = insert_effect row s.effects })
  old ← gets (λ s. find_row (has_effect row.account_id row.request_id) s.effects)
  if not taken then pure (row, false) else lift (same_effect row old)

unfoldable pub reserve_effect_request :
    ℕ → String → String → String → String → Action Store (EffectRow × Bool)
unfolding new_effect bind_effect
reserve_effect_request now account_id request_id kind fingerprint = do
  raise_if (is_empty (strip account_id) || is_empty (strip request_id)) value_error
  raise_if (is_empty (lower (strip kind)) || is_empty (strip fingerprint)) idempotency_conflict
  transaction (
      bind_effect (
        new_effect now (strip account_id) (strip request_id) (lower (strip kind))
          (strip fingerprint) "PREPARED"))

abbrev pub effect_states : List String
effect_states = "PREPARED" ∷ "DISPATCHING" ∷ "ENQUEUED" ∷ "UNKNOWN" ∷ "TERMINAL" ∷ []

-- `tuple(value.strip().upper() for value in allowed_from if value.strip())`
unfoldable pub allowed_states : List String → List String
allowed_states [] = []
allowed_states (v ∷ vs) =
    let rest = allowed_states vs in if is_empty (strip v) then rest else upper (strip v) ∷ rest

-- `WHERE account_id=? AND request_id=? AND fingerprint=? AND state IN (...)`
unfoldable pub may_transition : String → String → String → List String → EffectRow → Bool
may_transition account request fingerprint allowed row =
    has_effect account request row && row.fingerprint =t= fingerprint && is_one_of row.state allowed

-- `SET state=?, result_json=CASE WHEN ? IS NULL THEN result_json ELSE ? END, updated_at=?`
unfoldable pub set_state : ℕ → String → Option String → EffectRow → EffectRow
set_state now state encoded row = record row {
  state = state;
  result_json = elim encoded [ none ↦ row.result_json | some text ↦ text ];
  updated_at = now;
}

unfoldable pub no_states : List String → Bool
no_states [] = true
no_states (v ∷ vs) = false

-- `json.dumps` of the result is a parameter; `none` where it raises.
module _ {Document : Type 0} (dumps : Document → Option String) where
  unfoldable pub encode_result : Option Document → Result (Option String)
  encode_result none = ok none
  encode_result (some document) = elim (dumps document) [
    | none ↦ err value_error
    | some text ↦ ok (some text)
  ]

  unfoldable pub transition_effect_request :
      ℕ → String → String → String → String → Option Document → List String → Action Store Bool
  unfolding encode_result no_states may_transition set_state update_where count_where
  transition_effect_request now account_id request_id fingerprint state result allowed_from = do
    raise_if (not (is_one_of (upper (strip state)) effect_states)) value_error
    raise_if (no_states (allowed_states allowed_from)) value_error
    encoded ← lift (encode_result result)
    let where_clause =
        may_transition (strip account_id) (strip request_id) (strip fingerprint)
          (allowed_states allowed_from)
    changed ← gets (λ s. count_where where_clause s.effects)
    modify (λ s. record s {
      effects = update_where where_clause (set_state now (upper (strip state)) encoded) s.effects;
    })
    pure (changed == 1)

unfoldable pub get_effect_request : String → String → Store → Option EffectRow
unfolding find_row
get_effect_request account_id request_id s =
    find_row (has_effect (strip account_id) (strip request_id)) s.effects

-- `_decode_effect_request_row`: the stored result, where it is the text of an object
module _ {Document : Type 0} (loads : String → Option Document) where
  unfoldable pub decode_result : EffectRow → Option Document
  decode_result row = if is_empty row.result_json then none else loads row.result_json
