-- ===== src/Correlation/Pending.antt =====
-- Pending responses of `OrderCorrelationStore` (网关/order_correlation.py), and the two releases that
-- undo an effect before it is enqueued.
use qmt_python_tcp.Prelude.{
  ℕ, String, Bool, true, false, Option, none, some, [], ◌∷◌, not, ◌&&◌, ◌||◌, ◌=t=◌, is_empty,
  strip, lower, if◌then◌else◌, ◌==◌, Action, Result, value_error, idempotency_conflict, pure, raise,
  raise_if, gets, modify, transaction, lift, ◌>>=◌, ◌>>◌, ok, err, any, is_one_of,
}
use qmt_python_tcp.Table.{find_row, count_where, update_where, delete_where, insert_row}
use qmt_python_tcp.Correlation.Rows.{PendingRow, EffectRow, Store, has_pending, has_effect}
use qmt_python_tcp.Correlation.Orders.{is_exact_reservation}
use qmt_python_tcp.Correlation.Effects.{new_effect, insert_effect, is_taken}

-- `WHERE account_id=? AND request_id=? AND fingerprint=?`
abbrev pub is_exact_pending : String → String → String → PendingRow → Bool
is_exact_pending account request fingerprint row =
    has_pending account request row && row.fingerprint =t= fingerprint

-- `UPDATE gateway_effect_request SET state='PREPARED', result_json='' ...`
-- `WHERE ... AND fingerprint=? AND state IN ('PREPARED','DISPATCHING')`
unfoldable pub is_retryable : String → String → String → EffectRow → Bool
is_retryable account request fingerprint row =
    has_effect account request row
    && row.fingerprint =t= fingerprint
    && is_one_of row.state ("PREPARED" ∷ "DISPATCHING" ∷ [])

unfoldable pub rearm : ℕ → EffectRow → EffectRow
rearm now row = record row { state = "PREPARED"; result_json = ""; updated_at = now }

-- The part that both releases share: drop the pending row of this effect, refuse one of another
-- effect, and arm the effect again.
unfoldable pub release_effect : ℕ → String → String → String → Action Store (Unit {0})
unfolding is_retryable rearm delete_where update_where count_where
release_effect now account request fingerprint = do
  deleted ← gets (λ s. count_where (is_exact_pending account request fingerprint) s.pending)
  modify (λ s. record s {
    pending = delete_where (is_exact_pending account request fingerprint) s.pending;
  })
  left ← gets (λ s. any (has_pending account request) s.pending)
  raise_if (deleted == 0 && left) idempotency_conflict
  armed ← gets (λ s. count_where (is_retryable account request fingerprint) s.effects)
  modify (λ s. record s {
    effects = update_where (is_retryable account request fingerprint) (rearm now) s.effects;
  })
  raise_if (not (armed == 1)) idempotency_conflict

unfoldable pub release_unstarted_order :
    ℕ → String → String → String → String → String → Action Store Bool
unfolding release_effect
release_unstarted_order now account client intent request fingerprint = do
  raise_if (is_empty account || is_empty client || is_empty intent) value_error
  raise_if
      (is_empty request && not (is_empty fingerprint)
        || not (is_empty request) && is_empty fingerprint)
      value_error
  transaction (do
    deleted ← gets (λ s. count_where (is_exact_reservation account client intent) s.orders)
    modify (λ s. record s {
      orders = delete_where (is_exact_reservation account client intent) s.orders;
    })
    raise_if (not (deleted == 1)) idempotency_conflict
    if is_empty request then pure tt else release_effect now account request fingerprint
    pure true)

unfoldable pub release_unstarted_cancel : ℕ → String → String → String → Action Store Bool
unfolding release_effect
release_unstarted_cancel now account request fingerprint = do
  raise_if (is_empty account || is_empty request || is_empty fingerprint) value_error
  transaction (do release_effect now account request fingerprint; pure true)

unfoldable pub new_pending : ℕ → String → String → String → String → String → PendingRow
new_pending now account request kind fingerprint text = record {
  account_id = account;
  request_id = request;
  kind = kind;
  fingerprint = fingerprint;
  item_json = text;
  created_at = now;
  updated_at = now;
}

-- `INSERT ... ON CONFLICT DO UPDATE SET item_json, updated_at WHERE kind and fingerprint agree`
unfoldable pub renew_pending : PendingRow → PendingRow → PendingRow
renew_pending new row = record row { item_json = new.item_json; updated_at = new.updated_at }

unfoldable pub upsert_pending : PendingRow → Option PendingRow → Action Store (Unit {0})
unfolding update_where insert_row renew_pending
upsert_pending row none = modify (λ s. record s { pending = insert_row row s.pending })
upsert_pending row (some old) =
    if old.kind =t= row.kind && old.fingerprint =t= row.fingerprint
    then modify (λ s. record s {
      pending =
          update_where (has_pending row.account_id row.request_id) (renew_pending row) s.pending;
    })
    else raise idempotency_conflict

-- `WHERE account_id=? AND request_id=? AND fingerprint=''`
abbrev is_legacy : String → String → PendingRow → Bool
is_legacy account request row = has_pending account request row && is_empty row.fingerprint

unfoldable pub adopt : ℕ → String → String → String → PendingRow → PendingRow
adopt now kind fingerprint text row = record row {
  kind = kind;
  fingerprint = fingerprint;
  item_json = text;
  updated_at = now;
}

-- the effect that a row with no fingerprint may already have had
unfoldable pub unknown_effect : ℕ → String → String → String → String → EffectRow
unfolding new_effect
unknown_effect now account_id request_id kind fingerprint =
    new_effect now (strip account_id) (strip request_id) (lower (strip kind)) (strip fingerprint)
      "UNKNOWN"

unfoldable pub agrees : String → String → Option EffectRow → Bool
agrees kind fingerprint none = false
agrees kind fingerprint (some row) = row.kind =t= kind && row.fingerprint =t= fingerprint

-- The item's body is kept as it is; `dumps kind fingerprint body` is the text that `json.dumps`
-- gives for the item with these two keys set, and `none` where it raises.
module _ {Body : Type 0} (dumps : String → String → Body → Option String) where
  unfoldable pub encode_item : String → String → Body → Result String
  encode_item kind fingerprint body = elim (dumps kind fingerprint body) [
    | none ↦ err value_error
    | some text ↦ ok text
  ]

  unfoldable pub save_pending_response :
      ℕ → String → String → String → String → Body → Action Store (Unit {0})
  unfolding encode_item new_pending upsert_pending find_row
  save_pending_response now account_id request_id kind fingerprint body = do
    raise_if (is_empty (strip account_id) || is_empty (strip request_id)) value_error
    raise_if (is_empty (lower (strip kind)) || is_empty (strip fingerprint)) idempotency_conflict
    text ← lift (encode_item (lower (strip kind)) (strip fingerprint) body)
    transaction (do
      found ← gets (λ s. find_row (has_pending (strip account_id) (strip request_id)) s.pending)
      upsert_pending
          (new_pending now (strip account_id) (strip request_id) (lower (strip kind))
            (strip fingerprint) text)
          found)

  unfoldable pub adopt_legacy_pending_response :
      ℕ → String → String → String → String → String → Body → Action Store (Unit {0})
  unfolding encode_item adopt agrees unknown_effect is_taken insert_effect find_row update_where
      count_where
  adopt_legacy_pending_response now account_id request_id pending_kind effect_kind fingerprint
        body =
      do
        raise_if
            (is_empty (strip account_id)
              || is_empty (strip request_id)
              || is_empty (lower (strip pending_kind))
              || is_empty (lower (strip effect_kind))
              || is_empty (strip fingerprint))
            value_error
        text ← lift (encode_item (lower (strip pending_kind)) (strip fingerprint) body)
        transaction (do
          adopted ←
              gets (λ s. count_where (is_legacy (strip account_id) (strip request_id)) s.pending)
          modify (λ s. record s {
            pending =
                update_where (is_legacy (strip account_id) (strip request_id))
                  (adopt now (lower (strip pending_kind)) (strip fingerprint) text) s.pending;
          })
          raise_if (not (adopted == 1)) idempotency_conflict
          taken ← gets (λ s.
              is_taken (unknown_effect now account_id request_id effect_kind fingerprint) s.effects)
          modify (λ s. record s {
            effects =
                insert_effect (unknown_effect now account_id request_id effect_kind fingerprint)
                  s.effects;
          })
          existing ←
              gets (λ s. find_row (has_effect (strip account_id) (strip request_id)) s.effects)
          raise_if (taken && not (agrees (lower (strip effect_kind)) (strip fingerprint) existing))
              idempotency_conflict)

unfoldable pub remove_pending_response : String → String → Action Store (Unit {0})
unfolding delete_where
remove_pending_response account request =
    modify (λ s. record s { pending = delete_where (has_pending account request) s.pending })
