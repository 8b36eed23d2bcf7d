-- ===== src/Coordinator/Strategies.antt =====
-- Strategies, their credentials and limits (外置策略API/qmt_local_api/coordinator.py).
use qmt_python_tcp.Prelude.{
  ℕ, String, Bool, false, Option, none, some, not, ◌&&◌, ◌=t=◌, strip, if◌then◌else◌, ltb, Action,
  Result, value_error, risk_rejected, raise_if, gets, modify, transaction, lift, ◌>>=◌, ◌>>◌, ok,
  err, count_chars,
}
use qmt_python_tcp.Table.{find_row, update_where, insert_row}
use qmt_python_tcp.Coordinator.Rows.{Number, natural, Strategy, Database, Settings}
use qmt_python_tcp.Coordinator.Identifiers.{valid_strategy_id}

abbrev pub has_strategy : String → Strategy → Bool
has_strategy strategy row = row.strategy_id =t= strategy

-- `RiskLimits.validate` of one limit
unfoldable pub valid_limits : Number → Number → Result (ℕ × ℕ)
valid_limits (natural a) (natural b) = ok (a, b)
valid_limits _ _ = err value_error

unfoldable pub upsert_strategy : Strategy → Option Strategy → Action Database (Unit {0})
unfolding update_where insert_row
upsert_strategy row none = modify (λ s. record s { strategies = insert_row row s.strategies })
upsert_strategy row (some old) = modify (λ s. record s {
  strategies =
      update_where (has_strategy row.strategy_id)
        (λ (r : Strategy). record row { created_at = r.created_at }) s.strategies;
})

-- `register_strategy`
unfoldable pub register_strategy :
    Settings → ℕ → String → String → Bool → ℕ → Number → Number → Action Database (Unit {0})
unfolding upsert_strategy valid_limits valid_strategy_id find_row
register_strategy settings now strategy_id token enabled priority max_order max_pending = do
  let strategy = strip strategy_id
  raise_if (not (valid_strategy_id strategy)) value_error
  raise_if (ltb (count_chars token) 16) value_error
  limits ← lift (valid_limits max_order max_pending)
  transaction (do
    old ← gets (λ s. find_row (has_strategy strategy) s.strategies)
    upsert_strategy
        (record {
          strategy_id = strategy;
          auth_token_hash = settings.sha256 token;
          enabled = enabled;
          priority = priority;
          max_order_notional = limits.0;
          max_pending_notional = limits.1;
          created_at = now;
          updated_at = now;
        })
        old)

has_token : Settings → String → Option Strategy → Bool
has_token settings token none = false
has_token settings token (some row) = row.enabled && row.auth_token_hash =t= settings.sha256 token

-- `authenticate_strategy`
unfoldable pub authenticate_strategy : Settings → String → String → Action Database Bool
unfolding has_token find_row valid_strategy_id
authenticate_strategy settings strategy_id token = do
  raise_if (not (valid_strategy_id (strip strategy_id))) value_error
  gets (λ s. has_token settings token (find_row (has_strategy (strip strategy_id)) s.strategies))

pub enabled_row : Option Strategy → Result Strategy
enabled_row none = err risk_rejected
enabled_row (some row) = if row.enabled then ok row else err risk_rejected

-- `_strategy_row_locked`
unfoldable pub strategy_row : String → Action Database Strategy
unfolding enabled_row find_row
strategy_row strategy = do
  found ← gets (λ s. find_row (has_strategy strategy) s.strategies)
  lift (enabled_row found)
