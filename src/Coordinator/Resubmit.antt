-- ===== src/Coordinator/Resubmit.antt =====
-- Resubmission of an order (外置策略API/qmt_local_api/coordinator.py).
use qmt_python_tcp.Prelude.{
  ℕ, ◌≡◌, inl, inr, true, false, Option, some, ◌=t=◌, strip, if◌then◌else◌, coordinator_conflict,
  ◌>>=◌, ok, err, Bool-cases,
}
use qmt_python_tcp.Table.{find_row}
use qmt_python_tcp.Coordinator.Rows.{Number, Command, Database, Settings}
use qmt_python_tcp.Coordinator.Identifiers.{finite_positive}
use qmt_python_tcp.Coordinator.Orders.{
  has_key, OrderRequest, intent_of, known, begin_order, order_problem,
}
use qmt_python_tcp.Coordinator.Orders.{finite_spread}

-- The row that the key of a request finds.
abbrev pub found_order : Settings → OrderRequest → Database → Option Command
found_order settings request s =
    find_row
      (has_key settings.account_id (strip request.strategy_id) (strip request.strategy_order_id)
        "NEW")
      s.commands

-- The request's checks pass with these numbers.
pub record IsAccepted (request : OrderRequest) (quantity price : ℕ) (spread : Number) : Type 0 where
  pub texts : order_problem request ≡ false
  pub quantities : finite_positive false request.quantity ≡ ok quantity
  pub prices : finite_positive true request.price ≡ ok price
  pub spreads : finite_spread request.spread ≡ ok spread

module _ (settings : Settings) (request : OrderRequest) (quantity price : ℕ) (spread : Number) where
  -- A request that passes its checks, on a coordinator that is ready, and whose key is taken: it
  -- returns the stored command if the intents hash alike, and is refused as a conflict if not; in both
  -- cases nothing is written.
  pub begin_order-known :
      (now : ℕ) (s : Database) (row : Command)
      → IsAccepted request quantity price spread
      → found_order settings request s ≡ some row
      → begin_order settings now true request s ≡ (
        if row.intent_hash =t= settings.intent_hash (intent_of request quantity price spread)
            then ok (known row)
            else err coordinator_conflict,
        s,
      )
  unfolding begin_order ◌>>=◌
  begin_order-known now s row a found =
      rw (a.texts, a.quantities, a.prices, a.spreads, found)
        (elim (Bool-cases
          (row.intent_hash =t= settings.intent_hash (intent_of request quantity price spread))) [
            | inl same ↦ rw same
            | inr other ↦ rw other
          ])
