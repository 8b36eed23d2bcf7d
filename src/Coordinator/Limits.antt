-- ===== src/Coordinator/Limits.antt =====
-- The limits that a new order meets (外置策略API/qmt_local_api/coordinator.py).
use qmt_python_tcp.Prelude.{
  ℕ, ◌+◌, ◌*◌, ◌≤◌, String, ◌≡◌, ◌⊎◌, inl, inr, false, some, Error, integrity_error, risk_rejected,
  ◌>>=◌, ok, err, arith, Bool-cases, Option-cases,
}
use qmt_python_tcp.Table.{find_row, insert_row}
use qmt_python_tcp.Coordinator.Rows.{Intent, Strategy, Command, Database, Settings}
use qmt_python_tcp.Coordinator.Identifiers.{next_sequence}
use qmt_python_tcp.Coordinator.Strategies.{has_strategy, strategy_row}
use qmt_python_tcp.Coordinator.Orders.{
  pending_notional, strategy_notional, exceeds, OrderRequest, fresh, insert_command, new_command,
  check_limits, persist_order, new_reservation,
}
use qmt_python_tcp.Coordinator.Orders.{clashes}

-- An amount within a limit, where zero is no limit.
abbrev pub Within : ℕ → ℕ → Type 0
Within limit value = (limit ≡ 0) ⊎ (value ≤ limit)

exceeds-false : (limit value : ℕ) → exceeds limit value ≡ false → Within limit value
unfolding exceeds
exceeds-false limit value h = ground arith

-- What holds where the four checks have passed.
pub record IsCovered (settings : Settings) (row : Strategy) (notional : ℕ) (s : Database)
    : Type 0 where
  pub own_order : Within row.max_order_notional notional
  pub account_order : Within settings.max_order_notional notional
  pub own_pending :
      Within row.max_pending_notional
        (strategy_notional settings.account_id row.strategy_id s + notional)
  pub account_pending :
      Within settings.max_pending_notional (pending_notional settings.account_id s + notional)

module _ (settings : Settings) (row : Strategy) (notional : ℕ) (s : Database) where
  check_limits-cases :
      ((e : Error) × (check_limits settings row notional s ≡ (err e, s)))
      ⊎ ((check_limits settings row notional s ≡ (ok tt, s)) × IsCovered settings row notional s)
  unfolding check_limits ◌>>=◌
  check_limits-cases = elim (Bool-cases (exceeds row.max_order_notional notional)) [
    | inl a ↦ inl (risk_rejected, rw a)
    | inr a ↦ elim (Bool-cases (exceeds settings.max_order_notional notional)) [
      | inl b ↦ inl (risk_rejected, rw (a, b))
      | inr b ↦
          elim (Bool-cases (
            exceeds row.max_pending_notional
              (strategy_notional settings.account_id row.strategy_id s + notional))) [
                | inl c ↦ inl (risk_rejected, rw (a, b, c))
                | inr c ↦
                    elim (Bool-cases (
                      exceeds settings.max_pending_notional
                        (pending_notional settings.account_id s + notional))) [
                          | inl d ↦ inl (risk_rejected, rw (a, b, c, d))
                          | inr d ↦ inr (
                            rw (a, b, c, d),
                            record {
                              own_order = exceeds-false _ _ a;
                              account_order = exceeds-false _ _ b;
                              own_pending = exceeds-false _ _ c;
                              account_pending = exceeds-false _ _ d;
                            },
                          )
                        ]
              ]
    ]
  ]

-- The database behind a new order.
abbrev pub with_order : ℕ → Command → Database → Database
with_order now command s = record s {
  commands = insert_row command s.commands;
  reservations = insert_row (new_reservation now command) s.reservations;
}

module _ (settings : Settings) (now : ℕ) (strategy : String) (request : OrderRequest)
    (intent : Intent) (quantity price : ℕ) (s : Database) where
  abbrev pub command_for : Command
  command_for =
      new_command settings now strategy request intent quantity price (next_sequence s.commands)

  pub record IsPersisted (row : Strategy) : Type 0 where
    pub result :
        persist_order settings now strategy request intent quantity price s
        ≡ (ok (fresh command_for), with_order now command_for s)
    pub owner : find_row (has_strategy strategy) s.strategies ≡ some row
    pub covered : IsCovered settings row (quantity * price) s
    pub free : clashes command_for s.commands ≡ false

  abbrev pub Refused : Type 0
  Refused =
      (e : Error) × (persist_order settings now strategy request intent quantity price s
        ≡ (err e, s))

  -- A new order is refused with nothing written, or its command and its reservation are stored and the
  -- limits cover it.
  pub persist_order-cases : Refused ⊎ ((row : Strategy) × IsPersisted row)
  unfolding persist_order strategy_row insert_command check_limits ◌>>=◌
  persist_order-cases = elim (Option-cases (find_row (has_strategy strategy) s.strategies)) [
    | inl missing ↦ inl (risk_rejected, rw missing)
    | inr (row, owner) ↦ elim (Bool-cases row.enabled) [
      | inr off ↦ inl (risk_rejected, rw (owner, off))
      | inl on ↦ elim (check_limits-cases settings row (quantity * price) s) [
        | inl (e, refused) ↦ inl (e, rw (owner, on, refused))
        | inr (passed, covered) ↦ elim (Bool-cases (clashes command_for s.commands)) [
          | inl clash ↦ inl (integrity_error, rw (owner, on, passed, clash))
          | inr free ↦ inr (
            row,
            record {
              result = rw (owner, on, passed, free);
              owner = owner;
              covered = covered;
              free = free;
            },
          )
        ]
      ]
    ]
  ]
