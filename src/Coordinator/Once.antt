-- ===== src/Coordinator/Once.antt =====
-- Submitting an order once more (外置策略API/qmt_local_api/coordinator.py).
use mathlib.Core.Path.{subst}
use qmt_python_tcp.Coordinator.Runs.{Call, run}
use qmt_python_tcp.Coordinator.Kept.{run-P}
use qmt_python_tcp.Coordinator.Found.{Finds, statements-Finds}
use qmt_python_tcp.Prelude.{
  refl, List, if◌then◌else◌, err, ℕ, ◌≡◌, inl, inr, sym, ap, ◌∙◌, Bool, true, false, none, some,
  ◌=t=◌, strip, Result, settle, Result-cases, err-no-ok, value_error, coordinator_conflict,
  unavailable, ◌>>=◌, ok, eq_refl, Bool-cases, Option-cases,
}
use qmt_python_tcp.Table.Laws.{find_row-insert}
use qmt_python_tcp.Coordinator.Rows.{Number, Command, Database, Settings}
use qmt_python_tcp.Coordinator.Identifiers.{finite_positive}
use qmt_python_tcp.Coordinator.Orders.{
  OrderRequest, intent_of, Begun, known, fresh, begin_order, new_command, persist_order,
  order_problem,
}
use qmt_python_tcp.Coordinator.Orders.{finite_spread}
use qmt_python_tcp.Coordinator.Limits.{with_order, command_for, persist_order-cases}
use qmt_python_tcp.Coordinator.Resubmit.{found_order, IsAccepted, begin_order-known}

known-no-fresh :
    {C : Type 0} {old row : Command} {s s' : Database} {p : Result Begun × Database}
    → p ≡ (ok (known old), s)
    → p ≡ (ok (fresh row), s')
    → C
known-no-fresh a b = cc

fresh_same :
    {row row' : Command} {s s' : Database} {p : Result Begun × Database}
    → p ≡ (ok (fresh row), s)
    → p ≡ (ok (fresh row'), s')
    → (row ≡ row') × (s ≡ s')
fresh_same a b = (cc, cc)

module _ (settings : Settings) (request : OrderRequest) where
  -- What holds of a request that got as far as the transaction.
  begin_order-accepts :
      (now : ℕ) (ready : Bool) (s s' : Database) (b : Begun)
      → begin_order settings now ready request s ≡ (ok b, s')
      → (ready ≡ true)
        × (quantity : ℕ) × (price : ℕ) × (spread : Number) × IsAccepted request quantity price
            spread
  unfolding begin_order ◌>>=◌
  begin_order-accepts now ready s s' b h = elim (Bool-cases ready) [
    | inr off ↦ err-no-ok {e = unavailable} {s = s} (rw off) h
    | inl on ↦ elim (Bool-cases (order_problem request)) [
      | inl bad ↦ err-no-ok {e = value_error} {s = s} (rw (on, bad)) h
      | inr fine ↦ elim (Result-cases (finite_positive false request.quantity)) [
        | inr (e, bad) ↦ err-no-ok {e = e} {s = s} (rw (on, fine, bad)) h
        | inl (q, qok) ↦ elim (Result-cases (finite_positive true request.price)) [
          | inr (e, bad) ↦ err-no-ok {e = e} {s = s} (rw (on, fine, qok, bad)) h
          | inl (p, pok) ↦ elim (Result-cases (finite_spread request.spread)) [
            | inr (e, bad) ↦ err-no-ok {e = e} {s = s} (rw (on, fine, qok, pok, bad)) h
            | inl (x, xok) ↦ (
              on,
              q,
              p,
              x,
              record { texts = fine; quantities = qok; prices = pok; spreads = xok },
            )
          ]
        ]
      ]
    ]
  ]

  module _ (quantity price : ℕ) (spread : Number)
      (a : IsAccepted request quantity price spread) where
    -- A request under a new key goes on to the limits.
    begin_order-new :
        (now : ℕ) (s : Database)
        → found_order settings request s ≡ none
        → begin_order settings now true request s
          ≡ settle s (
              persist_order settings now
                (strip request.strategy_id)
                request
                (intent_of request quantity price spread)
                quantity
                price
                s)
    unfolding begin_order ◌>>=◌
    begin_order-new now s missing = rw (a.texts, a.quantities, a.prices, a.spreads, missing)

    -- The key finds the row of the order that was stored.
    found_order-with_order :
        (now : ℕ) (s : Database)
        → found_order settings request s ≡ none
        → found_order settings request (
            with_order now
              (command_for settings now
                (strip request.strategy_id)
                request
                (intent_of request quantity price spread)
                quantity
                price
                s)
              s)
          ≡ some (
              command_for settings now
                (strip request.strategy_id)
                request
                (intent_of request quantity price spread)
                quantity
                price
                s)
    unfolding new_command
    found_order-with_order now s missing = rw find_row-insert (
        rw missing (
          rw (
            eq_refl settings.account_id,
            eq_refl (strip request.strategy_id),
            eq_refl (strip request.strategy_order_id),
          )))

    -- A new order is found by its key, with the hash of its intent.
    accepted_stored :
        (now : ℕ) (s s' : Database) (row : Command)
        → begin_order settings now true request s ≡ (ok (fresh row), s')
        → (found_order settings request s' ≡ some row)
          × (row.intent_hash ≡ settings.intent_hash (intent_of request quantity price spread))
    unfolding new_command
    accepted_stored now s s' row h = elim (Option-cases (found_order settings request s)) [
      | inr (old, found) ↦
          elim (Bool-cases
            (old.intent_hash =t= settings.intent_hash (intent_of request quantity price spread))) [
              | inl same ↦
                  known-no-fresh {old = old} {s = s}
                    (begin_order-known settings request quantity price spread now s old a found
                      ∙ rw same)
                    h
              | inr other ↦
                  err-no-ok {e = coordinator_conflict} {s = s}
                    (begin_order-known settings request quantity price spread now s old a found
                      ∙ rw other)
                    h
            ]
      | inl missing ↦
          elim (persist_order-cases settings now (strip request.strategy_id) request
            (intent_of request quantity price spread) quantity price s) [
              | inl (e, refused) ↦
                  err-no-ok {e = e} {s = s} (begin_order-new now s missing ∙ rw refused) h
              | inr (strategy, done) ↦
                  let stored : Command =
                    command_for settings now (strip request.strategy_id) request
                      (intent_of request quantity price spread) quantity price s in
                  let (er, es) =
                    fresh_same {row = stored} {row' = row} {s = with_order now stored s} {s' = s'}
                      (begin_order-new now s missing ∙ rw (done.result)) h in
                  (
                    subst (λ r. found_order settings request r ≡ some row) es
                        (found_order-with_order now s missing ∙ ap some er),
                    ap (λ c. c.intent_hash) (sym er),
                  )
            ]
    ]

    -- A row that the key finds, with the hash of the request's intent, is returned as known.
    found_known :
        (later : ℕ) (s : Database) (row : Command)
        → found_order settings request s ≡ some row
        → row.intent_hash ≡ settings.intent_hash (intent_of request quantity price spread)
        → begin_order settings later true request s ≡ (ok (known row), s)
    found_known later s row found same =
        begin_order-known settings request quantity price spread later s row a found
        ∙ rw same (rw (eq_refl (settings.intent_hash (intent_of request quantity price spread))))

  -- a coordinator that is not ready
  begin_order-halted :
      (later : ℕ) (s : Database) → begin_order settings later false request s ≡ (err unavailable, s)
  unfolding begin_order ◌>>=◌
  begin_order-halted later s = refl

  -- Once a request has stored a new order: the same request again, after any sequence of calls with any
  -- events between them and any errors, returns, where the coordinator is ready, the stored command of
  -- the same id and intent hash as known, and is refused as unavailable where it is not; in both cases
  -- it writes nothing.
  pub begin_order-repeat :
      (now later : ℕ) (ready ready' : Bool) (calls : List (ℕ × Call)) (s s' : Database)
      (row : Command)
      → begin_order settings now ready request s ≡ (ok (fresh row), s')
      → (again : Command) × (begin_order settings later ready' request (run settings calls s')
          ≡ (if ready' then ok (known again) else err unavailable, run settings calls s'))
        × (again.command_id ≡ row.command_id)
        × (again.intent_hash ≡ row.intent_hash)
  begin_order-repeat now later ready ready' calls s s' row h =
      let (on, q, p, x, a) = begin_order-accepts now ready s s' (fresh row) h in
      let (stored, hash) = accepted_stored q p x a now s s' row (rw (← on) h) in
      let strategy = strip request.strategy_id in
      let key = strip request.strategy_order_id in
      let account = settings.account_id in
      let last =
        run-P settings (Finds settings account strategy key row)
          (statements-Finds settings account strategy key row) calls s'
          (record { row = row; found = stored; same_id = refl; same_intent = refl }) in
      (
        last.row,
        elim (Bool-cases ready') [
          | inl running ↦ rw running (
              found_known q p x a later (run settings calls s') last.row last.found
                (last.same_intent ∙ hash))
          | inr halted ↦ rw halted (begin_order-halted later (run settings calls s'))
        ],
        last.same_id,
        last.same_intent,
      )
