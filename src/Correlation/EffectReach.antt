-- ===== src/Correlation/EffectReach.antt =====
-- The methods of the store (网关/order_correlation.py) in terms of `EffectsStep`.
use qmt_python_tcp.Prelude.{
  ℕ, String, inl, inr, Option, none, some, List, [], ◌∷◌, ◌==◌, modify, Keeps, keeps_rules,
  Keeps-modify, Bool-cases,
}
use qmt_python_tcp.Table.{update_where}
use qmt_python_tcp.Correlation.Rows.{OrderRow, OrderItem, EventRow, PendingRow, EffectRow, Store}
use qmt_python_tcp.Correlation.Orders.{
  violates_unique, insert_order, reserve_found, reserve, release_reservation, update_stage,
}
use qmt_python_tcp.Correlation.Effects.{
  insert_effect, is_taken, bind_effect, reserve_effect_request, may_transition, set_state,
  transition_effect_request,
}
use qmt_python_tcp.Correlation.Pending.{
  is_retryable, rearm, release_effect, release_unstarted_order, release_unstarted_cancel,
  upsert_pending, save_pending_response, adopt_legacy_pending_response, remove_pending_response,
}
use qmt_python_tcp.Correlation.Events.{mark_events}
use qmt_python_tcp.Correlation.Cleanup.{
  Given, clean_events, clean_orders, delete_orders, cleanup_completed, delete_events,
}
use qmt_python_tcp.Correlation.Steps.{EffectsReach, registered, transitioned, rearmed, start, more}
use qmt_python_tcp.Correlation.Runs.{
  Op, perform, run, reserve_call, release_call, release_order_call, release_cancel_call, stage_call,
  save_call, adopt_call, remove_call, effect_call, transition_call, mark_call, cleanup_call,
}

module _ (rows : List EffectRow) where
  abbrev Reached : Store → Type 0
  Reached s = EffectsReach rows s.effects

  register-Reached :
      (row : EffectRow)
      → Keeps Reached (modify (λ s. record s { effects = insert_effect row s.effects }))
  unfolding insert_effect is_taken
  register-Reached row = Keeps-modify _ λ s h. elim (Bool-cases (is_taken row s.effects)) [
    | inl old ↦ rw old h
    | inr new ↦ rw new (more h (registered row new))
  ]

  set_state-Reached :
      (now : ℕ) (account request fingerprint state : String) (allowed : List String)
      (encoded : Option String)
      → Keeps Reached (
          modify (λ s. record s {
            effects =
                update_where
                  (may_transition account request fingerprint allowed)
                  (set_state now state encoded)
                  s.effects;
          }))
  set_state-Reached now account request fingerprint state allowed encoded =
      Keeps-modify _
        (λ s h. more h (transitioned now account request fingerprint state allowed encoded))

  rearm-Reached :
      (now : ℕ) (account request fingerprint : String)
      → Keeps Reached (
          modify (λ s. record s {
            effects = update_where (is_retryable account request fingerprint) (rearm now) s.effects;
          }))
  rearm-Reached now account request fingerprint =
      Keeps-modify _ (λ s h. more h (rearmed now account request fingerprint))

  insert_order-Reached : (row : OrderRow) → Keeps Reached (insert_order row)
  unfolding insert_order
  insert_order-Reached row = record {
    at = λ s h. elim (Bool-cases (violates_unique row s.orders)) [
      | inl clash ↦ rw clash h
      | inr free ↦ rw free h
    ];
  }

  orders-Reached :
      (f : Store → List OrderRow) → Keeps Reached (modify (λ s. record s { orders = f s }))
  orders-Reached f = Keeps-modify _ (λ s h. h)

  stage-Reached :
      (now : ℕ) (account client stage order_id order_sysid : String)
      → Keeps Reached (update_stage now account client stage order_id order_sysid)
  unfolding update_stage
  stage-Reached now account client stage order_id order_sysid = search orders-Reached

  pending-Reached :
      (f : Store → List PendingRow) → Keeps Reached (modify (λ s. record s { pending = f s }))
  pending-Reached f = Keeps-modify _ (λ s h. h)

  events-Reached :
      (f : Store → List EventRow) → Keeps Reached (modify (λ s. record s { events = f s }))
  events-Reached f = Keeps-modify _ (λ s h. h)

  clean-Reached : (cutoff limit : ℕ) → Keeps Reached (clean_orders cutoff limit)
  unfolding clean_orders delete_orders
  clean-Reached cutoff limit = record {
    at = λ s h. elim (Bool-cases (limit == 0)) [ inl e ↦ rw e h | inr e ↦ rw e (h) ];
  }

  clean_events-Reached : (cutoff limit : ℕ) → Keeps Reached (clean_events cutoff limit)
  unfolding clean_events delete_events
  clean_events-Reached cutoff limit = record {
    at = λ s h. elim (Bool-cases (limit == 0)) [ inl e ↦ rw e h | inr e ↦ rw e h ];
  }

  ruleset reached_rules = (
    keeps_rules, insert_order-Reached, orders-Reached, register-Reached, set_state-Reached,
    rearm-Reached, pending-Reached, events-Reached, clean-Reached, clean_events-Reached,
  )

  effect-Reached : (now : ℕ) (a r k f : String) → Keeps Reached (reserve_effect_request now a r k f)
  unfolding reserve_effect_request bind_effect
  effect-Reached now a r k f = search reached_rules depth 12

  mark-Reached : (now : ℕ) (a : String) (ids : List String) → Keeps Reached (mark_events now a ids)
  unfolding mark_events
  mark-Reached now a ids = search reached_rules depth 12

  remove-Reached : (a r : String) → Keeps Reached (remove_pending_response a r)
  unfolding remove_pending_response
  remove-Reached a r = search reached_rules

  reserve_found-Reached :
      (now : ℕ) (item : OrderItem) (found : Option OrderRow)
      → Keeps Reached (reserve_found now item found)
  unfolding reserve_found
  reserve_found-Reached now item none = search (keeps_rules, insert_order-Reached)
  reserve_found-Reached now item (some row) = search (keeps_rules, orders-Reached) depth 9

  pub reserve-Reached : (now : ℕ) (item : OrderItem) → Keeps Reached (reserve now item)
  unfolding reserve
  reserve-Reached now item = search (keeps_rules, reserve_found-Reached)

  pub release_reservation-Reached :
      (account client intent : String) → Keeps Reached (release_reservation account client intent)
  unfolding release_reservation
  release_reservation-Reached account client intent = search (keeps_rules, orders-Reached)

  release_effect-Reached :
      (now : ℕ) (account request fingerprint : String)
      → Keeps Reached (release_effect now account request fingerprint)
  unfolding release_effect
  release_effect-Reached now account request fingerprint = search reached_rules depth 12

  release_order-Reached :
      (now : ℕ) (a c i r f : String) → Keeps Reached (release_unstarted_order now a c i r f)
  unfolding release_unstarted_order
  release_order-Reached now a c i r f = search (reached_rules, release_effect-Reached) depth 12

  release_cancel-Reached :
      (now : ℕ) (a r f : String) → Keeps Reached (release_unstarted_cancel now a r f)
  unfolding release_unstarted_cancel
  release_cancel-Reached now a r f = search (reached_rules, release_effect-Reached) depth 12

  cleanup-Reached :
      (now : ℕ) (before : Option ℕ) (e o : Given) → Keeps Reached (cleanup_completed now before e o)
  unfolding cleanup_completed
  cleanup-Reached now none e o = search reached_rules
  cleanup-Reached now (some cutoff) e o = search reached_rules depth 12

  upsert-Reached :
      (row : PendingRow) (old : Option PendingRow) → Keeps Reached (upsert_pending row old)
  unfolding upsert_pending
  upsert-Reached row none = search reached_rules
  upsert-Reached row (some old) = search reached_rules depth 9

  module _ {Document Body : Type 0} (dumps : Document → Option String)
      (dumps_item : String → String → Body → Option String) where
    save-Reached :
        (now : ℕ) (a r k f : String) (body : Body)
        → Keeps Reached (save_pending_response dumps_item now a r k f body)
    unfolding save_pending_response
    save-Reached now a r k f body = search (reached_rules, upsert-Reached) depth 12

    adopt-Reached :
        (now : ℕ) (a r pk ek f : String) (body : Body)
        → Keeps Reached (adopt_legacy_pending_response dumps_item now a r pk ek f body)
    unfolding adopt_legacy_pending_response
    adopt-Reached now a r pk ek f body = search reached_rules depth 16

    transition-Reached :
        (now : ℕ) (a r f state : String) (result : Option Document) (allowed : List String)
        → Keeps Reached (transition_effect_request dumps now a r f state result allowed)
    unfolding transition_effect_request
    transition-Reached now a r f state result allowed = search reached_rules depth 12

    perform-Reached :
        (now : ℕ) (op : Op Document Body) (s : Store)
        → Reached s
        → Reached (perform dumps dumps_item now op s)
    unfolding perform
    perform-Reached now (reserve_call item) s = (reserve-Reached now item).at s
    perform-Reached now (release_call a c i) s = (release_reservation-Reached a c i).at s
    perform-Reached now (release_order_call a c i r f) s =
        (release_order-Reached now a c i r f).at s
    perform-Reached now (release_cancel_call a r f) s = (release_cancel-Reached now a r f).at s
    perform-Reached now (stage_call a c stage id sysid) s =
        (stage-Reached now a c stage id sysid).at s
    perform-Reached now (save_call a r k f body) s = (save-Reached now a r k f body).at s
    perform-Reached now (adopt_call a r pk ek f body) s = (adopt-Reached now a r pk ek f body).at s
    perform-Reached now (remove_call a r) s = (remove-Reached a r).at s
    perform-Reached now (effect_call a r k f) s = (effect-Reached now a r k f).at s
    perform-Reached now (transition_call a r f state result allowed) s =
        (transition-Reached now a r f state result allowed).at s
    perform-Reached now (mark_call a ids) s = (mark-Reached now a ids).at s
    perform-Reached now (cleanup_call before e o) s = (cleanup-Reached now before e o).at s

    run-Reached :
        (ops : List (ℕ × Op Document Body)) (s : Store)
        → Reached s
        → Reached (run dumps dumps_item ops s)
    unfolding run
    run-Reached [] s h = h
    run-Reached ((now, op) ∷ ops) s h =
        run-Reached ops (perform dumps dumps_item now op s) (perform-Reached now op s h)

module _ {Document Body : Type 0} (dumps : Document → Option String)
    (dumps_item : String → String → Body → Option String) where
  pub run-EffectsReach :
      (ops : List (ℕ × Op Document Body)) (s : Store)
      → EffectsReach s.effects (run dumps dumps_item ops s).effects
  run-EffectsReach ops s = run-Reached s.effects dumps dumps_item ops s start
