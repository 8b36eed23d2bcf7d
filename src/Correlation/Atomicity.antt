-- ===== src/Correlation/Atomicity.antt =====
-- Exceptions of the methods of the store (网关/order_correlation.py).
use qmt_python_tcp.Prelude.{
  ℕ, String, ◌≡◌, Bool, true, Option, none, some, List, is_err, IsAtomic, atomic_rules,
}
use qmt_python_tcp.Correlation.Rows.{OrderItem, Store}
use qmt_python_tcp.Correlation.Orders.{reserve, release_reservation, update_stage}
use qmt_python_tcp.Correlation.Effects.{reserve_effect_request, transition_effect_request}
use qmt_python_tcp.Correlation.Pending.{
  release_unstarted_order, release_unstarted_cancel, save_pending_response,
  adopt_legacy_pending_response, remove_pending_response,
}
use qmt_python_tcp.Correlation.Events.{mark_events}
use qmt_python_tcp.Correlation.Cleanup.{Given, cleanup_completed}
use qmt_python_tcp.Correlation.Runs.{
  Op, perform, reserve_call, release_call, release_order_call, release_cancel_call, stage_call,
  save_call, adopt_call, remove_call, effect_call, transition_call, mark_call, cleanup_call,
}

module _ {Document Body : Type 0} (dumps : Document → Option String)
    (dumps_item : String → String → Body → Option String) where
  -- Does the call raise?
  unfoldable pub fails : ℕ → Op Document Body → Store → Bool
  fails now (reserve_call item) s = is_err (reserve now item s).0
  fails now (release_call a c i) s = is_err (release_reservation a c i s).0
  fails now (release_order_call a c i r f) s = is_err (release_unstarted_order now a c i r f s).0
  fails now (release_cancel_call a r f) s = is_err (release_unstarted_cancel now a r f s).0
  fails now (stage_call a c stage id sysid) s = is_err (update_stage now a c stage id sysid s).0
  fails now (save_call a r k f body) s =
      is_err (save_pending_response dumps_item now a r k f body s).0
  fails now (adopt_call a r pk ek f body) s =
      is_err (adopt_legacy_pending_response dumps_item now a r pk ek f body s).0
  fails now (remove_call a r) s = is_err (remove_pending_response a r s).0
  fails now (effect_call a r k f) s = is_err (reserve_effect_request now a r k f s).0
  fails now (transition_call a r f state result allowed) s =
      is_err (transition_effect_request dumps now a r f state result allowed s).0
  fails now (mark_call a ids) s = is_err (mark_events now a ids s).0
  fails now (cleanup_call before e o) s = is_err (cleanup_completed now before e o s).0

  reserve-IsAtomic : (now : ℕ) (item : OrderItem) → IsAtomic (reserve now item)
  unfolding reserve
  reserve-IsAtomic now item = search atomic_rules

  release-IsAtomic : (a c i : String) → IsAtomic (release_reservation a c i)
  unfolding release_reservation
  release-IsAtomic a c i = search atomic_rules depth 9

  release_order-IsAtomic :
      (now : ℕ) (a c i r f : String) → IsAtomic (release_unstarted_order now a c i r f)
  unfolding release_unstarted_order
  release_order-IsAtomic now a c i r f = search atomic_rules

  release_cancel-IsAtomic :
      (now : ℕ) (a r f : String) → IsAtomic (release_unstarted_cancel now a r f)
  unfolding release_unstarted_cancel
  release_cancel-IsAtomic now a r f = search atomic_rules

  save-IsAtomic :
      (now : ℕ) (a r k f : String) (body : Body)
      → IsAtomic (save_pending_response dumps_item now a r k f body)
  unfolding save_pending_response
  save-IsAtomic now a r k f body = search atomic_rules depth 9

  adopt-IsAtomic :
      (now : ℕ) (a r pk ek f : String) (body : Body)
      → IsAtomic (adopt_legacy_pending_response dumps_item now a r pk ek f body)
  unfolding adopt_legacy_pending_response
  adopt-IsAtomic now a r pk ek f body = search atomic_rules depth 9

  effect-IsAtomic : (now : ℕ) (a r k f : String) → IsAtomic (reserve_effect_request now a r k f)
  unfolding reserve_effect_request
  effect-IsAtomic now a r k f = search atomic_rules depth 9

  transition-IsAtomic :
      (now : ℕ) (a r f state : String) (result : Option Document) (allowed : List String)
      → IsAtomic (transition_effect_request dumps now a r f state result allowed)
  unfolding transition_effect_request
  transition-IsAtomic now a r f state result allowed = search atomic_rules depth 9

  stage-IsAtomic :
      (now : ℕ) (a c stage id sysid : String) → IsAtomic (update_stage now a c stage id sysid)
  unfolding update_stage
  stage-IsAtomic now a c stage id sysid = search atomic_rules

  mark-IsAtomic : (now : ℕ) (a : String) (ids : List String) → IsAtomic (mark_events now a ids)
  unfolding mark_events
  mark-IsAtomic now a ids = search atomic_rules

  remove-IsAtomic : (a r : String) → IsAtomic (remove_pending_response a r)
  unfolding remove_pending_response
  remove-IsAtomic a r = search atomic_rules

  cleanup-IsAtomic :
      (now : ℕ) (before : Option ℕ) (e o : Given) → IsAtomic (cleanup_completed now before e o)
  unfolding cleanup_completed
  cleanup-IsAtomic now none e o = search atomic_rules
  cleanup-IsAtomic now (some cutoff) e o = search atomic_rules depth 9

  -- A call of any writing method that raises leaves all four tables as they were.
  pub failed_call_writes_nothing :
      (now : ℕ) (op : Op Document Body) (s : Store)
      → fails now op s ≡ true
      → perform dumps dumps_item now op s ≡ s
  unfolding fails perform
  failed_call_writes_nothing now (reserve_call item) s = (reserve-IsAtomic now item).restores s
  failed_call_writes_nothing now (release_call a c i) s = (release-IsAtomic a c i).restores s
  failed_call_writes_nothing now (release_order_call a c i r f) s =
      (release_order-IsAtomic now a c i r f).restores s
  failed_call_writes_nothing now (release_cancel_call a r f) s =
      (release_cancel-IsAtomic now a r f).restores s
  failed_call_writes_nothing now (stage_call a c stage id sysid) s =
      (stage-IsAtomic now a c stage id sysid).restores s
  failed_call_writes_nothing now (save_call a r k f body) s =
      (save-IsAtomic now a r k f body).restores s
  failed_call_writes_nothing now (adopt_call a r pk ek f body) s =
      (adopt-IsAtomic now a r pk ek f body).restores s
  failed_call_writes_nothing now (remove_call a r) s = (remove-IsAtomic a r).restores s
  failed_call_writes_nothing now (effect_call a r k f) s = (effect-IsAtomic now a r k f).restores s
  failed_call_writes_nothing now (transition_call a r f state result allowed) s =
      (transition-IsAtomic now a r f state result allowed).restores s
  failed_call_writes_nothing now (mark_call a ids) s = (mark-IsAtomic now a ids).restores s
  failed_call_writes_nothing now (cleanup_call before e o) s =
      (cleanup-IsAtomic now before e o).restores s
