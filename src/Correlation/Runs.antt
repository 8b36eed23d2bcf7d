-- ===== src/Correlation/Runs.antt =====
-- Sequences of method calls on the store (网关/order_correlation.py).
use qmt_python_tcp.Prelude.{ℕ, String, ◌≡◌, refl, Bool, true, false, Option, List, [], ◌∷◌}
use qmt_python_tcp.Correlation.Rows.{OrderItem, Store}
use qmt_python_tcp.Correlation.Orders.{reserve, release_reservation, update_stage}
use qmt_python_tcp.Correlation.Effects.{reserve_effect_request, transition_effect_request}
use qmt_python_tcp.Correlation.Pending.{
  release_unstarted_order, release_unstarted_cancel, save_pending_response,
  adopt_legacy_pending_response, remove_pending_response,
}
use qmt_python_tcp.Correlation.Events.{mark_events}
use qmt_python_tcp.Correlation.Cleanup.{Given, cleanup_completed}

-- A call of a method that may write, with its arguments.
pub data Op (Document Body : Type 0) : Type 0 where
  reserve_call : OrderItem → Op Document Body
  release_call : String → String → String → Op Document Body
  release_order_call : String → String → String → String → String → Op Document Body
  release_cancel_call : String → String → String → Op Document Body
  stage_call : String → String → String → String → String → Op Document Body
  save_call : String → String → String → String → Body → Op Document Body
  adopt_call : String → String → String → String → String → Body → Op Document Body
  remove_call : String → String → Op Document Body
  effect_call : String → String → String → String → Op Document Body
  transition_call :
      String → String → String → String → Option Document → List String → Op Document Body
  mark_call : String → List String → Op Document Body
  cleanup_call : Option ℕ → Given → Given → Op Document Body

module _ {Document Body : Type 0} (dumps : Document → Option String)
    (dumps_item : String → String → Body → Option String) where
  -- what a call leaves, whether it returns or raises
  unfoldable pub perform : ℕ → Op Document Body → Store → Store
  perform now (reserve_call item) s = (reserve now item s).1
  perform now (release_call a c i) s = (release_reservation a c i s).1
  perform now (release_order_call a c i r f) s = (release_unstarted_order now a c i r f s).1
  perform now (release_cancel_call a r f) s = (release_unstarted_cancel now a r f s).1
  perform now (stage_call a c stage id sysid) s = (update_stage now a c stage id sysid s).1
  perform now (save_call a r k f body) s = (save_pending_response dumps_item now a r k f body s).1
  perform now (adopt_call a r pk ek f body) s =
      (adopt_legacy_pending_response dumps_item now a r pk ek f body s).1
  perform now (remove_call a r) s = (remove_pending_response a r s).1
  perform now (effect_call a r k f) s = (reserve_effect_request now a r k f s).1
  perform now (transition_call a r f state result allowed) s =
      (transition_effect_request dumps now a r f state result allowed s).1
  perform now (mark_call a ids) s = (mark_events now a ids s).1
  perform now (cleanup_call before e o) s = (cleanup_completed now before e o s).1

  -- calls in turn, each at its own time
  unfoldable pub run : List (ℕ × Op Document Body) → Store → Store
  unfolding perform
  run [] s = s
  run ((now, op) ∷ ops) s = run ops (perform now op s)

-- Can the call delete an order?
unfoldable pub can_delete : {Document Body : Type 0} → Op Document Body → Bool
can_delete (release_call _ _ _) = true
can_delete (release_order_call _ _ _ _ _) = true
can_delete (cleanup_call _ _ _) = true
can_delete _ = false

-- No call of the run deletes orders, unless `deletes` is true.
abbrev pub Allows : {Document Body : Type 0} → Bool → List (ℕ × Op Document Body) → Type 0
Allows deletes [] = Unit
Allows deletes ((_, op) ∷ ops) = (can_delete op ≡ true → deletes ≡ true) × Allows deletes ops

-- A run may make any call where deletions are allowed.
pub Allows-all : {Document Body : Type 0} (ops : List (ℕ × Op Document Body)) → Allows true ops
Allows-all [] = tt
Allows-all ((_, _) ∷ ops) = (λ _. refl, Allows-all ops)
