-- ===== src/Gateway/Grants.antt =====
-- What a call of `AccountRuntime` that grants or refuses something (网关/bigqmt_gateway_proxy.py) leaves.
use qmt_python_tcp.Prelude.{
  ◌+◌, ◌<◌, String, ◌≡◌, ◌⊎◌, inl, inr, Bool, true, false, none, some, ◌=t=◌, arith, Option-cases,
  lookup, put,
}
use qmt_python_tcp.Gateway.Runtime.{
  Runtime, max_effect_inflight, Code, same_or_conflict, try_acquire_effect,
  try_reserve_command_capacity, try_reserve_pending_response, reserve_slot, pending_verdict,
  try_reserve_effect_request,
}

module _ {Reply : Type 0} where
  pub admit-ok :
      (r : Runtime Reply)
      → (try_reserve_command_capacity r).0 ≡ true
      → (try_reserve_command_capacity r).1
        ≡ record r { command_capacity_reserved = r.command_capacity_reserved + 1 }
  unfolding try_reserve_command_capacity
  admit-ok r e = ground arith

  -- A pending response is reserved, or nothing changes.
  pub pending-cases :
      (request fingerprint : String) (takeover : Bool) (r : Runtime Reply)
      → (((try_reserve_pending_response request fingerprint takeover r).0.owned ≡ true)
          × ((try_reserve_pending_response request fingerprint takeover r).1 ≡ record r {
            pending_response_reservations = put request fingerprint r.pending_response_reservations;
          }))
        ⊎ (((try_reserve_pending_response request fingerprint takeover r).0.owned ≡ false)
            × ((try_reserve_pending_response request fingerprint takeover r).1 ≡ r))
  unfolding try_reserve_pending_response reserve_slot pending_verdict
  pending-cases request fingerprint takeover r = ground arith

  pub acquire-ok :
      (r : Runtime Reply)
      → (try_acquire_effect r).0 ≡ true
      → ((try_acquire_effect r).1 ≡ record r { effect_inflight = r.effect_inflight + 1 })
        × (r.effect_inflight < max_effect_inflight)
  unfolding try_acquire_effect
  acquire-ok r e = (ground arith, ground arith)

  pub acquire-busy :
      (r : Runtime Reply) → (try_acquire_effect r).0 ≡ false → (try_acquire_effect r).1 ≡ r
  unfolding try_acquire_effect
  acquire-busy r e = ground arith

  pub own-ok :
      (request fingerprint : String) (r : Runtime Reply)
      → (try_reserve_effect_request request fingerprint r).0 ≡ none
      → (lookup request r.effect_request_reservations ≡ none)
        × ((try_reserve_effect_request request fingerprint r).1 ≡ record r {
          effect_request_reservations = put request fingerprint r.effect_request_reservations;
        })
  unfolding try_reserve_effect_request
  own-ok request fingerprint r e =
      elim (Option-cases (lookup request r.effect_request_reservations)) [
        | inl missing ↦ (missing, rw (try_reserve_effect_request, missing))
        | inr (old, there) ↦
            (let bad : (try_reserve_effect_request request fingerprint r).0
                  ≡ some (same_or_conflict (old =t= fingerprint)) =
                rw (try_reserve_effect_request, there) in
              cc)
      ]

  pub own-refused :
      (request fingerprint : String) (r : Runtime Reply) (code : Code)
      → (try_reserve_effect_request request fingerprint r).0 ≡ some code
      → (try_reserve_effect_request request fingerprint r).1 ≡ r
  unfolding try_reserve_effect_request
  own-refused request fingerprint r code e =
      elim (Option-cases (lookup request r.effect_request_reservations)) [
        | inl missing ↦
            (let bad : (try_reserve_effect_request request fingerprint r).0 ≡ none =
                rw (try_reserve_effect_request, missing) in
              cc)
        | inr (old, there) ↦ rw (try_reserve_effect_request, there)
      ]
