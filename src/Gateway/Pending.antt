-- ===== src/Gateway/Pending.antt =====
-- The bound on pending responses of one account (网关/bigqmt_gateway_proxy.py).
use qmt_python_tcp.Prelude.{
  ◌≤◌, String, ◌≡◌, ◌⊎◌, inl, inr, refl, Bool, true, Option, none, some, leb, is_some, arith,
  Bool-cases, Option-cases, lookup, length-remove, length-remove-some, length-put, length-put-some,
}
use qmt_python_tcp.Gateway.Runtime.{
  PendingItem, Runtime, max_pending_responses, max_delivery_tasks, occupied, reserve_slot,
  try_reserve_pending_response, commit_pending_response, forget_pending_response,
  release_pending_response_reservation,
}

is_some-some : {A : Type 0} (o : Option A) → is_some o ≡ true → (a : A) × (o ≡ some a)
is_some-some none e = absurd cc
is_some-some (some a) e = (a, refl)

module _ {Reply : Type 0} where
  -- The callers of the four methods: `dispatch` reserves, and releases what it still has reserved; a
  -- request is committed by the task that reserved it, or again by the one that delivers its
  -- response; and it is forgotten when it is done.
  pub data PendingStep : Runtime Reply → Runtime Reply → Type 0 where
    reserves :
        (r : Runtime Reply) (request fingerprint : String) (takeover : Bool)
        → PendingStep r (try_reserve_pending_response request fingerprint takeover r).1
    commits :
        (r : Runtime Reply) (request : String) (item : PendingItem)
        → (is_some (lookup request r.pending_response_reservations) ≡ true)
          ⊎ (is_some (lookup request r.pending_responses) ≡ true)
        → PendingStep r (commit_pending_response request item r)
    forgets :
        (r : Runtime Reply) (request : String) → PendingStep r (forget_pending_response request r)
    releases :
        (r : Runtime Reply) (request : String)
        → PendingStep r (release_pending_response_reservation request r)

  pub data PendingRun (first : Runtime Reply) : Runtime Reply → Type 0 where
    loaded : PendingRun first first
    then_step : {r r' : Runtime Reply} → PendingRun first r → PendingStep r r' → PendingRun first r'

  slot_bound :
      (request fingerprint : String) (r : Runtime Reply)
      → occupied r ≤ max_pending_responses
      → occupied (reserve_slot request fingerprint r).1 ≤ max_pending_responses
  unfolding reserve_slot
  slot_bound request fingerprint r h =
      elim (Bool-cases (leb max_delivery_tasks r.response_delivery_tasks)) [
        | inl busy_now ↦ rw busy_now h
        | inr quiet ↦ elim (Bool-cases (leb max_pending_responses (occupied r))) [
          | inl full ↦ rw (quiet, full) h
          | inr space ↦
              rw (quiet, space)
                (ground
                  (arith, space, length-put request fingerprint r.pending_response_reservations))
        ]
      ]

  reserve_bound :
      (request fingerprint : String) (takeover : Bool) (r : Runtime Reply)
      → occupied r ≤ max_pending_responses
      → occupied (try_reserve_pending_response request fingerprint takeover r).1
        ≤ max_pending_responses
  unfolding try_reserve_pending_response
  reserve_bound request fingerprint takeover r h =
      elim (Option-cases (lookup request r.pending_responses)) [
        | inr (item, there) ↦ rw (try_reserve_pending_response, there) h
        | inl free ↦ elim (Option-cases (lookup request r.pending_response_reservations)) [
          | inr (reserved, there) ↦ rw (try_reserve_pending_response, free, there) h
          | inl unreserved ↦
              rw (try_reserve_pending_response, free, unreserved)
                (slot_bound request fingerprint r h)
        ]
      ]

  commit_bound :
      (request : String) (item : PendingItem) (r : Runtime Reply)
      → (is_some (lookup request r.pending_response_reservations) ≡ true)
        ⊎ (is_some (lookup request r.pending_responses) ≡ true)
      → occupied r ≤ max_pending_responses
      → occupied (commit_pending_response request item r) ≤ max_pending_responses
  unfolding commit_pending_response
  commit_bound request item r (inl reserved) h =
      let (fingerprint, there) =
        is_some-some (lookup request r.pending_response_reservations) reserved in
      omega (
        arith,
        h,
        length-put request item r.pending_responses,
        length-remove-some request fingerprint r.pending_response_reservations there,
      )
  commit_bound request item r (inr pending) h =
      let (old, there) = is_some-some (lookup request r.pending_responses) pending in
      omega (
        arith,
        h,
        length-put-some request item old r.pending_responses there,
        length-remove request r.pending_response_reservations,
      )

  -- In every order of reservations, commits of requests that are reserved or pending, and ends of
  -- requests: no more than 256 responses are pending or reserved, if no more were loaded.
  pub pending_bounded :
      {first r : Runtime Reply}
      → occupied first ≤ max_pending_responses
      → PendingRun first r
      → occupied r ≤ max_pending_responses
  unfolding forget_pending_response release_pending_response_reservation
  pending_bounded h loaded = h
  pending_bounded h (then_step run (reserves r request fingerprint takeover)) =
      reserve_bound request fingerprint takeover r (pending_bounded h run)
  pending_bounded h (then_step run (commits r request item held)) =
      commit_bound request item r held (pending_bounded h run)
  pending_bounded h (then_step run (forgets r request)) = omega (
    arith,
    pending_bounded h run,
    length-remove request r.pending_responses,
    length-remove request r.pending_response_reservations,
  )
  pending_bounded h (then_step run (releases r request)) =
      omega (arith, pending_bounded h run, length-remove request r.pending_response_reservations)
