-- ===== src/Gateway/Leaks.antt =====
-- What the counters of `AccountRuntime` say of the tasks that hold them
-- (网关/bigqmt_gateway_proxy.py).
use qmt_python_tcp.Prelude.{
  ℕ, ◌≤◌, String, ◌≡◌, inl, inr, refl, sym, ap, ◌∙◌, Bool, none, List, [], arith, lookup,
}
use qmt_python_tcp.Gateway.Runtime.{
  Runtime, max_effect_inflight, release_effect, release_command_capacity, cache_helper_health,
  commit_pending_response, forget_pending_response, release_pending_response_reservation,
  try_reserve_pending_response, release_effect_request,
}
use qmt_python_tcp.Gateway.Tasks.{
  attached, admitted, slotless, running, owning, reserving, returning, refused, closing, turned,
  last, Task, System, Step, attach, turn_away, enter, acquire, busy, leave, own, refuse,
  reserve_response, not_reserved, enqueue, give_reservation, no_reservation, give_back, skip,
  end_turn, give_capacity, finish, sample, commit, forget, Reach, here, next,
}
use qmt_python_tcp.Gateway.Held.{
  capacity_held, slots_held, request_held, total, total-insert, entries, entries-le, shift, kept,
  unturned, unturned_kept, gone, owned, given_back,
}
use qmt_python_tcp.Gateway.Grants.{
  admit-ok, acquire-ok, acquire-busy, own-ok, own-refused, pending-cases,
}

module _ {Reply : Type 0} where
  -- Each counter is what the tasks hold, and each reserved request id has one owner.
  pub record Inv (s : System Reply) : Type 0 where
    pub capacity : s.runtime.command_capacity_reserved ≡ total capacity_held s.tasks
    pub slots : s.runtime.effect_inflight ≡ total slots_held s.tasks
    pub few : s.runtime.effect_inflight ≤ max_effect_inflight
    pub owners :
        (request : String)
        → total (request_held request) s.tasks
          ≡ entries (lookup request s.runtime.effect_request_reservations)

  -- the parts of the runtime that these counters are
  record SameCounters (r r' : Runtime Reply) : Type 0 where
    pub capacity : r'.command_capacity_reserved ≡ r.command_capacity_reserved
    pub inflight : r'.effect_inflight ≡ r.effect_inflight
    pub owners : r'.effect_request_reservations ≡ r.effect_request_reservations

  same-Inv :
      (r r' : Runtime Reply) {n : ℕ} {ts : List Task}
      → SameCounters r r'
      → Inv (record { runtime = r; open_turns = n; tasks = ts })
      → Inv (record { runtime = r'; open_turns = n; tasks = ts })
  same-Inv r r' e h = record {
    capacity = e.capacity ∙ h.capacity;
    slots = e.inflight ∙ h.slots;
    few = omega (arith, h.few, e.inflight);
    owners = λ k. h.owners k ∙ ap (λ d. entries (lookup k d)) (sym e.owners);
  }

  pending-same :
      (request fingerprint : String) (takeover : Bool) (r : Runtime Reply)
      → SameCounters r (try_reserve_pending_response request fingerprint takeover r).1
  pending-same request fingerprint takeover r =
      elim (pending-cases request fingerprint takeover r) [
        | inl (owned, e) ↦ rw e (record { capacity = refl; inflight = refl; owners = refl })
        | inr (unowned, e) ↦ rw e (record { capacity = refl; inflight = refl; owners = refl })
      ]

  Step-Inv : {s s' : System Reply} → Step s s' → Inv s → Inv s'
  unfolding release_command_capacity release_effect release_effect_request cache_helper_health
      commit_pending_response forget_pending_response release_pending_response_reservation
  Step-Inv (attach r n ts request fingerprint) h = record {
    capacity = omega (arith, h.capacity);
    slots = omega (arith, h.slots);
    few = h.few;
    owners = λ k. omega (arith, h.owners k);
  }
  Step-Inv (turn_away r n before after t) h = (record {
    capacity = omega (
      arith,
      h.capacity,
      total-insert capacity_held before (record t { phase = attached }) after,
    );
    slots =
        omega
          (arith, h.slots, total-insert slots_held before (record t { phase = attached }) after);
    few = h.few;
    owners = λ k. gone before after t attached k refl ∙ h.owners k;
  })
  Step-Inv (enter r n before after t granted) h = rw (admit-ok r granted) (record {
    capacity = omega (arith, h.capacity, shift before after t capacity_held attached admitted);
    slots = omega (arith, h.slots, shift before after t slots_held attached admitted);
    few = h.few;
    owners = λ k. kept before after t attached admitted k refl ∙ h.owners k;
  })
  Step-Inv (acquire r n before after t granted) h =
      let (e, below) = acquire-ok r granted in
      rw e (record {
        capacity = omega (arith, h.capacity, shift before after t capacity_held admitted running);
        slots = omega (arith, h.slots, shift before after t slots_held admitted running);
        few = omega (arith, below);
        owners = λ k. kept before after t admitted running k refl ∙ h.owners k;
      })
  Step-Inv (busy r n before after t full) h = rw (acquire-busy r full) (record {
    capacity = omega (arith, h.capacity, shift before after t capacity_held admitted slotless);
    slots = omega (arith, h.slots, shift before after t slots_held admitted slotless);
    few = h.few;
    owners = λ k. kept before after t admitted slotless k refl ∙ h.owners k;
  })
  Step-Inv (leave r n before after t) h = (record {
    capacity = omega (
      arith,
      h.capacity,
      total-insert capacity_held before (record t { phase = slotless }) after,
    );
    slots =
        omega
          (arith, h.slots, total-insert slots_held before (record t { phase = slotless }) after);
    few = h.few;
    owners = λ k. gone before after t slotless k refl ∙ h.owners k;
  })
  Step-Inv (own r n before after t free) h =
      let (missing, e) = own-ok t.request t.fingerprint r free in
      rw e (record {
        capacity = omega (arith, h.capacity, shift before after t capacity_held running owning);
        slots = omega (arith, h.slots, shift before after t slots_held running owning);
        few = h.few;
        owners = owned before after t r missing h.owners;
      })
  Step-Inv (refuse r n before after t code taken) h =
      rw (own-refused t.request t.fingerprint r code taken) (record {
        capacity = omega (arith, h.capacity, shift before after t capacity_held running refused);
        slots = omega (arith, h.slots, shift before after t slots_held running refused);
        few = h.few;
        owners = λ k. kept before after t running refused k refl ∙ h.owners k;
      })
  Step-Inv (reserve_response r n before after t takeover got) h =
      same-Inv _ _ (pending-same t.request t.fingerprint takeover r) (record {
        capacity = omega (arith, h.capacity, shift before after t capacity_held owning reserving);
        slots = omega (arith, h.slots, shift before after t slots_held owning reserving);
        few = h.few;
        owners = λ k. kept before after t owning reserving k refl ∙ h.owners k;
      })
  Step-Inv (not_reserved r n before after t takeover got) h =
      same-Inv _ _ (pending-same t.request t.fingerprint takeover r) (record {
        capacity = omega (arith, h.capacity, shift before after t capacity_held owning owning);
        slots = omega (arith, h.slots, shift before after t slots_held owning owning);
        few = h.few;
        owners = λ k. kept before after t owning owning k refl ∙ h.owners k;
      })
  Step-Inv (enqueue r n before after t p owner) h = (record {
    capacity = omega (arith, h.capacity, unturned before after t capacity_held p p);
    slots = omega (arith, h.slots, unturned before after t slots_held p p);
    few = h.few;
    owners = λ k. unturned_kept before after t p p k refl ∙ h.owners k;
  })
  Step-Inv (give_reservation r n before after t) h = (record {
    capacity = omega (arith, h.capacity, shift before after t capacity_held reserving returning);
    slots = omega (arith, h.slots, shift before after t slots_held reserving returning);
    few = h.few;
    owners = λ k. kept before after t reserving returning k refl ∙ h.owners k;
  })
  Step-Inv (no_reservation r n before after t) h = (record {
    capacity = omega (arith, h.capacity, shift before after t capacity_held owning returning);
    slots = omega (arith, h.slots, shift before after t slots_held owning returning);
    few = h.few;
    owners = λ k. kept before after t owning returning k refl ∙ h.owners k;
  })
  Step-Inv (give_back r n before after t) h = (record {
    capacity = omega (arith, h.capacity, shift before after t capacity_held returning closing);
    slots = omega (arith, h.slots, shift before after t slots_held returning closing);
    few = h.few;
    owners = given_back before after t r h.owners;
  })
  Step-Inv (skip r n before after t) h = (record {
    capacity = omega (arith, h.capacity, shift before after t capacity_held refused closing);
    slots = omega (arith, h.slots, shift before after t slots_held refused closing);
    few = h.few;
    owners = λ k. kept before after t refused closing k refl ∙ h.owners k;
  })
  Step-Inv (end_turn r n before after t) h = (record {
    capacity = omega (arith, h.capacity, unturned before after t capacity_held closing turned);
    slots = omega (arith, h.slots, unturned before after t slots_held closing turned);
    few = h.few;
    owners = λ k. unturned_kept before after t closing turned k refl ∙ h.owners k;
  })
  Step-Inv (give_capacity r n before after t attempted) h = (record {
    capacity = omega (arith, h.capacity, shift before after t capacity_held turned last);
    slots = omega (arith, h.slots, shift before after t slots_held turned last);
    few = h.few;
    owners = λ k. kept before after t turned last k refl ∙ h.owners k;
  })
  Step-Inv (finish r n before after t) h = (record {
    capacity =
        omega
          (arith, h.capacity, total-insert capacity_held before (record t { phase = last }) after);
    slots =
        omega (arith, h.slots, total-insert slots_held before (record t { phase = last }) after);
    few = omega (arith, h.few);
    owners = λ k. gone before after t last k refl ∙ h.owners k;
  })
  Step-Inv (sample r n ts depth sampled) h = (record {
    capacity = h.capacity;
    slots = h.slots;
    few = h.few;
    owners = h.owners;
  })
  Step-Inv (commit r n ts request item) h = (record {
    capacity = h.capacity;
    slots = h.slots;
    few = h.few;
    owners = h.owners;
  })
  Step-Inv (forget r n ts request) h = (record {
    capacity = h.capacity;
    slots = h.slots;
    few = h.few;
    owners = h.owners;
  })

  pub Reach-Inv : {start s : System Reply} → Inv start → Reach start s → Inv s
  Reach-Inv h here = h
  Reach-Inv h (next reach step) = Step-Inv step (Reach-Inv h reach)

  -- No task runs, nothing is held, and the other counters are any.
  pub record IsIdle (s : System Reply) : Type 0 where
    pub no_tasks : s.tasks ≡ []
    pub no_slots : s.runtime.effect_inflight ≡ 0
    pub no_capacity : s.runtime.command_capacity_reserved ≡ 0
    pub no_owners : (request : String) → lookup request s.runtime.effect_request_reservations ≡ none

  pub IsIdle-Inv : {s : System Reply} → IsIdle s → Inv s
  IsIdle-Inv {s} h = record {
    capacity = rw (h.no_tasks) (h.no_capacity);
    slots = rw (h.no_tasks) (h.no_slots);
    few = omega (arith, h.no_slots);
    owners = λ k. rw (h.no_tasks, h.no_owners k);
  }

  -- From an idle gateway, in every interleaving of the tasks: at most one task owns a request id, at
  -- most eight hold a slot, and the slot counter is the number of those that do.
  pub one_owner :
      {start s : System Reply}
      → IsIdle start
      → Reach start s
      → ((request : String) → total (request_held request) s.tasks ≤ 1)
        × (total slots_held s.tasks ≤ max_effect_inflight)
        × (s.runtime.effect_inflight ≡ total slots_held s.tasks)
  one_owner {start} {s} idle reach =
      let h = Reach-Inv (IsIdle-Inv idle) reach in
      (
        λ request. omega (
          arith,
          h.owners request,
          entries-le (lookup request s.runtime.effect_request_reservations),
        ),
        omega (arith, h.slots, h.few),
        h.slots,
      )
