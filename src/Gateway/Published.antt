-- ===== src/Gateway/Published.antt =====
-- How often the command of a request is written (网关/bigqmt_gateway_proxy.py with
-- 网关/order_correlation.py).
use mathlib.Core.Path.{subst}
use qmt_python_tcp.Prelude.{
  ℕ, ◌+◌, ◌≤◌, String, ◌≡◌, inl, inr, refl, ◌∙◌, Bool, true, false, Option, none, some, List, ◌=t=◌,
  strip, upper, if◌then◌else◌, ◌==◌, ok, is_one_of, arith, eq_iff, Bool-cases,
}
use qmt_python_tcp.Correlation.Rows.{EffectRow, Store}
use qmt_python_tcp.Correlation.Effects.{
  new_effect, reserve_effect_request, transition_effect_request,
}
use qmt_python_tcp.Gateway.Helper.{
  Failure, io_lane_full, failure, Prepared, Poll, Answer, returned, queued, raised, publishes,
  place_order, known_not_enqueued, published_is_not_denied,
}
use qmt_python_tcp.Gateway.Submit.{
  Stage, at_rest, claimed, dispatching, unstarted, Effect, after_place, goes_on, final_states,
  SubmitStep, claims, begins, fails_early, does_not_begin, places, rolls_order_back,
  rolls_cancel_back, reports, others, crashes, SubmitRun, untouched, and_then,
}
use qmt_python_tcp.Gateway.Barrier.{row_of, reserve-IsBound}
use qmt_python_tcp.Gateway.Barred.{
  IsBarred, Knows, IsSafe, final_not_prepared, transition-IsBarred, transition-fingerprint,
  begin-IsBarred,
}

completed_not_denied : (reason : Failure) → known_not_enqueued reason true ≡ false
unfolding known_not_enqueued
completed_not_denied io_lane_full = refl
completed_not_denied (failure code) = ground arith

module _ {Document : Type 0} (Reply : Type 0) (dumps : Document → Option String)
    (account request kind fingerprint : String) where
  abbrev Safe : Effect → Type 0
  Safe = IsSafe account request fingerprint

  claim-IsSafe :
      (s : Store) (n now : ℕ) (row : EffectRow) (duplicate : Bool)
      → (reserve_effect_request now account request kind fingerprint s).0 ≡ ok (row, duplicate)
      → goes_on row duplicate ≡ true
      → Safe (record { store = s; stage = at_rest; published = n })
      → Safe (record {
        store = (reserve_effect_request now account request kind fingerprint s).1;
        stage = claimed;
        published = n;
      })
  unfolding new_effect
  claim-IsSafe s n now row duplicate e may h =
      let bound = reserve-IsBound now account request kind fingerprint s row duplicate e in
      let prepared : (row.state =t= "PREPARED") ≡ true = elim (Bool-cases duplicate) [
        | inl again ↦ ground (arith, may, again)
        | inr new_one ↦ (eq_iff row.state "PREPARED").1 (bound.fresh new_one)
      ] in
      let not_one : (n ≡ 1) → (n ≡ 0) = λ one.
        let (old, found, other) = h.barred one in
        let same : old ≡ row = bound.was_stored old found in
        absurd (
          let bad : (row.state =t= "PREPARED") ≡ false =
            subst (λ r. (r.state =t= "PREPARED") ≡ false) same other in
          cc) in
      let none_yet : n ≡ 0 = elim (Bool-cases (n == 1)) [
        | inl one ↦ not_one (ground (arith, one))
        | inr other ↦ (let few = h.few in ground (arith, other, few))
      ] in
      record {
        few = omega (arith, none_yet);
        barred = λ one. absurd (omega (arith, one, none_yet));
        known_there = (none_yet, (row, bound.stored, bound.same_fingerprint));
      }

  place-Knows :
      (s : Store) (n : ℕ) (wait : Bool) (prepared : Prepared Reply) (polls : List (Poll Reply))
      (later : Option Failure) (answer : Answer Reply)
      → place_order wait prepared polls ≡ answer
      → n ≡ 0
      → Knows account request fingerprint (after_place answer later) (record {
        store = s;
        stage = after_place answer later;
        published = if publishes prepared then n + 1 else n;
      })
  unfolding after_place
  place-Knows s n wait prepared polls later (raised reason) e none_yet =
      elim (Bool-cases (known_not_enqueued reason false)) [
        | inr possible ↦ rw possible tt
        | inl denied ↦ elim (Bool-cases (publishes prepared)) [
          | inl written ↦
              absurd (let bad = published_is_not_denied wait prepared polls reason written e in cc)
          | inr unwritten ↦ rw (denied, unwritten) none_yet
        ]
      ]
  place-Knows s n wait prepared polls none (returned reply) e none_yet = tt
  place-Knows s n wait prepared polls none queued e none_yet = tt
  place-Knows s n wait prepared polls (some reason) (returned reply) e none_yet =
      rw (completed_not_denied reason) tt
  place-Knows s n wait prepared polls (some reason) queued e none_yet =
      rw (completed_not_denied reason) tt

  reports-Knows :
      (stage : Stage) (s : Store) (n now : ℕ) (state : String) (result : Option Document)
      (allowed : List String)
      → is_one_of (upper (strip state)) final_states ≡ true
      → Knows account request fingerprint stage (record { store = s; stage = stage; published = n })
      → Knows account request fingerprint stage (record {
        store =
            (transition_effect_request dumps now account request fingerprint state result allowed
              s).1;
        stage = stage;
        published = n;
      })
  reports-Knows at_rest s n now state result allowed final h = tt
  reports-Knows claimed s n now state result allowed final (none_yet, (row, found, own_print)) =
      let (row', found', same) =
        transition-fingerprint dumps account request fingerprint now state result allowed s row
          found in
      (none_yet, (row', found', same ∙ own_print))
  reports-Knows dispatching s n now state result allowed final (none_yet, barred) = (
    none_yet,
    transition-IsBarred dumps account request fingerprint now state result allowed s
        (final_not_prepared (upper (strip state)) final) barred,
  )
  reports-Knows unstarted s n now state result allowed final h = h

  others-Knows :
      (stage : Stage) (s s' : Store) (n : ℕ)
      → row_of account request s' ≡ row_of account request s
      → Knows account request fingerprint stage (record { store = s; stage = stage; published = n })
      → Knows account request fingerprint stage
          (record { store = s'; stage = stage; published = n })
  others-Knows at_rest s s' n same h = tt
  others-Knows claimed s s' n same (none_yet, (row, found, own_print)) =
      (none_yet, (row, same ∙ found, own_print))
  others-Knows dispatching s s' n same (none_yet, (row, found, other)) =
      (none_yet, (row, same ∙ found, other))
  others-Knows unstarted s s' n same h = h

  Step-IsSafe :
      {e e' : Effect}
      → SubmitStep Reply dumps account request kind fingerprint e e'
      → Safe e
      → Safe e'
  Step-IsSafe (claims s n now row duplicate e may) h = claim-IsSafe s n now row duplicate e may h
  Step-IsSafe (begins s n now done) h =
      let (none_yet, (row, found, own_print)) = h.known_there in
      let barred = begin-IsBarred dumps account request fingerprint now s row found own_print in
      record { few = h.few; barred = λ one. barred; known_there = (none_yet, barred) }
  Step-IsSafe (fails_early s n) h = record {
    few = h.few;
    barred = h.barred;
    known_there = h.known_there.0;
  }
  Step-IsSafe (does_not_begin s n now done) h =
      let (none_yet, (row, found, own_print)) = h.known_there in
      record {
        few = h.few;
        barred = λ one. absurd (omega (arith, one, none_yet));
        known_there = none_yet;
      }
  Step-IsSafe (places s n wait prepared polls later) h =
      let (none_yet, barred) = h.known_there in
      record {
        few = ground (arith, none_yet);
        barred = λ one. barred;
        known_there =
            place-Knows s n wait prepared polls later (place_order wait prepared polls) refl
              none_yet;
      }
  Step-IsSafe (rolls_order_back s n now client intent) h = record {
    few = h.few;
    barred = λ one. absurd (let none_yet = h.known_there in omega (arith, one, none_yet));
    known_there = tt;
  }
  Step-IsSafe (rolls_cancel_back s n now) h = record {
    few = h.few;
    barred = λ one. absurd (let none_yet = h.known_there in omega (arith, one, none_yet));
    known_there = tt;
  }
  Step-IsSafe (reports s stage n now state result allowed final) h = record {
    few = h.few;
    barred = λ one.
        transition-IsBarred dumps account request fingerprint now state result allowed s
          (final_not_prepared (upper (strip state)) final) (h.barred one);
    known_there = reports-Knows stage s n now state result allowed final h.known_there;
  }
  Step-IsSafe (others s s' stage n same) h = record {
    few = h.few;
    barred = λ one. let (row, found, other) = h.barred one in (row, same ∙ found, other);
    known_there = others-Knows stage s s' n same h.known_there;
  }
  Step-IsSafe (crashes s stage n) h = record { few = h.few; barred = h.barred; known_there = tt }

  Run-IsSafe :
      {first e : Effect}
      → Safe first
      → SubmitRun Reply dumps account request kind fingerprint first e
      → Safe e
  Run-IsSafe h untouched = h
  Run-IsSafe h (and_then run step) = Step-IsSafe step (Run-IsSafe h run)

  -- From any store, over any number of submissions of a request, with any outcomes of the file
  -- operations, any errors, rollbacks and restarts, and with reports and other requests between them:
  -- the gateway writes one command file for the request at most; once it has, the registry row is not
  -- PREPARED; and where a task takes it that no command was written, there is none.
  pub written_at_most_once :
      (s : Store) {e : Effect}
      → SubmitRun Reply dumps account request kind fingerprint
          (record { store = s; stage = at_rest; published = 0 })
          e
      → (e.published ≤ 1)
        × (e.published ≡ 1 → IsBarred account request e.store)
        × (e.stage ≡ unstarted → e.published ≡ 0)
  written_at_most_once s {e} run =
      let start_safe : Safe (record { store = s; stage = at_rest; published = 0 }) = record {
        few = omega arith;
        barred = λ one. absurd (omega (arith, one));
        known_there = tt;
      } in
      let h = Run-IsSafe start_safe run in
      (
        h.few,
        h.barred,
        λ at_unstarted.
            subst (λ stage. Knows account request fingerprint stage e) at_unstarted h.known_there,
      )
