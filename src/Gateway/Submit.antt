-- ===== src/Gateway/Submit.antt =====
-- One effect request of the gateway (网关/bigqmt_gateway_proxy.py) from its registry row to its command
-- file: `dispatch`, `handle_new` and the order store together. A request has one task at a time, which
-- owns its id.
use qmt_python_tcp.Prelude.{
  ℕ, ◌+◌, String, ◌≡◌, Bool, true, false, Option, none, some, List, [], ◌∷◌, not, ◌||◌, ◌=t=◌,
  strip, upper, if◌then◌else◌, Action, ok, is_one_of,
}
use qmt_python_tcp.Table.{find_row}
use qmt_python_tcp.Correlation.Rows.{EffectRow, Store, has_effect}
use qmt_python_tcp.Correlation.Effects.{reserve_effect_request, transition_effect_request}
use qmt_python_tcp.Correlation.Pending.{release_unstarted_order, release_unstarted_cancel}
use qmt_python_tcp.Gateway.Helper.{
  Failure, Prepared, Poll, Answer, raised, publishes, place_order, known_not_enqueued,
}

-- Where the task of a request stands: no task, or one that only reports; behind the reading of its
-- registry row; behind `_begin_effect_dispatch`; and in the handler of an exception that is taken for
-- the proof that no command was written.
pub data Stage : Type 0 where
  at_rest claimed dispatching unstarted : Stage

-- The store, the stage of the request's task, and how many command files it has written.
pub record Effect : Type 0 where
  pub store : Store
  pub stage : Stage
  pub published : ℕ

-- `handle_new`, behind the call of the helper: `later` is the exception, if any, of what the handler
-- still does once the helper has answered.
unfoldable pub after_place : {Reply : Type 0} → Answer Reply → Option Failure → Stage
unfolding known_not_enqueued
after_place (raised reason) later = if known_not_enqueued reason false then unstarted else at_rest
after_place answer none = at_rest
after_place answer (some reason) = if known_not_enqueued reason true then unstarted else at_rest

-- `dispatch` goes on to the handler with this row of the registry.
abbrev pub goes_on : EffectRow → Bool → Bool
goes_on row duplicate = not duplicate || row.state =t= "PREPARED"

abbrev pub final_states : List String
final_states = "ENQUEUED" ∷ "UNKNOWN" ∷ "TERMINAL" ∷ []

module _ {Document : Type 0} (dumps : Document → Option String)
    (account request fingerprint : String) where
  -- the transition of `_begin_effect_dispatch`
  unfoldable pub begin_dispatch : ℕ → Action Store Bool
  unfolding transition_effect_request
  begin_dispatch now =
      transition_effect_request dumps now account request fingerprint "DISPATCHING" none
        ("PREPARED" ∷ [])

module _ {Document : Type 0} (Reply : Type 0) (dumps : Document → Option String)
    (account request kind fingerprint : String) where
  -- What can happen to the request.
  pub data SubmitStep : Effect → Effect → Type 0 where
    -- `dispatch`, up to the call of the handler
    claims :
        (s : Store) (n now : ℕ) (row : EffectRow) (duplicate : Bool)
        → (reserve_effect_request now account request kind fingerprint s).0 ≡ ok (row, duplicate)
        → goes_on row duplicate ≡ true
        → SubmitStep
            (record { store = s; stage = at_rest; published = n })
            (record {
              store = (reserve_effect_request now account request kind fingerprint s).1;
              stage = claimed;
              published = n;
            })
    -- `_begin_effect_dispatch` returns
    begins :
        (s : Store) (n now : ℕ)
        → (begin_dispatch dumps account request fingerprint now s).0 ≡ ok true
        → SubmitStep
            (record { store = s; stage = claimed; published = n })
            (record {
              store = (begin_dispatch dumps account request fingerprint now s).1;
              stage = dispatching;
              published = n;
            })
    -- an exception before that, or of that
    fails_early :
        (s : Store) (n : ℕ)
        → SubmitStep
            (record { store = s; stage = claimed; published = n })
            (record { store = s; stage = unstarted; published = n })
    does_not_begin :
        (s : Store) (n now : ℕ)
        → (begin_dispatch dumps account request fingerprint now s).0 ≡ ok false
        → SubmitStep
            (record { store = s; stage = claimed; published = n })
            (record {
              store = (begin_dispatch dumps account request fingerprint now s).1;
              stage = unstarted;
              published = n;
            })
    -- the call of the helper
    places :
        (s : Store) (n : ℕ) (wait : Bool) (prepared : Prepared Reply) (polls : List (Poll Reply))
        (later : Option Failure)
        → SubmitStep
            (record { store = s; stage = dispatching; published = n })
            (record {
              store = s;
              stage = after_place (place_order wait prepared polls) later;
              published = if publishes prepared then n + 1 else n;
            })
    -- `_rollback_unstarted_order` and `_rollback_unstarted_cancel`
    rolls_order_back :
        (s : Store) (n now : ℕ) (client intent : String)
        → SubmitStep
            (record { store = s; stage = unstarted; published = n })
            (record {
              store = (release_unstarted_order now account client intent request fingerprint s).1;
              stage = at_rest;
              published = n;
            })
    rolls_cancel_back :
        (s : Store) (n now : ℕ)
        → SubmitStep
            (record { store = s; stage = unstarted; published = n })
            (record {
              store = (release_unstarted_cancel now account request fingerprint s).1;
              stage = at_rest;
              published = n;
            })
    -- the end of `dispatch`, and the delivery of the response
    reports :
        (s : Store) (stage : Stage) (n now : ℕ) (state : String) (result : Option Document)
        (allowed : List String)
        → is_one_of (upper (strip state)) final_states ≡ true
        → SubmitStep
            (record { store = s; stage = stage; published = n })
            (record {
              store =
                  (transition_effect_request dumps now account request fingerprint state result
                    allowed s).1;
              stage = stage;
              published = n;
            })
    -- what the store does for other requests
    others :
        (s s' : Store) (stage : Stage) (n : ℕ)
        → find_row (has_effect (strip account) (strip request)) s'.effects
          ≡ find_row (has_effect (strip account) (strip request)) s.effects
        → SubmitStep
            (record { store = s; stage = stage; published = n })
            (record { store = s'; stage = stage; published = n })
    -- the task ends early, by a reply of its own, or the process ends and starts anew
    crashes :
        (s : Store) (stage : Stage) (n : ℕ)
        → SubmitStep
            (record { store = s; stage = stage; published = n })
            (record { store = s; stage = at_rest; published = n })

  pub data SubmitRun (first : Effect) : Effect → Type 0 where
    untouched : SubmitRun first first
    and_then : {e e' : Effect} → SubmitRun first e → SubmitStep e e' → SubmitRun first e'
