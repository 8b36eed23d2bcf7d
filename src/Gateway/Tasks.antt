-- ===== src/Gateway/Tasks.antt =====
-- The tasks that run the effectful branch of `dispatch` (网关/bigqmt_gateway_proxy.py), from its turn in
-- the queue of effects to the end of its `finally`. Each step is what a task does between two awaits,
-- or one region under a lock, so a sequence of steps is any interleaving of the tasks. No task is cancelled.
use qmt_python_tcp.Prelude.{
  ℕ, ◌+◌, ◌-◌, String, ◌≡◌, Bool, true, false, none, some, List, ◌∷◌, ◌++◌, if◌then◌else◌,
}
use qmt_python_tcp.Gateway.Runtime.{
  PendingItem, Runtime, Code, try_acquire_effect, release_effect, try_reserve_command_capacity,
  release_command_capacity, cache_helper_health, try_reserve_effect_request, release_effect_request,
  try_reserve_pending_response, commit_pending_response, forget_pending_response,
  release_pending_response_reservation,
}

-- Where a task stands: its turn attached; behind `try_reserve_command_capacity`; refused a slot, so that
-- the capacity must go back; with a slot; owning its request id, or refused it; with a pending response
-- reserved too; and in `finally`: with that reservation given back, with the request id given back,
-- with its turn ended, and with the capacity given back.
pub data Phase : Type 0 where
  attached admitted slotless running owning reserving returning refused closing turned last : Phase

abbrev pub owns : Phase → Bool
owns owning = true
owns reserving = true
owns returning = true
owns _ = false

-- `turn_open`: the future `_gateway_enqueue_completion` of the message is not done.
pub record Task : Type 0 where
  pub request : String
  pub fingerprint : String
  pub phase : Phase
  pub turn_open : Bool

-- `open_turns` counts the futures of this account that no one has set.
pub record System (Reply : Type 0) : Type 0 where
  pub runtime : Runtime Reply
  pub open_turns : ℕ
  pub tasks : List Task

-- `finish_effect_enqueue_turn`, on the message and on the count
abbrev pub turn_ended : Task → Task
turn_ended t = record t { turn_open = false }

unfoldable pub finish_turn : Task → ℕ → ℕ
finish_turn t n = if t.turn_open then n - 1 else n

module _ {Reply : Type 0} where
  -- The system in which a task, between others, has moved on to a phase.
  abbrev pub with_task : Runtime Reply → ℕ → List Task → Task → Phase → List Task → System Reply
  with_task r n before t phase after = record {
    runtime = r;
    open_turns = n;
    tasks = before ++ record t { phase = phase } ∷ after;
  }

  pub data Step : System Reply → System Reply → Type 0 where
    -- `attach_effect_enqueue_turn`
    attach :
        (r : Runtime Reply) (n : ℕ) (ts : List Task) (request fingerprint : String)
        → Step
            (record { runtime = r; open_turns = n; tasks = ts })
            (record {
              runtime = r;
              open_turns = n + 1;
              tasks =
                  record {
                    request = request;
                    fingerprint = fingerprint;
                    phase = attached;
                    turn_open = true;
                  }
                  ∷ ts;
            })
    -- a reply is cached, or the fingerprint is another, or the command queue is full
    turn_away :
        (r : Runtime Reply) (n : ℕ) (before after : List Task) (t : Task)
        → Step
            (with_task r n before t attached after)
            (record { runtime = r; open_turns = finish_turn t n; tasks = before ++ after })
    enter :
        (r : Runtime Reply) (n : ℕ) (before after : List Task) (t : Task)
        → (try_reserve_command_capacity r).0 ≡ true
        → Step
            (with_task r n before t attached after)
            (with_task ((try_reserve_command_capacity r).1) n before t admitted after)
    acquire :
        (r : Runtime Reply) (n : ℕ) (before after : List Task) (t : Task)
        → (try_acquire_effect r).0 ≡ true
        → Step
            (with_task r n before t admitted after)
            (with_task ((try_acquire_effect r).1) n before t running after)
    busy :
        (r : Runtime Reply) (n : ℕ) (before after : List Task) (t : Task)
        → (try_acquire_effect r).0 ≡ false
        → Step
            (with_task r n before t admitted after)
            (with_task ((try_acquire_effect r).1) n before t slotless after)
    leave :
        (r : Runtime Reply) (n : ℕ) (before after : List Task) (t : Task)
        → Step (with_task r n before t slotless after) (record {
          runtime = release_command_capacity false r;
          open_turns = finish_turn t n;
          tasks = before ++ after;
        })
    own :
        (r : Runtime Reply) (n : ℕ) (before after : List Task) (t : Task)
        → (try_reserve_effect_request t.request t.fingerprint r).0 ≡ none
        → Step (with_task r n before t running after) (
            with_task
              ((try_reserve_effect_request t.request t.fingerprint r).1)
              n
              before
              t
              owning
              after)
    refuse :
        (r : Runtime Reply) (n : ℕ) (before after : List Task) (t : Task) (code : Code)
        → (try_reserve_effect_request t.request t.fingerprint r).0 ≡ some code
        → Step (with_task r n before t running after) (
            with_task
              ((try_reserve_effect_request t.request t.fingerprint r).1)
              n
              before
              t
              refused
              after)
    -- an asynchronous request, whose pending request id is its request id
    reserve_response :
        (r : Runtime Reply) (n : ℕ) (before after : List Task) (t : Task) (takeover : Bool)
        → (try_reserve_pending_response t.request t.fingerprint takeover r).0.owned ≡ true
        → Step (with_task r n before t owning after) (
            with_task
              ((try_reserve_pending_response t.request t.fingerprint takeover r).1)
              n
              before
              t
              reserving
              after)
    not_reserved :
        (r : Runtime Reply) (n : ℕ) (before after : List Task) (t : Task) (takeover : Bool)
        → (try_reserve_pending_response t.request t.fingerprint takeover r).0.owned ≡ false
        → Step (with_task r n before t owning after) (
            with_task
              ((try_reserve_pending_response t.request t.fingerprint takeover r).1)
              n
              before
              t
              owning
              after)
    -- `enqueue_done` of `handle_new` and of the cancellations
    enqueue :
        (r : Runtime Reply) (n : ℕ) (before after : List Task) (t : Task) (p : Phase)
        → owns p ≡ true
        → Step
            (with_task r n before t p after)
            (with_task (r) (finish_turn t n) before (turn_ended t) p after)
    -- `finally`: `pending_reservation_owned` is true
    give_reservation :
        (r : Runtime Reply) (n : ℕ) (before after : List Task) (t : Task)
        → Step (with_task r n before t reserving after) (
            with_task (release_pending_response_reservation t.request r) n before t returning after)
    -- `finally` of a task that does not own a reservation
    no_reservation :
        (r : Runtime Reply) (n : ℕ) (before after : List Task) (t : Task)
        → Step (with_task r n before t owning after) (with_task (r) n before t returning after)
    -- `finally`: `effect_request_owned` is true
    give_back :
        (r : Runtime Reply) (n : ℕ) (before after : List Task) (t : Task)
        → Step
            (with_task r n before t returning after)
            (with_task (release_effect_request t.request r) n before t closing after)
    -- `finally` of a task that does not own its id
    skip :
        (r : Runtime Reply) (n : ℕ) (before after : List Task) (t : Task)
        → Step (with_task r n before t refused after) (with_task (r) n before t closing after)
    end_turn :
        (r : Runtime Reply) (n : ℕ) (before after : List Task) (t : Task)
        → Step
            (with_task r n before t closing after)
            (with_task (r) (finish_turn t n) before (turn_ended t) turned after)
    give_capacity :
        (r : Runtime Reply) (n : ℕ) (before after : List Task) (t : Task) (attempted : Bool)
        → Step
            (with_task r n before t turned after)
            (with_task (release_command_capacity attempted r) n before t last after)
    finish :
        (r : Runtime Reply) (n : ℕ) (before after : List Task) (t : Task)
        → Step
            (with_task r n before t last after)
            (record { runtime = release_effect r; open_turns = n; tasks = before ++ after })
    -- in between: the health sampler, and the pending responses that are committed and delivered
    sample :
        (r : Runtime Reply) (n : ℕ) (ts : List Task) (depth sampled : ℕ)
        → Step
            (record { runtime = r; open_turns = n; tasks = ts })
            (record { runtime = cache_helper_health depth sampled r; open_turns = n; tasks = ts })
    commit :
        (r : Runtime Reply) (n : ℕ) (ts : List Task) (request : String) (item : PendingItem)
        → Step
            (record { runtime = r; open_turns = n; tasks = ts })
            (record {
              runtime = commit_pending_response request item r;
              open_turns = n;
              tasks = ts;
            })
    forget :
        (r : Runtime Reply) (n : ℕ) (ts : List Task) (request : String)
        → Step
            (record { runtime = r; open_turns = n; tasks = ts })
            (record { runtime = forget_pending_response request r; open_turns = n; tasks = ts })

  pub data Reach (start : System Reply) : System Reply → Type 0 where
    here : Reach start start
    next : {s s' : System Reply} → Reach start s → Step s s' → Reach start s'
