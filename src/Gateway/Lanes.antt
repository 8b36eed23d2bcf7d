-- ===== src/Gateway/Lanes.antt =====
-- `BoundedExecutorLane` (网关/bounded_io.py). Each region under the lock is one function; the executor
-- is a parameter: whether it takes a call.
use mathlib.Core.Path.{subst}
use qmt_python_tcp.Prelude.{
  ℕ, ◌+◌, ◌-◌, ◌≤◌, ◌<◌, max, String, ◌≡◌, ◌↔◌, inl, inr, refl, sym, Bool, true, false, List, [],
  ◌∷◌, ◌++◌, if◌then◌else◌, ltb, leb, arith, length, length-append, Bool-cases, leb→le,
}

-- `_pending` and `_closed`, with the two bounds
pub record Lane : Type 0 where
  pub max_workers : ℕ
  pub max_pending : ℕ
  pub pending : ℕ
  pub closed : Bool

abbrev pub new_lane : ℕ → ℕ → Lane
new_lane max_workers max_pending = record {
  max_workers = max 1 max_workers;
  max_pending = max (max 1 max_workers) max_pending;
  pending = 0;
  closed = false;
}

-- how `run` goes, up to its `await`
pub data Submission : Type 0 where
  lane_closed lane_full executor_failed submitted : Submission

unfoldable pub reserve : Lane → Submission × Lane
reserve l =
    if l.closed
    then (lane_closed, l)
    else if leb l.max_pending l.pending
    then (lane_full, l)
    else (submitted, record l { pending = l.pending + 1 })

unfoldable pub release : Lane → Lane
release l = if ltb 0 l.pending then record l { pending = l.pending - 1 } else l

-- What follows the reservation; `accepts` says whether the executor takes the call.
unfoldable pub hand_in : Bool → Submission × Lane → Submission × Lane
unfolding release
hand_in accepts (submitted, l) = if accepts then (submitted, l) else (executor_failed, release l)
hand_in accepts (refusal, l) = (refusal, l)

unfoldable pub run : Bool → Lane → Submission × Lane
unfolding reserve hand_in
run accepts l = hand_in accepts (reserve l)

unfoldable pub close : Lane → Lane
close l = record l { closed = true }

-- A lane, the calls that its executor has and has not finished, and those that have ended and whose
-- `_release` the event loop has still to run.
pub record Calls : Type 0 where
  pub lane : Lane
  pub unfinished : List String
  pub ended : List String

-- One request to run a call, the end of a call, whether or not its requester still waits for it, its
-- done callback, or the closing of the lane.
pub data LaneStep : Calls → Calls → Type 0 where
  runs :
      (l : Lane) (calls ended : List String) (call : String) (accepts : Bool)
      → LaneStep
          (record { lane = l; unfinished = calls; ended = ended })
          (record {
            lane = (run accepts l).1;
            unfinished = elim ((run accepts l).0) [ submitted ↦ call ∷ calls | _ ↦ calls ];
            ended = ended;
          })
  completes :
      (l : Lane) (before after ended : List String) (call : String)
      → LaneStep
          (record { lane = l; unfinished = before ++ call ∷ after; ended = ended })
          (record { lane = l; unfinished = before ++ after; ended = call ∷ ended })
  called_back :
      (l : Lane) (calls before after : List String) (call : String)
      → LaneStep
          (record { lane = l; unfinished = calls; ended = before ++ call ∷ after })
          (record { lane = release l; unfinished = calls; ended = before ++ after })
  closes :
      (l : Lane) (calls ended : List String)
      → LaneStep
          (record { lane = l; unfinished = calls; ended = ended })
          (record { lane = close l; unfinished = calls; ended = ended })

pub data LaneRun (first : Calls) : Calls → Type 0 where
  opened : LaneRun first first
  moved : {c c' : Calls} → LaneRun first c → LaneStep c c' → LaneRun first c'

pub record IsExact (c : Calls) : Type 0 where
  pub exact : c.lane.pending ≡ length c.unfinished + length c.ended
  pub bounded : c.lane.pending ≤ c.lane.max_pending
  pub room : 1 ≤ c.lane.max_pending

pub data Outcome (l : Lane) : Submission × Lane → Type 0 where
  was_closed : l.closed ≡ true → Outcome l (lane_closed, l)
  was_full : l.max_pending ≤ l.pending → Outcome l (lane_full, l)
  not_taken : l.pending < l.max_pending → Outcome l (executor_failed, l)
  was_taken :
      l.closed ≡ false
      → l.pending < l.max_pending
      → Outcome l (submitted, record l { pending = l.pending + 1 })

abbrev lane_of : ℕ → ℕ → ℕ → Bool → Lane
lane_of workers limit pending closed = record {
  max_workers = workers;
  max_pending = limit;
  pending = pending;
  closed = closed;
}

open_lane :
    (accepts : Bool) (workers limit pending : ℕ)
    → Outcome
        (lane_of workers limit pending false)
        (run accepts (lane_of workers limit pending false))
unfolding run reserve release hand_in
open_lane accepts workers limit pending =
    let l = lane_of workers limit pending false in
    let Goal : Submission × Lane → Type 0 = λ r. Outcome l (hand_in accepts r) in
    elim (Bool-cases (leb limit pending)) [
      | inl full ↦
          let e : reserve l ≡ (lane_full, l) = rw full in
          subst Goal (sym e) (was_full (leb→le limit pending full))
      | inr space ↦
          let e : reserve l ≡ (submitted, lane_of workers limit (pending + 1) false) = rw space in
          let below : pending < limit = ground (arith, space) in
          subst Goal (sym e) (elim (Bool-cases accepts) [
            | inl took ↦ rw took (was_taken refl below)
            | inr raised ↦
                let some_pending : ltb 0 (pending + 1) ≡ true = ground arith in
                let same : pending + 1 - 1 ≡ pending = omega arith in
                rw (raised, some_pending, same) (not_taken below)
          ])
    ]

-- The four ways that `run` goes.
run-Outcome :
    (accepts : Bool) (workers limit pending : ℕ) (closed : Bool)
    → Outcome
        (lane_of workers limit pending closed)
        (run accepts (lane_of workers limit pending closed))
unfolding run reserve
run-Outcome accepts workers limit pending true = was_closed refl
run-Outcome accepts workers limit pending false = open_lane accepts workers limit pending

Outcome-IsExact :
    (l : Lane) (calls ended : List String) (call : String) (r : Submission × Lane)
    → Outcome l r
    → IsExact (record { lane = l; unfinished = calls; ended = ended })
    → IsExact (record {
      lane = r.1;
      unfinished = elim (r.0) [ submitted ↦ call ∷ calls | _ ↦ calls ];
      ended = ended;
    })
Outcome-IsExact l calls ended call r (was_closed shut) h = h
Outcome-IsExact l calls ended call r (was_full full) h = h
Outcome-IsExact l calls ended call r (not_taken below) h = h
Outcome-IsExact l calls ended call r (was_taken usable below) h = record {
  exact = omega (arith, h.exact);
  bounded = omega (arith, below);
  room = h.room;
}

length-insert :
    (before after : List String) (call : String)
    → length (before ++ call ∷ after) ≡ length (before ++ after) + 1
length-insert before after call =
    omega (arith, length-append before (call ∷ after), length-append before after)

Step-IsExact : {c c' : Calls} → LaneStep c c' → IsExact c → IsExact c'
unfolding release close
Step-IsExact (runs l calls ended call accepts) h =
    Outcome-IsExact l calls ended call (run accepts l)
      (run-Outcome accepts l.max_workers l.max_pending l.pending l.closed) h
Step-IsExact (completes l before after ended call) h = record {
  exact = omega (arith, h.exact, length-insert before after call);
  bounded = h.bounded;
  room = h.room;
}
Step-IsExact (called_back l calls before after call) h =
    let some_pending : ltb 0 l.pending ≡ true =
      ground (arith, h.exact, length-insert before after call) in
    rw some_pending (record {
      exact = omega (arith, h.exact, length-insert before after call);
      bounded = omega (arith, h.bounded);
      room = h.room;
    })
Step-IsExact (closes l calls ended) h = record {
  exact = h.exact;
  bounded = h.bounded;
  room = h.room;
}

Run-IsExact : {first c : Calls} → IsExact first → LaneRun first c → IsExact c
Run-IsExact h opened = h
Run-IsExact h (moved run_so_far step) = Step-IsExact step (Run-IsExact h run_so_far)

full_iff :
    (workers limit pending : ℕ) (closed : Bool)
    → closed ≡ false
    → ((reserve (lane_of workers limit pending closed)).0 ≡ lane_full) ↔ (limit ≤ pending)
unfolding reserve
full_iff workers limit pending true usable = absurd cc
full_iff workers limit pending false usable = elim (Bool-cases (leb limit pending)) [
  | inl full ↦ rw full (λ e. leb→le limit pending full, λ le. refl)
  | inr space ↦ rw space (λ e. absurd cc, λ le. absurd (ground (arith, space)))
]

-- A new lane, in every order of requests, ends of calls, their done callbacks and its closing: the
-- lane counts exactly the calls that its executor has not finished and those that have ended and
-- whose callback has not run, and these together are never more than its bound; and while it is not
-- closed, a request is refused for want of room exactly if they are as many.
pub lane_counts_calls :
    (workers limit : ℕ) {c : Calls}
    → LaneRun (record { lane = new_lane workers limit; unfinished = []; ended = [] }) c
    → (c.lane.pending ≡ length c.unfinished + length c.ended)
      × (length c.unfinished + length c.ended ≤ c.lane.max_pending)
      × (c.lane.closed ≡ false
          → ((reserve c.lane).0 ≡ lane_full)
            ↔ (length c.unfinished + length c.ended ≡ c.lane.max_pending))
lane_counts_calls workers limit {c} run_so_far =
    let new_one : IsExact (record { lane = new_lane workers limit; unfinished = []; ended = [] }) =
      record { exact = refl; bounded = omega arith; room = omega arith } in
    let h = Run-IsExact new_one run_so_far in
    (
      h.exact,
      omega (arith, h.exact, h.bounded),
      λ usable.
          let (down, up) =
            full_iff c.lane.max_workers c.lane.max_pending c.lane.pending c.lane.closed usable in
          (
            λ refused. (let at_least = down refused in omega (arith, h.exact, h.bounded)),
            λ full. up (omega (arith, h.exact)),
          ),
    )
