-- ===== src/Gateway/Returns.antt =====
-- What the tasks of the effectful branch of `dispatch` (网关/bigqmt_gateway_proxy.py) have still to give
-- back, and how a step of one task changes it.
use qmt_python_tcp.Prelude.{
  ℕ, ◌≤◌, String, ◌≡◌, inl, inr, Bool, true, false, none, List, ◌∷◌, ◌++◌, ◌&&◌, ◌=t=◌,
  if◌then◌else◌, arith, eq_iff, Bool-cases, lookup, put, remove, lookup-put_other,
  lookup-remove_self, lookup-remove_other,
}
use mathlib.Core.Path.{subst}
use qmt_python_tcp.Gateway.Runtime.{Runtime, release_pending_response_reservation}
use qmt_python_tcp.Gateway.Tasks.{
  Phase, owning, reserving, returning, turned, last, Task, turn_ended, finish_turn, System,
}
use qmt_python_tcp.Gateway.Held.{total, total-insert, entries, entries-le, shift, unturned}

abbrev pub reserves : Phase → Bool
reserves reserving = true
reserves _ = false

abbrev pub reservation_held : String → Task → ℕ
reservation_held request t = if reserves t.phase && t.request =t= request then 1 else 0

abbrev pub turn_counts : Phase → Bool
turn_counts turned = false
turn_counts last = false
turn_counts _ = true

abbrev pub turn_held : Task → ℕ
turn_held t = if turn_counts t.phase && t.turn_open then 1 else 0

module _ {Reply : Type 0} where
  -- Each reserved pending response has a task that will give it back, and each open turn a task that
  -- will end it.
  pub record Returns (s : System Reply) : Type 0 where
    pub reservations :
        (request : String)
        → entries (lookup request s.runtime.pending_response_reservations)
          ≤ total (reservation_held request) s.tasks
    pub turns : s.open_turns ≡ total turn_held s.tasks

  -- a step that reserves nothing and ends no turn
  module _ (r r' : Runtime Reply) (n : ℕ) (before after : List Task) (t : Task) (p q : Phase) where
    pub moved :
        r'.pending_response_reservations ≡ r.pending_response_reservations
        → reserves p ≡ false
        → turn_counts p ≡ turn_counts q
        → Returns (record {
          runtime = r;
          open_turns = n;
          tasks = before ++ record t { phase = p } ∷ after;
        })
        → Returns (record {
          runtime = r';
          open_turns = n;
          tasks = before ++ record t { phase = q } ∷ after;
        })
    moved same out turn h = record {
      reservations = λ k.
          rw same (ground (arith, h.reservations k, shift before after t (reservation_held k) p q));
      turns = ground (arith, h.turns, shift before after t turn_held p q);
    }

  -- a task that has no reservation ends its turn and is gone
  pub left :
      (r r' : Runtime Reply) (n : ℕ) (before after : List Task) (t : Task) (p : Phase)
      → r'.pending_response_reservations ≡ r.pending_response_reservations
      → reserves p ≡ false
      → turn_counts p ≡ true
      → Returns
          (record { runtime = r; open_turns = n; tasks = before ++ record t { phase = p } ∷ after })
      → Returns (record { runtime = r'; open_turns = finish_turn t n; tasks = before ++ after })
  unfolding finish_turn
  left r r' n before after t p same out turn h = record {
    reservations = λ k. rw same (
        ground (
          arith,
          h.reservations k,
          total-insert (reservation_held k) before (record t { phase = p }) after,
        ));
    turns = ground (arith, h.turns, total-insert turn_held before (record t { phase = p }) after);
  }

  -- a task ends its turn and stays
  pub turn_over :
      (r : Runtime Reply) (n : ℕ) (before after : List Task) (t : Task) (p q : Phase)
      → reserves p ≡ reserves q
      → turn_counts p ≡ true
      → Returns
          (record { runtime = r; open_turns = n; tasks = before ++ record t { phase = p } ∷ after })
      → Returns (record {
        runtime = r;
        open_turns = finish_turn t n;
        tasks = before ++ record (turn_ended t) { phase = q } ∷ after;
      })
  unfolding finish_turn
  turn_over r n before after t p q same turn h = record {
    reservations =
        λ k. ground (arith, h.reservations k, unturned before after t (reservation_held k) p q);
    turns = ground (arith, h.turns, unturned before after t turn_held p q);
  }

  pub removed :
      (request other : String) (r : Runtime Reply)
      → entries (lookup other (remove request r.pending_response_reservations))
        ≤ entries (lookup other r.pending_response_reservations)
  removed request other r = elim (Bool-cases (request =t= other)) [
    | inl same ↦
        let e = (eq_iff request other).0 same in
        rw
          (subst (λ k. lookup k (remove request r.pending_response_reservations) ≡ none) e
            (lookup-remove_self request r.pending_response_reservations))
          (omega arith)
    | inr distinct ↦
        rw (lookup-remove_other other request r.pending_response_reservations distinct)
          (omega arith)
  ]

  pub shrunk :
      (r r' : Runtime Reply) (n : ℕ) (ts : List Task) (request : String)
      → r'.pending_response_reservations ≡ remove request r.pending_response_reservations
      → Returns (record { runtime = r; open_turns = n; tasks = ts })
      → Returns (record { runtime = r'; open_turns = n; tasks = ts })
  shrunk r r' n ts request e h = record {
    reservations = λ k. rw e (omega (arith, h.reservations k, removed request k r));
    turns = h.turns;
  }

  pub reserved :
      (r r' : Runtime Reply) (n : ℕ) (before after : List Task) (t : Task)
      → r'.pending_response_reservations
        ≡ put t.request t.fingerprint r.pending_response_reservations
      → Returns (record {
        runtime = r;
        open_turns = n;
        tasks = before ++ record t { phase = owning } ∷ after;
      })
      → Returns (record {
        runtime = r';
        open_turns = n;
        tasks = before ++ record t { phase = reserving } ∷ after;
      })
  reserved r r' n before after t e h = record {
    reservations = λ k. elim (Bool-cases (t.request =t= k)) [
      | inl same ↦ ground (
        arith,
        same,
        entries-le (lookup k r'.pending_response_reservations),
        shift before after t (reservation_held k) owning reserving,
      )
      | inr other ↦
          rw (e, lookup-put_other k t.request t.fingerprint r.pending_response_reservations other)
            (ground (
              arith,
              other,
              h.reservations k,
              shift before after t (reservation_held k) owning reserving,
            ))
    ];
    turns = omega (arith, h.turns, shift before after t turn_held owning reserving);
  }

  pub given :
      (r : Runtime Reply) (n : ℕ) (before after : List Task) (t : Task)
      → Returns (record {
        runtime = r;
        open_turns = n;
        tasks = before ++ record t { phase = reserving } ∷ after;
      })
      → Returns (record {
        runtime = release_pending_response_reservation t.request r;
        open_turns = n;
        tasks = before ++ record t { phase = returning } ∷ after;
      })
  unfolding release_pending_response_reservation
  given r n before after t h = record {
    reservations = λ k. elim (Bool-cases (t.request =t= k)) [
      | inl same ↦
          let e = (eq_iff t.request k).0 same in
          rw
            (subst (λ k. lookup k (remove t.request r.pending_response_reservations) ≡ none) e
              (lookup-remove_self t.request r.pending_response_reservations))
            (omega arith)
      | inr other ↦ rw (lookup-remove_other k t.request r.pending_response_reservations other) (
          ground (
            arith,
            other,
            h.reservations k,
            shift before after t (reservation_held k) reserving returning,
          ))
    ];
    turns = omega (arith, h.turns, shift before after t turn_held reserving returning);
  }
