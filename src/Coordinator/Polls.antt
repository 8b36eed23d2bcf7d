-- ===== src/Coordinator/Polls.antt =====
-- What strategies poll behind an acknowledgement (外置策略API/qmt_local_api/coordinator.py).
use mathlib.Core.Path.{subst}
use qmt_python_tcp.Prelude.{
  ℕ, ◌+◌, ◌≤◌, String, ◌≡◌, inl, inr, refl, sym, ap, ◌∙◌, Bool, true, false, List, [], ◌∷◌, map,
  is_empty, strip, ◌==◌, Result, Result-cases, err-no-ok, value_error, ok-injective, ◌>>=◌, ok, any,
  arith, All, Bool-cases,
}
use qmt_python_tcp.Table.{find_row, count_where, update_where}
use qmt_python_tcp.Table.Laws.{any-update}
use qmt_python_tcp.Coordinator.Rows.{OutboxRow, Database, Settings}
use qmt_python_tcp.Coordinator.Identifiers.{valid_strategy_id}
use qmt_python_tcp.Coordinator.Strategies.{enabled_row, has_strategy, strategy_row}
use qmt_python_tcp.Coordinator.Outbox.{poll_events, acknowledge_event}
use qmt_python_tcp.Coordinator.Outbox.{is_open_event, mark_acknowledged, open_rows}
use qmt_python_tcp.Coordinator.Runs.{Call, run}
use qmt_python_tcp.Coordinator.Acknowledged.{has_event_id, Settled, IsDone, open_rows-others}
use qmt_python_tcp.Coordinator.Delivery.{run-IsDone}

-- What a poll returns.
poll_events-rows :
    (now : ℕ) (id : String) (limit : ℕ) (s s' : Database) (rows : List OutboxRow)
    → poll_events now id limit s ≡ (ok rows, s')
    → map
        (λ (r : OutboxRow). record r { attempts = r.attempts + 1 })
        (open_rows (strip id) limit s.outbox)
      ≡ rows
unfolding poll_events strategy_row ◌>>=◌
poll_events-rows now id limit s s' rows h = elim (Bool-cases (valid_strategy_id (strip id))) [
  | inr bad ↦ err-no-ok {e = value_error} {s = s} (rw bad) h
  | inl good ↦ elim (Result-cases (enabled_row (find_row (has_strategy (strip id)) s.strategies))) [
    | inr (e, off) ↦ err-no-ok {e = e} {s = s} (rw (good, off)) h
    | inl (row, on) ↦
        let result : (poll_events now id limit s).0
            ≡ ok (
                map (λ (r : OutboxRow). record r { attempts = r.attempts + 1 })
                  (open_rows (strip id) limit s.outbox)) =
          rw (good, on) in
        ok-injective (sym result ∙ ap (λ (p : Result (List OutboxRow) × Database). p.0) h)
  ]
]

All-attempts :
    (event : String) (rows : List OutboxRow)
    → All (λ r. has_event_id event r ≡ false) rows
    → All
        (λ r. has_event_id event r ≡ false)
        (map (λ (r : OutboxRow). record r { attempts = r.attempts + 1 }) rows)
All-attempts event [] h = tt
All-attempts event (r ∷ rs) h = (h.0, All-attempts event rs h.1)

-- Among rows that hold the id once at most, one open row of the id is acknowledged.
module _ (now : ℕ) (strategy event : String) where
  open_count :
      (rows : List OutboxRow)
      → count_where (is_open_event strategy event) rows ≤ count_where (has_event_id event) rows
  unfolding count_where
  open_count [] = omega arith
  open_count (r ∷ rs) = ground (arith, open_count rs)

  none-Settled :
      (rows : List OutboxRow)
      → count_where (has_event_id event) rows ≡ 0
      → All
          (Settled event)
          (update_where (is_open_event strategy event) (mark_acknowledged now) rows)
  unfolding count_where update_where mark_acknowledged
  none-Settled [] h = tt
  none-Settled (r ∷ rs) h = elim (Bool-cases (has_event_id event r)) [
    | inl hit ↦ absurd (ground (arith, hit))
    | inr miss ↦
        rw miss (λ own. absurd (ground (arith, miss, own)), none-Settled rs (ground (arith, miss)))
  ]

  one-Settled :
      (rows : List OutboxRow)
      → count_where (has_event_id event) rows ≤ 1
      → count_where (is_open_event strategy event) rows ≡ 1
      → All
          (Settled event)
          (update_where (is_open_event strategy event) (mark_acknowledged now) rows)
  unfolding count_where update_where mark_acknowledged
  one-Settled [] unique one = tt
  one-Settled (r ∷ rs) unique one = elim (Bool-cases (is_open_event strategy event r)) [
    | inl hit ↦ rw hit (λ own. refl, none-Settled rs (ground (arith, hit)))
    | inr miss ↦ rw miss (
      λ own. absurd (ground (arith, open_count rs, own)),
      one-Settled rs (ground (arith, open_count rs)) (ground (arith, miss)),
    )
  ]

there_is :
    {A : Type 0} (p q : A → Bool) (rows : List A)
    → ((x : A) → q x ≡ true → p x ≡ true)
    → count_where q rows ≡ 1
    → any p rows ≡ true
unfolding count_where
there_is p q [] sub one = absurd (omega arith)
there_is p q (x ∷ xs) sub one = elim (Bool-cases (q x)) [
  | inl hit ↦ ground (arith, sub x hit)
  | inr miss ↦ ground (arith, there_is p q xs sub (ground (arith, miss)))
]

acknowledge_event-result :
    (now : ℕ) (id key : String) (s s' : Database)
    → acknowledge_event now id key s ≡ (ok true, s')
    → (count_where (is_open_event (strip id) (strip key)) s.outbox ≡ 1)
      × (record s {
        outbox =
            update_where (is_open_event (strip id) (strip key)) (mark_acknowledged now) s.outbox;
      }
          ≡ s')
unfolding acknowledge_event strategy_row ◌>>=◌
acknowledge_event-result now id key s s' h = elim (Bool-cases (valid_strategy_id (strip id))) [
  | inr bad ↦ err-no-ok {e = value_error} {s = s} (rw bad) h
  | inl good ↦ elim (Bool-cases (is_empty (strip key))) [
    | inl empty ↦ err-no-ok {e = value_error} {s = s} (rw (good, empty)) h
    | inr given ↦
        elim (Result-cases (enabled_row (find_row (has_strategy (strip id)) s.strategies))) [
          | inr (e, off) ↦ err-no-ok {e = e} {s = s} (rw (good, given, off)) h
          | inl (row, on) ↦
              let result : acknowledge_event now id key s ≡ (
                ok (count_where (is_open_event (strip id) (strip key)) s.outbox == 1),
                record s {
                  outbox =
                      update_where (is_open_event (strip id) (strip key)) (mark_acknowledged now)
                        s.outbox;
                },
              ) =
                rw (good, given, on) in
              let answer : (count_where (is_open_event (strip id) (strip key)) s.outbox == 1)
                  ≡ true =
                ok-injective (ap (λ (p : Result Bool × Database). p.0) (sym result ∙ h)) in
              (ground (arith, answer), ap (λ (p : Result Bool × Database). p.1) (sym result ∙ h))
        ]
  ]
]

acknowledge_event-IsDone :
    (now : ℕ) (id key : String) (s s' : Database)
    → count_where (has_event_id (strip key)) s.outbox ≤ 1
    → acknowledge_event now id key s ≡ (ok true, s')
    → IsDone (strip key) s'
unfolding mark_acknowledged
acknowledge_event-IsDone now id key s s' unique h =
    let (one, after) = acknowledge_event-result now id key s s' h in
    subst (IsDone (strip key)) after (record {
      there =
          any-update (has_event_id (strip key)) _ (mark_acknowledged now) (λ r. refl) s.outbox
          ∙ there_is (has_event_id (strip key)) (is_open_event (strip id) (strip key)) s.outbox
              (λ r e. ground (arith, e)) one;
      settled = one-Settled now (strip id) (strip key) s.outbox unique one;
    })

-- Where the outbox holds an event's id once at most: an event whose acknowledgement has returned true
-- is in no later poll of any strategy, whatever calls and events come between.
pub acknowledged_not_polled :
    (settings : Settings) (now later : ℕ) (id key other : String) (limit : ℕ)
    (calls : List (ℕ × Call)) (s s' s'' : Database) (rows : List OutboxRow)
    → count_where (has_event_id (strip key)) s.outbox ≤ 1
    → acknowledge_event now id key s ≡ (ok true, s')
    → poll_events later other limit (run settings calls s') ≡ (ok rows, s'')
    → All (λ r. has_event_id (strip key) r ≡ false) rows
acknowledged_not_polled settings now later id key other limit calls s s' s'' rows unique acked
      polled =
    subst (All (λ r. has_event_id (strip key) r ≡ false))
      (poll_events-rows later other limit (run settings calls s') s'' rows polled)
      (All-attempts (strip key) _ (
        open_rows-others (strip key) (strip other) limit _
          (run-IsDone settings (strip key) calls s'
            (acknowledge_event-IsDone now id key s s' unique acked)).settled))
