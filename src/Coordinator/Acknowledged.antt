-- ===== src/Coordinator/Acknowledged.antt =====
-- An event that a strategy has acknowledged (外置策略API/qmt_local_api/coordinator.py).
use mathlib.Core.Path.{subst}
use qmt_python_tcp.Prelude.{
  ℕ, zero, suc, ◌+◌, min, max, String, ◌≡◌, ◌≢◌, inl, inr, refl, sym, ap, ◌∙◌, Bool, true, false,
  List, [], ◌∷◌, map, ◌=t=◌, pure, gets, modify, Keeps, keeps_rules, Keeps-modify, ◌>>=◌, ◌>>◌, any,
  is_one_of, arith, eq_iff, eq_comm, take, All, All-append, Bool-cases,
}
use qmt_python_tcp.Table.{select_where, update_where, insert_row, sort_by, insert_sorted}
use qmt_python_tcp.Table.Laws.{All-update, any-insert, any-update}
use qmt_python_tcp.Coordinator.Rows.{Message, OutboxRow, Database, Settings}
use qmt_python_tcp.Coordinator.Strategies.{strategy_row}
use qmt_python_tcp.Coordinator.Events.{deliver}
use qmt_python_tcp.Coordinator.Outbox.{poll_events, acknowledge_event, is_open}
use qmt_python_tcp.Coordinator.Events.{new_delivery, insert_delivery, same_delivery}
use qmt_python_tcp.Coordinator.Outbox.{is_open_event, mark_acknowledged, mark_delivered, open_rows}

-- Is the row still to be delivered?
abbrev is_waiting : OutboxRow → Bool
is_waiting row = is_one_of row.state ("PENDING" ∷ "DELIVERED" ∷ [])

abbrev pub has_event_id : String → OutboxRow → Bool
has_event_id event row = row.coordinator_event_id =t= event

module _ {A : Type 0} (P : A → Type 0) where
  All-take : (n : ℕ) (xs : List A) → All P xs → All P (take n xs)
  All-take zero xs h = tt
  All-take (suc n) [] h = tt
  All-take (suc n) (x ∷ xs) h = (h.0, All-take n xs h.1)

  All-insert_sorted :
      (le : A → A → Bool) (x : A) (xs : List A) → P x → All P xs → All P (insert_sorted le x xs)
  unfolding insert_sorted
  All-insert_sorted le x [] hx h = (hx, tt)
  All-insert_sorted le x (y ∷ ys) hx h = elim (Bool-cases (le x y)) [
    | inl first ↦ rw first (hx, h)
    | inr second ↦ rw second (h.0, All-insert_sorted le x ys hx h.1)
  ]

  All-sort_by : (le : A → A → Bool) (xs : List A) → All P xs → All P (sort_by le xs)
  unfolding sort_by
  All-sort_by le [] h = tt
  All-sort_by le (x ∷ xs) h = All-insert_sorted le x (sort_by le xs) h.0 (All-sort_by le xs h.1)

module _ (event : String) where
  -- The row is no longer to be delivered, if it is the event's.
  abbrev pub Settled : OutboxRow → Type 0
  Settled row = has_event_id event row ≡ true → is_waiting row ≡ false

  -- The event is in the outbox and no longer to be delivered.
  pub record IsDone (s : Database) : Type 0 where
    pub there : any (has_event_id event) s.outbox ≡ true
    pub settled : All Settled s.outbox

  selected :
      (strategy : String) (rows : List OutboxRow)
      → All Settled rows
      → All (λ r. has_event_id event r ≡ false) (select_where (is_open strategy) rows)
  unfolding select_where
  selected strategy [] h = tt
  selected strategy (r ∷ rs) h = elim (Bool-cases (is_open strategy r)) [
    | inl hit ↦ rw hit (ground (arith, h.0, hit), selected strategy rs h.1)
    | inr miss ↦ rw miss (selected strategy rs h.1)
  ]

  -- A poll does not read the event.
  pub open_rows-others :
      (strategy : String) (limit : ℕ) (rows : List OutboxRow)
      → All Settled rows
      → All (λ r. has_event_id event r ≡ false) (open_rows strategy limit rows)
  unfolding open_rows
  open_rows-others strategy limit rows h =
      All-take _ (max 1 (min limit 1000)) _ (All-sort_by _ _ _ (selected strategy rows h))

  others_ids :
      (rows : List OutboxRow)
      → All (λ r. has_event_id event r ≡ false) rows
      → is_one_of event (map (λ (o : OutboxRow). o.coordinator_event_id) rows) ≡ false
  others_ids [] h = refl
  others_ids (r ∷ rs) h = rw (eq_comm event r.coordinator_event_id, h.0) (others_ids rs h.1)

  outbox-IsDone :
      (q : OutboxRow → Bool) (f : OutboxRow → OutboxRow) (s : Database)
      → ((r : OutboxRow) → has_event_id event (f r) ≡ has_event_id event r)
      → ((r : OutboxRow) → q r ≡ true → Settled r → Settled (f r))
      → IsDone s
      → IsDone (record s { outbox = update_where q f s.outbox })
  outbox-IsDone q f s same keep h = record {
    there = any-update (has_event_id event) q f same s.outbox ∙ h.there;
    settled = All-update Settled q f keep s.outbox h.settled;
  }

  taken :
      (row : OutboxRow) (rows : List OutboxRow)
      → has_event_id event row ≡ true
      → any (has_event_id event) rows ≡ true
      → any (same_delivery row) rows ≢ false
  taken row [] own there free = cc
  taken row (r ∷ rs) own there free =
      let same : has_event_id event r ≡ (r.coordinator_event_id =t= row.coordinator_event_id) =
        ap (λ k. r.coordinator_event_id =t= k)
          (sym ((eq_iff row.coordinator_event_id event).0 own)) in
      elim (Bool-cases (has_event_id event r)) [
        | inl hit ↦ ground (arith, same, hit)
        | inr miss ↦ taken row rs own (ground (arith, miss)) (ground (arith, free))
      ]

  -- The rows that an event brings: INSERT OR IGNORE keeps out a second row of the id.
  insert_delivery-IsDone :
      (row : OutboxRow) (s : Database)
      → IsDone s
      → IsDone (record s { outbox = insert_delivery row s.outbox })
  unfolding insert_delivery insert_row
  insert_delivery-IsDone row s h = elim (Bool-cases (any (same_delivery row) s.outbox)) [
    | inl there ↦ rw there h
    | inr free ↦ rw free (record {
      there = any-insert (has_event_id event) row s.outbox ∙ rw (h.there);
      settled =
          All-append Settled s.outbox (row ∷ []) h.settled
            (λ own. absurd (taken row s.outbox own h.there free), tt);
    })
  ]

  pub deliver-IsDone :
      (settings : Settings) (now : ℕ) (message : Message) (targets : List String) (s : Database)
      → IsDone s
      → IsDone (record s { outbox = deliver settings now message targets s.outbox })
  unfolding deliver
  deliver-IsDone settings now message [] s h = h
  deliver-IsDone settings now message (target ∷ rest) s h =
      deliver-IsDone settings now message rest
        (record s { outbox = insert_delivery (new_delivery settings now message target) s.outbox })
        (insert_delivery-IsDone (new_delivery settings now message target) s h)

  polled-IsDone :
      (now : ℕ) (strategy : String) (limit : ℕ)
      → Keeps IsDone (
          gets (λ s. open_rows strategy limit s.outbox) >>= λ rows.
          modify (λ s. record s {
            outbox =
                update_where
                  (λ (r : OutboxRow).
                    is_one_of r.coordinator_event_id
                      (map (λ (o : OutboxRow). o.coordinator_event_id) rows))
                  (mark_delivered now)
                  s.outbox;
          })
          >> pure (map (λ (r : OutboxRow). record r { attempts = r.attempts + 1 }) rows))
  unfolding ◌>>=◌ mark_delivered
  polled-IsDone now strategy limit = record {
    at = λ s h.
        outbox-IsDone _ (mark_delivered now) s (λ r. refl)
          (λ r hit g own. absurd (
            let unread =
              others_ids (open_rows strategy limit s.outbox)
                (open_rows-others strategy limit s.outbox h.settled) in
            let seen =
              subst
                (λ k.
                  is_one_of k (
                    map (λ (o : OutboxRow). o.coordinator_event_id)
                      (open_rows strategy limit s.outbox))
                  ≡ true)
                ((eq_iff r.coordinator_event_id event).0 own) hit in
            ground (arith, unread, seen)))
          h;
  }

  acknowledged-IsDone :
      (now : ℕ) (strategy key : String)
      → Keeps IsDone (
          modify (λ s. record s {
            outbox = update_where (is_open_event strategy key) (mark_acknowledged now) s.outbox;
          }))
  unfolding mark_acknowledged
  acknowledged-IsDone now strategy key =
      Keeps-modify _
        (λ s h. outbox-IsDone _ (mark_acknowledged now) s (λ r. refl) (λ r hit g own. refl) h)

  pub strategy_row-IsDone : (strategy : String) → Keeps IsDone (strategy_row strategy)
  unfolding strategy_row
  strategy_row-IsDone strategy = search keeps_rules

  pub poll-IsDone : (now : ℕ) (id : String) (limit : ℕ) → Keeps IsDone (poll_events now id limit)
  unfolding poll_events
  poll-IsDone now id limit = search (keeps_rules, strategy_row-IsDone, polled-IsDone) depth 12

  pub acknowledge-IsDone : (now : ℕ) (id key : String) → Keeps IsDone (acknowledge_event now id key)
  unfolding acknowledge_event
  acknowledge-IsDone now id key =
      search (keeps_rules, strategy_row-IsDone, acknowledged-IsDone) depth 14
