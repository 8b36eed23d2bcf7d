-- ===== src/Coordinator/Found.antt =====
-- What the statements of the coordinator (外置策略API/qmt_local_api/coordinator.py) leave of the row that an
-- order key finds.
use qmt_python_tcp.Prelude.{
  ℕ, String, ◌≡◌, inl, inr, refl, ◌∙◌, Bool, none, some, Option, List, if◌then◌else◌, ◌>>=◌, ◌>>◌,
  pure, modify, Keeps, Keeps-modify, Bool-cases, Option-cases, Result-cases,
}
use qmt_python_tcp.Table.{find_row, update_where, insert_row}
use qmt_python_tcp.Table.Laws.{find_row-insert, find_row-update}
use qmt_python_tcp.Coordinator.Rows.{
  Intent, Strategy, Command, Message, OutboxRow, Database, Settings,
}
use qmt_python_tcp.Coordinator.Identifiers.{next_sequence}
use qmt_python_tcp.Coordinator.Orders.{
  has_key, OrderRequest, Begun, fresh, insert_command, save_msg_id, persist_order, set_unknown,
  mark_row, clashes,
}
use qmt_python_tcp.Coordinator.Cancels.{new_cancel, target_row, persist_cancel}
use qmt_python_tcp.Coordinator.Events.{
  find_command, update_command, apply_event, take_event, update_found,
}
use qmt_python_tcp.Coordinator.Limits.{persist_order-cases}
use qmt_python_tcp.Coordinator.Kept.{StatementsKeep}

module _ (settings : Settings) (account strategy key : String) (r : Command) where
  -- The key of an order finds a row with the id and the intent hash of `r`.
  pub record IsFound (rows : List Command) : Type 0 where
    pub row : Command
    pub found : find_row (has_key account strategy key "NEW") rows ≡ some row
    pub same_id : row.command_id ≡ r.command_id
    pub same_intent : row.intent_hash ≡ r.intent_hash

  abbrev pub Finds : Database → Type 0
  Finds s = IsFound s.commands

  inserted : (row : Command) (rows : List Command) → IsFound rows → IsFound (insert_row row rows)
  inserted row rows h = record {
    row = h.row;
    found = rw find_row-insert (rw (h.found));
    same_id = h.same_id;
    same_intent = h.same_intent;
  }

  updated :
      (q : Command → Bool) (f : Command → Command) (rows : List Command)
      → ((c : Command)
          → has_key account strategy key "NEW" (f c) ≡ has_key account strategy key "NEW" c)
      → ((c : Command) → (f c).command_id ≡ c.command_id)
      → ((c : Command) → (f c).intent_hash ≡ c.intent_hash)
      → IsFound rows
      → IsFound (update_where q f rows)
  updated q f rows keys ids intents h = record {
    row = if q h.row then f h.row else h.row;
    found = find_row-update (has_key account strategy key "NEW") q f keys rows ∙ rw (h.found);
    same_id = elim (Bool-cases (q h.row)) [
      | inl hit ↦ rw hit (ids h.row ∙ h.same_id)
      | inr miss ↦ rw miss h.same_id
    ];
    same_intent = elim (Bool-cases (q h.row)) [
      | inl hit ↦ rw hit (intents h.row ∙ h.same_intent)
      | inr miss ↦ rw miss h.same_intent
    ];
  }

  insert_command-Finds :
      (row : Command) (b : Begun) (s : Database)
      → Finds s
      → Finds ((insert_command row >> pure b) s).1
  unfolding insert_command ◌>>=◌
  insert_command-Finds row b s h = elim (Bool-cases (clashes row s.commands)) [
    | inl clash ↦ rw clash h
    | inr free ↦ rw free (inserted row s.commands h)
  ]

  save_msg_id-Finds :
      (now : ℕ) (stages : List String) (request msg : String)
      → Keeps Finds (save_msg_id settings now stages request msg)
  unfolding save_msg_id ◌>>=◌
  save_msg_id-Finds now stages request msg = record {
    at = λ s h. updated _ _ s.commands (λ c. refl) (λ c. refl) (λ c. refl) h;
  }

  mark_row-Finds :
      (now : ℕ) (reason : String) (found : Option Command) → Keeps Finds (mark_row now reason found)
  unfolding mark_row set_unknown ◌>>=◌
  mark_row-Finds now reason none = record { at = λ s h. h }
  mark_row-Finds now reason (some row) = record {
    at = λ s h. updated _ _ s.commands (λ c. refl) (λ c. refl) (λ c. refl) h;
  }

  take_event-Finds : (now : ℕ) (message : Message) → Keeps Finds (take_event settings now message)
  unfolding take_event update_found update_command apply_event ◌>>=◌
  take_event-Finds now message = record {
    at = λ s h. elim (Option-cases (find_command settings message s.commands)) [
      | inl missing ↦ rw missing h
      | inr (row, found) ↦ rw found (updated _ _ s.commands (λ c. refl) (λ c. refl) (λ c. refl) h)
    ];
  }

  commands_kept :
      (m : Database → Database)
      → ((s : Database) → (m s).commands ≡ s.commands)
      → Keeps Finds (modify m)
  commands_kept m same = Keeps-modify m (λ s h. rw (same s) h)

  strategies-Finds :
      (f : Database → List Strategy) → Keeps Finds (modify (λ s. record s { strategies = f s }))
  strategies-Finds f = commands_kept _ (λ s. refl)

  outbox-Finds :
      (f : Database → List OutboxRow) → Keeps Finds (modify (λ s. record s { outbox = f s }))
  outbox-Finds f = commands_kept _ (λ s. refl)

  persist_order-Finds :
      (now : ℕ) (name : String) (request : OrderRequest) (intent : Intent) (quantity price : ℕ)
      → Keeps Finds (persist_order settings now name request intent quantity price)
  persist_order-Finds now name request intent quantity price = record {
    at = λ s h. elim (persist_order-cases settings now name request intent quantity price s) [
      | inl (e, refused) ↦ rw refused h
      | inr (row, p) ↦ rw p.result (inserted _ s.commands h)
    ];
  }

  persist_cancel-Finds :
      (now : ℕ) (name cancel target : String)
      → Keeps Finds (persist_cancel settings now name cancel target)
  unfolding persist_cancel ◌>>=◌
  persist_cancel-Finds now name cancel target = record {
    at = λ s h.
        elim (Result-cases
          (target_row (find_row (has_key settings.account_id name target "NEW") s.commands))) [
            | inr (e, bad) ↦ rw bad h
            | inl (row, good) ↦ rw good (
                insert_command-Finds
                  (new_cancel settings now name cancel target row (next_sequence s.commands))
                  (fresh
                    (new_cancel settings now name cancel target row (next_sequence s.commands)))
                  s h)
          ];
  }

  pub statements-Finds : StatementsKeep settings Finds
  statements-Finds = record {
    strategies = strategies-Finds;
    outbox = outbox-Finds;
    saved = save_msg_id-Finds;
    marked = mark_row-Finds;
    taken = take_event-Finds;
    ordered = persist_order-Finds;
    cancelled = persist_cancel-Finds;
  }
