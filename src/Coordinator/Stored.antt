-- ===== src/Coordinator/Stored.antt =====
-- What the statements of the coordinator (外置策略API/qmt_local_api/coordinator.py) leave of one command.
use qmt_python_tcp.Prelude.{
  ℕ, ◌<◌, String, ◌≡◌, inl, inr, refl, sym, ap, ◌∙◌, Bool, true, Option, none, some, List, [], ◌∷◌,
  ◌&&◌, ◌=t=◌, is_empty, ◌==◌, Result-cases, pure, modify, Keeps, Keeps-modify, ◌>>=◌, ◌>>◌, any,
  arith, All, All-append, Bool-cases, Option-cases,
}
use qmt_python_tcp.Table.{find_row, update_where, insert_row, last_row}
use qmt_python_tcp.Table.Laws.{All-update, any-insert, any-update, last_row-All}
use qmt_python_tcp.Coordinator.Rows.{
  Intent, Strategy, Command, Message, OutboxRow, Database, Settings,
}
use qmt_python_tcp.Coordinator.Identifiers.{next_sequence}
use qmt_python_tcp.Coordinator.Stages.{is_terminal}
use qmt_python_tcp.Coordinator.Orders.{
  has_key, OrderRequest, Begun, fresh, insert_command, new_command, save_msg_id, persist_order,
  set_unknown,
}
use qmt_python_tcp.Coordinator.Events.{find_command, update_command}
use qmt_python_tcp.Coordinator.Orders.{mark_row, clashes}
use qmt_python_tcp.Coordinator.Cancels.{new_cancel, target_row, persist_cancel}
use qmt_python_tcp.Coordinator.Events.{
  next_stage, first_command, keys_of, apply_event, take_event, update_found,
}
use qmt_python_tcp.Coordinator.Limits.{persist_order-cases}

abbrev pub has_id : ℕ → Command → Bool
has_id id c = c.command_id == id

-- How the command `r` may look later.
pub record IsLater (r c : Command) : Type 0 where
  pub strategy : c.strategy_id ≡ r.strategy_id
  pub key : c.strategy_order_id ≡ r.strategy_order_id
  pub intent : c.intent_hash ≡ r.intent_hash
  pub client : c.client_order_id ≡ r.client_order_id
  pub final : is_terminal r.stage ≡ true → c.stage ≡ r.stage

-- A stored id is below the next one.
id_below : (id : ℕ) (rows : List Command) → any (has_id id) rows ≡ true → id < next_sequence rows
unfolding next_sequence
id_below id [] h = cc
id_below id (c ∷ cs) h = ground (arith, id_below id cs)

module _ (settings : Settings) (id : ℕ) (r : Command) where
  abbrev pub Holds : Command → Type 0
  Holds c = has_id id c ≡ true → IsLater r c

  -- The id is in the table, and what stands under it is `r` or a later state of it.
  pub record IsStored (rows : List Command) : Type 0 where
    pub there : any (has_id id) rows ≡ true
    pub later : All Holds rows

  abbrev pub Stores : Database → Type 0
  Stores s = IsStored s.commands

  inserted-IsStored :
      (row : Command) (rows : List Command)
      → row.command_id ≡ next_sequence rows
      → IsStored rows
      → IsStored (insert_row row rows)
  unfolding insert_row
  inserted-IsStored row rows own h = record {
    there = any-insert (has_id id) row rows ∙ rw (h.there);
    later =
        All-append Holds rows (row ∷ []) h.later
          (λ e. absurd (ground (arith, id_below id rows h.there)), tt);
  }

  updated-IsStored :
      (q : Command → Bool) (f : Command → Command) (rows : List Command)
      → ((c : Command) → has_id id (f c) ≡ has_id id c)
      → ((c : Command) → q c ≡ true → Holds c → Holds (f c))
      → IsStored rows
      → IsStored (update_where q f rows)
  updated-IsStored q f rows same keep h = record {
    there = any-update (has_id id) q f same rows ∙ h.there;
    later = All-update Holds q f keep rows h.later;
  }

  insert_command-Stores :
      (row : Command) (b : Begun) (s : Database)
      → row.command_id ≡ next_sequence s.commands
      → Stores s
      → Stores ((insert_command row >> pure b) s).1
  unfolding insert_command ◌>>=◌
  insert_command-Stores row b s own h = elim (Bool-cases (clashes row s.commands)) [
    | inl clash ↦ rw clash h
    | inr free ↦ rw free (inserted-IsStored row s.commands own h)
  ]

  pub save_msg_id-Stores :
      (now : ℕ) (stages : List String) (request msg : String)
      → Keeps Stores (save_msg_id settings now stages request msg)
  unfolding save_msg_id ◌>>=◌
  save_msg_id-Stores now stages request msg = record {
    at = λ s h.
        updated-IsStored _ _ s.commands (λ c. refl)
          (λ c _ g e.
            let old = g e in
            record {
              strategy = old.strategy;
              key = old.key;
              intent = old.intent;
              client = old.client;
              final = old.final;
            })
          h;
  }

  pub mark_row-Stores :
      (now : ℕ) (reason : String) (found : Option Command)
      → Keeps Stores (mark_row now reason found)
  unfolding mark_row set_unknown ◌>>=◌
  mark_row-Stores now reason none = record { at = λ s h. h }
  mark_row-Stores now reason (some row) = record {
    at = λ s h.
        updated-IsStored _ _ s.commands (λ c. refl)
          (λ c hit g e.
            let old = g e in
            record {
              strategy = old.strategy;
              key = old.key;
              intent = old.intent;
              client = old.client;
              final = λ t. absurd (ground (arith, ap is_terminal (old.final t), hit, t));
            })
          h;
  }

  -- An event writes what it computes from the row that it found.
  applied-Holds :
      (now : ℕ) (message : Message) (found c : Command)
      → Holds found
      → found.command_id ≡ c.command_id
      → Holds c
      → Holds (apply_event now message found c)
  unfolding apply_event next_stage
  applied-Holds now message found c held same h e =
      let old = h e in
      let from = held (rw same e) in
      record {
        strategy = old.strategy;
        key = old.key;
        intent = old.intent;
        client = old.client;
        final = λ t. ground (arith, ap is_terminal (from.final t), from.final t, t);
      }

  first_command-Holds :
      (keys : List (String × (Command → String))) (rows : List Command) (found : Command)
      → All Holds rows
      → first_command settings keys rows ≡ some found
      → Holds found
  unfolding first_command
  first_command-Holds [] rows found h e = cc
  first_command-Holds ((value, column) ∷ rest) rows found h e =
      let p : Command → Bool = λ c. c.account_id =t= settings.account_id && column c =t= value in
      elim (Bool-cases (is_empty value)) [
        | inl empty ↦
            let go : first_command settings ((value, column) ∷ rest) rows
                ≡ first_command settings rest rows =
              rw empty in
            first_command-Holds rest rows found h (sym go ∙ e)
        | inr given ↦ elim (Option-cases (last_row p rows)) [
          | inl missing ↦
              let go : first_command settings ((value, column) ∷ rest) rows
                  ≡ first_command settings rest rows =
                rw (given, missing) in
              first_command-Holds rest rows found h (sym go ∙ e)
          | inr (row, hit) ↦
              let go : first_command settings ((value, column) ∷ rest) rows ≡ some row =
                rw (given, hit) in
              last_row-All p Holds rows found h (hit ∙ sym go ∙ e)
        ]
      ]

  find_command-Holds :
      (message : Message) (rows : List Command) (found : Command)
      → All Holds rows
      → find_command settings message rows ≡ some found
      → Holds found
  unfolding find_command
  find_command-Holds message rows found h e = first_command-Holds (keys_of message) rows found h e

  pub take_event-Stores :
      (now : ℕ) (message : Message) → Keeps Stores (take_event settings now message)
  unfolding take_event update_found update_command ◌>>=◌
  take_event-Stores now message = record {
    at = λ s h. elim (Option-cases (find_command settings message s.commands)) [
      | inl missing ↦ rw missing h
      | inr (row, found) ↦ rw found (
          updated-IsStored _ _ s.commands (λ c. refl)
            (λ c hit g.
              applied-Holds now message row c
                (find_command-Holds message s.commands row h.later found) (ground (arith, hit)) g)
            h)
    ];
  }

  commands_kept :
      (m : Database → Database)
      → ((s : Database) → (m s).commands ≡ s.commands)
      → Keeps Stores (modify m)
  commands_kept m same = Keeps-modify m (λ s h. rw (same s) h)

  pub strategies-Stores :
      (f : Database → List Strategy) → Keeps Stores (modify (λ s. record s { strategies = f s }))
  strategies-Stores f = commands_kept _ (λ s. refl)

  pub outbox-Stores :
      (f : Database → List OutboxRow) → Keeps Stores (modify (λ s. record s { outbox = f s }))
  outbox-Stores f = commands_kept _ (λ s. refl)

  pub persist_order-Stores :
      (now : ℕ) (strategy : String) (request : OrderRequest) (intent : Intent) (quantity price : ℕ)
      → Keeps Stores (persist_order settings now strategy request intent quantity price)
  unfolding new_command
  persist_order-Stores now strategy request intent quantity price = record {
    at = λ s h. elim (persist_order-cases settings now strategy request intent quantity price s) [
      | inl (e, refused) ↦ rw refused h
      | inr (row, p) ↦ rw p.result (inserted-IsStored _ s.commands refl h)
    ];
  }

  pub persist_cancel-Stores :
      (now : ℕ) (strategy key target : String)
      → Keeps Stores (persist_cancel settings now strategy key target)
  unfolding persist_cancel new_cancel ◌>>=◌
  persist_cancel-Stores now strategy key target = record {
    at = λ s h.
        elim (Result-cases
          (target_row (find_row (has_key settings.account_id strategy target "NEW") s.commands))) [
            | inr (e, bad) ↦ rw bad h
            | inl (row, good) ↦ rw good (
                insert_command-Stores
                  (new_cancel settings now strategy key target row (next_sequence s.commands))
                  (fresh
                    (new_cancel settings now strategy key target row (next_sequence s.commands)))
                  s refl h)
          ];
  }
