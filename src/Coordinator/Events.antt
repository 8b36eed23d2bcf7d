-- ===== src/Coordinator/Events.antt =====
-- Gateway events (外置策略API/qmt_local_api/coordinator.py): which command an event is about, what it does to
-- it, and which strategies see it.
use qmt_python_tcp.Prelude.{
  ℕ, String, Bool, false, Option, none, some, List, [], ◌∷◌, map, not, ◌&&◌, ◌||◌, ◌=t=◌, is_empty,
  or_text, strip, upper, if◌then◌else◌, ltb, ◌==◌, Action, coordinator_error, pure, raise_if, gets,
  modify, transaction, ◌>>=◌, ◌>>◌, any, is_one_of, join_texts, leb_text,
}
use qmt_python_tcp.Table.{select_where, update_where, insert_row, sort_by, last_row}
use qmt_python_tcp.Coordinator.Rows.{
  Strategy, Command, Reservation, Message, InboxRow, OutboxRow, Database, Settings,
}
use qmt_python_tcp.Coordinator.Stages.{is_terminal, stage_from_event}
use qmt_python_tcp.Coordinator.Identifiers.{first_chars}

-- `_event_key`
unfoldable pub event_key : Settings → Message → String
event_key settings message =
    if is_empty (strip message.delivery_id)
    then join_texts ("best-effort:" ∷ settings.message_hash message ∷ [])
    else join_texts ("delivery:" ∷ strip message.delivery_id ∷ [])

-- the identifiers that the loop of `_find_command_locked` tries, each with its column
abbrev pub keys_of : Message → List (String × (Command → String))
keys_of message =
    (strip message.request_id, λ c. c.request_id)
    ∷ (strip message.client_order_id, λ c. c.client_order_id)
    ∷ (strip message.qmt_user_order_id, λ c. c.qmt_user_order_id)
    ∷ (strip message.order_id, λ c. c.order_id)
    ∷ (strip message.order_sysid, λ c. c.order_sysid)
    ∷ []

unfoldable pub first_command :
    Settings → List (String × (Command → String)) → List Command → Option Command
unfolding last_row
first_command settings [] rows = none
first_command settings ((value, column) ∷ rest) rows =
    let later = first_command settings rest rows in
    if is_empty value
    then later
    else elim (last_row
        (λ (c : Command). c.account_id =t= settings.account_id && column c =t= value) rows) [
          | some row ↦ some row
          | none ↦ later
        ]

-- `_find_command_locked`
unfoldable pub find_command : Settings → Message → List Command → Option Command
unfolding first_command
find_command settings message rows = first_command settings (keys_of message) rows

-- The stage that the event leaves: a terminal one stays, and an event with no stage changes none.
unfoldable pub next_stage : Command → Message → String
unfolding is_terminal stage_from_event
next_stage row message =
    if is_terminal row.stage then row.stage else or_text (stage_from_event message) row.stage

-- The UPDATE of `_update_command_from_event_locked`: the values come from the row that was found.
unfoldable pub apply_event : ℕ → Message → Command → Command → Command
unfolding next_stage
apply_event now message found row = record row {
  stage = next_stage found message;
  order_id = or_text message.order_id found.order_id;
  order_sysid = or_text message.order_sysid found.order_sysid;
  qmt_user_order_id = or_text message.qmt_user_order_id found.qmt_user_order_id;
  detail = record (found.detail) {
    last_event_type = some message.message_type;
    last_event_at = some now;
  };
  updated_at = now;
  terminal_at = if is_terminal (next_stage found message) then some now else found.terminal_at;
}

-- `WHERE command_id=? AND state='ACTIVE'`
abbrev pub is_held : ℕ → Reservation → Bool
is_held command_id row = row.command_id == command_id && row.state =t= "ACTIVE"

unfoldable pub release : ℕ → String → Reservation → Reservation
release now reason row = record row {
  state = "RELEASED";
  release_reason = reason;
  updated_at = now;
}

-- `_update_command_from_event_locked`; the stage is its result
unfoldable pub update_command : ℕ → Message → Command → Action Database String
unfolding apply_event release update_where
update_command now message row = do
  modify (λ s. record s {
    commands =
        update_where (λ (c : Command). c.command_id == row.command_id) (apply_event now message row)
          s.commands;
  })
  modify (λ s. record s {
    reservations =
        if is_terminal (next_stage row message)
        then update_where (is_held row.command_id) (release now (next_stage row message))
            s.reservations
        else s.reservations;
  })
  pure (next_stage row message)

-- `ORDER BY priority DESC,strategy_id`
abbrev strategy_order : Strategy → Strategy → Bool
strategy_order a b =
    ltb b.priority a.priority || a.priority == b.priority && leb_text a.strategy_id b.strategy_id

-- `_target_strategies_locked`
unfoldable pub target_strategies : Message → Option Command → List Strategy → List String
unfolding sort_by select_where
target_strategies message (some row) strategies = row.strategy_id ∷ []
target_strategies message none strategies =
    if is_one_of (upper message.message_type) ("QMT_STATUS" ∷ "RECONCILE_REQUIRED" ∷ [])
    then map (λ (r : Strategy). r.strategy_id)
        (sort_by strategy_order (select_where (λ (r : Strategy). r.enabled) strategies))
    else []

abbrev id_of : Option Command → Option ℕ
id_of none = none
id_of (some row) = some row.command_id

-- the first 24 hexadecimal digits of the hash
unfoldable pub event_id : Settings → String → String → String
unfolding first_chars
event_id settings key strategy =
    join_texts
      ("cev-" ∷ first_chars 24 (settings.sha256 (join_texts (key ∷ "|" ∷ strategy ∷ []))) ∷ [])

unfoldable pub new_delivery : Settings → ℕ → Message → String → OutboxRow
unfolding event_id event_key
new_delivery settings now message strategy = record {
  coordinator_event_id = event_id settings (event_key settings message) strategy;
  event_key = event_key settings message;
  strategy_id = strategy;
  source_event = message;
  state = "PENDING";
  attempts = 0;
  created_at = now;
  last_delivered_at = none;
  acknowledged_at = none;
}

-- INSERT OR IGNORE: PRIMARY KEY (coordinator_event_id), UNIQUE (event_key, strategy_id)
abbrev pub same_delivery : OutboxRow → OutboxRow → Bool
same_delivery new row =
    row.coordinator_event_id =t= new.coordinator_event_id
    || row.event_key =t= new.event_key && row.strategy_id =t= new.strategy_id

unfoldable pub insert_delivery : OutboxRow → List OutboxRow → List OutboxRow
unfolding insert_row
insert_delivery row rows = if any (same_delivery row) rows then rows else insert_row row rows

unfoldable pub deliver : Settings → ℕ → Message → List String → List OutboxRow → List OutboxRow
unfolding insert_delivery new_delivery
deliver settings now message [] rows = rows
deliver settings now message (strategy ∷ rest) rows =
    deliver settings now message rest
      (insert_delivery (new_delivery settings now message strategy) rows)

abbrev pub has_event : String → InboxRow → Bool
has_event key row = row.event_key =t= key

unfoldable pub update_found : ℕ → Message → Option Command → Action Database String
unfolding update_command
update_found now message none = pure ""
update_found now message (some row) = update_command now message row

unfoldable pub new_event : Settings → ℕ → Message → Option Command → InboxRow
unfolding event_key
new_event settings now message found = record {
  event_key = event_key settings message;
  delivery_id = message.delivery_id;
  account_id = settings.account_id;
  message_type = message.message_type;
  command_id = id_of found;
  event = message;
  received_at = now;
}

-- Does the event halt trading, given the stage that it left?
unfoldable pub halts : Message → String → Bool
halts message stage =
    message.message_type =t= "RECONCILE_REQUIRED"
    || stage =t= "UNKNOWN"
    || message.message_type =t= "QMT_STATUS" && message.ready_is_false

-- the body of `_on_gateway_event` for an event that is not in the inbox; the result is `halts`
unfoldable pub take_event : Settings → ℕ → Message → Action Database Bool
unfolding update_found new_event halts
take_event settings now message = do
  found ← gets (λ s. find_command settings message s.commands)
  stage ← update_found now message found
  modify (λ s. record s { inbox = insert_row (new_event settings now message found) s.inbox })
  modify (λ s. record s {
    outbox = deliver settings now message (target_strategies message found s.strategies) s.outbox;
  })
  pure (halts message stage)

-- `_on_gateway_event`. The source halts trading inside the transaction, at a place behind which
-- nothing raises.
unfoldable pub handle_event : Settings → ℕ → Message → Action Database Bool
handle_event settings now message = do
  raise_if
      (not (is_empty (strip message.account_id))
        && not (strip message.account_id =t= settings.account_id))
      coordinator_error
  transaction (do
    duplicate ← gets (λ s. any (has_event (event_key settings message)) s.inbox)
    if duplicate then pure false else take_event settings now message)
