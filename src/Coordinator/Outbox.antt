-- ===== src/Coordinator/Outbox.antt =====
-- What strategies read back (外置策略API/qmt_local_api/coordinator.py): their events, and their commands.
use qmt_python_tcp.Prelude.{
  ℕ, ◌+◌, min, max, String, Bool, Option, some, List, [], ◌∷◌, map, not, ◌&&◌, ◌||◌, ◌=t=◌,
  is_empty, or_text, strip, upper, ltb, ◌==◌, Action, value_error, pure, raise_if, gets, modify,
  transaction, ◌>>=◌, ◌>>◌, is_one_of, take, leb_text,
}
use qmt_python_tcp.Table.{find_row, select_where, count_where, update_where, sort_by}
use qmt_python_tcp.Coordinator.Rows.{Command, OutboxRow, Database, Settings}
use qmt_python_tcp.Coordinator.Identifiers.{valid_strategy_id}
use qmt_python_tcp.Coordinator.Stages.{is_terminal}
use qmt_python_tcp.Coordinator.Strategies.{strategy_row}
use qmt_python_tcp.Coordinator.Orders.{has_key}

-- `WHERE strategy_id=? AND state IN ('PENDING','DELIVERED')`
abbrev pub is_open : String → OutboxRow → Bool
is_open strategy row =
    row.strategy_id =t= strategy && is_one_of row.state ("PENDING" ∷ "DELIVERED" ∷ [])

-- `ORDER BY created_at,coordinator_event_id`
abbrev delivery_order : OutboxRow → OutboxRow → Bool
delivery_order a b =
    ltb a.created_at b.created_at
    || a.created_at == b.created_at && leb_text a.coordinator_event_id b.coordinator_event_id

unfoldable pub mark_delivered : ℕ → OutboxRow → OutboxRow
mark_delivered now row = record row {
  state = "DELIVERED";
  attempts = row.attempts + 1;
  last_delivered_at = some now;
}

-- the rows of one poll, as they were before it
unfoldable pub open_rows : String → ℕ → List OutboxRow → List OutboxRow
unfolding sort_by select_where
open_rows strategy limit rows =
    take (max 1 (min limit 1000)) (sort_by delivery_order (select_where (is_open strategy) rows))

unfoldable pub poll_events : ℕ → String → ℕ → Action Database (List OutboxRow)
poll_events now strategy_id limit = do
  let strategy = strip strategy_id
  raise_if (not (valid_strategy_id strategy)) value_error
  transaction (do
    row ← strategy_row strategy
    rows ← gets (λ s. open_rows strategy limit s.outbox)
    modify (λ s. record s {
      outbox =
          update_where
            (λ (r : OutboxRow).
              is_one_of r.coordinator_event_id
                (map (λ (o : OutboxRow). o.coordinator_event_id) rows))
            (mark_delivered now) s.outbox;
    })
    pure (map (λ (r : OutboxRow). record r { attempts = r.attempts + 1 }) rows))

-- `WHERE coordinator_event_id=? AND strategy_id=? AND state IN ('PENDING','DELIVERED')`
abbrev pub is_open_event : String → String → OutboxRow → Bool
is_open_event strategy event row = row.coordinator_event_id =t= event && is_open strategy row

unfoldable pub mark_acknowledged : ℕ → OutboxRow → OutboxRow
mark_acknowledged now row = record row { state = "ACKNOWLEDGED"; acknowledged_at = some now }

unfoldable pub acknowledge_event : ℕ → String → String → Action Database Bool
acknowledge_event now strategy_id event_id = do
  let strategy = strip strategy_id
  let event = strip event_id
  raise_if (not (valid_strategy_id strategy)) value_error
  raise_if (is_empty event) value_error
  transaction (do
    row ← strategy_row strategy
    changed ← gets (λ s. count_where (is_open_event strategy event) s.outbox)
    modify (λ s. record s {
      outbox = update_where (is_open_event strategy event) (mark_acknowledged now) s.outbox;
    })
    pure (changed == 1))

unfoldable pub get_command : Settings → String → String → String → Action Database (Option Command)
unfolding find_row valid_strategy_id
get_command settings strategy_id order_id kind = do
  raise_if (not (valid_strategy_id (strip strategy_id))) value_error
  gets (λ s.
      find_row
        (has_key settings.account_id (strip strategy_id) (strip order_id)
          (upper (or_text kind "NEW")))
        s.commands)

unfoldable pub pending_commands : Settings → Database → List Command
unfolding select_where is_terminal
pending_commands settings s =
    select_where
      (λ (c : Command). c.account_id =t= settings.account_id && not (is_terminal c.stage))
      s.commands
