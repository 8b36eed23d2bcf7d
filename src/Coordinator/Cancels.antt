-- ===== src/Coordinator/Cancels.antt =====
-- `request_cancel` (外置策略API/qmt_local_api/coordinator.py) up to the call of the Gateway.
use qmt_python_tcp.Prelude.{
  ℕ, String, Bool, Option, none, some, not, ◌||◌, ◌=t=◌, is_empty, strip, upper, if◌then◌else◌,
  Action, Result, value_error, coordinator_conflict, unavailable, pure, raise_if, gets, transaction,
  lift, ◌>>=◌, ◌>>◌, ok, err,
}
use qmt_python_tcp.Table.{find_row}
use qmt_python_tcp.Coordinator.Rows.{
  Intent, order_intent, cancel_intent, Command, Database, Settings,
}
use qmt_python_tcp.Coordinator.Identifiers.{
  valid_strategy_id, client_order_id_of, request_id_of, next_sequence,
}
use qmt_python_tcp.Coordinator.Stages.{is_terminal}
use qmt_python_tcp.Coordinator.Orders.{has_key, Begun, known, fresh, insert_command}

abbrev target_of : Intent → String
target_of (order_intent _ _ _ _ _ _ _ _ _ _) = ""
target_of (cancel_intent target _) = target

existing_cancel : String → Command → Result Begun
existing_cancel target row =
    if target_of row.intent =t= target then ok (known row) else err coordinator_conflict

unfoldable pub new_cancel : Settings → ℕ → String → String → String → Command → ℕ → Command
unfolding client_order_id_of
new_cancel settings now strategy key target_key target sequence =
    let client = client_order_id_of settings now strategy sequence "-c" in
    let intent = cancel_intent target_key (strip target.order_id) in
    record {
      command_id = sequence;
      account_id = settings.account_id;
      strategy_id = strategy;
      strategy_order_id = key;
      action_kind = "CANCEL";
      intent_hash = settings.intent_hash intent;
      client_order_id = client;
      request_id = request_id_of client;
      target_command_id = some target.command_id;
      symbol = target.symbol;
      side = target.side;
      quantity = 0;
      price = 0;
      notional = 0;
      stage = "GATEWAY_SUBMITTING";
      gateway_msg_id = "";
      order_id = "";
      order_sysid = "";
      qmt_user_order_id = "";
      intent = intent;
      detail = record {
        trace_id = "";
        unknown_reason = none;
        last_event_type = none;
        last_event_at = none;
      };
      created_at = now;
      updated_at = now;
      terminal_at = none;
    }

-- the target must be this strategy's, not terminal, and known to QMT
pub target_row : Option Command → Result Command
unfolding is_terminal
target_row none = err coordinator_conflict
target_row (some row) =
    if is_terminal (upper row.stage)
    then err coordinator_conflict
    else if is_empty (strip row.order_id)
    then err coordinator_conflict
    else ok row

unfoldable pub persist_cancel : Settings → ℕ → String → String → String → Action Database Begun
unfolding target_row new_cancel
persist_cancel settings now strategy key target_key = do
  found ← gets (λ s. find_row (has_key settings.account_id strategy target_key "NEW") s.commands)
  target ← lift (target_row found)
  sequence ← gets (λ s. next_sequence s.commands)
  insert_command (new_cancel settings now strategy key target_key target sequence)
  pure (fresh (new_cancel settings now strategy key target_key target sequence))

unfoldable pub cancel_found :
    Settings → ℕ → String → String → String → Option Command → Action Database Begun
unfolding persist_cancel existing_cancel
cancel_found settings now strategy key target_key none =
    persist_cancel settings now strategy key target_key
cancel_found settings now strategy key target_key (some row) = lift (existing_cancel target_key row)

unfoldable pub begin_cancel : Settings → ℕ → Bool → String → String → String → Action Database Begun
unfolding cancel_found find_row valid_strategy_id
begin_cancel settings now ready strategy_id cancel_id target_id = do
  raise_if (not ready) unavailable
  raise_if
      (not (valid_strategy_id (strip strategy_id))
        || is_empty (strip cancel_id)
        || is_empty (strip target_id))
      value_error
  transaction (do
    found ← gets (λ s.
        find_row (has_key settings.account_id (strip strategy_id) (strip cancel_id) "CANCEL")
          s.commands)
    cancel_found settings now (strip strategy_id) (strip cancel_id) (strip target_id) found)
