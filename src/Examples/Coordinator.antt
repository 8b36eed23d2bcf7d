-- ===== src/Examples/Coordinator.antt =====
-- A coordinator (外置策略API/qmt_local_api/coordinator.py) with one strategy and a limit of 1000 on pending
-- orders, with the theorems applied to it.
use qmt_python_tcp.Prelude.{
  if◌then◌else◌, unavailable, some, ◌≤◌, All, err, false, ℕ, String, ◌≡◌, ◌⊎◌, refl, true, none,
  List, [], ◌∷◌, arith, strip, upper, lower, ◌>>=◌, ok,
}
use qmt_python_tcp.Table.{update_where, count_where, find_row, sum_where}
use qmt_python_tcp.Coordinator.Rows.{
  natural, Intent, order_intent, cancel_intent, Strategy, Command, Message, InboxRow, OutboxRow,
  Database, empty_database, Settings,
}
use qmt_python_tcp.Coordinator.Identifiers.{finite_positive, valid_strategy_id, next_sequence}
use qmt_python_tcp.Coordinator.Strategies.{register_strategy, strategy_row}
use qmt_python_tcp.Coordinator.Orders.{
  OrderRequest, order_problem, intent_of, finite_spread, pending_notional, known, begin_order,
  persist_order, check_limits, exceeds, insert_command, new_command,
}
use qmt_python_tcp.Coordinator.Events.{
  deliver, target_strategies, find_command, handle_event, take_event, update_found, update_command,
}
use qmt_python_tcp.Coordinator.Once.{begin_order-repeat}
use qmt_python_tcp.Coordinator.Limits.{persist_order-cases, IsPersisted, Refused}
use qmt_python_tcp.Coordinator.Runs.{
  Call, register_call, order_call, event_call, unknown_call, run, step,
}
use qmt_python_tcp.Coordinator.Stored.{Stores}
use qmt_python_tcp.Coordinator.Finality.{run-Stores}
use qmt_python_tcp.Coordinator.Outbox.{
  mark_delivered, open_rows, mark_acknowledged, poll_events, acknowledge_event,
}
use qmt_python_tcp.Coordinator.Acknowledged.{has_event_id}
use qmt_python_tcp.Coordinator.Polls.{acknowledged_not_polled}

abbrev intent_text : Intent → String
intent_text
      (order_intent symbol side quantity price price_type order_type order_remark spread
        business_order_type credit_mode) =
    symbol
intent_text (cancel_intent target_strategy_order_id order_id) = order_id

abbrev settings : Settings
settings = record {
  account_id = "A1";
  account_name = "main";
  max_order_notional = 0;
  max_pending_notional = 1000;
  sha256 = λ text. text;
  intent_hash = intent_text;
  message_hash = λ message. message.message_type;
  day = λ now. "20260101";
}

abbrev request : OrderRequest
request = record {
  strategy_id = "alpha";
  strategy_order_id = "o1";
  symbol = "600000.SH";
  side = "buy";
  quantity = natural 100;
  price = natural 6;
  price_type = 11;
  order_type = 23;
  order_remark = "";
  trace_id = "";
  spread = natural 0;
  business_order_type = "";
  credit_mode = "";
}

abbrev other_request : OrderRequest
other_request = record request { strategy_order_id = "o2" }

abbrev with_strategy : Database
with_strategy =
    step settings 1 (register_call "alpha" "a-token-of-20-chars." true 5 (natural 0) (natural 0))
      empty_database

abbrev with_order : Database
with_order = step settings 2 (order_call true request) with_strategy

abbrev calls : List (ℕ × Call)
calls =
    (2, order_call true request)
    ∷ (3, order_call true other_request)
    ∷ (4, order_call true request)
    ∷ []

-- The command that the request stores.
abbrev first_order : Command
first_order = record {
  command_id = 1;
  account_id = "A1";
  strategy_id = "alpha";
  strategy_order_id = "o1";
  action_kind = "NEW";
  intent_hash = "600000.SH";
  client_order_id = "main-alpha-20260101-000001";
  request_id = "main-alpha-20260101-000001-effect";
  target_command_id = none;
  symbol = "600000.SH";
  side = "BUY";
  quantity = 100;
  price = 6;
  notional = 600;
  stage = "GATEWAY_SUBMITTING";
  gateway_msg_id = "";
  order_id = "";
  order_sysid = "";
  qmt_user_order_id = "";
  intent = order_intent "600000.SH" "BUY" 100 6 11 23 "" (natural 0) "limit" "";
  detail = record {
    trace_id = "coordinator-main-alpha-20260101-000001";
    unknown_reason = none;
    last_event_type = none;
    last_event_at = none;
  };
  created_at = 2;
  updated_at = 2;
  terminal_at = none;
}

abbrev filled : Message
filled = record {
  message_type = "ORDER_STATUS";
  account_id = "A1";
  delivery_id = "d-1";
  request_id = "";
  client_order_id = "main-alpha-20260101-000001";
  qmt_user_order_id = "";
  order_id = "";
  order_sysid = "";
  stage = "FILLED";
  status = "";
  order_status = "";
  ready_is_false = false;
}

abbrev with_filled : Database
with_filled = step settings 5 (event_call filled) with_order

-- The second order would exceed the limit; the third is the first one again.
one_order_is_pending : pending_notional "A1" (run settings calls with_strategy) ≡ 600
unfolding run step pending_notional begin_order register_strategy order_problem finite_positive
    finite_spread find_row sum_where persist_order strategy_row check_limits exceeds insert_command
    new_command intent_of next_sequence strip upper lower ◌>>=◌
one_order_is_pending = refl

-- A filled order is pending no longer.
filled_is_released : pending_notional "A1" with_filled ≡ 0
unfolding run step pending_notional begin_order register_strategy order_problem finite_positive
    finite_spread find_row sum_where persist_order strategy_row check_limits exceeds insert_command
    new_command intent_of next_sequence strip upper lower ◌>>=◌ handle_event take_event update_found
    update_command find_command
filled_is_released = refl

persist_order-cases_example :
    Refused settings 3 "alpha" other_request
      (intent_of other_request 100 6 (natural 0))
      100
      6
      with_order
    ⊎ ((row : Strategy) × IsPersisted settings 3 "alpha" other_request
          (intent_of other_request 100 6 (natural 0))
          100
          6
          with_order
          row)
persist_order-cases_example =
    persist_order-cases settings 3 "alpha" other_request (intent_of other_request 100 6 (natural 0))
      100 6 with_order

first_order-Stores : Stores settings 1 first_order with_order
unfolding run step pending_notional begin_order register_strategy order_problem finite_positive
    finite_spread find_row sum_where persist_order strategy_row check_limits exceeds insert_command
    new_command intent_of next_sequence strip upper lower ◌>>=◌
first_order-Stores = record {
  there = refl;
  later = (
    λ _. record { strategy = refl; key = refl; intent = refl; client = refl; final = λ _. refl },
    tt,
  );
}

abbrev later_calls : List (ℕ × Call)
later_calls =
    (5, event_call filled)
    ∷ (6, unknown_call "main-alpha-20260101-000001-effect" "late")
    ∷ (7, order_call true request)
    ∷ []

run-Stores_example : Stores settings 1 first_order (run settings later_calls with_order)
run-Stores_example = run-Stores settings 1 first_order later_calls with_order first_order-Stores

-- The same request, after an event and a failed submission, when the coordinator is ready again.
begin_order-repeat_example :
    (again : Command) × (begin_order settings 9 true request (run settings later_calls with_order)
      ≡ (if true then ok (known again) else err unavailable, run settings later_calls with_order))
    × (again.command_id ≡ first_order.command_id)
    × (again.intent_hash ≡ first_order.intent_hash)
unfolding run step pending_notional begin_order register_strategy order_problem finite_positive
    finite_spread find_row sum_where persist_order strategy_row check_limits exceeds insert_command
    new_command intent_of next_sequence strip upper lower ◌>>=◌
begin_order-repeat_example =
    begin_order-repeat settings request 2 9 true true later_calls with_strategy with_order
      first_order refl

abbrev alpha : Strategy
alpha = record {
  strategy_id = "alpha";
  auth_token_hash = "";
  enabled = true;
  priority = 5;
  max_order_notional = 0;
  max_pending_notional = 0;
  created_at = 1;
  updated_at = 1;
}

-- an event for all strategies
abbrev status : Message
status = record filled {
  message_type = "QMT_STATUS";
  delivery_id = "d-2";
  client_order_id = "";
  stage = "";
}

abbrev first_delivery : OutboxRow
first_delivery = record {
  coordinator_event_id = "cev-1";
  event_key = "delivery:d-1";
  strategy_id = "alpha";
  source_event = filled;
  state = "DELIVERED";
  attempts = 1;
  created_at = 5;
  last_delivered_at = some 6;
  acknowledged_at = none;
}

abbrev second_delivery : OutboxRow
second_delivery = record {
  coordinator_event_id = "cev-delivery:d-2|alpha";
  event_key = "delivery:d-2";
  strategy_id = "alpha";
  source_event = status;
  state = "PENDING";
  attempts = 0;
  created_at = 9;
  last_delivered_at = none;
  acknowledged_at = none;
}

-- The outbox of the coordinator, with one event in the inbox once the second delivery is there.
abbrev outbox_of : List InboxRow → List OutboxRow → Database
outbox_of inbox outbox = record empty_database {
  strategies = alpha ∷ [];
  inbox = inbox;
  outbox = outbox;
}

abbrev status_event : InboxRow
status_event = record {
  event_key = "delivery:d-2";
  delivery_id = "d-2";
  account_id = "A1";
  message_type = "QMT_STATUS";
  command_id = none;
  event = status;
  received_at = 9;
}

abbrev first_acknowledged : OutboxRow
first_acknowledged = record first_delivery { state = "ACKNOWLEDGED"; acknowledged_at = some 8 }

-- the rows behind the poll
abbrev polled : Database
polled = outbox_of (status_event ∷ []) (
    first_acknowledged
    ∷ record second_delivery { state = "DELIVERED"; attempts = 1; last_delivered_at = some 10 }
    ∷ [])

first_is_acknowledged :
    acknowledge_event 8 "alpha" "cev-1" (outbox_of [] (first_delivery ∷ []))
    ≡ (ok true, outbox_of [] (first_acknowledged ∷ []))
unfolding acknowledge_event strategy_row ◌>>=◌ strip mark_acknowledged valid_strategy_id count_where
    update_where
first_is_acknowledged = refl

status_is_delivered :
    run settings ((9, event_call status) ∷ []) (outbox_of [] (first_acknowledged ∷ []))
    ≡ outbox_of (status_event ∷ []) (first_acknowledged ∷ second_delivery ∷ [])
unfolding run handle_event take_event update_found find_command deliver target_strategies ◌>>=◌
    strip upper
status_is_delivered = refl

-- A poll returns the second delivery alone.
second_is_polled :
    poll_events 10 "alpha" 100
      (run settings ((9, event_call status) ∷ []) (outbox_of [] (first_acknowledged ∷ [])))
    ≡ (ok (record second_delivery { attempts = 1 } ∷ []), polled)
unfolding poll_events strategy_row open_rows ◌>>=◌ strip valid_strategy_id mark_delivered
    update_where
second_is_polled = rw status_is_delivered

first_once : count_where (has_event_id (strip "cev-1")) (first_delivery ∷ []) ≤ 1
unfolding count_where strip
first_once = omega arith

acknowledged_not_polled_example :
    All (λ r. has_event_id (strip "cev-1") r ≡ false) (record second_delivery { attempts = 1 } ∷ [])
acknowledged_not_polled_example =
    acknowledged_not_polled settings 8 10 "alpha" "cev-1" "alpha" 100 ((9, event_call status) ∷ [])
      (outbox_of [] (first_delivery ∷ [])) (outbox_of [] (first_acknowledged ∷ [])) polled
      (record second_delivery { attempts = 1 } ∷ []) first_once first_is_acknowledged
      second_is_polled
