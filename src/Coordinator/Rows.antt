-- ===== src/Coordinator/Rows.antt =====
-- The tables of `AccountCoordinator` (外置策略API/qmt_local_api/coordinator.py), its attributes, and what its
-- methods are given. Amounts and times are natural numbers; JSON columns are kept as the values
-- that they encode.
use qmt_python_tcp.Prelude.{ℕ, String, Bool, Option, List, []}

-- a Python value that should be a number
pub data Number : Type 0 where
  natural negative : ℕ → Number
  not_finite no_number : Number

-- the `intent` dict of an order or of a cancellation
pub data Intent : Type 0 where
  order_intent :
      (symbol side : String) (quantity price price_type order_type : ℕ) (order_remark : String)
      (spread : Number) (business_order_type credit_mode : String)
      → Intent
  cancel_intent : (target_strategy_order_id order_id : String) → Intent

-- the `detail` dict of a command
pub record Detail : Type 0 where
  pub trace_id : String
  pub unknown_reason : Option String
  pub last_event_type : Option String
  pub last_event_at : Option ℕ

pub record Strategy : Type 0 where
  pub strategy_id : String
  pub auth_token_hash : String
  pub enabled : Bool
  pub priority : ℕ
  pub max_order_notional : ℕ
  pub max_pending_notional : ℕ
  pub created_at : ℕ
  pub updated_at : ℕ

pub record Command : Type 0 where
  pub command_id : ℕ
  pub account_id : String
  pub strategy_id : String
  pub strategy_order_id : String
  pub action_kind : String
  pub intent_hash : String
  pub client_order_id : String
  pub request_id : String
  pub target_command_id : Option ℕ
  pub symbol : String
  pub side : String
  pub quantity : ℕ
  pub price : ℕ
  pub notional : ℕ
  pub stage : String
  pub gateway_msg_id : String
  pub order_id : String
  pub order_sysid : String
  pub qmt_user_order_id : String
  pub intent : Intent
  pub detail : Detail
  pub created_at : ℕ
  pub updated_at : ℕ
  pub terminal_at : Option ℕ

pub record Reservation : Type 0 where
  pub command_id : ℕ
  pub account_id : String
  pub strategy_id : String
  pub notional : ℕ
  pub state : String
  pub release_reason : String
  pub created_at : ℕ
  pub updated_at : ℕ

-- A Gateway event; a missing or falsy text reads "". `ready_is_false` is the test
-- `qmt_status.get("ready") is False`.
pub record Message : Type 0 where
  pub message_type : String
  pub account_id : String
  pub delivery_id : String
  pub request_id : String
  pub client_order_id : String
  pub qmt_user_order_id : String
  pub order_id : String
  pub order_sysid : String
  pub stage : String
  pub status : String
  pub order_status : String
  pub ready_is_false : Bool

pub record InboxRow : Type 0 where
  pub event_key : String
  pub delivery_id : String
  pub account_id : String
  pub message_type : String
  pub command_id : Option ℕ
  pub event : Message
  pub received_at : ℕ

pub record OutboxRow : Type 0 where
  pub coordinator_event_id : String
  pub event_key : String
  pub strategy_id : String
  pub source_event : Message
  pub state : String
  pub attempts : ℕ
  pub created_at : ℕ
  pub last_delivered_at : Option ℕ
  pub acknowledged_at : Option ℕ

pub record Database : Type 0 where
  pub strategies : List Strategy
  pub commands : List Command
  pub reservations : List Reservation
  pub inbox : List InboxRow
  pub outbox : List OutboxRow

abbrev pub empty_database : Database
empty_database = record {
  strategies = [];
  commands = [];
  reservations = [];
  inbox = [];
  outbox = [];
}

-- What the coordinator is built with. SHA-256 of a text, of an intent's canonical JSON and of a
-- message's, and the local calendar day, are Python's libraries.
pub record Settings : Type 0 where
  pub account_id : String
  pub account_name : String
  pub max_order_notional : ℕ
  pub max_pending_notional : ℕ
  pub sha256 : String → String
  pub intent_hash : Intent → String
  pub message_hash : Message → String
  pub day : ℕ → String
