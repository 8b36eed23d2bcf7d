-- ===== src/Correlation/Rows.antt =====
-- The four tables of `OrderCorrelationStore` (网关/order_correlation.py), their keys, and the
-- arguments of its methods. Timestamps are natural numbers: the code only copies and compares them.
use qmt_python_tcp.Prelude.{ℕ, ◌+◌, max, String, Bool, Option, List, [], ◌∷◌, ◌&&◌, ◌=t=◌}

-- CREATE TABLE order_correlation, with the rowid that SQLite gives each row
pub record OrderRow : Type 0 where
  pub rowid : ℕ
  pub account_id : String
  pub client_order_id : String
  pub trace_id : String
  pub msg_id : String
  pub request_id : String
  pub qmt_user_order_id : String
  pub trader_name : String
  pub authenticated_trader_key : String
  pub side : String
  pub order_type : ℕ
  pub intent_hash : String
  pub stage : String
  pub order_id : Option String
  pub order_sysid : Option String
  pub created_at : ℕ
  pub updated_at : ℕ
  pub terminal_at : Option ℕ

-- CREATE TABLE gateway_event_dedupe
pub record EventRow : Type 0 where
  pub rowid : ℕ
  pub account_id : String
  pub event_id : String
  pub created_at : ℕ

-- CREATE TABLE gateway_pending_response
pub record PendingRow : Type 0 where
  pub account_id : String
  pub request_id : String
  pub kind : String
  pub fingerprint : String
  pub item_json : String
  pub created_at : ℕ
  pub updated_at : ℕ

-- CREATE TABLE gateway_effect_request
pub record EffectRow : Type 0 where
  pub account_id : String
  pub request_id : String
  pub kind : String
  pub fingerprint : String
  pub state : String
  pub result_json : String
  pub created_at : ℕ
  pub updated_at : ℕ

pub record Store : Type 0 where
  pub orders : List OrderRow
  pub events : List EventRow
  pub pending : List PendingRow
  pub effects : List EffectRow

abbrev pub empty_store : Store
empty_store = record { orders = []; events = []; pending = []; effects = [] }

-- PRIMARY KEY (account_id, client_order_id)
abbrev pub has_order : String → String → OrderRow → Bool
has_order account client row = row.account_id =t= account && row.client_order_id =t= client

-- UNIQUE (account_id, msg_id)
abbrev pub has_msg : String → String → OrderRow → Bool
has_msg account msg row = row.account_id =t= account && row.msg_id =t= msg

-- UNIQUE (account_id, qmt_user_order_id)
abbrev pub has_qmt : String → String → OrderRow → Bool
has_qmt account qmt row = row.account_id =t= account && row.qmt_user_order_id =t= qmt

-- PRIMARY KEY (account_id, event_id)
abbrev pub has_event : String → String → EventRow → Bool
has_event account event row = row.account_id =t= account && row.event_id =t= event

-- PRIMARY KEY (account_id, request_id)
abbrev pub has_pending : String → String → PendingRow → Bool
has_pending account request row = row.account_id =t= account && row.request_id =t= request

-- PRIMARY KEY (account_id, request_id)
abbrev pub has_effect : String → String → EffectRow → Bool
has_effect account request row = row.account_id =t= account && row.request_id =t= request

-- the largest rowid in use, plus one
unfoldable pub next_rowid : List ℕ → ℕ
next_rowid [] = 1
next_rowid (n ∷ ns) = max (n + 1) (next_rowid ns)

-- What `reserve` reads of its dict: a missing value reads "", and `order_type` is absent where the
-- value is falsy or no number.
pub record OrderItem : Type 0 where
  pub account_id : String
  pub client_order_id : String
  pub trace_id : String
  pub msg_id : String
  pub request_id : String
  pub qmt_user_order_id : String
  pub trader_name : String
  pub authenticated_trader_key : String
  pub side : String
  pub order_type : Option ℕ
  pub intent_hash : String
  pub stage : String
