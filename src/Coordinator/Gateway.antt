-- ===== src/Coordinator/Gateway.antt =====
-- The Gateway around the database: readiness, reconciliation, and `submit_order` whole
-- (外置策略API/qmt_local_api/coordinator.py).
use qmt_python_tcp.Prelude.{
  ℕ, String, Bool, true, false, Option, none, some, List, [], ◌∷◌, ◌++◌, not, ◌&&◌, ◌||◌, ◌=t=◌,
  or_text, lower, if◌then◌else◌, ◌==◌, Result, unavailable, ok, err,
}
use qmt_python_tcp.Table.{count_where}
use qmt_python_tcp.Coordinator.Rows.{Command, Message, Database, Settings}
use qmt_python_tcp.Coordinator.Stages.{is_unknown}
use qmt_python_tcp.Coordinator.Orders.{
  OrderRequest, Begun, known, fresh, begin_order, save_msg_id, mark_unknown,
}
use qmt_python_tcp.Coordinator.Events.{handle_event}

-- The attributes of `AccountCoordinator` that change, and the requests that went to the Gateway.
pub record Coordinator : Type 0 where
  pub db : Database
  pub started : Bool
  pub halted : Bool
  pub sent : List String

-- What the ACCOUNT_STATUS query shows: `success` is true where it is missing, `ready` is the test
-- `account_status.get("ready") is True` of a dict, and a missing state reads "".
pub record StatusReply : Type 0 where
  pub success : Bool
  pub cache_fallback : Bool
  pub ready : Bool
  pub state : String

abbrev is_healthy : Option StatusReply → Bool
is_healthy none = false
is_healthy (some reply) =
    reply.success
    && not reply.cache_fallback
    && reply.ready
    && lower (or_text reply.state "ready") =t= "ready"

-- commands whose effect nobody knows
unfoldable pub unknown_count : Settings → Database → ℕ
unfolding count_where is_unknown
unknown_count settings s =
    count_where (λ (c : Command). c.account_id =t= settings.account_id && is_unknown c.stage)
      s.commands

-- `reconcile`; `connected` and `reply` are the Gateway's
unfoldable pub reconcile : Settings → Bool → Option StatusReply → Coordinator → Bool × Coordinator
unfolding unknown_count
reconcile settings connected reply c =
    if not connected then (false, record c { halted = true }) else (
      is_healthy reply && unknown_count settings c.db == 0,
      record c { halted = not (is_healthy reply && unknown_count settings c.db == 0) },
    )

-- `start`
unfoldable pub start :
    Settings → Bool → Bool → Option StatusReply → Coordinator → Bool × Coordinator
unfolding reconcile
start settings opened connected reply c =
    if not opened
    then (false, record c { halted = true })
    else reconcile settings connected reply (record c { started = true })

-- `_assert_ready_to_trade`
unfoldable pub is_ready : Bool → Coordinator → Bool
is_ready connected c = c.started && connected && not c.halted

-- The rest of `submit_order`: the call of the Gateway, which answers with a message id or raises,
-- and what follows.
unfoldable pub send_order :
    Settings → ℕ → Option String → Command → Coordinator → Result (Option Command) × Coordinator
unfolding mark_unknown save_msg_id
send_order settings now none row c = (
  err unavailable,
  record c {
    db = (mark_unknown settings now row.request_id "gateway_send_failed" c.db).1;
    halted = true;
    sent = c.sent ++ row.request_id ∷ [];
  },
)
send_order settings now (some msg_id) row c =
    let (result, db) =
      save_msg_id settings now ("GATEWAY_SUBMITTING" ∷ "BRIDGE_QUEUED" ∷ []) row.request_id msg_id
        c.db in
    (result, record c { db = db; sent = c.sent ++ row.request_id ∷ [] })

unfoldable pub after_begin :
    Settings
    → ℕ
    → Option String
    → Result Begun
    → Coordinator
    → Result (Option Command) × Coordinator
unfolding send_order
after_begin settings now answer (err e) c = (err e, c)
after_begin settings now answer (ok (known row)) c = (ok (some row), c)
after_begin settings now answer (ok (fresh row)) c = send_order settings now answer row c

unfoldable pub submit_order :
    Settings
    → ℕ
    → Bool
    → Option String
    → OrderRequest
    → Coordinator
    → Result (Option Command) × Coordinator
unfolding begin_order after_begin is_ready
submit_order settings now connected answer request c =
    let (begun, db) = begin_order settings now (is_ready connected c) request c.db in
    after_begin settings now answer begun (record c { db = db })

-- `_on_gateway_event` with the flag that it sets
unfoldable pub on_gateway_event :
    Settings → ℕ → Message → Coordinator → Result (Unit {0}) × Coordinator
unfolding handle_event
on_gateway_event settings now message c =
    let (result, db) = handle_event settings now message c.db in
    elim result [
      | ok halt ↦ (ok tt, record c { db = db; halted = c.halted || halt })
      | err e ↦ (err e, record c { db = db })
    ]
