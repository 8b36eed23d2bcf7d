-- ===== src/Examples/Correlation.antt =====
-- Runs of the order correlation store (网关/order_correlation.py) on small data, with the theorems
-- applied to them.
use qmt_python_tcp.Prelude.{
  ℕ, String, ◌≡◌, refl, Option, some, List, [], ◌∷◌, arith, ◌&&◌, ◌||◌, ◌=t=◌, is_one_of, strip,
  upper, lower, ◌>>=◌,
}
use qmt_python_tcp.Table.{count_where}
use qmt_python_tcp.Correlation.Rows.{OrderRow, EffectRow, Store, empty_store, OrderItem}
use qmt_python_tcp.Correlation.Orders.{get, new_row, reserve, update_stage}
use qmt_python_tcp.Correlation.Effects.{
  get_effect_request, reserve_effect_request, transition_effect_request, allowed_states,
}
use qmt_python_tcp.Correlation.Stage.{is_terminal, stage_rank}
use qmt_python_tcp.Correlation.Runs.{
  Op, can_delete, run, perform, reserve_call, stage_call, effect_call, transition_call, mark_call,
}
use qmt_python_tcp.Correlation.OrderHistory.{Advances, run-Advances}
use qmt_python_tcp.Correlation.EffectHistory.{SameBinding, run-SameBinding}
use qmt_python_tcp.Correlation.UniqueKeys.{HasUniqueOrders, HasUniqueEffects, run-HasUniqueKeys}
use qmt_python_tcp.Correlation.Events.{event_seen, events_seen_many, mark_events}
use qmt_python_tcp.Correlation.Seen.{is_marked, mark_events-seen, events_seen_many-holds}
use qmt_python_tcp.Correlation.Atomicity.{fails, failed_call_writes_nothing}

abbrev item : OrderItem
item = record {
  account_id = "A1";
  client_order_id = "c-1";
  trace_id = "t-1";
  msg_id = "m-1";
  request_id = "r-1";
  qmt_user_order_id = "q-1";
  trader_name = "trader";
  authenticated_trader_key = "";
  side = "BUY";
  order_type = some 23;
  intent_hash = "h-1";
  stage = "";
}

-- another client order under the QMT id that is taken
abbrev stolen : OrderItem
stolen = record item { client_order_id = "c-2"; msg_id = "m-2" }

abbrev dumps : String → Option String
dumps text = some text

abbrev dumps_item : String → String → String → Option String
dumps_item kind fingerprint body = some body

abbrev first_ops : List (ℕ × Op String String)
first_ops = (1, reserve_call item) ∷ (1, effect_call "A1" " r-1 " "ASYNC_ORDER" "f-1") ∷ []

abbrev one_order : Store
one_order = run dumps dumps_item first_ops empty_store

abbrev later_ops : List (ℕ × Op String String)
later_ops =
    (2, stage_call "A1" "c-1" "FILLED" "o-9" "")
    ∷ (3, stage_call "A1" "c-1" "QMT_SUBMITTED" "" "")
    ∷ (4, transition_call "A1" "r-1" "f-1" "enqueued" (some "{}") ("PREPARED" ∷ []))
    ∷ (5, effect_call "A1" "r-1" "cancel" "f-2")
    ∷ []

abbrev the_order : OrderRow
the_order = new_row 1 item 1

abbrev the_effect : EffectRow
the_effect = record {
  account_id = "A1";
  request_id = "r-1";
  kind = "async_order";
  fingerprint = "f-1";
  state = "PREPARED";
  result_json = "";
  created_at = 1;
  updated_at = 1;
}

-- The event that comes late changes nothing.
filled_stays :
    get "A1" "c-1" (run dumps dumps_item later_ops one_order)
    ≡ some (record the_order {
      stage = "FILLED";
      order_id = some "o-9";
      updated_at = 2;
      terminal_at = some 2;
    })
unfolding run perform reserve get reserve_effect_request transition_effect_request
    get_effect_request update_stage allowed_states is_terminal stage_rank ◌>>=◌ strip lower upper
filled_stays = refl

run-Advances_example :
    (r' : OrderRow) × (get "A1" "c-1" (run dumps dumps_item later_ops one_order) ≡ some r')
    × Advances the_order r'
unfolding run perform reserve get reserve_effect_request transition_effect_request
    get_effect_request update_stage allowed_states is_terminal stage_rank ◌>>=◌ strip lower upper
    can_delete
run-Advances_example =
    run-Advances dumps dumps_item later_ops one_order "A1" "c-1" the_order
      (λ h. h, (λ h. h, (λ h. h, (λ h. h, tt)))) refl

run-SameBinding_example :
    (e' : EffectRow) × (get_effect_request "A1" "r-1" (run dumps dumps_item later_ops one_order)
      ≡ some e')
    × SameBinding the_effect e'
unfolding run perform reserve get reserve_effect_request transition_effect_request
    get_effect_request update_stage allowed_states is_terminal stage_rank ◌>>=◌ strip lower upper
run-SameBinding_example =
    run-SameBinding dumps dumps_item later_ops one_order "A1" "r-1" the_effect refl

failed_call_writes_nothing_example :
    perform dumps dumps_item 9 (reserve_call stolen) one_order ≡ one_order
unfolding run perform reserve get reserve_effect_request transition_effect_request
    get_effect_request update_stage allowed_states is_terminal stage_rank ◌>>=◌ strip lower upper
    fails
failed_call_writes_nothing_example =
    failed_call_writes_nothing dumps dumps_item 9 (reserve_call stolen) one_order refl

run-HasUniqueKeys_example :
    HasUniqueOrders (run dumps dumps_item first_ops empty_store).orders
    × HasUniqueEffects (run dumps dumps_item first_ops empty_store).effects
unfolding count_where
run-HasUniqueKeys_example =
    run-HasUniqueKeys dumps dumps_item first_ops empty_store
      record {
        by_order = λ a b. omega arith;
        by_msg = λ a b. omega arith;
        by_qmt = λ a b. omega arith;
      }
      record { by_request = λ a b. omega arith }

mark_events-seen_example :
    event_seen "A1" "e-2"
      (perform dumps dumps_item 7 (mark_call "A1" ("e-1" ∷ "" ∷ "e-2" ∷ "e-1" ∷ [])) one_order)
    ≡ (event_seen "A1" "e-2" one_order
        || "A1" =t= "A1" && is_marked "e-2" ("e-1" ∷ "" ∷ "e-2" ∷ "e-1" ∷ []))
unfolding run perform reserve reserve_effect_request mark_events ◌>>=◌ strip lower
mark_events-seen_example =
    mark_events-seen 7 "A1" ("e-1" ∷ "" ∷ "e-2" ∷ "e-1" ∷ []) one_order
      (perform dumps dumps_item 7 (mark_call "A1" ("e-1" ∷ "" ∷ "e-2" ∷ "e-1" ∷ [])) one_order) 2
      refl "A1" "e-2"

abbrev one_event : Store
one_event = record empty_store {
  events = record { rowid = 1; account_id = "A1"; event_id = "e-1"; created_at = 3 } ∷ [];
}

events_seen_many-holds_example :
    is_one_of "e-1" ("e-1" ∷ [])
    ≡ (is_marked "e-1" ("e-2" ∷ "e-1" ∷ []) && event_seen "A1" "e-1" one_event)
unfolding events_seen_many ◌>>=◌
events_seen_many-holds_example =
    events_seen_many-holds "A1" ("e-2" ∷ "e-1" ∷ []) one_event one_event ("e-1" ∷ []) refl "e-1"
