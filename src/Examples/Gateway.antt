-- ===== src/Examples/Gateway.antt =====
-- The counters, lanes, pending responses, kept replies and confirmed deliveries of a gateway
-- (网关/bigqmt_gateway_proxy.py, 网关/bounded_io.py), with the theorems applied to them.
use qmt_python_tcp.Prelude.{
  ◌+◌, ◌≤◌, String, ◌≡◌, ◌↔◌, inl, refl, true, false, some, List, [], ◌∷◌, is_one_of, arith, length,
  lookup,
}
use qmt_python_tcp.Gateway.Runtime.{
  PendingItem, Runtime, max_effect_inflight, max_pending_responses, max_done, try_acquire_effect,
  try_reserve_command_capacity, occupied, try_reserve_pending_response, commit_pending_response,
  try_reserve_effect_request,
}
use qmt_python_tcp.Gateway.Replies.{remember, cached_effect_reply}
use qmt_python_tcp.Gateway.Tasks.{
  Phase, attached, admitted, running, owning, Task, System, attach, enter, acquire, own, Reach,
  here, next,
}
use qmt_python_tcp.Gateway.Held.{slots_held, request_held, total}
use qmt_python_tcp.Gateway.Leaks.{IsIdle, one_owner}
use qmt_python_tcp.Gateway.Rotation.{nth, ticks, every_id_is_selected}
use qmt_python_tcp.Gateway.Lanes.{
  new_lane, lane_full, reserve, release, run, runs, completes, called_back, LaneRun, opened, moved,
  lane_counts_calls,
}
use qmt_python_tcp.Gateway.Pending.{
  reserves, commits, PendingRun, loaded, then_step, pending_bounded,
}
use qmt_python_tcp.Gateway.Cache.{IsOrdered, remember-bounded, remembered_is_cached}
use qmt_python_tcp.Gateway.Confirm.{Desk, is_primary, start_broadcast, on_delivery_ack}
use qmt_python_tcp.Gateway.Confirmed.{
  has_ack, acks, DeskRun, waiting_on, onwards, confirmed_by_target,
}

abbrev quiet : Runtime String
quiet = record {
  effect_inflight = 0;
  last_gateway_enqueue_seq = 0;
  command_capacity_reserved = 0;
  command_enqueue_total = 0;
  command_depth_sample_enqueue_total = 0;
  command_queue_depth = 0;
  pending_responses = [];
  pending_response_reservations = [];
  effect_request_reservations = [];
  response_delivery_tasks = 0;
  response_fallback_cursor = 2;
  done = [];
  done_order = [];
}

abbrev idle : System String
idle = record { runtime = quiet; open_turns = 0; tasks = [] }

idle-IsIdle : IsIdle idle
unfolding lookup
idle-IsIdle = record {
  no_tasks = refl;
  no_slots = refl;
  no_capacity = refl;
  no_owners = λ request. refl;
}

abbrev task_at : Phase → Task
task_at phase = record { request = "r1"; fingerprint = "f1"; phase = phase; turn_open = true }

abbrev owning_system : System String
owning_system = record {
  runtime = record quiet {
    effect_inflight = 1;
    command_capacity_reserved = 1;
    effect_request_reservations = ("r1", "f1") ∷ [];
  };
  open_turns = 1;
  tasks = task_at owning ∷ [];
}

owning_run : Reach idle owning_system
unfolding try_reserve_command_capacity try_acquire_effect try_reserve_effect_request
owning_run =
    let r0 = record quiet { command_capacity_reserved = 1 } in
    let r1 = record r0 { effect_inflight = 1 } in
    next
      (next
        (next (next here (attach quiet 0 [] "r1" "f1"))
          (enter quiet 1 [] [] (task_at attached) refl))
        (acquire r0 1 [] [] (task_at admitted) refl))
      (own r1 1 [] [] (task_at running) refl)

abbrev finished_system : System String
finished_system = record {
  runtime = record quiet { command_enqueue_total = 1 };
  open_turns = 0;
  tasks = [];
}

one_owner_example :
    ((request : String) → total (request_held request) owning_system.tasks ≤ 1)
    × (total slots_held owning_system.tasks ≤ max_effect_inflight)
    × (owning_system.runtime.effect_inflight ≡ total slots_held owning_system.tasks)
one_owner_example = one_owner idle-IsIdle owning_run

abbrev three_ids : List String
three_ids = "a" ∷ "b" ∷ "c" ∷ []

second_selected : ticks 2 three_ids 2 quiet ≡ "c" ∷ "a" ∷ "b" ∷ "c" ∷ []
unfolding ticks
second_selected = refl

every_id_is_selected_example : is_one_of (nth three_ids 1) (ticks 2 three_ids 2 quiet) ≡ true
every_id_is_selected_example =
    every_id_is_selected 2 three_ids 2 quiet 1 (omega arith) (omega arith)

-- One worker and room for two: of three calls the last is refused, and it is taken once one has ended
-- and its callback has run.
lane_run :
    LaneRun
      (record { lane = new_lane 1 2; unfinished = []; ended = [] })
      (record {
        lane = record (new_lane 1 2) { pending = 2 };
        unfinished = "read" ∷ [];
        ended = "scan" ∷ [];
      })
unfolding run release
lane_run =
    let l = new_lane 1 2 in
    let l1 = record l { pending = 1 } in
    let l2 = record l { pending = 2 } in
    moved
      (moved
        (moved
          (moved
            (moved
              (moved (moved opened (runs l [] [] "write" true))
                (runs l1 ("write" ∷ []) [] "scan" true))
              (completes l2 ("scan" ∷ []) [] [] "write"))
            (runs l2 ("scan" ∷ []) ("write" ∷ []) "read" true))
          (called_back l2 ("scan" ∷ []) [] [] "write"))
        (runs l1 ("scan" ∷ []) [] "read" true))
      (completes l2 ("read" ∷ []) [] [] "scan")

lane_counts_calls_example :
    (2 ≡ length {A = String} ("read" ∷ []) + length {A = String} ("scan" ∷ []))
    × (length {A = String} ("read" ∷ []) + length {A = String} ("scan" ∷ []) ≤ 2)
    × (false ≡ false
        → ((reserve (record (new_lane 1 2) { pending = 2 })).0 ≡ lane_full)
          ↔ (length {A = String} ("read" ∷ []) + length {A = String} ("scan" ∷ []) ≡ 2))
lane_counts_calls_example = lane_counts_calls 1 2 lane_run

abbrev pending_item : PendingItem
pending_item = record { fingerprint = "f1"; response_captured = false; ready_response = false }

pending_run : PendingRun quiet (record quiet { pending_responses = ("r1", pending_item) ∷ [] })
unfolding try_reserve_pending_response commit_pending_response
pending_run = then_step (then_step loaded (reserves quiet "r1" "f1" false)) (
    commits (record quiet { pending_response_reservations = ("r1", "f1") ∷ [] }) "r1" pending_item
      (inl (unfold lookup in refl)))

pending_bounded_example :
    occupied (record quiet { pending_responses = ("r1", pending_item) ∷ [] })
    ≤ max_pending_responses
pending_bounded_example = pending_bounded (omega arith) pending_run

remember-bounded_example :
    IsOrdered (remember "m1" "sent" "f1" quiet).done_order (remember "m1" "sent" "f1" quiet).done
    × (length (remember "m1" "sent" "f1" quiet).done_order ≤ max_done)
remember-bounded_example =
    remember-bounded "m1" "sent" "f1" quiet (λ k v e. absurd (unfold lookup in cc)) (omega arith)

remembered_is_cached_example :
    cached_effect_reply "m1" "f1" (remember "m1" "sent" "f1" quiet) ≡ some (inl "sent")
remembered_is_cached_example = remembered_is_cached "m1" "sent" "f1" "f1" quiet refl refl refl

abbrev desk : Desk
desk = record { primary = some "s1"; waiters = []; set_events = [] }

abbrev waiting_desk : Desk
waiting_desk = record desk { waiters = ("d1", record { target = "s1"; event = 4 }) ∷ [] }

-- An acknowledgement by a session that is no target is passed over, and the one by the target counts.
desk_run :
    DeskRun 4
      (record { desk = waiting_desk; acks = [] })
      (record { desk = record waiting_desk { set_events = 4 ∷ [] }; acks = ("s1", "d1") ∷ [] })
unfolding on_delivery_ack is_primary lookup
desk_run =
    onwards (onwards waiting_on (acks waiting_desk [] "s0" "d1")) (acks waiting_desk [] "s1" "d1")

confirmed_by_target_example : has_ack "s1" "d1" (("s1", "d1") ∷ []) ≡ true
unfolding start_broadcast
confirmed_by_target_example =
    confirmed_by_target desk waiting_desk "d1" "s1" 4 refl refl
      (λ k v e. absurd (unfold lookup in cc)) refl desk_run refl
