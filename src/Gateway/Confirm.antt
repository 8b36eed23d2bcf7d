-- ===== src/Gateway/Confirm.antt =====
-- The confirmed deliveries of one account: `broadcast_confirmed` and the acknowledgements of its
-- client (网关/bigqmt_gateway_proxy.py).
use qmt_python_tcp.Prelude.{
  ℕ, String, Bool, false, Option, none, some, List, ◌∷◌, ◌&&◌, ◌=t=◌, if◌then◌else◌, ◌==◌, any,
  lookup, put, remove,
}

-- An entry of `delivery_waiters`: the session, and which event object waits.
pub record Waiter : Type 0 where
  pub target : String
  pub event : ℕ

-- `primary` and `delivery_waiters`, and the event objects that are set. A session is its name here.
pub record Desk : Type 0 where
  pub primary : Option String
  pub waiters : List (String × Waiter)
  pub set_events : List ℕ

abbrev pub is_set : ℕ → List ℕ → Bool
is_set event events = any (λ e. e == event) events

-- `runtime.primary is session`
unfoldable pub is_primary : String → Desk → Bool
is_primary session d = elim (d.primary) [ none ↦ false | some p ↦ p =t= session ]

-- `broadcast_confirmed`, up to the call of `send`; `none` where it returns false. `closed` is the
-- target's. The event is a new object.
unfoldable pub start_broadcast : Bool → String → ℕ → Desk → Option Desk
unfolding put
start_broadcast closed delivery_id event d = elim (d.primary) [
  | none ↦ none
  | some target ↦
      if closed
      then none
      else some (record d {
        waiters = put delivery_id (record { target = target; event = event }) d.waiters;
      })
]

-- its `finally`
unfoldable pub end_broadcast : String → ℕ → Desk → Desk
unfolding lookup remove
end_broadcast delivery_id event d = elim (lookup delivery_id d.waiters) [
  | none ↦ d
  | some w ↦ if w.event == event then record d { waiters = remove delivery_id d.waiters } else d
]

-- the branch of `dispatch` for a DELIVERY_ACK
unfoldable pub on_delivery_ack : String → String → Desk → Desk
unfolding lookup is_primary
on_delivery_ack session delivery_id d = elim (lookup delivery_id d.waiters) [
  | none ↦ d
  | some w ↦
      if w.target =t= session && is_primary session d
      then record d { set_events = w.event ∷ d.set_events }
      else d
]

-- a session becomes the primary one, and ends
unfoldable pub admit : String → Desk → Desk
admit session d = record d { primary = some session }

unfoldable pub leave : String → Desk → Desk
unfolding is_primary
leave session d = if is_primary session d then record d { primary = none } else d
