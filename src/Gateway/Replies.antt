-- ===== src/Gateway/Replies.antt =====
-- The cache of replies by message id, `remember` and `cached_effect_reply`
-- (网关/bigqmt_gateway_proxy.py).
use qmt_python_tcp.Prelude.{
  ℕ, String, ◌⊎◌, inl, inr, Option, none, some, List, [], ◌∷◌, ◌++◌, not, ◌||◌, ◌=t=◌, is_empty,
  if◌then◌else◌, ltb, length, lookup, put, remove,
}
use qmt_python_tcp.Gateway.Runtime.{Done, Runtime, max_done, Code, conflict}

module _ {Reply : Type 0} where
  -- The loop that drops the oldest ids; every round takes one.
  unfoldable pub prune :
      ℕ → List String → List (String × Done Reply) → List String × List (String × Done Reply)
  unfolding remove
  prune limit [] done = ([], done)
  prune limit (old ∷ order) done =
      let rest = prune limit order (remove old done) in
      if ltb limit (length (old ∷ order)) then rest else (old ∷ order, done)

  unfoldable pub remember : String → Reply → String → Runtime Reply → Runtime Reply
  unfolding prune put
  remember msg_id reply fingerprint r =
      if is_empty msg_id
      then r
      else let (order, done) =
          prune max_done (r.done_order ++ msg_id ∷ [])
            (put msg_id (record { reply = reply; effect_fingerprint = fingerprint }) r.done) in
        record r { done = done; done_order = order }

  -- The `cached` mark of the copy is left out. `inl` is the kept reply.
  unfoldable pub cached_effect_reply : String → String → Runtime Reply → Option (Reply ⊎ Code)
  unfolding lookup
  cached_effect_reply msg_id fingerprint r =
      if is_empty msg_id then none else elim (lookup msg_id r.done) [
        | none ↦ none
        | some record_ ↦
            if is_empty record_.effect_fingerprint
              || not (record_.effect_fingerprint =t= fingerprint)
            then some (inr conflict)
            else some (inl record_.reply)
      ]
