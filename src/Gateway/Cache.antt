-- ===== src/Gateway/Cache.antt =====
-- What the cache of replies (网关/bigqmt_gateway_proxy.py) keeps.
use mathlib.Core.Path.{subst}
use qmt_python_tcp.Prelude.{
  ℕ, ◌≤◌, String, ◌≡◌, inl, inr, sym, ◌∙◌, true, false, none, some, List, [], ◌∷◌, ◌++◌, ◌||◌,
  ◌=t=◌, is_empty, if◌then◌else◌, if-both, ltb, is_one_of, arith, eq_iff, eq_comm, length,
  Bool-cases, lookup, put, remove, lookup-put_self, lookup-put_other, lookup-remove_self,
  lookup-remove_other,
}
use qmt_python_tcp.Gateway.Runtime.{Done, Runtime, max_done, conflict}
use qmt_python_tcp.Gateway.Replies.{prune, remember, cached_effect_reply}

-- Every reply that is kept stands in the order of ids.
abbrev pub IsOrdered : {Reply : Type 0} → List String → List (String × Done Reply) → Type 0
IsOrdered {Reply} order done =
    (k : String) (v : Done Reply) → lookup k done ≡ some v → is_one_of k order ≡ true

append_last :
    (k id : String) (order : List String)
    → is_one_of k (order ++ id ∷ []) ≡ (is_one_of k order || (k =t= id))
append_last k id [] = ground arith
append_last k id (x ∷ order) = ground (arith, append_last k id order)

module _ {Reply : Type 0} where
  removed-IsOrdered :
      (old : String) (order : List String) (done : List (String × Done Reply))
      → IsOrdered (old ∷ order) done
      → IsOrdered order (remove old done)
  removed-IsOrdered old order done h k v e = elim (Bool-cases (old =t= k)) [
    | inl same ↦ absurd (
        let gone =
          subst (λ z. lookup z (remove old done) ≡ none) ((eq_iff old k).0 same)
            (lookup-remove_self old done) in
        let bad = sym gone ∙ e in cc)
    | inr other ↦
        let there = h k v (sym (lookup-remove_other k old done other) ∙ e) in
        ground (arith, there, other, eq_comm old k)
  ]

  prune-IsOrdered :
      (limit : ℕ) (order : List String) (done : List (String × Done Reply))
      → IsOrdered order done
      → IsOrdered (prune limit order done).0 (prune limit order done).1
  unfolding prune
  prune-IsOrdered limit [] done h = h
  prune-IsOrdered limit (old ∷ order) done h =
      let P : List String × List (String × Done Reply) → Type 0 = λ r. IsOrdered r.0 r.1 in
      if-both P (ltb limit (length (old ∷ order))) _ _
        (prune-IsOrdered limit order (remove old done) (removed-IsOrdered old order done h)) h

  length-prune :
      (limit : ℕ) (order : List String) (done : List (String × Done Reply))
      → length (prune limit order done).0 ≤ limit
  unfolding prune
  length-prune limit [] done = omega arith
  length-prune limit (old ∷ order) done = elim (Bool-cases (ltb limit (length (old ∷ order)))) [
    | inl long ↦ rw long (length-prune limit order (remove old done))
    | inr short ↦ rw short (ground (arith, short))
  ]

  put-IsOrdered :
      (id : String) (entry : Done Reply) (order : List String) (done : List (String × Done Reply))
      → IsOrdered order done
      → IsOrdered (order ++ id ∷ []) (put id entry done)
  put-IsOrdered id entry order done h k v e = elim (Bool-cases (id =t= k)) [
    | inl same ↦ ground (arith, append_last k id order, same, eq_comm id k)
    | inr other ↦
        let there = h k v (sym (lookup-put_other k id entry done other) ∙ e) in
        ground (arith, append_last k id order, there)
  ]

  -- From a cache of replies that keeps no reply whose id is not in its order, and at most 2000 ids:
  -- whatever is remembered, it still does.
  pub remember-bounded :
      (msg_id : String) (reply : Reply) (fingerprint : String) (r : Runtime Reply)
      → IsOrdered r.done_order r.done
      → length r.done_order ≤ max_done
      → IsOrdered
          (remember msg_id reply fingerprint r).done_order
          (remember msg_id reply fingerprint r).done
        × (length (remember msg_id reply fingerprint r).done_order ≤ max_done)
  unfolding remember
  remember-bounded msg_id reply fingerprint r h few = elim (Bool-cases (is_empty msg_id)) [
    | inl empty ↦ rw empty (h, few)
    | inr named ↦
        let entry : Done Reply = record { reply = reply; effect_fingerprint = fingerprint } in
        rw named (
          prune-IsOrdered max_done (r.done_order ++ msg_id ∷ []) (put msg_id entry r.done)
              (put-IsOrdered msg_id entry r.done_order r.done h),
          length-prune max_done (r.done_order ++ msg_id ∷ []) (put msg_id entry r.done),
        )
  ]

  prune-keeps :
      (limit : ℕ) (id : String) (entry : Done Reply) (order : List String)
      (done : List (String × Done Reply))
      → 1 ≤ limit
      → is_one_of id order ≡ false
      → lookup id done ≡ some entry
      → lookup id (prune limit (order ++ id ∷ []) done).1 ≡ some entry
  unfolding prune
  prune-keeps limit id entry [] done room new there =
      let fits : ltb limit 1 ≡ false = ground (arith, room) in rw fits there
  prune-keeps limit id entry (x ∷ order) done room new there =
      let other : (x =t= id) ≡ false = ground (arith, new, eq_comm x id) in
      let later : is_one_of id order ≡ false = ground (arith, new) in
      let P : List String × List (String × Done Reply) → Type 0 = λ r. lookup id r.1 ≡ some entry in
      if-both P (ltb limit (length (x ∷ order ++ id ∷ []))) _ _
        (prune-keeps limit id entry order (remove x done) room later
          (lookup-remove_other id x done other ∙ there))
        there

  cached-entry :
      (msg_id fingerprint other : String) (reply : Reply) (r : Runtime Reply)
      → is_empty msg_id ≡ false
      → is_empty fingerprint ≡ false
      → lookup msg_id r.done ≡ some (record { reply = reply; effect_fingerprint = fingerprint })
      → cached_effect_reply msg_id other r
        ≡ some (if fingerprint =t= other then inl reply else inr conflict)
  unfolding cached_effect_reply
  cached-entry msg_id fingerprint other reply r named printed kept =
      elim (Bool-cases (fingerprint =t= other)) [
        | inl same ↦ rw (cached_effect_reply, named, kept, printed, same)
        | inr different ↦ rw (cached_effect_reply, named, kept, printed, different)
      ]

  -- A reply that is remembered under an id that is not empty and was not yet in the order, with a
  -- fingerprint that is not empty, is the one that the next request with this id and the same
  -- fingerprint gets; one with another fingerprint is a conflict.
  pub remembered_is_cached :
      (msg_id : String) (reply : Reply) (fingerprint other : String) (r : Runtime Reply)
      → is_empty msg_id ≡ false
      → is_empty fingerprint ≡ false
      → is_one_of msg_id r.done_order ≡ false
      → cached_effect_reply msg_id other (remember msg_id reply fingerprint r)
        ≡ some (if fingerprint =t= other then inl reply else inr conflict)
  unfolding remember
  remembered_is_cached msg_id reply fingerprint other r named printed new =
      let entry : Done Reply = record { reply = reply; effect_fingerprint = fingerprint } in
      let kept : lookup msg_id (remember msg_id reply fingerprint r).done ≡ some entry = rw named (
        prune-keeps max_done msg_id entry r.done_order (put msg_id entry r.done) (omega arith) new
          (lookup-put_self msg_id entry r.done)) in
      cached-entry msg_id fingerprint other reply (remember msg_id reply fingerprint r) named
        printed kept
