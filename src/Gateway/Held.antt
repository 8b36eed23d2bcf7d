-- ===== src/Gateway/Held.antt =====
-- What the tasks of the effectful branch of `dispatch` (网关/bigqmt_gateway_proxy.py) hold, as sums
-- over the tasks, and how a step of one task changes them.
use mathlib.Core.Path.{subst}
use qmt_python_tcp.Prelude.{
  ℕ, ◌+◌, ◌≤◌, String, ◌≡◌, inl, inr, refl, ap, false, Option, none, some, List, [], ◌∷◌, ◌++◌,
  ◌&&◌, ◌=t=◌, if◌then◌else◌, arith, eq_iff, Bool-cases, lookup, put, remove, lookup-put_self,
  lookup-put_other, lookup-remove_self, lookup-remove_other,
}
use qmt_python_tcp.Gateway.Runtime.{Runtime}
use qmt_python_tcp.Gateway.Tasks.{
  Phase, attached, admitted, slotless, running, owning, returning, closing, last, owns, Task,
  turn_ended,
}

abbrev pub capacity_of : Phase → ℕ
capacity_of attached = 0
capacity_of last = 0
capacity_of _ = 1

abbrev pub slot_of : Phase → ℕ
slot_of attached = 0
slot_of admitted = 0
slot_of slotless = 0
slot_of _ = 1

abbrev pub capacity_held : Task → ℕ
capacity_held t = capacity_of t.phase

abbrev pub slots_held : Task → ℕ
slots_held t = slot_of t.phase

abbrev pub request_held : String → Task → ℕ
request_held request t = if owns t.phase && t.request =t= request then 1 else 0

abbrev pub total : (Task → ℕ) → List Task → ℕ
total w [] = 0
total w (t ∷ ts) = w t + total w ts

pub total-insert :
    (w : Task → ℕ) (before : List Task) (t : Task) (after : List Task)
    → total w (before ++ t ∷ after) ≡ w t + total w (before ++ after)
total-insert w [] t after = refl
total-insert w (b ∷ before) t after = omega (arith, total-insert w before t after)

abbrev pub entries : Option String → ℕ
entries none = 0
entries (some fingerprint) = 1

pub entries-le : (o : Option String) → entries o ≤ 1
entries-le none = omega arith
entries-le (some x) = omega arith

module _ (before after : List Task) (t : Task) where
  abbrev at : Phase → List Task
  at p = before ++ record t { phase = p } ∷ after

  pub shift :
      (w : Task → ℕ) (p q : Phase)
      → total w (at q) + w (record t { phase = p }) ≡ total w (at p) + w (record t { phase = q })
  shift w p q = omega (
    arith,
    total-insert w before (record t { phase = q }) after,
    total-insert w before (record t { phase = p }) after,
  )

  -- the end of a task's turn, which counts for none of the sums
  pub unturned :
      (w : Task → ℕ) (p q : Phase)
      → total w (before ++ record (turn_ended t) { phase = q } ∷ after) + w (record t { phase = p })
        ≡ total w (at p) + w (record (turn_ended t) { phase = q })
  unturned w p q = omega (
    arith,
    total-insert w before (record (turn_ended t) { phase = q }) after,
    total-insert w before (record t { phase = p }) after,
  )

  pub unturned_kept :
      (p q : Phase) (request : String)
      → owns p ≡ owns q
      → total (request_held request) (before ++ record (turn_ended t) { phase = q } ∷ after)
        ≡ total (request_held request) (at p)
  unturned_kept p q request same = ground (arith, unturned (request_held request) p q)

  -- a step between phases that own the request id, or between phases that do not
  pub kept :
      (p q : Phase) (request : String)
      → owns p ≡ owns q
      → total (request_held request) (at q) ≡ total (request_held request) (at p)
  kept p q request same = ground (arith, shift (request_held request) p q)

  -- a step that takes the task away
  pub gone :
      (p : Phase) (request : String)
      → owns p ≡ false
      → total (request_held request) (before ++ after) ≡ total (request_held request) (at p)
  gone p request np =
      ground (arith, total-insert (request_held request) before (record t { phase = p }) after)

  pub owned :
      {Reply : Type 0} (r : Runtime Reply)
      → lookup t.request r.effect_request_reservations ≡ none
      → ((request : String)
          → total (request_held request) (at running)
            ≡ entries (lookup request r.effect_request_reservations))
      → (request : String)
      → total (request_held request) (at owning)
        ≡ entries (lookup request (put t.request t.fingerprint r.effect_request_reservations))
  owned r free h request = elim (Bool-cases (t.request =t= request)) [
    | inl same ↦
        let e = (eq_iff t.request request).0 same in
        rw
          (subst
            (λ k.
              lookup k (put t.request t.fingerprint r.effect_request_reservations)
              ≡ some t.fingerprint)
            e (lookup-put_self t.request t.fingerprint r.effect_request_reservations))
          (ground (
            arith,
            shift (request_held request) running owning,
            h request,
            ap entries (subst (λ k. lookup k r.effect_request_reservations ≡ none) e free),
          ))
    | inr other ↦
        rw (lookup-put_other request t.request t.fingerprint r.effect_request_reservations other)
          (ground (arith, shift (request_held request) running owning, h request, other))
  ]

  pub given_back :
      {Reply : Type 0} (r : Runtime Reply)
      → ((request : String)
          → total (request_held request) (at returning)
            ≡ entries (lookup request r.effect_request_reservations))
      → (request : String)
      → total (request_held request) (at closing)
        ≡ entries (lookup request (remove t.request r.effect_request_reservations))
  given_back r h request = elim (Bool-cases (t.request =t= request)) [
    | inl same ↦
        let e = (eq_iff t.request request).0 same in
        let held_once : request_held request (record t { phase = returning }) ≡ 1 = rw same in
        rw
          (subst (λ k. lookup k (remove t.request r.effect_request_reservations) ≡ none) e
            (lookup-remove_self t.request r.effect_request_reservations))
          (omega (
            arith,
            shift (request_held request) returning closing,
            h request,
            entries-le (lookup request r.effect_request_reservations),
            held_once,
          ))
    | inr other ↦
        rw (lookup-remove_other request t.request r.effect_request_reservations other)
          (ground (arith, shift (request_held request) returning closing, h request, other))
  ]

pub no_entry : (o : Option String) → entries o ≡ 0 → o ≡ none
no_entry none h = refl
no_entry (some x) h = absurd (omega arith)
