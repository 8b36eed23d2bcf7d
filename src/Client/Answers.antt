-- ===== src/Client/Answers.antt =====
-- Whose messages the waiting threads of a query broker (外置策略API/qmt_local_api/query_broker.py)
-- read.
use mathlib.Core.Path.{subst}
use qmt_python_tcp.Prelude.{
  ◌⊎◌, Bool, true, false, refl, Option, ℕ, ◌≤◌, String, ◌≡◌, inl, inr, sym, ap, ◌∙◌, none, some,
  List, [], ◌∷◌, ◌++◌, ◌=t=◌, is_empty, leb, value_error, runtime_error, ok, err, arith, eq_iff,
  length, Bool-cases, Option-cases, lookup, put, remove, lookup-put_self, lookup-put_other,
  lookup-remove_self, lookup-remove_other, length-remove, length-put, length-put-some,
}
use qmt_python_tcp.Client.Broker.{
  Message, Pending, Broker, new_pending, new_broker, begin_request, answer, waiter, end_request,
  resolve, query_cancelled, cancellation, detach_all, cancel_item,
}
use qmt_python_tcp.Client.Flight.{if-ok}

-- The threads that ask, the poll thread that resolves, and the loss of the connection, whose loop
-- over the detached queries may be interrupted. A message id that is asked with is new.
pub data BrokerStep : Broker → Broker → Type 0 where
  begins :
      (b b' : Broker) (msg_id : String)
      → lookup msg_id b.detached ≡ none
      → begin_request msg_id b ≡ ok b'
      → BrokerStep b b'
  resolves : (b : Broker) (message : Message) → BrokerStep b (resolve message b).1
  detaches : (b : Broker) → BrokerStep b (detach_all b)
  cancels : (b : Broker) (msg_id : String) → BrokerStep b (cancel_item msg_id b)
  ends : (b : Broker) (msg_id : String) → BrokerStep b (end_request msg_id b)

pub data BrokerRun (first : Broker) : Broker → Type 0 where
  asked : BrokerRun first first
  moves_on : {b b' : Broker} → BrokerRun first b → BrokerStep b b' → BrokerRun first b'

-- What this object holds is for this message id, or says that the query is cancelled.
abbrev pub IsFor : String → Pending → Type 0
IsFor msg_id p = (m : Message) → p.response ≡ some m → (m.msg_id ≡ msg_id) ⊎ (m ≡ query_cancelled)

abbrev pub AllFor : List (String × Pending) → Type 0
AllFor ps = (k : String) (p : Pending) → lookup k ps ≡ some p → IsFor k p

some-same : {A : Type 0} {a b : A} → some a ≡ some b → a ≡ b
some-same e = ground arith

put-AllFor :
    (k : String) (p : Pending) (ps : List (String × Pending))
    → IsFor k p
    → AllFor ps
    → AllFor (put k p ps)
put-AllFor k p ps own h k' p' e = elim (Bool-cases (k =t= k')) [
  | inl same ↦
      let is = (eq_iff k k').0 same in
      let e' : lookup k' (put k p ps) ≡ some p =
        subst (λ z. lookup z (put k p ps) ≡ some p) is (lookup-put_self k p ps) in
      subst (IsFor k') (some-same (sym e' ∙ e)) (subst (λ z. IsFor z p) is own)
  | inr other ↦ h k' p' (sym (lookup-put_other k' k p ps other) ∙ e)
]

remove-AllFor : (k : String) (ps : List (String × Pending)) → AllFor ps → AllFor (remove k ps)
remove-AllFor k ps h k' p' e = elim (Bool-cases (k =t= k')) [
  | inl same ↦
      let gone =
        subst (λ z. lookup z (remove k ps) ≡ none) ((eq_iff k k').0 same)
          (lookup-remove_self k ps) in
      absurd (let bad = sym gone ∙ e in cc)
  | inr other ↦ h k' p' (sym (lookup-remove_other k' k ps other) ∙ e)
]

lookup-append :
    (key : String) (ps qs : List (String × Pending))
    → (lookup key (ps ++ qs) ≡ lookup key ps) ⊎ (lookup key (ps ++ qs) ≡ lookup key qs)
unfolding lookup
lookup-append key [] qs = inr refl
lookup-append key ((k, p) ∷ ps) qs = elim (Bool-cases (k =t= key)) [
  | inl same ↦ inl (rw same)
  | inr other ↦ rw other (lookup-append key ps qs)
]

append-AllFor : (ps qs : List (String × Pending)) → AllFor ps → AllFor qs → AllFor (ps ++ qs)
append-AllFor ps qs g h k p e = elim (lookup-append k ps qs) [
  | inl left ↦ g k p (sym left ∙ e)
  | inr right ↦ h k p (sym right ∙ e)
]

pub record IsOwn (b : Broker) : Type 0 where
  pub in_pending : AllFor b.pending
  pub in_detached : AllFor b.detached
  pub bounded : length b.pending ≤ b.max_pending

resolve-IsOwn : (message : Message) (b : Broker) → IsOwn b → IsOwn (resolve message b).1
unfolding resolve
resolve-IsOwn message b h = elim (Bool-cases (is_empty message.msg_id)) [
  | inl anonymous ↦ rw (resolve, anonymous) h
  | inr named ↦ elim (Option-cases (lookup message.msg_id b.pending)) [
    | inl free ↦ rw (resolve, named, free) h
    | inr (p, there) ↦
        rw (resolve, named, there)
          (record {
            in_pending =
                put-AllFor message.msg_id (record { event = true; response = some message })
                  b.pending (λ m e. inl (ap (λ x. x.msg_id) (sym (some-same e)))) h.in_pending;
            in_detached = h.in_detached;
            bounded = omega (
              arith,
              h.bounded,
              length-put-some message.msg_id (record { event = true; response = some message }) p
                  b.pending there,
            );
          })
  ]
]

cancel_item-IsOwn : (msg_id : String) (b : Broker) → IsOwn b → IsOwn (cancel_item msg_id b)
unfolding cancel_item
cancel_item-IsOwn msg_id b h = elim (Option-cases (lookup msg_id b.detached)) [
  | inl gone ↦ rw (cancel_item, gone) h
  | inr (p, there) ↦
      rw (cancel_item, there)
        (record {
          in_pending = h.in_pending;
          in_detached =
              put-AllFor msg_id cancellation b.detached (λ m e. inr (sym (some-same e)))
                h.in_detached;
          bounded = h.bounded;
        })
]

Step-IsOwn : {b b' : Broker} → BrokerStep b b' → IsOwn b → IsOwn b'
unfolding end_request detach_all begin_request
Step-IsOwn (begins b b' msg_id unused e) h =
    elim (Bool-cases (leb b.max_pending (length b.pending))) [
      | inl full ↦ absurd (let bad : err runtime_error ≡ ok b' = sym (rw full) ∙ e in cc)
      | inr space ↦
          let begun : record b { pending = put msg_id new_pending b.pending } ≡ b' =
            if-ok (leb b.max_pending (length b.pending)) runtime_error _ b' e in
          subst IsOwn begun (record {
            in_pending = put-AllFor msg_id new_pending b.pending (λ m bad. absurd cc) h.in_pending;
            in_detached = h.in_detached;
            bounded = ground (arith, space, length-put msg_id new_pending b.pending);
          })
    ]
Step-IsOwn (resolves b message) h = resolve-IsOwn message b h
Step-IsOwn (detaches b) h = record {
  in_pending = λ k p e. absurd (unfold lookup in cc);
  in_detached = append-AllFor b.pending b.detached h.in_pending h.in_detached;
  bounded = omega arith;
}
Step-IsOwn (cancels b msg_id) h = cancel_item-IsOwn msg_id b h
Step-IsOwn (ends b msg_id) h = record {
  in_pending = remove-AllFor msg_id b.pending h.in_pending;
  in_detached = remove-AllFor msg_id b.detached h.in_detached;
  bounded = omega (arith, h.bounded, length-remove msg_id b.pending);
}

Run-IsOwn : {first b : Broker} → IsOwn first → BrokerRun first b → IsOwn b
Run-IsOwn h asked = h
Run-IsOwn h (moves_on run step) = Step-IsOwn step (Run-IsOwn h run)

waiter-IsFor :
    {b : Broker}
    → IsOwn b
    → (msg_id : String) (p : Pending) → waiter msg_id b ≡ some p
    → IsFor msg_id p
unfolding waiter
waiter-IsFor {b} h msg_id p there = elim (Option-cases (lookup msg_id b.detached)) [
  | inr (q, out) ↦
      let it_is : some q ≡ some p = sym (rw (waiter, out)) ∙ there in
      h.in_detached msg_id p (out ∙ it_is)
  | inl inside ↦ h.in_pending msg_id p (sym (rw (waiter, inside)) ∙ there)
]

-- An answer is what the third read found.
answer-third :
    (event : Bool) (first second third : Option Message) (m : Message)
    → answer event first second third ≡ some m
    → third ≡ some m
answer-third false first second third m e = absurd cc
answer-third true none second third m e = e
answer-third true (some x) none third m e = absurd cc
answer-third true (some x) (some y) third m e = elim (Bool-cases (y.cancelled)) [
  | inl off ↦ absurd (let bad : none ≡ some m = sym (rw off) ∙ e in cc)
  | inr live ↦ sym (rw live) ∙ e
]

answer-live :
    (event : Bool) (found : Option Message) (m : Message)
    → answer event found found found ≡ some m
    → m.cancelled ≡ false
answer-live false found m e = absurd cc
answer-live true none m e = absurd cc
answer-live true (some x) m e = elim (Bool-cases (x.cancelled)) [
  | inl off ↦ absurd (let bad : none ≡ some m = sym (rw off) ∙ e in cc)
  | inr live ↦
      let it_is : some x ≡ some m = sym (rw live) ∙ e in
      ap (λ y. y.cancelled) (sym (some-same it_is)) ∙ live
]

-- In every run from a broker without queries, in which a waiting thread reads its response three
-- times, with any steps of the others between: what it returns is a message with the id that it asked
-- with, or the message QUERY_CANCELLED; and if the three reads found the same, it is the former. No
-- more queries are pending than the broker's bound.
pub answers_its_own :
    (max_pending : ℕ) {first b1 b2 b3 : Broker}
    → new_broker max_pending ≡ ok first
    → BrokerRun first b1
    → BrokerRun b1 b2
    → BrokerRun b2 b3
    → (msg_id : String) (event : Bool) (p1 p2 p3 : Pending) (m : Message)
    → waiter msg_id b1 ≡ some p1
    → waiter msg_id b2 ≡ some p2
    → waiter msg_id b3 ≡ some p3
    → answer event p1.response p2.response p3.response ≡ some m
    → ((m.msg_id ≡ msg_id) ⊎ (m ≡ query_cancelled))
      × (p1.response ≡ p3.response → p2.response ≡ p3.response → m.msg_id ≡ msg_id)
      × (length b3.pending ≤ b3.max_pending)
answers_its_own max_pending {first} {b1} {b2} {b3} e run1 run2 run3 msg_id event p1 p2 p3 m w1 w2 w3
      returned =
    let empty : Broker = record { max_pending = max_pending; pending = []; detached = [] } in
    let is_new : empty ≡ first = if-ok (leb max_pending 0) value_error empty first e in
    let own_empty : IsOwn empty = record {
      in_pending = λ k p bad. absurd (unfold lookup in cc);
      in_detached = λ k p bad. absurd (unfold lookup in cc);
      bounded = omega arith;
    } in
    let h = Run-IsOwn (Run-IsOwn (Run-IsOwn (subst IsOwn is_new own_empty) run1) run2) run3 in
    let held =
      waiter-IsFor h msg_id p3 w3 m
        (answer-third event p1.response p2.response p3.response m returned) in
    (
      held,
      λ same1 same2.
          let live = answer-live event p3.response m (
            subst (λ x. answer event x p3.response p3.response ≡ some m) same1
              (subst (λ x. answer event p1.response x p3.response ≡ some m) same2 returned)) in
          elim held [
            | inl own ↦ own
            | inr off ↦ absurd (let bad = ap (λ x. x.cancelled) off in cc)
          ],
      h.bounded,
    )
