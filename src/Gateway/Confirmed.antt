-- ===== src/Gateway/Confirmed.antt =====
-- Who confirms a delivery (网关/bigqmt_gateway_proxy.py).
use mathlib.Core.Path.{subst}
use qmt_python_tcp.Prelude.{
  ℕ, String, ◌≡◌, inl, inr, refl, sym, ap, ◌∙◌, Bool, true, false, Option, none, some, List, [],
  ◌∷◌, ◌++◌, ◌&&◌, ◌=t=◌, if◌then◌else◌, if-both, ◌==◌, any, arith, eq_iff, Bool-cases,
  Option-cases, &&-true, lookup, put, remove, lookup-put_self, lookup-put_other, lookup-remove_self,
  lookup-remove_other,
}
use qmt_python_tcp.Gateway.Confirm.{
  Waiter, Desk, is_set, is_primary, start_broadcast, end_broadcast, on_delivery_ack, admit, leave,
}

-- The desk, and who acknowledged what while being the primary session, newest first.
pub record Watched : Type 0 where
  pub desk : Desk
  pub acks : List (String × String)

abbrev pub has_ack : String → String → List (String × String) → Bool
has_ack session delivery_id acks = any (λ a. a.0 =t= session && a.1 =t= delivery_id) acks

abbrev pub ack_entry : String → String → Desk → List (String × String)
ack_entry session delivery_id d = if is_primary session d then (session, delivery_id) ∷ [] else []

-- What can happen while one broadcast waits on its event: other broadcasts have other events.
pub data DeskStep (event : ℕ) : Watched → Watched → Type 0 where
  acks :
      (d : Desk) (log : List (String × String)) (session delivery_id : String)
      → DeskStep event
          (record { desk = d; acks = log })
          (record {
            desk = on_delivery_ack session delivery_id d;
            acks = ack_entry session delivery_id d ++ log;
          })
  starts_other :
      (d d' : Desk) (log : List (String × String)) (closed : Bool) (delivery_id : String)
      (other : ℕ)
      → (other == event) ≡ false
      → start_broadcast closed delivery_id other d ≡ some d'
      → DeskStep event (record { desk = d; acks = log }) (record { desk = d'; acks = log })
  ends_other :
      (d : Desk) (log : List (String × String)) (delivery_id : String) (other : ℕ)
      → DeskStep event
          (record { desk = d; acks = log })
          (record { desk = end_broadcast delivery_id other d; acks = log })
  admits :
      (d : Desk) (log : List (String × String)) (session : String)
      → DeskStep event
          (record { desk = d; acks = log })
          (record { desk = admit session d; acks = log })
  leaves :
      (d : Desk) (log : List (String × String)) (session : String)
      → DeskStep event
          (record { desk = d; acks = log })
          (record { desk = leave session d; acks = log })

pub data DeskRun (event : ℕ) (first : Watched) : Watched → Type 0 where
  waiting_on : DeskRun event first first
  onwards : {w w' : Watched} → DeskRun event first w → DeskStep event w w' → DeskRun event first w'

some-desk : {a b : Desk} → some a ≡ some b → a ≡ b
some-desk e = ground arith

some-waiter : {a b : Waiter} → some a ≡ some b → a ≡ b
some-waiter e = ground arith

broadcast-opened :
    (d : Desk) (p k : String) (event : ℕ)
    → d.primary ≡ some p
    → start_broadcast false k event d
      ≡ some (record d { waiters = put k (record { target = p; event = event }) d.waiters })
unfolding start_broadcast
broadcast-opened d p k event is =
    subst
      (λ pr.
        start_broadcast false k event (record d { primary = pr })
        ≡ some (record d {
          primary = pr;
          waiters = put k (record { target = p; event = event }) d.waiters;
        }))
      (sym is) refl

module _ (target delivery_id : String) (event : ℕ) where
  -- The waiters with this event are this broadcast's, and if the event is set, its target has
  -- acknowledged its delivery.
  record IsHonest (w : Watched) : Type 0 where
    owns :
        (k : String) (v : Waiter)
        → lookup k w.desk.waiters ≡ some v
        → (v.event == event) ≡ true
        → (k ≡ delivery_id) × (v.target ≡ target)
    earned : is_set event w.desk.set_events ≡ true → has_ack target delivery_id w.acks ≡ true

  ack-IsHonest :
      (d : Desk) (log : List (String × String)) (session k : String)
      → IsHonest (record { desk = d; acks = log })
      → IsHonest
          (record { desk = on_delivery_ack session k d; acks = ack_entry session k d ++ log })
  unfolding on_delivery_ack
  ack-IsHonest d log session k h =
      let more_acks : has_ack target delivery_id log ≡ true
          → has_ack target delivery_id (ack_entry session k d ++ log) ≡ true =
        λ there. elim (Bool-cases (is_primary session d)) [
          | inl yes_primary ↦ rw yes_primary (ground (arith, there))
          | inr not_primary ↦ rw not_primary there
        ] in
      elim (Option-cases (lookup k d.waiters)) [
        | inl nobody ↦
            rw (on_delivery_ack, nobody)
              (record { owns = h.owns; earned = λ e. more_acks (h.earned e) })
        | inr (v, there) ↦ elim (Bool-cases (v.target =t= session && is_primary session d)) [
          | inr refused ↦
              rw (on_delivery_ack, there, refused)
                (record { owns = h.owns; earned = λ e. more_acks (h.earned e) })
          | inl fits ↦
              let (same, primary_one) =
                &&-true (v.target =t= session) (is_primary session d) fits in
              rw (on_delivery_ack, there, fits)
                (record {
                  owns = h.owns;
                  earned = λ e. elim (Bool-cases (v.event == event)) [
                    | inr other ↦ more_acks (h.earned (ground (arith, e, other)))
                    | inl own ↦
                        let (is_delivery, is_target) = h.owns k v there own in
                        let by_target : (session =t= target) ≡ true =
                          (eq_iff session target).1
                            (sym ((eq_iff v.target session).0 same) ∙ is_target) in
                        let for_delivery : (k =t= delivery_id) ≡ true =
                          (eq_iff k delivery_id).1 is_delivery in
                        rw primary_one (ground (arith, by_target, for_delivery))
                  ];
                })
        ]
      ]

  start-IsHonest :
      (d d' : Desk) (log : List (String × String)) (primary : Option String) (closed : Bool)
      (k : String) (other : ℕ)
      → d.primary ≡ primary
      → (other == event) ≡ false
      → start_broadcast closed k other d ≡ some d'
      → IsHonest (record { desk = d; acks = log })
      → IsHonest (record { desk = d'; acks = log })
  unfolding start_broadcast
  start-IsHonest d d' log none closed k other is different e h = absurd (
      let bad : start_broadcast closed k other d ≡ none = rw (start_broadcast, is) in
      let both = sym bad ∙ e in cc)
  start-IsHonest d d' log (some p) true k other is different e h = absurd (
      let bad : start_broadcast true k other d ≡ none = rw (start_broadcast, is) in
      let both = sym bad ∙ e in cc)
  start-IsHonest d d' log (some p) false k other is different e h =
      let waiter : Waiter = record { target = p; event = other } in
      let started : Desk = record d { waiters = put k waiter d.waiters } in
      let opened : start_broadcast false k other d ≡ some started =
        broadcast-opened d p k other is in
      let it_is : started ≡ d' = some-desk (sym opened ∙ e) in
      subst (λ z. IsHonest (record { desk = z; acks = log })) it_is
        (record {
          owns = λ k' v found own. elim (Bool-cases (k =t= k')) [
            | inr elsewhere ↦
                h.owns k' v (sym (lookup-put_other k' k waiter d.waiters elsewhere) ∙ found) own
            | inl same ↦ absurd (
                let placed =
                  subst (λ z. lookup z (put k waiter d.waiters) ≡ some waiter)
                    ((eq_iff k k').0 same) (lookup-put_self k waiter d.waiters) in
                let v_is : waiter ≡ v = some-waiter (sym placed ∙ found) in
                let bad : (other == event) ≡ true =
                  subst (λ w. (w.event == event) ≡ true) (sym v_is) own in
                cc)
          ];
          earned = h.earned;
        })

  end-IsHonest :
      (d : Desk) (log : List (String × String)) (k : String) (other : ℕ)
      → IsHonest (record { desk = d; acks = log })
      → IsHonest (record { desk = end_broadcast k other d; acks = log })
  unfolding end_broadcast
  end-IsHonest d log k other h = elim (Option-cases (lookup k d.waiters)) [
    | inl nobody ↦ rw (end_broadcast, nobody) h
    | inr (w, there) ↦ elim (Bool-cases (w.event == other)) [
      | inr foreign ↦ rw (end_broadcast, there, foreign) h
      | inl own ↦
          rw (end_broadcast, there, own)
            (record {
              owns = λ k' v found own'. elim (Bool-cases (k =t= k')) [
                | inr elsewhere ↦
                    h.owns k' v (sym (lookup-remove_other k' k d.waiters elsewhere) ∙ found) own'
                | inl same ↦ absurd (
                    let gone =
                      subst (λ z. lookup z (remove k d.waiters) ≡ none) ((eq_iff k k').0 same)
                        (lookup-remove_self k d.waiters) in
                    let bad = sym gone ∙ found in cc)
              ];
              earned = h.earned;
            })
    ]
  ]

  Step-IsHonest : {w w' : Watched} → DeskStep event w w' → IsHonest w → IsHonest w'
  unfolding admit leave
  Step-IsHonest (acks d log session k) h = ack-IsHonest d log session k h
  Step-IsHonest (starts_other d d' log closed k other different e) h =
      start-IsHonest d d' log d.primary closed k other refl different e h
  Step-IsHonest (ends_other d log k other) h = end-IsHonest d log k other h
  Step-IsHonest (admits d log session) h = record { owns = h.owns; earned = h.earned }
  Step-IsHonest (leaves d log session) h =
      if-both (λ (z : Desk). IsHonest (record { desk = z; acks = log })) (is_primary session d) _ _
        (record { owns = h.owns; earned = h.earned }) h

  Run-IsHonest : {w w' : Watched} → IsHonest w → DeskRun event w w' → IsHonest w'
  Run-IsHonest h waiting_on = h
  Run-IsHonest h (onwards run step) = Step-IsHonest step (Run-IsHonest h run)

-- Where a broadcast starts with a new event and a target: whatever other broadcasts, acknowledgements
-- and sessions come, if its event is set, its own target has acknowledged its own delivery since, as
-- the primary session.
pub confirmed_by_target :
    (d d' : Desk) (delivery_id target : String) (event : ℕ) {w : Watched}
    → d.primary ≡ some target
    → is_set event d.set_events ≡ false
    → ((k : String) (v : Waiter) → lookup k d.waiters ≡ some v → (v.event == event) ≡ false)
    → start_broadcast false delivery_id event d ≡ some d'
    → DeskRun event (record { desk = d'; acks = [] }) w
    → is_set event w.desk.set_events ≡ true
    → has_ack target delivery_id w.acks ≡ true
confirmed_by_target d d' delivery_id target event there unset unused e run set =
    let waiter : Waiter = record { target = target; event = event } in
    let started : Desk = record d { waiters = put delivery_id waiter d.waiters } in
    let it_is : started ≡ d' =
      some-desk (sym (broadcast-opened d target delivery_id event there) ∙ e) in
    let honest : IsHonest target delivery_id event (record { desk = started; acks = [] }) = record {
      owns = λ k v found own. elim (Bool-cases (delivery_id =t= k)) [
        | inr elsewhere ↦ absurd (
            let old =
              unused k v
                (sym (lookup-put_other k delivery_id waiter d.waiters elsewhere) ∙ found) in
            cc)
        | inl same ↦
            let is_k = (eq_iff delivery_id k).0 same in
            let placed =
              subst (λ z. lookup z (put delivery_id waiter d.waiters) ≡ some waiter) is_k
                (lookup-put_self delivery_id waiter d.waiters) in
            let v_is : waiter ≡ v = some-waiter (sym placed ∙ found) in
            (sym is_k, ap (λ x. x.target) (sym v_is))
      ];
      earned = λ already. absurd (let bad = sym unset ∙ already in cc);
    } in
    (Run-IsHonest target delivery_id event
        (subst (λ z. IsHonest target delivery_id event (record { desk = z; acks = [] })) it_is
          honest)
        run).earned
      set
