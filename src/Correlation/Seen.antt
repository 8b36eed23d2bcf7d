-- ===== src/Correlation/Seen.antt =====
-- Which events `event_seen` knows behind `mark_events` (网关/order_correlation.py).
use mathlib.Core.Path.{subst}
use qmt_python_tcp.Prelude.{
  ℕ, zero, suc, ◌-◌, ◌≤◌, String, ◌≡◌, inl, inr, sym, ap, ◌∙◌, Bool, true, false, List, [], ◌∷◌,
  ◌++◌, not, ◌&&◌, ◌||◌, ◌=t=◌, is_empty, ltb, Result, Result-cases, err-no-ok, value_error,
  ok-injective, ◌>>=◌, ok, err, any, is_one_of, arith, eq_iff, eq_comm, length, take, drop,
  length-drop, take-append-drop, Bool-cases, &&-true,
}
use qmt_python_tcp.Table.Laws.{any-insert}
use qmt_python_tcp.Correlation.Rows.{EventRow, Store, has_event}
use qmt_python_tcp.Correlation.Events.{
  event_query_chunk, event_seen, normalize_from, normalize_event_ids, mark_events, events_seen_many,
  insert_event, insert_events, seen_chunks, new_event, max_event_batch, seen_in_chunk,
}

is_one_of-append :
    (e raw : String) (result : List String)
    → is_one_of e (result ++ raw ∷ []) ≡ (is_one_of e result || e =t= raw)
is_one_of-append e raw [] = ground arith
is_one_of-append e raw (x ∷ xs) = ground (arith, is_one_of-append e raw xs)

-- Should the id of a list be marked?
abbrev pub is_marked : String → List String → Bool
is_marked e ids = not (is_empty e) && is_one_of e ids

normalize_from-skip :
    (result : List String) (raw : String) (raws : List String)
    → (is_empty raw || is_one_of raw result) ≡ true
    → normalize_from result (raw ∷ raws) ≡ normalize_from result raws
unfolding normalize_from
normalize_from-skip result raw raws skip = rw (normalize_from, skip)

normalize_from-take :
    (result : List String) (raw : String) (raws values : List String)
    → (is_empty raw || is_one_of raw result) ≡ false
    → normalize_from result (raw ∷ raws) ≡ ok values
    → normalize_from (result ++ raw ∷ []) raws ≡ ok values
unfolding normalize_from
normalize_from-take result raw raws values new h =
    elim (Bool-cases (ltb max_event_batch (length (result ++ raw ∷ [])))) [
      | inl full ↦
          let bad : normalize_from result (raw ∷ raws) ≡ err value_error =
            rw (normalize_from, new, full) in
          cc
      | inr fits ↦
          let go : normalize_from result (raw ∷ raws) ≡ normalize_from (result ++ raw ∷ []) raws =
            rw (normalize_from, new, fits) in
          sym go ∙ h
    ]

-- The values are those of the list that are not empty, with those that were there.
normalize_from-holds :
    (e : String) (result raws values : List String)
    → normalize_from result raws ≡ ok values
    → is_one_of e values ≡ (is_one_of e result || is_marked e raws)
normalize_from-holds e result [] values h =
    let same : result ≡ values = unfold normalize_from in ok-injective h in
    rw (← same) (ground arith)
normalize_from-holds e result (raw ∷ raws) values h =
    elim (Bool-cases (is_empty raw || is_one_of raw result)) [
      | inl skip ↦
          let ih =
            normalize_from-holds e result raws values
              (sym (normalize_from-skip result raw raws skip) ∙ h) in
          elim (Bool-cases (e =t= raw)) [
            | inl same ↦
                let own =
                  subst (λ x. (is_empty x || is_one_of x result) ≡ true)
                    (sym ((eq_iff e raw).0 same)) skip in
                ground (arith, ih, own, same)
            | inr other ↦ ground (arith, ih, other)
          ]
      | inr new ↦
          let ih =
            normalize_from-holds e (result ++ raw ∷ []) raws values
              (normalize_from-take result raw raws values new h) in
          elim (Bool-cases (e =t= raw)) [
            | inl same ↦
                let own =
                  subst (λ x. (is_empty x || is_one_of x result) ≡ false)
                    (sym ((eq_iff e raw).0 same)) new in
                ground (arith, ih, own, same, is_one_of-append e raw result)
            | inr other ↦ ground (arith, ih, other, is_one_of-append e raw result)
          ]
    ]

insert_event-holds :
    (now : ℕ) (account v a e : String) (rows : List EventRow)
    → any (has_event a e) (insert_event now account v rows)
      ≡ (any (has_event a e) rows || account =t= a && e =t= v)
unfolding insert_event new_event
insert_event-holds now account v a e rows = elim (Bool-cases (any (has_event account v) rows)) [
  | inl there ↦ rw there (elim (Bool-cases (account =t= a && v =t= e)) [
    | inl same ↦
        let (ea, ev) = &&-true (account =t= a) (v =t= e) same in
        rw (
          subst (λ x. any (has_event x e) rows ≡ true) ((eq_iff account a).0 ea)
            (subst (λ x. any (has_event account x) rows ≡ true) ((eq_iff v e).0 ev) there))
    | inr other ↦ ground (arith, other, eq_comm e v)
  ])
  | inr free ↦ rw free (any-insert (has_event a e) _ rows ∙ rw (eq_comm e v))
]

insert_events-holds :
    (now : ℕ) (account a e : String) (vs : List String) (rows : List EventRow)
    → any (has_event a e) (insert_events now account vs rows)
      ≡ (any (has_event a e) rows || account =t= a && is_one_of e vs)
unfolding insert_events
insert_events-holds now account a e [] rows = ground arith
insert_events-holds now account a e (v ∷ vs) rows = ground (
  arith,
  insert_events-holds now account a e vs (insert_event now account v rows),
  insert_event-holds now account v a e rows,
)

-- Behind a call of `mark_events` that returned, exactly the events that were known before it and the
-- non-empty ones of its list, for its account, are known.
pub mark_events-seen :
    (now : ℕ) (account : String) (ids : List String) (s s' : Store) (n : ℕ)
    → mark_events now account ids s ≡ (ok n, s')
    → (a e : String) → event_seen a e s' ≡ (event_seen a e s || account =t= a && is_marked e ids)
unfolding mark_events event_seen ◌>>=◌
mark_events-seen now account ids s s' n h a e = elim (Result-cases (normalize_event_ids ids)) [
  | inr (x, bad) ↦ err-no-ok {e = x} {s = s} (rw bad) h
  | inl (values, good) ↦
      let after : record s { events = insert_events now account values s.events } ≡ s' =
        ap (λ (p : Result ℕ × Store). p.1)
          (subst (λ (p : Result ℕ × Store). p ≡ (ok n, s'))
            (let go : mark_events now account ids s ≡ (
              ok (length (insert_events now account values s.events) - length s.events),
              record s { events = insert_events now account values s.events },
            ) =
                rw good in
              go)
            h) in
      let known_values : is_one_of e values ≡ is_marked e ids =
        unfold normalize_event_ids in normalize_from-holds e [] ids values good in
      rw (← after)
        (ground (arith, known_values, insert_events-holds now account a e values s.events))
]

seen_in_chunk-holds :
    (account e : String) (chunk : List String) (rows : List EventRow)
    → is_one_of e (seen_in_chunk account chunk rows)
      ≡ (is_one_of e chunk && any (has_event account e) rows)
unfolding seen_in_chunk
seen_in_chunk-holds account e chunk [] = ground arith
seen_in_chunk-holds account e chunk (row ∷ rows) = elim (Bool-cases (row.event_id =t= e)) [
  | inl same ↦
      let own : is_one_of row.event_id chunk ≡ is_one_of e chunk =
        ap (λ x. is_one_of x chunk) ((eq_iff row.event_id e).0 same) in
      ground (arith, seen_in_chunk-holds account e chunk rows, own, same, eq_comm e row.event_id)
  | inr other ↦
      ground (arith, seen_in_chunk-holds account e chunk rows, other, eq_comm e row.event_id)
]

is_one_of-split :
    (e : String) (xs ys : List String) → is_one_of e (xs ++ ys) ≡ (is_one_of e xs || is_one_of e ys)
is_one_of-split e [] ys = ground arith
is_one_of-split e (x ∷ xs) ys = ground (arith, is_one_of-split e xs ys)

is_one_of-take :
    (e : String) (k : ℕ) (xs : List String)
    → is_one_of e xs ≡ (is_one_of e (take k xs) || is_one_of e (drop k xs))
is_one_of-take e k xs =
    ap (is_one_of e) (sym (take-append-drop k xs)) ∙ is_one_of-split e (take k xs) (drop k xs)

both_parts : (a b c : Bool) → (a && c || b && c) ≡ ((a || b) && c)
both_parts a b c = ground arith

seen_chunks-holds :
    (fuel : ℕ) (account e : String) (values : List String) (rows : List EventRow)
    → length values ≤ fuel
    → is_one_of e (seen_chunks fuel account values rows)
      ≡ (is_one_of e values && any (has_event account e) rows)
unfolding seen_chunks
seen_chunks-holds zero account e [] rows le = ground arith
seen_chunks-holds zero account e (v ∷ values) rows le = absurd (omega arith)
seen_chunks-holds (suc fuel) account e [] rows le = ground arith
seen_chunks-holds (suc fuel) account e (v ∷ values) rows le =
    is_one_of-split e (seen_in_chunk account (take event_query_chunk (v ∷ values)) rows)
      (seen_chunks fuel account (drop event_query_chunk (v ∷ values)) rows)
    ∙ rw
        (
          seen_in_chunk-holds account e (take event_query_chunk (v ∷ values)) rows,
          seen_chunks-holds fuel account e (drop event_query_chunk (v ∷ values)) rows
              (omega (arith, length-drop event_query_chunk (v ∷ values))),
        )
        (both_parts _ _ (any (has_event account e) rows)
          ∙ ap (λ b. b && any (has_event account e) rows)
              (sym (is_one_of-take e event_query_chunk (v ∷ values))))

-- `events_seen_many` that returns, returns exactly the non-empty ids of its list that are known.
pub events_seen_many-holds :
    (account : String) (ids : List String) (s s' : Store) (seen : List String)
    → events_seen_many account ids s ≡ (ok seen, s')
    → (e : String) → is_one_of e seen ≡ (is_marked e ids && event_seen account e s)
unfolding events_seen_many event_seen ◌>>=◌
events_seen_many-holds account ids s s' seen h e = elim (Result-cases (normalize_event_ids ids)) [
  | inr (x, bad) ↦ err-no-ok {e = x} {s = s} (rw bad) h
  | inl (values, good) ↦
      let go : events_seen_many account ids s
          ≡ (ok (seen_chunks (length values) account values s.events), s) =
        rw good in
      let result : seen_chunks (length values) account values s.events ≡ seen =
        ok-injective (ap (λ (p : Result (List String) × Store). p.0) (sym go ∙ h)) in
      let of_values : is_one_of e values ≡ is_marked e ids =
        unfold normalize_event_ids in normalize_from-holds e [] ids values good in
      rw (← result) (
        ground (
          arith,
          of_values,
          seen_chunks-holds (length values) account e values s.events (omega arith),
        ))
]
