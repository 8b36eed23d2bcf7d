-- ===== src/Protocol/Chunks.antt =====
-- The chunks of a byte stream (外置策略API/qmt_local_api/protocol.py).
use qmt_python_tcp.Prelude.{
  ℕ, zero, suc, ◌≤◌, ◌≡◌, ◌≢◌, ◌<◌, ◌⊎◌, inl, inr, refl, sym, ap, ◌∙◌, List, [], ◌∷◌, ◌++◌, Error,
  protocol_error, recursion_error, Result, pure, go_on, ◌>>=◌, ok, err, arith, length,
  length-append, concat,
}
use qmt_python_tcp.Protocol.Frame.{
  Json, Round, waiting, broken, escaped, decoded, round_of, prepend, drain, feed, feed_all,
}
use qmt_python_tcp.Protocol.Stream.{
  prepend_all, then_drain, drain-decoded, drain-waiting, drain-broken, drain-nil, drain-fuel,
  drain-append, drain-escaped, round_of-escaped, behind, round_of-shorter,
}
use mathlib.Core.List.{append-nil, append_assoc}

module _ (json : Json) (limit : ℕ) where
  open json use {Message, dumps, loads}

  abbrev pub Settled : List ℕ → Result (List Message) × List ℕ → Type 0
  Settled buffer (ok ms, rest) =
      (round_of json limit rest ≡ waiting) × (length rest ≤ length buffer)
  Settled buffer (err e, rest) =
      ((e ≡ protocol_error) × (rest ≡ [])) ⊎ ((e ≡ recursion_error) × (length rest < length buffer))

  Settled-prepend :
      (buffer buffer' : List ℕ) (m : Message) (p : Result (List Message) × List ℕ)
      → length buffer ≤ length buffer'
      → Settled buffer p
      → Settled buffer' (prepend json limit m p)
  Settled-prepend buffer buffer' m (ok ms, rest) le h = (h.0, omega (arith, h.1))
  Settled-prepend buffer buffer' m (err e, rest) le (inl h) = inl h
  Settled-prepend buffer buffer' m (err e, rest) le (inr h) = inr (h.0, omega (arith, h.1))

  -- With enough fuel the loop stops only where no whole frame is left, or with an error.
  pub drain-Settled :
      (f : ℕ) (buffer : List ℕ) → length buffer ≤ f → Settled buffer (drain json limit f buffer)
  drain-Settled f [] p = rw (drain-nil json limit) (unfold round_of in refl, omega arith)
  drain-Settled zero (x ∷ xs) p = absurd (omega arith)
  drain-Settled (suc f) (x ∷ xs) p =
      go (round_of json limit (x ∷ xs)) refl (λ left u. drain-Settled f left u)
    where
      go :
          (o : Round json limit)
          → round_of json limit (x ∷ xs) ≡ o
          → ((left : List ℕ) → length left ≤ f → Settled left (drain json limit f left))
          → Settled (x ∷ xs) (drain json limit (suc f) (x ∷ xs))
      go waiting e ih = rw (drain-waiting json limit (suc f) (x ∷ xs) e) (e, omega arith)
      go broken e ih = rw (drain-broken json limit f (x ∷ xs) e) (inl (refl, refl))
      go (escaped left) e ih =
          rw (drain-escaped json limit f (x ∷ xs) left e)
            (inr (refl, (round_of-escaped json limit (x ∷ xs) [] left e).1))
      go (decoded m left) e ih =
          let shorter = round_of-shorter json limit (x ∷ xs) m left e in
          rw (drain-decoded json limit f (x ∷ xs) m left e) (
            Settled-prepend left (x ∷ xs) m (drain json limit f left) (omega (arith, shorter))
              (ih left (omega (arith, shorter))))

  -- `feed_all` on what the first chunk has left
  abbrev feed_rest : List (List ℕ) → Result (List Message) × List ℕ → Result (List Message) × List ℕ
  feed_rest chunks (ok ms, rest) = prepend_all json limit ms (feed_all json limit chunks rest)
  feed_rest chunks (err e, rest) = (err e, rest)

  feed_all-cons :
      (chunk : List ℕ) (chunks : List (List ℕ)) (buffer : List ℕ)
      → feed_all json limit (chunk ∷ chunks) buffer
        ≡ feed_rest chunks (drain json limit (length (buffer ++ chunk)) (buffer ++ chunk))
  unfolding feed_all feed ◌>>=◌
  feed_all-cons chunk chunks buffer =
      go (drain json limit (length (buffer ++ chunk)) (buffer ++ chunk))
    where
      tail_of :
          (ms : List Message) (q : Result (List Message) × List ℕ)
          → go_on (λ ms'. pure (ms ++ ms')) q ≡ prepend_all json limit ms q
      tail_of ms (ok ms', b) = refl
      tail_of ms (err e, b) = refl

      go :
          (p : Result (List Message) × List ℕ)
          → go_on (λ first. feed_all json limit chunks >>= λ rest. pure (first ++ rest)) p
            ≡ feed_rest chunks p
      go (ok ms, rest) = tail_of ms (feed_all json limit chunks rest)
      go (err e, rest) = refl

  -- The buffer, but for the one that a `RecursionError` leaves.
  abbrev kept : Error → List ℕ → List ℕ
  kept recursion_error rest = []
  kept e rest = rest

  abbrev seen : Result (List Message) × List ℕ → Result (List Message) × List ℕ
  seen (ok ms, rest) = (ok ms, rest)
  seen (err e, rest) = (err e, kept e rest)

  seen-prepend_all :
      (ms : List Message) (p : Result (List Message) × List ℕ)
      → seen (prepend_all json limit ms p) ≡ prepend_all json limit ms (seen p)
  seen-prepend_all ms (ok ms', rest) = refl
  seen-prepend_all ms (err e, rest) = refl

  kept-behind :
      (e : Error) (rest tail : List ℕ) → kept e rest ≡ kept e (behind json limit e rest tail)
  kept-behind e rest tail = ground arith

  kept-other : (e : Error) (rest : List ℕ) → (e ≡ recursion_error → ⊥) → kept e rest ≡ rest
  kept-other e rest other = ground arith

  feed_all-drain :
      (chunks : List (List ℕ)) (buffer : List ℕ)
      → round_of json limit buffer ≡ waiting
      → seen (feed_all json limit chunks buffer)
        ≡ seen (drain json limit (length (buffer ++ concat chunks)) (buffer ++ concat chunks))
  feed_all-drain [] buffer w =
      rw append-nil
        (unfold feed_all ◌>>=◌ in ap seen (sym (drain-waiting json limit (length buffer) buffer w)))
  feed_all-drain (chunk ∷ chunks) buffer w =
      ap seen (feed_all-cons chunk chunks buffer)
      ∙ go (drain json limit (length (buffer ++ chunk)) (buffer ++ chunk))
          (drain-Settled (length (buffer ++ chunk)) (buffer ++ chunk) (omega arith))
          (λ rest v. feed_all-drain chunks rest v)
      ∙ ap seen (
          sym (
            drain-append json limit (length (buffer ++ chunk)) whole whole (buffer ++ chunk)
              (concat chunks) (omega arith) (omega arith) (omega arith)))
      ∙ rw append_assoc
    where
      whole : ℕ
      whole = length ((buffer ++ chunk) ++ concat chunks)

      go :
          (p : Result (List Message) × List ℕ)
          → Settled (buffer ++ chunk) p
          → ((rest : List ℕ)
              → round_of json limit rest ≡ waiting
              → seen (feed_all json limit chunks rest)
                ≡ seen (drain json limit (length (rest ++ concat chunks)) (rest ++ concat chunks)))
          → seen (feed_rest chunks p) ≡ seen (then_drain json limit whole p (concat chunks))
      go (ok ms, rest) h ih =
          seen-prepend_all ms (feed_all json limit chunks rest)
          ∙ ap (prepend_all json limit ms) (
              ih rest h.0
              ∙ ap seen (
                  drain-fuel json limit (length (rest ++ concat chunks)) whole
                    (rest ++ concat chunks) (omega arith)
                    (omega (
                      arith,
                      h.1,
                      length-append rest (concat chunks),
                      length-append (buffer ++ chunk) (concat chunks),
                    ))))
          ∙ sym (seen-prepend_all ms (drain json limit whole (rest ++ concat chunks)))
      go (err e, rest) h ih = ap (λ b. (err e, b)) (kept-behind e rest (concat chunks))

  seen-same :
      (p q : Result (List Message) × List ℕ)
      → seen p ≡ seen q
      → (p.0 ≡ q.0) × (q.0 ≢ err recursion_error → p ≡ q)
  seen-same (ok ms, b) (ok ms', b') h = (ap (λ p. p.0) h, λ other. h)
  seen-same (ok ms, b) (err e, b') h = absurd (let bad = ap (λ p. p.0) h in cc)
  seen-same (err e, b) (ok ms, b') h = absurd (let bad = ap (λ p. p.0) h in cc)
  seen-same (err e, b) (err e', b') h =
      let same : err e ≡ err e' = ap (λ p. p.0) h in
      let rests : kept e b ≡ kept e' b' = ap (λ p. p.1) h in
      (
        same,
        λ other.
            let one = kept-other e b (λ is. other (sym same ∙ ap err is)) in
            let two = kept-other e' b' (λ is. other (ap err is)) in cc,
      )

  -- However the bytes of a connection are cut into chunks, feeding the chunks in turn to a new decoder
  -- gives the messages or the error that feeding all the bytes at once gives, and, unless that error
  -- is a `RecursionError`, the same buffer.
  pub feed_all-concat :
      (chunks : List (List ℕ))
      → ((feed_all json limit chunks []).0 ≡ (feed json limit (concat chunks) []).0)
        × ((feed json limit (concat chunks) []).0 ≢ err recursion_error
            → feed_all json limit chunks [] ≡ feed json limit (concat chunks) [])
  unfolding feed
  feed_all-concat chunks =
      seen-same (feed_all json limit chunks []) (feed json limit (concat chunks) [])
        (feed_all-drain chunks [] (unfold round_of in refl))
