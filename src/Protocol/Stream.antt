-- ===== src/Protocol/Stream.antt =====
-- Rounds of the decoder on a longer buffer (外置策略API/qmt_local_api/protocol.py).
use qmt_python_tcp.Prelude.{
  ℕ, zero, suc, ◌≤◌, ◌<◌, ◌≡◌, refl, sym, ap, ◌∙◌, List, [], ◌∷◌, ◌++◌, Error, Result,
  protocol_error, recursion_error, ok, err, arith, length, take, drop, length-append, length-drop,
  take-append, drop-append,
}
use qmt_python_tcp.Protocol.Frame.{
  Parsed, object, other_root, invalid, too_deep, Json, unpack, Round, waiting, broken, escaped,
  decoded, take_body, round_of, prepend, drain,
}

module _ (json : Json) (limit : ℕ) where
  open json use {Message, dumps, loads}

  take_body-decoded :
      (p : Parsed Message) (rest : List ℕ) (m : Message) (left : List ℕ)
      → take_body json limit p rest ≡ decoded m left
      → (p ≡ object m) × (rest ≡ left)
  unfolding take_body
  take_body-decoded (object m') rest m left h = ground arith
  take_body-decoded other_root rest m left h = cc
  take_body-decoded invalid rest m left h = cc
  take_body-decoded too_deep rest m left h = cc

  take_body-broken :
      (p : Parsed Message) (rest rest' : List ℕ)
      → take_body json limit p rest ≡ broken
      → take_body json limit p rest' ≡ broken
  unfolding take_body
  take_body-broken (object m') rest rest' h = cc
  take_body-broken other_root rest rest' h = refl
  take_body-broken invalid rest rest' h = refl
  take_body-broken too_deep rest rest' h = cc

  take_body-escaped :
      (p : Parsed Message) (rest rest' left : List ℕ)
      → take_body json limit p rest ≡ escaped left
      → (rest ≡ left) × (take_body json limit p rest' ≡ escaped rest')
  unfolding take_body
  take_body-escaped (object m') rest rest' left h = cc
  take_body-escaped other_root rest rest' left h = cc
  take_body-escaped invalid rest rest' left h = cc
  take_body-escaped too_deep rest rest' left h = (ground arith, refl)

  length-take_body :
      (p : Parsed Message) (rest : List ℕ) (m : Message) (left : List ℕ)
      → take_body json limit p rest ≡ decoded m left
      → length left ≡ length rest
  length-take_body p rest m left h = ap length (sym (take_body-decoded p rest m left h).1)

  -- A complete frame at the head of the buffer, with what stands behind it.
  pub round_of-append :
      (buffer tail : List ℕ) (m : Message) (left : List ℕ)
      → round_of json limit buffer ≡ decoded m left
      → round_of json limit (buffer ++ tail) ≡ decoded m (left ++ tail)
  unfolding round_of
  round_of-append [] tail m left h = cc
  round_of-append (a ∷ []) tail m left h = cc
  round_of-append (a ∷ b ∷ []) tail m left h = cc
  round_of-append (a ∷ b ∷ c ∷ []) tail m left h = cc
  round_of-append (a ∷ b ∷ c ∷ d ∷ rest) tail m left h =
      let size = unpack a b c d in
      ground (
        arith,
        length-append rest tail,
        take-append size rest tail,
        drop-append size rest tail,
        take_body-decoded (loads (take size rest)) (drop size rest) m left,
      )

  pub round_of-shorter :
      (buffer : List ℕ) (m : Message) (left : List ℕ)
      → round_of json limit buffer ≡ decoded m left
      → length left < length buffer
  unfolding round_of
  round_of-shorter [] m left h = cc
  round_of-shorter (a ∷ []) m left h = cc
  round_of-shorter (a ∷ b ∷ []) m left h = cc
  round_of-shorter (a ∷ b ∷ c ∷ []) m left h = cc
  round_of-shorter (a ∷ b ∷ c ∷ d ∷ rest) m left h =
      let size = unpack a b c d in
      ground (
        arith,
        length-drop size rest,
        length-take_body (loads (take size rest)) (drop size rest) m left,
      )

  -- A header that is refused stays refused, whatever comes behind it.
  pub round_of-broken :
      (buffer tail : List ℕ)
      → round_of json limit buffer ≡ broken
      → (round_of json limit (buffer ++ tail) ≡ broken) × (0 < length buffer)
  unfolding round_of
  round_of-broken [] tail h = cc
  round_of-broken (a ∷ []) tail h = cc
  round_of-broken (a ∷ b ∷ []) tail h = cc
  round_of-broken (a ∷ b ∷ c ∷ []) tail h = cc
  round_of-broken (a ∷ b ∷ c ∷ d ∷ rest) tail h =
      let size = unpack a b c d in
      (
        ground (
          arith,
          length-append rest tail,
          take-append size rest tail,
          drop-append size rest tail,
          take_body-broken (loads (take size rest)) (drop size rest) (drop size rest ++ tail),
        ),
        omega arith,
      )

  -- A body that is nested too deeply, with what stands behind it.
  pub round_of-escaped :
      (buffer tail left : List ℕ)
      → round_of json limit buffer ≡ escaped left
      → (round_of json limit (buffer ++ tail) ≡ escaped (left ++ tail))
        × (length left < length buffer)
  unfolding round_of
  round_of-escaped [] tail left h = cc
  round_of-escaped (a ∷ []) tail left h = cc
  round_of-escaped (a ∷ b ∷ []) tail left h = cc
  round_of-escaped (a ∷ b ∷ c ∷ []) tail left h = cc
  round_of-escaped (a ∷ b ∷ c ∷ d ∷ rest) tail left h =
      let size = unpack a b c d in
      (
        ground (
          arith,
          length-append rest tail,
          take-append size rest tail,
          drop-append size rest tail,
          take_body-escaped (loads (take size rest)) (drop size rest) (drop size rest ++ tail) left,
        ),
        ground (
          arith,
          length-drop size rest,
          take_body-escaped (loads (take size rest)) (drop size rest) (drop size rest) left,
        ),
      )

  pub drain-decoded :
      (f : ℕ) (buffer : List ℕ) (m : Message) (left : List ℕ)
      → round_of json limit buffer ≡ decoded m left
      → drain json limit (suc f) buffer ≡ prepend json limit m (drain json limit f left)
  unfolding drain
  drain-decoded f buffer m left e = rw (e, drain)

  pub drain-waiting :
      (f : ℕ) (buffer : List ℕ)
      → round_of json limit buffer ≡ waiting
      → drain json limit f buffer ≡ (ok [], buffer)
  unfolding drain
  drain-waiting zero buffer e = refl
  drain-waiting (suc f) buffer e = rw (e, drain)

  pub drain-broken :
      (f : ℕ) (buffer : List ℕ)
      → round_of json limit buffer ≡ broken
      → drain json limit (suc f) buffer ≡ (err protocol_error, [])
  unfolding drain
  drain-broken f buffer e = rw (e, drain)

  pub drain-escaped :
      (f : ℕ) (buffer left : List ℕ)
      → round_of json limit buffer ≡ escaped left
      → drain json limit (suc f) buffer ≡ (err recursion_error, left)
  unfolding drain
  drain-escaped f buffer left e = rw (e, drain)

  pub drain-nil : (f : ℕ) → drain json limit f [] ≡ (ok [], [])
  drain-nil f = drain-waiting f [] (unfold round_of in refl)

  -- Beyond the length of the buffer more fuel changes nothing.
  pub drain-fuel :
      (f g : ℕ) (buffer : List ℕ)
      → length buffer ≤ f
      → length buffer ≤ g
      → drain json limit f buffer ≡ drain json limit g buffer
  drain-fuel f g [] p q = drain-nil f ∙ sym (drain-nil g)
  drain-fuel zero g (x ∷ xs) p q = absurd (omega arith)
  drain-fuel (suc f) zero (x ∷ xs) p q = absurd (omega arith)
  drain-fuel (suc f) (suc g) (x ∷ xs) p q =
      go (round_of json limit (x ∷ xs)) refl (λ left u v. drain-fuel f g left u v)
    where
      go :
          (r : Round json limit)
          → round_of json limit (x ∷ xs) ≡ r
          → ((left : List ℕ)
              → length left ≤ f
              → length left ≤ g
              → drain json limit f left ≡ drain json limit g left)
          → drain json limit (suc f) (x ∷ xs) ≡ drain json limit (suc g) (x ∷ xs)
      go waiting e ih = drain-waiting (suc f) (x ∷ xs) e ∙ sym (drain-waiting (suc g) (x ∷ xs) e)
      go broken e ih = drain-broken f (x ∷ xs) e ∙ sym (drain-broken g (x ∷ xs) e)
      go (escaped left) e ih =
          drain-escaped f (x ∷ xs) left e ∙ sym (drain-escaped g (x ∷ xs) left e)
      go (decoded m left) e ih =
          rw (drain-decoded f (x ∷ xs) m left e, drain-decoded g (x ∷ xs) m left e)
            (ap (prepend json limit m) (
              ih left (omega (arith, round_of-shorter (x ∷ xs) m left e))
                (omega (arith, round_of-shorter (x ∷ xs) m left e))))

  abbrev pub prepend_all :
      List Message → Result (List Message) × List ℕ → Result (List Message) × List ℕ
  prepend_all ms (ok ms', buffer) = (ok (ms ++ ms'), buffer)
  prepend_all ms (err e, buffer) = (err e, buffer)

  -- What an error leaves, if more bytes stood behind the buffer.
  abbrev pub behind : Error → List ℕ → List ℕ → List ℕ
  behind recursion_error rest tail = rest ++ tail
  behind e rest tail = rest

  -- What the loop makes of more bytes, once it has left `p`.
  abbrev pub then_drain :
      ℕ → Result (List Message) × List ℕ → List ℕ → Result (List Message) × List ℕ
  then_drain k (ok ms, rest) tail = prepend_all ms (drain json limit k (rest ++ tail))
  then_drain k (err e, rest) tail = (err e, behind e rest tail)

  pub prepend_all-nil : (p : Result (List Message) × List ℕ) → prepend_all [] p ≡ p
  prepend_all-nil (ok ms, buffer) = refl
  prepend_all-nil (err e, buffer) = refl

  prepend-then_drain :
      (m : Message) (k : ℕ) (p : Result (List Message) × List ℕ) (tail : List ℕ)
      → prepend json limit m (then_drain k p tail) ≡ then_drain k (prepend json limit m p) tail
  prepend-then_drain m k (ok ms, rest) tail = go (drain json limit k (rest ++ tail))
    where
      go :
          (q : Result (List Message) × List ℕ)
          → prepend json limit m (prepend_all ms q) ≡ prepend_all (m ∷ ms) q
      go (ok ms', buffer) = refl
      go (err e, buffer) = refl
  prepend-then_drain m k (err e, rest) tail = refl

  -- Decoding what is there first and the rest afterwards is decoding it all.
  pub drain-append :
      (f g k : ℕ) (buffer tail : List ℕ)
      → length buffer ≤ f
      → length (buffer ++ tail) ≤ g
      → length (buffer ++ tail) ≤ k
      → drain json limit g (buffer ++ tail) ≡ then_drain k (drain json limit f buffer) tail
  drain-append f g k [] tail p q r =
      rw (drain-nil f) (drain-fuel g k tail q r ∙ sym (prepend_all-nil (drain json limit k tail)))
  drain-append zero g k (x ∷ xs) tail p q r = absurd (omega arith)
  drain-append (suc f) zero k (x ∷ xs) tail p q r = absurd (omega arith)
  drain-append (suc f) (suc g) k (x ∷ xs) tail p q r =
      go (round_of json limit (x ∷ xs)) refl (λ left u v w. drain-append f g k left tail u v w)
    where
      go :
          (o : Round json limit)
          → round_of json limit (x ∷ xs) ≡ o
          → ((left : List ℕ)
              → length left ≤ f
              → length (left ++ tail) ≤ g
              → length (left ++ tail) ≤ k
              → drain json limit g (left ++ tail) ≡ then_drain k (drain json limit f left) tail)
          → drain json limit (suc g) (x ∷ xs ++ tail)
            ≡ then_drain k (drain json limit (suc f) (x ∷ xs)) tail
      go waiting e ih = rw (drain-waiting (suc f) (x ∷ xs) e) (
          drain-fuel (suc g) k (x ∷ xs ++ tail) q r
          ∙ sym (prepend_all-nil (drain json limit k (x ∷ xs ++ tail))))
      go broken e ih =
          rw (drain-broken f (x ∷ xs) e)
            (drain-broken g (x ∷ xs ++ tail) (round_of-broken (x ∷ xs) tail e).0)
      go (escaped left) e ih = rw (drain-escaped f (x ∷ xs) left e) (
          drain-escaped g (x ∷ xs ++ tail) (left ++ tail) (round_of-escaped (x ∷ xs) tail left e).0)
      go (decoded m left) e ih =
          let shorter = round_of-shorter (x ∷ xs) m left e in
          drain-decoded g (x ∷ xs ++ tail) m (left ++ tail) (round_of-append (x ∷ xs) tail m left e)
          ∙ ap (prepend json limit m) (
              ih left (omega (arith, shorter))
                (omega (arith, shorter, length-append left tail, length-append (x ∷ xs) tail))
                (omega (arith, shorter, length-append left tail, length-append (x ∷ xs) tail)))
          ∙ prepend-then_drain m k (drain json limit f left) tail
          ∙ ap (λ z. then_drain k z tail) (sym (drain-decoded f (x ∷ xs) m left e))
