-- ===== src/Protocol/RoundTrip.antt =====
-- `encode_frame` against `FrameDecoder` (外置策略API/qmt_local_api/protocol.py), and what the decoder holds
-- back.
use qmt_python_tcp.Prelude.{
  ℕ, zero, suc, ◌+◌, ◌^◌, ◌≤◌, ◌<◌, ◌≡◌, ◌≢◌, refl, ap, ◌∙◌, true, false, Option, none, some, List,
  [], ◌∷◌, ◌++◌, ltb, ◌==◌, Result, protocol_error, recursion_error, inl, inr, ok-injective, is_err,
  ok, err, arith, length, take, drop, length-append, take_whole, drop_whole, concat,
}
use qmt_python_tcp.Protocol.Frame.{
  Parsed, object, other_root, invalid, too_deep, Json, ReadsBack, pack, unpack, frame_body,
  encode_frame, waiting, decoded, take_body, round_of, drain, feed, feed_all, encode_all,
  join_frames,
}
use qmt_python_tcp.Protocol.Header.{unpack-pack}
use qmt_python_tcp.Protocol.Stream.{drain-decoded, drain-nil, round_of-shorter}
use qmt_python_tcp.Protocol.Chunks.{feed_all-concat, drain-Settled, Settled}

module _ (json : Json) (limit : ℕ) where
  open json use {Message, dumps, loads}

  not_shorter : (body tail : List ℕ) → ltb (length (body ++ tail)) (length body) ≡ false
  not_shorter body tail = ground (arith, length-append body tail)

  record Framed (body frame : List ℕ) : Type 0 where
    pub is_frame : frame ≡ pack (length body) ++ body
    pub nonempty : (length body == 0) ≡ false
    pub fits : ltb limit (length body) ≡ false
    pub small : length body < 2 ^ 32

  frame_body-Framed :
      (body frame : List ℕ) → frame_body json limit body ≡ ok frame → Framed body frame
  unfolding frame_body
  frame_body-Framed body frame h = ground arith

  -- A body behind its own header is one whole frame.
  Framed-round :
      (body tail frame : List ℕ) (m : Message)
      → loads body ≡ object m
      → Framed body frame
      → round_of json limit (frame ++ tail) ≡ decoded m tail
  unfolding pack
  Framed-round body tail frame m reads f = rw f.is_frame (
      unfold round_of in
      rw
        (
          unpack-pack (length body) f.small,
          f.nonempty,
          f.fits,
          not_shorter body tail,
          take_whole body tail,
          drop_whole body tail,
          reads,
        )
        (unfold take_body in refl))

  module _ (reads : ReadsBack json) where
    encode_frame-round :
        (m : Message) (frame tail : List ℕ)
        → encode_frame json limit m ≡ ok frame
        → round_of json limit (frame ++ tail) ≡ decoded m tail
    encode_frame-round m frame tail h = go (dumps m) refl (unfold encode_frame in h)
      where
        go :
            (o : Option (List ℕ))
            → dumps m ≡ o
            → elim o as (λ _. Result (List ℕ)) [
              | none ↦ err protocol_error
              | some body ↦ frame_body json limit body
            ]
              ≡ ok frame
            → round_of json limit (frame ++ tail) ≡ decoded m tail
        go none e k = cc
        go (some body) e k =
            Framed-round body tail frame m (reads.loads-dumps m body e)
              (frame_body-Framed body frame k)

    join_frames-ok :
        (p q : Result (List ℕ)) (stream : List ℕ)
        → join_frames p q ≡ ok stream
        → (a : List ℕ) × (b : List ℕ) × (p ≡ ok a) × (q ≡ ok b) × (stream ≡ a ++ b)
    join_frames-ok (ok a) (ok b) stream h = (a, b, refl, refl, ground arith)
    join_frames-ok (ok a) (err e) stream h = cc
    join_frames-ok (err e) q stream h = cc

    drain-encode_all :
        (ms : List Message) (stream : List ℕ) (fuel : ℕ)
        → encode_all json limit ms ≡ ok stream
        → length stream ≤ fuel
        → drain json limit fuel stream ≡ (ok ms, [])
    drain-encode_all [] stream fuel h le =
        let e : [] ≡ stream = unfold encode_all in ok-injective {a = []} {b = stream} h in
        rw (← e) (drain-nil json limit fuel)
    drain-encode_all (m ∷ ms) stream fuel h le =
        let (frame, rest, eframe, erest, split) =
          join_frames-ok (encode_frame json limit m) (encode_all json limit ms) stream
            (unfold encode_all in h) in
        step fuel frame rest split (encode_frame-round m frame rest eframe) le
          (λ f u. drain-encode_all ms rest f erest u)
      where
        step :
            (fuel : ℕ) (frame rest : List ℕ)
            → stream ≡ frame ++ rest
            → round_of json limit (frame ++ rest) ≡ decoded m rest
            → length stream ≤ fuel
            → ((f : ℕ) → length rest ≤ f → drain json limit f rest ≡ (ok ms, []))
            → drain json limit fuel stream ≡ (ok (m ∷ ms), [])
        step zero frame rest split e le ih =
            absurd
              (omega (arith, round_of-shorter json limit (frame ++ rest) m rest e, ap length split))
        step (suc f) frame rest split e le ih = rw split (
            rw (drain-decoded json limit f (frame ++ rest) m rest e) (
              rw (
                ih f (
                  omega (
                    arith,
                    round_of-shorter json limit (frame ++ rest) m rest e,
                    ap length split,
                  )))))

    -- Where `json.loads` reads back what `json.dumps` writes: the bytes of any messages that
    -- `encode_frame` accepts, cut into chunks in any way, decode to exactly those messages in order,
    -- with no error and with nothing left in the buffer.
    pub feed_all-encode_all :
        (ms : List Message) (stream : List ℕ) (chunks : List (List ℕ))
        → encode_all json limit ms ≡ ok stream
        → concat chunks ≡ stream
        → feed_all json limit chunks [] ≡ (ok ms, [])
    feed_all-encode_all ms stream chunks h cut =
        let whole : feed json limit (concat chunks) [] ≡ (ok ms, []) =
          rw cut (unfold feed in drain-encode_all ms stream (length stream) h (omega arith)) in
        (feed_all-concat json limit chunks).1 (λ bad. absurd (let e = ap (λ p. p.0) whole in cc))
        ∙ whole

  take_body-ne-waiting :
      (p : Parsed Message) (rest : List ℕ) → take_body json limit p rest ≢ waiting
  unfolding take_body
  take_body-ne-waiting (object m) rest h = cc
  take_body-ne-waiting other_root rest h = cc
  take_body-ne-waiting invalid rest h = cc
  take_body-ne-waiting too_deep rest h = cc

  waiting_bound :
      (buffer : List ℕ) → round_of json limit buffer ≡ waiting → length buffer < limit + 4
  unfolding round_of
  waiting_bound [] w = omega arith
  waiting_bound (a ∷ []) w = omega arith
  waiting_bound (a ∷ b ∷ []) w = omega arith
  waiting_bound (a ∷ b ∷ c ∷ []) w = omega arith
  waiting_bound (a ∷ b ∷ c ∷ d ∷ rest) w =
      let size = unpack a b c d in
      ground (arith, take_body-ne-waiting (loads (take size rest)) (drop size rest))

  -- After any call of `feed` that returns or raises, other than with a `RecursionError`, the decoder
  -- holds fewer bytes than a header and a body of the largest size, and after a raise it holds none;
  -- after a `RecursionError` it holds fewer bytes than it held with the chunk.
  pub length-feed :
      (chunk buffer : List ℕ)
      → ((feed json limit chunk buffer).0 ≢ err recursion_error
          → (length (feed json limit chunk buffer).1 < limit + 4)
            × (is_err (feed json limit chunk buffer).0 ≡ true
                → (feed json limit chunk buffer).1 ≡ []))
        × ((feed json limit chunk buffer).0 ≡ err recursion_error
            → length (feed json limit chunk buffer).1 < length (buffer ++ chunk))
  unfolding feed
  length-feed chunk buffer =
      go (drain json limit (length (buffer ++ chunk)) (buffer ++ chunk))
        (drain-Settled json limit (length (buffer ++ chunk)) (buffer ++ chunk) (omega arith))
    where
      go :
          (p : Result (List Message) × List ℕ)
          → Settled json limit (buffer ++ chunk) p
          → (p.0 ≢ err recursion_error → (length p.1 < limit + 4) × (is_err p.0 ≡ true → p.1 ≡ []))
            × (p.0 ≡ err recursion_error → length p.1 < length (buffer ++ chunk))
      go (ok ms, rest) h = (λ _. (waiting_bound rest h.0, λ e. cc), λ e. absurd cc)
      go (err e, rest) (inl h) = (λ _. (rw (h.1) (omega arith), λ _. h.1), λ k. absurd cc)
      go (err e, rest) (inr h) = (λ other. absurd (other (ap err h.0)), λ _. h.1)
