-- ===== src/Protocol/Frame.antt =====
-- `encode_frame` and `FrameDecoder` (外置策略API/qmt_local_api/protocol.py). Bytes are numbers.
use qmt_python_tcp.Prelude.{
  ℕ, zero, suc, ◌+◌, ◌*◌, ◌/◌, ◌%◌, ◌^◌, ◌≡◌, Option, none, some, List, [], ◌∷◌, ◌++◌, ◌||◌,
  if◌then◌else◌, ltb, leb, ◌==◌, Action, Result, protocol_error, struct_error, recursion_error,
  pure, ◌>>=◌, ok, err, length, take, drop,
}

-- What `json.loads` makes of a frame's body: an object, another root, one of the errors that `feed`
-- catches, or a `RecursionError`, which it does not catch.
pub data Parsed (Message : Type 0) : Type 0 where
  object : Message → Parsed Message
  other_root invalid too_deep : Parsed Message

-- Python's json with the arguments that this module passes, UTF-8 included. `dumps` is `none` where
-- the message is not finite JSON data.
pub record Json : Type 1 where
  pub Message : Type 0
  pub dumps : Message → Option (List ℕ)
  pub loads : List ℕ → Parsed Message

-- `json.loads` reads back what `json.dumps` wrote.
pub record ReadsBack (json : Json) : Type 0 where
  pub loads-dumps :
      (m : json.Message) (body : List ℕ) → json.dumps m ≡ some body → json.loads body ≡ object m

-- MAX_FRAME_BYTES
abbrev pub max_frame_bytes : ℕ
max_frame_bytes = 10 * 1024 * 1024

abbrev pub join_frames : Result (List ℕ) → Result (List ℕ) → Result (List ℕ)
join_frames (ok frame) (ok frames) = ok (frame ++ frames)
join_frames (ok frame) (err e) = err e
join_frames (err e) frames = err e

-- struct.Struct(">I").pack of a number below 2 ^ 32
unfoldable pub pack : ℕ → List ℕ
pack n = n / 16777216 ∷ n / 65536 % 256 ∷ n / 256 % 256 ∷ n % 256 ∷ []

-- its `unpack_from`
unfoldable pub unpack : ℕ → ℕ → ℕ → ℕ → ℕ
unpack a b c d = a * 16777216 + b * 65536 + c * 256 + d

module _ (json : Json) (limit : ℕ) where
  open json use {Message, dumps, loads}

  unfoldable pub frame_body : List ℕ → Result (List ℕ)
  unfolding pack
  frame_body body =
      if length body == 0 || ltb limit (length body)
      then err protocol_error
      else if leb (2 ^ 32) (length body)
      then err struct_error
      else ok (pack (length body) ++ body)

  unfoldable pub encode_frame : Message → Result (List ℕ)
  unfolding frame_body
  encode_frame message = elim (dumps message) [
    | none ↦ err protocol_error
    | some body ↦ frame_body body
  ]

  -- What one round of the `while` loop of `feed` finds in the buffer.
  pub data Round : Type 0 where
    waiting broken : Round
    escaped : List ℕ → Round
    decoded : Message → List ℕ → Round

  unfoldable pub take_body : Parsed Message → List ℕ → Round
  take_body (object m) rest = decoded m rest
  take_body other_root rest = broken
  take_body invalid rest = broken
  take_body too_deep rest = escaped rest

  unfoldable pub round_of : List ℕ → Round
  unfolding take_body
  round_of (a ∷ b ∷ c ∷ d ∷ rest) =
      let size = unpack a b c d in
      if size == 0 || ltb limit size
      then broken
      else if ltb (length rest) size
      then waiting
      else take_body (loads (take size rest)) (drop size rest)
  round_of _ = waiting

  abbrev pub prepend : Message → Result (List Message) × List ℕ → Result (List Message) × List ℕ
  prepend m (ok ms, buffer) = (ok (m ∷ ms), buffer)
  prepend m (err e, buffer) = (err e, buffer)

  -- The loop, with the messages and the buffer that it leaves. A `ProtocolError` drops the whole
  -- buffer, a `RecursionError` leaves what stands behind the frame; both lose the messages that this
  -- call has decoded.
  unfoldable pub drain : ℕ → List ℕ → Result (List Message) × List ℕ
  unfolding round_of
  drain zero buffer = (ok [], buffer)
  drain (suc fuel) buffer = elim (round_of buffer) [
    | waiting ↦ (ok [], buffer)
    | broken ↦ (err protocol_error, [])
    | escaped rest ↦ (err recursion_error, rest)
    | decoded m rest ↦ prepend m (drain fuel rest)
  ]

  -- Every round takes at least five bytes, so the length of the buffer is fuel enough.
  unfoldable pub feed : List ℕ → Action (List ℕ) (List Message)
  unfolding drain
  feed chunk buffer = drain (length (buffer ++ chunk)) (buffer ++ chunk)

  -- The chunks that one connection receives, in turn, up to the first error.
  unfoldable pub feed_all : List (List ℕ) → Action (List ℕ) (List Message)
  unfolding feed ◌>>=◌
  feed_all [] = pure []
  feed_all (chunk ∷ chunks) = do first ← feed chunk; rest ← feed_all chunks; pure (first ++ rest)

  -- The frames of some messages, one behind the other, as they are sent.
  unfoldable pub encode_all : List Message → Result (List ℕ)
  unfolding encode_frame
  encode_all [] = ok []
  encode_all (m ∷ ms) = join_frames (encode_frame m) (encode_all ms)
