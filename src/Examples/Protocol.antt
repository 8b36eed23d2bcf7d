-- ===== src/Examples/Protocol.antt =====
-- The framing (外置策略API/qmt_local_api/protocol.py) with a small codec in the place of json: a message
-- is a list of numbers, its body is the list behind the byte 123, and the empty list has no body. The
-- byte 94 stands for a body that is nested too deeply.
use qmt_python_tcp.Prelude.{
  ℕ, ◌<◌, ◌+◌, ◌≡◌, ◌≢◌, ◌++◌, recursion_error, refl, true, Option, none, some, List, [], ◌∷◌, ◌==◌,
  if◌then◌else◌, arith, protocol_error, ok, err, is_err, length, concat,
}
use qmt_python_tcp.Protocol.Frame.{
  Parsed, object, other_root, invalid, too_deep, Json, ReadsBack, unpack, feed, feed_all,
  encode_all,
}
use qmt_python_tcp.Protocol.Chunks.{feed_all-concat}
use qmt_python_tcp.Protocol.RoundTrip.{feed_all-encode_all, length-feed}

abbrev dumps : List ℕ → Option (List ℕ)
dumps [] = none
dumps (n ∷ ns) = some (123 ∷ n ∷ ns)

abbrev loads : List ℕ → Parsed (List ℕ)
loads (root ∷ n ∷ ns) = if root == 123 then object (n ∷ ns) else invalid
loads (root ∷ []) = if root == 91 then other_root else if root == 94 then too_deep else invalid
loads [] = invalid

abbrev small_json : Json
small_json = record { Message = List ℕ; dumps = dumps; loads = loads }

loads-dumps : (m : List ℕ) (body : List ℕ) → dumps m ≡ some body → loads body ≡ object m
loads-dumps [] body h = cc
loads-dumps (n ∷ ns) body h = ground arith

small_json-ReadsBack : ReadsBack small_json
small_json-ReadsBack = record { loads-dumps = loads-dumps }

-- two frames
abbrev stream : List ℕ
stream = 0 ∷ 0 ∷ 0 ∷ 2 ∷ 123 ∷ 7 ∷ 0 ∷ 0 ∷ 0 ∷ 3 ∷ 123 ∷ 8 ∷ 9 ∷ []

-- the same bytes, cut inside a header and inside a body
abbrev chunks : List (List ℕ)
chunks = (0 ∷ 0 ∷ []) ∷ (0 ∷ 2 ∷ 123 ∷ 7 ∷ 0 ∷ []) ∷ [] ∷ (0 ∷ 0 ∷ 3 ∷ 123 ∷ []) ∷ (8 ∷ 9 ∷ []) ∷ []

-- A root that is no object is refused, and the bytes behind it are dropped.
other_root_refused :
    feed small_json 100 (0 ∷ 0 ∷ 0 ∷ 1 ∷ 91 ∷ 0 ∷ 0 ∷ []) [] ≡ (err protocol_error, [])
unfolding feed unpack
other_root_refused = refl

-- A `RecursionError` leaves the bytes behind its frame, if they came with it.
too_deep_leaves_bytes :
    feed small_json 100 (0 ∷ 0 ∷ 0 ∷ 1 ∷ 94 ∷ 0 ∷ 0 ∷ []) [] ≡ (err recursion_error, 0 ∷ 0 ∷ [])
unfolding feed unpack
too_deep_leaves_bytes = refl

too_deep_cut :
    feed_all small_json 100 ((0 ∷ 0 ∷ 0 ∷ 1 ∷ 94 ∷ []) ∷ (0 ∷ 0 ∷ []) ∷ []) []
    ≡ (err recursion_error, [])
unfolding feed_all unpack
too_deep_cut = refl

feed_all-encode_all_example :
    feed_all small_json 100 chunks [] ≡ (ok ((7 ∷ []) ∷ (8 ∷ 9 ∷ []) ∷ []), [])
unfolding encode_all
feed_all-encode_all_example =
    feed_all-encode_all small_json 100 small_json-ReadsBack ((7 ∷ []) ∷ (8 ∷ 9 ∷ []) ∷ []) stream
      chunks refl refl

feed_all-concat_example :
    ((feed_all small_json 100 chunks []).0 ≡ (feed small_json 100 (concat chunks) []).0)
    × ((feed small_json 100 (concat chunks) []).0 ≢ err recursion_error
        → feed_all small_json 100 chunks [] ≡ feed small_json 100 (concat chunks) [])
feed_all-concat_example = feed_all-concat small_json 100 chunks

length-feed_example :
    ((feed small_json 100 stream (0 ∷ [])).0 ≢ err recursion_error
      → (length (feed small_json 100 stream (0 ∷ [])).1 < 100 + 4)
        × (is_err (feed small_json 100 stream (0 ∷ [])).0 ≡ true
            → (feed small_json 100 stream (0 ∷ [])).1 ≡ []))
    × ((feed small_json 100 stream (0 ∷ [])).0 ≡ err recursion_error
        → length (feed small_json 100 stream (0 ∷ [])).1 < length ((0 ∷ []) ++ stream))
length-feed_example = length-feed small_json 100 stream (0 ∷ [])
