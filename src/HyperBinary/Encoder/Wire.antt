-- ===== src/HyperBinary/Encoder/Wire.antt =====
-- What the encoder is meant to write: the bytes of a message, with no buffers and no lengths
-- computed ahead. `varint` gives the bytes of a variable-length integer.
use pvcli.Prelude.{ℕ, ◌<◌, Option, none, some, List, [], ◌∷◌, ◌++◌, Bytes, length}
use pvcli.Octets.{max_varint}
use pvcli.Http.{HeaderMap, path_and_query_bytes}
use pvcli.StreamBuf.{Event, not_ready, item, broken}
use pvcli.StreamBuf.Content.{stream_bytes}
use pvcli.HyperBinary.Encoder.{RequestParts, ResponseParts}

module _ (varint : ℕ → Bytes) where
  -- A byte string behind its length, in front of `rest`.
  abbrev pub counted_bytes : Bytes → Bytes → Bytes
  counted_bytes b rest = varint (length b) ++ (b ++ rest)

  abbrev pub field_lines_bytes : HeaderMap → Bytes → Bytes
  field_lines_bytes [] rest = rest
  field_lines_bytes ((name, value) ∷ headers) rest =
      counted_bytes name (counted_bytes value (field_lines_bytes headers rest))

  abbrev pub request_control_bytes : RequestParts → Bytes → Bytes → Bytes → Bytes
  request_control_bytes parts scheme authority rest = counted_bytes parts.method (
      counted_bytes scheme
        (counted_bytes authority (counted_bytes (path_and_query_bytes parts.uri) rest)))

  abbrev pub indeterminate_request_bytes : RequestParts → Bytes → Bytes → Bytes → Bytes
  indeterminate_request_bytes parts scheme authority rest =
      varint 2
      ++ request_control_bytes parts scheme authority
          (field_lines_bytes parts.headers (varint 0 ++ rest))

  abbrev pub indeterminate_response_bytes : ResponseParts → Bytes → Bytes
  indeterminate_response_bytes parts rest =
      varint 3 ++ (varint parts.status ++ field_lines_bytes parts.headers (varint 0 ++ rest))

  abbrev pub known_response_bytes : ResponseParts → ℕ → Bytes → Bytes
  known_response_bytes parts size rest =
      varint 1
      ++ (varint parts.status
          ++ counted_bytes (field_lines_bytes parts.headers []) (varint size ++ rest))

  -- The body of an indeterminate-length message: every non-empty chunk behind its length, and the
  -- length 0 at the end.
  abbrev pub chunked_bytes : List Event → Bytes
  chunked_bytes [] = 0 ∷ []
  chunked_bytes (not_ready ∷ rest) = chunked_bytes rest
  chunked_bytes (broken e ∷ rest) = chunked_bytes rest
  chunked_bytes (item [] ∷ rest) = chunked_bytes rest
  chunked_bytes (item (x ∷ b) ∷ rest) = counted_bytes (x ∷ b) (chunked_bytes rest)

  -- A whole response: of known length if its size is, else chunk by chunk.
  abbrev pub response_bytes : ResponseParts → Option ℕ → List Event → Bytes
  response_bytes parts (some size) es = known_response_bytes parts size (stream_bytes es)
  response_bytes parts none es = indeterminate_response_bytes parts (chunked_bytes es)

-- A body without errors whose chunks have lengths that fit.
abbrev pub IsSoundBody : List Event → Type 0
IsSoundBody [] = Unit {0}
IsSoundBody (not_ready ∷ rest) = IsSoundBody rest
IsSoundBody (item b ∷ rest) = (length b < max_varint) × IsSoundBody rest
IsSoundBody (broken e ∷ rest) = ⊥

-- The lengths that go on the wire are below 2 ^ 62, as those of strings in memory are.
abbrev pub IsShort : Bytes → Type 0
IsShort b = length b < max_varint

abbrev pub AreShort : HeaderMap → Type 0
AreShort [] = Unit {0}
AreShort ((name, value) ∷ headers) = IsShort name × IsShort value × AreShort headers
