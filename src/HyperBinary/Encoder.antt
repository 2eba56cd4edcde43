-- ===== src/HyperBinary/Encoder.antt =====
-- crates/hyper-binary/src/encoder/mod.rs. A body is the list of what its `BodyDataStream`
-- answers, one entry a poll, as a stream is in StreamBuf.
pub mod Initial
pub mod InitialRequest
pub mod Drain
pub mod Wire
use pvcli.Prelude.{
  ℕ, ◌+◌, Bool, true, false, not, Option, none, some, List, [], ◌∷◌, ◌++◌, Bytes, length,
}
use pvcli.Prelude.{is_empty, if◌then◌else◌}
use pvcli.Octets.{Octets, OctetsMut, with_slice, into_vec, ◌>>=◌}
use pvcli.Http.{Http, HeaderMap, Uri, bytes_eq}
use pvcli.Poll.{
  Error, io, upstream, invalid_data, Polled, ready, fail, pending, Result, ok, err, unwrap,
}
use pvcli.StreamBuf.{Event, not_ready, item, broken}

pub data EncodedMessageKind : Type 0 where
  indeterminate_length known_length : EncodedMessageKind

pub record EncodedMessage : Type 0 where
  pub kind : EncodedMessageKind
  pub initial_chunk : Option Bytes
  pub body : List Event
  pub end_of_content : Bool

-- `request::Parts` and `response::Parts`, as far as they are read.
pub record RequestParts : Type 0 where
  pub method : Bytes
  pub uri : Uri
  pub headers : HeaderMap

pub record ResponseParts : Type 0 where
  pub status : ℕ
  pub headers : HeaderMap

-- `host.is_none_or(|host| host != *authority)`
abbrev pub differs_from_host : Option Bytes → Bytes → Bool
differs_from_host none authority = true
differs_from_host (some host) authority = not (bytes_eq host authority)

abbrev pub authority_but : Option Bytes → Option Bytes → Bytes
authority_but host none = []
authority_but host (some authority) = if differs_from_host host authority then authority else []

-- The authority that goes on the wire: empty if the host header says the same.
unfoldable pub wire_authority : Http → RequestParts → Bytes
wire_authority h parts = authority_but (h.get_host parts.headers) parts.uri.authority

abbrev pub written_of : Result OctetsMut → Result Bytes
written_of (ok m) = ok m.written
written_of (err e) = err e

abbrev pub vec_of : Result OctetsMut → Result Bytes
vec_of (ok m) = ok (into_vec m)
vec_of (err e) = err e

abbrev pub with_chunk : Bytes → Result Bytes → Result Bytes
with_chunk chunk (ok encoded_len) = ok (encoded_len ++ chunk)
with_chunk chunk (err e) = err e

abbrev pub message : EncodedMessageKind → List Event → Result Bytes → Result EncodedMessage
message kind body (err e) = err e
message kind body (ok chunk) =
    ok (record { kind = kind; initial_chunk = some chunk; body = body; end_of_content = false })

abbrev pub end_chunk : EncodedMessageKind → Option Bytes
end_chunk indeterminate_length = some (0 ∷ [])
end_chunk known_length = none

abbrev pub give : EncodedMessage → Result Bytes → Polled EncodedMessage (Option Bytes)
give e (ok b) = ready (some b) e
give e (err x) = fail x e

module _ (o : Octets) where
  unfoldable pub field_lines_len : HeaderMap → ℕ
  field_lines_len [] = 0
  field_lines_len ((name, value) ∷ headers) =
      o.varint_len (length name)
      + length name
      + o.varint_len (length value)
      + length value
      + field_lines_len headers

  unfoldable pub put_field_lines : HeaderMap → OctetsMut → Option OctetsMut
  put_field_lines [] m = some m
  put_field_lines ((name, value) ∷ headers) m = do
    m₁ ← o.put_varint (length name) m
    m₂ ← o.put_bytes name m₁
    m₃ ← o.put_varint (length value) m₂
    m₄ ← o.put_bytes value m₃
    put_field_lines headers m₄

  unfoldable pub request_control_data_len : RequestParts → Bytes → Bytes → ℕ
  request_control_data_len parts scheme authority =
      o.varint_len (length parts.method)
      + length parts.method
      + o.varint_len (length scheme)
      + length scheme
      + o.varint_len (length authority)
      + length authority
      + elim parts.uri.query [
        | some query ↦
            o.varint_len (length parts.uri.path + 1 + length query)
            + (length parts.uri.path + 1 + length query)
        | none ↦ o.varint_len (length parts.uri.path) + length parts.uri.path
      ]

  -- Path and query are put as three byte strings, the path alone as one.
  unfoldable pub put_path : Uri → OctetsMut → Option OctetsMut
  put_path uri m = elim uri.query [
    | some query ↦ (do
      m₁ ← o.put_varint (length uri.path + 1 + length query) m
      m₂ ← o.put_bytes uri.path m₁
      m₃ ← o.put_bytes (63 ∷ []) m₂
      o.put_bytes query m₃)
    | none ↦ (do m₁ ← o.put_varint (length uri.path) m; o.put_bytes uri.path m₁)
  ]

  unfoldable pub put_request_control_data :
      RequestParts → Bytes → Bytes → OctetsMut → Option OctetsMut
  unfolding put_path
  put_request_control_data parts scheme authority m = do
    m₁ ← o.put_varint (length parts.method) m
    m₂ ← o.put_bytes parts.method m₁
    m₃ ← o.put_varint (length scheme) m₂
    m₄ ← o.put_bytes scheme m₃
    m₅ ← o.put_varint (length authority) m₄
    m₆ ← o.put_bytes authority m₅
    put_path parts.uri m₆

  unfoldable pub put_request_parts : RequestParts → Bytes → Bytes → OctetsMut → Option OctetsMut
  unfolding put_request_control_data put_field_lines
  put_request_parts parts scheme authority m = do
    m₁ ← o.put_varint 2 m
    m₂ ← put_request_control_data parts scheme authority m₁
    m₃ ← put_field_lines parts.headers m₂
    o.put_varint 0 m₃

  -- A request without a scheme is refused. The vector is cut down to what was written.
  unfoldable pub request_chunk_of : RequestParts → Bytes → Option Bytes → Result Bytes
  unfolding put_request_parts request_control_data_len field_lines_len
  request_chunk_of parts authority none = err (io invalid_data)
  request_chunk_of parts authority (some scheme) =
      let initial_chunk_len =
        o.varint_len 2
        + request_control_data_len parts scheme authority
        + field_lines_len parts.headers
        + o.varint_len 0 in
      written_of (unwrap (put_request_parts parts scheme authority (with_slice initial_chunk_len)))

  unfoldable pub initial_indeterminate_length_request_chunk : Http → RequestParts → Result Bytes
  unfolding request_chunk_of wire_authority
  initial_indeterminate_length_request_chunk h parts =
      request_chunk_of parts (wire_authority h parts) parts.uri.scheme

  unfoldable pub put_indeterminate_length_response_parts :
      ResponseParts → OctetsMut → Option OctetsMut
  unfolding put_field_lines
  put_indeterminate_length_response_parts parts m = do
    m₁ ← o.put_varint 3 m
    m₂ ← o.put_varint parts.status m₁
    m₃ ← put_field_lines parts.headers m₂
    o.put_varint 0 m₃

  unfoldable pub put_known_length_response_parts : ResponseParts → OctetsMut → Option OctetsMut
  unfolding put_field_lines field_lines_len
  put_known_length_response_parts parts m = do
    m₁ ← o.put_varint 1 m
    m₂ ← o.put_varint parts.status m₁
    m₃ ← o.put_varint (field_lines_len parts.headers) m₂
    put_field_lines parts.headers m₃

  unfoldable pub initial_indeterminate_length_response_chunk : ResponseParts → Result Bytes
  unfolding put_indeterminate_length_response_parts field_lines_len
  initial_indeterminate_length_response_chunk parts =
      let initial_chunk_len =
        o.varint_len 3
        + o.varint_len parts.status
        + field_lines_len parts.headers
        + o.varint_len 0 in
      vec_of (unwrap (put_indeterminate_length_response_parts parts (with_slice initial_chunk_len)))

  unfoldable pub initial_known_length_response_chunk : ResponseParts → ℕ → Result Bytes
  unfolding put_known_length_response_parts field_lines_len
  initial_known_length_response_chunk parts size =
      let field_line_len = field_lines_len parts.headers in
      let initial_chunk_len =
        o.varint_len 1
        + o.varint_len parts.status
        + o.varint_len field_line_len
        + field_line_len
        + o.varint_len size in
      vec_of (
        unwrap (
          put_known_length_response_parts parts (with_slice initial_chunk_len) >>= λ m.
          o.put_varint size m))

  unfoldable pub encode_request : Http → RequestParts → List Event → Result EncodedMessage
  unfolding initial_indeterminate_length_request_chunk
  encode_request h parts body =
      message indeterminate_length body (initial_indeterminate_length_request_chunk h parts)

  -- `size` is `body.size_hint().exact()`.
  unfoldable pub encode_response : ResponseParts → Option ℕ → List Event → Result EncodedMessage
  unfolding initial_known_length_response_chunk initial_indeterminate_length_response_chunk
  encode_response parts size body = elim size [
    | some n ↦ message known_length body (initial_known_length_response_chunk parts n)
    | none ↦ message indeterminate_length body (initial_indeterminate_length_response_chunk parts)
  ]

  -- A chunk of an indeterminate-length message: its length, then its bytes. There is no way to
  -- encode an empty chunk, so it is passed on as it is.
  unfoldable pub encoded_chunk : Bytes → Result Bytes
  encoded_chunk [] = ok []
  encoded_chunk (x ∷ chunk) =
      let chunk_len : ℕ = length (x ∷ chunk) in
      with_chunk (x ∷ chunk)
        (vec_of (unwrap (o.put_varint chunk_len (with_slice (o.varint_len chunk_len)))))

  abbrev pub content_chunk : EncodedMessageKind → Bytes → Result Bytes
  content_chunk known_length chunk = ok chunk
  content_chunk indeterminate_length chunk = encoded_chunk chunk

  -- The body's next answer, once the initial chunk is gone.
  abbrev pub poll_body : EncodedMessage → List Event → Polled EncodedMessage (Option Bytes)
  poll_body e [] = ready (end_chunk e.kind) (record e { body = []; end_of_content = true })
  poll_body e (not_ready ∷ rest) = pending (record e { body = rest })
  poll_body e (broken x ∷ rest) = fail (upstream x) (record e { body = rest })
  poll_body e (item chunk ∷ rest) = give (record e { body = rest }) (content_chunk e.kind chunk)

  -- `impl Stream for EncodedMessage`
  unfoldable pub poll_next : EncodedMessage → Polled EncodedMessage (Option Bytes)
  poll_next e = if e.end_of_content then ready none e else elim e.initial_chunk [
    | some chunk ↦ ready (some chunk) (record e { initial_chunk = none })
    | none ↦ poll_body e e.body
  ]
