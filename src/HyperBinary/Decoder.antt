-- ===== src/HyperBinary/Decoder.antt =====
-- crates/hyper-binary/src/decoder/mod.rs. The state of every function is the StreamBuf that it
-- reads; the body that it returns owns that StreamBuf, which is the state of the outcome.
pub mod Fields
pub mod Flat
pub mod Refine
pub mod Implements
pub mod Served
pub mod Ends
pub mod LineLengths
pub mod Total
use pvcli.Prelude.{
  ℕ, zero, suc, ◌≡◌, Bool, true, false, not, Option, none, some, List, [], ◌∷◌, Bytes, length, leb,
}
use pvcli.Prelude.{is_empty, ◌==◌, if◌then◌else◌}
use pvcli.Octets.{Octets}
use pvcli.Http.{Http, HeaderMap, Uri}
use pvcli.Poll.{io, invalid_data, Outcome, stuck}
use pvcli.Poll.Async.{Async, pure, throw, ◌>>=◌}
use pvcli.StreamBuf.{StreamBuf, has_more_data, read_exact}
use pvcli.StreamBuf.Content.{content}
use pvcli.StreamOctets.{decode_varint_u64, decode_varint_usize, read_with_varint_length}
use Fields.{field_lines, Lines, lines, invalid}

pub data DecodedBodyKind : Type 0 where
  known_length : ℕ → DecodedBodyKind
  indeterminate_length : Option ℕ → DecodedBodyKind

pub record RequestControlData : Type 0 where
  pub method : Bytes
  pub scheme : Bytes
  pub authority : Option Bytes
  pub path : Bytes

pub record Request : Type 0 where
  pub method : Bytes
  pub uri : Uri
  pub headers : HeaderMap
  pub body : DecodedBodyKind

pub record Response : Type 0 where
  pub status : ℕ
  pub headers : HeaderMap
  pub body : DecodedBodyKind

abbrev pub or_invalid : {A : Type 0} → Option A → Async StreamBuf A
or_invalid (some a) = pure a
or_invalid none = throw (io invalid_data)

abbrev pub from_lines : Lines → Async StreamBuf HeaderMap
from_lines (lines h) = pure h
from_lines invalid = throw (io invalid_data)
from_lines Lines.stuck = λ s. stuck

-- `u16::try_from`
abbrev pub to_u16 : ℕ → Option ℕ
to_u16 v = if leb v 0xffff then some v else none

-- `Some(bytes).filter(|bytes| !bytes.is_empty()).map(Authority::from_maybe_shared).transpose()`
abbrev pub optional_authority : Http → Bytes → Option (Option Bytes)
optional_authority h [] = some none
optional_authority h (x ∷ b) = Fields.◌>>=◌ (h.authority (x ∷ b)) (λ a. some (some a))

abbrev pub status_of : Http → ℕ → Option ℕ
status_of h v = Fields.◌>>=◌ (to_u16 v) h.status_code

-- `DecodedBody::indeterminate_length`
abbrev pub indeterminate_length_body : DecodedBodyKind
indeterminate_length_body = indeterminate_length (some 0)

abbrev pub request_authority : Http → Option Bytes → HeaderMap → Option Bytes
request_authority h (some authority) headers = some authority
request_authority h none headers = Fields.◌>>=◌ (h.get_host headers) h.authority

abbrev pub request_uri : Http → RequestControlData → Bytes → Option Uri
request_uri h c authority = h.from_parts c.scheme authority c.path

-- The function `request`: `none` is `InvalidData`.
unfoldable pub request : Http → RequestControlData → HeaderMap → DecodedBodyKind → Option Request
request h c headers body = Fields.◌>>=◌ (request_authority h c.authority headers) λ authority.
    Fields.◌>>=◌ (request_uri h c authority)
      λ uri. some (record { method = c.method; uri = uri; headers = headers; body = body })

-- The function `response`.
abbrev pub response : ℕ → HeaderMap → DecodedBodyKind → Response
response status headers body = record { status = status; headers = headers; body = body }

module _ (o : Octets) (h : Http) (usize_max : ℕ) where
  abbrev pub read_counted : Async StreamBuf Bytes
  read_counted = read_with_varint_length o usize_max

  unfoldable pub decode_known_length_field_section : Async StreamBuf HeaderMap
  decode_known_length_field_section = do
    more ← has_more_data
    (if more
        then (read_counted >>= λ buf. from_lines (field_lines o h usize_max (length buf) buf []))
        else pure [])

  -- The loop of `decode_indeterminate_length_field_section`.
  unfoldable pub indeterminate_length_loop : ℕ → HeaderMap → Async StreamBuf HeaderMap
  indeterminate_length_loop zero headers = λ s. stuck
  indeterminate_length_loop (suc fuel) headers = do
    more ← has_more_data
    elim more [
      | false ↦ pure headers
      | true ↦ (do
        name_length ← decode_varint_usize o usize_max
        elim name_length [
          | zero ↦ pure headers
          | suc len ↦ (do
            raw_name ← read_exact (suc len)
            name ← or_invalid (h.header_name raw_name)
            raw_value ← read_counted
            value ← or_invalid (h.header_value raw_value)
            indeterminate_length_loop fuel (h.append headers name value))
        ])
    ]

  -- Every round takes a byte at least off the content.
  unfoldable pub decode_indeterminate_length_field_section : Async StreamBuf HeaderMap
  unfolding indeterminate_length_loop
  decode_indeterminate_length_field_section s =
      indeterminate_length_loop (suc (length (content s))) [] s

  unfoldable pub decode_request_control_data : Async StreamBuf RequestControlData
  decode_request_control_data = do
    raw_method ← read_counted
    method ← or_invalid (h.method raw_method)
    raw_scheme ← read_counted
    scheme ← or_invalid (h.scheme raw_scheme)
    raw_authority ← read_counted
    authority ← or_invalid (optional_authority h raw_authority)
    raw_path ← read_counted
    path ← or_invalid (h.path_and_query raw_path)
    pure (record { method = method; scheme = scheme; authority = authority; path = path })

  unfoldable pub decode_status : Async StreamBuf ℕ
  decode_status = decode_varint_usize o usize_max >>= λ v. or_invalid (status_of h v)

  -- The loop that skips informational responses.
  unfoldable pub skip_informational : ℕ → ℕ → Async StreamBuf ℕ
  unfolding decode_known_length_field_section decode_status
  skip_informational zero status = λ s. stuck
  skip_informational (suc fuel) status = elim (h.is_informational status) [
    | false ↦ pure status
    | true ↦ (do
      skipped ← decode_known_length_field_section
      next ← decode_status
      skip_informational fuel next)
  ]

  -- The `ResponseControlData` is its one field. Every round takes a byte at least.
  unfoldable pub decode_response_control_data : Async StreamBuf ℕ
  unfolding skip_informational
  decode_response_control_data =
      decode_status >>= λ status s. skip_informational (suc (length (content s))) status s

  -- `DecodedBody::known_length`
  unfoldable pub known_length_body : Async StreamBuf DecodedBodyKind
  known_length_body = do
    more ← has_more_data
    remaining ← (if more then decode_varint_u64 o else pure 0)
    pure (known_length remaining)

  unfoldable pub decode_known_length_request : Async StreamBuf Request
  decode_known_length_request = do
    control ← decode_request_control_data
    headers ← decode_known_length_field_section
    body ← known_length_body
    or_invalid (request h control headers body)

  unfoldable pub decode_indeterminate_length_request : Async StreamBuf Request
  decode_indeterminate_length_request = do
    control ← decode_request_control_data
    headers ← decode_indeterminate_length_field_section
    or_invalid (request h control headers indeterminate_length_body)

  unfoldable pub decode_known_length_response : Async StreamBuf Response
  decode_known_length_response = do
    status ← decode_response_control_data
    headers ← decode_known_length_field_section
    body ← known_length_body
    pure (response status headers body)

  unfoldable pub decode_indeterminate_length_response : Async StreamBuf Response
  decode_indeterminate_length_response = do
    status ← decode_response_control_data
    headers ← decode_indeterminate_length_field_section
    pure (response status headers indeterminate_length_body)

  unfoldable pub decode_request : Async StreamBuf Request
  decode_request = do
    framing_indicator ← decode_varint_u64 o
    (if framing_indicator == 0
        then decode_known_length_request
        else if framing_indicator == 2
        then decode_indeterminate_length_request
        else throw (io invalid_data))

  unfoldable pub decode_response : Async StreamBuf Response
  decode_response = do
    framing_indicator ← decode_varint_u64 o
    (if framing_indicator == 1
        then decode_known_length_response
        else if framing_indicator == 3
        then decode_indeterminate_length_response
        else throw (io invalid_data))
