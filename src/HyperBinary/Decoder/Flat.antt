-- ===== src/HyperBinary/Decoder/Flat.antt =====
-- The specification of the decoder: the same functions over the flat cursor, where the message is
-- one byte string that is there at once.
use pvcli.Prelude.{ℕ, zero, suc, true, false, Option, none, some, [], Bytes, length, ◌==◌}
use pvcli.Prelude.{if◌then◌else◌}
use pvcli.Octets.{Octets}
use pvcli.Http.{Http, HeaderMap}
use pvcli.Poll.{io, invalid_data}
use pvcli.StreamBuf.Flat.{Flat, stuck, pure, throw, ◌>>=◌, has_more_data, read_exact}
use pvcli.StreamOctets.Flat.{with_octets, decode_varint_usize, read_with_varint_length}
use pvcli.HyperBinary.Decoder.{DecodedBodyKind, known_length, RequestControlData, Request, Response}
use pvcli.HyperBinary.Decoder.{
  optional_authority, status_of, indeterminate_length_body, request, response,
}
use pvcli.HyperBinary.Decoder.Fields.{field_lines, Lines, lines, invalid}

abbrev pub or_invalid : {A : Type 0} → Option A → Flat A
or_invalid (some a) = pure a
or_invalid none = throw (io invalid_data)

abbrev pub from_lines : Lines → Flat HeaderMap
from_lines (lines h) = pure h
from_lines invalid = throw (io invalid_data)
from_lines Lines.stuck = λ bs. stuck

module _ (o : Octets) (h : Http) (usize_max : ℕ) where
  abbrev pub read_counted : Flat Bytes
  read_counted = read_with_varint_length o usize_max

  unfoldable pub decode_known_length_field_section : Flat HeaderMap
  decode_known_length_field_section = do
    more ← has_more_data
    (if more
        then (read_counted >>= λ buf. from_lines (field_lines o h usize_max (length buf) buf []))
        else pure [])

  unfoldable pub indeterminate_length_loop : ℕ → HeaderMap → Flat HeaderMap
  indeterminate_length_loop zero headers = λ bs. stuck
  indeterminate_length_loop (suc fuel) headers = do
    more ← has_more_data
    elim more [
      | false ↦ pure headers
      | true ↦ (do
        name_length ← decode_varint_usize o usize_max
        elim name_length [
          | zero ↦ pure headers
          | suc len ↦ (do
            raw_name ← read_exact (suc len)
            name ← or_invalid (h.header_name raw_name)
            raw_value ← read_counted
            value ← or_invalid (h.header_value raw_value)
            indeterminate_length_loop fuel (h.append headers name value))
        ])
    ]

  unfoldable pub decode_indeterminate_length_field_section : Flat HeaderMap
  unfolding indeterminate_length_loop
  decode_indeterminate_length_field_section bs = indeterminate_length_loop (suc (length bs)) [] bs

  unfoldable pub decode_request_control_data : Flat RequestControlData
  decode_request_control_data = do
    raw_method ← read_counted
    method ← or_invalid (h.method raw_method)
    raw_scheme ← read_counted
    scheme ← or_invalid (h.scheme raw_scheme)
    raw_authority ← read_counted
    authority ← or_invalid (optional_authority h raw_authority)
    raw_path ← read_counted
    path ← or_invalid (h.path_and_query raw_path)
    pure (record { method = method; scheme = scheme; authority = authority; path = path })

  unfoldable pub decode_status : Flat ℕ
  decode_status = decode_varint_usize o usize_max >>= λ v. or_invalid (status_of h v)

  unfoldable pub skip_informational : ℕ → ℕ → Flat ℕ
  unfolding decode_known_length_field_section decode_status
  skip_informational zero status = λ bs. stuck
  skip_informational (suc fuel) status = elim (h.is_informational status) [
    | false ↦ pure status
    | true ↦ (do
      skipped ← decode_known_length_field_section
      next ← decode_status
      skip_informational fuel next)
  ]

  unfoldable pub decode_response_control_data : Flat ℕ
  unfolding skip_informational
  decode_response_control_data =
      decode_status >>= λ status bs. skip_informational (suc (length bs)) status bs

  unfoldable pub known_length_body : Flat DecodedBodyKind
  known_length_body = do
    more ← has_more_data
    remaining ← (if more then with_octets o.get_varint else pure 0)
    pure (known_length remaining)

  unfoldable pub decode_known_length_request : Flat Request
  decode_known_length_request = do
    control ← decode_request_control_data
    headers ← decode_known_length_field_section
    body ← known_length_body
    or_invalid (request h control headers body)

  unfoldable pub decode_indeterminate_length_request : Flat Request
  decode_indeterminate_length_request = do
    control ← decode_request_control_data
    headers ← decode_indeterminate_length_field_section
    or_invalid (request h control headers indeterminate_length_body)

  unfoldable pub decode_known_length_response : Flat Response
  decode_known_length_response = do
    status ← decode_response_control_data
    headers ← decode_known_length_field_section
    body ← known_length_body
    pure (response status headers body)

  unfoldable pub decode_indeterminate_length_response : Flat Response
  decode_indeterminate_length_response = do
    status ← decode_response_control_data
    headers ← decode_indeterminate_length_field_section
    pure (response status headers indeterminate_length_body)

  unfoldable pub decode_request : Flat Request
  decode_request = do
    framing_indicator ← with_octets o.get_varint
    (if framing_indicator == 0
        then decode_known_length_request
        else if framing_indicator == 2
        then decode_indeterminate_length_request
        else throw (io invalid_data))

  unfoldable pub decode_response : Flat Response
  decode_response = do
    framing_indicator ← with_octets o.get_varint
    (if framing_indicator == 1
        then decode_known_length_response
        else if framing_indicator == 3
        then decode_indeterminate_length_response
        else throw (io invalid_data))
