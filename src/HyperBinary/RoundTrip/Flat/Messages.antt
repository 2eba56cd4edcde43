-- ===== src/HyperBinary/RoundTrip/Flat/Messages.antt =====
-- Whole messages, read by the flat decoder.
use pvcli.Prelude.{ℕ, suc, ◌≤◌, ◌<◌, ◌≡◌, refl, Option, some, [], ◌++◌, Bytes, length}
use pvcli.Prelude.{arith, false, le→leb}
use pvcli.Octets.{Octets, OctetsLaws, max_varint}
use pvcli.Http.{Http, Uri, path_and_query_bytes}
use pvcli.StreamBuf.Flat.{got}
use pvcli.HyperBinary.Encoder.{RequestParts, ResponseParts}
use pvcli.HyperBinary.Encoder.Wire.{
  counted_bytes, field_lines_bytes, request_control_bytes, known_response_bytes,
  indeterminate_response_bytes, indeterminate_request_bytes,
}
use pvcli.HyperBinary.Decoder.{
  request, response, known_length, indeterminate_length_body, optional_authority, request_authority,
}
use pvcli.HyperBinary.Decoder.Flat.{
  decode_status, skip_informational, decode_response_control_data, known_length_body,
  decode_known_length_response,
}
use pvcli.HyperBinary.Decoder.Flat.{
  decode_indeterminate_length_response, decode_response, decode_request_control_data,
  decode_request, decode_indeterminate_length_request,
}
use pvcli.HyperBinary.RoundTrip.Reads.{IsSized, varint_front, usize_front, counted_front}
use pvcli.HyperBinary.RoundTrip.Lines.{AreLines, append_all}
use pvcli.HyperBinary.RoundTrip.Flat.Section.{
  has_more_front, varint_pos, known_section_front, indeterminate_section_front,
}

-- A final status code, as `StatusCode` holds it.
pub record IsFinalStatus (h : Http) (usize_max status : ℕ) : Type 0 where
  pub parses : h.status_code status ≡ some status
  pub final : h.is_informational status ≡ false
  pub fits_u16 : status ≤ 0xffff
  pub fits_usize : status ≤ usize_max

module _ (o : Octets) (laws : OctetsLaws o) (h : Http) (usize_max : ℕ) where
  open laws use {varint_bytes}

  status_front :
      (status : ℕ) (rest : Bytes)
      → IsFinalStatus h usize_max status
      → decode_status o h usize_max (varint_bytes status ++ rest) ≡ got status rest
  unfolding decode_status
  status_front status rest st = rw (
    usize_front o laws usize_max status rest (omega (arith, st.fits_u16), st.fits_usize),
    le→leb status 0xffff st.fits_u16,
    st.parses,
  )

  skip_front :
      (fuel status : ℕ) (rest : Bytes)
      → IsFinalStatus h usize_max status
      → skip_informational o h usize_max (suc fuel) status rest ≡ got status rest
  unfolding skip_informational
  skip_front fuel status rest st = rw (st.final, skip_informational) refl

  response_control_front :
      (status : ℕ) (rest : Bytes)
      → IsFinalStatus h usize_max status
      → decode_response_control_data o h usize_max (varint_bytes status ++ rest) ≡ got status rest
  unfolding decode_response_control_data
  response_control_front status rest st =
      rw (status_front status rest st) (skip_front (length rest) status rest st)

  body_front :
      (size : ℕ) (rest : Bytes)
      → size < max_varint
      → known_length_body o h usize_max (varint_bytes size ++ rest) ≡ got (known_length size) rest
  unfolding known_length_body
  body_front size rest lt = rw (
    has_more_front (varint_bytes size ++ rest) (varint_pos o laws h usize_max size rest lt),
    varint_front o laws size rest lt,
  )

  pub indeterminate_response_front :
      (parts : ResponseParts) (rest : Bytes)
      → IsFinalStatus h usize_max parts.status
      → AreLines h usize_max parts.headers
      → decode_response o h usize_max (indeterminate_response_bytes varint_bytes parts rest)
        ≡ got (response parts.status (append_all h [] parts.headers) indeterminate_length_body) rest
  unfolding decode_response decode_indeterminate_length_response
  indeterminate_response_front parts rest st l =
      let tail : Bytes = field_lines_bytes varint_bytes parts.headers (varint_bytes 0 ++ rest) in
      rw (
        varint_front o laws 3 (varint_bytes parts.status ++ tail) (omega arith),
        response_control_front parts.status tail st,
        indeterminate_section_front o laws h usize_max parts.headers rest l,
      )

  pub known_response_front :
      (parts : ResponseParts) (size : ℕ) (rest : Bytes)
      → IsFinalStatus h usize_max parts.status
      → AreLines h usize_max parts.headers
      → IsSized usize_max (length (field_lines_bytes varint_bytes parts.headers []))
      → size < max_varint
      → decode_response o h usize_max (known_response_bytes varint_bytes parts size rest)
        ≡ got (response parts.status (append_all h [] parts.headers) (known_length size)) rest
  unfolding decode_response decode_known_length_response
  known_response_front parts size rest st l sized lt =
      let tail : Bytes =
        counted_bytes varint_bytes (field_lines_bytes varint_bytes parts.headers [])
          (varint_bytes size ++ rest) in
      rw (
        varint_front o laws 1 (varint_bytes parts.status ++ tail) (omega arith),
        response_control_front parts.status tail st,
        known_section_front o laws h usize_max parts.headers (varint_bytes size ++ rest) l sized,
        body_front size rest lt,
      )

-- The control data of a request as a request holds it, and an authority that may be left out.
pub record IsRequest (h : Http) (usize_max : ℕ) (parts : RequestParts) (scheme authority : Bytes)
    : Type 0 where
  pub method_parses : h.method parts.method ≡ some parts.method
  pub method_sized : IsSized usize_max (length parts.method)
  pub has_scheme : parts.uri.scheme ≡ some scheme
  pub scheme_parses : h.scheme scheme ≡ some scheme
  pub scheme_sized : IsSized usize_max (length scheme)
  pub has_authority : parts.uri.authority ≡ some authority
  pub authority_nonempty : 0 < length authority
  pub authority_parses : h.authority authority ≡ some authority
  pub authority_sized : IsSized usize_max (length authority)
  pub path_parses :
      h.path_and_query (path_and_query_bytes parts.uri) ≡ some (path_and_query_bytes parts.uri)
  pub path_sized : IsSized usize_max (length (path_and_query_bytes parts.uri))
  pub lines : AreLines h usize_max parts.headers

module _ (o : Octets) (laws : OctetsLaws o) (h : Http) (usize_max : ℕ) where
  open laws use {varint_bytes}

  -- `wire` is the authority on the wire, which is parsed as `seen`.
  control_front :
      (parts : RequestParts) (scheme authority wire : Bytes) (seen : Option Bytes) (rest : Bytes)
      → IsRequest h usize_max parts scheme authority
      → IsSized usize_max (length wire)
      → optional_authority h wire ≡ some seen
      → decode_request_control_data o h usize_max
          (request_control_bytes varint_bytes parts scheme wire rest)
        ≡ got
            (record {
              method = parts.method;
              scheme = scheme;
              authority = seen;
              path = path_and_query_bytes parts.uri;
            })
            rest
  unfolding decode_request_control_data
  control_front parts scheme authority wire seen rest r sized e =
      let p : Bytes = path_and_query_bytes parts.uri in
      rw (
        counted_front o laws usize_max parts.method
            (counted_bytes varint_bytes scheme
              (counted_bytes varint_bytes wire (counted_bytes varint_bytes p rest)))
            r.method_sized,
        r.method_parses,
        counted_front o laws usize_max scheme
            (counted_bytes varint_bytes wire (counted_bytes varint_bytes p rest)) r.scheme_sized,
        r.scheme_parses,
        counted_front o laws usize_max wire (counted_bytes varint_bytes p rest) sized,
        e,
        counted_front o laws usize_max p rest r.path_sized,
        r.path_parses,
      )

  pub indeterminate_request_front :
      (parts : RequestParts) (scheme authority wire : Bytes) (seen : Option Bytes) (uri : Uri)
      (rest : Bytes)
      → IsRequest h usize_max parts scheme authority
      → IsSized usize_max (length wire)
      → optional_authority h wire ≡ some seen
      → request_authority h seen (append_all h [] parts.headers) ≡ some authority
      → h.from_parts scheme authority (path_and_query_bytes parts.uri) ≡ some uri
      → decode_request o h usize_max
          (indeterminate_request_bytes varint_bytes parts scheme wire rest)
        ≡ got
            (record {
              method = parts.method;
              uri = uri;
              headers = append_all h [] parts.headers;
              body = indeterminate_length_body;
            })
            rest
  unfolding decode_request decode_indeterminate_length_request request
  indeterminate_request_front parts scheme authority wire seen uri rest r sized e found made =
      let tail : Bytes = field_lines_bytes varint_bytes parts.headers (varint_bytes 0 ++ rest) in
      rw (
        varint_front o laws 2 (request_control_bytes varint_bytes parts scheme wire tail)
            (omega arith),
        control_front parts scheme authority wire seen tail r sized e,
        indeterminate_section_front o laws h usize_max parts.headers rest r.lines,
        found,
        made,
      )
