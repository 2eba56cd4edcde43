-- ===== src/HyperBinary/Encoder/InitialRequest.antt =====
-- The initial chunk of a request.
use pvcli.Prelude.{ℕ, ◌+◌, ◌≡◌, refl, Option, none, some, [], ◌∷◌, ◌++◌, Bytes, length}
use pvcli.Prelude.{length-append, append_assoc, append-nil, arith}
use pvcli.Octets.{Octets, OctetsMut, OctetsLaws, with_slice}
use pvcli.Octets.Write.{Writes, >>=-Writes, Writes-exact, put_varint-Writes, put_bytes-Writes}
use pvcli.Http.{Http, Uri, path_and_query_bytes}
use pvcli.Poll.{ok, unwrap}
use pvcli.HyperBinary.Encoder.{RequestParts}
use pvcli.HyperBinary.Encoder.{
  written_of, put_path, put_request_control_data, put_request_parts, request_chunk_of,
  request_control_data_len, wire_authority,
}
use pvcli.HyperBinary.Encoder.{initial_indeterminate_length_request_chunk}
use pvcli.HyperBinary.Encoder.Wire.{
  counted_bytes, field_lines_bytes, request_control_bytes, indeterminate_request_bytes,
}
use pvcli.HyperBinary.Encoder.Wire.{IsShort, AreShort}
use pvcli.HyperBinary.Encoder.Initial.{
  counted-Writes, field_lines_then, varint_end-Writes, varint_then, length-varint_then,
  length-counted, length-field_lines,
}

-- What the encoder of requests relies on: every length fits a variable-length integer.
pub record FitsRequest (parts : RequestParts) (scheme authority : Bytes) : Type 0 where
  pub method : IsShort parts.method
  pub scheme_fits : IsShort scheme
  pub authority_fits : IsShort authority
  pub path : IsShort (path_and_query_bytes parts.uri)
  pub headers : AreShort parts.headers

written_of-Writes :
    (f : OctetsMut → Option OctetsMut) (b : Bytes) (n : ℕ)
    → Writes f b
    → n ≡ length b
    → written_of (unwrap (f (with_slice n))) ≡ ok b
written_of-Writes f b n h e = rw (Writes-exact f b n h e) refl

module _ (o : Octets) (laws : OctetsLaws o) where
  open laws use {varint_bytes}

  path_cases :
      (p : Bytes) (q : Option Bytes) (s a : Option Bytes)
      → let u : Uri = record { scheme = s; authority = a; path = p; query = q } in
        IsShort (path_and_query_bytes u)
        → Writes (put_path o u) (counted_bytes varint_bytes (path_and_query_bytes u) [])
  unfolding put_path
  path_cases p none s a short =
      >>=-Writes _ _ _ _ (put_varint-Writes o laws (length p) short)
        (rw (append-nil p) (put_bytes-Writes o laws p))
  path_cases p (some q) s a short =
      let size : length p + 1 + length q ≡ length (p ++ (63 ∷ q)) =
        omega (arith, length-append p (63 ∷ q)) in
      rw (size, append-nil (p ++ (63 ∷ q)))
        (>>=-Writes _ _ _ _ (put_varint-Writes o laws _ short) (
          >>=-Writes _ _ _ _ (put_bytes-Writes o laws p) (
            >>=-Writes _ _ (63 ∷ []) q (put_bytes-Writes o laws (63 ∷ []))
              (put_bytes-Writes o laws q))))

  control-Writes :
      (parts : RequestParts) (scheme authority : Bytes)
      → FitsRequest parts scheme authority
      → Writes
          (put_request_control_data o parts scheme authority)
          (request_control_bytes varint_bytes parts scheme authority [])
  unfolding put_request_control_data
  control-Writes parts scheme authority fits = counted-Writes o laws parts.method _ _ fits.method (
      counted-Writes o laws scheme _ _ fits.scheme_fits (
        counted-Writes o laws authority _ _ fits.authority_fits (
          path_cases parts.uri.path parts.uri.query parts.uri.scheme parts.uri.authority
            fits.path)))

  path_len_cases :
      (p : Bytes) (q : Option Bytes) (s a : Option Bytes) (rest : Bytes)
      → let u : Uri = record { scheme = s; authority = a; path = p; query = q } in
        IsShort (path_and_query_bytes u)
        → length (counted_bytes varint_bytes (path_and_query_bytes u) rest)
          ≡ elim q [
            | some query ↦
                o.varint_len (length p + 1 + length query) + (length p + 1 + length query)
            | none ↦ o.varint_len (length p) + length p
          ]
            + length rest
  path_len_cases p none s a rest short = length-counted o laws p rest short
  path_len_cases p (some q) s a rest short =
      let size : length (p ++ (63 ∷ q)) ≡ length p + 1 + length q =
        omega (arith, length-append p (63 ∷ q)) in
      rw (← size) (length-counted o laws (p ++ (63 ∷ q)) rest short)

  length-control :
      (parts : RequestParts) (scheme authority rest : Bytes)
      → FitsRequest parts scheme authority
      → length (request_control_bytes varint_bytes parts scheme authority rest)
        ≡ request_control_data_len o parts scheme authority + length rest
  unfolding request_control_data_len
  length-control parts scheme authority rest fits =
      let tail = counted_bytes varint_bytes (path_and_query_bytes parts.uri) rest in
      omega (
        arith,
        length-counted o laws parts.method
            (counted_bytes varint_bytes scheme (counted_bytes varint_bytes authority tail))
            fits.method,
        length-counted o laws scheme (counted_bytes varint_bytes authority tail) fits.scheme_fits,
        length-counted o laws authority tail fits.authority_fits,
        path_len_cases parts.uri.path parts.uri.query parts.uri.scheme parts.uri.authority rest
            fits.path,
      )

  request_parts-Writes :
      (parts : RequestParts) (scheme authority : Bytes)
      → FitsRequest parts scheme authority
      → Writes
          (put_request_parts o parts scheme authority)
          (indeterminate_request_bytes varint_bytes parts scheme authority [])
  unfolding put_request_parts
  request_parts-Writes parts scheme authority fits = varint_then o laws 2 _ _ (omega arith) (
      simp append_assoc at (
        >>=-Writes _ _ _ _ (control-Writes parts scheme authority fits) (
          field_lines_then o laws parts.headers _ _ fits.headers
            (varint_end-Writes o laws 0 (omega arith)))))

  chunk_of_parts :
      (parts : RequestParts) (scheme authority : Bytes)
      → FitsRequest parts scheme authority
      → request_chunk_of o parts authority (some scheme)
        ≡ ok (indeterminate_request_bytes varint_bytes parts scheme authority [])
  unfolding request_chunk_of
  chunk_of_parts parts scheme authority fits =
      let tail : Bytes = field_lines_bytes varint_bytes parts.headers (varint_bytes 0 ++ []) in
      written_of-Writes _ _ _ (request_parts-Writes parts scheme authority fits) (
        omega (
          arith,
          length-varint_then o laws 2
              (request_control_bytes varint_bytes parts scheme authority tail) (omega arith),
          length-control parts scheme authority tail fits,
          length-field_lines o laws parts.headers (varint_bytes 0 ++ []) fits.headers,
          length-varint_then o laws 0 [] (omega arith),
        ))

  -- If the request has a scheme and every length fits, its initial chunk is the framing indicator,
  -- the control data, the field lines and the terminator of an indeterminate-length request. The
  -- length computed ahead is exact, so that no write fails; the authority is left empty where
  -- the host header says the same.
  pub request_chunk :
      (h : Http) (parts : RequestParts) (scheme : Bytes)
      → parts.uri.scheme ≡ some scheme
      → FitsRequest parts scheme (wire_authority h parts)
      → initial_indeterminate_length_request_chunk o h parts
        ≡ ok (indeterminate_request_bytes varint_bytes parts scheme (wire_authority h parts) [])
  unfolding initial_indeterminate_length_request_chunk
  request_chunk h parts scheme e fits =
      rw e (chunk_of_parts parts scheme (wire_authority h parts) fits)
