-- ===== src/HyperBinary/RoundTrip/Request.antt =====
-- A request, encoded, cut into chunks in any way, and decoded.
use mathlib.Core.Path.{subst}
use pvcli.Prelude.{
  ℕ, ◌+◌, ◌<◌, ◌≡◌, refl, sym, ap, ◌∙◌, true, Option, none, some, List, [], ◌∷◌, Bytes, length,
}
use pvcli.Prelude.{append_assoc, arith, Bool-cases, inl, inr}
use pvcli.Octets.{Octets, OctetsLaws}
use pvcli.Http.{
  Http, HttpLaws, HeaderMap, Uri, get_all, bytes_eq, host_name, head?, path_and_query_bytes,
}
use pvcli.Poll.{Outcome, done, failed, stuck, collect, ok}
use pvcli.StreamBuf.{StreamBuf, Event}
use pvcli.StreamBuf.Content.{stream_bytes}
use pvcli.StreamBuf.Flat.{got}
use pvcli.StreamBuf.Refine.{Represents, EndsAs}
use pvcli.HyperBinary.Encoder as Encoder
use pvcli.HyperBinary.Encoder.{
  RequestParts, EncodedMessage, encode_request, poll_next, wire_authority, authority_but,
  differs_from_host,
}
use pvcli.HyperBinary.Encoder.InitialRequest.{FitsRequest, request_chunk}
use pvcli.HyperBinary.Encoder.Drain.{drain_message}
use pvcli.HyperBinary.Encoder.Wire.{indeterminate_request_bytes, chunked_bytes, IsSoundBody}
use pvcli.HyperBinary.Decoder.{
  Request, decode_request, indeterminate_length_body, optional_authority, request_authority,
}
use pvcli.HyperBinary.Decoder.Implements.{decode_request-Implements}
use pvcli.HyperBinary.Body.{DecodedBody}
use pvcli.HyperBinary.RoundTrip.Reads.{IsSized}
use pvcli.HyperBinary.RoundTrip.Lines.{append_all, get_all-append_all}
use pvcli.HyperBinary.RoundTrip.Flat.Messages.{IsRequest, indeterminate_request_front}
use pvcli.HyperBinary.RoundTrip.Response.{AreLines-AreShort, tail_lem, body_of, body_back}

bytes_eq→eq : (a b : Bytes) → bytes_eq a b ≡ true → a ≡ b
bytes_eq→eq [] [] e = refl
bytes_eq→eq [] (y ∷ b) e = cc
bytes_eq→eq (x ∷ a) [] e = cc
bytes_eq→eq (x ∷ a) (y ∷ b) e = ground (arith, bytes_eq→eq a b)

module _ (h : Http) (laws : HttpLaws h) (headers : HeaderMap) where
  same_host : h.get_host (append_all h [] headers) ≡ h.get_host headers
  same_host =
      laws.get_host_lem (append_all h [] headers)
      ∙ ap head? (get_all-append_all h laws [] headers host_name)
      ∙ sym (laws.get_host_lem headers)

  -- The authority is found again, on the wire or in the host header.
  authority_found :
      (usize_max : ℕ) (authority : Bytes) (host : Option Bytes)
      → h.get_host headers ≡ host
      → 0 < length authority
      → h.authority authority ≡ some authority
      → IsSized usize_max (length authority)
      → (seen : Option Bytes) × (optional_authority h (authority_but host (some authority))
          ≡ some seen)
        × (request_authority h seen (append_all h [] headers) ≡ some authority)
        × IsSized usize_max (length (authority_but host (some authority)))
  authority_found usize_max [] host e pos parses sized = absurd (omega arith)
  authority_found usize_max (x ∷ a) none e pos parses sized =
      (some (x ∷ a), rw parses refl, refl, sized)
  authority_found usize_max (x ∷ a) (some host) e pos parses sized =
      elim (Bool-cases (bytes_eq host (x ∷ a))) [
        | inr differ ↦ rw differ (some (x ∷ a), rw parses refl, refl, sized)
        | inl equal ↦
            let host_same : host ≡ x ∷ a = bytes_eq→eq host (x ∷ a) equal in
            rw equal (none, refl, rw (same_host, e, host_same, parses) refl, omega arith)
      ]

-- A request as hyper holds it: its parts parse back, `Uri::from_parts` takes its control data, and
-- its body is sound.
pub record IsWhole (h : Http) (usize_max : ℕ) (parts : RequestParts) (scheme authority : Bytes)
    (uri : Uri) (es : List Event) : Type 0 where
  pub control : IsRequest h usize_max parts scheme authority
  pub made : h.from_parts scheme authority (path_and_query_bytes parts.uri) ≡ some uri
  pub sound : IsSoundBody es

module _ (o : Octets) (laws : OctetsLaws o) (h : Http) (hlaws : HttpLaws h) (usize_max : ℕ) where
  open laws use {varint_bytes}

  abbrev pub request_bytes : RequestParts → Bytes → List Event → Bytes
  request_bytes parts scheme es =
      indeterminate_request_bytes varint_bytes parts scheme (wire_authority h parts)
        (chunked_bytes varint_bytes es)

  found :
      (parts : RequestParts) (scheme authority : Bytes)
      → IsRequest h usize_max parts scheme authority
      → (seen : Option Bytes) × (optional_authority h (wire_authority h parts) ≡ some seen)
        × (request_authority h seen (append_all h [] parts.headers) ≡ some authority)
        × IsSized usize_max (length (wire_authority h parts))
  unfolding wire_authority
  found parts scheme authority r = rw r.has_authority (
      authority_found h hlaws parts.headers usize_max authority _ refl r.authority_nonempty
        r.authority_parses r.authority_sized)

  -- `encode_request` succeeds on such a request, and its message, polled to its end, yields the
  -- bytes that binary HTTP asks for, with the authority left out where the host header has it.
  pub encode_request-request_bytes :
      (parts : RequestParts) (scheme authority : Bytes) (uri : Uri) (es : List Event)
      → IsWhole h usize_max parts scheme authority uri es
      → (e : EncodedMessage) × (e' : EncodedMessage) × (encode_request o h parts es ≡ ok e)
        × (collect (length es + 3) (poll_next o) [] e ≡ done (request_bytes parts scheme es) e')
  unfolding encode_request
  encode_request-request_bytes parts scheme authority uri es w =
      let r = w.control in
      let (seen, parsed, again, sized) = found parts scheme authority r in
      let fits : FitsRequest parts scheme (wire_authority h parts) = record {
        method = r.method_sized.0;
        scheme_fits = r.scheme_sized.0;
        authority_fits = sized.0;
        path = r.path_sized.0;
        headers = AreLines-AreShort h usize_max parts.headers r.lines;
      } in
      let head = request_chunk o laws h parts scheme r.has_scheme fits in
      let drained =
        drain_message o laws Encoder.indeterminate_length
          (indeterminate_request_bytes varint_bytes parts scheme (wire_authority h parts) []) es
          (length es + 3) w.sound (omega arith) in
      (
        _,
        _,
        rw head refl,
        simp
            (
              append_assoc,
              ← tail_lem o laws h usize_max parts.headers (chunked_bytes varint_bytes es),
            )
            at drained,
      )

  read_back :
      (parts : RequestParts) (uri : Uri) (es : List Event) (q : Outcome StreamBuf Request)
      → 0 < usize_max
      → IsSoundBody es
      → EndsAs
          (got
            (record {
              method = parts.method;
              uri = uri;
              headers = append_all h [] parts.headers;
              body = indeterminate_length_body;
            })
            (chunked_bytes varint_bytes es))
          q
      → (r : Request) × (s : StreamBuf) × (d : DecodedBody) × (q ≡ done r s)
        × (r.method ≡ parts.method)
        × (r.uri ≡ uri)
        × ((k : Bytes) → get_all k r.headers ≡ get_all k parts.headers)
        × (body_of o laws h usize_max r.body s ≡ done (stream_bytes es) d)
  read_back parts uri es (done r s) room sound (rest, e, rep) =
      let expected : Request = record {
        method = parts.method;
        uri = uri;
        headers = append_all h [] parts.headers;
        body = indeterminate_length_body;
      } in
      let same_request : expected ≡ r = cc in
      let same_rest : chunked_bytes varint_bytes es ≡ rest = cc in
      let (d, body_read) =
        body_back o laws h usize_max none es s room sound tt
          (subst (Represents s) (sym same_rest) rep) in
      (
        expected,
        s,
        d,
        ap (λ x. done x s) (sym same_request),
        refl,
        refl,
        get_all-append_all h hlaws [] parts.headers,
        body_read,
      )
  read_back parts uri es (failed x s) room sound e = cc
  read_back parts uri es stuck room sound e = cc

  -- Take any request as hyper holds it, encoded to bytes, and any StreamBuf whose clean stream
  -- delivers those bytes, cut into non-empty chunks in any way, `Pending` anywhere, within the
  -- size limit. Then `decode_request` succeeds and gives back the method, a URI with the same
  -- scheme, authority, path and query, and, under every name, the header values in order; and
  -- its body, polled to its end, gives the bytes of the body.
  pub decode_request-request_bytes :
      (parts : RequestParts) (scheme authority : Bytes) (uri : Uri) (es : List Event)
      (s : StreamBuf)
      → 0 < usize_max
      → IsWhole h usize_max parts scheme authority uri es
      → Represents s (request_bytes parts scheme es)
      → (r : Request) × (s' : StreamBuf) × (d : DecodedBody) × (decode_request o h usize_max s
          ≡ done r s')
        × (r.method ≡ parts.method)
        × (r.uri.scheme ≡ some scheme)
        × (r.uri.authority ≡ some authority)
        × (path_and_query_bytes r.uri ≡ path_and_query_bytes parts.uri)
        × ((k : Bytes) → get_all k r.headers ≡ get_all k parts.headers)
        × (body_of o laws h usize_max r.body s' ≡ done (stream_bytes es) d)
  decode_request-request_bytes parts scheme authority uri es s room w rep =
      let (seen, parsed, again, sized) = found parts scheme authority w.control in
      let flat =
        indeterminate_request_front o laws h usize_max parts scheme authority
          (wire_authority h parts) seen uri (chunked_bytes varint_bytes es) w.control sized parsed
          again w.made in
      let (r, s', d, decoded, m, u, hs, b) =
        read_back parts uri es _ room w.sound
          (rw flat at (decode_request-Implements o laws h usize_max s _ rep)) in
      let (us, ua, up) =
        hlaws.from_parts_lem scheme authority (path_and_query_bytes parts.uri) uri w.made in
      (r, s', d, decoded, m, rw u us, rw u ua, rw u up, hs, b)
