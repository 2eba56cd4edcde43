-- ===== src/HyperBinary/RoundTrip/Response.antt =====
-- A response, encoded, cut into chunks in any way, and decoded.
use pvcli.Prelude.{
  ℕ, suc, ◌+◌, ◌<◌, ◌≡◌, refl, sym, ap, ◌∙◌, Option, none, some, List, [], ◌∷◌, ◌++◌, Bytes, length,
}
use mathlib.Core.Path.{subst}
use pvcli.Prelude.{append_assoc, append-nil, arith}
use pvcli.Octets.{Octets, OctetsLaws, max_varint}
use pvcli.Http.{Http, HttpLaws, HeaderMap, get_all}
use pvcli.Poll.{Outcome, done, failed, stuck, collect, ok}
use pvcli.StreamBuf.{StreamBuf, Event}
use pvcli.StreamBuf.Content.{stream_bytes, content}
use pvcli.StreamBuf.Flat.{got}
use pvcli.StreamBuf.Refine.{Represents, EndsAs}
use pvcli.HyperBinary.Encoder as Encoder
use pvcli.HyperBinary.Encoder.{
  ResponseParts, EncodedMessage, encode_response, EncodedMessageKind, poll_next,
}
use pvcli.HyperBinary.Encoder.Initial.{
  field_lines-append, indeterminate_response_chunk, known_response_chunk,
}
use pvcli.HyperBinary.Encoder.Drain.{drain_message}
use pvcli.HyperBinary.Encoder.Wire.{
  field_lines_bytes, known_response_bytes, indeterminate_response_bytes, chunked_bytes,
  response_bytes, IsSoundBody, AreShort,
}
use pvcli.HyperBinary.Decoder.{
  Response, decode_response, DecodedBodyKind, known_length, indeterminate_length_body, response,
}
use pvcli.HyperBinary.Decoder.Flat as FlatDecoder
use pvcli.HyperBinary.Decoder.Implements.{decode_response-Implements}
use pvcli.HyperBinary.Body.{DecodedBody, poll_frame}
use pvcli.HyperBinary.Body.Flat.{body}
use pvcli.HyperBinary.Body.Collect.{collect_body, CollectsAs, body-zero}
use pvcli.HyperBinary.RoundTrip.Reads.{IsSized, exact_front}
use pvcli.HyperBinary.RoundTrip.Lines.{AreLines, append_all, get_all-append_all}
use pvcli.HyperBinary.RoundTrip.Flat.Messages.{
  IsFinalStatus, known_response_front, indeterminate_response_front,
}
use pvcli.HyperBinary.RoundTrip.Body.{chunks_front}

pub AreLines-AreShort :
    (h : Http) (usize_max : ℕ) (m : HeaderMap) → AreLines h usize_max m → AreShort m
AreLines-AreShort h usize_max [] l = tt
AreLines-AreShort h usize_max ((name, value) ∷ m) (l, ls) =
    (l.name_sized.0, l.value_sized.0, AreLines-AreShort h usize_max m ls)

-- An exact size hint is the number of bytes of the body.
abbrev pub SizeFits : Option ℕ → List Event → Type 0
SizeFits none es = Unit {0}
SizeFits (some n) es = (n ≡ length (stream_bytes es)) × (n < max_varint)

-- A response as hyper holds it: a final status, header lines that parse back, a sound body, and
-- sizes that fit.
pub record IsResponse (o : Octets) (laws : OctetsLaws o) (h : Http) (usize_max : ℕ)
    (parts : ResponseParts) (size : Option ℕ) (es : List Event) : Type 0 where
  pub status : IsFinalStatus h usize_max parts.status
  pub lines : AreLines h usize_max parts.headers
  pub section_sized :
      IsSized usize_max (length (field_lines_bytes laws.varint_bytes parts.headers []))
  pub sound : IsSoundBody es
  pub size_fits : SizeFits size es

abbrev kind_of : Option ℕ → EncodedMessageKind
kind_of (some n) = Encoder.known_length
kind_of none = Encoder.indeterminate_length

abbrev body_kind : Option ℕ → DecodedBodyKind
body_kind (some n) = known_length n
body_kind none = indeterminate_length_body

-- What is on the wire behind the head.
abbrev body_wire : (ℕ → Bytes) → Option ℕ → List Event → Bytes
body_wire varint (some n) es = stream_bytes es
body_wire varint none es = chunked_bytes varint es

module _ (o : Octets) (laws : OctetsLaws o) (h : Http) (usize_max : ℕ) where
  open laws use {varint_bytes}

  -- Bytes behind the head of an indeterminate-length response.
  pub tail_lem :
      (headers : HeaderMap) (b : Bytes)
      → field_lines_bytes varint_bytes headers (varint_bytes 0 ++ b)
        ≡ field_lines_bytes varint_bytes headers (varint_bytes 0 ++ []) ++ b
  tail_lem headers b =
      ap (λ t. field_lines_bytes varint_bytes headers t) (sym (append_assoc (varint_bytes 0) [] b))
      ∙ field_lines-append varint_bytes headers (varint_bytes 0 ++ []) b

  -- `encode_response` does not panic on such a response, and its message, polled to its end, yields
  -- the bytes that binary HTTP asks for.
  pub encode_response-response_bytes :
      (parts : ResponseParts) (size : Option ℕ) (es : List Event)
      → IsResponse o laws h usize_max parts size es
      → (e : EncodedMessage) × (e' : EncodedMessage) × (encode_response o parts size es ≡ ok e)
        × (collect (length es + 3) (poll_next o) [] e
            ≡ done (response_bytes varint_bytes parts size es) e')
  unfolding encode_response
  encode_response-response_bytes parts (some n) es r =
      let head =
        known_response_chunk o laws parts n (omega (arith, r.status.fits_u16))
          (AreLines-AreShort h usize_max parts.headers r.lines) r.section_sized.0 r.size_fits.1 in
      let drained =
        drain_message o laws Encoder.known_length (known_response_bytes varint_bytes parts n []) es
          (length es + 3) r.sound (omega arith) in
      (_, _, rw head refl, simp append_assoc at drained)
  encode_response-response_bytes parts none es r =
      let head =
        indeterminate_response_chunk o laws parts (omega (arith, r.status.fits_u16))
          (AreLines-AreShort h usize_max parts.headers r.lines) in
      let drained =
        drain_message o laws Encoder.indeterminate_length
          (indeterminate_response_bytes varint_bytes parts []) es (length es + 3) r.sound
          (omega arith) in
      (
        _,
        _,
        rw head refl,
        simp (append_assoc, ← tail_lem parts.headers (chunked_bytes varint_bytes es)) at drained,
      )

  flat_response :
      (parts : ResponseParts) (size : Option ℕ) (es : List Event)
      → IsResponse o laws h usize_max parts size es
      → FlatDecoder.decode_response o h usize_max (response_bytes varint_bytes parts size es)
        ≡ got
            (response parts.status (append_all h [] parts.headers) (body_kind size))
            (body_wire varint_bytes size es)
  flat_response parts (some n) es r =
      known_response_front o laws h usize_max parts n (stream_bytes es) r.status r.lines
        r.section_sized r.size_fits.1
  flat_response parts none es r =
      indeterminate_response_front o laws h usize_max parts (chunked_bytes varint_bytes es) r.status
        r.lines

  flat_body :
      (size : Option ℕ) (es : List Event)
      → IsSoundBody es
      → SizeFits size es
      → body o
          (suc (length (body_wire varint_bytes size es)))
          (body_kind size)
          (body_wire varint_bytes size es)
        ≡ got (stream_bytes es) []
  flat_body (some n) es s (e, lt) = rw e (rw append-nil at (exact_front (stream_bytes es) []))
  flat_body none es s f =
      body-zero o _ (chunked_bytes varint_bytes es) ∙ chunks_front o laws es _ s (omega arith)

  -- What a reader of the decoded body gets, from its kind and the StreamBuf that it owns.
  abbrev pub body_of : DecodedBodyKind → StreamBuf → Outcome DecodedBody Bytes
  body_of kind s =
      collect (suc (length s.stream + length (content s))) (poll_frame o usize_max) []
        (record { kind = kind; stream_buf = s })

  collected :
      (size : Option ℕ) (es : List Event) (q : Outcome DecodedBody Bytes)
      → CollectsAs [] (got (stream_bytes es) []) q
      → (d : DecodedBody) × (q ≡ done (stream_bytes es) d)
  collected size es (done out d) (c, rest, e, f, rep) = (d, cc)
  collected size es (failed x d) h = cc
  collected size es stuck h = absurd h

  -- The body, read to its end, from a StreamBuf that holds its wire form.
  pub body_back :
      (size : Option ℕ) (es : List Event) (s : StreamBuf)
      → 0 < usize_max
      → IsSoundBody es
      → SizeFits size es
      → Represents s (body_wire varint_bytes size es)
      → (d : DecodedBody) × (body_of (body_kind size) s ≡ done (stream_bytes es) d)
  body_back size es s room sound fits rep =
      let wire : Bytes = body_wire varint_bytes size es in
      collected size es _ (
        rw (flat_body size es sound fits) at (
          collect_body o laws usize_max room (body_kind size) s wire (suc (length wire))
            (suc (length s.stream + length (content s))) rep (omega arith)
            (omega (arith, ap length rep.bytes))))

  read_back :
      (parts : ResponseParts) (size : Option ℕ) (es : List Event) (q : Outcome StreamBuf Response)
      → 0 < usize_max
      → HttpLaws h
      → IsResponse o laws h usize_max parts size es
      → EndsAs
          (got
            (response parts.status (append_all h [] parts.headers) (body_kind size))
            (body_wire varint_bytes size es))
          q
      → (r : Response) × (s : StreamBuf) × (d : DecodedBody) × (q ≡ done r s)
        × (r.status ≡ parts.status)
        × ((k : Bytes) → get_all k r.headers ≡ get_all k parts.headers)
        × (body_of r.body s ≡ done (stream_bytes es) d)
  read_back parts size es (done r s) room hlaws p (rest, e, rep) =
      let wire : Bytes = body_wire varint_bytes size es in
      let same_response : response parts.status (append_all h [] parts.headers) (body_kind size)
          ≡ r =
        cc in
      let same_rest : wire ≡ rest = cc in
      let (d, body_read) =
        body_back size es s room p.sound p.size_fits (subst (Represents s) (sym same_rest) rep) in
      (
        response parts.status (append_all h [] parts.headers) (body_kind size),
        s,
        d,
        ap (λ x. done x s) (sym same_response),
        refl,
        get_all-append_all h hlaws [] parts.headers,
        body_read,
      )
  read_back parts size es (failed x s) room hlaws p e = cc
  read_back parts size es stuck room hlaws p e = cc

  -- Take any response as hyper holds it, encoded to bytes, and any StreamBuf whose clean stream
  -- delivers those bytes, cut into non-empty chunks in any way, `Pending` anywhere, within the
  -- size limit. Then `decode_response` succeeds and gives back the status and, under every name,
  -- the header values in order; and its body, polled to its end, gives the bytes of the body.
  pub decode_response-response_bytes :
      (parts : ResponseParts) (size : Option ℕ) (es : List Event) (s : StreamBuf)
      → 0 < usize_max
      → HttpLaws h
      → IsResponse o laws h usize_max parts size es
      → Represents s (response_bytes varint_bytes parts size es)
      → (r : Response) × (s' : StreamBuf) × (d : DecodedBody) × (decode_response o h usize_max s
          ≡ done r s')
        × (r.status ≡ parts.status)
        × ((k : Bytes) → get_all k r.headers ≡ get_all k parts.headers)
        × (body_of r.body s' ≡ done (stream_bytes es) d)
  decode_response-response_bytes parts size es s room hlaws p rep =
      read_back parts size es _ room hlaws p (
        rw (flat_response parts size es p) at
          (decode_response-Implements o laws h usize_max s _ rep))
