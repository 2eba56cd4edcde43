-- ===== src/Examples/Witnesses.antt =====
-- The theorems, applied to concrete messages and streams.
use pvcli.Prelude.{◌≡◌, refl, none, some, [], ◌∷◌, Bytes, arith}
use pvcli.Http.{get_all, path_and_query_bytes}
use pvcli.Poll.{done, collect, ok}
use pvcli.StreamBuf.{StreamBuf}
use pvcli.StreamBuf.Content.{content}
use pvcli.StreamBuf.Conserve.{}
use pvcli.StreamBuf.Refine.{Represents}
use pvcli.HyperBinary.Body.{DecodedBody}
use pvcli.HyperBinary.Decoder.{Request, Response, decode_request, decode_response}
use pvcli.HyperBinary.Encoder as Encoder
use pvcli.HyperBinary.Encoder.{EncodedMessage, encode_request, encode_response}
use pvcli.HyperBinary.RoundTrip.Response.{
  IsResponse, body_of, decode_response-response_bytes, encode_response-response_bytes,
}
use pvcli.HyperBinary.RoundTrip.Request.{
  IsWhole, encode_request-request_bytes, decode_request-request_bytes,
}
use pvcli.Examples.Integers.{rfc9000, rfc9000-OctetsLaws}
use pvcli.Examples.Messages.{
  plain_http, plain_http-HttpLaws, usize_max, parts, request_parts, request_uri,
}
use pvcli.Examples.Messages.{content_events, response_buf, request_buf}

parts-IsResponse :
    IsResponse rfc9000 rfc9000-OctetsLaws plain_http usize_max parts none content_events
parts-IsResponse = record {
  status = record { parses = refl; final = refl; fits_u16 = omega arith; fits_usize = omega arith };
  lines = (
    record {
      name_parses = refl;
      value_parses = refl;
      nonempty = omega arith;
      name_sized = (omega arith, omega arith);
      value_sized = (omega arith, omega arith);
    },
    tt,
  );
  section_sized = (omega arith, omega arith);
  sound = (omega arith, (omega arith, (omega arith, tt)));
  size_fits = tt;
}

decode_response-response_bytes_example :
    (r : Response) × (s' : StreamBuf) × (d : DecodedBody) × (decode_response rfc9000 plain_http
        usize_max response_buf
      ≡ done r s')
    × (r.status ≡ 200)
    × ((k : Bytes) → get_all k r.headers ≡ get_all k parts.headers)
    × (body_of rfc9000 rfc9000-OctetsLaws plain_http usize_max r.body s' ≡ done (7 ∷ 8 ∷ 9 ∷ []) d)
decode_response-response_bytes_example =
    decode_response-response_bytes rfc9000 rfc9000-OctetsLaws plain_http usize_max parts none
      content_events response_buf (omega arith) plain_http-HttpLaws parts-IsResponse
      (record {
        clean = (omega arith, (omega arith, (omega arith, tt)));
        bytes = refl;
        small = omega arith;
      })

encode_response-response_bytes_example :
    (e : EncodedMessage) × (e' : EncodedMessage) × (encode_response rfc9000 parts none
        content_events
      ≡ ok e)
    × (collect 7 (Encoder.poll_next rfc9000) [] e
        ≡ done (3 ∷ 64 ∷ 200 ∷ 1 ∷ 97 ∷ 1 ∷ 98 ∷ 0 ∷ 2 ∷ 7 ∷ 8 ∷ 1 ∷ 9 ∷ 0 ∷ []) e')
encode_response-response_bytes_example =
    encode_response-response_bytes rfc9000 rfc9000-OctetsLaws plain_http usize_max parts none
      content_events parts-IsResponse

request_parts-IsWhole :
    IsWhole plain_http usize_max request_parts (115 ∷ []) (120 ∷ []) request_uri content_events
request_parts-IsWhole = record {
  control = record {
    method_parses = refl;
    method_sized = (omega arith, omega arith);
    has_scheme = refl;
    scheme_parses = refl;
    scheme_sized = (omega arith, omega arith);
    has_authority = refl;
    authority_nonempty = omega arith;
    authority_parses = refl;
    authority_sized = (omega arith, omega arith);
    path_parses = refl;
    path_sized = (omega arith, omega arith);
    lines = (
      record {
        name_parses = refl;
        value_parses = refl;
        nonempty = omega arith;
        name_sized = (omega arith, omega arith);
        value_sized = (omega arith, omega arith);
      },
      tt,
    );
  };
  made = refl;
  sound = (omega arith, (omega arith, (omega arith, tt)));
}

request_buf-Represents : Represents request_buf (
    2 ∷ 1 ∷ 71 ∷ 1 ∷ 115 ∷ 0 ∷ 3 ∷ 47 ∷ 63 ∷ 113 ∷ 4 ∷ 104 ∷ 111 ∷ 115 ∷ 116 ∷ 1 ∷ 120 ∷ 0 ∷ 2 ∷ 7
    ∷ 8 ∷ 1 ∷ 9 ∷ 0 ∷ [])
request_buf-Represents = record {
  clean = (omega arith, (omega arith, (omega arith, tt)));
  bytes = refl;
  small = omega arith;
}

decode_request-request_bytes_example :
    (r : Request) × (s' : StreamBuf) × (d : DecodedBody) × (decode_request rfc9000 plain_http
        usize_max request_buf
      ≡ done r s')
    × (r.method ≡ 71 ∷ [])
    × (r.uri.scheme ≡ some (115 ∷ []))
    × (r.uri.authority ≡ some (120 ∷ []))
    × (path_and_query_bytes r.uri ≡ 47 ∷ 63 ∷ 113 ∷ [])
    × ((k : Bytes) → get_all k r.headers ≡ get_all k request_parts.headers)
    × (body_of rfc9000 rfc9000-OctetsLaws plain_http usize_max r.body s' ≡ done (7 ∷ 8 ∷ 9 ∷ []) d)
unfolding Encoder.wire_authority
decode_request-request_bytes_example =
    decode_request-request_bytes rfc9000 rfc9000-OctetsLaws plain_http plain_http-HttpLaws usize_max
      request_parts (115 ∷ []) (120 ∷ []) request_uri content_events request_buf (omega arith)
      request_parts-IsWhole request_buf-Represents

encode_request-request_bytes_example :
    (e : EncodedMessage) × (e' : EncodedMessage) × (encode_request rfc9000 plain_http request_parts
        content_events
      ≡ ok e)
    × (collect 7 (Encoder.poll_next rfc9000) [] e ≡ done (content request_buf) e')
unfolding Encoder.wire_authority
encode_request-request_bytes_example =
    encode_request-request_bytes rfc9000 rfc9000-OctetsLaws plain_http plain_http-HttpLaws usize_max
      request_parts (115 ∷ []) (120 ∷ []) request_uri content_events request_parts-IsWhole
