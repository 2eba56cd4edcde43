-- ===== src/Examples/StreamWitnesses.antt =====
-- The theorems on streams, applied to a concrete stream.
use pvcli.Prelude.{◌≢◌, ◌≡◌, refl, some, false, true, [], ◌∷◌, Bytes, arith}
use pvcli.HyperBinary.Decoder.Total.{decode_request-not_stuck, decode_response-not_stuck}
use pvcli.Poll.{stuck, done, collect}
use pvcli.StreamBuf as Buf
use pvcli.StreamBuf.{StreamBuf, item, not_ready, broken}
use pvcli.StreamBuf.Content.{Kept, whole, yielded}
use pvcli.StreamBuf.Conserve.{
  poll_read_exact-Kept, poll_read_to_end-Kept, poll_read_at_most-Kept, poll_next-Kept,
}
use pvcli.StreamBuf.Flat as FlatBuf
use pvcli.StreamBuf.Refine.{Represents, PolledAs, EndsAs}
use pvcli.StreamBuf.Served.{poll_read_exact_lem, read_exact_lem, read_to_end_lem, has_more_data_lem}
use pvcli.StreamBuf.AtMost.{PieceOf, poll_read_at_most-PieceOf}
use pvcli.StreamOctets as StreamOctets
use pvcli.StreamOctets.{poll_with_octets}
use pvcli.StreamOctets.Flat as FlatOctets
use pvcli.StreamOctets.Taken.{Taken, poll_with_octets-Taken}
use pvcli.StreamOctets.Served.{poll_decode_varint_usize_lem, read_with_varint_length_lem}
use pvcli.HyperBinary.Body.{poll_frame}
use pvcli.HyperBinary.Body.Flat.{body}
use pvcli.HyperBinary.Body.Collect.{collect_body, CollectsAs}
use pvcli.HyperBinary.Decoder.{decode_request, decode_response, indeterminate_length_body}
use pvcli.HyperBinary.Decoder.Flat as FlatDecoder
use pvcli.HyperBinary.Decoder.Served.{decode_request_lem, decode_response_lem}
use pvcli.HyperBinary.Encoder as Encoder
use pvcli.HyperBinary.Encoder.Drain.{drain_message, at_body}
use pvcli.Examples.Integers.{rfc9000, rfc9000-OctetsLaws}
use pvcli.Examples.Messages.{plain_http, usize_max, content_events, response_buf}

-- A stream that is cut inside a length and inside the bytes that it counts.
abbrev clean_buf : StreamBuf
clean_buf = record {
  max_buf_size = 10;
  buf = 64 ∷ [];
  stream = not_ready ∷ item (3 ∷ 7 ∷ []) ∷ not_ready ∷ item (8 ∷ 9 ∷ 5 ∷ []) ∷ [];
}

abbrev clean_bytes : Bytes
clean_bytes = 64 ∷ 3 ∷ 7 ∷ 8 ∷ 9 ∷ 5 ∷ []

clean_buf-Represents : Represents clean_buf clean_bytes
clean_buf-Represents = record {
  clean = (omega arith, (omega arith, tt));
  bytes = refl;
  small = omega arith;
}

-- A stream that fails on the way.
abbrev broken_buf : StreamBuf
broken_buf = record {
  max_buf_size = 10;
  buf = 1 ∷ [];
  stream = item (2 ∷ 3 ∷ []) ∷ broken 5 ∷ item (4 ∷ []) ∷ [];
}

poll_read_exact_lem_example :
    PolledAs (FlatBuf.read_exact 4 clean_bytes) clean_bytes 4 (Buf.poll_read_exact 4 clean_buf)
poll_read_exact_lem_example = poll_read_exact_lem 4 clean_buf clean_bytes clean_buf-Represents

read_exact_lem_example : EndsAs (FlatBuf.read_exact 4 clean_bytes) (Buf.read_exact 4 clean_buf)
read_exact_lem_example = read_exact_lem 4 clean_buf clean_bytes clean_buf-Represents

read_to_end_lem_example : EndsAs (FlatBuf.read_to_end clean_bytes) (Buf.read_to_end clean_buf)
read_to_end_lem_example = read_to_end_lem clean_buf clean_bytes clean_buf-Represents

has_more_data_lem_example : EndsAs (FlatBuf.has_more_data clean_bytes) (Buf.has_more_data clean_buf)
has_more_data_lem_example = has_more_data_lem clean_buf clean_bytes clean_buf-Represents

poll_read_at_most-PieceOf_example : PieceOf 3 clean_bytes 4 (Buf.poll_read_at_most 3 clean_buf)
poll_read_at_most-PieceOf_example =
    poll_read_at_most-PieceOf 3 clean_buf clean_bytes (omega arith) clean_buf-Represents

poll_read_exact-Kept_example : Kept whole (1 ∷ 2 ∷ 3 ∷ 4 ∷ []) 10 (Buf.poll_read_exact 4 broken_buf)
poll_read_exact-Kept_example = poll_read_exact-Kept 4 broken_buf

poll_read_to_end-Kept_example : Kept whole (1 ∷ 2 ∷ 3 ∷ 4 ∷ []) 10 (Buf.poll_read_to_end broken_buf)
poll_read_to_end-Kept_example = poll_read_to_end-Kept broken_buf

poll_read_at_most-Kept_example :
    Kept whole (1 ∷ 2 ∷ 3 ∷ 4 ∷ []) 10 (Buf.poll_read_at_most 4 broken_buf)
poll_read_at_most-Kept_example = poll_read_at_most-Kept 4 broken_buf

poll_next-Kept_example : Kept yielded (1 ∷ 2 ∷ 3 ∷ 4 ∷ []) 10 (Buf.poll_next broken_buf)
poll_next-Kept_example = poll_next-Kept broken_buf

-- An integer of two bytes, the second in the first chunk, in front of a failure.
abbrev cut_buf : StreamBuf
cut_buf = record { max_buf_size = 10; buf = 64 ∷ []; stream = item (3 ∷ 7 ∷ []) ∷ broken 5 ∷ [] }

poll_with_octets-Taken_example :
    Taken rfc9000.get_varint
      (64 ∷ 3 ∷ 7 ∷ [])
      10
      cut_buf.stream
      (poll_with_octets rfc9000.get_varint cut_buf)
poll_with_octets-Taken_example =
    poll_with_octets-Taken rfc9000.get_varint rfc9000-OctetsLaws.varint_reader cut_buf

poll_decode_varint_usize_lem_example :
    PolledAs
      (FlatOctets.decode_varint_usize rfc9000 usize_max clean_bytes)
      clean_bytes
      4
      (StreamOctets.poll_decode_varint_usize rfc9000 usize_max clean_buf)
poll_decode_varint_usize_lem_example =
    poll_decode_varint_usize_lem rfc9000 rfc9000-OctetsLaws usize_max clean_buf clean_bytes
      clean_buf-Represents

read_with_varint_length_lem_example :
    EndsAs
      (FlatOctets.read_with_varint_length rfc9000 usize_max clean_bytes)
      (StreamOctets.read_with_varint_length rfc9000 usize_max clean_buf)
read_with_varint_length_lem_example =
    read_with_varint_length_lem rfc9000 rfc9000-OctetsLaws usize_max clean_buf clean_bytes
      clean_buf-Represents

decode_request_lem_example :
    EndsAs
      (FlatDecoder.decode_request rfc9000 plain_http usize_max clean_bytes)
      (decode_request rfc9000 plain_http usize_max clean_buf)
decode_request_lem_example =
    decode_request_lem rfc9000 rfc9000-OctetsLaws plain_http usize_max clean_buf clean_bytes
      clean_buf-Represents

abbrev response_bytes : Bytes
response_bytes = 3 ∷ 64 ∷ 200 ∷ 1 ∷ 97 ∷ 1 ∷ 98 ∷ 0 ∷ 2 ∷ 7 ∷ 8 ∷ 1 ∷ 9 ∷ 0 ∷ []

decode_response_lem_example :
    EndsAs
      (FlatDecoder.decode_response rfc9000 plain_http usize_max response_bytes)
      (decode_response rfc9000 plain_http usize_max response_buf)
decode_response_lem_example =
    decode_response_lem rfc9000 rfc9000-OctetsLaws plain_http usize_max response_buf response_bytes
      (record {
        clean = (omega arith, (omega arith, (omega arith, tt)));
        bytes = refl;
        small = omega arith;
      })

collect_body_example : CollectsAs [] (body rfc9000 8 indeterminate_length_body clean_bytes) (
    collect 12
      (poll_frame rfc9000 usize_max)
      []
      (record { kind = indeterminate_length_body; stream_buf = clean_buf }))
collect_body_example =
    collect_body rfc9000 rfc9000-OctetsLaws usize_max (omega arith) indeterminate_length_body
      clean_buf clean_bytes 8 12 clean_buf-Represents (omega arith) (omega arith)

drain_message_example :
    collect 7 (Encoder.poll_next rfc9000) [] (record {
      kind = Encoder.indeterminate_length;
      initial_chunk = some (3 ∷ []);
      body = content_events;
      end_of_content = false;
    })
    ≡ done
        (3 ∷ 2 ∷ 7 ∷ 8 ∷ 1 ∷ 9 ∷ 0 ∷ [])
        (at_body rfc9000 rfc9000-OctetsLaws Encoder.indeterminate_length [] true)
drain_message_example =
    drain_message rfc9000 rfc9000-OctetsLaws Encoder.indeterminate_length (3 ∷ []) content_events 7
      (omega arith, (omega arith, (omega arith, tt))) (omega arith)

decode_request-not_stuck_example : decode_request rfc9000 plain_http usize_max clean_buf ≢ stuck
decode_request-not_stuck_example =
    decode_request-not_stuck rfc9000 rfc9000-OctetsLaws plain_http usize_max clean_buf clean_bytes
      clean_buf-Represents

decode_response-not_stuck_example : decode_response rfc9000 plain_http usize_max clean_buf ≢ stuck
decode_response-not_stuck_example =
    decode_response-not_stuck rfc9000 rfc9000-OctetsLaws plain_http usize_max clean_buf clean_bytes
      clean_buf-Represents
