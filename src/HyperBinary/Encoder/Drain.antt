-- ===== src/HyperBinary/Encoder/Drain.antt =====
-- Polling an EncodedMessage to its end: its chunks are the initial chunk and the encoded body.
use pvcli.Prelude.{
  ℕ, zero, suc, ◌+◌, ◌<◌, ◌≡◌, refl, sym, ap, ◌∙◌, Bool, true, false, none, some, List, [], ◌∷◌,
  ◌++◌, Bytes, length,
}
use pvcli.Prelude.{append_assoc, append-nil, arith}
use pvcli.Octets.{Octets, OctetsLaws, max_varint}
use pvcli.Octets.Write.{put_varint-Writes}
use pvcli.Poll.{done, collect, ok}
use pvcli.StreamBuf.{Event, not_ready, item, broken}
use pvcli.StreamBuf.Content.{stream_bytes}
use pvcli.HyperBinary.Encoder.{
  EncodedMessage, EncodedMessageKind, indeterminate_length, known_length, encoded_chunk, poll_next,
}
use pvcli.HyperBinary.Encoder.Initial.{vec_of-Writes}
use pvcli.HyperBinary.Encoder.Wire.{counted_bytes, chunked_bytes, IsSoundBody}

module _ (o : Octets) (laws : OctetsLaws o) where
  open laws use {varint_bytes}

  encoded_chunk_bytes :
      (x : ℕ) (chunk : Bytes)
      → length (x ∷ chunk) < max_varint
      → encoded_chunk o (x ∷ chunk) ≡ ok (counted_bytes varint_bytes (x ∷ chunk) [])
  unfolding encoded_chunk
  encoded_chunk_bytes x chunk lt = rw (
    vec_of-Writes (o.put_varint (length (x ∷ chunk))) (varint_bytes (length (x ∷ chunk))) _
        (put_varint-Writes o laws (length (x ∷ chunk)) lt)
        (sym (laws.length_varint (length (x ∷ chunk)) lt)),
    append-nil (x ∷ chunk),
  )

  encoded_empty : encoded_chunk o [] ≡ ok []
  unfolding encoded_chunk
  encoded_empty = refl

  abbrev pub body_bytes : EncodedMessageKind → List Event → Bytes
  body_bytes indeterminate_length es = chunked_bytes varint_bytes es
  body_bytes known_length es = stream_bytes es

  abbrev pub at_body : EncodedMessageKind → List Event → Bool → EncodedMessage
  at_body kind es end = record {
    kind = kind;
    initial_chunk = none;
    body = es;
    end_of_content = end;
  }

  drain_known :
      (es : List Event) (fuel : ℕ) (acc : Bytes)
      → IsSoundBody es
      → length es < fuel
      → collect fuel (poll_next o) acc (at_body known_length es false)
        ≡ done (acc ++ stream_bytes es) (at_body known_length [] true)
  unfolding collect poll_next
  drain_known es zero acc s lt = absurd (omega arith)
  drain_known [] (suc fuel) acc s lt = rw (append-nil acc) refl
  drain_known (not_ready ∷ es) (suc fuel) acc s lt = drain_known es fuel acc s (omega arith)
  drain_known (broken e ∷ es) (suc fuel) acc s lt = absurd s
  drain_known (item b ∷ es) (suc fuel) acc s lt =
      drain_known es fuel (acc ++ b) s.1 (omega arith)
      ∙ ap (λ w. done w (at_body known_length [] true)) (append_assoc acc b (stream_bytes es))

  drain_indeterminate :
      (es : List Event) (fuel : ℕ) (acc : Bytes)
      → IsSoundBody es
      → length es + 1 < fuel
      → collect fuel (poll_next o) acc (at_body indeterminate_length es false)
        ≡ done (acc ++ chunked_bytes varint_bytes es) (at_body indeterminate_length [] true)
  unfolding collect poll_next
  drain_indeterminate es zero acc s lt = absurd (omega arith)
  drain_indeterminate [] (suc zero) acc s lt = absurd (omega arith)
  drain_indeterminate [] (suc (suc fuel)) acc s lt = refl
  drain_indeterminate (not_ready ∷ es) (suc fuel) acc s lt =
      drain_indeterminate es fuel acc s (omega arith)
  drain_indeterminate (broken e ∷ es) (suc fuel) acc s lt = absurd s
  drain_indeterminate (item [] ∷ es) (suc fuel) acc s lt =
      rw (encoded_empty, collect, append-nil acc)
        (drain_indeterminate es fuel acc s.1 (omega arith))
  drain_indeterminate (item (x ∷ b) ∷ es) (suc fuel) acc s lt =
      rw (encoded_chunk_bytes x b s.0, collect)
        (drain_indeterminate es fuel (acc ++ counted_bytes varint_bytes (x ∷ b) []) s.1
            (omega arith)
          ∙ simp (append_assoc, append-nil))

  -- Polled to its end, a message that starts with `chunk` yields that chunk and then its body:
  -- the chunks as they are, or each non-empty chunk behind its length and a final 0.
  pub drain_message :
      (kind : EncodedMessageKind) (chunk : Bytes) (es : List Event) (polls : ℕ)
      → IsSoundBody es
      → length es + 2 < polls
      → collect polls
          (poll_next o)
          []
          (record { kind = kind; initial_chunk = some chunk; body = es; end_of_content = false })
        ≡ done (chunk ++ body_bytes kind es) (at_body kind [] true)
  unfolding collect poll_next
  drain_message kind chunk es zero s lt = absurd (omega arith)
  drain_message indeterminate_length chunk es (suc polls) s lt =
      drain_indeterminate es polls chunk s (omega arith)
  drain_message known_length chunk es (suc polls) s lt = drain_known es polls chunk s (omega arith)
