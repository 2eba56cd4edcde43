-- ===== src/OhttpHpke/Encapsulated/Chunks.antt =====
-- The bytes that the stream of crates/ohttp-hpke/src/encapsulated.rs yields for content that is
-- sealed chunk by chunk.
use pvcli.Prelude.{
  ℕ, zero, suc, ◌+◌, ◌*◌, ◌<◌, ◌≡◌, refl, sym, ap, ◌∙◌, none, List, [], ◌∷◌, ◌++◌, Bytes, length,
  append_assoc, arith,
}
use pvcli.Octets.{Octets, OctetsLaws, max_varint}
use pvcli.Octets.Write.{put_varint-Writes}
use pvcli.Poll.{Result, ok, done, collect}
use pvcli.StreamBuf.{Event, not_ready, item, StreamBuf, poll_stream}
use pvcli.StreamBuf as Buf
use pvcli.HyperBinary.Encoder.Initial.{vec_of-Writes}
use pvcli.OhttpHpke.Encapsulated.NonChunked.{collect_round, finished}
use pvcli.OhttpHpke.Encapsulated.{
  Encapsulated, chunked, chunk_len, new_chunked, encoded_len, final_aad, poll_next,
}

-- `w` is the wire form of the chunks that the stream yields, sealed from the state `s` on: every
-- chunk behind its length, and last the length 0 and the tag of the empty final chunk.
pub data Sealed (varint_bytes : ℕ → Bytes) {Se : Type 0}
    (seal_in_place : Se → (buf aad : Bytes) → Result (Bytes × Bytes) × Se)
    : Se → List Event → Bytes → Type 0 where
  last :
      {s s' : Se} {tag : Bytes}
      → seal_in_place s [] final_aad ≡ (ok ([], tag), s')
      → Sealed varint_bytes seal_in_place s [] (varint_bytes 0 ++ tag)
  wait :
      {s : Se} {es : List Event} {w : Bytes}
      → Sealed varint_bytes seal_in_place s es w
      → Sealed varint_bytes seal_in_place s (not_ready ∷ es) w
  more :
      {s s' : Se} {x : ℕ} {b ciphertext tag : Bytes} {es : List Event} {w : Bytes}
      → seal_in_place s (x ∷ b) [] ≡ (ok (ciphertext, tag), s')
      → length ciphertext + length tag < max_varint
      → Sealed varint_bytes seal_in_place s' es w
      → Sealed varint_bytes seal_in_place s
          (item (x ∷ b) ∷ es)
          (varint_bytes (length ciphertext + length tag) ++ (ciphertext ++ (tag ++ w)))

module _ (o : Octets) (laws : OctetsLaws o) where
  open laws use {varint_bytes}

  encoded_len_lem : (n : ℕ) → n < max_varint → encoded_len o n ≡ ok (varint_bytes n)
  unfolding encoded_len
  encoded_len_lem n lt =
      vec_of-Writes (o.put_varint n) (varint_bytes n) _ (put_varint-Writes o laws n lt)
        (sym (laws.length_varint n lt))

  module _ {Se : Type 0}
      (seal_in_place : Se → (buf aad : Bytes) → Result (Bytes × Bytes) × Se) where
    abbrev fresh : ℕ → List Event → StreamBuf
    fresh max es = record { max_buf_size = max; buf = []; stream = es }

    abbrev at_chunk : Se → StreamBuf → Encapsulated Se
    at_chunk sealer s = record {
      state = chunked chunk_len;
      sealer = sealer;
      chunk = none;
      stream_buf = s;
    }

    drain_chunks :
        (es : List Event) (fuel max : ℕ) (acc w : Bytes) (sealer : Se)
        → Sealed varint_bytes seal_in_place sealer es w
        → 3 * length es + 2 < fuel
        → (final : Encapsulated Se) × (collect fuel
              (poll_next o seal_in_place)
              acc
              (at_chunk sealer (fresh max es))
            ≡ done (acc ++ w) final)
    unfolding poll_next collect Buf.poll_next poll_stream
    drain_chunks [] (suc (suc (suc fuel))) max acc w sealer (last {s' = s'} {tag = tag} h) lt =
        rw
          (
            collect_round (suc (suc fuel)) (poll_next o seal_in_place) acc
                (at_chunk sealer (fresh max [])),
            h,
            encoded_len_lem 0 (omega arith),
          )
          (
            finished s' (fresh max []),
            ap (λ b. done b (finished s' (fresh max []))) (append_assoc acc (varint_bytes 0) tag),
          )
    drain_chunks (not_ready ∷ es) (suc fuel) max acc w sealer (wait h) lt =
        drain_chunks es fuel max acc w sealer h (omega arith)
    drain_chunks (item b ∷ es) (suc (suc (suc fuel))) max acc _ sealer
          (more {s' = s'} {ciphertext = ct} {tag = tag} {w = w} h sized later) lt =
        let len : Bytes = varint_bytes (length ct + length tag) in
        let (final, e) =
          drain_chunks es fuel max (((acc ++ len) ++ ct) ++ tag) w s' later (omega arith) in
        rw
          (
            collect_round (suc (suc fuel)) (poll_next o seal_in_place) acc
                (at_chunk sealer (fresh max (item b ∷ es))),
            h,
            encoded_len_lem (length ct + length tag) sized,
          )
          (final, e ∙ ap (λ b. done b final) (simp append_assoc refl))
    drain_chunks [] (suc (suc zero)) max acc w sealer (last h) lt = absurd (omega arith)
    drain_chunks [] (suc zero) max acc w sealer (last h) lt = absurd (omega arith)
    drain_chunks (Buf.broken _ ∷ es) (suc fuel) max acc w sealer h lt = elim h [ ]
    drain_chunks es zero max acc w sealer h lt = absurd (omega arith)
    drain_chunks (item b ∷ es) (suc zero) max acc w sealer h lt = absurd (omega arith)
    drain_chunks (item b ∷ es) (suc (suc zero)) max acc w sealer h lt = absurd (omega arith)

    -- Take a stream of non-empty chunks that may be `Pending` anywhere. Then the stream of
    -- `Encapsulated::chunked` on it, polled to its end, yields the initial chunk and then the wire
    -- form of the chunks, the final one included, within three polls for each entry of the stream
    -- and four more.
    pub collect_chunked :
        (es : List Event) (fuel max : ℕ) (initial_chunk w : Bytes) (sealer : Se)
        → Sealed varint_bytes seal_in_place sealer es w
        → 3 * length es + 3 < fuel
        → (final : Encapsulated Se) × (collect fuel
              (poll_next o seal_in_place)
              []
              (new_chunked sealer initial_chunk (fresh max es))
            ≡ done (initial_chunk ++ w) final)
    unfolding new_chunked poll_next collect
    collect_chunked es zero max initial_chunk w sealer h lt = absurd (omega arith)
    collect_chunked es (suc fuel) max initial_chunk w sealer h lt =
        drain_chunks es fuel max initial_chunk w sealer h (omega arith)
