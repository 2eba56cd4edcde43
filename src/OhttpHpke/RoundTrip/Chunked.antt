-- ===== src/OhttpHpke/RoundTrip/Chunked.antt =====
-- The bytes of a chunked message of crates/ohttp-hpke/src/encapsulated.rs, read back by
-- crates/ohttp-hpke/src/decapsulated.rs.
use pvcli.Prelude.{
  ℕ, ◌+◌, ◌*◌, ◌≤◌, ◌<◌, ◌≡◌, refl, ap, ◌∙◌, true, List, [], ◌∷◌, ◌++◌, Bytes, length, arith,
}
use pvcli.Octets.{Octets, OctetsLaws, max_varint}
use pvcli.Poll.{Result, done, collect}
use pvcli.StreamBuf.{Event, not_ready, item, broken, StreamBuf}
use pvcli.StreamBuf.Content.{stream_bytes}
use pvcli.StreamBuf.Refine.{Represents}
use pvcli.OhttpHpke.Encapsulated as Encapsulated
use pvcli.OhttpHpke.Encapsulated.{Encapsulated, new_chunked}
use pvcli.OhttpHpke.Encapsulated.Chunks.{Sealed, last, wait, more, collect_chunked}
use pvcli.OhttpHpke.Decapsulated as Decapsulated
use pvcli.OhttpHpke.Decapsulated.{Decapsulated, new}
use pvcli.OhttpHpke.Decapsulated.Frames.{Opens, Frames}
use pvcli.OhttpHpke.Decapsulated.Opening.{joined, collect-Frames}

abbrev chunks_of : List Event → List Bytes
chunks_of [] = []
chunks_of (item b ∷ es) = b ∷ chunks_of es
chunks_of (not_ready ∷ es) = chunks_of es
chunks_of (broken e ∷ es) = chunks_of es

joined-chunks_of : (es : List Event) → joined (chunks_of es) ≡ stream_bytes es
joined-chunks_of [] = refl
joined-chunks_of (item b ∷ es) = ap (λ l. b ++ l) (joined-chunks_of es)
joined-chunks_of (not_ready ∷ es) = joined-chunks_of es
joined-chunks_of (broken e ∷ es) = joined-chunks_of es

length-chunks_of : (es : List Event) → length (chunks_of es) ≤ length es
length-chunks_of [] = omega arith
length-chunks_of (item b ∷ es) = omega (arith, length-chunks_of es)
length-chunks_of (not_ready ∷ es) = omega (arith, length-chunks_of es)
length-chunks_of (broken e ∷ es) = omega (arith, length-chunks_of es)

module _ (o : Octets) (laws : OctetsLaws o) (usize_max : ℕ) {Se Op : Type 0}
    (seal_in_place : Se → (buf aad : Bytes) → Result (Bytes × Bytes) × Se)
    (open_in_place : Op → (buf aad : Bytes) → Result Bytes × Op)
    (opens : Opens seal_in_place open_in_place) where
  open laws use {varint_bytes}

  Sealed-Frames :
      (s : Se) (es : List Event) (w : Bytes)
      → max_varint ≤ usize_max
      → Sealed varint_bytes seal_in_place s es w
      → Frames varint_bytes usize_max seal_in_place true s (chunks_of es) w
  Sealed-Frames s es w le (last h) = Frames.last h
  Sealed-Frames s _ w le (wait {es = es} h) = Sealed-Frames s es w le h
  Sealed-Frames s _ _ le (more {s' = s'} {es = es} {w = w} h sized later) =
      Frames.more h (sized, omega arith) (Sealed-Frames s' es w le later)

  -- On a 64-bit target, take a stream of non-empty chunks, `Pending` anywhere, and let the sealer
  -- seal each of them and the final chunk. The stream of `Encapsulated::chunked`, polled to its
  -- end, yields the initial chunk and a wire form `w`; and for any StreamBuf that delivers `w`, cut
  -- in any way, the stream of `Decapsulated` with an opener that matches the sealer, polled to its
  -- end, yields the bytes of the chunks. Both within a bounded number of polls.
  pub collect-chunked_round_trip :
      (es : List Event) (fuel fuel' max : ℕ) (initial_chunk w : Bytes) (s : Se) (p : Op)
      → max_varint ≤ usize_max
      → opens.Matches s p
      → Sealed varint_bytes seal_in_place s es w
      → 3 * length es + 3 < fuel
      → ((final : Encapsulated Se) × (collect fuel
              (Encapsulated.poll_next o seal_in_place)
              []
              (new_chunked s initial_chunk (record { max_buf_size = max; buf = []; stream = es }))
            ≡ done (initial_chunk ++ w) final))
        × ((b : StreamBuf)
            → Represents b w
            → length b.stream + length es + 1 < fuel'
            → (d : Decapsulated Op) × (collect fuel'
                  (Decapsulated.poll_next o usize_max open_in_place)
                  []
                  (new p b)
                ≡ done (stream_bytes es) d))
  collect-chunked_round_trip es fuel fuel' max initial_chunk w s p le m h lt = (
    collect_chunked o laws seal_in_place es fuel max initial_chunk w s h lt,
    λ b r lt'.
        let (d, e) =
          collect-Frames o laws usize_max seal_in_place open_in_place opens fuel' true s p
            (chunks_of es) w b m (Sealed-Frames s es w le h) r
            (omega (arith, length-chunks_of es)) in
        (d, e ∙ ap (λ l. done l d) (joined-chunks_of es)),
  )
