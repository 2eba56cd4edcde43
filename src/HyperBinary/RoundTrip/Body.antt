-- ===== src/HyperBinary/RoundTrip/Body.antt =====
-- The flat body on what the encoder writes for it.
use pvcli.Prelude.{ℕ, zero, suc, ◌<◌, ◌≡◌, refl, List, [], ◌∷◌, ◌++◌, Bytes, length}
use pvcli.Prelude.{length-append, arith}
use pvcli.Octets.{Octets, OctetsLaws, max_varint}
use pvcli.StreamBuf.{Event, not_ready, item, broken}
use pvcli.StreamBuf.Flat.{got}
use pvcli.StreamBuf.Content.{stream_bytes}
use pvcli.HyperBinary.Encoder.Wire.{counted_bytes, chunked_bytes, IsSoundBody}
use pvcli.HyperBinary.Body.Flat.{chunks, prefixed}
use pvcli.HyperBinary.RoundTrip.Reads.{exact_front, varint_front}
use pvcli.HyperBinary.RoundTrip.Flat.Section.{has_more_front}

module _ (o : Octets) (laws : OctetsLaws o) where
  open laws use {varint_bytes}

  chunks_end : (fuel : ℕ) → chunks o (suc fuel) (0 ∷ []) ≡ got [] []
  unfolding chunks
  chunks_end fuel =
      let zero_read = varint_front o laws 0 [] (omega arith) in
      rw (has_more_front (0 ∷ []) (omega arith), rw laws.varint_zero at zero_read) refl

  chunks_item :
      (fuel x : ℕ) (b rest : Bytes)
      → length (x ∷ b) < max_varint
      → chunks o (suc fuel) (counted_bytes varint_bytes (x ∷ b) rest)
        ≡ prefixed (x ∷ b) (chunks o fuel) rest
  unfolding chunks
  chunks_item fuel x b rest lt = rw (
    has_more_front (counted_bytes varint_bytes (x ∷ b) rest) (
        omega (
          arith,
          length-append (varint_bytes (length (x ∷ b))) ((x ∷ b) ++ rest),
          length-append (x ∷ b) rest,
        )),
    varint_front o laws (length (x ∷ b)) ((x ∷ b) ++ rest) lt,
    exact_front (x ∷ b) rest,
  )

  -- What the decoder makes of an encoded body is the bytes of its chunks.
  pub chunks_front :
      (es : List Event) (fuel : ℕ)
      → IsSoundBody es
      → length (chunked_bytes varint_bytes es) < fuel
      → chunks o fuel (chunked_bytes varint_bytes es) ≡ got (stream_bytes es) []
  chunks_front es zero s lt = absurd (omega arith)
  chunks_front [] (suc fuel) s lt = chunks_end fuel
  chunks_front (not_ready ∷ es) (suc fuel) s lt = chunks_front es (suc fuel) s lt
  chunks_front (broken e ∷ es) (suc fuel) s lt = absurd s
  chunks_front (item [] ∷ es) (suc fuel) s lt = chunks_front es (suc fuel) s.1 lt
  chunks_front (item (x ∷ b) ∷ es) (suc fuel) s lt =
      let rest : Bytes = chunked_bytes varint_bytes es in
      rw (
        chunks_item fuel x b rest s.0,
        chunks_front es fuel s.1 (
            omega (
              arith,
              length-append (varint_bytes (length (x ∷ b))) ((x ∷ b) ++ rest),
              length-append (x ∷ b) rest,
            )),
      )
