-- ===== src/HyperBinary/RoundTrip/Reads.antt =====
-- The flat readers on what the crate `octets` writes.
use pvcli.Prelude.{ℕ, ◌≤◌, ◌<◌, ◌≡◌, refl, some, ◌++◌, Bytes, length, drop}
use pvcli.Prelude.{length-append, drop-length, take-length, le→leb, le→ltb, arith}
use pvcli.Octets.{Octets, OctetsLaws, max_varint}
use pvcli.Http.{Http}
use pvcli.StreamBuf.Flat.{got, read_exact}
use pvcli.StreamOctets.Flat.{with_octets, decode_varint_usize, to_usize, read_with_varint_length}
use pvcli.HyperBinary.Encoder.Wire.{counted_bytes}
use pvcli.HyperBinary.Decoder.Fields.{counted}

-- A length that both the wire format and the target's `usize` hold.
abbrev pub IsSized : ℕ → ℕ → Type 0
IsSized usize_max n = (n < max_varint) × (n ≤ usize_max)

pub exact_front : (b rest : Bytes) → read_exact (length b) (b ++ rest) ≡ got b rest
unfolding read_exact
exact_front b rest = rw (
  le→leb (length b) (length (b ++ rest)) (omega (arith, length-append b rest)),
  take-length b rest,
  drop-length b rest,
)

module _ (o : Octets) (laws : OctetsLaws o) where
  open laws use {varint_bytes}

  drop_varint :
      (v : ℕ) (rest : Bytes)
      → v < max_varint
      → drop (o.varint_len v) (varint_bytes v ++ rest) ≡ rest
  drop_varint v rest lt = rw (← laws.length_varint v lt) (drop-length (varint_bytes v) rest)

  pub varint_front :
      (v : ℕ) (rest : Bytes)
      → v < max_varint
      → with_octets o.get_varint (varint_bytes v ++ rest) ≡ got v rest
  unfolding with_octets
  varint_front v rest lt = rw (laws.get_varint_lem v rest lt, drop_varint v rest lt)

  module _ (usize_max : ℕ) where
    pub usize_front :
        (v : ℕ) (rest : Bytes)
        → IsSized usize_max v
        → decode_varint_usize o usize_max (varint_bytes v ++ rest) ≡ got v rest
    unfolding decode_varint_usize to_usize
    usize_front v rest (lt, le) = rw (varint_front v rest lt) (rw (le→leb v usize_max le) refl)

    pub counted_front :
        (b rest : Bytes)
        → IsSized usize_max (length b)
        → read_with_varint_length o usize_max (counted_bytes varint_bytes b rest) ≡ got b rest
    unfolding read_with_varint_length
    counted_front b rest sized = rw (usize_front (length b) (b ++ rest) sized) (exact_front b rest)

    -- The same of the reader of a buffered field section.
    pub section_counted_front :
        (h : Http) (b rest : Bytes)
        → IsSized usize_max (length b)
        → counted o h usize_max (counted_bytes varint_bytes b rest) ≡ some (b, rest)
    unfolding counted
    section_counted_front h b rest (lt, le) = rw (
      laws.get_varint_lem (length b) (b ++ rest) lt,
      le→leb (length b) usize_max le,
      drop_varint (length b) (b ++ rest) lt,
      le→ltb (length (b ++ rest)) (length b) (omega (arith, length-append b rest)),
      take-length b rest,
      drop-length b rest,
    )
