-- ===== src/HyperBinary/Body/Flat.antt =====
-- The specification of a body: its bytes, cut out of the flat byte string.
use pvcli.Prelude.{ℕ, zero, suc, true, false, none, some, [], ◌++◌, Bytes}
use pvcli.Octets.{Octets}
use pvcli.StreamBuf.Flat.{Flat, stuck, pure, ◌>>=◌, read_exact, has_more_data}
use pvcli.StreamOctets.Flat.{with_octets}
use pvcli.HyperBinary.Decoder.{DecodedBodyKind, known_length, indeterminate_length}

abbrev pub prefixed : Bytes → Flat Bytes → Flat Bytes
prefixed b m = m >>= λ c. pure (b ++ c)

-- A chunk of that length and the chunks behind it; the length 0 ends the body.
abbrev pub chunk_of : Flat Bytes → ℕ → Flat Bytes
chunk_of later zero = pure []
chunk_of later (suc k) = read_exact (suc k) >>= λ b. prefixed b later

module _ (o : Octets) where
  abbrev pub next_length : Flat ℕ
  next_length =
      has_more_data >>= λ more. elim more [ true ↦ with_octets o.get_varint | false ↦ pure 0 ]

  -- The chunks from the next length on. Every chunk takes a byte at least.
  unfoldable pub chunks : ℕ → Flat Bytes
  chunks zero bs = stuck
  chunks (suc fuel) bs = (next_length >>= chunk_of (chunks fuel)) bs

  -- What is left of a body of each kind.
  abbrev pub body : ℕ → DecodedBodyKind → Flat Bytes
  body fuel (known_length n) = read_exact n
  body fuel (indeterminate_length none) = pure []
  body fuel (indeterminate_length (some n)) = read_exact n >>= λ b. prefixed b (chunks fuel)
