-- ===== src/Octets.antt =====
-- The third-party crate `octets`, which reads and writes integers and byte strings in a slice.
-- It is a parameter of every model that uses it: `Octets` has its operations, and `OctetsLaws`
-- what its documentation promises of them.
pub mod Write
use pvcli.Prelude.{
  ℕ, ◌+◌, ◌-◌, ◌^◌, ◌≤◌, ◌<◌, ◌≡◌, Option, none, some, List, [], ◌∷◌, ◌++◌, Bytes, length, leb,
  replicate,
}
use pvcli.Prelude.{if◌then◌else◌}

-- `OctetsMut::with_slice` over a zeroed vector of `cap` bytes: what has been written from its
-- start on. The rest of the vector is zeros, and `off()` is the number of bytes written.
pub record OctetsMut : Type 0 where
  pub written : Bytes
  pub cap : ℕ

abbrev pub with_slice : ℕ → OctetsMut
with_slice n = record { written = []; cap = n }

abbrev pub off : OctetsMut → ℕ
off m = length m.written

-- The vector that was written to.
abbrev pub into_vec : OctetsMut → Bytes
into_vec m = m.written ++ replicate (m.cap - length m.written) 0

-- `octets::Result<()>` of a sequence of writes.
infixl 5 ◌>>=◌
abbrev pub ◌>>=◌ : Option OctetsMut → (OctetsMut → Option OctetsMut) → Option OctetsMut
some m >>= f = f m
none >>= f = none

-- A reader of a slice gives the value that it read and `off()` behind it, or an error.
pub record Octets : Type 0 where
  pub get_u8 : Bytes → Option (ℕ × ℕ)
  pub get_u16 : Bytes → Option (ℕ × ℕ)
  pub get_u32 : Bytes → Option (ℕ × ℕ)
  pub get_u64 : Bytes → Option (ℕ × ℕ)
  pub get_varint : Bytes → Option (ℕ × ℕ)
  pub get_bytes : ℕ → Bytes → Option (Bytes × ℕ)
  -- `cap()`: the bytes that are left.
  pub cap : Bytes → ℕ
  pub varint_len : ℕ → ℕ
  pub put_u8 : ℕ → OctetsMut → Option OctetsMut
  pub put_u16 : ℕ → OctetsMut → Option OctetsMut
  pub put_varint : ℕ → OctetsMut → Option OctetsMut
  pub put_bytes : Bytes → OctetsMut → Option OctetsMut

-- A reader stays within the slice, takes a byte at least, and does not look at what is behind
-- the bytes that it takes.
pub record IsReader (get : Bytes → Option (ℕ × ℕ)) : Type 0 where
  pub within : (b : Bytes) (v n : ℕ) → get b ≡ some (v, n) → n ≤ length b
  pub progress : (b : Bytes) (v n : ℕ) → get b ≡ some (v, n) → 0 < n
  pub stable : (b more : Bytes) (v n : ℕ) → get b ≡ some (v, n) → get (b ++ more) ≡ some (v, n)

-- A write puts `b` behind what is written, and is `BufferTooShort` if there is no room.
abbrev pub push : Bytes → OctetsMut → Option OctetsMut
push b m =
    if leb (length m.written + length b) m.cap
    then some (record m { written = m.written ++ b })
    else none

-- The largest value of a variable-length integer is 2 ^ 62 - 1 (RFC 9000, section 16).
abbrev pub max_varint : ℕ
max_varint = 2 ^ 62

pub record OctetsLaws (o : Octets) : Type 0 where
  pub u8_reader : IsReader o.get_u8
  pub u16_reader : IsReader o.get_u16
  pub u32_reader : IsReader o.get_u32
  pub u64_reader : IsReader o.get_u64
  pub varint_reader : IsReader o.get_varint
  -- The bytes of an integer.
  pub u8_bytes : ℕ → Bytes
  pub u16_bytes : ℕ → Bytes
  pub varint_bytes : ℕ → Bytes
  pub length_u8 : (v : ℕ) → length (u8_bytes v) ≡ 1
  pub length_u16 : (v : ℕ) → length (u16_bytes v) ≡ 2
  pub length_varint : (v : ℕ) → v < max_varint → length (varint_bytes v) ≡ o.varint_len v
  pub varint_zero : varint_bytes 0 ≡ 0 ∷ []
  pub put_u8_lem : (v : ℕ) (m : OctetsMut) → v < 2 ^ 8 → o.put_u8 v m ≡ push (u8_bytes v) m
  pub put_u16_lem : (v : ℕ) (m : OctetsMut) → v < 2 ^ 16 → o.put_u16 v m ≡ push (u16_bytes v) m
  pub put_varint_lem :
      (v : ℕ) (m : OctetsMut) → v < max_varint → o.put_varint v m ≡ push (varint_bytes v) m
  pub put_bytes_lem : (b : Bytes) (m : OctetsMut) → o.put_bytes b m ≡ push b m
  pub get_u8_lem : (v : ℕ) (rest : Bytes) → v < 2 ^ 8 → o.get_u8 (u8_bytes v ++ rest) ≡ some (v, 1)
  pub get_u16_lem :
      (v : ℕ) (rest : Bytes) → v < 2 ^ 16 → o.get_u16 (u16_bytes v ++ rest) ≡ some (v, 2)
  pub get_varint_lem :
      (v : ℕ) (rest : Bytes)
      → v < max_varint
      → o.get_varint (varint_bytes v ++ rest) ≡ some (v, o.varint_len v)
  pub get_bytes_lem : (b rest : Bytes) → o.get_bytes (length b) (b ++ rest) ≡ some (b, length b)
  pub cap_lem : (b : Bytes) → o.cap b ≡ length b
