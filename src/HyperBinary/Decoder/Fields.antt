-- ===== src/HyperBinary/Decoder/Fields.antt =====
-- The field lines of a known-length section, read from the buffered section: the loop of
-- `decode_known_length_field_section` in crates/hyper-binary/src/decoder/mod.rs.
use pvcli.Prelude.{
  ℕ, zero, suc, Bool, Option, none, some, [], ◌∷◌, Bytes, length, take, drop, ltb, leb,
}
use pvcli.Prelude.{if◌then◌else◌}
use pvcli.Octets.{Octets}
use pvcli.Http.{Http, HeaderMap}

infixl 5 ◌>>=◌
abbrev pub ◌>>=◌ : {A B : Type 0} → Option A → (A → Option B) → Option B
some a >>= f = f a
none >>= f = none

abbrev guard : Bool → Option (Unit {0})
guard b = if b then some tt else none

-- `stuck` is no result of the source: the fuel ran out.
pub data Lines : Type 0 where
  lines : HeaderMap → Lines
  invalid : Lines
  stuck : Lines

module _ (o : Octets) (h : Http) (usize_max : ℕ) where
  -- `usize::try_from(decode_varint_u64(&mut buf)…)`, with the bytes behind it.
  unfoldable pub varint_usize : Bytes → Option (ℕ × Bytes)
  varint_usize buf =
      o.get_varint buf >>= λ (v, n). (if leb v usize_max then some (v, drop n buf) else none)

  -- A string behind its length: `none` if fewer bytes are left.
  unfoldable pub counted : Bytes → Option (Bytes × Bytes)
  unfolding varint_usize
  counted buf = varint_usize buf >>= λ (len, rest).
      (if ltb (length rest) len then none else some (take len rest, drop len rest))

  -- One round of the loop: a name, a value, and the bytes behind them.
  unfoldable pub field_line : Bytes → Option (Bytes × Bytes × Bytes)
  field_line buf = do
    (raw_name, buf') ← counted buf
    name ← h.header_name raw_name
    (raw_value, buf'') ← counted buf'
    value ← h.header_value raw_value
    some (name, value, buf'')

  -- `while !buf.is_empty()`. Each round takes a byte at least.
  unfoldable pub field_lines : ℕ → Bytes → HeaderMap → Lines
  unfolding field_line
  field_lines fuel [] headers = lines headers
  field_lines zero (x ∷ buf) headers = stuck
  field_lines (suc fuel) (x ∷ buf) headers = elim (field_line (x ∷ buf)) [
    | none ↦ invalid
    | some (name, value, rest) ↦ field_lines fuel rest (h.append headers name value)
  ]
