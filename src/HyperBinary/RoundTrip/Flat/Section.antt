-- ===== src/HyperBinary/RoundTrip/Flat/Section.antt =====
-- The two forms of a field section, read by the flat decoder.
use pvcli.Prelude.{ℕ, zero, suc, ◌<◌, ◌≡◌, refl, ◌∙◌, [], ◌∷◌, ◌++◌, Bytes, length}
use pvcli.Prelude.{length-append, arith, true}
use pvcli.Octets.{Octets, OctetsLaws, max_varint}
use pvcli.Http.{Http, HeaderMap}
use pvcli.StreamBuf.Flat.{got, has_more_data}
use pvcli.HyperBinary.Encoder.Wire.{counted_bytes, field_lines_bytes}
use pvcli.HyperBinary.Decoder.Flat.{
  indeterminate_length_loop, decode_known_length_field_section,
  decode_indeterminate_length_field_section,
}
use pvcli.HyperBinary.RoundTrip.Reads.{IsSized, exact_front, usize_front, counted_front}
use pvcli.HyperBinary.RoundTrip.Lines.{IsLine, AreLines, append_all, field_lines_front, length-line}

pub has_more_front : (bs : Bytes) → 0 < length bs → has_more_data bs ≡ got true bs
unfolding has_more_data
has_more_front [] pos = absurd (omega arith)
has_more_front (x ∷ bs) pos = refl

module _ (o : Octets) (laws : OctetsLaws o) (h : Http) (usize_max : ℕ) where
  open laws use {varint_bytes}

  pub varint_pos : (v : ℕ) (rest : Bytes) → v < max_varint → 0 < length (varint_bytes v ++ rest)
  varint_pos v rest lt = omega (
    arith,
    length-append (varint_bytes v) rest,
    laws.varint_reader.progress (varint_bytes v ++ []) v (o.varint_len v)
        (laws.get_varint_lem v [] lt),
    laws.length_varint v lt,
  )

  -- The section with its length in front.
  pub known_section_front :
      (m : HeaderMap) (rest : Bytes)
      → AreLines h usize_max m
      → IsSized usize_max (length (field_lines_bytes varint_bytes m []))
      → decode_known_length_field_section o h usize_max
          (counted_bytes varint_bytes (field_lines_bytes varint_bytes m []) rest)
        ≡ got (append_all h [] m) rest
  unfolding decode_known_length_field_section
  known_section_front m rest l sized = rw (
    has_more_front (counted_bytes varint_bytes (field_lines_bytes varint_bytes m []) rest)
        (varint_pos _ (field_lines_bytes varint_bytes m [] ++ rest) sized.0),
    counted_front o laws usize_max (field_lines_bytes varint_bytes m []) rest sized,
    field_lines_front o laws h usize_max (length (field_lines_bytes varint_bytes m [])) m [] l
        (omega arith),
  )

  loop_end :
      (fuel : ℕ) (headers : HeaderMap) (rest : Bytes)
      → indeterminate_length_loop o h usize_max (suc fuel) headers (varint_bytes 0 ++ rest)
        ≡ got headers rest
  unfolding indeterminate_length_loop
  loop_end fuel headers rest = rw (
    has_more_front (varint_bytes 0 ++ rest) (varint_pos 0 rest (omega arith)),
    usize_front o laws usize_max 0 rest (omega arith),
  )

  loop_line :
      (fuel : ℕ) (headers : HeaderMap) (name value rest : Bytes)
      → IsLine h usize_max name value
      → indeterminate_length_loop o h usize_max
          (suc fuel)
          headers
          (counted_bytes varint_bytes name (counted_bytes varint_bytes value rest))
        ≡ indeterminate_length_loop o h usize_max fuel (h.append headers name value) rest
  unfolding indeterminate_length_loop
  loop_line fuel headers [] value rest l = absurd (omega (arith, l.nonempty))
  loop_line fuel headers (x ∷ name) value rest l = rw (
    has_more_front (counted_bytes varint_bytes (x ∷ name) (counted_bytes varint_bytes value rest))
        (varint_pos _ ((x ∷ name) ++ counted_bytes varint_bytes value rest) l.name_sized.0),
    usize_front o laws usize_max (length (x ∷ name))
        ((x ∷ name) ++ counted_bytes varint_bytes value rest) l.name_sized,
    exact_front (x ∷ name) (counted_bytes varint_bytes value rest),
    l.name_parses,
    counted_front o laws usize_max value rest l.value_sized,
    l.value_parses,
    indeterminate_length_loop,
  )

  loop_front :
      (fuel : ℕ) (m headers : HeaderMap) (rest : Bytes)
      → AreLines h usize_max m
      → length (field_lines_bytes varint_bytes m (varint_bytes 0 ++ rest)) < fuel
      → indeterminate_length_loop o h usize_max fuel headers
          (field_lines_bytes varint_bytes m (varint_bytes 0 ++ rest))
        ≡ got (append_all h headers m) rest
  loop_front zero m headers rest l lt = absurd (omega arith)
  loop_front (suc fuel) [] headers rest l lt = loop_end fuel headers rest
  loop_front (suc fuel) ((name, value) ∷ m) headers rest (l, ls) lt =
      let tail : Bytes = field_lines_bytes varint_bytes m (varint_bytes 0 ++ rest) in
      loop_line fuel headers name value tail l
      ∙ loop_front fuel m (h.append headers name value) rest ls
          (omega (arith, l.nonempty, length-line o laws h usize_max name value tail))

  -- The section with a terminator behind it.
  pub indeterminate_section_front :
      (m : HeaderMap) (rest : Bytes)
      → AreLines h usize_max m
      → decode_indeterminate_length_field_section o h usize_max
          (field_lines_bytes varint_bytes m (varint_bytes 0 ++ rest))
        ≡ got (append_all h [] m) rest
  unfolding decode_indeterminate_length_field_section
  indeterminate_section_front m rest l =
      loop_front (suc (length (field_lines_bytes varint_bytes m (varint_bytes 0 ++ rest)))) m []
        rest l (omega arith)
