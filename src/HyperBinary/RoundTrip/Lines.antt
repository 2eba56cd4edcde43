-- ===== src/HyperBinary/RoundTrip/Lines.antt =====
-- Field lines: what is decoded is what was encoded, appended line by line.
use pvcli.Prelude.{
  ℕ, zero, suc, ◌+◌, ◌≤◌, ◌<◌, ◌≡◌, refl, sym, ap, ◌∙◌, some, [], ◌∷◌, ◌++◌, Bytes, length,
}
use pvcli.Prelude.{
  length-append, append_assoc, append-nil, arith, if◌then◌else◌, Bool-cases, inl, inr,
}
use pvcli.Octets.{Octets, OctetsLaws}
use pvcli.Http.{Http, HttpLaws, HeaderMap, get_all, bytes_eq}
use pvcli.HyperBinary.Encoder.Wire.{counted_bytes, field_lines_bytes}
use pvcli.HyperBinary.Decoder.Fields.{field_line, field_lines, lines}
use pvcli.HyperBinary.RoundTrip.Reads.{IsSized, section_counted_front}

-- A line as a header map holds it: the parsers accept its name and value and give them back,
-- no name is empty, and the lengths fit.
pub record IsLine (h : Http) (usize_max : ℕ) (name value : Bytes) : Type 0 where
  pub name_parses : h.header_name name ≡ some name
  pub value_parses : h.header_value value ≡ some value
  pub nonempty : 0 < length name
  pub name_sized : IsSized usize_max (length name)
  pub value_sized : IsSized usize_max (length value)

abbrev pub AreLines : Http → ℕ → HeaderMap → Type 0
AreLines h usize_max [] = Unit {0}
AreLines h usize_max ((name, value) ∷ headers) =
    IsLine h usize_max name value × AreLines h usize_max headers

-- The map that a decoder builds by appending the lines in order.
abbrev pub append_all : Http → HeaderMap → HeaderMap → HeaderMap
append_all h headers [] = headers
append_all h headers ((name, value) ∷ rest) = append_all h (h.append headers name value) rest

get_all_step :
    (k n v : Bytes) (m : HeaderMap)
    → (if bytes_eq n k then v ∷ [] else []) ++ get_all k m ≡ get_all k ((n, v) ∷ m)
get_all_step k n v m = elim (Bool-cases (bytes_eq n k)) [ inl e ↦ rw e refl | inr e ↦ rw e refl ]

-- Under every name the built map has the values of the lines, in order.
pub get_all-append_all :
    (h : Http) (laws : HttpLaws h) (m lines : HeaderMap) (k : Bytes)
    → get_all k (append_all h m lines) ≡ get_all k m ++ get_all k lines
get_all-append_all h laws m [] k = sym (append-nil (get_all k m))
get_all-append_all h laws m ((n, v) ∷ rest) k =
    get_all-append_all h laws (h.append m n v) rest k
    ∙ rw (laws.append_lem m n v k, append_assoc)
        (ap (λ t. get_all k m ++ t) (get_all_step k n v rest))

module _ (o : Octets) (laws : OctetsLaws o) (h : Http) (usize_max : ℕ) where
  open laws use {varint_bytes}

  field_line_front :
      (name value rest : Bytes)
      → IsLine h usize_max name value
      → field_line o h usize_max
          (counted_bytes varint_bytes name (counted_bytes varint_bytes value rest))
        ≡ some (name, value, rest)
  unfolding field_line
  field_line_front name value rest l = rw (
    section_counted_front o laws usize_max h name (counted_bytes varint_bytes value rest)
        l.name_sized,
    l.name_parses,
    section_counted_front o laws usize_max h value rest l.value_sized,
    l.value_parses,
  )

  pub length-line :
      (name value rest : Bytes)
      → length rest + length name + length value
        ≤ length (counted_bytes varint_bytes name (counted_bytes varint_bytes value rest))
  length-line name value rest = omega (
    arith,
    length-append (varint_bytes (length name)) (name ++ counted_bytes varint_bytes value rest),
    length-append name (counted_bytes varint_bytes value rest),
    length-append (varint_bytes (length value)) (value ++ rest),
    length-append value rest,
  )

  field_lines_step :
      (fuel : ℕ) (name value buf rest : Bytes) (headers : HeaderMap)
      → 0 < length buf
      → field_line o h usize_max buf ≡ some (name, value, rest)
      → field_lines o h usize_max (suc fuel) buf headers
        ≡ field_lines o h usize_max fuel rest (h.append headers name value)
  unfolding field_lines
  field_lines_step fuel name value [] rest headers pos e = absurd (omega arith)
  field_lines_step fuel name value (x ∷ buf) rest headers pos e = rw (e, field_lines)

  -- A known-length section.
  pub field_lines_front :
      (fuel : ℕ) (m headers : HeaderMap)
      → AreLines h usize_max m
      → length (field_lines_bytes varint_bytes m []) ≤ fuel
      → field_lines o h usize_max fuel (field_lines_bytes varint_bytes m []) headers
        ≡ lines (append_all h headers m)
  field_lines_front fuel [] headers l le = unfold field_lines in refl
  field_lines_front zero ((name, value) ∷ m) headers (l, ls) le =
      absurd
        (omega (arith, l.nonempty, length-line name value (field_lines_bytes varint_bytes m [])))
  field_lines_front (suc fuel) ((name, value) ∷ m) headers (l, ls) le =
      let rest : Bytes = field_lines_bytes varint_bytes m [] in
      field_lines_step fuel name value _ rest headers
        (omega (arith, l.nonempty, length-line name value rest))
        (field_line_front name value rest l)
      ∙ field_lines_front fuel m (h.append headers name value) ls
          (omega (arith, l.nonempty, length-line name value rest))
