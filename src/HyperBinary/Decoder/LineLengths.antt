-- ===== src/HyperBinary/Decoder/LineLengths.antt =====
-- How far one round of the field line loop of crates/hyper-binary/src/decoder/mod.rs goes.
use pvcli.Prelude.{ℕ, suc, ◌≤◌, ◌<◌, ◌≡◌, Option, none, some, Bytes, length, drop, take}
use pvcli.Prelude.{length-drop, leb, ltb, Bool-cases, inl, inr, arith, if◌then◌else◌}
use pvcli.Octets.{IsReader}
use pvcli.Http.{Http, HeaderMap}
use pvcli.HyperBinary.Decoder.Fields
use pvcli.HyperBinary.Decoder.Fields.{
  Lines, lines, invalid, varint_usize, counted, field_line, field_lines,
}
use pvcli.HyperBinary.Decoder.Ends.{}
use pvcli.HyperBinary.Decoder.Ends.{}

-- What a field line leaves, if it is one.
abbrev pub Shorter : ℕ → Option (Bytes × Bytes × Bytes) → Type 0
Shorter m none = Unit {0}
Shorter m (some (name, value, rest)) = length rest < m

abbrev pub ShorterPair : {A : Type 0} → ℕ → Option (A × Bytes) → Type 0
ShorterPair m none = Unit {0}
ShorterPair m (some (a, rest)) = length rest < m

abbrev pub IsEnded : Lines → Type 0
IsEnded (lines h) = Unit {0}
IsEnded invalid = Unit {0}
IsEnded Lines.stuck = ⊥

pub usize_step :
    (usize_max : ℕ) (get : Bytes → Option (ℕ × ℕ))
    → IsReader get
    → (buf : Bytes) (q : Option (ℕ × ℕ)) → get buf ≡ q
    → ShorterPair
        (length buf)
        (Fields.◌>>=◌ q λ (v, n). (if leb v usize_max then some (v, drop n buf) else none))
usize_step usize_max get reader buf none e = tt
usize_step usize_max get reader buf (some (v, n)) e = elim (Bool-cases (leb v usize_max)) [
  | inl t ↦
      rw t (omega (arith, length-drop n buf, reader.progress buf v n e, reader.within buf v n e))
  | inr t ↦ rw t tt
]

pub counted_step :
    (m : ℕ) (q : Option (ℕ × Bytes))
    → ShorterPair m q
    → ShorterPair m (
        Fields.◌>>=◌ q λ (len, rest).
          (if ltb (length rest) len then none else some (take len rest, drop len rest)))
counted_step m none s = tt
counted_step m (some (len, rest)) s = elim (Bool-cases (ltb (length rest) len)) [
  | inl t ↦ rw t tt
  | inr t ↦ rw t (omega (arith, length-drop len rest, s))
]

value_end :
    (m : ℕ) (name rest : Bytes) (q : Option Bytes)
    → length rest < m
    → Shorter m (Fields.◌>>=◌ q λ value. some (name, value, rest))
value_end m name rest none s = tt
value_end m name rest (some value) s = s

value_step :
    (m n : ℕ) (parse : Bytes → Option Bytes) (name : Bytes) (q : Option (Bytes × Bytes))
    → n ≤ m
    → ShorterPair n q
    → Shorter m (
        Fields.◌>>=◌ q
          λ (raw_value, rest). Fields.◌>>=◌ (parse raw_value) λ value. some (name, value, rest))
value_step m n parse name none le s = tt
value_step m n parse name (some (raw_value, rest)) le s =
    value_end m name rest (parse raw_value) (omega (arith, s))

name_end :
    (m : ℕ) (count : Bytes → Option (Bytes × Bytes)) (parse : Bytes → Option Bytes) (buf : Bytes)
    (q : Option Bytes)
    → length buf < m
    → ((b : Bytes) → ShorterPair (length b) (count b))
    → Shorter m (
        Fields.◌>>=◌ q λ name.
          Fields.◌>>=◌
            (count buf)
            λ (raw_value, rest). Fields.◌>>=◌ (parse raw_value) λ value. some (name, value, rest))
name_end m count parse buf none s k = tt
name_end m count parse buf (some name) s k =
    value_step m (length buf) parse name (count buf) (omega (arith, s)) (k buf)

pub line_step :
    (m : ℕ) (count : Bytes → Option (Bytes × Bytes)) (parse_name parse : Bytes → Option Bytes)
    (q : Option (Bytes × Bytes))
    → ShorterPair m q
    → ((b : Bytes) → ShorterPair (length b) (count b))
    → Shorter m (
        Fields.◌>>=◌ q λ (raw_name, buf). Fields.◌>>=◌ (parse_name raw_name) λ name.
          Fields.◌>>=◌
            (count buf)
            λ (raw_value, rest). Fields.◌>>=◌ (parse raw_value) λ value. some (name, value, rest))
line_step m count parse_name parse none s k = tt
line_step m count parse_name parse (some (raw_name, buf)) s k =
    name_end m count parse buf (parse_name raw_name) s k

pub lines_step :
    (fuel m : ℕ) (q : Option (Bytes × Bytes × Bytes)) (h : Http) (headers : HeaderMap)
    (later : Bytes → Bytes → Bytes → HeaderMap → Lines)
    → m ≤ suc fuel
    → Shorter m q
    → ((name value rest : Bytes) (hs : HeaderMap)
        → length rest ≤ fuel
        → IsEnded (later name value rest hs))
    → IsEnded (elim q [
      | none ↦ invalid
      | some (name, value, rest) ↦ later name value rest (h.append headers name value)
    ])
lines_step fuel m none h headers later le s k = tt
lines_step fuel m (some (name, value, rest)) h headers later le s k =
    k name value rest (h.append headers name value) (omega (arith, s))
