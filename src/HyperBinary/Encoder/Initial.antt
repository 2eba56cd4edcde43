-- ===== src/HyperBinary/Encoder/Initial.antt =====
-- The initial chunks: the lengths that the encoder computes ahead are exact, so no `unwrap`
-- panics, and the chunk is what Wire says.
use pvcli.Prelude.{ℕ, ◌+◌, ◌<◌, ◌≡◌, refl, ap, Option, [], ◌∷◌, ◌++◌, Bytes, length}
use pvcli.Prelude.{length-append, append_assoc, append-nil, arith}
use pvcli.Octets.{Octets, OctetsMut, OctetsLaws, with_slice, max_varint, ◌>>=◌}
use pvcli.Octets.Write.{
  Writes, >>=-Writes, Writes-exact, into_vec-exact, put_varint-Writes, put_bytes-Writes,
}
use pvcli.Http.{HeaderMap}
use pvcli.Poll.{ok, unwrap}
use pvcli.HyperBinary.Encoder.{vec_of, field_lines_len, put_field_lines, ResponseParts}
use pvcli.HyperBinary.Encoder.{}
use pvcli.HyperBinary.Encoder.{put_indeterminate_length_response_parts}
use pvcli.HyperBinary.Encoder.{
  put_known_length_response_parts, initial_indeterminate_length_response_chunk,
  initial_known_length_response_chunk,
}
use pvcli.HyperBinary.Encoder.Wire.{counted_bytes, field_lines_bytes}
use pvcli.HyperBinary.Encoder.Wire.{
  indeterminate_response_bytes, known_response_bytes, IsShort, AreShort,
}

pub field_lines-append :
    (varint : ℕ → Bytes) (headers : HeaderMap) (a rest : Bytes)
    → field_lines_bytes varint headers (a ++ rest) ≡ field_lines_bytes varint headers a ++ rest
field_lines-append varint [] a rest = refl
field_lines-append varint ((name, value) ∷ headers) a rest =
    rw (field_lines-append varint headers a rest) (simp append_assoc)

pub vec_of-Writes :
    (f : OctetsMut → Option OctetsMut) (b : Bytes) (n : ℕ)
    → Writes f b
    → n ≡ length b
    → vec_of (unwrap (f (with_slice n))) ≡ ok b
vec_of-Writes f b n h e = rw (Writes-exact f b n h e) (ap ok (into_vec-exact b n e))

module _ (o : Octets) (laws : OctetsLaws o) where
  open laws use {varint_bytes}

  pub counted-Writes :
      (b : Bytes) (g : OctetsMut → Option OctetsMut) (rest : Bytes)
      → IsShort b
      → Writes g rest
      → Writes
          (λ m. o.put_varint (length b) m >>= λ m₁. (o.put_bytes b m₁ >>= g))
          (counted_bytes varint_bytes b rest)
  counted-Writes b g rest short h =
      >>=-Writes _ _ _ _ (put_varint-Writes o laws (length b) short)
        (>>=-Writes _ _ _ _ (put_bytes-Writes o laws b) h)

  pub length-counted :
      (b rest : Bytes)
      → IsShort b
      → length (counted_bytes varint_bytes b rest)
        ≡ o.varint_len (length b) + length b + length rest
  length-counted b rest short = omega (
    arith,
    length-append (varint_bytes (length b)) (b ++ rest),
    length-append b rest,
    laws.length_varint (length b) short,
  )

  field_lines-Writes :
      (headers : HeaderMap)
      → AreShort headers
      → Writes (put_field_lines o headers) (field_lines_bytes varint_bytes headers [])
  unfolding put_field_lines
  field_lines-Writes [] h = λ m room. rw (append-nil m.written) refl
  field_lines-Writes ((name, value) ∷ headers) (hn, hv, h) =
      counted-Writes name _ _ hn (counted-Writes value _ _ hv (field_lines-Writes headers h))

  pub length-field_lines :
      (headers : HeaderMap) (rest : Bytes)
      → AreShort headers
      → length (field_lines_bytes varint_bytes headers rest)
        ≡ field_lines_len o headers + length rest
  unfolding field_lines_len
  length-field_lines [] rest h = omega arith
  length-field_lines ((name, value) ∷ headers) rest (hn, hv, h) = omega (
    arith,
    length-counted name
        (counted_bytes varint_bytes value (field_lines_bytes varint_bytes headers rest)) hn,
    length-counted value (field_lines_bytes varint_bytes headers rest) hv,
    length-field_lines headers rest h,
  )

  pub field_lines_then :
      (headers : HeaderMap) (g : OctetsMut → Option OctetsMut) (rest : Bytes)
      → AreShort headers
      → Writes g rest
      → Writes
          (λ m. put_field_lines o headers m >>= g)
          (field_lines_bytes varint_bytes headers rest)
  field_lines_then headers g rest hh h =
      rw (field_lines-append varint_bytes headers [] rest)
        (>>=-Writes _ _ _ _ (field_lines-Writes headers hh) h)

  pub varint_end-Writes : (v : ℕ) → v < max_varint → Writes (o.put_varint v) (varint_bytes v ++ [])
  varint_end-Writes v lt = rw (append-nil (varint_bytes v)) (put_varint-Writes o laws v lt)

  pub varint_then :
      (v : ℕ) (g : OctetsMut → Option OctetsMut) (rest : Bytes)
      → v < max_varint
      → Writes g rest
      → Writes (λ m. o.put_varint v m >>= g) (varint_bytes v ++ rest)
  varint_then v g rest lt h = >>=-Writes _ _ _ _ (put_varint-Writes o laws v lt) h

  pub length-varint_then :
      (v : ℕ) (rest : Bytes)
      → v < max_varint
      → length (varint_bytes v ++ rest) ≡ o.varint_len v + length rest
  length-varint_then v rest lt =
      omega (arith, length-append (varint_bytes v) rest, laws.length_varint v lt)

  -- The initial chunk of an indeterminate-length response is its framing indicator, status, field
  -- lines and terminator: the length computed ahead is exact, so that no write fails and no
  -- zero is left over.
  pub indeterminate_response_chunk :
      (parts : ResponseParts)
      → parts.status < max_varint
      → AreShort parts.headers
      → initial_indeterminate_length_response_chunk o parts
        ≡ ok (indeterminate_response_bytes varint_bytes parts [])
  unfolding initial_indeterminate_length_response_chunk put_indeterminate_length_response_parts
  indeterminate_response_chunk parts hs hh =
      vec_of-Writes _ _ _
        (varint_then 3 _ _ (omega arith) (
          varint_then parts.status _ _ hs
            (field_lines_then parts.headers _ _ hh (varint_end-Writes 0 (omega arith)))))
        (omega (
          arith,
          length-varint_then 3
              (varint_bytes parts.status
                ++ field_lines_bytes varint_bytes parts.headers (varint_bytes 0 ++ []))
              (omega arith),
          length-varint_then parts.status
              (field_lines_bytes varint_bytes parts.headers (varint_bytes 0 ++ [])) hs,
          length-field_lines parts.headers (varint_bytes 0 ++ []) hh,
          length-varint_then 0 [] (omega arith),
        ))

  -- The initial chunk of a known-length response is its framing indicator, status, counted field
  -- lines and content length, under the same conditions.
  pub known_response_chunk :
      (parts : ResponseParts) (size : ℕ)
      → parts.status < max_varint
      → AreShort parts.headers
      → length (field_lines_bytes varint_bytes parts.headers []) < max_varint
      → size < max_varint
      → initial_known_length_response_chunk o parts size
        ≡ ok (known_response_bytes varint_bytes parts size [])
  unfolding initial_known_length_response_chunk put_known_length_response_parts
  known_response_chunk parts size hs hh hl hz =
      let fl : Bytes = field_lines_bytes varint_bytes parts.headers [] in
      let exact : field_lines_len o parts.headers ≡ length fl =
        omega (arith, length-field_lines parts.headers [] hh) in
      rw exact (
        vec_of-Writes _ _ _
          (simp append_assoc at (
            >>=-Writes _ _ _ _
              (varint_then 1 _ _ (omega arith) (
                varint_then parts.status _ _ hs
                  (varint_then (length fl) _ _ hl (field_lines-Writes parts.headers hh))))
              (varint_end-Writes size hz)))
          (omega (
            arith,
            length-varint_then 1
                (varint_bytes parts.status
                  ++ counted_bytes varint_bytes fl (varint_bytes size ++ []))
                (omega arith),
            length-varint_then parts.status
                (counted_bytes varint_bytes fl (varint_bytes size ++ [])) hs,
            length-counted fl (varint_bytes size ++ []) hl,
            length-varint_then size [] hz,
          )))
