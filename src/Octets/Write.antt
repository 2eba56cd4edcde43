-- ===== src/Octets/Write.antt =====
-- Writing in sequence: what a row of `put_…` calls leaves in the vector, and that none fails.
use pvcli.Prelude.{
  ℕ, ◌+◌, ◌-◌, ◌^◌, ◌≤◌, ◌<◌, ◌≡◌, refl, ap, ◌∙◌, Option, some, ◌++◌, Bytes, length,
}
use pvcli.Prelude.{length-append, append_assoc, append-nil, le→leb, arith}
use pvcli.Octets.{Octets, OctetsMut, OctetsLaws, with_slice, into_vec, push, max_varint, ◌>>=◌}

-- `f` writes exactly `b`, wherever there is room for it.
abbrev pub Writes : (OctetsMut → Option OctetsMut) → Bytes → Type 0
Writes f b =
    (m : OctetsMut)
    → length m.written + length b ≤ m.cap
    → f m ≡ some (record m { written = m.written ++ b })

pub push-Writes : (b : Bytes) → Writes (push b) b
push-Writes b m h = rw (le→leb (length m.written + length b) m.cap h) refl

pub >>=-Writes :
    (f g : OctetsMut → Option OctetsMut) (a b : Bytes)
    → Writes f a
    → Writes g b
    → Writes (λ m. f m >>= g) (a ++ b)
>>=-Writes f g a b hf hg m room = rw (hf m (omega (arith, length-append a b))) (
    hg (record m { written = m.written ++ a })
      (omega (arith, length-append a b, length-append m.written a))
    ∙ ap (λ w. some (record m { written = w })) (append_assoc m.written a b))

-- In a vector of just the right length the writes succeed and leave no zeros behind.
pub Writes-exact :
    (f : OctetsMut → Option OctetsMut) (b : Bytes) (n : ℕ)
    → Writes f b
    → n ≡ length b
    → f (with_slice n) ≡ some (record { written = b; cap = n })
Writes-exact f b n h e = h (with_slice n) (omega arith)

pub into_vec-exact :
    (b : Bytes) (n : ℕ) → n ≡ length b → into_vec (record { written = b; cap = n }) ≡ b
into_vec-exact b n e =
    rw e (let z : length b - length b ≡ 0 = omega arith in rw (z, append-nil b) refl)

module _ (o : Octets) (laws : OctetsLaws o) where
  pub put_varint-Writes : (v : ℕ) → v < max_varint → Writes (o.put_varint v) (laws.varint_bytes v)
  put_varint-Writes v lt m room = laws.put_varint_lem v m lt ∙ push-Writes _ m room

  pub put_bytes-Writes : (b : Bytes) → Writes (o.put_bytes b) b
  put_bytes-Writes b m room = laws.put_bytes_lem b m ∙ push-Writes b m room

  pub put_u8-Writes : (v : ℕ) → v < 2 ^ 8 → Writes (o.put_u8 v) (laws.u8_bytes v)
  put_u8-Writes v lt m room = laws.put_u8_lem v m lt ∙ push-Writes _ m room

  pub put_u16-Writes : (v : ℕ) → v < 2 ^ 16 → Writes (o.put_u16 v) (laws.u16_bytes v)
  put_u16-Writes v lt m room = laws.put_u16_lem v m lt ∙ push-Writes _ m room
