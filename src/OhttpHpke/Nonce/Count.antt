-- ===== src/OhttpHpke/Nonce/Count.antt =====
-- `ChunkNonce::incr` of crates/ohttp-hpke/src/response.rs counts.
use native.Mathlib.Nat.{pow-succ'}
use pvcli.Prelude.{
  ℕ, ◌+◌, ◌*◌, ◌^◌, ◌<◌, ◌≡◌, refl, Bool, true, false, [], ◌∷◌, Bytes, length, ◌==◌,
}
use pvcli.Prelude.{Bool-cases, inl, inr, arith, ==→eq, if◌then◌else◌}
use pvcli.OhttpHpke.Nonce.{incr_bytes}

-- The number that big-endian bytes stand for.
abbrev pub value : Bytes → ℕ
value [] = 0
value (x ∷ b) = x * 256 ^ length b + value b

abbrev pub AreBytes : Bytes → Type 0
AreBytes [] = Unit {0}
AreBytes (x ∷ b) = (x < 256) × AreBytes b

-- One up, or around from the last number of that many bytes to 0.
abbrev pub CountsTo : Bytes → Bytes × Bool → Type 0
CountsTo b (b', false) = (value b' ≡ value b + 1) × (length b' ≡ length b) × AreBytes b'
CountsTo b (b', true) =
    (value b + 1 ≡ 256 ^ length b) × (value b' ≡ 0) × (length b' ≡ length b) × AreBytes b'

one_more : (x p : ℕ) → (x + 1) * p ≡ x * p + p
one_more x p = grind arith

byte_step :
    (x : ℕ) (b : Bytes) (r : Bytes × Bool)
    → x < 256
    → CountsTo b r
    → CountsTo (x ∷ b) (
        let (b', carry) = r in
        if carry
        then (if x == 255 then (0 ∷ b', true) else ((x + 1) ∷ b', false))
        else (x ∷ b', false))
byte_step x b (b', false) lt (v, l, a) = (rw l (omega (arith, v)), omega arith, (lt, a))
byte_step x b (b', true) lt (full, v, l, a) = elim (Bool-cases (x == 255)) [
  | inl e ↦ rw e (
    rw (==→eq x 255 e, pow-succ' 256 (length b)) (omega (arith, full)),
    rw l (omega (arith, v)),
    omega arith,
    (omega arith, a),
  )
  | inr e ↦
      rw e
        (rw l (omega (arith, v, full, one_more x (256 ^ length b))), omega arith, (ground arith, a))
]

pub incr_bytes-CountsTo : (b : Bytes) → AreBytes b → CountsTo b (incr_bytes b)
unfolding incr_bytes
incr_bytes-CountsTo [] a = (refl, refl, refl, tt)
incr_bytes-CountsTo (x ∷ b) (lt, a) = byte_step x b (incr_bytes b) lt (incr_bytes-CountsTo b a)
