-- ===== src/OhttpHpke/Nonce/Distinct.antt =====
-- The nonces of `ChunkNonce` (crates/ohttp-hpke/src/response.rs) count up and never repeat.
use Prim.Native.Nat.{bit_xor}
use pvcli.Prelude.{
  ℕ, zero, suc, ◌+◌, ◌<◌, ◌≡◌, ◌≢◌, refl, sym, ap, ◌∙◌, Bool, true, false, ◌&&◌, List, [], ◌∷◌,
  Bytes, length, ◌==◌,
}
use pvcli.Prelude.{Bool-cases, inl, inr, arith, ==→eq, replicate}
use pvcli.OhttpHpke.Nonce.Count.{value, AreBytes, CountsTo, incr_bytes-CountsTo}
use pvcli.OhttpHpke.Nonce.{ChunkNonce, nonce, limit, new, next, answer_of, incr_bytes, xor_into}
use pvcli.Poll.{Error}
use mathlib.Core.Path.{subst}

abbrev all_below : ℕ → (ℕ → Bool) → Bool
all_below zero p = true
all_below (suc n) p = p n && all_below n p

all_below-holds : (n : ℕ) (p : ℕ → Bool) (k : ℕ) → k < n → all_below n p ≡ true → p k ≡ true
all_below-holds zero p k lt h = absurd (omega arith)
all_below-holds (suc n) p k lt h = elim (Bool-cases (k == n)) [
  | inl e ↦ ground (arith, ==→eq k n e)
  | inr e ↦ all_below-holds n p k (ground arith) (ground arith)
]

abbrev xor_back : ℕ → ℕ → Bool
xor_back c i = bit_xor (bit_xor c i) i == c

xor_table : all_below 256 (λ c. all_below 256 (xor_back c)) ≡ true
xor_table = refl

xor-injective : (c d i : ℕ) → c < 256 → d < 256 → i < 256 → bit_xor c i ≡ bit_xor d i → c ≡ d
xor-injective c d i hc hd hi e =
    let back : (k : ℕ) → k < 256 → bit_xor (bit_xor k i) i ≡ k = λ k lt. ==→eq _ _ (
      all_below-holds 256 (xor_back k) i hi
        (all_below-holds 256 (λ k. all_below 256 (xor_back k)) k lt xor_table)) in
    sym (back c hc) ∙ ap (λ t. bit_xor t i) e ∙ back d hd

cons-injective : (x y : ℕ) (a b : Bytes) → x ∷ a ≡ y ∷ b → (x ≡ y) × (a ≡ b)
cons-injective x y a b e = (cc, cc)

xor_into-injective :
    (c d i a b : Bytes)
    → AreBytes c
    → AreBytes d
    → AreBytes i
    → length c ≡ length i
    → length d ≡ length i
    → length a ≡ length i
    → length b ≡ length i
    → xor_into c i a ≡ xor_into d i b
    → c ≡ d
unfolding xor_into
xor_into-injective [] [] [] a b hc hd hi lc ld la lb e = refl
xor_into-injective [] (y ∷ d) [] a b hc hd hi lc ld la lb e = absurd (omega (arith, ld))
xor_into-injective (x ∷ c) d [] a b hc hd hi lc ld la lb e = absurd (omega (arith, lc))
xor_into-injective [] d (z ∷ i) a b hc hd hi lc ld la lb e = absurd (omega (arith, lc))
xor_into-injective (x ∷ c) [] (z ∷ i) a b hc hd hi lc ld la lb e = absurd (omega (arith, ld))
xor_into-injective (x ∷ c) (y ∷ d) (z ∷ i) [] b hc hd hi lc ld la lb e = absurd (omega (arith, la))
xor_into-injective (x ∷ c) (y ∷ d) (z ∷ i) (u ∷ a) [] hc hd hi lc ld la lb e =
    absurd (omega (arith, lb))
xor_into-injective (x ∷ c) (y ∷ d) (z ∷ i) (u ∷ a) (v ∷ b) hc hd hi lc ld la lb e =
    let (front, behind) = cons-injective _ _ _ _ e in
    let same : x ≡ y = xor-injective x y z hc.0 hd.0 hi.0 front in
    let rest : c ≡ d =
      xor_into-injective c d i a b hc.1 hd.1 hi.1 (omega arith) (omega arith) (omega arith)
        (omega arith) behind in
    cc

length-xor_into :
    (c i b : Bytes) → length c ≡ length i → length b ≡ length i → length (xor_into c i b) ≡ length i
unfolding xor_into
length-xor_into [] [] b l m = m
length-xor_into [] (z ∷ i) b l m = m
length-xor_into (x ∷ c) [] b l m = m
length-xor_into (x ∷ c) (z ∷ i) [] l m = absurd (omega (arith, m))
length-xor_into (x ∷ c) (z ∷ i) (u ∷ b) l m =
    omega (arith, length-xor_into c i b (omega arith) (omega arith))

-- Bytes all, and of one length.
pub record IsCounting (n : ChunkNonce) : Type 0 where
  pub counter_bytes : AreBytes n.counter
  pub initial_bytes : AreBytes n.initial
  pub counter_length : length n.counter ≡ length n.initial
  pub current_length : length n.current ≡ length n.initial

-- `given` are the nonces that calls of `next` from `n` on gave out one after the other, and `n'` is
-- the state behind them.
pub data Handed : ChunkNonce → List Bytes → ChunkNonce → Type 0 where
  none_yet : {n : ChunkNonce} → Handed n [] n
  one_more :
      {n n' n'' : ChunkNonce} {a : Bytes} {given : List Bytes}
      → next n ≡ (nonce a, n')
      → Handed n' given n''
      → Handed n (a ∷ given) n''

-- No two of the list are equal.
abbrev pub IsNotIn : Bytes → List Bytes → Type 0
IsNotIn a [] = Unit {0}
IsNotIn a (b ∷ bs) = (a ≢ b) × IsNotIn a bs

abbrev pub AreDistinct : List Bytes → Type 0
AreDistinct [] = Unit {0}
AreDistinct (a ∷ bs) = IsNotIn a bs × AreDistinct bs

no_nonce : {e : Error} {a : Bytes} → limit e ≡ nonce a → ⊥
no_nonce e = cc

nonce-injective : {a b : Bytes} → nonce a ≡ nonce b → a ≡ b
nonce-injective e = cc

-- A successful `next`: the nonce is of the counter as it stands, and then the counter is one up.
abbrev Stepped : ChunkNonce → Bytes → ChunkNonce → Type 0
Stepped n a n' =
    (a ≡ xor_into n.counter n.initial n.current)
    × (n'.initial ≡ n.initial)
    × (value n'.counter ≡ value n.counter + 1)
    × IsCounting n'

step_cases :
    (n n' : ChunkNonce) (r : Bytes × Bool) (a : Bytes)
    → IsCounting n
    → CountsTo n.counter r
    → answer_of n (xor_into n.counter n.initial n.current) r ≡ (nonce a, n')
    → Stepped n a n'
step_cases n n' (counter, true) a c t e = absurd (no_nonce (ap (λ p. p.0) e))
step_cases n n' (counter, false) a c (v, l, b) e =
    let same : xor_into n.counter n.initial n.current ≡ a = nonce-injective (ap (λ p. p.0) e) in
    subst (Stepped n a) (ap (λ p. p.1) e) (
      sym same,
      refl,
      v,
      record {
        counter_bytes = b;
        initial_bytes = c.initial_bytes;
        counter_length = l ∙ c.counter_length;
        current_length =
            length-xor_into n.counter n.initial n.current c.counter_length c.current_length;
      },
    )

next_step : (n n' : ChunkNonce) (a : Bytes) → IsCounting n → next n ≡ (nonce a, n') → Stepped n a n'
unfolding next
next_step n n' a c e =
    step_cases n n' (incr_bytes n.counter) a c (incr_bytes-CountsTo n.counter c.counter_bytes) e

-- The nonce of an earlier counter is not given out again.
not_again :
    (c b i : Bytes) (n n' : ChunkNonce) (given : List Bytes)
    → AreBytes c
    → length c ≡ length i
    → length b ≡ length i
    → n.initial ≡ i
    → value c < value n.counter
    → IsCounting n
    → Handed n given n'
    → IsNotIn (xor_into c i b) given
not_again c b i n n' [] hc lc lb ei lt cn h = tt
not_again c b i n n' (a ∷ given) hc lc lb ei lt cn (one_more {n' = m} e h) =
    let (ea, em, v, cm) = next_step n m a cn e in
    (
      λ same. omega (
        arith,
        lt,
        ap value (
            xor_into-injective c n.counter i b n.current hc cn.counter_bytes
              (subst AreBytes ei cn.initial_bytes) lc (cn.counter_length ∙ ap length ei) lb
              (cn.current_length ∙ ap length ei)
              (same ∙ ea ∙ ap (λ t. xor_into n.counter t n.current) ei)),
      ),
      not_again c b i m n' given hc lc lb (em ∙ ei) (omega (arith, lt, v)) cm h,
    )

Handed-AreDistinct :
    (n n' : ChunkNonce) (given : List Bytes) → IsCounting n → Handed n given n' → AreDistinct given
Handed-AreDistinct n n' [] cn h = tt
Handed-AreDistinct n n' (a ∷ given) cn (one_more {n' = m} e h) =
    let (ea, em, v, cm) = next_step n m a cn e in
    (
      rw ea (
          not_again n.counter n.current n.initial m n' given cn.counter_bytes cn.counter_length
            cn.current_length em (omega (arith, v)) cm h),
      Handed-AreDistinct m n' given cm h,
    )

zeros-AreBytes : (k : ℕ) → AreBytes (replicate k 0)
zeros-AreBytes zero = tt
zeros-AreBytes (suc k) = (omega arith, zeros-AreBytes k)

length-zeros : (k : ℕ) → length (replicate {A = ℕ} k 0) ≡ k
length-zeros zero = refl
length-zeros (suc k) = omega (arith, length-zeros k)

-- From a new `ChunkNonce` on, as long as no call of `next` answers `MessageLimitReached`, no nonce
-- is given out twice.
pub new-AreDistinct :
    (aead_nonce : Bytes) (given : List Bytes) (n : ChunkNonce)
    → AreBytes aead_nonce
    → Handed (new aead_nonce) given n
    → AreDistinct given
unfolding new
new-AreDistinct aead_nonce given n b h =
    Handed-AreDistinct (new aead_nonce) n given
      (record {
        counter_bytes = zeros-AreBytes (length aead_nonce);
        initial_bytes = b;
        counter_length = length-zeros (length aead_nonce);
        current_length = refl;
      })
      h
