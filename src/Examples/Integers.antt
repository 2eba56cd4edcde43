-- ===== src/Examples/Integers.antt =====
-- A concrete `octets` crate: big-endian integers and the variable-length integers of RFC 9000,
-- section 16.
use pvcli.Prelude.{
  ℕ, zero, suc, ◌+◌, ◌*◌, ◌/◌, ◌%◌, ◌^◌, ◌≤◌, ◌<◌, ◌≡◌, refl, sym, ap, ◌∙◌, Option, none, some, [],
  ◌∷◌, ◌++◌,
}
use pvcli.Prelude.{
  Bytes, length, take, leb, le→leb, take-length, length-append, ltb, ltb→lt, if◌then◌else◌, arith,
  Bool-cases, inl, inr,
}
use pvcli.Octets.{Octets, OctetsLaws, IsReader, push, max_varint}

-- The value without its last `n` bytes, the last `n` bytes in front of `rest`, and the value
-- read from `n` bytes behind those of `acc`.
abbrev high : ℕ → ℕ → ℕ
high zero v = v
high (suc n) v = high n (v / 256)

abbrev put : ℕ → ℕ → Bytes → Bytes
put zero v rest = rest
put (suc n) v rest = put n (v / 256) (v % 256 ∷ rest)

abbrev read : ℕ → ℕ → Bytes → Option ℕ
read zero acc b = some acc
read (suc n) acc [] = none
read (suc n) acc (x ∷ b) = read n (acc * 256 + x) b

read-put : (n m v : ℕ) (rest : Bytes) → read (n + m) (high n v) (put n v rest) ≡ read m v rest
read-put zero m v rest =
    let none_left : 0 + m ≡ m = omega arith in ap (λ k. read k v rest) none_left
read-put (suc n) m v rest =
    let swap : suc n + m ≡ n + suc m = omega arith in
    let whole : v / 256 * 256 + v % 256 ≡ v = omega arith in
    ap (λ k. read k (high n (v / 256)) (put n (v / 256) (v % 256 ∷ rest))) swap
    ∙ read-put n (suc m) (v / 256) (v % 256 ∷ rest)
    ∙ ap (λ w. read m w rest) whole

pub length-put : (n v : ℕ) (rest : Bytes) → length (put n v rest) ≡ n + length rest
length-put zero v rest = omega arith
length-put (suc n) v rest = omega (arith, length-put n (v / 256) (v % 256 ∷ rest))

put-append : (n v : ℕ) (b rest : Bytes) → put n v b ++ rest ≡ put n v (b ++ rest)
put-append zero v b rest = refl
put-append (suc n) v b rest = put-append n (v / 256) (v % 256 ∷ b) rest

read-within : (n acc : ℕ) (b : Bytes) (v : ℕ) → read n acc b ≡ some v → n ≤ length b
read-within zero acc b v e = omega arith
read-within (suc n) acc [] v e = cc
read-within (suc n) acc (x ∷ b) v e = omega (arith, read-within n (acc * 256 + x) b v e)

read-stable :
    (n acc : ℕ) (b more : Bytes) (v : ℕ) → read n acc b ≡ some v → read n acc (b ++ more) ≡ some v
read-stable zero acc b more v e = e
read-stable (suc n) acc [] more v e = cc
read-stable (suc n) acc (x ∷ b) more v e = read-stable n (acc * 256 + x) b more v e

-- An integer of `n` bytes with what it takes from the slice.
abbrev sized : ℕ → Option ℕ → Option (ℕ × ℕ)
sized n none = none
sized n (some v) = some (v, n)

sized-some : (n k v : ℕ) (r : Option ℕ) → sized n r ≡ some (v, k) → (r ≡ some v) × (n ≡ k)
sized-some n k v none e = cc
sized-some n k v (some w) e = (cc, cc)

pub integer-IsReader : (n : ℕ) → 0 < n → IsReader (λ b. sized n (read n 0 b))
integer-IsReader n pos = record {
  within = λ b v k e.
      let (r, s) = sized-some n k v (read n 0 b) e in omega (arith, read-within n 0 b v r);
  progress = λ b v k e. let (r, s) = sized-some n k v (read n 0 b) e in omega arith;
  stable = λ b more v k e.
      let (r, s) = sized-some n k v (read n 0 b) e in rw (read-stable n 0 b more v r, s) refl;
}

-- The bytes behind the first one, from the prefix.
abbrev behind : ℕ → ℕ
behind zero = 0
behind (suc zero) = 1
behind (suc (suc zero)) = 3
behind (suc (suc (suc p))) = 7

abbrev prefix : ℕ → ℕ
prefix v = if ltb v 64 then 0 else if ltb v (2 ^ 14) then 1 else if ltb v (2 ^ 30) then 2 else 3

abbrev get_varint : Bytes → Option (ℕ × ℕ)
get_varint [] = none
get_varint (x ∷ b) = sized (suc (behind (x / 64))) (read (behind (x / 64)) (x % 64) b)

abbrev varint_bytes : ℕ → Bytes
varint_bytes v = (prefix v * 64 + high (behind (prefix v)) v) ∷ put (behind (prefix v)) v []

varint-within : (b : Bytes) (v k : ℕ) → get_varint b ≡ some (v, k) → k ≤ length b
varint-within [] v k e = cc
varint-within (x ∷ b) v k e =
    let (r, s) = sized-some _ k v (read (behind (x / 64)) (x % 64) b) e in
    omega (arith, read-within (behind (x / 64)) (x % 64) b v r)

varint-progress : (b : Bytes) (v k : ℕ) → get_varint b ≡ some (v, k) → 0 < k
varint-progress [] v k e = cc
varint-progress (x ∷ b) v k e =
    let (r, s) = sized-some _ k v (read (behind (x / 64)) (x % 64) b) e in omega arith

varint-stable :
    (b more : Bytes) (v k : ℕ) → get_varint b ≡ some (v, k) → get_varint (b ++ more) ≡ some (v, k)
varint-stable [] more v k e = cc
varint-stable (x ∷ b) more v k e =
    let (r, s) = sized-some _ k v (read (behind (x / 64)) (x % 64) b) e in
    rw (read-stable (behind (x / 64)) (x % 64) b more v r, s) refl

pub varint-IsReader : IsReader get_varint
varint-IsReader = record {
  within = varint-within;
  progress = varint-progress;
  stable = varint-stable;
}

abbrev bytes_of : ℕ → Bytes → Option (Bytes × ℕ)
bytes_of n b = if leb n (length b) then some (take n b, n) else none

abbrev pub rfc9000 : Octets
rfc9000 = record {
  get_u8 = λ b. sized 1 (read 1 0 b);
  get_u16 = λ b. sized 2 (read 2 0 b);
  get_u32 = λ b. sized 4 (read 4 0 b);
  get_u64 = λ b. sized 8 (read 8 0 b);
  get_varint = get_varint;
  get_bytes = bytes_of;
  cap = length;
  varint_len = λ v. suc (behind (prefix v));
  put_u8 = λ v. push (put 1 v []);
  put_u16 = λ v. push (put 2 v []);
  put_varint = λ v. push (varint_bytes v);
  put_bytes = push;
}

n_plus_zero : (n : ℕ) → n ≡ n + 0
n_plus_zero n = omega arith

pub get_integer :
    (n v : ℕ) (rest : Bytes) → high n v ≡ 0 → sized n (read n 0 (put n v [] ++ rest)) ≡ some (v, n)
get_integer n v rest e =
    let back : read n 0 (put n v rest) ≡ some v =
      ap (λ k. read k 0 (put n v rest)) (n_plus_zero n)
      ∙ ap (λ a. read (n + 0) a (put n v rest)) (sym e)
      ∙ read-put n 0 v rest in
    ap (λ b. sized n (read n 0 b)) (put-append n v [] rest) ∙ ap (sized n) back

-- The value without the bytes behind the first, below a quarter of its range, keeps its prefix.
fits_first :
    (v : ℕ)
    → v < max_varint
    → ((prefix v * 64 + high (behind (prefix v)) v) / 64 ≡ prefix v)
      × ((prefix v * 64 + high (behind (prefix v)) v) % 64 ≡ high (behind (prefix v)) v)
fits_first v lt = elim (Bool-cases (ltb v 64)) [
  | inl a ↦ rw a (omega (arith, ltb→lt v 64 a), omega (arith, ltb→lt v 64 a))
  | inr a ↦ rw a (elim (Bool-cases (ltb v (2 ^ 14))) [
    | inl b ↦ rw b (omega (arith, ltb→lt v (2 ^ 14) b), omega (arith, ltb→lt v (2 ^ 14) b))
    | inr b ↦ rw b (elim (Bool-cases (ltb v (2 ^ 30))) [
      | inl c ↦ rw c (omega (arith, ltb→lt v (2 ^ 30) c), omega (arith, ltb→lt v (2 ^ 30) c))
      | inr c ↦ rw c (omega arith, omega arith)
    ])
  ])
]

pub get_varint-bytes :
    (v : ℕ) (rest : Bytes)
    → v < max_varint
    → get_varint (varint_bytes v ++ rest) ≡ some (v, suc (behind (prefix v)))
get_varint-bytes v rest lt =
    let n : ℕ = behind (prefix v) in
    let (p, r) = fits_first v lt in
    rw (p, r, put-append n v [] rest)
      (ap (sized (suc n))
        (ap (λ k. read k (high n v) (put n v rest)) (n_plus_zero n) ∙ read-put n 0 v rest))

pub get_bytes-front : (b rest : Bytes) → bytes_of (length b) (b ++ rest) ≡ some (b, length b)
get_bytes-front b rest =
    rw
      (
        le→leb (length b) (length (b ++ rest)) (omega (arith, length-append b rest)),
        take-length b rest,
      )
      refl

abbrev pub rfc9000-OctetsLaws : OctetsLaws rfc9000
rfc9000-OctetsLaws = record {
  u8_reader = integer-IsReader 1 (omega arith);
  u16_reader = integer-IsReader 2 (omega arith);
  u32_reader = integer-IsReader 4 (omega arith);
  u64_reader = integer-IsReader 8 (omega arith);
  varint_reader = varint-IsReader;
  u8_bytes = λ v. put 1 v [];
  u16_bytes = λ v. put 2 v [];
  varint_bytes = varint_bytes;
  length_u8 = λ v. refl;
  length_u16 = λ v. refl;
  length_varint = λ v lt. omega (arith, length-put (behind (prefix v)) v []);
  varint_zero = refl;
  put_u8_lem = λ v m lt. refl;
  put_u16_lem = λ v m lt. refl;
  put_varint_lem = λ v m lt. refl;
  put_bytes_lem = λ b m. refl;
  get_u8_lem = λ v rest lt. get_integer 1 v rest (omega arith);
  get_u16_lem = λ v rest lt. get_integer 2 v rest (omega arith);
  get_varint_lem = get_varint-bytes;
  get_bytes_lem = get_bytes-front;
  cap_lem = λ b. refl;
}
