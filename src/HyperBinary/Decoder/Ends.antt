-- ===== src/HyperBinary/Decoder/Ends.antt =====
-- Readers of the flat byte string that end: they give a value or an error, and how many bytes they
-- leave. Used for the loops of crates/hyper-binary/src/decoder/mod.rs.
use pvcli.Prelude.{
  ℕ, zero, suc, ◌≤◌, ◌<◌, ◌≡◌, refl, Bool, true, false, Option, none, some, Bytes, length,
}
use pvcli.Prelude.{length-drop, leb, Bool-cases, inl, inr, arith}
use pvcli.Octets.{IsReader}
use pvcli.Poll.{Error, io, invalid_data}
use pvcli.StreamBuf.Flat as FlatBuf
use pvcli.StreamBuf.Flat.{
  Flat, Reply, got, refused, and_then, ◌>>=◌, pure, throw, read_exact, has_more_data,
}
use pvcli.StreamOctets.Flat.{with_octets, from_read, to_usize}
use pvcli.HyperBinary.Decoder.Flat

-- A reply that is one, with at most `m` bytes left, and with fewer.
abbrev pub Left : {A : Type 0} → ℕ → Reply A → Type 0
Left m (got a rest) = length rest ≤ m
Left m (refused e) = Unit {0}
Left m FlatBuf.stuck = ⊥

abbrev pub Below : {A : Type 0} → ℕ → Reply A → Type 0
Below m (got a rest) = length rest < m
Below m (refused e) = Unit {0}
Below m FlatBuf.stuck = ⊥

-- A reader that ends on fewer than `n` bytes, on any bytes, and that also takes a byte.
abbrev pub EndsUnder : {A : Type 0} → ℕ → Flat A → Type 0
EndsUnder n f = (bs : Bytes) → length bs < n → Left (length bs) (f bs)

pub record Ends {A : Type 0} (f : Flat A) : Type 0 where
  pub at : (bs : Bytes) → Left (length bs) (f bs)

abbrev pub Takes : {A : Type 0} → Flat A → Type 0
Takes f = (bs : Bytes) → Below (length bs) (f bs)

pub weaker : {A : Type 0} (m k : ℕ) (r : Reply A) → m ≤ k → Left m r → Left k r
weaker m k (got a rest) le h = omega (arith, h)
weaker m k (refused e) le h = tt
weaker m k FlatBuf.stuck le h = absurd h

pub and_then-Left :
    {A B : Type 0} (m n : ℕ) (r : Reply A) (g : A → Flat B)
    → m < n
    → Left m r
    → ((a : A) → EndsUnder n (g a))
    → Left m (and_then g r)
and_then-Left m n (got a rest) g lt h k =
    weaker (length rest) m (g a rest) h (k a rest (omega (arith, h)))
and_then-Left m n (refused e) g lt h k = tt
and_then-Left m n FlatBuf.stuck g lt h k = absurd h

and_then-Below :
    {A B : Type 0} (m n : ℕ) (r : Reply A) (g : A → Flat B)
    → m < suc n
    → Below m r
    → ((a : A) → EndsUnder n (g a))
    → Left m (and_then g r)
and_then-Below m n (got a rest) g lt h k =
    weaker (length rest) m (g a rest) (omega (arith, h)) (k a rest (omega (arith, h, lt)))
and_then-Below m n (refused e) g lt h k = tt
and_then-Below m n FlatBuf.stuck g lt h k = absurd h

-- One reader behind another.
pub >>=-EndsUnder :
    {A B : Type 0} (n : ℕ) (f : Flat A) (g : A → Flat B)
    → Ends f
    → ((a : A) → EndsUnder n (g a))
    → EndsUnder n (f >>= g)
>>=-EndsUnder n f g h k bs lt = and_then-Left (length bs) n (f bs) g lt (h.at bs) k

pub >>=-suc :
    {A B : Type 0} (n : ℕ) (f : Flat A) (g : A → Flat B)
    → Takes f
    → ((a : A) → EndsUnder n (g a))
    → EndsUnder (suc n) (f >>= g)
>>=-suc n f g h k bs lt = and_then-Below (length bs) n (f bs) g lt (h bs) k

pub >>=-Ends :
    {A B : Type 0} (f : Flat A) (g : A → Flat B) → Ends f → ((a : A) → Ends (g a)) → Ends (f >>= g)
>>=-Ends f g h k = record {
  at = λ bs.
      and_then-Left (length bs) (suc (length bs)) (f bs) g (omega arith) (h.at bs)
        (λ a rest lt. (k a).at rest);
}

shorter : {A : Type 0} (m n : ℕ) (r : Reply A) → n < m → Left n r → Below m r
shorter m n (got a rest) lt h = omega (arith, h)
shorter m n (refused e) lt h = tt
shorter m n FlatBuf.stuck lt h = absurd h

pub takes_step :
    {A B : Type 0} (m : ℕ) (r : Reply A) (g : A → Flat B)
    → Below m r
    → ((a : A) → Ends (g a))
    → Below m (and_then g r)
takes_step m (got a rest) g h k = shorter m (length rest) (g a rest) h ((k a).at rest)
takes_step m (refused e) g h k = tt
takes_step m FlatBuf.stuck g h k = absurd h

Below-Left : {A : Type 0} (m : ℕ) (r : Reply A) → Below m r → Left m r
Below-Left m (got a rest) h = omega (arith, h)
Below-Left m (refused e) h = tt
Below-Left m FlatBuf.stuck h = absurd h

pub Takes-Ends : {A : Type 0} (f : Flat A) → Takes f → Ends f
Takes-Ends f h = record { at = λ bs. Below-Left (length bs) (f bs) (h bs) }

pub pure-Ends : {A : Type 0} (a : A) → Ends (pure a)
pure-Ends a = record { at = λ bs. omega arith }

pub throw-Ends : {A : Type 0} (e : Error) → Ends (throw {A = A} e)
throw-Ends e = record { at = λ bs. tt }

pub or_invalid-Ends : {A : Type 0} (a : Option A) → Ends (Flat.or_invalid a)
or_invalid-Ends (some a) = pure-Ends a
or_invalid-Ends none = throw-Ends (io invalid_data)

pub read_exact-Ends : (n : ℕ) → Ends (read_exact n)
unfolding read_exact
read_exact-Ends n = record {
  at = λ bs. elim (Bool-cases (leb n (length bs))) [
    | inl e ↦ rw e (omega (arith, length-drop n bs))
    | inr e ↦ rw e tt
  ];
}

pub has_more_data-Ends : Ends has_more_data
unfolding has_more_data
has_more_data-Ends = record { at = λ bs. omega arith }

pub to_usize-Ends : (usize_max v : ℕ) → Ends (to_usize usize_max v)
unfolding to_usize
to_usize-Ends usize_max v = elim (Bool-cases (leb v usize_max)) [
  | inl e ↦ rw e (pure-Ends v)
  | inr e ↦ rw e (throw-Ends (io invalid_data))
]

pub with_octets-Takes : (get : Bytes → Option (ℕ × ℕ)) → IsReader get → Takes (with_octets get)
unfolding with_octets
with_octets-Takes get reader bs = go (get bs) refl
  where
    go : (q : Option (ℕ × ℕ)) → get bs ≡ q → Below (length bs) (from_read bs q)
    go none e = tt
    go (some (v, n)) e =
        omega (arith, length-drop n bs, reader.progress bs v n e, reader.within bs v n e)

-- Either of two readers.
pub either_step :
    {A : Type 0} (n : ℕ) (b : Bool) (f g : Flat A)
    → EndsUnder n f
    → EndsUnder n g
    → EndsUnder n (elim b [ false ↦ f | true ↦ g ])
either_step n false f g h k = h
either_step n true f g h k = k

pub zero_step :
    {A : Type 0} (n k : ℕ) (f : Flat A) (g : ℕ → Flat A)
    → EndsUnder n f
    → ((l : ℕ) → EndsUnder n (g l))
    → EndsUnder n (elim k [ zero ↦ f | suc l ↦ g l ])
zero_step n zero f g h k' = h
zero_step n (suc l) f g h k' = k' l
