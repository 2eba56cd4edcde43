-- ===== src/OhttpHpke/Slice.antt =====
-- Reading a slice with `octets::Octets`: the state is the bytes that are left.
use pvcli.Prelude.{ℕ, Option, none, some, Bytes, drop}
use pvcli.Poll.{Error, Result, ok, err, io, invalid_data}

abbrev pub Parse : Type 0 → Type 0
Parse A = Bytes → Result (A × Bytes)

abbrev pub pure : {A : Type 0} → A → Parse A
pure a b = ok (a, b)

abbrev pub throw : {A : Type 0} → Error → Parse A
throw e b = err e

abbrev pub and_then : {A B : Type 0} → (A → Parse B) → Result (A × Bytes) → Result (B × Bytes)
and_then f (ok (a, b)) = f a b
and_then f (err e) = err e

infixl 5 ◌>>=◌
abbrev pub ◌>>=◌ : {A B : Type 0} → Parse A → (A → Parse B) → Parse B
◌>>=◌ m f b = and_then f (m b)

abbrev pub lift : {A : Type 0} → Result A → Parse A
lift (ok a) = pure a
lift (err e) = throw e

-- `octets.get_…().map_err(invalid_data)?`.
abbrev pub taken : {A : Type 0} → Bytes → Option (A × ℕ) → Result (A × Bytes)
taken b none = err (io invalid_data)
taken b (some (a, n)) = ok (a, drop n b)

abbrev pub get : {A : Type 0} → (Bytes → Option (A × ℕ)) → Parse A
get f b = taken b (f b)

-- `octets.cap()`.
abbrev pub left : (Bytes → ℕ) → Parse ℕ
left cap b = ok (cap b, b)
