-- ===== src/Http3/HashMap.antt =====
-- `std::collections::HashMap` with keys `u64`, as the code of src/client/http3 uses it, and how often
-- a key stands in a map.
use pvcli.Prelude.{
  ℕ, ◌+◌, ◌≤◌, ◌≡◌, refl, Bool, true, false, Option, none, some, List, [], ◌∷◌, ◌++◌, ◌==◌,
  Bool-cases, ◌⊎◌, inl, inr, if◌then◌else◌, arith,
}

abbrev pub Map : Type 0 → Type 0
Map A = List (ℕ × A)

unfoldable pub get : {A : Type 0} → ℕ → Map A → Option A
get k [] = none
get k ((j, a) ∷ m) = if j == k then some a else get k m

unfoldable pub remove : {A : Type 0} → ℕ → Map A → Map A
remove k [] = []
remove k ((j, a) ∷ m) = let rest = remove k m in if j == k then rest else (j, a) ∷ rest

abbrev pub insert : {A : Type 0} → ℕ → A → Map A → Map A
insert k a m = (k, a) ∷ remove k m

abbrev one : Bool → ℕ
one true = 1
one false = 0

unfoldable pub times : {A : Type 0} → ℕ → Map A → ℕ
times k [] = 0
times k ((j, a) ∷ m) = one (j == k) + times k m

one_same : (j k : ℕ) → j ≡ k → one (j == k) ≡ 1
one_same j k e = ground arith

one_other : (j k : ℕ) → one (j == k) ≡ 0 ⊎ (one (j == k) ≡ 1) × (j ≡ k)
one_other j k = ground arith

pub times-append : {A : Type 0} (k : ℕ) (m n : Map A) → times k (m ++ n) ≡ times k m + times k n
unfolding times
times-append k [] n = omega arith
times-append k ((j, a) ∷ m) n = omega (arith, times-append k m n)

pub times-one : {A : Type 0} (k j : ℕ) (a : A) → times k ((j, a) ∷ []) ≤ 1
unfolding times
times-one k j a = elim (one_other j k) [
  | inl e ↦ omega (arith, e)
  | inr (e, same) ↦ omega (arith, e)
]

-- A key that stands once in a list of one.
pub times-other : {A : Type 0} (k j : ℕ) (a : A) → (times k ((j, a) ∷ []) ≡ 0) ⊎ (k ≡ j)
unfolding times
times-other k j a = elim (one_other j k) [
  | inl e ↦ inl (omega (arith, e))
  | inr (e, same) ↦ inr (omega (arith, same))
]

pub times-remove : {A : Type 0} (k : ℕ) (m : Map A) → times k (remove k m) ≡ 0
unfolding times remove
times-remove k [] = refl
times-remove k ((j, a) ∷ m) = elim (Bool-cases (j == k)) [
  | inl e ↦ rw e (times-remove k m)
  | inr e ↦ rw (e, e, times-remove k m) (omega arith)
]

pub remove-le : {A : Type 0} (k j : ℕ) (m : Map A) → times k (remove j m) ≤ times k m
unfolding times remove
remove-le k j [] = omega arith
remove-le k j ((i, a) ∷ m) = elim (Bool-cases (i == j)) [
  | inl e ↦ rw e (omega (arith, remove-le k j m))
  | inr e ↦ rw e (omega (arith, remove-le k j m))
]

-- A key that is found stands in the map.
pub get-times : {A : Type 0} (k : ℕ) (a : A) (m : Map A) → get k m ≡ some a → 1 ≤ times k m
unfolding times get
get-times k a [] e = cc
get-times k a ((j, b) ∷ m) e = elim (Bool-cases (j == k)) [
  | inl h ↦ rw h (omega arith)
  | inr h ↦ rw h (omega (arith, get-times k a m (rw h at e)))
]
