-- ===== src/Pat/Keys.antt =====
-- The key that `select_public_token_key` of src/pat.rs picks.
use pvcli.Prelude.{
  ℕ, ◌≤◌, ◌≡◌, refl, ap, true, false, Option, none, some, List, [], ◌∷◌, ◌++◌, All, Bool-cases, ◌⊎◌,
  inl, inr, ◌==◌, ==→eq, if◌then◌else◌, arith,
}
use pvcli.Pat.{
  ℤ, pos, negsuc, TokenKeyInfo, has_begun, is_eligible, reverse, find, select_public_token_key,
}

abbrev or_last : ℕ → Option TokenKeyInfo → TokenKeyInfo → Option TokenKeyInfo
or_last now (some k) x = some k
or_last now none x = if is_eligible now x then some x else none

find-append :
    (now : ℕ) (ks : List TokenKeyInfo) (x : TokenKeyInfo)
    → find now (ks ++ (x ∷ [])) ≡ or_last now (find now ks) x
unfolding find
find-append now [] x = refl
find-append now (k ∷ ks) x = elim (Bool-cases (is_eligible now k)) [
  | inl e ↦ rw e refl
  | inr e ↦ rw e (find-append now ks x)
]

-- The `not-before` date, if there is one, has come: `now` is the seconds since 1970.
abbrev pub HasBegun : ℕ → Option ℤ → Type 0
HasBegun now none = Unit {0}
HasBegun now (some (pos not_before)) = not_before ≤ now
HasBegun now (some (negsuc n)) = Unit {0}

-- A key of the token type 2, blind RSA, that is valid by now.
abbrev pub IsEligible : ℕ → TokenKeyInfo → Type 0
IsEligible now k = (k.token_type ≡ 2) × HasBegun now k.not_before

abbrev pub NotEligible : ℕ → TokenKeyInfo → Type 0
NotEligible now k = ¬ IsEligible now k

has_begun-HasBegun :
    (now : ℕ) (not_before : Option ℤ)
    → ((has_begun now not_before ≡ true) × HasBegun now not_before)
      ⊎ ((has_begun now not_before ≡ false) × ¬ HasBegun now not_before)
has_begun-HasBegun now none = inl (refl, tt)
has_begun-HasBegun now (some (pos nb)) = ground arith
has_begun-HasBegun now (some (negsuc n)) = inl (refl, tt)

-- The test decides the predicate.
is_eligible-IsEligible :
    (now : ℕ) (k : TokenKeyInfo)
    → ((is_eligible now k ≡ true) × IsEligible now k)
      ⊎ ((is_eligible now k ≡ false) × NotEligible now k)
is_eligible-IsEligible now k = elim (Bool-cases (k.token_type == 2)) [
  | inl same ↦ elim (has_begun-HasBegun now k.not_before) [
    | inl (e, begun) ↦ inl (simp (same, e), (==→eq k.token_type 2 same, begun))
    | inr (e, not_yet) ↦ inr (simp (same, e), λ good. not_yet good.1)
  ]
  | inr other ↦ inr (simp other, λ good. ground (arith, other, good.0))
]

-- The last eligible key, with what stands around it; or none, and then no key is eligible.
abbrev pub Picks : ℕ → List TokenKeyInfo → Option TokenKeyInfo → Type 0
Picks now ks (some k) =
    (before after : List TokenKeyInfo) × (ks ≡ before ++ (k ∷ after))
    × IsEligible now k
    × All (NotEligible now) after
Picks now ks none = All (NotEligible now) ks

Picks-step :
    (now : ℕ) (x : TokenKeyInfo) (ks : List TokenKeyInfo) (q : Option TokenKeyInfo)
    → Picks now ks q
    → Picks now (x ∷ ks) (or_last now q x)
Picks-step now x ks (some k) (before, after, e, good, rest) =
    (x ∷ before, after, ap (λ l. x ∷ l) e, good, rest)
Picks-step now x ks none rest = elim (is_eligible-IsEligible now x) [
  | inl (e, good) ↦ rw e ([], ks, refl, good, rest)
  | inr (e, bad) ↦ rw e (bad, rest)
]

-- `select_public_token_key` picks a key of the directory that has token type 2 and whose
-- `not-before`, if it has one, is not after `now`, and no key behind it in the directory is such a
-- key; it gives none only if there is no such key at all. The place in the directory decides, not
-- the date.
pub select_public_token_key-Picks :
    (now : ℕ) (token_keys : List TokenKeyInfo)
    → Picks now token_keys (select_public_token_key now token_keys)
unfolding select_public_token_key reverse find
select_public_token_key-Picks now [] = tt
select_public_token_key-Picks now (k ∷ ks) =
    rw (find-append now (reverse ks) k)
      (Picks-step now k ks (find now (reverse ks)) (select_public_token_key-Picks now ks))
