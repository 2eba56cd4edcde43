-- ===== src/Pat/Host.antt =====
-- What `normalize_issuer_host` of src/pat.rs lets through.
use pvcli.Prelude.{
  ℕ, ◌≡◌, refl, ap, Bool, true, false, ◌||◌, ◌&&◌, Option, none, some, [], ◌∷◌, Bytes, is_empty,
  Bool-cases, inl, inr, ◌==◌,
}
use pvcli.Http.{bytes_eq}
use pvcli.Args.Text.{starts_with}
use pvcli.Pat.{
  Normalized, host, refused, slash, separator, https, split_scheme, trim_end, trimmed, has_slash,
  checked_host, by_scheme, normalize_issuer_host,
}

-- A host that the URL of the issuer may be made of.
abbrev pub IsHost : Bytes → Type 0
IsHost h = (is_empty h ≡ false) × (has_slash h ≡ false)

abbrev Accepts : Normalized → Type 0
Accepts (host h) = IsHost h
Accepts (refused e) = Unit {0}

checked-Accepts : (h : Bytes) → Accepts (checked_host h)
checked-Accepts h = elim (Bool-cases (is_empty h)) [
  | inl e ↦ rw e tt
  | inr e ↦ rw e (elim (Bool-cases (has_slash h)) [ inl f ↦ rw f tt | inr f ↦ rw f (e, f) ])
]

by_scheme-Accepts :
    (issuer : Bytes) (split : Option (Bytes × Bytes)) → Accepts (by_scheme issuer split)
by_scheme-Accepts issuer none = checked-Accepts (trim_end issuer)
by_scheme-Accepts issuer (some (scheme, rest)) = elim (Bool-cases (bytes_eq scheme https)) [
  | inl e ↦ rw e (checked-Accepts (trim_end rest))
  | inr e ↦ rw e tt
]

accepted : (q : Normalized) (h : Bytes) → Accepts q → q ≡ host h → IsHost h
accepted (host g) h a e = let same : g ≡ h = cc in rw (← same) a
accepted (refused x) h a e = cc

or_false : (a b : Bool) → (a || b) ≡ false → (a ≡ false) × (b ≡ false)
or_false true b e = cc
or_false false b e = (refl, e)

and_false : (a b : Bool) → b ≡ false → (a && b) ≡ false
and_false true b e = e
and_false false b e = refl

slash_apart :
    (c : ℕ) (text : Bytes)
    → has_slash (c ∷ text) ≡ false
    → ((c == slash) ≡ false) × (has_slash text ≡ false)
unfolding has_slash
slash_apart c text e = or_false (c == slash) (has_slash text) e

-- A text without slashes is not split, and nothing is cut off its end.
no_separator : (h : Bytes) → has_slash h ≡ false → starts_with h separator ≡ false
unfolding has_slash starts_with
no_separator [] e = refl
no_separator (c ∷ []) e = and_false (c == 58) false refl
no_separator (c ∷ d ∷ text) e =
    let (not_c, rest) = or_false (c == slash) (has_slash (d ∷ text)) e in
    let (not_d, more) = or_false (d == slash) (has_slash text) rest in
    and_false (c == 58) _ (rw not_d refl)

whole_split : (h : Bytes) → has_slash h ≡ false → split_scheme h ≡ none
unfolding split_scheme
whole_split [] e = refl
whole_split (c ∷ text) e =
    let (not_c, rest) = slash_apart c text e in
    rw (no_separator (c ∷ text) e, whole_split text rest) refl

whole_end : (h : Bytes) → has_slash h ≡ false → trim_end h ≡ h
unfolding trim_end
whole_end [] e = refl
whole_end (c ∷ []) e = let (not_c, rest) = slash_apart c [] e in rw not_c refl
whole_end (c ∷ d ∷ text) e =
    let (not_c, rest) = slash_apart c (d ∷ text) e in ap (trimmed c) (whole_end (d ∷ text) rest)

-- What `normalize_issuer_host` accepts is not empty and has no slash, so that it names a host in the
-- URLs that are made of it; and it is in normal form: to normalize it again gives it back.
pub normalize_issuer_host-IsHost :
    (issuer h : Bytes)
    → normalize_issuer_host issuer ≡ host h
    → IsHost h × (normalize_issuer_host h ≡ host h)
unfolding normalize_issuer_host
normalize_issuer_host-IsHost issuer h e =
    let (some_host, no_slash) = accepted _ h (by_scheme-Accepts issuer (split_scheme issuer)) e in
    (
      (some_host, no_slash),
      rw (whole_split h no_slash, whole_end h no_slash, some_host, no_slash) refl,
    )
