-- ===== src/Pat.antt =====
-- src/pat.rs: private access tokens, but for the calls of the crates `privacypass` and `url`.
pub mod Host
pub mod Keys
use pvcli.Prelude.{
  ℕ, zero, suc, ◌≤◌, Bool, true, false, not, ◌&&◌, ◌||◌, Option, none, some, List, [], ◌∷◌, ◌++◌,
  Bytes, leb, ltb, is_empty, ◌==◌, if◌then◌else◌,
}
use pvcli.Http.{bytes_eq}
use pvcli.Args.Text.{starts_with}

-- What was wrong with the host of the issuer.
pub data HostError : Type 0 where
  unsupported_scheme empty_host has_path : HostError

pub data Normalized : Type 0 where
  host : Bytes → Normalized
  refused : HostError → Normalized

abbrev pub separator : Bytes
separator = 58 ∷ 47 ∷ 47 ∷ []

abbrev pub https : Bytes
https = 104 ∷ 116 ∷ 116 ∷ 112 ∷ 115 ∷ []

abbrev pub slash : ℕ
slash = 47

-- `str::split_once("://")`: what is in front of the first separator and what is behind it.
abbrev pub in_front : ℕ → Option (Bytes × Bytes) → Option (Bytes × Bytes)
in_front c none = none
in_front c (some (front, rest)) = some (c ∷ front, rest)

abbrev pub drop_three : Bytes → Bytes
drop_three (a ∷ b ∷ c ∷ rest) = rest
drop_three text = []

unfoldable pub split_scheme : Bytes → Option (Bytes × Bytes)
unfolding starts_with
split_scheme [] = none
split_scheme (c ∷ text) =
    let later = in_front c (split_scheme text) in
    if starts_with (c ∷ text) separator then some ([], drop_three (c ∷ text)) else later

-- `trim_end_matches('/')`.
abbrev pub trimmed : ℕ → Bytes → Bytes
trimmed c [] = if c == slash then [] else c ∷ []
trimmed c (d ∷ rest) = c ∷ d ∷ rest

unfoldable pub trim_end : Bytes → Bytes
trim_end [] = []
trim_end (c ∷ text) = trimmed c (trim_end text)

-- `contains('/')`.
unfoldable pub has_slash : Bytes → Bool
has_slash [] = false
has_slash (c ∷ text) = (c == slash) || has_slash text

abbrev pub checked_host : Bytes → Normalized
checked_host h =
    if is_empty h then refused empty_host else if has_slash h then refused has_path else host h

abbrev pub by_scheme : Bytes → Option (Bytes × Bytes) → Normalized
by_scheme issuer (some (scheme, rest)) =
    if bytes_eq scheme https then checked_host (trim_end rest) else refused unsupported_scheme
by_scheme issuer none = checked_host (trim_end issuer)

unfoldable pub normalize_issuer_host : Bytes → Normalized
unfolding split_scheme trim_end has_slash
normalize_issuer_host issuer = by_scheme issuer (split_scheme issuer)

-- `i64` and `u16` fields of a token key; the key itself is text.
pub data ℤ : Type 0 where
  pos : ℕ → ℤ
  negsuc : ℕ → ℤ

pub record TokenKeyInfo : Type 0 where
  pub token_type : ℕ
  pub token_key : Bytes
  pub not_before : Option ℤ

pub record IssuerConfig : Type 0 where
  pub issuer_request_uri : Bytes
  pub token_keys : List TokenKeyInfo

abbrev pub token_type_public : ℕ
token_type_public = 2

-- `nb <= now`; `now` is the seconds since 1970, or 0 if the clock stands before.
abbrev pub has_begun : ℕ → Option ℤ → Bool
has_begun now none = true
has_begun now (some (pos nb)) = leb nb now
has_begun now (some (negsuc nb)) = true

abbrev pub is_eligible : ℕ → TokenKeyInfo → Bool
is_eligible now k = (k.token_type == token_type_public) && has_begun now k.not_before

-- `Vec::reverse` and `Iterator::find`.
unfoldable pub reverse : List TokenKeyInfo → List TokenKeyInfo
reverse [] = []
reverse (k ∷ ks) = reverse ks ++ (k ∷ [])

unfoldable pub find : ℕ → List TokenKeyInfo → Option TokenKeyInfo
find now [] = none
find now (k ∷ ks) = let rest = find now ks in if is_eligible now k then some k else rest

unfoldable pub select_public_token_key : (now : ℕ) → List TokenKeyInfo → Option TokenKeyInfo
unfolding reverse find
select_public_token_key now token_keys = find now (reverse token_keys)
