-- ===== src/OhttpHpke/ServerConfig/Valid.antt =====
-- What `add_key_config` of crates/ohttp-hpke/src/server.rs keeps, and what `get_key_pair` finds.
use pvcli.Prelude.{
  ℕ, suc, ◌+◌, ◌*◌, ◌<◌, ◌≡◌, refl, ap, ◌∙◌, Bool, true, false, not, ◌||◌, some, List, [], ◌∷◌,
  ◌++◌, All, length, leb, leb→le, is_empty, arith,
}
use mathlib.Core.Path.{subst}
use pvcli.Poll.{Result, ok}
use pvcli.OhttpHpke.Config.{
  KemId, dh_p256_hkdf_sha256, dh_p384_hkdf_sha384, x25519_hkdf_sha256, KdfId, hkdf_sha256,
  hkdf_sha384, hkdf_sha512, AeadId, aes_gcm128, aes_gcm256, cha_cha20_poly1305, Crypto,
}
use pvcli.OhttpHpke.Keys.{KeyPair, KeyConfig}
use pvcli.OhttpHpke.ServerConfig.{
  ServerConfig, max_u16, key_config_len, assert, add_key_config, kem_eq, kdf_eq, aead_eq, contains,
  get_elem?, get_key_pair,
}
use pvcli.OhttpHpke.ServerConfig.Wire.{IsWritable}

-- The key ids count up from `n`.
abbrev pub AreNumbered : ℕ → List (KeyConfig KeyPair) → Type 0
AreNumbered n [] = Unit {0}
AreNumbered n (config ∷ rest) = (config.key_id ≡ n) × AreNumbered (suc n) rest

-- Every key config can be written, and its id is its place, by which `get_key_pair` looks it up.
pub record IsValid (c : Crypto) (config : ServerConfig) : Type 0 where
  pub writable : All (IsWritable c) config.key_configs
  pub numbered : AreNumbered 0 config.key_configs

All-append :
    (P : KeyConfig KeyPair → Type 0) (configs : List (KeyConfig KeyPair)) (k : KeyConfig KeyPair)
    → All P configs
    → P k
    → All P (configs ++ (k ∷ []))
All-append P [] k all h = (h, tt)
All-append P (x ∷ xs) k (p, all) h = (p, All-append P xs k all h)

AreNumbered-append :
    (n : ℕ) (configs : List (KeyConfig KeyPair)) (k : KeyConfig KeyPair)
    → AreNumbered n configs
    → k.key_id ≡ n + length configs
    → AreNumbered n (configs ++ (k ∷ []))
AreNumbered-append n [] k all e = (omega (arith, e), tt)
AreNumbered-append n (x ∷ xs) k (p, all) e =
    (p, AreNumbered-append (suc n) xs k all (omega (arith, e)))

assert_held :
    {A : Type 0} (b : Bool) (rest : Result A) (a : A)
    → assert b rest ≡ ok a
    → (b ≡ true) × (rest ≡ ok a)
unfolding assert
assert_held true rest a e = (refl, e)
assert_held false rest a e = cc

not_empty : {A : Type 0} (xs : List A) → not (is_empty xs) ≡ true → 0 < length xs
not_empty [] e = cc
not_empty (x ∷ xs) e = omega arith

-- `add_key_config` keeps a server config valid when the public key that it is given has the size
-- of its algorithm: the new key config can be written and has its place as its id.
pub add_key_config-IsValid :
    (c : Crypto) (config config' : ServerConfig) (key_pair : KeyPair)
    (symmetric_algorithms : List (KdfId × AeadId))
    → IsValid c config
    → length key_pair.public_key.bytes ≡ c.public_key_size key_pair.public_key.kem_id
    → add_key_config config key_pair symmetric_algorithms ≡ ok config'
    → IsValid c config'
unfolding add_key_config
add_key_config-IsValid c config config' key_pair symmetric_algorithms valid sized e =
    let key_config : KeyConfig KeyPair = record {
      key_id = length config.key_configs;
      key = key_pair;
      symmetric_algorithms = symmetric_algorithms;
    } in
    let added : ServerConfig = record { key_configs = config.key_configs ++ (key_config ∷ []) } in
    let (few, e1) =
      assert_held (leb (length config.key_configs) 255)
        (assert (not (is_empty symmetric_algorithms)) (
          assert (leb (length symmetric_algorithms * 4) max_u16)
            (assert (leb (key_config_len key_config + 2) max_u16) (ok added))))
        config' e in
    let (some_algorithm, e2) =
      assert_held (not (is_empty symmetric_algorithms))
        (assert (leb (length symmetric_algorithms * 4) max_u16)
          (assert (leb (key_config_len key_config + 2) max_u16) (ok added)))
        config' e1 in
    let (algorithms_fit, e3) =
      assert_held (leb (length symmetric_algorithms * 4) max_u16)
        (assert (leb (key_config_len key_config + 2) max_u16) (ok added)) config' e2 in
    let (fits, e4) =
      assert_held (leb (key_config_len key_config + 2) max_u16) (ok added) config' e3 in
    let same : added ≡ config' = cc in
    subst (IsValid c) same (record {
      writable = All-append (IsWritable c) config.key_configs key_config valid.writable (record {
        id_fits = omega (arith, leb→le (length config.key_configs) 255 few);
        some_algorithm = not_empty symmetric_algorithms some_algorithm;
        algorithms_fit = leb→le (length symmetric_algorithms * 4) max_u16 algorithms_fit;
        fits = leb→le (key_config_len key_config + 2) max_u16 fits;
        key_sized = sized;
      });
      numbered = AreNumbered-append 0 config.key_configs key_config valid.numbered (omega arith);
    })

kem_eq_refl : (k : KemId) → kem_eq k k ≡ true
kem_eq_refl dh_p256_hkdf_sha256 = refl
kem_eq_refl dh_p384_hkdf_sha384 = refl
kem_eq_refl x25519_hkdf_sha256 = refl

kdf_eq_refl : (k : KdfId) → kdf_eq k k ≡ true
kdf_eq_refl hkdf_sha256 = refl
kdf_eq_refl hkdf_sha384 = refl
kdf_eq_refl hkdf_sha512 = refl

aead_eq_refl : (k : AeadId) → aead_eq k k ≡ true
aead_eq_refl aes_gcm128 = refl
aead_eq_refl aes_gcm256 = refl
aead_eq_refl cha_cha20_poly1305 = refl

-- A pair of algorithms that the list names.
pub data Offers (kdf : KdfId) (aead : AeadId) : List (KdfId × AeadId) → Type 0 where
  here : {rest : List (KdfId × AeadId)} → Offers kdf aead ((kdf, aead) ∷ rest)
  there :
      {k : KdfId} {a : AeadId} {rest : List (KdfId × AeadId)}
      → Offers kdf aead rest
      → Offers kdf aead ((k, a) ∷ rest)

or_true : (b : Bool) → (b || true) ≡ true
or_true true = refl
or_true false = refl

contains-Offers :
    (kdf : KdfId) (aead : AeadId) (algorithms : List (KdfId × AeadId))
    → Offers kdf aead algorithms
    → contains algorithms kdf aead ≡ true
unfolding contains
contains-Offers kdf aead _ here = rw (kdf_eq_refl kdf, aead_eq_refl aead) refl
contains-Offers kdf aead _ (there {k} {a} {rest} h) =
    rw (contains-Offers kdf aead rest h) (or_true _)

get_elem?-place :
    (before after : List (KeyConfig KeyPair)) (k : KeyConfig KeyPair) (n : ℕ)
    → AreNumbered n (before ++ (k ∷ after))
    → (k.key_id ≡ n + length before) × (get_elem? (before ++ (k ∷ after)) (length before) ≡ some k)
get_elem?-place [] after k n (e, rest) = (omega (arith, e), refl)
get_elem?-place (x ∷ before) after k n (e, rest) =
    let (id, found) = get_elem?-place before after k (suc n) rest in (omega (arith, id), found)

-- In a valid server config, `get_key_pair` finds for a header the key pair of the key config whose
-- id, KEM and algorithms the header names.
pub get_key_pair-Offers :
    (c : Crypto) (before after : List (KeyConfig KeyPair)) (k : KeyConfig KeyPair) (kdf : KdfId)
    (aead : AeadId)
    → IsValid c (record { key_configs = before ++ (k ∷ after) })
    → Offers kdf aead k.symmetric_algorithms
    → get_key_pair
        (record { key_configs = before ++ (k ∷ after) })
        (record {
          key_id = k.key_id;
          kem_id = k.key.public_key.kem_id;
          kdf_id = kdf;
          aead_id = aead;
        })
      ≡ ok k.key
unfolding get_key_pair
get_key_pair-Offers c before after k kdf aead valid offers =
    let (id, found) = get_elem?-place before after k 0 valid.numbered in
    let place : k.key_id ≡ length before = omega (arith, id) in
    let all : List (KeyConfig KeyPair) = before ++ (k ∷ after) in
    let found_at : get_elem? all k.key_id ≡ some k = ap (get_elem? all) place ∙ found in
    rw
      (
        found_at,
        kem_eq_refl k.key.public_key.kem_id,
        contains-Offers kdf aead k.symmetric_algorithms offers,
      )
      refl
