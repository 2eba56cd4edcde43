-- ===== src/OhttpHpke/ServerConfig.antt =====
-- The key configs of a server (crates/ohttp-hpke/src/server.rs).
pub mod Wire
pub mod Valid
use pvcli.Prelude.{
  ℕ, zero, suc, ◌+◌, ◌*◌, ◌%◌, ◌^◌, Option, none, some, Bool, true, false, not, ◌&&◌, ◌||◌, List,
  [], ◌∷◌, ◌++◌, Bytes, length, leb, is_empty, if◌then◌else◌,
}
use pvcli.Octets.{Octets, OctetsMut, with_slice, ◌>>=◌}
use pvcli.Poll.{Result, ok, err, io, invalid_data, panicked, unwrap}
use pvcli.HyperBinary.Encoder.{vec_of}
use pvcli.OhttpHpke.Config.{
  KemId, dh_p256_hkdf_sha256, dh_p384_hkdf_sha384, x25519_hkdf_sha256, KdfId, hkdf_sha256,
  hkdf_sha384, hkdf_sha512, AeadId, aes_gcm128, aes_gcm256, cha_cha20_poly1305, Crypto,
}
use pvcli.OhttpHpke.Keys.{PublicKey, KeyPair, KeyConfig}
use pvcli.OhttpHpke.Header.{EncapHeader}

pub record ServerConfig : Type 0 where
  pub key_configs : List (KeyConfig KeyPair)

-- `ServerConfig::default()`.
abbrev pub default : ServerConfig
default = record { key_configs = [] }

-- The derived `==` of the ids.
abbrev pub kem_eq : KemId → KemId → Bool
kem_eq dh_p256_hkdf_sha256 dh_p256_hkdf_sha256 = true
kem_eq dh_p384_hkdf_sha384 dh_p384_hkdf_sha384 = true
kem_eq x25519_hkdf_sha256 x25519_hkdf_sha256 = true
kem_eq j k = false

abbrev pub kdf_eq : KdfId → KdfId → Bool
kdf_eq hkdf_sha256 hkdf_sha256 = true
kdf_eq hkdf_sha384 hkdf_sha384 = true
kdf_eq hkdf_sha512 hkdf_sha512 = true
kdf_eq j k = false

abbrev pub aead_eq : AeadId → AeadId → Bool
aead_eq aes_gcm128 aes_gcm128 = true
aead_eq aes_gcm256 aes_gcm256 = true
aead_eq cha_cha20_poly1305 cha_cha20_poly1305 = true
aead_eq j k = false

abbrev pub max_u16 : ℕ
max_u16 = 65535

-- `KeyConfig::encoded_len`.
unfoldable pub key_config_len : KeyConfig KeyPair → ℕ
key_config_len config =
    1 + 2 + length config.key.public_key.bytes + 2 + length config.symmetric_algorithms * 4

-- An `assert!`.
unfoldable pub assert : {A : Type 0} → Bool → Result A → Result A
assert true rest = rest
assert false rest = err panicked

unfoldable pub add_key_config : ServerConfig → KeyPair → List (KdfId × AeadId) → Result ServerConfig
unfolding key_config_len assert
add_key_config config key_pair symmetric_algorithms =
    let key_id = length config.key_configs in
    let key_config : KeyConfig KeyPair = record {
      key_id = key_id;
      key = key_pair;
      symmetric_algorithms = symmetric_algorithms;
    } in
    assert (leb key_id 255) (
      assert (not (is_empty symmetric_algorithms)) (
        assert (leb (length symmetric_algorithms * 4) max_u16) (
          assert (leb (key_config_len key_config + 2) max_u16)
            (ok (record { key_configs = config.key_configs ++ (key_config ∷ []) })))))

-- `key_configs.get(key_id)`.
abbrev pub get_elem? : {A : Type 0} → List A → ℕ → Option A
get_elem? [] n = none
get_elem? (x ∷ xs) zero = some x
get_elem? (x ∷ xs) (suc n) = get_elem? xs n

-- `symmetric_algorithms.contains(&header_algo)`.
unfoldable pub contains : List (KdfId × AeadId) → KdfId → AeadId → Bool
contains [] kdf aead = false
contains ((kdf_id, aead_id) ∷ rest) kdf aead =
    (kdf_eq kdf_id kdf && aead_eq aead_id aead) || contains rest kdf aead

abbrev pub checked : EncapHeader → Option (KeyConfig KeyPair) → Result KeyPair
checked encap_header none = err (io invalid_data)
checked encap_header (some key_config) =
    if not (kem_eq encap_header.kem_id key_config.key.public_key.kem_id)
    then err (io invalid_data)
    else if not (contains key_config.symmetric_algorithms encap_header.kdf_id encap_header.aead_id)
    then err (io invalid_data)
    else ok key_config.key

unfoldable pub get_key_pair : ServerConfig → EncapHeader → Result KeyPair
unfolding contains
get_key_pair config encap_header =
    checked encap_header (get_elem? config.key_configs encap_header.key_id)

-- `ServerConfig::encoded_len`.
unfoldable pub encoded_len : List (KeyConfig KeyPair) → ℕ
unfolding key_config_len
encoded_len [] = 0
encoded_len (key_config ∷ rest) = 2 + key_config_len key_config + encoded_len rest

module _ (o : Octets) (c : Crypto) where
  unfoldable pub put_algorithms : List (KdfId × AeadId) → OctetsMut → Option OctetsMut
  put_algorithms [] octets = some octets
  put_algorithms ((kdf_id, aead_id) ∷ rest) octets =
      o.put_u16 (c.kdf_code kdf_id) octets
      >>= o.put_u16 (c.aead_code aead_id)
      >>= put_algorithms rest

  -- `KeyConfig::put`; `as u16` and the product wrap around.
  unfoldable pub put_key_config : KeyConfig KeyPair → OctetsMut → Option OctetsMut
  unfolding put_algorithms
  put_key_config config octets =
      o.put_u8 config.key_id octets
      >>= o.put_u16 (c.kem_code config.key.public_key.kem_id)
      >>= o.put_bytes config.key.public_key.bytes
      >>= o.put_u16 (length config.symmetric_algorithms % 2 ^ 16 * 4 % 2 ^ 16)
      >>= put_algorithms config.symmetric_algorithms

  -- `ServerConfig::put`.
  unfoldable pub put : List (KeyConfig KeyPair) → OctetsMut → Option OctetsMut
  unfolding put_key_config key_config_len
  put [] octets = some octets
  put (key_config ∷ rest) octets =
      o.put_u16 (key_config_len key_config % 2 ^ 16) octets
      >>= put_key_config key_config
      >>= put rest

  unfoldable pub encode_config : ServerConfig → Result Bytes
  unfolding put encoded_len
  encode_config config =
      vec_of (unwrap (put config.key_configs (with_slice (encoded_len config.key_configs))))
