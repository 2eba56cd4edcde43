-- ===== src/OhttpHpke/Config.antt =====
-- crates/ohttp-hpke/src/config.rs: the algorithm ids, and what the crates `hpke`, `aead` and `hkdf`
-- are relied on for.
use pvcli.Prelude.{arith, ℕ, ◌≡◌, ◌<◌, ◌^◌, Option, some, Bytes, length, ◌==◌, if◌then◌else◌}
use pvcli.Poll.{Result, ok, err, io, invalid_data}

pub data KemId : Type 0 where
  dh_p256_hkdf_sha256 dh_p384_hkdf_sha384 x25519_hkdf_sha256 : KemId

pub data KdfId : Type 0 where
  hkdf_sha256 hkdf_sha384 hkdf_sha512 : KdfId

pub data AeadId : Type 0 where
  aes_gcm128 aes_gcm256 cha_cha20_poly1305 : AeadId

-- The constants and functions of the third-party crates. The keyed functions take the algorithm
-- that the source gives as a type argument. A byte string stands for every key, nonce and tag.
pub record Crypto : Type 0 where
  -- `KEM_ID`, `KDF_ID`, `AEAD_ID`.
  pub kem_code : KemId → ℕ
  pub kdf_code : KdfId → ℕ
  pub aead_code : AeadId → ℕ
  -- The sizes of public keys, encapsulated keys, AEAD keys, nonces and tags.
  pub public_key_size : KemId → ℕ
  pub encapped_key_size : KemId → ℕ
  pub key_size : AeadId → ℕ
  pub nonce_size : AeadId → ℕ
  pub tag_size : AeadId → ℕ
  -- `SimpleHkdf::new(Some(salt), secret)` and `expand(info, &mut [0; len])`.
  pub expand : KdfId → (salt secret info : Bytes) → ℕ → Bytes
  -- `encrypt_in_place_detached` by key, nonce and associated data: ciphertext and tag.
  pub encrypt : AeadId → (key nonce aad plaintext : Bytes) → Option (Bytes × Bytes)
  -- `decrypt_in_place_detached`.
  pub decrypt : AeadId → (key nonce aad ciphertext tag : Bytes) → Option Bytes

-- What their documentation promises.
pub record CryptoLaws (c : Crypto) : Type 0 where
  -- The ids are different 16-bit numbers.
  pub kem_code_u16 : (k : KemId) → c.kem_code k < 2 ^ 16
  pub kdf_code_u16 : (k : KdfId) → c.kdf_code k < 2 ^ 16
  pub aead_code_u16 : (k : AeadId) → c.aead_code k < 2 ^ 16
  pub kem_code_injective : (j k : KemId) → c.kem_code j ≡ c.kem_code k → j ≡ k
  pub kdf_code_injective : (j k : KdfId) → c.kdf_code j ≡ c.kdf_code k → j ≡ k
  pub aead_code_injective : (j k : AeadId) → c.aead_code j ≡ c.aead_code k → j ≡ k
  -- A tag is not empty and has its fixed size, and decryption undoes encryption.
  pub tag_size_pos : (a : AeadId) → 0 < c.tag_size a
  pub encrypt_sizes :
      (a : AeadId) (key nonce aad plaintext ciphertext tag : Bytes)
      → c.encrypt a key nonce aad plaintext ≡ some (ciphertext, tag)
      → (length ciphertext ≡ length plaintext) × (length tag ≡ c.tag_size a)
  pub decrypt-encrypt :
      (a : AeadId) (key nonce aad plaintext ciphertext tag : Bytes)
      → c.encrypt a key nonce aad plaintext ≡ some (ciphertext, tag)
      → c.decrypt a key nonce aad ciphertext tag ≡ some plaintext

module _ (c : Crypto) where
  -- The three `try_from_u16` of the macro `id_enum`; the first arm that fits is taken.
  unfoldable pub kem_try_from_u16 : ℕ → Result KemId
  kem_try_from_u16 id =
      if id == c.kem_code dh_p256_hkdf_sha256
      then ok dh_p256_hkdf_sha256
      else if id == c.kem_code dh_p384_hkdf_sha384
      then ok dh_p384_hkdf_sha384
      else if id == c.kem_code x25519_hkdf_sha256
      then ok x25519_hkdf_sha256
      else err (io invalid_data)

  unfoldable pub kdf_try_from_u16 : ℕ → Result KdfId
  kdf_try_from_u16 id =
      if id == c.kdf_code hkdf_sha256
      then ok hkdf_sha256
      else if id == c.kdf_code hkdf_sha384
      then ok hkdf_sha384
      else if id == c.kdf_code hkdf_sha512
      then ok hkdf_sha512
      else err (io invalid_data)

  unfoldable pub aead_try_from_u16 : ℕ → Result AeadId
  aead_try_from_u16 id =
      if id == c.aead_code aes_gcm128
      then ok aes_gcm128
      else if id == c.aead_code aes_gcm256
      then ok aes_gcm256
      else if id == c.aead_code cha_cha20_poly1305
      then ok cha_cha20_poly1305
      else err (io invalid_data)

  module _ (laws : CryptoLaws c) where
    pub kem_try-code : (k : KemId) → kem_try_from_u16 (c.kem_code k) ≡ ok k
    unfolding kem_try_from_u16
    kem_try-code dh_p256_hkdf_sha256 = ground arith
    kem_try-code dh_p384_hkdf_sha384 =
        ground (arith, laws.kem_code_injective dh_p256_hkdf_sha256 dh_p384_hkdf_sha384)
    kem_try-code x25519_hkdf_sha256 = ground (
      arith,
      laws.kem_code_injective dh_p256_hkdf_sha256 x25519_hkdf_sha256,
      laws.kem_code_injective dh_p384_hkdf_sha384 x25519_hkdf_sha256,
    )

    pub kdf_try-code : (k : KdfId) → kdf_try_from_u16 (c.kdf_code k) ≡ ok k
    unfolding kdf_try_from_u16
    kdf_try-code hkdf_sha256 = ground arith
    kdf_try-code hkdf_sha384 = ground (arith, laws.kdf_code_injective hkdf_sha256 hkdf_sha384)
    kdf_try-code hkdf_sha512 = ground (
      arith,
      laws.kdf_code_injective hkdf_sha256 hkdf_sha512,
      laws.kdf_code_injective hkdf_sha384 hkdf_sha512,
    )

    pub aead_try-code : (k : AeadId) → aead_try_from_u16 (c.aead_code k) ≡ ok k
    unfolding aead_try_from_u16
    aead_try-code aes_gcm128 = ground arith
    aead_try-code aes_gcm256 = ground (arith, laws.aead_code_injective aes_gcm128 aes_gcm256)
    aead_try-code cha_cha20_poly1305 = ground (
      arith,
      laws.aead_code_injective aes_gcm128 cha_cha20_poly1305,
      laws.aead_code_injective aes_gcm256 cha_cha20_poly1305,
    )
