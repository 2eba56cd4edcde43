-- ===== src/Examples/HpkeWitnesses.antt =====
-- A concrete set of algorithms that hide nothing, and the theorems on ohttp-hpke applied to it.
use pvcli.Prelude.{ℕ, ◌<◌, ◌^◌, ◌≡◌, refl, [], ◌∷◌, ◌++◌, some, replicate, arith}
use pvcli.Poll.{ok}
use pvcli.OhttpHpke.Config.{KemId, dh_p256_hkdf_sha256, dh_p384_hkdf_sha384, x25519_hkdf_sha256}
use pvcli.OhttpHpke.Config.{
  KdfId, hkdf_sha256, hkdf_sha384, hkdf_sha512, AeadId, aes_gcm128, aes_gcm256, cha_cha20_poly1305,
}
use pvcli.OhttpHpke.Config.{Crypto, CryptoLaws}
use pvcli.OhttpHpke.Nonce as Nonce
use pvcli.OhttpHpke.Nonce.{ChunkNonce, next, xor_into, incr_bytes}
use pvcli.OhttpHpke.Nonce.Distinct.{Handed, one_more, none_yet, AreDistinct, new-AreDistinct}
use pvcli.OhttpHpke.Aead.{seal_in_place_detached, lifted}
use pvcli.OhttpHpke.Response.{AeadContext, seal_in_place, open_in_place_with}
use pvcli.OhttpHpke.Response.Open.{open_in_place-seal_in_place}

abbrev pub kem_code : KemId → ℕ
kem_code dh_p256_hkdf_sha256 = 0x10
kem_code dh_p384_hkdf_sha384 = 0x11
kem_code x25519_hkdf_sha256 = 0x20

abbrev pub public_key_size : KemId → ℕ
public_key_size dh_p256_hkdf_sha256 = 65
public_key_size dh_p384_hkdf_sha384 = 97
public_key_size x25519_hkdf_sha256 = 32

abbrev pub kdf_code : KdfId → ℕ
kdf_code hkdf_sha256 = 1
kdf_code hkdf_sha384 = 2
kdf_code hkdf_sha512 = 3

abbrev pub aead_code : AeadId → ℕ
aead_code aes_gcm128 = 1
aead_code aes_gcm256 = 2
aead_code cha_cha20_poly1305 = 3

abbrev pub key_size : AeadId → ℕ
key_size aes_gcm128 = 16
key_size aes_gcm256 = 32
key_size cha_cha20_poly1305 = 32

abbrev pub clear : Crypto
clear = record {
  kem_code = kem_code;
  kdf_code = kdf_code;
  aead_code = aead_code;
  public_key_size = public_key_size;
  encapped_key_size = public_key_size;
  key_size = key_size;
  nonce_size = λ a. 12;
  tag_size = λ a. 16;
  expand = λ k salt secret info n. replicate n 0;
  encrypt = λ a key n aad plaintext. some (plaintext, replicate 16 0);
  decrypt = λ a key n aad ciphertext tag. some ciphertext;
}

kem_code_u16 : (k : KemId) → kem_code k < 2 ^ 16
kem_code_u16 dh_p256_hkdf_sha256 = omega arith
kem_code_u16 dh_p384_hkdf_sha384 = omega arith
kem_code_u16 x25519_hkdf_sha256 = omega arith

kdf_code_u16 : (k : KdfId) → kdf_code k < 2 ^ 16
kdf_code_u16 hkdf_sha256 = omega arith
kdf_code_u16 hkdf_sha384 = omega arith
kdf_code_u16 hkdf_sha512 = omega arith

aead_code_u16 : (k : AeadId) → aead_code k < 2 ^ 16
aead_code_u16 aes_gcm128 = omega arith
aead_code_u16 aes_gcm256 = omega arith
aead_code_u16 cha_cha20_poly1305 = omega arith

kem_code-injective : (j k : KemId) → kem_code j ≡ kem_code k → j ≡ k
kem_code-injective dh_p256_hkdf_sha256 dh_p256_hkdf_sha256 e = refl
kem_code-injective dh_p256_hkdf_sha256 dh_p384_hkdf_sha384 e = absurd (omega (arith, e))
kem_code-injective dh_p256_hkdf_sha256 x25519_hkdf_sha256 e = absurd (omega (arith, e))
kem_code-injective dh_p384_hkdf_sha384 dh_p256_hkdf_sha256 e = absurd (omega (arith, e))
kem_code-injective dh_p384_hkdf_sha384 dh_p384_hkdf_sha384 e = refl
kem_code-injective dh_p384_hkdf_sha384 x25519_hkdf_sha256 e = absurd (omega (arith, e))
kem_code-injective x25519_hkdf_sha256 dh_p256_hkdf_sha256 e = absurd (omega (arith, e))
kem_code-injective x25519_hkdf_sha256 dh_p384_hkdf_sha384 e = absurd (omega (arith, e))
kem_code-injective x25519_hkdf_sha256 x25519_hkdf_sha256 e = refl

kdf_code-injective : (j k : KdfId) → kdf_code j ≡ kdf_code k → j ≡ k
kdf_code-injective hkdf_sha256 hkdf_sha256 e = refl
kdf_code-injective hkdf_sha256 hkdf_sha384 e = absurd (omega (arith, e))
kdf_code-injective hkdf_sha256 hkdf_sha512 e = absurd (omega (arith, e))
kdf_code-injective hkdf_sha384 hkdf_sha256 e = absurd (omega (arith, e))
kdf_code-injective hkdf_sha384 hkdf_sha384 e = refl
kdf_code-injective hkdf_sha384 hkdf_sha512 e = absurd (omega (arith, e))
kdf_code-injective hkdf_sha512 hkdf_sha256 e = absurd (omega (arith, e))
kdf_code-injective hkdf_sha512 hkdf_sha384 e = absurd (omega (arith, e))
kdf_code-injective hkdf_sha512 hkdf_sha512 e = refl

aead_code-injective : (j k : AeadId) → aead_code j ≡ aead_code k → j ≡ k
aead_code-injective aes_gcm128 aes_gcm128 e = refl
aead_code-injective aes_gcm128 aes_gcm256 e = absurd (omega (arith, e))
aead_code-injective aes_gcm128 cha_cha20_poly1305 e = absurd (omega (arith, e))
aead_code-injective aes_gcm256 aes_gcm128 e = absurd (omega (arith, e))
aead_code-injective aes_gcm256 aes_gcm256 e = refl
aead_code-injective aes_gcm256 cha_cha20_poly1305 e = absurd (omega (arith, e))
aead_code-injective cha_cha20_poly1305 aes_gcm128 e = absurd (omega (arith, e))
aead_code-injective cha_cha20_poly1305 aes_gcm256 e = absurd (omega (arith, e))
aead_code-injective cha_cha20_poly1305 cha_cha20_poly1305 e = refl

pub clear-CryptoLaws : CryptoLaws clear
clear-CryptoLaws = record {
  kem_code_u16 = kem_code_u16;
  kdf_code_u16 = kdf_code_u16;
  aead_code_u16 = aead_code_u16;
  kem_code_injective = kem_code-injective;
  kdf_code_injective = kdf_code-injective;
  aead_code_injective = aead_code-injective;
  tag_size_pos = λ a. omega arith;
  encrypt_sizes = λ a key n aad plaintext ciphertext tag e. (cc, cc);
  decrypt-encrypt = λ a key n aad plaintext ciphertext tag e. cc;
}

-- A context behind one message, and behind two.
abbrev context : ℕ → AeadContext
context n = record {
  aead_id = aes_gcm128;
  aead_key = replicate 16 3;
  chunk_nonce = record {
    initial = replicate 12 7;
    counter = replicate 11 0 ++ (n ∷ []);
    current = replicate 11 7 ++ (6 ∷ []);
  };
}

context_sealed :
    seal_in_place clear (context 1) (1 ∷ 2 ∷ []) [] ≡ (ok (1 ∷ 2 ∷ [], replicate 16 0), context 2)
unfolding seal_in_place next xor_into incr_bytes seal_in_place_detached lifted
context_sealed = refl

open_in_place-seal_in_place_example :
    open_in_place_with clear (context 1) ((1 ∷ 2 ∷ []) ++ replicate 16 0) []
    ≡ (ok (1 ∷ 2 ∷ []), context 2)
open_in_place-seal_in_place_example =
    open_in_place-seal_in_place clear clear-CryptoLaws (context 1) (context 2) (1 ∷ 2 ∷ []) []
      (1 ∷ 2 ∷ []) (replicate 16 0) context_sealed

abbrev two_given : ChunkNonce
two_given = record { initial = 5 ∷ 255 ∷ []; counter = 0 ∷ 2 ∷ []; current = 5 ∷ 254 ∷ [] }

two_given-Handed :
    Handed (Nonce.new (5 ∷ 255 ∷ [])) ((5 ∷ 255 ∷ []) ∷ (5 ∷ 254 ∷ []) ∷ []) two_given
unfolding Nonce.new next xor_into incr_bytes
two_given-Handed = one_more refl (one_more refl none_yet)

new-AreDistinct_example : AreDistinct ((5 ∷ 255 ∷ []) ∷ (5 ∷ 254 ∷ []) ∷ [])
new-AreDistinct_example =
    new-AreDistinct (5 ∷ 255 ∷ []) ((5 ∷ 255 ∷ []) ∷ (5 ∷ 254 ∷ []) ∷ []) two_given
      (omega arith, (omega arith, tt)) two_given-Handed
