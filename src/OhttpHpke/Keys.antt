-- ===== src/OhttpHpke/Keys.antt =====
-- crates/ohttp-hpke/src/keys.rs and `KeyConfig` of crates/ohttp-hpke/src/config.rs. A byte string
-- stands for a key; the crate `hpke` makes the keys and is a parameter.
use pvcli.Prelude.{ℕ, List, Bytes}
use pvcli.Poll.{Result, ok, err}
use pvcli.OhttpHpke.Config.{KemId, KdfId, AeadId}

pub record PublicKey : Type 0 where
  pub kem_id : KemId
  pub bytes : Bytes

pub record KeyPair : Type 0 where
  pub public_key : PublicKey
  pub private_key : Bytes

pub record KeyConfig (K : Type 0) : Type 0 where
  pub key_id : ℕ
  pub key : K
  pub symmetric_algorithms : List (KdfId × AeadId)

-- `Kem::derive_keypair` and `Kem::sk_to_pk` behind `from_bytes`, by algorithm.
pub record KeyMaker : Type 0 where
  pub derive_keypair : KemId → (ikm : Bytes) → Bytes × Bytes
  pub sk_to_pk : KemId → (private_key : Bytes) → Result Bytes

module _ (k : KeyMaker) where
  unfoldable pub derive_key_pair : KemId → Bytes → KeyPair
  derive_key_pair kem_id ikm =
      let (private_key, public_key_bytes) = k.derive_keypair kem_id ikm in
      record {
        public_key = record { kem_id = kem_id; bytes = public_key_bytes };
        private_key = private_key;
      }

  abbrev pub pair_of : KemId → Bytes → Result Bytes → Result KeyPair
  pair_of kem_id secret (ok public_key_bytes) = ok (record {
    public_key = record { kem_id = kem_id; bytes = public_key_bytes };
    private_key = secret;
  })
  pair_of kem_id secret (err e) = err e

  unfoldable pub key_pair_from_secret : KemId → Bytes → Result KeyPair
  key_pair_from_secret kem_id secret = pair_of kem_id secret (k.sk_to_pk kem_id secret)
