-- ===== src/OhttpHpke/ClientConfig.antt =====
-- The key configs that a client reads and picks from (crates/ohttp-hpke/src/client.rs).
pub mod Flat
pub mod Decode
pub mod Safe
use pvcli.Prelude.{
  ℕ, zero, suc, ◌/◌, ◌%◌, ◌||◌, Bool, true, false, not, List, [], ◌∷◌, ◌++◌, Bytes, length, ltb,
  ◌==◌, is_empty, if◌then◌else◌,
}
use pvcli.Octets.{Octets}
use pvcli.Poll.{Result, ok, err, io, unexpected_eof, invalid_data, panicked, stuck}
use pvcli.Poll.Async.{Async, pure, throw, ◌>>=◌}
use pvcli.StreamBuf.{StreamBuf, read_exact, has_more_data}
use pvcli.StreamBuf.Content.{content}
use pvcli.StreamOctets.{decode_u16}
use pvcli.OhttpHpke.Config.{
  KdfId, AeadId, Crypto, kem_try_from_u16, kdf_try_from_u16, aead_try_from_u16,
}
use pvcli.OhttpHpke.Keys.{PublicKey, KeyConfig}
use pvcli.OhttpHpke.Slice as Slice
use pvcli.OhttpHpke.Slice.{Parse, get, lift, left}

pub record ClientConfig : Type 0 where
  pub key_configs : List (KeyConfig PublicKey)

pub record EncapConfig : Type 0 where
  pub key_id : ℕ
  pub public_key : PublicKey
  pub kdf_id : KdfId
  pub aead_id : AeadId

-- `vec[0]`.
abbrev pub first : {A : Type 0} → List A → Result A
first [] = err panicked
first (x ∷ xs) = ok x

abbrev pub encap_config_of : KeyConfig PublicKey → Result (KdfId × AeadId) → Result EncapConfig
encap_config_of key_config (ok (kdf_id, aead_id)) = ok (record {
  key_id = key_config.key_id;
  public_key = key_config.key;
  kdf_id = kdf_id;
  aead_id = aead_id;
})
encap_config_of key_config (err e) = err e

abbrev pub first_algorithm : Result (KeyConfig PublicKey) → Result EncapConfig
first_algorithm (ok key_config) = encap_config_of key_config (first key_config.symmetric_algorithms)
first_algorithm (err e) = err e

unfoldable pub first_encap_config : ClientConfig → Result EncapConfig
first_encap_config config = first_algorithm (first config.key_configs)

-- `if let Ok(key_config) = … { key_configs.push(key_config) }`.
abbrev pub push_ok :
    List (KeyConfig PublicKey) → Result (KeyConfig PublicKey × Bytes) → List (KeyConfig PublicKey)
push_ok key_configs (ok (key_config, b)) = key_configs ++ (key_config ∷ [])
push_ok key_configs (err e) = key_configs

module _ (o : Octets) (c : Crypto) where
  -- The pairs of algorithm ids, up to the first that is not known.
  unfoldable pub decode_algorithms : ℕ → Parse (List (KdfId × AeadId))
  unfolding kdf_try_from_u16 aead_try_from_u16
  decode_algorithms zero = Slice.pure []
  decode_algorithms (suc n) = Slice.◌>>=◌ (get o.get_u16) λ kdf.
      Slice.◌>>=◌ (lift (kdf_try_from_u16 c kdf)) λ kdf_id. Slice.◌>>=◌ (get o.get_u16) λ aead.
        Slice.◌>>=◌ (lift (aead_try_from_u16 c aead))
          λ aead_id. Slice.◌>>=◌ (decode_algorithms n) λ rest. Slice.pure ((kdf_id, aead_id) ∷ rest)

  -- The guard on the length of the algorithms.
  abbrev pub is_bad_length : ℕ → ℕ → Bool
  is_bad_length symmetric_algorithms_len cap =
      (symmetric_algorithms_len == 0)
      || (not (symmetric_algorithms_len % 4 == 0) || ltb cap symmetric_algorithms_len)

  -- `KeyConfig::decode`. Bytes behind the algorithms are let be.
  unfoldable pub decode_key_config : Parse (KeyConfig PublicKey)
  unfolding kem_try_from_u16 decode_algorithms
  decode_key_config = Slice.◌>>=◌ (get o.get_u8) λ key_id. Slice.◌>>=◌ (get o.get_u16) λ kem.
      Slice.◌>>=◌ (lift (kem_try_from_u16 c kem)) λ kem_id.
        Slice.◌>>=◌ (get (o.get_bytes (c.public_key_size kem_id))) λ bytes.
          Slice.◌>>=◌ (get o.get_u16) λ symmetric_algorithms_len. Slice.◌>>=◌ (left o.cap) λ cap.
            if is_bad_length symmetric_algorithms_len cap
            then Slice.throw (io invalid_data)
            else (Slice.◌>>=◌ (decode_algorithms (symmetric_algorithms_len / 4))
                λ symmetric_algorithms. Slice.pure (record {
                  key_id = key_id;
                  key = record { kem_id = kem_id; bytes = bytes };
                  symmetric_algorithms = symmetric_algorithms;
                }))

  -- The loop of `decode_config`.
  unfoldable pub config_loop :
      ℕ → List (KeyConfig PublicKey) → Async StreamBuf (List (KeyConfig PublicKey))
  unfolding decode_key_config
  config_loop zero key_configs = λ s. stuck
  config_loop (suc fuel) key_configs = do
    more ← has_more_data
    elim more [
      | false ↦ pure key_configs
      | true ↦ (do
        encoded_len ← decode_u16 o
        encoded ← read_exact encoded_len
        config_loop fuel (push_ok key_configs (decode_key_config encoded)))
    ]

  abbrev pub config_of : List (KeyConfig PublicKey) → Async StreamBuf ClientConfig
  config_of key_configs =
      if is_empty key_configs
      then throw (io unexpected_eof)
      else pure (record { key_configs = key_configs })

  -- Every round takes two bytes at least off the content.
  unfoldable pub decode_config : Async StreamBuf ClientConfig
  unfolding config_loop
  decode_config s = (config_loop (suc (length (content s))) [] >>= config_of) s
