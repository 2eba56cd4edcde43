-- ===== src/OhttpHpke/ServerConfig/Wire.antt =====
-- The bytes of the key configs (RFC 9458, section 3), and that `encode_config` of
-- crates/ohttp-hpke/src/server.rs writes them.
use pvcli.Prelude.{
  ℕ, ◌+◌, ◌*◌, ◌%◌, ◌^◌, ◌≤◌, ◌<◌, ◌≡◌, refl, sym, ap, List, [], ◌∷◌, ◌++◌, All, Bytes, length,
  length-append, append_assoc, append-nil, arith, some,
}
use pvcli.Octets.{Octets, OctetsLaws}
use pvcli.Octets.Write.{Writes, >>=-Writes, put_u8-Writes, put_u16-Writes, put_bytes-Writes}
use pvcli.Poll.{ok}
use pvcli.HyperBinary.Encoder.Initial.{vec_of-Writes}
use pvcli.OhttpHpke.Config.{KdfId, AeadId, Crypto, CryptoLaws}
use pvcli.OhttpHpke.Keys.{PublicKey, KeyPair, KeyConfig}
use pvcli.OhttpHpke.ServerConfig.{
  ServerConfig, max_u16, key_config_len, encoded_len, put_algorithms, put_key_config, put,
  encode_config,
}

-- A key config that the wire format can hold, with a public key of the size of its algorithm.
pub record IsWritable (c : Crypto) (config : KeyConfig KeyPair) : Type 0 where
  pub id_fits : config.key_id < 2 ^ 8
  pub some_algorithm : 0 < length config.symmetric_algorithms
  pub algorithms_fit : length config.symmetric_algorithms * 4 ≤ max_u16
  pub fits : key_config_len config + 2 ≤ max_u16
  pub key_sized :
      length config.key.public_key.bytes ≡ c.public_key_size config.key.public_key.kem_id

module _ (o : Octets) (laws : OctetsLaws o) (c : Crypto) (claws : CryptoLaws c) where
  open laws use {u8_bytes, u16_bytes}

  abbrev pub algorithms_bytes : List (KdfId × AeadId) → Bytes
  algorithms_bytes [] = []
  algorithms_bytes ((kdf_id, aead_id) ∷ rest) =
      u16_bytes (c.kdf_code kdf_id) ++ (u16_bytes (c.aead_code aead_id) ++ algorithms_bytes rest)

  abbrev pub key_config_bytes : {K : Type 0} → (K → PublicKey) → KeyConfig K → Bytes
  key_config_bytes public_key config =
      u8_bytes config.key_id
      ++ (u16_bytes (c.kem_code (public_key config.key).kem_id)
          ++ ((public_key config.key).bytes
              ++ (u16_bytes (length config.symmetric_algorithms * 4)
                  ++ algorithms_bytes config.symmetric_algorithms)))

  -- Each with its length in front.
  abbrev pub configs_bytes : List (KeyConfig KeyPair) → Bytes
  configs_bytes [] = []
  configs_bytes (config ∷ rest) =
      u16_bytes (key_config_len config)
      ++ (key_config_bytes (λ k. k.public_key) config ++ configs_bytes rest)

  pub length-algorithms_bytes :
      (algorithms : List (KdfId × AeadId))
      → length (algorithms_bytes algorithms) ≡ length algorithms * 4
  length-algorithms_bytes [] = refl
  length-algorithms_bytes ((kdf_id, aead_id) ∷ rest) = omega (
    arith,
    length-append (u16_bytes (c.kdf_code kdf_id))
        (u16_bytes (c.aead_code aead_id) ++ algorithms_bytes rest),
    length-append (u16_bytes (c.aead_code aead_id)) (algorithms_bytes rest),
    laws.length_u16 (c.kdf_code kdf_id),
    laws.length_u16 (c.aead_code aead_id),
    length-algorithms_bytes rest,
  )

  pub length-key_config_bytes :
      (config : KeyConfig KeyPair)
      → length (key_config_bytes (λ k. k.public_key) config) ≡ key_config_len config
  unfolding key_config_len
  length-key_config_bytes config =
      let n : ℕ = length config.symmetric_algorithms * 4 in
      let tail : Bytes = algorithms_bytes config.symmetric_algorithms in
      let bytes : Bytes = config.key.public_key.bytes in
      let kem : Bytes = u16_bytes (c.kem_code config.key.public_key.kem_id) in
      omega (
        arith,
        length-append (u8_bytes config.key_id) (kem ++ (bytes ++ (u16_bytes n ++ tail))),
        length-append kem (bytes ++ (u16_bytes n ++ tail)),
        length-append bytes (u16_bytes n ++ tail),
        length-append (u16_bytes n) tail,
        laws.length_u8 config.key_id,
        laws.length_u16 (c.kem_code config.key.public_key.kem_id),
        laws.length_u16 n,
        length-algorithms_bytes config.symmetric_algorithms,
      )

  pub length-configs_bytes :
      (configs : List (KeyConfig KeyPair)) → length (configs_bytes configs) ≡ encoded_len configs
  unfolding encoded_len
  length-configs_bytes [] = refl
  length-configs_bytes (config ∷ rest) = omega (
    arith,
    length-append (u16_bytes (key_config_len config))
        (key_config_bytes (λ k. k.public_key) config ++ configs_bytes rest),
    length-append (key_config_bytes (λ k. k.public_key) config) (configs_bytes rest),
    laws.length_u16 (key_config_len config),
    length-key_config_bytes config,
    length-configs_bytes rest,
  )

  nothing-Writes : Writes some []
  nothing-Writes m room = ap (λ w. some (record m { written = w })) (sym (append-nil m.written))

  put_algorithms-Writes :
      (algorithms : List (KdfId × AeadId))
      → Writes (put_algorithms o c algorithms) (algorithms_bytes algorithms)
  unfolding put_algorithms
  put_algorithms-Writes [] = nothing-Writes
  put_algorithms-Writes ((kdf_id, aead_id) ∷ rest) = simp append_assoc at (
      >>=-Writes _ _ _ _
        (>>=-Writes _ _ _ _ (put_u16-Writes o laws (c.kdf_code kdf_id) (claws.kdf_code_u16 kdf_id))
          (put_u16-Writes o laws (c.aead_code aead_id) (claws.aead_code_u16 aead_id)))
        (put_algorithms-Writes rest))

  put_key_config-Writes :
      (config : KeyConfig KeyPair)
      → IsWritable c config
      → Writes (put_key_config o c config) (key_config_bytes (λ k. k.public_key) config)
  unfolding put_key_config
  put_key_config-Writes config w =
      let same : length config.symmetric_algorithms % 2 ^ 16 * 4 % 2 ^ 16
          ≡ length config.symmetric_algorithms * 4 =
        omega (arith, w.algorithms_fit) in
      let kem : ℕ = c.kem_code config.key.public_key.kem_id in
      rw same (
        simp append_assoc at (
          >>=-Writes _ _ _ _
            (>>=-Writes _ _ _ _
              (>>=-Writes _ _ _ _
                (>>=-Writes _ _ _ _ (put_u8-Writes o laws config.key_id w.id_fits)
                  (put_u16-Writes o laws kem (claws.kem_code_u16 config.key.public_key.kem_id)))
                (put_bytes-Writes o laws config.key.public_key.bytes))
              (put_u16-Writes o laws (length config.symmetric_algorithms * 4)
                (omega (arith, w.algorithms_fit))))
            (put_algorithms-Writes config.symmetric_algorithms)))

  put-Writes :
      (configs : List (KeyConfig KeyPair))
      → All (IsWritable c) configs
      → Writes (put o c configs) (configs_bytes configs)
  unfolding put
  put-Writes [] all = nothing-Writes
  put-Writes (config ∷ rest) (w, all) =
      let same : key_config_len config % 2 ^ 16 ≡ key_config_len config = omega (arith, w.fits) in
      let lined =
        append_assoc (u16_bytes (key_config_len config))
          (key_config_bytes (λ k. k.public_key) config) (configs_bytes rest) in
      rw same (
        rw lined at (
          >>=-Writes _ _ _ _
            (>>=-Writes _ _ _ _
              (put_u16-Writes o laws (key_config_len config) (omega (arith, w.fits)))
              (put_key_config-Writes config w))
            (put-Writes rest all)))

  -- For key configs that the wire format can hold, `encode_config` does not panic and gives their
  -- bytes, each with its length in front, with no byte left over.
  pub encode_config-configs_bytes :
      (config : ServerConfig)
      → All (IsWritable c) config.key_configs
      → encode_config o c config ≡ ok (configs_bytes config.key_configs)
  unfolding encode_config encoded_len
  encode_config-configs_bytes config all =
      vec_of-Writes _ _ _ (put-Writes config.key_configs all)
        (omega (arith, length-configs_bytes config.key_configs))
