-- ===== src/OhttpHpke/ClientConfig/Decode.antt =====
-- `KeyConfig::decode` of crates/ohttp-hpke/src/client.rs on what `KeyConfig::put` of
-- crates/ohttp-hpke/src/server.rs writes.
use pvcli.Prelude.{
  ℕ, ◌*◌, ◌/◌, ◌%◌, ◌^◌, ◌≤◌, ◌<◌, ◌≡◌, refl, ap, false, List, [], ◌∷◌, ◌++◌, Bytes, length, le→ltb,
  length-append, append_assoc, drop-length, arith,
}
use pvcli.Octets.{Octets, OctetsLaws}
use pvcli.Poll.{ok}
use pvcli.OhttpHpke.Config.{
  KdfId, AeadId, Crypto, CryptoLaws, kem_try-code, kdf_try-code, aead_try-code,
}
use pvcli.OhttpHpke.Keys.{PublicKey, KeyPair, KeyConfig}
use pvcli.OhttpHpke.Slice.{get}
use pvcli.OhttpHpke.ClientConfig.{decode_algorithms, decode_key_config, is_bad_length}
use pvcli.OhttpHpke.ServerConfig.Wire.{
  IsWritable, algorithms_bytes, key_config_bytes, length-algorithms_bytes,
}

-- What a client sees of a key config.
abbrev pub public_config : KeyConfig KeyPair → KeyConfig PublicKey
public_config config = record {
  key_id = config.key_id;
  key = config.key.public_key;
  symmetric_algorithms = config.symmetric_algorithms;
}

module _ (o : Octets) (laws : OctetsLaws o) (c : Crypto) (claws : CryptoLaws c) where
  open laws use {u8_bytes, u16_bytes}

  get_u8_front :
      (v : ℕ) (rest : Bytes) → v < 2 ^ 8 → get o.get_u8 (u8_bytes v ++ rest) ≡ ok (v, rest)
  get_u8_front v rest lt =
      rw (laws.get_u8_lem v rest lt)
        (ap (λ b. ok (v, b)) (rw (laws.length_u8 v) at (drop-length (u8_bytes v) rest)))

  get_u16_front :
      (v : ℕ) (rest : Bytes) → v < 2 ^ 16 → get o.get_u16 (u16_bytes v ++ rest) ≡ ok (v, rest)
  get_u16_front v rest lt =
      rw (laws.get_u16_lem v rest lt)
        (ap (λ b. ok (v, b)) (rw (laws.length_u16 v) at (drop-length (u16_bytes v) rest)))

  get_bytes_front :
      (n : ℕ) (b rest : Bytes) → length b ≡ n → get (o.get_bytes n) (b ++ rest) ≡ ok (b, rest)
  get_bytes_front n b rest e =
      rw (← e, laws.get_bytes_lem b rest) (ap (λ r. ok (b, r)) (drop-length b rest))

  decode_algorithms_front :
      (algorithms : List (KdfId × AeadId)) (rest : Bytes)
      → decode_algorithms o c
          (length algorithms)
          (algorithms_bytes o laws c claws algorithms ++ rest)
        ≡ ok (algorithms, rest)
  unfolding decode_algorithms
  decode_algorithms_front [] rest = refl
  decode_algorithms_front ((kdf_id, aead_id) ∷ algorithms) rest =
      let later : Bytes = algorithms_bytes o laws c claws algorithms in
      let kdf : Bytes = u16_bytes (c.kdf_code kdf_id) in
      let aead : Bytes = u16_bytes (c.aead_code aead_id) in
      rw
        (
          append_assoc kdf (aead ++ later) rest,
          append_assoc aead later rest,
          get_u16_front (c.kdf_code kdf_id) (aead ++ (later ++ rest)) (claws.kdf_code_u16 kdf_id),
          kdf_try-code c claws kdf_id,
          get_u16_front (c.aead_code aead_id) (later ++ rest) (claws.aead_code_u16 aead_id),
          aead_try-code c claws aead_id,
          decode_algorithms_front algorithms rest,
        )
        refl

  good_length : (n cap : ℕ) → 0 < n → n * 4 ≤ cap → is_bad_length o c (n * 4) cap ≡ false
  good_length n cap pos le =
      let whole : n * 4 % 4 ≡ 0 = omega arith in rw (whole, le→ltb cap (n * 4) le) (ground arith)

  -- A key config that the wire format can hold is read back: its id, its public key and its
  -- algorithms, and what follows is left.
  pub decode_key_config-key_config_bytes :
      (config : KeyConfig KeyPair) (rest : Bytes)
      → IsWritable c config
      → decode_key_config o c (key_config_bytes o laws c claws (λ k. k.public_key) config ++ rest)
        ≡ ok (public_config config, rest)
  unfolding decode_key_config
  decode_key_config-key_config_bytes config rest w =
      let count : ℕ = length config.symmetric_algorithms in
      let later : Bytes = algorithms_bytes o laws c claws config.symmetric_algorithms in
      let id : Bytes = u8_bytes config.key_id in
      let kem : Bytes = u16_bytes (c.kem_code config.key.public_key.kem_id) in
      let bytes : Bytes = config.key.public_key.bytes in
      let len : Bytes = u16_bytes (count * 4) in
      let quarter : count * 4 / 4 ≡ count = omega arith in
      rw
        (
          append_assoc id (kem ++ (bytes ++ (len ++ later))) rest,
          append_assoc kem (bytes ++ (len ++ later)) rest,
          append_assoc bytes (len ++ later) rest,
          append_assoc len later rest,
          get_u8_front config.key_id (kem ++ (bytes ++ (len ++ (later ++ rest)))) w.id_fits,
          get_u16_front (c.kem_code config.key.public_key.kem_id)
              (bytes ++ (len ++ (later ++ rest))) (claws.kem_code_u16 config.key.public_key.kem_id),
          kem_try-code c claws config.key.public_key.kem_id,
          get_bytes_front (c.public_key_size config.key.public_key.kem_id) bytes
              (len ++ (later ++ rest)) w.key_sized,
          get_u16_front (count * 4) (later ++ rest) (omega (arith, w.algorithms_fit)),
          laws.cap_lem (later ++ rest),
          good_length count (length (later ++ rest)) w.some_algorithm (
              omega (
                arith,
                length-append later rest,
                length-algorithms_bytes o laws c claws config.symmetric_algorithms,
              )),
          quarter,
          decode_algorithms_front config.symmetric_algorithms rest,
        )
        refl
