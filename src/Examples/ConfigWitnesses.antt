-- ===== src/Examples/ConfigWitnesses.antt =====
-- The theorems on the key configs of crates/ohttp-hpke, applied to concrete ones.
use pvcli.Prelude.{◌≢◌, ◌≡◌, refl, List, [], ◌∷◌, ◌++◌, Bytes, replicate, arith}
use pvcli.Poll.{ok, done, stuck}
use pvcli.StreamBuf.{StreamBuf, item, not_ready}
use pvcli.StreamBuf.Refine.{Represents}
use pvcli.OhttpHpke.Config.{
  x25519_hkdf_sha256, hkdf_sha256, hkdf_sha384, aes_gcm128, cha_cha20_poly1305, KdfId, AeadId,
}
use pvcli.OhttpHpke.Keys.{KeyPair, KeyConfig}
use pvcli.OhttpHpke.ClientConfig.{ClientConfig, EncapConfig, decode_config, first_encap_config}
use pvcli.OhttpHpke.ClientConfig.Decode.{public_config}
use pvcli.OhttpHpke.ClientConfig.Safe.{first_encap_config-decode_config}
use pvcli.OhttpHpke.ServerConfig.{
  ServerConfig, default, add_key_config, encode_config, key_config_len, assert,
}
use pvcli.OhttpHpke.ServerConfig.Wire.{IsWritable}
use pvcli.OhttpHpke.ServerConfig.Valid.{IsValid, add_key_config-IsValid}
use pvcli.OhttpHpke.ConfigRoundTrip.{decode_config-encode_config}
use pvcli.Examples.Integers.{rfc9000, rfc9000-OctetsLaws}
use pvcli.Examples.HpkeWitnesses.{clear, clear-CryptoLaws}

abbrev pub key_pair : KeyPair
key_pair = record {
  public_key = record { kem_id = x25519_hkdf_sha256; bytes = replicate 32 4 };
  private_key = replicate 32 5;
}

abbrev pub algorithms : List (KdfId × AeadId)
algorithms = (hkdf_sha256, aes_gcm128) ∷ (hkdf_sha384, cha_cha20_poly1305) ∷ []

abbrev pub key_config : KeyConfig KeyPair
key_config = record { key_id = 0; key = key_pair; symmetric_algorithms = algorithms }

abbrev pub server_config : ServerConfig
server_config = record { key_configs = key_config ∷ [] }

no_configs-IsValid : IsValid clear default
no_configs-IsValid = record { writable = tt; numbered = tt }

added : add_key_config default key_pair algorithms ≡ ok server_config
unfolding add_key_config key_config_len assert
added = refl

add_key_config-IsValid_example : IsValid clear server_config
add_key_config-IsValid_example =
    add_key_config-IsValid clear default server_config key_pair algorithms no_configs-IsValid refl
      added

pub key_config-IsWritable : IsWritable clear key_config
unfolding key_config_len
key_config-IsWritable = record {
  id_fits = omega arith;
  some_algorithm = omega arith;
  algorithms_fit = omega arith;
  fits = omega arith;
  key_sized = refl;
}

decode_config-encode_config_example :
    (bs : Bytes) × (encode_config rfc9000 clear server_config ≡ ok bs)
    × ((s : StreamBuf)
        → Represents s bs
        → (s' : StreamBuf) × (decode_config rfc9000 clear s
            ≡ done (record { key_configs = public_config key_config ∷ [] }) s')
          × Represents s' [])
decode_config-encode_config_example =
    decode_config-encode_config rfc9000 rfc9000-OctetsLaws clear clear-CryptoLaws key_config []
      (key_config-IsWritable, tt)

-- A key config with an unknown KEM, which is skipped, and then `key_config`.
abbrev config_wire : Bytes
config_wire =
    (9 ∷ 0 ∷ 45 ∷ 0 ∷ 0 ∷ 32 ∷ [])
    ++ (replicate 32 4 ++ (0 ∷ 8 ∷ 0 ∷ 1 ∷ 0 ∷ 1 ∷ 0 ∷ 2 ∷ 0 ∷ 3 ∷ []))

abbrev config_buf : StreamBuf
config_buf = record {
  max_buf_size = 100;
  buf = [];
  stream = item (0 ∷ 3 ∷ 1 ∷ 9 ∷ []) ∷ not_ready ∷ item config_wire ∷ [];
}

first_encap_config-decode_config_example :
    ((s' : StreamBuf) (config : ClientConfig)
      → decode_config rfc9000 clear config_buf ≡ done config s'
      → (e : EncapConfig) × (first_encap_config config ≡ ok e))
    × ((bs : Bytes) → Represents config_buf bs → decode_config rfc9000 clear config_buf ≢ stuck)
first_encap_config-decode_config_example =
    first_encap_config-decode_config rfc9000 clear rfc9000-OctetsLaws config_buf
