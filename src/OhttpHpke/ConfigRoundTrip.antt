-- ===== src/OhttpHpke/ConfigRoundTrip.antt =====
-- What `encode_config` of crates/ohttp-hpke/src/server.rs writes, `decode_config` of
-- crates/ohttp-hpke/src/client.rs reads.
use pvcli.Prelude.{
  ℕ, zero, suc, ◌<◌, ◌≡◌, refl, sym, ap, List, [], ◌∷◌, ◌++◌, map, All, Bytes, length,
  length-append, append_assoc, append-nil, arith,
}
use pvcli.Octets.{Octets, OctetsLaws}
use pvcli.Poll.{ok, done}
use pvcli.StreamBuf.{StreamBuf}
use pvcli.StreamBuf.Flat.{got, has_more_data}
use pvcli.StreamBuf.Refine.{Represents, ended_got}
use pvcli.HyperBinary.RoundTrip.Reads.{exact_front}
use pvcli.HyperBinary.RoundTrip.Flat.Section.{has_more_front}
use pvcli.OhttpHpke.Config.{Crypto, CryptoLaws}
use pvcli.OhttpHpke.Keys.{PublicKey, KeyPair, KeyConfig}
use pvcli.OhttpHpke.Header.RoundTrip.{u16_front}
use pvcli.OhttpHpke.ClientConfig.{decode_config}
use pvcli.OhttpHpke.ClientConfig.Flat as FlatConfig
use pvcli.OhttpHpke.ClientConfig.Flat.{config_loop, decode_config-Implements}
use pvcli.OhttpHpke.ClientConfig.Decode.{public_config, decode_key_config-key_config_bytes}
use pvcli.OhttpHpke.ServerConfig.{key_config_len, encode_config}
use pvcli.OhttpHpke.ServerConfig.Wire.{
  IsWritable, key_config_bytes, configs_bytes, length-key_config_bytes, encode_config-configs_bytes,
}

module _ (o : Octets) (laws : OctetsLaws o) (c : Crypto) (claws : CryptoLaws c) where
  open laws use {u16_bytes}

  loop_front :
      (fuel : ℕ) (configs : List (KeyConfig KeyPair)) (before : List (KeyConfig PublicKey))
      → length (configs_bytes o laws c claws configs) < fuel
      → All (IsWritable c) configs
      → config_loop o c fuel before (configs_bytes o laws c claws configs)
        ≡ got (before ++ map public_config configs) []
  unfolding config_loop has_more_data
  loop_front zero configs before lt all = absurd (omega arith)
  loop_front (suc fuel) [] before lt all = ap (λ l. got l []) (sym (append-nil before))
  loop_front (suc fuel) (config ∷ rest) before lt (w, all) =
      let len : Bytes = u16_bytes (key_config_len config) in
      let bytes : Bytes = key_config_bytes o laws c claws (λ k. k.public_key) config in
      let later : Bytes = configs_bytes o laws c claws rest in
      let sized = length-key_config_bytes o laws c claws config in
      let total = length-append len (bytes ++ later) in
      let two = laws.length_u16 (key_config_len config) in
      let split = length-append bytes later in
      let read : _ = decode_key_config-key_config_bytes o laws c claws config [] w in
      rw
        (
          has_more_front (len ++ (bytes ++ later)) (omega (arith, total, two)),
          u16_front o laws c claws (key_config_len config) (bytes ++ later) (omega (arith, w.fits)),
          ← sized,
          exact_front bytes later,
          rw (append-nil bytes) at read,
          loop_front fuel rest (before ++ (public_config config ∷ []))
              (omega (arith, total, two, split, lt)) all,
          append_assoc before (public_config config ∷ []) (map public_config rest),
        )
        refl

  flat_front :
      (config : KeyConfig KeyPair) (rest : List (KeyConfig KeyPair))
      → All (IsWritable c) (config ∷ rest)
      → FlatConfig.decode_config o c (configs_bytes o laws c claws (config ∷ rest))
        ≡ got (record { key_configs = map public_config (config ∷ rest) }) []
  unfolding FlatConfig.decode_config
  flat_front config rest all =
      let wire : Bytes = configs_bytes o laws c claws (config ∷ rest) in
      rw (loop_front (suc (length wire)) (config ∷ rest) [] (omega arith) all) refl

  -- A server's key configs, at least one and each of a form that the wire format can hold, are
  -- encoded without a panic; and a client that reads those bytes, cut into chunks in any way, gets
  -- the public part of each, in order, with nothing left over.
  pub decode_config-encode_config :
      (config : KeyConfig KeyPair) (rest : List (KeyConfig KeyPair))
      → All (IsWritable c) (config ∷ rest)
      → (bs : Bytes) × (encode_config o c (record { key_configs = config ∷ rest }) ≡ ok bs)
        × ((s : StreamBuf)
            → Represents s bs
            → (s' : StreamBuf) × (decode_config o c s
                ≡ done (record { key_configs = map public_config (config ∷ rest) }) s')
              × Represents s' [])
  decode_config-encode_config config rest all = (
    configs_bytes o laws c claws (config ∷ rest),
    encode_config-configs_bytes o laws c claws (record { key_configs = config ∷ rest }) all,
    λ s rep.
        ended_got _ [] _
          (rw (flat_front config rest all) at (decode_config-Implements o c laws s _ rep)),
  )
