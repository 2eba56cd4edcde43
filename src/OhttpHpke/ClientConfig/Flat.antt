-- ===== src/OhttpHpke/ClientConfig/Flat.antt =====
-- The specification of `decode_config` of crates/ohttp-hpke/src/client.rs: the same on the flat byte
-- string, that the code implements it, and that it ends.
use pvcli.Prelude.{
  ℕ, zero, suc, ◌≢◌, refl, Bool, true, false, List, [], ◌∷◌, Bytes, length, is_empty, if◌then◌else◌,
  arith,
}
use pvcli.Octets.{Octets, OctetsLaws}
use pvcli.Poll.{io, unexpected_eof, stuck}
use pvcli.Poll.Async as Async
use pvcli.StreamBuf.{StreamBuf}
use pvcli.StreamBuf.Awaited.{has_more_data-Implements, read_exact-Implements}
use pvcli.StreamBuf.Flat.{Flat, Reply, pure, throw, ◌>>=◌, read_exact, has_more_data}
use pvcli.StreamBuf.Flat as FlatBuf
use pvcli.StreamBuf.Refine.{
  Represents, Implements, >>=-Implements, pure-Implements, throw-Implements,
}
use pvcli.StreamOctets.Flat.{with_octets}
use pvcli.StreamOctets.Refine.{decode_u16-Implements}
use pvcli.HyperBinary.Decoder.Refine.{fuel-Implements}
use pvcli.HyperBinary.Decoder.Total.{not_stuck}
use pvcli.HyperBinary.Decoder.Ends.{
  Left, and_then-Left, EndsUnder, >>=-EndsUnder, >>=-suc, with_octets-Takes, has_more_data-Ends,
  read_exact-Ends, either_step,
}
use pvcli.OhttpHpke.Config.{Crypto}
use pvcli.OhttpHpke.Keys.{PublicKey, KeyConfig}
use pvcli.OhttpHpke.ClientConfig as Client
use pvcli.OhttpHpke.ClientConfig.{ClientConfig, push_ok, decode_key_config}

module _ (o : Octets) (c : Crypto) where
  unfoldable pub config_loop : ℕ → List (KeyConfig PublicKey) → Flat (List (KeyConfig PublicKey))
  config_loop zero key_configs = λ bs. FlatBuf.stuck
  config_loop (suc fuel) key_configs = do
    more ← has_more_data
    elim more [
      | false ↦ pure key_configs
      | true ↦ (do
        encoded_len ← with_octets o.get_u16
        encoded ← read_exact encoded_len
        config_loop fuel (push_ok key_configs (decode_key_config o c encoded)))
    ]

  abbrev pub config_of : List (KeyConfig PublicKey) → Flat ClientConfig
  config_of key_configs =
      if is_empty key_configs
      then throw (io unexpected_eof)
      else pure (record { key_configs = key_configs })

  unfoldable pub decode_config : Flat ClientConfig
  unfolding config_loop
  decode_config bs = (config_loop (suc (length bs)) [] >>= config_of) bs

  module _ (laws : OctetsLaws o) where
    either-Implements :
        {A : Type 0} (b : Bool) (f g : Async.Async StreamBuf A) (f' g' : Flat A)
        → Implements f f'
        → Implements g g'
        → Implements (elim b [ false ↦ f | true ↦ g ]) (elim b [ false ↦ f' | true ↦ g' ])
    either-Implements true f g f' g' h k = k
    either-Implements false f g f' g' h k = h

    loop-Implements :
        (fuel : ℕ) (key_configs : List (KeyConfig PublicKey))
        → Implements (Client.config_loop o c fuel key_configs) (config_loop fuel key_configs)
    unfolding Client.config_loop config_loop
    loop-Implements zero key_configs = λ s bs r. refl
    loop-Implements (suc fuel) key_configs = >>=-Implements _ _ _ _ has_more_data-Implements λ more.
        either-Implements more _ _ _ _ (pure-Implements key_configs) (
          >>=-Implements _ _ _ _ (decode_u16-Implements o laws) λ encoded_len.
            >>=-Implements _ _ _ _ (read_exact-Implements encoded_len)
              λ encoded. loop-Implements fuel (push_ok key_configs (decode_key_config o c encoded)))

    config_of-Implements :
        (key_configs : List (KeyConfig PublicKey))
        → Implements (Client.config_of o c key_configs) (config_of key_configs)
    config_of-Implements [] = throw-Implements (io unexpected_eof)
    config_of-Implements (k ∷ ks) = pure-Implements (record { key_configs = k ∷ ks })

    pub decode_config-Implements : Implements (Client.decode_config o c) decode_config
    unfolding Client.decode_config decode_config
    decode_config-Implements =
        fuel-Implements _ _ λ n. >>=-Implements _ _ _ _ (loop-Implements n []) config_of-Implements

    loop-EndsUnder :
        (fuel : ℕ) (key_configs : List (KeyConfig PublicKey))
        → EndsUnder fuel (config_loop fuel key_configs)
    unfolding config_loop
    loop-EndsUnder zero key_configs = λ bs lt. absurd (omega arith)
    loop-EndsUnder (suc fuel) key_configs =
        >>=-EndsUnder (suc fuel) has_more_data _ has_more_data-Ends λ more.
          either_step (suc fuel) more _ _ (λ bs lt. omega arith)
            (>>=-suc fuel (with_octets o.get_u16) _ (with_octets-Takes o.get_u16 laws.u16_reader)
              λ encoded_len.
                >>=-EndsUnder fuel (read_exact encoded_len) _ (read_exact-Ends encoded_len)
                  λ encoded.
                    loop-EndsUnder fuel (push_ok key_configs (decode_key_config o c encoded)))

    config_of-EndsUnder :
        (n : ℕ) (key_configs : List (KeyConfig PublicKey)) → EndsUnder n (config_of key_configs)
    config_of-EndsUnder n [] = λ bs lt. tt
    config_of-EndsUnder n (k ∷ ks) = λ bs lt. omega arith

    flat-Left : (bs : Bytes) → Left (length bs) (decode_config bs)
    unfolding decode_config
    flat-Left bs =
        and_then-Left (length bs) (suc (length bs)) (config_loop (suc (length bs)) [] bs) config_of
          (omega arith) (loop-EndsUnder (suc (length bs)) [] bs (omega arith))
          (config_of-EndsUnder (suc (length bs)))

    pub decode_config-not_stuck :
        (s : StreamBuf) (bs : Bytes) → Represents s bs → Client.decode_config o c s ≢ stuck
    decode_config-not_stuck s bs rep =
        not_stuck (length bs) _ _ (flat-Left bs) (decode_config-Implements s bs rep)
