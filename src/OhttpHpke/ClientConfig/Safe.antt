-- ===== src/OhttpHpke/ClientConfig/Safe.antt =====
-- The configs that `decode_config` of crates/ohttp-hpke/src/client.rs lets through are usable:
-- `first_encap_config` finds a key config in them, and algorithms in that.
use pvcli.Prelude.{
  ℕ, zero, suc, ◌/◌, ◌<◌, ◌≡◌, ◌≢◌, refl, Bool, true, false, List, [], ◌∷◌, All, Bytes, length,
  if◌then◌else◌, arith,
}
use mathlib.Core.Path.{subst}
use pvcli.Octets.{Octets, OctetsLaws}
use pvcli.StreamBuf.Refine.{Represents}
use pvcli.OhttpHpke.ClientConfig.Flat.{decode_config-not_stuck}
use pvcli.Poll.{Result, ok, err, Outcome, done, failed, stuck}
use pvcli.Poll.Async.{Async}
use pvcli.StreamBuf.{StreamBuf, has_more_data, read_exact}
use pvcli.StreamBuf.Content.{content}
use pvcli.StreamOctets.{decode_u16}
use pvcli.OhttpHpke.Config.{
  KdfId, AeadId, Crypto, kem_try_from_u16, kdf_try_from_u16, aead_try_from_u16,
}
use pvcli.OhttpHpke.Keys.{PublicKey, KeyConfig}
use pvcli.OhttpHpke.Slice.{Parse, and_then, get, lift}
use pvcli.OhttpHpke.ClientConfig.{
  ClientConfig, EncapConfig, push_ok, is_bad_length, decode_algorithms, decode_key_config,
  config_loop, config_of, decode_config, first_encap_config,
}

-- `P` holds of what a parser, or a future, gives if it gives a value.
abbrev Gives : {A : Type 0} → (A → Type 0) → Result (A × Bytes) → Type 0
Gives P (ok (a, b)) = P a
Gives P (err e) = Unit {0}

abbrev Yields : {A : Type 0} → (A → Type 0) → Outcome StreamBuf A → Type 0
Yields P (done a s) = P a
Yields P (failed e s) = Unit {0}
Yields P stuck = Unit {0}

and_then-Gives :
    {A B : Type 0} (P : A → Type 0) (Q : B → Type 0) (r : Result (A × Bytes)) (f : A → Parse B)
    → Gives P r
    → ((a : A) (b : Bytes) → P a → Gives Q (f a b))
    → Gives Q (and_then f r)
and_then-Gives P Q (ok (a, b)) f h k = k a b h
and_then-Gives P Q (err e) f h k = tt

-- Nothing is known of the first result.
after-Gives :
    {A B : Type 0} (Q : B → Type 0) (r : Result (A × Bytes)) (f : A → Parse B)
    → ((a : A) (b : Bytes) → Gives Q (f a b))
    → Gives Q (and_then f r)
after-Gives Q (ok (a, b)) f k = k a b
after-Gives Q (err e) f k = tt

bind-Yields :
    {A B : Type 0} (P : A → Type 0) (Q : B → Type 0) (q : Outcome StreamBuf A)
    (f : A → Async StreamBuf B)
    → Yields P q
    → ((a : A) (s : StreamBuf) → P a → Yields Q (f a s))
    → Yields Q (elim q [ done a s ↦ f a s | failed e s ↦ failed e s | stuck ↦ stuck ])
bind-Yields P Q (done a s) f h k = k a s h
bind-Yields P Q (failed e s) f h k = tt
bind-Yields P Q stuck f h k = tt

behind-Yields :
    {A B : Type 0} (Q : B → Type 0) (q : Outcome StreamBuf A) (f : A → Async StreamBuf B)
    → ((a : A) (s : StreamBuf) → Yields Q (f a s))
    → Yields Q (elim q [ done a s ↦ f a s | failed e s ↦ failed e s | stuck ↦ stuck ])
behind-Yields Q (done a s) f k = k a s
behind-Yields Q (failed e s) f k = tt
behind-Yields Q stuck f k = tt

either-Yields :
    {A : Type 0} (Q : A → Type 0) (b : Bool) (f g : Async StreamBuf A) (s : StreamBuf)
    → Yields Q (f s)
    → Yields Q (g s)
    → let m : Async StreamBuf A = elim b [ false ↦ f | true ↦ g ] in Yields Q (m s)
either-Yields Q true f g s h k = k
either-Yields Q false f g s h k = h

-- A key config with an algorithm to use.
abbrev IsUsable : KeyConfig PublicKey → Type 0
IsUsable config = 0 < length config.symmetric_algorithms

pushed-IsUsable :
    (configs : List (KeyConfig PublicKey)) (r : Result (KeyConfig PublicKey × Bytes))
    → All IsUsable configs
    → Gives IsUsable r
    → All IsUsable (push_ok configs r)
pushed-IsUsable [] (ok (config, b)) all h = (h, tt)
pushed-IsUsable (k ∷ ks) (ok (config, b)) (h', all) h =
    (h', pushed-IsUsable ks (ok (config, b)) all h)
pushed-IsUsable configs (err e) all h = all

module _ (o : Octets) (c : Crypto) where
  decode_algorithms-Gives :
      (n : ℕ) (b : Bytes) → Gives (λ xs. length xs ≡ n) (decode_algorithms o c n b)
  unfolding decode_algorithms
  decode_algorithms-Gives zero b = refl
  decode_algorithms-Gives (suc n) b = after-Gives _ (get o.get_u16 b) _ λ kdf b1.
      after-Gives _ (lift (kdf_try_from_u16 c kdf) b1) _ λ kdf_id b2.
        after-Gives _ (get o.get_u16 b2) _ λ aead b3.
          after-Gives _ (lift (aead_try_from_u16 c aead) b3) _ λ aead_id b4.
            and_then-Gives (λ xs. length xs ≡ n) _ (decode_algorithms o c n b4) _
              (decode_algorithms-Gives n b4) (λ xs b5 e. omega (arith, e))

  some_pair : (n cap : ℕ) → is_bad_length o c n cap ≡ false → 0 < n / 4
  some_pair n cap e = ground arith

  guarded-Gives :
      (n cap : ℕ) (bad : Bool) (f g : Parse (KeyConfig PublicKey)) (b : Bytes)
      → is_bad_length o c n cap ≡ bad
      → Gives IsUsable (f b)
      → (0 < n / 4 → Gives IsUsable (g b))
      → Gives IsUsable ((if bad then f else g) b)
  guarded-Gives n cap true f g b e h k = h
  guarded-Gives n cap false f g b e h k = k (some_pair n cap e)

  decode_key_config-Gives : (b : Bytes) → Gives IsUsable (decode_key_config o c b)
  unfolding decode_key_config
  decode_key_config-Gives b = after-Gives _ (get o.get_u8 b) _ λ key_id b1.
      after-Gives _ (get o.get_u16 b1) _ λ kem b2.
        after-Gives _ (lift (kem_try_from_u16 c kem) b2) _ λ kem_id b3.
          after-Gives _ (get (o.get_bytes (c.public_key_size kem_id)) b3) _ λ bytes b4.
            after-Gives _ (get o.get_u16 b4) _ λ n b5.
              guarded-Gives n (o.cap b5) _ _ _ b5 refl tt λ pos.
                and_then-Gives (λ xs. length xs ≡ n / 4) _ (decode_algorithms o c (n / 4) b5) _
                  (decode_algorithms-Gives (n / 4) b5) (λ xs b6 e. omega (arith, e, pos))

  loop-Yields :
      (fuel : ℕ) (configs : List (KeyConfig PublicKey)) (s : StreamBuf)
      → All IsUsable configs
      → Yields (All IsUsable) (config_loop o c fuel configs s)
  unfolding config_loop
  loop-Yields zero configs s all = tt
  loop-Yields (suc fuel) configs s all = behind-Yields (All IsUsable) (has_more_data s) _ λ more s1.
      either-Yields (All IsUsable) more _ _ s1 all (
        behind-Yields (All IsUsable) (decode_u16 o s1) _ λ encoded_len s2.
          behind-Yields (All IsUsable) (read_exact encoded_len s2) _ λ encoded s3.
            loop-Yields fuel (push_ok configs (decode_key_config o c encoded)) s3
              (pushed-IsUsable configs _ all (decode_key_config-Gives encoded)))

  -- The key configs are usable, and there is one.
  abbrev IsPickable : ClientConfig → Type 0
  IsPickable config = (e : EncapConfig) × (first_encap_config config ≡ ok e)

  picked :
      (k : KeyConfig PublicKey) (algorithms : List (KdfId × AeadId))
      (ks : List (KeyConfig PublicKey))
      → 0 < length algorithms
      → IsPickable (record { key_configs = record k { symmetric_algorithms = algorithms } ∷ ks })
  unfolding first_encap_config
  picked k [] ks pos = absurd (omega arith)
  picked k (a ∷ more) ks pos = (_, refl)

  config_of-Yields :
      (configs : List (KeyConfig PublicKey)) (s : StreamBuf)
      → All IsUsable configs
      → Yields IsPickable (config_of o c configs s)
  config_of-Yields [] s all = tt
  config_of-Yields (k ∷ ks) s (h, all) = picked k k.symmetric_algorithms ks h

  decode_config-Yields : (s : StreamBuf) → Yields IsPickable (decode_config o c s)
  unfolding decode_config
  decode_config-Yields s =
      bind-Yields (All IsUsable) IsPickable (config_loop o c (suc (length (content s))) [] s) _
        (loop-Yields (suc (length (content s))) [] s tt) config_of-Yields

  yielded :
      (q : Outcome StreamBuf ClientConfig) (config : ClientConfig) (s' : StreamBuf)
      → Yields IsPickable q
      → q ≡ done config s'
      → IsPickable config
  yielded (done a s) config s' h e = let same : a ≡ config = cc in subst IsPickable same h
  yielded (failed x s) config s' h e = absurd (cc)
  yielded stuck config s' h e = absurd (cc)

  -- Whatever the stream answers: if `decode_config` gives a config, then `first_encap_config` does
  -- not panic on it, neither for want of a key config nor for want of algorithms in the first. And on
  -- a clean stream of any bytes `decode_config` ends, with a config or an error.
  pub first_encap_config-decode_config :
      OctetsLaws o
      → (s : StreamBuf)
      → ((s' : StreamBuf) (config : ClientConfig)
          → decode_config o c s ≡ done config s'
          → (e : EncapConfig) × (first_encap_config config ≡ ok e))
        × ((bs : Bytes) → Represents s bs → decode_config o c s ≢ stuck)
  first_encap_config-decode_config laws s = (
    λ s' config e. yielded _ config s' (decode_config-Yields s) e,
    λ bs rep. decode_config-not_stuck o c laws s bs rep,
  )
