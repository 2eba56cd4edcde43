-- ===== src/OhttpHpke/Aead.antt =====
-- crates/ohttp-hpke/src/instance.rs: the operations of the algorithm that an id names. The three
-- arms of a `match` on the id call one generic function; here the id is an argument of it.
use pvcli.Prelude.{
  ◌-◌, Option, none, some, [], ◌∷◌, ◌++◌, Bytes, length, take, drop, ltb, ◌==◌, if◌then◌else◌,
}
use pvcli.Poll.{Result, ok, err, aead_error, panicked}
use pvcli.OhttpHpke.Config.{KdfId, AeadId, Crypto}

-- `aead::Result`.
abbrev pub aead_result : {A : Type 0} → Option A → Result A
aead_result (some a) = ok a
aead_result none = err aead_error

-- `b"key"` and `b"nonce"`.
abbrev pub key_info : Bytes
key_info = 107 ∷ 101 ∷ 121 ∷ []

abbrev pub nonce_info : Bytes
nonce_info = 110 ∷ 111 ∷ 110 ∷ 99 ∷ 101 ∷ []

module _ (c : Crypto) where
  -- `aead_key.lift()` and `aead_nonce.lift()`: `GenericArray::from_slice` panics on another length.
  unfoldable pub lifted :
      {A : Type 0} → AeadId → (aead_key aead_nonce : Bytes) → Result A → Result A
  lifted aead_id aead_key aead_nonce rest =
      if length aead_key == c.key_size aead_id
      then (if length aead_nonce == c.nonce_size aead_id then rest else err panicked)
      else err panicked

  -- The ciphertext that `buf` is overwritten with, and the tag.
  unfoldable pub seal_in_place_detached :
      AeadId → (aead_key aead_nonce aad buf : Bytes) → Result (Bytes × Bytes)
  unfolding lifted
  seal_in_place_detached aead_id aead_key aead_nonce aad buf =
      lifted aead_id aead_key aead_nonce
        (aead_result (c.encrypt aead_id aead_key aead_nonce aad buf))

  -- The plaintext, at the front of `buf`; the tag is at its end.
  unfoldable pub open_in_place : AeadId → (aead_key aead_nonce aad buf : Bytes) → Result Bytes
  unfolding lifted
  open_in_place aead_id aead_key aead_nonce aad buf =
      let ciphertext_len = length buf - c.tag_size aead_id in
      lifted aead_id aead_key aead_nonce (
        if ltb (length buf) (c.tag_size aead_id)
        then err aead_error
        else aead_result (
            c.decrypt aead_id aead_key aead_nonce aad (take ciphertext_len buf)
              (drop ciphertext_len buf)))

  unfoldable pub derive_aead_key_and_nonce :
      KdfId → AeadId → (encapped_key response_secret response_nonce : Bytes) → Bytes × Bytes
  derive_aead_key_and_nonce kdf_id aead_id encapped_key response_secret response_nonce =
      let salt = encapped_key ++ response_nonce in
      (
        c.expand kdf_id salt response_secret key_info (c.key_size aead_id),
        c.expand kdf_id salt response_secret nonce_info (c.nonce_size aead_id),
      )
