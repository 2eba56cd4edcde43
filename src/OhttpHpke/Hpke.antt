-- ===== src/OhttpHpke/Hpke.antt =====
-- The third-party crate `hpke` (RFC 9180), as crates/ohttp-hpke/src/client.rs and
-- crates/ohttp-hpke/src/server.rs use it: a parameter of their models, and what its documentation
-- promises of it.
use pvcli.Prelude.{ℕ, ◌≡◌, Option, Bytes, length}
use pvcli.Poll.{Result, ok}
use pvcli.OhttpHpke.Config.{KemId, KdfId, AeadId, Crypto}

-- The algorithms that the source gives as type arguments come first. `seed` stands for what the
-- random number generator gives.
pub record Hpke : Type 1 where
  -- `AeadCtxS` and `AeadCtxR`.
  pub Sender : Type 0
  pub Receiver : Type 0
  -- `setup_sender` behind `PublicKey::from_bytes`: the encapsulated key and the context.
  pub setup_sender : KemId → KdfId → AeadId → (pk_recip info seed : Bytes) → Result (Bytes × Sender)
  -- `setup_receiver` behind `PrivateKey::from_bytes` and `EncappedKey::from_bytes`.
  pub setup_receiver :
      KemId → KdfId → AeadId → (sk_recip encapped_key info : Bytes) → Result Receiver
  -- `export` of both, into a buffer of the given length.
  pub export_sender : Sender → Bytes → ℕ → Option Bytes
  pub export_receiver : Receiver → Bytes → ℕ → Option Bytes
  pub seal_in_place_detached : Sender → (buf aad : Bytes) → Result (Bytes × Bytes) × Sender
  pub open_in_place_detached : Receiver → (ciphertext aad tag : Bytes) → Result Bytes × Receiver

-- `KeysMatch kem pk sk`: the public key belongs to the private key. `Paired a s r`: the contexts
-- come from one setup with the algorithm `a` and have handled the same messages since.
pub record HpkeLaws (c : Crypto) (h : Hpke) : Type 1 where
  pub KeysMatch : KemId → (pk sk : Bytes) → Type 0
  pub Paired : AeadId → h.Sender → h.Receiver → Type 0
  pub encapped_key_sized :
      (kem : KemId) (kdf : KdfId) (aead : AeadId) (pk info seed encapped_key : Bytes)
      (sender : h.Sender)
      → h.setup_sender kem kdf aead pk info seed ≡ ok (encapped_key, sender)
      → length encapped_key ≡ c.encapped_key_size kem
  pub setup_Paired :
      (kem : KemId) (kdf : KdfId) (aead : AeadId) (pk sk info seed encapped_key : Bytes)
      (sender : h.Sender)
      → KeysMatch kem pk sk
      → h.setup_sender kem kdf aead pk info seed ≡ ok (encapped_key, sender)
      → (receiver : h.Receiver) × (h.setup_receiver kem kdf aead sk encapped_key info ≡ ok receiver)
        × Paired aead sender receiver
  pub export_Paired :
      (aead : AeadId) (sender : h.Sender) (receiver : h.Receiver) (info : Bytes) (len : ℕ)
      → Paired aead sender receiver
      → h.export_receiver receiver info len ≡ h.export_sender sender info len
  -- The buffer that `export` fills keeps its length.
  pub export_sized :
      (sender : h.Sender) (info : Bytes) (len : ℕ) (secret : Bytes)
      → h.export_sender sender info len ≡ Option.some secret
      → length secret ≡ len
  pub open_Paired :
      (aead : AeadId) (sender sender' : h.Sender) (receiver : h.Receiver)
      (buf aad ciphertext tag : Bytes)
      → Paired aead sender receiver
      → h.seal_in_place_detached sender buf aad ≡ (ok (ciphertext, tag), sender')
      → (length tag ≡ c.tag_size aead)
        × ((receiver' : h.Receiver) × (h.open_in_place_detached receiver ciphertext aad tag
              ≡ (ok buf, receiver'))
            × Paired aead sender' receiver')
