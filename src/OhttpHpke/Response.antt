-- ===== src/OhttpHpke/Response.antt =====
-- crates/ohttp-hpke/src/response.rs: the context in which the chunks of a response are sealed and
-- opened.
pub mod Open
use pvcli.Prelude.{ℕ, Bytes}
use pvcli.Poll.{Error, Result, ok, err, aead_error, seal_error, open_error}
use pvcli.OhttpHpke.Config.{KdfId, AeadId, Crypto}
use pvcli.OhttpHpke.Aead.{seal_in_place_detached, open_in_place, derive_aead_key_and_nonce}
use pvcli.OhttpHpke.Nonce as Nonce
use pvcli.OhttpHpke.Nonce.{ChunkNonce, Next, nonce, limit}

pub record ResponseContext : Type 0 where
  pub kdf_id : KdfId
  pub aead_id : AeadId
  pub encapped_key : Bytes
  pub response_secret : Bytes

pub record AeadContext : Type 0 where
  pub aead_id : AeadId
  pub aead_key : Bytes
  pub chunk_nonce : ChunkNonce

-- `.map_err(|aead::Error| e)`; a panic goes through.
abbrev pub map_aead : {A : Type 0} → Error → Result A → Result A
map_aead e (ok a) = ok a
map_aead e (err aead_error) = err e
map_aead e (err e') = err e'

-- `self.chunk_nonce.next()?` and the rest of the function.
abbrev pub with_nonce :
    {A : Type 0} → AeadContext → Next × ChunkNonce → (Bytes → Result A) → Result A × AeadContext
with_nonce s (limit e, n) f = (err e, record s { chunk_nonce = n })
with_nonce s (nonce aead_nonce, n) f = (f aead_nonce, record s { chunk_nonce = n })

module _ (c : Crypto) where
  unfoldable pub derive_aead_context : ResponseContext → Bytes → AeadContext
  unfolding derive_aead_key_and_nonce Nonce.new
  derive_aead_context s response_nonce =
      let (aead_key, aead_nonce) =
        derive_aead_key_and_nonce c s.kdf_id s.aead_id s.encapped_key s.response_secret
          response_nonce in
      record { aead_id = s.aead_id; aead_key = aead_key; chunk_nonce = Nonce.new aead_nonce }

  -- `impl SealInPlace for AeadContext`: ciphertext and tag.
  unfoldable pub seal_in_place :
      AeadContext → (buf aad : Bytes) → Result (Bytes × Bytes) × AeadContext
  unfolding Nonce.next seal_in_place_detached
  seal_in_place s buf aad = with_nonce s (Nonce.next s.chunk_nonce) λ aead_nonce.
      map_aead seal_error (seal_in_place_detached c s.aead_id s.aead_key aead_nonce aad buf)

  -- `impl OpenInPlace for AeadContext`.
  unfoldable pub open_in_place_with : AeadContext → (buf aad : Bytes) → Result Bytes × AeadContext
  unfolding Nonce.next open_in_place
  open_in_place_with s buf aad =
      with_nonce s (Nonce.next s.chunk_nonce)
        λ aead_nonce. map_aead open_error (open_in_place c s.aead_id s.aead_key aead_nonce aad buf)
