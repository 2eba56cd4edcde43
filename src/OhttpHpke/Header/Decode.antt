-- ===== src/OhttpHpke/Header/Decode.antt =====
-- `EncapHeader::decode` of crates/ohttp-hpke/src/header.rs.
use pvcli.Octets.{Octets}
use pvcli.Poll.{Result, ok, err}
use pvcli.Poll.Async.{Async, pure, throw, ◌>>=◌}
use pvcli.StreamBuf.{StreamBuf}
use pvcli.StreamOctets.{decode_u8, decode_u16}
use pvcli.OhttpHpke.Config.{Crypto, kem_try_from_u16, kdf_try_from_u16, aead_try_from_u16}
use pvcli.OhttpHpke.Header.{EncapHeader}

-- `?` on a result that is at hand in an `async fn`.
abbrev pub lift : {S A : Type 0} → Result A → Async S A
lift (ok a) = pure a
lift (err e) = throw e

module _ (o : Octets) (c : Crypto) where
  unfoldable pub decode : Async StreamBuf EncapHeader
  unfolding kem_try_from_u16 kdf_try_from_u16 aead_try_from_u16
  decode = do
    key_id ← decode_u8 o
    kem ← decode_u16 o
    kem_id ← lift (kem_try_from_u16 c kem)
    kdf ← decode_u16 o
    kdf_id ← lift (kdf_try_from_u16 c kdf)
    aead ← decode_u16 o
    aead_id ← lift (aead_try_from_u16 c aead)
    pure (record { key_id = key_id; kem_id = kem_id; kdf_id = kdf_id; aead_id = aead_id })
