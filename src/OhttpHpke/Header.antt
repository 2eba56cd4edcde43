-- ===== src/OhttpHpke/Header.antt =====
-- crates/ohttp-hpke/src/header.rs: the header of an encapsulated request.
pub mod Decode
pub mod RoundTrip
use pvcli.Prelude.{ℕ, ◌+◌, Bytes, length}
use pvcli.Octets.{Octets, OctetsMut, with_slice, into_vec, ◌>>=◌}
use pvcli.Poll.{Result, ok, err, unwrap}
use pvcli.Prelude.{Option, some}
use pvcli.HyperBinary.Encoder.{vec_of}
use pvcli.OhttpHpke.Config.{KemId, KdfId, AeadId, Crypto}

pub record EncapHeader : Type 0 where
  pub key_id : ℕ
  pub kem_id : KemId
  pub kdf_id : KdfId
  pub aead_id : AeadId

abbrev pub encoded_len : ℕ
encoded_len = 1 + 2 + 2 + 2

module _ (o : Octets) (c : Crypto) where
  unfoldable pub put : EncapHeader → OctetsMut → Option OctetsMut
  put header octets =
      o.put_u8 header.key_id octets
      >>= o.put_u16 (c.kem_code header.kem_id)
      >>= o.put_u16 (c.kdf_code header.kdf_id)
      >>= o.put_u16 (c.aead_code header.aead_id)

  abbrev pub encoded_info_len : Bytes → ℕ
  encoded_info_len request_info_str = length request_info_str + 1 + encoded_len

  unfoldable pub put_info : EncapHeader → Bytes → OctetsMut → Option OctetsMut
  unfolding put
  put_info header request_info_str octets =
      o.put_bytes request_info_str octets >>= o.put_u8 0 >>= put header

  unfoldable pub encode_info : EncapHeader → Bytes → Result Bytes
  unfolding put_info
  encode_info header request_info_str =
      vec_of
        (unwrap (put_info header request_info_str (with_slice (encoded_info_len request_info_str))))
