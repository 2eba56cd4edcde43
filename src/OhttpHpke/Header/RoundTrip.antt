-- ===== src/OhttpHpke/Header/RoundTrip.antt =====
-- The header of an encapsulated request (crates/ohttp-hpke/src/header.rs), written and read back.
use pvcli.Prelude.{
  ℕ, ◌^◌, ◌<◌, ◌≡◌, refl, ap, ◌++◌, Bytes, length, drop-length, length-append, append_assoc, arith,
}
use pvcli.Octets.{Octets, OctetsLaws}
use pvcli.Octets.Write.{Writes, >>=-Writes, put_u8-Writes, put_u16-Writes, put_bytes-Writes}
use pvcli.Poll.{Result, ok, err, done}
use pvcli.StreamBuf.{StreamBuf}
use pvcli.StreamBuf.Flat as FlatBuf
use pvcli.StreamBuf.Flat.{Flat, Reply, got}
use pvcli.StreamBuf.Refine.{
  Represents, ended_got, Implements, >>=-Implements, pure-Implements, throw-Implements,
}
use pvcli.StreamOctets.Flat.{with_octets}
use pvcli.StreamOctets.Refine.{decode_u8-Implements, decode_u16-Implements}
use pvcli.HyperBinary.Encoder.Initial.{vec_of-Writes}
use pvcli.OhttpHpke.Config.{
  Crypto, CryptoLaws, kem_try_from_u16, kdf_try_from_u16, aead_try_from_u16,
}
use pvcli.OhttpHpke.Config.{kem_try-code, kdf_try-code, aead_try-code}
use pvcli.OhttpHpke.Header.{EncapHeader, put, put_info, encode_info}
use pvcli.OhttpHpke.Header.Decode.{decode, lift}

unfoldable pub flat_lift : {A : Type 0} → Result A → Flat A
flat_lift (ok a) = FlatBuf.pure a
flat_lift (err e) = FlatBuf.throw e

pub lift-Implements : {A : Type 0} (r : Result A) → Implements (lift r) (flat_lift r)
unfolding flat_lift
lift-Implements (ok a) = pure-Implements a
lift-Implements (err e) = throw-Implements e

module _ (o : Octets) (laws : OctetsLaws o) (c : Crypto) (claws : CryptoLaws c) where
  open laws use {u8_bytes, u16_bytes}

  -- The key id and the three algorithm ids.
  abbrev pub header_bytes : EncapHeader → Bytes
  header_bytes header =
      u8_bytes header.key_id
      ++ (u16_bytes (c.kem_code header.kem_id)
          ++ (u16_bytes (c.kdf_code header.kdf_id) ++ u16_bytes (c.aead_code header.aead_id)))

  abbrev pub flat_decode : Flat EncapHeader
  flat_decode = FlatBuf.◌>>=◌ (with_octets o.get_u8) λ key_id.
      FlatBuf.◌>>=◌ (with_octets o.get_u16) λ kem.
        FlatBuf.◌>>=◌ (flat_lift (kem_try_from_u16 c kem)) λ kem_id.
          FlatBuf.◌>>=◌ (with_octets o.get_u16) λ kdf.
            FlatBuf.◌>>=◌ (flat_lift (kdf_try_from_u16 c kdf)) λ kdf_id.
              FlatBuf.◌>>=◌ (with_octets o.get_u16) λ aead.
                FlatBuf.◌>>=◌ (flat_lift (aead_try_from_u16 c aead)) λ aead_id.
                  FlatBuf.pure (record {
                    key_id = key_id;
                    kem_id = kem_id;
                    kdf_id = kdf_id;
                    aead_id = aead_id;
                  })

  pub decode-Implements : Implements (decode o c) flat_decode
  unfolding decode
  decode-Implements = >>=-Implements _ _ _ _ (decode_u8-Implements o laws) λ key_id.
      >>=-Implements _ _ _ _ (decode_u16-Implements o laws) λ kem.
        >>=-Implements _ _ _ _ (lift-Implements (kem_try_from_u16 c kem)) λ kem_id.
          >>=-Implements _ _ _ _ (decode_u16-Implements o laws) λ kdf.
            >>=-Implements _ _ _ _ (lift-Implements (kdf_try_from_u16 c kdf)) λ kdf_id.
              >>=-Implements _ _ _ _ (decode_u16-Implements o laws) λ aead.
                >>=-Implements _ _ _ _ (lift-Implements (aead_try_from_u16 c aead))
                  λ aead_id. pure-Implements _

  u8_front :
      (v : ℕ) (rest : Bytes) → v < 2 ^ 8 → with_octets o.get_u8 (u8_bytes v ++ rest) ≡ got v rest
  unfolding with_octets
  u8_front v rest lt =
      rw (laws.get_u8_lem v rest lt)
        (ap (got v) (rw (laws.length_u8 v) at (drop-length (u8_bytes v) rest)))

  pub u16_front :
      (v : ℕ) (rest : Bytes) → v < 2 ^ 16 → with_octets o.get_u16 (u16_bytes v ++ rest) ≡ got v rest
  unfolding with_octets
  u16_front v rest lt =
      rw (laws.get_u16_lem v rest lt)
        (ap (got v) (rw (laws.length_u16 v) at (drop-length (u16_bytes v) rest)))

  pub flat_front :
      (header : EncapHeader) (rest : Bytes)
      → header.key_id < 2 ^ 8
      → flat_decode (header_bytes header ++ rest) ≡ got header rest
  unfolding flat_lift
  flat_front header rest lt =
      rw
        (
          append_assoc (u8_bytes header.key_id)
              (u16_bytes (c.kem_code header.kem_id)
                ++ (u16_bytes (c.kdf_code header.kdf_id) ++ u16_bytes (c.aead_code header.aead_id)))
              rest,
          append_assoc (u16_bytes (c.kem_code header.kem_id))
              (u16_bytes (c.kdf_code header.kdf_id) ++ u16_bytes (c.aead_code header.aead_id)) rest,
          append_assoc (u16_bytes (c.kdf_code header.kdf_id))
              (u16_bytes (c.aead_code header.aead_id)) rest,
          u8_front header.key_id
              (u16_bytes (c.kem_code header.kem_id)
                ++ (u16_bytes (c.kdf_code header.kdf_id)
                    ++ (u16_bytes (c.aead_code header.aead_id) ++ rest)))
              lt,
          u16_front (c.kem_code header.kem_id)
              (u16_bytes (c.kdf_code header.kdf_id)
                ++ (u16_bytes (c.aead_code header.aead_id) ++ rest))
              (claws.kem_code_u16 header.kem_id),
          kem_try-code c claws header.kem_id,
          u16_front (c.kdf_code header.kdf_id) (u16_bytes (c.aead_code header.aead_id) ++ rest)
              (claws.kdf_code_u16 header.kdf_id),
          kdf_try-code c claws header.kdf_id,
          u16_front (c.aead_code header.aead_id) rest (claws.aead_code_u16 header.aead_id),
          aead_try-code c claws header.aead_id,
        )
        refl

  -- Let `s` stand for the bytes of a header, whose key id fits a byte, followed by `rest`. Then
  -- `EncapHeader::decode` gives back the header, and `rest` is left.
  pub decode-header_bytes :
      (header : EncapHeader) (rest : Bytes) (s : StreamBuf)
      → header.key_id < 2 ^ 8
      → Represents s (header_bytes header ++ rest)
      → (s' : StreamBuf) × (decode o c s ≡ done header s') × Represents s' rest
  decode-header_bytes header rest s lt rep =
      ended_got header rest _ (rw (flat_front header rest lt) at (decode-Implements s _ rep))

  pub put-Writes :
      (header : EncapHeader) → header.key_id < 2 ^ 8 → Writes (put o c header) (header_bytes header)
  unfolding put
  put-Writes header lt = simp append_assoc at (
      >>=-Writes _ _ _ _
        (>>=-Writes _ _ _ _
          (>>=-Writes _ _ _ _ (put_u8-Writes o laws header.key_id lt)
            (put_u16-Writes o laws (c.kem_code header.kem_id) (claws.kem_code_u16 header.kem_id)))
          (put_u16-Writes o laws (c.kdf_code header.kdf_id) (claws.kdf_code_u16 header.kdf_id)))
        (put_u16-Writes o laws (c.aead_code header.aead_id) (claws.aead_code_u16 header.aead_id)))

  pub length-header_bytes : (header : EncapHeader) → length (header_bytes header) ≡ 7
  length-header_bytes header = omega (
    arith,
    length-append (u8_bytes header.key_id) (
        u16_bytes (c.kem_code header.kem_id)
        ++ (u16_bytes (c.kdf_code header.kdf_id) ++ u16_bytes (c.aead_code header.aead_id))),
    length-append (u16_bytes (c.kem_code header.kem_id))
        (u16_bytes (c.kdf_code header.kdf_id) ++ u16_bytes (c.aead_code header.aead_id)),
    length-append (u16_bytes (c.kdf_code header.kdf_id)) (u16_bytes (c.aead_code header.aead_id)),
    laws.length_u8 header.key_id,
    laws.length_u16 (c.kem_code header.kem_id),
    laws.length_u16 (c.kdf_code header.kdf_id),
    laws.length_u16 (c.aead_code header.aead_id),
  )

  -- For a header whose key id fits a byte, `encode_info` does not panic and gives the string, a
  -- NUL and the bytes of the header, without a byte left over.
  pub encode_info-header_bytes :
      (header : EncapHeader) (request_info_str : Bytes)
      → header.key_id < 2 ^ 8
      → encode_info o c header request_info_str
        ≡ ok (request_info_str ++ (u8_bytes 0 ++ header_bytes header))
  unfolding encode_info put_info
  encode_info-header_bytes header request_info_str lt =
      vec_of-Writes _ _ _
        (simp append_assoc at (
          >>=-Writes _ _ _ _
            (>>=-Writes _ _ _ _ (put_bytes-Writes o laws request_info_str)
              (put_u8-Writes o laws 0 (omega arith)))
            (put-Writes header lt)))
        (omega (
          arith,
          length-append request_info_str (u8_bytes 0 ++ header_bytes header),
          length-append (u8_bytes 0) (header_bytes header),
          laws.length_u8 0,
          length-header_bytes header,
        ))
