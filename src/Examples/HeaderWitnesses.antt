-- ===== src/Examples/HeaderWitnesses.antt =====
-- The theorems on the header of an encapsulated request, applied to a concrete header.
use pvcli.Prelude.{◌≡◌, refl, [], ◌∷◌, arith}
use pvcli.Poll.{done, ok}
use pvcli.StreamBuf.{StreamBuf, item, not_ready}
use pvcli.StreamBuf.Refine.{Represents}
use pvcli.OhttpHpke.Config.{x25519_hkdf_sha256, hkdf_sha256, aes_gcm128}
use pvcli.OhttpHpke.Header.{EncapHeader, encode_info}
use pvcli.OhttpHpke.Header.Decode.{decode}
use pvcli.OhttpHpke.Header.RoundTrip.{decode-header_bytes, encode_info-header_bytes}
use pvcli.Examples.Integers.{rfc9000, rfc9000-OctetsLaws}
use pvcli.Examples.HpkeWitnesses.{clear, clear-CryptoLaws}

abbrev header : EncapHeader
header = record {
  key_id = 5;
  kem_id = x25519_hkdf_sha256;
  kdf_id = hkdf_sha256;
  aead_id = aes_gcm128;
}

abbrev header_buf : StreamBuf
header_buf = record {
  max_buf_size = 20;
  buf = [];
  stream = item (5 ∷ 0 ∷ 32 ∷ 0 ∷ []) ∷ not_ready ∷ item (1 ∷ 0 ∷ 1 ∷ 99 ∷ []) ∷ [];
}

decode-header_bytes_example :
    (s' : StreamBuf) × (decode rfc9000 clear header_buf ≡ done header s') × Represents s' (99 ∷ [])
decode-header_bytes_example =
    decode-header_bytes rfc9000 rfc9000-OctetsLaws clear clear-CryptoLaws header (99 ∷ [])
      header_buf (omega arith)
      (record { clean = (omega arith, (omega arith, tt)); bytes = refl; small = omega arith })

encode_info-header_bytes_example :
    encode_info rfc9000 clear header (109 ∷ []) ≡ ok (109 ∷ 0 ∷ 5 ∷ 0 ∷ 32 ∷ 0 ∷ 1 ∷ 0 ∷ 1 ∷ [])
encode_info-header_bytes_example =
    encode_info-header_bytes rfc9000 rfc9000-OctetsLaws clear clear-CryptoLaws header (109 ∷ [])
      (omega arith)
