-- ===== src/OhttpHpke/RoundTrip/Flat.antt =====
-- The server's side of a request (crates/ohttp-hpke/src/server.rs) on the flat byte string.
use pvcli.Prelude.{[], Bytes}
use pvcli.Octets.{Octets, OctetsLaws}
use pvcli.Poll.{Result}
use pvcli.Poll.Async as Async
use pvcli.OhttpHpke.Header.Decode.{lift}
use pvcli.StreamBuf.Flat.{Flat, pure, ◌>>=◌, read_exact, read_to_end}
use pvcli.StreamBuf.Refine.{Implements, >>=-Implements, pure-Implements}
use pvcli.StreamBuf.Awaited.{read_exact-Implements, read_to_end-Implements}
use pvcli.OhttpHpke.Config.{Crypto, CryptoLaws}
use pvcli.OhttpHpke.Hpke.{Hpke}
use pvcli.OhttpHpke.Header.{encode_info}
use pvcli.OhttpHpke.Header.RoundTrip.{flat_lift, lift-Implements, flat_decode, decode-Implements}
use pvcli.OhttpHpke.ServerConfig.{ServerConfig, get_key_pair}
use pvcli.OhttpHpke.Client.{map_invalid}
use pvcli.OhttpHpke.Server.{
  RequestOpener, RequestReceivingContext, ResponseSendingContext, open_in_place, call_triple,
  decode_request_header, decapsulate_non_chunked_content,
}

module _ (o : Octets) (laws : OctetsLaws o) (c : Crypto) (claws : CryptoLaws c) (h : Hpke) where
  abbrev pub flat_request_header :
      ServerConfig
      → (request_info_str response_info_str : Bytes)
      → Flat (RequestReceivingContext h × ResponseSendingContext)
  flat_request_header hpke_config request_info_str response_info_str = do
    encap_header ← flat_decode o laws c claws
    key_pair ← flat_lift (get_key_pair hpke_config encap_header)
    encapped_key ← read_exact (c.encapped_key_size key_pair.public_key.kem_id)
    request_info ← flat_lift (encode_info o c encap_header request_info_str)
    (opener, response_secret) ← flat_lift (
        map_invalid (
          call_triple o c h key_pair.public_key.kem_id encap_header.kdf_id encap_header.aead_id
            key_pair.private_key encapped_key request_info response_info_str))
    pure (
      record { opener = opener },
      record {
        inner = record {
          kdf_id = encap_header.kdf_id;
          aead_id = encap_header.aead_id;
          encapped_key = encapped_key;
          response_secret = response_secret;
        };
      },
    )

  pub request_header-Implements :
      (hpke_config : ServerConfig) (request_info_str response_info_str : Bytes)
      → Implements
          (decode_request_header o c h hpke_config request_info_str response_info_str)
          (flat_request_header hpke_config request_info_str response_info_str)
  unfolding decode_request_header
  request_header-Implements hpke_config request_info_str response_info_str =
      >>=-Implements _ _ _ _ (decode-Implements o laws c claws) λ encap_header.
        >>=-Implements _ _ _ _ (lift-Implements (get_key_pair hpke_config encap_header)) λ key_pair.
          >>=-Implements _ _ _ _
            (read_exact-Implements (c.encapped_key_size key_pair.public_key.kem_id))
            λ encapped_key.
              >>=-Implements _ _ _ _
                (lift-Implements (encode_info o c encap_header request_info_str))
                λ request_info.
                  let answer : Result (RequestOpener h × Bytes) = map_invalid (
                    call_triple o c h key_pair.public_key.kem_id encap_header.kdf_id
                      encap_header.aead_id key_pair.private_key encapped_key request_info
                      response_info_str) in
                  let contexts : RequestOpener h × Bytes
                      → RequestReceivingContext h × ResponseSendingContext =
                    λ r. (
                      record { opener = r.0 },
                      record {
                        inner = record {
                          kdf_id = encap_header.kdf_id;
                          aead_id = encap_header.aead_id;
                          encapped_key = encapped_key;
                          response_secret = r.1;
                        };
                      },
                    ) in
                  >>=-Implements (lift answer) (flat_lift answer) (λ r. Async.pure (contexts r))
                    (λ r. pure (contexts r)) (lift-Implements answer)
                    (λ r. pure-Implements (contexts r))

  abbrev pub flat_request_content : RequestReceivingContext h → Flat Bytes
  flat_request_content s = do
    buf ← read_to_end
    flat_lift (map_invalid (open_in_place o c h s.opener buf []).0)

  pub request_content-Implements :
      (s : RequestReceivingContext h)
      → Implements (decapsulate_non_chunked_content o c h s) (flat_request_content s)
  unfolding decapsulate_non_chunked_content
  request_content-Implements s =
      >>=-Implements _ _ _ _ read_to_end-Implements λ buf. lift-Implements _
