-- ===== src/OhttpHpke/Server.antt =====
-- The server of crates/ohttp-hpke/src/server.rs: it opens a request and seals the response.
use pvcli.Prelude.{ℕ, ◌-◌, Option, [], Bytes, length, ltb, take, drop, if◌then◌else◌}
use pvcli.Octets.{Octets}
use pvcli.Poll.{Result, ok, err, unwrap, open_error, Polled}
use pvcli.Poll.Async.{Async, pure, ◌>>=◌}
use pvcli.StreamBuf.{StreamBuf, read_exact, read_to_end}
use pvcli.OhttpHpke.Config.{KemId, KdfId, AeadId, Crypto}
use pvcli.OhttpHpke.Hpke.{Hpke}
use pvcli.OhttpHpke.Header.{encode_info}
use pvcli.OhttpHpke.Header.Decode as Header
use pvcli.OhttpHpke.Header.Decode.{lift}
use pvcli.OhttpHpke.ServerConfig.{ServerConfig, get_key_pair}
use pvcli.OhttpHpke.Client.{response_secret_len, map_invalid, ◌|>◌}
use pvcli.OhttpHpke.Encapsulated.{Encapsulated, new_non_chunked, new_chunked}
use pvcli.OhttpHpke.Decapsulated as Decapsulated
use pvcli.OhttpHpke.Decapsulated.{Decapsulated}
use pvcli.OhttpHpke.Response as Response
use pvcli.OhttpHpke.Response.{ResponseContext, AeadContext}

-- `RequestOpener`: the HPKE context and the algorithm, which the source has as a type argument.
pub record RequestOpener (h : Hpke) : Type 0 where
  pub aead_id : AeadId
  pub aead_ctx : h.Receiver

pub record RequestReceivingContext (h : Hpke) : Type 0 where
  pub opener : RequestOpener h

pub record ResponseSendingContext : Type 0 where
  pub inner : ResponseContext

module _ (c : Crypto) where
  -- `derive_aead_state`; `random` is what the random number generator fills in.
  unfoldable pub derive_aead_state :
      (random : ℕ → Bytes) → ResponseSendingContext → Bytes × AeadContext
  unfolding Response.derive_aead_context
  derive_aead_state random s =
      let response_nonce = random (length s.inner.response_secret) in
      (response_nonce, Response.derive_aead_context c s.inner response_nonce)

  unfoldable pub encapsulate_non_chunked_content :
      (random : ℕ → Bytes) → ResponseSendingContext → StreamBuf → Encapsulated AeadContext
  unfolding derive_aead_state new_non_chunked
  encapsulate_non_chunked_content random s stream_buf =
      let (response_nonce, aead_context) = derive_aead_state random s in
      new_non_chunked aead_context response_nonce stream_buf

  unfoldable pub encapsulate_chunked_content :
      (random : ℕ → Bytes) → ResponseSendingContext → StreamBuf → Encapsulated AeadContext
  unfolding derive_aead_state new_chunked
  encapsulate_chunked_content random s stream_buf =
      let (response_nonce, aead_context) = derive_aead_state random s in
      new_chunked aead_context response_nonce stream_buf

module _ (o : Octets) (c : Crypto) (h : Hpke) where
  -- `RequestOpener::open_in_place`.
  unfoldable pub open_in_place :
      RequestOpener h → (buf aad : Bytes) → Result Bytes × RequestOpener h
  open_in_place s buf aad =
      let tag_size = c.tag_size s.aead_id in
      let ciphertext_len = length buf - tag_size in
      let (answer, aead_ctx) =
        h.open_in_place_detached s.aead_ctx (take ciphertext_len buf) aad
          (drop ciphertext_len buf) in
      if ltb (length buf) tag_size
      then (err open_error, s)
      else (answer, record s { aead_ctx = aead_ctx })

  -- `SetupRequestDecap::call_triple`.
  unfoldable pub call_triple :
      KemId
      → KdfId
      → AeadId
      → (sk_recip encapped_key request_info response_info_str : Bytes)
      → Result (RequestOpener h × Bytes)
  call_triple kem_id kdf_id aead_id sk_recip encapped_key request_info response_info_str =
      h.setup_receiver kem_id kdf_id aead_id sk_recip encapped_key request_info |> λ aead_ctx.
      unwrap (h.export_receiver aead_ctx response_info_str (response_secret_len c aead_id))
      |> λ response_secret. ok (record { aead_id = aead_id; aead_ctx = aead_ctx }, response_secret)

  unfoldable pub decode_request_header :
      ServerConfig
      → (request_info_str response_info_str : Bytes)
      → Async StreamBuf (RequestReceivingContext h × ResponseSendingContext)
  unfolding Header.decode get_key_pair encode_info call_triple read_exact
  decode_request_header hpke_config request_info_str response_info_str = do
    encap_header ← Header.decode o c
    key_pair ← lift (get_key_pair hpke_config encap_header)
    encapped_key ← read_exact (c.encapped_key_size key_pair.public_key.kem_id)
    request_info ← lift (encode_info o c encap_header request_info_str)
    (opener, response_secret) ← lift (
        map_invalid (
          call_triple key_pair.public_key.kem_id encap_header.kdf_id encap_header.aead_id
            key_pair.private_key encapped_key request_info response_info_str))
    pure (
      record { opener = opener },
      record {
        inner = record {
          kdf_id = encap_header.kdf_id;
          aead_id = encap_header.aead_id;
          encapped_key = encapped_key;
          response_secret = response_secret;
        };
      },
    )

  unfoldable pub decapsulate_non_chunked_content : RequestReceivingContext h → Async StreamBuf Bytes
  unfolding read_to_end open_in_place
  decapsulate_non_chunked_content s = do
    buf ← read_to_end
    lift (map_invalid (open_in_place s.opener buf []).0)

  unfoldable pub decapsulate_chunked_content :
      RequestReceivingContext h → StreamBuf → Decapsulated (RequestOpener h)
  unfolding Decapsulated.new
  decapsulate_chunked_content s stream_buf = Decapsulated.new s.opener stream_buf

  -- `DecapsulatedRequestStream::poll_next`.
  unfoldable pub poll_next :
      ℕ → Decapsulated (RequestOpener h) → Polled (Decapsulated (RequestOpener h)) (Option Bytes)
  unfolding Decapsulated.poll_next open_in_place
  poll_next usize_max s = Decapsulated.poll_next o usize_max open_in_place s
