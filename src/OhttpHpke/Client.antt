-- ===== src/OhttpHpke/Client.antt =====
-- The client of crates/ohttp-hpke/src/client.rs: it seals a request and opens the response.
use pvcli.Prelude.{ℕ, ◌+◌, Option, [], Bytes, length}
use Prim.Native.Nat.{max}
use pvcli.Octets as Octets
use pvcli.Octets.{Octets, with_slice}
use pvcli.Poll.{Result, ok, err, unwrap, Outcome, done, failed, stuck, Polled}
use pvcli.Poll.Async.{Async, pure, ◌>>=◌}
use pvcli.StreamBuf.{StreamBuf, read_exact, read_to_end}
use pvcli.HyperBinary.Encoder.{vec_of}
use pvcli.OhttpHpke.Config.{KemId, KdfId, AeadId, Crypto}
use pvcli.OhttpHpke.Hpke.{Hpke}
use pvcli.OhttpHpke.Header as Header
use pvcli.OhttpHpke.Header.{EncapHeader, encode_info}
use pvcli.OhttpHpke.Header.Decode.{lift}
use pvcli.OhttpHpke.ClientConfig.{EncapConfig}
use pvcli.OhttpHpke.Encapsulated as Encapsulated
use pvcli.OhttpHpke.Encapsulated.{Encapsulated, new_non_chunked, new_chunked, to_invalid_data}
use pvcli.OhttpHpke.Decapsulated as Decapsulated
use pvcli.OhttpHpke.Decapsulated.{Decapsulated}
use pvcli.OhttpHpke.Response as Response
use pvcli.OhttpHpke.Response.{ResponseContext, AeadContext, open_in_place_with}

-- `?` on a result that is at hand, and `.map_err(invalid_data)`.
infixl 4 ◌|>◌
abbrev pub ◌|>◌ : {A B : Type 0} → Result A → (A → Result B) → Result B
ok a |> f = f a
err e |> f = err e

abbrev pub map_invalid : {A : Type 0} → Result A → Result A
map_invalid (ok a) = ok a
map_invalid (err e) = err (to_invalid_data e)

pub record ResponseReceivingContext : Type 0 where
  pub inner : ResponseContext

-- The sealer `RequestSealer` is the HPKE context.
pub record RequestSendingContext (h : Hpke) : Type 0 where
  pub sealer : h.Sender
  pub encap_header : EncapHeader
  pub encapped_key : Bytes

-- `decapsulate_chunked_content` takes the buffer over; where it fails, the buffer is dropped.
abbrev pub chunked_of :
    Outcome StreamBuf AeadContext → Outcome (Unit {0}) (Decapsulated AeadContext)
chunked_of (done aead_context stream_buf) = done (Decapsulated.new aead_context stream_buf) tt
chunked_of (failed e stream_buf) = failed e tt
chunked_of stuck = stuck

module _ (c : Crypto) where
  -- `cmp::max(aead_key_len, aead_nonce_len)`.
  abbrev pub response_secret_len : AeadId → ℕ
  response_secret_len aead_id = max (c.key_size aead_id) (c.nonce_size aead_id)

  -- The nonce in front of a response is as long as the secret.
  unfoldable pub derive_aead_context : ResponseReceivingContext → Async StreamBuf AeadContext
  unfolding read_exact Response.derive_aead_context
  derive_aead_context s = do
    response_nonce ← read_exact (length s.inner.response_secret)
    pure (Response.derive_aead_context c s.inner response_nonce)

  unfoldable pub decapsulate_non_chunked_content : ResponseReceivingContext → Async StreamBuf Bytes
  unfolding derive_aead_context read_to_end open_in_place_with
  decapsulate_non_chunked_content s = do
    aead_context ← derive_aead_context s
    content ← read_to_end
    lift (map_invalid (open_in_place_with c aead_context content []).0)

  unfoldable pub decapsulate_chunked_content :
      ResponseReceivingContext → StreamBuf → Outcome (Unit {0}) (Decapsulated AeadContext)
  unfolding derive_aead_context Decapsulated.new
  decapsulate_chunked_content s stream_buf = chunked_of (derive_aead_context s stream_buf)

module _ (o : Octets) (c : Crypto) (h : Hpke) where
  -- `SetupRequestEncap::call_triple`: the sealer, the encapsulated key and the response secret.
  unfoldable pub call_triple :
      KemId
      → KdfId
      → AeadId
      → (pk_recip request_info response_info_str seed : Bytes) → Result (h.Sender × Bytes × Bytes)
  call_triple kem_id kdf_id aead_id pk_recip request_info response_info_str seed =
      h.setup_sender kem_id kdf_id aead_id pk_recip request_info seed |> λ (encapped_key, aead_ctx).
      unwrap (h.export_sender aead_ctx response_info_str (response_secret_len c aead_id))
      |> λ response_secret. ok (aead_ctx, encapped_key, response_secret)

  unfoldable pub setup_request_encapsulation :
      EncapConfig
      → (request_info_str response_info_str seed : Bytes)
      → Result (RequestSendingContext h × ResponseReceivingContext)
  unfolding call_triple encode_info
  setup_request_encapsulation config request_info_str response_info_str seed =
      let encap_header : EncapHeader = record {
        key_id = config.key_id;
        kem_id = config.public_key.kem_id;
        kdf_id = config.kdf_id;
        aead_id = config.aead_id;
      } in
      encode_info o c encap_header request_info_str |> λ request_info.
      call_triple config.public_key.kem_id config.kdf_id config.aead_id config.public_key.bytes
        request_info response_info_str seed
      |> λ (methods, encapped_key, response_secret). ok (
        record { sealer = methods; encap_header = encap_header; encapped_key = encapped_key },
        record {
          inner = record {
            kdf_id = config.kdf_id;
            aead_id = config.aead_id;
            encapped_key = encapped_key;
            response_secret = response_secret;
          };
        },
      )

  unfoldable pub encode_initial_chunk : RequestSendingContext h → Result Bytes
  unfolding Header.put
  encode_initial_chunk s = vec_of (
      unwrap (
        Octets.◌>>=◌
          (Header.put o c s.encap_header (with_slice (Header.encoded_len + length s.encapped_key)))
          (o.put_bytes s.encapped_key)))

  unfoldable pub encapsulate_non_chunked_content :
      RequestSendingContext h → StreamBuf → Result (Encapsulated h.Sender)
  unfolding encode_initial_chunk new_non_chunked
  encapsulate_non_chunked_content s stream_buf = encode_initial_chunk s |> λ initial_chunk.
      ok (new_non_chunked s.sealer initial_chunk stream_buf)

  unfoldable pub encapsulate_chunked_content :
      RequestSendingContext h → StreamBuf → Result (Encapsulated h.Sender)
  unfolding encode_initial_chunk new_chunked
  encapsulate_chunked_content s stream_buf =
      encode_initial_chunk s |> λ initial_chunk. ok (new_chunked s.sealer initial_chunk stream_buf)

  -- `EncapsulatedRequestStream::poll_next`.
  unfoldable pub poll_next : Encapsulated h.Sender → Polled (Encapsulated h.Sender) (Option Bytes)
  unfolding Encapsulated.poll_next
  poll_next s = Encapsulated.poll_next o h.seal_in_place_detached s
