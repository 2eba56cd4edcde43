-- ===== src/OhttpHpke/RoundTrip/Request.antt =====
-- A request that the client of crates/ohttp-hpke/src/client.rs seals as a whole, opened by the server
-- of crates/ohttp-hpke/src/server.rs.
use pvcli.Prelude.{
  ℕ, ◌+◌, ◌^◌, ◌<◌, ◌≡◌, refl, ap, ◌∙◌, some, List, [], ◌∷◌, ◌++◌, All, Bytes, length,
  length-append, append_assoc, arith,
}
use pvcli.Octets.{Octets, OctetsLaws}
use pvcli.Octets.Write.{>>=-Writes, put_bytes-Writes}
use pvcli.Poll.{ok, done, collect}
use pvcli.StreamBuf.{StreamBuf}
use pvcli.StreamBuf.Flat.{got, read_to_end}
use pvcli.StreamBuf.Refine.{Represents, ended_got}
use pvcli.HyperBinary.Encoder.Initial.{vec_of-Writes}
use pvcli.HyperBinary.RoundTrip.Reads.{exact_front}
use pvcli.OhttpHpke.Config.{KdfId, AeadId, Crypto, CryptoLaws}
use pvcli.OhttpHpke.Hpke.{Hpke, HpkeLaws}
use pvcli.OhttpHpke.Keys.{KeyPair, KeyConfig}
use pvcli.OhttpHpke.Header.{EncapHeader}
use pvcli.OhttpHpke.Header.RoundTrip.{
  header_bytes, flat_front, flat_lift, put-Writes, length-header_bytes, encode_info-header_bytes,
}
use pvcli.OhttpHpke.ClientConfig.{EncapConfig}
use pvcli.OhttpHpke.ServerConfig.Wire.{IsWritable}
use pvcli.OhttpHpke.ServerConfig.Valid.{IsValid, Offers, get_key_pair-Offers}
use pvcli.OhttpHpke.Encapsulated.{Encapsulated}
use pvcli.OhttpHpke.Encapsulated as Encapsulated
use pvcli.OhttpHpke.Encapsulated.NonChunked.{collect_non_chunked}
use pvcli.OhttpHpke.Client as Client
use pvcli.OhttpHpke.Client.{
  RequestSendingContext, ResponseReceivingContext, response_secret_len, setup_request_encapsulation,
  encode_initial_chunk, encapsulate_non_chunked_content,
}
use pvcli.OhttpHpke.Server as Server
use pvcli.OhttpHpke.Server.{
  RequestOpener, RequestReceivingContext, ResponseSendingContext, open_in_place,
  decode_request_header, decapsulate_non_chunked_content,
}
use pvcli.OhttpHpke.RoundTrip.Openers.{request_open}
use pvcli.OhttpHpke.RoundTrip.Flat.{
  flat_request_header, request_header-Implements, flat_request_content, request_content-Implements,
}

All-at :
    (P : KeyConfig KeyPair → Type 0) (before after : List (KeyConfig KeyPair))
    (k : KeyConfig KeyPair)
    → All P (before ++ (k ∷ after))
    → P k
All-at P [] after k (p, all) = p
All-at P (x ∷ before) after k (p, all) = All-at P before after k all

module _ (o : Octets) (laws : OctetsLaws o) (c : Crypto) (claws : CryptoLaws c) (h : Hpke)
    (hlaws : HpkeLaws c h) where
  open laws use {u8_bytes}

  -- What the client picks from a key config, and the header of its request.
  abbrev pub picked : KeyConfig KeyPair → KdfId → AeadId → EncapConfig
  picked k kdf aead = record {
    key_id = k.key_id;
    public_key = k.key.public_key;
    kdf_id = kdf;
    aead_id = aead;
  }

  abbrev pub header_of : KeyConfig KeyPair → KdfId → AeadId → EncapHeader
  header_of k kdf aead = record {
    key_id = k.key_id;
    kem_id = k.key.public_key.kem_id;
    kdf_id = kdf;
    aead_id = aead;
  }

  abbrev pub info_of : EncapHeader → Bytes → Bytes
  info_of header request_info_str =
      request_info_str ++ (u8_bytes 0 ++ header_bytes o laws c claws header)

  abbrev pub sending_of :
      KeyConfig KeyPair → KdfId → AeadId → Bytes → h.Sender → RequestSendingContext h
  sending_of k kdf aead encapped_key sender = record {
    sealer = sender;
    encap_header = header_of k kdf aead;
    encapped_key = encapped_key;
  }

  abbrev pub receiving_of :
      KdfId → AeadId → (encapped_key secret : Bytes) → ResponseReceivingContext
  receiving_of kdf aead encapped_key secret = record {
    inner = record {
      kdf_id = kdf;
      aead_id = aead;
      encapped_key = encapped_key;
      response_secret = secret;
    };
  }

  set_up :
      (k : KeyConfig KeyPair) (kdf : KdfId) (aead : AeadId)
      (request_info_str response_info_str seed encapped_key secret : Bytes) (sender : h.Sender)
      → k.key_id < 2 ^ 8
      → h.setup_sender k.key.public_key.kem_id kdf aead k.key.public_key.bytes
          (info_of (header_of k kdf aead) request_info_str)
          seed
        ≡ ok (encapped_key, sender)
      → h.export_sender sender response_info_str (response_secret_len c aead) ≡ some secret
      → setup_request_encapsulation o c h
          (picked k kdf aead)
          request_info_str
          response_info_str
          seed
        ≡ ok (sending_of k kdf aead encapped_key sender, receiving_of kdf aead encapped_key secret)
  unfolding setup_request_encapsulation Client.call_triple
  set_up k kdf aead request_info_str response_info_str seed encapped_key secret sender lt e f =
      rw (encode_info-header_bytes o laws c claws (header_of k kdf aead) request_info_str lt, e, f)
        refl

  initial_chunk :
      (s : RequestSendingContext h)
      → s.encap_header.key_id < 2 ^ 8
      → encode_initial_chunk o c h s
        ≡ ok (header_bytes o laws c claws s.encap_header ++ s.encapped_key)
  unfolding encode_initial_chunk
  initial_chunk s lt =
      vec_of-Writes _ _ _
        (>>=-Writes _ _ _ _ (put-Writes o laws c claws s.encap_header lt)
          (put_bytes-Writes o laws s.encapped_key))
        (omega (
          arith,
          length-append (header_bytes o laws c claws s.encap_header) s.encapped_key,
          length-header_bytes o laws c claws s.encap_header,
        ))

  header_front :
      (before after : List (KeyConfig KeyPair)) (k : KeyConfig KeyPair) (kdf : KdfId)
      (aead : AeadId) (request_info_str response_info_str encapped_key secret rest : Bytes)
      (receiver : h.Receiver)
      → IsValid c (record { key_configs = before ++ (k ∷ after) })
      → Offers kdf aead k.symmetric_algorithms
      → k.key_id < 2 ^ 8
      → length encapped_key ≡ c.encapped_key_size k.key.public_key.kem_id
      → h.setup_receiver k.key.public_key.kem_id kdf aead k.key.private_key encapped_key
          (info_of (header_of k kdf aead) request_info_str)
        ≡ ok receiver
      → h.export_receiver receiver response_info_str (response_secret_len c aead) ≡ some secret
      → flat_request_header o laws c claws h
          (record { key_configs = before ++ (k ∷ after) })
          request_info_str
          response_info_str
          (header_bytes o laws c claws (header_of k kdf aead) ++ (encapped_key ++ rest))
        ≡ got
            (
              record { opener = record { aead_id = aead; aead_ctx = receiver } },
              record { inner = (receiving_of kdf aead encapped_key secret).inner },
            )
            rest
  unfolding flat_lift Server.call_triple
  header_front before after k kdf aead request_info_str response_info_str encapped_key secret rest
        receiver valid offers lt sized e f =
      rw
        (
          flat_front o laws c claws (header_of k kdf aead) (encapped_key ++ rest) lt,
          get_key_pair-Offers c before after k kdf aead valid offers,
          ← sized,
          exact_front encapped_key rest,
          encode_info-header_bytes o laws c claws (header_of k kdf aead) request_info_str lt,
          e,
          f,
        )
        refl

  content_front :
      (s s' : h.Sender) (p : RequestOpener h) (content ciphertext tag : Bytes)
      → hlaws.Paired p.aead_id s p.aead_ctx
      → h.seal_in_place_detached s content [] ≡ (ok (ciphertext, tag), s')
      → flat_request_content o laws c claws h (record { opener = p }) (ciphertext ++ tag)
        ≡ got content []
  unfolding read_to_end flat_lift
  content_front s s' p content ciphertext tag m e =
      let (p', back, m') = request_open o c claws h hlaws s s' p content [] ciphertext tag m e in
      rw back refl

  -- Let a server hold a valid config with the key config `k`, whose private key belongs to its
  -- public key, and let a client pick `k` and algorithms that it offers. If the crate `hpke` sets the
  -- sender up, exports the response secret and seals the content, then: the client's setup succeeds
  -- and the stream of its encapsulated request, polled to its end, yields some bytes; and the server
  -- that reads them, cut into chunks in any way, finds the key, gets the content back, and holds the
  -- same response context as the client.
  pub request_round_trip :
      (before after : List (KeyConfig KeyPair)) (k : KeyConfig KeyPair) (kdf : KdfId)
      (aead : AeadId)
      (request_info_str response_info_str seed encapped_key secret content ciphertext tag : Bytes)
      (sender sender' : h.Sender) (body : StreamBuf) (fuel : ℕ)
      → IsValid c (record { key_configs = before ++ (k ∷ after) })
      → Offers kdf aead k.symmetric_algorithms
      → hlaws.KeysMatch k.key.public_key.kem_id k.key.public_key.bytes k.key.private_key
      → h.setup_sender k.key.public_key.kem_id kdf aead k.key.public_key.bytes
          (info_of (header_of k kdf aead) request_info_str)
          seed
        ≡ ok (encapped_key, sender)
      → h.export_sender sender response_info_str (response_secret_len c aead) ≡ some secret
      → h.seal_in_place_detached sender content [] ≡ (ok (ciphertext, tag), sender')
      → Represents body content
      → length body.stream + 3 < fuel
      → (sending : RequestSendingContext h) × (receiving : ResponseReceivingContext) × (stream
          final : Encapsulated h.Sender)
        × (wire : Bytes) × (setup_request_encapsulation o c h
              (picked k kdf aead)
              request_info_str
              response_info_str
              seed
            ≡ ok (sending, receiving))
        × (encapsulate_non_chunked_content o c h sending body ≡ ok stream)
        × (collect fuel (Client.poll_next o c h) [] stream ≡ done wire final)
        × ((b : StreamBuf)
            → Represents b wire
            → (request : RequestReceivingContext h) × (response : ResponseSendingContext) × (b'
                b'' : StreamBuf)
              × (decode_request_header o c h
                    (record { key_configs = before ++ (k ∷ after) })
                    request_info_str
                    response_info_str
                    b
                  ≡ done (request, response) b')
              × (decapsulate_non_chunked_content o c h request b' ≡ done content b'')
              × (response.inner ≡ receiving.inner))
  unfolding encapsulate_non_chunked_content Client.poll_next
  request_round_trip before after k kdf aead request_info_str response_info_str seed encapped_key
        secret content ciphertext tag sender sender' body fuel valid offers keys e f g r lt =
      let w : IsWritable c k = All-at (IsWritable c) before after k valid.writable in
      let header : Bytes = header_bytes o laws c claws (header_of k kdf aead) in
      let info : Bytes = info_of (header_of k kdf aead) request_info_str in
      let (receiver, set, m) =
        hlaws.setup_Paired k.key.public_key.kem_id kdf aead k.key.public_key.bytes k.key.private_key
          info seed encapped_key sender keys e in
      let sized =
        hlaws.encapped_key_sized k.key.public_key.kem_id kdf aead k.key.public_key.bytes info seed
          encapped_key sender e in
      let exported =
        hlaws.export_Paired aead sender receiver response_info_str (response_secret_len c aead) m
        ∙ f in
      let opener : RequestOpener h = record { aead_id = aead; aead_ctx = receiver } in
      let (final, collected) =
        collect_non_chunked o h.seal_in_place_detached fuel (header ++ encapped_key) content
          ciphertext tag sender sender' body g r lt in
      (
        sending_of k kdf aead encapped_key sender,
        receiving_of kdf aead encapped_key secret,
        Encapsulated.new_non_chunked sender (header ++ encapped_key) body,
        final,
        header ++ (encapped_key ++ (ciphertext ++ tag)),
        set_up k kdf aead request_info_str response_info_str seed encapped_key secret sender
            w.id_fits e f,
        rw (initial_chunk (sending_of k kdf aead encapped_key sender) w.id_fits) refl,
        collected ∙ ap (λ l. done l final) (append_assoc header encapped_key (ciphertext ++ tag)),
        λ b rb.
            let front =
              header_front before after k kdf aead request_info_str response_info_str encapped_key
                secret (ciphertext ++ tag) receiver valid offers w.id_fits sized set exported in
            let (b', e1, r1) = ended_got _ (ciphertext ++ tag) _ (
              rw front at (
                request_header-Implements o laws c claws h
                  (record { key_configs = before ++ (k ∷ after) }) request_info_str
                  response_info_str b _ rb)) in
            let (b'', e2, r2) = ended_got content [] _ (
              rw (content_front sender sender' opener content ciphertext tag m g) at (
                request_content-Implements o laws c claws h (record { opener = opener }) b' _
                  r1)) in
            (
              record { opener = opener },
              record { inner = (receiving_of kdf aead encapped_key secret).inner },
              b',
              b'',
              e1,
              e2,
              refl,
            ),
      )
