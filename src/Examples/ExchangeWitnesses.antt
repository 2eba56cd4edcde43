-- ===== src/Examples/ExchangeWitnesses.antt =====
-- A concrete HPKE that hides nothing, and the theorems on the exchange of requests and responses of
-- crates/ohttp-hpke applied to it.
use pvcli.Prelude.{
  ℕ, zero, suc, ◌+◌, ◌<◌, ◌≡◌, refl, sym, ap, ◌∙◌, false, some, List, [], ◌∷◌, ◌++◌, Bytes, length,
  replicate, arith,
}
use pvcli.Poll.{Result, ok, done, collect}
use pvcli.StreamBuf.{StreamBuf, Event, item, not_ready}
use pvcli.StreamBuf.Content.{stream_bytes}
use pvcli.StreamBuf.Refine.{Represents}
use pvcli.OhttpHpke.Config.{hkdf_sha256, aes_gcm128}
use pvcli.OhttpHpke.Hpke.{Hpke, HpkeLaws}
use pvcli.OhttpHpke.Encapsulated as Encapsulated
use pvcli.OhttpHpke.Encapsulated.{Encapsulated, new_chunked, final_aad}
use pvcli.OhttpHpke.Encapsulated.Chunks as Chunks
use pvcli.OhttpHpke.Decapsulated as Decapsulated
use pvcli.OhttpHpke.Decapsulated.{Decapsulated}
use pvcli.OhttpHpke.Decapsulated.Frames as Frames
use pvcli.OhttpHpke.Decapsulated.Opening.{collect-Frames, Ending}
use pvcli.OhttpHpke.Response as Response
use pvcli.OhttpHpke.Response.{ResponseContext, AeadContext}
use pvcli.OhttpHpke.Aead.{seal_in_place_detached, lifted, derive_aead_key_and_nonce}
use pvcli.OhttpHpke.Nonce as Nonce
use pvcli.OhttpHpke.Client as Client
use pvcli.OhttpHpke.Client.{
  RequestSendingContext, ResponseReceivingContext, setup_request_encapsulation,
}
use pvcli.OhttpHpke.Server as Server
use pvcli.OhttpHpke.Server.{
  RequestOpener, RequestReceivingContext, ResponseSendingContext, open_in_place, derive_aead_state,
  decode_request_header,
}
use pvcli.OhttpHpke.ServerConfig.Valid.{here}
use pvcli.OhttpHpke.RoundTrip.Openers.{hpke_opens}
use pvcli.OhttpHpke.RoundTrip.Chunked.{collect-chunked_round_trip}
use pvcli.OhttpHpke.RoundTrip.Response.{response_round_trip}
use pvcli.OhttpHpke.RoundTrip.Request.{request_round_trip, picked}
use pvcli.Examples.Integers.{rfc9000, rfc9000-OctetsLaws}
use pvcli.Examples.Messages.{usize_max}
use pvcli.Examples.HpkeWitnesses.{clear, clear-CryptoLaws, public_key_size}
use pvcli.Examples.ConfigWitnesses.{key_config, server_config, key_config-IsWritable}

-- The contexts count their messages, and the tag is sixteen times the count.
abbrev plain : Hpke
plain = record {
  Sender = ℕ;
  Receiver = ℕ;
  setup_sender = λ kem kdf aead pk info seed. ok (replicate (public_key_size kem) 7, 0);
  setup_receiver = λ kem kdf aead sk encapped_key info. ok 0;
  export_sender = λ s info len. some (replicate len 9);
  export_receiver = λ r info len. some (replicate len 9);
  seal_in_place_detached = λ s buf aad. (ok (buf, replicate 16 s), suc s);
  open_in_place_detached = λ r ciphertext aad tag. (ok ciphertext, suc r);
}

length-replicate : (n x : ℕ) → length (replicate n x) ≡ n
length-replicate zero x = refl
length-replicate (suc n) x = omega (arith, length-replicate n x)

sealed_as :
    (s s' : ℕ) (buf ciphertext tag : Bytes)
    → ◌≡◌ {A = Result (Bytes × Bytes) × ℕ}
        (ok (buf, replicate 16 s), suc s)
        (ok (ciphertext, tag), s')
    → (ciphertext ≡ buf) × (length tag ≡ 16) × (s' ≡ suc s)
sealed_as s s' buf ciphertext tag e =
    let same : replicate 16 s ≡ tag = cc in (cc, ap length (sym same) ∙ length-replicate 16 s, cc)

set_up_as :
    (n : ℕ) (encapped_key : Bytes) (sender : ℕ)
    → ◌≡◌ {A = Result (Bytes × ℕ)} (ok (replicate n 7, 0)) (ok (encapped_key, sender))
    → (length encapped_key ≡ n) × (sender ≡ 0)
set_up_as n encapped_key sender e =
    let same : replicate n 7 ≡ encapped_key = cc in
    (ap length (sym same) ∙ length-replicate n 7, cc)

exported_as : (n : ℕ) (secret : Bytes) → some (replicate n 9) ≡ some secret → length secret ≡ n
exported_as n secret e =
    let same : replicate n 9 ≡ secret = cc in ap length (sym same) ∙ length-replicate n 9

abbrev plain-HpkeLaws : HpkeLaws clear plain
plain-HpkeLaws = record {
  KeysMatch = λ kem pk sk. Unit {0};
  Paired = λ a s r. s ≡ r;
  encapped_key_sized = λ kem kdf aead pk info seed encapped_key sender e.
      (set_up_as (public_key_size kem) encapped_key sender e).0;
  setup_Paired = λ kem kdf aead pk sk info seed encapped_key sender keys e.
      (0, refl, (set_up_as (public_key_size kem) encapped_key sender e).1);
  export_Paired = λ aead sender receiver info len m. refl;
  export_sized = λ sender info len secret e. exported_as len secret e;
  open_Paired = λ aead sender sender' receiver buf aad ciphertext tag m e.
      let (same, sized, next) = sealed_as sender sender' buf ciphertext tag e in
      (sized, (suc receiver, ap (λ b. (ok b, suc receiver)) same, next ∙ ap suc m));
}

abbrev opener : RequestOpener plain
opener = record { aead_id = aes_gcm128; aead_ctx = 0 }

-- One chunk, and then the front of another.
abbrev cut_wire : Bytes
cut_wire = 18 ∷ 1 ∷ 2 ∷ (replicate 16 0 ++ (17 ∷ 3 ∷ []))

abbrev cut_buf : StreamBuf
cut_buf = record { max_buf_size = 50; buf = []; stream = not_ready ∷ item cut_wire ∷ [] }

collect-Frames_example :
    Ending rfc9000 rfc9000-OctetsLaws usize_max plain.seal_in_place_detached
      (open_in_place rfc9000 clear plain)
      (hpke_opens rfc9000 clear clear-CryptoLaws plain plain-HpkeLaws)
      false
      (1 ∷ 2 ∷ [])
      (collect 5
        (Decapsulated.poll_next rfc9000 usize_max (open_in_place rfc9000 clear plain))
        []
        (Decapsulated.new opener cut_buf))
collect-Frames_example =
    collect-Frames rfc9000 rfc9000-OctetsLaws usize_max plain.seal_in_place_detached
      (open_in_place rfc9000 clear plain)
      (hpke_opens rfc9000 clear clear-CryptoLaws plain plain-HpkeLaws) 5 false 0 opener
      ((1 ∷ 2 ∷ []) ∷ []) cut_wire cut_buf refl
      (Frames.more {s = 0} {s' = 1} {p = 1 ∷ 2 ∷ []} {ciphertext = 1 ∷ 2 ∷ []}
        {tag = replicate 16 0} refl (omega arith, omega arith)
        (Frames.cut_chunk 17 (3 ∷ []) (omega arith, omega arith) (omega arith)))
      (record { clean = (omega arith, tt); bytes = refl; small = omega arith }) (omega arith)

abbrev two_chunks : List Event
two_chunks = item (1 ∷ 2 ∷ []) ∷ not_ready ∷ item (3 ∷ []) ∷ []

abbrev whole_wire : Bytes
whole_wire = 18 ∷ 1 ∷ 2 ∷ (replicate 16 0 ++ (17 ∷ 3 ∷ (replicate 16 1 ++ (0 ∷ replicate 16 2))))

collect-chunked_round_trip_example :
    ((final : Encapsulated ℕ) × (collect 13
          (Encapsulated.poll_next rfc9000 plain.seal_in_place_detached)
          []
          (new_chunked 0 (5 ∷ []) (record { max_buf_size = 9; buf = []; stream = two_chunks }))
        ≡ done ((5 ∷ []) ++ whole_wire) final))
    × ((b : StreamBuf)
        → Represents b whole_wire
        → length b.stream + length two_chunks + 1 < 20
        → (d : Decapsulated (RequestOpener plain)) × (collect 20
              (Decapsulated.poll_next rfc9000 usize_max (open_in_place rfc9000 clear plain))
              []
              (Decapsulated.new opener b)
            ≡ done (stream_bytes two_chunks) d))
collect-chunked_round_trip_example =
    collect-chunked_round_trip rfc9000 rfc9000-OctetsLaws usize_max plain.seal_in_place_detached
      (open_in_place rfc9000 clear plain)
      (hpke_opens rfc9000 clear clear-CryptoLaws plain plain-HpkeLaws) two_chunks 13 20 9 (5 ∷ [])
      whole_wire 0 opener (omega arith) refl
      (Chunks.more {s = 0} {s' = 1} {x = 1} {b = 2 ∷ []} {ciphertext = 1 ∷ 2 ∷ []}
        {tag = replicate 16 0} refl (omega arith)
        (Chunks.wait (
          Chunks.more {s = 1} {s' = 2} {x = 3} {b = []} {ciphertext = 3 ∷ []} {tag = replicate 16 1}
            refl (omega arith) (Chunks.last {s = 2} {s' = 3} {tag = replicate 16 2} refl))))
      (omega arith)

abbrev body : StreamBuf
body = record { max_buf_size = 9; buf = 6 ∷ []; stream = not_ready ∷ item (7 ∷ []) ∷ [] }

body-Represents : Represents body (6 ∷ 7 ∷ [])
body-Represents = record { clean = (omega arith, tt); bytes = refl; small = omega arith }

abbrev context : ResponseContext
context = record {
  kdf_id = hkdf_sha256;
  aead_id = aes_gcm128;
  encapped_key = replicate 32 7;
  response_secret = replicate 16 9;
}

abbrev zeros : ℕ → Bytes
zeros n = replicate n 0

abbrev sealed_once : AeadContext
sealed_once = record {
  aead_id = aes_gcm128;
  aead_key = replicate 16 0;
  chunk_nonce = record {
    initial = replicate 12 0;
    counter = replicate 11 0 ++ (1 ∷ []);
    current = replicate 12 0;
  };
}

sealed_response :
    Response.seal_in_place clear
      (derive_aead_state clear zeros (record { inner = context })).1
      (6 ∷ 7 ∷ [])
      []
    ≡ (ok (6 ∷ 7 ∷ [], replicate 16 0), sealed_once)
unfolding Response.seal_in_place derive_aead_state Response.derive_aead_context
    derive_aead_key_and_nonce Nonce.new Nonce.next Nonce.xor_into Nonce.incr_bytes
    seal_in_place_detached lifted
sealed_response = refl

response_round_trip_example :
    (wire : Bytes) × ((final : Encapsulated AeadContext) × (collect 6
          (Encapsulated.poll_next rfc9000 (Response.seal_in_place clear))
          []
          (Server.encapsulate_non_chunked_content clear zeros (record { inner = context }) body)
        ≡ done wire final))
    × ((b : StreamBuf)
        → Represents b wire
        → (b' : StreamBuf) × (Client.decapsulate_non_chunked_content clear
              (record { inner = context })
              b
            ≡ done (6 ∷ 7 ∷ []) b')
          × Represents b' [])
response_round_trip_example =
    response_round_trip rfc9000 clear clear-CryptoLaws zeros (record { inner = context })
      (record { inner = context }) body (6 ∷ 7 ∷ []) (6 ∷ 7 ∷ []) (replicate 16 0) sealed_once 6
      (λ n. length-replicate n 0) refl sealed_response body-Represents (omega arith)

request_round_trip_example :
    (sending : RequestSendingContext plain) × (receiving : ResponseReceivingContext) × (stream
      final : Encapsulated ℕ)
    × (wire : Bytes) × (setup_request_encapsulation rfc9000 clear plain
          (picked rfc9000 rfc9000-OctetsLaws clear clear-CryptoLaws plain plain-HpkeLaws key_config
            hkdf_sha256 aes_gcm128)
          (113 ∷ [])
          (114 ∷ [])
          []
        ≡ ok (sending, receiving))
    × (Client.encapsulate_non_chunked_content rfc9000 clear plain sending body ≡ ok stream)
    × (collect 6 (Client.poll_next rfc9000 clear plain) [] stream ≡ done wire final)
    × ((b : StreamBuf)
        → Represents b wire
        → (request : RequestReceivingContext plain) × (response : ResponseSendingContext) × (b'
            b'' : StreamBuf)
          × (decode_request_header rfc9000 clear plain server_config (113 ∷ []) (114 ∷ []) b
              ≡ done (request, response) b')
          × (Server.decapsulate_non_chunked_content rfc9000 clear plain request b'
              ≡ done (6 ∷ 7 ∷ []) b'')
          × (response.inner ≡ receiving.inner))
request_round_trip_example =
    request_round_trip rfc9000 rfc9000-OctetsLaws clear clear-CryptoLaws plain plain-HpkeLaws [] []
      key_config hkdf_sha256 aes_gcm128 (113 ∷ []) (114 ∷ []) [] (replicate 32 7) (replicate 16 9)
      (6 ∷ 7 ∷ []) (6 ∷ 7 ∷ []) (replicate 16 0) 0 1 body 6
      (record { writable = (key_config-IsWritable, tt); numbered = (refl, tt) }) here tt refl refl
      refl body-Represents (omega arith)
