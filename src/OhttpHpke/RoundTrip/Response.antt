-- ===== src/OhttpHpke/RoundTrip/Response.antt =====
-- A response that the server of crates/ohttp-hpke/src/server.rs seals as a whole, opened by the
-- client of crates/ohttp-hpke/src/client.rs.
use pvcli.Prelude.{ℕ, ◌+◌, ◌<◌, ◌≡◌, refl, ap, ◌∙◌, [], ◌++◌, Bytes, length}
use mathlib.Core.Path.{subst}
use pvcli.Octets.{Octets}
use pvcli.Poll.{ok, done, collect}
use pvcli.StreamBuf.{StreamBuf}
use pvcli.StreamBuf.Flat as FlatBuf
use pvcli.StreamBuf.Flat.{Flat, got}
use pvcli.StreamBuf.Refine.{Represents, Implements, >>=-Implements, pure-Implements, ended_got}
use pvcli.StreamBuf.Awaited.{read_exact-Implements, read_to_end-Implements}
use pvcli.HyperBinary.RoundTrip.Reads.{exact_front}
use pvcli.OhttpHpke.Config.{Crypto, CryptoLaws}
use pvcli.OhttpHpke.Header.RoundTrip.{flat_lift, lift-Implements}
use pvcli.OhttpHpke.Encapsulated as Encapsulated
use pvcli.OhttpHpke.Encapsulated.{Encapsulated}
use pvcli.OhttpHpke.Encapsulated.NonChunked.{collect_non_chunked}
use pvcli.OhttpHpke.Response as Response
use pvcli.OhttpHpke.Response.{AeadContext, seal_in_place, open_in_place_with}
use pvcli.OhttpHpke.Response.Open.{open_in_place-seal_in_place}
use pvcli.OhttpHpke.Client.{
  ResponseReceivingContext, map_invalid, derive_aead_context, decapsulate_non_chunked_content,
}
use pvcli.OhttpHpke.Server.{
  ResponseSendingContext, derive_aead_state, encapsulate_non_chunked_content,
}

module _ (o : Octets) (c : Crypto) (laws : CryptoLaws c) where
  abbrev flat_context : ResponseReceivingContext → Flat AeadContext
  flat_context s =
      FlatBuf.◌>>=◌ (FlatBuf.read_exact (length s.inner.response_secret))
        λ response_nonce. FlatBuf.pure (Response.derive_aead_context c s.inner response_nonce)

  abbrev flat_content : ResponseReceivingContext → Flat Bytes
  flat_content s = FlatBuf.◌>>=◌ (flat_context s) λ aead_context.
      FlatBuf.◌>>=◌ FlatBuf.read_to_end
        λ content. flat_lift (map_invalid (open_in_place_with c aead_context content []).0)

  derive_aead_context-Implements :
      (s : ResponseReceivingContext) → Implements (derive_aead_context c s) (flat_context s)
  unfolding derive_aead_context
  derive_aead_context-Implements s =
      >>=-Implements _ _ _ _ (read_exact-Implements (length s.inner.response_secret))
        λ response_nonce. pure-Implements _

  content-Implements :
      (s : ResponseReceivingContext)
      → Implements (decapsulate_non_chunked_content c s) (flat_content s)
  unfolding decapsulate_non_chunked_content
  content-Implements s =
      >>=-Implements _ _ _ _ (derive_aead_context-Implements s)
        λ aead_context. >>=-Implements _ _ _ _ read_to_end-Implements λ content. lift-Implements _

  flat_content_front :
      (s : ResponseReceivingContext) (nonce content ciphertext tag : Bytes) (s' : AeadContext)
      → length nonce ≡ length s.inner.response_secret
      → seal_in_place c (Response.derive_aead_context c s.inner nonce) content []
        ≡ (ok (ciphertext, tag), s')
      → flat_content s (nonce ++ (ciphertext ++ tag)) ≡ got content []
  unfolding FlatBuf.read_to_end flat_lift
  flat_content_front s nonce content ciphertext tag s' sized h =
      let context : AeadContext = Response.derive_aead_context c s.inner nonce in
      rw
        (
          ← sized,
          exact_front nonce (ciphertext ++ tag),
          open_in_place-seal_in_place c laws context s' content [] ciphertext tag h,
        )
        refl

  -- Let client and server hold the same response context, and let the random number generator fill
  -- the buffer it is given. If the server's context seals the content, then the stream of the
  -- encapsulated response, polled to its end, yields some bytes; and the client that reads them,
  -- cut into chunks in any way, gets the content back.
  pub response_round_trip :
      (random : ℕ → Bytes) (sending : ResponseSendingContext) (receiving : ResponseReceivingContext)
      (body : StreamBuf) (content ciphertext tag : Bytes) (s' : AeadContext) (fuel : ℕ)
      → ((n : ℕ) → length (random n) ≡ n)
      → sending.inner ≡ receiving.inner
      → seal_in_place c (derive_aead_state c random sending).1 content []
        ≡ (ok (ciphertext, tag), s')
      → Represents body content
      → length body.stream + 3 < fuel
      → (wire : Bytes) × ((final : Encapsulated AeadContext) × (collect fuel
              (Encapsulated.poll_next o (seal_in_place c))
              []
              (encapsulate_non_chunked_content c random sending body)
            ≡ done wire final))
        × ((b : StreamBuf)
            → Represents b wire
            → (b' : StreamBuf) × (decapsulate_non_chunked_content c receiving b ≡ done content b')
              × Represents b' [])
  unfolding derive_aead_state encapsulate_non_chunked_content
  response_round_trip random sending receiving body content ciphertext tag s' fuel filled same h r
        lt =
      let nonce : Bytes = random (length sending.inner.response_secret) in
      (
        nonce ++ (ciphertext ++ tag),
        collect_non_chunked o (seal_in_place c) fuel nonce content ciphertext tag
            (Response.derive_aead_context c sending.inner nonce) s' body h r lt,
        λ b rb.
            let front =
              flat_content_front receiving nonce content ciphertext tag s'
                (filled (length sending.inner.response_secret)
                  ∙ ap (λ i. length i.response_secret) same)
                (subst
                  (λ i.
                    seal_in_place c (Response.derive_aead_context c i nonce) content []
                    ≡ (ok (ciphertext, tag), s'))
                  same h) in
            ended_got content [] _ (rw front at (content-Implements receiving b _ rb)),
      )
