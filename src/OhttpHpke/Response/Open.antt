-- ===== src/OhttpHpke/Response/Open.antt =====
-- What `AeadContext` seals, an equal `AeadContext` opens (crates/ohttp-hpke/src/response.rs).
use pvcli.Prelude.{◌-◌, ◌<◌, ◌≡◌, ap, Option, none, some, ◌++◌, Bytes, length, ltb, ◌==◌}
use pvcli.Prelude.{
  Bool-cases, inl, inr, arith, le→ltb, length-append, take-length, drop-length, take, drop,
  if◌then◌else◌,
}
use pvcli.Poll.{
  Error, io, upstream, message_limit_reached, Result, ok, err, aead_error, seal_error, open_error,
  panicked,
}
use pvcli.OhttpHpke.Config.{AeadId, Crypto, CryptoLaws}
use pvcli.OhttpHpke.Aead.{seal_in_place_detached, open_in_place, lifted, aead_result}
use pvcli.OhttpHpke.Nonce as Nonce
use pvcli.OhttpHpke.Nonce.{ChunkNonce, Next, nonce, limit}
use pvcli.OhttpHpke.Response.{AeadContext, map_aead, with_nonce, seal_in_place, open_in_place_with}

some_of : {A : Type 0} {x : A} (r : Option A) → aead_result r ≡ ok x → r ≡ some x
some_of (some y) h = cc
some_of none h = cc

refused : {A : Type 0} {x : A} (e : Error) → err e ≡ ok x → ⊥
refused e h = cc

panics : {A : Type 0} {x : A} → err panicked ≡ ok x → ⊥
panics e = cc

ok_only : {A : Type 0} {x : A} (e : Error) (r : Result A) → map_aead e r ≡ ok x → r ≡ ok x
ok_only e (ok x) h = h
ok_only e (err aead_error) h = cc
ok_only e (err (io k)) h = cc
ok_only e (err (upstream n)) h = cc
ok_only e (err message_limit_reached) h = cc
ok_only e (err seal_error) h = cc
ok_only e (err open_error) h = cc
ok_only e (err panicked) h = cc

module _ (c : Crypto) (laws : CryptoLaws c) where
  decrypted :
      (a : AeadId) (key n aad buf ciphertext tag : Bytes)
      → aead_result (c.encrypt a key n aad buf) ≡ ok (ciphertext, tag)
      → (if ltb (length (ciphertext ++ tag)) (c.tag_size a)
          then err aead_error
          else aead_result (
              c.decrypt a key n aad
                (take (length (ciphertext ++ tag) - c.tag_size a) (ciphertext ++ tag))
                (drop (length (ciphertext ++ tag) - c.tag_size a) (ciphertext ++ tag))))
        ≡ ok buf
  decrypted a key n aad buf ciphertext tag h =
      let e : c.encrypt a key n aad buf ≡ some (ciphertext, tag) =
        some_of (c.encrypt a key n aad buf) h in
      let sizes = laws.encrypt_sizes a key n aad buf ciphertext tag e in
      let front : length (ciphertext ++ tag) - c.tag_size a ≡ length ciphertext =
        omega (arith, length-append ciphertext tag, sizes.1) in
      rw (
        le→ltb (length (ciphertext ++ tag)) (c.tag_size a)
            (omega (arith, length-append ciphertext tag, sizes.1)),
        front,
        take-length ciphertext tag,
        drop-length ciphertext tag,
        laws.decrypt-encrypt a key n aad buf ciphertext tag e,
      )

  detached_sizes :
      (a : AeadId) (key n aad buf ciphertext tag : Bytes)
      → seal_in_place_detached c a key n aad buf ≡ ok (ciphertext, tag)
      → 0 < length tag
  unfolding seal_in_place_detached lifted
  detached_sizes a key n aad buf ciphertext tag h = elim (Bool-cases (length key == c.key_size a)) [
    | inr e ↦ absurd (panics (rw e at h))
    | inl e ↦ elim (Bool-cases (length n == c.nonce_size a)) [
      | inr f ↦ absurd (panics (rw (e, f) at h))
      | inl f ↦
          let sizes =
            laws.encrypt_sizes a key n aad buf ciphertext tag
              (some_of (c.encrypt a key n aad buf) (rw (e, f) at h)) in
          omega (arith, sizes.1, laws.tag_size_pos a)
    ]
  ]

  tag_step :
      (s s' : AeadContext) (answer : Next × ChunkNonce) (buf aad ciphertext tag : Bytes)
      → with_nonce s answer
          (λ n. map_aead seal_error (seal_in_place_detached c s.aead_id s.aead_key n aad buf))
        ≡ (ok (ciphertext, tag), s')
      → 0 < length tag
  tag_step s s' (limit e, chunk_nonce) buf aad ciphertext tag h =
      absurd (refused e (ap (λ p. p.0) h))
  tag_step s s' (nonce n, chunk_nonce) buf aad ciphertext tag h =
      detached_sizes s.aead_id s.aead_key n aad buf ciphertext tag
        (ok_only seal_error _ (ap (λ p. p.0) h))

  -- A tag that an `AeadContext` gives is not empty.
  pub seal_in_place-tag :
      (s s' : AeadContext) (buf aad ciphertext tag : Bytes)
      → seal_in_place c s buf aad ≡ (ok (ciphertext, tag), s')
      → 0 < length tag
  unfolding seal_in_place
  seal_in_place-tag s s' buf aad ciphertext tag h =
      tag_step s s' (Nonce.next s.chunk_nonce) buf aad ciphertext tag h

  opened_detached :
      (a : AeadId) (key n aad buf ciphertext tag : Bytes)
      → seal_in_place_detached c a key n aad buf ≡ ok (ciphertext, tag)
      → open_in_place c a key n aad (ciphertext ++ tag) ≡ ok buf
  unfolding seal_in_place_detached open_in_place lifted
  opened_detached a key n aad buf ciphertext tag h =
      elim (Bool-cases (length key == c.key_size a)) [
        | inr e ↦ absurd (panics (rw e at h))
        | inl e ↦ elim (Bool-cases (length n == c.nonce_size a)) [
          | inr f ↦ absurd (panics (rw (e, f) at h))
          | inl f ↦ rw (e, f) (decrypted a key n aad buf ciphertext tag (rw (e, f) at h))
        ]
      ]

  open_step :
      (s s' : AeadContext) (answer : Next × ChunkNonce) (buf aad ciphertext tag : Bytes)
      → with_nonce s answer
          (λ n. map_aead seal_error (seal_in_place_detached c s.aead_id s.aead_key n aad buf))
        ≡ (ok (ciphertext, tag), s')
      → with_nonce s answer (λ n.
        map_aead open_error (open_in_place c s.aead_id s.aead_key n aad (ciphertext ++ tag)))
        ≡ (ok buf, s')
  open_step s s' (limit e, chunk_nonce) buf aad ciphertext tag h =
      absurd (refused e (ap (λ p. p.0) h))
  open_step s s' (nonce n, chunk_nonce) buf aad ciphertext tag h =
      let sealed : seal_in_place_detached c s.aead_id s.aead_key n aad buf ≡ ok (ciphertext, tag) =
        ok_only seal_error _ (ap (λ p. p.0) h) in
      rw (opened_detached s.aead_id s.aead_key n aad buf ciphertext tag sealed)
        (ap (λ x. (ok buf, x)) (ap (λ p. p.1) h))

  -- What an `AeadContext` seals, with any associated data, the same context opens with that data:
  -- the plaintext comes back, and both sides are in the same state again, ready for the next chunk.
  pub open_in_place-seal_in_place :
      (s s' : AeadContext) (buf aad ciphertext tag : Bytes)
      → seal_in_place c s buf aad ≡ (ok (ciphertext, tag), s')
      → open_in_place_with c s (ciphertext ++ tag) aad ≡ (ok buf, s')
  unfolding seal_in_place open_in_place_with
  open_in_place-seal_in_place s s' buf aad ciphertext tag h =
      open_step s s' (Nonce.next s.chunk_nonce) buf aad ciphertext tag h
