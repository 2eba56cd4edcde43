-- ===== src/OhttpHpke/RoundTrip/Openers.antt =====
-- The two openers of crates/ohttp-hpke open what their sealers seal: `AeadContext` for a response
-- (src/response.rs), `RequestOpener` for a request (src/server.rs).
use pvcli.Prelude.{
  ◌-◌, ◌≡◌, refl, ◌++◌, Bytes, length, length-append, take-length, drop-length, le→ltb, arith,
}
use mathlib.Core.Path.{subst}
use pvcli.Octets.{Octets}
use pvcli.Poll.{ok}
use pvcli.OhttpHpke.Config.{Crypto, CryptoLaws}
use pvcli.OhttpHpke.Hpke.{Hpke, HpkeLaws}
use pvcli.OhttpHpke.Response.{seal_in_place, open_in_place_with}
use pvcli.OhttpHpke.Response.Open.{open_in_place-seal_in_place, seal_in_place-tag}
use pvcli.OhttpHpke.Server.{RequestOpener, open_in_place}
use pvcli.OhttpHpke.Decapsulated.Frames.{Opens}

pub aead_opens : (c : Crypto) → CryptoLaws c → Opens (seal_in_place c) (open_in_place_with c)
aead_opens c laws = record {
  Matches = λ s p. s ≡ p;
  tag_pos =
      λ s s' p buf aad ciphertext tag e h. seal_in_place-tag c laws s s' buf aad ciphertext tag h;
  open-seal = λ s s' p buf aad ciphertext tag e h. (
    s',
    subst (λ x. open_in_place_with c x (ciphertext ++ tag) aad ≡ (ok buf, s')) e
        (open_in_place-seal_in_place c laws s s' buf aad ciphertext tag h),
    refl,
  );
}

module _ (o : Octets) (c : Crypto) (claws : CryptoLaws c) (h : Hpke) (laws : HpkeLaws c h) where
  abbrev pub Matching : h.Sender → RequestOpener h → Type 0
  Matching s p = laws.Paired p.aead_id s p.aead_ctx

  pub request_open :
      (s s' : h.Sender) (p : RequestOpener h) (buf aad ciphertext tag : Bytes)
      → Matching s p
      → h.seal_in_place_detached s buf aad ≡ (ok (ciphertext, tag), s')
      → (p' : RequestOpener h) × (open_in_place o c h p (ciphertext ++ tag) aad ≡ (ok buf, p'))
        × Matching s' p'
  unfolding open_in_place
  request_open s s' p buf aad ciphertext tag m e =
      let (sized, (receiver', back, m')) =
        laws.open_Paired p.aead_id s s' p.aead_ctx buf aad ciphertext tag m e in
      let front : length (ciphertext ++ tag) - c.tag_size p.aead_id ≡ length ciphertext =
        omega (arith, length-append ciphertext tag, sized) in
      (
        record p { aead_ctx = receiver' },
        rw
            (
              le→ltb (length (ciphertext ++ tag)) (c.tag_size p.aead_id)
                  (omega (arith, length-append ciphertext tag, sized)),
              front,
              take-length ciphertext tag,
              drop-length ciphertext tag,
              back,
            )
            refl,
        m',
      )

  abbrev pub hpke_opens : Opens h.seal_in_place_detached (open_in_place o c h)
  hpke_opens = record {
    Matches = Matching;
    tag_pos = λ s s' p buf aad ciphertext tag m e.
        let (sized, rest) = laws.open_Paired p.aead_id s s' p.aead_ctx buf aad ciphertext tag m e in
        omega (arith, sized, claws.tag_size_pos p.aead_id);
    open-seal = request_open;
  }
