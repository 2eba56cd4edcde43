-- ===== src/OhttpHpke/Encapsulated/NonChunked.antt =====
-- The bytes that the stream of crates/ohttp-hpke/src/encapsulated.rs yields for content that is
-- sealed as a whole.
use pvcli.Prelude.{
  ℕ, zero, suc, ◌+◌, ◌<◌, ◌≡◌, refl, ap, Option, none, some, [], ◌++◌, Bytes, length, append_assoc,
  arith,
}
use pvcli.Octets.{Octets}
use pvcli.Poll.{Polled, ready, fail, pending, Result, ok, Outcome, done, failed, collect}
use pvcli.StreamBuf.{StreamBuf, poll_read_to_end}
use pvcli.StreamBuf.Flat as FlatBuf
use pvcli.StreamBuf.Refine.{Represents, PolledAs}
use pvcli.StreamBuf.Awaited.{poll_read_to_end-PollImplements}
use pvcli.OhttpHpke.Encapsulated.{
  Encapsulated, State, non_chunked, new_non_chunked, in_buf, sealed, poll_next,
}
use pvcli.OhttpHpke.Encapsulated as Encapsulated

-- What `collect` makes of the answer of a poll.
abbrev pub collected :
    {S : Type 0}
    → ℕ
    → (S → Polled S (Option Bytes))
    → Bytes
    → Polled S (Option Bytes)
    → Outcome S Bytes
collected fuel p acc (ready none s) = done acc s
collected fuel p acc (ready (some b) s) = collect fuel p (acc ++ b) s
collected fuel p acc (fail e s) = failed e s
collected fuel p acc (pending s) = collect fuel p acc s

pub collect_round :
    {S : Type 0} (fuel : ℕ) (p : S → Polled S (Option Bytes)) (acc : Bytes) (s : S)
    → collect (suc fuel) p acc s ≡ collected fuel p acc (p s)
unfolding collect
collect_round {S = S} fuel p acc s = go (p s)
  where
    go :
        (q : Polled S (Option Bytes))
        → (elim q [
          | ready none s' ↦ done acc s'
          | ready (some b) s' ↦ collect fuel p (acc ++ b) s'
          | fail e s' ↦ failed e s'
          | pending s' ↦ collect fuel p acc s'
        ])
          ≡ collected fuel p acc q
    go (ready none s') = refl
    go (ready (some b) s') = refl
    go (fail e s') = refl
    go (pending s') = refl

abbrev pub finished : {Se : Type 0} → Se → StreamBuf → Encapsulated Se
finished sealer s = record {
  state = Encapsulated.done;
  sealer = sealer;
  chunk = none;
  stream_buf = s;
}

module _ (o : Octets) {Se : Type 0}
    (seal_in_place : Se → (buf aad : Bytes) → Result (Bytes × Bytes) × Se) where
  abbrev at_content : Se → StreamBuf → Encapsulated Se
  at_content sealer s = record {
    state = non_chunked;
    sealer = sealer;
    chunk = none;
    stream_buf = s;
  }

  abbrev Drained : ℕ → Bytes → Bytes → Encapsulated Se → Type 0
  Drained fuel acc bytes s =
      (final : Encapsulated Se) × (collect fuel (poll_next o seal_in_place) acc s
        ≡ done (acc ++ bytes) final)

  content_step :
      (fuel n : ℕ) (acc content ciphertext aead_tag : Bytes) (sealer sealer' : Se) (s : StreamBuf)
      (q : Polled StreamBuf Bytes)
      → seal_in_place sealer content [] ≡ (ok (ciphertext, aead_tag), sealer')
      → PolledAs (FlatBuf.read_to_end content) content n q
      → ((s' : StreamBuf)
          → Represents s' content
          → length s'.stream < n
          → Drained (suc (suc fuel)) acc (ciphertext ++ aead_tag) (at_content sealer s'))
      → (final : Encapsulated Se) × (collected (suc (suc fuel)) (poll_next o seal_in_place) acc (
            in_buf (at_content sealer s) q λ c s'. sealed o seal_in_place s' c [] λ ct tag s''.
              ready (some ct) (record s'' { chunk = some tag; state = Encapsulated.done }))
          ≡ done (acc ++ (ciphertext ++ aead_tag)) final)
  unfolding collect poll_next FlatBuf.read_to_end
  content_step fuel n acc content ciphertext aead_tag sealer sealer' s (ready c s') h
        (rest, e, r, le) k =
      let same : content ≡ c = cc in
      rw (← same, h)
        (
          finished sealer' s',
          ap (λ b. done b (finished sealer' s')) (append_assoc acc ciphertext aead_tag),
        )
  content_step fuel n acc content ciphertext aead_tag sealer sealer' s (fail x s') h e k = cc
  content_step fuel n acc content ciphertext aead_tag sealer sealer' s (pending s') h (r, lt) k =
      k s' r lt

  drain_content :
      (fuel : ℕ) (acc content ciphertext aead_tag : Bytes) (sealer sealer' : Se) (s : StreamBuf)
      → seal_in_place sealer content [] ≡ (ok (ciphertext, aead_tag), sealer')
      → Represents s content
      → length s.stream + 2 < fuel
      → Drained fuel acc (ciphertext ++ aead_tag) (at_content sealer s)
  unfolding poll_next
  drain_content (suc (suc (suc fuel))) acc content ciphertext aead_tag sealer sealer' s h r lt =
      rw (collect_round (suc (suc fuel)) (poll_next o seal_in_place) acc (at_content sealer s)) (
        content_step fuel (length s.stream) acc content ciphertext aead_tag sealer sealer' s
          (poll_read_to_end s) h (poll_read_to_end-PollImplements s content r)
          (λ s' r' lt'.
            drain_content (suc (suc fuel)) acc content ciphertext aead_tag sealer sealer' s' h r'
              (omega arith)))
  drain_content (suc (suc zero)) acc content ct tag sealer sealer' s h r lt = absurd (omega arith)
  drain_content (suc zero) acc content ct tag sealer sealer' s h r lt = absurd (omega arith)
  drain_content zero acc content ct tag sealer sealer' s h r lt = absurd (omega arith)

  -- Take a stream of content that may be `Pending` anywhere, and let the sealer seal the whole of
  -- it. Then the stream of `Encapsulated::non_chunked`, polled to its end, yields the initial
  -- chunk, the ciphertext and the tag, and as many polls as the stream has entries and four more
  -- are enough.
  pub collect_non_chunked :
      (fuel : ℕ) (initial_chunk content ciphertext aead_tag : Bytes) (sealer sealer' : Se)
      (s : StreamBuf)
      → seal_in_place sealer content [] ≡ (ok (ciphertext, aead_tag), sealer')
      → Represents s content
      → length s.stream + 3 < fuel
      → (final : Encapsulated Se) × (collect fuel
            (poll_next o seal_in_place)
            []
            (new_non_chunked sealer initial_chunk s)
          ≡ done (initial_chunk ++ (ciphertext ++ aead_tag)) final)
  unfolding new_non_chunked poll_next collect
  collect_non_chunked zero initial_chunk content ct tag sealer sealer' s h r lt =
      absurd (omega arith)
  collect_non_chunked (suc fuel) initial_chunk content ct tag sealer sealer' s h r lt =
      drain_content fuel initial_chunk content ct tag sealer sealer' s h r (omega arith)
