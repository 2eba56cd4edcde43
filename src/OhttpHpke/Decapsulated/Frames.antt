-- ===== src/OhttpHpke/Decapsulated/Frames.antt =====
-- The wire form of a chunked message as crates/ohttp-hpke/src/decapsulated.rs meets it, whole or cut
-- short, and what a poll makes of it.
use pvcli.Prelude.{
  ℕ, zero, suc, ◌+◌, ◌≤◌, ◌<◌, ◌≡◌, refl, sym, Bool, true, false, Option, none, some, List, [], ◌∷◌,
  ◌++◌, Bytes, length, arith, ◌⊎◌, inl, inr,
}
use mathlib.Core.Path.{subst}
use pvcli.Octets.{Octets, OctetsLaws, max_varint}
use pvcli.Poll.{io, unexpected_eof, Polled, ready, fail, pending, Result, ok}
use pvcli.StreamBuf.{StreamBuf}
use pvcli.StreamBuf.Flat.{got, refused}
use pvcli.StreamBuf.Refine.{Represents, PolledAs}
use pvcli.HyperBinary.RoundTrip.Reads.{IsSized}
use pvcli.OhttpHpke.Encapsulated.{final_aad}
use pvcli.OhttpHpke.Decapsulated.{
  Decapsulated, State, chunk_len, chunk, nonzero, in_buf, opened, read_chunk, poll_next,
}
use pvcli.OhttpHpke.Decapsulated as Decapsulated

-- Sealed by `Se`, opened by `Op`. `Matches s p`: the opener opens what the sealer seals, and they
-- match again behind it.
pub record Opens {Se Op : Type 0}
    (seal_in_place : Se → (buf aad : Bytes) → Result (Bytes × Bytes) × Se)
    (open_in_place : Op → (buf aad : Bytes) → Result Bytes × Op) : Type 1 where
  pub Matches : Se → Op → Type 0
  pub tag_pos :
      (s s' : Se) (p : Op) (buf aad ciphertext tag : Bytes)
      → Matches s p
      → seal_in_place s buf aad ≡ (ok (ciphertext, tag), s')
      → 0 < length tag
  pub open-seal :
      (s s' : Se) (p : Op) (buf aad ciphertext tag : Bytes)
      → Matches s p
      → seal_in_place s buf aad ≡ (ok (ciphertext, tag), s')
      → (p' : Op) × (open_in_place p (ciphertext ++ tag) aad ≡ (ok buf, p')) × Matches s' p'

-- `Frames … true s ps w`: the bytes `w` are the chunks `ps`, sealed from the state `s` on, and the
-- final chunk. With `false` they are cut off behind the chunks `ps`: in front of a length, within a
-- length, or in a chunk that is not the final one.
pub data Frames (varint_bytes : ℕ → Bytes) (usize_max : ℕ) {Se : Type 0}
    (seal_in_place : Se → (buf aad : Bytes) → Result (Bytes × Bytes) × Se)
    : Bool → Se → List Bytes → Bytes → Type 0 where
  last :
      {s s' : Se} {tag : Bytes}
      → seal_in_place s [] final_aad ≡ (ok ([], tag), s')
      → Frames varint_bytes usize_max seal_in_place true s [] (varint_bytes 0 ++ tag)
  cut : {s : Se} → Frames varint_bytes usize_max seal_in_place false s [] []
  cut_length :
      {s : Se} (n : ℕ) (front back : Bytes)
      → n < max_varint
      → varint_bytes n ≡ front ++ back
      → 0 < length back
      → Frames varint_bytes usize_max seal_in_place false s [] front
  cut_chunk :
      {s : Se} (n : ℕ) (part : Bytes)
      → IsSized usize_max n
      → length part < n
      → Frames varint_bytes usize_max seal_in_place false s [] (varint_bytes n ++ part)
  more :
      {whole : Bool} {s s' : Se} {p ciphertext tag w : Bytes} {ps : List Bytes}
      → seal_in_place s p [] ≡ (ok (ciphertext, tag), s')
      → IsSized usize_max (length ciphertext + length tag)
      → Frames varint_bytes usize_max seal_in_place whole s' ps w
      → Frames varint_bytes usize_max seal_in_place whole s
          (p ∷ ps)
          (varint_bytes (length ciphertext + length tag) ++ (ciphertext ++ (tag ++ w)))

pub nonzero_pos : (n : ℕ) → 0 < n → nonzero n ≡ some n
nonzero_pos zero pos = absurd (omega arith)
nonzero_pos (suc n) pos = refl

module _ (o : Octets) (laws : OctetsLaws o) (usize_max : ℕ) {Se Op : Type 0}
    (seal_in_place : Se → (buf aad : Bytes) → Result (Bytes × Bytes) × Se)
    (open_in_place : Op → (buf aad : Bytes) → Result Bytes × Op)
    (opens : Opens seal_in_place open_in_place) where
  open laws use {varint_bytes}

  -- Where the stream stands: the chunks that are still to come, and the bytes of the buffer.
  pub data At : Bool → Op → List Bytes → State → Bytes → Type 0 where
    at_len :
        {whole : Bool} {s : Se} {p : Op} {ps : List Bytes} {w : Bytes}
        → opens.Matches s p
        → Frames varint_bytes usize_max seal_in_place whole s ps w
        → At whole p ps chunk_len w
    at_chunk :
        {whole : Bool} {s s' : Se} {p : Op} {plaintext ciphertext tag w : Bytes} {ps : List Bytes}
        → opens.Matches s p
        → seal_in_place s plaintext [] ≡ (ok (ciphertext, tag), s')
        → Frames varint_bytes usize_max seal_in_place whole s' ps w
        → At whole p
            (plaintext ∷ ps)
            (chunk (some (length ciphertext + length tag)))
            (ciphertext ++ (tag ++ w))
    at_last :
        {s s' : Se} {p : Op} {tag : Bytes}
        → opens.Matches s p
        → seal_in_place s [] final_aad ≡ (ok ([], tag), s')
        → At true p [] (chunk none) tag
    at_cut : {p : Op} {n : ℕ} {part : Bytes} → length part < n → At false p [] (chunk (some n)) part

  abbrev pub Stands : Bool → List Bytes → ℕ → Decapsulated Op → Type 0
  Stands whole ps n d =
      (w : Bytes) × At whole d.opener ps d.state w
      × Represents d.stream_buf w
      × (length d.stream_buf.stream ≤ n)

  -- What a poll may answer there: the next chunk, or the empty final chunk, or the end of the bytes
  -- where they are cut, or `Pending`.
  abbrev pub Answers : Bool → List Bytes → ℕ → Polled (Decapsulated Op) (Option Bytes) → Type 0
  Answers whole ps n (ready (some p) d) =
      ((ps' : List Bytes) × (ps ≡ p ∷ ps') × Stands whole ps' n d)
      ⊎ ((whole ≡ true) × (ps ≡ []) × (p ≡ []) × (d.state ≡ Decapsulated.done))
  Answers whole ps n (ready none d) = ⊥
  Answers whole ps n (fail e d) = (whole ≡ false) × (e ≡ io unexpected_eof)
  Answers whole ps n (pending d) = Stands whole ps n d × (length d.stream_buf.stream < n)

  abbrev pub standing : State → Op → StreamBuf → Decapsulated Op
  standing state p b = record { state = state; opener = p; stream_buf = b }

  pub chunk_step :
      (whole : Bool) (n : ℕ) (s s' : Se) (p : Op) (plaintext ciphertext tag w : Bytes)
      (ps : List Bytes) (b : StreamBuf) (q : Polled StreamBuf Bytes)
      → opens.Matches s p
      → seal_in_place s plaintext [] ≡ (ok (ciphertext, tag), s')
      → Frames varint_bytes usize_max seal_in_place whole s' ps w
      → PolledAs (got (ciphertext ++ tag) w) (ciphertext ++ (tag ++ w)) n q
      → Answers whole (plaintext ∷ ps) n (
          in_buf
            (standing (chunk (some (length ciphertext + length tag))) p b)
            q
            λ c d. opened o usize_max open_in_place [] c (record d { state = chunk_len }))
  chunk_step whole n s s' p plaintext ciphertext tag w ps b (ready c b') m h f (rest, e, r, le) =
      let (p', back, m') = opens.open-seal s s' p plaintext [] ciphertext tag m h in
      let same : ciphertext ++ tag ≡ c = cc in
      let same_rest : w ≡ rest = cc in
      rw (← same, back)
        (inl (ps, refl, (w, at_len m' f, subst (Represents b') (sym same_rest) r, le)))
  chunk_step whole n s s' p plaintext ciphertext tag w ps b (fail x b') m h f e = cc
  chunk_step whole n s s' p plaintext ciphertext tag w ps b (pending b') m h f (r, lt) =
      ((_, at_chunk m h f, r, omega arith), lt)

  pub last_step :
      (n : ℕ) (s s' : Se) (p : Op) (tag : Bytes) (b : StreamBuf) (q : Polled StreamBuf Bytes)
      → opens.Matches s p
      → seal_in_place s [] final_aad ≡ (ok ([], tag), s')
      → PolledAs (got tag []) tag n q
      → Answers true [] n (
          in_buf (standing (chunk none) p b) q λ c d.
            opened o usize_max open_in_place final_aad c (record d { state = Decapsulated.done }))
  last_step n s s' p tag b (ready c b') m h (rest, e, r, le) =
      let (p', back, m') = opens.open-seal s s' p [] final_aad [] tag m h in
      let same : tag ≡ c = cc in rw (← same, back) (inr (refl, refl, refl, refl))
  last_step n s s' p tag b (fail x b') m h e = cc
  last_step n s s' p tag b (pending b') m h (r, lt) = ((_, at_last m h, r, omega arith), lt)

  pub cut_step :
      (n k : ℕ) (p : Op) (part : Bytes) (b : StreamBuf) (q : Polled StreamBuf Bytes)
      (later : Bytes → Decapsulated Op → Polled (Decapsulated Op) (Option Bytes))
      → length part < k
      → PolledAs (refused (io unexpected_eof)) part n q
      → Answers false [] n (in_buf (standing (chunk (some k)) p b) q later)
  cut_step n k p part b (ready c b') later lt (rest, e, r, le) = cc
  cut_step n k p part b (fail x b') later lt e = (refl, cc)
  cut_step n k p part b (pending b') later lt (r, lt') = ((_, at_cut lt, r, omega arith), lt')
