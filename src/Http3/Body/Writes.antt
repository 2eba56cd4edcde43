-- ===== src/Http3/Body/Writes.antt =====
-- What `H3Body::poll_write` of src/client/http3/body.rs queues.
use pvcli.Prelude.{
  ℕ, ◌+◌, ◌≤◌, ◌<◌, ◌≡◌, refl, sym, ap, ◌∙◌, Bool, true, false, ◌&&◌, ◌||◌, Option, none, some,
  List, [], ◌∷◌, ◌++◌, append_assoc, append-nil, Bytes, length, length-append, take, take-length,
  ◌==◌, ==→eq, if◌then◌else◌, Bool-cases, ◌⊎◌, inl, inr, arith,
}
use pvcli.Http3.Body.{
  Frame, Reserve, no_stream_state, granted, dropped, refused, not_yet, H3Body, Answer, ready, error,
  pending, unwrap_or_default, sent_or_pending, queued, write_loop, chunks_or_fin, poll_write,
}
use pvcli.Http3.Body.Frames.{
  joined, bytes_of, chunks_or_fin-joined, NoFin, OnlyLastFin, behind-OnlyLastFin,
}

-- From the body `s`, with `cs` to be written behind `k` bytes: what is queued is the front of `cs`,
-- and the answer counts it; or `fin` is queued, and then it is all of `cs`. `Pending` is only
-- answered where nothing is queued.
abbrev Written : (k : ℕ) → Option ℕ → Bool → List Bytes → H3Body → Answer ℕ × H3Body → Type 0
Written k sent fin cs s (ready n, s') =
    (fs : List Frame) × (left : Bytes) × (s'.sent ≡ s.sent ++ fs)
    × (bytes_of fs ++ left ≡ joined cs)
    × (((s'.wrote_fin ≡ false) × NoFin fs × (n ≡ k + length (bytes_of fs)))
        ⊎ ((s'.wrote_fin ≡ true) × OnlyLastFin fs × (fin ≡ true) × (left ≡ [])))
Written k sent fin cs s (error e, s') = e ≡ no_stream_state
Written k sent fin cs s (pending, s') =
    (sent ≡ none) × (s'.sent ≡ s.sent) × (s'.wrote_fin ≡ s.wrote_fin)

-- Nothing more is queued.
paused-Written :
    (k : ℕ) (sent : Option ℕ) (fin : Bool) (cs : List Bytes) (s : H3Body) (rest : List Reserve)
    → unwrap_or_default sent ≡ k
    → s.wrote_fin ≡ false
    → Written k sent fin cs s (sent_or_pending sent, record s { outbound = rest })
paused-Written k none fin cs s rest e w = (refl, refl, refl)
paused-Written k (some n) fin cs s rest e w =
    ([], joined cs, sym (append-nil s.sent), refl, inl (w, tt, omega (arith, e)))

behind-Written :
    (k : ℕ) (fin : Bool) (chunk : Bytes) (cs : List Bytes) (s : H3Body) (answers : List Reserve)
    (sent : Option ℕ) (q : Answer ℕ × H3Body)
    → Written (k + length chunk) (some (k + length chunk)) fin cs (queued chunk false answers s) q
    → Written k sent fin (chunk ∷ cs) s q
behind-Written k fin chunk cs s answers sent (ready n, s') (fs, left, e, all, rest) =
    let f : Frame = record { bytes = chunk; fin = false } in
    (
      f ∷ fs,
      left,
      e ∙ append_assoc s.sent (f ∷ []) fs,
      append_assoc chunk (bytes_of fs) left ∙ ap (λ l. chunk ++ l) all,
      elim rest [
        | inl (w, fins, count) ↦
            inl (w, (refl, fins), omega (arith, count, length-append chunk (bytes_of fs)))
        | inr (w, fins, last, none_left) ↦
            inr (w, behind-OnlyLastFin f fs refl fins, last, none_left)
      ],
    )
behind-Written k fin chunk cs s answers sent (error x, s') h = h
behind-Written k fin chunk cs s answers sent (pending, s') (e, same, w) = absurd (some_none e)
  where
    some_none : {n : ℕ} → some n ≡ none → ⊥
    some_none e = cc

granted-Written :
    (k : ℕ) (last fin : Bool) (chunk : Bytes) (cs : List Bytes) (s : H3Body)
    (answers : List Reserve) (sent : Option ℕ) (later : H3Body → Answer ℕ × H3Body)
    → s.wrote_fin ≡ false
    → (last ≡ true → (fin ≡ true) × (joined cs ≡ []))
    → Written
        (k + length chunk)
        (some (k + length chunk))
        fin
        cs
        (queued chunk false answers s)
        (later (queued chunk false answers s))
    → Written k sent fin (chunk ∷ cs) s (
        if last
        then (ready k, queued chunk last answers s)
        else later (queued chunk last answers s))
granted-Written k true fin chunk cs s answers sent later w h rest =
    let (is_fin, none_left) = h refl in
    let f : Frame = record { bytes = chunk; fin = true } in
    (
      f ∷ [],
      [],
      refl,
      append-nil (chunk ++ []) ∙ ap (λ l. chunk ++ l) (sym none_left),
      inr (or_true s.wrote_fin, refl, is_fin, refl),
    )
  where
    or_true : (b : Bool) → (b || true) ≡ true
    or_true true = refl
    or_true false = refl
granted-Written k false fin chunk cs s answers sent later w h rest =
    behind-Written k fin chunk cs s answers sent (later (queued chunk false answers s)) rest

last_chunk :
    (k total : ℕ) (fin : Bool) (chunk : Bytes) (cs : List Bytes)
    → total ≡ k + length (chunk ++ joined cs)
    → ((k + length chunk == total) && fin) ≡ true
    → (fin ≡ true) × (joined cs ≡ [])
last_chunk k total fin chunk cs e h = elim (Bool-cases (k + length chunk == total)) [
  | inl same ↦ (
    rw same at h,
    nothing (joined cs)
        (omega (arith, e, ==→eq (k + length chunk) total same, length-append chunk (joined cs))),
  )
  | inr other ↦ absurd (false_true (rw other at h))
]
  where
    nothing : (b : Bytes) → length b ≡ 0 → b ≡ []
    nothing [] z = refl
    nothing (x ∷ b) z = absurd (omega (arith, z))

    false_true : false ≡ true → ⊥
    false_true z = cc

loop-Written :
    (total : ℕ) (fin : Bool) (answers : List Reserve) (k : ℕ) (sent : Option ℕ) (cs : List Bytes)
    (s : H3Body)
    → unwrap_or_default sent ≡ k
    → s.wrote_fin ≡ false
    → total ≡ k + length (joined cs)
    → Written k sent fin cs s (write_loop total fin answers sent cs s)
unfolding write_loop
loop-Written total fin answers k sent [] s e w t =
    ([], [], sym (append-nil s.sent), refl, inl (w, tt, omega (arith, e)))
loop-Written total fin [] k sent (chunk ∷ cs) s e w t =
    paused-Written k sent fin (chunk ∷ cs) s [] e w
loop-Written total fin (not_yet ∷ answers) k sent (chunk ∷ cs) s e w t =
    paused-Written k sent fin (chunk ∷ cs) s answers e w
loop-Written total fin (refused ∷ answers) k sent (chunk ∷ cs) s e w t = refl
loop-Written total fin (dropped ∷ answers) k sent (chunk ∷ cs) s e w t = refl
loop-Written total fin (granted ∷ answers) k sent (chunk ∷ cs) s e w t = rw e (
    granted-Written k ((k + length chunk == total) && fin) fin chunk cs s answers sent
      (write_loop total fin answers (some (k + length chunk)) cs) w
      (last_chunk k total fin chunk cs t)
      (loop-Written total fin answers (k + length chunk) (some (k + length chunk)) cs
        (queued chunk false answers s) refl (rw w refl)
        (omega (arith, t, length-append chunk (joined cs)))))

-- What a write of `buf` leaves behind, by what it answers.
abbrev pub Queued : Bytes → Bool → H3Body → Answer ℕ × H3Body → Type 0
Queued buf fin s (ready n, s') =
    (fs : List Frame) × (s'.sent ≡ s.sent ++ fs)
    × (((s'.wrote_fin ≡ false) × NoFin fs × (bytes_of fs ≡ take n buf) × (n ≤ length buf))
        ⊎ ((s'.wrote_fin ≡ true) × OnlyLastFin fs × (fin ≡ true) × (bytes_of fs ≡ buf)))
Queued buf fin s (error e, s') = e ≡ no_stream_state
Queued buf fin s (pending, s') = (s'.sent ≡ s.sent) × (s'.wrote_fin ≡ false)

from_Written :
    (buf : Bytes) (fin : Bool) (cs : List Bytes) (s : H3Body) (q : Answer ℕ × H3Body)
    → joined cs ≡ buf
    → s.wrote_fin ≡ false
    → Written 0 none fin cs s q
    → Queued buf fin s q
from_Written buf fin cs s (ready n, s') e w (fs, left, sent, all, inl (open_end, fins, count)) =
    let whole : bytes_of fs ++ left ≡ buf = all ∙ e in
    let size : n ≡ length (bytes_of fs) = omega (arith, count) in
    (
      fs,
      sent,
      inl (
        open_end,
        fins,
        rw (size, ← whole) (sym (take-length (bytes_of fs) left)),
        rw (size, ← whole) (omega (arith, length-append (bytes_of fs) left)),
      ),
    )
from_Written buf fin cs s (ready n, s') e w
      (fs, left, sent, all, inr (ended, fins, is_fin, none_left)) =
    let same : bytes_of fs ≡ bytes_of fs ++ left =
      sym (ap (λ l. bytes_of fs ++ l) none_left ∙ append-nil (bytes_of fs)) in
    (fs, sent, inr (ended, fins, is_fin, same ∙ all ∙ e))
from_Written buf fin cs s (error x, s') e w h = h
from_Written buf fin cs s (pending, s') e w (none_sent, sent, kept) = (sent, kept ∙ w)

-- A write to a body whose `fin` is not written, whatever the channel answers. Where it answers
-- `Ok(n)`, the frames that it has queued are the first `n` bytes of the buffer in order, none of
-- them with `fin`; or, if `fin` was asked for and is now written, the whole buffer, and the last
-- frame and no other carries `fin`. Where it is `Pending` it has queued nothing, and its only error
-- is that the stream is gone.
pub poll_write-Queued :
    (max_buf_size : ℕ) (buf : Bytes) (fin : Bool) (s : H3Body)
    → 0 < max_buf_size
    → s.wrote_fin ≡ false
    → Queued buf fin s (poll_write max_buf_size buf fin s)
unfolding poll_write
poll_write-Queued max_buf_size buf fin s pos w =
    let cs : List Bytes = chunks_or_fin max_buf_size buf fin in
    let all : joined cs ≡ buf = chunks_or_fin-joined max_buf_size buf fin pos in
    simp w (
      from_Written buf fin cs s _ all w (
        loop-Written (length buf) fin s.outbound 0 none cs s refl w (omega (arith, ap length all))))
