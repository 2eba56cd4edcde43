-- ===== src/OhttpHpke/Decapsulated/Opening.antt =====
-- The stream of crates/ohttp-hpke/src/decapsulated.rs, polled to its end on the wire form of a
-- chunked message, whole or cut short.
use pvcli.Prelude.{
  ℕ, zero, suc, ◌+◌, ◌<◌, ◌≡◌, refl, sym, ap, ◌∙◌, Bool, true, false, Option, none, some, List, [],
  ◌∷◌, ◌++◌, Bytes, length, append_assoc, append-nil, arith, inl, inr,
}
use pvcli.Octets.{Octets, OctetsLaws}
use pvcli.Poll.{io, unexpected_eof, Polled, ready, fail, pending, Result, ok, Outcome, collect}
use pvcli.Poll as Poll
use pvcli.StreamBuf.{StreamBuf}
use pvcli.StreamBuf.Refine.{Represents}
use pvcli.OhttpHpke.Encapsulated.NonChunked.{collected, collect_round}
use pvcli.OhttpHpke.Decapsulated.{
  Decapsulated, State, chunk_len, chunk, nonzero, in_buf, opened, read_chunk, poll_next, new,
}
use pvcli.OhttpHpke.Decapsulated as Decapsulated
use pvcli.OhttpHpke.Decapsulated.Polls.{poll-Answers}
use pvcli.OhttpHpke.Decapsulated.Frames.{Opens, Frames, At, at_len, Answers}

-- The chunks, one behind the other.
abbrev pub joined : List Bytes → Bytes
joined [] = []
joined (p ∷ ps) = p ++ joined ps

module _ (o : Octets) (laws : OctetsLaws o) (usize_max : ℕ) {Se Op : Type 0}
    (seal_in_place : Se → (buf aad : Bytes) → Result (Bytes × Bytes) × Se)
    (open_in_place : Op → (buf aad : Bytes) → Result Bytes × Op)
    (opens : Opens seal_in_place open_in_place) where
  open laws use {varint_bytes}

  -- The end of a whole message is the bytes of its chunks; of one that is cut it is an error.
  abbrev pub Ending : Bool → Bytes → Outcome (Decapsulated Op) Bytes → Type 0
  Ending true bytes q = (d : Decapsulated Op) × (q ≡ Poll.done bytes d)
  Ending false bytes q = (d : Decapsulated Op) × (q ≡ Poll.failed (io unexpected_eof) d)

  ended_poll :
      (d : Decapsulated Op)
      → d.state ≡ Decapsulated.done
      → poll_next o usize_max open_in_place d ≡ ready none d
  unfolding poll_next
  ended_poll d e = rw e refl

  all_read :
      (fuel : ℕ) (acc : Bytes) (d : Decapsulated Op)
      → d.state ≡ Decapsulated.done
      → collect (suc fuel) (poll_next o usize_max open_in_place) acc d ≡ Poll.done acc d
  all_read fuel acc d e =
      rw (collect_round fuel (poll_next o usize_max open_in_place) acc d, ended_poll d e) refl

  Answers-step :
      (whole : Bool) (fuel n : ℕ) (ps : List Bytes) (acc : Bytes)
      (q : Polled (Decapsulated Op) (Option Bytes))
      → Answers o laws usize_max seal_in_place open_in_place opens whole ps n q
      → n + length ps < fuel
      → ((p : Op) (ps' : List Bytes) (state : State) (w acc' : Bytes) (b : StreamBuf)
          → At o laws usize_max seal_in_place open_in_place opens whole p ps' state w
          → Represents b w
          → length b.stream + length ps' + 1 < fuel
          → Ending whole (acc' ++ joined ps') (
              collect fuel
                (poll_next o usize_max open_in_place)
                acc'
                (record { state = state; opener = p; stream_buf = b })))
      → Ending whole (acc ++ joined ps) (collected fuel (poll_next o usize_max open_in_place) acc q)
  Answers-step whole fuel n ps acc (ready (some p) d) (inl (ps', e, (w, at_w, r, le))) lt k =
      let size : length ps ≡ suc (length ps') = ap length e in
      let all : (acc ++ p) ++ joined ps' ≡ acc ++ joined ps =
        append_assoc acc p (joined ps') ∙ ap (λ l. acc ++ joined l) (sym e) in
      rw all at (k d.opener ps' d.state w (acc ++ p) d.stream_buf at_w r (omega (arith, size)))
  Answers-step whole zero n ps acc q a lt k = absurd (omega arith)
  Answers-step whole (suc fuel) n ps acc (ready (some p) d) (inr (t, e, empty, finished)) lt k =
      rw (t, e, empty, append-nil acc) (d, all_read fuel acc d finished)
  Answers-step whole fuel n ps acc (ready none d) a lt k = absurd a
  Answers-step whole fuel n ps acc (fail x d) (t, e) lt k = rw (t, e) (d, refl)
  Answers-step whole fuel n ps acc (pending d) ((w, at_w, r, le), less) lt k =
      k d.opener ps d.state w acc d.stream_buf at_w r (omega arith)

  drain_opened :
      (fuel : ℕ) (whole : Bool) (p : Op) (ps : List Bytes) (state : State) (w acc : Bytes)
      (b : StreamBuf)
      → At o laws usize_max seal_in_place open_in_place opens whole p ps state w
      → Represents b w
      → length b.stream + length ps + 1 < fuel
      → Ending whole (acc ++ joined ps) (
          collect fuel
            (poll_next o usize_max open_in_place)
            acc
            (record { state = state; opener = p; stream_buf = b }))
  drain_opened zero whole p ps state w acc b at_w r lt = absurd (omega arith)
  drain_opened (suc fuel) whole p ps state w acc b at_w r lt =
      let d : Decapsulated Op = record { state = state; opener = p; stream_buf = b } in
      rw (collect_round fuel (poll_next o usize_max open_in_place) acc d) (
        Answers-step whole fuel (length b.stream) ps acc _
          (poll-Answers o laws usize_max seal_in_place open_in_place opens whole p ps state w b at_w
            r)
          (omega arith)
          (λ p' ps' state' w' acc' b' at' r' lt'.
            drain_opened fuel whole p' ps' state' w' acc' b' at' r' lt'))

  -- Let a StreamBuf stand for the wire form of a chunked message, and let the opener match the
  -- sealer of its chunks. Then the stream of `Decapsulated`, polled to its end, gives the bytes of
  -- the chunks if the message is whole; and if it is cut off in front of the final chunk, between
  -- two chunks, within one or within its length, then it fails with `UnexpectedEof` and never ends
  -- as if it were whole.
  -- As many polls as the stream has entries and the message chunks, and two more, are enough.
  pub collect-Frames :
      (fuel : ℕ) (whole : Bool) (s : Se) (p : Op) (ps : List Bytes) (w : Bytes) (b : StreamBuf)
      → opens.Matches s p
      → Frames varint_bytes usize_max seal_in_place whole s ps w
      → Represents b w
      → length b.stream + length ps + 1 < fuel
      → Ending whole (joined ps) (collect fuel (poll_next o usize_max open_in_place) [] (new p b))
  unfolding new
  collect-Frames fuel whole s p ps w b m f r lt =
      drain_opened fuel whole p ps chunk_len w [] b (at_len m f) r lt
