-- ===== src/HyperBinary/Body/Collect.antt =====
-- Reading a body to its end gives the bytes that its specification cuts out, whatever the frames.
use pvcli.Prelude.{
  ℕ, zero, suc, ◌+◌, ◌≤◌, ◌<◌, ◌≡◌, refl, sym, ap, ◌∙◌, Bool, true, false, Option, none, some,
}
use pvcli.Prelude.{
  [], ◌∷◌, ◌++◌, Bytes, length, length-drop, append_assoc, append-nil, arith, le→leb, if◌then◌else◌,
  drop,
}
use pvcli.Octets.{Octets, OctetsLaws, IsReader}
use pvcli.Poll.{Polled, ready, fail, pending, Outcome, done, failed, stuck, collect}
use pvcli.StreamBuf.{StreamBuf}
use pvcli.StreamBuf.Flat as FlatBuf
use pvcli.StreamBuf.Flat.{Flat, Reply, got, refused, and_then, read_exact, has_more_data}
use pvcli.StreamBuf.Refine.{Represents, PolledAs}
use pvcli.StreamBuf.Awaited.{poll_has_more_data-PollImplements}
use pvcli.StreamBuf.AtMost.{poll_read_at_most-PieceOf}
use pvcli.StreamOctets.{poll_decode_varint_u64}
use pvcli.StreamOctets.Flat.{with_octets, from_read}
use pvcli.StreamOctets.Refine.{poll_decode_varint_u64-PollImplements}
use pvcli.HyperBinary.Decoder.{DecodedBodyKind, known_length, indeterminate_length}
use pvcli.HyperBinary.Body.{DecodedBody, poll_frame, frame_of, within, in_chunk, start_chunk}
use pvcli.HyperBinary.Body.Flat.{chunks, body, chunk_of}
use pvcli.HyperBinary.Body.Step.{
  LeavesAs, StepAs, behind, same, frame_step, known-IsPiecewise, chunk-IsPiecewise,
}
use Prim.Native.Nat.{min}
use mathlib.Core.Path.{subst}

-- The result of reading a body agrees with the flat reply `r` to the bytes of the body.
abbrev pub CollectsAs : Bytes → Reply Bytes → Outcome DecodedBody Bytes → Type 0
CollectsAs acc r (done out d) =
    (c : Bytes) × (rest : Bytes) × (out ≡ acc ++ c)
    × (r ≡ got c rest)
    × Represents d.stream_buf rest
CollectsAs acc r (failed e d) = r ≡ refused e
CollectsAs acc r stuck = ⊥

-- A piece more in the accumulator is a piece less to come.
collects_more :
    (acc b : Bytes) (r : Reply Bytes) (q : Outcome DecodedBody Bytes)
    → CollectsAs (acc ++ b) r q
    → CollectsAs acc (behind b r) q
collects_more acc b r (done out d) (c, rest, e, f, h) =
    (b ++ c, rest, e ∙ append_assoc acc b c, rw f refl, h)
collects_more acc b r (failed e d) h = rw h refl
collects_more acc b r stuck h = h

has_more_rest :
    (bs rest : Bytes) (more : Bool) → has_more_data bs ≡ got more rest → (length rest ≡ length bs)
unfolding has_more_data
has_more_rest bs rest more e = cc

and_then_nothing : (r : Reply Bytes) → behind [] r ≡ r
and_then_nothing (got c rest) = refl
and_then_nothing (refused e) = refl
and_then_nothing FlatBuf.stuck = refl

pub body-zero :
    (o : Octets) (fuel : ℕ) (bs : Bytes) → body o fuel (in_chunk 0) bs ≡ chunks o fuel bs
unfolding read_exact
body-zero o fuel bs = rw (le→leb 0 (length bs) (omega arith)) (and_then_nothing (chunks o fuel bs))

with_octets_shorter :
    (get : Bytes → Option (ℕ × ℕ)) (reader : IsReader get) (bs rest : Bytes) (v : ℕ)
    → with_octets get bs ≡ got v rest
    → length rest < length bs
unfolding with_octets
with_octets_shorter get reader bs rest v e = go (get bs) refl e
  where
    go : (q : Option (ℕ × ℕ)) → get bs ≡ q → from_read bs q ≡ got v rest → length rest < length bs
    go none f h = cc
    go (some (w, n)) f h =
        let left : drop n bs ≡ rest = cc in
        omega (
          arith,
          ap length left,
          length-drop n bs,
          reader.progress bs w n f,
          reader.within bs w n f,
        )

module _ (o : Octets) (laws : OctetsLaws o) (usize_max : ℕ) (room : 0 < usize_max) where
  start_step :
      (fuel m v l : ℕ) (s : StreamBuf) (rest : Bytes)
      → Represents s rest
      → length rest < fuel
      → length s.stream + length rest ≤ m
      → StepAs o m (chunk_of (chunks o fuel) v rest) (start_chunk o usize_max v s)
  start_step fuel m zero l s rest rep lt le = (rest, refl, rep)
  start_step fuel m (suc k) l s rest rep lt le =
      frame_step o usize_max fuel m (suc k) in_chunk (chunk-IsPiecewise o fuel) rest _ _
        (omega arith) lt le
        (poll_read_at_most-PieceOf (min (suc k) usize_max) s rest (omega (arith, room)) rep)

  length_step :
      (fuel m n : ℕ) (bs : Bytes) (q : Polled StreamBuf ℕ)
      → length bs < suc fuel
      → n + length bs ≤ m
      → chunks o (suc fuel) bs ≡ and_then (chunk_of (chunks o fuel)) (with_octets o.get_varint bs)
      → PolledAs (with_octets o.get_varint bs) bs n q
      → StepAs o m (chunks o (suc fuel) bs) (within (in_chunk 0) (start_chunk o usize_max) q)
  length_step fuel m n bs (ready v s) lt le eq (rest, e, rep, ls) =
      let shorter : length rest < length bs =
        with_octets_shorter o.get_varint laws.varint_reader bs rest v e in
      rw (eq, e) (start_step fuel m v n s rest rep (omega arith) (omega arith))
  length_step fuel m n bs (fail x s) lt le eq e = rw (eq, e) refl
  length_step fuel m n bs (pending s) lt le eq (rep, ls) =
      (bs, suc fuel, rep, lt, sym (body-zero o (suc fuel) bs), omega arith)

  more_step :
      (fuel m n : ℕ) (bs : Bytes) (q : Polled StreamBuf Bool)
      → length bs < suc fuel
      → n + length bs ≤ m
      → PolledAs (has_more_data bs) bs n q
      → StepAs o m (chunks o (suc fuel) bs) (
          within
            (in_chunk 0)
            (λ more s'.
              if more
              then within (in_chunk 0) (start_chunk o usize_max) (poll_decode_varint_u64 o s')
              else start_chunk o usize_max 0 s')
            q)
  unfolding has_more_data chunks
  more_step fuel m n [] (ready true s) lt le (rest, e, rep, ls) = cc
  more_step fuel m n (x ∷ bs) (ready true s) lt le (rest, e, rep, ls) =
      let all : rest ≡ x ∷ bs = cc in
      let rep' : Represents s (x ∷ bs) = subst (Represents s) all rep in
      length_step fuel m _ (x ∷ bs) _ lt (omega arith) refl
        (poll_decode_varint_u64-PollImplements o laws s (x ∷ bs) rep')
  more_step fuel m n [] (ready false s) lt le (rest, e, rep, ls) =
      let all : rest ≡ [] = cc in ([], refl, subst (Represents s) all rep)
  more_step fuel m n (x ∷ bs) (ready false s) lt le (rest, e, rep, ls) = cc
  more_step fuel m n bs (fail x s) lt le e = cc
  more_step fuel m n bs (pending s) lt le (rep, ls) =
      (bs, suc fuel, rep, lt, sym (body-zero o (suc fuel) bs), omega arith)

  frame_of-StepAs :
      (kind : DecodedBodyKind) (fuel : ℕ) (s : StreamBuf) (bs : Bytes)
      → Represents s bs
      → length bs < fuel
      → StepAs o (length s.stream + length bs) (body o fuel kind bs) (frame_of o usize_max kind s)
  unfolding frame_of
  frame_of-StepAs (known_length zero) fuel s bs rep lt =
      (bs, unfold read_exact in rw (le→leb 0 (length bs) (omega arith)) refl, rep)
  frame_of-StepAs (known_length (suc n)) fuel s bs rep lt =
      frame_step o usize_max fuel _ (suc n) known_length (known-IsPiecewise o fuel) bs _ _
        (omega arith) lt (omega arith)
        (poll_read_at_most-PieceOf (min (suc n) usize_max) s bs (omega (arith, room)) rep)
  frame_of-StepAs (indeterminate_length none) fuel s bs rep lt = (bs, refl, rep)
  frame_of-StepAs (indeterminate_length (some zero)) zero s bs rep lt = absurd (omega arith)
  frame_of-StepAs (indeterminate_length (some zero)) (suc fuel) s bs rep lt =
      rw (body-zero o (suc fuel) bs)
        (more_step fuel _ _ bs _ lt (omega arith) (poll_has_more_data-PollImplements s bs rep))
  frame_of-StepAs (indeterminate_length (some (suc n))) fuel s bs rep lt =
      frame_step o usize_max fuel _ (suc n) in_chunk (chunk-IsPiecewise o fuel) bs _ _ (omega arith)
        lt (omega arith)
        (poll_read_at_most-PieceOf (min (suc n) usize_max) s bs (omega (arith, room)) rep)

  collect_step :
      (m : ℕ) (acc : Bytes) (r : Reply Bytes) (q : Polled DecodedBody (Option Bytes))
      (later : Bytes → DecodedBody → Outcome DecodedBody Bytes)
      → StepAs o m r q
      → ((acc : Bytes) (d : DecodedBody) (r : Reply Bytes)
          → LeavesAs o m same r d
          → CollectsAs acc r (later acc d))
      → CollectsAs acc r (elim q [
        | ready none d ↦ done acc d
        | ready (some b) d ↦ later (acc ++ b) d
        | fail e d ↦ failed e d
        | pending d ↦ later acc d
      ])
  collect_step m acc r (ready none d) later (rest, e, rep) k =
      ([], rest, sym (append-nil acc), e, rep)
  collect_step m acc r (ready (some b) d) later (bs, fuel, rep, lt, e, le) k =
      rw e (collects_more acc b _ _ (k (acc ++ b) d _ (bs, fuel, rep, lt, refl, le)))
  collect_step m acc r (fail e d) later h k = h
  collect_step m acc r (pending d) later h k = k acc d r h

  collect-CollectsAs :
      (m fuel : ℕ) (acc : Bytes) (d : DecodedBody) (r : Reply Bytes)
      → m ≤ fuel
      → LeavesAs o m same r d
      → CollectsAs acc r (collect fuel (poll_frame o usize_max) acc d)
  unfolding collect poll_frame
  collect-CollectsAs m zero acc d r le (bs, f, rep, lt, e, ml) = absurd (omega arith)
  collect-CollectsAs m (suc fuel) acc d r le (bs, f, rep, lt, e, ml) = rw e (
      collect_step (length d.stream_buf.stream + length bs) acc _ _ _
        (frame_of-StepAs d.kind f d.stream_buf bs rep lt)
        (λ acc' d' r'.
          collect-CollectsAs (length d.stream_buf.stream + length bs) fuel acc' d' r'
            (omega arith)))

  -- A body of any kind on a clean stream, polled to its end with enough polls, yields exactly the
  -- bytes that its flat specification cuts out of the content, with the same bytes left
  -- behind it, and fails exactly where that fails, with the same error. So neither the frames nor
  -- the chunks of the stream show in the body.
  pub collect_body :
      (kind : DecodedBodyKind) (s : StreamBuf) (bs : Bytes) (fuel polls : ℕ)
      → Represents s bs
      → length bs < fuel
      → length s.stream + length bs < polls
      → CollectsAs []
          (body o fuel kind bs)
          (collect polls (poll_frame o usize_max) [] (record { kind = kind; stream_buf = s }))
  collect_body kind s bs fuel polls rep lt le =
      collect-CollectsAs polls polls [] _ _ (omega arith) (bs, fuel, rep, lt, refl, le)
