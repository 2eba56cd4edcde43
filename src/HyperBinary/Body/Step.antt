-- ===== src/HyperBinary/Body/Step.antt =====
-- One poll of a body against its specification.
use pvcli.Prelude.{ℕ, ◌+◌, ◌-◌, ◌≤◌, ◌<◌, ◌≡◌, refl, ap, Option, none, some}
use pvcli.Prelude.{[], ◌∷◌, ◌++◌, Bytes, length, length-append, append_assoc, arith, leb}
use pvcli.Prelude.{
  take-append_past, drop-append_past, Bool-cases, inl, inr, leb→le, leb→lt, le→leb, lt→leb,
}
use pvcli.Octets.{Octets}
use pvcli.Poll.{Polled, ready, fail, pending, io, unexpected_eof}
use pvcli.StreamBuf.{StreamBuf}
use pvcli.StreamBuf.Flat as FlatBuf
use pvcli.StreamBuf.Flat.{Flat, Reply, got, refused, and_then, read_exact}
use pvcli.StreamBuf.Refine.{Represents}
use pvcli.StreamBuf.Awaited.{flat_exact_short}
use pvcli.StreamBuf.AtMost.{PieceOf}
use pvcli.HyperBinary.Decoder.{DecodedBodyKind, known_length}
use pvcli.HyperBinary.Body.{DecodedBody, within, in_chunk}
use pvcli.HyperBinary.Body.Flat.{chunks, body, prefixed}
use Prim.Native.Nat.{min}

-- Reading `n` bytes, of which `b` stand in front.
pub read_exact-append :
    (n : ℕ) (b rest : Bytes)
    → length b ≤ n
    → read_exact n (b ++ rest)
      ≡ and_then (λ c. FlatBuf.pure (b ++ c)) (read_exact (n - length b) rest)
unfolding read_exact
read_exact-append n b rest le = elim (Bool-cases (leb (n - length b) (length rest))) [
  | inl e ↦ rw (
    e,
    le→leb n (length (b ++ rest))
        (omega (arith, leb→le (n - length b) (length rest) e, length-append b rest)),
    take-append_past n b rest le,
    drop-append_past n b rest le,
  )
  | inr e ↦ rw (
    e,
    lt→leb n (length (b ++ rest))
        (omega (arith, leb→lt (n - length b) (length rest) e, length-append b rest)),
  )
]

-- What a poll leaves, against the flat reply `r` to the bytes still to come: `body` of what is
-- left is `r`, and fewer than `m` answers and bytes are left.
abbrev pub LeavesAs : Octets → ℕ → (Reply Bytes → Reply Bytes) → Reply Bytes → DecodedBody → Type 0
LeavesAs o m more r d =
    (bs : Bytes) × (fuel : ℕ) × Represents d.stream_buf bs
    × (length bs < fuel)
    × (r ≡ more (body o fuel d.kind bs))
    × (length d.stream_buf.stream + length bs < m)

abbrev pub behind : Bytes → Reply Bytes → Reply Bytes
behind b r = and_then (λ c. FlatBuf.pure (b ++ c)) r

abbrev pub same : Reply Bytes → Reply Bytes
same r = r

-- What one poll of a body comes to.
abbrev pub StepAs : Octets → ℕ → Reply Bytes → Polled DecodedBody (Option Bytes) → Type 0
StepAs o m r (ready none d) = (rest : Bytes) × (r ≡ got [] rest) × Represents d.stream_buf rest
StepAs o m r (ready (some b) d) = LeavesAs o m (behind b) r d
StepAs o m r (fail e d) = r ≡ refused e
StepAs o m r (pending d) = LeavesAs o m same r d

-- A reading of `n` bytes that may be taken in pieces.
pub record IsPiecewise (spec : ℕ → Flat Bytes) : Type 0 where
  pub split :
      (n : ℕ) (b rest : Bytes)
      → length b ≤ n
      → spec n (b ++ rest) ≡ behind b (spec (n - length b) rest)
  pub short : (n : ℕ) → 0 < n → spec n [] ≡ refused (io unexpected_eof)

empty-eq-nil : (bs : Bytes) → length bs ≡ 0 → bs ≡ []
empty-eq-nil [] e = refl
empty-eq-nil (x ∷ bs) e = absurd (omega arith)

pub frame_step :
    (o : Octets) (usize_max fuel m n : ℕ) (kind : ℕ → DecodedBodyKind)
    → IsPiecewise (λ k. body o fuel (kind k))
    → (bs : Bytes) (l : ℕ) (q : Polled StreamBuf Bytes) → 0 < n
    → length bs < fuel
    → l + length bs ≤ m
    → PieceOf (min n usize_max) bs l q
    → StepAs o m (body o fuel (kind n) bs) (
        within
          (kind n)
          (λ bytes s.
            ready (some bytes) (record { kind = kind (n - length bytes); stream_buf = s }))
          q)
frame_step o usize_max fuel m n kind p bs l (ready b s) pos lt le (rest, e, full, short, rep, ls) =
    (
      rest,
      fuel,
      rep,
      omega (arith, ap length e, length-append b rest),
      rw (← e) (p.split n b rest (omega arith)),
      omega (arith, ap length e, length-append b rest),
    )
frame_step o usize_max fuel m n kind p bs l (fail x s) pos lt le (e, none_left) =
    rw (empty-eq-nil bs none_left, e) (p.short n pos)
frame_step o usize_max fuel m n kind p bs l (pending s) pos lt le (rep, ls) =
    (bs, fuel, rep, lt, refl, omega arith)

pub known-IsPiecewise : (o : Octets) (fuel : ℕ) → IsPiecewise (λ k. body o fuel (known_length k))
known-IsPiecewise o fuel = record {
  split = read_exact-append;
  short = λ n pos. flat_exact_short n [] (omega arith);
}

and_then-behind :
    (b : Bytes) (r : Reply Bytes) (m : Flat Bytes)
    → and_then (λ c. prefixed c m) (behind b r) ≡ behind b (and_then (λ c. prefixed c m) r)
and_then-behind b (got c rest) m = regroup (m rest)
  where
    regroup :
        (r : Reply Bytes)
        → and_then (λ d. FlatBuf.pure ((b ++ c) ++ d)) r
          ≡ behind b (and_then (λ d. FlatBuf.pure (c ++ d)) r)
    regroup (got d rest') = ap (λ w. got w rest') (append_assoc b c d)
    regroup (refused e) = refl
    regroup FlatBuf.stuck = refl
and_then-behind b (refused e) m = refl
and_then-behind b FlatBuf.stuck m = refl

pub chunk-IsPiecewise : (o : Octets) (fuel : ℕ) → IsPiecewise (λ k. body o fuel (in_chunk k))
chunk-IsPiecewise o fuel = record {
  split = λ n b rest le.
      rw (read_exact-append n b rest le)
        (and_then-behind b (read_exact (n - length b) rest) (chunks o fuel));
  short = λ n pos. rw (flat_exact_short n [] (omega arith)) refl;
}
