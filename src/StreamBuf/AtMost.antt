-- ===== src/StreamBuf/AtMost.antt =====
-- `poll_read_at_most` on a clean stream: a non-empty piece of the content, not longer than asked.
use pvcli.Prelude.{ℕ, zero, suc, ◌≤◌, ◌<◌, ◌≡◌, refl, false}
use pvcli.Prelude.{
  List, [], ◌∷◌, ◌++◌, Bytes, length, length-append, length-take, length-drop, drop, ◌==◌,
}
use pvcli.Prelude.{le→ltb, arith}
use pvcli.Poll.{Polled, ready, fail, pending, io, unexpected_eof}
use pvcli.StreamBuf.{Event, not_ready, item, broken, StreamBuf, poll_read_at_most, split_to}
use pvcli.StreamBuf.Content.{stream_bytes, split-content}
use pvcli.StreamBuf.Refine.{IsClean, Represents}
use Prim.Native.Nat.{min}
use mathlib.Core.Path.{subst}

-- A piece `b` of the content `bs`, with what is left; the end only if nothing is left.
abbrev pub PieceOf : ℕ → Bytes → ℕ → Polled StreamBuf Bytes → Type 0
PieceOf len bs n (ready b s) =
    (rest : Bytes) × (b ++ rest ≡ bs)
    × (0 < length b)
    × (length b ≤ len)
    × Represents s rest
    × (length s.stream ≤ n)
PieceOf len bs n (fail e s) = (e ≡ io unexpected_eof) × (length bs ≡ 0)
PieceOf len bs n (pending s) = Represents s bs × (length s.stream < n)

cut_piece :
    (len max : ℕ) (b : Bytes) (es : List Event) (n : ℕ)
    → 0 < len
    → 0 < length b
    → length es ≤ n
    → IsClean es
    → length (b ++ stream_bytes es) ≤ max
    → PieceOf len
        (b ++ stream_bytes es)
        n
        (split_to (min len (length b)) (record { max_buf_size = max; buf = b; stream = es }))
cut_piece len max b es n pos full le c small =
    let k = min len (length b) in
    (
      drop k b ++ stream_bytes es,
      split-content k b (stream_bytes es),
      omega (arith, length-take k b),
      omega (arith, length-take k b),
      record {
        clean = c;
        bytes = refl;
        small = omega (
          arith,
          length-append (drop k b) (stream_bytes es),
          length-append b (stream_bytes es),
          length-drop k b,
        );
      },
      le,
    )

suc-ne-zero : (n : ℕ) → (suc n == 0) ≡ false
suc-ne-zero n = ground arith

at_most_cases :
    (len max : ℕ) (b : Bytes) (es : List Event)
    → IsClean es
    → length (b ++ stream_bytes es) ≤ max
    → PieceOf
        (suc len)
        (b ++ stream_bytes es)
        (length es)
        (poll_read_at_most (suc len) (record { max_buf_size = max; buf = b; stream = es }))
unfolding poll_read_at_most
at_most_cases len max (x ∷ b) es c small =
    rw (suc-ne-zero len)
      (cut_piece (suc len) max (x ∷ b) es _ (omega arith) (omega arith) (omega arith) c small)
at_most_cases len max [] [] c small =
    rw (suc-ne-zero len, le→ltb max 0 (omega arith)) (refl, omega arith)
at_most_cases len max [] (not_ready ∷ es) c small =
    rw (suc-ne-zero len, le→ltb max 0 (omega arith))
      (record { clean = c; bytes = refl; small = small }, omega arith)
at_most_cases len max [] (item more ∷ es) c small =
    rw (suc-ne-zero len, le→ltb max 0 (omega arith))
      (cut_piece (suc len) max more es _ (omega arith) c.0 (omega arith) c.1 small)
at_most_cases len max [] (broken e ∷ es) c small = absurd c

-- On a clean stream whose content is `bs`, a poll for at most `len` bytes, `len` not 0, gives a
-- non-empty piece from the front of `bs` no longer than `len`, or `UnexpectedEof` if `bs` is
-- empty, or is `Pending` with nothing lost.
pub poll_read_at_most-PieceOf :
    (len : ℕ) (s : StreamBuf) (bs : Bytes)
    → 0 < len
    → Represents s bs
    → PieceOf len bs (length s.stream) (poll_read_at_most len s)
poll_read_at_most-PieceOf zero s bs pos r = absurd (omega arith)
poll_read_at_most-PieceOf (suc len) s bs pos r =
    subst
      (λ bs.
        Represents s bs → PieceOf (suc len) bs (length s.stream) (poll_read_at_most (suc len) s))
      r.bytes (λ r. at_most_cases len s.max_buf_size s.buf s.stream r.clean r.small) r
