-- ===== src/StreamBuf/Awaited.antt =====
-- The poll functions and `async` methods of StreamBuf implement the flat cursor.
use pvcli.Prelude.{ℕ, ◌-◌, ◌≤◌, ◌<◌, ◌≡◌, refl}
use pvcli.Prelude.{
  List, [], ◌∷◌, ◌++◌, Bytes, length, length-append, take, drop, leb, append_assoc, append-nil,
}
use mathlib.Core.Path.{subst}
use pvcli.Prelude.{
  length-drop, take-append, drop-append, take-append_past, drop-append_past, le→leb, lt→leb, leb→le,
  leb→lt,
}
use pvcli.Prelude.{le→ltb, Bool-cases, inl, inr, arith, if◌then◌else◌}
use pvcli.Poll.{Polled, io, unexpected_eof}
use pvcli.StreamBuf.{Event, not_ready, item, broken, StreamBuf, exact_head, exact_tail}
use pvcli.StreamBuf.{read_exact_loop, poll_read_exact, read_to_end_loop, poll_read_to_end}
use pvcli.StreamBuf.{poll_has_more_data, read_exact, read_to_end, has_more_data}
use pvcli.StreamBuf.Content.{stream_bytes, content, append-buf}
use pvcli.StreamBuf.Flat
use pvcli.StreamBuf.Flat.{Reply, Flat, got, refused}
use pvcli.StreamBuf.Refine.{
  IsClean, Represents, PolledAs, PollImplements, Implements, run-Implements,
}

pub from_content :
    {A : Type 0} (p : StreamBuf → Polled StreamBuf A) (f : Flat A)
    → ((s : StreamBuf)
        → Represents s (content s)
        → PolledAs (f (content s)) (content s) (length s.stream) (p s))
    → PollImplements p f
from_content p f h s bs r =
    subst (λ bs. Represents s bs → PolledAs (f bs) bs (length s.stream) (p s)) r.bytes (h s) r

flat_exact_front :
    (len : ℕ) (b t : Bytes)
    → len ≤ length b
    → Flat.read_exact len (b ++ t) ≡ got (take len b) (drop len b ++ t)
unfolding Flat.read_exact
flat_exact_front len b t h = rw (
  le→leb len (length (b ++ t)) (omega (arith, length-append b t)),
  take-append len b t h,
  drop-append len b t h,
)

flat_exact_past :
    (len : ℕ) (b t : Bytes)
    → length b ≤ len
    → len - length b ≤ length t
    → Flat.read_exact len (b ++ t) ≡ got (b ++ take (len - length b) t) (drop (len - length b) t)
unfolding Flat.read_exact
flat_exact_past len b t h k = rw (
  le→leb len (length (b ++ t)) (omega (arith, length-append b t)),
  take-append_past len b t h,
  drop-append_past len b t h,
)

pub flat_exact_short :
    (len : ℕ) (bs : Bytes) → length bs < len → Flat.read_exact len bs ≡ refused (io unexpected_eof)
unfolding Flat.read_exact
flat_exact_short len bs h = rw (lt→leb len (length bs) h)

-- The head of the loop serves the read if the buffer is long enough, and passes on otherwise.
exact_head_step :
    (len n : ℕ) (s : StreamBuf) (rest : Polled StreamBuf Bytes)
    → length s.stream ≤ n
    → Represents s (content s)
    → (length s.buf < len → PolledAs (Flat.read_exact len (content s)) (content s) n rest)
    → PolledAs (Flat.read_exact len (content s)) (content s) n (exact_head len s rest)
exact_head_step len n s rest le r h = elim (Bool-cases (leb len (length s.buf))) [
  | inl e ↦
      let served : Represents (record s { buf = drop len s.buf })
          (drop len s.buf ++ stream_bytes s.stream) =
        record {
          clean = r.clean;
          bytes = refl;
          small = omega (
            arith,
            r.small,
            length-append (drop len s.buf) (stream_bytes s.stream),
            length-append s.buf (stream_bytes s.stream),
            length-drop len s.buf,
          );
        } in
      rw e (_, flat_exact_front len s.buf (stream_bytes s.stream) (leb→le _ _ e), served, le)
  | inr e ↦
      rw
        (
          e,
          le→ltb s.max_buf_size (length s.buf)
              (omega (arith, r.small, length-append s.buf (stream_bytes s.stream))),
        )
        (h (leb→lt _ _ e))
]

exact_item_step :
    (len n max : ℕ) (b more : Bytes) (es : List Event) (again : Polled StreamBuf Bytes)
    → length es ≤ n
    → IsClean es
    → length (b ++ (more ++ stream_bytes es)) ≤ max
    → length b < len
    → PolledAs
        (Flat.read_exact len (b ++ (more ++ stream_bytes es)))
        (b ++ (more ++ stream_bytes es))
        n
        again
    → PolledAs
        (Flat.read_exact len (b ++ (more ++ stream_bytes es)))
        (b ++ (more ++ stream_bytes es))
        n
        (if leb (len - length b) (length more)
          then exact_tail
              (len - length b)
              (record { max_buf_size = max; buf = b; stream = es })
              more
          else again)
exact_item_step len n max b more es again le c small lt h =
    elim (Bool-cases (leb (len - length b) (length more))) [
      | inl e ↦
          let k : len - length b ≤ length more = leb→le _ _ e in
          rw (e, append-buf b (take (len - length b) more))
            (
              drop (len - length b) more ++ stream_bytes es,
              rw (
                flat_exact_past len b (more ++ stream_bytes es) (omega arith)
                    (omega (arith, length-append more (stream_bytes es))),
                take-append (len - length b) more (stream_bytes es) k,
                drop-append (len - length b) more (stream_bytes es) k,
              ),
              record {
                clean = c;
                bytes = refl;
                small = omega (
                  arith,
                  small,
                  length-append b (more ++ stream_bytes es),
                  length-append more (stream_bytes es),
                  length-drop (len - length b) more,
                  length-append (drop (len - length b) more) (stream_bytes es),
                );
              },
              le,
            )
      | inr e ↦ rw e h
    ]

read_exact_loop-PolledAs :
    (len max : ℕ) (b : Bytes) (es : List Event) (n : ℕ)
    → length es ≤ n
    → IsClean es
    → length (b ++ stream_bytes es) ≤ max
    → PolledAs
        (Flat.read_exact len (b ++ stream_bytes es))
        (b ++ stream_bytes es)
        n
        (read_exact_loop len max b es)
unfolding read_exact_loop
read_exact_loop-PolledAs len max b [] n le c small =
    exact_head_step len n _ _ le (record { clean = c; bytes = refl; small = small })
      (λ lt. flat_exact_short len _ (omega (arith, length-append b [])))
read_exact_loop-PolledAs len max b (not_ready ∷ es) n le c small =
    exact_head_step len n _ _ le (record { clean = c; bytes = refl; small = small })
      (λ lt. (record { clean = c; bytes = refl; small = small }, omega arith))
read_exact_loop-PolledAs len max b (broken e ∷ es) n le c small = absurd c
read_exact_loop-PolledAs len max b (item more ∷ es) n le c small =
    exact_head_step len n _ _ le (record { clean = c; bytes = refl; small = small })
      (λ lt. exact_item_step len n max b more es _ (omega arith) c.1 small lt (
        rw (append-buf b more) (
          rw append_assoc at (
            read_exact_loop-PolledAs len max (b ++ more) es n (omega arith) c.1
              (rw append_assoc small)))))

-- On a clean stream whose bytes fit under the size limit, a poll of `poll_read_exact` serves the
-- first `len` bytes of the whole content however it is cut into chunks, answers
-- `UnexpectedEof` exactly when there are fewer, and is `Pending` with all bytes kept otherwise.
pub poll_read_exact-PollImplements :
    (len : ℕ) → PollImplements (poll_read_exact len) (Flat.read_exact len)
unfolding poll_read_exact
poll_read_exact-PollImplements len = from_content _ _ λ s r.
    read_exact_loop-PolledAs len s.max_buf_size s.buf s.stream _ (omega arith) r.clean r.small

-- `read_exact` implements the flat cursor's `read_exact`, and never gets stuck.
pub read_exact-Implements : (len : ℕ) → Implements (read_exact len) (Flat.read_exact len)
unfolding read_exact
read_exact-Implements len = run-Implements _ _ (poll_read_exact-PollImplements len)

read_to_end_loop-PolledAs :
    (max : ℕ) (b : Bytes) (es : List Event) (n : ℕ)
    → length es ≤ n
    → IsClean es
    → length (b ++ stream_bytes es) ≤ max
    → PolledAs
        (Flat.read_to_end (b ++ stream_bytes es))
        (b ++ stream_bytes es)
        n
        (read_to_end_loop max b es)
unfolding read_to_end_loop Flat.read_to_end
read_to_end_loop-PolledAs max b [] n le c small =
    ([], rw append-nil, record { clean = c; bytes = refl; small = omega arith }, le)
read_to_end_loop-PolledAs max b (not_ready ∷ es) n le c small =
    (record { clean = c; bytes = refl; small = small }, omega arith)
read_to_end_loop-PolledAs max b (broken e ∷ es) n le c small = absurd c
read_to_end_loop-PolledAs max b (item more ∷ es) n le c small = rw (append-buf b more) (
    rw append_assoc at
      (read_to_end_loop-PolledAs max (b ++ more) es n (omega arith) c.1 (rw append_assoc small)))

pub poll_read_to_end-PollImplements : PollImplements poll_read_to_end Flat.read_to_end
unfolding poll_read_to_end
poll_read_to_end-PollImplements =
    from_content _ _
      λ s r. read_to_end_loop-PolledAs s.max_buf_size s.buf s.stream _ (omega arith) r.clean r.small

pub read_to_end-Implements : Implements read_to_end Flat.read_to_end
unfolding read_to_end
read_to_end-Implements = run-Implements _ _ poll_read_to_end-PollImplements

has_more-PolledAs :
    (max : ℕ) (b : Bytes) (es : List Event)
    → IsClean es
    → length (b ++ stream_bytes es) ≤ max
    → PolledAs
        (Flat.has_more_data (b ++ stream_bytes es))
        (b ++ stream_bytes es)
        (length es)
        (poll_has_more_data (record { max_buf_size = max; buf = b; stream = es }))
unfolding poll_has_more_data Flat.has_more_data
has_more-PolledAs max (x ∷ b) es c small =
    (_, refl, record { clean = c; bytes = refl; small = small }, omega arith)
has_more-PolledAs max [] [] c small =
    (_, refl, record { clean = c; bytes = refl; small = small }, omega arith)
has_more-PolledAs max [] (not_ready ∷ es) c small =
    (record { clean = c; bytes = refl; small = small }, omega arith)
has_more-PolledAs max [] (item [] ∷ es) c small = absurd (omega arith)
has_more-PolledAs max [] (item (x ∷ more) ∷ es) c small =
    (_, refl, record { clean = c.1; bytes = refl; small = small }, omega arith)
has_more-PolledAs max [] (broken e ∷ es) c small = absurd c

pub poll_has_more_data-PollImplements : PollImplements poll_has_more_data Flat.has_more_data
poll_has_more_data-PollImplements =
    from_content _ _ λ s r. has_more-PolledAs s.max_buf_size s.buf s.stream r.clean r.small

-- On a clean stream `has_more_data` tells whether a byte is left.
pub has_more_data-Implements : Implements has_more_data Flat.has_more_data
unfolding has_more_data
has_more_data-Implements = run-Implements _ _ poll_has_more_data-PollImplements
