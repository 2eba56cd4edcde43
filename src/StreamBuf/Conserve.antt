-- ===== src/StreamBuf/Conserve.antt =====
-- No poll function of StreamBuf loses, repeats or reorders a byte, whatever the stream does.
use pvcli.Prelude.{ℕ, ◌-◌, refl, ap, ◌∙◌, List, [], ◌∷◌, ◌++◌}
use pvcli.Prelude.{Bytes, length, is_empty, take, leb, ltb, ◌==◌, append_assoc}
use pvcli.Prelude.{Bool-cases, inl, inr, arith, if◌then◌else◌}
use pvcli.Poll.{Polled, ready, fail, pending, ◌>>=◌}
use pvcli.StreamBuf.{Event, not_ready, item, broken, StreamBuf, exact_head}
use pvcli.StreamBuf.{read_exact_loop, poll_read_exact, read_to_end_loop, poll_read_to_end}
use pvcli.StreamBuf.{
  poll_has_more_data, poll_fill_buf, poll_read_at_most, poll_next, exact_tail, check_max_buf_size,
  split_to,
}
use pvcli.StreamBuf.Content.{
  stream_bytes, content, Kept, whole, nothing, yielded, append-buf, split-content,
}
use Prim.Native.Nat.{min}

check-Kept :
    {A : Type 0} (out : A → Bytes) (s : StreamBuf) (rest : Polled StreamBuf A)
    → Kept out (content s) s.max_buf_size rest
    → Kept out (content s) s.max_buf_size (check_max_buf_size s rest)
check-Kept out s rest h = elim (Bool-cases (ltb s.max_buf_size (length s.buf))) [
  | inl big ↦ rw big (refl, refl)
  | inr small ↦ rw small h
]

exact_head-Kept :
    (len : ℕ) (s : StreamBuf) (rest : Polled StreamBuf Bytes)
    → Kept whole (content s) s.max_buf_size rest
    → Kept whole (content s) s.max_buf_size (exact_head len s rest)
exact_head-Kept len s rest h = elim (Bool-cases (leb len (length s.buf))) [
  | inl e ↦ rw e (split-content len s.buf (stream_bytes s.stream), refl)
  | inr e ↦ rw e (check-Kept whole s rest h)
]

exact_item-Kept :
    (missing : ℕ) (s : StreamBuf) (more : Bytes) (again : Polled StreamBuf Bytes)
    → Kept whole (s.buf ++ (more ++ stream_bytes s.stream)) s.max_buf_size again
    → Kept whole
        (s.buf ++ (more ++ stream_bytes s.stream))
        s.max_buf_size
        (if leb missing (length more) then exact_tail missing s more else again)
exact_item-Kept missing s more again h = elim (Bool-cases (leb missing (length more))) [
  | inl e ↦
      rw (e, append-buf s.buf (take missing more))
        (
          append_assoc s.buf (take missing more) _
              ∙ ap (λ t. s.buf ++ t) (split-content missing more (stream_bytes s.stream)),
          refl,
        )
  | inr e ↦ rw e h
]

read_exact_loop-Kept :
    (len max : ℕ) (b : Bytes) (es : List Event)
    → Kept whole (b ++ stream_bytes es) max (read_exact_loop len max b es)
unfolding read_exact_loop
read_exact_loop-Kept len max b [] = exact_head-Kept len _ _ (refl, refl)
read_exact_loop-Kept len max b (not_ready ∷ es) = exact_head-Kept len _ _ (refl, refl)
read_exact_loop-Kept len max b (broken e ∷ es) = exact_head-Kept len _ _ (refl, refl)
read_exact_loop-Kept len max b (item more ∷ es) = exact_head-Kept len _ _ (
    exact_item-Kept (len - length b) (record { max_buf_size = max; buf = b; stream = es }) more _
      (rw (append-buf b more) (rw append_assoc at (read_exact_loop-Kept len max (b ++ more) es))))

-- Whatever the stream answers, `poll_read_exact` loses, repeats and reorders no byte: what it
-- hands out, followed by what is left, is what was there, and on an error or `Pending` all of it
-- is left. The size limit stays.
pub poll_read_exact-Kept :
    (len : ℕ) (s : StreamBuf) → Kept whole (content s) s.max_buf_size (poll_read_exact len s)
unfolding poll_read_exact
poll_read_exact-Kept len s = read_exact_loop-Kept len s.max_buf_size s.buf s.stream

read_to_end_loop-Kept :
    (max : ℕ) (b : Bytes) (es : List Event)
    → Kept whole (b ++ stream_bytes es) max (read_to_end_loop max b es)
unfolding read_to_end_loop
read_to_end_loop-Kept max b [] = (refl, refl)
read_to_end_loop-Kept max b (not_ready ∷ es) = (refl, refl)
read_to_end_loop-Kept max b (broken e ∷ es) = (refl, refl)
read_to_end_loop-Kept max b (item more ∷ es) =
    rw (append-buf b more) (rw append_assoc at (read_to_end_loop-Kept max (b ++ more) es))

-- Whatever the stream answers, `poll_read_to_end` loses, repeats and reorders no byte: what it
-- hands out, followed by what is left, is what was there, and on an error or `Pending` all of it
-- is left. The size limit stays.
pub poll_read_to_end-Kept :
    (s : StreamBuf) → Kept whole (content s) s.max_buf_size (poll_read_to_end s)
unfolding poll_read_to_end
poll_read_to_end-Kept s = read_to_end_loop-Kept s.max_buf_size s.buf s.stream

fill_cases :
    (max : ℕ) (b : Bytes) (es : List Event)
    → Kept nothing
        (b ++ stream_bytes es)
        max
        (poll_fill_buf (record { max_buf_size = max; buf = b; stream = es }))
unfolding poll_fill_buf
fill_cases max b [] = ground arith
fill_cases max b (not_ready ∷ es) = ground arith
fill_cases max b (broken e ∷ es) = ground arith
fill_cases max b (item more ∷ es) =
    ground (arith, append-buf b more, append_assoc b more (stream_bytes es))

pub poll_fill_buf-Kept : (s : StreamBuf) → Kept nothing (content s) s.max_buf_size (poll_fill_buf s)
poll_fill_buf-Kept s = fill_cases s.max_buf_size s.buf s.stream

has_more_cases :
    (max : ℕ) (b : Bytes) (es : List Event)
    → Kept nothing
        (b ++ stream_bytes es)
        max
        (poll_has_more_data (record { max_buf_size = max; buf = b; stream = es }))
unfolding poll_has_more_data
has_more_cases max (x ∷ b) es = (refl, refl)
has_more_cases max [] [] = (refl, refl)
has_more_cases max [] (not_ready ∷ es) = (refl, refl)
has_more_cases max [] (item more ∷ es) = (refl, refl)
has_more_cases max [] (broken e ∷ es) = (refl, refl)

pub poll_has_more_data-Kept :
    (s : StreamBuf) → Kept nothing (content s) s.max_buf_size (poll_has_more_data s)
poll_has_more_data-Kept s = has_more_cases s.max_buf_size s.buf s.stream

poll_next_cases :
    (max : ℕ) (b : Bytes) (es : List Event)
    → Kept yielded
        (b ++ stream_bytes es)
        max
        (poll_next (record { max_buf_size = max; buf = b; stream = es }))
unfolding poll_next
poll_next_cases max (x ∷ b) es = (refl, refl)
poll_next_cases max [] [] = (refl, refl)
poll_next_cases max [] (not_ready ∷ es) = (refl, refl)
poll_next_cases max [] (item more ∷ es) = (refl, refl)
poll_next_cases max [] (broken e ∷ es) = (refl, refl)

-- Whatever the stream answers, `poll_next` loses, repeats and reorders no byte: the chunk that it
-- yields, followed by what is left, is what was there, and at the end, on an error or on
-- `Pending` all of it is left. The size limit stays.
pub poll_next-Kept : (s : StreamBuf) → Kept yielded (content s) s.max_buf_size (poll_next s)
poll_next-Kept s = poll_next_cases s.max_buf_size s.buf s.stream

-- A read of at most `len` bytes from the buffer, after a step that kept all bytes.
cut-Kept :
    (len max : ℕ) (bs : Bytes) (p : Polled StreamBuf (Unit {0}))
    → Kept nothing bs max p
    → Kept whole bs max (p >>= λ _ s'. split_to (min len (length s'.buf)) s')
cut-Kept len max bs (ready _ s) (h, m) =
    (split-content (min len (length s.buf)) s.buf (stream_bytes s.stream) ∙ h, m)
cut-Kept len max bs (fail e s) h = h
cut-Kept len max bs (pending s) h = h

-- Whatever the stream answers, `poll_read_at_most` loses, repeats and reorders no byte: what it
-- hands out, followed by what is left, is what was there, and on an error or `Pending` all of it
-- is left. The size limit stays.
pub poll_read_at_most-Kept :
    (len : ℕ) (s : StreamBuf) → Kept whole (content s) s.max_buf_size (poll_read_at_most len s)
unfolding poll_read_at_most
poll_read_at_most-Kept len s = elim (Bool-cases (len == 0)) [
  | inl e ↦ rw e (refl, refl)
  | inr e ↦ rw e (
      cut-Kept len _ _ _ (elim (Bool-cases (is_empty s.buf)) [
        | inl f ↦ rw f (poll_fill_buf-Kept s)
        | inr f ↦ rw f (refl, refl)
      ]))
]
