-- ===== src/StreamOctets/Taken.antt =====
-- What `poll_with_octets` of crates/stream-octets/src/lib.rs takes, on streams that fail as well.
use pvcli.Prelude.{
  ℕ, ◌<◌, ◌≡◌, refl, sym, ap, Option, none, some, List, [], ◌∷◌, ◌++◌, Bytes, length, drop,
  drop-append, append_assoc, Bool-cases, ◌⊎◌, inl, inr, ltb, ltb→lt,
}
use pvcli.Octets.{IsReader}
use pvcli.Poll.{Error, io, upstream, unexpected_eof, invalid_data, Polled, ready, fail, pending}
use pvcli.StreamBuf.{Event, not_ready, item, broken, StreamBuf}
use pvcli.StreamBuf.Content.{stream_bytes, content, Holds, append-buf}
use pvcli.StreamOctets.{octets_head, octets_loop, poll_with_octets}
use pvcli.StreamOctets.Refine.{Option-cases}

-- The reason of an error: the buffer is over its limit; or the stream, which was `es`, is at its
-- end; or it has just given the error.
abbrev pub HasReason : List Event → Error → StreamBuf → Type 0
HasReason es e s' =
    ((e ≡ io invalid_data) × (s'.max_buf_size < length s'.buf))
    ⊎ (((e ≡ io unexpected_eof) × (s'.stream ≡ []))
        ⊎ ((x : ℕ) × (before : List Event) × (e ≡ upstream x)
            × (es ≡ before ++ (broken x ∷ s'.stream))))

-- Of an object with the bytes `bs`, buffered and to come, the size limit `max` and the stream `es`:
-- a value is the one that `get` reads in front of `bs`, and its bytes are taken off; otherwise the
-- bytes are all there, and the buffered ones have no whole value.
abbrev pub Taken : (Bytes → Option (ℕ × ℕ)) → Bytes → ℕ → List Event → Polled StreamBuf ℕ → Type 0
Taken get bs max es (ready v s') = (n : ℕ) × (get bs ≡ some (v, n)) × Holds (drop n bs) max s'
Taken get bs max es (fail e s') = (get s'.buf ≡ none) × Holds bs max s' × HasReason es e s'
Taken get bs max es (pending s') =
    (get s'.buf ≡ none)
    × Holds bs max s'
    × ((before : List Event) × (es ≡ before ++ (not_ready ∷ s'.stream)))

-- In front of the stream another chunk was read.
later-Taken :
    (get : Bytes → Option (ℕ × ℕ)) (bs : Bytes) (max : ℕ) (es : List Event) (more : Bytes)
    (q : Polled StreamBuf ℕ)
    → Taken get bs max es q
    → Taken get bs max (item more ∷ es) q
later-Taken get bs max es more (ready v s') h = h
later-Taken get bs max es more (fail e s') (no_value, holds, reason) = (
  no_value,
  holds,
  elim reason [
    | inl big ↦ inl big
    | inr (inl ended) ↦ inr (inl ended)
    | inr (inr (x, before, same, all)) ↦
        inr (inr (x, item more ∷ before, same, ap (λ l. item more ∷ l) all))
  ],
)
later-Taken get bs max es more (pending s') (no_value, holds, (before, all)) =
    (no_value, holds, (item more ∷ before, ap (λ l. item more ∷ l) all))

module _ (get : Bytes → Option (ℕ × ℕ)) (reader : IsReader get) where
  octets_head-Taken :
      (s : StreamBuf) (rest : Polled StreamBuf ℕ)
      → (get s.buf ≡ none → Taken get (content s) s.max_buf_size s.stream rest)
      → Taken get (content s) s.max_buf_size s.stream (octets_head get s rest)
  octets_head-Taken s rest h = elim (Option-cases (get s.buf)) [
    | inl ((v, n), e) ↦ rw e (
      n,
      reader.stable s.buf (stream_bytes s.stream) v n e,
      (sym (drop-append n s.buf (stream_bytes s.stream) (reader.within s.buf v n e)), refl),
    )
    | inr e ↦ elim (Bool-cases (ltb s.max_buf_size (length s.buf))) [
      | inl big ↦
          rw (e, big) (e, (refl, refl), inl (refl, ltb→lt s.max_buf_size (length s.buf) big))
      | inr small ↦ rw (e, small) (h e)
    ]
  ]

  octets_loop-Taken :
      (max : ℕ) (b : Bytes) (es : List Event)
      → Taken get (b ++ stream_bytes es) max es (octets_loop get max b es)
  unfolding octets_loop
  octets_loop-Taken max b [] = octets_head-Taken _ _ λ e. (e, (refl, refl), inr (inl (refl, refl)))
  octets_loop-Taken max b (not_ready ∷ es) =
      octets_head-Taken _ _ λ e. (e, (refl, refl), ([], refl))
  octets_loop-Taken max b (broken x ∷ es) =
      octets_head-Taken _ _ λ e. (e, (refl, refl), inr (inr (x, [], refl, refl)))
  octets_loop-Taken max b (item more ∷ es) = octets_head-Taken _ _ λ e.
      later-Taken get _ max es more _
        (rw (append-buf b more) (rw append_assoc at (octets_loop-Taken max (b ++ more) es)))

  -- Whatever the stream answers, `poll_with_octets` with a reader of `octets` does one of these. It
  -- gives the value that the reader finds in front of all the bytes, buffered and to come, and
  -- takes exactly the bytes of that value off. Or, with every byte kept and no whole value in the
  -- buffer, it is `Pending` because the stream just was; or it fails, because the buffer is over
  -- its limit (`InvalidData`), because the stream is at its end (`UnexpectedEof`), or with the error
  -- that the stream just gave.
  pub poll_with_octets-Taken :
      (s : StreamBuf) → Taken get (content s) s.max_buf_size s.stream (poll_with_octets get s)
  unfolding poll_with_octets
  poll_with_octets-Taken s = octets_loop-Taken s.max_buf_size s.buf s.stream
