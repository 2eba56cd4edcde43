-- ===== src/OhttpHpke/Decapsulated/Polls.antt =====
-- One poll of the stream of crates/ohttp-hpke/src/decapsulated.rs on the wire form of a chunked
-- message, whole or cut short.
use pvcli.Prelude.{
  ℕ, ◌+◌, ◌≤◌, ◌<◌, ◌≡◌, refl, sym, Bool, true, false, Option, none, some, List, [], ◌∷◌, ◌++◌,
  Bytes, length, arith,
}
use mathlib.Core.Path.{subst}
use pvcli.Octets.{Octets, OctetsLaws}
use pvcli.Poll.{io, unexpected_eof, Polled, ready, fail, pending, Result, ok}
use pvcli.StreamBuf.{StreamBuf, poll_read_exact, poll_read_to_end}
use pvcli.StreamBuf.Flat as FlatBuf
use pvcli.StreamBuf.Flat.{Reply, got, refused}
use pvcli.StreamBuf.Refine.{Represents, PolledAs}
use pvcli.StreamBuf.Awaited.{poll_read_to_end-PollImplements, poll_read_exact-PollImplements}
use pvcli.StreamOctets.{poll_decode_varint_usize}
use pvcli.StreamOctets.Refine.{poll_decode_varint_usize-PollImplements}
use pvcli.HyperBinary.RoundTrip.Reads.{usize_front}
use pvcli.OhttpHpke.Encapsulated.{final_aad}
use pvcli.OhttpHpke.Decapsulated.{
  Decapsulated, State, chunk_len, chunk, nonzero, in_buf, read_chunk, poll_next,
}
use pvcli.OhttpHpke.Decapsulated.Frames.{
  Opens, Frames, last, cut, cut_length, cut_chunk, more, nonzero_pos, At, at_len, at_chunk, at_last,
  at_cut, Answers, chunk_step, last_step, cut_step,
}
use pvcli.OhttpHpke.Decapsulated.Reads.{weaker, exact_pair, exact_short, no_varint, half_varint}

module _ (o : Octets) (laws : OctetsLaws o) (usize_max : ℕ) {Se Op : Type 0}
    (seal_in_place : Se → (buf aad : Bytes) → Result (Bytes × Bytes) × Se)
    (open_in_place : Op → (buf aad : Bytes) → Result Bytes × Op)
    (opens : Opens seal_in_place open_in_place) where
  open laws use {varint_bytes}

  -- The length is read, and the same poll goes on with the chunk.
  len_step :
      (whole : Bool) (n v : ℕ) (p : Op) (ps : List Bytes) (w rest : Bytes) (b : StreamBuf)
      (q : Polled StreamBuf ℕ)
      → PolledAs (got v rest) w n q
      → At o laws usize_max seal_in_place open_in_place opens whole p ps chunk_len w
      → ((b' : StreamBuf)
          → Represents b' rest
          → length b'.stream ≤ n
          → Answers o laws usize_max seal_in_place open_in_place opens whole ps n (
              read_chunk o usize_max open_in_place
                (nonzero v)
                (record { state = chunk (nonzero v); opener = p; stream_buf = b' })))
      → Answers o laws usize_max seal_in_place open_in_place opens whole ps n (
          in_buf
            (record { state = chunk_len; opener = p; stream_buf = b })
            q
            λ len d.
              read_chunk o usize_max open_in_place
                (nonzero len)
                (record d { state = chunk (nonzero len) }))
  len_step whole n v p ps w rest b (ready len b') (rest', e, r, le) at_w k =
      let same : v ≡ len = cc in
      let same_rest : rest ≡ rest' = cc in
      rw (← same) (k b' (subst (Represents b') (sym same_rest) r) le)
  len_step whole n v p ps w rest b (fail x b') e at_w k = cc
  len_step whole n v p ps w rest b (pending b') (r, lt) at_w k = ((w, at_w, r, omega arith), lt)

  refused_step :
      (n : ℕ) (p : Op) (w : Bytes) (b : StreamBuf) (q : Polled StreamBuf ℕ)
      (later : ℕ → Decapsulated Op → Polled (Decapsulated Op) (Option Bytes))
      → PolledAs (refused (io unexpected_eof)) w n q
      → At o laws usize_max seal_in_place open_in_place opens false p [] chunk_len w
      → Answers o laws usize_max seal_in_place open_in_place opens false [] n
          (in_buf (record { state = chunk_len; opener = p; stream_buf = b }) q later)
  refused_step n p w b (ready len b') later (rest, e, r, le) at_w = cc
  refused_step n p w b (fail x b') later e at_w = (refl, cc)
  refused_step n p w b (pending b') later (r, lt) at_w = ((w, at_w, r, omega arith), lt)

  from_chunk :
      (whole : Bool) (n : ℕ) (s s' : Se) (p : Op) (plaintext ct tag w : Bytes) (ps : List Bytes)
      (b : StreamBuf)
      → opens.Matches s p
      → seal_in_place s plaintext [] ≡ (ok (ct, tag), s')
      → Frames varint_bytes usize_max seal_in_place whole s' ps w
      → Represents b (ct ++ (tag ++ w))
      → length b.stream ≤ n
      → Answers o laws usize_max seal_in_place open_in_place opens whole (plaintext ∷ ps) n (
          read_chunk o usize_max open_in_place
            (some (length ct + length tag))
            (record { state = chunk (some (length ct + length tag)); opener = p; stream_buf = b }))
  from_chunk whole n s s' p plaintext ct tag w ps b m h f r le =
      chunk_step o laws usize_max seal_in_place open_in_place opens whole n s s' p plaintext ct tag
        w ps b (poll_read_exact (length ct + length tag) b) m h f
        (weaker (got (ct ++ tag) w) (ct ++ (tag ++ w)) (length b.stream) n _ le (
          rw (exact_pair ct tag w) at
            (poll_read_exact-PollImplements (length ct + length tag) b (ct ++ (tag ++ w)) r)))

  from_last :
      (n : ℕ) (s s' : Se) (p : Op) (tag : Bytes) (b : StreamBuf)
      → opens.Matches s p
      → seal_in_place s [] final_aad ≡ (ok ([], tag), s')
      → Represents b tag
      → length b.stream ≤ n
      → Answers o laws usize_max seal_in_place open_in_place opens true [] n (
          read_chunk o usize_max open_in_place none
            (record { state = chunk none; opener = p; stream_buf = b }))
  unfolding FlatBuf.read_to_end
  from_last n s s' p tag b m h r le =
      last_step o laws usize_max seal_in_place open_in_place opens n s s' p tag b
        (poll_read_to_end b) m h
        (weaker (got tag []) tag (length b.stream) n _ le (poll_read_to_end-PollImplements b tag r))

  from_cut :
      (n k : ℕ) (p : Op) (part : Bytes) (b : StreamBuf)
      → length part < k
      → Represents b part
      → length b.stream ≤ n
      → Answers o laws usize_max seal_in_place open_in_place opens false [] n (
          read_chunk o usize_max open_in_place
            (some k)
            (record { state = chunk (some k); opener = p; stream_buf = b }))
  from_cut n k p part b lt r le =
      cut_step o laws usize_max seal_in_place open_in_place opens n k p part b (poll_read_exact k b)
        _ lt
        (weaker (refused (io unexpected_eof)) part (length b.stream) n _ le
          (rw (exact_short k part lt) at (poll_read_exact-PollImplements k b part r)))

  from_len :
      (whole : Bool) (s : Se) (p : Op) (ps : List Bytes) (w : Bytes) (b : StreamBuf)
      → opens.Matches s p
      → Frames varint_bytes usize_max seal_in_place whole s ps w
      → Represents b w
      → Answers o laws usize_max seal_in_place open_in_place opens whole ps (length b.stream) (
          poll_next o usize_max open_in_place
            (record { state = chunk_len; opener = p; stream_buf = b }))
  unfolding poll_next
  from_len whole s p ps _ b m (last {s' = s'} {tag = tag} h) r =
      len_step true (length b.stream) 0 p [] (varint_bytes 0 ++ tag) tag b
        (poll_decode_varint_usize o usize_max b)
        (rw (usize_front o laws usize_max 0 tag (omega arith, omega arith)) at
          (poll_decode_varint_usize-PollImplements o laws usize_max b _ r))
        (at_len m (last h)) (λ b' r' le. from_last (length b.stream) s s' p tag b' m h r' le)
  from_len whole s p ps _ b m cut r =
      refused_step (length b.stream) p [] b (poll_decode_varint_usize o usize_max b) _
        (rw (no_varint o laws usize_max (o.get_varint []) refl) at
          (poll_decode_varint_usize-PollImplements o laws usize_max b _ r))
        (at_len m cut)
  from_len whole s p ps w b m (cut_length n front back lt e pos) r =
      refused_step (length b.stream) p w b (poll_decode_varint_usize o usize_max b) _
        (rw (half_varint o laws usize_max n w back (o.get_varint w) lt e pos refl) at
          (poll_decode_varint_usize-PollImplements o laws usize_max b _ r))
        (at_len m (cut_length n w back lt e pos))
  from_len whole s p ps _ b m (cut_chunk n part sized lt) r =
      len_step false (length b.stream) n p [] (varint_bytes n ++ part) part b
        (poll_decode_varint_usize o usize_max b)
        (rw (usize_front o laws usize_max n part sized) at
          (poll_decode_varint_usize-PollImplements o laws usize_max b _ r))
        (at_len m (cut_chunk n part sized lt))
        (λ b' r' le.
          rw (nonzero_pos n (omega arith)) (from_cut (length b.stream) n p part b' lt r' le))
  from_len whole s p _ _ b m
        (more {s' = s'} {p = plaintext} {ciphertext = ct} {tag = tag} {w = w} {ps = ps} h sized f)
        r =
      let n : ℕ = length ct + length tag in
      let rest : Bytes = ct ++ (tag ++ w) in
      len_step whole (length b.stream) n p (plaintext ∷ ps) (varint_bytes n ++ rest) rest b
        (poll_decode_varint_usize o usize_max b)
        (rw (usize_front o laws usize_max n rest sized) at
          (poll_decode_varint_usize-PollImplements o laws usize_max b _ r))
        (at_len m (more h sized f))
        (λ b' r' le.
          rw (nonzero_pos n (omega (arith, opens.tag_pos s s' p plaintext [] ct tag m h)))
            (from_chunk whole (length b.stream) s s' p plaintext ct tag w ps b' m h f r' le))

  pub poll-Answers :
      (whole : Bool) (p : Op) (ps : List Bytes) (state : State) (w : Bytes) (b : StreamBuf)
      → At o laws usize_max seal_in_place open_in_place opens whole p ps state w
      → Represents b w
      → Answers o laws usize_max seal_in_place open_in_place opens whole ps (length b.stream) (
          poll_next o usize_max open_in_place
            (record { state = state; opener = p; stream_buf = b }))
  unfolding poll_next
  poll-Answers whole p ps state w b (at_len {s = s} m f) r = from_len whole s p ps w b m f r
  poll-Answers whole p _ state _ b
        (at_chunk {s = s} {s' = s'} {plaintext = pt} {ciphertext = ct} {tag = tag} {w = w} {ps = ps}
          m h f)
        r =
      from_chunk whole (length b.stream) s s' p pt ct tag w ps b m h f r (omega arith)
  poll-Answers whole p ps state w b (at_last {s = s} {s' = s'} m h) r =
      from_last (length b.stream) s s' p w b m h r (omega arith)
  poll-Answers whole p ps state w b (at_cut {n = n} lt) r =
      from_cut (length b.stream) n p w b lt r (omega arith)
