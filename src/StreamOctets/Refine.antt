-- ===== src/StreamOctets/Refine.antt =====
-- The integer readers on a StreamBuf implement those on the flat cursor.
use pvcli.Prelude.{ℕ, ◌≤◌, ◌≡◌, refl, Option, none, some}
use pvcli.Prelude.{
  List, [], ◌∷◌, ◌++◌, Bytes, length, length-append, length-drop, drop, leb, append_assoc,
  append-nil,
}
use pvcli.Prelude.{drop-append, le→ltb, Bool-cases, inl, inr, ◌⊎◌, arith, if◌then◌else◌}
use pvcli.Octets.{Octets, OctetsLaws, IsReader}
use pvcli.Poll.{Polled, ready, fail, pending, io, invalid_data, ◌>>=◌}
use pvcli.StreamBuf.{Event, not_ready, item, broken, StreamBuf}
use pvcli.StreamBuf.Content.{stream_bytes, content, append-buf}
use pvcli.StreamBuf.Awaited.{from_content, read_exact-Implements}
use pvcli.StreamBuf.Flat.{Reply, and_then}
use pvcli.StreamBuf.Refine.{
  IsClean, Represents, PolledAs, PollImplements, Implements, run-Implements, >>=-Implements,
}
use pvcli.StreamOctets.{
  octets_head, octets_loop, poll_with_octets, poll_decode_varint_u64, poll_decode_varint_usize,
}
use pvcli.StreamOctets.{
  decode_u8, poll_decode_u8, decode_u16, poll_decode_u16, decode_varint_u64, decode_varint_usize,
  read_with_varint_length,
}
use pvcli.StreamOctets.Flat
use pvcli.StreamOctets.Flat.{with_octets, to_usize}

pub Option-cases : {A : Type 0} (o : Option A) → ((a : A) × (o ≡ some a)) ⊎ (o ≡ none)
Option-cases (some a) = inl (a, refl)
Option-cases none = inr refl

module _ (get : Bytes → Option (ℕ × ℕ)) (reader : IsReader get) where
  octets_head_step :
      (n : ℕ) (s : StreamBuf) (rest : Polled StreamBuf ℕ)
      → length s.stream ≤ n
      → Represents s (content s)
      → (get s.buf ≡ none → PolledAs (with_octets get (content s)) (content s) n rest)
      → PolledAs (with_octets get (content s)) (content s) n (octets_head get s rest)
  unfolding with_octets
  octets_head_step n s rest le r h = elim (Option-cases (get s.buf)) [
    | inl ((v, k), e) ↦
        let served : Represents (record s { buf = drop k s.buf })
            (drop k s.buf ++ stream_bytes s.stream) =
          record {
            clean = r.clean;
            bytes = refl;
            small = omega (
              arith,
              r.small,
              length-append (drop k s.buf) (stream_bytes s.stream),
              length-append s.buf (stream_bytes s.stream),
              length-drop k s.buf,
            );
          } in
        rw
          (
            e,
            reader.stable s.buf (stream_bytes s.stream) v k e,
            drop-append k s.buf (stream_bytes s.stream) (reader.within s.buf v k e),
          )
          (_, refl, served, le)
    | inr e ↦
        rw
          (
            e,
            le→ltb s.max_buf_size (length s.buf)
                (omega (arith, r.small, length-append s.buf (stream_bytes s.stream))),
          )
          (h e)
  ]

  octets_loop-PolledAs :
      (max : ℕ) (b : Bytes) (es : List Event) (n : ℕ)
      → length es ≤ n
      → IsClean es
      → length (b ++ stream_bytes es) ≤ max
      → PolledAs
          (with_octets get (b ++ stream_bytes es))
          (b ++ stream_bytes es)
          n
          (octets_loop get max b es)
  unfolding octets_loop with_octets
  octets_loop-PolledAs max b [] n le c small =
      octets_head_step n _ _ le (record { clean = c; bytes = refl; small = small })
        (λ e. rw (append-nil b, e) refl)
  octets_loop-PolledAs max b (not_ready ∷ es) n le c small =
      octets_head_step n _ _ le (record { clean = c; bytes = refl; small = small })
        (λ e. (record { clean = c; bytes = refl; small = small }, omega arith))
  octets_loop-PolledAs max b (broken e ∷ es) n le c small = absurd c
  octets_loop-PolledAs max b (item more ∷ es) n le c small =
      octets_head_step n _ _ le (record { clean = c; bytes = refl; small = small })
        (λ e. rw (append-buf b more) (
          rw append_assoc at
            (octets_loop-PolledAs max (b ++ more) es n (omega arith) c.1 (rw append_assoc small))))

  pub poll_with_octets-PollImplements : PollImplements (poll_with_octets get) (with_octets get)
  unfolding poll_with_octets
  poll_with_octets-PollImplements =
      from_content _ _
        λ s r. octets_loop-PolledAs s.max_buf_size s.buf s.stream _ (omega arith) r.clean r.small

usize_step :
    (usize_max : ℕ) (r : Reply ℕ) (bs : Bytes) (n : ℕ) (q : Polled StreamBuf ℕ)
    → PolledAs r bs n q
    → PolledAs
        (and_then (to_usize usize_max) r)
        bs
        n
        (q >>= λ v s'. if leb v usize_max then ready v s' else fail (io invalid_data) s')
unfolding to_usize
usize_step usize_max r bs n (ready v s) (rest, e, h, le) = elim (Bool-cases (leb v usize_max)) [
  | inl t ↦ rw (e, t) (rest, refl, h, le)
  | inr t ↦ rw (e, t) refl
]
usize_step usize_max r bs n (fail e s) h = rw h refl
usize_step usize_max r bs n (pending s) h = h

module _ (o : Octets) (laws : OctetsLaws o) where
  pub decode_u8-Implements : Implements (decode_u8 o) (with_octets o.get_u8)
  unfolding decode_u8 poll_decode_u8
  decode_u8-Implements =
      run-Implements _ _ (poll_with_octets-PollImplements o.get_u8 laws.u8_reader)

  pub decode_u16-Implements : Implements (decode_u16 o) (with_octets o.get_u16)
  unfolding decode_u16 poll_decode_u16
  decode_u16-Implements =
      run-Implements _ _ (poll_with_octets-PollImplements o.get_u16 laws.u16_reader)

  pub poll_decode_varint_u64-PollImplements :
      PollImplements (poll_decode_varint_u64 o) (with_octets o.get_varint)
  unfolding poll_decode_varint_u64
  poll_decode_varint_u64-PollImplements =
      poll_with_octets-PollImplements o.get_varint laws.varint_reader

  pub decode_varint_u64-Implements : Implements (decode_varint_u64 o) (with_octets o.get_varint)
  unfolding decode_varint_u64
  decode_varint_u64-Implements = run-Implements _ _ poll_decode_varint_u64-PollImplements

  pub poll_decode_varint_usize-PollImplements :
      (usize_max : ℕ)
      → PollImplements (poll_decode_varint_usize o usize_max) (Flat.decode_varint_usize o usize_max)
  unfolding poll_decode_varint_usize Flat.decode_varint_usize
  poll_decode_varint_usize-PollImplements usize_max s bs r =
      usize_step usize_max _ _ _ _ (poll_decode_varint_u64-PollImplements s bs r)

  pub decode_varint_usize-Implements :
      (usize_max : ℕ)
      → Implements (decode_varint_usize o usize_max) (Flat.decode_varint_usize o usize_max)
  unfolding decode_varint_usize
  decode_varint_usize-Implements usize_max =
      run-Implements _ _ (poll_decode_varint_usize-PollImplements usize_max)

  -- `read_with_varint_length` on a clean stream reads a length and then as many bytes off the
  -- whole content, however it is cut into chunks and wherever it is `Pending`; it fails exactly
  -- where the flat reader fails, with its error.
  pub read_with_varint_length-Implements :
      (usize_max : ℕ)
      → Implements (read_with_varint_length o usize_max) (Flat.read_with_varint_length o usize_max)
  unfolding read_with_varint_length Flat.read_with_varint_length
  read_with_varint_length-Implements usize_max =
      >>=-Implements _ _ _ _ (decode_varint_usize-Implements usize_max) read_exact-Implements
