-- ===== src/StreamOctets.antt =====
-- crates/stream-octets/src/lib.rs: reading integers off a StreamBuf by the crate `octets`.
pub mod Flat
pub mod Refine
pub mod Served
pub mod Taken
use pvcli.Prelude.{
  ℕ, ◌≡◌, Option, none, some, List, [], ◌∷◌, Bytes, leb, if◌then◌else◌, length, suc,
}
use pvcli.Octets.{Octets}
use pvcli.Poll.{Error, io, upstream, unexpected_eof, invalid_data, Polled, ready, fail, pending}
use pvcli.Poll.{◌>>=◌, Outcome}
use pvcli.Poll.Async
use pvcli.Poll.Async.{Async}
use pvcli.StreamBuf
use pvcli.StreamBuf.{
  Event, not_ready, item, broken, StreamBuf, advance, append, check_max_buf_size, run,
}
use pvcli.StreamBuf.{poll_fill_buf}

abbrev pub take_read : StreamBuf → Polled StreamBuf ℕ → Option (ℕ × ℕ) → Polled StreamBuf ℕ
take_read s rest (some (value, n)) = ready value (advance n s)
take_read s rest none = rest

-- The head of the loop in `poll_with_octets`: take the value if the buffer has it whole,
-- otherwise check the size of the buffer, as `poll_fill_buf` does first, and go on.
abbrev pub octets_head :
    (Bytes → Option (ℕ × ℕ)) → StreamBuf → Polled StreamBuf ℕ → Polled StreamBuf ℕ
octets_head f s rest = take_read s (check_max_buf_size s rest) (f s.buf)

unfoldable pub octets_loop :
    (Bytes → Option (ℕ × ℕ)) → (max : ℕ) → Bytes → List Event → Polled StreamBuf ℕ
octets_loop f max b [] =
    let s : StreamBuf = record { max_buf_size = max; buf = b; stream = [] } in
    octets_head f s (fail (io unexpected_eof) s)
octets_loop f max b (not_ready ∷ rest) =
    let s : StreamBuf = record { max_buf_size = max; buf = b; stream = not_ready ∷ rest } in
    octets_head f s (pending (record s { stream = rest }))
octets_loop f max b (broken e ∷ rest) =
    let s : StreamBuf = record { max_buf_size = max; buf = b; stream = broken e ∷ rest } in
    octets_head f s (fail (upstream e) (record s { stream = rest }))
octets_loop f max b (item more ∷ rest) =
    let s : StreamBuf = record { max_buf_size = max; buf = b; stream = item more ∷ rest } in
    let s' : StreamBuf = append (record s { stream = rest }) more in
    let again = octets_loop f max s'.buf rest in octets_head f s again

unfoldable pub poll_with_octets : (Bytes → Option (ℕ × ℕ)) → StreamBuf → Polled StreamBuf ℕ
unfolding octets_loop
poll_with_octets f s = octets_loop f s.max_buf_size s.buf s.stream

module _ (o : Octets) where
  unfoldable pub poll_decode_u8 : StreamBuf → Polled StreamBuf ℕ
  poll_decode_u8 = poll_with_octets o.get_u8

  unfoldable pub decode_u8 : Async StreamBuf ℕ
  decode_u8 = run poll_decode_u8

  unfoldable pub poll_decode_u16 : StreamBuf → Polled StreamBuf ℕ
  poll_decode_u16 = poll_with_octets o.get_u16

  unfoldable pub decode_u16 : Async StreamBuf ℕ
  decode_u16 = run poll_decode_u16

  unfoldable pub poll_decode_u32 : StreamBuf → Polled StreamBuf ℕ
  poll_decode_u32 = poll_with_octets o.get_u32

  unfoldable pub decode_u32 : Async StreamBuf ℕ
  decode_u32 = run poll_decode_u32

  unfoldable pub poll_decode_u64 : StreamBuf → Polled StreamBuf ℕ
  poll_decode_u64 = poll_with_octets o.get_u64

  unfoldable pub decode_u64 : Async StreamBuf ℕ
  decode_u64 = run poll_decode_u64

  unfoldable pub poll_decode_varint_u64 : StreamBuf → Polled StreamBuf ℕ
  poll_decode_varint_u64 = poll_with_octets o.get_varint

  unfoldable pub decode_varint_u64 : Async StreamBuf ℕ
  decode_varint_u64 = run poll_decode_varint_u64

  -- `usize_max` is `usize::MAX` of the target. `usize::try_from` fails above it; the bytes of the
  -- integer are taken all the same.
  unfoldable pub poll_decode_varint_usize : ℕ → StreamBuf → Polled StreamBuf ℕ
  poll_decode_varint_usize usize_max s = poll_decode_varint_u64 s >>= λ v s'.
      if leb v usize_max then ready v s' else fail (io invalid_data) s'

  unfoldable pub decode_varint_usize : ℕ → Async StreamBuf ℕ
  decode_varint_usize usize_max = run (poll_decode_varint_usize usize_max)

  unfoldable pub read_with_varint_length : ℕ → Async StreamBuf Bytes
  read_with_varint_length usize_max =
      Async.◌>>=◌ (decode_varint_usize usize_max) StreamBuf.read_exact
