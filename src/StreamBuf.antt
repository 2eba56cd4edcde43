-- ===== src/StreamBuf.antt =====
-- crates/stream-buf/src/lib.rs: a byte buffer in front of a stream of chunks.
-- The stream is the list of what its `poll_next` answers, one entry a poll; behind the last
-- entry it answers `Ready(None)`. `cx` only registers a waker and is left out.
pub mod Content
pub mod Conserve
pub mod Flat
pub mod Refine
pub mod Awaited
pub mod AtMost
pub mod Served
use pvcli.Prelude.{
  ℕ, zero, suc, ◌-◌, ◌*◌, Bool, true, false, Option, none, some, List, [], ◌∷◌, ◌++◌,
}
use pvcli.Prelude.{Bytes, length, is_empty, take, drop, ltb, leb, ◌==◌, if◌then◌else◌}
use pvcli.Poll.{Error, io, upstream, unexpected_eof, invalid_data, Polled, ready, fail, pending}
use pvcli.Poll.{◌>>=◌, Outcome, await}
use Prim.Native.Nat.{min}

-- One answer of `S::poll_next`: `Pending`, `Ready(Some(Ok(chunk)))`, `Ready(Some(Err(e)))`.
pub data Event : Type 0 where
  not_ready : Event
  item : Bytes → Event
  broken : ℕ → Event

pub record StreamBuf : Type 0 where
  pub max_buf_size : ℕ
  pub buf : Bytes
  pub stream : List Event

abbrev pub default_max_buf_size : ℕ
default_max_buf_size = 10 * 1024 * 1024

unfoldable pub new : List Event → StreamBuf
new events = record { max_buf_size = default_max_buf_size; buf = []; stream = events }

unfoldable pub max_buf_size : StreamBuf → ℕ → StreamBuf
max_buf_size s n = record s { max_buf_size = n }

-- `impl From<Bytes> for EmptyStreamBuf`
unfoldable pub from_bytes : Bytes → StreamBuf
from_bytes b = record { max_buf_size = length b; buf = b; stream = [] }

-- The free function `append`.
abbrev pub append_bytes : Bytes → Bytes → Bytes
append_bytes old more = old ++ more

-- The method `append`.
abbrev pub append : StreamBuf → Bytes → StreamBuf
append s more = record s { buf = if is_empty s.buf then more else append_bytes s.buf more }

-- `self.stream.poll_next_unpin(cx)`, with `transpose()?` behind `ready!`.
unfoldable pub poll_stream : StreamBuf → Polled StreamBuf (Option Bytes)
poll_stream s = elim s.stream [
  | [] ↦ ready none s
  | not_ready ∷ rest ↦ pending (record s { stream = rest })
  | item b ∷ rest ↦ ready (some b) (record s { stream = rest })
  | broken e ∷ rest ↦ fail (upstream e) (record s { stream = rest })
]

-- `self.buf.split_to(len)`; every caller has checked that the buffer is long enough.
abbrev pub split_to : ℕ → StreamBuf → Polled StreamBuf Bytes
split_to len s = ready (take len s.buf) (record s { buf = drop len s.buf })

-- `self.check_max_buf_size()?` in front of the rest of the function.
abbrev pub check_max_buf_size : {A : Type 0} → StreamBuf → Polled StreamBuf A → Polled StreamBuf A
check_max_buf_size s rest =
    if ltb s.max_buf_size (length s.buf) then fail (io invalid_data) s else rest

-- The head of the loop in `poll_read_exact`: serve from the buffer, or check its size and go on.
abbrev pub exact_head : ℕ → StreamBuf → Polled StreamBuf Bytes → Polled StreamBuf Bytes
exact_head len s rest = if leb len (length s.buf) then split_to len s else check_max_buf_size s rest

-- Its tail on a chunk that is long enough.
abbrev pub exact_tail : ℕ → StreamBuf → Bytes → Polled StreamBuf Bytes
exact_tail missing_len s more =
    ready
      (if is_empty s.buf then take missing_len more else append_bytes s.buf (take missing_len more))
      (record s { buf = drop missing_len more })

unfoldable pub read_exact_loop : (len max : ℕ) → Bytes → List Event → Polled StreamBuf Bytes
read_exact_loop len max b [] =
    let s : StreamBuf = record { max_buf_size = max; buf = b; stream = [] } in
    exact_head len s (fail (io unexpected_eof) s)
read_exact_loop len max b (not_ready ∷ rest) =
    let s : StreamBuf = record { max_buf_size = max; buf = b; stream = not_ready ∷ rest } in
    exact_head len s (pending (record s { stream = rest }))
read_exact_loop len max b (broken e ∷ rest) =
    let s : StreamBuf = record { max_buf_size = max; buf = b; stream = broken e ∷ rest } in
    exact_head len s (fail (upstream e) (record s { stream = rest }))
read_exact_loop len max b (item more ∷ rest) =
    let s : StreamBuf = record { max_buf_size = max; buf = b; stream = item more ∷ rest } in
    let s' : StreamBuf = record s { stream = rest } in
    let missing_len = len - length b in
    let again = read_exact_loop len max (append s' more).buf rest in
    exact_head len s
      (if leb missing_len (length more) then exact_tail missing_len s' more else again)

unfoldable pub poll_read_exact : ℕ → StreamBuf → Polled StreamBuf Bytes
unfolding read_exact_loop
poll_read_exact len s = read_exact_loop len s.max_buf_size s.buf s.stream

unfoldable pub read_to_end_loop : (max : ℕ) → Bytes → List Event → Polled StreamBuf Bytes
read_to_end_loop max b [] = ready b (record { max_buf_size = max; buf = []; stream = [] })
read_to_end_loop max b (not_ready ∷ rest) =
    pending (record { max_buf_size = max; buf = b; stream = rest })
read_to_end_loop max b (broken e ∷ rest) =
    fail (upstream e) (record { max_buf_size = max; buf = b; stream = rest })
read_to_end_loop max b (item more ∷ rest) =
    let s : StreamBuf = record { max_buf_size = max; buf = b; stream = rest } in
    read_to_end_loop max (append s more).buf rest

unfoldable pub poll_read_to_end : StreamBuf → Polled StreamBuf Bytes
unfolding read_to_end_loop
poll_read_to_end s = read_to_end_loop s.max_buf_size s.buf s.stream

unfoldable pub poll_has_more_data : StreamBuf → Polled StreamBuf Bool
unfolding poll_stream
poll_has_more_data s =
    if is_empty s.buf
    then (poll_stream s >>= λ o s'. elim o [
      | some more ↦ ready true (record s' { buf = more })
      | none ↦ ready false s'
    ])
    else ready true s

unfoldable pub poll_fill_buf : StreamBuf → Polled StreamBuf (Unit {0})
unfolding poll_stream
poll_fill_buf s = check_max_buf_size s (
    poll_stream s >>= λ o s'. elim o [
      | some more ↦ ready tt (append s' more)
      | none ↦ fail (io unexpected_eof) s'
    ])

unfoldable pub poll_read_at_most : ℕ → StreamBuf → Polled StreamBuf Bytes
unfolding poll_fill_buf
poll_read_at_most len s =
    if len == 0
    then ready [] s
    else ((if is_empty s.buf then poll_fill_buf s else ready tt s) >>= λ _ s'.
        split_to (min len (length s'.buf)) s')

-- `impl Buf for StreamBuf`; `advance` and `copy_to_bytes` panic past the end of the buffer, and
-- every caller in the crates stays within it.
unfoldable pub remaining : StreamBuf → ℕ
remaining s = length s.buf

abbrev pub chunk : StreamBuf → Bytes
chunk s = s.buf

abbrev pub advance : ℕ → StreamBuf → StreamBuf
advance cnt s = record s { buf = drop cnt s.buf }

unfoldable pub copy_to_bytes : ℕ → StreamBuf → Bytes × StreamBuf
copy_to_bytes len s = (take len s.buf, record s { buf = drop len s.buf })

-- `impl Stream for StreamBuf`
unfoldable pub poll_next : StreamBuf → Polled StreamBuf (Option Bytes)
unfolding poll_stream
poll_next s = if is_empty s.buf then poll_stream s else ready (some s.buf) (record s { buf = [] })

-- The `async` methods. Each `Pending` uses up an entry of the stream, so one poll more than the
-- stream has entries is enough fuel.
abbrev pub run : {A : Type 0} → (StreamBuf → Polled StreamBuf A) → StreamBuf → Outcome StreamBuf A
run p s = await (suc (length s.stream)) p s

unfoldable pub read_exact : ℕ → StreamBuf → Outcome StreamBuf Bytes
read_exact len = run (poll_read_exact len)

unfoldable pub read_to_end : StreamBuf → Outcome StreamBuf Bytes
read_to_end = run poll_read_to_end

unfoldable pub has_more_data : StreamBuf → Outcome StreamBuf Bool
has_more_data = run poll_has_more_data

unfoldable pub fill_buf : StreamBuf → Outcome StreamBuf (Unit {0})
fill_buf = run poll_fill_buf
