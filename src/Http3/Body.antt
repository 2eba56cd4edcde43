-- ===== src/Http3/Body.antt =====
-- `H3Body` of src/client/http3/body.rs: a stream's body, written to and read from the channels of
-- the QUIC driver.
pub mod Frames
pub mod Writes
pub mod Shutdown
use pvcli.Prelude.{
  ℕ, zero, suc, ◌+◌, ◌-◌, Bool, true, false, ◌&&◌, ◌||◌, Option, none, some, List, [], ◌∷◌, ◌++◌,
  Bytes, length, take, drop, is_empty, ltb, ◌==◌, if◌then◌else◌,
}

-- `OutboundFrame::Body` and `InboundFrame::Body`: the bytes, and whether they are the last.
pub record Frame : Type 0 where
  pub bytes : Bytes
  pub fin : Bool

-- What the outbound channel answers to `poll_reserve`, and to `send_item` behind it: the frame is
-- queued; the slot is reserved and then the channel is closed; the channel is closed; `Pending`.
pub data Reserve : Type 0 where
  granted dropped refused not_yet : Reserve

-- What the inbound channel answers to `poll_recv`.
pub data Receive : Type 0 where
  frame : Frame → Receive
  empty : Receive

-- `outbound` and `inbound` are the answers that the channels have still to give; an inbound channel
-- that has given its last answer is closed, and an outbound one stays `Pending`. `sent` is what was
-- queued so far. `recv` tells whether there is an inbound channel.
pub record H3Body : Type 0 where
  pub wrote_fin : Bool
  pub read_fin : Bool
  pub outbound : List Reserve
  pub sent : List Frame
  pub recv : Bool
  pub recv_closed : Bool
  pub inbound : List Receive
  pub pending_recv : Option Frame

unfoldable pub new : List Reserve → Bool → List Receive → Bool → H3Body
new send recv inbound read_fin = record {
  wrote_fin = false;
  read_fin = read_fin;
  outbound = send;
  sent = [];
  recv = recv;
  recv_closed = false;
  inbound = inbound;
  pending_recv = none;
}

pub data H3WriteError : Type 0 where
  wrote_fin_already no_stream_state : H3WriteError

-- `Poll<io::Result<A>>`.
pub data Answer (A : Type 0) : Type 0 where
  ready : A → Answer A
  error : H3WriteError → Answer A
  pending : Answer A

-- `buf.chunks(n)`; the fuel is the length of the buffer.
unfoldable pub chunks : ℕ → ℕ → Bytes → List Bytes
chunks zero n b = []
chunks (suc fuel) n b = if is_empty b then [] else take n b ∷ chunks fuel n (drop n b)

abbrev pub unwrap_or_default : Option ℕ → ℕ
unwrap_or_default none = 0
unwrap_or_default (some n) = n

-- `Pending` behind what was already sent.
abbrev pub sent_or_pending : Option ℕ → Answer ℕ
sent_or_pending (some sent) = ready sent
sent_or_pending none = pending

-- The frame is queued.
abbrev pub queued : Bytes → Bool → List Reserve → H3Body → H3Body
queued chunk fin rest s = record s {
  outbound = rest;
  sent = s.sent ++ (record { bytes = chunk; fin = fin } ∷ []);
  wrote_fin = s.wrote_fin || fin;
}

-- The loop over the chunks of a buffer of `total` bytes. `sent` is not raised by the chunk that
-- carries `fin`.
unfoldable pub write_loop :
    (total : ℕ) → Bool → List Reserve → Option ℕ → List Bytes → H3Body → Answer ℕ × H3Body
write_loop total fin answers sent [] s = (ready (unwrap_or_default sent), s)
write_loop total fin [] sent (chunk ∷ rest) s = (sent_or_pending sent, record s { outbound = [] })
write_loop total fin (not_yet ∷ answers) sent (chunk ∷ rest) s =
    (sent_or_pending sent, record s { outbound = answers })
write_loop total fin (refused ∷ answers) sent (chunk ∷ rest) s =
    (error no_stream_state, record s { outbound = answers })
write_loop total fin (dropped ∷ answers) sent (chunk ∷ rest) s =
    (error no_stream_state, record s { outbound = answers })
write_loop total fin (granted ∷ answers) sent (chunk ∷ rest) s =
    let sent_before = unwrap_or_default sent in
    let last = (sent_before + length chunk == total) && fin in
    let later =
      write_loop total fin answers (some (sent_before + length chunk)) rest
        (queued chunk last answers s) in
    if last then (ready sent_before, queued chunk last answers s) else later

-- An empty buffer has one empty chunk if `fin` is asked for.
abbrev pub chunks_or_fin : ℕ → Bytes → Bool → List Bytes
chunks_or_fin max_buf_size buf fin =
    if is_empty buf && fin then [] ∷ [] else chunks (length buf) max_buf_size buf

module _ (max_buf_size : ℕ) where
  unfoldable pub poll_write : Bytes → Bool → H3Body → Answer ℕ × H3Body
  unfolding chunks write_loop
  poll_write buf fin s =
      if s.wrote_fin
      then (error wrote_fin_already, s)
      else write_loop (length buf) fin s.outbound none (chunks_or_fin max_buf_size buf fin) s

  -- `AsyncWrite::poll_shutdown`: an error says that the body is shut down already.
  abbrev pub shut : Answer ℕ × H3Body → Answer (Unit {0}) × H3Body
  shut (ready n, s) = (ready tt, s)
  shut (error e, s) = (ready tt, s)
  shut (pending, s) = (pending, s)

  unfoldable pub poll_shutdown : H3Body → Answer (Unit {0}) × H3Body
  unfolding poll_write
  poll_shutdown s = if s.wrote_fin then (ready tt, s) else shut (poll_write [] true s)

-- The buffer that is read into: what was put in it, and how much more it holds.
pub record ReadBuf : Type 0 where
  pub filled : Bytes
  pub remaining : ℕ

abbrev pub put : Bytes → ReadBuf → ReadBuf
put b buf = record { filled = buf.filled ++ b; remaining = buf.remaining - length b }

-- `self.recv` is closed where the last frame has been read.
abbrev pub close_recv : H3Body → H3Body
close_recv s = record s { recv_closed = s.recv }

-- The frame in `pending_recv` goes into the buffer: whole, and then the loop goes on, or its front.
abbrev pub deliver :
    Frame
    → H3Body
    → ReadBuf
    → (H3Body → ReadBuf → Answer (Unit {0}) × (H3Body × ReadBuf))
    → Answer (Unit {0}) × (H3Body × ReadBuf)
deliver f s buf next =
    if ltb buf.remaining (length f.bytes)
    then (
      ready tt,
      (
        record s { pending_recv = some (record f { bytes = drop buf.remaining f.bytes }) },
        put (take buf.remaining f.bytes) buf,
      ),
    )
    else (let s' = record s { pending_recv = none; read_fin = s.read_fin || f.fin } in
        if s'.read_fin
        then (ready tt, (close_recv s', put f.bytes buf))
        else next s' (put f.bytes buf))

-- The loop on the inbound channel, behind the check of `read_fin`. The panic on a datagram is left
-- out: the driver sends none on the stream of a request.
unfoldable pub read_loop :
    List Receive → Bool → H3Body → ReadBuf → Answer (Unit {0}) × (H3Body × ReadBuf)
read_loop [] did_read s buf = (ready tt, (record s { inbound = [] }, buf))
read_loop (empty ∷ rest) did_read s buf =
    (if did_read then ready tt else pending, (record s { inbound = rest }, buf))
read_loop (frame f ∷ rest) did_read s buf =
    deliver f (record s { inbound = rest }) buf (read_loop rest true)

-- A round that finds no frame in `pending_recv`.
abbrev pub from_channel : Bool → H3Body → ReadBuf → Answer (Unit {0}) × (H3Body × ReadBuf)
from_channel did_read s buf =
    if s.read_fin
    then (ready tt, (close_recv s, buf))
    else if s.recv
    then read_loop s.inbound did_read s buf
    else (ready tt, (s, buf))

unfoldable pub poll_read : H3Body → ReadBuf → Answer (Unit {0}) × (H3Body × ReadBuf)
unfolding read_loop
poll_read s buf = elim s.pending_recv [
  | some f ↦ deliver f s buf (from_channel true)
  | none ↦ from_channel false s buf
]
