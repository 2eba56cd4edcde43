-- ===== src/OhttpHpke/Decapsulated.antt =====
-- crates/ohttp-hpke/src/decapsulated.rs: a stream of sealed chunks, opened. The opener is a state
-- `Op` with its `open_in_place`, which gives the plaintext.
pub mod Frames
pub mod Reads
pub mod Polls
pub mod Opening
use pvcli.Prelude.{ℕ, zero, suc, Option, none, some, [], Bytes}
use pvcli.Octets.{Octets}
use pvcli.Poll.{Polled, ready, fail, pending, Result, ok, err}
use pvcli.StreamBuf.{StreamBuf, poll_read_exact, poll_read_to_end}
use pvcli.StreamOctets.{poll_decode_varint_usize}
use pvcli.OhttpHpke.Encapsulated.{to_invalid_data, final_aad}

-- `Option<NonZeroUsize>`: the number is not 0.
pub data State : Type 0 where
  chunk_len : State
  chunk : Option ℕ → State
  done : State

pub record Decapsulated (Op : Type 0) : Type 0 where
  pub state : State
  pub opener : Op
  pub stream_buf : StreamBuf

unfoldable pub new : {Op : Type 0} → Op → StreamBuf → Decapsulated Op
new opener stream_buf = record { state = chunk_len; opener = opener; stream_buf = stream_buf }

-- `NonZeroUsize::new`.
abbrev pub nonzero : ℕ → Option ℕ
nonzero zero = none
nonzero (suc n) = some (suc n)

abbrev pub in_buf :
    {Op A B : Type 0}
    → Decapsulated Op
    → Polled StreamBuf A
    → (A → Decapsulated Op → Polled (Decapsulated Op) B)
    → Polled (Decapsulated Op) B
in_buf s (ready a b) f = f a (record s { stream_buf = b })
in_buf s (fail e b) f = fail e (record s { stream_buf = b })
in_buf s (pending b) f = pending (record s { stream_buf = b })

-- What follows the loop: what `open_in_place` answered.
abbrev pub answered :
    {Op : Type 0} → Decapsulated Op → Result Bytes × Op → Polled (Decapsulated Op) (Option Bytes)
answered s (ok plaintext, opener) = ready (some plaintext) (record s { opener = opener })
answered s (err e, opener) = fail (to_invalid_data e) (record s { opener = opener })

module _ (o : Octets) (usize_max : ℕ) {Op : Type 0}
    (open_in_place : Op → (buf aad : Bytes) → Result Bytes × Op) where
  abbrev pub opened : Bytes → Bytes → Decapsulated Op → Polled (Decapsulated Op) (Option Bytes)
  opened aad ciphertext s = answered s (open_in_place s.opener ciphertext aad)

  -- A round of the loop in the state `chunk`.
  abbrev pub read_chunk : Option ℕ → Decapsulated Op → Polled (Decapsulated Op) (Option Bytes)
  read_chunk (some len) s =
      in_buf s (poll_read_exact len s.stream_buf)
        λ ciphertext s'. opened [] ciphertext (record s' { state = chunk_len })
  read_chunk none s =
      in_buf s (poll_read_to_end s.stream_buf)
        λ ciphertext s'. opened final_aad ciphertext (record s' { state = done })

  -- The loop goes round twice at most: the state `chunk_len` only comes in front of `chunk`.
  unfoldable pub poll_next : Decapsulated Op → Polled (Decapsulated Op) (Option Bytes)
  unfolding poll_decode_varint_usize poll_read_exact poll_read_to_end
  poll_next s = elim s.state [
    | chunk_len ↦
        in_buf s (poll_decode_varint_usize o usize_max s.stream_buf)
          λ len s'. read_chunk (nonzero len) (record s' { state = chunk (nonzero len) })
    | chunk len ↦ read_chunk len s
    | done ↦ ready none s
  ]
