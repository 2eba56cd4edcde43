-- ===== src/HyperBinary/Body.antt =====
-- crates/hyper-binary/src/decoder/body.rs: the body of a decoded message as a stream of frames.
pub mod Flat
pub mod Step
pub mod Collect
use pvcli.Prelude.{
  ℕ, zero, suc, ◌-◌, Bool, true, false, Option, none, some, Bytes, length, ◌==◌, if◌then◌else◌,
}
use pvcli.Octets.{Octets}
use pvcli.Poll.{Error, Polled, ready, fail, pending}
use pvcli.StreamBuf.{StreamBuf, poll_read_at_most, poll_has_more_data}
use pvcli.StreamOctets.{poll_decode_varint_u64}
use pvcli.HyperBinary.Decoder.{DecodedBodyKind, known_length, indeterminate_length}
use Prim.Native.Nat.{min}

pub record DecodedBody : Type 0 where
  pub kind : DecodedBodyKind
  pub stream_buf : StreamBuf

-- An answer of the StreamBuf inside a body of that kind, and what is done with a value.
abbrev pub within :
    {A B : Type 0}
    → DecodedBodyKind
    → (A → StreamBuf → Polled DecodedBody B)
    → Polled StreamBuf A
    → Polled DecodedBody B
within kind f (ready a s) = f a s
within kind f (fail e s) = fail e (record { kind = kind; stream_buf = s })
within kind f (pending s) = pending (record { kind = kind; stream_buf = s })

-- The free function `poll_read_at_most`, and the frame made of what it reads. `kind` says where
-- `remaining` stands.
abbrev pub read_frame :
    ℕ → (ℕ → DecodedBodyKind) → ℕ → StreamBuf → Polled DecodedBody (Option Bytes)
read_frame usize_max kind remaining s =
    within (kind remaining)
      (λ bytes s'.
        ready (some bytes) (record { kind = kind (remaining - length bytes); stream_buf = s' }))
      (poll_read_at_most (min remaining usize_max) s)

abbrev pub in_chunk : ℕ → DecodedBodyKind
in_chunk n = indeterminate_length (some n)

module _ (o : Octets) (usize_max : ℕ) where
  -- The length of the next chunk is known: 0 ends the body.
  abbrev pub start_chunk : ℕ → StreamBuf → Polled DecodedBody (Option Bytes)
  start_chunk zero s = ready none (record { kind = indeterminate_length none; stream_buf = s })
  start_chunk (suc n) s = read_frame usize_max in_chunk (suc n) s

  -- Between two chunks; the end of the stream counts as the chunk of length 0.
  abbrev pub next_chunk : StreamBuf → Polled DecodedBody (Option Bytes)
  next_chunk s =
      within (in_chunk 0)
        (λ more s'.
          if more
          then within (in_chunk 0) start_chunk (poll_decode_varint_u64 o s')
          else start_chunk 0 s')
        (poll_has_more_data s)

  -- `poll_frame` by the kind of the body.
  unfoldable pub frame_of : DecodedBodyKind → StreamBuf → Polled DecodedBody (Option Bytes)
  frame_of (known_length zero) s = ready none (record { kind = known_length zero; stream_buf = s })
  frame_of (known_length (suc n)) s = read_frame usize_max known_length (suc n) s
  frame_of (indeterminate_length none) s =
      ready none (record { kind = indeterminate_length none; stream_buf = s })
  frame_of (indeterminate_length (some zero)) s = next_chunk s
  frame_of (indeterminate_length (some (suc n))) s = read_frame usize_max in_chunk (suc n) s

  unfoldable pub poll_frame : DecodedBody → Polled DecodedBody (Option Bytes)
  unfolding frame_of
  poll_frame b = frame_of b.kind b.stream_buf

unfoldable pub is_end_stream : DecodedBody → Bool
is_end_stream b = elim b.kind [
  | known_length n ↦ n == 0
  | indeterminate_length none ↦ true
  | indeterminate_length (some n) ↦ false
]

-- The exact size, if the hint has one.
unfoldable pub size_hint : DecodedBody → Option ℕ
size_hint b = elim b.kind [ known_length n ↦ some n | indeterminate_length n ↦ none ]
