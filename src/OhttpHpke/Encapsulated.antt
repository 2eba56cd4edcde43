-- ===== src/OhttpHpke/Encapsulated.antt =====
-- crates/ohttp-hpke/src/encapsulated.rs: a stream of content, sealed. The sealer is a state `Se`
-- with its `seal_in_place`, which gives the ciphertext and the tag.
pub mod NonChunked
pub mod Chunks
use pvcli.Prelude.{ℕ, ◌+◌, Option, none, some, [], ◌∷◌, Bytes, length, is_empty, if◌then◌else◌}
use pvcli.Octets.{Octets, with_slice}
use pvcli.Poll.{
  Error, io, invalid_data, panicked, Polled, ready, fail, pending, Result, ok, err, unwrap,
}
use pvcli.StreamBuf.{StreamBuf, poll_read_to_end}
use pvcli.StreamBuf as Buf
use pvcli.HyperBinary.Encoder.{vec_of}

pub data ChunkState : Type 0 where
  chunk_len : ChunkState
  tag : Bytes → ChunkState

pub data State : Type 0 where
  non_chunked : State
  chunked : ChunkState → State
  done : State

pub record Encapsulated (Se : Type 0) : Type 0 where
  pub state : State
  pub sealer : Se
  pub chunk : Option Bytes
  pub stream_buf : StreamBuf

-- `Encapsulated::non_chunked` and `Encapsulated::chunked`.
unfoldable pub new_non_chunked : {Se : Type 0} → Se → Bytes → StreamBuf → Encapsulated Se
new_non_chunked sealer initial_chunk stream_buf = record {
  state = non_chunked;
  sealer = sealer;
  chunk = some initial_chunk;
  stream_buf = stream_buf;
}

unfoldable pub new_chunked : {Se : Type 0} → Se → Bytes → StreamBuf → Encapsulated Se
new_chunked sealer initial_chunk stream_buf = record {
  state = chunked chunk_len;
  sealer = sealer;
  chunk = some initial_chunk;
  stream_buf = stream_buf;
}

-- `.map_err(|e| invalid_data(…))`; a panic goes through.
abbrev pub to_invalid_data : Error → Error
to_invalid_data panicked = panicked
to_invalid_data e = io invalid_data

-- `b"final"`.
abbrev pub final_aad : Bytes
final_aad = 102 ∷ 105 ∷ 110 ∷ 97 ∷ 108 ∷ []

-- `ready!(…)?` on the StreamBuf inside.
abbrev pub in_buf :
    {Se A B : Type 0}
    → Encapsulated Se
    → Polled StreamBuf A
    → (A → Encapsulated Se → Polled (Encapsulated Se) B)
    → Polled (Encapsulated Se) B
in_buf s (ready a b) f = f a (record s { stream_buf = b })
in_buf s (fail e b) f = fail e (record s { stream_buf = b })
in_buf s (pending b) f = pending (record s { stream_buf = b })

-- The function `encoded_len`.
unfoldable pub encoded_len : Octets → ℕ → Result Bytes
encoded_len o len = vec_of (unwrap (o.put_varint len (with_slice (o.varint_len len))))

-- A result inside `poll_next`: an error leaves it, as a panic does.
abbrev pub and_then : {S A B : Type 0} → S → Result A → (A → Polled S B) → Polled S B
and_then s (ok a) f = f a
and_then s (err e) f = fail e s

-- What `seal_in_place` answered: the rest of the function, on the ciphertext and the tag.
abbrev pub answered :
    {Se B : Type 0}
    → Encapsulated Se
    → Result (Bytes × Bytes) × Se
    → (Bytes → Bytes → Encapsulated Se → Polled (Encapsulated Se) B)
    → Polled (Encapsulated Se) B
answered s (ok (ciphertext, aead_tag), sealer) f =
    f ciphertext aead_tag (record s { sealer = sealer })
answered s (err e, sealer) f = fail (to_invalid_data e) (record s { sealer = sealer })

module _ (o : Octets) {Se : Type 0}
    (seal_in_place : Se → (buf aad : Bytes) → Result (Bytes × Bytes) × Se) where
  -- Seals `buf` and goes on with the ciphertext, the tag and the new state.
  abbrev pub sealed :
      {B : Type 0}
      → Encapsulated Se
      → (buf aad : Bytes) → (Bytes → Bytes → Encapsulated Se → Polled (Encapsulated Se) B)
      → Polled (Encapsulated Se) B
  sealed s buf aad f = answered s (seal_in_place s.sealer buf aad) f

  abbrev pub seal_content : Encapsulated Se → Polled (Encapsulated Se) (Option Bytes)
  seal_content s = in_buf s (poll_read_to_end s.stream_buf) λ content s'.
      sealed s' content [] λ ciphertext aead_tag s''.
        ready (some ciphertext) (record s'' { chunk = some aead_tag; state = done })

  abbrev pub seal_final : Encapsulated Se → Polled (Encapsulated Se) (Option Bytes)
  seal_final s = sealed s [] final_aad λ _ aead_tag s'.
      and_then s' (encoded_len o 0) λ final_response_chunk_indicator.
        ready (some final_response_chunk_indicator)
          (record s' { chunk = some aead_tag; state = done })

  abbrev pub seal_chunk : Encapsulated Se → Bytes → Polled (Encapsulated Se) (Option Bytes)
  seal_chunk s plaintext =
      if is_empty plaintext
      then ready (some plaintext) s
      else (sealed s plaintext [] λ ciphertext aead_tag s'.
          and_then s' (encoded_len o (length ciphertext + length aead_tag))
            λ encoded_sealed_chunk_len.
              ready (some encoded_sealed_chunk_len)
                (record s' { chunk = some ciphertext; state = chunked (tag aead_tag) }))

  unfoldable pub poll_next : Encapsulated Se → Polled (Encapsulated Se) (Option Bytes)
  unfolding encoded_len Buf.poll_next poll_read_to_end
  poll_next s = elim s.chunk [
    | some chunk ↦ ready (some chunk) (record s { chunk = none })
    | none ↦ elim s.state [
      | non_chunked ↦ seal_content s
      | chunked (tag aead_tag) ↦ ready (some aead_tag) (record s { state = chunked chunk_len })
      | chunked chunk_len ↦
          in_buf s (Buf.poll_next s.stream_buf)
            λ next s'. elim next [ none ↦ seal_final s' | some plaintext ↦ seal_chunk s' plaintext ]
      | done ↦ ready none s
    ]
  ]
