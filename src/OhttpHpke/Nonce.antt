-- ===== src/OhttpHpke/Nonce.antt =====
-- `ChunkNonce` of crates/ohttp-hpke/src/response.rs: the nonces of the chunks of a response.
pub mod Count
pub mod Distinct
use Prim.Native.Nat.{bit_xor}
use pvcli.Prelude.{
  ℕ, ◌+◌, zero, suc, Bool, true, false, List, [], ◌∷◌, Bytes, length, replicate, ◌==◌,
  if◌then◌else◌,
}
use pvcli.Poll.{Error, message_limit_reached}

-- `counter` is a big-endian number; `initial` and `current` are nonces of the same length.
pub record ChunkNonce : Type 0 where
  pub initial : Bytes
  pub counter : Bytes
  pub current : Bytes

unfoldable pub new : Bytes → ChunkNonce
new aead_nonce = record {
  initial = aead_nonce;
  counter = replicate (length aead_nonce) 0;
  current = aead_nonce;
}

-- The loop of `incr`, from the last byte on: the new bytes, and whether a carry is left over.
unfoldable pub incr_bytes : Bytes → Bytes × Bool
incr_bytes [] = ([], true)
incr_bytes (byte ∷ rest) =
    let (rest', carry) = incr_bytes rest in
    if carry
    then (if byte == 255 then (0 ∷ rest', true) else ((byte + 1) ∷ rest', false))
    else (byte ∷ rest', false)

-- `current_byte = counter_byte ^ initial_byte` over the zipped bytes; `current` keeps the bytes
-- past the shortest of the three.
unfoldable pub xor_into : Bytes → Bytes → Bytes → Bytes
xor_into (c ∷ counter) (i ∷ initial) (b ∷ current) = bit_xor c i ∷ xor_into counter initial current
xor_into [] initial current = current
xor_into (c ∷ counter) [] current = current
xor_into (c ∷ counter) (i ∷ initial) [] = []

-- What `next` answers beside the new state.
pub data Next : Type 0 where
  nonce : Bytes → Next
  limit : Error → Next

-- The answer, by what `incr` makes of the counter. `incr` has counted also where it fails, and then
-- the nonce is not given out.
abbrev pub answer_of : ChunkNonce → Bytes → Bytes × Bool → Next × ChunkNonce
answer_of n current (counter, false) =
    (nonce current, record n { counter = counter; current = current })
answer_of n current (counter, true) =
    (limit message_limit_reached, record n { counter = counter; current = current })

-- `next`: the nonce is of the counter as it stands, and then the counter goes up.
unfoldable pub next : ChunkNonce → Next × ChunkNonce
unfolding incr_bytes xor_into
next n = answer_of n (xor_into n.counter n.initial n.current) (incr_bytes n.counter)
