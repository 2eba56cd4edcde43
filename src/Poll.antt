-- ===== src/Poll.antt =====
-- `std::task::Poll` and `.await`, as every crate uses them. A polled object is a value of the
-- state type `S`; a poll function takes it and gives back what it answered and the new state.
pub mod Async
use pvcli.Prelude.{ℕ, zero, suc, Option, none, some, List, ◌++◌}

-- `io::ErrorKind`, the two kinds that the crates construct.
pub data ErrorKind : Type 0 where
  unexpected_eof invalid_data : ErrorKind

-- The error type `E: From<io::Error>`: an `io::Error` (its message is left out), an error of the
-- underlying stream, the HPKE errors that the crates name, and `aead::Error`. A panic (a failed `unwrap` or
-- `assert!`) is `panicked`: it leaves the function as an error does, and nobody catches it.
pub data Error : Type 0 where
  io : ErrorKind → Error
  upstream : ℕ → Error
  message_limit_reached seal_error open_error aead_error panicked : Error

-- `Poll<Result<A, E>>`.
pub data Polled (S A : Type 0) : Type 0 where
  ready : A → S → Polled S A
  fail : Error → S → Polled S A
  pending : S → Polled S A

-- `ready!(…)?` followed by the rest of the function.
infixl 5 ◌>>=◌
abbrev pub ◌>>=◌ : {S A B : Type 0} → Polled S A → (A → S → Polled S B) → Polled S B
ready a s >>= f = f a s
fail e s >>= f = fail e s
pending s >>= f = pending s

-- `Result<A, E>` of a function that is not asynchronous.
pub data Result (A : Type 0) : Type 0 where
  ok : A → Result A
  err : Error → Result A

-- `.unwrap()` on a result whose error says nothing more.
abbrev pub unwrap : {A : Type 0} → Option A → Result A
unwrap (some a) = ok a
unwrap none = err panicked

-- What an awaited future comes to. `stuck` is no value of the source: the fuel ran out.
pub data Outcome (S A : Type 0) : Type 0 where
  done : A → S → Outcome S A
  failed : Error → S → Outcome S A
  stuck : Outcome S A

-- `future::poll_fn(|cx| p(s, cx)).await`: the executor polls until the answer is not `Pending`.
unfoldable pub await : {S A : Type 0} → ℕ → (S → Polled S A) → S → Outcome S A
await zero p s = stuck
await (suc fuel) p s = elim (p s) [
  | ready a s' ↦ done a s'
  | fail e s' ↦ failed e s'
  | pending s' ↦ await fuel p s'
]

-- Reading a `Stream` (or a `Body`) to its end: the chunks that it yields, one behind the other.
-- No function of the source; it says what a consumer gets. `acc` is what it has got so far.
unfoldable pub collect :
    {S : Type 0} → ℕ → (S → Polled S (Option (List ℕ))) → List ℕ → S → Outcome S (List ℕ)
collect zero p acc s = stuck
collect (suc fuel) p acc s = elim (p s) [
  | ready none s' ↦ done acc s'
  | ready (some b) s' ↦ collect fuel p (acc ++ b) s'
  | fail e s' ↦ failed e s'
  | pending s' ↦ collect fuel p acc s'
]
