-- ===== src/Http3/Connection/Once.antt =====
-- Every request of a `Connection` (src/client/http3/connection.rs) is answered at most once.
use pvcli.Prelude.{ℕ, suc, ◌+◌, ◌%◌, ◌^◌, ◌≤◌, ◌<◌, Bool, Option, Bytes, arith}
use pvcli.Http.{Http}
use pvcli.Http3.HashMap.{times}
use pvcli.Http3.Connection.{
  H3Event, Connection, new_with_connection, handle_event, ClientRequest, handle_client_req,
}
use pvcli.Http3.Connection.Sound.{
  after, IsSound, earlier, handle_event-IsSound, handle_client_req-IsSound,
}

module _ (h : Http) (status_from_bytes : Bytes → Option ℕ) where
  -- What may happen to a connection, and how many ids the program's counter gives out meanwhile:
  -- events of the driver, requests of the user, and requests on other connections, which take ids
  -- from the same counter.
  pub data Runs : Connection → ℕ → Connection → Type 0 where
    at_start : {s : Connection} → Runs s 0 s
    by_event :
        {s t : Connection} {drawn : ℕ} (e : H3Event)
        → Runs s drawn t
        → Runs s drawn (after (handle_event h status_from_bytes t e))
    by_request :
        {s t : Connection} {drawn : ℕ} (is_open : Bool) (r : ClientRequest)
        → Runs s drawn t
        → Runs s (suc drawn) (after (handle_client_req is_open t r))
    by_others :
        {s t : Connection} {drawn : ℕ} (others : ℕ)
        → Runs s drawn t
        → Runs s
            (drawn + others)
            (record t { next_request_id = (t.next_request_id + others) % 2 ^ 64 })

  Runs-IsSound :
      (n drawn : ℕ) (s t : Connection)
      → drawn ≤ 2 ^ 64
      → IsSound n 0 s
      → Runs s drawn t
      → IsSound n drawn t
  Runs-IsSound n _ s _ le i at_start = i
  Runs-IsSound n drawn s _ le i (by_event {t = t} e r) =
      handle_event-IsSound h status_from_bytes n drawn t e (Runs-IsSound n drawn s t le i r)
  Runs-IsSound n _ s _ le i (by_request {t = t} {drawn = drawn} is_open q r) =
      handle_client_req-IsSound h status_from_bytes n drawn is_open t q (omega arith)
        (Runs-IsSound n drawn s t (omega arith) i r)
  Runs-IsSound n _ s _ le i (by_others {t = t} {drawn = drawn} others r) =
      let j : IsSound n drawn t = Runs-IsSound n drawn s t (omega arith) i r in
      record {
        counter = omega (arith, j.counter);
        once = j.once;
        given_out =
            λ id new. j.given_out id (earlier n drawn (drawn + others) id (omega arith) new);
      }

  -- However the events of the driver and the requests of the user come in, no request of a
  -- connection is answered twice, and none that is still waiting has been answered, as long as the
  -- program has given out no more than 2 ^ 64 request ids, to this connection and to others, since
  -- the connection began.
  pub answered_once :
      (n drawn id : ℕ) (s : Connection)
      → n < 2 ^ 64
      → drawn ≤ 2 ^ 64
      → Runs (new_with_connection n) drawn s
      → times id s.pending_requests + times id s.answered ≤ 1
  unfolding new_with_connection times
  answered_once n drawn id s lt le r =
      let new : IsSound n 0 (new_with_connection n) = record {
        counter = omega arith;
        once = λ i. omega arith;
        given_out = λ i fresh. omega arith;
      } in
      (Runs-IsSound n drawn (new_with_connection n) s le new r).once id
