-- ===== src/Http3/Connection/Sound.antt =====
-- What every handler of a `Connection` (src/client/http3/connection.rs) keeps: which requests wait and
-- which are answered.
use pvcli.Prelude.{
  ℕ, suc, ◌+◌, ◌%◌, ◌^◌, ◌≤◌, ◌<◌, ◌≡◌, ◌≢◌, refl, ap, ◌∙◌, Bool, true, false, Option, none, some,
  List, [], ◌∷◌, ◌++◌, Bytes, inl, inr, arith,
}
use pvcli.Http.{Http, HeaderMap}
use pvcli.Http3.HashMap as HashMap
use pvcli.Http3.HashMap.{
  times, times-append, times-one, times-other, times-remove, remove-le, get-times,
}
use pvcli.Http3.Connection.{
  Header, Response, H3Event, new_outbound_request, connection_error, go_away, connection_shutdown,
  new_flow, incoming_settings, incoming_headers, reset_stream, body_bytes_received, stream_closed,
  Connection, Step, goes_on, ends, respond, to_request, to_stream, set_settings, reset,
  handle_event, h3_response_to_hyper_response, ClientRequest, handle_client_req,
}

abbrev pub after : Step → Connection
after (goes_on s) = s
after (ends e s) = s

-- The counter, begun at `n`, has not given the id out in its first `drawn` steps.
abbrev pub NotDrawn : (n drawn id : ℕ) → Type 0
NotDrawn n drawn id = (j : ℕ) → j < drawn → id ≢ (n + j) % 2 ^ 64

-- A request is waiting or answered, and that once at most; an id that was not given out is neither.
pub record IsSound (n drawn : ℕ) (s : Connection) : Type 0 where
  pub counter : s.next_request_id ≡ (n + drawn) % 2 ^ 64
  pub once : (id : ℕ) → times id s.pending_requests + times id s.answered ≤ 1
  pub given_out :
      (id : ℕ) → NotDrawn n drawn id → times id s.pending_requests + times id s.answered ≡ 0

-- Within 2 ^ 64 steps the counter does not come round.
next-NotDrawn : (n drawn : ℕ) → drawn < 2 ^ 64 → NotDrawn n drawn ((n + drawn) % 2 ^ 64)
next-NotDrawn n drawn lt j le e = omega (arith, e)

-- What is not drawn in more steps is not drawn in fewer.
pub earlier : (n drawn later id : ℕ) → drawn ≤ later → NotDrawn n later id → NotDrawn n drawn id
earlier n drawn later id le new j lt = new j (omega arith)

-- The pending requests become fewer, and nothing else that counts changes.
fewer-IsSound :
    (n drawn : ℕ) (s : Connection) (pending : HashMap.Map ℕ) (answered : HashMap.Map (ℕ × Response))
    → ((id : ℕ)
        → times id pending + times id answered ≤ times id s.pending_requests + times id s.answered)
    → IsSound n drawn s
    → IsSound n drawn (record s { pending_requests = pending; answered = answered })
fewer-IsSound n drawn s pending answered le h = record {
  counter = h.counter;
  once = λ id. omega (arith, le id, h.once id);
  given_out = λ id new. omega (arith, le id, h.given_out id new);
}

removed-le :
    (s : Connection) (k id : ℕ)
    → times id (HashMap.remove k s.pending_requests) + times id s.answered
      ≤ times id s.pending_requests + times id s.answered
removed-le s k id = omega (arith, remove-le id k s.pending_requests)

-- A pending request moves over to the answered ones.
moved-le :
    (s : Connection) (k id : ℕ) (channel : ℕ) (r : ℕ × Response)
    → HashMap.get k s.pending_requests ≡ some channel
    → times id (HashMap.remove k s.pending_requests) + times id (s.answered ++ ((k, r) ∷ []))
      ≤ times id s.pending_requests + times id s.answered
moved-le s k id channel r e = elim (times-other id k r) [
  | inl none_here ↦ omega (
    arith,
    remove-le id k s.pending_requests,
    times-append id s.answered ((k, r) ∷ []),
    none_here,
  )
  | inr same ↦ rw (ap (λ j. j) same) (
      omega (
        arith,
        times-remove k s.pending_requests,
        times-append k s.answered ((k, r) ∷ []),
        times-one k k r,
        get-times k channel s.pending_requests e,
      ))
]

module _ (h : Http) (status_from_bytes : Bytes → Option ℕ) where
  respond-IsSound :
      (n drawn : ℕ) (s : Connection) (stream_id request_id channel : ℕ) (read_fin : Bool)
      (r : Option (ℕ × HeaderMap))
      → HashMap.get request_id s.pending_requests ≡ some channel
      → IsSound n drawn s
      → IsSound n drawn (
          after (
            respond h status_from_bytes
              (record s { pending_requests = HashMap.remove request_id s.pending_requests })
              stream_id
              request_id
              channel
              read_fin
              r))
  respond-IsSound n drawn s stream_id request_id channel read_fin none e i =
      fewer-IsSound n drawn s (HashMap.remove request_id s.pending_requests) s.answered
        (removed-le s request_id) i
  respond-IsSound n drawn s stream_id request_id channel read_fin (some (status, headers)) e i =
      fewer-IsSound n drawn s (HashMap.remove request_id s.pending_requests) _
        (λ id. moved-le s request_id id channel _ e) i

  to_request-IsSound :
      (n drawn : ℕ) (s : Connection) (stream_id : ℕ) (headers : List Header) (read_fin : Bool)
      (request_id : ℕ) (found : Option ℕ)
      → HashMap.get request_id s.pending_requests ≡ found
      → IsSound n drawn s
      → IsSound n drawn
          (after (to_request h status_from_bytes s stream_id headers read_fin request_id found))
  to_request-IsSound n drawn s stream_id headers read_fin request_id none e i = i
  to_request-IsSound n drawn s stream_id headers read_fin request_id (some channel) e i =
      respond-IsSound n drawn s stream_id request_id channel read_fin
        (h3_response_to_hyper_response h status_from_bytes headers) e i

  to_stream-IsSound :
      (n drawn : ℕ) (s : Connection) (stream_id : ℕ) (headers : List Header) (read_fin : Bool)
      (found : Option ℕ)
      → IsSound n drawn s
      → IsSound n drawn (after (to_stream h status_from_bytes s stream_id headers read_fin found))
  to_stream-IsSound n drawn s stream_id headers read_fin none i = i
  to_stream-IsSound n drawn s stream_id headers read_fin (some request_id) i =
      to_request-IsSound n drawn
        (record s { stream_id_to_request_id = HashMap.remove stream_id s.stream_id_to_request_id })
        stream_id headers read_fin request_id (HashMap.get request_id s.pending_requests) refl
        (record { counter = i.counter; once = i.once; given_out = i.given_out })

  settings-IsSound :
      (n drawn : ℕ) (s : Connection) (settings : List (ℕ × ℕ)) (old : Option (List (ℕ × ℕ)))
      → IsSound n drawn s
      → IsSound n drawn (after (set_settings h status_from_bytes s settings old))
  settings-IsSound n drawn s settings none i = record {
    counter = i.counter;
    once = i.once;
    given_out = i.given_out;
  }
  settings-IsSound n drawn s settings (some old) i = i

  reset-IsSound :
      (n drawn : ℕ) (s : Connection) (found : Option ℕ)
      → IsSound n drawn s
      → IsSound n drawn (reset h status_from_bytes s found)
  reset-IsSound n drawn s none i = i
  reset-IsSound n drawn s (some request_id) i =
      fewer-IsSound n drawn s (HashMap.remove request_id s.pending_requests) s.answered
        (removed-le s request_id) i

  pub handle_event-IsSound :
      (n drawn : ℕ) (s : Connection) (e : H3Event)
      → IsSound n drawn s
      → IsSound n drawn (after (handle_event h status_from_bytes s e))
  unfolding handle_event
  handle_event-IsSound n drawn s (new_outbound_request stream_id request_id) i = record {
    counter = i.counter;
    once = i.once;
    given_out = i.given_out;
  }
  handle_event-IsSound n drawn s connection_error i = i
  handle_event-IsSound n drawn s go_away i = i
  handle_event-IsSound n drawn s connection_shutdown i = i
  handle_event-IsSound n drawn s (new_flow flow_id) i = record {
    counter = i.counter;
    once = i.once;
    given_out = i.given_out;
  }
  handle_event-IsSound n drawn s (incoming_settings settings) i =
      settings-IsSound n drawn s settings s.peer_settings i
  handle_event-IsSound n drawn s (incoming_headers stream_id headers read_fin) i =
      to_stream-IsSound n drawn s stream_id headers read_fin
        (HashMap.get stream_id s.stream_id_to_request_id) i
  handle_event-IsSound n drawn s (reset_stream stream_id) i =
      reset-IsSound n drawn s (HashMap.get stream_id s.stream_id_to_request_id) i
  handle_event-IsSound n drawn s body_bytes_received i = i
  handle_event-IsSound n drawn s stream_closed i = i

  pub handle_client_req-IsSound :
      (n drawn : ℕ) (is_open : Bool) (s : Connection) (r : ClientRequest)
      → drawn < 2 ^ 64
      → IsSound n drawn s
      → IsSound n (suc drawn) (after (handle_client_req is_open s r))
  unfolding handle_client_req
  handle_client_req-IsSound n drawn false s r lt i = record {
    counter = omega (arith, i.counter);
    once = i.once;
    given_out = λ id new. i.given_out id (earlier n drawn (suc drawn) id (omega arith) new);
  }
  handle_client_req-IsSound n drawn true s r lt i =
      let k : ℕ = s.next_request_id in
      let fresh : times k s.pending_requests + times k s.answered ≡ 0 =
        i.given_out k (rw (i.counter) (next-NotDrawn n drawn lt)) in
      let split : (id : ℕ)
          → times id (HashMap.insert k r.response s.pending_requests)
            ≡ times id ((k, r.response) ∷ []) + times id (HashMap.remove k s.pending_requests) =
        λ id. times-append id ((k, r.response) ∷ []) (HashMap.remove k s.pending_requests) in
      record {
        counter = omega (arith, i.counter);
        once = λ id. elim (times-other id k r.response) [
          | inl none_here ↦
              omega (arith, split id, none_here, remove-le id k s.pending_requests, i.once id)
          | inr same ↦ rw same (
              omega
                (arith, split k, times-one k k r.response, remove-le k k s.pending_requests, fresh))
        ];
        given_out = λ id new. elim (times-other id k r.response) [
          | inl none_here ↦ omega (
            arith,
            split id,
            none_here,
            remove-le id k s.pending_requests,
            i.given_out id (earlier n drawn (suc drawn) id (omega arith) new),
          )
          | inr same ↦ absurd (new drawn (omega arith) (same ∙ i.counter))
        ];
      }
