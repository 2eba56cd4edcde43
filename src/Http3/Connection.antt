-- ===== src/Http3/Connection.antt =====
-- `Connection` of src/client/http3/connection.rs: the requests in flight on an HTTP/3 connection,
-- by the events of the QUIC driver.
pub mod Sound
pub mod Once
use pvcli.Prelude.{
  ℕ, zero, suc, ◌+◌, ◌%◌, ◌^◌, Bool, true, false, not, ◌||◌, Option, none, some, List, [], ◌∷◌,
  ◌++◌, Bytes, ◌==◌, if◌then◌else◌,
}
use pvcli.Http3.HashMap
use pvcli.Http.{Http, HeaderMap, Uri, bytes_eq, path_and_query_bytes}

abbrev pub Header : Type 0
Header = Bytes × Bytes

-- A response without its body, and the body that `H3Body::new` makes of the stream.
pub record Response : Type 0 where
  pub status : ℕ
  pub headers : HeaderMap
  pub stream_id : ℕ
  pub read_fin : Bool

pub data H3Event : Type 0 where
  new_outbound_request : (stream_id request_id : ℕ) → H3Event
  connection_error go_away connection_shutdown : H3Event
  new_flow : (flow_id : ℕ) → H3Event
  incoming_settings : List (ℕ × ℕ) → H3Event
  incoming_headers : (stream_id : ℕ) → List Header → (read_fin : Bool) → H3Event
  reset_stream : (stream_id : ℕ) → H3Event
  body_bytes_received stream_closed : H3Event

-- The errors with which `handle_event` and `handle_client_req` end the connection.
pub data Failure : Type 0 where
  connection_lost goaway shut_down duplicate_settings unknown_stream bad_response : Failure
  io_worker_gone : Failure

-- `REQUEST_ID` is a static of the program and stands here beside the connection. A request is
-- answered through its `oneshot::Sender`, which the name of a channel stands for; `answered` is what
-- was sent into the channels, by request. `submitted` is what the I/O worker was given.
pub record NewClientRequest : Type 0 where
  pub request_id : ℕ
  pub headers : List Header
  pub with_body_writer : Bool

pub record Connection : Type 0 where
  pub next_request_id : ℕ
  pub pending_requests : HashMap.Map ℕ
  pub stream_id_to_request_id : HashMap.Map ℕ
  pub flow_map : HashMap.Map (Unit {0})
  pub peer_settings : Option (List (ℕ × ℕ))
  pub answered : List (ℕ × (ℕ × Response))
  pub submitted : List NewClientRequest

-- What a handler comes to: it goes on, or the connection ends.
pub data Step : Type 0 where
  goes_on : Connection → Step
  ends : Failure → Connection → Step

-- `new_with_connection`.
unfoldable pub new_with_connection : ℕ → Connection
new_with_connection next_request_id = record {
  next_request_id = next_request_id;
  pending_requests = [];
  stream_id_to_request_id = [];
  flow_map = [];
  peer_settings = none;
  answered = [];
  submitted = [];
}

abbrev pub status_name : Bytes
status_name = 58 ∷ 115 ∷ 116 ∷ 97 ∷ 116 ∷ 117 ∷ 115 ∷ []

abbrev pub method_name : Bytes
method_name = 58 ∷ 109 ∷ 101 ∷ 116 ∷ 104 ∷ 111 ∷ 100 ∷ []

abbrev pub protocol_name : Bytes
protocol_name = 58 ∷ 112 ∷ 114 ∷ 111 ∷ 116 ∷ 111 ∷ 99 ∷ 111 ∷ 108 ∷ []

abbrev pub scheme_name : Bytes
scheme_name = 58 ∷ 115 ∷ 99 ∷ 104 ∷ 101 ∷ 109 ∷ 101 ∷ []

abbrev pub authority_name : Bytes
authority_name = 58 ∷ 97 ∷ 117 ∷ 116 ∷ 104 ∷ 111 ∷ 114 ∷ 105 ∷ 116 ∷ 121 ∷ []

abbrev pub path_name : Bytes
path_name = 58 ∷ 112 ∷ 97 ∷ 116 ∷ 104 ∷ []

abbrev pub connect : Bytes
connect = 67 ∷ 79 ∷ 78 ∷ 78 ∷ 69 ∷ 67 ∷ 84 ∷ []

-- `http::request::Parts`; `path_and_query` is none where the URI has only an authority.
pub record RequestParts : Type 0 where
  pub method : Bytes
  pub protocol : Option Bytes
  pub scheme : Option Bytes
  pub authority : Option Bytes
  pub path_and_query : Option Bytes
  pub headers : HeaderMap

abbrev pub pseudo : Bytes → Option Bytes → List Header
pseudo name none = []
pseudo name (some value) = (name, value) ∷ []

unfoldable pub hyper_request_parts_to_h3_headers : RequestParts → List Header
hyper_request_parts_to_h3_headers parts =
    pseudo method_name (some parts.method)
    ++ (pseudo protocol_name parts.protocol
        ++ (pseudo scheme_name parts.scheme
            ++ (pseudo authority_name parts.authority
                ++ (pseudo path_name parts.path_and_query ++ parts.headers))))

module _ (h : Http) (status_from_bytes : Bytes → Option ℕ) where
  -- The builder of a response: its status, 200 to begin with, and its headers.
  abbrev pub with_header : ℕ → HeaderMap → Option Bytes → Option Bytes → Option (ℕ × HeaderMap)
  with_header status headers (some name) (some value) = some (status, h.append headers name value)
  with_header status headers (some name) none = none
  with_header status headers none value = none

  abbrev pub with_status : HeaderMap → Option ℕ → Option (ℕ × HeaderMap)
  with_status headers (some status) = some (status, headers)
  with_status headers none = none

  -- A builder with an error in it keeps it to the end.
  unfoldable pub build : Option (ℕ × HeaderMap) → List Header → Option (ℕ × HeaderMap)
  build none headers = none
  build (some builder) [] = some builder
  build (some (status, headers)) ((name, value) ∷ rest) =
      build
        (if bytes_eq name status_name
          then with_status headers (status_from_bytes value)
          else with_header status headers (h.header_name name) (h.header_value value))
        rest

  unfoldable pub h3_response_to_hyper_response : List Header → Option (ℕ × HeaderMap)
  unfolding build
  h3_response_to_hyper_response headers = build (some (200, [])) headers

  -- The response goes into the channel of its request.
  abbrev pub respond :
      Connection → (stream_id request_id channel : ℕ) → Bool → Option (ℕ × HeaderMap) → Step
  respond s stream_id request_id channel read_fin none = ends bad_response s
  respond s stream_id request_id channel read_fin (some (status, headers)) = goes_on (record s {
    answered =
        s.answered
        ++ ((
          request_id,
          (
            channel,
            record {
              status = status;
              headers = headers;
              stream_id = stream_id;
              read_fin = read_fin;
            },
          ),
        )
            ∷ []);
  })

  abbrev pub to_request : Connection → (stream_id : ℕ) → List Header → Bool → ℕ → Option ℕ → Step
  to_request s stream_id headers read_fin request_id none = goes_on s
  to_request s stream_id headers read_fin request_id (some channel) =
      respond (record s { pending_requests = HashMap.remove request_id s.pending_requests })
        stream_id request_id channel read_fin (h3_response_to_hyper_response headers)

  abbrev pub to_stream : Connection → (stream_id : ℕ) → List Header → Bool → Option ℕ → Step
  to_stream s stream_id headers read_fin none = ends unknown_stream s
  to_stream s stream_id headers read_fin (some request_id) =
      to_request
        (record s { stream_id_to_request_id = HashMap.remove stream_id s.stream_id_to_request_id })
        stream_id headers read_fin request_id (HashMap.get request_id s.pending_requests)

  abbrev pub set_settings : Connection → List (ℕ × ℕ) → Option (List (ℕ × ℕ)) → Step
  set_settings s settings none = goes_on (record s { peer_settings = some settings })
  set_settings s settings (some old) = ends duplicate_settings s

  abbrev pub reset : Connection → Option ℕ → Connection
  reset s none = s
  reset s (some request_id) = record s {
    pending_requests = HashMap.remove request_id s.pending_requests;
  }

  unfoldable pub handle_event : Connection → H3Event → Step
  unfolding h3_response_to_hyper_response HashMap.get HashMap.remove
  handle_event s (new_outbound_request stream_id request_id) = goes_on (record s {
    stream_id_to_request_id = HashMap.insert stream_id request_id s.stream_id_to_request_id;
  })
  handle_event s connection_error = ends connection_lost s
  handle_event s go_away = ends goaway s
  handle_event s connection_shutdown = ends shut_down s
  handle_event s (new_flow flow_id) =
      goes_on (record s { flow_map = HashMap.insert flow_id tt s.flow_map })
  handle_event s (incoming_settings settings) = set_settings s settings s.peer_settings
  handle_event s (incoming_headers stream_id headers read_fin) =
      to_stream s stream_id headers read_fin (HashMap.get stream_id s.stream_id_to_request_id)
  handle_event s (reset_stream stream_id) =
      goes_on (reset s (HashMap.get stream_id s.stream_id_to_request_id))
  handle_event s body_bytes_received = goes_on s
  handle_event s stream_closed = goes_on s

-- A request of the user, with what `size_hint().exact()` says of its body and the channel that
-- waits for the response.
pub record ClientRequest : Type 0 where
  pub parts : RequestParts
  pub exact_size : Option ℕ
  pub response : ℕ

abbrev pub has_body : Option ℕ → Bool
has_body none = true
has_body (some n) = not (n == 0)

-- `is_open` tells whether the I/O worker still takes requests. The task that copies the body to the
-- writer is left out. `fetch_add` on an `AtomicU64` wraps around.
unfoldable pub handle_client_req : Bool → Connection → ClientRequest → Step
unfolding hyper_request_parts_to_h3_headers HashMap.remove
handle_client_req is_open s client_request =
    let request_id = s.next_request_id in
    let counted : Connection = record s { next_request_id = (request_id + 1) % 2 ^ 64 } in
    let request : NewClientRequest = record {
      request_id = request_id;
      headers = hyper_request_parts_to_h3_headers client_request.parts;
      with_body_writer =
          bytes_eq client_request.parts.method connect || has_body client_request.exact_size;
    } in
    if is_open
    then goes_on (record counted {
      submitted = s.submitted ++ (request ∷ []);
      pending_requests = HashMap.insert request_id client_request.response s.pending_requests;
    })
    else ends io_worker_gone counted
