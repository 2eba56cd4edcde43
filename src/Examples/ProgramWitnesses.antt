-- ===== src/Examples/ProgramWitnesses.antt =====
-- The theorems on the program itself (src/), applied to concrete values.
use pvcli.Prelude.{
  ℕ, ◌+◌, ◌%◌, ◌^◌, ◌≤◌, ◌≡◌, refl, true, false, not, ◌&&◌, Option, none, some, List, [], ◌∷◌,
  Bytes, is_empty, arith,
}
use pvcli.Http3.Body.{H3Body, ready, granted, not_yet, poll_write, poll_shutdown}
use pvcli.Http3.Body.Writes.{Queued, poll_write-Queued}
use pvcli.Http3.Body.Shutdown.{shut_down, shut_down-ended, ended}
use pvcli.Http3.HashMap.{times}
use pvcli.Http3.Connection.{
  Connection, new_with_connection, new_outbound_request, incoming_headers, handle_event,
  handle_client_req, ClientRequest, status_name,
}
use pvcli.Http3.Connection.Once.{Runs, at_start, by_event, by_request, by_others, answered_once}
use pvcli.Http3.Connection.Sound.{after}
use pvcli.Args.{Args, post, validate, setup_args, try_from, RequestArgs, is_some}
use pvcli.Args.Checked.{is_valid, data_fits, proxy_fits, validate_lem}
use pvcli.Args.Complete.{setup_args-setup_args}
use pvcli.Pat.{
  host, normalize_issuer_host, split_scheme, trim_end, has_slash, TokenKeyInfo, pos, negsuc,
  select_public_token_key,
}
use pvcli.Args.Text.{starts_with}
use pvcli.Pat.Host.{IsHost, normalize_issuer_host-IsHost}
use pvcli.Pat.Keys.{Picks, select_public_token_key-Picks}
use pvcli.Examples.Messages.{plain_http}

-- A body whose channel is `Pending` twice behind its first slot.
abbrev open_body : H3Body
open_body = record {
  wrote_fin = false;
  read_fin = false;
  outbound = granted ∷ not_yet ∷ not_yet ∷ granted ∷ [];
  sent = [];
  recv = false;
  recv_closed = false;
  inbound = [];
  pending_recv = none;
}

poll_write-Queued_example :
    Queued (1 ∷ 2 ∷ 3 ∷ []) true open_body (poll_write 2 (1 ∷ 2 ∷ 3 ∷ []) true open_body)
poll_write-Queued_example = poll_write-Queued 2 (1 ∷ 2 ∷ 3 ∷ []) true open_body (omega arith) refl

abbrev written_body : H3Body
written_body = record open_body { outbound = not_yet ∷ not_yet ∷ granted ∷ [] }

shut_down-ended_example :
    (shut_down 3 2 written_body ≡ (ready tt, ended written_body []))
    × (poll_shutdown 2 (ended written_body []) ≡ (ready tt, ended written_body []))
shut_down-ended_example = shut_down-ended 2 3 2 [] written_body refl refl (omega arith)

abbrev some_status : Bytes → Option ℕ
some_status b = some 204

abbrev request : ClientRequest
request = record {
  parts = record {
    method = 71 ∷ [];
    protocol = none;
    scheme = none;
    authority = none;
    path_and_query = none;
    headers = [];
  };
  exact_size = some 0;
  response = 8;
}

-- A request, its stream, and its response twice.
abbrev begun : Connection
begun = after (handle_client_req true (new_with_connection 5) request)

abbrev streaming : Connection
streaming = after (handle_event plain_http some_status begun (new_outbound_request 0 5))

abbrev once : Connection
once = after (
    handle_event plain_http some_status streaming
      (incoming_headers 0 ((status_name, 50 ∷ []) ∷ []) false))

abbrev twice : Connection
twice = after (handle_event plain_http some_status once (incoming_headers 0 [] false))

-- Other connections take three ids in between.
abbrev others : Connection
others = record twice { next_request_id = (twice.next_request_id + 3) % 2 ^ 64 }

others-Runs : Runs plain_http some_status (new_with_connection 5) 4 others
others-Runs = by_others 3 (
    by_event (incoming_headers 0 [] false) (
      by_event (incoming_headers 0 ((status_name, 50 ∷ []) ∷ []) false)
        (by_event (new_outbound_request 0 5) (by_request true request at_start))))

answered_once_example : times 5 others.pending_requests + times 5 others.answered ≤ 1
answered_once_example =
    answered_once plain_http some_status 5 4 5 others (omega arith) (omega arith) others-Runs

abbrev args : Args
args = record {
  url = 104 ∷ [];
  verbosity = 0;
  silent = false;
  method = some post;
  header = (88 ∷ 58 ∷ 49 ∷ []) ∷ [];
  data_text = some (100 ∷ []);
  cacert = none;
  client = none;
  key = none;
  http3 = true;
  resolve = [];
  proxy = some (112 ∷ []);
  ohttp = false;
  proxy_http3 = true;
  gateway_path = [];
  config_path = [];
  proxy_header = [];
  proxy_cacert = none;
  proxy_client = none;
  proxy_key = none;
  first_hop = none;
  first_hop_header = [];
  first_hop_cacert = none;
  first_hop_client = none;
  first_hop_key = none;
  pat_issuer = none;
  pat_issuer_directory = [];
}

validate_lem_example :
    (is_valid (validate (49 ∷ []) args).0
      ≡ not (is_empty args.url)
        && (data_fits args.method (is_some args.data_text)
            && proxy_fits args.http3 (is_some args.proxy) args.proxy_http3))
    × ((r : RequestArgs) × (try_from (validate (49 ∷ []) args).1 ≡ some r)
        × (r.url ≡ args.url)
        × (r.body ≡ args.data_text))
validate_lem_example = validate_lem (49 ∷ []) args

setup_args-setup_args_example :
    setup_args (49 ∷ []) (setup_args (49 ∷ []) args) ≡ setup_args (49 ∷ []) args
setup_args-setup_args_example = setup_args-setup_args (49 ∷ []) args

-- "https://a//" names the host "a".
abbrev issuer : Bytes
issuer = 104 ∷ 116 ∷ 116 ∷ 112 ∷ 115 ∷ 58 ∷ 47 ∷ 47 ∷ 97 ∷ 47 ∷ 47 ∷ []

issuer_normal : normalize_issuer_host issuer ≡ host (97 ∷ [])
unfolding normalize_issuer_host split_scheme starts_with trim_end has_slash
issuer_normal = refl

normalize_issuer_host-IsHost_example :
    IsHost (97 ∷ []) × (normalize_issuer_host (97 ∷ []) ≡ host (97 ∷ []))
normalize_issuer_host-IsHost_example = normalize_issuer_host-IsHost issuer (97 ∷ []) issuer_normal

abbrev token_keys : List TokenKeyInfo
token_keys =
    record { token_type = 2; token_key = 1 ∷ []; not_before = some (negsuc 4) }
    ∷ record { token_type = 2; token_key = 2 ∷ []; not_before = none }
    ∷ record { token_type = 2; token_key = 3 ∷ []; not_before = some (pos 900) }
    ∷ []

select_public_token_key-Picks_example :
    Picks 800 token_keys (select_public_token_key 800 token_keys)
select_public_token_key-Picks_example = select_public_token_key-Picks 800 token_keys
