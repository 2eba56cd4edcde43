-- ===== src/Examples/Messages.antt =====
-- A concrete `http` crate, and messages.
use pvcli.Prelude.{
  ℕ, ◌≡◌, refl, ◌&&◌, none, some, List, [], ◌∷◌, ◌++◌, Bytes, leb, ltb, if◌then◌else◌,
}
use pvcli.Prelude.{Bool-cases, inl, inr}
use pvcli.Http.{
  Http, HttpLaws, HeaderMap, Uri, get_all, bytes_eq, host_name, head?, path_and_query_bytes,
}
use pvcli.StreamBuf.{Event, not_ready, item, StreamBuf}
use pvcli.HyperBinary.Encoder.{RequestParts, ResponseParts}

-- Every byte string is valid, a header map is a list of lines, and a path keeps its query.
abbrev pub plain_http : Http
plain_http = record {
  header_name = some;
  header_value = some;
  method = some;
  scheme = some;
  authority = some;
  path_and_query = some;
  status_code = λ v. if leb 100 v && ltb v 1000 then some v else none;
  is_informational = λ v. leb 100 v && ltb v 200;
  append = λ m n v. m ++ ((n, v) ∷ []);
  get_host = λ m. head? (get_all host_name m);
  from_parts =
      λ s a p. some (record { scheme = some s; authority = some a; path = p; query = none });
}

pub get_all-append :
    (m : HeaderMap) (n v k : Bytes)
    → get_all k (m ++ ((n, v) ∷ [])) ≡ get_all k m ++ (if bytes_eq n k then v ∷ [] else [])
get_all-append [] n v k = refl
get_all-append ((n', v') ∷ m) n v k = elim (Bool-cases (bytes_eq n' k)) [
  | inl e ↦ rw (e, get_all-append m n v k) refl
  | inr e ↦ rw (e, get_all-append m n v k) refl
]

pub parts_back :
    (s a p : Bytes) (u : Uri)
    → plain_http.from_parts s a p ≡ some u
    → (u.scheme ≡ some s) × (u.authority ≡ some a) × (path_and_query_bytes u ≡ p)
parts_back s a p u e =
    let made : record { scheme = some s; authority = some a; path = p; query = none } ≡ u = cc in
    rw (← made) (refl, refl, refl)

abbrev pub plain_http-HttpLaws : HttpLaws plain_http
plain_http-HttpLaws = record {
  append_lem = get_all-append;
  get_host_lem = λ m. refl;
  from_parts_lem = parts_back;
}

abbrev pub usize_max : ℕ
usize_max = 0xffffffffffffffff

-- A response with one header line.
abbrev pub parts : ResponseParts
parts = record { status = 200; headers = (97 ∷ [], 98 ∷ []) ∷ [] }

-- A request whose authority is in its host header.
abbrev pub request_parts : RequestParts
request_parts = record {
  method = 71 ∷ [];
  uri = record {
    scheme = some (115 ∷ []);
    authority = some (120 ∷ []);
    path = 47 ∷ [];
    query = some (113 ∷ []);
  };
  headers = (host_name, 120 ∷ []) ∷ [];
}

abbrev pub request_uri : Uri
request_uri = record {
  scheme = some (115 ∷ []);
  authority = some (120 ∷ []);
  path = 47 ∷ 63 ∷ 113 ∷ [];
  query = none;
}

abbrev pub content_events : List Event
content_events = item (7 ∷ 8 ∷ []) ∷ not_ready ∷ item [] ∷ item (9 ∷ []) ∷ []

-- The encoded response and request, cut into chunks.
abbrev pub response_buf : StreamBuf
response_buf = record {
  max_buf_size = 100;
  buf = [];
  stream =
      not_ready
      ∷ item (3 ∷ 64 ∷ [])
      ∷ item (200 ∷ 1 ∷ 97 ∷ 1 ∷ 98 ∷ 0 ∷ 2 ∷ [])
      ∷ not_ready
      ∷ item (7 ∷ 8 ∷ 1 ∷ 9 ∷ 0 ∷ [])
      ∷ [];
}

abbrev pub request_buf : StreamBuf
request_buf = record {
  max_buf_size = 100;
  buf = [];
  stream =
      item (2 ∷ 1 ∷ 71 ∷ 1 ∷ 115 ∷ 0 ∷ 3 ∷ 47 ∷ 63 ∷ 113 ∷ 4 ∷ [])
      ∷ not_ready
      ∷ item (104 ∷ 111 ∷ 115 ∷ 116 ∷ 1 ∷ 120 ∷ 0 ∷ 2 ∷ 7 ∷ [])
      ∷ item (8 ∷ 1 ∷ 9 ∷ 0 ∷ [])
      ∷ [];
}
