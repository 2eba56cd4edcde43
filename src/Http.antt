-- ===== src/Http.antt =====
-- The third-party crates `http` and `hyper`: validated strings, status codes, header maps, URIs.
-- They are a parameter of the models. A validated value is kept as the bytes that it prints as
-- (`as_str`, `as_bytes`), and a header map as the list that its `iter()` yields.
use pvcli.Prelude.{ℕ, ◌≡◌, Bool, true, false, ◌&&◌, Option, none, some, List, [], ◌∷◌, ◌++◌, Bytes}
use pvcli.Prelude.{◌==◌, if◌then◌else◌}

abbrev pub HeaderMap : Type 0
HeaderMap = List (Bytes × Bytes)

pub record Uri : Type 0 where
  pub scheme : Option Bytes
  pub authority : Option Bytes
  pub path : Bytes
  pub query : Option Bytes

pub record Http : Type 0 where
  -- `HeaderName::try_from`, `HeaderValue::from_maybe_shared`, `Method::try_from`,
  -- `Scheme::try_from`, `Authority::from_maybe_shared` and `PathAndQuery::from_maybe_shared`.
  pub header_name : Bytes → Option Bytes
  pub header_value : Bytes → Option Bytes
  pub method : Bytes → Option Bytes
  pub scheme : Bytes → Option Bytes
  pub authority : Bytes → Option Bytes
  pub path_and_query : Bytes → Option Bytes
  -- `StatusCode::from_u16` and `is_informational`.
  pub status_code : ℕ → Option ℕ
  pub is_informational : ℕ → Bool
  -- `HeaderMap::append` and `get(header::HOST)`.
  pub append : HeaderMap → Bytes → Bytes → HeaderMap
  pub get_host : HeaderMap → Option Bytes
  -- `Uri::from_parts` with a scheme, an authority and a path.
  pub from_parts : Bytes → Bytes → Bytes → Option Uri

abbrev pub bytes_eq : Bytes → Bytes → Bool
bytes_eq [] [] = true
bytes_eq [] (y ∷ ys) = false
bytes_eq (x ∷ xs) [] = false
bytes_eq (x ∷ xs) (y ∷ ys) = (x == y) && bytes_eq xs ys

-- The values under one name, in order: all that a program sees of a header map, but for the
-- order in which the names come.
abbrev pub get_all : Bytes → HeaderMap → List Bytes
get_all k [] = []
get_all k ((n, v) ∷ m) = if bytes_eq n k then v ∷ get_all k m else get_all k m

-- `header::HOST` prints as "host".
abbrev pub host_name : Bytes
host_name = 104 ∷ 111 ∷ 115 ∷ 116 ∷ []

abbrev pub head? : List Bytes → Option Bytes
head? [] = none
head? (v ∷ vs) = some v

-- The bytes of path and query, as in the request line.
abbrev pub path_and_query_bytes : Uri → Bytes
path_and_query_bytes u = elim u.query [ none ↦ u.path | some q ↦ u.path ++ (63 ∷ q) ]

pub record HttpLaws (h : Http) : Type 0 where
  -- `append` puts the value behind the values of its name and leaves the other names alone.
  pub append_lem :
      (m : HeaderMap) (n v k : Bytes)
      → get_all k (h.append m n v) ≡ get_all k m ++ (if bytes_eq n k then v ∷ [] else [])
  pub get_host_lem : (m : HeaderMap) → h.get_host m ≡ head? (get_all host_name m)
  -- The parts of a URI are those that it was made of.
  pub from_parts_lem :
      (s a p : Bytes) (u : Uri)
      → h.from_parts s a p ≡ some u
      → (u.scheme ≡ some s) × (u.authority ≡ some a) × (path_and_query_bytes u ≡ p)
