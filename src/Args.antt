-- ===== src/Args.antt =====
-- src/args.rs: the arguments of the command line behind clap, completed and checked.
pub mod Text
pub mod Complete
pub mod Checked
use pvcli.Prelude.{
  ℕ, Bool, true, false, not, ◌&&◌, ◌||◌, Option, none, some, List, [], ◌∷◌, ◌++◌, Bytes, is_empty,
  ◌==◌, if◌then◌else◌,
}
use pvcli.Args.Text.{to_ascii_lowercase, contains_text}

-- `Method`.
pub data Method : Type 0 where
  get post put delete patch head : Method

-- `Method::as_str`.
abbrev pub as_str : Method → Bytes
as_str get = 71 ∷ 69 ∷ 84 ∷ []
as_str post = 80 ∷ 79 ∷ 83 ∷ 84 ∷ []
as_str put = 80 ∷ 85 ∷ 84 ∷ []
as_str delete = 68 ∷ 69 ∷ 76 ∷ 69 ∷ 84 ∷ 69 ∷ []
as_str patch = 80 ∷ 65 ∷ 84 ∷ 67 ∷ 72 ∷ []
as_str head = 72 ∷ 69 ∷ 65 ∷ 68 ∷ []

-- The derived `==`.
abbrev pub method_eq : Method → Method → Bool
method_eq get get = true
method_eq post post = true
method_eq put put = true
method_eq delete delete = true
method_eq patch patch = true
method_eq head head = true
method_eq m n = false

-- `Option::is_none` and `is_some`.
abbrev pub is_none : {A : Type 0} → Option A → Bool
is_none none = true
is_none (some a) = false

abbrev pub is_some : {A : Type 0} → Option A → Bool
is_some none = false
is_some (some a) = true

pub record TlsConfig : Type 0 where
  pub cacert : Option Bytes
  pub client : Option Bytes
  pub key : Option Bytes

-- `TlsConfig::is_empty` and `TlsConfig::default`.
unfoldable pub is_empty_config : TlsConfig → Bool
is_empty_config config = is_none config.cacert && is_none config.client && is_none config.key

abbrev pub no_tls_config : TlsConfig
no_tls_config = record { cacert = none; client = none; key = none }

pub record ResolveOverride : Type 0 where
  pub host : Bytes
  pub port : ℕ
  pub addresses : List Bytes

-- `Args`, as clap fills it in.
pub record Args : Type 0 where
  pub url : Bytes
  pub verbosity : ℕ
  pub silent : Bool
  pub method : Option Method
  pub header : List Bytes
  pub data_text : Option Bytes
  pub cacert : Option Bytes
  pub client : Option Bytes
  pub key : Option Bytes
  pub http3 : Bool
  pub resolve : List ResolveOverride
  pub proxy : Option Bytes
  pub ohttp : Bool
  pub proxy_http3 : Bool
  pub gateway_path : Bytes
  pub config_path : Bytes
  pub proxy_header : List Bytes
  pub proxy_cacert : Option Bytes
  pub proxy_client : Option Bytes
  pub proxy_key : Option Bytes
  pub first_hop : Option Bytes
  pub first_hop_header : List Bytes
  pub first_hop_cacert : Option Bytes
  pub first_hop_client : Option Bytes
  pub first_hop_key : Option Bytes
  pub pat_issuer : Option Bytes
  pub pat_issuer_directory : Bytes

abbrev pub proxy_tls_config : Args → TlsConfig
proxy_tls_config a = record { cacert = a.proxy_cacert; client = a.proxy_client; key = a.proxy_key }

abbrev pub first_hop_tls_config : Args → TlsConfig
first_hop_tls_config a = record {
  cacert = a.first_hop_cacert;
  client = a.first_hop_client;
  key = a.first_hop_key;
}

abbrev pub tls_config : Args → TlsConfig
tls_config a = record { cacert = a.cacert; client = a.client; key = a.key }

-- `Args::contains`: some header has the key in it, upper and lower case being the same.
unfoldable pub contains : List Bytes → Bytes → Bool
contains [] key = false
contains (h ∷ hs) key =
    contains_text (to_ascii_lowercase h) (to_ascii_lowercase key) || contains hs key

abbrev pub user_agent : Bytes
user_agent = 117 ∷ 115 ∷ 101 ∷ 114 ∷ 45 ∷ 97 ∷ 103 ∷ 101 ∷ 110 ∷ 116 ∷ []

abbrev pub content_type : Bytes
content_type = 99 ∷ 111 ∷ 110 ∷ 116 ∷ 101 ∷ 110 ∷ 116 ∷ 45 ∷ 116 ∷ 121 ∷ 112 ∷ 101 ∷ []

-- `"User-Agent:pvcli/"`, which the version follows.
abbrev pub user_agent_front : Bytes
user_agent_front =
    85 ∷ 115 ∷ 101 ∷ 114 ∷ 45 ∷ 65 ∷ 103 ∷ 101 ∷ 110 ∷ 116 ∷ 58 ∷ 112 ∷ 118 ∷ 99 ∷ 108 ∷ 105 ∷ 47
    ∷ []

abbrev pub default_content_type : Bytes
default_content_type =
    67 ∷ 111 ∷ 110 ∷ 116 ∷ 101 ∷ 110 ∷ 116 ∷ 45 ∷ 84 ∷ 121 ∷ 112 ∷ 101 ∷ 58 ∷ 97 ∷ 112 ∷ 112 ∷ 108
    ∷ 105 ∷ 99 ∷ 97 ∷ 116 ∷ 105 ∷ 111 ∷ 110 ∷ 47 ∷ 120 ∷ 45 ∷ 119 ∷ 119 ∷ 119 ∷ 45 ∷ 102 ∷ 111 ∷ 114
    ∷ 109 ∷ 45 ∷ 117 ∷ 114 ∷ 108 ∷ 101 ∷ 110 ∷ 99 ∷ 111 ∷ 100 ∷ 101 ∷ 100 ∷ []

-- `if !contains(…) { push(…) }`.
abbrev pub push_unless : Bool → List Bytes → Bytes → List Bytes
push_unless true header line = header
push_unless false header line = header ++ (line ∷ [])

abbrev pub method_or_default : Option Method → Option Bytes → Method
method_or_default (some m) data_text = m
method_or_default none none = get
method_or_default none (some d) = post

abbrev pub has_form : Method → Bool
has_form m = method_eq m post || method_eq m put || method_eq m patch

-- `setup_args`; `version` is CARGO_PKG_VERSION, which the build sets.
unfoldable pub setup_args : (version : Bytes) → Args → Args
unfolding contains
setup_args version a =
    let header =
      push_unless (contains a.header user_agent) a.header (user_agent_front ++ version) in
    let method = method_or_default a.method a.data_text in
    record a {
      method = some method;
      header =
          if has_form method
          then push_unless (contains header content_type) header default_content_type
          else header;
    }

-- The warnings, by what they say.
pub data Warning : Type 0 where
  url_is_empty data_for_get_or_head no_data_for_form proxy_without_http3 : Warning

-- `self.method == Some(m)`.
abbrev pub is_method : Option Method → Method → Bool
is_method none m = false
is_method (some n) m = method_eq n m

unfoldable pub validate_basic : Args → List (Warning × Bool)
validate_basic a =
    (url_is_empty, is_empty a.url)
    ∷ (
      data_for_get_or_head,
      (is_method a.method get || is_method a.method head) && is_some a.data_text,
    )
    ∷ (
      no_data_for_form,
      (is_method a.method post || is_method a.method put || is_method a.method patch)
          && is_none a.data_text,
    )
    ∷ []

unfoldable pub validate_proxy : Args → List (Warning × Bool)
validate_proxy a = (proxy_without_http3, a.http3 && is_some a.proxy && not a.proxy_http3) ∷ []

-- The warnings whose condition holds.
abbrev pub active : List (Warning × Bool) → List Warning
active [] = []
active ((w, true) ∷ rest) = w ∷ active rest
active ((w, false) ∷ rest) = active rest

-- `Ok(())`, or the error behind the warnings that were printed.
pub data Verdict : Type 0 where
  valid : Verdict
  invalid : List Warning → Verdict

abbrev pub verdict : List Warning → Verdict
verdict [] = valid
verdict (w ∷ ws) = invalid (w ∷ ws)

-- `validate` changes the arguments also where it fails.
unfoldable pub validate : (version : Bytes) → Args → Verdict × Args
unfolding setup_args validate_basic validate_proxy
validate version a =
    let a' = setup_args version a in (verdict (active (validate_basic a' ++ validate_proxy a')), a')

pub record RequestArgs : Type 0 where
  pub method : Method
  pub url : Bytes
  pub headers : List Bytes
  pub body : Option Bytes
  pub proxy_connect : Option Bytes
  pub proxy_tls_config : Option TlsConfig
  pub proxy_header : List Bytes

abbrev pub request_of : Args → Bool → Method → RequestArgs
request_of args is_connect method = record {
  method = method;
  url = args.url;
  headers = args.header;
  body = args.data_text;
  proxy_connect = if is_connect then args.proxy else none;
  proxy_tls_config = if is_connect then some (proxy_tls_config args) else none;
  proxy_header = if is_connect then args.proxy_header else [];
}

-- `RequestArgs::try_from`: none where there is no method.
unfoldable pub try_from : Args → Option RequestArgs
try_from args =
    let is_connect = is_some args.proxy && not args.ohttp in
    elim args.method [ none ↦ none | some method ↦ some (request_of args is_connect method) ]

-- `RequestArgs::default`.
abbrev pub default_request : RequestArgs
default_request = record {
  method = get;
  url = [];
  headers = [];
  body = none;
  proxy_connect = none;
  proxy_tls_config = none;
  proxy_header = [];
}

-- `parse_data`; the file system is a parameter.
abbrev pub at_sign : ℕ
at_sign = 64

unfoldable pub parse_data : (read_to_string : Bytes → Option Bytes) → Bytes → Option Bytes
parse_data read_to_string [] = some []
parse_data read_to_string (c ∷ d) = if c == at_sign then read_to_string d else some (c ∷ d)
