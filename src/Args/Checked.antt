-- ===== src/Args/Checked.antt =====
-- What `validate` of src/args.rs lets through.
use pvcli.Prelude.{
  ◌≡◌, refl, ap, ◌∙◌, Bool, true, false, not, ◌&&◌, ◌||◌, Option, none, some, [], ◌∷◌, Bytes,
  is_empty,
}
use pvcli.Args.{
  Method, get, post, put, delete, patch, head, Args, setup_args, validate_basic, validate_proxy,
  Verdict, valid, invalid, url_is_empty, data_for_get_or_head, no_data_for_form,
  proxy_without_http3, active, verdict, validate, try_from, RequestArgs, is_some, is_none,
  is_method, method_or_default,
}

-- The data that a request of the user may have: what the method wants, or any if it is left open.
abbrev pub data_fits : Option Method → Bool → Bool
data_fits none has_data = true
data_fits (some get) has_data = not has_data
data_fits (some head) has_data = not has_data
data_fits (some delete) has_data = true
data_fits (some post) has_data = has_data
data_fits (some put) has_data = has_data
data_fits (some patch) has_data = has_data

-- An inner request over HTTP/3 goes through a proxy only over HTTP/3.
abbrev pub proxy_fits : (http3 has_proxy proxy_http3 : Bool) → Bool
proxy_fits true true proxy_http3 = proxy_http3
proxy_fits true false proxy_http3 = true
proxy_fits false has_proxy proxy_http3 = true

abbrev pub is_valid : Verdict → Bool
is_valid valid = true
is_valid (invalid ws) = false

no_warning :
    (u c d e : Bool)
    → is_valid (
        verdict (
          active (
            (url_is_empty, u)
            ∷ (data_for_get_or_head, c)
            ∷ (no_data_for_form, d)
            ∷ (proxy_without_http3, e)
            ∷ [])))
      ≡ not u && (not c && (not d && (not e && true)))
no_warning true c d e = refl
no_warning false true d e = refl
no_warning false false true e = refl
no_warning false false false true = refl
no_warning false false false false = refl

data_checked :
    (m : Option Method) (d : Option Bytes) (r : Bool)
    → let chosen : Option Method = some (method_or_default m d) in
      (not ((is_method chosen get || is_method chosen head) && is_some d)
        && (not (
              (is_method chosen post || is_method chosen put || is_method chosen patch)
              && is_none d)
            && r))
      ≡ data_fits m (is_some d) && r
data_checked none none r = refl
data_checked none (some d) r = refl
data_checked (some get) none r = refl
data_checked (some get) (some d) r = refl
data_checked (some post) none r = refl
data_checked (some post) (some d) r = refl
data_checked (some put) none r = refl
data_checked (some put) (some d) r = refl
data_checked (some delete) none r = refl
data_checked (some delete) (some d) r = refl
data_checked (some patch) none r = refl
data_checked (some patch) (some d) r = refl
data_checked (some head) none r = refl
data_checked (some head) (some d) r = refl

proxy_checked : (h p x : Bool) → (not (h && p && not x) && true) ≡ proxy_fits h p x
proxy_checked true true true = refl
proxy_checked true true false = refl
proxy_checked true false x = refl
proxy_checked false p x = refl

-- `validate` succeeds exactly on a URL that is not empty, data as the method wants them (none for GET
-- and HEAD, some for POST, PUT and PATCH, either for DELETE and where no method is given), and, for
-- HTTP/3 through a proxy, a proxy over HTTP/3. What it leaves always converts to a request, with the
-- URL and the data of the user.
pub validate_lem :
    (version : Bytes) (a : Args)
    → (is_valid (validate version a).0
        ≡ not (is_empty a.url)
          && (data_fits a.method (is_some a.data_text)
              && proxy_fits a.http3 (is_some a.proxy) a.proxy_http3))
      × ((r : RequestArgs) × (try_from (validate version a).1 ≡ some r)
          × (r.url ≡ a.url)
          × (r.body ≡ a.data_text))
unfolding validate setup_args validate_basic validate_proxy try_from
validate_lem version a =
    let m : Option Method = some (method_or_default a.method a.data_text) in
    let c : Bool = (is_method m get || is_method m head) && is_some a.data_text in
    let d : Bool =
      (is_method m post || is_method m put || is_method m patch) && is_none a.data_text in
    let u : Bool = is_empty a.url in
    let e : Bool = a.http3 && is_some a.proxy && not a.proxy_http3 in
    let fits : Bool = proxy_fits a.http3 (is_some a.proxy) a.proxy_http3 in
    (
      no_warning u c d e
          ∙ ap (λ b. not u && (not c && (not d && b)))
              (proxy_checked a.http3 (is_some a.proxy) a.proxy_http3)
          ∙ ap (λ b. not u && b) (data_checked a.method a.data_text fits),
      (_, refl, refl, refl),
    )
