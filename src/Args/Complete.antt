-- ===== src/Args/Complete.antt =====
-- `setup_args` of src/args.rs completes the arguments once and for all.
use pvcli.Prelude.{
  ◌≡◌, refl, ap, Bool, true, false, ◌||◌, some, List, [], ◌∷◌, ◌++◌, Bytes, Bool-cases, inl, inr,
  if◌then◌else◌,
}
use pvcli.Args.Text.{to_ascii_lowercase, starts_with, contains_text}
use pvcli.Args.{
  Method, Args, contains, user_agent, content_type, user_agent_front, default_content_type,
  push_unless, method_or_default, has_form, setup_args,
}

or_true : (b : Bool) → (b || true) ≡ true
or_true true = refl
or_true false = refl

contains-append :
    (hs : List Bytes) (h key : Bytes)
    → contains (h ∷ []) key ≡ true
    → contains (hs ++ (h ∷ [])) key ≡ true
unfolding contains
contains-append [] h key e = e
contains-append (x ∷ hs) h key e = rw (contains-append hs h key e) (or_true _)

contains-kept :
    (hs : List Bytes) (h key : Bytes)
    → contains hs key ≡ true
    → contains (hs ++ (h ∷ [])) key ≡ true
unfolding contains
contains-kept [] h key e = absurd (false_true e)
  where
    false_true : false ≡ true → ⊥
    false_true z = cc
contains-kept (x ∷ hs) h key e =
    elim (Bool-cases (contains_text (to_ascii_lowercase x) (to_ascii_lowercase key))) [
      | inl here ↦ rw here refl
      | inr not_here ↦ rw not_here (contains-kept hs h key (rw not_here at e))
    ]

-- The lines that are pushed have the keys that were looked for.
agent_line : (version : Bytes) → contains ((user_agent_front ++ version) ∷ []) user_agent ≡ true
unfolding contains contains_text starts_with
agent_line version = refl

type_line : contains (default_content_type ∷ []) content_type ≡ true
unfolding contains contains_text starts_with
type_line = refl

pushed_has :
    (b : Bool) (hs : List Bytes) (line key : Bytes)
    → contains hs key ≡ b
    → contains (line ∷ []) key ≡ true
    → contains (push_unless b hs line) key ≡ true
pushed_has true hs line key e h = e
pushed_has false hs line key e h = contains-append hs line key h

push_keeps :
    (b : Bool) (hs : List Bytes) (line key : Bytes)
    → contains hs key ≡ true
    → contains (push_unless b hs line) key ≡ true
push_keeps true hs line key e = e
push_keeps false hs line key e = contains-kept hs line key e

-- The headers of the completed arguments.
abbrev with_agent : Bytes → List Bytes → List Bytes
with_agent version hs = push_unless (contains hs user_agent) hs (user_agent_front ++ version)

abbrev with_type : Method → List Bytes → List Bytes
with_type m hs =
    if has_form m then push_unless (contains hs content_type) hs default_content_type else hs

agent_kept :
    (b : Bool) (hs : List Bytes)
    → contains hs user_agent ≡ true
    → contains
        (if b then push_unless (contains hs content_type) hs default_content_type else hs)
        user_agent
      ≡ true
agent_kept true hs e = push_keeps (contains hs content_type) hs default_content_type user_agent e
agent_kept false hs e = e

type_again :
    (b : Bool) (hs : List Bytes)
    → let once = if b then push_unless (contains hs content_type) hs default_content_type else hs in
      (if b then push_unless (contains once content_type) once default_content_type else once)
      ≡ once
type_again true hs =
    rw (pushed_has (contains hs content_type) hs default_content_type content_type refl type_line)
      refl
type_again false hs = refl

headers_again :
    (version : Bytes) (m : Method) (hs : List Bytes)
    → with_type m (with_agent version (with_type m (with_agent version hs)))
      ≡ with_type m (with_agent version hs)
headers_again version m hs =
    let agent : contains (with_agent version hs) user_agent ≡ true =
      pushed_has (contains hs user_agent) hs (user_agent_front ++ version) user_agent refl
        (agent_line version) in
    rw (agent_kept (has_form m) (with_agent version hs) agent)
      (type_again (has_form m) (with_agent version hs))

-- Completed arguments are not completed again: no header is added twice, and the method that was
-- chosen from the data is the one that stays.
pub setup_args-setup_args :
    (version : Bytes) (a : Args) → setup_args version (setup_args version a) ≡ setup_args version a
unfolding setup_args
setup_args-setup_args version a =
    ap (λ h. record a { method = some (method_or_default a.method a.data_text); header = h })
      (headers_again version (method_or_default a.method a.data_text) a.header)
