-- ===== src/Control/Request.antt =====
-- What a proxied request carries, of api2agent/control/proxy.py: the metadata that is recorded of
-- it, the reference to its credential, and the options with which it is forwarded.
use mathlib.Core.Option
use api2agent.Common.{
  false, true, String, Bool, not, ◌&&◌, ◌||◌, Option, none, some, List, [], ◌∷◌, ◌==◌, ◌<>◌,
  contains, insert, update, erase, if◌then◌else◌,
}
use api2agent.Python.Text.{lower, take_chars, drop_chars}
use api2agent.Python.Value.{
  Items, nil, cons, field, end, cons, Items, Value, text, obj, arr, Object, object, entries, get,
  truthy, str, or_else, is_text,
}
use api2agent.Credentials.{CredentialInjectionPatch, ResolvedCredential}

pub record ForwardOptions : Type 0 where
  pub headers : Object
  pub params : Object
  pub json : Value
  pub timeout : Value

pub record Sent : Type 0 where
  pub method : String
  pub url : String
  pub options : ForwardOptions

unfoldable pub sensitive : String → Bool
sensitive key =
    contains ("authorization" ∷ "x-api-key" ∷ "api-key" ∷ "cookie" ∷ "set-cookie" ∷ []) (lower key)

unfoldable pub redact_headers : Object → Object
unfolding sensitive
redact_headers [] = []
redact_headers ((key, value) ∷ headers) =
    (key, if sensitive key then text "[REDACTED]" else value) ∷ redact_headers headers

unfoldable pub without_secret : Object → Object
unfolding erase
without_secret credential = erase "secret_value" credential

-- A resolved credential's description, or the request's own where that is empty.
unfoldable pub first_metadata : Option Object → Object → Option Object
unfolding without_secret
first_metadata credential [] = Option.map without_secret credential
first_metadata credential (entry ∷ rest) = some (entry ∷ rest)

-- `_safe_credential_metadata`
unfoldable pub safe_credential_metadata : Option Object → Option ResolvedCredential → Option Object
unfolding first_metadata without_secret
safe_credential_metadata credential none = Option.map without_secret credential
safe_credential_metadata credential (some resolved) =
    first_metadata credential resolved.redacted_metadata

unfoldable pub credential_entry : Option Object → List (String × Value)
credential_entry none = []
credential_entry (some metadata) = ("credential", object metadata) ∷ []

unfoldable pub safe_request_metadata : String → String → Object → Object → Option Object → Object
unfolding credential_entry
safe_request_metadata method url request headers credential =
    ("method", text method)
    ∷ ("url", text url)
    ∷ ("params", or_else (get request "params") (object []))
    ∷ ("json", get request "json")
    ∷ ("headers", object (redact_headers headers))
    ∷ credential_entry credential

-- The first header that carries a credential.
unfoldable pub header_reference : Object → Option String
header_reference [] = none
header_reference ((key, value) ∷ headers) =
    if contains ("authorization" ∷ "x-api-key" ∷ "api-key" ∷ []) (lower key)
    then some ("header:" <> key)
    else header_reference headers

-- A list or a dict is in no set: to ask for it raises.
abbrev pub is_unhashable : Value → Bool
is_unhashable (arr vs) = true
is_unhashable (obj fs) = true
is_unhashable v = false

-- `_credential_reference` without a resolved credential; `none` is the `TypeError` of its `in`.
unfoldable pub request_reference :
    (Value → String) → Object → Option Object → Option (Option String)
unfolding header_reference without_secret
request_reference repr headers none = some (header_reference headers)
request_reference repr headers (some credential) =
    let safe = without_secret credential in
    let source = get safe "source" in
    if is_unhashable source
    then none
    else if is_text source "env"
    then some (some ("env:" <> str repr (get safe "secret_ref")))
    else if is_text source "config" || is_text source "inline"
    then some (some (str repr source <> (":" <> str repr (get safe "credential_id"))))
    else some (header_reference headers)

-- `d.get(k) or {}`, where that is a dict
unfoldable pub dict_or_empty : Value → Option Object
dict_or_empty (obj fs) = some (entries fs)
dict_or_empty v = if truthy v then none else some []

-- What `dict` takes for an entry: a list of two, two letters, or a dict of two keys. A key that is
-- no text is refused here.
pair_of : Value → Option (String × Value)
pair_of (arr (cons (text k) (cons v nil))) = some (k, v)
pair_of (text s) =
    if (take_chars 2 s == s) && not (take_chars 1 s == s)
    then some (take_chars 1 s, text (drop_chars 1 s))
    else none
pair_of (obj (field j v (field k w end))) = some (j, text k)
pair_of _ = none

pairs_of : Object → Items → Option Object
pairs_of d nil = some d
pairs_of d (cons v vs) = elim (pair_of v) [ none ↦ none | some (k, w) ↦ pairs_of (insert k w d) vs ]

-- `dict(d.get(k) or {})`: a list of entries is a dict too; `none` is an exception.
unfoldable pub dict_of : Value → Option Object
unfolding pairs_of pair_of
dict_of (obj fs) = some (entries fs)
dict_of (arr vs) = pairs_of [] vs
dict_of v = if truthy v then none else some []

abbrev pub as_texts : List (String × String) → Object
as_texts [] = []
as_texts ((k, v) ∷ d) = (k, text v) ∷ as_texts d

inject_body : Value → List (String × String) → Value
inject_body json [] = json
inject_body (obj fs) (e ∷ d) = object (update (entries fs) (as_texts (e ∷ d)))
inject_body json (e ∷ d) = object (as_texts (e ∷ d))

-- `_apply_credential_injection`
unfoldable pub inject : ForwardOptions → CredentialInjectionPatch → ForwardOptions
unfolding update inject_body
inject options patch = record {
  headers = update options.headers (as_texts patch.headers);
  params = update options.params (as_texts patch.query);
  json = inject_body options.json patch.body;
  timeout = options.timeout;
}
