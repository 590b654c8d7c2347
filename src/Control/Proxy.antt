-- ===== src/Control/Proxy.antt =====
-- `execute_proxy_call` of api2agent/control/proxy.py. The validation of the two models, the
-- parsing of a URL and the forwarding of the request are parameters (`Backend`); what a call draws
-- from `uuid4`, the clocks and the environment comes with it (`Moment`).
pub mod Secrecy
pub mod Effects
pub mod Calls
pub mod Gates
pub mod Quota
use mathlib.Core.Option
use api2agent.Common.{
  any, All, ℕ, String, Bool, true, false, not, ◌&&◌, ◌||◌, Option, none, some, List, [], ◌∷◌, ◌++◌,
  ◌==◌, ◌<>◌, given, has_text, contains, text_or, lookup, insert, update, erase, leb, map, ◌⊎◌, inl,
  inr, find_first, if◌then◌else◌,
}
use api2agent.Python.Number.{ℤ, pos, negsuc, Float, float_zero, show_int}
use api2agent.Python.Text.{lower, upper, take_chars, drop_chars}
use api2agent.Python.Time.{DateTime}
use api2agent.Python.Value.{
  Items, nil, cons, field, end, cons, Items, Value, null, boolean, int, text, obj, arr, Object,
  object, fields, entries, get, truthy, str, or_else, is_text, opt_text,
}
use api2agent.Credentials.{
  CredentialDefinition, CredentialResolutionRequest, CredentialInjectionPatch, no_patch,
  ResolvedCredential, no_auth, no_injection,
}
use api2agent.Credentials.Resolver.{Environ, resolve}
use api2agent.Control.{UsageEvent, ProxyRequest, proxy}
use api2agent.Control.Storage.{UsageStore, record_event, count}
use api2agent.Control.Request.{
  ForwardOptions, Sent, as_texts, credential_entry, dict_of, dict_or_empty, first_metadata, inject,
  redact_headers, request_reference, header_reference, safe_credential_metadata,
  safe_request_metadata, sensitive, without_secret,
}

-- What one call draws from the world around it.
pub record Moment : Type 0 where
  pub event_id : String
  pub created_at : String
  pub latency_ms : Float
  pub environ : Environ
  pub now : DateTime

-- A response with its body, read as JSON or as text, an `HTTPError` with its message, or another
-- exception.
pub data Forwarded : Type 0 where
  response : ℤ → Bool → Value → Forwarded
  http_error : String → Forwarded
  other_error : Forwarded

-- `url_path` gives `none` for the `ValueError` of `urlparse`.
pub record Backend : Type 0 where
  pub validate_request : Object → ProxyRequest ⊎ Value
  pub validate_credential : Object → CredentialDefinition ⊎ String
  pub url_path : String → Option String
  pub forward : Sent → Forwarded
  pub repr : Value → String

-- The reply, the store after the call and what went to the provider; or an exception, which
-- leaves the store as it was, with what went to the provider before it.
pub record Reply : Type 0 where
  pub status : ℤ
  pub body : Object
  pub store : UsageStore
  pub sent : Option Sent

pub data Outcome : Type 0 where
  replied : Reply → Outcome
  raised : Option Sent → Outcome

abbrev pub quota_reached : Option ℤ → ℕ → Bool
quota_reached none calls = false
quota_reached (some (pos n)) calls = leb n calls
quota_reached (some (negsuc n)) calls = true

-- The event of a call, from what its branches give of it.
unfoldable pub usage_event :
    ProxyRequest
    → Moment
    → String
    → String
    → Option ℤ
    → Bool
    → Float
    → Float
    → Option String
    → Object
    → Option String
    → UsageEvent
usage_event r m method path status success latency cost error metadata reference = record {
  id = m.event_id;
  routing_decision_id = r.routing_decision_id;
  execution_mode = proxy;
  project_id = r.project_id;
  capability_id = r.capability_id;
  provider_id = r.provider_id;
  tool_id = r.tool_id;
  method = method;
  path = path;
  status_code = status;
  success = success;
  latency_ms = latency;
  client_region = r.client_region;
  api2agent_region = r.api2agent_region;
  provider_region = r.provider_region;
  latency_total_ms = some latency;
  latency_network_ms = r.latency_network_ms;
  latency_provider_ms = r.latency_provider_ms;
  latency_overhead_ms = r.latency_overhead_ms;
  estimated_cost = cost;
  error_type = error;
  request_metadata = some metadata;
  credential_reference = reference;
  provider_runtime_reference = some "proxy:http";
  is_golden = false;
  created_at = m.created_at;
}

unfoldable pub error_entry : String → String → String × Value
error_entry kind message = ("error", object (("type", text kind) ∷ ("message", text message) ∷ []))

unfoldable pub failure : UsageEvent → String → String → Object
failure event kind message =
    ("ok", boolean false)
    ∷ ("proxied", boolean true)
    ∷ ("usage_event_id", text event.id)
    ∷ error_entry kind message
    ∷ []

unfoldable pub http_failure : ℤ → Object
unfolding error_entry
http_failure status = error_entry "http_status" ("HTTP " <> show_int status) ∷ []

unfoldable pub response_body : UsageEvent → ℤ → Bool → Value → Object
unfolding http_failure
response_body event status success body =
    ("ok", boolean success)
    ∷ ("proxied", boolean true)
    ∷ ("usage_event_id", text event.id)
    ∷ ("status_code", int status)
    ∷ ("body", body)
    ∷ (if success then [] else http_failure status)

-- `store.record(event)`, then the reply.
unfoldable pub finish : UsageStore → UsageEvent → Option Sent → ℤ → Object → Outcome
finish s event sent status body = elim (record_event event s) [
  | none ↦ raised sent
  | some t ↦ replied (record { status = status; body = body; store = t; sent = sent })
]

-- The values that `redacted_metadata` may have: `str | list[str] | None`.
are_texts : Items → Bool
are_texts nil = true
are_texts (cons (text s) vs) = are_texts vs
are_texts (cons v vs) = false

unfoldable pub describes : Value → Bool
unfolding are_texts
describes null = true
describes (text s) = true
describes (arr vs) = are_texts vs
describes v = false

-- `none` is the `ValidationError` of a `ResolvedCredential` with other metadata.
unfoldable pub invalid_credential : Option Object → String → Option ResolvedCredential
unfolding describes
invalid_credential credential message =
    let metadata : Object = elim (safe_credential_metadata credential none) [
      | none ↦ []
      | some d ↦ d
    ] in
    if any (λ entry. not (describes entry.1)) metadata
    then none
    else some (record {
      resolved = false;
      credential_reference = "invalid";
      injection_patch = no_patch;
      redacted_metadata = metadata;
      error_type = some "invalid_credential";
      error_message = some ("Invalid proxy credential: " <> message);
    })

unfoldable pub from_headers : String → ResolvedCredential
from_headers reference = record {
  resolved = true;
  credential_reference = reference;
  injection_patch = no_patch;
  redacted_metadata = ("source", text "request_headers") ∷ [];
  error_type = none;
  error_message = none;
}

abbrev pub resolution_request : ProxyRequest → CredentialResolutionRequest
resolution_request r = record {
  project_id = r.project_id;
  agent_id = none;
  capability_id = r.capability_id;
  provider_id = r.provider_id;
  tool_id = r.tool_id;
  auth_type = no_auth;
  injection_mode = no_injection;
  injection_name = none;
  credential = none;
  inline_credential = none;
}

module _ (backend : Backend) (m : Moment) (configured : List CredentialDefinition) where
  -- A reference in the request's own headers stands in where no credential is needed.
  unfoldable pub prefer_headers : ResolvedCredential → Option String → ResolvedCredential
  prefer_headers resolved none = resolved
  prefer_headers resolved (some reference) =
      if (resolved.credential_reference == "none") && has_text reference
      then from_headers reference
      else resolved

  -- The request's own credential, once it has been validated or not.
  unfoldable pub resolve_validated :
      ProxyRequest → Object → CredentialDefinition ⊎ String → Option ResolvedCredential
  unfolding invalid_credential
  resolve_validated r raw (inr message) = invalid_credential (some raw) message
  resolve_validated r raw (inl c) = some (
      resolve m.environ m.now configured (record (resolution_request r) {
        auth_type = c.auth_type;
        injection_mode = c.injection_mode;
        injection_name = c.injection_name;
        credential = some c;
      }))

  unfoldable pub resolve_given : ProxyRequest → Option Object → Object → Option ResolvedCredential
  unfolding prefer_headers from_headers resolve_validated
  resolve_given r none headers = some (
      prefer_headers (resolve m.environ m.now configured (resolution_request r))
        (header_reference headers))
  resolve_given r (some []) headers = some (
      prefer_headers (resolve m.environ m.now configured (resolution_request r))
        (header_reference headers))
  resolve_given r (some (e ∷ raw)) headers =
      resolve_validated r (e ∷ raw) (backend.validate_credential (e ∷ raw))

  -- `_resolve_proxy_credential`; `none` where it raises.
  unfoldable pub resolve_proxy_credential : ProxyRequest → Object → Option ResolvedCredential
  unfolding resolve_given
  resolve_proxy_credential r headers = resolve_given r r.credential headers

  abbrev pub method_of : ProxyRequest → String
  method_of r = upper (str backend.repr (or_else (get r.request "method") (text "GET")))

  abbrev pub url_of : ProxyRequest → String
  url_of r = str backend.repr (or_else (get r.request "url") (text ""))

  -- `urlparse(url).path or url`
  abbrev pub path_of : ProxyRequest → Option String
  path_of r = elim (backend.url_path (url_of r)) [
    | none ↦ none
    | some path ↦ some (if path == "" then url_of r else path)
  ]

  abbrev pub metadata_of : ProxyRequest → Object → Option ResolvedCredential → Object
  metadata_of r headers resolved =
      safe_request_metadata (method_of r) (url_of r) r.request headers
        (safe_credential_metadata r.credential resolved)

  -- The event of a call that did not succeed before its response.
  abbrev pub event_of :
      ProxyRequest
      → String
      → Option ℤ
      → Bool
      → Float
      → Float
      → Option String
      → Object
      → Option String
      → UsageEvent
  event_of r path = usage_event r m (method_of r) path

  unfoldable pub over_quota : UsageStore → ProxyRequest → String → Object → Outcome
  unfolding finish failure error_entry
  over_quota s r path headers = elim (request_reference backend.repr headers r.credential) [
    | none ↦ raised none
    | some reference ↦
        let event =
          event_of r path (some (pos 429)) false float_zero float_zero (some "quota_exceeded")
            (metadata_of r headers none) reference in
        finish s event none (pos 429) (failure event "quota_exceeded" "Project quota exceeded.")
  ]

  unfoldable pub unresolved :
      UsageStore → ProxyRequest → String → Object → ResolvedCredential → Outcome
  unfolding finish failure error_entry
  unresolved s r path headers resolved =
      let kind = text_or resolved.error_type "credential_resolution_failed" in
      let event =
        event_of r path (some (pos 401)) false float_zero float_zero (some kind)
          (metadata_of r headers (some resolved)) (some resolved.credential_reference) in
      finish s event none (pos 401)
        (failure event kind (text_or resolved.error_message "Proxy credential resolution failed."))

  -- What is forwarded: the request's own options with the credential put in.
  unfoldable pub to_send : ProxyRequest → Object → Object → ResolvedCredential → Sent
  unfolding inject
  to_send r headers params resolved = record {
    method = method_of r;
    url = url_of r;
    options =
        inject
          (record {
            headers = headers;
            params = params;
            json = get r.request "json";
            timeout = or_else (get r.request "timeout") (int (pos 20));
          })
          resolved.injection_patch;
  }

  unfoldable pub after_forward :
      UsageStore → ProxyRequest → String → Object → ResolvedCredential → Sent → Forwarded → Outcome
  unfolding finish failure response_body
  after_forward s r path headers resolved sent (response status success body) =
      let event =
        event_of r path (some status) success m.latency_ms r.estimated_cost
          (if success then none else some "http_status") (metadata_of r headers (some resolved))
          (some resolved.credential_reference) in
      finish s event (some sent) (if success then pos 200 else status)
        (response_body event status success body)
  after_forward s r path headers resolved sent (http_error message) =
      let event =
        event_of r path none false m.latency_ms float_zero (some "http_error")
          (metadata_of r headers (some resolved)) (some resolved.credential_reference) in
      finish s event (some sent) (pos 502) (failure event "http_error" message)
  after_forward s r path headers resolved sent other_error = raised (some sent)

  unfoldable pub forward_call :
      UsageStore → ProxyRequest → String → Object → ResolvedCredential → Outcome
  unfolding after_forward to_send dict_of
  forward_call s r path headers resolved = elim (dict_of (get r.request "params")) [
    | none ↦ raised none
    | some params ↦
        let sent = to_send r headers params resolved in
        after_forward s r path headers resolved sent (backend.forward sent)
  ]

  -- Headers that are no dict raise when they are redacted: before a refusal is recorded, but after
  -- the request has gone out, where `dict` takes them.
  unfoldable pub sent_unrecorded : Option ℤ → UsageStore → ProxyRequest → Option Sent
  unfolding dict_of to_send resolve_proxy_credential
  sent_unrecorded quota s r = elim (resolve_proxy_credential r []) [
    | none ↦ none
    | some resolved ↦
        if quota_reached quota (count (some r.project_id) s) || not resolved.resolved
        then none
        else elim (dict_of (get r.request "headers")) [
          | none ↦ none
          | some headers ↦ elim (dict_of (get r.request "params")) [
            | none ↦ none
            | some params ↦ some (to_send r headers params resolved)
          ]
        ]
  ]

  -- From the request's headers on.
  unfoldable pub headed_call : Option ℤ → UsageStore → ProxyRequest → String → Object → Outcome
  unfolding forward_call over_quota unresolved resolve_proxy_credential
  headed_call quota s r path headers =
      if quota_reached quota (count (some r.project_id) s)
      then over_quota s r path headers
      else elim (resolve_proxy_credential r headers) [
        | none ↦ raised none
        | some resolved ↦
            if not resolved.resolved
            then unresolved s r path headers resolved
            else forward_call s r path headers resolved
      ]

  -- The call from its validated request on.
  unfoldable pub proxy_call : Option ℤ → UsageStore → ProxyRequest → Outcome
  unfolding headed_call dict_or_empty sent_unrecorded
  proxy_call quota s r = elim (path_of r) [
    | none ↦ raised none
    | some path ↦ elim (dict_or_empty (get r.request "headers")) [
      | none ↦ raised (sent_unrecorded quota s r)
      | some headers ↦ headed_call quota s r path headers
    ]
  ]

  unfoldable pub execute_proxy_call : Option ℤ → UsageStore → Object → Outcome
  unfolding proxy_call
  execute_proxy_call quota s payload = elim (backend.validate_request payload) [
    | inr details ↦ replied (record {
      status = pos 400;
      body =
          ("ok", boolean false)
          ∷ ("error", object (("type", text "invalid_proxy_request") ∷ ("details", details) ∷ []))
          ∷ [];
      store = s;
      sent = none;
    })
    | inl r ↦ proxy_call quota s r
  ]
