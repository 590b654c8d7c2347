-- ===== src/Examples/Proxy.antt =====
-- Runs of the proxy.
use api2agent.Common.{◌-◌, ◌≤◌, ◌≡◌, true, false, Option, none, some, List, [], ◌∷◌, inl, inr, refl}
use api2agent.Python.Number.{pos, float_zero}
use api2agent.Python.Value.{truthy, Object, text, null, object, get}
use api2agent.Credentials.{ResolvedCredential}
use api2agent.Credentials.Resolver.{first_answer, answer_from, resolve}
use api2agent.Control.{ProxyRequest}
use api2agent.Control.Storage.{record_event, count, empty_store}
use api2agent.Credentials.Resolver.{
  answer_from, first_answer, find_config_credential, credential_matches_request, scope_allows,
  answer_with, lifecycle_error, is_disabled, is_expired, secret_for, getenv, matches, prefer,
}
use api2agent.Control.Request.{request_reference, header_reference}
use api2agent.Control.Proxy.{resolve_given, prefer_headers, usage_event, from_headers, headed_call}
use api2agent.Python.Text.{lower}
use api2agent.Control.Storage.{clause, stored_form}
use api2agent.Control.Request.{Sent, dict_or_empty, dict_of}
use api2agent.Control.Proxy.{
  prefer_headers, resolve_given, after_forward, unresolved, over_quota, forward_call, Backend,
  Moment, Reply, replied, raised, Outcome, response, finish, proxy_call, quota_reached,
  resolve_proxy_credential, to_send,
}
use api2agent.Control.Proxy.Effects.{Recorded}
use api2agent.Control.Proxy.Calls.{proxy_call-Recorded}
use api2agent.Control.Proxy.Gates.{proxy_call-gated, proxy_call-replies}
use api2agent.Control.Proxy.Quota.{forwards, forwards-bound}
use api2agent.Examples.Credentials.{today, environment, github}
use api2agent.Examples.Control.{two_events}

abbrev pub backend : Backend
backend = record {
  validate_request = λ d. inr null;
  validate_credential = λ d. inl github;
  url_path = λ url. some "/issues";
  forward = λ sent. response (pos 200) true (text "[]");
  repr = λ v. "";
}

abbrev pub moment : Moment
moment = record {
  event_id = "e3";
  created_at = "2026-03-01T12:00:00+00:00";
  latency_ms = float_zero;
  environ = environment;
  now = today;
}

abbrev list_issues : ProxyRequest
list_issues = record {
  project_id = "demo";
  routing_decision_id = none;
  capability_id = "issues";
  provider_id = "github";
  tool_id = "list_issues";
  estimated_cost = float_zero;
  client_region = none;
  api2agent_region = none;
  provider_region = none;
  latency_network_ms = none;
  latency_provider_ms = none;
  latency_overhead_ms = none;
  request =
      ("url", text "https://api.github.com/issues")
      ∷ ("headers", object (("Cookie", text "secret") ∷ []))
      ∷ [];
  credential = none;
}

-- The reply of an outcome, if it is one.
abbrev reply_or : Reply → Outcome → Reply
reply_or q (replied r) = r
reply_or q (raised sent) = q

abbrev no_reply : Reply
no_reply = record { status = pos 0; body = []; store = empty_store; sent = none }

abbrev outcome : Outcome
outcome = proxy_call backend moment (github ∷ []) (some (pos 5)) two_events list_issues

abbrev answer : Reply
answer = reply_or no_reply outcome

abbrev no_send : Sent
no_send = record {
  method = "";
  url = "";
  options = record { headers = []; params = []; json = null; timeout = null };
}

abbrev sent_or : Sent → Option Sent → Sent
sent_or d none = d
sent_or d (some x) = x

-- The call replies, and goes to the provider.
replies : outcome ≡ replied answer
unfolding header_reference proxy_call headed_call stored_form dict_or_empty dict_of get truthy
    forward_call over_quota unresolved after_forward finish record_event count
    resolve_proxy_credential resolve_given prefer_headers resolve answer_from first_answer
    find_config_credential credential_matches_request scope_allows answer_with lifecycle_error
    is_disabled is_expired secret_for getenv usage_event matches prefer clause request_reference
    lower
replies = refl

goes : answer.sent ≡ some (sent_or no_send answer.sent)
unfolding header_reference proxy_call headed_call stored_form dict_or_empty dict_of get truthy
    forward_call over_quota unresolved after_forward finish record_event count
    resolve_proxy_credential resolve_given prefer_headers resolve answer_from first_answer
    find_config_credential credential_matches_request scope_allows answer_with lifecycle_error
    is_disabled is_expired secret_for getenv usage_event matches prefer clause request_reference
    lower
goes = refl

proxy_call-Recorded_example : Recorded list_issues moment two_events answer
proxy_call-Recorded_example =
    proxy_call-Recorded backend moment (github ∷ []) (some (pos 5)) two_events list_issues answer
      replies

proxy_call-gated_example :
    (quota_reached (some (pos 5)) (count (some list_issues.project_id) two_events) ≡ false)
    × (headers : Object) × (params : Object) × (a : ResolvedCredential) × (dict_or_empty
          (get list_issues.request "headers")
        ≡ some headers)
    × (dict_of (get list_issues.request "params") ≡ some params)
    × (resolve_proxy_credential backend moment (github ∷ []) list_issues headers ≡ some a)
    × (a.resolved ≡ true)
    × (sent_or no_send answer.sent
        ≡ to_send backend moment (github ∷ []) list_issues headers params a)
proxy_call-gated_example =
    proxy_call-gated backend moment (github ∷ []) (some (pos 5)) two_events list_issues answer
      (sent_or no_send answer.sent) replies goes

abbrev given_headers : Object
given_headers = ("Cookie", text "secret") ∷ []

abbrev credential_or : ResolvedCredential → Option ResolvedCredential → ResolvedCredential
credential_or d none = d
credential_or d (some a) = a

abbrev chosen : ResolvedCredential
chosen =
    credential_or (from_headers "")
      (resolve_proxy_credential backend moment (github ∷ []) list_issues given_headers)

proxy_call-replies_example : (q : Reply) × (outcome ≡ replied q)
unfolding dict_or_empty dict_of get truthy request_reference header_reference lower
    resolve_proxy_credential resolve_given
proxy_call-replies_example =
    proxy_call-replies backend moment (github ∷ []) (some (pos 5)) two_events list_issues "/issues"
      given_headers [] none chosen refl refl refl refl refl refl refl refl refl

abbrev two_calls : List (Moment × ProxyRequest)
two_calls = (moment, list_issues) ∷ (record moment { event_id = "e4" }, list_issues) ∷ []

forwards-bound_example :
    forwards backend (github ∷ []) 3 "demo" two_events two_calls
    ≤ 3 - count (some "demo") two_events
forwards-bound_example = forwards-bound backend (github ∷ []) 3 "demo" two_calls two_events
