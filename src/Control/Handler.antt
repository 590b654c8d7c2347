-- ===== src/Control/Handler.antt =====
-- `ProxyHandler` of api2agent/control/proxy.py: what `do_POST` and `do_GET` answer. The bytes of a
-- body are the text that is read; `json.loads` and the parsing of a URL are parameters (`Web`).
pub mod Authorized
use api2agent.Common.{
  String, Bool, true, false, not, Option, none, some, List, [], ◌∷◌, ◌==◌, ◌<>◌, given, opt_eq,
  text_or, if◌then◌else◌,
}
use api2agent.Python.Number.{ℤ, pos}
use api2agent.Python.Value.{Value, boolean, text, obj, Object, object, entries}
use api2agent.Credentials.{CredentialDefinition}
use api2agent.Control.{UsageSummary}
use api2agent.Control.Storage.{UsageStore, Sums, summarize}
use api2agent.Control.Proxy.{Backend, Moment, Reply, Outcome, replied, raised, execute_proxy_call}

pub record HttpRequest : Type 0 where
  pub path : String
  pub authorization : Option String
  pub body : String

-- A body as JSON, a `JSONDecodeError`, or another exception while it is read.
pub data Loaded : Type 0 where
  loaded : Value → Loaded
  invalid_json unreadable : Loaded

-- `details` are those of a payload that is no dict.
pub record Web : Type 0 where
  pub loads : String → Loaded
  pub details : Value → Value
  pub url_path : String → String
  pub project_id : String → Option String

pub data UsageAnswer : Type 0 where
  not_found : UsageAnswer
  unauthorized : UsageAnswer
  usage : UsageSummary → UsageAnswer

unfoldable pub authorized : Option String → HttpRequest → Bool
authorized api_key h =
    if not (given api_key)
    then true
    else opt_eq h.authorization (some ("Bearer " <> text_or api_key ""))

abbrev pub of_type : String → Object
of_type kind = ("type", text kind) ∷ []

abbrev pub with_details : Value → Object
with_details details = ("type", text "invalid_proxy_request") ∷ ("details", details) ∷ []

-- An answer that has done nothing.
unfoldable pub error_reply : ℤ → Object → UsageStore → Outcome
error_reply status error s = replied (record {
  status = status;
  body = ("ok", boolean false) ∷ ("error", object error) ∷ [];
  store = s;
  sent = none;
})

module _ (web : Web) (backend : Backend) (m : Moment) (configured : List CredentialDefinition)
    (api_key : Option String) (quota : Option ℤ) where
  unfoldable pub call_payload : UsageStore → Loaded → Outcome
  unfolding error_reply execute_proxy_call
  call_payload s invalid_json = error_reply (pos 400) (of_type "invalid_json") s
  call_payload s unreadable = raised none
  call_payload s (loaded (obj fs)) = execute_proxy_call backend m configured quota s (entries fs)
  call_payload s (loaded v) = error_reply (pos 400) (with_details (web.details v)) s

  unfoldable pub do_post : UsageStore → HttpRequest → Outcome
  unfolding authorized call_payload
  do_post s h =
      if not (h.path == "/v1/proxy/call")
      then error_reply (pos 404) (of_type "not_found") s
      else if not (authorized api_key h)
      then error_reply (pos 401) (of_type "unauthorized") s
      else call_payload s (web.loads h.body)

unfoldable pub do_get : Web → Sums → Option String → UsageStore → HttpRequest → UsageAnswer
unfolding authorized
do_get web sums api_key s h =
    if not (web.url_path h.path == "/v1/usage")
    then not_found
    else if not (authorized api_key h)
    then unauthorized
    else usage (summarize sums (web.project_id h.path) s)
