-- ===== src/Replay.antt =====
-- api2agent/replay.py: the replay of a recorded event. The HTTP client, the adapters' services, the
-- loading of a runner and the validation of a credential are parameters (`Backend`).
pub mod Execute
pub mod Gate
pub mod Environment
use package.text.Mathlib.Text.{starts_with}
use api2agent.Common.{
  ℕ, String, Bool, true, false, not, ◌&&◌, ◌||◌, Option, none, some, List, [], ◌∷◌, ◌==◌, ◌<>◌, ◌⊎◌,
  inl, inr, lookup, insert, is_some, given, has_text, text_or, if◌then◌else◌,
}
use api2agent.Python.Number.{ℤ, Float}
use api2agent.Python.Text.{upper, drop_chars, show_opt}
use api2agent.Python.Time.{DateTime}
use api2agent.Python.Value.{
  Value, null, boolean, int, float, text, arr, nil, obj, Object, object, entries, get, truthy, str,
  or_else, is_text, opt_text, as_dict,
}
use api2agent.Credentials.{
  CredentialDefinition, CredentialResolutionRequest, CredentialInjectionPatch, ResolvedCredential,
  no_patch, no_auth, no_injection,
}
use api2agent.Credentials.Resolver.{Environ, resolve}
use api2agent.Capabilities.Execution.{Ran, returned, threw, Runner, previous_env, restore}
use api2agent.Adapters.{AdapterResult}
use api2agent.Control.{UsageEvent}

-- A request of the replay: its headers are those that are not redacted.
pub record Request : Type 0 where
  pub method : String
  pub url : String
  pub params : Value
  pub json : Value
  pub headers : List (String × String)

pub record Response : Type 0 where
  pub status_code : ℤ
  pub is_success : Bool
  pub body : Value

-- `none` where the code outside raises. A runner's module may change the environment when it is
-- loaded.
pub record Backend : Type 0 where
  pub adapters : List (String × (Object → Option AdapterResult))
  pub request : Request → Option Response
  pub exists : String → Bool
  pub load_runner : String → String → Environ → Option Runner × Environ
  pub validate_credential : Object → CredentialDefinition ⊎ String
  pub dumps : List (String × String) → String
  pub repr : Value → String
  pub now : DateTime

-- What a replay leaves: its result, or `none` for an exception, the environment, and what was run.
pub data Done : Type 0 where
  sent : Request → Done
  called : String → Object → Done
  ran : String → String → Object → Done

pub record Replayed : Type 0 where
  pub result : Option Object
  pub environ : Environ
  pub done : Option Done

-- `_error`
unfoldable pub error : String → String → Object
error error_type message =
    ("ok", boolean false)
    ∷ ("error", object (("type", text error_type) ∷ ("message", text message) ∷ []))
    ∷ []

unfoldable pub failed : String → String → Environ → Replayed
unfolding error
failed error_type message environ = record {
  result = some (error error_type message);
  environ = environ;
  done = none;
}

-- `event.request_metadata or {}`
abbrev pub metadata_of : UsageEvent → Object
metadata_of event = elim event.request_metadata [ none ↦ [] | some metadata ↦ metadata ]

abbrev pub is_empty : Object → Bool
is_empty [] = true
is_empty (e ∷ d) = false

abbrev pub local_prefix : String
local_prefix = "local_package:"

abbrev pub credential_keys : List String
credential_keys =
    "API2AGENT_CREDENTIAL_HEADERS" ∷ "API2AGENT_CREDENTIAL_QUERY" ∷ "API2AGENT_CREDENTIAL_BODY" ∷ []

unfoldable pub missing_replay_credential : UsageEvent → String → ResolvedCredential
missing_replay_credential event message = record {
  resolved = false;
  credential_reference = text_or event.credential_reference "missing";
  injection_patch = no_patch;
  redacted_metadata = [];
  error_type = some "missing_replay_credential";
  error_message = some message;
}

abbrev pub replay_request : UsageEvent → Option CredentialDefinition → CredentialResolutionRequest
replay_request event credential = record {
  project_id = "local";
  agent_id = none;
  capability_id = event.capability_id;
  provider_id = event.provider_id;
  tool_id = event.tool_id;
  auth_type = elim credential [ none ↦ no_auth | some c ↦ c.auth_type ];
  injection_mode = elim credential [ none ↦ no_injection | some c ↦ c.injection_mode ];
  injection_name = elim credential [ none ↦ none | some c ↦ c.injection_name ];
  credential = credential;
  inline_credential = none;
}

-- The fields that `CredentialDefinition.model_validate` is given.
unfoldable pub credential_fields : UsageEvent → Object → Object
credential_fields event metadata =
    let or_text : String → String → Value = λ key s. or_else (get metadata key) (text s) in
    ("credential_id", or_text "credential_id" (show_opt event.credential_reference))
    ∷ ("owner_type", or_text "owner_type" "project")
    ∷ ("owner_id", or_text "owner_id" event.project_id)
    ∷ ("provider_id", or_text "provider_id" event.provider_id)
    ∷ ("auth_type", or_text "auth_type" "api_key")
    ∷ ("injection_mode", or_text "injection_mode" "header")
    ∷ ("injection_name", get metadata "injection_name")
    ∷ ("scope", or_else (get metadata "scope") (arr nil))
    ∷ ("source", or_text "source" "env")
    ∷ ("secret_ref", get metadata "secret_ref")
    ∷ []

-- `_replay_headers`: a redacted value is dropped.
unfoldable pub replay_headers : (Value → String) → Object → List (String × String)
replay_headers repr [] = []
replay_headers repr ((key, value) ∷ headers) =
    let rest = replay_headers repr headers in
    if is_text value "[REDACTED]" then rest else (key, str repr value) ∷ rest

-- `_local_package_dir`
unfoldable pub local_package_dir : Option String → Option String
local_package_dir none = none
local_package_dir (some runtime) =
    let raw_path = drop_chars 14 runtime in
    if starts_with runtime local_prefix && has_text raw_path then some raw_path else none

-- A text that is not empty.
abbrev pub text_in : Value → Option String
text_in (text s) = if has_text s then some s else none
text_in v = none

abbrev pub opt_int : Option ℤ → Value
opt_int none = null
opt_int (some n) = int n

abbrev pub opt_object : Option Object → Value
opt_object none = null
opt_object (some d) = object d

module _ (b : Backend) where
  unfoldable pub resolve_replay_credential : Environ → UsageEvent → ResolvedCredential
  unfolding missing_replay_credential credential_fields
  resolve_replay_credential environ event =
      if not (given event.credential_reference)
      then resolve environ b.now [] (replay_request event none)
      else from_metadata (get (metadata_of event) "credential")
    where
      from_metadata : Value → ResolvedCredential
      from_metadata (obj fs) = elim (b.validate_credential (credential_fields event (entries fs))) [
        | inl credential ↦ resolve environ b.now [] (replay_request event (some credential))
        | inr message ↦
            missing_replay_credential event ("Replay credential metadata is invalid: " <> message)
      ]
      from_metadata v =
          missing_replay_credential event
            "Replay requires credential metadata to resolve this event."

  unfoldable pub is_sdk : Option String → Bool
  unfolding lookup
  is_sdk none = false
  is_sdk (some runtime) = is_some (lookup runtime b.adapters)

  unfoldable pub is_known : Option String → Bool
  unfolding is_sdk
  is_known none = false
  is_known (some runtime) =
      is_sdk (some runtime) || runtime == "proxy:http" || starts_with runtime local_prefix

  unfoldable pub can_execute_replay : Environ → UsageEvent → Bool
  unfolding resolve_replay_credential is_known
  can_execute_replay environ event =
      not (is_empty (metadata_of event))
      && given event.provider_runtime_reference
      && is_known event.provider_runtime_reference
      && (resolve_replay_credential environ event).resolved
