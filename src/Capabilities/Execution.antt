-- ===== src/Capabilities/Execution.antt =====
-- One run of a provider, of api2agent/capabilities/execution.py: `_execute_provider` with its
-- helpers, and `_record_usage_event`. The runner is generated code, loaded from a package's
-- directory: its CAPABILITY and its `execute_tool` are parameters.
pub mod Environment
pub mod Attempts
pub mod Shadow
pub mod Run
use api2agent.Common.{
  ℕ, String, Bool, true, false, not, ◌&&◌, ◌||◌, Option, none, some, List, [], ◌∷◌, ◌==◌, ◌<>◌,
  lookup, insert, erase, update, is_some, text_or, has_text, given, if◌then◌else◌,
}
use api2agent.Python.Number.{ℤ, Float}
use api2agent.Python.Time.{DateTime}
use api2agent.Python.Value.{
  Value, null, text, float, obj, Object, object, entries, get, truthy, str, or_else, as_dict,
  is_text,
}
use api2agent.Credentials.{
  CredentialDefinition, CredentialResolutionRequest, CredentialInjectionPatch, ResolvedCredential,
  AuthType, bearer, api_key, no_auth, InjectionMode, header, no_injection, project, env, active,
}
use api2agent.Credentials.Resolver.{Environ, getenv, resolve}
use api2agent.Capabilities.{ProviderCandidate, RoutingDecision}
use api2agent.Capabilities.Routing.{select_provider_region}
use api2agent.Control.{UsageEvent, ExecutionMode}
use api2agent.Control.Storage.{UsageStore, record_event}

-- What `execute_tool` does: it returns or raises, and may leave another environment.
pub data Ran : Type 0 where
  returned : Value → Environ → Ran
  threw : Environ → Ran

-- A loaded runner: `tools` and `auth` of its CAPABILITY.
pub record Runner : Type 0 where
  pub tools : List Object
  pub auth : Object
  pub execute_tool : String → Object → Environ → Ran

-- `load_runner` and the validations give `none` where they raise.
pub record Runtime : Type 0 where
  pub runner_in : String → String
  pub exists : String → Bool
  pub load_runner : String → Option Runner
  pub validate_credential : Object → Option CredentialDefinition
  pub validate_status : Value → Option (Option ℤ)
  pub validate_text : Value → Option (Option String)
  pub dumps : List (String × String) → String
  pub repr : Value → String
  pub now : DateTime

-- The result of a run, or an exception.
pub data Executed : Type 0 where
  result : Value → Executed
  raised : Executed

-- The variables that a run sets, and puts back.
abbrev pub bridge_keys : List String
bridge_keys =
    "API2AGENT_PROVIDER_ID" ∷ "API2AGENT_ESTIMATED_COST" ∷ "API2AGENT_PROXY_URL"
    ∷ "API2AGENT_ROUTING_DECISION_ID" ∷ "API2AGENT_CAPABILITY_ID" ∷ "API2AGENT_CREDENTIAL_HEADERS"
    ∷ "API2AGENT_CREDENTIAL_QUERY" ∷ "API2AGENT_CREDENTIAL_BODY" ∷ []

-- `previous_env`
unfoldable pub previous_env : List String → Environ → List (String × Option String)
previous_env [] environ = []
previous_env (key ∷ keys) environ = (key, getenv key environ) ∷ previous_env keys environ

unfoldable pub put_back : String → Option String → Environ → Environ
unfolding insert erase
put_back key none environ = erase key environ
put_back key (some value) environ = insert key value environ

-- The `finally` block.
unfoldable pub restore : List (String × Option String) → Environ → Environ
unfolding put_back
restore [] environ = environ
restore ((key, value) ∷ saved) environ = restore saved (put_back key value environ)

unfoldable pub failed_result : String → String → Object
failed_result kind message =
    ("ok", Value.boolean false)
    ∷ ("error", object (("type", text kind) ∷ ("message", text message) ∷ []))
    ∷ []

-- Entries under the keys that a dict does not have.
fill : Object → Object → Object
unfolding insert lookup
fill [] d = d
fill ((k, v) ∷ info) d = if is_some (lookup k d) then fill info d else fill info (insert k v d)

-- `isinstance(result, dict)`: what a run adds to its result.
unfoldable pub annotate : Object → ResolvedCredential → Value → Value
unfolding fill
annotate info credential (obj fs) = object (
    insert "credential_metadata" (object credential.redacted_metadata) (
      insert "credential_reference" (text credential.credential_reference)
        (fill info (entries fs))))
annotate info credential v = v

abbrev pub credential_request :
    ProviderCandidate → String → Option CredentialDefinition → CredentialResolutionRequest
credential_request p capability_id credential = record {
  project_id = "local";
  agent_id = none;
  capability_id = capability_id;
  provider_id = p.provider_id;
  tool_id = p.tool_id;
  auth_type = elim credential [ none ↦ no_auth | some c ↦ c.auth_type ];
  injection_mode = elim credential [ none ↦ no_injection | some c ↦ c.injection_mode ];
  injection_name = elim credential [ none ↦ none | some c ↦ c.injection_name ];
  credential = credential;
  inline_credential = none;
}

module _ (rt : Runtime) where
  -- `_runner_tool_info`
  unfoldable pub runner_tool_info : List Object → String → Object
  runner_tool_info [] tool_id = []
  runner_tool_info (tool ∷ tools) tool_id =
      if is_text (get tool "name") tool_id
      then ("method", text (str rt.repr (or_else (get tool "method") (text "UNKNOWN"))))
        ∷ ("path", text (str rt.repr (or_else (get tool "path") (text tool_id))))
        ∷ []
      else runner_tool_info tools tool_id

  -- A credential from the `auth` of the runner; names that are no text do not validate.
  unfoldable pub auth_credential :
      ProviderCandidate → Object → Value → Value → Option (Option CredentialDefinition)
  auth_credential p auth (text env_name) (text name) =
      let is_bearer = is_text (get auth "type") "bearer" in
      some (
        some (record {
          credential_id = p.provider_id <> ("_" <> env_name);
          owner_type = project;
          owner_id = "local";
          provider_id = p.provider_id;
          auth_type = if is_bearer then bearer else api_key;
          injection_mode = header;
          injection_name = some name;
          scope = [];
          source = env;
          secret_ref = some env_name;
          secret_value = none;
          status = active;
          expires_at = none;
          rotation_hint = none;
        }))
  auth_credential p auth _ _ = none

  unfoldable pub from_auth : ProviderCandidate → Object → Option (Option CredentialDefinition)
  unfolding auth_credential
  from_auth p auth =
      let auth_type = or_else (get auth "type") (text "none") in
      let default_name = if is_text auth_type "bearer" then "Authorization" else "X-API-Key" in
      if is_text auth_type "none" || not (truthy (get auth "env"))
      then some none
      else auth_credential p auth (get auth "env") (or_else (get auth "header") (text default_name))

  -- `_credential_definition`, from `metadata.credential` on; `none` is an exception.
  unfoldable pub credential_definition :
      ProviderCandidate → Object → Value → Option (Option CredentialDefinition)
  unfolding from_auth
  credential_definition p auth (obj fs) =
      let given_fields =
        update (("owner_id", text "local") ∷ ("provider_id", text p.provider_id) ∷ [])
          (entries fs) in
      elim (rt.validate_credential given_fields) [ none ↦ none | some c ↦ some (some c) ]
  credential_definition p auth _ = from_auth p auth

  -- The environment that the runner sees.
  unfoldable pub bridge_env :
      ProviderCandidate
      → String
      → Option String
      → String
      → CredentialInjectionPatch
      → Environ
      → Environ
  unfolding insert
  bridge_env p capability_id proxy_url decision_id patch environ =
      let shared = insert "API2AGENT_CREDENTIAL_BODY" (rt.dumps patch.body) (
        insert "API2AGENT_CREDENTIAL_QUERY" (rt.dumps patch.query) (
          insert "API2AGENT_CREDENTIAL_HEADERS" (rt.dumps patch.headers) (
            insert "API2AGENT_ROUTING_DECISION_ID" decision_id (
              insert "API2AGENT_ESTIMATED_COST" (str rt.repr (float p.estimated_cost)) (
                insert "API2AGENT_PROVIDER_ID" p.provider_id
                  (insert "API2AGENT_CAPABILITY_ID" capability_id environ)))))) in
      if given proxy_url then insert "API2AGENT_PROXY_URL" (text_or proxy_url "") shared else shared

  -- The `try` block and its `finally`.
  unfoldable pub after_run : Object → ResolvedCredential → Environ → Ran → Executed × Environ
  after_run info credential environ (returned v left) =
      (result (annotate info credential v), restore (previous_env bridge_keys environ) left)
  after_run info credential environ (threw left) =
      (raised, restore (previous_env bridge_keys environ) left)

  unfoldable pub run_resolved :
      ProviderCandidate
      → String
      → Object
      → Option String
      → String
      → Environ
      → Runner
      → ResolvedCredential
      → Executed × Environ
  unfolding after_run bridge_env runner_tool_info failed_result update
  run_resolved p capability_id params proxy_url decision_id environ runner credential =
      let info = runner_tool_info runner.tools p.tool_id in
      if not credential.resolved
      then (
        result (
            object (
              update
                (failed_result (text_or credential.error_type "missing_credential")
                  (text_or credential.error_message "Credential could not be resolved."))
                (("credential_reference", text credential.credential_reference)
                  ∷ ("credential_metadata", object credential.redacted_metadata)
                  ∷ info))),
        environ,
      )
      else after_run info credential environ (
          runner.execute_tool p.tool_id params
            (bridge_env p capability_id proxy_url decision_id credential.injection_patch environ))

  -- `_execute_provider`, with the environment before and after it.
  unfoldable pub execute_provider :
      ProviderCandidate → String → Object → Option String → String → Environ → Executed × Environ
  unfolding run_resolved credential_definition
  execute_provider p capability_id params proxy_url decision_id environ =
      let package_dir = get p.metadata "package_dir" in
      let runner_path = rt.runner_in (str rt.repr package_dir) in
      if not (truthy package_dir)
      then (
        result (
            object (
              failed_result "missing_package_dir"
                ("Provider " <> (p.provider_id <> " is missing metadata.package_dir.")))),
        environ,
      )
      else if not (rt.exists runner_path)
      then (result (object (failed_result "missing_runner" runner_path)), environ)
      else elim (rt.load_runner runner_path) [
        | none ↦ (raised, environ)
        | some runner ↦ elim (credential_definition p runner.auth (get p.metadata "credential")) [
          | none ↦ (raised, environ)
          | some credential ↦
              run_resolved p capability_id params proxy_url decision_id environ runner
                (resolve environ rt.now [] (credential_request p capability_id credential))
        ]
      ]

  -- `_record_usage_event`: `none` is an exception. The event's id, time and latency come with it.
  unfoldable pub run_event :
      RoutingDecision
      → ProviderCandidate
      → Object
      → Object
      → Float
      → ExecutionMode
      → String
      → String
      → Option ℤ
      → Option String
      → Option String
      → UsageEvent
  run_event decision p run params latency_ms mode event_id created_at status error_type reference =
      record {
        id = event_id;
        routing_decision_id = some decision.id;
        execution_mode = mode;
        project_id = decision.project_id;
        capability_id = decision.capability_id;
        provider_id = p.provider_id;
        tool_id = p.tool_id;
        method = str rt.repr (get run "method");
        path = str rt.repr (get run "path");
        status_code = status;
        success = truthy (get run "ok");
        latency_ms = latency_ms;
        client_region = none;
        api2agent_region = none;
        provider_region = select_provider_region p decision.client_region;
        latency_total_ms = none;
        latency_network_ms = none;
        latency_provider_ms = none;
        latency_overhead_ms = none;
        estimated_cost = p.estimated_cost;
        error_type = error_type;
        request_metadata =
            some (("params", object params) ∷ ("credential", get run "credential_metadata") ∷ []);
        credential_reference = reference;
        provider_runtime_reference =
            some ("local_package:" <> str rt.repr (get p.metadata "package_dir"));
        is_golden = false;
        created_at = created_at;
      }

  unfoldable pub record_usage_event :
      RoutingDecision
      → ProviderCandidate
      → Object
      → Object
      → Float
      → ExecutionMode
      → String
      → String
      → UsageStore
      → Option UsageStore
  unfolding run_event record_event
  record_usage_event decision p run params latency_ms mode event_id created_at s =
      if not (truthy (get run "method")) || not (truthy (get run "path"))
      then some s
      else elim (rt.validate_status (get run "status_code")) [
        | none ↦ none
        | some status ↦ elim (rt.validate_text (get (as_dict (get run "error")) "type")) [
          | none ↦ none
          | some error_type ↦ elim (rt.validate_text (get run "credential_reference")) [
            | none ↦ none
            | some reference ↦
                record_event
                  (run_event decision p run params latency_ms mode event_id created_at status
                    error_type reference)
                  s
          ]
        ]
      ]
