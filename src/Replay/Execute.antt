-- ===== src/Replay/Execute.antt =====
-- `execute_replay` of api2agent/replay.py, with the three runtimes that it knows.
use package.text.Mathlib.Text.{starts_with}
use api2agent.Common.{
  String, not, Option, none, some, [], ◌∷◌, ◌==◌, ◌<>◌, lookup, insert, given, text_or,
  if◌then◌else◌,
}
use api2agent.Python.Number.{Float}
use api2agent.Python.Text.{upper}
use api2agent.Python.Value.{
  Value, null, boolean, int, float, text, obj, Object, object, entries, get, truthy, str, or_else,
  opt_text, as_dict,
}
use api2agent.Credentials.{CredentialInjectionPatch, ResolvedCredential}
use api2agent.Credentials.Resolver.{Environ}
use api2agent.Capabilities.Execution.{Runner, Ran, returned, threw, previous_env, restore}
use api2agent.Adapters.{AdapterResult}
use api2agent.Control.{UsageEvent}
use api2agent.Replay.{
  Backend, Request, Response, Done, Replayed, error, failed, metadata_of, is_empty, local_prefix,
  credential_keys, replay_headers, local_package_dir, text_in, opt_int, opt_object,
  resolve_replay_credential, is_sdk, sent, called, ran,
}

module _ (b : Backend) where
  unfoldable pub sdk_result : String → AdapterResult → Object
  sdk_result runtime result =
      ("ok", boolean result.ok)
      ∷ ("runtime", text runtime)
      ∷ ("provider_id", text result.provider_id)
      ∷ ("status_code", opt_int result.status_code)
      ∷ ("latency_ms", float result.latency_ms)
      ∷ ("output", opt_object result.output)
      ∷ ("error_type", opt_text result.error_type)
      ∷ ("error_message", opt_text result.error_message)
      ∷ []

  unfoldable pub call_adapter :
      String → Object → Option (Object → Option AdapterResult) → Option Object
  unfolding sdk_result
  call_adapter runtime input none = none
  call_adapter runtime input (some adapter) = elim (adapter input) [
    | none ↦ none
    | some result ↦ some (sdk_result runtime result)
  ]

  unfoldable pub sdk_input : Environ → String → Value → Replayed
  unfolding failed call_adapter
  sdk_input environ runtime (obj fs) = record {
    result = call_adapter runtime (entries fs) (lookup runtime b.adapters);
    environ = environ;
    done = some (called runtime (entries fs));
  }
  sdk_input environ runtime v =
      failed "missing_sdk_input" "SDK replay requires request_metadata.input." environ

  unfoldable pub execute_sdk_replay : Environ → UsageEvent → String → Replayed
  unfolding sdk_input
  execute_sdk_replay environ event runtime =
      sdk_input environ runtime (get (metadata_of event) "input")

  unfoldable pub http_result : UsageEvent → Float → Response → Object
  http_result event latency_ms response =
      ("ok", boolean response.is_success)
      ∷ ("runtime", opt_text event.provider_runtime_reference)
      ∷ ("provider_id", text event.provider_id)
      ∷ ("status_code", int response.status_code)
      ∷ ("latency_ms", float latency_ms)
      ∷ ("body", response.body)
      ∷ ("error_type", if response.is_success then null else text "http_status")
      ∷ []

  unfoldable pub send : Environ → UsageEvent → Float → Request → Replayed
  unfolding http_result
  send environ event latency_ms r = record {
    result = elim (b.request r) [
      | none ↦ none
      | some response ↦ some (http_result event latency_ms response)
    ];
    environ = environ;
    done = some (sent r);
  }

  -- Headers that are true and no dict raise before anything is sent.
  unfoldable pub send_with_headers : Environ → UsageEvent → Float → String → Value → Replayed
  unfolding send replay_headers
  send_with_headers environ event latency_ms url (obj fs) =
      let metadata = metadata_of event in
      let method = or_else (get metadata "method") (text (text_or (some event.method) "GET")) in
      send environ event latency_ms (record {
        method = upper (str b.repr method);
        url = url;
        params = or_else (get metadata "params") (object []);
        json = get metadata "json";
        headers = replay_headers b.repr (entries fs);
      })
  send_with_headers environ event latency_ms url v = record {
    result = none;
    environ = environ;
    done = none;
  }

  unfoldable pub send_to : Environ → UsageEvent → Float → Option String → Replayed
  unfolding send_with_headers failed
  send_to environ event latency_ms none =
      failed "missing_http_url" "HTTP replay requires request_metadata.url." environ
  send_to environ event latency_ms (some url) =
      send_with_headers environ event latency_ms url
        (or_else (get (metadata_of event) "headers") (object []))

  unfoldable pub execute_http_replay : Environ → UsageEvent → Float → Replayed
  unfolding send_to
  execute_http_replay environ event latency_ms =
      send_to environ event latency_ms (text_in (get (metadata_of event) "url"))

  -- `_apply_credential_env`
  unfoldable pub apply_credential_env : CredentialInjectionPatch → Environ → Environ
  unfolding insert
  apply_credential_env patch environ = insert "API2AGENT_CREDENTIAL_BODY" (b.dumps patch.body) (
      insert "API2AGENT_CREDENTIAL_QUERY" (b.dumps patch.query)
        (insert "API2AGENT_CREDENTIAL_HEADERS" (b.dumps patch.headers) environ))

  unfoldable pub package_result : UsageEvent → Float → Object → Object
  package_result event latency_ms result =
      let error = as_dict (get result "error") in
      ("ok", boolean (truthy (get result "ok")))
      ∷ ("runtime", opt_text event.provider_runtime_reference)
      ∷ ("provider_id", text event.provider_id)
      ∷ ("status_code", get result "status_code")
      ∷ ("latency_ms", float latency_ms)
      ∷ ("body", get result "body")
      ∷ ("error_type", get error "type")
      ∷ ("error_message", get error "message")
      ∷ []

  -- The `try` block, its `finally`, and what follows.
  unfoldable pub after_tool : Environ → UsageEvent → Float → Done → Ran → Replayed
  unfolding package_result error
  after_tool environ event latency_ms done (threw left) = record {
    result = none;
    environ = restore (previous_env credential_keys environ) left;
    done = some done;
  }
  after_tool environ event latency_ms done (returned v left) = record {
    result = some (result_of v);
    environ = restore (previous_env credential_keys environ) left;
    done = some done;
  }
    where
      result_of : Value → Object
      result_of (obj fs) = package_result event latency_ms (entries fs)
      result_of w =
          error "invalid_local_package_result" "Generated runner returned a non-object result."

  unfoldable pub run_package :
      Environ → UsageEvent → Float → CredentialInjectionPatch → String → Object → Replayed
  unfolding apply_credential_env after_tool
  run_package environ event latency_ms patch package_dir params =
      let (runner, seen) = b.load_runner (package_dir <> "/runner.py") event.id environ in
      loaded seen runner
    where
      loaded : Environ → Option Runner → Replayed
      loaded seen none = record { result = none; environ = seen; done = none }
      loaded seen (some runner) =
          after_tool seen event latency_ms (ran package_dir event.tool_id params)
            (runner.execute_tool event.tool_id params (apply_credential_env patch seen))

  unfoldable pub package_params :
      Environ → UsageEvent → Float → CredentialInjectionPatch → String → Value → Replayed
  unfolding failed run_package
  package_params environ event latency_ms patch package_dir (obj fs) =
      run_package environ event latency_ms patch package_dir (entries fs)
  package_params environ event latency_ms patch package_dir v =
      failed "missing_local_package_params" "Local package replay requires request_metadata.params."
        environ

  unfoldable pub package_in :
      Environ → UsageEvent → Float → CredentialInjectionPatch → Option String → Replayed
  unfolding failed package_params
  package_in environ event latency_ms patch none =
      failed "invalid_local_package_runtime"
        "Local package replay requires local_package:<package_dir>." environ
  package_in environ event latency_ms patch (some package_dir) =
      if not (b.exists (package_dir <> "/runner.py"))
      then failed "missing_local_package_runner"
          ("Generated runner not found: " <> (package_dir <> "/runner.py")) environ
      else package_params environ event latency_ms patch package_dir
          (get (metadata_of event) "params")

  unfoldable pub execute_local_package_replay :
      Environ → UsageEvent → Float → CredentialInjectionPatch → Replayed
  unfolding package_in local_package_dir
  execute_local_package_replay environ event latency_ms patch =
      package_in environ event latency_ms patch (local_package_dir event.provider_runtime_reference)

  -- What follows the checks of `execute_replay`.
  unfoldable pub run_replay :
      Environ → UsageEvent → Float → String → CredentialInjectionPatch → Replayed
  unfolding execute_sdk_replay execute_http_replay execute_local_package_replay is_sdk
  run_replay environ event latency_ms runtime patch =
      if is_sdk b (some runtime)
      then execute_sdk_replay environ event runtime
      else if runtime == "proxy:http"
      then execute_http_replay environ event latency_ms
      else if starts_with runtime local_prefix
      then execute_local_package_replay environ event latency_ms patch
      else failed "unsupported_provider_runtime" ("Unsupported replay runtime: " <> runtime) environ

  unfoldable pub with_credential :
      Environ → UsageEvent → Float → String → ResolvedCredential → Replayed
  unfolding run_replay
  with_credential environ event latency_ms runtime credential =
      if not credential.resolved
      then failed (text_or credential.error_type "credential_required")
          (text_or credential.error_message
            "Replay cannot execute because the original call referenced credentials.")
          environ
      else run_replay environ event latency_ms runtime credential.injection_patch

  unfoldable pub execute_replay : Environ → UsageEvent → Float → Replayed
  unfolding with_credential resolve_replay_credential
  execute_replay environ event latency_ms =
      if is_empty (metadata_of event)
      then failed "missing_request_metadata" "Usage event has no request metadata." environ
      else if not (given event.provider_runtime_reference)
      then failed "missing_provider_runtime_reference"
          "Usage event has no provider runtime reference." environ
      else with_credential environ event latency_ms (text_or event.provider_runtime_reference "")
          (resolve_replay_credential b environ event)
