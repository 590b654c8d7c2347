-- ===== src/Replay/Environment.antt =====
-- A replay leaves the environment as it was.
use package.text.Mathlib.Text.{starts_with}
use api2agent.Common.{
  ◌<>◌, String, true, false, Option, none, some, ◌==◌, ◌≡◌, ◌⊎◌, ◌∙◌, inl, inr, refl, arith, sym,
  contains, given, Bool-cases, Option-cases,
}
use api2agent.Python.Number.{Float}
use api2agent.Python.Value.{Value, null, boolean, int, float, text, arr, obj, Object, entries, get}
use api2agent.Credentials.{CredentialInjectionPatch, ResolvedCredential}
use api2agent.Credentials.Resolver.{Environ}
use api2agent.Capabilities.Execution.{Ran, returned, threw, Runner}
use api2agent.Capabilities.Execution.Environment.{
  SameAt, left_by, getenv-restore, insert-SameAt, contains-false,
}
use api2agent.Control.{UsageEvent}
use api2agent.Replay.{
  is_sdk, local_prefix, local_package_dir, resolve_replay_credential, Backend, Done, failed,
  metadata_of, is_empty, credential_keys, ran,
}
use api2agent.Replay.Execute.{
  apply_credential_env, after_tool, run_package, package_params, package_in,
  execute_local_package_replay, execute_sdk_replay, sdk_input, execute_http_replay, send,
  send_with_headers, send_to, run_replay, with_credential, execute_replay,
}

-- No load of a runner changes the variable.
abbrev pub LoadsLeave : Backend → String → Type 0
LoadsLeave b name = (path id : String) (e : Environ) → SameAt name e (b.load_runner path id e).1

-- No runner that can be loaded changes the variable in its `execute_tool`.
abbrev pub RunnersLeave : Backend → String → Type 0
RunnersLeave b name =
    (path id : String) (runner : Runner) (tool : String) (params : Object) (e seen : Environ)
    → (b.load_runner path id seen).0 ≡ some runner
    → SameAt name e (left_by (runner.execute_tool tool params e))

module _ (b : Backend) (event : UsageEvent) (latency_ms : Float) (name : String) where
  apply-SameAt :
      (seen : Environ) (patch : CredentialInjectionPatch)
      → contains credential_keys name ≡ false
      → SameAt name seen (apply_credential_env b patch seen)
  unfolding apply_credential_env
  apply-SameAt seen patch other =
      let others = contains-false name credential_keys other in
      insert-SameAt name _ (b.dumps patch.body) _ _ others.1.1.0 (
        insert-SameAt name _ (b.dumps patch.query) _ _ others.1.0
          (insert-SameAt name _ (b.dumps patch.headers) seen seen others.0 refl))

  after_tool-SameAt :
      (seen : Environ) (done : Done) (left : Ran)
      → (contains credential_keys name ≡ true) ⊎ SameAt name seen (left_by left)
      → SameAt name seen (after_tool b seen event latency_ms done left).environ
  unfolding after_tool
  after_tool-SameAt seen done (returned v left) (inl own) =
      sym (getenv-restore name credential_keys seen left ∙ rw own refl)
  after_tool-SameAt seen done (returned v left) (inr same) =
      ground (arith, getenv-restore name credential_keys seen left)
  after_tool-SameAt seen done (threw left) (inl own) =
      sym (getenv-restore name credential_keys seen left ∙ rw own refl)
  after_tool-SameAt seen done (threw left) (inr same) =
      ground (arith, getenv-restore name credential_keys seen left)

module _ (b : Backend) (environ : Environ) (event : UsageEvent) (latency_ms : Float) (name : String)
    (loads : LoadsLeave b name)
    (safe : (contains credential_keys name ≡ true) ⊎ RunnersLeave b name) where
  left_after :
      (path : String) (runner : Runner) (tool : String) (patch : CredentialInjectionPatch)
      (params : Object) (seen : Environ)
      → (b.load_runner path event.id seen).0 ≡ some runner
      → let left =
          runner.execute_tool tool params
            (apply_credential_env b patch (b.load_runner path event.id seen).1) in
        (contains credential_keys name ≡ true)
        ⊎ SameAt name (b.load_runner path event.id seen).1 (left_by left)
  left_after path runner tool patch params seen loaded = elim safe [
    | inl own ↦ inl own
    | inr leaves ↦ elim (Bool-cases (contains credential_keys name)) [
      | inl own ↦ inl own
      | inr other ↦ inr (
          apply-SameAt b event latency_ms name _ patch other
          ∙ leaves path event.id runner tool params _ seen loaded)
    ]
  ]

  run_package-SameAt :
      (patch : CredentialInjectionPatch) (package_dir : String) (params : Object)
      → SameAt name environ
          (run_package b environ event latency_ms patch package_dir params).environ
  unfolding run_package
  run_package-SameAt patch package_dir params =
      let path = package_dir <> "/runner.py" in
      loads path event.id environ ∙ elim (Option-cases (b.load_runner path event.id environ).0) [
        | inl e ↦ rw (e, run_package) refl
        | inr (runner, e) ↦
            rw (e, run_package)
              (after_tool-SameAt b event latency_ms name _ (ran package_dir event.tool_id params) _
                (left_after path runner event.tool_id patch params environ e))
      ]

  package_params-SameAt :
      (patch : CredentialInjectionPatch) (package_dir : String) (v : Value)
      → SameAt name environ (package_params b environ event latency_ms patch package_dir v).environ
  unfolding package_params failed
  package_params-SameAt patch package_dir (obj fs) =
      run_package-SameAt patch package_dir (entries fs)
  package_params-SameAt patch package_dir null = refl
  package_params-SameAt patch package_dir (boolean t) = refl
  package_params-SameAt patch package_dir (int n) = refl
  package_params-SameAt patch package_dir (float x) = refl
  package_params-SameAt patch package_dir (text s) = refl
  package_params-SameAt patch package_dir (arr xs) = refl

  package_in-SameAt :
      (patch : CredentialInjectionPatch) (dir : Option String)
      → SameAt name environ (package_in b environ event latency_ms patch dir).environ
  unfolding package_in failed
  package_in-SameAt patch none = refl
  package_in-SameAt patch (some dir) = elim (Bool-cases (b.exists (dir <> "/runner.py"))) [
    | inl there ↦ rw there (package_params-SameAt patch dir (get (metadata_of event) "params"))
    | inr missing ↦ rw missing refl
  ]

  sdk_input-SameAt :
      (runtime : String) (v : Value) → SameAt name environ (sdk_input b environ runtime v).environ
  unfolding sdk_input failed
  sdk_input-SameAt runtime v = ground arith

  send_with_headers-SameAt :
      (url : String) (v : Value)
      → SameAt name environ (send_with_headers b environ event latency_ms url v).environ
  unfolding send_with_headers send
  send_with_headers-SameAt url v = ground arith

  send_to-SameAt :
      (url : Option String) → SameAt name environ (send_to b environ event latency_ms url).environ
  unfolding send_to failed
  send_to-SameAt none = refl
  send_to-SameAt (some url) = send_with_headers-SameAt url _

  run_replay-SameAt :
      (runtime : String) (patch : CredentialInjectionPatch)
      → SameAt name environ (run_replay b environ event latency_ms runtime patch).environ
  unfolding run_replay execute_sdk_replay execute_http_replay execute_local_package_replay failed
  run_replay-SameAt runtime patch = elim (Bool-cases (is_sdk b (some runtime))) [
    | inl sdk ↦ rw sdk (sdk_input-SameAt runtime (get (metadata_of event) "input"))
    | inr other ↦ elim (Bool-cases (runtime == "proxy:http")) [
      | inl http ↦ rw (other, http) (send_to-SameAt _)
      | inr neither ↦ elim (Bool-cases (starts_with runtime local_prefix)) [
        | inl local ↦
            rw (other, neither, local)
              (package_in-SameAt patch (local_package_dir event.provider_runtime_reference))
        | inr unknown ↦ rw (other, neither, unknown) refl
      ]
    ]
  ]

  with_credential-SameAt :
      (runtime : String) (credential : ResolvedCredential)
      → SameAt name environ (with_credential b environ event latency_ms runtime credential).environ
  unfolding with_credential failed
  with_credential-SameAt runtime credential = elim (Bool-cases credential.resolved) [
    | inr refused ↦ rw refused refl
    | inl resolved ↦ rw resolved (run_replay-SameAt runtime credential.injection_patch)
  ]

  -- A replay leaves a variable as it was, on every path and also where it raises, if the variable
  -- is one of the three of the credential or no runner's `execute_tool` changes it, and if the
  -- load of a runner does not change it.
  pub execute_replay-SameAt :
      SameAt name environ (execute_replay b environ event latency_ms).environ
  unfolding execute_replay failed
  execute_replay-SameAt = elim (Bool-cases (is_empty (metadata_of event))) [
    | inl empty ↦ rw empty refl
    | inr full ↦ elim (Bool-cases (given event.provider_runtime_reference)) [
      | inr nowhere ↦ rw (full, nowhere) refl
      | inl there ↦
          rw (full, there) (with_credential-SameAt _ (resolve_replay_credential b environ event))
    ]
  ]
