-- ===== src/Replay/Gate.antt =====
-- Which events `can_execute_replay` lets through, and where `execute_replay` takes them.
use api2agent.Common.{
  text_or-given, ◌<>◌, String, Bool, true, false, not, ◌&&◌, Option, none, some, ◌==◌, ◌≡◌, inl,
  inr, refl, arith, given, text_or, Bool-cases, if◌then◌else◌,
}
use api2agent.Python.Number.{Float}
use api2agent.Credentials.{CredentialInjectionPatch, ResolvedCredential}
use api2agent.Credentials.Resolver.{Environ}
use api2agent.Control.{UsageEvent}
use api2agent.Replay.{
  Backend, Replayed, failed, metadata_of, is_empty, is_sdk, is_known, resolve_replay_credential,
  can_execute_replay,
}
use api2agent.Replay.Execute.{
  execute_sdk_replay, execute_http_replay, execute_local_package_replay, run_replay,
  with_credential, execute_replay,
}

module _ (b : Backend) (environ : Environ) (event : UsageEvent) (latency_ms : Float) where
  -- An error that runs nothing.
  Refuses : Replayed → Type 0
  Refuses r = (error_type : String) × (message : String) × (r ≡ failed error_type message environ)

  -- The runtime of the event, as one of the three that a replay knows.
  abbrev pub routed : String → CredentialInjectionPatch → Replayed
  routed runtime patch =
      if is_sdk b (some runtime)
      then execute_sdk_replay b environ event runtime
      else if runtime == "proxy:http"
      then execute_http_replay b environ event latency_ms
      else execute_local_package_replay b environ event latency_ms patch

  run_replay-known :
      (runtime : String) (patch : CredentialInjectionPatch)
      → is_known b (some runtime) ≡ true
      → run_replay b environ event latency_ms runtime patch ≡ routed runtime patch
  unfolding run_replay is_known
  run_replay-known runtime patch known = ground arith

  run_replay-unknown :
      (runtime : String) (patch : CredentialInjectionPatch)
      → is_known b (some runtime) ≡ false
      → Refuses (run_replay b environ event latency_ms runtime patch)
  unfolding run_replay Refuses is_known
  run_replay-unknown runtime patch unknown =
      ("unsupported_provider_runtime", "Unsupported replay runtime: " <> runtime, ground arith)

  with_credential-Refuses :
      (runtime : String) (credential : ResolvedCredential)
      → is_known b (some runtime) && credential.resolved ≡ false
      → Refuses (with_credential b environ event latency_ms runtime credential)
  unfolding with_credential Refuses
  with_credential-Refuses runtime credential h = elim (Bool-cases credential.resolved) [
    | inr refused ↦ (
      text_or credential.error_type "credential_required",
      text_or credential.error_message
          "Replay cannot execute because the original call referenced credentials.",
      rw refused refl,
    )
    | inl resolved ↦
        rw resolved (run_replay-unknown runtime credential.injection_patch (ground arith))
  ]

  with_credential-routed :
      (runtime : String) (credential : ResolvedCredential)
      → is_known b (some runtime) ≡ true
      → credential.resolved ≡ true
      → with_credential b environ event latency_ms runtime credential
        ≡ routed runtime credential.injection_patch
  unfolding with_credential
  with_credential-routed runtime credential known resolved =
      rw resolved (run_replay-known runtime credential.injection_patch known)

  -- The checks of both functions, on what they read of the event.
  passes : Bool → Option String → ResolvedCredential → Bool
  passes empty reference credential =
      not empty && given reference && is_known b reference && credential.resolved

  checked : Bool → Option String → ResolvedCredential → Replayed
  checked empty reference credential =
      if empty
      then failed "missing_request_metadata" "Usage event has no request metadata." environ
      else if not (given reference)
      then failed "missing_provider_runtime_reference"
          "Usage event has no provider runtime reference." environ
      else with_credential b environ event latency_ms (text_or reference "") credential

  checked-Refuses :
      (empty : Bool) (reference : Option String) (credential : ResolvedCredential)
      → passes empty reference credential ≡ false
      → Refuses (checked empty reference credential)
  unfolding passes checked Refuses
  checked-Refuses true reference credential h =
      ("missing_request_metadata", "Usage event has no request metadata.", refl)
  checked-Refuses false none credential h =
      ("missing_provider_runtime_reference", "Usage event has no provider runtime reference.", refl)
  checked-Refuses false (some runtime) credential h = elim (Bool-cases (given (some runtime))) [
    | inr none_given ↦ (
      "missing_provider_runtime_reference",
      "Usage event has no provider runtime reference.",
      rw none_given refl,
    )
    | inl there ↦
        rw (there, text_or-given runtime "" there)
          (with_credential-Refuses runtime credential (ground arith))
  ]

  checked-routed :
      (empty : Bool) (reference : Option String) (credential : ResolvedCredential)
      → passes empty reference credential ≡ true
      → (runtime : String) × (reference ≡ some runtime)
        × (checked empty reference credential ≡ routed runtime credential.injection_patch)
  unfolding passes checked
  checked-routed true reference credential h = ground arith
  checked-routed false none credential h = ground arith
  checked-routed false (some runtime) credential h =
      let there : given (some runtime) ≡ true = ground arith in
      (
        runtime,
        refl,
        rw (there, text_or-given runtime "" there)
            (with_credential-routed runtime credential (ground arith) (ground arith)),
      )

  -- An event that can be replayed goes to its runtime: the adapter, the HTTP request or the local
  -- package. One that cannot gives an error, runs nothing and changes no environment.
  pub can_execute_replay-execute_replay :
      (can_execute_replay b environ event ≡ false
        → (error_type : String) × (message : String) × (execute_replay b environ event latency_ms
            ≡ failed error_type message environ))
      × (can_execute_replay b environ event ≡ true
          → (runtime : String) × (event.provider_runtime_reference ≡ some runtime)
            × (execute_replay b environ event latency_ms
                ≡ routed runtime (resolve_replay_credential b environ event).injection_patch))
  unfolding can_execute_replay execute_replay passes checked Refuses
  can_execute_replay-execute_replay =
      let empty = is_empty (metadata_of event) in
      let credential = resolve_replay_credential b environ event in
      (
        λ h. checked-Refuses empty event.provider_runtime_reference credential h,
        λ h. checked-routed empty event.provider_runtime_reference credential h,
      )
