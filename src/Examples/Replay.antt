-- ===== src/Examples/Replay.antt =====
-- Replays of an event.
use api2agent.Common.{String, true, false, none, some, [], ◌∷◌, ◌≡◌, inl, refl}
use api2agent.Python.Number.{pos, float_zero}
use api2agent.Python.Value.{text, object}
use api2agent.Credentials.Resolver.{resolve, find_config_credential, nothing_needed}
use api2agent.Control.{UsageEvent}
use api2agent.Replay.{Backend, can_execute_replay, failed, resolve_replay_credential}
use api2agent.Replay.Execute.{execute_replay}
use api2agent.Replay.Gate.{routed, can_execute_replay-execute_replay}
use api2agent.Replay.Environment.{execute_replay-SameAt}
use api2agent.Capabilities.Execution.Environment.{SameAt}
use api2agent.Examples.Credentials.{today, environment, github}
use api2agent.Examples.Execution.{runner}
use api2agent.Examples.Control.{listed}

abbrev backend : Backend
backend = record {
  adapters = [];
  request = λ r. some (record { status_code = pos 200; is_success = true; body = text "[]" });
  exists = λ path. true;
  load_runner = λ path id e. (some runner, e);
  validate_credential = λ d. inl github;
  dumps = λ d. "{}";
  repr = λ v. "";
  now = today;
}

abbrev local_event : UsageEvent
local_event = record listed {
  request_metadata = some (("params", object (("page", text "1") ∷ [])) ∷ []);
  provider_runtime_reference = some "local_package:packages/github";
  credential_reference = none;
}

can_replay : can_execute_replay backend environment local_event ≡ true
unfolding can_execute_replay resolve find_config_credential nothing_needed
can_replay = refl

can_execute_replay-execute_replay_example :
    (can_execute_replay backend environment local_event ≡ false
      → (error_type : String) × (message : String) × (execute_replay backend environment local_event
            float_zero
          ≡ failed error_type message environment))
    × (can_execute_replay backend environment local_event ≡ true
        → (runtime : String) × (local_event.provider_runtime_reference ≡ some runtime)
          × (execute_replay backend environment local_event float_zero
              ≡ routed backend environment local_event float_zero runtime
                  (resolve_replay_credential backend environment local_event).injection_patch))
can_execute_replay-execute_replay_example =
    can_execute_replay-execute_replay backend environment local_event float_zero

execute_replay-SameAt_example :
    SameAt "API2AGENT_CREDENTIAL_BODY" environment
      (execute_replay backend environment local_event float_zero).environ
execute_replay-SameAt_example =
    execute_replay-SameAt backend environment local_event float_zero "API2AGENT_CREDENTIAL_BODY"
      (λ path id e. refl) (inl refl)
