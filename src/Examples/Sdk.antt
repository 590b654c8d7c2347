-- ===== src/Examples/Sdk.antt =====
-- A call of the SDK.
use mathlib.Core.List.Perm
use api2agent.Common.{true, false, none, some, [], ◌∷◌, ◌≢◌}
use api2agent.Python.Number.{pos, float_zero}
use api2agent.Python.Value.{text}
use api2agent.Adapters.{AdapterResult, estimated}
use api2agent.Capabilities.{lowest_latency}
use api2agent.Sdk.{Adapter, CallArguments, Stamps, no_attempts, routed}
use api2agent.Sdk.Call.{call}
use api2agent.Sdk.Attempts.{call-attempts}
use api2agent.Control.Storage.{empty_store}
use api2agent.Examples.Credentials.{today}
use api2agent.Examples.Run.{numerics}

abbrev timed_out : AdapterResult
timed_out = record {
  ok = false;
  capability_id = "weather.get";
  provider_id = "open_meteo";
  output = none;
  status_code = none;
  latency_ms = float_zero;
  cost = record { estimated_cost = float_zero; observed_cost = none; cost_source = estimated };
  error_type = some "TIMEOUT";
  error_message = none;
}

abbrev open_meteo : Adapter
open_meteo = record {
  provider_id = "open_meteo";
  tool_id = "call";
  class_name = "OpenMeteoWeatherAdapter";
  call = λ input. some timed_out;
}

abbrev wttr_in : Adapter
wttr_in = record open_meteo {
  provider_id = "wttr_in";
  class_name = "WttrInWeatherAdapter";
  call = λ input. some (record timed_out { ok = true; status_code = some (pos 200) });
}

abbrev stamps : Stamps
stamps = record {
  decision_id = "r1";
  created_at = today;
  event = λ index. ("e1", "2026-03-01T12:00:00+00:00");
  shadow_event = λ index. ("e2", "2026-03-01T12:00:01+00:00");
}

abbrev weather : CallArguments
weather = record {
  capability = "weather.get";
  input = ("city", text "Oslo") ∷ [];
  project_id = "local";
  provider_id = none;
  strategy = routed lowest_latency;
  failover = true;
  max_attempts = some (pos 0);
  retry_on_status_codes = none;
  retry_on_error_types = none;
  shadow = false;
  shadow_provider_ids = none;
  include_shadow_metrics = true;
}

call-attempts_example : call numerics stamps weather open_meteo wttr_in empty_store ≢ no_attempts
call-attempts_example =
    call-attempts numerics stamps weather (λ cs. Perm.refl cs) open_meteo wttr_in empty_store
