-- ===== src/Capabilities/Policies.antt =====
-- api2agent/capabilities/policies.py: the named presets. `none` is the `ValueError`.
use api2agent.Common.{String, Option, none, some, ◌==◌, if◌then◌else◌, ◌≡◌, refl}
use api2agent.Python.Text.{strip, lower, dashes_to_underscores}
use api2agent.Python.Number.{Float}
use api2agent.Capabilities.{
  RoutingPolicy, weights_of, half, three_tenths, two_tenths, eight_tenths, one_tenth, seven_tenths,
  balanced,
}

preset_of : Float → Float → Float → Option RoutingPolicy
preset_of success latency cost = some (record {
  strategy = balanced;
  client_region = none;
  weights = weights_of success latency cost;
})

unfoldable pub routing_policy_preset : String → Option RoutingPolicy
unfolding preset_of
routing_policy_preset name =
    let normalized = dashes_to_underscores (lower (strip name)) in
    if normalized == "balanced"
    then preset_of half three_tenths two_tenths
    else if normalized == "reliability_first"
    then preset_of eight_tenths one_tenth one_tenth
    else if normalized == "cost_first"
    then preset_of one_tenth two_tenths seven_tenths
    else if normalized == "latency_first"
    then preset_of one_tenth seven_tenths two_tenths
    else none

preset_runs : routing_policy_preset " Cost-First" ≡ preset_of one_tenth two_tenths seven_tenths
unfolding routing_policy_preset strip lower dashes_to_underscores
preset_runs = refl
