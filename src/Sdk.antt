-- ===== src/Sdk.antt =====
-- api2agent/sdk.py: `call`. The two adapters' calls of their services are parameters (`Adapter`);
-- the store that an exception leaves is not followed.
pub mod Call
pub mod Attempts
use api2agent.Common.{
  ◌<>◌, ◌⊎◌, inl, inr, ℕ, zero, suc, ◌+◌, String, Bool, true, false, not, ◌&&◌, Option, none, some,
  List, [], ◌∷◌, ◌==◌, contains, lookup, map, take, length, given, is_some, has_text, text_or,
  head?, if◌then◌else◌,
}
use api2agent.Python.Number.{ℤ, Float, float_zero}
use api2agent.Python.Time.{DateTime}
use api2agent.Python.Value.{Value, Object, object}
use api2agent.Capabilities.{
  ProviderCandidate, Strategy, first, random, lowest_cost, lowest_latency, highest_success_rate,
  balanced, strategy_str, GeoAffinity, unknown, default_policy, RoutingPolicy, RoutingDecision,
  FailoverPolicy,
}
use api2agent.Capabilities.Failover.{build_failover_policy, contains_int, slice_to}
use api2agent.Capabilities.Routing.{rank_providers}
use api2agent.Capabilities.Execution.Run.{Numerics}
use api2agent.Capabilities.Execution.Shadow.{selected_shadow_ids}
use api2agent.Adapters.{AdapterResult}
use api2agent.Control.{UsageEvent, ExecutionMode, direct, shadow}
use api2agent.Control.Metrics.{metrics_for_capability}
use api2agent.Control.Storage.{UsageStore, record_event, record_routing_decision}

-- `call` gives `none` where it raises.
pub record Adapter : Type 0 where
  pub provider_id : String
  pub tool_id : String
  pub class_name : String
  pub call : Object → Option AdapterResult

-- `SdkRoutingStrategy`: a strategy of routing, or another name for one.
pub data SdkRoutingStrategy : Type 0 where
  routed : Strategy → SdkRoutingStrategy
  lowest_observed_latency : SdkRoutingStrategy

pub record CallArguments : Type 0 where
  pub capability : String
  pub input : Object
  pub project_id : String
  pub provider_id : Option String
  pub strategy : SdkRoutingStrategy
  pub failover : Bool
  pub max_attempts : Option ℤ
  pub retry_on_status_codes : Option (List ℤ)
  pub retry_on_error_types : Option (List String)
  pub shadow : Bool
  pub shadow_provider_ids : Option (List String)
  pub include_shadow_metrics : Bool

-- What a call draws: the decision's id and time, and those of each event.
pub record Stamps : Type 0 where
  pub decision_id : String
  pub created_at : DateTime
  pub event : ℕ → String × String
  pub shadow_event : ℕ → String × String

pub record SdkAttempt : Type 0 where
  pub provider_id : String
  pub usage_event_id : String
  pub result : AdapterResult

-- The loop's attempts, with the last one.
pub record Attempted : Type 0 where
  pub attempts : List SdkAttempt
  pub last : Option SdkAttempt
  pub store : UsageStore

pub record Answer : Type 0 where
  pub decision : RoutingDecision
  pub last : SdkAttempt
  pub attempts : List SdkAttempt
  pub shadow_attempts : List SdkAttempt
  pub store : UsageStore

-- A `ValueError`, the `RuntimeError` that there were no attempts, another exception, or the answer.
pub data Outcome : Type 0 where
  invalid : String → Outcome
  no_attempts : Outcome
  raised : Outcome
  answered : Answer → Outcome

abbrev pub policy_strategy : SdkRoutingStrategy → Strategy
policy_strategy (routed strategy) = strategy
policy_strategy lowest_observed_latency = lowest_latency

unfoldable pub adapters_for_capability :
    Adapter → Adapter → String → Option (List (String × Adapter))
adapters_for_capability open_meteo wttr_in capability =
    if capability == "weather.get"
    then some (("open_meteo", open_meteo) ∷ ("wttr_in", wttr_in) ∷ [])
    else none

abbrev pub candidate : String → String × Adapter → ProviderCandidate
candidate capability (provider_id, adapter) = record {
  id = provider_id;
  capability_id = capability;
  provider_id = provider_id;
  tool_id = adapter.tool_id;
  estimated_cost = float_zero;
  regions = [];
  geo_affinity = unknown;
  output_mapping = [];
  metadata = [];
}

abbrev pub sdk_error_types : List String
sdk_error_types =
    "RATE_LIMIT" ∷ "TIMEOUT" ∷ "PROVIDER_ERROR" ∷ "NORMALIZATION_ERROR" ∷ "UNKNOWN" ∷ []

abbrev pub error_types_or : Option (List String) → List String
error_types_or (some (t ∷ ts)) = t ∷ ts
error_types_or _ = sdk_error_types

unfoldable pub build_sdk_failover_policy :
    Bool → ℕ → Option ℤ → Option (List ℤ) → Option (List String) → FailoverPolicy
build_sdk_failover_policy enabled count max_attempts codes error_types =
    record (build_failover_policy enabled count max_attempts codes) {
      retry_on_error_types = error_types_or error_types;
    }

abbrev pub status_listed : Option ℤ → List ℤ → Bool
status_listed none codes = false
status_listed (some n) codes = contains_int codes n

unfoldable pub should_failover_adapter_result : AdapterResult → FailoverPolicy → Bool
should_failover_adapter_result result policy =
    if not policy.enabled
    then false
    else if status_listed result.status_code policy.retry_on_status_codes
    then true
    else given result.error_type
      && contains policy.retry_on_error_types (text_or result.error_type "")

-- `attempts`
unfoldable pub attempted_ids : FailoverPolicy → List String → List String
attempted_ids policy ranked =
    if policy.enabled then slice_to policy.max_attempts ranked else take 1 ranked
