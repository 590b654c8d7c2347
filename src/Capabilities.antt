-- ===== src/Capabilities.antt =====
-- api2agent/capabilities/models.py: providers, their metrics, and the policies that choose them.
pub mod Naming
pub mod Policies
pub mod Failover
pub mod Normalization
pub mod Registry
pub mod Routing
pub mod Execution
use api2agent.Common.{ℕ, String, Bool, Option, List, [], ◌∷◌, none, some}
use api2agent.Python.Number.{ℤ, pos, Float}
use api2agent.Python.Time.{DateTime}
use api2agent.Python.Value.{Object}

pub data GeoAffinity : Type 0 where
  global regional cn_only unknown : GeoAffinity

pub record ProviderCandidate : Type 0 where
  pub id : String
  pub capability_id : String
  pub provider_id : String
  pub tool_id : String
  pub estimated_cost : Float
  pub regions : List String
  pub geo_affinity : GeoAffinity
  pub output_mapping : List (String × String)
  pub metadata : Object

pub record MetricsSnapshot : Type 0 where
  pub capability_id : String
  pub provider_id : String
  pub client_region : Option String
  pub provider_region : Option String
  pub total_calls : ℕ
  pub successful_calls : ℕ
  pub failed_calls : ℕ
  pub success_rate : Float
  pub average_latency_ms : Float
  pub estimated_cost_per_call : Float

pub data Strategy : Type 0 where
  first random lowest_cost lowest_latency region_aware_latency highest_success_rate balanced :
      Strategy

abbrev pub strategy_str : Strategy → String
strategy_str first = "first"
strategy_str random = "random"
strategy_str lowest_cost = "lowest_cost"
strategy_str lowest_latency = "lowest_latency"
strategy_str region_aware_latency = "region_aware_latency"
strategy_str highest_success_rate = "highest_success_rate"
strategy_str balanced = "balanced"

pub record RoutingPolicy : Type 0 where
  pub strategy : Strategy
  pub client_region : Option String
  pub weights : List (String × Float)

-- The floats 0.5, 0.3, 0.2, 0.8, 0.1 and 0.7
abbrev pub half : Float
half = 0x3fe0000000000000

abbrev pub three_tenths : Float
three_tenths = 0x3fd3333333333333

abbrev pub two_tenths : Float
two_tenths = 0x3fc999999999999a

abbrev pub eight_tenths : Float
eight_tenths = 0x3fe999999999999a

abbrev pub one_tenth : Float
one_tenth = 0x3fb999999999999a

abbrev pub seven_tenths : Float
seven_tenths = 0x3fe6666666666666

abbrev pub weights_of : Float → Float → Float → List (String × Float)
weights_of success latency cost =
    ("success_rate", success) ∷ ("latency", latency) ∷ ("cost", cost) ∷ []

-- `RoutingPolicy()`
abbrev pub default_policy : RoutingPolicy
default_policy = record {
  strategy = balanced;
  client_region = none;
  weights = weights_of half three_tenths two_tenths;
}

pub record FailoverPolicy : Type 0 where
  pub enabled : Bool
  pub max_attempts : ℤ
  pub retry_on_error_types : List String
  pub retry_on_status_codes : List ℤ

abbrev pub default_error_types : List String
default_error_types = "http_error" ∷ "http_status" ∷ "proxy_error" ∷ "output_normalization" ∷ []

abbrev pub default_status_codes : List ℤ
default_status_codes = pos 408 ∷ pos 429 ∷ pos 500 ∷ pos 502 ∷ pos 503 ∷ pos 504 ∷ []

pub record RoutingDecision : Type 0 where
  pub id : String
  pub project_id : String
  pub capability_id : String
  pub strategy : String
  pub preset : Option String
  pub client_region : Option String
  pub selected_provider_id : Option String
  pub selected_provider_region : Option String
  pub ranked_provider_ids : List String
  pub metrics : List MetricsSnapshot
  pub failover_policy : Option FailoverPolicy
  pub created_at : DateTime
