-- ===== src/Control.antt =====
-- api2agent/control/models.py: usage events, their sums, and a request to the proxy. A time of
-- creation is the text of its JSON form, as the store keeps it.
pub mod Storage
pub mod Metrics
pub mod Ledger
pub mod Rows
pub mod Request
pub mod Proxy
pub mod Handler
use api2agent.Common.{ℕ, String, Bool, Option, List}
use api2agent.Python.Number.{ℤ, Float}
use api2agent.Python.Value.{Object}

pub data ExecutionMode : Type 0 where
  direct proxy shadow replay : ExecutionMode

abbrev pub mode_str : ExecutionMode → String
mode_str direct = "direct"
mode_str proxy = "proxy"
mode_str shadow = "shadow"
mode_str replay = "replay"

pub record UsageEvent : Type 0 where
  pub id : String
  pub routing_decision_id : Option String
  pub execution_mode : ExecutionMode
  pub project_id : String
  pub capability_id : String
  pub provider_id : String
  pub tool_id : String
  pub method : String
  pub path : String
  pub status_code : Option ℤ
  pub success : Bool
  pub latency_ms : Float
  pub client_region : Option String
  pub api2agent_region : Option String
  pub provider_region : Option String
  pub latency_total_ms : Option Float
  pub latency_network_ms : Option Float
  pub latency_provider_ms : Option Float
  pub latency_overhead_ms : Option Float
  pub estimated_cost : Float
  pub error_type : Option String
  pub request_metadata : Option Object
  pub credential_reference : Option String
  pub provider_runtime_reference : Option String
  pub is_golden : Bool
  pub created_at : String

pub record UsageSummary : Type 0 where
  pub project_id : Option String
  pub total_calls : ℕ
  pub successful_calls : ℕ
  pub failed_calls : ℕ
  pub success_rate : Float
  pub average_latency_ms : Float
  pub estimated_cost : Float
  pub error_counts : List (String × ℕ)

pub record UsageLedgerRow : Type 0 where
  pub project_id : String
  pub capability_id : String
  pub provider_id : String
  pub execution_mode : Option ExecutionMode
  pub total_calls : ℕ
  pub successful_calls : ℕ
  pub failed_calls : ℕ
  pub success_rate : Float
  pub average_latency_ms : Float
  pub estimated_cost : Float

pub record ProxyRequest : Type 0 where
  pub project_id : String
  pub routing_decision_id : Option String
  pub capability_id : String
  pub provider_id : String
  pub tool_id : String
  pub estimated_cost : Float
  pub client_region : Option String
  pub api2agent_region : Option String
  pub provider_region : Option String
  pub latency_network_ms : Option Float
  pub latency_provider_ms : Option Float
  pub latency_overhead_ms : Option Float
  pub request : Object
  pub credential : Option Object
