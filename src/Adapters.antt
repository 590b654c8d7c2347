-- ===== src/Adapters.antt =====
-- api2agent/adapters/models.py: what an adapter answers. The adapters' calls of their services are
-- parameters of the modules that use them.
use api2agent.Common.{String, Bool, Option}
use api2agent.Python.Number.{ℤ, Float}
use api2agent.Python.Value.{Object}

pub data CostSource : Type 0 where
  estimated : CostSource
  provider_declared : CostSource
  observed : CostSource
  contracted : CostSource

pub record CostEstimate : Type 0 where
  pub estimated_cost : Float
  pub observed_cost : Option Float
  pub cost_source : CostSource

pub record AdapterResult : Type 0 where
  pub ok : Bool
  pub capability_id : String
  pub provider_id : String
  pub output : Option Object
  pub status_code : Option ℤ
  pub latency_ms : Float
  pub cost : CostEstimate
  pub error_type : Option String
  pub error_message : Option String
