-- ===== src/Control/Rows.antt =====
-- The rows of the table usage_events, of api2agent/control/storage.py: what `record` writes, what
-- `_usage_event_from_row` reads, and the statements on rows. `json` is a parameter.
pub mod Refines
use api2agent.Common.{
  ℕ, String, Bool, true, false, not, ◌||◌, Option, none, some, List, [], ◌∷◌, ◌++◌, ◌==◌, map, any,
  find_first, has_text, nat_eq, if◌then◌else◌,
}
use api2agent.Python.Number.{ℤ, Float}
use api2agent.Python.Value.{Value, null, obj, Object, object, entries}
use api2agent.Python.Number.{is_nan}
use api2agent.Control.Storage.{unsigned, real}
use api2agent.Control.{ExecutionMode, direct, proxy, shadow, replay, mode_str, UsageEvent}

pub record UsageRow : Type 0 where
  pub id : String
  pub routing_decision_id : Option String
  pub execution_mode : String
  pub project_id : String
  pub capability_id : String
  pub provider_id : String
  pub tool_id : String
  pub method : String
  pub path : String
  pub status_code : Option ℤ
  pub success : ℕ
  pub latency_ms : Float
  pub client_region : Option String
  pub api2agent_region : Option String
  pub provider_region : Option String
  pub latency_total_ms : Option Float
  pub latency_network_ms : Option Float
  pub latency_provider_ms : Option Float
  pub latency_overhead_ms : Option Float
  pub estimated_cost : Float
  pub error_type : Option String
  pub request_metadata : Option String
  pub credential_reference : Option String
  pub provider_runtime_reference : Option String
  pub is_golden : ℕ
  pub created_at : String

-- What the table keeps of the values of a row: a REAL column has no NaN, which is NULL and which
-- the two columns that are `NOT NULL` refuse, and no sign of a zero.
unfoldable pub kept : UsageRow → Option UsageRow
kept row =
    if is_nan row.latency_ms || is_nan row.estimated_cost
    then none
    else some (record row {
      latency_ms = unsigned row.latency_ms;
      latency_total_ms = real row.latency_total_ms;
      latency_network_ms = real row.latency_network_ms;
      latency_provider_ms = real row.latency_provider_ms;
      latency_overhead_ms = real row.latency_overhead_ms;
      estimated_cost = unsigned row.estimated_cost;
    })

-- `json.dumps` and `json.loads`, which gives `none` where it raises.
pub record Json : Type 0 where
  pub dumps : Value → String
  pub loads : String → Option Value

-- `1 if flag else 0`
abbrev pub bit : Bool → ℕ
bit true = 1
bit false = 0

abbrev pub is_set : ℕ → Bool
is_set n = not (nat_eq n 0)

-- The `Literal` of `execution_mode`, as the model reads it.
unfoldable pub mode_of : String → Option ExecutionMode
mode_of s =
    if s == "direct"
    then some direct
    else if s == "proxy"
    then some proxy
    else if s == "shadow"
    then some shadow
    else if s == "replay"
    then some replay
    else none

-- The event of a row, where its mode and its metadata are valid.
unfoldable pub event_from :
    UsageRow → Option ExecutionMode → Option (Option Object) → Option UsageEvent
event_from row (some mode) (some metadata) = some (record {
  id = row.id;
  routing_decision_id = row.routing_decision_id;
  execution_mode = mode;
  project_id = row.project_id;
  capability_id = row.capability_id;
  provider_id = row.provider_id;
  tool_id = row.tool_id;
  method = row.method;
  path = row.path;
  status_code = row.status_code;
  success = is_set row.success;
  latency_ms = row.latency_ms;
  client_region = row.client_region;
  api2agent_region = row.api2agent_region;
  provider_region = row.provider_region;
  latency_total_ms = row.latency_total_ms;
  latency_network_ms = row.latency_network_ms;
  latency_provider_ms = row.latency_provider_ms;
  latency_overhead_ms = row.latency_overhead_ms;
  estimated_cost = row.estimated_cost;
  error_type = row.error_type;
  request_metadata = metadata;
  credential_reference = row.credential_reference;
  provider_runtime_reference = row.provider_runtime_reference;
  is_golden = is_set row.is_golden;
  created_at = row.created_at;
})
event_from row _ _ = none

module _ (json : Json) where
  abbrev pub metadata_text : Option Object → Option String
  metadata_text none = none
  metadata_text (some metadata) = some (json.dumps (object metadata))

  unfoldable pub row_of : UsageEvent → UsageRow
  row_of e = record {
    id = e.id;
    routing_decision_id = e.routing_decision_id;
    execution_mode = mode_str e.execution_mode;
    project_id = e.project_id;
    capability_id = e.capability_id;
    provider_id = e.provider_id;
    tool_id = e.tool_id;
    method = e.method;
    path = e.path;
    status_code = e.status_code;
    success = bit e.success;
    latency_ms = e.latency_ms;
    client_region = e.client_region;
    api2agent_region = e.api2agent_region;
    provider_region = e.provider_region;
    latency_total_ms = e.latency_total_ms;
    latency_network_ms = e.latency_network_ms;
    latency_provider_ms = e.latency_provider_ms;
    latency_overhead_ms = e.latency_overhead_ms;
    estimated_cost = e.estimated_cost;
    error_type = e.error_type;
    request_metadata = metadata_text e.request_metadata;
    credential_reference = e.credential_reference;
    provider_runtime_reference = e.provider_runtime_reference;
    is_golden = bit e.is_golden;
    created_at = e.created_at;
  }

  -- The metadata of a row; `none` where it does not load or does not validate.
  unfoldable pub metadata_from : Option String → Option (Option Object)
  metadata_from none = some none
  metadata_from (some s) = if has_text s then loaded (json.loads s) else none
    where
      loaded : Option Value → Option (Option Object)
      loaded (some null) = some none
      loaded (some (obj fs)) = some (some (entries fs))
      loaded v = none

  unfoldable pub usage_event_from_row : UsageRow → Option UsageEvent
  unfolding event_from mode_of metadata_from
  usage_event_from_row row =
      event_from row (mode_of row.execution_mode) (metadata_from row.request_metadata)

  -- The event as it is read after it was written; `none` where it is refused or cannot be read.
  unfoldable pub read_back : UsageEvent → Option UsageEvent
  unfolding row_of kept usage_event_from_row
  read_back e = elim (kept (row_of e)) [ none ↦ none | some row ↦ usage_event_from_row row ]

  unfoldable pub insert_row : UsageEvent → List UsageRow → Option (List UsageRow)
  unfolding row_of kept
  insert_row e rows =
      if any (λ row. row.id == e.id) rows
      then none
      else elim (kept (row_of e)) [ none ↦ none | some row ↦ some (rows ++ row ∷ []) ]

  -- `SELECT ... WHERE id = ?`: a row that cannot be read raises.
  unfoldable pub select_event : String → List UsageRow → Option (Option UsageEvent)
  unfolding usage_event_from_row
  select_event event_id rows = elim (find_first (λ row. row.id == event_id) rows) [
    | none ↦ some none
    | some row ↦ elim (usage_event_from_row row) [ none ↦ none | some e ↦ some (some e) ]
  ]

-- `UPDATE usage_events SET is_golden = ? WHERE id = ?`
unfoldable pub set_golden_row : String → Bool → UsageRow → UsageRow
set_golden_row event_id golden row =
    if row.id == event_id then record row { is_golden = bit golden } else row

unfoldable pub update_golden : String → Bool → List UsageRow → List UsageRow
unfolding set_golden_row
update_golden event_id golden rows = map (set_golden_row event_id golden) rows
