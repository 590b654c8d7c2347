-- ===== src/Control/Metrics.antt =====
-- `metrics_for_capability` of api2agent/control/storage.py.
pub mod Totals
use api2agent.Common.{
  ℕ, suc, ◌+◌, ◌-◌, String, Bool, true, false, not, ◌&&◌, ◌||◌, Option, none, some, List, [], ◌∷◌,
  ◌++◌, ◌==◌, opt_eq, length, select, any, map, nat_eq, if◌then◌else◌,
}
use api2agent.Python.Number.{float_zero}
use api2agent.Python.Sorting.{sort}
use api2agent.Capabilities.{MetricsSnapshot}
use api2agent.Control.{ExecutionMode, shadow, replay, UsageEvent}
use api2agent.Common.Groups.{distinct}
use api2agent.Control.Storage.{UsageStore, Sums, succeeded, str_lt}

-- The keys of the groups by provider, in the order of the engine's sort.
unfoldable pub group_keys : List UsageEvent → List String
unfolding distinct str_lt
group_keys rows = sort str_lt (distinct ◌==◌ (map (λ e. e.provider_id) rows))

abbrev pub is_shadow : ExecutionMode → Bool
is_shadow shadow = true
is_shadow _ = false

abbrev pub is_replay : ExecutionMode → Bool
is_replay replay = true
is_replay _ = false

-- The rows that are counted: of the capability, without the modes that are left out.
unfoldable pub counted : String → Bool → Bool → UsageEvent → Bool
counted capability_id include_shadow include_replay e =
    (e.capability_id == capability_id)
    && (include_shadow || not (is_shadow e.execution_mode))
    && (include_replay || not (is_replay e.execution_mode))

module _ (sums : Sums) where
  -- A group's numbers, of all regions or of one.
  unfoldable pub snapshot : String → Option String → String → List UsageEvent → MetricsSnapshot
  snapshot capability_id client_region provider_id rows =
      let total = length rows in
      let successful = length (select succeeded rows) in
      record {
        capability_id = capability_id;
        provider_id = provider_id;
        client_region = client_region;
        provider_region = none;
        total_calls = total;
        successful_calls = successful;
        failed_calls = total - successful;
        success_rate = if nat_eq total 0 then float_zero else sums.ratio successful total;
        average_latency_ms = sums.sql_average (map (λ e. e.latency_ms) rows);
        estimated_cost_per_call = sums.sql_average (map (λ e. e.estimated_cost) rows);
      }

  -- `GROUP BY provider_id` over the rows, one snapshot for each group in the order of the keys.
  unfoldable pub snapshots :
      String → Option String → List String → List UsageEvent → List MetricsSnapshot
  unfolding snapshot
  snapshots capability_id client_region [] rows = []
  snapshots capability_id client_region (p ∷ ps) rows =
      snapshot capability_id client_region p (select (λ e. e.provider_id == p) rows)
      ∷ snapshots capability_id client_region ps rows

  unfoldable pub metrics_for_capability :
      String → Bool → Bool → Option String → UsageStore → List MetricsSnapshot
  unfolding snapshots counted group_keys
  metrics_for_capability capability_id include_shadow include_replay client_region s =
      let rows = select (counted capability_id include_shadow include_replay) s.usage_events in
      let overall = snapshots capability_id none (group_keys rows) rows in
      elim client_region [
        | none ↦ overall
        | some region ↦
            let local = select (λ e. opt_eq e.client_region (some region)) rows in
            overall ++ snapshots capability_id (some region) (group_keys local) local
      ]
