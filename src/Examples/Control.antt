-- ===== src/Examples/Control.antt =====
-- Runs of the usage store: its events, metrics and ledger.
use api2agent.Common.{
  ◌++◌, List, ◌≡◌, String, true, false, ◌&&◌, Option, none, some, [], ◌∷◌, ◌==◌, All, has_text,
  length, select,
}
use api2agent.Common.Groups.{total}
use api2agent.Python.Number.{pos, float_zero}
use api2agent.Control.{UsageEvent, UsageLedgerRow, direct}
use api2agent.Capabilities.{MetricsSnapshot}
use api2agent.Control.Storage.{
  UsageStore, Sums, EventFilter, empty_store, get_usage_event, count, of_project, summarize,
  mark_golden, passes, succeeded,
}
use api2agent.Control.Storage.Summary.{
  summarize-counts, mark_golden_lem, times, failed_with, did_not_succeed, if_found, marked_as,
}
use api2agent.Control.Metrics.{counted, metrics_for_capability}
use api2agent.Control.Metrics.Totals.{metrics_for_capability-Counts, Counts, in_region}
use api2agent.Control.Ledger.{ledger, in_month}
use api2agent.Control.Ledger.Totals.{total-ledger, Balanced}

abbrev pub listed : UsageEvent
listed = record {
  id = "e1";
  routing_decision_id = none;
  execution_mode = direct;
  project_id = "demo";
  capability_id = "work.issue.list";
  provider_id = "github";
  tool_id = "list_issues";
  method = "GET";
  path = "/issues";
  status_code = some (pos 200);
  success = true;
  latency_ms = float_zero;
  client_region = none;
  api2agent_region = none;
  provider_region = none;
  latency_total_ms = none;
  latency_network_ms = none;
  latency_provider_ms = none;
  latency_overhead_ms = none;
  estimated_cost = float_zero;
  error_type = none;
  request_metadata = none;
  credential_reference = none;
  provider_runtime_reference = none;
  is_golden = false;
  created_at = "2026-03-01T12:00:00+00:00";
}

abbrev pub timed_out : UsageEvent
timed_out = record listed { id = "e2"; success = false; error_type = some "http_error" }

abbrev pub one_event : UsageStore
one_event = record empty_store { usage_events = listed ∷ [] }

abbrev pub two_events : UsageStore
two_events = record empty_store { usage_events = listed ∷ timed_out ∷ [] }

abbrev no_sums : Sums
no_sums = record {
  sum = λ xs. float_zero;
  divide = λ x n. x;
  ratio = λ m n. float_zero;
  sql_sum = λ xs. float_zero;
  sql_average = λ xs. float_zero;
}

abbrev of_demo : EventFilter
of_demo = record {
  project_id = some "demo";
  capability_id = none;
  provider_id = none;
  golden_only = false;
}

summarize-counts_example :
    let a = summarize no_sums (some "demo") two_events in
    (a.total_calls ≡ count (some "demo") two_events)
    × (a.successful_calls
        ≡ length (select succeeded (select (of_project (some "demo")) two_events.usage_events)))
    × (a.failed_calls
        ≡ length
            (select did_not_succeed (select (of_project (some "demo")) two_events.usage_events)))
    × ((t : String)
        → has_text t ≡ true
        → times t a.error_counts
          ≡ length
              (select (failed_with t) (select (of_project (some "demo")) two_events.usage_events)))
summarize-counts_example = summarize-counts no_sums (some "demo") two_events

mark_golden_lem_example :
    let (marked, t) = mark_golden "e2" true two_events in
    (marked ≡ get_usage_event "e2" t)
    × (marked ≡ if_found (marked_as true) (get_usage_event "e2" two_events))
    × ((j : String) → (j == "e2") ≡ false → get_usage_event j t ≡ get_usage_event j two_events)
    × ((p : Option String) → count p t ≡ count p two_events)
mark_golden_lem_example = mark_golden_lem "e2" true two_events

metrics_for_capability-Counts_example :
    let rows = select (counted "work.issue.list" true false) two_events.usage_events in
    let overall = metrics_for_capability no_sums "work.issue.list" true false none two_events in
    All (Counts no_sums "work.issue.list" none rows) overall
    × (total (λ (m : MetricsSnapshot). m.total_calls) overall ≡ length rows)
    × ((region : String)
        → (local : List MetricsSnapshot) × (metrics_for_capability no_sums "work.issue.list" true
              false
              (some region)
              two_events
            ≡ overall ++ local)
          × All
              (Counts no_sums "work.issue.list" (some region) (select (in_region region) rows))
              local
          × (total (λ (m : MetricsSnapshot). m.total_calls) local
              ≡ length (select (in_region region) rows)))
metrics_for_capability-Counts_example =
    metrics_for_capability-Counts no_sums "work.issue.list" true false two_events

total-ledger_example :
    let covered =
      select (λ e. passes of_demo e && in_month (some "2026-03") e) two_events.usage_events in
    let rows = ledger no_sums of_demo (some "2026-03") true two_events in
    (total (λ (r : UsageLedgerRow). r.total_calls) rows ≡ length covered)
    × (total (λ (r : UsageLedgerRow). r.successful_calls) rows ≡ length (select succeeded covered))
    × All Balanced rows
total-ledger_example = total-ledger no_sums of_demo (some "2026-03") true two_events
