-- ===== src/Control/Storage.antt =====
-- api2agent/control/storage.py: `UsageStore`. A table is the list of its rows in the order of their
-- insertion; the engine's sums and means of floats, and those of Python, are parameters. What a
-- column of the type REAL keeps of a float is that of the engine (SQLite).
pub mod Events
pub mod Summary
use Prim.Native.Nat.{Ordering}
use Prim.Native.String.{compare}
use api2agent.Common.{
  ℕ, ◌+◌, ◌-◌, String, Bool, true, false, not, ◌&&◌, ◌||◌, Option, none, some, List, [], ◌∷◌, ◌++◌,
  ◌==◌, opt_eq, length, take, select, find_first, any, map, lookup, insert, nat_eq, if◌then◌else◌,
}
use api2agent.Python.Number.{ℤ, pos, negsuc, Float, float_zero, sign_bit, is_nan}
use api2agent.Python.Sorting.{sort}
use api2agent.Capabilities.{RoutingDecision}
use api2agent.Control.{mode_str, UsageEvent, UsageSummary}

pub record UsageStore : Type 0 where
  pub usage_events : List UsageEvent
  pub routing_decisions : List RoutingDecision

abbrev pub empty_store : UsageStore
empty_store = record { usage_events = []; routing_decisions = [] }

-- A column of the type REAL keeps no NaN, and no sign of a zero.
abbrev pub unsigned : Float → Float
unsigned x = if nat_eq x sign_bit then float_zero else x

abbrev pub real : Option Float → Option Float
real none = none
real (some x) = if is_nan x then none else some (unsigned x)

-- The event as its row gives it back.
unfoldable pub stored_form : UsageEvent → UsageEvent
stored_form e = record e {
  latency_ms = unsigned e.latency_ms;
  latency_total_ms = real e.latency_total_ms;
  latency_network_ms = real e.latency_network_ms;
  latency_provider_ms = real e.latency_provider_ms;
  latency_overhead_ms = real e.latency_overhead_ms;
  estimated_cost = unsigned e.estimated_cost;
}

-- A NaN is NULL in the two columns that are `NOT NULL`.
abbrev pub is_null : UsageEvent → Bool
is_null e = is_nan e.latency_ms || is_nan e.estimated_cost

-- `INSERT` into a table whose `id` is the primary key; `none` is the engine's integrity error.
unfoldable pub record_event : UsageEvent → UsageStore → Option UsageStore
unfolding stored_form
record_event event s =
    if any (λ e. e.id == event.id) s.usage_events || is_null event
    then none
    else some (record s { usage_events = s.usage_events ++ stored_form event ∷ [] })

unfoldable pub get_usage_event : String → UsageStore → Option UsageEvent
get_usage_event event_id s = find_first (λ e. e.id == event_id) s.usage_events

unfoldable pub set_golden : String → Bool → UsageEvent → UsageEvent
set_golden event_id golden e = if e.id == event_id then record e { is_golden = golden } else e

unfoldable pub mark_golden : String → Bool → UsageStore → Option UsageEvent × UsageStore
unfolding set_golden get_usage_event
mark_golden event_id golden s =
    let s' : UsageStore = record s {
      usage_events = map (set_golden event_id golden) s.usage_events;
    } in
    (get_usage_event event_id s', s')

unfoldable pub str_lt : String → String → Bool
str_lt s t = elim (compare s t) [ Ordering.lt ↦ true | _ ↦ false ]

-- `column = ?`, left out where the parameter is missing or empty
unfoldable pub clause : Option String → String → Bool
clause none column = true
clause (some s) column = if s == "" then true else column == s

abbrev limited {ℓ} : {A : Type ℓ} → ℤ → List A → List A
limited (pos n) rows = take n rows
limited (negsuc n) rows = rows

-- The arguments of `list_usage_events` and `ledger`.
pub record EventFilter : Type 0 where
  pub project_id : Option String
  pub capability_id : Option String
  pub provider_id : Option String
  pub golden_only : Bool

unfoldable pub passes : EventFilter → UsageEvent → Bool
unfolding clause
passes f e =
    clause f.project_id e.project_id
    && clause f.capability_id e.capability_id
    && clause f.provider_id e.provider_id
    && (not f.golden_only || e.is_golden)

unfoldable pub list_usage_events : EventFilter → Option String → ℤ → UsageStore → List UsageEvent
unfolding passes str_lt
list_usage_events f execution_mode limit s = limited limit (
    sort (λ a b. str_lt b.created_at a.created_at)
      (select (λ e. passes f e && clause execution_mode (mode_str e.execution_mode))
        s.usage_events))

-- `INSERT OR REPLACE`: a row of the same `id` goes, and the new one is the last.
unfoldable pub record_routing_decision : RoutingDecision → UsageStore → UsageStore
record_routing_decision d s = record s {
  routing_decisions = select (λ r. not (r.id == d.id)) s.routing_decisions ++ d ∷ [];
}

unfoldable pub get_routing_decision : String → UsageStore → Option RoutingDecision
get_routing_decision decision_id s = find_first (λ r. r.id == decision_id) s.routing_decisions

unfoldable pub usage_for_routing_decision : String → UsageStore → List UsageEvent
unfolding str_lt
usage_for_routing_decision decision_id s =
    sort (λ a b. str_lt a.created_at b.created_at)
      (select (λ e. opt_eq e.routing_decision_id (some decision_id)) s.usage_events)

-- `WHERE project_id = ?`, for a project that is given
abbrev pub of_project : Option String → UsageEvent → Bool
of_project project_id e = clause project_id e.project_id

unfoldable pub count : Option String → UsageStore → ℕ
count project_id s = length (select (of_project project_id) s.usage_events)

abbrev pub succeeded : UsageEvent → Bool
succeeded e = e.success

unfoldable pub count_error : List (String × ℕ) → Option String → List (String × ℕ)
count_error counts none = counts
count_error counts (some t) =
    if t == ""
    then counts
    else insert t (elim (lookup t counts) [ none ↦ 1 | some n ↦ n + 1 ]) counts

-- `error_counts`, from what the rows before have given
unfoldable pub count_errors : List (String × ℕ) → List UsageEvent → List (String × ℕ)
unfolding count_error insert lookup
count_errors counts [] = counts
count_errors counts (e ∷ es) = count_errors (count_error counts e.error_type) es

-- Python's `sum` and `/` with counts, and the engine's `SUM` and `AVG` of a column of floats.
pub record Sums : Type 0 where
  pub sum : List Float → Float
  pub divide : Float → ℕ → Float
  pub ratio : ℕ → ℕ → Float
  pub sql_sum : List Float → Float
  pub sql_average : List Float → Float

module _ (sums : Sums) where
  unfoldable pub summarize : Option String → UsageStore → UsageSummary
  unfolding count_errors
  summarize project_id s =
      let rows = select (of_project project_id) s.usage_events in
      let total = length rows in
      let successful = length (select succeeded rows) in
      record {
        project_id = project_id;
        total_calls = total;
        successful_calls = successful;
        failed_calls = total - successful;
        success_rate = if nat_eq total 0 then float_zero else sums.ratio successful total;
        average_latency_ms =
            if nat_eq total 0
            then float_zero
            else sums.divide (sums.sum (map (λ e. e.latency_ms) rows)) total;
        estimated_cost = sums.sum (map (λ e. e.estimated_cost) rows);
        error_counts = count_errors [] rows;
      }
