-- ===== src/Control/Ledger.antt =====
-- `ledger` of api2agent/control/storage.py.
pub mod Totals
use api2agent.Common.{
  ℕ, suc, ◌+◌, ◌-◌, String, Bool, true, false, not, ◌&&◌, ◌||◌, Option, none, some, List, [], ◌∷◌,
  ◌==◌, length, select, find_first, any, map, erase, nat_eq, if◌then◌else◌,
}
use api2agent.Python.Number.{float_zero}
use api2agent.Python.Text.{take_chars}
use api2agent.Python.Sorting.{sort}
use api2agent.Control.{
  direct, proxy, shadow, replay, ExecutionMode, mode_str, UsageEvent, UsageLedgerRow,
}
use api2agent.Common.Groups.{distinct}
use api2agent.Control.Storage.{clause, UsageStore, Sums, EventFilter, passes, succeeded, str_lt}

-- A group's key: the mode only where the ledger is grouped by mode.
pub record LedgerKey : Type 0 where
  pub project_id : String
  pub capability_id : String
  pub provider_id : String
  pub execution_mode : Option ExecutionMode

abbrev mode_text : Option ExecutionMode → String
mode_text none = ""
mode_text (some m) = mode_str m

abbrev pub mode_eq : ExecutionMode → ExecutionMode → Bool
mode_eq direct direct = true
mode_eq proxy proxy = true
mode_eq shadow shadow = true
mode_eq replay replay = true
mode_eq _ _ = false

abbrev pub opt_mode_eq : Option ExecutionMode → Option ExecutionMode → Bool
opt_mode_eq none none = true
opt_mode_eq (some m) (some n) = mode_eq m n
opt_mode_eq _ _ = false

unfoldable pub key_eq : LedgerKey → LedgerKey → Bool
key_eq a b =
    (a.project_id == b.project_id)
    && (a.capability_id == b.capability_id)
    && (a.provider_id == b.provider_id)
    && opt_mode_eq a.execution_mode b.execution_mode

-- `a` before `b` in the first of the columns where they differ
unfoldable pub key_lt : LedgerKey → LedgerKey → Bool
unfolding str_lt
key_lt a b =
    if not (a.project_id == b.project_id)
    then str_lt a.project_id b.project_id
    else if not (a.capability_id == b.capability_id)
    then str_lt a.capability_id b.capability_id
    else if not (a.provider_id == b.provider_id)
    then str_lt a.provider_id b.provider_id
    else str_lt (mode_text a.execution_mode) (mode_text b.execution_mode)

unfoldable pub key_of : Bool → UsageEvent → LedgerKey
key_of group_by_mode e = record {
  project_id = e.project_id;
  capability_id = e.capability_id;
  provider_id = e.provider_id;
  execution_mode = if group_by_mode then some e.execution_mode else none;
}

-- `substr(created_at, 1, 7) = ?`
unfoldable pub in_month : Option String → UsageEvent → Bool
in_month month e = clause month (take_chars 7 e.created_at)

module _ (sums : Sums) where
  unfoldable pub ledger_row : LedgerKey → List UsageEvent → UsageLedgerRow
  ledger_row key rows =
      let total_calls = length rows in
      let successful_calls = length (select succeeded rows) in
      record {
        project_id = key.project_id;
        capability_id = key.capability_id;
        provider_id = key.provider_id;
        execution_mode = key.execution_mode;
        total_calls = total_calls;
        successful_calls = successful_calls;
        failed_calls = total_calls - successful_calls;
        success_rate =
            if nat_eq total_calls 0 then float_zero else sums.ratio successful_calls total_calls;
        average_latency_ms = sums.sql_average (map (λ e. e.latency_ms) rows);
        estimated_cost = sums.sql_sum (map (λ e. e.estimated_cost) rows);
      }

  unfoldable pub ledger_rows : Bool → List LedgerKey → List UsageEvent → List UsageLedgerRow
  unfolding ledger_row
  ledger_rows group_by_mode [] rows = []
  ledger_rows group_by_mode (k ∷ ks) rows =
      ledger_row k (select (λ e. key_eq (key_of group_by_mode e) k) rows)
      ∷ ledger_rows group_by_mode ks rows

  -- The rows of the ledger, in the order of their keys.
  unfoldable pub ledger : EventFilter → Option String → Bool → UsageStore → List UsageLedgerRow
  unfolding ledger_rows passes in_month distinct
  ledger f month group_by_mode s =
      let rows = select (λ e. passes f e && in_month month e) s.usage_events in
      ledger_rows group_by_mode (sort key_lt (distinct key_eq (map (key_of group_by_mode) rows)))
        rows
