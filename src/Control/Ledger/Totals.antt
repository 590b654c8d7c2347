-- ===== src/Control/Ledger/Totals.antt =====
-- The ledger accounts for every event once: its rows add up to the events that it covers.
use api2agent.Common.{
  ◌+◌, String, Bool, true, ◌&&◌, Option, none, some, List, [], ◌∷◌, ◌≡◌, refl, ap, ◌∙◌, arith,
  eq_iff, eq_refl, length, select, map, All, length-select-le,
}
use api2agent.Common.Groups.{distinct, total, IsEquality, total-distinct, total-distinct-select}
use api2agent.Python.Sorting.{sort}
use api2agent.Python.Sorting.Laws.{total-sort}
use api2agent.Control.{ExecutionMode, direct, proxy, shadow, replay, UsageEvent, UsageLedgerRow}
use api2agent.Control.Storage.{UsageStore, Sums, EventFilter, passes, succeeded}
use api2agent.Control.Ledger.{
  LedgerKey, mode_eq, opt_mode_eq, key_eq, key_lt, key_of, in_month, ledger_rows, ledger,
}

mode_eq_sound : (m n : ExecutionMode) → mode_eq m n ≡ true → m ≡ n
mode_eq_sound direct direct h = refl
mode_eq_sound proxy proxy h = refl
mode_eq_sound shadow shadow h = refl
mode_eq_sound replay replay h = refl
mode_eq_sound _ _ h = cc

mode_eq_refl : (m : ExecutionMode) → mode_eq m m ≡ true
mode_eq_refl direct = refl
mode_eq_refl proxy = refl
mode_eq_refl shadow = refl
mode_eq_refl replay = refl

opt_mode_eq_sound : (m n : Option ExecutionMode) → opt_mode_eq m n ≡ true → m ≡ n
opt_mode_eq_sound none none h = refl
opt_mode_eq_sound (some m) (some n) h = ap some (mode_eq_sound m n h)
opt_mode_eq_sound none (some n) h = cc
opt_mode_eq_sound (some m) none h = cc

opt_mode_eq_refl : (m : Option ExecutionMode) → opt_mode_eq m m ≡ true
opt_mode_eq_refl none = refl
opt_mode_eq_refl (some m) = mode_eq_refl m

key_eq-IsEquality : IsEquality key_eq
unfolding key_eq
key_eq-IsEquality = record {
  sound = λ a b h. ground (
    arith,
    eq_iff a.project_id b.project_id,
    eq_iff a.capability_id b.capability_id,
    eq_iff a.provider_id b.provider_id,
    opt_mode_eq_sound a.execution_mode b.execution_mode,
  );
  complete = λ a.
      rw (eq_refl a.project_id, eq_refl a.capability_id, eq_refl a.provider_id)
        (opt_mode_eq_refl a.execution_mode);
}

-- The rows of a ledger that belong to a key.
abbrev group : Bool → List UsageEvent → LedgerKey → List UsageEvent
group mode rows k = select (λ e. key_eq (key_of mode e) k) rows

total_calls-ledger_rows :
    (sums : Sums) (mode : Bool) (ks : List LedgerKey) (rows : List UsageEvent)
    → total (λ (r : UsageLedgerRow). r.total_calls) (ledger_rows sums mode ks rows)
      ≡ total (λ k. length (group mode rows k)) ks
unfolding ledger_rows total
total_calls-ledger_rows sums mode [] rows = refl
total_calls-ledger_rows sums mode (k ∷ ks) rows =
    omega (arith, total_calls-ledger_rows sums mode ks rows)

successful_calls-ledger_rows :
    (sums : Sums) (mode : Bool) (ks : List LedgerKey) (rows : List UsageEvent)
    → total (λ (r : UsageLedgerRow). r.successful_calls) (ledger_rows sums mode ks rows)
      ≡ total (λ k. length (select succeeded (group mode rows k))) ks
unfolding ledger_rows total
successful_calls-ledger_rows sums mode [] rows = refl
successful_calls-ledger_rows sums mode (k ∷ ks) rows =
    omega (arith, successful_calls-ledger_rows sums mode ks rows)

-- The numbers of a row agree with one another.
abbrev pub Balanced : UsageLedgerRow → Type 0
Balanced r = r.successful_calls + r.failed_calls ≡ r.total_calls

ledger_rows-Balanced :
    (sums : Sums) (mode : Bool) (ks : List LedgerKey) (rows : List UsageEvent)
    → All Balanced (ledger_rows sums mode ks rows)
unfolding ledger_rows
ledger_rows-Balanced sums mode [] rows = tt
ledger_rows-Balanced sums mode (k ∷ ks) rows = (
  omega (arith, length-select-le succeeded (group mode rows k)),
  ledger_rows-Balanced sums mode ks rows,
)

-- Whatever the filter and the grouping, the calls of the ledger's rows add up to the number of
-- events that pass the filter, their successful calls to the number of those that succeeded, and
-- in each row the successful and the failed calls make up its calls.
pub total-ledger :
    (sums : Sums) (f : EventFilter) (month : Option String) (mode : Bool) (s : UsageStore)
    → let covered = select (λ e. passes f e && in_month month e) s.usage_events in
      let rows = ledger sums f month mode s in
      (total (λ (r : UsageLedgerRow). r.total_calls) rows ≡ length covered)
      × (total (λ (r : UsageLedgerRow). r.successful_calls) rows
          ≡ length (select succeeded covered))
      × All Balanced rows
unfolding ledger
total-ledger sums f month mode s =
    let covered = select (λ e. passes f e && in_month month e) s.usage_events in
    let ks = distinct key_eq (map (key_of mode) covered) in
    (
      total_calls-ledger_rows sums mode (sort key_lt ks) covered
          ∙ total-sort key_lt (λ k. length (group mode covered k)) ks
          ∙ total-distinct key_eq key_eq-IsEquality (key_of mode) covered,
      successful_calls-ledger_rows sums mode (sort key_lt ks) covered
          ∙ total-sort key_lt (λ k. length (select succeeded (group mode covered k))) ks
          ∙ total-distinct-select key_eq key_eq-IsEquality (key_of mode) succeeded covered,
      ledger_rows-Balanced sums mode (sort key_lt ks) covered,
    )
