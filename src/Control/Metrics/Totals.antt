-- ===== src/Control/Metrics/Totals.antt =====
-- The metrics of a capability count its events once for each provider.
use api2agent.Common.{
  ℕ, ◌+◌, String, Bool, Option, none, some, List, [], ◌∷◌, ◌++◌, ◌==◌, ◌≡◌, refl, ◌∙◌, arith,
  eq_iff, eq_refl, length, select, map, All, opt_eq, length-select-le,
}
use api2agent.Common.Groups.{distinct, total, IsEquality, total-distinct}
use api2agent.Python.Sorting.{sort}
use api2agent.Python.Sorting.Laws.{total-sort}
use api2agent.Capabilities.{MetricsSnapshot}
use api2agent.Control.{UsageEvent}
use api2agent.Control.Storage.{UsageStore, Sums, succeeded, str_lt}
use api2agent.Control.Metrics.{group_keys, snapshots, counted, metrics_for_capability}

text_eq-IsEquality : IsEquality ◌==◌
text_eq-IsEquality = record { sound = λ a b h. (eq_iff a b).0 h; complete = eq_refl }

abbrev pub of_provider : List UsageEvent → String → List UsageEvent
of_provider rows p = select (λ e. e.provider_id == p) rows

abbrev calls : List MetricsSnapshot → ℕ
calls = total (λ m. m.total_calls)

module _ (sums : Sums) (capability_id : String) (region : Option String) where
  calls-snapshots_keys :
      (ks : List String) (rows : List UsageEvent)
      → calls (snapshots sums capability_id region ks rows)
        ≡ total (λ k. length (of_provider rows k)) ks
  unfolding snapshots total
  calls-snapshots_keys [] rows = refl
  calls-snapshots_keys (k ∷ ks) rows = omega (arith, calls-snapshots_keys ks rows)

  calls-snapshots :
      (rows : List UsageEvent)
      → calls (snapshots sums capability_id region (group_keys rows) rows) ≡ length rows
  unfolding group_keys
  calls-snapshots rows =
      let ks = distinct ◌==◌ (map (λ (e : UsageEvent). e.provider_id) rows) in
      calls-snapshots_keys (sort str_lt ks) rows
      ∙ total-sort str_lt (λ k. length (of_provider rows k)) ks
      ∙ total-distinct ◌==◌ text_eq-IsEquality (λ (e : UsageEvent). e.provider_id) rows

  -- A snapshot counts the provider's rows, and its parts add up.
  abbrev pub Counts : List UsageEvent → MetricsSnapshot → Type 0
  Counts rows m =
      (m.capability_id ≡ capability_id)
      × (m.client_region ≡ region)
      × (m.total_calls ≡ length (of_provider rows m.provider_id))
      × (m.successful_calls ≡ length (select succeeded (of_provider rows m.provider_id)))
      × (m.successful_calls + m.failed_calls ≡ m.total_calls)

  snapshots-Counts :
      (ks : List String) (rows : List UsageEvent)
      → All (Counts rows) (snapshots sums capability_id region ks rows)
  unfolding snapshots
  snapshots-Counts [] rows = tt
  snapshots-Counts (k ∷ ks) rows = (
    (refl, refl, refl, refl, omega (arith, length-select-le succeeded (of_provider rows k))),
    snapshots-Counts ks rows,
  )

abbrev pub in_region : String → UsageEvent → Bool
in_region region e = opt_eq e.client_region (some region)

-- Without a client region each snapshot is of no region and counts its provider's events among
-- those that count, and their numbers add up to all of them. With a region, snapshots are added
-- behind these: each is of the region and counts its provider's events in it, and their numbers add
-- up to all events of the region.
pub metrics_for_capability-Counts :
    (sums : Sums) (capability_id : String) (shadows replays : Bool) (s : UsageStore)
    → let rows = select (counted capability_id shadows replays) s.usage_events in
      let overall = metrics_for_capability sums capability_id shadows replays none s in
      All (Counts sums capability_id none rows) overall
      × (total (λ (m : MetricsSnapshot). m.total_calls) overall ≡ length rows)
      × ((region : String)
          → (local : List MetricsSnapshot) × (metrics_for_capability sums capability_id shadows
                replays
                (some region)
                s
              ≡ overall ++ local)
            × All (Counts sums capability_id (some region) (select (in_region region) rows)) local
            × (total (λ (m : MetricsSnapshot). m.total_calls) local
                ≡ length (select (in_region region) rows)))
unfolding metrics_for_capability
metrics_for_capability-Counts sums capability_id shadows replays s =
    let rows = select (counted capability_id shadows replays) s.usage_events in
    (
      snapshots-Counts sums capability_id none (group_keys rows) rows,
      calls-snapshots sums capability_id none rows,
      λ region.
          let local_rows = select (in_region region) rows in
          (
            snapshots sums capability_id (some region) (group_keys local_rows) local_rows,
            refl,
            snapshots-Counts sums capability_id (some region) (group_keys local_rows) local_rows,
            calls-snapshots sums capability_id (some region) local_rows,
          ),
    )
