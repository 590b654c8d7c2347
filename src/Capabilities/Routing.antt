-- ===== src/Capabilities/Routing.antt =====
-- api2agent/capabilities/routing.py. The shuffle of `Random(0)` and the rounding operations of
-- floats are parameters; comparisons of floats are those of Python/Number.
pub mod Best
pub mod Region
use api2agent.Common.{
  ℕ, ◌+◌, String, Bool, true, false, not, ◌&&◌, ◌||◌, Option, none, some, List, [], ◌∷◌, ◌==◌,
  opt_eq, given, contains, has_text, head?, select, map, lookup, insert, ltb, nat_eq, is_some,
  if◌then◌else◌,
}
use api2agent.Python.Number.{Float, float_zero, float_one, infinity, float_lt, float_eq, Arith}
use api2agent.Python.Sorting.{sort, min_of, max_of}
use api2agent.Capabilities.{
  ProviderCandidate, MetricsSnapshot, RoutingPolicy, default_policy, GeoAffinity, global, cn_only,
  unknown, regional, Strategy, first, random, lowest_cost, lowest_latency, region_aware_latency,
  highest_success_rate, balanced, half, three_tenths, two_tenths,
}

-- `{item.provider_id: item for item in metrics}`: the last one of a provider stays.
unfoldable pub by_provider :
    List (String × MetricsSnapshot) → List MetricsSnapshot → List (String × MetricsSnapshot)
unfolding insert
by_provider acc [] = acc
by_provider acc (m ∷ ms) = by_provider (insert m.provider_id m acc) ms

abbrev pub Metrics : Type 0
Metrics = List (String × MetricsSnapshot)

unfoldable pub success_rate : Metrics → ProviderCandidate → Float
unfolding lookup
success_rate metrics c = elim (lookup c.provider_id metrics) [
  | none ↦ float_zero
  | some snapshot ↦ snapshot.success_rate
]

-- A snapshot that has calls.
abbrev pub called : MetricsSnapshot → Bool
called m = not (nat_eq m.total_calls 0)

unfoldable pub latency : Metrics → ProviderCandidate → Float
unfolding lookup
latency metrics c = elim (lookup c.provider_id metrics) [
  | none ↦ infinity
  | some snapshot ↦ if called snapshot then snapshot.average_latency_ms else infinity
]

unfoldable pub cost : Metrics → ProviderCandidate → Float
unfolding lookup
cost metrics c = elim (lookup c.provider_id metrics) [
  | none ↦ c.estimated_cost
  | some snapshot ↦ if called snapshot then snapshot.estimated_cost_per_call else c.estimated_cost
]

affinity_rank : GeoAffinity → ℕ
affinity_rank global = 1
affinity_rank unknown = 2
affinity_rank _ = 3

abbrev pub region_listed : ProviderCandidate → Option String → Bool
region_listed c none = false
region_listed c (some region) = contains c.regions region

unfoldable pub region_rank : ProviderCandidate → Option String → ℕ
unfolding affinity_rank
region_rank c client_region =
    if not (given client_region)
    then 0
    else if region_listed c client_region
    then 0
    else affinity_rank c.geo_affinity

least_latency : List MetricsSnapshot → Float
least_latency [] = infinity
least_latency (m ∷ ms) =
    min_of float_lt m.average_latency_ms (map (λ (k : MetricsSnapshot). k.average_latency_ms) ms)

-- The snapshots of a provider that have calls, and of those the ones of the client's region.
abbrev pub provider_metrics : List MetricsSnapshot → ProviderCandidate → List MetricsSnapshot
provider_metrics metrics c = select (λ m. (m.provider_id == c.provider_id) && called m) metrics

abbrev pub matching_metrics :
    List MetricsSnapshot → ProviderCandidate → Option String → List MetricsSnapshot
matching_metrics metrics c client_region =
    select
      (λ m.
        (m.provider_id == c.provider_id)
        && called m
        && (not (is_some client_region) || opt_eq m.client_region client_region))
      metrics

unfoldable pub region_aware_latency_key :
    List MetricsSnapshot → Option String → ProviderCandidate → ℕ × Float
unfolding least_latency region_rank min_of
region_aware_latency_key metrics client_region c = elim (matching_metrics metrics c client_region) [
  | m ∷ ms ↦ (region_rank c client_region, least_latency (m ∷ ms))
  | [] ↦ (region_rank c client_region, least_latency (provider_metrics metrics c))
]

-- `a < b` of such pairs
unfoldable pub pair_lt : ℕ × Float → ℕ × Float → Bool
pair_lt (r, x) (s, y) = if nat_eq r s then float_lt x y else ltb r s

abbrev weight : List (String × Float) → String → Float → Float
weight weights name default = elim (lookup name weights) [ none ↦ default | some w ↦ w ]

module _ (arithmetic : Arith) where
  unfoldable pub normalized_inverse : Float → List Float → Float
  unfolding min_of max_of
  normalized_inverse value values = elim (select (λ x. not (float_eq x infinity)) values) [
    | [] ↦ float_zero
    | x ∷ xs ↦
        let minimum = min_of float_lt x xs in
        let maximum = max_of float_lt x xs in
        if float_eq value infinity
        then float_zero
        else if float_eq minimum maximum
        then float_one
        else arithmetic.sub float_one
            (arithmetic.div (arithmetic.sub value minimum) (arithmetic.sub maximum minimum))
  ]

  unfoldable pub balanced_score :
      List ProviderCandidate → Metrics → RoutingPolicy → ProviderCandidate → Float
  unfolding normalized_inverse
  balanced_score candidates metrics policy c =
      let success_weight = weight policy.weights "success_rate" half in
      let latency_weight = weight policy.weights "latency" three_tenths in
      let cost_weight = weight policy.weights "cost" two_tenths in
      let latency_score =
        normalized_inverse (latency metrics c) (map (latency metrics) candidates) in
      let cost_score = normalized_inverse (cost metrics c) (map (cost metrics) candidates) in
      arithmetic.add
        (arithmetic.add (arithmetic.mul (success_rate metrics c) success_weight)
          (arithmetic.mul latency_score latency_weight))
        (arithmetic.mul cost_score cost_weight)

  module _ (shuffle : List ProviderCandidate → List ProviderCandidate) where
    -- `sorted(candidates, key=key)`, and with `reverse=True`
    abbrev ascending : (ProviderCandidate → Float) → List ProviderCandidate → List ProviderCandidate
    ascending key = sort (λ a b. float_lt (key a) (key b))

    abbrev descending :
        (ProviderCandidate → Float) → List ProviderCandidate → List ProviderCandidate
    descending key = sort (λ a b. float_lt (key b) (key a))

    unfoldable pub rank_by :
        Strategy
        → List ProviderCandidate
        → List MetricsSnapshot
        → RoutingPolicy
        → List ProviderCandidate
    rank_by first candidates metrics policy = candidates
    rank_by random candidates metrics policy = shuffle candidates
    rank_by lowest_cost candidates metrics policy =
        ascending (cost (by_provider [] metrics)) candidates
    rank_by lowest_latency candidates metrics policy =
        ascending (latency (by_provider [] metrics)) candidates
    rank_by region_aware_latency candidates metrics policy =
        sort
          (λ a b.
            pair_lt (region_aware_latency_key metrics policy.client_region a)
              (region_aware_latency_key metrics policy.client_region b))
          candidates
    rank_by highest_success_rate candidates metrics policy =
        descending (success_rate (by_provider [] metrics)) candidates
    rank_by balanced candidates metrics policy =
        descending (balanced_score candidates (by_provider [] metrics) policy) candidates

    abbrev policy_or_default : Option RoutingPolicy → RoutingPolicy
    policy_or_default none = default_policy
    policy_or_default (some policy) = policy

    unfoldable pub rank_providers :
        List ProviderCandidate
        → List MetricsSnapshot
        → Option RoutingPolicy
        → List ProviderCandidate
    rank_providers [] metrics policy = []
    rank_providers (c ∷ cs) metrics policy =
        rank_by (policy_or_default policy).strategy (c ∷ cs) metrics (policy_or_default policy)

    unfoldable pub select_provider :
        List ProviderCandidate
        → List MetricsSnapshot
        → Option RoutingPolicy
        → Option ProviderCandidate
    select_provider candidates metrics policy = head? (rank_providers candidates metrics policy)

unfoldable pub affinity_region : GeoAffinity → List String → Option String
affinity_region global regions = some "global"
affinity_region cn_only regions = some "cn"
affinity_region _ regions = head? regions

unfoldable pub select_provider_region : ProviderCandidate → Option String → Option String
unfolding affinity_region
select_provider_region c client_region =
    if given client_region && region_listed c client_region
    then client_region
    else if contains c.regions "global"
    then some "global"
    else affinity_region c.geo_affinity c.regions
