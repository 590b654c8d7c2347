-- ===== src/Examples/Capabilities.antt =====
-- Runs of the routing, the failover, the normalization and the registry.
use mathlib.Core.List.{Perm}
use mathlib.Core.List.Perm
use api2agent.Common.{
  ℕ, ◌≤◌, ◌≡◌, String, true, false, Option, none, some, List, [], ◌∷◌, refl, All, In, inl, inr, max,
  length, if◌then◌else◌, lookup,
}
use api2agent.Python.Number.{ℤ, pos, float_zero, float_one, Arith}
use api2agent.Python.Value.{Value, Object, text, int, object, null}
use api2agent.Capabilities.{
  ProviderCandidate, RoutingPolicy, global, regional, lowest_cost, highest_success_rate,
  region_aware_latency, default_policy,
}
use api2agent.Python.Number.{float_lt}
use api2agent.Python.Sorting.{sort}
use api2agent.Python.Sorting.Laws.{IsFirstLeast}
use api2agent.Capabilities.Naming.{is_alpha_capability_id}
use api2agent.Capabilities.Routing.{rank_by, pair_lt, region_aware_latency_key}
use api2agent.Capabilities.Failover.{build_failover_policy, build_failover_policy_bounds}
use api2agent.Capabilities.Normalization.{
  found, normalized, normalize_output, extract_json_path, normalize_output-HasMapped, HasMapped,
}
use api2agent.Capabilities.Registry.{
  RegistryWarning, provider_package_warnings, capability_naming_warnings, naming_warning,
}
use api2agent.Capabilities.Registry.Packages.{provider_package_warnings-Runnable, Runnable}
use api2agent.Capabilities.Registry.Names.{capability_naming_warnings-Warned, Warned}
use api2agent.Capabilities.Routing.{
  region_aware_latency_key, rank_providers, select_provider, select_provider_region, by_provider,
  cost, success_rate, region_listed,
}
use api2agent.Capabilities.Routing.Best.{
  rank_providers-perm, select_provider-least, select_provider-greatest, upward, downward,
}
use api2agent.Capabilities.Routing.Region.{
  select_provider-local, select_provider_region-Serves, Serves, KnownLatency,
}

abbrev pub near : ProviderCandidate
near = record {
  id = "github.issues";
  capability_id = "work.issue.list";
  provider_id = "github";
  tool_id = "list_issues";
  estimated_cost = float_one;
  regions = "cn" ∷ [];
  geo_affinity = regional;
  output_mapping = [];
  metadata = ("package_dir", text "packages/github") ∷ [];
}

abbrev pub far : ProviderCandidate
far = record near {
  id = "gitlab.issues";
  provider_id = "gitlab";
  estimated_cost = float_zero;
  regions = "us" ∷ [];
  geo_affinity = global;
}

abbrev pub both : List ProviderCandidate
both = near ∷ far ∷ []

abbrev pub no_arithmetic : Arith
no_arithmetic = record {
  add = λ x y. x;
  sub = λ x y. x;
  mul = λ x y. x;
  div = λ x y. x;
  of_nat = λ n. n;
}

abbrev pub unshuffled : List ProviderCandidate → List ProviderCandidate
unshuffled cs = cs

abbrev cheapest : RoutingPolicy
cheapest = record default_policy { strategy = lowest_cost }

abbrev likeliest : RoutingPolicy
likeliest = record default_policy { strategy = highest_success_rate }

abbrev nearest : RoutingPolicy
nearest = record default_policy { strategy = region_aware_latency; client_region = some "us" }

abbrev no_repr : Value → String
no_repr v = ""

abbrev failed : Object
failed =
    ("ok", null)
    ∷ ("status_code", int (pos 503))
    ∷ ("error", object (("type", text "http_status") ∷ []))
    ∷ []

abbrev no_bound : Option ℤ
no_bound = none

build_failover_policy_bounds_example :
    (n : ℕ) × ((build_failover_policy true 2 no_bound none).max_attempts ≡ pos n)
    × (1 ≤ n)
    × (n ≤ max 2 1)
    × (no_bound ≡ none → n ≡ (if true then max 2 1 else 1))
build_failover_policy_bounds_example = build_failover_policy_bounds true 2 no_bound none

abbrev titled : List (String × String)
titled = ("name", "$.title") ∷ []

abbrev issue_body : Value
issue_body = object (("title", text "bug") ∷ [])

normalize_output-HasMapped_example :
    ((d : Object)
      → normalize_output issue_body titled ≡ normalized d
      → (name : String) → HasMapped issue_body titled [] d name)
    × (All (λ (_, e). (v : Value) × (extract_json_path issue_body e ≡ found v)) titled
        → (d : Object) × (normalize_output issue_body titled ≡ normalized d))
    × ((d : Object) → normalize_output (object d) [] ≡ normalized d)
    × ((t : String) → normalize_output (text t) [] ≡ normalized (("value", text t) ∷ []))
unfolding lookup
normalize_output-HasMapped_example =
    normalize_output-HasMapped issue_body ("name", "$.title") [] (refl, tt)

provider_package_warnings-Runnable_example :
    let warnings = provider_package_warnings no_repr (λ d. d) (λ p. true) both in
    (warnings ≡ [] → All (Runnable no_repr (λ d. d) (λ p. true)) both)
    × (All (Runnable no_repr (λ d. d) (λ p. true)) both → warnings ≡ [])
    × (length warnings ≤ length both)
provider_package_warnings-Runnable_example =
    provider_package_warnings-Runnable no_repr (λ d. d) (λ p. true) both

capability_naming_warnings-Warned_example :
    ((w : RegistryWarning) → In w (capability_naming_warnings both) → Warned both w)
    × ((p : ProviderCandidate)
        → In p both
        → is_alpha_capability_id p.capability_id ≡ false
        → In (naming_warning p) (capability_naming_warnings both))
capability_naming_warnings-Warned_example = capability_naming_warnings-Warned both

rank_providers-perm_example :
    Perm (rank_providers no_arithmetic unshuffled both [] (some cheapest)) both
rank_providers-perm_example =
    rank_providers-perm no_arithmetic unshuffled (λ cs. Perm.refl cs) both [] (some cheapest)

select_provider-least_example : IsFirstLeast (upward (cost (by_provider [] []))) far both
unfolding select_provider rank_providers rank_by sort cost success_rate float_lt by_provider
select_provider-least_example =
    select_provider-least no_arithmetic unshuffled [] cheapest both far (cost (by_provider [] []))
      refl (refl, (refl, tt)) refl

select_provider-greatest_example :
    IsFirstLeast (downward (success_rate (by_provider [] []))) near both
unfolding select_provider rank_providers rank_by sort cost success_rate float_lt by_provider
select_provider-greatest_example =
    select_provider-greatest no_arithmetic unshuffled [] likeliest both near
      (success_rate (by_provider [] [])) refl (refl, (refl, tt)) refl

known_latencies : All (KnownLatency [] (some "us")) both
unfolding region_aware_latency_key
known_latencies = (refl, (refl, tt))

select_provider-local_example : region_listed far (some "us") ≡ true
unfolding select_provider rank_providers rank_by sort pair_lt region_aware_latency_key
select_provider-local_example =
    select_provider-local no_arithmetic unshuffled [] nearest both far far refl refl known_latencies
      refl (inr (inl refl)) refl

select_provider_region-Serves_example :
    ((r : String)
      → select_provider_region far (some "us") ≡ some r
      → Serves far.regions far.geo_affinity r)
    × (select_provider_region far (some "us") ≡ none → far.regions ≡ [])
select_provider_region-Serves_example = select_provider_region-Serves far (some "us")
