-- ===== src/Capabilities/Execution/Run.antt =====
-- `execute_capability` of api2agent/capabilities/execution.py: the decision, its attempts and the
-- shadow attempts. The dict that it returns is a `CapabilityResult`.
pub mod Sound
pub mod Keeps
pub mod Results
use api2agent.Common.{
  ℕ, ◌+◌, String, Bool, true, false, not, Option, none, some, List, [], ◌∷◌, ◌==◌, select, map,
  length, is_some, if◌then◌else◌,
}
use api2agent.Python.Number.{Float, Arith}
use api2agent.Python.Time.{DateTime}
use api2agent.Python.Value.{Object}
use api2agent.Capabilities.{
  ProviderCandidate, RoutingDecision, RoutingPolicy, FailoverPolicy, MetricsSnapshot, strategy_str,
}
use api2agent.Capabilities.Failover.{build_failover_policy, slice_to}
use api2agent.Capabilities.Routing.{rank_providers, select_provider, select_provider_region}
use api2agent.Capabilities.Execution.{Runtime}
use api2agent.Capabilities.Execution.Attempts.{Draw, World, Attempt, Attempts, Final, run_attempts}
use api2agent.Capabilities.Execution.Shadow.{ShadowAttempt, Shadowing, run_shadow_attempts}
use api2agent.Control.Storage.{UsageStore, Sums, record_routing_decision}
use api2agent.Control.Metrics.{metrics_for_capability}

-- The arguments of a call.
pub record CapabilityCall : Type 0 where
  pub capability_id : String
  pub params : Object
  pub policy : Option RoutingPolicy
  pub preset : Option String
  pub proxy_url : Option String
  pub failover : Bool
  pub failover_policy : Option FailoverPolicy
  pub include_shadow_metrics : Bool
  pub shadow : Bool
  pub shadow_provider_ids : Option (List String)

-- What a call draws.
pub record CallDraws : Type 0 where
  pub decision_id : String
  pub created_at : DateTime
  pub attempt : ℕ → Draw
  pub shadow_attempt : ℕ → Draw

-- The libraries that routing and the store use.
pub record Numerics : Type 0 where
  pub arithmetic : Arith
  pub sums : Sums
  pub shuffle : List ProviderCandidate → List ProviderCandidate

pub data CapabilityResult : Type 0 where
  no_provider : RoutingDecision → CapabilityResult
  all_providers_failed : RoutingDecision → List Attempt → List ShadowAttempt → CapabilityResult
  normalized_result : RoutingDecision → List Attempt → Final → List ShadowAttempt → CapabilityResult

abbrev pub region_of : Option RoutingPolicy → Option String
region_of none = none
region_of (some policy) = policy.client_region

abbrev pub strategy_of : Option RoutingPolicy → String
strategy_of none = "balanced"
strategy_of (some policy) = strategy_str policy.strategy

-- `failover_policy or build_failover_policy(...)`
unfoldable pub effective_policy : CapabilityCall → ℕ → FailoverPolicy
effective_policy call count = elim call.failover_policy [
  | some policy ↦ policy
  | none ↦ build_failover_policy call.failover count none none
]

-- The result, once the attempts and the shadow attempts are made.
abbrev pub result_of : RoutingDecision → Attempts → List ShadowAttempt → CapabilityResult
result_of decision out shadows = elim out.final [
  | some final ↦ normalized_result decision out.attempts final shadows
  | none ↦ all_providers_failed decision out.attempts shadows
]

abbrev pub of_capability : String → List ProviderCandidate → List ProviderCandidate
of_capability capability_id providers = select (λ p. p.capability_id == capability_id) providers

-- `attempts`
unfoldable pub to_attempt :
    FailoverPolicy → ProviderCandidate → List ProviderCandidate → List ProviderCandidate
to_attempt policy selected ranked =
    if policy.enabled then slice_to policy.max_attempts ranked else selected ∷ []

module _ (n : Numerics) (rt : Runtime) (draws : CallDraws) where
  unfoldable pub capability_metrics : CapabilityCall → UsageStore → List MetricsSnapshot
  capability_metrics call s =
      metrics_for_capability n.sums call.capability_id call.include_shadow_metrics false
        (region_of call.policy) s

  unfoldable pub ranked_for :
      CapabilityCall → List ProviderCandidate → UsageStore → List ProviderCandidate
  unfolding capability_metrics
  ranked_for call providers s =
      rank_providers n.arithmetic n.shuffle (of_capability call.capability_id providers)
        (capability_metrics call s) call.policy

  unfoldable pub selected_for :
      CapabilityCall → List ProviderCandidate → UsageStore → Option ProviderCandidate
  unfolding capability_metrics
  selected_for call providers s =
      select_provider n.arithmetic n.shuffle (of_capability call.capability_id providers)
        (capability_metrics call s) call.policy

  unfoldable pub routing_decision :
      CapabilityCall → List ProviderCandidate → UsageStore → RoutingDecision
  unfolding ranked_for selected_for effective_policy
  routing_decision call providers s =
      let selected = selected_for call providers s in
      let ranked = ranked_for call providers s in
      record {
        id = draws.decision_id;
        project_id = "local";
        capability_id = call.capability_id;
        strategy = strategy_of call.policy;
        preset = call.preset;
        client_region = region_of call.policy;
        selected_provider_id = elim selected [ none ↦ none | some p ↦ some p.provider_id ];
        selected_provider_region = elim selected [
          | none ↦ none
          | some p ↦ select_provider_region p (region_of call.policy)
        ];
        ranked_provider_ids = map (λ p. p.provider_id) ranked;
        metrics = capability_metrics call s;
        failover_policy = some (effective_policy call (length ranked));
        created_at = draws.created_at;
      }

  -- The shadow attempts after the attempts, and the result.
  unfoldable pub with_shadows :
      CapabilityCall
      → List ProviderCandidate
      → RoutingDecision
      → Attempts
      → Option (CapabilityResult × World)
  with_shadows call providers decision out =
      elim (run_shadow_attempts rt decision call.params draws.shadow_attempt providers
        call.proxy_url (map (λ a. a.provider_id) out.attempts) decision.ranked_provider_ids
        call.shadow call.shadow_provider_ids out.world) [
          | none ↦ none
          | some shadowing ↦
              some (result_of decision out shadowing.shadow_attempts, shadowing.world)
        ]

  unfoldable pub execute_selected :
      CapabilityCall
      → List ProviderCandidate
      → RoutingDecision
      → FailoverPolicy
      → List ProviderCandidate
      → World
      → Option ProviderCandidate
      → Option (CapabilityResult × World)
  unfolding with_shadows to_attempt
  execute_selected call providers decision policy ranked w none = some (no_provider decision, w)
  execute_selected call providers decision policy ranked w (some selected) =
      elim (run_attempts rt decision policy call.params call.proxy_url draws.attempt
        (to_attempt policy selected ranked) 0 w) [
          | none ↦ none
          | some out ↦ with_shadows call providers decision out
        ]

  -- `none` is an exception.
  unfoldable pub execute_capability :
      CapabilityCall → List ProviderCandidate → World → Option (CapabilityResult × World)
  unfolding execute_selected routing_decision record_routing_decision
  execute_capability call providers w =
      let decision = routing_decision call providers w.store in
      let ranked = ranked_for call providers w.store in
      execute_selected call providers decision (effective_policy call (length ranked)) ranked
        (record w { store = record_routing_decision decision w.store })
        (selected_for call providers w.store)
