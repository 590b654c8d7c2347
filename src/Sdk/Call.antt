-- ===== src/Sdk/Call.antt =====
-- `call` of api2agent/sdk.py, with the loops over its attempts and its shadow attempts.
use api2agent.Common.{
  ◌<>◌, ◌⊎◌, inl, inr, ℕ, ◌+◌, String, true, false, not, Option, none, some, List, [], ◌∷◌,
  contains, lookup, map, length, given, is_some, text_or, head?, if◌then◌else◌,
}
use api2agent.Python.Value.{object}
use api2agent.Capabilities.{
  strategy_str, default_policy, RoutingPolicy, RoutingDecision, FailoverPolicy,
}
use api2agent.Capabilities.Routing.{rank_providers}
use api2agent.Capabilities.Execution.Run.{Numerics}
use api2agent.Capabilities.Execution.Shadow.{selected_shadow_ids}
use api2agent.Adapters.{AdapterResult}
use api2agent.Control.{UsageEvent, ExecutionMode, direct, shadow}
use api2agent.Control.Metrics.{metrics_for_capability}
use api2agent.Control.Storage.{UsageStore, record_event, record_routing_decision}
use api2agent.Sdk.{
  Adapter, CallArguments, Stamps, SdkAttempt, Attempted, Outcome, policy_strategy,
  adapters_for_capability, candidate, build_sdk_failover_policy, should_failover_adapter_result,
  attempted_ids, invalid, no_attempts, raised, answered,
}

module _ (n : Numerics) (stamps : Stamps) (a : CallArguments) where
  -- `_rank_provider_ids`; `none` is the `ValueError`.
  unfoldable pub rank_provider_ids :
      List (String × Adapter) → Option String → UsageStore → Option (List String × String)
  unfolding metrics_for_capability lookup
  rank_provider_ids adapters provider_id s =
      let strategy = policy_strategy a.strategy in
      let metrics =
        metrics_for_capability n.sums a.capability a.include_shadow_metrics false none s in
      let policy : RoutingPolicy = record default_policy { strategy = strategy } in
      if given provider_id
      then (if is_some (lookup (text_or provider_id "") adapters)
          then some (text_or provider_id "" ∷ [], "provider_id")
          else none)
      else some (
        map (λ c. c.provider_id)
            (rank_providers n.arithmetic n.shuffle (map (candidate a.capability) adapters) metrics
              (some policy)),
        strategy_str strategy,
      )

  unfoldable pub sdk_decision : List String → String → FailoverPolicy → UsageStore → RoutingDecision
  unfolding metrics_for_capability
  sdk_decision ranked strategy policy s = record {
    id = stamps.decision_id;
    project_id = a.project_id;
    capability_id = a.capability;
    strategy = strategy;
    preset = some "sdk_core_loop_v0";
    client_region = none;
    selected_provider_id = head? ranked;
    selected_provider_region = none;
    ranked_provider_ids = ranked;
    metrics = metrics_for_capability n.sums a.capability a.include_shadow_metrics false none s;
    failover_policy = some policy;
    created_at = stamps.created_at;
  }

  -- The event of `_record_usage`.
  unfoldable pub usage_of :
      RoutingDecision → Adapter → AdapterResult → ExecutionMode → String × String → UsageEvent
  usage_of decision adapter result mode (id, created_at) = record {
    id = id;
    routing_decision_id = some decision.id;
    execution_mode = mode;
    project_id = decision.project_id;
    capability_id = decision.capability_id;
    provider_id = adapter.provider_id;
    tool_id = adapter.tool_id;
    method = "GET";
    path = decision.capability_id;
    status_code = result.status_code;
    success = result.ok;
    latency_ms = result.latency_ms;
    client_region = none;
    api2agent_region = none;
    provider_region = none;
    latency_total_ms = none;
    latency_network_ms = none;
    latency_provider_ms = none;
    latency_overhead_ms = none;
    estimated_cost = result.cost.estimated_cost;
    error_type = result.error_type;
    request_metadata = some (("input", object a.input) ∷ []);
    credential_reference = none;
    provider_runtime_reference = some ("sdk:" <> adapter.class_name);
    is_golden = false;
    created_at = created_at;
  }

  -- One call of an adapter with its event; `none` is an exception.
  unfoldable pub run_adapter :
      RoutingDecision
      → ExecutionMode
      → String × String
      → Adapter
      → UsageStore
      → Option (SdkAttempt × UsageStore)
  unfolding usage_of
  run_adapter decision mode stamp adapter s = elim (adapter.call a.input) [
    | none ↦ none
    | some result ↦ elim (record_event (usage_of decision adapter result mode stamp) s) [
      | none ↦ none
      | some s' ↦ some (
        record { provider_id = adapter.provider_id; usage_event_id = stamp.0; result = result },
        s',
      )
    ]
  ]

  abbrev pub stop : SdkAttempt → UsageStore → Attempted
  stop attempt s = record { attempts = attempt ∷ []; last = some attempt; store = s }

  abbrev pub then_attempted : SdkAttempt → Option Attempted → Option Attempted
  then_attempted attempt none = none
  then_attempted attempt (some rest) = some (record rest { attempts = attempt ∷ rest.attempts })

  -- The loop's `break`, or what the attempts after come to.
  unfoldable pub after_adapter :
      FailoverPolicy → List String → SdkAttempt → UsageStore → Option Attempted → Option Attempted
  unfolding should_failover_adapter_result
  after_adapter policy [] attempt s rest = some (stop attempt s)
  after_adapter policy (id ∷ ids) attempt s rest =
      if attempt.result.ok
      then some (stop attempt s)
      else if not (should_failover_adapter_result attempt.result policy)
      then some (stop attempt s)
      else then_attempted attempt rest

  unfoldable pub attempt_all :
      RoutingDecision
      → FailoverPolicy
      → List (String × Adapter)
      → List String
      → ℕ
      → UsageStore
      → Option Attempted
  unfolding run_adapter after_adapter lookup
  attempt_all decision policy adapters [] index s =
      some (record { attempts = []; last = none; store = s })
  attempt_all decision policy adapters (id ∷ ids) index s = elim (lookup id adapters) [
    | none ↦ none
    | some adapter ↦ elim (run_adapter decision direct (stamps.event index) adapter s) [
      | none ↦ none
      | some (attempt, s') ↦
          after_adapter policy ids attempt s'
            (attempt_all decision policy adapters ids (index + 1) s')
    ]
  ]

  abbrev pub then_shadow :
      SdkAttempt
      → (List SdkAttempt × UsageStore) ⊎ Option String
      → (List SdkAttempt × UsageStore) ⊎ Option String
  then_shadow attempt (inr failure) = inr failure
  then_shadow attempt (inl (rest, s)) = inl (attempt ∷ rest, s)

  -- `_run_shadow_attempts`, over the selected ids: the message of a `ValueError`, or `none` for
  -- another exception.
  unfoldable pub shadow_all :
      RoutingDecision
      → List (String × Adapter)
      → List String
      → List String
      → ℕ
      → UsageStore
      → (List SdkAttempt × UsageStore) ⊎ Option String
  unfolding run_adapter lookup
  shadow_all decision adapters attempted [] index s = inl ([], s)
  shadow_all decision adapters attempted (id ∷ ids) index s = elim (contains attempted id) [
    | true ↦ shadow_all decision adapters attempted ids index s
    | false ↦ elim (lookup id adapters) [
      | none ↦ inr (some ("No provider adapter for shadow provider_id=" <> id))
      | some adapter ↦ elim (run_adapter decision shadow (stamps.shadow_event index) adapter s) [
        | none ↦ inr none
        | some (attempt, s') ↦
            then_shadow attempt (shadow_all decision adapters attempted ids (index + 1) s')
      ]
    ]
  ]

  -- The end of `call`.
  unfoldable pub answer_of : RoutingDecision → Attempted → List SdkAttempt × UsageStore → Outcome
  answer_of decision out (shadows, s) = elim out.last [
    | none ↦ no_attempts
    | some last ↦ answered (record {
      decision = decision;
      last = last;
      attempts = out.attempts;
      shadow_attempts = shadows;
      store = s;
    })
  ]

  unfoldable pub after_attempts :
      RoutingDecision
      → List (String × Adapter)
      → List String
      → List String
      → Option Attempted
      → Outcome
  unfolding shadow_all answer_of selected_shadow_ids
  after_attempts decision adapters ids ranked none = raised
  after_attempts decision adapters ids ranked (some out) =
      elim (shadow_all decision adapters ids
        (selected_shadow_ids a.shadow_provider_ids a.shadow ranked) 0 out.store) [
          | inr (some message) ↦ invalid message
          | inr none ↦ raised
          | inl shadows ↦ answer_of decision out shadows
        ]

  unfoldable pub call_ranked : List (String × Adapter) → List String × String → UsageStore → Outcome
  unfolding build_sdk_failover_policy sdk_decision attempted_ids attempt_all after_attempts
  call_ranked adapters (ranked, strategy) s =
      let policy =
        build_sdk_failover_policy a.failover (length ranked) a.max_attempts a.retry_on_status_codes
          a.retry_on_error_types in
      let decision = sdk_decision ranked strategy policy s in
      let ids = attempted_ids policy ranked in
      after_attempts decision adapters ids ranked
        (attempt_all decision policy adapters ids 0 (record_routing_decision decision s))

  unfoldable pub call : Adapter → Adapter → UsageStore → Outcome
  unfolding adapters_for_capability rank_provider_ids call_ranked
  call open_meteo wttr_in s = elim (adapters_for_capability open_meteo wttr_in a.capability) [
    | none ↦ invalid ("No provider adapter for capability: " <> a.capability)
    | some adapters ↦ elim (rank_provider_ids adapters a.provider_id s) [
      | none ↦ invalid (
          "No provider adapter for capability="
          <> (a.capability <> (", provider_id=" <> text_or a.provider_id "")))
      | some ranked ↦ call_ranked adapters ranked s
    ]
  ]
