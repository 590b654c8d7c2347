-- ===== src/Examples/Run.antt =====
-- A call of a capability, from its decision to its answer.
use api2agent.Capabilities.Routing.{success_rate}
use api2agent.Common.{List, ℕ, true, Option, none, some, []}
use api2agent.Capabilities.Execution.Run.{with_shadows}
use api2agent.Capabilities.Execution.Run.{to_attempt}
use api2agent.Capabilities.Execution.Shadow.{run_shadow_attempts}
use api2agent.Capabilities.Execution.Shadow.{run_shadows}
use api2agent.Capabilities.Execution.Shadow.{selected_shadow_ids}
use api2agent.Capabilities.Execution.Shadow.{provider_by_id}
use api2agent.Capabilities.Execution.Shadow.{shadow_attempt}
use api2agent.Capabilities.Execution.Attempts.{run_attempts}
use api2agent.Capabilities.Execution.Attempts.{attempt}
use api2agent.Capabilities.Execution.Attempts.{outcome}
use api2agent.Capabilities.Execution.Attempts.{after_attempt}
use api2agent.Capabilities.Execution.Attempts.{run_recorded}
use api2agent.Capabilities.Execution.Attempts.{record_result}
use api2agent.Capabilities.Execution.Attempts.{record_attempt}
use api2agent.Capabilities.Execution.{execute_provider}
use api2agent.Capabilities.Execution.{run_resolved}
use api2agent.Capabilities.Execution.{credential_definition}
use api2agent.Capabilities.Execution.{from_auth}
use api2agent.Capabilities.Execution.{after_run}
use api2agent.Capabilities.Execution.{annotate}
use api2agent.Python.Value.{get}
use api2agent.Python.Value.{truthy}
use api2agent.Credentials.Resolver.{resolve}
use api2agent.Credentials.Resolver.{answer_from}
use api2agent.Credentials.Resolver.{first_answer}
use api2agent.Credentials.Resolver.{find_config_credential}
use api2agent.Credentials.Resolver.{matches}
use api2agent.Credentials.Resolver.{prefer}
use api2agent.Capabilities.Normalization.{normalize_output}
use api2agent.Credentials.Resolver.{nothing_needed}
use api2agent.Capabilities.Routing.{rank_providers}
use api2agent.Capabilities.Routing.{select_provider}
use api2agent.Control.Metrics.{metrics_for_capability}
use api2agent.Capabilities.Failover.{build_failover_policy}
use api2agent.Control.Storage.{record_routing_decision}
use api2agent.Capabilities.Routing.{select_provider_region}
use api2agent.Capabilities.Execution.{record_usage_event}
use api2agent.Capabilities.Failover.{slice_to}
use api2agent.Capabilities.Routing.{rank_by}
use api2agent.Python.Sorting.{sort}
use api2agent.Capabilities.Routing.{balanced_score}
use api2agent.Python.Number.{float_lt}
use api2agent.Capabilities.Routing.{by_provider}
use api2agent.Common.{lookup}
use api2agent.Common.{insert}
use api2agent.Capabilities.Execution.Shadow.{ShadowAttempt}
use api2agent.Capabilities.Execution.Environment.{SameAt}
use api2agent.Control.Storage.{get_routing_decision}
use api2agent.Common.{refl, inl, ◌≡◌}
use api2agent.Capabilities.Execution.Run.Sound.{Answers}
use api2agent.Capabilities.Execution.Run.Results.{
  decision_of, execute_capability-Kept, execute_capability-Answers,
}
use api2agent.Capabilities.{RoutingDecision}
use api2agent.Capabilities.Execution.Attempts.{Attempt, World, Final, Draw}
use api2agent.Capabilities.Execution.Run.{
  selected_for, ranked_for, capability_metrics, effective_policy, execute_selected, Numerics,
  CapabilityCall, CallDraws, CapabilityResult, no_provider, normalized_result, routing_decision,
  execute_capability,
}
use api2agent.Control.Storage.{Sums}
use api2agent.Examples.Credentials.{today}
use api2agent.Examples.Capabilities.{near, both, no_arithmetic, unshuffled}
use api2agent.Examples.Execution.{runtime, draw, start, decision}
use api2agent.Capabilities.Execution.Shadow.{Shadowing}
use api2agent.Capabilities.Execution.Shadow.Apart.{IsApart, run_shadow_attempts-Apart}
use api2agent.Common.{All, String, ◌∷◌}

abbrev pub no_sums : Sums
no_sums = record {
  sum = λ xs. 0;
  divide = λ x n. x;
  ratio = λ m n. 0;
  sql_sum = λ xs. 0;
  sql_average = λ xs. 0;
}

abbrev pub numerics : Numerics
numerics = record { arithmetic = no_arithmetic; sums = no_sums; shuffle = unshuffled }

abbrev shadow_draw : ℕ → Draw
shadow_draw n = record (draw n) { event_id = "e2" }

abbrev draws : CallDraws
draws = record {
  decision_id = "r1";
  created_at = today;
  attempt = draw;
  shadow_attempt = shadow_draw;
}

abbrev call : CapabilityCall
call = record {
  capability_id = "work.issue.list";
  params = [];
  policy = none;
  preset = none;
  proxy_url = none;
  failover = true;
  failover_policy = none;
  include_shadow_metrics = true;
  shadow = true;
  shadow_provider_ids = none;
}

abbrev ran : Option (CapabilityResult × World)
ran = execute_capability numerics runtime draws call both start

abbrev answer_or :
    CapabilityResult × World → Option (CapabilityResult × World) → CapabilityResult × World
answer_or d none = d
answer_or d (some a) = a

abbrev no_decision : RoutingDecision
no_decision = routing_decision numerics runtime draws call [] start.store

abbrev answered : CapabilityResult × World
answered = answer_or (no_provider no_decision, start) ran

abbrev no_final : Final
no_final = record { provider = near; provider_result = []; normalized_body = [] }

abbrev final_or : CapabilityResult → Final
final_or (normalized_result d attempts f shadows) = f
final_or _ = no_final

abbrev attempts_in : CapabilityResult → List Attempt
attempts_in (normalized_result d attempts f shadows) = attempts
attempts_in _ = []

abbrev shadows_in : CapabilityResult → List ShadowAttempt
shadows_in (normalized_result d attempts f shadows) = shadows
shadows_in _ = []

ran_answers :
    (ran ≡ some (answered.0, answered.1))
    × (ran
        ≡ some (
          normalized_result
              (decision_of answered.0)
              (attempts_in answered.0)
              (final_or answered.0)
              (shadows_in answered.0),
          answered.1,
        ))
unfolding execute_capability execute_selected routing_decision effective_policy capability_metrics
    ranked_for selected_for with_shadows to_attempt run_shadow_attempts run_shadows
    selected_shadow_ids provider_by_id shadow_attempt run_attempts attempt outcome after_attempt
    run_recorded record_result record_attempt execute_provider run_resolved credential_definition
    from_auth after_run annotate get truthy resolve answer_from first_answer find_config_credential
    matches prefer normalize_output nothing_needed rank_providers select_provider
    metrics_for_capability build_failover_policy record_routing_decision select_provider_region
    record_usage_event slice_to rank_by sort balanced_score success_rate float_lt by_provider lookup
    insert
ran_answers = (refl, refl)

execute_capability-Kept_example :
    (decision_of answered.0 ≡ routing_decision numerics runtime draws call both start.store)
    × (get_routing_decision "r1" answered.1.store ≡ some (decision_of answered.0))
    × SameAt "API2AGENT_PROVIDER_ID" start.environ answered.1.environ
execute_capability-Kept_example =
    execute_capability-Kept numerics runtime draws call both start answered.1 answered.0
      "API2AGENT_PROVIDER_ID" (inl refl) ran_answers.0

execute_capability-Answers_example : Answers call both (final_or answered.0)
execute_capability-Answers_example =
    execute_capability-Answers numerics runtime draws call both (λ cs a i. i) start answered.1
      (decision_of answered.0) (attempts_in answered.0) (final_or answered.0)
      (shadows_in answered.0) ran_answers.1

abbrev ran_shadows : Option Shadowing
ran_shadows =
    run_shadow_attempts runtime decision [] draw both none ("github" ∷ [])
      ("github" ∷ "gitlab" ∷ []) true none start

abbrev shadowing_or : Option Shadowing → Shadowing
shadowing_or none = record { shadow_attempts = []; world = start }
shadowing_or (some s) = s

ran_shadows_runs : ran_shadows ≡ some (shadowing_or ran_shadows)
unfolding run_shadow_attempts run_shadows selected_shadow_ids provider_by_id shadow_attempt
    run_recorded record_result record_attempt execute_provider run_resolved credential_definition
    from_auth after_run annotate get truthy resolve answer_from first_answer find_config_credential
    matches prefer nothing_needed record_usage_event lookup insert
ran_shadows_runs = refl

run_shadow_attempts-Apart_example :
    All
      (IsApart runtime decision [] draw ("github" ∷ []))
      (shadowing_or ran_shadows).shadow_attempts
    × ((url : String)
        → none ≡ some url
        → ((shadowing_or ran_shadows).shadow_attempts ≡ [])
          × ((shadowing_or ran_shadows).world ≡ start))
run_shadow_attempts-Apart_example =
    run_shadow_attempts-Apart runtime decision [] draw ("github" ∷ []) both none
      ("github" ∷ "gitlab" ∷ []) true none start (shadowing_or ran_shadows) ran_shadows_runs
