-- ===== src/Examples/Execution.antt =====
-- Runs of a provider, and of the attempts.
use api2agent.Common.{ℕ, true, Option, none, some, [], ◌∷◌, ◌≡◌, inl, refl}
use api2agent.Python.Number.{float_zero}
use api2agent.Python.Value.{boolean, object, get, truthy}
use api2agent.Credentials.Resolver.{
  nothing_needed, resolve, answer_from, first_answer, find_config_credential, matches, prefer,
}
use api2agent.Capabilities.{RoutingDecision, FailoverPolicy}
use api2agent.Capabilities.Failover.{build_failover_policy}
use api2agent.Capabilities.Normalization.{normalize_output}
use api2agent.Capabilities.Execution.{
  Runtime, Runner, returned, execute_provider, credential_definition, from_auth, annotate,
  after_run, run_resolved,
}
use api2agent.Capabilities.Execution.Environment.{SameAt, execute_provider-SameAt}
use api2agent.Capabilities.Execution.Attempts.{
  Draw, World, Attempts, run_attempts, attempt, outcome, after_attempt, record_attempt,
}
use api2agent.Capabilities.Execution.Attempts.Chain.{Chained, run_attempts-Chained}
use api2agent.Control.Storage.{empty_store}
use api2agent.Examples.Credentials.{today, environment}
use api2agent.Examples.Capabilities.{near, both}

abbrev pub runner : Runner
runner = record {
  tools = [];
  auth = [];
  execute_tool = λ tool params e.
      returned (object (("ok", boolean true) ∷ ("body", object []) ∷ []))
        (("API2AGENT_PROVIDER_ID", "other") ∷ e);
}

abbrev pub runtime : Runtime
runtime = record {
  runner_in = λ d. d;
  exists = λ path. true;
  load_runner = λ path. some runner;
  validate_credential = λ d. none;
  validate_status = λ v. some none;
  validate_text = λ v. some none;
  dumps = λ d. "{}";
  repr = λ v. "";
  now = today;
}

abbrev pub decision : RoutingDecision
decision = record {
  id = "r1";
  project_id = "local";
  capability_id = "work.issue.list";
  strategy = "first";
  preset = none;
  client_region = none;
  selected_provider_id = some "github";
  selected_provider_region = none;
  ranked_provider_ids = "github" ∷ "gitlab" ∷ [];
  metrics = [];
  failover_policy = none;
  created_at = today;
}

abbrev policy : FailoverPolicy
policy = build_failover_policy true 2 none none

abbrev pub draw : ℕ → Draw
draw n = record {
  latency_ms = float_zero;
  event_id = "e1";
  created_at = "2026-03-01T12:00:00+00:00";
}

abbrev pub start : World
start = record { environ = environment; store = empty_store }

abbrev no_attempts : Attempts
no_attempts = record { attempts = []; final = none; world = start }

abbrev attempts_or : Attempts → Option Attempts → Attempts
attempts_or d none = d
attempts_or d (some a) = a

abbrev done : Option Attempts
done = run_attempts runtime decision policy [] none draw both 0 start

execute_provider-SameAt_example :
    SameAt "API2AGENT_PROVIDER_ID" environment
      (execute_provider runtime near "work.issue.list" [] none "r1" environment).1
execute_provider-SameAt_example =
    execute_provider-SameAt runtime near "work.issue.list" [] none "r1" environment
      "API2AGENT_PROVIDER_ID" (inl refl)

done_runs : done ≡ some (attempts_or no_attempts done)
unfolding run_attempts attempt outcome after_attempt record_attempt execute_provider run_resolved
    credential_definition from_auth after_run annotate get truthy resolve answer_from first_answer
    find_config_credential matches prefer normalize_output nothing_needed
done_runs = refl

run_attempts-Chained_example :
    Chained runtime policy both
      (attempts_or no_attempts done).final
      (attempts_or no_attempts done).attempts
run_attempts-Chained_example =
    run_attempts-Chained runtime decision policy [] none draw both 0 start
      (attempts_or no_attempts done) done_runs
