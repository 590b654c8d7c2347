-- ===== src/Capabilities/Execution/Attempts.antt =====
-- The attempts of `execute_capability` of api2agent/capabilities/execution.py, from the list of
-- providers to attempt on.
pub mod Chain
use api2agent.Common.{
  inl, inr, ◌⊎◌, ℕ, ◌+◌, String, Bool, true, false, not, ◌&&◌, Option, none, some, List, [], ◌∷◌,
  is_some, if◌then◌else◌,
}
use api2agent.Python.Number.{Float}
use api2agent.Python.Value.{Value, boolean, text, obj, Object, object, entries, get, truthy}
use api2agent.Credentials.Resolver.{Environ}
use api2agent.Capabilities.{ProviderCandidate, RoutingDecision, FailoverPolicy}
use api2agent.Capabilities.Failover.{should_failover}
use api2agent.Capabilities.Normalization.{error, normalize_output, Normalized, normalized, error}
use api2agent.Capabilities.Execution.{
  Runtime, Executed, result, raised, execute_provider, record_usage_event, failed_result,
}
use api2agent.Control.{ExecutionMode, direct}
use api2agent.Control.Storage.{UsageStore}

-- What an attempt draws: its measured latency, and its event's `id` and time.
pub record Draw : Type 0 where
  pub latency_ms : Float
  pub event_id : String
  pub created_at : String

-- What attempts change.
pub record World : Type 0 where
  pub environ : Environ
  pub store : UsageStore

pub record Attempt : Type 0 where
  pub provider_id : String
  pub ok : Bool
  pub result : Object

-- The result that ends the attempts well, with its normalized body.
pub record Final : Type 0 where
  pub provider : ProviderCandidate
  pub provider_result : Object
  pub normalized_body : Object

pub record Attempts : Type 0 where
  pub attempts : List Attempt
  pub final : Option Final
  pub world : World

-- The result of a body that cannot be normalized.
unfoldable pub normalization_result : String → Object
unfolding failed_result
normalization_result message = failed_result "output_normalization" message

-- What an attempt comes to: the result that it fails with, or its final one.
unfoldable pub outcome : ProviderCandidate → Object → Object ⊎ Final
unfolding normalization_result
outcome p run =
    if not (truthy (get run "ok"))
    then inl run
    else elim (normalize_output (get run "body") p.output_mapping) [
      | error message ↦ inl (normalization_result message)
      | normalized body ↦
          inr (record { provider = p; provider_result = run; normalized_body = body })
    ]

abbrev pub failed_attempt : ProviderCandidate → Object → Attempt
failed_attempt p run = record { provider_id = p.provider_id; ok = false; result = run }

abbrev pub then_attempts : Attempt → Option Attempts → Option Attempts
then_attempts a none = none
then_attempts a (some rest) = some (record rest { attempts = a ∷ rest.attempts })

-- The loop's end with a last attempt.
abbrev pub stop : Attempt → Option Final → World → Attempts
stop a final w = record { attempts = a ∷ []; final = final; world = w }

-- What follows an attempt, given what the attempts after it would come to: `break` or `continue`.
unfoldable pub after_failure :
    ProviderCandidate → Object → World → Option Attempts → Option Bool → Option Attempts
after_failure p failure w rest none = none
after_failure p failure w rest (some false) = some (stop (failed_attempt p failure) none w)
after_failure p failure w rest (some true) = then_attempts (failed_attempt p failure) rest

unfoldable pub after_attempt :
    Runtime
    → FailoverPolicy
    → ProviderCandidate
    → List ProviderCandidate
    → Object
    → World
    → Option Attempts
    → Object ⊎ Final
    → Option Attempts
unfolding after_failure
after_attempt rt policy p ps run w rest (inr final) =
    some (stop (record { provider_id = p.provider_id; ok = true; result = run }) (some final) w)
after_attempt rt policy p [] run w rest (inl failure) =
    some (stop (failed_attempt p failure) none w)
after_attempt rt policy p (q ∷ qs) run w rest (inl failure) =
    after_failure p failure w rest (should_failover rt.repr failure policy)

module _ (rt : Runtime) (decision : RoutingDecision) (params : Object)
    (proxy_url : Option String) where
  -- `if proxy_url is None: _record_usage_event(...)`
  unfoldable pub record_attempt :
      ExecutionMode → Draw → ProviderCandidate → Object → World → Option World
  unfolding record_usage_event
  record_attempt mode d p run w =
      if is_some proxy_url
      then some w
      else elim (record_usage_event rt decision p run params d.latency_ms mode d.event_id
          d.created_at w.store) [ none ↦ none | some s ↦ some (record w { store = s }) ]

  -- The event of a result. `result.get` raises at a result that is no dict.
  unfoldable pub record_result :
      ExecutionMode → Draw → ProviderCandidate → World → Executed → Option (Object × World)
  unfolding record_attempt
  record_result mode d p w raised = none
  record_result mode d p w (result (obj fs)) = elim (record_attempt mode d p (entries fs) w) [
    | none ↦ none
    | some w' ↦ some (entries fs, w')
  ]
  record_result mode d p w (result v) = none

  -- One run with its event; `none` is an exception.
  unfoldable pub run_recorded :
      ExecutionMode → Draw → ProviderCandidate → World → Option (Object × World)
  unfolding execute_provider record_result
  run_recorded mode d p w =
      let (ran, environ) =
        execute_provider rt p decision.capability_id params proxy_url decision.id w.environ in
      record_result mode d p (record w { environ = environ }) ran

module _ (rt : Runtime) (decision : RoutingDecision) (policy : FailoverPolicy) (params : Object)
    (proxy_url : Option String) (draw : ℕ → Draw) where
  unfoldable pub attempt : ProviderCandidate → ℕ → World → Option (Object × World)
  unfolding run_recorded
  attempt p index w = run_recorded rt decision params proxy_url direct (draw index) p w

  -- The loop over `attempts`, from its index on.
  unfoldable pub run_attempts : List ProviderCandidate → ℕ → World → Option Attempts
  unfolding attempt outcome after_attempt
  run_attempts [] index w = some (record { attempts = []; final = none; world = w })
  run_attempts (p ∷ ps) index w = elim (attempt p index w) [
    | none ↦ none
    | some (run, w') ↦
        after_attempt rt policy p ps run w' (run_attempts ps (index + 1) w') (outcome p run)
  ]
