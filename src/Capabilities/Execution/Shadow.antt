-- ===== src/Capabilities/Execution/Shadow.antt =====
-- `_run_shadow_attempts` of api2agent/capabilities/execution.py.
pub mod Apart
use api2agent.Common.{
  ℕ, ◌+◌, String, Bool, true, false, not, Option, none, some, List, [], ◌∷◌, ◌==◌, contains, lookup,
  insert, is_some, if◌then◌else◌,
}
use api2agent.Python.Number.{Float}
use api2agent.Python.Value.{Value, null, obj, Object, entries, get, truthy}
use api2agent.Capabilities.{ProviderCandidate, RoutingDecision}
use api2agent.Capabilities.Execution.{Runtime}
use api2agent.Capabilities.Execution.Attempts.{Draw, World, run_recorded}
use api2agent.Control.{shadow}

pub data ShadowAttempt : Type 0 where
  unknown_shadow_provider : String → ShadowAttempt
  shadowed : String → Bool → Value → Value → Float → ShadowAttempt

pub record Shadowing : Type 0 where
  pub shadow_attempts : List ShadowAttempt
  pub world : World

-- `provider_by_id`: the last of one id stays.
unfoldable pub provider_by_id :
    String
    → List (String × ProviderCandidate)
    → List ProviderCandidate
    → List (String × ProviderCandidate)
unfolding insert
provider_by_id capability_id index [] = index
provider_by_id capability_id index (p ∷ ps) =
    if p.capability_id == capability_id
    then provider_by_id capability_id (insert p.provider_id p index) ps
    else provider_by_id capability_id index ps

-- `shadow_provider_ids or (ranked_provider_ids if shadow else [])`
unfoldable pub selected_shadow_ids : Option (List String) → Bool → List String → List String
selected_shadow_ids (some (i ∷ is)) wanted ranked = i ∷ is
selected_shadow_ids _ wanted ranked = if wanted then ranked else []

abbrev pub error_type_of : Value → Value
error_type_of (obj fs) = get (entries fs) "type"
error_type_of _ = null

unfoldable pub shadow_attempt : String → Draw → Object → ShadowAttempt
shadow_attempt provider_id d run =
    shadowed provider_id (truthy (get run "ok")) (get run "status_code")
      (error_type_of (get run "error")) d.latency_ms

abbrev pub then_shadowed : ShadowAttempt → Option Shadowing → Option Shadowing
then_shadowed a none = none
then_shadowed a (some rest) = some (record rest { shadow_attempts = a ∷ rest.shadow_attempts })

module _ (rt : Runtime) (decision : RoutingDecision) (params : Object) (draw : ℕ → Draw)
    (providers : List (String × ProviderCandidate)) (attempted : List String) where
  -- The loop over the selected ids; it runs without a proxy url.
  unfoldable pub run_shadows : List String → ℕ → World → Option Shadowing
  unfolding run_recorded shadow_attempt lookup
  run_shadows [] index w = some (record { shadow_attempts = []; world = w })
  run_shadows (i ∷ is) index w =
      let skip = run_shadows is index w in
      elim (contains attempted i) [
        | true ↦ skip
        | false ↦ elim (lookup i providers) [
          | none ↦ then_shadowed (unknown_shadow_provider i) skip
          | some p ↦ elim (run_recorded rt decision params none shadow (draw index) p w) [
            | none ↦ none
            | some (run, w') ↦
                then_shadowed (shadow_attempt p.provider_id (draw index) run)
                  (run_shadows is (index + 1) w')
          ]
        ]
      ]

unfoldable pub run_shadow_attempts :
    Runtime
    → RoutingDecision
    → Object
    → (ℕ → Draw)
    → List ProviderCandidate
    → Option String
    → List String
    → List String
    → Bool
    → Option (List String)
    → World
    → Option Shadowing
unfolding run_shadows selected_shadow_ids provider_by_id
run_shadow_attempts rt decision params draw providers proxy_url attempted ranked wanted ids w =
    if is_some proxy_url
    then some (record { shadow_attempts = []; world = w })
    else run_shadows rt decision params draw (provider_by_id decision.capability_id [] providers)
        attempted (selected_shadow_ids ids wanted ranked) 0 w
