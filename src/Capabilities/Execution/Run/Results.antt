-- ===== src/Capabilities/Execution/Run/Results.antt =====
-- `execute_capability` as a whole: its answer, its decision in the store, and the environment.
use api2agent.Common.{
  ◌⊎◌, inl, inr, String, true, not, Option, none, some, List, [], ◌∷◌, ◌++◌, ◌==◌, ◌≡◌, refl, ◌∙◌,
  ap, sym, subst, arith, In, select, find_first, eq_refl, contains, length, Option-cases,
}
use api2agent.Capabilities.{ProviderCandidate, RoutingDecision, FailoverPolicy}
use api2agent.Capabilities.Execution.{Runtime, bridge_keys}
use api2agent.Capabilities.Execution.Environment.{SameAt, Leaves}
use api2agent.Capabilities.Execution.Attempts.{World, Attempt, Attempts, Final, run_attempts}
use api2agent.Capabilities.Execution.Shadow.{ShadowAttempt, Shadowing, run_shadow_attempts}
use api2agent.Capabilities.Execution.Run.{
  map, Numerics, CapabilityCall, CallDraws, CapabilityResult, no_provider, all_providers_failed,
  normalized_result, result_of, effective_policy, ranked_for, selected_for, routing_decision,
  to_attempt, with_shadows, execute_selected, execute_capability,
}
use api2agent.Capabilities.Execution.Run.Keeps.{
  Kept, Kept-refl, Kept-trans, run_attempts-Kept, run_shadow_attempts-Kept,
}
use api2agent.Capabilities.Execution.Run.Sound.{Answers, attempts-Answers}
use api2agent.Control.Storage.{UsageStore, record_routing_decision, get_routing_decision}

abbrev pub decision_of : CapabilityResult → RoutingDecision
decision_of (no_provider decision) = decision
decision_of (all_providers_failed decision _ _) = decision
decision_of (normalized_result decision _ _ _) = decision

decision_of-result_of :
    (decision : RoutingDecision) (out : Attempts) (shadows : List ShadowAttempt)
    → decision_of (result_of decision out shadows) ≡ decision
decision_of-result_of decision out shadows = ground arith

find_first-select_absent :
    (id : String) (d : RoutingDecision) (ds : List RoutingDecision)
    → (d.id == id) ≡ true
    → find_first (λ r. r.id == id) (select (λ r. not (r.id == id)) ds ++ d ∷ []) ≡ some d
find_first-select_absent id d [] own = ground arith
find_first-select_absent id d (r ∷ ds) own = ground (arith, find_first-select_absent id d ds own)

-- The store gives the decision that was recorded last under its id.
get-record_routing_decision :
    (d : RoutingDecision) (s : UsageStore)
    → get_routing_decision d.id (record_routing_decision d s) ≡ some d
unfolding get_routing_decision record_routing_decision
get-record_routing_decision d s = find_first-select_absent d.id d s.routing_decisions (eq_refl d.id)

get_routing_decision-same :
    (id : String) (s s' : UsageStore)
    → s'.routing_decisions ≡ s.routing_decisions
    → get_routing_decision id s' ≡ get_routing_decision id s
unfolding get_routing_decision
get_routing_decision-same id s s' same = ap (find_first (λ r. r.id == id)) same

module _ (n : Numerics) (rt : Runtime) (draws : CallDraws) (call : CapabilityCall)
    (providers : List ProviderCandidate) where
  -- What follows a decision: the outcome of the attempts, with the world of the shadow attempts.
  with_shadows-cases :
      (decision : RoutingDecision) (out : Attempts) (res : CapabilityResult) (w' : World)
      → with_shadows n rt draws call providers decision out ≡ some (res, w')
      → (shadowing : Shadowing) × (run_shadow_attempts rt decision call.params draws.shadow_attempt
            providers call.proxy_url
            (map (λ a. a.provider_id) out.attempts)
            decision.ranked_provider_ids
            call.shadow
            call.shadow_provider_ids
            out.world
          ≡ some shadowing)
        × (result_of decision out shadowing.shadow_attempts ≡ res)
        × (shadowing.world ≡ w')
  unfolding with_shadows
  with_shadows-cases decision out res w' h =
      elim (Option-cases (
        run_shadow_attempts rt decision call.params draws.shadow_attempt providers call.proxy_url
          (map (λ a. a.provider_id) out.attempts) decision.ranked_provider_ids call.shadow
          call.shadow_provider_ids out.world)) [
            | inl e ↦ ground arith
            | inr (shadowing, e) ↦ (shadowing, e, ground arith, ground arith)
          ]

  execute_selected-Kept :
      (decision : RoutingDecision) (policy : FailoverPolicy) (ranked : List ProviderCandidate)
      (w w' : World) (selected : Option ProviderCandidate) (res : CapabilityResult) (name : String)
      → (contains bridge_keys name ≡ true) ⊎ Leaves rt name
      → execute_selected n rt draws call providers decision policy ranked w selected
        ≡ some (res, w')
      → (decision_of res ≡ decision) × Kept name w w'
  unfolding execute_selected
  execute_selected-Kept decision policy ranked w w' none res name safe h =
      let same : w ≡ w' = ground arith in
      (ground arith, subst (Kept name w) same (Kept-refl name w))
  execute_selected-Kept decision policy ranked w w' (some selected) res name safe h =
      elim (Option-cases (
        run_attempts rt decision policy call.params call.proxy_url draws.attempt
          (to_attempt policy selected ranked) 0 w)) [
            | inl e ↦ ground arith
            | inr (out, e) ↦
                let (shadowing, k, same, world) =
                  with_shadows-cases decision out res w' (rw (e, execute_selected) at h) in
                (
                  sym (ap decision_of same)
                      ∙ decision_of-result_of decision out shadowing.shadow_attempts,
                  Kept-trans name w out.world w'
                      (run_attempts-Kept rt decision call.params name safe policy call.proxy_url
                        draws.attempt (to_attempt policy selected ranked) 0 w out e)
                      (subst (Kept name out.world) world (
                        run_shadow_attempts-Kept rt decision call.params name safe
                          draws.shadow_attempt providers call.proxy_url _ _ call.shadow
                          call.shadow_provider_ids out.world shadowing k)),
                )
          ]

  final_of :
      (decision d : RoutingDecision) (out : Attempts) (shadows shown : List ShadowAttempt)
      (attempts : List Attempt) (f : Final)
      → result_of decision out shadows ≡ normalized_result d attempts f shown
      → out.final ≡ some f
  final_of decision d out shadows shown attempts f h = ground arith

  execute_selected-Answers :
      ((cs : List ProviderCandidate) (a : ProviderCandidate) → In a (n.shuffle cs) → In a cs)
      → (decision d : RoutingDecision) (policy : FailoverPolicy) (s : UsageStore) (w w' : World)
        (selected : Option ProviderCandidate) (attempts : List Attempt) (f : Final)
        (shadows : List ShadowAttempt)
      → selected_for n rt draws call providers s ≡ selected
      → execute_selected n rt draws call providers decision policy
          (ranked_for n rt draws call providers s)
          w
          selected
        ≡ some (normalized_result d attempts f shadows, w')
      → Answers call providers f
  unfolding execute_selected
  execute_selected-Answers shuffled decision d policy s w w' none attempts f shadows chosen h =
      ground arith
  execute_selected-Answers shuffled decision d policy s w w' (some selected) attempts f shadows
        chosen h =
      elim (Option-cases (
        run_attempts rt decision policy call.params call.proxy_url draws.attempt
          (to_attempt policy selected (ranked_for n rt draws call providers s)) 0 w)) [
            | inl e ↦ ground arith
            | inr (out, e) ↦
                let (shadowing, k, same, world) =
                  with_shadows-cases decision out _ w' (rw (e, execute_selected) at h) in
                attempts-Answers n shuffled rt decision call draws providers selected policy s w out
                  f chosen e
                  (final_of decision d out shadowing.shadow_attempts shadows attempts f same)
          ]

  -- A call that does not raise has its decision in the store, under the decision's id, and answers
  -- with it; each of the run's variables, and each that no runner changes, is as it was.
  pub execute_capability-Kept :
      (w w' : World) (res : CapabilityResult) (name : String)
      → (contains bridge_keys name ≡ true) ⊎ Leaves rt name
      → execute_capability n rt draws call providers w ≡ some (res, w')
      → (decision_of res ≡ routing_decision n rt draws call providers w.store)
        × (get_routing_decision draws.decision_id w'.store ≡ some (decision_of res))
        × SameAt name w.environ w'.environ
  execute_capability-Kept w w' res name safe h =
      let decision = routing_decision n rt draws call providers w.store in
      let recorded : World = record w { store = record_routing_decision decision w.store } in
      let (e, kept) =
        execute_selected-Kept decision
          (effective_policy call (length (ranked_for n rt draws call providers w.store)))
          (ranked_for n rt draws call providers w.store) recorded w'
          (selected_for n rt draws call providers w.store) res name safe
          (unfold execute_capability in h) in
      let stored : get_routing_decision draws.decision_id recorded.store ≡ some decision =
        unfold routing_decision in get-record_routing_decision decision w.store in
      (
        e,
        get_routing_decision-same draws.decision_id recorded.store w'.store kept.decisions
            ∙ stored
            ∙ ap some (sym e),
        kept.variable,
      )

  -- A normalized answer is that of a provider of the capability, among those that were given, which
  -- has returned with success and whose output mapping has given the body; the shuffle of the
  -- random strategy must give no provider that it was not given.
  pub execute_capability-Answers :
      ((cs : List ProviderCandidate) (a : ProviderCandidate) → In a (n.shuffle cs) → In a cs)
      → (w w' : World) (d : RoutingDecision) (attempts : List Attempt) (f : Final)
        (shadows : List ShadowAttempt)
      → execute_capability n rt draws call providers w
        ≡ some (normalized_result d attempts f shadows, w')
      → Answers call providers f
  execute_capability-Answers shuffled w w' d attempts f shadows h =
      let decision = routing_decision n rt draws call providers w.store in
      execute_selected-Answers shuffled decision d
        (effective_policy call (length (ranked_for n rt draws call providers w.store))) w.store
        (record w { store = record_routing_decision decision w.store }) w'
        (selected_for n rt draws call providers w.store) attempts f shadows refl
        (unfold execute_capability in h)
