-- ===== src/Sdk/Attempts.antt =====
-- A call of the SDK always makes an attempt.
use mathlib.Core.List.{Perm}
use mathlib.Core.List.Perm
use api2agent.Common.{
  ◌≢◌, ◌∙◌, ◌⊎◌, inl, inr, ℕ, zero, suc, ◌+◌, ◌≤◌, String, Bool, true, false, Option, none, some,
  List, [], ◌∷◌, ◌==◌, ◌≡◌, refl, ap, sym, subst, arith, lookup, map, take, length, given, is_some,
  text_or, Bool-cases, Option-cases,
}
use api2agent.Python.Number.{ℤ}
use api2agent.Capabilities.{ProviderCandidate, RoutingDecision, FailoverPolicy}
use api2agent.Capabilities.Failover.{build_failover_policy_bounds, slice_to, build_failover_policy}
use api2agent.Capabilities.Routing.Best.{rank_providers-perm}
use api2agent.Capabilities.Execution.Run.{Numerics}
use api2agent.Control.{direct}
use api2agent.Control.Storage.{UsageStore}
use api2agent.Capabilities.Execution.Shadow.{selected_shadow_ids}
use api2agent.Control.Storage.{record_routing_decision}
use api2agent.Capabilities.{RoutingPolicy, default_policy}
use api2agent.Capabilities.Routing.{rank_providers}
use api2agent.Control.Metrics.{metrics_for_capability}
use api2agent.Sdk.{
  policy_strategy, candidate, Answer, raised, invalid, answered, Adapter, CallArguments, Stamps,
  SdkAttempt, Attempted, no_attempts, adapters_for_capability, build_sdk_failover_policy,
  attempted_ids,
}
use api2agent.Sdk.Call.{
  sdk_decision, rank_provider_ids, run_adapter, after_adapter, attempt_all, shadow_all, answer_of,
  after_attempts, call_ranked, call,
}

-- A list that has an item.
IsNonempty {ℓ} : {A : Type ℓ} → List A → Type ℓ
IsNonempty {A = A} xs = (x : A) × (rest : List A) × (xs ≡ x ∷ rest)

nonempty {ℓ} : {A : Type ℓ} (x : A) (rest : List A) → IsNonempty (x ∷ rest)
unfolding IsNonempty
nonempty x rest = (x, rest, refl)

not_nonempty {ℓ} : {A : Type ℓ} (x : A) (rest : List A) → [] ≡ x ∷ rest → ⊥
not_nonempty x rest p = cc

perm-IsNonempty {ℓ} : {A : Type ℓ} (xs ys : List A) → Perm xs ys → IsNonempty ys → IsNonempty xs
unfolding IsNonempty
perm-IsNonempty (x ∷ xs) ys p q = (x, xs, refl)
perm-IsNonempty [] ys p (y, rest, e) =
    absurd (not_nonempty y rest (sym (Perm.eq-nil (Perm.symm p)) ∙ e))

attempted_ids-IsNonempty :
    (enabled : Bool) (count : ℕ) (max_attempts : Option ℤ) (codes : Option (List ℤ))
    (error_types : Option (List String)) (ranked : List String)
    → IsNonempty ranked
    → IsNonempty (
        attempted_ids
          (build_sdk_failover_policy enabled count max_attempts codes error_types)
          ranked)
unfolding attempted_ids build_sdk_failover_policy build_failover_policy slice_to IsNonempty
attempted_ids-IsNonempty enabled count max_attempts codes error_types [] (x, rest, e) = ground arith
attempted_ids-IsNonempty false count max_attempts codes error_types (r ∷ rs) q = (r, [], refl)
attempted_ids-IsNonempty true count max_attempts codes error_types (r ∷ rs) q =
    let (n, e, low, _, _) = build_failover_policy_bounds true count max_attempts codes in
    rw (e, attempted_ids) (take-IsNonempty n low)
  where
    take-IsNonempty : (n : ℕ) → 1 ≤ n → IsNonempty (take n (r ∷ rs))
    take-IsNonempty zero low = absurd (omega arith)
    take-IsNonempty (suc n) low = (r, take n rs, refl)

Sum-cases {ℓ κ} :
    {A : Type ℓ} {B : Type κ} (s : A ⊎ B) → ((a : A) × (s ≡ inl a)) ⊎ ((b : B) × (s ≡ inr b))
Sum-cases (inl a) = inl (a, refl)
Sum-cases (inr b) = inr (b, refl)

not_raised : raised ≡ no_attempts → ⊥
not_raised p = cc

not_invalid : (message : String) → invalid message ≡ no_attempts → ⊥
not_invalid message p = cc

not_answered : (answer : Answer) → answered answer ≡ no_attempts → ⊥
not_answered answer p = cc

false_absurd : false ≡ true → ⊥
false_absurd p = cc

module _ (n : Numerics) (stamps : Stamps) (a : CallArguments) where
  -- What follows an attempt has a last one, if what follows it has one wherever it goes on.
  after_adapter-last :
      (policy : FailoverPolicy) (ids : List String) (attempt : SdkAttempt) (s : UsageStore)
      (rest : Option Attempted) (out : Attempted)
      → (IsNonempty ids → (o : Attempted) → rest ≡ some o → is_some o.last ≡ true)
      → after_adapter n stamps a policy ids attempt s rest ≡ some out
      → is_some out.last ≡ true
  unfolding after_adapter IsNonempty
  after_adapter-last policy [] attempt s rest out next h = ground arith
  after_adapter-last policy (id ∷ ids) attempt s none out next h = ground arith
  after_adapter-last policy (id ∷ ids) attempt s (some o) out next h =
      let last : is_some o.last ≡ true = next (id, ids, refl) o refl in ground arith

  attempt_all-last :
      (decision : RoutingDecision) (policy : FailoverPolicy) (adapters : List (String × Adapter))
      (ids : List String) (index : ℕ) (s : UsageStore) (out : Attempted)
      → IsNonempty ids
      → attempt_all n stamps a decision policy adapters ids index s ≡ some out
      → is_some out.last ≡ true
  unfolding attempt_all IsNonempty
  attempt_all-last decision policy adapters [] index s out (x, rest, e) h =
      absurd (not_nonempty x rest e)
  attempt_all-last decision policy adapters (id ∷ ids) index s out q h =
      elim (Option-cases (lookup id adapters)) [
        | inl e ↦ ground arith
        | inr (adapter, e) ↦
            elim (Option-cases
              (run_adapter n stamps a decision direct (stamps.event index) adapter s)) [
                | inl f ↦ absurd (none_some out (rw f at (rw (e, attempt_all) at h)))
                | inr ((attempt, s'), f) ↦
                    after_adapter-last policy ids attempt s'
                      (attempt_all n stamps a decision policy adapters ids (index + 1) s') out
                      (λ r o k. attempt_all-last decision policy adapters ids (index + 1) s' o r k)
                      (rw f at (rw (e, attempt_all) at h))
              ]
      ]
    where
      none_some : (x : Attempted) → none ≡ some x → ⊥
      none_some x p = cc

  answer_of-attempts :
      (decision : RoutingDecision) (out : Attempted) (shadows : List SdkAttempt) (s : UsageStore)
      → is_some out.last ≡ true
      → answer_of n stamps a decision out (shadows, s) ≢ no_attempts
  unfolding answer_of
  answer_of-attempts decision out shadows s last h = elim (Option-cases out.last) [
    | inl e ↦ false_absurd (rw e at last)
    | inr (l, e) ↦ not_answered _ (rw (e, answer_of) at h)
  ]

  after_attempts-attempts :
      (decision : RoutingDecision) (adapters : List (String × Adapter)) (ids ranked : List String)
      (o : Option Attempted)
      → ((out : Attempted) → o ≡ some out → is_some out.last ≡ true)
      → after_attempts n stamps a decision adapters ids ranked o ≢ no_attempts
  unfolding after_attempts
  after_attempts-attempts decision adapters ids ranked none last h = not_raised h
  after_attempts-attempts decision adapters ids ranked (some out) last h =
      elim (Sum-cases (
        shadow_all n stamps a decision adapters ids
          (selected_shadow_ids a.shadow_provider_ids a.shadow ranked) 0 out.store)) [
            | inl ((shadows, s), e) ↦
                answer_of-attempts decision out shadows s (last out refl)
                  (rw (e, after_attempts) at h)
            | inr (none, e) ↦ not_raised (rw (e, after_attempts) at h)
            | inr (some message, e) ↦ not_invalid message (rw (e, after_attempts) at h)
          ]

  call_ranked-attempts :
      (adapters : List (String × Adapter)) (ranked : List String) (strategy : String)
      (s : UsageStore)
      → IsNonempty ranked
      → call_ranked n stamps a adapters (ranked, strategy) s ≢ no_attempts
  unfolding call_ranked
  call_ranked-attempts adapters ranked strategy s q =
      let policy =
        build_sdk_failover_policy a.failover (length ranked) a.max_attempts a.retry_on_status_codes
          a.retry_on_error_types in
      let decision = sdk_decision n stamps a ranked strategy policy s in
      let ids = attempted_ids policy ranked in
      after_attempts-attempts decision adapters ids ranked
        (attempt_all n stamps a decision policy adapters ids 0 (record_routing_decision decision s))
        (λ out e.
          attempt_all-last decision policy adapters ids 0 (record_routing_decision decision s) out
            (attempted_ids-IsNonempty a.failover (length ranked) a.max_attempts
              a.retry_on_status_codes a.retry_on_error_types ranked q)
            e)

  map-IsNonempty :
      (cs : List ProviderCandidate) → IsNonempty cs → IsNonempty (map (λ c. c.provider_id) cs)
  unfolding IsNonempty
  map-IsNonempty [] (c, rest, e) = absurd (not_nonempty c rest e)
  map-IsNonempty (c ∷ cs) q = (c.provider_id, map (λ d. d.provider_id) cs, refl)

  rank_provider_ids-IsNonempty :
      ((cs : List ProviderCandidate) → Perm (n.shuffle cs) cs)
      → (x : String × Adapter) (adapters : List (String × Adapter)) (s : UsageStore)
        (ranked : List String) (strategy : String)
      → rank_provider_ids n stamps a (x ∷ adapters) a.provider_id s ≡ some (ranked, strategy)
      → IsNonempty ranked
  unfolding rank_provider_ids
  rank_provider_ids-IsNonempty shuffled x adapters s ranked strategy h =
      let metrics =
        metrics_for_capability n.sums a.capability a.include_shadow_metrics false none s in
      let policy : RoutingPolicy = record default_policy {
        strategy = policy_strategy a.strategy;
      } in
      let cs = map (candidate a.capability) (x ∷ adapters) in
      elim (Bool-cases (given a.provider_id)) [
        | inl chosen ↦
            elim (Bool-cases (is_some (lookup (text_or a.provider_id "") (x ∷ adapters)))) [
              | inl there ↦
                  let e : text_or a.provider_id "" ∷ [] ≡ ranked =
                    ap listed (rw (chosen, there, rank_provider_ids) at h) in
                  subst IsNonempty e (nonempty (text_or a.provider_id "") [])
              | inr absent ↦
                  absurd
                    (none_some (ranked, strategy) (rw (chosen, absent, rank_provider_ids) at h))
            ]
        | inr free ↦
            let e : map (λ c. c.provider_id)
                  (rank_providers n.arithmetic n.shuffle cs metrics (some policy))
                ≡ ranked =
              ap listed (rw (free, rank_provider_ids) at h) in
            subst IsNonempty e (
              map-IsNonempty (rank_providers n.arithmetic n.shuffle cs metrics (some policy)) (
                perm-IsNonempty _ cs
                  (rank_providers-perm n.arithmetic n.shuffle shuffled cs metrics (some policy))
                  (nonempty (candidate a.capability x) (map (candidate a.capability) adapters))))
      ]
    where
      listed : Option (List String × String) → List String
      listed none = []
      listed (some (ids, name)) = ids

      none_some : (o : List String × String) → none ≡ some o → ⊥
      none_some o p = cc

  -- A call never comes to the `RuntimeError` that no provider was attempted: it answers, or it is
  -- refused before, or raises while it attempts. The shuffle of the random strategy must give the
  -- candidates that it was given.
  pub call-attempts :
      ((cs : List ProviderCandidate) → Perm (n.shuffle cs) cs)
      → (open_meteo wttr_in : Adapter) (s : UsageStore)
      → call n stamps a open_meteo wttr_in s ≢ no_attempts
  unfolding call adapters_for_capability
  call-attempts shuffled open_meteo wttr_in s h =
      elim (Bool-cases (a.capability == "weather.get")) [
        | inr other ↦ not_invalid _ (rw (other, call) at h)
        | inl weather ↦
            let adapters : List (String × Adapter) =
              ("open_meteo", open_meteo) ∷ ("wttr_in", wttr_in) ∷ [] in
            elim (Option-cases (rank_provider_ids n stamps a adapters a.provider_id s)) [
              | inl e ↦ not_invalid _ (rw (e, call) at (rw (weather, call) at h))
              | inr ((ranked, strategy), e) ↦
                  call_ranked-attempts adapters ranked strategy s
                    (rank_provider_ids-IsNonempty shuffled ("open_meteo", open_meteo)
                      (("wttr_in", wttr_in) ∷ []) s ranked strategy e)
                    (rw (e, call) at (rw (weather, call) at h))
            ]
      ]
