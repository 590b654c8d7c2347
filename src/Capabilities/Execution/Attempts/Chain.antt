-- ===== src/Capabilities/Execution/Attempts/Chain.antt =====
-- What the attempts of `execute_capability` are: a chain of retried failures, and how it ends.
use api2agent.Common.{
  ℕ, ◌+◌, String, Bool, true, false, Option, none, some, List, [], ◌∷◌, ◌≡◌, refl, subst, ◌⊎◌, inl,
  inr, arith, Bool-cases, Option-cases,
}
use api2agent.Python.Value.{Object, get, truthy}
use api2agent.Capabilities.{ProviderCandidate, RoutingDecision, FailoverPolicy}
use api2agent.Capabilities.Failover.{should_failover}
use api2agent.Capabilities.Normalization.{normalize_output, Normalized, normalized, error}
use api2agent.Capabilities.Execution.{Runtime}
use api2agent.Capabilities.Execution.Attempts.{
  failed_attempt, after_attempt, after_failure, then_attempts, Draw, World, Attempt, Final,
  Attempts, attempt, outcome, run_attempts,
}

-- The final result is what its provider has returned with success, and the normalized body.
pub record Succeeds (p : ProviderCandidate) (run : Object) (f : Final) : Type 0 where
  pub of_provider : f.provider ≡ p
  pub returned : f.provider_result ≡ run
  pub succeeded : truthy (get run "ok") ≡ true
  pub mapped : normalize_output (get run "body") p.output_mapping ≡ normalized f.normalized_body

Normalized-cases :
    (n : Normalized) → ((m : String) × (n ≡ error m)) ⊎ ((d : Object) × (n ≡ normalized d))
Normalized-cases (error m) = inl (m, refl)
Normalized-cases (normalized d) = inr (d, refl)

module _ (rt : Runtime) (policy : FailoverPolicy) where
  -- The last attempt has succeeded, or it has failed with no provider left or no retry allowed.
  abbrev pub Ends : ProviderCandidate → List ProviderCandidate → Attempt → Option Final → Type 0
  Ends p ps a none =
      (a.ok ≡ false) × ((ps ≡ []) ⊎ (should_failover rt.repr a.result policy ≡ some false))
  Ends p ps a (some f) = (a.ok ≡ true) × Succeeds p a.result f

  -- The attempts are of the providers in their order; each but the last has failed in a way that
  -- the policy retries.
  abbrev pub Chained : List ProviderCandidate → Option Final → List Attempt → Type 0
  Chained [] none [] = Unit
  Chained (p ∷ ps) f (a ∷ []) = (a.provider_id ≡ p.provider_id) × Ends p ps a f
  Chained (p ∷ ps) f (a ∷ b ∷ rest) =
      (a.provider_id ≡ p.provider_id)
      × (a.ok ≡ false)
      × (should_failover rt.repr a.result policy ≡ some true)
      × Chained ps f (b ∷ rest)
  Chained _ _ _ = ⊥

  outcome-Succeeds :
      (p : ProviderCandidate) (run : Object) (f : Final) → outcome p run ≡ inr f → Succeeds p run f
  unfolding outcome
  outcome-Succeeds p run f h = elim (Bool-cases (truthy (get run "ok"))) [
    | inr bad ↦ absurd (inl_inr run f (rw (bad, outcome) at h))
    | inl good ↦ elim (Normalized-cases (normalize_output (get run "body") p.output_mapping)) [
      | inl (message, e) ↦ absurd (inl_inr _ f (rw e at (rw (good, outcome) at h)))
      | inr (body, e) ↦
          let is_f = inr_inj _ f (rw e at (rw (good, outcome) at h)) in
          subst (Succeeds p run) is_f
            (record { of_provider = refl; returned = refl; succeeded = good; mapped = e })
    ]
  ]
    where
      inl_inr : (x : Object) (y : Final) → inl x ≡ inr y → ⊥
      inl_inr x y q = cc

      inr_final : Final → Object ⊎ Final
      inr_final x = inr x

      inr_inj : (x y : Final) → inr_final x ≡ inr y → x ≡ y
      inr_inj x y q = cc

  Chained-retry :
      (p q : ProviderCandidate) (ps : List ProviderCandidate) (a : Attempt) (f : Option Final)
      (rest : List Attempt)
      → a.provider_id ≡ p.provider_id
      → a.ok ≡ false
      → should_failover rt.repr a.result policy ≡ some true
      → Chained (q ∷ ps) f rest
      → Chained (p ∷ q ∷ ps) f (a ∷ rest)
  Chained-retry p q ps a f [] named failed retried chain = absurd chain
  Chained-retry p q ps a f (b ∷ rest) named failed retried chain = (named, failed, retried, chain)

some_attempts : (x y : Attempts) → some x ≡ some y → x ≡ y
some_attempts x y q = cc

module _ (rt : Runtime) (policy : FailoverPolicy) (p : ProviderCandidate) (w : World) where
  then_attempts-Chained :
      (q : ProviderCandidate) (ps : List ProviderCandidate) (failure : Object)
      (rest : Option Attempts) (out : Attempts)
      → ((o : Attempts) → rest ≡ some o → Chained rt policy (q ∷ ps) o.final o.attempts)
      → should_failover rt.repr failure policy ≡ some true
      → then_attempts (failed_attempt p failure) rest ≡ some out
      → Chained rt policy (p ∷ q ∷ ps) out.final out.attempts
  then_attempts-Chained q ps failure none out chain retried h = cc
  then_attempts-Chained q ps failure (some o) out chain retried h =
      subst (λ (x : Attempts). Chained rt policy (p ∷ q ∷ ps) x.final x.attempts)
        (some_attempts _ out h)
        (Chained-retry rt policy p q ps (failed_attempt p failure) o.final o.attempts refl refl
          retried (chain o refl))

  after_failure-Chained :
      (q : ProviderCandidate) (ps : List ProviderCandidate) (failure : Object)
      (rest : Option Attempts) (out : Attempts) (decided : Option Bool)
      → ((o : Attempts) → rest ≡ some o → Chained rt policy (q ∷ ps) o.final o.attempts)
      → should_failover rt.repr failure policy ≡ decided
      → after_failure p failure w rest decided ≡ some out
      → Chained rt policy (p ∷ q ∷ ps) out.final out.attempts
  unfolding after_failure
  after_failure-Chained q ps failure rest out none chain e h = cc
  after_failure-Chained q ps failure rest out (some false) chain e h =
      subst (λ (x : Attempts). Chained rt policy (p ∷ q ∷ ps) x.final x.attempts)
        (some_attempts _ out h) (refl, (refl, inr e))
  after_failure-Chained q ps failure rest out (some true) chain e h =
      then_attempts-Chained q ps failure rest out chain e h

  after_attempt-Chained :
      (ps : List ProviderCandidate) (run : Object) (rest : Option Attempts) (out : Attempts)
      (x : Object ⊎ Final)
      → ((o : Attempts) → rest ≡ some o → Chained rt policy ps o.final o.attempts)
      → outcome p run ≡ x
      → after_attempt rt policy p ps run w rest x ≡ some out
      → Chained rt policy (p ∷ ps) out.final out.attempts
  unfolding after_attempt
  after_attempt-Chained ps run rest out (inr final) chain e h =
      subst (λ (x : Attempts). Chained rt policy (p ∷ ps) x.final x.attempts)
        (some_attempts _ out h) (refl, (refl, outcome-Succeeds rt policy p run final e))
  after_attempt-Chained [] run rest out (inl failure) chain e h =
      subst (λ (x : Attempts). Chained rt policy (p ∷ []) x.final x.attempts)
        (some_attempts _ out h) (refl, (refl, inl refl))
  after_attempt-Chained (q ∷ qs) run rest out (inl failure) chain e h =
      after_failure-Chained q qs failure rest out (should_failover rt.repr failure policy) chain
        refl h

-- Attempts that do not raise are of the providers in their order. Each but the last has failed in
-- a way that the policy retries; the last has failed with no provider left or no retry allowed, or
-- its provider's successful result is the final one, with its body normalized.
pub run_attempts-Chained :
    (rt : Runtime) (decision : RoutingDecision) (policy : FailoverPolicy) (params : Object)
    (proxy_url : Option String) (draw : ℕ → Draw) (ps : List ProviderCandidate) (index : ℕ)
    (w : World) (out : Attempts)
    → run_attempts rt decision policy params proxy_url draw ps index w ≡ some out
    → Chained rt policy ps out.final out.attempts
unfolding run_attempts
run_attempts-Chained rt decision policy params proxy_url draw [] index w out h =
    subst (λ (x : Attempts). Chained rt policy [] x.final x.attempts) (some_attempts _ out h) tt
run_attempts-Chained rt decision policy params proxy_url draw (p ∷ ps) index w out h =
    elim (Option-cases (attempt rt decision policy params proxy_url draw p index w)) [
      | inl e ↦ ground arith
      | inr ((run, w'), e) ↦
          after_attempt-Chained rt policy p w' ps run
            (run_attempts rt decision policy params proxy_url draw ps (index + 1) w') out
            (outcome p run)
            (λ o k.
              run_attempts-Chained rt decision policy params proxy_url draw ps (index + 1) w' o k)
            refl (rw (e, run_attempts) at h)
    ]
