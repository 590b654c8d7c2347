-- ===== src/Capabilities/Execution/Run/Keeps.antt =====
-- What `execute_capability` leaves as it was: the environment, and the decisions of the store but
-- for its own.
use api2agent.Common.{
  ℕ, ◌+◌, ◌⊎◌, inl, inr, String, Bool, true, false, Option, none, some, List, [], ◌∷◌, ◌≡◌, refl,
  ◌∙◌, ap, sym, subst, arith, contains, lookup, Bool-cases, Option-cases,
}
use api2agent.Python.Value.{Object, obj}
use api2agent.Capabilities.{ProviderCandidate, RoutingDecision, FailoverPolicy}
use api2agent.Capabilities.Execution.{
  entries, Executed, getenv, Runtime, bridge_keys, record_usage_event, result,
}
use api2agent.Capabilities.Execution.Environment.{SameAt, Leaves, execute_provider-SameAt}
use api2agent.Capabilities.Execution.Attempts.{
  Attempt, record_result, Draw, World, Attempts, Final, run_attempts, attempt, run_recorded,
  record_attempt, after_attempt, after_failure, outcome, then_attempts, failed_attempt,
}
use api2agent.Capabilities.Execution.Shadow.{
  ShadowAttempt, Shadowing, run_shadows, run_shadow_attempts, then_shadowed,
}
use api2agent.Capabilities.Failover.{should_failover}
use api2agent.Control.{ExecutionMode, UsageEvent, direct, shadow}
use api2agent.Control.Storage.{UsageStore, record_event}

-- The variable, and the decisions, are those of before.
pub record Kept (name : String) (w w' : World) : Type 0 where
  pub variable : SameAt name w.environ w'.environ
  pub decisions : w'.store.routing_decisions ≡ w.store.routing_decisions

pub Kept-refl : (name : String) (w : World) → Kept name w w
Kept-refl name w = record { variable = refl; decisions = refl }

pub Kept-trans : (name : String) (u v w : World) → Kept name u v → Kept name v w → Kept name u w
Kept-trans name u v w p q = record {
  variable = p.variable ∙ q.variable;
  decisions = q.decisions ∙ p.decisions;
}

record_event-decisions :
    (e : UsageEvent) (s t : UsageStore)
    → record_event e s ≡ some t
    → t.routing_decisions ≡ s.routing_decisions
unfolding record_event
record_event-decisions e s t h = ground arith

module _ (rt : Runtime) (decision : RoutingDecision) (params : Object) (name : String)
    (safe : (contains bridge_keys name ≡ true) ⊎ Leaves rt name) where
  record_usage_event-decisions :
      (p : ProviderCandidate) (run : Object) (mode : ExecutionMode) (d : Draw) (s t : UsageStore)
      → record_usage_event rt decision p run params d.latency_ms mode d.event_id d.created_at s
        ≡ some t
      → t.routing_decisions ≡ s.routing_decisions
  unfolding record_usage_event
  record_usage_event-decisions p run mode d s t h = ground arith

  record_attempt-decisions :
      (proxy_url : Option String) (mode : ExecutionMode) (d : Draw) (p : ProviderCandidate)
      (run : Object) (w w' : World)
      → record_attempt rt decision params proxy_url mode d p run w ≡ some w'
      → (w'.environ ≡ w.environ) × (w'.store.routing_decisions ≡ w.store.routing_decisions)
  unfolding record_attempt
  record_attempt-decisions (some url) mode d p run w w' h = ground arith
  record_attempt-decisions none mode d p run w w' h =
      elim (Option-cases (
        record_usage_event rt decision p run params d.latency_ms mode d.event_id d.created_at
          w.store)) [
            | inl e ↦ ground arith
            | inr (s, e) ↦ ground (arith, record_usage_event-decisions p run mode d w.store s e)
          ]

  -- What a run has come to, kept apart from its environment.
  recorded-Kept :
      (proxy_url : Option String) (mode : ExecutionMode) (d : Draw) (p : ProviderCandidate)
      (run : Object) (w v w' : World)
      → v.store ≡ w.store
      → SameAt name w.environ v.environ
      → record_attempt rt decision params proxy_url mode d p run v ≡ some w'
      → Kept name w w'
  recorded-Kept proxy_url mode d p run w v w' stored same h =
      let (e, k) = record_attempt-decisions proxy_url mode d p run v w' h in
      record {
        variable = same ∙ sym (ap (getenv name) e);
        decisions = k ∙ ap (λ (s : UsageStore). s.routing_decisions) stored;
      }

  record_result-Kept :
      (proxy_url : Option String) (mode : ExecutionMode) (d : Draw) (p : ProviderCandidate)
      (w v w' : World) (run : Object) (ran : Executed)
      → v.store ≡ w.store
      → SameAt name w.environ v.environ
      → record_result rt decision params proxy_url mode d p v ran ≡ some (run, w')
      → Kept name w w'
  unfolding record_result
  record_result-Kept proxy_url mode d p w v w' run (result (obj fs)) stored same h =
      elim (Option-cases (record_attempt rt decision params proxy_url mode d p (entries fs) v)) [
        | inl e ↦ ground arith
        | inr (w'', e) ↦
            let is_w : w'' ≡ w' = ground arith in
            recorded-Kept proxy_url mode d p (entries fs) w v w' stored same (e ∙ ap some is_w)
      ]
  record_result-Kept proxy_url mode d p w v w' run _ stored same h = cc

  run_recorded-Kept :
      (proxy_url : Option String) (mode : ExecutionMode) (d : Draw) (p : ProviderCandidate)
      (w w' : World) (run : Object)
      → run_recorded rt decision params proxy_url mode d p w ≡ some (run, w')
      → Kept name w w'
  unfolding run_recorded
  run_recorded-Kept proxy_url mode d p w w' run h =
      record_result-Kept proxy_url mode d p w _ w' run _ refl
        (execute_provider-SameAt rt p decision.capability_id params proxy_url decision.id w.environ
          name safe)
        h

  -- The world that attempts leave off in.
  then_attempts-world :
      (a : Attempt) (rest : Option Attempts) (out : Attempts)
      → then_attempts a rest ≡ some out
      → (o : Attempts) × (rest ≡ some o) × (o.world ≡ out.world)
  then_attempts-world a none out h = cc
  then_attempts-world a (some o) out h = (o, refl, ground arith)

  after_failure-Kept :
      (p : ProviderCandidate) (failure : Object) (w : World) (rest : Option Attempts)
      (decided : Option Bool) (out : Attempts)
      → ((o : Attempts) → rest ≡ some o → Kept name w o.world)
      → after_failure p failure w rest decided ≡ some out
      → Kept name w out.world
  unfolding after_failure
  after_failure-Kept p failure w rest none out keep h = cc
  after_failure-Kept p failure w rest (some false) out keep h =
      let e : w ≡ out.world = ground arith in subst (Kept name w) e (Kept-refl name w)
  after_failure-Kept p failure w rest (some true) out keep h =
      let (o, e, k) = then_attempts-world (failed_attempt p failure) rest out h in
      subst (Kept name w) k (keep o e)

  after_attempt-Kept :
      (policy : FailoverPolicy) (p : ProviderCandidate) (ps : List ProviderCandidate) (run : Object)
      (w : World) (rest : Option Attempts) (x : Object ⊎ Final) (out : Attempts)
      → ((o : Attempts) → rest ≡ some o → Kept name w o.world)
      → after_attempt rt policy p ps run w rest x ≡ some out
      → Kept name w out.world
  unfolding after_attempt
  after_attempt-Kept policy p ps run w rest (inr final) out keep h =
      let e : w ≡ out.world = ground arith in subst (Kept name w) e (Kept-refl name w)
  after_attempt-Kept policy p [] run w rest (inl failure) out keep h =
      let e : w ≡ out.world = ground arith in subst (Kept name w) e (Kept-refl name w)
  after_attempt-Kept policy p (q ∷ qs) run w rest (inl failure) out keep h =
      after_failure-Kept p failure w rest (should_failover rt.repr failure policy) out keep h

  pub run_attempts-Kept :
      (policy : FailoverPolicy) (proxy_url : Option String) (draw : ℕ → Draw)
      (ps : List ProviderCandidate) (index : ℕ) (w : World) (out : Attempts)
      → run_attempts rt decision policy params proxy_url draw ps index w ≡ some out
      → Kept name w out.world
  unfolding run_attempts attempt
  run_attempts-Kept policy proxy_url draw [] index w out h =
      let e : w ≡ out.world = ground arith in subst (Kept name w) e (Kept-refl name w)
  run_attempts-Kept policy proxy_url draw (p ∷ ps) index w out h =
      elim (Option-cases (run_recorded rt decision params proxy_url direct (draw index) p w)) [
        | inl e ↦ ground arith
        | inr ((run, w'), e) ↦
            Kept-trans name w w' out.world
              (run_recorded-Kept proxy_url direct (draw index) p w w' run e)
              (after_attempt-Kept policy p ps run w'
                (run_attempts rt decision policy params proxy_url draw ps (index + 1) w')
                (outcome p run) out
                (λ o k. run_attempts-Kept policy proxy_url draw ps (index + 1) w' o k)
                (rw (e, run_attempts, attempt) at h))
      ]

  then_shadowed-world :
      (a : ShadowAttempt) (rest : Option Shadowing) (out : Shadowing)
      → then_shadowed a rest ≡ some out
      → (o : Shadowing) × (rest ≡ some o) × (o.world ≡ out.world)
  then_shadowed-world a none out h = cc
  then_shadowed-world a (some o) out h = (o, refl, ground arith)

  run_shadows-Kept :
      (draw : ℕ → Draw) (providers : List (String × ProviderCandidate)) (attempted is : List String)
      (index : ℕ) (w : World) (out : Shadowing)
      → run_shadows rt decision params draw providers attempted is index w ≡ some out
      → Kept name w out.world
  unfolding run_shadows
  run_shadows-Kept draw providers attempted [] index w out h =
      let e : w ≡ out.world = ground arith in subst (Kept name w) e (Kept-refl name w)
  run_shadows-Kept draw providers attempted (i ∷ is) index w out h =
      elim (Bool-cases (contains attempted i)) [
        | inl old ↦
            run_shadows-Kept draw providers attempted is index w out (rw (old, run_shadows) at h)
        | inr new ↦ elim (Option-cases (lookup i providers)) [
          | inl absent ↦
              let (o, e, k) =
                then_shadowed-world _ _ out (rw absent at (rw (new, run_shadows) at h)) in
              subst (Kept name w) k (run_shadows-Kept draw providers attempted is index w o e)
          | inr (p, found) ↦
              elim (Option-cases (run_recorded rt decision params none shadow (draw index) p w)) [
                | inl e ↦
                    absurd (none_some out (rw e at (rw found at (rw (new, run_shadows) at h))))
                | inr ((run, w'), e) ↦
                    let (o, f, k) =
                      then_shadowed-world _ _ out
                        (rw e at (rw found at (rw (new, run_shadows) at h))) in
                    Kept-trans name w w' out.world
                      (run_recorded-Kept none shadow (draw index) p w w' run e)
                      (subst (Kept name w') k
                        (run_shadows-Kept draw providers attempted is (index + 1) w' o f))
              ]
        ]
      ]
    where
      none_some : (x : Shadowing) → none ≡ some x → ⊥
      none_some x q = cc

  pub run_shadow_attempts-Kept :
      (draw : ℕ → Draw) (providers : List ProviderCandidate) (proxy_url : Option String)
      (attempted ranked : List String) (wanted : Bool) (ids : Option (List String)) (w : World)
      (out : Shadowing)
      → run_shadow_attempts rt decision params draw providers proxy_url attempted ranked wanted ids
          w
        ≡ some out
      → Kept name w out.world
  unfolding run_shadow_attempts
  run_shadow_attempts-Kept draw providers (some url) attempted ranked wanted ids w out h =
      let e : w ≡ out.world = ground arith in subst (Kept name w) e (Kept-refl name w)
  run_shadow_attempts-Kept draw providers none attempted ranked wanted ids w out h =
      run_shadows-Kept draw _ attempted _ 0 w out h
