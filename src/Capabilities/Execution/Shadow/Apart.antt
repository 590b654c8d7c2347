-- ===== src/Capabilities/Execution/Shadow/Apart.antt =====
-- The shadow attempts of `_run_shadow_attempts` stand apart from the attempts.
use api2agent.Common.{
  ℕ, ◌+◌, inl, inr, String, Bool, false, Option, none, some, List, [], ◌∷◌, ◌==◌, ◌≡◌, refl, sym,
  subst, arith, All, contains, lookup, insert, Bool-cases, Option-cases, eq_iff, lookup-insert,
}
use api2agent.Python.Value.{Object}
use api2agent.Capabilities.{ProviderCandidate, RoutingDecision}
use api2agent.Capabilities.Execution.{Runtime}
use api2agent.Capabilities.Execution.Attempts.{Draw, World, run_recorded}
use api2agent.Capabilities.Execution.Shadow.{
  ShadowAttempt, unknown_shadow_provider, shadowed, Shadowing, provider_by_id, selected_shadow_ids,
  shadow_attempt, then_shadowed, run_shadows, run_shadow_attempts,
}
use api2agent.Control.{shadow}

abbrev pub shadow_id : ShadowAttempt → String
shadow_id (unknown_shadow_provider id) = id
shadow_id (shadowed id ok status error_type latency_ms) = id

-- An index of providers by their own ids.
Indexed : List (String × ProviderCandidate) → Type 0
Indexed index = (i : String) (p : ProviderCandidate) → lookup i index ≡ some p → p.provider_id ≡ i

no_providers-Indexed : Indexed []
unfolding Indexed lookup
no_providers-Indexed i p h = ground arith

insert-Indexed :
    (p : ProviderCandidate) (index : List (String × ProviderCandidate))
    → Indexed index
    → Indexed (insert p.provider_id p index)
unfolding Indexed
insert-Indexed p index known i q h = elim (Bool-cases (p.provider_id == i)) [
  | inl own ↦ ground (arith, lookup-insert p.provider_id i p index, eq_iff p.provider_id i)
  | inr other ↦ known i q (ground (arith, lookup-insert p.provider_id i p index))
]

provider_by_id-Indexed :
    (capability_id : String) (index : List (String × ProviderCandidate))
    (ps : List ProviderCandidate)
    → Indexed index
    → Indexed (provider_by_id capability_id index ps)
unfolding provider_by_id
provider_by_id-Indexed capability_id index [] known = known
provider_by_id-Indexed capability_id index (p ∷ ps) known =
    elim (Bool-cases (p.capability_id == capability_id)) [
      | inl own ↦ rw own (
          provider_by_id-Indexed capability_id (insert p.provider_id p index) ps
            (insert-Indexed p index known))
      | inr other ↦ rw other (provider_by_id-Indexed capability_id index ps known)
    ]

module _ (rt : Runtime) (decision : RoutingDecision) (params : Object) (draw : ℕ → Draw)
    (attempted : List String) where
  -- A shadow attempt of none of the attempted providers.
  abbrev pub IsApart : ShadowAttempt → Type 0
  IsApart a = contains attempted (shadow_id a) ≡ false

  then_shadowed-Apart :
      (a : ShadowAttempt) (o : Option Shadowing) (out : Shadowing)
      → IsApart a
      → ((rest : Shadowing) → o ≡ some rest → All IsApart rest.shadow_attempts)
      → then_shadowed a o ≡ some out
      → All IsApart out.shadow_attempts
  then_shadowed-Apart a none out apart rest h = ground arith
  then_shadowed-Apart a (some o) out apart rest h =
      let e : a ∷ o.shadow_attempts ≡ out.shadow_attempts = ground arith in
      subst (All IsApart) e (apart, rest o refl)

  run_shadows-Apart :
      (providers : List (String × ProviderCandidate)) (is : List String) (index : ℕ) (w : World)
      (out : Shadowing)
      → Indexed providers
      → run_shadows rt decision params draw providers attempted is index w ≡ some out
      → All IsApart out.shadow_attempts
  unfolding run_shadows shadow_attempt Indexed
  run_shadows-Apart providers [] index w out known h =
      let e : [] ≡ out.shadow_attempts = ground arith in subst (All IsApart) e tt
  run_shadows-Apart providers (i ∷ is) index w out known h =
      elim (Bool-cases (contains attempted i)) [
        | inl old ↦ run_shadows-Apart providers is index w out known (rw (old, run_shadows) at h)
        | inr new ↦ elim (Option-cases (lookup i providers)) [
          | inl absent ↦
              then_shadowed-Apart (unknown_shadow_provider i) _ out new
                (λ rest e. run_shadows-Apart providers is index w rest known e)
                (rw absent at (rw (new, run_shadows) at h))
          | inr (p, found) ↦
              elim (Option-cases (run_recorded rt decision params none shadow (draw index) p w)) [
                | inl e ↦
                    absurd (none_some out (rw e at (rw found at (rw (new, run_shadows) at h))))
                | inr ((run, w'), e) ↦
                    then_shadowed-Apart (shadow_attempt p.provider_id (draw index) run) _ out
                      (subst (λ j. contains attempted j ≡ false) (sym (known i p found)) new)
                      (λ rest f. run_shadows-Apart providers is (index + 1) w' rest known f)
                      (rw e at (rw found at (rw (new, run_shadows) at h)))
              ]
        ]
      ]
    where
      none_some : (x : Shadowing) → none ≡ some x → ⊥
      none_some x q = cc

  -- Shadow attempts that do not raise are of none of the providers that were attempted; with a
  -- proxy url there are none, and nothing of the world changes.
  pub run_shadow_attempts-Apart :
      (providers : List ProviderCandidate) (proxy_url : Option String) (ranked : List String)
      (wanted : Bool) (ids : Option (List String)) (w : World) (out : Shadowing)
      → run_shadow_attempts rt decision params draw providers proxy_url attempted ranked wanted ids
          w
        ≡ some out
      → All IsApart out.shadow_attempts
        × ((url : String) → proxy_url ≡ some url → (out.shadow_attempts ≡ []) × (out.world ≡ w))
  unfolding run_shadow_attempts
  run_shadow_attempts-Apart providers (some url) ranked wanted ids w out h =
      let e : [] ≡ out.shadow_attempts = ground arith in
      (subst (All IsApart) e tt, λ u k. (sym e, ground arith))
  run_shadow_attempts-Apart providers none ranked wanted ids w out h = (
    run_shadows-Apart (provider_by_id decision.capability_id [] providers)
        (selected_shadow_ids ids wanted ranked) 0 w out
        (provider_by_id-Indexed decision.capability_id [] providers no_providers-Indexed) h,
    λ u k. ground arith,
  )
