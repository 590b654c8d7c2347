-- ===== src/Capabilities/Registry/Packages.antt =====
-- What the package warnings of a registry say of its providers.
use api2agent.Common.{
  ◌≤◌, String, Bool, true, none, List, [], ◌∷◌, ◌≡◌, refl, inl, inr, arith, Option-cases, ◌↔◌,
  length, All,
}
use api2agent.Python.Value.{Value, get, truthy, str}
use api2agent.Capabilities.{ProviderCandidate}
use api2agent.Capabilities.Registry.{package_warning, provider_package_warnings}

module _ (repr : Value → String) (runner_in : String → String) (exists : String → Bool) where
  -- A provider can be run: it names a package whose runner exists.
  abbrev pub Runnable : ProviderCandidate → Type 0
  Runnable p =
      (truthy (get p.metadata "package_dir") ≡ true)
      × (exists (runner_in (str repr (get p.metadata "package_dir"))) ≡ true)

  package_warning-none :
      (p : ProviderCandidate) → (package_warning repr runner_in exists p ≡ none) ↔ Runnable p
  unfolding package_warning
  package_warning-none p = (λ h. (ground arith, ground arith), λ (h, k). rw (h, k))

  -- There is no package warning exactly when every provider can be run; there is at most one for
  -- each provider.
  pub provider_package_warnings-Runnable :
      (ps : List ProviderCandidate)
      → (provider_package_warnings repr runner_in exists ps ≡ [] → All Runnable ps)
        × (All Runnable ps → provider_package_warnings repr runner_in exists ps ≡ [])
        × (length (provider_package_warnings repr runner_in exists ps) ≤ length ps)
  unfolding provider_package_warnings
  provider_package_warnings-Runnable [] = (λ _. tt, λ _. refl, omega arith)
  provider_package_warnings-Runnable (p ∷ ps) =
      let (to, from, bound) = provider_package_warnings-Runnable ps in
      elim (Option-cases (package_warning repr runner_in exists p)) [
        | inl e ↦ (
          λ h. ((package_warning-none p).0 e, to (ground arith)),
          λ (r, rs). ground (arith, from rs),
          ground arith,
        )
        | inr (w, e) ↦ (
          λ h. ground arith,
          λ (r, rs). absurd (ground (arith, (package_warning-none p).1 r)),
          ground arith,
        )
      ]
