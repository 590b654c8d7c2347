-- ===== src/Capabilities/Execution/Environment.antt =====
-- What a run of a provider leaves: the environment it found, and at most one event.
use api2agent.Common.{
  All, ◌⊎◌, String, true, false, Option, none, some, List, [], ◌∷◌, ◌==◌, ◌≡◌, refl, ◌∙◌, ap, sym,
  inl, inr, arith, eq_iff, insert, lookup-insert, lookup-erase, contains, Bool-cases, Option-cases,
  if◌then◌else◌,
}
use api2agent.Python.Value.{Object, get, truthy}
use api2agent.Credentials.{ResolvedCredential}
use api2agent.Credentials.Resolver.{Environ, getenv}
use api2agent.Capabilities.{ProviderCandidate}
use api2agent.Capabilities.Execution.{
  text_or, given, float, str, Ran, returned, threw, Runner, Runtime, bridge_keys, previous_env,
  put_back, restore, credential_definition, bridge_env, after_run, run_resolved, execute_provider,
}

-- The environments give a name the same value.
abbrev pub SameAt : String → Environ → Environ → Type 0
SameAt name e e' = getenv name e ≡ getenv name e'

getenv-put_back :
    (name key : String) (value : Option String) (e : Environ)
    → getenv name (put_back key value e) ≡ (if key == name then value else getenv name e)
unfolding getenv put_back
getenv-put_back name key none e = lookup-erase key name e
getenv-put_back name key (some value) e = lookup-insert key name value e

-- After the restoring, the saved names have their values of before, and the others those that the
-- run has left.
pub getenv-restore :
    (name : String) (keys : List String) (before left : Environ)
    → getenv name (restore (previous_env keys before) left)
      ≡ (if contains keys name then getenv name before else getenv name left)
unfolding previous_env restore
getenv-restore name [] before left = refl
getenv-restore name (key ∷ keys) before left = elim (Bool-cases (key == name)) [
  | inl same ↦
      let is_name : key ≡ name = (eq_iff key name).0 same in
      ground (
        arith,
        getenv-restore name keys before (put_back key (getenv key before) left),
        getenv-put_back name key (getenv key before) left,
        ap (λ k. getenv k before) is_name,
      )
  | inr other ↦ ground (
    arith,
    getenv-restore name keys before (put_back key (getenv key before) left),
    getenv-put_back name key (getenv key before) left,
  )
]

abbrev pub left_by : Ran → Environ
left_by (returned v e) = e
left_by (threw e) = e

pub contains-false :
    (name : String) (keys : List String)
    → contains keys name ≡ false
    → All (λ k. (k == name) ≡ false) keys
contains-false name [] h = tt
contains-false name (k ∷ keys) h = (ground arith, contains-false name keys (ground arith))

pub insert-SameAt :
    (name key value : String) (e e' : Environ)
    → (key == name) ≡ false
    → SameAt name e e'
    → SameAt name e (insert key value e')
unfolding getenv
insert-SameAt name key value e e' other same =
    same ∙ sym (lookup-insert key name value e' ∙ rw other refl)

-- No runner that can be loaded changes the variable in its `execute_tool`.
abbrev pub Leaves : Runtime → String → Type 0
Leaves rt name =
    (path : String) (runner : Runner) (tool : String) (params : Object) (e : Environ)
    → rt.load_runner path ≡ some runner
    → SameAt name e (left_by (runner.execute_tool tool params e))

module _ (rt : Runtime) (p : ProviderCandidate) (capability_id : String) (params : Object)
    (proxy_url : Option String) (decision_id : String) (environ : Environ) (name : String) where
  bridge_env-SameAt :
      (credential : ResolvedCredential)
      → contains bridge_keys name ≡ false
      → SameAt name environ
          (bridge_env rt p capability_id proxy_url decision_id credential.injection_patch environ)
  unfolding bridge_env
  bridge_env-SameAt credential other =
      let others = contains-false name bridge_keys other in
      let patch = credential.injection_patch in
      let shared = insert-SameAt name _ (rt.dumps patch.body) _ _ others.1.1.1.1.1.1.1.0 (
        insert-SameAt name _ (rt.dumps patch.query) _ _ others.1.1.1.1.1.1.0 (
          insert-SameAt name _ (rt.dumps patch.headers) _ _ others.1.1.1.1.1.0 (
            insert-SameAt name _ decision_id _ _ others.1.1.1.0 (
              insert-SameAt name _ (str rt.repr (float p.estimated_cost)) _ _ others.1.0 (
                insert-SameAt name _ p.provider_id _ _ others.0
                  (insert-SameAt name _ capability_id environ environ others.1.1.1.1.0 refl)))))) in
      elim (Bool-cases (given proxy_url)) [
        | inl url ↦ rw url (insert-SameAt name _ (text_or proxy_url "") _ _ others.1.1.0 shared)
        | inr no_url ↦ rw no_url shared
      ]

  after_run-SameAt :
      (info : Object) (credential : ResolvedCredential) (ran : Ran)
      → (contains bridge_keys name ≡ true) ⊎ SameAt name environ (left_by ran)
      → SameAt name environ (after_run rt info credential environ ran).1
  unfolding after_run
  after_run-SameAt info credential (returned v left) (inl own) =
      sym (getenv-restore name bridge_keys environ left ∙ rw own refl)
  after_run-SameAt info credential (returned v left) (inr same) =
      ground (arith, getenv-restore name bridge_keys environ left)
  after_run-SameAt info credential (threw left) (inl own) =
      sym (getenv-restore name bridge_keys environ left ∙ rw own refl)
  after_run-SameAt info credential (threw left) (inr same) =
      ground (arith, getenv-restore name bridge_keys environ left)

  -- What the run leaves at the name is what was there, or the name is restored.
  kept :
      (path : String) (runner : Runner) (credential : ResolvedCredential)
      → rt.load_runner path ≡ some runner
      → (contains bridge_keys name ≡ true) ⊎ Leaves rt name
      → let seen =
          bridge_env rt p capability_id proxy_url decision_id credential.injection_patch environ in
        (contains bridge_keys name ≡ true)
        ⊎ SameAt name environ (left_by (runner.execute_tool p.tool_id params seen))
  kept path runner credential loaded (inl own) = inl own
  kept path runner credential loaded (inr leaves) = elim (Bool-cases (contains bridge_keys name)) [
    | inl own ↦ inl own
    | inr other ↦
        inr (bridge_env-SameAt credential other ∙ leaves path runner p.tool_id params _ loaded)
  ]

  run_resolved-SameAt :
      (path : String) (runner : Runner) (credential : ResolvedCredential)
      → rt.load_runner path ≡ some runner
      → (contains bridge_keys name ≡ true) ⊎ Leaves rt name
      → SameAt name environ
          (run_resolved rt p capability_id params proxy_url decision_id environ runner credential).1
  unfolding run_resolved
  run_resolved-SameAt path runner credential loaded ok = elim (Bool-cases credential.resolved) [
    | inr refused ↦ rw refused refl
    | inl granted ↦ rw granted (after_run-SameAt _ _ _ (kept path runner credential loaded ok))
  ]

  -- A run leaves each of its own variables, and each that no runner's `execute_tool` changes, as it
  -- was, whether it fails before the runner, or the runner returns or raises.
  pub execute_provider-SameAt :
      (contains bridge_keys name ≡ true) ⊎ Leaves rt name
      → SameAt name environ
          (execute_provider rt p capability_id params proxy_url decision_id environ).1
  unfolding execute_provider
  execute_provider-SameAt ok =
      let path = rt.runner_in (str rt.repr (get p.metadata "package_dir")) in
      elim (Bool-cases (truthy (get p.metadata "package_dir"))) [
        | inr missing ↦ rw missing refl
        | inl named ↦ elim (Bool-cases (rt.exists path)) [
          | inr missing ↦ rw named (rw missing refl)
          | inl there ↦ elim (Option-cases (rt.load_runner path)) [
            | inl e ↦ rw named (rw there (rw e refl))
            | inr (runner, e) ↦
                elim (Option-cases
                  (credential_definition rt p runner.auth (get p.metadata "credential"))) [
                    | inl f ↦ rw named (rw there (rw e (rw f refl)))
                    | inr (credential, f) ↦
                        rw named (rw there (rw e (rw f (run_resolved-SameAt path runner _ e ok))))
                  ]
          ]
        ]
      ]
