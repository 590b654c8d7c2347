-- ===== src/Credentials/Answers.antt =====
-- What `resolve` may answer: a credential that it grants has passed every check.
use api2agent.Common.{
  if◌then◌else◌, ◌⊎◌, String, Bool, true, false, not, ◌&&◌, ◌||◌, Option, none, some, List, [], ◌∷◌,
  ◌==◌, ◌≡◌, refl, inl, inr, arith, In, is_some, any, Bool-cases, Option-cases,
}
use api2agent.Python.Time.{DateTime}
use api2agent.Credentials.{
  no_injection, injection_mode_eq, CredentialDefinition, CredentialResolutionRequest,
  ResolvedCredential, no_auth, auth_type_eq,
}
use api2agent.Credentials.Resolver.{
  nothing_needed, candidates, resolve, Environ, first_answer, answer_with, lifecycle_error,
  scope_allows, secret_for, injection_patch, scope_denied, missing_secret, is_disabled, is_expired,
  missing_credential,
}

-- `c`, with this secret, may be used for the request, and the answer injects it.
pub record Grants (environ : Environ) (now : DateTime) (r : CredentialResolutionRequest)
    (c : CredentialDefinition) (secret : String) (a : ResolvedCredential) : Type 0 where
  pub own : (c.provider_id == r.provider_id) ≡ true
  pub enabled : is_disabled c.status ≡ false
  pub current : is_expired now c.expires_at ≡ false
  pub in_scope : scope_allows c r ≡ true
  pub found : secret_for environ c ≡ some secret
  pub patch : a.injection_patch ≡ injection_patch c secret

abbrev pub Granted :
    Environ
    → DateTime
    → List (Option CredentialDefinition)
    → CredentialResolutionRequest
    → ResolvedCredential
    → Type 0
Granted environ now cs r a =
    (c : CredentialDefinition) × (secret : String) × In (some c) cs
    × Grants environ now r c secret a

module _ (environ : Environ) (now : DateTime) (r : CredentialResolutionRequest) where
  answer_with-Grants :
      (c : CredentialDefinition)
      → (c.provider_id == r.provider_id) ≡ true
      → (answer_with environ now r c).resolved ≡ true
      → (secret : String) × Grants environ now r c secret (answer_with environ now r c)
  unfolding answer_with lifecycle_error scope_denied missing_secret
  answer_with-Grants c own h = elim (Option-cases (secret_for environ c)) [
    | inl absent ↦ absurd (ground (arith, absent))
    | inr (secret, e) ↦ (
      secret,
      record {
        own = own;
        enabled = ground arith;
        current = ground arith;
        in_scope = ground arith;
        found = e;
        patch = ground arith;
      },
    )
  ]

  first_answer-Granted :
      (cs : List (Option CredentialDefinition))
      → (first_answer environ now r cs).resolved ≡ true
      → Granted environ now cs r (first_answer environ now r cs)
  unfolding first_answer missing_credential
  first_answer-Granted [] h = cc
  first_answer-Granted (none ∷ cs) h =
      let (c, secret, i, g) = first_answer-Granted cs h in (c, secret, inr i, g)
  first_answer-Granted (some c ∷ cs) h = elim (Bool-cases (c.provider_id == r.provider_id)) [
    | inl own ↦
        rw own
          (let (secret, g) = answer_with-Grants c own (rw own at h) in (c, secret, inl refl, g))
    | inr other ↦
        rw other
          (let (d, secret, i, g) = first_answer-Granted cs (rw other at h) in (d, secret, inr i, g))
  ]

-- The error that a credential of the provider deserves, if any.
abbrev pub inline_error :
    Environ → DateTime → CredentialResolutionRequest → CredentialDefinition → Option String
inline_error environ now r c =
    if is_disabled c.status
    then some "credential_disabled"
    else if is_expired now c.expires_at
    then some "credential_expired"
    else if not (scope_allows c r)
    then some "credential_scope_denied"
    else if not (is_some (secret_for environ c))
    then some "missing_credential_secret"
    else none

module _ (environ : Environ) (now : DateTime) where
  -- A granted answer is the one for requests that need no credential and have none, or it injects
  -- the secret of a candidate of the provider that is enabled, current and in scope.
  pub resolve-Granted :
      (configured : List CredentialDefinition) (r : CredentialResolutionRequest)
      → (resolve environ now configured r).resolved ≡ true
      → ((any is_some (candidates configured r) ≡ false)
          × ((auth_type_eq r.auth_type no_auth || injection_mode_eq r.injection_mode no_injection)
              ≡ true)
          × (resolve environ now configured r ≡ nothing_needed r))
        ⊎ Granted environ now (candidates configured r) r (resolve environ now configured r)
  resolve-Granted configured r h = elim (Bool-cases (idle && not (any is_some cs))) [
    | inl skip ↦ inl (ground arith, ground arith, skipped skip)
    | inr try ↦ inr (rw (tried try) (first_answer-Granted environ now r cs (rw (tried try) at h)))
  ]
    where
      cs : List (Option CredentialDefinition)
      cs = candidates configured r

      idle : Bool
      idle = auth_type_eq r.auth_type no_auth || injection_mode_eq r.injection_mode no_injection

      skipped :
          (idle && not (any is_some cs)) ≡ true
          → resolve environ now configured r ≡ nothing_needed r
      skipped e = unfold resolve in rw e

      tried :
          (idle && not (any is_some cs)) ≡ false
          → resolve environ now configured r ≡ first_answer environ now r cs
      tried e = unfold resolve in rw e

  -- An inline credential of the provider decides alone, whatever is configured or sent with the
  -- request: it is refused if disabled, else if expired, else if out of scope, else if without
  -- secret, and is granted without an error otherwise.
  pub resolve-inline :
      (configured : List CredentialDefinition) (r : CredentialResolutionRequest)
      (c : CredentialDefinition)
      → r.inline_credential ≡ some c
      → (c.provider_id == r.provider_id) ≡ true
      → let a = resolve environ now configured r in
        (a.error_type ≡ inline_error environ now r c) × (a.resolved ≡ not (is_some a.error_type))
  unfolding resolve answer_with lifecycle_error scope_denied missing_secret
  resolve-inline configured r c e own = (ground arith, ground arith)
