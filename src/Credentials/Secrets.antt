-- ===== src/Credentials/Secrets.antt =====
-- Where a secret can show: in the injection patch of a granted answer, at one place, and nowhere else.
use api2agent.Common.{
  find_first-map, select-map, String, ◌&&◌, Option, none, some, List, [], ◌∷◌, ◌==◌, ◌≡◌, refl, ◌∙◌,
  ap, sym, inl, inr, arith, is_some, any, map, Bool-cases,
}
use api2agent.Python.Text.{lower_starts_with, lower_starts_with-append, lower, show_opt}
use api2agent.Python.Time.{DateTime}
use api2agent.Credentials.{
  AuthType, bearer, basic, CredentialSource, env, no_source, CredentialDefinition,
  CredentialResolutionRequest, no_patch, ResolvedCredential,
}
use api2agent.Credentials.Resolver.{
  answer_from, secret_from, Environ, getenv, resolve, candidates, first_answer, answer_with,
  lifecycle_error, scope_allows, secret_for, nothing_needed, find_config_credential, matches,
  prefer, credential_matches_request, is_project, scope_denied, missing_secret, missing_credential,
  formatted_secret, credential_reference, redacted_metadata,
}

-- Formatting twice adds no second scheme word.
formatted_secret_idem :
    (a : AuthType) (s : String) → formatted_secret a (formatted_secret a s) ≡ formatted_secret a s
unfolding formatted_secret
formatted_secret_idem bearer s = elim (Bool-cases (lower_starts_with s "bearer ")) [
  | inl t ↦ rw t (rw t)
  | inr f ↦ rw f (rw (lower_starts_with-append "Bearer " "bearer " s (unfold lower in refl)))
]
formatted_secret_idem basic s = elim (Bool-cases (lower_starts_with s "basic ")) [
  | inl t ↦ rw t (rw t)
  | inr f ↦ rw f (rw (lower_starts_with-append "Basic " "basic " s (unfold lower in refl)))
]
formatted_secret_idem _ s = refl

abbrev hide : Option String → Option String
hide none = none
hide (some s) = some ""

-- A credential without the text of its secret.
abbrev pub masked : CredentialDefinition → CredentialDefinition
masked c = record c { secret_value = hide c.secret_value }

abbrev masked_opt : Option CredentialDefinition → Option CredentialDefinition
masked_opt none = none
masked_opt (some c) = some (masked c)

abbrev pub masked_request : CredentialResolutionRequest → CredentialResolutionRequest
masked_request r = record r {
  credential = masked_opt r.credential;
  inline_credential = masked_opt r.inline_credential;
}

-- An answer without what it injects.
abbrev pub public_part : ResolvedCredential → ResolvedCredential
public_part a = record a { injection_patch = no_patch }

-- The same variables are set, to whatever values.
abbrev pub SameNames : Environ → Environ → Type 0
SameNames e e' = (k : String) → is_some (getenv k e) ≡ is_some (getenv k e')

secret_from-masked :
    (s : CredentialSource) (e e' : Environ) (c : CredentialDefinition)
    → SameNames e e'
    → is_some (secret_from s e c) ≡ is_some (secret_from s e' (masked c))
unfolding secret_from
secret_from-masked no_source e e' c same = refl
secret_from-masked env e e' c same = same (show_opt c.secret_ref)
secret_from-masked _ e e' c same = ground (arith, same (show_opt c.secret_ref))

secret_for-masked :
    (e e' : Environ) (c : CredentialDefinition)
    → SameNames e e'
    → is_some (secret_for e c) ≡ is_some (secret_for e' (masked c))
unfolding secret_for
secret_for-masked e e' c same = ground (arith, secret_from-masked c.source e e' c same)

-- The answer but for its patch depends on whether there is a secret alone.
answer_with-masked :
    (e e' : Environ) (now : DateTime) (r : CredentialResolutionRequest) (c : CredentialDefinition)
    → SameNames e e'
    → public_part (answer_with e now r c)
      ≡ public_part (answer_with e' now (masked_request r) (masked c))
unfolding answer_with lifecycle_error scope_denied missing_secret credential_reference
    redacted_metadata scope_allows
answer_with-masked e e' now r c same = ground (arith, secret_for-masked e e' c same)

matches-masked :
    (cs : List CredentialDefinition) (r : CredentialResolutionRequest)
    → matches (map masked cs) (masked_request r) ≡ map masked (matches cs r)
unfolding matches
matches-masked cs r =
    select-map masked (λ c. (c.provider_id == r.provider_id) && credential_matches_request c r)
      (λ c. (c.provider_id == r.provider_id) && credential_matches_request c (masked_request r))
      (λ c. unfold credential_matches_request scope_allows in ground arith) cs

prefer-masked :
    (p : String) (cs : List CredentialDefinition)
    → prefer p (map masked cs) ≡ masked_opt (prefer p cs)
unfolding prefer
prefer-masked p [] = refl
prefer-masked p (c ∷ cs) = ground (
  arith,
  find_first-map masked (λ d. d.owner_id == p) (λ d. d.owner_id == p) (λ d. refl) cs,
  find_first-map masked (λ d. is_project d.owner_type && (d.owner_id == "local"))
      (λ d. is_project d.owner_type && (d.owner_id == "local")) (λ d. refl) cs,
)

candidates-masked :
    (cs : List CredentialDefinition) (r : CredentialResolutionRequest)
    → candidates (map masked cs) (masked_request r) ≡ map masked_opt (candidates cs r)
unfolding candidates find_config_credential
candidates-masked cs r = rw matches-masked (rw prefer-masked)

first_answer-masked :
    (e e' : Environ) (now : DateTime) (r : CredentialResolutionRequest)
    (cs : List (Option CredentialDefinition))
    → SameNames e e'
    → public_part (first_answer e now r cs)
      ≡ public_part (first_answer e' now (masked_request r) (map masked_opt cs))
unfolding first_answer missing_credential
first_answer-masked e e' now r [] same = refl
first_answer-masked e e' now r (none ∷ cs) same = first_answer-masked e e' now r cs same
first_answer-masked e e' now r (some c ∷ cs) same =
    ground (arith, answer_with-masked e e' now r c same, first_answer-masked e e' now r cs same)

any-masked :
    (cs : List (Option CredentialDefinition)) → any is_some (map masked_opt cs) ≡ any is_some cs
any-masked [] = refl
any-masked (none ∷ cs) = any-masked cs
any-masked (some c ∷ cs) = refl

answer_from-masked :
    (e e' : Environ) (now : DateTime) (r : CredentialResolutionRequest)
    (cs : List (Option CredentialDefinition))
    → SameNames e e'
    → public_part (answer_from e now r cs)
      ≡ public_part (answer_from e' now (masked_request r) (map masked_opt cs))
unfolding answer_from nothing_needed
answer_from-masked e e' now r cs same =
    ground (arith, any-masked cs, first_answer-masked e e' now r cs same)

-- Whatever `resolve` says outside the injection patch is said without the secrets: it is the same
-- if every secret text is blanked and the set environment variables hold other values.
pub resolve-masked :
    (e e' : Environ) (now : DateTime) (configured : List CredentialDefinition)
    (r : CredentialResolutionRequest)
    → SameNames e e'
    → public_part (resolve e now configured r)
      ≡ public_part (resolve e' now (map masked configured) (masked_request r))
unfolding resolve
resolve-masked e e' now configured r same =
    answer_from-masked e e' now r (candidates configured r) same
    ∙ ap (λ cs. public_part (answer_from e' now (masked_request r) cs))
        (sym (candidates-masked configured r))
