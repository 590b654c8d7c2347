-- ===== src/Examples/Credentials.antt =====
-- Runs of the credential resolver and of its configuration.
use api2agent.Common.{
  not, ◌⊎◌, ◌||◌, is_some, any, true, false, none, some, [], ◌∷◌, ◌≡◌, ◌==◌, refl, arith, In,
}
use api2agent.Python.Number.{pos}
use api2agent.Python.Time.{DateTime}
use api2agent.Python.Value.{Value, Items, nil, cons, text, object, arr}
use api2agent.Credentials.{
  injection_mode_eq, no_auth, no_injection, auth_type_eq, CredentialDefinition,
  CredentialResolutionRequest, project, bearer, header, env, inline, active, disabled,
}
use api2agent.Credentials.Resolver.{
  lifecycle_error, answer_with, credential_matches_request, nothing_needed, secret_for,
  scope_allows, getenv, is_expired, Environ, resolve, candidates, find_config_credential,
  is_disabled,
}
use api2agent.Credentials.Config.{FromItems, credential_items, Loaded, ok, load_credential_config}
use api2agent.Credentials.Answers.{inline_error, Granted, resolve-Granted, resolve-inline}
use api2agent.Credentials.Selection.{fits, find_config_credential-fits}
use api2agent.Credentials.Secrets.{resolve-masked, public_part, masked, masked_request, SameNames}
use api2agent.Credentials.Config.{load_credential_config-FromItems}

abbrev pub today : DateTime
today = record {
  year = 2026;
  month = 3;
  day = 1;
  hour = 12;
  minute = 0;
  second = 0;
  microsecond = 0;
  offset = some (pos 0);
}

abbrev pub environment : Environ
environment = ("GITHUB_TOKEN", "ghp_1") ∷ []

abbrev other_environment : Environ
other_environment = ("GITHUB_TOKEN", "ghp_2") ∷ []

abbrev pub github : CredentialDefinition
github = record {
  credential_id = "github_main";
  owner_type = project;
  owner_id = "demo";
  provider_id = "github";
  auth_type = bearer;
  injection_mode = header;
  injection_name = some "Authorization";
  scope = "capability:issues" ∷ [];
  source = env;
  secret_ref = some "GITHUB_TOKEN";
  secret_value = none;
  status = active;
  expires_at = none;
  rotation_hint = none;
}

-- A credential that is given with a request and is switched off.
abbrev switched_off : CredentialDefinition
switched_off = record github { source = inline; secret_value = some "ghp_3"; status = disabled }

abbrev pub issues : CredentialResolutionRequest
issues = record {
  project_id = "demo";
  agent_id = none;
  capability_id = "issues";
  provider_id = "github";
  tool_id = "list_issues";
  auth_type = bearer;
  injection_mode = header;
  injection_name = none;
  credential = none;
  inline_credential = none;
}

abbrev with_inline : CredentialResolutionRequest
with_inline = record issues { inline_credential = some switched_off }

abbrev accept : Value → Loaded CredentialDefinition
accept v = ok github

abbrev one_item : Items
one_item = cons (object (("credential_id", text "github_main") ∷ [])) nil

resolve-Granted_example :
    ((any is_some (candidates (github ∷ []) issues) ≡ false)
      × ((auth_type_eq issues.auth_type no_auth
            || injection_mode_eq issues.injection_mode no_injection)
          ≡ true)
      × (resolve environment today (github ∷ []) issues ≡ nothing_needed issues))
    ⊎ Granted environment today
        (candidates (github ∷ []) issues)
        issues
        (resolve environment today (github ∷ []) issues)
unfolding resolve find_config_credential credential_matches_request scope_allows answer_with
    lifecycle_error is_disabled is_expired secret_for getenv
resolve-Granted_example = resolve-Granted environment today (github ∷ []) issues refl

resolve-inline_example :
    let a = resolve environment today (github ∷ []) with_inline in
    (a.error_type ≡ inline_error environment today with_inline switched_off)
    × (a.resolved ≡ not (is_some a.error_type))
resolve-inline_example =
    resolve-inline environment today (github ∷ []) with_inline switched_off refl refl

find_config_credential-fits_example :
    ((c : CredentialDefinition)
      → find_config_credential (github ∷ []) issues ≡ some c
      → In c (github ∷ [])
        × (fits issues c ≡ true)
        × ((d : CredentialDefinition)
            → In d (github ∷ [])
            → fits issues d ≡ true
            → (d.owner_id == issues.project_id) ≡ true
            → (c.owner_id == issues.project_id) ≡ true))
    × (find_config_credential (github ∷ []) issues ≡ none
        → (d : CredentialDefinition) → In d (github ∷ [])
        → fits issues d ≡ false)
find_config_credential-fits_example = find_config_credential-fits (github ∷ []) issues

same_names : SameNames environment other_environment
unfolding getenv
same_names k = ground arith

resolve-masked_example :
    public_part (resolve environment today (github ∷ []) with_inline)
    ≡ public_part
        (resolve other_environment today (masked github ∷ []) (masked_request with_inline))
resolve-masked_example =
    resolve-masked environment other_environment today (github ∷ []) with_inline same_names

load_credential_config-FromItems_example :
    (v : Value) × (vs : Items) × (some (arr one_item) ≡ some v)
    × (credential_items v ≡ ok vs)
    × FromItems accept vs (github ∷ [])
unfolding load_credential_config
load_credential_config-FromItems_example =
    load_credential_config-FromItems accept "credentials.json" true (some (arr one_item))
      (github ∷ []) refl
