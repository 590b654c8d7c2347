-- ===== src/Credentials/Resolver.antt =====
-- api2agent/credentials/resolver.py: `LocalCredentialResolver`. The environment is the dict `env`
-- and the clock's time `now`; the configured credentials are a list.
use api2agent.Common.{
  String, Bool, true, false, not, ◌&&◌, ◌||◌, Option, none, some, List, [], ◌∷◌, ◌==◌, ◌<>◌, given,
  is_some, any, select, find_first, head?, contains, text_or, opt_eq, lookup, if◌then◌else◌,
}
use api2agent.Python.Text.{lower_starts_with, show_opt}
use api2agent.Python.Time.{DateTime, time_le, assume_utc, isoformat}
use api2agent.Python.Value.{Object, Value, null, text, arr, items, texts, opt_text}
use api2agent.Credentials.{
  OwnerType, project, owner_type_str, AuthType, bearer, basic, no_auth, auth_type_str, auth_type_eq,
  InjectionMode, header, query, body, no_injection, injection_mode_str, injection_mode_eq,
  CredentialSource, env, config, inline, no_source, source_str, CredentialStatus, active, disabled,
  status_str, CredentialDefinition, CredentialResolutionRequest, CredentialInjectionPatch, no_patch,
  ResolvedCredential,
}

-- `os.environ`
abbrev pub Environ : Type 0
Environ = List (String × String)

unfoldable pub getenv : String → Environ → Option String
unfolding lookup
getenv name environ = lookup name environ

reference_of : CredentialSource → CredentialDefinition → String
reference_of env c = "env:" <> show_opt c.secret_ref
reference_of config c = "config:" <> c.credential_id
reference_of inline c = "inline:" <> c.credential_id
reference_of no_source c = "none"

unfoldable pub credential_reference : CredentialDefinition → String
unfolding reference_of
credential_reference c = reference_of c.source c

unfoldable pub secret_from : CredentialSource → Environ → CredentialDefinition → Option String
secret_from no_source environ c = some ""
secret_from env environ c = getenv (show_opt c.secret_ref) environ
secret_from _ environ c = elim c.secret_value [
  | some value ↦ some value
  | none ↦ if given c.secret_ref then getenv (show_opt c.secret_ref) environ else none
]

unfoldable pub secret_for : Environ → CredentialDefinition → Option String
unfolding secret_from
secret_for environ c =
    if auth_type_eq c.auth_type no_auth then some "" else secret_from c.source environ c

unfoldable pub formatted_secret : AuthType → String → String
formatted_secret bearer secret =
    if lower_starts_with secret "bearer " then secret else "Bearer " <> secret
formatted_secret basic secret =
    if lower_starts_with secret "basic " then secret else "Basic " <> secret
formatted_secret _ secret = secret

unfoldable pub default_injection_name : AuthType → String
default_injection_name bearer = "Authorization"
default_injection_name basic = "Authorization"
default_injection_name _ = "X-API-Key"

unfoldable pub patch_at : InjectionMode → String → String → CredentialInjectionPatch
patch_at header name value = record no_patch { headers = (name, value) ∷ [] }
patch_at query name value = record no_patch { query = (name, value) ∷ [] }
patch_at body name value = record no_patch { body = (name, value) ∷ [] }
patch_at no_injection name value = no_patch

unfoldable pub injection_patch : CredentialDefinition → String → CredentialInjectionPatch
unfolding patch_at default_injection_name
injection_patch c secret =
    patch_at c.injection_mode (text_or c.injection_name (default_injection_name c.auth_type))
      (formatted_secret c.auth_type secret)

expires_text : Option DateTime → Value
expires_text none = null
expires_text (some t) = text (isoformat t)

unfoldable pub redacted_metadata : CredentialDefinition → Object
unfolding expires_text
redacted_metadata c =
    ("credential_id", text c.credential_id)
    ∷ ("owner_type", text (owner_type_str c.owner_type))
    ∷ ("owner_id", text c.owner_id)
    ∷ ("provider_id", text c.provider_id)
    ∷ ("auth_type", text (auth_type_str c.auth_type))
    ∷ ("injection_mode", text (injection_mode_str c.injection_mode))
    ∷ ("injection_name", opt_text c.injection_name)
    ∷ ("source", text (source_str c.source))
    ∷ ("secret_ref", opt_text c.secret_ref)
    ∷ ("scope", arr (items (texts c.scope)))
    ∷ ("status", text (status_str c.status))
    ∷ ("expires_at", expires_text c.expires_at)
    ∷ ("rotation_hint", opt_text c.rotation_hint)
    ∷ []

-- The answer that refuses a credential, with its redacted description.
abbrev pub refusal : CredentialDefinition → String → String → ResolvedCredential
refusal c error_type message = record {
  resolved = false;
  credential_reference = credential_reference c;
  injection_patch = no_patch;
  redacted_metadata = redacted_metadata c;
  error_type = some error_type;
  error_message = some message;
}

unfoldable pub is_disabled : CredentialStatus → Bool
is_disabled disabled = true
is_disabled active = false

unfoldable pub is_expired : DateTime → Option DateTime → Bool
is_expired now none = false
is_expired now (some t) = time_le (assume_utc t) now

unfoldable pub lifecycle_error : DateTime → CredentialDefinition → Option ResolvedCredential
lifecycle_error now c =
    if is_disabled c.status
    then some
        (refusal c "credential_disabled" ("Credential is disabled: " <> credential_reference c))
    else if is_expired now c.expires_at
    then some (refusal c "credential_expired" ("Credential is expired: " <> credential_reference c))
    else none

scope_lists : List String → CredentialResolutionRequest → Bool
scope_lists [] r = true
scope_lists allowed r =
    contains allowed "*:*"
    || contains allowed "*"
    || contains allowed ("provider:" <> r.provider_id)
    || contains allowed ("capability:" <> r.capability_id)
    || contains allowed ("tool:" <> r.tool_id)
    || contains allowed r.capability_id
    || contains allowed r.tool_id

unfoldable pub scope_allows : CredentialDefinition → CredentialResolutionRequest → Bool
unfolding scope_lists
scope_allows c r = scope_lists c.scope r

unfoldable pub scope_denied :
    CredentialDefinition → CredentialResolutionRequest → ResolvedCredential
scope_denied c r = refusal c "credential_scope_denied" (
    "Credential scope does not allow capability="
    <> (r.capability_id <> (", tool=" <> (r.tool_id <> "."))))

unfoldable pub missing_secret : CredentialDefinition → ResolvedCredential
missing_secret c =
    refusal c "missing_credential_secret"
      ("Credential secret is unavailable: " <> credential_reference c)

unfoldable pub credential_matches_request :
    CredentialDefinition → CredentialResolutionRequest → Bool
credential_matches_request c r =
    if not (auth_type_eq r.auth_type no_auth) && not (auth_type_eq c.auth_type r.auth_type)
    then false
    else if not (injection_mode_eq r.injection_mode no_injection)
        && not (injection_mode_eq c.injection_mode r.injection_mode)
    then false
    else if given r.injection_name
        && given c.injection_name
        && not (opt_eq c.injection_name r.injection_name)
    then false
    else if given r.injection_name && not (given c.injection_name)
    then false
    else scope_allows c r

abbrev pub is_project : OwnerType → Bool
is_project project = true
is_project _ = false

-- The configured credentials that fit a request.
unfoldable pub matches :
    List CredentialDefinition → CredentialResolutionRequest → List CredentialDefinition
matches configured r =
    select (λ c. (c.provider_id == r.provider_id) && credential_matches_request c r) configured

unfoldable pub prefer : String → List CredentialDefinition → Option CredentialDefinition
prefer project_id fitting = elim (find_first (λ c. c.owner_id == project_id) fitting) [
  | some c ↦ some c
  | none ↦ elim (find_first (λ c. is_project c.owner_type && (c.owner_id == "local")) fitting) [
    | some c ↦ some c
    | none ↦ head? fitting
  ]
]

unfoldable pub find_config_credential :
    List CredentialDefinition → CredentialResolutionRequest → Option CredentialDefinition
unfolding matches prefer
find_config_credential configured r = prefer r.project_id (matches configured r)

-- The order in which credentials are tried.
unfoldable pub candidates :
    List CredentialDefinition → CredentialResolutionRequest → List (Option CredentialDefinition)
candidates configured r =
    r.inline_credential ∷ find_config_credential configured r ∷ r.credential ∷ []

-- A request that needs no credential, and has none.
unfoldable pub nothing_needed : CredentialResolutionRequest → ResolvedCredential
nothing_needed r = record {
  resolved = true;
  credential_reference = "none";
  injection_patch = no_patch;
  redacted_metadata = ("source", text "none") ∷ ("provider_id", text r.provider_id) ∷ [];
  error_type = none;
  error_message = none;
}

unfoldable pub missing_credential : CredentialResolutionRequest → ResolvedCredential
missing_credential r = record {
  resolved = false;
  credential_reference = "missing";
  injection_patch = no_patch;
  redacted_metadata = [];
  error_type = some "missing_credential";
  error_message = some ("No credential configured for provider: " <> r.provider_id);
}

module _ (environ : Environ) (now : DateTime) where
  -- The loop's body for a credential of the request's provider.
  unfoldable pub answer_with :
      CredentialResolutionRequest → CredentialDefinition → ResolvedCredential
  answer_with r c = elim (lifecycle_error now c) [
    | some error ↦ error
    | none ↦ if not (scope_allows c r) then scope_denied c r else elim (secret_for environ c) [
      | none ↦ missing_secret c
      | some secret ↦ record {
        resolved = true;
        credential_reference = credential_reference c;
        injection_patch = injection_patch c secret;
        redacted_metadata = redacted_metadata c;
        error_type = none;
        error_message = none;
      }
    ]
  ]

  unfoldable pub first_answer :
      CredentialResolutionRequest → List (Option CredentialDefinition) → ResolvedCredential
  first_answer r [] = missing_credential r
  first_answer r (none ∷ rest) = first_answer r rest
  first_answer r (some c ∷ rest) =
      if c.provider_id == r.provider_id then answer_with r c else first_answer r rest

  -- `resolve` from its candidates on.
  unfoldable pub answer_from :
      CredentialResolutionRequest → List (Option CredentialDefinition) → ResolvedCredential
  answer_from r cs =
      if (auth_type_eq r.auth_type no_auth || injection_mode_eq r.injection_mode no_injection)
        && not (any is_some cs)
      then nothing_needed r
      else first_answer r cs

  unfoldable pub resolve :
      List CredentialDefinition → CredentialResolutionRequest → ResolvedCredential
  unfolding answer_from first_answer candidates
  resolve configured r = answer_from r (candidates configured r)
