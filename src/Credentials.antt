-- ===== src/Credentials.antt =====
-- api2agent/credentials/models.py: a credential, a request to resolve one, and the answer.
pub mod Resolver
pub mod Config
pub mod Answers
pub mod Selection
pub mod Secrets
use api2agent.Common.{
  String, Bool, true, false, not, ◌&&◌, ◌||◌, Option, none, some, List, [], given, if◌then◌else◌,
}
use api2agent.Python.Time.{DateTime}
use api2agent.Python.Value.{Object}

pub data OwnerType : Type 0 where
  user project platform provider : OwnerType

abbrev pub owner_type_str : OwnerType → String
owner_type_str user = "user"
owner_type_str project = "project"
owner_type_str platform = "platform"
owner_type_str provider = "provider"

-- The source's `"none"` is `no_auth`, `no_injection` and `no_source` here.
pub data AuthType : Type 0 where
  api_key bearer basic oauth no_auth : AuthType

abbrev pub auth_type_str : AuthType → String
auth_type_str api_key = "api_key"
auth_type_str bearer = "bearer"
auth_type_str basic = "basic"
auth_type_str oauth = "oauth"
auth_type_str no_auth = "none"

abbrev pub auth_type_eq : AuthType → AuthType → Bool
auth_type_eq api_key api_key = true
auth_type_eq bearer bearer = true
auth_type_eq basic basic = true
auth_type_eq oauth oauth = true
auth_type_eq no_auth no_auth = true
auth_type_eq _ _ = false

pub data InjectionMode : Type 0 where
  header query body no_injection : InjectionMode

abbrev pub injection_mode_str : InjectionMode → String
injection_mode_str header = "header"
injection_mode_str query = "query"
injection_mode_str body = "body"
injection_mode_str no_injection = "none"

abbrev pub injection_mode_eq : InjectionMode → InjectionMode → Bool
injection_mode_eq header header = true
injection_mode_eq query query = true
injection_mode_eq body body = true
injection_mode_eq no_injection no_injection = true
injection_mode_eq _ _ = false

pub data CredentialSource : Type 0 where
  env config inline no_source : CredentialSource

abbrev pub source_str : CredentialSource → String
source_str env = "env"
source_str config = "config"
source_str inline = "inline"
source_str no_source = "none"

pub data CredentialStatus : Type 0 where
  active disabled : CredentialStatus

abbrev pub status_str : CredentialStatus → String
status_str active = "active"
status_str disabled = "disabled"

pub record CredentialDefinition : Type 0 where
  pub credential_id : String
  pub owner_type : OwnerType
  pub owner_id : String
  pub provider_id : String
  pub auth_type : AuthType
  pub injection_mode : InjectionMode
  pub injection_name : Option String
  pub scope : List String
  pub source : CredentialSource
  pub secret_ref : Option String
  pub secret_value : Option String
  pub status : CredentialStatus
  pub expires_at : Option DateTime
  pub rotation_hint : Option String

secret_source_error : CredentialSource → Option String → Option String → Option String
secret_source_error no_source ref value = none
secret_source_error env ref value =
    if given ref then none else some "env credentials require secret_ref"
secret_source_error _ ref value =
    if given value || given ref
    then none
    else some "config/inline credentials require secret_value or secret_ref"

-- The check that a definition passes when it is built; `none` is acceptance.
unfoldable pub validate_secret_source : CredentialDefinition → Option String
unfolding secret_source_error
validate_secret_source c =
    if auth_type_eq c.auth_type no_auth || injection_mode_eq c.injection_mode no_injection
    then none
    else secret_source_error c.source c.secret_ref c.secret_value

pub record CredentialResolutionRequest : Type 0 where
  pub project_id : String
  pub agent_id : Option String
  pub capability_id : String
  pub provider_id : String
  pub tool_id : String
  pub auth_type : AuthType
  pub injection_mode : InjectionMode
  pub injection_name : Option String
  pub credential : Option CredentialDefinition
  pub inline_credential : Option CredentialDefinition

pub record CredentialInjectionPatch : Type 0 where
  pub headers : List (String × String)
  pub query : List (String × String)
  pub body : List (String × String)

abbrev pub no_patch : CredentialInjectionPatch
no_patch = record { headers = []; query = []; body = [] }

pub record ResolvedCredential : Type 0 where
  pub resolved : Bool
  pub credential_reference : String
  pub injection_patch : CredentialInjectionPatch
  pub redacted_metadata : Object
  pub error_type : Option String
  pub error_message : Option String
