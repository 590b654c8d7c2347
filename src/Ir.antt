-- ===== src/Ir.antt =====
-- api2agent/ir/models.py: the description of a package's tools; and `classify_method` of
-- api2agent/safety/classifier.py.
pub mod Naming
pub mod Filters
use api2agent.Common.{
  String, Bool, true, false, Option, none, some, List, [], ◌∷◌, ◌==◌, contains, if◌then◌else◌,
}
use api2agent.Python.Text.{upper}
use api2agent.Python.Value.{Value, Object}

pub data SafetyLevel : Type 0 where
  read write delete unknown : SafetyLevel

pub record AuthConfig : Type 0 where
  pub auth_type : String
  pub env : Option String
  pub header : Option String
  pub description : Option String
  pub location : Option String
  pub name : Option String
  pub scheme_name : Option String
  pub scopes : List String
  pub source : Option String
  pub unsupported_reason : Option String
  pub credentials : List Object

pub record SecurityAlternative : Type 0 where
  pub schemes : List AuthConfig
  pub anonymous : Bool

pub record SecurityRequirements : Type 0 where
  pub alternatives : List SecurityAlternative

pub record ServerVariable : Type 0 where
  pub default : Option String
  pub enum : List String
  pub description : Option String

pub record ServerConfig : Type 0 where
  pub url : String
  pub resolved_url : String
  pub description : Option String
  pub variables : List (String × ServerVariable)
  pub source : String
  pub path : Option String
  pub operation_id : Option String
  pub profile_hints : List String
  pub is_relative : Bool

pub record Parameter : Type 0 where
  pub name : String
  pub location : String
  pub required : Bool
  pub schema : Object
  pub description : Option String
  pub example : Value
  pub examples : List Value

pub record RequestBody : Type 0 where
  pub required : Bool
  pub content_type : String
  pub schema : Object
  pub example : Value
  pub examples : List Value

pub record ResponseShape : Type 0 where
  pub status_code : String
  pub description : Option String
  pub content_type : Option String
  pub content_types : List String
  pub schema : Object
  pub example : Value
  pub examples : List Value

pub record Tool : Type 0 where
  pub name : String
  pub operation_id : Option String
  pub method : String
  pub path : String
  pub base_url : Option String
  pub description : String
  pub tags : List String
  pub parameters : List Parameter
  pub request_body : Option RequestBody
  pub responses : List ResponseShape
  pub safety : SafetyLevel
  pub auth : Option AuthConfig
  pub security_requirements : Option SecurityRequirements
  pub servers : List ServerConfig
  pub server_source : Option String

pub record Capability : Type 0 where
  pub name : String
  pub version : String
  pub base_url : String
  pub auth : AuthConfig
  pub security_requirements : Option SecurityRequirements
  pub servers : List ServerConfig
  pub tools : List Tool
  pub provider_region : Option String
  pub provider_regions : List String
  pub source : Option String

unfoldable pub classify_method : String → SafetyLevel
classify_method method =
    let normalized = upper method in
    if contains ("GET" ∷ "HEAD" ∷ "OPTIONS" ∷ []) normalized
    then read
    else if contains ("POST" ∷ "PUT" ∷ "PATCH" ∷ []) normalized
    then write
    else if normalized == "DELETE"
    then delete
    else unknown
