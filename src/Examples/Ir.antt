-- ===== src/Examples/Ir.antt =====
-- A filter at work.
use api2agent.Common.{
  List, ◌++◌, select, String, Bool, true, false, none, some, [], ◌∷◌, ◌≡◌, In, length,
}
use api2agent.Python.Number.{pos}
use api2agent.Ir.{Tool, Capability, AuthConfig, classify_method}
use api2agent.Ir.Filters.{
  ToolFilter, is_empty, is_included, filter_capability, filter_capability-tools, number_kept,
}

abbrev no_auth : AuthConfig
no_auth = record {
  auth_type = "none";
  env = none;
  header = none;
  description = none;
  location = none;
  name = none;
  scheme_name = none;
  scopes = [];
  source = none;
  unsupported_reason = none;
  credentials = [];
}

abbrev list_pets : Tool
list_pets = record {
  name = "list_pets";
  operation_id = some "listPets";
  method = "GET";
  path = "/pets";
  base_url = none;
  description = "";
  tags = "Pets" ∷ [];
  parameters = [];
  request_body = none;
  responses = [];
  safety = classify_method "get";
  auth = none;
  security_requirements = none;
  servers = [];
  server_source = none;
}

abbrev list_users : Tool
list_users = record list_pets {
  name = "list_users";
  operation_id = none;
  path = "/users";
  tags = [];
}

abbrev petstore : Capability
petstore = record {
  name = "petstore";
  version = "0.1.0";
  base_url = "";
  auth = no_auth;
  security_requirements = none;
  servers = [];
  tools = list_pets ∷ list_users ∷ [];
  provider_region = none;
  provider_regions = [];
  source = none;
}

abbrev pets_only : ToolFilter
pets_only = record {
  include_tags = "pets" ∷ [];
  include_paths = [];
  include_operations = [];
  max_tools = some (pos 1);
}

abbrev exact : String → String → Bool
exact path pattern = false

filter_capability-tools_example :
    let kept = (filter_capability exact petstore pets_only).tools in
    (is_empty pets_only ≡ true → filter_capability exact petstore pets_only ≡ petstore)
    × (is_empty pets_only ≡ false
        → (included : List Tool) × ((rest : List Tool) × (kept ++ rest ≡ included))
          × (length kept ≡ number_kept exact pets_only.max_tools (length included))
          × (included ≡ select (is_included exact pets_only) petstore.tools)
          × ((t : Tool)
              → In t included
              → In t petstore.tools × (is_included exact pets_only t ≡ true))
          × ((t : Tool)
              → In t petstore.tools
              → is_included exact pets_only t ≡ true
              → In t included))
filter_capability-tools_example = filter_capability-tools exact petstore pets_only
