-- ===== src/Capabilities/Registry.antt =====
-- api2agent/capabilities/registry.py: the warnings about the providers of a registry, and the steps
-- of its loading. Reading the file, `json.loads` and the validation of the models are parameters.
pub mod Packages
pub mod Names
use api2agent.Common.{
  sym, subst, ℕ, ◌≤◌, String, Bool, true, false, ◌&&◌, not, Option, none, some, List, [], ◌∷◌, ◌==◌,
  ◌<>◌, ◌≡◌, refl, ap, ◌⊎◌, inl, inr, arith, eq_iff, lookup, Bool-cases, Option-cases, ◌↔◌,
  if◌then◌else◌, length, All, In, map, any,
}
use api2agent.Python.Value.{Value, Object, text, obj, entries, get, truthy, str}
use api2agent.Capabilities.{ProviderCandidate}
use api2agent.Capabilities.Naming.{is_alpha_capability_id, capability_id_rule_message}

pub data Severity : Type 0 where
  info warning error : Severity

pub record RegistryWarning : Type 0 where
  pub severity : Severity
  pub code : String
  pub provider_id : String
  pub message : String

module _ (repr : Value → String) (runner_in : String → String) (exists : String → Bool) where
  -- The warning about one provider's package, if there is one.
  unfoldable pub package_warning : ProviderCandidate → Option RegistryWarning
  package_warning p =
      let package_dir = get p.metadata "package_dir" in
      let runner_path = runner_in (str repr package_dir) in
      if not (truthy package_dir)
      then some (record {
        severity = error;
        code = "missing_package_dir";
        provider_id = p.provider_id;
        message = "missing metadata.package_dir";
      })
      else if not (exists runner_path)
      then some (record {
        severity = error;
        code = "missing_runner";
        provider_id = p.provider_id;
        message = "runner not found at " <> runner_path;
      })
      else none

  unfoldable pub provider_package_warnings : List ProviderCandidate → List RegistryWarning
  unfolding package_warning
  provider_package_warnings [] = []
  provider_package_warnings (p ∷ ps) = elim (package_warning p) [
    | some w ↦ w ∷ provider_package_warnings ps
    | none ↦ provider_package_warnings ps
  ]

abbrev pub same_key : String × String → String × String → Bool
same_key (a, b) (c, d) = (a == c) && (b == d)

abbrev pub seen_before : List (String × String) → String × String → Bool
seen_before seen key = any (same_key key) seen

abbrev pub naming_warning : ProviderCandidate → RegistryWarning
naming_warning p = record {
  severity = warning;
  code = "non_alpha_capability_id";
  provider_id = p.provider_id;
  message = capability_id_rule_message p.capability_id;
}

-- The loop, from the pairs of provider and capability that it has seen.
unfoldable pub warn_names : List (String × String) → List ProviderCandidate → List RegistryWarning
warn_names seen [] = []
warn_names seen (p ∷ ps) =
    let key : String × String = (p.provider_id, p.capability_id) in
    let again = warn_names seen ps in
    let rest = warn_names (key ∷ seen) ps in
    if seen_before seen key
    then again
    else if is_alpha_capability_id p.capability_id
    then rest
    else naming_warning p ∷ rest

unfoldable pub capability_naming_warnings : List ProviderCandidate → List RegistryWarning
unfolding warn_names
capability_naming_warnings = warn_names []

pub data Loaded {ℓ} (A : Type ℓ) : Type ℓ where
  ok : A → Loaded A
  err : String → Loaded A

pub record ProviderRegistry : Type 0 where
  pub contract_version : String
  pub providers : List ProviderCandidate

abbrev pub contract : String
contract = "provider_registry.v0.1"

-- The `contract_version` of a payload: its default where it is missing, `none` where it is no text.
version_of : Option Value → Option String
version_of none = some contract
version_of (some (text s)) = some s
version_of (some v) = none

unfoldable pub validate_contract_version : String → Bool
validate_contract_version value = value == contract

-- The model's reading of the providers, `none` where they do not validate, and the text of its errors.
module _ (read_providers : Object → Option (List ProviderCandidate))
    (errors_of : Object → String) where
  -- `ProviderRegistry.model_validate`, and the search for the version among its errors.
  validate_registry : Object → Loaded ProviderRegistry
  validate_registry payload = elim (version_of (lookup "contract_version" payload)) [
    | none ↦ err ("Registry schema is invalid: " <> errors_of payload)
    | some version ↦
        if not (validate_contract_version version)
        then err ("Unsupported provider registry contract_version: " <> version)
        else elim (read_providers payload) [
          | none ↦ err ("Registry schema is invalid: " <> errors_of payload)
          | some providers ↦ ok (record { contract_version = version; providers = providers })
        ]
  ]

  -- `load_provider_registry` from the text of the file on: `none` is a file that cannot be read,
  -- and the parser gives a value or its message.
  unfoldable pub load_provider_registry : String → Option (Value ⊎ String) → Loaded ProviderRegistry
  unfolding validate_registry version_of validate_contract_version
  load_provider_registry path none = err ("Registry file cannot be read: " <> path)
  load_provider_registry path (some (inr message)) =
      err ("Registry must be valid JSON: " <> message)
  load_provider_registry path (some (inl (obj fs))) = validate_registry (entries fs)
  load_provider_registry path (some (inl v)) = err "Registry must be a JSON object."
