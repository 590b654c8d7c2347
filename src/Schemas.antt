-- ===== src/Schemas.antt =====
-- api2agent/schema_shaping.py: the keywords of a JSON schema and its discriminators.
pub mod Hints
pub mod Shaping
use package.text.Mathlib.Text.{starts_with}
use api2agent.Common.{
  given, ℕ, ◌+◌, String, Bool, true, false, not, ◌&&◌, ◌||◌, Option, none, some, List, [], ◌∷◌, any,
  contains, lookup, is_some, has_text, map, if◌then◌else◌,
}
use api2agent.Python.Value.{
  truthy, Value, null, boolean, text, arr, obj, Items, nil, cons, Object, entries, get, str,
  as_dict, is_text,
}
use api2agent.Python.Text.{strip, last_segment}

abbrev pub string_constraint_keywords : List String
string_constraint_keywords = "format" ∷ "pattern" ∷ "minLength" ∷ "maxLength" ∷ []

abbrev pub numeric_constraint_keywords : List String
numeric_constraint_keywords = "minimum" ∷ "maximum" ∷ "exclusiveMinimum" ∷ "exclusiveMaximum" ∷ []

abbrev pub array_constraint_keywords : List String
array_constraint_keywords = "minItems" ∷ "maxItems" ∷ "uniqueItems" ∷ []

abbrev pub visible_schema_keywords : List String
visible_schema_keywords =
    "format" ∷ "pattern" ∷ "minLength" ∷ "maxLength" ∷ "minimum" ∷ "maximum" ∷ "exclusiveMinimum"
    ∷ "exclusiveMaximum" ∷ "minItems" ∷ "maxItems" ∷ "uniqueItems" ∷ "const" ∷ "deprecated" ∷ []

abbrev pub unsupported_schema_keywords : List String
unsupported_schema_keywords =
    "multipleOf" ∷ "minProperties" ∷ "maxProperties" ∷ "patternProperties" ∷ "propertyNames"
    ∷ "dependentRequired" ∷ "dependentSchemas" ∷ "if" ∷ "then" ∷ "else" ∷ "not" ∷ "contains"
    ∷ "minContains" ∷ "maxContains" ∷ "unevaluatedProperties" ∷ "unevaluatedItems" ∷ []

abbrev pub conditional_schema_keywords : List String
conditional_schema_keywords = "if" ∷ "then" ∷ "else" ∷ "not" ∷ []

abbrev pub dependent_schema_keywords : List String
dependent_schema_keywords = "dependentRequired" ∷ "dependentSchemas" ∷ []

-- `key in schema`
abbrev pub has_key : Object → String → Bool
has_key schema key = is_some (lookup key schema)

-- `any(key in schema for key in keys)`
abbrev pub has_any : Object → List String → Bool
has_any schema keys = any (has_key schema) keys

-- `v is True`
abbrev pub is_true : Value → Bool
is_true (boolean b) = b
is_true _ = false

abbrev pub is_list : Value → Bool
is_list (arr xs) = true
is_list _ = false

abbrev pub lists_text : Items → String → Bool
lists_text nil s = false
lists_text (cons v vs) s = if is_text v s then true else lists_text vs s

abbrev pub null_in : Value → Bool
null_in (arr xs) = lists_text xs "null"
null_in _ = false

unfoldable pub is_nullable_schema : Object → Bool
is_nullable_schema schema = is_true (get schema "nullable") || null_in (get schema "type")

-- The dicts of a list.
abbrev pub dicts_of : Items → List Object
dicts_of nil = []
dicts_of (cons (obj fs) vs) = entries fs ∷ dicts_of vs
dicts_of (cons v vs) = dicts_of vs

unfoldable pub schema_has_polymorphism : Object → Bool
schema_has_polymorphism schema = is_list (get schema "oneOf") || is_list (get schema "anyOf")

unfoldable pub polymorphic_branches : Object → List Object
polymorphic_branches schema = from (get schema "oneOf") (from (get schema "anyOf") [])
  where
    from : Value → List Object → List Object
    from (arr xs) others = dicts_of xs
    from v others = others

-- A text that is not blank, stripped.
abbrev label_in : Value → Option String
label_in (text s) = if has_text (strip s) then some (strip s) else none
label_in _ = none

unfoldable pub branch_label : Object → Option String
branch_label branch =
    first (label_in (get branch "title"))
      (first (label_in (get branch "x-schema-name")) (label_in (get branch "name")))
  where
    first : Option String → Option String → Option String
    first none other = other
    first (some s) other = some s

unfoldable pub mapping_target_label : String → String
mapping_target_label target =
    let tail = last_segment target in if has_text tail then tail else target

-- The non-null names of a list of types.
types_in : (Value → String) → Items → List String
types_in repr nil = []
types_in repr (cons v vs) =
    if is_text v "null" then types_in repr vs else str repr v ∷ types_in repr vs

unfoldable pub primary_type : (Value → String) → Object → Option String
unfolding types_in
primary_type repr schema = of_type (get schema "type")
  where
    first_of : List String → String
    first_of [] = "null"
    first_of (s ∷ ss) = s

    of_type : Value → Option String
    of_type null =
        if has_key schema "properties" || has_key schema "additionalProperties"
        then some "object"
        else none
    of_type (arr xs) = some (first_of (types_in repr xs))
    of_type v = some (str repr v)

-- The dict of `discriminator_info_without_branch_checks`.
pub record DiscriminatorInfo : Type 0 where
  pub property_name : Option String
  pub mapping : List (String × String)
  pub has_polymorphism : Bool

abbrev property_name_in : Value → Option String
property_name_in (text s) = if has_text (strip s) then some s else none
property_name_in _ = none

module _ (repr : Value → String) where
  unfoldable pub discriminator_info_without_branch_checks : Object → Option DiscriminatorInfo
  discriminator_info_without_branch_checks schema = of_raw (get schema "discriminator")
    where
      of_raw : Value → Option DiscriminatorInfo
      of_raw (obj fs) = some (record {
        property_name = property_name_in (get (entries fs) "propertyName");
        mapping = map (λ (k, v). (k, str repr v)) (as_dict (get (entries fs) "mapping"));
        has_polymorphism = schema_has_polymorphism schema;
      })
      of_raw v = none

  unfoldable pub unresolved_among : List String → Object → List String
  unresolved_among labels [] = []
  unresolved_among labels ((key, raw_target) ∷ rest) =
      let target = str repr raw_target in
      if starts_with target "#/" && not (contains labels (mapping_target_label target))
      then key ∷ unresolved_among labels rest
      else unresolved_among labels rest

  unfoldable pub branch_labels : List Object → List String
  branch_labels [] = []
  branch_labels (branch ∷ branches) = with_label (branch_label branch) (branch_labels branches)
    where
      with_label : Option String → List String → List String
      with_label none rest = rest
      with_label (some s) rest = s ∷ rest

  unfoldable pub unresolved_discriminator_mappings : Object → List String
  unfolding unresolved_among branch_labels
  unresolved_discriminator_mappings schema =
      of_labels (branch_labels (polymorphic_branches schema))
        (as_dict (get (as_dict (get schema "discriminator")) "mapping"))
    where
      of_labels : List String → Object → List String
      of_labels [] mapping = []
      of_labels labels mapping = unresolved_among labels mapping

  -- `(branch.get("properties") or {}).get(property_name)`; `none` is the error at a value that is
  -- true and no dict.
  unfoldable pub tag_schema : Object → String → Option Value
  tag_schema branch property_name = of_properties (get branch "properties")
    where
      of_properties : Value → Option Value
      of_properties (obj fs) = some (get (entries fs) property_name)
      of_properties v = if truthy v then none else some null

  -- The tag of a property's schema.
  unfoldable pub tag_value : Object → Option String
  tag_value tag =
      first (get tag "const")
        (first (get tag "default") (first (get tag "example") (of_enum (get tag "enum"))))
    where
      first : Value → Option String → Option String
      first null other = other
      first v other = some (str repr v)

      of_enum : Value → Option String
      of_enum (arr (cons v vs)) = some (str repr v)
      of_enum v = none

  -- `_discriminator_value_for_branch`, once the tag's schema is read.
  unfoldable pub discriminator_value_for_branch : Value → Option String
  unfolding tag_value
  discriminator_value_for_branch (obj fs) = tag_value (entries fs)
  discriminator_value_for_branch v = none

  unfoldable pub untagged_from : String → List Object → ℕ → Option (List ℕ)
  unfolding tag_schema discriminator_value_for_branch
  untagged_from property_name [] index = some []
  untagged_from property_name (branch ∷ branches) index = elim (tag_schema branch property_name) [
    | none ↦ none
    | some tag ↦
        add (given (discriminator_value_for_branch tag))
          (untagged_from property_name branches (index + 1))
  ]
    where
      add : Bool → Option (List ℕ) → Option (List ℕ)
      add tagged none = none
      add true (some rest) = some rest
      add false (some rest) = some (index ∷ rest)

  -- `none` is an exception.
  unfoldable pub discriminator_untagged_branches : Object → Option (List ℕ)
  unfolding discriminator_info_without_branch_checks untagged_from
  discriminator_untagged_branches schema =
      of_name (elim (discriminator_info_without_branch_checks schema) [
        | none ↦ none
        | some info ↦ info.property_name
      ])
    where
      of_name : Option String → Option (List ℕ)
      of_name none = some []
      of_name (some name) = untagged_from name (polymorphic_branches schema) 0
