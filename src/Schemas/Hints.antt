-- ===== src/Schemas/Hints.antt =====
-- The hints of a JSON schema: `schema_hint_counts` and `schema_paths_with_hint` of
-- api2agent/schema_shaping.py. The recursion over the children is on fuel.
pub mod Counted
pub mod Fuel
use api2agent.Common.{
  max, ℕ, zero, suc, ◌+◌, String, Bool, true, false, not, ◌&&◌, Option, none, some, List, [], ◌∷◌,
  ◌++◌, ◌==◌, ◌<>◌, ltb, length, lookup, insert, is_some, if◌then◌else◌,
}
use api2agent.Python.Text.{show_nat}
use api2agent.Python.Value.{
  Value, arr, obj, Items, nil, cons, Fields, end, field, Object, entries, get, as_dict,
}
use api2agent.Schemas.{
  has_key, has_any, is_true, is_nullable_schema, primary_type, visible_schema_keywords,
  unsupported_schema_keywords, string_constraint_keywords, numeric_constraint_keywords,
  array_constraint_keywords, conditional_schema_keywords, dependent_schema_keywords, dicts_of,
  DiscriminatorInfo, discriminator_info_without_branch_checks, unresolved_discriminator_mappings,
  discriminator_untagged_branches,
}

abbrev pub large_object_property_threshold : ℕ
large_object_property_threshold = 12

abbrev pub Counter : Type 0
Counter = List (String × ℕ)

-- `counter[hint]`
abbrev pub count_or_zero : Option ℕ → ℕ
count_or_zero none = 0
count_or_zero (some n) = n

unfoldable pub count_at : String → Counter → ℕ
unfolding lookup
count_at hint counter = count_or_zero (lookup hint counter)

-- `if test: counter[hint] += 1`, for each hint with its test.
unfoldable pub add_hints : List (String × Bool) → Counter → Counter
unfolding count_at insert
add_hints [] counter = counter
add_hints ((hint, test) ∷ tests) counter =
    let counted : Counter =
      if test then insert hint (count_at hint counter + 1) counter else counter in
    add_hints tests counted

abbrev pub is_polymorphic : Object → Bool
is_polymorphic schema = has_any schema ("oneOf" ∷ "anyOf" ∷ [])

abbrev pub is_large : Object → Bool
is_large schema = ltb large_object_property_threshold (length (as_dict (get schema "properties")))

abbrev pub opt_is : Option String → String → Bool
opt_is none t = false
opt_is (some s) t = s == t

abbrev pub has_mapping : Option DiscriminatorInfo → Bool
has_mapping none = false
has_mapping (some info) = not (is_empty info.mapping)
  where
    is_empty : List (String × String) → Bool
    is_empty [] = true
    is_empty (m ∷ ms) = false

abbrev pub lacks_property : Option DiscriminatorInfo → Bool
lacks_property none = false
lacks_property (some info) = not (is_some info.property_name)

abbrev pub lacks_polymorphism : Option DiscriminatorInfo → Bool
lacks_polymorphism none = false
lacks_polymorphism (some info) = not info.has_polymorphism

unfoldable pub dict_children : Object → List Object
dict_children [] = []
dict_children ((name, obj fs) ∷ rest) = entries fs ∷ dict_children rest
dict_children ((name, v) ∷ rest) = dict_children rest

abbrev pub child_at : Value → List Object
child_at (obj fs) = entries fs ∷ []
child_at v = []

abbrev pub branches_at : Value → List Object
branches_at (arr xs) = dicts_of xs
branches_at v = []

unfoldable pub schema_children : Object → List Object
unfolding dict_children
schema_children schema =
    dict_children (as_dict (get schema "properties"))
    ++ child_at (get schema "items")
    ++ branches_at (get schema "oneOf")
    ++ branches_at (get schema "anyOf")
    ++ branches_at (get schema "allOf")
    ++ child_at (get schema "additionalProperties")

-- The children with their paths, as `_collect_paths` goes through them.
unfoldable pub property_paths : String → Object → List (String × Object)
property_paths path [] = []
property_paths path ((name, obj fs) ∷ rest) =
    (path <> (".properties." <> name), entries fs) ∷ property_paths path rest
property_paths path ((name, v) ∷ rest) = property_paths path rest

abbrev pub path_at : String → Value → List (String × Object)
path_at path (obj fs) = (path, entries fs) ∷ []
path_at path v = []

-- The dicts of a list from an index on.
unfoldable pub branch_paths : String → Items → ℕ → List (String × Object)
unfolding show_nat
branch_paths path nil index = []
branch_paths path (cons (obj fs) vs) index =
    (path <> ("[" <> (show_nat index <> "]")), entries fs) ∷ branch_paths path vs (index + 1)
branch_paths path (cons v vs) index = branch_paths path vs (index + 1)

abbrev pub branch_paths_at : String → Value → List (String × Object)
branch_paths_at path (arr xs) = branch_paths path xs 0
branch_paths_at path v = []

unfoldable pub child_paths : String → Object → List (String × Object)
unfolding property_paths branch_paths
child_paths path schema =
    property_paths path (as_dict (get schema "properties"))
    ++ path_at (path <> ".items") (get schema "items")
    ++ branch_paths_at (path <> ".oneOf") (get schema "oneOf")
    ++ branch_paths_at (path <> ".anyOf") (get schema "anyOf")
    ++ branch_paths_at (path <> ".allOf") (get schema "allOf")
    ++ path_at (path <> ".additionalProperties") (get schema "additionalProperties")

abbrev pub then_paths : Option (List String) → Option (List String) → Option (List String)
then_paths none more = none
then_paths (some ps) none = none
then_paths (some ps) (some qs) = some (ps ++ qs)

abbrev pub path_if : String → Option Bool → Option (List String)
path_if path none = none
path_if path (some true) = some (path ∷ [])
path_if path (some false) = some []

-- The loops over the children.
unfoldable pub for_each : (Object → Counter → Counter) → List Object → Counter → Counter
for_each step [] counter = counter
for_each step (c ∷ cs) counter = for_each step cs (step c counter)

unfoldable pub all_paths :
    (String → Object → Option (List String)) → List (String × Object) → Option (List String)
all_paths step [] = some []
all_paths step ((path, c) ∷ cs) = then_paths (step path c) (all_paths step cs)

module _ (repr : Value → String) where
  -- The tests of `_collect_schema_hints`, in order.
  unfoldable pub hint_tests : ℕ → Object → List (String × Bool)
  hint_tests depth schema =
      let info = discriminator_info_without_branch_checks repr schema in
      ("nullable", is_nullable_schema schema)
      ∷ ("read_only", is_true (get schema "readOnly"))
      ∷ ("write_only", is_true (get schema "writeOnly"))
      ∷ ("schema_keywords", has_any schema (visible_schema_keywords ++ unsupported_schema_keywords))
      ∷ ("string_constraints", has_any schema string_constraint_keywords)
      ∷ ("numeric_constraints", has_any schema numeric_constraint_keywords)
      ∷ ("array_constraints", has_any schema array_constraint_keywords)
      ∷ ("const_schema", has_key schema "const")
      ∷ ("deprecated_schema_fields", is_true (get schema "deprecated"))
      ∷ ("pattern_schema", has_key schema "pattern")
      ∷ ("unsupported_schema_keywords", has_any schema unsupported_schema_keywords)
      ∷ ("conditional_schema", has_any schema conditional_schema_keywords)
      ∷ ("dependent_schema", has_any schema dependent_schema_keywords)
      ∷ ("maps", has_key schema "additionalProperties")
      ∷ ("discriminators", is_some info)
      ∷ ("discriminator_mappings", has_mapping info)
      ∷ ("polymorphic", is_polymorphic schema)
      ∷ ("nested_polymorphic", is_polymorphic schema && ltb 0 depth)
      ∷ (
        "arrays_without_items",
        opt_is (primary_type repr schema) "array" && not (has_key schema "items"),
      )
      ∷ ("large_objects", is_large schema)
      ∷ []

  unfoldable pub collect_schema_hints : ℕ → ℕ → Object → Counter → Counter
  unfolding hint_tests add_hints schema_children for_each
  collect_schema_hints zero depth schema counter = counter
  collect_schema_hints (suc fuel) depth schema counter =
      for_each (collect_schema_hints fuel (depth + 1)) (schema_children schema)
        (add_hints (hint_tests depth schema) counter)

  -- `none` is an exception.
  unfoldable pub schema_has_hint : Object → String → ℕ → Option Bool
  schema_has_hint schema hint depth =
      let info = discriminator_info_without_branch_checks repr schema in
      if hint == "nullable"
      then some (is_nullable_schema schema)
      else if hint == "read_only"
      then some (is_true (get schema "readOnly"))
      else if hint == "write_only"
      then some (is_true (get schema "writeOnly"))
      else if hint == "schema_keywords"
      then some (has_any schema (visible_schema_keywords ++ unsupported_schema_keywords))
      else if hint == "string_constraints"
      then some (has_any schema string_constraint_keywords)
      else if hint == "numeric_constraints"
      then some (has_any schema numeric_constraint_keywords)
      else if hint == "array_constraints"
      then some (has_any schema array_constraint_keywords)
      else if hint == "const_schema"
      then some (has_key schema "const")
      else if hint == "deprecated_schema_fields"
      then some (is_true (get schema "deprecated"))
      else if hint == "pattern_schema"
      then some (has_key schema "pattern")
      else if hint == "unsupported_schema_keywords"
      then some (has_any schema unsupported_schema_keywords)
      else if hint == "conditional_schema"
      then some (has_any schema conditional_schema_keywords)
      else if hint == "dependent_schema"
      then some (has_any schema dependent_schema_keywords)
      else if hint == "maps"
      then some (has_key schema "additionalProperties")
      else if hint == "discriminators"
      then some (is_some info)
      else if hint == "discriminator_mappings"
      then some (has_mapping info)
      else if hint == "discriminator_missing_property"
      then some (lacks_property info)
      else if hint == "discriminator_without_polymorphism"
      then some (lacks_polymorphism info)
      else if hint == "discriminator_mapping_unresolved"
      then some (any_text (unresolved_discriminator_mappings repr schema))
      else if hint == "discriminator_branch_without_tag"
      then any_index (discriminator_untagged_branches repr schema)
      else if hint == "nested_polymorphic"
      then some (ltb 0 depth && is_polymorphic schema)
      else if hint == "arrays_without_items"
      then some (opt_is (primary_type repr schema) "array" && not (has_key schema "items"))
      else if hint == "large_objects"
      then some (is_large schema)
      else some false
    where
      any_text : List String → Bool
      any_text [] = false
      any_text (s ∷ ss) = true

      any_index : Option (List ℕ) → Option Bool
      any_index none = none
      any_index (some []) = some false
      any_index (some (i ∷ is)) = some true

  unfoldable pub collect_paths : String → ℕ → ℕ → String → Object → Option (List String)
  unfolding schema_has_hint child_paths all_paths
  collect_paths hint zero depth path schema = some []
  collect_paths hint (suc fuel) depth path schema =
      then_paths (path_if path (schema_has_hint schema hint depth))
        (all_paths (collect_paths hint fuel (depth + 1)) (child_paths path schema))

-- The nesting of a value.
unfoldable mutual
  pub height : Value → ℕ
  height (obj fs) = suc (fields_height fs)
  height (arr xs) = suc (items_height xs)
  height v = 0

  pub fields_height : Fields → ℕ
  fields_height end = 0
  fields_height (field k v fs) = max (height v) (fields_height fs)

  pub items_height : Items → ℕ
  items_height nil = 0
  items_height (cons v vs) = max (height v) (items_height vs)

-- A schema that is no dict counts as an empty one.
unfoldable pub schema_hint_counts : (Value → String) → Value → Counter
unfolding collect_schema_hints height
schema_hint_counts repr schema = collect_schema_hints repr (height schema + 1) 0 (as_dict schema) []

unfoldable pub schema_paths_with_hint : (Value → String) → Value → String → Option (List String)
unfolding collect_paths height
schema_paths_with_hint repr schema hint =
    collect_paths repr hint (height schema + 1) 0 "$" (as_dict schema)
