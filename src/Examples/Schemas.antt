-- ===== src/Examples/Schemas.antt =====
-- Runs of the schema functions.
use api2agent.Common.{
  ◌==◌, false, ◌<◌, true, false, some, List, [], ◌∷◌, ◌≡◌, refl, String, inl, arith, length, lookup,
}
use api2agent.Python.Value.{
  Value, Object, Fields, text, boolean, object, arr, obj, fields, cons, nil, entries, get, as_dict,
}
use api2agent.Schemas.{is_nullable_schema}
use api2agent.Python.Value.{str}
use api2agent.Schemas.Hints.{
  collect_schema_hints, collect_paths, count_at, height, schema_hint_counts, schema_paths_with_hint,
}
use api2agent.Schemas.Hints.Counted.{schema_paths_with_hint-counts}
use api2agent.Schemas.Hints.Fuel.{schema_hints-enough}
use api2agent.Schemas.Shaping.{request, is_skipped, is_marker, shape_schema, shape_value}
use api2agent.Schemas.Shaping.Clean.{DistinctKeys, is_clean}
use api2agent.Schemas.Shaping.Kept.{shape_at, shape_schema_lem}

abbrev no_repr : Value → String
no_repr v = ""

abbrev name_schema : Value
name_schema = object (("type", text "string") ∷ ("nullable", boolean true) ∷ [])

abbrev id_schema : Value
id_schema = object (("type", text "string") ∷ ("readOnly", boolean true) ∷ [])

abbrev properties : Object
properties = ("id", id_schema) ∷ ("name", name_schema) ∷ []

abbrev pet : Object
pet =
    ("x-api2agent-source", text "pets.yaml")
    ∷ ("required", arr (cons (text "id") (cons (text "name") nil)))
    ∷ ("properties", object properties)
    ∷ ("nullable", boolean true)
    ∷ []

shape_runs :
    shape_schema no_repr request (object pet)
    ≡ ("required", arr (cons (text "name") nil))
      ∷ ("properties", object (("name", name_schema) ∷ []))
      ∷ ("nullable", boolean true)
      ∷ []
unfolding shape_schema get str
shape_runs = refl

paths_run :
    schema_paths_with_hint no_repr (object pet) "nullable" ≡ some ("$" ∷ "$.properties.name" ∷ [])
unfolding schema_paths_with_hint get is_nullable_schema
paths_run = refl

schema_paths_with_hint-counts_example :
    (paths : List String) × (schema_paths_with_hint no_repr (object pet) "nullable" ≡ some paths)
    × (count_at "nullable" (schema_hint_counts no_repr (object pet)) ≡ length paths)
schema_paths_with_hint-counts_example =
    schema_paths_with_hint-counts no_repr (object pet) "nullable" (inl refl)

low : height (object pet) < 9
unfolding height
low = omega arith

schema_hints-enough_example :
    (collect_schema_hints no_repr 9 0 pet [] ≡ schema_hint_counts no_repr (object pet))
    × (collect_paths no_repr "nullable" 9 0 "$" pet
        ≡ schema_paths_with_hint no_repr (object pet) "nullable")
schema_hints-enough_example = schema_hints-enough no_repr (object pet) "nullable" 9 low

pet-DistinctKeys : DistinctKeys (object pet)
unfolding DistinctKeys lookup
pet-DistinctKeys = (
  (refl, (refl, (refl, (refl, tt)))),
  (
    tt,
    (
      (tt, (tt, tt)),
      (
        (
          (refl, (refl, tt)),
          (((refl, (refl, tt)), (tt, (tt, tt))), (((refl, (refl, tt)), (tt, (tt, tt))), tt)),
        ),
        (tt, tt),
      ),
    ),
  ),
)

shape_schema_lem_example :
    (is_clean request (object (shape_schema no_repr request (object pet))) ≡ true)
    × ((k : String) (raw : Value)
        → ("required" == k) ≡ false
        → is_marker k ≡ false
        → lookup k pet ≡ some raw
        → lookup k (shape_schema no_repr request (object pet))
          ≡ some (shape_at no_repr request k raw))
    × ((ps : Fields) (name : String) (raw : Value)
        → lookup "properties" pet ≡ some (obj ps)
        → lookup name (entries ps) ≡ some raw
        → is_skipped request raw ≡ false
        → lookup name (as_dict (get (shape_schema no_repr request (object pet)) "properties"))
          ≡ some (shape_value no_repr request raw))
shape_schema_lem_example = shape_schema_lem no_repr request (fields pet) pet-DistinctKeys
