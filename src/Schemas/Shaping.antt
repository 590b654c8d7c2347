-- ===== src/Schemas/Shaping.antt =====
-- `shape_schema` of api2agent/schema_shaping.py: a schema as one direction sees it.
pub mod Flags
pub mod Clean
pub mod Kept
use package.text.Mathlib.Text.{starts_with}
use api2agent.Common.{
  String, Bool, true, false, not, ◌&&◌, Option, none, some, List, [], ◌∷◌, ◌==◌, contains, insert,
  if◌then◌else◌,
}
use api2agent.Python.Value.{
  Value, null, boolean, int, float, text, arr, obj, Items, nil, cons, Fields, end, field, Object,
  entries, object, get, str, as_dict,
}
use api2agent.Schemas.{has_key, is_true}

pub data SchemaDirection : Type 0 where
  neutral : SchemaDirection
  request : SchemaDirection
  response : SchemaDirection

-- A property that a direction does not show.
unfoldable pub is_skipped : SchemaDirection → Value → Bool
is_skipped request (obj fs) = is_true (get (entries fs) "readOnly")
is_skipped response (obj fs) = is_true (get (entries fs) "writeOnly")
is_skipped _ v = false

-- `skipped`
unfoldable pub skipped_names : SchemaDirection → Fields → List String
unfolding is_skipped
skipped_names d end = []
skipped_names d (field name raw rest) =
    if is_skipped d raw then name ∷ skipped_names d rest else skipped_names d rest

abbrev pub is_dict : Value → Bool
is_dict (obj fs) = true
is_dict v = false

abbrev pub fields_of : Value → Fields
fields_of (obj fs) = fs
fields_of v = end

abbrev pub is_marker : String → Bool
is_marker key = starts_with key "x-api2agent-"

module _ (repr : Value → String) where
  unfoldable pub unskipped : List String → Items → Items
  unskipped skipped nil = nil
  unskipped skipped (cons v vs) =
      if contains skipped (str repr v) then unskipped skipped vs else cons v (unskipped skipped vs)

  -- `if skipped and isinstance(value.get("required"), list): shaped["required"] = [...]`
  unfoldable pub with_required : List String → Value → Object → Object
  unfolding unskipped insert
  with_required [] required shaped = shaped
  with_required (s ∷ ss) (arr xs) shaped = insert "required" (arr (unskipped (s ∷ ss) xs)) shaped
  with_required (s ∷ ss) v shaped = shaped

  -- One entry of the loop: `raw_item` with its shape, and the shape of its properties.
  unfoldable pub shape_entry :
      SchemaDirection → Object → String → Value → Value → Object → Object → Object
  unfolding with_required skipped_names
  shape_entry d value key raw_item shape properties shaped =
      if is_marker key
      then shaped
      else if key == "properties" && is_dict raw_item
      then with_required (skipped_names d (fields_of raw_item)) (get value "required")
          (insert key (object properties) shaped)
      else if key == "required" && has_key shaped key
      then shaped
      else insert key shape shaped

  unfoldable mutual
    unfolding shape_entry insert is_skipped

    pub shape_value : SchemaDirection → Value → Value
    shape_value d (arr xs) = arr (shape_items d xs)
    shape_value d (obj fs) = object (shape_fields d (entries fs) fs [])
    shape_value d v = v

    pub shape_items : SchemaDirection → Items → Items
    shape_items d nil = nil
    shape_items d (cons v vs) = cons (shape_value d v) (shape_items d vs)

    -- The loop over `value.items()`, with what is shaped before.
    pub shape_fields : SchemaDirection → Object → Fields → Object → Object
    shape_fields d value end shaped = shaped
    shape_fields d value (field key raw_item rest) shaped =
        shape_fields d value rest
          (shape_entry d value key raw_item (shape_value d raw_item) (shape_raw d raw_item) shaped)

    -- The shaped properties, where `raw_item` is a dict of them.
    pub shape_raw : SchemaDirection → Value → Object
    shape_raw d (obj fs) = shape_properties d fs []
    shape_raw d v = []

    pub shape_properties : SchemaDirection → Fields → Object → Object
    shape_properties d end properties = properties
    shape_properties d (field name raw_property rest) properties = shape_properties d rest (
        if is_skipped d raw_property
        then properties
        else insert name (shape_value d raw_property) properties)

  unfoldable pub shape_schema : SchemaDirection → Value → Object
  unfolding shape_value
  shape_schema d schema = as_dict (shape_value d schema)
