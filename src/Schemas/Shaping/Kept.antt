-- ===== src/Schemas/Shaping/Kept.antt =====
-- What a shaped schema keeps.
use api2agent.Common.{
  String, true, false, ◌&&◌, inl, inr, Option, none, some, List, [], ◌∷◌, ◌==◌, ◌≡◌, refl, ap, sym,
  subst, ◌∙◌, arith, lookup, lookup-insert, eq_iff, Bool-cases, NodupKeys, if◌then◌else◌,
}
use api2agent.Python.Value.{
  Value, null, boolean, int, float, text, arr, obj, Fields, end, field, Object, entries, object,
  get, fields, entries-fields, as_dict,
}
use api2agent.Schemas.{has_key}
use api2agent.Schemas.Shaping.Clean.{DistinctKeys, DistinctFields, is_clean, shape_schema-is_clean}
use api2agent.Schemas.Shaping.{
  is_dict, fields_of, SchemaDirection, is_skipped, skipped_names, is_marker, with_required,
  shape_entry, shape_value, shape_fields, shape_raw, shape_properties, shape_schema,
}

module _ (repr : Value → String) (d : SchemaDirection) where
  -- The shape of the value of a key.
  abbrev pub shape_at : String → Value → Value
  shape_at key raw =
      if key == "properties" && is_dict raw
      then object (shape_raw repr d raw)
      else shape_value repr d raw

  abbrev pub shaped_or : Option Value → (Value → Option Value) → Option Value → Option Value
  shaped_or before shape none = before
  shaped_or before shape (some raw) = shape raw

  -- The property's shape, where the direction shows it.
  abbrev pub shown_property : Option Value → Value → Option Value
  shown_property before raw = if is_skipped d raw then before else some (shape_value repr d raw)

  pub lookup-shape_properties :
      (name : String) (fs : Fields) (properties : Object)
      → NodupKeys (entries fs)
      → lookup name (shape_properties repr d fs properties)
        ≡ shaped_or
            (lookup name properties)
            (shown_property (lookup name properties))
            (lookup name (entries fs))
  unfolding shape_properties lookup
  lookup-shape_properties name end properties u = refl
  lookup-shape_properties name (field k raw rest) properties (fresh, u) =
      elim (Bool-cases (is_skipped d raw)) [
        | inl hidden ↦
            let later = lookup-shape_properties name rest properties u in
            elim (Bool-cases (k == name)) [
              | inl same ↦
                  let gone : lookup name (entries rest) ≡ none =
                    subst (λ x. lookup x (entries rest) ≡ none) ((eq_iff k name).0 same) fresh in
                  rw (hidden, same) (later ∙ rw (gone, hidden) refl)
              | inr other ↦ rw (hidden, other) later
            ]
        | inr shown ↦
            let later = lookup-shape_properties name rest _ u in
            let inserted = lookup-insert k name (shape_value repr d raw) properties in
            elim (Bool-cases (k == name)) [
              | inl same ↦
                  let gone : lookup name (entries rest) ≡ none =
                    subst (λ x. lookup x (entries rest) ≡ none) ((eq_iff k name).0 same) fresh in
                  rw (shown, same) (later ∙ rw gone (inserted ∙ rw (same, shown) refl))
              | inr other ↦ rw (shown, other) (later ∙ rw (inserted, other) refl)
            ]
      ]

  module _ (k : String) (no_required : ("required" == k) ≡ false)
      (plain : is_marker k ≡ false) where
    lookup-with_required :
        (skipped : List String) (required : Value) (shaped : Object)
        → lookup k (with_required repr skipped required shaped) ≡ lookup k shaped
    unfolding with_required
    lookup-with_required [] required shaped = refl
    lookup-with_required (s ∷ ss) (arr xs) shaped =
        lookup-insert "required" k _ shaped ∙ rw no_required refl
    lookup-with_required (s ∷ ss) null shaped = refl
    lookup-with_required (s ∷ ss) (boolean b) shaped = refl
    lookup-with_required (s ∷ ss) (int n) shaped = refl
    lookup-with_required (s ∷ ss) (float x) shaped = refl
    lookup-with_required (s ∷ ss) (text t) shaped = refl
    lookup-with_required (s ∷ ss) (obj fs) shaped = refl

    clash : is_marker k ≡ true → ⊥
    clash h = cc

    lookup-shape_entry :
        (value : Object) (key : String) (raw : Value) (shaped : Object)
        → lookup k (
            shape_entry repr d value key raw (shape_value repr d raw) (shape_raw repr d raw) shaped)
          ≡ (if key == k then some (shape_at key raw) else lookup k shaped)
    unfolding shape_entry
    lookup-shape_entry value key raw shaped = elim (Bool-cases (is_marker key)) [
      | inl marked ↦
          let other : (key == k) ≡ false = elim (Bool-cases (key == k)) [
            | inr differs ↦ differs
            | inl same ↦
                absurd (clash (subst (λ x. is_marker x ≡ true) ((eq_iff key k).0 same) marked))
          ] in
          rw (marked, other) refl
      | inr unmarked ↦ elim (Bool-cases (key == "properties" && is_dict raw)) [
        | inl dict ↦
            rw (unmarked, dict)
              (lookup-with_required (skipped_names d (fields_of raw)) (get value "required") _
                ∙ lookup-insert key k (object (shape_raw repr d raw)) shaped)
        | inr differs ↦ elim (Bool-cases (key == "required" && has_key shaped key)) [
          | inl done ↦
              let other : (key == k) ≡ false =
                let e : key ≡ "required" = (eq_iff key "required").0 (ground arith) in
                subst (λ x. (x == k) ≡ false) (sym e) no_required in
              rw (unmarked, differs, done, other) refl
          | inr new ↦
              rw (unmarked, differs, new) (lookup-insert key k (shape_value repr d raw) shaped)
        ]
      ]
    ]

    pub lookup-shape_fields :
        (value : Object) (fs : Fields) (shaped : Object)
        → NodupKeys (entries fs)
        → lookup k (shape_fields repr d value fs shaped)
          ≡ shaped_or (lookup k shaped) (λ raw. some (shape_at k raw)) (lookup k (entries fs))
    unfolding shape_fields lookup
    lookup-shape_fields value end shaped u = refl
    lookup-shape_fields value (field key raw rest) shaped (fresh, u) =
        let entry = lookup-shape_entry value key raw shaped in
        let later = lookup-shape_fields value rest _ u in
        elim (Bool-cases (key == k)) [
          | inl same ↦
              let gone : lookup k (entries rest) ≡ none =
                subst (λ x. lookup x (entries rest) ≡ none) ((eq_iff key k).0 same) fresh in
              later
              ∙ rw (gone, same)
                  (entry ∙ rw same (ap (λ x. some (shape_at x raw)) ((eq_iff key k).0 same)))
          | inr other ↦ later ∙ rw other (rw (entry, other) refl)
        ]

  DistinctFields-lookup :
      (k : String) (fs : Fields) (v : Value)
      → DistinctFields fs
      → lookup k (entries fs) ≡ some v
      → DistinctKeys v
  unfolding lookup DistinctKeys
  DistinctFields-lookup k end v u h = cc
  DistinctFields-lookup k (field j w rest) v (own, others) h = elim (Bool-cases (j == k)) [
    | inl same ↦ subst DistinctKeys (some_value w v (rw same at h)) own
    | inr other ↦ DistinctFields-lookup k rest v others (rw other at h)
  ]
    where
      some_value : (x y : Value) → some x ≡ some y → x ≡ y
      some_value x y p = cc

  -- For a schema in which no dict has a key twice: at any depth of its shape, through lists,
  -- properties and all other keys but "required", no schema has a key that begins with
  -- "x-api2agent-" or a property that the direction hides, a read-only one for a request and a
  -- write-only one for a response. Every other key of the schema but "required" is kept with the
  -- shape of its value, and every property that the direction shows with its shape.
  pub shape_schema_lem :
      (fs : Fields)
      → DistinctKeys (obj fs)
      → (is_clean d (object (shape_schema repr d (obj fs))) ≡ true)
        × ((k : String) (raw : Value)
            → ("required" == k) ≡ false
            → is_marker k ≡ false
            → lookup k (entries fs) ≡ some raw
            → lookup k (shape_schema repr d (obj fs)) ≡ some (shape_at k raw))
        × ((ps : Fields) (name : String) (raw : Value)
            → lookup "properties" (entries fs) ≡ some (obj ps)
            → lookup name (entries ps) ≡ some raw
            → is_skipped d raw ≡ false
            → lookup name (as_dict (get (shape_schema repr d (obj fs)) "properties"))
              ≡ some (shape_value repr d raw))
  unfolding shape_schema get DistinctKeys lookup
  shape_schema_lem fs u =
      let shaped = shape_fields repr d (entries fs) fs [] in
      let e : entries (fields shaped) ≡ shaped = entries-fields shaped in
      (
        shape_schema-is_clean repr d (obj fs) u,
        λ k raw no_required plain there.
            ap (lookup k) e
            ∙ lookup-shape_fields k no_required plain (entries fs) fs [] u.0
            ∙ rw there refl,
        λ ps name raw there shown visible.
            let nodup : NodupKeys (entries ps) =
              (DistinctFields-lookup "properties" fs (obj ps) u.1 there).0 in
            let found : lookup "properties" (entries (fields shaped))
                ≡ some (object (shape_properties repr d ps [])) =
              ap (lookup "properties") e
              ∙ lookup-shape_fields "properties" refl refl (entries fs) fs [] u.0
              ∙ rw there refl in
            rw found (
              ap (lookup name) (entries-fields (shape_properties repr d ps []))
              ∙ lookup-shape_properties name ps [] nodup
              ∙ rw (shown, visible) refl),
      )
