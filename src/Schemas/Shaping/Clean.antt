-- ===== src/Schemas/Shaping/Clean.antt =====
-- At any depth, what a shaped schema does not show.
use api2agent.Common.{
  String, Bool, true, false, not, ◌&&◌, inl, inr, List, [], ◌∷◌, ◌==◌, ◌≡◌, refl, sym, subst, arith,
  insert, Bool-cases, NodupKeys, eq_iff, if◌then◌else◌,
}
use api2agent.Python.Value.{
  Value, null, boolean, int, float, text, arr, obj, Items, nil, cons, Fields, end, field, Object,
  entries, fields, entries-fields, object, get,
}
use api2agent.Schemas.{has_key}
use api2agent.Schemas.Shaping.{
  is_dict, fields_of, SchemaDirection, neutral, request, response, is_skipped, skipped_names,
  is_marker, unskipped, with_required, shape_entry, shape_value, shape_items, shape_fields,
  shape_raw, shape_properties, shape_schema,
}
use api2agent.Schemas.Shaping.Flags.{shape_fields-unset}

-- No dict at any depth has a key twice.
unfoldable mutual
  pub DistinctKeys : Value → Type 0
  DistinctKeys (arr xs) = DistinctItems xs
  DistinctKeys (obj fs) = NodupKeys (entries fs) × DistinctFields fs
  DistinctKeys v = Unit

  pub DistinctItems : Items → Type 0
  DistinctItems nil = Unit
  DistinctItems (cons v vs) = DistinctKeys v × DistinctItems vs

  pub DistinctFields : Fields → Type 0
  DistinctFields end = Unit
  DistinctFields (field k v rest) = DistinctKeys v × DistinctFields rest

three : (a b c : Bool) → (a && b && c) ≡ true → (a ≡ true) × (b ≡ true) × (c ≡ true)
three a b c h = (ground arith, ground arith, ground arith)

all_three : (a b c : Bool) → a ≡ true → b ≡ true → c ≡ true → (a && b && c) ≡ true
all_three a b c h k l = rw (h, k, l) refl

module _ (d : SchemaDirection) where
  -- No schema at any depth has a marker for a key, or a property that the direction hides; what
  -- stands under "required" is a list of names and no schema.
  unfoldable mutual
    unfolding is_skipped

    pub is_clean : Value → Bool
    is_clean (arr xs) = are_clean xs
    is_clean (obj fs) = has_clean fs
    is_clean v = true

    pub are_clean : Items → Bool
    are_clean nil = true
    are_clean (cons v vs) = is_clean v && are_clean vs

    pub has_clean : Fields → Bool
    has_clean end = true
    has_clean (field k v rest) =
        let own = is_clean v in
        let properties = is_clean_properties v in
        let others = has_clean rest in
        not (is_marker k)
        && (if k == "required" then true else if k == "properties" then properties else own)
        && others

    pub is_clean_properties : Value → Bool
    is_clean_properties (obj fs) = shows_clean fs
    is_clean_properties (arr xs) = are_clean xs
    is_clean_properties v = true

    pub shows_clean : Fields → Bool
    shows_clean end = true
    shows_clean (field name v rest) = not (is_skipped d v) && is_clean v && shows_clean rest

  -- What a key may hold.
  abbrev clean_at : String → Value → Bool
  clean_at k v =
      if k == "required"
      then true
      else if k == "properties"
      then is_clean_properties v
      else is_clean v

  insert-has_clean :
      (k : String) (v : Value) (o : Object)
      → is_marker k ≡ false
      → clean_at k v ≡ true
      → has_clean (fields o) ≡ true
      → has_clean (fields (insert k v o)) ≡ true
  unfolding has_clean insert
  insert-has_clean k v [] plain here h = all_three _ _ _ (rw plain refl) here refl
  insert-has_clean k v ((j, w) ∷ o) plain here h =
      let (unmarked, own, rest) = three _ _ _ h in
      elim (Bool-cases (j == k)) [
        | inl same ↦
            let e : k ≡ j = sym ((eq_iff j k).0 same) in
            rw same (all_three _ _ _ unmarked (subst (λ x. clean_at x v ≡ true) e here) rest)
        | inr other ↦
            rw other (all_three _ _ _ unmarked own (insert-has_clean k v o plain here rest))
      ]

  insert-shows_clean :
      (name : String) (v : Value) (o : Object)
      → is_skipped d v ≡ false
      → is_clean v ≡ true
      → shows_clean (fields o) ≡ true
      → shows_clean (fields (insert name v o)) ≡ true
  unfolding shows_clean insert
  insert-shows_clean name v [] shown here h = all_three _ _ _ (rw shown refl) here refl
  insert-shows_clean name v ((j, w) ∷ o) shown here h =
      let (visible, own, rest) =
        three (not (is_skipped d w)) (is_clean w) (shows_clean (fields o)) h in
      elim (Bool-cases (j == name)) [
        | inl same ↦ rw same (
            all_three (not (is_skipped d v)) (is_clean v) (shows_clean (fields o)) (rw shown refl)
              here rest)
        | inr other ↦ rw other (
            all_three (not (is_skipped d w)) (is_clean w) (shows_clean (fields (insert name v o)))
              visible own (insert-shows_clean name v o shown here rest))
      ]

module _ (repr : Value → String) (d : SchemaDirection) where
  skipped-shape :
      (e : SchemaDirection) (raw : Value)
      → DistinctKeys raw
      → is_skipped e raw ≡ false
      → is_skipped e (shape_value repr d raw) ≡ false
  unfolding is_skipped shape_value DistinctKeys
  skipped-shape neutral null u h = refl
  skipped-shape request null u h = refl
  skipped-shape response null u h = refl
  skipped-shape neutral (boolean b) u h = refl
  skipped-shape request (boolean b) u h = refl
  skipped-shape response (boolean b) u h = refl
  skipped-shape neutral (int n) u h = refl
  skipped-shape request (int n) u h = refl
  skipped-shape response (int n) u h = refl
  skipped-shape neutral (float x) u h = refl
  skipped-shape request (float x) u h = refl
  skipped-shape response (float x) u h = refl
  skipped-shape neutral (text t) u h = refl
  skipped-shape request (text t) u h = refl
  skipped-shape response (text t) u h = refl
  skipped-shape neutral (arr xs) u h = refl
  skipped-shape request (arr xs) u h = refl
  skipped-shape response (arr xs) u h = refl
  skipped-shape neutral (obj fs) u h = refl
  skipped-shape request (obj fs) (u, _) h = shape_fields-unset repr d "readOnly" refl refl fs u h
  skipped-shape response (obj fs) (u, _) h = shape_fields-unset repr d "writeOnly" refl refl fs u h

  plain-properties :
      (raw : Value)
      → is_dict raw ≡ false
      → is_clean_properties d (shape_value repr d raw) ≡ is_clean d (shape_value repr d raw)
  unfolding shape_value is_clean is_clean_properties
  plain-properties null h = refl
  plain-properties (boolean b) h = refl
  plain-properties (int n) h = refl
  plain-properties (float x) h = refl
  plain-properties (text t) h = refl
  plain-properties (arr xs) h = refl
  plain-properties (obj fs) h = cc

  with_required-has_clean :
      (skipped : List String) (required : Value) (shaped : Object)
      → has_clean d (fields shaped) ≡ true
      → has_clean d (fields (with_required repr skipped required shaped)) ≡ true
  unfolding with_required
  with_required-has_clean [] required shaped h = h
  with_required-has_clean (s ∷ ss) (arr xs) shaped h =
      insert-has_clean d "required" (arr (unskipped repr (s ∷ ss) xs)) shaped refl refl h
  with_required-has_clean (s ∷ ss) null shaped h = h
  with_required-has_clean (s ∷ ss) (boolean b) shaped h = h
  with_required-has_clean (s ∷ ss) (int n) shaped h = h
  with_required-has_clean (s ∷ ss) (float x) shaped h = h
  with_required-has_clean (s ∷ ss) (text t) shaped h = h
  with_required-has_clean (s ∷ ss) (obj fs) shaped h = h

  shape_entry-has_clean :
      (value : Object) (key : String) (raw : Value) (shaped : Object)
      → is_clean d (shape_value repr d raw) ≡ true
      → shows_clean d (fields (shape_raw repr d raw)) ≡ true
      → has_clean d (fields shaped) ≡ true
      → has_clean d (
          fields (
            shape_entry repr d value key raw
              (shape_value repr d raw)
              (shape_raw repr d raw)
              shaped))
        ≡ true
  unfolding shape_entry is_clean_properties
  shape_entry-has_clean value key raw shaped own shown h = elim (Bool-cases (is_marker key)) [
    | inl marked ↦ rw marked h
    | inr plain ↦ elim (Bool-cases (key == "properties" && is_dict raw)) [
      | inl dict ↦
          let e : key ≡ "properties" = (eq_iff key "properties").0 (ground arith) in
          rw (plain, dict)
            (with_required-has_clean (skipped_names d (fields_of raw)) (get value "required") _ (
              insert-has_clean d key (object (shape_raw repr d raw)) shaped plain
                (subst (λ k. clean_at d k (object (shape_raw repr d raw)) ≡ true) (sym e) shown) h))
      | inr differs ↦ elim (Bool-cases (key == "required" && has_key shaped key)) [
        | inl done ↦ rw (plain, differs, done) h
        | inr new ↦
            let same = plain-properties raw in
            rw (plain, differs, new)
              (insert-has_clean d key (shape_value repr d raw) shaped plain
                (ground (arith, same, own, differs)) h)
      ]
    ]
  ]

  mutual
    unfolding shape_value is_clean DistinctKeys

    value-is_clean : (v : Value) → DistinctKeys v → is_clean d (shape_value repr d v) ≡ true
    value-is_clean null u = refl
    value-is_clean (boolean b) u = refl
    value-is_clean (int n) u = refl
    value-is_clean (float x) u = refl
    value-is_clean (text t) u = refl
    value-is_clean (arr xs) u = items-are_clean xs u
    value-is_clean (obj fs) (_, u) = fields-has_clean (entries fs) fs [] u refl

    items-are_clean : (vs : Items) → DistinctItems vs → are_clean d (shape_items repr d vs) ≡ true
    items-are_clean nil u = refl
    items-are_clean (cons v vs) (u, us) =
        let own = value-is_clean v u in let rest = items-are_clean vs us in ground arith

    fields-has_clean :
        (value : Object) (fs : Fields) (shaped : Object)
        → DistinctFields fs
        → has_clean d (fields shaped) ≡ true
        → has_clean d (fields (shape_fields repr d value fs shaped)) ≡ true
    fields-has_clean value end shaped u h = h
    fields-has_clean value (field key raw rest) shaped (u, us) h =
        fields-has_clean value rest _ us (
          shape_entry-has_clean value key raw shaped (value-is_clean raw u) (raw-shows_clean raw u)
            h)

    raw-shows_clean :
        (v : Value) → DistinctKeys v → shows_clean d (fields (shape_raw repr d v)) ≡ true
    raw-shows_clean null u = refl
    raw-shows_clean (boolean b) u = refl
    raw-shows_clean (int n) u = refl
    raw-shows_clean (float x) u = refl
    raw-shows_clean (text t) u = refl
    raw-shows_clean (arr xs) u = refl
    raw-shows_clean (obj fs) (_, u) = properties-shows_clean fs [] u refl

    properties-shows_clean :
        (fs : Fields) (properties : Object)
        → DistinctFields fs
        → shows_clean d (fields properties) ≡ true
        → shows_clean d (fields (shape_properties repr d fs properties)) ≡ true
    properties-shows_clean end properties u h = h
    properties-shows_clean (field name raw rest) properties (u, us) h =
        let own = value-is_clean raw u in
        properties-shows_clean rest _ us (elim (Bool-cases (is_skipped d raw)) [
          | inl hidden ↦ rw hidden h
          | inr shown ↦ rw shown (
              insert-shows_clean d name (shape_value repr d raw) properties
                (skipped-shape d raw u shown) own h)
        ])

  pub shape_schema-is_clean :
      (schema : Value)
      → DistinctKeys schema
      → is_clean d (object (shape_schema repr d schema)) ≡ true
  unfolding shape_schema shape_value is_clean DistinctKeys
  shape_schema-is_clean null u = refl
  shape_schema-is_clean (boolean b) u = refl
  shape_schema-is_clean (int n) u = refl
  shape_schema-is_clean (float x) u = refl
  shape_schema-is_clean (text t) u = refl
  shape_schema-is_clean (arr xs) u = refl
  shape_schema-is_clean (obj fs) u =
      subst (λ o. has_clean d (fields o) ≡ true)
        (sym (entries-fields (shape_fields repr d (entries fs) fs []))) (value-is_clean (obj fs) u)
