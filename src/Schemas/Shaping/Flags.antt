-- ===== src/Schemas/Shaping/Flags.antt =====
-- The flags "readOnly" and "writeOnly" through the shaping of a schema.
use api2agent.Common.{
  String, true, false, ◌&&◌, ◌⊎◌, inl, inr, Option, none, some, List, [], ◌∷◌, ◌==◌, ◌≡◌, refl, ap,
  sym, ◌∙◌, arith, In, insert, lookup, lookup-insert, eq_iff, eq_refl, Bool-cases, NodupKeys, subst,
}
use api2agent.Python.Value.{
  Value, null, boolean, int, float, text, arr, obj, Fields, end, field, Object, entries, fields,
  entries-fields, object, get, or_null,
}
use api2agent.Schemas.{has_key, is_true}
use api2agent.Schemas.Shaping.{
  is_dict, fields_of, SchemaDirection, skipped_names, is_marker, with_required, shape_entry,
  shape_value, shape_fields, shape_raw,
}

In-lookup : (k : String) (v : Value) (d : Object) → In (k, v) d → NodupKeys d → lookup k d ≡ some v
unfolding lookup
In-lookup k v [] (_, i) u = absurd i
In-lookup k v ((j, w) ∷ d) (inl e) u =
    let same : j ≡ k = ap (λ x. x.0) e in
    let value : w ≡ v = ap (λ x. x.1) e in rw (same, value) (rw (eq_refl k) refl)
In-lookup k v ((j, w) ∷ d) (inr i) (fresh, u) =
    let rest = In-lookup k v d i u in ground (arith, rest, fresh, eq_iff j k)

module _ (repr : Value → String) (d : SchemaDirection) (k : String)
    (no_properties : ("properties" == k) ≡ false) (no_required : ("required" == k) ≡ false) where
  lookup-with_required_ne :
      (skipped : List String) (required : Value) (shaped : Object)
      → lookup k (with_required repr skipped required shaped) ≡ lookup k shaped
  unfolding with_required
  lookup-with_required_ne [] required shaped = refl
  lookup-with_required_ne (s ∷ ss) (arr xs) shaped =
      lookup-insert "required" k _ shaped ∙ rw no_required refl
  lookup-with_required_ne (s ∷ ss) null shaped = refl
  lookup-with_required_ne (s ∷ ss) (boolean b) shaped = refl
  lookup-with_required_ne (s ∷ ss) (int n) shaped = refl
  lookup-with_required_ne (s ∷ ss) (float x) shaped = refl
  lookup-with_required_ne (s ∷ ss) (text t) shaped = refl
  lookup-with_required_ne (s ∷ ss) (obj fs) shaped = refl

  shape_value-flag : (raw : Value) → shape_value repr d raw ≡ boolean true → raw ≡ boolean true
  unfolding shape_value
  shape_value-flag null h = h
  shape_value-flag (boolean b) h = h
  shape_value-flag (int n) h = h
  shape_value-flag (float x) h = h
  shape_value-flag (text t) h = h
  shape_value-flag (arr xs) h = cc
  shape_value-flag (obj fs) h = cc

  some_value : (v w : Value) → some v ≡ some w → v ≡ w
  some_value v w p = cc

  Flagged : String → Value → Object → Type 0
  Flagged key raw shaped =
      (lookup k shaped ≡ some (boolean true)) ⊎ ((key ≡ k) × (raw ≡ boolean true))

  insert-Flagged :
      (key : String) (raw : Value) (shaped : Object)
      → lookup k (insert key (shape_value repr d raw) shaped) ≡ some (boolean true)
      → Flagged key raw shaped
  unfolding Flagged
  insert-Flagged key raw shaped h =
      let inserted = lookup-insert key k (shape_value repr d raw) shaped in
      elim (Bool-cases (key == k)) [
        | inr other ↦ inl (ground (arith, inserted, other, h))
        | inl same ↦ inr (
          (eq_iff key k).0 same,
          shape_value-flag raw (some_value _ _ (sym (inserted ∙ rw same refl) ∙ h)),
        )
      ]

  shape_entry-Flagged :
      (value : Object) (key : String) (raw : Value) (shaped : Object)
      → lookup k
          (shape_entry repr d value key raw (shape_value repr d raw) (shape_raw repr d raw) shaped)
        ≡ some (boolean true)
      → Flagged key raw shaped
  unfolding shape_entry Flagged
  shape_entry-Flagged value key raw shaped h = elim (Bool-cases (is_marker key)) [
    | inl marked ↦ inl (rw marked at h)
    | inr plain ↦ elim (Bool-cases (key == "properties" && is_dict raw)) [
      | inl dict ↦
          let kept =
            lookup-with_required_ne (skipped_names d (fields_of raw)) (get value "required")
              (insert key (object (shape_raw repr d raw)) shaped) in
          let inserted = lookup-insert key k (object (shape_raw repr d raw)) shaped in
          let e : key ≡ "properties" = (eq_iff key "properties").0 (ground arith) in
          let other : (key == k) ≡ false = subst (λ x. (x == k) ≡ false) (sym e) no_properties in
          inl (sym (kept ∙ inserted ∙ rw other refl) ∙ (rw dict at (rw plain at h)))
      | inr differs ↦ elim (Bool-cases (key == "required" && has_key shaped key)) [
        | inl done ↦ inl (rw done at (rw differs at (rw plain at h)))
        | inr new ↦ insert-Flagged key raw shaped (rw new at (rw differs at (rw plain at h)))
      ]
    ]
  ]

  -- A flag that is set after shaping was set before.
  pub shape_fields-flag :
      (value : Object) (fs : Fields) (shaped : Object)
      → lookup k (shape_fields repr d value fs shaped) ≡ some (boolean true)
      → (lookup k shaped ≡ some (boolean true)) ⊎ In (k, boolean true) (entries fs)
  unfolding shape_fields Flagged
  shape_fields-flag value end shaped h = inl h
  shape_fields-flag value (field key raw rest) shaped h =
      elim (shape_fields-flag value rest
        (shape_entry repr d value key raw (shape_value repr d raw) (shape_raw repr d raw) shaped)
        h) [
          | inr later ↦ inr (inr later)
          | inl entry ↦ elim (shape_entry-Flagged value key raw shaped entry) [
            | inl before ↦ inl before
            | inr (same, set) ↦ inr (inl (ap (λ x. (x, raw)) same ∙ ap (λ x. (k, x)) set))
          ]
        ]

  get-true : (o : Option Value) → is_true (or_null o) ≡ true → o ≡ some (boolean true)
  get-true none h = cc
  get-true (some null) h = cc
  get-true (some (boolean b)) h = ap (λ x. some (boolean x)) h
  get-true (some (int n)) h = cc
  get-true (some (float x)) h = cc
  get-true (some (text t)) h = cc
  get-true (some (arr xs)) h = cc
  get-true (some (obj fs)) h = cc

  pub shape_fields-unset :
      (fs : Fields)
      → NodupKeys (entries fs)
      → is_true (get (entries fs) k) ≡ false
      → is_true (get (entries (fields (shape_fields repr d (entries fs) fs []))) k) ≡ false
  unfolding get lookup
  shape_fields-unset fs u unset =
      let shaped = shape_fields repr d (entries fs) fs [] in
      subst (λ o. is_true (or_null (lookup k o)) ≡ false) (sym (entries-fields shaped))
        (elim (Bool-cases (is_true (or_null (lookup k shaped)))) [
          | inr unmet ↦ unmet
          | inl met ↦ elim (shape_fields-flag (entries fs) fs [] (get-true (lookup k shaped) met)) [
            | inl before ↦ absurd (ground arith)
            | inr there ↦
                let found = In-lookup k (boolean true) (entries fs) there u in
                absurd (ground (arith, found, unset))
          ]
        ])
