-- ===== src/Capabilities/Normalization.antt =====
-- api2agent/capabilities/normalization.py: a provider's body read through its output mapping. An
-- exception is `unsupported` for an expression that is no path, and `missing` for absent fields.
use api2agent.Common.{
  ap, ◌∙◌, All, subst, String, none, some, List, [], ◌∷◌, ◌++◌, ◌==◌, ◌<>◌, ◌≡◌, refl, ◌⊎◌, inl,
  inr, arith, eq_iff, lookup, insert, lookup-insert, NodupKeys, Bool-cases, if◌then◌else◌,
}
use package.text.Mathlib.Text.{starts_with}
use api2agent.Python.Text.{split_dots, drop_chars, join}
use api2agent.Python.Value.{entries-fields, text, object, Value, obj, Object, entries}

-- A path that is no path, a field that is not there, and a value.
pub data Extracted : Type 0 where
  unsupported : Extracted
  absent : Extracted
  found : Value → Extracted

walk : List String → Value → Extracted
walk [] current = found current
walk (part ∷ parts) (obj fs) = elim (lookup part (entries fs)) [
  | none ↦ absent
  | some next ↦ walk parts next
]
walk (part ∷ parts) _ = absent

unfoldable pub extract_json_path : Value → String → Extracted
unfolding walk
extract_json_path body expression =
    if expression == "$"
    then found body
    else if starts_with expression "$."
    then walk (split_dots (drop_chars 2 expression)) body
    else unsupported

pub data Normalized : Type 0 where
  normalized : Object → Normalized
  error : String → Normalized

-- The loop over the mapping, from what it has gathered; the fields that are missing are named in order.
unfoldable pub normalize_fields : Value → List (String × String) → Object → List String → Normalized
normalize_fields body [] acc [] = normalized acc
normalize_fields body [] acc (m ∷ missing) =
    error ("Missing output mappings: " <> join ", " (m ∷ missing))
normalize_fields body ((output_field, expression) ∷ mapping) acc missing =
    elim (extract_json_path body expression) [
      | unsupported ↦ error ("Unsupported output mapping expression: " <> expression)
      | absent ↦
          normalize_fields body mapping acc
            (missing ++ (output_field <> (" <- " <> expression)) ∷ [])
      | found value ↦ normalize_fields body mapping (insert output_field value acc) missing
    ]

body_as_dict : Value → Object
body_as_dict (obj fs) = entries fs
body_as_dict body = ("value", body) ∷ []

unfoldable pub normalize_output : Value → List (String × String) → Normalized
unfolding normalize_fields body_as_dict
normalize_output body [] = normalized (body_as_dict body)
normalize_output body (m ∷ mapping) = normalize_fields body (m ∷ mapping) [] []

Extracted-cases :
    (x : Extracted) → (x ≡ unsupported) ⊎ ((x ≡ absent) ⊎ ((v : Value) × (x ≡ found v)))
Extracted-cases unsupported = inl refl
Extracted-cases absent = inr (inl refl)
Extracted-cases (found v) = inr (inr (v, refl))

missing_raises :
    (body : Value) (mapping : List (String × String)) (acc : Object) (m : String) (ms : List String)
    (d : Object)
    → normalize_fields body mapping acc (m ∷ ms) ≡ normalized d
    → ⊥
unfolding normalize_fields
missing_raises body [] acc m ms d h = cc
missing_raises body ((f, e) ∷ mapping) acc m ms d h =
    elim (Extracted-cases (extract_json_path body e)) [
      | inl u ↦ ground arith
      | inr (inl a) ↦
          missing_raises body mapping acc m (ms ++ (f <> (" <- " <> e)) ∷ []) d (ground arith)
      | inr (inr (v, k)) ↦ missing_raises body mapping (insert f v acc) m ms d (ground arith)
    ]

-- The result holds `v` under `name`, and `v` is at the path that the mapping gives it.
abbrev pub HasMapped : Value → List (String × String) → Object → Object → String → Type 0
HasMapped body mapping acc d name =
    (lookup name mapping ≡ none → lookup name d ≡ lookup name acc)
    × ((e : String)
        → lookup name mapping ≡ some e
        → (v : Value) × (extract_json_path body e ≡ found v) × (lookup name d ≡ some v))

normalize_fields-HasMapped :
    (body : Value) (mapping : List (String × String)) (acc d : Object)
    → NodupKeys mapping
    → normalize_fields body mapping acc [] ≡ normalized d
    → (name : String) → HasMapped body mapping acc d name
unfolding normalize_fields lookup
normalize_fields-HasMapped body [] acc d u h name = (λ _. ground arith, λ e k. cc)
normalize_fields-HasMapped body ((f, e) ∷ mapping) acc d (fresh, u) h name =
    elim (Extracted-cases (extract_json_path body e)) [
      | inl x ↦ ground arith
      | inr (inl a) ↦
          absurd (missing_raises body mapping acc (f <> (" <- " <> e)) [] d (ground arith))
      | inr (inr (v, k)) ↦
          let (absent_name, mapped_name) =
            normalize_fields-HasMapped body mapping (insert f v acc) d u (ground arith) name in
          elim (Bool-cases (f == name)) [
            | inl same ↦
                let is_name : f ≡ name = (eq_iff f name).0 same in
                (
                  λ none_there. ground arith,
                  λ e' there. (
                    v,
                    ground arith,
                    absent_name (subst (λ n. lookup n mapping ≡ none) is_name fresh)
                        ∙ ground (arith, lookup-insert f name v acc),
                  ),
                )
            | inr other ↦ (
              λ none_there. absent_name (ground arith) ∙ ground (arith, lookup-insert f name v acc),
              λ e' there. mapped_name e' (ground arith),
            )
          ]
    ]

normalize_fields-total :
    (body : Value) (mapping : List (String × String)) (acc : Object)
    → All (λ (_, e). (v : Value) × (extract_json_path body e ≡ found v)) mapping
    → (d : Object) × (normalize_fields body mapping acc [] ≡ normalized d)
unfolding normalize_fields
normalize_fields-total body [] acc h = (acc, refl)
normalize_fields-total body ((f, e) ∷ mapping) acc ((v, k), h) =
    let (d, r) = normalize_fields-total body mapping (insert f v acc) h in
    (d, rw (k, normalize_fields) r)

-- A mapping that is not empty, of distinct fields, gives exactly its fields, each with the value at
-- its path, and it gives a result whenever every path leads to a value. Without a mapping a body
-- that is a dict passes as it is, and one that is a text stands under "value".
pub normalize_output-HasMapped :
    (body : Value) (m : String × String) (rest : List (String × String))
    → NodupKeys (m ∷ rest)
    → ((d : Object)
        → normalize_output body (m ∷ rest) ≡ normalized d
        → (name : String) → HasMapped body (m ∷ rest) [] d name)
      × (All (λ (_, e). (v : Value) × (extract_json_path body e ≡ found v)) (m ∷ rest)
          → (d : Object) × (normalize_output body (m ∷ rest) ≡ normalized d))
      × ((d : Object) → normalize_output (object d) [] ≡ normalized d)
      × ((t : String) → normalize_output (text t) [] ≡ normalized (("value", text t) ∷ []))
unfolding normalize_output
normalize_output-HasMapped body m rest u = (
  λ d h name. normalize_fields-HasMapped body (m ∷ rest) [] d u h name,
  λ h. normalize_fields-total body (m ∷ rest) [] h,
  λ d. ap normalized (entries-fields d),
  λ t. refl,
)
