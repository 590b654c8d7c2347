-- ===== src/Schemas/Hints/Fuel.antt =====
-- The fuel of the recursion over a schema's children is enough.
use api2agent.Common.{
  All-append, subst, sym, inr, inl, ℕ, zero, suc, ◌+◌, ◌<◌, ◌≤◌, max, String, Option, List, [], ◌∷◌,
  ◌++◌, ◌==◌, ◌≡◌, refl, ap, arith, All, lookup, Bool-cases,
}
use api2agent.Python.Value.{
  Value, null, boolean, int, float, text, arr, obj, Items, nil, cons, Fields, end, field, Object,
  entries, get, as_dict,
}
use api2agent.Schemas.{dicts_of}
use api2agent.Schemas.Hints.Counted.{targets, targets-child_paths}
use api2agent.Schemas.Hints.{
  then_paths, path_if, schema_has_hint, Counter, add_hints, hint_tests, dict_children, child_at,
  branches_at, schema_children, for_each, all_paths, collect_schema_hints, collect_paths, height,
  fields_height, items_height, schema_hint_counts, schema_paths_with_hint, child_paths,
}

object_height : Object → ℕ
unfolding height
object_height [] = 0
object_height ((k, v) ∷ d) = max (height v) (object_height d)

object_height-entries : (fs : Fields) → object_height (entries fs) ≡ fields_height fs
unfolding object_height height
object_height-entries end = refl
object_height-entries (field k v fs) = ap (max (height v)) (object_height-entries fs)

height-get : (d : Object) (k : String) → height (get d k) ≤ object_height d
unfolding get lookup object_height height
height-get [] k = omega arith
height-get ((j, v) ∷ d) k = elim (Bool-cases (j == k)) [
  | inl own ↦ rw own (omega arith)
  | inr other ↦ rw other (omega (arith, height-get d k))
]

-- Schemas that are less high than a number.
Below : ℕ → Object → Type 0
Below n schema = object_height schema < n

module _ (n : ℕ) where
  Below-entries : (fs : Fields) → height (obj fs) ≤ n → Below n (entries fs)
  unfolding Below height
  Below-entries fs h = omega (arith, object_height-entries fs)

  child_at-Below : (v : Value) → height v ≤ n → All (Below n) (child_at v)
  child_at-Below (obj fs) h = (Below-entries fs h, tt)
  child_at-Below null h = tt
  child_at-Below (boolean b) h = tt
  child_at-Below (int i) h = tt
  child_at-Below (float x) h = tt
  child_at-Below (text s) h = tt
  child_at-Below (arr xs) h = tt

  dicts_of-Below : (xs : Items) → items_height xs ≤ n → All (Below n) (dicts_of xs)
  unfolding height
  dicts_of-Below nil h = tt
  dicts_of-Below (cons (obj fs) vs) h =
      (Below-entries fs (omega arith), dicts_of-Below vs (omega arith))
  dicts_of-Below (cons null vs) h = dicts_of-Below vs (omega arith)
  dicts_of-Below (cons (boolean b) vs) h = dicts_of-Below vs (omega arith)
  dicts_of-Below (cons (int i) vs) h = dicts_of-Below vs (omega arith)
  dicts_of-Below (cons (float x) vs) h = dicts_of-Below vs (omega arith)
  dicts_of-Below (cons (text s) vs) h = dicts_of-Below vs (omega arith)
  dicts_of-Below (cons (arr xs) vs) h = dicts_of-Below vs (omega arith)

  branches_at-Below : (v : Value) → height v ≤ n → All (Below n) (branches_at v)
  unfolding height
  branches_at-Below (arr xs) h = dicts_of-Below xs (omega arith)
  branches_at-Below null h = tt
  branches_at-Below (boolean b) h = tt
  branches_at-Below (int i) h = tt
  branches_at-Below (float x) h = tt
  branches_at-Below (text s) h = tt
  branches_at-Below (obj fs) h = tt

  dict_children-Below : (d : Object) → object_height d ≤ n → All (Below n) (dict_children d)
  unfolding dict_children object_height
  dict_children-Below [] h = tt
  dict_children-Below ((k, obj fs) ∷ d) h =
      (Below-entries fs (omega arith), dict_children-Below d (omega arith))
  dict_children-Below ((k, null) ∷ d) h = dict_children-Below d (omega arith)
  dict_children-Below ((k, boolean b) ∷ d) h = dict_children-Below d (omega arith)
  dict_children-Below ((k, int i) ∷ d) h = dict_children-Below d (omega arith)
  dict_children-Below ((k, float x) ∷ d) h = dict_children-Below d (omega arith)
  dict_children-Below ((k, text s) ∷ d) h = dict_children-Below d (omega arith)
  dict_children-Below ((k, arr xs) ∷ d) h = dict_children-Below d (omega arith)

  as_dict-height : (v : Value) → height v ≤ n → object_height (as_dict v) ≤ n
  unfolding height object_height
  as_dict-height (obj fs) h = omega (arith, object_height-entries fs)
  as_dict-height null h = omega arith
  as_dict-height (boolean b) h = omega arith
  as_dict-height (int i) h = omega arith
  as_dict-height (float x) h = omega arith
  as_dict-height (text s) h = omega arith
  as_dict-height (arr xs) h = omega arith

  schema_children-Below :
      (schema : Object) → object_height schema ≤ n → All (Below n) (schema_children schema)
  unfolding schema_children
  schema_children-Below schema h =
      let at : (k : String) → height (get schema k) ≤ n = λ k. omega (arith, height-get schema k) in
      let join : (xs ys : List Object)
          → All (Below n) xs
          → All (Below n) ys
          → All (Below n) (xs ++ ys) =
        All-append (Below n) in
      join _ _
        (join _ _
          (join _ _
            (join _ _
              (join _ _
                (dict_children-Below (as_dict (get schema "properties"))
                  (as_dict-height (get schema "properties") (at "properties")))
                (child_at-Below (get schema "items") (at "items")))
              (branches_at-Below (get schema "oneOf") (at "oneOf")))
            (branches_at-Below (get schema "anyOf") (at "anyOf")))
          (branches_at-Below (get schema "allOf") (at "allOf")))
        (child_at-Below (get schema "additionalProperties") (at "additionalProperties"))

for_each-same {ℓ} :
    (P : Object → Type ℓ) (step step' : Object → Counter → Counter)
    → ((c : Object) → P c → (k : Counter) → step c k ≡ step' c k)
    → (cs : List Object) (k : Counter) → All P cs
    → for_each step cs k ≡ for_each step' cs k
unfolding for_each
for_each-same P step step' h [] k all = refl
for_each-same P step step' h (c ∷ cs) k (p, all) =
    rw (h c p k) (for_each-same P step step' h cs (step' c k) all)

all_paths-same {ℓ} :
    (P : Object → Type ℓ) (step step' : String → Object → Option (List String))
    → ((path : String) (c : Object) → P c → step path c ≡ step' path c)
    → (cs : List (String × Object)) → All P (targets cs)
    → all_paths step cs ≡ all_paths step' cs
unfolding all_paths targets
all_paths-same P step step' h [] all = refl
all_paths-same P step step' h ((path, c) ∷ cs) (p, all) =
    rw (h path c p, all_paths-same P step step' h cs all) refl

module _ (repr : Value → String) where
  collect_schema_hints-same :
      (f g depth : ℕ) (schema : Object) (k : Counter)
      → Below f schema
      → Below g schema
      → collect_schema_hints repr f depth schema k ≡ collect_schema_hints repr g depth schema k
  unfolding collect_schema_hints Below
  collect_schema_hints-same zero g depth schema k p q = absurd (omega arith)
  collect_schema_hints-same (suc f) zero depth schema k p q = absurd (omega arith)
  collect_schema_hints-same (suc f) (suc g) depth schema k p q =
      for_each-same (Below (object_height schema)) (collect_schema_hints repr f (depth + 1))
        (collect_schema_hints repr g (depth + 1))
        (λ c b j. collect_schema_hints-same f g (depth + 1) c j (omega arith) (omega arith))
        (schema_children schema) (add_hints (hint_tests repr depth schema) k)
        (schema_children-Below (object_height schema) schema (omega arith))

  collect_paths-same :
      (hint : String) (f g depth : ℕ) (path : String) (schema : Object)
      → Below f schema
      → Below g schema
      → collect_paths repr hint f depth path schema ≡ collect_paths repr hint g depth path schema
  unfolding collect_paths Below
  collect_paths-same hint zero g depth path schema p q = absurd (omega arith)
  collect_paths-same hint (suc f) zero depth path schema p q = absurd (omega arith)
  collect_paths-same hint (suc f) (suc g) depth path schema p q =
      ap (then_paths (path_if path (schema_has_hint repr schema hint depth))) (
        all_paths-same (Below (object_height schema)) (collect_paths repr hint f (depth + 1))
          (collect_paths repr hint g (depth + 1))
          (λ r c b. collect_paths-same hint f g (depth + 1) r c (omega arith) (omega arith))
          (child_paths path schema)
          (subst (All (Below (object_height schema))) (sym (targets-child_paths repr path schema))
            (schema_children-Below (object_height schema) schema (omega arith))))

  -- Fuel above the nesting of a schema is enough: the counts and the paths with a hint are the same
  -- for every such fuel.
  pub schema_hints-enough :
      (schema : Value) (hint : String) (fuel : ℕ)
      → height schema < fuel
      → (collect_schema_hints repr fuel 0 (as_dict schema) [] ≡ schema_hint_counts repr schema)
        × (collect_paths repr hint fuel 0 "$" (as_dict schema)
            ≡ schema_paths_with_hint repr schema hint)
  unfolding schema_hint_counts schema_paths_with_hint Below
  schema_hints-enough schema hint fuel enough =
      let low : object_height (as_dict schema) ≤ height schema =
        as_dict-height (height schema) schema (omega arith) in
      (
        collect_schema_hints-same fuel (height schema + 1) 0 (as_dict schema) [] (omega arith)
            (omega arith),
        collect_paths-same hint fuel (height schema + 1) 0 "$" (as_dict schema) (omega arith)
            (omega arith),
      )
