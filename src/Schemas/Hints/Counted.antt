-- ===== src/Schemas/Hints/Counted.antt =====
-- The counts of the hints, and the paths of the schemas that have them.
use api2agent.Common.{
  ltb, ◌&&◌, inr, subst, inl, ℕ, zero, suc, ◌+◌, String, Bool, true, false, Option, some, List, [],
  ◌∷◌, ◌++◌, ◌==◌, ◌≡◌, refl, ap, arith, All, In, All-In, length, length-append, map, insert,
  eq_iff, lookup-insert, if◌then◌else◌, Bool-cases,
}
use api2agent.Python.Value.{
  entries, text, float, int, boolean, Value, null, arr, obj, Items, nil, cons, Object, as_dict,
}
use api2agent.Schemas.{dicts_of}
use api2agent.Schemas.Hints.{
  is_polymorphic, child_at, height, path_at, Counter, count_at, add_hints, hint_tests,
  dict_children, schema_children, property_paths, branch_paths, branch_paths_at, branches_at,
  child_paths, then_paths, path_if, for_each, all_paths, collect_schema_hints, collect_paths,
  schema_has_hint, schema_hint_counts, schema_paths_with_hint,
}

-- The hints that both functions know.
abbrev pub counted_hints : List String
counted_hints =
    "nullable" ∷ "read_only" ∷ "write_only" ∷ "schema_keywords" ∷ "string_constraints"
    ∷ "numeric_constraints" ∷ "array_constraints" ∷ "const_schema" ∷ "deprecated_schema_fields"
    ∷ "pattern_schema" ∷ "unsupported_schema_keywords" ∷ "conditional_schema" ∷ "dependent_schema"
    ∷ "maps" ∷ "discriminators" ∷ "discriminator_mappings" ∷ "nested_polymorphic"
    ∷ "arrays_without_items" ∷ "large_objects" ∷ []

unfoldable pub targets : List (String × Object) → List Object
targets = map (λ (path, c). c)

targets-append : (ps qs : List (String × Object)) → targets (ps ++ qs) ≡ targets ps ++ targets qs
unfolding targets
targets-append [] qs = refl
targets-append (p ∷ ps) qs = ap (λ cs. p.1 ∷ cs) (targets-append ps qs)

targets-property_paths :
    (path : String) (schema : Object) → targets (property_paths path schema) ≡ dict_children schema
unfolding targets property_paths dict_children
targets-property_paths path [] = refl
targets-property_paths path ((name, null) ∷ rest) = targets-property_paths path rest
targets-property_paths path ((name, boolean b) ∷ rest) = targets-property_paths path rest
targets-property_paths path ((name, int n) ∷ rest) = targets-property_paths path rest
targets-property_paths path ((name, float x) ∷ rest) = targets-property_paths path rest
targets-property_paths path ((name, text s) ∷ rest) = targets-property_paths path rest
targets-property_paths path ((name, arr xs) ∷ rest) = targets-property_paths path rest
targets-property_paths path ((name, obj fs) ∷ rest) =
    ap (λ cs. entries fs ∷ cs) (targets-property_paths path rest)

targets-branch_paths :
    (path : String) (xs : Items) (index : ℕ) → targets (branch_paths path xs index) ≡ dicts_of xs
unfolding targets branch_paths
targets-branch_paths path nil index = refl
targets-branch_paths path (cons (null) vs) index = targets-branch_paths path vs (index + 1)
targets-branch_paths path (cons (boolean b) vs) index = targets-branch_paths path vs (index + 1)
targets-branch_paths path (cons (int n) vs) index = targets-branch_paths path vs (index + 1)
targets-branch_paths path (cons (float x) vs) index = targets-branch_paths path vs (index + 1)
targets-branch_paths path (cons (text s) vs) index = targets-branch_paths path vs (index + 1)
targets-branch_paths path (cons (arr xs) vs) index = targets-branch_paths path vs (index + 1)
targets-branch_paths path (cons (obj fs) vs) index =
    ap (λ cs. entries fs ∷ cs) (targets-branch_paths path vs (index + 1))

targets-path_at : (path : String) (v : Value) → targets (path_at path v) ≡ child_at v
unfolding targets
targets-path_at path v = ground arith

targets-branch_paths_at :
    (path : String) (v : Value) → targets (branch_paths_at path v) ≡ branches_at v
unfolding targets
targets-branch_paths_at path (arr xs) = targets-branch_paths path xs 0
targets-branch_paths_at path v = ground arith

-- One if it is true.
abbrev bit : Bool → ℕ
bit true = 1
bit false = 0

occurrences : String → List (String × Bool) → ℕ
occurrences hint [] = 0
occurrences hint ((name, test) ∷ tests) =
    let rest = occurrences hint tests in if name == hint then bit test + rest else rest

count_at-insert :
    (hint name : String) (n : ℕ) (counter : Counter)
    → count_at hint (insert name n counter) ≡ (if name == hint then n else count_at hint counter)
unfolding count_at
count_at-insert hint name n counter = ground (arith, lookup-insert name hint n counter)

count_at-add_hints :
    (hint : String) (tests : List (String × Bool)) (counter : Counter)
    → count_at hint (add_hints tests counter) ≡ count_at hint counter + occurrences hint tests
unfolding add_hints occurrences
count_at-add_hints hint [] counter = omega arith
count_at-add_hints hint ((name, false) ∷ tests) counter =
    ground (arith, count_at-add_hints hint tests counter)
count_at-add_hints hint ((name, true) ∷ tests) counter = ground (
  arith,
  eq_iff name hint,
  count_at-insert hint name (count_at name counter + 1) counter,
  count_at-add_hints hint tests (insert name (count_at name counter + 1) counter),
)

agree : (b : Bool) → (c : Bool) × (some b ≡ some c) × (bit b + 0 ≡ bit c)
agree b = (b, refl, omega arith)

agree_and : (a b : Bool) → (c : Bool) × (some (a && b) ≡ some c) × (bit (b && a) + 0 ≡ bit c)
agree_and a b = (a && b, refl, ground arith)

module _ (repr : Value → String) where
  -- A hint whose test is the same in both functions.
  Agrees : String → Type 0
  Agrees hint =
      (depth : ℕ) (schema : Object)
      → (b : Bool) × (schema_has_hint repr schema hint depth ≡ some b)
        × (occurrences hint (hint_tests repr depth schema) ≡ bit b)

  counted_hints-Agree : All Agrees counted_hints
  unfolding Agrees schema_has_hint hint_tests occurrences
  counted_hints-Agree = (
    (λ depth schema. agree _),
    (
      (λ depth schema. agree _),
      (
        (λ depth schema. agree _),
        (
          (λ depth schema. agree _),
          (
            (λ depth schema. agree _),
            (
              (λ depth schema. agree _),
              (
                (λ depth schema. agree _),
                (
                  (λ depth schema. agree _),
                  (
                    (λ depth schema. agree _),
                    (
                      (λ depth schema. agree _),
                      (
                        (λ depth schema. agree _),
                        (
                          (λ depth schema. agree _),
                          (
                            (λ depth schema. agree _),
                            (
                              (λ depth schema. agree _),
                              (
                                (λ depth schema. agree _),
                                (
                                  (λ depth schema. agree _),
                                  (
                                    (λ depth schema.
                                        agree_and (ltb 0 depth) (is_polymorphic schema)),
                                    ((λ depth schema. agree _), ((λ depth schema. agree _), tt)),
                                  ),
                                ),
                              ),
                            ),
                          ),
                        ),
                      ),
                    ),
                  ),
                ),
              ),
            ),
          ),
        ),
      ),
    ),
  )

  -- A hint's paths at a schema, as many as what they add to its count.
  Counts : String → (Option (List String)) → ℕ → ℕ → Type 0
  Counts hint paths before after =
      (ps : List String) × (paths ≡ some ps) × (after ≡ before + length ps)

  Counts-from_none :
      (hint : String) (o : Option (List String)) (n : ℕ)
      → Counts hint o (count_at hint []) n
      → (ps : List String) × (o ≡ some ps) × (n ≡ length ps)
  unfolding Counts count_at
  Counts-from_none hint o n (ps, e, m) = (ps, e, omega arith)

  then_paths-Counts :
      (hint : String) (o q : Option (List String)) (a b c : ℕ)
      → Counts hint o a b
      → Counts hint q b c
      → Counts hint (then_paths o q) a c
  unfolding Counts
  then_paths-Counts hint o q a b c (ps, e, m) (qs, f, n) =
      (ps ++ qs, rw (e, f) refl, rw (length-append, n, m) (omega arith))

  own-Counts :
      (hint : String)
      → Agrees hint
      → (depth : ℕ) (path : String) (schema : Object) (counter : Counter)
      → Counts hint
          (path_if path (schema_has_hint repr schema hint depth))
          (count_at hint counter)
          (count_at hint (add_hints (hint_tests repr depth schema) counter))
  unfolding Agrees Counts
  own-Counts hint agrees depth path schema counter =
      let (b, e, n) = agrees depth schema in
      let added = count_at-add_hints hint (hint_tests repr depth schema) counter in
      elim (Bool-cases b) [
        | inl true_b ↦ (path ∷ [], rw (e, true_b) refl, rw (added, n, true_b) refl)
        | inr false_b ↦ ([], rw (e, false_b) refl, rw (added, n, false_b) refl)
      ]

  all_paths-Counts :
      (hint : String) (paths : String → Object → Option (List String))
      (step : Object → Counter → Counter)
      → ((path : String) (schema : Object) (counter : Counter)
          → Counts hint
              (paths path schema)
              (count_at hint counter)
              (count_at hint (step schema counter)))
      → (cs : List (String × Object)) (counter : Counter)
      → Counts hint
          (all_paths paths cs)
          (count_at hint counter)
          (count_at hint (for_each step (targets cs) counter))
  unfolding all_paths for_each targets
  all_paths-Counts hint paths step h [] counter = unfold Counts in ([], refl, omega arith)
  all_paths-Counts hint paths step h ((path, c) ∷ cs) counter =
      then_paths-Counts hint (paths path c) (all_paths paths cs) (count_at hint counter)
        (count_at hint (step c counter))
        (count_at hint (for_each step (targets cs) (step c counter))) (h path c counter)
        (all_paths-Counts hint paths step h cs (step c counter))

  pub targets-child_paths :
      (path : String) (schema : Object) → targets (child_paths path schema) ≡ schema_children schema
  unfolding child_paths schema_children
  targets-child_paths path schema =
      rw
        (
          targets-append, targets-append, targets-append, targets-append, targets-append,
          targets-property_paths, targets-path_at, targets-path_at, targets-branch_paths_at,
          targets-branch_paths_at, targets-branch_paths_at,
        )
        refl

  collect-Counts :
      (hint : String)
      → Agrees hint
      → (fuel depth : ℕ) (path : String) (schema : Object) (counter : Counter)
      → Counts hint
          (collect_paths repr hint fuel depth path schema)
          (count_at hint counter)
          (count_at hint (collect_schema_hints repr fuel depth schema counter))
  unfolding collect_paths collect_schema_hints
  collect-Counts hint agrees zero depth path schema counter =
      unfold Counts in ([], refl, omega arith)
  collect-Counts hint agrees (suc fuel) depth path schema counter =
      let own = add_hints (hint_tests repr depth schema) counter in
      then_paths-Counts hint (path_if path (schema_has_hint repr schema hint depth))
        (all_paths (collect_paths repr hint fuel (depth + 1)) (child_paths path schema))
        (count_at hint counter) (count_at hint own)
        (count_at hint
          (for_each (collect_schema_hints repr fuel (depth + 1)) (schema_children schema) own))
        (own-Counts hint agrees depth path schema counter)
        (subst
          (λ cs.
            Counts hint
              (all_paths (collect_paths repr hint fuel (depth + 1)) (child_paths path schema))
              (count_at hint own)
              (count_at hint (for_each (collect_schema_hints repr fuel (depth + 1)) cs own)))
          (targets-child_paths path schema)
          (all_paths-Counts hint (collect_paths repr hint fuel (depth + 1))
            (collect_schema_hints repr fuel (depth + 1))
            (λ p c k. collect-Counts hint agrees fuel (depth + 1) p c k) (child_paths path schema)
            own))

  -- The paths with any of the nineteen hints of `counted_hints`, which are all that are counted but
  -- "polymorphic", never raise, and are as many as the hint's count.
  pub schema_paths_with_hint-counts :
      (schema : Value) (hint : String)
      → In hint counted_hints
      → (paths : List String) × (schema_paths_with_hint repr schema hint ≡ some paths)
        × (count_at hint (schema_hint_counts repr schema) ≡ length paths)
  unfolding schema_paths_with_hint schema_hint_counts
  schema_paths_with_hint-counts schema hint known =
      Counts-from_none hint (collect_paths repr hint (height schema + 1) 0 "$" (as_dict schema))
        (count_at hint (collect_schema_hints repr (height schema + 1) 0 (as_dict schema) []))
        (collect-Counts hint (All-In Agrees counted_hints hint counted_hints-Agree known)
          (height schema + 1) 0 "$" (as_dict schema) [])
