-- ===== src/Common/Dicts.antt =====
-- Dicts with text keys, in insertion order: `lookup` is `d.get(k)`, `insert` is `d[k] = v`,
-- `erase` is `d.pop(k, None)` and `update` is `d.update(e)`.
use Prim.Native.String.{String}
use mathlib.Core.Path.{◌≡◌, refl, ◌∙◌}
use mathlib.Core.Option.{Option, none, some}
use mathlib.Core.List.{List, [], ◌∷◌, map}
use native.Mathlib.Omega.{arith}
use text.Mathlib.Text.{◌==◌}
use text.Mathlib.TextEquality.{eq_iff}
use api2agent.Common.Tests.{if◌then◌else◌}

module _ {ℓ} {V : Type ℓ} where
  unfoldable pub lookup : String → List (String × V) → Option V
  lookup k [] = none
  lookup k ((j, v) ∷ d) = if j == k then some v else lookup k d

  unfoldable pub insert : String → V → List (String × V) → List (String × V)
  insert k v [] = (k, v) ∷ []
  insert k v ((j, w) ∷ d) = if j == k then (j, v) ∷ d else (j, w) ∷ insert k v d

  unfoldable pub erase : String → List (String × V) → List (String × V)
  erase k [] = []
  erase k ((j, w) ∷ d) = let rest = erase k d in if j == k then rest else (j, w) ∷ rest

  unfoldable pub update : List (String × V) → List (String × V) → List (String × V)
  unfolding insert
  update d [] = d
  update d ((k, v) ∷ e) = update (insert k v d) e

  unfoldable pub keys : List (String × V) → List String
  keys = map (λ (k, _). k)

  abbrev pub NodupKeys : List (String × V) → Type ℓ
  NodupKeys [] = Unit
  NodupKeys ((k, _) ∷ d) = (lookup k d ≡ none) × NodupKeys d

  pub lookup-insert :
      (k j : String) (v : V) (d : List (String × V))
      → lookup j (insert k v d) ≡ (if k == j then some v else lookup j d)
  unfolding lookup insert
  lookup-insert k j v [] = refl
  lookup-insert k j v ((i, w) ∷ d) =
      ground (arith, eq_iff k j, eq_iff i k, eq_iff i j, lookup-insert k j v d)

  pub lookup-erase :
      (k j : String) (d : List (String × V))
      → lookup j (erase k d) ≡ (if k == j then none else lookup j d)
  unfolding lookup erase
  lookup-erase k j [] = ground arith
  lookup-erase k j ((i, w) ∷ d) =
      ground (arith, lookup-erase k j d, eq_iff i k, eq_iff i j, eq_iff k j)

  pub insert-NodupKeys :
      (k : String) (v : V) (d : List (String × V)) → NodupKeys d → NodupKeys (insert k v d)
  unfolding insert lookup
  insert-NodupKeys k v [] u = (refl, tt)
  insert-NodupKeys k v ((j, w) ∷ d) (fresh, u) =
      ground (arith, insert-NodupKeys k v d u, lookup-insert k j v d, eq_iff j k, eq_iff k j)

  pub erase-NodupKeys : (k : String) (d : List (String × V)) → NodupKeys d → NodupKeys (erase k d)
  unfolding erase
  erase-NodupKeys k [] u = tt
  erase-NodupKeys k ((j, w) ∷ d) (fresh, u) =
      ground (arith, erase-NodupKeys k d u, lookup-erase k j d)

  -- The later dict wins where it has the key; its keys are distinct.
  pub lookup-update :
      (j : String) (d e : List (String × V))
      → NodupKeys e
      → lookup j (update d e) ≡ elim (lookup j e) [ none ↦ lookup j d | some v ↦ some v ]
  unfolding update lookup
  lookup-update j d [] u = refl
  lookup-update j d ((k, v) ∷ e) (fresh, u) =
      lookup-update j (insert k v d) e u ∙ ground (arith, lookup-insert k j v d, eq_iff k j)
