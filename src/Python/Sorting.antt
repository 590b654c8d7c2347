-- ===== src/Python/Sorting.antt =====
-- `sorted` with a key: stable, by the `<` of the keys; and `min` and `max` of a list that is not
-- empty, which keep the first of equal items. Python's sort is another algorithm with the same
-- result wherever `<` is a strict weak order.
pub mod Laws
use api2agent.Common.{Bool, List, [], ◌∷◌, if◌then◌else◌}

module _ {ℓ} {A : Type ℓ} (lt : A → A → Bool) where
  -- An item goes before the first one that is not below it, so equal items keep their order.
  unfoldable pub insert_sorted : A → List A → List A
  insert_sorted x [] = x ∷ []
  insert_sorted x (y ∷ ys) = if lt y x then y ∷ insert_sorted x ys else x ∷ y ∷ ys

  unfoldable pub sort : List A → List A
  unfolding insert_sorted
  sort [] = []
  sort (x ∷ xs) = insert_sorted x (sort xs)

  -- `min(x, *xs)`
  unfoldable pub min_of : A → List A → A
  min_of x [] = x
  min_of x (y ∷ ys) = min_of (if lt y x then y else x) ys

  -- `max(x, *xs)`
  unfoldable pub max_of : A → List A → A
  max_of x [] = x
  max_of x (y ∷ ys) = max_of (if lt x y then y else x) ys
