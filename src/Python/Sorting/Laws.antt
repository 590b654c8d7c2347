-- ===== src/Python/Sorting/Laws.antt =====
-- A sort permutes its items; by numbers, it orders them and puts the first least item in front.
use mathlib.Core.List.{Perm}
use mathlib.Core.List.Perm
use api2agent.Common.{
  All-append, ◌+◌, All-In, In, ℕ, ◌≤◌, ◌<◌, Bool, some, List, [], ◌∷◌, ◌++◌, ◌≡◌, refl, ap, ◌∙◌,
  sym, subst, arith, ltb, All, head?, Bool-cases, ◌⊎◌, inl, inr, ltb→lt,
}
use api2agent.Common.Groups.{total}
use api2agent.Python.Sorting.{insert_sorted, sort}

module _ {ℓ} {A : Type ℓ} (lt : A → A → Bool) where
  insert_sorted-perm : (x : A) (xs : List A) → Perm (insert_sorted lt x xs) (x ∷ xs)
  unfolding insert_sorted
  insert_sorted-perm x [] = Perm.refl (x ∷ [])
  insert_sorted-perm x (y ∷ ys) = elim (Bool-cases (lt y x)) [
    | inl below ↦ rw below (Perm.trans (Perm.cons y (insert_sorted-perm x ys)) (Perm.swap x y ys))
    | inr not_below ↦ rw not_below (Perm.refl (x ∷ y ∷ ys))
  ]

  pub sort-perm : (xs : List A) → Perm (sort lt xs) xs
  unfolding sort
  sort-perm [] = Perm.refl []
  sort-perm (x ∷ xs) = Perm.trans (insert_sorted-perm x (sort lt xs)) (Perm.cons x (sort-perm xs))

  insert_sorted-All {κ} :
      (P : A → Type κ) (x : A) (xs : List A) → P x → All P xs → All P (insert_sorted lt x xs)
  unfolding insert_sorted
  insert_sorted-All P x [] px _ = (px, tt)
  insert_sorted-All P x (y ∷ ys) px (py, pys) = elim (Bool-cases (lt y x)) [
    | inl below ↦ rw below (py, insert_sorted-All P x ys px pys)
    | inr not_below ↦ rw not_below (px, (py, pys))
  ]

  pub sort-All {κ} : (P : A → Type κ) (xs : List A) → All P xs → All P (sort lt xs)
  unfolding sort
  sort-All P [] _ = tt
  sort-All P (x ∷ xs) (px, pxs) = insert_sorted-All P x (sort lt xs) px (sort-All P xs pxs)

-- Two orders that agree on the items sort them alike.
module _ {ℓ κ} {A : Type ℓ} (lt lt' : A → A → Bool) (P : A → Type κ)
    (agree : (a b : A) → P a → P b → lt a b ≡ lt' a b) where
  insert_sorted-agree :
      (x : A) (xs : List A) → P x → All P xs → insert_sorted lt x xs ≡ insert_sorted lt' x xs
  unfolding insert_sorted
  insert_sorted-agree x [] px _ = refl
  insert_sorted-agree x (y ∷ ys) px (py, pys) =
      rw (agree y x py px) (rw (insert_sorted-agree x ys px pys))

  pub sort-agree : (xs : List A) → All P xs → sort lt xs ≡ sort lt' xs
  unfolding sort
  sort-agree [] _ = refl
  sort-agree (x ∷ xs) (px, pxs) =
      insert_sorted-agree x (sort lt xs) px (sort-All lt P xs pxs)
      ∙ ap (insert_sorted lt' x) (sort-agree xs pxs)

module _ {ℓ} {A : Type ℓ} (key : A → ℕ) where
  abbrev pub by_key : A → A → Bool
  by_key a b = ltb (key a) (key b)

  -- `a` is the first of the items whose key is least.
  pub record IsFirstLeast (a : A) (xs : List A) : Type ℓ where
    pub before : List A
    pub after : List A
    pub split : xs ≡ before ++ a ∷ after
    pub above : All (λ d. key a < key d) before
    pub not_below : All (λ d. key a ≤ key d) after

  All-le : (k m : ℕ) (ds : List A) → k ≤ m → All (λ d. m ≤ key d) ds → All (λ d. k ≤ key d) ds
  All-le k m [] h _ = tt
  All-le k m (d ∷ ds) h (x, xs) = (omega arith, All-le k m ds h xs)

  All-le_of_lt : (k m : ℕ) (ds : List A) → k ≤ m → All (λ d. m < key d) ds → All (λ d. k ≤ key d) ds
  All-le_of_lt k m [] h _ = tt
  All-le_of_lt k m (d ∷ ds) h (x, xs) = (omega arith, All-le_of_lt k m ds h xs)

  IsFirstLeast-cons :
      (x y : A) (xs : List A) → key y < key x → IsFirstLeast y xs → IsFirstLeast y (x ∷ xs)
  IsFirstLeast-cons x y xs h f = record {
    before = x ∷ f.before;
    after = f.after;
    split = ap (λ l. x ∷ l) f.split;
    above = (h, f.above);
    not_below = f.not_below;
  }

  IsFirstLeast-head :
      (x y : A) (xs : List A) → key x ≤ key y → IsFirstLeast y xs → IsFirstLeast x (x ∷ xs)
  IsFirstLeast-head x y xs h f = record {
    before = [];
    after = xs;
    split = refl;
    above = tt;
    not_below = subst (All (λ d. key x ≤ key d)) (sym f.split) (
        All-append (λ d. key x ≤ key d) f.before (y ∷ f.after)
          (All-le_of_lt (key x) (key y) f.before h f.above)
          (h, All-le (key x) (key y) f.after h f.not_below));
  }

  sort-ne-nil : (x : A) (xs ys : List A) → insert_sorted by_key x ys ≡ [] → ⊥
  unfolding insert_sorted
  sort-ne-nil x xs [] h = cc
  sort-ne-nil x xs (y ∷ ys) h = ground arith

  head?-insert_sorted :
      (x a : A) (ys : List A)
      → head? (insert_sorted by_key x ys) ≡ some a
      → ((ys ≡ []) × (a ≡ x))
        ⊎ ((y : A) × (head? ys ≡ some y)
            × (((key y < key x) × (a ≡ y)) ⊎ ((key x ≤ key y) × (a ≡ x))))
  unfolding insert_sorted
  head?-insert_sorted x a [] h = inl (refl, ground arith)
  head?-insert_sorted x a (y ∷ ys) h = elim (Bool-cases (by_key y x)) [
    | inl below ↦ inr (y, refl, inl (ltb→lt _ _ below, ground arith))
    | inr not_below ↦ inr (y, refl, inr (ground arith, ground arith))
  ]

  sort-nil : (xs : List A) → sort by_key xs ≡ [] → xs ≡ []
  unfolding sort
  sort-nil [] h = refl
  sort-nil (x ∷ xs) h = absurd (sort-ne-nil x xs (sort by_key xs) h)

  -- The item in front after a sort is the first of those with the least key.
  pub head?-sort : (xs : List A) (a : A) → head? (sort by_key xs) ≡ some a → IsFirstLeast a xs
  unfolding sort
  head?-sort [] a h = cc
  head?-sort (x ∷ xs) a h = elim (head?-insert_sorted x a (sort by_key xs) h) [
    | inl (e, is_x) ↦
        subst (λ b. IsFirstLeast b (x ∷ xs)) (sym is_x)
          (record {
            before = [];
            after = xs;
            split = refl;
            above = tt;
            not_below = rw (sort-nil xs e) tt;
          })
    | inr (y, in_front, inl (below, is_y)) ↦
        subst (λ b. IsFirstLeast b (x ∷ xs)) (sym is_y)
          (IsFirstLeast-cons x y xs below (head?-sort xs y in_front))
    | inr (y, in_front, inr (not_below, is_x)) ↦
        subst (λ b. IsFirstLeast b (x ∷ xs)) (sym is_x)
          (IsFirstLeast-head x y xs not_below (head?-sort xs y in_front))
  ]

  -- Each item stands before those whose key is not below its own.
  abbrev pub IsSorted : List A → Type ℓ
  IsSorted [] = Unit
  IsSorted (x ∷ xs) = All (λ d. key x ≤ key d) xs × IsSorted xs

  insert_sorted-IsSorted :
      (x : A) (xs : List A) → IsSorted xs → IsSorted (insert_sorted by_key x xs)
  unfolding insert_sorted
  insert_sorted-IsSorted x [] _ = (tt, tt)
  insert_sorted-IsSorted x (y ∷ ys) (least, rest) = elim (Bool-cases (by_key y x)) [
    | inl below ↦
        let small : key y ≤ key x = ground arith in
        rw below (
          insert_sorted-All by_key (λ d. key y ≤ key d) x ys small least,
          insert_sorted-IsSorted x ys rest,
        )
    | inr not_below ↦
        let small : key x ≤ key y = ground arith in
        rw not_below ((small, All-le (key x) (key y) ys small least), (least, rest))
  ]

  pub sort-IsSorted : (xs : List A) → IsSorted (sort by_key xs)
  unfolding sort
  sort-IsSorted [] = tt
  sort-IsSorted (x ∷ xs) = insert_sorted-IsSorted x (sort by_key xs) (sort-IsSorted xs)

  IsFirstLeast-All : (a : A) (xs : List A) → IsFirstLeast a xs → All (λ d. key a ≤ key d) xs
  IsFirstLeast-All a xs f = subst (All (λ d. key a ≤ key d)) (sym f.split) (
      All-append (λ d. key a ≤ key d) f.before (a ∷ f.after)
        (All-le_of_lt (key a) (key a) f.before (omega arith) f.above) (omega arith, f.not_below))

  pub IsFirstLeast-le : (a d : A) (xs : List A) → IsFirstLeast a xs → In d xs → key a ≤ key d
  IsFirstLeast-le a d xs f i = All-In (λ x. key a ≤ key x) xs d (IsFirstLeast-All a xs f) i

  pub IsFirstLeast-In : (a : A) (xs : List A) → IsFirstLeast a xs → In a xs
  IsFirstLeast-In a xs f = subst (In a) (sym f.split) (at_end f.before)
    where
      at_end : (before : List A) → In a (before ++ a ∷ f.after)
      at_end [] = inl refl
      at_end (b ∷ before) = inr (at_end before)

-- A sum over the items does not depend on their order.
module _ {ℓ} {A : Type ℓ} (lt : A → A → Bool) (f : A → ℕ) where
  total-insert_sorted : (x : A) (xs : List A) → total f (insert_sorted lt x xs) ≡ f x + total f xs
  unfolding insert_sorted total
  total-insert_sorted x [] = refl
  total-insert_sorted x (y ∷ ys) = ground (arith, total-insert_sorted x ys)

  pub total-sort : (xs : List A) → total f (sort lt xs) ≡ total f xs
  unfolding sort total
  total-sort [] = refl
  total-sort (x ∷ xs) = omega (arith, total-insert_sorted x (sort lt xs), total-sort xs)
