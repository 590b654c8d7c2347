-- ===== src/Common/Lists.antt =====
-- Lists measured by native numbers, under the library's names, and filters that run.
use Prim.Native.Nat.{ℕ, zero, suc, ◌+◌, ◌≤◌, min}
use mathlib.Core.Path.{sym, subst, ◌≡◌, refl, ap}
use mathlib.Core.Bool.{Bool, true, false}
use mathlib.Core.Logic.{inr, inl, ◌⊎◌}
use mathlib.Core.Option.{Option, none, some}
use mathlib.Core.List.{List, [], ◌∷◌, ◌++◌, map}
use native.Mathlib.Omega.{arith}
use api2agent.Common.Tests.{Bool-cases, if◌then◌else◌}

module _ {ℓ} {A : Type ℓ} where
  abbrev pub length : List A → ℕ
  length [] = 0
  length (x ∷ xs) = suc (length xs)

  abbrev pub take : ℕ → List A → List A
  take zero xs = []
  take (suc n) [] = []
  take (suc n) (x ∷ xs) = x ∷ take n xs

  abbrev pub head? : List A → Option A
  head? [] = none
  head? (x ∷ xs) = some x

  -- `[x for x in xs if p(x)]`
  abbrev pub select : (A → Bool) → List A → List A
  select p [] = []
  select p (x ∷ xs) = if p x then x ∷ select p xs else select p xs

  -- The first item that passes.
  abbrev pub find_first : (A → Bool) → List A → Option A
  find_first p [] = none
  find_first p (x ∷ xs) = if p x then some x else find_first p xs

  abbrev pub any : (A → Bool) → List A → Bool
  any p [] = false
  any p (x ∷ xs) = if p x then true else any p xs

  -- A predicate of each item, as a tuple.
  abbrev pub All {κ} : (A → Type κ) → List A → Type κ
  All P [] = Unit
  All P (x ∷ xs) = P x × All P xs

  -- Where an item stands in a list, as a value that can be matched.
  abbrev pub In : A → List A → Type ℓ
  In a [] = Unit × ⊥
  In a (x ∷ xs) = (x ≡ a) ⊎ In a xs

module _ {ℓ} {A : Type ℓ} where
  pub length-append : (xs ys : List A) → length (xs ++ ys) ≡ length xs + length ys
  length-append [] ys = omega arith
  length-append (x ∷ xs) ys = omega (arith, length-append xs ys)

  pub length-take : (n : ℕ) (xs : List A) → length (take n xs) ≡ min n (length xs)
  length-take zero xs = omega arith
  length-take (suc n) [] = omega arith
  length-take (suc n) (x ∷ xs) = omega (arith, length-take n xs)

  pub length-select-le : (p : A → Bool) (xs : List A) → length (select p xs) ≤ length xs
  length-select-le p [] = omega arith
  length-select-le p (x ∷ xs) = ground (arith, length-select-le p xs)

  pub All-select {κ} :
      (P : A → Type κ) (p : A → Bool) (xs : List A)
      → ((x : A) → p x ≡ true → P x)
      → All P (select p xs)
  All-select P p [] h = tt
  All-select P p (x ∷ xs) h = split (p x) (h x) (All-select P p xs h)
    where
      split :
          (b : Bool)
          → (b ≡ true → P x)
          → All P (select p xs)
          → All P (if b then x ∷ select p xs else select p xs)
      split true hx rest = (hx refl, rest)
      split false hx rest = rest

  pub length-map {κ} : {B : Type κ} (f : A → B) (xs : List A) → length (map f xs) ≡ length xs
  length-map f [] = refl
  length-map f (x ∷ xs) = ap suc (length-map f xs)

module _ {ℓ} {A : Type ℓ} (p : A → Bool) where
  pub find_first-some : (xs : List A) (a : A) → find_first p xs ≡ some a → In a xs × (p a ≡ true)
  find_first-some [] a h = cc
  find_first-some (x ∷ xs) a h = elim (Bool-cases (p x)) [
    | inl hit ↦ let e : x ≡ a = ground arith in (inl e, subst (λ y. p y ≡ true) e hit)
    | inr miss ↦ let (i, t) = find_first-some xs a (ground arith) in (inr i, t)
  ]

  pub find_first-none : (xs : List A) (a : A) → find_first p xs ≡ none → In a xs → p a ≡ false
  find_first-none [] a h (_, i) = absurd i
  find_first-none (x ∷ xs) a h (inl e) = subst (λ y. p y ≡ false) e (ground arith)
  find_first-none (x ∷ xs) a h (inr i) = find_first-none xs a (ground arith) i

  pub In-select : (xs : List A) (a : A) → In a (select p xs) → In a xs × (p a ≡ true)
  In-select [] a (_, i) = absurd i
  In-select (x ∷ xs) a i = elim (Bool-cases (p x)) [
    | inl hit ↦ kept hit (In-select xs a) (rw hit at i)
    | inr miss ↦ let (j, t) = In-select xs a (rw miss at i) in (inr j, t)
  ]
    where
      kept :
          p x ≡ true
          → (In a (select p xs) → In a xs × (p a ≡ true))
          → (x ≡ a) ⊎ In a (select p xs)
          → ((x ≡ a) ⊎ In a xs) × (p a ≡ true)
      kept hit ih (inl e) = (inl e, subst (λ y. p y ≡ true) e hit)
      kept hit ih (inr j) = let (k, t) = ih j in (inr k, t)

  pub select-In : (xs : List A) (a : A) → In a xs → p a ≡ true → In a (select p xs)
  select-In [] a (_, i) h = absurd i
  select-In (x ∷ xs) a (inl e) h =
      let t : p x ≡ true = subst (λ y. p y ≡ true) (sym e) h in rw t (inl e)
  select-In (x ∷ xs) a (inr i) h = elim (Bool-cases (p x)) [
    | inl hit ↦ rw hit (inr (select-In xs a i h))
    | inr miss ↦ rw miss (select-In xs a i h)
  ]

-- Tests that agree along a map select and find the images of what they select and find.
module _ {ℓ κ} {A : Type ℓ} {B : Type κ} (f : A → B) (p : A → Bool) (q : B → Bool) where
  pub select-map :
      ((a : A) → q (f a) ≡ p a) → (xs : List A) → select q (map f xs) ≡ map f (select p xs)
  select-map h [] = refl
  select-map h (x ∷ xs) = rw (h x) (ground (arith, select-map h xs))

  pub find_first-map :
      ((a : A) → q (f a) ≡ p a)
      → (xs : List A)
      → find_first q (map f xs) ≡ elim (find_first p xs) [ none ↦ none | some a ↦ some (f a) ]
  find_first-map h [] = refl
  find_first-map h (x ∷ xs) = rw (h x) (ground (arith, find_first-map h xs))

module _ {ℓ κ} {A : Type ℓ} (P : A → Type κ) where
  pub All-In : (xs : List A) (a : A) → All P xs → In a xs → P a
  All-In [] a _ (_, i) = absurd i
  All-In (x ∷ xs) a (px, pxs) (inl e) = subst P e px
  All-In (x ∷ xs) a (px, pxs) (inr i) = All-In xs a pxs i

module _ {ℓ κ} {A : Type ℓ} (P : A → Type κ) where
  pub All-append : (xs ys : List A) → All P xs → All P ys → All P (xs ++ ys)
  All-append [] ys h k = k
  All-append (x ∷ xs) ys (p, h) k = (p, All-append xs ys h k)

module _ {ℓ} {A : Type ℓ} where
  -- Two selections one after the other may change places.
  pub select-select_comm :
      (p q : A → Bool) (xs : List A) → select p (select q xs) ≡ select q (select p xs)
  select-select_comm p q [] = refl
  select-select_comm p q (x ∷ xs) = ground (arith, select-select_comm p q xs)
