-- ===== src/Common/Groups.antt =====
-- The distinct keys of a list and the sums over them: grouping loses no row and counts none twice.
use Prim.Native.Nat.{ℕ, ◌+◌}
use mathlib.Core.Path.{fun_ext, ◌≡◌, refl, ap, sym, ◌∙◌, subst}
use mathlib.Core.Bool.{Bool, true, false}
use mathlib.Core.Logic.{inl, inr}
use mathlib.Core.List.{List, [], ◌∷◌, map}
use native.Mathlib.Omega.{arith}
use api2agent.Common.Tests.{if◌then◌else◌, Bool-cases}
use api2agent.Common.Lists.{length, select, In, In-select, select-select_comm}

-- Membership by a test, and the keys with each one where it stands last.
module _ {ℓ} {K : Type ℓ} (eq : K → K → Bool) where
  unfoldable pub has : List K → K → Bool
  has [] k = false
  has (j ∷ js) k = if eq j k then true else has js k

  unfoldable pub distinct : List K → List K
  unfolding has
  distinct [] = []
  distinct (k ∷ ks) = if has ks k then distinct ks else k ∷ distinct ks

module _ {ℓ} {K : Type ℓ} where
  unfoldable pub total : (K → ℕ) → List K → ℕ
  total f [] = 0
  total f (k ∷ ks) = f k + total f ks

-- A test of equality.
pub record IsEquality {ℓ} {K : Type ℓ} (eq : K → K → Bool) : Type ℓ where
  pub sound : (a b : K) → eq a b ≡ true → a ≡ b
  pub complete : (a : K) → eq a a ≡ true

module _ {ℓ κ} {K : Type ℓ} {A : Type κ} (eq : K → K → Bool) (law : IsEquality eq)
    (key : A → K) where
  -- The rows of a key.
  abbrev pub group : List A → K → List A
  group rows k = select (λ a. eq (key a) k) rows

  has-distinct : (ks : List K) (k : K) → has eq (distinct eq ks) k ≡ has eq ks k
  unfolding has distinct
  has-distinct [] k = refl
  has-distinct (j ∷ ks) k = elim (Bool-cases (has eq ks j)) [
    | inl again ↦ elim (Bool-cases (eq j k)) [
      | inl same ↦
          let e : j ≡ k = law.sound j k same in
          rw (again, same) (has-distinct ks k ∙ subst (λ x. has eq ks x ≡ true) e again)
      | inr other ↦ rw (again, other) (has-distinct ks k)
    ]
    | inr new ↦ rw new (ground (arith, has-distinct ks k))
  ]

  -- One for a key that is listed, in a list of distinct keys.
  abbrev one : K → K → ℕ
  one j k = if eq j k then 1 else 0

  total-one_absent : (ks : List K) (j : K) → has eq ks j ≡ false → total (one j) ks ≡ 0
  unfolding has total
  total-one_absent [] j h = refl
  total-one_absent (k ∷ ks) j h = elim (Bool-cases (eq j k)) [
    | inl same ↦
        absurd
          (ground (arith, subst (λ x. eq k x ≡ true) (sym (law.sound j k same)) (law.complete k)))
    | inr other ↦ ground (arith, other, total-one_absent ks j)
  ]

  total-one :
      (ks : List K) (j : K) → total (one j) (distinct eq ks) ≡ (if has eq ks j then 1 else 0)
  unfolding has distinct total
  total-one [] j = refl
  total-one (k ∷ ks) j = elim (Bool-cases (eq k j)) [
    | inl same ↦
        let e : k ≡ j = law.sound k j same in
        let back : eq j k ≡ true = subst (λ x. eq x k ≡ true) e (law.complete k) in
        let there : has eq ks k ≡ has eq ks j = ap (has eq ks) e in
        ground (arith, same, back, there, total-one ks j)
    | inr other ↦
        let back : eq j k ≡ false = elim (Bool-cases (eq j k)) [
          | inl same ↦
              absurd
                (ground (arith, subst (λ x. eq x j ≡ true) (law.sound j k same) (law.complete j)))
          | inr differ ↦ differ
        ] in
        ground (arith, other, back, total-one ks j)
  ]

  total-add : (f g : K → ℕ) (ks : List K) → total (λ k. f k + g k) ks ≡ total f ks + total g ks
  unfolding total
  total-add f g [] = omega arith
  total-add f g (k ∷ ks) = omega (arith, total-add f g ks)

  total-zero : (ks : List K) → total (λ k. 0) ks ≡ 0
  unfolding total
  total-zero [] = refl
  total-zero (k ∷ ks) = omega (arith, total-zero ks)

  -- The rows whose key is listed.
  abbrev listed : List A → List K → List A
  listed rows ks = select (λ a. has eq ks (key a)) rows

  length-group :
      (a : A) (rows : List A) (k : K)
      → length (group (a ∷ rows) k) ≡ one (key a) k + length (group rows k)
  length-group a rows k = ground arith

  total-groups :
      (rows : List A) (ks : List K)
      → total (λ k. length (group rows k)) (distinct eq ks) ≡ length (listed rows ks)
  total-groups [] ks = total-zero (distinct eq ks)
  total-groups (a ∷ rows) ks =
      ap (λ f. total f (distinct eq ks)) (fun_ext (length-group a rows))
      ∙ total-add (one (key a)) (λ k. length (group rows k)) (distinct eq ks)
      ∙ ground (arith, total-one ks (key a), total-groups rows ks)

  has-map : (rows : List A) (a : A) → In a rows → has eq (map key rows) (key a) ≡ true
  unfolding has
  has-map [] a (_, i) = absurd i
  has-map (b ∷ rows) a (inl e) =
      rw (subst (λ x. eq (key b) (key x) ≡ true) e (law.complete (key b)))
  has-map (b ∷ rows) a (inr i) = ground (arith, has-map rows a i)

  select-all :
      (p : A → Bool) (rows : List A) → ((a : A) → In a rows → p a ≡ true) → select p rows ≡ rows
  select-all p [] h = refl
  select-all p (a ∷ rows) h =
      rw (h a (inl refl)) (ap (λ l. a ∷ l) (select-all p rows (λ b i. h b (inr i))))

  -- Over the distinct keys of the rows, the sizes of the groups add up to the number of rows.
  pub total-distinct :
      (rows : List A)
      → total (λ k. length (group rows k)) (distinct eq (map key rows)) ≡ length rows
  total-distinct rows =
      total-groups rows (map key rows)
      ∙ ap length (select-all (λ a. has eq (map key rows) (key a)) rows (has-map rows))

  -- The same holds for the rows that pass a test, over the keys of all rows.
  pub total-distinct-select :
      (p : A → Bool) (rows : List A)
      → total (λ k. length (select p (group rows k))) (distinct eq (map key rows))
        ≡ length (select p rows)
  total-distinct-select p rows =
      ap (λ f. total f (distinct eq (map key rows)))
        (fun_ext (λ k. ap length (select-select_comm p (λ a. eq (key a) k) rows)))
      ∙ total-groups (select p rows) (map key rows)
      ∙ ap length (
          select-all (λ a. has eq (map key rows) (key a)) (select p rows)
            (λ a i. has-map rows a (In-select p rows a i).0))
