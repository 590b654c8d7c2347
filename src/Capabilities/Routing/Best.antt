-- ===== src/Capabilities/Routing/Best.antt =====
-- What a ranking is: a permutation of the candidates, with the best one in front.
use mathlib.Core.List.{Perm}
use mathlib.Core.List.Perm
use api2agent.Common.{
  ℕ, ◌<◌, ◌-◌, ◌^◌, false, Option, none, some, List, [], ◌∷◌, ◌≡◌, ap, ◌∙◌, sym, arith, All, head?,
}
use api2agent.Python.Number.{Float, is_nan, place, float_lt, float_lt_iff_place, Arith}
use api2agent.Python.Sorting.{sort}
use api2agent.Python.Sorting.Laws.{sort-perm, sort-agree, head?-sort, IsFirstLeast, by_key}
use api2agent.Capabilities.{
  ProviderCandidate, MetricsSnapshot, RoutingPolicy, Strategy, first, random, lowest_cost,
  lowest_latency, highest_success_rate, balanced,
}
use api2agent.Capabilities.Routing.{
  by_provider, cost, latency, success_rate, balanced_score, rank_by, rank_providers,
  select_provider,
}

module _ (arithmetic : Arith) (shuffle : List ProviderCandidate → List ProviderCandidate) where
  rank_by-perm :
      ((cs : List ProviderCandidate) → Perm (shuffle cs) cs)
      → (s : Strategy) (cs : List ProviderCandidate) (metrics : List MetricsSnapshot)
        (policy : RoutingPolicy)
      → Perm (rank_by arithmetic shuffle s cs metrics policy) cs
  unfolding rank_by
  rank_by-perm shuffled first cs metrics policy = Perm.refl cs
  rank_by-perm shuffled random cs metrics policy = shuffled cs
  rank_by-perm shuffled _ cs metrics policy = sort-perm _ cs

  -- Whatever the policy, a ranking holds the candidates, each as often as it was given.
  pub rank_providers-perm :
      ((cs : List ProviderCandidate) → Perm (shuffle cs) cs)
      → (cs : List ProviderCandidate) (metrics : List MetricsSnapshot)
        (policy : Option RoutingPolicy)
      → Perm (rank_providers arithmetic shuffle cs metrics policy) cs
  unfolding rank_providers
  rank_providers-perm shuffled [] metrics policy = Perm.refl []
  rank_providers-perm shuffled (c ∷ cs) metrics none = rank_by-perm shuffled _ (c ∷ cs) metrics _
  rank_providers-perm shuffled (c ∷ cs) metrics (some p) =
      rank_by-perm shuffled _ (c ∷ cs) metrics _

-- A key that is no number for none of the candidates.
abbrev pub Comparable : (ProviderCandidate → Float) → List ProviderCandidate → Type 0
Comparable key = All (λ c. is_nan (key c) ≡ false)

-- The numbers by which an ascending and a descending sort order the floats.
abbrev pub upward : (ProviderCandidate → Float) → ProviderCandidate → ℕ
upward key c = place (key c)

abbrev pub downward : (ProviderCandidate → Float) → ProviderCandidate → ℕ
downward key c = 2 ^ 64 - place (key c)

pub place-le : (x : Float) → is_nan x ≡ false → place x < 2 ^ 64
unfolding place
place-le x h = ground arith

module _ (key : ProviderCandidate → Float) where
  ascending-IsFirstLeast :
      (cs : List ProviderCandidate) (a : ProviderCandidate)
      → Comparable key cs
      → head? (sort (λ x y. float_lt (key x) (key y)) cs) ≡ some a
      → IsFirstLeast (upward key) a cs
  ascending-IsFirstLeast cs a ok h = head?-sort (upward key) cs a (
      ap head? (
        sym (
          sort-agree (λ x y. float_lt (key x) (key y)) (by_key (upward key))
            (λ c. is_nan (key c) ≡ false) (λ x y hx hy. float_lt_iff_place (key x) (key y) hx hy) cs
            ok))
      ∙ h)

  downward-agree :
      (x y : ProviderCandidate)
      → is_nan (key x) ≡ false
      → is_nan (key y) ≡ false
      → float_lt (key y) (key x) ≡ by_key (downward key) x y
  downward-agree x y hx hy =
      float_lt_iff_place (key y) (key x) hy hx
      ∙ ground (arith, place-le (key x) hx, place-le (key y) hy)

  descending-IsFirstLeast :
      (cs : List ProviderCandidate) (a : ProviderCandidate)
      → Comparable key cs
      → head? (sort (λ x y. float_lt (key y) (key x)) cs) ≡ some a
      → IsFirstLeast (downward key) a cs
  descending-IsFirstLeast cs a ok h = head?-sort (downward key) cs a (
      ap head? (
        sym (
          sort-agree (λ x y. float_lt (key y) (key x)) (by_key (downward key))
            (λ c. is_nan (key c) ≡ false) downward-agree cs ok))
      ∙ h)

abbrev pub least_key : List MetricsSnapshot → Strategy → Option (ProviderCandidate → Float)
least_key metrics lowest_cost = some (cost (by_provider [] metrics))
least_key metrics lowest_latency = some (latency (by_provider [] metrics))
least_key metrics _ = none

some_key : (f g : ProviderCandidate → Float) → some f ≡ some g → f ≡ g
some_key f g e = cc

module _ (arithmetic : Arith) (shuffle : List ProviderCandidate → List ProviderCandidate) where
  -- What a strategy makes least, and what it makes greatest.
  abbrev pub greatest_key :
      List ProviderCandidate
      → List MetricsSnapshot
      → RoutingPolicy
      → Strategy
      → Option (ProviderCandidate → Float)
  greatest_key cs metrics p highest_success_rate = some (success_rate (by_provider [] metrics))
  greatest_key cs metrics p balanced =
      some (balanced_score arithmetic cs (by_provider [] metrics) p)
  greatest_key cs metrics p _ = none

  rank_by-least :
      (metrics : List MetricsSnapshot) (p : RoutingPolicy) (t : Strategy)
      (cs : List ProviderCandidate) (a : ProviderCandidate) (key : ProviderCandidate → Float)
      → least_key metrics t ≡ some key
      → Comparable key cs
      → head? (rank_by arithmetic shuffle t cs metrics p) ≡ some a
      → IsFirstLeast (upward key) a cs
  unfolding rank_by
  rank_by-least metrics p lowest_cost cs a key k ok h =
      ascending-IsFirstLeast key cs a ok (rw (some_key _ key k) at h)
  rank_by-least metrics p lowest_latency cs a key k ok h =
      ascending-IsFirstLeast key cs a ok (rw (some_key _ key k) at h)
  rank_by-least metrics p _ cs a key k ok h = cc

  rank_by-greatest :
      (metrics : List MetricsSnapshot) (p : RoutingPolicy) (t : Strategy)
      (cs : List ProviderCandidate) (a : ProviderCandidate) (key : ProviderCandidate → Float)
      → greatest_key cs metrics p t ≡ some key
      → Comparable key cs
      → head? (rank_by arithmetic shuffle t cs metrics p) ≡ some a
      → IsFirstLeast (downward key) a cs
  unfolding rank_by
  rank_by-greatest metrics p highest_success_rate cs a key k ok h =
      descending-IsFirstLeast key cs a ok (rw (some_key _ key k) at h)
  rank_by-greatest metrics p balanced cs a key k ok h =
      descending-IsFirstLeast key cs a ok (rw (some_key _ key k) at h)
  rank_by-greatest metrics p _ cs a key k ok h = cc

  -- A policy of cost or latency selects the first of the providers whose cost or latency is least,
  -- where none of these floats is a NaN.
  pub select_provider-least :
      (metrics : List MetricsSnapshot) (p : RoutingPolicy) (cs : List ProviderCandidate)
      (a : ProviderCandidate) (key : ProviderCandidate → Float)
      → least_key metrics p.strategy ≡ some key
      → Comparable key cs
      → select_provider arithmetic shuffle cs metrics (some p) ≡ some a
      → IsFirstLeast (upward key) a cs
  unfolding select_provider rank_providers
  select_provider-least metrics p [] a key k ok h = cc
  select_provider-least metrics p (c ∷ cs) a key k ok h =
      rank_by-least metrics p p.strategy (c ∷ cs) a key k ok h

  -- A policy of success rate or balance selects the first of the providers whose rate or score is
  -- greatest, where none of these floats is a NaN.
  pub select_provider-greatest :
      (metrics : List MetricsSnapshot) (p : RoutingPolicy) (cs : List ProviderCandidate)
      (a : ProviderCandidate) (key : ProviderCandidate → Float)
      → greatest_key cs metrics p p.strategy ≡ some key
      → Comparable key cs
      → select_provider arithmetic shuffle cs metrics (some p) ≡ some a
      → IsFirstLeast (downward key) a cs
  unfolding select_provider rank_providers
  select_provider-greatest metrics p [] a key k ok h = cc
  select_provider-greatest metrics p (c ∷ cs) a key k ok h =
      rank_by-greatest metrics p p.strategy (c ∷ cs) a key k ok h
