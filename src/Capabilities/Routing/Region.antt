-- ===== src/Capabilities/Routing/Region.antt =====
-- What the region of a client does to a ranking, and the region that is recorded for a provider.
use api2agent.Common.{
  ℕ, ◌+◌, ◌*◌, ◌^◌, String, true, false, Option, none, some, List, [], ◌∷◌, ◌≡◌, All-In, refl, ap,
  ◌∙◌, sym, subst, arith, ltb, All, In, contains, given, head?, Bool-cases, ◌⊎◌, inl, inr, ◌&&◌,
  eq_iff,
}
use api2agent.Python.Number.{Float, is_nan, place, float_lt_iff_place, Arith}
use api2agent.Python.Sorting.Laws.{sort-agree, head?-sort, IsFirstLeast, IsFirstLeast-le, by_key}
use api2agent.Capabilities.{
  ProviderCandidate, MetricsSnapshot, RoutingPolicy, region_aware_latency, GeoAffinity, global,
  cn_only,
}
use api2agent.Capabilities.Routing.{
  affinity_region, rank_by, rank_providers, select_provider, region_aware_latency_key, region_rank,
  region_listed, pair_lt, select_provider_region,
}
use api2agent.Capabilities.Routing.Best.{place-le}

-- A region's rank and a latency in one number: the rank first, then the place of the latency.
abbrev pub region_place : List MetricsSnapshot → Option String → ProviderCandidate → ℕ
region_place metrics region c =
    let (rank, latency) = region_aware_latency_key metrics region c in rank * 2 ^ 64 + place latency

abbrev pub KnownLatency : List MetricsSnapshot → Option String → ProviderCandidate → Type 0
KnownLatency metrics region c = is_nan (region_aware_latency_key metrics region c).1 ≡ false

pair_lt-agree :
    (r s : ℕ) (x y : Float)
    → is_nan x ≡ false
    → is_nan y ≡ false
    → pair_lt (r, x) (s, y) ≡ ltb (r * 2 ^ 64 + place x) (s * 2 ^ 64 + place y)
unfolding pair_lt
pair_lt-agree r s x y hx hy =
    ground (arith, place-le x hx, place-le y hy, float_lt_iff_place x y hx hy)

rank-region_aware :
    (metrics : List MetricsSnapshot) (region : Option String) (c : ProviderCandidate)
    → (region_aware_latency_key metrics region c).0 ≡ region_rank c region
unfolding region_aware_latency_key
rank-region_aware metrics region c = ground arith

-- With a region given, the rank is 0 exactly where the region is listed.
region_rank-listed :
    (c : ProviderCandidate) (region : Option String)
    → given region ≡ true
    → (region_rank c region ≡ 0 → region_listed c region ≡ true)
      × (region_listed c region ≡ true → region_rank c region ≡ 0)
unfolding region_rank
region_rank-listed c region h = (λ e. ground arith, λ e. ground arith)

module _ (arithmetic : Arith) (shuffle : List ProviderCandidate → List ProviderCandidate) where
  region_aware-IsFirstLeast :
      (metrics : List MetricsSnapshot) (p : RoutingPolicy) (cs : List ProviderCandidate)
      (a : ProviderCandidate)
      → head? (rank_by arithmetic shuffle region_aware_latency cs metrics p) ≡ some a
      → All (KnownLatency metrics p.client_region) cs
      → IsFirstLeast (region_place metrics p.client_region) a cs
  unfolding rank_by
  region_aware-IsFirstLeast metrics p cs a h ok =
      head?-sort (region_place metrics p.client_region) cs a (
        ap head? (
          sym (
            sort-agree _ (by_key (region_place metrics p.client_region))
              (KnownLatency metrics p.client_region) (λ x y hx hy. pair_lt-agree _ _ _ _ hx hy) cs
              ok))
        ∙ h)

  selected-head :
      (metrics : List MetricsSnapshot) (p : RoutingPolicy) (cs : List ProviderCandidate)
      (a : ProviderCandidate)
      → p.strategy ≡ region_aware_latency
      → select_provider arithmetic shuffle cs metrics (some p) ≡ some a
      → head? (rank_by arithmetic shuffle region_aware_latency cs metrics p) ≡ some a
  unfolding select_provider rank_providers
  selected-head metrics p [] a e h = cc
  selected-head metrics p (c ∷ cs) a e h =
      subst (λ s. head? (rank_by arithmetic shuffle s (c ∷ cs) metrics p) ≡ some a) e h

  -- A region-aware policy with a client region selects a candidate that lists the region wherever
  -- one of the candidates does, whatever their latencies, where none of these is a NaN.
  pub select_provider-local :
      (metrics : List MetricsSnapshot) (p : RoutingPolicy) (cs : List ProviderCandidate)
      (a d : ProviderCandidate)
      → p.strategy ≡ region_aware_latency
      → given p.client_region ≡ true
      → All (KnownLatency metrics p.client_region) cs
      → select_provider arithmetic shuffle cs metrics (some p) ≡ some a
      → In d cs
      → region_listed d p.client_region ≡ true
      → region_listed a p.client_region ≡ true
  select_provider-local metrics p cs a d e g ok h i listed =
      (region_rank-listed a p.client_region g).0 (
        omega (
          arith,
          IsFirstLeast-le (region_place metrics p.client_region) a d cs
              (region_aware-IsFirstLeast metrics p cs a (selected-head metrics p cs a e h) ok) i,
          rank-region_aware metrics p.client_region a,
          rank-region_aware metrics p.client_region d,
          (region_rank-listed d p.client_region g).1 listed,
          place-le (region_aware_latency_key metrics p.client_region d).1
              (All-In (KnownLatency metrics p.client_region) cs d ok i),
        ))

head?-contains : (rs : List String) (r : String) → head? rs ≡ some r → contains rs r ≡ true
head?-contains [] r h = cc
head?-contains (x ∷ rs) r h = ground (arith, eq_iff x r)

-- `r` is listed, or the affinity stands for it.
abbrev pub Serves : List String → GeoAffinity → String → Type 0
Serves regions affinity r =
    (contains regions r ≡ true)
    ⊎ (((r ≡ "global") × (affinity ≡ global)) ⊎ ((r ≡ "cn") × (affinity ≡ cn_only)))

affinity_region-Serves :
    (affinity : GeoAffinity) (regions : List String) (r : String)
    → affinity_region affinity regions ≡ some r
    → Serves regions affinity r
unfolding affinity_region
affinity_region-Serves global regions r h = inr (inl (ground arith, refl))
affinity_region-Serves cn_only regions r h = inr (inr (ground arith, refl))
affinity_region-Serves _ regions r h = inl (head?-contains regions r h)

affinity_region-none :
    (affinity : GeoAffinity) (regions : List String)
    → affinity_region affinity regions ≡ none
    → regions ≡ []
unfolding affinity_region
affinity_region-none global regions h = cc
affinity_region-none cn_only regions h = cc
affinity_region-none _ [] h = refl
affinity_region-none _ (r ∷ rs) h = cc

some_inj : (r t : String) → some r ≡ some t → r ≡ t
some_inj r t p = cc

-- The region that is recorded for a provider is one that it lists, or `global` or `cn` by its
-- affinity; none is recorded only for a provider that lists none.
pub select_provider_region-Serves :
    (c : ProviderCandidate) (region : Option String)
    → ((r : String) → select_provider_region c region ≡ some r → Serves c.regions c.geo_affinity r)
      × (select_provider_region c region ≡ none → c.regions ≡ [])
unfolding select_provider_region
select_provider_region-Serves c none = elim (Bool-cases (contains c.regions "global")) [
  | inl t ↦ (
    λ r h. inl (subst (λ x. contains c.regions x ≡ true) (some_inj "global" r (rw t at h)) t),
    λ h. absurd (ground arith),
  )
  | inr f ↦ (
    λ r h. affinity_region-Serves c.geo_affinity c.regions r (rw f at h),
    λ h. affinity_region-none c.geo_affinity c.regions (rw f at h),
  )
]
select_provider_region-Serves c (some region) =
    elim (Bool-cases (given (some region) && region_listed c (some region))) [
      | inl own ↦ (
        λ r h. inl (
            subst (λ x. contains c.regions x ≡ true) (some_inj region r (rw own at h))
              (ground arith)),
        λ h. absurd (ground arith),
      )
      | inr other ↦ elim (Bool-cases (contains c.regions "global")) [
        | inl t ↦ (
          λ r h. inl (
              subst (λ x. contains c.regions x ≡ true) (some_inj "global" r (rw (other, t) at h))
                t),
          λ h. absurd (ground arith),
        )
        | inr f ↦ (
          λ r h. affinity_region-Serves c.geo_affinity c.regions r (rw (other, f) at h),
          λ h. affinity_region-none c.geo_affinity c.regions (rw (other, f) at h),
        )
      ]
    ]
