-- ===== src/Capabilities/Execution/Run/Sound.antt =====
-- What `execute_capability` answers and records.
use api2agent.Common.{
  ℕ, zero, suc, ◌-◌, inl, inr, Bool, true, Option, some, List, [], ◌∷◌, ◌==◌, ◌≡◌, refl, ◌∙◌, ap,
  sym, subst, In, In-select, take, head?, length, Bool-cases,
}
use api2agent.Python.Number.{ℤ, pos, negsuc}
use api2agent.Python.Sorting.{sort, insert_sorted}
use api2agent.Python.Value.{Object, get, truthy}
use api2agent.Capabilities.{
  ProviderCandidate, RoutingDecision, RoutingPolicy, FailoverPolicy, MetricsSnapshot, Strategy,
  first, random,
}
use api2agent.Capabilities.Failover.{slice_to}
use api2agent.Capabilities.Normalization.{normalize_output, normalized}
use api2agent.Capabilities.Routing.{rank_by, rank_providers, select_provider}
use api2agent.Capabilities.Execution.{Runtime}
use api2agent.Capabilities.Execution.Attempts.{World, Attempt, Attempts, Final, run_attempts}
use api2agent.Capabilities.Execution.Attempts.Chain.{Chained, Succeeds, run_attempts-Chained}
use api2agent.Capabilities.Execution.Run.{
  Numerics, CapabilityCall, CallDraws, of_capability, ranked_for, selected_for, to_attempt,
  capability_metrics,
}
use api2agent.Control.Storage.{UsageStore}

-- The final result is of a provider of the capability, and is its successful result normalized.
pub record Answers (call : CapabilityCall) (providers : List ProviderCandidate) (f : Final)
    : Type 0 where
  pub among : In f.provider providers
  pub capable : (f.provider.capability_id == call.capability_id) ≡ true
  pub succeeded : truthy (get f.provider_result "ok") ≡ true
  pub mapped :
      normalize_output (get f.provider_result "body") f.provider.output_mapping
      ≡ normalized f.normalized_body

In-insert_sorted {ℓ} :
    {A : Type ℓ} (lt : A → A → Bool) (x a : A) (ys : List A)
    → In a (insert_sorted lt x ys)
    → In a (x ∷ ys)
unfolding insert_sorted
In-insert_sorted lt x a [] i = i
In-insert_sorted lt x a (y ∷ ys) i = elim (Bool-cases (lt y x)) [
  | inr above ↦ rw (above, insert_sorted) at i
  | inl below ↦
      let j : In a (y ∷ insert_sorted lt x ys) = rw (below, insert_sorted) at i in
      elim j [ inl e ↦ inr (inl e) | inr k ↦ swapped (In-insert_sorted lt x a ys k) ]
]
  where
    swapped : In a (x ∷ ys) → In a (x ∷ y ∷ ys)
    swapped (inl e) = inl e
    swapped (inr j) = inr (inr j)

In-sort {ℓ} : {A : Type ℓ} (lt : A → A → Bool) (a : A) (xs : List A) → In a (sort lt xs) → In a xs
unfolding sort
In-sort lt a [] i = i
In-sort lt a (x ∷ xs) i = elim (In-insert_sorted lt x a (sort lt xs) i) [
  | inl e ↦ inl e
  | inr j ↦ inr (In-sort lt a xs j)
]

In-take {ℓ} : {A : Type ℓ} (a : A) (n : ℕ) (xs : List A) → In a (take n xs) → In a xs
In-take a zero xs (_, i) = absurd i
In-take a (suc n) [] i = i
In-take a (suc n) (x ∷ xs) (inl e) = inl e
In-take a (suc n) (x ∷ xs) (inr j) = inr (In-take a n xs j)

pub In-slice_to {ℓ} : {A : Type ℓ} (a : A) (n : ℤ) (xs : List A) → In a (slice_to n xs) → In a xs
unfolding slice_to
In-slice_to a (pos n) xs i = In-take a n xs i
In-slice_to a (negsuc n) xs i = In-take a (length xs - suc n) xs i

head?-In {ℓ} : {A : Type ℓ} (a : A) (xs : List A) → head? xs ≡ some a → In a xs
head?-In a [] h = cc
head?-In a (x ∷ xs) h = inl (some_inj h)
  where
    some_inj : some x ≡ some a → x ≡ a
    some_inj q = cc

-- A final result of a chain comes of one of its providers.
Chained-Succeeds :
    (rt : Runtime) (policy : FailoverPolicy) (ps : List ProviderCandidate) (f : Final)
    (attempts : List Attempt)
    → Chained rt policy ps (some f) attempts
    → (p : ProviderCandidate) × (run : Object) × In p ps × Succeeds p run f
Chained-Succeeds rt policy [] f [] c = absurd c
Chained-Succeeds rt policy [] f (a ∷ more) c = absurd c
Chained-Succeeds rt policy (p ∷ ps) f [] c = absurd c
Chained-Succeeds rt policy (p ∷ ps) f (a ∷ []) (named, (good, s)) = (p, a.result, inl refl, s)
Chained-Succeeds rt policy (p ∷ ps) f (a ∷ b ∷ rest) (named, failed, retried, chain) =
    let (q, run, i, s) = Chained-Succeeds rt policy ps f (b ∷ rest) chain in (q, run, inr i, s)

module _ (n : Numerics)
    (shuffled : (cs : List ProviderCandidate) (a : ProviderCandidate)
      → In a (n.shuffle cs)
      → In a cs) where
  In-rank_by :
      (t : Strategy) (cs : List ProviderCandidate) (metrics : List MetricsSnapshot)
      (policy : RoutingPolicy) (a : ProviderCandidate)
      → In a (rank_by n.arithmetic n.shuffle t cs metrics policy)
      → In a cs
  unfolding rank_by
  In-rank_by first cs metrics policy a i = i
  In-rank_by random cs metrics policy a i = shuffled cs a i
  In-rank_by _ cs metrics policy a i = In-sort _ a cs i

  In-rank_providers :
      (cs : List ProviderCandidate) (metrics : List MetricsSnapshot) (policy : Option RoutingPolicy)
      (a : ProviderCandidate)
      → In a (rank_providers n.arithmetic n.shuffle cs metrics policy)
      → In a cs
  unfolding rank_providers
  In-rank_providers [] metrics policy a i = i
  In-rank_providers (c ∷ cs) metrics policy a i = In-rank_by _ (c ∷ cs) metrics _ a i

  to_attempt-In :
      (policy : FailoverPolicy) (selected : ProviderCandidate) (cs : List ProviderCandidate)
      (metrics : List MetricsSnapshot) (r : Option RoutingPolicy) (a : ProviderCandidate)
      → select_provider n.arithmetic n.shuffle cs metrics r ≡ some selected
      → In a (to_attempt policy selected (rank_providers n.arithmetic n.shuffle cs metrics r))
      → In a cs
  unfolding to_attempt
  to_attempt-In policy selected cs metrics r a chosen i = elim (Bool-cases policy.enabled) [
    | inl on ↦ In-rank_providers cs metrics r a (In-slice_to a policy.max_attempts _ (rw on at i))
    | inr off ↦ alone (rw off at i)
  ]
    where
      alone : In a (selected ∷ []) → In a cs
      alone (inl e) =
          subst (λ x. In x cs) e
            (In-rank_providers cs metrics r selected
              (head?-In selected _ (unfold select_provider in chosen)))
      alone (inr (_, none_there)) = absurd none_there

  -- The final result of the attempts is of a provider of the capability, and is its successful
  -- result normalized.
  pub attempts-Answers :
      (rt : Runtime) (decision : RoutingDecision) (call : CapabilityCall) (draws : CallDraws)
      (providers : List ProviderCandidate) (selected : ProviderCandidate) (policy : FailoverPolicy)
      (s : UsageStore) (w : World) (out : Attempts) (f : Final)
      → selected_for n rt draws call providers s ≡ some selected
      → run_attempts rt decision policy call.params call.proxy_url draws.attempt
          (to_attempt policy selected (ranked_for n rt draws call providers s))
          0
          w
        ≡ some out
      → out.final ≡ some f
      → Answers call providers f
  unfolding selected_for ranked_for
  attempts-Answers rt decision call draws providers selected policy s w out f chosen h e =
      let ps = to_attempt policy selected (ranked_for n rt draws call providers s) in
      let chain =
        run_attempts-Chained rt decision policy call.params call.proxy_url draws.attempt ps 0 w out
          h in
      let (p, run, i, ok) =
        Chained-Succeeds rt policy ps f out.attempts
          (subst (λ x. Chained rt policy ps x out.attempts) e chain) in
      let (among, capable) =
        In-select (λ p. p.capability_id == call.capability_id) providers p
          (to_attempt-In policy selected (of_capability call.capability_id providers)
            (capability_metrics n rt draws call s) call.policy p chosen i) in
      record {
        among = subst (λ x. In x providers) (sym ok.of_provider) among;
        capable =
            ap (λ (x : ProviderCandidate). x.capability_id == call.capability_id) ok.of_provider
            ∙ capable;
        succeeded = ap (λ x. truthy (get x "ok")) ok.returned ∙ ok.succeeded;
        mapped =
            ap (λ x. normalize_output (get x "body") f.provider.output_mapping) ok.returned
            ∙ ap (λ (x : ProviderCandidate). normalize_output (get run "body") x.output_mapping)
                ok.of_provider
            ∙ ok.mapped;
      }
