-- ===== src/Credentials/Selection.antt =====
-- Which configured credential `_find_config_credential` picks.
use api2agent.Common.{
  String, Bool, true, false, ◌&&◌, none, some, List, [], ◌∷◌, ◌==◌, ◌≡◌, inl, inr, arith, In,
  find_first, head?, Bool-cases, Option-cases, find_first-some, find_first-none, In-select,
  select-In,
}
use api2agent.Credentials.{CredentialDefinition, CredentialResolutionRequest}
use api2agent.Credentials.Resolver.{
  find_config_credential, matches, prefer, credential_matches_request, is_project,
}

-- A configured credential fits: it is of the provider and matches the request.
abbrev pub fits : CredentialResolutionRequest → CredentialDefinition → Bool
fits r c = (c.provider_id == r.provider_id) && credential_matches_request c r

head?-In {ℓ} : {A : Type ℓ} (xs : List A) (a : A) → head? xs ≡ some a → In a xs
head?-In [] a h = cc
head?-In (x ∷ xs) a h = inl (ground arith)

prefer-In :
    (p : String) (cs : List CredentialDefinition) (c : CredentialDefinition)
    → prefer p cs ≡ some c
    → In c cs
unfolding prefer
prefer-In p cs c h = elim (Option-cases (find_first (λ d. d.owner_id == p) cs)) [
  | inr (d, e) ↦ (find_first-some (λ x. x.owner_id == p) cs c (ground arith)).0
  | inl e ↦
      elim (Option-cases
        (find_first (λ d. is_project d.owner_type && (d.owner_id == "local")) cs)) [
          | inr (d, k) ↦
              (find_first-some (λ x. is_project x.owner_type && (x.owner_id == "local")) cs c
                (ground arith)).0
          | inl k ↦ head?-In cs c (ground arith)
        ]
]

prefer-none :
    (p : String) (cs : List CredentialDefinition) (c : CredentialDefinition)
    → prefer p cs ≡ none
    → In c cs
    → ⊥
unfolding prefer
prefer-none p [] c h (_, i) = i
prefer-none p (d ∷ cs) c h i = ground arith

-- If one of the list is the project's own, so is the one that is picked.
prefer-own :
    (p : String) (cs : List CredentialDefinition) (c d : CredentialDefinition)
    → prefer p cs ≡ some c
    → In d cs
    → (d.owner_id == p) ≡ true
    → (c.owner_id == p) ≡ true
unfolding prefer
prefer-own p cs c d h i own = elim (Option-cases (find_first (λ x. x.owner_id == p) cs)) [
  | inr (x, e) ↦ (find_first-some (λ x. x.owner_id == p) cs c (ground arith)).1
  | inl e ↦ absurd (ground (arith, find_first-none (λ x. x.owner_id == p) cs d e i))
]

module _ (configured : List CredentialDefinition) (r : CredentialResolutionRequest) where
  -- The pick is a configured credential that fits, and one of the request's own project where any
  -- that fits is; there is no pick exactly when none fits.
  pub find_config_credential-fits :
      ((c : CredentialDefinition)
        → find_config_credential configured r ≡ some c
        → In c configured
          × (fits r c ≡ true)
          × ((d : CredentialDefinition)
              → In d configured
              → fits r d ≡ true
              → (d.owner_id == r.project_id) ≡ true
              → (c.owner_id == r.project_id) ≡ true))
      × (find_config_credential configured r ≡ none
          → (d : CredentialDefinition) → In d configured
          → fits r d ≡ false)
  unfolding find_config_credential matches
  find_config_credential-fits = (
    λ c h. (
      (In-select (fits r) configured c (prefer-In r.project_id _ c h)).0,
      (In-select (fits r) configured c (prefer-In r.project_id _ c h)).1,
      λ d i t own. prefer-own r.project_id _ c d h (select-In (fits r) configured d i t) own,
    ),
    λ h d i. elim (Bool-cases (fits r d)) [
      | inl t ↦ absurd (prefer-none r.project_id _ d h (select-In (fits r) configured d i t))
      | inr f ↦ f
    ],
  )
