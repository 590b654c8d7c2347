-- ===== src/Capabilities/Registry/Names.antt =====
-- What the naming warnings of a registry say of its providers.
use api2agent.Common.{
  sym, subst, String, true, false, List, [], ◌∷◌, ◌≡◌, refl, ◌⊎◌, inl, inr, arith, eq_iff,
  Bool-cases, In,
}
use api2agent.Capabilities.{ProviderCandidate}
use api2agent.Capabilities.Naming.{is_alpha_capability_id}
use api2agent.Capabilities.Registry.{
  RegistryWarning, warn_names, capability_naming_warnings, same_key, seen_before, naming_warning,
}

key_of : ProviderCandidate → String × String
key_of p = (p.provider_id, p.capability_id)

-- `w` is the naming warning of one of the providers, whose capability has no alpha name.
abbrev pub Warned : List ProviderCandidate → RegistryWarning → Type 0
Warned ps w =
    (p : ProviderCandidate) × In p ps
    × (is_alpha_capability_id p.capability_id ≡ false)
    × (w ≡ naming_warning p)

Warned-cons :
    (p : ProviderCandidate) (ps : List ProviderCandidate) (w : RegistryWarning)
    → Warned ps w
    → Warned (p ∷ ps) w
Warned-cons p ps w (q, i, bad, e) = (q, inr i, bad, e)

Warned-here :
    (p : ProviderCandidate) (ps : List ProviderCandidate) (w : RegistryWarning)
    → is_alpha_capability_id p.capability_id ≡ false
    → (naming_warning p ≡ w) ⊎ Warned ps w
    → Warned (p ∷ ps) w
Warned-here p ps w bad (inl e) = (p, inl refl, bad, sym e)
Warned-here p ps w bad (inr i) = Warned-cons p ps w i

or_map {ℓ κ} : {A : Type ℓ} {B C : Type κ} → (B → C) → A ⊎ B → A ⊎ C
or_map f (inl a) = inl a
or_map f (inr b) = inr (f b)

warn_names_sound :
    (seen : List (String × String)) (ps : List ProviderCandidate) (w : RegistryWarning)
    → In w (warn_names seen ps)
    → Warned ps w
unfolding warn_names key_of
warn_names_sound seen [] w (_, i) = absurd i
warn_names_sound seen (p ∷ ps) w i = elim (Bool-cases (seen_before seen (key_of p))) [
  | inl s ↦ Warned-cons p ps w (warn_names_sound seen ps w (rw s at i))
  | inr n ↦ elim (Bool-cases (is_alpha_capability_id p.capability_id)) [
    | inl good ↦ Warned-cons p ps w (warn_names_sound (key_of p ∷ seen) ps w (rw (n, good) at i))
    | inr bad ↦
        Warned-here p ps w bad (or_map (warn_names_sound (key_of p ∷ seen) ps w) (rw (n, bad) at i))
  ]
]

-- The head's own warning, and those of the rest with its key seen, are among the warnings.
warn_names-head :
    (seen : List (String × String)) (q : ProviderCandidate) (ps : List ProviderCandidate)
    (w : RegistryWarning)
    → seen_before seen (key_of q) ≡ false
    → ((is_alpha_capability_id q.capability_id ≡ false) × (naming_warning q ≡ w))
      ⊎ In w (warn_names (key_of q ∷ seen) ps)
    → In w (warn_names seen (q ∷ ps))
unfolding warn_names key_of
warn_names-head seen q ps w n (inl (bad, e)) = rw (n, bad) (inl e)
warn_names-head seen q ps w n (inr i) = elim (Bool-cases (is_alpha_capability_id q.capability_id)) [
  | inl good ↦ rw (n, good) i
  | inr bad ↦ rw (n, bad) (inr i)
]

warn_names-again :
    (seen : List (String × String)) (q : ProviderCandidate) (ps : List ProviderCandidate)
    (w : RegistryWarning)
    → seen_before seen (key_of q) ≡ true
    → In w (warn_names seen ps)
    → In w (warn_names seen (q ∷ ps))
unfolding warn_names key_of
warn_names-again seen q ps w s i = rw s i

-- Providers of one key get one warning.
same_warning :
    (p q : ProviderCandidate)
    → same_key (key_of p) (key_of q) ≡ true
    → is_alpha_capability_id p.capability_id ≡ false
    → (is_alpha_capability_id q.capability_id ≡ false) × (naming_warning q ≡ naming_warning p)
unfolding key_of
same_warning p q h bad =
    let e : p.capability_id ≡ q.capability_id = (eq_iff _ _).0 (ground arith) in
    let f : p.provider_id ≡ q.provider_id = (eq_iff _ _).0 (ground arith) in
    (subst (λ c. is_alpha_capability_id c ≡ false) e bad, cc (e, f))

warn_names_complete :
    (seen : List (String × String)) (ps : List ProviderCandidate) (p : ProviderCandidate)
    → In p ps
    → is_alpha_capability_id p.capability_id ≡ false
    → (seen_before seen (key_of p) ≡ true) ⊎ In (naming_warning p) (warn_names seen ps)
warn_names_complete seen [] p (_, i) bad = absurd i
warn_names_complete seen (q ∷ ps) p (inl e) bad = elim (Bool-cases (seen_before seen (key_of p))) [
  | inl s ↦ inl s
  | inr n ↦ inr (warn_names-head seen q ps (naming_warning p) (rw e n) (inl (rw e bad, rw e)))
]
warn_names_complete seen (q ∷ ps) p (inr i) bad = elim (Bool-cases (seen_before seen (key_of q))) [
  | inl s ↦
      or_map (warn_names-again seen q ps (naming_warning p) s) (warn_names_complete seen ps p i bad)
  | inr n ↦ later n (warn_names_complete (key_of q ∷ seen) ps p i bad)
]
  where
    later :
        seen_before seen (key_of q) ≡ false
        → (seen_before (key_of q ∷ seen) (key_of p) ≡ true)
          ⊎ In (naming_warning p) (warn_names (key_of q ∷ seen) ps)
        → (seen_before seen (key_of p) ≡ true) ⊎ In (naming_warning p) (warn_names seen (q ∷ ps))
    later n (inr j) = inr (warn_names-head seen q ps (naming_warning p) n (inr j))
    later n (inl hit) = elim (Bool-cases (same_key (key_of p) (key_of q))) [
      | inl same ↦
          inr (warn_names-head seen q ps (naming_warning p) n (inl (same_warning p q same bad)))
      | inr other ↦ inl (rw other at hit)
    ]

-- The naming warnings are those of the providers whose capability has no alpha name, and each
-- such provider has its warning among them.
pub capability_naming_warnings-Warned :
    (ps : List ProviderCandidate)
    → ((w : RegistryWarning) → In w (capability_naming_warnings ps) → Warned ps w)
      × ((p : ProviderCandidate)
          → In p ps
          → is_alpha_capability_id p.capability_id ≡ false
          → In (naming_warning p) (capability_naming_warnings ps))
unfolding capability_naming_warnings
capability_naming_warnings-Warned ps = (
  warn_names_sound [] ps,
  λ p i bad. elim (warn_names_complete [] ps p i bad) [ inl h ↦ absurd (ground arith) | inr j ↦ j ],
)
