-- ===== src/Credentials/Config.antt =====
-- api2agent/credentials/config.py: the items of a parsed credential file. Reading and parsing the
-- file, and the validation of one item (`CredentialDefinition.model_validate`), are parameters.
use api2agent.Common.{
  ℕ, ◌+◌, String, Option, none, some, List, [], ◌∷◌, ◌<>◌, Bool, true, false, ◌≡◌, refl, subst,
  arith,
}
use api2agent.Python.Text.{show_nat}
use api2agent.Python.Value.{Value, arr, obj, Items, nil, cons, entries, get}
use api2agent.Credentials.{CredentialDefinition}

pub data Loaded {ℓ} (A : Type ℓ) : Type ℓ where
  ok : A → Loaded A
  err : String → Loaded A

-- What a step on the value of a loaded one gives; an error passes through.
abbrev pub and_then {ℓ κ} : {A : Type ℓ} {B : Type κ} → (A → Loaded B) → Loaded A → Loaded B
and_then step (err message) = err message
and_then step (ok value) = step value

abbrev items_error : String
items_error = "Credential config must be a list or an object with a credentials list."

list_of : Value → Loaded Items
list_of (arr vs) = ok vs
list_of _ = err items_error

unfoldable pub credential_items : Value → Loaded Items
unfolding list_of
credential_items (arr vs) = ok vs
credential_items (obj fs) = list_of (get (entries fs) "credentials")
credential_items _ = err items_error

-- What validation says of a dict: a credential or the text of its error.
module _ (validate : Value → Loaded CredentialDefinition) where
  checked_item : ℕ → Value → Loaded CredentialDefinition
  checked_item index (obj fs) = elim (validate (obj fs)) [
    | ok c ↦ ok c
    | err e ↦ err ("Invalid credential config item #" <> (show_nat (index + 1) <> (": " <> e)))
  ]
  checked_item index _ =
      err ("Credential config item #" <> (show_nat (index + 1) <> " must be an object."))

  checked_items : ℕ → Items → Loaded (List CredentialDefinition)
  checked_items index nil = ok []
  checked_items index (cons v vs) =
      and_then (λ c. and_then (λ rest. ok (c ∷ rest)) (checked_items (index + 1) vs))
        (checked_item index v)

  -- `load_credential_config` from the parsed payload on; `none` is a payload that did not parse.
  unfoldable pub load_credential_config :
      String → Bool → Option Value → Loaded (List CredentialDefinition)
  unfolding checked_items checked_item credential_items
  load_credential_config path false payload = err ("Credential config not found: " <> path)
  load_credential_config path true none = err ("Invalid credential config: " <> path)
  load_credential_config path true (some payload) =
      and_then (checked_items 0) (credential_items payload)

-- A loaded result of two steps has a loaded first one.
and_then_ok {ℓ κ} :
    {A : Type ℓ} {B : Type κ} (step : A → Loaded B) (m : Loaded A) (y : B)
    → and_then step m ≡ ok y
    → (x : A) × (m ≡ ok x) × (step x ≡ ok y)
and_then_ok step (err message) y h = cc
and_then_ok step (ok x) y h = (x, refl, h)

module _ (validate : Value → Loaded CredentialDefinition) where
  -- Each credential comes of the item at its place, which is a dict that was validated.
  abbrev pub FromItems : Items → List CredentialDefinition → Type 0
  FromItems nil [] = Unit
  FromItems (cons (obj fs) vs) (c ∷ cs) = (validate (obj fs) ≡ ok c) × FromItems vs cs
  FromItems _ _ = ⊥

  checked_item-ok :
      (index : ℕ) (v : Value) (vs : Items) (c : CredentialDefinition)
      (cs : List CredentialDefinition)
      → checked_item validate index v ≡ ok c
      → FromItems vs cs
      → FromItems (cons v vs) (c ∷ cs)
  unfolding checked_item
  checked_item-ok index (obj fs) vs c cs h rest = (ground arith, rest)
  checked_item-ok index _ vs c cs h rest = cc

  checked_items-FromItems :
      (index : ℕ) (vs : Items) (cs : List CredentialDefinition)
      → checked_items validate index vs ≡ ok cs
      → FromItems vs cs
  unfolding checked_items
  checked_items-FromItems index nil [] h = tt
  checked_items-FromItems index nil (c ∷ cs) h = cc
  checked_items-FromItems index (cons v vs) cs h =
      let (c, e, k) = and_then_ok _ (checked_item validate index v) cs h in
      let (rest, e', k') = and_then_ok _ (checked_items validate (index + 1) vs) cs k in
      subst (FromItems (cons v vs)) (ok_inj k')
        (checked_item-ok index v vs c rest e (checked_items-FromItems (index + 1) vs rest e'))
    where
      ok_inj : {xs ys : List CredentialDefinition} → ok xs ≡ ok ys → xs ≡ ys
      ok_inj p = cc

  -- A file that loads holds a list of dicts, or a dict with such a list under `credentials`, and
  -- yields one validated credential for each item, in the file's order: one bad item fails it all.
  pub load_credential_config-FromItems :
      (path : String) (exists : Bool) (payload : Option Value) (cs : List CredentialDefinition)
      → load_credential_config validate path exists payload ≡ ok cs
      → (v : Value) × (vs : Items) × (payload ≡ some v)
        × (credential_items v ≡ ok vs)
        × FromItems vs cs
  unfolding load_credential_config
  load_credential_config-FromItems path false payload cs h = cc
  load_credential_config-FromItems path true none cs h = cc
  load_credential_config-FromItems path true (some v) cs h =
      let (vs, e, k) = and_then_ok _ (credential_items v) cs h in
      (v, vs, refl, e, checked_items-FromItems 0 vs cs k)
