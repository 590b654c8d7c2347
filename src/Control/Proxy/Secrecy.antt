-- ===== src/Control/Proxy/Secrecy.antt =====
-- What the recorded metadata of a proxied request hides: the values of the sensitive headers, and
-- the secret of the credential.
use mathlib.Core.Option
use api2agent.Common.{
  not, any, String, true, Option, none, some, List, [], ◌∷◌, ◌==◌, ◌≡◌, refl, ◌∙◌, ap, sym, subst,
  ◌⊎◌, inl, inr, arith, eq_iff, lookup, lookup-erase, Bool-cases,
}
use api2agent.Python.Value.{
  Fields, Value, text, object, obj, fields, entries, entries-fields, Object, get,
}
use api2agent.Python.Time.{DateTime}
use api2agent.Credentials.{CredentialDefinition, CredentialResolutionRequest, ResolvedCredential}
use api2agent.Credentials.Resolver.{
  Environ, resolve, answer_from, first_answer, answer_with, lifecycle_error, scope_denied,
  missing_secret, nothing_needed, missing_credential, redacted_metadata, candidates,
}
use api2agent.Control.{ProxyRequest}
use api2agent.Control.Request.{
  sensitive, redact_headers, without_secret, safe_credential_metadata, safe_request_metadata,
  first_metadata, header_reference,
}
use api2agent.Control.Proxy.{
  Backend, Moment, resolve_validated, resolve_given, prefer_headers, from_headers,
  invalid_credential, resolution_request, describes,
}

abbrev pub NoSecret : Object → Type 0
NoSecret d = lookup "secret_value" d ≡ none

-- Every sensitive header that is kept has its value blanked.
abbrev pub Redacted : Object → Type 0
Redacted headers =
    (key : String) (value : Value)
    → lookup key headers ≡ some value
    → sensitive key ≡ true
    → value ≡ text "[REDACTED]"

redact_headers-Redacted : (headers : Object) → Redacted (redact_headers headers)
unfolding redact_headers lookup
redact_headers-Redacted [] key value h s = cc
redact_headers-Redacted ((k, v) ∷ headers) key value h s = elim (Bool-cases (k == key)) [
  | inl same ↦
      let e : k ≡ key = (eq_iff k key).0 same in
      let t : sensitive k ≡ true = subst (λ x. sensitive x ≡ true) (sym e) s in ground (arith, t)
  | inr other ↦ redact_headers-Redacted headers key value (ground arith) s
]

answer_with-NoSecret :
    (environ : Environ) (now : DateTime) (r : CredentialResolutionRequest)
    (c : CredentialDefinition)
    → NoSecret (answer_with environ now r c).redacted_metadata
unfolding answer_with lifecycle_error scope_denied missing_secret redacted_metadata lookup
answer_with-NoSecret environ now r c = ground arith

first_answer-NoSecret :
    (environ : Environ) (now : DateTime) (r : CredentialResolutionRequest)
    (cs : List (Option CredentialDefinition))
    → NoSecret (first_answer environ now r cs).redacted_metadata
unfolding first_answer missing_credential lookup
first_answer-NoSecret environ now r [] = refl
first_answer-NoSecret environ now r (none ∷ cs) = first_answer-NoSecret environ now r cs
first_answer-NoSecret environ now r (some c ∷ cs) =
    elim (Bool-cases (c.provider_id == r.provider_id)) [
      | inl own ↦ rw own (answer_with-NoSecret environ now r c)
      | inr other ↦ rw other (first_answer-NoSecret environ now r cs)
    ]

answer_from-NoSecret :
    (environ : Environ) (now : DateTime) (r : CredentialResolutionRequest)
    (cs : List (Option CredentialDefinition))
    → NoSecret (answer_from environ now r cs).redacted_metadata
unfolding answer_from nothing_needed lookup
answer_from-NoSecret environ now r cs = ground (arith, first_answer-NoSecret environ now r cs)

-- No answer of `resolve` has a secret in its description, under `secret_value`.
resolve-NoSecret :
    (environ : Environ) (now : DateTime) (configured : List CredentialDefinition)
    (r : CredentialResolutionRequest)
    → NoSecret (resolve environ now configured r).redacted_metadata
resolve-NoSecret environ now configured r =
    unfold resolve in answer_from-NoSecret environ now r (candidates configured r)

without_secret-NoSecret : (d : Object) → NoSecret (without_secret d)
unfolding without_secret
without_secret-NoSecret d = lookup-erase "secret_value" "secret_value" d ∙ refl

some_object : (x y : Object) → some x ≡ some y → x ≡ y
some_object x y p = cc

safe_credential_metadata-none-NoSecret :
    (credential : Option Object) (d : Object)
    → safe_credential_metadata credential none ≡ some d
    → NoSecret d
unfolding safe_credential_metadata Option.map
safe_credential_metadata-none-NoSecret none d h = cc
safe_credential_metadata-none-NoSecret (some c) d h =
    subst NoSecret (some_object (without_secret c) d h) (without_secret-NoSecret c)

first_metadata-NoSecret :
    (credential : Option Object) (md d : Object)
    → NoSecret md
    → first_metadata credential md ≡ some d
    → NoSecret d
unfolding first_metadata
first_metadata-NoSecret credential [] d safe h =
    safe_credential_metadata-none-NoSecret credential d (unfold safe_credential_metadata in h)
first_metadata-NoSecret credential (e ∷ md) d safe h =
    subst NoSecret (some_object (e ∷ md) d h) safe

-- The description of a credential in the metadata of a call holds no secret.
pub safe_credential_metadata-NoSecret :
    (credential : Option Object) (a : Option ResolvedCredential) (d : Object)
    → ((b : ResolvedCredential) → a ≡ some b → NoSecret b.redacted_metadata)
    → safe_credential_metadata credential a ≡ some d
    → NoSecret d
safe_credential_metadata-NoSecret credential none d safe h =
    safe_credential_metadata-none-NoSecret credential d h
safe_credential_metadata-NoSecret credential (some a) d safe h =
    first_metadata-NoSecret credential a.redacted_metadata d (safe a refl)
      (unfold safe_credential_metadata in h)

pub some-NoSecret :
    (a b : ResolvedCredential)
    → NoSecret a.redacted_metadata
    → some a ≡ some b
    → NoSecret b.redacted_metadata
some-NoSecret a b safe p = subst (λ c. NoSecret c.redacted_metadata) (some_inj a b p) safe
  where
    some_inj : (x y : ResolvedCredential) → some x ≡ some y → x ≡ y
    some_inj x y q = cc

module _ (backend : Backend) (m : Moment) (configured : List CredentialDefinition) where
  prefer_headers-NoSecret :
      (a : ResolvedCredential) (reference : Option String)
      → NoSecret a.redacted_metadata
      → NoSecret (prefer_headers backend m configured a reference).redacted_metadata
  unfolding prefer_headers from_headers lookup
  prefer_headers-NoSecret a none h = h
  prefer_headers-NoSecret a (some reference) h = ground arith

  invalid_credential-NoSecret :
      (raw : Object) (message : String) (a : ResolvedCredential)
      → invalid_credential (some raw) message ≡ some a
      → NoSecret a.redacted_metadata
  unfolding invalid_credential safe_credential_metadata Option.map
  invalid_credential-NoSecret raw message a h =
      elim (Bool-cases (any (λ entry. not (describes entry.1)) (without_secret raw))) [
        | inl bad ↦ absurd (ground (arith, bad, h))
        | inr good ↦ some-NoSecret _ a (without_secret-NoSecret raw) (rw good at h)
      ]

  resolve_validated-NoSecret :
      (r : ProxyRequest) (raw : Object) (v : CredentialDefinition ⊎ String) (a : ResolvedCredential)
      → resolve_validated backend m configured r raw v ≡ some a
      → NoSecret a.redacted_metadata
  unfolding resolve_validated
  resolve_validated-NoSecret r raw (inr message) a h = invalid_credential-NoSecret raw message a h
  resolve_validated-NoSecret r raw (inl c) a h =
      some-NoSecret _ a (resolve-NoSecret m.environ m.now configured _) h

  preferred-NoSecret :
      (r : ProxyRequest) (headers : Object) (a : ResolvedCredential)
      → some (
          prefer_headers backend m configured
            (resolve m.environ m.now configured (resolution_request r))
            (header_reference headers))
        ≡ some a
      → NoSecret a.redacted_metadata
  preferred-NoSecret r headers a h =
      some-NoSecret _ a
        (prefer_headers-NoSecret (resolve m.environ m.now configured (resolution_request r))
          (header_reference headers)
          (resolve-NoSecret m.environ m.now configured (resolution_request r)))
        h

  pub resolve_given-NoSecret :
      (r : ProxyRequest) (given : Option Object) (headers : Object) (a : ResolvedCredential)
      → resolve_given backend m configured r given headers ≡ some a
      → NoSecret a.redacted_metadata
  unfolding resolve_given
  resolve_given-NoSecret r none headers a h = preferred-NoSecret r headers a h
  resolve_given-NoSecret r (some []) headers a h = preferred-NoSecret r headers a h
  resolve_given-NoSecret r (some (e ∷ raw)) headers a h =
      resolve_validated-NoSecret r (e ∷ raw) (backend.validate_credential (e ∷ raw)) a h

-- In the metadata of a call the sensitive headers are blanked, and the credential has no secret.
pub record Hides (metadata : Object) : Type 0 where
  pub headers : Object
  pub kept : get metadata "headers" ≡ object headers
  pub redacted : Redacted headers
  pub secretless : (d : Object) → get metadata "credential" ≡ object d → NoSecret d

object_inj : (c d : Object) → object c ≡ object d → c ≡ d
object_inj c d h =
    sym (entries-fields c) ∙ ap entries (fields_inj (fields c) (fields d) h) ∙ entries-fields d
  where
    fields_inj : (x y : Fields) → obj x ≡ obj y → x ≡ y
    fields_inj x y p = cc

pub safe_request_metadata-Hides :
    (method url : String) (request headers : Object) (credential : Option Object)
    → ((d : Object) → credential ≡ some d → NoSecret d)
    → Hides (safe_request_metadata method url request headers credential)
unfolding safe_request_metadata get lookup
safe_request_metadata-Hides method url request headers none safe = record {
  headers = redact_headers headers;
  kept = refl;
  redacted = redact_headers-Redacted headers;
  secretless = λ d h. cc;
}
safe_request_metadata-Hides method url request headers (some c) safe = record {
  headers = redact_headers headers;
  kept = refl;
  redacted = redact_headers-Redacted headers;
  secretless = λ d h. subst NoSecret (object_inj c d h) (safe c refl);
}
