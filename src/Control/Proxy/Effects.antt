-- ===== src/Control/Proxy/Effects.antt =====
-- What a proxied call does: it records one event or none, and forwards only within the quota.

use api2agent.Common.{
  String, Bool, false, Option, none, some, List, ◌≡◌, refl, ◌∙◌, ap, inl, inr, arith, lookup,
  text_or, Option-cases, if◌then◌else◌,
}
use api2agent.Python.Number.{ℤ, pos, Float, float_zero}
use api2agent.Python.Value.{Value, text, boolean, Object, get}
use api2agent.Credentials.{CredentialDefinition, ResolvedCredential}
use api2agent.Control.{ProxyRequest, UsageEvent}
use api2agent.Control.Storage.{UsageStore, record_event}
use api2agent.Control.Request.{dict_of, Sent, request_reference}
use api2agent.Control.Proxy.{
  response_body, Backend, Moment, Reply, replied, Forwarded, response, http_error, other_error,
  raised, finish, failure, error_entry, usage_event, over_quota, unresolved, after_forward, to_send,
  forward_call, event_of, metadata_of,
}
use api2agent.Control.Proxy.Secrecy.{
  Hides, NoSecret, some-NoSecret, safe_request_metadata-Hides, safe_credential_metadata-NoSecret,
}

-- The reply names the one event that the call has recorded. The event is of the request's project,
-- provider and tool, agrees with the reply on success, and hides what is secret.
pub record Recorded (r : ProxyRequest) (m : Moment) (s : UsageStore) (q : Reply) : Type 0 where
  pub event : UsageEvent
  pub stored : record_event event s ≡ some q.store
  pub named : get q.body "usage_event_id" ≡ text event.id
  pub agreed : get q.body "ok" ≡ boolean event.success
  pub fresh : event.id ≡ m.event_id
  pub of_project : event.project_id ≡ r.project_id
  pub of_provider : event.provider_id ≡ r.provider_id
  pub of_tool : event.tool_id ≡ r.tool_id
  pub metadata : Object
  pub described : event.request_metadata ≡ some metadata
  pub hides : Hides metadata

pub finish-replied :
    (s : UsageStore) (event : UsageEvent) (sent : Option Sent) (status : ℤ) (body : Object)
    (q : Reply)
    → finish s event sent status body ≡ replied q
    → (record_event event s ≡ some q.store)
      × (q.sent ≡ sent)
      × (q.status ≡ status)
      × (q.body ≡ body)
unfolding finish
finish-replied s event sent status body q h = elim (Option-cases (record_event event s)) [
  | inl e ↦ ground arith
  | inr (t, e) ↦ (ground arith, ground arith, ground arith, ground arith)
]

module _ (backend : Backend) (m : Moment) (configured : List CredentialDefinition) (s : UsageStore)
    (r : ProxyRequest) (path : String) (headers : Object) where
  -- The reply of any branch, with a body that names the event and agrees with it.
  finish-Recorded :
      (status : Option ℤ) (success : Bool) (latency cost : Float) (error : Option String)
      (resolved : Option ResolvedCredential) (reference : Option String) (sent : Option Sent)
      (code : ℤ) (body : Object) (q : Reply)
      → ((b : ResolvedCredential) → resolved ≡ some b → NoSecret b.redacted_metadata)
      → get body "usage_event_id" ≡ text m.event_id
      → get body "ok" ≡ boolean success
      → finish s
          (event_of backend m configured r path status success latency cost error
            (metadata_of backend m configured r headers resolved)
            reference)
          sent
          code
          body
        ≡ replied q
      → Recorded r m s q
  finish-Recorded status success latency cost error resolved reference sent code body q safe named
        agreed h =
      let event =
        event_of backend m configured r path status success latency cost error
          (metadata_of backend m configured r headers resolved) reference in
      let facts = finish-replied s event sent code body q h in
      record {
        event = event;
        stored = facts.0;
        named = unfold usage_event in ap (λ d. get d "usage_event_id") facts.3 ∙ named;
        agreed = unfold usage_event in ap (λ d. get d "ok") facts.3 ∙ agreed;
        fresh = unfold usage_event in refl;
        of_project = unfold usage_event in refl;
        of_provider = unfold usage_event in refl;
        of_tool = unfold usage_event in refl;
        metadata = metadata_of backend m configured r headers resolved;
        described = unfold usage_event in refl;
        hides =
            safe_request_metadata-Hides _ _ _ _ _
              (λ d p. safe_credential_metadata-NoSecret r.credential resolved d safe p);
      }

  -- A failure's body names its event and says that the call failed.
  failure-named :
      (event : UsageEvent) (kind message : String)
      → get (failure event kind message) "usage_event_id" ≡ text event.id
  unfolding get lookup failure error_entry
  failure-named event kind message = refl

  failure-ok :
      (event : UsageEvent) (kind message : String)
      → get (failure event kind message) "ok" ≡ boolean false
  unfolding get lookup failure error_entry
  failure-ok event kind message = refl

  finish-failure-Recorded :
      (status : Option ℤ) (latency cost : Float) (error : Option String)
      (resolved : Option ResolvedCredential) (reference : Option String) (sent : Option Sent)
      (code : ℤ) (kind message : String) (q : Reply)
      → ((b : ResolvedCredential) → resolved ≡ some b → NoSecret b.redacted_metadata)
      → let event =
          event_of backend m configured r path status false latency cost error
            (metadata_of backend m configured r headers resolved)
            reference in
        finish s event sent code (failure event kind message) ≡ replied q → Recorded r m s q
  finish-failure-Recorded status latency cost error resolved reference sent code kind message q safe
        h =
      let event =
        event_of backend m configured r path status false latency cost error
          (metadata_of backend m configured r headers resolved) reference in
      finish-Recorded status false latency cost error resolved reference sent code
        (failure event kind message) q safe
        (failure-named event kind message ∙ (unfold usage_event in refl))
        (failure-ok event kind message) h

  pub over_quota-Recorded :
      (q : Reply) → over_quota backend m configured s r path headers ≡ replied q → Recorded r m s q
  unfolding over_quota
  over_quota-Recorded q h =
      elim (Option-cases (request_reference backend.repr headers r.credential)) [
        | inl e ↦ absurd (raised_reply (rw (e, over_quota) at h))
        | inr (reference, e) ↦
            finish-failure-Recorded (some (pos 429)) float_zero float_zero (some "quota_exceeded")
              none reference none (pos 429) "quota_exceeded" "Project quota exceeded." q (λ b p. cc)
              (rw (e, over_quota) at h)
      ]
    where
      raised_reply : raised none ≡ replied q → ⊥
      raised_reply p = cc

  pub unresolved-Recorded :
      (a : ResolvedCredential) (q : Reply)
      → NoSecret a.redacted_metadata
      → unresolved backend m configured s r path headers a ≡ replied q
      → Recorded r m s q
  unresolved-Recorded a q safe h =
      finish-failure-Recorded (some (pos 401)) float_zero float_zero
        (some (text_or a.error_type "credential_resolution_failed")) (some a)
        (some a.credential_reference) none (pos 401)
        (text_or a.error_type "credential_resolution_failed")
        (text_or a.error_message "Proxy credential resolution failed.") q
        (λ b p. some-NoSecret a b safe p) (unfold unresolved in h)

  response-named :
      (event : UsageEvent) (status : ℤ) (success : Bool) (body : Value)
      → get (response_body event status success body) "usage_event_id" ≡ text event.id
  unfolding get lookup response_body
  response-named event status success body = refl

  response-ok :
      (event : UsageEvent) (status : ℤ) (success : Bool) (body : Value)
      → get (response_body event status success body) "ok" ≡ boolean success
  unfolding get lookup response_body
  response-ok event status success body = refl

  after_forward-Recorded :
      (a : ResolvedCredential) (sent : Sent) (answer : Forwarded) (q : Reply)
      → NoSecret a.redacted_metadata
      → after_forward backend m configured s r path headers a sent answer ≡ replied q
      → Recorded r m s q
  after_forward-Recorded a sent (response status success body) q safe h =
      let event =
        event_of backend m configured r path (some status) success m.latency_ms r.estimated_cost
          (if success then none else some "http_status")
          (metadata_of backend m configured r headers (some a)) (some a.credential_reference) in
      finish-Recorded (some status) success m.latency_ms r.estimated_cost
        (if success then none else some "http_status") (some a) (some a.credential_reference)
        (some sent) (if success then pos 200 else status) (response_body event status success body)
        q (λ b p. some-NoSecret a b safe p)
        (response-named event status success body ∙ (unfold usage_event in refl))
        (response-ok event status success body) (unfold after_forward in h)
  after_forward-Recorded a sent (http_error message) q safe h =
      finish-failure-Recorded none m.latency_ms float_zero (some "http_error") (some a)
        (some a.credential_reference) (some sent) (pos 502) "http_error" message q
        (λ b p. some-NoSecret a b safe p) (unfold after_forward in h)
  after_forward-Recorded a sent other_error q safe h =
      absurd (raised_reply (unfold after_forward in h))
    where
      raised_reply : raised (some sent) ≡ replied q → ⊥
      raised_reply p = cc

  pub forward_call-Recorded :
      (a : ResolvedCredential) (q : Reply)
      → NoSecret a.redacted_metadata
      → forward_call backend m configured s r path headers a ≡ replied q
      → Recorded r m s q
  unfolding forward_call
  forward_call-Recorded a q safe h = elim (Option-cases (dict_of (get r.request "params"))) [
    | inl e ↦ ground arith
    | inr (params, e) ↦
        let sent = to_send backend m configured r headers params a in
        after_forward-Recorded a sent (backend.forward sent) q safe (rw (e, forward_call) at h)
  ]
