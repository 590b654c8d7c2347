-- ===== src/Control/Proxy/Calls.antt =====
-- What `execute_proxy_call` does on all its branches: it records one event for every validated
-- call, and forwards only within the quota and with a resolved credential.
use api2agent.Common.{String, Option, some, List, ◌≡◌, inl, inr, arith, Bool-cases, Option-cases}
use api2agent.Control.{Object, ProxyRequest}
use api2agent.Python.Number.{ℤ}
use api2agent.Python.Value.{get}
use api2agent.Credentials.{CredentialDefinition}
use api2agent.Control.Storage.{UsageStore, count}
use api2agent.Control.Request.{dict_or_empty, safe_credential_metadata}
use api2agent.Control.Proxy.{
  url_of, Backend, Moment, Reply, replied, quota_reached, resolve_proxy_credential, headed_call,
  proxy_call,
}
use api2agent.Control.Proxy.Secrecy.{NoSecret, resolve_given-NoSecret}
use api2agent.Control.Proxy.Effects.{
  Recorded, over_quota-Recorded, unresolved-Recorded, forward_call-Recorded,
}

module _ (backend : Backend) (m : Moment) (configured : List CredentialDefinition)
    (quota : Option ℤ) (s : UsageStore) (r : ProxyRequest) where
  headed_call-Recorded :
      (path : String) (headers : Object) (q : Reply)
      → headed_call backend m configured quota s r path headers ≡ replied q
      → Recorded r m s q
  unfolding headed_call resolve_proxy_credential safe_credential_metadata
  headed_call-Recorded path headers q h =
      elim (Bool-cases (quota_reached quota (count (some r.project_id) s))) [
        | inl full ↦
            over_quota-Recorded backend m configured s r path headers q
              (rw (full, headed_call) at h)
        | inr room ↦ elim (Option-cases (resolve_proxy_credential backend m configured r headers)) [
          | inl e ↦ absurd (ground (arith, room, e, h))
          | inr (a, e) ↦
              let safe : NoSecret a.redacted_metadata =
                resolve_given-NoSecret backend m configured r r.credential headers a e in
              elim (Bool-cases a.resolved) [
                | inl ok ↦
                    forward_call-Recorded backend m configured s r path headers a q safe
                      (rw (room, e, ok, headed_call) at h)
                | inr bad ↦
                    unresolved-Recorded backend m configured s r path headers a q safe
                      (rw (room, e, bad, headed_call) at h)
              ]
        ]
      ]

  -- A call that replies has recorded exactly one event in the store. The reply names it and agrees
  -- with it on success; the event is of the request's project, provider and tool, and its metadata
  -- blanks the sensitive headers and describes the credential without a `secret_value`.
  pub proxy_call-Recorded :
      (q : Reply) → proxy_call backend m configured quota s r ≡ replied q → Recorded r m s q
  unfolding proxy_call
  proxy_call-Recorded q h = elim (Option-cases (backend.url_path (url_of backend m configured r))) [
    | inl e ↦ absurd (ground (arith, e, h))
    | inr (path, e) ↦ elim (Option-cases (dict_or_empty (get r.request "headers"))) [
      | inl none_given ↦ absurd (ground (arith, e, none_given, h))
      | inr (headers, given) ↦ headed_call-Recorded _ headers q (rw (e, given, proxy_call) at h)
    ]
  ]
