-- ===== src/Control/Proxy/Gates.antt =====
-- When a proxied call reaches the provider, and when it replies at all.
use api2agent.Common.{
  String, if◌then◌else◌, Bool, true, false, any, ◌==◌, Option, none, some, List, ◌≡◌, refl, sym,
  ◌∙◌, inl, inr, arith, Bool-cases, Option-cases,
}
use api2agent.Control.{ProxyRequest, UsageEvent}
use api2agent.Python.Number.{ℤ, pos, is_nan}
use api2agent.Python.Value.{Object, get}
use api2agent.Credentials.{CredentialDefinition, ResolvedCredential}
use api2agent.Control.Storage.{UsageStore, record_event, count, is_null}
use api2agent.Control.Request.{
  request_reference, dict_of, Sent, dict_or_empty, safe_credential_metadata,
}
use api2agent.Control.Proxy.{
  request_reference, Backend, Moment, Reply, replied, raised, Forwarded, response, http_error,
  other_error, finish, quota_reached, resolve_proxy_credential, proxy_call, over_quota, unresolved,
  after_forward, forward_call, to_send, usage_event, headed_call, url_of,
}
use api2agent.Control.Proxy.Effects.{finish-replied}

-- Another exception than an `HTTPError`.
abbrev pub is_other : Forwarded → Bool
is_other other_error = true
is_other _ = false

-- An event of a new `id` without a NaN is stored.
finish-replies :
    (s : UsageStore) (event : UsageEvent) (sent : Option Sent) (status : ℤ) (body : Object)
    → any (λ e. e.id == event.id) s.usage_events ≡ false
    → is_null event ≡ false
    → (q : Reply) × (finish s event sent status body ≡ replied q)
unfolding finish record_event
finish-replies s event sent status body new valued =
    rw (new, valued, finish, record_event) (_, refl)

module _ (backend : Backend) (m : Moment) (configured : List CredentialDefinition) (s : UsageStore)
    (r : ProxyRequest) (path : String) (headers : Object) where
  raised_reply : (o : Option Sent) (q : Reply) → raised o ≡ replied q → ⊥
  raised_reply o q p = cc

  over_quota-sent :
      (q : Reply)
      → over_quota backend m configured s r path headers ≡ replied q
      → (q.sent ≡ none) × (q.status ≡ pos 429)
  unfolding over_quota
  over_quota-sent q h = elim (Option-cases (request_reference backend.repr headers r.credential)) [
    | inl e ↦ absurd (raised_reply none q (rw (e, over_quota) at h))
    | inr (reference, e) ↦
        let facts = finish-replied s _ none (pos 429) _ q (rw (e, over_quota) at h) in
        (facts.1, facts.2)
  ]

  unresolved-sent :
      (a : ResolvedCredential) (q : Reply)
      → unresolved backend m configured s r path headers a ≡ replied q
      → (q.sent ≡ none) × (q.status ≡ pos 401)
  unfolding unresolved
  unresolved-sent a q h = let facts = finish-replied s _ none (pos 401) _ q h in (facts.1, facts.2)

  after_forward-sent :
      (a : ResolvedCredential) (sent : Sent) (answer : Forwarded) (q : Reply)
      → after_forward backend m configured s r path headers a sent answer ≡ replied q
      → q.sent ≡ some sent
  unfolding after_forward
  after_forward-sent a sent (response status success body) q h =
      let facts = finish-replied s _ (some sent) _ _ q h in facts.1
  after_forward-sent a sent (http_error message) q h =
      let facts = finish-replied s _ (some sent) _ _ q h in facts.1
  after_forward-sent a sent other_error q h = absurd (raised_reply (some sent) q h)

  forward_call-sent :
      (a : ResolvedCredential) (q : Reply)
      → forward_call backend m configured s r path headers a ≡ replied q
      → (params : Object) × (dict_of (get r.request "params") ≡ some params)
        × (q.sent ≡ some (to_send backend m configured r headers params a))
  unfolding forward_call
  forward_call-sent a q h = elim (Option-cases (dict_of (get r.request "params"))) [
    | inl e ↦ absurd (raised_reply none q (rw (e, forward_call) at h))
    | inr (params, e) ↦ (params, e, after_forward-sent a _ _ q (rw (e, forward_call) at h))
  ]

  module _ (new : any (λ e. e.id == m.event_id) s.usage_events ≡ false) where
    over_quota-replies :
        (reference : Option String)
        → request_reference backend.repr headers r.credential ≡ some reference
        → (q : Reply) × (over_quota backend m configured s r path headers ≡ replied q)
    unfolding over_quota
    over_quota-replies reference e =
        rw (e, over_quota)
          (finish-replies s _ none (pos 429) _ (unfold usage_event in new)
            (unfold usage_event in refl))

    unresolved-replies :
        (a : ResolvedCredential)
        → (q : Reply) × (unresolved backend m configured s r path headers a ≡ replied q)
    unfolding unresolved
    unresolved-replies a =
        finish-replies s _ none (pos 401) _ (unfold usage_event in new) (unfold usage_event in refl)

    module _ (timed : is_nan m.latency_ms ≡ false) (priced : is_nan r.estimated_cost ≡ false) where
      after_forward-replies :
          (a : ResolvedCredential) (sent : Sent) (answer : Forwarded)
          → is_other answer ≡ false
          → (q : Reply) × (after_forward backend m configured s r path headers a sent answer
              ≡ replied q)
      unfolding after_forward
      after_forward-replies a sent (response status success body) known =
          finish-replies s _ (some sent) _ _ (unfold usage_event in new)
            (unfold usage_event in rw (timed, priced) refl)
      after_forward-replies a sent (http_error message) known =
          finish-replies s _ (some sent) (pos 502) _ (unfold usage_event in new)
            (unfold usage_event in rw timed refl)
      after_forward-replies a sent other_error known = cc

      forward_call-replies :
          (a : ResolvedCredential) (params : Object)
          → dict_of (get r.request "params") ≡ some params
          → is_other (backend.forward (to_send backend m configured r headers params a)) ≡ false
          → (q : Reply) × (forward_call backend m configured s r path headers a ≡ replied q)
      unfolding forward_call
      forward_call-replies a params e known =
          rw (e, forward_call) (after_forward-replies a _ _ known)

module _ (backend : Backend) (m : Moment) (configured : List CredentialDefinition)
    (quota : Option ℤ) (s : UsageStore) (r : ProxyRequest) where
  headed_call-gated :
      (path : String) (headers : Object) (q : Reply) (sent : Sent)
      → headed_call backend m configured quota s r path headers ≡ replied q
      → q.sent ≡ some sent
      → (quota_reached quota (count (some r.project_id) s) ≡ false)
        × (params : Object) × (a : ResolvedCredential) × (dict_of (get r.request "params")
            ≡ some params)
        × (resolve_proxy_credential backend m configured r headers ≡ some a)
        × (a.resolved ≡ true)
        × (sent ≡ to_send backend m configured r headers params a)
  unfolding headed_call safe_credential_metadata
  headed_call-gated path headers q sent h forwarded =
      elim (Bool-cases (quota_reached quota (count (some r.project_id) s))) [
        | inl full ↦
            let out =
              over_quota-sent backend m configured s r path headers q
                (rw (full, headed_call) at h) in
            ground arith
        | inr room ↦ elim (Option-cases (resolve_proxy_credential backend m configured r headers)) [
          | inl e ↦ absurd (ground (arith, room, e, h))
          | inr (a, e) ↦ elim (Bool-cases a.resolved) [
            | inl ok ↦
                let (params, p, out) =
                  forward_call-sent backend m configured s r path headers a q
                    (rw (room, e, ok, headed_call) at h) in
                (room, params, a, p, e, ok, some_sent _ _ (sym forwarded ∙ out))
            | inr bad ↦
                let out =
                  unresolved-sent backend m configured s r path headers a q
                    (rw (room, e, bad, headed_call) at h) in
                ground arith
          ]
        ]
      ]
    where
      some_sent : (x y : Sent) → some x ≡ some y → x ≡ y
      some_sent x y p = cc

  -- A call that replies has sent something to the provider only while the project's quota was not
  -- reached and with a credential that resolves. What went is the request's own, with that
  -- credential put in.
  pub proxy_call-gated :
      (q : Reply) (sent : Sent)
      → proxy_call backend m configured quota s r ≡ replied q
      → q.sent ≡ some sent
      → (quota_reached quota (count (some r.project_id) s) ≡ false)
        × (headers : Object) × (params : Object) × (a : ResolvedCredential) × (dict_or_empty
              (get r.request "headers")
            ≡ some headers)
        × (dict_of (get r.request "params") ≡ some params)
        × (resolve_proxy_credential backend m configured r headers ≡ some a)
        × (a.resolved ≡ true)
        × (sent ≡ to_send backend m configured r headers params a)
  unfolding proxy_call
  proxy_call-gated q sent h forwarded =
      elim (Option-cases (backend.url_path (url_of backend m configured r))) [
        | inl e ↦ absurd (ground (arith, e, h))
        | inr (path, e) ↦ elim (Option-cases (dict_or_empty (get r.request "headers"))) [
          | inl none_given ↦ absurd (ground (arith, e, none_given, h))
          | inr (headers, given) ↦
              let (room, params, a, p, e', ok, out) =
                headed_call-gated _ headers q sent (rw (e, given, proxy_call) at h) forwarded in
              (room, headers, params, a, given, p, e', ok, out)
        ]
      ]

  -- A call replies where its URL parses, its headers are a dict or nothing, `dict` takes its
  -- parameters, its credential can be named and resolves or is refused without an exception, the
  -- forwarding raises no exception but an `HTTPError`, its event id is new, and its latency and
  -- cost are no NaN.
  pub proxy_call-replies :
      (path : String) (headers params : Object) (reference : Option String) (a : ResolvedCredential)
      → backend.url_path (url_of backend m configured r) ≡ some path
      → dict_or_empty (get r.request "headers") ≡ some headers
      → dict_of (get r.request "params") ≡ some params
      → request_reference backend.repr headers r.credential ≡ some reference
      → resolve_proxy_credential backend m configured r headers ≡ some a
      → is_other (backend.forward (to_send backend m configured r headers params a)) ≡ false
      → any (λ e. e.id == m.event_id) s.usage_events ≡ false
      → is_nan m.latency_ms ≡ false
      → is_nan r.estimated_cost ≡ false
      → (q : Reply) × (proxy_call backend m configured quota s r ≡ replied q)
  unfolding proxy_call headed_call safe_credential_metadata
  proxy_call-replies path headers params reference a parsed given p referred e known new timed
        priced =
      let shown = if path == "" then url_of backend m configured r else path in
      rw (parsed, given, proxy_call)
        (elim (Bool-cases (quota_reached quota (count (some r.project_id) s))) [
          | inl full ↦
              rw (full, headed_call)
                (over_quota-replies backend m configured s r shown headers new reference referred)
          | inr room ↦ elim (Bool-cases a.resolved) [
            | inl ok ↦
                rw (room, e, ok, headed_call)
                  (forward_call-replies backend m configured s r shown headers new timed priced a
                    params p known)
            | inr bad ↦
                rw (room, e, bad, headed_call)
                  (unresolved-replies backend m configured s r shown headers new a)
          ]
        ])
