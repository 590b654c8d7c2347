-- ===== src/Control/Proxy/Quota.antt =====
-- The quota over any sequence of proxied calls, of any projects.
use api2agent.Common.{
  eq_iff, ◌-◌, ℕ, ◌+◌, ◌≤◌, String, Bool, true, false, ◌==◌, leb, Option, some, List, [], ◌∷◌, ◌≡◌,
  refl, sym, subst, ◌∙◌, inl, inr, ◌⊎◌, arith, eq_refl, is_some, Bool-cases, Option-cases,
  if◌then◌else◌,
}
use api2agent.Control.{ProxyRequest}
use api2agent.Python.Number.{pos}
use api2agent.Credentials.{CredentialDefinition}
use api2agent.Control.Storage.{UsageStore, count, clause}
use api2agent.Control.Storage.Events.{count-record_event}
use api2agent.Control.Request.{Sent}
use api2agent.Control.Proxy.{Backend, Moment, Reply, Outcome, replied, raised, proxy_call}
use api2agent.Control.Proxy.Effects.{Recorded}
use api2agent.Control.Proxy.Calls.{proxy_call-Recorded}
use api2agent.Control.Proxy.Gates.{proxy_call-gated}

-- The store after a call.
abbrev pub after : UsageStore → Outcome → UsageStore
after s (replied q) = q.store
after s (raised sent) = s

-- Whether the call went to the provider, and has replied.
abbrev pub forwarded : Outcome → Bool
forwarded (replied q) = is_some q.sent
forwarded (raised sent) = false

Outcome-cases :
    (o : Outcome) → ((sent : Option Sent) × (o ≡ raised sent)) ⊎ ((q : Reply) × (o ≡ replied q))
Outcome-cases (raised sent) = inl (sent, refl)
Outcome-cases (replied q) = inr (q, refl)

own-clause : (p q : String) → q ≡ p → clause (some p) q ≡ true
unfolding clause
own-clause p q e = ground (arith, eq_refl p, e)

module _ (backend : Backend) (configured : List CredentialDefinition) (n : ℕ) (p : String) where
  -- How many of the calls for the project `p` reach a provider and reply, one after the other.
  unfoldable pub forwards : UsageStore → List (Moment × ProxyRequest) → ℕ
  forwards s [] = 0
  forwards s ((m, r) ∷ calls) =
      let outcome = proxy_call backend m configured (some (pos n)) s r in
      (if (r.project_id == p) then (if forwarded outcome then 1 else 0) else 0)
      + forwards (after s outcome) calls

  count_grows :
      (m : Moment) (s : UsageStore) (r : ProxyRequest) (q : Reply)
      → Recorded r m s q
      → count (some p) s ≤ count (some p) q.store
  count_grows m s r q w =
      let step = count-record_event w.event s q.store (some p) w.stored in ground arith

  count_own :
      (m : Moment) (s : UsageStore) (r : ProxyRequest) (q : Reply)
      → Recorded r m s q
      → r.project_id ≡ p
      → count (some p) q.store ≡ count (some p) s + 1
  count_own m s r q w e =
      let step = count-record_event w.event s q.store (some p) w.stored in
      let own = own-clause p w.event.project_id (w.of_project ∙ e) in rw own at step

  -- What one call spends of the quota.
  Spent : UsageStore → ProxyRequest → Outcome → Type 0
  Spent s r o =
      (if (r.project_id == p) then (if forwarded o then 1 else 0) else 0)
        + (n - count (some p) (after s o))
      ≤ n - count (some p) s

  replied-Spent :
      (m : Moment) (s : UsageStore) (r : ProxyRequest) (q : Reply)
      → proxy_call backend m configured (some (pos n)) s r ≡ replied q
      → Spent s r (replied q)
  unfolding Spent
  replied-Spent m s r q h =
      let w = proxy_call-Recorded backend m configured (some (pos n)) s r q h in
      let grows = count_grows m s r q w in
      elim (Bool-cases (r.project_id == p)) [
        | inr other ↦ rw other (omega arith)
        | inl own ↦ elim (Option-cases q.sent) [
          | inl unsent ↦ rw (own, unsent) (omega arith)
          | inr (sent, e) ↦
              let same : r.project_id ≡ p = (eq_iff r.project_id p).0 own in
              let gate = proxy_call-gated backend m configured (some (pos n)) s r q sent h e in
              let room : leb n (count (some p) s) ≡ false =
                subst (λ x. leb n (count (some x) s) ≡ false) same gate.0 in
              let one = count_own m s r q w same in rw (own, e) (ground arith)
        ]
      ]

  raised-Spent : (s : UsageStore) (r : ProxyRequest) (sent : Option Sent) → Spent s r (raised sent)
  unfolding Spent
  raised-Spent s r sent = ground arith

  call-Spent :
      (m : Moment) (s : UsageStore) (r : ProxyRequest)
      → Spent s r (proxy_call backend m configured (some (pos n)) s r)
  call-Spent m s r = elim (Outcome-cases (proxy_call backend m configured (some (pos n)) s r)) [
    | inl (sent, e) ↦ subst (Spent s r) (sym e) (raised-Spent s r sent)
    | inr (q, e) ↦ subst (Spent s r) (sym e) (replied-Spent m s r q e)
  ]

  -- In any sequence of calls, those of a project that reach a provider and reply are at most what
  -- the quota leaves over the project's events in the store before it.
  pub forwards-bound :
      (calls : List (Moment × ProxyRequest)) (s : UsageStore)
      → forwards s calls ≤ n - count (some p) s
  unfolding forwards Spent
  forwards-bound [] s = ground arith
  forwards-bound ((m, r) ∷ calls) s =
      let o = proxy_call backend m configured (some (pos n)) s r in
      let rest = forwards-bound calls (after s o) in let here = call-Spent m s r in ground arith
