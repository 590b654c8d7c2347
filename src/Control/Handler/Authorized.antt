-- ===== src/Control/Handler/Authorized.antt =====
-- What reaches the proxy and the store through the handler.
use api2agent.Common.{
  String, true, ◌⊎◌, inl, inr, Option, none, List, ◌==◌, ◌≡◌, refl, arith, eq_iff, Bool-cases,
}
use api2agent.Python.Number.{ℤ, pos}
use api2agent.Python.Value.{Fields, null, boolean, int, float, text, arr, obj, Object, entries}
use api2agent.Credentials.{CredentialDefinition}
use api2agent.Control.{UsageSummary}
use api2agent.Control.Storage.{UsageStore, Sums, summarize}
use api2agent.Control.Proxy.{Backend, Moment, Outcome, raised, execute_proxy_call}
use api2agent.Control.Handler.{
  of_type, with_details, Loaded, loaded, invalid_json, unreadable, HttpRequest, Web, usage,
  authorized, error_reply, call_payload, do_post, do_get,
}

module _ (web : Web) (backend : Backend) (m : Moment) (configured : List CredentialDefinition)
    (api_key : Option String) (quota : Option ℤ) (s : UsageStore) where
  -- An error answer, with the store as it was and nothing sent.
  abbrev pub Refused : Outcome → Type 0
  Refused out = (status : ℤ) × (error : Object) × (out ≡ error_reply status error s)

  -- The call of the proxy for a dict that the body holds.
  abbrev pub Called : String → Outcome → Type 0
  Called body out =
      (fs : Fields) × (web.loads body ≡ loaded (obj fs))
      × (out ≡ execute_proxy_call backend m configured quota s (entries fs))

  -- A body that is not read, with nothing done.
  abbrev pub Unread : String → Outcome → Type 0
  Unread body out = (web.loads body ≡ unreadable) × (out ≡ raised none)

  call_payload-cases :
      (body : String) (o : Loaded)
      → web.loads body ≡ o
      → Refused (call_payload web backend m configured api_key quota s o)
        ⊎ (Called body (call_payload web backend m configured api_key quota s o)
            ⊎ Unread body (call_payload web backend m configured api_key quota s o))
  unfolding call_payload
  call_payload-cases body unreadable e = inr (inr (e, refl))
  call_payload-cases body invalid_json e = inl (pos 400, of_type "invalid_json", refl)
  call_payload-cases body (loaded (obj fs)) e = inr (inl (fs, e, refl))
  call_payload-cases body (loaded null) e = inl (pos 400, with_details (web.details null), refl)
  call_payload-cases body (loaded (boolean b)) e =
      inl (pos 400, with_details (web.details (boolean b)), refl)
  call_payload-cases body (loaded (int n)) e =
      inl (pos 400, with_details (web.details (int n)), refl)
  call_payload-cases body (loaded (float x)) e =
      inl (pos 400, with_details (web.details (float x)), refl)
  call_payload-cases body (loaded (text t)) e =
      inl (pos 400, with_details (web.details (text t)), refl)
  call_payload-cases body (loaded (arr xs)) e =
      inl (pos 400, with_details (web.details (arr xs)), refl)

  -- A POST is refused with nothing done, or it is one to the path of the proxy by a client that is
  -- authorized, and does what the proxy does with the dict in its body, or raises with nothing done
  -- where the body cannot be read. A GET shows a summary to an
  -- authorized client only, and then that of the project in its query.
  pub do_post-authorized :
      (h : HttpRequest) (sums : Sums)
      → (Refused (do_post web backend m configured api_key quota s h)
          ⊎ ((h.path ≡ "/v1/proxy/call")
              × (authorized api_key h ≡ true)
              × (Called h.body (do_post web backend m configured api_key quota s h)
                  ⊎ Unread h.body (do_post web backend m configured api_key quota s h))))
        × ((summary : UsageSummary)
            → do_get web sums api_key s h ≡ usage summary
            → (authorized api_key h ≡ true) × (summarize sums (web.project_id h.path) s ≡ summary))
  unfolding do_post do_get
  do_post-authorized h sums = (
    elim (Bool-cases (h.path == "/v1/proxy/call")) [
      | inr elsewhere ↦ inl (pos 404, of_type "not_found", rw elsewhere refl)
      | inl there ↦ elim (Bool-cases (authorized api_key h)) [
        | inr stranger ↦ inl (pos 401, of_type "unauthorized", rw (there, stranger) refl)
        | inl known ↦ elim (call_payload-cases h.body (web.loads h.body) refl) [
          | inl (status, error, e) ↦ inl (status, error, rw (there, known) e)
          | inr (inl (fs, e, k)) ↦
              inr
                ((eq_iff h.path "/v1/proxy/call").0 there, known, inl (fs, e, rw (there, known) k))
          | inr (inr (e, k)) ↦
              inr ((eq_iff h.path "/v1/proxy/call").0 there, known, inr (e, rw (there, known) k))
        ]
      ]
    ],
    λ summary shown. (ground arith, ground arith),
  )
