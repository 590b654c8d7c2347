-- ===== src/Examples/Handler.antt =====
-- Requests to the proxy's handler.
use api2agent.Common.{true, some, [], ◌∷◌, ◌≡◌, ◌⊎◌, ◌==◌, if◌then◌else◌}
use api2agent.Python.Number.{pos}
use api2agent.Python.Value.{object}
use api2agent.Control.{UsageSummary}
use api2agent.Control.Storage.{summarize}
use api2agent.Control.Handler.{
  HttpRequest, Web, loaded, invalid_json, usage, authorized, do_post, do_get,
}
use api2agent.Control.Handler.Authorized.{Refused, Called, Unread, do_post-authorized}
use api2agent.Examples.Credentials.{github}
use api2agent.Examples.Control.{two_events}
use api2agent.Examples.Proxy.{backend, moment}
use api2agent.Examples.Run.{no_sums}

abbrev web : Web
web = record {
  loads = λ s. if s == "{}" then loaded (object []) else invalid_json;
  details = λ v. v;
  url_path = λ url. url;
  project_id = λ url. some "demo";
}

abbrev post : HttpRequest
post = record { path = "/v1/proxy/call"; authorization = some "Bearer k1"; body = "{}" }

do_post-authorized_example :
    (Refused web backend moment
        (github ∷ [])
        (some "k1")
        (some (pos 5))
        two_events
        (do_post web backend moment (github ∷ []) (some "k1") (some (pos 5)) two_events post)
      ⊎ ((post.path ≡ "/v1/proxy/call")
          × (authorized (some "k1") post ≡ true)
          × (Called web backend moment (github ∷ []) (some "k1") (some (pos 5)) two_events "{}" (
                do_post web backend moment (github ∷ []) (some "k1") (some (pos 5)) two_events post)
              ⊎ Unread web backend moment (github ∷ []) (some "k1") (some (pos 5)) two_events "{}" (
                  do_post web backend moment
                    (github ∷ [])
                    (some "k1")
                    (some (pos 5))
                    two_events
                    post))))
    × ((summary : UsageSummary)
        → do_get web no_sums (some "k1") two_events post ≡ usage summary
        → (authorized (some "k1") post ≡ true)
          × (summarize no_sums (some "demo") two_events ≡ summary))
do_post-authorized_example =
    do_post-authorized web backend moment (github ∷ []) (some "k1") (some (pos 5)) two_events post
      no_sums
