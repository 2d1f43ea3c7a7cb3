-- ===== src/Entry/Routes.antt =====
-- cmd/proxy/net.go, setupAdminRoutes and the mux of runNetHttp: the handlers of the admin routes are
-- registered on the public server, beside the guarded handler. Parameters: http.ServeMux, the JSON
-- encoder, the handlers of /metrics, of pprof and of the dashboard, and where the path and the query
-- of a request are. The headers of the answers are left out.
pub mod Unguarded
use load_balancer.Base.{
  ℕ, Bool, false, ◌==◌, Option, none, some, String, List, [], ◌∷◌, bytes, str_eq, if◌then◌else◌,
}
use load_balancer.Balancer.Backend.{is_alive}
use load_balancer.Balancer.Pool.{get_backend_by_host}
use load_balancer.Config.{Config}
use load_balancer.Middleware.Exchange.{
  body, Out, Outcome, returned, Exchange, Handler, emit, http_error,
}
use load_balancer.Server.{World}
use load_balancer.Server.Admin.{chaos_trip, chaos_reset, chaos_backend}
use load_balancer.Server.StatusPages.{BackendStatus, StatusPage, status_page, backends_page}
use load_balancer.Entry.NetHttp.{NetRequest, Net}

-- What the handlers encode.
pub data Page : Type 0 where
  status : StatusPage → Page
  backends : List BackendStatus → Page
  tripped reset : String → Page
  switched : String → Bool → Page

abbrev pub with_world :
    {L : Type 0} → {S : Type 0} → World S → Exchange (Net L (World S)) → Exchange (Net L (World S))
with_world w x = record x { state = record x.state { proxy = w } }

module _ {L : Type 0} {S : Type 0} (json : Page → List ℕ) where
  -- The answer of a handler that has changed the world: the page, or the error that it gave.
  unfoldable pub reply :
      Out
      → World S × ℕ
      → Page
      → String
      → Exchange (Net L (World S))
      → Exchange (Net L (World S)) × Outcome
  unfolding emit http_error
  reply w (world, code) page text x =
      let y = with_world world x in
      (
        (if 200 == code then emit w (body (json page)) y else http_error w (bytes text) code y),
        returned,
      )

-- What /api/chaos/backend tells after the switch.
abbrev pub switched_page : {S : Type 0} → String → World S → World S → Page
switched_page host w w' = elim (get_backend_by_host w.heap w.pool host) [
  | none ↦ switched host false
  | some r ↦ switched host (is_alive (w'.heap r))
]

module _ {L : Type 0} {S : Type 0} (json : Page → List ℕ) (query_host : NetRequest → String) where
  unfoldable pub serve_status : Config → Handler NetRequest (Net L (World S))
  unfolding emit
  serve_status c w r x = (emit w (body (json (status (status_page c x.state.proxy)))) x, returned)

  unfoldable pub serve_backends : Handler NetRequest (Net L (World S))
  unfolding emit
  serve_backends w r x =
      let (world, shown) = backends_page r.time x.state.proxy in
      (emit w (body (json (backends shown))) (with_world world x), returned)

  unfoldable pub serve_trip : Handler NetRequest (Net L (World S))
  unfolding reply
  serve_trip w r x =
      reply json w (chaos_trip (query_host r) r.time x.state.proxy) (tripped (query_host r))
        "{\"error\":\"missing host parameter\"}" x

  unfoldable pub serve_reset : Handler NetRequest (Net L (World S))
  unfolding reply
  serve_reset w r x =
      reply json w (chaos_reset (query_host r) r.time x.state.proxy) (reset (query_host r))
        "{\"error\":\"missing host parameter\"}" x

  unfoldable pub serve_switch : Handler NetRequest (Net L (World S))
  unfolding reply
  serve_switch w r x =
      let host = query_host r in
      let done = chaos_backend host x.state.proxy in
      reply json w done (switched_page host x.state.proxy done.0)
        "{\"error\":\"backend not found\"}" x

  module _ (metrics pprof dashboard : Handler NetRequest (Net L (World S))) where
    -- The patterns of the mux, in the order in which they are registered.
    abbrev pub routes :
        Config
        → Handler NetRequest (Net L (World S))
        → List (String × Handler NetRequest (Net L (World S)))
    routes c guarded =
        ("/metrics", metrics)
        ∷ ("/debug/pprof/", pprof)
        ∷ ("/dashboard", dashboard)
        ∷ ("/api/status", serve_status c)
        ∷ ("/api/backends", serve_backends)
        ∷ ("/api/chaos/trip", serve_trip)
        ∷ ("/api/chaos/reset", serve_reset)
        ∷ ("/api/chaos/backend", serve_switch)
        ∷ ("/", guarded)
        ∷ []
