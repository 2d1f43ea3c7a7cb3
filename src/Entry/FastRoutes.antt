-- ===== src/Entry/FastRoutes.antt =====
-- cmd/proxy/fasthttp.go, runFasthttp: the mux of its admin server, which is a server of net/http on
-- an address of its own, over the world of the fasthttp proxy. Parameters as in Entry/Routes.
pub mod Agree
use load_balancer.Base.{ℕ, String, List, [], ◌∷◌}
use load_balancer.Config.{Config}
use load_balancer.Middleware.Exchange.{body, returned, Handler, emit}
use load_balancer.Server.{World}
use load_balancer.Server.FastAdmin.{fast_chaos_trip, fast_chaos_reset}
use load_balancer.Server.StatusPages.{status_page, backends_page}
use load_balancer.Entry.NetHttp.{NetRequest, Net}
use load_balancer.Entry.Routes.{Page, status, backends, tripped, reset, with_world}

module _ {L : Type 0} {S : Type 0} (json : Page → List ℕ) (query_host : NetRequest → String) where
  unfoldable pub fast_serve_status : Config → Handler NetRequest (Net L (World S))
  unfolding emit
  fast_serve_status c w r x =
      (emit w (body (json (status (status_page c x.state.proxy)))) x, returned)

  unfoldable pub fast_serve_backends : Handler NetRequest (Net L (World S))
  unfolding emit
  fast_serve_backends w r x =
      let (world, shown) = backends_page r.time x.state.proxy in
      (emit w (body (json (backends shown))) (with_world world x), returned)

  -- No test of the host: these always answer with the page.
  unfoldable pub fast_serve_trip : Handler NetRequest (Net L (World S))
  unfolding emit
  fast_serve_trip w r x =
      let host = query_host r in
      let world = fast_chaos_trip host r.time x.state.proxy in
      (emit w (body (json (tripped host))) (with_world world x), returned)

  unfoldable pub fast_serve_reset : Handler NetRequest (Net L (World S))
  unfolding emit
  fast_serve_reset w r x =
      let host = query_host r in
      let world = fast_chaos_reset host r.time x.state.proxy in
      (emit w (body (json (reset host))) (with_world world x), returned)

  module _ (metrics pprof dashboard : Handler NetRequest (Net L (World S))) where
    -- The patterns of adminMux, in the order in which they are registered.
    abbrev pub fast_routes : Config → List (String × Handler NetRequest (Net L (World S)))
    fast_routes c =
        ("/metrics", metrics)
        ∷ ("/debug/pprof/", pprof)
        ∷ ("/dashboard", dashboard)
        ∷ ("/api/status", fast_serve_status c)
        ∷ ("/api/backends", fast_serve_backends)
        ∷ ("/api/chaos/trip", fast_serve_trip)
        ∷ ("/api/chaos/reset", fast_serve_reset)
        ∷ []
