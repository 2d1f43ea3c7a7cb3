-- ===== src/Entry/Routes/Unguarded.antt =====
-- Who reaches the admin routes of the public server.
use load_balancer.Base.{
  ℕ, ◌≤◌, ◌≡◌, refl, ap, inl, inr, false, none, some, String, List, str_eq, Bool-cases, ◌==◌, bytes,
}
use load_balancer.Base.Dict.{lookup}
use load_balancer.Breaker.Types.{add_time}
use load_balancer.Config.{Config}
use load_balancer.Middleware.Exchange.{
  body, Out, returned, Exchange, Handler, emit-keeps, http_error-keeps,
}
use load_balancer.Server.{World, ask}
use load_balancer.Server.Admin.{chaos_trip, breaker_of, tripped_refuses}
use load_balancer.Entry.NetHttp.{NetRequest, Net}
use load_balancer.Entry.Routes.{Page, tripped, reply, with_world, serve_trip, routes}

module _ {L : Type 0} {S : Type 0} (json : Page → List ℕ) where
  -- Whatever is answered, the world is the one that the handler left.
  reply-world :
      (w : Out) (done : World S × ℕ) (page : Page) (text : String) (x : Exchange (Net L (World S)))
      → ((reply json w done page text x).0.state.proxy ≡ done.0)
        × ((reply json w done page text x).1 ≡ returned)
  unfolding reply
  reply-world w (world, code) page text x =
      let y = with_world world x in
      elim (Bool-cases (200 == code)) [
        | inl e ↦
            rw e (ap (λ (n : Net L (World S)). n.proxy) (emit-keeps w (body (json page)) y).1, refl)
        | inr e ↦
            rw e (
              ap (λ (n : Net L (World S)). n.proxy) (http_error-keeps w (bytes text) code y).1,
              refl,
            )
      ]

module _ {L : Type 0} {S : Type 0} (json : Page → List ℕ) (query_host path : NetRequest → String)
    (mux : List (String × Handler NetRequest (Net L (World S)))
      → Handler NetRequest (Net L (World S)))
    (exact : (rs : List (String × Handler NetRequest (Net L (World S)))) (r : NetRequest)
        (h : Handler NetRequest (Net L (World S))) (w : Out) (x : Exchange (Net L (World S)))
      → lookup (path r) rs ≡ some h
      → mux rs w r x ≡ h w r x)
    (metrics pprof dashboard : Handler NetRequest (Net L (World S))) where
  -- Whatever the configuration says of addresses, rates and origins, and whatever stands behind
  -- the guards: a request of anyone for /api/chaos/trip with the name of a host, to the public
  -- server, trips the breaker of that host, and within its timeout no request is let through to
  -- it.
  pub trip_unguarded :
      (c : Config) (guarded : Handler NetRequest (Net L (World S))) (w : Out) (r : NetRequest)
      (x : Exchange (Net L (World S))) (later : ℕ)
      → path r ≡ "/api/chaos/trip"
      → str_eq (query_host r) "" ≡ false
      → later ≤ add_time r.time (breaker_of (query_host r) x.state.proxy).config.timeout
      → let e = mux (routes json query_host metrics pprof dashboard c guarded) w r x in
        (e.1 ≡ returned)
        × (e.0.state.proxy ≡ (chaos_trip (query_host r) r.time x.state.proxy).0)
        × ((ask (query_host r) later e.0.state.proxy).1 ≡ none)
  unfolding lookup serve_trip
  trip_unguarded c guarded w r x later at named early =
      let host = query_host r in
      let rs = routes json query_host metrics pprof dashboard c guarded in
      let found : lookup (path r) rs ≡ some (serve_trip json query_host) = rw at refl in
      let same = exact rs r (serve_trip json query_host) w x found in
      let (world, ends) =
        reply-world json w (chaos_trip host r.time x.state.proxy) (tripped host)
          "{\"error\":\"missing host parameter\"}" x in
      (
        rw same ends,
        rw same world,
        rw (same, world) (tripped_refuses host r.time later x.state.proxy named early),
      )
