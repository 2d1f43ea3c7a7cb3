-- ===== src/Entry/FastRoutes/Agree.antt =====
-- The admin routes of the two servers side by side.
use load_balancer.Base.{
  ℕ, ◌≡◌, refl, ◌≢◌, inl, inr, none, some, String, List, [], ◌∷◌, str_eq, Bool-cases,
}
use load_balancer.Base.Dict.{lookup}
use load_balancer.Config.{Config}
use load_balancer.Middleware.Exchange.{Out, Exchange, Handler}
use load_balancer.Server.{World}
use load_balancer.Server.FastAdmin.{admin_routes_agree}
use load_balancer.Entry.NetHttp.{NetRequest, Net}
use load_balancer.Entry.Routes.{
  Page, reply, serve_status, serve_backends, serve_trip, serve_reset, serve_switch, routes,
}
use load_balancer.Entry.FastRoutes.{
  fast_serve_status, fast_serve_backends, fast_serve_trip, fast_serve_reset, fast_routes,
}

module _ {ℓ} {A B : Type ℓ} where
  -- Two tables with the same keys, whose values are related row by row.
  AreRelated : (A → B → Type ℓ) → List (String × A × B) → Type ℓ
  AreRelated R [] = Unit
  AreRelated R ((key, a, b) ∷ rows) = R a b × AreRelated R rows

  abbrev left : List (String × A × B) → List (String × A)
  left [] = []
  left ((key, a, b) ∷ rows) = (key, a) ∷ left rows

  abbrev right : List (String × A × B) → List (String × B) → List (String × B)
  right [] last = last
  right ((key, a, b) ∷ rows) last = (key, b) ∷ right rows last

  -- What the first table has for a key, the second one has a counterpart of.
  lookup-related :
      (R : A → B → Type ℓ) (key : String) (rows : List (String × A × B)) (last : List (String × B))
      (a : A)
      → AreRelated R rows
      → lookup key (left rows) ≡ some a
      → (b : B) × (lookup key (right rows last) ≡ some b) × R a b
  unfolding AreRelated lookup
  lookup-related R key [] last a related found = let clash : none ≡ some a = found in absurd cc
  lookup-related R key ((first, a0, b0) ∷ rows) last a (here, later) found =
      elim (Bool-cases (str_eq first key)) [
        | inl e ↦
            let heads : some a0 ≡ some a = rw e at found in
            let same : a0 ≡ a = cc in (b0, rw e refl, rw same at here)
        | inr e ↦
            let below : lookup key (left rows) ≡ some a = rw e at found in
            let (b, there, both) = lookup-related R key rows last a later below in
            (b, rw e there, both)
      ]

module _ {L : Type 0} {S : Type 0} (json : Page → List ℕ) (query_host : NetRequest → String)
    (metrics pprof dashboard : Handler NetRequest (Net L (World S))) where
  -- Two handlers answer a request alike.
  abbrev AreAlike :
      Out
      → NetRequest
      → Exchange (Net L (World S))
      → Handler NetRequest (Net L (World S))
      → Handler NetRequest (Net L (World S))
      → Type 0
  AreAlike w r x h k = h w r x ≡ k w r x

  trips_alike :
      (w : Out) (r : NetRequest) (x : Exchange (Net L (World S)))
      → query_host r ≢ ""
      → fast_serve_trip json query_host w r x ≡ serve_trip json query_host w r x
  unfolding fast_serve_trip serve_trip reply
  trips_alike w r x named =
      let (same, _, _) = admin_routes_agree (query_host r) r.time x.state.proxy named in
      rw same refl

  resets_alike :
      (w : Out) (r : NetRequest) (x : Exchange (Net L (World S)))
      → query_host r ≢ ""
      → fast_serve_reset json query_host w r x ≡ serve_reset json query_host w r x
  unfolding fast_serve_reset serve_reset reply
  resets_alike w r x named =
      let (_, same, _) = admin_routes_agree (query_host r) r.time x.state.proxy named in
      rw same refl

  -- Every pattern of the admin server of fasthttp is one of the public server of net/http, whose
  -- handler answers each request alike, and leaves the same, where the request names a host.
  pub fast_routes_agree :
      (c : Config) (guarded : Handler NetRequest (Net L (World S))) (pattern : String)
      (h : Handler NetRequest (Net L (World S))) (w : Out) (r : NetRequest)
      (x : Exchange (Net L (World S)))
      → query_host r ≢ ""
      → lookup pattern (fast_routes json query_host metrics pprof dashboard c) ≡ some h
      → (k : Handler NetRequest (Net L (World S))) × (lookup pattern
            (routes json query_host metrics pprof dashboard c guarded)
          ≡ some k)
        × (h w r x ≡ k w r x)
  unfolding AreRelated fast_serve_status serve_status fast_serve_backends serve_backends
  fast_routes_agree c guarded pattern h w r x named found =
      lookup-related (AreAlike w r x) pattern
        (("/metrics", metrics, metrics)
          ∷ ("/debug/pprof/", pprof, pprof)
          ∷ ("/dashboard", dashboard, dashboard)
          ∷ ("/api/status", fast_serve_status json query_host c, serve_status json query_host c)
          ∷ ("/api/backends", fast_serve_backends json query_host, serve_backends json query_host)
          ∷ ("/api/chaos/trip", fast_serve_trip json query_host, serve_trip json query_host)
          ∷ ("/api/chaos/reset", fast_serve_reset json query_host, serve_reset json query_host)
          ∷ [])
        (("/api/chaos/backend", serve_switch json query_host) ∷ ("/", guarded) ∷ []) h
        (
          refl,
          (refl, (refl, (refl, (refl, (trips_alike w r x named, (resets_alike w r x named, tt)))))),
        )
        found
