-- ===== src/Server/Fresh.antt =====
-- internal/server/proxy.go, NewProxy: the state of a new proxy, and that it turns no request away
-- for which its strategy names a backend.
use load_balancer.Base.{ℕ, ◌≡◌, refl, inl, inr, some, String, [], Option-cases}
use load_balancer.Balancer.Backend.{Heap, Ref}
use load_balancer.Balancer.Pool.{Pool}
use load_balancer.Balancer.Strategy.{Strategy}
use load_balancer.Base.Dict.{lookup}
use load_balancer.Breaker.Manager.{Arena, new_manager}
use load_balancer.Errors.{GoError}
use load_balancer.Metrics.{Collector}
use load_balancer.Retry.{Env}
use load_balancer.Server.{Request, World, host_of, ask, ask_refused, ask-lookup, proxy_config}
use load_balancer.Server.Selection.{
  client_key, choose, select_available_backend, somebody_chosen, guarded, guarded_free,
}
use load_balancer.Server.Transport.{Response, is_idempotent}
use load_balancer.Server.Proxy.{proxied, serve_http}
use load_balancer.Server.Outcome.{IsSettled, proxied-IsSettled}

-- NewProxy, over a heap of backends and the breakers' arena, of which it uses nothing yet.
unfoldable pub new_proxy : {S : Type 0} → Heap → Pool → S → Arena → Collector → World S
new_proxy h p s arena m = record {
  heap = h;
  pool = p;
  strategy = s;
  breakers = record { manager = new_manager proxy_config; arena = arena };
  metrics = m;
}

module _ {S : Type 0} where
  no_breaker :
      (w : World S) (host : String) (a : ℕ)
      → w.breakers.manager.breakers ≡ []
      → ¬ (lookup host w.breakers.manager.breakers ≡ some a)
  unfolding lookup
  no_breaker w host a empty found = let clash : lookup host [] ≡ some a = rw empty at found in cc

  -- Where no host has a breaker yet, no breaker refuses.
  pub fresh-guarded :
      (clock : ℕ → ℕ) (w : World S) (b : Ref)
      → w.breakers.manager.breakers ≡ []
      → (a : ℕ) × ((guarded clock b w).1 ≡ some (b, a))
        × (lookup (host_of w b) (guarded clock b w).0.breakers.manager.breakers ≡ some a)
  fresh-guarded clock w b empty = elim (Option-cases (ask (host_of w b) (clock 0) w).1) [
    | inl shut ↦
        let (kept, (a, found, refused)) = ask_refused (host_of w b) (clock 0) w shut in
        absurd (no_breaker w (host_of w b) a empty found)
    | inr (a, free) ↦
        let own = ask-lookup (host_of w b) (clock 0) w a free in
        (a, rw (guarded_free clock b w a free) refl, rw (guarded_free clock b w a free) own)
  ]

  -- Then the backend that the strategy names is handed out, with the breaker of its host.
  fresh-select :
      (st : Strategy S) (clock : ℕ → ℕ) (req : Request) (w : World S) (b : Ref)
      → w.breakers.manager.breakers ≡ []
      → (choose st (client_key req) w).1 ≡ some b
      → (a : ℕ) × ((select_available_backend st clock req w).1 ≡ some (b, a))
        × (lookup
              (host_of w b)
              (select_available_backend st clock req w).0.breakers.manager.breakers
            ≡ some a)
  unfolding choose
  fresh-select st clock req w b empty named =
      let chosen = somebody_chosen st clock req w b named in
      let (a, found, own) = fresh-guarded clock (choose st (client_key req) w).0 b empty in
      (a, rw chosen found, rw chosen own)

  -- The whole of ServeHTTP on such a state.
  pub fresh-serve :
      (status_text : ℕ → String) (st : Strategy S) (clock : ℕ → ℕ) (req : Request)
      (env : Ref → Env Response GoError) (dur now : ℕ) (w : World S) (b : Ref)
      → w.breakers.manager.breakers ≡ []
      → (choose st (client_key req) w).1 ≡ some b
      → (a : ℕ) × (serve_http status_text st clock req env dur now w
          ≡ proxied status_text b a req (env b) dur now (select_available_backend st clock req w).0)
        × ((select_available_backend st clock req w).1 ≡ some (b, a))
        × (lookup
              (host_of w b)
              (select_available_backend st clock req w).0.breakers.manager.breakers
            ≡ some a)
        × IsSettled
            (is_idempotent req.method)
            (env b)
            a
            now
            (select_available_backend st clock req w).0
            (serve_http status_text st clock req env dur now w)
  unfolding serve_http
  fresh-serve status_text st clock req env dur now w b empty named =
      let (a, found, own) = fresh-select st clock req w b empty named in
      let eq : serve_http status_text st clock req env dur now w
          ≡ proxied status_text b a req (env b) dur now
              (select_available_backend st clock req w).0 =
        rw (found, serve_http) refl in
      (
        a,
        eq,
        found,
        own,
        rw eq (
            proxied-IsSettled status_text b a req (env b) dur now
              (select_available_backend st clock req w).0),
      )
