-- ===== src/Server/FastAdmin.antt =====
-- cmd/proxy/fasthttp.go: its own admin routes, which lack the test for an empty host and the route
-- that switches a backend, on the world of the fasthttp proxy.
use load_balancer.Base.{
  ℕ, ◌≡◌, refl, ◌≢◌, inl, inr, some, ==_iff, String, str_eq, str_eq_iff, Bool-cases,
}
use load_balancer.Base.Dict.{lookup}
use load_balancer.Balancer.Pool.{all_backends}
use load_balancer.Breaker.Types.{open_state}
use load_balancer.Breaker.{trip_manually, reset_manually}
use load_balancer.Breaker.Manager.{write, get_breaker, get_breaker-lookup}
use load_balancer.Metrics.{set_circuit_breaker_state, record_circuit_breaker_trip}
use load_balancer.Server.{World, to_metrics}
use load_balancer.Server.Admin.{on_breaker, chaos_trip, chaos_reset, show_states, api_backends}

module _ {S : Type 0} where
  -- /api/chaos/trip; the status is always 200.
  unfoldable pub fast_chaos_trip : String → ℕ → World S → World S
  fast_chaos_trip host now w =
      let w' = on_breaker (trip_manually now) host w in
      to_metrics (λ c. record_circuit_breaker_trip host (set_circuit_breaker_state host 2 c)) w'

  -- /api/chaos/reset.
  unfoldable pub fast_chaos_reset : String → ℕ → World S → World S
  fast_chaos_reset host now w =
      to_metrics (set_circuit_breaker_state host 0) (on_breaker (reset_manually now) host w)

  -- /api/backends, as far as it changes the breakers.
  unfoldable pub fast_api_backends : ℕ → World S → World S
  fast_api_backends now w = show_states now (all_backends w.pool) w

  -- For a host with a name, the admin routes of the two servers do the same to the world.
  pub admin_routes_agree :
      (host : String) (now : ℕ) (w : World S)
      → host ≢ ""
      → (chaos_trip host now w ≡ (fast_chaos_trip host now w, 200))
        × (chaos_reset host now w ≡ (fast_chaos_reset host now w, 200))
        × (api_backends now w ≡ fast_api_backends now w)
  unfolding chaos_trip chaos_reset api_backends fast_chaos_trip fast_chaos_reset fast_api_backends
  admin_routes_agree host now w named = elim (Bool-cases (str_eq host "")) [
    | inl blank ↦ absurd (named ((str_eq_iff host "").0 blank))
    | inr e ↦ (rw e refl, rw e refl, refl)
  ]

  -- A request for the trip of a host without a name changes nothing behind net.go, which answers
  -- 400; behind fasthttp.go it leaves a breaker under the empty name, and that is open.
  pub blank_host_trips :
      (now : ℕ) (w : World S)
      → (chaos_trip "" now w ≡ (w, 400))
        × ((a : ℕ) × (lookup "" (fast_chaos_trip "" now w).breakers.manager.breakers ≡ some a)
            × (((fast_chaos_trip "" now w).breakers.arena.cell a).state ≡ open_state))
  unfolding chaos_trip fast_chaos_trip on_breaker trip_manually write
  blank_host_trips now w =
      let a = (get_breaker "" w.breakers).1 in
      (refl, (a, get_breaker-lookup "" w.breakers, rw ((==_iff a a).1 refl) refl))
