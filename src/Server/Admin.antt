-- ===== src/Server/Admin.antt =====
-- cmd/proxy/net.go, setupAdminRoutes: the handlers that change state, on the proxy's world. The
-- query's `host` is given; the JSON answers are their statuses.
use load_balancer.Base.{
  ℕ, ◌≤◌, ◌≡◌, refl, ap, ◌∙◌, true, false, not, Option, none, some, String, List, [], ◌∷◌, ◌++◌,
  str_eq, if◌then◌else◌, ==_iff,
}
use load_balancer.Balancer.Backend.{Ref, modify, is_alive, set_alive}
use load_balancer.Balancer.Pool.{all_backends, get_backend_by_host}
use load_balancer.Breaker.Types.{closed, open_state, add_time}
use load_balancer.Breaker.{
  Breaker, Change, allow, get_state, trip_manually, reset_manually, circuit_open, Error,
}
use load_balancer.Breaker.Manager.{
  Breakers, write, get_breaker, get_breaker_found, get_breaker-lookup,
}
use load_balancer.Breaker.Open.{trip_refuses}
use load_balancer.Metrics.{
  circuit_state, circuit_trip, set_circuit_breaker_state, record_circuit_breaker_trip,
  set_backend_health,
}
use load_balancer.Server.{World, on_state_change, host_of, ask, to_metrics}

-- State, with the calls of OnStateChange that it makes.
unfoldable pub ask_state : ℕ → Breaker → Breaker × List Change
ask_state now cb = let (cb', s, told) = get_state now cb in (cb', told)

trip-told :
    (now : ℕ) (cb : Breaker)
    → cb.state ≡ closed
    → cb.config.on_state_change ≡ true
    → (trip_manually now cb).1 ≡ record { name = cb.name; from = cb.state; to = open_state } ∷ []
unfolding trip_manually
trip-told now cb shut set = rw (shut, set)

four_appends :
    {A : Type 0} (xs : List A) (a b c d : A)
    → (((xs ++ a ∷ []) ++ b ∷ []) ++ c ∷ []) ++ d ∷ [] ≡ xs ++ a ∷ b ∷ c ∷ d ∷ []
four_appends [] a b c d = refl
four_appends (x ∷ xs) a b c d = ap (◌∷◌ x) (four_appends xs a b c d)

module _ {S : Type 0} where
  -- GetBreaker for a host, then a method of the breaker, with the OnStateChange of the proxy.
  unfoldable pub on_breaker : (Breaker → Breaker × List Change) → String → World S → World S
  on_breaker f host w =
      let (b, a) = get_breaker host w.breakers in
      let (cb, told) = f (b.arena.cell a) in
      record w {
        breakers = record b { arena = write a cb b.arena };
        metrics = on_state_change told w.metrics;
      }

  -- /api/chaos/trip: the world after it, and the status.
  unfoldable pub chaos_trip : String → ℕ → World S → World S × ℕ
  unfolding on_breaker
  chaos_trip host now w =
      let w' = on_breaker (trip_manually now) host w in
      let tripped =
        to_metrics (λ c. record_circuit_breaker_trip host (set_circuit_breaker_state host 2 c))
          w' in
      if str_eq host "" then (w, 400) else (tripped, 200)

  -- /api/chaos/reset.
  unfoldable pub chaos_reset : String → ℕ → World S → World S × ℕ
  unfolding on_breaker
  chaos_reset host now w =
      let w' = on_breaker (reset_manually now) host w in
      if str_eq host "" then (w, 400) else (to_metrics (set_circuit_breaker_state host 0) w', 200)

  abbrev pub toggle : Option Ref → World S → World S × ℕ
  toggle none w = (w, 404)
  toggle (some r) w =
      let alive = not (is_alive (w.heap r)) in
      let h = modify (set_alive alive) r w.heap in
      (record w { heap = h; metrics = set_backend_health (h r).url.host alive w.metrics }, 200)

  -- /api/chaos/backend.
  unfoldable pub chaos_backend : String → World S → World S × ℕ
  unfolding set_alive get_backend_by_host
  chaos_backend host w = toggle (get_backend_by_host w.heap w.pool host) w

  -- What /api/backends does to the breakers: State moves an open one whose timeout has run out on.
  unfoldable pub show_states : ℕ → List Ref → World S → World S
  unfolding on_breaker ask_state
  show_states now [] w = w
  show_states now (r ∷ rs) w = show_states now rs (on_breaker (ask_state now) (host_of w r) w)

  unfoldable pub api_backends : ℕ → World S → World S
  unfolding show_states
  api_backends now w = show_states now (all_backends w.pool) w

  -- The breaker of a host, made where there is none.
  abbrev pub breaker_of : String → World S → Breaker
  breaker_of host w = (get_breaker host w.breakers).0.arena.cell (get_breaker host w.breakers).1

  on_breaker-breaker_of :
      (f : Breaker → Breaker × List Change) (host : String) (w : World S)
      → breaker_of host (on_breaker f host w) ≡ (f (breaker_of host w)).0
  unfolding on_breaker write
  on_breaker-breaker_of f host w =
      let a = (get_breaker host w.breakers).1 in
      let here = get_breaker-lookup host w.breakers in
      let same = get_breaker_found host a (on_breaker f host w).breakers here in
      ap (λ (x : Breakers × ℕ). x.0.arena.cell x.1) same ∙ rw ((==_iff a a).1 refl)

  refusal-ask :
      (host : String) (now : ℕ) (w : World S) (e : Error)
      → (allow now (breaker_of host w)).1 ≡ some e
      → (ask host now w).1 ≡ none
  unfolding ask
  refusal-ask host now w e refused = rw (refused, ask)

  chaos_trip-breaker_of :
      (host : String) (now : ℕ) (w : World S)
      → str_eq host "" ≡ false
      → breaker_of host (chaos_trip host now w).0 ≡ (trip_manually now (breaker_of host w)).0
  unfolding chaos_trip
  chaos_trip-breaker_of host now w named =
      rw named (on_breaker-breaker_of (trip_manually now) host w)

  -- After a manual trip of a host, with a non-empty name, a request directed to it within the
  -- timeout of its breaker is refused.
  pub tripped_refuses :
      (host : String) (now later : ℕ) (w : World S)
      → str_eq host "" ≡ false
      → later ≤ add_time now (breaker_of host w).config.timeout
      → (ask host later (chaos_trip host now w).0).1 ≡ none
  tripped_refuses host now later w named early =
      refusal-ask host later (chaos_trip host now w).0 circuit_open (
        ap (λ cb. (allow later cb).1) (chaos_trip-breaker_of host now w named)
        ∙ trip_refuses now later (breaker_of host w) early)

  -- A manual trip of a host, with a non-empty name, whose breaker is closed, has the callback set
  -- and bears the name of the host, sends the open state and the trip to the metrics twice.
  pub trip_counted_twice :
      (host : String) (now : ℕ) (w : World S)
      → str_eq host "" ≡ false
      → (breaker_of host w).state ≡ closed
      → (breaker_of host w).config.on_state_change ≡ true
      → (breaker_of host w).name ≡ host
      → (chaos_trip host now w).0.metrics.sent
        ≡ w.metrics.sent
          ++ (circuit_state host 2
              ∷ circuit_trip host
              ∷ circuit_state host 2
              ∷ circuit_trip host
              ∷ [])
  unfolding chaos_trip on_breaker on_state_change record_circuit_breaker_trip
      set_circuit_breaker_state
  trip_counted_twice host now w named shut set name =
      rw (named, trip-told now (breaker_of host w) shut set, name)
        (four_appends w.metrics.sent (circuit_state host 2) (circuit_trip host)
          (circuit_state host 2) (circuit_trip host))
