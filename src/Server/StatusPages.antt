-- ===== src/Server/StatusPages.antt =====
-- cmd/proxy/net.go, the pages /api/status and /api/backends: what they hand to the JSON encoder.
use load_balancer.Base.{ℕ, ◌≡◌, refl, ap, Bool, String, List, [], ◌∷◌, map}
use load_balancer.Balancer.Backend.{Backend, Ref, is_alive, active_connections}
use load_balancer.Balancer.Pool.{all_backends}
use load_balancer.Breaker.Types.{state_string}
use load_balancer.Breaker.{get_state}
use load_balancer.Config.{Config}
use load_balancer.Metrics.{Snapshot, get_snapshot}
use load_balancer.Server.{World, host_of}
use load_balancer.Server.Admin.{on_breaker, ask_state, breaker_of, show_states, api_backends}

-- BackendStatusResponse.
pub record BackendStatus : Type 0 where
  pub url : String
  pub host : String
  pub weight : ℕ
  pub alive : Bool
  pub active_connections : ℕ
  pub total_requests : ℕ
  pub failed_requests : ℕ
  pub consecutive_failures : ℕ
  pub circuit_breaker_state : String

unfoldable pub status_of : Backend → String → BackendStatus
unfolding is_alive active_connections
status_of b state = record {
  url = b.url.text;
  host = b.url.host;
  weight = b.weight;
  alive = is_alive b;
  active_connections = active_connections b;
  total_requests = b.total_requests;
  failed_requests = b.failed_requests;
  consecutive_failures = b.consecutive_failures;
  circuit_breaker_state = state;
}

-- A row less the state of the breaker.
abbrev pub row : BackendStatus → BackendStatus
row s = record s { circuit_breaker_state = "" }

-- The page /api/status, less the uptime.
pub record StatusPage : Type 0 where
  pub strategy : String
  pub fasthttp : Bool
  pub snapshot : Snapshot

module _ {S : Type 0} where
  unfoldable pub status_page : Config → World S → StatusPage
  unfolding get_snapshot
  status_page c w = record {
    strategy = c.strategy;
    fasthttp = c.fasthttp;
    snapshot = get_snapshot w.metrics;
  }

  -- The loop over the backends: GetBreaker makes a breaker where there is none, and State may move
  -- one on.
  unfoldable pub statuses : ℕ → List Ref → World S → World S × List BackendStatus
  statuses now [] w = (w, [])
  statuses now (r ∷ rs) w =
      let (cb, state, told) = get_state now (breaker_of (host_of w r) w) in
      let w' = on_breaker (ask_state now) (host_of w r) w in
      let (last, shown) = statuses now rs w' in
      (last, status_of (w'.heap r) (state_string state) ∷ shown)

  unfoldable pub backends_page : ℕ → World S → World S × List BackendStatus
  unfolding statuses
  backends_page now w = statuses now (all_backends w.pool) w

  statuses-show_states :
      (now : ℕ) (rs : List Ref) (w : World S) → (statuses now rs w).0 ≡ show_states now rs w
  unfolding statuses show_states
  statuses-show_states now [] w = refl
  statuses-show_states now (r ∷ rs) w =
      statuses-show_states now rs (on_breaker (ask_state now) (host_of w r) w)

  on_breaker-heap :
      (now : ℕ) (host : String) (w : World S) → (on_breaker (ask_state now) host w).heap ≡ w.heap
  unfolding on_breaker
  on_breaker-heap now host w = refl

  statuses-rows :
      (now : ℕ) (rs : List Ref) (w : World S)
      → map row (statuses now rs w).1 ≡ map (λ r. status_of (w.heap r) "") rs
  unfolding statuses status_of on_breaker
  statuses-rows now [] w = refl
  statuses-rows now (r ∷ rs) w =
      ap (◌∷◌ (status_of (w.heap r) ""))
        (statuses-rows now rs (on_breaker (ask_state now) (host_of w r) w))

  statuses-heap :
      (now : ℕ) (rs : List Ref) (w : World S)
      → ((statuses now rs w).0.heap ≡ w.heap) × ((statuses now rs w).0.strategy ≡ w.strategy)
  unfolding statuses on_breaker
  statuses-heap now [] w = (refl, refl)
  statuses-heap now (r ∷ rs) w = statuses-heap now rs (on_breaker (ask_state now) (host_of w r) w)

  -- The page shows the backends of the pool in order, each with its address, weight, health and
  -- counters, and leaves the backends and the strategy as they are.
  pub backends_page-rows :
      (now : ℕ) (w : World S)
      → (map row (backends_page now w).1 ≡ map (λ r. status_of (w.heap r) "") (all_backends w.pool))
        × ((backends_page now w).0 ≡ api_backends now w)
        × ((backends_page now w).0.heap ≡ w.heap)
        × ((backends_page now w).0.strategy ≡ w.strategy)
  unfolding backends_page api_backends
  backends_page-rows now w =
      let rs = all_backends w.pool in
      let (heap, strategy) = statuses-heap now rs w in
      (statuses-rows now rs w, statuses-show_states now rs w, heap, strategy)
