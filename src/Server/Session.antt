-- ===== src/Server/Session.antt =====
-- What a proxy of internal/server goes through in one life: requests, rounds of the checker of
-- internal/health, and the admin routes of cmd/proxy, one after the other. The program runs
-- either proxy.go and net.go, or fastproxy.go and fasthttp.go; here their events may be mixed.
pub mod Kept
pub mod Served
pub mod FastServed
pub mod Named
pub mod WellFormed
pub mod Lasting
use load_balancer.Base.{ℕ, Bool, true, false, String, List, [], ◌∷◌, if◌then◌else◌}
use load_balancer.Balancer.Backend.{Ref}
use load_balancer.Balancer.Strategy.{Strategy}
use load_balancer.Errors.{GoError}
use load_balancer.Health.{Outcome}
use load_balancer.Retry.{Env}
use load_balancer.Server.{Request, World}
use load_balancer.Server.Admin.{chaos_trip, chaos_reset, chaos_backend, api_backends}
use load_balancer.Server.FastAdmin.{fast_chaos_trip, fast_chaos_reset, fast_api_backends}
use load_balancer.Server.FastProxy.{FastRequest, Answer, handler}
use load_balancer.Server.Probed.{probed}
use load_balancer.Server.Proxy.{serve_http}
use load_balancer.Server.Transport.{Response}

pub data Event : Type 0 where
  -- A request, with the times read, what each backend answers, and how long it takes.
  request : Request → (ℕ → ℕ) → (Ref → Env Response GoError) → ℕ → ℕ → Event
  round : (Ref → Outcome × ℕ) → List Ref → Event
  trip reset : String → ℕ → Event
  switch : String → Event
  show : ℕ → Event
  -- The same behind fasthttp.
  fast_request : FastRequest → (ℕ → ℕ) → Answer → ℕ → ℕ → Event
  fast_trip fast_reset : String → ℕ → Event
  fast_show : ℕ → Event

-- The events that may change the health of a backend.
abbrev pub sets_health : Event → Bool
sets_health (round probes rs) = true
sets_health (switch host) = true
sets_health (request req clock env dur now) = false
sets_health (trip host now) = false
sets_health (reset host now) = false
sets_health (show now) = false
sets_health (fast_request req clock answer dur now) = false
sets_health (fast_trip host now) = false
sets_health (fast_reset host now) = false
sets_health (fast_show now) = false

abbrev pub any_sets_health : List Event → Bool
any_sets_health [] = false
any_sets_health (e ∷ es) = if sets_health e then true else any_sets_health es

module _ {S : Type 0} (status_text : ℕ → String) (st : Strategy S) where
  unfoldable pub happen : Event → World S → World S
  unfolding serve_http probed chaos_trip chaos_reset chaos_backend api_backends handler
      fast_chaos_trip fast_chaos_reset fast_api_backends
  happen (request req clock env dur now) w = (serve_http status_text st clock req env dur now w).0
  happen (round probes rs) w = probed probes rs w
  happen (trip host now) w = (chaos_trip host now w).0
  happen (reset host now) w = (chaos_reset host now w).0
  happen (switch host) w = (chaos_backend host w).0
  happen (show now) w = api_backends now w
  happen (fast_request req clock answer dur now) w =
      (handler status_text st clock req answer dur now w).0
  happen (fast_trip host now) w = fast_chaos_trip host now w
  happen (fast_reset host now) w = fast_chaos_reset host now w
  happen (fast_show now) w = fast_api_backends now w

  unfoldable pub live : List Event → World S → World S
  unfolding happen
  live [] w = w
  live (e ∷ es) w = live es (happen e w)
