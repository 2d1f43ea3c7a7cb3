-- ===== src/Tests/Breaking.antt =====
-- The circuit breaker and its manager.
use load_balancer.Base.{
  ℕ, ◌≡◌, refl, ◌≢◌, true, false, Option, none, some, List, [], ◌∷◌, arith, leb, All,
}
use load_balancer.Base.Dict.{lookup}
use load_balancer.Breaker.Types.{
  State, closed, half_open, open_state, zero_counts, Config, default_config,
}
use load_balancer.Breaker.{Breaker, new_breaker, get_state, on_result}
use load_balancer.Breaker.Calls.{Call, allows, asks_state, reports, trips_manually, resets_manually}
use load_balancer.Breaker.Open.{allow_all, request, default_never_recovers}
use load_balancer.Breaker.Window.{failures, expired_never_trips}
use load_balancer.Breaker.Recovery.{successes, recovers, trial_failure}
use load_balancer.Breaker.Manager.{Breakers, IsValid}

-- The Go test's configuration: two requests, 1 s, 50 ms, two consecutive failures.
abbrev test_config : Config
test_config = record {
  max_requests = 2;
  interval = 1000000000;
  timeout = 50000000;
  ready_to_trip = some (λ c. leb 2 c.consecutive_failures);
  on_state_change = true;
}

abbrev at_state : State → ℕ → Option ℕ → Breaker
at_state s requests expiry = record {
  name = "b";
  config = test_config;
  state = s;
  generation = 1;
  counts = record zero_counts { requests = requests };
  expiry = expiry;
}

-- TestCircuitBreakerTransitions, up to the trip.
trips_on_second :
    (request false 2 (request false 1 (new_breaker "b" test_config))).state ≡ open_state
unfolding request new_breaker
trips_on_second = refl

abbrev history : List Call
history =
    trips_manually 5
    ∷ allows 6
    ∷ asks_state 60000000
    ∷ reports true 60000000
    ∷ resets_manually 7
    ∷ []

default_never_recovers_example :
    let cb = request false 3 (request false 2 (request false 1 (new_breaker "b" default_config))) in
    (cb.state ≡ open_state)
    × ((allow_all (99999999999 ∷ []) cb).0 ≡ cb)
    × All (λ e. e ≢ none) (allow_all (99999999999 ∷ []) cb).1
default_never_recovers_example = default_never_recovers "b" 1 2 3 (99999999999 ∷ [])

expired_never_trips_example :
    (failures (7 ∷ 8 ∷ 9 ∷ 10 ∷ []) (at_state closed 0 (some 6))).state ≡ closed
expired_never_trips_example =
    expired_never_trips (7 ∷ 8 ∷ 9 ∷ 10 ∷ []) 6 (at_state closed 0 (some 6)) refl refl (omega arith)
      refl

recovers_example :
    let cb = successes (11 ∷ 12 ∷ []) (get_state 10 (at_state open_state 2 (some 5))).0 in
    (cb.state ≡ closed) × (cb.counts ≡ zero_counts)
recovers_example =
    recovers 10 5 (11 ∷ 12 ∷ []) (at_state open_state 2 (some 5)) refl refl (omega arith)
      (omega arith) (omega arith) refl

trial_failure_example :
    ((on_result false 7 (at_state half_open 0 none)).0.state ≡ open_state)
    × ((on_result false 7 (at_state half_open 0 none)).0.expiry ≡ some 50000007)
trial_failure_example = trial_failure 7 (at_state half_open 0 none) refl

abbrev nobody : Breakers
nobody = record {
  manager = record { breakers = []; config = test_config };
  arena = record { cell = λ _. at_state closed 0 none; next = 0 };
}

nobody-IsValid : IsValid nobody
unfolding lookup
nobody-IsValid = record { allocated = λ n r h. cc; named = λ n r h. cc }
