-- ===== src/Tests/Serving.antt =====
-- The proxies, over the pool of three with the round robin.
use load_balancer.Base.{
  ℕ, ◌+◌, ◌≡◌, refl, ◌⊎◌, inl, inr, true, none, some, String, [], ◌∷◌, ◌==◌, if◌then◌else◌, In,
}
use load_balancer.Balancer.Backend.{Ref, record_success, set_alive, record_failure}
use load_balancer.Balancer.Pool.{healthy_backends}
use load_balancer.Health.{Outcome, answered as probe_answered, check_all, probe, check_alive, mark}
use load_balancer.Server.Probed.{probed}
use load_balancer.Balancer.RoundRobin.{RoundRobin}
use load_balancer.Balancer.RoundRobin
use load_balancer.Balancer.Strategy.{round_robin, round_robin-IsSound, select_for}
use load_balancer.Breaker.{Breaker, new_breaker, allow}
use load_balancer.Breaker.Types.{open_state, zero_counts}
use load_balancer.Breaker.Manager.{Breakers, get_breaker}
use load_balancer.Base.Dict.{lookup}
use load_balancer.Errors.{GoError}
use load_balancer.Metrics.{new_collector}
use load_balancer.Retry.{ok, Env}
use load_balancer.Server.{Request, World, proxy_config}
use load_balancer.Server.Selection.{choose, select_available_backend}
use load_balancer.Server.Availability.{Refuses, selected-healthy, unavailable}
use load_balancer.Server.Transport.{Response}
use load_balancer.Server.Proxy.{proxied}
use load_balancer.Server.Outcome.{IsSettled, proxied-IsSettled}
use load_balancer.Server.FastProxy.{FastRequest}
use load_balancer.Tests.Fixtures.{three, pool}

abbrev pub shut : String → Breaker
shut name = record {
  name = name;
  config = proxy_config;
  state = open_state;
  generation = 1;
  counts = zero_counts;
  expiry = some 100;
}

-- Both healthy hosts have an open breaker, at the addresses 0 and 1.
abbrev all_shut : Breakers
all_shut = record {
  manager = record { breakers = ("a:1", 0) ∷ ("c:1", 1) ∷ []; config = proxy_config };
  arena = record { cell = λ a. if a == 0 then shut "a:1" else shut "c:1"; next = 2 };
}

abbrev pub none_yet : Breakers
none_yet = record {
  manager = record { breakers = []; config = proxy_config };
  arena = record { cell = λ a. shut ""; next = 0 };
}

abbrev pub world : Breakers → World RoundRobin
world breakers = record {
  heap = three;
  pool = pool;
  strategy = record { next = 0 };
  breakers = breakers;
  metrics = new_collector;
}

abbrev pub clock : ℕ → ℕ
clock i = 50 + i

abbrev pub get : Request
get = record {
  method = "GET";
  forwarded_for = "";
  remote_addr = "10.0.0.1:4000";
  content_length = 0;
}

abbrev pub text : ℕ → String
text status = if status == 200 then "OK" else ""

picked : (select_available_backend round_robin clock get (world none_yet)).1 ≡ some (0, 0)
unfolding select_available_backend select_for RoundRobin.select healthy_backends allow get_breaker
    lookup new_breaker
picked = refl

selected-healthy_example :
    In 0 (healthy_backends three pool)
    × (lookup "a:1"
          (select_available_backend round_robin clock get
            (world none_yet)).0.breakers.manager.breakers
        ≡ some 0)
selected-healthy_example =
    selected-healthy round_robin clock get (world none_yet) 0 0 round_robin-IsSound picked

abbrev pub probes : Ref → Outcome × ℕ
probes r = if r == 0 then (probe_answered 204, 2) else (probe_answered 503, 1)

picked_probed :
    (select_available_backend round_robin clock get (probed probes (1 ∷ 0 ∷ []) (world none_yet))).1
    ≡ some (0, 0)
unfolding select_available_backend select_for RoundRobin.select healthy_backends allow get_breaker
    lookup new_breaker probed check_all probe check_alive mark record_success set_alive
    record_failure
picked_probed = refl

turned_away : (select_available_backend round_robin clock get (world all_shut)).1 ≡ none
unfolding select_available_backend select_for RoundRobin.select healthy_backends allow get_breaker
    lookup
turned_away = refl

unavailable_example :
    ((choose round_robin "10.0.0.1:4000" (world all_shut)).1 ≡ none)
    ⊎ Refuses clock (world all_shut) "c:1"
unfolding healthy_backends
unavailable_example =
    unavailable round_robin clock get (world all_shut) 2 turned_away (inr (inl refl))

-- A gateway error, then a response.
abbrev pub answers : Env Response GoError
answers = record {
  call = λ i.
      if i == 0
      then ok (record { status = 503; content_length = 0 })
      else ok (record { status = 200; content_length = 5 });
  done = λ i. none;
}

proxied-IsSettled_example :
    IsSettled true answers 0 60
      (world all_shut)
      (proxied text 0 0 get answers 1 60 (world all_shut))
proxied-IsSettled_example = proxied-IsSettled text 0 0 get answers 1 60 (world all_shut)

abbrev pub fast_get : FastRequest
fast_get = record {
  path = "/";
  method = "GET";
  forwarded_for = "";
  remote_ip = "10.0.0.1";
  body_length = 0;
}
