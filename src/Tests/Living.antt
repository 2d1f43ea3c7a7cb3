-- ===== src/Tests/Living.antt =====
-- A life of the proxy, and the aggregate of connections.
use load_balancer.Base.{
  ◌++◌, ℕ, ◌≢◌, String, str_eq_iff, if◌then◌else◌, ◌==◌, some, ◌<◌, ◌≡◌, refl, none, List, [], ◌∷◌,
  ◌*◌, ◌+◌, ◌-◌, ◌%◌, arith, u64_mod,
}
use load_balancer.Balancer.Backend.{Ref}
use load_balancer.Balancer.Strategy.{round_robin}
use load_balancer.Errors.{GoError, plain}
use load_balancer.Server.FastProxy.{refused}
use load_balancer.Retry.{ok, Env}
use load_balancer.Server.{Request, World}
use load_balancer.Server.Aggregate.{outside, Gauge, Reach}
use load_balancer.Server.Aggregate.Drift.{drifts}
use load_balancer.Server.Session.{
  Event, request, round, trip, reset, switch, show, fast_request, fast_trip, fast_reset, fast_show,
  happen, live,
}
use load_balancer.Server.Session.Lasting.{live-alive}
use load_balancer.Server.Transport.{Response}
use load_balancer.Server.Trips.{Step, begins, take_steps, net_trip, fast_trip as fast_steps}
use load_balancer.Server.Trips.Balance.{
  Shuffle, both_done, from_left, from_right, Schedule, idle as none_begun, net_joins, fast_joins,
  trips_balance,
}
use load_balancer.Balancer.Backend.{Heap, new_backend}
use load_balancer.Balancer.Pool.{new_pool, add_backend, all_backends}
use load_balancer.Metrics.{new_collector}
use load_balancer.Entry.Startup.{Running, start, add_backends, choose_strategy, robin}
use load_balancer.Entry.FirstRequest.{first_world}
use load_balancer.Entry.Lifetime.{AreEntries, life_keeps_entries, after, life_keeps_breakers}
use load_balancer.Balancer.RoundRobin.{RoundRobin}
use load_balancer.Base.Dict.{lookup, insert}
use load_balancer.Breaker.Manager.{get_breaker, new_manager}
use load_balancer.Server.Admin.{on_breaker}
use load_balancer.Server.FastAdmin.{fast_chaos_trip, fast_chaos_reset}
use load_balancer.Tests.Fixtures.{three, good, parse_url, no_file}
use load_balancer.Tests.Wiring.{arena, good-IsValid}
use load_balancer.Tests.Serving.{world, none_yet, clock, get, fast_get, text, answers, probes}

-- A backend that answers 500.
abbrev broken : Env Response GoError
broken = record { call = λ i. ok (record { status = 500; content_length = 0 }); done = λ i. none }

abbrev post : Request
post = record get { method = "POST" }

abbrev busy_day : List Event
busy_day =
    request get clock (λ b. answers) 1 60
    ∷ request post clock (λ b. broken) 1 61
    ∷ trip "a:1" 62
    ∷ show 63
    ∷ request post clock (λ b. broken) 1 64
    ∷ reset "a:1" 65
    ∷ fast_request fast_get clock (refused (plain "connection refused")) 1 66
    ∷ fast_trip "c:1" 67
    ∷ fast_show 68
    ∷ fast_reset "c:1" 69
    ∷ []

abbrev whole_day : List Event
whole_day = round probes (1 ∷ 0 ∷ []) ∷ switch "c:1" ∷ busy_day

few : (r : Ref) → (three r).connections < u64_mod
few r = ground arith

live-alive_example :
    ((live text round_robin busy_day (world none_yet)).heap 0).alive
    ≡ ((world none_yet).heap 0).alive
live-alive_example = live-alive text round_robin busy_day (world none_yet) 0 few refl

abbrev own_heap : Heap
own_heap r =
    if r == 0
    then record (three 0) {
      url = record { scheme = "http"; host = "a:1"; text = "http://a:1" };
      weight = 1;
      connections = 0;
    }
    else three r

abbrev started_run : Running
started_run = record {
  heap = own_heap;
  pool = record { backends = 0 ∷ [] };
  strategy = robin (record { next = 0 });
}

comes_up : start parse_url three good ≡ some started_run
unfolding start add_backends new_backend new_pool add_backend choose_strategy
comes_up = refl

few_run : (r : Ref) → (own_heap r).connections < u64_mod
few_run r = ground arith

life_keeps_entries_example :
    let w = live text round_robin whole_day (first_world started_run arena new_collector) in
    AreEntries parse_url w.heap (all_backends w.pool) good.backends
life_keeps_entries_example =
    life_keeps_entries parse_url no_file three good started_run arena new_collector text whole_day
      good-IsValid comes_up few_run

abbrev host_a : String
host_a = "a:1"

abbrev host_c : String
host_c = "c:1"

abbrev first_cell : ℕ
first_cell = 0

abbrev second_cell : ℕ
second_cell = 1

a_not_c : host_a ≢ host_c
a_not_c e = let clash = (str_eq_iff "a:1" "c:1").1 e in cc

abbrev two_trips : List Event
two_trips = fast_trip "a:1" 1 ∷ fast_trip "c:1" 2 ∷ fast_reset "a:1" 3 ∷ []

abbrev tripped_world : World RoundRobin
tripped_world = after started_run arena new_collector text two_trips

breaker_a : lookup "a:1" tripped_world.breakers.manager.breakers ≡ some 0
unfolding lookup live happen fast_chaos_trip fast_chaos_reset on_breaker get_breaker first_world
    new_manager insert
breaker_a = refl

breaker_c : lookup "c:1" tripped_world.breakers.manager.breakers ≡ some 1
unfolding lookup live happen fast_chaos_trip fast_chaos_reset on_breaker get_breaker first_world
    new_manager insert
breaker_c = refl

life_keeps_breakers_example :
    (first_cell ≢ second_cell)
    × ((tripped_world.breakers.arena.cell 0).name ≡ "a:1")
    × ((tripped_world.breakers.arena.cell 1).name ≡ "c:1")
life_keeps_breakers_example =
    life_keeps_breakers started_run arena new_collector text two_trips host_a host_c first_cell
      second_cell a_not_c breaker_a breaker_c

abbrev idle : Gauge
idle = record { value = 0; phase = λ t. outside }

drifts_example :
    (e : Gauge) × Reach idle e
    × (e.phase 0 ≡ outside)
    × (e.phase 1 ≡ outside)
    × (e.value ≡ (0 + 3 * (u64_mod - 1)) % u64_mod)
drifts_example = drifts 3 idle 0 1 (omega arith) (omega arith) refl refl

all_left : (xs : List Step) → Shuffle xs [] xs
all_left [] = both_done
all_left (x ∷ xs) = from_left x xs [] xs (all_left xs)

-- A request that fails, from whose beginning to whose end the fast proxy serves another one.
abbrev failing : List Step
failing = net_trip text "a:1" 0 0 post broken 1 60

abbrev quick : List Step
quick = fast_steps 0 0 fast_get 1 60 (refused (plain "connection refused"))

abbrev after_first : List Step → List Step
after_first [] = []
after_first (x ∷ xs) = xs

abbrev overlapping : List Step
overlapping = begins 0 ∷ quick ++ after_first failing

first_begins : failing ≡ begins 0 ∷ after_first failing
unfolding net_trip
first_begins = refl

then_left : (ys xs : List Step) → Shuffle xs ys (ys ++ xs)
then_left [] xs = all_left xs
then_left (y ∷ ys) xs = from_right y xs ys (ys ++ xs) (then_left ys xs)

overlapping-Schedule : Schedule text overlapping
overlapping-Schedule =
    let fast : Schedule text quick =
      fast_joins 0 0 fast_get 1 60 (refused (plain "connection refused")) [] quick none_begun
        (all_left quick) in
    let mixed : Shuffle failing quick overlapping = rw first_begins (
      from_left (begins 0) (after_first failing) quick (quick ++ after_first failing)
        (then_left quick (after_first failing))) in
    net_joins "a:1" 0 0 post broken 1 60 quick overlapping fast mixed

trips_balance_example : ((take_steps text overlapping (world none_yet)).heap 0).connections ≡ 2
trips_balance_example =
    trips_balance text overlapping 0 (world none_yet) overlapping-Schedule (omega arith)
