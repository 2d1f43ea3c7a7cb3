-- ===== src/Tests/Ending.antt =====
-- The life of the process: from the file to the servers, the durations, the rounds of the checker,
-- and the shutdown.
use load_balancer.Base.{
  ℕ, ◌<◌, ◌*◌, ◌+◌, ◌≡◌, refl, ◌↔◌, ◌⊎◌, inl, inr, Bool, true, false, Option, none, some, String,
  [], ◌∷◌, arith, is_nonpos, if◌then◌else◌, Bool-cases,
}
use load_balancer.Balancer.Pool.{all_backends}
use load_balancer.Config.{Config}
use load_balancer.Config.Valid.{IsValid}
use load_balancer.Config.Manager.{Manager}
use load_balancer.Metrics.{new_collector}
use load_balancer.Health.{answered, call_failed}
use load_balancer.Health.Loop.{
  Run, nothing_yet, launch, begin, land, Reach as LoopReach, stays as loop_stays,
  then_step as loop_step, ticks, lands,
}
use load_balancer.Health.Loop.Overlap.{ended, occurs, start_keeps}
use load_balancer.Entry.Startup.{Running}
use load_balancer.Entry.Main.{run_main, run_main_iff}
use load_balancer.Entry.Settings.{checker_of}
use load_balancer.Entry.Settings.Durations.{max_seconds, long_interval_panics_iff}
use load_balancer.Entry.Shutdown.{
  End, server_closed, failed, Server, IsDocumented, serving, exited, waiting, stopping, Process,
  receive, leave, receives, leaves, Reach, stays, then_step, fast_count, net_count,
}
use load_balancer.Entry.Shutdown.Ends.{leaves_undrained}
use load_balancer.Tls
use load_balancer.Tests.Fixtures.{good, parse_url, no_file, three, pool}
use load_balancer.Tests.Wiring.{good-IsValid}

-- A file is its configuration.
abbrev as_it_is : Config → Option Config
as_it_is c = some c

run_main_iff_example :
    ((m : Manager) × (run : Running) × (run_main as_it_is parse_url no_file three (some good)
        ≡ some (m, run))
      × (m.config ≡ good))
    ↔ ((f : Config) × (some good ≡ some f)
        × (as_it_is f ≡ some good)
        × IsValid parse_url no_file good)
run_main_iff_example = run_main_iff as_it_is parse_url no_file three (some good) good

abbrev new_ticker : ℕ → Option ℕ
new_ticker d = if is_nonpos d then none else some d

new_ticker-panics_iff : (d : ℕ) → (new_ticker d ≡ none) ↔ (is_nonpos d ≡ true)
new_ticker-panics_iff d = elim (Bool-cases (is_nonpos d)) [
  | inl e ↦ rw e (λ h. refl, λ h. refl)
  | inr e ↦ rw e (λ h. cc, λ h. cc)
]

long_interval_panics_iff_example :
    (begin new_ticker (checker_of good.health).interval pool (three, new_collector) ≡ none)
    ↔ (max_seconds < 10)
long_interval_panics_iff_example =
    long_interval_panics_iff new_ticker new_ticker-panics_iff parse_url no_file good pool
      (three, new_collector) good-IsValid (omega arith)

abbrev no_settings : Tls.Config → String ⊎ ℕ
no_settings c = inl "no such file"

-- Two rounds; the probe of 1 that ends last was answered.
abbrev first_round : Run
first_round = launch pool (nothing_yet (three, new_collector))

abbrev second_round : Run
second_round = launch pool first_round

abbrev landed_once : Run
landed_once = land 1 call_failed 3 (0 ∷ 2 ∷ 0 ∷ 1 ∷ 2 ∷ []) second_round

abbrev landed_twice : Run
landed_twice = land 1 (answered 204) 1 (0 ∷ 2 ∷ 0 ∷ 2 ∷ []) landed_once

overlapping_way : LoopReach pool first_round landed_twice
unfolding launch land all_backends
overlapping_way =
    loop_step first_round landed_once landed_twice
      (loop_step first_round second_round landed_once
        (loop_step first_round first_round second_round (loop_stays first_round)
          (ticks first_round refl))
        (lands second_round (0 ∷ []) (2 ∷ 0 ∷ 1 ∷ 2 ∷ []) 1 call_failed 3 refl))
      (lands landed_once (0 ∷ 2 ∷ 0 ∷ []) (2 ∷ []) 1 (answered 204) 1 refl)

start_keeps_example :
    ((landed_twice.world.0 1).alive ≡ true)
    × (ended 1 landed_twice.landed + occurs 1 landed_twice.flying
        ≡ landed_twice.rounds * occurs 1 (all_backends pool))
unfolding launch land begin
start_keeps_example =
    start_keeps new_ticker 10 pool (three, new_collector) first_round landed_twice 1 refl
      overlapping_way

-- A server with so many active requests, which is shut or not.
abbrev ToyEnds : ℕ × Bool → End → Type 0
ToyEnds s server_closed = s.1 ≡ true
ToyEnds s failed = ⊥

abbrev toy : Server
toy = record {
  State = ℕ × Bool;
  Works = λ s t. t.1 ≡ s.1;
  Ends = ToyEnds;
  IsDrained = λ s. s.0 ≡ 0;
  shutdown = λ s. (s.0, true);
  active = λ s. s.0;
  was_shut = λ s. s.1;
}

toy-IsDocumented : IsDocumented toy
toy-IsDocumented = record {
  ends_at_once = λ s. refl;
  ends_closed = λ s e. e;
  works_shut = λ s t w. w;
  keeps_active = λ s. refl;
}

abbrev busy : Process toy
busy = record { main = serving; closer = waiting; servers = λ i. (7, false); cancelled = false }

leaves_undrained_example :
    (q : Process toy) × Reach toy net_count busy q
    × (q.main ≡ exited)
    × (q.closer ≡ stopping 0)
    × ((q.servers 0).0 ≡ 7)
leaves_undrained_example = leaves_undrained toy toy-IsDocumented net_count busy refl refl

left_way : Reach toy fast_count busy (leave toy (receive toy busy))
unfolding receive
left_way =
    then_step busy (receive toy busy) (leave toy (receive toy busy))
      (then_step busy busy (receive toy busy) (stays busy) (receives busy refl refl))
      (leaves (receive toy busy) refl refl)
