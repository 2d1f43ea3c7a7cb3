-- ===== src/Entry/Settings/Durations.antt =====
-- Which configured seconds the durations of cmd/proxy stand for.
use load_balancer.Base.{
  ℕ, ◌*◌, ◌≤◌, ◌<◌, ◌≡◌, refl, ◌↔◌, Bool, true, false, Option, none, inl, inr, List, [], ◌∷◌, All,
  Option-cases, String, arith, is_nonpos, Bool-cases, ltb, ltb→lt, ltb→ge,
}
use load_balancer.Balancer.Backend.{Url, Heap}
use load_balancer.Balancer.Pool.{Pool}
use load_balancer.Metrics.{Collector}
use load_balancer.Health.Loop.{begin}
use load_balancer.Config.{Config}
use load_balancer.Config.Parts.{IsPositive}
use load_balancer.Config.Valid.{IsValid}
use load_balancer.Entry.Settings.{
  seconds, checker_of, new_checker, NetServer, net_server, fast_servers,
}

-- The most whole seconds that fit into a time.Duration.
abbrev pub max_seconds : ℕ
max_seconds = 9223372036

-- The duration is the number of nanoseconds, and positive.
abbrev pub IsExact : ℕ → ℕ → Type 0
IsExact n d = (d ≡ n * 1000000000) × (is_nonpos d ≡ false)

pub seconds-IsExact_iff : (n : ℕ) → IsPositive n → (IsExact n (seconds n)) ↔ (n ≤ max_seconds)
unfolding seconds
seconds-IsExact_iff n pos = (λ h. ground (arith, h), λ h. ground (arith, h))

seconds-nonpos : (n : ℕ) → max_seconds < n → n ≤ 18446744073 → is_nonpos (seconds n) ≡ true
unfolding seconds
seconds-nonpos n low high = ground arith

-- The durations that the code takes from a configuration, with the configured numbers: those of
-- the http.Server or of the fasthttp.Server, and those of the checker.
abbrev pub durations : Config → List (ℕ × ℕ)
durations c =
    let net : NetServer Unit = net_server c.server in
    let fast = fast_servers c.server in
    let checker = checker_of c.health in
    (c.server.read_timeout, net.read_timeout)
    ∷ (c.server.write_timeout, net.write_timeout)
    ∷ (c.server.idle_timeout, net.idle_timeout)
    ∷ (c.server.read_timeout, fast.read_timeout)
    ∷ (c.server.write_timeout, fast.write_timeout)
    ∷ (c.server.idle_timeout, fast.idle_timeout)
    ∷ (c.health.interval, checker.interval)
    ∷ (c.health.timeout, checker.timeout)
    ∷ (c.health.timeout, checker.client_timeout)
    ∷ []

-- With a valid configuration each of the durations that the servers and the checker get is the
-- configured number of seconds and positive exactly if that number is at most 9223372036.
pub durations-IsExact_iff :
    (parse : String → Option Url) (exists : String → Bool) (c : Config)
    → IsValid parse exists c
    → All (λ (e : ℕ × ℕ). IsExact e.0 e.1 ↔ (e.0 ≤ max_seconds)) (durations c)
unfolding net_server fast_servers checker_of new_checker
durations-IsExact_iff parse exists c valid =
    let read = seconds-IsExact_iff c.server.read_timeout valid.server.read_timeout in
    let write = seconds-IsExact_iff c.server.write_timeout valid.server.write_timeout in
    let idle = seconds-IsExact_iff c.server.idle_timeout valid.server.idle_timeout in
    let interval = seconds-IsExact_iff c.health.interval valid.health.interval in
    let timeout = seconds-IsExact_iff c.health.timeout valid.health.timeout in
    (read, (write, (idle, (read, (write, (idle, (interval, (timeout, (timeout, tt)))))))))

module _ {Ticker : Type 0} (new_ticker : ℕ → Option Ticker)
    (panics_iff : (d : ℕ) → (new_ticker d ≡ none) ↔ (is_nonpos d ≡ true)) where
  -- With a valid configuration whose interval is at most 18446744073 seconds, the goroutine of the
  -- checker panics at its start, and probes nothing, exactly if the interval exceeds 9223372036
  -- seconds.
  pub long_interval_panics_iff :
      (parse : String → Option Url) (exists : String → Bool) (c : Config) (p : Pool)
      (w : Heap × Collector)
      → IsValid parse exists c
      → c.health.interval ≤ 18446744073
      → (begin new_ticker (checker_of c.health).interval p w ≡ none)
        ↔ (max_seconds < c.health.interval)
  unfolding checker_of new_checker begin
  long_interval_panics_iff parse exists c p w valid small =
      let d = seconds c.health.interval in
      (
        λ stopped. elim (Option-cases (new_ticker d)) [
          | inl panics ↦
              let bad = (panics_iff d).0 panics in
              let exact = seconds-IsExact_iff c.health.interval valid.health.interval in
              elim (Bool-cases (ltb max_seconds c.health.interval)) [
                | inl t ↦ ltb→lt max_seconds c.health.interval t
                | inr f ↦
                    let fits = exact.1 (ltb→ge max_seconds c.health.interval f) in
                    let good : is_nonpos d ≡ false = fits.1 in cc
              ]
          | inr (t, ok) ↦ let clash = rw (ok, begin) at stopped in cc
        ],
        λ long. rw ((panics_iff d).1 (seconds-nonpos c.health.interval long small), begin) refl,
      )
