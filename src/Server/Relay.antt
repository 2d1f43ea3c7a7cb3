-- ===== src/Server/Relay.antt =====
-- What the fast proxy does with a request that is let through.
use load_balancer.Base.{
  ℕ, ◌<◌, ◌≡◌, inl, inr, Bool, true, false, String, arith, ltb, leb, Bool-cases, u64_mod,
}
use load_balancer.Balancer.Backend.{
  Ref, increment_conn, decrement_conn, record_failure, record_success,
}
use load_balancer.Breaker.{on_result}
use load_balancer.Server.{World, report}
use load_balancer.Server.Transport.{end_trip}
use load_balancer.Server.Outcome.{breaker_at, report_lem}
use load_balancer.Server.FastProxy.{
  FastRequest, Answer, refused, answered, begin_relay, refusal, outcome, relay,
}

-- A status below 500, and no error.
abbrev pub is_served : Answer → Bool
is_served (refused e) = false
is_served (answered status size) = ltb status 500

module _ {S : Type 0} (status_text : ℕ → String) where
  pub outcome-report :
      (be : Ref) (a : ℕ) (req : FastRequest) (dur now : ℕ) (answer : Answer) (w : World S)
      → breaker_at (outcome status_text be a req dur now answer w).0 a
        ≡ (on_result (is_served answer) now (breaker_at w a)).0
  unfolding outcome refusal
  outcome-report be a req dur now (refused e) w = report_lem a false now w
  outcome-report be a req dur now (answered status size) w = elim (Bool-cases (leb 500 status)) [
    | inl t ↦
        let down : ltb status 500 ≡ false = ground (arith, t) in
        rw (t, down) (report_lem a false now w)
    | inr t ↦
        let up : ltb status 500 ≡ true = ground (arith, t) in rw (t, up) (report_lem a true now w)
  ]

  outcome-connections :
      (be : Ref) (a : ℕ) (req : FastRequest) (dur now : ℕ) (answer : Answer) (w : World S) (r : Ref)
      → ((outcome status_text be a req dur now answer w).0.heap r).connections
        ≡ (w.heap r).connections
  unfolding outcome refusal report record_failure record_success
  outcome-connections be a req dur now (refused e) w r = ground arith
  outcome-connections be a req dur now (answered status size) w r = ground arith

  -- A request that the fast proxy lets through reports one result to its breaker, a success
  -- exactly if the backend answered with a status below 500, and leaves every connection count
  -- that is below 2^64 as it was.
  pub relay_settles :
      (be : Ref) (a : ℕ) (req : FastRequest) (dur now : ℕ) (answer : Answer) (w : World S) (r : Ref)
      → (w.heap r).connections < u64_mod
      → let w' = (relay status_text be a req dur now answer w).0 in
        (breaker_at w' a ≡ (on_result (is_served answer) now (breaker_at w a)).0)
        × ((w'.heap r).connections ≡ (w.heap r).connections)
  unfolding relay begin_relay end_trip
  relay_settles be a req dur now answer w r fits = (
    outcome-report be a req dur now answer (begin_relay be w),
    unfold increment_conn decrement_conn in
        ground (arith, outcome-connections be a req dur now answer (begin_relay be w) r, fits),
  )
