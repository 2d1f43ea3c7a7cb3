-- ===== src/Breaker/Window.antt =====
-- The closed state: the window over which failures are counted.
use load_balancer.Base.{
  ℕ, ◌<◌, ◌≡◌, ap, ◌∙◌, Bool, true, false, not, Option, none, some, List, [], ◌∷◌, arith, All,
}
use load_balancer.Breaker.Types.{closed, Counts}
use load_balancer.Breaker.{Breaker}
use load_balancer.Breaker.Open.{request}

-- Requests one after the other, each failing.
unfoldable pub failures : List ℕ → Breaker → Breaker
failures [] cb = cb
failures (now ∷ nows) cb = failures nows (request false now cb)

-- The counts after one request that failed, from zero.
abbrev pub one_failure : Counts
one_failure = record {
  requests = 1;
  total_successes = 0;
  total_failures = 1;
  consecutive_successes = 0;
  consecutive_failures = 1;
}

abbrev pub tolerates : Option (Counts → Bool) → Counts → Bool
tolerates none c = true
tolerates (some f) c = not (f c)

failure_expired :
    (now e : ℕ) (cb : Breaker)
    → cb.state ≡ closed
    → cb.expiry ≡ some e
    → e < now
    → tolerates cb.config.ready_to_trip one_failure ≡ true
    → request false now cb ≡ record cb { counts = one_failure }
unfolding request
failure_expired now e cb s x lt calm = ground (arith, lt)

-- Once the window of a closed breaker has run out, requests that fail one after the other never
-- trip it, however many they are, unless ReadyToTrip trips on one failure alone.
pub expired_never_trips :
    (nows : List ℕ) (e : ℕ) (cb : Breaker)
    → cb.state ≡ closed
    → cb.expiry ≡ some e
    → All (λ now. e < now) nows
    → tolerates cb.config.ready_to_trip one_failure ≡ true
    → (failures nows cb).state ≡ closed
unfolding failures
expired_never_trips [] e cb s x late calm = s
expired_never_trips (now ∷ nows) e cb s x late calm =
    ap (λ x. (failures nows x).state) (failure_expired now e cb s x late.0 calm)
    ∙ expired_never_trips nows e (record cb { counts = one_failure }) s x late.1 calm
