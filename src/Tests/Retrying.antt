-- ===== src/Tests/Retrying.antt =====
-- The retry loop and the backoff.
use load_balancer.Base.{
  ℕ, zero, suc, ◌+◌, ◌*◌, ◌%◌, ◌^◌, ◌<◌, ◌≡◌, refl, true, false, not, none, some, [], ◌∷◌, arith,
  ltb, ◌==◌, if◌then◌else◌, u64_mod, slt,
}
use load_balancer.Retry.{ok, fail, Env, Config, retry_with_data}
use load_balancer.Retry.Runs.{FailsAt, succeeds}
use load_balancer.Retry.Backoff.{Floats, Intervals, calculate_backoff, backoff_capped}

-- Two failures, then the data 7; errors are numbers, and 99 may not be retried.
abbrev flaky : Env ℕ ℕ
flaky = record { call = λ i. if ltb i 2 then fail i else ok 7; done = λ i. none }

abbrev config : Config ℕ
config = record { max_retries = 3; retryable = λ e. not (e == 99); tells = true }

flaky_run :
    retry_with_data 0 flaky config
    ≡ record { result = 7; error = none; calls = 3; told = (1, some 0) ∷ (2, some 1) ∷ [] }
unfolding retry_with_data
flaky_run = refl

flaky-FailsAt : (i : ℕ) → i < 2 → FailsAt 0 flaky config i
flaky-FailsAt zero h = (0, refl, refl)
flaky-FailsAt (suc zero) h = (1, refl, refl)
flaky-FailsAt (suc (suc i)) h = absurd (omega arith)

succeeds_example :
    let o = retry_with_data 0 flaky config in (o.error ≡ none) × (o.result ≡ 7) × (o.calls ≡ 3)
succeeds_example = succeeds 0 flaky config 2 7 refl (omega arith) refl flaky-FailsAt (λ i h. refl)

-- Whole nanoseconds in place of floats.
abbrev whole : Floats
whole = record {
  F = ℕ;
  of_duration = λ d. d;
  of_int = λ n. n;
  mul = λ a b. a * b % u64_mod;
  add = λ a b. (a + b) % u64_mod;
  pow = λ a n. a ^ n % u64_mod;
  gt = λ a b. slt b a;
  zero_float = 0;
  to_duration = λ x. x;
  exact = λ d. d < u64_mod;
  capped = λ x d e h. h;
}

abbrev intervals : Intervals whole
intervals = record { initial_interval = 100; max_interval = 1000; multiplier = 2; jitter = 0 }

backoff_capped_example : slt 1000 (calculate_backoff whole 0 intervals 9) ≡ false
backoff_capped_example = backoff_capped whole 0 intervals 9 (omega arith) refl refl
