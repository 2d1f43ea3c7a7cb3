-- ===== src/Retry/Backoff.antt =====
-- calculateBackoff of internal/retry/retry.go. float64, math.Pow and rand.Float64 are not modelled:
-- they are a parameter, with the one fact about the conversions that the bound needs.
use load_balancer.Base.{
  ℕ, ◌-◌, ◌≡◌, inl, inr, Bool, true, false, arith, ◌==◌, if◌then◌else◌, Bool-cases, slt,
}

-- A float64 `F` with the operations that the code uses. Converting a duration to float64 and a
-- float64 to a duration goes back and forth over the order: what does not exceed the float of a
-- duration is not a longer duration (true of IEEE doubles for durations below 2^53 ns, 104 days).
pub record Floats : Type 1 where
  pub F : Type 0
  pub of_duration : ℕ → F
  pub of_int : ℕ → F
  pub mul : F → F → F
  pub add : F → F → F
  pub pow : F → F → F
  pub gt : F → F → Bool
  pub zero_float : F
  pub to_duration : F → ℕ
  pub exact : ℕ → Type 0
  pub capped :
      (x : F) (d : ℕ) → exact d → gt x (of_duration d) ≡ false → slt d (to_duration x) ≡ false

-- The fields of Config that calculateBackoff reads.
pub record Intervals (fl : Floats) : Type 0 where
  pub initial_interval : ℕ  -- int64
  pub max_interval : ℕ  -- int64
  pub multiplier : fl.F
  pub jitter : fl.F

module _ (fl : Floats) (random : fl.F) (config : Intervals fl) where
  open fl use {F, of_duration, of_int, mul, add, pow, gt, zero_float, to_duration, exact, capped}

  -- `random` is `rand.Float64()*2 - 1`, the draw of this call.
  raw_backoff : ℕ → F
  raw_backoff attempt =
      let backoff =
        mul (of_duration config.initial_interval) (pow config.multiplier (of_int (attempt - 1))) in
      if gt config.jitter zero_float
      then add backoff (mul random (mul backoff config.jitter))
      else backoff

  unfoldable pub calculate_backoff : ℕ → ℕ
  unfolding raw_backoff
  calculate_backoff attempt =
      let backoff = raw_backoff attempt in
      let top = of_duration config.max_interval in
      if attempt == 0 then 0 else to_duration (if gt backoff top then top else backoff)

  -- The wait before a retry is never longer than MaxInterval, whatever the attempt, the multiplier
  -- and the jitter drawn.
  pub backoff_capped :
      (attempt : ℕ)
      → exact config.max_interval
      → gt (of_duration config.max_interval) (of_duration config.max_interval) ≡ false
      → slt 0 config.max_interval ≡ true
      → slt config.max_interval (calculate_backoff attempt) ≡ false
  unfolding calculate_backoff
  backoff_capped attempt ex irr pos = elim (Bool-cases (attempt == 0)) [
    | inl z ↦ rw z (ground arith)
    | inr z ↦ elim (Bool-cases (gt (raw_backoff attempt) (of_duration config.max_interval))) [
      | inl over ↦ rw (z, over) (capped _ config.max_interval ex irr)
      | inr under ↦ rw (z, under) (capped _ config.max_interval ex under)
    ]
  ]
