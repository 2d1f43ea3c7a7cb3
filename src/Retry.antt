-- ===== src/Retry.antt =====
-- internal/retry/retry.go. What the loop meets is given as data: the answer of each call of `fn`,
-- and, before each retry, whether the context was done first (with its error) or the backoff ran
-- out. The durations waited are computed in Backoff; the loop does not look at them.
pub mod Runs
pub mod Failed
pub mod Errors
pub mod Data
pub mod Backoff
use load_balancer.Base.{
  ℕ, zero, suc, ◌+◌, Bool, true, false, not, ◌&&◌, Option, none, some, List, [], ◌∷◌, ◌++◌, ◌==◌,
  if◌then◌else◌, is_neg,
}

-- What a call of `fn` returns: data and a nil error, or an error.
pub data Attempt (T E : Type 0) : Type 0 where
  ok : T → Attempt T E
  fail : E → Attempt T E

-- `call i` is the answer of attempt i; `done i` the error of the context if it ended the wait
-- before attempt i.
pub record Env (T E : Type 0) : Type 0 where
  pub call : ℕ → Attempt T E
  pub done : ℕ → Option E

-- `tells` says whether OnRetry is set.
pub record Config (E : Type 0) : Type 0 where
  pub max_retries : ℕ  -- int
  pub retryable : E → Bool
  pub tells : Bool

-- What is returned (`none` for a nil error), with the number of calls of `fn` and the calls of
-- OnRetry, in order.
pub record Outcome (T E : Type 0) : Type 0 where
  pub result : T
  pub error : Option E
  pub calls : ℕ
  pub told : List (ℕ × Option E)

-- DefaultRetryable, on `error` values: `none` is nil.
unfoldable pub default_retryable {ℓ} : {E : Type ℓ} → Option E → Bool
default_retryable none = false
default_retryable (some e) = true

-- How many rounds `for attempt := 0; attempt <= MaxRetries; attempt++` makes at most.
unfoldable pub rounds : ℕ → ℕ
rounds max_retries = if is_neg max_retries then 0 else max_retries + 1

module _ {T E : Type 0} (zero_value : T) (env : Env T E) (config : Config E) where
  abbrev pub finish : ℕ → List (ℕ × Option E) → T → Option E → Outcome T E
  finish calls told d e = record { result = d; error = e; calls = calls; told = told }

  -- The `select` and the OnRetry call, which only a retry makes.
  abbrev pub waits : ℕ → Option E
  waits attempt = if attempt == 0 then none else env.done attempt

  abbrev pub tell : ℕ → Option E → List (ℕ × Option E) → List (ℕ × Option E)
  tell attempt last told =
      if not (attempt == 0) && config.tells then told ++ (attempt, last) ∷ [] else told

  -- The loop of RetryWithData: the rounds left, the attempt, lastErr, the OnRetry calls so far.
  unfoldable pub loop : ℕ → ℕ → Option E → List (ℕ × Option E) → Outcome T E
  loop zero attempt last told = finish attempt told zero_value last
  loop (suc left) attempt last told =
      let told' = tell attempt last told in
      elim (waits attempt) [
        | some e ↦ finish attempt told zero_value (some e)
        | none ↦ elim (env.call attempt) [
          | ok d ↦ finish (attempt + 1) told' d none
          | fail e ↦
              let rest = loop left (attempt + 1) (some e) told' in
              if config.retryable e then rest else finish (attempt + 1) told' zero_value (some e)
        ]
      ]

  unfoldable pub retry_with_data : Outcome T E
  unfolding loop rounds
  retry_with_data = loop (rounds config.max_retries) 0 none []

-- Retry, whose `fn` returns an error alone; the pair is the error returned and the calls of `fn`.
module _ {E : Type 0} (call done : ℕ → Option E) (config : Config E) where
  unfoldable pub retry_loop :
      ℕ → ℕ → Option E → List (ℕ × Option E) → Option E × ℕ × List (ℕ × Option E)
  retry_loop zero attempt last told = (last, attempt, told)
  retry_loop (suc left) attempt last told =
      let told' =
        if not (attempt == 0) && config.tells then told ++ (attempt, last) ∷ [] else told in
      elim (if attempt == 0 then none else done attempt) [
        | some e ↦ (some e, attempt, told)
        | none ↦ elim (call attempt) [
          | none ↦ (none, attempt + 1, told')
          | some e ↦
              let rest = retry_loop left (attempt + 1) (some e) told' in
              if config.retryable e then rest else (some e, attempt + 1, told')
        ]
      ]

  unfoldable pub retry : Option E × ℕ × List (ℕ × Option E)
  unfolding retry_loop rounds
  retry = retry_loop (rounds config.max_retries) 0 none []
