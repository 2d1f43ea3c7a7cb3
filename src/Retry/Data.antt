-- ===== src/Retry/Data.antt =====
-- What RetryWithData returns beside an error.
use load_balancer.Base.{
  ℕ, zero, suc, ◌+◌, ◌≡◌, refl, inl, inr, Option, none, some, List, [], Bool-cases, Option-cases,
}
use load_balancer.Retry.{Env, Config, loop, rounds, retry_with_data, waits}
use load_balancer.Retry.Runs.{
  loop_cancelled, loop_done, loop_stopped, loop_again, told', Attempt-cases,
}

module _ {T E : Type 0} (zero_value : T) (env : Env T E) (config : Config E) where
  loop_data :
      (left attempt : ℕ) (last : Option E) (told : List (ℕ × Option E)) (e : E)
      → (loop zero_value env config left attempt last told).error ≡ some e
      → (loop zero_value env config left attempt last told).result ≡ zero_value
  loop_data zero attempt last told e h = unfold loop in refl
  loop_data (suc left) attempt last told e h =
      elim (Option-cases (waits zero_value env config attempt)) [
        | inr (x, w) ↦ rw (loop_cancelled zero_value env config left attempt last told x w) refl
        | inl w ↦ elim (Attempt-cases zero_value env config (env.call attempt)) [
          | inl (d, c) ↦
              let clash = rw (loop_done zero_value env config left attempt last told d w c) at h in
              cc
          | inr (x, c) ↦ elim (Bool-cases (config.retryable x)) [
            | inr r ↦ rw (loop_stopped zero_value env config left attempt last told x w c r) refl
            | inl r ↦
                let again = loop_again zero_value env config left attempt last told x w c r in
                rw again (
                  loop_data left (attempt + 1) (some x)
                    (told' zero_value env config left attempt last told) e (rw again at h))
          ]
        ]
      ]

  -- Beside an error RetryWithData returns the zero value, whatever data came with the failures.
  pub error_without_data :
      (e : E)
      → (retry_with_data zero_value env config).error ≡ some e
      → (retry_with_data zero_value env config).result ≡ zero_value
  unfolding retry_with_data
  error_without_data e h = loop_data (rounds config.max_retries) 0 none [] e h
