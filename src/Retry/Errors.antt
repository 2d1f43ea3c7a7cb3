-- ===== src/Retry/Errors.antt =====
-- Retry, whose calls return no data, as a run of RetryWithData.
use load_balancer.Base.{
  ℕ, zero, suc, ◌+◌, ◌≡◌, refl, inl, inr, not, ◌&&◌, Option, none, some, List, [], ◌∷◌, ◌++◌, ◌==◌,
  if◌then◌else◌, Bool-cases, Option-cases,
}
use load_balancer.Retry.{
  Attempt, ok, fail, Env, Config, rounds, loop, retry_with_data, retry_loop, retry,
}

-- The answers of an error-only `fn` as answers with data.
abbrev pub as_attempt : {E : Type 0} → Option E → Attempt (Unit {0}) E
as_attempt none = ok tt
as_attempt (some e) = fail e

module _ {E : Type 0} (call done : ℕ → Option E) (config : Config E) where
  abbrev pub with_unit : Env (Unit {0}) E
  with_unit = record { call = λ i. as_attempt (call i); done = done }

  retry_loop-loop :
      (left attempt : ℕ) (last : Option E) (told : List (ℕ × Option E))
      → let o = loop tt with_unit config left attempt last told in
        retry_loop call done config left attempt last told ≡ (o.error, o.calls, o.told)
  unfolding retry_loop loop
  retry_loop-loop zero attempt last told = refl
  retry_loop-loop (suc left) attempt last told =
      elim (Option-cases (if attempt == 0 then none else done attempt)) [
        | inr (e, w) ↦ rw (w, retry_loop, loop)
        | inl w ↦ elim (Option-cases (call attempt)) [
          | inl c ↦ rw (w, c, retry_loop, loop)
          | inr (e, c) ↦ elim (Bool-cases (config.retryable e)) [
            | inr r ↦ rw (w, c, r, retry_loop, loop)
            | inl r ↦
                rw (w, c, r, retry_loop, loop)
                  (retry_loop-loop left (attempt + 1) (some e) (
                    if not (attempt == 0) && config.tells
                    then told ++ (attempt, last) ∷ []
                    else told))
          ]
        ]
      ]

  -- Retry returns the same error as RetryWithData over calls without data, after the same number
  -- of calls and the same calls of OnRetry.
  pub retry-retry_with_data :
      let o = retry_with_data tt with_unit config in
      retry call done config ≡ (o.error, o.calls, o.told)
  unfolding retry retry_with_data
  retry-retry_with_data = retry_loop-loop (rounds config.max_retries) 0 none []
