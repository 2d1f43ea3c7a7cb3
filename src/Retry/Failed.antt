-- ===== src/Retry/Failed.antt =====
-- Where the error comes from that RetryWithData returns.
use load_balancer.Base.{
  ℕ, zero, suc, ◌+◌, ◌≤◌, ◌<◌, ◌≡◌, refl, ap, ◌∙◌, ◌⊎◌, inl, inr, true, false, Option, none, some,
  List, [], arith, Bool-cases, Option-cases, is_neg, ◌==◌, ==_iff,
}
use load_balancer.Retry.{Env, Config, Outcome, fail, loop, rounds, retry_with_data, waits}
use load_balancer.Retry.Runs.{
  FailsAt, loop_cancelled, loop_done, loop_stopped, loop_again, told', Attempt-cases,
}

module _ {T E : Type 0} (zero_value : T) (env : Env T E) (config : Config E) where
  -- The context was done before the next attempt; or the last attempt failed, with an error that
  -- is not retried or as the last that there may be.
  abbrev pub IsCause : ℕ → ℕ → E → ℕ → Type 0
  IsCause attempt top e calls =
      ((attempt ≤ calls)
        × (calls < top)
        × (waits zero_value env config calls ≡ some e)
        × ((j : ℕ) → attempt ≤ j → j < calls → FailsAt zero_value env config j))
      ⊎ ((i : ℕ) × (calls ≡ i + 1)
          × (attempt ≤ i)
          × (env.call i ≡ fail e)
          × ((config.retryable e ≡ false) ⊎ (calls ≡ top)))

  again-IsCause :
      (left attempt : ℕ) (e x : E) (o : Outcome T E)
      → env.call attempt ≡ fail x
      → config.retryable x ≡ true
      → ((some x ≡ some e) × (left ≡ 0) × (o.calls ≡ attempt + 1))
        ⊎ IsCause (attempt + 1) (attempt + 1 + left) e o.calls
      → IsCause attempt (attempt + suc left) e o.calls
  again-IsCause left attempt e x o c r (inl (same, none_left, calls)) =
      let eq : x ≡ e = cc in
      inr (attempt, calls, omega arith, rw eq at c, inr (omega (arith, calls, none_left)))
  again-IsCause left attempt e x o c r (inr (inl (lo, hi, w, failed))) = inl (
    omega (arith, lo),
    omega (arith, hi),
    w,
    λ j a b. elim (Bool-cases (j == attempt)) [
      | inl q ↦ (x, ap env.call ((==_iff j attempt).0 q) ∙ c, r)
      | inr q ↦ failed j (ground (arith, q)) b
    ],
  )
  again-IsCause left attempt e x o c r (inr (inr (i, calls, lo, f, inl stop))) =
      inr (i, calls, omega (arith, lo), f, inl stop)
  again-IsCause left attempt e x o c r (inr (inr (i, calls, lo, f, inr at))) =
      inr (i, calls, omega (arith, lo), f, inr (omega (arith, at)))

  loop-IsCause :
      (left attempt : ℕ) (last : Option E) (told : List (ℕ × Option E)) (e : E)
      → (loop zero_value env config left attempt last told).error ≡ some e
      → let o = loop zero_value env config left attempt last told in
        ((last ≡ some e) × (left ≡ 0) × (o.calls ≡ attempt))
        ⊎ IsCause attempt (attempt + left) e o.calls
  loop-IsCause zero attempt last told e h = unfold loop in inl (unfold loop in h, refl, refl)
  loop-IsCause (suc left) attempt last told e h =
      elim (Option-cases (waits zero_value env config attempt)) [
        | inr (x, w) ↦
            let eq = loop_cancelled zero_value env config left attempt last told x w in
            let same : some x ≡ some e = rw eq at h in
            let xe : x ≡ e = cc in
            rw eq (inr (inl (omega arith, omega arith, rw xe at w, λ j a b. absurd (omega arith))))
        | inl w ↦ elim (Attempt-cases zero_value env config (env.call attempt)) [
          | inl (d, c) ↦
              let clash = rw (loop_done zero_value env config left attempt last told d w c) at h in
              cc
          | inr (x, c) ↦ elim (Bool-cases (config.retryable x)) [
            | inr r ↦
                let eq = loop_stopped zero_value env config left attempt last told x w c r in
                let same : some x ≡ some e = rw eq at h in
                let xe : x ≡ e = cc in
                rw eq (inr (inr (attempt, refl, omega arith, rw xe at c, inl (rw xe at r))))
            | inl r ↦
                let eq = loop_again zero_value env config left attempt last told x w c r in
                let more = told' zero_value env config left attempt last told in
                rw eq (
                  inr (
                    again-IsCause left attempt e x
                      (loop zero_value env config left (attempt + 1) (some x) more) c r
                      (loop-IsCause left (attempt + 1) (some x) more e (rw eq at h))))
          ]
        ]
      ]

  -- With MaxRetries not negative, an error of RetryWithData is that of the context, done before the
  -- attempt after the last one made, all of which failed, or that of the last attempt, which is not
  -- retried or is attempt MaxRetries + 1.
  pub error-IsCause :
      (e : E)
      → is_neg config.max_retries ≡ false
      → (retry_with_data zero_value env config).error ≡ some e
      → IsCause 0 (config.max_retries + 1) e (retry_with_data zero_value env config).calls
  unfolding retry_with_data
  error-IsCause e nonneg h =
      let full = rw (nonneg, rounds) at h in
      let sum : 0 + (config.max_retries + 1) ≡ config.max_retries + 1 = omega arith in
      rw (nonneg, rounds)
        (elim (rw sum at (loop-IsCause (config.max_retries + 1) 0 none [] e full)) [
          | inl (blank, _, _) ↦ let clash : none ≡ some e = blank in cc
          | inr cause ↦ cause
        ])
