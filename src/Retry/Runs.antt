-- ===== src/Retry/Runs.antt =====
-- What a run of the retry loop does: how often it calls, when it succeeds, what it returns.
use load_balancer.Base.{
  ℕ, zero, suc, ◌+◌, ◌≤◌, ◌<◌, ◌≡◌, refl, sym, ap, ◌∙◌, ◌⊎◌, inl, inr, true, false, Option, none,
  some, List, [], arith, ◌==◌, ==_iff, Bool-cases, Option-cases, is_neg,
}
use load_balancer.Retry.{
  Attempt, ok, fail, Env, Config, Outcome, rounds, loop, finish, waits, tell, retry_with_data,
}

module _ {T E : Type 0} (zero_value : T) (env : Env T E) (config : Config E) where
  -- Attempt i failed, and its error may be retried.
  abbrev pub FailsAt : ℕ → Type 0
  FailsAt i = (e : E) × (env.call i ≡ fail e) × (config.retryable e ≡ true)

  -- All attempts from `a` on, before the last of those made, failed with a retryable error; and a
  -- nil error means that the last attempt returned the data.
  abbrev IsRun : ℕ → ℕ → Option E → Outcome T E → Type 0
  IsRun left attempt last o =
      (attempt ≤ o.calls)
      × (o.calls ≤ attempt + left)
      × ((i : ℕ) → attempt ≤ i → i + 1 < o.calls → FailsAt i)
      × (o.error ≡ none
          → ((last ≡ none) × (left ≡ 0))
            ⊎ ((i : ℕ) × (o.calls ≡ i + 1) × (attempt ≤ i) × (env.call i ≡ ok o.result)))

  pub Attempt-cases : (a : Attempt T E) → ((d : T) × (a ≡ ok d)) ⊎ ((e : E) × (a ≡ fail e))
  Attempt-cases (ok d) = inl (d, refl)
  Attempt-cases (fail e) = inr (e, refl)

  -- The four ways of a round.
  module _ (left attempt : ℕ) (last : Option E) (told : List (ℕ × Option E)) where
    abbrev here : Outcome T E
    here = loop zero_value env config (suc left) attempt last told

    abbrev pub told' : List (ℕ × Option E)
    told' = tell zero_value env config attempt last told

    pub loop_cancelled :
        (e : E)
        → waits zero_value env config attempt ≡ some e
        → here ≡ finish zero_value env config attempt told zero_value (some e)
    unfolding loop
    loop_cancelled e w = rw (w, loop)

    pub loop_done :
        (d : T)
        → waits zero_value env config attempt ≡ none
        → env.call attempt ≡ ok d
        → here ≡ finish zero_value env config (attempt + 1) told' d none
    unfolding loop
    loop_done d w c = rw (w, c, loop)

    pub loop_stopped :
        (e : E)
        → waits zero_value env config attempt ≡ none
        → env.call attempt ≡ fail e
        → config.retryable e ≡ false
        → here ≡ finish zero_value env config (attempt + 1) told' zero_value (some e)
    unfolding loop
    loop_stopped e w c r = rw (w, c, r, loop)

    pub loop_again :
        (e : E)
        → waits zero_value env config attempt ≡ none
        → env.call attempt ≡ fail e
        → config.retryable e ≡ true
        → here ≡ loop zero_value env config left (attempt + 1) (some e) told'
    unfolding loop
    loop_again e w c r = rw (w, c, r, loop)

  IsRun-again :
      (left attempt : ℕ) (last : Option E) (e : E) (o : Outcome T E)
      → env.call attempt ≡ fail e
      → config.retryable e ≡ true
      → IsRun left (attempt + 1) (some e) o
      → IsRun (suc left) attempt last o
  IsRun-again left attempt last e o c r (lo, hi, failed, won) = (
    omega arith,
    omega arith,
    (λ i a b. elim (Bool-cases (i == attempt)) [
      | inl q ↦ (e, ap env.call ((==_iff i attempt).0 q) ∙ c, r)
      | inr q ↦ failed i (ground (arith, q)) b
    ]),
    λ n. elim (won n) [ inl (bad, _) ↦ cc | inr (i, at, le, d) ↦ inr (i, at, omega arith, d) ],
  )

  loop-IsRun :
      (left attempt : ℕ) (last : Option E) (told : List (ℕ × Option E))
      → IsRun left attempt last (loop zero_value env config left attempt last told)
  loop-IsRun zero attempt last told =
      unfold loop in (omega arith, omega arith, (λ i a b. absurd (omega arith)), λ e. inl (e, refl))
  loop-IsRun (suc left) attempt last told =
      elim (Option-cases (waits zero_value env config attempt)) [
        | inr (e, w) ↦
            rw (loop_cancelled left attempt last told e w)
              (omega arith, omega arith, (λ i a b. absurd (omega arith)), λ q. cc)
        | inl w ↦ elim (Attempt-cases (env.call attempt)) [
          | inl (d, c) ↦ rw (loop_done left attempt last told d w c) (
            omega arith,
            omega arith,
            (λ i a b. absurd (omega arith)),
            λ q. inr (attempt, refl, omega arith, c),
          )
          | inr (e, c) ↦ elim (Bool-cases (config.retryable e)) [
            | inr r ↦
                rw (loop_stopped left attempt last told e w c r)
                  (omega arith, omega arith, (λ i a b. absurd (omega arith)), λ q. cc)
            | inl r ↦ rw (loop_again left attempt last told e w c r) (
                IsRun-again left attempt last e
                  (loop zero_value env config left (attempt + 1) (some e)
                    (told' left attempt last told))
                  c r (loop-IsRun left (attempt + 1) (some e) (told' left attempt last told)))
          ]
        ]
      ]

  module _ (nonneg : is_neg config.max_retries ≡ false) where
    -- With MaxRetries not negative, RetryWithData calls its function at most MaxRetries + 1 times.
    pub calls_bounded : (retry_with_data zero_value env config).calls ≤ config.max_retries + 1
    unfolding retry_with_data
    calls_bounded =
        rw (nonneg, rounds) (omega (arith, (loop-IsRun (config.max_retries + 1) 0 none []).1))

    -- With MaxRetries not negative, every call that RetryWithData makes but the last failed with
    -- an error that Retryable accepts.
    pub retries_after_failure :
        (i : ℕ) → i + 1 < (retry_with_data zero_value env config).calls → FailsAt i
    unfolding retry_with_data
    retries_after_failure i =
        rw (nonneg, rounds)
          (λ b. (loop-IsRun (config.max_retries + 1) 0 none []).2 i (omega arith) b)

    -- With MaxRetries not negative, a nil error of RetryWithData means that its last call
    -- succeeded and that the data of that call is returned.
    pub nil_error :
        (retry_with_data zero_value env config).error ≡ none
        → (i : ℕ) × ((retry_with_data zero_value env config).calls ≡ i + 1)
          × (env.call i ≡ ok (retry_with_data zero_value env config).result)
    unfolding retry_with_data
    nil_error =
        rw (nonneg, rounds)
          (λ n. elim ((loop-IsRun (config.max_retries + 1) 0 none []).3 n) [
            | inl (_, bad) ↦ absurd (omega arith)
            | inr (i, at, _, d) ↦ (i, at, d)
          ])

  reaches :
      (k left attempt : ℕ) (last : Option E) (told : List (ℕ × Option E)) (d : T)
      → k < left
      → env.call (attempt + k) ≡ ok d
      → ((i : ℕ) → attempt ≤ i → i < attempt + k → FailsAt i)
      → ((i : ℕ) → attempt ≤ i → i ≤ attempt + k → waits zero_value env config i ≡ none)
      → let o = loop zero_value env config left attempt last told in
        (o.error ≡ none) × (o.result ≡ d) × (o.calls ≡ attempt + k + 1)
  reaches k zero attempt last told d lt c failed free = elim lt [ ]
  reaches zero (suc left) attempt last told d lt c failed free =
      let here : attempt + 0 ≡ attempt = omega arith in
      rw
        (loop_done left attempt last told d (free attempt (omega arith) (omega arith))
          (ap env.call (sym here) ∙ c))
        (refl, refl, omega arith)
  reaches (suc k) (suc left) attempt last told d lt c failed free =
      let (e, c0, r) = failed attempt (omega arith) (omega arith) in
      let later : attempt + suc k ≡ attempt + 1 + k = omega arith in
      let (won, got, calls) =
        reaches k left (attempt + 1) (some e) (told' left attempt last told) d (omega arith)
          (ap env.call (sym later) ∙ c) (λ i a b. failed i (omega arith) (omega arith))
          (λ i a b. free i (omega arith) (omega arith)) in
      rw (loop_again left attempt last told e (free attempt (omega arith) (omega arith)) c0 r)
        (won, got, omega (arith, calls))

  -- With MaxRetries not negative, if an attempt within MaxRetries succeeds, all before it fail
  -- with retryable errors and the context is not done before it, RetryWithData returns its data
  -- with a nil error after exactly that many calls.
  pub succeeds :
      (k : ℕ) (d : T)
      → is_neg config.max_retries ≡ false
      → k ≤ config.max_retries
      → env.call k ≡ ok d
      → ((i : ℕ) → i < k → FailsAt i)
      → ((i : ℕ) → i ≤ k → env.done i ≡ none)
      → let o = retry_with_data zero_value env config in
        (o.error ≡ none) × (o.result ≡ d) × (o.calls ≡ k + 1)
  unfolding retry_with_data
  succeeds k d nonneg le c failed free =
      let at : 0 + k ≡ k = omega arith in
      let (won, got, calls) =
        reaches k (config.max_retries + 1) 0 none [] d (omega arith) (ap env.call at ∙ c)
          (λ i a b. failed i (omega arith)) (λ i a b. waits-none i (free i (omega arith))) in
      rw (nonneg, rounds) (won, got, omega (arith, calls))
    where
      waits-none : (i : ℕ) → env.done i ≡ none → waits zero_value env config i ≡ none
      waits-none i e = ground (arith, e)
