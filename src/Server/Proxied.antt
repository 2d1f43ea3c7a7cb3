-- ===== src/Server/Proxied.antt =====
-- What becomes of a request that is let through: its attempts, the connection counts, the result
-- that its breaker gets, and the answer to the client.
use load_balancer.Base.{
  ℕ, ◌+◌, ◌<◌, ◌≤◌, arith, ◌==◌, ==_iff, ◌≡◌, refl, ap, ◌⊎◌, inl, inr, Bool, true, false, Option,
  none, some, Bool-cases, Option-cases,
}
use load_balancer.Errors.{GoError}
use load_balancer.Retry.{Attempt, ok, fail, Env, Outcome, retry_with_data}
use load_balancer.Retry.Runs.{FailsAt, calls_bounded, nil_error, retries_after_failure}
use load_balancer.Retry.Failed.{error-IsCause}
use load_balancer.Retry.Data.{error_without_data}
use load_balancer.Server.{Request}
use load_balancer.Server.Transport.{
  Response, is_idempotent, is_gateway_error, judge, judged, op_error, single, retry_config, forward,
}

retried :
    (req : Request) (env : Env Response GoError)
    → is_idempotent req.method ≡ true
    → forward req env ≡ retry_with_data none (judged env) retry_config
unfolding forward
retried req env e = rw e

once :
    (req : Request) (env : Env Response GoError)
    → is_idempotent req.method ≡ false
    → forward req env ≡ single (env.call 0)
unfolding forward
once req env e = rw e

-- An attempt that does not end the retries: an error, or a status of 502 to 504.
abbrev pub Bounced : Env Response GoError → ℕ → Type 0
Bounced env i =
    ((e : GoError) × (env.call i ≡ fail e))
    ⊎ ((r : Response) × (env.call i ≡ ok r) × (is_gateway_error r.status ≡ true))

-- The response is what the backend answered to an attempt: to the one attempt, or, with retries, to
-- the first within three that is not bounced.
abbrev pub IsGiven : Bool → Env Response GoError → Response → Type 0
IsGiven false env r = env.call 0 ≡ ok r
IsGiven true env r =
    (i : ℕ) × (env.call i ≡ ok r)
    × (is_gateway_error r.status ≡ false)
    × (i ≤ 2)
    × ((j : ℕ) → j < i → Bounced env j)

-- The error is that of the one attempt. With retries, the context was done before an attempt, and
-- all before that were bounced; or all three were, and the error is that of the last, or the one
-- that stands for a status of 502 to 504.
abbrev pub IsFault : Bool → Env Response GoError → GoError → Type 0
IsFault false env e = env.call 0 ≡ fail e
IsFault true env e =
    ((i : ℕ) × (0 < i) × (i ≤ 2) × (env.done i ≡ some e) × ((j : ℕ) → j < i → Bounced env j))
    ⊎ (((j : ℕ) → j ≤ 2 → Bounced env j)
        × ((env.call 2 ≡ fail e)
            ⊎ ((e ≡ op_error)
                × ((r : Response) × (env.call 2 ≡ ok r) × (is_gateway_error r.status ≡ true)))))

-- A response of the backend, and no error; or an error, and no response.
abbrev pub IsAnswer : Bool → Env Response GoError → Option Response → Option GoError → Type 0
IsAnswer retries env resp err =
    ((r : Response) × (resp ≡ some r) × (err ≡ none) × IsGiven retries env r)
    ⊎ ((e : GoError) × (resp ≡ none) × (err ≡ some e) × IsFault retries env e)

judge_ok :
    (a : Attempt Response GoError) (d : Option Response)
    → judge a ≡ ok d
    → (r : Response) × (d ≡ some r) × (a ≡ ok r) × (is_gateway_error r.status ≡ false)
judge_ok (fail e) d h = cc
judge_ok (ok r) d h = elim (Bool-cases (is_gateway_error r.status)) [
  | inl t ↦ let clash = rw t at h in cc
  | inr t ↦ let same = rw t at h in (r, cc, refl, t)
]

judge-fail :
    (a : Attempt Response GoError) (e : GoError)
    → judge a ≡ fail e
    → (a ≡ fail e)
      ⊎ ((e ≡ op_error) × ((r : Response) × (a ≡ ok r) × (is_gateway_error r.status ≡ true)))
judge-fail (fail x) e h =
    let same : ◌≡◌ {A = Attempt (Option Response) GoError} (fail x) (fail e) = h in
    let eq : x ≡ e = cc in inl (ap fail eq)
judge-fail (ok r) e h = elim (Bool-cases (is_gateway_error r.status)) [
  | inl t ↦ let same : fail op_error ≡ fail e = rw t at h in inr (cc, (r, refl, t))
  | inr t ↦ let clash : ok (some r) ≡ fail e = rw t at h in cc
]

bounced :
    (env : Env Response GoError) (i : ℕ) → FailsAt none (judged env) retry_config i → Bounced env i
bounced env i (e, c, _) = elim (judge-fail (env.call i) e c) [
  | inl f ↦ inl (e, f)
  | inr (_, (r, given, t)) ↦ inr (r, given, t)
]

single-IsAnswer :
    (env : Env Response GoError) (a : Attempt Response GoError)
    → env.call 0 ≡ a
    → IsAnswer false env (single a).result (single a).error
single-IsAnswer env (ok r) given = inl (r, refl, refl, given)
single-IsAnswer env (fail e) given = inr (e, refl, refl, given)

module _ (env : Env Response GoError) where
  abbrev run : Outcome (Option Response) GoError
  run = retry_with_data none (judged env) retry_config

  before_last : (j : ℕ) → j + 1 < run.calls → Bounced env j
  before_last j b = bounced env j (retries_after_failure none (judged env) retry_config refl j b)

  run-IsGiven : run.error ≡ none → (r : Response) × (run.result ≡ some r) × IsGiven true env r
  run-IsGiven good =
      let (i, calls, c) = nil_error none (judged env) retry_config refl good in
      let bound = calls_bounded none (judged env) retry_config refl in
      let (r, some_r, given, t) = judge_ok (env.call i) run.result c in
      (
        r,
        some_r,
        (i, given, t, omega (arith, calls, bound), λ j b. before_last j (omega (arith, calls))),
      )

  run-IsFault : (e : GoError) → run.error ≡ some e → IsFault true env e
  run-IsFault e failed = elim (error-IsCause none (judged env) retry_config e refl failed) [
    | inl (lo, hi, w, all) ↦ elim (Bool-cases (run.calls == 0)) [
      | inl q ↦ let clash : none ≡ some e = rw q at w in cc
      | inr q ↦
          let done : env.done run.calls ≡ some e = rw q at w in
          inl (
            run.calls,
            ground (arith, q),
            omega (arith, hi),
            done,
            λ j b. bounced env j (all j (omega arith) b),
          )
    ]
    | inr (i, calls, lo, c, inl r) ↦ let clash : true ≡ false = r in cc
    | inr (i, calls, lo, c, inr top) ↦
        let at : i ≡ 2 = omega (arith, calls, top) in
        let last : judge (env.call 2) ≡ fail e = rw at at c in
        let two : Bounced env 2 = bounced env 2 (e, last, refl) in
        inr (
          (λ j b. elim (Bool-cases (j == 2)) [
            | inl q ↦ rw ((==_iff j 2).0 q) two
            | inr q ↦ before_last j (ground (arith, q, b, top))
          ]),
          judge-fail (env.call 2) e last,
        )
  ]

pub forward-IsAnswer :
    (req : Request) (env : Env Response GoError)
    → IsAnswer (is_idempotent req.method) env (forward req env).result (forward req env).error
forward-IsAnswer req env = elim (Bool-cases (is_idempotent req.method)) [
  | inr e ↦ rw (once req env e, e) (single-IsAnswer env (env.call 0) refl)
  | inl e ↦
      rw (retried req env e, e)
        (elim (Option-cases (run env).error) [
          | inr (x, failed) ↦ inr (
            x,
            error_without_data none (judged env) retry_config x failed,
            failed,
            run-IsFault env x failed,
          )
          | inl good ↦ let (r, some_r, given) = run-IsGiven env good in inl (r, some_r, good, given)
        ])
]
