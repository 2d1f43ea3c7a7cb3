-- ===== src/Server/Outcome.antt =====
-- The whole way of a request that is let through: one result for the breaker, and one
-- answer for the client.
use load_balancer.Base.{
  ℕ, ◌≡◌, refl, ◌⊎◌, inl, inr, Bool, true, false, Option, some, String, arith, ltb, leb, ==_iff,
  Bool-cases,
}
use load_balancer.Balancer.Backend.{Ref}
use load_balancer.Breaker.{Breaker, on_result}
use load_balancer.Breaker.Manager.{write}
use load_balancer.Errors.{GoError}
use load_balancer.Retry.{Env}
use load_balancer.Server.{Request, World, report}
use load_balancer.Server.Transport.{
  Response, is_idempotent, forward, begin_trip, end_trip, round_trip,
}
use load_balancer.Server.Proxied.{IsGiven, IsFault, IsAnswer, forward-IsAnswer}
use load_balancer.Server.Proxy.{
  Reply, forwarded, error_reply, explain, error_handler, modify_response, finish, proxied,
}

module _ {S : Type 0} where
  abbrev pub breaker_at : World S → ℕ → Breaker
  breaker_at w a = w.breakers.arena.cell a

  pub report_lem :
      (a : ℕ) (success : Bool) (now : ℕ) (w : World S)
      → breaker_at (report a success now w) a ≡ (on_result success now (breaker_at w a)).0
  unfolding report write
  report_lem a success now w = rw ((==_iff a a).1 refl)

  -- The answer to the client, and with it the one result that the breaker gets.
  abbrev pub IsSettled : Bool → Env Response GoError → ℕ → ℕ → World S → World S × Reply → Type 0
  IsSettled retries env a now w done =
      ((r : Response) × (done.1 ≡ forwarded r)
        × IsGiven retries env r
        × (breaker_at done.0 a ≡ (on_result (ltb r.status 500) now (breaker_at w a)).0))
      ⊎ ((e : GoError) × (done.1 ≡ error_reply (explain e).0 (explain e).2)
          × IsFault retries env e
          × (breaker_at done.0 a ≡ (on_result false now (breaker_at w a)).0))

  modify_response_lem :
      (be : Ref) (a now : ℕ) (r : Response) (w : World S)
      → breaker_at (modify_response (record { backend = some be; done = some a }) now r w) a
        ≡ (on_result (ltb r.status 500) now (breaker_at w a)).0
  unfolding modify_response
  modify_response_lem be a now r w = elim (Bool-cases (leb 500 r.status)) [
    | inl t ↦
        let down : ltb r.status 500 ≡ false = ground (arith, t) in
        rw (t, down) (report_lem a false now w)
    | inr t ↦
        let up : ltb r.status 500 ≡ true = ground (arith, t) in rw (t, up) (report_lem a true now w)
  ]

  module _ (status_text : ℕ → String) where
    finish-IsSettled :
        (be : Ref) (a now : ℕ) (req : Request) (retries : Bool) (env : Env Response GoError)
        (resp : Option Response) (err : Option GoError) (w : World S)
        → IsAnswer retries env resp err
        → IsSettled retries env a now w
            (finish status_text (record { backend = some be; done = some a }) req now resp err w)
    unfolding finish error_handler
    finish-IsSettled be a now req retries env resp err w (inl (r, p, q, given)) =
        rw (p, q) (inl (r, refl, given, modify_response_lem be a now r w))
    finish-IsSettled be a now req retries env resp err w (inr (e, p, q, fault)) =
        rw (p, q) (inr (e, refl, fault, report_lem a false now w))

    -- A request that is let through ends in one of two ways, and its breaker gets exactly one
    -- result. Either a response of the backend is passed on, and reported as a success exactly if
    -- its status is below 500: the answer to the one attempt, or, for GET, HEAD and OPTIONS, that
    -- to the first of three that is neither an error nor a status of 502 to 504. Or an error is
    -- reported as a failure and answered with the status and the text that explain it: that of the
    -- one attempt; or, for GET, HEAD and OPTIONS, that of the context, done before a retry, or,
    -- where none of the three gave a response to pass on, that of the last, or the one that stands
    -- for its status.
    pub proxied-IsSettled :
        (be : Ref) (a : ℕ) (req : Request) (env : Env Response GoError) (dur now : ℕ) (w : World S)
        → IsSettled
            (is_idempotent req.method)
            env
            a
            now
            w
            (proxied status_text be a req env dur now w)
    unfolding proxied round_trip begin_trip end_trip
    proxied-IsSettled be a req env dur now w =
        finish-IsSettled be a now req (is_idempotent req.method) env (forward req env).result
          (forward req env).error (round_trip status_text be req env dur w).0
          (forward-IsAnswer req env)
