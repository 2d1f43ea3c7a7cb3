-- ===== src/Entry/FastHttp.antt =====
-- cmd/proxy/fasthttp.go, runFasthttp: the handler that it puts together around the proxy, which has
-- no address filter, no security headers and no size limit. The listeners and the shutdown are not
-- modelled. Parameters: the response of fasthttp, less its headers, with ctx.Error, its status and
-- the length of its body; the token bucket, as in Middleware/RateLimit.
use load_balancer.Base.{
  ℕ, Bool, true, false, String, List, [], ◌∷◌, if◌then◌else◌, is_nonpos, bytes,
}
use load_balancer.Config.{Config}
use load_balancer.Tracing.RequestId
use load_balancer.Tracing.RequestId.{fast_request_id}
use load_balancer.Middleware.Chain.{chain}
use load_balancer.Middleware.Exchange.{Line, Outcome, returned}
use load_balancer.Middleware.RateLimit.{limit}
use load_balancer.Middleware.Recovery.{fast_recovery}
use load_balancer.Middleware.Logging.{fast_logging}

-- fasthttp.RequestCtx, with the limiters and the state of the proxy.
pub record FastContext (P : Type 0) (L : Type 0) (V : Type 0) : Type 0 where
  pub remote_ip : String
  pub time : ℕ
  pub request : RequestId.Headers
  pub generated : List ℕ
  pub response_headers : RequestId.Headers
  pub response : P
  pub values : RequestId.Headers
  pub limiters : List (String × L)
  pub proxy : V

abbrev pub FastHandler : Type 0 → Type 0
FastHandler C = C × List Line → (C × List Line) × Outcome

module _ {P : Type 0} {L : Type 0} {V : Type 0} where
  -- FastRequestID on these contexts.
  unfoldable pub fast_with_identifier :
      FastHandler (FastContext P L V) → FastHandler (FastContext P L V)
  fast_with_identifier next (ctx, log) =
      let go = λ (out request values : RequestId.Headers).
        next (record ctx { response_headers = out; values = values }, log) in
      fast_request_id ctx.generated go ctx.response_headers ctx.request ctx.values

module _ {P : Type 0} {L : Type 0} {V : Type 0}
    (error : List ℕ → ℕ → RequestId.Headers × P → RequestId.Headers × P) where
  -- ctx.Error.
  abbrev pub fail : List ℕ → ℕ → FastContext P L V → FastContext P L V
  fail message code ctx =
      let (headers, response) = error message code (ctx.response_headers, ctx.response) in
      record ctx { response_headers = headers; response = response }

  abbrev pub fast_admitted :
      FastHandler (FastContext P L V)
      → FastContext P L V × List Line
      → Bool
      → (FastContext P L V × List Line) × Outcome
  fast_admitted next (ctx, log) true = next (ctx, log)
  fast_admitted next (ctx, log) false = ((fail (bytes "Too Many Requests") 429 ctx, log), returned)

  -- FastRateLimit on these contexts.
  unfoldable pub fast_with_rate_limit :
      L → (ℕ → L → L × Bool) → FastHandler (FastContext P L V) → FastHandler (FastContext P L V)
  fast_with_rate_limit fresh allow next (ctx, log) =
      let (limiters, ok) = limit fresh allow ctx.remote_ip ctx.time ctx.limiters in
      fast_admitted next (record ctx { limiters = limiters }, log) ok

  module _ (status_code body_length : P → ℕ) (new_limiter : ℕ → ℕ → L) (allow : ℕ → L → L × Bool)
      (c : Config) where
    abbrev pub inside : List (FastHandler (FastContext P L V) → FastHandler (FastContext P L V))
    inside =
        fast_recovery fail
        ∷ fast_logging (λ ctx. status_code ctx.response) (λ ctx. body_length ctx.response)
        ∷ []

    -- The statements of runFasthttp up to FastChain.
    unfoldable pub fast_handler : FastHandler (FastContext P L V) → FastHandler (FastContext P L V)
    fast_handler proxy =
        let h1 = fast_with_identifier proxy in
        let fresh = new_limiter c.rate_limit.rps c.rate_limit.burst in
        if is_nonpos c.rate_limit.rps
        then chain h1 inside
        else chain h1 (fast_with_rate_limit fresh allow ∷ inside)
