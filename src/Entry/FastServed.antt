-- ===== src/Entry/FastServed.antt =====
-- What a request meets in the handler of runFasthttp in cmd/proxy/fasthttp.go.
use load_balancer.Base.{
  ℕ, ◌≡◌, refl, ◌∙◌, inl, inr, Bool, true, false, ◌||◌, List, [], ◌∷◌, ◌++◌, Bool-cases, is_nonpos,
  bytes,
}
use load_balancer.Base.Dict.{insert}
use load_balancer.Config.{Config}
use load_balancer.Tracing.RequestId
use load_balancer.Tracing.RequestId.{fast_request_id, header, fast_id_header, or_generated}
use load_balancer.Tracing.Identified.{header-insert}
use load_balancer.Middleware.Chain.{chain, chain_from}
use load_balancer.Middleware.Exchange.{Line, Outcome, returned, panicked}
use load_balancer.Middleware.RateLimit.{limit}
use load_balancer.Middleware.Recovery.{fast_recovery, after_fast_defer}
use load_balancer.Middleware.Logging.{fast_logging, after_next}
use load_balancer.Middleware.Logging.Lines.{line}
use load_balancer.Entry.FastHttp.{
  FastContext, FastHandler, fast_with_identifier, fail, fast_with_rate_limit, inside, fast_handler,
}

module _ {P : Type 0} {L : Type 0} {V : Type 0}
    (error : List ℕ → ℕ → RequestId.Headers × P → RequestId.Headers × P)
    (status_code body_length : P → ℕ) (new_limiter : ℕ → ℕ → L) (allow : ℕ → L → L × Bool)
    (c : Config) where
  -- The limiter is off, or lets the request through.
  abbrev pub passes : FastContext P L V → Bool
  passes ctx =
      is_nonpos c.rate_limit.rps
      || (limit (new_limiter c.rate_limit.rps c.rate_limit.burst) allow ctx.remote_ip ctx.time
          ctx.limiters).1

  -- A request that the limiter stops gets the error 429, and no line in the log; the proxy is not
  -- called.
  pub record IsStopped (ctx : FastContext P L V) (log : List Line)
      (e : (FastContext P L V × List Line) × Outcome) : Type 0 where
    pub ended : e.1 ≡ returned
    pub answer :
        (e.0.0.response_headers, e.0.0.response)
        ≡ error (bytes "Too Many Requests") 429 (ctx.response_headers, ctx.response)
    pub log_kept : e.0.1 ≡ log
    pub proxy_kept : e.0.0.proxy ≡ ctx.proxy

  -- What is sent back after the proxy's end: the response that it left, or the error 500 in its
  -- place after a panic.
  abbrev pub sent_back : (FastContext P L V × List Line) × Outcome → RequestId.Headers × P
  sent_back ((ctx, log), returned) = (ctx.response_headers, ctx.response)
  sent_back ((ctx, log), panicked) =
      error (bytes "Internal Server Error") 500 (ctx.response_headers, ctx.response)

  -- Any other request reaches the proxy, with its identifier added to the response's headers and to
  -- the user values and nothing else of the response changed; what the proxy leaves is sent back,
  -- or the error 500 if it panics; and there is one line, with what the proxy has answered.
  pub record IsProxied (proxy : FastHandler (FastContext P L V)) (ctx : FastContext P L V)
      (log : List Line) (e : (FastContext P L V × List Line) × Outcome) : Type 0 where
    pub start : FastContext P L V
    pub ended : e.1 ≡ returned
    pub state : e.0.0.proxy ≡ (proxy (start, log)).0.0.proxy
    pub answer : (e.0.0.response_headers, e.0.0.response) ≡ sent_back (proxy (start, log))
    pub one_line :
        e.0.1
        ≡ (proxy (start, log)).0.1
          ++ line
              (proxy (start, log)).1
              (status_code (proxy (start, log)).0.0.response)
              (body_length (proxy (start, log)).0.0.response)
            ∷ []
    pub response_kept : start.response ≡ ctx.response
    pub in_response :
        start.response_headers
        ≡ insert fast_id_header
            (or_generated (header fast_id_header ctx.request) ctx.generated)
            ctx.response_headers
    pub in_values :
        header "request_id" start.values
        ≡ or_generated (header fast_id_header ctx.request) ctx.generated
    pub untouched : start.proxy ≡ ctx.proxy

  abbrev pub IsServed :
      FastHandler (FastContext P L V)
      → FastContext P L V
      → List Line
      → Bool
      → (FastContext P L V × List Line) × Outcome
      → Type 0
  IsServed proxy ctx log true e = IsProxied proxy ctx log e
  IsServed proxy ctx log false e = IsStopped ctx log e

  -- The two middlewares around a handler's end.
  finished :
      (e : (FastContext P L V × List Line) × Outcome)
      → let all =
          after_fast_defer
            (fail error)
            (after_next (λ ctx. status_code ctx.response) (λ ctx. body_length ctx.response) e) in
        (all.1 ≡ returned)
        × (all.0.0.proxy ≡ e.0.0.proxy)
        × ((all.0.0.response_headers, all.0.0.response) ≡ sent_back e)
        × (all.0.1
            ≡ e.0.1 ++ line e.1 (status_code e.0.0.response) (body_length e.0.0.response) ∷ [])
  finished ((ctx, log), returned) = (refl, refl, refl, refl)
  finished ((ctx, log), panicked) = (refl, refl, refl, refl)

  inside-IsProxied :
      (proxy : FastHandler (FastContext P L V)) (ctx : FastContext P L V) (log : List Line)
      → IsProxied proxy ctx log (
          chain
            (fast_with_identifier proxy)
            (inside error status_code body_length new_limiter allow c)
            (ctx, log))
  unfolding chain chain_from fast_recovery fast_logging fast_with_identifier fast_request_id
  inside-IsProxied proxy ctx log =
      let id = or_generated (header fast_id_header ctx.request) ctx.generated in
      let start = record ctx {
        response_headers = insert fast_id_header id ctx.response_headers;
        values = insert "request_id" id ctx.values;
      } in
      let (ended, state, answer, one) = finished (proxy (start, log)) in
      record {
        start = start;
        ended = ended;
        state = state;
        answer = answer;
        one_line = one;
        response_kept = refl;
        in_response = refl;
        in_values = header-insert "request_id" id ctx.values;
        untouched = refl;
      }

  same_context :
      (proxy : FastHandler (FastContext P L V)) (ctx other : FastContext P L V) (log : List Line)
      (e : (FastContext P L V × List Line) × Outcome)
      → other.request ≡ ctx.request
      → other.generated ≡ ctx.generated
      → other.response_headers ≡ ctx.response_headers
      → other.response ≡ ctx.response
      → other.proxy ≡ ctx.proxy
      → IsProxied proxy other log e
      → IsProxied proxy ctx log e
  same_context proxy ctx other log e request generated headers response state h =
      let id : or_generated (header fast_id_header other.request) other.generated
          ≡ or_generated (header fast_id_header ctx.request) ctx.generated =
        rw (request, generated) refl in
      record {
        start = h.start;
        ended = h.ended;
        state = h.state;
        answer = h.answer;
        one_line = h.one_line;
        response_kept = h.response_kept ∙ response;
        in_response = h.in_response ∙ rw (id, headers) refl;
        in_values = h.in_values ∙ id;
        untouched = h.untouched ∙ state;
      }

  -- Every request to the handler of fasthttp is answered without a panic, whatever the proxy does:
  -- one that the limiter stops gets the error 429 and no line in the log, and any other reaches
  -- the proxy, with one identifier set in the response's headers and in the user values and the
  -- response else as it was; it is answered with the response that the proxy leaves, or, if that
  -- panics, with the error 500 put into it, and there is one line with what the proxy has
  -- answered.
  pub fast_handler-IsServed :
      (proxy : FastHandler (FastContext P L V)) (ctx : FastContext P L V) (log : List Line)
      → IsServed proxy ctx log
          (passes ctx)
          (fast_handler error status_code body_length new_limiter allow c proxy (ctx, log))
  unfolding fast_handler fast_with_rate_limit chain chain_from
  fast_handler-IsServed proxy ctx log =
      let fresh = new_limiter c.rate_limit.rps c.rate_limit.burst in
      let (limiters, ok) = limit fresh allow ctx.remote_ip ctx.time ctx.limiters in
      let counted = record ctx { limiters = limiters } in
      elim (Bool-cases (is_nonpos c.rate_limit.rps)) [
        | inl off ↦ rw off (inside-IsProxied proxy ctx log)
        | inr on ↦ elim (Bool-cases ok) [
          | inl passed ↦
              rw (on, passed)
                (same_context proxy ctx counted log _ refl refl refl refl refl
                  (inside-IsProxied proxy counted log))
          | inr stopped ↦
              rw (on, stopped)
                (record { ended = refl; answer = refl; log_kept = refl; proxy_kept = refl })
        ]
      ]
