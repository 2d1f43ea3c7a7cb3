-- ===== src/Server/Transport.antt =====
-- internal/server/proxy.go, countingTransport.RoundTrip. What the base transport answers to each
-- attempt is given, as Retry has it; `dur` is the time taken. A status is not negative.
use load_balancer.Base.{
  ℕ, Bool, true, false, ◌&&◌, ◌||◌, Option, none, some, String, List, [], ◌∷◌, str_eq, leb,
  if◌then◌else◌, add64, sub64, is_neg,
}
use text.Mathlib.Text.{find?}
use load_balancer.Balancer.Backend.{Ref, active_connections, increment_conn, decrement_conn}
use load_balancer.Errors.{GoError, plain, wrapped, error_text}
use load_balancer.Metrics.{
  Collector, set_backend_active, set_active, record_retry, record_request, record_error,
}
use load_balancer.Retry.{Attempt, ok, fail, Env, Config, Outcome, retry_with_data}
use load_balancer.Server.{Request, World, host_of, on_backend, to_metrics}

pub record Response : Type 0 where
  pub status : ℕ
  pub content_length : ℕ  -- int64

abbrev pub is_idempotent : String → Bool
is_idempotent method = str_eq method "GET" || (str_eq method "HEAD" || str_eq method "OPTIONS")

abbrev pub is_gateway_error : ℕ → Bool
is_gateway_error status = leb 502 status && leb status 504

-- &net.OpError{Op: "dial", Net: "tcp", Err: io.EOF}.
abbrev pub op_error : GoError
op_error = wrapped "dial tcp: EOF" (plain "EOF")

-- The function that is retried, on the base transport's answer.
abbrev pub judge : Attempt Response GoError → Attempt (Option Response) GoError
judge (fail e) = fail e
judge (ok r) = if is_gateway_error r.status then fail op_error else ok (some r)

abbrev pub retry_config : Config GoError
retry_config = record { max_retries = 2; retryable = λ e. true; tells = true }

abbrev pub judged : Env Response GoError → Env (Option Response) GoError
judged env = record { call = λ i. judge (env.call i); done = env.done }

abbrev pub single : Attempt Response GoError → Outcome (Option Response) GoError
single (ok r) = record { result = some r; error = none; calls = 1; told = [] }
single (fail e) = record { result = none; error = some e; calls = 1; told = [] }

-- The attempts: with retries for an idempotent method, or one.
unfoldable pub forward : Request → Env Response GoError → Outcome (Option Response) GoError
unfolding retry_with_data
forward req env =
    if is_idempotent req.method
    then retry_with_data none (judged env) retry_config
    else single (env.call 0)

-- The calls of OnRetry.
abbrev pub record_retries : String → List (ℕ × Option GoError) → Collector → Collector
record_retries host [] c = c
record_retries host ((attempt, e) ∷ told) c = record_retries host told (record_retry host attempt c)

abbrev pub not_negative : ℕ → ℕ
not_negative n = if is_neg n then 0 else n

abbrev pub status_of : Option Response → ℕ
status_of none = 502
status_of (some r) = r.status

abbrev pub size_of : Option Response → ℕ
size_of none = 0
size_of (some r) = not_negative r.content_length

abbrev contains : String → String → Bool
contains s t = elim (find? s t) [ none ↦ false | some i ↦ true ]

abbrev error_kind : GoError → String
error_kind e = if contains (error_text e) "timeout" then "timeout" else "transport_error"

abbrev pub record_failed : String → Option GoError → Collector → Collector
record_failed host none c = c
record_failed host (some e) c = record_error host (error_kind e) c

module _ {S : Type 0} where
  -- The gauge of the backend's connections.
  abbrev pub show_conns : Ref → World S → World S
  show_conns be w =
      to_metrics (set_backend_active (host_of w be) (active_connections (w.heap be))) w

  -- Up to the call: the counters go up; the aggregate is read, then stored twice.
  unfoldable pub begin_trip : Ref → World S → World S
  begin_trip be w =
      let w' = show_conns be (on_backend increment_conn be w) in
      let active = add64 w'.metrics.active_conns 1 in
      to_metrics (set_active active) (to_metrics (set_active active) w')

  -- After the call.
  unfoldable pub end_trip : Ref → World S → World S
  end_trip be w =
      let w' = show_conns be (on_backend decrement_conn be w) in
      to_metrics (set_active (sub64 w'.metrics.active_conns 1)) w'

  -- RoundTrip: the response and the error returned.
  module _ (status_text : ℕ → String) where
    unfoldable pub round_trip :
        Ref
        → Request
        → Env Response GoError
        → ℕ
        → World S
        → World S × Option Response × Option GoError
    unfolding begin_trip end_trip forward error_text
    round_trip be req env dur w =
        let host = host_of w be in
        let o = forward req env in
        let w' = end_trip be (to_metrics (record_retries host o.told) (begin_trip be w)) in
        let count =
          record_request status_text host (status_of o.result) dur req.method
            (not_negative req.content_length) (size_of o.result) in
        (to_metrics (record_failed host o.error) (to_metrics count w'), o.result, o.error)
