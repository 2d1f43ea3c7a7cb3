-- ===== src/Server/Proxy.antt =====
-- internal/server/proxy.go: ServeHTTP, with the Go library's ReverseProxy between it and the two
-- handlers: it calls the transport, and then errorHandler on an error or modifyResponse on a
-- response. The director's rewriting of the request and the bodies are left out. Each handler gets
-- what the context holds: the backend, and the address of the breaker that `done` reports to. A
-- status 101, after which ReverseProxy hands the connection over and may yet call errorHandler, is
-- left out.
use load_balancer.Base.{ℕ, Bool, true, false, Option, none, some, String, leb, if◌then◌else◌}
use load_balancer.Balancer.Backend.{Ref, record_failure, record_success}
use load_balancer.Balancer.Strategy.{Strategy}
use load_balancer.Errors.{
  GoError, ErrorType, sentinel, proxy, wrapped, plain, backend, network, configuration, security,
  rate_limit, validation, other_type,
}
use load_balancer.Metrics.{record_request, record_error}
use load_balancer.Retry.{Env}
use load_balancer.Server.{Request, World, host_of, on_backend, to_metrics, report}
use load_balancer.Server.Selection.{select_available_backend}
use load_balancer.Server.Transport.{Response, round_trip}

pub record Context : Type 0 where
  pub backend : Option Ref
  pub done : Option ℕ

-- What the client gets: a response of the backend, or a status with a text. `fault` stands for a
-- nil response without an error, on which ReverseProxy would fault.
pub data Reply : Type 0 where
  forwarded : Response → Reply
  error_reply : ℕ → String → Reply
  fault : Reply

-- string(proxyErr.Type).
abbrev type_text : ErrorType → String
type_text backend = "backend"
type_text network = "network"
type_text configuration = "configuration"
type_text security = "security"
type_text rate_limit = "rate_limit"
type_text validation = "validation"
type_text (other_type s) = s

-- The answer of errorHandler to an error: the status, the type it records, the text.
abbrev pub explain : GoError → ℕ × String × String
explain (proxy t status message host e) = (status, type_text t, message)
explain (sentinel s) = (502, "bad_gateway", "Bad Gateway: Upstream server unreachable")
explain (wrapped s e) = (502, "bad_gateway", "Bad Gateway: Upstream server unreachable")
explain (plain s) = (502, "bad_gateway", "Bad Gateway: Upstream server unreachable")

module _ {S : Type 0} where
  abbrev pub report_to : Option ℕ → Bool → ℕ → World S → World S
  report_to none success now w = w
  report_to (some a) success now w = report a success now w

  abbrev fail_backend : Option Ref → World S → World S
  fail_backend none w = w
  fail_backend (some be) w = on_backend record_failure be w

  abbrev succeed_backend : Option Ref → World S → World S
  succeed_backend none w = w
  succeed_backend (some be) w = on_backend record_success be w

  abbrev name_of : Option Ref → World S → String
  name_of none w = "unknown"
  name_of (some be) w = host_of w be

  unfoldable pub modify_response : Context → ℕ → Response → World S → World S
  unfolding report record_failure record_success
  modify_response ctx now r w =
      if leb 500 r.status
      then report_to ctx.done false now (fail_backend ctx.backend w)
      else report_to ctx.done true now (succeed_backend ctx.backend w)

  module _ (status_text : ℕ → String) where
    unfoldable pub error_handler : Context → Request → ℕ → GoError → World S → World S × Reply
    unfolding report record_failure
    error_handler ctx req now e w =
        let w' = fail_backend ctx.backend (report_to ctx.done false now w) in
        let host = name_of ctx.backend w' in
        let (status, kind, message) = explain e in
        (
          to_metrics
              (λ c.
                record_error host kind
                  (record_request status_text host status 0 req.method req.content_length 0 c))
              w',
          error_reply status message,
        )

    -- ReverseProxy.ServeHTTP, on what the transport returned.
    unfoldable pub finish :
        Context → Request → ℕ → Option Response → Option GoError → World S → World S × Reply
    unfolding error_handler modify_response
    finish ctx req now resp (some e) w = error_handler ctx req now e w
    finish ctx req now none none w = (w, fault)
    finish ctx req now (some r) none w = (modify_response ctx now r w, forwarded r)

    unfoldable pub proxied :
        Ref → ℕ → Request → Env Response GoError → ℕ → ℕ → World S → World S × Reply
    unfolding finish round_trip
    proxied be a req env dur now w =
        let (w', resp, err) = round_trip status_text be req env dur w in
        finish (record { backend = some be; done = some a }) req now resp err w'

    unfoldable pub turn_away : Request → World S → World S × Reply
    turn_away req w = (
      to_metrics
          (λ c.
            record_error "none" "all_backends_unavailable"
              (record_request status_text "none" 503 0 req.method req.content_length 0 c))
          w,
      error_reply 503 "Service Unavailable: No healthy backends available",
    )

    abbrev pub dispatch :
        Request
        → (Ref → Env Response GoError)
        → ℕ
        → ℕ
        → Option (Ref × ℕ)
        → World S
        → World S × Reply
    dispatch req env dur now none w = turn_away req w
    dispatch req env dur now (some (be, a)) w = proxied be a req (env be) dur now w

    -- ServeHTTP; `env` is what each backend answers.
    unfoldable pub serve_http :
        Strategy S
        → (ℕ → ℕ)
        → Request
        → (Ref → Env Response GoError)
        → ℕ
        → ℕ
        → World S
        → World S × Reply
    unfolding select_available_backend proxied turn_away
    serve_http st clock req env dur now w =
        let (w', chosen) = select_available_backend st clock req w in
        dispatch req env dur now chosen w'
