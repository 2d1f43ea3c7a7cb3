-- ===== src/Errors.antt =====
-- internal/errors/errors.go. An `error` value is a tree of wrappings; `none` of Option is nil.
pub mod Retryable
use load_balancer.Base.{
  ℕ, Bool, true, false, ◌||◌, Option, none, some, String, str_eq, if◌then◌else◌, text_append,
}

-- The package's sentinels.
pub data Sentinel : Type 0 where
  no_healthy_backends backend_unhealthy circuit_open request_timeout connection_refused : Sentinel
  invalid_configuration rate_limit_exceeded invalid_request response_too_large : Sentinel
  request_too_large ip_blocked : Sentinel

-- ErrorType is a string type; `other_type` is any other string.
pub data ErrorType : Type 0 where
  backend network configuration security rate_limit validation : ErrorType
  other_type : String → ErrorType

-- A *ProxyError has its five fields; `wrapped` is an error of another package that unwraps to one
-- more, `plain` one that does not.
pub data GoError : Type 0 where
  sentinel : Sentinel → GoError
  proxy : ErrorType → ℕ → String → String → GoError → GoError
  wrapped : String → GoError → GoError
  plain : String → GoError

abbrev pub sentinel_text : Sentinel → String
sentinel_text no_healthy_backends = "no healthy backends available"
sentinel_text backend_unhealthy = "backend is unhealthy"
sentinel_text circuit_open = "circuit breaker is open"
sentinel_text request_timeout = "request timeout"
sentinel_text connection_refused = "connection refused"
sentinel_text invalid_configuration = "invalid configuration"
sentinel_text rate_limit_exceeded = "rate limit exceeded"
sentinel_text invalid_request = "invalid request"
sentinel_text response_too_large = "response too large"
sentinel_text request_too_large = "request too large"
sentinel_text ip_blocked = "IP address blocked"

-- The method Error.
unfoldable pub error_text : GoError → String
error_text (sentinel s) = sentinel_text s
error_text (proxy t status message host e) =
    let inner = error_text e in if str_eq message "" then inner else message
error_text (wrapped s e) = s
error_text (plain s) = s

-- Unwrap.
unfoldable pub unwrap : GoError → Option GoError
unwrap (sentinel s) = none
unwrap (proxy t status message host e) = some e
unwrap (wrapped s e) = some e
unwrap (plain s) = none

unfoldable pub new_proxy_error : GoError → ErrorType → ℕ → String → GoError
new_proxy_error e t status message = proxy t status message "" e

unfoldable pub new_backend_error : GoError → String → GoError
new_backend_error e host = proxy backend 502 (text_append "backend error: " host) host e

unfoldable pub new_network_error : GoError → GoError
new_network_error e = proxy network 502 "network error" "" e

unfoldable pub new_configuration_error : GoError → GoError
new_configuration_error e = proxy configuration 500 "configuration error" "" e

unfoldable pub new_security_error : GoError → String → GoError
new_security_error e message = proxy security 403 message "" e

unfoldable pub new_rate_limit_error : GoError
new_rate_limit_error = proxy rate_limit 429 "rate limit exceeded" "" (sentinel rate_limit_exceeded)

unfoldable pub new_validation_error : String → GoError
new_validation_error message = proxy validation 400 message "" (sentinel invalid_request)

abbrev same_sentinel : Sentinel → Sentinel → Bool
same_sentinel s t = str_eq (sentinel_text s) (sentinel_text t)

-- errors.Is(e, target) for a sentinel: it stands somewhere in the chain.
unfoldable pub errors_is : GoError → Sentinel → Bool
errors_is (sentinel s) t = same_sentinel s t
errors_is (proxy ty status message host e) t = errors_is e t
errors_is (wrapped s e) t = errors_is e t
errors_is (plain s) t = false

-- errors.As(e, &proxyErr): the type of the outermost ProxyError of the chain.
unfoldable pub errors_as : GoError → Option ErrorType
errors_as (sentinel s) = none
errors_as (proxy t status message host e) = some t
errors_as (wrapped s e) = errors_as e
errors_as (plain s) = none

-- The `switch` on the type: decided, or left to the sentinels.
abbrev pub by_type : Option ErrorType → Bool → Bool
by_type (some network) rest = true
by_type (some backend) rest = true
by_type (some configuration) rest = false
by_type (some security) rest = false
by_type (some validation) rest = false
by_type _ rest = rest

abbrev by_sentinel : GoError → Bool
by_sentinel e =
    errors_is e request_timeout || (errors_is e connection_refused || errors_is e backend_unhealthy)

unfoldable pub is_retryable : Option GoError → Bool
unfolding errors_is errors_as
is_retryable none = false
is_retryable (some e) = by_type (errors_as e) (by_sentinel e)
