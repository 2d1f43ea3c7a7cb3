-- ===== src/Entry/NetHttp.antt =====
-- cmd/proxy/net.go, runNetHttp: the handler that it puts together around the proxy. The listeners and
-- the shutdown are not modelled. Parameters: the package net, as in Middleware/IpFilter; the token
-- bucket, as in Middleware/RateLimit, from the configured rate and burst.
use load_balancer.Base.{
  ℕ, Bool, true, false, not, ◌||◌, Option, String, List, [], ◌∷◌, if◌then◌else◌, is_nonpos, bytes,
}
use load_balancer.Config.{Config}
use load_balancer.Tracing.RequestId
use load_balancer.Tracing.RequestId.{Context, request_id_middleware}
use load_balancer.Middleware.Chain.{chain}
use load_balancer.Middleware.Exchange.{
  Out, header, Outcome, returned, Exchange, Handler, Middleware, emit, http_error, size_limit,
}
use load_balancer.Middleware.IpFilter
use load_balancer.Middleware.IpFilter.{ip_filter, Client, or_whole}
use load_balancer.Middleware.RateLimit.{limit}
use load_balancer.Middleware.Recovery.{recovery}
use load_balancer.Middleware.Logging.{logging}
use load_balancer.Middleware.Security
use load_balancer.Middleware.Security.{secure, Next, no_content, calls_next}

-- What the handlers read of a request: `time` is when it is served, and `generated` what
-- generateRequestID would return.
pub record NetRequest : Type 0 where
  pub method : String
  pub origin : String
  pub client : Client
  pub headers : RequestId.Headers
  pub context : Context
  pub generated : List ℕ
  pub time : ℕ

-- What they change: the response's headers, where that of the identifier, which no other
-- middleware sets, is kept apart; the limiters; and the state of the proxy.
pub record Net (L : Type 0) (V : Type 0) : Type 0 where
  pub response : Security.Headers
  pub identifier : RequestId.Headers
  pub limiters : List (String × L)
  pub proxy : V

-- DefaultSecurityConfig.
abbrev pub default_security_config : Security.Config
default_security_config = record {
  enable_cors = true;
  allowed_origins = "*" ∷ [];
  allowed_methods = "GET" ∷ "POST" ∷ "PUT" ∷ "DELETE" ∷ "OPTIONS" ∷ "PATCH" ∷ [];
  allowed_headers =
      "Accept" ∷ "Authorization" ∷ "Content-Type" ∷ "X-CSRF-Token" ∷ "X-Request-ID" ∷ [];
  expose_headers = "X-Request-ID" ∷ [];
  allow_credentials = false;
  max_age = 86400;
  enable_security_headers = true;
}

-- securityConfig, as runNetHttp fills it in.
unfoldable pub security_config : Config → Security.Config
security_config c =
    if c.security.enable_cors
    then record default_security_config {
      enable_cors = true;
      allowed_origins = c.security.allowed_origins;
      allowed_methods = c.security.allowed_methods;
      allowed_headers = c.security.allowed_headers;
    }
    else default_security_config

abbrev pub some_item : List String → Bool
some_item [] = false
some_item (_ ∷ _) = true

-- `handler = m(handler)` under a test.
abbrev pub apply_if {ℓ} : {H : Type ℓ} → Bool → (H → H) → H → H
apply_if true m h = m h
apply_if false m h = h

module _ {L : Type 0} {V : Type 0} where
  -- RequestIDMiddleware on these requests.
  unfoldable pub with_identifier : Middleware NetRequest (Net L V)
  with_identifier h w r x =
      let next = λ (out headers : RequestId.Headers) (ctx : Context).
        h w (record r { context = ctx })
          (record x { state = record x.state { identifier = out } }) in
      request_id_middleware r.generated next x.state.identifier r.headers r.context

  abbrev pub secured :
      Handler NetRequest (Net L V)
      → Out
      → NetRequest
      → Exchange (Net L V)
      → Next
      → Exchange (Net L V) × Outcome
  secured h w r x no_content = (emit w (header 204) x, returned)
  secured h w r x calls_next = h w r x

  -- SecurityMiddleware on these requests.
  unfoldable pub with_security : Security.Config → Middleware NetRequest (Net L V)
  with_security config h w r x =
      let (headers, next) = secure config r.method r.origin x.state.response in
      secured h w r (record x { state = record x.state { response = headers } }) next

-- The client's address, for the limiter.
abbrev pub limited_address : (String → Option String) → NetRequest → String
limited_address host_part r = or_whole r.client.remote_addr (host_part r.client.remote_addr)

module _ {L : Type 0} {V : Type 0} where
  abbrev pub admitted :
      Handler NetRequest (Net L V)
      → Out
      → NetRequest
      → Exchange (Net L V)
      → Bool
      → Exchange (Net L V) × Outcome
  admitted h w r x true = h w r x
  admitted h w r x false = (http_error w (bytes "Too Many Requests") 429 x, returned)

  -- RateLimiter.Middleware on these requests.
  unfoldable pub with_rate_limit :
      (String → Option String) → L → (ℕ → L → L × Bool) → Middleware NetRequest (Net L V)
  with_rate_limit host_part fresh allow h w r x =
      let (limiters, ok) =
        limit fresh allow (limited_address host_part r) r.time x.state.limiters in
      admitted h w r (record x { state = record x.state { limiters = limiters } }) ok

-- The filter's configuration.
abbrev pub ip_config : Config → IpFilter.Config
ip_config c = record { whitelist = c.security.ip_whitelist; blacklist = c.security.ip_blacklist }

module _ {Ip : Type 0} {L : Type 0} (parse_ip : String → Option Ip)
    (cidr : String → Option (Ip → Bool)) (host_part : String → Option String)
    (first_field : String → String) where
  -- IPFilterMiddleware on these requests.
  unfoldable pub with_ip_filter : {V : Type 0} → IpFilter.Config → Middleware NetRequest (Net L V)
  with_ip_filter config h w r x =
      if ip_filter parse_ip cidr host_part first_field config r.client
      then h w r x
      else (http_error w (bytes "Forbidden") 403 x, returned)

module _ {Ip : Type 0} {L : Type 0} (parse_ip : String → Option Ip)
    (cidr : String → Option (Ip → Bool)) (host_part : String → Option String)
    (first_field : String → String) (new_limiter : ℕ → ℕ → L) (allow : ℕ → L → L × Bool) where
  -- The statements of runNetHttp from `handler = proxy` to Chain, in their order.
  unfoldable pub net_handler :
      {V : Type 0} → Config → Handler NetRequest (Net L V) → Handler NetRequest (Net L V)
  net_handler c proxy =
      let h1 = with_identifier proxy in
      let fresh = new_limiter c.rate_limit.rps c.rate_limit.burst in
      let h2 =
        apply_if (not (is_nonpos c.rate_limit.rps)) (with_rate_limit host_part fresh allow) h1 in
      let h3 = with_security (security_config c) h2 in
      let filters = some_item c.security.ip_whitelist || some_item c.security.ip_blacklist in
      let h4 =
        apply_if filters (with_ip_filter parse_ip cidr host_part first_field (ip_config c)) h3 in
      let sizes =
        not (is_nonpos c.security.max_request_size)
        || not (is_nonpos c.security.max_response_size) in
      let h5 = apply_if sizes (size_limit c.security.max_response_size) h4 in
      chain h5 (recovery ∷ logging ∷ [])
