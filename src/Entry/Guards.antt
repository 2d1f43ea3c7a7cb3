-- ===== src/Entry/Guards.antt =====
-- Which requests the handler of runNetHttp in cmd/proxy/net.go lets through to the proxy, and what
-- the others get.
pub mod Stages
pub mod Served
pub mod Cors
use load_balancer.Base.{
  ℕ, ◌-◌, ◌≡◌, Bool, true, false, not, Option, none, some, String, List, [], str_eq,
}
use load_balancer.Config
use load_balancer.Config.{Config}
use load_balancer.Tracing.RequestId
use load_balancer.Tracing.RequestId.{
  Context, request_id_middleware, set_request_id, header, id_header, or_generated,
}
use load_balancer.Tracing.Identified.{header-insert}
use load_balancer.Middleware.Chain.{chain, chain_from}
use load_balancer.Middleware.Exchange.{
  Out, connection, limited, Outcome, returned, panicked, Exchange, Handler, Middleware, emit,
  http_error, size_limit, client_status, Line, request_line, http_error-keeps, http_error-status,
}
use load_balancer.Middleware.IpFilter.{ip_filter}
use load_balancer.Middleware.RateLimit.{limit}
use load_balancer.Middleware.Recovery.{recovery, after_defer}
use load_balancer.Middleware.Logging.{logging, after_call, new_recorder}
use load_balancer.Middleware.Security
use load_balancer.Middleware.Security.{secure, Next, no_content, calls_next}
use load_balancer.Entry.NetHttp.{
  NetRequest, Net, default_security_config, security_config, some_item, apply_if, with_identifier,
  secured, with_security, limited_address, admitted, with_rate_limit, with_ip_filter, ip_config,
  net_handler,
}

-- The identifier of a request.
abbrev pub identifier_of : NetRequest → List ℕ
identifier_of r = or_generated (header id_header r.headers) r.generated

-- The guard of each middleware, before the answer of those inside it.
abbrev pub Guard : Type 0 → Type 0
Guard L = NetRequest → List (String × L) → Option ℕ

abbrev pub and_then : Option ℕ → Option ℕ → Option ℕ
and_then (some code) rest = some code
and_then none rest = rest

abbrev pub unless : Bool → ℕ → Option ℕ
unless true code = none
unless false code = some code

-- A guard that stands only under a test.
abbrev pub if_on : Bool → Option ℕ → Option ℕ
if_on true answer = answer
if_on false answer = none

abbrev pub limit_guard : {L : Type 0} → (String → Option String) → L → (ℕ → L → L × Bool) → Guard L
limit_guard host_part fresh allow r limiters =
    unless (limit fresh allow (limited_address host_part r) r.time limiters).1 429

abbrev pub preflight_guard : NetRequest → Option ℕ
preflight_guard r = unless (not (str_eq r.method "OPTIONS")) 204

module _ {L : Type 0} {V : Type 0} where
  -- Two exchanges at the start of a handler that differ in nothing but response headers and writer.
  pub record IsAlike (x y : Exchange (Net L V)) : Type 0 where
    pub sent : y.sent ≡ x.sent
    pub log : y.log ≡ x.log
    pub limiters : y.state.limiters ≡ x.state.limiters
    pub proxy : y.state.proxy ≡ x.state.proxy

  -- A request refused with a status: nothing has reached the proxy.
  pub record IsRefused (code : ℕ) (x : Exchange (Net L V)) (e : Exchange (Net L V) × Outcome)
      : Type 0 where
    pub ended : e.1 ≡ returned
    pub status : client_status e.0.sent ≡ code
    pub log : e.0.log ≡ x.log
    pub proxy : e.0.state.proxy ≡ x.state.proxy

  -- A request let through: the proxy is called, with the identifier in the context and in the
  -- response's headers, and with the state as it was.
  pub record IsCalled (proxy : Handler NetRequest (Net L V)) (r : NetRequest)
      (x : Exchange (Net L V)) (e : Exchange (Net L V) × Outcome) : Type 0 where
    pub out : Out
    pub start : Exchange (Net L V)
    pub called :
        e ≡ proxy out (record r { context = set_request_id r.context (identifier_of r) }) start
    pub identified : header id_header start.state.identifier ≡ identifier_of r
    pub fresh : start.sent ≡ []
    pub log : start.log ≡ x.log
    pub untouched : start.state.proxy ≡ x.state.proxy

  abbrev pub IsHandled :
      Handler NetRequest (Net L V)
      → NetRequest
      → Exchange (Net L V)
      → Option ℕ
      → Exchange (Net L V) × Outcome
      → Type 0
  IsHandled proxy r x (some code) e = IsRefused code x e
  IsHandled proxy r x none e = IsCalled proxy r x e
