-- ===== src/Entry/Guards/Served.antt =====
-- The whole handler of runNetHttp in cmd/proxy/net.go: which requests reach the proxy.
use load_balancer.Base.{
  ℕ, ◌≡◌, ap, ◌∙◌, Bool, true, false, not, ◌||◌, Option, none, String, [], is_nonpos,
}
use load_balancer.Config.{Config}
use load_balancer.Tracing.RequestId.{set_request_id, header, id_header}
use load_balancer.Middleware.Chain.{chain, chain_from}
use load_balancer.Middleware.Exchange.{
  Out, connection, Outcome, returned, panicked, Exchange, Handler, size_limit, client_status,
  request_line, log_line,
}
use load_balancer.Middleware.IpFilter.{ip_filter}
use load_balancer.Middleware.Recovery.{
  recovery, after_defer, IsAnswer, after_defer-IsAnswer, answer,
}
use load_balancer.Middleware.Logging.{logging, after_call, new_recorder}
use load_balancer.Entry.NetHttp.{
  NetRequest, Net, security_config, some_item, apply_if, with_identifier, with_security,
  with_rate_limit, with_ip_filter, ip_config, net_handler,
}
use load_balancer.Entry.Guards.{
  identifier_of, Guard, and_then, unless, if_on, limit_guard, preflight_guard, IsCalled,
}
use load_balancer.Entry.Guards.Stages.{
  IsGuarded, with_identifier-IsHandled, with_rate_limit-IsGuarded, with_security-IsGuarded,
  size_limit-IsGuarded, apply_if-IsGuarded, with_ip_filter-IsGuarded,
}

module _ {Ip : Type 0} {L : Type 0} (parse_ip : String → Option Ip)
    (cidr : String → Option (Ip → Bool)) (host_part : String → Option String)
    (first_field : String → String) (new_limiter : ℕ → ℕ → L) (allow : ℕ → L → L × Bool)
    (c : Config) where
  -- Who refuses a request, and with which status: the address filter, then CORS's preflight, then
  -- the limiter of the client.
  abbrev pub refused_with : Guard L
  refused_with r limiters =
      let fresh = new_limiter c.rate_limit.rps c.rate_limit.burst in
      let filters = some_item c.security.ip_whitelist || some_item c.security.ip_blacklist in
      let passes = ip_filter parse_ip cidr host_part first_field (ip_config c) r.client in
      and_then (if_on filters (unless passes 403)) (
        and_then (preflight_guard r) (
          and_then
            (if_on (not (is_nonpos c.rate_limit.rps))
              (limit_guard host_part fresh allow r limiters))
            none))

  -- The handler inside Recovery and Logging.
  unfoldable pub inner_handler :
      {V : Type 0} → Handler NetRequest (Net L V) → Handler NetRequest (Net L V)
  inner_handler proxy =
      let fresh = new_limiter c.rate_limit.rps c.rate_limit.burst in
      let filters = some_item c.security.ip_whitelist || some_item c.security.ip_blacklist in
      let sizes =
        not (is_nonpos c.security.max_request_size)
        || not (is_nonpos c.security.max_response_size) in
      apply_if sizes (size_limit c.security.max_response_size) (
        apply_if filters (with_ip_filter parse_ip cidr host_part first_field (ip_config c)) (
          with_security (security_config c) (
            apply_if (not (is_nonpos c.rate_limit.rps)) (with_rate_limit host_part fresh allow)
              (with_identifier proxy))))

  sized-IsGuarded :
      {V : Type 0}
      → (sizes : Bool) (proxy h : Handler NetRequest (Net L V)) (guard : Guard L)
      → IsGuarded proxy guard h
      → IsGuarded proxy guard (apply_if sizes (size_limit c.security.max_response_size) h)
  sized-IsGuarded true proxy h guard inner = size_limit-IsGuarded _ proxy h guard inner
  sized-IsGuarded false proxy h guard inner = inner

  inner_handler-IsGuarded :
      {V : Type 0}
      → (proxy : Handler NetRequest (Net L V)) → IsGuarded proxy refused_with (inner_handler proxy)
  unfolding inner_handler IsGuarded
  inner_handler-IsGuarded proxy =
      let fresh = new_limiter c.rate_limit.rps c.rate_limit.burst in
      let filters = some_item c.security.ip_whitelist || some_item c.security.ip_blacklist in
      let limits = not (is_nonpos c.rate_limit.rps) in
      let limit_all = with_rate_limit host_part fresh allow in
      let filter_all = with_ip_filter parse_ip cidr host_part first_field (ip_config c) in
      let passes =
        λ (r : NetRequest). ip_filter parse_ip cidr host_part first_field (ip_config c) r.client in
      let sizes =
        not (is_nonpos c.security.max_request_size)
        || not (is_nonpos c.security.max_response_size) in
      let h1 = with_identifier proxy in
      let h2 = apply_if limits limit_all h1 in
      let h3 = with_security (security_config c) h2 in
      let g1 = with_identifier-IsHandled proxy in
      let g2 =
        apply_if-IsGuarded limits limit_all (limit_guard host_part fresh allow) (λ r limiters. none)
          proxy h1 g1 (with_rate_limit-IsGuarded host_part fresh allow proxy h1 g1) in
      let g3 = with_security-IsGuarded c proxy h2 _ g2 in
      let g4 =
        apply_if-IsGuarded filters filter_all (λ r limiters. unless (passes r) 403) _ proxy h3 g3
          (with_ip_filter-IsGuarded parse_ip cidr host_part first_field c proxy h3 _ g3) in
      sized-IsGuarded sizes proxy (apply_if filters filter_all h3) refused_with g4

  pub ended_state :
      {V : Type 0}
      → (e : Exchange (Net L V) × Outcome)
      → IsAnswer e (after_defer connection (after_call new_recorder e))
  unfolding new_recorder
  ended_state (y, returned) = after_defer-IsAnswer (log_line (request_line 200 0) y, returned)
  ended_state (y, panicked) = after_defer-IsAnswer (y, panicked)

  -- A request that no guard refuses, with nothing sent before, reaches the proxy with nothing sent
  -- and the state of the proxy as it was, and with its identifier, its own or the generated one,
  -- in the response's headers and in the context; what the proxy leaves is the state after the
  -- whole handler, which returns even if the proxy panics, and the client's status is that of what
  -- the proxy sent first, or 500 if it panics before it sends anything.
  pub net_called :
      {V : Type 0}
      → (proxy : Handler NetRequest (Net L V)) (r : NetRequest) (x : Exchange (Net L V))
      → x.sent ≡ []
      → refused_with r x.state.limiters ≡ none
      → let e =
          net_handler parse_ip cidr host_part first_field new_limiter allow c proxy connection r
            x in
        (out : Out) × (start : Exchange (Net L V)) × (e.0.state
          ≡ (proxy out
              (record r { context = set_request_id r.context (identifier_of r) })
              start).0.state)
        × (header id_header start.state.identifier ≡ identifier_of r)
        × (start.sent ≡ [])
        × (start.state.proxy ≡ x.state.proxy)
        × (e.1 ≡ returned)
        × (client_status e.0.sent
            ≡ answer (
                proxy out
                  (record r { context = set_request_id r.context (identifier_of r) })
                  start))
  unfolding net_handler chain chain_from recovery logging inner_handler IsGuarded new_recorder
  net_called {V = V} proxy r x none_sent passes =
      let h : IsCalled proxy r x (inner_handler proxy connection r x) =
        rw passes at (inner_handler-IsGuarded proxy connection r x none_sent) in
      let (ends, status, state) = ended_state (inner_handler proxy connection r x) in
      (
        h.out,
        h.start,
        state ∙ ap (λ (e : Exchange (Net L V) × Outcome). e.0.state) h.called,
        h.identified,
        h.fresh,
        h.untouched,
        ends,
        status ∙ ap (λ (e : Exchange (Net L V) × Outcome). answer e) h.called,
      )
