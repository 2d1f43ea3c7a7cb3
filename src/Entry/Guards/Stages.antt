-- ===== src/Entry/Guards/Stages.antt =====
-- Each middleware that runNetHttp in cmd/proxy/net.go puts around the proxy, as a guard before it.
use load_balancer.Base.{
  ℕ, ◌≡◌, refl, ap, ◌∙◌, inl, inr, Bool, true, false, Option, none, some, String, List, [], arith,
  str_eq, if◌then◌else◌, Bool-cases, is_nonpos, bytes,
}
use load_balancer.Config.{Config}
use load_balancer.Tracing.RequestId.{request_id_middleware, id_header}
use load_balancer.Tracing.Identified.{header-insert}
use load_balancer.Middleware.Exchange.{
  header as sends, emit-keeps, emit-status, Out, limited, Outcome, returned, Exchange, Handler,
  Middleware, emit, http_error, size_limit, http_error-keeps, http_error-status,
}
use load_balancer.Middleware.SizeLimit.{new_writer}
use load_balancer.Middleware.IpFilter.{ip_filter}
use load_balancer.Middleware.RateLimit.{limit}
use load_balancer.Middleware.Security
use load_balancer.Middleware.Security.{secure, Next, no_content, calls_next}
use load_balancer.Entry.NetHttp.{
  NetRequest, Net, security_config, apply_if, with_identifier, with_security, limited_address,
  with_rate_limit, with_ip_filter, ip_config,
}
use load_balancer.Entry.Guards.{
  identifier_of, Guard, and_then, unless, if_on, limit_guard, preflight_guard, IsAlike, IsRefused,
  IsHandled,
}

pub cors_on : (c : Config) → (security_config c).enable_cors ≡ true
unfolding security_config
cors_on c = ground arith

pub secure-next :
    (config : Security.Config) (method origin : String) (h : Security.Headers)
    → config.enable_cors ≡ true
    → (secure config method origin h).1
      ≡ (if str_eq method "OPTIONS" then no_content else calls_next)
unfolding secure
secure-next config method origin h on = rw on refl

module _ {L : Type 0} {V : Type 0} where
  alike-IsHandled :
      (proxy : Handler NetRequest (Net L V)) (r : NetRequest) (x y : Exchange (Net L V))
      (answer : Option ℕ) (e : Exchange (Net L V) × Outcome)
      → IsAlike x y
      → IsHandled proxy r y answer e
      → IsHandled proxy r x answer e
  alike-IsHandled proxy r x y (some code) e a h = record {
    ended = h.ended;
    status = h.status;
    log = h.log ∙ a.log;
    proxy = h.proxy ∙ a.proxy;
  }
  alike-IsHandled proxy r x y none e a h = record {
    out = h.out;
    start = h.start;
    called = h.called;
    identified = h.identified;
    fresh = h.fresh;
    log = h.log ∙ a.log;
    untouched = h.untouched ∙ a.proxy;
  }

  -- http.Error as a refusal.
  http_error-IsRefused :
      (w : Out) (message : List ℕ) (code : ℕ) (x : Exchange (Net L V))
      → x.sent ≡ []
      → IsRefused code x (http_error w message code x, returned)
  http_error-IsRefused w message code x fresh =
      let (log, state) = http_error-keeps w message code x in
      record {
        ended = refl;
        status = http_error-status w message code x fresh;
        log = log;
        proxy = ap (λ (s : Net L V). s.proxy) state;
      }

  pub with_identifier-IsHandled :
      (proxy : Handler NetRequest (Net L V)) (w : Out) (r : NetRequest) (x : Exchange (Net L V))
      → x.sent ≡ []
      → IsHandled proxy r x none (with_identifier proxy w r x)
  unfolding with_identifier request_id_middleware
  with_identifier-IsHandled proxy w r x fresh = record {
    out = w;
    start = _;
    called = refl;
    identified = header-insert id_header (identifier_of r) x.state.identifier;
    fresh = fresh;
    log = refl;
    untouched = refl;
  }

  -- What a handler does with every request that finds nothing sent yet.
  unfoldable pub IsGuarded :
      Handler NetRequest (Net L V) → Guard L → Handler NetRequest (Net L V) → Type 0
  IsGuarded proxy guard h =
      (w : Out) (r : NetRequest) (x : Exchange (Net L V))
      → x.sent ≡ []
      → IsHandled proxy r x (guard r x.state.limiters) (h w r x)

  pub with_rate_limit-IsGuarded :
      (host_part : String → Option String) (fresh : L) (allow : ℕ → L → L × Bool)
      (proxy h : Handler NetRequest (Net L V))
      → IsGuarded proxy (λ r limiters. none) h
      → IsGuarded proxy
          (λ r limiters. and_then (limit_guard host_part fresh allow r limiters) none)
          (with_rate_limit host_part fresh allow h)
  unfolding IsGuarded with_rate_limit
  with_rate_limit-IsGuarded host_part fresh allow proxy h inner w r x none_sent =
      let (limiters, ok) =
        limit fresh allow (limited_address host_part r) r.time x.state.limiters in
      let y = record x { state = record x.state { limiters = limiters } } in
      elim (Bool-cases ok) [
        | inl e ↦ rw e (
            let c = inner w r y none_sent in
            record {
              out = c.out;
              start = c.start;
              called = c.called;
              identified = c.identified;
              fresh = c.fresh;
              log = c.log;
              untouched = c.untouched;
            })
        | inr e ↦ rw e (
            let c = http_error-IsRefused w (bytes "Too Many Requests") 429 y none_sent in
            record { ended = c.ended; status = c.status; log = c.log; proxy = c.proxy })
      ]

  preflight-IsRefused :
      (w : Out) (x y : Exchange (Net L V))
      → y.sent ≡ []
      → IsAlike x y
      → IsRefused 204 x (emit w (sends 204) y, returned)
  preflight-IsRefused w x y none_sent a =
      let (log, state) = emit-keeps w (sends 204) y in
      record {
        ended = refl;
        status = emit-status w 204 y none_sent;
        log = log ∙ a.log;
        proxy = ap (λ (s : Net L V). s.proxy) state ∙ a.proxy;
      }

  pub with_security-IsGuarded :
      (c : Config) (proxy h : Handler NetRequest (Net L V)) (guard : Guard L)
      → IsGuarded proxy guard h
      → IsGuarded proxy
          (λ r limiters. and_then (preflight_guard r) (guard r limiters))
          (with_security (security_config c) h)
  unfolding IsGuarded with_security
  with_security-IsGuarded c proxy h guard inner w r x none_sent =
      let config = security_config c in
      let y = record x {
        state = record x.state { response = (secure config r.method r.origin x.state.response).0 };
      } in
      let next = secure-next config r.method r.origin x.state.response (cors_on c) in
      let alike : IsAlike x y = record { sent = refl; log = refl; limiters = refl; proxy = refl } in
      elim (Bool-cases (str_eq r.method "OPTIONS")) [
        | inl e ↦ rw (next, e) (preflight-IsRefused w x y none_sent alike)
        | inr e ↦ rw (next, e) (alike-IsHandled proxy r x y _ _ alike (inner w r y none_sent))
      ]

  pub size_limit-IsGuarded :
      (max_size : ℕ) (proxy h : Handler NetRequest (Net L V)) (guard : Guard L)
      → IsGuarded proxy guard h
      → IsGuarded proxy guard (size_limit max_size h)
  unfolding IsGuarded size_limit
  size_limit-IsGuarded max_size proxy h guard inner w r x none_sent =
      let y = record x { limiter = new_writer max_size } in
      let alike : IsAlike x y = record { sent = refl; log = refl; limiters = refl; proxy = refl } in
      elim (Bool-cases (is_nonpos max_size)) [
        | inl e ↦ rw e (inner w r x none_sent)
        | inr e ↦ rw e (
            alike-IsHandled proxy r x y (guard r x.state.limiters) _ alike
              (inner limited r y none_sent))
      ]

  -- A middleware under a test, as a guard under it.
  pub apply_if-IsGuarded :
      (test : Bool) (m : Middleware NetRequest (Net L V)) (mine rest : Guard L)
      (proxy h : Handler NetRequest (Net L V))
      → IsGuarded proxy rest h
      → IsGuarded proxy (λ r limiters. and_then (mine r limiters) (rest r limiters)) (m h)
      → IsGuarded proxy
          (λ r limiters. and_then (if_on test (mine r limiters)) (rest r limiters))
          (apply_if test m h)
  apply_if-IsGuarded true m mine rest proxy h without with_m = with_m
  apply_if-IsGuarded false m mine rest proxy h without with_m = without

module _ {Ip : Type 0} {L : Type 0} (parse_ip : String → Option Ip)
    (cidr : String → Option (Ip → Bool)) (host_part : String → Option String)
    (first_field : String → String) where
  pub with_ip_filter-IsGuarded :
      {V : Type 0}
      → (c : Config) (proxy h : Handler NetRequest (Net L V)) (guard : Guard L)
      → IsGuarded proxy guard h
      → IsGuarded proxy
          (λ r limiters.
            and_then
              (unless (ip_filter parse_ip cidr host_part first_field (ip_config c) r.client) 403)
              (guard r limiters))
          (with_ip_filter parse_ip cidr host_part first_field (ip_config c) h)
  unfolding IsGuarded with_ip_filter
  with_ip_filter-IsGuarded c proxy h guard inner w r x none_sent =
      elim (Bool-cases (ip_filter parse_ip cidr host_part first_field (ip_config c) r.client)) [
        | inl e ↦ rw e (inner w r x none_sent)
        | inr e ↦ rw e (http_error-IsRefused w (bytes "Forbidden") 403 x none_sent)
      ]
