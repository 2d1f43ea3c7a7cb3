-- ===== src/Config/Valid.antt =====
-- What the validator accepts, described without it, and the proof that it accepts just that.
use load_balancer.Base.{append_nil_iff, ◌≡◌, ◌≢◌, ◌↔◌, ◌⊎◌, Bool, false, Option, String, [], All}
use load_balancer.Balancer.Backend.{Url}
use load_balancer.Config.{Config}
use load_balancer.Config.Validator.{validate_config}
use load_balancer.Config.Parts.{
  IsNonnegative, ServerOk, HealthOk, RateLimitOk, IsStrategy, server_iff, health_iff,
  rate_limit_iff, no_problem-IsStrategy, security_iff,
}
use load_balancer.Config.BackendPart.{BackendOk, backends_iff}
use load_balancer.Config.TlsPart.{TlsOk, tls_iff}

-- What a configuration must be: `parse` is url.Parse, `exists` tells whether a file exists.
pub record IsValid (parse : String → Option Url) (exists : String → Bool) (c : Config)
    : Type 0 where
  pub server : ServerOk c.server
  pub some_backend : c.backends ≢ []
  pub backends : All (BackendOk parse) c.backends
  pub health : HealthOk c.health
  pub rate_limit : RateLimitOk c.rate_limit
  pub strategy : IsStrategy c.strategy
  pub tls : (c.tls.enabled ≡ false) ⊎ TlsOk exists c.tls
  pub request_size : IsNonnegative c.security.max_request_size
  pub response_size : IsNonnegative c.security.max_response_size

-- ValidateConfig reports no problem exactly for the valid configurations, which IsValid describes
-- section by section.
pub validate_config_iff :
    (parse : String → Option Url) (exists : String → Bool) (c : Config)
    → (validate_config parse exists c ≡ []) ↔ IsValid parse exists c
unfolding validate_config
validate_config_iff parse exists c = (
  λ h.
      let (a, r) = (append_nil_iff _ _).0 h in
      let (b, r2) = (append_nil_iff _ _).0 r in
      let (d, r3) = (append_nil_iff _ _).0 r2 in
      let (e, r4) = (append_nil_iff _ _).0 r3 in
      let (f, r5) = (append_nil_iff _ _).0 r4 in
      let (g, s) = (append_nil_iff _ _).0 r5 in
      record {
        server = (server_iff c.server).0 a;
        some_backend = ((backends_iff parse c.backends).0 b).0;
        backends = ((backends_iff parse c.backends).0 b).1;
        health = (health_iff c.health).0 d;
        rate_limit = (rate_limit_iff c.rate_limit).0 e;
        strategy = (no_problem-IsStrategy c.strategy).0 f;
        tls = (tls_iff exists c.tls).0 g;
        request_size = ((security_iff c.security).0 s).0;
        response_size = ((security_iff c.security).0 s).1;
      },
  λ v. (append_nil_iff _ _).1 (
    (server_iff c.server).1 v.server,
    (append_nil_iff _ _).1 (
      (backends_iff parse c.backends).1 (v.some_backend, v.backends),
      (append_nil_iff _ _).1 (
        (health_iff c.health).1 v.health,
        (append_nil_iff _ _).1 (
          (rate_limit_iff c.rate_limit).1 v.rate_limit,
          (append_nil_iff _ _).1 (
            (no_problem-IsStrategy c.strategy).1 v.strategy,
            (append_nil_iff _ _).1 (
              (tls_iff exists c.tls).1 v.tls,
              (security_iff c.security).1 (v.request_size, v.response_size),
            ),
          ),
        ),
      ),
    ),
  ),
)
