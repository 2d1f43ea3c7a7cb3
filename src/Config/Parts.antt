-- ===== src/Config/Parts.antt =====
-- What the smaller sections of a configuration must be, described without the validator, and that the
-- validator's methods find no problem with just those sections.
use load_balancer.Base.{
  ℕ, ◌≤◌, ◌<◌, ◌≡◌, ◌≢◌, ◌↔◌, ◌⊎◌, inl, inr, true, false, String, [], arith, str_eq_iff, Bool-cases,
  i64_half,
}
use text.Mathlib.Text.{starts_with}
use text.Mathlib.TextBridge.{IsPrefix}
use text.Mathlib.TextEquality.{starts_with_iff}
use load_balancer.Config.{ServerConfig, SecurityConfig, HealthConfig, RateLimitConfig}
use load_balancer.Config.Validator.{
  is_blank, validate_server, validate_health, validate_rate_limit, validate_strategy,
  validate_security,
}

abbrev pub IsPositive : ℕ → Type 0
IsPositive x = (0 < x) × (x < i64_half)

abbrev pub IsNonnegative : ℕ → Type 0
IsNonnegative x = x < i64_half

pub record ServerOk (c : ServerConfig) : Type 0 where
  pub listen : c.listen ≢ ""
  pub read_timeout : IsPositive c.read_timeout
  pub write_timeout : IsPositive c.write_timeout
  pub idle_timeout : IsPositive c.idle_timeout

pub record HealthOk (c : HealthConfig) : Type 0 where
  pub interval : IsPositive c.interval
  pub timeout : IsPositive c.timeout
  pub within : c.timeout ≤ c.interval
  pub path : IsPrefix "/" c.path

pub record RateLimitOk (c : RateLimitConfig) : Type 0 where
  pub rps : IsNonnegative c.rps
  pub burst : IsNonnegative c.burst
  pub backed : (c.burst ≡ 0) ⊎ (c.rps ≢ 0)

pub server_iff : (c : ServerConfig) → (validate_server c ≡ []) ↔ ServerOk c
unfolding validate_server
server_iff c =
    (λ h. ground (arith, str_eq_iff c.listen ""), λ h. ground (arith, str_eq_iff c.listen ""))

no_slash : ¬ (starts_with "" "/" ≡ true)
no_slash h = cc

pub health_iff : (c : HealthConfig) → (validate_health c ≡ []) ↔ HealthOk c
unfolding validate_health
health_iff c = (
  λ h. record {
    interval = ground arith;
    timeout = ground arith;
    within = ground arith;
    path = (starts_with_iff c.path "/").0 (ground arith);
  },
  λ h.
      let slash : starts_with c.path "/" ≡ true = (starts_with_iff c.path "/").1 h.path in
      let filled : is_blank c.path ≡ false = elim (Bool-cases (is_blank c.path)) [
        | inr e ↦ e
        | inl e ↦ absurd (no_slash (rw ((str_eq_iff c.path "").0 e) at slash))
      ] in
      ground (arith, slash, filled, h.interval, h.timeout, h.within),
)

pub rate_limit_iff : (c : RateLimitConfig) → (validate_rate_limit c ≡ []) ↔ RateLimitOk c
unfolding validate_rate_limit
rate_limit_iff c = (λ h. ground arith, λ h. ground arith)

abbrev pub IsStrategy : String → Type 0
IsStrategy s =
    (s ≡ "round_robin")
    ⊎ ((s ≡ "least_conn") ⊎ ((s ≡ "consistent_hash") ⊎ (s ≡ "weighted_round_robin")))

pub no_problem-IsStrategy : (s : String) → (validate_strategy s ≡ []) ↔ IsStrategy s
unfolding validate_strategy
no_problem-IsStrategy s = (
  λ h. ground (
    arith,
    str_eq_iff s "round_robin",
    str_eq_iff s "least_conn",
    str_eq_iff s "consistent_hash",
    str_eq_iff s "weighted_round_robin",
  ),
  λ h. ground (
    arith,
    str_eq_iff s "round_robin",
    str_eq_iff s "least_conn",
    str_eq_iff s "consistent_hash",
    str_eq_iff s "weighted_round_robin",
  ),
)

pub security_iff :
    (c : SecurityConfig)
    → (validate_security c ≡ [])
      ↔ (IsNonnegative c.max_request_size × IsNonnegative c.max_response_size)
unfolding validate_security
security_iff c = (λ h. ground arith, λ h. ground arith)
