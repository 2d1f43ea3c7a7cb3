-- ===== src/Config/Validator.antt =====
-- internal/config/validator.go. The validator appends to its list of errors; each method is the
-- list of what it appends, and Validate runs them in the source's order.
use load_balancer.Base.{
  ℕ, ◌+◌, Bool, true, false, not, ◌&&◌, ◌||◌, Option, none, some, String, List, [], ◌∷◌, ◌++◌,
  str_eq, ◌==◌, if◌then◌else◌, is_neg, is_nonpos, slt,
}
use text.Mathlib.Text.{starts_with}
use load_balancer.Balancer.Backend.{Url}
use load_balancer.Config.{
  Config, ServerConfig, TlsConfig, SecurityConfig, BackendConfig, HealthConfig, RateLimitConfig,
}

pub data Problem : Type 0 where
  listen_required read_timeout_positive write_timeout_positive idle_timeout_positive : Problem
  backend_required : Problem
  url_required url_invalid url_scheme url_host weight_nonnegative : ℕ → Problem
  interval_positive timeout_positive timeout_less path_required path_slash : Problem
  rps_nonnegative burst_nonnegative rps_missing : Problem
  strategy_invalid : String → Problem
  cert_required key_required min_version_unknown max_version_unknown : Problem
  cert_missing key_missing ca_missing : String → Problem
  request_size_nonnegative response_size_nonnegative : Problem

-- `if test { v.errors = append(v.errors, p) }`.
abbrev pub when : Bool → Problem → List Problem
when true p = p ∷ []
when false p = []

abbrev pub is_blank : String → Bool
is_blank s = str_eq s ""

unfoldable pub validate_server : ServerConfig → List Problem
validate_server c =
    when (is_blank c.listen) listen_required
    ++ (when (is_nonpos c.read_timeout) read_timeout_positive
        ++ (when (is_nonpos c.write_timeout) write_timeout_positive
            ++ when (is_nonpos c.idle_timeout) idle_timeout_positive))

-- `parse` is url.Parse, `none` its error.
module _ (parse : String → Option Url) where
  abbrev pub check_parsed : ℕ → BackendConfig → Option Url → List Problem
  check_parsed i b none = url_invalid i ∷ []
  check_parsed i b (some u) =
      when (not (str_eq u.scheme "http") && not (str_eq u.scheme "https")) (url_scheme i)
      ++ (when (is_blank u.host) (url_host i) ++ when (is_neg b.weight) (weight_nonnegative i))

  -- The body of the loop over the backends.
  unfoldable pub validate_backend : ℕ → BackendConfig → List Problem
  validate_backend i b =
      if is_blank b.url then url_required i ∷ [] else check_parsed i b (parse b.url)

  unfoldable pub validate_each : ℕ → List BackendConfig → List Problem
  validate_each i [] = []
  validate_each i (b ∷ bs) = validate_backend i b ++ validate_each (i + 1) bs

  unfoldable pub validate_backends : List BackendConfig → List Problem
  validate_backends [] = backend_required ∷ []
  validate_backends (b ∷ bs) = validate_each 0 (b ∷ bs)

unfoldable pub validate_health : HealthConfig → List Problem
validate_health c =
    when (is_nonpos c.interval) interval_positive
    ++ (when (is_nonpos c.timeout) timeout_positive
        ++ (when (slt c.interval c.timeout) timeout_less
            ++ (when (is_blank c.path) path_required
                ++ when (not (starts_with c.path "/")) path_slash)))

unfoldable pub validate_rate_limit : RateLimitConfig → List Problem
validate_rate_limit c =
    when (is_neg c.rps) rps_nonnegative
    ++ (when (is_neg c.burst) burst_nonnegative
        ++ when (not (is_nonpos c.burst) && c.rps == 0) rps_missing)

abbrev pub is_strategy : String → Bool
is_strategy s =
    str_eq s "round_robin"
    || (str_eq s "least_conn" || (str_eq s "consistent_hash" || str_eq s "weighted_round_robin"))

unfoldable pub validate_strategy : String → List Problem
validate_strategy s = when (not (is_strategy s)) (strategy_invalid s)

abbrev pub is_version : String → Bool
is_version s = str_eq s "TLS1.0" || (str_eq s "TLS1.1" || (str_eq s "TLS1.2" || str_eq s "TLS1.3"))

-- `exists f` is false when `os.Stat(f)` says that the file does not exist.
module _ (exists : String → Bool) where
  unfoldable pub validate_tls : TlsConfig → List Problem
  validate_tls c =
      if c.enabled
      then (if is_blank c.cert_file
          then cert_required ∷ []
          else when (not (exists c.cert_file)) (cert_missing c.cert_file))
        ++ ((if is_blank c.key_file
              then key_required ∷ []
              else when (not (exists c.key_file)) (key_missing c.key_file))
            ++ (when (not (is_blank c.ca_file) && not (exists c.ca_file)) (ca_missing c.ca_file)
                ++ (when (not (is_blank c.min_version) && not (is_version c.min_version))
                      min_version_unknown
                    ++ when (not (is_blank c.max_version) && not (is_version c.max_version))
                        max_version_unknown)))
      else []

unfoldable pub validate_security : SecurityConfig → List Problem
validate_security c =
    when (is_neg c.max_request_size) request_size_nonnegative
    ++ when (is_neg c.max_response_size) response_size_nonnegative

-- ValidateConfig: the empty list for a nil error.
module _ (parse : String → Option Url) (exists : String → Bool) where
  unfoldable pub validate_config : Config → List Problem
  validate_config c =
      validate_server c.server
      ++ (validate_backends parse c.backends
          ++ (validate_health c.health
              ++ (validate_rate_limit c.rate_limit
                  ++ (validate_strategy c.strategy
                      ++ (validate_tls exists c.tls ++ validate_security c.security)))))
