-- ===== src/Config.antt =====
-- internal/config: config.go, validator.go and watcher.go. Integers are int64 bit patterns.
-- url.Parse, os.Stat, and reading and decoding the file are parameters. Each message of the
-- validator is a constructor of `Problem`; their wording and the joined error text are left out.
pub mod Validator
pub mod Parts
pub mod BackendPart
pub mod TlsPart
pub mod Valid
pub mod Manager
use load_balancer.Base.{ℕ, Bool, String, List}

pub record ServerConfig : Type 0 where
  pub listen : String
  pub read_timeout : ℕ
  pub write_timeout : ℕ
  pub idle_timeout : ℕ
  pub admin_listen : String

pub record TlsConfig : Type 0 where
  pub enabled : Bool
  pub cert_file : String
  pub key_file : String
  pub ca_file : String
  pub min_version : String
  pub max_version : String

pub record SecurityConfig : Type 0 where
  pub enable_cors : Bool
  pub allowed_origins : List String
  pub allowed_methods : List String
  pub allowed_headers : List String
  pub ip_whitelist : List String
  pub ip_blacklist : List String
  pub max_request_size : ℕ
  pub max_response_size : ℕ

pub record BackendConfig : Type 0 where
  pub url : String
  pub weight : ℕ

pub record HealthConfig : Type 0 where
  pub interval : ℕ
  pub timeout : ℕ
  pub path : String

pub record RateLimitConfig : Type 0 where
  pub rps : ℕ
  pub burst : ℕ

pub record Config : Type 0 where
  pub server : ServerConfig
  pub backends : List BackendConfig
  pub health : HealthConfig
  pub rate_limit : RateLimitConfig
  pub strategy : String
  pub fasthttp : Bool
  pub tls : TlsConfig
  pub security : SecurityConfig
