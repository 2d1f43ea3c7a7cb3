-- ===== src/Tls.antt =====
-- internal/tls/tls.go. Parameters: LoadX509KeyPair, os.ReadFile, and the pool that
-- AppendCertsFromPEM makes of a text, with whether it found a certificate. Listening is not
-- modelled.
pub mod Loading
use load_balancer.Base.{
  ℕ, ◌⊎◌, inl, inr, Bool, true, false, Option, none, some, String, str_eq, if◌then◌else◌,
}
use load_balancer.Config.{TlsConfig}

pub record Config : Type 0 where
  pub cert_file : String
  pub key_file : String
  pub ca_file : String
  pub min_version : String
  pub max_version : String

unfoldable pub default_config : Config
default_config = record {
  cert_file = "";
  key_file = "";
  ca_file = "";
  min_version = "TLS1.2";
  max_version = "TLS1.3";
}

unfoldable pub parse_tls_version : String → ℕ
parse_tls_version version =
    if str_eq version "TLS1.0"
    then 0x0301
    else if str_eq version "TLS1.1"
    then 0x0302
    else if str_eq version "TLS1.2"
    then 0x0303
    else if str_eq version "TLS1.3"
    then 0x0304
    else 0x0303

-- What LoadTLSConfig sets of a tls.Config; `verifies` is whether ClientAuth is
-- VerifyClientCertIfGiven.
pub record Loaded (Cert : Type 0) (Pool : Type 0) : Type 0 where
  pub certificate : Cert
  pub min_version : ℕ
  pub max_version : ℕ
  pub client_cas : Option Pool
  pub verifies : Bool

-- The configuration that runNetHttp hands over.
abbrev pub of_section : TlsConfig → Config
of_section c = record {
  cert_file = c.cert_file;
  key_file = c.key_file;
  ca_file = c.ca_file;
  min_version = c.min_version;
  max_version = c.max_version;
}

-- The composite literal.
abbrev pub from_pair : {Cert : Type 0} → {Pool : Type 0} → Config → Cert → Loaded Cert Pool
from_pair c cert = record {
  certificate = cert;
  min_version = parse_tls_version c.min_version;
  max_version = parse_tls_version c.max_version;
  client_cas = none;
  verifies = false;
}

module _ {E : Type 0} {Cert : Type 0} {Text : Type 0} {Pool : Type 0}
    (load_pair : String → String → E ⊎ Cert) (read_file : String → E ⊎ Text)
    (append : Text → Pool × Bool) where
  abbrev pub with_pool : Loaded Cert Pool → E ⊎ Text → E ⊎ Loaded Cert Pool
  with_pool t (inl err) = inl err
  with_pool t (inr text) = inr (record t { client_cas = some (append text).0; verifies = true })

  abbrev pub with_pair : Config → E ⊎ Cert → E ⊎ Loaded Cert Pool
  with_pair c (inl err) = inl err
  with_pair c (inr cert) =
      let t = from_pair c cert in
      if str_eq c.ca_file "" then inr t else with_pool t (read_file c.ca_file)

  unfoldable pub load_tls_config : Config → E ⊎ Loaded Cert Pool
  unfolding parse_tls_version
  load_tls_config c = with_pair c (load_pair c.cert_file c.key_file)
