-- ===== src/Entry/Settings.antt =====
-- cmd/proxy: what main, runNetHttp and runFasthttp set in the checker and in the servers from the
-- configuration, with the durations. A time.Duration is an int64 of nanoseconds. The servers, the
-- client of the checker and the ticker are not modelled.
pub mod Durations
pub mod Listening
use load_balancer.Base.{
  ℕ, ◌*◌, ◌%◌, Bool, true, false, not, ◌&&◌, ◌⊎◌, inl, inr, Option, none, some, String, str_eq,
  if◌then◌else◌, u64_mod,
}
use load_balancer.Config.{Config, ServerConfig, TlsConfig, HealthConfig}
use load_balancer.Tls
use load_balancer.Tls.{Loaded, of_section, load_tls_config}

-- `time.Duration(n) * time.Second`.
unfoldable pub seconds : ℕ → ℕ
seconds n = (n * 1000000000) % u64_mod

-- NewChecker, less the logger and the collector.
pub record Checker : Type 0 where
  pub interval : ℕ
  pub timeout : ℕ
  pub path : String
  pub client_timeout : ℕ

unfoldable pub new_checker : ℕ → ℕ → String → Checker
new_checker interval timeout path = record {
  interval = interval;
  timeout = timeout;
  path = path;
  client_timeout = timeout;
}

-- The call in main.
unfoldable pub checker_of : HealthConfig → Checker
unfolding new_checker seconds
checker_of c = new_checker (seconds c.interval) (seconds c.timeout) c.path

-- The http.Server of runNetHttp, less the handler. `none` is no TLSConfig.
pub record NetServer (T : Type 0) : Type 0 where
  pub addr : String
  pub read_timeout : ℕ
  pub write_timeout : ℕ
  pub idle_timeout : ℕ
  pub tls_config : Option T

unfoldable pub net_server : {T : Type 0} → ServerConfig → NetServer T
unfolding seconds
net_server c = record {
  addr = c.listen;
  read_timeout = seconds c.read_timeout;
  write_timeout = seconds c.write_timeout;
  idle_timeout = seconds c.idle_timeout;
  tls_config = none;
}

-- The test before the certificates are loaded, and once more before the server starts.
unfoldable pub serves_tls : TlsConfig → Bool
serves_tls c = c.enabled && not (str_eq c.cert_file "") && not (str_eq c.key_file "")

-- How the server is started.
pub data Serving (T : Type 0) : Type 0 where
  listen : NetServer T → Serving T
  listen_tls : NetServer T → String → String → Serving T

module _ {E : Type 0} {T : Type 0} (load : Tls.Config → E ⊎ T) where
  abbrev with_tls : NetServer T → E ⊎ T → Option (NetServer T)
  with_tls srv (inl err) = none
  with_tls srv (inr t) = some (record srv { tls_config = some t })

  -- runNetHttp from the server's literal up to the call that serves; `none` is logger.Fatal.
  unfoldable pub prepare : Config → Option (Serving T)
  unfolding serves_tls net_server
  prepare c =
      let srv = net_server c.server in
      let secured : Option (Serving T) = elim (with_tls srv (load (of_section c.tls))) [
        | none ↦ none
        | some s ↦ some (listen_tls s c.tls.cert_file c.tls.key_file)
      ] in
      if serves_tls c.tls then secured else some (listen srv)

-- The fasthttp.Server of runFasthttp and its admin server, less the handlers. fasthttp reads no
-- `tls` section.
pub record FastServers : Type 0 where
  pub addr : String
  pub read_timeout : ℕ
  pub write_timeout : ℕ
  pub idle_timeout : ℕ
  pub max_conns_per_ip : ℕ
  pub max_requests_per_conn : ℕ
  pub read_buffer_size : ℕ
  pub write_buffer_size : ℕ
  pub disable_header_names_normalizing : Bool
  pub admin_addr : String

unfoldable pub fast_servers : ServerConfig → FastServers
unfolding seconds
fast_servers c = record {
  addr = c.listen;
  read_timeout = seconds c.read_timeout;
  write_timeout = seconds c.write_timeout;
  idle_timeout = seconds c.idle_timeout;
  max_conns_per_ip = 10000;
  max_requests_per_conn = 100000;
  read_buffer_size = 16 * 1024;
  write_buffer_size = 16 * 1024;
  disable_header_names_normalizing = true;
  admin_addr = c.admin_listen;
}
