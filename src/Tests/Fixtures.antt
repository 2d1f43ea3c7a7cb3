-- ===== src/Tests/Fixtures.antt =====
-- What the tests share: backends and pools as in the repository's own Go tests, a configuration, and
-- stand-ins for the token bucket and for the package net.
use load_balancer.Base.{
  ◌+◌, ◌-◌, ltb, ◌||◌, Option, none, some, str_eq, ℕ, Bool, true, false, not, String, [], ◌∷◌, ◌==◌,
  if◌then◌else◌,
}
use load_balancer.Balancer.Backend.{Heap, Backend, Url}
use load_balancer.Config.{Config}
use load_balancer.Balancer.Pool.{Pool}

abbrev pub node : String → ℕ → Bool → ℕ → Backend
node host weight alive connections = record {
  url = record { scheme = "http"; host = host; text = host };
  weight = weight;
  alive = alive;
  connections = connections;
  total_requests = 0;
  failed_requests = 0;
  consecutive_failures = 0;
}

-- Three backends at the pointers 0, 1 and 2; the one at 1 is down.
abbrev pub three : Heap
three r =
    if r == 0
    then node "a:1" 1 true 2
    else if r == 1
    then node "b:1" 2 false 0
    else node "c:1" 3 true 1

abbrev pub pool : Pool
pool = record { backends = 0 ∷ 1 ∷ 2 ∷ [] }

-- Two backends whose URLs have one fingerprint, of which one is up.
abbrev pub twins : Bool → Heap
twins first r = if r == 0 then node "Aa" 1 first 0 else node "BB" 1 (not first) 0

abbrev pub pair : Pool
pair = record { backends = 0 ∷ 1 ∷ [] }

-- A valid configuration, where no file exists.
abbrev pub good : Config
good = record {
  server = record {
    listen = ":8080";
    read_timeout = 5;
    write_timeout = 10;
    idle_timeout = 60;
    admin_listen = "";
  };
  backends = record { url = "http://a:1"; weight = 1 } ∷ [];
  health = record { interval = 10; timeout = 2; path = "/healthz" };
  rate_limit = record { rps = 100; burst = 200 };
  strategy = "round_robin";
  fasthttp = false;
  tls = record {
    enabled = false;
    cert_file = "";
    key_file = "";
    ca_file = "";
    min_version = "";
    max_version = "";
  };
  security = record {
    enable_cors = false;
    allowed_origins = [];
    allowed_methods = [];
    allowed_headers = [];
    ip_whitelist = [];
    ip_blacklist = [];
    max_request_size = 0;
    max_response_size = 0;
  };
}

abbrev pub parse_url : String → Option Url
parse_url s =
    if str_eq s "http://a:1"
    then some (record { scheme = "http"; host = "a:1"; text = "http://a:1" })
    else none

abbrev pub no_file : String → Bool
no_file f = false

-- A bucket that refills one token a second, up to two.
abbrev pub bucket : ℕ → ℕ × ℕ → (ℕ × ℕ) × Bool
bucket now (last, tokens) =
    let have = tokens + (now - last) in
    let full = if ltb 2 have then 2 else have in
    if full == 0 then ((now, 0), false) else ((now, full - 1), true)

-- Addresses are one letter; the only net is "a/8", which holds "a" and "b".
abbrev pub parse_ip : String → Option String
parse_ip s = if str_eq s "a" || str_eq s "b" then some s else none

abbrev pub cidr : String → Option (String → Bool)
cidr s = if str_eq s "a/8" then some (λ ip. true) else none

abbrev pub host_part : String → Option String
host_part s = if str_eq s "a:1" then some "a" else none
