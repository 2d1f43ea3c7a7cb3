-- ===== src/Tests/Filtering.antt =====
-- The middlewares and the byte pools.
use load_balancer.Base.{ℕ, ◌≤◌, ◌≡◌, refl, ◌↔◌, ◌⊎◌, true, false, String, List, [], ◌∷◌, arith}
use load_balancer.Tests.Fixtures.{bucket, parse_ip, cidr, host_part}
use load_balancer.Middleware.RateLimit.{answers, own_answers, isolated}
use load_balancer.Middleware.IpFilter
use load_balancer.Middleware.IpFilter.{ip_filter, ip_filter_iff, Lists, get_client_ip}
use load_balancer.Middleware.SizeLimit.{
  Call, writes, writes_header, call, calls, new_writer, response_bounded,
}
use load_balancer.Middleware.Security
use load_balancer.Middleware.Security.{secure, allow_origin, secure-allow_origin}
use load_balancer.BytePools.{Use, gets, puts, use_pool, get_bytes}

abbrev visits : List (String × ℕ)
visits = ("a", 1) ∷ ("b", 1) ∷ ("a", 1) ∷ ("b", 1) ∷ ("a", 1) ∷ ("a", 3) ∷ []

isolated_example : answers (0, 2) bucket "a" visits [] ≡ own_answers (0, 2) bucket "a" visits (0, 2)
isolated_example = isolated (0, 2) bucket "a" visits

abbrev filter : IpFilter.Config
filter = record { whitelist = "a/8" ∷ []; blacklist = "b" ∷ [] }

abbrev visitor : IpFilter.Client
visitor = record { forwarded_for = ""; real_ip = ""; remote_addr = "a:1" }

passes : ip_filter parse_ip cidr host_part (λ s. s) filter visitor ≡ true
unfolding ip_filter
passes = refl

ip_filter_iff_example : (ip_filter parse_ip cidr host_part (λ s. s) filter visitor ≡ true) ↔ (
    (¬ Lists parse_ip cidr host_part
      (λ s. s)
      ("b" ∷ [])
      (get_client_ip parse_ip cidr host_part (λ s. s) visitor))
    × ((filter.whitelist ≡ [])
        ⊎ Lists parse_ip cidr host_part
            (λ s. s)
            ("a/8" ∷ [])
            (get_client_ip parse_ip cidr host_part (λ s. s) visitor)))
ip_filter_iff_example = ip_filter_iff parse_ip cidr host_part (λ s. s) filter visitor

abbrev sends : List Call
sends = writes_header 200 ∷ writes 6 6 ∷ writes 7 7 ∷ writes 4 3 ∷ []

cut_off : (calls sends (new_writer 10)).passed ≡ 9
unfolding calls call new_writer
cut_off = refl

response_bounded_example : (calls sends (new_writer 10)).passed ≤ 10
response_bounded_example = response_bounded 10 sends (omega arith) (
  tt,
  ((omega arith, omega arith), ((omega arith, omega arith), ((omega arith, omega arith), tt))),
)

abbrev uses : List Use
uses =
    gets 0 64
    ∷ puts (record { len = 0; cap = 64 })
    ∷ puts (record { len = 9; cap = 100 })
    ∷ gets 0 100
    ∷ puts (record { len = 9; cap = 100 })
    ∷ []

-- An emptied slice comes back with its length, shorter than the size asked for.
short : (get_bytes 0 64 (use_pool uses [])).1.len ≡ 0
unfolding get_bytes use_pool
short = refl

-- SecurityMiddleware with the defaults, for two origins.
abbrev shared : Security.Config
shared = record {
  enable_cors = true;
  allowed_origins = "https://a" ∷ "https://b" ∷ [];
  allowed_methods = "GET" ∷ "POST" ∷ [];
  allowed_headers = "Accept" ∷ [];
  expose_headers = "X-Request-ID" ∷ [];
  allow_credentials = false;
  max_age = 86400;
  enable_security_headers = true;
}
