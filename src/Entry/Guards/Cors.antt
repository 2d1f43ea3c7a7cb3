-- ===== src/Entry/Guards/Cors.antt =====
-- What becomes of a configuration of cmd/proxy/net.go in which CORS is off.
use load_balancer.Base.{ℕ, ◌≡◌, Bool, Option, String}
use load_balancer.Config.{Config}
use load_balancer.Middleware.Exchange.{header as sends, Out, Exchange, Handler}
use load_balancer.Middleware.Security.{secure}
use load_balancer.Entry.NetHttp.{NetRequest, Net, security_config}

module _ {Ip : Type 0} {L : Type 0} {V : Type 0} (parse_ip : String → Option Ip)
    (cidr : String → Option (Ip → Bool)) (host_part : String → Option String)
    (first_field : String → String) (new_limiter : ℕ → ℕ → L) (allow : ℕ → L → L × Bool) where
  -- The handler answers this request with the headers that SecurityMiddleware sets.
  abbrev Tells : Config → NetRequest → Handler NetRequest (Net L V) → Type 0
  Tells c r h =
      (w : Out) (x : Exchange (Net L V))
      → (h w r x).0.state.response
        ≡ (secure (security_config c) r.method r.origin x.state.response).0
