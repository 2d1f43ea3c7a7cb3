-- ===== src/Tests/Sharing.antt =====
-- What requests at once do to the clients of the fast proxy, and who reaches what on the public
-- server.
use load_balancer.Base.{ℕ, ◌≤◌, ◌≡◌, refl, ◌≢◌, Option, none, some, String, List, [], arith, bytes}
use load_balancer.Base.Dict.{lookup}
use load_balancer.Balancer.RoundRobin.{RoundRobin}
use load_balancer.Breaker.{new_breaker}
use load_balancer.Breaker.Types.{add_time, default_config}
use load_balancer.Breaker.Manager.{get_breaker}
use load_balancer.Server.{World, ask, proxy_config}
use load_balancer.Server.Admin.{chaos_trip, breaker_of}
use load_balancer.Server.Clients.{Clients, new_client}
use load_balancer.Server.Clients.Sequential.{IsKept}
use load_balancer.Server.Clients.Race.{outside, writing, holding, Shared, Reach, writes_clash}
use load_balancer.Middleware.Exchange.{connection, returned, Exchange, Handler, Out}
use load_balancer.Middleware.SizeLimit.{new_writer}
use load_balancer.Entry.NetHttp.{NetRequest, Net}
use load_balancer.Entry.Routes.{Page, routes}
use load_balancer.Entry.Routes.Unguarded.{trip_unguarded}
use load_balancer.Entry.FastRoutes.{fast_serve_trip, fast_routes}
use load_balancer.Entry.FastRoutes.Agree.{fast_routes_agree}
use load_balancer.Tests.Fixtures.{good}
use load_balancer.Tests.Serving.{world, none_yet}
use load_balancer.Tests.Wiring.{L, asks}

abbrev no_clients : Clients
no_clients = record { clients = []; cell = λ a. new_client ""; next = 0 }

no_clients-IsKept : IsKept no_clients
unfolding lookup
no_clients-IsKept = record { made = λ addr a e. cc; own = λ addr a e. cc }

abbrev nobody_in : Shared
nobody_in = record { clients = no_clients; phase = λ t. outside }

writes_clash_example :
    (c e : Shared) × (a b : ℕ) × Reach nobody_in c
    × Reach c e
    × (c.phase 0 ≡ writing "a:1" a)
    × (c.phase 1 ≡ writing "a:1" b)
    × (e.phase 0 ≡ holding "a:1" a)
    × (e.phase 1 ≡ holding "a:1" b)
    × (a ≢ b)
unfolding lookup
writes_clash_example = writes_clash nobody_in 0 1 "a:1" "a:1" (omega arith) refl refl refl refl

abbrev options : NetRequest
options = record (asks "a:1") { method = "OPTIONS" }

abbrev Route : Type 0
Route = Handler NetRequest (Net L (World RoundRobin))

abbrev quiet : Route
quiet w r x = (x, returned)

abbrev answered_by : Option Route → Route
answered_by none = quiet
answered_by (some h) = h

abbrev as_json : Page → List ℕ
as_json page = bytes "page"

abbrev host_a : NetRequest → String
host_a r = "a:1"

abbrev path_of : NetRequest → String
path_of r = r.origin

-- A mux that knows only whole paths.
abbrev mux : List (String × Route) → Route
mux rs w r x = answered_by (lookup (path_of r) rs) w r x

mux_exact :
    (rs : List (String × Route)) (r : NetRequest) (h : Route) (w : Out)
    (x : Exchange (Net L (World RoundRobin)))
    → lookup (path_of r) rs ≡ some h
    → mux rs w r x ≡ h w r x
mux_exact rs r h w x found = rw found refl

abbrev trips : NetRequest
trips = record (asks "b") { origin = "/api/chaos/trip" }

abbrev fresh_exchange : Exchange (Net L (World RoundRobin))
fresh_exchange = record {
  sent = [];
  limiter = new_writer 0;
  log = [];
  state = record { response = []; identifier = []; limiters = []; proxy = world none_yet };
}

in_time : 2 ≤ add_time 1 (breaker_of "a:1" (world none_yet)).config.timeout
unfolding get_breaker lookup new_breaker proxy_config default_config
in_time = omega arith

trip_unguarded_example :
    let e =
      mux (routes as_json host_a quiet quiet quiet good quiet) connection trips fresh_exchange in
    (e.1 ≡ returned)
    × (e.0.state.proxy ≡ (chaos_trip "a:1" 1 (world none_yet)).0)
    × ((ask "a:1" 2 e.0.state.proxy).1 ≡ none)
trip_unguarded_example =
    trip_unguarded as_json host_a path_of mux mux_exact quiet quiet quiet good quiet connection
      trips fresh_exchange 2 refl refl in_time

a_named : ◌≢◌ {A = String} "a:1" ""
a_named e = cc

trip_listed :
    lookup "/api/chaos/trip" (fast_routes as_json host_a quiet quiet quiet good)
    ≡ some (fast_serve_trip as_json host_a)
unfolding lookup
trip_listed = refl

fast_routes_agree_example :
    (k : Route) × (lookup "/api/chaos/trip" (routes as_json host_a quiet quiet quiet good quiet)
      ≡ some k)
    × (fast_serve_trip as_json host_a connection trips fresh_exchange
        ≡ k connection trips fresh_exchange)
fast_routes_agree_example =
    fast_routes_agree as_json host_a quiet quiet quiet good quiet "/api/chaos/trip"
      (fast_serve_trip as_json host_a) connection trips fresh_exchange a_named trip_listed
