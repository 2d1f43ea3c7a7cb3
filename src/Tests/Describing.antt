-- ===== src/Tests/Describing.antt =====
-- Identifiers, metrics, TLS, the director, the search and the strategies, on concrete inputs.
use load_balancer.Base.{
  ℕ, ◌+◌, ◌%◌, ◌≤◌, ◌<◌, ◌≡◌, refl, ◌⊎◌, inl, inr, Bool, true, false, none, some, String, List, [],
  ◌∷◌, arith, ◌==◌, if◌then◌else◌, length, In, All, u64_mod, bytes,
}
use load_balancer.Base.Dict.{lookup}
use load_balancer.Tests.Fixtures.{three, pool}
use load_balancer.Tracing.Hex.{encode}
use load_balancer.Middleware.Exchange.{Exchange, Handler, panicked}
use mathlib.Core.Quot
use load_balancer.Metrics.Totals.{Request}
use load_balancer.Metrics.Counts.{
  Batch, code_number, backend_number, occurrences, has_code, has_backend, snapshot_counts,
}
use load_balancer.Config.{TlsConfig}
use load_balancer.Server.Director.{Outgoing, director, way, director-headers}
use load_balancer.Balancer.Backend.{Ref, Url}
use load_balancer.Balancer.Pool.{healthy_backends}
use load_balancer.Balancer.ConsistentHash.{new_consistent_hash}
use load_balancer.Balancer.Total.{IsServed, every_strategy_serves}
use load_balancer.Balancer.Strategy.{
  select_for, round_robin, least_connections, weighted_round_robin, consistent_hash,
}
use load_balancer.Balancer.Weighted.{pick}
use load_balancer.Balancer.Weighted.Race.{
  State, idle, load, store, loads, stores, Reach, stays, then_step, race_serves,
}

abbrev drawn : List ℕ
drawn = 15 ∷ 160 ∷ []

hex_of_drawn : encode drawn ≡ bytes "0fa0"
unfolding encode
hex_of_drawn = refl

drawn-IsByte : All (λ b. b < 256) drawn
drawn-IsByte = (omega arith, (omega arith, tt))

abbrev gives_up : Handler Unit ℕ
gives_up w r x = (x, panicked)

abbrev exchange : Exchange ℕ
exchange = record {
  sent = [];
  limiter = record {
    max_size = 0;
    written = 0;
    status = 0;
    hijacked = false;
    passed = 0;
    headers = [];
  };
  log = [];
  state = 7;
}

abbrev reason : ℕ → String
reason status = if status == 200 then "OK" else ""

abbrev seen : String → ℕ → Request
seen name code = record {
  backend = name;
  status = code;
  duration = 1;
  method = "GET";
  req_size = 0;
  resp_size = 9;
}

abbrev batch : Batch
batch = Quot.mk (seen "a:1" 200 ∷ seen "b:1" 503 ∷ seen "b:1" 200 ∷ [])

snapshot_counts_example :
    (code_number reason "200" batch ≡ occurrences (has_code "200") batch % u64_mod)
    × (backend_number reason "200" batch ≡ occurrences (has_backend "200") batch % u64_mod)
snapshot_counts_example = snapshot_counts reason batch "200"

abbrev section : TlsConfig
section = record {
  enabled = true;
  cert_file = "cert.pem";
  key_file = "key.pem";
  ca_file = "";
  min_version = "TLS1.3";
  max_version = "";
}

abbrev pair : String → String → String ⊎ ℕ
pair cert key = inr 1

abbrev no_text : String → String ⊎ ℕ
no_text file = inl file

abbrev found : String → Bool
found file = true

abbrev into_pool : ℕ → ℕ × Bool
into_pool text = (text, true)

abbrev target : Url
target = record { scheme = "http"; host = "a:1"; text = "http://a:1" }

abbrev outgoing : Outgoing
outgoing = record {
  scheme = "";
  url_host = "";
  host = "shop.example";
  remote_addr = "9.9.9.9:80";
  headers =
      ("Connection", "close" ∷ [])
      ∷ ("X-Forwarded-For", "8.8.8.8" ∷ "7.7.7.7" ∷ [])
      ∷ ("Accept", "*/*" ∷ [])
      ∷ [];
}

director-headers_example :
    let out = director (some target) outgoing in
    let client : String = "9.9.9.9:80" in
    (out.scheme ≡ "http")
    × (out.url_host ≡ "a:1")
    × (out.host ≡ "a:1")
    × (lookup "Connection" out.headers ≡ none)
    × (lookup "Keep-Alive" out.headers ≡ none)
    × (lookup "Proxy-Authenticate" out.headers ≡ none)
    × (lookup "Proxy-Authorization" out.headers ≡ none)
    × (lookup "Te" out.headers ≡ none)
    × (lookup "Trailers" out.headers ≡ none)
    × (lookup "Transfer-Encoding" out.headers ≡ none)
    × (lookup "Upgrade" out.headers ≡ none)
    × (lookup "X-Real-Ip" out.headers ≡ some (client ∷ []))
    × (lookup "X-Forwarded-For" out.headers
        ≡ some (way (lookup "X-Forwarded-For" outgoing.headers) client ∷ []))
    × (lookup "Accept" out.headers ≡ lookup "Accept" outgoing.headers)
director-headers_example = director-headers target outgoing "Accept" refl

-- The second line is lost.
way_told : way (lookup "X-Forwarded-For" outgoing.headers) "9.9.9.9:80" ≡ "8.8.8.8, 9.9.9.9:80"
unfolding lookup
way_told = refl

abbrev ring : List ℕ
ring = 3 ∷ 8 ∷ 9 ∷ 20 ∷ 21 ∷ []

some_alive : 0 < length (healthy_backends three pool)
unfolding healthy_backends
some_alive = omega arith

every_strategy_serves_example :
    IsServed three pool (select_for round_robin "" (record { next = 5 }) three pool).1
    × IsServed three pool (select_for least_connections "" tt three pool).1
    × IsServed three pool
        (select_for weighted_round_robin "" (record { current_weight = 4 }) three pool).1
    × IsServed three pool (select_for consistent_hash "" (new_consistent_hash 2) three pool).1
unfolding new_consistent_hash
every_strategy_serves_example =
    every_strategy_serves (record { next = 5 }) (record { current_weight = 4 })
      (new_consistent_hash 2) three pool "" some_alive (omega arith) (omega arith) (inl refl)

-- Two requests load 4 before either stores: both go by it, and one count is lost.
abbrev raced : State
raced = store 1 4 (store 0 4 (load 1 (load 0 (idle 4))))

raced-Reach : Reach (idle 4) raced
unfolding idle load store
raced-Reach =
    then_step _ _ _
      (then_step _ _ _
        (then_step _ _ _ (then_step _ _ _ (stays (idle 4)) (loads 0 (idle 4) refl))
          (loads 1 (load 0 (idle 4)) refl))
        (stores 0 4 (load 1 (load 0 (idle 4))) refl))
      (stores 1 4 (store 0 4 (load 1 (load 0 (idle 4)))) refl)

lost_update : raced.counter ≡ 5
unfolding idle load store
lost_update = refl

race_serves_example :
    (4 ≤ 4 + length raced.used)
    × ((r : Ref) × ((pick (record { current_weight = 4 }) three (healthy_backends three pool)).1
          ≡ some r)
        × In r (healthy_backends three pool))
unfolding store load idle
race_serves_example =
    race_serves 4 4 raced three pool raced-Reach (omega arith) (inl refl) some_alive
