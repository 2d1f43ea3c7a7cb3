-- ===== src/Entry/FirstRequest.antt =====
-- From the configuration file to the first answer: cmd/proxy/main.go, NewProxy and ServeHTTP of
-- internal/server/proxy.go in one.
use load_balancer.Base.{ℕ, ◌≡◌, refl, sym, ◌∙◌, Bool, Option, some, String, [], In}
use load_balancer.Balancer.Backend.{Heap, Ref, Url}
use load_balancer.Balancer.Pool.{Pool, all_backends, healthy_backends}
use load_balancer.Balancer.RoundRobin
use load_balancer.Balancer.Weighted
use load_balancer.Balancer.ConsistentHash
use load_balancer.Balancer.Strategy.{
  Strategy, select_for, round_robin, weighted_round_robin, least_connections, consistent_hash,
}
use load_balancer.Base.Dict.{lookup}
use load_balancer.Breaker.Manager.{Arena, new_manager}
use load_balancer.Config.{Config}
use load_balancer.Config.Valid.{IsValid}
use load_balancer.Errors.{GoError}
use load_balancer.Metrics.{Collector}
use load_balancer.Retry.{Env}
use load_balancer.Server.{Request, World}
use load_balancer.Server.Selection.{client_key, choose, select_available_backend}
use load_balancer.Server.Transport.{Response, is_idempotent}
use load_balancer.Server.Proxy.{Reply, serve_http}
use mathlib.Core.Path.{subst}
use load_balancer.Balancer.Total.{IsServed}
use load_balancer.Server.Outcome.{IsSettled}
use load_balancer.Server.Fresh.{new_proxy, fresh-serve}
use load_balancer.Entry.Startup.{Chosen, least, hashed, weighted, robin, serve, Running, start}
use load_balancer.Entry.Started.{started}

some-injective : {A : Type 0} → (x y : A) → some x ≡ some y → x ≡ y
some-injective x y e = cc

-- The type of the state behind the interface value, with the methods and the state.
abbrev pub StateType : Chosen → Type 0
StateType least = Unit
StateType (hashed s) = ConsistentHash.ConsistentHash
StateType (weighted s) = Weighted.Weighted
StateType (robin s) = RoundRobin.RoundRobin

abbrev pub methods : (ch : Chosen) → Strategy (StateType ch)
methods least = least_connections
methods (hashed s) = consistent_hash
methods (weighted s) = weighted_round_robin
methods (robin s) = round_robin

abbrev pub state_of : (ch : Chosen) → StateType ch
state_of least = tt
state_of (hashed s) = s
state_of (weighted s) = s
state_of (robin s) = s

serve-methods :
    (ch : Chosen) (key : String) (h : Heap) (p : Pool)
    → (serve ch key h p).1 ≡ (select_for (methods ch) key (state_of ch) h p).1
unfolding serve
serve-methods least key h p = refl
serve-methods (hashed s) key h p = refl
serve-methods (weighted s) key h p = refl
serve-methods (robin s) key h p = refl

module _ (run : Running) (arena : Arena) (m : Collector) where
  -- The proxy that runNetHttp makes of the pool and the strategy.
  unfoldable pub first_world : World (StateType run.strategy)
  unfolding new_proxy
  first_world = new_proxy run.heap run.pool (state_of run.strategy) arena m

-- What is true of a first request, as ServeHTTP answers it: it is handed to one of the configured
-- backends with the breaker of that one's host, and what is answered comes from that backend.
abbrev pub IsFirstAnswer :
    (run : Running) (asked : World (StateType run.strategy) × Option (Ref × ℕ))
    → Bool
    → (Ref → Env Response GoError)
    → ℕ
    → World (StateType run.strategy) × Reply
    → Type 0
IsFirstAnswer run asked retries env now done =
    (b : Ref) × (a : ℕ) × In b (all_backends run.pool)
    × (asked.1 ≡ some (b, a))
    × (lookup (run.heap b).url.host asked.0.breakers.manager.breakers ≡ some a)
    × IsSettled retries (env b) a now asked.0 done

-- The strategy names one of the configured backends.
pub first_named :
    (parse : String → Option Url) (exists : String → Bool) (h : Heap) (c : Config) (run : Running)
    (arena : Arena) (m : Collector) (key : String)
    → IsValid parse exists c
    → start parse h c ≡ some run
    → (b : Ref) × In b (all_backends run.pool)
      × ((choose (methods run.strategy) key (first_world run arena m)).1 ≡ some b)
unfolding first_world new_proxy choose
first_named parse exists h c run arena m key valid runs =
    let (own, owns, (pooled, healthy, built), served) = started parse exists h c key valid in
    let same : own ≡ run = some-injective own run (sym owns ∙ runs) in
    let all_healthy : healthy_backends run.heap run.pool ≡ all_backends run.pool =
      subst (λ (r : Running). healthy_backends r.heap r.pool ≡ all_backends r.pool) same healthy in
    let (b, gives, alive) =
      subst (λ (r : Running). IsServed r.heap r.pool (serve r.strategy key r.heap r.pool).1) same
        served in
    (b, rw all_healthy at alive, sym (serve-methods run.strategy key run.heap run.pool) ∙ gives)

pub first-breakers :
    (run : Running) (arena : Arena) (m : Collector)
    → (first_world run arena m).breakers.manager.breakers ≡ []
unfolding first_world new_proxy new_manager
first-breakers run arena m = refl

pub first_answer :
    (parse : String → Option Url) (exists : String → Bool) (h : Heap) (c : Config) (run : Running)
    (arena : Arena) (m : Collector) (status_text : ℕ → String) (clock : ℕ → ℕ) (req : Request)
    (env : Ref → Env Response GoError) (dur now : ℕ)
    → IsValid parse exists c
    → start parse h c ≡ some run
    → let w = first_world run arena m in
      let st = methods run.strategy in
      IsFirstAnswer run
        (select_available_backend st clock req w)
        (is_idempotent req.method)
        env
        now
        (serve_http status_text st clock req env dur now w)
unfolding first_world
first_answer parse exists h c run arena m status_text clock req env dur now valid runs =
    let (b, listed, named) = first_named parse exists h c run arena m (client_key req) valid runs in
    let (a, eq, found, own, settled) =
      fresh-serve status_text (methods run.strategy) clock req env dur now (first_world run arena m)
        b (first-breakers run arena m) named in
    (b, a, listed, found, own, settled)

-- With a valid configuration main comes to the servers, and the first request of the proxy, whatever
-- it is, goes to one of the configured backends: it is answered with a response of that one or with
-- an error of its calls, and its breaker gets the one result.
pub first_request :
    (parse : String → Option Url) (exists : String → Bool) (h : Heap) (c : Config) (arena : Arena)
    (m : Collector) (status_text : ℕ → String) (clock : ℕ → ℕ) (req : Request)
    (env : Ref → Env Response GoError) (dur now : ℕ)
    → IsValid parse exists c
    → (run : Running) × (start parse h c ≡ some run)
      × (let w = first_world run arena m in
          let st = methods run.strategy in
          IsFirstAnswer run
            (select_available_backend st clock req w)
            (is_idempotent req.method)
            env
            now
            (serve_http status_text st clock req env dur now w))
first_request parse exists h c arena m status_text clock req env dur now valid =
    let (run, runs, _, _) = started parse exists h c (client_key req) valid in
    (
      run,
      runs,
      first_answer parse exists h c run arena m status_text clock req env dur now valid runs,
    )
