-- ===== src/Server/FastFresh.antt =====
-- internal/server/fastproxy.go on the state of a new proxy.
use load_balancer.Base.{ℕ, ◌≡◌, refl, false, some, String, []}
use load_balancer.Balancer.Backend.{Heap, Ref}
use load_balancer.Balancer.Pool.{Pool}
use load_balancer.Breaker.Manager.{Arena, new_manager}
use load_balancer.Metrics.{Collector}
use load_balancer.Server.Clients.{HostClient, Clients}
use load_balancer.Balancer.Strategy.{Strategy}
use load_balancer.Breaker.{on_result}
use load_balancer.Server.{World, proxy_config}
use load_balancer.Server.Selection.{choose, guarded}
use load_balancer.Server.Fresh.{new_proxy, fresh-guarded}
use load_balancer.Server.Outcome.{breaker_at}
use load_balancer.Server.FastProxy.{
  FastRequest, Answer, refused, answered, FastReply, relayed, error_reply, fast_key, is_dashboard,
  select_backend, begin_relay, refusal, outcome, relay, handler,
}
use load_balancer.Server.Relay.{is_served, outcome-report}

-- NewFastProxy, with the map of clients, over an arena of each kind, of which it uses nothing yet.
unfoldable pub new_fast_proxy :
    {S : Type 0} → Heap → Pool → S → Arena → (ℕ → HostClient) → Collector → World S × Clients
new_fast_proxy h p s arena cells m = (
  record {
    heap = h;
    pool = p;
    strategy = s;
    breakers = record { manager = new_manager proxy_config; arena = arena };
    metrics = m;
  },
  record { clients = []; cell = cells; next = 0 },
)

-- Its part that the two proxies share is that of NewProxy.
pub new_fast_proxy-new_proxy :
    {S : Type 0}
    → (h : Heap) (p : Pool) (s : S) (arena : Arena) (cells : ℕ → HostClient) (m : Collector)
    → (new_fast_proxy h p s arena cells m).0 ≡ new_proxy h p s arena m
unfolding new_fast_proxy new_proxy
new_fast_proxy-new_proxy h p s arena cells m = refl

-- How the client is answered.
abbrev pub IsReply : Answer → FastReply → Type 0
IsReply (refused e) reply = (text : String) × (reply ≡ error_reply 502 text)
IsReply (answered status size) reply = reply ≡ relayed status

module _ {S : Type 0} where
  -- The answer to the client, and with it the one result that the breaker gets.
  abbrev pub IsRelayed : Answer → ℕ → ℕ → World S → World S × FastReply → Type 0
  IsRelayed answer a now w done =
      IsReply answer done.1
      × (breaker_at done.0 a ≡ (on_result (is_served answer) now (breaker_at w a)).0)

  module _ (status_text : ℕ → String) where
    outcome-IsReply :
        (be : Ref) (a : ℕ) (req : FastRequest) (dur now : ℕ) (answer : Answer) (w : World S)
        → IsReply answer (outcome status_text be a req dur now answer w).1
    unfolding outcome refusal
    outcome-IsReply be a req dur now (refused e) w = (_, refl)
    outcome-IsReply be a req dur now (answered status size) w = refl

    relay-IsRelayed :
        (be : Ref) (a : ℕ) (req : FastRequest) (dur now : ℕ) (answer : Answer) (w : World S)
        → IsRelayed answer a now w (relay status_text be a req dur now answer w)
    unfolding relay begin_relay
    relay-IsRelayed be a req dur now answer w = (
      outcome-IsReply be a req dur now answer (begin_relay be w),
      outcome-report status_text be a req dur now answer (begin_relay be w),
    )

    module _ (st : Strategy S) (clock : ℕ → ℕ) (req : FastRequest) (w : World S) (b : Ref) where
      fast_chosen :
          (choose st (fast_key req) w).1 ≡ some b
          → select_backend st clock req w ≡ guarded clock b (choose st (fast_key req) w).0
      unfolding select_backend
      fast_chosen e = rw (e, select_backend)

      module _ (answer : Answer) (dur now : ℕ) (plain : is_dashboard req.path ≡ false) where
        handled :
            (a : ℕ)
            → (select_backend st clock req w).1 ≡ some (b, a)
            → handler status_text st clock req answer dur now w
              ≡ relay status_text b a req dur now answer (select_backend st clock req w).0
        unfolding handler
        handled a found = rw (plain, found, handler) refl

        -- On such a state a request that is not for the dashboard is relayed to the backend that
        -- the strategy names.
        pub fresh-handler :
            w.breakers.manager.breakers ≡ []
            → (choose st (fast_key req) w).1 ≡ some b
            → (a : ℕ) × ((select_backend st clock req w).1 ≡ some (b, a))
              × IsRelayed answer a now
                  (select_backend st clock req w).0
                  (handler status_text st clock req answer dur now w)
        unfolding choose
        fresh-handler empty named =
            let (a, free, _) = fresh-guarded clock (choose st (fast_key req) w).0 b empty in
            let found : (select_backend st clock req w).1 ≡ some (b, a) =
              rw (fast_chosen named) free in
            (
              a,
              found,
              rw (handled a found)
                  (relay-IsRelayed b a req dur now answer (select_backend st clock req w).0),
            )
