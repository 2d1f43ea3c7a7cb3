-- ===== src/Entry/FastSite.antt =====
-- The program behind fasthttp as a whole: the handler of cmd/proxy/fasthttp.go around Handler of
-- internal/server/fastproxy.go, on what cmd/proxy/main.go makes of a configuration. What client.Do
-- returns, how a reply is put into fasthttp's response, the times and the token bucket are given.
-- Putting a reply there may drop the headers that were set before, as CopyTo of fasthttp does.
use load_balancer.Base.{ℕ, Bool, String, List}
use load_balancer.Balancer.Strategy.{Strategy}
use load_balancer.Config.{Config}
use load_balancer.Server.{World}
use load_balancer.Server.FastProxy.{FastRequest, Answer, FastReply, handler}
use load_balancer.Tracing.RequestId
use load_balancer.Middleware.Exchange.{returned}
use load_balancer.Entry.Startup.{Running}
use load_balancer.Entry.FastHttp.{FastContext, FastHandler, fast_handler}
use load_balancer.Entry.FirstRequest.{StateType, methods}

-- A context, and the state of the proxy.
abbrev pub with_proxy :
    {P : Type 0} → {L : Type 0} → {V : Type 0} → V → FastContext P L Unit → FastContext P L V
with_proxy v ctx = record {
  remote_ip = ctx.remote_ip;
  time = ctx.time;
  request = ctx.request;
  generated = ctx.generated;
  response_headers = ctx.response_headers;
  response = ctx.response;
  values = ctx.values;
  limiters = ctx.limiters;
  proxy = v;
}

module _ {P : Type 0} {L : Type 0} {S : Type 0}
    (put : FastReply → RequestId.Headers × P → RequestId.Headers × P) (status_text : ℕ → String)
    (st : Strategy S) (clock : ℕ → ℕ) (req : FastRequest) (given : Answer) (dur now : ℕ) where
  -- Handler as one of the handlers around which runFasthttp puts its middlewares.
  unfoldable pub relay_handler : FastHandler (FastContext P L (World S))
  relay_handler (ctx, log) =
      let (world, reply) = handler status_text st clock req given dur now ctx.proxy in
      let (headers, response) = put reply (ctx.response_headers, ctx.response) in
      (
        (record ctx { response_headers = headers; response = response; proxy = world }, log),
        returned,
      )

module _ {P : Type 0} {L : Type 0}
    (error : List ℕ → ℕ → RequestId.Headers × P → RequestId.Headers × P)
    (put : FastReply → RequestId.Headers × P → RequestId.Headers × P)
    (status_code body_length : P → ℕ) (new_limiter : ℕ → ℕ → L) (allow : ℕ → L → L × Bool)
    (status_text : ℕ → String) (clock : ℕ → ℕ) (req : FastRequest) (given : Answer)
    (dur now : ℕ) where
  -- The handler of runFasthttp around the proxy, for a configuration and what main makes of it.
  abbrev pub fast_site :
      (c : Config) (run : Running) → FastHandler (FastContext P L (World (StateType run.strategy)))
  fast_site c run =
      fast_handler error status_code body_length new_limiter allow c
        (relay_handler put status_text (methods run.strategy) clock req given dur now)
