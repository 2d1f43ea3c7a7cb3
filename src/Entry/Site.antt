-- ===== src/Entry/Site.antt =====
-- The program behind net/http as a whole: the handler of cmd/proxy/net.go around ServeHTTP of
-- internal/server/proxy.go, on what cmd/proxy/main.go makes of a configuration. The answers of the
-- backends, the times and the token bucket are given; bodies are left out.
use load_balancer.Base.{ℕ, ◌≡◌, refl, ap, ◌∙◌, Bool, Option, none, some, String, [], bytes}
use load_balancer.Balancer.Backend.{Heap, Ref, Url}
use load_balancer.Balancer.Strategy.{Strategy}
use load_balancer.Breaker.Manager.{Arena}
use load_balancer.Config.{Config}
use load_balancer.Config.Valid.{IsValid}
use load_balancer.Errors.{GoError}
use load_balancer.Metrics.{Collector}
use load_balancer.Retry.{Env}
use load_balancer.Server.{Request, World}
use load_balancer.Server.Selection.{select_available_backend}
use load_balancer.Server.Transport.{Response, is_idempotent}
use load_balancer.Server.Proxy.{Reply, forwarded, error_reply, fault, serve_http}
use load_balancer.Middleware.SizeLimit.{Writer}
use load_balancer.Middleware.Exchange.{
  header, Out, connection, Outcome, returned, panicked, Exchange, Handler, client_status, emit,
  http_error, http_error-keeps, http_error-status, emit-keeps, emit-status,
}
use load_balancer.Middleware.Recovery.{answer}
use load_balancer.Entry.Startup.{Running, start}
use load_balancer.Entry.NetHttp.{NetRequest, Net, net_handler}
use load_balancer.Entry.Guards.Served.{refused_with, net_called}
use load_balancer.Entry.FirstRequest.{StateType, methods, first_world, IsFirstAnswer, first_answer}
use load_balancer.Entry.Started.{started}

-- What the proxy reads of a request.
abbrev pub to_request : ℕ → NetRequest → Request
to_request content_length r = record {
  method = r.method;
  forwarded_for = r.client.forwarded_for;
  remote_addr = r.client.remote_addr;
  content_length = content_length;
}

-- The status of a reply; net/http has none for a fault, which Recovery turns into 500.
abbrev pub reply_status : Reply → ℕ
reply_status (forwarded r) = r.status
reply_status (error_reply status text) = status
reply_status fault = 500

module _ {L : Type 0} {S : Type 0} where
  -- How a reply reaches the response writer.
  abbrev pub write_reply :
      Out → Reply → Exchange (Net L (World S)) → Exchange (Net L (World S)) × Outcome
  write_reply w (forwarded r) x = (emit w (header r.status) x, returned)
  write_reply w (error_reply status text) x = (http_error w (bytes text) status x, returned)
  write_reply w fault x = (x, panicked)

  module _ (status_text : ℕ → String) (st : Strategy S) (clock : ℕ → ℕ)
      (env : Ref → Env Response GoError) (content_length dur now : ℕ) where
    -- ServeHTTP as a handler.
    unfoldable pub proxy_handler : Handler NetRequest (Net L (World S))
    unfolding serve_http emit http_error
    proxy_handler w r x =
        let (world, reply) =
          serve_http status_text st clock (to_request content_length r) env dur now x.state.proxy in
        write_reply w reply (record x { state = record x.state { proxy = world } })

  write_reply_lem :
      (w : Out) (reply : Reply) (x : Exchange (Net L (World S)))
      → x.sent ≡ []
      → ((write_reply w reply x).0.state ≡ x.state)
        × (answer (write_reply w reply x) ≡ reply_status reply)
  write_reply_lem w (forwarded r) x fresh =
      ((emit-keeps w (header r.status) x).1, emit-status w r.status x fresh)
  write_reply_lem w (error_reply status text) x fresh = (
    (http_error-keeps w (bytes text) status x).1,
    http_error-status w (bytes text) status x fresh,
  )
  write_reply_lem w fault x fresh = (refl, rw fresh refl)

-- The exchange in which the first request starts.
abbrev pub first_exchange :
    {L : Type 0}
    → (run : Running) → Arena
    → Collector
    → Writer
    → Exchange (Net L (World (StateType run.strategy)))
first_exchange run arena m limiter = record {
  sent = [];
  limiter = limiter;
  log = [];
  state = record { response = []; identifier = []; limiters = []; proxy = first_world run arena m };
}

module _ {Ip : Type 0} {L : Type 0} (parse_ip : String → Option Ip)
    (cidr : String → Option (Ip → Bool)) (host_part : String → Option String)
    (first_field : String → String) (new_limiter : ℕ → ℕ → L) (allow : ℕ → L → L × Bool)
    (status_text : ℕ → String) (clock : ℕ → ℕ) (env : Ref → Env Response GoError)
    (content_length dur now : ℕ) where
  -- The handler of runNetHttp around the proxy, for a configuration and what main makes of it.
  abbrev pub site :
      (c : Config) (run : Running) → Handler NetRequest (Net L (World (StateType run.strategy)))
  site c run =
      net_handler parse_ip cidr host_part first_field new_limiter allow c
        (proxy_handler status_text (methods run.strategy) clock env content_length dur now)

  -- With a valid configuration main comes to the servers, and the first request, if no guard
  -- refuses it, is handed to one of the configured backends with the breaker of that one's host.
  -- It is answered through all middlewares with the status of the reply of ServeHTTP, which is
  -- what that backend answered to one of the attempts, or explains an error of them, as
  -- Server.Outcome.proxied-IsSettled has it; the breaker gets the one result.
  pub first_site_answer :
      (parse : String → Option Url) (exists : String → Bool) (h : Heap) (c : Config) (arena : Arena)
      (m : Collector) (limiter : Writer) (r : NetRequest)
      → IsValid parse exists c
      → refused_with parse_ip cidr host_part first_field new_limiter allow c r [] ≡ none
      → (run : Running) × (start parse h c ≡ some run)
        × (let e = site c run connection r (first_exchange run arena m limiter) in
            let w = first_world run arena m in
            let st = methods run.strategy in
            let req = to_request content_length r in
            let done = serve_http status_text st clock req env dur now w in
            (e.1 ≡ returned)
            × (e.0.state.proxy ≡ done.0)
            × (client_status e.0.sent ≡ reply_status done.1)
            × IsFirstAnswer run
                (select_available_backend st clock req w)
                (is_idempotent r.method)
                env
                now
                done)
  unfolding proxy_handler
  first_site_answer parse exists h c arena m limiter r valid passes =
      let (run, runs, _, _) = started parse exists h c "" valid in
      let st = methods run.strategy in
      let req = to_request content_length r in
      let x = first_exchange run arena m limiter in
      let w = first_world run arena m in
      let proxy = proxy_handler status_text st clock env content_length dur now in
      let (out, from, state, identified, fresh, same, ends, status) =
        net_called parse_ip cidr host_part first_field new_limiter allow c proxy r x refl passes in
      let done = serve_http status_text st clock req env dur now from.state.proxy in
      let y = record from { state = record from.state { proxy = done.0 } } in
      let (kept, told) = write_reply_lem out done.1 y fresh in
      let serve =
        λ (v : World (StateType run.strategy)). serve_http status_text st clock req env dur now v in
      let proxy_of = λ (n : Net L (World (StateType run.strategy))). n.proxy in
      (
        run,
        runs,
        (
          ends,
          ap proxy_of state ∙ ap proxy_of kept ∙ ap (λ v. (serve v).0) same,
          status ∙ told ∙ ap (λ v. reply_status (serve v).1) same,
          first_answer parse exists h c run arena m status_text clock req env dur now valid runs,
        ),
      )
