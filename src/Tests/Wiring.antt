-- ===== src/Tests/Wiring.antt =====
-- The programs of cmd/ put together, on a small configuration.
use load_balancer.Base.{none, ℕ, ◌+◌, ◌≡◌, refl, false, some, String, List, [], ◌∷◌, bytes}
use load_balancer.Base.Dict.{lookup}
use load_balancer.Breaker.{new_breaker}
use load_balancer.Breaker.Manager.{Arena}
use load_balancer.Middleware.SizeLimit.{new_writer}
use load_balancer.Errors.{GoError}
use load_balancer.Metrics.{new_collector}
use load_balancer.Retry.{Env, ok}
use load_balancer.Server.{proxy_config}
use load_balancer.Server.Selection.{select_available_backend}
use load_balancer.Server.Transport.{Response, is_idempotent}
use load_balancer.Server.Proxy.{serve_http}
use load_balancer.Entry.FirstRequest.{methods, first_world, IsFirstAnswer}
use load_balancer.Entry.Site.{to_request, reply_status, first_exchange, site, first_site_answer}
use load_balancer.Tests.Fixtures.{
  good, parse_url, no_file, three, bucket, parse_ip, cidr, host_part,
}
use load_balancer.Balancer.Backend.{Ref}
use load_balancer.Config.{Config}
use load_balancer.Config.Valid.{IsValid, validate_config_iff}
use load_balancer.Config.Validator.{
  validate_config, validate_server, validate_backends, validate_each, validate_backend,
  validate_health, validate_rate_limit, validate_strategy, validate_tls, validate_security,
}
use load_balancer.Entry.Startup.{Running, start}
use load_balancer.Tracing.RequestId
use load_balancer.Tracing.RequestId.{Context, background, set_request_id, header, id_header}
use load_balancer.Middleware.Exchange.{
  body, connection, returned, panicked, Exchange, Handler, client_status, send,
}
use load_balancer.Middleware.RateLimit.{limit, get_limiter}
use load_balancer.Entry.NetHttp.{NetRequest, Net}
use load_balancer.Entry.FastHttp.{FastContext, FastHandler, fast_handler}
use load_balancer.Entry.FastServed.{fast_handler-IsServed, IsServed as FastIsServed, passes}

pub good-IsValid : IsValid parse_url no_file good
unfolding validate_config validate_server validate_backends validate_each validate_backend
    validate_health validate_rate_limit validate_strategy validate_tls validate_security
good-IsValid = (validate_config_iff parse_url no_file good).0 refl

abbrev pub L : Type 0
L = ℕ × ℕ

-- A bucket that starts full, whatever the rate.
abbrev pub full : ℕ → ℕ → L
full rps burst = (0, 2)

-- The blacklist holds "b".
abbrev guarded_site : Config
guarded_site = record good { security = record good.security { ip_blacklist = "b" ∷ [] } }

abbrev pub asks : String → NetRequest
asks remote = record {
  method = "GET";
  origin = "";
  client = record { forwarded_for = ""; real_ip = ""; remote_addr = remote };
  headers = [];
  context = background;
  generated = bytes "0f";
  time = 1;
}

-- A proxy that counts its calls, sends two bytes and panics.
abbrev pub faulty : Handler NetRequest (Net L ℕ)
faulty w r x = (
  send (body (1 ∷ 2 ∷ [])) (record x { state = record x.state { proxy = x.state.proxy + 1 } }),
  panicked,
)

abbrev pub begin : Exchange (Net L ℕ)
begin = record {
  sent = [];
  limiter = record {
    max_size = 0;
    written = 0;
    status = 0;
    hijacked = false;
    passed = 0;
    headers = [];
  };
  log = [];
  state = record { response = []; identifier = []; limiters = []; proxy = 0 };
}

abbrev pub whole : String → String
whole s = s

-- A response is its status; ctx.Error sets it.
abbrev pub set_error : List ℕ → ℕ → RequestId.Headers × ℕ → RequestId.Headers × ℕ
set_error message code (h, status) = ([], code)

abbrev echo : FastHandler (FastContext ℕ L ℕ)
echo (ctx, log) = ((record ctx { response = 200; proxy = ctx.proxy + 1 }, log), returned)

abbrev fast_context : FastContext ℕ L ℕ
fast_context = record {
  remote_ip = "a";
  time = 1;
  request = [];
  generated = bytes "0f";
  response_headers = [];
  response = 200;
  values = [];
  limiters = [];
  proxy = 0;
}

fast_handler-IsServed_example :
    FastIsServed set_error
      (λ status. status)
      (λ status. 2)
      full
      bucket
      good
      echo
      fast_context
      []
      (passes set_error (λ status. status) (λ status. 2) full bucket good fast_context)
      (fast_handler set_error
        (λ status. status)
        (λ status. 2)
        full
        bucket
        good
        echo
        (fast_context, []))
fast_handler-IsServed_example =
    fast_handler-IsServed set_error (λ status. status) (λ status. 2) full bucket good echo
      fast_context []

-- The backend answers 200 with five bytes.
abbrev answers_ok : Ref → Env Response GoError
answers_ok b = record {
  call = λ i. ok (record { status = 200; content_length = 5 });
  done = λ i. none;
}

abbrev pub arena : Arena
arena = record { cell = λ a. new_breaker "" proxy_config; next = 0 }

abbrev pub steady : ℕ → ℕ
steady i = 60

abbrev pub status_name : ℕ → String
status_name status = "OK"

first_site_answer_example :
    (run : Running) × (start parse_url three good ≡ some run)
    × (let e =
          site parse_ip cidr host_part whole full bucket status_name steady answers_ok 0 1 60 good
            run connection
            (asks "a:1")
            (first_exchange run arena new_collector (new_writer 0)) in
        let w = first_world run arena new_collector in
        let st = methods run.strategy in
        let req = to_request 0 (asks "a:1") in
        let done = serve_http status_name st steady req answers_ok 1 60 w in
        (e.1 ≡ returned)
        × (e.0.state.proxy ≡ done.0)
        × (client_status e.0.sent ≡ reply_status done.1)
        × IsFirstAnswer run
            (select_available_backend st steady req w)
            (is_idempotent "GET")
            answers_ok
            60
            done)
unfolding limit get_limiter lookup
first_site_answer_example =
    first_site_answer parse_ip cidr host_part whole full bucket status_name steady answers_ok 0 1 60
      parse_url no_file three good arena new_collector (new_writer 0) (asks "a:1") good-IsValid refl
