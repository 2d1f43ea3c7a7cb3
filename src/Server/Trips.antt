-- ===== src/Server/Trips.antt =====
-- Requests that overlap: the steps of many requests to the two proxies, in any order.
pub mod Balance
use load_balancer.Base.{
  ℕ, ◌+◌, ◌%◌, ◌<◌, ◌≡◌, refl, ap, ◌∙◌, Bool, true, false, Option, none, some, String, List, [],
  ◌∷◌, arith, ◌==◌, if◌then◌else◌, count, u64_mod, add64, sub64,
}
use load_balancer.Balancer.Backend.{
  Ref, increment_conn, decrement_conn, record_failure, record_success,
}
use load_balancer.Errors.{GoError}
use load_balancer.Metrics.{Collector, record_request}
use load_balancer.Retry.{Env}
use load_balancer.Server.{Request, World, host_of, report, to_metrics}
use load_balancer.Server.Transport.{
  Response, begin_trip, end_trip, forward, round_trip, record_retries, record_failed, status_of,
  size_of, not_negative,
}
use load_balancer.Server.Proxy.{Context, modify_response, error_handler, finish, proxied}
use load_balancer.Server.FastProxy.{
  FastRequest, Answer, refused, answered, begin_relay, refusal, outcome, relay,
}

-- A step of some request: its transport before and after the call, what is sent to the metrics, and
-- the handler of its response or of its error; or the fast proxy before the call, and after it.
pub data Step : Type 0 where
  begins ends relays : Ref → Step
  records : (Collector → Collector) → Step
  settles : Context → ℕ → Response → Step
  fails : Context → Request → ℕ → GoError → Step
  resolves : Ref → ℕ → FastRequest → ℕ → ℕ → Answer → Step

module _ {S : Type 0} (status_text : ℕ → String) where
  unfoldable pub take_step : Step → World S → World S
  unfolding begin_trip end_trip modify_response error_handler begin_relay outcome
  take_step (begins be) w = begin_trip be w
  take_step (ends be) w = end_trip be w
  take_step (relays be) w = begin_relay be w
  take_step (records f) w = to_metrics f w
  take_step (settles ctx now r) w = modify_response ctx now r w
  take_step (fails ctx req now e) w = (error_handler status_text ctx req now e w).0
  take_step (resolves be a req dur now answer) w = (outcome status_text be a req dur now answer w).0

  unfoldable pub take_steps : List Step → World S → World S
  unfolding take_step
  take_steps [] w = w
  take_steps (x ∷ xs) w = take_steps xs (take_step x w)

-- The last step, for what the transport returned.
abbrev pub handled : Ref → ℕ → Request → ℕ → Option Response → Option GoError → List Step
handled be a req now resp (some e) =
    fails (record { backend = some be; done = some a }) req now e ∷ []
handled be a req now (some r) none =
    settles (record { backend = some be; done = some a }) now r ∷ []
handled be a req now none none = []

-- The steps of a request to a backend with the given host, in order.
unfoldable pub net_trip :
    (ℕ → String) → String → Ref → ℕ → Request → Env Response GoError → ℕ → ℕ → List Step
unfolding forward
net_trip status_text host be a req env dur now =
    let o = forward req env in
    let count =
      record_request status_text host (status_of o.result) dur req.method
        (not_negative req.content_length) (size_of o.result) in
    begins be
    ∷ records (record_retries host o.told)
    ∷ ends be
    ∷ records count
    ∷ records (record_failed host o.error)
    ∷ handled be a req now o.result o.error

unfoldable pub fast_trip : Ref → ℕ → FastRequest → ℕ → ℕ → Answer → List Step
fast_trip be a req dur now answer = relays be ∷ resolves be a req dur now answer ∷ ends be ∷ []

module _ {S : Type 0} (status_text : ℕ → String) where
  handled-finish :
      (be : Ref) (a : ℕ) (req : Request) (now : ℕ) (resp : Option Response) (err : Option GoError)
      (w : World S)
      → take_steps status_text (handled be a req now resp err) w
        ≡ (finish status_text (record { backend = some be; done = some a }) req now resp err w).0
  unfolding take_steps finish
  handled-finish be a req now none (some e) w = refl
  handled-finish be a req now (some r) (some e) w = refl
  handled-finish be a req now (some r) none w = refl
  handled-finish be a req now none none w = refl

  -- A request alone, taken step by step, does what ServeHTTP does after the selection.
  pub net_trip-proxied :
      (be : Ref) (a : ℕ) (req : Request) (env : Env Response GoError) (dur now : ℕ) (w : World S)
      → take_steps status_text (net_trip status_text (host_of w be) be a req env dur now) w
        ≡ (proxied status_text be a req env dur now w).0
  unfolding take_steps net_trip proxied round_trip
  net_trip-proxied be a req env dur now w =
      let o = forward req env in
      handled-finish be a req now o.result o.error (round_trip status_text be req env dur w).0

  -- And the steps of one to the fast proxy do what its Handler does.
  pub fast_trip-relay :
      (be : Ref) (a : ℕ) (req : FastRequest) (dur now : ℕ) (answer : Answer) (w : World S)
      → take_steps status_text (fast_trip be a req dur now answer) w
        ≡ (relay status_text be a req dur now answer w).0
  unfolding take_steps fast_trip relay
  fast_trip-relay be a req dur now answer w = refl
