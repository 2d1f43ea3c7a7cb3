-- ===== src/Server/Session/WellFormed.antt =====
-- The breakers through whole lives of the proxy.
use load_balancer.Base.{
  ℕ, inl, inr, true, false, Option, none, some, String, List, [], ◌∷◌, leb, Bool-cases,
}
use load_balancer.Balancer.Backend.{Ref, record_failure, record_success}
use load_balancer.Balancer.Pool.{all_backends}
use load_balancer.Balancer.Strategy.{Strategy}
use load_balancer.Breaker.{trip_manually, reset_manually}
use load_balancer.Breaker.Manager.{IsValid}
use load_balancer.Breaker.Names.{trip_manually-name, reset_manually-name}
use load_balancer.Errors.{GoError}
use load_balancer.Retry.{Env}
use load_balancer.Server.{Request, World, on_backend}
use load_balancer.Server.Admin.{api_backends, toggle, chaos_backend}
use load_balancer.Balancer.Pool.{get_backend_by_host}
use load_balancer.Server.FastAdmin.{fast_chaos_trip, fast_chaos_reset, fast_api_backends}
use load_balancer.Server.FastProxy.{
  FastRequest, Answer, refused, answered, FastReply, fast_key, is_dashboard, begin_relay, refusal,
  outcome, relay, nobody, select_backend, handler,
}
use load_balancer.Server.Probed.{probed}
use load_balancer.Server.Proxy.{
  finish, error_handler, modify_response, proxied, turn_away, dispatch, serve_http,
}
use load_balancer.Server.Selection.{choose, guarded, select_available_backend}
use load_balancer.Server.Session.{
  Event, request, round, trip, reset, switch, show, fast_request, fast_trip, fast_reset, fast_show,
  happen, live,
}
use load_balancer.Server.Session.Named.{
  IsNamed, report-IsNamed, on_breaker-IsNamed, guarded-IsNamed, select-IsNamed, show_states-IsNamed,
  chaos_trip-IsNamed, chaos_reset-IsNamed,
}
use load_balancer.Server.Transport.{Response, begin_trip, end_trip, round_trip}

module _ {S : Type 0} (status_text : ℕ → String) where
  finish-IsNamed :
      (be : Ref) (a : ℕ) (req : Request) (now : ℕ) (resp : Option Response) (err : Option GoError)
      (w : World S)
      → IsNamed w
      → IsNamed
          (finish status_text (record { backend = some be; done = some a }) req now resp err w).0
  unfolding finish error_handler modify_response
  finish-IsNamed be a req now none none w v = v
  finish-IsNamed be a req now resp (some e) w v = report-IsNamed a false now w v
  finish-IsNamed be a req now (some x) none w v = elim (Bool-cases (leb 500 x.status)) [
    | inl t ↦ rw t (report-IsNamed a false now (on_backend record_failure be w) v)
    | inr t ↦ rw t (report-IsNamed a true now (on_backend record_success be w) v)
  ]

  dispatch-IsNamed :
      (req : Request) (env : Ref → Env Response GoError) (dur now : ℕ) (chosen : Option (Ref × ℕ))
      (w : World S)
      → IsNamed w
      → IsNamed (dispatch status_text req env dur now chosen w).0
  unfolding turn_away proxied round_trip begin_trip end_trip
  dispatch-IsNamed req env dur now none w v = v
  dispatch-IsNamed req env dur now (some (be, a)) w v =
      let back = round_trip status_text be req (env be) dur w in
      finish-IsNamed be a req now back.1 back.2 back.0 v

  outcome-IsNamed :
      (be : Ref) (a : ℕ) (req : FastRequest) (dur now : ℕ) (answer : Answer) (w : World S)
      → IsNamed w
      → IsNamed (outcome status_text be a req dur now answer w).0
  unfolding outcome refusal
  outcome-IsNamed be a req dur now (refused e) w v = report-IsNamed a false now w v
  outcome-IsNamed be a req dur now (answered status size) w v = elim (Bool-cases (leb 500 status)) [
    | inl t ↦ rw t (report-IsNamed a false now w v)
    | inr t ↦ rw t (report-IsNamed a true now w v)
  ]

  fast_selected-IsNamed :
      (clock : ℕ → ℕ) (w : World S) (chosen : Option Ref)
      → IsNamed w
      → let out : World S × Option (Ref × ℕ) = elim chosen [
        | none ↦ (w, none)
        | some b ↦ guarded clock b w
      ] in
        IsNamed out.0
  fast_selected-IsNamed clock w none v = v
  fast_selected-IsNamed clock w (some b) v = guarded-IsNamed clock b w v

  fast_served-IsNamed :
      (req : FastRequest) (answer : Answer) (dur now : ℕ) (chosen : Option (Ref × ℕ)) (w : World S)
      → IsNamed w
      → let out : World S × FastReply = elim chosen [
        | none ↦ nobody status_text req w
        | some (be, a) ↦ relay status_text be a req dur now answer w
      ] in
        IsNamed out.0
  unfolding nobody relay begin_relay end_trip
  fast_served-IsNamed req answer dur now none w v = v
  fast_served-IsNamed req answer dur now (some (be, a)) w v =
      outcome-IsNamed be a req dur now answer (begin_relay be w) v

  handler-IsNamed :
      (st : Strategy S) (clock : ℕ → ℕ) (req : FastRequest) (answer : Answer) (dur now : ℕ)
      (w : World S)
      → IsNamed w
      → IsNamed (handler status_text st clock req answer dur now w).0
  unfolding handler select_backend choose
  handler-IsNamed st clock req answer dur now w v =
      let named = choose st (fast_key req) w in
      let picked = select_backend st clock req w in
      elim (Bool-cases (is_dashboard req.path)) [
        | inl e ↦ rw e v
        | inr e ↦ rw e (
            fast_served-IsNamed req answer dur now picked.1 picked.0
              (fast_selected-IsNamed clock named.0 named.1 v))
      ]

  toggle-IsNamed : (found : Option Ref) (w : World S) → IsNamed w → IsNamed (toggle found w).0
  toggle-IsNamed none w v = v
  toggle-IsNamed (some r) w v = v

  module _ (st : Strategy S) where
    happen-IsNamed : (e : Event) (w : World S) → IsNamed w → IsNamed (happen status_text st e w)
    unfolding happen serve_http chaos_backend api_backends probed fast_chaos_trip fast_chaos_reset
        fast_api_backends
    happen-IsNamed (request req clock env dur now) w v =
        let picked = select_available_backend st clock req w in
        dispatch-IsNamed req env dur now picked.1 picked.0 (select-IsNamed st clock req w v)
    happen-IsNamed (round probes rs) w v = v
    happen-IsNamed (trip host now) w v = chaos_trip-IsNamed host now w v
    happen-IsNamed (reset host now) w v = chaos_reset-IsNamed host now w v
    happen-IsNamed (switch host) w v = toggle-IsNamed (get_backend_by_host w.heap w.pool host) w v
    happen-IsNamed (show now) w v = show_states-IsNamed now (all_backends w.pool) w v
    happen-IsNamed (fast_request req clock answer dur now) w v =
        handler-IsNamed st clock req answer dur now w v
    happen-IsNamed (fast_trip host now) w v =
        on_breaker-IsNamed (trip_manually now) host w (trip_manually-name now) v
    happen-IsNamed (fast_reset host now) w v =
        on_breaker-IsNamed (reset_manually now) host w (reset_manually-name now) v
    happen-IsNamed (fast_show now) w v = show_states-IsNamed now (all_backends w.pool) w v

    -- Whatever requests to either proxy, rounds of the checker and calls of the admin routes follow
    -- one another, if every breaker in the map was allocated and bore the name that it stands under
    -- before, then so it is after.
    pub live-IsValid :
        (es : List Event) (w : World S)
        → IsValid w.breakers
        → IsValid (live status_text st es w).breakers
    unfolding live
    live-IsValid [] w v = v
    live-IsValid (e ∷ es) w v = live-IsValid es (happen status_text st e w) (happen-IsNamed e w v)
