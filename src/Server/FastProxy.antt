-- ===== src/Server/FastProxy.antt =====
-- internal/server/fastproxy.go: selectBackend and Handler. What client.Do returns is given. The
-- connection pool per address, the headers and the bodies, of which only the length is kept, and
-- the dashboard's file belong to fasthttp.
use load_balancer.Base.{
  ℕ, Bool, true, false, ◌||◌, Option, none, some, String, str_eq, leb, if◌then◌else◌, add64,
}
use load_balancer.Balancer.Backend.{Ref, increment_conn, record_failure, record_success}
use load_balancer.Balancer.Strategy.{Strategy}
use load_balancer.Errors.{GoError, proxy, new_backend_error}
use load_balancer.Metrics.{record_request, record_error, set_active}
use load_balancer.Server.{World, host_of, on_backend, to_metrics, report}
use load_balancer.Server.Selection.{choose, guarded}
use load_balancer.Server.Transport.{show_conns, end_trip}

pub record FastRequest : Type 0 where
  pub path : String
  pub method : String
  pub forwarded_for : String
  pub remote_ip : String
  pub body_length : ℕ

-- client.Do: an error, or a status with the length of a body.
pub data Answer : Type 0 where
  refused : GoError → Answer
  answered : ℕ → ℕ → Answer

pub data FastReply : Type 0 where
  dashboard : FastReply
  relayed : ℕ → FastReply
  error_reply : ℕ → String → FastReply

abbrev pub fast_key : FastRequest → String
fast_key req = if str_eq req.forwarded_for "" then req.remote_ip else req.forwarded_for

abbrev pub is_dashboard : String → Bool
is_dashboard path = str_eq path "/test/dashboard" || str_eq path "/dashboard"

-- proxyErr.Message.
abbrev message_of : GoError → String
message_of (proxy t status message host e) = message
message_of _ = ""

module _ {S : Type 0} where
  unfoldable pub select_backend :
      Strategy S → (ℕ → ℕ) → FastRequest → World S → World S × Option (Ref × ℕ)
  unfolding choose guarded
  select_backend st clock req w =
      let (w', be) = choose st (fast_key req) w in
      elim be [ none ↦ (w', none) | some b ↦ guarded clock b w' ]

  -- The counters before the call; the deferred function is the transport's `end_trip`.
  unfoldable pub begin_relay : Ref → World S → World S
  begin_relay be w =
      let w' = show_conns be (on_backend increment_conn be w) in
      to_metrics (set_active (add64 w'.metrics.active_conns 1)) w'

  module _ (status_text : ℕ → String) where
    unfoldable pub refusal : Ref → ℕ → FastRequest → ℕ → GoError → World S → World S × FastReply
    unfolding report record_failure new_backend_error
    refusal be a req now e w =
        let w' = on_backend record_failure be (report a false now w) in
        let host = host_of w' be in
        (
          to_metrics
              (λ c.
                record_error host "proxy_error"
                  (record_request status_text host 502 0 req.method req.body_length 0 c))
              w',
          error_reply 502 (message_of (new_backend_error e host)),
        )

    -- The branches after client.Do.
    unfoldable pub outcome : Ref → ℕ → FastRequest → ℕ → ℕ → Answer → World S → World S × FastReply
    unfolding refusal report record_failure record_success
    outcome be a req dur now (refused e) w = refusal be a req now e w
    outcome be a req dur now (answered status size) w =
        let w' =
          if leb 500 status
          then on_backend record_failure be (report a false now w)
          else on_backend record_success be (report a true now w) in
        (
          to_metrics
              (record_request status_text (host_of w' be) status dur req.method req.body_length
                size)
              w',
          relayed status,
        )

    unfoldable pub relay : Ref → ℕ → FastRequest → ℕ → ℕ → Answer → World S → World S × FastReply
    unfolding begin_relay outcome end_trip
    relay be a req dur now answer w =
        let (w', reply) = outcome be a req dur now answer (begin_relay be w) in
        (end_trip be w', reply)

    unfoldable pub nobody : FastRequest → World S → World S × FastReply
    nobody req w = (
      to_metrics
          (λ c.
            record_error "none" "all_backends_unavailable"
              (record_request status_text "none" 503 0 req.method req.body_length 0 c))
          w,
      error_reply 503 "Service Unavailable: No healthy backends available",
    )

    -- Handler.
    unfoldable pub handler :
        Strategy S → (ℕ → ℕ) → FastRequest → Answer → ℕ → ℕ → World S → World S × FastReply
    unfolding select_backend relay nobody
    handler st clock req answer dur now w =
        let (w', chosen) = select_backend st clock req w in
        let served : World S × FastReply = elim chosen [
          | none ↦ nobody req w'
          | some (be, a) ↦ relay be a req dur now answer w'
        ] in
        if is_dashboard req.path then (w, dashboard) else served
