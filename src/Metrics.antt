-- ===== src/Metrics.antt =====
-- internal/metrics/collector.go. The Prometheus vectors belong to the client library: what the
-- collector tells them is the list of samples it sends, the newest last. A duration is a number,
-- and `0` stands for one that is not positive. Sizes are int bit patterns; a status is not negative.
pub mod Totals
pub mod Counts
pub mod Vectors
use load_balancer.Base.{
  ℕ, ◌+◌, Bool, Option, String, List, [], ◌∷◌, ◌++◌, str_eq, leb, if◌then◌else◌, add64, is_nonpos,
  show_nat,
}
use mathlib.Core.Option
use load_balancer.Base.Dict.{lookup, insert}

pub data Sample : Type 0 where
  request_total : String → String → String → String → Sample
  request_duration : String → String → ℕ → Sample
  request_size bytes_in response_size bytes_out : String → ℕ → Sample
  error_count : String → String → Sample
  active_conns_aggregate : ℕ → Sample
  backend_conns : String → ℕ → Sample
  backend_health : String → Bool → Sample
  health_check_duration : String → ℕ → Sample
  consecutive_fails : String → ℕ → Sample
  circuit_state : String → ℕ → Sample
  circuit_trip circuit_rejection retry_exhausted : String → Sample
  retry_attempt : String → String → Sample
  rate_limited blocked : String → Sample

pub record Collector : Type 0 where
  pub sent : List Sample
  pub active_conns : ℕ  -- int64
  pub status_codes : List (String × ℕ)
  pub backend_reqs : List (String × ℕ)

-- The state that NewCollector makes; registering the vectors is the library's.
unfoldable pub new_collector : Collector
new_collector = record { sent = []; active_conns = 0; status_codes = []; backend_reqs = [] }

abbrev pub send : List Sample → Collector → Collector
send ss c = record c { sent = c.sent ++ ss }

-- `m[k]++` on a map[string]int64.
unfoldable pub bump : String → List (String × ℕ) → List (String × ℕ)
bump k m = insert k (add64 (Option.get_or (lookup k m) 0) 1) m

abbrev when_positive : ℕ → List Sample → List Sample
when_positive n ss = if is_nonpos n then [] else ss

abbrev error_class : String → ℕ → List Sample
error_class backend status =
    if leb 500 status
    then error_count backend "5xx" ∷ []
    else if leb 400 status
    then error_count backend "4xx" ∷ []
    else []

-- RecordRequest; `status_text` is http.StatusText.
module _ (status_text : ℕ → String) where
  unfoldable pub record_request : String → ℕ → ℕ → String → ℕ → ℕ → Collector → Collector
  record_request backend status dur method req_size resp_size c =
      let st = if str_eq (status_text status) "" then "unknown" else status_text status in
      let code = show_nat status in
      let c' =
        send
          (request_total backend st method code
            ∷ (when_positive dur (request_duration backend st dur ∷ [])
                ++ (when_positive req_size
                      (request_size backend req_size ∷ bytes_in backend req_size ∷ [])
                    ++ (when_positive resp_size
                          (response_size backend resp_size ∷ bytes_out backend resp_size ∷ [])
                        ++ error_class backend status))))
          c in
      record c' {
        status_codes = bump code c.status_codes;
        backend_reqs = bump backend c.backend_reqs;
      }

unfoldable pub set_active : ℕ → Collector → Collector
set_active n c = record (send (active_conns_aggregate n ∷ []) c) { active_conns = n }

unfoldable pub set_backend_active : String → ℕ → Collector → Collector
set_backend_active backend n c = send (backend_conns backend n ∷ []) c

unfoldable pub set_backend_health : String → Bool → Collector → Collector
set_backend_health backend healthy c = send (backend_health backend healthy ∷ []) c

unfoldable pub record_health_check : String → ℕ → ℕ → Collector → Collector
record_health_check backend dur fails c =
    send
      (when_positive dur (health_check_duration backend dur ∷ [])
        ++ consecutive_fails backend fails ∷ [])
      c

unfoldable pub record_error : String → String → Collector → Collector
record_error backend kind c = send (error_count backend kind ∷ []) c

unfoldable pub set_circuit_breaker_state : String → ℕ → Collector → Collector
set_circuit_breaker_state backend s c = send (circuit_state backend s ∷ []) c

unfoldable pub record_circuit_breaker_trip : String → Collector → Collector
record_circuit_breaker_trip backend c = send (circuit_trip backend ∷ []) c

unfoldable pub record_circuit_breaker_rejection : String → Collector → Collector
record_circuit_breaker_rejection backend c = send (circuit_rejection backend ∷ []) c

unfoldable pub record_retry : String → ℕ → Collector → Collector
record_retry backend attempt c = send (retry_attempt backend (show_nat attempt) ∷ []) c

unfoldable pub record_retries_exhausted : String → Collector → Collector
record_retries_exhausted backend c = send (retry_exhausted backend ∷ []) c

unfoldable pub record_rate_limited : String → Collector → Collector
record_rate_limited client_ip c = send (rate_limited client_ip ∷ []) c

unfoldable pub record_blocked_request : String → Collector → Collector
record_blocked_request reason c = send (blocked reason ∷ []) c

pub record Snapshot : Type 0 where
  pub active_connections : ℕ
  pub status_codes : List (String × ℕ)
  pub backend_requests : List (String × ℕ)

-- GetSnapshot, less the uptime; the copies of the maps are the maps.
unfoldable pub get_snapshot : Collector → Snapshot
get_snapshot c = record {
  active_connections = c.active_conns;
  status_codes = c.status_codes;
  backend_requests = c.backend_reqs;
}
