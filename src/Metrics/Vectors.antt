-- ===== src/Metrics/Vectors.antt =====
-- The vectors that NewCollector of internal/metrics/collector.go makes and registers. Bucket bounds
-- are numbers: of ten-thousandths of a second for durations, of bytes for sizes. The texts of Help
-- are left out.
use load_balancer.Base.{
  ℕ, zero, suc, ◌*◌, ◌≡◌, refl, Bool, true, not, ◌&&◌, some, String, List, [], ◌∷◌, map, str_eq,
  ltb, get_elem?,
}

-- The fields of Collector that hold a vector (one of them a plain gauge).
pub data Vector : Type 0 where
  request_total_vec request_duration_vec active_conns_agg_vec backend_conns_vec : Vector
  bytes_in_total_vec bytes_out_total_vec request_size_vec response_size_vec error_rate_vec : Vector
  backend_health_vec health_check_duration_vec consecutive_failures_vec circuit_state_vec : Vector
  circuit_trips_vec circuit_rejections_vec retries_total_vec retries_exhausted_vec : Vector
  rate_limited_total_vec blocked_requests_vec : Vector

pub data Kind : Type 0 where
  counter gauge histogram : Kind

pub record Options : Type 0 where
  pub kind : Kind
  pub name : String
  pub labels : List String
  pub buckets : List ℕ

-- prometheus.ExponentialBuckets.
abbrev pub exponential_buckets : ℕ → ℕ → ℕ → List ℕ
exponential_buckets start factor zero = []
exponential_buckets start factor (suc n) = start ∷ exponential_buckets (start * factor) factor n

abbrev options_of : Kind → String → List String → List ℕ → Options
options_of kind name labels buckets = record {
  kind = kind;
  name = name;
  labels = labels;
  buckets = buckets;
}

unfoldable pub options : Vector → Options
options request_total_vec =
    options_of counter "proxy_requests_total" ("backend" ∷ "status" ∷ "method" ∷ "code" ∷ []) []
options request_duration_vec =
    options_of histogram "proxy_request_duration_seconds" ("backend" ∷ "status" ∷ []) (
      5 ∷ 10 ∷ 25 ∷ 50 ∷ 100 ∷ 250 ∷ 500 ∷ 1000 ∷ 2500 ∷ 5000 ∷ 10000 ∷ 25000 ∷ 50000 ∷ 100000 ∷ [])
options active_conns_agg_vec = options_of gauge "proxy_active_connections_aggregate" [] []
options backend_conns_vec = options_of gauge "proxy_backend_active_connections" ("backend" ∷ []) []
options bytes_in_total_vec = options_of counter "proxy_bytes_in_total" ("backend" ∷ []) []
options bytes_out_total_vec = options_of counter "proxy_bytes_out_total" ("backend" ∷ []) []
options request_size_vec =
    options_of histogram "proxy_request_size_bytes" ("backend" ∷ []) (exponential_buckets 128 4 8)
options response_size_vec =
    options_of histogram "proxy_response_size_bytes" ("backend" ∷ []) (exponential_buckets 128 4 8)
options error_rate_vec = options_of counter "proxy_errors_total" ("backend" ∷ "error_type" ∷ []) []
options backend_health_vec = options_of gauge "proxy_backend_health" ("backend" ∷ []) []
options health_check_duration_vec =
    options_of histogram "proxy_backend_health_check_duration_seconds" ("backend" ∷ [])
      (10 ∷ 50 ∷ 100 ∷ 250 ∷ 500 ∷ 1000 ∷ 2500 ∷ 5000 ∷ 10000 ∷ 20000 ∷ [])
options consecutive_failures_vec =
    options_of gauge "proxy_backend_consecutive_failures" ("backend" ∷ []) []
options circuit_state_vec = options_of gauge "proxy_circuit_breaker_state" ("backend" ∷ []) []
options circuit_trips_vec =
    options_of counter "proxy_circuit_breaker_trips_total" ("backend" ∷ []) []
options circuit_rejections_vec =
    options_of counter "proxy_circuit_breaker_rejections_total" ("backend" ∷ []) []
options retries_total_vec = options_of counter "proxy_retries_total" ("backend" ∷ "attempt" ∷ []) []
options retries_exhausted_vec =
    options_of counter "proxy_retries_exhausted_total" ("backend" ∷ []) []
options rate_limited_total_vec = options_of counter "proxy_rate_limited_total" ("client_ip" ∷ []) []
options blocked_requests_vec = options_of counter "proxy_blocked_requests_total" ("reason" ∷ []) []

-- reg.MustRegister.
unfoldable pub registered : List Vector
registered =
    request_total_vec ∷ request_duration_vec ∷ active_conns_agg_vec ∷ backend_conns_vec
    ∷ bytes_in_total_vec ∷ bytes_out_total_vec ∷ request_size_vec ∷ response_size_vec
    ∷ error_rate_vec ∷ backend_health_vec ∷ health_check_duration_vec ∷ consecutive_failures_vec
    ∷ circuit_state_vec ∷ circuit_trips_vec ∷ circuit_rejections_vec ∷ retries_total_vec
    ∷ retries_exhausted_vec ∷ rate_limited_total_vec ∷ blocked_requests_vec ∷ []

abbrev pub is_new : String → List String → Bool
is_new name [] = true
is_new name (other ∷ names) = not (str_eq name other) && is_new name names

-- No name stands twice.
abbrev pub is_distinct : List String → Bool
is_distinct [] = true
is_distinct (name ∷ names) = is_new name names && is_distinct names

abbrev pub is_increasing : List ℕ → Bool
is_increasing [] = true
is_increasing (x ∷ []) = true
is_increasing (x ∷ y ∷ zs) = ltb x y && is_increasing (y ∷ zs)

increasing : (v : Vector) → is_increasing (options v).buckets ≡ true
unfolding options
increasing request_total_vec = refl
increasing request_duration_vec = refl
increasing active_conns_agg_vec = refl
increasing backend_conns_vec = refl
increasing bytes_in_total_vec = refl
increasing bytes_out_total_vec = refl
increasing request_size_vec = refl
increasing response_size_vec = refl
increasing error_rate_vec = refl
increasing backend_health_vec = refl
increasing health_check_duration_vec = refl
increasing consecutive_failures_vec = refl
increasing circuit_state_vec = refl
increasing circuit_trips_vec = refl
increasing circuit_rejections_vec = refl
increasing retries_total_vec = refl
increasing retries_exhausted_vec = refl
increasing rate_limited_total_vec = refl
increasing blocked_requests_vec = refl

place : (v : Vector) → (i : ℕ) × (get_elem? registered i ≡ some v)
unfolding registered
place request_total_vec = (0, refl)
place request_duration_vec = (1, refl)
place active_conns_agg_vec = (2, refl)
place backend_conns_vec = (3, refl)
place bytes_in_total_vec = (4, refl)
place bytes_out_total_vec = (5, refl)
place request_size_vec = (6, refl)
place response_size_vec = (7, refl)
place error_rate_vec = (8, refl)
place backend_health_vec = (9, refl)
place health_check_duration_vec = (10, refl)
place consecutive_failures_vec = (11, refl)
place circuit_state_vec = (12, refl)
place circuit_trips_vec = (13, refl)
place circuit_rejections_vec = (14, refl)
place retries_total_vec = (15, refl)
place retries_exhausted_vec = (16, refl)
place rate_limited_total_vec = (17, refl)
place blocked_requests_vec = (18, refl)

-- Every vector is registered, no two registered ones have one name, and the bucket bounds of every
-- vector increase.
pub registered_all :
    (v : Vector)
    → ((i : ℕ) × (get_elem? registered i ≡ some v))
      × (is_distinct (map (λ u. (options u).name) registered) ≡ true)
      × (is_increasing (options v).buckets ≡ true)
unfolding registered options
registered_all v = (place v, refl, increasing v)
