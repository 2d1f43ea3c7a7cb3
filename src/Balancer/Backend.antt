-- ===== src/Balancer/Backend.antt =====
-- internal/balancer/backend.go. A backend is shared by pointer: a pointer is a number, and the heap
-- maps it to the record. The mutex and the atomics make each method one step. The int64 counters
-- and the int weight are bit patterns below 2^64.
use load_balancer.Base.{
  ℕ, Bool, true, Option, none, some, String, add64, sub64, is_nonpos, ◌==◌, if◌then◌else◌,
}

-- What the code reads of a `*url.URL`: Scheme, Host and the result of String().
pub record Url : Type 0 where
  pub scheme : String
  pub host : String
  pub text : String

pub record Backend : Type 0 where
  pub url : Url
  pub weight : ℕ  -- int
  pub alive : Bool
  pub connections : ℕ  -- int64
  pub total_requests : ℕ  -- int64
  pub failed_requests : ℕ  -- int64
  pub consecutive_failures : ℕ  -- int64

abbrev pub Ref : Type 0
Ref = ℕ

abbrev pub Heap : Type 0
Heap = Ref → Backend

-- The method `f`, called on the backend behind `r`.
abbrev pub modify : (Backend → Backend) → Ref → Heap → Heap
modify f r h s = if s == r then f (h s) else h s

-- NewBackend; `parse` is url.Parse, and `none` its error.
unfoldable pub new_backend : (String → Option Url) → String → ℕ → Option Backend
new_backend parse raw weight = elim (parse raw) [
  | none ↦ none
  | some u ↦ some (record {
    url = u;
    weight = if is_nonpos weight then 1 else weight;
    alive = true;
    connections = 0;
    total_requests = 0;
    failed_requests = 0;
    consecutive_failures = 0;
  })
]

unfoldable pub set_alive : Bool → Backend → Backend
set_alive v b = record b {
  alive = v;
  consecutive_failures = if v then 0 else b.consecutive_failures;
}

unfoldable pub is_alive : Backend → Bool
is_alive b = b.alive

unfoldable pub active_connections : Backend → ℕ
active_connections b = b.connections

unfoldable pub increment_conn : Backend → Backend
increment_conn b = record b {
  connections = add64 b.connections 1;
  total_requests = add64 b.total_requests 1;
}

unfoldable pub decrement_conn : Backend → Backend
decrement_conn b = record b { connections = sub64 b.connections 1 }

unfoldable pub record_failure : Backend → Backend
record_failure b = record b {
  failed_requests = add64 b.failed_requests 1;
  consecutive_failures = add64 b.consecutive_failures 1;
}

unfoldable pub record_success : Backend → Backend
record_success b = record b { consecutive_failures = 0 }
