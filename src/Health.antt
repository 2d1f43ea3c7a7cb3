-- ===== src/Health.antt =====
-- internal/health/checker.go. A probe's outcome is given: the request could not be made, the call
-- failed, or a status came back; with the seconds it took. checkAll starts a goroutine for each
-- backend, so the probes end in any order: a round is a list of them. Logging is left out, and the
-- ticker is the sequence of rounds.
pub mod Rounds
pub mod Loop
use load_balancer.Base.{ℕ, Bool, false, ◌&&◌, List, [], ◌∷◌, ltb, leb, if◌then◌else◌}
use load_balancer.Balancer.Backend.{
  Heap, Ref, Backend, modify, is_alive, set_alive, record_failure, record_success,
}
use load_balancer.Metrics.{Collector, set_backend_health, record_health_check}

pub data Outcome : Type 0 where
  bad_request call_failed : Outcome
  answered : ℕ → Outcome

-- The checker's setAlive, on the backend; the change of its health is only logged.
unfoldable pub mark : Bool → Backend → Backend
mark alive b = let b' = set_alive alive b in if alive then record_success b' else record_failure b'

-- setAlive, with the metrics, where a collector is set.
unfoldable pub check_alive : Bool → ℕ → Ref → Heap × Collector → Heap × Collector
check_alive alive dur r (h, c) =
    let h' = modify (mark alive) r h in
    let host = (h' r).url.host in
    (h', record_health_check host dur (h' r).consecutive_failures (set_backend_health host alive c))

abbrev pub is_success : Outcome → Bool
is_success bad_request = false
is_success call_failed = false
is_success (answered status) = leb 200 status && ltb status 300

unfoldable pub probe : Outcome → ℕ → Ref → Heap × Collector → Heap × Collector
probe o dur r s = check_alive (is_success o) dur r s

-- One round: the probes in the order in which they end.
unfoldable pub check_all : (Ref → Outcome × ℕ) → List Ref → Heap × Collector → Heap × Collector
check_all probes [] s = s
check_all probes (r ∷ rs) s = check_all probes rs (probe (probes r).0 (probes r).1 r s)
