-- ===== src/Metrics/Totals.antt =====
-- The two request tables of the collector count the same requests.
use load_balancer.Base.{
  ℕ, ◌+◌, ◌%◌, ◌≡◌, ap, String, List, [], ◌∷◌, arith, length, u64_mod, add64, show_nat,
}
use mathlib.Core.Option
use load_balancer.Base.Dict.{lookup, insert}
use load_balancer.Metrics.{Collector, bump, record_request, new_collector, get_snapshot}

-- The sum of a table.
abbrev pub total : List (String × ℕ) → ℕ
total [] = 0
total ((k, n) ∷ m) = n + total m

total-insert :
    (k : String) (v : ℕ) (m : List (String × ℕ))
    → total (insert k v m) + Option.get_or (lookup k m) 0 ≡ total m + v
unfolding insert lookup
total-insert k v [] = omega arith
total-insert k v ((j, w) ∷ m) = ground (arith, total-insert k v m)

total-bump :
    (k : String) (m : List (String × ℕ)) → total (bump k m) % u64_mod ≡ (total m + 1) % u64_mod
unfolding bump
total-bump k m = omega (arith, total-insert k (add64 (Option.get_or (lookup k m) 0) 1) m)

-- A request as RecordRequest is told of it.
pub record Request : Type 0 where
  pub backend : String
  pub status : ℕ
  pub duration : ℕ
  pub method : String
  pub req_size : ℕ
  pub resp_size : ℕ

module _ (status_text : ℕ → String) where
  unfoldable pub record_all : List Request → Collector → Collector
  record_all [] c = c
  record_all (r ∷ rs) c =
      record_all rs
        (record_request status_text r.backend r.status r.duration r.method r.req_size r.resp_size c)

  record_all-totals :
      (rs : List Request) (c : Collector)
      → (total (record_all rs c).status_codes % u64_mod
          ≡ (total c.status_codes + length rs) % u64_mod)
        × (total (record_all rs c).backend_reqs % u64_mod
            ≡ (total c.backend_reqs + length rs) % u64_mod)
  unfolding record_all record_request
  record_all-totals [] c =
      (ap (λ t. t % u64_mod) (omega arith), ap (λ t. t % u64_mod) (omega arith))
  record_all-totals (r ∷ rs) c =
      let c' =
        record_request status_text r.backend r.status r.duration r.method r.req_size r.resp_size
          c in
      let (a, b) = record_all-totals rs c' in
      (
        omega (arith, a, total-bump (show_nat r.status) c.status_codes),
        omega (arith, b, total-bump r.backend c.backend_reqs),
      )

  -- In a snapshot taken after any requests were recorded, the counts by status code and the counts
  -- by backend both add up to the number of requests, modulo 2^64.
  pub snapshot_totals :
      (rs : List Request)
      → (total (get_snapshot (record_all rs new_collector)).status_codes % u64_mod
          ≡ length rs % u64_mod)
        × (total (get_snapshot (record_all rs new_collector)).backend_requests % u64_mod
            ≡ length rs % u64_mod)
  unfolding get_snapshot new_collector
  snapshot_totals rs =
      let (a, b) = record_all-totals rs new_collector in (omega (arith, a), omega (arith, b))
