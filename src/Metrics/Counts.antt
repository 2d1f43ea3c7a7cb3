-- ===== src/Metrics/Counts.antt =====
-- The two request tables of the collector, refined to counts of a batch of requests in which order
-- is forgotten: requests are recorded by many goroutines, in any order.
use load_balancer.Base.{
  ℕ, ◌+◌, ◌%◌, ◌≡◌, sym, ap, ◌∙◌, inl, inr, Bool, Option, String, List, [], ◌∷◌, arith, str_eq,
  str_eq_iff, if◌then◌else◌, Bool-cases, count, u64_mod, add64, show_nat,
}
use mathlib.Core.Option
use mathlib.Core.Quot
use mathlib.Core.Quot.{Quot}
use native.Mathlib.Nat.{ℕ_set}
use load_balancer.Base.Dict.{lookup, insert, lookup-insert}
use load_balancer.Metrics.{Collector, bump, record_request, new_collector, get_snapshot}
use load_balancer.Metrics.Totals.{Request, record_all}

-- The number that a table has for a key; 0 for a missing key, as a Go map gives it.
abbrev pub number : String → List (String × ℕ) → ℕ
number key m = Option.get_or (lookup key m) 0

number-insert :
    (k key : String) (v : ℕ) (m : List (String × ℕ))
    → number key (insert k v m) ≡ (if str_eq k key then v else number key m)
number-insert k key v m =
    let found = lookup-insert k key v m in
    elim (Bool-cases (str_eq k key)) [
      | inl e ↦ rw e (ap (λ (o : Option ℕ). Option.get_or o 0) (rw e at found))
      | inr e ↦ rw e (ap (λ (o : Option ℕ). Option.get_or o 0) (rw e at found))
    ]

number-bump :
    (k key : String) (m : List (String × ℕ))
    → number key (bump k m) ≡ (if str_eq k key then add64 (number key m) 1 else number key m)
unfolding bump
number-bump k key m =
    let wrote = number-insert k key (add64 (number k m) 1) m in
    elim (Bool-cases (str_eq k key)) [
      | inl e ↦
          let same = (str_eq_iff k key).0 e in
          let now : number key (bump k m) ≡ add64 (number k m) 1 = rw e at wrote in
          rw e (now ∙ ap (λ x. add64 (number x m) 1) same)
      | inr e ↦ rw e (rw e at wrote)
    ]

abbrev pub has_code : String → Request → Bool
has_code key r = str_eq (show_nat r.status) key

abbrev pub has_backend : String → Request → Bool
has_backend key r = str_eq r.backend key

-- One list of requests is another with two neighbours exchanged somewhere, or a chain of such.
pub data IsReordered : List Request → List Request → Type 0 where
  here : (r s : Request) (rs : List Request) → IsReordered (r ∷ s ∷ rs) (s ∷ r ∷ rs)
  later : (r : Request) (rs ss : List Request) → IsReordered rs ss → IsReordered (r ∷ rs) (r ∷ ss)

abbrev pub Batch : Type 0
Batch = Quot IsReordered

pub count-IsReordered :
    (p : Request → Bool) (rs ss : List Request) → IsReordered rs ss → count p rs ≡ count p ss
count-IsReordered p _ _ (here r s rs) = ground arith
count-IsReordered p _ _ (later r rs ss h) = let rest = count-IsReordered p rs ss h in ground arith

-- How many requests of a batch pass a test.
unfoldable pub occurrences : (Request → Bool) → Batch → ℕ
occurrences p = Quot.lift ℕ_set (count p) (count-IsReordered p)

module _ (status_text : ℕ → String) where
  record_all-counts :
      (key : String) (rs : List Request) (c : Collector)
      → (number key (record_all status_text rs c).status_codes % u64_mod
          ≡ (number key c.status_codes + count (has_code key) rs) % u64_mod)
        × (number key (record_all status_text rs c).backend_reqs % u64_mod
            ≡ (number key c.backend_reqs + count (has_backend key) rs) % u64_mod)
  unfolding record_all record_request
  record_all-counts key [] c = (omega arith, omega arith)
  record_all-counts key (r ∷ rs) c =
      let c' =
        record_request status_text r.backend r.status r.duration r.method r.req_size r.resp_size
          c in
      let (a, b) = record_all-counts key rs c' in
      let code = number-bump (show_nat r.status) key c.status_codes in
      let name = number-bump r.backend key c.backend_reqs in
      (ground (arith, a, code), ground (arith, b, name))

  -- What a snapshot says of a key, after a batch was recorded in some order.
  unfoldable pub recorded : (Collector → List (String × ℕ)) → String → List Request → ℕ
  recorded table key rs = number key (table (record_all status_text rs new_collector)) % u64_mod

  recorded-count :
      (key : String) (rs : List Request)
      → (recorded (λ c. (get_snapshot c).status_codes) key rs ≡ count (has_code key) rs % u64_mod)
        × (recorded (λ c. (get_snapshot c).backend_requests) key rs
            ≡ count (has_backend key) rs % u64_mod)
  unfolding recorded get_snapshot new_collector lookup
  recorded-count key rs =
      let (a, b) = record_all-counts key rs new_collector in (omega (arith, a), omega (arith, b))

  recorded-IsReordered :
      (key : String) (rs ss : List Request)
      → IsReordered rs ss
      → (recorded (λ c. (get_snapshot c).status_codes) key rs
          ≡ recorded (λ c. (get_snapshot c).status_codes) key ss)
        × (recorded (λ c. (get_snapshot c).backend_requests) key rs
            ≡ recorded (λ c. (get_snapshot c).backend_requests) key ss)
  recorded-IsReordered key rs ss h =
      let (a, b) = recorded-count key rs in
      let (c, d) = recorded-count key ss in
      let codes = count-IsReordered (has_code key) rs ss h in
      let names = count-IsReordered (has_backend key) rs ss h in
      (a ∙ ap (λ n. n % u64_mod) codes ∙ sym c, b ∙ ap (λ n. n % u64_mod) names ∙ sym d)

  -- The snapshot's numbers as functions of the batch.
  pub code_number : String → Batch → ℕ
  unfolding recorded
  code_number key =
      Quot.lift ℕ_set (recorded (λ c. (get_snapshot c).status_codes) key)
        (λ rs ss h. (recorded-IsReordered key rs ss h).0)

  pub backend_number : String → Batch → ℕ
  unfolding recorded
  backend_number key =
      Quot.lift ℕ_set (recorded (λ c. (get_snapshot c).backend_requests) key)
        (λ rs ss h. (recorded-IsReordered key rs ss h).1)

  -- A snapshot after a batch of requests, recorded in whatever order, has for every status code
  -- and for every backend the number of the requests of the batch with that code or that backend,
  -- modulo 2^64.
  pub snapshot_counts :
      (batch : Batch) (key : String)
      → (code_number key batch ≡ occurrences (has_code key) batch % u64_mod)
        × (backend_number key batch ≡ occurrences (has_backend key) batch % u64_mod)
  unfolding code_number backend_number occurrences
  snapshot_counts batch key = (
    Quot.ind (λ b. ℕ_set (code_number key b) (occurrences (has_code key) b % u64_mod))
        (λ rs. (recorded-count key rs).0) batch,
    Quot.ind (λ b. ℕ_set (backend_number key b) (occurrences (has_backend key) b % u64_mod))
        (λ rs. (recorded-count key rs).1) batch,
  )
