-- ===== src/Health/Rounds.antt =====
-- What a round of probes does to the backends.
use load_balancer.Base.{
  ℕ, zero, suc, ◌+◌, ◌<◌, ◌≡◌, refl, sym, ap, ◌∙◌, inl, inr, Bool, true, false, List, [], ◌∷◌,
  arith, ◌==◌, if◌then◌else◌, ==_iff, Bool-cases, In, u64_mod,
}
use load_balancer.Balancer.Backend.{Heap, Ref, Backend, set_alive, record_failure, record_success}
use load_balancer.Metrics.{Collector}
use load_balancer.Health.{Outcome, is_success, mark, check_alive, probe, check_all}

mark-alive : (ok : Bool) (b : Backend) → (mark ok b).alive ≡ ok
unfolding mark set_alive record_success record_failure
mark-alive true b = refl
mark-alive false b = refl

probe-heap :
    (o : Outcome) (dur : ℕ) (r s : Ref) (st : Heap × Collector)
    → (probe o dur r st).0 s ≡ (if s == r then mark (is_success o) (st.0 s) else st.0 s)
unfolding probe check_alive
probe-heap o dur r s st = refl

pub probe-alive :
    (o : Outcome) (dur : ℕ) (r s : Ref) (st : Heap × Collector)
    → ((probe o dur r st).0 s).alive ≡ (if s == r then is_success o else (st.0 s).alive)
probe-alive o dur r s st = elim (Bool-cases (s == r)) [
  | inl e ↦ rw (probe-heap o dur r s st, e) (mark-alive (is_success o) (st.0 s))
  | inr e ↦ rw (probe-heap o dur r s st, e)
]

-- A backend whose own verdict is already in keeps it through the rest of the round.
check_all_settled :
    (probes : Ref → Outcome × ℕ) (s : Ref) (rs : List Ref) (st : Heap × Collector)
    → (st.0 s).alive ≡ is_success (probes s).0
    → ((check_all probes rs st).0 s).alive ≡ is_success (probes s).0
unfolding check_all
check_all_settled probes s [] st e = e
check_all_settled probes s (r ∷ rs) st e =
    check_all_settled probes s rs (probe (probes r).0 (probes r).1 r st)
      (elim (Bool-cases (s == r)) [
        | inl q ↦
            let same : s ≡ r = (==_iff s r).0 q in
            probe-alive (probes r).0 (probes r).1 r s st
            ∙ rw q (ap (λ x. is_success (probes x).0) (sym same))
        | inr q ↦ probe-alive (probes r).0 (probes r).1 r s st ∙ rw q e
      ])

-- After a round, in whatever order its probes end, a probed backend is alive exactly if its probe
-- was answered with a 2xx status.
pub check_all-alive :
    (probes : Ref → Outcome × ℕ) (s : Ref) (rs : List Ref) (st : Heap × Collector)
    → In s rs
    → ((check_all probes rs st).0 s).alive ≡ is_success (probes s).0
unfolding check_all
check_all-alive probes s [] st h = elim h [ ]
check_all-alive probes s (r ∷ rs) st (inr h) =
    check_all-alive probes s rs (probe (probes r).0 (probes r).1 r st) h
check_all-alive probes s (r ∷ rs) st (inl e) =
    check_all_settled probes s rs (probe (probes r).0 (probes r).1 r st) (
      probe-alive (probes r).0 (probes r).1 r s st
      ∙ rw ((==_iff s r).1 e) (ap (λ x. is_success (probes x).0) (sym e)))

-- A run of k rounds in which a backend's probe fails.
unfoldable pub fail_times : ℕ → Backend → Backend
fail_times zero b = b
fail_times (suc k) b = fail_times k (mark false b)

fail_times_count :
    (k n : ℕ) (b : Backend)
    → b.consecutive_failures ≡ n
    → n + k < u64_mod
    → (fail_times k b).consecutive_failures ≡ n + k
unfolding fail_times mark set_alive record_failure
fail_times_count zero n b e fits = omega arith
fail_times_count (suc k) n b e fits =
    let one : (mark false b).consecutive_failures ≡ n + 1 =
      unfold mark set_alive record_failure in omega arith in
    omega (arith, fail_times_count k (n + 1) (mark false b) one (omega arith))

-- A backend whose probe is answered once with a 2xx status and then fails k times, fewer than
-- 2^64, has k consecutive failures.
pub outage_length :
    (k : ℕ) (b : Backend) → k < u64_mod → (fail_times k (mark true b)).consecutive_failures ≡ k
outage_length k b fits =
    let none_yet : (mark true b).consecutive_failures ≡ 0 =
      unfold mark set_alive record_success in refl in
    omega (arith, fail_times_count k 0 (mark true b) none_yet (omega (arith, fits)))
