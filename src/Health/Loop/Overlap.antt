-- ===== src/Health/Loop/Overlap.antt =====
-- What rounds that overlap do to the backends.
use load_balancer.Base.{
  ℕ, ◌+◌, ◌*◌, ◌≡◌, refl, ap, ◌∙◌, inl, inr, Bool, true, false, Option, none, some, List, [], ◌∷◌,
  ◌++◌, arith, ◌==◌, ==_iff, if◌then◌else◌, Bool-cases, Option-cases, count,
}
use load_balancer.Balancer.Backend.{Heap, Ref}
use load_balancer.Balancer.Pool.{Pool, all_backends}
use load_balancer.Metrics.{Collector}
use load_balancer.Health.{Outcome, is_success}
use load_balancer.Health.Rounds.{probe-alive}
use load_balancer.Health.Loop.{
  Run, nothing_yet, launch, begin, land, Step, ticks, stops, lands, Reach, stays, then_step,
}

-- The outcome of the probe of a backend that ended last.
abbrev pub latest : Ref → List (Ref × Outcome) → Option Outcome
latest r [] = none
latest r ((q, o) ∷ ls) = if q == r then some o else latest r ls

-- Its verdict, or what was there before the first.
abbrev pub verdict : Option Outcome → Bool → Bool
verdict none before = before
verdict (some o) before = is_success o

-- How often a backend is in a list, and among the probes that have ended.
abbrev pub occurs : Ref → List Ref → ℕ
occurs r = count (λ q. q == r)

abbrev pub ended : Ref → List (Ref × Outcome) → ℕ
ended r = count (λ (e : Ref × Outcome). e.0 == r)

occurs-append : (r : Ref) (xs ys : List Ref) → occurs r (xs ++ ys) ≡ occurs r xs + occurs r ys
occurs-append r [] ys = omega arith
occurs-append r (x ∷ xs) ys = ground (arith, occurs-append r xs ys)

-- Whatever has ended last has set the backend, and each round has probed each backend once for
-- each time that it is in the pool.
record IsKept (p : Pool) (h : Heap) (s : Run) : Type 0 where
  pub alive : (r : Ref) → (s.world.0 r).alive ≡ verdict (latest r s.landed) (h r).alive
  pub told : (r : Ref) → ended r s.landed + occurs r s.flying ≡ s.rounds * occurs r (all_backends p)

land-IsKept :
    (p : Pool) (h : Heap) (s : Run) (before after : List Ref) (r : Ref) (o : Outcome) (dur : ℕ)
    → s.flying ≡ before ++ r ∷ after
    → IsKept p h s
    → IsKept p h (land r o dur (before ++ after) s)
unfolding land
land-IsKept p h s before after r o dur flown kept = record {
  alive = λ q. elim (Bool-cases (r == q)) [
    | inl same ↦
        let back : (q == r) ≡ true = ground (arith, (==_iff r q).0 same) in
        probe-alive o dur r q s.world ∙ rw (back, same) refl
    | inr other ↦
        let back : (q == r) ≡ false = ground (arith, other) in
        probe-alive o dur r q s.world ∙ rw (back, other) (kept.alive q)
  ];
  told = λ q.
      let whole = kept.told q in
      let split = ap (occurs q) flown ∙ occurs-append q before (r ∷ after) in
      let less = occurs-append q before after in ground arith;
}

Step-IsKept : (p : Pool) (h : Heap) (s e : Run) → Step p s e → IsKept p h s → IsKept p h e
unfolding launch
Step-IsKept p h s _ (ticks _ on) kept = record {
  alive = kept.alive;
  told = λ r.
      let whole = kept.told r in
      let split = occurs-append r (all_backends p) s.flying in grind arith;
}
Step-IsKept p h s _ (stops _ on) kept = record { alive = kept.alive; told = kept.told }
Step-IsKept p h s _ (lands _ before after r o dur flown) kept =
    land-IsKept p h s before after r o dur flown kept

Reach-IsKept : (p : Pool) (h : Heap) (s e : Run) → Reach p s e → IsKept p h s → IsKept p h e
Reach-IsKept p h s _ (stays _) kept = kept
Reach-IsKept p h s e (then_step _ m _ before last) kept =
    Step-IsKept p h m e last (Reach-IsKept p h s m before kept)

first-IsKept : (p : Pool) (w : Heap × Collector) → IsKept p w.0 (launch p (nothing_yet w))
unfolding launch
first-IsKept p w = record {
  alive = λ r. refl;
  told = λ r. let split = occurs-append r (all_backends p) [] in omega arith;
}

begin-IsKept :
    {Ticker : Type 0}
    → (new_ticker : ℕ → Option Ticker) (interval : ℕ) (p : Pool) (w : Heap × Collector) (s : Run)
    → begin new_ticker interval p w ≡ some s
    → IsKept p w.0 s
unfolding begin
begin-IsKept new_ticker interval p w s e = elim (Option-cases (new_ticker interval)) [
  | inl panics ↦ let clash : none ≡ some s = rw (panics, begin) at e in cc
  | inr (t, ok) ↦
      let begun : some (launch p (nothing_yet w)) ≡ some s = rw (ok, begin) at e in
      let same : launch p (nothing_yet w) ≡ s = cc in rw same at (first-IsKept p w)
]

-- However the rounds of the checker overlap and in whatever order their probes end: a backend is
-- alive exactly if the probe of it that ended last was answered with a 2xx status, and as it was
-- at the start if none has ended; and its probes that have ended or are under way are one for each
-- round and each time that it is in the pool.
pub start_keeps :
    {Ticker : Type 0}
    → (new_ticker : ℕ → Option Ticker) (interval : ℕ) (p : Pool) (w : Heap × Collector) (s e : Run)
      (r : Ref)
    → begin new_ticker interval p w ≡ some s
    → Reach p s e
    → ((e.world.0 r).alive ≡ verdict (latest r e.landed) (w.0 r).alive)
      × (ended r e.landed + occurs r e.flying ≡ e.rounds * occurs r (all_backends p))
start_keeps new_ticker interval p w s e r begun way =
    let h = Reach-IsKept p w.0 s e way (begin-IsKept new_ticker interval p w s begun) in
    (h.alive r, h.told r)
