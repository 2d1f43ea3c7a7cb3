-- ===== src/Balancer/Weighted/Race.antt =====
-- internal/balancer/weighted_round_robin.go, under concurrent requests: Select loads the counter and
-- stores its successor in two steps, between which others may take theirs. What it does with the
-- value loaded is Balancer/Weighted.
use load_balancer.Base.{
  ℕ, suc, ◌+◌, ◌≤◌, ◌<◌, ◌≡◌, sym, inl, inr, Option, none, some, List, [], ◌∷◌, arith, ◌==◌,
  if◌then◌else◌, Bool-cases, length, In, All, i64_half, add64,
}
use load_balancer.Balancer.Backend.{Heap, Ref}
use load_balancer.Balancer.Pool.{Pool, healthy_backends}
use load_balancer.Balancer.Strategy.{select_for, weighted_round_robin-IsSound}
use load_balancer.Balancer.Weighted
use load_balancer.Balancer.Weighted.{Weighted, pick}
use load_balancer.Balancer.Total.{pick-some}

-- `loaded` is what a goroutine has loaded and not yet stored; `used` are the values that finished
-- requests went by, the newest first.
pub record State : Type 0 where
  pub counter : ℕ
  pub loaded : ℕ → Option ℕ
  pub used : List ℕ

-- No goroutine is in Select.
unfoldable pub idle : ℕ → State
idle counter = record { counter = counter; loaded = λ t. none; used = [] }

abbrev pub set : ℕ → Option ℕ → (ℕ → Option ℕ) → ℕ → Option ℕ
set t v loaded s = if s == t then v else loaded s

-- `current := wrr.currentWeight.Load()`.
unfoldable pub load : ℕ → State → State
load t s = record s { loaded = set t (some s.counter) s.loaded }

-- `wrr.currentWeight.Store(current + 1)`.
unfoldable pub store : ℕ → ℕ → State → State
store t v s = record s { counter = add64 v 1; loaded = set t none s.loaded; used = v ∷ s.used }

pub data Step : State → State → Type 0 where
  loads : (t : ℕ) (s : State) → s.loaded t ≡ none → Step s (load t s)
  stores : (t v : ℕ) (s : State) → s.loaded t ≡ some v → Step s (store t v s)

pub data Reach : State → State → Type 0 where
  stays : (s : State) → Reach s s
  then_step : (s m e : State) → Reach s m → Step m e → Reach s e

-- Nothing loaded or used runs ahead of the requests that have finished.
record IsBehind (start : ℕ) (s : State) : Type 0 where
  pub counter : s.counter ≤ start + length s.used
  pub loaded : (t v : ℕ) → s.loaded t ≡ some v → v ≤ start + length s.used
  pub used : All (λ v. v ≤ start + length s.used) s.used

All-weaken :
    (bound bound' : ℕ) (vs : List ℕ)
    → bound ≤ bound'
    → All (λ v. v ≤ bound) vs
    → All (λ v. v ≤ bound') vs
All-weaken bound bound' [] le h = tt
All-weaken bound bound' (v ∷ vs) le (h, hs) = (omega arith, All-weaken bound bound' vs le hs)

Step-IsBehind :
    (start : ℕ) (s e : State)
    → Step s e
    → start + length e.used < i64_half
    → IsBehind start s
    → IsBehind start e
unfolding load store
Step-IsBehind start s _ (loads t _ free) fits h = record {
  counter = h.counter;
  loaded = λ u v e. elim (Bool-cases (u == t)) [
    | inl same ↦
        let eq : some s.counter ≡ some v = rw same at e in
        let now : s.counter ≡ v = cc in rw (sym now) h.counter
    | inr other ↦ h.loaded u v (rw other at e)
  ];
  used = h.used;
}
Step-IsBehind start s _ (stores t w _ held) fits h =
    let below = h.loaded t w held in
    record {
      counter = omega arith;
      loaded = λ u v e. elim (Bool-cases (u == t)) [
        | inl same ↦ let eq : none ≡ some v = rw same at e in cc
        | inr other ↦ let old = h.loaded u v (rw other at e) in omega arith
      ];
      used = (
        omega arith,
        All-weaken (start + length s.used) (start + suc (length s.used)) s.used (omega arith)
            h.used,
      );
    }

length-Step : (s e : State) → Step s e → length s.used ≤ length e.used
unfolding load store
length-Step s _ (loads t _ free) = omega arith
length-Step s _ (stores t v _ held) = omega arith

Reach-IsBehind :
    (start : ℕ) (s e : State)
    → Reach s e
    → start + length e.used < i64_half
    → IsBehind start s
    → IsBehind start e
Reach-IsBehind start s _ (stays _) fits h = h
Reach-IsBehind start s e (then_step _ m _ before last) fits h =
    let grew = length-Step m e last in
    Step-IsBehind start m e last fits (Reach-IsBehind start s m before (omega arith) h)

no_value : (w : ℕ) → ◌≡◌ {A = Option ℕ} none (some w) → ⊥
no_value w e = cc

In-All : (bound v : ℕ) (vs : List ℕ) → All (λ w. w ≤ bound) vs → In v vs → v ≤ bound
In-All bound v [] h none_in = elim none_in [ ]
In-All bound v (w ∷ ws) (h, hs) (inl same) = rw same h
In-All bound v (w ∷ ws) (h, hs) (inr later) = In-All bound v ws hs later

-- From a counter on with nobody in Select, under any interleaving of the loads and stores of any
-- number of goroutines, as long as the counter and the finished requests stay below 2^63: a value
-- that a request goes by is at most the first counter plus the number of finished requests, and
-- with it Select finds a healthy backend of any pool that has one.
pub race_serves :
    (start v : ℕ) (s : State) (h : Heap) (p : Pool)
    → Reach (idle start) s
    → start + length s.used < i64_half
    → In v s.used
    → 0 < length (healthy_backends h p)
    → (v ≤ start + length s.used)
      × ((r : Ref) × ((pick (record { current_weight = v }) h (healthy_backends h p)).1 ≡ some r)
          × In r (healthy_backends h p))
unfolding idle Weighted.select select_for
race_serves start v s h p reached fits went some_node =
    let begun : IsBehind start (idle start) = record {
      counter = omega arith;
      loaded = λ t w e. absurd (no_value w e);
      used = tt;
    } in
    let behind = Reach-IsBehind start (idle start) s reached fits begun in
    let below = In-All (start + length s.used) v s.used behind.used went in
    let (r, found) =
      pick-some (record { current_weight = v }) h (healthy_backends h p) (omega arith) some_node in
    (
      below,
      (r, found, weighted_round_robin-IsSound.law "" (record { current_weight = v }) h p r found),
    )
