-- ===== src/Balancer/RoundRobin/Fair.antt =====
-- What the round robin promises: it always finds a healthy backend when there is one, and a round
-- of calls over an unchanged pool serves every healthy backend equally often.
use load_balancer.Base.{
  ℕ, zero, suc, ◌+◌, ◌%◌, ◌≤◌, ◌<◌, ◌≡◌, refl, ap, ◌∙◌, Option, some, List, [], ◌∷◌, map, arith,
  length, get_elem?, In, get_elem?-In, get_elem?_total, u64_mod, add64, sub64,
}
use load_balancer.Base.Cycle.{cycle, rotate, cycle_round}
use load_balancer.Balancer.Backend.{Heap, Ref}
use load_balancer.Balancer.Pool.{Pool, healthy_backends}
use load_balancer.Balancer.RoundRobin.{RoundRobin, pick, select}
use native.Mathlib.Nat.{mod-lt}

-- k calls of Select in a row, over one pool.
unfoldable pub select_many : ℕ → RoundRobin → Heap → Pool → List (Option Ref)
select_many zero rr h p = []
select_many (suc k) rr h p = let (rr', r) = select rr h p in r ∷ select_many k rr' h p

pick_total :
    (rr : RoundRobin) (nodes : List Ref)
    → 0 < length nodes
    → (r : Ref) × ((pick rr nodes).1 ≡ some r) × In r nodes
unfolding pick
pick_total rr [] h = elim h [ ]
pick_total rr (n ∷ ns) h =
    let idx = sub64 (add64 rr.next 1) 1 % length (n ∷ ns) in
    let (r, e) = get_elem?_total (n ∷ ns) idx (mod-lt _ h) in (r, e, get_elem?-In (n ∷ ns) idx r e)

-- With a healthy backend in the pool the round robin returns a healthy backend, whatever its
-- counter: no index is out of range.
pub select_total :
    (rr : RoundRobin) (h : Heap) (p : Pool)
    → 0 < length (healthy_backends h p)
    → (r : Ref) × ((select rr h p).1 ≡ some r) × In r (healthy_backends h p)
unfolding select
select_total rr h p some_alive = pick_total rr (healthy_backends h p) some_alive

pick-cycle :
    (nodes : List Ref) (c : ℕ) (rr : RoundRobin)
    → 0 < length nodes
    → rr.next ≡ c
    → c < u64_mod
    → (pick rr nodes).1 ≡ get_elem? nodes (c % length nodes)
unfolding pick
pick-cycle [] c rr h e lt = elim h [ ]
pick-cycle (n ∷ ns) c rr h e lt = let same : sub64 (add64 rr.next 1) 1 ≡ c = omega arith in rw same

pick-next :
    (nodes : List Ref) (rr : RoundRobin)
    → 0 < length nodes
    → (pick rr nodes).0.next ≡ add64 rr.next 1
unfolding pick
pick-next [] rr h = elim h [ ]
pick-next (n ∷ ns) rr h = refl

select_many-cycle :
    (k c : ℕ) (rr : RoundRobin) (h : Heap) (p : Pool)
    → 0 < length (healthy_backends h p)
    → rr.next ≡ c % u64_mod
    → c + k ≤ u64_mod
    → select_many k rr h p ≡ cycle (healthy_backends h p) c k
unfolding select_many select
select_many-cycle zero c rr h p pos e fits = refl
select_many-cycle (suc k) c rr h p pos e fits =
    let nodes = healthy_backends h p in
    let rr' = (pick rr nodes).0 in
    let next : rr'.next ≡ suc c % u64_mod = omega (arith, pick-next nodes rr pos) in
    rw (pick-cycle nodes c rr pos (omega arith) (omega arith)) (
      ap (◌∷◌ (get_elem? nodes (c % length nodes)))
        (select_many-cycle k (suc c) rr' h p pos next (omega arith)))

module _ (rr : RoundRobin) (h : Heap) (p : Pool) where
  -- As many calls of the round robin as there are healthy backends, without a wrap of its counter,
  -- return the healthy backends in pool order, rotated to begin at place next % len.
  pub round :
      0 < length (healthy_backends h p)
      → rr.next + length (healthy_backends h p) ≤ u64_mod
      → select_many (length (healthy_backends h p)) rr h p
        ≡ map some (rotate (rr.next % length (healthy_backends h p)) (healthy_backends h p))
  round pos fits =
      select_many-cycle _ rr.next rr h p pos (omega arith) fits
      ∙ cycle_round (healthy_backends h p) rr.next pos
