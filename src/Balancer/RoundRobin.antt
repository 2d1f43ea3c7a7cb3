-- ===== src/Balancer/RoundRobin.antt =====
-- internal/balancer/round_robin.go. The counter is a uint64; `Add` makes the draw of an index one
-- step, so concurrent callers are a sequence of calls.
pub mod Fair
use load_balancer.Base.{
  ℕ, ◌-◌, ◌%◌, ◌^◌, Option, none, some, List, [], ◌∷◌, length, get_elem?, add64, sub64,
}
use load_balancer.Balancer.Backend.{Heap, Ref}
use load_balancer.Balancer.Pool.{Pool, healthy_backends}

pub record RoundRobin : Type 0 where
  pub next : ℕ  -- uint64

-- The body of Select once the healthy nodes are listed: nil when there are none. An index out of
-- range would be a fault in Go; it is `none` here.
unfoldable pub pick : RoundRobin → List Ref → RoundRobin × Option Ref
pick rr [] = (rr, none)
pick rr (n ∷ ns) =
    let next = add64 rr.next 1 in
    let idx = sub64 next 1 % length (n ∷ ns) in (record { next = next }, get_elem? (n ∷ ns) idx)

unfoldable pub select : RoundRobin → Heap → Pool → RoundRobin × Option Ref
unfolding pick
select rr h p = pick rr (healthy_backends h p)
