-- ===== src/Balancer/Weighted.antt =====
-- internal/balancer/weighted_round_robin.go. `currentWeight` is an int64 and the weights are ints;
-- a call of Select is one step, though the code loads and stores the counter in two. The weights
-- are taken to add up to less than 2^63: of a sum that wraps below zero, the divisor of the
-- remainder is read as the word it is stored in, where Go reads a negative number.
pub mod Fair
pub mod Race
use load_balancer.Base.{
  ℕ, ◌-◌, Option, none, some, List, [], ◌∷◌, ◌==◌, if◌then◌else◌, length, get_elem?, add64, slt,
  srem,
}
use load_balancer.Balancer.Backend.{Heap, Ref}
use load_balancer.Balancer.Pool.{Pool, healthy_backends}

pub record Weighted : Type 0 where
  pub current_weight : ℕ  -- int64

unfoldable pub new_weighted : Weighted
new_weighted = record { current_weight = 0 }

-- The loop that adds the weights up.
unfoldable pub total_from : Heap → ℕ → List Ref → ℕ
total_from h total [] = total
total_from h total (n ∷ ns) = total_from h (add64 total (h n).weight) ns

-- The loop that finds the node whose share of the total holds the target.
unfoldable pub seek : Heap → ℕ → ℕ → List Ref → Option Ref
seek h target running [] = none
seek h target running (n ∷ ns) =
    let running' = add64 running (h n).weight in
    let rest = seek h target running' ns in if slt target running' then some n else rest

-- The value after the loop, `nodes[len(nodes)-1]`, where the loop returns nothing.
abbrev pub or_last : List Ref → Option Ref → Option Ref
or_last nodes none = get_elem? nodes (length nodes - 1)
or_last nodes (some r) = some r

unfoldable pub pick : Weighted → Heap → List Ref → Weighted × Option Ref
pick w h [] = (w, none)
pick w h (n ∷ ns) =
    let nodes = n ∷ ns in
    let total = total_from h 0 nodes in
    let current = w.current_weight in
    let w' = record w { current_weight = add64 current 1 } in
    if total == 0
    then (w', get_elem? nodes (srem current (length nodes)))
    else (w', or_last nodes (seek h (srem current total) 0 nodes))

unfoldable pub select : Weighted → Heap → Pool → Weighted × Option Ref
unfolding pick
select w h p = pick w h (healthy_backends h p)
