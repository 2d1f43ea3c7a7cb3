-- ===== src/Tests/Balancing.antt =====
-- The round robins and least connections.
use load_balancer.Base.{◌≡◌, refl, some, [], ◌∷◌, arith, ◌==◌, count}
use load_balancer.Base.Cycle.{is_some_and}
use load_balancer.Balancer.Backend.{Ref}
use load_balancer.Balancer.Pool.{healthy_backends}
use load_balancer.Balancer.RoundRobin.Fair.{select_total, round}
use load_balancer.Balancer.RoundRobin.Fair as RoundFair
use load_balancer.Balancer.Weighted.Fair as WeightedFair
use load_balancer.Balancer.Weighted.Fair.{share, weight_sum}
use load_balancer.Balancer.LeastConnections
use load_balancer.Balancer.LeastConnections.{select_least, IsFirstLeast}
use load_balancer.Tests.Fixtures.{three, pool}

healthy_two : healthy_backends three pool ≡ 0 ∷ 2 ∷ []
unfolding healthy_backends
healthy_two = refl

round_example : RoundFair.select_many 2 (record { next = 5 }) three pool ≡ some 2 ∷ some 0 ∷ []
unfolding healthy_backends
round_example = round (record { next = 5 }) three pool (omega arith) (omega arith)

share_example :
    count
      (is_some_and (λ r. r == 2))
      (WeightedFair.select_many 4 (record { current_weight = 9 }) three pool)
    ≡ 3
unfolding healthy_backends
share_example =
    share (record { current_weight = 9 }) three pool 2 (omega arith) (omega arith) (omega arith)

select_least_example :
    (r : Ref) × (LeastConnections.select three pool ≡ some r)
    × IsFirstLeast three (healthy_backends three pool) r
unfolding healthy_backends
select_least_example = select_least three pool (omega arith) (omega arith)

-- The Go test: the backend with one connection is chosen over the one with two.
fewest : LeastConnections.select three pool ≡ some 2
unfolding LeastConnections.select healthy_backends
fewest = refl
