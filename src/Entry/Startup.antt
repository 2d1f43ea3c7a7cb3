-- ===== src/Entry/Startup.antt =====
-- cmd/proxy/main.go: the strategy and the pool that main makes of the configuration. A new backend
-- stands at the next free address of the heap. The checker and the watcher that main starts are
-- Health and Config/Manager.
use load_balancer.Base.{◌+◌, Option, none, some, String, List, [], ◌∷◌, str_eq, ◌==◌, if◌then◌else◌}
use load_balancer.Balancer.Backend.{Backend, Heap, Ref, Url, new_backend}
use load_balancer.Balancer.Pool.{Pool, new_pool, add_backend}
use load_balancer.Balancer.Strategy.{
  select_for, round_robin, weighted_round_robin, least_connections, consistent_hash,
}
use load_balancer.Balancer.RoundRobin
use load_balancer.Balancer.Weighted
use load_balancer.Balancer.Weighted.{new_weighted}
use load_balancer.Balancer.ConsistentHash
use load_balancer.Balancer.ConsistentHash.{new_consistent_hash}
use load_balancer.Config.{Config, BackendConfig}

-- The value behind the variable `strategy`.
pub data Chosen : Type 0 where
  least : Chosen
  hashed : ConsistentHash.ConsistentHash → Chosen
  weighted : Weighted.Weighted → Chosen
  robin : RoundRobin.RoundRobin → Chosen

unfoldable pub choose_strategy : String → Chosen
unfolding new_consistent_hash new_weighted
choose_strategy name =
    if str_eq name "least_conn"
    then least
    else if str_eq name "consistent_hash"
    then hashed (new_consistent_hash 150)
    else if str_eq name "weighted_round_robin"
    then weighted new_weighted
    else robin (record { next = 0 })

abbrev keep_state : {S : Type 0} → (S → Chosen) → S × Option Ref → Chosen × Option Ref
keep_state wrap (s, r) = (wrap s, r)

-- The call of the interface: SelectKey where the strategy has it, or Select.
unfoldable pub serve : Chosen → String → Heap → Pool → Chosen × Option Ref
unfolding select_for
serve least key h p = (least, (select_for least_connections key tt h p).1)
serve (hashed s) key h p = keep_state hashed (select_for consistent_hash key s h p)
serve (weighted s) key h p = keep_state weighted (select_for weighted_round_robin key s h p)
serve (robin s) key h p = keep_state robin (select_for round_robin key s h p)

abbrev pub allocate : Ref → Backend → Heap → Heap
allocate a b h r = if r == a then b else h r

-- The loop over the configured backends; `none` is logger.Fatal, which ends the process.
module _ (parse : String → Option Url) where
  unfoldable pub add_backends : List BackendConfig → Ref → Heap → Pool → Option (Heap × Pool)
  unfolding new_backend add_backend
  add_backends [] next h p = some (h, p)
  add_backends (bc ∷ bcs) next h p = elim (new_backend parse bc.url bc.weight) [
    | none ↦ none
    | some b ↦ add_backends bcs (next + 1) (allocate next b h) (add_backend next p)
  ]

pub record Running : Type 0 where
  pub heap : Heap
  pub pool : Pool
  pub strategy : Chosen

-- main up to the servers, from the empty part of a heap at address 0 on.
unfoldable pub start : (String → Option Url) → Heap → Config → Option Running
unfolding add_backends choose_strategy new_pool
start parse h c = elim (add_backends parse c.backends 0 h new_pool) [
  | none ↦ none
  | some (h', p) ↦ some (record { heap = h'; pool = p; strategy = choose_strategy c.strategy })
]
