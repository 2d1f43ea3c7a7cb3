-- ===== src/Tests/Hashing.antt =====
-- Consistent hashing.
use load_balancer.Base.{ℕ, ◌≡◌, refl, true, false, some, [], ◌∷◌, arith, In, bytes}
use load_balancer.Balancer.Backend.{Ref}
use load_balancer.Balancer.Pool.{healthy_backends}
use load_balancer.Balancer.ConsistentHash.Search.{search_ring}
use load_balancer.Balancer.ConsistentHash.Sort.{sort}
use load_balancer.Balancer.ConsistentHash.Lookup.{
  IsSuccessor, get_node-IsSuccessor, build_hash_ring-IsBuilt,
}
use load_balancer.Balancer.ConsistentHash.Affinity.{affinity, after}
use load_balancer.Balancer.ConsistentHash.{
  ConsistentHash, build_hash_ring, ensure_ring, get_node, select_key, hash_string, map_get,
  fingerprint, add_nodes, add_virtual, virtual_key, ring_point,
}
use load_balancer.Tests.Fixtures.{three, pool, twins, pair}

-- The published FNV-1a values of "" and "a".
fnv_a : hash_string (bytes "a") ≡ 0xe40c292c
unfolding hash_string
fnv_a = refl

abbrev ring : ConsistentHash
ring = record { virtual_nodes = 3; hash_ring = []; node_map = []; last_nodes_hash = 0; counter = 0 }

affinity_example :
    (select_key
      (after ("x" ∷ "" ∷ []) (select_key ring three pool "alice").0 three pool)
      three
      pool
      "alice").1
    ≡ (select_key ring three pool "alice").1
affinity_example = affinity three pool ring "alice" ("x" ∷ "" ∷ []) refl

get_node-IsSuccessor_example :
    let ch = build_hash_ring three (0 ∷ 2 ∷ []) 7 ring in
    (r : Ref) × (get_node ch 12345 ≡ some r)
    × In r (0 ∷ 2 ∷ [])
    × ((p : ℕ) × IsSuccessor ch.hash_ring 12345 p × (map_get p ch.node_map ≡ some r))
get_node-IsSuccessor_example =
    get_node-IsSuccessor (0 ∷ 2 ∷ []) (build_hash_ring three (0 ∷ 2 ∷ []) 7 ring) 12345
      (build_hash_ring-IsBuilt three (0 ∷ 2 ∷ []) 7 ring (omega arith) (omega arith))

stale_is_dead :
    ((select_key (select_key ring (twins true) pair "alice").0 (twins false) pair "alice").1
      ≡ some 0)
    × ((twins false 0).alive ≡ false)
unfolding select_key healthy_backends fingerprint ensure_ring build_hash_ring hash_string sort
    add_nodes add_virtual virtual_key get_node ring_point search_ring
stale_is_dead = (refl, refl)
