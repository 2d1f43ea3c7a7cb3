-- ===== src/Balancer/ConsistentHash.antt =====
-- internal/balancer/consistent_hash.go. A uint32 is a number below 2^32. The two sections under
-- the lock of `ensureRing` (compare, then build) are one step. `nodeMap` is an association list
-- with the newest entry first.
pub mod Search
pub mod Sort
pub mod Lookup
pub mod Affinity
use load_balancer.Base.{
  ℕ, zero, suc, ◌+◌, ◌-◌, ◌*◌, ◌%◌, Bool, true, false, not, ◌&&◌, Option, none, some, String, List,
  [], ◌∷◌, ◌++◌, str_eq, ◌==◌, if◌then◌else◌, length, get_elem?, u32_mod, u64_mod, add64, is_nonpos,
  bytes, decimal,
}
use Prim.Native.Nat.{bit_xor}
use load_balancer.Balancer.Backend.{Heap, Ref}
use load_balancer.Balancer.Pool.{Pool, healthy_backends}
use Search.{search_ring}
use Sort.{sort}

pub record ConsistentHash : Type 0 where
  pub virtual_nodes : ℕ  -- int
  pub hash_ring : List ℕ  -- []uint32
  pub node_map : List (ℕ × Ref)
  pub last_nodes_hash : ℕ  -- uint64
  pub counter : ℕ  -- uint64

unfoldable pub new_consistent_hash : ℕ → ConsistentHash
new_consistent_hash virtual_nodes = record {
  virtual_nodes = if is_nonpos virtual_nodes then 150 else virtual_nodes;
  hash_ring = [];
  node_map = [];
  last_nodes_hash = 0;
  counter = 0;
}

-- hash/fnv's 32-bit FNV-1a, as `New32a`, `Write` and `Sum32` compute it.
fnv_from : ℕ → List ℕ → ℕ
fnv_from h [] = h
fnv_from h (b ∷ bs) = fnv_from (bit_xor h b * 16777619 % u32_mod) bs

unfoldable pub hash_string : List ℕ → ℕ
unfolding fnv_from
hash_string s = fnv_from 2166136261 s

-- The bytes of `fmt.Sprintf("%s#%d", url, i)` and of `fmt.Sprintf("req-%d", cnt)`.
unfoldable pub virtual_key : String → ℕ → List ℕ
unfolding decimal
virtual_key url i = bytes url ++ bytes "#" ++ decimal i

unfoldable pub request_key : ℕ → List ℕ
unfolding decimal
request_key cnt = bytes "req-" ++ decimal cnt

abbrev pub map_get : ℕ → List (ℕ × Ref) → Option Ref
map_get k [] = none
map_get k ((j, r) ∷ m) = let rest = map_get k m in if j == k then some r else rest

-- The fingerprint that `ensureRing` takes of the node list: the URLs' bytes, run together.
unfoldable pub fingerprint_bytes : ℕ → List ℕ → ℕ
fingerprint_bytes fp [] = fp
fingerprint_bytes fp (b ∷ bs) = fingerprint_bytes ((fp * 31 + b) % u64_mod) bs

unfoldable pub fingerprint : Heap → ℕ → List Ref → ℕ
unfolding fingerprint_bytes
fingerprint h fp [] = fp
fingerprint h fp (n ∷ ns) = fingerprint h (fingerprint_bytes fp (bytes (h n).url.text)) ns

-- The loops of `buildHashRing`: `i` counts up, `left` are the rounds left.
unfoldable pub add_virtual : Heap → Ref → ℕ → ℕ → List ℕ × List (ℕ × Ref) → List ℕ × List (ℕ × Ref)
add_virtual h node zero i acc = acc
add_virtual h node (suc left) i (ring, m) =
    let k = hash_string (virtual_key (h node).url.text i) in
    add_virtual h node left (suc i) (ring ++ k ∷ [], (k, node) ∷ m)

unfoldable pub add_nodes : Heap → ℕ → List Ref → List ℕ × List (ℕ × Ref) → List ℕ × List (ℕ × Ref)
add_nodes h v [] acc = acc
add_nodes h v (n ∷ ns) acc = add_nodes h v ns (add_virtual h n v 0 acc)

unfoldable pub build_hash_ring : Heap → List Ref → ℕ → ConsistentHash → ConsistentHash
build_hash_ring h nodes fp ch =
    let (ring, m) = add_nodes h ch.virtual_nodes nodes ([], []) in
    record ch { hash_ring = sort ring; node_map = m; last_nodes_hash = fp }

abbrev pub is_empty {ℓ} : {A : Type ℓ} → List A → Bool
is_empty [] = true
is_empty (_ ∷ _) = false

unfoldable pub ensure_ring : Heap → List Ref → ConsistentHash → ConsistentHash
ensure_ring h nodes ch =
    let fp = fingerprint h 0 nodes in
    if ch.last_nodes_hash == fp && not (is_empty ch.hash_ring)
    then ch
    else build_hash_ring h nodes fp ch

-- GetNode: the ring point that `sort.Search` finds, or the first one past the end.
unfoldable pub ring_point : List ℕ → ℕ → Option ℕ
ring_point ring hash =
    let idx = search_ring ring hash in get_elem? ring (if idx == length ring then 0 else idx)

abbrev pub owner : List (ℕ × Ref) → Option ℕ → Option Ref
owner m none = none
owner m (some k) = map_get k m

unfoldable pub get_node : ConsistentHash → ℕ → Option Ref
get_node ch hash = owner ch.node_map (ring_point ch.hash_ring hash)

unfoldable pub select : ConsistentHash → Heap → Pool → ConsistentHash × Option Ref
select ch h p =
    let nodes = healthy_backends h p in
    let ch' = ensure_ring h nodes ch in
    let cnt = add64 ch'.counter 1 in
    let ch'' = record ch' { counter = cnt } in
    if is_empty nodes then (ch, none) else (ch'', get_node ch'' (hash_string (request_key cnt)))

unfoldable pub select_key : ConsistentHash → Heap → Pool → String → ConsistentHash × Option Ref
select_key ch h p key =
    let nodes = healthy_backends h p in
    let ch' = ensure_ring h nodes ch in
    if is_empty nodes
    then (ch, none)
    else if str_eq key ""
    then select ch' h p
    else (ch', get_node ch' (hash_string (bytes key)))
