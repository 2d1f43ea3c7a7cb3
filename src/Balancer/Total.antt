-- ===== src/Balancer/Total.antt =====
-- Each strategy has a backend for every request as long as one is healthy.
use load_balancer.Base.{
  ℕ, ◌-◌, ◌<◌, ◌≡◌, refl, inl, inr, Option, none, some, String, List, [], ◌∷◌, arith, str_eq, ◌==◌,
  Bool-cases, length, In, get_elem?_total, i64_half, add64, srem,
}
use load_balancer.Balancer.Backend.{Heap, Ref}
use load_balancer.Balancer.Pool.{Pool, healthy_backends}
use load_balancer.Balancer.Strategy.{
  Strategy, IsSound, select_for, round_robin, weighted_round_robin, least_connections,
  consistent_hash, weighted_round_robin-IsSound, least_connections-IsSound,
}
use native.Mathlib.Nat.{mod-lt}
use load_balancer.Balancer.RoundRobin
use load_balancer.Balancer.RoundRobin.Fair.{select_total}
use load_balancer.Balancer.Weighted
use load_balancer.Balancer.LeastConnections.{select-some}
use load_balancer.Balancer.ConsistentHash
use load_balancer.Balancer.ConsistentHash.{ensure_ring, hash_string, request_key, get_node}
use load_balancer.Balancer.ConsistentHash.Affinity.{
  IsTrusted, select_key-healthy, ensure_ring-IsBuilt, ensure_ring_idem, is_empty_pos,
}
use load_balancer.Balancer.ConsistentHash.Lookup.{IsBuilt, get_node-IsSuccessor}

-- The answer is a healthy backend of the pool.
abbrev pub IsServed : Heap → Pool → Option Ref → Type 0
IsServed h p answer = (r : Ref) × (answer ≡ some r) × In r (healthy_backends h p)

sound-IsServed :
    {S : Type 0}
    → (st : Strategy S) (sound : IsSound st) (key : String) (s : S) (h : Heap) (p : Pool)
    → ((r : Ref) × ((select_for st key s h p).1 ≡ some r))
    → IsServed h p (select_for st key s h p).1
sound-IsServed st sound key s h p (r, e) = (r, e, sound.law key s h p r e)

srem-lt :
    (c : ℕ) (nodes : List Ref)
    → c < i64_half
    → 0 < length nodes
    → srem c (length nodes) < length nodes
srem-lt c nodes fits pos = let low = mod-lt c pos in ground arith

-- The indices that the weighted round robin takes are in range while its counter is not negative.
pub pick-some :
    (w : Weighted.Weighted) (h : Heap) (nodes : List Ref)
    → w.current_weight < i64_half
    → 0 < length nodes
    → (r : Ref) × ((Weighted.pick w h nodes).1 ≡ some r)
unfolding Weighted.pick
pick-some w h [] fits pos = elim pos [ ]
pick-some w h (n ∷ ns) fits pos =
    let nodes = n ∷ ns in
    let total = Weighted.total_from h 0 nodes in
    elim (Bool-cases (total == 0)) [
      | inl z ↦
          let (r, e) =
            get_elem?_total nodes (srem w.current_weight (length nodes))
              (srem-lt w.current_weight nodes fits pos) in
          (r, rw z e)
      | inr z ↦
          let (r, e) = last_or nodes (Weighted.seek h (srem w.current_weight total) 0 nodes) pos in
          (r, rw z e)
    ]
  where
    last_or :
        (xs : List Ref) (o : Option Ref)
        → 0 < length xs
        → (r : Ref) × (Weighted.or_last xs o ≡ some r)
    last_or xs none pos = get_elem?_total xs (length xs - 1) (omega arith)
    last_or xs (some r) pos = (r, refl)

-- On a built ring that the code takes for the nodes', the counter's key finds a node too.
hash_select-IsServed :
    (ch : ConsistentHash.ConsistentHash) (h : Heap) (p : Pool)
    → 0 < length (healthy_backends h p)
    → IsBuilt (healthy_backends h p) (ensure_ring h (healthy_backends h p) ch)
    → IsServed h p (ConsistentHash.select ch h p).1
unfolding ConsistentHash.select
hash_select-IsServed ch h p pos built =
    let nodes = healthy_backends h p in
    let ch' = ensure_ring h nodes ch in
    let cnt = add64 ch'.counter 1 in
    let counted : IsBuilt nodes (record ch' { counter = cnt }) = record {
      sorted = built.sorted;
      owned = built.owned;
      inhabited = built.inhabited;
    } in
    let (r, e, mem, _) =
      get_node-IsSuccessor nodes (record ch' { counter = cnt }) (hash_string (request_key cnt))
        counted in
    (r, rw (is_empty_pos nodes pos) e, mem)

hash-IsServed :
    (ch : ConsistentHash.ConsistentHash) (h : Heap) (p : Pool) (key : String)
    → 0 < ch.virtual_nodes
    → 0 < length (healthy_backends h p)
    → IsTrusted h (healthy_backends h p) ch
    → IsServed h p (ConsistentHash.select_key ch h p key).1
hash-IsServed ch h p key vn pos trusted =
    let nodes = healthy_backends h p in
    let built = ensure_ring-IsBuilt h nodes ch vn pos trusted in
    elim (Bool-cases (str_eq key "")) [
      | inr keyed ↦ select_key-healthy ch h p key vn pos trusted keyed
      | inl blank ↦
          let again : IsBuilt nodes (ensure_ring h nodes (ensure_ring h nodes ch)) =
            rw (ensure_ring_idem h nodes ch) built in
          unfold ConsistentHash.select_key in
          rw (is_empty_pos nodes pos, blank)
            (hash_select-IsServed (ensure_ring h nodes ch) h p pos again)
    ]

-- With a healthy backend in the pool, each strategy answers a request of any key with a healthy
-- backend of the pool: round robin and least connections in every state, the weighted round robin
-- while its counter is not negative, and the consistent hash with a positive number of virtual
-- nodes and a cached ring that is empty, of another fingerprint, or truly that of the nodes.
pub every_strategy_serves :
    (rr : RoundRobin.RoundRobin) (w : Weighted.Weighted) (ch : ConsistentHash.ConsistentHash)
    (h : Heap) (p : Pool) (key : String)
    → 0 < length (healthy_backends h p)
    → w.current_weight < i64_half
    → 0 < ch.virtual_nodes
    → IsTrusted h (healthy_backends h p) ch
    → IsServed h p (select_for round_robin key rr h p).1
      × IsServed h p (select_for least_connections key tt h p).1
      × IsServed h p (select_for weighted_round_robin key w h p).1
      × IsServed h p (select_for consistent_hash key ch h p).1
unfolding select_for Weighted.select
every_strategy_serves rr w ch h p key pos fits vn trusted = (
  select_total rr h p pos,
  sound-IsServed least_connections least_connections-IsSound key tt h p (select-some h p pos),
  sound-IsServed weighted_round_robin weighted_round_robin-IsSound key w h p
      (pick-some w h (healthy_backends h p) fits pos),
  hash-IsServed ch h p key vn pos trusted,
)
