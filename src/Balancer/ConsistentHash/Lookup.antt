-- ===== src/Balancer/ConsistentHash/Lookup.antt =====
-- A lookup on the ring: the next point clockwise, and its owner among the nodes.
use load_balancer.Base.{
  ℕ, zero, suc, ◌+◌, ◌*◌, ◌≤◌, ◌<◌, ◌≡◌, refl, ◌⊎◌, inl, inr, some, List, [], ◌∷◌, ◌++◌, arith, ltb,
  ◌==◌, ltb→lt, ltb→ge, ==_iff, Bool-cases, length, get_elem?, In, get_elem?-In, length-append,
}
use load_balancer.Balancer.Backend.{Heap, Ref}
use load_balancer.Balancer.ConsistentHash.Search.{
  search_ring, at, IsSorted, search_ring-IsBoundary, at_mono,
}
use load_balancer.Balancer.ConsistentHash.Sort.{sort-IsSorted, In-sort, length-sort}
use load_balancer.Balancer.ConsistentHash.{
  ConsistentHash, map_get, add_virtual, add_nodes, build_hash_ring, ring_point, get_node,
  hash_string, virtual_key,
}

-- `p` is the point of the ring where a hash lands: the least point not below it, or, past the last
-- point, the least of all.
abbrev pub IsSuccessor : List ℕ → ℕ → ℕ → Type 0
IsSuccessor ring hash p =
    In p ring
    × (((hash ≤ p) × ((q : ℕ) → In q ring → hash ≤ q → p ≤ q))
        ⊎ (((q : ℕ) → In q ring → q < hash) × ((q : ℕ) → In q ring → p ≤ q)))

get_elem?-at : (ring : List ℕ) (i : ℕ) → i < length ring → get_elem? ring i ≡ some (at ring i)
get_elem?-at [] i h = elim h [ ]
get_elem?-at (x ∷ xs) zero h = refl
get_elem?-at (x ∷ xs) (suc i) h = get_elem?-at xs i (omega arith)

In-at : (q : ℕ) (ring : List ℕ) → In q ring → (k : ℕ) × (k < length ring) × (q ≡ at ring k)
In-at q [] h = elim h [ ]
In-at q (x ∷ xs) (inl e) = (0, omega arith, e)
In-at q (x ∷ xs) (inr h) = let (k, lt, e) = In-at q xs h in (suc k, omega arith, e)

at-In : (ring : List ℕ) (k : ℕ) → k < length ring → In (at ring k) ring
at-In ring k lt = get_elem?-In ring k (at ring k) (get_elem?-at ring k lt)

-- On a sorted ring with a point, the lookup finds the successor.
pub ring_point-IsSuccessor :
    (ring : List ℕ) (hash : ℕ)
    → IsSorted ring
    → 0 < length ring
    → (p : ℕ) × (ring_point ring hash ≡ some p) × IsSuccessor ring hash p
unfolding ring_point
ring_point-IsSuccessor ring hash s pos = elim (Bool-cases (idx == length ring)) [
  | inl e ↦
      let end : idx ≡ length ring = (==_iff idx (length ring)).0 e in
      (
        at ring 0,
        rw e (get_elem?-at ring 0 pos),
        (
          at-In ring 0 pos,
          inr (
            (λ q h. let (k, lt, same) = In-at q ring h in omega (arith, bound.1 k (omega arith))),
            λ q h.
                let (k, lt, same) = In-at q ring h in
                omega (arith, at_mono ring 0 k s (omega arith) lt),
          ),
        ),
      )
  | inr e ↦
      let inside : idx < length ring = ground (arith, bound.0, e) in
      (
        at ring idx,
        rw e (get_elem?-at ring idx inside),
        (
          at-In ring idx inside,
          inl (
            bound.2 idx (omega arith) inside,
            λ q h le.
                let (k, lt, same) = In-at q ring h in
                elim (Bool-cases (ltb k idx)) [
                  | inl low ↦ absurd (omega (arith, bound.1 k (ltb→lt k idx low)))
                  | inr high ↦ omega (arith, at_mono ring idx k s (ltb→ge k idx high) lt)
                ],
          ),
        ),
      )
]
  where
    idx : ℕ
    idx = search_ring ring hash

    bound :
        (idx ≤ length ring)
        × ((k : ℕ) → k < idx → at ring k < hash)
        × ((k : ℕ) → idx ≤ k → k < length ring → hash ≤ at ring k)
    bound = search_ring-IsBoundary ring hash s

-- Every point of the ring has an owner, which is one of the nodes.
abbrev pub IsOwned : List Ref → List ℕ → List (ℕ × Ref) → Type 0
IsOwned nodes ring m = (k : ℕ) → In k ring → (r : Ref) × (map_get k m ≡ some r) × In r nodes

In-append : {A : Type 0} (a : A) (xs ys : List A) → In a (xs ++ ys) → In a xs ⊎ In a ys
In-append a [] ys h = inr h
In-append a (x ∷ xs) ys (inl e) = inl (inl e)
In-append a (x ∷ xs) ys (inr h) = elim (In-append a xs ys h) [ inl t ↦ inl (inr t) | inr t ↦ inr t ]

IsOwned-point :
    (nodes : List Ref) (node : Ref) (j : ℕ) (ring : List ℕ) (m : List (ℕ × Ref))
    → In node nodes
    → IsOwned nodes ring m
    → IsOwned nodes (ring ++ j ∷ []) ((j, node) ∷ m)
IsOwned-point nodes node j ring m here owned k h = elim (Bool-cases (j == k)) [
  | inl e ↦ (node, rw e, here)
  | inr e ↦ elim (In-append k ring (j ∷ []) h) [
    | inl old ↦ let (r, found, mem) = owned k old in (r, rw e found, mem)
    | inr new ↦ elim new [ inl q ↦ absurd (ground (arith, q, e)) | inr bad ↦ absurd bad ]
  ]
]

add_virtual-IsOwned :
    (h : Heap) (nodes : List Ref) (node : Ref) (left i : ℕ) (acc : List ℕ × List (ℕ × Ref))
    → In node nodes
    → IsOwned nodes acc.0 acc.1
    → IsOwned nodes (add_virtual h node left i acc).0 (add_virtual h node left i acc).1
unfolding add_virtual
add_virtual-IsOwned h nodes node zero i acc here owned = owned
add_virtual-IsOwned h nodes node (suc left) i (ring, m) here owned =
    let k = hash_string (virtual_key (h node).url.text i) in
    add_virtual-IsOwned h nodes node left (suc i) (ring ++ k ∷ [], (k, node) ∷ m) here
      (IsOwned-point nodes node k ring m here owned)

length-add_virtual :
    (h : Heap) (node : Ref) (left i : ℕ) (acc : List ℕ × List (ℕ × Ref))
    → length (add_virtual h node left i acc).0 ≡ length acc.0 + left
unfolding add_virtual
length-add_virtual h node zero i acc = omega arith
length-add_virtual h node (suc left) i (ring, m) =
    let k = hash_string (virtual_key (h node).url.text i) in
    omega (
      arith,
      length-add_virtual h node left (suc i) (ring ++ k ∷ [], (k, node) ∷ m),
      length-append ring (k ∷ []),
    )

add_nodes-IsOwned :
    (h : Heap) (v : ℕ) (nodes rest : List Ref) (acc : List ℕ × List (ℕ × Ref))
    → ((r : Ref) → In r rest → In r nodes)
    → IsOwned nodes acc.0 acc.1
    → IsOwned nodes (add_nodes h v rest acc).0 (add_nodes h v rest acc).1
unfolding add_nodes
add_nodes-IsOwned h v nodes [] acc sub owned = owned
add_nodes-IsOwned h v nodes (n ∷ ns) acc sub owned =
    add_nodes-IsOwned h v nodes ns (add_virtual h n v 0 acc) (λ r m. sub r (inr m))
      (add_virtual-IsOwned h nodes n v 0 acc (sub n (inl refl)) owned)

length-add_nodes :
    (h : Heap) (v : ℕ) (nodes : List Ref) (acc : List ℕ × List (ℕ × Ref))
    → length (add_nodes h v nodes acc).0 ≡ length acc.0 + length nodes * v
unfolding add_nodes
length-add_nodes h v [] acc = omega arith
length-add_nodes h v (n ∷ ns) acc =
    omega (arith, length-add_nodes h v ns (add_virtual h n v 0 acc), length-add_virtual h n v 0 acc)

-- What holds of the hash once its ring is built for `nodes`.
pub record IsBuilt (nodes : List Ref) (ch : ConsistentHash) : Type 0 where
  pub sorted : IsSorted ch.hash_ring
  pub owned : IsOwned nodes ch.hash_ring ch.node_map
  pub inhabited : 0 < length ch.hash_ring

pub build_hash_ring-IsBuilt :
    (h : Heap) (nodes : List Ref) (fp : ℕ) (ch : ConsistentHash)
    → 0 < ch.virtual_nodes
    → 0 < length nodes
    → IsBuilt nodes (build_hash_ring h nodes fp ch)
unfolding build_hash_ring
build_hash_ring-IsBuilt h nodes fp ch pos some_node =
    let built = add_nodes h ch.virtual_nodes nodes ([], []) in
    let all : IsOwned nodes built.0 built.1 =
      add_nodes-IsOwned h ch.virtual_nodes nodes nodes ([], []) (λ r m. m) (λ k m. elim m [ ]) in
    let size = length-add_nodes h ch.virtual_nodes nodes ([], []) in
    record {
      sorted = sort-IsSorted built.0;
      owned = λ k m. all k (In-sort k built.0 m);
      inhabited = grind (arith, length-sort built.0, size);
    }

-- On a built ring GetNode returns a node, the owner of the least ring point not below the hash or,
-- if there is none, of the least point of all.
pub get_node-IsSuccessor :
    (nodes : List Ref) (ch : ConsistentHash) (hash : ℕ)
    → IsBuilt nodes ch
    → (r : Ref) × (get_node ch hash ≡ some r)
      × In r nodes
      × ((p : ℕ) × IsSuccessor ch.hash_ring hash p × (map_get p ch.node_map ≡ some r))
unfolding get_node
get_node-IsSuccessor nodes ch hash b =
    let (p, e, succ) = ring_point-IsSuccessor ch.hash_ring hash b.sorted b.inhabited in
    let (r, found, mem) = b.owned p succ.0 in (r, rw e found, mem, (p, succ, found))
