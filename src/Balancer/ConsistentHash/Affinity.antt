-- ===== src/Balancer/ConsistentHash/Affinity.antt =====
-- What a keyed request is promised: a healthy backend, and the same one as long as the healthy
-- nodes stay the same; and what goes wrong when two node lists share a fingerprint.
use load_balancer.Base.{
  ℕ, ◌<◌, ◌≡◌, refl, sym, ap, ◌∙◌, ◌≢◌, ◌⊎◌, inl, inr, Bool, true, false, not, ◌&&◌, none, some,
  String, List, [], ◌∷◌, arith, str_eq, ◌==◌, ==_iff, Bool-cases, length, In, add64, bytes,
}
use load_balancer.Balancer.Backend.{Heap, Ref}
use load_balancer.Balancer.Pool.{Pool, healthy_backends}
use load_balancer.Balancer.ConsistentHash.Lookup.{
  IsBuilt, build_hash_ring-IsBuilt, get_node-IsSuccessor,
}
use load_balancer.Balancer.ConsistentHash.{
  ConsistentHash, fingerprint, build_hash_ring, ensure_ring, get_node, is_empty, select, select_key,
  hash_string,
}

-- The cached ring, if the code takes it for the one of these nodes, is theirs: no two node lists
-- with one fingerprint have met.
abbrev pub IsTrusted : Heap → List Ref → ConsistentHash → Type 0
IsTrusted h nodes ch =
    (ch.hash_ring ≡ []) ⊎ ((ch.last_nodes_hash ≢ fingerprint h 0 nodes) ⊎ IsBuilt nodes ch)

pub ensure_ring-IsBuilt :
    (h : Heap) (nodes : List Ref) (ch : ConsistentHash)
    → 0 < ch.virtual_nodes
    → 0 < length nodes
    → IsTrusted h nodes ch
    → IsBuilt nodes (ensure_ring h nodes ch)
unfolding ensure_ring
ensure_ring-IsBuilt h nodes ch pos some_node trusted = elim (Bool-cases hit) [
  | inr e ↦ rw e (build_hash_ring-IsBuilt h nodes (fingerprint h 0 nodes) ch pos some_node)
  | inl e ↦ rw e (elim trusted [
    | inl empty ↦ absurd (ground (arith, e, empty))
    | inr (inl differ) ↦ absurd (differ (ground (arith, e)))
    | inr (inr built) ↦ built
  ])
]
  where
    hit : Bool
    hit = ch.last_nodes_hash == fingerprint h 0 nodes && not (is_empty ch.hash_ring)

pub is_empty_pos : {A : Type 0} (xs : List A) → 0 < length xs → is_empty xs ≡ false
is_empty_pos [] h = elim h [ ]
is_empty_pos (x ∷ xs) h = refl

-- With a healthy backend in the pool, a positive number of virtual nodes, a non-empty key, and a
-- cached ring that is empty, of another fingerprint, or truly that of the healthy nodes, SelectKey
-- returns a healthy backend of the pool.
pub select_key-healthy :
    (ch : ConsistentHash) (h : Heap) (p : Pool) (key : String)
    → 0 < ch.virtual_nodes
    → 0 < length (healthy_backends h p)
    → IsTrusted h (healthy_backends h p) ch
    → str_eq key "" ≡ false
    → (r : Ref) × ((select_key ch h p key).1 ≡ some r) × In r (healthy_backends h p)
unfolding select_key
select_key-healthy ch h p key pos some_node trusted keyed =
    let nodes = healthy_backends h p in
    let ch' = ensure_ring h nodes ch in
    let built = ensure_ring-IsBuilt h nodes ch pos some_node trusted in
    let (r, e, mem, _) = get_node-IsSuccessor nodes ch' (hash_string (bytes key)) built in
    (r, rw (is_empty_pos nodes some_node, keyed) e, mem)

ensure_ring-counter :
    (h : Heap) (nodes : List Ref) (ch : ConsistentHash) (c : ℕ)
    → ensure_ring h nodes (record ch { counter = c })
      ≡ record (ensure_ring h nodes ch) { counter = c }
unfolding ensure_ring build_hash_ring
ensure_ring-counter h nodes ch c = ground arith

pub ensure_ring_idem :
    (h : Heap) (nodes : List Ref) (ch : ConsistentHash)
    → ensure_ring h nodes (ensure_ring h nodes ch) ≡ ensure_ring h nodes ch
unfolding ensure_ring build_hash_ring
ensure_ring_idem h nodes ch = ground arith

-- The state after a list of keyed requests; the empty key is a plain Select.
unfoldable pub after : List String → ConsistentHash → Heap → Pool → ConsistentHash
after [] ch h p = ch
after (k ∷ ks) ch h p = after ks (select_key ch h p k).0 h p

-- The ring is the one that the code would use for these nodes.
abbrev IsEnsured : Heap → List Ref → ConsistentHash → Type 0
IsEnsured h nodes ch = ensure_ring h nodes ch ≡ ch

IsEnsured-counter :
    (h : Heap) (nodes : List Ref) (ch : ConsistentHash) (c : ℕ)
    → IsEnsured h nodes ch
    → IsEnsured h nodes (record ch { counter = c })
IsEnsured-counter h nodes ch c e =
    ensure_ring-counter h nodes ch c ∙ ap (λ (x : ConsistentHash). record x { counter = c }) e

module _ (h : Heap) (p : Pool) where
  select_key_keeps :
      (ch : ConsistentHash) (key : String)
      → IsEnsured h (healthy_backends h p) ch
      → (c : ℕ) × ((select_key ch h p key).0 ≡ record ch { counter = c })
  unfolding select_key select
  select_key_keeps ch key e = elim (Bool-cases (is_empty (healthy_backends h p))) [
    | inl t ↦ (ch.counter, rw t)
    | inr t ↦ elim (Bool-cases (str_eq key "")) [
      | inl k ↦ (add64 ch.counter 1, rw (t, k, e, e))
      | inr k ↦ (ch.counter, rw (t, k, e))
    ]
  ]

  after_keeps :
      (keys : List String) (ch : ConsistentHash)
      → IsEnsured h (healthy_backends h p) ch
      → (c : ℕ) × (after keys ch h p ≡ record ch { counter = c })
  unfolding after
  after_keeps [] ch e = (ch.counter, refl)
  after_keeps (k ∷ ks) ch e =
      let (c, step) = select_key_keeps ch k e in
      let ch' : ConsistentHash = record ch { counter = c } in
      let (d, rest) = after_keeps ks ch' (IsEnsured-counter h (healthy_backends h p) ch c e) in
      (d, ap (λ x. after ks x h p) step ∙ rest)

  -- The answer to a keyed request in a state whose ring is that of `ch`.
  answer :
      (ch : ConsistentHash) (c : ℕ) (key : String)
      → is_empty (healthy_backends h p) ≡ false
      → str_eq key "" ≡ false
      → (select_key (record ch { counter = c }) h p key).1
        ≡ get_node (ensure_ring h (healthy_backends h p) ch) (hash_string (bytes key))
  unfolding select_key get_node
  answer ch c key t k = rw (t, k, ensure_ring-counter h (healthy_backends h p) ch c)

  -- While the healthy nodes stay the same, a request with a non-empty key is answered as the first
  -- request with that key was, whatever keyed and unkeyed requests of this hash come between.
  pub affinity :
      (ch : ConsistentHash) (key : String) (between : List String)
      → str_eq key "" ≡ false
      → (select_key (after between (select_key ch h p key).0 h p) h p key).1
        ≡ (select_key ch h p key).1
  affinity ch key between k = elim (Bool-cases (is_empty (healthy_backends h p))) [
    | inl t ↦ nobody (after between (select_key ch h p key).0 h p) t ∙ sym (nobody ch t)
    | inr t ↦
        let nodes = healthy_backends h p in
        let ch' = ensure_ring h nodes ch in
        let first : (select_key ch h p key).0 ≡ ch' = unfold select_key in rw (t, k) in
        let (c, e) = after_keeps between ch' (ensure_ring_idem h nodes ch) in
        ap (λ x. (select_key (after between x h p) h p key).1) first
        ∙ ap (λ x. (select_key x h p key).1) e
        ∙ answer ch' c key t k
        ∙ ap (λ x. get_node x (hash_string (bytes key))) (ensure_ring_idem h nodes ch)
        ∙ sym (answer ch ch.counter key t k)
  ]
    where
      nobody :
          (x : ConsistentHash)
          → is_empty (healthy_backends h p) ≡ true
          → (select_key x h p key).1 ≡ none
      nobody x t = unfold select_key in rw t

-- If two non-empty lists of healthy nodes have one fingerprint and the ring kept for the first is
-- not empty, a request with a non-empty key over the second, right after the same request over the
-- first, is answered with the backend of the first.
pub stale_ring :
    (ch : ConsistentHash) (h h2 : Heap) (p p2 : Pool) (key : String)
    → str_eq key "" ≡ false
    → 0 < length (healthy_backends h p)
    → 0 < length (healthy_backends h2 p2)
    → 0 < length (ensure_ring h (healthy_backends h p) ch).hash_ring
    → fingerprint h 0 (healthy_backends h p) ≡ fingerprint h2 0 (healthy_backends h2 p2)
    → (select_key (select_key ch h p key).0 h2 p2 key).1 ≡ (select_key ch h p key).1
unfolding select_key
stale_ring ch h h2 p p2 key k some_node some_node2 full same =
    let ch' = ensure_ring h (healthy_backends h p) ch in
    rw (is_empty_pos (healthy_backends h p) some_node, k)
      (rw (
        is_empty_pos (healthy_backends h2 p2) some_node2,
        cached ch' h2 (healthy_backends h2 p2) full (last ∙ same),
      ))
  where
    last :
        (ensure_ring h (healthy_backends h p) ch).last_nodes_hash
        ≡ fingerprint h 0 (healthy_backends h p)
    last = unfold ensure_ring build_hash_ring in ground arith

    cached :
        (x : ConsistentHash) (h' : Heap) (nodes : List Ref)
        → 0 < length x.hash_ring
        → x.last_nodes_hash ≡ fingerprint h' 0 nodes
        → ensure_ring h' nodes x ≡ x
    cached x h' nodes pos e =
        unfold ensure_ring in
        rw ((==_iff x.last_nodes_hash (fingerprint h' 0 nodes)).1 e, is_empty_pos x.hash_ring pos)
