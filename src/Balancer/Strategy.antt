-- ===== src/Balancer/Strategy.antt =====
-- internal/balancer/pool.go: the interfaces Strategy and KeyedStrategy, and the strategies that
-- fill them. `S` is the state behind the interface value; `keyed` is `none` where the type
-- assertion to KeyedStrategy fails.
use load_balancer.Base.{
  ℕ, ◌≡◌, inl, inr, Option, none, some, String, List, [], ◌∷◌, arith, ◌==◌, Bool-cases, In,
  get_elem?-In, add64, srem,
}
use load_balancer.Balancer.Backend.{Heap, Ref}
use load_balancer.Balancer.Pool.{Pool, healthy_backends}
use load_balancer.Balancer.RoundRobin
use load_balancer.Balancer.Weighted
use load_balancer.Balancer.LeastConnections
use load_balancer.Balancer.ConsistentHash

pub record Strategy (S : Type 0) : Type 0 where
  pub select : S → Heap → Pool → S × Option Ref
  pub keyed : Option (S → Heap → Pool → String → S × Option Ref)

-- SelectKey where the strategy has it, or Select.
unfoldable pub select_for : {S : Type 0} → Strategy S → String → S → Heap → Pool → S × Option Ref
select_for st key s h p = elim st.keyed [ some f ↦ f s h p key | none ↦ st.select s h p ]

-- What a client may rely on: a backend that is selected is healthy.
module _ {S : Type 0} (st : Strategy S) where
  pub record IsSound : Type 0 where
    pub law :
        (key : String) (s : S) (h : Heap) (p : Pool) (r : Ref)
        → (select_for st key s h p).1 ≡ some r
        → In r (healthy_backends h p)

abbrev pub round_robin : Strategy RoundRobin.RoundRobin
round_robin = record { select = RoundRobin.select; keyed = none }

abbrev pub weighted_round_robin : Strategy Weighted.Weighted
weighted_round_robin = record { select = Weighted.select; keyed = none }

abbrev pub least_connections : Strategy Unit
least_connections = record { select = λ s h p. (s, LeastConnections.select h p); keyed = none }

abbrev pub consistent_hash : Strategy ConsistentHash.ConsistentHash
consistent_hash = record { select = ConsistentHash.select; keyed = some ConsistentHash.select_key }

pick-In :
    (rr : RoundRobin.RoundRobin) (nodes : List Ref) (r : Ref)
    → (RoundRobin.pick rr nodes).1 ≡ some r
    → In r nodes
unfolding RoundRobin.pick
pick-In rr [] r e = cc
pick-In rr (n ∷ ns) r e = get_elem?-In (n ∷ ns) _ r e

pub round_robin-IsSound : IsSound round_robin
unfolding select_for RoundRobin.select
round_robin-IsSound = record { law = λ key s h p r e. pick-In s (healthy_backends h p) r e }

seek-In :
    (h : Heap) (target running : ℕ) (ns : List Ref) (r : Ref)
    → Weighted.seek h target running ns ≡ some r
    → In r ns
unfolding Weighted.seek
seek-In h target running [] r e = cc
seek-In h target running (n ∷ ns) r e =
    ground (arith, seek-In h target (add64 running (h n).weight) ns r)

or_last-In :
    (nodes : List Ref) (o : Option Ref) (r : Ref)
    → ((s : Ref) → o ≡ some s → In s nodes)
    → Weighted.or_last nodes o ≡ some r
    → In r nodes
or_last-In nodes none r h e = get_elem?-In nodes _ r e
or_last-In nodes (some s) r h e = h r e

weighted-In :
    (w : Weighted.Weighted) (h : Heap) (nodes : List Ref) (r : Ref)
    → (Weighted.pick w h nodes).1 ≡ some r
    → In r nodes
unfolding Weighted.pick
weighted-In w h [] r e = cc
weighted-In w h (n ∷ ns) r e =
    let nodes = n ∷ ns in
    let total = Weighted.total_from h 0 nodes in
    elim (Bool-cases (total == 0)) [
      | inl z ↦ get_elem?-In nodes _ r (rw z at e)
      | inr z ↦
          or_last-In nodes (Weighted.seek h (srem w.current_weight total) 0 nodes) r
            (λ s. seek-In h (srem w.current_weight total) 0 nodes s) (rw z at e)
    ]

pub weighted_round_robin-IsSound : IsSound weighted_round_robin
unfolding select_for Weighted.select
weighted_round_robin-IsSound = record {
  law = λ key s h p r e. weighted-In s h (healthy_backends h p) r e;
}

pub least_connections-IsSound : IsSound least_connections
unfolding select_for
least_connections-IsSound = record { law = λ key s h p r e. LeastConnections.select-In h p r e }
