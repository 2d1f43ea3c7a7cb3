-- ===== src/Balancer/Weighted/Fair.antt =====
-- The weighted round robin serves each healthy backend in proportion to its weight.
use load_balancer.Base.{
  ℕ, zero, suc, ◌+◌, ◌-◌, ◌*◌, ◌%◌, ◌≤◌, ◌<◌, ◌≡◌, refl, sym, ap, ◌∙◌, inl, inr, true, false,
  Option, some, List, [], ◌∷◌, ◌++◌, arith, ltb, ◌==◌, if◌then◌else◌, ltb→lt, ltb→ge, ==_iff,
  Bool-cases, length, get_elem?, replicate, count, get_elem?_total, length-append, length-replicate,
  i64_half, add64, slt, srem,
}
use load_balancer.Base.Cycle.{
  cycle, rotate, cycle_round, count-append, count-rotate, is_some_and, count-map-some,
}
use load_balancer.Balancer.Backend.{Heap, Ref}
use load_balancer.Balancer.Pool.{Pool, healthy_backends}
use native.Mathlib.Nat.{mod-lt}
use load_balancer.Balancer.Weighted.{Weighted, total_from, seek, pick, select}

-- Each node as often as its weight says, in pool order.
abbrev pub expand : Heap → List Ref → List Ref
expand h [] = []
expand h (n ∷ ns) = replicate (h n).weight n ++ expand h ns

-- k calls of Select in a row, over one pool.
unfoldable pub select_many : ℕ → Weighted → Heap → Pool → List (Option Ref)
select_many zero w h p = []
select_many (suc k) w h p = let (w', r) = select w h p in r ∷ select_many k w' h p

total_from-expand :
    (h : Heap) (total : ℕ) (nodes : List Ref)
    → total + length (expand h nodes) < i64_half
    → total_from h total nodes ≡ total + length (expand h nodes)
unfolding total_from
total_from-expand h total [] fits = omega arith
total_from-expand h total (n ∷ ns) fits =
    let w = (h n).weight in
    let len : length (expand h (n ∷ ns)) ≡ w + length (expand h ns) =
      omega (arith, length-append (replicate w n) (expand h ns), length-replicate w n) in
    let sum : add64 total w ≡ total + w = omega arith in
    rw sum (omega (arith, total_from-expand h (total + w) ns (omega arith)))

get_elem?-replicate_lt :
    (w i : ℕ) (n : Ref) (ys : List Ref) → i < w → get_elem? (replicate w n ++ ys) i ≡ some n
get_elem?-replicate_lt zero i n ys lt = elim lt [ ]
get_elem?-replicate_lt (suc w) zero n ys lt = refl
get_elem?-replicate_lt (suc w) (suc i) n ys lt = get_elem?-replicate_lt w i n ys (omega arith)

get_elem?-replicate_ge :
    (w i : ℕ) (n : Ref) (ys : List Ref) → get_elem? (replicate w n ++ ys) (w + i) ≡ get_elem? ys i
get_elem?-replicate_ge zero i n ys = ap (get_elem? ys) (omega arith)
get_elem?-replicate_ge (suc w) i n ys =
    let e : suc w + i ≡ suc (w + i) = omega arith in rw e (get_elem?-replicate_ge w i n ys)

-- The loop finds what stands at place `i` of the expanded list.
seek-expand :
    (h : Heap) (running i : ℕ) (nodes : List Ref)
    → i < length (expand h nodes)
    → running + length (expand h nodes) < i64_half
    → seek h (running + i) running nodes ≡ get_elem? (expand h nodes) i
unfolding seek
seek-expand h running i [] lt fits = elim lt [ ]
seek-expand h running i (n ∷ ns) lt fits =
    let w = (h n).weight in
    let len : length (expand h (n ∷ ns)) ≡ w + length (expand h ns) =
      omega (arith, length-append (replicate w n) (expand h ns), length-replicate w n) in
    let sum : add64 running w ≡ running + w = omega arith in
    elim (Bool-cases (ltb i w)) [
      | inl e ↦
          let hit : slt (running + i) (running + w) ≡ true = ground (arith, ltb→lt i w e) in
          rw (sum, hit) (sym (get_elem?-replicate_lt w i n (expand h ns) (ltb→lt i w e)))
      | inr e ↦
          let ge = ltb→ge i w e in
          let miss : slt (running + i) (running + w) ≡ false = ground (arith, ge) in
          let at : running + i ≡ running + w + (i - w) = omega arith in
          let split : i ≡ w + (i - w) = omega arith in
          rw (sum, miss)
            (ap (λ t. seek h t (running + w) ns) at
              ∙ seek-expand h (running + w) (i - w) ns (omega arith) (omega arith)
              ∙ sym (get_elem?-replicate_ge w (i - w) n (expand h ns))
              ∙ ap (get_elem? (expand h (n ∷ ns))) (sym split))
    ]

abbrev pub weight_sum : Heap → List Ref → ℕ
weight_sum h nodes = length (expand h nodes)

pick-cycle :
    (h : Heap) (nodes : List Ref) (c : ℕ) (w : Weighted)
    → 0 < weight_sum h nodes
    → weight_sum h nodes < i64_half
    → w.current_weight ≡ c
    → c < i64_half
    → (pick w h nodes).1 ≡ get_elem? (expand h nodes) (c % weight_sum h nodes)
unfolding pick
pick-cycle h [] c w pos fits e lt = elim pos [ ]
pick-cycle h (n ∷ ns) c w pos fits e lt =
    let nodes = n ∷ ns in
    let sum = weight_sum h nodes in
    let total : total_from h 0 nodes ≡ sum =
      omega (arith, total_from-expand h 0 nodes (omega arith)) in
    let nonzero : (sum == 0) ≡ false = ground (arith, pos) in
    let target : srem w.current_weight sum ≡ 0 + c % sum = ground (arith, e, lt) in
    let below : c % sum < sum = mod-lt c pos in
    let (r, hit) = get_elem?_total (expand h nodes) (c % sum) below in
    let found = seek-expand h 0 (c % sum) nodes below (omega arith) in
    rw (total, nonzero, target, found, hit)

pick-next :
    (h : Heap) (nodes : List Ref) (w : Weighted)
    → 0 < weight_sum h nodes
    → (pick w h nodes).0.current_weight ≡ add64 w.current_weight 1
unfolding pick
pick-next h [] w pos = elim pos [ ]
pick-next h (n ∷ ns) w pos = ground arith

select_many-cycle :
    (k c : ℕ) (w : Weighted) (h : Heap) (p : Pool)
    → 0 < weight_sum h (healthy_backends h p)
    → weight_sum h (healthy_backends h p) < i64_half
    → w.current_weight ≡ c
    → c + k ≤ i64_half
    → select_many k w h p ≡ cycle (expand h (healthy_backends h p)) c k
unfolding select_many select
select_many-cycle zero c w h p pos fits e le = refl
select_many-cycle (suc k) c w h p pos fits e le =
    let nodes = healthy_backends h p in
    let w' = (pick w h nodes).0 in
    let next : w'.current_weight ≡ suc c = omega (arith, pick-next h nodes w pos) in
    rw (pick-cycle h nodes c w pos fits e (omega arith)) (
      ap (◌∷◌ (get_elem? (expand h nodes) (c % weight_sum h nodes)))
        (select_many-cycle k (suc c) w' h p pos fits next (omega arith)))

count-replicate :
    (b n : Ref) (w : ℕ) → count (λ r. r == b) (replicate w n) ≡ (if n == b then w else 0)
count-replicate b n zero = ground arith
count-replicate b n (suc w) = ground (arith, count-replicate b n w)

count-expand :
    (h : Heap) (b : Ref) (nodes : List Ref)
    → count (λ r. r == b) (expand h nodes) ≡ count (λ r. r == b) nodes * (h b).weight
count-expand h b [] = omega arith
count-expand h b (n ∷ ns) = elim (Bool-cases (n == b)) [
  | inl e ↦
      let same : n ≡ b = (==_iff n b).0 e in
      rw e (
        omega (
          arith,
          count-append (λ r. r == b) (replicate (h n).weight n) (expand h ns),
          (count-replicate b n (h n).weight ∙ ap (λ t. if t then (h n).weight else 0) e),
          ap (λ t. (h t).weight) same,
          count-expand h b ns,
        ))
  | inr e ↦ rw e (
      omega (
        arith,
        count-append (λ r. r == b) (replicate (h n).weight n) (expand h ns),
        (count-replicate b n (h n).weight ∙ ap (λ t. if t then (h n).weight else 0) e),
        count-expand h b ns,
      ))
]

-- With weights that add up to a positive int and no overflow of the counter within the round, as
-- many calls of the weighted round robin as the weights add up to serve each backend as many times
-- as its weight, for each time that it stands among the healthy ones.
pub share :
    (w : Weighted) (h : Heap) (p : Pool) (b : Ref)
    → 0 < weight_sum h (healthy_backends h p)
    → weight_sum h (healthy_backends h p) < i64_half
    → w.current_weight + weight_sum h (healthy_backends h p) ≤ i64_half
    → count (is_some_and (λ r. r == b)) (select_many (weight_sum h (healthy_backends h p)) w h p)
      ≡ count (λ r. r == b) (healthy_backends h p) * (h b).weight
share w h p b pos fits le =
    let nodes = healthy_backends h p in
    let sum = weight_sum h nodes in
    let c = w.current_weight in
    ap (count (is_some_and (λ r. r == b)))
      (select_many-cycle sum c w h p pos fits refl le ∙ cycle_round (expand h nodes) c pos)
    ∙ count-map-some (λ r. r == b) (rotate (c % sum) (expand h nodes))
    ∙ count-rotate (λ r. r == b) (c % sum) (expand h nodes)
    ∙ count-expand h b nodes
