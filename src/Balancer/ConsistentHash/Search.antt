-- ===== src/Balancer/ConsistentHash/Search.antt =====
-- `sort.Search(len(ring), func(i) bool { return ring[i] >= hash })`: the standard library's binary
-- search_ring, and what it finds on a sorted ring.
use native.Mathlib.Numerals.{unary_clauses}
use load_balancer.Base.{
  ◌*◌, ◌^◌, ◌≡◌, refl, ge→ltb, ℕ, zero, suc, ◌+◌, ◌-◌, ◌/◌, ◌≤◌, ◌<◌, inl, inr, List, [], ◌∷◌,
  arith, ltb, if◌then◌else◌, ltb→lt, ltb→ge, Bool-cases, length, All,
}

-- ring[i]; the loop asks only for indices in range.
abbrev pub at : List ℕ → ℕ → ℕ
at [] i = 0
at (x ∷ xs) zero = x
at (x ∷ xs) (suc i) = at xs i

-- `for i < j { h := (i + j) / 2; if !f(h) { i = h + 1 } else { j = h } }`, with fuel for j - i rounds.
unfoldable pub halve : ℕ → List ℕ → ℕ → ℕ → ℕ → ℕ
halve zero ring hash i j = i
halve (suc fuel) ring hash i j =
    let m = (i + j) / 2 in
    let right = ltb (at ring m) hash in
    let rest = halve fuel ring hash (if right then m + 1 else i) (if right then j else m) in
    if ltb i j then rest else i

unfoldable pub search_ring : List ℕ → ℕ → ℕ
unfolding halve
search_ring ring hash = halve (length ring) ring hash 0 (length ring)

-- Each point is at most every later one.
abbrev pub IsSorted : List ℕ → Type 0
IsSorted [] = Unit
IsSorted (x ∷ xs) = All (λ y. x ≤ y) xs × IsSorted xs

at-All : (x : ℕ) (xs : List ℕ) (i : ℕ) → All (λ y. x ≤ y) xs → i < length xs → x ≤ at xs i
at-All x [] i h lt = elim lt [ ]
at-All x (y ∷ ys) zero h lt = h.0
at-All x (y ∷ ys) (suc i) h lt = at-All x ys i h.1 (omega arith)

pub at_mono : (xs : List ℕ) (i j : ℕ) → IsSorted xs → i ≤ j → j < length xs → at xs i ≤ at xs j
at_mono [] i j s le lt = elim lt [ ]
at_mono (x ∷ xs) zero zero s le lt = omega arith
at_mono (x ∷ xs) zero (suc j) s le lt = at-All x xs j s.0 (omega arith)
at_mono (x ∷ xs) (suc i) zero s le lt = absurd (omega arith)
at_mono (x ∷ xs) (suc i) (suc j) s le lt = at_mono xs i j s.1 (omega arith) (omega arith)

-- All places below `i` hold less than the hash, and all from `i` on hold at least as much.
abbrev pub IsBoundary : List ℕ → ℕ → ℕ → Type 0
IsBoundary ring hash i =
    (i ≤ length ring)
    × ((k : ℕ) → k < i → at ring k < hash)
    × ((k : ℕ) → i ≤ k → k < length ring → hash ≤ at ring k)

halve-IsBoundary :
    (fuel : ℕ) (ring : List ℕ) (hash i j : ℕ)
    → IsSorted ring
    → i ≤ j
    → j ≤ length ring
    → j - i ≤ fuel
    → ((k : ℕ) → k < i → at ring k < hash)
    → ((k : ℕ) → j ≤ k → k < length ring → hash ≤ at ring k)
    → IsBoundary ring hash (halve fuel ring hash i j)
unfolding halve
halve-IsBoundary zero ring hash i j s le top m low high =
    (omega arith, low, λ k a b. high k (omega arith) b)
halve-IsBoundary (suc fuel) ring hash i j s le top m low high = elim (Bool-cases (ltb i j)) [
  | inr e ↦ rw e (omega (arith, ltb→ge i j e), low, λ k a b. high k (omega (arith, ltb→ge i j e)) b)
  | inl e ↦
      let mid = (i + j) / 2 in
      let lt = ltb→lt i j e in
      let in_range : mid < length ring = omega arith in
      rw e (elim (Bool-cases (ltb (at ring mid) hash)) [
        | inl r ↦ rw r (
            halve-IsBoundary fuel ring hash (mid + 1) j s (omega arith) top (omega arith)
              (λ k a.
                let step : at ring k ≤ at ring mid = at_mono ring k mid s (omega arith) in_range in
                omega (arith, ltb→lt (at ring mid) hash r))
              high)
        | inr r ↦ rw r (
            halve-IsBoundary fuel ring hash i mid s (omega arith) (omega arith) (omega arith) low
              (λ k a b.
                let step : at ring mid ≤ at ring k = at_mono ring mid k s a b in
                omega (arith, ltb→ge (at ring mid) hash r)))
      ])
]

-- On a sorted ring the search, which always ends within its fuel, returns the boundary.
pub search_ring-IsBoundary :
    (ring : List ℕ) (hash : ℕ) → IsSorted ring → IsBoundary ring hash (search_ring ring hash)
unfolding search_ring
search_ring-IsBoundary ring hash s =
    halve-IsBoundary (length ring) ring hash 0 (length ring) s (omega arith) (omega arith)
      (omega arith) (λ k lt. absurd (omega arith)) (λ k a b. absurd (omega arith))

two_pow : (n : ℕ) → 2 ^ suc n ≡ 2 * 2 ^ n
two_pow n = let doubled : 2 ^ suc n ≡ 2 ^ n * 2 = simp unary_clauses in omega arith

lt-two_pow : (n : ℕ) → n < 2 ^ n
lt-two_pow zero = omega arith
lt-two_pow (suc n) = let below = lt-two_pow n in rw (two_pow n) (omega arith)

-- Once the range is below 2^fuel, more fuel changes nothing.
halve_enough :
    (f g : ℕ) (ring : List ℕ) (hash i j : ℕ)
    → j - i < 2 ^ f
    → j - i < 2 ^ g
    → halve f ring hash i j ≡ halve g ring hash i j
unfolding halve
halve_enough zero zero ring hash i j small small' = refl
halve_enough zero (suc g) ring hash i j small small' = rw (ge→ltb i j (omega arith)) refl
halve_enough (suc f) zero ring hash i j small small' = rw (ge→ltb i j (omega arith)) refl
halve_enough (suc f) (suc g) ring hash i j small small' =
    let size = rw (two_pow f) at small in
    let size' = rw (two_pow g) at small' in
    elim (Bool-cases (ltb i j)) [
      | inr e ↦ rw e refl
      | inl e ↦
          let lt = ltb→lt i j e in
          let mid = (i + j) / 2 in
          rw e (elim (Bool-cases (ltb (at ring mid) hash)) [
            | inl r ↦ rw r (halve_enough f g ring hash (mid + 1) j (omega arith) (omega arith))
            | inr r ↦ rw r (halve_enough f g ring hash i mid (omega arith) (omega arith))
          ])
    ]

-- The search of a ring of less than 2^k points has its result after k rounds: it is the same as
-- with the fuel of the model, a round for each point.
pub search_ring_rounds :
    (k : ℕ) (ring : List ℕ) (hash : ℕ)
    → length ring < 2 ^ k
    → halve k ring hash 0 (length ring) ≡ search_ring ring hash
unfolding search_ring
search_ring_rounds k ring hash small =
    halve_enough k (length ring) ring hash 0 (length ring) (omega arith)
      (omega (arith, lt-two_pow (length ring)))
