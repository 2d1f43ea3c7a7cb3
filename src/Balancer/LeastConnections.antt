-- ===== src/Balancer/LeastConnections.antt =====
-- internal/balancer/least_connections.go. The loop keeps the best node so far and its load, an
-- int64 that starts at the sentinel -1.
use load_balancer.Base.{
  ℕ, ◌≤◌, ◌<◌, ◌≡◌, refl, sym, ap, ◌⊎◌, inl, inr, Bool, true, false, ◌||◌, Option, none, some, List,
  [], ◌∷◌, ◌++◌, arith, ◌==◌, if◌then◌else◌, Bool-cases, length, All, In, i64_half, minus_one, slt,
}
use load_balancer.Balancer.Backend.{Heap, Ref, active_connections}
use load_balancer.Balancer.Pool.{Pool, healthy_backends}

scan : Heap → Option Ref → ℕ → List Ref → Option Ref
unfolding active_connections
scan h best min [] = best
scan h best min (b ∷ bs) =
    let load = active_connections (h b) in
    let better = min == minus_one || slt load min in
    scan h (if better then some b else best) (if better then load else min) bs

unfoldable pub pick : Heap → List Ref → Option Ref
unfolding scan
pick h [] = none
pick h (b ∷ bs) = scan h none minus_one (b ∷ bs)

unfoldable pub select : Heap → Pool → Option Ref
unfolding pick
select h p = pick h (healthy_backends h p)

-- `r` splits the list so that all before it carry more load, and none after it less.
abbrev pub IsFirstLeast : Heap → List Ref → Ref → Type 0
IsFirstLeast h nodes r =
    (before : List Ref) × (after : List Ref) × (nodes ≡ before ++ r ∷ after)
    × All (λ s. (h r).connections < (h s).connections) before
    × All (λ s. (h r).connections ≤ (h s).connections) after

abbrev pub LoadsFit : Heap → List Ref → Type 0
LoadsFit h nodes = All (λ s. (h s).connections < i64_half) nodes

-- What the loop returns from a best node `b` on: `b` itself, or the first least node after it that
-- carries less.
abbrev Outcome : Heap → Ref → List Ref → Ref → Type 0
Outcome h b bs r =
    ((r ≡ b) × All (λ s. (h b).connections ≤ (h s).connections) bs)
    ⊎ (((h r).connections < (h b).connections) × IsFirstLeast h bs r)

scan_least :
    (h : Heap) (b : Ref) (bs : List Ref)
    → (h b).connections < i64_half
    → LoadsFit h bs
    → (r : Ref) × (scan h (some b) (h b).connections bs ≡ some r) × Outcome h b bs r
unfolding scan
scan_least h b [] fit fits = (b, refl, inl (refl, tt))
scan_least h b (x ∷ xs) fit fits = elim (Bool-cases better) [
  | inl e ↦ rw e (took_x (scan_least h x xs fits.0 fits.1) (less e))
  | inr e ↦ rw e (kept_b (scan_least h b xs fit fits.1) (more e))
]
  where
    better : Bool
    better = (h b).connections == minus_one || slt (h x).connections (h b).connections

    less : better ≡ true → (h x).connections < (h b).connections
    less e = ground (arith, fits.0)

    more : better ≡ false → (h b).connections ≤ (h x).connections
    more e = ground (arith, fits.0)

    took_x :
        (r : Ref) × (scan h (some x) (h x).connections xs ≡ some r) × Outcome h x xs r
        → (h x).connections < (h b).connections
        → (r : Ref) × (scan h (some x) (h x).connections xs ≡ some r) × Outcome h b (x ∷ xs) r
    took_x (r, e, inl (q, least)) lt =
        (r, e, inr (rw q lt, ([], xs, ap (λ t. t ∷ xs) (sym q), tt, rw q least)))
    took_x (r, e, inr (under, (before, after, cut, bs, as'))) lt =
        (r, e, inr (omega arith, (x ∷ before, after, ap (◌∷◌ x) cut, (under, bs), as')))

    kept_b :
        (r : Ref) × (scan h (some b) (h b).connections xs ≡ some r) × Outcome h b xs r
        → (h b).connections ≤ (h x).connections
        → (r : Ref) × (scan h (some b) (h b).connections xs ≡ some r) × Outcome h b (x ∷ xs) r
    kept_b (r, e, inl (q, least)) le = (r, e, inl (q, (le, least)))
    kept_b (r, e, inr (under, (before, after, cut, bs, as'))) le =
        (r, e, inr (under, (x ∷ before, after, ap (◌∷◌ x) cut, (omega arith, bs), as')))

pick_least :
    (h : Heap) (nodes : List Ref)
    → 0 < length nodes
    → LoadsFit h nodes
    → (r : Ref) × (pick h nodes ≡ some r) × IsFirstLeast h nodes r
unfolding pick scan
pick_least h [] pos fits = elim pos [ ]
pick_least h (b ∷ bs) pos fits = done (scan_least h b bs fits.0 fits.1)
  where
    done :
        (r : Ref) × (scan h (some b) (h b).connections bs ≡ some r) × Outcome h b bs r
        → (r : Ref) × (scan h (some b) (h b).connections bs ≡ some r) × IsFirstLeast h (b ∷ bs) r
    done (r, e, inl (q, least)) = (r, e, ([], bs, ap (λ t. t ∷ bs) (sym q), tt, rw q least))
    done (r, e, inr (under, (before, after, cut, less, least))) =
        (r, e, (b ∷ before, after, ap (◌∷◌ b) cut, (under, less), least))

-- With a healthy backend in the pool and no negative connection count, LeastConnections returns
-- the first in pool order of the healthy backends with the fewest active connections.
pub select_least :
    (h : Heap) (p : Pool)
    → 0 < length (healthy_backends h p)
    → LoadsFit h (healthy_backends h p)
    → (r : Ref) × (select h p ≡ some r) × IsFirstLeast h (healthy_backends h p) r
unfolding select
select_least h p pos fits = pick_least h (healthy_backends h p) pos fits

scan-In :
    (h : Heap) (best : Option Ref) (min : ℕ) (bs : List Ref) (r : Ref)
    → scan h best min bs ≡ some r
    → (best ≡ some r) ⊎ In r bs
unfolding scan
scan-In h best min [] r e = inl e
scan-In h best min (b ∷ bs) r e =
    let load = active_connections (h b) in
    elim (Bool-cases (min == minus_one || slt load min)) [
      | inl t ↦ elim (scan-In h (some b) load bs r (rw t at e)) [
        | inl q ↦ inr (inl (cc))
        | inr q ↦ inr (inr q)
      ]
      | inr t ↦ elim (scan-In h best min bs r (rw t at e)) [ inl q ↦ inl q | inr q ↦ inr (inr q) ]
    ]

pick-In : (h : Heap) (nodes : List Ref) (r : Ref) → pick h nodes ≡ some r → In r nodes
unfolding pick
pick-In h [] r e = cc
pick-In h (b ∷ bs) r e = elim (scan-In h none minus_one (b ∷ bs) r e) [ inl q ↦ cc | inr q ↦ q ]

-- Whatever the loads, a backend that Select returns is healthy and in the pool.
pub select-In : (h : Heap) (p : Pool) (r : Ref) → select h p ≡ some r → In r (healthy_backends h p)
unfolding select
select-In h p r e = pick-In h (healthy_backends h p) r e

scan-some :
    (h : Heap) (b : Ref) (min : ℕ) (bs : List Ref) → (r : Ref) × (scan h (some b) min bs ≡ some r)
unfolding scan
scan-some h b min [] = (b, refl)
scan-some h b min (x ∷ xs) = elim (Bool-cases (min == minus_one || slt (h x).connections min)) [
  | inl e ↦ rw e (scan-some h x (h x).connections xs)
  | inr e ↦ rw e (scan-some h b min xs)
]

pick-some : (h : Heap) (bs : List Ref) → 0 < length bs → (r : Ref) × (pick h bs ≡ some r)
unfolding pick scan
pick-some h [] none_left = elim none_left [ ]
pick-some h (b ∷ bs) pos = scan-some h b (h b).connections bs

-- With a healthy backend in the pool some backend is returned, whatever the counts.
pub select-some :
    (h : Heap) (p : Pool) → 0 < length (healthy_backends h p) → (r : Ref) × (select h p ≡ some r)
unfolding select
select-some h p pos = pick-some h (healthy_backends h p) pos
