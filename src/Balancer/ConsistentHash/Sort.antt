-- ===== src/Balancer/ConsistentHash/Sort.antt =====
-- `sort.Slice` by `<` on uint32 values: equal values cannot be told apart, so whichever sort the
-- standard library uses has the one sorted arrangement as its result; here, by insertion.
use load_balancer.Base.{
  ℕ, suc, ◌≤◌, ◌≡◌, refl, ap, ◌∙◌, inl, inr, List, [], ◌∷◌, arith, ltb, if◌then◌else◌, ltb→lt,
  ltb→ge, Bool-cases, length, In, All,
}
use load_balancer.Balancer.ConsistentHash.Search.{IsSorted}

insert_sorted : ℕ → List ℕ → List ℕ
insert_sorted x [] = x ∷ []
insert_sorted x (y ∷ ys) = let rest = insert_sorted x ys in if ltb y x then y ∷ rest else x ∷ y ∷ ys

unfoldable pub sort : List ℕ → List ℕ
unfolding insert_sorted
sort [] = []
sort (x ∷ xs) = insert_sorted x (sort xs)

All-insert_sorted :
    (b x : ℕ) (ys : List ℕ) → b ≤ x → All (λ y. b ≤ y) ys → All (λ y. b ≤ y) (insert_sorted x ys)
unfolding insert_sorted
All-insert_sorted b x [] le h = (le, tt)
All-insert_sorted b x (y ∷ ys) le h = elim (Bool-cases (ltb y x)) [
  | inl e ↦ rw e (h.0, All-insert_sorted b x ys le h.1)
  | inr e ↦ rw e (le, h)
]

All-weaken : (a b : ℕ) (ys : List ℕ) → a ≤ b → All (λ y. b ≤ y) ys → All (λ y. a ≤ y) ys
All-weaken a b [] le h = tt
All-weaken a b (y ∷ ys) le h = (omega arith, All-weaken a b ys le h.1)

insert_sorted-IsSorted : (x : ℕ) (ys : List ℕ) → IsSorted ys → IsSorted (insert_sorted x ys)
unfolding insert_sorted
insert_sorted-IsSorted x [] s = (tt, tt)
insert_sorted-IsSorted x (y ∷ ys) s = elim (Bool-cases (ltb y x)) [
  | inl e ↦
      let lt = ltb→lt y x e in
      rw e (All-insert_sorted y x ys (omega arith) s.0, insert_sorted-IsSorted x ys s.1)
  | inr e ↦ let le = ltb→ge y x e in rw e ((le, All-weaken x y ys le s.0), s)
]

pub sort-IsSorted : (xs : List ℕ) → IsSorted (sort xs)
unfolding sort
sort-IsSorted [] = tt
sort-IsSorted (x ∷ xs) = insert_sorted-IsSorted x (sort xs) (sort-IsSorted xs)

In-insert_sorted : (a x : ℕ) (ys : List ℕ) → In a (insert_sorted x ys) → In a (x ∷ ys)
unfolding insert_sorted
In-insert_sorted a x [] h = h
In-insert_sorted a x (y ∷ ys) h = elim (Bool-cases (ltb y x)) [
  | inr e ↦ rw e at h
  | inl e ↦ elim (rw e at h) [
    | inl q ↦ inr (inl q)
    | inr r ↦ elim (In-insert_sorted a x ys r) [ inl q ↦ inl q | inr t ↦ inr (inr t) ]
  ]
]

-- Sorting makes no point up.
pub In-sort : (a : ℕ) (xs : List ℕ) → In a (sort xs) → In a xs
unfolding sort
In-sort a [] h = h
In-sort a (x ∷ xs) h = elim (In-insert_sorted a x (sort xs) h) [
  | inl q ↦ inl q
  | inr r ↦ inr (In-sort a xs r)
]

length-insert_sorted : (x : ℕ) (ys : List ℕ) → length (insert_sorted x ys) ≡ suc (length ys)
unfolding insert_sorted
length-insert_sorted x [] = refl
length-insert_sorted x (y ∷ ys) = ground (arith, length-insert_sorted x ys)

-- Nor does it lose one.
pub length-sort : (xs : List ℕ) → length (sort xs) ≡ length xs
unfolding sort
length-sort [] = refl
length-sort (x ∷ xs) = length-insert_sorted x (sort xs) ∙ ap suc (length-sort xs)
