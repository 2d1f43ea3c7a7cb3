-- ===== src/Base/Cycle.antt =====
-- Reading a list round and round by a growing index: the shape of both round robins.
use Prim.Native.Nat.{ℕ, zero, suc, ◌+◌, ◌-◌, ◌*◌, ◌/◌, ◌%◌, ◌≤◌, ◌<◌}
use mathlib.Core.Path.{◌≡◌, refl, sym, ap, ap₂, ◌∙◌}
use mathlib.Core.List.{List, [], ◌∷◌, ◌++◌, map, map-append}
use mathlib.Core.Option.{Option, none, some}
use native.Mathlib.Omega.{arith}
use native.Mathlib.Nat.{mod-lt, div-add-mod'}
use load_balancer.Base.Lists.{length, get_elem?, take, drop, count}
use mathlib.Core.Bool.{Bool, false}

mod_of : (q n r c : ℕ) → r < n → c ≡ q * n + r → c % n ≡ r
mod_of q n r c h e = grind arith

module _ {A : Type 0} where
  -- The elements at the indices c, c + 1, ..., c + k - 1, each modulo the length.
  abbrev pub cycle : List A → ℕ → ℕ → List (Option A)
  cycle xs c zero = []
  cycle xs c (suc k) = get_elem? xs (c % length xs) ∷ cycle xs (suc c) k

  -- The list, begun at place r and carried on from its front.
  abbrev pub rotate : ℕ → List A → List A
  rotate r xs = drop r xs ++ take r xs

  cycle-append : (xs : List A) (c j k : ℕ) → cycle xs c (j + k) ≡ cycle xs c j ++ cycle xs (c + j) k
  cycle-append xs c zero k = ap₂ (cycle xs) (omega arith) (omega arith)
  cycle-append xs c (suc j) k =
      let here : suc j + k ≡ suc (j + k) = omega arith in
      let later : suc c + j ≡ c + suc j = omega arith in
      ap (cycle xs c) here
      ∙ ap (◌∷◌ (get_elem? xs (c % length xs)))
          (cycle-append xs (suc c) j k ∙ ap (λ t. cycle xs (suc c) j ++ cycle xs t k) later)

  drop_cons :
      (xs : List A) (r : ℕ)
      → r < length xs
      → (x : A) × (get_elem? xs r ≡ some x) × (drop r xs ≡ x ∷ drop (suc r) xs)
  drop_cons [] r h = elim h [ ]
  drop_cons (x ∷ xs) zero h = (x, refl, refl)
  drop_cons (x ∷ xs) (suc r) h = drop_cons xs r (omega arith)

  take_all : (xs : List A) (n : ℕ) → length xs ≤ n → take n xs ≡ xs
  take_all [] zero h = refl
  take_all [] (suc n) h = refl
  take_all (x ∷ xs) zero h = absurd (omega arith)
  take_all (x ∷ xs) (suc n) h = ap (◌∷◌ x) (take_all xs n (omega arith))

  length-drop : (n : ℕ) (xs : List A) → length (drop n xs) ≡ length xs - n
  length-drop zero xs = omega arith
  length-drop (suc n) [] = omega arith
  length-drop (suc n) (x ∷ xs) = omega (arith, length-drop n xs)

  cycle_run :
      (xs : List A) (k q r c : ℕ)
      → c ≡ q * length xs + r
      → r + k ≤ length xs
      → cycle xs c k ≡ map some (take k (drop r xs))
  cycle_run xs zero q r c e h = refl
  cycle_run xs (suc k) q r c e h =
      let (x, at, cut) = drop_cons xs r (omega arith) in
      rw (mod_of q (length xs) r c (omega arith) e, at, cut)
        (ap (◌∷◌ (some x)) (cycle_run xs k q (suc r) (suc c) (omega arith) (omega arith)))

  -- A full round visits every place once, from the place where it starts.
  pub cycle_round :
      (xs : List A) (c : ℕ)
      → 0 < length xs
      → cycle xs c (length xs) ≡ map some (rotate (c % length xs) xs)
  cycle_round xs c h =
      let n = length xs in
      let r = c % n in
      let below : r < n = mod-lt c h in
      let split : n ≡ (n - r) + r = omega arith in
      let at : c ≡ c / n * n + r = sym (div-add-mod' c n) in
      let first = cycle_run xs (n - r) (c / n) r c at (omega arith) in
      let again = cycle_run xs r (suc (c / n)) 0 (c + (n - r)) (grind (arith, at)) (omega arith) in
      let whole = take_all (drop r xs) (n - r) (omega (arith, length-drop r xs)) in
      ap (cycle xs c) split
      ∙ cycle-append xs c (n - r) r
      ∙ ap₂ ◌++◌ first again
      ∙ sym (map-append some (take (n - r) (drop r xs)) (take r xs))
      ∙ ap (λ l. map some (l ++ take r xs)) whole

  pub count-append : (p : A → Bool) (xs ys : List A) → count p (xs ++ ys) ≡ count p xs + count p ys
  count-append p [] ys = omega arith
  count-append p (x ∷ xs) ys = ground (arith, count-append p xs ys)

  take-append-drop : (n : ℕ) (xs : List A) → take n xs ++ drop n xs ≡ xs
  take-append-drop zero xs = refl
  take-append-drop (suc n) [] = refl
  take-append-drop (suc n) (x ∷ xs) = rw (take-append-drop n xs)

  -- A rotation neither loses nor repeats an element.
  pub count-rotate : (p : A → Bool) (r : ℕ) (xs : List A) → count p (rotate r xs) ≡ count p xs
  count-rotate p r xs = omega (
    arith,
    count-append p (drop r xs) (take r xs),
    count-append p (take r xs) (drop r xs),
    ap (count p) (take-append-drop r xs),
  )

  abbrev pub is_some_and : (A → Bool) → Option A → Bool
  is_some_and p none = false
  is_some_and p (some a) = p a

  pub count-map-some :
      (p : A → Bool) (xs : List A) → count (is_some_and p) (map some xs) ≡ count p xs
  count-map-some p [] = refl
  count-map-some p (x ∷ xs) = ground (arith, count-map-some p xs)
