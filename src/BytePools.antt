-- ===== src/BytePools.antt =====
-- internal/pool/byte_pool.go. A slice is its length and its capacity; its bytes are not looked at.
-- sync.Pool may hand out any slice that was put, or drop it: a Get is given which of those kept it
-- takes, and makes a new one where there is none such.
use load_balancer.Base.{
  ℕ, zero, suc, ◌*◌, ◌≡◌, refl, sym, inl, inr, Option, none, some, List, [], ◌∷◌, ◌==◌,
  if◌then◌else◌, ==_iff, Bool-cases, Option-cases, get_elem?, All,
}

pub record Slice : Type 0 where
  pub len : ℕ
  pub cap : ℕ

pub record BytePool : Type 0 where
  pub size : ℕ
  pub max_size : ℕ
  pub kept : List Slice

unfoldable pub new_byte_pool : ℕ → ℕ → BytePool
new_byte_pool size max_size = record { size = size; max_size = max_size; kept = [] }

abbrev pub or_make : ℕ → Option Slice → Slice
or_make size none = record { len = size; cap = size }
or_make size (some b) = b

-- Get; what the pool hands out, it may also forget.
unfoldable pub get : ℕ → BytePool → Slice
get i bp = or_make bp.size (get_elem? bp.kept i)

unfoldable pub put : Slice → BytePool → BytePool
put b bp = record bp { kept = if b.cap == bp.size then b ∷ bp.kept else bp.kept }

-- map[int]*BytePool, the newest entry first.
abbrev pub ResizePool : Type 0
ResizePool = List (ℕ × BytePool)

abbrev pub find : ℕ → ResizePool → Option BytePool
find size [] = none
find size ((s, bp) ∷ rp) = let rest = find size rp in if s == size then some bp else rest

abbrev pub replace : ℕ → BytePool → ResizePool → ResizePool
replace size new [] = []
replace size new ((s, bp) ∷ rp) =
    let rest = replace size new rp in if s == size then (s, new) ∷ rp else (s, bp) ∷ rest

abbrev pub get_in : ℕ → ℕ → ResizePool → Option BytePool → ResizePool × Slice
get_in i size rp (some bp) = (rp, get i bp)
get_in i size rp none = let bp = new_byte_pool size (size * 2) in ((size, bp) ∷ rp, get i bp)

-- ResizePool.Get.
unfoldable pub get_bytes : ℕ → ℕ → ResizePool → ResizePool × Slice
unfolding get new_byte_pool
get_bytes i size rp = get_in i size rp (find size rp)

abbrev put_in : Slice → ResizePool → Option BytePool → ResizePool
put_in b rp none = rp
put_in b rp (some bp) = replace b.cap (put b bp) rp

-- ResizePool.Put.
unfoldable pub put_bytes : Slice → ResizePool → ResizePool
unfolding put
put_bytes b rp = put_in b rp (find b.cap rp)

-- A use of the pool by some goroutine.
pub data Use : Type 0 where
  gets : ℕ → ℕ → Use
  puts : Slice → Use

unfoldable pub use_pool : List Use → ResizePool → ResizePool
unfolding get_bytes put_bytes
use_pool [] rp = rp
use_pool (gets i size ∷ us) rp = use_pool us (get_bytes i size rp).0
use_pool (puts b ∷ us) rp = use_pool us (put_bytes b rp)

-- Each pool stands under its size and keeps slices of that capacity.
abbrev IsFiled : ResizePool → Type 0
IsFiled rp = All (λ (e : ℕ × BytePool). (e.1.size ≡ e.0) × All (λ b. b.cap ≡ e.0) e.1.kept) rp

find-IsFiled :
    (size : ℕ) (rp : ResizePool) (bp : BytePool)
    → IsFiled rp
    → find size rp ≡ some bp
    → (bp.size ≡ size) × All (λ b. b.cap ≡ size) bp.kept
find-IsFiled size [] bp ok e = cc
find-IsFiled size ((s, x) ∷ rp) bp ok e = elim (Bool-cases (s == size)) [
  | inl t ↦
      let here = rw t at e in
      let same : x ≡ bp = cc in
      let at_size : s ≡ size = (==_iff s size).0 t in rw (sym same, sym at_size) ok.0
  | inr t ↦ find-IsFiled size rp bp ok.1 (rw t at e)
]

replace-IsFiled :
    (size : ℕ) (new : BytePool) (rp : ResizePool)
    → IsFiled rp
    → (new.size ≡ size) × All (λ b. b.cap ≡ size) new.kept
    → IsFiled (replace size new rp)
replace-IsFiled size new [] ok fits = tt
replace-IsFiled size new ((s, x) ∷ rp) ok fits = elim (Bool-cases (s == size)) [
  | inl t ↦ rw t (rw ((==_iff s size).0 t) (fits, ok.1))
  | inr t ↦ rw t (ok.0, replace-IsFiled size new rp ok.1 fits)
]

or_make-cap :
    (size : ℕ) (kept : List Slice) (i : ℕ)
    → All (λ b. b.cap ≡ size) kept
    → (or_make size (get_elem? kept i)).cap ≡ size
or_make-cap size [] i ok = refl
or_make-cap size (b ∷ kept) zero ok = ok.0
or_make-cap size (b ∷ kept) (suc i) ok = or_make-cap size kept i ok.1

get-cap :
    (i : ℕ) (bp : BytePool) (size : ℕ)
    → (bp.size ≡ size) × All (λ b. b.cap ≡ size) bp.kept
    → (get i bp).cap ≡ size
unfolding get
get-cap i bp size ok = rw (ok.0) (or_make-cap size bp.kept i ok.1)

put-fits :
    (b : Slice) (bp : BytePool) (size : ℕ)
    → b.cap ≡ size
    → (bp.size ≡ size) × All (λ x. x.cap ≡ size) bp.kept
    → ((put b bp).size ≡ size) × All (λ x. x.cap ≡ size) (put b bp).kept
unfolding put
put-fits b bp size c fits = (
  fits.0,
  elim (Bool-cases (b.cap == bp.size)) [ inl t ↦ rw t (c, fits.1) | inr t ↦ rw t fits.1 ],
)

get_bytes-IsFiled :
    (i size : ℕ) (rp : ResizePool)
    → IsFiled rp
    → IsFiled (get_bytes i size rp).0 × ((get_bytes i size rp).1.cap ≡ size)
unfolding get_bytes new_byte_pool
get_bytes-IsFiled i size rp ok = elim (Option-cases (find size rp)) [
  | inl fresh ↦
      rw fresh (((refl, tt), ok), get-cap i (new_byte_pool size (size * 2)) size (refl, tt))
  | inr (bp, found) ↦ rw found (ok, get-cap i bp size (find-IsFiled size rp bp ok found))
]

put_bytes-IsFiled : (b : Slice) (rp : ResizePool) → IsFiled rp → IsFiled (put_bytes b rp)
unfolding put_bytes
put_bytes-IsFiled b rp ok = elim (Option-cases (find b.cap rp)) [
  | inl fresh ↦ rw fresh ok
  | inr (bp, found) ↦ rw found (
      replace-IsFiled b.cap (put b bp) rp ok
        (put-fits b bp b.cap refl (find-IsFiled b.cap rp bp ok found)))
]

use_pool-IsFiled : (us : List Use) (rp : ResizePool) → IsFiled rp → IsFiled (use_pool us rp)
unfolding use_pool
use_pool-IsFiled [] rp ok = ok
use_pool-IsFiled (gets i size ∷ us) rp ok =
    use_pool-IsFiled us (get_bytes i size rp).0 (get_bytes-IsFiled i size rp ok).0
use_pool-IsFiled (puts b ∷ us) rp ok =
    use_pool-IsFiled us (put_bytes b rp) (put_bytes-IsFiled b rp ok)

-- Whatever slices were got and put before, of whatever capacities, a slice that the pool hands out
-- has exactly the capacity asked for.
pub get_bytes-cap : (us : List Use) (i size : ℕ) → (get_bytes i size (use_pool us [])).1.cap ≡ size
get_bytes-cap us i size = (get_bytes-IsFiled i size (use_pool us []) (use_pool-IsFiled us [] tt)).1
