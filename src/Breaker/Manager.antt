-- ===== src/Breaker/Manager.antt =====
-- internal/circuitbreaker/manager.go. The manager maps names to pointers; the breakers live in an
-- arena, which every holder of a pointer sees. GetBreaker is two sections under two locks, so that
-- other goroutines may run between them; each section is a step.
pub mod Snapshot
pub mod Kept
use load_balancer.Base.{
  ℕ, ◌+◌, ◌<◌, ◌≡◌, ap, ◌≢◌, inl, inr, Option, none, some, String, List, [], ◌∷◌, arith, str_eq,
  str_eq_iff, ◌==◌, ==_iff, refl, if◌then◌else◌, Bool-cases, Option-cases,
}
use load_balancer.Base.Dict.{lookup, insert, delete, lookup-insert, lookup-delete}
use load_balancer.Breaker.Types.{Config}
use load_balancer.Breaker.{Breaker, new_breaker}

pub record Manager : Type 0 where
  pub breakers : List (String × ℕ)
  pub config : Config

-- The breakers allocated so far, at the addresses below `next`.
pub record Arena : Type 0 where
  pub cell : ℕ → Breaker
  pub next : ℕ

-- One with the other: what GetBreaker reads and writes.
pub record Breakers : Type 0 where
  pub manager : Manager
  pub arena : Arena

unfoldable pub new_manager : Config → Manager
new_manager config = record { breakers = []; config = config }

unfoldable pub write : ℕ → Breaker → Arena → Arena
write r cb a = record a { cell = λ s. if s == r then cb else a.cell s }

-- The section under the read lock.
unfoldable pub peek : String → Breakers → Option ℕ
peek name b = lookup name b.manager.breakers

-- The section under the write lock: the double check, then the new breaker.
create : String → Breakers → Breakers × ℕ
create name b =
    let r = b.arena.next in
    (
      record {
        manager = record (b.manager) { breakers = insert name r b.manager.breakers };
        arena = record (write r (new_breaker name b.manager.config) b.arena) { next = r + 1 };
      },
      r,
    )

unfoldable pub get_or_create : String → Breakers → Breakers × ℕ
unfolding create write
get_or_create name b = elim (lookup name b.manager.breakers) [
  | some s ↦ (b, s)
  | none ↦ create name b
]

-- GetBreaker with nothing between its two sections.
unfoldable pub get_breaker : String → Breakers → Breakers × ℕ
unfolding peek get_or_create
get_breaker name b = elim (peek name b) [ some r ↦ (b, r) | none ↦ get_or_create name b ]

unfoldable pub remove_breaker : String → Breakers → Breakers
remove_breaker name b = record b {
  manager = record (b.manager) { breakers = delete name b.manager.breakers };
}

-- The breakers in the map are allocated, each under its own name, and no two names share one.
pub record IsValid (b : Breakers) : Type 0 where
  pub allocated : (n : String) (r : ℕ) → lookup n b.manager.breakers ≡ some r → r < b.arena.next
  pub named :
      (n : String) (r : ℕ) → lookup n b.manager.breakers ≡ some r → (b.arena.cell r).name ≡ n

found :
    (name : String) (r : ℕ) (b : Breakers)
    → lookup name b.manager.breakers ≡ some r
    → get_or_create name b ≡ (b, r)
unfolding get_or_create
found name r b e = rw (e, get_or_create)

missing :
    (name : String) (b : Breakers)
    → lookup name b.manager.breakers ≡ none
    → get_or_create name b ≡ create name b
unfolding get_or_create
missing name b e = rw (e, get_or_create)

create-IsValid : (name : String) (b : Breakers) → IsValid b → IsValid (create name b).0
unfolding create
create-IsValid name b v = record {
  allocated = λ n r h. elim (Bool-cases (str_eq name n)) [
    | inl e ↦ ground (arith, lookup-insert name n b.arena.next b.manager.breakers, e, h)
    | inr e ↦
        let old : lookup n b.manager.breakers ≡ some r =
          ground (arith, lookup-insert name n b.arena.next b.manager.breakers, e, h) in
        omega (arith, v.allocated n r old)
  ];
  named = λ n r h. elim (Bool-cases (str_eq name n)) [
    | inl e ↦
        let new : r ≡ b.arena.next =
          ground (arith, lookup-insert name n b.arena.next b.manager.breakers, e, h) in
        unfold write new_breaker in ground (arith, new, (str_eq_iff name n).0 e)
    | inr e ↦
        let old : lookup n b.manager.breakers ≡ some r =
          ground (arith, lookup-insert name n b.arena.next b.manager.breakers, e, h) in
        let lt = v.allocated n r old in unfold write in ground (arith, v.named n r old, lt)
  ];
}

-- The creating section of GetBreaker keeps every breaker in the map allocated and under its own
-- name.
pub get_or_create-IsValid :
    (name : String) (b : Breakers) → IsValid b → IsValid (get_or_create name b).0
get_or_create-IsValid name b v = elim (Option-cases (lookup name b.manager.breakers)) [
  | inr (r, e) ↦ rw (found name r b e) v
  | inl e ↦ rw (missing name b e) (create-IsValid name b v)
]

get_or_create_stable :
    (name other : String) (r : ℕ) (b : Breakers)
    → lookup name b.manager.breakers ≡ some r
    → lookup name (get_or_create other b).0.manager.breakers ≡ some r
get_or_create_stable name other r b e = elim (Option-cases (lookup other b.manager.breakers)) [
  | inr (s, f) ↦ rw (found other s b f) e
  | inl f ↦ rw (missing other b f) (
      unfold create in
      ground
        (arith, lookup-insert other name b.arena.next b.manager.breakers, str_eq_iff other name))
]

-- The creating sections of other goroutines.
unfoldable pub create_all : List String → Breakers → Breakers
create_all [] b = b
create_all (n ∷ ns) b = create_all ns (get_or_create n b).0

create_all_stable :
    (name : String) (others : List String) (r : ℕ) (b : Breakers)
    → lookup name b.manager.breakers ≡ some r
    → lookup name (create_all others b).manager.breakers ≡ some r
unfolding create_all
create_all_stable name [] r b e = e
create_all_stable name (n ∷ ns) r b e =
    create_all_stable name ns r (get_or_create n b).0 (get_or_create_stable name n r b e)

entered :
    (name : String) (b : Breakers)
    → lookup name (get_or_create name b).0.manager.breakers ≡ some (get_or_create name b).1
entered name b = elim (Option-cases (lookup name b.manager.breakers)) [
  | inr (r, e) ↦ rw (found name r b e) e
  | inl e ↦ rw (missing name b e) (
      unfold create in
      ground (arith, lookup-insert name name b.arena.next b.manager.breakers, str_eq_iff name name))
]

-- Two goroutines whose sections under the write lock ask for one name get one breaker, whatever
-- breakers are created before and between.
pub one_breaker :
    (name : String) (between later : List String) (b : Breakers)
    → let first = get_or_create name (create_all between b) in
      (get_or_create name (create_all later first.0)).1 ≡ first.1
one_breaker name between later b =
    let first = get_or_create name (create_all between b) in
    let kept = create_all_stable name later first.1 first.0 (entered name (create_all between b)) in
    ap (λ (x : Breakers × ℕ). x.1) (found name first.1 (create_all later first.0) kept)

-- After RemoveBreaker, GetBreaker returns another pointer than the one removed.
pub removed_is_fresh :
    (name : String) (b : Breakers)
    → IsValid b
    → (s : ℕ) → lookup name b.manager.breakers ≡ some s
    → (get_breaker name (remove_breaker name b)).1 ≢ s
unfolding get_breaker remove_breaker create
removed_is_fresh name b v s e same =
    let lt = v.allocated name s e in
    let gone : lookup name (delete name b.manager.breakers) ≡ none =
      ground (arith, lookup-delete name name b.manager.breakers, str_eq_iff name name) in
    ground (arith, gone, lt, same)

-- GetBreaker on a name that has a breaker.
pub get_breaker_found :
    (name : String) (r : ℕ) (b : Breakers)
    → lookup name b.manager.breakers ≡ some r
    → get_breaker name b ≡ (b, r)
unfolding get_breaker peek
get_breaker_found name r b e = rw (e, get_breaker)

-- GetBreaker on a name that has none.
get_breaker_missing :
    (name : String) (b : Breakers)
    → lookup name b.manager.breakers ≡ none
    → get_breaker name b ≡ create name b
unfolding get_breaker peek
get_breaker_missing name b e = rw (e, get_breaker) (missing name b e)

pub get_breaker_fresh :
    (name : String) (b : Breakers)
    → lookup name b.manager.breakers ≡ none
    → (get_breaker name b).0.arena.cell (get_breaker name b).1 ≡ new_breaker name b.manager.config
get_breaker_fresh name b e = rw (get_breaker_missing name b e) (unfold create write in ground arith)

pub get_breaker-lookup :
    (name : String) (b : Breakers)
    → lookup name (get_breaker name b).0.manager.breakers ≡ some (get_breaker name b).1
get_breaker-lookup name b = elim (Option-cases (lookup name b.manager.breakers)) [
  | inr (r, e) ↦ rw (get_breaker_found name r b e) e
  | inl e ↦ rw (get_breaker_missing name b e) (rw (missing name b e) at (entered name b))
]

-- Writing back what a cell holds changes nothing.
pub write_back : (r : ℕ) (a : Arena) → write r (a.cell r) a ≡ a
unfolding write
write_back r a =
    let same : (s : ℕ) → (if s == r then a.cell r else a.cell s) ≡ a.cell s =
      λ s. elim (Bool-cases (s == r)) [ inl e ↦ rw (e, (==_iff s r).0 e) refl | inr e ↦ rw e ] in
    λ i. record a { cell = λ s. same s i }
