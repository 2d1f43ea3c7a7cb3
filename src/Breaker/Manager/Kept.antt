-- ===== src/Breaker/Manager/Kept.antt =====
-- GetBreaker, and a method of a breaker that keeps its name, keep the breakers well-formed.
use load_balancer.Base.{ℕ, ◌≡◌, inl, inr, String, arith, Option-cases}
use load_balancer.Base.Dict.{lookup}
use load_balancer.Breaker.{Breaker}
use load_balancer.Breaker.Manager.{
  Breakers, IsValid, write, create-IsValid, get_breaker, get_breaker_found, get_breaker_missing,
}

pub get_breaker-IsValid :
    (name : String) (b : Breakers) → IsValid b → IsValid (get_breaker name b).0
get_breaker-IsValid name b v = elim (Option-cases (lookup name b.manager.breakers)) [
  | inr (r, e) ↦ rw (get_breaker_found name r b e) v
  | inl e ↦ rw (get_breaker_missing name b e) (create-IsValid name b v)
]

pub write-IsValid :
    (a : ℕ) (cb : Breaker) (b : Breakers)
    → cb.name ≡ (b.arena.cell a).name
    → IsValid b
    → IsValid (record b { arena = write a cb b.arena })
unfolding write
write-IsValid a cb b same v = record {
  allocated = λ n r e. v.allocated n r e;
  named = λ n r e. ground (arith, same, v.named n r e);
}
