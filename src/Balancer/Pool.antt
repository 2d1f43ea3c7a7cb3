-- ===== src/Balancer/Pool.antt =====
-- internal/balancer/pool.go. The pool holds pointers; `Backends` returns a copy of the slice, which
-- is the list itself. The locks make each method one step.
use load_balancer.Base.{
  ◌≡◌, ◌↔◌, true, ◌||◌, Option, none, some, String, List, [], ◌∷◌, ◌++◌, keep, In, In-keep, keep-In,
  if◌then◌else◌, str_eq,
}
use load_balancer.Balancer.Backend.{Heap, Ref, is_alive}

pub record Pool : Type 0 where
  pub backends : List Ref

unfoldable pub new_pool : Pool
new_pool = record { backends = [] }

unfoldable pub add_backend : Ref → Pool → Pool
add_backend r p = record { backends = p.backends ++ r ∷ [] }

unfoldable pub set_backends : List Ref → Pool → Pool
set_backends rs p = record { backends = rs }

unfoldable pub all_backends : Pool → List Ref
all_backends p = p.backends

unfoldable pub healthy_backends : Heap → Pool → List Ref
unfolding is_alive
healthy_backends h p = keep (λ r. is_alive (h r)) p.backends

find_host : Heap → String → List Ref → Option Ref
find_host h host [] = none
find_host h host (r ∷ rs) =
    let rest = find_host h host rs in
    if str_eq (h r).url.host host || str_eq (h r).url.text host then some r else rest

unfoldable pub get_backend_by_host : Heap → Pool → String → Option Ref
unfolding find_host
get_backend_by_host h p host = find_host h host p.backends

-- A backend is offered exactly when it stands in the pool and is alive.
pub healthy_backends_iff :
    (h : Heap) (p : Pool) (r : Ref)
    → In r (healthy_backends h p) ↔ (In r (all_backends p) × (is_alive (h r) ≡ true))
unfolding healthy_backends all_backends
healthy_backends_iff h p r = (
  In-keep (λ s. is_alive (h s)) r p.backends,
  λ q. keep-In (λ s. is_alive (h s)) r p.backends q.0 q.1,
)
