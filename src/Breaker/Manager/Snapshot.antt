-- ===== src/Breaker/Manager/Snapshot.antt =====
-- internal/circuitbreaker/manager.go, GetAllBreakers: a new map with the entries of the manager's.
-- Range visits them in no certain order; here it starts with the last.
use load_balancer.Base.{ℕ, ◌≡◌, refl, ap, ◌∙◌, some, String, List, [], ◌∷◌, str_eq, if◌then◌else◌}
use load_balancer.Base.Dict.{lookup, insert, lookup-insert}
use load_balancer.Breaker.Manager.{Breakers, get_breaker, get_breaker-lookup}

unfoldable pub copied : List (String × ℕ) → List (String × ℕ)
copied [] = []
copied ((name, a) ∷ rest) = insert name a (copied rest)

unfoldable pub get_all_breakers : Breakers → List (String × ℕ)
unfolding copied
get_all_breakers b = copied b.manager.breakers

lookup-copied : (name : String) (m : List (String × ℕ)) → lookup name (copied m) ≡ lookup name m
unfolding copied lookup
lookup-copied name [] = refl
lookup-copied name ((first, a) ∷ rest) =
    lookup-insert first name a (copied rest)
    ∙ ap (λ later. if str_eq first name then some a else later) (lookup-copied name rest)

-- The map shows under each name the breaker that the manager has there, a pointer to the same one,
-- and after GetBreaker for a name the one that it returned.
pub get_all_breakers-lookup :
    (name : String) (b : Breakers)
    → (lookup name (get_all_breakers b) ≡ lookup name b.manager.breakers)
      × (lookup name (get_all_breakers (get_breaker name b).0) ≡ some (get_breaker name b).1)
unfolding get_all_breakers
get_all_breakers-lookup name b = (
  lookup-copied name b.manager.breakers,
  lookup-copied name (get_breaker name b).0.manager.breakers ∙ get_breaker-lookup name b,
)
