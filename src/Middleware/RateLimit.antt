-- ===== src/Middleware/RateLimit.antt =====
-- internal/middleware/ratelimit.go. A rate.Limiter belongs to its library: its state `L`, a fresh
-- one, and Allow at a time are parameters. A limiter is reached through the map alone, so the map
-- holds its state; the locks of the map and of the limiter make a request one step.
use load_balancer.Base.{
  ℕ, ◌≡◌, refl, ap, ◌∙◌, inl, inr, Bool, String, List, [], ◌∷◌, arith, str_eq, str_eq_iff,
  if◌then◌else◌, Bool-cases,
}
use mathlib.Core.Option
use load_balancer.Base.Dict.{lookup, insert, lookup-insert}

module _ {L : Type 0} (new_limiter : L) (allow : ℕ → L → L × Bool) where
  -- getLimiter, where a missing limiter is made.
  unfoldable pub get_limiter : String → List (String × L) → L
  get_limiter ip m = Option.get_or (lookup ip m) new_limiter

  -- The test of Middleware and FastRateLimit, for a client's address: whether the request passes.
  unfoldable pub limit : String → ℕ → List (String × L) → List (String × L) × Bool
  unfolding get_limiter
  limit ip now m = let (l, ok) = allow now (get_limiter ip m) in (insert ip l m, ok)

  -- The answers to one client among a sequence of requests of many, each with its time.
  unfoldable pub answers : String → List (String × ℕ) → List (String × L) → List Bool
  unfolding limit
  answers ip [] m = []
  answers ip ((client, now) ∷ rs) m =
      let (m', ok) = limit client now m in
      let rest = answers ip rs m' in if str_eq client ip then ok ∷ rest else rest

  -- The answers of a limiter of one's own.
  unfoldable pub own_answers : String → List (String × ℕ) → L → List Bool
  own_answers ip [] l = []
  own_answers ip ((client, now) ∷ rs) l =
      let (l', ok) = allow now l in
      let used = own_answers ip rs l' in
      let unused = own_answers ip rs l in if str_eq client ip then ok ∷ used else unused

  get_limiter-limit :
      (ip client : String) (now : ℕ) (m : List (String × L))
      → get_limiter ip (limit client now m).0
        ≡ (if str_eq client ip then (allow now (get_limiter client m)).0 else get_limiter ip m)
  unfolding get_limiter limit
  get_limiter-limit ip client now m =
      ground (arith, lookup-insert client ip (allow now (get_limiter client m)).0 m)

  answers_from :
      (ip : String) (rs : List (String × ℕ)) (m : List (String × L)) (l : L)
      → get_limiter ip m ≡ l
      → answers ip rs m ≡ own_answers ip rs l
  unfolding answers own_answers limit
  answers_from ip [] m l e = refl
  answers_from ip ((client, now) ∷ rs) m l e =
      let step = get_limiter-limit ip client now m in
      elim (Bool-cases (str_eq client ip)) [
        | inl same ↦
            let mine : get_limiter client m ≡ l =
              ap (λ x. get_limiter x m) ((str_eq_iff client ip).0 same) ∙ e in
            let next : get_limiter ip (limit client now m).0 ≡ (allow now l).0 =
              step ∙ rw same (ap (λ x. (allow now x).0) mine) in
            let rest = answers_from ip rs (limit client now m).0 (allow now l).0 next in
            let head = ap (λ x. (allow now x).1 ∷ answers ip rs (limit client now m).0) mine in
            rw same (head ∙ ap (λ t. (allow now l).1 ∷ t) rest)
        | inr other ↦
            let next : get_limiter ip (limit client now m).0 ≡ l = step ∙ rw other e in
            rw other (answers_from ip rs (limit client now m).0 l next)
      ]

  -- From no limiters on, whatever requests of other clients come between, at whatever times, a
  -- client is answered as by a limiter of its own.
  pub isolated :
      (ip : String) (rs : List (String × ℕ)) → answers ip rs [] ≡ own_answers ip rs new_limiter
  isolated ip rs = answers_from ip rs [] new_limiter (unfold get_limiter lookup in refl)
