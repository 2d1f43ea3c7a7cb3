-- ===== src/Server/Session/Lasting.antt =====
-- What a whole life of the proxy leaves as it is.
use load_balancer.Base.{
  ℕ, ◌<◌, ◌≡◌, refl, ap, ◌∙◌, inl, inr, false, Option, none, some, String, List, [], ◌∷◌, arith,
  str_eq, Bool-cases, u64_mod,
}
use load_balancer.Balancer.Backend.{Ref, set_alive, record_failure, record_success}
use load_balancer.Balancer.Pool.{all_backends, get_backend_by_host}
use load_balancer.Balancer.Strategy.{Strategy}
use load_balancer.Health.{Outcome, mark, check_alive, probe, check_all}
use load_balancer.Server.{World, host_of}
use load_balancer.Server.Admin.{
  ask_state, on_breaker, toggle, chaos_trip, chaos_reset, chaos_backend, show_states, api_backends,
}
use load_balancer.Server.Probed.{probed}
use load_balancer.Server.Session.{
  Event, request, round, trip, reset, switch, show, fast_request, fast_trip, fast_reset, fast_show,
  sets_health, any_sets_health, happen, live,
}
use load_balancer.Server.Session.Kept.{
  IsKept, IsKept-trans, same-IsUntouched, IsSame, Fits, still-Fits,
}
use load_balancer.Server.FastAdmin.{fast_chaos_trip, fast_chaos_reset, fast_api_backends}
use load_balancer.Server.Session.FastServed.{
  handler-IsUntouched, fast_chaos_trip-IsSame, fast_chaos_reset-IsSame,
}
use load_balancer.Server.Session.Served.{serve_http-IsUntouched}

quiet_cons :
    (e : Event) (es : List Event)
    → any_sets_health (e ∷ es) ≡ false
    → (sets_health e ≡ false) × (any_sets_health es ≡ false)
quiet_cons e es q = elim (Bool-cases (sets_health e)) [
  | inl t ↦ ground (arith, t, q)
  | inr t ↦ ground (arith, t, q)
]

module _ {S : Type 0} where
  -- A probe, on the heap alone.
  probe-IsKept :
      (o : Outcome) (dur : ℕ) (r : Ref) (w : World S)
      → IsKept w (record w {
        heap = (probe o dur r (w.heap, w.metrics)).0;
        metrics = (probe o dur r (w.heap, w.metrics)).1;
      })
  unfolding probe check_alive mark set_alive record_failure record_success
  probe-IsKept o dur r w = record {
    pool = refl;
    url = λ s. ground arith;
    weight = λ s. ground arith;
    connections = λ s. ground arith;
  }

  probed-IsKept :
      (probes : Ref → Outcome × ℕ) (rs : List Ref) (w : World S) → IsKept w (probed probes rs w)
  unfolding probed check_all
  probed-IsKept probes [] w = (same-IsUntouched w w refl refl).kept
  probed-IsKept probes (r ∷ rs) w =
      let hm = probe (probes r).0 (probes r).1 r (w.heap, w.metrics) in
      let w' = record w { heap = hm.0; metrics = hm.1 } in
      IsKept-trans w w' (probed probes (r ∷ rs) w) (probe-IsKept (probes r).0 (probes r).1 r w)
        (probed-IsKept probes rs w')

  toggle-IsKept : (found : Option Ref) (w : World S) → IsKept w (toggle found w).0
  unfolding set_alive
  toggle-IsKept none w = (same-IsUntouched w w refl refl).kept
  toggle-IsKept (some r) w = record {
    pool = refl;
    url = λ s. ground arith;
    weight = λ s. ground arith;
    connections = λ s. ground arith;
  }

  show_states-IsSame : (now : ℕ) (rs : List Ref) (w : World S) → IsSame w (show_states now rs w)
  unfolding show_states on_breaker
  show_states-IsSame now [] w = (refl, refl)
  show_states-IsSame now (r ∷ rs) w =
      show_states-IsSame now rs (on_breaker (ask_state now) (host_of w r) w)

  chaos_trip-IsSame : (host : String) (now : ℕ) (w : World S) → IsSame w (chaos_trip host now w).0
  unfolding chaos_trip on_breaker
  chaos_trip-IsSame host now w = elim (Bool-cases (str_eq host "")) [
    | inl e ↦ rw e (refl, refl)
    | inr e ↦ rw e (refl, refl)
  ]

  chaos_reset-IsSame : (host : String) (now : ℕ) (w : World S) → IsSame w (chaos_reset host now w).0
  unfolding chaos_reset on_breaker
  chaos_reset-IsSame host now w = elim (Bool-cases (str_eq host "")) [
    | inl e ↦ rw e (refl, refl)
    | inr e ↦ rw e (refl, refl)
  ]

  module _ (status_text : ℕ → String) (st : Strategy S) where
    happen-IsKept : (e : Event) (w : World S) → Fits w → IsKept w (happen status_text st e w)
    unfolding happen chaos_backend api_backends fast_api_backends
    happen-IsKept (request req clock env dur now) w fits =
        (serve_http-IsUntouched status_text st clock req env dur now w fits).kept
    happen-IsKept (round probes rs) w fits = probed-IsKept probes rs w
    happen-IsKept (trip host now) w fits =
        let (heap, pool) = chaos_trip-IsSame host now w in
        (same-IsUntouched w (chaos_trip host now w).0 heap pool).kept
    happen-IsKept (reset host now) w fits =
        let (heap, pool) = chaos_reset-IsSame host now w in
        (same-IsUntouched w (chaos_reset host now w).0 heap pool).kept
    happen-IsKept (switch host) w fits = toggle-IsKept (get_backend_by_host w.heap w.pool host) w
    happen-IsKept (show now) w fits =
        let (heap, pool) = show_states-IsSame now (all_backends w.pool) w in
        (same-IsUntouched w (api_backends now w) heap pool).kept
    happen-IsKept (fast_request req clock answer dur now) w fits =
        (handler-IsUntouched status_text st clock req answer dur now w fits).kept
    happen-IsKept (fast_trip host now) w fits =
        let (heap, pool) = fast_chaos_trip-IsSame host now w in
        (same-IsUntouched w (fast_chaos_trip host now w) heap pool).kept
    happen-IsKept (fast_reset host now) w fits =
        let (heap, pool) = fast_chaos_reset-IsSame host now w in
        (same-IsUntouched w (fast_chaos_reset host now w) heap pool).kept
    happen-IsKept (fast_show now) w fits =
        let (heap, pool) = show_states-IsSame now (all_backends w.pool) w in
        (same-IsUntouched w (fast_api_backends now w) heap pool).kept

    -- Where no backend has 2^64 connections or more, whatever requests to either proxy, rounds
    -- of the checker and calls of the admin routes follow one another, every backend keeps its
    -- address, its weight and its number of connections, and the pool is the same.
    pub live-IsKept :
        (es : List Event) (w : World S)
        → ((r : Ref) → (w.heap r).connections < u64_mod)
        → IsKept w (live status_text st es w)
    unfolding live
    live-IsKept [] w fits = (same-IsUntouched w w refl refl).kept
    live-IsKept (e ∷ es) w fits =
        let w' = happen status_text st e w in
        let one = happen-IsKept e w fits in
        IsKept-trans w w' (live status_text st es w') one
          (live-IsKept es w' (still-Fits w w' one fits))

    happen-alive :
        (e : Event) (w : World S) (r : Ref)
        → Fits w
        → sets_health e ≡ false
        → ((happen status_text st e w).heap r).alive ≡ (w.heap r).alive
    unfolding happen api_backends fast_api_backends
    happen-alive (request req clock env dur now) w r fits q =
        (serve_http-IsUntouched status_text st clock req env dur now w fits).alive r
    happen-alive (round probes rs) w r fits q = ground (arith, q)
    happen-alive (trip host now) w r fits q = ap (λ h. (h r).alive) (chaos_trip-IsSame host now w).0
    happen-alive (reset host now) w r fits q =
        ap (λ h. (h r).alive) (chaos_reset-IsSame host now w).0
    happen-alive (switch host) w r fits q = ground (arith, q)
    happen-alive (show now) w r fits q =
        ap (λ h. (h r).alive) (show_states-IsSame now (all_backends w.pool) w).0
    happen-alive (fast_request req clock answer dur now) w r fits q =
        (handler-IsUntouched status_text st clock req answer dur now w fits).alive r
    happen-alive (fast_trip host now) w r fits q =
        ap (λ h. (h r).alive) (fast_chaos_trip-IsSame host now w).0
    happen-alive (fast_reset host now) w r fits q =
        ap (λ h. (h r).alive) (fast_chaos_reset-IsSame host now w).0
    happen-alive (fast_show now) w r fits q =
        ap (λ h. (h r).alive) (show_states-IsSame now (all_backends w.pool) w).0

    -- Where no backend has 2^64 connections or more, whatever requests to either proxy, trips and
    -- resets of breakers and pages follow one another, with no round of the checker and no
    -- /api/chaos/backend between, every backend stays as healthy as it was, however many of the
    -- requests fail.
    pub live-alive :
        (es : List Event) (w : World S) (r : Ref)
        → ((s : Ref) → (w.heap s).connections < u64_mod)
        → any_sets_health es ≡ false
        → ((live status_text st es w).heap r).alive ≡ (w.heap r).alive
    unfolding live
    live-alive [] w r fits q = refl
    live-alive (e ∷ es) w r fits q =
        let w' = happen status_text st e w in
        let (here, later) = quiet_cons e es q in
        live-alive es w' r (still-Fits w w' (happen-IsKept e w fits) fits) later
        ∙ happen-alive e w r fits here
