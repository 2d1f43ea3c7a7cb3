-- ===== src/Breaker/Open.antt =====
-- The open state: what it refuses, and for how long.
use load_balancer.Base.{
  ℕ, ◌≤◌, ◌≡◌, refl, ap, ◌≢◌, Bool, false, Option, none, some, String, List, [], ◌∷◌, map, arith,
  All,
}
use load_balancer.Breaker.Types.{open_state, default_config, add_time, Config}
use load_balancer.Breaker.{
  Breaker, Error, circuit_open, new_breaker, allow, trip_manually, on_result,
}

-- The answers to requests that arrive at the given times, with no call of another method.
unfoldable pub allow_all : List ℕ → Breaker → Breaker × List (Option Error)
allow_all [] cb = (cb, [])
allow_all (now ∷ nows) cb =
    let (cb', e) = allow now cb in let (cb'', es) = allow_all nows cb' in (cb'', e ∷ es)

allow_early :
    (now e : ℕ) (cb : Breaker)
    → cb.state ≡ open_state
    → cb.expiry ≡ some e
    → now ≤ e
    → allow now cb ≡ (cb, some circuit_open)
unfolding allow
allow_early now e cb s x le = ground (arith, le)

-- After a manual trip every request of any sequence that arrives within the timeout is refused
-- with ErrCircuitOpen, and the breaker stays as the trip left it.
pub trip_holds :
    (at : ℕ) (nows : List ℕ) (cb : Breaker)
    → All (λ now. now ≤ add_time at cb.config.timeout) nows
    → allow_all nows (trip_manually at cb).0
      ≡ ((trip_manually at cb).0, map (λ _. some circuit_open) nows)
unfolding allow_all
trip_holds at [] cb early = refl
trip_holds at (now ∷ nows) cb early =
    let cb' = (trip_manually at cb).0 in
    let here : allow now cb' ≡ (cb', some circuit_open) =
      allow_early now (add_time at cb.config.timeout) cb' (unfold trip_manually in refl)
        (unfold trip_manually in refl) early.0 in
    rw (here, trip_holds at nows cb early.1)

abbrev IsRefused : Option Error → Type 0
IsRefused e = e ≢ none

allow_exhausted :
    (now : ℕ) (cb : Breaker)
    → cb.state ≡ open_state
    → cb.config.max_requests ≤ cb.counts.requests
    → ((allow now cb).0 ≡ cb) × IsRefused (allow now cb).1
unfolding allow
allow_exhausted now cb s full = ground (arith, full)

-- An open breaker whose request count has reached MaxRequests refuses every request of any
-- sequence, at any times, and no request changes it.
pub exhausted_stays_shut :
    (nows : List ℕ) (cb : Breaker)
    → cb.state ≡ open_state
    → cb.config.max_requests ≤ cb.counts.requests
    → ((allow_all nows cb).0 ≡ cb) × All (λ e. e ≢ none) (allow_all nows cb).1
unfolding allow_all
exhausted_stays_shut [] cb s full = (refl, tt)
exhausted_stays_shut (now ∷ nows) cb s full =
    let (same, refused) = allow_exhausted now cb s full in
    let (last, others) = exhausted_stays_shut nows cb s full in
    (rw same last, (refused, rw same others))

-- A request: Allow, and its result reported at once, if it was admitted.
unfoldable pub request : Bool → ℕ → Breaker → Breaker
unfolding allow on_result
request ok now cb =
    let (cb', e) = allow now cb in elim e [ none ↦ (on_result ok now cb').0 | some x ↦ cb' ]

-- A breaker with the default configuration that its first three requests trip refuses every later
-- request, whenever it comes, as long as no other method than Allow is called.
pub default_never_recovers :
    (name : String) (a b c : ℕ) (nows : List ℕ)
    → let cb =
        request false c (request false b (request false a (new_breaker name default_config))) in
      (cb.state ≡ open_state)
      × ((allow_all nows cb).0 ≡ cb)
      × All (λ e. e ≢ none) (allow_all nows cb).1
default_never_recovers name a b c nows =
    let cb =
      request false c (request false b (request false a (new_breaker name default_config))) in
    let tripped : cb.state ≡ open_state = unfold request new_breaker default_config in refl in
    let full : cb.config.max_requests ≤ cb.counts.requests =
      unfold request new_breaker default_config in omega arith in
    let (same, refused) = exhausted_stays_shut nows cb tripped full in (tripped, same, refused)

-- A refused request leaves the breaker as it was.
pub allow_refused : (now : ℕ) (cb : Breaker) → (allow now cb).1 ≢ none → (allow now cb).0 ≡ cb
unfolding allow
allow_refused now cb refused = ground arith

-- A new breaker lets its first request through.
pub allow-new_breaker :
    (now : ℕ) (name : String) (config : Config) → (allow now (new_breaker name config)).1 ≡ none
unfolding allow new_breaker
allow-new_breaker now name config = refl

-- One request after a manual trip, within the timeout.
pub trip_refuses :
    (at now : ℕ) (cb : Breaker)
    → now ≤ add_time at cb.config.timeout
    → (allow now (trip_manually at cb).0).1 ≡ some circuit_open
trip_refuses at now cb early =
    ap (λ (x : Breaker × Option Error). x.1)
      (allow_early now (add_time at cb.config.timeout) (trip_manually at cb).0
        (unfold trip_manually in refl) (unfold trip_manually in refl) early)
