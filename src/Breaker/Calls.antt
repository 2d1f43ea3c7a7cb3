-- ===== src/Breaker/Calls.antt =====
-- Histories of a breaker: any sequence of its methods, at any times, in any order.
use load_balancer.Base.{
  ℕ, ◌≡◌, refl, sym, ap, ◌∙◌, ◌≢◌, ◌⊎◌, inl, inr, Bool, true, List, [], ◌∷◌, ◌++◌, arith,
}
use load_balancer.Breaker.Types.{State, closed, half_open, open_state, Config}
use load_balancer.Breaker.{
  Breaker, Change, allow, get_state, trip_manually, reset_manually, on_result, set_state,
}

pub data Call : Type 0 where
  allows : ℕ → Call
  asks_state : ℕ → Call
  reports : Bool → ℕ → Call
  trips_manually : ℕ → Call
  resets_manually : ℕ → Call

-- One call: the breaker after it, and the calls of OnStateChange that it made.
unfoldable pub step : Call → Breaker → Breaker × List Change
unfolding allow get_state on_result trip_manually reset_manually
step (allows now) cb = ((allow now cb).0, [])
step (asks_state now) cb = let (cb', s, told) = get_state now cb in (cb', told)
step (reports ok now) cb = on_result ok now cb
step (trips_manually now) cb = trip_manually now cb
step (resets_manually now) cb = reset_manually now cb

unfoldable pub run : List Call → Breaker → Breaker × List Change
run [] cb = (cb, [])
run (c ∷ cs) cb =
    let (cb', told) = step c cb in let (cb'', more) = run cs cb' in (cb'', told ++ more)

-- Nothing changed, and the callback was not called; or the state did, and it was called once,
-- with the name, the old and the new state.
abbrev pub IsReported : Breaker → Breaker → List Change → Type 0
IsReported cb cb' told =
    ((cb'.state ≡ cb.state) × (told ≡ []))
    ⊎ ((cb'.state ≢ cb.state)
        × (told ≡ record { name = cb.name; from = cb.state; to = cb'.state } ∷ []))

set_state-IsReported :
    (s : State) (now : ℕ) (cb : Breaker)
    → cb.config.on_state_change ≡ true
    → IsReported cb (set_state s now cb).0 (set_state s now cb).1
unfolding set_state
set_state-IsReported closed now cb e = ground arith
set_state-IsReported half_open now cb e = ground arith
set_state-IsReported open_state now cb e = ground arith

-- Where a callback is set, each method calls it exactly when it changes the state, once, with the
-- breaker's name, the state before and the state after.
pub step-IsReported :
    (c : Call) (cb : Breaker)
    → cb.config.on_state_change ≡ true
    → IsReported cb (step c cb).0 (step c cb).1
unfolding step
step-IsReported (allows now) cb e = ground arith
step-IsReported (asks_state now) cb e = ground arith
step-IsReported (reports ok now) cb e = ground arith
step-IsReported (trips_manually now) cb e = ground arith
step-IsReported (resets_manually now) cb e = ground arith

-- A history as the chain of its reported changes: each starts in the state where the last ended.
abbrev pub Chain : State → List Change → State → Type 0
Chain s [] t = s ≡ t
Chain s (c ∷ cs) t = (c.from ≡ s) × (c.from ≢ c.to) × Chain c.to cs t

Chain-append :
    (s t u : State) (cs ds : List Change) → Chain s cs t → Chain t ds u → Chain s (cs ++ ds) u
Chain-append s t u [] ds h k = rw h k
Chain-append s t u (c ∷ cs) ds h k = (h.0, h.1, Chain-append c.to t u cs ds h.2 k)

step-Chain :
    (c : Call) (cb : Breaker)
    → cb.config.on_state_change ≡ true
    → Chain cb.state (step c cb).1 (step c cb).0.state
step-Chain c cb e = elim (step-IsReported c cb e) [
  | inl (same, silent) ↦ rw silent (sym same)
  | inr (moved, told) ↦ rw told (refl, (λ q. moved (sym q)), refl)
]

step-config : (c : Call) (cb : Breaker) → (step c cb).0.config ≡ cb.config
unfolding step
step-config (allows now) cb = ground arith
step-config (asks_state now) cb = ground arith
step-config (reports ok now) cb = ground arith
step-config (trips_manually now) cb = ground arith
step-config (resets_manually now) cb = ground arith

-- Where OnStateChange is set, its calls over any history of the breaker are a connected path from
-- the state before to the state after, with no step from a state to itself.
pub run-Chain :
    (cs : List Call) (cb : Breaker)
    → cb.config.on_state_change ≡ true
    → Chain cb.state (run cs cb).1 (run cs cb).0.state
unfolding run
run-Chain [] cb e = refl
run-Chain (c ∷ cs) cb e =
    let cb' = (step c cb).0 in
    Chain-append cb.state cb'.state (run cs cb').0.state (step c cb).1 (run cs cb').1
      (step-Chain c cb e)
      (run-Chain cs cb' (ap (λ (x : Config). x.on_state_change) (step-config c cb) ∙ e))
