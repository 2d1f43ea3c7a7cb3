-- ===== src/Breaker/Names.antt =====
-- No method of a breaker changes its name.
use load_balancer.Base.{ℕ, ◌≡◌, refl, Bool, true, false, arith}
use load_balancer.Breaker.Types.{State, closed, open_state, half_open}
use load_balancer.Breaker.{
  Breaker, enter, current, set_state, current_state, get_state, allow, trip_manually,
  reset_manually, on_success, on_failure, on_result, reset_counts,
}

enter-name : (s : State) (now : ℕ) (cb : Breaker) → (enter s now cb).name ≡ cb.name
unfolding enter reset_counts
enter-name closed now cb = refl
enter-name open_state now cb = refl
enter-name half_open now cb = refl

set_state-name : (s : State) (now : ℕ) (cb : Breaker) → (set_state s now cb).0.name ≡ cb.name
unfolding set_state
set_state-name s now cb = enter-name s now _

current-name : (s : State) (now : ℕ) (cb : Breaker) → (current s now cb).0.name ≡ cb.name
unfolding current reset_counts
current-name closed now cb = ground arith
current-name open_state now cb = refl
current-name half_open now cb = refl

current_state-name : (now : ℕ) (cb : Breaker) → (current_state now cb).0.name ≡ cb.name
unfolding current_state
current_state-name now cb = current-name cb.state now cb

pub get_state-name : (now : ℕ) (cb : Breaker) → (get_state now cb).0.name ≡ cb.name
unfolding get_state
get_state-name now cb =
    let (cb', s) = current_state now cb in
    ground (arith, current_state-name now cb, set_state-name s now cb')

pub allow-name : (now : ℕ) (cb : Breaker) → (allow now cb).0.name ≡ cb.name
unfolding allow
allow-name now cb = ground (arith, current_state-name now cb)

pub trip_manually-name : (now : ℕ) (cb : Breaker) → (trip_manually now cb).0.name ≡ cb.name
unfolding trip_manually
trip_manually-name now cb = set_state-name open_state now cb

pub reset_manually-name : (now : ℕ) (cb : Breaker) → (reset_manually now cb).0.name ≡ cb.name
unfolding reset_manually
reset_manually-name now cb = set_state-name closed now cb

on_success-name : (now : ℕ) (cb : Breaker) → (on_success now cb).0.name ≡ cb.name
unfolding on_success
on_success-name now cb = ground (arith, set_state-name closed now _)

on_failure-name : (now : ℕ) (cb : Breaker) → (on_failure now cb).0.name ≡ cb.name
unfolding on_failure
on_failure-name now cb = ground (arith, set_state-name open_state now _)

pub on_result-name : (ok : Bool) (now : ℕ) (cb : Breaker) → (on_result ok now cb).0.name ≡ cb.name
unfolding on_result
on_result-name true now cb = on_success-name now cb
on_result-name false now cb = on_failure-name now cb
