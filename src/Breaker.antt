-- ===== src/Breaker.antt =====
-- internal/circuitbreaker/breaker.go. Each method runs under the breaker's mutex, so a history of a
-- breaker is a sequence of calls; `now` is the reading of time.Now. The function that Allow returns
-- is `on_result` at the time of that Allow.
pub mod Types
pub mod Calls
pub mod Open
pub mod Recovery
pub mod Names
pub mod Window
pub mod Manager
use load_balancer.Base.{
  ℕ, ◌*◌, Bool, false, not, ◌&&◌, Option, none, some, String, List, [], ◌∷◌, leb, ◌==◌,
  if◌then◌else◌, add32, add64, is_nonpos,
}
use Types.{
  State, closed, half_open, open_state, is_state, Counts, zero_counts, Config,
  default_ready_to_trip, add_time, before, is_zero_time, second,
}

pub record Breaker : Type 0 where
  pub name : String
  pub config : Config
  pub state : State
  pub generation : ℕ  -- uint64
  pub counts : Counts
  pub expiry : Option ℕ

-- A call of OnStateChange.
pub record Change : Type 0 where
  pub name : String
  pub from : State
  pub to : State

pub data Error : Type 0 where
  circuit_open too_many_requests : Error

abbrev or_default : Option (Counts → Bool) → Option (Counts → Bool)
or_default none = some default_ready_to_trip
or_default (some f) = some f

unfoldable pub new_breaker : String → Config → Breaker
unfolding default_ready_to_trip
new_breaker name config = record {
  name = name;
  config = record {
    max_requests = if config.max_requests == 0 then 3 else config.max_requests;
    interval = if is_nonpos config.interval then 30 * second else config.interval;
    timeout = if is_nonpos config.timeout then 10 * second else config.timeout;
    ready_to_trip = or_default config.ready_to_trip;
    on_state_change = config.on_state_change;
  };
  state = closed;
  generation = 0;
  counts = zero_counts;
  expiry = none;
}

-- A breaker that NewBreaker made has a ReadyToTrip; a nil one would be a fault.
abbrev trips : Option (Counts → Bool) → Counts → Bool
trips none c = false
trips (some f) c = f c

reset_counts : Breaker → Breaker
reset_counts cb = record cb { counts = zero_counts }

-- The `switch newState` of setState.
enter : State → ℕ → Breaker → Breaker
unfolding reset_counts
enter closed now cb = record (reset_counts cb) { expiry = some (add_time now cb.config.interval) }
enter open_state now cb = record cb { expiry = some (add_time now cb.config.timeout) }
enter half_open now cb = record (reset_counts cb) { expiry = none }

unfoldable pub set_state : State → ℕ → Breaker → Breaker × List Change
unfolding enter
set_state s now cb =
    let told = record { name = cb.name; from = cb.state; to = s } ∷ [] in
    (
      enter s now (record cb { state = s; generation = add64 cb.generation 1 }),
      if cb.config.on_state_change && not (is_state cb.state s) then told else [],
    )

-- currentState: the state in force at `now`, and the breaker, whose counts it may have reset.
current : State → ℕ → Breaker → Breaker × State
unfolding reset_counts
current closed now cb =
    (if not (is_zero_time cb.expiry) && before cb.expiry now then reset_counts cb else cb, closed)
current open_state now cb = (cb, if before cb.expiry now then half_open else open_state)
current half_open now cb = (cb, half_open)

unfoldable pub current_state : ℕ → Breaker → Breaker × State
unfolding current
current_state now cb = current cb.state now cb

-- The method State.
unfoldable pub get_state : ℕ → Breaker → Breaker × State × List Change
unfolding current_state set_state
get_state now cb =
    let (cb', s) = current_state now cb in
    let (cb'', told) = set_state s now cb' in
    if is_state s cb'.state then (cb', s, []) else (cb'', s, told)

-- Allow: none for the error nil.
unfoldable pub allow : ℕ → Breaker → Breaker × Option Error
unfolding current_state
allow now cb =
    let (cb', s) = current_state now cb in
    let c = cb'.counts in
    if is_state s open_state
    then (cb', some circuit_open)
    else if is_state s half_open && leb cb'.config.max_requests c.requests
    then (cb', some too_many_requests)
    else (record cb' { counts = record c { requests = add32 c.requests 1 } }, none)

unfoldable pub trip_manually : ℕ → Breaker → Breaker × List Change
unfolding set_state
trip_manually now cb = set_state open_state now cb

unfoldable pub reset_manually : ℕ → Breaker → Breaker × List Change
unfolding set_state
reset_manually now cb = set_state closed now cb

unfoldable pub on_success : ℕ → Breaker → Breaker × List Change
unfolding set_state
on_success now cb =
    let c = cb.counts in
    let c' = record c {
      total_successes = add32 c.total_successes 1;
      consecutive_successes = add32 c.consecutive_successes 1;
      consecutive_failures = 0;
    } in
    let cb' = record cb { counts = c' } in
    if is_state cb'.state half_open && leb cb'.config.max_requests cb'.counts.consecutive_successes
    then set_state closed now cb'
    else (cb', [])

unfoldable pub on_failure : ℕ → Breaker → Breaker × List Change
unfolding set_state
on_failure now cb =
    let c = cb.counts in
    let c' = record c {
      total_failures = add32 c.total_failures 1;
      consecutive_failures = add32 c.consecutive_failures 1;
      consecutive_successes = 0;
    } in
    let cb' = record cb { counts = c' } in
    if is_state cb'.state half_open
    then set_state open_state now cb'
    else if trips cb'.config.ready_to_trip cb'.counts
    then set_state open_state now cb'
    else (cb', [])

-- onResult, the function that Allow hands out, called with `success`.
unfoldable pub on_result : Bool → ℕ → Breaker → Breaker × List Change
unfolding on_success on_failure
on_result success now cb = if success then on_success now cb else on_failure now cb
