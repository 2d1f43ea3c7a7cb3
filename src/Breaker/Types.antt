-- ===== src/Breaker/Types.antt =====
-- internal/circuitbreaker/breaker.go, lines 9-90 and 100: the states, the counts, the configuration
-- with its defaults, and time.Time and time.Duration as the breaker uses them. A duration is an
-- int64 of nanoseconds; an instant is a number of nanoseconds, and `none` is the zero time.Time.
use load_balancer.Base.{
  ℕ, ◌+◌, ◌-◌, ◌*◌, Bool, true, false, ◌&&◌, Option, none, some, String, ltb, leb, if◌then◌else◌,
  is_neg, neg64,
}

pub data State : Type 0 where
  closed half_open open_state : State

pub State-discrete : Discrete State
State-discrete = hlevel

abbrev pub is_state : State → State → Bool
is_state closed closed = true
is_state half_open half_open = true
is_state open_state open_state = true
is_state _ _ = false

-- State.String, for the three states that the code makes.
unfoldable pub state_string : State → String
state_string closed = "closed"
state_string half_open = "half-open"
state_string open_state = "open"

pub record Counts : Type 0 where
  pub requests : ℕ  -- uint32
  pub total_successes : ℕ  -- uint32
  pub total_failures : ℕ  -- uint32
  pub consecutive_successes : ℕ  -- uint32
  pub consecutive_failures : ℕ  -- uint32

abbrev pub zero_counts : Counts
zero_counts = record {
  requests = 0;
  total_successes = 0;
  total_failures = 0;
  consecutive_successes = 0;
  consecutive_failures = 0;
}

-- `none` where a function field is nil. OnStateChange is a callback: the models return the list of
-- its calls, and the flag says whether one is set.
pub record Config : Type 0 where
  pub max_requests : ℕ  -- uint32
  pub interval : ℕ  -- int64
  pub timeout : ℕ  -- int64
  pub ready_to_trip : Option (Counts → Bool)
  pub on_state_change : Bool

abbrev pub second : ℕ
second = 1000000000

-- The ReadyToTrip of DefaultConfig. On uint32 values the float64 quotient f / r exceeds 0.4 exactly
-- when 5 f > 2 r: both conversions are exact, 2 / 5 itself rounds to the constant, and any larger
-- quotient is larger by at least 1 / (5 r), far more than a rounding.
unfoldable pub default_ready_to_trip : Counts → Bool
default_ready_to_trip c =
    if leb 3 c.consecutive_failures
    then true
    else leb 5 c.requests && ltb (2 * c.requests) (5 * c.total_failures)

unfoldable pub default_config : Config
unfolding default_ready_to_trip
default_config = record {
  max_requests = 3;
  interval = 30 * second;
  timeout = 10 * second;
  ready_to_trip = some default_ready_to_trip;
  on_state_change = false;
}

-- t.Add(d): a negative duration goes back.
abbrev pub add_time : ℕ → ℕ → ℕ
add_time t d = if is_neg d then t - neg64 d else t + d

-- expiry.Before(now); the zero time stands before every reading of the clock.
abbrev pub before : Option ℕ → ℕ → Bool
before none now = true
before (some t) now = ltb t now

abbrev pub is_zero_time : Option ℕ → Bool
is_zero_time none = true
is_zero_time (some t) = false
