-- ===== src/Risk/Breaker.antt =====
-- aitos/risk/circuit_breaker.py. `time.monotonic()` is an argument of each call that reads it, a
-- whole number of clock ticks; the cooldown is counted in the same ticks.
pub mod Safety
use Prim.Native.String.{String}
use text.Mathlib.Text.{◌==◌ as str_eq}
use project_alpha.Common.{
  ℕ, ◌+◌, Bool, true, false, ◌&&◌, ◌||◌, Option, none, some, List, [], ◌∷◌, ◌++◌, if◌then◌else◌,
  leb,
}

pub data CircuitBreakerState : Type 0 where
  closed open_state half_open : CircuitBreakerState

pub record CircuitBreakerEvent : Type 0 where
  pub state : CircuitBreakerState
  pub reason : String
  pub at_monotonic : ℕ

pub record CircuitBreaker : Type 0 where
  pub state : CircuitBreakerState
  pub cooldown_seconds : ℕ
  pub tripped_at : Option ℕ
  pub history : List CircuitBreakerEvent

unfoldable pub new_breaker : ℕ → CircuitBreaker
new_breaker cooldown = record {
  state = closed;
  cooldown_seconds = cooldown;
  tripped_at = none;
  history = [];
}

abbrev pub is_open : CircuitBreakerState → Bool
is_open open_state = true
is_open _ = false

abbrev pub is_half_open : CircuitBreakerState → Bool
is_half_open half_open = true
is_half_open _ = false

abbrev pub is_closed : CircuitBreakerState → Bool
is_closed closed = true
is_closed _ = false

-- `self._history.append(CircuitBreakerEvent(state, reason, at))`
abbrev pub record_event :
    CircuitBreakerState → String → ℕ → List CircuitBreakerEvent → List CircuitBreakerEvent
record_event s reason at h = h ++ record { state = s; reason = reason; at_monotonic = at } ∷ []

unfoldable pub is_trading_allowed : CircuitBreaker → Bool
is_trading_allowed b = is_closed b.state || is_half_open b.state

unfoldable pub trip : CircuitBreaker → String → ℕ → CircuitBreaker
trip b reason now = record b {
  state = open_state;
  tripped_at = some now;
  history = record_event open_state reason now b.history;
}

-- `(now - tripped_at) >= cooldown`, with the subtraction moved to the other side.
unfoldable pub cooldown_elapsed : CircuitBreaker → ℕ → Bool
cooldown_elapsed b now = elim b.tripped_at [
  | none ↦ false
  | some t ↦ is_open b.state && leb (t + b.cooldown_seconds) now
]

-- The clock is read twice: `now` in `cooldown_elapsed`, `later` for the event.
unfoldable pub attempt_half_open : CircuitBreaker → ℕ → ℕ → CircuitBreaker × Bool
unfolding cooldown_elapsed
attempt_half_open b now later =
    if is_open b.state && cooldown_elapsed b now
    then (
      record b {
        state = half_open;
        history = record_event half_open "cooldown elapsed, probing" later b.history;
      },
      true,
    )
    else (b, false)

-- `reason or default`
abbrev pub reason_or : String → String → String
reason_or reason default = if str_eq reason "" then default else reason

unfoldable pub record_probe_result : CircuitBreaker → Bool → String → ℕ → CircuitBreaker
record_probe_result b success reason now =
    if is_half_open b.state
    then if success
      then record b {
        state = closed;
        tripped_at = none;
        history = record_event closed (reason_or reason "probe succeeded") now b.history;
      }
      else record b {
        state = open_state;
        tripped_at = some now;
        history = record_event open_state (reason_or reason "probe failed") now b.history;
      }
    else b

unfoldable pub reset : CircuitBreaker → ℕ → CircuitBreaker
reset b now = record b {
  state = closed;
  tripped_at = none;
  history = record_event closed "manual reset" now b.history;
}
