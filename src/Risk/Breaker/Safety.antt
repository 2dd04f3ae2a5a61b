-- ===== src/Risk/Breaker/Safety.antt =====
-- What the circuit breaker promises over a history of calls.
use Prim.Native.String.{String}
use project_alpha.Common.{
  ℕ, ◌+◌, ◌≤◌, ◌<◌, ◌≡◌, refl, Bool, true, false, none, some, List, [], ◌∷◌, arith, ◌⊎◌, ◌≢◌, All,
}
use project_alpha.Risk.Breaker.{
  CircuitBreakerState, CircuitBreakerEvent, CircuitBreaker, closed, open_state, half_open,
  new_breaker, record_event, is_trading_allowed, trip, attempt_half_open, record_probe_result,
  reset, reason_or,
}

-- The calls that change a breaker, with the times that they read.
pub data Call : Type 0 where
  trips : String → ℕ → Call
  attempts : ℕ → ℕ → Call
  probes : Bool → String → ℕ → Call
  resets : ℕ → Call

unfoldable pub step : CircuitBreaker → Call → CircuitBreaker
step b (trips reason now) = trip b reason now
step b (attempts now later) = (attempt_half_open b now later).0
step b (probes success reason now) = record_probe_result b success reason now
step b (resets now) = reset b now

pub run : CircuitBreaker → List Call → CircuitBreaker
run b [] = b
run b (c ∷ cs) = run (step b c) cs

-- `attempt_half_open` succeeds exactly when the breaker is open and its cooldown has passed since
-- it was tripped; then only the state and the history change, and otherwise nothing does.
abbrev pub Attempted : CircuitBreaker → ℕ → ℕ → CircuitBreaker × Bool → Type 0
Attempted b now later (b', done) =
    ((done ≡ true)
      × (b.state ≡ open_state)
      × ((t : ℕ) × (b.tripped_at ≡ some t) × (t + b.cooldown_seconds ≤ now))
      × (b' ≡ record b {
        state = half_open;
        history = record_event half_open "cooldown elapsed, probing" later b.history;
      }))
    ⊎ ((done ≡ false)
        × (b' ≡ b)
        × ((t : ℕ) → b.state ≡ open_state → b.tripped_at ≡ some t → now < t + b.cooldown_seconds))

-- A call of `attempt_half_open` moves an open breaker to half-open exactly when the cooldown has
-- passed since the trip, and changes nothing otherwise.
attempt_half_open-Attempted :
    (b : CircuitBreaker) (now later : ℕ) → Attempted b now later (attempt_half_open b now later)
unfolding attempt_half_open
attempt_half_open-Attempted b now later = ground arith

-- A call that can be made while entries must stay paused: one that trips the breaker again, no
-- earlier than `t`, one that probes, or an attempt to recover before `t + cooldown`.
abbrev pub IsWithin : ℕ → ℕ → Call → Type 0
IsWithin t cooldown (trips _ now) = t ≤ now
IsWithin t cooldown (attempts now _) = now < t + cooldown
IsWithin t cooldown (probes _ _ _) = Unit
IsWithin t cooldown (resets _) = ⊥

-- Open since `t` or later, under a given cooldown.
pub record IsPaused (t cooldown : ℕ) (b : CircuitBreaker) : Type 0 where
  pub is_open : b.state ≡ open_state
  pub since : (t' : ℕ) × (b.tripped_at ≡ some t') × (t ≤ t')
  pub same_cooldown : b.cooldown_seconds ≡ cooldown

pub step-IsPaused :
    (t cooldown : ℕ) (b : CircuitBreaker) (c : Call)
    → IsWithin t cooldown c
    → IsPaused t cooldown b
    → IsPaused t cooldown (step b c)
unfolding step trip attempt_half_open record_probe_result
step-IsPaused t cooldown b (trips reason now) w p = record {
  is_open = refl;
  since = (now, refl, w);
  same_cooldown = p.same_cooldown;
}
step-IsPaused t cooldown b (attempts now later) w p = ground arith
step-IsPaused t cooldown b (probes success reason now) w p = ground arith
step-IsPaused t cooldown b (resets now) w p = absurd w

run-IsPaused :
    (t cooldown : ℕ) (b : CircuitBreaker) (cs : List Call)
    → All (IsWithin t cooldown) cs
    → IsPaused t cooldown b
    → IsPaused t cooldown (run b cs)
unfolding run
run-IsPaused t cooldown b [] w p = p
run-IsPaused t cooldown b (c ∷ cs) w p =
    run-IsPaused t cooldown (step b c) cs w.1 (step-IsPaused t cooldown b c w.0 p)

-- Once tripped at time `t`, a breaker allows no trading through any sequence of further trips,
-- probe results and recovery attempts, the trips not before `t` and the attempts before
-- `t + cooldown`.
pub trip_pauses_trading :
    (b : CircuitBreaker) (reason : String) (t : ℕ) (cs : List Call)
    → All (IsWithin t b.cooldown_seconds) cs
    → is_trading_allowed (run (trip b reason t) cs) ≡ false
unfolding is_trading_allowed trip
trip_pauses_trading b reason t cs w =
    let paused =
      run-IsPaused t b.cooldown_seconds (trip b reason t) cs w
        (record { is_open = refl; since = (t, refl, omega arith); same_cooldown = refl }) in
    rw paused.is_open

-- The state after the events of a history, the last one counting.
pub last_state : CircuitBreakerState → List CircuitBreakerEvent → CircuitBreakerState
last_state s [] = s
last_state s (e ∷ es) = last_state e.state es

last_state-record_event :
    (s s' : CircuitBreakerState) (reason : String) (at : ℕ) (h : List CircuitBreakerEvent)
    → last_state s (record_event s' reason at h) ≡ s'
unfolding last_state
last_state-record_event s s' reason at [] = refl
last_state-record_event s s' reason at (e ∷ es) = last_state-record_event e.state s' reason at es

-- The history ends in the present state, and a trip time is kept while not closed, and only then.
pub record IsConsistent (b : CircuitBreaker) : Type 0 where
  pub recorded : last_state closed b.history ≡ b.state
  pub timed : b.state ≢ closed → b.tripped_at ≢ none
  pub untimed : b.state ≡ closed → b.tripped_at ≡ none

step-IsConsistent : (b : CircuitBreaker) (c : Call) → IsConsistent b → IsConsistent (step b c)
unfolding step trip attempt_half_open record_probe_result reset
step-IsConsistent b (trips reason now) v = record {
  recorded = last_state-record_event closed open_state reason now b.history;
  timed = λ _ e. cc;
  untimed = λ e. cc;
}
step-IsConsistent b (attempts now later) v =
    ground
      (arith, last_state-record_event closed half_open "cooldown elapsed, probing" later b.history)
step-IsConsistent b (probes success reason now) v = ground (
  arith,
  last_state-record_event closed closed (reason_or reason "probe succeeded") now b.history,
  last_state-record_event closed open_state (reason_or reason "probe failed") now b.history,
)
step-IsConsistent b (resets now) v = record {
  recorded = last_state-record_event closed closed "manual reset" now b.history;
  timed = λ h. absurd (h refl);
  untimed = λ _. refl;
}

run_keeps : (b : CircuitBreaker) (cs : List Call) → IsConsistent b → IsConsistent (run b cs)
unfolding run
run_keeps b [] v = v
run_keeps b (c ∷ cs) v = run_keeps (step b c) cs (step-IsConsistent b c v)

-- After any history of calls on a new breaker the recorded events end in its present state, and a
-- trip time is kept exactly while the breaker is not closed.
pub run-IsConsistent :
    (cooldown : ℕ) (cs : List Call) → IsConsistent (run (new_breaker cooldown) cs)
unfolding new_breaker last_state
run-IsConsistent cooldown cs =
    run_keeps (new_breaker cooldown) cs
      (record { recorded = refl; timed = λ h. absurd (h refl); untimed = λ _. refl })
