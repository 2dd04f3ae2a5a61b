-- ===== src/Risk/Engine/Laws.antt =====
-- When the engine stops trading, and what its veto then says.
use Prim.Native.String.{String}
use project_alpha.Common.{
  ℕ, ◌+◌, ◌≤◌, ◌<◌, ◌≡◌, refl, ◌≢◌, ◌↔◌, ◌⊎◌, inl, inr, true, Option, none, some, List, [], ◌∷◌,
  ◌++◌, All, arith, Bool-cases,
}
use project_alpha.Float.{
  Float, IsOrdered, IsNumber, lit, le, ◌*◌, ◌/◌, clamp_bounds, lt_of_lt_of_le,
}
use project_alpha.Risk.Breaker.{open_state, is_trading_allowed, trip}
use project_alpha.Risk.Breaker.Safety.{trips, attempts, IsPaused, step, step-IsPaused}
use project_alpha.Risk.Models.{
  RiskAction, normal, reduce_size, no_new_entries, emergency_stop, PortfolioState, LimitBreach,
}
use project_alpha.Risk.Limits.{absolute_hard_cap_breaches}
use project_alpha.Risk.Score.{pct_of_limit, action_for_score}
use project_alpha.Risk.Engine.{
  RiskEngine, StopReason, score_above, hard_cap_breach, breaker_is, score_update, emergency_stopped,
  breakdown_of, total_score, stop, stop_if, assess, attempt_recovery, trigger_emergency_stop, veto,
}

-- The actions in the order of their severity.
abbrev pub severity : RiskAction → ℕ
severity normal = 0
severity reduce_size = 1
severity no_new_entries = 2
severity emergency_stop = 3

module _ {W : Type 0} ⦃f : Float W⦄ (o : IsOrdered W) where
  -- A higher risk score never leads to a milder action.
  action_for_score_mono :
      (x y : W) → le x y ≡ true → severity (action_for_score x) ≤ severity (action_for_score y)
  unfolding action_for_score
  action_for_score_mono x y h = ground (
    arith,
    lt_of_lt_of_le o (lit 95 0) x y,
    lt_of_lt_of_le o (lit 85 0) x y,
    lt_of_lt_of_le o (lit 70 0) x y,
  )

  -- A utilisation score lies between 0 and 100, whenever the ratio that it clamps is a number.
  pct_of_limit_bounds :
      (value limit : W)
      → IsNumber (value / limit * lit 100 0)
      → (le (lit 0 0) (pct_of_limit value limit) ≡ true)
        × (le (pct_of_limit value limit) (lit 100 0) ≡ true)
  unfolding pct_of_limit
  pct_of_limit_bounds value limit n = ground (
    arith,
    clamp_bounds o (lit 0 0) (lit 100 0) (value / limit * lit 100 0),
    o.lit_le 0 100,
    o.lit_le 100 100,
  )

module _ {W : Type 0} ⦃f : Float W⦄ where
  -- Why an assessment must stop trading: an emergency score first, or else the first breach of an
  -- absolute hard cap.
  abbrev pub IsStopReason : RiskEngine W → PortfolioState W → StopReason W → Type 0
  IsStopReason e p r =
      (((breakdown_of p e.limits).action ≡ emergency_stop)
        × (r ≡ score_above (total_score p e.limits)))
      ⊎ (((breakdown_of p e.limits).action ≢ emergency_stop)
          × ((b : LimitBreach W) × (bs : List (LimitBreach W)) × (absolute_hard_cap_breaches p
                  e.limits
                ≡ b ∷ bs)
              × (r ≡ hard_cap_breach b)))

  abbrev pub IsCalm : RiskEngine W → PortfolioState W → Type 0
  IsCalm e p =
      ((breakdown_of p e.limits).action ≢ emergency_stop)
      × (absolute_hard_cap_breaches p e.limits ≡ [])

  -- How an assessment that leaves the engine `e'` ends.
  abbrev pub IsStopped :
      (StopReason W → String) → RiskEngine W → PortfolioState W → ℕ → RiskEngine W → Type 0
  IsStopped render e p now e' =
      (r : StopReason W) × IsStopReason e p r
      × (e'.circuit_breaker ≡ trip e.circuit_breaker (render r) now)
      × (e'.published
          ≡ (e.published ++ score_update (breakdown_of p e.limits) ∷ [])
            ++ emergency_stopped (render r) open_state ∷ [])
      × (veto e' ≡ some (breaker_is open_state))

  abbrev pub IsPassed : RiskEngine W → PortfolioState W → RiskEngine W → Type 0
  IsPassed e p e' =
      IsCalm e p
      × (e'.circuit_breaker ≡ e.circuit_breaker)
      × (e'.published ≡ e.published ++ score_update (breakdown_of p e.limits) ∷ [])
      × ((veto e' ≡ none) ↔ (
          (e.circuit_breaker.state ≢ open_state)
          × (((breakdown_of p e.limits).action ≡ normal)
              ⊎ ((breakdown_of p e.limits).action ≡ reduce_size))))

-- The calls that can move the engine's breaker, with the clock readings that they make.
pub data EngineCall (W : Type 0) : Type 0 where
  assesses : PortfolioState W → ℕ → EngineCall W
  stops : String → ℕ → EngineCall W
  recovers : ℕ → ℕ → EngineCall W

-- A call that raises leaves the engine as it was.
abbrev pub kept :
    {W : Type 0} {A : Type 0} → RiskEngine W → Option (A × RiskEngine W) → RiskEngine W
kept e none = e
kept e (some (a, e')) = e'

abbrev pub kept_engine : {W : Type 0} → RiskEngine W → Option (RiskEngine W) → RiskEngine W
kept_engine e none = e
kept_engine e (some e') = e'

-- Calls at or after `t`, those that try to recover before `t + cooldown`.
abbrev pub IsEarly : {W : Type 0} → ℕ → ℕ → EngineCall W → Type 0
IsEarly t cooldown (assesses p now) = t ≤ now
IsEarly t cooldown (stops reason now) = t ≤ now
IsEarly t cooldown (recovers now later) = now < t + cooldown

module _ {W : Type 0} ⦃f : Float W⦄ (render : StopReason W → String) where
  pub engine_step : RiskEngine W → EngineCall W → RiskEngine W
  engine_step e (assesses p now) = kept e (assess render e p now)
  engine_step e (stops reason now) = kept_engine e (trigger_emergency_stop e reason now)
  engine_step e (recovers now later) = kept e (attempt_recovery e now later)

  pub engine_run : RiskEngine W → List (EngineCall W) → RiskEngine W
  engine_run e [] = e
  engine_run e (c ∷ cs) = engine_run (engine_step e c) cs

  stop_if-IsPaused :
      (t cooldown : ℕ) (r : Option (StopReason W)) (now : ℕ) (e : RiskEngine W)
      → t ≤ now
      → IsPaused t cooldown e.circuit_breaker
      → IsPaused t cooldown (stop_if render r now e).circuit_breaker
  unfolding stop_if step
  stop_if-IsPaused t cooldown none now e h p = p
  stop_if-IsPaused t cooldown (some r) now e h p =
      step-IsPaused t cooldown e.circuit_breaker (trips (render r) now) h p

  engine_step-IsPaused :
      (t cooldown : ℕ) (e : RiskEngine W) (c : EngineCall W)
      → IsEarly t cooldown c
      → IsPaused t cooldown e.circuit_breaker
      → IsPaused t cooldown (engine_step e c).circuit_breaker
  unfolding engine_step assess trigger_emergency_stop attempt_recovery step
  engine_step-IsPaused t cooldown e (assesses x now) h p = elim (Bool-cases e.initialized) [
    | inl i ↦ rw i (stop_if-IsPaused t cooldown _ now _ h p)
    | inr i ↦ rw i p
  ]
  engine_step-IsPaused t cooldown e (stops reason now) h p = elim (Bool-cases e.initialized) [
    | inl i ↦ rw i (step-IsPaused t cooldown e.circuit_breaker (trips reason now) h p)
    | inr i ↦ rw i p
  ]
  engine_step-IsPaused t cooldown e (recovers now later) h p = elim (Bool-cases e.initialized) [
    | inl i ↦ rw i (step-IsPaused t cooldown e.circuit_breaker (attempts now later) h p)
    | inr i ↦ rw i p
  ]

  engine_run-IsPaused :
      (t cooldown : ℕ) (e : RiskEngine W) (cs : List (EngineCall W))
      → All (IsEarly t cooldown) cs
      → IsPaused t cooldown e.circuit_breaker
      → IsPaused t cooldown (engine_run e cs).circuit_breaker
  unfolding engine_run
  engine_run-IsPaused t cooldown e [] h p = p
  engine_run-IsPaused t cooldown e (c ∷ cs) h p =
      engine_run-IsPaused t cooldown (engine_step e c) cs h.1
        (engine_step-IsPaused t cooldown e c h.0 p)

  -- After an emergency stop at time `t` the engine refuses new entries through any sequence of
  -- assessments, further stops and recovery attempts, none before `t`, as long as each recovery is
  -- attempted before the cooldown has passed.
  pub stop_keeps_veto :
      (e : RiskEngine W) (reason : String) (t : ℕ) (cs : List (EngineCall W))
      → All (IsEarly t e.circuit_breaker.cooldown_seconds) cs
      → veto (engine_run (stop e reason t) cs) ≡ some (breaker_is open_state)
  unfolding veto is_trading_allowed stop trip
  stop_keeps_veto e reason t cs h =
      let paused =
        engine_run-IsPaused t e.circuit_breaker.cooldown_seconds (stop e reason t) cs h
          (record { is_open = refl; since = (t, refl, omega arith); same_cooldown = refl }) in
      rw paused.is_open
