-- ===== src/Examples/Risk.antt =====
-- The theorems on aitos/risk at concrete inputs.
use mathlib.Core.List.{Perm}
use project_alpha.Common.{◌≡◌, refl, ◌↔◌, true, false, some, [], ◌∷◌, arith}
use project_alpha.Float.Int.{ℤ}
use project_alpha.Float.{round, le, min, max, ◌*◌ as mul}
use project_alpha.Float.Fixed.{fixed-IsOrdered, fixed}
use project_alpha.Risk.Breaker.{new_breaker, open_state, trip, is_trading_allowed}
use project_alpha.Risk.Breaker.Safety.{
  trips, attempts, probes, resets, run, trip_pauses_trading, IsConsistent, run-IsConsistent,
}
use project_alpha.Risk.Models.{
  PositionSizeResult, fields_in_range, defaults_within_hard_caps, default_limits, positive_fields,
  capped_pairs,
}
use project_alpha.Risk.Limits.{check_limits, absolute_hard_cap_breaches}
use project_alpha.Risk.Limits.Laws.{
  hard_only, hard_only-check_limits, WithinDefaults, check_limits-nil,
}
use project_alpha.Risk.Engine.{breaker_is, stop, veto}
use project_alpha.Risk.Engine.Laws.{stop_keeps_veto, recovers, assesses, engine_run}
use project_alpha.Risk.Sizing.{
  calculate_adaptive_leverage, damped_leverage, calculate_position_size, capped,
  available_sector_notional, request_leverage, request_risk, uncapped_size, risk_amount,
  damped_risk, kelly_scaled, sector_capped,
}
use project_alpha.Risk.Sizing.Laws.{position_size_caps}
use project_alpha.Examples.Data.{whole, limits, portfolio, breaker, engine, request}

trip_pauses_trading_example :
    is_trading_allowed (
      run
        (trip breaker "drawdown" 100)
        (attempts 500 501 ∷ probes true "" 600 ∷ trips "again" 700 ∷ []))
    ≡ false
unfolding new_breaker
trip_pauses_trading_example =
    trip_pauses_trading breaker "drawdown" 100
      (attempts 500 501 ∷ probes true "" 600 ∷ trips "again" 700 ∷ [])
      (omega arith, (tt, (omega arith, tt)))

run-IsConsistent_example :
    IsConsistent
      (run (new_breaker 900) (trips "drawdown" 100 ∷ attempts 1_000 1_001 ∷ resets 1_200 ∷ []))
run-IsConsistent_example =
    run-IsConsistent 900 (trips "drawdown" 100 ∷ attempts 1_000 1_001 ∷ resets 1_200 ∷ [])

hard_only-check_limits_example :
    Perm
      (hard_only (check_limits (portfolio 20_000) limits))
      (absolute_hard_cap_breaches (portfolio 20_000) limits)
hard_only-check_limits_example = hard_only-check_limits (portfolio 20_000) limits

check_limits-nil_example :
    (check_limits (portfolio 10_000) limits ≡ []) ↔ WithinDefaults (portfolio 10_000) limits
unfolding fields_in_range defaults_within_hard_caps default_limits positive_fields capped_pairs
check_limits-nil_example = check_limits-nil fixed-IsOrdered (portfolio 10_000) limits refl refl

stop_keeps_veto_example :
    veto (
      engine_run
        (λ _. "stop")
        (stop engine "manual" 100)
        (assesses (portfolio 20_000) 200 ∷ recovers 900 901 ∷ []))
    ≡ some (breaker_is open_state)
unfolding new_breaker
stop_keeps_veto_example =
    stop_keeps_veto (λ _. "stop") engine "manual" 100
      (assesses (portfolio 20_000) 200 ∷ recovers 900 901 ∷ []) (omega arith, (omega arith, tt))

-- The size that the sector limit leaves.
abbrev sized : PositionSizeResult ℤ
sized = record { position_size_usd = whole 1_500; leverage = whole 10; risk_amount_usd = whole 100 }

position_size_caps_example :
    let x = capped (available_sector_notional request (whole 20)) (
      capped
        (mul request.equity_usd (request_leverage request))
        (uncapped_size request (whole 1))) in
    (sized.position_size_usd ≡ round 2 x)
    × (le x (mul request.equity_usd sized.leverage) ≡ true)
    × (le x (available_sector_notional request (whole 20)) ≡ true)
unfolding calculate_position_size request_risk request_leverage uncapped_size
    available_sector_notional risk_amount damped_risk kelly_scaled sector_capped
    calculate_adaptive_leverage damped_leverage default_limits min max
position_size_caps_example =
    position_size_caps fixed-IsOrdered request (whole 20) (whole 1) {s = sized} refl refl refl refl
      refl refl
