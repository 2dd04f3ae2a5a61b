-- ===== src/Live/Filters/Steps.antt =====
-- Rounding to a step.
use native.Mathlib.Nat.{zero-div, div-mul-le_self, lt-div-mul-add}
use project_alpha.Common.{ℕ, ◌+◌, ◌-◌, ◌*◌, true, ◌/◌, ◌≤◌, ◌<◌, ◌≡◌, refl, arith, false, leb}
use project_alpha.Float.{Float, lit, le}
use project_alpha.Float.Int.{pos, ◌*ℤ◌}
use project_alpha.Live.Filters.{Decimals, whole_steps, round_to_step}

pos_times : (m k : ℕ) → pos m *ℤ pos k ≡ pos (m * k)
pos_times m k =
    let up : leb (m * 0 + 0 * k) (m * k + 0 * 0) ≡ true = ground arith in
    let product : m * k + 0 * 0 - (m * 0 + 0 * k) ≡ m * k = omega arith in rw (up, product) refl

whole_steps-pos : (n k : ℕ) → 0 < k → whole_steps (pos n) (pos k) ≡ pos (n / k * k)
unfolding whole_steps
whole_steps-pos n k h =
    let none_of : 0 / k ≡ 0 = zero-div k in
    let up : leb (0 / k) (n / k) ≡ true = ground (arith, none_of) in
    let count : n / k - 0 / k ≡ n / k = omega (arith, none_of) in
    rw (up, count) (pos_times (n / k) k)

module _ {W : Type 0} ⦃f : Float W⦄ (d : Decimals W) where
  -- A value and a step that are decimals n and k, in units, with k positive and the step not at or
  -- below 0 as a float: the rounded value is the float of the greatest multiple of k that is not
  -- above n.
  pub round_to_step-greatest :
      (value step : W) (n k : ℕ)
      → le step (lit 0 0) ≡ false
      → d.to_units value ≡ pos n
      → d.to_units step ≡ pos k
      → 0 < k
      → (m : ℕ) × (round_to_step d value step ≡ d.of_units (pos (m * k)))
        × (m * k ≤ n)
        × (n < m * k + k)
  unfolding round_to_step
  round_to_step-greatest value step n k positive vn sk some_units = (
    n / k,
    rw (positive, vn, sk, whole_steps-pos n k some_units) refl,
    div-mul-le_self n k,
    lt-div-mul-add some_units,
  )
