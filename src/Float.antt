-- ===== src/Float.antt =====
-- Python's floats: the operations that the program makes on them, and the laws of IEEE 754
-- comparison that the theorems rely on. Nothing is assumed of the rounding of sums and products.
pub mod Int
pub mod Fixed
use project_alpha.Common.{
  ℕ, ◌≤◌, ◌≡◌, Bool, true, false, not, List, [], ◌∷◌, if◌then◌else◌, arith, inl, inr, Bool-cases,
}

-- `lit n k` is the literal n / 10^k: `lit 5 1` is 0.5. `round k x` is `round(x, k)`.
pub record Float {ℓ} (W : Type ℓ) : Type ℓ where
  pub lit : ℕ → ℕ → W
  pub add : W → W → W
  pub sub : W → W → W
  pub mul : W → W → W
  pub div : W → W → W
  pub neg : W → W
  pub abs : W → W
  pub round : ℕ → W → W
  pub lt : W → W → Bool
  pub le : W → W → Bool
  pub eq : W → W → Bool

module _ {ℓ} {W : Type ℓ} ⦃f : Float W⦄ where
  infixl 65 ◌+◌ ◌-◌
  infixl 70 ◌*◌ ◌/◌
  abbrev pub ◌+◌ : W → W → W
  ◌+◌ = f.add

  abbrev pub ◌-◌ : W → W → W
  ◌-◌ = f.sub

  abbrev pub ◌*◌ : W → W → W
  ◌*◌ = f.mul

  abbrev pub ◌/◌ : W → W → W
  ◌/◌ = f.div

  abbrev pub lit : ℕ → ℕ → W
  lit = f.lit

  abbrev pub neg : W → W
  neg = f.neg

  abbrev pub abs : W → W
  abs = f.abs

  abbrev pub round : ℕ → W → W
  round = f.round

  -- `x < y`, `x <= y`, `x == y`; `>` and `>=` are these with the arguments exchanged.
  abbrev pub lt : W → W → Bool
  lt = f.lt

  abbrev pub le : W → W → Bool
  le = f.le

  abbrev pub eq : W → W → Bool
  eq = f.eq

  -- Python's `min(x, y)` and `max(x, y)` keep the first argument unless the second is better.
  unfoldable pub min : W → W → W
  min x y = if lt y x then y else x

  unfoldable pub max : W → W → W
  max x y = if lt x y then y else x

  -- `sum(xs)` adds from the left, beginning with 0.
  unfoldable pub sum_from : W → List W → W
  sum_from acc [] = acc
  sum_from acc (x ∷ xs) = sum_from (acc + x) xs

  unfoldable pub sum : List W → W
  unfolding sum_from
  sum xs = sum_from (lit 0 0) xs

  -- `max(xs, default=d)`
  pub max_from : W → List W → W
  unfolding max
  max_from best [] = best
  max_from best (x ∷ xs) = max_from (max best x) xs

  unfoldable pub max_or : W → List W → W
  unfolding max_from
  max_or d [] = d
  max_or d (x ∷ xs) = max_from x xs

  -- NaN is the value that is not `<=` itself.
  abbrev pub IsNumber : W → Type 0
  IsNumber x = le x x ≡ true

-- What IEEE 754 says of comparisons: each is false at NaN, and they are a total order elsewhere.
pub record IsOrdered {ℓ} (W : Type ℓ) ⦃f : Float W⦄ : Type ℓ where
  pub numbers_of_le : (x y : W) → le x y ≡ true → IsNumber x × IsNumber y
  pub numbers_of_lt : (x y : W) → lt x y ≡ true → IsNumber x × IsNumber y
  pub le_trans : (x y z : W) → le x y ≡ true → le y z ≡ true → le x z ≡ true
  pub le_total : (x y : W) → IsNumber x → IsNumber y → le x y ≡ false → le y x ≡ true
  pub lit_le : (m n : ℕ) → m ≤ n → le {W = W} (lit m 0) (lit n 0) ≡ true
  pub lt-eq-not-le : (x y : W) → IsNumber x → IsNumber y → lt x y ≡ not (le y x)

module _ {ℓ} {W : Type ℓ} ⦃f : Float W⦄ (o : IsOrdered W) where
  pub le_of_lt : (x y : W) → lt x y ≡ true → le x y ≡ true
  le_of_lt x y h =
      let (nx, ny) = o.numbers_of_lt x y h in
      o.le_total y x ny nx (ground (arith, o.lt-eq-not-le x y nx ny))

  pub le_of_not_lt : (x y : W) → IsNumber x → IsNumber y → lt x y ≡ false → le y x ≡ true
  le_of_not_lt x y nx ny h = ground (arith, o.lt-eq-not-le x y nx ny)

  pub not_lt_of_le : (x y : W) → le x y ≡ true → lt y x ≡ false
  not_lt_of_le x y h =
      let (nx, ny) = o.numbers_of_le x y h in ground (arith, o.lt-eq-not-le y x ny nx)

  pub not_le_of_lt : (x y : W) → lt x y ≡ true → le y x ≡ false
  not_le_of_lt x y h =
      let (nx, ny) = o.numbers_of_lt x y h in ground (arith, o.lt-eq-not-le x y nx ny)

  pub lt_of_le_of_lt : (x y z : W) → le x y ≡ true → lt y z ≡ true → lt x z ≡ true
  lt_of_le_of_lt x y z h k = elim (Bool-cases (lt x z)) [
    | inl e ↦ e
    | inr e ↦
        let (nx, _) = o.numbers_of_le x y h in
        let (_, nz) = o.numbers_of_lt y z k in
        let back = o.le_trans z x y (le_of_not_lt x z nx nz e) h in
        let refuted = not_le_of_lt y z k in cc
  ]

  pub lt_of_lt_of_le : (x y z : W) → lt x y ≡ true → le y z ≡ true → lt x z ≡ true
  lt_of_lt_of_le x y z h k = elim (Bool-cases (lt x z)) [
    | inl e ↦ e
    | inr e ↦
        let (nx, _) = o.numbers_of_lt x y h in
        let (_, nz) = o.numbers_of_le y z k in
        let back = o.le_trans y z x k (le_of_not_lt x z nx nz e) in
        let refuted = not_le_of_lt x y h in cc
  ]

  pub lt_irrefl : (x : W) → lt x x ≡ false
  lt_irrefl x = elim (Bool-cases (lt x x)) [
    | inl h ↦ let (nx, _) = o.numbers_of_lt x x h in ground (arith, o.lt-eq-not-le x x nx nx)
    | inr h ↦ h
  ]

  pub min_le_left : (x y : W) → IsNumber x → le (min x y) x ≡ true
  unfolding min
  min_le_left x y nx = ground (arith, le_of_lt y x)

  pub min_le_right : (x y : W) → IsNumber x → IsNumber y → le (min x y) y ≡ true
  unfolding min
  min_le_right x y nx ny = ground (arith, le_of_not_lt y x ny nx)

  pub max_ge_left : (x y : W) → IsNumber x → le x (max x y) ≡ true
  unfolding max
  max_ge_left x y nx = ground (arith, le_of_lt x y)

  pub max_ge_right : (x y : W) → IsNumber x → IsNumber y → le y (max x y) ≡ true
  unfolding max
  max_ge_right x y nx ny = ground (arith, le_of_not_lt x y nx ny)

  -- A value clamped as `max(lo, min(x, hi))` lies within its bounds.
  pub clamp_bounds :
      (lo hi x : W)
      → le lo hi ≡ true
      → IsNumber x
      → (le lo (max lo (min x hi)) ≡ true) × (le (max lo (min x hi)) hi ≡ true)
  unfolding min max
  clamp_bounds lo hi x h nx =
      let (nlo, nhi) = o.numbers_of_le lo hi h in
      ground (arith, le_of_lt lo hi, le_of_lt lo x, le_of_lt hi x, le_of_not_lt hi x nhi nx)
