-- ===== src/Float/Fixed.antt =====
-- Fixed-point numbers with four decimals: one instance of the float operations and laws, on which
-- the examples run. The value `pos 12500` stands for 1.25.
use project_alpha.Common.{ℕ, ◌*◌, ◌^◌, ◌/◌, ◌&&◌, arith, if◌then◌else◌}
use project_alpha.Float.Int.{ℤ, pos, ◌+ℤ◌, ◌-ℤ◌, ◌*ℤ◌, abs_ℤ, div_ℕ, leb_ℤ, ltb_ℤ}
use project_alpha.Float.{Float, IsOrdered}

abbrev pub scale : ℕ
scale = 10_000

abbrev pub div_ℤ : ℤ → ℤ → ℤ
div_ℤ a b = div_ℕ (if leb_ℤ (pos 0) b then a *ℤ pos scale else pos 0 -ℤ (a *ℤ pos scale)) (abs_ℤ b)

-- `round` keeps all four decimals.
instance abbrev pub fixed : Float ℤ
fixed = record {
  lit = λ n k. pos (n * scale / 10 ^ k);
  add = ◌+ℤ◌;
  sub = ◌-ℤ◌;
  mul = λ a b. div_ℕ (a *ℤ b) scale;
  div = div_ℤ;
  neg = λ a. pos 0 -ℤ a;
  abs = λ a. pos (abs_ℤ a);
  round = λ _ a. a;
  lt = ltb_ℤ;
  le = leb_ℤ;
  eq = λ a b. leb_ℤ a b && leb_ℤ b a;
}

pub fixed-IsOrdered : IsOrdered ℤ
fixed-IsOrdered = ground arith
