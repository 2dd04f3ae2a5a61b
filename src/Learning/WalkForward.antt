-- ===== src/Learning/WalkForward.antt =====
-- aitos/learning/walk_forward.py. An instant is a number of microseconds after a first midnight;
-- the lengths in days are not negative, and no instant comes before the first. The loop over
-- the windows runs on fuel. The engine's run is that of the backtest engine.
pub mod Windows
pub mod Verdict
use Prim.Native.String.{String}
use mathlib.Core.Option
use project_alpha.Common.{
  ℕ, zero, suc, ◌+◌, ◌-◌, ◌*◌, Bool, true, false, not, ◌&&◌, ◌||◌, Option, none, some, List, [],
  ◌∷◌, length, select, leb, ltb, if◌then◌else◌, Result, ok, err, ◌>>=◌,
}
use project_alpha.Common.Sort.{sort_by}
use project_alpha.Float.{Float, lit, lt}
use project_alpha.Backtest.Engine.{BacktestResult}

pub record TestWindow : Type 0 where
  pub train_start : ℕ
  pub train_end : ℕ
  pub test_start : ℕ
  pub test_end : ℕ

pub record WindowResult (W : Type 0) : Type 0 where
  pub window : TestWindow
  pub result : BacktestResult W

pub record WalkForwardResult (W : Type 0) : Type 0 where
  pub windows : List (WindowResult W)
  pub locked_holdout : Option (BacktestResult W)
  pub passed : Bool
  pub reason : String

-- `timedelta(days=1)`
abbrev pub day : ℕ
day = 86_400_000_000

pub record Schedule : Type 0 where
  pub start : ℕ
  pub end_at : ℕ
  pub train_days : ℕ
  pub test_days : ℕ
  pub holdout_days : ℕ

abbrev pub last_test_end : Schedule → ℕ
last_test_end s = s.end_at - s.holdout_days * day

abbrev pub window_at : Schedule → ℕ → TestWindow
window_at s cursor = record {
  train_start = cursor - s.train_days * day;
  train_end = cursor;
  test_start = cursor;
  test_end = cursor + s.test_days * day;
}

-- The windows of the `while` loop, from a cursor; `none` when the fuel is used up.
pub windows_from : ℕ → Schedule → ℕ → Option (List TestWindow)
windows_from zero s cursor = none
windows_from (suc fuel) s cursor =
    let rest = windows_from fuel s (cursor + s.test_days * day) in
    if leb (cursor + s.test_days * day) (last_test_end s)
    then Option.map (λ ws. window_at s cursor ∷ ws) rest
    else some []

unfoldable pub test_windows : ℕ → Schedule → Option (List TestWindow)
unfolding windows_from
test_windows fuel s = windows_from fuel s (s.start + s.train_days * day)

module _ {E : Type 0} (timestamp : E → ℕ) where
  -- `_window`
  abbrev pub events_between : ℕ → ℕ → List E → List E
  events_between start end_at events =
      select (λ e. leb start (timestamp e) && ltb (timestamp e) end_at) events

  module _ {W R : Type 0} (run : List E → Result R (BacktestResult W)) where
    -- The body of the loop: a window without events is passed over.
    pub evaluate_windows : List E → List TestWindow → Result R (List (WindowResult W))
    evaluate_windows ordered [] = ok []
    evaluate_windows ordered (w ∷ ws) =
        let later = evaluate_windows ordered ws in
        let events = events_between w.test_start w.test_end ordered in
        elim events [
          | [] ↦ later
          | e ∷ es ↦ do
            result ← run (e ∷ es)
            results ← later
            ok (record { window = w; result = result } ∷ results)
        ]

    unfoldable pub evaluate_holdout : Schedule → List E → Result R (Option (BacktestResult W))
    evaluate_holdout s ordered = elim (events_between (last_test_end s) s.end_at ordered) [
      | [] ↦ ok none
      | e ∷ es ↦ run (e ∷ es) >>= λ r. ok (some r)
    ]

module _ {W : Type 0} ⦃f : Float W⦄ where
  abbrev pub is_positive : BacktestResult W → Bool
  is_positive r = lt (lit 0 0) r.metrics.total_return

  abbrev pub holdout_passes : Option (BacktestResult W) → Bool
  holdout_passes none = true
  holdout_passes (some r) = is_positive r

  abbrev pub is_nonempty : List (WindowResult W) → Bool
  is_nonempty [] = false
  is_nonempty (w ∷ ws) = true

  abbrev pub positive_windows : List (WindowResult W) → ℕ
  positive_windows ws = length (select (λ w. is_positive w.result) ws)

  unfoldable pub verdict :
      ℕ → List (WindowResult W) → Option (BacktestResult W) → WalkForwardResult W
  verdict min_positive_windows windows holdout =
      let passed =
        is_nonempty windows
        && leb min_positive_windows (positive_windows windows)
        && holdout_passes holdout in
      record {
        windows = windows;
        locked_holdout = holdout;
        passed = passed;
        reason =
            if passed
            then "walk-forward and locked holdout passed"
            else "candidate failed walk-forward/holdout requirements";
      }

  module _ {E R : Type 0} (timestamp : E → ℕ) (run : List E → Result R (BacktestResult W)) where
    unfoldable pub evaluate_ordered :
        ℕ → Schedule → List TestWindow → List E → Result R (WalkForwardResult W)
    unfolding evaluate_windows evaluate_holdout verdict
    evaluate_ordered min_positive_windows s windows ordered = do
      results ← evaluate_windows timestamp run ordered windows
      holdout ← evaluate_holdout timestamp run s ordered
      ok (verdict min_positive_windows results holdout)

    -- `evaluate`; it gives `none` when the fuel is used up.
    unfoldable pub evaluate : ℕ → ℕ → Schedule → List E → Option (Result R (WalkForwardResult W))
    unfolding evaluate_ordered test_windows
    evaluate fuel min_positive_windows s events =
        Option.map
          (λ windows. evaluate_ordered min_positive_windows s windows (sort_by timestamp events))
          (test_windows fuel s)
