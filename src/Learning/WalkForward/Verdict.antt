-- ===== src/Learning/WalkForward/Verdict.antt =====
-- What a walk-forward evaluation that passes has shown of the candidate.
use project_alpha.Common.{
  ℕ, ◌≤◌, ◌≡◌, ◌≢◌, arith, true, ◌⊎◌, inl, inr, some, Option, List, [], ◌∷◌, All, ok, Result,
  Option-cases, Result-cases, List-cases, cons-ne-nil,
}
use project_alpha.Common.Sort.{sort_by}
use project_alpha.Float.{Float}
use project_alpha.Backtest.Engine.{BacktestResult}
use project_alpha.Learning.WalkForward.{
  TestWindow, WindowResult, WalkForwardResult, Schedule, last_test_end, events_between,
  evaluate_windows, evaluate_holdout, evaluate_ordered, evaluate, verdict, is_positive,
  positive_windows, test_windows, holdout_passes, is_nonempty,
}

module _ {E W R : Type 0} (timestamp : E → ℕ) (run : List E → Result R (BacktestResult W)) where
  -- The result is that of a run over the events of the window's test, of which there is one.
  abbrev pub IsTested : List E → WindowResult W → Type 0
  IsTested ordered w =
      let events = events_between timestamp w.window.test_start w.window.test_end ordered in
      (events ≢ []) × (run events ≡ ok w.result)

  evaluate_windows-IsTested :
      (ordered : List E) (ws : List TestWindow) {rs : List (WindowResult W)}
      → evaluate_windows timestamp run ordered ws ≡ ok rs
      → All (IsTested ordered) rs
  unfolding evaluate_windows
  evaluate_windows-IsTested ordered [] {rs} e = let all : [] ≡ rs = cc in rw (← all) tt
  evaluate_windows-IsTested ordered (w ∷ ws) {rs} e =
      elim (List-cases (events_between timestamp w.test_start w.test_end ordered)) [
        | inl empty ↦ evaluate_windows-IsTested ordered ws (rw (evaluate_windows, empty) at e)
        | inr (x, xs, full) ↦ elim (Result-cases (run (x ∷ xs))) [
          | inr (r, fails) ↦
              let k = rw (evaluate_windows, full, fails) at e in absurd (ground arith)
          | inl (r, gives) ↦ elim (Result-cases (evaluate_windows timestamp run ordered ws)) [
            | inr (r, fails) ↦
                let k = rw (evaluate_windows, full, gives, fails) at e in absurd (ground arith)
            | inl (later, found) ↦
                let k = rw (evaluate_windows, full, gives, found) at e in
                let one : WindowResult W = record { window = w; result = r } in
                let all : one ∷ later ≡ rs = cc in
                let ran : IsTested ordered one = rw full (cons-ne-nil x xs, gives) in
                rw (← all) (ran, evaluate_windows-IsTested ordered ws found)
          ]
        ]
      ]

  module _ ⦃f : Float W⦄ where
    -- There is no event in the holdout, or the run over those that are there is positive.
    abbrev pub PassesHoldout : Schedule → List E → Type 0
    PassesHoldout s ordered =
        let events = events_between timestamp (last_test_end s) s.end_at ordered in
        (events ≡ []) ⊎ ((r : BacktestResult W) × (run events ≡ ok r) × (is_positive r ≡ true))

    evaluate_holdout-passes :
        (s : Schedule) (ordered : List E) {h : Option (BacktestResult W)}
        → evaluate_holdout timestamp run s ordered ≡ ok h
        → holdout_passes h ≡ true
        → PassesHoldout s ordered
    unfolding evaluate_holdout
    evaluate_holdout-passes s ordered {h} e passes =
        elim (List-cases (events_between timestamp (last_test_end s) s.end_at ordered)) [
          | inl empty ↦ inl empty
          | inr (x, xs, full) ↦ elim (Result-cases (run (x ∷ xs))) [
            | inr (r, fails) ↦
                let k = rw (evaluate_holdout, full, fails) at e in absurd (ground arith)
            | inl (r, gives) ↦
                let k = rw (evaluate_holdout, full, gives) at e in
                let all : some r ≡ h = cc in
                let p = rw (← all) at passes in inr (r, rw full gives, p)
          ]
        ]

    is_nonempty-ne : (ws : List (WindowResult W)) → is_nonempty ws ≡ true → ws ≢ []
    is_nonempty-ne [] h e = ground arith
    is_nonempty-ne (w ∷ ws) h e = cons-ne-nil w ws e

    evaluate_ordered-passed :
        (m : ℕ) (s : Schedule) (windows : List TestWindow) (ordered : List E)
        {r : WalkForwardResult W}
        → evaluate_ordered timestamp run m s windows ordered ≡ ok r
        → r.passed ≡ true
        → All (IsTested ordered) r.windows
          × (r.windows ≢ [])
          × (m ≤ positive_windows r.windows)
          × PassesHoldout s ordered
    unfolding evaluate_ordered verdict
    evaluate_ordered-passed m s windows ordered {r} e passed =
        elim (Result-cases (evaluate_windows timestamp run ordered windows)) [
          | inr (r, fails) ↦ let k = rw fails at e in absurd (ground arith)
          | inl (results, found) ↦ elim (Result-cases (evaluate_holdout timestamp run s ordered)) [
            | inr (r, fails) ↦ let k = rw (found, fails) at e in absurd (ground arith)
            | inl (h, held) ↦
                let k = rw (found, held) at e in
                let all : verdict m results h ≡ r = cc in
                let p = rw (← all) at passed in
                let tested = evaluate_windows-IsTested ordered windows found in
                rw (← all) (
                  tested,
                  is_nonempty-ne results (ground arith),
                  ground arith,
                  evaluate_holdout-passes s ordered held (ground arith),
                )
          ]
        ]

    -- An evaluation that ends and says that the candidate passed: at least one window, and at
    -- least as many positive ones as asked for; every result is that of a run on the events of
    -- its window's test alone, and there are some; and a run on the events of the holdout, if it
    -- has any, is positive.
    pub evaluate-passed :
        (fuel m : ℕ) (s : Schedule) (events : List E) {r : WalkForwardResult W}
        → evaluate timestamp run fuel m s events ≡ some (ok r)
        → r.passed ≡ true
        → All (IsTested (sort_by timestamp events)) r.windows
          × (r.windows ≢ [])
          × (m ≤ positive_windows r.windows)
          × PassesHoldout s (sort_by timestamp events)
    unfolding evaluate
    evaluate-passed fuel m s events {r} e passed = elim (Option-cases (test_windows fuel s)) [
      | inl out ↦ let k = rw out at e in absurd (ground arith)
      | inr (windows, found) ↦
          let k = rw found at e in
          let done : evaluate_ordered timestamp run m s windows (sort_by timestamp events) ≡ ok r =
            ground arith in
          evaluate_ordered-passed m s windows (sort_by timestamp events) done passed
    ]
