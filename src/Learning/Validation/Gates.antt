-- ===== src/Learning/Validation/Gates.antt =====
-- What a candidate has shown that the validator passes.
use project_alpha.Common.{
  ℕ, ◌≡◌, refl, sym, ap, if_of_true, if_of_false, ◌∙◌, arith, true, false, ◌⊎◌, inl, inr, none,
  some, Option, List, [], ◌∷◌, ok, Result, Bool-cases, Option-cases, Result-cases, ltb, leb,
}
use project_alpha.Common.Sort.{sort_by}
use project_alpha.Float.{Float, lt}
use project_alpha.Backtest.Engine.{BacktestResult}
use project_alpha.Learning.WalkForward.{WalkForwardResult, evaluate}
use project_alpha.Learning.Validation.{
  ValidationPolicy, ValidationResult, failed_gate, fails_to_improve, walk_forward_gate,
  evaluate_candidate, schedule_of, midnight, latest, earliest, judged, failed, succeeded, gates,
}

module _ {W : Type 0} ⦃f : Float W⦄ where
  -- Every gate on the metrics is passed.
  abbrev pub PassesGates :
      ValidationPolicy W → BacktestResult W → Option (BacktestResult W) → Type 0
  PassesGates p c champion =
      (lt c.metrics.total_return p.min_total_return ≡ false)
      × (lt p.max_drawdown c.metrics.max_drawdown ≡ false)
      × (lt c.metrics.sharpe p.min_sharpe ≡ false)
      × (ltb c.metrics.trades p.min_trades ≡ false)
      × (fails_to_improve p c champion ≡ false)

  failed_gate-none :
      (p : ValidationPolicy W) (c : BacktestResult W) (champion : Option (BacktestResult W))
      → failed_gate p c champion ≡ none
      → PassesGates p c champion
  unfolding failed_gate
  failed_gate-none p c champion e = ground arith

  module _ {E R : Type 0} (timestamp : E → ℕ) (run : List E → Result R (BacktestResult W)) where
    -- The walk-forward evaluation of the events, from the first to the end of the day of the
    -- last, has passed.
    abbrev pub PassesWalkForward : ℕ → ValidationPolicy W → List E → Type 0
    PassesWalkForward fuel p events =
        (first : E) × (rest : List E) × (w : WalkForwardResult W) × (events ≡ first ∷ rest)
        × (evaluate timestamp run fuel p.min_positive_windows (schedule_of timestamp p first rest)
              events
            ≡ some (ok w))
        × (w.passed ≡ true)

    judged-passed :
        (fuel : ℕ) (p : ValidationPolicy W) (champion : Option (BacktestResult W))
        {c : BacktestResult W} {v : ValidationResult W} (w : WalkForwardResult W) (x : E)
        (xs : List E)
        → evaluate timestamp run fuel p.min_positive_windows (schedule_of timestamp p x xs) (x ∷ xs)
          ≡ some (ok w)
        → judged c champion w ≡ v
        → v.passed ≡ true
        → PassesWalkForward fuel p (x ∷ xs) × (v.candidate ≡ c)
    judged-passed fuel p champion {c} {v} w x xs found all passed = elim (Bool-cases w.passed) [
      | inl good ↦
          let same : v.candidate ≡ c = rw (← all, good) refl in
          ((x, xs, w, refl, found, good), same)
      | inr bad ↦ let no = rw (← all, bad) at passed in absurd (ground arith)
    ]

    walk_forward_gate-passes :
        (fuel : ℕ) (p : ValidationPolicy W) (c : BacktestResult W)
        (champion : Option (BacktestResult W)) (events : List E) {v : ValidationResult W}
        → walk_forward_gate timestamp run fuel p c champion events ≡ some (ok v)
        → v.passed ≡ true
        → PassesWalkForward fuel p events × (v.candidate ≡ c)
    unfolding walk_forward_gate
    walk_forward_gate-passes fuel p c champion [] {v} e passed =
        let all : failed "no events available for walk-forward validation" c champion none ≡ v =
          cc in
        let k = rw (← all) at passed in absurd (ground arith)
    walk_forward_gate-passes fuel p c champion (x ∷ xs) {v} e passed =
        elim (Bool-cases (leb (midnight (latest timestamp x xs)) (earliest timestamp x xs))) [
          | inl short ↦
              let k = rw short at e in
              let all : failed "insufficient temporal span for walk-forward validation" c champion
                    none
                  ≡ v =
                cc in
              let no = rw (← all) at passed in absurd (ground arith)
          | inr long ↦
              let run_over =
                evaluate timestamp run fuel p.min_positive_windows (schedule_of timestamp p x xs)
                  (x ∷ xs) in
              elim (Option-cases run_over) [
                | inl out ↦ let k = rw (long, out) at e in absurd (ground arith)
                | inr (r, found) ↦ elim (Result-cases r) [
                  | inr (r', fails) ↦ let k = rw (long, found, fails) at e in absurd (ground arith)
                  | inl (w, gives) ↦
                      let k = rw (long, found, gives) at e in
                      let all : judged c champion w ≡ v = cc in
                      judged-passed fuel p champion w x xs (found ∙ ap some gives) all passed
                ]
              ]
        ]

    gates-pass :
        (fuel : ℕ) (p : ValidationPolicy W) (events : List E) (champion : Option (BacktestResult W))
        (c : BacktestResult W) {v : ValidationResult W}
        → gates timestamp run fuel p events champion c ≡ some (ok v)
        → v.passed ≡ true
        → (v.candidate ≡ c)
          × PassesGates p c champion
          × ((p.require_walk_forward ≡ false) ⊎ PassesWalkForward fuel p events)
    gates-pass fuel p events champion c {v} e passed =
        elim (Option-cases (failed_gate p c champion)) [
          | inr (reason, gate) ↦
              let k = rw (gates, gate) at e in
              let all : failed reason c champion none ≡ v = cc in
              let no = rw (← all) at passed in absurd (ground arith)
          | inl through ↦ elim (Bool-cases p.require_walk_forward) [
            | inl walks ↦
                let k = sym (if_of_true _ _ walks) ∙ (rw (gates, through) at e) in
                let (w, same) = walk_forward_gate-passes fuel p c champion events k passed in
                (same, failed_gate-none p c champion through, inr w)
            | inr skips ↦
                let k = sym (if_of_false _ _ skips) ∙ (rw (gates, through) at e) in
                let all : succeeded c champion none ≡ v = cc in
                (rw (← all) refl, failed_gate-none p c champion through, inl skips)
          ]
        ]

    -- A candidate that the validator passes: its result is that of the run over its events in the
    -- order of time, it passes every gate on the metrics, the comparison with the champion
    -- included, and, unless the policy asks for none, the walk-forward evaluation has passed.
    pub evaluate_candidate-passed :
        (fuel : ℕ) (p : ValidationPolicy W) (events : List E) (champion : Option (BacktestResult W))
        {v : ValidationResult W}
        → evaluate_candidate timestamp run fuel p events champion ≡ some (ok v)
        → v.passed ≡ true
        → (run (sort_by timestamp events) ≡ ok v.candidate)
          × PassesGates p v.candidate champion
          × ((p.require_walk_forward ≡ false) ⊎ PassesWalkForward fuel p (sort_by timestamp events))
    unfolding evaluate_candidate
    evaluate_candidate-passed fuel p events champion {v} e passed =
        elim (Result-cases (run (sort_by timestamp events))) [
          | inr (r, fails) ↦ let k = rw (evaluate_candidate, fails) at e in absurd (ground arith)
          | inl (c, gives) ↦
              let k = rw (evaluate_candidate, gives) at e in
              let (same, through, walked) =
                gates-pass fuel p (sort_by timestamp events) champion c k passed in
              (rw (gives, same) refl, rw same through, walked)
        ]
