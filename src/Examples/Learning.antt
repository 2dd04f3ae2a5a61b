-- ===== src/Examples/Learning.antt =====
-- The theorems on walk-forward evaluation and the learning pipeline at concrete inputs.
use Prim.Native.String.{String}
use project_alpha.Common.{
  ℕ, ◌+◌, ◌*◌, ◌≡◌, refl, ◌≢◌, ◌≤◌, ◌<◌, ◌↔◌, ◌⊎◌, true, false, none, some, List, [], ◌∷◌, ◌++◌,
  All, ok,
}
use project_alpha.Common.Sort.{sort_by}
use project_alpha.Float.Int.{ℤ}
use project_alpha.Float.Fixed.{fixed}
use project_alpha.Float.{max, sum}
use project_alpha.Common.Text.{is_blank_text}
use project_alpha.Backtest.Replay.{replay_events}
use project_alpha.Backtest.Simulator.{snapshot}
use project_alpha.Backtest.Engine.{metrics_of}
use project_alpha.Policy.Models.{ModelArtifact, champion, get_champion, register}
use project_alpha.Learning.WalkForward.{
  TestWindow, WalkForwardResult, Schedule, day, last_test_end, test_windows, evaluate,
  positive_windows,
}
use project_alpha.Learning.WalkForward.Windows.{
  AreUnseen, test_windows-ends_iff, test_windows-AreUnseen,
}
use project_alpha.Learning.WalkForward.Verdict.{IsTested, PassesHoldout, evaluate-passed}
use project_alpha.Learning.Validation.{
  ValidationPolicy, ValidationResult, evaluate_candidate, default_policy,
}
use project_alpha.Learning.Validation.Gates.{
  PassesGates, PassesWalkForward, evaluate_candidate-passed,
}
use project_alpha.Learning.Pipeline.{
  EvolutionProposal, EvolutionEvaluation, evaluate_proposal, artifact_of,
}
use project_alpha.Learning.Pipeline.Registered.{Registers, evaluate_proposal-Registers}
use project_alpha.Examples.Data.{ticks, test_run, steady_result, rising_result}

abbrev schedule : Schedule
schedule = record { start = 0; end_at = 3 * day; train_days = 1; test_days = 1; holdout_days = 1 }

abbrev window : TestWindow
window = record { train_start = 0; train_end = day; test_start = day; test_end = 2 * day }

test_windows-ends_iff_example :
    ((fuel : ℕ) × (ws : List TestWindow) × (test_windows fuel schedule ≡ some ws)) ↔ (
      (0 < schedule.test_days)
      ⊎ (last_test_end schedule < schedule.start + schedule.train_days * day))
test_windows-ends_iff_example = test_windows-ends_iff schedule

test_windows-AreUnseen_example : AreUnseen schedule (0 + 1 * day) (window ∷ [])
unfolding test_windows
test_windows-AreUnseen_example = test_windows-AreUnseen 2 schedule refl

abbrev evaluated : WalkForwardResult ℤ
evaluated = record {
  windows = record { window = window; result = rising_result } ∷ [];
  locked_holdout = some rising_result;
  passed = true;
  reason = "walk-forward and locked holdout passed";
}

evaluate-passed_example :
    All (IsTested (λ e. e.0) test_run (sort_by (λ e. e.0) ticks)) evaluated.windows
    × (evaluated.windows ≢ [])
    × (1 ≤ positive_windows evaluated.windows)
    × PassesHoldout (λ e. e.0) test_run schedule (sort_by (λ e. e.0) ticks)
unfolding evaluate test_run sort_by replay_events snapshot metrics_of max sum
evaluate-passed_example =
    evaluate-passed (λ e. e.0) test_run 2 1 schedule ticks {r = evaluated} refl refl

abbrev policy : ValidationPolicy ℤ
policy = record default_policy { min_trades = 0; train_days = 1; test_days = 1; holdout_days = 1 }

abbrev validated : ValidationResult ℤ
validated = record {
  passed = true;
  reason = "candidate passed backtest and validation gates";
  candidate = steady_result;
  champion = some rising_result;
  walk_forward = some evaluated;
}

evaluate_candidate-passed_example :
    (test_run (sort_by (λ e. e.0) ticks) ≡ ok validated.candidate)
    × PassesGates policy validated.candidate (some rising_result)
    × ((policy.require_walk_forward ≡ false)
        ⊎ PassesWalkForward (λ e. e.0) test_run 2 policy (sort_by (λ e. e.0) ticks))
unfolding evaluate_candidate test_run default_policy evaluate sort_by replay_events snapshot
    metrics_of max sum
evaluate_candidate-passed_example =
    evaluate_candidate-passed (λ e. e.0) test_run 2 policy ticks (some rising_result)
      {v = validated} refl refl

abbrev proposal : EvolutionProposal
proposal = record {
  model_name = "scorer";
  parent_version = "1";
  change_type = "weight";
  change = ("target_version", "2") ∷ [];
  rationale = "trend weight";
  proposal_id = "p1";
}

abbrev rows : List ModelArtifact
rows = record { name = "scorer"; version = "1"; kind = "weight"; status = champion } ∷ []

abbrev evaluation : EvolutionEvaluation ℤ
evaluation = record {
  proposal = proposal;
  validation = validated;
  artifact = some (artifact_of proposal "2");
}

evaluate_proposal-Registers_example :
    (evaluate_candidate (λ e. e.0) test_run 2 policy ticks (some rising_result)
      ≡ some (ok evaluation.validation))
    × Registers rows evaluation (rows ++ artifact_of proposal "2" ∷ [])
    × ((name : String)
        → get_champion name (rows ++ artifact_of proposal "2" ∷ []) ≡ get_champion name rows)
unfolding evaluate_proposal evaluate_candidate test_run default_policy evaluate is_blank_text
    register sort_by replay_events snapshot metrics_of max sum
evaluate_proposal-Registers_example =
    evaluate_proposal-Registers (λ e. e.0) test_run 2 policy proposal ticks (some rising_result)
      none rows {ev = evaluation} {rows' = rows ++ artifact_of proposal "2" ∷ []} refl
