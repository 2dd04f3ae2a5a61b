-- ===== src/Examples/Kernel.antt =====
-- The theorems on the kernel's decisions at concrete inputs.
use project_alpha.Common.{
  ℕ, ◌-◌, ◌≡◌, refl, ◌⊎◌, ◌≢◌, map, if◌then◌else◌, true, none, some, List, [], ◌∷◌, length, ok,
}
use project_alpha.Float.{le, max, min, round}
use project_alpha.Float.Int.{ℤ, pos}
use project_alpha.Float.Fixed.{fixed}
use project_alpha.Kernel.Fusion.{
  DecisionFusionEngine, EvidenceFusionResult, Direction, number, no_number, fuse, Scores,
  normalize_direction,
}
use project_alpha.Kernel.Fusion.Outcome.{fuse-outcome, shown, scored, unscored, weighted_mean}
use project_alpha.Kernel.Decisions.{DecisionContext, BaseAgent, KernelState}
use project_alpha.Kernel.Memory.{new_memory, drop_first}
use project_alpha.Kernel.Memory.Bound.{remember_all, remember_all-newest}
use project_alpha.Examples.Data.{whole}

abbrev fusion : DecisionFusionEngine ℤ
fusion = record {
  weights = ("trend_strength", pos 6_000) ∷ ("volatility", pos 4_000) ∷ [];
  min_confidence = pos 6_000;
}

abbrev fused : EvidenceFusionResult ℤ
fused = record {
  direction = Direction.long;
  confidence = pos 8_000;
  contributions =
      record {
        source = "trend_strength";
        score = whole 8;
        weight = pos 6_000;
        weighted_score = pos 48_000;
      }
      ∷ [];
  missing_components = "volatility" ∷ [];
}

abbrev evidence : Scores ℤ
evidence = ("trend_strength", number (whole 8)) ∷ ("volatility", no_number) ∷ []

fuse-outcome_example :
    (d : Direction) × (normalize_direction " Buy" ≡ ok d)
    × (((d ≡ Direction.neutral)
          × (fused.direction ≡ Direction.neutral)
          × (fused.confidence ≡ whole 0)
          × (fused.contributions ≡ [])
          × (fused.missing_components ≡ map (λ w. w.0) fusion.weights))
        ⊎ ((d ≢ Direction.neutral)
            × (fused.contributions ≡ map shown (scored evidence fusion.weights))
            × (fused.missing_components ≡ unscored evidence fusion.weights)
            × (let c = weighted_mean (scored evidence fusion.weights) in
                (fused.confidence ≡ round 4 c)
                × (fused.direction
                    ≡ (if le fusion.min_confidence c then d else Direction.neutral)))))
unfolding fuse max min
fuse-outcome_example = fuse-outcome fusion " Buy" evidence {r = fused} refl

abbrev voter : BaseAgent ℤ
voter = record {
  module_id = 1;
  consensus_weight = whole 2;
  contribute_decision = λ c.
      some (record { agent_id = 1; confidence = pos 9_000; direction = "short"; rationale = "" });
}

abbrev kernel : KernelState ℤ
kernel = record {
  initialized = true;
  fusion_engine = fusion;
  policy_version = "baseline";
  agents =
      (1, voter)
      ∷ (2, record { module_id = 2; consensus_weight = whole 1; contribute_decision = λ c. none })
      ∷ [];
  world_state = record {
    active_symbols = [];
    risk_score = whole 0;
    regime = "unknown";
    registered_agents = 1 ∷ 2 ∷ [];
  };
}

abbrev context : DecisionContext ℤ
context = record { symbol = "BTCUSDT"; direction = none; component_scores = none }

abbrev items : List (ℕ × ℕ)
items = (5, 1) ∷ (6, 2) ∷ (7, 3) ∷ []

remember_all-newest_example :
    (remember_all items (new_memory 2)).short_term ≡ drop_first (length items - 2) items
remember_all-newest_example = remember_all-newest 2 items
