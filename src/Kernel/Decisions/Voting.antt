-- ===== src/Kernel/Decisions/Voting.antt =====
-- The vote of the agents.
use Prim.Native.String.{String}
use project_alpha.Common.{
  ◌≡◌, true, some, List, ◌∷◌, map, any, if◌then◌else◌, All, contains, Dict, select, not,
}
use text.Mathlib.Text.{◌==◌ as str_eq}
use project_alpha.Kernel.Decisions.Tally.{votes_for, total_weight}
use project_alpha.Float.{Float, ◌/◌, min, round, lit, lt, le}
use project_alpha.Kernel.Decisions.{
  AgentDecision, DecisionContext, BaseAgent, FusedDecision, from_agents,
}

module _ {W : Type 0} ⦃f : Float W⦄ where
  -- Every agent that answers does so under the identifier of a registered agent.
  abbrev pub AnswersAsRegistered :
      DecisionContext W → Dict (BaseAgent W) → Dict (BaseAgent W) → Type 0
  AnswersAsRegistered c agents asked =
      All
        (λ a.
          (d : AgentDecision W)
          → a.1.contribute_decision c ≡ some d
          → contains d.agent_id agents ≡ true)
        asked

  -- The directions that can win: the three of the start and those that were voted for.
  abbrev pub contenders : List (AgentDecision W) → List String
  contenders ds = "long" ∷ "short" ∷ "neutral" ∷ map (λ d. d.direction) ds

  -- A decision that was voted for: its direction is a contender, and no contender has more votes.
  -- Its confidence is the share of its votes in the weight of all that voted, at most 1. Every
  -- agent that answered contributes, and those in conflict are the ones that voted for something
  -- else.
  abbrev pub IsVoted : Dict (BaseAgent W) → List (AgentDecision W) → FusedDecision W → Type 0
  IsVoted agents ds r =
      let votes : W = votes_for agents ds r.direction in
      let weight : W = total_weight agents ds in
      (any (λ k. str_eq r.direction k) (contenders ds) ≡ true)
      × All (λ k. le (votes_for agents ds k) votes ≡ true) (contenders ds)
      × (r.confidence
          ≡ round 4 (min (if lt (lit 0 0) weight then votes / weight else lit 0 0) (lit 1 0)))
      × (r.contributions ≡ from_agents ds)
      × (r.conflicting ≡ select (λ d. not (str_eq d.direction r.direction)) ds)
