-- ===== src/Kernel/Decisions.antt =====
-- `AIKernel` of aitos/kernel/ai_kernel.py without its governance: policies, agents, the world state
-- and the decisions. Agents are listed by number; an agent's opinion is a parameter, which
-- may raise. Clock readings, and what an agent does with an event, are left out.
pub mod Tally
pub mod Voting
use Prim.Native.String.{String}
use text.Mathlib.Text.{◌==◌ as str_eq}
use project_alpha.Common.{
  ℕ, Bool, true, false, not, ◌&&◌, ◌||◌, Option, none, some, List, [], ◌∷◌, ◌++◌, map, any, select,
  Dict, lookup, insert, erase, contains, if◌then◌else◌, Result, ok, err, ◌>>=◌, ◌>>◌, raise_if,
}
use project_alpha.Float.{Float, ◌+◌, ◌*◌, ◌/◌, lit, lt, le, min, round}
use project_alpha.Policy.Governance.{ActivePolicy}
use project_alpha.Kernel.Fusion.{
  Scores, Weights, EvidenceContribution, EvidenceFusionResult, DecisionFusionEngine, FusionError,
  Direction, long, short, neutral, new_fusion_engine, fuse_context, is_neutral, is_nil,
}

pub record AgentDecision (W : Type 0) : Type 0 where
  pub agent_id : ℕ
  pub confidence : W
  pub direction : String
  pub rationale : String

-- What the kernel reads of a `DecisionContext`.
pub record DecisionContext (W : Type 0) : Type 0 where
  pub symbol : String
  pub direction : Option String
  pub component_scores : Option (Scores W)

pub record BaseAgent (W : Type 0) : Type 0 where
  pub module_id : ℕ
  pub consensus_weight : W
  -- `contribute_decision`; `none` when it raises.
  pub contribute_decision : DecisionContext W → Option (AgentDecision W)

pub record WorldState (W : Type 0) : Type 0 where
  pub active_symbols : List String
  pub risk_score : W
  pub regime : String
  pub registered_agents : List ℕ

pub record KernelState (W : Type 0) : Type 0 where
  pub initialized : Bool
  pub fusion_engine : DecisionFusionEngine W
  pub policy_version : String
  pub agents : Dict (BaseAgent W)
  pub world_state : WorldState W

pub data KernelFailure : Type 0 where
  module_not_initialized : KernelFailure
  fusion_error : FusionError → KernelFailure
  agent_not_registered : KernelFailure
  no_agents_and_no_evidence all_agents_failed : KernelFailure
  -- A decision under the identifier of no registered agent.
  unknown_agent : KernelFailure

-- Where a decision comes from: the fused evidence, or the agents' votes.
pub data Contributions (W : Type 0) : Type 0 where
  from_evidence : List (EvidenceContribution W) → List String → Contributions W
  from_agents : List (AgentDecision W) → Contributions W

-- The direction is a text when agents vote for it.
pub record FusedDecision (W : Type 0) : Type 0 where
  pub symbol : String
  pub direction : String
  pub confidence : W
  pub contributions : Contributions W
  -- The missing components, when too few support a direction, or the agents that voted otherwise.
  pub insufficient_evidence : List String
  pub conflicting : List (AgentDecision W)

abbrev pub text_of : Direction → String
text_of long = "long"
text_of short = "short"
text_of neutral = "neutral"

abbrev pub require_initialized : {W : Type 0} → KernelState W → Result KernelFailure (Unit {0})
require_initialized k = raise_if (not k.initialized) module_not_initialized

abbrev pub fusing : {A : Type 0} → Result FusionError A → Result KernelFailure A
fusing (ok a) = ok a
fusing (err e) = err (fusion_error e)

abbrev pub agent_ids : {W : Type 0} → Dict (BaseAgent W) → List ℕ
agent_ids agents = map (λ a. a.0) agents

abbrev pub with_agents : {W : Type 0} → Dict (BaseAgent W) → KernelState W → KernelState W
with_agents {W} agents k =
    let w = k.world_state in
    let world : WorldState W = record w { registered_agents = agent_ids agents } in
    record k { agents = agents; world_state = world }

unfoldable pub register_agent :
    {W : Type 0} → BaseAgent W → KernelState W → Result KernelFailure (KernelState W)
register_agent agent k =
    require_initialized k >> ok (with_agents (insert agent.module_id agent k.agents) k)

unfoldable pub deregister_agent :
    {W : Type 0} → ℕ → KernelState W → Result KernelFailure (KernelState W)
deregister_agent id k = do
  require_initialized k
  raise_if (not (contains id k.agents)) agent_not_registered
  ok (with_agents (erase id k.agents) k)

-- `shutdown`; what each agent does on it is left out.
abbrev pub shutdown_kernel : {W : Type 0} → KernelState W → KernelState W
shutdown_kernel k = record k { agents = [] }

-- What an event's payload has that the world state reads, and whether its topic starts with
-- `risk.score` or `regime.`.
pub record WorldEvent (W : Type 0) : Type 0 where
  pub is_risk_score : Bool
  pub is_regime : Bool
  pub symbol : Option String
  pub score : Option W
  pub regime : Option String

abbrev pub active_with : Option String → List String → List String
active_with none symbols = symbols
active_with (some s) symbols =
    if str_eq s "" || any (λ t. str_eq s t) symbols then symbols else symbols ++ s ∷ []

abbrev pub given_or : {A : Type 0} → Bool → A → Option A → A
given_or false d o = d
given_or true d none = d
given_or true d (some a) = a

-- `_update_world_state_from_event`
unfoldable pub update_world_state : {W : Type 0} → WorldEvent W → WorldState W → WorldState W
update_world_state e w = record w {
  active_symbols = active_with e.symbol w.active_symbols;
  risk_score = given_or e.is_risk_score w.risk_score e.score;
  regime = given_or e.is_regime w.regime e.regime;
}

module _ {W : Type 0} ⦃f : Float W⦄ where
  -- `apply_policy`; `reload_active_policy` does the same with the registry's active policy.
  unfoldable pub apply_policy :
      String → Weights W → W → KernelState W → Result KernelFailure (KernelState W)
  apply_policy version weights min_confidence k = do
    require_initialized k
    e ← fusing (new_fusion_engine (some weights) min_confidence)
    ok (record k { fusion_engine = e; policy_version = version })

  -- `initialize`: a kernel that is initialized stays as it is. When the policy is refused the call
  -- raises, and what it leaves is not modelled.
  unfoldable pub initialize_kernel :
      String → Weights W → W → KernelState W → Result KernelFailure (KernelState W)
  unfolding apply_policy
  initialize_kernel version weights min_confidence k =
      if k.initialized
      then ok k
      else apply_policy version weights min_confidence (record k { initialized = true })

  abbrev pub evidence_decision : String → EvidenceFusionResult W → FusedDecision W
  evidence_decision symbol r = record {
    symbol = symbol;
    direction = text_of r.direction;
    confidence = r.confidence;
    contributions = from_evidence r.contributions r.missing_components;
    insufficient_evidence = if is_neutral r.direction then r.missing_components else [];
    conflicting = [];
  }

  abbrev pub push_decision :
      Option (AgentDecision W) → List (AgentDecision W) → List (AgentDecision W)
  push_decision none ds = ds
  push_decision (some d) ds = d ∷ ds

  -- The decisions of the agents that do not raise.
  unfoldable pub collect_decisions : DecisionContext W → Dict (BaseAgent W) → List (AgentDecision W)
  collect_decisions c [] = []
  collect_decisions c ((id, agent) ∷ rest) =
      push_decision (agent.contribute_decision c) (collect_decisions c rest)

  -- `direction_scores[d] = direction_scores.get(d, 0.0) + x`
  pub add_score : String → W → List (String × W) → List (String × W)
  add_score d x [] = (d, lit 0 0 + x) ∷ []
  add_score d x ((k, s) ∷ rest) =
      if str_eq d k then (k, s + x) ∷ rest else (k, s) ∷ add_score d x rest

  -- The loop over the decisions: the scores by direction and the total weight.
  pub tally_votes :
      Dict (BaseAgent W)
      → List (AgentDecision W)
      → List (String × W)
      → W
      → Result KernelFailure (List (String × W) × W)
  unfolding add_score
  tally_votes agents [] scores total = ok (scores, total)
  tally_votes agents (d ∷ ds) scores total = elim (lookup d.agent_id agents) [
    | none ↦ err unknown_agent
    | some a ↦
        tally_votes agents ds (add_score d.direction (a.consensus_weight * d.confidence) scores)
          (total + a.consensus_weight)
  ]

  -- `max(direction_scores, key=direction_scores.get)`: the first of the greatest.
  pub best_from : String × W → List (String × W) → String × W
  best_from best [] = best
  best_from best (s ∷ rest) = best_from (if lt best.1 s.1 then s else best) rest

  abbrev pub first_scores : List (String × W)
  first_scores = ("long", lit 0 0) ∷ ("short", lit 0 0) ∷ ("neutral", lit 0 0) ∷ []

  abbrev pub winner : List (String × W) → String × W
  winner [] = ("", lit 0 0)
  winner (s ∷ rest) = best_from s rest

  unfoldable pub vote : String → List (AgentDecision W) → List (String × W) → W → FusedDecision W
  unfolding best_from
  vote symbol decisions scores total =
      let best = winner scores in
      let confidence = if lt (lit 0 0) total then best.1 / total else lit 0 0 in
      record {
        symbol = symbol;
        direction = best.0;
        confidence = round 4 (min confidence (lit 1 0));
        contributions = from_agents decisions;
        insufficient_evidence = [];
        conflicting = select (λ d. not (str_eq d.direction best.0)) decisions;
      }

  -- The part of `request_decision` without evidence.
  unfoldable pub ask_agents :
      DecisionContext W → KernelState W → Result KernelFailure (FusedDecision W)
  unfolding collect_decisions tally_votes vote
  ask_agents c k = do
    raise_if (is_nil k.agents) no_agents_and_no_evidence
    let decisions = collect_decisions c k.agents
    raise_if (is_nil decisions) all_agents_failed
    r ← tally_votes k.agents decisions first_scores (lit 0 0)
    ok (vote c.symbol decisions r.0 r.1)

  unfoldable pub request_decision :
      DecisionContext W → KernelState W → Result KernelFailure (FusedDecision W)
  unfolding ask_agents
  request_decision c k = do
    require_initialized k
    evidence ← fusing (fuse_context k.fusion_engine c.direction c.component_scores)
    elim evidence [ some r ↦ ok (evidence_decision c.symbol r) | none ↦ ask_agents c k ]
