-- ===== src/Learning/Pipeline.antt =====
-- `EvolutionEngine` of aitos/learning/evolution.py and `ContinualLearningPipeline` of
-- aitos/learning/pipeline.py. The values of a proposal's change are texts; of the artifact that is
-- registered, the fields that the registry reads.
pub mod Registered
use Prim.Native.String.{String}
use text.Mathlib.Text.{◌==◌ as str_eq}
use project_alpha.Common.{
  ℕ, Bool, true, false, not, ◌&&◌, ◌||◌, Option, none, some, List, [], ◌∷◌, if◌then◌else◌, Result,
  ok, err, ◌>>=◌, ◌>>◌, raise_if,
}
use project_alpha.Common.Text.{is_blank_text}
use project_alpha.Float.{Float}
use project_alpha.Backtest.Engine.{BacktestResult}
use project_alpha.Kernel.Governance.{is_given}
use project_alpha.Policy.Models.{ModelArtifact, ModelStatus, RegistryError, register}
use project_alpha.Learning.Validation.{ValidationPolicy, ValidationResult, evaluate_candidate}

pub record EvolutionProposal : Type 0 where
  pub model_name : String
  pub parent_version : String
  pub change_type : String
  pub change : List (String × String)
  pub rationale : String
  pub proposal_id : String

pub data ProposalError : Type 0 where
  target_not_new unsupported_change_type no_rationale empty_change : ProposalError

-- `change.get(key)`
abbrev pub change_at : String → List (String × String) → Option String
change_at key [] = none
change_at key ((k, v) ∷ rest) = if str_eq key k then some v else change_at key rest

abbrev pub target_version : EvolutionProposal → Option String
target_version p = change_at "target_version" p.change

abbrev pub is_target : String → Option String → Bool
is_target version none = false
is_target version (some target) = str_eq version target

-- `propose`: the proposer is the engine's, when it has one.
unfoldable pub propose :
    {X : Type 0}
    → Option (List X → EvolutionProposal)
    → List X
    → Result ProposalError (Option EvolutionProposal)
propose none experiences = ok none
propose (some proposer) [] = ok none
propose (some proposer) (x ∷ xs) =
    let p = proposer (x ∷ xs) in
    if is_target p.parent_version (target_version p) then err target_not_new else ok (some p)

abbrev pub is_supported : String → Bool
is_supported s =
    str_eq s "weight" || str_eq s "parameter" || str_eq s "rule" || str_eq s "architecture"

abbrev pub is_empty_change : List (String × String) → Bool
is_empty_change [] = true
is_empty_change (c ∷ cs) = false

unfoldable pub validate_proposal : EvolutionProposal → Result ProposalError (Unit {0})
validate_proposal p = do
  raise_if (not (is_supported p.change_type)) unsupported_change_type
  raise_if (is_blank_text p.rationale) no_rationale
  raise_if (is_empty_change p.change) empty_change

-- What an evaluation may raise: the proposal's errors, the engine's, and the registry's.
pub data PipelineError (R : Type 0) : Type 0 where
  invalid_proposal : ProposalError → PipelineError R
  run_failed : R → PipelineError R
  not_registered : RegistryError → PipelineError R

abbrev pub raised :
    {X A R : Type 0} → (X → PipelineError R) → Result X A → Result (PipelineError R) A
raised tag (ok a) = ok a
raised tag (err e) = err (tag e)

pub record EvolutionEvaluation (W : Type 0) : Type 0 where
  pub proposal : EvolutionProposal
  pub validation : ValidationResult W
  pub artifact : Option ModelArtifact

-- `candidate_version or proposal.change.get("target_version")`
abbrev pub version_of : EvolutionProposal → Option String → Option String
version_of p candidate_version =
    if is_given candidate_version then candidate_version else target_version p

unfoldable pub artifact_of : EvolutionProposal → String → ModelArtifact
artifact_of p version = record {
  name = p.model_name;
  version = version;
  kind = p.change_type;
  status = ModelStatus.candidate;
}

-- `if validation.passed and version`
unfoldable pub register_if_passed :
    {R W : Type 0}
    → EvolutionProposal
    → Option String
    → ValidationResult W
    → List ModelArtifact
    → Result (PipelineError R) (EvolutionEvaluation W × List ModelArtifact)
unfolding artifact_of
register_if_passed p none v rows =
    ok (record { proposal = p; validation = v; artifact = none }, rows)
register_if_passed p (some version) v rows =
    let a = artifact_of p version in
    if v.passed && not (str_eq version "")
    then (raised not_registered (register rows a) >>= λ rows'.
        ok (record { proposal = p; validation = v; artifact = some a }, rows'))
    else ok (record { proposal = p; validation = v; artifact = none }, rows)

module _ {W : Type 0} ⦃f : Float W⦄ where
  module _ {E R : Type 0} (timestamp : E → ℕ) (run : List E → Result R (BacktestResult W)) where
    -- `evaluate_proposal` on the rows of the registry; a call that raises writes nothing. It
    -- gives `none` when the fuel of the walk-forward windows is used up.
    unfoldable pub evaluate_proposal :
        ℕ
        → ValidationPolicy W
        → EvolutionProposal
        → List E
        → Option (BacktestResult W)
        → Option String
        → List ModelArtifact
        → Option (Result (PipelineError R) (EvolutionEvaluation W × List ModelArtifact))
    unfolding validate_proposal register_if_passed
    evaluate_proposal fuel policy p events champion candidate_version rows =
        elim (validate_proposal p) [
          | err e ↦ some (err (invalid_proposal e))
          | ok _ ↦ elim (evaluate_candidate timestamp run fuel policy events champion) [
            | none ↦ none
            | some r ↦ some (
                raised run_failed r >>= λ v.
                register_if_passed p (version_of p candidate_version) v rows)
          ]
        ]
