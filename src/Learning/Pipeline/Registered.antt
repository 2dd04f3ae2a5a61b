-- ===== src/Learning/Pipeline/Registered.antt =====
-- What the pipeline registers.
use Prim.Native.String.{String}
use text.Mathlib.Text.{◌==◌ as str_eq}
use project_alpha.Common.{
  ℕ, ◌≡◌, refl, sym, ap, ◌∙◌, arith, true, not, ◌&&◌, ◌⊎◌, inl, inr, none, some, Option, List, [],
  ◌∷◌, ◌++◌, ok, Result, Bool-cases, Option-cases, Result-cases, if_of_true, if_of_false,
}
use project_alpha.Float.{Float}
use project_alpha.Backtest.Engine.{BacktestResult}
use project_alpha.Policy.Models.{ModelArtifact, register, get_champion}
use project_alpha.Policy.Models.Champion.{get_champion-append}
use project_alpha.Learning.Validation.{ValidationPolicy, ValidationResult, evaluate_candidate}
use project_alpha.Learning.Pipeline.{
  EvolutionProposal, EvolutionEvaluation, validate_proposal, version_of, artifact_of,
  register_if_passed, evaluate_proposal,
}

register-append :
    (rows : List ModelArtifact) (a : ModelArtifact) {rows' : List ModelArtifact}
    → register rows a ≡ ok rows'
    → rows' ≡ rows ++ a ∷ []
unfolding register
register-append rows a e = ground arith

-- Nothing is registered, or the validation has passed and the artifact is the row that is added.
abbrev pub Registers :
    {W : Type 0} → List ModelArtifact → EvolutionEvaluation W → List ModelArtifact → Type 0
Registers rows ev rows' =
    ((ev.artifact ≡ none) × (rows' ≡ rows))
    ⊎ ((version : String) × (ev.validation.passed ≡ true)
        × (ev.artifact ≡ some (artifact_of ev.proposal version))
        × (rows' ≡ rows ++ artifact_of ev.proposal version ∷ []))

register_if_passed-Registers :
    {R W : Type 0} (p : EvolutionProposal) (version : Option String) (v : ValidationResult W)
    (rows : List ModelArtifact) {ev : EvolutionEvaluation W} {rows' : List ModelArtifact}
    → register_if_passed {R = R} p version v rows ≡ ok (ev, rows')
    → Registers rows ev rows' × (ev.validation ≡ v) × (ev.proposal ≡ p)
unfolding register_if_passed
register_if_passed-Registers {R} {W} p none v rows {ev} {rows'} e =
    (inl (ground arith, ground arith), ground arith, ground arith)
register_if_passed-Registers {R} {W} p (some version) v rows {ev} {rows'} e =
    let added : EvolutionEvaluation W = record {
      proposal = p;
      validation = v;
      artifact = some (artifact_of p version);
    } in
    let kept : EvolutionEvaluation W = record { proposal = p; validation = v; artifact = none } in
    elim (Bool-cases (v.passed && not (str_eq version ""))) [
      | inl passes ↦
          let k = sym (if_of_true _ _ passes) ∙ e in
          elim (Result-cases (register rows (artifact_of p version))) [
            | inl (rows'', done) ↦
                let k' = rw done at k in
                let same : added ≡ ev = cc in
                let as_added : rows'' ≡ rows' = cc in
                let good : v.passed ≡ true = ground arith in
                rw (← same, ← as_added)
                  (
                    inr (version, good, refl, register-append rows (artifact_of p version) done),
                    refl,
                    refl,
                  )
            | inr (r, fails) ↦ let k' = rw fails at k in absurd (ground arith)
          ]
      | inr fails ↦
          let k = sym (if_of_false _ _ fails) ∙ e in
          let same : kept ≡ ev = cc in
          let as_before : rows ≡ rows' = cc in
          rw (← same, ← as_before) (inl (refl, refl), refl, refl)
    ]

Registers-get_champion :
    {W : Type 0} (rows : List ModelArtifact) (ev : EvolutionEvaluation W)
    (rows' : List ModelArtifact) (name : String)
    → Registers rows ev rows'
    → get_champion name rows' ≡ get_champion name rows
unfolding artifact_of
Registers-get_champion rows ev rows' name (inl (none_new, same)) = rw same refl
Registers-get_champion rows ev rows' name (inr (version, good, new, added)) =
    rw added (get_champion-append name rows (artifact_of ev.proposal version) refl)

module _ {W : Type 0} ⦃f : Float W⦄ where
  module _ {E R : Type 0} (timestamp : E → ℕ) (run : List E → Result R (BacktestResult W)) where
    -- A proposal whose evaluation ends and does not raise: its validation is the validator's on
    -- the same events and champion; either nothing is registered, or the validation has passed
    -- and one row, a candidate, is added; and the champion of every name is what it was.
    pub evaluate_proposal-Registers :
        (fuel : ℕ) (policy : ValidationPolicy W) (p : EvolutionProposal) (events : List E)
        (champion : Option (BacktestResult W)) (version : Option String) (rows : List ModelArtifact)
        {ev : EvolutionEvaluation W} {rows' : List ModelArtifact}
        → evaluate_proposal timestamp run fuel policy p events champion version rows
          ≡ some (ok (ev, rows'))
        → (evaluate_candidate timestamp run fuel policy events champion ≡ some (ok ev.validation))
          × Registers rows ev rows'
          × ((name : String) → get_champion name rows' ≡ get_champion name rows)
    unfolding evaluate_proposal
    evaluate_proposal-Registers fuel policy p events champion version rows {ev} {rows'} e =
        elim (Result-cases (validate_proposal p)) [
          | inr (x, bad) ↦ let k = rw (evaluate_proposal, bad) at e in absurd (ground arith)
          | inl (u, valid) ↦
              elim (Option-cases (evaluate_candidate timestamp run fuel policy events champion)) [
                | inl out ↦ let k = rw (evaluate_proposal, valid, out) at e in absurd (ground arith)
                | inr (r, found) ↦ elim (Result-cases r) [
                  | inr (x, fails) ↦
                      let k = rw (evaluate_proposal, valid, found, fails) at e in
                      absurd (ground arith)
                  | inl (v, gives) ↦
                      let k = rw (evaluate_proposal, valid, found, gives) at e in
                      let reached : register_if_passed {R = R} p (version_of p version) v rows
                          ≡ ok (ev, rows') =
                        ground arith in
                      let (done, same, of_p) =
                        register_if_passed-Registers p (version_of p version) v rows reached in
                      (
                        found ∙ ap some (gives ∙ ap ok (sym same)),
                        done,
                        λ name. Registers-get_champion rows ev rows' name done,
                      )
                ]
              ]
        ]
