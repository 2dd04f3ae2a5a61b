-- ===== src/Kernel/Fusion.antt =====
-- aitos/kernel/decision_fusion.py. Component scores are what a context maps names to: numbers, or
-- values that are none.
pub mod Outcome
use Prim.Native.String.{String}
use text.Mathlib.Text.{◌==◌ as str_eq}
use project_alpha.Common.{
  ℕ, Bool, true, false, not, ◌&&◌, ◌||◌, Option, none, some, List, [], ◌∷◌, ◌++◌, map, any, all,
  if◌then◌else◌, Result, ok, err, ◌>>=◌, ◌>>◌, raise_if,
}
use project_alpha.Common.Text.{char_codes, strip_left, strip_right, lower}
use project_alpha.Float.{Float, ◌+◌, ◌*◌, ◌/◌, lit, lt, le, eq, min, max, sum, round}
use project_alpha.Risk.Sector.{same_codes}
use project_alpha.Policy.Governance.{ActivePolicy}

pub data Direction : Type 0 where
  long short neutral : Direction

pub data RawScore (W : Type 0) : Type 0 where
  number : W → RawScore W
  no_number : RawScore W

abbrev pub Scores : Type 0 → Type 0
Scores W = List (String × RawScore W)

abbrev pub Weights : Type 0 → Type 0
Weights W = List (String × W)

pub record EvidenceContribution (W : Type 0) : Type 0 where
  pub source : String
  pub score : W
  pub weight : W
  pub weighted_score : W

pub record EvidenceFusionResult (W : Type 0) : Type 0 where
  pub direction : Direction
  pub confidence : W
  pub contributions : List (EvidenceContribution W)
  pub missing_components : List String

pub record DecisionFusionEngine (W : Type 0) : Type 0 where
  pub weights : Weights W
  pub min_confidence : W

pub data FusionError : Type 0 where
  empty_or_negative_weights no_positive_total min_confidence_out_of_range : FusionError
  unsupported_direction : FusionError

abbrev pub normalized : String → List ℕ
normalized direction = map lower (strip_right (strip_left (char_codes direction)))

abbrev pub is_word : List ℕ → String → Bool
is_word cs word = same_codes cs (char_codes word)

-- `_normalize_direction`
unfoldable pub normalize_direction : String → Result FusionError Direction
normalize_direction direction =
    let cs = normalized direction in
    if is_word cs "buy" || is_word cs "long"
    then ok long
    else if is_word cs "sell" || is_word cs "short"
    then ok short
    else if is_word cs "neutral"
    then ok neutral
    else err unsupported_direction

-- `component_scores.get(name)`, when it is a number.
abbrev pub score_of : {W : Type 0} → String → Scores W → Option W
score_of name [] = none
score_of name ((n, number x) ∷ rest) = if str_eq name n then some x else score_of name rest
score_of name ((n, no_number) ∷ rest) = if str_eq name n then none else score_of name rest

-- What the loop of `fuse` adds up.
pub record FusionTally (W : Type 0) : Type 0 where
  pub contributions : List (EvidenceContribution W)
  pub missing : List String
  pub numerator : W
  pub denominator : W

abbrev pub is_nil : {A : Type 0} → List A → Bool
is_nil [] = true
is_nil (x ∷ xs) = false

abbrev pub is_neutral : Direction → Bool
is_neutral neutral = true
is_neutral _ = false

module _ {W : Type 0} ⦃f : Float W⦄ where
  unfoldable pub default_evidence_weights : Weights W
  default_evidence_weights =
      ("trend_strength", lit 15 2)
      ∷ ("liquidity_quality", lit 10 2)
      ∷ ("order_flow_bias", lit 15 2)
      ∷ ("auction_context", lit 10 2)
      ∷ ("volatility", lit 5 2)
      ∷ ("market_regime", lit 10 2)
      ∷ ("lead_lag", lit 10 2)
      ∷ ("funding_rate", lit 10 2)
      ∷ ("open_interest_trend", lit 10 2)
      ∷ ("rl_confidence", lit 5 2)
      ∷ []

  -- `weights or DEFAULT_EVIDENCE_WEIGHTS`
  abbrev pub weights_or_default : Option (Weights W) → Weights W
  weights_or_default none = default_evidence_weights
  weights_or_default (some []) = default_evidence_weights
  weights_or_default (some (w ∷ ws)) = w ∷ ws

  unfoldable pub new_fusion_engine :
      Option (Weights W) → W → Result FusionError (DecisionFusionEngine W)
  unfolding default_evidence_weights
  new_fusion_engine weights min_confidence = do
    let selected = weights_or_default weights
    raise_if (is_nil selected || any (λ w. lt w.1 (lit 0 0)) selected) empty_or_negative_weights
    raise_if (le (sum (map (λ w. w.1) selected)) (lit 0 0)) no_positive_total
    raise_if (not (le (lit 0 0) min_confidence && le min_confidence (lit 1 0)))
        min_confidence_out_of_range
    ok (record { weights = selected; min_confidence = min_confidence })

  abbrev pub clamped : W → W
  clamped raw = max (lit 0 0) (min (lit 10 0) raw)

  abbrev pub contribution : String → W → W → EvidenceContribution W
  contribution name weight raw = record {
    source = name;
    score = round 4 (clamped raw);
    weight = weight;
    weighted_score = round 4 (clamped raw * weight);
  }

  unfoldable pub contribute : String → W → W → FusionTally W → FusionTally W
  contribute name weight raw t = record t {
    contributions = t.contributions ++ contribution name weight raw ∷ [];
    numerator = t.numerator + clamped raw * weight;
    denominator = t.denominator + weight;
  }

  abbrev pub tally_one : String → W → Option W → FusionTally W → FusionTally W
  tally_one name weight none t = record t { missing = t.missing ++ name ∷ [] }
  tally_one name weight (some raw) t = contribute name weight raw t

  pub tally_all : Scores W → Weights W → FusionTally W → FusionTally W
  unfolding contribute
  tally_all scores [] t = t
  tally_all scores ((name, weight) ∷ ws) t =
      tally_all scores ws (tally_one name weight (score_of name scores) t)

  unfoldable pub confidence_of : FusionTally W → W
  confidence_of t =
      if eq t.denominator (lit 0 0) then lit 0 0 else t.numerator / t.denominator / lit 10 0

  abbrev pub no_tally : FusionTally W
  no_tally = record { contributions = []; missing = []; numerator = lit 0 0; denominator = lit 0 0 }

  -- The result for a neutral direction.
  abbrev pub idle_result : DecisionFusionEngine W → EvidenceFusionResult W
  idle_result e = record {
    direction = neutral;
    confidence = lit 0 0;
    contributions = [];
    missing_components = map (λ w. w.0) e.weights;
  }

  unfoldable pub fuse_directed :
      DecisionFusionEngine W → Direction → Scores W → EvidenceFusionResult W
  unfolding tally_all confidence_of
  fuse_directed e direction scores =
      let t = tally_all scores e.weights no_tally in
      let confidence = confidence_of t in
      record {
        direction = if le e.min_confidence confidence then direction else neutral;
        confidence = round 4 confidence;
        contributions = t.contributions;
        missing_components = t.missing;
      }

  unfoldable pub fuse :
      DecisionFusionEngine W → String → Scores W → Result FusionError (EvidenceFusionResult W)
  unfolding normalize_direction fuse_directed
  fuse e direction scores = normalize_direction direction >>= λ d.
      ok (if is_neutral d then idle_result e else fuse_directed e d scores)

  -- The context's `direction`, when it is a text, and its `component_scores`, when they are a
  -- mapping.
  unfoldable pub fuse_context :
      DecisionFusionEngine W
      → Option String
      → Option (Scores W)
      → Result FusionError (Option (EvidenceFusionResult W))
  unfolding fuse
  fuse_context e (some direction) (some scores) = fuse e direction scores >>= λ r. ok (some r)
  fuse_context e none scores = ok none
  fuse_context e (some direction) none = ok none
