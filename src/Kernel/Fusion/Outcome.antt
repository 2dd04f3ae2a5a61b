-- ===== src/Kernel/Fusion/Outcome.antt =====
-- What a fusion of evidence can answer.
use Prim.Native.String.{String}
use project_alpha.Common.{
  ◌≡◌, refl, ap, ◌∙◌, sym, arith, List, [], ◌∷◌, ◌++◌, append_assoc, append_nil, map, inl, inr, ◌⊎◌,
  ◌≢◌, Option, none, some, ok, Bool-cases, Result-cases, if_of_true, if_of_false, if◌then◌else◌,
}
use project_alpha.Float.{Float, ◌*◌, ◌/◌, lit, le, eq, min, max, round, sum, sum_from}
use project_alpha.Kernel.Fusion.{
  Direction, neutral, Scores, Weights, DecisionFusionEngine, EvidenceFusionResult, FusionTally,
  EvidenceContribution, normalize_direction, tally_all, tally_one, score_of, contribute,
  contribution, no_tally, idle_result, confidence_of, fuse_directed, fuse, is_neutral,
}

-- A component that has a score: its name, its weight and the score.
abbrev pub Scored : Type 0 → Type 0
Scored W = String × W × W

module _ {W : Type 0} ⦃f : Float W⦄ where
  abbrev pub scored_if : String → W → Option W → List (Scored W) → List (Scored W)
  scored_if name weight none rest = rest
  scored_if name weight (some raw) rest = (name, weight, raw) ∷ rest

  abbrev pub missing_if : String → Option W → List String → List String
  missing_if name none rest = name ∷ rest
  missing_if name (some raw) rest = rest

  -- The weighted components that have a score, in the order of the weights.
  unfoldable pub scored : Scores W → Weights W → List (Scored W)
  scored scores [] = []
  scored scores ((name, weight) ∷ ws) =
      scored_if name weight (score_of name scores) (scored scores ws)

  -- The names of the other components.
  unfoldable pub unscored : Scores W → Weights W → List String
  unscored scores [] = []
  unscored scores ((name, weight) ∷ ws) =
      missing_if name (score_of name scores) (unscored scores ws)

  -- A score, at least 0 and at most 10.
  abbrev pub within_range : W → W
  within_range raw = max (lit 0 0) (min (lit 10 0) raw)

  -- The weighted mean of the scores, in tenths; 0 when nothing weighs.
  unfoldable pub weighted_mean : List (Scored W) → W
  weighted_mean xs =
      let weight = sum (map (λ x. x.1) xs) in
      if eq weight (lit 0 0)
      then lit 0 0
      else sum (map (λ x. within_range x.2 * x.1) xs) / weight / lit 10 0

  -- The contribution of a component, rounded for its reader.
  abbrev pub shown : Scored W → EvidenceContribution W
  shown (name, weight, raw) = record {
    source = name;
    score = round 4 (within_range raw);
    weight = weight;
    weighted_score = round 4 (within_range raw * weight);
  }

  -- The tally `t` with the components added behind what it has.
  abbrev Extends : List (Scored W) → List String → FusionTally W → FusionTally W → Type 0
  Extends xs names t t' =
      (t'.contributions ≡ t.contributions ++ map shown xs)
      × (t'.missing ≡ t.missing ++ names)
      × (t'.numerator ≡ sum_from t.numerator (map (λ x. within_range x.2 * x.1) xs))
      × (t'.denominator ≡ sum_from t.denominator (map (λ x. x.1) xs))

  tally_one-Extends :
      (name : String) (weight : W) (o : Option W) (xs : List (Scored W)) (names : List String)
      (t t' : FusionTally W)
      → Extends xs names (tally_one name weight o t) t'
      → Extends (scored_if name weight o xs) (missing_if name o names) t t'
  unfolding contribute sum_from
  tally_one-Extends name weight none xs names t t' (c, m, num, den) =
      (c, m ∙ append_assoc t.missing (name ∷ []) names, num, den)
  tally_one-Extends name weight (some raw) xs names t t' (c, m, num, den) = (
    c ∙ append_assoc t.contributions (contribution name weight raw ∷ []) (map shown xs),
    m,
    num,
    den,
  )

  tally_all-Extends :
      (scores : Scores W) (ws : Weights W) (t : FusionTally W)
      → Extends (scored scores ws) (unscored scores ws) t (tally_all scores ws t)
  unfolding tally_all scored unscored sum_from
  tally_all-Extends scores [] t =
      (sym (append_nil t.contributions), sym (append_nil t.missing), refl, refl)
  tally_all-Extends scores ((name, weight) ∷ ws) t =
      let o = score_of name scores in
      tally_one-Extends name weight o (scored scores ws) (unscored scores ws) t _
        (tally_all-Extends scores ws (tally_one name weight o t))

  confidence-mean :
      (scores : Scores W) (ws : Weights W)
      → confidence_of (tally_all scores ws no_tally) ≡ weighted_mean (scored scores ws)
  unfolding confidence_of weighted_mean sum
  confidence-mean scores ws =
      let (c, m, num, den) = tally_all-Extends scores ws no_tally in rw (num, den) refl

  -- A fusion that does not raise. For a neutral direction it is neutral, without confidence, with
  -- every component missing. For any other its contributions are those of the weighted components
  -- that have a score, in the order of the weights, and the others are missing; its confidence is
  -- the weighted mean of the scores, each within 0 and 10, in tenths; and it answers the
  -- direction if that confidence, before its rounding, is at least the engine's minimum, or else
  -- neutral.
  pub fuse-outcome :
      (e : DecisionFusionEngine W) (direction : String) (scores : Scores W)
      {r : EvidenceFusionResult W}
      → fuse e direction scores ≡ ok r
      → (d : Direction) × (normalize_direction direction ≡ ok d)
        × (((d ≡ neutral)
              × (r.direction ≡ neutral)
              × (r.confidence ≡ lit 0 0)
              × (r.contributions ≡ [])
              × (r.missing_components ≡ map (λ w. w.0) e.weights))
            ⊎ ((d ≢ neutral)
                × (r.contributions ≡ map shown (scored scores e.weights))
                × (r.missing_components ≡ unscored scores e.weights)
                × (let c = weighted_mean (scored scores e.weights) in
                    (r.confidence ≡ round 4 c)
                    × (r.direction ≡ (if le e.min_confidence c then d else neutral)))))
  unfolding fuse fuse_directed
  fuse-outcome e direction scores {r} h = elim (Result-cases (normalize_direction direction)) [
    | inr (x, bad) ↦ let k = rw bad at h in absurd (ground arith)
    | inl (d, good) ↦
        let k = rw good at h in
        elim (Bool-cases (is_neutral d)) [
          | inl idle ↦
              let k' = sym (ap ok (if_of_true _ _ idle)) ∙ k in
              let all : idle_result e ≡ r = cc in
              rw (← all) (d, good, inl (ground arith, refl, refl, refl, refl))
          | inr directed ↦
              let k' = sym (ap ok (if_of_false _ _ directed)) ∙ k in
              let all : fuse_directed e d scores ≡ r = cc in
              let (c, m, num, den) = tally_all-Extends scores e.weights no_tally in
              let mean = confidence-mean scores e.weights in
              rw (← all) (
                d,
                good,
                inr (
                  (λ n. ground arith),
                  c,
                  m,
                  (ap (round 4) mean, ap (λ x. if le e.min_confidence x then d else neutral) mean),
                ),
              )
        ]
  ]
