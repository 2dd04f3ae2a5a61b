-- ===== src/Kernel/Decisions/Tally.antt =====
-- What the loop of `request_decision` in aitos/kernel/ai_kernel.py adds up: for each direction the
-- weighted confidence of the agents that voted for it.
use Prim.Native.String.{String}
use text.Mathlib.Text.{◌==◌ as str_eq}
use text.Mathlib.TextEquality.{eq_iff}
use project_alpha.Common.{
  Bool, ◌≡◌, refl, ap, ◌∙◌, arith, true, false, ◌||◌, none, some, List, [], ◌∷◌, map, All, select,
  ok, lookup, Dict, inl, inr, Bool-cases, Option-cases, if◌then◌else◌,
}
use project_alpha.Float.{Float, ◌+◌, ◌*◌, lit, lt, sum, sum_from}
use project_alpha.Common.Text.{str_eq_self, str_eq_comm}
use project_alpha.Kernel.Decisions.{
  AgentDecision, BaseAgent, tally_votes, add_score, best_from, first_scores,
}

module _ {W : Type 0} ⦃f : Float W⦄ where
  -- The weight of the agent that a decision names.
  abbrev pub weight_of : Dict (BaseAgent W) → AgentDecision W → W
  weight_of agents d = elim (lookup d.agent_id agents) [
    | none ↦ lit 0 0
    | some a ↦ a.consensus_weight
  ]

  -- The weighted confidences of the decisions for a direction, in their order.
  abbrev pub votes_of : Dict (BaseAgent W) → List (AgentDecision W) → String → List W
  votes_of agents ds k =
      map (λ d. weight_of agents d * d.confidence) (select (λ d. str_eq d.direction k) ds)

  unfoldable pub votes_for : Dict (BaseAgent W) → List (AgentDecision W) → String → W
  votes_for agents ds k = sum (votes_of agents ds k)

  unfoldable pub total_weight : Dict (BaseAgent W) → List (AgentDecision W) → W
  total_weight agents ds = sum (map (weight_of agents) ds)

  -- What a direction's entry says; 0 without one.
  pub value_in : String → List (String × W) → W
  value_in k [] = lit 0 0
  value_in k ((n, s) ∷ rest) = if str_eq k n then s else value_in k rest

  pub value_in-first_scores : (k : String) → value_in k first_scores ≡ lit {W = W} 0 0
  unfolding value_in
  value_in-first_scores k = ground arith

  unfoldable pub is_listed : String → List (String × W) → Bool
  is_listed k [] = false
  is_listed k ((n, s) ∷ rest) = str_eq k n || is_listed k rest

  value_in-add_score :
      (k d : String) (x : W) (scores : List (String × W))
      → value_in k (add_score d x scores)
        ≡ (if str_eq d k then value_in k scores + x else value_in k scores)
  unfolding value_in add_score
  value_in-add_score k d x [] = ap (λ b. if b then lit 0 0 + x else lit 0 0) (str_eq_comm k d)
  value_in-add_score k d x ((n, s) ∷ rest) = elim (Bool-cases (str_eq d n)) [
    | inl hit ↦
        let same = (eq_iff d n).0 hit in
        let back : str_eq d k ≡ str_eq k n = str_eq_comm d k ∙ ap (str_eq k) same in
        elim (Bool-cases (str_eq k n)) [
          | inl here ↦ rw (hit, back, here) refl
          | inr there ↦ rw (hit, back, there) refl
        ]
    | inr miss ↦ elim (Bool-cases (str_eq k n)) [
      | inl here ↦
          let back : str_eq d k ≡ str_eq d n = ap (str_eq d) ((eq_iff k n).0 here) in
          rw (back, miss, here) refl
      | inr there ↦ rw (miss, there) (value_in-add_score k d x rest)
    ]
  ]

  -- What holds of a new name and of all names holds of all names afterwards.
  add_score-All :
      (Q : String → Type 0) (d : String) (x : W) (scores : List (String × W))
      → Q d
      → All (λ e. Q e.0) scores
      → All (λ e. Q e.0) (add_score d x scores)
  unfolding add_score
  add_score-All Q d x [] q all = (q, tt)
  add_score-All Q d x ((n, s) ∷ rest) q all = elim (Bool-cases (str_eq d n)) [
    | inl hit ↦ rw hit (all.0, all.1)
    | inr miss ↦ rw miss (all.0, add_score-All Q d x rest q all.1)
  ]

  -- No direction has two entries.
  pub IsListedOnce : List (String × W) → Type 0
  IsListedOnce [] = Unit
  IsListedOnce ((n, s) ∷ rest) = All (λ e. str_eq e.0 n ≡ false) rest × IsListedOnce rest

  pub first-IsListedOnce : (x : W) → IsListedOnce (("long", x) ∷ ("short", x) ∷ ("neutral", x) ∷ [])
  unfolding IsListedOnce
  first-IsListedOnce x = ((refl, (refl, tt)), ((refl, tt), (tt, tt)))

  add_score-IsListedOnce :
      (d : String) (x : W) (scores : List (String × W))
      → IsListedOnce scores
      → IsListedOnce (add_score d x scores)
  unfolding add_score IsListedOnce
  add_score-IsListedOnce d x [] once = (tt, tt)
  add_score-IsListedOnce d x ((n, s) ∷ rest) once = elim (Bool-cases (str_eq d n)) [
    | inl hit ↦ rw hit once
    | inr miss ↦ rw miss (
      add_score-All (λ m. str_eq m n ≡ false) d x rest miss once.0,
      add_score-IsListedOnce d x rest once.1,
    )
  ]

  values_behind :
      (n : String) (s : W) (whole rest : List (String × W))
      → All (λ e. str_eq e.0 n ≡ false) rest
      → All (λ e. value_in e.0 whole ≡ e.1) rest
      → All (λ e. value_in e.0 ((n, s) ∷ whole) ≡ e.1) rest
  unfolding value_in
  values_behind n s whole [] miss all = tt
  values_behind n s whole ((m, t) ∷ rest) miss all =
      (rw miss.0 all.0, values_behind n s whole rest miss.1 all.1)

  pub value_in-entries :
      (scores : List (String × W))
      → IsListedOnce scores
      → All (λ e. value_in e.0 scores ≡ e.1) scores
  unfolding value_in IsListedOnce
  value_in-entries [] once = tt
  value_in-entries ((n, s) ∷ rest) once =
      (rw (str_eq_self n) refl, values_behind n s rest rest once.0 (value_in-entries rest once.1))

  pub best_from-All :
      (P : String × W → Type 0) (best : String × W) (rest : List (String × W))
      → P best
      → All P rest
      → P (best_from best rest)
  unfolding best_from
  best_from-All P best [] p all = p
  best_from-All P best (s ∷ rest) p all = elim (Bool-cases (lt best.1 s.1)) [
    | inl above ↦ rw above (best_from-All P s rest all.0 all.1)
    | inr below ↦ rw below (best_from-All P best rest p all.1)
  ]

  pub value_in-All :
      (P : W → Type 0) (k : String) (scores : List (String × W))
      → is_listed k scores ≡ true
      → All (λ e. P e.1) scores
      → P (value_in k scores)
  unfolding value_in is_listed
  value_in-All P k [] h all = absurd (ground arith)
  value_in-All P k ((n, s) ∷ rest) h all = elim (Bool-cases (str_eq k n)) [
    | inl here ↦ rw here all.0
    | inr there ↦ rw there (value_in-All P k rest (rw there at h) all.1)
  ]

  is_listed-add_score :
      (k d : String) (x : W) (scores : List (String × W))
      → is_listed k scores ≡ true
      → is_listed k (add_score d x scores) ≡ true
  unfolding add_score is_listed
  is_listed-add_score k d x [] h = absurd (ground arith)
  is_listed-add_score k d x ((n, s) ∷ rest) h = elim (Bool-cases (str_eq d n)) [
    | inl hit ↦ rw hit h
    | inr miss ↦ elim (Bool-cases (str_eq k n)) [
      | inl here ↦ rw (miss, here) refl
      | inr there ↦ rw (miss, there) (is_listed-add_score k d x rest (rw there at h))
    ]
  ]

  is_listed-added :
      (d : String) (x : W) (scores : List (String × W)) → is_listed d (add_score d x scores) ≡ true
  unfolding add_score is_listed
  is_listed-added d x [] = rw (str_eq_self d) refl
  is_listed-added d x ((n, s) ∷ rest) = elim (Bool-cases (str_eq d n)) [
    | inl hit ↦ rw (hit, hit) refl
    | inr miss ↦ rw (miss, miss) (is_listed-added d x rest)
  ]

  -- The scores and the weight that the decisions `ds` lead to, from the ones of before.
  pub record IsTallied (agents : Dict (BaseAgent W)) (ds : List (AgentDecision W))
      (scores : List (String × W)) (total : W) (r : List (String × W) × W) : Type 1 where
    pub values : (k : String) → value_in k r.0 ≡ sum_from (value_in k scores) (votes_of agents ds k)
    pub weights : r.1 ≡ sum_from total (map (weight_of agents) ds)
    pub once : IsListedOnce scores → IsListedOnce r.0
    pub stays : (k : String) → is_listed k scores ≡ true → is_listed k r.0 ≡ true
    pub voted : All (λ d. is_listed d.direction r.0 ≡ true) ds
    pub names :
        (Q : String → Type 0)
        → All (λ d. Q d.direction) ds
        → All (λ e. Q e.0) scores
        → All (λ e. Q e.0) r.0

  abbrev vote_of : BaseAgent W → AgentDecision W → W
  vote_of a d = a.consensus_weight * d.confidence

  IsTallied-cons :
      (agents : Dict (BaseAgent W)) (a : BaseAgent W) (d : AgentDecision W)
      (ds : List (AgentDecision W)) (scores : List (String × W)) (total : W)
      (r : List (String × W) × W)
      → lookup d.agent_id agents ≡ some a
      → IsTallied agents ds
          (add_score d.direction (vote_of a d) scores)
          (total + a.consensus_weight)
          r
      → IsTallied agents (d ∷ ds) scores total r
  unfolding sum_from
  IsTallied-cons agents a d ds scores total r known t = record {
    values = λ k.
        let weight : weight_of agents d ≡ a.consensus_weight = rw (weight_of, known) refl in
        let one = value_in-add_score k d.direction (vote_of a d) scores in
        elim (Bool-cases (str_eq d.direction k)) [
          | inl for_k ↦
              let one' : value_in k (add_score d.direction (vote_of a d) scores)
                  ≡ value_in k scores + vote_of a d =
                rw for_k at one in
              rw (for_k, weight) (t.values k ∙ ap (λ s. sum_from s (votes_of agents ds k)) one')
          | inr against ↦
              let one' : value_in k (add_score d.direction (vote_of a d) scores)
                  ≡ value_in k scores =
                rw against at one in
              rw against (t.values k ∙ ap (λ s. sum_from s (votes_of agents ds k)) one')
        ];
    weights =
        let weight : weight_of agents d ≡ a.consensus_weight = rw (weight_of, known) refl in
        rw weight t.weights;
    once = λ h. t.once (add_score-IsListedOnce d.direction _ scores h);
    stays = λ k h. t.stays k (is_listed-add_score k d.direction _ scores h);
    voted = (t.stays d.direction (is_listed-added d.direction _ scores), t.voted);
    names = λ Q h all. t.names Q h.1 (add_score-All Q d.direction _ scores h.0 all);
  }

  pub tally_votes-IsTallied :
      (agents : Dict (BaseAgent W)) (ds : List (AgentDecision W)) (scores : List (String × W))
      (total : W) (r : List (String × W) × W)
      → tally_votes agents ds scores total ≡ ok r
      → IsTallied agents ds scores total r
  unfolding tally_votes sum_from
  tally_votes-IsTallied agents [] scores total r e =
      let same : (scores, total) ≡ r = cc in
      rw (← same) (record {
        values = λ k. refl;
        weights = refl;
        once = λ h. h;
        stays = λ k h. h;
        voted = tt;
        names = λ Q h all. all;
      })
  tally_votes-IsTallied agents (d ∷ ds) scores total r e =
      elim (Option-cases (lookup d.agent_id agents)) [
        | inl unknown ↦ let k = rw (tally_votes, unknown) at e in absurd (ground arith)
        | inr (a, known) ↦
            IsTallied-cons agents a d ds scores total r known
              (tally_votes-IsTallied agents ds _ _ r (rw (tally_votes, known) at e))
      ]
