-- ===== src/Policy/Governance/Rollback.antt =====
-- Runs of promotions and rollbacks, and the policy that a restarted registry reads.
use Prim.Native.String.{String}
use project_alpha.Common.{
  ℕ, zero, suc, ◌≡◌, refl, sym, ap, ◌∙◌, arith, Bool, true, false, Option, some, List, [], ◌∷◌,
  ◌++◌, length, Result, ok, ◌>>=◌, Result-cases, inl, inr,
}
use project_alpha.Float.{Float, lit, le}
use project_alpha.Policy.Governance.{
  PolicyGovernance, ShadowWeightResult, PolicyError, split_last, propose_promotion, rollback,
  PolicyRegistry, open_registry, activate, has_invalid_weights, sum_is_not_one,
}

split_last-append : {A : Type 0} (xs : List A) (x : A) → split_last (xs ++ x ∷ []) ≡ some (xs, x)
unfolding split_last
split_last-append [] x = refl
split_last-append (y ∷ []) x = refl
split_last-append (y ∷ z ∷ zs) x = rw (split_last-append (z ∷ zs) x)

-- The arguments of one promotion.
pub record Promotion (W : Type 0) : Type 0 where
  pub version : String
  pub weights : List (String × W)
  pub shadow : ShadowWeightResult
  pub approved : Bool

-- `n` rollbacks in a row.
pub roll_back : {W : Type 0} → ℕ → PolicyGovernance W → Result PolicyError (PolicyGovernance W)
roll_back zero g = ok g
roll_back (suc n) g = do g' ← roll_back n g; rollback g'

module _ {W : Type 0} ⦃f : Float W⦄ where
  unfoldable pub promote_all :
      List (Promotion W) → PolicyGovernance W → Result PolicyError (PolicyGovernance W)
  promote_all [] g = ok g
  promote_all (p ∷ ps) g = do
    g' ← propose_promotion g p.version p.weights p.shadow p.approved
    promote_all ps g'

  propose_promotion-history :
      (g : PolicyGovernance W) (p : Promotion W) {g' : PolicyGovernance W}
      → propose_promotion g p.version p.weights p.shadow p.approved ≡ ok g'
      → g'.history ≡ g.history ++ g.active ∷ []
  unfolding propose_promotion
  propose_promotion-history g p e = ground arith

  rollback-propose_promotion :
      (g : PolicyGovernance W) (p : Promotion W) {g' : PolicyGovernance W}
      → propose_promotion g p.version p.weights p.shadow p.approved ≡ ok g'
      → rollback g' ≡ ok g
  unfolding rollback
  rollback-propose_promotion g p {g'} e =
      let popped : split_last g'.history ≡ some (g.history, g.active) =
        ap split_last (propose_promotion-history g p e) ∙ split_last-append g.history g.active in
      rw (rollback, popped) refl

  -- As many rollbacks as there were successful promotions restore the governance record exactly:
  -- the policy that was active, and its history.
  pub roll_back-promote_all :
      (ps : List (Promotion W)) (g : PolicyGovernance W) {g' : PolicyGovernance W}
      → promote_all ps g ≡ ok g'
      → roll_back (length ps) g' ≡ ok g
  unfolding promote_all roll_back
  roll_back-promote_all [] g e = sym e
  roll_back-promote_all (p ∷ ps) g e =
      elim (Result-cases (propose_promotion g p.version p.weights p.shadow p.approved)) [
        | inl (g₁, promoted) ↦
            rw (roll_back-promote_all ps g₁ (rw promoted at e))
              (rollback-propose_promotion g p promoted)
        | inr (x, refused) ↦ let clash = rw refused at e in cc
      ]

  -- A registry that is opened again on the file of a successful activation has the activated
  -- policy, with the given version and weights, and a confidence between 0 and 1.
  open_registry-activate :
      (r : PolicyRegistry W) (version : String) (weights : List (String × W)) (c : Option W)
      {r' : PolicyRegistry W}
      → activate r version weights c ≡ ok r'
      → ((open_registry r'.default_policy r'.stored).active ≡ r'.active)
        × (r'.active.version ≡ version)
        × (r'.active.weights ≡ weights)
        × (has_invalid_weights r'.active.weights ≡ false)
        × (sum_is_not_one r'.active.weights ≡ false)
        × (le (lit 0 0) r'.active.min_confidence ≡ true)
        × (le r'.active.min_confidence (lit 1 0) ≡ true)
  unfolding activate open_registry
  open_registry-activate r version weights c e = ground arith
