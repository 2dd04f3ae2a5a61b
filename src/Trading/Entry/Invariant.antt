-- ===== src/Trading/Entry/Invariant.antt =====
-- The validity of the books under `submit_opportunity`.
use project_alpha.Common.{
  ℕ, ◌≡◌, refl, Option, none, some, List, [], ◌∷◌, ◌⊎◌, inl, inr, Result, ok, err,
}
use project_alpha.Float.{Float, lit, le, eq}
use project_alpha.Risk.Models.{PortfolioState, PositionSizeResult}
use project_alpha.Risk.Sizing.{SizingError}
use project_alpha.Kernel.Governance.{AiKernel, GovernanceResult, KernelError, enforce_governance}
use project_alpha.Trading.Trade.{TradeLifecycleState, Opportunity, Trade}
use project_alpha.Trading.Proposal.{rejected_trade, opened_trade, action_for}
use project_alpha.Trading.Executor.{OrderExecutor, OrderResult}
use project_alpha.Trading.State.{
  M, RejectReason, zero_division, sizing_refused, module_not_initialized, order_submission_failed,
}
use project_alpha.Trading.Keeps.{
  Keeps, Keeps-weaken, Any, IsOpenTrade, Keeps-bind, Keeps-if, Keeps-pure, Keeps-raise, Keeps-gets,
  Keeps-on_executor, Keeps-publish, Keeps-store, Keeps-store_if, Keeps-or_raise,
  Keeps-require_initialized,
}
use project_alpha.Trading.Entry.{
  reject, hard_breach, denial, ask_governance, sized, place_targets, place_exchange_side_stops,
  open_position, submit_sized, reject_or, open_if_within, validate_and_open, submit_opportunity,
}

abbrev pub IsRejected : {W : Type 0} → Trade W → Type 0
IsRejected t = t.state ≡ TradeLifecycleState.rejected

-- What a submission returns: an open trade, or a rejected one, which is in no book.
abbrev pub IsAnswered : {W : Type 0} → Trade W → Type 0
IsAnswered t = IsOpenTrade t ⊎ IsRejected t

module _ {W X : Type 0} ⦃f : Float W⦄ where
  reject-Keeps :
      (o : Opportunity W) (id : ℕ) (reason : RejectReason W)
      → Keeps {X = X} IsAnswered (reject o id reason)
  unfolding reject rejected_trade
  reject-Keeps o id reason = Keeps-bind (Keeps-publish _) λ _ _. Keeps-pure (inr refl)

  reject_or-Keeps :
      (o : Opportunity W) (id : ℕ) (reason : Option (RejectReason W)) {go : M W X (Trade W)}
      → Keeps IsAnswered go
      → Keeps IsAnswered (reject_or o id reason go)
  reject_or-Keeps o id none h = h
  reject_or-Keeps o id (some reason) h = reject-Keeps o id reason

  hard_breach-Keeps : (p : PortfolioState W) → Keeps {X = X} Any (hard_breach p)
  unfolding hard_breach
  hard_breach-Keeps p =
      Keeps-bind (Keeps-gets _)
        λ found _. Keeps-bind (Keeps-or_raise found module_not_initialized) λ _ _. Keeps-pure tt

  denial-Keeps : (r : Result KernelError GovernanceResult) → Keeps {W = W} {X = X} Any (denial r)
  denial-Keeps (err e) = Keeps-raise module_not_initialized
  denial-Keeps (ok g) = Keeps-pure tt

  ask_governance-Keeps :
      (o : Opportunity W) (k : Option AiKernel) → Keeps {X = X} Any (ask_governance o k)
  ask_governance-Keeps o none = Keeps-pure tt
  ask_governance-Keeps o (some k) =
      Keeps-if o.is_production (λ _. denial-Keeps (enforce_governance k (action_for o)))
        (λ _. Keeps-pure tt)

  sized-Keeps : (r : Result SizingError (PositionSizeResult W)) → Keeps {X = X} Any (sized r)
  sized-Keeps (ok s) = Keeps-pure tt
  sized-Keeps (err e) = Keeps-raise (sizing_refused e)

module _ {W X : Type 0} ⦃f : Float W⦄ (ex : OrderExecutor W X) where
  place_targets-Keeps :
      (levels : List W) (remaining : W) (t : Trade W)
      → IsOpenTrade t
      → Keeps IsOpenTrade (place_targets ex levels remaining t)
  unfolding place_targets
  place_targets-Keeps [] remaining t h = Keeps-pure h
  place_targets-Keeps (level ∷ rest) remaining t h =
      Keeps-bind (Keeps-on_executor _) λ r _.
        Keeps-bind (Keeps-store_if r.success _ _ h h) λ t' h'. place_targets-Keeps rest _ t' h'

  place_exchange_side_stops-Keeps :
      (t : Trade W) → IsOpenTrade t → Keeps IsOpenTrade (place_exchange_side_stops ex t)
  unfolding place_exchange_side_stops
  place_exchange_side_stops-Keeps t h = Keeps-bind (Keeps-on_executor _) λ r _.
      Keeps-bind (Keeps-store_if r.success _ _ h h) λ t₁ h₁.
        Keeps-bind (place_targets-Keeps t₁.take_profit_levels t₁.quantity t₁ h₁)
          λ t₂ h₂. Keeps-bind (Keeps-publish _) λ _ _. Keeps-pure h₂

  open_position-Keeps :
      (o : Opportunity W) (id : ℕ) (s : PositionSizeResult W) (q : W) (r : OrderResult W)
      → Keeps IsAnswered (open_position ex o id s q r)
  unfolding open_position opened_trade
  open_position-Keeps o id s q r =
      Keeps-weaken (λ t. inl)
        (Keeps-bind (Keeps-publish _) λ _ _. Keeps-bind (Keeps-publish _) λ _ _.
          Keeps-bind (Keeps-store refl) λ t h. Keeps-bind (Keeps-publish _) λ _ _.
            Keeps-bind (Keeps-gets _) λ used _.
              Keeps-if used (λ _. place_exchange_side_stops-Keeps t h) (λ _. Keeps-pure h))

  submit_sized-Keeps :
      (o : Opportunity W) (id : ℕ) (s : PositionSizeResult W)
      → Keeps IsAnswered (submit_sized ex o id s)
  unfolding submit_sized
  submit_sized-Keeps o id s = Keeps-bind (Keeps-publish _) λ _ _.
      Keeps-bind {Q = Any}
        (Keeps-if (eq o.entry_price (lit 0 0)) (λ _. Keeps-raise zero_division)
          (λ _. Keeps-pure tt))
        λ _ _. Keeps-bind (Keeps-on_executor _) λ r _.
          Keeps-if r.success (λ _. open_position-Keeps o id s _ r)
            (λ _. reject-Keeps o id (order_submission_failed r.error))

  open_if_within-Keeps :
      (o : Opportunity W) (p : PortfolioState W) (id : ℕ) (s : PositionSizeResult W)
      → Keeps IsAnswered (open_if_within ex o p id s)
  unfolding open_if_within
  open_if_within-Keeps o p id s =
      Keeps-bind (hard_breach-Keeps _) λ b _. reject_or-Keeps o id _ (submit_sized-Keeps o id s)

  validate_and_open-Keeps :
      (o : Opportunity W) (p : PortfolioState W) (id : ℕ)
      → Keeps IsAnswered (validate_and_open ex o p id)
  unfolding validate_and_open
  validate_and_open-Keeps o p id = Keeps-bind (Keeps-gets _) λ request _.
      Keeps-bind (sized-Keeps _) λ s _.
        Keeps-if (le s.position_size_usd (lit 0 0)) (λ _. reject-Keeps o id _)
          (λ _. open_if_within-Keeps o p id s)

  pub submit_opportunity-Keeps :
      (o : Opportunity W) (p : PortfolioState W) (id : ℕ)
      → Keeps IsAnswered (submit_opportunity ex o p id)
  unfolding submit_opportunity
  submit_opportunity-Keeps o p id = Keeps-bind Keeps-require_initialized λ _ _.
      Keeps-bind (Keeps-publish _) λ _ _. Keeps-bind (Keeps-gets _) λ vetoed _.
        reject_or-Keeps o id _ (
          Keeps-bind (hard_breach-Keeps p) λ b _. reject_or-Keeps o id _ (
            Keeps-bind (Keeps-gets _) λ k _.
              Keeps-bind (ask_governance-Keeps o k)
                λ d _. reject_or-Keeps o id _ (validate_and_open-Keeps o p id)))
