-- ===== src/Trading/Entry/Gate.antt =====
-- What has to hold before `submit_opportunity` sends an order or opens a trade.
use project_alpha.Common.{
  ℕ, ◌≡◌, refl, Bool, true, false, ◌&&◌, Option, none, some, [], ◌∷◌, ◌++◌, arith, ◌⊎◌, inl, inr,
  Bool-cases, Option-cases, Result-cases, Result, ok,
}
use project_alpha.Float.{Float, lit, le}
use project_alpha.Risk.Models.{PortfolioState, PositionSizeResult}
use project_alpha.Risk.Limits.{check_limits}
use project_alpha.Risk.Engine.{veto, engine_check_limits}
use project_alpha.Risk.Sizing.{calculate_position_size}
use project_alpha.Kernel.Governance.{AiKernel, is_given, enforce_governance}
use project_alpha.Trading.Trade.{Opportunity, Trade}
use project_alpha.Trading.Proposal.{first_hard, project_portfolio, sizing_request}
use project_alpha.Trading.Executor.{OrderExecutor}
use project_alpha.Trading.State.{Lifecycle, LifecycleError, opportunity, ◌>>=◌}
use project_alpha.Trading.Entry.{
  reject, hard_breach, open_if_within, validate_and_open, pass_governance, pass_limits,
  submit_opportunity,
}

abbrev pub demands_approval : {W : Type 0} → Option AiKernel → Opportunity W → Bool
demands_approval none o = false
demands_approval (some k) o = o.is_production && k.require_human_approval_for_prod

module _ {W X : Type 0} ⦃f : Float W⦄ where
  -- No order was sent, and the books are as they were.
  abbrev pub Untouched : Lifecycle W X → Result LifecycleError (Trade W) × Lifecycle W X → Type 0
  Untouched l (r, l') =
      (l'.open_trades ≡ l.open_trades)
      × (l'.closed_trades ≡ l.closed_trades)
      × (l'.executor ≡ l.executor)

  -- No breach of a hard cap is among those that the engine reports for a portfolio.
  abbrev pub NoHardBreach : Lifecycle W X → PortfolioState W → Type 0
  NoHardBreach l p =
      (l.risk_engine.initialized ≡ true) × (first_hard (check_limits p l.risk_engine.limits) ≡ none)

  -- A production opportunity was approved, where a kernel demands that.
  abbrev pub IsApproved : Lifecycle W X → Opportunity W → Type 0
  IsApproved l o = demands_approval l.kernel o ≡ true → is_given o.approved_by ≡ true

  -- The size that was computed is positive, and with it the portfolio breaches no hard cap.
  abbrev pub IsSized : Lifecycle W X → Opportunity W → PortfolioState W → Type 0
  IsSized l o p =
      (s : PositionSizeResult W) × (calculate_position_size (sizing_request l.risk_engine p o)
        ≡ ok s)
      × (le s.position_size_usd (lit 0 0) ≡ false)
      × NoHardBreach l (project_portfolio p o s)

  abbrev pub IsCleared : Lifecycle W X → Opportunity W → PortfolioState W → Type 0
  IsCleared l o p =
      (l.initialized ≡ true)
      × (veto l.risk_engine ≡ none)
      × NoHardBreach l p
      × IsApproved l o
      × IsSized l o p

module _ {W X : Type 0} ⦃f : Float W⦄ (ex : OrderExecutor W X) where
  open_gate :
      (o : Opportunity W) (p : PortfolioState W) (id : ℕ) (s : PositionSizeResult W)
      (l : Lifecycle W X)
      → NoHardBreach l (project_portfolio p o s) ⊎ Untouched l (open_if_within ex o p id s l)
  unfolding open_if_within hard_breach engine_check_limits reject ◌>>=◌
  open_gate o p id s l = ground arith

  size_gate :
      (o : Opportunity W) (p : PortfolioState W) (id : ℕ) (l : Lifecycle W X)
      → IsSized l o p ⊎ Untouched l (validate_and_open ex o p id l)
  unfolding validate_and_open reject ◌>>=◌
  size_gate o p id l =
      elim (Result-cases (calculate_position_size (sizing_request l.risk_engine p o))) [
        | inl (s, computed) ↦ elim (Bool-cases (le s.position_size_usd (lit 0 0))) [
          | inl empty ↦ inr (simp (computed, empty) (refl, refl, refl))
          | inr positive ↦ elim (open_gate o p id s l) [
            | inl fits ↦ inl (s, computed, positive, fits)
            | inr u ↦ inr (simp (computed, positive) u)
          ]
        ]
        | inr (e, refused) ↦ inr (simp (refused) (refl, refl, refl))
      ]

  governance_passes :
      (o : Opportunity W) (p : PortfolioState W) (id : ℕ) (l : Lifecycle W X)
      → (IsApproved l o × (pass_governance ex o p id l ≡ validate_and_open ex o p id l))
        ⊎ Untouched l (pass_governance ex o p id l)
  unfolding pass_governance enforce_governance reject ◌>>=◌
  governance_passes o p id l = ground arith

  limits_pass :
      (o : Opportunity W) (p : PortfolioState W) (id : ℕ) (l : Lifecycle W X)
      → (NoHardBreach l p × (pass_limits ex o p id l ≡ pass_governance ex o p id l))
        ⊎ Untouched l (pass_limits ex o p id l)
  unfolding pass_limits hard_breach engine_check_limits reject ◌>>=◌
  limits_pass o p id l = ground arith

  abbrev announced : Opportunity W → Lifecycle W X → Lifecycle W X
  announced o l = record l {
    initialized = true;
    published = l.published ++ opportunity o.symbol o.side o.confidence ∷ [];
  }

  submit_passes :
      (o : Opportunity W) (p : PortfolioState W) (id : ℕ) (l : Lifecycle W X)
      → ((l.initialized ≡ true)
          × (veto l.risk_engine ≡ none)
          × (submit_opportunity ex o p id l ≡ pass_limits ex o p id (announced o l)))
        ⊎ Untouched l (submit_opportunity ex o p id l)
  unfolding submit_opportunity reject ◌>>=◌
  submit_passes o p id l = elim (Bool-cases l.initialized) [
    | inl i ↦ elim (Option-cases (veto l.risk_engine)) [
      | inl clear ↦ inl (i, clear, simp (i, clear) refl)
      | inr (reason, vetoed) ↦ inr (simp (i, vetoed) (refl, refl, refl))
    ]
    | inr i ↦ inr (simp (i) (refl, refl, refl))
  ]

  -- Nothing is opened and no order leaves unless the module is initialized, the risk engine has no
  -- veto, the portfolio breaches no hard cap, a production trade is approved where the kernel
  -- demands it, and the computed size is positive and keeps the portfolio within the hard caps. In
  -- all other cases the open and closed trades and the executor are as they were.
  pub submit_needs_clearance :
      (o : Opportunity W) (p : PortfolioState W) (id : ℕ) (l : Lifecycle W X)
      → IsCleared l o p ⊎ Untouched l (submit_opportunity ex o p id l)
  submit_needs_clearance o p id l = elim (submit_passes o p id l) [
    | inr u ↦ inr u
    | inl (i, clear, e) ↦ elim (limits_pass o p id (announced o l)) [
      | inr u ↦ inr (rw e u)
      | inl (within, e₁) ↦ elim (governance_passes o p id (announced o l)) [
        | inr u ↦ inr (rw (e, e₁) u)
        | inl (approved, e₂) ↦ elim (size_gate o p id (announced o l)) [
          | inr u ↦ inr (rw (e, e₁, e₂) u)
          | inl fits ↦ inl (i, clear, within, approved, fits)
        ]
      ]
    ]
  ]
