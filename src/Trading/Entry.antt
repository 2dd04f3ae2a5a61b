-- ===== src/Trading/Entry.antt =====
-- `submit_opportunity` and what it calls in aitos/trading/lifecycle.py. A new trade's identifier is
-- an argument.
pub mod Gate
pub mod Invariant
use mathlib.Core.Option
use Prim.Native.String.{String}
use project_alpha.Common.{
  ℕ, Option, none, some, List, [], ◌∷◌, ◌++◌, if◌then◌else◌, Result, ok, err,
}
use project_alpha.Float.{Float, ◌-◌, ◌*◌, ◌/◌, lit, le, eq}
use project_alpha.Risk.Sector.{sector_for_symbol}
use project_alpha.Risk.Models.{PortfolioState, PositionSizeResult, LimitBreach}
use project_alpha.Risk.Engine.{engine_check_limits, veto}
use project_alpha.Risk.Sizing.{SizingError, calculate_position_size}
use project_alpha.Kernel.Governance.{AiKernel, GovernanceResult, KernelError, enforce_governance}
use project_alpha.Trading.Trade.{Opportunity, Trade}
use project_alpha.Trading.Position.{partial_close_fraction}
use project_alpha.Trading.Proposal.{
  rejected_trade, opened_trade, first_hard, project_portfolio, sizing_request, action_for,
}
use project_alpha.Trading.Executor.{OrderExecutor, OrderResult}
use project_alpha.Trading.State.{
  M, module_not_initialized, zero_division, sizing_refused, RejectReason, risk_veto,
  hard_limit_breach, governance_denied, sector_cap_exhausted, projected_hard_limit_breach,
  order_submission_failed, opportunity, trade_rejected, entry_signal, order_submitted, order_filled,
  position_opened, exchange_stops_placed, pure, raise, gets, or_raise, publish, on_executor, store,
  require_initialized, ◌>>=◌, ◌>>◌,
}

module _ {W X : Type 0} ⦃f : Float W⦄ where
  unfoldable pub reject : Opportunity W → ℕ → RejectReason W → M W X (Trade W)
  reject o id reason = do
    publish (trade_rejected (rejected_trade o id) reason)
    pure (rejected_trade o id)

  abbrev pub reject_or :
      Opportunity W → ℕ → Option (RejectReason W) → M W X (Trade W) → M W X (Trade W)
  reject_or o id none go = go
  reject_or o id (some reason) go = reject o id reason

  -- The breaches of hard caps, the first of them; an engine that is not initialized raises.
  unfoldable pub hard_breach : PortfolioState W → M W X (Option (LimitBreach W))
  hard_breach p = do
    breaches ← gets (λ l. engine_check_limits l.risk_engine p)
    found ← or_raise breaches module_not_initialized
    pure (first_hard found)

  -- The answer of governance, if it is asked and denies.
  abbrev pub denial : Result KernelError GovernanceResult → M W X (Option String)
  denial (err e) = raise module_not_initialized
  denial (ok g) = pure (if g.approved then none else some g.reason)

  abbrev pub ask_governance : Opportunity W → Option AiKernel → M W X (Option String)
  ask_governance o none = pure none
  ask_governance o (some k) =
      if o.is_production then denial (enforce_governance k (action_for o)) else pure none

  abbrev pub sized : Result SizingError (PositionSizeResult W) → M W X (PositionSizeResult W)
  sized (ok s) = pure s
  sized (err e) = raise (sizing_refused e)

module _ {W X : Type 0} ⦃f : Float W⦄ (ex : OrderExecutor W X) where
  -- The loop of `_place_exchange_side_stops` over the take-profit levels.
  place_targets : List W → W → Trade W → M W X (Trade W)
  place_targets [] remaining t = pure t
  place_targets (level ∷ rest) remaining t = do
    let leg : W = elim rest [ [] ↦ remaining | _ ↦ remaining * partial_close_fraction ]
    r ← on_executor (ex.place_take_profit_order t.symbol t.side leg level)
    t' ←
        store
          (if r.success then record t { tp_order_ids = t.tp_order_ids ++ r.order_id ∷ [] } else t)
    place_targets rest (remaining - leg) t'

  unfoldable pub place_exchange_side_stops : Trade W → M W X (Trade W)
  unfolding place_targets
  place_exchange_side_stops t = do
    r ← on_executor (ex.place_stop_loss_order t.symbol t.side t.quantity t.sl_price)
    t₁ ← store (if r.success then record t { sl_order_id = some r.order_id } else t)
    t₂ ← place_targets t₁.take_profit_levels t₁.quantity t₁
    publish (exchange_stops_placed t₂)
    pure t₂

  -- From the filled order on.
  unfoldable pub open_position :
      Opportunity W → ℕ → PositionSizeResult W → W → OrderResult W → M W X (Trade W)
  unfolding place_exchange_side_stops
  open_position o id sizing quantity r = do
    publish (order_submitted o.symbol o.side quantity)
    publish (order_filled r.order_id r.fill_price)
    t ← store (opened_trade o id sizing r)
    publish (position_opened t)
    used ← gets (λ l. l.use_exchange_side_stops)
    if used then place_exchange_side_stops t else pure t

  unfoldable pub submit_sized : Opportunity W → ℕ → PositionSizeResult W → M W X (Trade W)
  unfolding open_position reject
  submit_sized o id sizing = do
    publish (entry_signal o.symbol o.side)
    if eq o.entry_price (lit 0 0) then raise zero_division else pure tt
    let quantity = sizing.position_size_usd / o.entry_price
    r ← on_executor (
        ex.submit_order (record {
          symbol = o.symbol;
          side = o.side;
          quantity = quantity;
          reference_price = o.entry_price;
        }))
    if r.success
        then open_position o id sizing quantity r
        else reject o id (order_submission_failed r.error)

  -- Once the size is known: the projected portfolio is checked against the hard caps.
  unfoldable pub open_if_within :
      Opportunity W → PortfolioState W → ℕ → PositionSizeResult W → M W X (Trade W)
  open_if_within o p id sizing = do
    breach ← hard_breach (project_portfolio p o sizing)
    reject_or o id (Option.map projected_hard_limit_breach breach) (submit_sized o id sizing)

  unfoldable pub validate_and_open : Opportunity W → PortfolioState W → ℕ → M W X (Trade W)
  validate_and_open o p id = do
    request ← gets (λ l. sizing_request l.risk_engine p o)
    sizing ← sized (calculate_position_size request)
    let exhausted = reject o id (sector_cap_exhausted (sector_for_symbol o.symbol))
    if le sizing.position_size_usd (lit 0 0) then exhausted else open_if_within o p id sizing

  unfoldable pub pass_governance : Opportunity W → PortfolioState W → ℕ → M W X (Trade W)
  pass_governance o p id = do
    kernel ← gets (λ l. l.kernel)
    denied ← ask_governance o kernel
    reject_or o id (Option.map governance_denied denied) (validate_and_open o p id)

  unfoldable pub pass_limits : Opportunity W → PortfolioState W → ℕ → M W X (Trade W)
  unfolding pass_governance
  pass_limits o p id = do
    breach ← hard_breach p
    reject_or o id (Option.map hard_limit_breach breach) (pass_governance o p id)

  unfoldable pub submit_opportunity : Opportunity W → PortfolioState W → ℕ → M W X (Trade W)
  unfolding pass_limits
  submit_opportunity o p id = do
    require_initialized
    publish (opportunity o.symbol o.side o.confidence)
    vetoed ← gets (λ l. veto l.risk_engine)
    reject_or o id (Option.map risk_veto vetoed) (pass_limits o p id)
