-- ===== src/Trading/Proposal.antt =====
-- What `submit_opportunity` (aitos/trading/lifecycle.py) computes from an opportunity and the
-- portfolio, before anything is written.
use text.Mathlib.Text.{◌==◌ as str_eq}
use project_alpha.Common.{
  ℕ, true, false, Option, none, some, List, [], ◌∷◌, ◌++◌, map, select, if◌then◌else◌,
}
use project_alpha.Float.{Float, lit, sum}
use project_alpha.Risk.Sector.{sector_for_symbol}
use project_alpha.Risk.Models.{PortfolioState, PositionSizeResult, LimitBreach, position_exposure}
use project_alpha.Risk.Engine.{RiskEngine, RiskScoreBreakdown}
use project_alpha.Risk.Sizing.{SizingRequest}
use project_alpha.Kernel.Governance.{Action}
use project_alpha.Trading.Trade.{TradeLifecycleState, Opportunity, Trade}
use project_alpha.Trading.Executor.{OrderResult}

-- `levels[0] if levels else default`
abbrev pub first_or : {A : Type 0} → A → List A → A
first_or d [] = d
first_or d (x ∷ xs) = x

module _ {W : Type 0} ⦃f : Float W⦄ where
  -- The trade that `_reject` returns; its reason goes with the event.
  unfoldable pub rejected_trade : Opportunity W → ℕ → Trade W
  rejected_trade o id = record {
    trade_id = id;
    symbol = o.symbol;
    side = o.side;
    entry_price = o.entry_price;
    quantity = lit 0 0;
    leverage = lit 0 0;
    position_size_usd = lit 0 0;
    risk_amount_usd = lit 0 0;
    strategy_id = o.strategy_id;
    explanation = o.rationale;
    sl_price = o.stop_loss_price;
    tp_price = first_or o.entry_price o.take_profit_levels;
    state = TradeLifecycleState.rejected;
    trailing_sl_enabled = false;
    breakeven_triggered = false;
    breakeven_at_r_multiple = none;
    take_profit_levels = o.take_profit_levels;
    partial_exits = [];
    sl_order_id = none;
    tp_order_ids = [];
    regime = "unknown";
    exit_price = none;
    exit_reason = none;
    pnl = none;
    pnl_percent = none;
  }

  unfoldable pub opened_trade : Opportunity W → ℕ → PositionSizeResult W → OrderResult W → Trade W
  unfolding rejected_trade
  opened_trade o id sizing r =
      let t = rejected_trade o id in
      record t {
        entry_price = r.fill_price;
        quantity = r.filled_quantity;
        leverage = sizing.leverage;
        position_size_usd = sizing.position_size_usd;
        risk_amount_usd = sizing.risk_amount_usd;
        state = TradeLifecycleState.position_opened;
        trailing_sl_enabled = o.trailing_sl_enabled;
        breakeven_at_r_multiple = o.breakeven_at_r_multiple;
        regime = o.regime;
      }

  -- `[b for b in breaches if b.is_hard_cap]`, its first element.
  unfoldable pub first_hard : List (LimitBreach W) → Option (LimitBreach W)
  first_hard [] = none
  first_hard (b ∷ bs) = if b.is_hard_cap then some b else first_hard bs

  unfoldable pub project_portfolio :
      PortfolioState W → Opportunity W → PositionSizeResult W → PortfolioState W
  project_portfolio p o sizing = record p {
    positions =
        p.positions ++ position_exposure o.symbol sizing.position_size_usd sizing.leverage "" ∷ [];
  }

  unfoldable pub existing_sector_notional : PortfolioState W → Opportunity W → W
  existing_sector_notional p o = sum (
      map (λ x. x.notional_usd)
        (select (λ x. str_eq x.sector (sector_for_symbol o.symbol)) p.positions))

  abbrev pub last_score : Option (RiskScoreBreakdown W) → W
  last_score none = lit 0 0
  last_score (some b) = b.total

  unfoldable pub sizing_request : RiskEngine W → PortfolioState W → Opportunity W → SizingRequest W
  unfolding existing_sector_notional
  sizing_request e p o = record {
    equity_usd = p.equity_usd;
    entry_price = o.entry_price;
    stop_loss_price = o.stop_loss_price;
    risk_limits = e.limits;
    risk_score = last_score e.last_assessment;
    win_rate = none;
    win_loss_ratio = none;
    volatility_percentile = p.volatility_percentile;
    correlation_penalty = p.max_pairwise_correlation;
    requested_risk_pct = none;
    base_leverage = lit 10 0;
    existing_sector_notional_usd = existing_sector_notional p o;
    sector_limit_pct = some e.limits.max_sector_exposure_pct;
  }

abbrev pub action_for : {W : Type 0} → Opportunity W → Action
action_for o = record {
  action_type = "order.submit";
  is_production = true;
  approved_by = o.approved_by;
}
