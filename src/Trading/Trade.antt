-- ===== src/Trading/Trade.antt =====
-- aitos/models/trade.py. Times (`entry_time`, `exit_time`, `updated_at`, `detected_at`) and the
-- dictionary `agent_consensus`, which are stored and never read, are left out; identifiers that
-- the program makes up are numbers.
use Prim.Native.String.{String}
use project_alpha.Common.{ℕ, Bool, Option, List, if◌then◌else◌}
use project_alpha.Float.{Float, ◌-◌, ◌*◌, ◌/◌, lit, neg, abs, eq}

pub data TradeSide : Type 0 where
  long short : TradeSide

pub data TradeLifecycleState : Type 0 where
  opportunity_detected entry_validated rejected order_submitted : TradeLifecycleState
  position_opened exit_triggered position_closed : TradeLifecycleState

pub record Opportunity (W : Type 0) : Type 0 where
  pub symbol : String
  pub side : TradeSide
  pub entry_price : W
  pub stop_loss_price : W
  pub take_profit_levels : List W
  pub confidence : W
  pub strategy_id : String
  pub rationale : String
  pub is_production : Bool
  pub approved_by : Option String
  pub trailing_sl_enabled : Bool
  pub breakeven_at_r_multiple : Option W
  pub regime : String

pub record PartialExit (W : Type 0) : Type 0 where
  pub price : W
  pub size_usd : W
  pub r_multiple : W

pub record Trade (W : Type 0) : Type 0 where
  pub trade_id : ℕ
  pub symbol : String
  pub side : TradeSide
  pub entry_price : W
  pub quantity : W
  pub leverage : W
  pub position_size_usd : W
  pub risk_amount_usd : W
  pub strategy_id : String
  pub explanation : String
  pub sl_price : W
  pub tp_price : W
  pub state : TradeLifecycleState
  pub trailing_sl_enabled : Bool
  pub breakeven_triggered : Bool
  pub breakeven_at_r_multiple : Option W
  pub take_profit_levels : List W
  pub partial_exits : List (PartialExit W)
  pub sl_order_id : Option ℕ
  pub tp_order_ids : List ℕ
  pub regime : String
  pub exit_price : Option W
  pub exit_reason : Option String
  pub pnl : Option W
  pub pnl_percent : Option W

module _ {W : Type 0} ⦃f : Float W⦄ where
  -- `x * direction`, where `direction` is 1 for a long and -1 for a short.
  abbrev pub directed : TradeSide → W → W
  directed long x = x * lit 1 0
  directed short x = x * neg (lit 1 0)

  unfoldable pub r_distance : Trade W → W
  r_distance t = abs (t.entry_price - t.sl_price)

  unfoldable pub unrealized_r_multiple : Trade W → W → W
  unfolding r_distance
  unrealized_r_multiple t price =
      if eq (r_distance t) (lit 0 0)
      then lit 0 0
      else directed t.side (price - t.entry_price) / r_distance t
