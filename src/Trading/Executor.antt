-- ===== src/Trading/Executor.antt =====
-- aitos/execution/order_executor.py: the interface that the lifecycle calls, with a state of the
-- executor's own, and the executor of paper trading. A call answers; what a live executor raises
-- is not modelled.
use Prim.Native.String.{String}
use project_alpha.Common.{ℕ, suc, Bool, true, Option, none}
use project_alpha.Float.{Float, ◌+◌, ◌*◌, ◌/◌, lit, neg, round}
use project_alpha.Trading.Trade.{TradeSide, long, short}

pub record OrderRequest (W : Type 0) : Type 0 where
  pub symbol : String
  pub side : TradeSide
  pub quantity : W
  pub reference_price : W

pub record OrderResult (W : Type 0) : Type 0 where
  pub order_id : ℕ
  pub symbol : String
  pub side : TradeSide
  pub filled_quantity : W
  pub fill_price : W
  pub success : Bool
  pub error : Option String

pub record OrderExecutor (W X : Type 0) : Type 0 where
  pub supports_exchange_side_stops : Bool
  pub submit_order : OrderRequest W → X → OrderResult W × X
  pub place_stop_loss_order : String → TradeSide → W → W → X → OrderResult W × X
  pub place_take_profit_order : String → TradeSide → W → W → X → OrderResult W × X
  pub cancel_resting_order : String → ℕ → X → X
  pub get_resting_order_status : String → ℕ → X → Option String × X

module _ {W : Type 0} ⦃f : Float W⦄ where
  abbrev pub slippage_sign : TradeSide → W
  slippage_sign long = lit 1 0
  slippage_sign short = neg (lit 1 0)

  -- `SimulatedOrderExecutor.submit_order`; the state counts the orders.
  unfoldable pub simulated_submit : W → OrderRequest W → ℕ → OrderResult W × ℕ
  simulated_submit slippage_bps r counter =
      let factor = lit 1 0 + slippage_bps / lit 10_000 0 * slippage_sign r.side in
      (
        record {
          order_id = suc counter;
          symbol = r.symbol;
          side = r.side;
          filled_quantity = r.quantity;
          fill_price = round 8 (r.reference_price * factor);
          success = true;
          error = none;
        },
        suc counter,
      )
