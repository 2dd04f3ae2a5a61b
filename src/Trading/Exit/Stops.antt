-- ===== src/Trading/Exit/Stops.antt =====
-- What the stop loss of an open position does.
use Prim.Native.String.{String}
use project_alpha.Common.{
  ℕ, ◌≡◌, refl, sym, ap, ◌∙◌, arith, true, false, ◌&&◌, Option, none, some, [], ◌∷◌, ◌++◌, ◌⊎◌, inl,
  inr, lookup, erase, insert, erase-insert, AllEntries-lookup, lookup-insert_self,
  lookup-erase_self, Result, ok,
}
use project_alpha.Float.{Float, lit, eq, lt, le, abs, ◌-◌}
use project_alpha.Trading.Trade.{TradeLifecycleState, Trade, TradeSide, long, short, r_distance}
use project_alpha.Trading.Position.{
  closed_at, stop_hit, breakeven_due, trailing_candidate, improves,
}
use project_alpha.Trading.Executor.{OrderExecutor}
use project_alpha.Trading.Invariant.{IsOpenedAs, IsClosed, IsValid}
use project_alpha.Trading.State.{
  Lifecycle, LifecycleError, TradeEvent, position_updated, trailing_sl, sl_triggered, ◌>>=◌,
}
use project_alpha.Trading.Gives.{
  Gives, Gives-bind, Gives-if, Gives-pure, Gives-gets, Gives-on_executor, Gives-publish,
  Gives-store, Gives-weaken,
}
use project_alpha.Trading.Exit.{
  cancel_if, replace_stop_loss, replace_if_used, cancel_if_used, finish_close, close_trade,
  trigger_exit, stop_moved, move_to_breakeven, trail_stop, adjust_stop, update_opened, update_price,
  at_breakeven,
}

-- The trade without what its closing writes.
abbrev pub unclosed : {W : Type 0} → Trade W → Trade W
unclosed t = record t {
  pnl = none;
  pnl_percent = none;
  exit_price = none;
  exit_reason = none;
  state = TradeLifecycleState.position_opened;
}

abbrev without_order : {W : Type 0} → Trade W → Trade W
without_order t = record t { sl_order_id = none }

module _ {W X : Type 0} where
  -- The trade is closed at the price, for the reason, with its other fields as they were, and moved
  -- from the open trades to the end of the closed ones.
  abbrev pub IsClosedBy :
      ℕ
      → W
      → String
      → Trade W
      → Lifecycle W X
      → Result LifecycleError (Trade W) × Lifecycle W X
      → Type 0
  IsClosedBy id price reason t l (r, l') =
      (l'.open_trades ≡ erase id l.open_trades)
      × ((t' : Trade W) × (r ≡ ok t')
          × (unclosed t' ≡ unclosed t)
          × (t'.exit_reason ≡ some reason)
          × (t'.exit_price ≡ some price)
          × IsClosed t'
          × (l'.closed_trades ≡ l.closed_trades ++ t' ∷ []))

module _ {W : Type 0} ⦃f : Float W⦄ where
  -- A price at or through a stop loss: not above it for a long, not below it for a short.
  abbrev pub IsAtStop : TradeSide → W → W → Type 0
  IsAtStop long stop price = le price stop ≡ true
  IsAtStop short stop price = le stop price ≡ true

  stop_hit_at_stop :
      (side : TradeSide) (t : Trade W) (price : W)
      → t.side ≡ side
      → IsAtStop side t.sl_price price
      → stop_hit t price ≡ true
  unfolding stop_hit
  stop_hit_at_stop long t price e h = rw e h
  stop_hit_at_stop short t price e h = rw e h

  -- A stop loss that is strictly closer to the market: above the old one for a long, below it for
  -- a short.
  abbrev pub IsCloser : TradeSide → W → W → Type 0
  IsCloser long old new = lt old new ≡ true
  IsCloser short old new = lt new old ≡ true

  improves-IsCloser :
      (side : TradeSide) (t : Trade W) (new : W)
      → t.side ≡ side
      → improves t new ≡ true
      → IsCloser t.side t.sl_price new
  unfolding improves
  improves-IsCloser long t new e h = rw e (rw e at h)
  improves-IsCloser short t new e h = rw e (rw e at h)

module _ {W X : Type 0} ⦃f : Float W⦄ (ex : OrderExecutor W X) where
  -- Only the identifier of the resting order may differ.
  abbrev IsSameButOrder : Trade W → Trade W → Type 0
  IsSameButOrder t t' = without_order t' ≡ without_order t

  cancel_if-Gives : (s : String) (o : Option ℕ) → Gives (λ u. Unit {0}) (cancel_if ex s o)
  unfolding cancel_if
  cancel_if-Gives s none = Gives-pure tt
  cancel_if-Gives s (some id) = Gives-on_executor _

  replace_if_used-Gives : (t : Trade W) → Gives (IsSameButOrder t) (replace_if_used ex t)
  unfolding replace_if_used replace_stop_loss
  replace_if_used-Gives t = Gives-bind (Gives-gets _) λ used _.
      Gives-if used
        (λ _.
          Gives-bind (cancel_if-Gives t.symbol t.sl_order_id)
            λ _ _. Gives-bind (Gives-on_executor _) λ r _. Gives-store refl)
        (λ _. Gives-pure refl)

  stop_moved-Gives :
      (event : Trade W → TradeEvent W) (t : Trade W)
      → Gives (IsSameButOrder t) (stop_moved ex event t)
  unfolding stop_moved
  stop_moved-Gives event t = Gives-bind (Gives-store {P = λ t'. t' ≡ t} refl) λ t₁ e.
      Gives-bind (replace_if_used-Gives t₁)
        λ t₂ h. Gives-bind (Gives-publish _) λ _ _. Gives-pure (h ∙ ap without_order e)

  -- A trailing update returns the trade with its stop loss as it was or strictly closer to the
  -- market: above the old one for a long, below it for a short.
  pub trail_stop-improves :
      (t : Trade W) (price : W)
      → Gives
          (λ t'. (t'.sl_price ≡ t.sl_price) ⊎ IsCloser t.side t.sl_price t'.sl_price)
          (trail_stop ex t price)
  unfolding trail_stop
  trail_stop-improves t price =
      Gives-if (t.trailing_sl_enabled && improves t (trailing_candidate t price))
        (λ better.
          Gives-weaken
            (λ t' h.
              let at_candidate : t'.sl_price ≡ trailing_candidate t price =
                ap (λ x. x.sl_price) h in
              let improved : improves t t'.sl_price ≡ true = ground (arith, at_candidate) in
              inr (improves-IsCloser t.side t t'.sl_price refl improved))
            (stop_moved-Gives _ _))
        (λ _. Gives-pure (inl refl))

  close_trade-closes :
      (id : ℕ) (price : W) (reason : String) (t : Trade W) (l : Lifecycle W X)
      → l.initialized ≡ true
      → l.use_exchange_side_stops ≡ false
      → lookup id l.open_trades ≡ some t
      → eq t.entry_price (lit 0 0) ≡ false
      → IsClosedBy id price reason t l (close_trade ex id price reason l)
  unfolding close_trade finish_close cancel_if_used closed_at ◌>>=◌
  close_trade-closes id price reason t l i off found nonzero =
      simp (i, off, found, nonzero)
        (refl, (closed_at t price reason, refl, refl, refl, refl, refl, refl))

  abbrev marked : Trade W → W → Lifecycle W X → Lifecycle W X
  marked t price l =
      let t' : Trade W = record t { state = TradeLifecycleState.exit_triggered } in
      record l {
        initialized = true;
        open_trades = insert t.trade_id t' l.open_trades;
        published = l.published ++ sl_triggered t' price ∷ [];
      }

  update_price_at_stop :
      (id : ℕ) (price : W) (t : Trade W) (l : Lifecycle W X)
      → l.initialized ≡ true
      → lookup id l.open_trades ≡ some t
      → t.state ≡ TradeLifecycleState.position_opened
      → stop_hit t price ≡ true
      → update_price ex id price l
        ≡ close_trade ex t.trade_id price "sl_triggered" (marked t price l)
  unfolding update_price update_opened trigger_exit ◌>>=◌
  update_price_at_stop id price t l i found opened hit = simp (i, found, opened, hit) refl

  -- In an initialized lifecycle with valid books that uses no exchange-side stops, a price at or
  -- through the stop loss of an open trade, not above it for a long and not below it for a short,
  -- closes the trade if its entry price is not 0: at that price, with the reason "sl_triggered" and
  -- with all else as it was, but for the profit. It leaves the open trades and joins the end of
  -- the closed ones.
  pub stop_hit-closes :
      (id : ℕ) (price : W) (t : Trade W) (l : Lifecycle W X)
      → l.initialized ≡ true
      → l.use_exchange_side_stops ≡ false
      → IsValid l
      → lookup id l.open_trades ≡ some t
      → IsAtStop t.side t.sl_price price
      → eq t.entry_price (lit 0 0) ≡ false
      → IsClosedBy id price "sl_triggered" t l (update_price ex id price l)
        × (lookup id (update_price ex id price l).1.open_trades ≡ none)
  stop_hit-closes id price t l i off valid found at_stop nonzero =
      let hit = stop_hit_at_stop t.side t price refl at_stop in
      let known : IsOpenedAs id t = AllEntries-lookup IsOpenedAs id t l.open_trades valid.0 found in
      let t' : Trade W = record t { state = TradeLifecycleState.exit_triggered } in
      let closed : IsClosedBy t.trade_id price "sl_triggered" t' (marked t price l)
          (close_trade ex t.trade_id price "sl_triggered" (marked t price l)) =
        close_trade-closes t.trade_id price "sl_triggered" t' (marked t price l) refl off
          (lookup-insert_self t.trade_id t' l.open_trades) nonzero in
      let gone =
        closed.0
        ∙ erase-insert t.trade_id t' l.open_trades
        ∙ ap (λ k. erase k l.open_trades) known.0 in
      rw (update_price_at_stop id price t l i found known.1 hit)
        ((gone, closed.1), rw gone (lookup-erase_self IsOpenedAs id l.open_trades valid.0))

  move_to_breakeven-Gives :
      (t : Trade W) (price : W)
      → breakeven_due t price ≡ true
      → Gives (IsSameButOrder (at_breakeven t)) (move_to_breakeven ex t price)
  unfolding move_to_breakeven
  move_to_breakeven-Gives t price due = rw due (stop_moved-Gives position_updated (at_breakeven t))

  trailing_candidate_at_entry :
      (t : Trade W) (price : W)
      → t.side ≡ long
      → t.sl_price ≡ t.entry_price
      → t.entry_price - t.entry_price ≡ lit 0 0
      → abs (lit 0 0) ≡ lit {W = W} 0 0
      → price - lit 0 0 ≡ price
      → trailing_candidate t price ≡ price
  unfolding trailing_candidate r_distance
  trailing_candidate_at_entry t price side at_entry self zero exact = ground arith

  -- If the break-even move of a long with a trailing stop is due at a price above its entry, the same
  -- call puts the stop loss at that very price, since one unit of risk is then the distance from the
  -- entry price to itself. That distance is 0 and leaves the price as it is, which holds of finite
  -- floats.
  pub breakeven_trails_to_price :
      (t : Trade W) (price : W)
      → t.side ≡ long
      → breakeven_due t price ≡ true
      → t.trailing_sl_enabled ≡ true
      → lt t.entry_price price ≡ true
      → t.entry_price - t.entry_price ≡ lit 0 0
      → abs (lit 0 0) ≡ lit {W = W} 0 0
      → price - lit 0 0 ≡ price
      → Gives (λ t'. t'.sl_price ≡ price) (adjust_stop ex t price)
  unfolding adjust_stop trail_stop improves
  breakeven_trails_to_price t price side due trailing above self zero exact =
      Gives-bind (move_to_breakeven-Gives t price due) λ t' h.
        let entry : t'.entry_price ≡ t.entry_price = ap (λ x. x.entry_price) h in
        let at_entry : t'.sl_price ≡ t.entry_price = ap (λ x. x.sl_price) h in
        let is_long : t'.side ≡ long = ap (λ x. x.side) h ∙ side in
        let enabled : t'.trailing_sl_enabled ≡ true =
          ap (λ x. x.trailing_sl_enabled) h ∙ trailing in
        let candidate : trailing_candidate t' price ≡ price =
          trailing_candidate_at_entry t' price is_long (at_entry ∙ sym entry) (rw entry self) zero
            exact in
        let better : t'.trailing_sl_enabled && improves t' (trailing_candidate t' price) ≡ true =
          ground (arith, at_entry, is_long, enabled, candidate) in
        rw better (
          Gives-weaken (λ t₂ h₂. ap (λ x. x.sl_price) h₂ ∙ candidate)
            (stop_moved-Gives trailing_sl _))
