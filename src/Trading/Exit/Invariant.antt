-- ===== src/Trading/Exit/Invariant.antt =====
-- The validity of the books under the methods of an open position.
use Prim.Native.String.{String}
use project_alpha.Common.{
  ℕ, ◌≡◌, refl, Bool, true, false, ◌&&◌, Option, none, some, List, [], ◌∷◌, ◌⊎◌, inl, inr, lookup,
  erase, All, if◌then◌else◌, erase-insert-AllEntries, lookup-insert_self, All-append, AllEntries,
  erase-AllEntries,
}
use project_alpha.Float.{Float, lit, eq}
use project_alpha.Trading.Trade.{TradeLifecycleState, Trade}
use project_alpha.Trading.Position.{
  closed_at, stop_hit, target_hit, breakeven_due, trailing_candidate, improves, is_opened,
}
use project_alpha.Trading.Executor.{OrderExecutor}
use project_alpha.Trading.State.{
  Lifecycle, M, TradeEvent, zero_division, position_updated, trailing_sl, raise, ◌>>=◌,
}
use project_alpha.Trading.Keeps.{
  Ends, Keeps, Keeps-weaken, Any, IsOpenTrade, Keeps-bind, Keeps-if, Keeps-pure, Keeps-raise,
  Keeps-gets, Keeps-on_executor, Keeps-publish, Keeps-store, Keeps-require_initialized,
  Keeps-find_open,
}
use project_alpha.Trading.Invariant.{IsOpenedAs, IsClosed}
use project_alpha.Trading.Exit.{
  cancel_if, cancel_all, replace_if_used, finish_close, close_trade, trigger_exit, do_partial_close,
  consume_order, cancel_if_used, take_profit, stop_moved, adjust_stop, check_target, update_opened,
  update_price, order_filled, reconcile_target, reconcile_trade,
}

module _ {W X : Type 0} ⦃f : Float W⦄ (ex : OrderExecutor W X) where
  cancel_if-Keeps : (s : String) (o : Option ℕ) → Keeps Any (cancel_if ex s o)
  unfolding cancel_if
  cancel_if-Keeps s none = Keeps-pure tt
  cancel_if-Keeps s (some id) = Keeps-on_executor _

  cancel_all-Keeps : (s : String) (ids : List ℕ) → Keeps Any (cancel_all ex s ids)
  unfolding cancel_all
  cancel_all-Keeps s [] = Keeps-pure tt
  cancel_all-Keeps s (id ∷ ids) = Keeps-bind (Keeps-on_executor _) λ _ _. cancel_all-Keeps s ids

  replace_if_used-Keeps : (t : Trade W) → IsOpenTrade t → Keeps IsOpenTrade (replace_if_used ex t)
  unfolding replace_if_used
  replace_if_used-Keeps t h = Keeps-bind (Keeps-gets _) λ used _.
      Keeps-if used
        (λ _.
          Keeps-bind (cancel_if-Keeps t.symbol t.sl_order_id)
            λ _ _. Keeps-bind (Keeps-on_executor _) λ r _. Keeps-store h)
        (λ _. Keeps-pure h)

  stop_moved-Keeps :
      (event : Trade W → TradeEvent W) (t : Trade W)
      → IsOpenTrade t
      → Keeps IsOpenTrade (stop_moved ex event t)
  unfolding stop_moved
  stop_moved-Keeps event t h = Keeps-bind (Keeps-store h) λ t₁ h₁.
      Keeps-bind (replace_if_used-Keeps t₁ h₁)
        λ t₂ h₂. Keeps-bind (Keeps-publish (event t₂)) λ _ _. Keeps-pure h₂

  adjust_stop-Keeps :
      (t : Trade W) (price : W) → IsOpenTrade t → Keeps IsOpenTrade (adjust_stop ex t price)
  unfolding adjust_stop
  adjust_stop-Keeps t price h =
      Keeps-bind
        (Keeps-if (breakeven_due t price) (λ _. stop_moved-Keeps position_updated _ h)
          (λ _. Keeps-pure h))
        λ t' h'.
          Keeps-if (t'.trailing_sl_enabled && improves t' (trailing_candidate t' price))
            (λ _. stop_moved-Keeps trailing_sl _ h') (λ _. Keeps-pure h')

  do_partial_close-Keeps :
      (t : Trade W) (price : W) → IsOpenTrade t → Keeps IsOpenTrade (do_partial_close ex t price)
  unfolding do_partial_close
  do_partial_close-Keeps t price h =
      Keeps-if (eq t.entry_price (lit 0 0)) (λ _. Keeps-raise zero_division)
        (λ _. Keeps-bind (Keeps-store h) λ t' h'. Keeps-bind (Keeps-publish _) λ _ _. Keeps-pure h')

  consume_order-Keeps :
      (t : Trade W) (ids : List ℕ) → IsOpenTrade t → Keeps IsOpenTrade (consume_order ex t ids)
  unfolding consume_order
  consume_order-Keeps t [] h = Keeps-pure h
  consume_order-Keeps t (id ∷ ids) h =
      Keeps-bind (Keeps-store h) λ t' h'. Keeps-bind (Keeps-on_executor _) λ _ _. Keeps-pure h'

  cancel_if_used-Keeps :
      {P : Trade W → Type 0} (t : Trade W)
      → P t
      → P (record t { sl_order_id = none; tp_order_ids = [] })
      → Keeps P (cancel_if_used ex t)
  unfolding cancel_if_used
  cancel_if_used-Keeps t p q = Keeps-bind (Keeps-gets _) λ used _.
      Keeps-if used
        (λ _.
          Keeps-bind (cancel_if-Keeps t.symbol t.sl_order_id)
            λ _ _. Keeps-bind (cancel_all-Keeps t.symbol t.tp_order_ids) λ _ _. Keeps-pure q)
        (λ _. Keeps-pure p)

  finish_close-Keeps : (t : Trade W) → IsClosed t → Keeps IsClosed (finish_close ex t)
  unfolding finish_close
  finish_close-Keeps t h = Keeps-bind (cancel_if_used-Keeps {P = IsClosed} t h h) λ t' h'.
      Keeps-bind {Q = Any}
        (record {
          run = λ l v.
              (((v.0.0, All-append IsClosed l.closed_trades (t' ∷ []) v.0.1 (h', tt)), v.1), tt);
        })
        λ _ _. Keeps-bind (Keeps-publish _) λ _ _. Keeps-pure h'

  -- The part of `close_trade` behind the removal of the trade from the open ones.
  close_found-Keeps :
      (t : Trade W) (price : W) (reason : String)
      → Keeps IsClosed (
          if eq t.entry_price (lit 0 0)
          then raise zero_division
          else finish_close ex (closed_at t price reason))
  unfolding closed_at
  close_found-Keeps t price reason =
      Keeps-if (eq t.entry_price (lit 0 0)) (λ _. Keeps-raise zero_division)
        (λ _. finish_close-Keeps _ refl)

  pub close_trade-Keeps :
      (id : ℕ) (price : W) (reason : String) → Keeps IsClosed (close_trade ex id price reason)
  unfolding close_trade
  close_trade-Keeps id price reason = Keeps-bind Keeps-require_initialized λ _ _.
      Keeps-bind (Keeps-find_open id) λ t _.
        Keeps-bind {Q = Any}
          (record {
            run = λ l v. (((erase-AllEntries IsOpenedAs id l.open_trades v.0.0, v.0.1), v.1), tt);
          })
          λ _ _. close_found-Keeps t price reason

  -- A close of a trade that is found ends well if the other open trades are valid.
  close_trade_found :
      (id : ℕ) (price : W) (reason : String) (t : Trade W) (l : Lifecycle W X)
      → l.initialized ≡ true
      → lookup id l.open_trades ≡ some t
      → AllEntries IsOpenedAs (erase id l.open_trades)
      → All IsClosed l.closed_trades
      → Ends IsClosed (close_trade ex id price reason l)
  unfolding close_trade ◌>>=◌
  close_trade_found id price reason t l i found rest closed =
      simp (i, found)
        ((close_found-Keeps t price reason).run
          (record l { initialized = true; open_trades = erase id l.open_trades })
          ((rest, closed), refl))

  -- While an exit is triggered the books are not valid: the trade is marked and not yet removed.
  trigger_exit-Keeps :
      (t : Trade W) (price : W) (by_stop : Bool) → Keeps IsClosed (trigger_exit ex t price by_stop)
  unfolding trigger_exit ◌>>=◌
  trigger_exit-Keeps t price by_stop = record {
    run = λ l v.
        let t' : Trade W = record t { state = TradeLifecycleState.exit_triggered } in
        close_trade_found t.trade_id price _ t' _ v.1
          (lookup-insert_self t.trade_id t' l.open_trades)
          (erase-insert-AllEntries IsOpenedAs t.trade_id t' l.open_trades v.0.0) v.0.1;
  }

  -- A trade that is open or closed, as the methods that may close it return it.
  abbrev pub IsSettled : Trade W → Type 0
  IsSettled t = IsOpenTrade t ⊎ IsClosed t

  Keeps-IsSettled : {m : M W X (Trade W)} → Keeps IsOpenTrade m → Keeps IsSettled m
  Keeps-IsSettled h = Keeps-weaken (λ t. inl) h

  take_profit-Keeps :
      (rest : List W) (t : Trade W) (price : W)
      → IsOpenTrade t
      → Keeps IsSettled (take_profit ex rest t price)
  unfolding take_profit
  take_profit-Keeps [] t price h = Keeps-weaken (λ t. inr) (trigger_exit-Keeps t price false)
  take_profit-Keeps (next ∷ rest) t price h = Keeps-IsSettled (
      Keeps-bind (do_partial_close-Keeps t price h) λ t₁ h₁. Keeps-bind (Keeps-store h₁) λ t₂ h₂.
        Keeps-bind (Keeps-gets _) λ used _.
          Keeps-if used (λ _. consume_order-Keeps t₂ t₂.tp_order_ids h₂) (λ _. Keeps-pure h₂))

  check_target-Keeps :
      (targets : List W) (t : Trade W) (price : W)
      → IsOpenTrade t
      → Keeps IsSettled (check_target ex targets t price)
  unfolding check_target
  check_target-Keeps [] t price h = Keeps-IsSettled (adjust_stop-Keeps t price h)
  check_target-Keeps (next ∷ rest) t price h =
      Keeps-if (target_hit t next price) (λ _. take_profit-Keeps rest t price h)
        (λ _. Keeps-IsSettled (adjust_stop-Keeps t price h))

  update_opened-Keeps :
      (t : Trade W) (price : W) → IsOpenTrade t → Keeps IsSettled (update_opened ex t price)
  unfolding update_opened
  update_opened-Keeps t price h =
      Keeps-if (stop_hit t price) (λ _. Keeps-weaken (λ t. inr) (trigger_exit-Keeps t price true))
        (λ _. check_target-Keeps t.take_profit_levels t price h)

  pub update_price-Keeps : (id : ℕ) (price : W) → Keeps IsSettled (update_price ex id price)
  unfolding update_price
  update_price-Keeps id price = Keeps-bind Keeps-require_initialized λ _ _.
      Keeps-bind (Keeps-find_open id) λ t h.
        Keeps-if (is_opened t.state) (λ _. update_opened-Keeps t price h) (λ _. Keeps-pure (inl h))

  order_filled-Keeps : (s : String) (o : Option ℕ) → Keeps Any (order_filled ex s o)
  unfolding order_filled
  order_filled-Keeps s none = Keeps-pure tt
  order_filled-Keeps s (some id) = Keeps-bind (Keeps-on_executor _) λ _ _. Keeps-pure tt

  reconcile_target-Keeps :
      (levels : List W) (t : Trade W)
      → IsOpenTrade t
      → Keeps IsSettled (reconcile_target ex levels t)
  unfolding reconcile_target
  reconcile_target-Keeps [] t h = Keeps-weaken (λ t. inr) (close_trade-Keeps t.trade_id _ _)
  reconcile_target-Keeps (level ∷ []) t h =
      Keeps-weaken (λ t. inr) (close_trade-Keeps t.trade_id _ _)
  reconcile_target-Keeps (level ∷ next ∷ rest) t h =
      Keeps-IsSettled (Keeps-bind (do_partial_close-Keeps t level h) λ t' h'. Keeps-store h')

  pub reconcile_trade-Keeps : (id : ℕ) → Keeps IsSettled (reconcile_trade ex id)
  unfolding reconcile_trade
  reconcile_trade-Keeps id = Keeps-bind Keeps-require_initialized λ _ _.
      Keeps-bind (Keeps-find_open id) λ t h. Keeps-bind (Keeps-gets _) λ used _.
        Keeps-if (used && is_opened t.state)
          (λ _. Keeps-bind (order_filled-Keeps t.symbol t.sl_order_id) λ stopped _.
            Keeps-if stopped (λ _. Keeps-weaken (λ t. inr) (close_trade-Keeps t.trade_id _ _))
              (λ _. Keeps-bind (order_filled-Keeps t.symbol _) λ taken _.
                Keeps-if taken (λ _. reconcile_target-Keeps t.take_profit_levels t h)
                  (λ _. Keeps-pure (inl h))))
          (λ _. Keeps-pure (inl h))
