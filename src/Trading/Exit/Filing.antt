-- ===== src/Trading/Exit/Filing.antt =====
-- What the reconciliation of a trade adds to the closed trades, for `reconcile_trade` of
-- aitos/trading/lifecycle.py. `Leaves P m` says that `m` adds none and that what it returns satisfies
-- `P`; `Files m` that it adds one if it returns a closed trade, and none if it raises or returns an
-- open one.
use Prim.Native.String.{String}
use project_alpha.Common.{
  ℕ, suc, ◌≡◌, refl, arith, Bool, true, false, ◌&&◌, Option, none, some, List, [], ◌∷◌, length,
  length-append, ◌⊎◌, inl, inr, if◌then◌else◌, Bool-cases, Option-cases, lookup, AllEntries-lookup,
  Result, ok, err,
}
use project_alpha.Float.{Float, lit, eq}
use project_alpha.Trading.Trade.{TradeLifecycleState, Trade}
use project_alpha.Trading.Position.{is_opened, closed_at, partially_closed}
use project_alpha.Trading.Executor.{OrderExecutor}
use project_alpha.Trading.Invariant.{IsOpenedAs, IsClosed, IsValid}
use project_alpha.Trading.State.{
  Lifecycle, M, LifecycleError, TradeEvent, zero_division, pure, raise, gets, publish, on_executor,
  store, require_initialized, find_open, remove_open, then_do, ◌>>=◌,
}
use project_alpha.Trading.Exit.{
  cancel_if, cancel_all, cancel_if_used, finish_close, close_trade, do_partial_close, order_filled,
  reconcile_target, reconcile_targets, reconcile_opened, reconcile_trade,
}

abbrev IsOpen : {W : Type 0} → Trade W → Type 0
IsOpen t = t.state ≡ TradeLifecycleState.position_opened

abbrev Any : {A : Type 0} → A → Type 0
Any a = Unit

module _ {W X : Type 0} where
  abbrev Left : {A : Type 0} → (A → Type 0) → ℕ → Result LifecycleError A × Lifecycle W X → Type 0
  Left P n (ok a, l) = (length l.closed_trades ≡ n) × P a
  Left P n (err e, l) = length l.closed_trades ≡ n

  -- The outcome of a call that found `n` closed trades.
  abbrev pub Filed : ℕ → Result LifecycleError (Trade W) × Lifecycle W X → Type 0
  Filed n (ok t, l) =
      (IsClosed t × (length l.closed_trades ≡ suc n)) ⊎ (IsOpen t × (length l.closed_trades ≡ n))
  Filed n (err e, l) = length l.closed_trades ≡ n

record Leaves {W X A : Type 0} (P : A → Type 0) (m : M W X A) : Type 0 where
  run : (n : ℕ) (l : Lifecycle W X) → length l.closed_trades ≡ n → Left P n (m l)

record Files {W X : Type 0} (m : M W X (Trade W)) : Type 0 where
  run : (n : ℕ) (l : Lifecycle W X) → length l.closed_trades ≡ n → Filed n (m l)

module _ {W X A : Type 0} {P : A → Type 0} where
  Left-then :
      {B : Type 0} {Q : B → Type 0} (n : ℕ) (r : Result LifecycleError A × Lifecycle W X)
      (k : A → M W X B)
      → Left P n r
      → ((a : A) → P a → Leaves Q (k a))
      → Left Q n (then_do k r)
  Left-then n (ok a, l) k (same, p) next = (next a p).run n l same
  Left-then n (err e, l) k same next = same

  Leaves-bind :
      {B : Type 0} {Q : B → Type 0} {m : M W X A} {k : A → M W X B}
      → Leaves P m
      → ((a : A) → P a → Leaves Q (k a))
      → Leaves Q (m >>= k)
  unfolding ◌>>=◌
  Leaves-bind {m} {k} h next = record {
    run = λ n l same. Left-then n (m l) k (h.run n l same) next;
  }

  Filed-then :
      (n : ℕ) (r : Result LifecycleError A × Lifecycle W X) (k : A → M W X (Trade W))
      → Left P n r
      → ((a : A) → P a → Files (k a))
      → Filed n (then_do k r)
  Filed-then n (ok a, l) k (same, p) next = (next a p).run n l same
  Filed-then n (err e, l) k same next = same

  Files-bind :
      {m : M W X A} {k : A → M W X (Trade W)}
      → Leaves P m
      → ((a : A) → P a → Files (k a))
      → Files (m >>= k)
  unfolding ◌>>=◌
  Files-bind {m} {k} h next = record {
    run = λ n l same. Filed-then n (m l) k (h.run n l same) next;
  }

  Leaves-if :
      (b : Bool) {m m' : M W X A} → Leaves P m → Leaves P m' → Leaves P (if b then m else m')
  Leaves-if true h k = h
  Leaves-if false h k = k

  Leaves-pure : {a : A} → P a → Leaves {W = W} {X = X} P (pure a)
  Leaves-pure p = record { run = λ n l same. (same, p) }

  Leaves-raise : (e : LifecycleError) → Leaves {W = W} {X = X} P (raise e)
  Leaves-raise e = record { run = λ n l same. same }

module _ {W X : Type 0} where
  Leaves-gets : {A : Type 0} (g : Lifecycle W X → A) → Leaves Any (gets g)
  Leaves-gets g = record { run = λ n l same. (same, tt) }

  Leaves-on_executor : {A : Type 0} (g : X → A × X) → Leaves {W = W} Any (on_executor g)
  Leaves-on_executor g = record { run = λ n l same. (same, tt) }

  Leaves-publish : (e : TradeEvent W) → Leaves {X = X} Any (publish e)
  Leaves-publish e = record { run = λ n l same. (same, tt) }

  Leaves-store : {P : Trade W → Type 0} {t : Trade W} → P t → Leaves {X = X} P (store t)
  Leaves-store p = record { run = λ n l same. (same, p) }

  Leaves-remove_open : (id : ℕ) → Leaves {W = W} {X = X} Any (remove_open id)
  Leaves-remove_open id = record { run = λ n l same. (same, tt) }

  Leaves-require_initialized : Leaves {W = W} {X = X} Any require_initialized
  Leaves-require_initialized = record {
    run = λ n l same. elim (Bool-cases l.initialized) [
      | inl up ↦ rw up (same, tt)
      | inr down ↦ rw down same
    ];
  }

  Leaves-find_open : (id : ℕ) → Leaves {W = W} {X = X} Any (find_open id)
  unfolding ◌>>=◌
  Leaves-find_open id = record {
    run = λ n l same. elim (Option-cases (lookup id l.open_trades)) [
      | inl missing ↦ rw missing same
      | inr (t, found) ↦ rw found (same, tt)
    ];
  }

  Files-if : (b : Bool) {m m' : M W X (Trade W)} → Files m → Files m' → Files (if b then m else m')
  Files-if true h k = h
  Files-if false h k = k

  Files-pure : {t : Trade W} → IsOpen t → Files {X = X} (pure t)
  Files-pure h = record { run = λ n l same. inr (h, same) }

  Files-raise : (e : LifecycleError) → Files {W = W} {X = X} (raise e)
  Files-raise e = record { run = λ n l same. same }

  Left-Filed :
      (n : ℕ) (r : Result LifecycleError (Trade W) × Lifecycle W X) → Left IsOpen n r → Filed n r
  Left-Filed n (ok t, l) (same, h) = inr (h, same)
  Left-Filed n (err e, l) same = same

  Files-Leaves : {m : M W X (Trade W)} → Leaves IsOpen m → Files m
  Files-Leaves {m} h = record { run = λ n l same. Left-Filed n (m l) (h.run n l same) }

module _ {W X : Type 0} ⦃f : Float W⦄ (ex : OrderExecutor W X) where
  cancel_if-Leaves : (s : String) (o : Option ℕ) → Leaves Any (cancel_if ex s o)
  unfolding cancel_if
  cancel_if-Leaves s none = Leaves-pure tt
  cancel_if-Leaves s (some id) = Leaves-on_executor _

  cancel_all-Leaves : (s : String) (ids : List ℕ) → Leaves Any (cancel_all ex s ids)
  unfolding cancel_all
  cancel_all-Leaves s [] = Leaves-pure tt
  cancel_all-Leaves s (id ∷ ids) = Leaves-bind (Leaves-on_executor _) λ _ _. cancel_all-Leaves s ids

  cancel_if_used-Leaves : (t : Trade W) → IsClosed t → Leaves IsClosed (cancel_if_used ex t)
  unfolding cancel_if_used
  cancel_if_used-Leaves t h = Leaves-bind (Leaves-gets _) λ used _.
      Leaves-if used
        (Leaves-bind (cancel_if-Leaves t.symbol t.sl_order_id)
          λ _ _. Leaves-bind (cancel_all-Leaves t.symbol t.tp_order_ids) λ _ _. Leaves-pure h)
        (Leaves-pure h)

  finish_close-Files : (t : Trade W) → IsClosed t → Files (finish_close ex t)
  unfolding finish_close ◌>>=◌
  finish_close-Files t h = Files-bind (cancel_if_used-Leaves t h) λ t' h'. record {
    run = λ n l same. inl (h', omega (arith, same, length-append l.closed_trades (t' ∷ [])));
  }

  close_trade-Files :
      (id : ℕ) (price : W) (reason : String) → Files (close_trade ex id price reason)
  unfolding close_trade closed_at
  close_trade-Files id price reason = Files-bind Leaves-require_initialized λ _ _.
      Files-bind (Leaves-find_open id) λ t _. Files-bind (Leaves-remove_open id) λ _ _.
        Files-if (eq t.entry_price (lit 0 0)) (Files-raise zero_division)
          (finish_close-Files _ refl)

  do_partial_close-Leaves :
      (t : Trade W) (price : W) → IsOpen t → Leaves IsOpen (do_partial_close ex t price)
  unfolding do_partial_close partially_closed
  do_partial_close-Leaves t price h =
      Leaves-if (eq t.entry_price (lit 0 0)) (Leaves-raise zero_division)
        (Leaves-bind (Leaves-store h) λ t' h'. Leaves-bind (Leaves-publish _) λ _ _. Leaves-pure h')

  order_filled-Leaves : (s : String) (o : Option ℕ) → Leaves Any (order_filled ex s o)
  unfolding order_filled
  order_filled-Leaves s none = Leaves-pure tt
  order_filled-Leaves s (some id) = Leaves-bind (Leaves-on_executor _) λ _ _. Leaves-pure tt

  reconcile_target-Files :
      (targets : List W) (t : Trade W) → IsOpen t → Files (reconcile_target ex targets t)
  unfolding reconcile_target
  reconcile_target-Files [] t h = close_trade-Files _ _ _
  reconcile_target-Files (level ∷ []) t h = close_trade-Files _ _ _
  reconcile_target-Files (level ∷ next ∷ rest) t h =
      Files-Leaves (Leaves-bind (do_partial_close-Leaves t level h) λ t' h'. Leaves-store h')

  reconcile_opened-Files : (t : Trade W) → IsOpen t → Files (reconcile_opened ex t)
  unfolding reconcile_opened reconcile_targets
  reconcile_opened-Files t h = Files-bind (order_filled-Leaves t.symbol t.sl_order_id) λ stopped _.
      Files-if stopped (close_trade-Files _ _ _) (
        Files-bind (order_filled-Leaves t.symbol _) λ taken _.
          Files-if taken (reconcile_target-Files t.take_profit_levels t h) (Files-pure h))

  -- The reconciliation of a trade over valid books adds one closed trade if it returns the trade as
  -- closed, and none if it returns it as open or raises.
  pub reconcile_trade-Filed :
      (id : ℕ) (l : Lifecycle W X)
      → IsValid l
      → Filed (length l.closed_trades) (reconcile_trade ex id l)
  unfolding reconcile_trade ◌>>=◌
  reconcile_trade-Filed id l valid = elim (Bool-cases l.initialized) [
    | inr down ↦ rw down refl
    | inl up ↦ elim (Option-cases (lookup id l.open_trades)) [
      | inl missing ↦ simp (up, missing) refl
      | inr (t, found) ↦
          let opened = AllEntries-lookup IsOpenedAs id t l.open_trades valid.0 found in
          simp (up, found)
            ((Files-if (l.use_exchange_side_stops && is_opened t.state)
                (reconcile_opened-Files t opened.1) (Files-pure opened.1)).run
              _ _ refl)
    ]
  ]
