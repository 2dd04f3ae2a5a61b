-- ===== src/Trading/Lifecycle/Validity.antt =====
-- The validity of the books under sequences of calls.
use Prim.Native.String.{String}
use text.Mathlib.Text.{◌==◌ as str_eq}
use project_alpha.Common.{
  ℕ, ◌≡◌, arith, false, Option, none, some, List, [], ◌∷◌, inl, inr, Bool-cases, Result, ok, err,
}
use project_alpha.Float.{Float}
use project_alpha.Trading.Trade.{Trade}
use project_alpha.Trading.Executor.{OrderExecutor}
use project_alpha.Trading.Invariant.{IsValid}
use project_alpha.Trading.State.{Lifecycle, LifecycleError, M, module_not_initialized, ◌>>=◌}
use project_alpha.Trading.Keeps.{Keeps, Ends, Any, Keeps-bind, Keeps-if, Keeps-pure, Keeps-gets}
use project_alpha.Trading.Exit.{update_price, close_trade, reconcile_trade}
use project_alpha.Trading.Exit.Invariant.{
  update_price-Keeps, close_trade-Keeps, reconcile_trade-Keeps,
}
use project_alpha.Trading.Entry.{submit_opportunity}
use project_alpha.Trading.Entry.Invariant.{submit_opportunity-Keeps}
use project_alpha.Trading.Lifecycle.{
  LifecycleCall, initialize, submit, update, handle, close, reconcile, update_matching, update_all,
  handle_symbol, handle_event, perform, run_calls,
}

module _ {W X : Type 0} where
  Ends-IsValid :
      {A : Type 0} (Q : A → Type 0) (r : Result LifecycleError A × Lifecycle W X)
      → Ends Q r
      → IsValid r.1
  Ends-IsValid Q (ok a, l) e = e.0.0
  Ends-IsValid Q (err x, l) e = e.0

  -- A call that begins with the initialization check leaves the books valid, initialized or not.
  guarded-IsValid :
      {A : Type 0} {Q : A → Type 0} (m : M W X A) (l : Lifecycle W X)
      → (l.initialized ≡ false → m l ≡ (err module_not_initialized, l))
      → Keeps Q m
      → IsValid l
      → IsValid (m l).1
  guarded-IsValid {Q} m l refused h v = elim (Bool-cases l.initialized) [
    | inl i ↦ Ends-IsValid Q (m l) (h.run l (v, i))
    | inr i ↦ rw (refused i) v
  ]

module _ {W X : Type 0} ⦃f : Float W⦄ (ex : OrderExecutor W X) where
  pub reconcile_trade-IsValid :
      (id : ℕ) (l : Lifecycle W X) → IsValid l → IsValid (reconcile_trade ex id l).1
  unfolding reconcile_trade ◌>>=◌
  reconcile_trade-IsValid id l =
      guarded-IsValid (reconcile_trade ex id) l (λ i. ground arith) (reconcile_trade-Keeps ex id)

  update_matching-Keeps :
      (symbol : String) (price : W) (trades : List (ℕ × Trade W))
      → Keeps Any (update_matching ex symbol price trades)
  unfolding update_matching
  update_matching-Keeps symbol price [] = Keeps-pure tt
  update_matching-Keeps symbol price ((id, t) ∷ rest) =
      Keeps-if (str_eq t.symbol symbol)
        (λ _.
          Keeps-bind (update_price-Keeps ex t.trade_id price)
            λ _ _. update_matching-Keeps symbol price rest)
        (λ _. update_matching-Keeps symbol price rest)

  update_all-Keeps : (price : Option W) (symbol : String) → Keeps Any (update_all ex price symbol)
  update_all-Keeps none symbol = Keeps-pure tt
  update_all-Keeps (some price) symbol =
      Keeps-bind (Keeps-gets _) λ trades _. update_matching-Keeps symbol price trades

  handle_symbol-Keeps :
      (symbol : Option String) (price : Option W) → Keeps Any (handle_symbol ex symbol price)
  handle_symbol-Keeps none price = Keeps-pure tt
  handle_symbol-Keeps (some symbol) price =
      Keeps-if (str_eq symbol "") (λ _. Keeps-pure tt) (λ _. update_all-Keeps price symbol)

  handle_event-IsValid :
      (symbol : Option String) (price : Option W) (l : Lifecycle W X)
      → IsValid l
      → IsValid (handle_event ex symbol price l).1
  unfolding handle_event ◌>>=◌
  handle_event-IsValid symbol price l v = elim (Bool-cases l.initialized) [
    | inl i ↦ simp (i) (
        Ends-IsValid Any (handle_symbol ex symbol price l)
          ((handle_symbol-Keeps symbol price).run l (v, i)))
    | inr i ↦ rw i v
  ]

  perform-IsValid : (c : LifecycleCall W) (l : Lifecycle W X) → IsValid l → IsValid (perform ex c l)
  unfolding perform submit_opportunity update_price close_trade ◌>>=◌
  perform-IsValid initialize l v = v
  perform-IsValid (submit o p id) l v =
      guarded-IsValid (submit_opportunity ex o p id) l (λ i. ground arith)
        (submit_opportunity-Keeps ex o p id) v
  perform-IsValid (update id price) l v =
      guarded-IsValid (update_price ex id price) l (λ i. ground arith)
        (update_price-Keeps ex id price) v
  perform-IsValid (handle symbol price) l v = handle_event-IsValid symbol price l v
  perform-IsValid (close id price reason) l v =
      guarded-IsValid (close_trade ex id price reason) l (λ i. ground arith)
        (close_trade-Keeps ex id price reason) v
  perform-IsValid (reconcile id) l v = reconcile_trade-IsValid id l v

  -- Whatever calls are made, in whatever order and whatever the executor answers, every open trade
  -- stays listed under its own identifier and as opened, and every trade of the closed list stays
  -- closed, if that holds at the start.
  pub run_calls-IsValid :
      (cs : List (LifecycleCall W)) (l : Lifecycle W X) → IsValid l → IsValid (run_calls ex cs l)
  unfolding run_calls
  run_calls-IsValid [] l v = v
  run_calls-IsValid (c ∷ cs) l v = run_calls-IsValid cs (perform ex c l) (perform-IsValid c l v)
