-- ===== src/Trading/Keeps.antt =====
-- A logic for the lifecycle's methods: `Keeps Q m` says that `m`, run while the module is
-- initialized and its books are valid, leaves them so however it ends, and that what it returns
-- satisfies `Q`.
use project_alpha.Common.{
  ℕ, ◌≡◌, refl, Bool, true, false, Option, none, some, if◌then◌else◌, Result, ok, err, arith, inl,
  inr, Option-cases, lookup, AllEntries-lookup,
}
use project_alpha.Trading.Trade.{TradeLifecycleState, Trade}
use project_alpha.Trading.State.{
  Lifecycle, M, LifecycleError, TradeEvent, pure, raise, gets, or_raise, publish, on_executor,
  store, require_initialized, find_open, then_do, ◌>>=◌,
}
use project_alpha.Trading.Invariant.{IsOpenedAs, IsValid, store-IsValid}

abbrev pub IsRunning : {W X : Type 0} → Lifecycle W X → Type 0
IsRunning l = IsValid l × (l.initialized ≡ true)

abbrev pub Ends : {W X A : Type 0} → (A → Type 0) → Result LifecycleError A × Lifecycle W X → Type 0
Ends Q (ok a, l) = IsRunning l × Q a
Ends Q (err e, l) = IsRunning l

pub record Keeps {W X A : Type 0} (Q : A → Type 0) (m : M W X A) : Type 0 where
  pub run : (l : Lifecycle W X) → IsRunning l → Ends Q (m l)

abbrev pub Any : {A : Type 0} → A → Type 0
Any a = Unit

abbrev pub IsOpenTrade : {W : Type 0} → Trade W → Type 0
IsOpenTrade t = t.state ≡ TradeLifecycleState.position_opened

module _ {W X A B : Type 0} {Q : A → Type 0} {Q' : B → Type 0} where
  Ends-then :
      (r : Result LifecycleError A × Lifecycle W X) (k : A → M W X B)
      → Ends Q r
      → ((a : A) → Q a → Keeps Q' (k a))
      → Ends Q' (then_do k r)
  Ends-then (ok a, l) k e next = (next a e.1).run l e.0
  Ends-then (err x, l) k e next = e

  pub Keeps-bind :
      {m : M W X A} {k : A → M W X B}
      → Keeps Q m
      → ((a : A) → Q a → Keeps Q' (k a))
      → Keeps Q' (m >>= k)
  unfolding ◌>>=◌
  Keeps-bind {m} {k} h next = record { run = λ l v. Ends-then (m l) k (h.run l v) next }

module _ {W X A : Type 0} {Q Q' : A → Type 0} (imp : (a : A) → Q a → Q' a) where
  Ends-weaken : (r : Result LifecycleError A × Lifecycle W X) → Ends Q r → Ends Q' r
  Ends-weaken (ok a, l) e = (e.0, imp a e.1)
  Ends-weaken (err x, l) e = e

  pub Keeps-weaken : {m : M W X A} → Keeps Q m → Keeps Q' m
  Keeps-weaken {m} h = record { run = λ l v. Ends-weaken (m l) (h.run l v) }

module _ {W X A : Type 0} {Q : A → Type 0} where
  pub Keeps-if :
      (b : Bool) {m n : M W X A}
      → (b ≡ true → Keeps Q m)
      → (b ≡ false → Keeps Q n)
      → Keeps Q (if b then m else n)
  Keeps-if true h k = h refl
  Keeps-if false h k = k refl

  pub Keeps-pure : {a : A} → Q a → Keeps {W = W} {X = X} Q (pure a)
  Keeps-pure q = record { run = λ l v. (v, q) }

  pub Keeps-raise : (e : LifecycleError) → Keeps {W = W} {X = X} Q (raise e)
  Keeps-raise e = record { run = λ l v. v }

module _ {W X : Type 0} where
  pub Keeps-gets : {A : Type 0} (g : Lifecycle W X → A) → Keeps Any (gets g)
  Keeps-gets g = record { run = λ l v. (v, tt) }

  pub Keeps-on_executor : {A : Type 0} (g : X → A × X) → Keeps {W = W} Any (on_executor g)
  Keeps-on_executor g = record { run = λ l v. (v, tt) }

  pub Keeps-publish : (e : TradeEvent W) → Keeps {X = X} Any (publish e)
  Keeps-publish e = record { run = λ l v. (v, tt) }

  pub Keeps-store : {t : Trade W} → IsOpenTrade t → Keeps {X = X} IsOpenTrade (store t)
  Keeps-store {t} h = record { run = λ l v. ((store-IsValid t l v.0 h, v.1), h) }

  pub Keeps-store_if :
      (b : Bool) (t t' : Trade W)
      → IsOpenTrade t
      → IsOpenTrade t'
      → Keeps {X = X} IsOpenTrade (store (if b then t else t'))
  Keeps-store_if true t t' h h' = Keeps-store h
  Keeps-store_if false t t' h h' = Keeps-store h'

  pub Keeps-or_raise :
      {A : Type 0} (o : Option A) (e : LifecycleError) → Keeps {W = W} {X = X} Any (or_raise o e)
  Keeps-or_raise none e = Keeps-raise e
  Keeps-or_raise (some a) e = Keeps-pure tt

  pub Keeps-require_initialized : Keeps {W = W} {X = X} Any require_initialized
  Keeps-require_initialized = record { run = λ l v. ground arith }

  -- What is found among the open trades is open.
  pub Keeps-find_open : (id : ℕ) → Keeps {W = W} {X = X} IsOpenTrade (find_open id)
  unfolding ◌>>=◌
  Keeps-find_open id = record {
    run = λ l v. elim (Option-cases (lookup id l.open_trades)) [
      | inl missing ↦ rw missing v
      | inr (t, found) ↦
          rw found (v, (AllEntries-lookup IsOpenedAs id t l.open_trades v.0.0 found).1)
    ];
  }
