-- ===== src/Trading/Gives.antt =====
-- Total correctness of the lifecycle's methods: `Gives P m` says that `m` returns from every state,
-- without raising, and that what it returns satisfies `P`.
use project_alpha.Common.{◌≡◌, refl, Bool, true, false, if◌then◌else◌, Result, ok, err}
use project_alpha.Trading.Trade.{Trade}
use project_alpha.Trading.State.{
  Lifecycle, M, LifecycleError, TradeEvent, pure, gets, publish, on_executor, store, then_do, ◌>>=◌,
}

abbrev pub Answers :
    {W X A : Type 0} → (A → Type 0) → Result LifecycleError A × Lifecycle W X → Type 0
Answers P (ok a, l) = P a
Answers P (err e, l) = ⊥

pub record Gives {W X A : Type 0} (P : A → Type 0) (m : M W X A) : Type 0 where
  pub run : (l : Lifecycle W X) → Answers P (m l)

module _ {W X A B : Type 0} {P : A → Type 0} {Q : B → Type 0} where
  Answers-then :
      (r : Result LifecycleError A × Lifecycle W X) (k : A → M W X B)
      → Answers P r
      → ((a : A) → P a → Gives Q (k a))
      → Answers Q (then_do k r)
  Answers-then (ok a, l) k p next = (next a p).run l
  Answers-then (err e, l) k p next = elim p [ ]

  pub Gives-bind :
      {m : M W X A} {k : A → M W X B}
      → Gives P m
      → ((a : A) → P a → Gives Q (k a))
      → Gives Q (m >>= k)
  unfolding ◌>>=◌
  Gives-bind {m} {k} h next = record { run = λ l. Answers-then (m l) k (h.run l) next }

module _ {W X A : Type 0} {P Q : A → Type 0} (imp : (a : A) → P a → Q a) where
  Answers-weaken : (r : Result LifecycleError A × Lifecycle W X) → Answers P r → Answers Q r
  Answers-weaken (ok a, l) p = imp a p
  Answers-weaken (err e, l) p = p

  pub Gives-weaken : {m : M W X A} → Gives P m → Gives Q m
  Gives-weaken {m} h = record { run = λ l. Answers-weaken (m l) (h.run l) }

module _ {W X A : Type 0} {P : A → Type 0} where
  pub Gives-if :
      (b : Bool) {m n : M W X A}
      → (b ≡ true → Gives P m)
      → (b ≡ false → Gives P n)
      → Gives P (if b then m else n)
  Gives-if true h k = h refl
  Gives-if false h k = k refl

  pub Gives-pure : {a : A} → P a → Gives {W = W} {X = X} P (pure a)
  Gives-pure p = record { run = λ l. p }

module _ {W X : Type 0} where
  pub Gives-gets : {A : Type 0} (g : Lifecycle W X → A) → Gives (λ a. Unit {0}) (gets g)
  Gives-gets g = record { run = λ l. tt }

  pub Gives-on_executor :
      {A : Type 0} (g : X → A × X) → Gives {W = W} (λ a. Unit {0}) (on_executor g)
  Gives-on_executor g = record { run = λ l. tt }

  pub Gives-publish : (e : TradeEvent W) → Gives {X = X} (λ a. Unit {0}) (publish e)
  Gives-publish e = record { run = λ l. tt }

  pub Gives-store : {P : Trade W → Type 0} {t : Trade W} → P t → Gives {X = X} P (store t)
  Gives-store p = record { run = λ l. p }
