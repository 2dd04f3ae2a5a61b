-- ===== src/Trading/Invariant.antt =====
-- What holds of the lifecycle's books between two calls.
use project_alpha.Common.{ℕ, ◌≡◌, refl, AllEntries, All, insert-AllEntries}
use project_alpha.Trading.Trade.{TradeLifecycleState, Trade}
use project_alpha.Trading.State.{Lifecycle, store}

abbrev pub IsOpenedAs : {W : Type 0} → ℕ → Trade W → Type 0
IsOpenedAs id t = (t.trade_id ≡ id) × (t.state ≡ TradeLifecycleState.position_opened)

abbrev pub IsClosed : {W : Type 0} → Trade W → Type 0
IsClosed t = t.state ≡ TradeLifecycleState.position_closed

-- Each open trade is listed once, under its own identifier and as opened, and each trade in the
-- closed list is closed.
abbrev pub IsValid : {W X : Type 0} → Lifecycle W X → Type 0
IsValid l = AllEntries IsOpenedAs l.open_trades × All IsClosed l.closed_trades

pub store-IsValid :
    {W X : Type 0} (t : Trade W) (l : Lifecycle W X)
    → IsValid l
    → t.state ≡ TradeLifecycleState.position_opened
    → IsValid (store t l).1
store-IsValid t l v h = (insert-AllEntries IsOpenedAs t.trade_id t l.open_trades v.0 (refl, h), v.1)
