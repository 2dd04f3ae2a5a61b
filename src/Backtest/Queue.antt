-- ===== src/Backtest/Queue.antt =====
-- `QueueOrderLifecycle` of aitos/backtest/queue_lifecycle.py. Times and durations are numbers of
-- clock ticks, and identifiers are numbers in the order of the source's strings. The fees
-- are those of `FeeSchedule`.
pub mod Finality
use project_alpha.Common.{
  ℕ, ◌+◌, Bool, true, false, not, ◌&&◌, ◌||◌, Option, none, some, List, [], ◌∷◌, ◌++◌, ltb, leb,
  ◌==◌, Dict, lookup, insert, contains, select, map, if◌then◌else◌, Result, ok, err, raise_if,
  ◌>>=◌, ◌>>◌,
}
use project_alpha.Float.{Float, ◌-◌, ◌*◌, lit, lt, le, eq, min, max}

pub data QueueSide : Type 0 where
  buy sell : QueueSide

pub data OrderStatus : Type 0 where
  open_status partial filled cancelled expired : OrderStatus

pub record SimulatedOrder (W : Type 0) : Type 0 where
  pub order_id : ℕ
  pub side : QueueSide
  pub price : W
  pub quantity : W
  pub remaining : W
  pub queue_ahead : W
  pub created_at : ℕ
  pub status : OrderStatus
  pub last_queue_update : Option ℕ
  pub ttl : Option ℕ

pub record LifecycleFill (W : Type 0) : Type 0 where
  pub order_id : ℕ
  pub quantity : W
  pub price : W
  pub timestamp : ℕ

pub data QueueError : Type 0 where
  quantity_not_positive queue_ahead_negative duplicate_order_id : QueueError
  book_quantity_negative : QueueError

-- `order.status in {"open", "partial"}`
abbrev pub is_active : OrderStatus → Bool
is_active open_status = true
is_active partial = true
is_active _ = false

abbrev pub same_side : QueueSide → QueueSide → Bool
same_side buy buy = true
same_side sell sell = true
same_side _ _ = false

abbrev pub Orders : Type 0 → Type 0
Orders W = Dict (SimulatedOrder W)

-- An order is an object that the dictionary holds: what is written to it is written there.
abbrev pub write : {W : Type 0} → SimulatedOrder W → Orders W → Orders W
write o orders = insert o.order_id o orders

-- `order.ttl is not None and timestamp >= order.created_at + order.ttl`
abbrev pub is_due : {W : Type 0} → ℕ → SimulatedOrder W → Bool
is_due now o = elim o.ttl [ none ↦ false | some ttl ↦ leb (o.created_at + ttl) now ]

abbrev pub aged : {W : Type 0} → ℕ → SimulatedOrder W → SimulatedOrder W
aged now o =
    if is_active o.status && is_due now o
    then record o { status = expired; last_queue_update = some now }
    else o

-- The orders that `age` leaves.
unfoldable pub age : {W : Type 0} → ℕ → Orders W → Orders W
age now orders = map (λ e. (e.0, aged now e.1)) orders

-- `cancel` on the order that the dictionary has, if any.
abbrev pub cancel_found : {W : Type 0} → Option (SimulatedOrder W) → Orders W → Bool × Orders W
cancel_found none orders = (false, orders)
cancel_found (some o) orders =
    if is_active o.status
    then (true, write (record o { status = cancelled }) orders)
    else (false, orders)

unfoldable pub cancel : {W : Type 0} → ℕ → Orders W → Bool × Orders W
cancel id orders = cancel_found (lookup id orders) orders

-- `(created_at, order_id)` in order.
abbrev pub is_before : {W : Type 0} → SimulatedOrder W → SimulatedOrder W → Bool
is_before a b =
    ltb a.created_at b.created_at || a.created_at == b.created_at && leb a.order_id b.order_id

pub place_before :
    {W : Type 0} → SimulatedOrder W → List (SimulatedOrder W) → List (SimulatedOrder W)
place_before a [] = a ∷ []
place_before a (b ∷ bs) = if is_before a b then a ∷ b ∷ bs else b ∷ place_before a bs

pub sort_orders : {W : Type 0} → List (SimulatedOrder W) → List (SimulatedOrder W)
unfolding place_before
sort_orders [] = []
sort_orders (a ∷ rest) = place_before a (sort_orders rest)

pub record FeeSchedule (W : Type 0) : Type 0 where
  pub maker_rate : W
  pub taker_rate : W

pub data FeeError : Type 0 where
  fee_rate_negative notional_negative : FeeError

module _ {W : Type 0} ⦃f : Float W⦄ where
  unfoldable pub place : SimulatedOrder W → Orders W → Result QueueError (Orders W)
  place o orders = do
    raise_if (le o.quantity (lit 0 0) || le o.remaining (lit 0 0)) quantity_not_positive
    raise_if (lt o.queue_ahead (lit 0 0)) queue_ahead_negative
    raise_if (contains o.order_id orders) duplicate_order_id
    ok (write (record o { last_queue_update = some o.created_at }) orders)

  abbrev pub is_candidate : QueueSide → W → SimulatedOrder W → Bool
  is_candidate side price o = is_active o.status && same_side o.side side && eq o.price price

  abbrev pub candidates : QueueSide → W → Orders W → List (SimulatedOrder W)
  candidates side price orders =
      sort_orders (select (is_candidate side price) (map (λ e. e.1) orders))

  -- The loop of `on_book_change`.
  pub reduce_queues : ℕ → W → List (SimulatedOrder W) → Orders W → Orders W
  reduce_queues now reduction [] orders = orders
  reduce_queues now reduction (o ∷ os) orders =
      let consumed = min o.queue_ahead reduction in
      let o' = record o { queue_ahead = o.queue_ahead - consumed; last_queue_update = some now } in
      let skip = reduce_queues now reduction os orders in
      let go = reduce_queues now (reduction - consumed) os (write o' orders) in
      if le reduction (lit 0 0) then orders else if lt (lit 0 0) consumed then go else skip

  unfoldable pub on_book_change :
      QueueSide → W → W → W → ℕ → Orders W → Result QueueError (Orders W)
  unfolding reduce_queues
  on_book_change side price old_qty new_qty now orders = do
    raise_if (lt old_qty (lit 0 0) || lt new_qty (lit 0 0)) book_quantity_negative
    let orders' = age now orders
    let reduction = max (lit 0 0) (old_qty - new_qty)
    let reduced = reduce_queues now reduction (candidates side price orders') orders'
    ok (if le reduction (lit 0 0) then orders' else reduced)

  -- The order behind its queue, and what is left of the trade.
  abbrev pub queue_consumed : SimulatedOrder W → W → SimulatedOrder W × W
  queue_consumed o trade =
      let consumed = min o.queue_ahead trade in
      if lt (lit 0 0) o.queue_ahead
      then (record o { queue_ahead = o.queue_ahead - consumed }, trade - consumed)
      else (o, trade)

  abbrev pub fill_order : ℕ → SimulatedOrder W → W → SimulatedOrder W
  fill_order now o qty =
      let left = o.remaining - qty in
      record o {
        remaining = left;
        status = if le left (lit 1 12) then filled else partial;
        last_queue_update = some now;
      }

  -- The loop of `consume`: the fills, and the orders.
  pub consume_orders :
      ℕ → W → W → List (SimulatedOrder W) → Orders W → List (LifecycleFill W) × Orders W
  consume_orders now price trade [] orders = ([], orders)
  consume_orders now price trade (o ∷ os) orders =
      let (o₁, trade₁) = queue_consumed o trade in
      let waiting = consume_orders now price trade₁ os (write o₁ orders) in
      let qty = min o₁.remaining trade₁ in
      let (fills, rest) =
        consume_orders now price (trade₁ - qty) os (write (fill_order now o₁ qty) orders) in
      let fill : LifecycleFill W = record {
        order_id = o.order_id;
        quantity = qty;
        price = price;
        timestamp = now;
      } in
      if le trade (lit 0 0)
      then ([], orders)
      else if lt (lit 0 0) o₁.queue_ahead || le trade₁ (lit 0 0)
      then waiting
      else (fill ∷ fills, rest)

  unfoldable pub consume : QueueSide → W → W → ℕ → Orders W → List (LifecycleFill W) × Orders W
  unfolding consume_orders
  consume side price traded_qty now orders =
      let orders' = age now orders in
      if le traded_qty (lit 0 0)
      then ([], orders)
      else consume_orders now price traded_qty (candidates side price orders') orders'

  -- `FeeSchedule`, with `__post_init__`.
  unfoldable pub new_fee_schedule : W → W → Result FeeError (FeeSchedule W)
  new_fee_schedule maker taker = do
    raise_if (lt maker (lit 0 0) || lt taker (lit 0 0)) fee_rate_negative
    ok (record { maker_rate = maker; taker_rate = taker })

  unfoldable pub fee : FeeSchedule W → W → Bool → Result FeeError W
  fee s notional maker = do
    raise_if (lt notional (lit 0 0)) notional_negative
    ok (notional * (if maker then s.maker_rate else s.taker_rate))
