-- ===== src/Feed/Replay.antt =====
-- `OrderBookReconstructor` of aitos/data/orderbook_replay.py. A price is a number of ticks: as a
-- float it is only compared and a key. An update id is a number, or something that `int` refuses.
pub mod Refines
use project_alpha.Common.{
  ℕ, zero, suc, Bool, true, false, Option, none, some, List, [], ◌∷◌, ◌++◌, ltb, Dict, insert,
  erase, take, if◌then◌else◌,
}
use project_alpha.Common.Sort.{sort_by}
use project_alpha.Float.{Float, lit, lt, le}

pub data BookSide : Type 0 where
  buy_side sell_side : BookSide

pub data UpdateId : Type 0 where
  numeric : ℕ → UpdateId
  not_numeric missing : UpdateId

pub record CanonicalBookEvent (W : Type 0) : Type 0 where
  pub update_id : UpdateId
  pub side : BookSide
  pub price : ℕ
  pub quantity : W

pub record OrderBook (W : Type 0) : Type 0 where
  pub bids : Dict W
  pub asks : Dict W
  pub last_update_id : UpdateId

-- `current < previous`, when both are numbers.
abbrev pub is_stale : UpdateId → UpdateId → Bool
is_stale (numeric previous) (numeric current) = ltb current previous
is_stale (numeric previous) not_numeric = false
is_stale (numeric previous) missing = false
is_stale not_numeric current = false
is_stale missing current = false

abbrev pub levels : {W : Type 0} → BookSide → OrderBook W → Dict W
levels buy_side b = b.bids
levels sell_side b = b.asks

abbrev pub with_levels : {W : Type 0} → BookSide → Dict W → OrderBook W → OrderBook W
with_levels buy_side d b = record b { bids = d }
with_levels sell_side d b = record b { asks = d }

abbrev pub stamped : {W : Type 0} → UpdateId → OrderBook W → OrderBook W
stamped id b = record b { last_update_id = id }

abbrev pub empty_book : {W : Type 0} → OrderBook W
empty_book = record { bids = []; asks = []; last_update_id = missing }

abbrev pub reversed : {A : Type 0} → List A → List A
reversed [] = []
reversed (x ∷ xs) = reversed xs ++ x ∷ []

abbrev pub first_level : {A : Type 0} → List A → Option A
first_level [] = none
first_level (x ∷ xs) = some x

-- `sorted(self.asks.items())`, and `sorted(self.bids.items(), reverse=True)`: no price is listed
-- twice.
abbrev pub sorted_asks : {W : Type 0} → OrderBook W → Dict W
sorted_asks b = sort_by (λ l. l.0) b.asks

abbrev pub sorted_bids : {W : Type 0} → OrderBook W → Dict W
sorted_bids b = reversed (sort_by (λ l. l.0) b.bids)

-- `max(self.bids.items(), ...)` and `min(self.asks.items(), ...)`
abbrev pub best_bid : {W : Type 0} → OrderBook W → Option (ℕ × W)
best_bid b = first_level (sorted_bids b)

abbrev pub best_ask : {W : Type 0} → OrderBook W → Option (ℕ × W)
best_ask b = first_level (sorted_asks b)

-- For no levels, both lists are empty.
abbrev pub depth : {W : Type 0} → ℕ → OrderBook W → Dict W × Dict W
depth n b = (take n (sorted_bids b), take n (sorted_asks b))

module _ {W : Type 0} ⦃f : Float W⦄ where
  -- `{float(p): float(q) for p, q in levels if float(q) > 0}`
  pub seed_from : Dict W → Dict W → Dict W
  seed_from [] d = d
  seed_from ((p, q) ∷ rest) d = seed_from rest (if lt (lit 0 0) q then insert p q d else d)

  unfoldable pub load_snapshot : Dict W → Dict W → UpdateId → OrderBook W
  unfolding seed_from
  load_snapshot bids asks id = record {
    bids = seed_from bids [];
    asks = seed_from asks [];
    last_update_id = id;
  }

  abbrev pub set_quantity : ℕ → W → Dict W → Dict W
  set_quantity price quantity d =
      if le quantity (lit 0 0) then erase price d else insert price quantity d

  unfoldable pub apply_event : CanonicalBookEvent W → OrderBook W → Bool × OrderBook W
  apply_event e b =
      let b' = with_levels e.side (set_quantity e.price e.quantity (levels e.side b)) b in
      if is_stale b.last_update_id e.update_id then (false, b) else (true, stamped e.update_id b')

  -- The books after the updates that are accepted, and their number.
  pub apply_many : List (CanonicalBookEvent W) → ℕ → OrderBook W → ℕ × OrderBook W
  unfolding apply_event
  apply_many [] applied b = (applied, b)
  apply_many (e ∷ es) applied b =
      let r = apply_event e b in apply_many es (if r.0 then suc applied else applied) r.1

  pub states_after : List (CanonicalBookEvent W) → OrderBook W → List (OrderBook W)
  unfolding apply_event
  states_after [] b = []
  states_after (e ∷ es) b =
      let r = apply_event e b in let rest = states_after es r.1 in if r.0 then r.1 ∷ rest else rest

  -- `replay_snapshot_then_updates`
  unfoldable pub replay_snapshot_then_updates :
      Dict W → Dict W → UpdateId → List (CanonicalBookEvent W) → List (OrderBook W)
  unfolding load_snapshot states_after
  replay_snapshot_then_updates bids asks id es =
      let b = load_snapshot bids asks id in b ∷ states_after es b
