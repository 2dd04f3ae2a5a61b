-- ===== src/Feed/Book.antt =====
-- `LocalOrderBook` of aitos/exchange/orderbook.py: levels are price and quantity, and a side of the
-- book is the list of its levels in insertion order. Timestamps are left out.
pub mod Chain
use Prim.Native.String.{String}
use project_alpha.Common.{
  ℕ, suc, Bool, true, false, not, ◌&&◌, Option, none, some, List, [], ◌∷◌, ◌==◌, leb, take, select,
  if◌then◌else◌, Result, ok, err,
}
use project_alpha.Float.{Float, lit, lt, le, eq}

abbrev pub Levels : Type 0 → Type 0
Levels W = List (W × W)

pub record OrderBookSnapshot (W : Type 0) : Type 0 where
  pub bids : Levels W
  pub asks : Levels W
  pub last_update_id : ℕ

pub record DepthUpdate (W : Type 0) : Type 0 where
  pub first_update_id : ℕ
  pub final_update_id : ℕ
  pub previous_update_id : ℕ
  pub bids : Levels W
  pub asks : Levels W

-- The messages of `OrderBookSequenceError`.
pub data OrderBookSequenceError : Type 0 where
  not_seeded first_diff_does_not_bridge depth_chain_break : OrderBookSequenceError

pub record LocalOrderBook (W : Type 0) : Type 0 where
  pub max_levels : ℕ
  pub bids : Levels W
  pub asks : Levels W
  pub last_update_id : Option ℕ
  pub initialized : Bool
  pub awaiting_first_update : Bool

module _ {W : Type 0} ⦃f : Float W⦄ where
  -- `book.pop(price, None)`
  pop_level : W → Levels W → Levels W
  pop_level price [] = []
  pop_level price (level ∷ rest) = if eq price level.0 then rest else level ∷ pop_level price rest

  -- `book[price] = quantity`
  set_level : W → W → Levels W → Levels W
  set_level price quantity [] = (price, quantity) ∷ []
  set_level price quantity (level ∷ rest) =
      if eq price level.0 then (level.0, quantity) ∷ rest else level ∷ set_level price quantity rest

  apply_levels : Levels W → Levels W → Levels W
  unfolding pop_level set_level
  apply_levels book [] = book
  apply_levels book ((price, quantity) ∷ rest) =
      apply_levels
        (if le quantity (lit 0 0) then pop_level price book else set_level price quantity book) rest

  -- `{p: q for p, q in levels if q > 0}`
  seed_levels : Levels W → Levels W → Levels W
  unfolding set_level
  seed_levels book [] = book
  seed_levels book ((price, quantity) ∷ rest) =
      seed_levels (if lt (lit 0 0) quantity then set_level price quantity book else book) rest

  unfoldable pub seed : LocalOrderBook W → OrderBookSnapshot W → LocalOrderBook W
  unfolding seed_levels
  seed b s = record b {
    bids = seed_levels [] s.bids;
    asks = seed_levels [] s.asks;
    last_update_id = some s.last_update_id;
    initialized = true;
    awaiting_first_update = true;
  }

  apply_both : LocalOrderBook W → DepthUpdate W → LocalOrderBook W
  unfolding apply_levels
  apply_both b u = record b {
    bids = apply_levels b.bids u.bids;
    asks = apply_levels b.asks u.asks;
    last_update_id = some u.final_update_id;
    awaiting_first_update = false;
  }

  -- `apply` on a seeded book whose last id is known.
  apply_known :
      LocalOrderBook W → ℕ → DepthUpdate W → Result OrderBookSequenceError (LocalOrderBook W)
  apply_known b last u =
      if leb u.final_update_id last
      then ok b
      else if b.awaiting_first_update
      then (if leb u.first_update_id (suc last) && leb (suc last) u.final_update_id
          then ok (apply_both b u)
          else err first_diff_does_not_bridge)
      else if not (u.previous_update_id == last)
      then err depth_chain_break
      else ok (apply_both b u)

  -- The book that `apply` leaves; the snapshot that it answers is `snapshot` of it.
  unfoldable pub apply_update :
      LocalOrderBook W → DepthUpdate W → Result OrderBookSequenceError (LocalOrderBook W)
  unfolding apply_known apply_both
  apply_update b u = elim b.last_update_id [
    | none ↦ err not_seeded
    | some last ↦ if b.initialized then apply_known b last u else err not_seeded
  ]

  unfoldable pub reset_book : LocalOrderBook W → LocalOrderBook W
  reset_book b = record b {
    bids = [];
    asks = [];
    last_update_id = none;
    initialized = false;
    awaiting_first_update = false;
  }
