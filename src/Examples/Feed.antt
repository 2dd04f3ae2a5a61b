-- ===== src/Examples/Feed.antt =====
-- The theorems on market data, policies, models and the simulated market at concrete inputs.
use Prim.Native.String.{String}
use text.Mathlib.Text.{◌==◌ as str_eq}
use project_alpha.Common.{
  err, ℕ, ◌+◌, ◌≡◌, refl, ◌⊎◌, ◌≤◌, ◌<◌, true, false, none, some, List, [], ◌∷◌, lookup, All, ok,
}
use project_alpha.Float.Int.{ℤ, pos}
use project_alpha.Float.{sum, min}
use project_alpha.Float.Fixed.{fixed, fixed-IsOrdered}
use project_alpha.Feed.Sequence.{L2SequenceValidator, accepted}
use project_alpha.Feed.Sequence.Gaps.{IsConsecutive, accepted-IsConsecutive}
use project_alpha.Feed.Book.{LocalOrderBook, OrderBookSnapshot, DepthUpdate, seed, apply_update}
use project_alpha.Feed.Book.Chain.{
  IsChained, apply_update-IsChained, IsFilledBook, apply_stream, seed-IsFilledBook,
}
use project_alpha.Policy.Governance.{
  PolicyVersion, PolicyGovernance, PolicyRegistry, ActivePolicy, propose_promotion, split_last,
  rollback, has_invalid_weights, sum_is_not_one,
}
use project_alpha.Policy.Governance.Rollback.{
  Promotion, promote_all, roll_back, roll_back-promote_all,
}
use project_alpha.Policy.Models.{
  ModelArtifact, ModelStatus, champion, candidate, archived, promote, get_champion,
}
use project_alpha.Policy.Models.Promoted.{promote-get_champion}
use project_alpha.Policy.Models.Champion.{IsSoleChampion, promote-IsSoleChampion}
use project_alpha.Feed.Limiter.{TokenBucket, acquire, refill}
use project_alpha.Feed.Limiter.Grants.{Took, acquire-Took}
use project_alpha.Policy.Service.{PolicyRollbackService, PolicyTargets}
use project_alpha.Policy.Service.Failing.{rollbacks, approve_times, approve_times-Refuses}
use project_alpha.Backtest.Queue.{SimulatedOrder, Orders, buy, filled, open_status, consume}
use project_alpha.Backtest.Queue.Finality.{consume-lookup}
use project_alpha.Backtest.Margin.{PerpetualMarginModel, check_liquidation}
use project_alpha.Backtest.Margin.Liquidation.{
  opens, checks, margin_run, IsLiquidated, check_liquidation-IsLiquidated,
}
use project_alpha.Feed.Replay.{
  CanonicalBookEvent, OrderBook, numeric, buy_side, sell_side, load_snapshot, apply_many,
}
use project_alpha.Feed.Replay.Refines.{Implements, quote_all, quotes_of, apply_many-refines}
use project_alpha.Examples.Data.{whole}

abbrev validator : L2SequenceValidator
validator = record { require_contiguous = true; last = some 10 }

accepted-IsConsecutive_example : IsConsecutive 10 (accepted validator (10 ∷ 11 ∷ 9 ∷ 13 ∷ 12 ∷ []))
accepted-IsConsecutive_example =
    accepted-IsConsecutive validator 10 (10 ∷ 11 ∷ 9 ∷ 13 ∷ 12 ∷ []) refl refl

abbrev book : LocalOrderBook ℤ
book = record {
  max_levels = 20;
  bids = [];
  asks = [];
  last_update_id = some 100;
  initialized = true;
  awaiting_first_update = true;
}

abbrev snapshot : OrderBookSnapshot ℤ
snapshot = record {
  bids = (whole 99, whole 2) ∷ (whole 98, whole 0) ∷ [];
  asks = (whole 101, whole 3) ∷ [];
  last_update_id = 100;
}

abbrev update : DepthUpdate ℤ
update = record {
  first_update_id = 95;
  final_update_id = 103;
  previous_update_id = 94;
  bids = [];
  asks = [];
}

abbrev updated : LocalOrderBook ℤ
updated = record book { last_update_id = some 103; awaiting_first_update = false }

apply_update-IsChained_example :
    ((103 ≤ 100) × (updated ≡ book))
    ⊎ (IsChained book 100 update
        × (100 < 103)
        × (updated.last_update_id ≡ some 103)
        × (updated.awaiting_first_update ≡ false))
unfolding apply_update
apply_update-IsChained_example = apply_update-IsChained book 100 update {b' = updated} refl refl

seed-IsFilledBook_example : IsFilledBook (apply_stream (seed book snapshot) (update ∷ []))
seed-IsFilledBook_example = seed-IsFilledBook fixed-IsOrdered book snapshot (update ∷ [])

abbrev baseline : PolicyVersion ℤ
baseline = record { version = "baseline"; weights = ("trend", whole 1) ∷ []; source = "baseline" }

abbrev governance : PolicyGovernance ℤ
governance = record { active = baseline; history = [] }

abbrev promotion : Promotion ℤ
promotion = record {
  version = "v2";
  weights = ("trend", pos 4_000) ∷ ("flow", pos 6_000) ∷ [];
  shadow = record { eligible = true; reason = "" };
  approved = true;
}

abbrev promoted : PolicyGovernance ℤ
promoted = record {
  active = record { version = "v2"; weights = promotion.weights; source = "shadow-approved" };
  history = baseline ∷ [];
}

roll_back-promote_all_example : roll_back 1 promoted ≡ ok governance
unfolding promote_all propose_promotion has_invalid_weights sum_is_not_one sum
roll_back-promote_all_example =
    roll_back-promote_all (promotion ∷ []) governance {g' = promoted} refl

abbrev first_policy : ActivePolicy ℤ
first_policy = record {
  version = "baseline";
  weights = baseline.weights;
  min_confidence = pos 6_000;
}

abbrev registry : PolicyRegistry ℤ
registry = record { default_policy = first_policy; active = first_policy; stored = none }

abbrev activated : PolicyRegistry ℤ
activated =
    let policy : ActivePolicy ℤ = record {
      version = "v2";
      weights = promotion.weights;
      min_confidence = pos 6_000;
    } in
    record registry { active = policy; stored = some policy }

abbrev model : ModelStatus → ModelArtifact
model status = record { name = "lgbm"; version = "1"; kind = "classifier"; status = status }

abbrev newer : ModelStatus → ModelArtifact
newer status = record { name = "lgbm"; version = "2"; kind = "classifier"; status = status }

promote-IsSoleChampion_example :
    All (IsSoleChampion "lgbm" "2") (model archived ∷ newer champion ∷ [])
unfolding promote
promote-IsSoleChampion_example =
    promote-IsSoleChampion "lgbm" "2" (model champion ∷ newer candidate ∷ [])
      {rows' = model archived ∷ newer champion ∷ []} {a = newer champion} refl

promote-get_champion_example :
    ((r : ModelArtifact) × (get_champion "lgbm" (model archived ∷ newer champion ∷ []) ≡ some r)
      × (str_eq r.version "2" ≡ true))
    × ((n : String)
        → str_eq n "lgbm" ≡ false
        → get_champion n (model archived ∷ newer champion ∷ [])
          ≡ get_champion n (model champion ∷ newer candidate ∷ []))
unfolding promote
promote-get_champion_example =
    promote-get_champion "lgbm" "2" (model champion ∷ newer candidate ∷ [])
      {rows' = model archived ∷ newer champion ∷ []} {a = newer champion} refl

abbrev done_order : SimulatedOrder ℤ
done_order = record {
  order_id = 1;
  side = buy;
  price = whole 100;
  quantity = whole 1;
  remaining = whole 0;
  queue_ahead = whole 0;
  created_at = 5;
  status = filled;
  last_queue_update = some 6;
  ttl = none;
}

abbrev waiting_order : SimulatedOrder ℤ
waiting_order = record done_order { order_id = 2; remaining = whole 1; status = open_status }

abbrev orders : Orders ℤ
orders = (1, done_order) ∷ (2, waiting_order) ∷ []

consume-lookup_example : lookup 1 (consume buy (whole 100) (whole 3) 9 orders).1 ≡ some done_order
consume-lookup_example =
    consume-lookup buy (whole 100) (whole 3) 9 1 orders done_order (refl, refl, (refl, refl, tt))
      refl refl

abbrev margin : PerpetualMarginModel ℤ
margin = record {
  wallet_balance = whole 10;
  leverage = whole 10;
  maintenance_rate = pos 50;
  position_qty = whole 1;
  entry_price = whole 100;
  funding_paid = whole 0;
  liquidated = false;
}

check_liquidation-IsLiquidated_example :
    (m' : PerpetualMarginModel ℤ) × (check_liquidation margin (whole 85) ≡ ok (true, m'))
    × IsLiquidated (margin_run m' (opens (whole 1) (whole 90) ∷ checks (whole 120) ∷ []))
check_liquidation-IsLiquidated_example =
    check_liquidation-IsLiquidated margin (whole 85)
      (opens (whole 1) (whole 90) ∷ checks (whole 120) ∷ []) refl refl refl

abbrev bucket : TokenBucket ℤ
bucket = record {
  capacity = 10;
  tokens = whole 0;
  refill_per_second = whole 2;
  last_refill = whole 0;
}

abbrev drained : TokenBucket ℤ
drained = record bucket { tokens = whole 1; last_refill = whole 3 }

acquire-Took_example : Took 5 bucket drained × (5 ≤ 10)
unfolding acquire refill min
acquire-Took_example =
    acquire-Took fixed-IsOrdered 5 (whole 1 ∷ whole 3 ∷ []) bucket {b' = drained} refl

abbrev service : PolicyRollbackService ℤ ℕ
service = record {
  governance = promoted;
  outside = 0;
  requests =
      (
        4,
        record {
          request_id = 4;
          policy_version = "v2";
          reason = "degraded";
          approved = false;
          executed = false;
        },
      )
      ∷ [];
  published = [];
}

-- A registry that refuses, and counts the reloads of the kernel.
abbrev targets : PolicyTargets ℤ ℕ ℕ
targets = record { activate_version = λ _ n. err 1; reload_active_policy = λ n. n + 1 }

approve_times-Refuses_example :
    approve_times targets 1 4 service
    ≡ record service { governance = record { active = baseline; history = [] } }
unfolding rollbacks rollback split_last
approve_times-Refuses_example =
    approve_times-Refuses targets 1 4 service (λ v x. (1, refl)) (_, refl, refl) refl

abbrev updates : List (CanonicalBookEvent ℤ)
updates =
    record { update_id = numeric 12; side = buy_side; price = 100; quantity = whole 0 }
    ∷ record { update_id = numeric 11; side = buy_side; price = 99; quantity = whole 3 }
    ∷ record { update_id = numeric 13; side = sell_side; price = 102; quantity = whole 4 }
    ∷ []

abbrev quoted_book : OrderBook ℤ
quoted_book = record {
  bids = (100, whole 1) ∷ (98, whole 2) ∷ [];
  asks = (101, whole 1) ∷ [];
  last_update_id = numeric 10;
}

apply_many-refines_example :
    Implements
      (apply_many updates 0 (load_snapshot quoted_book.bids quoted_book.asks (numeric 10)))
      (quote_all updates (quotes_of quoted_book.bids quoted_book.asks (numeric 10)))
apply_many-refines_example =
    apply_many-refines quoted_book.bids quoted_book.asks (numeric 10) updates
