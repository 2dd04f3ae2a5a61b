-- ===== src/Backtest/Replay.antt =====
-- `MarketReplay` of aitos/backtest/replay.py. A handler acts on a state, and may raise.
use project_alpha.Common.{ℕ, suc, Option, none, some, List, [], ◌∷◌, length, Result, ok, ◌>>=◌}
use project_alpha.Common.Sort.{sort_by}

pub record ReplayStats : Type 0 where
  pub events_seen : ℕ
  pub events_emitted : ℕ
  pub start_time : Option ℕ
  pub end_time : Option ℕ

-- `self._events[0].timestamp if self._events else None`
abbrev pub first_time : {E : Type 0} → (E → ℕ) → List E → Option ℕ
first_time timestamp [] = none
first_time timestamp (e ∷ es) = some (timestamp e)

-- `self._events[-1].timestamp if self._events else None`
abbrev pub last_time : {E : Type 0} → (E → ℕ) → List E → Option ℕ
last_time timestamp [] = none
last_time timestamp (e ∷ []) = some (timestamp e)
last_time timestamp (e ∷ d ∷ es) = last_time timestamp (d ∷ es)

module _ {E : Type 0} (timestamp : E → ℕ) where
  -- `MarketReplay(events).events`
  unfoldable pub replay_events : List E → List E
  replay_events events = sort_by timestamp events

  module _ {S R : Type 0} (handler : E → S → Result R S) where
    -- The loop of `run`: the state that the handlers leave, and the number of them.
    pub emit_all : List E → S → ℕ → Result R (S × ℕ)
    emit_all [] s n = ok (s, n)
    emit_all (e ∷ es) s n = handler e s >>= λ s'. emit_all es s' (suc n)

    unfoldable pub replay : List E → S → Result R (S × ReplayStats)
    unfolding replay_events emit_all
    replay events s =
        let es = replay_events events in
        emit_all es s 0 >>= λ r. ok (
          r.0,
          record {
            events_seen = length es;
            events_emitted = r.1;
            start_time = first_time timestamp es;
            end_time = last_time timestamp es;
          },
        )
