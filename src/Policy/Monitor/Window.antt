-- ===== src/Policy/Monitor/Window.antt =====
-- The window of the monitor, and when it recommends a rollback.
use Prim.Native.String.{String}
use project_alpha.Common.{
  ℕ, ◌≤◌, ◌≡◌, refl, arith, true, Option, none, some, List, [], ◌∷◌, length, length-append,
}
use project_alpha.Float.{Float}
use project_alpha.Policy.Monitor.{
  PolicyMonitor, new_monitor, push_outcome, record_outcome, health, is_bad,
}

module _ {W : Type 0} ⦃f : Float W⦄ where
  -- A monitor after the outcomes of a list.
  pub record_all : PolicyMonitor W → List (Option W) → PolicyMonitor W
  record_all m [] = m
  record_all m (r ∷ rs) = record_all (record_outcome m r).1 rs

  length-push_outcome :
      (n : ℕ) (xs : List W) (x : W) → length xs ≤ n → length (push_outcome n xs x) ≤ n
  unfolding push_outcome
  length-push_outcome n [] x h = ground arith
  length-push_outcome n (y ∷ ys) x h = ground (arith, length-append ys (x ∷ []))

  abbrev pub IsBounded : PolicyMonitor W → PolicyMonitor W → Type 0
  IsBounded m m' =
      (length m'.outcomes ≤ m'.window_size)
      × (m'.window_size ≡ m.window_size)
      × (m'.min_observations ≡ m.min_observations)

  record_all-IsBounded :
      (m m' : PolicyMonitor W) (rs : List (Option W))
      → IsBounded m m'
      → IsBounded m (record_all m' rs)
  unfolding record_all record_outcome
  record_all-IsBounded m m' [] h = h
  record_all-IsBounded m m' (none ∷ rs) h = record_all-IsBounded m m' rs h
  record_all-IsBounded m m' (some r ∷ rs) h =
      record_all-IsBounded m (record_outcome m' (some r)).1 rs
        (length-push_outcome m'.window_size m'.outcomes r h.0, h.1, h.2)

  -- After any outcomes, a new monitor holds at most the window's number of them, counts what it
  -- holds, and recommends a rollback only with the minimum number of observations.
  new_monitor-IsBounded :
      (version : String) (baseline : W) (window_size min_observations : ℕ)
      (max_degradation min_avg_r : W) (rs : List (Option W))
      → let m =
          new_monitor version baseline window_size min_observations max_degradation min_avg_r in
        let m' = record_all m rs in
        IsBounded m m'
        × ((health m').observations ≡ length m'.outcomes)
        × ((health m').rollback_recommended ≡ true → m.min_observations ≤ length m'.outcomes)
  unfolding new_monitor health is_bad
  new_monitor-IsBounded version baseline window_size min_observations max_degradation min_avg_r rs =
      let m : PolicyMonitor W =
        new_monitor version baseline window_size min_observations max_degradation min_avg_r in
      let bounded = record_all-IsBounded m m rs (omega arith, refl, refl) in
      (bounded, refl, λ bad. ground (arith, bounded))
