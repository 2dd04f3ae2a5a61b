-- ===== src/Feed/Book/Chain.antt =====
-- Which updates move the book, and the levels that it holds.
use project_alpha.Common.{
  ℕ, suc, ◌≤◌, ◌<◌, ◌≡◌, arith, true, false, some, List, [], ◌∷◌, All, Bool-cases, Result-cases,
  inl, inr, ◌⊎◌, Result, ok, err,
}
use project_alpha.Float.{Float, IsOrdered, lit, lt, le, not_le_of_lt}
use project_alpha.Feed.Book.{
  Levels, OrderBookSnapshot, DepthUpdate, LocalOrderBook, OrderBookSequenceError, pop_level,
  set_level, apply_levels, seed_levels, seed, apply_both, apply_known, apply_update,
}

module _ {W : Type 0} ⦃f : Float W⦄ where
  -- The update continues the book: the first one after a snapshot covers the id behind it, and
  -- each later one names the last id as its predecessor.
  abbrev pub IsChained : LocalOrderBook W → ℕ → DepthUpdate W → Type 0
  IsChained b last u =
      ((b.awaiting_first_update ≡ true)
        × (u.first_update_id ≤ suc last)
        × (suc last ≤ u.final_update_id))
      ⊎ ((b.awaiting_first_update ≡ false) × (u.previous_update_id ≡ last))

  -- An update that is applied without an error either is old and changes nothing, or is chained to
  -- the book and moves its last id forward to the update's.
  pub apply_update-IsChained :
      (b : LocalOrderBook W) (last : ℕ) (u : DepthUpdate W) {b' : LocalOrderBook W}
      → b.last_update_id ≡ some last
      → apply_update b u ≡ ok b'
      → ((u.final_update_id ≤ last) × (b' ≡ b))
        ⊎ (IsChained b last u
            × (last < u.final_update_id)
            × (b'.last_update_id ≡ some u.final_update_id)
            × (b'.awaiting_first_update ≡ false))
  unfolding apply_update apply_known apply_both
  apply_update-IsChained b last u k e = ground arith

  -- A level that is not empty.
  abbrev pub IsFilled : W × W → Type 0
  IsFilled level = le level.1 (lit 0 0) ≡ false

  pop_level-IsFilled : (p : W) (d : Levels W) → All IsFilled d → All IsFilled (pop_level p d)
  unfolding pop_level
  pop_level-IsFilled p [] h = tt
  pop_level-IsFilled p (x ∷ d) h = ground (arith, pop_level-IsFilled p d h.1)

  set_level-IsFilled :
      (p q : W) (d : Levels W)
      → le q (lit 0 0) ≡ false
      → All IsFilled d
      → All IsFilled (set_level p q d)
  unfolding set_level
  set_level-IsFilled p q [] k h = (k, tt)
  set_level-IsFilled p q (x ∷ d) k h = ground (arith, set_level-IsFilled p q d k h.1)

  apply_levels-IsFilled :
      (d changes : Levels W) → All IsFilled d → All IsFilled (apply_levels d changes)
  unfolding apply_levels
  apply_levels-IsFilled d [] h = h
  apply_levels-IsFilled d ((p, q) ∷ changes) h = elim (Bool-cases (le q (lit 0 0))) [
    | inl empty ↦
        rw empty (apply_levels-IsFilled (pop_level p d) changes (pop_level-IsFilled p d h))
    | inr filled ↦
        rw filled
          (apply_levels-IsFilled (set_level p q d) changes (set_level-IsFilled p q d filled h))
  ]

  seed_levels-IsFilled :
      IsOrdered W → (d levels : Levels W) → All IsFilled d → All IsFilled (seed_levels d levels)
  unfolding seed_levels
  seed_levels-IsFilled o d [] h = h
  seed_levels-IsFilled o d ((p, q) ∷ levels) h = elim (Bool-cases (lt (lit 0 0) q)) [
    | inl filled ↦ rw filled (
        seed_levels-IsFilled o (set_level p q d) levels
          (set_level-IsFilled p q d (not_le_of_lt o (lit 0 0) q filled) h))
    | inr empty ↦ rw empty (seed_levels-IsFilled o d levels h)
  ]

  abbrev pub IsFilledBook : LocalOrderBook W → Type 0
  IsFilledBook b = All IsFilled b.bids × All IsFilled b.asks

  apply_update-IsFilledBook :
      (b : LocalOrderBook W) (u : DepthUpdate W) {b' : LocalOrderBook W}
      → apply_update b u ≡ ok b'
      → IsFilledBook b
      → IsFilledBook b'
  unfolding apply_update apply_known apply_both
  apply_update-IsFilledBook b u e h =
      ground
        (arith, apply_levels-IsFilled b.bids u.bids h.0, apply_levels-IsFilled b.asks u.asks h.1)

  -- A stream of updates; one that raises leaves the book as it was.
  abbrev pub kept_book :
      LocalOrderBook W → Result OrderBookSequenceError (LocalOrderBook W) → LocalOrderBook W
  kept_book b (ok b') = b'
  kept_book b (err e) = b

  pub apply_stream : LocalOrderBook W → List (DepthUpdate W) → LocalOrderBook W
  apply_stream b [] = b
  apply_stream b (u ∷ us) = apply_stream (kept_book b (apply_update b u)) us

  stream-IsFilledBook :
      (b : LocalOrderBook W) (us : List (DepthUpdate W))
      → IsFilledBook b
      → IsFilledBook (apply_stream b us)
  unfolding apply_stream
  stream-IsFilledBook b [] h = h
  stream-IsFilledBook b (u ∷ us) h =
      stream-IsFilledBook (kept_book b (apply_update b u)) us
        (elim (Result-cases (apply_update b u)) [
          | inl (b', e) ↦ rw e (apply_update-IsFilledBook b u e h)
          | inr (x, e) ↦ rw e h
        ])

  -- After seeding from any snapshot and any stream of updates, no side of the book holds a level
  -- with a quantity of 0 or less.
  pub seed-IsFilledBook :
      IsOrdered W
      → (b : LocalOrderBook W) (s : OrderBookSnapshot W) (us : List (DepthUpdate W))
      → IsFilledBook (apply_stream (seed b s) us)
  unfolding seed
  seed-IsFilledBook o b s us =
      stream-IsFilledBook (seed b s) us
        (seed_levels-IsFilled o [] s.bids tt, seed_levels-IsFilled o [] s.asks tt)
