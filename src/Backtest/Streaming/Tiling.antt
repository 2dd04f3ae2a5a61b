-- ===== src/Backtest/Streaming/Tiling.antt =====
-- The windows of a plan, and the loop that makes them.
use project_alpha.Common.{
  ℕ, zero, suc, ◌+◌, ◌≤◌, ◌<◌, ◌≡◌, refl, arith, some, List, [], ◌∷◌, ltb, leb, ◌==◌, ok, inl, inr,
  Bool-cases,
}
use project_alpha.Backtest.Streaming.{
  Window, ChunkPlanner, new_planner, windows_from, windows, next_cursor,
}

-- The windows follow each other without a gap from `cursor` to the end of the plan, and none is
-- empty or longer than the chunk size.
unfoldable pub Tiles : ChunkPlanner → ℕ → List Window → Type 0
Tiles p cursor [] = cursor ≡ p.end_at
Tiles p cursor (w ∷ ws) =
    (w.start ≡ cursor)
    × (cursor < w.end_at)
    × (w.end_at ≤ cursor + p.chunk_size)
    × Tiles p w.end_at ws

cursor_le_end :
    (p : ChunkPlanner) (cursor : ℕ) (ws : List Window) → Tiles p cursor ws → cursor ≤ p.end_at
unfolding Tiles
cursor_le_end p cursor [] h = omega arith
cursor_le_end p cursor (w ∷ ws) h =
    let (_, below, _, rest) = h in omega (arith, cursor_le_end p w.end_at ws rest)

pub window_end_le :
    (p : ChunkPlanner) (cursor : ℕ) (w : Window) (ws : List Window)
    → Tiles p cursor (w ∷ ws)
    → w.end_at ≤ p.end_at
unfolding Tiles
window_end_le p cursor w ws h = let (_, _, _, rest) = h in cursor_le_end p w.end_at ws rest

pub Tiles-start :
    (p : ChunkPlanner) (cursor : ℕ) (w : Window) (ws : List Window)
    → Tiles p cursor (w ∷ ws)
    → Tiles p w.start (w ∷ ws)
unfolding Tiles
Tiles-start p cursor w ws h =
    let (starts, up, short, rest) = h in (refl, ground arith, ground arith, rest)

windows_from-Tiles :
    (fuel : ℕ) (p : ChunkPlanner) (cursor : ℕ)
    → 0 < p.chunk_size
    → cursor ≤ p.end_at
    → p.end_at < cursor + fuel
    → (ws : List Window) × (windows_from fuel p cursor ≡ some ws) × Tiles p cursor ws
unfolding windows_from Tiles
windows_from-Tiles zero p cursor size below enough = absurd (omega arith)
windows_from-Tiles (suc fuel) p cursor size below enough = elim (Bool-cases (ltb cursor p.end_at)) [
  | inl more ↦
      let next = next_cursor p cursor in
      let up : cursor < next = ground arith in
      let short : next ≤ cursor + p.chunk_size = ground arith in
      let within : next ≤ p.end_at = ground arith in
      let (ws, e, tiles) = windows_from-Tiles fuel p next size within (omega arith) in
      let w : Window = record { start = cursor; end_at = next } in
      (w ∷ ws, rw (more, e) refl, (refl, up, short, tiles))
  | inr done ↦ ([], rw done refl, ground arith)
]

-- A plan that the constructor accepts, and fuel for more turns than the plan has ticks: the loop
-- of windows ends, and its windows tile the plan from its start to its end.
pub windows-Tiles :
    (start end_at size fuel : ℕ) (p : ChunkPlanner)
    → new_planner start end_at size ≡ ok p
    → end_at < start + fuel
    → (ws : List Window) × (windows fuel p ≡ some ws) × Tiles p start ws
unfolding new_planner windows
windows-Tiles start end_at size fuel p e enough = elim (Bool-cases (leb end_at start)) [
  | inl bad ↦ let k = rw bad at e in absurd (ground arith)
  | inr later ↦ elim (Bool-cases (size == 0)) [
    | inl bad ↦ let k = rw (later, bad) at e in absurd (ground arith)
    | inr positive ↦
        let k = rw (later, positive) at e in
        let plan : ChunkPlanner = record { start = start; end_at = end_at; chunk_size = size } in
        let same : plan ≡ p = cc in
        rw (← same) (windows_from-Tiles fuel plan start (ground arith) (ground arith) enough)
  ]
]
