-- ===== src/Backtest/Streaming/Chunks.antt =====
-- What the chunks of a file hold.
use project_alpha.Common.{
  ℕ, suc, ◌≤◌, ◌<◌, ◌≡◌, refl, sym, ◌∙◌, ap, ◌⊎◌, arith, Bool, true, false, not, ◌&&◌, none, some,
  Option, List, [], ◌∷◌, ◌++◌, ltb, leb, map, select, if◌then◌else◌, inl, inr, Bool-cases,
}
use mathlib.Core.List.{append_assoc, append-nil}
use project_alpha.Backtest.Streaming.{
  Window, ChunkPlanner, Reading, BacktestChunk, advance, read_lines, iter_chunks, collect,
}
use project_alpha.Backtest.Streaming.Tiling.{Tiles, window_end_le, Tiles-start}
use project_alpha.Backtest.Streaming.Resume.{all_events}

all_events-append :
    {E : Type 0} (xs ys : List (BacktestChunk E))
    → all_events (xs ++ ys) ≡ all_events xs ++ all_events ys
unfolding all_events
all_events-append [] ys = refl
all_events-append (x ∷ xs) ys =
    ap (λ es. x.events ++ es) (all_events-append xs ys)
    ∙ sym (append_assoc x.events (all_events xs) (all_events ys))

-- What a step of the inner loop leaves: the plan is over, or the reading of the window that the
-- line ends before.
abbrev Advanced :
    {E : Type 0}
    → ChunkPlanner
    → ℕ
    → ℕ
    → List E
    → List (BacktestChunk E) × Option (Reading E)
    → Type 0
Advanced p ts c bucket step =
    ((p.end_at ≤ ts) × (step.1 ≡ none) × (all_events step.0 ≡ bucket))
    ⊎ ((r : Reading _) × (step.1 ≡ some r)
        × (ts < r.window.end_at)
        × ((r.window.start ≡ c) ⊎ ((r.window.start ≤ ts) × (c ≤ ts)))
        × Tiles p r.window.start (r.window ∷ r.windows_left)
        × (all_events step.0 ++ r.bucket ≡ bucket))

advance-Advanced :
    {E : Type 0} (p : ChunkPlanner) (ts index : ℕ) (w : Window) (ws : List Window) (bucket : List E)
    → Tiles p w.start (w ∷ ws)
    → Advanced p ts w.start bucket (advance ts index w ws bucket)
unfolding advance Tiles all_events
advance-Advanced {E} p ts index w [] bucket h = elim (Bool-cases (leb w.end_at ts)) [
  | inl past ↦ rw past (inl (ground arith, refl, append-nil bucket))
  | inr within ↦ rw within (
      inr (
        record { index = index; window = w; windows_left = []; bucket = bucket },
        refl,
        ground arith,
        inl refl,
        h,
        refl,
      ))
]
advance-Advanced {E} p ts index w (v ∷ vs) bucket h = elim (Bool-cases (leb w.end_at ts)) [
  | inl past ↦
      let (_, _, _, tiles) = h in
      let later = Tiles-start p w.end_at v vs tiles in
      rw past (elim (advance-Advanced {E = E} p ts (suc index) v vs [] later) [
        | inl (over, e, none_left) ↦
            inl (over, e, ap (λ es. bucket ++ es) none_left ∙ append-nil bucket)
        | inr (r, e, ends, starts, left, all) ↦
            let at : (r.window.start ≤ ts) × (w.start ≤ ts) = ground arith in
            inr (
              r,
              e,
              ends,
              inr at,
              left,
              append_assoc bucket _ r.bucket ∙ ap (λ es. bucket ++ es) all ∙ append-nil bucket,
            )
      ])
  | inr within ↦ rw within (
      inr (
        record { index = index; window = w; windows_left = v ∷ vs; bucket = bucket },
        refl,
        ground arith,
        inl refl,
        h,
        refl,
      ))
]

module _ {L : Type 0} (is_blank : L → Bool) (timestamp : L → ℕ) where
  -- The timestamps of the lines that are not blank go up, from `lo`.
  unfoldable pub IsSortedFrom : ℕ → List L → Type 0
  IsSortedFrom lo [] = Unit
  IsSortedFrom lo (l ∷ ls) =
      if is_blank l then IsSortedFrom lo ls else (lo ≤ timestamp l) × IsSortedFrom (timestamp l) ls

  -- Not blank, and of an instant from `start` on and before `end`.
  abbrev pub is_covered : ℕ → ℕ → L → Bool
  is_covered start end_at l =
      not (is_blank l) && leb start (timestamp l) && ltb (timestamp l) end_at

  select-from :
      (lo c c' end_at : ℕ) (ls : List L)
      → IsSortedFrom lo ls
      → c ≤ lo
      → c' ≤ lo
      → select (is_covered c end_at) ls ≡ select (is_covered c' end_at) ls
  unfolding IsSortedFrom
  select-from lo c c' end_at [] h low low' = refl
  select-from lo c c' end_at (l ∷ ls) h low low' = elim (Bool-cases (is_blank l)) [
    | inl blank ↦ rw blank (select-from lo c c' end_at ls (rw blank at h) low low')
    | inr full ↦
        let k = rw full at h in
        let rest = select-from (timestamp l) c c' end_at ls k.1 (omega arith) (omega arith) in
        ground arith
  ]

  select-past :
      (lo c end_at : ℕ) (ls : List L)
      → IsSortedFrom lo ls
      → end_at ≤ lo
      → select (is_covered c end_at) ls ≡ []
  unfolding IsSortedFrom
  select-past lo c end_at [] h past = refl
  select-past lo c end_at (l ∷ ls) h past = elim (Bool-cases (is_blank l)) [
    | inl blank ↦ rw blank (select-past lo c end_at ls (rw blank at h) past)
    | inr full ↦
        let k = rw full at h in
        let rest = select-past (timestamp l) c end_at ls k.1 (omega arith) in ground arith
  ]

  module _ {E : Type 0} (parser : L → E) where
    collected :
        (l : L) (r : Reading E) (es : List E)
        → timestamp l < r.window.end_at
        → (collect is_blank timestamp parser l r).bucket ++ es
          ≡ r.bucket ++ (if leb r.window.start (timestamp l) then parser l ∷ es else es)
    unfolding collect
    collected l r es before =
        let short : ltb (timestamp l) r.window.end_at ≡ true = ground arith in
        elim (Bool-cases (leb r.window.start (timestamp l))) [
          | inl after ↦ rw (after, short) (append_assoc r.bucket (parser l ∷ []) es)
          | inr early ↦ rw early refl
        ]

    -- From the start of the window of a line, or from a start that no later line comes before.
    matched :
        (c s end_at : ℕ) (l : L) (lines : List L)
        → is_blank l ≡ false
        → timestamp l < end_at
        → IsSortedFrom (timestamp l) lines
        → (s ≡ c) ⊎ ((s ≤ timestamp l) × (c ≤ timestamp l))
        → (if leb s (timestamp l)
            then parser l ∷ map parser (select (is_covered s end_at) lines)
            else map parser (select (is_covered s end_at) lines))
          ≡ map parser (select (is_covered c end_at) (l ∷ lines))
    matched c s end_at l lines full before sorted (inl same) =
        let short : ltb (timestamp l) end_at ≡ true = ground arith in
        elim (Bool-cases (leb c (timestamp l))) [
          | inl after ↦ rw (same, full, after, short) refl
          | inr early ↦ rw (same, full, early) refl
        ]
    matched c s end_at l lines full before sorted (inr (low, low')) =
        let short : ltb (timestamp l) end_at ≡ true = ground arith in
        let after : leb s (timestamp l) ≡ true = ground arith in
        let after' : leb c (timestamp l) ≡ true = ground arith in
        let rest = select-from (timestamp l) s c end_at lines sorted low low' in
        rw (full, after, after', short, rest) refl

    read_lines-events :
        (p : ChunkPlanner) (lo : ℕ) (lines : List L) (r : Reading E)
        → Tiles p r.window.start (r.window ∷ r.windows_left)
        → IsSortedFrom lo lines
        → all_events (read_lines is_blank timestamp parser lines r)
          ≡ r.bucket ++ map parser (select (is_covered r.window.start p.end_at) lines)
    unfolding read_lines all_events IsSortedFrom
    read_lines-events p lo [] r tiles sorted = refl
    read_lines-events p lo (l ∷ lines) r tiles sorted = elim (Bool-cases (is_blank l)) [
      | inl blank ↦ rw blank (read_lines-events p lo lines r tiles (rw blank at sorted))
      | inr full ↦
          let ts = timestamp l in
          let k = rw full at sorted in
          let step = advance ts r.index r.window r.windows_left r.bucket in
          elim (advance-Advanced p ts r.index r.window r.windows_left r.bucket tiles) [
            | inl (over, e, all) ↦
                let gone : is_covered r.window.start p.end_at l ≡ false = ground arith in
                let none_left = select-past ts r.window.start p.end_at lines k.1 over in
                rw (gone, full, e, none_left)
                  (all_events-append step.0 []
                    ∙ append-nil (all_events step.0)
                    ∙ all
                    ∙ sym (append-nil r.bucket))
            | inr (r', e, ends, starts, left, all) ↦
                let r'' = collect is_blank timestamp parser l r' in
                let head = all_events step.0 in
                let rest = read_lines-events p ts lines r'' left k.1 in
                let later = map parser (select (is_covered r'.window.start p.end_at) lines) in
                let kept = if leb r'.window.start ts then parser l ∷ later else later in
                let before : ts < p.end_at =
                  ground (arith, window_end_le p r'.window.start r'.window r'.windows_left left) in
                let one : all_events (read_lines is_blank timestamp parser (l ∷ lines) r)
                    ≡ all_events (step.0 ++ read_lines is_blank timestamp parser lines r'') =
                  rw (full, e) refl in
                one
                ∙ all_events-append step.0 _
                ∙ ap (λ es. head ++ es) (rest ∙ collected l r' later ends)
                ∙ sym (append_assoc head r'.bucket kept)
                ∙ ap (λ es. es ++ kept) all
                ∙ ap (λ es. r.bucket ++ es)
                    (matched r.window.start r'.window.start p.end_at l lines full before k.1 starts)
          ]
    ]

    -- The windows tile the plan, and the timestamps of the lines that are not blank never go down.
    -- Then the chunks of the file hold, one after the other, what the parser makes of the lines that
    -- are not blank and whose timestamp is from the start of the plan on and before its end: none
    -- is lost, repeated or moved.
    pub iter_chunks-events :
        (p : ChunkPlanner) (ws : List Window) (lines : List L)
        → p.start < p.end_at
        → Tiles p p.start ws
        → IsSortedFrom 0 lines
        → all_events (iter_chunks is_blank timestamp parser ws lines)
          ≡ map parser (select (is_covered p.start p.end_at) lines)
    unfolding iter_chunks Tiles
    iter_chunks-events p [] lines some_time tiles sorted = absurd (ground arith)
    iter_chunks-events p (w ∷ ws) lines some_time tiles sorted =
        let r : Reading E = record { index = 0; window = w; windows_left = ws; bucket = [] } in
        rw (← tiles.0) (read_lines-events p 0 lines r (Tiles-start p p.start w ws tiles) sorted)
