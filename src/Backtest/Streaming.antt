-- ===== src/Backtest/Streaming.antt =====
-- aitos/backtest/streaming.py. Instants and durations are numbers of clock ticks. The chunk
-- windows are a loop on fuel; a JSON line is read by a parameter, which finds its timestamp.
pub mod Tiling
pub mod Chunks
pub mod Resume
use mathlib.Core.Option
use project_alpha.Common.{
  ℕ, zero, suc, ◌+◌, Bool, ◌&&◌, Option, none, some, List, [], ◌∷◌, ◌++◌, ltb, leb, ◌==◌,
  if◌then◌else◌, Result, ok, err, ◌>>=◌, ◌>>◌, raise_if,
}

pub record Window : Type 0 where
  pub start : ℕ
  pub end_at : ℕ

pub record ChunkPlanner : Type 0 where
  pub start : ℕ
  pub end_at : ℕ
  pub chunk_size : ℕ

pub data PlannerError : Type 0 where
  end_not_after_start chunk_size_not_positive : PlannerError

unfoldable pub new_planner : ℕ → ℕ → ℕ → Result PlannerError ChunkPlanner
new_planner start end_at size = do
  raise_if (leb end_at start) end_not_after_start
  raise_if (size == 0) chunk_size_not_positive
  ok (record { start = start; end_at = end_at; chunk_size = size })

-- `min(cursor + self.chunk_size, self.end)`
abbrev pub next_cursor : ChunkPlanner → ℕ → ℕ
next_cursor p cursor =
    if ltb p.end_at (cursor + p.chunk_size) then p.end_at else cursor + p.chunk_size

abbrev pub prepend : Window → Option (List Window) → Option (List Window)
prepend w rest = Option.map (λ ws. w ∷ ws) rest

-- The loop of `windows`; it gives `none` when the fuel is used up.
pub windows_from : ℕ → ChunkPlanner → ℕ → Option (List Window)
windows_from zero p cursor = none
windows_from (suc fuel) p cursor =
    let rest = windows_from fuel p (next_cursor p cursor) in
    if ltb cursor p.end_at
    then prepend (record { start = cursor; end_at = next_cursor p cursor }) rest
    else some []

unfoldable pub windows : ℕ → ChunkPlanner → Option (List Window)
unfolding windows_from
windows fuel p = windows_from fuel p p.start

pub record BacktestChunk (E : Type 0) : Type 0 where
  pub index : ℕ
  pub start : ℕ
  pub end_at : ℕ
  pub events : List E

-- What `iter_chunks` holds between two lines; the windows that are left are the generator's.
pub record Reading (E : Type 0) : Type 0 where
  pub index : ℕ
  pub window : Window
  pub windows_left : List Window
  pub bucket : List E

abbrev pub chunk_of : {E : Type 0} → Reading E → BacktestChunk E
chunk_of r = record {
  index = r.index;
  start = r.window.start;
  end_at = r.window.end_at;
  events = r.bucket;
}

-- `start <= ts < end`
abbrev pub is_within : ℕ → Window → Bool
is_within ts w = leb w.start ts && ltb ts w.end_at

abbrev pub next_reading : {E : Type 0} → ℕ → Window → List Window → Reading E
next_reading index w ws = record { index = suc index; window = w; windows_left = ws; bucket = [] }

-- `while ts >= end`: the chunks that end before the line, and the reading of the window that
-- comes next, when there is one.
pub advance :
    {E : Type 0}
    → ℕ
    → ℕ
    → Window
    → List Window
    → List E
    → List (BacktestChunk E) × Option (Reading E)
advance ts index w [] bucket =
    let r : Reading _ = record { index = index; window = w; windows_left = []; bucket = bucket } in
    if leb w.end_at ts then (chunk_of r ∷ [], none) else ([], some r)
advance ts index w (v ∷ vs) bucket =
    let r : Reading _ = record {
      index = index;
      window = w;
      windows_left = v ∷ vs;
      bucket = bucket;
    } in
    let later = advance ts (suc index) v vs [] in
    if leb w.end_at ts then (chunk_of r ∷ later.0, later.1) else ([], some r)

module _ {L E : Type 0} (is_blank : L → Bool) (timestamp : L → ℕ) (parser : L → E) where
  unfoldable pub collect : L → Reading E → Reading E
  collect line r = record r {
    bucket = if is_within (timestamp line) r.window then r.bucket ++ parser line ∷ [] else r.bucket;
  }

  pub read_lines : List L → Reading E → List (BacktestChunk E)
  unfolding advance collect
  read_lines [] r = chunk_of r ∷ []
  read_lines (line ∷ lines) r =
      if is_blank line
      then read_lines lines r
      else (let step = advance (timestamp line) r.index r.window r.windows_left r.bucket in
          step.0 ++ elim step.1 [ none ↦ [] | some r' ↦ read_lines lines (collect line r') ])

  unfoldable pub iter_chunks : List Window → List L → List (BacktestChunk E)
  unfolding read_lines
  iter_chunks [] lines = []
  iter_chunks (w ∷ ws) lines =
      read_lines lines (record { index = 0; window = w; windows_left = ws; bucket = [] })

-- What `CheckpointManager` saves; pickling gives back what was saved.
pub record Checkpoint (S : Type 0) : Type 0 where
  pub next_chunk : ℕ
  pub state : S

-- The state of the process, the file when checkpoints are kept, and the events processed.
pub record StreamingRun (S : Type 0) : Type 0 where
  pub state : S
  pub saved : Option (Checkpoint S)
  pub processed : ℕ

module _ {S E : Type 0} (process_event : E → S → S) where
  pub process_events : List E → S → S
  process_events [] s = s
  process_events (e ∷ es) s = process_events es (process_event e s)

  abbrev pub count_events : List E → ℕ → ℕ
  count_events [] n = n
  count_events (e ∷ es) n = count_events es (suc n)

  pub run_chunks : ℕ → Bool → List (BacktestChunk E) → StreamingRun S → StreamingRun S
  unfolding process_events
  run_chunks start_index keeps [] r = r
  run_chunks start_index keeps (c ∷ cs) r =
      if ltb c.index start_index
      then run_chunks start_index keeps cs r
      else (let s = process_events c.events r.state in
          let file : Checkpoint S = record { next_chunk = suc c.index; state = s } in
          run_chunks start_index keeps cs (record {
            state = s;
            saved = if keeps then some file else r.saved;
            processed = count_events c.events r.processed;
          }))

  -- `run`, from the state that the process has; `keeps` says whether there is a checkpoint manager.
  unfoldable pub run_streaming :
      Bool → Bool → List (BacktestChunk E) → S → Option (Checkpoint S) → StreamingRun S
  unfolding run_chunks
  run_streaming keeps resume chunks s saved =
      let fresh = run_chunks 0 keeps chunks (record { state = s; saved = saved; processed = 0 }) in
      if resume && keeps
      then elim saved [
        | none ↦ fresh
        | some c ↦
            run_chunks c.next_chunk keeps chunks
              (record { state = c.state; saved = some c; processed = 0 })
      ]
      else fresh
