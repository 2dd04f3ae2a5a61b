-- ===== src/Backtest/Streaming/Resume.antt =====
-- Runs that are interrupted and resumed from a checkpoint.
use project_alpha.Common.{
  ℕ, suc, ◌+◌, ◌≤◌, ◌≡◌, refl, sym, ap, ◌∙◌, arith, Bool, true, false, none, some, List, [], ◌∷◌,
  ◌++◌, length, ltb, inl, inr, Bool-cases,
}
use project_alpha.Backtest.Streaming.{
  BacktestChunk, Checkpoint, StreamingRun, process_events, count_events, run_chunks, run_streaming,
}

-- The chunks are numbered one after the other, as `iter_chunks` numbers them.
unfoldable pub IsIndexed : {E : Type 0} → ℕ → List (BacktestChunk E) → Type 0
IsIndexed k [] = Unit
IsIndexed k (c ∷ cs) = (c.index ≡ k) × IsIndexed (suc k) cs

unfoldable pub all_events : {E : Type 0} → List (BacktestChunk E) → List E
all_events [] = []
all_events (c ∷ cs) = c.events ++ all_events cs

module _ {E : Type 0} where
  IsIndexed-left :
      (k : ℕ) (xs ys : List (BacktestChunk E)) → IsIndexed k (xs ++ ys) → IsIndexed k xs
  unfolding IsIndexed
  IsIndexed-left k [] ys h = tt
  IsIndexed-left k (x ∷ xs) ys h = (h.0, IsIndexed-left (suc k) xs ys h.1)

  IsIndexed-right :
      (k n : ℕ) (xs ys : List (BacktestChunk E))
      → IsIndexed k (xs ++ ys)
      → k + length xs ≡ n
      → IsIndexed n ys
  unfolding IsIndexed
  IsIndexed-right k n [] ys h e = let same : k ≡ n = omega arith in rw (← same) h
  IsIndexed-right k n (x ∷ xs) ys h e = IsIndexed-right (suc k) n xs ys h.1 (omega arith)

module _ {S E : Type 0} (process_event : E → S → S) where
  pub process_events-append :
      (xs ys : List E) (s : S)
      → process_events process_event (xs ++ ys) s
        ≡ process_events process_event ys (process_events process_event xs s)
  unfolding process_events
  process_events-append [] ys s = refl
  process_events-append (x ∷ xs) ys s = process_events-append xs ys (process_event x s)

  run_chunks-append :
      (n : ℕ) (keeps : Bool) (xs ys : List (BacktestChunk E)) (r : StreamingRun S)
      → run_chunks process_event n keeps (xs ++ ys) r
        ≡ run_chunks process_event n keeps ys (run_chunks process_event n keeps xs r)
  unfolding run_chunks
  run_chunks-append n keeps [] ys r = refl
  run_chunks-append n keeps (x ∷ xs) ys r = elim (Bool-cases (ltb x.index n)) [
    | inl old ↦ rw old (run_chunks-append n keeps xs ys r)
    | inr new ↦ rw new (run_chunks-append n keeps xs ys _)
  ]

  run_chunks_skips :
      (n k : ℕ) (keeps : Bool) (cs : List (BacktestChunk E)) (r : StreamingRun S)
      → IsIndexed k cs
      → k + length cs ≤ n
      → run_chunks process_event n keeps cs r ≡ r
  unfolding run_chunks IsIndexed
  run_chunks_skips n k keeps [] r h le = refl
  run_chunks_skips n k keeps (c ∷ cs) r h le =
      let old : ltb c.index n ≡ true = ground arith in
      rw old (run_chunks_skips n (suc k) keeps cs r h.1 (omega arith))

  pub run_chunks-state :
      (n k : ℕ) (keeps : Bool) (cs : List (BacktestChunk E)) (r : StreamingRun S)
      → IsIndexed k cs
      → n ≤ k
      → (run_chunks process_event n keeps cs r).state
        ≡ process_events process_event (all_events cs) r.state
  unfolding run_chunks IsIndexed process_events all_events
  run_chunks-state n k keeps [] r h le = refl
  run_chunks-state n k keeps (c ∷ cs) r h le =
      let new : ltb c.index n ≡ false = ground arith in
      rw new (
        run_chunks-state n (suc k) keeps cs _ h.1 (omega arith)
        ∙ sym (process_events-append c.events (all_events cs) r.state))

  run_chunks-saved :
      (k n : ℕ) (cs : List (BacktestChunk E)) (r : StreamingRun S)
      → IsIndexed k cs
      → k + length cs ≡ n
      → r.saved ≡ some (record { next_chunk = k; state = r.state })
      → (run_chunks process_event 0 true cs r).saved
        ≡ some (record {
          next_chunk = n;
          state = process_events process_event (all_events cs) r.state;
        })
  unfolding run_chunks IsIndexed process_events all_events
  run_chunks-saved k n [] r h l e = let same : k ≡ n = omega arith in rw (← same) e
  run_chunks-saved k n (c ∷ cs) r h l e =
      let new : ltb c.index 0 ≡ false = ground arith in
      let s = process_events process_event c.events r.state in
      let file : Checkpoint S = record { next_chunk = suc c.index; state = s } in
      let at : some file ≡ some (record { next_chunk = suc k; state = s }) = rw h.0 refl in
      rw (new, process_events-append c.events (all_events cs) r.state)
        (run_chunks-saved (suc k) n cs
          (record {
            state = s;
            saved = some file;
            processed = count_events process_event c.events r.processed;
          })
          h.1 (omega arith) at)

  run_chunks-resumed :
      (done rest : List (BacktestChunk E)) (saved : StreamingRun S)
      → IsIndexed 0 (done ++ rest)
      → (run_chunks process_event (length done) true (done ++ rest) saved).state
        ≡ process_events process_event (all_events rest) saved.state
  run_chunks-resumed done rest saved h =
      rw
        (
          run_chunks-append (length done) true done rest saved,
          run_chunks_skips (length done) 0 true done saved (IsIndexed-left 0 done rest h)
              (omega arith),
        )
        (run_chunks-state (length done) (length done) true rest saved
          (IsIndexed-right 0 (length done) done rest h (omega arith)) (omega arith))

  all_events-append :
      (xs ys : List (BacktestChunk E)) (s : S)
      → process_events process_event (all_events (xs ++ ys)) s
        ≡ process_events process_event
            (all_events ys)
            (process_events process_event (all_events xs) s)
  unfolding all_events process_events
  all_events-append [] ys s = refl
  all_events-append (x ∷ xs) ys s =
      process_events-append x.events (all_events (xs ++ ys)) s
      ∙ all_events-append xs ys _
      ∙ ap (process_events process_event (all_events ys))
          (sym (process_events-append x.events (all_events xs) s))

  run_streaming-saved :
      (c : BacktestChunk E) (done : List (BacktestChunk E)) (s : S)
      → IsIndexed 0 (c ∷ done)
      → (run_streaming process_event true false (c ∷ done) s none).saved
        ≡ some (record {
          next_chunk = length (c ∷ done);
          state = process_events process_event (all_events (c ∷ done)) s;
        })
  unfolding run_streaming run_chunks IsIndexed process_events all_events
  run_streaming-saved c done s h =
      let new : ltb c.index 0 ≡ false = ground arith in
      rw (new, process_events-append c.events (all_events done) s)
        (run_chunks-saved 1 (length (c ∷ done)) done _ h.1 (omega arith) (rw h.0 refl))

  resumed-state :
      (c : BacktestChunk E) (done rest : List (BacktestChunk E)) (s restarted : S)
      → IsIndexed 0 (c ∷ done ++ rest)
      → (run_streaming process_event true true (c ∷ done ++ rest) restarted (
          some (record {
            next_chunk = length (c ∷ done);
            state = process_events process_event (all_events (c ∷ done)) s;
          }))).state
        ≡ (run_streaming process_event true false (c ∷ done ++ rest) s none).state
  unfolding run_streaming
  resumed-state c done rest s restarted h =
      run_chunks-resumed (c ∷ done) rest _ h
      ∙ sym (all_events-append (c ∷ done) rest s)
      ∙ sym (run_chunks-state 0 0 true (c ∷ done ++ rest) _ h (omega arith))

  -- Chunks are numbered from 0, and a run with checkpoints and without a resume stops after at
  -- least one of them. A process that then resumes on all the chunks, whatever state it starts
  -- in, ends in the state that one run over all the chunks, never stopped, ends in.
  pub resume-run_streaming :
      (c : BacktestChunk E) (done rest : List (BacktestChunk E)) (s restarted : S)
      → IsIndexed 0 (c ∷ done ++ rest)
      → (run_streaming process_event true true
          (c ∷ done ++ rest)
          restarted
          (run_streaming process_event true false (c ∷ done) s none).saved).state
        ≡ (run_streaming process_event true false (c ∷ done ++ rest) s none).state
  resume-run_streaming c done rest s restarted h =
      rw (run_streaming-saved c done s (IsIndexed-left 0 (c ∷ done) rest h))
        (resumed-state c done rest s restarted h)
