-- ===== src/Services/Retry/Outcomes.antt =====
-- How a retried operation ends.
use project_alpha.Common.{
  ℕ, zero, suc, ◌+◌, ◌≤◌, ◌<◌, ◌≡◌, refl, arith, Option, none, some, List, [], ◌∷◌, ◌++◌, ◌==◌,
  ==_iff, Result, ok, err, inl, inr, Bool-cases,
}
use project_alpha.Float.{Float}
use project_alpha.Services.Retry.{
  Attempt, returned, raised, raised_other, RetryError, retry_exhausted, propagated, RetryRun,
  Backoff, wait_time, retry_loop, retry_with_backoff,
}

-- What the last of at most `m` attempts, number `k` from 0, makes of the result.
unfoldable pub IsLast : {A E : Type 0} → ℕ → ℕ → Result (RetryError E) A → Attempt A E → Type 0
IsLast k m result (returned a) = result ≡ ok a
IsLast k m result (raised_other e) = result ≡ err (propagated e)
IsLast k m result (raised e) = (result ≡ err (retry_exhausted m (some e))) × (suc k ≡ m)

data AttemptView {A E : Type 0} (o : Attempt A E) : Type 0 where
  returns : (a : A) → o ≡ returned a → AttemptView o
  raises : (e : E) → o ≡ raised e → AttemptView o
  raises_other : (e : E) → o ≡ raised_other e → AttemptView o

Attempt-cases : {A E : Type 0} (o : Attempt A E) → AttemptView o
Attempt-cases (returned a) = returns a refl
Attempt-cases (raised e) = raises e refl
Attempt-cases (raised_other e) = raises_other e refl

module _ {W A E : Type 0} ⦃f : Float W⦄ (uniform : ℕ → W → W → W) (outcome : ℕ → Attempt A E) where
  -- The operation whose call number n, from 0, ends as `outcome n`; its state counts the calls.
  abbrev pub scripted : ℕ → Attempt A E × ℕ
  scripted n = (outcome n, suc n)

  -- The calls from `from` up to before `to` raise exceptions that are retried.
  abbrev pub AllRaise : ℕ → ℕ → Type 0
  AllRaise from to = (n : ℕ) → from ≤ n → n < to → (e : E) × (outcome n ≡ raised e)

  -- The operation was called at least once more, at most `m` times in all; all calls but the last
  -- raised what is retried, and the result is the last call's, or that the attempts are exhausted
  -- when it was number m and raised as well.
  unfoldable pub EndsAs : ℕ → ℕ → RetryRun W ℕ A E → Type 0
  EndsAs from m r =
      (k : ℕ) × (from ≤ k)
      × (k < m)
      × (r.state ≡ suc k)
      × AllRaise from k
      × IsLast k m r.result (outcome k)

  retry_loop-EndsAs :
      (b : Backoff W) (left from : ℕ) (last : Option E) (waits : List W)
      → from + suc left ≡ b.max_attempts
      → EndsAs from b.max_attempts
          (retry_loop uniform scripted b (suc left) (suc from) last waits from)
  unfolding retry_loop EndsAs IsLast
  retry_loop-EndsAs b zero from last waits within = elim (Attempt-cases (outcome from)) [
    | returns a e ↦
        (from, omega arith, omega arith, rw e refl, λ n h h'. absurd (omega arith), rw e refl)
    | raises_other x e ↦
        (from, omega arith, omega arith, rw e refl, λ n h h'. absurd (omega arith), rw e refl)
    | raises x e ↦ elim (Bool-cases (suc from == b.max_attempts)) [
      | inl stop ↦
          let full = (==_iff (suc from) b.max_attempts).0 stop in
          (
            from,
            omega arith,
            omega arith,
            rw (e, stop) refl,
            λ n h h'. absurd (omega arith),
            rw (e, stop) (refl, full),
          )
      | inr more ↦ absurd (ground arith)
    ]
  ]
  retry_loop-EndsAs b (suc left) from last waits within = elim (Attempt-cases (outcome from)) [
    | returns a e ↦
        (from, omega arith, omega arith, rw e refl, λ n h h'. absurd (omega arith), rw e refl)
    | raises_other x e ↦
        (from, omega arith, omega arith, rw e refl, λ n h h'. absurd (omega arith), rw e refl)
    | raises x e ↦ elim (Bool-cases (suc from == b.max_attempts)) [
      | inl stop ↦
          let full = (==_iff (suc from) b.max_attempts).0 stop in
          (
            from,
            omega arith,
            omega arith,
            rw (e, stop) refl,
            λ n h h'. absurd (omega arith),
            rw (e, stop) (refl, full),
          )
      | inr more ↦
          let (k, low, high, calls, before, how) =
            retry_loop-EndsAs b left (suc from) (some x)
              (waits ++ wait_time uniform scripted b (suc from) ∷ []) (omega arith) in
          (
            k,
            omega arith,
            high,
            rw (e, more) calls,
            λ n h h'. elim (Bool-cases (n == from)) [
              | inl first ↦ (x, rw ((==_iff n from).0 first) e)
              | inr later ↦ before n (ground arith) h'
            ],
            rw (e, more) how,
          )
    ]
  ]

  first_attempt :
      (b : Backoff W) (m : ℕ)
      → m ≡ b.max_attempts
      → 0 < m
      → EndsAs 0 b.max_attempts (retry_loop uniform scripted b m 1 none [] 0)
  first_attempt b zero e some_attempt = absurd (omega arith)
  first_attempt b (suc left) e some_attempt = retry_loop-EndsAs b left 0 none [] (omega arith)

  -- With at least one attempt allowed, for an operation whose n-th call ends as a script says: it
  -- is called at least once and at most `max_attempts` times; every call but the last raised an
  -- exception that is retried; and the last call's value is returned, its exception propagates
  -- if it is of another kind, or it was the last attempt allowed and the attempts are exhausted
  -- with its exception.
  pub retry_with_backoff-EndsAs :
      (b : Backoff W)
      → 0 < b.max_attempts
      → EndsAs 0 b.max_attempts (retry_with_backoff uniform scripted b 0)
  unfolding retry_with_backoff
  retry_with_backoff-EndsAs b some_attempt = first_attempt b b.max_attempts refl some_attempt
