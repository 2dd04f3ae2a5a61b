-- ===== src/Feed/Limiter/Grants.antt =====
-- What a granted call took.
use project_alpha.Common.{ℕ, ◌≤◌, ◌≡◌, arith, true, List, [], ◌∷◌, Bool-cases, inl, inr, ltb}
use project_alpha.Float.{Float, IsOrdered, ◌-◌, lit, le, min_le_left}
use project_alpha.Feed.Limiter.{TokenBucket, granted, refill, acquire_loop, acquire, wait_seconds}

module _ {W : Type 0} ⦃f : Float W⦄ where
  -- The tokens were at least the weight and at most the capacity, and the weight was taken off.
  abbrev pub Took : ℕ → TokenBucket W → TokenBucket W → Type 0
  Took weight b b' =
      (held : W) × (b'.tokens ≡ held - lit weight 0)
      × (le (lit weight 0) held ≡ true)
      × (le held (lit b.capacity 0) ≡ true)
      × (b'.capacity ≡ b.capacity)

  acquire_loop-Took :
      IsOrdered W
      → (weight : ℕ) (readings : List W) (b : TokenBucket W) (seconds : W) {b' : TokenBucket W}
      → acquire_loop weight readings b seconds ≡ granted b'
      → Took weight b b'
  unfolding acquire_loop
  acquire_loop-Took o weight [] b seconds e = absurd (ground arith)
  acquire_loop-Took o weight (now ∷ later) b seconds {b'} e =
      let c = refill now b in
      elim (Bool-cases (le (lit weight 0) c.tokens)) [
        | inl enough ↦
            let k = rw enough at e in
            let full : le c.tokens (lit b.capacity 0) ≡ true =
              min_le_left o (lit b.capacity 0) _ (o.lit_le b.capacity b.capacity (omega arith)) in
            (c.tokens, ground arith, enough, full, ground arith)
        | inr short ↦ acquire_loop-Took o weight later c (wait_seconds weight c) (rw short at e)
      ]

  -- A call that is granted, after whatever number of waits, found at least the weight and at most
  -- the capacity in the bucket, takes the weight off, and asked for no more than the capacity.
  pub acquire-Took :
      IsOrdered W
      → (weight : ℕ) (readings : List W) (b : TokenBucket W) {b' : TokenBucket W}
      → acquire weight readings b ≡ granted b'
      → Took weight b b' × (weight ≤ b.capacity)
  unfolding acquire
  acquire-Took o weight readings b e = elim (Bool-cases (ltb b.capacity weight)) [
    | inl above ↦ let k = rw above at e in absurd (ground arith)
    | inr within ↦ (acquire_loop-Took o weight readings b (lit 0 0) (rw within at e), ground arith)
  ]
