-- ===== src/Backtest/Queue/Finality.antt =====
-- Orders that are filled, cancelled or expired.
use project_alpha.Common.{
  ℕ, ◌≡◌, refl, sym, ◌∙◌, ◌≢◌, arith, false, none, some, List, [], ◌∷◌, map, select, All, lookup,
  AllEntries, lookup-insert_ne, inl, inr, Bool-cases,
}
use project_alpha.Float.{Float, min, ◌-◌}
use project_alpha.Backtest.Queue.{
  QueueSide, SimulatedOrder, Orders, is_active, age, place_before, sort_orders, is_candidate,
  reduce_queues, consume_orders, consume, is_before, write, queue_consumed, fill_order,
}

-- Each order is listed once, under its own identifier.
abbrev pub IsListedAs : {W : Type 0} → ℕ → SimulatedOrder W → Type 0
IsListedAs id o = o.order_id ≡ id

abbrev pub HasOtherId : {W : Type 0} → ℕ → SimulatedOrder W → Type 0
HasOtherId id o = o.order_id ≢ id

-- Nothing active is listed under an identifier.
abbrev IsQuiet : {W : Type 0} → ℕ → Orders W → Type 0
IsQuiet {W} id d = (o : SimulatedOrder W) → lookup id d ≡ some o → is_active o.status ≡ false

module _ {W : Type 0} ⦃f : Float W⦄ where
  place_before-All :
      (id : ℕ) (a : SimulatedOrder W) (bs : List (SimulatedOrder W))
      → HasOtherId id a
      → All (HasOtherId id) bs
      → All (HasOtherId id) (place_before a bs)
  unfolding place_before
  place_before-All id a [] h k = (h, tt)
  place_before-All id a (b ∷ bs) h k = elim (Bool-cases (is_before a b)) [
    | inl before ↦ rw before (h, k)
    | inr after ↦ rw after (k.0, place_before-All id a bs h k.1)
  ]

  sort_orders-All :
      (id : ℕ) (os : List (SimulatedOrder W))
      → All (HasOtherId id) os
      → All (HasOtherId id) (sort_orders os)
  unfolding sort_orders
  sort_orders-All id [] h = tt
  sort_orders-All id (o ∷ os) h = place_before-All id o _ h.0 (sort_orders-All id os h.1)

  selected-All :
      (side : QueueSide) (price : W) (id : ℕ) (d : Orders W)
      → AllEntries IsListedAs d
      → IsQuiet id d
      → All (HasOtherId id) (select (is_candidate side price) (map (λ e. e.1) d))
  selected-All side price id [] v q = tt
  selected-All side price id ((k, o) ∷ d) v q =
      let rest = selected-All side price id d v.2 (λ x e. ground (arith, q x, v.1)) in
      elim (Bool-cases (is_candidate side price o)) [
        | inl chosen ↦ rw chosen ((λ e. ground (arith, q o, v.0)), rest)
        | inr passed ↦ rw passed rest
      ]

  queue_consumed-order_id :
      (o : SimulatedOrder W) (trade : W) → (queue_consumed o trade).0.order_id ≡ o.order_id
  queue_consumed-order_id o trade = ground arith

  consume_orders-lookup :
      (now : ℕ) (price trade : W) (os : List (SimulatedOrder W)) (orders : Orders W) (id : ℕ)
      → All (HasOtherId id) os
      → lookup id (consume_orders now price trade os orders).1 ≡ lookup id orders
  unfolding consume_orders
  consume_orders-lookup now price trade [] orders id h = refl
  consume_orders-lookup now price trade (o ∷ os) orders id h =
      let first = queue_consumed o trade in
      let qty = min first.0.remaining first.1 in
      let ne : id ≢ first.0.order_id = λ e. h.0 (sym (e ∙ queue_consumed-order_id o trade)) in
      let waited =
        consume_orders-lookup now price first.1 os (write first.0 orders) id h.1
        ∙ lookup-insert_ne id first.0.order_id first.0 orders ne in
      let filled =
        consume_orders-lookup now price (first.1 - qty) os
          (write (fill_order now first.0 qty) orders) id h.1
        ∙ lookup-insert_ne id first.0.order_id (fill_order now first.0 qty) orders ne in
      ground (arith, waited, filled)

  reduce_queues-lookup :
      (now : ℕ) (reduction : W) (os : List (SimulatedOrder W)) (orders : Orders W) (id : ℕ)
      → All (HasOtherId id) os
      → lookup id (reduce_queues now reduction os orders) ≡ lookup id orders
  unfolding reduce_queues
  reduce_queues-lookup now reduction [] orders id h = refl
  reduce_queues-lookup now reduction (o ∷ os) orders id h =
      let consumed = min o.queue_ahead reduction in
      let o' : SimulatedOrder W = record o {
        queue_ahead = o.queue_ahead - consumed;
        last_queue_update = some now;
      } in
      let skipped = reduce_queues-lookup now reduction os orders id h.1 in
      let reduced =
        reduce_queues-lookup now (reduction - consumed) os (write o' orders) id h.1
        ∙ lookup-insert_ne id o.order_id o' orders (λ e. h.0 (sym e)) in
      ground (arith, skipped, reduced)

  age-lookup :
      (now id : ℕ) (d : Orders W) (o : SimulatedOrder W)
      → is_active o.status ≡ false
      → lookup id d ≡ some o
      → lookup id (age now d) ≡ some o
  unfolding age
  age-lookup now id [] o h e = e
  age-lookup now id ((k, x) ∷ d) o h e = ground (arith, age-lookup now id d o h)

  -- `age` keeps each order under its identifier.
  age-lookup-none : (now id : ℕ) (d : Orders W) → lookup id d ≡ none → lookup id (age now d) ≡ none
  unfolding age
  age-lookup-none now id [] e = e
  age-lookup-none now id ((k, x) ∷ d) e = ground (arith, age-lookup-none now id d)

  age-IsListedAs :
      (now : ℕ) (d : Orders W) → AllEntries IsListedAs d → AllEntries IsListedAs (age now d)
  unfolding age
  age-IsListedAs now [] v = tt
  age-IsListedAs now ((k, x) ∷ d) v =
      (ground (arith, v.0), age-lookup-none now k d v.1, age-IsListedAs now d v.2)

  -- With each order listed under its own identifier, a trade at any side, price and quantity leaves
  -- an order that is filled, cancelled or expired exactly as it was.
  pub consume-lookup :
      (side : QueueSide) (price qty : W) (now id : ℕ) (d : Orders W) (o : SimulatedOrder W)
      → AllEntries IsListedAs d
      → lookup id d ≡ some o
      → is_active o.status ≡ false
      → lookup id (consume side price qty now d).1 ≡ some o
  unfolding consume
  consume-lookup side price qty now id d o v e h =
      let kept = age-lookup now id d o h e in
      let quiet : IsQuiet id (age now d) = λ x k. ground (arith) in
      let others =
        sort_orders-All id _
          (selected-All side price id (age now d) (age-IsListedAs now d v) quiet) in
      let same = consume_orders-lookup now price qty _ (age now d) id others ∙ kept in
      ground (arith, kept, same)
