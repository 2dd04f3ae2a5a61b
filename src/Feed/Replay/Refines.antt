-- ===== src/Feed/Replay/Refines.antt =====
-- The order book as quotes: a quantity or none for each side and price.
use project_alpha.Common.{
  ℕ, suc, ◌≡◌, refl, ap, sym, ◌∙◌, ltb, arith, Bool, true, false, ◌&&◌, Option, none, some, List,
  [], ◌∷◌, ◌==◌, ==_iff, Dict, lookup, insert, AllEntries, insert-AllEntries, erase-AllEntries,
  lookup-insert_self, lookup-insert_ne, lookup-erase_self, lookup-erase_ne, if◌then◌else◌, inl, inr,
  Bool-cases,
}
use project_alpha.Float.{Float, lit, lt, le}
use project_alpha.Feed.Replay.{
  BookSide, buy_side, sell_side, UpdateId, numeric, not_numeric, missing, CanonicalBookEvent,
  OrderBook, is_stale, levels, with_levels, stamped, set_quantity, seed_from, load_snapshot,
  apply_event, apply_many,
}

-- What a book promises: the quantity that is quoted on a side at a price, and the last update.
pub record Quotes (W : Type 0) : Type 0 where
  pub quote : BookSide → ℕ → Option W
  pub last : UpdateId
  pub accepted : ℕ

abbrev same_side : BookSide → BookSide → Bool
same_side buy_side buy_side = true
same_side sell_side sell_side = true
same_side buy_side sell_side = false
same_side sell_side buy_side = false

-- An update id that is before another: both are numbers, the first of them smaller.
abbrev pub is_before : UpdateId → UpdateId → Bool
is_before (numeric m) (numeric n) = ltb m n
is_before (numeric m) not_numeric = false
is_before (numeric m) missing = false
is_before not_numeric i = false
is_before missing i = false

is_stale_lem :
    (previous current : UpdateId) → is_stale previous current ≡ is_before current previous
is_stale_lem (numeric m) (numeric n) = refl
is_stale_lem (numeric m) not_numeric = refl
is_stale_lem (numeric m) missing = refl
is_stale_lem not_numeric (numeric n) = refl
is_stale_lem not_numeric not_numeric = refl
is_stale_lem not_numeric missing = refl
is_stale_lem missing (numeric n) = refl
is_stale_lem missing not_numeric = refl
is_stale_lem missing missing = refl

abbrev pub side_of : {A : Type 0} → A → A → BookSide → A
side_of bids asks buy_side = bids
side_of bids asks sell_side = asks

abbrev pub first_of : {A : Type 0} → Option A → Option A → Option A
first_of (some a) o = some a
first_of none o = o

first_of-none : {A : Type 0} (o : Option A) → first_of o none ≡ o
first_of-none none = refl
first_of-none (some a) = refl

first_of_assoc :
    {A : Type 0} (o p q : Option A) → first_of (first_of o p) q ≡ first_of o (first_of p q)
first_of_assoc none p q = refl
first_of_assoc (some a) p q = refl

module _ {W : Type 0} ⦃f : Float W⦄ where
  -- The last positive quantity that a snapshot gives a price.
  unfoldable pub last_positive : ℕ → Dict W → Option W
  last_positive price [] = none
  last_positive price ((p, q) ∷ rest) =
      first_of (last_positive price rest) (if price == p && lt (lit 0 0) q then some q else none)

  -- The quotes of a snapshot.
  unfoldable pub quotes_of : Dict W → Dict W → UpdateId → Quotes W
  quotes_of bids asks id = record {
    quote = λ side price. last_positive price (side_of bids asks side);
    last = id;
    accepted = 0;
  }

  -- None, when the update removes the level.
  abbrev pub quantity_of : CanonicalBookEvent W → Option W
  quantity_of e = if le e.quantity (lit 0 0) then none else some e.quantity

  abbrev pub requoted : CanonicalBookEvent W → Quotes W → BookSide → ℕ → Option W
  requoted e q side price =
      if same_side side e.side && price == e.price then quantity_of e else q.quote side price

  -- An update sets one quote, unless its id is before that of the last one.
  abbrev pub quote_event : CanonicalBookEvent W → Quotes W → Quotes W
  quote_event e q =
      if is_before e.update_id q.last
      then q
      else record { quote = requoted e q; last = e.update_id; accepted = suc q.accepted }

  unfoldable pub quote_all : List (CanonicalBookEvent W) → Quotes W → Quotes W
  quote_all [] q = q
  quote_all (e ∷ es) q = quote_all es (quote_event e q)

  abbrev IsListedOnce : Dict W → Type 0
  IsListedOnce d = AllEntries (λ k q. Unit {0}) d

  -- No price is listed twice, and the quotes are what the book lists.
  unfoldable pub Implements : ℕ × OrderBook W → Quotes W → Type 0
  Implements b q =
      ((side : BookSide) → IsListedOnce (levels side b.1))
      × ((side : BookSide) (price : ℕ) → lookup price (levels side b.1) ≡ q.quote side price)
      × (b.1.last_update_id ≡ q.last)
      × (b.0 ≡ q.accepted)

  lookup-set_quantity :
      (price k : ℕ) (quantity : W) (d : Dict W)
      → IsListedOnce d
      → lookup k (set_quantity price quantity d) ≡ (
          if k == price
          then (if le quantity (lit 0 0) then none else some quantity)
          else lookup k d)
  lookup-set_quantity price k quantity d once = elim (Bool-cases (le quantity (lit 0 0))) [
    | inl gone ↦ elim (Bool-cases (k == price)) [
      | inl hit ↦
          let same = (==_iff k price).0 hit in
          rw (gone, hit, same) (lookup-erase_self (λ k q. Unit {0}) price d once)
      | inr miss ↦ rw (gone, miss) (lookup-erase_ne k price d (λ e. grind arith))
    ]
    | inr kept ↦ elim (Bool-cases (k == price)) [
      | inl hit ↦
          let same = (==_iff k price).0 hit in
          rw (kept, hit, same) (lookup-insert_self price quantity d)
      | inr miss ↦ rw (kept, miss) (lookup-insert_ne k price quantity d (λ e. grind arith))
    ]
  ]

  set_quantity-once :
      (price : ℕ) (quantity : W) (d : Dict W)
      → IsListedOnce d
      → IsListedOnce (set_quantity price quantity d)
  set_quantity-once price quantity d once = elim (Bool-cases (le quantity (lit 0 0))) [
    | inl gone ↦ rw gone (erase-AllEntries (λ k q. Unit {0}) price d once)
    | inr kept ↦ rw kept (insert-AllEntries (λ k q. Unit {0}) price quantity d once tt)
  ]

  seed_from-once : (ls d : Dict W) → IsListedOnce d → IsListedOnce (seed_from ls d)
  unfolding seed_from
  seed_from-once [] d once = once
  seed_from-once ((p, q) ∷ ls) d once = elim (Bool-cases (lt (lit 0 0) q)) [
    | inl some_left ↦
        rw some_left
          (seed_from-once ls (insert p q d) (insert-AllEntries (λ k q. Unit {0}) p q d once tt))
    | inr none_left ↦ rw none_left (seed_from-once ls d once)
  ]

  updated-once :
      (id : UpdateId) (side s : BookSide) (p : ℕ) (quantity : W) (b : OrderBook W)
      → ((s : BookSide) → IsListedOnce (levels s b))
      → IsListedOnce
          (levels s (stamped id (with_levels side (set_quantity p quantity (levels side b)) b)))
  updated-once id buy_side buy_side p quantity b once =
      set_quantity-once p quantity b.bids (once buy_side)
  updated-once id buy_side sell_side p quantity b once = once sell_side
  updated-once id sell_side buy_side p quantity b once = once buy_side
  updated-once id sell_side sell_side p quantity b once =
      set_quantity-once p quantity b.asks (once sell_side)

  lookup-updated :
      (id : UpdateId) (side s : BookSide) (p k : ℕ) (quantity : W) (b : OrderBook W)
      → ((s : BookSide) → IsListedOnce (levels s b))
      → lookup k
          (levels s (stamped id (with_levels side (set_quantity p quantity (levels side b)) b)))
        ≡ (if same_side s side && k == p
            then (if le quantity (lit 0 0) then none else some quantity)
            else lookup k (levels s b))
  lookup-updated id buy_side buy_side p k quantity b once =
      lookup-set_quantity p k quantity b.bids (once buy_side)
  lookup-updated id buy_side sell_side p k quantity b once = refl
  lookup-updated id sell_side buy_side p k quantity b once = refl
  lookup-updated id sell_side sell_side p k quantity b once =
      lookup-set_quantity p k quantity b.asks (once sell_side)

  abbrev step_book : CanonicalBookEvent W → ℕ × OrderBook W → ℕ × OrderBook W
  step_book e b = let r = apply_event e b.1 in (if r.0 then suc b.0 else b.0, r.1)

  apply_event-Implements :
      (e : CanonicalBookEvent W) (n : ℕ) (b : OrderBook W) (q : Quotes W)
      → Implements (n, b) q
      → Implements (step_book e (n, b)) (quote_event e q)
  unfolding Implements apply_event
  apply_event-Implements e n b q (once, quotes, last, count) =
      elim (Bool-cases (is_stale b.last_update_id e.update_id)) [
        | inl old ↦
            let old' : is_before e.update_id q.last ≡ true =
              sym (is_stale_lem q.last e.update_id) ∙ rw last at old in
            rw (old, old') (once, quotes, last, count)
        | inr new ↦
            let new' : is_before e.update_id q.last ≡ false =
              sym (is_stale_lem q.last e.update_id) ∙ rw last at new in
            rw (new, new')
              (
                (λ s. updated-once e.update_id e.side s e.price e.quantity b once),
                (λ s k.
                    lookup-updated e.update_id e.side s e.price k e.quantity b once
                    ∙ ap (λ v. if same_side s e.side && k == e.price then quantity_of e else v)
                        (quotes s k)),
                refl,
                ap suc count,
              )
      ]

  apply_many-Implements :
      (es : List (CanonicalBookEvent W)) (n : ℕ) (b : OrderBook W) (q : Quotes W)
      → Implements (n, b) q
      → Implements (apply_many es n b) (quote_all es q)
  unfolding apply_many quote_all
  apply_many-Implements [] n b q h = h
  apply_many-Implements (e ∷ es) n b q h =
      let r = step_book e (n, b) in
      apply_many-Implements es r.0 r.1 (quote_event e q) (apply_event-Implements e n b q h)

  snapshot-once :
      (bids asks : Dict W) (id : UpdateId) (side : BookSide)
      → IsListedOnce (levels side (load_snapshot bids asks id))
  unfolding load_snapshot
  snapshot-once bids asks id buy_side = seed_from-once bids [] tt
  snapshot-once bids asks id sell_side = seed_from-once asks [] tt

  lookup-seeded :
      (k p : ℕ) (q : W) (d : Dict W)
      → lookup k (if lt (lit 0 0) q then insert p q d else d)
        ≡ first_of (if k == p && lt (lit 0 0) q then some q else none) (lookup k d)
  lookup-seeded k p q d = elim (Bool-cases (lt (lit 0 0) q)) [
    | inr empty ↦ elim (Bool-cases (k == p)) [
      | inl hit ↦ rw (empty, hit) refl
      | inr miss ↦ rw (empty, miss) refl
    ]
    | inl some_left ↦ elim (Bool-cases (k == p)) [
      | inl hit ↦ rw (some_left, hit, (==_iff k p).0 hit) (lookup-insert_self p q d)
      | inr miss ↦ rw (some_left, miss) (lookup-insert_ne k p q d (λ e. grind arith))
    ]
  ]

  lookup-seed_from :
      (k : ℕ) (ls d : Dict W)
      → lookup k (seed_from ls d) ≡ first_of (last_positive k ls) (lookup k d)
  unfolding seed_from last_positive
  lookup-seed_from k [] d = refl
  lookup-seed_from k ((p, q) ∷ ls) d =
      lookup-seed_from k ls _
      ∙ ap (first_of (last_positive k ls)) (lookup-seeded k p q d)
      ∙ sym (first_of_assoc (last_positive k ls) _ (lookup k d))

  snapshot-quotes :
      (bids asks : Dict W) (id : UpdateId) (side : BookSide) (price : ℕ)
      → lookup price (levels side (load_snapshot bids asks id))
        ≡ (quotes_of bids asks id).quote side price
  unfolding load_snapshot quotes_of
  snapshot-quotes bids asks id buy_side price = lookup-seed_from price bids [] ∙ first_of-none _
  snapshot-quotes bids asks id sell_side price = lookup-seed_from price asks [] ∙ first_of-none _

  -- A book that is loaded from any snapshot and then given any updates implements the quotes that
  -- the updates make of the snapshot's. An update is accepted unless its id is a number smaller
  -- than the last one's. For each side and price the book lists the quantity of the last accepted
  -- update of that level, or nothing if that is not positive; without such an update it lists the
  -- last positive quantity that the snapshot gives the price, if any. No price is listed twice,
  -- and the book counts the updates that it accepts and keeps the last one's id.
  pub apply_many-refines :
      (bids asks : Dict W) (id : UpdateId) (es : List (CanonicalBookEvent W))
      → Implements
          (apply_many es 0 (load_snapshot bids asks id))
          (quote_all es (quotes_of bids asks id))
  unfolding Implements load_snapshot quotes_of
  apply_many-refines bids asks id es =
      apply_many-Implements es 0 (load_snapshot bids asks id) (quotes_of bids asks id)
        (snapshot-once bids asks id, snapshot-quotes bids asks id, refl, refl)
