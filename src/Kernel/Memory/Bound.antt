-- ===== src/Kernel/Memory/Bound.antt =====
-- What the short-term memory holds after a run of items.
use mathlib.Core.List.{append_assoc, append-nil}
use project_alpha.Common.{
  ℕ, zero, suc, ◌-◌, ◌≤◌, ◌≡◌, refl, sym, ◌∙◌, ap, arith, List, [], ◌∷◌, ◌++◌, length,
  length-append, ltb, inl, inr, Bool-cases, if_of_true, if_of_false,
}
use project_alpha.Kernel.Memory.{
  new_memory, AgentMemory, remember_short_term, drop_first, without_first,
}

drop_first-append :
    {B : Type 0} (n : ℕ) (xs ys : List B)
    → n ≤ length xs
    → drop_first n (xs ++ ys) ≡ drop_first n xs ++ ys
drop_first-append zero xs ys h = refl
drop_first-append (suc n) [] ys h = absurd (omega arith)
drop_first-append (suc n) (x ∷ xs) ys h = drop_first-append n xs ys (omega arith)

without_first-drop_first :
    {B : Type 0} (n : ℕ) (xs : List B) → without_first (drop_first n xs) ≡ drop_first (suc n) xs
without_first-drop_first zero [] = refl
without_first-drop_first zero (x ∷ xs) = refl
without_first-drop_first (suc n) [] = refl
without_first-drop_first (suc n) (x ∷ xs) = without_first-drop_first n xs

length-drop_first : {B : Type 0} (n : ℕ) (xs : List B) → length (drop_first n xs) ≡ length xs - n
length-drop_first zero xs = omega arith
length-drop_first (suc n) [] = omega arith
length-drop_first (suc n) (x ∷ xs) = omega (arith, length-drop_first n xs)

module _ {A : Type 0} where
  -- The items one after the other, each with the time that it is recorded at.
  unfoldable pub remember_all : List (A × ℕ) → AgentMemory A → AgentMemory A
  remember_all [] m = m
  remember_all ((item, now) ∷ items) m = remember_all items (remember_short_term now item m)

  -- The newest `c` of the items so far.
  HoldsNewest : ℕ → List (A × ℕ) → AgentMemory A → Type 0
  HoldsNewest c history m =
      (m.short_term_capacity ≡ c) × (m.short_term ≡ drop_first (length history - c) history)

  remember_short_term-HoldsNewest :
      (c now : ℕ) (item : A) (history : List (A × ℕ)) (m : AgentMemory A)
      → HoldsNewest c history m
      → HoldsNewest c (history ++ (item, now) ∷ []) (remember_short_term now item m)
  unfolding HoldsNewest remember_short_term
  remember_short_term-HoldsNewest c now item history m h =
      let h' = h.1 in
      let x : A × ℕ = (item, now) in
      let n = length history - c in
      let all = length-append history (x ∷ []) in
      let held = length-append m.short_term (x ∷ []) in
      let same : length m.short_term ≡ length history - n =
        ap length h' ∙ length-drop_first n history in
      let items : m.short_term ++ x ∷ [] ≡ drop_first n (history ++ x ∷ []) =
        ap (λ l. l ++ x ∷ []) h' ∙ sym (drop_first-append n history (x ∷ []) (omega arith)) in
      elim (Bool-cases (ltb m.short_term_capacity (length (m.short_term ++ x ∷ [])))) [
        | inl full ↦
            let next : length (history ++ x ∷ []) - c ≡ suc n = ground arith in
            (
              h.0,
              if_of_true _ _ full
                  ∙ ap without_first items
                  ∙ without_first-drop_first n (history ++ x ∷ [])
                  ∙ ap (λ k. drop_first k (history ++ x ∷ [])) (sym next),
            )
        | inr room ↦
            let next : length (history ++ x ∷ []) - c ≡ n = ground arith in
            (
              h.0,
              if_of_false _ _ room ∙ items ∙ ap (λ k. drop_first k (history ++ x ∷ [])) (sym next),
            )
      ]

  remember_all-from :
      (c : ℕ) (items history : List (A × ℕ)) (m : AgentMemory A)
      → HoldsNewest c history m
      → HoldsNewest c (history ++ items) (remember_all items m)
  unfolding remember_all
  remember_all-from c [] history m h = rw (append-nil history) h
  remember_all-from c ((item, now) ∷ items) history m h =
      rw (← append_assoc history ((item, now) ∷ []) items) (
        remember_all-from c items (history ++ (item, now) ∷ []) (remember_short_term now item m)
          (remember_short_term-HoldsNewest c now item history m h))

  -- A memory that has been given any run of items holds the newest of them, as many as its
  -- capacity, in the order in which they came.
  pub remember_all-newest :
      (capacity : ℕ) (items : List (A × ℕ))
      → (remember_all items (new_memory capacity)).short_term
        ≡ drop_first (length items - capacity) items
  unfolding HoldsNewest new_memory
  remember_all-newest capacity items =
      let none_yet : 0 - capacity ≡ 0 = omega arith in
      (remember_all-from capacity items [] (new_memory capacity) (refl, rw none_yet refl)).1
