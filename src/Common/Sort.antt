-- ===== src/Common/Sort.antt =====
-- `sorted(xs, key=k)` for a key that is a number: the stable order that goes up.
use mathlib.Core.List.Permᴰ
use mathlib.Core.List.{Permᴰ}
use mathlib.Core.List.Permᴰ.{nil, cons, swap, trans}
use project_alpha.Common.{
  ℕ, suc, ◌≤◌, ◌≡◌, refl, ap, ◌∙◌, length, arith, true, List, [], ◌∷◌, leb, if◌then◌else◌, inl, inr,
  Bool-cases,
}

module _ {A : Type 0} (key : A → ℕ) where
  -- `x` before all that does not come before it.
  pub place_by : A → List A → List A
  place_by x [] = x ∷ []
  place_by x (y ∷ ys) =
      let later = place_by x ys in if leb (key x) (key y) then x ∷ y ∷ ys else y ∷ later

  unfoldable pub sort_by : List A → List A
  unfolding place_by
  sort_by [] = []
  sort_by (x ∷ xs) = place_by x (sort_by xs)

  -- Each key is at least `lo` and at least the one before it.
  unfoldable pub IsSortedBy : ℕ → List A → Type 0
  IsSortedBy lo [] = Unit
  IsSortedBy lo (x ∷ xs) = (lo ≤ key x) × IsSortedBy (key x) xs

  place_by-IsSortedBy :
      (lo : ℕ) (x : A) (xs : List A) → lo ≤ key x → IsSortedBy lo xs → IsSortedBy lo (place_by x xs)
  unfolding place_by IsSortedBy
  place_by-IsSortedBy lo x [] low h = (low, tt)
  place_by-IsSortedBy lo x (y ∷ ys) low h = elim (Bool-cases (leb (key x) (key y))) [
    | inl before ↦ rw before (low, (ground arith, h.1))
    | inr after ↦ rw after (h.0, place_by-IsSortedBy (key y) x ys (ground arith) h.1)
  ]

  pub sort_by-IsSortedBy : (xs : List A) → IsSortedBy 0 (sort_by xs)
  unfolding sort_by IsSortedBy
  sort_by-IsSortedBy [] = tt
  sort_by-IsSortedBy (x ∷ xs) =
      place_by-IsSortedBy 0 x (sort_by xs) (omega arith) (sort_by-IsSortedBy xs)

  length-place_by : (x : A) (xs : List A) → length (place_by x xs) ≡ suc (length xs)
  unfolding place_by
  length-place_by x [] = refl
  length-place_by x (y ∷ ys) = elim (Bool-cases (leb (key x) (key y))) [
    | inl before ↦ rw before refl
    | inr after ↦ rw after (ap suc (length-place_by x ys))
  ]

  pub length-sort_by : (xs : List A) → length (sort_by xs) ≡ length xs
  unfolding sort_by
  length-sort_by [] = refl
  length-sort_by (x ∷ xs) = length-place_by x (sort_by xs) ∙ ap suc (length-sort_by xs)

  place_by-Permᴰ : (x : A) (xs : List A) → Permᴰ (place_by x xs) (x ∷ xs)
  unfolding place_by
  place_by-Permᴰ x [] = cons refl nil
  place_by-Permᴰ x (y ∷ ys) = elim (Bool-cases (leb (key x) (key y))) [
    | inl before ↦ rw before (Permᴰ.refl (x ∷ y ∷ ys))
    | inr after ↦ rw after (trans (cons refl (place_by-Permᴰ x ys)) (swap refl refl))
  ]

  pub sort_by-Permᴰ : (xs : List A) → Permᴰ (sort_by xs) xs
  unfolding sort_by
  sort_by-Permᴰ [] = nil
  sort_by-Permᴰ (x ∷ xs) = trans (place_by-Permᴰ x (sort_by xs)) (cons refl (sort_by-Permᴰ xs))

  place_by-first : (x : A) (xs : List A) → IsSortedBy (key x) xs → place_by x xs ≡ x ∷ xs
  unfolding place_by IsSortedBy
  place_by-first x [] h = refl
  place_by-first x (y ∷ ys) h =
      let before : leb (key x) (key y) ≡ true = ground arith in rw before refl

  -- A list that is in order is left as it is.
  pub sort_by-sorted : (lo : ℕ) (xs : List A) → IsSortedBy lo xs → sort_by xs ≡ xs
  unfolding sort_by place_by IsSortedBy
  sort_by-sorted lo [] h = refl
  sort_by-sorted lo (x ∷ xs) h = rw (sort_by-sorted (key x) xs h.1) (place_by-first x xs h.1)
