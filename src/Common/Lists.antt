-- ===== src/Common/Lists.antt =====
-- Lists over the native numbers, and Python dictionaries in insertion order.
use Prim.Native.Nat.{ℕ, zero, suc, ◌+◌, ◌≤◌}
use mathlib.Core.Path.{◌≡◌, refl, ap, ◌∙◌}
use mathlib.Core.Logic.{◌≢◌, ◌↔◌, ◌⊎◌, inl, inr}
use mathlib.Core.Bool.{Bool, true, false, ◌&&◌, ◌||◌}
use mathlib.Core.Option.{Option, none, some}
use mathlib.Core.List.{List, [], ◌∷◌, ◌++◌}
use native.Mathlib.Omega.{arith}
use project_alpha.Common.Tests.{if◌then◌else◌, ◌==◌, ==_iff, is_some, Bool-cases}

module _ {ℓ} {A : Type ℓ} where
  abbrev pub length : List A → ℕ
  length [] = 0
  length (x ∷ xs) = suc (length xs)

  abbrev pub take : ℕ → List A → List A
  take zero xs = []
  take (suc n) [] = []
  take (suc n) (x ∷ xs) = x ∷ take n xs

  -- `any(p(x) for x in xs)`
  abbrev pub any : (A → Bool) → List A → Bool
  any p [] = false
  any p (x ∷ xs) = p x || any p xs

  -- `all(p(x) for x in xs)`
  abbrev pub all : (A → Bool) → List A → Bool
  all p [] = true
  all p (x ∷ xs) = p x && all p xs

  -- `[x for x in xs if p(x)]`
  abbrev pub select : (A → Bool) → List A → List A
  select p [] = []
  select p (x ∷ xs) = if p x then x ∷ select p xs else select p xs

  abbrev pub All {κ} : (A → Type κ) → List A → Type κ
  All P [] = Unit
  All P (x ∷ xs) = P x × All P xs

  pub List-cases : (xs : List A) → (xs ≡ []) ⊎ ((x : A) × (ys : List A) × (xs ≡ x ∷ ys))
  List-cases [] = inl refl
  List-cases (x ∷ xs) = inr (x, xs, refl)

  pub all-All : (p : A → Bool) (xs : List A) → all p xs ≡ true → All (λ x. p x ≡ true) xs
  all-All p [] h = tt
  all-All p (x ∷ xs) h = (ground arith, all-All p xs (ground arith))

  pub cons-ne-nil : (x : A) (xs : List A) → x ∷ xs ≢ []
  cons-ne-nil x xs e = cc

  pub append_nil : (xs : List A) → xs ++ [] ≡ xs
  append_nil [] = refl
  append_nil (x ∷ xs) = ap (λ ys. x ∷ ys) (append_nil xs)

  pub append_assoc : (xs ys zs : List A) → (xs ++ ys) ++ zs ≡ xs ++ (ys ++ zs)
  append_assoc [] ys zs = refl
  append_assoc (x ∷ xs) ys zs = ap (λ l. x ∷ l) (append_assoc xs ys zs)

  pub length-append : (xs ys : List A) → length (xs ++ ys) ≡ length xs + length ys
  length-append [] ys = omega arith
  length-append (x ∷ xs) ys = omega (arith, length-append xs ys)

  -- A concatenation is empty when both parts are, under descriptions of when they are.
  pub append-nil_iff {κ μ} :
      {P : Type κ} {Q : Type μ} (xs ys : List A)
      → (xs ≡ []) ↔ P
      → (ys ≡ []) ↔ Q
      → (xs ++ ys ≡ []) ↔ (P × Q)
  append-nil_iff [] ys p q = (λ e. (p.0 refl, q.0 e), λ h. q.1 h.1)
  append-nil_iff (x ∷ xs) ys p q =
      (λ e. absurd (cons-ne-nil _ _ e), λ h. absurd (cons-ne-nil _ _ (p.1 h.0)))

  pub length-take-le : (n : ℕ) (xs : List A) → length (take n xs) ≤ n
  length-take-le zero xs = omega arith
  length-take-le (suc n) [] = omega arith
  length-take-le (suc n) (x ∷ xs) = omega (arith, length-take-le n xs)

  pub All-append {κ} : (P : A → Type κ) (xs ys : List A) → All P xs → All P ys → All P (xs ++ ys)
  All-append P [] ys p q = q
  All-append P (x ∷ xs) ys p q = (p.0, All-append P xs ys p.1 q)

abbrev pub Dict {ℓ} : Type ℓ → Type ℓ
Dict V = List (ℕ × V)

module _ {ℓ} {V : Type ℓ} where
  -- `d.get(k)`
  abbrev pub lookup : ℕ → Dict V → Option V
  lookup key [] = none
  lookup key (entry ∷ rest) = if key == entry.0 then some entry.1 else lookup key rest

  -- `d.pop(k, None)`
  abbrev pub erase : ℕ → Dict V → Dict V
  erase key [] = []
  erase key (entry ∷ rest) = if key == entry.0 then rest else entry ∷ erase key rest

  pub lookup-erase_ne : (j k : ℕ) (d : Dict V) → j ≢ k → lookup j (erase k d) ≡ lookup j d
  lookup-erase_ne other gone [] differ = refl
  lookup-erase_ne other gone (entry ∷ rest) differ =
      ground (arith, lookup-erase_ne other gone rest differ)

  -- `d[k] = v`: an old key keeps its place, a new one goes to the end.
  abbrev pub insert : ℕ → V → Dict V → Dict V
  insert key value [] = (key, value) ∷ []
  insert key value (entry ∷ rest) =
      if key == entry.0 then (key, value) ∷ rest else entry ∷ insert key value rest

  -- No key is listed twice, and every entry satisfies `P`.
  abbrev pub AllEntries {κ} : (ℕ → V → Type κ) → Dict V → Type (ℓ ⊔ κ)
  AllEntries P [] = Unit
  AllEntries P (e ∷ d) = P e.0 e.1 × (lookup e.0 d ≡ none) × AllEntries P d

  pub lookup-insert_ne :
      (j k : ℕ) (v : V) (d : Dict V) → j ≢ k → lookup j (insert k v d) ≡ lookup j d
  lookup-insert_ne other key value [] differ = ground arith
  lookup-insert_ne other key value (entry ∷ rest) differ =
      ground (arith, lookup-insert_ne other key value rest differ)

  abbrev pub contains : ℕ → Dict V → Bool
  contains key dict = is_some (lookup key dict)

  pub lookup-insert_self : (k : ℕ) (v : V) (d : Dict V) → lookup k (insert k v d) ≡ some v
  lookup-insert_self key value [] = ground arith
  lookup-insert_self key value (entry ∷ rest) = ground (arith, lookup-insert_self key value rest)

  pub erase-insert : (k : ℕ) (v : V) (d : Dict V) → erase k (insert k v d) ≡ erase k d
  erase-insert k v [] = ground arith
  erase-insert k v (e ∷ d) = elim (Bool-cases (k == e.0)) [
    | inl hit ↦ rw hit (rw ((==_iff k k).1 refl) refl)
    | inr miss ↦ rw miss (rw miss (ap (λ d'. e ∷ d') (erase-insert k v d)))
  ]

  module _ {κ} (P : ℕ → V → Type κ) where
    pub AllEntries-lookup :
        (k : ℕ) (v : V) (d : Dict V) → AllEntries P d → lookup k d ≡ some v → P k v
    AllEntries-lookup k v [] h e = cc
    AllEntries-lookup k v (x ∷ d) h e = ground (arith, AllEntries-lookup k v d h.2)

    pub insert-AllEntries :
        (k : ℕ) (v : V) (d : Dict V) → AllEntries P d → P k v → AllEntries P (insert k v d)
    insert-AllEntries k v [] h p = (p, refl, tt)
    insert-AllEntries k v (x ∷ d) h p = elim (Bool-cases (k == x.0)) [
      | inl hit ↦ rw hit (p, rw ((==_iff k x.0).0 hit) h.1, h.2)
      | inr miss ↦
          rw miss (
            h.0,
            lookup-insert_ne x.0 k v d (λ e. grind arith) ∙ h.1,
            insert-AllEntries k v d h.2 p,
          )
    ]

    pub erase-AllEntries : (k : ℕ) (d : Dict V) → AllEntries P d → AllEntries P (erase k d)
    erase-AllEntries k [] h = tt
    erase-AllEntries k (x ∷ d) h = elim (Bool-cases (k == x.0)) [
      | inl hit ↦ rw hit h.2
      | inr miss ↦
          rw miss (h.0, lookup-erase_ne x.0 k d (λ e. grind arith) ∙ h.1, erase-AllEntries k d h.2)
    ]

    -- An entry that is written and taken out again leaves the others, whatever its value was.
    pub erase-insert-AllEntries :
        (k : ℕ) (v : V) (d : Dict V) → AllEntries P d → AllEntries P (erase k (insert k v d))
    erase-insert-AllEntries k v d h = rw (erase-insert k v d) (erase-AllEntries k d h)

    pub lookup-erase_self : (k : ℕ) (d : Dict V) → AllEntries P d → lookup k (erase k d) ≡ none
    lookup-erase_self k [] h = refl
    lookup-erase_self k (x ∷ d) h = ground (arith, lookup-erase_self k d h.2)
