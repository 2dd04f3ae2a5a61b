-- ===== src/Kernel/Memory.antt =====
-- `AgentMemory` of aitos/agents/base_agent.py; an item is stored with the time it is recorded at.
pub mod Bound
use project_alpha.Common.{
  ℕ, zero, suc, ◌-◌, Option, List, [], ◌∷◌, ◌++◌, length, ltb, Dict, lookup, insert, if◌then◌else◌,
}

pub record AgentMemory (A : Type 0) : Type 0 where
  pub short_term_capacity : ℕ
  pub short_term : List (A × ℕ)
  pub long_term : Dict A

unfoldable pub new_memory : {A : Type 0} → ℕ → AgentMemory A
new_memory capacity = record { short_term_capacity = capacity; short_term = []; long_term = [] }

-- `self._short_term.pop(0)`
abbrev pub without_first : {A : Type 0} → List A → List A
without_first [] = []
without_first (x ∷ xs) = xs

unfoldable pub remember_short_term : {A : Type 0} → ℕ → A → AgentMemory A → AgentMemory A
remember_short_term now item m =
    let items = m.short_term ++ (item, now) ∷ [] in
    record m {
      short_term = if ltb m.short_term_capacity (length items) then without_first items else items;
    }

abbrev pub drop_first : {A : Type 0} → ℕ → List A → List A
drop_first zero xs = xs
drop_first (suc n) [] = []
drop_first (suc n) (x ∷ xs) = drop_first n xs

-- `self._short_term[-n:]`: for 0 the slice is the whole list.
abbrev pub recent : {A : Type 0} → ℕ → AgentMemory A → List (A × ℕ)
recent zero m = m.short_term
recent (suc n) m = drop_first (length m.short_term - suc n) m.short_term

abbrev pub remember_long_term : {A : Type 0} → ℕ → A → AgentMemory A → AgentMemory A
remember_long_term key value m = record m { long_term = insert key value m.long_term }

abbrev pub recall_long_term : {A : Type 0} → ℕ → AgentMemory A → Option A
recall_long_term key m = lookup key m.long_term
