-- ===== src/Policy/Governance.antt =====
-- aitos/journal/policy_governance.py and `PolicyRegistry` of aitos/journal/policy_registry.py. Times
-- are left out; the registry's file is the policy that was written to it last, if any, and reading
-- it back gives what was written.
pub mod Rollback
use Prim.Native.String.{String}
use project_alpha.Common.{
  ℕ, zero, suc, Bool, true, false, not, ◌&&◌, ◌||◌, Option, none, some, List, [], ◌∷◌, ◌++◌, map,
  any, if◌then◌else◌, Result, ok, err, raise_if, ◌>>=◌, ◌>>◌,
}
use project_alpha.Float.{Float, ◌-◌, lit, abs, lt, le, sum}

pub record PolicyVersion (W : Type 0) : Type 0 where
  pub version : String
  pub weights : List (String × W)
  pub source : String

pub record PolicyGovernance (W : Type 0) : Type 0 where
  pub active : PolicyVersion W
  pub history : List (PolicyVersion W)

-- `ShadowWeightResult`, as far as it is read here.
pub record ShadowWeightResult : Type 0 where
  pub eligible : Bool
  pub reason : String

pub data PolicyError : Type 0 where
  not_eligible : String → PolicyError
  approval_required invalid_weights weights_not_one : PolicyError
  no_previous_policy confidence_out_of_range : PolicyError

-- `history.pop()`: what is left, and the last element.
unfoldable pub split_last : {A : Type 0} → List A → Option (List A × A)
split_last [] = none
split_last (x ∷ []) = some ([], x)
split_last (x ∷ y ∷ ys) = elim (split_last (y ∷ ys)) [
  | none ↦ none
  | some (init, last) ↦ some (x ∷ init, last)
]

module _ {W : Type 0} ⦃f : Float W⦄ where
  abbrev pub is_nil : List (String × W) → Bool
  is_nil [] = true
  is_nil (x ∷ xs) = false

  -- `not weights or any(v < 0 for v in weights.values())`
  unfoldable pub has_invalid_weights : List (String × W) → Bool
  has_invalid_weights ws = is_nil ws || any (λ e. lt e.1 (lit 0 0)) ws

  -- `abs(sum(weights.values()) - 1.0) > 1e-6`
  unfoldable pub sum_is_not_one : List (String × W) → Bool
  sum_is_not_one ws = lt (lit 1 6) (abs (sum (map (λ e. e.1) ws) - lit 1 0))

  unfoldable pub propose_promotion :
      PolicyGovernance W
      → String
      → List (String × W)
      → ShadowWeightResult
      → Bool
      → Result PolicyError (PolicyGovernance W)
  propose_promotion g version weights shadow approved = do
    raise_if (not shadow.eligible) (not_eligible shadow.reason)
    raise_if (not approved) approval_required
    raise_if (has_invalid_weights weights) invalid_weights
    raise_if (sum_is_not_one weights) weights_not_one
    ok (record {
      active = record { version = version; weights = weights; source = "shadow-approved" };
      history = g.history ++ g.active ∷ [];
    })

unfoldable pub rollback :
    {W : Type 0} → PolicyGovernance W → Result PolicyError (PolicyGovernance W)
rollback g = elim (split_last g.history) [
  | none ↦ err no_previous_policy
  | some (init, previous) ↦ ok (record { active = previous; history = init })
]

pub record ActivePolicy (W : Type 0) : Type 0 where
  pub version : String
  pub weights : List (String × W)
  pub min_confidence : W

pub record PolicyRegistry (W : Type 0) : Type 0 where
  pub default_policy : ActivePolicy W
  pub active : ActivePolicy W
  pub stored : Option (ActivePolicy W)

-- `_load`
abbrev pub load_policy : {W : Type 0} → ActivePolicy W → Option (ActivePolicy W) → ActivePolicy W
load_policy default none = default
load_policy default (some policy) = policy

-- `__init__` on a path with a given content.
unfoldable pub open_registry :
    {W : Type 0} → ActivePolicy W → Option (ActivePolicy W) → PolicyRegistry W
open_registry default stored = record {
  default_policy = default;
  active = load_policy default stored;
  stored = stored;
}

module _ {W : Type 0} ⦃f : Float W⦄ where
  abbrev pub confidence_or : W → Option W → W
  confidence_or d none = d
  confidence_or d (some c) = c

  unfoldable pub activate :
      PolicyRegistry W
      → String
      → List (String × W)
      → Option W
      → Result PolicyError (PolicyRegistry W)
  activate r version weights min_confidence = do
    raise_if (has_invalid_weights weights) invalid_weights
    raise_if (sum_is_not_one weights) weights_not_one
    let confidence = confidence_or r.active.min_confidence min_confidence
    raise_if (not (le (lit 0 0) confidence && le confidence (lit 1 0))) confidence_out_of_range
    let policy : ActivePolicy W = record {
      version = version;
      weights = weights;
      min_confidence = confidence;
    }
    ok (record r { active = policy; stored = some policy })
