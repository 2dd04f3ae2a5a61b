-- ===== src/Feed/Sequence.antt =====
-- aitos/data/l2_sequence.py. An update id that `int` accepts is a natural number, any other is
-- `none`.
pub mod Gaps
use Prim.Native.String.{String}
use project_alpha.Common.{
  ℕ, suc, Bool, true, false, not, ◌&&◌, Option, none, some, List, [], ◌∷◌, ◌==◌, ltb, if◌then◌else◌,
}

pub data GapKind : Type 0 where
  no_gap duplicate stale gap : GapKind

pub record SequenceCheck : Type 0 where
  pub kind : GapKind
  pub previous : Option ℕ
  pub current : Option ℕ
  pub expected : Option ℕ

pub record L2SequenceValidator : Type 0 where
  pub require_contiguous : Bool
  pub last : Option ℕ

unfoldable pub reset_sequence : L2SequenceValidator → Option ℕ → L2SequenceValidator
reset_sequence v id = record v { last = id }

abbrev pub answer : GapKind → ℕ → ℕ → SequenceCheck
answer kind last current = record {
  kind = kind;
  previous = some last;
  current = some current;
  expected = some (suc last);
}

-- Both the last and the present id are known.
unfoldable pub check_known : L2SequenceValidator → ℕ → ℕ → SequenceCheck × L2SequenceValidator
check_known v last current =
    if current == last
    then (answer duplicate last current, v)
    else if ltb current last
    then (answer stale last current, v)
    else if v.require_contiguous && not (current == suc last)
    then (answer gap last current, v)
    else (answer no_gap last current, record v { last = some current })

abbrev pub start : L2SequenceValidator → Option ℕ → SequenceCheck × L2SequenceValidator
start v current = (
  record { kind = no_gap; previous = current; current = current; expected = none },
  record v { last = current },
)

unfoldable pub check_sequence : L2SequenceValidator → Option ℕ → SequenceCheck × L2SequenceValidator
unfolding check_known
check_sequence v none = start v none
check_sequence v (some current) = elim v.last [
  | none ↦ start v (some current)
  | some last ↦ check_known v last current
]

pub record RecoveryRequest : Type 0 where
  pub exchange : String
  pub symbol : String
  pub market : String
  pub reason : String
  pub last_update_id : Option ℕ
  pub observed_update_id : Option ℕ

-- `requires_recovery`
abbrev pub requires_recovery : SequenceCheck → Bool
requires_recovery c = elim c.kind [ gap ↦ true | _ ↦ false ]

-- `L2RecoveryPlanner.request`
unfoldable pub recovery_request : String → String → String → SequenceCheck → Option RecoveryRequest
recovery_request exchange symbol market c =
    if requires_recovery c
    then some (record {
      exchange = exchange;
      symbol = symbol;
      market = market;
      reason = "l2_sequence_gap";
      last_update_id = c.previous;
      observed_update_id = c.current;
    })
    else none

abbrev pub is_no_gap : GapKind → Bool
is_no_gap no_gap = true
is_no_gap _ = false

-- The ids of a stream that are accepted, as its consumer applies them.
pub accepted : L2SequenceValidator → List ℕ → List ℕ
unfolding check_sequence
accepted v [] = []
accepted v (id ∷ ids) =
    let (c, v') = check_sequence v (some id) in
    let rest = accepted v' ids in if is_no_gap c.kind then id ∷ rest else rest
