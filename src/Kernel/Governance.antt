-- ===== src/Kernel/Governance.antt =====
-- `enforce_governance` and `require_approval_or_raise` of aitos/kernel/ai_kernel.py. An action's
-- payload, which no decision reads, is left out.
use Prim.Native.String.{String}
use text.Mathlib.Text.{◌==◌ as str_eq}
use project_alpha.Common.{
  Bool, true, false, not, ◌&&◌, Option, none, some, if◌then◌else◌, Result, ok, err,
}

pub record Action : Type 0 where
  pub action_type : String
  pub is_production : Bool
  pub approved_by : Option String

pub record GovernanceResult : Type 0 where
  pub approved : Bool
  pub reason : String
  pub requires_human_approval : Bool

-- What governance reads of the kernel.
pub record AiKernel : Type 0 where
  pub initialized : Bool
  pub require_human_approval_for_prod : Bool

pub data KernelError : Type 0 where
  not_initialized : KernelError
  governance_violation : String → KernelError

-- Whether an `Optional[str]` is true: given, and not empty.
abbrev pub is_given : Option String → Bool
is_given none = false
is_given (some s) = not (str_eq s "")

unfoldable pub enforce_governance : AiKernel → Action → Result KernelError GovernanceResult
enforce_governance k a =
    if k.initialized
    then ok (
        if a.is_production && k.require_human_approval_for_prod && not (is_given a.approved_by)
        then record {
          approved = false;
          reason = "Production action requires explicit human approval (approved_by is empty).";
          requires_human_approval = true;
        }
        else record { approved = true; reason = "Approved."; requires_human_approval = false })
    else err not_initialized

abbrev raise_unless_approved : Result KernelError GovernanceResult → Result KernelError (Unit {0})
raise_unless_approved (err e) = err e
raise_unless_approved (ok g) = if g.approved then ok tt else err (governance_violation g.reason)

unfoldable pub require_approval_or_raise : AiKernel → Action → Result KernelError (Unit {0})
unfolding enforce_governance
require_approval_or_raise k a = raise_unless_approved (enforce_governance k a)
