-- ===== src/Policy/Service.antt =====
-- `PolicyRollbackService` of aitos/journal/policy_rollback_service.py. The registry and the kernel,
-- which the source takes as objects of any type, are operations on a state of their own; a request
-- is known by a number, and times are left out.
pub mod Failing
use Prim.Native.String.{String}
use project_alpha.Common.{
  ℕ, Bool, true, false, Option, none, some, List, [], ◌∷◌, ◌++◌, if◌then◌else◌, Dict, lookup,
  insert, Result, ok, err,
}
use project_alpha.Policy.Governance.{PolicyVersion, PolicyGovernance, rollback}

pub record RollbackRequest : Type 0 where
  pub request_id : ℕ
  pub policy_version : String
  pub reason : String
  pub approved : Bool
  pub executed : Bool

pub data RollbackEvent : Type 0 where
  rollback_requested : RollbackRequest → RollbackEvent
  rollback_executed : RollbackRequest → String → RollbackEvent

pub data ServiceError (E : Type 0) : Type 0 where
  unknown_request no_previous_version : ServiceError E
  activation_failed : E → ServiceError E

pub record PolicyRollbackService (W X : Type 0) : Type 0 where
  pub governance : PolicyGovernance W
  -- The registry and the kernel.
  pub outside : X
  pub requests : Dict RollbackRequest
  pub published : List RollbackEvent

-- `registry.activate(restored)`, and `kernel.reload_active_policy()` behind it.
pub record PolicyTargets (W X E : Type 0) : Type 0 where
  pub activate_version : PolicyVersion W → X → Result E X
  pub reload_active_policy : X → X

-- `if not self.governance.history` raises; otherwise this is the governance rolled back.
abbrev pub rolled_back : {W : Type 0} → PolicyGovernance W → Option (PolicyGovernance W)
rolled_back g = elim (rollback g) [ ok g' ↦ some g' | err e ↦ none ]

module _ {W X : Type 0} where
  unfoldable pub request_rollback :
      ℕ → String → String → PolicyRollbackService W X → PolicyRollbackService W X
  request_rollback id version reason s =
      let req : RollbackRequest = record {
        request_id = id;
        policy_version = version;
        reason = reason;
        approved = false;
        executed = false;
      } in
      record s {
        requests = insert id req s.requests;
        published = s.published ++ rollback_requested req ∷ [];
      }

module _ {W X E : Type 0} (targets : PolicyTargets W X E) where
  -- The governance is rolled back by now; an activation that fails leaves it so.
  abbrev pub finish_rollback :
      RollbackRequest
      → PolicyRollbackService W X
      → Result E X
      → Result (ServiceError E) (PolicyVersion W) × PolicyRollbackService W X
  finish_rollback req s (err e) = (err (activation_failed e), s)
  finish_rollback req s (ok x) =
      let done : RollbackRequest = record req { approved = true; executed = true } in
      let restored = s.governance.active in
      (
        ok restored,
        record s {
          outside = targets.reload_active_policy x;
          requests = insert done.request_id done s.requests;
          published = s.published ++ rollback_executed done restored.version ∷ [];
        },
      )

  abbrev pub restore :
      RollbackRequest
      → PolicyRollbackService W X
      → Option (PolicyGovernance W)
      → Result (ServiceError E) (PolicyVersion W) × PolicyRollbackService W X
  restore req s none = (err no_previous_version, s)
  restore req s (some g) =
      finish_rollback req (record s { governance = g })
        (targets.activate_version g.active s.outside)

  abbrev pub execute_found :
      Option RollbackRequest
      → PolicyRollbackService W X
      → Result (ServiceError E) (PolicyVersion W) × PolicyRollbackService W X
  execute_found none s = (err unknown_request, s)
  execute_found (some req) s =
      if req.executed then (ok s.governance.active, s) else restore req s (rolled_back s.governance)

  unfoldable pub approve_and_execute :
      ℕ
      → PolicyRollbackService W X
      → Result (ServiceError E) (PolicyVersion W) × PolicyRollbackService W X
  approve_and_execute id s = execute_found (lookup id s.requests) s
