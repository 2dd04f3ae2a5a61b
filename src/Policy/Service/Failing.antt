-- ===== src/Policy/Service/Failing.antt =====
-- `PolicyRollbackService.approve_and_execute` of aitos/journal/policy_rollback_service.py with a
-- registry that refuses to activate. `PolicyRegistry` of aitos/journal/policy_registry.py is one: it
-- takes a version and weights, is called with one argument, and so raises.
use project_alpha.Common.{
  ℕ, zero, suc, ◌≡◌, refl, ap, ◌∙◌, arith, false, Option, none, some, lookup, err, Option-cases,
  inl, inr,
}
use project_alpha.Policy.Governance.{PolicyVersion, PolicyGovernance}
use project_alpha.Policy.Service.{
  RollbackRequest, activation_failed, PolicyRollbackService, PolicyTargets, rolled_back,
  approve_and_execute,
}

-- The governance after `n` rollbacks, if its history is long enough.
unfoldable pub rollbacks : {W : Type 0} → ℕ → PolicyGovernance W → Option (PolicyGovernance W)
rollbacks zero g = some g
rollbacks (suc n) g = elim (rolled_back g) [ none ↦ none | some g' ↦ rollbacks n g' ]

module _ {W X E : Type 0} (targets : PolicyTargets W X E) where
  -- What `n` calls for one request leave, whether they raise or not.
  unfoldable pub approve_times : ℕ → ℕ → PolicyRollbackService W X → PolicyRollbackService W X
  approve_times zero id s = s
  approve_times (suc n) id s = approve_times n id (approve_and_execute targets id s).1

  -- The registry activates nothing.
  abbrev pub Refuses : Type 0
  Refuses = (v : PolicyVersion W) (x : X) → (e : E) × (targets.activate_version v x ≡ err e)

  abbrev pub IsPending : ℕ → PolicyRollbackService W X → Type 0
  IsPending id s =
      (req : RollbackRequest) × (lookup id s.requests ≡ some req) × (req.executed ≡ false)

  approve_and_execute-Refuses :
      (id : ℕ) (s : PolicyRollbackService W X) {g : PolicyGovernance W}
      → Refuses
      → IsPending id s
      → rolled_back s.governance ≡ some g
      → (e : E) × (approve_and_execute targets id s
          ≡ (err (activation_failed e), record s { governance = g }))
  unfolding approve_and_execute
  approve_and_execute-Refuses id s {g} refuses (req, found, fresh) back =
      let (e, failed) = refuses g.active s.outside in (e, simp (found, fresh, back, failed) refl)

  -- With a registry that activates nothing, every call for a pending request rolls the governance
  -- back once more, as far as its history reaches, and changes nothing else: the request stays
  -- pending, nothing is published, and the registry and the kernel stay as they were.
  pub approve_times-Refuses :
      (n id : ℕ) (s : PolicyRollbackService W X) {g : PolicyGovernance W}
      → Refuses
      → IsPending id s
      → rollbacks n s.governance ≡ some g
      → approve_times n id s ≡ record s { governance = g }
  unfolding approve_times rollbacks
  approve_times-Refuses zero id s {g} refuses pending back =
      ap (λ h. record s { governance = h }) (let same : s.governance ≡ g = cc in same)
  approve_times-Refuses (suc n) id s {g} refuses pending back =
      elim (Option-cases (rolled_back s.governance)) [
        | inl none_left ↦ let k = rw (rollbacks, none_left) at back in absurd (ground arith)
        | inr (g₁, once) ↦
            let (e, left) = approve_and_execute-Refuses id s refuses pending once in
            ap (λ r. approve_times n id r.1) left
            ∙ approve_times-Refuses n id (record s { governance = g₁ }) refuses pending
                (rw (rollbacks, once) at back)
      ]
