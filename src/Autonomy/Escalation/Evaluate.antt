-- ===== src/Autonomy/Escalation/Evaluate.antt =====
-- src/sddgov/autonomy.py: `evaluate_escalation`, its stages in order.
use agentic_sdd_governance.Base.{ℕ, Option, none, some, ok, Exec, after, ◌⊎◌, inl, inr}
use agentic_sdd_governance.Python.Value.{Value, Fields}
use agentic_sdd_governance.Host.{Host}
use agentic_sdd_governance.Governance.Project.{Project}
use agentic_sdd_governance.Autonomy.Decisions.{Evidence}
use agentic_sdd_governance.Autonomy.Operation.{Control}
use agentic_sdd_governance.Autonomy.Escalation.Boundary.{
  Facts, read_request, envelope_stage, limit_stage, machine_stage,
}
use agentic_sdd_governance.Autonomy.Escalation.Reuse.{reuse_stage, approval_stage}
use agentic_sdd_governance.Autonomy.Escalation.Action.{
  Resolver, package_stage, action_stage, final_reply,
}

-- What the evaluation asks of the world outside the project's own files.
pub record World : Type 0 where
  pub host : Host
  pub now : ℕ
  pub evidence : Evidence
  pub control : Control
  pub resolver : Resolver

module _ (w : World) where
  unfoldable pub finish : Facts → Fields → Fields → Option Value ⊎ Fields → Exec Project Fields
  finish f request card (inl row) p = (ok (final_reply f request card row), p)
  finish f request card (inr answer) p = (ok answer, p)

  unfoldable pub ask : Facts → Fields → Fields ⊎ Fields → Exec Project Fields
  ask f request (inl card) p =
      after (action_stage w.host w.resolver w.now f request card p) (finish f request card)
  ask f request (inr answer) p = (ok answer, p)

  -- A reply ends the evaluation, and without one it goes on.
  abbrev pub or_else : Option Fields → Exec Project Fields → Exec Project Fields
  or_else (some answer) next p = (ok answer, p)
  or_else none next p = next p

  -- The decision package and what follows it.
  unfoldable pub human_stage : Facts → Fields → Exec Project Fields
  human_stage f request p = after (package_stage w.host f request, p) (ask f request)

  -- The reuse of a decision or an approval, and else a human.
  unfoldable pub authority_stage : Facts → Fields → Exec Project Fields
  authority_stage f request p =
      after (reuse_stage w.host w.evidence p request f, p)
        (λ reused. or_else reused (λ q.
          after (approval_stage w.host w.control w.now f request q)
            (λ approved. or_else approved (human_stage f request))))

  unfoldable pub evaluate_facts : Fields → Facts ⊎ Fields → Exec Project Fields
  evaluate_facts request (inr answer) p = (ok answer, p)
  evaluate_facts request (inl f) p =
      or_else (envelope_stage f request)
        (or_else (limit_stage f) (or_else (machine_stage f request) (authority_stage f request))) p

  -- `evaluate_escalation`
  unfoldable pub evaluate_escalation : Fields → Exec Project Fields
  evaluate_escalation request p = after (read_request request, p) (evaluate_facts request)
