-- ===== src/Autonomy/Deployment/Gate.antt =====
-- src/sddgov/autonomy.py: the gate of a production deployment.
use agentic_sdd_governance.Base.{◌≡◌, true, false, [], Result, ok, ◌⊎◌, All}
use agentic_sdd_governance.Python.Value.{Value, bool, str, obj, Fields, get, is_true}
use agentic_sdd_governance.Governance.Project.{Project}
use agentic_sdd_governance.Autonomy.Vocabulary.{deploy_guards}
use agentic_sdd_governance.Autonomy.Escalation.Evaluate.{World, evaluate_escalation}
use agentic_sdd_governance.Autonomy.Deployment.{
  failed_guards, catch, exact_request, deploy_request, evaluate_deployment,
}

-- The deployment is refused before any evaluation, and the project is what it was.
pub record IsRefused (p : Project) (run : Result Fields × Project) : Type 0 where
  pub answer : Fields
  pub returned : run ≡ (ok answer, p)
  pub state : get "state" answer ≡ str "BLOCKED"
  pub refusal : get "ok" answer ≡ bool false

-- Every guard of the gate is `True`, its risk is L3, and the evaluation of its request, with the
-- gate's own risk and category, gives the answer.
pub record IsEvaluated (w : World) (gate : Fields) (p : Project) : Type 0 where
  pub guards : All (λ name. is_true (get name gate) ≡ true) deploy_guards
  pub risk : get "risk_level" gate ≡ str "L3"
  pub request : Fields
  pub given : get "escalation_request" gate ≡ obj request
  pub evaluated :
      evaluate_deployment w gate p ≡ catch (evaluate_escalation w (exact_request request) p)

module _ (w : World) (gate : Fields) (p : Project) where
  abbrev IsGated : Result Fields × Project → Type 0
  IsGated run =
      IsRefused p run
      ⊎ ((request : Fields) × (get "escalation_request" gate ≡ obj request)
          × (run ≡ catch (evaluate_escalation w (exact_request request) p)))

  abbrev IsDecided : Result Fields × Project → Type 0
  IsDecided run =
      IsRefused p run
      ⊎ ((failed_guards gate ≡ [])
          × (get "risk_level" gate ≡ str "L3")
          × (run ≡ deploy_request w (get "escalation_request" gate) p))
