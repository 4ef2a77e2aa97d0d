-- ===== src/Autonomy/Deployment.antt =====
-- src/sddgov/autonomy.py: `evaluate_deployment`.
pub mod Gate
use agentic_sdd_governance.Base.{
  ℕ, String, Bool, true, false, not, ◌&&◌, ◌||◌, Option, none, some, List, [], ◌∷◌, any, all, keep,
  map, Result, ok, err, Exn, value_error, os_error, type_error, key_error, attribute_error,
  file_not_found, Exec, if◌then◌else◌, ◌==◌,
}
use agentic_sdd_governance.Python.Value.{
  Value, null, str, bool, arr, obj, Fields, field, end, get, put, of_list, is_true, is_null, is_str,
  eq_str,
}
use agentic_sdd_governance.Governance.Project.{Project}
use agentic_sdd_governance.Autonomy.Vocabulary.{deploy_guards}
use agentic_sdd_governance.Autonomy.Reply.{blocked, requires_risk, boundary}
use agentic_sdd_governance.Autonomy.Escalation.Evaluate.{World, evaluate_escalation}

-- The blocked replies of this function carry `"ok": False`.
abbrev pub refused : String → String → Fields → Fields
refused reason next_action more = blocked reason next_action (field "ok" (bool false) more)

abbrev invalid_request : Fields
invalid_request =
    refused "deployment_escalation_request_has_an_invalid_contract"
      "prepare_one_exact_l3_escalation_request_object" end

-- The guards of the gate that are not `True`.
unfoldable pub failed_guards : Fields → List String
failed_guards gate = keep (λ name. not (is_true (get name gate))) deploy_guards

-- A value that is there is a text.
abbrev pub is_optional_text : Value → Bool
is_optional_text v = is_null v || is_str v

-- `except (AttributeError, KeyError, TypeError, ValueError)`
unfoldable pub catch : Result Fields × Project → Result Fields × Project
catch (ok answer, p) = (ok answer, p)
catch (err (value_error m), p) = (ok invalid_request, p)
catch (err type_error, p) = (ok invalid_request, p)
catch (err key_error, p) = (ok invalid_request, p)
catch (err attribute_error, p) = (ok invalid_request, p)
catch (err e, p) = (err e, p)

-- The request that is evaluated: its risk and category are those of the gate.
abbrev pub exact_request : Fields → Fields
exact_request request =
    put "category" (str "high_risk_operation") (put "risk_level" (str "L3") request)

module _ (w : World) where
  unfoldable pub deploy_request : Value → Exec Project Fields
  unfolding catch
  deploy_request (obj request) p =
      if not (is_optional_text (get "risk_level" request))
        || not (is_optional_text (get "category" request))
      then (ok invalid_request, p)
      else if not (is_null (get "risk_level" request) || eq_str (get "risk_level" request) "L3")
          || not (
              is_null (get "category" request)
              || eq_str (get "category" request) "high_risk_operation")
      then (
        ok (
            refused "deployment_escalation_request_does_not_match_the_exact_l3_gate"
              "rebuild_one_exact_l3_escalation_request_object"
              (requires_risk "L3"
                (field "required_category" (str "high_risk_operation") (boundary true end)))),
        p,
      )
      else catch (evaluate_escalation w (exact_request request) p)
  deploy_request _ p = (ok invalid_request, p)

  unfoldable pub guard_gate : String → Fields → List String → Exec Project Fields
  unfolding deploy_request
  guard_gate risk gate (name ∷ names) p = (
    ok (
        refused "production_guardrails_not_satisfied"
          "investigate_and_restore_machine_verifiable_guards"
          (field "failed_guards" (arr (of_list (map str (name ∷ names)))) end)),
    p,
  )
  guard_gate risk gate [] p =
      if not (risk == "L3")
      then (
        ok (
            refused "actual_production_deploy_requires_exact_l3_operation"
              "prepare_release_readiness_then_one_exact_l3_deploy_operation"
              (requires_risk "L3" (boundary true end))),
        p,
      )
      else deploy_request (get "escalation_request" gate) p

  abbrev invalid_gate : Fields
  invalid_gate =
      refused "deployment_gate_has_an_invalid_contract"
        "repair_the_machine_gate_before_reclassification" end

  unfoldable pub deploy_risk : Value → Fields → Exec Project Fields
  unfolding guard_gate failed_guards
  deploy_risk (str risk) gate p =
      if any (λ n. risk == n) ("L0" ∷ "L1" ∷ "L2" ∷ "L3" ∷ [])
      then guard_gate risk gate (failed_guards gate) p
      else (ok invalid_gate, p)
  deploy_risk _ gate p = (ok invalid_gate, p)

  -- `evaluate_deployment`
  unfoldable pub evaluate_deployment : Fields → Exec Project Fields
  unfolding deploy_risk
  evaluate_deployment gate p = deploy_risk (get "risk_level" gate) gate p
