-- ===== src/Autonomy/Tests.antt =====
-- Tests of src/sddgov/autonomy.py on a project with one signed approval.
use mathlib.Core.Bool.{false≢true}
use agentic_sdd_governance.Python.Text.{is_blank}
use agentic_sdd_governance.Governance.Actions.Store.{row_get}
use agentic_sdd_governance.Python.Equality.{py_eq}
use agentic_sdd_governance.Governance.Actions.Row.{row_time, member}
use agentic_sdd_governance.Autonomy.Payload.{
  effects_valid, contains_sensitive_key, validate_payload,
}
use agentic_sdd_governance.Base.{
  ◌≡◌, ◌≢◌, refl, ap, String, true, none, some, [], ok, err, value_error, Ensures, ◌↔◌, ◌==◌,
  if◌then◌else◌,
}
use agentic_sdd_governance.Python.Value.{
  put, is_text, get, has_exactly, eq_str, Value, bool, str, arr, obj, nil, cons, Fields, field, end,
}
use agentic_sdd_governance.Host.{replace_z, Host}
use agentic_sdd_governance.Governance.Project.{Project}
use agentic_sdd_governance.Autonomy.Decisions.{find_row, decision_store}
use agentic_sdd_governance.Autonomy.Operation.{
  Control, Verified, approved, consume_operation, complete,
}
use agentic_sdd_governance.Autonomy.Operation.Checked.{IsChecked, consume_operation-IsChecked}
use agentic_sdd_governance.Autonomy.Operation.Once.{consume_operation-once}
use agentic_sdd_governance.Autonomy.Escalation.Evaluate.{World, evaluate_escalation}
use agentic_sdd_governance.Autonomy.Escalation.Limits.{StopsAt, evaluate_escalation-dangerous}
use agentic_sdd_governance.Base.{first}
use agentic_sdd_governance.Python.Value.{has, keys_within, truthy}
use agentic_sdd_governance.Python.Equality.{py_eq}
use agentic_sdd_governance.Governance.Actions.Store.{row_get}
use agentic_sdd_governance.Autonomy.Payload.{effects_valid, validate_payload}
use agentic_sdd_governance.Autonomy.Envelope.{category_error}
use agentic_sdd_governance.Autonomy.Operation.{check_context}
use agentic_sdd_governance.Autonomy.Escalation.Boundary.{
  read_request, envelope_stage, blocked_option, limit_stage, machine_stage,
}
use agentic_sdd_governance.Autonomy.Escalation.Reuse.{
  reuse_stage, approval_stage, payload_answer, compare_payload, approve, consumption_reply,
  receipt_payload,
}
use agentic_sdd_governance.Autonomy.Escalation.Evaluate.{evaluate_facts, authority_stage}
use agentic_sdd_governance.Autonomy.Escalation.Operations.{IsPermitted, evaluate_escalation-permits}
use agentic_sdd_governance.Autonomy.Reply.{go_on}
use agentic_sdd_governance.Python.Value.{null}
use agentic_sdd_governance.Autonomy.Escalation.Routine.{
  routine_request, routine_reply, evaluate_escalation-routine,
}
use agentic_sdd_governance.Autonomy.Escalation.Human.{IsAnswer, evaluate_escalation-asks}
use agentic_sdd_governance.Autonomy.Artifact.{
  Artifact, Integrity, lock_of, lock_artifact, verify_artifact,
}
use agentic_sdd_governance.Autonomy.Artifact.Lock.{verify_artifact-lock_artifact}

abbrev payload_digest : String
payload_digest = "aaaaaaaaaaaaaaaaaaaaaaaaaaaaaaaaaaaaaaaaaaaaaaaaaaaaaaaaaaaaaaaa"

abbrev receipt_digest : String
receipt_digest = "bbbbbbbbbbbbbbbbbbbbbbbbbbbbbbbbbbbbbbbbbbbbbbbbbbbbbbbbbbbbbbbb"

abbrev desk : Host
desk = record {
  fromisoformat = λ s.
      if s == "2026-06-01T00:00:00+00:00"
      then some (record { aware = true; instant = 1000 })
      else none;
  stamp = λ _. "2026-01-01T00:00:00Z";
  sha256_json = λ _. payload_digest;
}

abbrev migration : Fields
migration = field "repository" (str "repo") (
    field "project" (str "project") (
      field "environment" (str "production") (
        field "scope" (str "database") (
          field "category" (str "high_risk_operation") (
            field "target" (str "orders") (
              field "parameters" (obj end)
                (field "effects" (obj (field "irreversible" (bool true) end)) end)))))))

abbrev receipt_a : Fields
receipt_a = field "approval_id" (str "approval-1") (
    field "summary" (str "migrate orders") (
      field "scope" (str "database") (
        field "operation_id" (str "operation-1") (
          field "approved_by" (str "owner") (
            field "expires_at" (str "2026-06-01T00:00:00Z")
              (field "nonce" (str "nonce-000001") end))))))

abbrev approval_a : Fields
approval_a = field "decision_id" (str "approval-1") (
    field "summary" (str "migrate orders") (
      field "scope" (str "database") (
        field "operation_id" (str "operation-1") (
          field "approved_by" (str "owner") (
            field "expires_at" (str "2026-06-01T00:00:00Z") (
              field "approval_nonce" (str "nonce-000001") (
                field "risk_level" (str "L3") (
                  field "status" (str "approved") (
                    field "receipt_sha256" (str receipt_digest) (
                      field "operation_payload_sha256" (str payload_digest)
                        (field "signature_algorithm" (str "ed25519") end)))))))))))

abbrev signed_a : Verified
signed_a = record {
  receipt = receipt_a;
  receipt_sha256 = receipt_digest;
  payload_sha256 = payload_digest;
}

abbrev control_a : Control
control_a = record {
  context = ok (field "repository" (str "repo") (field "environment" (str "production") end));
  verify_operation = λ _. ok signed_a;
  consume_nonce = λ _ _ _. true;
}

abbrev project_a : Project
project_a = record {
  project = none;
  claims = none;
  actions = none;
  decisions = some (
      obj (
        field "schema_version" (str "1.0")
          (field "decisions" (arr (cons (obj approval_a) nil)) end)));
  events = [];
}

abbrev world_a : World
world_a = record {
  host = desk;
  now = 10;
  evidence = record {
    bind_request = λ _ _ _ _ _. err (value_error "no request");
    verify_product = λ _. err (value_error "no envelope");
  };
  control = control_a;
  resolver = record { verify_resolution = λ _. err (value_error "no envelope") };
}

abbrev id_a : Value
id_a = str "approval-1"

abbrev operation_a : Value
operation_a = str "operation-1"

-- The project after the approval is used.
abbrev project_b : Project
project_b = (consume_operation desk control_a 10 id_a operation_a (obj migration) project_a).1

consume_operation-IsChecked_example :
    IsChecked desk control_a 10 id_a operation_a
      (obj migration)
      project_a
      project_b
      (complete desk 10 approval_a)
unfolding consume_operation complete validate_payload has_exactly member get is_text
    contains_sensitive_key effects_valid py_eq decision_store find_row row_get row_time replace_z
consume_operation-IsChecked_example =
    consume_operation-IsChecked desk control_a 10 id_a operation_a (obj migration) project_a refl

consume_operation-once_example :
    consume_operation desk control_a 20 id_a operation_a (obj migration) project_b
    ≢ (ok (approved approval_a), project_b)
unfolding consume_operation complete validate_payload has_exactly member get is_text
    contains_sensitive_key effects_valid py_eq decision_store find_row row_get row_time replace_z
consume_operation-once_example =
    consume_operation-once desk control_a control_a 10 20 id_a operation_a operation_a
      (obj migration) (obj migration) project_a {result = complete desk 10 approval_a} refl

not_l3 : str "L1" ≢ str "L3"
not_l3 e = absurd (false≢true (ap (λ v. eq_str v "L3") e))

-- A commit that says it changes production, labelled L1.
abbrev mislabelled : Fields
mislabelled = field "risk_level" (str "L1") (
    field "category" (str "commit")
      (field "effects" (obj (field "production" (bool true) end)) end))

evaluate_escalation-dangerous_example :
    StopsAt project_a (evaluate_escalation world_a mislabelled project_a)
unfolding get
evaluate_escalation-dangerous_example =
    evaluate_escalation-dangerous world_a project_a mislabelled {category = "commit"}
      {effects = field "production" (bool true) end} refl refl refl not_l3

evaluate_escalation-routine_example :
    evaluate_escalation world_a (routine_request "L1" "merge") project_a
    ≡ (ok (routine_reply "merge"), project_a)
evaluate_escalation-routine_example =
    evaluate_escalation-routine world_a project_a "L1" "merge" refl refl (λ _. refl)

-- A product decision with its package.
abbrev question : Fields
question = field "risk_level" (str "L2") (
    field "category" (str "product_decision") (
      field "effects" (obj end) (
        field "decision_package"
          (obj (
            field "decision_id" (str "D-1") (
              field "risk_level" (str "L2") (
                field "why_human_input_is_required" (str "two products are possible")
                  (field "scope_of_approval" (str "the landing page") end)))))
          end)))

evaluate_escalation-asks_example :
    Ensures (IsAnswer world_a question) (evaluate_escalation world_a question project_a).0
evaluate_escalation-asks_example = evaluate_escalation-asks world_a question project_a

-- A gate whose guards all pass.
abbrev open_gate : Fields
open_gate = field "risk_level" (str "L3") (
    field "all_required_checks_pass" (bool true) (
      field "rollback_available" (bool true) (
        field "no_unresolved_security_findings" (bool true) (
          field "no_destructive_schema_change" (bool true) (
            field "no_secret_change" (bool true) (
              field "no_permission_boundary_change" (bool true) (
                field "health_check_pass" (bool true) (
                  field "blast_radius_within_policy" (bool true)
                    (field "escalation_request" (obj question) end)))))))))

abbrev wheel : Artifact
wheel = record { name = "sddgov.whl"; size = 4096; sha256 = payload_digest }

abbrev other_wheel : Artifact
other_wheel = record { name = "sddgov.whl"; size = 4096; sha256 = receipt_digest }

verify_artifact-lock_artifact_example :
    (answer : Integrity) × (verify_artifact
        (some other_wheel)
        (some (obj (lock_of desk 10 "0.9.0" wheel)))
      ≡ ok answer)
    × ((answer.matches ≡ true) ↔ (wheel ≡ other_wheel))
    × (answer.release_id ≡ str "0.9.0")
unfolding lock_artifact is_blank
verify_artifact-lock_artifact_example =
    verify_artifact-lock_artifact desk 10 "0.9.0" wheel other_wheel
      (obj (lock_of desk 10 "0.9.0" wheel)) refl

-- The request for the signed operation.
abbrev migrate : Fields
migrate = field "risk_level" (str "L3") (
    field "category" (str "high_risk_operation") (
      field "effects" (obj (field "irreversible" (bool true) end)) (
        field "approval_id" id_a
          (field "operation_id" operation_a (field "operation_payload" (obj migration) end)))))

abbrev migrate_reply : Fields
migrate_reply = go_on "fresh_l3_operation_approval_verified" "continue" (
    field "approval_id" id_a (
      field "operation_id" operation_a (
        field "authorized_operation_payload" null (
          field "operation_payload_sha256" (str payload_digest)
            (field "approval_consumed" (bool true) end)))))

evaluate_escalation-permits_example : IsPermitted world_a migrate project_a project_b
unfolding evaluate_escalation consume_operation get read_request has effects_valid evaluate_facts
    envelope_stage first blocked_option category_error keys_within limit_stage machine_stage truthy
    authority_stage reuse_stage approval_stage payload_answer compare_payload approve
    consumption_reply receipt_payload validate_payload py_eq complete row_get check_context
    has_exactly member is_text contains_sensitive_key decision_store find_row row_time replace_z put
evaluate_escalation-permits_example =
    evaluate_escalation-permits world_a migrate project_a {category = "high_risk_operation"}
      {answer = migrate_reply} {q = project_b} refl refl refl refl refl
