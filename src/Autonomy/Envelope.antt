-- ===== src/Autonomy/Envelope.antt =====
-- src/sddgov/autonomy.py: `_l0_l1_envelope_error` and `_closed_category_envelope_error`.
use agentic_sdd_governance.Base.{
  String, Bool, not, ◌&&◌, ◌||◌, Option, none, some, List, [], ◌∷◌, any, if◌then◌else◌, ◌==◌,
}
use agentic_sdd_governance.Python.Value.{obj, Fields, end, get, has, keys_within, is_bool}
use agentic_sdd_governance.Python.Equality.{py_eq}
use agentic_sdd_governance.Autonomy.Vocabulary.{operation_categories}

abbrev base : List String
base = "risk_level" ∷ "category" ∷ "effects" ∷ []

-- What a request of a low risk may hold, by its category.
unfoldable pub low_risk_fields : String → List String
low_risk_fields category =
    if category == "integrity_mismatch"
    then "unrelated_work_exists" ∷ base
    else if category == "uncertainty"
    then "machine_verifiable" ∷ "unrelated_work_exists" ∷ base
    else base

-- A field that is there and is no `bool`.
unfoldable pub is_bad_flag : Fields → String → Bool
is_bad_flag request name = has name request && not (is_bool (get name request))

-- `_l0_l1_envelope_error`
unfoldable pub low_risk_error : String → Fields → Option String
unfolding low_risk_fields is_bad_flag
low_risk_error category request =
    if category == "operational_action" || category == "necessary_uat"
    then none
    else if not (keys_within (low_risk_fields category) request)
    then some "low_risk_action_requires_closed_typed_executor_contract"
    else if not (py_eq (get "effects" request) (obj end))
    then none
    else if is_bad_flag request "machine_verifiable" || is_bad_flag request "unrelated_work_exists"
    then some "low_risk_action_boolean_field_is_invalid"
    else none

-- The closed schema of each category.
unfoldable pub category_fields : String → List String
category_fields category =
    if category == "product_decision"
    then "decision_id" ∷ "decision_scope" ∷ "assumptions_sha256" ∷ "reopen_condition_triggered"
      ∷ "decision_package" ∷ "unrelated_work_exists" ∷ "assumption_paths" ∷ "approver_id"
      ∷ "valid_days" ∷ "owner_client" ∷ base
    else if any (λ n. category == n) operation_categories
    then "approval_id" ∷ "operation_id" ∷ "operation_payload" ∷ "decision_package"
      ∷ "machine_verifiable" ∷ "unrelated_work_exists" ∷ base
    else if category == "operational_action"
    then "action_id" ∷ "action_owner" ∷ "action_scope" ∷ "action_ttl_minutes" ∷ "decision_package"
      ∷ "unrelated_work_exists" ∷ base
    else if category == "necessary_uat"
    then "uat_id" ∷ "uat_owner" ∷ "uat_scope" ∷ "uat_ttl_minutes" ∷ "decision_package"
      ∷ "unrelated_work_exists" ∷ base
    else if category == "uncertainty"
    then "machine_verifiable" ∷ "unrelated_work_exists" ∷ "decision_package" ∷ base
    else if category == "integrity_mismatch"
    then "unrelated_work_exists" ∷ base
    else base

-- `_closed_category_envelope_error`
unfoldable pub category_error : String → Fields → Option String
unfolding category_fields
category_error category request =
    if category == "necessary_uat" && has "machine_verifiable" request
    then some "machine_verifiable_work_is_not_necessary_uat"
    else if not (keys_within (category_fields category) request)
    then some "request_contains_fields_outside_closed_category_schema"
    else none
