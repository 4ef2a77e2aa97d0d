-- ===== src/Autonomy/Vocabulary.antt =====
-- src/sddgov/autonomy.py: the sets of names at the top of the file.
use agentic_sdd_governance.Base.{String, List, [], ◌∷◌, ◌++◌}

abbrev pub routine_operations : List String
routine_operations =
    "issue" ∷ "branch" ∷ "implementation" ∷ "commit" ∷ "feature_branch_push" ∷ "pull_request"
    ∷ "review" ∷ "review_fix" ∷ "lint" ∷ "typecheck" ∷ "test" ∷ "e2e" ∷ "security_scan"
    ∷ "dependency_conflict" ∷ "git_conflict" ∷ "recoverable_retry" ∷ "integrity_verification" ∷ "ci"
    ∷ "merge" ∷ "release_readiness" ∷ []

abbrev pub escalation_categories : List String
escalation_categories =
    "uncertainty" ∷ "product_decision" ∷ "high_risk_operation" ∷ "operational_action"
    ∷ "necessary_uat" ∷ []

abbrev pub high_risk_categories : List String
high_risk_categories =
    "production_data_deletion" ∷ "irreversible_migration" ∷ "secret_change"
    ∷ "permission_boundary_change" ∷ "real_payment" ∷ "high_privilege_production_operation"
    ∷ "public_release" ∷ []

abbrev pub sensitive_effects : List String
sensitive_effects =
    "production" ∷ "destructive" ∷ "irreversible" ∷ "secret_change" ∷ "permission_boundary_change"
    ∷ "real_payment" ∷ "high_privilege" ∷ "public_publish" ∷ []

abbrev pub known_categories : List String
known_categories =
    routine_operations
    ++ (escalation_categories
        ++ (high_risk_categories ++ ("checkpoint" ∷ "integrity_mismatch" ∷ [])))

-- `HIGH_RISK_CATEGORIES | {"high_risk_operation"}`
abbrev pub operation_categories : List String
operation_categories = "high_risk_operation" ∷ high_risk_categories

abbrev pub action_required_fields : List String
action_required_fields =
    "decision_id" ∷ "risk_level" ∷ "why_human_input_is_required" ∷ "what_agent_already_verified"
    ∷ "options" ∷ "recommended" ∷ "why" ∷ "impact_if_no_decision" ∷ "scope_of_approval" ∷ []

abbrev pub deploy_guards : List String
deploy_guards =
    "all_required_checks_pass" ∷ "rollback_available" ∷ "no_unresolved_security_findings"
    ∷ "no_destructive_schema_change" ∷ "no_secret_change" ∷ "no_permission_boundary_change"
    ∷ "health_check_pass" ∷ "blast_radius_within_policy" ∷ []
