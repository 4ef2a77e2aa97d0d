-- ===== src/Autonomy/Escalation/Boundary.antt =====
-- src/sddgov/autonomy.py: `evaluate_escalation` up to the engineering categories: the contract of
-- the request, the envelopes, the limits between risk and category, and the categories that need
-- no human.
use agentic_sdd_governance.Base.{
  String, ◌<>◌, Bool, true, false, not, ◌&&◌, ◌||◌, Option, none, some, List, [], ◌∷◌, any, Result,
  ok, err, value_error, if◌then◌else◌, ◌==◌, ◌⊎◌, inl, inr, first, either,
}
use agentic_sdd_governance.Python.Value.{
  pos, Value, str, int, obj, Fields, field, end, get, has, is_true, truthy,
}
use agentic_sdd_governance.Autonomy.Vocabulary.{
  routine_operations, high_risk_categories, known_categories,
}
use agentic_sdd_governance.Autonomy.Payload.{effects_valid}
use agentic_sdd_governance.Autonomy.Envelope.{low_risk_error, category_error}
use agentic_sdd_governance.Autonomy.Reply.{go_on, blocked, requires_risk, boundary}

abbrev pub is_named : String → List String → Bool
is_named s names = any (λ n. s == n) names

abbrev pub is_low : String → Bool
is_low risk = risk == "L0" || risk == "L1"

-- What the first stage reads from a request that it lets pass.
pub record Facts : Type 0 where
  pub risk : String
  pub category : String
  pub effects : Fields

-- `effects` must be a dict of known flags that are `True`.
unfoldable pub effects_of : String → String → Value → Result (Facts ⊎ Fields)
effects_of risk category (obj effects) =
    if effects_valid effects
    then ok (inl (record { risk = risk; category = category; effects = effects }))
    else err (value_error "effects must contain only known sensitive flags set to true")
effects_of risk category _ = err (value_error "effects must be an object of known sensitive flags")

unfoldable pub read_effects : String → String → Fields → Result (Facts ⊎ Fields)
unfolding effects_of
read_effects risk category request =
    if not (has "effects" request)
    then err (value_error "effects is required and must explicitly classify sensitive effects")
    else effects_of risk category (get "effects" request)

unfoldable pub read_category : String → Value → Fields → Result (Facts ⊎ Fields)
unfolding read_effects
read_category risk (str category) request =
    if category == ""
    then err (value_error "category is required")
    else if not (is_named category known_categories)
    then ok (
        inr (
          blocked "unrecognized_action_category"
            "classify_with_canonical_action_category_and_effects" end))
    else read_effects risk category request
read_category risk _ request = err (value_error "category is required")

abbrev invalid_contract : Fields
invalid_contract =
    blocked "autonomy_request_has_an_invalid_contract"
      "repair_the_machine_request_before_reclassification" end

unfoldable pub read_risk : Value → Fields → Result (Facts ⊎ Fields)
unfolding read_category
read_risk (str risk) request =
    if is_named risk ("L0" ∷ "L1" ∷ "L2" ∷ "L3" ∷ [])
    then read_category risk (get "category" request) request
    else ok (inr invalid_contract)
read_risk _ request = ok (inr invalid_contract)

-- The first stage: the facts, or the reply.
unfoldable pub read_request : Fields → Result (Facts ⊎ Fields)
unfolding read_risk
read_request request = read_risk (get "risk_level" request) request

abbrev authority_fields : List String
authority_fields =
    "approval_id" ∷ "operation_id" ∷ "operation_payload" ∷ "decision_id" ∷ "decision_scope"
    ∷ "decision_package" ∷ []

unfoldable pub blocked_option : Option String → String → Option Fields
blocked_option none next_action = none
blocked_option (some reason) next_action = some (blocked reason next_action end)

-- The envelope of the request: no authority for routine work, and no field of another schema.
unfoldable pub envelope_stage : Facts → Fields → Option Fields
envelope_stage f request =
    either
      (first (
        (
          is_low f.risk
              && is_named f.category routine_operations
              && any (λ n. has n request) authority_fields,
          blocked "authority_bearing_fields_not_allowed_for_routine_action"
              "rebuild_request_with_one_exact_authority_class" end,
        )
        ∷ []))
      (either
        (blocked_option (if is_low f.risk then low_risk_error f.category request else none)
          "use_one_closed_typed_executor_contract_or_remove_executable_fields")
        (blocked_option (category_error f.category request)
          "rebuild_request_with_one_exact_category_schema"))

-- `bool(effects)`
abbrev pub has_effects : Fields → Bool
has_effects end = false
has_effects (field k v d) = true

abbrev pub is_readiness : String → Bool
is_readiness category = category == "merge" || category == "release_readiness"

-- The limits between risk, category and effects, in order: what is dangerous cannot be labelled
-- lower.
abbrev pub limits : Facts → List (Bool × Fields)
limits f =
    (
      has "public_publish" f.effects && not (f.category == "public_release"),
      (blocked "public_publish_requires_canonical_public_release_category"
          "prepare_one_exact_public_release_operation"
          (requires_risk "L3"
            (field "required_category" (str "public_release") (boundary true end)))),
    )
    ∷ (
      f.category == "public_release" && not (is_true (get "public_publish" f.effects)),
      (blocked "public_release_requires_public_publish_effect" "declare_the_public_publish_effect"
          (requires_risk "L3" (boundary true end))),
    )
    ∷ (
      is_readiness f.category && has_effects f.effects,
      (blocked "reality_effect_requires_canonical_l3_operation"
          "separate_readiness_from_the_exact_external_operation"
          (requires_risk "L3" (
            field "required_category"
              (str (
                if has "public_publish" f.effects then "public_release" else "high_risk_operation"))
              (boundary true end)))),
    )
    ∷ (
      is_readiness f.category && not (f.risk == "L1"),
      (blocked (f.category <> "_requires_exact_l1_without_reality_effects")
          "reclassify_the_effect_free_engineering_channel_as_l1"
          (requires_risk "L1" (boundary false end))),
    )
    ∷ (
      f.category == "product_decision" && not (f.risk == "L2"),
      (blocked "product_decision_requires_exact_l2_risk"
          "reclassify_and_prepare_signed_l2_decision_package" (requires_risk "L2" end)),
    )
    ∷ (
      f.category == "high_risk_operation" && not (f.risk == "L3"),
      (blocked "high_risk_operation_cannot_be_downgraded"
          "reclassify_and_prepare_exact_l3_decision_package" (requires_risk "L3" end)),
    )
    ∷ (
      (is_named f.category high_risk_categories || has_effects f.effects) && not (f.risk == "L3"),
      (blocked "dangerous_action_cannot_be_downgraded"
          "reclassify_and_prepare_exact_l3_decision_package" (requires_risk "L3" end)),
    )
    ∷ []

unfoldable pub limit_stage : Facts → Option Fields
limit_stage f = first (limits f)

abbrev pub is_forced : String → Bool
is_forced category = category == "operational_action" || category == "necessary_uat"

abbrev pub machine_route : String
machine_route = "verify_with_repo_decisions_tests_ci_or_tools"

unfoldable pub integrity_reply : Bool → Fields
integrity_reply true =
    go_on "integrity_mismatch_requires_machine_investigation"
      "investigate_artifact_and_continue_unrelated_work"
      (field "artifact_state" (str "BLOCKED") end)
integrity_reply false =
    blocked "integrity_mismatch_requires_machine_investigation" "investigate_artifact"
      (field "artifact_state" (str "BLOCKED") end)

unfoldable pub uncertainty_reply : Bool → Bool → Fields
uncertainty_reply true unrelated =
    go_on "machine_verifiable_uncertainty_requires_investigation" machine_route end
uncertainty_reply false true =
    go_on "uncertainty_must_be_investigated_not_escalated" "investigate_and_continue_unrelated_work"
      end
uncertainty_reply false false =
    blocked "uncertainty_must_be_investigated_not_escalated"
      "investigate_and_reclassify_with_one_canonical_category" end

unfoldable pub channel_fields : String → Fields
channel_fields category =
    if is_readiness category
    then field "channel"
        (str (if category == "release_readiness" then "release_readiness" else "development"))
        (boundary false (field "owner_operations_required" (int (pos 0)) end))
    else end

-- The categories that a machine settles by itself, in order.
abbrev pub machine_ladder : Facts → Fields → List (Bool × Fields)
machine_ladder f request =
    (f.category == "checkpoint", go_on "checkpoint_is_informational" "continue" end)
    ∷ (
      f.category == "integrity_mismatch",
      integrity_reply (truthy (get "unrelated_work_exists" request)),
    )
    ∷ (
      f.category == "uncertainty",
      uncertainty_reply (is_true (get "machine_verifiable" request))
          (truthy (get "unrelated_work_exists" request)),
    )
    ∷ (
      not (is_forced f.category) && is_named f.category routine_operations && is_low f.risk,
      go_on "no_human_escalation_if_machine_verifiable" machine_route (channel_fields f.category),
    )
    ∷ (
      not (is_forced f.category) && truthy (get "machine_verifiable" request) && is_low f.risk,
      go_on "no_human_escalation_if_machine_verifiable" machine_route end,
    )
    ∷ (
      is_low f.risk && not (is_forced f.category),
      go_on "l0_l1_engineering_is_pre_authorized" "continue" end,
    )
    ∷ []

unfoldable pub machine_stage : Facts → Fields → Option Fields
machine_stage f request = first (machine_ladder f request)
