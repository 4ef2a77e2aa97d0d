-- ===== src/Autonomy/Escalation/Reuse.antt =====
-- src/sddgov/autonomy.py: `evaluate_escalation`, the reuse of a recorded product decision and the
-- use of a signed L3 approval.
use agentic_sdd_governance.Base.{
  ℕ, String, Bool, true, false, not, ◌&&◌, ◌||◌, Option, none, some, List, any, Result, ok, err,
  Exn, value_error, Exec, after, ◌>>=◌, if◌then◌else◌, ◌==◌,
}
use agentic_sdd_governance.Python.Value.{
  Value, str, bool, obj, Fields, field, end, get, has, eq_str, truthy,
}
use agentic_sdd_governance.Python.Equality.{py_eq}
use agentic_sdd_governance.Host.{Host}
use agentic_sdd_governance.Governance.Project.{Project}
use agentic_sdd_governance.Governance.Actions.Store.{row_get}
use agentic_sdd_governance.Autonomy.Payload.{validate_payload}
use agentic_sdd_governance.Autonomy.Reply.{go_on, blocked}
use agentic_sdd_governance.Autonomy.Decisions.{
  Evidence, decision_store, find_decision, plain_l2_matches, l2_matches,
}
use agentic_sdd_governance.Autonomy.Operation.{
  Control, Consumption, unavailable, context_blocked, control_blocked, approved, consume_operation,
}
use agentic_sdd_governance.Autonomy.Escalation.Boundary.{Facts}

-- The message of an exception, as `str(exc)`.
abbrev pub message : Exn → String
message (value_error m) = m
message _ = ""

-- What follows once a recorded decision matches.
unfoldable pub reuse_reply : Bool → Bool → Bool → Fields
reuse_reply with_package plain_match is_plain =
    if with_package && not plain_match
    then (if is_plain
        then blocked "existing_plain_language_decision_package_changed"
            "reopen_one_bounded_product_decision" end
        else blocked "existing_decision_reuse_must_not_include_decision_package"
            "remove_the_new_package_or_reopen_one_bounded_product_decision" end)
    else go_on "existing_decision_reused_without_duplicate_question" "continue" end

abbrev pub is_plain : Fields → Bool
is_plain decision = eq_str (get "approval_mode" decision) "plain_language_owner_choice"

-- The end of the stage: a decision that matches is reused.
unfoldable pub reuse_answer : Fields → Fields → Bool → Bool → Option Fields
reuse_answer request decision plain_match matched =
    if matched
    then some (reuse_reply (has "decision_package" request) plain_match (is_plain decision))
    else none

module _ (h : Host) (e : Evidence) (p : Project) (request : Fields) where
  -- `plain_language_match`
  unfoldable pub plain_match : Fields → Result Bool
  plain_match decision =
      if is_plain decision
      then plain_l2_matches h e p decision (get "decision_scope" request)
          (get "decision_package" request)
      else ok false

  -- `plain_language_match or _l2_approval_matches(…)`
  unfoldable pub any_match : Fields → Bool → Result Bool
  any_match decision true = ok true
  any_match decision false = l2_matches h e p decision (get "decision_scope" request)

  unfoldable pub reuse_matched : Fields → Bool → Result (Option Fields)
  reuse_matched decision plain =
      any_match decision plain >>= λ matched. ok (reuse_answer request decision plain matched)

  unfoldable pub reuse_decision : Option Value → Result (Option Fields)
  reuse_decision (some (obj decision)) =
      plain_match decision >>= λ plain. reuse_matched decision plain
  reuse_decision _ = ok none

  -- The L2 stage.
  unfoldable pub reuse_stage : Facts → Result (Option Fields)
  reuse_stage f =
      if f.risk == "L2" && f.category == "product_decision"
      then (find_decision p (get "decision_id" request) >>= λ found. reuse_decision found)
      else ok none

-- `approval["approval_envelope"]["receipt"]["operation_payload"]`, of a row whose envelope was
-- verified.
unfoldable pub receipt_payload : Fields → Value
receipt_payload row = row_get "operation_payload" (row_get "receipt" (get "approval_envelope" row))

-- An approval that is recorded and was not consumed just now cannot be used.
unfoldable pub unavailable_reply : Value → List Value → Option Fields
unavailable_reply approval_id rows =
    if any (λ row. py_eq (row_get "decision_id" row) approval_id) rows
    then some (
        blocked "l3_approval_is_unavailable_expired_or_consumed"
          "prepare_a_new_exact_operation_approval_id" end)
    else none

-- The reply after the consumption; `none` goes on to the decision package.
unfoldable pub consumption_reply : Value → Project → Consumption → Result (Option Fields)
consumption_reply approval_id p (approved row) = ok (
    some (
      go_on "fresh_l3_operation_approval_verified" "continue" (
        field "approval_id" (get "decision_id" row) (
          field "operation_id" (get "operation_id" row) (
            field "authorized_operation_payload" (receipt_payload row) (
              field "operation_payload_sha256" (get "operation_payload_sha256" row)
                (field "approval_consumed" (bool true) end)))))))
consumption_reply approval_id p context_blocked = ok (
    some (
      blocked "l3_runtime_context_mismatch"
        "recover_independent_runtime_context_or_reissue_exact_payload" end))
consumption_reply approval_id p control_blocked = ok (
    some (
      blocked "l3_external_nonce_ledger_unavailable"
        "provision_or_recover_independent_l3_control_plane" end))
consumption_reply approval_id p unavailable =
    decision_store p >>= λ store. ok (unavailable_reply approval_id store.1)

module _ (h : Host) (c : Control) (now : ℕ) where
  -- The payload says what the request says.
  unfoldable pub compare_payload : Facts → Value → Option Fields
  compare_payload f payload =
      if not (eq_str (row_get "category" payload) f.category)
        || not (py_eq (row_get "effects" payload) (obj f.effects))
      then some
          (blocked "operation_payload_does_not_match_request" "rebuild_exact_operation_request" end)
      else none

  -- The payload is exact, or the reply.
  unfoldable pub payload_answer : Facts → Value → Result String → Result (Option Fields)
  payload_answer f payload (ok digest) = ok (compare_payload f payload)
  payload_answer f payload (err (value_error m)) = ok (
      some (
        blocked "exact_operation_payload_required" "prepare_canonical_operation_payload"
          (field "detail" (str m) end)))
  payload_answer f payload (err e) = err e

  abbrev pub payload_stage : Facts → Value → Result (Option Fields)
  payload_stage f payload = payload_answer f payload (validate_payload h payload)

  unfoldable pub approve : Fields → Option Fields → Exec Project (Option Fields)
  approve request (some reply) p = (ok (some reply), p)
  approve request none p =
      after
        (consume_operation h c now (get "approval_id" request) (get "operation_id" request)
          (get "operation_payload" request) p)
        (λ result q. (consumption_reply (get "approval_id" request) q result, q))

  -- The L3 stage.
  unfoldable pub approval_stage : Facts → Fields → Exec Project (Option Fields)
  approval_stage f request p =
      if f.risk == "L3" && truthy (get "approval_id" request)
      then after (payload_stage f (get "operation_payload" request), p) (approve request)
      else (ok none, p)
