-- ===== src/Autonomy/Escalation/Action.antt =====
-- src/sddgov/autonomy.py: `evaluate_escalation`, the decision package and the external action that
-- an operational action or an acceptance test is queued as.
use text.Mathlib.Text.{starts_with}
use agentic_sdd_governance.Base.{
  ℕ, String, ◌<>◌, Bool, true, false, not, ◌&&◌, Option, none, some, [], ◌∷◌, all, Result, ok, err,
  value_error, type_error, attribute_error, Exec, ◌>>=◌, if◌then◌else◌, ◌==◌, ◌⊎◌, inl, inr,
}
use agentic_sdd_governance.Python.Value.{
  Value, str, bool, int, pos, obj, Fields, field, end, get, lookup, is_text, is_true, eq_str,
  in_names, truthy,
}
use agentic_sdd_governance.Python.Equality.{py_eq}
use agentic_sdd_governance.Host.{Host}
use agentic_sdd_governance.Governance.Project.{Project}
use agentic_sdd_governance.Governance.Actions.Store.{row_get}
use agentic_sdd_governance.Governance.Actions.Enqueue.{Request, enqueue}
use agentic_sdd_governance.Autonomy.Package.{build_action_required, binding_error}
use agentic_sdd_governance.Autonomy.Reply.{reply, go_on, blocked}
use agentic_sdd_governance.Autonomy.Escalation.Boundary.{Facts, is_forced}

abbrev invalid_package : String → Fields
invalid_package detail =
    blocked "decision_package_has_an_invalid_contract" "rebuild_one_strict_decision_package"
      (field "detail" (str detail) end)

-- `except (AttributeError, TypeError, ValueError)`; only the text of a `ValueError` is modelled.
unfoldable pub card_or_reply : Result Fields → Result (Fields ⊎ Fields)
card_or_reply (ok card) = ok (inl card)
card_or_reply (err (value_error m)) = ok (inr (invalid_package m))
card_or_reply (err type_error) = ok (inr (invalid_package ""))
card_or_reply (err attribute_error) = ok (inr (invalid_package ""))
card_or_reply (err e) = err e

unfoldable pub bind_card : Fields → Option String → Fields ⊎ Fields
bind_card card none = inl card
bind_card card (some reason) =
    inr (blocked reason "bind_the_package_to_the_exact_outer_request" end)

unfoldable pub bound_card : Host → Facts → Fields → Fields ⊎ Fields → Result (Fields ⊎ Fields)
bound_card h f request (inl card) =
    binding_error h f.category request card >>= λ problem. ok (bind_card card problem)
bound_card h f request (inr answer) = ok (inr answer)

unfoldable pub package_answer : Host → Facts → Fields → Value → Result (Fields ⊎ Fields)
package_answer h f request (obj arguments) =
    card_or_reply (build_action_required h arguments) >>= λ r. bound_card h f request r
package_answer h f request _ =
    ok (inr (invalid_package "a genuine escalation requires a strict decision_package"))

-- The decision package that is bound to the request, or the reply.
unfoldable pub package_stage : Host → Facts → Fields → Result (Fields ⊎ Fields)
package_stage h f request = package_answer h f request (get "decision_package" request)

-- `request.get(k, 1440)`
ttl_field : String → Fields → Value
ttl_field k request = elim (lookup k request) [ none ↦ int (pos 1440) | some v ↦ v ]

-- The external action that the request asks for.
unfoldable pub action_request : Facts → Fields → Fields → Request
unfolding ttl_field lookup
action_request f request card =
    let operational = f.category == "operational_action" in
    record {
      action_id = get (if operational then "action_id" else "uat_id") request;
      summary = get "why_human_input_is_required" card;
      risk = str f.risk;
      owner = get (if operational then "action_owner" else "uat_owner") request;
      scope = get (if operational then "action_scope" else "uat_scope") request;
      ttl_minutes =
          ttl_field (if operational then "action_ttl_minutes" else "uat_ttl_minutes") request;
      action_class = str f.category;
    }

-- `_verify_external_action_resolution_envelope`: the receipt of an envelope, and its digest.
pub record Resolver : Type 0 where
  pub verify_resolution : Value → Result (Fields × String)

unfoldable pub untrusted : String → Fields
untrusted category =
    blocked (category <> "_resolution_is_untrusted")
      "import_one_exact_owner_signed_resolution_receipt" end

-- The reply to a `ValueError` of the queue.
unfoldable pub queue_refused : String → String → Fields
queue_refused category m =
    if starts_with m "terminal external action row"
    then blocked (category <> "_resolution_is_untrusted")
        "import_one_exact_owner_signed_resolution_receipt" (field "detail" (str m) end)
    else blocked (category <> "_state_is_invalid") "repair_or_reissue_the_bounded_external_action"
        (field "detail" (str m) end)

-- The receipt is about this row, and is the one that resolved it.
unfoldable pub is_proof : Fields → String → Value → Bool
is_proof receipt digest row =
    all (λ k. py_eq (get k receipt) (row_get k row))
      ("action_id" ∷ "action_class" ∷ "owner" ∷ "scope" ∷ "request_sha256" ∷ "status" ∷ [])
    && eq_str (row_get "resolution_receipt_sha256" row) digest

abbrev pub new_request : String
new_request = "issue_a_new_bounded_request_only_if_the_need_still_exists"

unfoldable pub action_fields : Value → Fields → Fields
action_fields row more =
    field "external_action_created" (bool false) (field "action_id" (row_get "action_id" row) more)

unfoldable pub verified_reply : String → Value → Result (Fields × String) → Result Fields
verified_reply category row (ok (receipt, digest)) = ok (
    if not (is_proof receipt digest row)
    then untrusted category
    else if eq_str (row_get "status" row) "completed"
    then go_on (category <> "_already_completed") "continue" end
    else blocked (category <> "_cancelled") new_request (action_fields row end))
verified_reply category row (err (value_error m)) = ok (untrusted category)
verified_reply category row (err e) = err e

-- A row that is completed or cancelled counts only with its signed proof.
unfoldable pub settled_reply : Resolver → String → Value → Result Fields
settled_reply v category row =
    verified_reply category row (v.verify_resolution (row_get "resolution_envelope" row))

unfoldable pub pending_reply : Bool → String → Value → Fields
pending_reply true category row =
    go_on (category <> "_already_pending") "continue_unrelated_work" (action_fields row end)
pending_reply false category row =
    blocked (category <> "_already_pending") "wait_for_existing_bounded_owner_action"
      (action_fields row end)

-- What is said of a row that was there before.
unfoldable pub existing_reply : Resolver → String → Fields → Value → Result Fields
existing_reply v category request row =
    if in_names (row_get "status" row) ("completed" ∷ "cancelled" ∷ [])
    then settled_reply v category row
    else if eq_str (row_get "status" row) "expired"
    then ok (blocked (category <> "_expired") new_request (action_fields row end))
    else ok (pending_reply (truthy (get "unrelated_work_exists" request)) category row)

-- After the queue: the reply, or the row that was made.
unfoldable pub queued : Resolver → String → Fields → Value → Result (Value ⊎ Fields)
queued v category request row =
    if is_true (row_get "external_action_created" row)
    then ok (inl row)
    else existing_reply v category request row >>= λ r. ok (inr r)

unfoldable pub after_queue : Resolver → String → Fields → Result Value → Result (Value ⊎ Fields)
after_queue v category request (ok row) = queued v category request row
after_queue v category request (err (value_error m)) = ok (inr (queue_refused category m))
after_queue v category request (err e) = err e

unfoldable pub as_action : Value ⊎ Fields → Option Value ⊎ Fields
as_action (inl row) = inl (some row)
as_action (inr answer) = inr answer

unfoldable pub queue_action :
    Host → Resolver → ℕ → Facts → Fields → Request → Exec Project (Option Value ⊎ Fields)
queue_action h v now f request r p =
    let (result, q) = enqueue h now r p in
    (after_queue v f.category request result >>= λ x. ok (as_action x), q)

-- The external action of a request, `none` where its category has none, or the reply.
unfoldable pub action_stage :
    Host → Resolver → ℕ → Facts → Fields → Fields → Exec Project (Option Value ⊎ Fields)
action_stage h v now f request card p =
    let r = action_request f request card in
    if not (is_forced f.category)
    then (ok (inl none), p)
    else if not (is_text r.owner)
    then (
      ok (
          inr (
            blocked (f.category <> "_owner_is_required")
              "bind_one_owner_and_bounded_scope_before_prompting" end)),
      p,
    )
    else queue_action h v now f request r p

-- The last replies: a human is asked, or only the work that depends on the answer waits.
unfoldable pub final_reply : Facts → Fields → Fields → Option Value → Fields
final_reply f request card (some row) =
    if truthy (get "unrelated_work_exists" request)
    then go_on (f.category <> "_blocks_only_dependent_work")
        "queue_action_required_and_continue_unrelated_work"
        (field "action_required" (obj card) (
          field "external_action_created" (bool true)
            (field "action_id" (row_get "action_id" row) end)))
    else reply "ACTION_REQUIRED" true "human_judgment_required_by_policy" (
        field "decision_package" (obj card) (
          field "external_action_created" (bool true)
            (field "action_id" (row_get "action_id" row) end)))
final_reply f request card none =
    if truthy (get "unrelated_work_exists" request)
    then go_on "human_decision_blocks_only_dependent_work"
        "surface_action_required_and_continue_unrelated_work"
        (field "action_required" (obj card) end)
    else reply "ACTION_REQUIRED" true "human_judgment_required_by_policy"
        (field "decision_package" (obj card) end)
