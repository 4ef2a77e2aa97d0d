-- ===== src/Autonomy/Package.antt =====
-- src/sddgov/autonomy.py: `build_action_required` and `_action_required_binding_error`.
use agentic_sdd_governance.Base.{
  String, ◌<>◌, Bool, true, false, not, ◌&&◌, ◌||◌, Option, none, some, List, [], ◌∷◌, any, all,
  keep, length, ltb, Result, ok, err, value_error, type_error, attribute_error, ◌>>=◌, ◌>>◌, refuse,
  if◌then◌else◌, ◌==◌,
}
use agentic_sdd_governance.Python.Text.{is_blank}
use agentic_sdd_governance.Python.Value.{
  Value, null, str, arr, obj, Fields, field, end, get, has_all, has_exactly, keys_within, is_text,
  is_str, is_null, eq_str, in_names, to_list, of_list, truthy,
}
use agentic_sdd_governance.Python.Equality.{py_eq}
use agentic_sdd_governance.Python.Access.{iterate}
use agentic_sdd_governance.Host.{Host}
use agentic_sdd_governance.Governance.Actions.Row.{member}
use agentic_sdd_governance.Autonomy.Payload.{validate_payload}
use agentic_sdd_governance.Autonomy.Vocabulary.{action_required_fields, operation_categories}

-- `v.strip()` is empty; a value that is no text has no such method.
unfoldable pub blank : Value → Result Bool
blank (str s) = ok (is_blank s)
blank _ = err attribute_error

strip_left : String → String
strip_left String.[] = ""
strip_left (String.◌∷◌ c s) =
    if is_blank (String.◌∷◌ c String.[]) then strip_left s else String.◌∷◌ c s

strip_right : String → String
strip_right String.[] = ""
strip_right (String.◌∷◌ c s) =
    let rest = strip_right s in if is_blank (String.◌∷◌ c s) then "" else String.◌∷◌ c rest

-- `s.strip()`
unfoldable pub strip : String → String
unfolding strip_left strip_right is_blank
strip s = strip_right (strip_left s)

-- `[item.strip() for item in items if item.strip()]`
unfoldable pub strip_items : List Value → Result (List Value)
strip_items [] = ok []
strip_items (str s ∷ items) = do
  rest ← strip_items items
  ok (if is_blank s then rest else str (strip s) ∷ rest)
strip_items (_ ∷ items) = err attribute_error

abbrev option_keys : List String
option_keys = "label" ∷ "description" ∷ []

is_hashable : Value → Bool
is_hashable (arr vs) = false
is_hashable (obj d) = false
is_hashable _ = true

-- `set(option) != {"label", "description"}`, and the label of an option that passes. A text never
-- has these two as its characters; a list may have them as its elements, and has no labels.
unfoldable pub option_label : Value → Result Value
unfolding blank is_hashable
option_label (obj option) = do
  refuse (not (has_exactly option_keys option))
      "each option must contain only label and description"
  no_label ← blank (get "label" option)
  no_description ← (if no_label then ok true else blank (get "description" option))
  refuse no_description "ACTION REQUIRED options must not be blank"
  ok (get "label" option)
option_label (str s) = err (value_error "each option must contain only label and description")
option_label (arr vs) =
    if not (all is_hashable (to_list vs))
    then err type_error
    else if all (λ v. in_names v option_keys) (to_list vs)
        && all (λ k. any (λ v. eq_str v k) (to_list vs)) option_keys
    then err type_error
    else err (value_error "each option must contain only label and description")
option_label _ = err type_error

unfoldable pub option_labels : List Value → Result (List Value)
unfolding option_label
option_labels [] = ok []
option_labels (option ∷ options) = do
  label ← option_label option
  labels ← option_labels options
  ok (label ∷ labels)

-- `not package.get(f) or isinstance(package[f], str) and not package[f].strip()`
unfoldable pub is_missing : Fields → String → Bool
is_missing card f = not (truthy (get f card)) || (is_str (get f card) && not (is_text (get f card)))

-- The payload is there exactly for an L3 package.
unfoldable pub check_payload : Host → Value → Value → Result (Unit {0})
check_payload h risk payload =
    if eq_str risk "L3"
    then (validate_payload h payload >>= λ digest. ok tt)
    else refuse (not (is_null payload)) "only an L3 ACTION REQUIRED may contain operation_payload"

-- `package["operation_payload"] = payload` unless it is `None`
unfoldable pub payload_entry : Value → Fields
payload_entry null = end
payload_entry v = field "operation_payload" v end

abbrev pub package_of : Fields → List Value → List Value → Fields
package_of a verified choices = field "heading" (str "ACTION REQUIRED") (
    field "decision_id" (get "decision_id" a) (
      field "risk_level" (get "risk_level" a) (
        field "why_human_input_is_required" (get "why_human_input_is_required" a) (
          field "what_agent_already_verified" (arr (of_list verified)) (
            field "options" (arr (of_list choices)) (
              field "recommended" (get "recommended" a) (
                field "why" (get "why" a) (
                  field "impact_if_no_decision" (get "impact_if_no_decision" a) (
                    field "scope_of_approval" (get "scope_of_approval" a)
                      (payload_entry (get "operation_payload" a)))))))))))

join : List String → String
join [] = ""
join (n ∷ []) = n
join (n ∷ m ∷ names) = n <> ", " <> join (m ∷ names)

is_empty {ℓ} : {A : Type ℓ} → List A → Bool
is_empty [] = true
is_empty (x ∷ xs) = false

-- The keyword arguments of the call: no other name, and none left out.
check_keywords : Fields → Result (Unit {0})
check_keywords a =
    if keys_within ("operation_payload" ∷ action_required_fields) a
      && has_all action_required_fields a
    then ok tt
    else err type_error

check_bounds : Fields → List Value → List Value → Result (Unit {0})
unfolding is_empty
check_bounds a verified choices = do
  no_id ← blank (get "decision_id" a)
  no_reason ← (if no_id then ok true else blank (get "why_human_input_is_required" a))
  refuse no_reason "ACTION REQUIRED needs a decision ID and bounded reason"
  refuse (is_empty verified) "ACTION REQUIRED must list what the Agent already verified"
  refuse (ltb (length choices) 2) "ACTION REQUIRED must provide at least two options"

-- `build_action_required(**a)`
unfoldable pub build_action_required : Host → Fields → Result Fields
unfolding check_keywords check_bounds strip_items option_labels join is_empty
build_action_required h a = do
  check_keywords a
  known ← member (get "risk_level" a) ("L2" ∷ "L3" ∷ "Operational" ∷ "UAT" ∷ [])
  refuse (not known) "ACTION REQUIRED risk must be L2, L3, Operational, or UAT"
  items ← iterate (get "what_agent_already_verified" a)
  verified ← strip_items items
  choices ← iterate (get "options" a)
  check_bounds a verified choices
  labels ← option_labels choices
  refuse (not (any (py_eq (get "recommended" a)) labels))
      "recommended must name one provided option"
  check_payload h (get "risk_level" a) (get "operation_payload" a)
  let card = package_of a verified choices
  let missing = keep (is_missing card) action_required_fields
  refuse (not (is_empty missing)) ("ACTION REQUIRED missing fields: " <> join missing)
  ok card

-- The end of `_action_required_binding_error`.
unfoldable pub binding_error_of : Fields → Value → Value → Value → Option String
binding_error_of card expected_risk identity scope =
    if not (py_eq (get "risk_level" card) expected_risk)
    then some "action_required_risk_does_not_match_request"
    else if not (is_text identity)
    then some "action_required_outer_identity_is_required"
    else if not (py_eq (get "decision_id" card) identity)
    then some "action_required_identity_does_not_match_request"
    else if not (is_text scope)
    then some "action_required_outer_scope_is_required"
    else if not (py_eq (get "scope_of_approval" card) scope)
    then some "action_required_scope_does_not_match_request"
    else none

-- `_validate_operation_payload(payload)` under `except ValueError`: whether it refused.
unfoldable pub payload_refused : Result String → Result Bool
payload_refused (ok digest) = ok false
payload_refused (err (value_error m)) = ok true
payload_refused (err e) = err e

-- The branch of a high-risk category, from the payload on.
unfoldable pub operation_binding_error : Host → Fields → Fields → Value → Result (Option String)
unfolding binding_error_of payload_refused
operation_binding_error h request card (obj payload) =
    payload_refused (validate_payload h (obj payload)) >>= λ refused.
    if refused
    then ok (some "l3_prompt_requires_exact_operation_payload")
    else if not (py_eq (get "category" payload) (get "category" request))
        || not (py_eq (get "effects" payload) (get "effects" request))
    then ok (some "l3_prompt_payload_does_not_match_request")
    else if not (py_eq (get "operation_payload" card) (obj payload))
    then ok (some "l3_prompt_package_payload_does_not_match_request")
    else if not (is_text (get "operation_id" request))
    then ok (some "l3_prompt_requires_operation_id")
    else ok (binding_error_of card (str "L3") (get "approval_id" request) (get "scope" payload))
operation_binding_error h request card _ = ok (some "l3_prompt_requires_exact_operation_payload")

-- `_action_required_binding_error`
unfoldable pub binding_error : Host → String → Fields → Fields → Result (Option String)
unfolding operation_binding_error
binding_error h category request card =
    if category == "product_decision"
    then ok (
        binding_error_of card (str "L2") (get "decision_id" request) (get "decision_scope" request))
    else if any (λ n. category == n) operation_categories
    then (if not (eq_str (get "risk_level" card) "L3")
        then ok (some "action_required_risk_does_not_match_request")
        else operation_binding_error h request card (get "operation_payload" request))
    else if category == "operational_action"
    then ok (
        binding_error_of card (str "Operational") (get "action_id" request)
          (get "action_scope" request))
    else if category == "necessary_uat"
    then ok (binding_error_of card (str "UAT") (get "uat_id" request) (get "uat_scope" request))
    else ok (
        binding_error_of card (get "risk_level" request) (get "decision_id" card)
          (get "scope_of_approval" card))
