-- ===== src/Autonomy/Decisions.antt =====
-- src/sddgov/autonomy.py: the decision store, its lookup, the profile, and the approvals of a
-- product decision.
use agentic_sdd_governance.Base.{
  String, Bool, false, not, ◌&&◌, ◌||◌, Option, none, some, List, [], ◌∷◌, all, Result, ok, err,
  value_error, os_error, attribute_error, ◌>>=◌, ◌>>◌, refuse, if◌then◌else◌, ◌==◌,
}
use agentic_sdd_governance.Python.Text.{is_sha256}
use agentic_sdd_governance.Python.Value.{
  Value, null, str, arr, obj, nil, Fields, field, end, get, has_exactly, is_text, eq_str, truthy,
}
use agentic_sdd_governance.Python.Equality.{py_eq}
use agentic_sdd_governance.Host.{Host, DateTime}
use agentic_sdd_governance.Governance.Project.{Project, read}
use agentic_sdd_governance.Governance.Actions.Row.{member, check_member, row_time}
use agentic_sdd_governance.Governance.Actions.Store.{row_get, as_rows}
use agentic_sdd_governance.Autonomy.Package.{strip}

abbrev pub empty_decisions : Fields
empty_decisions = field "schema_version" (str "1.0") (field "decisions" (arr nil) end)

-- A row of the store is a dict with an id.
abbrev pub is_decision : Value → Bool
is_decision (obj row) = is_text (get "decision_id" row)
is_decision _ = false

unfoldable pub check_rows : Fields → Option (List Value) → Result (Fields × List Value)
check_rows file (some rows) =
    refuse (not (all is_decision rows)) ".sddgov/decisions.json has an invalid contract"
    >> ok (file, rows)
check_rows file none = err (value_error ".sddgov/decisions.json has an invalid contract")

unfoldable pub load_decisions : Value → Result (Fields × List Value)
unfolding check_rows
load_decisions (obj file) =
    refuse
      (not (eq_str (get "schema_version" file) "1.0")
        || not (has_exactly ("schema_version" ∷ "decisions" ∷ []) file))
      ".sddgov/decisions.json has an invalid contract"
    >> check_rows file (as_rows (get "decisions" file))
load_decisions _ = err (value_error ".sddgov/decisions.json has an invalid contract")

-- `_decision_store`: the dict, and its rows.
unfoldable pub decision_store : Project → Result (Fields × List Value)
unfolding load_decisions
decision_store p = load_decisions (read p.decisions (obj empty_decisions))

-- `next((row for row in rows if row["decision_id"] == decision_id), None)`
unfoldable pub find_row : Value → List Value → Option Value
find_row decision_id [] = none
find_row decision_id (row ∷ rows) =
    if py_eq (row_get "decision_id" row) decision_id then some row else find_row decision_id rows

-- `_find_decision`
unfoldable pub find_decision : Project → Value → Result (Option Value)
unfolding find_row
find_decision p decision_id =
    if truthy decision_id
    then (decision_store p >>= λ store. ok (find_row decision_id store.1))
    else ok none

abbrev profiles : List String
profiles = "solo-fast" ∷ "team-standard" ∷ "regulated" ∷ []

profile_of : Option Value → Result Value
profile_of (some (obj d)) =
    check_member (get "profile" d) profiles ".sddgov/project.json has an invalid profile"
    >> ok (get "profile" d)
profile_of _ = err (value_error ".sddgov/project.json has an invalid profile")

-- `_project_profile`
unfoldable pub project_profile : Project → Result Value
unfolding profile_of member
project_profile p = profile_of p.project

-- What the approval of a product decision takes from the repository and from the keys: the digest
-- of the request that the choice was made from, bound to the arguments, and the receipt of a
-- signed envelope with its digest.
pub record Evidence : Type 0 where
  pub bind_request : String → Value → Value → String → Value → Result String
  pub verify_product : Value → Result (Fields × String)

-- `except ValueError: return False`
unfoldable pub or_false : Result Bool → Result Bool
or_false (ok b) = ok b
or_false (err (value_error m)) = ok false
or_false (err e) = err e

-- `except (AttributeError, OSError, ValueError): return False`
unfoldable pub or_false_any : Result Bool → Result Bool
or_false_any (ok b) = ok b
or_false_any (err (value_error m)) = ok false
or_false_any (err (os_error m)) = ok false
or_false_any (err attribute_error) = ok false
or_false_any (err e) = err e

is_aware : Option DateTime → Bool
is_aware none = false
is_aware (some t) = t.aware

-- The text after `prefix`, where it begins so.
remove_prefix : String → String → Option String
remove_prefix String.[] s = some s
remove_prefix (String.◌∷◌ c t) String.[] = none
remove_prefix (String.◌∷◌ c t) (String.◌∷◌ d s) =
    if String.◌∷◌ c String.[] == String.◌∷◌ d String.[] then remove_prefix t s else none

selected_label : Value → Option String
unfolding remove_prefix
selected_label (str basis) = elim (remove_prefix "owner_explicit_choice:" basis) [
  | none ↦ none
  | some s ↦ some (strip s)
]
selected_label _ = none

-- The fixed fields of a choice that the owner made in plain language.
unfoldable pub is_plain_choice : Fields → Value → Bool
is_plain_choice decision scope =
    has_exactly
      ("decision_id" ∷ "risk_level" ∷ "summary" ∷ "scope" ∷ "basis" ∷ "status" ∷ "recorded_at"
        ∷ "reopen_condition" ∷ "approval_mode" ∷ "profile" ∷ "approved_by" ∷ "request_path"
        ∷ "request_sha256" ∷ [])
      decision
    && eq_str (get "risk_level" decision) "L2"
    && eq_str (get "status" decision) "approved"
    && eq_str (get "approval_mode" decision) "plain_language_owner_choice"
    && eq_str (get "profile" decision) "team-standard"
    && eq_str (get "approved_by" decision) "project_owner"
    && eq_str (get "reopen_condition" decision) "scope_or_assumptions_change"
    && is_text scope
    && py_eq (get "scope" decision) scope

module _ (h : Host) (e : Evidence) where
  -- The digest of the request as it is now is the recorded one.
  binding_matches : Fields → String → Value → Value → Value → Result Bool
  binding_matches decision label (str path) (str digest) card =
      if is_sha256 digest
      then or_false_any (
          e.bind_request path (get "decision_id" decision) (get "scope" decision) label card
          >>= λ current. ok (current == digest))
      else ok false
  binding_matches decision label _ _ card = ok false

  choice_matches : Fields → Value → Option String → Result Bool
  unfolding binding_matches
  choice_matches decision card none = ok false
  choice_matches decision card (some label) =
      if label == ""
      then ok false
      else binding_matches decision label (get "request_path" decision)
          (get "request_sha256" decision) card

  -- `_plain_l2_approval_matches`
  unfoldable pub plain_l2_matches : Project → Fields → Value → Value → Result Bool
  unfolding is_plain_choice choice_matches is_aware selected_label
  plain_l2_matches p decision scope card =
      if is_plain_choice decision scope
      then (do
        standard ← or_false (project_profile p >>= λ v. ok (eq_str v "team-standard"))
        if standard && is_aware (row_time h (get "recorded_at" decision))
            then choice_matches decision card (selected_label (get "basis" decision))
            else ok false)
      else ok false

  -- `decision.get(f) == receipt[g]`
  abbrev agrees : Fields → Fields → String × String → Bool
  agrees decision receipt (f, g) = py_eq (get f decision) (get g receipt)

  abbrev product_fields : List (String × String)
  product_fields =
      ("decision_id", "decision_id")
      ∷ ("summary", "summary")
      ∷ ("scope", "scope")
      ∷ ("reopen_condition", "reopen_condition")
      ∷ ("assumptions_sha256", "assumptions_sha256")
      ∷ ("assumptions", "assumptions")
      ∷ ("approved_by", "approved_by")
      ∷ ("expires_at", "expires_at")
      ∷ ("approval_nonce", "nonce")
      ∷ []

  -- `_l2_approval_matches_verified`
  unfoldable pub l2_matches_verified : Fields → Value → Fields → String → Bool
  l2_matches_verified decision scope receipt receipt_sha256 =
      eq_str (get "risk_level" decision) "L2"
      && eq_str (get "status" decision) "approved"
      && is_text scope
      && all (agrees decision receipt) product_fields
      && eq_str (get "receipt_sha256" decision) receipt_sha256
      && eq_str (get "signature_algorithm" decision) "ed25519"
      && py_eq (get "scope" receipt) scope

  -- `_l2_approval_matches`
  unfoldable pub l2_matches : Project → Fields → Value → Result Bool
  unfolding l2_matches_verified plain_l2_matches
  l2_matches p decision scope =
      if eq_str (get "approval_mode" decision) "plain_language_owner_choice"
      then plain_l2_matches p decision scope null
      else or_false (
          e.verify_product (get "approval_envelope" decision) >>= λ verified.
          ok (l2_matches_verified decision scope verified.0 verified.1))
