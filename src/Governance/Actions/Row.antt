-- ===== src/Governance/Actions/Row.antt =====
-- src/sddgov/governance.py: `_external_action_request_sha256` and `_validate_external_action_row`.
use agentic_sdd_governance.Base.{
  String, ◌<>◌, Bool, false, not, ◌&&◌, Option, none, some, List, [], ◌∷◌, any, ltb, Result, ok,
  err, value_error, type_error, ◌>>=◌, ◌>>◌, refuse, if◌then◌else◌,
}
use agentic_sdd_governance.Python.Text.{is_sha256}
use agentic_sdd_governance.Python.Value.{
  Value, str, arr, obj, Fields, end, field, get, has, has_all, keys_within, is_text, is_dict,
  is_null, eq_str, in_names,
}
use agentic_sdd_governance.Host.{Host, DateTime, replace_z}

abbrev pub base_fields : List String
base_fields =
    "action_class" ∷ "action_id" ∷ "authorization_scope" ∷ "created_at" ∷ "expires_at" ∷ "owner"
    ∷ "request_sha256" ∷ "risk_level" ∷ "scope" ∷ "status" ∷ "summary" ∷ []

abbrev pub resolution_fields : List String
resolution_fields =
    "resolution_envelope" ∷ "resolution_evidence_sha256" ∷ "resolution_receipt_sha256"
    ∷ "resolved_at" ∷ []

-- `_external_action_request_sha256`
unfoldable pub request_sha256 : Host → Value → Value → Value → Value → Value → Value → String
request_sha256 h action_id summary risk owner action_class scope = h.sha256_json (
    obj (
      field "action_id" action_id (
        field "summary" summary (
          field "risk_level" risk
            (field "owner" owner (field "action_class" action_class (field "scope" scope end)))))))

-- The first name, in their order, that is no key of the row.
unfoldable pub first_missing : List String → Fields → Option String
unfolding has
first_missing [] row = none
first_missing (n ∷ names) row = if has n row then first_missing names row else some n

check_present : Option String → Result (Unit {0})
check_present none = ok tt
check_present (some n) = err (value_error ("external action row " <> n <> " is required"))

unfoldable pub check_fields : Fields → Result (Unit {0})
unfolding check_present first_missing keys_within
check_fields row = do
  check_present (first_missing base_fields row)
  refuse
      (not (
        keys_within
          ("action_id" ∷ "summary" ∷ "risk_level" ∷ "owner" ∷ "action_class" ∷ "scope" ∷ "status"
            ∷ "created_at" ∷ "expires_at" ∷ "request_sha256" ∷ "authorization_scope"
            ∷ resolution_fields)
          row))
      "external action row has an invalid field contract"

unfoldable pub check_texts : List String → Fields → Result (Unit {0})
check_texts [] row = ok tt
check_texts (n ∷ names) row =
    refuse (not (is_text (get n row))) ("external action row " <> n <> " is required")
    >> check_texts names row

abbrev pub row_texts : List String
row_texts = "action_id" ∷ "summary" ∷ "owner" ∷ "scope" ∷ []

abbrev pub action_risks : List String
action_risks = "L1" ∷ "L2" ∷ "L3" ∷ []

abbrev pub action_classes : List String
action_classes = "operational_action" ∷ "necessary_uat" ∷ []

abbrev pub one_action : String
one_action = "one concrete action only"

-- `v in {"a", "b", …}`: a list or a dict is not hashable.
unfoldable pub member : Value → List String → Result Bool
member (arr vs) names = err type_error
member (obj d) names = err type_error
member v names = ok (in_names v names)

abbrev pub check_member : Value → List String → String → Result (Unit {0})
check_member v names message = member v names >>= λ found. refuse (not found) message

abbrev pub statuses : List String
statuses = "pending" ∷ "completed" ∷ "cancelled" ∷ "expired" ∷ []

unfoldable pub check_names : Fields → Result (Unit {0})
unfolding member
check_names row = do
  check_member (get "risk_level" row) action_risks "external action row risk_level is invalid"
  check_member (get "action_class" row) action_classes "external action row action_class is invalid"
  check_member (get "status" row) statuses "external action row status is invalid"
  refuse (not (eq_str (get "authorization_scope" row) one_action))
      "external action row authorization_scope is invalid"

-- `datetime.fromisoformat(str(v).replace("Z", "+00:00"))` where it succeeds. What `str` makes of a
-- value that is no text never reads as a time with a zone, so it ends in the same refusal.
unfoldable pub row_time : Host → Value → Option DateTime
row_time h (str s) = h.fromisoformat (replace_z s)
row_time h _ = none

-- Both times have a zone, and the first is before the second.
unfoldable pub is_lifetime : Option DateTime → Option DateTime → Bool
is_lifetime (some created) (some expiry) =
    created.aware && expiry.aware && ltb created.instant expiry.instant
is_lifetime _ _ = false

unfoldable pub check_times : Host → Fields → Result (Unit {0})
unfolding row_time is_lifetime
check_times h row =
    refuse
      (not (is_lifetime (row_time h (get "created_at" row)) (row_time h (get "expires_at" row))))
      "external action row timestamps are invalid"

unfoldable pub check_digest : Host → Fields → Result (Unit {0})
unfolding request_sha256
check_digest h row =
    refuse
      (not (
        eq_str (get "request_sha256" row) (
          request_sha256 h (get "action_id" row) (get "summary" row) (get "risk_level" row)
            (get "owner" row) (get "action_class" row) (get "scope" row))))
      "external action row request_sha256 is invalid"

-- A text of 64 hexadecimal digits.
unfoldable pub is_digest : Value → Bool
is_digest (str s) = is_sha256 s
is_digest _ = false

unfoldable pub check_terminal : Fields → Result (Unit {0})
unfolding is_digest has_all
check_terminal row = do
  refuse (not (has_all resolution_fields row))
      "terminal external action row requires resolution proof"
  refuse (not (is_text (get "resolved_at" row)))
      "terminal external action row resolved_at is invalid"
  refuse (not (is_digest (get "resolution_receipt_sha256" row)))
      "terminal external action row resolution_receipt_sha256 is invalid"
  refuse (not (is_digest (get "resolution_evidence_sha256" row)))
      "terminal external action row resolution_evidence_sha256 is invalid"
  refuse (not (is_dict (get "resolution_envelope" row)))
      "terminal external action row resolution_envelope is invalid"

unfoldable pub check_pending : Fields → Result (Unit {0})
check_pending row =
    refuse (any (λ n. not (is_null (get n row))) resolution_fields)
      "pending external action row cannot contain resolution proof"

unfoldable pub check_expired : Fields → Result (Unit {0})
check_expired row = do
  refuse (not (is_text (get "resolved_at" row)))
      "expired external action row resolved_at is invalid"
  refuse
      (any (λ n. not (is_null (get n row)))
        ("resolution_receipt_sha256" ∷ "resolution_evidence_sha256" ∷ "resolution_envelope" ∷ []))
      "expired external action row cannot contain signed resolution proof"

-- The three-way branch on the status.
unfoldable pub check_resolution : Fields → Result (Unit {0})
unfolding check_terminal check_pending check_expired
check_resolution row =
    if in_names (get "status" row) ("completed" ∷ "cancelled" ∷ [])
    then check_terminal row
    else if eq_str (get "status" row) "pending"
    then check_pending row
    else check_expired row

-- `_validate_external_action_row`: the risk level of a row that is valid.
unfoldable pub validate_row : Host → Value → Result Value
unfolding check_fields check_texts check_names check_times check_digest check_resolution
validate_row h (obj row) = do
  check_fields row
  check_texts row_texts row
  check_names row
  check_times h row
  check_digest h row
  check_resolution row
  ok (get "risk_level" row)
validate_row h _ = err (value_error "external action row has an invalid contract")
