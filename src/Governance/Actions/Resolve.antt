-- ===== src/Governance/Actions/Resolve.antt =====
-- src/sddgov/governance.py: `resolve_external_action`, under its lock.
use agentic_sdd_governance.Base.{
  ℕ, String, ◌<>◌, Bool, true, false, not, ◌&&◌, ◌||◌, Option, some, List, [], ◌∷◌, ltb, Result, ok,
  err, value_error, Exec, after, ◌>>=◌, ◌>>◌, refuse, keep, if◌then◌else◌, ◌==◌,
}
use agentic_sdd_governance.Python.Text.{is_sha256, is_blank}
use agentic_sdd_governance.Python.Value.{Value, bool, str, obj, Fields, end, field, eq_str}
use agentic_sdd_governance.Host.{Host, DateTime}
use agentic_sdd_governance.Governance.Project.{Project, emit_event}
use agentic_sdd_governance.Governance.Actions.Row.{row_time}
use agentic_sdd_governance.Governance.Actions.Store.{
  Loaded, load_store, validate_rows, row_get, named, change_row, set_field, with_rows,
}
use agentic_sdd_governance.Governance.Actions.Enqueue.{store_content, text_of}

-- The keyword arguments. The caller passes them from a verified receipt, so they are texts and a
-- dict, as their annotations say.
pub record Resolution : Type 0 where
  pub action_id : String
  pub action_class : String
  pub owner : String
  pub scope : String
  pub request_sha256 : String
  pub status : String
  pub resolved_at : String
  pub receipt_sha256 : String
  pub evidence_sha256 : String
  pub envelope : Fields

check_texts : List (String × String) → Result (Unit {0})
check_texts [] = ok tt
check_texts ((label, value) ∷ rest) =
    refuse (is_blank value) ("external action resolution " <> label <> " is required")
    >> check_texts rest

check_digests : List (String × String) → Result (Unit {0})
check_digests [] = ok tt
check_digests ((label, digest) ∷ rest) =
    refuse (not (is_sha256 digest)) ("external action resolution " <> label <> " is invalid")
    >> check_digests rest

-- The guards on the arguments.
unfoldable pub check_resolution_arguments : Resolution → Result (Unit {0})
unfolding check_texts check_digests
check_resolution_arguments r = do
  refuse (not (r.status == "completed" || r.status == "cancelled"))
      "external action resolution status must be completed or cancelled"
  check_texts (
      ("action_id", r.action_id)
      ∷ ("action_class", r.action_class)
      ∷ ("owner", r.owner)
      ∷ ("scope", r.scope)
      ∷ ("resolved_at", r.resolved_at)
      ∷ [])
  check_digests (
      ("request_sha256", r.request_sha256)
      ∷ ("resolution_receipt_sha256", r.receipt_sha256)
      ∷ ("resolution_evidence_sha256", r.evidence_sha256)
      ∷ [])

-- The row is the action that the receipt names.
unfoldable pub is_same_action : Resolution → Value → Bool
is_same_action r row =
    eq_str (row_get "action_class" row) r.action_class
    && eq_str (row_get "owner" row) r.owner
    && eq_str (row_get "scope" row) r.scope
    && eq_str (row_get "request_sha256" row) r.request_sha256

-- The three times have zones, and the resolution lies in the lifetime of the action.
unfoldable pub check_lifetime :
    Option DateTime → Option DateTime → Option DateTime → Result (Unit {0})
check_lifetime (some created) (some expiry) (some resolved) = do
  refuse (not (expiry.aware && resolved.aware && created.aware))
      "external action resolution timestamp requires a timezone"
  refuse (ltb resolved.instant created.instant || ltb expiry.instant resolved.instant)
      "external action resolution is outside the action lifetime"
check_lifetime _ _ _ = err (value_error "external action resolution timestamp is invalid")

-- `row.update(…)`
unfoldable pub settle : Resolution → Value → Value
unfolding set_field
settle r row = set_field "resolution_envelope" (obj r.envelope) (
    set_field "resolution_evidence_sha256" (str r.evidence_sha256) (
      set_field "resolution_receipt_sha256" (str r.receipt_sha256)
        (set_field "resolved_at" (str r.resolved_at) (set_field "status" (str r.status) row))))

-- `{**row, "state_changed": changed}`
unfoldable pub outcome : Bool → Value → Value
unfolding set_field
outcome changed row = set_field "state_changed" (bool changed) row

pub data Verdict : Type 0 where
  -- this receipt has been applied before
  repeated : Value → Verdict
  -- the pending row is to be settled
  apply : Value → Verdict

unfoldable pub plan_match : Host → Resolution → List Value → Result Verdict
unfolding is_same_action check_lifetime
plan_match h r (row ∷ []) = do
  refuse (not (is_same_action r row))
      "external action resolution identity does not match pending action"
  if eq_str (row_get "status" row) r.status
      then (do
        refuse (not (eq_str (row_get "resolution_receipt_sha256" row) r.receipt_sha256))
            "external action was resolved by a different receipt"
        ok (repeated row))
      else (do
        refuse (not (eq_str (row_get "status" row) "pending")) "external action is not pending"
        check_lifetime (row_time h (row_get "created_at" row))
            (row_time h (row_get "expires_at" row)) (row_time h (str r.resolved_at))
        ok (apply row))
plan_match h r _ = err (value_error "external action resolution requires one exact action")

unfoldable pub plan_resolve : Host → Resolution → Value → Result (Verdict × Loaded)
unfolding check_resolution_arguments plan_match
plan_resolve h r content = do
  check_resolution_arguments r
  store ← load_store content
  risks ← validate_rows h store.1
  verdict ← plan_match h r (keep (named r.action_id) store.1)
  ok (verdict, store)

unfoldable pub commit_resolve : Host → ℕ → Resolution → Verdict × Loaded → Exec Project Value
commit_resolve h now r (repeated row, store) p = (ok (outcome false row), p)
commit_resolve h now r (apply row, (file, rows)) p =
    after
      (emit_event h now ("external_action_" <> r.status) (text_of (row_get "risk_level" row))
        (obj (field "action_id" (str r.action_id) (field "action_class" (str r.action_class) end)))
        (record p { actions = some (with_rows file (change_row r.action_id (settle r) rows)) }))
      (λ _ q. (ok (outcome true (settle r row)), q))

-- `resolve_external_action`
unfoldable pub resolve : Host → ℕ → Resolution → Exec Project Value
unfolding plan_resolve commit_resolve
resolve h now r p = after (plan_resolve h r (store_content p), p) (commit_resolve h now r)
