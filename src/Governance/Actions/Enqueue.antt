-- ===== src/Governance/Actions/Enqueue.antt =====
-- src/sddgov/governance.py: `enqueue_external_action`, under its lock.
use agentic_sdd_governance.Base.{
  ℕ, ◌+◌, String, Bool, true, false, not, ◌&&◌, Option, none, some, List, [], ◌∷◌, ◌++◌, leb,
  Result, ok, err, value_error, Exec, after, ◌>>=◌, ◌>>◌, refuse, keep, if◌then◌else◌, ◌<>◌,
}
use agentic_sdd_governance.Python.Value.{
  Value, null, bool, str, obj, Fields, end, field, is_text, eq_str, in_names, ℤ,
}
use agentic_sdd_governance.Python.Access.{as_int, in_range, magnitude}
use agentic_sdd_governance.Host.{Host, DateTime}
use agentic_sdd_governance.Governance.Project.{Project, read, emit_event}
use agentic_sdd_governance.Governance.Claims.{minutes}
use agentic_sdd_governance.Governance.Actions.Row.{
  request_sha256, row_time, action_risks, action_classes, one_action,
}
use agentic_sdd_governance.Governance.Actions.Store.{
  Loaded, empty_store, load_store, validate_rows, row_get, named, change_row, set_field, with_rows,
}

-- The arguments; the caller passes what a request holds, of any type.
pub record Request : Type 0 where
  pub action_id : Value
  pub summary : Value
  pub risk : Value
  pub owner : Value
  pub scope : Value
  pub ttl_minutes : Value
  pub action_class : Value

-- `isinstance(ttl, int) and not isinstance(ttl, bool) and 1 <= ttl <= 10080`
is_ttl : Option ℤ → Bool
is_ttl none = false
is_ttl (some n) = in_range 1 10080 n

ttl_of : Option ℤ → ℕ
ttl_of none = 0
ttl_of (some n) = magnitude n

-- The guards on the arguments.
unfoldable pub check_request : Request → Result (Unit {0})
unfolding is_ttl
check_request r = do
  refuse (not (in_names r.risk action_risks && in_names r.action_class action_classes))
      "external action must be an explicitly classified Operational Action or Necessary UAT"
  refuse (not (is_text r.action_id && is_text r.summary && is_text r.owner && is_text r.scope))
      "external action requires action_id, summary, owner, and scope"
  refuse (not (is_ttl (as_int r.ttl_minutes)))
      "external action ttl_minutes must be between 1 and 10080"

-- The text of an argument that is known to be one.
abbrev pub text_of : Value → String
text_of (str s) = s
text_of _ = ""

abbrev pub digest_of : Host → Request → String
digest_of h r = request_sha256 h r.action_id r.summary r.risk r.owner r.action_class r.scope

unfoldable pub new_action : Host → ℕ → Request → Fields
unfolding ttl_of
new_action h now r = field "action_id" r.action_id (
    field "summary" r.summary (
      field "risk_level" r.risk (
        field "owner" r.owner (
          field "action_class" r.action_class (
            field "scope" r.scope (
              field "status" (str "pending") (
                field "created_at" (str (h.stamp now)) (
                  field "expires_at" (str (h.stamp (now + minutes (ttl_of (as_int r.ttl_minutes)))))
                    (field "request_sha256" (str (digest_of h r))
                      (field "authorization_scope" (str one_action) end))))))))))

-- The five assignments to a pending row whose time is over.
unfoldable pub expire : Host → ℕ → Value → Value
unfolding set_field
expire h now row = set_field "resolution_envelope" null (
    set_field "resolution_evidence_sha256" null (
      set_field "resolution_receipt_sha256" null
        (set_field "resolved_at" (str (h.stamp now)) (set_field "status" (str "expired") row))))

-- `{**row, "external_action_created": created}`
unfoldable pub reply : Bool → Value → Value
unfolding set_field
reply created row = set_field "external_action_created" (bool created) row

-- What the operation decides from what it read.
pub data Plan : Type 0 where
  -- the row is there, and is returned as it is
  known : Value → Plan
  -- the row is there, pending, and its time is over
  lapse : Value → Plan
  -- there is no row
  fresh : Plan

-- `expiry <= now()`, of a row that was validated: its time has a zone.
unfoldable pub expiry_plan : ℕ → Value → Option DateTime → Result Plan
expiry_plan now row none = err (value_error "external action expiry is invalid")
expiry_plan now row (some expiry) =
    if not expiry.aware
    then err (value_error "external action expiry is invalid")
    else if leb expiry.instant now
    then ok (lapse row)
    else ok (known row)

unfoldable pub plan_row : Host → ℕ → Request → List Value → Result Plan
unfolding expiry_plan
plan_row h now r [] = ok fresh
plan_row h now r (row ∷ []) = do
  refuse (not (eq_str (row_get "request_sha256" row) (digest_of h r)))
      ("external action identity changed: " <> text_of r.action_id)
  refuse
      (not
        (in_names (row_get "status" row) ("pending" ∷ "completed" ∷ "cancelled" ∷ "expired" ∷ [])))
      ("external action status is invalid: " <> text_of r.action_id)
  if eq_str (row_get "status" row) "pending"
      then expiry_plan now row (row_time h (row_get "expires_at" row))
      else ok (known row)
plan_row h now r (row ∷ row' ∷ rows) =
    err (value_error ("duplicate external action state: " <> text_of r.action_id))

-- Everything before the first write.
unfoldable pub plan_enqueue : Host → ℕ → Request → Value → Result (Plan × Loaded)
unfolding check_request plan_row
plan_enqueue h now r content = do
  check_request r
  store ← load_store content
  risks ← validate_rows h store.1
  plan ← plan_row h now r (keep (named (text_of r.action_id)) store.1)
  ok (plan, store)

abbrev pub store_content : Project → Value
store_content p = read p.actions (obj (empty_store "1.1"))

abbrev pub id_payload : Value → Value
id_payload action_id = obj (field "action_id" action_id end)

-- The writes, the event, and the reply.
unfoldable pub commit_enqueue : Host → ℕ → Request → Plan × Loaded → Exec Project Value
commit_enqueue h now r (known row, store) p = (ok (reply false row), p)
commit_enqueue h now r (lapse row, (file, rows)) p =
    let rows' = change_row (text_of r.action_id) (expire h now) rows in
    after
      (emit_event h now "external_action_expired" (text_of (row_get "risk_level" row))
        (id_payload r.action_id) (record p { actions = some (with_rows file rows') }))
      (λ _ q. (ok (reply false (expire h now row)), q))
commit_enqueue h now r (fresh, (file, rows)) p =
    let item = obj (new_action h now r) in
    after
      (emit_event h now "external_action_queued" (text_of r.risk) (id_payload r.action_id)
        (record p { actions = some (with_rows file (rows ++ (item ∷ []))) }))
      (λ _ q. (ok (reply true item), q))

-- `enqueue_external_action`
unfoldable pub enqueue : Host → ℕ → Request → Exec Project Value
unfolding plan_enqueue commit_enqueue
enqueue h now r p = after (plan_enqueue h now r (store_content p), p) (commit_enqueue h now r)
