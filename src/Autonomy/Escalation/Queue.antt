-- ===== src/Autonomy/Escalation/Queue.antt =====
-- src/sddgov/autonomy.py: what is said of the external action of a request.
use text.Mathlib.Text.{starts_with}
use agentic_sdd_governance.Base.{
  ◌>>=◌, String, ◌<>◌, Bool, true, false, not, Option, none, [], ◌∷◌, Result, ok, err, value_error,
  os_error, type_error, key_error, attribute_error, file_not_found, ◌⊎◌, inl, inr, if-keeps,
  Ensures, Ensures-bind, Ensures-eq-ok,
}
use agentic_sdd_governance.Python.Value.{
  Value, str, Fields, field, end, get, is_text, truthy, is_true, in_names, eq_str,
}
use agentic_sdd_governance.Governance.Project.{Project}
use agentic_sdd_governance.Governance.Actions.Enqueue.{Request, enqueue}
use agentic_sdd_governance.Governance.Actions.Store.{row_get}
use agentic_sdd_governance.Autonomy.Reply.{go_on, blocked}
use agentic_sdd_governance.Autonomy.Escalation.Boundary.{is_forced, Facts}
use agentic_sdd_governance.Autonomy.Escalation.Action.{
  action_stage, pending_reply, queued, after_queue, is_proof, untrusted, action_request, Resolver,
  queue_refused, existing_reply, settled_reply, verified_reply, as_action, queue_action,
  new_request, action_fields,
}
use agentic_sdd_governance.Autonomy.Escalation.Evaluate.{World}
use agentic_sdd_governance.Autonomy.Escalation.Quiet.{IsQuiet, blocked-IsQuiet, go_on-IsQuiet}

verified_reply-IsQuiet :
    (category : String) (row : Value) (r : Result (Fields × String))
    → Ensures IsQuiet (verified_reply category row r)
unfolding verified_reply untrusted
verified_reply-IsQuiet category row (ok (receipt, digest)) =
    if-keeps IsQuiet (not (is_proof receipt digest row)) (untrusted category) _
      (λ _. blocked-IsQuiet _ _ _)
      (λ _.
        if-keeps IsQuiet (eq_str (row_get "status" row) "completed")
          (go_on (category <> "_already_completed") "continue" end)
          (blocked (category <> "_cancelled") new_request (action_fields row end))
          (λ _. go_on-IsQuiet _ _ _) (λ _. blocked-IsQuiet _ _ _))
verified_reply-IsQuiet category row (err (value_error m)) = blocked-IsQuiet _ _ _
verified_reply-IsQuiet category row (err (os_error m)) = tt
verified_reply-IsQuiet category row (err type_error) = tt
verified_reply-IsQuiet category row (err key_error) = tt
verified_reply-IsQuiet category row (err attribute_error) = tt
verified_reply-IsQuiet category row (err file_not_found) = tt

settled_reply-IsQuiet :
    (v : Resolver) (category : String) (row : Value)
    → Ensures IsQuiet (settled_reply v category row)
unfolding settled_reply
settled_reply-IsQuiet v category row = verified_reply-IsQuiet category row _

pending_reply-IsQuiet :
    (b : Bool) (category : String) (row : Value) → IsQuiet (pending_reply b category row)
unfolding pending_reply
pending_reply-IsQuiet true category row = go_on-IsQuiet _ _ _
pending_reply-IsQuiet false category row = blocked-IsQuiet _ _ _

existing_reply-IsQuiet :
    (v : Resolver) (category : String) (request : Fields) (row : Value)
    → Ensures IsQuiet (existing_reply v category request row)
unfolding existing_reply
existing_reply-IsQuiet v category request row =
    if-keeps (Ensures IsQuiet) (in_names (row_get "status" row) ("completed" ∷ "cancelled" ∷ []))
      (settled_reply v category row) _ (λ _. settled_reply-IsQuiet v category row)
      (λ _.
        if-keeps (Ensures IsQuiet) (eq_str (row_get "status" row) "expired")
          (ok (blocked (category <> "_expired") new_request (action_fields row end)))
          (ok (pending_reply (truthy (get "unrelated_work_exists" request)) category row))
          (λ _. blocked-IsQuiet _ _ _)
          (λ _. pending_reply-IsQuiet (truthy (get "unrelated_work_exists" request)) category row))

-- What the queue says is quiet, or a row that was made.
abbrev pub IsQueued : {A : Type 0} → A ⊎ Fields → Type 0
IsQueued (inl row) = Unit
IsQueued (inr answer) = IsQuiet answer

queued-IsQueued :
    (v : Resolver) (category : String) (request : Fields) (row : Value)
    → Ensures IsQueued (queued v category request row)
unfolding queued
queued-IsQueued v category request row =
    if-keeps (Ensures IsQueued) (is_true (row_get "external_action_created" row)) (ok (inl row))
      (existing_reply v category request row >>= λ r. ok (inr r)) (λ _. tt)
      (λ _.
        Ensures-bind IsQueued (existing_reply v category request row) (λ r. ok (inr r))
          (λ r e.
            Ensures-eq-ok IsQuiet (existing_reply v category request row)
              (existing_reply-IsQuiet v category request row) e))

queue_refused-IsQuiet : (category m : String) → IsQuiet (queue_refused category m)
unfolding queue_refused
queue_refused-IsQuiet category m =
    if-keeps IsQuiet (starts_with m "terminal external action row")
      (blocked (category <> "_resolution_is_untrusted")
        "import_one_exact_owner_signed_resolution_receipt" (field "detail" (str m) end))
      _ (λ _. blocked-IsQuiet _ _ _) (λ _. blocked-IsQuiet _ _ _)

after_queue-IsQueued :
    (v : Resolver) (category : String) (request : Fields) (r : Result Value)
    → Ensures IsQueued (after_queue v category request r)
unfolding after_queue
after_queue-IsQueued v category request (ok row) = queued-IsQueued v category request row
after_queue-IsQueued v category request (err (value_error m)) = queue_refused-IsQuiet category m
after_queue-IsQueued v category request (err (os_error m)) = tt
after_queue-IsQueued v category request (err type_error) = tt
after_queue-IsQueued v category request (err key_error) = tt
after_queue-IsQueued v category request (err attribute_error) = tt
after_queue-IsQueued v category request (err file_not_found) = tt

as_action-IsQueued : (x : Value ⊎ Fields) → IsQueued x → IsQueued (as_action x)
unfolding as_action
as_action-IsQueued (inl row) h = tt
as_action-IsQueued (inr answer) h = h

module _ (w : World) (f : Facts) (request : Fields) where
  queue_action-IsQueued :
      (r : Request) (p : Project)
      → Ensures IsQueued (queue_action w.host w.resolver w.now f request r p).0
  unfolding queue_action
  queue_action-IsQueued r p =
      let result = (enqueue w.host w.now r p).0 in
      Ensures-bind IsQueued (after_queue w.resolver f.category request result)
        (λ x. ok (as_action x))
        (λ x e. as_action-IsQueued x (
          Ensures-eq-ok IsQueued (after_queue w.resolver f.category request result)
            (after_queue-IsQueued w.resolver f.category request result) e))

  pub action_stage-IsQueued :
      (card : Fields) (p : Project)
      → Ensures IsQueued (action_stage w.host w.resolver w.now f request card p).0
  unfolding action_stage
  action_stage-IsQueued card p =
      let r = action_request f request card in
      let Q = λ (x : Result (Option Value ⊎ Fields) × Project). Ensures IsQueued x.0 in
      if-keeps Q (not (is_forced f.category)) (ok (inl none), p) _ (λ _. tt)
        (λ _.
          if-keeps Q (not (is_text r.owner)) _ (queue_action w.host w.resolver w.now f request r p)
            (λ _. blocked-IsQuiet _ _ _) (λ _. queue_action-IsQueued r p))
