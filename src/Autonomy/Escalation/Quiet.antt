-- ===== src/Autonomy/Escalation/Quiet.antt =====
-- src/sddgov/autonomy.py: the replies that ask nobody.
use agentic_sdd_governance.Base.{
  ◌≡◌, refl, String, Bool, true, false, not, ◌&&◌, ◌||◌, Option, none, some, List, any, Result, ok,
  err, value_error, os_error, type_error, key_error, attribute_error, file_not_found, ◌⊎◌, inl, inr,
  ◌==◌, if◌then◌else◌, after, Every, first-Every, if-keeps, Ensures, Ensures-bind, Ensures-after,
  Ensures-eq-ok,
}
use agentic_sdd_governance.Python.Value.{Value, bool, str, obj, Fields, get, lookup, truthy, eq_str}
use agentic_sdd_governance.Governance.Project.{Project}
use agentic_sdd_governance.Python.Equality.{py_eq}
use agentic_sdd_governance.Governance.Actions.Store.{row_get}
use agentic_sdd_governance.Autonomy.Payload.{validate_payload}
use agentic_sdd_governance.Autonomy.Reply.{go_on, blocked}
use agentic_sdd_governance.Autonomy.Decisions.{decision_store, find_decision}
use agentic_sdd_governance.Autonomy.Operation.{
  Consumption, unavailable, context_blocked, control_blocked, approved, consume_operation,
}
use agentic_sdd_governance.Autonomy.Escalation.Boundary.{
  Facts, machine_stage, machine_ladder, integrity_reply, uncertainty_reply,
}
use agentic_sdd_governance.Autonomy.Escalation.Reuse.{
  reuse_stage, reuse_decision, reuse_matched, reuse_answer, any_match, plain_match, reuse_reply,
  payload_answer, compare_payload, unavailable_reply, approval_stage, payload_stage, approve,
  consumption_reply, payload_stage,
}
use agentic_sdd_governance.Autonomy.Escalation.Evaluate.{World}
use agentic_sdd_governance.Autonomy.Escalation.Limits.{IsBlocked}

-- The reply asks nobody, and says whether the work goes on.
pub record IsQuiet (answer : Fields) : Type 0 where
  pub silent : get "requires_response" answer ≡ bool false
  pub state : (get "state" answer ≡ str "CONTINUE") ⊎ (get "state" answer ≡ str "BLOCKED")

pub blocked-IsQuiet : (reason next : String) (more : Fields) → IsQuiet (blocked reason next more)
unfolding get lookup
blocked-IsQuiet reason next more = record { silent = refl; state = inr refl }

pub go_on-IsQuiet : (reason next : String) (more : Fields) → IsQuiet (go_on reason next more)
unfolding get lookup
go_on-IsQuiet reason next more = record { silent = refl; state = inl refl }

pub IsBlocked-IsQuiet : (answer : Fields) → IsBlocked answer → IsQuiet answer
IsBlocked-IsQuiet answer b = record { silent = b.silent; state = inr b.state }

pub Every-IsQuiet : (o : Option Fields) → Every IsBlocked o → Every IsQuiet o
Every-IsQuiet none h = tt
Every-IsQuiet (some answer) h = IsBlocked-IsQuiet answer h

integrity_reply-IsQuiet : (b : Bool) → IsQuiet (integrity_reply b)
unfolding integrity_reply
integrity_reply-IsQuiet true = go_on-IsQuiet _ _ _
integrity_reply-IsQuiet false = blocked-IsQuiet _ _ _

uncertainty_reply-IsQuiet : (a b : Bool) → IsQuiet (uncertainty_reply a b)
unfolding uncertainty_reply
uncertainty_reply-IsQuiet true b = go_on-IsQuiet _ _ _
uncertainty_reply-IsQuiet false true = go_on-IsQuiet _ _ _
uncertainty_reply-IsQuiet false false = blocked-IsQuiet _ _ _

pub machine_stage-Every : (f : Facts) (request : Fields) → Every IsQuiet (machine_stage f request)
unfolding machine_stage
machine_stage-Every f request = first-Every IsQuiet (machine_ladder f request) (
  go_on-IsQuiet _ _ _,
  (
    integrity_reply-IsQuiet _,
    (
      uncertainty_reply-IsQuiet _ _,
      (go_on-IsQuiet _ _ _, (go_on-IsQuiet _ _ _, (go_on-IsQuiet _ _ _, tt))),
    ),
  ),
)

reuse_reply-IsQuiet : (a b c : Bool) → IsQuiet (reuse_reply a b c)
unfolding reuse_reply
reuse_reply-IsQuiet a b c =
    if-keeps IsQuiet (a && not b) _ _
      (λ _. if-keeps IsQuiet c _ _ (λ _. blocked-IsQuiet _ _ _) (λ _. blocked-IsQuiet _ _ _))
      (λ _. go_on-IsQuiet _ _ _)

reuse_answer-Every :
    (request decision : Fields) (a b : Bool) → Every IsQuiet (reuse_answer request decision a b)
unfolding reuse_answer
reuse_answer-Every request decision a true = reuse_reply-IsQuiet _ _ _
reuse_answer-Every request decision a false = tt

module _ (w : World) (p : Project) (request : Fields) where
  reuse_matched-Every :
      (decision : Fields) (plain : Bool)
      → Ensures (Every IsQuiet) (reuse_matched w.host w.evidence p request decision plain)
  unfolding reuse_matched
  reuse_matched-Every decision plain =
      Ensures-bind (Every IsQuiet) (any_match w.host w.evidence p request decision plain)
        (λ matched. ok (reuse_answer request decision plain matched))
        (λ matched _. reuse_answer-Every request decision plain matched)

  reuse_decision-Every :
      (found : Option Value)
      → Ensures (Every IsQuiet) (reuse_decision w.host w.evidence p request found)
  unfolding reuse_decision
  reuse_decision-Every (some (obj decision)) =
      Ensures-bind (Every IsQuiet) (plain_match w.host w.evidence p request decision)
        (λ plain. reuse_matched w.host w.evidence p request decision plain)
        (λ plain _. reuse_matched-Every decision plain)
  reuse_decision-Every _ = tt

  pub reuse_stage-Every :
      (f : Facts) → Ensures (Every IsQuiet) (reuse_stage w.host w.evidence p request f)
  unfolding reuse_stage
  reuse_stage-Every f =
      if-keeps (Ensures (Every IsQuiet)) (f.risk == "L2" && f.category == "product_decision") _ _
        (λ _.
          Ensures-bind (Every IsQuiet) (find_decision p (get "decision_id" request))
            (λ found. reuse_decision w.host w.evidence p request found)
            (λ found _. reuse_decision-Every found))
        (λ _. tt)

-- A guard that blocks, or nothing.
guard-Every :
    (b : Bool) (reason next : String) (more : Fields)
    → Every IsQuiet (if b then some (blocked reason next more) else none)
guard-Every true reason next more = blocked-IsQuiet reason next more
guard-Every false reason next more = tt

unavailable_reply-Every :
    (id : Value) (rows : List Value) → Every IsQuiet (unavailable_reply id rows)
unfolding unavailable_reply
unavailable_reply-Every id rows =
    guard-Every (any (λ row. py_eq (row_get "decision_id" row) id) rows) _ _ _

consumption_reply-Every :
    (id : Value) (p : Project) (c : Consumption)
    → Ensures (Every IsQuiet) (consumption_reply id p c)
unfolding consumption_reply
consumption_reply-Every id p (approved row) = go_on-IsQuiet _ _ _
consumption_reply-Every id p context_blocked = blocked-IsQuiet _ _ _
consumption_reply-Every id p control_blocked = blocked-IsQuiet _ _ _
consumption_reply-Every id p unavailable =
    Ensures-bind (Every IsQuiet) (decision_store p) (λ store. ok (unavailable_reply id store.1))
      (λ store _. unavailable_reply-Every id store.1)

module _ (w : World) (f : Facts) (request : Fields) where
  compare_payload-Every :
      (payload : Value) → Every IsQuiet (compare_payload w.host w.control w.now f payload)
  unfolding compare_payload
  compare_payload-Every payload =
      guard-Every
        (not (eq_str (row_get "category" payload) f.category)
          || not (py_eq (row_get "effects" payload) (obj f.effects)))
        _ _ _

  payload_answer-Every :
      (payload : Value) (r : Result String)
      → Ensures (Every IsQuiet) (payload_answer w.host w.control w.now f payload r)
  unfolding payload_answer
  payload_answer-Every payload (ok digest) = compare_payload-Every payload
  payload_answer-Every payload (err (value_error m)) = blocked-IsQuiet _ _ _
  payload_answer-Every payload (err (os_error m)) = tt
  payload_answer-Every payload (err type_error) = tt
  payload_answer-Every payload (err key_error) = tt
  payload_answer-Every payload (err attribute_error) = tt
  payload_answer-Every payload (err file_not_found) = tt

  approve-Every :
      (o : Option Fields) (p : Project)
      → Every IsQuiet o
      → Ensures (Every IsQuiet) (approve w.host w.control w.now request o p).0
  unfolding approve
  approve-Every (some answer) p h = h
  approve-Every none p h =
      let run =
        consume_operation w.host w.control w.now (get "approval_id" request)
          (get "operation_id" request) (get "operation_payload" request) p in
      Ensures-after (Every IsQuiet) run.0 run.1
        (λ result q. (consumption_reply (get "approval_id" request) q result, q))
        (λ result _. consumption_reply-Every (get "approval_id" request) run.1 result)

  pub approval_stage-Every :
      (p : Project) → Ensures (Every IsQuiet) (approval_stage w.host w.control w.now f request p).0
  unfolding approval_stage
  approval_stage-Every p =
      if-keeps (λ (x : Result (Option Fields) × Project). Ensures (Every IsQuiet) x.0)
        (f.risk == "L3" && truthy (get "approval_id" request))
        (after (payload_stage w.host w.control w.now f (get "operation_payload" request), p)
          (approve w.host w.control w.now request))
        (ok none, p)
        (λ _.
          Ensures-after (Every IsQuiet)
            (payload_stage w.host w.control w.now f (get "operation_payload" request)) p
            (approve w.host w.control w.now request)
            (λ o e. approve-Every o p (
              Ensures-eq-ok (Every IsQuiet)
                (payload_stage w.host w.control w.now f (get "operation_payload" request))
                (payload_answer-Every (get "operation_payload" request)
                  (validate_payload w.host (get "operation_payload" request)))
                e)))
        (λ _. tt)
