-- ===== src/Autonomy/Escalation/Operations.antt =====
-- src/sddgov/autonomy.py: what lets a dangerous operation go on.
use mathlib.Core.Bool.{false≢true}
use agentic_sdd_governance.Base.{
  ◌≡◌, refl, sym, ap, ◌∙◌, subst, String, Bool, true, false, not, ◌&&◌, ◌||◌, Option, none, some,
  List, any, Result, ok, err, value_error, os_error, type_error, key_error, attribute_error,
  file_not_found, ◌>>=◌, ◌⊎◌, inl, inr, ◌==◌, if◌then◌else◌, after, if-keeps, Exec, Every, Ensures,
}
use agentic_sdd_governance.Python.Value.{Value, str, obj, Fields, end, get, lookup, truthy, eq_str}
use agentic_sdd_governance.Python.Equality.{py_eq}
use agentic_sdd_governance.Governance.Project.{Project}
use agentic_sdd_governance.Governance.Actions.Store.{row_get}
use agentic_sdd_governance.Autonomy.Vocabulary.{operation_categories}
use agentic_sdd_governance.Autonomy.Reply.{blocked}
use agentic_sdd_governance.Autonomy.Payload.{validate_payload}
use agentic_sdd_governance.Autonomy.Decisions.{decision_store}
use agentic_sdd_governance.Autonomy.Operation.{
  Consumption, unavailable, context_blocked, control_blocked, approved, consume_operation,
}
use agentic_sdd_governance.Autonomy.Escalation.Boundary.{
  Facts, read_request, envelope_stage, limit_stage, is_named, is_forced, is_low,
}
use agentic_sdd_governance.Autonomy.Escalation.Reuse.{
  unavailable_reply, consumption_reply, compare_payload, payload_answer, payload_stage, approve,
  approval_stage,
}
use agentic_sdd_governance.Autonomy.Escalation.Action.{package_stage, final_reply}
use agentic_sdd_governance.Autonomy.Escalation.Evaluate.{
  World, or_else, finish, ask, human_stage, authority_stage, evaluate_facts, evaluate_escalation,
}
use agentic_sdd_governance.Autonomy.Escalation.Limits.{
  IsBlocked, blocked-IsBlocked, limit_stage-Every, envelope_stage-Every, read_request-IsRead,
  IsRead, str-injective,
}
use agentic_sdd_governance.Autonomy.Escalation.Card.{IsBound, package_stage-IsBound}
use agentic_sdd_governance.Autonomy.Escalation.Silent.{
  blocked≢continue, machine_stage-none, IsOperation, operation_categories-IsOperation, no_action,
  no_reuse,
}

module _ (w : World) (request : Fields) (p : Project) where
  -- An approval was used just now, or there is other work that does not wait for this one.
  abbrev pub IsPermitted : Project → Type 0
  IsPermitted q =
      ((row : Fields) × (consume_operation w.host w.control w.now (get "approval_id" request)
            (get "operation_id" request) (get "operation_payload" request) p
          ≡ (ok (approved row), q)))
      ⊎ (truthy (get "unrelated_work_exists" request) ≡ true)

  -- If the work goes on, that was permitted.
  abbrev pub GoesOnPermitted : Result Fields × Project → Type 0
  GoesOnPermitted (ok answer, q) = get "state" answer ≡ str "CONTINUE" → IsPermitted q
  GoesOnPermitted (err e, q) = Unit

  abbrev IsStagePermitted : Result (Option Fields) × Project → Type 0
  IsStagePermitted (ok (some answer), q) = get "state" answer ≡ str "CONTINUE" → IsPermitted q
  IsStagePermitted (ok none, q) = Unit
  IsStagePermitted (err e, q) = Unit

  blocked-permits :
      (answer : Fields) (q : Project) → IsBlocked answer → GoesOnPermitted (ok answer, q)
  blocked-permits answer q b e = absurd (blocked≢continue answer b e)

  unavailable-permits :
      (b : Bool) (answer : Fields) (q : Project)
      → IsBlocked answer
      → IsStagePermitted (ok (if b then some answer else none), q)
  unavailable-permits true answer q h = blocked-permits answer q h
  unavailable-permits false answer q h = tt

  after_store :
      (id : Value) (q : Project) (r : Result (Fields × List Value))
      → IsStagePermitted ((r >>= λ store. ok (unavailable_reply id store.1)), q)
  unfolding unavailable_reply
  after_store id q (ok store) =
      unavailable-permits (any (λ row. py_eq (row_get "decision_id" row) id) store.1) _ q
        (blocked-IsBlocked _ _ _)
  after_store id q (err e) = tt

  consumed-permits :
      (run : Result Consumption × Project)
      → consume_operation w.host w.control w.now
          (get "approval_id" request)
          (get "operation_id" request)
          (get "operation_payload" request)
          p
        ≡ run
      → IsStagePermitted
          (after run (λ result q. (consumption_reply (get "approval_id" request) q result, q)))
  unfolding consumption_reply
  consumed-permits (ok (approved row), q) e = λ _. inl (row, e)
  consumed-permits (ok context_blocked, q) e = blocked-permits _ q (blocked-IsBlocked _ _ _)
  consumed-permits (ok control_blocked, q) e = blocked-permits _ q (blocked-IsBlocked _ _ _)
  consumed-permits (ok unavailable, q) e =
      after_store (get "approval_id" request) q (decision_store q)
  consumed-permits (err x, q) e = tt

  -- The test of the payload blocks or lets the approval be used.
  compare-blocks :
      (f : Facts) (payload : Value)
      → Every IsBlocked (compare_payload w.host w.control w.now f payload)
  unfolding compare_payload
  compare-blocks f payload =
      if-keeps (Every IsBlocked)
        (not (eq_str (row_get "category" payload) f.category)
          || not (py_eq (row_get "effects" payload) (obj f.effects)))
        (some (
          blocked "operation_payload_does_not_match_request" "rebuild_exact_operation_request" end))
        none (λ _. blocked-IsBlocked _ _ _) (λ _. tt)

  payload-blocks :
      (f : Facts) (payload : Value) (r : Result String)
      → Ensures (Every IsBlocked) (payload_answer w.host w.control w.now f payload r)
  unfolding payload_answer
  payload-blocks f payload (ok digest) = compare-blocks f payload
  payload-blocks f payload (err (value_error m)) = blocked-IsBlocked _ _ _
  payload-blocks f payload (err (os_error m)) = tt
  payload-blocks f payload (err type_error) = tt
  payload-blocks f payload (err key_error) = tt
  payload-blocks f payload (err attribute_error) = tt
  payload-blocks f payload (err file_not_found) = tt

  approve-permits :
      (o : Option Fields)
      → Every IsBlocked o
      → IsStagePermitted (approve w.host w.control w.now request o p)
  unfolding approve
  approve-permits (some answer) h = blocked-permits answer p h
  approve-permits none h = consumed-permits _ refl

  after_payload :
      (r : Result (Option Fields))
      → Ensures (Every IsBlocked) r
      → IsStagePermitted (after (r, p) (approve w.host w.control w.now request))
  after_payload (ok o) h = approve-permits o h
  after_payload (err e) h = tt

  approval_stage-permits :
      (f : Facts) → IsStagePermitted (approval_stage w.host w.control w.now f request p)
  unfolding approval_stage
  approval_stage-permits f =
      let payload = get "operation_payload" request in
      if-keeps IsStagePermitted (f.risk == "L3" && truthy (get "approval_id" request))
        (after (payload_stage w.host w.control w.now f payload, p)
          (approve w.host w.control w.now request))
        (ok none, p)
        (λ _.
          after_payload (payload_stage w.host w.control w.now f payload)
            (payload-blocks f payload (validate_payload w.host payload)))
        (λ _. tt)

  -- The last reply goes on only for other work.
  final_reply-permits :
      (f : Facts) (card : Fields) (q : Project)
      → GoesOnPermitted (ok (final_reply f request card none), q)
  unfolding final_reply get lookup
  final_reply-permits f card q =
      if-keeps (λ answer. GoesOnPermitted (ok answer, q))
        (truthy (get "unrelated_work_exists" request)) _ _ (λ other _. inr other)
        (λ _ e. absurd (false≢true (ap (λ v. eq_str v "CONTINUE") e)))

  ask-permits :
      (f : Facts) (x : Fields ⊎ Fields) (q : Project)
      → is_forced f.category ≡ false
      → IsBound w f request x
      → GoesOnPermitted (ask w f request x q)
  unfolding ask finish
  ask-permits f (inr answer) q free b = blocked-permits answer q b
  ask-permits f (inl card) q free b =
      subst (λ run. GoesOnPermitted (after run (finish w f request card)))
        (sym (no_action w f request card q free)) (final_reply-permits f card q)

  human_stage-permits :
      (f : Facts) (q : Project)
      → is_forced f.category ≡ false
      → GoesOnPermitted (human_stage w f request q)
  unfolding human_stage
  human_stage-permits f q free =
      packaged (package_stage w.host f request) (package_stage-IsBound w f request)
    where
      packaged :
          (r : Result (Fields ⊎ Fields))
          → Ensures (IsBound w f request) r
          → GoesOnPermitted (after (r, q) (ask w f request))
      packaged (ok x) h = ask-permits f x q free h
      packaged (err e) h = tt

  -- A stage that is permitted, and what follows where it is silent.
  stage-permits :
      (run : Result (Option Fields) × Project) (next : Exec Project Fields)
      → IsStagePermitted run
      → ((q : Project) → GoesOnPermitted (next q))
      → GoesOnPermitted (after run (λ o. or_else w o next))
  stage-permits (ok (some answer), q) next h k = h
  stage-permits (ok none, q) next h k = k q
  stage-permits (err e, q) next h k = tt

  guard-permits :
      (o : Option Fields) (next : Exec Project Fields)
      → Every IsBlocked o
      → (o ≡ none → GoesOnPermitted (next p))
      → GoesOnPermitted (or_else w o next p)
  guard-permits (some answer) next h k = blocked-permits answer p h
  guard-permits none next h k = k refl

  authority_stage-permits :
      (f : Facts)
      → f.risk ≡ "L3"
      → is_forced f.category ≡ false
      → GoesOnPermitted (authority_stage w f request p)
  unfolding authority_stage
  authority_stage-permits f l3 free =
      let next = λ (q : Project).
        after (approval_stage w.host w.control w.now f request q)
          (λ approved. or_else w approved (human_stage w f request)) in
      subst
        (λ (r : Result (Option Fields)).
          GoesOnPermitted (after (r, p) (λ reused. or_else w reused next)))
        (sym (no_reuse w p request f l3))
        (stage-permits (approval_stage w.host w.control w.now f request p) (human_stage w f request)
          (approval_stage-permits f) (λ q. human_stage-permits f q free))

  evaluate_facts-permits :
      (x : Facts ⊎ Fields) {category : String}
      → IsRead request x
      → get "risk_level" request ≡ str "L3"
      → get "category" request ≡ str category
      → is_named category operation_categories ≡ true
      → GoesOnPermitted (evaluate_facts w request x p)
  unfolding evaluate_facts
  evaluate_facts-permits (inr answer) h r c named = blocked-permits answer p h
  evaluate_facts-permits (inl f) h r c named =
      let l3 = str-injective (sym h.0 ∙ r) in
      let operation =
        subst IsOperation (str-injective (sym c ∙ h.1))
          (operation_categories-IsOperation _ named) in
      guard-permits (envelope_stage f request) _ (envelope_stage-Every f request) (λ _.
        guard-permits (limit_stage f) _ (limit_stage-Every f) (λ _.
          subst (λ o. GoesOnPermitted (or_else w o (authority_stage w f request) p))
            (sym (machine_stage-none f request operation.0 operation.1 operation.2 (ap is_low l3)))
            (authority_stage-permits f l3 operation.3)))

-- Where a request of risk L3 has the category of a dangerous operation and the evaluation answers
-- CONTINUE, an approval of this operation was used just now, or the request says that there is
-- other work that does not wait for it.
pub evaluate_escalation-permits :
    (w : World) (request : Fields) (p : Project) {category : String} {answer : Fields} {q : Project}
    → get "risk_level" request ≡ str "L3"
    → get "category" request ≡ str category
    → is_named category operation_categories ≡ true
    → evaluate_escalation w request p ≡ (ok answer, q)
    → get "state" answer ≡ str "CONTINUE"
    → IsPermitted w request p q
unfolding evaluate_escalation
evaluate_escalation-permits w request p {category} r c named e goes_on =
    subst (GoesOnPermitted w request p) e
      (read (read_request request) (read_request-IsRead request)) goes_on
  where
    read :
        (x : Result (Facts ⊎ Fields))
        → Ensures (IsRead request) x
        → GoesOnPermitted w request p (after (x, p) (evaluate_facts w request))
    read (ok x) h = evaluate_facts-permits w request p x h r c named
    read (err x) h = tt
