-- ===== src/Autonomy/Escalation/Human.antt =====
-- src/sddgov/autonomy.py: when a human is asked, and with what.
use agentic_sdd_governance.Base.{
  Exec, ◌≡◌, refl, String, true, Option, none, some, ok, ◌⊎◌, inl, inr, after, Every, if-keeps,
  Ensures, Ensures-after, Ensures-eq-ok,
}
use agentic_sdd_governance.Python.Value.{Value, bool, str, obj, Fields, field, get, lookup, truthy}
use agentic_sdd_governance.Governance.Project.{Project}
use agentic_sdd_governance.Autonomy.Reply.{reply}
use agentic_sdd_governance.Autonomy.Package.{build_action_required, binding_error}
use agentic_sdd_governance.Autonomy.Escalation.Boundary.{
  Facts, read_request, envelope_stage, limit_stage, machine_stage,
}
use agentic_sdd_governance.Autonomy.Escalation.Reuse.{reuse_stage, approval_stage}
use agentic_sdd_governance.Autonomy.Escalation.Action.{package_stage, action_stage, final_reply}
use agentic_sdd_governance.Autonomy.Escalation.Evaluate.{
  World, or_else, finish, ask, human_stage, authority_stage, evaluate_facts, evaluate_escalation,
}
use agentic_sdd_governance.Autonomy.Escalation.Quiet.{
  IsQuiet, go_on-IsQuiet, Every-IsQuiet, IsBlocked-IsQuiet, machine_stage-Every, reuse_stage-Every,
  approval_stage-Every,
}
use agentic_sdd_governance.Autonomy.Escalation.Limits.{
  limit_stage-Every, envelope_stage-Every, read_request-IsRead, IsRead,
}
use agentic_sdd_governance.Autonomy.Escalation.Card.{IsBound, package_stage-IsBound}
use agentic_sdd_governance.Autonomy.Escalation.Queue.{IsQueued, action_stage-IsQueued}

-- The reply asks a human, with the package that is bound to the request.
pub record Asks (w : World) (request answer : Fields) : Type 0 where
  pub state : get "state" answer ≡ str "ACTION_REQUIRED"
  pub response : get "requires_response" answer ≡ bool true
  pub category : String
  pub arguments : Fields
  pub card : Fields
  pub shown : get "decision_package" answer ≡ obj card
  pub named : get "category" request ≡ str category
  pub given : get "decision_package" request ≡ obj arguments
  pub built : build_action_required w.host arguments ≡ ok card
  pub bound : binding_error w.host category request card ≡ ok none

abbrev pub IsAnswer : World → Fields → Fields → Type 0
IsAnswer w request answer = IsQuiet answer ⊎ Asks w request answer

module _ (w : World) (f : Facts) (request : Fields) where
  -- A reply that shows the bound card asks with it.
  asks :
      (card more : Fields)
      → get "category" request ≡ str f.category
      → IsBound w f request (inl card)
      → Asks w request (
          reply "ACTION_REQUIRED" true "human_judgment_required_by_policy"
            (field "decision_package" (obj card) more))
  unfolding get lookup
  asks card more c (arguments, g, b, h) = record {
    state = refl;
    response = refl;
    category = f.category;
    arguments = arguments;
    card = card;
    shown = refl;
    named = c;
    given = g;
    built = b;
    bound = h;
  }

  final_reply-IsAnswer :
      (card : Fields) (row : Option Value)
      → get "category" request ≡ str f.category
      → IsBound w f request (inl card)
      → IsAnswer w request (final_reply f request card row)
  unfolding final_reply
  final_reply-IsAnswer card (some row) c b =
      if-keeps (IsAnswer w request) (truthy (get "unrelated_work_exists" request)) _ _
        (λ _. inl (go_on-IsQuiet _ _ _)) (λ _. inr (asks card _ c b))
  final_reply-IsAnswer card none c b =
      if-keeps (IsAnswer w request) (truthy (get "unrelated_work_exists" request)) _ _
        (λ _. inl (go_on-IsQuiet _ _ _)) (λ _. inr (asks card _ c b))

  finish-IsAnswer :
      (card : Fields) (x : Option Value ⊎ Fields) (p : Project)
      → get "category" request ≡ str f.category
      → IsBound w f request (inl card)
      → IsQueued x
      → Ensures (IsAnswer w request) (finish w f request card x p).0
  unfolding finish
  finish-IsAnswer card (inl row) p c b q = final_reply-IsAnswer card row c b
  finish-IsAnswer card (inr answer) p c b q = inl q

  ask-IsAnswer :
      (x : Fields ⊎ Fields) (p : Project)
      → get "category" request ≡ str f.category
      → IsBound w f request x
      → Ensures (IsAnswer w request) (ask w f request x p).0
  unfolding ask finish
  ask-IsAnswer (inr answer) p c b = inl (IsBlocked-IsQuiet answer b)
  ask-IsAnswer (inl card) p c b =
      let run = action_stage w.host w.resolver w.now f request card p in
      Ensures-after (IsAnswer w request) run.0 run.1 (finish w f request card) (λ x e.
        finish-IsAnswer card x run.1 c b
          (Ensures-eq-ok IsQueued run.0 (action_stage-IsQueued w f request card p) e))

module _ (w : World) where
  human_stage-IsAnswer :
      (f : Facts) (request : Fields) (p : Project)
      → get "category" request ≡ str f.category
      → Ensures (IsAnswer w request) (human_stage w f request p).0
  unfolding human_stage
  human_stage-IsAnswer f request p c =
      Ensures-after (IsAnswer w request) (package_stage w.host f request) p (ask w f request)
        (λ x e. ask-IsAnswer w f request x p c (
          Ensures-eq-ok (IsBound w f request) (package_stage w.host f request)
            (package_stage-IsBound w f request) e))

  -- A quiet reply ends the evaluation, and without one it goes on.
  or_else-IsAnswer :
      (request : Fields) (o : Option Fields) (next : Exec Project Fields) (p : Project)
      → Every IsQuiet o
      → Ensures (IsAnswer w request) (next p).0
      → Ensures (IsAnswer w request) (or_else w o next p).0
  or_else-IsAnswer request (some answer) next p q h = inl q
  or_else-IsAnswer request none next p q h = h

  authority_stage-IsAnswer :
      (f : Facts) (request : Fields) (p : Project)
      → get "category" request ≡ str f.category
      → Ensures (IsAnswer w request) (authority_stage w f request p).0
  unfolding authority_stage
  authority_stage-IsAnswer f request p c =
      let reuse = reuse_stage w.host w.evidence p request f in
      let run = approval_stage w.host w.control w.now f request p in
      let approval = λ (q : Project).
        after (approval_stage w.host w.control w.now f request q)
          (λ approved. or_else w approved (human_stage w f request)) in
      Ensures-after (IsAnswer w request) reuse p (λ reused. or_else w reused approval)
        (λ reused e.
          or_else-IsAnswer request reused approval p
            (Ensures-eq-ok (Every IsQuiet) reuse (reuse_stage-Every w p request f) e)
            (Ensures-after (IsAnswer w request) run.0 run.1
              (λ approved. or_else w approved (human_stage w f request))
              (λ approved e'.
                or_else-IsAnswer request approved (human_stage w f request) run.1
                  (Ensures-eq-ok (Every IsQuiet) run.0 (approval_stage-Every w f request p) e')
                  (human_stage-IsAnswer f request run.1 c))))

  evaluate_facts-IsAnswer :
      (request : Fields) (x : Facts ⊎ Fields) (p : Project)
      → IsRead request x
      → Ensures (IsAnswer w request) (evaluate_facts w request x p).0
  unfolding evaluate_facts
  evaluate_facts-IsAnswer request (inr answer) p h = inl (IsBlocked-IsQuiet answer h)
  evaluate_facts-IsAnswer request (inl f) p h =
      or_else-IsAnswer request (envelope_stage f request) _ p
        (Every-IsQuiet (envelope_stage f request) (envelope_stage-Every f request))
        (or_else-IsAnswer request (limit_stage f) _ p
          (Every-IsQuiet (limit_stage f) (limit_stage-Every f))
          (or_else-IsAnswer request (machine_stage f request) _ p (machine_stage-Every f request)
            (authority_stage-IsAnswer f request p h.1)))

  -- Whatever the request, what the evaluation returns either asks nobody and says CONTINUE or
  -- BLOCKED, or it is ACTION_REQUIRED with a card: the card that `build_action_required` makes of
  -- the request's own decision package, and that the binding check accepts for this request.
  pub evaluate_escalation-asks :
      (request : Fields) (p : Project)
      → Ensures (IsAnswer w request) (evaluate_escalation w request p).0
  unfolding evaluate_escalation
  evaluate_escalation-asks request p =
      Ensures-after (IsAnswer w request) (read_request request) p (evaluate_facts w request) (λ x e.
        evaluate_facts-IsAnswer request x p
          (Ensures-eq-ok (IsRead request) (read_request request) (read_request-IsRead request) e))
