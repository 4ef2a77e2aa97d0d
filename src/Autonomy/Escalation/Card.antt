-- ===== src/Autonomy/Escalation/Card.antt =====
-- src/sddgov/autonomy.py: the card of a decision package, and its binding to the request.
use agentic_sdd_governance.Base.{
  ◌≡◌, refl, String, Option, none, some, Result, ok, err, value_error, os_error, type_error,
  key_error, attribute_error, file_not_found, ◌⊎◌, inl, inr, Ensures, Ensures-bind, Ensures-eq-ok,
}
use agentic_sdd_governance.Python.Value.{Value, null, bool, int, float, str, arr, obj, Fields, get}
use agentic_sdd_governance.Autonomy.Package.{build_action_required, binding_error}
use agentic_sdd_governance.Autonomy.Escalation.Boundary.{Facts}
use agentic_sdd_governance.Autonomy.Escalation.Action.{
  card_or_reply, bind_card, bound_card, package_answer, package_stage,
}
use agentic_sdd_governance.Autonomy.Escalation.Evaluate.{World}
use agentic_sdd_governance.Autonomy.Escalation.Limits.{IsBlocked, blocked-IsBlocked}

-- The reply is blocked, or it is the card that is asked with.
abbrev pub IsBound : World → Facts → Fields → Fields ⊎ Fields → Type 0
IsBound w f request (inl card) =
    (arguments : Fields) × (get "decision_package" request ≡ obj arguments)
    × (build_action_required w.host arguments ≡ ok card)
    × (binding_error w.host f.category request card ≡ ok none)
IsBound w f request (inr answer) = IsBlocked answer

abbrev IsBuilt : World → Fields → Fields ⊎ Fields → Type 0
IsBuilt w arguments (inl card) = build_action_required w.host arguments ≡ ok card
IsBuilt w arguments (inr answer) = IsBlocked answer

card_or_reply-IsBuilt :
    (w : World) (arguments : Fields) (r : Result Fields)
    → build_action_required w.host arguments ≡ r
    → Ensures (IsBuilt w arguments) (card_or_reply r)
unfolding card_or_reply
card_or_reply-IsBuilt w arguments (ok card) h = h
card_or_reply-IsBuilt w arguments (err (value_error m)) h = blocked-IsBlocked _ _ _
card_or_reply-IsBuilt w arguments (err type_error) h = blocked-IsBlocked _ _ _
card_or_reply-IsBuilt w arguments (err attribute_error) h = blocked-IsBlocked _ _ _
card_or_reply-IsBuilt w arguments (err (os_error m)) h = tt
card_or_reply-IsBuilt w arguments (err key_error) h = tt
card_or_reply-IsBuilt w arguments (err file_not_found) h = tt

module _ (w : World) (f : Facts) (request : Fields) where
  bind_card-IsBound :
      (arguments card : Fields) (o : Option String)
      → get "decision_package" request ≡ obj arguments
      → build_action_required w.host arguments ≡ ok card
      → binding_error w.host f.category request card ≡ ok o
      → IsBound w f request (bind_card card o)
  unfolding bind_card
  bind_card-IsBound arguments card none g b h = (arguments, g, b, h)
  bind_card-IsBound arguments card (some reason) g b h = blocked-IsBlocked _ _ _

  bound_card-IsBound :
      (arguments : Fields) (x : Fields ⊎ Fields)
      → get "decision_package" request ≡ obj arguments
      → IsBuilt w arguments x
      → Ensures (IsBound w f request) (bound_card w.host f request x)
  unfolding bound_card
  bound_card-IsBound arguments (inl card) g b =
      Ensures-bind (IsBound w f request) (binding_error w.host f.category request card)
        (λ problem. ok (bind_card card problem))
        (λ problem h. bind_card-IsBound arguments card problem g b h)
  bound_card-IsBound arguments (inr answer) g b = b

  package_value-IsBound :
      (v : Value)
      → get "decision_package" request ≡ v
      → Ensures (IsBound w f request) (package_answer w.host f request v)
  unfolding package_answer
  package_value-IsBound (obj arguments) g =
      Ensures-bind (IsBound w f request) (card_or_reply (build_action_required w.host arguments))
        (bound_card w.host f request)
        (λ x e. bound_card-IsBound arguments x g (
          Ensures-eq-ok (IsBuilt w arguments)
            (card_or_reply (build_action_required w.host arguments))
            (card_or_reply-IsBuilt w arguments (build_action_required w.host arguments) refl) e))
  package_value-IsBound null g = blocked-IsBlocked _ _ _
  package_value-IsBound (bool b) g = blocked-IsBlocked _ _ _
  package_value-IsBound (int n) g = blocked-IsBlocked _ _ _
  package_value-IsBound (float m e) g = blocked-IsBlocked _ _ _
  package_value-IsBound (str s) g = blocked-IsBlocked _ _ _
  package_value-IsBound (arr items) g = blocked-IsBlocked _ _ _

  pub package_stage-IsBound : Ensures (IsBound w f request) (package_stage w.host f request)
  unfolding package_stage
  package_stage-IsBound = package_value-IsBound (get "decision_package" request) refl
