-- ===== src/Autonomy/Escalation/Limits.antt =====
-- src/sddgov/autonomy.py: dangerous requests and their risk level.
use agentic_sdd_governance.Base.{
  ◌≡◌, ◌≢◌, refl, sym, ap, ◌∙◌, subst, String, Bool, true, false, not, ◌&&◌, ◌||◌, Option, none,
  some, [], ◌∷◌, Result, ok, err, arith, ◌⊎◌, inl, inr, ◌==◌, eq_iff, after, first-Every,
  first-eq-none, Ensures, if-keeps, either-Every, Every,
}
use agentic_sdd_governance.Python.Value.{Value, str, obj, Fields, end, get, lookup, has}
use agentic_sdd_governance.Governance.Project.{Project}
use agentic_sdd_governance.Autonomy.Vocabulary.{
  known_categories, high_risk_categories, operation_categories,
}
use agentic_sdd_governance.Autonomy.Payload.{effects_valid}
use agentic_sdd_governance.Autonomy.Reply.{blocked}
use agentic_sdd_governance.Autonomy.Escalation.Boundary.{
  Facts, read_request, read_risk, read_category, read_effects, effects_of, envelope_stage, limits,
  limit_stage, is_named, has_effects, blocked_option,
}
use agentic_sdd_governance.Autonomy.Escalation.Evaluate.{
  World, or_else, evaluate_facts, evaluate_escalation,
}

-- The reply stops the work and asks nobody.
pub record IsBlocked (answer : Fields) : Type 0 where
  pub state : get "state" answer ≡ str "BLOCKED"
  pub silent : get "requires_response" answer ≡ Value.bool false

pub blocked-IsBlocked :
    (reason next : String) (more : Fields) → IsBlocked (blocked reason next more)
unfolding get lookup
blocked-IsBlocked reason next more = record { state = refl; silent = refl }

-- What the last limit catches: a dangerous category, or any sensitive effect.
abbrev pub is_dangerous : Facts → Bool
is_dangerous f = is_named f.category operation_categories || has_effects f.effects

at_l3 :
    (operation category effects l3 : Bool)
    → (operation && not l3) ≡ false
    → ((category || effects) && not l3) ≡ false
    → ((operation || category) || effects) ≡ true
    → l3 ≡ true
at_l3 operation category effects l3 a b c = ground arith

pub limit_stage-Every : (f : Facts) → Every IsBlocked (limit_stage f)
unfolding limit_stage get lookup
limit_stage-Every f = first-Every IsBlocked (limits f) (ground arith)

blocked_option-Every : (o : Option String) (next : String) → Every IsBlocked (blocked_option o next)
unfolding blocked_option
blocked_option-Every none next = tt
blocked_option-Every (some reason) next = blocked-IsBlocked reason next end

pub envelope_stage-Every :
    (f : Facts) (request : Fields) → Every IsBlocked (envelope_stage f request)
unfolding envelope_stage
envelope_stage-Every f request =
    either-Every IsBlocked _ _ (first-Every IsBlocked _ (blocked-IsBlocked _ _ _, tt))
      (either-Every IsBlocked _ _ (blocked_option-Every _ _) (blocked_option-Every _ _))

-- A request that passes the limits is at L3 if its category or its effects are dangerous.
limit_stage-none :
    (f : Facts) → limit_stage f ≡ none → is_dangerous f ≡ true → (f.risk == "L3") ≡ true
unfolding limit_stage
limit_stage-none f h danger =
    let passed = first-eq-none (limits f) h in
    at_l3 (f.category == "high_risk_operation") (is_named f.category high_risk_categories)
      (has_effects f.effects) (f.risk == "L3") passed.1.1.1.1.1.0 passed.1.1.1.1.1.1.0 danger

-- What the first stage reads, or the reply that it blocks with.
abbrev pub IsRead : Fields → Facts ⊎ Fields → Type 0
IsRead request (inl f) =
    (get "risk_level" request ≡ str f.risk)
    × (get "category" request ≡ str f.category)
    × (get "effects" request ≡ obj f.effects)
IsRead request (inr answer) = IsBlocked answer

effects_of-IsRead :
    (request : Fields) (risk category : String) (v : Value)
    → get "risk_level" request ≡ str risk
    → get "category" request ≡ str category
    → get "effects" request ≡ v
    → Ensures (IsRead request) (effects_of risk category v)
unfolding effects_of
effects_of-IsRead request risk category (obj effects) r c e =
    if-keeps (Ensures (IsRead request)) (effects_valid effects) _ _ (λ _. (r, c, e)) (λ _. tt)
effects_of-IsRead request risk category _ r c e = tt

read_category-IsRead :
    (request : Fields) (risk : String) (v : Value)
    → get "risk_level" request ≡ str risk
    → get "category" request ≡ v
    → Ensures (IsRead request) (read_category risk v request)
unfolding read_category read_effects
read_category-IsRead request risk (str category) r c =
    if-keeps (Ensures (IsRead request)) (category == "") _ _ (λ _. tt)
      (λ _.
        if-keeps (Ensures (IsRead request)) (not (is_named category known_categories)) _ _
          (λ _. blocked-IsBlocked _ _ _)
          (λ _.
            if-keeps (Ensures (IsRead request)) (not (has "effects" request)) _ _ (λ _. tt)
              (λ _. effects_of-IsRead request risk category (get "effects" request) r c refl)))
read_category-IsRead request risk _ r c = tt

read_risk-IsRead :
    (request : Fields) (v : Value)
    → get "risk_level" request ≡ v
    → Ensures (IsRead request) (read_risk v request)
unfolding read_risk
read_risk-IsRead request (str risk) r =
    if-keeps (Ensures (IsRead request)) (is_named risk ("L0" ∷ "L1" ∷ "L2" ∷ "L3" ∷ [])) _ _
      (λ _. read_category-IsRead request risk (get "category" request) r refl)
      (λ _. blocked-IsBlocked _ _ _)
read_risk-IsRead request _ r = blocked-IsBlocked _ _ _

pub read_request-IsRead : (request : Fields) → Ensures (IsRead request) (read_request request)
unfolding read_request
read_request-IsRead request = read_risk-IsRead request (get "risk_level" request) refl

-- The outcome of an evaluation: blocked, with nothing written, if it returns at all.
abbrev pub StopsAt : Project → Result Fields × Project → Type 0
StopsAt p (ok answer, q) = IsBlocked answer × (q ≡ p)
StopsAt p (err e, q) = q ≡ p

or_else-StopsAt :
    (w : World) (p : Project) (o : Option Fields) (next : Project → Result Fields × Project)
    → Every IsBlocked o
    → (o ≡ none → StopsAt p (next p))
    → StopsAt p (or_else w o next p)
or_else-StopsAt w p none next h k = k refl
or_else-StopsAt w p (some answer) next h k = (h, refl)

pub str-injective : {s t : String} → str s ≡ str t → s ≡ t
str-injective e = cc

obj-injective : {d e : Fields} → obj d ≡ obj e → d ≡ e
obj-injective e = cc

-- The facts are dangerous and not at L3, so the limits stop them.
limit_stage-dangerous : (f : Facts) → is_dangerous f ≡ true → f.risk ≢ "L3" → limit_stage f ≢ none
limit_stage-dangerous f danger low h = low ((eq_iff f.risk "L3").0 (limit_stage-none f h danger))

evaluate_facts-dangerous :
    (w : World) (p : Project) (request : Fields) (f : Facts)
    → is_dangerous f ≡ true
    → f.risk ≢ "L3"
    → StopsAt p (evaluate_facts w request (inl f) p)
unfolding evaluate_facts
evaluate_facts-dangerous w p request f danger low =
    or_else-StopsAt w p (envelope_stage f request) _ (envelope_stage-Every f request) (λ _.
      or_else-StopsAt w p (limit_stage f) _ (limit_stage-Every f)
        (λ passed. absurd (limit_stage-dangerous f danger low passed)))

-- A dangerous request that is not labelled L3 is blocked or refused, and nothing is written: its
-- category is that of an operation, or it declares any sensitive effect.
pub evaluate_escalation-dangerous :
    (w : World) (p : Project) (request : Fields) {category : String} {effects : Fields}
    → get "category" request ≡ str category
    → get "effects" request ≡ obj effects
    → (is_named category operation_categories || has_effects effects) ≡ true
    → get "risk_level" request ≢ str "L3"
    → StopsAt p (evaluate_escalation w request p)
unfolding evaluate_escalation evaluate_facts
evaluate_escalation-dangerous w p request {category} c e danger low =
    stops (read_request request) (read_request-IsRead request)
  where
    stops :
        (x : Result (Facts ⊎ Fields))
        → Ensures (IsRead request) x
        → StopsAt p (after (x, p) (evaluate_facts w request))
    stops (err x) h = refl
    stops (ok (inr answer)) h = (h, refl)
    stops (ok (inl f)) (r, c', e') =
        evaluate_facts-dangerous w p request f
          (subst (λ k. (is_named k operation_categories || has_effects f.effects) ≡ true)
            (str-injective (sym c ∙ c'))
            (subst (λ k. (is_named category operation_categories || has_effects k) ≡ true)
              (obj-injective (sym e ∙ e')) danger))
          (λ l3. low (r ∙ ap str l3))
