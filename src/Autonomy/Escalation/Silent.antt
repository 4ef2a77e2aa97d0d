-- ===== src/Autonomy/Escalation/Silent.antt =====
-- src/sddgov/autonomy.py: the stages that a dangerous operation at L3 passes through.
use mathlib.Core.Bool.{false≢true}
use agentic_sdd_governance.Base.{
  ◌≡◌, ◌≢◌, refl, sym, ap, ◌∙◌, String, Bool, true, false, not, ◌&&◌, none, some, List, [], ◌∷◌, ok,
  arith, inl, ◌==◌, if◌then◌else◌, first, All,
}
use agentic_sdd_governance.Python.Value.{str, Fields, get, truthy, eq_str}
use agentic_sdd_governance.Governance.Project.{Project}
use agentic_sdd_governance.Autonomy.Vocabulary.{operation_categories, routine_operations}
use agentic_sdd_governance.Autonomy.Escalation.Boundary.{
  Facts, machine_stage, machine_ladder, is_named, is_forced, is_low,
}
use agentic_sdd_governance.Autonomy.Escalation.Reuse.{reuse_stage}
use agentic_sdd_governance.Autonomy.Escalation.Action.{action_stage}
use agentic_sdd_governance.Autonomy.Escalation.Evaluate.{World}
use agentic_sdd_governance.Autonomy.Escalation.Limits.{IsBlocked}
use agentic_sdd_governance.Autonomy.Escalation.Routine.{All-is_named}

pub blocked≢continue : (answer : Fields) → IsBlocked answer → get "state" answer ≢ str "CONTINUE"
blocked≢continue answer b e = absurd (false≢true (ap (λ v. eq_str v "CONTINUE") (sym b.state ∙ e)))

first-none : (guards : List (Bool × Fields)) → All (λ g. g.0 ≡ false) guards → first guards ≡ none
unfolding first
first-none [] h = refl
first-none ((test, answer) ∷ guards) h =
    ap (λ b. if b then some answer else first guards) h.0 ∙ first-none guards h.1

and_last : (x y l : Bool) → l ≡ false → (x && y && l) ≡ false
and_last x y l e = ground arith

and_first : (l x : Bool) → l ≡ false → (l && x) ≡ false
and_first l x e = ground arith

-- At L3 the machine settles nothing of these categories.
pub machine_stage-none :
    (f : Facts) (request : Fields)
    → (f.category == "checkpoint") ≡ false
    → (f.category == "integrity_mismatch") ≡ false
    → (f.category == "uncertainty") ≡ false
    → is_low f.risk ≡ false
    → machine_stage f request ≡ none
unfolding machine_stage first
machine_stage-none f request a b c low = first-none (machine_ladder f request) (
  a,
  (
    b,
    (
      c,
      (
        and_last (not (is_forced f.category)) (is_named f.category routine_operations)
            (is_low f.risk) low,
        (
          and_last (not (is_forced f.category)) (truthy (get "machine_verifiable" request))
              (is_low f.risk) low,
          (and_first (is_low f.risk) (not (is_forced f.category)) low, tt),
        ),
      ),
    ),
  ),
)

-- The named categories of an operation are settled by no machine.
abbrev pub IsOperation : String → Type 0
IsOperation c =
    ((c == "checkpoint") ≡ false)
    × ((c == "integrity_mismatch") ≡ false)
    × ((c == "uncertainty") ≡ false)
    × (is_forced c ≡ false)

pub operation_categories-IsOperation :
    (c : String) → is_named c operation_categories ≡ true → IsOperation c
operation_categories-IsOperation c e =
    All-is_named IsOperation operation_categories c
      (
        (refl, refl, refl, refl),
        (
          (refl, refl, refl, refl),
          (
            (refl, refl, refl, refl),
            (
              (refl, refl, refl, refl),
              (
                (refl, refl, refl, refl),
                (
                  (refl, refl, refl, refl),
                  ((refl, refl, refl, refl), ((refl, refl, refl, refl), tt)),
                ),
              ),
            ),
          ),
        ),
      )
      e

if-yes : {A : Type 0} (b : Bool) (x y : A) → b ≡ true → (if b then x else y) ≡ x
if-yes b x y e = ap (λ t. if t then x else y) e

if-no : {A : Type 0} (b : Bool) (x y : A) → b ≡ false → (if b then x else y) ≡ y
if-no b x y e = ap (λ t. if t then x else y) e

-- No external action is queued for such a category.
pub no_action :
    (w : World) (f : Facts) (request card : Fields) (q : Project)
    → is_forced f.category ≡ false
    → action_stage w.host w.resolver w.now f request card q ≡ (ok (inl none), q)
unfolding action_stage
no_action w f request card q free = if-yes (not (is_forced f.category)) _ _ (ap not free)

-- At L3 no recorded product decision is reused.
pub no_reuse :
    (w : World) (p : Project) (request : Fields) (f : Facts)
    → f.risk ≡ "L3"
    → reuse_stage w.host w.evidence p request f ≡ ok none
unfolding reuse_stage
no_reuse w p request f l3 =
    if-no (f.risk == "L2" && f.category == "product_decision") _ _
      (ap (λ r. r == "L2" && f.category == "product_decision") l3)
