-- ===== src/Autonomy/Escalation/Routine.antt =====
-- src/sddgov/autonomy.py: routine engineering work.
use mathlib.Core.Bool.{false≢true}
use agentic_sdd_governance.Autonomy.Reply.{go_on}
use agentic_sdd_governance.Base.{
  ◌≡◌, refl, sym, ◌∙◌, subst, String, true, false, List, [], ◌∷◌, ok, arith, inl, inr, ◌==◌,
  Bool-cases, eq_iff, first, All,
}
use agentic_sdd_governance.Python.Value.{
  str, obj, Fields, field, end, get, has, keys_within, truthy,
}
use agentic_sdd_governance.Python.Equality.{py_eq}
use agentic_sdd_governance.Governance.Project.{Project}
use agentic_sdd_governance.Autonomy.Vocabulary.{routine_operations}
use agentic_sdd_governance.Autonomy.Payload.{effects_valid}
use agentic_sdd_governance.Autonomy.Envelope.{low_risk_error, category_error}
use agentic_sdd_governance.Autonomy.Escalation.Boundary.{
  read_request, envelope_stage, limit_stage, machine_stage, is_named, is_low, is_readiness,
  machine_route, channel_fields, blocked_option,
}
use agentic_sdd_governance.Autonomy.Escalation.Evaluate.{World, evaluate_facts, evaluate_escalation}

-- A request that names a routine category and a risk level, and declares no effect.
abbrev pub routine_request : String → String → Fields
routine_request risk category =
    field "risk_level" (str risk) (field "category" (str category) (field "effects" (obj end) end))

-- The reply of the routine branch; a release channel is named in it.
abbrev pub routine_reply : String → Fields
routine_reply category =
    go_on "no_human_escalation_if_machine_verifiable" machine_route (channel_fields category)

-- The evaluation of such a request gives this reply and writes nothing.
abbrev pub GoesOn : World → Project → String → String → Type 0
GoesOn w p risk category =
    evaluate_escalation w (routine_request risk category) p ≡ (ok (routine_reply category), p)

-- What holds of every name of a list holds of a name that is in it.
pub All-is_named :
    (P : String → Type 0) (names : List String) (s : String)
    → All P names
    → is_named s names ≡ true
    → P s
All-is_named P [] s h e = cc
All-is_named P (n ∷ names) s h e = elim (Bool-cases (s == n)) [
  | inl same ↦ subst P (sym ((eq_iff s n).0 same)) h.0
  | inr other ↦ All-is_named P names s h.1 (rw other at e)
]

routine_at_l1 : (w : World) (p : Project) → All (GoesOn w p "L1") routine_operations
unfolding evaluate_escalation evaluate_facts read_request envelope_stage limit_stage machine_stage
    first blocked_option low_risk_error category_error effects_valid channel_fields py_eq get has
    keys_within truthy
routine_at_l1 w p = (
  refl,
  (
    refl,
    (
      refl,
      (
        refl,
        (
          refl,
          (
            refl,
            (
              refl,
              (
                refl,
                (
                  refl,
                  (
                    refl,
                    (
                      refl,
                      (refl, (refl, (refl, (refl, (refl, (refl, (refl, (refl, (refl, tt))))))))),
                    ),
                  ),
                ),
              ),
            ),
          ),
        ),
      ),
    ),
  ),
)

routine_at_l0 :
    (w : World) (p : Project)
    → All (λ c. is_readiness c ≡ false → GoesOn w p "L0" c) routine_operations
unfolding evaluate_escalation evaluate_facts read_request envelope_stage limit_stage machine_stage
    first blocked_option low_risk_error category_error effects_valid channel_fields py_eq get has
    keys_within truthy
routine_at_l0 w p = (
  λ _. refl,
  (
    λ _. refl,
    (
      λ _. refl,
      (
        λ _. refl,
        (
          λ _. refl,
          (
            λ _. refl,
            (
              λ _. refl,
              (
                λ _. refl,
                (
                  λ _. refl,
                  (
                    λ _. refl,
                    (
                      λ _. refl,
                      (
                        λ _. refl,
                        (
                          λ _. refl,
                          (
                            λ _. refl,
                            (
                              λ _. refl,
                              (
                                λ _. refl,
                                (
                                  λ _. refl,
                                  (
                                    λ _. refl,
                                    (
                                      λ e. absurd (false≢true (sym e)),
                                      (λ e. absurd (false≢true (sym e)), tt),
                                    ),
                                  ),
                                ),
                              ),
                            ),
                          ),
                        ),
                      ),
                    ),
                  ),
                ),
              ),
            ),
          ),
        ),
      ),
    ),
  ),
)

-- A request that gives only L0 or L1, a routine category and no effect goes on without a human,
-- and nothing is written; for a merge and a release readiness it must give L1.
pub evaluate_escalation-routine :
    (w : World) (p : Project) (risk category : String)
    → is_low risk ≡ true
    → is_named category routine_operations ≡ true
    → (is_readiness category ≡ true → risk ≡ "L1")
    → evaluate_escalation w (routine_request risk category) p ≡ (ok (routine_reply category), p)
evaluate_escalation-routine w p risk category low routine channel =
    elim (Bool-cases (risk == "L1")) [
      | inl l1 ↦
          subst (λ r. GoesOn w p r category) (sym ((eq_iff risk "L1").0 l1))
            (All-is_named (GoesOn w p "L1") routine_operations category (routine_at_l1 w p) routine)
      | inr other ↦
          subst (λ r. GoesOn w p r category) (sym (at_l0 other))
            (All-is_named (λ c. is_readiness c ≡ false → GoesOn w p "L0" c) routine_operations
              category (routine_at_l0 w p) routine (no_channel other))
    ]
  where
    at_l0 : (risk == "L1") ≡ false → risk ≡ "L0"
    at_l0 other = (eq_iff risk "L0").0 (ground arith)

    no_channel : (risk == "L1") ≡ false → is_readiness category ≡ false
    no_channel other = elim (Bool-cases (is_readiness category)) [
      | inl c ↦ absurd (false≢true (sym other ∙ (eq_iff risk "L1").1 (channel c)))
      | inr c ↦ c
    ]
