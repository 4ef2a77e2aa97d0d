-- ===== src/Containment/Violation.antt =====
-- src/sddgov/production_containment.py: `ProductionContainmentViolation`. A method returns its
-- value or the reason, and the state beside it: what it assigned before it raised stays assigned.
use agentic_sdd_governance.Base.{String, ◌≡◌, refl, Bool, if◌then◌else◌}

pub data Outcome (A : Type 0) : Type 0 where
  done : A → Outcome A
  violation : String → Outcome A
  -- an `OSError` that nothing catches
  os_error : Outcome A

abbrev pub Method : Type 0 → Type 0 → Type 0
Method S A = S → Outcome A × S

-- `if bad: raise ProductionContainmentViolation(reason)`, before the rest.
abbrev pub unless : {S A : Type 0} → Bool → String → Method S A → Method S A
unless bad reason rest s = if bad then (violation reason, s) else rest s

-- A call, and what follows if it did not raise.
infixl 5 ◌then◌
abbrev pub ◌then◌ : {S A B : Type 0} → Outcome A × S → (A → Method S B) → Outcome B × S
(done a, s) then next = next a s
(violation reason, s) then next = (violation reason, s)
(os_error, s) then next = (os_error, s)

-- What a call leaves is kept by what follows it, if anything does.
pub then-keeps {κ} :
    {S A B : Type 0} (P : S → Type κ) (x : Outcome A) (s : S) (next : A → Method S B)
    → P s
    → ((a : A) → x ≡ done a → P (next a s).1)
    → P ((x, s) then next).1
then-keeps P (done a) s next h k = k a refl
then-keeps P (violation reason) s next h k = h
then-keeps P os_error s next h k = h
