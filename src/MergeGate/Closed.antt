-- ===== src/MergeGate/Closed.antt =====
-- src/sddgov/merge_gate.py: what a rollback contract can hold.
use agentic_sdd_governance.Base.{
  ◌≡◌, String, Bool, true, false, not, ◌&&◌, Option, none, some, List, [], ◌∷◌, arith, Every,
  if◌then◌else◌, if-keeps, ◌==◌,
}
use agentic_sdd_governance.Python.Value.{Value, str, Fields, end, field, in_names, eq_str, get}
use agentic_sdd_governance.Python.Str.{splitlines}
use agentic_sdd_governance.MergeGate.Rollback.{
  text_at, is_commit, select, read_fields, is_bad_target, contract_v1, contract_v2, contract_v3,
  contract_v4, contract_of, rollback_contract,
}

-- The names that each field may have.
abbrev vocabulary : List (String × List String)
vocabulary =
    ("version", "1.0" ∷ "2.0" ∷ "4.0" ∷ [])
    ∷ ("rollback_version", "3.0" ∷ [])
    ∷ ("rollback_action", "git_revert" ∷ [])
    ∷ (
      "reconcile_action",
      "setup_agent_from_reverted_source" ∷ "assert_self_governance_deactivated" ∷ [],
    )
    ∷ ("reconcile_agent", "codex" ∷ "hermes" ∷ [])
    ∷ ("reconcile_profile", "solo-fast" ∷ "team-standard" ∷ "regulated" ∷ [])
    ∷ ("verify_action", "doctor_and_python_module" ∷ "self_governance_deactivated" ∷ [])
    ∷ ("verify_module", "pytest" ∷ "unittest" ∷ [])
    ∷ []

abbrev is_known : String → Value → List (String × List String) → Bool
is_known name value [] = false
is_known name value ((other, names) ∷ more) =
    if name == other then in_names value names else is_known name value more

-- A commit, the text of the target, or one of the names.
abbrev is_closed_field : (String → String) → String → Value → Bool
is_closed_field lower name (str text) =
    if name == "rollback_ref"
    then is_commit text
    else if name == "target"
    then not (is_bad_target lower text)
    else is_known name (str text) vocabulary
is_closed_field lower name _ = false

abbrev pub is_closed : (String → String) → Fields → Bool
is_closed lower end = true
is_closed lower (field name value fields) =
    is_closed_field lower name value && is_closed lower fields

abbrev IsClosed : (String → String) → Fields → Type 0
IsClosed lower c = is_closed lower c ≡ true

module _ (lower : String → String) (fields : Fields) where
  contract_v1-IsClosed : (allowed : Bool) → Every (IsClosed lower) (contract_v1 allowed fields)
  unfolding contract_v1
  contract_v1-IsClosed allowed = ground arith

  contract_v2-IsClosed :
      (allowed : Bool) (lines : List String)
      → Every (IsClosed lower) (contract_v2 allowed lines fields)
  unfolding contract_v2
  contract_v2-IsClosed allowed lines = ground arith

  contract_v3-IsClosed :
      eq_str (get "rollback_version" fields) "3.0" ≡ true
      → is_bad_target lower (text_at "target" fields) ≡ false
      → Every (IsClosed lower) (contract_v3 fields)
  unfolding contract_v3 select text_at
  contract_v3-IsClosed version target = ground arith

  contract_v4-IsClosed :
      is_bad_target lower (text_at "target" fields) ≡ false
      → Every (IsClosed lower) (contract_v4 fields)
  unfolding contract_v4 select
  contract_v4-IsClosed target = ground arith

contract_of-IsClosed :
    (lower : String → String) (allow_v1 allow_v2 : Bool) (lines : List String) (fields : Fields)
    → Every (IsClosed lower) (contract_of lower allow_v1 allow_v2 lines fields)
unfolding contract_of
contract_of-IsClosed lower allow_v1 allow_v2 lines fields =
    let P = Every (IsClosed lower) in
    let version = get "rollback_version" fields in
    if-keeps P (is_bad_target lower (text_at "target" fields)) _ _ (λ _. tt)
      (λ target.
        if-keeps P (eq_str version "1.0") _ _ (λ _. contract_v1-IsClosed lower fields allow_v1)
          (λ _.
            if-keeps P (eq_str version "2.0") _ _
              (λ _. contract_v2-IsClosed lower fields allow_v2 lines)
              (λ _.
                if-keeps P (eq_str version "3.0") _ _
                  (λ three. contract_v3-IsClosed lower fields three target)
                  (λ _. contract_v4-IsClosed lower fields target))))

read-IsClosed :
    (lower : String → String) (allow_v1 allow_v2 : Bool) (lines : List String)
    (read : Option Fields)
    → Every
        (IsClosed lower)
        (elim read [ none ↦ none | some fields ↦ contract_of lower allow_v1 allow_v2 lines fields ])
read-IsClosed lower allow_v1 allow_v2 lines none = tt
read-IsClosed lower allow_v1 allow_v2 lines (some fields) =
    contract_of-IsClosed lower allow_v1 allow_v2 lines fields

-- Whatever the text of a rollback record, and whatever bridges are allowed: if a contract comes
-- out of it, each of its fields is the name of a full commit of 40 hexadecimal digits, a target
-- text that is checked, or one of the closed names for that field. So no command of the record
-- can reach the drill.
pub rollback_contract-IsClosed :
    (lower : String → String) (allow_v1 allow_v2 : Bool) (text : String)
    → Every (IsClosed lower) (rollback_contract lower allow_v1 allow_v2 text)
unfolding rollback_contract
rollback_contract-IsClosed lower allow_v1 allow_v2 text =
    read-IsClosed lower allow_v1 allow_v2 (splitlines text)
      (read_fields lower end (splitlines text))
