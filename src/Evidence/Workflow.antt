-- ===== src/Evidence/Workflow.antt =====
-- src/sddgov/evidence.py: `transition`. The package's directory is a parameter: the reading of its
-- summary, the verification with the new summary in place, and the write in a transaction.
use agentic_sdd_governance.Base.{
  ℕ, suc, String, ◌<>◌, true, false, not, Option, none, some, List, [], ◌∷◌, ◌++◌, eqb, any, ◌==◌,
  Result, ok, err, value_error, attribute_error, type_error, ◌>>=◌, ◌>>◌, refuse,
}
use agentic_sdd_governance.Python.Value.{
  Value, str, arr, obj, Fields, field, end, put, of_list, to_list,
}
use agentic_sdd_governance.Python.Access.{subscript}
use agentic_sdd_governance.Python.Str.{join}

abbrev pub phases : List String
phases = "red" ∷ "evidence" ∷ "fix" ∷ "green" ∷ "proof" ∷ []

-- `names.index(name)`, `none` where it raises a ValueError.
unfoldable pub index_of : String → List String → Option ℕ
index_of name [] = none
index_of name (other ∷ names) = elim (other == name) [
  | true ↦ some 0
  | false ↦ elim (index_of name names) [ none ↦ none | some n ↦ some (suc n) ]
]

abbrev pub position : String → Option ℕ
position name = index_of name phases

-- `PHASES.index(phase) != PHASES.index(current) + 1`
unfoldable pub check_advance : String → Option ℕ → Option ℕ → Result (Unit {0})
check_advance message (some new) (some old) = refuse (not (eqb new (suc old))) message
check_advance message _ _ = err (value_error "tuple.index(x): x not in tuple")

abbrev pub position_of : Value → Option ℕ
position_of (str name) = position name
position_of _ = none

unfoldable pub text_of_phase : Value → String
text_of_phase (str name) = name
text_of_phase _ = ""

-- `workflow["history"].append(…)`
unfoldable pub appended : Value → Value → Result Value
appended (arr rows) row = ok (arr (of_list (to_list rows ++ (row ∷ []))))
appended _ row = err attribute_error

-- The workflow after the two assignments.
unfoldable pub new_workflow : String → String → Fields → Value → Result Fields
unfolding appended
new_workflow phase stamp workflow history =
    appended history (obj (field "phase" (str phase) (field "at" (str stamp) end))) >>= λ rows.
    ok (put "history" rows (put "phase" (str phase) workflow))

-- The summary that is written; `stamp` and `updated_at` are two readings of the clock.
unfoldable pub advance : String → String → String → Fields → Value → Result Fields
unfolding check_advance text_of_phase new_workflow
advance phase stamp updated_at summary (obj workflow) = do
  current ← subscript (obj workflow) "phase"
  check_advance
      ("transition must advance exactly one phase: " <> text_of_phase current <> " -> " <> phase)
      (position phase) (position_of current)
  history ← subscript (obj workflow) "history"
  changed ← new_workflow phase stamp workflow history
  ok (put "updated_at" (str updated_at) (put "workflow" (obj changed) summary))
advance phase stamp updated_at summary _ = err type_error

-- The directory of a package.
pub record Package : Type 0 where
  pub summary : Result Fields
  pub verify_with : Fields → Result (List String)
  pub write : Fields → Result (Unit {0})

unfoldable pub refuse_phase_errors : String → List String → Result (Unit {0})
refuse_phase_errors phase [] = ok tt
refuse_phase_errors phase (e ∷ errors) =
    err (value_error ("cannot enter " <> phase <> ": " <> join "; " (e ∷ errors)))

-- `transition`
unfoldable pub transition : Package → String → String → String → Result Fields
unfolding advance refuse_phase_errors
transition dep phase stamp updated_at = do
  refuse (not (any (λ name. phase == name) phases)) ("phase must be one of: " <> join ", " phases)
  summary ← dep.summary
  workflow ← subscript (obj summary) "workflow"
  changed ← advance phase stamp updated_at summary workflow
  errors ← dep.verify_with changed
  refuse_phase_errors phase errors
  dep.write changed
  ok changed
