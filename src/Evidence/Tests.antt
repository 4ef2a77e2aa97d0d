-- ===== src/Evidence/Tests.antt =====
-- A transaction on a number, and a package that goes from one phase to the next.
use agentic_sdd_governance.Python.Access.{subscript}
use agentic_sdd_governance.Base.{
  ℕ, ◌+◌, ◌≤◌, ◌≡◌, refl, String, Option, none, some, false, [], ◌∷◌, ok, Ensures,
}
use agentic_sdd_governance.Python.Value.{
  get, put, lookup, Value, str, arr, obj, nil, cons, Fields, field, end,
}
use agentic_sdd_governance.Evidence.Transaction.{
  Op, Transaction, new_transaction, add, rollback, finalize, ended,
}
use agentic_sdd_governance.Evidence.Ending.{
  IsRolledBack, rollback-IsRolledBack, Finalization, finalize-Finalization,
}
use agentic_sdd_governance.Evidence.Finish.{finalize-ended}
use agentic_sdd_governance.Evidence.Workflow.{index_of, Package, transition}
use agentic_sdd_governance.Evidence.Advance.{
  phase_at, IsTransition, transition-IsTransition, no_transition, one_more, Chain-phase,
}

-- The state counts what has been written; no directory is kept.
abbrev close : ℕ → ℕ → ℕ
close fd n = n

abbrev fails : Op String ℕ
fails n = (some "changed", n)

abbrev doubles : Op String ℕ
doubles n = (none, n + n)

abbrev opened : Transaction String ℕ
opened = new_transaction

-- Two operations that take back, of which the newer one raises.
abbrev failing : Transaction String ℕ
failing = record {
  rollback_ops = doubles ∷ fails ∷ [];
  finalize_ops = doubles ∷ [];
  verify_ops = doubles ∷ fails ∷ doubles ∷ [];
  directory_fds = 3 ∷ 4 ∷ [];
  finished = false;
}

rollback-IsRolledBack_example :
    (raised : Option String) × (after : ℕ) × (rollback close failing 10 ≡ (raised, ended, after))
    × IsRolledBack close failing 10 raised after
rollback-IsRolledBack_example = rollback-IsRolledBack close failing 10 refl

-- What is raised is the exception of the verification, and all is taken back: 10, doubled by the
-- first verification and by the older operation.
failing_ends : finalize close failing 10 ≡ (some "changed", ended, 40)
unfolding finalize
failing_ends = refl

finalize-Finalization_example :
    Finalization close failing 10 (finalize close failing 10).0 (finalize close failing 10).2
finalize-Finalization_example = finalize-Finalization close failing 10 refl

finalize-ended_example :
    ((finalize close opened 10).1 ≡ ended)
    × ((rollback close opened 10).1 ≡ ended)
    × (finalize close (finalize close opened 10).1 11 ≡ (none, ended, 11))
    × (rollback close (finalize close opened 10).1 11 ≡ (none, ended, 11))
    × (add "finished" fails none none (finalize close opened 10).1 ≡ (some "finished", ended))
finalize-ended_example = finalize-ended close "finished" opened fails 10 11 refl

abbrev summary : Fields
summary =
    field "workflow" (obj (field "phase" (str "red") (field "history" (arr nil) end)))
      (field "updated_at" (str "then") end)

abbrev dep : Package
dep = record { summary = ok summary; verify_with = λ changed. ok []; write = λ changed. ok tt }

abbrev row : Value
row = obj (field "phase" (str "evidence") (field "at" (str "now") end))

abbrev changed : Fields
changed =
    field "workflow"
      (obj (field "phase" (str "evidence") (field "history" (arr (cons row nil)) end)))
      (field "updated_at" (str "soon") end)

transition-IsTransition_example :
    Ensures (IsTransition dep) (transition dep "evidence" "now" "soon")
transition-IsTransition_example = transition-IsTransition dep "evidence" "now" "soon"

advances : transition dep "evidence" "now" "soon" ≡ ok changed
unfolding transition subscript lookup index_of put
advances = refl

at_red : phase_at summary ≡ some 0
unfolding get index_of
at_red = refl

Chain-phase_example : (phase_at changed ≡ some (0 + 1)) × (0 + 1 ≤ 4)
Chain-phase_example =
    Chain-phase summary changed 0 1
      (one_more dep "evidence" "now" "soon" no_transition refl advances) at_red
