-- ===== src/Evidence/Advance.antt =====
-- src/sddgov/evidence.py: the order in which a package passes the phases.
use agentic_sdd_governance.Base.{
  ℕ, suc, ◌+◌, ◌≤◌, ◌≡◌, refl, sym, ap, ◌∙◌, String, ◌<>◌, Bool, true, false, not, Option, none,
  some, List, [], ◌∷◌, eqb, any, arith, ◌==◌, ok, err, key_error, refuse, refuse-eq-ok, Ensures,
  Ensures-bind, Ensures-eq-ok, length, ok-injective,
}
use agentic_sdd_governance.Python.Value.{
  Value, null, bool, int, float, str, arr, obj, Fields, field, end, get, put, lookup,
}
use agentic_sdd_governance.Python.Access.{subscript}
use agentic_sdd_governance.Python.Laws.{get-put, get-put_self}
use agentic_sdd_governance.Python.Str.{join}
use agentic_sdd_governance.Evidence.Workflow.{
  phases, index_of, position, check_advance, position_of, text_of_phase, appended, new_workflow,
  advance, Package, refuse_phase_errors, transition,
}

-- The place of the phase that a summary names.
abbrev workflow_phase : Value → Option ℕ
workflow_phase (obj workflow) = position_of (get "phase" workflow)
workflow_phase _ = none

abbrev pub phase_at : Fields → Option ℕ
phase_at summary = workflow_phase (get "workflow" summary)

-- One phase further.
abbrev pub IsNext : Fields → Fields → Type 0
IsNext summary changed = (n : ℕ) × (phase_at summary ≡ some n) × (phase_at changed ≡ some (suc n))

value_of :
    (o : Option Value) {v : Value}
    → elim o [ none ↦ err key_error | some w ↦ ok w ] ≡ ok v
    → elim o [ none ↦ null | some w ↦ w ] ≡ v
value_of none h = cc
value_of (some w) h = ok-injective h

subscript-get : (d : Fields) (k : String) {v : Value} → subscript (obj d) k ≡ ok v → get k d ≡ v
unfolding subscript get
subscript-get d k h = value_of (lookup k d) h

check_advance-eq-ok :
    (message : String) (new old : Option ℕ) {u : Unit {0}}
    → check_advance message new old ≡ ok u
    → (n : ℕ) × (old ≡ some n) × (new ≡ some (suc n))
unfolding check_advance
check_advance-eq-ok message none old h = cc
check_advance-eq-ok message (some new) none h = cc
check_advance-eq-ok message (some new) (some old) h =
    let e = refuse-eq-ok (not (eqb new (suc old))) message h in (old, refl, ap some (ground arith))

get-workflow :
    (phase stamp : String) (workflow : Fields) (history : Value)
    → Ensures (λ w. get "phase" w ≡ str phase) (new_workflow phase stamp workflow history)
unfolding new_workflow
get-workflow phase stamp workflow history =
    Ensures-bind (λ w. get "phase" w ≡ str phase)
      (appended history (obj (field "phase" (str phase) (field "at" (str stamp) end)))) _
      (λ rows _.
        get-put "history" "phase" rows (put "phase" (str phase) workflow)
        ∙ get-put_self "phase" (str phase) workflow)

advance-IsNext :
    (phase stamp updated_at : String) (summary : Fields) (workflow : Value)
    → get "workflow" summary ≡ workflow
    → Ensures (IsNext summary) (advance phase stamp updated_at summary workflow)
unfolding advance
advance-IsNext phase stamp updated_at summary null e = tt
advance-IsNext phase stamp updated_at summary (bool b) e = tt
advance-IsNext phase stamp updated_at summary (int n) e = tt
advance-IsNext phase stamp updated_at summary (float n s) e = tt
advance-IsNext phase stamp updated_at summary (str s) e = tt
advance-IsNext phase stamp updated_at summary (arr vs) e = tt
advance-IsNext phase stamp updated_at summary (obj workflow) e =
    let P = IsNext summary in
    Ensures-bind P (subscript (obj workflow) "phase") _ (λ current c.
      Ensures-bind P
        (check_advance
          ("transition must advance exactly one phase: "
            <> text_of_phase current
            <> " -> "
            <> phase)
          (position phase) (position_of current))
        _
        (λ _ a. Ensures-bind P (subscript (obj workflow) "history") _ (λ history _.
          Ensures-bind P (new_workflow phase stamp workflow history) _ (λ changed w.
            let (n, old, new) = check_advance-eq-ok _ (position phase) (position_of current) a in
            let named = Ensures-eq-ok _ _ (get-workflow phase stamp workflow history) w in
            (
              n,
              ap workflow_phase e ∙ ap position_of (subscript-get workflow "phase" c) ∙ old,
              ap workflow_phase (
                    get-put "updated_at" "workflow" (str updated_at)
                      (put "workflow" (obj changed) summary)
                    ∙ get-put_self "workflow" (obj changed) summary)
                  ∙ ap position_of named
                  ∙ new,
            )))))

-- A transition that returns: what it returns was verified and written in place of the summary that
-- was read, and is one phase further.
abbrev pub IsTransition : Package → Fields → Type 0
IsTransition dep changed =
    (summary : Fields) × (dep.summary ≡ ok summary)
    × IsNext summary changed
    × (dep.verify_with changed ≡ ok [])
    × (dep.write changed ≡ ok tt)

refuse_phase_errors-eq-ok :
    (phase : String) (errors : List String) {u : Unit {0}}
    → refuse_phase_errors phase errors ≡ ok u
    → errors ≡ []
unfolding refuse_phase_errors
refuse_phase_errors-eq-ok phase [] h = refl
refuse_phase_errors-eq-ok phase (e ∷ errors) h = cc

-- Where `transition` returns: the summary that it read names a phase, the one that it returns names
-- the next one in the order of `PHASES`, the verification of the package with the new summary has
-- no errors, and the new summary was written.
pub transition-IsTransition :
    (dep : Package) (phase stamp updated_at : String)
    → Ensures (IsTransition dep) (transition dep phase stamp updated_at)
unfolding transition
transition-IsTransition dep phase stamp updated_at =
    let P = IsTransition dep in
    Ensures-bind P
      (refuse (not (any (λ name. phase == name) phases))
        ("phase must be one of: " <> join ", " phases))
      _
      (λ _ _. Ensures-bind P dep.summary _ (λ summary s.
        Ensures-bind P (subscript (obj summary) "workflow") _ (λ workflow w.
          Ensures-bind P (advance phase stamp updated_at summary workflow) _ (λ changed a.
            Ensures-bind P (dep.verify_with changed) _ (λ errors v.
              Ensures-bind P (refuse_phase_errors phase errors) _ (λ _ r.
                Ensures-bind P (dep.write changed) _ (λ _ written. (
                  summary,
                  s,
                  Ensures-eq-ok _ _
                      (advance-IsNext phase stamp updated_at summary workflow
                        (subscript-get summary "workflow" w))
                      a,
                  v ∙ ap ok (refuse_phase_errors-eq-ok phase errors r),
                  written,
                ))))))))

-- Transitions one after another, each of what the one before has returned.
pub data Chain (start : Fields) : ℕ → Fields → Type 0 where
  no_transition : Chain start 0 start
  one_more :
      {n : ℕ} {summary changed : Fields} (dep : Package) (phase stamp updated_at : String)
      → Chain start n summary
      → dep.summary ≡ ok summary
      → transition dep phase stamp updated_at ≡ ok changed
      → Chain start (suc n) changed

some-injective : {m n : ℕ} → some m ≡ some n → m ≡ n
some-injective h = cc

bound_of :
    (b : Bool) (o : Option ℕ) (k n : ℕ)
    → ((m : ℕ) → o ≡ some m → suc m ≤ k)
    → elim b [ true ↦ some 0 | false ↦ elim o [ none ↦ none | some m ↦ some (suc m) ] ] ≡ some n
    → suc n ≤ suc k
bound_of true o k n h e = let zero_is = some-injective e in omega arith
bound_of false none k n h e = cc
bound_of false (some m) k n h e =
    let next_is = some-injective e in let below = h m refl in omega arith

index_of-bound :
    (name : String) (names : List String) (n : ℕ)
    → index_of name names ≡ some n
    → suc n ≤ length names
unfolding index_of
index_of-bound name [] n e = cc
index_of-bound name (other ∷ names) n e =
    bound_of (other == name) (index_of name names) (length names) n
      (λ m f. index_of-bound name names m f) e

position_of-bound : (v : Value) (n : ℕ) → position_of v ≡ some n → suc n ≤ 5
position_of-bound null n e = cc
position_of-bound (bool b) n e = cc
position_of-bound (int i) n e = cc
position_of-bound (float i s) n e = cc
position_of-bound (str name) n e = index_of-bound name phases n e
position_of-bound (arr vs) n e = cc
position_of-bound (obj d) n e = cc

workflow_phase-bound : (v : Value) (n : ℕ) → workflow_phase v ≡ some n → suc n ≤ 5
workflow_phase-bound null n e = cc
workflow_phase-bound (bool b) n e = cc
workflow_phase-bound (int i) n e = cc
workflow_phase-bound (float i s) n e = cc
workflow_phase-bound (str name) n e = cc
workflow_phase-bound (arr vs) n e = cc
workflow_phase-bound (obj d) n e = position_of-bound (get "phase" d) n e

phase_at-Chain :
    {start : Fields} {n : ℕ} {summary : Fields} (m : ℕ)
    → Chain start n summary
    → phase_at start ≡ some m
    → phase_at summary ≡ some (m + n)
phase_at-Chain m no_transition e = e ∙ ap some (omega arith)
phase_at-Chain m (one_more {n} {summary} {changed} dep phase stamp updated_at chain read h) e =
    let (other, found, (k, old, new), _, _) =
      Ensures-eq-ok (IsTransition dep) (transition dep phase stamp updated_at)
        (transition-IsTransition dep phase stamp updated_at) h in
    let same = ok-injective (sym read ∙ found) in
    let before = phase_at-Chain m chain e in
    let number = some-injective (sym before ∙ ap phase_at same ∙ old) in new ∙ ap some (omega arith)

-- However many transitions follow one another: no phase is skipped, repeated or taken back, so
-- after `n` of them the package is exactly `n` phases further, and there are never more of them
-- than there are phases left.
pub Chain-phase :
    (start summary : Fields) (m n : ℕ)
    → Chain start n summary
    → phase_at start ≡ some m
    → (phase_at summary ≡ some (m + n)) × (m + n ≤ 4)
Chain-phase start summary m n chain e =
    let there = phase_at-Chain m chain e in
    let below = workflow_phase-bound (get "workflow" summary) (m + n) there in (there, omega arith)
