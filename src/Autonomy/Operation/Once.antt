-- ===== src/Autonomy/Operation/Once.antt =====
-- src/sddgov/autonomy.py: an operation approval that was used, and later calls.
use mathlib.Core.Bool.{false≢true}
use agentic_sdd_governance.Base.{
  ℕ, refuse, all, ok-injective, both, ◌≡◌, ◌≢◌, sym, ap, ◌∙◌, Bool, true, false, not, ◌||◌, Option,
  none, some, List, [], ◌∷◌, ok, inl, inr, Bool-cases, >>=-eq-ok,
}
use agentic_sdd_governance.Python.Value.{
  Value, eq_str, str, arr, obj, Fields, get, put, of_list, is_null, has_exactly,
}
use agentic_sdd_governance.Python.Equality.{py_eq}
use agentic_sdd_governance.Python.Laws.{to_list-of_list, get-put, get-put_self}
use agentic_sdd_governance.Host.{Host}
use agentic_sdd_governance.Governance.Project.{Project}
use agentic_sdd_governance.Governance.Actions.Store.{row_get, as_rows}
use agentic_sdd_governance.Autonomy.Decisions.{
  is_decision, decision_store, find_row, load_decisions, check_rows,
}
use agentic_sdd_governance.Autonomy.Operation.{
  Control, approved, is_fresh, complete, complete_value, change_first, consume_operation,
}
use agentic_sdd_governance.Autonomy.Operation.Approved.{consume_operation-approved, spent}

none-some : {A : Type 0} {a : A} → ¬ (none ≡ some a)
none-some e = cc

some-injective : {A : Type 0} {a b : A} → some a ≡ some b → a ≡ b
some-injective e = cc

-- A row that is written as consumed keeps its id.
complete-decision_id :
    (h : Host) (now : ℕ) (row : Fields)
    → get "decision_id" (complete h now row) ≡ get "decision_id" row
unfolding complete
complete-decision_id h now row =
    get-put "status" "decision_id" (str "completed") (put "consumed_at" (str (h.stamp now)) row)
    ∙ get-put "consumed_at" "decision_id" (str (h.stamp now)) row

complete-consumed_at :
    (h : Host) (now : ℕ) (row : Fields) → get "consumed_at" (complete h now row) ≡ str (h.stamp now)
unfolding complete
complete-consumed_at h now row =
    get-put "status" "consumed_at" (str "completed") (put "consumed_at" (str (h.stamp now)) row)
    ∙ get-put_self "consumed_at" (str (h.stamp now)) row

is_named : Value → Value → Bool
is_named id row = py_eq (row_get "decision_id" row) id

find_row-head :
    (id row : Value) (rows : List Value)
    → is_named id row ≡ true
    → find_row id (row ∷ rows) ≡ some row
unfolding find_row is_named
find_row-head id row rows h = rw h

find_row-tail :
    (id row : Value) (rows : List Value)
    → is_named id row ≡ false
    → find_row id (row ∷ rows) ≡ find_row id rows
unfolding find_row is_named
find_row-tail id row rows h = rw h

change_first-head :
    (h : Host) (now : ℕ) (id row : Value) (rows : List Value)
    → is_named id row ≡ true
    → change_first id (complete_value h now) (row ∷ rows) ≡ complete_value h now row ∷ rows
unfolding change_first is_named
change_first-head h now id row rows e = rw e

change_first-tail :
    (h : Host) (now : ℕ) (id row : Value) (rows : List Value)
    → is_named id row ≡ false
    → change_first id (complete_value h now) (row ∷ rows)
      ≡ row ∷ change_first id (complete_value h now) rows
unfolding change_first is_named
change_first-tail h now id row rows e = rw e

-- The first row of the id, after it was written.
find_row-change_first :
    (h : Host) (now : ℕ) (id : Value) (rows : List Value) (row : Fields)
    → find_row id rows ≡ some (obj row)
    → find_row id (change_first id (complete_value h now) rows) ≡ some (obj (complete h now row))
unfolding find_row change_first row_get is_named
find_row-change_first h now id [] row e = absurd (none-some e)
find_row-change_first h now id (first ∷ rows) row e = elim (Bool-cases (is_named id first)) [
  | inl hit ↦
      let is_first = some-injective (sym (find_row-head id first rows hit) ∙ e) in
      let still =
        ap (λ v. py_eq v id) (complete-decision_id h now row)
        ∙ ap (is_named id) (sym is_first)
        ∙ hit in
      ap (find_row id) (change_first-head h now id first rows hit)
      ∙ ap (λ v. find_row id (complete_value h now v ∷ rows)) is_first
      ∙ find_row-head id (obj (complete h now row)) rows still
  | inr miss ↦
      let rest =
        find_row-change_first h now id rows row (sym (find_row-tail id first rows miss) ∙ e) in
      ap (find_row id) (change_first-tail h now id first rows miss)
      ∙ find_row-tail id first (change_first id (complete_value h now) rows) miss
      ∙ rest
]

check_rows-rows :
    (file : Fields) (o : Option (List Value)) {store : Fields × List Value}
    → check_rows file o ≡ ok store
    → o ≡ some store.1
unfolding check_rows
check_rows-rows file none s = cc
check_rows-rows file (some rows) s =
    let (u, e1, e2) =
      >>=-eq-ok
        (refuse (not (all is_decision rows)) ".sddgov/decisions.json has an invalid contract")
        (λ _. ok (file, rows)) s in
    ap (λ x. some x.1) (ok-injective e2)

-- The rows of a store that is read are those that were written.
load_decisions-rows :
    (file : Fields) {store : Fields × List Value}
    → load_decisions (obj file) ≡ ok store
    → as_rows (get "decisions" file) ≡ some store.1
unfolding load_decisions
load_decisions-rows file s =
    let (u, e1, e2) =
      >>=-eq-ok
        (refuse
          (not (eq_str (get "schema_version" file) "1.0")
            || not (has_exactly ("schema_version" ∷ "decisions" ∷ []) file))
          ".sddgov/decisions.json has an invalid contract")
        (λ _. check_rows file (as_rows (get "decisions" file))) s in
    check_rows-rows file (as_rows (get "decisions" file)) e2

is_fresh-unconsumed :
    (h : Host) (now : ℕ) (row : Fields) (operation_id : Value)
    → is_fresh h now row operation_id ≡ true
    → is_null (get "consumed_at" row) ≡ true
unfolding is_fresh
is_fresh-unconsumed h now row operation_id e =
    let (a, b) = both _ _ e in let (a', b') = both _ _ a in b'

obj-injective : {d e : Fields} → obj d ≡ obj e → d ≡ e
obj-injective e = cc

-- A row that was found by the same id where an approval was used is the consumed one.
spent-row :
    (h : Host) (now : ℕ) (id : Value) (file : Fields) (rows : List Value) (row : Fields)
    (p : Project) {file' : Fields} {rows' : List Value}
    → find_row id rows ≡ some (obj row)
    → decision_store (spent h now id file rows p) ≡ ok (file', rows')
    → find_row id rows' ≡ some (obj (complete h now row))
unfolding decision_store
spent-row h now id file rows row p found store =
    let written = change_first id (complete_value h now) rows in
    let read = load_decisions-rows (put "decisions" (arr (of_list written)) file) store in
    let same = ap as_rows (sym (get-put_self "decisions" (arr (of_list written)) file)) ∙ read in
    ap (find_row id) (some-injective (sym same) ∙ to_list-of_list written)
    ∙ find_row-change_first h now id rows row found

-- An approval that was used is not used again: on the project that it left, no later call with
-- the same id is approved, whatever the time, the operation, the payload and the answers of the
-- control plane.
pub consume_operation-once :
    (h : Host) (c d : Control) (now later : ℕ)
    (id operation_id operation_id' payload payload' : Value) (p : Project) {q r : Project}
    {result again : Fields}
    → consume_operation h c now id operation_id payload p ≡ (ok (approved result), q)
    → consume_operation h d later id operation_id' payload' q ≢ (ok (approved again), r)
consume_operation-once h c d now later id operation_id operation_id' payload payload' p e e' =
    let one = consume_operation-approved h c now id operation_id payload p e in
    let two = consume_operation-approved h d later id operation_id' payload' _ e' in
    let found =
      spent-row h now id one.file one.rows one.row p one.found
        (ap decision_store (sym one.written) ∙ two.store) in
    let same = obj-injective (some-injective (sym two.found ∙ found)) in
    let consumed = ap (get "consumed_at") same ∙ complete-consumed_at h now one.row in
    absurd (
      false≢true
        (sym (ap is_null consumed) ∙ is_fresh-unconsumed h later two.row operation_id' two.fresh))
