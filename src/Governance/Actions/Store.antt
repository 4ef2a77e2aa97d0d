-- ===== src/Governance/Actions/Store.antt =====
-- src/sddgov/governance.py: `_load_external_action_store`, and what every operation does with the
-- rows before it changes one.
use agentic_sdd_governance.Base.{
  String, Bool, not, ◌&&◌, Option, none, some, List, [], ◌∷◌, Result, ok, err, value_error, ◌>>=◌,
  ◌>>◌, refuse, if◌then◌else◌,
}
use agentic_sdd_governance.Python.Value.{
  Value, null, str, arr, obj, nil, Fields, end, field, get, put, has_exactly, to_list, of_list,
  eq_str,
}
use agentic_sdd_governance.Python.Equality.{py_eq}
use agentic_sdd_governance.Host.{Host}
use agentic_sdd_governance.Governance.Actions.Row.{validate_row}

abbrev pub empty_store : String → Fields
empty_store version = field "schema_version" (str version) (field "actions" (arr nil) end)

-- `data["actions"]` once it is known to be a list; `none` where it is none.
abbrev pub as_rows : Value → Option (List Value)
as_rows (arr rows) = some (to_list rows)
as_rows _ = none

-- The store is its dict and its rows.
abbrev pub Loaded : Type 0
Loaded = Fields × List Value

unfoldable pub check_store : Fields → Option (List Value) → Result Loaded
unfolding has_exactly
check_store file (some rows) =
    refuse
      (not (
        has_exactly ("schema_version" ∷ "actions" ∷ []) file
        && eq_str (get "schema_version" file) "1.1"))
      "external action store has an invalid contract"
    >> ok (file, rows)
check_store file none = err (value_error "external action store has an invalid contract")

-- `_load_external_action_store`, on the value that was read.
unfoldable pub load_store : Value → Result Loaded
unfolding check_store
load_store (obj file) =
    if py_eq (obj file) (obj (empty_store "1.0"))
    then ok (empty_store "1.1", [])
    else if eq_str (get "schema_version" file) "1.0"
    then err (
        value_error
          "legacy external action store 1.0 cannot be migrated automatically; archive it and re-queue each exact bounded action")
    else check_store file (as_rows (get "actions" file))
load_store _ = err (value_error "external action store has an invalid contract")

-- `[(_validate_external_action_row(row), row) for row in data["actions"]]`; the rows themselves
-- are at hand, so only the risk levels are returned.
unfoldable pub validate_rows : Host → List Value → Result (List Value)
validate_rows h [] = ok []
validate_rows h (row ∷ rows) = do
  risk ← validate_row h row
  risks ← validate_rows h rows
  ok (risk ∷ risks)

-- `row.get(k)` of a row that is a dict.
unfoldable pub row_get : String → Value → Value
row_get k (obj row) = get k row
row_get k _ = null

-- `[row for row in rows if row.get("action_id") == action_id]`
abbrev pub named : String → Value → Bool
named action_id row = eq_str (row_get "action_id" row) action_id

-- The rows with the one that has this id changed: Python changes the dict in place.
unfoldable pub change_row : String → (Value → Value) → List Value → List Value
change_row action_id f [] = []
change_row action_id f (row ∷ rows) =
    (if named action_id row then f row else row) ∷ change_row action_id f rows

-- `row[k] = v`
unfoldable pub set_field : String → Value → Value → Value
set_field k v (obj row) = obj (put k v row)
set_field k v w = w

-- The content of the file after `data["actions"]` was changed.
abbrev pub with_rows : Fields → List Value → Value
with_rows file rows = obj (put "actions" (arr (of_list rows)) file)
