-- ===== src/Autonomy/Operation.antt =====
-- src/sddgov/autonomy.py: `_consume_operation_approval` and `_l3_approval_is_fresh`.
pub mod Approved
pub mod Once
pub mod Checked
use agentic_sdd_governance.Base.{
  ℕ, String, Bool, true, false, not, ◌&&◌, ◌||◌, Option, none, some, List, [], ◌∷◌, any, all, ltb,
  Result, ok, err, value_error, Exec, after, ◌>>=◌, ◌>>◌, refuse, if◌then◌else◌, ◌==◌,
}
use agentic_sdd_governance.Python.Value.{
  Value, null, str, arr, obj, Fields, field, end, get, put, is_null, eq_str, of_list,
}
use agentic_sdd_governance.Python.Equality.{py_eq}
use agentic_sdd_governance.Host.{Host, DateTime}
use agentic_sdd_governance.Governance.Project.{Project}
use agentic_sdd_governance.Governance.Actions.Row.{row_time}
use agentic_sdd_governance.Governance.Actions.Store.{row_get, set_field}
use agentic_sdd_governance.Autonomy.Payload.{validate_payload}
use agentic_sdd_governance.Autonomy.Decisions.{decision_store, find_row}

-- A verified operation receipt, its digest, and the digest of its payload.
pub record Verified : Type 0 where
  pub receipt : Fields
  pub receipt_sha256 : String
  pub payload_sha256 : String

-- The control plane outside the project: the runtime context, the check of a signed envelope, and
-- the nonce broker. `consume_nonce` is true if the broker has consumed this nonce just now.
pub record Control : Type 0 where
  pub context : Result Fields
  pub verify_operation : Value → Result Verified
  pub consume_nonce : Value → String → String → Bool

-- What the call returns.
pub data Consumption : Type 0 where
  unavailable : Consumption
  context_blocked : Consumption
  control_blocked : Consumption
  approved : Fields → Consumption

is_after : ℕ → Option DateTime → Bool
is_after now none = false
is_after now (some t) = t.aware && ltb now t.instant

-- `_l3_approval_is_fresh`
unfoldable pub is_fresh : Host → ℕ → Fields → Value → Bool
unfolding is_after
is_fresh h now decision operation_id =
    eq_str (get "risk_level" decision) "L3"
    && eq_str (get "status" decision) "approved"
    && py_eq (get "operation_id" decision) operation_id
    && is_null (get "consumed_at" decision)
    && is_after now (row_time h (get "expires_at" decision))

matches_context : Fields → Fields → Bool
matches_context payload end = true
matches_context payload (field k v context) =
    py_eq (get k payload) v && matches_context payload context

-- The digest of a payload that is valid and belongs to this runtime; `none` is a `ValueError`.
unfoldable pub check_context : Host → Control → Value → Result (Option String)
unfolding matches_context
check_context h c (obj payload) = elim (validate_payload h (obj payload)) [
  | ok digest ↦ elim c.context [
    | ok context ↦ ok (if matches_context payload context then some digest else none)
    | err e ↦ elim e [ value_error m ↦ ok none | other ↦ err other ]
  ]
  | err e ↦ elim e [ value_error m ↦ ok none | other ↦ err other ]
]
check_context h c v = ok none

abbrev signed_fields : List (String × String)
signed_fields =
    ("decision_id", "approval_id")
    ∷ ("summary", "summary")
    ∷ ("scope", "scope")
    ∷ ("operation_id", "operation_id")
    ∷ ("approved_by", "approved_by")
    ∷ ("expires_at", "expires_at")
    ∷ ("approval_nonce", "nonce")
    ∷ []

-- The recorded row says what the receipt says.
unfoldable pub is_signed_row : Fields → Verified → Bool
is_signed_row row v =
    all (λ (f, g). py_eq (get f row) (get g v.receipt)) signed_fields
    && eq_str (get "receipt_sha256" row) v.receipt_sha256
    && eq_str (get "operation_payload_sha256" row) v.payload_sha256
    && eq_str (get "signature_algorithm" row) "ed25519"

-- The two assignments to a consumed row.
unfoldable pub complete : Host → ℕ → Fields → Fields
complete h now row = put "status" (str "completed") (put "consumed_at" (str (h.stamp now)) row)

-- The first row that has this id, changed in place.
unfoldable pub change_first : Value → (Value → Value) → List Value → List Value
change_first approval_id f [] = []
change_first approval_id f (row ∷ rows) =
    if py_eq (row_get "decision_id" row) approval_id
    then f row ∷ rows
    else row ∷ change_first approval_id f rows

abbrev pub complete_value : Host → ℕ → Value → Value
complete_value h now (obj row) = obj (complete h now row)
complete_value h now v = v

module _ (h : Host) (c : Control) (now : ℕ) where
  -- The nonce is consumed before the row is written.
  unfoldable pub spend : Value → Verified → Fields × List Value → Fields → Exec Project Consumption
  unfolding complete change_first
  spend approval_id v (file, rows) row p =
      if c.consume_nonce (get "nonce" v.receipt) v.receipt_sha256 v.payload_sha256
      then (
        ok (approved (complete h now row)),
        record p {
          decisions = some (
              obj (
                put "decisions"
                  (arr (of_list (change_first approval_id (complete_value h now) rows))) file));
        },
      )
      else (ok control_blocked, p)

  unfoldable pub check_receipt :
      Value → String → Fields × List Value → Fields → Result Verified → Exec Project Consumption
  unfolding spend is_signed_row
  check_receipt approval_id digest store row (ok v) p =
      if is_signed_row row v && v.payload_sha256 == digest
      then spend approval_id v store row p
      else (ok unavailable, p)
  check_receipt approval_id digest store row (err (value_error m)) p = (ok unavailable, p)
  check_receipt approval_id digest store row (err e) p = (err e, p)

  -- The body of the loop at the row with the approval's id.
  unfoldable pub use_row :
      Value → Value → String → Fields × List Value → Option Value → Exec Project Consumption
  unfolding is_fresh check_receipt
  use_row approval_id operation_id digest store (some (obj row)) p =
      if not (eq_str (get "risk_level" row) "L3")
        || not (py_eq (get "operation_id" row) operation_id)
        || not (is_null (get "consumed_at" row))
        || not (is_fresh h now row operation_id)
      then (ok unavailable, p)
      else check_receipt approval_id digest store row
          (c.verify_operation (get "approval_envelope" row)) p
  use_row approval_id operation_id digest store _ p = (ok unavailable, p)

  unfoldable pub use_store : Value → Value → String → Fields × List Value → Exec Project Consumption
  unfolding use_row
  use_store approval_id operation_id digest store =
      use_row approval_id operation_id digest store (find_row approval_id store.1)

  unfoldable pub use_digest : Value → Value → Option String → Exec Project Consumption
  unfolding use_store
  use_digest approval_id operation_id none p = (ok context_blocked, p)
  use_digest approval_id operation_id (some digest) p =
      after (decision_store p, p) (use_store approval_id operation_id digest)

  -- `_consume_operation_approval`
  unfoldable pub consume_operation : Value → Value → Value → Exec Project Consumption
  unfolding use_digest check_context
  consume_operation approval_id operation_id payload p =
      after (check_context h c payload, p) (use_digest approval_id operation_id)
