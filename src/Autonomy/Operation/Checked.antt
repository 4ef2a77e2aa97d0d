-- ===== src/Autonomy/Operation/Checked.antt =====
-- src/sddgov/autonomy.py: what `_consume_operation_approval` has compared when it approves.
use agentic_sdd_governance.Base.{
  ℕ, ◌<◌, ◌≡◌, refl, ap, ◌∙◌, String, Bool, true, false, Option, none, some, List, Result, ok, err,
  value_error, os_error, type_error, key_error, attribute_error, file_not_found, both, ltb, ltb→lt,
  if◌then◌else◌,
}
use agentic_sdd_governance.Python.Value.{
  Value, null, bool, int, float, str, arr, obj, Fields, end, field, get, put, is_null, eq_str,
}
use agentic_sdd_governance.Python.Equality.{py_eq}
use agentic_sdd_governance.Python.Laws.{eq_str-eq}
use agentic_sdd_governance.Host.{Host, DateTime, replace_z}
use agentic_sdd_governance.Governance.Project.{Project}
use agentic_sdd_governance.Governance.Actions.Row.{row_time}
use agentic_sdd_governance.Autonomy.Payload.{validate_payload}
use agentic_sdd_governance.Autonomy.Decisions.{decision_store, find_row}
use agentic_sdd_governance.Autonomy.Operation.{
  Verified, Control, approved, is_after, is_fresh, matches_context, check_context, is_signed_row,
  complete, consume_operation,
}
use agentic_sdd_governance.Autonomy.Operation.Approved.{spent, consume_operation-approved}

-- The recorded decision is an approved one of the highest risk, for this operation, not consumed,
-- and expires later than now, at a time with a zone.
pub record IsOpen (h : Host) (now : ℕ) (row : Fields) (operation_id : Value) : Type 0 where
  pub level : get "risk_level" row ≡ str "L3"
  pub status : get "status" row ≡ str "approved"
  pub operation : py_eq (get "operation_id" row) operation_id ≡ true
  pub unconsumed : is_null (get "consumed_at" row) ≡ true
  pub written : String
  pub expires_at : get "expires_at" row ≡ str written
  pub expiry : DateTime
  pub read : h.fromisoformat (replace_z written) ≡ some expiry
  pub zoned : expiry.aware ≡ true
  pub ahead : now < expiry.instant

-- The row has what the receipt signs, field by field, and the digests of the verified receipt.
pub record IsSigned (row : Fields) (v : Verified) : Type 0 where
  pub approval : py_eq (get "decision_id" row) (get "approval_id" v.receipt) ≡ true
  pub summary : py_eq (get "summary" row) (get "summary" v.receipt) ≡ true
  pub scope : py_eq (get "scope" row) (get "scope" v.receipt) ≡ true
  pub operation : py_eq (get "operation_id" row) (get "operation_id" v.receipt) ≡ true
  pub approver : py_eq (get "approved_by" row) (get "approved_by" v.receipt) ≡ true
  pub expiry : py_eq (get "expires_at" row) (get "expires_at" v.receipt) ≡ true
  pub nonce : py_eq (get "approval_nonce" row) (get "nonce" v.receipt) ≡ true
  pub receipt : get "receipt_sha256" row ≡ str v.receipt_sha256
  pub payload : get "operation_payload_sha256" row ≡ str v.payload_sha256
  pub algorithm : get "signature_algorithm" row ≡ str "ed25519"

-- The payload has every field of the runtime context, with an equal value.
abbrev pub Agrees : Fields → Fields → Type 0
Agrees payload end = Unit
Agrees payload (field name v context) = (py_eq (get name payload) v ≡ true) × Agrees payload context

-- The payload is valid, with this digest, and belongs to this runtime.
pub record IsOfRuntime (h : Host) (c : Control) (payload : Value) (digest : String) : Type 0 where
  pub fields : Fields
  pub is_dict : payload ≡ obj fields
  pub valid : validate_payload h payload ≡ ok digest
  pub context : Fields
  pub known : c.context ≡ ok context
  pub agrees : Agrees fields context

-- What has been compared when an approval is given, and what is written.
pub record IsChecked (h : Host) (c : Control) (now : ℕ) (id operation_id payload : Value)
    (p q : Project) (result : Fields) : Type 0 where
  pub file : Fields
  pub rows : List Value
  pub row : Fields
  pub verified : Verified
  pub store : decision_store p ≡ ok (file, rows)
  pub found : find_row id rows ≡ some (obj row)
  pub unused : IsOpen h now row operation_id
  pub receipt : c.verify_operation (get "approval_envelope" row) ≡ ok verified
  pub signed : IsSigned row verified
  pub exact : IsOfRuntime h c payload verified.payload_sha256
  pub nonce :
      c.consume_nonce (get "nonce" verified.receipt) verified.receipt_sha256 verified.payload_sha256
      ≡ true
  pub completed :
      result ≡ put "status" (str "completed") (put "consumed_at" (str (h.stamp now)) row)
  pub written : q ≡ spent h now id file rows p

-- A time that is ahead was written as a text that reads as one.
IsAhead : Host → ℕ → Value → Type 0
IsAhead h now v =
    (written : String) × (expiry : DateTime) × (v ≡ str written)
    × (h.fromisoformat (replace_z written) ≡ some expiry)
    × (expiry.aware ≡ true)
    × (now < expiry.instant)

is_after-cases :
    (now : ℕ) (o : Option DateTime)
    → is_after now o ≡ true
    → (t : DateTime) × (o ≡ some t) × (t.aware ≡ true) × (now < t.instant)
unfolding is_after
is_after-cases now none h = cc
is_after-cases now (some t) h =
    let (zoned, later) = both t.aware (ltb now t.instant) h in
    (t, refl, zoned, ltb→lt now t.instant later)

is_after-IsAhead :
    (h : Host) (now : ℕ) (v : Value) → is_after now (row_time h v) ≡ true → IsAhead h now v
unfolding row_time is_after IsAhead
is_after-IsAhead h now null e = cc
is_after-IsAhead h now (bool b) e = cc
is_after-IsAhead h now (int n) e = cc
is_after-IsAhead h now (float m k) e = cc
is_after-IsAhead h now (arr items) e = cc
is_after-IsAhead h now (obj d) e = cc
is_after-IsAhead h now (str written) e =
    let (t, read, zoned, later) = is_after-cases now (h.fromisoformat (replace_z written)) e in
    (written, t, refl, read, zoned, later)

is_fresh-IsOpen :
    (h : Host) (now : ℕ) (row : Fields) (operation_id : Value)
    → is_fresh h now row operation_id ≡ true
    → IsOpen h now row operation_id
unfolding is_fresh IsAhead
is_fresh-IsOpen h now row operation_id e =
    let (front, time) = both _ (is_after now (row_time h (get "expires_at" row))) e in
    let (front3, unconsumed) = both _ (is_null (get "consumed_at" row)) front in
    let (front2, operation) = both _ (py_eq (get "operation_id" row) operation_id) front3 in
    let (level, status) =
      both (eq_str (get "risk_level" row) "L3") (eq_str (get "status" row) "approved") front2 in
    let (written, expiry, shown, read, zoned, ahead) =
      is_after-IsAhead h now (get "expires_at" row) time in
    record {
      level = eq_str-eq (get "risk_level" row) "L3" level;
      status = eq_str-eq (get "status" row) "approved" status;
      operation = operation;
      unconsumed = unconsumed;
      written = written;
      expires_at = shown;
      expiry = expiry;
      read = read;
      zoned = zoned;
      ahead = ahead;
    }

is_signed_row-IsSigned : (row : Fields) (v : Verified) → is_signed_row row v ≡ true → IsSigned row v
unfolding is_signed_row
is_signed_row-IsSigned row v e =
    let (front, algorithm) = both _ (eq_str (get "signature_algorithm" row) "ed25519") e in
    let (front2, payload) =
      both _ (eq_str (get "operation_payload_sha256" row) v.payload_sha256) front in
    let (fields, receipt) = both _ (eq_str (get "receipt_sha256" row) v.receipt_sha256) front2 in
    let (approval, r1) =
      both (py_eq (get "decision_id" row) (get "approval_id" v.receipt)) _ fields in
    let (summary, r2) = both (py_eq (get "summary" row) (get "summary" v.receipt)) _ r1 in
    let (scope, r3) = both (py_eq (get "scope" row) (get "scope" v.receipt)) _ r2 in
    let (operation, r4) =
      both (py_eq (get "operation_id" row) (get "operation_id" v.receipt)) _ r3 in
    let (approver, r5) = both (py_eq (get "approved_by" row) (get "approved_by" v.receipt)) _ r4 in
    let (expiry, r6) = both (py_eq (get "expires_at" row) (get "expires_at" v.receipt)) _ r5 in
    let (nonce, _) = both (py_eq (get "approval_nonce" row) (get "nonce" v.receipt)) _ r6 in
    record {
      approval = approval;
      summary = summary;
      scope = scope;
      operation = operation;
      approver = approver;
      expiry = expiry;
      nonce = nonce;
      receipt = eq_str-eq (get "receipt_sha256" row) v.receipt_sha256 receipt;
      payload = eq_str-eq (get "operation_payload_sha256" row) v.payload_sha256 payload;
      algorithm = eq_str-eq (get "signature_algorithm" row) "ed25519" algorithm;
    }

matches_context-Agrees :
    (payload context : Fields) → matches_context payload context ≡ true → Agrees payload context
unfolding matches_context
matches_context-Agrees payload end e = tt
matches_context-Agrees payload (field name v context) e =
    let (same, others) = both (py_eq (get name payload) v) (matches_context payload context) e in
    (same, matches_context-Agrees payload context others)

if-some :
    (b : Bool) (digest : String) {d : String}
    → ok (if b then some digest else none) ≡ ok (some d)
    → (b ≡ true) × (digest ≡ d)
if-some true digest e = (refl, cc)
if-some false digest e = cc

none_given : {A : Type 0} {d : String} → ok none ≡ ok (some d) → A
none_given e = cc

-- The context, where it is known, and the digest, where the payload agrees with it.
context-cases :
    (digest : String) (fields : Fields) (context : Result Fields) {d : String}
    → elim context [
      | ok context ↦ ok (if matches_context fields context then some digest else none)
      | err e ↦ elim e [ value_error m ↦ ok none | other ↦ err other ]
    ]
      ≡ ok (some d)
    → (known : Fields) × (context ≡ ok known) × Agrees fields known × (digest ≡ d)
context-cases digest fields (ok known) e =
    let (agrees, same) = if-some (matches_context fields known) digest e in
    (known, refl, matches_context-Agrees fields known agrees, same)
context-cases digest fields (err (value_error m)) e = cc
context-cases digest fields (err (os_error m)) e = cc
context-cases digest fields (err type_error) e = cc
context-cases digest fields (err key_error) e = cc
context-cases digest fields (err attribute_error) e = cc
context-cases digest fields (err file_not_found) e = cc

valid-cases :
    (h : Host) (c : Control) (fields : Fields) (valid : Result String) {d : String}
    → validate_payload h (obj fields) ≡ valid
    → elim valid [
      | ok digest ↦ elim c.context [
        | ok context ↦ ok (if matches_context fields context then some digest else none)
        | err e ↦ elim e [ value_error m ↦ ok none | other ↦ err other ]
      ]
      | err e ↦ elim e [ value_error m ↦ ok none | other ↦ err other ]
    ]
      ≡ ok (some d)
    → IsOfRuntime h c (obj fields) d
valid-cases h c fields (ok digest) checked e =
    let (context, known, agrees, same) = context-cases digest fields c.context e in
    record {
      fields = fields;
      is_dict = refl;
      valid = checked ∙ ap ok same;
      context = context;
      known = known;
      agrees = agrees;
    }
valid-cases h c fields (err (value_error m)) checked e = cc
valid-cases h c fields (err (os_error m)) checked e = cc
valid-cases h c fields (err type_error) checked e = cc
valid-cases h c fields (err key_error) checked e = cc
valid-cases h c fields (err attribute_error) checked e = cc
valid-cases h c fields (err file_not_found) checked e = cc

check_context-IsOfRuntime :
    (h : Host) (c : Control) (payload : Value) {digest : String}
    → check_context h c payload ≡ ok (some digest)
    → IsOfRuntime h c payload digest
unfolding check_context
check_context-IsOfRuntime h c null e = cc
check_context-IsOfRuntime h c (bool b) e = cc
check_context-IsOfRuntime h c (int n) e = cc
check_context-IsOfRuntime h c (float m k) e = cc
check_context-IsOfRuntime h c (str s) e = cc
check_context-IsOfRuntime h c (arr items) e = cc
check_context-IsOfRuntime h c (obj fields) e =
    valid-cases h c fields (validate_payload h (obj fields)) refl e

-- An approval is given only where all of this holds: the first row of this id is an approved
-- decision of level L3 for this operation, is not consumed, and expires later than now, at a time
-- with a zone; its envelope is verified, and the row has the seven signed fields of the receipt,
-- its digest and that of its payload; the payload is valid, has the signed digest, and has every
-- field of the runtime context with an equal value; and the broker has consumed the nonce just now.
-- The row is then given back and written as completed, with the time, and nothing else of the
-- project changes.
pub consume_operation-IsChecked :
    (h : Host) (c : Control) (now : ℕ) (id operation_id payload : Value) (p : Project) {q : Project}
    {result : Fields}
    → consume_operation h c now id operation_id payload p ≡ (ok (approved result), q)
    → IsChecked h c now id operation_id payload p q result
unfolding complete
consume_operation-IsChecked h c now id operation_id payload p e =
    let used = consume_operation-approved h c now id operation_id payload p e in
    record {
      file = used.file;
      rows = used.rows;
      row = used.row;
      verified = used.verified;
      store = used.store;
      found = used.found;
      unused = is_fresh-IsOpen h now used.row operation_id used.fresh;
      receipt = used.receipt;
      signed = is_signed_row-IsSigned used.row used.verified used.signed;
      exact = check_context-IsOfRuntime h c payload used.exact;
      nonce = used.nonce;
      completed = used.completed;
      written = used.written;
    }
