-- ===== src/Autonomy/Operation/Approved.antt =====
-- src/sddgov/autonomy.py: what `_consume_operation_approval` has checked when it approves.
use agentic_sdd_governance.Base.{
  ℕ, both, eq_iff, if-then, if-else, Exn, ◌≡◌, refl, sym, ap, ◌∙◌, String, Bool, true, false, not,
  ◌&&◌, ◌||◌, Option, none, some, List, Result, ok, err, value_error, os_error, type_error,
  key_error, attribute_error, file_not_found, arith, ◌==◌, after-eq-ok, Exec,
}
use agentic_sdd_governance.Python.Value.{
  Value, null, bool, int, float, eq_str, str, arr, obj, Fields, get, put, of_list, is_null,
}
use agentic_sdd_governance.Python.Equality.{py_eq}
use agentic_sdd_governance.Host.{Host}
use agentic_sdd_governance.Governance.Project.{Project}
use agentic_sdd_governance.Autonomy.Decisions.{decision_store, find_row}
use agentic_sdd_governance.Autonomy.Operation.{
  Control, Verified, Consumption, unavailable, context_blocked, control_blocked, approved, is_fresh,
  check_context, is_signed_row, complete, complete_value, change_first, spend, check_receipt,
  use_row, use_store, use_digest, consume_operation,
}

-- The project after the row of an approval is consumed.
abbrev pub spent : Host → ℕ → Value → Fields → List Value → Project → Project
spent h now id file rows p = record p {
  decisions =
      some
        (obj (put "decisions" (arr (of_list (change_first id (complete_value h now) rows))) file));
}

-- What holds when an approval is used: the first row with this id is fresh, its envelope is
-- verified, the row says what the receipt says, the payload is the signed one and belongs to this
-- runtime, the nonce is consumed, and the row is written as consumed.
pub record IsUsed (h : Host) (c : Control) (now : ℕ) (id operation_id payload : Value)
    (p q : Project) (result : Fields) : Type 0 where
  pub file : Fields
  pub rows : List Value
  pub row : Fields
  pub verified : Verified
  pub store : decision_store p ≡ ok (file, rows)
  pub found : find_row id rows ≡ some (obj row)
  pub fresh : is_fresh h now row operation_id ≡ true
  pub receipt : c.verify_operation (get "approval_envelope" row) ≡ ok verified
  pub signed : is_signed_row row verified ≡ true
  pub exact : check_context h c payload ≡ ok (some verified.payload_sha256)
  pub nonce :
      c.consume_nonce (get "nonce" verified.receipt) verified.receipt_sha256 verified.payload_sha256
      ≡ true
  pub completed : result ≡ complete h now row
  pub written : q ≡ spent h now id file rows p

blocked-approved : {row : Fields} → ¬ (ok control_blocked ≡ ok (approved row))
blocked-approved h = cc

unavailable-approved : {row : Fields} → ¬ (ok unavailable ≡ ok (approved row))
unavailable-approved h = cc

context-approved : {row : Fields} → ¬ (ok context_blocked ≡ ok (approved row))
context-approved h = cc

err-ok : {A : Type 0} {e : Exn} {a : A} → ¬ (err e ≡ ok a)
err-ok h = cc

approved-injective : {r s : Fields} → ok (approved r) ≡ ok (approved s) → r ≡ s
approved-injective h = cc

last_guard : (a b c d : Bool) → (a || b || c || not d) ≡ false → d ≡ true
last_guard a b c d h = ground arith

module _ (h : Host) (c : Control) (now : ℕ) (id operation_id : Value) where
  abbrev Approves : Exec Project Consumption → Project → Project → Fields → Type 0
  Approves run p q result = run p ≡ (ok (approved result), q)

  spend-cases :
      (v : Verified) (file : Fields) (rows : List Value) (row : Fields) (p : Project) {q : Project}
      {result : Fields}
      → Approves (spend h c now id v (file, rows) row) p q result
      → (c.consume_nonce (get "nonce" v.receipt) v.receipt_sha256 v.payload_sha256 ≡ true)
        × (result ≡ complete h now row)
        × (q ≡ spent h now id file rows p)
  unfolding spend
  spend-cases v file rows row p e =
      let (nonce, e') =
        if-then (c.consume_nonce (get "nonce" v.receipt) v.receipt_sha256 v.payload_sha256)
          (ok (approved (complete h now row)), spent h now id file rows p) (ok control_blocked, p)
          (λ k. blocked-approved (ap (λ x. x.0) k)) e in
      (nonce, approved-injective (ap (λ x. x.0) (sym e')), ap (λ x. x.1) (sym e'))

  check_receipt-cases :
      (digest : String) (file : Fields) (rows : List Value) (row : Fields) (r : Result Verified)
      (p : Project) {q : Project} {result : Fields}
      → Approves (check_receipt h c now id digest (file, rows) row r) p q result
      → (v : Verified) × (r ≡ ok v)
        × (is_signed_row row v ≡ true)
        × (v.payload_sha256 ≡ digest)
        × Approves (spend h c now id v (file, rows) row) p q result
  unfolding check_receipt
  check_receipt-cases digest file rows row (ok v) p e =
      let (guard, e') =
        if-then (is_signed_row row v && v.payload_sha256 == digest)
          (spend h c now id v (file, rows) row p) (ok unavailable, p)
          (λ k. unavailable-approved (ap (λ x. x.0) k)) e in
      let (signed, same) = both (is_signed_row row v) (v.payload_sha256 == digest) guard in
      (v, refl, signed, (eq_iff v.payload_sha256 digest).0 same, e')
  check_receipt-cases digest file rows row (err (value_error m)) p e =
      absurd (unavailable-approved (ap (λ x. x.0) e))
  check_receipt-cases digest file rows row (err (os_error m)) p e =
      absurd (err-ok (ap (λ x. x.0) e))
  check_receipt-cases digest file rows row (err type_error) p e = absurd (err-ok (ap (λ x. x.0) e))
  check_receipt-cases digest file rows row (err key_error) p e = absurd (err-ok (ap (λ x. x.0) e))
  check_receipt-cases digest file rows row (err attribute_error) p e =
      absurd (err-ok (ap (λ x. x.0) e))
  check_receipt-cases digest file rows row (err file_not_found) p e =
      absurd (err-ok (ap (λ x. x.0) e))

  -- The guards of the row, as one test.
  abbrev is_refused : Fields → Bool
  is_refused row =
      not (eq_str (get "risk_level" row) "L3")
      || not (py_eq (get "operation_id" row) operation_id)
      || not (is_null (get "consumed_at" row))
      || not (is_fresh h now row operation_id)

  use_row-cases :
      (digest : String) (file : Fields) (rows : List Value) (found : Option Value) (p : Project)
      {q : Project} {result : Fields}
      → Approves (use_row h c now id operation_id digest (file, rows) found) p q result
      → (row : Fields) × (found ≡ some (obj row))
        × (is_refused row ≡ false)
        × Approves
            (check_receipt h c now id digest
              (file, rows)
              row
              (c.verify_operation (get "approval_envelope" row)))
            p
            q
            result
  unfolding use_row
  use_row-cases digest file rows (some (obj row)) p e =
      let (guard, e') =
        if-else (is_refused row) (ok unavailable, p)
          (check_receipt h c now id digest (file, rows) row
            (c.verify_operation (get "approval_envelope" row)) p)
          (λ k. unavailable-approved (ap (λ x. x.0) k)) e in
      (row, refl, guard, e')
  use_row-cases digest file rows none p e = absurd (unavailable-approved (ap (λ x. x.0) e))
  use_row-cases digest file rows (some null) p e = absurd (unavailable-approved (ap (λ x. x.0) e))
  use_row-cases digest file rows (some (bool b)) p e =
      absurd (unavailable-approved (ap (λ x. x.0) e))
  use_row-cases digest file rows (some (int n)) p e =
      absurd (unavailable-approved (ap (λ x. x.0) e))
  use_row-cases digest file rows (some (float m s)) p e =
      absurd (unavailable-approved (ap (λ x. x.0) e))
  use_row-cases digest file rows (some (str s)) p e =
      absurd (unavailable-approved (ap (λ x. x.0) e))
  use_row-cases digest file rows (some (arr items)) p e =
      absurd (unavailable-approved (ap (λ x. x.0) e))

  use_digest-cases :
      (digest : Option String) (p : Project) {q : Project} {result : Fields}
      → Approves (use_digest h c now id operation_id digest) p q result
      → (d : String) × (file : Fields) × (rows : List Value) × (digest ≡ some d)
        × (decision_store p ≡ ok (file, rows))
        × Approves (use_row h c now id operation_id d (file, rows) (find_row id rows)) p q result
  unfolding use_digest use_store
  use_digest-cases none p e = absurd (context-approved (ap (λ x. x.0) e))
  use_digest-cases (some d) p e =
      let ((file, rows), store, run) =
        after-eq-ok (decision_store p) p (use_store h c now id operation_id d) (ap (λ x. x.0) e) in
      (d, file, rows, refl, store, sym run ∙ e)

-- An approval is given only where everything holds that makes it one: the first row of this id is
-- fresh and not consumed, its envelope is verified and says what the row says, the payload is the
-- signed one and belongs to this runtime, and the broker has consumed the nonce just now. That row
-- is then written as consumed, and nothing else of the project changes.
pub consume_operation-approved :
    (h : Host) (c : Control) (now : ℕ) (id operation_id payload : Value) (p : Project) {q : Project}
    {result : Fields}
    → consume_operation h c now id operation_id payload p ≡ (ok (approved result), q)
    → IsUsed h c now id operation_id payload p q result
unfolding consume_operation
consume_operation-approved h c now id operation_id payload p e =
    let (digest, checked, run) =
      after-eq-ok (check_context h c payload) p (use_digest h c now id operation_id)
        (ap (λ x. x.0) e) in
    let (d, file, rows, some_d, store, by_row) =
      use_digest-cases h c now id operation_id digest p (sym run ∙ e) in
    let (row, found, guard, by_receipt) =
      use_row-cases h c now id operation_id d file rows (find_row id rows) p by_row in
    let (v, receipt, signed, exact, by_nonce) =
      check_receipt-cases h c now id operation_id d file rows row
        (c.verify_operation (get "approval_envelope" row)) p by_receipt in
    let (nonce, completed, written) =
      spend-cases h c now id operation_id v file rows row p by_nonce in
    record {
      file = file;
      rows = rows;
      row = row;
      verified = v;
      store = store;
      found = found;
      fresh =
          last_guard (not (eq_str (get "risk_level" row) "L3"))
            (not (py_eq (get "operation_id" row) operation_id))
            (not (is_null (get "consumed_at" row))) (is_fresh h now row operation_id) guard;
      receipt = receipt;
      signed = signed;
      exact = checked ∙ ap ok (some_d ∙ ap some (sym exact));
      nonce = nonce;
      completed = completed;
      written = written;
    }
