-- ===== src/Reviewer/Bound.antt =====
-- src/sddgov/reviewer.py: what a receipt that is signed is bound to.
use agentic_sdd_governance.Base.{
  ℕ, ◌*◌, ◌≤◌, ◌≡◌, refl, sym, String, true, false, not, some, List, [], ◌∷◌, keep, arith, ltb,
  if◌then◌else◌, Result, ok, err, os_error, value_error, ok-injective, refuse, refuse-eq-ok,
  Ensures, Ensures-bind, Ensures-eq-ok,
}
use Prim.Native.Nat.{◌^◌}
use agentic_sdd_governance.Python.Value.{str, obj, Fields, get, eq_str}
use agentic_sdd_governance.Python.Equality.{py_eq}
use agentic_sdd_governance.Python.Laws.{eq_str-eq}
use agentic_sdd_governance.Python.Str.{join}
use agentic_sdd_governance.MergeGate.Review.{rows_of, is_active_reviewer}
use agentic_sdd_governance.MergeGate.Signed.{sole-eq-ok}
use agentic_sdd_governance.MergeGate.Verify.{World}
use agentic_sdd_governance.MergeGate.GateFile.{passed}
use agentic_sdd_governance.Reviewer.Sign.{
  Key, public_record, safe_id, Binding, inside_root, review_binding, check_key, key_mismatch, Hours,
  nan, infinite, not_positive, hours, is_out_of_range, duration, new_review, new_envelope, Signing,
  inside_repository, required_base, first_look, sign_binding, sign_protected_review,
}
use agentic_sdd_governance.Reviewer.GateBinding.{
  IsBound, review_binding-IsBound, required_base-eq-ok,
}

-- The reviewer's key is that of the only active record of this name in the store.
pub record IsTrusted (reviewer_id : String) (key : Key) (trust : Fields) : Type 0 where
  pub row : Fields
  pub only :
      keep (is_active_reviewer (str reviewer_id)) (rows_of (get "reviewers" trust)) ≡ obj row ∷ []
  pub same : py_eq (obj row) (obj (public_record reviewer_id key)) ≡ true

key_of_sole :
    (reviewer_id : String) (key : Key) (r : Result Fields) {u : Unit {0}}
    → elim r [
      | ok row ↦ refuse (not (py_eq (obj row) (obj (public_record reviewer_id key)))) key_mismatch
      | err e ↦ err (value_error key_mismatch)
    ]
      ≡ ok u
    → (row : Fields) × (r ≡ ok row) × (py_eq (obj row) (obj (public_record reviewer_id key)) ≡ true)
key_of_sole reviewer_id key (ok row) h = (row, refl, passed _ _ h)
key_of_sole reviewer_id key (err e) h = cc

check_key-eq-ok :
    (reviewer_id : String) (key : Key) (trust : Fields) {u : Unit {0}}
    → check_key reviewer_id key trust ≡ ok u
    → IsTrusted reviewer_id key trust
unfolding check_key
check_key-eq-ok reviewer_id key trust h =
    let (row, one, same) = key_of_sole reviewer_id key _ h in
    record { row = row; only = sole-eq-ok _ one; same = same }

-- A validity of more than no hours and a day at most.
abbrev pub IsInRange : (ℕ → ℕ → ℕ) → Hours → ℕ → Type 0
IsInRange timedelta valid_hours valid =
    (m k : ℕ) × (valid_hours ≡ hours m k) × (m ≤ 24 * 2 ^ k) × (valid ≡ timedelta m k)

not_above : (m n : ℕ) → ltb n m ≡ false → m ≤ n
not_above m n h = ground arith

duration-IsInRange :
    (timedelta : ℕ → ℕ → ℕ) (valid_hours : Hours) {valid : ℕ}
    → is_out_of_range valid_hours ≡ false
    → duration timedelta valid_hours ≡ ok valid
    → IsInRange timedelta valid_hours valid
unfolding is_out_of_range duration
duration-IsInRange timedelta nan h e = cc
duration-IsInRange timedelta infinite h e = cc
duration-IsInRange timedelta not_positive h e = cc
duration-IsInRange timedelta (hours m k) h e =
    (m, k, refl, not_above m (24 * 2 ^ k) h, sym (ok-injective e))

-- What holds wherever the first property does.
Ensures-map {ℓ κ μ} :
    {A : Type ℓ} (P : A → Type κ) (Q : A → Type μ) (r : Result A)
    → Ensures P r
    → ((a : A) → P a → Q a)
    → Ensures Q r
Ensures-map P Q (ok a) h k = k a h
Ensures-map P Q (err e) h k = tt

-- What is signed for this reviewer, with this key, once the key and the output have been checked.
pub record IsReceipt (w : World) (isoformat : ℕ → String) (timedelta : ℕ → ℕ → ℕ)
    (request : Signing) (reviewer_id review_id : String) (key : Key) (output : List String)
    (envelope : Fields) : Type 0 where
  pub base_ref : String
  pub on_base : request.base_ref ≡ some base_ref
  pub gate_path : List String
  pub at_path : request.gate_path ≡ some gate_path
  pub binding : Binding
  pub bound : IsBound w base_ref gate_path binding
  pub independent : eq_str (get "builder_id" binding.gate) reviewer_id ≡ false
  pub declared : get "protected_file_review" binding.gate ≡ str (join "/" output)
  pub valid : ℕ
  pub lasts : duration timedelta request.valid_hours ≡ ok valid
  pub is_new :
      envelope
      ≡ new_envelope w.signatures.canonical key
          (new_review isoformat review_id reviewer_id request.nonce binding w.now valid)

-- A receipt for a change by somebody else, which was asked for as an approval.
pub record IsIssued (w : World) (isoformat : ℕ → String) (timedelta : ℕ → ℕ → ℕ)
    (own_key : Result Key) (own_trust : Result Fields) (request : Signing) (envelope : Fields)
    : Type 0 where
  pub reviewer_id : String
  pub named : safe_id request.reviewer_id "reviewer_id" ≡ ok reviewer_id
  pub review_id : String
  pub numbered : safe_id request.review_id "review_id" ≡ ok review_id
  pub asked : request.approved ≡ true
  pub key : Key
  pub own : own_key ≡ ok key
  pub trust : Fields
  pub stored : own_trust ≡ ok trust
  pub trusted : IsTrusted reviewer_id key trust
  pub output : List String
  pub into : inside_repository request.output ≡ ok output
  pub receipt : IsReceipt w isoformat timedelta request reviewer_id review_id key output envelope
  pub in_range : IsInRange timedelta request.valid_hours receipt.valid

module _ (w : World) (isoformat : ℕ → String) (timedelta : ℕ → ℕ → ℕ) (request : Signing) where
  sign_binding-IsReceipt :
      (reviewer_id review_id : String) (key : Key) (output : List String)
      → Ensures
          (IsReceipt w isoformat timedelta request reviewer_id review_id key output)
          (sign_binding w isoformat timedelta request reviewer_id review_id key output)
  unfolding sign_binding
  sign_binding-IsReceipt reviewer_id review_id key output =
      let P = IsReceipt w isoformat timedelta request reviewer_id review_id key output in
      Ensures-bind P (required_base request.base_ref) _ (λ base_ref b.
        Ensures-bind P (review_binding w base_ref request.gate_path) _ (λ binding made.
          let is_other = eq_str (get "builder_id" binding.gate) reviewer_id in
          let is_declared = eq_str (get "protected_file_review" binding.gate) (join "/" output) in
          Ensures-bind P (refuse is_other "reviewer must be independent of the Builder") _
            (λ _ other.
              Ensures-bind P
                (refuse (not is_declared)
                  "review receipt output does not match merge gate protected_file_review")
                _
                (λ _ same. Ensures-bind P (duration timedelta request.valid_hours) _ (λ valid lasts.
                  let (gate_path, at_path, bound) =
                    Ensures-eq-ok _ _ (review_binding-IsBound w base_ref request.gate_path) made in
                  record {
                    base_ref = base_ref;
                    on_base = required_base-eq-ok request.base_ref b;
                    gate_path = gate_path;
                    at_path = at_path;
                    binding = binding;
                    bound = bound;
                    independent = refuse-eq-ok is_other _ other;
                    declared =
                        eq_str-eq (get "protected_file_review" binding.gate) (join "/" output)
                          (passed is_declared _ same);
                    valid = valid;
                    lasts = lasts;
                    is_new = refl;
                  })))))

module _ (w : World) (isoformat : ℕ → String) (timedelta : ℕ → ℕ → ℕ) (own_key : Result Key)
    (own_trust : Result Fields) (request : Signing) where
  -- What `sign_protected_review` signs is asked for as an approval, for a day at most; the key is
  -- that of the only active record of the reviewer in the store; the payload names this reviewer,
  -- who is not the builder of the gate file; and it is bound to the gate file at the requested path,
  -- in a clean worktree, of the requested base and the exact change, with only audit paths changed
  -- on any edge between the head that the file names and the current one; and the receipt is to be
  -- written where the file declares it.
  pub sign_protected_review-IsIssued :
      Ensures
        (IsIssued w isoformat timedelta own_key own_trust request)
        (sign_protected_review w isoformat timedelta own_key own_trust request)
  unfolding sign_protected_review
  sign_protected_review-IsIssued =
      let P = IsIssued w isoformat timedelta own_key own_trust request in
      Ensures-bind P (safe_id request.reviewer_id "reviewer_id") _ (λ reviewer_id named.
        Ensures-bind P (safe_id request.review_id "review_id") _ (λ review_id numbered.
          Ensures-bind P
            (refuse (not request.approved) "review receipt requires an explicit approved verdict") _
            (λ _ asked.
              Ensures-bind P
                (refuse (is_out_of_range request.valid_hours)
                  "review receipt validity must be greater than 0 and at most 24 hours")
                _
                (λ _ time. Ensures-bind P (inside_root request.gate_path) _ (λ preliminary _.
                  Ensures-bind P (first_look reviewer_id (w.load preliminary)) _ (λ _ _.
                    Ensures-bind P own_key _ (λ key own. Ensures-bind P own_trust _ (λ trust stored.
                      Ensures-bind P (check_key reviewer_id key trust) _ (λ _ checked.
                        Ensures-bind P
                          (refuse request.output_is_symlink
                            "review receipt must not be a symbolic link")
                          _
                          (λ _ _.
                            Ensures-bind P (inside_repository request.output) _ (λ output into.
                              Ensures-bind P
                                (if request.output_exists
                                  then err (os_error "refusing to overwrite review receipt")
                                  else ok tt)
                                _
                                (λ _ _.
                                  Ensures-map
                                    (IsReceipt w isoformat timedelta request reviewer_id review_id
                                      key output)
                                    P
                                    (sign_binding w isoformat timedelta request reviewer_id
                                      review_id key output)
                                    (sign_binding-IsReceipt w isoformat timedelta request
                                      reviewer_id review_id key output)
                                    (λ envelope receipt. record {
                                      reviewer_id = reviewer_id;
                                      named = named;
                                      review_id = review_id;
                                      numbered = numbered;
                                      asked = passed request.approved _ asked;
                                      key = key;
                                      own = own;
                                      trust = trust;
                                      stored = stored;
                                      trusted = check_key-eq-ok reviewer_id key trust checked;
                                      output = output;
                                      into = into;
                                      receipt = receipt;
                                      in_range =
                                          duration-IsInRange timedelta request.valid_hours
                                            (refuse-eq-ok (is_out_of_range request.valid_hours) _
                                              time)
                                            receipt.lasts;
                                    })))))))))))))
