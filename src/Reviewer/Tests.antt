-- ===== src/Reviewer/Tests.antt =====
-- A key, and a receipt that it signs.
use agentic_sdd_governance.Governance.Actions.Row.{member}
use agentic_sdd_governance.MergeGate.Reviewers.{is_store}
use Prim.Native.Nat.{◌^◌}
use agentic_sdd_governance.Base.{
  ℕ, zero, suc, ◌-◌, ◌*◌, ◌/◌, ◌≡◌, refl, ap, ◌∙◌, String, true, false, some, List, [], ◌∷◌, arith,
  ok, Ensures, ◌==◌, if◌then◌else◌,
}
use agentic_sdd_governance.Python.Text.{len}
use agentic_sdd_governance.Python.Value.{
  has_exactly, is_text, get, str, arr, obj, nil, cons, Fields, field, end,
}
use agentic_sdd_governance.Python.Str.{strip}
use agentic_sdd_governance.Python.Text.{is_space}
use agentic_sdd_governance.Python.Text.{all_chars}
use agentic_sdd_governance.Python.Str.{join}
use agentic_sdd_governance.Python.Equality.{py_eq}
use agentic_sdd_governance.MergeGate.Review.{check_directory}
use agentic_sdd_governance.MergeGate.Git.{git}
use agentic_sdd_governance.MergeGate.Sample.{find_answer}
use agentic_sdd_governance.MergeGate.Ancestry.{only_audit_changes_after_review}
use agentic_sdd_governance.MergeGate.Git.{is_ancestor}
use agentic_sdd_governance.Python.Str.{splitlines}
use agentic_sdd_governance.Python.Str.{words}
use agentic_sdd_governance.MergeGate.Git.{commit_edge_paths}
use agentic_sdd_governance.MergeGate.Paths.{is_audit_path}
use agentic_sdd_governance.MergeGate.Git.{change_digest}
use agentic_sdd_governance.MergeGate.Verify.{gate_metadata_digest}
use agentic_sdd_governance.Python.Str.{starts_with}
use agentic_sdd_governance.Python.Value.{has}
use agentic_sdd_governance.Host.{Host, replace_z}
use agentic_sdd_governance.MergeGate.Paths.{Files}
use agentic_sdd_governance.MergeGate.Review.{
  is_active_reviewer, check_records, Loaded, unreadable, Signatures, check_contents,
}
use agentic_sdd_governance.Reviewer.Sign.{Key, public_record, Binding, new_review, new_envelope}
use agentic_sdd_governance.MergeGate.Sample.{world, store, gate}
use agentic_sdd_governance.Reviewer.Sign.{hours, Signing, sign_protected_review}
use agentic_sdd_governance.Reviewer.Bound.{IsIssued, sign_protected_review-IsIssued}
use agentic_sdd_governance.Reviewer.Accepted.{IsFaithful, new_envelope-accepted}

-- A clock whose texts are one longer than the instant.
unfoldable text_of : ℕ → String
text_of zero = String.◌∷◌ "t" String.[]
text_of (suc n) = String.◌∷◌ "t" (text_of n)

replace_z-text_of : (t : ℕ) → replace_z (text_of t) ≡ text_of t
unfolding text_of replace_z
replace_z-text_of zero = refl
replace_z-text_of (suc n) = ap (λ s. String.◌∷◌ "t" s) (replace_z-text_of n)

len-text_of : (t : ℕ) → len (text_of t) ≡ suc t
unfolding text_of len
len-text_of zero = refl
len-text_of (suc n) = ap suc (len-text_of n)

abbrev host : Host
host = record {
  fromisoformat = λ text. some (record { aware = true; instant = len text - 1 });
  stamp = λ t. "";
  sha256_json = λ v. "json";
}

abbrev signatures : Signatures
signatures = record {
  b64decode = λ text. some (if text == "key" then 1 ∷ [] else 2 ∷ []);
  canonical = λ payload. 3 ∷ [];
  verifies = λ key signature message. true;
}

abbrev key : Key
key = record { public = "key"; sign = λ message. "signature" }

instant_of : (t : ℕ) → len (replace_z (text_of t)) - 1 ≡ t
instant_of t = let long = ap len (replace_z-text_of t) ∙ len-text_of t in omega arith

faithful : IsFaithful host signatures text_of key
faithful = record {
  reads = λ t. ap (λ n. some (record { aware = true; instant = n })) (instant_of t);
  verifies = λ message. (1 ∷ [], 2 ∷ [], refl, refl, refl);
}

abbrev binding : Binding
binding = record {
  gate = field "builder_id" (str "bob") end;
  digest = "digest";
  metadata_digest = "json";
}

abbrev trust : Fields
trust =
    field "schema_version" (str "1.0")
      (field "reviewers" (arr (cons (obj (public_record "rita" key)) nil)) end)

abbrev files : Files
files = record { is_symlink = λ path. false; resolve_parts = λ path. some path }

abbrev load : List String → Loaded
load path = unreadable "no such file"

abbrev review : Fields
review = new_review text_of "1" "rita" "n" binding 0 9

new_envelope-accepted_example :
    check_contents host signatures files load 4 "bob" "digest" "json" trust
      (new_envelope (λ payload. 3 ∷ []) key review)
    ≡ ok review
unfolding get is_text new_review text_of is_store has_exactly check_records public_record member
    is_active_reviewer
new_envelope-accepted_example =
    new_envelope-accepted host signatures files load text_of key faithful "1" "rita" "n" "bob"
      binding 0 9 trust 4 refl refl refl (omega arith) (omega arith) (omega arith) (omega arith)
      refl refl refl

-- An hour is 10 here.
abbrev timedelta : ℕ → ℕ → ℕ
timedelta m k = m * 10 / 2 ^ k

abbrev request : Signing
request = record {
  reviewer_id = "rita";
  review_id = "one";
  approved = true;
  valid_hours = hours 1 1;
  base_ref = some "main";
  gate_path = some (".sddgov" ∷ "merge-gate.json" ∷ []);
  output_is_symlink = false;
  output = some (".sddgov" ∷ "reviews" ∷ "one.json" ∷ []);
  output_exists = false;
  nonce = "n";
}

signs :
    sign_protected_review world text_of timedelta (ok key) (ok store) request
    ≡ ok (
        new_envelope world.signatures.canonical key (
          new_review text_of "one" "rita" "n"
            (record { gate = gate; digest = "digest"; metadata_digest = "json" })
            60
            5))
unfolding strip is_space all_chars len join get py_eq check_directory git find_answer has_exactly
    only_audit_changes_after_review is_ancestor splitlines words commit_edge_paths is_audit_path
    change_digest gate_metadata_digest starts_with has public_record new_review new_envelope
    sign_protected_review text_of
signs = refl

sign_protected_review-IsIssued_example :
    Ensures
      (IsIssued world text_of timedelta (ok key) (ok store) request)
      (sign_protected_review world text_of timedelta (ok key) (ok store) request)
sign_protected_review-IsIssued_example =
    sign_protected_review-IsIssued world text_of timedelta (ok key) (ok store) request
