-- ===== src/MergeGate/Signed.antt =====
-- src/sddgov/merge_gate.py: what a review receipt must be to be accepted.
use agentic_sdd_governance.Base.{
  ℕ, refl, sym, ◌∙◌, both, Bool, ◌⊎◌, inl, inr, Option, none, some, keep, ◌+◌, ◌*◌, ◌≤◌, ◌<◌, ◌≡◌,
  ap, String, true, false, not, ◌||◌, List, [], ◌∷◌, any, arith, leb, ltb, ok, err, value_error,
  refuse, >>-eq-ok, refuse-eq-ok, Ensures, Ensures-bind, ok-injective,
}
use agentic_sdd_governance.Python.Value.{
  Value, null, bool, int, float, str, arr, obj, Fields, get, has_exactly, is_text, eq_str,
}
use agentic_sdd_governance.Python.Laws.{eq_str-eq}
use agentic_sdd_governance.Host.{Host}
use agentic_sdd_governance.MergeGate.Paths.{Files, bounded_repository_path}
use agentic_sdd_governance.MergeGate.Reviewers.{is_store}
use agentic_sdd_governance.MergeGate.Review.{
  Loaded, load_json, Signatures, receipt_time, minute, hour, check_envelope, review_fields,
  check_review, check_validity, check_records, sole, rows_of, is_active_reviewer, decoded,
  is_signed, active_rows, check_signer, check_directory, check_contents, verify_review_receipt,
}

-- The row is that of a reviewer of this name, and active.
pub record IsActive (reviewer_id : Value) (row : Fields) : Type 0 where
  pub name : String
  pub asked : reviewer_id ≡ str name
  pub named : get "reviewer_id" row ≡ str name
  pub status : get "status" row ≡ str "active"

-- The signature of the envelope verifies under the key of the row, on the bytes of the payload.
pub record IsSignedBy (s : Signatures) (row envelope review : Fields) : Type 0 where
  pub key_text : String
  pub public_key : get "public_key" row ≡ str key_text
  pub key : List ℕ
  pub decoded_key : s.b64decode key_text ≡ some key
  pub signature_text : String
  pub of_envelope : get "signature" envelope ≡ str signature_text
  pub signature : List ℕ
  pub decoded_signature : s.b64decode signature_text ≡ some signature
  pub verifies : s.verifies key signature (s.canonical review) ≡ true

-- The review is another's approval of this change and of this gate, at this time, signed by the
-- only active reviewer of its name.
pub record IsApproved (h : Host) (s : Signatures) (now : ℕ)
    (builder_id digest metadata_digest : String) (trust review : Fields) : Type 0 where
  pub of_builder : eq_str (get "builder_id" review) builder_id ≡ true
  pub independent : eq_str (get "reviewer_id" review) builder_id ≡ false
  pub of_change : eq_str (get "change_digest" review) digest ≡ true
  pub of_gate : eq_str (get "gate_metadata_digest" review) metadata_digest ≡ true
  pub verdict : eq_str (get "verdict" review) "approved" ≡ true
  pub issued_at : ℕ
  pub expires_at : ℕ
  pub issued : receipt_time h (get "issued_at" review) "issued_at" ≡ ok issued_at
  pub expires : receipt_time h (get "expires_at" review) "expires_at" ≡ ok expires_at
  pub not_early : issued_at ≤ now + 5 * minute
  pub not_late : now < expires_at
  pub lifetime : expires_at ≤ issued_at + 24 * hour
  pub reviewer : Fields
  pub unique : active_rows review trust ≡ obj reviewer ∷ []
  pub active : IsActive (get "reviewer_id" review) reviewer
  pub envelope : Fields
  pub enclosed : get "review" envelope ≡ obj review
  pub signed : IsSignedBy s reviewer envelope review

pub sole-eq-ok : (rows : List Value) {row : Fields} → sole rows ≡ ok row → rows ≡ obj row ∷ []
unfolding sole
sole-eq-ok [] e = cc
sole-eq-ok (null ∷ rows) e = cc
sole-eq-ok (bool b ∷ rows) e = cc
sole-eq-ok (int n ∷ rows) e = cc
sole-eq-ok (float n s ∷ rows) e = cc
sole-eq-ok (str s ∷ rows) e = cc
sole-eq-ok (arr vs ∷ rows) e = cc
sole-eq-ok (obj row ∷ []) e = cc
sole-eq-ok (obj row ∷ other ∷ rows) e = cc

payload-eq-ok :
    (v : Value) {review : Fields}
    → elim v [
      | obj fields ↦ ok fields
      | _ ↦ err (value_error "protected-file review receipt has an invalid contract")
    ]
      ≡ ok review
    → v ≡ obj review
payload-eq-ok null e = cc
payload-eq-ok (bool b) e = cc
payload-eq-ok (int n) e = cc
payload-eq-ok (float n s) e = cc
payload-eq-ok (str s) e = cc
payload-eq-ok (arr vs) e = cc
payload-eq-ok (obj fields) e = ap obj (ok-injective e)

check_envelope-eq-ok :
    (envelope : Fields) {review : Fields}
    → check_envelope envelope ≡ ok review
    → get "review" envelope ≡ obj review
unfolding check_envelope
check_envelope-eq-ok envelope e = payload-eq-ok (get "review" envelope) (>>-eq-ok _ _ _ e).1

check_review-eq-ok :
    (builder_id digest metadata_digest : String) (review : Fields) {u : Unit {0}}
    → check_review builder_id digest metadata_digest review ≡ ok u
    → (eq_str (get "builder_id" review) builder_id ≡ true)
      × (eq_str (get "reviewer_id" review) builder_id ≡ false)
      × (eq_str (get "change_digest" review) digest ≡ true)
      × (eq_str (get "gate_metadata_digest" review) metadata_digest ≡ true)
      × (eq_str (get "verdict" review) "approved" ≡ true)
unfolding check_review
check_review-eq-ok builder_id digest metadata_digest review e =
    let (_, e1) =
      >>-eq-ok
        (not (has_exactly review_fields review)
          || any (λ name. not (is_text (get name review))) review_fields)
        _ _ e in
    let (independent, e2) =
      >>-eq-ok
        (not (eq_str (get "builder_id" review) builder_id)
          || eq_str (get "reviewer_id" review) builder_id)
        _ _ e1 in
    let exact =
      refuse-eq-ok
        (not (eq_str (get "change_digest" review) digest)
          || not (eq_str (get "gate_metadata_digest" review) metadata_digest)
          || not (eq_str (get "verdict" review) "approved"))
        _ e2 in
    (ground arith, ground arith, ground arith, ground arith, ground arith)

check_validity-eq-ok :
    (now issued_at expires_at : ℕ) {u : Unit {0}}
    → check_validity now issued_at expires_at ≡ ok u
    → (issued_at ≤ now + 5 * minute) × (now < expires_at) × (expires_at ≤ issued_at + 24 * hour)
unfolding check_validity
check_validity-eq-ok now issued_at expires_at e =
    let (current, e1) =
      >>-eq-ok (ltb (now + 5 * minute) issued_at || leb expires_at now || leb expires_at issued_at)
        _ _ e in
    let short = refuse-eq-ok (ltb (issued_at + 24 * hour) expires_at) _ e1 in
    (ground arith, ground arith, ground arith)

is_active_reviewer-IsActive :
    (v : Value) (row : Fields) → is_active_reviewer v (obj row) ≡ true → IsActive v row
unfolding is_active_reviewer
is_active_reviewer-IsActive null row e = cc
is_active_reviewer-IsActive (bool b) row e = cc
is_active_reviewer-IsActive (int n) row e = cc
is_active_reviewer-IsActive (float n k) row e = cc
is_active_reviewer-IsActive (arr vs) row e = cc
is_active_reviewer-IsActive (obj d) row e = cc
is_active_reviewer-IsActive (str name) row e =
    let (named, status) =
      both (eq_str (get "reviewer_id" row) name) (eq_str (get "status" row) "active") e in
    record {
      name = name;
      asked = refl;
      named = eq_str-eq (get "reviewer_id" row) name named;
      status = eq_str-eq (get "status" row) "active" status;
    }

cons-injective {ℓ} : {A : Type ℓ} {x y : A} {xs ys : List A} → x ∷ xs ≡ y ∷ ys → x ≡ y
cons-injective h = cc

-- By the test of the first element: it is kept, or it stands among the others.
first_kept {ℓ} :
    {A : Type ℓ} (test : A → Bool) (b : Bool) (y x : A) (rest : List A)
    → test y ≡ b
    → elim b [ true ↦ y ∷ rest | false ↦ rest ] ≡ x ∷ []
    → (test x ≡ true) ⊎ (rest ≡ x ∷ [])
first_kept test true y x rest good h = inl (ap test (sym (cons-injective h)) ∙ good)
first_kept test false y x rest bad h = inr h

kept_one {ℓ} :
    {A : Type ℓ} (test : A → Bool) (xs : List A) (x : A) → keep test xs ≡ x ∷ [] → test x ≡ true
kept_one test [] x h = cc
kept_one test (y ∷ xs) x h = elim (first_kept test (test y) y x (keep test xs) refl h) [
  | inl good ↦ good
  | inr later ↦ kept_one test xs x later
]

decoded-cases :
    (s : Signatures) (v : Value) {bytes : List ℕ}
    → decoded s v ≡ some bytes
    → (text : String) × (v ≡ str text) × (s.b64decode text ≡ some bytes)
unfolding decoded
decoded-cases s null e = cc
decoded-cases s (bool b) e = cc
decoded-cases s (int n) e = cc
decoded-cases s (float n k) e = cc
decoded-cases s (str text) e = (text, refl, e)
decoded-cases s (arr vs) e = cc
decoded-cases s (obj d) e = cc

-- Both are decoded, and the test of the two holds.
two_decoded :
    (a b : Option (List ℕ)) (test : List ℕ → List ℕ → Bool)
    → elim a [
      | none ↦ false
      | some key ↦ elim b [ none ↦ false | some signature ↦ test key signature ]
    ]
      ≡ true
    → (key signature : List ℕ) × (a ≡ some key) × (b ≡ some signature) × (test key signature ≡ true)
two_decoded none b test e = cc
two_decoded (some key) none test e = cc
two_decoded (some key) (some signature) test e = (key, signature, refl, refl, e)

is_signed-IsSignedBy :
    (s : Signatures) (row envelope review : Fields)
    → is_signed s row envelope review ≡ true
    → IsSignedBy s row envelope review
unfolding is_signed
is_signed-IsSignedBy s row envelope review e =
    let (key, signature, k, g, good) =
      two_decoded (decoded s (get "public_key" row)) (decoded s (get "signature" envelope))
        (λ key signature. s.verifies key signature (s.canonical review)) e in
    let (key_text, public_key, decoded_key) = decoded-cases s (get "public_key" row) k in
    let (signature_text, of_envelope, decoded_signature) =
      decoded-cases s (get "signature" envelope) g in
    record {
      key_text = key_text;
      public_key = public_key;
      key = key;
      decoded_key = decoded_key;
      signature_text = signature_text;
      of_envelope = of_envelope;
      signature = signature;
      decoded_signature = decoded_signature;
      verifies = good;
    }

-- What holds of the payload wherever its signer is accepted.
check_signer-Ensures :
    (P : Fields → Type 0) (s : Signatures) (trust envelope review : Fields)
    → ((reviewer : Fields)
        → active_rows review trust ≡ obj reviewer ∷ []
        → is_signed s reviewer envelope review ≡ true
        → P review)
    → Ensures P (check_signer s trust envelope review)
unfolding check_signer
check_signer-Ensures P s trust envelope review k =
    Ensures-bind P (refuse (not (is_store trust)) "trusted reviewer store has an invalid contract")
      _
      (λ _ _. Ensures-bind P (check_records [] (rows_of (get "reviewers" trust))) _ (λ _ _.
        Ensures-bind P (sole (active_rows review trust)) _ (λ reviewer only.
          Ensures-bind P
            (refuse (not (is_signed s reviewer envelope review))
              "protected-file review signature verification failed")
            _
            (λ _ good.
              let passed = refuse-eq-ok _ _ good in
              k reviewer (sole-eq-ok (active_rows review trust) only) (ground arith)))))

module _ (h : Host) (s : Signatures) (files : Files) (load : List String → Loaded) (now : ℕ)
    (builder_id digest metadata_digest : String) (trust : Fields) where
  abbrev Approved : Fields → Type 0
  Approved review = IsApproved h s now builder_id digest metadata_digest trust review

  check_contents-IsApproved :
      (envelope : Fields)
      → Ensures Approved
          (check_contents h s files load now builder_id digest metadata_digest trust envelope)
  unfolding check_contents
  check_contents-IsApproved envelope =
      Ensures-bind Approved (check_envelope envelope) _ (λ review e0.
        Ensures-bind Approved (check_review builder_id digest metadata_digest review) _ (λ _ e1.
          Ensures-bind Approved (receipt_time h (get "issued_at" review) "issued_at") _
            (λ issued_at e2.
              Ensures-bind Approved (receipt_time h (get "expires_at" review) "expires_at") _
                (λ expires_at e3.
                  Ensures-bind Approved (check_validity now issued_at expires_at) _ (λ _ e4.
                    check_signer-Ensures Approved s trust envelope review (λ reviewer only good.
                      let facts = check_review-eq-ok builder_id digest metadata_digest review e1 in
                      let times = check_validity-eq-ok now issued_at expires_at e4 in
                      record {
                        of_builder = facts.0;
                        independent = facts.1;
                        of_change = facts.2;
                        of_gate = facts.3;
                        verdict = facts.4;
                        issued_at = issued_at;
                        expires_at = expires_at;
                        issued = e2;
                        expires = e3;
                        not_early = times.0;
                        not_late = times.1;
                        lifetime = times.2;
                        reviewer = reviewer;
                        unique = only;
                        envelope = envelope;
                        enclosed = check_envelope-eq-ok envelope e0;
                        active = is_active_reviewer-IsActive (get "reviewer_id" review) reviewer (
                            kept_one (is_active_reviewer (get "reviewer_id" review))
                              (rows_of (get "reviewers" trust)) (obj reviewer) only);
                        signed = is_signed-IsSignedBy s reviewer envelope review good;
                      }))))))

  -- The payload of a receipt that is accepted is the approval of exactly this change and this gate,
  -- for this builder, by somebody else; it was issued not more than five minutes ahead, has not
  -- expired, and lives for a day at most; the store has exactly one active record of the reviewer
  -- that it names; and the signature beside it verifies, on the bytes of the payload, under the key of
  -- that record.
  pub verify_review_receipt-IsApproved :
      (relative : Value)
      → Ensures Approved (
          verify_review_receipt h s files load now relative builder_id digest metadata_digest trust)
  unfolding verify_review_receipt
  verify_review_receipt-IsApproved relative =
      Ensures-bind Approved (bounded_repository_path files relative "review receipt") _ (λ path _.
        Ensures-bind Approved (check_directory path) _ (λ inside _.
          Ensures-bind Approved (load_json (load inside) "protected-file review receipt") _
            (λ envelope _. check_contents-IsApproved envelope)))
