-- ===== src/Reviewer/Accepted.antt =====
-- src/sddgov/reviewer.py and src/sddgov/merge_gate.py: a receipt that is signed, and the gate that reads it.
use agentic_sdd_governance.Base.{
  ℕ, ◌+◌, ◌*◌, ◌≤◌, ◌<◌, ◌≡◌, refl, String, Bool, true, false, not, ◌||◌, some, List, [], ◌∷◌, any,
  arith, ◌==◌, eq_refl, ok, ◌>>◌, refuse,
}
use agentic_sdd_governance.Python.Value.{
  str, obj, Fields, get, has, has_all, has_exactly, keys_within, lookup, is_text, eq_str,
}
use agentic_sdd_governance.Host.{Host, replace_z}
use agentic_sdd_governance.MergeGate.Paths.{Files}
use agentic_sdd_governance.MergeGate.Reviewers.{is_store}
use agentic_sdd_governance.MergeGate.Review.{
  Loaded, Signatures, receipt_time, minute, hour, rows_of, review_fields, check_envelope,
  check_review, check_validity, check_records, sole, decoded, is_signed, active_rows, check_signer,
  check_contents,
}
use agentic_sdd_governance.Reviewer.Sign.{
  Key, public_record, Binding, whole_seconds, new_review, new_envelope,
}

-- The documented behaviour of the clock's texts and of Ed25519 in Base64: a text reads back as its
-- instant, and what a key signs verifies under its public part.
pub record IsFaithful (h : Host) (s : Signatures) (isoformat : ℕ → String) (key : Key)
    : Type 0 where
  pub reads :
      (t : ℕ)
      → h.fromisoformat (replace_z (isoformat t)) ≡ some (record { aware = true; instant = t })
  pub verifies :
      (message : List ℕ)
      → (k signature : List ℕ) × (s.b64decode key.public ≡ some k)
        × (s.b64decode (key.sign message) ≡ some signature)
        × (s.verifies k signature message ≡ true)

checks_pass :
    (a b c : Bool) (l m n : String)
    → a ≡ false
    → b ≡ false
    → c ≡ false
    → (refuse a l >> (refuse b m >> refuse c n)) ≡ ok tt
checks_pass a b c l m n ea eb ec = rw (ea, eb, ec) refl

module _ (h : Host) (s : Signatures) (files : Files) (load : List String → Loaded)
    (isoformat : ℕ → String) (key : Key) (faithful : IsFaithful h s isoformat key) where
  is_signed-new :
      (reviewer_id : String) (review : Fields)
      → is_signed s (public_record reviewer_id key) (new_envelope s.canonical key review) review
        ≡ true
  unfolding is_signed decoded public_record new_envelope get lookup
  is_signed-new reviewer_id review =
      let (k, signature, a, b, c) = faithful.verifies (s.canonical review) in rw (a, b, c) refl

  receipt_time-iso : (t : ℕ) (name : String) → receipt_time h (str (isoformat t)) name ≡ ok t
  unfolding receipt_time
  receipt_time-iso t name = rw (faithful.reads t, receipt_time) refl

  check_validity-now :
      (now issued valid : ℕ)
      → issued ≤ now + 5 * minute
      → now < issued + valid
      → 0 < valid
      → valid ≤ 24 * hour
      → check_validity now issued (issued + valid) ≡ ok tt
  unfolding check_validity
  check_validity-now now issued valid a b c d = ground arith

  check_signer-new :
      (trust : Fields) (reviewer_id : String) (review : Fields)
      → is_store trust ≡ true
      → check_records [] (rows_of (get "reviewers" trust)) ≡ ok tt
      → active_rows review trust ≡ obj (public_record reviewer_id key) ∷ []
      → check_signer s trust (new_envelope s.canonical key review) review ≡ ok review
  unfolding check_signer sole
  check_signer-new trust reviewer_id review a b c =
      rw (a, b, c, is_signed-new reviewer_id review) refl

  check_envelope-new :
      (review : Fields) → check_envelope (new_envelope s.canonical key review) ≡ ok review
  unfolding check_envelope new_envelope get lookup has_exactly keys_within has_all has
  check_envelope-new review = refl

  module _ (review_id reviewer_id nonce builder_id : String) (binding : Binding)
      (signed_at valid : ℕ) where
    abbrev signed : Fields
    signed = new_review isoformat review_id reviewer_id nonce binding signed_at valid

    check_review-new :
        get "builder_id" binding.gate ≡ str builder_id
        → (reviewer_id == builder_id) ≡ false
        → any (λ name. not (is_text (get name signed))) review_fields ≡ false
        → check_review builder_id binding.digest binding.metadata_digest signed ≡ ok tt
    unfolding check_review new_review get lookup has_exactly keys_within has_all has
    check_review-new builder other texts =
        checks_pass
          (not (has_exactly review_fields signed)
            || any (λ name. not (is_text (get name signed))) review_fields)
          (not (eq_str (get "builder_id" binding.gate) builder_id) || reviewer_id == builder_id)
          (not (binding.digest == binding.digest)
            || not (binding.metadata_digest == binding.metadata_digest)
            || false)
          _ _ _ texts (rw (builder, eq_refl builder_id, other) refl)
          (rw (eq_refl binding.digest, eq_refl binding.metadata_digest) refl)

    issued_text : get "issued_at" signed ≡ str (isoformat (whole_seconds signed_at))
    unfolding new_review get lookup
    issued_text = refl

    expires_text : get "expires_at" signed ≡ str (isoformat (whole_seconds signed_at + valid))
    unfolding new_review get lookup
    expires_text = refl

    -- What a reviewer signs, the gate accepts: where the key and the clock behave as documented, the
    -- payload has no blank text, and the reviewer is not the builder of the gate file; where the
    -- store that the gate uses has the record of this key as the only active one of the reviewer;
    -- and where the gate looks at the receipt from five minutes before the whole second of its
    -- signature until it expires: there the checks of the receipt give back exactly the payload.
    pub new_envelope-accepted :
        (trust : Fields) (now : ℕ)
        → get "builder_id" binding.gate ≡ str builder_id
        → (reviewer_id == builder_id) ≡ false
        → any (λ name. not (is_text (get name signed))) review_fields ≡ false
        → whole_seconds signed_at ≤ now + 5 * minute
        → now < whole_seconds signed_at + valid
        → 0 < valid
        → valid ≤ 24 * hour
        → is_store trust ≡ true
        → check_records [] (rows_of (get "reviewers" trust)) ≡ ok tt
        → active_rows signed trust ≡ obj (public_record reviewer_id key) ∷ []
        → check_contents h s files load now builder_id binding.digest binding.metadata_digest trust
            (new_envelope s.canonical key signed)
          ≡ ok signed
    unfolding check_contents
    new_envelope-accepted trust now builder other texts early late some_time day store records
          only =
        let issued = whole_seconds signed_at in
        rw
          (
            check_envelope-new signed,
            check_review-new builder other texts,
            issued_text,
            receipt_time-iso issued "issued_at",
            expires_text,
            receipt_time-iso (issued + valid) "expires_at",
            check_validity-now now issued valid early late some_time day,
          )
          (check_signer-new trust reviewer_id signed store records only)
