-- ===== src/MergeGate/Review.antt =====
-- src/sddgov/merge_gate.py: `_verify_review_receipt`. Base64, the canonical bytes and Ed25519 are
-- parameters, and so is the reading of the receipt.
use agentic_sdd_governance.Base.{
  ℕ, ◌+◌, ◌*◌, String, ◌<>◌, Bool, false, not, ◌&&◌, ◌||◌, Option, none, some, List, [], ◌∷◌, any,
  keep, leb, ltb, if◌then◌else◌, ◌==◌, Result, ok, err, value_error, ◌>>=◌, ◌>>◌, refuse,
}
use agentic_sdd_governance.Python.Value.{
  Value, str, arr, obj, to_list, Fields, get, has_exactly, is_text, is_str, is_dict, eq_str,
}
use agentic_sdd_governance.Host.{Host, replace_z, microseconds}
use agentic_sdd_governance.Governance.Actions.Row.{check_member}
use agentic_sdd_governance.MergeGate.Paths.{Files, bounded_repository_path}
use agentic_sdd_governance.MergeGate.Reviewers.{is_store}

-- A file that `_load_json` reads: it cannot be read or is no JSON, it is no UTF-8, or it has a value.
pub data Loaded : Type 0 where
  unreadable undecodable : String → Loaded
  loaded : Value → Loaded

-- `_load_json`
unfoldable pub load_json : Loaded → String → Result Fields
load_json (unreadable detail) label = err (value_error ("invalid " <> label <> ": " <> detail))
load_json (undecodable detail) label = err (value_error detail)
load_json (loaded (obj fields)) label = ok fields
load_json (loaded v) label = err (value_error (label <> " must contain a JSON object"))

-- `base64.b64decode(text, validate=True)`; `_canonical`; and whether a public key is one, and
-- verifies a signature of these bytes.
pub record Signatures : Type 0 where
  pub b64decode : String → Option (List ℕ)
  pub canonical : Fields → List ℕ
  pub verifies : (key signature message : List ℕ) → Bool

-- `_parse_time`
unfoldable pub receipt_time : Host → Value → String → Result ℕ
receipt_time h (str text) name = elim (h.fromisoformat (replace_z text)) [
  | none ↦ err (value_error ("review receipt " <> name <> " must be an RFC3339 timestamp"))
  | some t ↦
      if t.aware
      then ok t.instant
      else err (value_error ("review receipt " <> name <> " must include a timezone"))
]
receipt_time h _ name =
    err (value_error ("review receipt " <> name <> " must be an RFC3339 timestamp"))

abbrev pub minute : ℕ
minute = 60 * microseconds

abbrev pub hour : ℕ
hour = 60 * minute

unfoldable pub check_envelope : Fields → Result Fields
check_envelope envelope =
    let review = get "review" envelope in
    refuse
      (not (
        has_exactly ("schema_version" ∷ "algorithm" ∷ "review" ∷ "signature" ∷ []) envelope
        && eq_str (get "schema_version" envelope) "1.0"
        && eq_str (get "algorithm" envelope) "ed25519"
        && is_dict review
        && is_str (get "signature" envelope)))
      "protected-file review receipt has an invalid contract"
    >> elim review [
      | obj fields ↦ ok fields
      | _ ↦ err (value_error "protected-file review receipt has an invalid contract")
    ]

abbrev pub review_fields : List String
review_fields =
    "review_id" ∷ "reviewer_id" ∷ "builder_id" ∷ "change_digest" ∷ "gate_metadata_digest"
    ∷ "verdict" ∷ "issued_at" ∷ "expires_at" ∷ "nonce" ∷ []

-- The tests of the payload up to the times.
unfoldable pub check_review : String → String → String → Fields → Result (Unit {0})
check_review builder_id digest metadata_digest review = do
  refuse
      (not (has_exactly review_fields review)
        || any (λ name. not (is_text (get name review))) review_fields)
      "protected-file review payload has an invalid contract"
  refuse
      (not (eq_str (get "builder_id" review) builder_id)
        || eq_str (get "reviewer_id" review) builder_id)
      "protected-file review is not independent of the Builder"
  refuse
      (not (eq_str (get "change_digest" review) digest)
        || not (eq_str (get "gate_metadata_digest" review) metadata_digest)
        || not (eq_str (get "verdict" review) "approved"))
      "protected-file review does not approve the exact executable change"

-- The tests of the two times.
unfoldable pub check_validity : ℕ → ℕ → ℕ → Result (Unit {0})
check_validity now issued_at expires_at = do
  refuse (ltb (now + 5 * minute) issued_at || leb expires_at now || leb expires_at issued_at)
      "protected-file review receipt is not currently valid"
  refuse (ltb (issued_at + 24 * hour) expires_at) "protected-file review validity exceeds 24 hours"

abbrev bad_record : String
bad_record = "trusted reviewer record has an invalid contract"

-- The contract of one record of the store, which gives its reviewer.
unfoldable pub check_record : Value → Result String
check_record (obj row) = do
  refuse
      (not (
        has_exactly ("reviewer_id" ∷ "algorithm" ∷ "public_key" ∷ "status" ∷ []) row
        && is_text (get "reviewer_id" row)
        && eq_str (get "algorithm" row) "ed25519"))
      bad_record
  check_member (get "status" row) ("active" ∷ "revoked" ∷ []) bad_record
  refuse (not (is_str (get "public_key" row))) bad_record
  elim (get "reviewer_id" row) [ str name ↦ ok name | _ ↦ err (value_error bad_record) ]
check_record _ = err (value_error bad_record)

-- The loop over the records, with those that are seen.
unfoldable pub check_records : List String → List Value → Result (Unit {0})
unfolding check_record
check_records seen [] = ok tt
check_records seen (row ∷ rows) = check_record row >>= λ name.
    refuse (any (λ other. name == other) seen)
      "trusted reviewer store contains duplicate reviewer_id"
    >> check_records (name ∷ seen) rows

-- A record of the active reviewer of this name.
unfoldable pub is_active_reviewer : Value → Value → Bool
is_active_reviewer (str name) (obj row) =
    eq_str (get "reviewer_id" row) name && eq_str (get "status" row) "active"
is_active_reviewer _ _ = false

-- `matches[0]`, where there is exactly one.
unfoldable pub sole : List Value → Result Fields
sole (obj row ∷ []) = ok row
sole _ = err (value_error "review signer is not a unique active trusted reviewer")

unfoldable pub decoded : Signatures → Value → Option (List ℕ)
decoded s (str text) = s.b64decode text
decoded s _ = none

-- The key of the reviewer, with the signature of the envelope, on the payload.
unfoldable pub is_signed : Signatures → Fields → Fields → Fields → Bool
unfolding decoded
is_signed s reviewer envelope review = elim (decoded s (get "public_key" reviewer)) [
  | none ↦ false
  | some key ↦ elim (decoded s (get "signature" envelope)) [
    | none ↦ false
    | some signature ↦ s.verifies key signature (s.canonical review)
  ]
]

abbrev pub rows_of : Value → List Value
rows_of (arr vs) = to_list vs
rows_of _ = []

-- The active records of the reviewer that the payload names.
abbrev pub active_rows : Fields → Fields → List Value
active_rows review trust =
    keep (is_active_reviewer (get "reviewer_id" review)) (rows_of (get "reviewers" trust))

-- What is left once the payload is read and its times are checked.
unfoldable pub check_signer : Signatures → Fields → Fields → Fields → Result Fields
unfolding is_store check_records is_active_reviewer sole is_signed
check_signer s trust envelope review = do
  refuse (not (is_store trust)) "trusted reviewer store has an invalid contract"
  check_records [] (rows_of (get "reviewers" trust))
  reviewer ← sole (active_rows review trust)
  refuse (not (is_signed s reviewer envelope review))
      "protected-file review signature verification failed"
  ok review

-- A path below `.sddgov/reviews`.
unfoldable pub check_directory : List String → Result (List String)
check_directory (a ∷ b ∷ rest) =
    if a == ".sddgov" && b == "reviews"
    then ok (a ∷ b ∷ rest)
    else err (value_error "review receipt must stay under .sddgov/reviews")
check_directory path = err (value_error "review receipt must stay under .sddgov/reviews")

module _ (h : Host) (s : Signatures) (files : Files) (load : List String → Loaded) (now : ℕ) where
  -- The receipt's contents, once they are read.
  unfoldable pub check_contents : String → String → String → Fields → Fields → Result Fields
  unfolding check_envelope check_review receipt_time check_validity check_signer
  check_contents builder_id digest metadata_digest trust envelope = do
    review ← check_envelope envelope
    check_review builder_id digest metadata_digest review
    issued_at ← receipt_time h (get "issued_at" review) "issued_at"
    expires_at ← receipt_time h (get "expires_at" review) "expires_at"
    check_validity now issued_at expires_at
    check_signer s trust envelope review

  -- `_verify_review_receipt`
  unfoldable pub verify_review_receipt : Value → String → String → String → Fields → Result Fields
  unfolding check_directory load_json check_contents
  verify_review_receipt relative builder_id digest metadata_digest trust = do
    path ← bounded_repository_path files relative "review receipt"
    inside ← check_directory path
    envelope ← load_json (load inside) "protected-file review receipt"
    check_contents builder_id digest metadata_digest trust envelope
