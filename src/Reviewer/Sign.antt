-- ===== src/Reviewer/Sign.antt =====
-- src/sddgov/reviewer.py: `_safe_id`, `_public_record`, `_load_trust`, `_review_binding`, and the
-- receipt of `sign_protected_review`. Keys and the clock are parameters.
use agentic_sdd_governance.Base.{
  ℕ, ◌+◌, ◌*◌, ◌/◌, String, ◌<>◌, Bool, true, false, not, ◌&&◌, ◌||◌, Option, none, some, List, [],
  ◌∷◌, any, keep, os_error, eqb, leb, ltb, if◌then◌else◌, ◌==◌, Result, ok, err, value_error,
  type_error, ◌>>=◌, ◌>>◌, refuse,
}
use Prim.Native.Nat.{◌^◌}
use agentic_sdd_governance.Python.Text.{len, all_chars}
use agentic_sdd_governance.Python.Value.{
  Value, str, obj, Fields, field, end, get, has_exactly, is_text, is_str, eq_str,
}
use agentic_sdd_governance.Python.Equality.{py_eq}
use agentic_sdd_governance.Python.Str.{strip, is_empty, join}
use agentic_sdd_governance.Host.{microseconds}
use agentic_sdd_governance.Governance.Actions.Row.{check_member}
use agentic_sdd_governance.MergeGate.Git.{git, change_digest}
use agentic_sdd_governance.MergeGate.Ancestry.{only_audit_changes_after_review}
use agentic_sdd_governance.MergeGate.Rollback.{text_at}
use agentic_sdd_governance.MergeGate.Reviewers.{is_store}
use agentic_sdd_governance.MergeGate.Review.{
  Loaded, unreadable, undecodable, loaded, rows_of, is_active_reviewer, sole, check_directory,
}
use agentic_sdd_governance.MergeGate.Verify.{World, gate_fields, gate_metadata_digest}

-- A character of an identifier.
unfoldable pub is_safe : ℕ → Bool
is_safe c =
    (leb b'a' c && leb c b'z')
    || (leb b'A' c && leb c b'Z')
    || (leb b'0' c && leb c b'9')
    || (eqb c b'.')
    || (eqb c b'_')
    || (eqb c b'-')

-- `_safe_id`
unfoldable pub safe_id : String → String → Result String
unfolding is_safe
safe_id value label =
    let name = strip value in
    refuse (is_empty name || ltb 128 (len name) || not (all_chars is_safe name))
      (label <> " must use 1-128 letters, numbers, dot, underscore, or hyphen")
    >> ok name

-- A private key: its public part in Base64, and the Base64 of what it signs.
pub record Key : Type 0 where
  pub public : String
  pub sign : List ℕ → String

-- `_public_record`
unfoldable pub public_record : String → Key → Fields
public_record reviewer_id key = field "reviewer_id" (str reviewer_id) (
    field "algorithm" (str "ed25519")
      (field "public_key" (str key.public) (field "status" (str "active") end)))

-- `path.stat()`
pub record Details : Type 0 where
  pub regular : Bool
  pub is_shared : Bool
  pub is_own : Bool
  pub nlink : ℕ

-- The tests of `_load_trust` on the file; `_load_owner_only_private_key` has the same. `none` is
-- an `OSError` of `stat`.
unfoldable pub check_private_file : String → Bool → Option Details → Result (Unit {0})
check_private_file label is_symlink none = do
  refuse is_symlink (label <> " must not be a symbolic link")
  err (value_error (label <> " is unavailable"))
check_private_file label is_symlink (some details) = do
  refuse is_symlink (label <> " must not be a symbolic link")
  refuse (not details.regular) (label <> " must be a regular file")
  refuse details.is_shared (label <> " must have owner-only permissions (0600)")
  refuse (not details.is_own) (label <> " must be owned by the current user")
  refuse (not (eqb details.nlink 1)) (label <> " must not be hard-linked")

abbrev bad_record : String
bad_record = "trusted reviewer store contains an invalid reviewer record"

module _ (is_key : String → Bool) where
  -- One record of the store, whose reviewer is given back; `is_key` is whether a text is the Base64
  -- of a public key.
  unfoldable pub trust_record : List String → Value → Result String
  trust_record seen (obj row) = do
    refuse
        (not (
          has_exactly ("reviewer_id" ∷ "algorithm" ∷ "public_key" ∷ "status" ∷ []) row
          && is_text (get "reviewer_id" row)
          && eq_str (get "algorithm" row) "ed25519"))
        bad_record
    check_member (get "status" row) ("active" ∷ "revoked" ∷ []) bad_record
    refuse (not (is_str (get "public_key" row))) bad_record
    refuse (any (λ other. text_at "reviewer_id" row == other) seen)
        "trusted reviewer store contains duplicate reviewer_id"
    refuse (not (is_key (text_at "public_key" row)))
        "trusted reviewer store contains an invalid public key"
    ok (text_at "reviewer_id" row)
  trust_record seen _ = err (value_error bad_record)

  unfoldable pub trust_records : List String → List Value → Result (Unit {0})
  unfolding trust_record
  trust_records seen [] = ok tt
  trust_records seen (row ∷ rows) =
      trust_record seen row >>= λ name. trust_records (name ∷ seen) rows

  unfoldable pub trust_of : Loaded → Result Fields
  unfolding trust_records
  trust_of (unreadable detail) = err (value_error ("invalid trusted reviewer store: " <> detail))
  trust_of (undecodable detail) = err (value_error detail)
  trust_of (loaded (obj trust)) = do
    refuse (not (is_store trust)) "trusted reviewer store has an invalid contract"
    trust_records [] (rows_of (get "reviewers" trust))
    ok trust
  trust_of (loaded v) = err (value_error "trusted reviewer store has an invalid contract")

  -- `_load_trust`
  unfoldable pub load_trust : Bool → Option Details → Loaded → Result Fields
  unfolding check_private_file trust_of
  load_trust is_symlink details content =
      check_private_file "trusted reviewer store" is_symlink details >> trust_of content

-- What a review is bound to.
pub record Binding : Type 0 where
  pub gate : Fields
  pub digest : String
  pub metadata_digest : String

unfoldable pub read_gate : Loaded → Result Fields
read_gate (unreadable detail) = err (value_error ("invalid merge gate: " <> detail))
read_gate (undecodable detail) = err (value_error detail)
read_gate (loaded (obj gate)) =
    refuse (not (has_exactly gate_fields gate) || not (eq_str (get "schema_version" gate) "1.0"))
      "merge gate has an invalid contract"
    >> ok gate
read_gate (loaded v) = err (value_error "merge gate has an invalid contract")

-- The argument of a command, which has to be a text.
unfoldable pub as_argument : Value → Result String
as_argument (str text) = ok text
as_argument _ = err type_error

-- `(root / gate_path).resolve()` below the root, as the parts that it has there; `none` is outside.
unfoldable pub inside_root : Option (List String) → Result (List String)
inside_root none = err (value_error "merge gate must stay inside the repository")
inside_root (some path) = ok path

-- `_review_binding`
unfoldable pub review_binding : World → String → Option (List String) → Result Binding
unfolding read_gate as_argument inside_root
review_binding w base_ref gate_path = do
  status ← git w.run ("status" ∷ "--porcelain" ∷ [])
  refuse (not (is_empty status)) "review signing requires a clean exact-HEAD worktree"
  path ← inside_root gate_path
  gate ← read_gate (w.load path)
  base_sha ← git w.run ("rev-parse" ∷ "--verify" ∷ (base_ref <> "^{commit}") ∷ [])
  refuse (not (eq_str (get "base_sha" gate) base_sha))
      "merge gate base_sha does not match the independently selected base"
  current_head ← git w.run ("rev-parse" ∷ "HEAD" ∷ [])
  reviewed_head ← as_argument (get "head_sha" gate)
  reviewed ← only_audit_changes_after_review w.run reviewed_head current_head
  refuse (not reviewed)
      "merge gate head_sha is not the exact reviewed Head or has non-audit descendants"
  digest ← change_digest w.run w.sha256 base_ref
  refuse (not (eq_str (get "change_digest" gate) digest))
      "merge gate change_digest does not match the exact executable change"
  metadata ← gate_metadata_digest w.host gate
  ok (record { gate = gate; digest = digest; metadata_digest = metadata })

abbrev pub key_mismatch : String
key_mismatch = "private key does not match the active reviewer in the trust store"

-- `matching[0]`, which has to be the record of the key.
unfoldable pub check_key : String → Key → Fields → Result (Unit {0})
unfolding public_record is_active_reviewer sole
check_key reviewer_id key trust =
    elim (sole (keep (is_active_reviewer (str reviewer_id)) (rows_of (get "reviewers" trust)))) [
      | ok row ↦ refuse (not (py_eq (obj row) (obj (public_record reviewer_id key)))) key_mismatch
      | err e ↦ err (value_error key_mismatch)
    ]

-- `datetime.now(timezone.utc).replace(microsecond=0)`
abbrev pub whole_seconds : ℕ → ℕ
whole_seconds now = now / microseconds * microseconds

-- The payload; `isoformat` is `isoformat().replace("+00:00", "Z")` of an instant in UTC, and
-- `valid` the validity in microseconds.
unfoldable pub new_review : (ℕ → String) → String → String → String → Binding → ℕ → ℕ → Fields
new_review isoformat review_id reviewer_id nonce binding now valid =
    field "review_id" (str review_id) (
      field "reviewer_id" (str reviewer_id) (
        field "builder_id" (get "builder_id" binding.gate) (
          field "change_digest" (str binding.digest) (
            field "gate_metadata_digest" (str binding.metadata_digest) (
              field "verdict" (str "approved") (
                field "issued_at" (str (isoformat (whole_seconds now))) (
                  field "expires_at" (str (isoformat (whole_seconds now + valid)))
                    (field "nonce" (str nonce) end))))))))

-- The envelope; `canonical` is `_canonical`.
unfoldable pub new_envelope : (Fields → List ℕ) → Key → Fields → Fields
new_envelope canonical key review = field "schema_version" (str "1.0") (
    field "algorithm" (str "ed25519")
      (field "review" (obj review) (field "signature" (str (key.sign (canonical review))) end)))

-- `valid_hours`, a float: `hours m k` is the positive `m / 2 ^ k`, and `not_positive` any float that
-- is at most 0.
pub data Hours : Type 0 where
  nan infinite not_positive : Hours
  hours : ℕ → ℕ → Hours

-- `valid_hours <= 0 or valid_hours > 24`: NaN compares as neither.
unfoldable pub is_out_of_range : Hours → Bool
is_out_of_range nan = false
is_out_of_range infinite = true
is_out_of_range not_positive = true
is_out_of_range (hours m k) = ltb (24 * 2 ^ k) m

-- `timedelta(hours=valid_hours)` in microseconds, by `timedelta` for a positive float. It refuses
-- NaN; the others have been refused before.
unfoldable pub duration : (ℕ → ℕ → ℕ) → Hours → Result ℕ
duration timedelta (hours m k) = ok (timedelta m k)
duration timedelta _ = err (value_error "cannot convert float NaN to integer")

-- What the reviewer asks for.
pub record Signing : Type 0 where
  pub reviewer_id : String
  pub review_id : String
  pub approved : Bool
  pub valid_hours : Hours
  pub base_ref : Option String
  -- the parts of the gate file below the root, `none` outside it
  pub gate_path : Option (List String)
  -- whether the output is a link, its parts below the root, `none` outside it, and whether it is
  -- there
  pub output_is_symlink : Bool
  pub output : Option (List String)
  pub output_exists : Bool
  pub nonce : String

unfoldable pub inside_repository : Option (List String) → Result (List String)
inside_repository none = err (value_error "review receipt must stay under .sddgov/reviews")
inside_repository (some path) = check_directory path

unfoldable pub required_base : Option String → Result String
required_base none =
    err (value_error "base_ref is required; obtain the exact Pull Request base independently")
required_base (some base_ref) = ok base_ref

-- The first look at the gate file.
unfoldable pub first_look : String → Loaded → Result (Unit {0})
first_look reviewer_id (unreadable detail) = err (value_error ("invalid merge gate: " <> detail))
first_look reviewer_id (undecodable detail) = err (value_error detail)
first_look reviewer_id (loaded (obj gate)) =
    refuse (eq_str (get "builder_id" gate) reviewer_id)
      "reviewer must be independent of the Builder"
first_look reviewer_id (loaded v) = ok tt

module _ (w : World) (isoformat : ℕ → String) (timedelta : ℕ → ℕ → ℕ) where
  -- `sign_protected_review` from the base on, once the key and the output have been checked.
  unfoldable pub sign_binding : Signing → String → String → Key → List String → Result Fields
  unfolding required_base review_binding duration new_review new_envelope
  sign_binding request reviewer_id review_id key output = do
    base_ref ← required_base request.base_ref
    binding ← review_binding w base_ref request.gate_path
    refuse (eq_str (get "builder_id" binding.gate) reviewer_id)
        "reviewer must be independent of the Builder"
    refuse (not (eq_str (get "protected_file_review" binding.gate) (join "/" output)))
        "review receipt output does not match merge gate protected_file_review"
    valid ← duration timedelta request.valid_hours
    ok (
        new_envelope w.signatures.canonical key
          (new_review isoformat review_id reviewer_id request.nonce binding w.now valid))

  -- `sign_protected_review` up to the write of the envelope, which is given back; `own_key` is what
  -- the private key file gives, and `own_trust` what `_load_trust` gives, both files outside the
  -- repository.
  unfoldable pub sign_protected_review : Result Key → Result Fields → Signing → Result Fields
  unfolding safe_id first_look check_key inside_root inside_repository is_out_of_range sign_binding
  sign_protected_review own_key own_trust request = do
    reviewer_id ← safe_id request.reviewer_id "reviewer_id"
    review_id ← safe_id request.review_id "review_id"
    refuse (not request.approved) "review receipt requires an explicit approved verdict"
    refuse (is_out_of_range request.valid_hours)
        "review receipt validity must be greater than 0 and at most 24 hours"
    preliminary ← inside_root request.gate_path
    first_look reviewer_id (w.load preliminary)
    key ← own_key
    trust ← own_trust
    check_key reviewer_id key trust
    refuse request.output_is_symlink "review receipt must not be a symbolic link"
    output ← inside_repository request.output
    if request.output_exists then err (os_error "refusing to overwrite review receipt") else ok tt
    sign_binding request reviewer_id review_id key output
