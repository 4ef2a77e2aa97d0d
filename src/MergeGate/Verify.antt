-- ===== src/MergeGate/Verify.antt =====
-- src/sddgov/merge_gate.py: `gate_metadata_digest` and `verify_merge`. The verification of a DEP, the
-- trial of the rollback and the local gate are parameters.
use agentic_sdd_governance.Base.{
  ℕ, String, ◌<>◌, Bool, true, not, ◌&&◌, ◌||◌, Option, none, some, List, [], ◌∷◌, ◌++◌, any, keep,
  map, if◌then◌else◌, ◌==◌, Result, ok, err, value_error, ◌>>=◌, ◌>>◌, refuse,
}
use agentic_sdd_governance.Python.Value.{
  Value, null, bool, str, arr, obj, to_list, of_list, Fields, end, field, get, has, has_exactly,
  is_text, is_null, eq_str, truthy,
}
use agentic_sdd_governance.Python.Str.{is_empty, contains, splitlines, join}
use agentic_sdd_governance.Host.{Host}
use agentic_sdd_governance.Governance.Actions.Row.{check_member}
use agentic_sdd_governance.MergeGate.Git.{Git, git, sorted_set, changed_paths, change_digest}
use agentic_sdd_governance.MergeGate.Paths.{
  Files, bounded_repository_path, is_protected, protected_patterns,
}
use agentic_sdd_governance.MergeGate.Ancestry.{only_audit_changes_after_review}
use agentic_sdd_governance.MergeGate.Rollback.{rollback_contract, is_in_candidate_range, text_at}
use agentic_sdd_governance.MergeGate.Reviewers.{External, trusted_reviewers}
use agentic_sdd_governance.MergeGate.Review.{Loaded, load_json, Signatures, verify_review_receipt}

-- What the gate asks of its surroundings: Git, the files, the parsers, and the other parts of the
-- program, with the time at which the receipt is checked.
pub record World : Type 0 where
  pub host : Host
  pub run : Git
  pub files : Files
  pub load : List String → Loaded
  pub loads : String → Option Value
  pub sha256 : String → String
  pub lower : String → String
  pub built_in_policy : String
  pub external : External
  pub signatures : Signatures
  pub now : ℕ
  -- `verify(dep, strict=True, portable=True)` of evidence.py, its list of errors
  pub verify_dep : List String → Result (List String)
  -- `_rollback_ref_is_cleanly_revertible`
  pub is_cleanly_revertible : (rollback_ref base_sha reviewed_head_sha : String) → Result Bool
  -- `_rollback_postcondition_is_green`
  pub is_green : Fields → String → Result Bool
  -- `run_local_gate`
  pub run_local_gate : Result Fields

abbrev pub bound_fields : List String
bound_fields =
    "schema_version" ∷ "base_sha" ∷ "head_sha" ∷ "risk_level" ∷ "builder_id" ∷ "change_digest"
    ∷ "deps" ∷ "rollback_path" ∷ []

abbrev pub gate_fields : List String
gate_fields = "protected_file_review" ∷ bound_fields

bound_metadata : List String → Fields → Fields
bound_metadata [] gate = end
bound_metadata (name ∷ names) gate = field name (get name gate) (bound_metadata names gate)

-- `gate_metadata_digest`
unfoldable pub gate_metadata_digest : Host → Fields → Result String
unfolding bound_metadata
gate_metadata_digest h gate =
    let missing = keep (λ name. not (has name gate)) bound_fields in
    refuse (any (λ name. true) missing) ("merge gate metadata is missing: " <> join ", " missing)
    >> ok (h.sha256_json (obj (bound_metadata bound_fields gate)))

-- What the gate has found when nothing stands against the merge.
pub record Merge : Type 0 where
  pub head_sha : String
  pub base_sha : String
  pub reviewed_head_sha : String
  pub gate : Fields
  pub digest : String
  pub deps : List String
  pub protected : List String
  pub review : Option Fields
  pub local_green : Fields

-- The dict that `verify_merge` returns.
unfoldable pub report : String → Merge → Fields
report base_ref m = field "ok" (bool true) (
    field "state" (str "MERGE_READY") (
      field "head_sha" (str m.head_sha) (
        field "base_ref" (str base_ref) (
          field "base_sha" (str m.base_sha) (
            field "reviewed_head_sha" (str m.reviewed_head_sha) (
              field "change_digest" (str m.digest) (
                field "risk_level" (get "risk_level" m.gate) (
                  field "deps_verified" (arr (of_list (map str m.deps))) (
                    field "protected_files_changed" (arr (of_list (map str m.protected))) (
                      field "protected_file_reviewer"
                        (elim m.review [ none ↦ null | some review ↦ get "reviewer_id" review ])
                        (field "local_green" (obj m.local_green) end)))))))))))

abbrev pub risk_levels : List String
risk_levels = "L0" ∷ "L1" ∷ "L2" ∷ "L3" ∷ []

-- The tests of the gate file up to the reviewed head, which is given back.
unfoldable pub check_gate : String → Fields → Result String
unfolding text_at
check_gate base_sha gate = do
  refuse (not (has_exactly gate_fields gate) || not (eq_str (get "schema_version" gate) "1.0"))
      "merge gate has an invalid contract"
  check_member (get "risk_level" gate) risk_levels "merge gate risk_level is invalid"
  refuse (not (eq_str (get "base_sha" gate) base_sha))
      "merge gate base_sha does not match the trusted exact base"
  refuse (not (is_text (get "head_sha" gate))) "merge gate head_sha is required"
  ok (text_at "head_sha" gate)

-- `not isinstance(item, str) or not item`
unfoldable pub is_bad_item : Value → Bool
is_bad_item (str s) = is_empty s
is_bad_item _ = true

unfoldable pub item_text : Value → String
item_text (str s) = s
item_text _ = ""

-- The list of DEPs, by the value that the gate file has there.
unfoldable pub check_items : Fields → Value → Result (List String)
unfolding is_bad_item item_text
check_items gate (arr items) = do
  refuse (any is_bad_item (to_list items)) "merge gate deps must be a string array"
  refuse (not (eq_str (get "risk_level" gate) "L0") && not (any (λ item. true) (to_list items)))
      "L1-L3 Merge requires at least one strict DEP"
  ok (map item_text (to_list items))
check_items gate _ = err (value_error "merge gate deps must be a string array")

abbrev pub check_deps : Fields → Result (List String)
check_deps gate = check_items gate (get "deps" gate)

-- The rows of the trees of the commits that are below a raw directory.
abbrev pub is_raw : String → Bool
is_raw path = contains "/private/raw/" ("/" <> path)

unfoldable pub raw_paths : Git → List String → Result (List String)
raw_paths run [] = ok []
raw_paths run (commit ∷ commits) = do
  tree ← git run ("ls-tree" ∷ "-r" ∷ "--name-only" ∷ commit ∷ [])
  others ← raw_paths run commits
  ok (keep is_raw (splitlines tree) ++ others)

unfoldable pub refuse_raw : List String → Result (Unit {0})
refuse_raw [] = ok tt
refuse_raw (path ∷ paths) =
    err (value_error ("raw evidence is tracked by Git: " <> join ", " (path ∷ paths)))

unfoldable pub check_raw : Git → String → Result (Unit {0})
unfolding refuse_raw raw_paths sorted_set
check_raw run base_ref = do
  listing ← git run ("rev-list" ∷ (base_ref <> "..HEAD") ∷ [])
  paths ← raw_paths run (splitlines listing)
  refuse_raw (sorted_set paths)

-- The comprehension that reads the policy for each path.
unfoldable pub protected_among : Result (List String) → List String → Result (List String)
protected_among policy [] = ok []
protected_among policy (path ∷ paths) = do
  patterns ← policy
  others ← protected_among policy paths
  ok (if is_protected path patterns then path ∷ others else others)

-- `not isinstance(review, str) or not review`
abbrev pub is_no_path : Value → Bool
is_no_path (str s) = is_empty s
is_no_path _ = true

unfoldable pub refuse_errors : List String → Result (Unit {0})
refuse_errors [] = ok tt
refuse_errors (e ∷ errors) =
    err (value_error ("strict DEP verification failed: " <> join "; " (e ∷ errors)))

module _ (w : World) where
  unfoldable pub dep_errors : List String → Result (List String)
  dep_errors [] = ok []
  dep_errors (relative ∷ deps) = do
    dep ← bounded_repository_path w.files (str relative) "merge DEP"
    errors ← w.verify_dep dep
    others ← dep_errors deps
    ok (map (λ error. relative <> ": " <> error) errors ++ others)

  -- Every DEP verifies.
  unfoldable pub verify_deps : List String → Result (Unit {0})
  unfolding dep_errors refuse_errors
  verify_deps deps = dep_errors deps >>= refuse_errors

  abbrev pub rollback_missing : String
  rollback_missing = "rollback record is missing or incomplete"

  -- The record at the reviewed head.
  unfoldable pub rollback_text : String → String → Result String
  rollback_text reviewed_head_sha relative =
      elim (git w.run ("show" ∷ (reviewed_head_sha <> ":" <> relative) ∷ [])) [
        | ok text ↦ ok text
        | err e ↦ elim e [ value_error m ↦ err (value_error rollback_missing) | other ↦ err other ]
      ]

  -- The contract that the record has, for this base and this path.
  abbrev pub contract_at : String → String → String → Option Fields
  contract_at base_sha relative text =
      rollback_contract w.lower
        (base_sha == "f44cb5f4897f6c821f817fcf178581b43777163a"
          && relative == "evidence/DEP-SDG-SECURITY-HARDENING-EXP8-001/rollback.md")
        (base_sha == "ce08f48c5d7c4232e9c0154dabb3b43c63b920c1"
          && relative == "evidence/DEP-RELEASE-READINESS-HARDENING-010/rollback.md")
        text

  -- The tests of a contract.
  unfoldable pub check_contract : Bool → String → String → Option Fields → Result (Unit {0})
  check_contract run_checks base_sha reviewed_head_sha none = err (value_error rollback_missing)
  check_contract run_checks base_sha reviewed_head_sha (some rollback) =
      let rollback_ref = text_at "rollback_ref" rollback in
      do
        inside ← is_in_candidate_range w.run rollback_ref base_sha reviewed_head_sha
        refuse (not inside) rollback_missing
        clean ← w.is_cleanly_revertible rollback_ref base_sha reviewed_head_sha
        refuse (not clean) rollback_missing
        green ← if run_checks then w.is_green rollback reviewed_head_sha else ok true
        refuse (not green) "rollback post-condition did not return to Green"

  unfoldable pub check_rollback : Bool → String → String → Fields → Result (Unit {0})
  unfolding rollback_text check_contract
  check_rollback run_checks base_sha reviewed_head_sha gate = do
    path ← bounded_repository_path w.files (get "rollback_path" gate) "rollback"
    text ← rollback_text reviewed_head_sha (text_at "rollback_path" gate)
    check_contract run_checks base_sha reviewed_head_sha
        (contract_at base_sha (text_at "rollback_path" gate) text)

  -- The review that the changed paths ask for.
  unfoldable pub check_review_of : String → String → Fields → List String → Result (Option Fields)
  unfolding verify_review_receipt gate_metadata_digest trusted_reviewers
  check_review_of base_ref digest gate (path ∷ paths) = do
    refuse (is_no_path (get "protected_file_review" gate))
        "protected-file changes require a signed independent review receipt"
    metadata ← gate_metadata_digest w.host gate
    trust ← trusted_reviewers w.run w.loads w.external base_ref
    review ←
        verify_review_receipt w.host w.signatures w.files w.load w.now
          (get "protected_file_review" gate) (text_at "builder_id" gate) digest metadata trust
    ok (some review)
  check_review_of base_ref digest gate [] =
      refuse (not (is_null (get "protected_file_review" gate)))
        "protected_file_review must be null when no protected file changed"
      >> ok none

  abbrev pub skipped : Fields
  skipped = field "ok" (bool true) (field "commands" (arr (of_list [])) end)

  -- `run_local_gate(root) if run_checks else …`
  unfoldable pub check_local : Bool → Result Fields
  check_local run_checks = do
    local_green ← if run_checks then w.run_local_gate else ok skipped
    refuse (not (truthy (get "ok" local_green))) "Local Green Gate did not pass"
    ok local_green

  abbrev pub policy_at : String → Result (List String)
  policy_at base_ref = protected_patterns w.run w.built_in_policy base_ref

  -- `verify_merge` from the digest of the change on, without the dict of its answer.
  unfoldable pub find_rest : String → Bool → String → String → String → Fields → Result Merge
  unfolding check_items verify_deps check_rollback check_raw protected_among check_review_of
      check_local
  find_rest base_ref run_checks head_sha base_sha reviewed_head_sha gate = do
    digest ← change_digest w.run w.sha256 base_ref
    refuse (not (eq_str (get "change_digest" gate) digest))
        "merge gate change_digest does not match the exact executable change"
    deps ← check_deps gate
    verified ← verify_deps deps
    rollback ← check_rollback run_checks base_sha reviewed_head_sha gate
    raw ← check_raw w.run base_ref
    changed ← changed_paths w.run base_ref "HEAD"
    protected ← protected_among (policy_at base_ref) changed
    review ← check_review_of base_ref digest gate protected
    local_green ← check_local run_checks
    ok (record {
      head_sha = head_sha;
      base_sha = base_sha;
      reviewed_head_sha = reviewed_head_sha;
      gate = gate;
      digest = digest;
      deps = deps;
      protected = protected;
      review = review;
      local_green = local_green;
    })

  -- `verify_merge` without the dict of its answer.
  unfoldable pub find_merge : String → List String → Bool → Result Merge
  unfolding check_gate find_rest
  find_merge base_ref gate_path run_checks = do
    status ← git w.run ("status" ∷ "--porcelain" ∷ [])
    refuse (not (is_empty status)) "merge verification requires a clean exact-HEAD worktree"
    head_sha ← git w.run ("rev-parse" ∷ "HEAD" ∷ [])
    base_sha ← git w.run ("rev-parse" ∷ "--verify" ∷ (base_ref <> "^{commit}") ∷ [])
    gate ← load_json (w.load gate_path) (join "/" gate_path)
    reviewed_head_sha ← check_gate base_sha gate
    reviewed ← only_audit_changes_after_review w.run reviewed_head_sha head_sha
    refuse (not reviewed)
        "merge gate head_sha is not the exact reviewed Head or has non-audit descendants"
    refuse (not (is_text (get "builder_id" gate))) "merge gate builder_id is required"
    find_rest base_ref run_checks head_sha base_sha reviewed_head_sha gate

  -- `verify_merge`
  unfoldable pub verify_merge : String → List String → Bool → Result Fields
  unfolding find_merge report
  verify_merge base_ref gate_path run_checks =
      find_merge base_ref gate_path run_checks >>= λ m. ok (report base_ref m)
