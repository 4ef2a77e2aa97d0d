-- ===== src/MergeGate/Sample.antt =====
-- A small repository as Git, its files and the other parts of the program show it.
use agentic_sdd_governance.Base.{
  String, ◌<>◌, true, false, Option, none, some, List, [], ◌∷◌, ok, ◌==◌, if◌then◌else◌,
}
use agentic_sdd_governance.Python.Value.{Value, bool, str, arr, obj, nil, cons, Fields, end, field}
use agentic_sdd_governance.Python.Str.{join}
use agentic_sdd_governance.Host.{Host}
use agentic_sdd_governance.MergeGate.Git.{Git, Completed}
use agentic_sdd_governance.MergeGate.Paths.{Files}
use agentic_sdd_governance.MergeGate.Reviewers.{External}
use agentic_sdd_governance.MergeGate.Review.{Loaded, unreadable, loaded, Signatures}
use agentic_sdd_governance.MergeGate.Changes.{Change, changed, moved}
use agentic_sdd_governance.MergeGate.Verify.{World}

abbrev pub base_sha : String
base_sha = "1111111111111111111111111111111111111111"

abbrev pub reviewed_sha : String
reviewed_sha = "2222222222222222222222222222222222222222"

abbrev pub head_sha : String
head_sha = "3333333333333333333333333333333333333333"

abbrev pub rollback_record : String
rollback_record =
    "rollback_version: 3.0\ntarget: the last change\nrollback_action: git_revert\nrollback_ref: 2222222222222222222222222222222222222222\nreconcile_action: setup_agent_from_reverted_source\nreconcile_agent: codex\nreconcile_profile: team-standard\nverify_action: doctor_and_python_module\nverify_module: pytest\n"

abbrev pub changes : List Change
changes = changed "M" "policies/a.md" ∷ moved "R100" "b" "c" ∷ []

-- The base has a commit more than its merge base with the head.
abbrev pub edges : List Change
edges = changed "D" "d" ∷ changes

abbrev pub answers : List (String × String)
answers =
    ("status --porcelain", "")
    ∷ ("rev-parse HEAD", head_sha <> "\n")
    ∷ ("rev-parse --verify main^{commit}", base_sha)
    ∷ ("merge-base --is-ancestor " <> reviewed_sha <> " " <> head_sha, "")
    ∷ ("rev-list --reverse --topo-order " <> reviewed_sha <> ".." <> head_sha, head_sha)
    ∷ ("rev-list --parents -n 1 " <> head_sha, head_sha <> " " <> reviewed_sha)
    ∷ (
      "diff -M --name-status -z " <> reviewed_sha <> " " <> head_sha <> " --",
      "A\0.sddgov/merge-gate.json\0",
    )
    ∷ (
      "diff --binary main...HEAD -- . :(exclude).sddgov/merge-gate.json :(exclude).sddgov/reviews/**",
      "patch",
    )
    ∷ ("show " <> reviewed_sha <> ":rollback.md", rollback_record)
    ∷ ("rev-parse --verify " <> reviewed_sha <> "^{commit}", reviewed_sha)
    ∷ ("merge-base --is-ancestor " <> base_sha <> " " <> reviewed_sha, "")
    ∷ ("merge-base --is-ancestor " <> reviewed_sha <> " " <> reviewed_sha, "")
    ∷ ("rev-list main..HEAD", head_sha)
    ∷ ("ls-tree -r --name-only " <> head_sha, "c\npolicies/a.md")
    ∷ ("diff -M --name-status -z main...HEAD", "M\0policies/a.md\0R100\0b\0c\0")
    ∷ ("diff -M --name-status -z main HEAD --", "D\0d\0M\0policies/a.md\0R100\0b\0c\0")
    ∷ ("show main:policies/protected-files.yaml", "protected:\n  - policies/\n")
    ∷ ("show main:.sddgov/trusted-reviewers.json", "store")
    ∷ []

unfoldable pub find_answer : String → List (String × String) → Completed
find_answer args [] = record { succeeded = false; stdout = ""; stderr = "unknown" }
find_answer args ((known, stdout) ∷ more) =
    let rest = find_answer args more in
    if args == known then record { succeeded = true; stdout = stdout; stderr = "" } else rest

abbrev pub run : Git
run args = ok (find_answer (join " " args) answers)

abbrev pub reviewer : Value
reviewer = obj (
    field "reviewer_id" (str "rita") (
      field "algorithm" (str "ed25519")
        (field "public_key" (str "key") (field "status" (str "active") end))))

abbrev pub store : Fields
store = field "schema_version" (str "1.0") (field "reviewers" (arr (cons reviewer nil)) end)

abbrev pub loads : String → Option Value
loads text = if text == "store" then some (obj store) else none

abbrev pub review : Fields
review = field "review_id" (str "1") (
    field "reviewer_id" (str "rita") (
      field "builder_id" (str "bob") (
        field "change_digest" (str "digest") (
          field "gate_metadata_digest" (str "json") (
            field "verdict" (str "approved") (
              field "issued_at" (str "then")
                (field "expires_at" (str "later") (field "nonce" (str "n") end))))))))

abbrev pub envelope : Fields
envelope = field "schema_version" (str "1.0") (
    field "algorithm" (str "ed25519")
      (field "review" (obj review) (field "signature" (str "signature") end)))

abbrev pub gate : Fields
gate = field "schema_version" (str "1.0") (
    field "base_sha" (str base_sha) (
      field "head_sha" (str reviewed_sha) (
        field "risk_level" (str "L1") (
          field "builder_id" (str "bob") (
            field "change_digest" (str "digest") (
              field "deps" (arr (cons (str "evidence/one") nil)) (
                field "rollback_path" (str "rollback.md")
                  (field "protected_file_review" (str ".sddgov/reviews/one.json") end))))))))

abbrev pub load : List String → Loaded
load path =
    if join "/" path == ".sddgov/merge-gate.json"
    then loaded (obj gate)
    else if join "/" path == ".sddgov/reviews/one.json"
    then loaded (obj envelope)
    else unreadable "no such file"

-- `then` is at 0, `later` after an hour.
abbrev pub host : Host
host = record {
  fromisoformat = λ text.
      if text == "then"
      then some (record { aware = true; instant = 0 })
      else if text == "later"
      then some (record { aware = true; instant = 3600000000 })
      else none;
  stamp = λ t. "";
  sha256_json = λ v. "json";
}

abbrev pub signatures : Signatures
signatures = record {
  b64decode = λ text. some (if text == "key" then 1 ∷ [] else 2 ∷ []);
  canonical = λ payload. 3 ∷ [];
  verifies = λ key signature message. true;
}

abbrev pub files : Files
files = record { is_symlink = λ path. false; resolve_parts = λ path. some path }

abbrev pub external : External
external = record {
  variable = none;
  is_inside = λ source. false;
  load_control_plane_json = λ source. ok end;
  load_owner_controlled_json = λ source. ok end;
}

abbrev pub world : World
world = record {
  host = host;
  run = run;
  files = files;
  load = load;
  loads = loads;
  sha256 = λ text. "digest";
  lower = λ text. text;
  built_in_policy = "protected:\n  - policies/\n";
  external = external;
  signatures = signatures;
  now = 60;
  verify_dep = λ path. ok [];
  is_cleanly_revertible = λ rollback_ref base reviewed. ok true;
  is_green = λ rollback reviewed. ok true;
  run_local_gate = ok (field "ok" (bool true) end);
}

abbrev pub gate_path : List String
gate_path = ".sddgov" ∷ "merge-gate.json" ∷ []
