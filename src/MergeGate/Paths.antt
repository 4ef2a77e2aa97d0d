-- ===== src/MergeGate/Paths.antt =====
-- src/sddgov/merge_gate.py: the paths that are protected, and the paths of the audit trail.
use agentic_sdd_governance.Base.{
  String, ◌<>◌, Bool, true, false, not, ◌&&◌, ◌||◌, Option, none, some, List, [], ◌∷◌, ◌++◌, any,
  eqb, keep, if◌then◌else◌, ◌==◌, Result, ok, err, value_error, ◌>>=◌, ◌>>◌, refuse,
}
use agentic_sdd_governance.Python.Text.{ends_with_char}
use agentic_sdd_governance.Python.Value.{Value, str}
use agentic_sdd_governance.Python.Str.{
  contains_char, strip, starts_with, splitlines, drop, is_empty, split_by, join,
}
use agentic_sdd_governance.MergeGate.Git.{Git, git}

-- `path.startswith(pattern) if pattern.endswith("/") else path == pattern`
abbrev pub matches_pattern : String → String → Bool
matches_pattern path pattern =
    if ends_with_char b'/' pattern then starts_with pattern path else path == pattern

-- `_is_protected`
unfoldable pub is_protected : String → List String → Bool
is_protected path patterns = any (matches_pattern path) patterns

-- `_is_audit_path`
unfoldable pub is_audit_path : String → Bool → Bool
is_audit_path path include_evidence =
    (path == ".sddgov/merge-gate.json")
    || starts_with ".sddgov/reviews/" path
    || (include_evidence && starts_with "evidence/" path)

-- The loop of `_parse_protected_patterns`; the flag is `in_protected`.
unfoldable pub pattern_lines : Bool → List String → List String
pattern_lines in_protected [] = []
pattern_lines in_protected (raw ∷ lines) = elim (strip raw == "protected:") [
  | true ↦ pattern_lines true lines
  | false ↦ elim (in_protected && starts_with "  - " raw) [
    | true ↦ strip (drop 4 raw) ∷ pattern_lines in_protected lines
    | false ↦ elim (in_protected && not (is_empty raw) && not (starts_with " " raw)) [
      | true ↦ []
      | false ↦ pattern_lines in_protected lines
    ]
  ]
]

check_patterns : List String → Result (List String)
check_patterns [] = err (value_error "protected-file policy contains no paths")
check_patterns (pattern ∷ patterns) = ok (pattern ∷ patterns)

-- `_parse_protected_patterns`
unfoldable pub parse_protected_patterns : String → Result (List String)
unfolding check_patterns pattern_lines
parse_protected_patterns text = check_patterns (pattern_lines false (splitlines text))

abbrev first_consumer_base_markers : List String
first_consumer_base_markers =
    "policies/protected-files.yaml" ∷ ".agentic-sdd-governance/policies/protected-files.yaml"
    ∷ ".agentic-sdd-governance/manifest.json" ∷ ".sddgov/project.json"
    ∷ ".sddgov/trusted-reviewers.json" ∷ ".github/workflows/governance.yml" ∷ []

-- `_base_has_path`
unfoldable pub base_has_path : Git → String → String → Result Bool
base_has_path run base_ref relative =
    run ("cat-file" ∷ "-e" ∷ (base_ref <> ":" <> relative) ∷ []) >>= λ completed.
    ok completed.succeeded

-- No marker is at the base.
unfoldable pub no_marker : Git → String → List String → Result Bool
unfolding base_has_path
no_marker run base_ref [] = ok true
no_marker run base_ref (marker ∷ markers) = base_has_path run base_ref marker >>= λ found.
    if found then ok false else no_marker run base_ref markers

-- `_first_consumer_base`
unfoldable pub first_consumer_base : Git → String → Result Bool
unfolding no_marker
first_consumer_base run base_ref = no_marker run base_ref first_consumer_base_markers

-- What follows a policy that is at the base, or that is not.
unfoldable pub policy_or : Result String → Result (List String) → Result (List String)
policy_or (ok text) other = parse_protected_patterns text
policy_or (err (value_error m)) other = other
policy_or (err e) other = err e

-- `_protected_patterns`, where `built_in` is the policy that the package carries.
unfoldable pub protected_patterns : Git → String → String → Result (List String)
unfolding policy_or first_consumer_base
protected_patterns run built_in base_ref =
    policy_or (git run ("show" ∷ (base_ref <> ":policies/protected-files.yaml") ∷ [])) (
      policy_or
        (git run
          ("show" ∷ (base_ref <> ":.agentic-sdd-governance/policies/protected-files.yaml") ∷ []))
        (first_consumer_base run base_ref >>= λ first.
          refuse (not first) "protected-file policy is required at the trusted base"
          >> parse_protected_patterns built_in))

-- `PurePosixPath(text).parts` of a text that does not start with a slash.
abbrev parts_of : String → List String
parts_of text = keep (λ part. not (is_empty part || part == ".")) (split_by (λ c. eqb c b'/') text)

-- `str(PurePosixPath(…))` of such a path
abbrev text_of : List String → String
text_of [] = "."
text_of (part ∷ parts) = join "/" (part ∷ parts)

-- The file system below the root: whether a path is a symbolic link, and the parts of what it
-- resolves to, `none` where that is not below the root.
pub record Files : Type 0 where
  pub is_symlink : List String → Bool
  pub resolve_parts : List String → Option (List String)

-- The loop over the parts, after those that it has passed.
unfoldable pub has_symlink : Files → List String → List String → Bool
has_symlink files passed [] = false
has_symlink files passed (part ∷ parts) =
    let current = passed ++ (part ∷ []) in
    files.is_symlink current || has_symlink files current parts

resolved : String → Option (List String) → Result (List String)
resolved label none = err (value_error (label <> " path escapes the repository"))
resolved label (some path) = ok path

-- `_bounded_repository_path`: the parts of the resolved path, from the root.
unfoldable pub bounded_repository_path : Files → Value → String → Result (List String)
unfolding resolved has_symlink
bounded_repository_path files (str relative) label =
    let parts = parts_of relative in
    refuse (is_empty relative || contains_char b'\\' relative) (label <> " path is invalid")
    >> refuse
        (starts_with "/" relative
          || not (text_of parts == relative)
          || any (λ part. is_empty part || part == "." || part == "..") parts)
        (label <> " path escapes or is not normalized")
    >> refuse (has_symlink files [] parts) (label <> " path contains a symlink")
    >> resolved label (files.resolve_parts parts)
bounded_repository_path files _ label = err (value_error (label <> " path is invalid"))
