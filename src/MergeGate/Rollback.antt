-- ===== src/MergeGate/Rollback.antt =====
-- src/sddgov/merge_gate.py: `_rollback_contract` and `_rollback_ref_is_in_candidate_range`.
use agentic_sdd_governance.Base.{
  String, ◌<>◌, Bool, true, false, not, ◌&&◌, ◌||◌, Option, none, some, List, [], ◌∷◌, any, eqb,
  ltb, count_if, if◌then◌else◌, ◌==◌, Result, ok, ◌>>=◌,
}
use agentic_sdd_governance.Python.Text.{len, all_chars, is_hex}
use agentic_sdd_governance.Python.Value.{
  str, Fields, end, field, get, has, put, has_exactly, eq_str,
}
use agentic_sdd_governance.Python.Str.{
  strip, is_empty, starts_with, contains, drop, splitlines, Cut, uncut, cut, cut_at,
}
use agentic_sdd_governance.MergeGate.Git.{Git, git, is_ancestor, or_false}

-- `re.fullmatch("[0-9a-f]{40}", text)`
unfoldable pub is_commit : String → Bool
unfolding len all_chars is_hex
is_commit text = eqb (len text) 40 && all_chars is_hex text

-- The text of a field, `""` where it is not there.
unfoldable pub text_at : String → Fields → String
unfolding get
text_at name fields = elim (get name fields) [ str s ↦ s | _ ↦ "" ]

-- `{key: fields[key] for key in names}`
unfoldable pub select : List String → Fields → Fields
unfolding text_at
select [] fields = end
select (name ∷ names) fields = field name (str (text_at name fields)) (select names fields)

module _ (lower : String → String) where
  -- A line `key: value`, which adds its field.
  unfoldable pub add_field : Fields → String → Cut → Option Fields
  add_field fields raw uncut = none
  add_field fields raw (cut key value) =
      if not (raw == strip raw)
        || is_empty key
        || not (key == strip key)
        || not (key == lower key)
        || has key fields
        || not (starts_with " " value)
        || starts_with "  " value
        || not (drop 1 value == strip (drop 1 value))
      then none
      else some (put key (str (drop 1 value)) fields)

  -- The loop over the lines.
  unfoldable pub read_fields : Fields → List String → Option Fields
  unfolding add_field
  read_fields fields [] = some fields
  read_fields fields (raw ∷ lines) = elim (is_empty (strip raw) || starts_with "#" (strip raw)) [
    | true ↦ read_fields fields lines
    | false ↦ elim (add_field fields raw (cut_at b':' raw)) [
      | none ↦ none
      | some more ↦ read_fields more lines
    ]
  ]

  unfoldable pub is_bad_target : String → Bool
  unfolding len
  is_bad_target target =
      is_empty target
      || ltb 240 (len target)
      || any (λ token. contains token (lower target)) ("todo" ∷ "unavailable" ∷ "<" ∷ ">" ∷ [])

abbrev legacy_prefix : String
legacy_prefix = "git revert --no-edit "

-- The branch of version 1.0.
unfoldable pub contract_v1 : Bool → Fields → Option Fields
unfolding text_at is_commit
contract_v1 allowed fields =
    if not allowed
      || not (has_exactly ("rollback_version" ∷ "target" ∷ "command" ∷ "verify" ∷ []) fields)
    then none
    else if not (
          starts_with legacy_prefix (text_at "command" fields)
          && is_commit (drop 21 (text_at "command" fields)))
        || not (text_at "verify" fields == "python -m pytest")
    then none
    else some (
        field "version" (str "1.0")
          (field "rollback_ref" (str (drop 21 (text_at "command" fields))) end))

abbrev required_v2 : List String
required_v2 =
    "rollback_version" ∷ "target" ∷ "rollback_action" ∷ "rollback_ref" ∷ "verify_action"
    ∷ "verify_module" ∷ []

abbrev required_v3 : List String
required_v3 = "reconcile_action" ∷ "reconcile_agent" ∷ "reconcile_profile" ∷ required_v2

abbrev bridge_comments : List String
bridge_comments =
    "# reconcile_action: setup_agent_from_reverted_source" ∷ "# reconcile_agent: codex"
    ∷ "# reconcile_profile: team-standard" ∷ "# post_verify_action: doctor_and_python_module" ∷ []

abbrev test_modules : List String
test_modules = "pytest" ∷ "unittest" ∷ []

abbrev is_one_of : String → List String → Bool
is_one_of text names = any (λ name. text == name) names

-- The branch of version 2.0.
unfoldable pub contract_v2 : Bool → List String → Fields → Option Fields
unfolding text_at is_commit
contract_v2 allowed lines fields =
    if not (has_exactly required_v2 fields) || not allowed
    then none
    else if any (λ comment. not (eqb (count_if (λ line. line == comment) lines) 1)) bridge_comments
    then none
    else if not (text_at "rollback_action" fields == "git_revert")
        || not (is_commit (text_at "rollback_ref" fields))
        || not (text_at "verify_action" fields == "python_module")
        || not (is_one_of (text_at "verify_module" fields) test_modules)
    then none
    else some (
        field "version" (str "2.0") (
          field "rollback_ref" (str (text_at "rollback_ref" fields)) (
            field "reconcile_action" (str "setup_agent_from_reverted_source") (
              field "reconcile_agent" (str "codex") (
                field "reconcile_profile" (str "team-standard") (
                  field "verify_action" (str "doctor_and_python_module")
                    (field "verify_module" (str (text_at "verify_module" fields)) end)))))))

-- The branch of version 3.0.
unfoldable pub contract_v3 : Fields → Option Fields
unfolding select is_commit
contract_v3 fields =
    if not (has_exactly required_v3 fields)
      || not (text_at "rollback_action" fields == "git_revert")
      || not (is_commit (text_at "rollback_ref" fields))
      || not (text_at "reconcile_action" fields == "setup_agent_from_reverted_source")
      || not (is_one_of (text_at "reconcile_agent" fields) ("codex" ∷ "hermes" ∷ []))
      || not (
          is_one_of (text_at "reconcile_profile" fields)
            ("solo-fast" ∷ "team-standard" ∷ "regulated" ∷ []))
      || not (text_at "verify_action" fields == "doctor_and_python_module")
      || not (is_one_of (text_at "verify_module" fields) test_modules)
    then none
    else some (select required_v3 fields)

-- What is left for version 4.0.
unfoldable pub contract_v4 : Fields → Option Fields
unfolding select is_commit
contract_v4 fields =
    if not (text_at "rollback_version" fields == "4.0")
      || not (
          has_exactly
            ("rollback_version" ∷ "target" ∷ "rollback_action" ∷ "rollback_ref" ∷ "reconcile_action"
              ∷ "verify_action" ∷ [])
            fields)
      || not (text_at "rollback_action" fields == "git_revert")
      || not (is_commit (text_at "rollback_ref" fields))
      || not (text_at "reconcile_action" fields == "assert_self_governance_deactivated")
      || not (text_at "verify_action" fields == "self_governance_deactivated")
    then none
    else some (
        field "version" (str "4.0") (
          select
            ("target" ∷ "rollback_action" ∷ "rollback_ref" ∷ "reconcile_action" ∷ "verify_action"
              ∷ [])
            fields))

-- The fields of the document, by the version that they name.
unfoldable pub contract_of : (String → String) → Bool → Bool → List String → Fields → Option Fields
unfolding is_bad_target contract_v1 contract_v2 contract_v3 contract_v4
contract_of lower allow_v1 allow_v2 lines fields =
    let version = get "rollback_version" fields in
    if is_bad_target lower (text_at "target" fields)
    then none
    else if eq_str version "1.0"
    then contract_v1 allow_v1 fields
    else if eq_str version "2.0"
    then contract_v2 allow_v2 lines fields
    else if eq_str version "3.0"
    then contract_v3 fields
    else contract_v4 fields

-- `_rollback_contract`, where `lower` is the method of `str`.
unfoldable pub rollback_contract : (String → String) → Bool → Bool → String → Option Fields
unfolding read_fields contract_of
rollback_contract lower allow_v1 allow_v2 text = elim (read_fields lower end (splitlines text)) [
  | none ↦ none
  | some fields ↦ contract_of lower allow_v1 allow_v2 (splitlines text) fields
]

-- The loop over the two edges.
unfoldable pub are_ancestors : Git → List (String × String) → Result Bool
are_ancestors run [] = ok true
are_ancestors run ((older, newer) ∷ edges) = is_ancestor run older newer >>= λ succeeded.
    if succeeded then are_ancestors run edges else ok false

-- `_rollback_ref_is_in_candidate_range`
unfoldable pub is_in_candidate_range : Git → String → String → String → Result Bool
unfolding are_ancestors
is_in_candidate_range run rollback_ref base_sha reviewed_head_sha =
    or_false (git run ("rev-parse" ∷ "--verify" ∷ (rollback_ref <> "^{commit}") ∷ [])) (λ resolved.
      if not (resolved == rollback_ref) || rollback_ref == base_sha
      then ok false
      else are_ancestors run ((base_sha, rollback_ref) ∷ (rollback_ref, reviewed_head_sha) ∷ []))
