-- ===== src/MergeGate/Git.antt =====
-- src/sddgov/merge_gate.py: `_git`, and what is done with its answers. Git itself is a parameter.
use agentic_sdd_governance.Base.{
  String, ◌<>◌, Bool, true, false, List, [], ◌∷◌, ◌++◌, any, eqb, if◌then◌else◌, Result, ok, err,
  value_error, ◌>>=◌,
}
use Prim.Native.String.{compare}
use Prim.Native.Nat.{Ordering}
use agentic_sdd_governance.Python.Str.{strip, is_empty, join, split_by, starts_with}

-- `subprocess.run(…, text=True)`: whether the return code is 0, and the two outputs as text, that is
-- decoded from UTF-8 and with every line end read as a newline.
pub record Completed : Type 0 where
  pub succeeded : Bool
  pub stdout : String
  pub stderr : String

-- `subprocess.run(["git", *args], cwd=root, check=False, capture_output=True, text=True)`, which may
-- raise, also where the output is no UTF-8.
abbrev pub Git : Type 0
Git = List String → Result Completed

-- What a command that has ended gives.
unfoldable pub stdout_of : List String → Completed → Result String
stdout_of args completed =
    let detail = strip completed.stderr in
    if completed.succeeded
    then ok (strip completed.stdout)
    else err (
        value_error (
          "git "
          <> join " " args
          <> " failed: "
          <> (if is_empty detail then strip completed.stdout else detail)))

-- `_git`
unfoldable pub git : Git → List String → Result String
unfolding stdout_of
git run args = run args >>= stdout_of args

-- `git merge-base --is-ancestor`, by its return code
unfoldable pub is_ancestor : Git → String → String → Result Bool
is_ancestor run older newer =
    run ("merge-base" ∷ "--is-ancestor" ∷ older ∷ newer ∷ []) >>= λ completed.
    ok completed.succeeded

-- `except ValueError: return False`, around the call whose value goes on.
abbrev pub or_false {ℓ} : {A : Type ℓ} → Result A → (A → Result Bool) → Result Bool
or_false (ok a) next = next a
or_false (err (value_error m)) next = ok false
or_false (err e) next = err e

-- `sorted(set(texts))`
unfoldable pub insert : String → List String → List String
insert s [] = s ∷ []
insert s (t ∷ sorted) =
    let rest = insert s sorted in
    elim (compare s t) [
      | Ordering.lt ↦ s ∷ t ∷ sorted
      | Ordering.eq ↦ t ∷ sorted
      | Ordering.gt ↦ t ∷ rest
    ]

unfoldable pub sorted_set : List String → List String
unfolding insert
sorted_set [] = []
sorted_set (s ∷ texts) = insert s (sorted_set texts)

-- `text.split("\0")`, with the last field popped where it is empty.
unfoldable pub drop_last_empty : List String → List String
drop_last_empty [] = []
drop_last_empty (s ∷ []) = if is_empty s then [] else s ∷ []
drop_last_empty (s ∷ t ∷ fields) = s ∷ drop_last_empty (t ∷ fields)

unfoldable pub nul_fields : String → List String
unfolding drop_last_empty
nul_fields text = drop_last_empty (split_by (λ c. eqb c 0) text)

-- `status.startswith(("R", "C"))`
abbrev pub has_two_paths : String → Bool
has_two_paths status = any (λ letter. starts_with letter status) ("R" ∷ "C" ∷ [])

add_paths : List String → Result (List String) → Result (List String)
add_paths paths (ok others) = ok (paths ++ others)
add_paths paths (err e) = err e

-- The loop over the records, with the message of its refusal. A record is a status and one path,
-- or two.
unfoldable pub record_paths : String → List String → Result (List String)
unfolding add_paths
record_paths message [] = ok []
record_paths message (status ∷ []) = err (value_error message)
record_paths message (status ∷ path ∷ []) = elim (has_two_paths status) [
  | true ↦ err (value_error message)
  | false ↦ if is_empty status then err (value_error message) else ok (path ∷ [])
]
record_paths message (status ∷ path ∷ other ∷ fields) = elim (has_two_paths status) [
  | true ↦ add_paths (path ∷ other ∷ []) (record_paths message fields)
  | false ↦
      if is_empty status
      then err (value_error message)
      else add_paths (path ∷ []) (record_paths message (other ∷ fields))
]

abbrev set_of_paths : String → String → Result (List String)
set_of_paths message text =
    record_paths message (nul_fields text) >>= λ paths. ok (sorted_set paths)

-- `changed_paths`
unfoldable pub changed_paths : Git → String → String → Result (List String)
unfolding nul_fields record_paths sorted_set
changed_paths run start end =
    git run ("diff" ∷ "-M" ∷ "--name-status" ∷ "-z" ∷ (start <> "..." <> end) ∷ [])
    >>= set_of_paths "git diff produced an invalid NUL name-status record"

-- `_commit_edge_paths`
unfoldable pub commit_edge_paths : Git → String → String → Result (List String)
unfolding nul_fields record_paths sorted_set
commit_edge_paths run parent commit =
    git run ("diff" ∷ "-M" ∷ "--name-status" ∷ "-z" ∷ parent ∷ commit ∷ "--" ∷ [])
    >>= set_of_paths "git diff produced an invalid commit-edge record"

abbrev excludes : List String
excludes = ":(exclude).sddgov/merge-gate.json" ∷ ":(exclude).sddgov/reviews/**" ∷ []

-- `change_digest`, where `sha256` is the digest of a text in UTF-8.
unfoldable pub change_digest : Git → (String → String) → String → Result String
change_digest run sha256 base_ref =
    git run ("diff" ∷ "--binary" ∷ (base_ref <> "...HEAD") ∷ "--" ∷ "." ∷ excludes) >>= λ patch.
    ok (sha256 patch)
