-- ===== src/MergeGate/Ancestry.antt =====
-- src/sddgov/merge_gate.py: `_every_descendant_commit_is_audit_only`.
use agentic_sdd_governance.Base.{
  String, ◌<>◌, Bool, true, false, not, List, [], ◌∷◌, any, if◌then◌else◌, ◌==◌, Result, ok, ◌>>=◌,
}
use agentic_sdd_governance.Python.Str.{splitlines, words}
use agentic_sdd_governance.MergeGate.Git.{Git, git, is_ancestor, or_false, commit_edge_paths}
use agentic_sdd_governance.MergeGate.Paths.{is_audit_path}

module _ (run : Git) (include_evidence : Bool) where
  -- The loop over the parents of a commit.
  unfoldable pub check_parents : String → List String → Result Bool
  check_parents commit [] = ok true
  check_parents commit (parent ∷ parents) = or_false (commit_edge_paths run parent commit) (λ paths.
      if any (λ path. not (is_audit_path path include_evidence)) paths
      then ok false
      else check_parents commit parents)

  -- The row of a commit: the commit itself, then one parent at least.
  unfoldable pub check_row : String → List String → Result Bool
  unfolding check_parents
  check_row commit (first ∷ parent ∷ parents) =
      if not (first == commit) then ok false else check_parents commit (parent ∷ parents)
  check_row commit _ = ok false

  -- The loop over the commits.
  unfoldable pub check_commits : List String → Result Bool
  unfolding check_row
  check_commits [] = ok true
  check_commits (commit ∷ commits) =
      or_false (git run ("rev-list" ∷ "--parents" ∷ "-n" ∷ "1" ∷ commit ∷ [])) (λ row.
        check_row commit (words row) >>= λ passed.
        if passed then check_commits commits else ok false)

  abbrev pub listing : String → String → Result String
  listing start_sha end_sha =
      git run ("rev-list" ∷ "--reverse" ∷ "--topo-order" ∷ (start_sha <> ".." <> end_sha) ∷ [])

  -- `_every_descendant_commit_is_audit_only`
  unfoldable pub every_descendant_commit_is_audit_only : String → String → Result Bool
  unfolding check_commits
  every_descendant_commit_is_audit_only start_sha end_sha =
      is_ancestor run start_sha end_sha >>= λ ancestor.
      if ancestor
      then or_false (listing start_sha end_sha) (λ text. check_commits (splitlines text))
      else ok false

-- `only_audit_changes_after_review`
unfoldable pub only_audit_changes_after_review : Git → String → String → Result Bool
unfolding every_descendant_commit_is_audit_only
only_audit_changes_after_review run = every_descendant_commit_is_audit_only run false
