-- ===== src/MergeGate/AuditOnly.antt =====
-- src/sddgov/merge_gate.py: what the walk over the descendants of the reviewed commit inspects.
use agentic_sdd_governance.Base.{
  ◌≡◌, refl, ap, ◌∙◌, ◌↔◌, String, Bool, true, false, not, List, [], ◌∷◌, any, arith, All, if-else,
  if-then, ◌==◌, eq_iff, eq_refl, Result, ok, err, value_error, os_error, type_error, key_error,
  attribute_error, file_not_found, >>=-eq-ok,
}
use agentic_sdd_governance.Python.Str.{splitlines, words}
use agentic_sdd_governance.MergeGate.Git.{Git, git, is_ancestor, or_false, commit_edge_paths}
use agentic_sdd_governance.MergeGate.Paths.{is_audit_path}
use agentic_sdd_governance.MergeGate.Ancestry.{
  check_parents, check_row, check_commits, listing, every_descendant_commit_is_audit_only,
}

or_false-eq-true {ℓ} :
    {A : Type ℓ} (r : Result A) (next : A → Result Bool)
    → or_false r next ≡ ok true
    → (a : A) × (r ≡ ok a) × (next a ≡ ok true)
or_false-eq-true (ok a) next h = (a, refl, h)
or_false-eq-true (err (value_error m)) next h = cc
or_false-eq-true (err (os_error m)) next h = cc
or_false-eq-true (err type_error) next h = cc
or_false-eq-true (err key_error) next h = cc
or_false-eq-true (err attribute_error) next h = cc
or_false-eq-true (err file_not_found) next h = cc

any-not_iff {ℓ} :
    {A : Type ℓ} (test : A → Bool) (xs : List A)
    → (any (λ x. not (test x)) xs ≡ false) ↔ All (λ x. test x ≡ true) xs
any-not_iff test [] = (λ h. tt, λ h. refl)
any-not_iff test (x ∷ xs) =
    (λ h. ground (arith, (any-not_iff test xs).0), λ (h, k). rw (h, (any-not_iff test xs).1 k) refl)

module _ (run : Git) (include_evidence : Bool) where
  -- The paths between a commit and one of its parents, which are those of the audit trail.
  abbrev pub IsAuditEdge : String → String → Type 0
  IsAuditEdge commit parent =
      (paths : List String) × (commit_edge_paths run parent commit ≡ ok paths)
      × All (λ path. is_audit_path path include_evidence ≡ true) paths

  -- A commit that Git lists with one parent at least, and with audit edges only.
  abbrev pub IsAuditCommit : String → Type 0
  IsAuditCommit commit =
      (row : String) × (git run ("rev-list" ∷ "--parents" ∷ "-n" ∷ "1" ∷ commit ∷ []) ≡ ok row)
      × (parent : String) × (parents : List String) × (words row ≡ commit ∷ parent ∷ parents)
      × All (IsAuditEdge commit) (parent ∷ parents)

  check_parents_sound :
      (commit : String) (parents : List String)
      → check_parents run include_evidence commit parents ≡ ok true
      → All (IsAuditEdge commit) parents
  unfolding check_parents
  check_parents_sound commit [] h = tt
  check_parents_sound commit (parent ∷ parents) h =
      let (paths, e, k) = or_false-eq-true (commit_edge_paths run parent commit) _ h in
      let (audit, rest) =
        if-else (any (λ path. not (is_audit_path path include_evidence)) paths) _ _ (λ f. cc f) k in
      (
        (paths, e, (any-not_iff (λ path. is_audit_path path include_evidence) paths).0 audit),
        check_parents_sound commit parents rest,
      )

  check_parents_complete :
      (commit : String) (parents : List String)
      → All (IsAuditEdge commit) parents
      → check_parents run include_evidence commit parents ≡ ok true
  unfolding check_parents
  check_parents_complete commit [] h = refl
  check_parents_complete commit (parent ∷ parents) ((paths, e, audit), rest) =
      rw (e, (any-not_iff (λ path. is_audit_path path include_evidence) paths).1 audit)
        (check_parents_complete commit parents rest)

  check_row_sound :
      (commit : String) (row : List String)
      → check_row run include_evidence commit row ≡ ok true
      → (parent : String) × (parents : List String) × (row ≡ commit ∷ parent ∷ parents)
        × All (IsAuditEdge commit) (parent ∷ parents)
  unfolding check_row
  check_row_sound commit [] h = cc
  check_row_sound commit (first ∷ []) h = cc
  check_row_sound commit (first ∷ parent ∷ parents) h =
      let (same, rest) = if-else (not (first == commit)) _ _ (λ f. cc f) h in
      let equal = (eq_iff first commit).0 (ground arith) in
      (
        parent,
        parents,
        ap (λ c. c ∷ parent ∷ parents) equal,
        check_parents_sound commit (parent ∷ parents) rest,
      )

  check_row_complete :
      (commit : String) (row : List String) (parent : String) (parents : List String)
      → row ≡ commit ∷ parent ∷ parents
      → All (IsAuditEdge commit) (parent ∷ parents)
      → check_row run include_evidence commit row ≡ ok true
  unfolding check_row
  check_row_complete commit row parent parents w edges =
      rw (w, eq_refl commit) (check_parents_complete commit (parent ∷ parents) edges)

  abbrev row_of : String → Result String
  row_of commit = git run ("rev-list" ∷ "--parents" ∷ "-n" ∷ "1" ∷ commit ∷ [])

  check_commits_sound :
      (commits : List String)
      → check_commits run include_evidence commits ≡ ok true
      → All IsAuditCommit commits
  unfolding check_commits
  check_commits_sound [] h = tt
  check_commits_sound (commit ∷ commits) h =
      let (row, e, k) = or_false-eq-true (row_of commit) _ h in
      let (passed, checked, goes_on) =
        >>=-eq-ok (check_row run include_evidence commit (words row)) _ k in
      let (good, rest) =
        if-then passed (check_commits run include_evidence commits) (ok false) (λ f. cc f)
          goes_on in
      let (parent, parents, w, edges) = check_row_sound commit (words row) (checked ∙ ap ok good) in
      ((row, e, parent, parents, w, edges), check_commits_sound commits rest)

  check_commits_complete :
      (commits : List String)
      → All IsAuditCommit commits
      → check_commits run include_evidence commits ≡ ok true
  unfolding check_commits
  check_commits_complete [] h = refl
  check_commits_complete (commit ∷ commits) ((row, e, parent, parents, w, edges), rest) =
      rw (e, check_row_complete commit (words row) parent parents w edges)
        (check_commits_complete commits rest)

  -- The walk answers yes exactly where the first commit is an ancestor of the last, Git lists the
  -- commits between them, and each commit that is listed has parents to each of which its edge
  -- changes audit paths only. So no commit in between can touch another path, not even one that a
  -- later commit undoes, and a call of Git that fails is never taken for a yes.
  pub every_descendant_commit_is_audit_only_iff :
      (start_sha end_sha : String)
      → (every_descendant_commit_is_audit_only run include_evidence start_sha end_sha ≡ ok true) ↔ (
          (is_ancestor run start_sha end_sha ≡ ok true)
          × (text : String) × (listing run include_evidence start_sha end_sha ≡ ok text)
          × All IsAuditCommit (splitlines text))
  unfolding every_descendant_commit_is_audit_only
  every_descendant_commit_is_audit_only_iff start_sha end_sha = (
    λ h.
        let (ancestor, e, k) = >>=-eq-ok (is_ancestor run start_sha end_sha) _ h in
        let (good, rest) = if-then ancestor _ (ok false) (λ f. cc f) k in
        let (text, listed, checked) =
          or_false-eq-true (listing run include_evidence start_sha end_sha) _ rest in
        (e ∙ ap ok good, text, listed, check_commits_sound (splitlines text) checked),
    λ (e, text, listed, commits). rw (e, listed) (check_commits_complete (splitlines text) commits),
  )
