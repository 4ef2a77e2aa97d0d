-- ===== src/MergeGate/Tests.antt =====
-- A small repository, and runs of the gate on it.
use agentic_sdd_governance.Python.Text.{ends_with_char, is_space}
use agentic_sdd_governance.Base.{
  ◌≡◌, refl, ◌↔◌, String, true, false, some, [], ◌∷◌, All, Every, Ensures, ok,
}
use agentic_sdd_governance.Python.Value.{truthy, put, bool, str, end, field, has_exactly, is_text}
use agentic_sdd_governance.Python.Str.{
  contains, drop, cut_at, contains_char, starts_with, words, strip, join, splitlines,
}
use agentic_sdd_governance.Governance.Actions.Row.{member}
use agentic_sdd_governance.Python.Text.{is_space}
use agentic_sdd_governance.Host.{replace_z}
use agentic_sdd_governance.MergeGate.Git.{git, is_ancestor}
use agentic_sdd_governance.MergeGate.Paths.{
  is_protected, parse_protected_patterns, protected_patterns, bounded_repository_path,
  is_audit_path,
}
use agentic_sdd_governance.MergeGate.Ancestry.{
  only_audit_changes_after_review, every_descendant_commit_is_audit_only, listing,
}
use agentic_sdd_governance.MergeGate.AuditOnly.{
  IsAuditCommit, every_descendant_commit_is_audit_only_iff,
}
use agentic_sdd_governance.MergeGate.Rollback.{is_in_candidate_range, rollback_contract}
use agentic_sdd_governance.MergeGate.Closed.{is_closed, rollback_contract-IsClosed}
use agentic_sdd_governance.MergeGate.Reviewers.{trusted_reviewers}
use agentic_sdd_governance.MergeGate.Anchored.{IsAnchored, trusted_reviewers-IsAnchored}
use agentic_sdd_governance.MergeGate.Review.{verify_review_receipt}
use agentic_sdd_governance.MergeGate.Signed.{IsApproved, verify_review_receipt-IsApproved}
use agentic_sdd_governance.MergeGate.Changes.{IsReadAs, changed_paths-print}
use agentic_sdd_governance.MergeGate.Git.{changed_paths, commit_edge_paths, change_digest}
use agentic_sdd_governance.MergeGate.Verify.{Merge, report, verify_merge}
use agentic_sdd_governance.MergeGate.Ready.{IsReady, verify_merge-IsReady}
use agentic_sdd_governance.MergeGate.Sample.{
  base_sha, reviewed_sha, head_sha, rollback_record, changes, edges, run, store, loads, review,
  gate, load, host, signatures, files, external, world, gate_path, find_answer,
}

abbrev merge : Merge
merge = record {
  head_sha = head_sha;
  base_sha = base_sha;
  reviewed_head_sha = reviewed_sha;
  gate = gate;
  digest = "digest";
  deps = "evidence/one" ∷ [];
  protected = "policies/a.md" ∷ [];
  review = some review;
  local_green = field "ok" (bool true) end;
}

passes : verify_merge world "main" gate_path true ≡ ok (report "main" merge)
unfolding verify_merge report find_answer git join strip has_exactly member is_space is_text
    only_audit_changes_after_review is_ancestor splitlines words commit_edge_paths starts_with
    is_audit_path change_digest bounded_repository_path contains_char rollback_contract cut_at drop
    put contains is_in_candidate_range changed_paths protected_patterns parse_protected_patterns
    is_protected ends_with_char replace_z truthy
passes = refl

verify_merge-IsReady_example :
    (m : Merge) × (report "main" merge ≡ report "main" m) × IsReady world "main" gate_path true m
verify_merge-IsReady_example =
    verify_merge-IsReady world "main" gate_path true (report "main" merge) passes

audits : (every_descendant_commit_is_audit_only run false reviewed_sha head_sha) ≡ ok true
unfolding every_descendant_commit_is_audit_only is_ancestor find_answer join git splitlines strip
    is_space words commit_edge_paths starts_with is_audit_path
audits = refl

every_descendant_commit_is_audit_only_iff_example :
    (every_descendant_commit_is_audit_only run false reviewed_sha head_sha ≡ ok true) ↔ (
      (is_ancestor run reviewed_sha head_sha ≡ ok true)
      × (text : String) × (listing run false reviewed_sha head_sha ≡ ok text)
      × All (IsAuditCommit run false) (splitlines text))
every_descendant_commit_is_audit_only_iff_example =
    every_descendant_commit_is_audit_only_iff run false reviewed_sha head_sha

rollback_contract-IsClosed_example :
    Every
      (λ c. is_closed (λ text. text) c ≡ true)
      (rollback_contract (λ text. text) false false rollback_record)
rollback_contract-IsClosed_example =
    rollback_contract-IsClosed (λ text. text) false false rollback_record

trusted_reviewers-IsAnchored_example :
    Ensures (IsAnchored run loads external "main") (trusted_reviewers run loads external "main")
trusted_reviewers-IsAnchored_example = trusted_reviewers-IsAnchored run loads external "main"

verify_review_receipt-IsApproved_example :
    Ensures (IsApproved host signatures 60 "bob" "digest" "json" store) (
      verify_review_receipt host signatures files load 60
        (str ".sddgov/reviews/one.json")
        "bob"
        "digest"
        "json"
        store)
verify_review_receipt-IsApproved_example =
    verify_review_receipt-IsApproved host signatures files load 60 "bob" "digest" "json" store
      (str ".sddgov/reviews/one.json")

changed_paths-print_example :
    IsReadAs (changed_paths run "main" "HEAD") changes
    × IsReadAs (commit_edge_paths run "main" "HEAD") edges
unfolding starts_with contains_char git find_answer join strip is_space
changed_paths-print_example =
    changed_paths-print run "main" "HEAD" changes edges ((refl, refl), (refl, tt))
      (refl, (refl, (refl, (refl, (refl, tt))))) ((refl, refl), ((refl, refl), (refl, tt)))
      (refl, (refl, (refl, (refl, (refl, (refl, (refl, tt))))))) refl refl
