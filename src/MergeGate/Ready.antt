-- ===== src/MergeGate/Ready.antt =====
-- src/sddgov/merge_gate.py: what holds of a change that `verify_merge` finds ready.
use agentic_sdd_governance.Base.{
  ◌≡◌, ◌⊎◌, false, sym, ap, ◌∙◌, String, ◌<>◌, Bool, true, not, List, [], ◌∷◌, All, ok, refuse, map,
  >>=-eq-ok, ok-injective, Ensures-eq-ok, ◌||◌, any, Ensures, Ensures-bind,
}
use agentic_sdd_governance.Python.Value.{str, arr, of_list, Fields, get, is_text, eq_str, truthy}
use agentic_sdd_governance.Python.Str.{is_empty, join}
use agentic_sdd_governance.MergeGate.Git.{git, change_digest, changed_paths}
use agentic_sdd_governance.MergeGate.Ancestry.{only_audit_changes_after_review}
use agentic_sdd_governance.MergeGate.Review.{load_json}
use agentic_sdd_governance.MergeGate.Verify.{
  World, Merge, report, check_gate, verify_deps, check_rollback, check_raw, protected_among,
  check_review_of, check_local, policy_at, check_items, find_rest, find_merge, verify_merge,
}
use agentic_sdd_governance.MergeGate.GateFile.{
  check_gate-Names, check_items-Lists, empty_of, passed,
}
use agentic_sdd_governance.MergeGate.Exact.{
  IsVerified, verify_deps-eq-ok, IsRevertible, check_rollback-Ensures, IsWithoutRaw,
  check_raw-eq-ok, IsFound, protected_among-eq-ok, IsReviewed, check_review_of-IsReviewed,
  check_local-Ensures,
}

-- What the worktree, the base and the gate file say of a merge that the gate lets through.
pub record IsPinned (w : World) (base_ref : String) (gate_path : List String)
    (head_sha base_sha reviewed_head_sha : String) (gate : Fields) : Type 0 where
  pub clean : git w.run ("status" ∷ "--porcelain" ∷ []) ≡ ok ""
  pub head : git w.run ("rev-parse" ∷ "HEAD" ∷ []) ≡ ok head_sha
  pub base : git w.run ("rev-parse" ∷ "--verify" ∷ (base_ref <> "^{commit}") ∷ []) ≡ ok base_sha
  pub read : load_json (w.load gate_path) (join "/" gate_path) ≡ ok gate
  pub on_base : get "base_sha" gate ≡ str base_sha
  pub of_head : get "head_sha" gate ≡ str reviewed_head_sha
  pub audited : only_audit_changes_after_review w.run reviewed_head_sha head_sha ≡ ok true

-- What has been checked of the change.
pub record IsReady (w : World) (base_ref : String) (gate_path : List String) (run_checks : Bool)
    (m : Merge) : Type 0 where
  pub pinned : IsPinned w base_ref gate_path m.head_sha m.base_sha m.reviewed_head_sha m.gate
  pub exact : change_digest w.run w.sha256 base_ref ≡ ok m.digest
  pub bound : eq_str (get "change_digest" m.gate) m.digest ≡ true
  pub listed : get "deps" m.gate ≡ arr (of_list (map str m.deps))
  pub enough : (eq_str (get "risk_level" m.gate) "L0" || any (λ dep. true) m.deps) ≡ true
  pub evidence : All (IsVerified w) m.deps
  pub rollback : IsRevertible w run_checks m.base_sha m.reviewed_head_sha m.gate
  pub without_raw : IsWithoutRaw w.run base_ref
  pub changed : List String
  pub changed_eq : changed_paths w.run base_ref "HEAD" ≡ ok changed
  pub found : All (IsFound (policy_at w base_ref) m.protected) changed
  pub reviewed : IsReviewed w base_ref m.digest m.gate m.protected m.review
  pub green : (run_checks ≡ false) ⊎ (w.run_local_gate ≡ ok m.local_green)
  pub passing : truthy (get "ok" m.local_green) ≡ true

find_rest-IsReady :
    (w : World) (base_ref : String) (gate_path : List String) (run_checks : Bool)
    (head_sha base_sha reviewed_head_sha : String) (gate : Fields)
    → IsPinned w base_ref gate_path head_sha base_sha reviewed_head_sha gate
    → Ensures
        (IsReady w base_ref gate_path run_checks)
        (find_rest w base_ref run_checks head_sha base_sha reviewed_head_sha gate)
unfolding find_rest
find_rest-IsReady w base_ref gate_path run_checks head_sha base_sha reviewed_head_sha gate pinned =
    let P = IsReady w base_ref gate_path run_checks in
    Ensures-bind P (change_digest w.run w.sha256 base_ref) _ (λ digest exact.
      Ensures-bind P
        (refuse (not (eq_str (get "change_digest" gate) digest))
          "merge gate change_digest does not match the exact executable change")
        _
        (λ _ bound. Ensures-bind P (check_items gate (get "deps" gate)) _ (λ deps listed.
          Ensures-bind P (verify_deps w deps) _ (λ _ verified.
            Ensures-bind P (check_rollback w run_checks base_sha reviewed_head_sha gate) _
              (λ _ rolled. Ensures-bind P (check_raw w.run base_ref) _ (λ _ raw.
                Ensures-bind P (changed_paths w.run base_ref "HEAD") _ (λ changed changes.
                  Ensures-bind P (protected_among (policy_at w base_ref) changed) _
                    (λ protected among.
                      Ensures-bind P (check_review_of w base_ref digest gate protected) _
                        (λ review asked.
                          Ensures-bind P (check_local w run_checks) _ (λ local_green tested.
                            let checks =
                              Ensures-eq-ok _ _ (check_local-Ensures w run_checks) tested in
                            record {
                              pinned = pinned;
                              exact = exact;
                              bound = passed (eq_str (get "change_digest" gate) digest) _ bound;
                              listed =
                                  (Ensures-eq-ok _ _ (check_items-Lists gate (get "deps" gate))
                                    listed).0;
                              enough =
                                  (Ensures-eq-ok _ _ (check_items-Lists gate (get "deps" gate))
                                    listed).1;
                              evidence = verify_deps-eq-ok w deps verified;
                              rollback =
                                  Ensures-eq-ok _ _
                                    (check_rollback-Ensures w run_checks base_sha reviewed_head_sha
                                      gate)
                                    rolled;
                              without_raw = check_raw-eq-ok w.run base_ref raw;
                              changed = changed;
                              changed_eq = changes;
                              found = protected_among-eq-ok (policy_at w base_ref) changed among;
                              reviewed =
                                  Ensures-eq-ok _ _
                                    (check_review_of-IsReviewed w base_ref digest gate protected)
                                    asked;
                              green = checks.0;
                              passing = checks.1;
                            }))))))))))

find_merge-IsReady :
    (w : World) (base_ref : String) (gate_path : List String) (run_checks : Bool)
    → Ensures (IsReady w base_ref gate_path run_checks) (find_merge w base_ref gate_path run_checks)
unfolding find_merge
find_merge-IsReady w base_ref gate_path run_checks =
    let P = IsReady w base_ref gate_path run_checks in
    Ensures-bind P (git w.run ("status" ∷ "--porcelain" ∷ [])) _ (λ status s.
      Ensures-bind P
        (refuse (not (is_empty status)) "merge verification requires a clean exact-HEAD worktree") _
        (λ _ clean. Ensures-bind P (git w.run ("rev-parse" ∷ "HEAD" ∷ [])) _ (λ head_sha head.
          Ensures-bind P (git w.run ("rev-parse" ∷ "--verify" ∷ (base_ref <> "^{commit}") ∷ [])) _
            (λ base_sha base.
              Ensures-bind P (load_json (w.load gate_path) (join "/" gate_path)) _ (λ gate read.
                Ensures-bind P (check_gate base_sha gate) _ (λ reviewed_head_sha on_base.
                  Ensures-bind P (only_audit_changes_after_review w.run reviewed_head_sha head_sha)
                    _
                    (λ reviewed audited.
                      Ensures-bind P
                        (refuse (not reviewed)
                          "merge gate head_sha is not the exact reviewed Head or has non-audit descendants")
                        _
                        (λ _ only.
                          Ensures-bind P
                            (refuse (not (is_text (get "builder_id" gate)))
                              "merge gate builder_id is required")
                            _
                            (λ _ _.
                              find_rest-IsReady w base_ref gate_path run_checks head_sha base_sha
                                reviewed_head_sha gate
                                (record {
                                  clean =
                                      s
                                      ∙ ap ok (empty_of status (passed (is_empty status) _ clean));
                                  head = head;
                                  base = base;
                                  read = read;
                                  on_base =
                                      (Ensures-eq-ok _ _ (check_gate-Names base_sha gate)
                                        on_base).0;
                                  of_head =
                                      (Ensures-eq-ok _ _ (check_gate-Names base_sha gate)
                                        on_base).1;
                                  audited = audited ∙ ap ok (passed reviewed _ only);
                                }))))))))))

-- Where `verify_merge` answers, its answer reports a merge of which this holds: the worktree is
-- clean; the gate file is the one at the given path, names the exact base, and names as the reviewed
-- head a commit since which only audit paths were changed, on any edge; the digest in the file is
-- that of the change; the DEPs are those of the file, at least one unless the risk is L0, and all of
-- them verify; the rollback record that the file names, read at the reviewed head, names a commit of
-- the candidate that reverts cleanly, with a green trial where trials are run; no commit has raw
-- evidence; every changed path that the policy of the base protects is found, and if there is one
-- then somebody else than the builder has approved this change and this gate with a signature that
-- verifies; and the local gate is green where checks are run.
pub verify_merge-IsReady :
    (w : World) (base_ref : String) (gate_path : List String) (run_checks : Bool) (answer : Fields)
    → verify_merge w base_ref gate_path run_checks ≡ ok answer
    → (m : Merge) × (answer ≡ report base_ref m) × IsReady w base_ref gate_path run_checks m
unfolding verify_merge
verify_merge-IsReady w base_ref gate_path run_checks answer h =
    let (m, e, k) = >>=-eq-ok (find_merge w base_ref gate_path run_checks) _ h in
    (
      m,
      sym (ok-injective k),
      Ensures-eq-ok _ _ (find_merge-IsReady w base_ref gate_path run_checks) e,
    )
