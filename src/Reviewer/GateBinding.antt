-- ===== src/Reviewer/GateBinding.antt =====
-- src/sddgov/reviewer.py: what `_review_binding` has checked of the gate file.
use agentic_sdd_governance.Base.{
  ◌≡◌, ap, ◌∙◌, String, ◌<>◌, true, not, Option, none, some, List, [], ◌∷◌, ok, ok-injective,
  refuse, >>-eq-ok, Ensures, Ensures-bind,
}
use agentic_sdd_governance.Python.Value.{
  Value, null, bool, int, float, str, arr, obj, Fields, get, eq_str,
}
use agentic_sdd_governance.Python.Laws.{eq_str-eq}
use agentic_sdd_governance.Python.Str.{is_empty}
use agentic_sdd_governance.MergeGate.Git.{git, change_digest}
use agentic_sdd_governance.MergeGate.Ancestry.{only_audit_changes_after_review}
use agentic_sdd_governance.MergeGate.Review.{Loaded, unreadable, undecodable, loaded}
use agentic_sdd_governance.MergeGate.Verify.{World, gate_metadata_digest}
use agentic_sdd_governance.MergeGate.GateFile.{empty_of, passed}
use agentic_sdd_governance.Reviewer.Sign.{
  Binding, read_gate, as_argument, inside_root, review_binding, required_base,
}

-- The worktree is clean; the gate file is the one at this path, of this base and this change, and
-- nothing but audit paths was changed since the head that it names.
pub record IsBound (w : World) (base_ref : String) (path : List String) (b : Binding) : Type 0 where
  pub clean : git w.run ("status" ∷ "--porcelain" ∷ []) ≡ ok ""
  pub read : w.load path ≡ loaded (obj b.gate)
  pub base_sha : String
  pub base : git w.run ("rev-parse" ∷ "--verify" ∷ (base_ref <> "^{commit}") ∷ []) ≡ ok base_sha
  pub on_base : get "base_sha" b.gate ≡ str base_sha
  pub reviewed_head : String
  pub of_head : get "head_sha" b.gate ≡ str reviewed_head
  pub head : String
  pub current : git w.run ("rev-parse" ∷ "HEAD" ∷ []) ≡ ok head
  pub audited : only_audit_changes_after_review w.run reviewed_head head ≡ ok true
  pub exact : change_digest w.run w.sha256 base_ref ≡ ok b.digest
  pub of_change : get "change_digest" b.gate ≡ str b.digest
  pub metadata : gate_metadata_digest w.host b.gate ≡ ok b.metadata_digest

read_gate-eq-ok :
    (file : Loaded) {gate : Fields} → read_gate file ≡ ok gate → file ≡ loaded (obj gate)
unfolding read_gate
read_gate-eq-ok (unreadable detail) h = cc
read_gate-eq-ok (undecodable detail) h = cc
read_gate-eq-ok (loaded null) h = cc
read_gate-eq-ok (loaded (bool b)) h = cc
read_gate-eq-ok (loaded (int n)) h = cc
read_gate-eq-ok (loaded (float m k)) h = cc
read_gate-eq-ok (loaded (str s)) h = cc
read_gate-eq-ok (loaded (arr items)) h = cc
read_gate-eq-ok (loaded (obj gate)) h = ap (λ d. loaded (obj d)) (ok-injective (>>-eq-ok _ _ _ h).1)

as_argument-eq-ok : (v : Value) {s : String} → as_argument v ≡ ok s → v ≡ str s
unfolding as_argument
as_argument-eq-ok null h = cc
as_argument-eq-ok (bool b) h = cc
as_argument-eq-ok (int n) h = cc
as_argument-eq-ok (float m k) h = cc
as_argument-eq-ok (str s) h = ap str (ok-injective h)
as_argument-eq-ok (arr items) h = cc
as_argument-eq-ok (obj d) h = cc

inside_root-eq-ok :
    (o : Option (List String)) {path : List String} → inside_root o ≡ ok path → o ≡ some path
unfolding inside_root
inside_root-eq-ok none h = cc
inside_root-eq-ok (some path) h = ap some (ok-injective h)

pub required_base-eq-ok : (o : Option String) {s : String} → required_base o ≡ ok s → o ≡ some s
unfolding required_base
required_base-eq-ok none h = cc
required_base-eq-ok (some s) h = ap some (ok-injective h)

pub review_binding-IsBound :
    (w : World) (base_ref : String) (gate_path : Option (List String))
    → Ensures
        (λ b. (path : List String) × (gate_path ≡ some path) × IsBound w base_ref path b)
        (review_binding w base_ref gate_path)
unfolding review_binding
review_binding-IsBound w base_ref gate_path =
    let P : Binding → Type 0 =
      λ b. (path : List String) × (gate_path ≡ some path) × IsBound w base_ref path b in
    Ensures-bind P (git w.run ("status" ∷ "--porcelain" ∷ [])) _ (λ status s.
      Ensures-bind P
        (refuse (not (is_empty status)) "review signing requires a clean exact-HEAD worktree") _
        (λ _ clean. Ensures-bind P (inside_root gate_path) _ (λ path inside.
          Ensures-bind P (read_gate (w.load path)) _ (λ gate read.
            Ensures-bind P (git w.run ("rev-parse" ∷ "--verify" ∷ (base_ref <> "^{commit}") ∷ [])) _
              (λ base_sha base.
                Ensures-bind P
                  (refuse (not (eq_str (get "base_sha" gate) base_sha))
                    "merge gate base_sha does not match the independently selected base")
                  _
                  (λ _ on_base. Ensures-bind P (git w.run ("rev-parse" ∷ "HEAD" ∷ [])) _ (λ head h.
                    Ensures-bind P (as_argument (get "head_sha" gate)) _ (λ reviewed_head of_head.
                      Ensures-bind P (only_audit_changes_after_review w.run reviewed_head head) _
                        (λ reviewed audited.
                          Ensures-bind P
                            (refuse (not reviewed)
                              "merge gate head_sha is not the exact reviewed Head or has non-audit descendants")
                            _
                            (λ _ only.
                              Ensures-bind P (change_digest w.run w.sha256 base_ref) _
                                (λ digest exact.
                                  Ensures-bind P
                                    (refuse (not (eq_str (get "change_digest" gate) digest))
                                      "merge gate change_digest does not match the exact executable change")
                                    _
                                    (λ _ same.
                                      Ensures-bind P (gate_metadata_digest w.host gate) _
                                        (λ metadata m. (
                                          path,
                                          inside_root-eq-ok gate_path inside,
                                          record {
                                            clean =
                                                s
                                                ∙ ap ok (
                                                    empty_of status
                                                      (passed (is_empty status) _ clean));
                                            read = read_gate-eq-ok (w.load path) read;
                                            base_sha = base_sha;
                                            base = base;
                                            on_base = eq_str-eq (get "base_sha" gate) base_sha (
                                                passed (eq_str (get "base_sha" gate) base_sha) _
                                                  on_base);
                                            reviewed_head = reviewed_head;
                                            of_head =
                                                as_argument-eq-ok (get "head_sha" gate) of_head;
                                            head = head;
                                            current = h;
                                            audited = audited ∙ ap ok (passed reviewed _ only);
                                            exact = exact;
                                            of_change =
                                                eq_str-eq (get "change_digest" gate) digest (
                                                  passed (eq_str (get "change_digest" gate) digest)
                                                    _ same);
                                            metadata = m;
                                          },
                                        ))))))))))))))
