-- ===== src/MergeGate/Exact.antt =====
-- src/sddgov/merge_gate.py: what each stage of `verify_merge` establishes when it lets the next run.
use agentic_sdd_governance.Base.{
  ◌≡◌, refl, ap, ◌∙◌, String, ◌<>◌, Bool, true, false, not, ◌||◌, Option, none, some, ◌⊎◌, inl, inr,
  List, [], ◌∷◌, ◌++◌, map, any, keep, arith, All, if◌then◌else◌, ◌==◌, eq_refl, subst, Result, ok,
  err, value_error, os_error, type_error, key_error, attribute_error, file_not_found, refuse,
  refuse-eq-ok, >>=-eq-ok, ok-injective, Ensures, Ensures-bind, Ensures-eq-ok,
}
use Prim.Native.String.{compare}
use Prim.Native.Nat.{Ordering}
use agentic_sdd_governance.Python.Value.{str, Fields, get, truthy, is_null}
use agentic_sdd_governance.Python.Str.{splitlines}
use agentic_sdd_governance.MergeGate.Git.{Git, git, insert, sorted_set}
use agentic_sdd_governance.MergeGate.Paths.{bounded_repository_path, is_protected}
use agentic_sdd_governance.MergeGate.Rollback.{text_at, is_in_candidate_range}
use agentic_sdd_governance.MergeGate.Reviewers.{trusted_reviewers}
use agentic_sdd_governance.MergeGate.Review.{verify_review_receipt}
use agentic_sdd_governance.MergeGate.Signed.{IsApproved, verify_review_receipt-IsApproved}
use agentic_sdd_governance.MergeGate.GateFile.{bounded-text_at, passed}
use agentic_sdd_governance.MergeGate.Verify.{
  World, dep_errors, refuse_errors, verify_deps, is_raw, raw_paths, refuse_raw, check_raw,
  contract_at, check_contract, rollback_missing, rollback_text, check_rollback,
  gate_metadata_digest, is_no_path, check_review_of, check_local, skipped, protected_among,
}

nothing {ℓ} :
    {A B : Type ℓ} (f : A → B) (xs : List A) (ys : List B)
    → map f xs ++ ys ≡ []
    → (xs ≡ []) × (ys ≡ [])
nothing f [] ys h = (refl, h)
nothing f (x ∷ xs) ys h = cc

nothing_of {ℓ} :
    {A : Type ℓ} (b : Bool) (x : A) (rest ys : List A)
    → elim b [ true ↦ x ∷ rest | false ↦ rest ] ++ ys ≡ []
    → (b ≡ false) × (rest ++ ys ≡ [])
nothing_of true x rest ys h = cc
nothing_of false x rest ys h = (refl, h)

nothing_kept {ℓ} :
    {A : Type ℓ} (test : A → Bool) (xs ys : List A)
    → keep test xs ++ ys ≡ []
    → All (λ x. test x ≡ false) xs × (ys ≡ [])
nothing_kept test [] ys h = (tt, h)
nothing_kept test (x ∷ xs) ys h =
    let (rejected, k) = nothing_of (test x) x (keep test xs) ys h in
    let (others, nil) = nothing_kept test xs ys k in ((rejected, others), nil)

refuse_errors-eq-ok :
    (errors : List String) {u : Unit {0}} → refuse_errors errors ≡ ok u → errors ≡ []
unfolding refuse_errors
refuse_errors-eq-ok [] h = refl
refuse_errors-eq-ok (e ∷ errors) h = cc

refuse_raw-eq-ok : (paths : List String) {u : Unit {0}} → refuse_raw paths ≡ ok u → paths ≡ []
unfolding refuse_raw
refuse_raw-eq-ok [] h = refl
refuse_raw-eq-ok (path ∷ paths) h = cc

placed-nonempty :
    (o : Ordering) (a b c : List String) (s t : String)
    → elim o [ Ordering.lt ↦ s ∷ a | Ordering.eq ↦ t ∷ b | Ordering.gt ↦ t ∷ c ] ≡ []
    → ⊥
placed-nonempty Ordering.lt a b c s t h = cc
placed-nonempty Ordering.eq a b c s t h = cc
placed-nonempty Ordering.gt a b c s t h = cc

insert-nonempty : (s : String) (texts : List String) → insert s texts ≡ [] → ⊥
unfolding insert
insert-nonempty s [] h = cc
insert-nonempty s (t ∷ texts) h =
    placed-nonempty (compare s t) (t ∷ texts) texts (insert s texts) s t h

sorted_set-eq-nil : (texts : List String) → sorted_set texts ≡ [] → texts ≡ []
unfolding sorted_set
sorted_set-eq-nil [] h = refl
sorted_set-eq-nil (s ∷ texts) h = absurd (insert-nonempty s (sorted_set texts) h)

refused-Ensures :
    (P : Unit {0} → Type 0) (bad : Bool) (message : String)
    → (bad ≡ false → P tt)
    → Ensures P (refuse bad message)
refused-Ensures P true message k = tt
refused-Ensures P false message k = k refl

if_checked {ℓ} :
    {A : Type ℓ} (b : Bool) (x y : A) {z : A} → (if b then x else y) ≡ z → (b ≡ false) ⊎ (x ≡ z)
if_checked true x y h = inr h
if_checked false x y h = inl refl

-- No path of the tree of the commit is below a raw directory.
abbrev pub IsClean : Git → String → Type 0
IsClean run commit =
    (tree : String) × (git run ("ls-tree" ∷ "-r" ∷ "--name-only" ∷ commit ∷ []) ≡ ok tree)
    × All (λ path. is_raw path ≡ false) (splitlines tree)

raw_paths-eq-nil :
    (run : Git) (commits : List String) → raw_paths run commits ≡ ok [] → All (IsClean run) commits
unfolding raw_paths
raw_paths-eq-nil run [] h = tt
raw_paths-eq-nil run (commit ∷ commits) h =
    let (tree, e, k) = >>=-eq-ok (git run ("ls-tree" ∷ "-r" ∷ "--name-only" ∷ commit ∷ [])) _ h in
    let (others, f, l) = >>=-eq-ok (raw_paths run commits) _ k in
    let (clean, none_left) = nothing_kept is_raw (splitlines tree) others (ok-injective l) in
    ((tree, e, clean), raw_paths-eq-nil run commits (f ∙ ap ok none_left))

-- Every commit between the base and the head is without raw evidence.
abbrev pub IsWithoutRaw : Git → String → Type 0
IsWithoutRaw run base_ref =
    (text : String) × (git run ("rev-list" ∷ (base_ref <> "..HEAD") ∷ []) ≡ ok text)
    × All (IsClean run) (splitlines text)

pub check_raw-eq-ok :
    (run : Git) (base_ref : String) {u : Unit {0}}
    → check_raw run base_ref ≡ ok u
    → IsWithoutRaw run base_ref
unfolding check_raw
check_raw-eq-ok run base_ref h =
    let (text, e, k) = >>=-eq-ok (git run ("rev-list" ∷ (base_ref <> "..HEAD") ∷ [])) _ h in
    let (paths, f, l) = >>=-eq-ok (raw_paths run (splitlines text)) _ k in
    let none_left = sorted_set-eq-nil paths (refuse_raw-eq-ok (sorted_set paths) l) in
    (text, e, raw_paths-eq-nil run (splitlines text) (f ∙ ap ok none_left))

module _ (w : World) where
  -- The DEP is in the repository and verifies without an error.
  abbrev pub IsVerified : String → Type 0
  IsVerified relative =
      (path : List String) × (bounded_repository_path w.files (str relative) "merge DEP" ≡ ok path)
      × (w.verify_dep path ≡ ok [])

  dep_errors-eq-nil : (deps : List String) → dep_errors w deps ≡ ok [] → All IsVerified deps
  unfolding dep_errors
  dep_errors-eq-nil [] h = tt
  dep_errors-eq-nil (relative ∷ deps) h =
      let (path, e, k) =
        >>=-eq-ok (bounded_repository_path w.files (str relative) "merge DEP") _ h in
      let (errors, f, l) = >>=-eq-ok (w.verify_dep path) _ k in
      let (others, g, o) = >>=-eq-ok (dep_errors w deps) _ l in
      let (here, later) =
        nothing (λ error. relative <> ": " <> error) errors others (ok-injective o) in
      ((path, e, f ∙ ap ok here), dep_errors-eq-nil deps (g ∙ ap ok later))

  pub verify_deps-eq-ok :
      (deps : List String) {u : Unit {0}} → verify_deps w deps ≡ ok u → All IsVerified deps
  unfolding verify_deps
  verify_deps-eq-ok deps h =
      let (errors, e, k) = >>=-eq-ok (dep_errors w deps) _ h in
      dep_errors-eq-nil deps (e ∙ ap ok (refuse_errors-eq-ok errors k))

  rollback_text-eq-ok :
      (r : Result String) {text : String}
      → elim r [
        | ok text ↦ ok text
        | err e ↦ elim e [
          | value_error m ↦ err (value_error (rollback_missing w))
          | other ↦ err other
        ]
      ]
        ≡ ok text
      → r ≡ ok text
  rollback_text-eq-ok (ok text) h = h
  rollback_text-eq-ok (err (value_error m)) h = cc
  rollback_text-eq-ok (err (os_error m)) h = cc
  rollback_text-eq-ok (err type_error) h = cc
  rollback_text-eq-ok (err key_error) h = cc
  rollback_text-eq-ok (err attribute_error) h = cc
  rollback_text-eq-ok (err file_not_found) h = cc

  -- The record of the rollback, as it stands at the reviewed head, names a commit of the candidate that can be reverted, and the trial
  -- of it is green where trials are run.
  abbrev pub IsRevertible : Bool → String → String → Fields → Type 0
  IsRevertible run_checks base_sha reviewed_head_sha gate =
      (relative text : String) × (rollback : Fields) × (get "rollback_path" gate ≡ str relative)
      × (git w.run ("show" ∷ (reviewed_head_sha <> ":" <> relative) ∷ []) ≡ ok text)
      × (contract_at w base_sha relative text ≡ some rollback)
      × (is_in_candidate_range w.run (text_at "rollback_ref" rollback) base_sha reviewed_head_sha
          ≡ ok true)
      × (w.is_cleanly_revertible (text_at "rollback_ref" rollback) base_sha reviewed_head_sha
          ≡ ok true)
      × ((run_checks ≡ false) ⊎ (w.is_green rollback reviewed_head_sha ≡ ok true))

  check_contract-Ensures :
      (run_checks : Bool) (base_sha reviewed_head_sha text : String) (gate : Fields)
      (contract : Option Fields)
      → get "rollback_path" gate ≡ str (text_at "rollback_path" gate)
      → git w.run ("show" ∷ (reviewed_head_sha <> ":" <> text_at "rollback_path" gate) ∷ [])
        ≡ ok text
      → contract_at w base_sha (text_at "rollback_path" gate) text ≡ contract
      → Ensures
          (λ _. IsRevertible run_checks base_sha reviewed_head_sha gate)
          (check_contract w run_checks base_sha reviewed_head_sha contract)
  unfolding check_contract
  check_contract-Ensures run_checks base_sha reviewed_head_sha text gate none named shown e = tt
  check_contract-Ensures run_checks base_sha reviewed_head_sha text gate (some rollback) named shown
        e =
      let P : Unit {0} → Type 0 = λ _. IsRevertible run_checks base_sha reviewed_head_sha gate in
      let rollback_ref = text_at "rollback_ref" rollback in
      Ensures-bind P (is_in_candidate_range w.run rollback_ref base_sha reviewed_head_sha) _
        (λ inside a. Ensures-bind P (refuse (not inside) (rollback_missing w)) _ (λ _ a'.
          Ensures-bind P (w.is_cleanly_revertible rollback_ref base_sha reviewed_head_sha) _
            (λ clean b. Ensures-bind P (refuse (not clean) (rollback_missing w)) _ (λ _ b'.
              Ensures-bind P (if run_checks then w.is_green rollback reviewed_head_sha else ok true)
                _
                (λ green c.
                  refused-Ensures P (not green) "rollback post-condition did not return to Green"
                    (λ good. (
                      text_at "rollback_path" gate,
                      text,
                      rollback,
                      named,
                      shown,
                      e,
                      a ∙ ap ok (passed inside (rollback_missing w) a'),
                      b ∙ ap ok (passed clean (rollback_missing w) b'),
                      if_checked run_checks _ _ (c ∙ ap ok (ground arith)),
                    )))))))

  pub check_rollback-Ensures :
      (run_checks : Bool) (base_sha reviewed_head_sha : String) (gate : Fields)
      → Ensures
          (λ _. IsRevertible run_checks base_sha reviewed_head_sha gate)
          (check_rollback w run_checks base_sha reviewed_head_sha gate)
  unfolding check_rollback rollback_text
  check_rollback-Ensures run_checks base_sha reviewed_head_sha gate =
      let P : Unit {0} → Type 0 = λ _. IsRevertible run_checks base_sha reviewed_head_sha gate in
      Ensures-bind P (bounded_repository_path w.files (get "rollback_path" gate) "rollback") _
        (λ _ bounded.
          Ensures-bind P (rollback_text w reviewed_head_sha (text_at "rollback_path" gate)) _
            (λ text shown.
              check_contract-Ensures run_checks base_sha reviewed_head_sha text gate _
                (bounded-text_at w.files "rollback_path" gate "rollback" bounded)
                (rollback_text-eq-ok _ shown) refl))

  -- The review that the protected paths among the changed ones ask for: an approval that is
  -- checked against the store of the base, or none, and none declared.
  abbrev pub IsReviewed : String → String → Fields → List String → Option Fields → Type 0
  IsReviewed base_ref digest gate [] o =
      (o ≡ none) × (is_null (get "protected_file_review" gate) ≡ true)
  IsReviewed base_ref digest gate (path ∷ paths) o =
      (review : Fields) × (o ≡ some review)
      × (metadata : String) × (gate_metadata_digest w.host gate ≡ ok metadata)
      × (trust : Fields) × (trusted_reviewers w.run w.loads w.external base_ref ≡ ok trust)
      × IsApproved w.host w.signatures w.now (text_at "builder_id" gate) digest metadata trust
          review

  pub check_review_of-IsReviewed :
      (base_ref digest : String) (gate : Fields) (protected : List String)
      → Ensures
          (IsReviewed base_ref digest gate protected)
          (check_review_of w base_ref digest gate protected)
  unfolding check_review_of
  check_review_of-IsReviewed base_ref digest gate [] =
      Ensures-bind (IsReviewed base_ref digest gate [])
        (refuse (not (is_null (get "protected_file_review" gate)))
          "protected_file_review must be null when no protected file changed")
        _
        (λ _ e.
          let declared = refuse-eq-ok (not (is_null (get "protected_file_review" gate))) _ e in
          (refl, ground arith))
  check_review_of-IsReviewed base_ref digest gate (path ∷ paths) =
      let P = IsReviewed base_ref digest gate (path ∷ paths) in
      Ensures-bind P
        (refuse (is_no_path (get "protected_file_review" gate))
          "protected-file changes require a signed independent review receipt")
        _
        (λ _ _. Ensures-bind P (gate_metadata_digest w.host gate) _ (λ metadata e.
          Ensures-bind P (trusted_reviewers w.run w.loads w.external base_ref) _ (λ trust f.
            Ensures-bind P
              (verify_review_receipt w.host w.signatures w.files w.load w.now
                (get "protected_file_review" gate) (text_at "builder_id" gate) digest metadata
                trust)
              _
              (λ review g. (
                review,
                refl,
                metadata,
                e,
                trust,
                f,
                Ensures-eq-ok _ _
                    (verify_review_receipt-IsApproved w.host w.signatures w.files w.load w.now
                      (text_at "builder_id" gate) digest metadata trust
                      (get "protected_file_review" gate))
                    g,
              )))))

  -- The checks of the project have passed, where they are run.
  pub check_local-Ensures :
      (run_checks : Bool)
      → Ensures
          (λ local_green.
            ((run_checks ≡ false) ⊎ (w.run_local_gate ≡ ok local_green))
            × (truthy (get "ok" local_green) ≡ true))
          (check_local w run_checks)
  unfolding check_local
  check_local-Ensures run_checks =
      let P : Fields → Type 0 = λ local_green.
        ((run_checks ≡ false) ⊎ (w.run_local_gate ≡ ok local_green))
        × (truthy (get "ok" local_green) ≡ true) in
      Ensures-bind P (if run_checks then w.run_local_gate else ok (skipped w)) _ (λ local_green c.
        Ensures-bind P
          (refuse (not (truthy (get "ok" local_green))) "Local Green Gate did not pass") _
          (λ _ e. (if_checked run_checks _ _ c, passed _ _ e)))

-- Each protected path among the changed ones is found.
abbrev pub IsFound : Result (List String) → List String → String → Type 0
IsFound policy protected path =
    (patterns : List String) × (policy ≡ ok patterns)
    × ((not (is_protected path patterns) || any (λ other. path == other) protected) ≡ true)

IsFound-more :
    (policy : Result (List String)) (paths others : List String) (b : Bool) (first : String)
    → All (IsFound policy others) paths
    → All (IsFound policy (if b then first ∷ others else others)) paths
IsFound-more policy [] others b first h = tt
IsFound-more policy (path ∷ paths) others true first ((patterns, e, k), h) =
    ((patterns, e, ground arith), IsFound-more policy paths others true first h)
IsFound-more policy (path ∷ paths) others false first h = h

found_first :
    (b : Bool) (path : String) (others : List String)
    → (not b || any (λ other. path == other) (if b then path ∷ others else others)) ≡ true
found_first true path others = rw (eq_refl path) refl
found_first false path others = refl

pub protected_among-eq-ok :
    (policy : Result (List String)) (paths : List String) {protected : List String}
    → protected_among policy paths ≡ ok protected
    → All (IsFound policy protected) paths
unfolding protected_among
protected_among-eq-ok policy [] h = tt
protected_among-eq-ok policy (path ∷ paths) h =
    let (patterns, e, k) = >>=-eq-ok policy _ h in
    let (others, f, l) = >>=-eq-ok (protected_among policy paths) _ k in
    subst (λ p. All (IsFound policy p) (path ∷ paths)) (ok-injective l)
      (
        (patterns, e, found_first (is_protected path patterns) path others),
        IsFound-more policy paths others (is_protected path patterns) path
            (protected_among-eq-ok policy paths f),
      )
