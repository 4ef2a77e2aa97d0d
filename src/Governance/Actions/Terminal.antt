-- ===== src/Governance/Actions/Terminal.antt =====
-- src/sddgov/governance.py: what the queue and the resolution do to the rows of the store.
use agentic_sdd_governance.Base.{
  ℕ, ◌≡◌, refl, ap, ◌∙◌, subst, ◌<>◌, Bool, true, false, not, Option, none, some, List, [], ◌∷◌,
  ◌++◌, keep, ok, Ensures, Ensures-bind, Ensures-eq-ok, inl, after-keeps, if-keeps, refuse,
  refuse-eq-ok, >>=-eq-ok, ok-injective, leb,
}
use agentic_sdd_governance.Python.Value.{Value, str, obj, Fields, field, end, eq_str, in_names}
use agentic_sdd_governance.Host.{Host, DateTime}
use agentic_sdd_governance.Governance.Project.{Project}
use agentic_sdd_governance.Governance.Actions.Row.{row_time}
use agentic_sdd_governance.Governance.Actions.Store.{
  Loaded, load_store, validate_rows, row_get, named, change_row,
}
use agentic_sdd_governance.Governance.Actions.Enqueue.{
  Request, Plan, known, lapse, fresh, check_request, digest_of, expire, new_action, text_of,
  expiry_plan, plan_row, plan_enqueue, commit_enqueue, store_content, enqueue, reply, id_payload,
}
use agentic_sdd_governance.Governance.Actions.Resolve.{
  Resolution, Verdict, repeated, apply, check_resolution_arguments, is_same_action, check_lifetime,
  settle, outcome, plan_match, plan_resolve, commit_resolve, resolve,
}
use agentic_sdd_governance.Governance.Actions.Evolve.{
  is_pending, KeepsTerminal, Evolves-added, change_row-Evolves, written-HasEvolved,
}

not-false : (b : Bool) → not b ≡ false → b ≡ true
not-false true e = refl
not-false false e = cc

-- What a plan of the queue says of the rows of its id.
abbrev IsPlanned : List Value → Plan → Type 0
IsPlanned found (known row) = Unit
IsPlanned found fresh = Unit
IsPlanned found (lapse row) = (found ≡ row ∷ []) × (is_pending row ≡ true)

expiry_plan-IsPlanned :
    (now : ℕ) (row : Value) (o : Option DateTime)
    → is_pending row ≡ true
    → Ensures (IsPlanned (row ∷ [])) (expiry_plan now row o)
unfolding expiry_plan
expiry_plan-IsPlanned now row none pending = tt
expiry_plan-IsPlanned now row (some expiry) pending =
    if-keeps (Ensures (IsPlanned (row ∷ []))) (not expiry.aware) _ _ (λ _. tt)
      (λ _.
        if-keeps (Ensures (IsPlanned (row ∷ []))) (leb expiry.instant now) (ok (lapse row))
          (ok (known row)) (λ _. (refl, pending)) (λ _. tt))

plan_row-IsPlanned :
    (h : Host) (now : ℕ) (r : Request) (found : List Value)
    → Ensures (IsPlanned found) (plan_row h now r found)
unfolding plan_row
plan_row-IsPlanned h now r [] = tt
plan_row-IsPlanned h now r (row ∷ []) =
    let P = IsPlanned (row ∷ []) in
    Ensures-bind P
      (refuse (not (eq_str (row_get "request_sha256" row) (digest_of h r)))
        ("external action identity changed: " <> text_of r.action_id))
      _
      (λ _ _.
        Ensures-bind P
          (refuse
            (not (
              in_names (row_get "status" row)
                ("pending" ∷ "completed" ∷ "cancelled" ∷ "expired" ∷ [])))
            ("external action status is invalid: " <> text_of r.action_id))
          _
          (λ _ _.
            if-keeps (Ensures P) (is_pending row)
              (expiry_plan now row (row_time h (row_get "expires_at" row))) (ok (known row))
              (λ pending.
                expiry_plan-IsPlanned now row (row_time h (row_get "expires_at" row)) pending)
              (λ _. tt)))
plan_row-IsPlanned h now r (row ∷ row' ∷ rows) = tt

plan_enqueue-cases :
    (h : Host) (now : ℕ) (r : Request) (p : Project) {plan : Plan} {file : Fields}
    {rows : List Value}
    → plan_enqueue h now r (store_content p) ≡ ok (plan, (file, rows))
    → (load_store (store_content p) ≡ ok (file, rows))
      × IsPlanned (keep (named (text_of r.action_id)) rows) plan
unfolding plan_enqueue
plan_enqueue-cases h now r p e =
    let (_, _, f1) = >>=-eq-ok (check_request r) _ e in
    let (store, e2, f2) = >>=-eq-ok (load_store (store_content p)) _ f1 in
    let (_, _, f3) = >>=-eq-ok (validate_rows h store.1) _ f2 in
    let found = keep (named (text_of r.action_id)) store.1 in
    let (plan0, e4, f4) = >>=-eq-ok (plan_row h now r found) _ f3 in
    let same = ok-injective f4 in
    (
      e2 ∙ ap (λ x. ok x.1) same,
      subst (λ (x : Plan × Loaded). IsPlanned (keep (named (text_of r.action_id)) x.1.1) x.0) same
          (Ensures-eq-ok (IsPlanned found) (plan_row h now r found)
            (plan_row-IsPlanned h now r found) e4),
    )

commit_enqueue-KeepsTerminal :
    (h : Host) (now : ℕ) (r : Request) (p : Project) (plan : Plan) (file : Fields)
    (rows : List Value)
    → load_store (store_content p) ≡ ok (file, rows)
    → IsPlanned (keep (named (text_of r.action_id)) rows) plan
    → KeepsTerminal p (commit_enqueue h now r (plan, (file, rows)) p).1
unfolding commit_enqueue
commit_enqueue-KeepsTerminal h now r p (known row) file rows loaded planned = inl refl
commit_enqueue-KeepsTerminal h now r p (lapse row) file rows loaded (one, pending) =
    written-HasEvolved h now "external_action_expired" (text_of (row_get "risk_level" row))
      (id_payload r.action_id) p file rows (change_row (text_of r.action_id) (expire h now) rows)
      (λ _ q. (ok (reply false (expire h now row)), q)) loaded
      (change_row-Evolves (text_of r.action_id) (expire h now) rows row one pending) (λ _ _. refl)
commit_enqueue-KeepsTerminal h now r p fresh file rows loaded planned =
    written-HasEvolved h now "external_action_queued" (text_of r.risk) (id_payload r.action_id) p
      file rows (rows ++ (obj (new_action h now r) ∷ []))
      (λ _ q. (ok (reply true (obj (new_action h now r))), q)) loaded
      (Evolves-added rows (obj (new_action h now r) ∷ [])) (λ _ _. refl)

-- Whatever the queue is asked, and however it ends, each row of the store that is not pending
-- stays what it was and where it was.
pub enqueue-KeepsTerminal :
    (h : Host) (now : ℕ) (r : Request) (p : Project) → KeepsTerminal p (enqueue h now r p).1
unfolding enqueue
enqueue-KeepsTerminal h now r p =
    after-keeps (KeepsTerminal p) (plan_enqueue h now r (store_content p)) p
      (commit_enqueue h now r) (inl refl)
      (λ (plan, (file, rows)) e.
        let (loaded, planned) = plan_enqueue-cases h now r p e in
        commit_enqueue-KeepsTerminal h now r p plan file rows loaded planned)

-- What a verdict says of the rows of its id.
abbrev IsJudged : List Value → Verdict → Type 0
IsJudged found (repeated row) = Unit
IsJudged found (apply row) = (found ≡ row ∷ []) × (is_pending row ≡ true)

plan_match-IsJudged :
    (h : Host) (r : Resolution) (found : List Value)
    → Ensures (IsJudged found) (plan_match h r found)
unfolding plan_match
plan_match-IsJudged h r [] = tt
plan_match-IsJudged h r (row ∷ row' ∷ rows) = tt
plan_match-IsJudged h r (row ∷ []) =
    let P = IsJudged (row ∷ []) in
    Ensures-bind P
      (refuse (not (is_same_action r row))
        "external action resolution identity does not match pending action")
      _
      (λ _ _.
        if-keeps (Ensures P) (eq_str (row_get "status" row) r.status) _ _
          (λ _.
            Ensures-bind P
              (refuse (not (eq_str (row_get "resolution_receipt_sha256" row) r.receipt_sha256))
                "external action was resolved by a different receipt")
              (λ _. ok (repeated row)) (λ _ _. tt))
          (λ _.
            Ensures-bind P (refuse (not (is_pending row)) "external action is not pending") _
              (λ _ passed.
                Ensures-bind P
                  (check_lifetime (row_time h (row_get "created_at" row))
                    (row_time h (row_get "expires_at" row)) (row_time h (str r.resolved_at)))
                  (λ _. ok (apply row))
                  (λ _ _. (refl, not-false (is_pending row) (refuse-eq-ok _ _ passed))))))

plan_resolve-cases :
    (h : Host) (r : Resolution) (p : Project) {verdict : Verdict} {file : Fields}
    {rows : List Value}
    → plan_resolve h r (store_content p) ≡ ok (verdict, (file, rows))
    → (load_store (store_content p) ≡ ok (file, rows))
      × IsJudged (keep (named r.action_id) rows) verdict
unfolding plan_resolve
plan_resolve-cases h r p e =
    let (_, _, f1) = >>=-eq-ok (check_resolution_arguments r) _ e in
    let (store, e2, f2) = >>=-eq-ok (load_store (store_content p)) _ f1 in
    let (_, _, f3) = >>=-eq-ok (validate_rows h store.1) _ f2 in
    let found = keep (named r.action_id) store.1 in
    let (verdict0, e4, f4) = >>=-eq-ok (plan_match h r found) _ f3 in
    let same = ok-injective f4 in
    (
      e2 ∙ ap (λ x. ok x.1) same,
      subst (λ (x : Verdict × Loaded). IsJudged (keep (named r.action_id) x.1.1) x.0) same
          (Ensures-eq-ok (IsJudged found) (plan_match h r found) (plan_match-IsJudged h r found)
            e4),
    )

commit_resolve-KeepsTerminal :
    (h : Host) (now : ℕ) (r : Resolution) (p : Project) (verdict : Verdict) (file : Fields)
    (rows : List Value)
    → load_store (store_content p) ≡ ok (file, rows)
    → IsJudged (keep (named r.action_id) rows) verdict
    → KeepsTerminal p (commit_resolve h now r (verdict, (file, rows)) p).1
unfolding commit_resolve
commit_resolve-KeepsTerminal h now r p (repeated row) file rows loaded judged = inl refl
commit_resolve-KeepsTerminal h now r p (apply row) file rows loaded (one, pending) =
    written-HasEvolved h now ("external_action_" <> r.status) (text_of (row_get "risk_level" row))
      (obj (field "action_id" (str r.action_id) (field "action_class" (str r.action_class) end))) p
      file rows (change_row r.action_id (settle r) rows)
      (λ _ q. (ok (outcome true (settle r row)), q)) loaded
      (change_row-Evolves r.action_id (settle r) rows row one pending) (λ _ _. refl)

-- Whatever a resolution says, and however it ends, each row of the store that is not pending stays
-- what it was and where it was.
pub resolve-KeepsTerminal :
    (h : Host) (now : ℕ) (r : Resolution) (p : Project) → KeepsTerminal p (resolve h now r p).1
unfolding resolve
resolve-KeepsTerminal h now r p =
    after-keeps (KeepsTerminal p) (plan_resolve h r (store_content p)) p (commit_resolve h now r)
      (inl refl)
      (λ (verdict, (file, rows)) e.
        let (loaded, judged) = plan_resolve-cases h r p e in
        commit_resolve-KeepsTerminal h now r p verdict file rows loaded judged)
