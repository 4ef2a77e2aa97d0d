-- ===== src/Evidence/Finish.antt =====
-- src/sddgov/evidence.py: how a transaction ends.
use agentic_sdd_governance.Base.{
  ℕ, ◌≡◌, refl, ap, ◌∙◌, Bool, true, false, Option, none, some, if◌then◌else◌,
}
use agentic_sdd_governance.Evidence.Transaction.{
  Op, Transaction, run_all, run_until, add, ended, rollback, after_finalize, after_verify, finalize,
}

if_false {ℓ} : {A : Type ℓ} (b : Bool) (x y : A) → b ≡ false → (if b then x else y) ≡ y
if_false true x y h = cc
if_false false x y h = refl

module _ {E S : Type 0} (close : ℕ → S → S) where
  rollback-ended :
      (t : Transaction E S) (s : S) → t.finished ≡ false → (rollback close t s).1 ≡ ended
  unfolding rollback
  rollback-ended t s h = rw (h) refl

  after_finalize-ended :
      (t : Transaction E S) (x : Option E × S)
      → t.finished ≡ false
      → (after_finalize close t x).1 ≡ ended
  unfolding after_finalize
  after_finalize-ended t (none, s) h = refl
  after_finalize-ended t (some e, s) h = rollback-ended t s h

  after_verify-ended :
      (t : Transaction E S) (x : Option E × S)
      → t.finished ≡ false
      → (after_verify close t x).1 ≡ ended
  unfolding after_verify
  after_verify-ended t (none, s) h = after_finalize-ended t (run_all t.finalize_ops s) h
  after_verify-ended t (some e, s) h = rollback-ended t s h

  pub finalize-open :
      (t : Transaction E S) (s : S)
      → t.finished ≡ false
      → finalize close t s ≡ after_verify close t (run_until t.verify_ops s)
  unfolding finalize
  finalize-open t s h =
      if_false t.finished (none, t, s) (after_verify close t (run_until t.verify_ops s)) h

  -- A transaction that is open ends, whichever of the two calls is made, whatever its operations
  -- raise: it is finished, and has no operation and no directory left. After that both calls do
  -- nothing, and nothing can be added.
  pub finalize-ended :
      (already_finished : E) (t : Transaction E S) (undo : Op E S) (s later : S)
      → t.finished ≡ false
      → ((finalize close t s).1 ≡ ended)
        × ((rollback close t s).1 ≡ ended)
        × (finalize close (finalize close t s).1 later ≡ (none, ended, later))
        × (rollback close (finalize close t s).1 later ≡ (none, ended, later))
        × (add already_finished undo none none (finalize close t s).1
            ≡ (some already_finished, ended))
  unfolding finalize rollback add
  finalize-ended already_finished t undo s later h =
      let end : (finalize close t s).1 ≡ ended =
        ap (λ x. x.1) (finalize-open t s h) ∙ after_verify-ended t (run_until t.verify_ops s) h in
      (end, rollback-ended t s h, rw (end) refl, rw (end) refl, rw (end) refl)
