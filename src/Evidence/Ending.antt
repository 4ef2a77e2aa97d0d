-- ===== src/Evidence/Ending.antt =====
-- src/sddgov/evidence.py: which operations of a transaction run at its end, and in which order.
use mathlib.Core.List.{reverse, reverse_aux}
use agentic_sdd_governance.Base.{
  ℕ, ◌≡◌, refl, sym, ap, ◌∙◌, subst, false, Option, none, some, List, [], ◌∷◌, ◌++◌, All, either,
}
use agentic_sdd_governance.Evidence.Transaction.{
  Op, Transaction, unless_raised, reversed, run_all, run_until, close_directories, ended, rollback,
  after_finalize, after_verify, finalize,
}
use agentic_sdd_governance.Evidence.Finish.{finalize-open}

append_assoc {ℓ} : {A : Type ℓ} (xs ys zs : List A) → (xs ++ ys) ++ zs ≡ xs ++ (ys ++ zs)
append_assoc [] ys zs = refl
append_assoc (x ∷ xs) ys zs = ap (λ rest. x ∷ rest) (append_assoc xs ys zs)

append_nil {ℓ} : {A : Type ℓ} (xs : List A) → xs ++ [] ≡ xs
append_nil [] = refl
append_nil (x ∷ xs) = ap (λ rest. x ∷ rest) (append_nil xs)

reversed-append {ℓ} : {A : Type ℓ} (xs ys : List A) → reversed xs ++ ys ≡ reverse_aux xs ys
unfolding reversed
reversed-append [] ys = refl
reversed-append (x ∷ xs) ys = append_assoc (reversed xs) (x ∷ []) ys ∙ reversed-append xs (x ∷ ys)

reversed-eq {ℓ} : {A : Type ℓ} (xs : List A) → reversed xs ≡ reverse xs
reversed-eq xs = sym (append_nil (reversed xs)) ∙ reversed-append xs []

module _ {E : Type 0} where
  -- The exception that came first.
  abbrev pub first_raised : List (Option E) → Option E
  first_raised [] = none
  first_raised (some e ∷ log) = some e
  first_raised (none ∷ log) = first_raised log

  abbrev pub IsQuiet : List (Option E) → Type 0
  IsQuiet log = All (λ raised. raised ≡ none) log

  first_raised-none : (log : List (Option E)) → first_raised log ≡ none → IsQuiet log
  first_raised-none [] h = tt
  first_raised-none (none ∷ log) h = (refl, first_raised-none log h)
  first_raised-none (some e ∷ log) h = cc

  first_of :
      (raised later : Option E) (log : List (Option E))
      → later ≡ first_raised log
      → either raised later ≡ first_raised (raised ∷ log)
  first_of none later log h = h
  first_of (some e) later log h = refl

module _ {E S : Type 0} where
  -- Each of these operations has run once, one after another, each from the state that the one
  -- before has left; the list has what each of them raised.
  pub data Ran : List (Op E S) → S → List (Option E) → S → Type 0 where
    done : {s : S} → Ran [] s [] s
    step :
        {op : Op E S} {ops : List (Op E S)} {s t u : S} {raised : Option E} {log : List (Option E)}
        → op s ≡ (raised, t)
        → Ran ops t log u
        → Ran (op ∷ ops) s (raised ∷ log) u

  -- The loop that goes on has run every operation, and gives the first exception.
  abbrev HasRun : List (Op E S) → S → Option E × S → Type 0
  HasRun ops s (raised, u) = (log : List (Option E)) × Ran ops s log u × (raised ≡ first_raised log)

  run_all-HasRun : (ops : List (Op E S)) (s : S) → HasRun ops s (run_all ops s)
  unfolding run_all
  run_all-HasRun [] s = ([], done, refl)
  run_all-HasRun (op ∷ ops) s =
      let (log, ran, first) = run_all-HasRun ops (op s).1 in
      ((op s).0 ∷ log, step refl ran, first_of (op s).0 _ log first)

  -- The first of these operations that raises, after others that do not.
  pub record Broken (ops : List (Op E S)) (s : S) (e : E) (u : S) : Type 0 where
    pub before : List (Op E S)
    pub breaking : Op E S
    pub skipped : List (Op E S)
    pub log : List (Option E)
    pub reached : S
    pub split : ops ≡ before ++ (breaking ∷ skipped)
    pub ran : Ran before s log reached
    pub quiet : IsQuiet log
    pub raised : breaking reached ≡ (some e, u)

  abbrev HasStopped : List (Op E S) → S → Option E × S → Type 0
  HasStopped ops s (none, u) = (log : List (Option E)) × Ran ops s log u × IsQuiet log
  HasStopped ops s (some e, u) = Broken ops s e u

  stopped_later :
      (op : Op E S) (ops : List (Op E S)) (s t : S) (x : Option E × S)
      → op s ≡ (none, t)
      → HasStopped ops t x
      → HasStopped (op ∷ ops) s x
  stopped_later op ops s t (none, u) e (log, ran, quiet) = (none ∷ log, step e ran, (refl, quiet))
  stopped_later op ops s t (some raised, u) e b = record {
    before = op ∷ b.before;
    breaking = b.breaking;
    skipped = b.skipped;
    log = none ∷ b.log;
    reached = b.reached;
    split = ap (λ rest. op ∷ rest) b.split;
    ran = step e b.ran;
    quiet = (refl, b.quiet);
    raised = b.raised;
  }

  stopped_or_later :
      (op : Op E S) (ops : List (Op E S)) (s : S) (x : Option E × S)
      → op s ≡ x
      → ((t : S) → HasStopped ops t (run_until ops t))
      → HasStopped (op ∷ ops) s (unless_raised x (run_until ops))
  stopped_or_later op ops s (none, t) e later =
      stopped_later op ops s t (run_until ops t) e (later t)
  stopped_or_later op ops s (some raised, t) e later = record {
    before = [];
    breaking = op;
    skipped = ops;
    log = [];
    reached = s;
    split = refl;
    ran = done;
    quiet = tt;
    raised = e;
  }

  run_until-HasStopped : (ops : List (Op E S)) (s : S) → HasStopped ops s (run_until ops s)
  unfolding run_until
  run_until-HasStopped [] s = ([], done, tt)
  run_until-HasStopped (op ∷ ops) s =
      stopped_or_later op ops s (op s) refl (λ t. run_until-HasStopped ops t)

module _ {E S : Type 0} (close : ℕ → S → S) where
  -- The retained directories are closed, the newest first.
  abbrev pub closed : Transaction E S → S → S
  closed t s = close_directories close (reverse t.directory_fds) s

  -- What a rollback from this state does, and the state after it.
  pub record IsRolledBack (t : Transaction E S) (s : S) (raised : Option E) (after : S)
      : Type 0 where
    pub log : List (Option E)
    pub undone : S
    pub ran : Ran (reverse t.rollback_ops) s log undone
    pub first : raised ≡ first_raised log
    pub directories : after ≡ closed t undone

  rollback-cases :
      (t : Transaction E S) (s : S)
      → t.finished ≡ false
      → IsRolledBack t s (rollback close t s).0 (rollback close t s).2
        × ((rollback close t s).1 ≡ ended)
  unfolding rollback
  rollback-cases t s open_still = rw open_still (
      let (log, ran, first) = run_all-HasRun (reversed t.rollback_ops) s in
      (
        record {
          log = log;
          undone = (run_all (reversed t.rollback_ops) s).1;
          ran =
              subst (λ ops. Ran ops s log (run_all (reversed t.rollback_ops) s).1)
                (reversed-eq t.rollback_ops) ran;
          first = first;
          directories =
              ap (λ fds. close_directories close fds (run_all (reversed t.rollback_ops) s).1)
                (reversed-eq t.directory_fds);
        },
        refl,
      ))

  -- A rollback of an open transaction runs every operation that takes a change back, the newest
  -- first, also after others have raised; it raises the first exception, if any, closes the
  -- retained directories, the newest first, and ends the transaction.
  pub rollback-IsRolledBack :
      (t : Transaction E S) (s : S)
      → t.finished ≡ false
      → (raised : Option E) × (after : S) × (rollback close t s ≡ (raised, ended, after))
        × IsRolledBack t s raised after
  rollback-IsRolledBack t s open_still =
      let (cases, end) = rollback-cases t s open_still in
      (
        (rollback close t s).0,
        (rollback close t s).2,
        ap (λ u. ((rollback close t s).0, u, (rollback close t s).2)) end,
        cases,
      )

  -- The three ways in which `finalize` ends: what is raised, and the state after it.
  pub data Finalization (t : Transaction E S) (s : S) (raised : Option E) (after : S) : Type 0 where
    -- everything has been verified and finalized
    published :
        (log log' : List (Option E)) (verified final : S)
        → Ran t.verify_ops s log verified
        → IsQuiet log
        → Ran t.finalize_ops verified log' final
        → IsQuiet log'
        → raised ≡ none
        → after ≡ closed t final
        → Finalization t s raised after
    -- a verification raised: no later one has run, and nothing was finalized
    unverified :
        (e : E) (stopped : S) (later : Option E)
        → Broken t.verify_ops s e stopped
        → IsRolledBack t stopped later after
        → raised ≡ some e
        → Finalization t s raised after
    -- an operation of finalization raised: the others have run all the same
    unfinished :
        (e : E) (log log' : List (Option E)) (verified final : S) (later : Option E)
        → Ran t.verify_ops s log verified
        → IsQuiet log
        → Ran t.finalize_ops verified log' final
        → first_raised log' ≡ some e
        → IsRolledBack t final later after
        → raised ≡ some e
        → Finalization t s raised after

  after_finalize-cases :
      (t : Transaction E S) (s : S) (x : Option E × S) (log : List (Option E)) (verified : S)
      → t.finished ≡ false
      → Ran t.verify_ops s log verified
      → IsQuiet log
      → HasRun t.finalize_ops verified x
      → Finalization t s (after_finalize close t x).0 (after_finalize close t x).2
  unfolding after_finalize
  after_finalize-cases t s (none, final) log verified open_still ran quiet (log', ran', first) =
      published log log' verified final ran quiet ran' (first_raised-none log' (sym first)) refl
        (ap (λ fds. close_directories close fds final) (reversed-eq t.directory_fds))
  after_finalize-cases t s (some e, final) log verified open_still ran quiet (log', ran', first) =
      unfinished e log log' verified final (rollback close t final).0 ran quiet ran' (sym first)
        (rollback-cases t final open_still).0 refl

  after_verify-cases :
      (t : Transaction E S) (s : S) (x : Option E × S)
      → t.finished ≡ false
      → HasStopped t.verify_ops s x
      → Finalization t s (after_verify close t x).0 (after_verify close t x).2
  unfolding after_verify
  after_verify-cases t s (none, verified) open_still (log, ran, quiet) =
      after_finalize-cases t s (run_all t.finalize_ops verified) log verified open_still ran quiet
        (run_all-HasRun t.finalize_ops verified)
  after_verify-cases t s (some e, stopped) open_still broken =
      unverified e stopped (rollback close t stopped).0 broken
        (rollback-cases t stopped open_still).0 refl

  -- `finalize` of an open transaction ends in one of three ways. Every verification has run without
  -- an exception and then every operation of finalization too: nothing is raised or taken back. Or
  -- a verification raised: the later ones and the operations of finalization are skipped, and all
  -- changes are taken back. Or an operation of finalization raised: the others run all the same,
  -- and then all changes are taken back. What is raised is the exception of the verification, or
  -- the first one of finalization, also where taking back raises another.
  pub finalize-Finalization :
      (t : Transaction E S) (s : S)
      → t.finished ≡ false
      → Finalization t s (finalize close t s).0 (finalize close t s).2
  finalize-Finalization t s open_still =
      subst (λ x. Finalization t s x.0 x.2) (sym (finalize-open close t s open_still))
        (after_verify-cases t s (run_until t.verify_ops s) open_still
          (run_until-HasStopped t.verify_ops s))
