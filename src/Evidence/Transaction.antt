-- ===== src/Evidence/Transaction.antt =====
-- src/sddgov/evidence.py: `_MutationTransaction`. An operation is what a caller adds to it: it may
-- change the state, and may raise. The state, the exceptions and `os.close` are parameters.
use agentic_sdd_governance.Base.{
  ℕ, Bool, true, false, Option, none, some, List, [], ◌∷◌, ◌++◌, if◌then◌else◌, either, ◌⊎◌, inl,
  inr,
}

-- What is raised, if anything, and the state after it.
abbrev pub Op : Type 0 → Type 0 → Type 0
Op E S = S → Option E × S

pub record Transaction (E S : Type 0) : Type 0 where
  pub rollback_ops : List (Op E S)
  pub finalize_ops : List (Op E S)
  pub verify_ops : List (Op E S)
  pub directory_fds : List ℕ
  pub finished : Bool

-- `reversed(…)`, and `pop()` until nothing is left
unfoldable pub reversed {ℓ} : {A : Type ℓ} → List A → List A
reversed [] = []
reversed (x ∷ xs) = reversed xs ++ (x ∷ [])

-- `_close_directories`, where `close` is `os.close`, whose exceptions are passed over.
unfoldable pub close_directories {ℓ} : {S : Type ℓ} → (ℕ → S → S) → List ℕ → S → S
close_directories close [] s = s
close_directories close (fd ∷ fds) s = close_directories close fds (close fd s)

module _ {E S : Type 0} where
  abbrev pub new_transaction : Transaction E S
  new_transaction = record {
    rollback_ops = [];
    finalize_ops = [];
    verify_ops = [];
    directory_fds = [];
    finished = false;
  }

  -- The fields after the end.
  abbrev pub ended : Transaction E S
  ended = record {
    rollback_ops = [];
    finalize_ops = [];
    verify_ops = [];
    directory_fds = [];
    finished = true;
  }

  -- The loop that goes on after an exception and keeps the first one.
  unfoldable pub run_all : List (Op E S) → Op E S
  run_all [] s = (none, s)
  run_all (op ∷ ops) s =
      let (raised, t) = op s in let (later, u) = run_all ops t in (either raised later, u)

  -- What a loop that breaks does after an operation.
  abbrev pub unless_raised : Option E × S → Op E S → Option E × S
  unless_raised (none, s) next = next s
  unless_raised (some e, s) next = (some e, s)

  -- The loop that breaks at an exception.
  unfoldable pub run_until : List (Op E S) → Op E S
  run_until [] s = (none, s)
  run_until (op ∷ ops) s = unless_raised (op s) (run_until ops)

  -- A list with one more, where there is one.
  abbrev pub with_optional : List (Op E S) → Option (Op E S) → List (Op E S)
  with_optional ops none = ops
  with_optional ops (some op) = ops ++ (op ∷ [])

  abbrev keep_descriptor : ℕ ⊎ E → Transaction E S → (ℕ ⊎ E) × Transaction E S
  keep_descriptor (inl fd) t = (inl fd, record t { directory_fds = t.directory_fds ++ (fd ∷ []) })
  keep_descriptor (inr e) t = (inr e, t)

  -- `add`
  unfoldable pub add :
      E → Op E S → Option (Op E S) → Option (Op E S) → Transaction E S → Option E × Transaction E S
  add already_finished undo finish verify t = if t.finished then (some already_finished, t) else (
    none,
    record t {
      rollback_ops = t.rollback_ops ++ (undo ∷ []);
      finalize_ops = with_optional t.finalize_ops finish;
      verify_ops = with_optional t.verify_ops verify;
    },
  )

  -- `retain_directory`, where `dup` is what `os.dup` has given: a descriptor, or what it raised.
  unfoldable pub retain_directory : E → ℕ ⊎ E → Transaction E S → (ℕ ⊎ E) × Transaction E S
  retain_directory already_finished dup t =
      if t.finished then (inr already_finished, t) else keep_descriptor dup t

module _ {E S : Type 0} (close : ℕ → S → S) where
  -- `rollback`. The source sets `_finished` before its loop; an operation here does not see the
  -- transaction, so it is set at the end.
  unfoldable pub rollback : Transaction E S → S → Option E × Transaction E S × S
  unfolding reversed run_all close_directories
  rollback t s =
      if t.finished
      then (none, t, s)
      else let (raised, u) = run_all (reversed t.rollback_ops) s in
        (raised, ended, close_directories close (reversed t.directory_fds) u)

  -- `rollback` on the way out with an exception, which is the one that is raised.
  abbrev pub rollback_with : E → Transaction E S → S → Option E × Transaction E S × S
  rollback_with e t s = let (raised, u, v) = rollback t s in (some e, u, v)

  -- After the operations of finalization.
  unfoldable pub after_finalize : Transaction E S → Option E × S → Option E × Transaction E S × S
  unfolding rollback
  after_finalize t (some e, s) = rollback_with e t s
  after_finalize t (none, s) = (none, ended, close_directories close (reversed t.directory_fds) s)

  -- After those of verification.
  unfoldable pub after_verify : Transaction E S → Option E × S → Option E × Transaction E S × S
  unfolding after_finalize
  after_verify t (some e, s) = rollback_with e t s
  after_verify t (none, s) = after_finalize t (run_all t.finalize_ops s)

  -- `finalize`
  unfoldable pub finalize : Transaction E S → S → Option E × Transaction E S × S
  unfolding after_verify run_until
  finalize t s = if t.finished then (none, t, s) else after_verify t (run_until t.verify_ops s)
