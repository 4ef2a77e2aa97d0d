-- ===== src/Containment/Phase.antt =====
-- src/sddgov/production_containment.py: the scope as a machine of five phases.
use agentic_sdd_governance.Base.{
  ℕ, ◌≡◌, refl, Bool, true, false, not, ◌||◌, List, [], ◌∷◌, arith, if◌then◌else◌,
}
use agentic_sdd_governance.Python.Value.{ℤ}
use agentic_sdd_governance.Containment.Violation.{Outcome, done, violation, os_error}
use agentic_sdd_governance.Containment.Scope.{
  Scope, log, configure, attach_at_launch, kill_and_wait_empty, remove, is_spent, is_over,
}

-- The phases that the five flags stand for.
pub data Phase : Type 0 where
  idle limited running emptied gone : Phase

pub data Call : Type 0 where
  to_configure to_attach to_remove : Call
  -- a timeout, and the time that passes
  to_kill : ℤ → ℕ → Call

-- What a caller is promised: whether a call is accepted, and the phase after it.
abbrev pub promise : Call → Phase → Bool × Phase
promise to_configure idle = (true, limited)
promise to_attach limited = (true, running)
promise to_remove emptied = (true, gone)
promise (to_kill timeout elapsed) running = (
  not (is_spent timeout || is_over timeout elapsed),
  (if is_spent timeout then running else emptied),
)
promise call phase = (false, phase)

abbrev pub perform : Call → Scope → Outcome (Unit {0}) × Scope
perform to_configure s = configure s
perform to_attach s = attach_at_launch s
perform to_remove s = remove s
perform (to_kill timeout elapsed) s = kill_and_wait_empty timeout elapsed s

abbrev pub is_done : {A : Type 0} → Outcome A → Bool
is_done (done a) = true
is_done (violation reason) = false
is_done os_error = false

-- The flags are those of the phase.
abbrev pub Represents : Phase → Scope → Type 0
Represents idle s =
    (s.configured ≡ false)
    × (s.attached ≡ false)
    × (s.killed ≡ false)
    × (s.populated ≡ false)
    × (s.removed ≡ false)
Represents limited s =
    (s.configured ≡ true)
    × (s.attached ≡ false)
    × (s.killed ≡ false)
    × (s.populated ≡ false)
    × (s.removed ≡ false)
Represents running s =
    (s.configured ≡ true)
    × (s.attached ≡ true)
    × (s.killed ≡ false)
    × (s.populated ≡ true)
    × (s.removed ≡ false)
Represents emptied s =
    (s.configured ≡ true)
    × (s.attached ≡ true)
    × (s.killed ≡ true)
    × (s.populated ≡ false)
    × (s.removed ≡ false)
Represents gone s =
    (s.configured ≡ true)
    × (s.attached ≡ true)
    × (s.killed ≡ true)
    × (s.populated ≡ false)
    × (s.removed ≡ true)

-- A call does what is promised in the phase of the scope.
abbrev pub KeepsPromise : Call → Phase → Scope → Type 0
KeepsPromise call phase s =
    (is_done (perform call s).0 ≡ (promise call phase).0)
    × Represents (promise call phase).1 (perform call s).1

pub perform-KeepsPromise :
    (call : Call) (phase : Phase) (s : Scope) → Represents phase s → KeepsPromise call phase s
unfolding configure attach_at_launch kill_and_wait_empty remove
perform-KeepsPromise to_configure idle s r = ground arith
perform-KeepsPromise to_configure limited s r = ground arith
perform-KeepsPromise to_configure running s r = ground arith
perform-KeepsPromise to_configure emptied s r = ground arith
perform-KeepsPromise to_configure gone s r = ground arith
perform-KeepsPromise to_attach idle s r = ground arith
perform-KeepsPromise to_attach limited s r = ground arith
perform-KeepsPromise to_attach running s r = ground arith
perform-KeepsPromise to_attach emptied s r = ground arith
perform-KeepsPromise to_attach gone s r = ground arith
perform-KeepsPromise to_remove idle s r = ground arith
perform-KeepsPromise to_remove limited s r = ground arith
perform-KeepsPromise to_remove running s r = ground arith
perform-KeepsPromise to_remove emptied s r = ground arith
perform-KeepsPromise to_remove gone s r = ground arith
perform-KeepsPromise (to_kill t e) idle s r = ground arith
perform-KeepsPromise (to_kill t e) limited s r = ground arith
perform-KeepsPromise (to_kill t e) running s r = ground arith
perform-KeepsPromise (to_kill t e) emptied s r = ground arith
perform-KeepsPromise (to_kill t e) gone s r = ground arith

-- The start, where nothing stands against it.
pub attach_at_launch-ready :
    (s : Scope)
    → s.configured ≡ true
    → s.attached ≡ false
    → s.killed ≡ false
    → s.removed ≡ false
    → attach_at_launch s
      ≡ (done tt, log "atomically_attached" (record s { attached = true; populated = true }))
unfolding attach_at_launch
attach_at_launch-ready s c a k r = ground arith

-- A history of calls: what was accepted, and the state after it.
abbrev pub perform_all : List Call → Scope → List Bool × Scope
perform_all [] s = ([], s)
perform_all (call ∷ calls) s =
    let (result, t) = perform call s in
    let (results, u) = perform_all calls t in (is_done result ∷ results, u)

abbrev pub promise_all : List Call → Phase → List Bool × Phase
promise_all [] phase = ([], phase)
promise_all (call ∷ calls) phase =
    let (accepted, next) = promise call phase in
    let (rest, last) = promise_all calls next in (accepted ∷ rest, last)

-- Whatever calls are made of a scope whose flags are those of a phase, in whatever order: each is accepted exactly where the
-- machine of phases accepts it, and the flags are always those of its phase.
pub perform_all-refines :
    (calls : List Call) (phase : Phase) (s : Scope)
    → Represents phase s
    → ((perform_all calls s).0 ≡ (promise_all calls phase).0)
      × Represents (promise_all calls phase).1 (perform_all calls s).1
perform_all-refines [] phase s r = (refl, r)
perform_all-refines (call ∷ calls) phase s r =
    let (accepted, represents) = perform-KeepsPromise call phase s r in
    let (same, last) =
      perform_all-refines calls (promise call phase).1 (perform call s).1 represents in
    (cc (accepted, same), last)
