-- ===== src/Containment/Reach.antt =====
-- src/sddgov/production_containment.py: the states that a launcher can be in.
use agentic_sdd_governance.Base.{
  ℕ, ◌≡◌, refl, sym, ap, ◌∙◌, subst, String, true, false, not, ◌⊎◌, inl, inr, ◌||◌, some, List, [],
  ◌∷◌, ◌++◌, arith, if◌then◌else◌, if-keeps,
}
use mathlib.Core.List.{append-nil, append_assoc}
use agentic_sdd_governance.Python.Value.{ℤ}
use agentic_sdd_governance.Containment.Violation.{then-keeps, Outcome, done, ◌then◌}
use agentic_sdd_governance.Containment.Scope.{
  Scope, configure, attach_at_launch, kill_and_wait_empty, remove, log, is_spent, is_over,
}
use agentic_sdd_governance.Containment.Image.{Kernel, RuntimeImage, fileno}
use agentic_sdd_governance.Containment.Launcher.{
  Launcher, new_launcher, has_launched, on_scope, attach_verified, launch, cleanup,
}
use agentic_sdd_governance.Containment.Phase.{
  Phase, idle, limited, running, emptied, gone, Represents, Call, to_configure, to_attach,
  to_remove, to_kill, perform, promise, perform-KeepsPromise, is_done, attach_at_launch-ready,
}

-- What can be called: a method of the launcher, or one of the scope that it holds.
pub data Step (l : Launcher) : Launcher → Type 0 where
  launch_step : (k : Kernel) (image : RuntimeImage) → Step l (launch k image l).1
  cleanup_step : (timeout : ℤ) (elapsed : ℕ) → Step l (cleanup timeout elapsed l).1
  scope_step : (call : Call) → Step l (on_scope (perform call) l).1

pub data Reach : Launcher → Type 0 where
  here : Reach new_launcher
  next : {l m : Launcher} → Reach l → Step l m → Reach m

-- What a new launcher logs up to the start.
abbrev pub start_log : List String
start_log = "limits_configured" ∷ "runtime_fd_verified" ∷ "atomically_attached" ∷ []

-- The log before the start is that of the phase.
abbrev pub IsLogged : Phase → List String → Type 0
IsLogged idle events = events ≡ []
IsLogged limited events = events ≡ "limits_configured" ∷ []
IsLogged _ events = Unit

abbrev pub IsStarted : Phase → List String → Type 0
IsStarted idle events = ⊥
IsStarted limited events = ⊥
IsStarted _ events = (rest : List String) × (events ≡ start_log ++ rest)

pub record IsSound (l : Launcher) : Type 0 where
  pub phase : Phase
  pub represents : Represents phase l.scope
  pub logged : IsLogged phase l.scope.events
  pub started : (has_launched l.launched ≡ false) ⊎ IsStarted phase l.scope.events
  pub completed : (l.completed ≡ false) ⊎ (phase ≡ gone)

or_else {ℓ} : {A B C : Type ℓ} → A ⊎ B → (B → C) → A ⊎ C
or_else (inl a) f = inl a
or_else (inr b) f = inr (f b)

abbrev HasMore : List String → List String → Type 0
HasMore events events' = (more : List String) × (events' ≡ events ++ more)

HasMore-same : (events : List String) → HasMore events events
HasMore-same events = ([], sym (append-nil events))

HasMore-more :
    (events : List String) (a b : String) → HasMore events ((events ++ (a ∷ [])) ++ (b ∷ []))
HasMore-more events a b = (a ∷ b ∷ [], append_assoc events (a ∷ []) (b ∷ []))

-- A call of the scope only adds to its log.
perform-adds : (call : Call) (s : Scope) → HasMore s.events (perform call s).1.events
unfolding configure attach_at_launch kill_and_wait_empty remove
perform-adds to_configure s =
    if-keeps (λ (x : Outcome (Unit {0}) × Scope). HasMore s.events x.1.events)
      (s.configured || s.removed) _ _ (λ _. HasMore-same s.events)
      (λ _. ("limits_configured" ∷ [], refl))
perform-adds to_attach s =
    if-keeps (λ (x : Outcome (Unit {0}) × Scope). HasMore s.events x.1.events)
      (not s.configured || s.attached || s.killed || s.removed) _ _ (λ _. HasMore-same s.events)
      (λ _. ("atomically_attached" ∷ [], refl))
perform-adds to_remove s =
    if-keeps (λ (x : Outcome (Unit {0}) × Scope). HasMore s.events x.1.events)
      (not s.killed || s.populated || s.removed) _ _ (λ _. HasMore-same s.events)
      (λ _. ("scope_removed" ∷ [], refl))
perform-adds (to_kill timeout elapsed) s =
    let P = λ (x : Outcome (Unit {0}) × Scope). HasMore s.events x.1.events in
    if-keeps P (not s.attached || s.killed || s.removed || is_spent timeout) _ _
      (λ _. HasMore-same s.events)
      (λ _.
        if-keeps P (is_over timeout elapsed) _ _ (λ _. ("cgroup_kill" ∷ [], refl))
          (λ _. HasMore-more s.events "cgroup_kill" "populated_zero"))

perform-IsLogged :
    (call : Call) (phase : Phase) (s : Scope)
    → Represents phase s
    → IsLogged phase s.events
    → IsLogged (promise call phase).1 (perform call s).1.events
unfolding configure attach_at_launch kill_and_wait_empty remove
perform-IsLogged to_configure idle s r e = ground arith
perform-IsLogged to_configure limited s r e = ground arith
perform-IsLogged to_attach idle s r e = ground arith
perform-IsLogged to_attach limited s r e = tt
perform-IsLogged to_remove idle s r e = ground arith
perform-IsLogged to_remove limited s r e = ground arith
perform-IsLogged (to_kill t u) idle s r e = ground arith
perform-IsLogged (to_kill t u) limited s r e = ground arith
perform-IsLogged (to_kill t u) running s r e =
    if-keeps (λ phase. IsLogged phase (perform (to_kill t u) s).1.events) (is_spent t) running
      emptied (λ _. tt) (λ _. tt)
perform-IsLogged to_configure running s r e = tt
perform-IsLogged to_attach running s r e = tt
perform-IsLogged to_remove running s r e = tt
perform-IsLogged to_configure emptied s r e = tt
perform-IsLogged to_attach emptied s r e = tt
perform-IsLogged to_remove emptied s r e = tt
perform-IsLogged (to_kill t u) emptied s r e = tt
perform-IsLogged to_configure gone s r e = tt
perform-IsLogged to_attach gone s r e = tt
perform-IsLogged to_remove gone s r e = tt
perform-IsLogged (to_kill t u) gone s r e = tt

started-more :
    (phase : Phase) (events events' : List String)
    → IsStarted phase events
    → HasMore events events'
    → (rest : List String) × (events' ≡ start_log ++ rest)
started-more idle events events' h more = absurd h
started-more limited events events' h more = absurd h
started-more running events events' (rest, e) (more, e') =
    (rest ++ more, e' ∙ ap (λ x. x ++ more) e ∙ append_assoc start_log rest more)
started-more emptied events events' (rest, e) (more, e') =
    (rest ++ more, e' ∙ ap (λ x. x ++ more) e ∙ append_assoc start_log rest more)
started-more gone events events' (rest, e) (more, e') =
    (rest ++ more, e' ∙ ap (λ x. x ++ more) e ∙ append_assoc start_log rest more)

-- What has started is not before its start.
promise-IsStarted :
    (call : Call) (phase : Phase) (events events' : List String)
    → IsStarted phase events
    → (rest : List String) × (events' ≡ start_log ++ rest)
    → IsStarted (promise call phase).1 events'
promise-IsStarted call idle events events' h k = absurd h
promise-IsStarted call limited events events' h k = absurd h
promise-IsStarted to_configure running events events' h k = k
promise-IsStarted to_attach running events events' h k = k
promise-IsStarted to_remove running events events' h k = k
promise-IsStarted (to_kill t u) running events events' h k =
    if-keeps (λ phase. IsStarted phase events') (is_spent t) running emptied (λ _. k) (λ _. k)
promise-IsStarted to_configure emptied events events' h k = k
promise-IsStarted to_attach emptied events events' h k = k
promise-IsStarted to_remove emptied events events' h k = k
promise-IsStarted (to_kill t u) emptied events events' h k = k
promise-IsStarted to_configure gone events events' h k = k
promise-IsStarted to_attach gone events events' h k = k
promise-IsStarted to_remove gone events events' h k = k
promise-IsStarted (to_kill t u) gone events events' h k = k

promise-gone : (call : Call) (phase : Phase) → phase ≡ gone → (promise call phase).1 ≡ gone
promise-gone to_configure phase e = ap (λ p. (promise to_configure p).1) e
promise-gone to_attach phase e = ap (λ p. (promise to_attach p).1) e
promise-gone to_remove phase e = ap (λ p. (promise to_remove p).1) e
promise-gone (to_kill t u) phase e = ap (λ p. (promise (to_kill t u) p).1) e

scope-IsSound : (call : Call) (l : Launcher) → IsSound l → IsSound (on_scope (perform call) l).1
unfolding on_scope
scope-IsSound call l h = record {
  phase = (promise call h.phase).1;
  represents = (perform-KeepsPromise call h.phase l.scope h.represents).1;
  logged = perform-IsLogged call h.phase l.scope h.represents h.logged;
  started = or_else h.started (λ s.
      promise-IsStarted call h.phase l.scope.events _ s
        (started-more h.phase l.scope.events _ s (perform-adds call l.scope)));
  completed = or_else h.completed (promise-gone call h.phase);
}

remove-gone :
    (phase : Phase) → (promise to_remove phase).0 ≡ true → (promise to_remove phase).1 ≡ gone
remove-gone idle e = cc
remove-gone limited e = cc
remove-gone running e = cc
remove-gone emptied e = refl
remove-gone gone e = refl

-- The last statement of `cleanup`.
completed-IsSound :
    (l : Launcher)
    → IsSound l
    → (on_scope remove l).0 ≡ done tt
    → IsSound (record (on_scope remove l).1 { completed = true })
unfolding on_scope scope-IsSound
completed-IsSound l h e =
    let after_remove = scope-IsSound to_remove l h in
    let accepted =
      sym (perform-KeepsPromise to_remove h.phase l.scope h.represents).0 ∙ ap is_done e in
    record {
      phase = after_remove.phase;
      represents = after_remove.represents;
      logged = after_remove.logged;
      started = after_remove.started;
      completed = inr (remove-gone h.phase accepted);
    }

cleanup-IsSound :
    (timeout : ℤ) (elapsed : ℕ) (l : Launcher) → IsSound l → IsSound (cleanup timeout elapsed l).1
unfolding cleanup
cleanup-IsSound timeout elapsed l h =
    let killed = on_scope (kill_and_wait_empty timeout elapsed) l in
    let sound = scope-IsSound (to_kill timeout elapsed) l h in
    if-keeps (λ (x : Outcome (Unit {0}) × Launcher). IsSound x.1)
      (not (has_launched l.launched) || l.completed) _ _ (λ _. h)
      (λ _.
        then-keeps IsSound killed.0 killed.1
          (λ _ n. on_scope remove n then λ _ o. (done tt, record o { completed = true })) sound
          (λ _ _.
            then-keeps IsSound (on_scope remove killed.1).0 (on_scope remove killed.1).1
              (λ _ o. (done tt, record o { completed = true }))
              (scope-IsSound to_remove killed.1 sound) (λ u e. completed-IsSound killed.1 sound e)))

limited-of_flags :
    (phase : Phase) (s : Scope)
    → Represents phase s
    → s.configured ≡ true
    → s.attached ≡ false
    → phase ≡ limited
limited-of_flags idle s r c a = cc (r.0, c)
limited-of_flags limited s r c a = refl
limited-of_flags running s r c a = cc (r.1, a)
limited-of_flags emptied s r c a = cc (r.1, a)
limited-of_flags gone s r c a = cc (r.1, a)

-- The start, in the phase in which the launcher lets it happen.
attach_verified-IsSound :
    (fd : ℕ) (l : Launcher)
    → Represents limited l.scope
    → l.scope.events ≡ "limits_configured" ∷ []
    → l.completed ≡ false
    → IsSound (attach_verified fd l).1
unfolding attach_verified on_scope
attach_verified-IsSound fd l r e c =
    let verified = record l { scope = log "runtime_fd_verified" l.scope } in
    subst
      (λ x.
        IsSound
          ((x.0, record verified { scope = x.1 }) then λ _ m.
            (done fd, record m { launched = some fd })).1)
      (sym (attach_at_launch-ready verified.scope r.0 r.1 r.2 r.4))
      (record {
        phase = running;
        represents = (r.0, refl, r.2, refl, r.4);
        logged = tt;
        started = inr (
          [],
          ap (λ events. (events ++ ("runtime_fd_verified" ∷ [])) ++ ("atomically_attached" ∷ [])) e,
        );
        completed = inl c;
      })

free-limited :
    (l : Launcher)
    → IsSound l
    → (has_launched l.launched
        || l.completed
        || not l.scope.configured
        || l.scope.attached
        || l.scope.killed
        || l.scope.removed)
      ≡ false
    → Represents limited l.scope
      × (l.scope.events ≡ "limits_configured" ∷ [])
      × (l.completed ≡ false)
free-limited l h free =
    let configured : l.scope.configured ≡ true = ground arith in
    let attached : l.scope.attached ≡ false = ground arith in
    let now = limited-of_flags h.phase l.scope h.represents configured attached in
    (
      subst (λ p. Represents p l.scope) now h.represents,
      subst (λ p. IsLogged p l.scope.events) now h.logged,
      ground arith,
    )

launch-IsSound :
    (k : Kernel) (image : RuntimeImage) (l : Launcher) → IsSound l → IsSound (launch k image l).1
unfolding launch
launch-IsSound k image l h =
    if-keeps (λ (x : Outcome ℕ × Launcher). IsSound x.1)
      (has_launched l.launched
        || l.completed
        || not l.scope.configured
        || l.scope.attached
        || l.scope.killed
        || l.scope.removed)
      _ _ (λ _. h)
      (λ free.
        let (r, e, c) = free-limited l h free in
        then-keeps IsSound (fileno k image) l attach_verified h
          (λ fd _. attach_verified-IsSound fd l r e c))

-- In every state that a launcher and its scope can be brought to by calls, failing ones included,
-- in whatever order: the flags are those of one of the five phases; before the start the log is
-- exactly what that phase logs; if a descriptor was launched, the log starts with the configured
-- limits, then the verified descriptor, then the atomic attachment; and a launcher that is
-- completed has had its scope removed.
pub Reach-IsSound : {l : Launcher} → Reach l → IsSound l
Reach-IsSound here = record {
  phase = idle;
  represents = (refl, refl, refl, refl, refl);
  logged = refl;
  started = inl refl;
  completed = inl refl;
}
Reach-IsSound (next {l} r (launch_step k image)) = launch-IsSound k image l (Reach-IsSound r)
Reach-IsSound (next {l} r (cleanup_step t u)) = cleanup-IsSound t u l (Reach-IsSound r)
Reach-IsSound (next {l} r (scope_step call)) = scope-IsSound call l (Reach-IsSound r)
