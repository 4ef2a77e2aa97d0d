-- ===== src/Containment/Held.antt =====
-- src/sddgov/production_containment.py: the descriptor that is held from the check to the launch.
use agentic_sdd_governance.Base.{
  ℕ, ◌≡◌, refl, sym, subst, String, true, false, not, ◌||◌, Option, none, some, List, [], ◌∷◌, ◌++◌,
  arith, eqb, if◌then◌else◌, if-keeps, ◌==◌, any,
}
use agentic_sdd_governance.Python.Value.{ℤ}
use agentic_sdd_governance.Containment.Violation.{Outcome, done, violation, os_error, ◌then◌}
use agentic_sdd_governance.Containment.Image.{
  Info, Kernel, RuntimeImage, Descriptors, close_descriptor, is_writable, is_elf, image_digest,
  check_opened, close_on_raise, open_verified, check_held, fileno, close, is_hash,
}
use agentic_sdd_governance.Containment.Scope.{
  log, configure, attach_at_launch, kill_and_wait_empty, observe_empty, remove, is_spent, is_over,
}
use agentic_sdd_governance.Containment.Launcher.{
  Launcher, new_launcher, has_launched, on_scope, attach_verified, launch, cleanup,
}
use agentic_sdd_governance.Containment.Phase.{attach_at_launch-ready}

-- A launch that raises leaves the launcher as it was; one that returns has just verified the
-- descriptor that it returns, and has started with it.
abbrev pub IsAtomic : Kernel → RuntimeImage → Launcher → Outcome ℕ → Launcher → Type 0
IsAtomic k image l (done fd) m =
    (fileno k image ≡ done fd)
    × (l.launched ≡ none)
    × (m.launched ≡ some fd)
    × (m.scope.events
        ≡ (l.scope.events ++ ("runtime_fd_verified" ∷ [])) ++ ("atomically_attached" ∷ []))
IsAtomic k image l (violation reason) m = m ≡ l
IsAtomic k image l os_error m = m ≡ l

not_launched : (launched : Option ℕ) → has_launched launched ≡ false → launched ≡ none
not_launched none h = refl
not_launched (some fd) h = cc

attach_verified-IsAtomic :
    (k : Kernel) (image : RuntimeImage) (l : Launcher) (held : Outcome ℕ)
    → fileno k image ≡ held
    → (has_launched l.launched
        || l.completed
        || not l.scope.configured
        || l.scope.attached
        || l.scope.killed
        || l.scope.removed)
      ≡ false
    → IsAtomic k image l ((held, l) then attach_verified).0 ((held, l) then attach_verified).1
unfolding attach_verified on_scope
attach_verified-IsAtomic k image l (done fd) e free =
    let configured : l.scope.configured ≡ true = ground arith in
    let attached : l.scope.attached ≡ false = ground arith in
    let killed : l.scope.killed ≡ false = ground arith in
    let removed : l.scope.removed ≡ false = ground arith in
    let verified = record l { scope = log "runtime_fd_verified" l.scope } in
    subst
      (λ x.
        IsAtomic k image l
          (((x.0, record verified { scope = x.1 }) then λ _ m.
            (done fd, record m { launched = some fd })).0)
          (((x.0, record verified { scope = x.1 }) then λ _ m.
            (done fd, record m { launched = some fd })).1))
      (sym (attach_at_launch-ready verified.scope configured attached killed removed))
      (e, not_launched l.launched (ground arith), refl, refl)
attach_verified-IsAtomic k image l (violation reason) e free = refl
attach_verified-IsAtomic k image l os_error e free = refl

-- A launch is all or nothing, whatever the state of the launcher: if it raises, the launcher is
-- exactly as before; if it returns a descriptor, then nothing had been launched, the descriptor
-- has just passed every check of the image's identity, it is the one that is recorded as launched,
-- and its verification is logged directly before the attachment.
pub launch-IsAtomic :
    (k : Kernel) (image : RuntimeImage) (l : Launcher)
    → IsAtomic k image l (launch k image l).0 (launch k image l).1
unfolding launch
launch-IsAtomic k image l =
    if-keeps (λ (x : Outcome ℕ × Launcher). IsAtomic k image l x.0 x.1)
      (has_launched l.launched
        || l.completed
        || not l.scope.configured
        || l.scope.attached
        || l.scope.killed
        || l.scope.removed)
      _ _ (λ _. refl) (λ free. attach_verified-IsAtomic k image l (fileno k image) refl free)

-- The image is of a descriptor that passes the checks of a held one.
abbrev Holds : Kernel → ℕ → Option Info → Outcome RuntimeImage → Type 0
Holds k fd found (done image) =
    (image.descriptor ≡ some fd) × (check_held k image fd found ≡ done fd)
Holds k fd found _ = Unit

check_opened-Holds :
    (k : Kernel) (expected : String) (allowed_uids : List ℕ) (fd : ℕ) (found : Option Info)
    → Holds k fd found (check_opened k expected allowed_uids fd found)
unfolding check_opened check_held
check_opened-Holds k expected allowed_uids fd none = tt
check_opened-Holds k expected allowed_uids fd (some info) =
    let P = Holds k fd (some info) in
    if-keeps P
      (not info.regular
        || not (eqb info.nlink 1)
        || not (any (λ uid. eqb uid info.uid) allowed_uids)
        || is_writable info)
      _ _ (λ _. tt)
      (λ metadata.
        if-keeps P (not (is_elf (k.content fd))) _ _ (λ _. tt)
          (λ elf.
            if-keeps P (not (image_digest k fd == expected)) _ _ (λ _. tt)
              (λ digest. (refl, ground arith))))

-- The outcome of `open_verified`, beside the descriptors before it.
abbrev pub IsOpened : Kernel → Descriptors → Outcome RuntimeImage → Descriptors → Type 0
IsOpened k before (done image) after =
    (fd : ℕ) × (k.opened ≡ some fd)
    × (fileno k image ≡ done fd)
    × (after ≡ fd ∷ before)
    × ((close image after).1 ≡ before)
IsOpened k before _ after = after ≡ before

close_descriptor-absent :
    (fd : ℕ) (fds : Descriptors)
    → any (λ other. eqb other fd) fds ≡ false
    → close_descriptor fd fds ≡ fds
close_descriptor-absent fd [] h = refl
close_descriptor-absent fd (other ∷ fds) h = ground (arith, close_descriptor-absent fd fds)

close_descriptor-same :
    (fd : ℕ) (fds : Descriptors)
    → any (λ other. eqb other fd) fds ≡ false
    → close_descriptor fd (fd ∷ fds) ≡ fds
close_descriptor-same fd fds h = ground (arith, close_descriptor-absent fd fds h)

close_on_raise-IsOpened :
    (k : Kernel) (fd : ℕ) (fds : Descriptors) (outcome : Outcome RuntimeImage)
    → k.opened ≡ some fd
    → any (λ other. eqb other fd) fds ≡ false
    → Holds k fd (k.fstat fd) outcome
    → IsOpened k fds
        (close_on_raise fd outcome (fd ∷ fds)).0
        (close_on_raise fd outcome (fd ∷ fds)).1
unfolding close_on_raise close fileno
close_on_raise-IsOpened k fd fds (done image) e fresh holds =
    (fd, e, rw (holds.0) holds.1, refl, rw (holds.0) (close_descriptor-same fd fds fresh))
close_on_raise-IsOpened k fd fds (violation reason) e fresh holds =
    close_descriptor-same fd fds fresh
close_on_raise-IsOpened k fd fds os_error e fresh holds = close_descriptor-same fd fds fresh

-- Where the system gives a descriptor that is not in use: if the open raises, it has left no
-- descriptor open and closed none; if it returns an image, the only new descriptor is the one that
-- the system gave, that one passes the checks of `fileno` while the kernel says the same of it,
-- and closing the image brings the descriptors back to what they were.
pub open_verified-IsOpened :
    (k : Kernel) (expected : String) (allowed_uids : List ℕ) (fds : Descriptors) (fd : ℕ)
    → k.opened ≡ some fd
    → any (λ other. eqb other fd) fds ≡ false
    → IsOpened k fds
        (open_verified k expected allowed_uids fds).0
        (open_verified k expected allowed_uids fds).1
unfolding open_verified
open_verified-IsOpened k expected allowed_uids fds fd e fresh =
    if-keeps (λ (x : Outcome RuntimeImage × Descriptors). IsOpened k fds x.0 x.1)
      (not (is_hash expected)) _ _ (λ _. refl)
      (λ _.
        subst
          (λ (opened : Option ℕ).
            let x : Outcome RuntimeImage × Descriptors = elim opened [
              | none ↦ (violation "runtime_image_unavailable", fds)
              | some fd ↦
                  close_on_raise fd (check_opened k expected allowed_uids fd (k.fstat fd))
                    (fd ∷ fds)
            ] in
            IsOpened k fds x.0 x.1)
          (sym e)
          (close_on_raise-IsOpened k fd fds _ e fresh
            (check_opened-Holds k expected allowed_uids fd (k.fstat fd))))

-- A full run: the limits, the launch and the cleanup of a new launcher.
abbrev pub run : Kernel → RuntimeImage → ℤ → ℕ → Outcome (Unit {0}) × Launcher
run k image timeout elapsed = on_scope configure new_launcher then λ _ l.
    launch k image l then λ _ m. cleanup timeout elapsed m

-- A run of an image that verifies, with a timeout that is positive and that the wait does not
-- exceed, ends without an exception: the launcher is completed, its descriptor is the verified one,
-- the scope is removed, and the log has the six steps in their order.
pub run-completes :
    (k : Kernel) (image : RuntimeImage) (timeout : ℤ) (elapsed : ℕ) (fd : ℕ)
    → fileno k image ≡ done fd
    → is_spent timeout ≡ false
    → is_over timeout elapsed ≡ false
    → ((run k image timeout elapsed).0 ≡ done tt)
      × ((run k image timeout elapsed).1.completed ≡ true)
      × ((run k image timeout elapsed).1.launched ≡ some fd)
      × ((run k image timeout elapsed).1.scope.removed ≡ true)
      × ((run k image timeout elapsed).1.scope.events
          ≡ "limits_configured" ∷ "runtime_fd_verified" ∷ "atomically_attached" ∷ "cgroup_kill"
            ∷ "populated_zero" ∷ "scope_removed" ∷ [])
unfolding on_scope configure launch cleanup attach_verified attach_at_launch kill_and_wait_empty
    observe_empty remove
run-completes k image timeout elapsed fd held positive within = (
  rw (held, positive, within),
  rw (held, positive, within),
  rw (held, positive, within),
  rw (held, positive, within),
  rw (held, positive, within),
)
