-- ===== src/Containment/Launcher.antt =====
-- src/sddgov/production_containment.py: `SyntheticAtomicLauncher`.
use agentic_sdd_governance.Base.{ℕ, Bool, true, false, not, ◌||◌, Option, none, some, if◌then◌else◌}
use agentic_sdd_governance.Python.Value.{ℤ}
use agentic_sdd_governance.Containment.Violation.{done, Method, unless, ◌then◌}
use agentic_sdd_governance.Containment.Image.{Kernel, RuntimeImage, fileno}
use agentic_sdd_governance.Containment.Scope.{
  Scope, new_scope, log, attach_at_launch, kill_and_wait_empty, remove,
}

pub record Launcher : Type 0 where
  pub scope : Scope
  pub launched : Option ℕ
  pub completed : Bool

abbrev pub new_launcher : Launcher
new_launcher = record { scope = new_scope; launched = none; completed = false }

abbrev pub has_launched : Option ℕ → Bool
has_launched none = false
has_launched (some fd) = true

-- A method of the scope, called on the launcher's scope.
unfoldable pub on_scope : {A : Type 0} → Method Scope A → Method Launcher A
on_scope method l = let (result, scope') = method l.scope in (result, record l { scope = scope' })

-- `launch` after the descriptor was verified.
unfoldable pub attach_verified : ℕ → Method Launcher ℕ
unfolding on_scope
attach_verified fd l =
    on_scope attach_at_launch (record l { scope = log "runtime_fd_verified" l.scope }) then λ _ m.
    (done fd, record m { launched = some fd })

-- `launch`
unfoldable pub launch : Kernel → RuntimeImage → Method Launcher ℕ
unfolding attach_verified
launch k image l =
    unless
      (has_launched l.launched
        || l.completed
        || not l.scope.configured
        || l.scope.attached
        || l.scope.killed
        || l.scope.removed)
      "atomic_launcher_state_invalid" (λ m. (fileno k image, m) then attach_verified) l

-- `cleanup`
unfoldable pub cleanup : ℤ → ℕ → Method Launcher (Unit {0})
unfolding on_scope
cleanup timeout elapsed l =
    unless (not (has_launched l.launched) || l.completed) "atomic_launcher_cleanup_invalid"
      (λ m.
        on_scope (kill_and_wait_empty timeout elapsed) m
        then (λ _ n. on_scope remove n then λ _ o. (done tt, record o { completed = true })))
      l

abbrev pub production_activation_permitted : Bool
production_activation_permitted = false
