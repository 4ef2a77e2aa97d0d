-- ===== src/Containment/Scope.antt =====
-- src/sddgov/production_containment.py: `SyntheticCgroupV2Scope`.
use agentic_sdd_governance.Base.{ℕ, String, Bool, true, false, not, ◌||◌, List, [], ◌∷◌, ◌++◌, ltb}
use agentic_sdd_governance.Python.Value.{ℤ, pos, negsuc}
use agentic_sdd_governance.Containment.Violation.{done, Method, unless}

-- The fields of the scope; its limits do not change and are checked when they are made.
pub record Scope : Type 0 where
  pub configured : Bool
  pub attached : Bool
  pub killed : Bool
  pub populated : Bool
  pub removed : Bool
  pub events : List String

abbrev pub new_scope : Scope
new_scope = record {
  configured = false;
  attached = false;
  killed = false;
  populated = false;
  removed = false;
  events = [];
}

-- `self.events.append(event)`
abbrev pub log : String → Scope → Scope
log event s = record s { events = s.events ++ (event ∷ []) }

unfoldable pub configure : Method Scope (Unit {0})
configure s =
    unless (s.configured || s.removed) "cgroup_scope_state_invalid"
      (λ t. (done tt, log "limits_configured" (record t { configured = true }))) s

unfoldable pub attach_at_launch : Method Scope (Unit {0})
attach_at_launch s =
    unless (not s.configured || s.attached || s.killed || s.removed) "cgroup_atomic_attach_required"
      (λ t. (done tt, log "atomically_attached" (record t { attached = true; populated = true }))) s

-- `timeout_seconds <= 0`, in a unit of the clock.
abbrev pub is_spent : ℤ → Bool
is_spent (pos n) = ltb n 1
is_spent (negsuc n) = true

-- `time.monotonic() > deadline`, so long after the deadline was set.
abbrev pub is_over : ℤ → ℕ → Bool
is_over (pos n) elapsed = ltb n elapsed
is_over (negsuc n) elapsed = true

-- What follows the assignments to `killed` and `populated`.
unfoldable pub observe_empty : ℤ → ℕ → Method Scope (Unit {0})
observe_empty timeout elapsed s =
    unless (s.populated || is_over timeout elapsed) "cgroup_not_empty_after_kill"
      (λ t. (done tt, log "populated_zero" t)) s

-- `elapsed` is the time between the two readings of the clock.
unfoldable pub kill_and_wait_empty : ℤ → ℕ → Method Scope (Unit {0})
unfolding observe_empty
kill_and_wait_empty timeout elapsed s =
    unless (not s.attached || s.killed || s.removed || is_spent timeout) "cgroup_cleanup_invalid"
      (λ t.
        observe_empty timeout elapsed
          (record (log "cgroup_kill" (record t { killed = true })) { populated = false }))
      s

unfoldable pub remove : Method Scope (Unit {0})
remove s =
    unless (not s.killed || s.populated || s.removed) "cgroup_remove_denied"
      (λ t. (done tt, log "scope_removed" (record t { removed = true }))) s
