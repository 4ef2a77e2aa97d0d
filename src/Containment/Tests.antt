-- ===== src/Containment/Tests.antt =====
-- Concrete launchers, images and kernels.
use agentic_sdd_governance.Python.Text.{is_sha256}
use agentic_sdd_governance.Base.{◌≡◌, refl, String, true, false, some, List, [], ◌∷◌}
use agentic_sdd_governance.Python.Value.{pos}
use agentic_sdd_governance.Containment.Violation.{done}
use agentic_sdd_governance.Containment.Image.{
  is_elf, is_hash, Kernel, RuntimeImage, fileno, open_verified,
}
use agentic_sdd_governance.Containment.Scope.{
  remove, kill_and_wait_empty, attach_at_launch, configure, new_scope,
}
use agentic_sdd_governance.Containment.Launcher.{Launcher, new_launcher, launch, cleanup, on_scope}
use agentic_sdd_governance.Containment.Phase.{
  idle, Represents, Call, to_configure, to_attach, to_remove, to_kill, perform, perform_all,
  promise_all, perform_all-refines,
}
use agentic_sdd_governance.Containment.Reach.{
  here, next, launch_step, cleanup_step, scope_step, IsSound, Reach-IsSound,
}
use agentic_sdd_governance.Containment.Held.{
  IsAtomic, launch-IsAtomic, IsOpened, open_verified-IsOpened, run, run-completes,
}

abbrev hex : String
hex = "0123456789abcdef0123456789abcdef0123456789abcdef0123456789abcdef"

abbrev digest : String
digest = "sha256:0123456789abcdef0123456789abcdef0123456789abcdef0123456789abcdef"

-- A kernel that knows one file.
abbrev kernel : Kernel
kernel = record {
  sha256 = λ content. hex;
  opened = some 5;
  fstat = λ fd.
      some (record { regular = true; nlink = 1; uid = 0; mode = 0o755; device = 7; inode = 9 });
  content = λ fd. 0x7f ∷ 0x45 ∷ 0x4c ∷ 0x46 ∷ 2 ∷ [];
}

abbrev image : RuntimeImage
image = record {
  descriptor = some 5;
  expected_sha256 = digest;
  device = 7;
  inode = 9;
  owner_uid = 0;
}

abbrev calls : List Call
calls = to_configure ∷ to_remove ∷ to_attach ∷ to_kill (pos 2) 1 ∷ to_attach ∷ to_remove ∷ []

perform_all-refines_example :
    ((perform_all calls new_scope).0 ≡ (promise_all calls idle).0)
    × Represents (promise_all calls idle).1 (perform_all calls new_scope).1
perform_all-refines_example =
    perform_all-refines calls idle new_scope (refl, refl, refl, refl, refl)

-- A late kill is not accepted, and the scope is emptied all the same.
late_kill :
    (perform_all (to_configure ∷ to_attach ∷ to_kill (pos 1) 3 ∷ to_remove ∷ []) new_scope).0
    ≡ true ∷ true ∷ false ∷ true ∷ []
unfolding configure attach_at_launch kill_and_wait_empty remove
late_kill = refl

abbrev one_call : Launcher
one_call = (on_scope (perform to_configure) new_launcher).1

abbrev two_calls : Launcher
two_calls = (launch kernel image one_call).1

Reach-IsSound_example : IsSound (cleanup (pos 2) 1 two_calls).1
Reach-IsSound_example = Reach-IsSound (
    next (next (next here (scope_step to_configure)) (launch_step kernel image))
      (cleanup_step (pos 2) 1))

launch-IsAtomic_example :
    IsAtomic kernel image one_call (launch kernel image one_call).0 (launch kernel image one_call).1
launch-IsAtomic_example = launch-IsAtomic kernel image one_call

open_verified-IsOpened_example :
    IsOpened kernel
      (0 ∷ 1 ∷ 2 ∷ [])
      (open_verified kernel digest (0 ∷ []) (0 ∷ 1 ∷ 2 ∷ [])).0
      (open_verified kernel digest (0 ∷ []) (0 ∷ 1 ∷ 2 ∷ [])).1
open_verified-IsOpened_example =
    open_verified-IsOpened kernel digest (0 ∷ []) (0 ∷ 1 ∷ 2 ∷ []) 5 refl refl

opens : (open_verified kernel digest (0 ∷ []) (0 ∷ [])).0 ≡ done image
unfolding open_verified is_hash is_sha256 is_elf
opens = refl

run-completes_example :
    ((run kernel image (pos 2) 1).0 ≡ done tt)
    × ((run kernel image (pos 2) 1).1.completed ≡ true)
    × ((run kernel image (pos 2) 1).1.launched ≡ some 5)
    × ((run kernel image (pos 2) 1).1.scope.removed ≡ true)
    × ((run kernel image (pos 2) 1).1.scope.events
        ≡ "limits_configured" ∷ "runtime_fd_verified" ∷ "atomically_attached" ∷ "cgroup_kill"
          ∷ "populated_zero" ∷ "scope_removed" ∷ [])
unfolding fileno is_elf
run-completes_example = run-completes kernel image (pos 2) 1 5 refl refl refl
