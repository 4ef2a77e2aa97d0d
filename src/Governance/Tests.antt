-- ===== src/Governance/Tests.antt =====
-- Tests of src/sddgov/governance.py on a host whose stamps count whole seconds.
use agentic_sdd_governance.Python.Access.{iterate, subscript, in_range}
use agentic_sdd_governance.Base.{
  ℕ, zero, suc, ◌*◌, ◌/◌, ◌≡◌, ◌≢◌, refl, ap, ◌∙◌, String, true, none, some, List, [], ok, arith,
  ◌∷◌,
}
use agentic_sdd_governance.Python.Value.{str, int, end, lookup, pos}
use agentic_sdd_governance.Python.Text.{len}
use agentic_sdd_governance.Host.{Host, IsLawful, replace_z, microseconds}
use agentic_sdd_governance.Governance.Project.{emit_event, Project}
use agentic_sdd_governance.Governance.Actions.Enqueue.{Request, enqueue}
use agentic_sdd_governance.Governance.Actions.Resolve.{Resolution, resolve}
use agentic_sdd_governance.Governance.Actions.Evolve.{KeepsTerminal}
use agentic_sdd_governance.Governance.Actions.Terminal.{
  enqueue-KeepsTerminal, resolve-KeepsTerminal,
}
use agentic_sdd_governance.Governance.Claims.{claim_work, new_claim}
use agentic_sdd_governance.Governance.Claims.Exclusive.{Call, after_calls, claim_work-exclusive}

-- So many letters.
ticks : ℕ → String
ticks zero = ""
ticks (suc n) = String.◌∷◌ "x" (ticks n)

replace_z-ticks : (n : ℕ) → replace_z (ticks n) ≡ ticks n
unfolding replace_z ticks
replace_z-ticks zero = refl
replace_z-ticks (suc n) = ap (String.◌∷◌ "x") (replace_z-ticks n)

len-ticks : (n : ℕ) → len (ticks n) ≡ n
unfolding len ticks
len-ticks zero = refl
len-ticks (suc n) = ap suc (len-ticks n)

abbrev ticking : Host
ticking = record {
  fromisoformat = λ s. some (record { aware = true; instant = len s * microseconds });
  stamp = λ t. ticks (t / microseconds);
  sha256_json = λ _. "";
}

ticking-IsLawful : IsLawful ticking
ticking-IsLawful = record {
  stamp_reads = λ t.
      ap (λ (n : ℕ). some (record { aware = true; instant = n * microseconds }))
        (ap len (replace_z-ticks (t / microseconds)) ∙ len-ticks (t / microseconds));
}

abbrev new_project : Project
new_project = record {
  project = none;
  claims = none;
  actions = none;
  decisions = none;
  events = [];
}

-- Another package is claimed, and an early attempt at this one is refused.
abbrev others : List Call
others =
    record { work_package = "WP-2"; agent = "agent-c"; ttl = pos 5; at = 500000 }
    ∷ record { work_package = "WP-1"; agent = "agent-b"; ttl = pos 5; at = 700000 }
    ∷ []

claim_work-exclusive_example :
    claim_work ticking "WP-1" "agent-b"
      (pos 30)
      1000000
      (after_calls ticking others (claim_work ticking "WP-1" "agent-a" (pos 2) 0 new_project).1)
    ≢ (ok (new_claim ticking "WP-1" "agent-b" 30 1000000), new_project)
unfolding claim_work in_range subscript lookup iterate emit_event
claim_work-exclusive_example =
    claim_work-exclusive ticking "WP-1" "agent-a" "agent-b" (pos 2) (pos 30) 0 1000000 others
      new_project {claim = new_claim ticking "WP-1" "agent-a" 2 0} ticking-IsLawful refl
      (omega arith) (omega arith)

abbrev digest_a : String
digest_a = "aaaaaaaaaaaaaaaaaaaaaaaaaaaaaaaaaaaaaaaaaaaaaaaaaaaaaaaaaaaaaaaa"

abbrev rotate_key : Request
rotate_key = record {
  action_id = str "ACT-1";
  summary = str "rotate the deploy key";
  risk = str "L2";
  owner = str "owner";
  scope = str "deploy key";
  ttl_minutes = int (pos 60);
  action_class = str "operational_action";
}

-- The host of before, whose digests are all the same.
abbrev hashing : Host
hashing = record ticking { sha256_json = λ _. digest_a }

abbrev queued_project : Project
queued_project = (enqueue hashing 0 rotate_key new_project).1

abbrev rotated : Resolution
rotated = record {
  action_id = "ACT-1";
  action_class = "operational_action";
  owner = "owner";
  scope = "deploy key";
  request_sha256 = digest_a;
  status = "completed";
  resolved_at = "xxxxx";
  receipt_sha256 = digest_a;
  evidence_sha256 = digest_a;
  envelope = end;
}

enqueue-KeepsTerminal_example :
    KeepsTerminal new_project (enqueue hashing 0 rotate_key new_project).1
enqueue-KeepsTerminal_example = enqueue-KeepsTerminal hashing 0 rotate_key new_project

resolve-KeepsTerminal_example :
    KeepsTerminal queued_project (resolve hashing 5000000 rotated queued_project).1
resolve-KeepsTerminal_example = resolve-KeepsTerminal hashing 5000000 rotated queued_project
