-- ===== src/Lib.antt =====
-- Agentic SDD Governance: the rules by which agents work in a repository, as a model in antt.
--
-- The program (src/sddgov/*.py, Python) keeps a project's governance in JSON files below `.sddgov`.
-- An agent asks `evaluate_escalation` whether it may act. The answer is CONTINUE, BLOCKED or
-- ACTION_REQUIRED; on the way a recorded product decision is reused, a signed L3 approval is used
-- once, or an external action is queued. A separate daemon, the broker, keeps the ledger of the
-- nonces of used approvals, in a file that only it may write.
--
-- The parts, and the files that model them:
-- - Base: lists, Boolean tests, exceptions as values, and actions that change a state and may
--   raise; the lemmas by which a property passes through them.
-- - Python: JSON values as Python's dicts, lists, texts and numbers; `==`, `in`, subscripts,
--   truth; laws of dicts.
-- - Host: `datetime.fromisoformat`, the stamp of the clock, and the digest of canonical JSON, as
--   parameters.
-- - Governance (src/sddgov/governance.py): the project's files and `emit_event` (Project),
--   `claim_work` (Claims), the contract of an external action (Actions/Row), its store
--   (Actions/Store), `enqueue_external_action` (Actions/Enqueue) and `resolve_external_action`
--   (Actions/Resolve).
-- - Broker (src/sddgov/broker.py): `NonceLedger` (Ledger), and `handle_request`,
--   `_receive_request`, `_handle_connection` and `_serve_requests` (Daemon). A ledger is the list
--   of the lines of its file; Medium is the JSON codec and the text of the clock, as parameters.
-- - Autonomy (src/sddgov/autonomy.py): the sets of names (Vocabulary), `_validate_operation_payload`
--   (Payload), `build_action_required` and its binding (Package), the closed envelopes (Envelope),
--   the replies (Reply), the decision store and the approvals of product decisions (Decisions),
--   `_consume_operation_approval` (Operation), `evaluate_escalation` (Escalation, one file for each
--   group of its stages, put together in Escalation/Evaluate), `evaluate_deployment` (Deployment),
--   `lock_artifact` and `verify_artifact` (Artifact).
-- - Containment (src/sddgov/production_containment.py): `CgroupLimits` (Limits), `RuntimeImage`
--   (Image), `SyntheticCgroupV2Scope` (Scope) and `SyntheticAtomicLauncher` (Launcher). Phase is the
--   scope as an abstract machine, Reach the step relation of all calls, Held the descriptor.
-- - MergeGate (src/sddgov/merge_gate.py): `_git` and the parsing of its answers (Git), protected and
--   audit paths (Paths), `_every_descendant_commit_is_audit_only` (Ancestry), `_rollback_contract`
--   (Rollback), `_trusted_reviewers` (Reviewers), `_verify_review_receipt` (Review) and
--   `verify_merge` (Verify). Git is a function from arguments to an ended process; the other parts
--   of the program that the gate calls are fields of `World`.
-- - Evidence (src/sddgov/evidence.py): `_MutationTransaction` (Transaction), whose operations are
--   functions on a state that is a parameter, and `transition` (Workflow), where the directory of
--   the package is a record of what is read, verified and written.
-- - Reviewer (src/sddgov/reviewer.py): `_load_trust`, `_review_binding` and the receipt of
--   `sign_protected_review` (Sign), which the gate of MergeGate reads (Accepted). A validity is a
--   float, NaN and infinity included; the key, the texts of the clock, and `timedelta` of a float
--   are parameters.
--
-- How code and model correspond. A function that changes files becomes an action on the record
-- `Project`, or on the lines of the ledger: it returns its value or its exception, and the state
-- beside it, so what was written before a raise stays written. `if test: return reply`, one after
-- another, becomes a list of guards (`first`). Loops over rows are structural recursion, and no
-- fuel is used. The loop of `_receive_request` takes what each `recv` meets from a list that is
-- given, that of `_serve_requests` its turns; a list that ends before the client has closed stands
-- for the deadline. Numbers are natural numbers and JSON integers are integers without bound, as
-- in Python. A time is its instant in microseconds and whether it has a zone. Reply dicts are the
-- same up to the order of their entries.
--
-- What is taken as given: the functions of the host and of the JSON codec, Git, the reading of the
-- signed envelopes and of the product evidence (parameters `Control`, `Evidence` and `Resolver`),
-- and that operations follow one another: the lock files see to that where the code takes one;
-- `claim_work` takes none, and calls of it that overlap are not modelled. Where a theorem relies on
-- documented behaviour of these, the hypothesis `IsLawful` or `IsFaithful` says which.
--
-- What is not modelled: input and output errors of the project's files, texts of exceptions other
-- than ValueError in a reply's detail, JSON that is nested too deep for the parser, the checks of
-- the broker's parent directories and its socket, the creation of the ledger, the trust and approver
-- stores, the files of an evidence package and the contract of its manifest, the trial of a rollback
-- in a temporary repository, the continuous integration guard, redaction, the installer and the
-- command line.
pub mod Base
pub mod Python
pub mod Host
pub mod Governance
pub mod Broker
pub mod Autonomy
pub mod Containment
pub mod MergeGate
pub mod Evidence
pub mod Reviewer
