-- ===== src/Lib.antt =====
-- rygnal_core: a verification library for the control plane of Rygnal, which stands between AI
-- agents and the tools that they call.
--
-- The parts of the program and the files that model them:
--   Models       src/rygnal/models.py: the records and enumerations that the parts exchange.
--   Operation    src/rygnal/operation_store.py: durable operations and repository leases. Identity has
--                the keys and the inspection of processes and repositories, Store the reservation
--                (reserve_artifact_apply), Transition the owned transitions (mark_applying,
--                mark_applied, fail_or_preserve_ambiguous), Recovery reconcile_incomplete. Consistent
--                has the invariant of the two tables, Processes any interleaving of the transactions,
--                reads and inspections of any number of processes (Methods shows the methods of
--                recovery and failure handling as runs of them), Outcomes what each method answers.
--   Approval     src/rygnal/approval_state.py (State), approval_authorization.py (Authorization),
--                approval_receipt.py (Receipt) and the two queues of approval_queue.py: in memory
--                (Queue) and durable (Durable). Duties, Lifecycle and Once have their properties.
--   Policy       src/rygnal/policy_engine.py: Matching is _matches, Validation the checks of a loaded
--                policy, Evaluation evaluate. Equality is Python's == on JSON.
--   Interceptor  src/rygnal/interceptor.py (Control), tool_executor.py (Execution) and approval.py
--                (Workflow). Assembly fills the interceptor with the policy engine and the workflow.
--   Audit        src/rygnal/audit_logger.py: the hash chain of the log. Query is audit_query.py, and
--                Pages has the bounds of its pages.
--   Risk         src/rygnal/risk_engine.py: the score of a request and the history of its trace.
--   Limits       src/rygnal/diff_limits.py, with the gate of change_gate.py (Gate).
--   Apply        src/rygnal/patch_approval.py (the requirement, the request and the decision; Granted is
--                assert_patch_approval_granted) and approved_apply.py (Approved); Redaction is the
--                redaction of what is logged; Effects, Replay, Redacted and Outcomes have what a call
--                and any sequence of calls does. Safe is safe_apply.py, and Eligible compares it
--                with the requirement of an approval.
--   Paths        src/rygnal/changed_files.py: normalize_repo_relative_path, and in Changed the inventory
--                of changed files; Ignore is ignore_rules.py, Glob Python's fnmatchcase. Normal, Parsed
--                and Literal have their properties.
--   Intent       src/rygnal/intent_contract.py, its validators (Contract), resource_graph.py (Graph),
--                capability_matcher.py (Scopes, Matcher), intent_fallback_policy.py (Fallback) and
--                intent_review.py (Review). Coverage, Gravity and Enforcement have their properties.
--   Common       tests, lists, texts, tables and sorting in the manner of Python and of SQL.
--
-- How they interact: the interceptor asks the policy engine for a decision, the workflow for an
-- approval where the decision asks for one (which the authorization checks), writes the audit log,
-- and only then runs a tool. An approved artifact is applied under a reservation of the operation
-- store, so that one process at a time changes a repository.
--
-- A patch that needs an approval is applied by Apply, which asks the gate of Limits and the receipts of
-- Approval. Intent holds the actions of an agent against a contract, with the paths of Paths.
--
-- How the code corresponds: a method of a store is a function from the state to its answer and the
-- new state; a rollback returns the old state. An exception is an error value. In
-- Operation.Processes a step is one transaction, one read on a connection of its own or one
-- inspection of a process or of Git, where the methods of Store, Transition and Recovery put these
-- together. All calls of apply_approved_patch have one audit log. A number of JSON is kept as Python
-- prints it, and Policy.Equality compares whole floats with integers but those from 1e16 on. No
-- function needs fuel but the printing of a number n, which has n + 1 units, at least one for each
-- digit: loops run over lists.
--
-- Taken as parameters: the operating system, Git and SHA-256 (Operation.Host), regular expressions,
-- floats and str (Policy.Runtime), the resolver of approvals, the patterns of the redaction of
-- src/rygnal/security.py (Apply.Redaction has its values and keys; where no property depends on them
-- the whole redaction is a parameter), the hash of a receipt (Interceptor.Workflow.Outside and Apply)
-- and of an audit event (Audit.Digest), tools and their handlers, the hash of an edge of the resource graph, the outcomes of Git and of the check of paths in Apply
-- (Apply.Approved.Surroundings, Apply.Safe.SafeSurroundings), and the parsing of timestamps (Apply.Granted.Clock,
-- Audit.Query.Outside).
--
-- Not modelled: the contents of audit metadata but the fields that the replay protection of Apply
-- reads, SQL connections and schemas, YAML and files, the SQLite
-- audit storage, risk detectors, the making of patches, containers, the command line and the web API.
pub mod Common
pub mod Models
pub mod Operation
pub mod Approval
pub mod Policy
pub mod Interceptor
pub mod Audit
pub mod Risk
pub mod Limits
pub mod Apply
pub mod Paths
pub mod Intent
