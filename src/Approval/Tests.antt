-- ===== src/Approval/Tests.antt =====
-- A small queue with one reviewer role, and the theorems applied to it.
use rygnal_core.Common.{
  find, arith, eq_iff, String, true, ◌≡◌, ◌≢◌, refl, List, [], ◌∷◌, none, some, lower, strip,
  truthy,
}
use mathlib.Core.Path.{subst}
use rygnal_core.Models.{null, text, Severity, ApprovalStatus, ApprovalRequest, ApprovalDecision}
use rygnal_core.Approval.State.{validate_transition}
use rygnal_core.Approval.Authorization.{
  ApprovalAuthorizationEngine, authorize_role_constraints, authorize_role,
  authorize_role_permission, authorize_reviewer, authorize_decided_by, authorize,
}
use rygnal_core.Approval.Duties.{IsEntitled, authorize-approved}
use rygnal_core.Approval.Receipt.{
  Hasher, valid, signed, attach_approval_receipt, verify_approval_receipt, attach-verify,
}
use rygnal_core.Approval.Queue.{QueuedApproval, ok, get, decide_item, record_decision}
use rygnal_core.Approval.Queue.{err, state_conflict}
use rygnal_core.Approval.Durable.{Row, row_id, Codec, record_row}
use rygnal_core.Approval.Once
use rygnal_core.Approval.Once.{after_all-decided_row, record_row-redacted}
use rygnal_core.Approval.Lifecycle.{
  Call, submitted, recorded, rejected_by, after_all, IsDecidedByAnother, approved_by_another,
  decided_once,
}

abbrev engine : ApprovalAuthorizationEngine
engine = record {
  reviewer_permissions = [];
  role_permissions =
      (
        "lead",
        record {
          role = "lead";
          allowed_severities = Severity.high ∷ [];
          allowed_actions = none;
          environments = some ("local" ∷ []);
        },
      )
      ∷ [];
}

abbrev request : ApprovalRequest
request = record {
  approval_id = "apr_1";
  created_at = "t";
  trace_id = "trace_1";
  requested_by = "ann";
  agent_id = "agent";
  environment = "local";
  tool_name = "shell";
  action = none;
  target = null;
  policy_id = none;
  reason = "r";
  severity = Severity.high;
  risk_assessment = [];
  metadata = [];
}

abbrev approval : ApprovalDecision
approval = record {
  approval_id = "apr_1";
  status = ApprovalStatus.approved;
  approved = true;
  decided_by = some "bob";
  decided_at = none;
  reason = "ok";
  metadata = ("reviewer_role", text " Lead ") ∷ [];
}

abbrev approved_item : QueuedApproval
approved_item = record {
  request = request;
  status = ApprovalStatus.approved;
  decision = some approval;
}

abbrev calls : List Call
calls = submitted request ∷ recorded "apr_1" approval ∷ []

authorized : (authorize engine request approval ApprovalStatus.pending).allowed ≡ true
unfolding validate_transition authorize_role_constraints authorize_role authorize_role_permission
    authorize_reviewer authorize_decided_by authorize lower strip
authorized = refl

authorize-approved_example :
    (ApprovalStatus.pending ≡ ApprovalStatus.pending)
    × ((by : String) × (some "bob" ≡ some by)
        × (by ≢ "ann")
        × IsEntitled engine request approval by)
authorize-approved_example =
    authorize-approved engine request approval ApprovalStatus.pending refl authorized

approved_found : get "apr_1" (after_all engine (λ s. s) calls []) ≡ ok approved_item
unfolding validate_transition authorize_role_constraints authorize_role authorize_role_permission
    authorize_reviewer authorize_decided_by authorize lower strip get decide_item record_decision
approved_found = refl

approved_by_another_example : IsDecidedByAnother engine approved_item
approved_by_another_example =
    approved_by_another engine (λ s. s) calls "apr_1" approved_item approved_found refl

approved_kept : get "apr_1" (approved_item ∷ []) ≡ ok approved_item
unfolding get
approved_kept = refl

decided_once_example :
    get "apr_1"
      (after_all engine (λ s. s) (rejected_by "t" "eve" "no" "apr_1" ∷ []) (approved_item ∷ []))
    ≡ ok approved_item
decided_once_example =
    decided_once engine (λ s. s) (rejected_by "t" "eve" "no" "apr_1" ∷ []) "apr_1" approved_item
      (approved_item ∷ []) ((λ e. e), tt) approved_kept (λ e. cc)

abbrev hasher : Hasher
hasher r d = some "h"

hasher-truthy :
    (x : ApprovalRequest) (y : ApprovalDecision) (s : String)
    → hasher x y ≡ some s
    → truthy s ≡ true
hasher-truthy x y s e = subst (λ o. elim o [ none ↦ Unit | some t ↦ truthy t ≡ true ]) e refl

attached : attach_approval_receipt hasher request approval ≡ some (signed "h" approval)
unfolding attach_approval_receipt
attached = refl

attach-verify_example : verify_approval_receipt hasher request (signed "h" approval) ≡ valid
attach-verify_example =
    attach-verify hasher request approval (signed "h" approval) hasher-truthy refl refl attached

-- A redaction that replaces every reason.
abbrev codec : Codec
codec = record {
  redact_request = λ r. r;
  redact_decision = λ d. record d { reason = "[REDACTED]" };
  request_json = λ r. r.approval_id;
}

abbrev decided_row : Row
decided_row = record {
  approval_id = "apr_1";
  status = ApprovalStatus.approved;
  request_json = "apr_1";
  request = request;
  decision = some (codec.redact_decision approval);
}

after_all-decided_row_example :
    find row_id "apr_1" (
      Once.after_all codec engine
        (Once.submitted request ∷ Once.recorded "apr_1" approval ∷ [])
        (decided_row ∷ []))
    ≡ some decided_row
after_all-decided_row_example =
    after_all-decided_row codec engine
      (Once.submitted request ∷ Once.recorded "apr_1" approval ∷ []) "apr_1" decided_row
      (decided_row ∷ []) refl refl

redaction_shows : (codec.redact_decision approval).reason ≢ approval.reason
redaction_shows e = ground (arith, eq_iff "[REDACTED]" "ok")

record_row-redacted_example :
    record_row codec engine "apr_1" approval (decided_row ∷ [])
    ≡ (err (state_conflict "Approval already has a different terminal decision."), decided_row ∷ [])
record_row-redacted_example =
    record_row-redacted codec engine approval decided_row (decided_row ∷ []) refl refl refl
      redaction_shows
