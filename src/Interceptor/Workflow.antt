-- ===== src/Interceptor/Workflow.antt =====
-- `ApprovalWorkflow` of src/rygnal/approval.py, up to the receipt that is attached to an approval.
use rygnal_core.Common.{
  String, Bool, true, false, not, ◌||◌, List, [], ◌∷◌, Option, none, some, if◌then◌else◌, ◌==◌,
  lookup, insert, merge, all, lower, strip, truthy, text_in,
}
use rygnal_core.Models.{
  Value, null, bool, number, text, list, dict, nil, end, ApprovalStatus, ToolRequest,
  PolicyDecision, ApprovalRequest, ApprovalDecision,
}
use rygnal_core.Approval.Receipt.{Hasher, attach_approval_receipt}
use rygnal_core.Approval.Authorization.{
  ApprovalReviewerPermission, ApprovalAuthorizationResult, ApprovalAuthorizationEngine, authorize,
}

-- What a run of the workflow takes from outside: the fresh identifiers and the time, `str` of a
-- value, the redaction of src/rygnal/security.py, the resolver, which is the operator's, and the
-- hash of a receipt's payload (JSON and SHA-256), or none where the payload is refused.
pub record Outside : Type 0 where
  pub new_approval_id : String
  pub new_trace_id : String
  pub utc_now_iso : String
  pub str : Value → String
  pub redact : List (String × Value) → List (String × Value)
  pub resolver : ApprovalRequest → ApprovalDecision
  pub receipt_hash : Hasher

-- `metadata.get("trace_id")` where it is truthy
abbrev is_truthy : Value → Bool
is_truthy null = false
is_truthy (bool b) = b
is_truthy (number n) = not (n == "0" || n == "0.0")
is_truthy (text s) = truthy s
is_truthy (list nil) = false
is_truthy (list v) = true
is_truthy (dict end) = false
is_truthy (dict v) = true

unfoldable pub trace_id_of : Outside → List (String × Value) → String
trace_id_of o metadata = elim (lookup "trace_id" metadata) [
  | none ↦ o.new_trace_id
  | some v ↦ if is_truthy v then o.str v else o.new_trace_id
]

abbrev target_value : Option String → Value
target_value none = null
target_value (some s) = text s

unfoldable pub approval_request :
    Outside → ToolRequest → PolicyDecision → List (String × Value) → ApprovalRequest
unfolding trace_id_of
approval_request o q p risk = record {
  approval_id = o.new_approval_id;
  created_at = o.utc_now_iso;
  trace_id = trace_id_of o q.metadata;
  requested_by = q.user_id;
  agent_id = q.agent_id;
  environment = q.environment;
  tool_name = q.tool_name;
  action = q.action;
  target = target_value q.target;
  policy_id = p.policy_id;
  reason = p.reason;
  severity = p.severity;
  risk_assessment = o.redact risk;
  metadata = o.redact q.metadata;
}

-- The texts of an authorization, as JSON.
abbrev text_values : List (String × String) → List (String × Value)
text_values [] = []
text_values ((k, s) ∷ m) = (k, text s) ∷ text_values m

-- `_apply_authorization_result`
unfoldable pub apply_authorization_result :
    String → ApprovalDecision → ApprovalAuthorizationResult → ApprovalDecision
apply_authorization_result now d a =
    if a.allowed
    then record d { metadata = merge d.metadata (text_values a.metadata) }
    else record {
      approval_id = d.approval_id;
      status = ApprovalStatus.rejected;
      approved = false;
      decided_by = some "system";
      decided_at = some now;
      reason = a.reason;
      metadata = merge d.metadata (text_values a.metadata);
    }

-- The validation of an `ApprovalRequest`: no text of its context is blank.
abbrev pub has_context : ApprovalRequest → Bool
has_context r =
    all (λ s. truthy (strip s))
      (r.approval_id ∷ r.created_at ∷ r.trace_id ∷ r.requested_by ∷ r.agent_id ∷ r.environment
        ∷ r.tool_name ∷ r.reason ∷ [])

-- `request_approval`: the request with the decision that takes effect, or none for an exception.
unfoldable pub request_approval :
    Outside
    → ApprovalAuthorizationEngine
    → ToolRequest
    → PolicyDecision
    → List (String × Value)
    → Option (ApprovalRequest × ApprovalDecision)
unfolding apply_authorization_result
request_approval o g q p risk =
    let r = approval_request o q p risk in
    let d = o.resolver r in
    if not (has_context r)
    then none
    else if not (d.approval_id == r.approval_id)
    then none
    else elim (attach_approval_receipt o.receipt_hash r
        (apply_authorization_result o.utc_now_iso d (authorize g r d ApprovalStatus.pending))) [
          | none ↦ none
          | some effective ↦ some (r, effective)
        ]

-- `reject_by_default`
unfoldable pub reject_by_default : String → ApprovalRequest → ApprovalDecision
reject_by_default now r = record {
  approval_id = r.approval_id;
  status = ApprovalStatus.rejected;
  approved = false;
  decided_by = some "system";
  decided_at = some now;
  reason = "Approval workflow is not configured. Request rejected by default.";
  metadata = [];
}

abbrev pub denied_approver_roles : List String
denied_approver_roles = "viewer" ∷ []

-- `_build_reviewer_permissions`
unfoldable pub build_reviewer_permissions :
    List (String × String)
    → List (String × ApprovalReviewerPermission)
    → List (String × ApprovalReviewerPermission)
build_reviewer_permissions [] permissions = permissions
build_reviewer_permissions ((reviewer, role) ∷ roles) permissions =
    build_reviewer_permissions roles (
      insert reviewer
        (record {
          role = role;
          can_approve = not (text_in (lower (strip role)) denied_approver_roles);
        })
        permissions)
