-- ===== src/Interceptor/Tests.antt =====
-- A read that the policy allows, and a shell command that asks for approval.
use rygnal_core.Common.{
  String, true, false, ◌≡◌, ◌≢◌, refl, ◌⊎◌, List, [], ◌∷◌, none, some, any, strip,
}
use rygnal_core.Models.{
  Value, text, Decision, Severity, ApprovalStatus, RuntimeMode, ToolRequest, PolicyDecision,
  ApprovalRequest, ApprovalDecision,
}
use rygnal_core.Approval.State.{validate_transition}
use rygnal_core.Approval.Authorization.{
  ApprovalAuthorizationEngine, authorize_role_permission, authorize_reviewer_permission,
  authorize_reviewer, authorize_decided_by, authorize,
}
use rygnal_core.Approval.Duties.{IsEntitled}
use rygnal_core.Approval.Receipt.{signed, attach_approval_receipt}
use rygnal_core.Policy.{PolicyRule, RiskContext, Runtime}
use rygnal_core.Policy.Matching.{matches_exactly, matches_content, search_pattern, matches}
use rygnal_core.Policy.Evaluation.{rule_decision, evaluate_rules, evaluate}
use rygnal_core.Interceptor.Workflow.{
  Outside, has_context, trace_id_of, approval_request, apply_authorization_result, request_approval,
}
use rygnal_core.Interceptor.Execution.{returned, execute, execute_with_decision}
use rygnal_core.Interceptor.Control.{ok, log_and_execute, approve_and_execute, intercept}
use rygnal_core.Interceptor.Safety.{is_run, Cleared, intercept-Cleared}
use rygnal_core.Interceptor.Assembly.{
  IsCoherent, Setup, assembled, assembled-Cleared, request_approval-IsEntitled,
  request_approval-flag,
}

abbrev runtime : Runtime
runtime = record {
  compile_error = λ p. none;
  search = λ p s. false;
  utf8_len = λ s. 0;
  max_pattern_bytes = 2048;
  max_target_bytes = 8192;
  score_below = λ n m. false;
  str = λ v. "";
  repr = λ s. s;
}

abbrev shell_rule : PolicyRule
shell_rule = record {
  id = "shell";
  decision = Decision.require_approval;
  severity = Severity.high;
  reason = "a shell needs approval";
  priority = 10;
  tool_name = some "shell";
  action = none;
  environment = none;
  target_equals = none;
  target_contains = none;
  target_matches = none;
  target_not_matches = none;
  input_equals = none;
  input_contains = none;
  metadata_equals = [];
  metadata_contains = [];
  risk_level = none;
  risk_score_min = none;
}

abbrev request : ToolRequest
request = record {
  tool_name = "shell";
  action = none;
  target = none;
  input = text "ls";
  user_id = "ann";
  agent_id = "agent";
  environment = "local";
  metadata = [];
}

-- Every request is approved by bob.
abbrev by_bob : ApprovalRequest → ApprovalDecision
by_bob r = record {
  approval_id = r.approval_id;
  status = ApprovalStatus.approved;
  approved = true;
  decided_by = some "bob";
  decided_at = none;
  reason = "ok";
  metadata = [];
}

-- A rejection by the requester whose flag says approved.
abbrev by_ann : ApprovalRequest → ApprovalDecision
by_ann r = record {
  approval_id = r.approval_id;
  status = ApprovalStatus.rejected;
  approved = true;
  decided_by = some "ann";
  decided_at = none;
  reason = "no";
  metadata = [];
}

abbrev outside : Outside
outside = record {
  new_approval_id = "apr_1";
  new_trace_id = "trace_1";
  utc_now_iso = "t";
  str = λ v. "";
  redact = λ m. m;
  resolver = by_bob;
  receipt_hash = λ r d. some "h";
}

abbrev no_permissions : ApprovalAuthorizationEngine
no_permissions = record { reviewer_permissions = []; role_permissions = [] }

abbrev setup : Setup
setup = record {
  runtime_mode = RuntimeMode.enforce;
  tools = ("shell", λ q. returned (text "a b")) ∷ [];
  runtime = runtime;
  engine = record {
    policy_version = "policy.v1";
    default_decision = Decision.block;
    rules = shell_rule ∷ [];
  };
  outside = outside;
  authorization = no_permissions;
  assess = λ q. ok (record { risk_level = some "high"; risk_score = some 70 }, []);
  audit = λ q p. ok tt;
}

abbrev decision_of : PolicyDecision
decision_of = rule_decision setup.engine shell_rule ("shell" ∷ [])

runs : any is_run (intercept (assembled setup) request).1 ≡ true
unfolding matches_exactly matches_content search_pattern matches rule_decision evaluate_rules
    evaluate intercept approve_and_execute log_and_execute request_approval approval_request
    trace_id_of apply_authorization_result attach_approval_receipt authorize validate_transition
    authorize_decided_by authorize_reviewer authorize_role_permission authorize_reviewer_permission
    execute_with_decision execute strip
runs = refl

intercept-Cleared_example : Cleared (assembled setup) request
intercept-Cleared_example = intercept-Cleared (assembled setup) request runs

bob-IsCoherent : IsCoherent by_bob
bob-IsCoherent r h = refl

assembled-Cleared_example :
    (risk : RiskContext × List (String × Value)) × (setup.assess request ≡ ok risk)
    × (((evaluate runtime setup.engine request risk.0).decision ≡ Decision.allow)
        ⊎ ((evaluate runtime setup.engine request risk.0).decision ≡ Decision.require_approval)
          × ((r : ApprovalRequest) × (e : ApprovalDecision) × (request_approval outside
                  no_permissions request
                  (evaluate runtime setup.engine request risk.0)
                  risk.1
                ≡ some (r, e))
              × (e.approved ≡ true)
              × (e.status ≡ ApprovalStatus.approved)
              × ((by : String) × (e.decided_by ≡ some by)
                  × (by ≢ "ann")
                  × IsEntitled no_permissions r (by_bob r) by)))
assembled-Cleared_example = assembled-Cleared setup request bob-IsCoherent runs

abbrev asked : ApprovalRequest
asked = approval_request outside request decision_of []

abbrev granted : ApprovalDecision
granted = signed "h" (by_bob asked)

workflow_grants :
    request_approval outside no_permissions request decision_of [] ≡ some (asked, granted)
unfolding rule_decision request_approval approval_request trace_id_of apply_authorization_result
    attach_approval_receipt authorize validate_transition authorize_decided_by authorize_reviewer
    authorize_role_permission authorize_reviewer_permission strip
workflow_grants = refl

request_approval-IsEntitled_example :
    (by : String) × (some "bob" ≡ some by)
    × (by ≢ "ann")
    × IsEntitled no_permissions asked (by_bob asked) by
request_approval-IsEntitled_example =
    request_approval-IsEntitled outside no_permissions request decision_of [] asked granted
      workflow_grants refl

abbrev careless : Outside
careless = record outside { resolver = by_ann }

abbrev asked_again : ApprovalRequest
asked_again = approval_request careless request decision_of []

asked_context : has_context asked_again ≡ true
unfolding rule_decision approval_request trace_id_of strip
asked_context = refl

request_approval-flag_example :
    (e : ApprovalDecision) × (request_approval careless no_permissions request decision_of []
      ≡ some (asked_again, e))
    × (e.status ≡ ApprovalStatus.rejected)
    × (e.approved ≡ true)
request_approval-flag_example =
    request_approval-flag careless no_permissions request decision_of [] asked_again refl
      asked_context refl refl
