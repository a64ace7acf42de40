-- ===== src/Interceptor/Control.antt =====
-- `RygnalInterceptor.intercept` of src/rygnal/interceptor.py. The engines that it holds are a record
-- of functions; the module `Assembly` fills it with the engines of this library. An
-- exception of the listed kinds is the name of its type.
use rygnal_core.Common.{
  String, Bool, false, List, [], ◌∷◌, Option, none, some, concat, if◌then◌else◌,
}
use rygnal_core.Models.{
  null, Decision, Severity, ExecutionStatus, RuntimeMode, ToolRequest, PolicyDecision,
  ApprovalRequest, ApprovalDecision, ToolExecutionResult,
}
use rygnal_core.Interceptor.Execution.{Tools, execute_with_decision, result_of}

pub data Caught (A : Type 0) : Type 0 where
  ok : A → Caught A
  error : String → Caught A

-- What `intercept` calls, for an assessment of type `R`; `audit` writes a decision to the log.
pub record Parts (R : Type 0) : Type 0 where
  pub runtime_mode : RuntimeMode
  pub tools : Tools
  pub assess : ToolRequest → Caught R
  pub evaluate : ToolRequest → R → Caught PolicyDecision
  pub request_approval :
      ToolRequest → PolicyDecision → R → Caught (ApprovalRequest × ApprovalDecision)
  pub audit : ToolRequest → PolicyDecision → Caught (Unit {0})

-- What happens outside, in order: an entry of the log, and the run of a tool.
pub data Effect : Type 0 where
  logged : ToolRequest → PolicyDecision → Effect
  ran : ToolRequest → Effect

-- The fields of `InterceptorResult` that are decided here, or the exception of the log that leaves
-- `intercept`.
pub record Intercepted : Type 0 where
  pub policy_decision : PolicyDecision
  pub execution : ToolExecutionResult
  pub approval_decision : Option ApprovalDecision

pub data Outcome : Type 0 where
  result : Intercepted → Outcome
  raised : String → Outcome

unfoldable pub fail_closed_reason : String → String → String
fail_closed_reason code kind = concat ("global_fail_closed:" ∷ code ∷ ":" ∷ kind ∷ [])

unfoldable pub fail_closed_decision : String → String → PolicyDecision
fail_closed_decision code kind = record {
  decision = Decision.block;
  allowed = false;
  severity = Severity.high;
  reason = fail_closed_reason code kind;
  policy_id = some "global-fail-closed";
  explanation = some (record {
    policy_version = "global-fail-closed.v1";
    matched = false;
    matched_rule_id = none;
    matched_rule_priority = none;
    matched_conditions = code ∷ [];
    evaluated_rule_ids = [];
    default_decision = false;
  });
}

module _ {R : Type 0} (parts : Parts R) where
  -- `_fail_closed_result`: an error of the log is caught, and an entry is made up for the result.
  unfoldable pub fail_closed_result : ToolRequest → String → String → Outcome × List Effect
  unfolding fail_closed_decision
  fail_closed_result q code kind = (
    result (record {
      policy_decision = fail_closed_decision code kind;
      execution =
          result_of ExecutionStatus.skipped false null (some (fail_closed_reason code kind));
      approval_decision = none;
    }),
    elim (parts.audit q (fail_closed_decision code kind)) [
      | ok _ ↦ logged q (fail_closed_decision code kind) ∷ []
      | error e ↦ []
    ],
  )

  -- The handler of a tool runs where `_execute_with_decision` calls `execute` and finds one.
  abbrev pub runs_tool : ToolRequest → PolicyDecision → Option ApprovalDecision → Bool
  runs_tool q p a = (execute_with_decision parts.runtime_mode parts.tools q p a).executed

  -- From the log on: an exception of the log leaves `intercept` before anything runs.
  unfoldable pub log_and_execute :
      ToolRequest → PolicyDecision → Option ApprovalDecision → Outcome × List Effect
  log_and_execute q p a = elim (parts.audit q p) [
    | error e ↦ (raised e, [])
    | ok _ ↦ (
      result (record {
        policy_decision = p;
        execution = execute_with_decision parts.runtime_mode parts.tools q p a;
        approval_decision = a;
      }),
      logged q p ∷ (if runs_tool q p a then ran q ∷ [] else []),
    )
  ]

  -- The branch on REQUIRE_APPROVAL.
  unfoldable pub approve_and_execute :
      ToolRequest → R → PolicyDecision → Decision → Outcome × List Effect
  unfolding fail_closed_result log_and_execute
  approve_and_execute q risk p Decision.require_approval = elim (parts.request_approval q p risk) [
    | error e ↦ fail_closed_result q "approval_workflow_failed" e
    | ok (r, d) ↦ log_and_execute q p (some d)
  ]
  approve_and_execute q risk p _ = log_and_execute q p none

  unfoldable pub intercept : ToolRequest → Outcome × List Effect
  unfolding approve_and_execute fail_closed_result
  intercept q = elim (parts.assess q) [
    | error e ↦ fail_closed_result q "risk_assessment_failed" e
    | ok risk ↦ elim (parts.evaluate q risk) [
      | error e ↦ fail_closed_result q "policy_evaluation_failed" e
      | ok p ↦ approve_and_execute q risk p p.decision
    ]
  ]
