-- ===== src/Interceptor/Execution.antt =====
-- `ToolExecutor` of src/rygnal/tool_executor.py, and `_execute_with_decision` of interceptor.py. The
-- tools are the operator's: a handler returns an output, or the text of its exception.
use rygnal_core.Common.{
  String, Bool, true, false, List, [], ◌∷◌, Option, none, some, concat, lookup, if◌then◌else◌,
}
use rygnal_core.Models.{
  Value, null, text, Decision, decision_value, ExecutionStatus, RuntimeMode, ToolRequest,
  PolicyDecision, ApprovalDecision, ToolExecutionResult,
}

pub data Handled : Type 0 where
  returned : Value → Handled
  raised : String → Handled

abbrev pub Tools : Type 0
Tools = List (String × (ToolRequest → Handled))

abbrev pub has_tool : Tools → String → Bool
has_tool tools name = elim (lookup name tools) [ none ↦ false | some _ ↦ true ]

abbrev pub result_of : ExecutionStatus → Bool → Value → Option String → ToolExecutionResult
result_of status executed output error = record {
  status = status;
  executed = executed;
  output = output;
  error = error;
}

-- Once the handler has run.
abbrev pub handled_result : Handled → ToolExecutionResult
handled_result (returned v) = result_of ExecutionStatus.executed true v none
handled_result (raised e) =
    result_of ExecutionStatus.failed true null (some (concat ("Tool execution failed: " ∷ e ∷ [])))

unfoldable pub execute : Tools → ToolRequest → ToolExecutionResult
execute tools q = elim (lookup q.tool_name tools) [
  | none ↦
      result_of ExecutionStatus.failed false null
        (some (concat ("No registered tool handler for: " ∷ q.tool_name ∷ [])))
  | some handler ↦ handled_result (handler q)
]

abbrev pub skipped : List String → ToolExecutionResult
skipped message = result_of ExecutionStatus.skipped false null (some (concat message))

abbrev pub simulated : String → ToolExecutionResult
simulated message = result_of ExecutionStatus.simulated false (text message) none

-- `approval_decision and approval_decision.approved`
abbrev pub is_approved : Option ApprovalDecision → Bool
is_approved none = false
is_approved (some d) = d.approved

-- The branch of ENFORCE and PRODUCTION_SAFE.
abbrev pub execute_enforced :
    Tools → ToolRequest → Decision → Option ApprovalDecision → ToolExecutionResult
execute_enforced tools q Decision.allow a = execute tools q
execute_enforced tools q Decision.simulate a =
    simulated "Simulated decision. Tool was not executed."
execute_enforced tools q Decision.require_approval a =
    if is_approved a
    then execute tools q
    else skipped ("Tool execution skipped because approval was not granted." ∷ [])
execute_enforced tools q Decision.block a =
    skipped ("Tool execution skipped because decision is: " ∷ decision_value Decision.block ∷ [])

abbrev pub execute_simulated : Decision → ToolExecutionResult
execute_simulated Decision.allow = simulated "Simulated tool execution (simulate mode)."
execute_simulated d = skipped ("Tool execution skipped (simulate mode): " ∷ decision_value d ∷ [])

unfoldable pub execute_with_decision :
    RuntimeMode
    → Tools
    → ToolRequest
    → PolicyDecision
    → Option ApprovalDecision
    → ToolExecutionResult
unfolding execute
execute_with_decision RuntimeMode.observe tools q p a =
    skipped ("Tool execution skipped: Rygnal is in observe mode." ∷ [])
execute_with_decision RuntimeMode.simulate tools q p a = execute_simulated p.decision
execute_with_decision RuntimeMode.enforce tools q p a = execute_enforced tools q p.decision a
execute_with_decision RuntimeMode.production_safe tools q p a =
    execute_enforced tools q p.decision a
