-- ===== src/Models.antt =====
-- src/rygnal/models.py: the enumerations and records that the components exchange.
-- `Any` and `dict[str, Any]` are the values of JSON; a number is kept as its printed form.
use rygnal_core.Common.{ℕ, String, List, Option, Bool, true, false}

mutual
  pub data Value : Type 0 where
    null : Value
    bool : Bool → Value
    number : String → Value
    text : String → Value
    list : Values → Value
    dict : Fields → Value

  pub data Values : Type 0 where
    nil : Values
    item : Value → Values → Values

  pub data Fields : Type 0 where
    end : Fields
    field : String → Value → Fields → Fields

pub data Decision : Type 0 where
  allow block require_approval simulate : Decision

pub data Severity : Type 0 where
  low medium high critical : Severity

pub data ExecutionStatus : Type 0 where
  executed skipped failed simulated : ExecutionStatus

pub data ApprovalStatus : Type 0 where
  pending approved rejected : ApprovalStatus

pub data RuntimeMode : Type 0 where
  observe simulate enforce production_safe : RuntimeMode

-- The `value` of each member.
abbrev pub decision_value : Decision → String
decision_value Decision.allow = "allow"
decision_value Decision.block = "block"
decision_value Decision.require_approval = "require_approval"
decision_value Decision.simulate = "simulate"

abbrev pub approval_status_value : ApprovalStatus → String
approval_status_value ApprovalStatus.pending = "pending"
approval_status_value ApprovalStatus.approved = "approved"
approval_status_value ApprovalStatus.rejected = "rejected"

abbrev pub runtime_mode_value : RuntimeMode → String
runtime_mode_value RuntimeMode.observe = "observe"
runtime_mode_value RuntimeMode.simulate = "simulate"
runtime_mode_value RuntimeMode.enforce = "enforce"
runtime_mode_value RuntimeMode.production_safe = "production_safe"

-- `==` on the members.
abbrev pub severity_eq : Severity → Severity → Bool
severity_eq Severity.low Severity.low = true
severity_eq Severity.medium Severity.medium = true
severity_eq Severity.high Severity.high = true
severity_eq Severity.critical Severity.critical = true
severity_eq _ _ = false

abbrev pub approval_status_eq : ApprovalStatus → ApprovalStatus → Bool
approval_status_eq ApprovalStatus.pending ApprovalStatus.pending = true
approval_status_eq ApprovalStatus.approved ApprovalStatus.approved = true
approval_status_eq ApprovalStatus.rejected ApprovalStatus.rejected = true
approval_status_eq _ _ = false

pub record RolePermission : Type 0 where
  pub role : String
  pub allowed_severities : List Severity
  pub allowed_actions : Option (List String)
  pub environments : Option (List String)

pub record ToolRequest : Type 0 where
  pub tool_name : String
  pub action : Option String
  pub target : Option String
  pub input : Value
  pub user_id : String
  pub agent_id : String
  pub environment : String
  pub metadata : List (String × Value)

pub record PolicyExplanation : Type 0 where
  pub policy_version : String
  pub matched : Bool
  pub matched_rule_id : Option String
  pub matched_rule_priority : Option ℕ
  pub matched_conditions : List String
  pub evaluated_rule_ids : List String
  pub default_decision : Bool

pub record PolicyDecision : Type 0 where
  pub decision : Decision
  pub allowed : Bool
  pub severity : Severity
  pub reason : String
  pub policy_id : Option String
  pub explanation : Option PolicyExplanation

pub record ApprovalRequest : Type 0 where
  pub approval_id : String
  pub created_at : String
  pub trace_id : String
  pub requested_by : String
  pub agent_id : String
  pub environment : String
  pub tool_name : String
  pub action : Option String
  pub target : Value
  pub policy_id : Option String
  pub reason : String
  pub severity : Severity
  pub risk_assessment : List (String × Value)
  pub metadata : List (String × Value)

pub record ApprovalDecision : Type 0 where
  pub approval_id : String
  pub status : ApprovalStatus
  pub approved : Bool
  pub decided_by : Option String
  pub decided_at : Option String
  pub reason : String
  pub metadata : List (String × Value)

pub record ToolExecutionResult : Type 0 where
  pub status : ExecutionStatus
  pub executed : Bool
  pub output : Value
  pub error : Option String
