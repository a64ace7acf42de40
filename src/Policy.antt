-- ===== src/Policy.antt =====
-- src/rygnal/policy_engine.py, with `PolicyRule` and `PolicySchema` of models.py: the rules, their
-- validation and their evaluation. YAML, regular expressions, floats and `str` of a structure are
-- arguments, gathered in `Runtime`.
pub mod Equality
pub mod Matching
pub mod Validation
pub mod Evaluation
pub mod Order
pub mod FailClosed
mod Tests
use rygnal_core.Common.{ℕ, String, Bool, true, false, List, Option}
use rygnal_core.Models.{Value, Decision, Severity}

pub record PolicyRule : Type 0 where
  pub id : String
  pub decision : Decision
  pub severity : Severity
  pub reason : String
  pub priority : ℕ
  pub tool_name : Option String
  pub action : Option String
  pub environment : Option String
  pub target_equals : Option String
  pub target_contains : Option String
  pub target_matches : Option String
  pub target_not_matches : Option String
  pub input_equals : Option Value
  pub input_contains : Option String
  pub metadata_equals : List (String × Value)
  pub metadata_contains : List (String × String)
  pub risk_level : Option String
  pub risk_score_min : Option String

pub record PolicySchema : Type 0 where
  pub policy_version : String
  pub default_decision : Decision
  pub rules : List PolicyRule

pub record PolicyValidationProfile : Type 0 where
  pub name : String
  pub fail_closed_default : Bool
  pub require_terminal_catch_all : Bool
  pub terminal_disallowed_decisions : List Decision

pub record PolicyEngine : Type 0 where
  pub policy_version : String
  pub default_decision : Decision
  pub rules : List PolicyRule

-- What is read of a risk assessment.
pub record RiskContext : Type 0 where
  pub risk_level : Option String
  pub risk_score : Option ℕ

-- `re.compile` (none, or the error), `re.search`, the length in UTF-8, the configured limits,
-- `score < minimum` for a printed float, `str`, and `repr` of a text.
pub record Runtime : Type 0 where
  pub compile_error : String → Option String
  pub search : String → String → Bool
  pub utf8_len : String → ℕ
  pub max_pattern_bytes : ℕ
  pub max_target_bytes : ℕ
  pub score_below : ℕ → String → Bool
  pub str : Value → String
  pub repr : String → String

-- `Decision` as Python compares it.
abbrev pub decision_eq : Decision → Decision → Bool
decision_eq Decision.allow Decision.allow = true
decision_eq Decision.block Decision.block = true
decision_eq Decision.require_approval Decision.require_approval = true
decision_eq Decision.simulate Decision.simulate = true
decision_eq _ _ = false

-- `_is_allowed`
abbrev pub is_allowed : Decision → Bool
is_allowed Decision.allow = true
is_allowed Decision.simulate = true
is_allowed _ = false
