-- ===== src/Policy/Tests.antt =====
-- A policy of two rules, and the theorems applied to it.
use rygnal_core.Common.{true, false, ◌≡◌, ◌≤◌, refl, ◌⊎◌, [], ◌∷◌, none, some, All}
use rygnal_core.Models.{null, Decision, Severity, ToolRequest}
use rygnal_core.Policy.{PolicyRule, PolicySchema, RiskContext, Runtime, is_allowed}
use rygnal_core.Policy.Matching.{
  yes, no, matches_exactly, matches_content, search_pattern, matches, matched_conditions,
  is_terminal_catch_all_rule,
}
use rygnal_core.Policy.Validation.{
  ok, production_safe_policy_profile, validate_rules, validate_profile_default, validate_precedence,
  validate_terminal_rules, validate_terminal_catch_all, validate_policy_schema, engine_of,
  load_schema,
}
use rygnal_core.Policy.Evaluation.{rule_decision, evaluate_rules, evaluate}
use rygnal_core.Policy.Order.{First, found, evaluate-allowed, evaluate-least}
use rygnal_core.Policy.FailClosed.{production_safe-explicit}

abbrev runtime : Runtime
runtime = record {
  compile_error = λ p. none;
  search = λ p s. false;
  utf8_len = λ s. 0;
  max_pattern_bytes = 2048;
  max_target_bytes = 8192;
  score_below = λ n m. false;
  str = λ v. "";
  repr = λ s. s;
}

abbrev reading : PolicyRule
reading = record {
  id = "read";
  decision = Decision.allow;
  severity = Severity.low;
  reason = "reading is safe";
  priority = 10;
  tool_name = some "read_file";
  action = none;
  environment = none;
  target_equals = none;
  target_contains = none;
  target_matches = none;
  target_not_matches = none;
  input_equals = none;
  input_contains = none;
  metadata_equals = [];
  metadata_contains = [];
  risk_level = none;
  risk_score_min = none;
}

abbrev everything_else : PolicyRule
everything_else = record reading {
  id = "rest";
  decision = Decision.block;
  reason = "not listed";
  priority = 1000;
  tool_name = none;
}

abbrev schema : PolicySchema
schema = record {
  policy_version = "policy.v1";
  default_decision = Decision.block;
  rules = everything_else ∷ reading ∷ [];
}

abbrev request : ToolRequest
request = record {
  tool_name = "read_file";
  action = none;
  target = some "/tmp/a";
  input = null;
  user_id = "ann";
  agent_id = "agent";
  environment = "local";
  metadata = [];
}

abbrev context : RiskContext
context = record { risk_level = some "low"; risk_score = some 10 }

reading-First : First runtime request context reading (engine_of schema).rules
unfolding matches_exactly matches_content search_pattern matches
reading-First = found (everything_else ∷ []) refl

schema_loaded :
    load_schema runtime schema (some production_safe_policy_profile) ≡ ok (engine_of schema)
unfolding validate_rules validate_profile_default validate_precedence validate_terminal_rules
    validate_terminal_catch_all validate_policy_schema load_schema matched_conditions
    is_terminal_catch_all_rule
schema_loaded = refl

reading_allowed : (evaluate runtime (engine_of schema) request context).allowed ≡ true
unfolding matches_exactly matches_content search_pattern matches rule_decision evaluate_rules
    evaluate
reading_allowed = refl

evaluate-allowed_example :
    ((x : PolicyRule) × First runtime request context x (engine_of schema).rules
      × (is_allowed x.decision ≡ true))
    ⊎ (is_allowed Decision.block ≡ true)
      × All (λ r. matches runtime r request context ≡ no) (engine_of schema).rules
evaluate-allowed_example =
    evaluate-allowed runtime (engine_of schema) request context reading_allowed

evaluate-least_example :
    ((evaluate runtime (engine_of schema) request context).decision ≡ Decision.allow)
    × ((evaluate runtime (engine_of schema) request context).severity ≡ Severity.low)
    × ((evaluate runtime (engine_of schema) request context).reason ≡ "reading is safe")
    × ((evaluate runtime (engine_of schema) request context).policy_id ≡ some "read")
    × All (λ r. matches runtime r request context ≡ yes → 10 ≤ r.priority) (engine_of schema).rules
evaluate-least_example = evaluate-least runtime schema request context reading reading-First

production_safe-explicit_example :
    (x : PolicyRule) × First runtime request context x (engine_of schema).rules
    × (is_allowed x.decision ≡ true)
    × (is_terminal_catch_all_rule x ≡ false)
production_safe-explicit_example =
    production_safe-explicit runtime schema (engine_of schema) request context schema_loaded
      reading_allowed

is_catch_all : is_terminal_catch_all_rule everything_else ≡ true
unfolding matched_conditions is_terminal_catch_all_rule
is_catch_all = refl
