-- ===== src/Policy/Evaluation.antt =====
-- `PolicyEngine.evaluate` of src/rygnal/policy_engine.py.
use rygnal_core.Common.{ℕ, String, true, false, List, [], ◌∷◌, ◌++◌, none, some, concat, decimal}
use rygnal_core.Models.{Decision, decision_value, Severity, ToolRequest, PolicyDecision}
use rygnal_core.Policy.{PolicyRule, PolicyEngine, RiskContext, Runtime, is_allowed}
use rygnal_core.Policy.Matching.{yes, no, guarded, matches, matched_conditions}

-- The message of `PolicyRuntimeGuardError`.
unfoldable pub guard_reason : Runtime → String → String → ℕ → String
guard_reason rt id field bytes = concat (
    "policy_regex_target_too_large"
    ∷ ": policy rule "
    ∷ rt.repr id
    ∷ " field "
    ∷ rt.repr field
    ∷ " target is "
    ∷ decimal bytes
    ∷ " bytes, exceeding limit "
    ∷ decimal rt.max_target_bytes
    ∷ [])

abbrev pub default_reason : Decision → String
default_reason Decision.allow = "No matching policy rule. Default allow."
default_reason d =
    concat ("No matching policy rule. Default decision: " ∷ decision_value d ∷ "." ∷ [])

unfoldable pub guard_decision :
    Runtime → PolicyEngine → PolicyRule → String → ℕ → List String → PolicyDecision
unfolding guard_reason
guard_decision rt g r field bytes evaluated = record {
  decision = Decision.block;
  allowed = false;
  severity = Severity.high;
  reason = guard_reason rt r.id field bytes;
  policy_id = some r.id;
  explanation = some (record {
    policy_version = g.policy_version;
    matched = false;
    matched_rule_id = some r.id;
    matched_rule_priority = some r.priority;
    matched_conditions = "policy_regex_target_too_large" ∷ field ∷ [];
    evaluated_rule_ids = evaluated;
    default_decision = false;
  });
}

unfoldable pub rule_decision : PolicyEngine → PolicyRule → List String → PolicyDecision
unfolding matched_conditions
rule_decision g r evaluated = record {
  decision = r.decision;
  allowed = is_allowed r.decision;
  severity = r.severity;
  reason = r.reason;
  policy_id = some r.id;
  explanation = some (record {
    policy_version = g.policy_version;
    matched = true;
    matched_rule_id = some r.id;
    matched_rule_priority = some r.priority;
    matched_conditions = matched_conditions r;
    evaluated_rule_ids = evaluated;
    default_decision = false;
  });
}

unfoldable pub default_decision_of : PolicyEngine → List String → PolicyDecision
default_decision_of g evaluated = record {
  decision = g.default_decision;
  allowed = is_allowed g.default_decision;
  severity = Severity.low;
  reason = default_reason g.default_decision;
  policy_id = none;
  explanation = some (record {
    policy_version = g.policy_version;
    matched = false;
    matched_rule_id = none;
    matched_rule_priority = none;
    matched_conditions = [];
    evaluated_rule_ids = evaluated;
    default_decision = true;
  });
}

-- The loop over the rules; `evaluated` holds the identifiers of the earlier ones.
unfoldable pub evaluate_rules :
    Runtime
    → PolicyEngine
    → ToolRequest
    → RiskContext
    → List String
    → List PolicyRule
    → PolicyDecision
unfolding guard_decision rule_decision default_decision_of
evaluate_rules rt g q c evaluated [] = default_decision_of g evaluated
evaluate_rules rt g q c evaluated (r ∷ rs) =
    let seen = evaluated ++ r.id ∷ [] in
    elim (matches rt r q c) [
      | guarded field bytes ↦ guard_decision rt g r field bytes seen
      | yes ↦ rule_decision g r seen
      | no ↦ evaluate_rules rt g q c seen rs
    ]

unfoldable pub evaluate : Runtime → PolicyEngine → ToolRequest → RiskContext → PolicyDecision
unfolding evaluate_rules
evaluate rt g q c = evaluate_rules rt g q c [] g.rules
