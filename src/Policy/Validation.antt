-- ===== src/Policy/Validation.antt =====
-- Loading a policy: `_validate_policy_schema` of src/rygnal/policy_engine.py and its checks.
use rygnal_core.Common.{
  String, true, ◌&&◌, List, [], ◌∷◌, Option, none, some, ◌==◌, if◌then◌else◌, ltb, leb, any, filter,
  concat, decimal, text_in, sort_by,
}
use rygnal_core.Models.{Decision}
use rygnal_core.Policy.{
  PolicyRule, PolicySchema, PolicyValidationProfile, PolicyEngine, Runtime, decision_eq, is_allowed,
}
use rygnal_core.Policy.Matching.{is_terminal_catch_all_rule}

-- `None`, or the exception: `ValueError` for a duplicate identifier, `PolicyLoadError` elsewhere.
pub data Loaded (A : Type 0) : Type 0 where
  ok : A → Loaded A
  value_error load_error : String → Loaded A

infixl 5 ◌then_check◌
abbrev pub ◌then_check◌ : {A : Type 0} → Loaded (Unit {0}) → Loaded A → Loaded A
ok _ then_check next = next
value_error s then_check next = value_error s
load_error s then_check next = load_error s

-- `PRODUCTION_SAFE_POLICY_PROFILE`
abbrev pub production_safe_policy_profile : PolicyValidationProfile
production_safe_policy_profile = record {
  name = "production-safe";
  fail_closed_default = true;
  require_terminal_catch_all = true;
  terminal_disallowed_decisions = Decision.allow ∷ Decision.simulate ∷ [];
}

unfoldable pub validate_policy_regex_pattern :
    Runtime → String → String → String → Loaded (Unit {0})
validate_policy_regex_pattern rt id field pattern =
    if ltb rt.max_pattern_bytes (rt.utf8_len pattern)
    then load_error (
        concat (
          "policy_regex_pattern_too_large: "
          ∷ "policy rule "
          ∷ rt.repr id
          ∷ " field "
          ∷ rt.repr field
          ∷ " regex is "
          ∷ decimal (rt.utf8_len pattern)
          ∷ " bytes, exceeding limit "
          ∷ decimal rt.max_pattern_bytes
          ∷ []))
    else elim (rt.compile_error pattern) [
      | none ↦ ok tt
      | some e ↦
          load_error
            (concat ("Invalid regex in policy rule '" ∷ id ∷ "' field '" ∷ field ∷ "': " ∷ e ∷ []))
    ]

abbrev pub validate_field : Runtime → String → String → Option String → Loaded (Unit {0})
validate_field rt id field none = ok tt
validate_field rt id field (some pattern) = validate_policy_regex_pattern rt id field pattern

-- The loop over the rules: `seen` holds the identifiers of the earlier ones.
unfoldable pub validate_rules : Runtime → List String → List PolicyRule → Loaded (Unit {0})
unfolding validate_policy_regex_pattern
validate_rules rt seen [] = ok tt
validate_rules rt seen (r ∷ rs) =
    if text_in r.id seen
    then value_error (concat ("Duplicate policy rule id: " ∷ r.id ∷ []))
    else validate_field rt r.id "target_matches" r.target_matches
      then_check (validate_field rt r.id "target_not_matches" r.target_not_matches
          then_check validate_rules rt (r.id ∷ seen) rs)

unfoldable pub validate_profile_default : PolicySchema → PolicyValidationProfile → Loaded (Unit {0})
validate_profile_default s p =
    if p.fail_closed_default && is_allowed s.default_decision
    then load_error (
        concat (
          p.name ∷ " policy must be fail-closed. "
          ∷ "default_decision must not allow or simulate unmatched actions." ∷ []))
    else ok tt

-- The loop over the other rules, which must all come before the terminal one.
unfoldable pub validate_precedence :
    PolicyValidationProfile → PolicyRule → List PolicyRule → Loaded (Unit {0})
validate_precedence p t [] = ok tt
validate_precedence p t (r ∷ rs) =
    if r.id == t.id
    then validate_precedence p t rs
    else if leb t.priority r.priority
    then load_error
        (concat (p.name ∷ " terminal catch-all rule must have " ∷ "lowest precedence." ∷ []))
    else validate_precedence p t rs

unfoldable pub validate_terminal_rules :
    PolicyValidationProfile → List PolicyRule → List PolicyRule → Loaded (Unit {0})
unfolding validate_precedence
validate_terminal_rules p rules [] =
    load_error (concat (p.name ∷ " policy must define an explicit terminal catch-all rule." ∷ []))
validate_terminal_rules p rules (t ∷ []) =
    if any (decision_eq t.decision) p.terminal_disallowed_decisions
    then load_error (
        concat (
          p.name ∷ " terminal catch-all rule must not allow " ∷ "or simulate unmatched actions."
          ∷ []))
    else validate_precedence p t rules
validate_terminal_rules p rules (t ∷ u ∷ ts) =
    load_error (concat (p.name ∷ " policy must define exactly one terminal catch-all rule." ∷ []))

unfoldable pub validate_terminal_catch_all :
    PolicySchema → PolicyValidationProfile → Loaded (Unit {0})
unfolding validate_terminal_rules
validate_terminal_catch_all s p =
    validate_terminal_rules p s.rules (filter is_terminal_catch_all_rule s.rules)

unfoldable pub validate_policy_schema :
    Runtime → PolicySchema → Option PolicyValidationProfile → Loaded (Unit {0})
unfolding validate_rules validate_profile_default validate_terminal_catch_all
validate_policy_schema rt s none = validate_rules rt [] s.rules
validate_policy_schema rt s (some p) =
    validate_rules rt [] s.rules
    then_check (validate_profile_default s p
        then_check (if p.require_terminal_catch_all
            then validate_terminal_catch_all s p
            else ok tt))

-- `PolicyEngine.__init__`
abbrev pub engine_of : PolicySchema → PolicyEngine
engine_of s = record {
  policy_version = s.policy_version;
  default_decision = s.default_decision;
  rules = sort_by (λ r. r.priority) s.rules;
}

-- The end of `from_yaml_text`, on the schema that YAML and pydantic give.
unfoldable pub load_schema :
    Runtime → PolicySchema → Option PolicyValidationProfile → Loaded PolicyEngine
unfolding validate_policy_schema
load_schema rt s profile = validate_policy_schema rt s profile then_check ok (engine_of s)
