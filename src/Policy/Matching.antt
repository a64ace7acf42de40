-- ===== src/Policy/Matching.antt =====
-- `PolicyEngine._matches` of src/rygnal/policy_engine.py and its helpers.
use rygnal_core.Common.{
  ℕ, String, Bool, true, false, not, ◌&&◌, ◌||◌, List, [], ◌∷◌, Option, none, some, ◌==◌,
  if◌then◌else◌, ltb, truthy, includes, all, nonempty, flatten, lookup,
}
use rygnal_core.Models.{Value, null, text, ToolRequest}
use rygnal_core.Policy.{PolicyRule, RiskContext, Runtime}
use rygnal_core.Policy.Equality.{value_eq}

-- The outcome of `_matches`: the size guard raises with the field and the size of the target.
pub data Matched : Type 0 where
  yes no : Matched
  guarded : String → ℕ → Matched

-- `not (field and condition fails)`: an absent or empty field is no condition.
abbrev pub passes : Option String → (String → Bool) → Bool
passes none p = true
passes (some s) p = not (truthy s) || p s

-- `request.target or ""`, and `request.action` compared with a text
abbrev pub text_or_empty : Option String → String
text_or_empty none = ""
text_or_empty (some s) = s

abbrev pub option_is : Option String → String → Bool
option_is none t = false
option_is (some s) t = s == t

abbrev pub stringify : Runtime → Value → String
stringify rt null = ""
stringify rt (text s) = s
stringify rt v = rt.str v

-- `metadata.get(key)`: None for a key that is not there.
abbrev pub value_or_null : Option Value → Value
value_or_null none = null
value_or_null (some v) = v

abbrev pub metadata_equals : List (String × Value) → List (String × Value) → Bool
metadata_equals actual expected =
    all (λ e. value_eq (value_or_null (lookup e.0 actual)) e.1) expected

abbrev pub metadata_contains : Runtime → List (String × Value) → List (String × String) → Bool
metadata_contains rt actual expected =
    all (λ e. includes (stringify rt (value_or_null (lookup e.0 actual))) e.1) expected

-- The conditions before the patterns.
unfoldable pub matches_exactly : PolicyRule → ToolRequest → Bool
matches_exactly r q =
    passes r.tool_name (λ t. t == q.tool_name)
    && (passes r.action (λ t. option_is q.action t)
        && (passes r.environment (λ t. t == q.environment)
            && (passes r.target_equals (λ t. t == text_or_empty q.target)
                && passes r.target_contains (λ t. includes (text_or_empty q.target) t))))

abbrev pub input_is : Runtime → Option Value → Value → Bool
input_is rt none v = true
input_is rt (some w) v = value_eq w v

abbrev pub score_reaches : Runtime → Option String → Option ℕ → Bool
score_reaches rt none s = true
score_reaches rt (some m) none = false
score_reaches rt (some m) (some s) = not (rt.score_below s m)

-- The conditions after the patterns.
unfoldable pub matches_content : Runtime → PolicyRule → ToolRequest → RiskContext → Bool
matches_content rt r q c =
    input_is rt r.input_equals q.input
    && (passes r.input_contains (λ t. includes (stringify rt q.input) t)
        && (metadata_equals q.metadata r.metadata_equals
            && (metadata_contains rt q.metadata r.metadata_contains
                && (passes r.risk_level (λ t. option_is c.risk_level t)
                    && score_reaches rt r.risk_score_min c.risk_score))))

-- `_safe_policy_regex_search`, where the field is set; `wanted` is the result that lets the rule go
-- on to the rest.
unfoldable pub search_pattern : Runtime → String → Option String → Bool → String → Matched → Matched
search_pattern rt field none wanted value rest = rest
search_pattern rt field (some pattern) wanted value rest =
    if truthy pattern
    then if ltb rt.max_target_bytes (rt.utf8_len value)
      then guarded field (rt.utf8_len value)
      else if rt.search pattern value
      then if wanted then rest else no
      else if wanted
      then no
      else rest
    else rest

unfoldable pub matches : Runtime → PolicyRule → ToolRequest → RiskContext → Matched
unfolding search_pattern matches_exactly matches_content
matches rt r q c =
    if matches_exactly r q
    then search_pattern rt "target_matches" r.target_matches true (text_or_empty q.target) (
        search_pattern rt "target_not_matches" r.target_not_matches false (text_or_empty q.target)
          (if matches_content rt r q c then yes else no))
    else no

abbrev pub condition : String → Option String → List String
condition name none = []
condition name (some s) = if truthy s then name ∷ [] else []

abbrev pub given : {A : Type 0} → String → Option A → List String
given name none = []
given name (some a) = name ∷ []

abbrev pub entries : {A : Type 0} → String → List A → List String
entries name xs = if nonempty xs then name ∷ [] else []

-- `_matched_conditions`: the names of the conditions that a rule sets.
unfoldable pub matched_conditions : PolicyRule → List String
matched_conditions r = flatten (
    condition "tool_name" r.tool_name
    ∷ condition "action" r.action
    ∷ condition "environment" r.environment
    ∷ condition "target_equals" r.target_equals
    ∷ condition "target_contains" r.target_contains
    ∷ condition "target_matches" r.target_matches
    ∷ condition "target_not_matches" r.target_not_matches
    ∷ given "input_equals" r.input_equals
    ∷ condition "input_contains" r.input_contains
    ∷ entries "metadata_equals" r.metadata_equals
    ∷ entries "metadata_contains" r.metadata_contains
    ∷ condition "risk_level" r.risk_level
    ∷ given "risk_score_min" r.risk_score_min
    ∷ [])

-- `_is_terminal_catch_all_rule`
unfoldable pub is_terminal_catch_all_rule : PolicyRule → Bool
is_terminal_catch_all_rule r = not (nonempty (matched_conditions r))
