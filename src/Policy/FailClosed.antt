-- ===== src/Policy/FailClosed.antt =====
-- The production-safe profile (src/rygnal/policy_engine.py): nothing is allowed by accident.
use rygnal_core.Common.{
  String, Bool, true, false, not, ◌≡◌, refl, sym, ap, inl, inr, List, [], ◌∷◌, Option, none, some,
  arith, All, filter, nonempty, flatten-empty, any, All-sort_by, Bool-cases, ◌==◌, includes,
}
use mathlib.Core.Path.{subst}
use rygnal_core.Models.{Decision, ToolRequest}
use rygnal_core.Policy.{
  PolicyRule, PolicySchema, PolicyEngine, RiskContext, Runtime, is_allowed, decision_eq,
}
use rygnal_core.Policy.Matching.{
  Matched, passes, condition, given, entries, option_is, text_or_empty, stringify, yes, matches,
  matched_conditions, is_terminal_catch_all_rule, matches_exactly, matches_content, search_pattern,
}
use rygnal_core.Policy.Validation.{
  ok, production_safe_policy_profile, validate_profile_default, validate_terminal_rules,
  validate_terminal_catch_all, validate_policy_schema, engine_of, load_schema,
}
use rygnal_core.Policy.Evaluation.{evaluate}
use rygnal_core.Policy.Order.{First, First-All, evaluate-allowed}

not-true : (b : Bool) → not b ≡ true → b ≡ false
not-true true h = ground arith
not-true false h = refl

passes-absent :
    (name : String) (o : Option String) (p : String → Bool)
    → nonempty (condition name o) ≡ false
    → passes o p ≡ true
passes-absent name none p h = refl
passes-absent name (some s) p h = ground arith

search_pattern-absent :
    (rt : Runtime) (name : String) (o : Option String) (wanted : Bool) (value : String)
    (rest : Matched)
    → nonempty (condition name o) ≡ false
    → search_pattern rt name o wanted value rest ≡ rest
unfolding search_pattern
search_pattern-absent rt name none wanted value rest h = refl
search_pattern-absent rt name (some s) wanted value rest h = ground arith

given-absent :
    {A : Type 0} (name : String) (o : Option A) → nonempty (given name o) ≡ false → o ≡ none
given-absent name none h = refl
given-absent name (some a) h = ground arith

entries-absent :
    {A : Type 0} (name : String) (xs : List A) → nonempty (entries name xs) ≡ false → xs ≡ []
entries-absent name [] h = refl
entries-absent name (x ∷ xs) h = ground arith

-- A rule without conditions matches every request.
pub catch_all-matches :
    (rt : Runtime) (r : PolicyRule) (q : ToolRequest) (c : RiskContext)
    → is_terminal_catch_all_rule r ≡ true
    → matches rt r q c ≡ yes
unfolding is_terminal_catch_all_rule matched_conditions matches matches_exactly matches_content
catch_all-matches rt r q c h =
    let (h1, (h2, (h3, (h4, (h5, (h6, (h7, (h8, (h9, (h10, (h11, (h12, (h13, _))))))))))))) =
      flatten-empty
        (condition "tool_name" r.tool_name
          ∷ condition "action" r.action
          ∷ condition "environment" r.environment
          ∷ condition "target_equals" r.target_equals
          ∷ condition "target_contains" r.target_contains
          ∷ condition "target_matches" r.target_matches
          ∷ condition "target_not_matches" r.target_not_matches
          ∷ given "input_equals" r.input_equals
          ∷ condition "input_contains" r.input_contains
          ∷ entries "metadata_equals" r.metadata_equals
          ∷ entries "metadata_contains" r.metadata_contains
          ∷ condition "risk_level" r.risk_level
          ∷ given "risk_score_min" r.risk_score_min
          ∷ [])
        (not-true _ h) in
    rw (
      passes-absent "tool_name" r.tool_name (λ t. t == q.tool_name) h1,
      passes-absent "action" r.action (λ t. option_is q.action t) h2,
      passes-absent "environment" r.environment (λ t. t == q.environment) h3,
      passes-absent "target_equals" r.target_equals (λ t. t == text_or_empty q.target) h4,
      passes-absent "target_contains" r.target_contains (λ t. includes (text_or_empty q.target) t)
          h5,
      search_pattern-absent rt "target_matches" r.target_matches true (text_or_empty q.target) _ h6,
      search_pattern-absent rt "target_not_matches" r.target_not_matches false
          (text_or_empty q.target) _ h7,
      given-absent "input_equals" r.input_equals h8,
      passes-absent "input_contains" r.input_contains (λ t. includes (stringify rt q.input) t) h9,
      entries-absent "metadata_equals" r.metadata_equals h10,
      entries-absent "metadata_contains" r.metadata_contains h11,
      passes-absent "risk_level" r.risk_level (λ t. option_is c.risk_level t) h12,
      given-absent "risk_score_min" r.risk_score_min h13,
    )

filter-All :
    (p : PolicyRule → Bool) (rs : List PolicyRule) → filter p rs ≡ [] → All (λ r. p r ≡ false) rs
filter-All p [] e = tt
filter-All p (r ∷ rs) e = ground (arith, filter-All p rs)

none_picked :
    (p : PolicyRule → Bool) (P : PolicyRule → Type 0) (rs : List PolicyRule)
    → All (λ r. p r ≡ false) rs
    → All (λ r. p r ≡ true → P r) rs
none_picked p P [] h = tt
none_picked p P (r ∷ rs) h = ((λ picked. ground arith), none_picked p P rs h.1)

-- Where the selection is one rule, what holds of it holds of every rule selected.
filter-only :
    (p : PolicyRule → Bool) (P : PolicyRule → Type 0) (t : PolicyRule) (rs : List PolicyRule)
    → filter p rs ≡ t ∷ []
    → P t
    → All (λ r. p r ≡ true → P r) rs
filter-only p P t [] e h = tt
filter-only p P t (r ∷ rs) e h = elim (Bool-cases (p r)) [
  | inl picked ↦
      let rest : filter p rs ≡ [] = ground arith in
      let same : t ≡ r = ground arith in
      ((λ _. subst P same h), none_picked p P rs (filter-All p rs rest))
  | inr left ↦ ((λ picked. ground arith), filter-only p P t rs (ground arith) h)
]

disallowed :
    (d : Decision)
    → any (decision_eq d) production_safe_policy_profile.terminal_disallowed_decisions ≡ false
    → is_allowed d ≡ false
disallowed Decision.allow h = ground arith
disallowed Decision.simulate h = ground arith
disallowed Decision.block h = refl
disallowed Decision.require_approval h = refl

-- What passes the check has one terminal rule, and its decision allows nothing.
validate_terminal_rules-ok :
    (p : PolicyRule → Bool) (rules : List PolicyRule)
    → validate_terminal_rules production_safe_policy_profile rules (filter p rules) ≡ ok tt
    → All (λ r. p r ≡ true → is_allowed r.decision ≡ false) rules
unfolding validate_terminal_rules
validate_terminal_rules-ok p rules h = go (filter p rules) refl h
  where
    go :
        (ts : List PolicyRule)
        → filter p rules ≡ ts
        → validate_terminal_rules production_safe_policy_profile rules ts ≡ ok tt
        → All (λ r. p r ≡ true → is_allowed r.decision ≡ false) rules
    go [] e v = ground arith
    go (t ∷ []) e v =
        filter-only p (λ r. is_allowed r.decision ≡ false) t rules e
          (disallowed t.decision (ground arith))
    go (t ∷ u ∷ ts) e v = ground arith

load_schema-ok :
    (rt : Runtime) (s : PolicySchema) (g : PolicyEngine)
    → load_schema rt s (some production_safe_policy_profile) ≡ ok g
    → (engine_of s ≡ g)
      × (is_allowed s.default_decision ≡ false)
      × (validate_terminal_catch_all s production_safe_policy_profile ≡ ok tt)
unfolding load_schema validate_policy_schema validate_profile_default
load_schema-ok rt s g h = ground arith

-- An engine loaded under the production-safe profile allows or simulates a request only by an
-- explicit rule: the first that does not fail to match, which matches and sets a condition.
pub production_safe-explicit :
    (rt : Runtime) (s : PolicySchema) (g : PolicyEngine) (q : ToolRequest) (c : RiskContext)
    → load_schema rt s (some production_safe_policy_profile) ≡ ok g
    → (evaluate rt g q c).allowed ≡ true
    → (x : PolicyRule) × First rt q c x g.rules
      × (is_allowed x.decision ≡ true)
      × (is_terminal_catch_all_rule x ≡ false)
unfolding validate_terminal_catch_all
production_safe-explicit rt s g q c loaded h =
    let (made, closed, checked) = load_schema-ok rt s g loaded in
    let strict =
      All-sort_by (λ r. r.priority)
        (λ r. is_terminal_catch_all_rule r ≡ true → is_allowed r.decision ≡ false) s.rules
        (validate_terminal_rules-ok is_terminal_catch_all_rule s.rules checked) in
    elim (evaluate-allowed rt g q c h) [
      | inl (x, f, a) ↦
          let back =
            First-All rt q c
              (λ r. is_terminal_catch_all_rule r ≡ true → is_allowed r.decision ≡ false) x
              (engine_of s).rules strict (subst (λ e. First rt q c x e.rules) (sym made) f) in
          (
            x,
            f,
            a,
            elim (Bool-cases (is_terminal_catch_all_rule x)) [
              | inl all ↦ ground (arith, back all)
              | inr conditioned ↦ conditioned
            ],
          )
      | inr (a, none_match) ↦ ground (arith, ap (λ (e : PolicyEngine). e.default_decision) made)
    ]
