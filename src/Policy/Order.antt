-- ===== src/Policy/Order.antt =====
-- The first rule that matches, in the order of priority (src/rygnal/policy_engine.py).
use rygnal_core.Common.{
  ℕ, ◌≤◌, String, true, ◌≡◌, refl, ap, ◌⊎◌, inl, inr, List, [], ◌∷◌, ◌++◌, some, arith, All,
  IsSorted, sort_by-IsSorted,
}
use rygnal_core.Models.{ToolRequest}
use rygnal_core.Policy.{PolicyRule, PolicySchema, PolicyEngine, RiskContext, Runtime, is_allowed}
use rygnal_core.Policy.Matching.{Matched, yes, no, guarded, matches}
use rygnal_core.Policy.Validation.{engine_of}
use rygnal_core.Policy.Evaluation.{
  evaluate_rules, evaluate, guard_decision, rule_decision, default_decision_of,
}

-- The rule is the first that does not fail to match, and it is reached with no guard raised.
pub data First (rt : Runtime) (q : ToolRequest) (c : RiskContext) (x : PolicyRule)
    : List PolicyRule → Type 0 where
  found : (rs : List PolicyRule) → matches rt x q c ≡ yes → First rt q c x (x ∷ rs)
  later :
      (r : PolicyRule) (rs : List PolicyRule)
      → matches rt r q c ≡ no
      → First rt q c x rs
      → First rt q c x (r ∷ rs)

Matched-cases :
    (m : Matched)
    → (m ≡ yes) ⊎ (m ≡ no) ⊎ ((field : String) × (bytes : ℕ) × (m ≡ guarded field bytes))
Matched-cases yes = inl refl
Matched-cases no = inr (inl refl)
Matched-cases (guarded field bytes) = inr (inr (field, bytes, refl))

module _ (rt : Runtime) (q : ToolRequest) (c : RiskContext) where
  pub First-All :
      (P : PolicyRule → Type 0) (x : PolicyRule) (rs : List PolicyRule)
      → All P rs
      → First rt q c x rs
      → P x
  First-All P x [] h f = elim f [ ]
  First-All P x (r ∷ rs) h (found _ m) = h.0
  First-All P x (r ∷ rs) h (later _ _ m f) = First-All P x rs h.1 f

  least_of_All :
      (n : ℕ) (rs : List PolicyRule)
      → All (λ r. n ≤ r.priority) rs
      → All (λ r. matches rt r q c ≡ yes → n ≤ r.priority) rs
  least_of_All n [] h = tt
  least_of_All n (r ∷ rs) h = ((λ _. h.0), least_of_All n rs h.1)

  First-least :
      (x : PolicyRule) (rs : List PolicyRule)
      → IsSorted (λ (r : PolicyRule). r.priority) rs
      → First rt q c x rs
      → All (λ r. matches rt r q c ≡ yes → x.priority ≤ r.priority) rs
  First-least x [] s f = tt
  First-least x (r ∷ rs) s (found _ m) = ((λ _. omega arith), least_of_All x.priority rs s.0)
  First-least x (r ∷ rs) s (later _ _ m f) = ((λ e. ground arith), First-least x rs s.1 f)

  evaluate_rules-allowed :
      (g : PolicyEngine) (ids : List String) (rs : List PolicyRule)
      → (evaluate_rules rt g q c ids rs).allowed ≡ true
      → ((x : PolicyRule) × First rt q c x rs × (is_allowed x.decision ≡ true))
        ⊎ (is_allowed g.default_decision ≡ true) × All (λ r. matches rt r q c ≡ no) rs
  unfolding evaluate_rules default_decision_of rule_decision guard_decision
  evaluate_rules-allowed g ids [] h = inr (h, tt)
  evaluate_rules-allowed g ids (r ∷ rs) h = elim (Matched-cases (matches rt r q c)) [
    | inl m ↦ inl (r, found rs m, ground arith)
    | inr (inl m) ↦ elim (evaluate_rules-allowed g (ids ++ r.id ∷ []) rs (ground arith)) [
      | inl (x, f, a) ↦ inl (x, later r rs m f, a)
      | inr (a, none_match) ↦ inr (a, (m, none_match))
    ]
    | inr (inr (field, bytes, m)) ↦ ground arith
  ]

  evaluate_rules-First :
      (g : PolicyEngine) (ids : List String) (x : PolicyRule) (rs : List PolicyRule)
      → First rt q c x rs
      → (e : List String) × (evaluate_rules rt g q c ids rs ≡ rule_decision g x e)
  unfolding evaluate_rules
  evaluate_rules-First g ids x [] f = elim f [ ]
  evaluate_rules-First g ids x (r ∷ rs) (found _ m) = (ids ++ r.id ∷ [], ground arith)
  evaluate_rules-First g ids x (r ∷ rs) (later _ _ m f) =
      let (e, same) = evaluate_rules-First g (ids ++ r.id ∷ []) x rs f in (e, ground arith)

-- A request is allowed only by the first rule that does not fail to match, whose decision is to
-- allow or to simulate, or by such a default where no rule matches; a size guard never allows.
pub evaluate-allowed :
    (rt : Runtime) (g : PolicyEngine) (q : ToolRequest) (c : RiskContext)
    → (evaluate rt g q c).allowed ≡ true
    → ((x : PolicyRule) × First rt q c x g.rules × (is_allowed x.decision ≡ true))
      ⊎ (is_allowed g.default_decision ≡ true) × All (λ r. matches rt r q c ≡ no) g.rules
unfolding evaluate
evaluate-allowed rt g q c h = evaluate_rules-allowed rt q c g [] g.rules h

-- In an engine made of any list of rules, the rule that is reached decides with its decision,
-- severity, reason and identifier, and no rule that matches has a smaller priority.
pub evaluate-least :
    (rt : Runtime) (s : PolicySchema) (q : ToolRequest) (c : RiskContext) (x : PolicyRule)
    → First rt q c x (engine_of s).rules
    → ((evaluate rt (engine_of s) q c).decision ≡ x.decision)
      × ((evaluate rt (engine_of s) q c).severity ≡ x.severity)
      × ((evaluate rt (engine_of s) q c).reason ≡ x.reason)
      × ((evaluate rt (engine_of s) q c).policy_id ≡ some x.id)
      × All (λ r. matches rt r q c ≡ yes → x.priority ≤ r.priority) (engine_of s).rules
unfolding evaluate rule_decision
evaluate-least rt s q c x f =
    let (e, same) = evaluate_rules-First rt q c (engine_of s) [] x (engine_of s).rules f in
    (
      ap (λ d. d.decision) same,
      ap (λ d. d.severity) same,
      ap (λ d. d.reason) same,
      ap (λ d. d.policy_id) same,
      First-least rt q c x (engine_of s).rules (sort_by-IsSorted (λ r. r.priority) s.rules) f,
    )
