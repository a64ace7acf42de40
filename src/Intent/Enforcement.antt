-- ===== src/Intent/Enforcement.antt =====
-- From actions to the effective hint: src/rygnal/capability_matcher.py,
-- src/rygnal/intent_fallback_policy.py and src/rygnal/intent_review.py together.
use rygnal_core.Common.{
  String, true, ◌≡◌, refl, sym, ap, ◌∙◌, ◌↔◌, List, [], ◌∷◌, any, arith, ok, bind_ok, ok_inj,
}
use rygnal_core.Intent.{
  IntentMatchState, IntentDecisionHint, IntentEnforcementMode, ResourceKind, IntentContract,
  NormalizedAction, IntentMatchResult, kind_eq,
}
use rygnal_core.Intent.Graph.{ResourceGraph}
use rygnal_core.Intent.Scopes.{normalized_action_paths}
use rygnal_core.Intent.Matcher.{
  match_paths, safe_graph_for_paths, match_action_to_contract, match_actions_to_contract,
}
use rygnal_core.Intent.Coverage.{hint_of, validated}
use rygnal_core.Intent.Fallback.{IntentFallbackEvaluation, effective_hint, evaluate_intent_fallback}
use rygnal_core.Intent.Gravity.{gravest, recommended-gravest}
use rygnal_core.Intent.Review.{IntentReviewDecisionType, decision_type_and_next_action}

-- The effective hint of results under enforcement is the one of the gravest state.
enforced-hint :
    (c : IntentContract) (r : IntentMatchResult) (rs : List IntentMatchResult)
    → c.enforcement_mode ≡ IntentEnforcementMode.enforce
    → (evaluate_intent_fallback (r ∷ rs) c).effective_hint ≡ hint_of (gravest (r ∷ rs))
unfolding evaluate_intent_fallback effective_hint
enforced-hint c r rs m = ground (arith, recommended-gravest (r ∷ rs) refl)

paths-sensitive :
    (a : NormalizedAction) (c : IntentContract) (paths reasons : List String) (g : ResourceGraph)
    → kind_eq a.resource_kind ResourceKind.sensitive ≡ true
    → (match_paths a c paths reasons g).match_state ≡ IntentMatchState.hard_sensitive
unfolding match_paths
paths-sensitive a c paths reasons g k = ground arith

module _ (stable_id : String → String → String → List String → String) where
  sensitive-state :
      (a : NormalizedAction) (c : IntentContract) (r : IntentMatchResult)
      → match_action_to_contract stable_id a c ≡ ok r
      → kind_eq a.resource_kind ResourceKind.sensitive ≡ true
      → r.match_state ≡ IntentMatchState.hard_sensitive
  unfolding match_action_to_contract
  sensitive-state a c r h k =
      let b = bind_ok (safe_graph_for_paths stable_id (normalized_action_paths a).0) _ r h in
      (validated _ r b.2).0 ∙ paths-sensitive a c _ _ b.0 k

  sensitive-gravest :
      (actions : List NormalizedAction) (c : IntentContract) (rs : List IntentMatchResult)
      → match_actions_to_contract stable_id actions c ≡ ok rs
      → any (λ (a : NormalizedAction). kind_eq a.resource_kind ResourceKind.sensitive) actions
        ≡ true
      → gravest rs ≡ IntentMatchState.hard_sensitive
  unfolding match_actions_to_contract
  sensitive-gravest [] c rs h k = cc
  sensitive-gravest (a ∷ actions) c rs h k =
      let b = bind_ok (match_action_to_contract stable_id a c) _ rs h in
      let d = bind_ok (match_actions_to_contract stable_id actions c) _ rs b.2 in
      ap gravest (sym (ok_inj (b.0 ∷ d.0) rs d.2))
      ∙ ground (arith, sensitive-state a c b.0 b.1, sensitive-gravest actions c d.0 d.1)

  -- Under enforcement, the results of actions of which one is on a sensitive resource have the
  -- effective hint to block.
  pub sensitive_blocked :
      (actions : List NormalizedAction) (c : IntentContract) (rs : List IntentMatchResult)
      → c.enforcement_mode ≡ IntentEnforcementMode.enforce
      → match_actions_to_contract stable_id actions c ≡ ok rs
      → any (λ (a : NormalizedAction). kind_eq a.resource_kind ResourceKind.sensitive) actions
        ≡ true
      → (evaluate_intent_fallback rs c).effective_hint ≡ IntentDecisionHint.block
  sensitive_blocked actions c [] m h k = let hard = sensitive-gravest actions c [] h k in cc
  sensitive_blocked actions c (r ∷ rs) m h k =
      enforced-hint c r rs m ∙ ap hint_of (sensitive-gravest actions c (r ∷ rs) h k)

effective-block :
    (m : IntentEnforcementMode) (s : IntentMatchState)
    → (effective_hint (hint_of s) m ≡ IntentDecisionHint.block)
      ↔ ((m ≡ IntentEnforcementMode.enforce) × (s ≡ IntentMatchState.hard_sensitive))
unfolding effective_hint
effective-block m s = elim m [
  | IntentEnforcementMode.disabled ↦ ground arith
  | IntentEnforcementMode.shadow ↦ ground arith
  | IntentEnforcementMode.enforce ↦ ground arith
]

deny-block :
    (rs : List IntentMatchResult) (e : IntentFallbackEvaluation) (s : IntentMatchState)
    → e.effective_hint ≡ effective_hint (hint_of s) e.enforcement_mode
    → ((decision_type_and_next_action rs e).0 ≡ IntentReviewDecisionType.policy_deny)
      ↔ (e.effective_hint ≡ IntentDecisionHint.block)
unfolding decision_type_and_next_action
deny-block rs e s h = ground (arith, effective-block e.enforcement_mode s)

-- A review of results, one at least, denies exactly under enforcement where the gravest state is hard
-- sensitive.
pub review-deny :
    (c : IntentContract) (r : IntentMatchResult) (rs : List IntentMatchResult)
    → let e = evaluate_intent_fallback (r ∷ rs) c in
      ((decision_type_and_next_action (r ∷ rs) e).0 ≡ IntentReviewDecisionType.policy_deny) ↔ (
        (c.enforcement_mode ≡ IntentEnforcementMode.enforce)
        × (gravest (r ∷ rs) ≡ IntentMatchState.hard_sensitive))
unfolding evaluate_intent_fallback
review-deny c r rs =
    let e = evaluate_intent_fallback (r ∷ rs) c in
    let found =
      ap (λ h. effective_hint h c.enforcement_mode) (recommended-gravest (r ∷ rs) refl).1 in
    let d = deny-block (r ∷ rs) e (gravest (r ∷ rs)) found in
    let b = effective-block c.enforcement_mode (gravest (r ∷ rs)) in
    ((λ h. b.0 (sym found ∙ d.0 h)), (λ h. d.1 (found ∙ b.1 h)))
