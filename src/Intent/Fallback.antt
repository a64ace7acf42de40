-- ===== src/Intent/Fallback.antt =====
-- src/rygnal/intent_fallback_policy.py: what the results of the matching recommend together, and what
-- the enforcement mode makes of it.
use rygnal_core.Common.{
  ℕ, suc, String, Bool, not, ◌||◌, List, [], ◌∷◌, ◌++◌, Option, none, some, if◌then◌else◌, ◌==◌,
  any, all, length, map, nonempty, unique,
}
use rygnal_core.Intent.{
  IntentMatchState, IntentDecisionHint, IntentEnforcementMode, IntentContract, IntentMatchResult,
  match_state_eq, hint_eq, intent_match_state_value, intent_decision_hint_value,
}

-- A `Counter` of texts, in the order of the first occurrences.
abbrev pub Counter : Type 0
Counter = List (String × ℕ)

abbrev pub count_text : String → Counter → Counter
count_text t [] = (t, 1) ∷ []
count_text t ((s, n) ∷ c) = if s == t then (s, suc n) ∷ c else (s, n) ∷ count_text t c

abbrev count_from : List String → Counter → Counter
count_from [] c = c
count_from (t ∷ ts) c = count_from ts (count_text t c)

abbrev pub counter : List String → Counter
counter ts = count_from ts []

pub record FallbackMetadata : Type 0 where
  pub match_state_counts : Counter
  pub decision_hint_counts : Counter
  pub hard_sensitive_action_ids : List String
  pub unknown_action_ids : List String
  pub drift_action_ids : List String
  pub conflict_action_ids : List String

pub record IntentFallbackEvaluation : Type 0 where
  pub contract_id : Option String
  pub enforcement_mode : IntentEnforcementMode
  pub match_state : IntentMatchState
  pub recommended_hint : IntentDecisionHint
  pub effective_hint : IntentDecisionHint
  pub reason_codes : List String
  pub result_count : ℕ
  pub metadata : FallbackMetadata

abbrev pub should_block : IntentFallbackEvaluation → Bool
should_block e = hint_eq e.effective_hint IntentDecisionHint.block

abbrev pub requires_approval : IntentFallbackEvaluation → Bool
requires_approval e = hint_eq e.effective_hint IntentDecisionHint.require_approval

abbrev pub should_audit : IntentFallbackEvaluation → Bool
should_audit e = hint_eq e.effective_hint IntentDecisionHint.audit

pub record Recommendation : Type 0 where
  pub state : IntentMatchState
  pub hint : IntentDecisionHint
  pub reasons : List String

-- `_has_state`
abbrev pub has_state : List IntentMatchResult → IntentMatchState → Bool
has_state rs s = any (λ (r : IntentMatchResult). match_state_eq r.match_state s) rs

abbrev recommend : IntentMatchState → IntentDecisionHint → String → Recommendation
recommend s h reason = record { state = s; hint = h; reasons = reason ∷ [] }

-- `_recommended_fallback`
unfoldable pub recommended_fallback : List IntentMatchResult → Recommendation
recommended_fallback rs =
    if not (nonempty rs)
    then recommend IntentMatchState.unknown IntentDecisionHint.require_approval
        "fallback:no-match-results"
    else if has_state rs IntentMatchState.hard_sensitive
    then recommend IntentMatchState.hard_sensitive IntentDecisionHint.block
        "fallback:hard-sensitive-boundary"
    else if has_state rs IntentMatchState.unknown
    then recommend IntentMatchState.unknown IntentDecisionHint.require_approval
        "fallback:unknown-resource-or-operation"
    else if has_state rs IntentMatchState.conflict
    then recommend IntentMatchState.conflict IntentDecisionHint.require_approval
        "fallback:capability-conflict"
    else if has_state rs IntentMatchState.drift
    then recommend IntentMatchState.drift IntentDecisionHint.require_approval "fallback:scope-drift"
    else if has_state rs IntentMatchState.partial_match
    then recommend IntentMatchState.partial_match IntentDecisionHint.audit
        "fallback:partial-semantic-match"
    else if all
        (λ (r : IntentMatchResult). match_state_eq r.match_state IntentMatchState.exact_match) rs
    then recommend IntentMatchState.exact_match IntentDecisionHint.allow "fallback:exact-match"
    else recommend IntentMatchState.unknown IntentDecisionHint.require_approval
        "fallback:unhandled-match-state"

-- `_effective_hint`
unfoldable pub effective_hint : IntentDecisionHint → IntentEnforcementMode → IntentDecisionHint
effective_hint h IntentEnforcementMode.disabled = IntentDecisionHint.none
effective_hint h IntentEnforcementMode.shadow =
    if hint_eq h IntentDecisionHint.block || hint_eq h IntentDecisionHint.require_approval
    then IntentDecisionHint.audit
    else h
effective_hint h IntentEnforcementMode.enforce = h

abbrev pub all_reasons : List IntentMatchResult → List String
all_reasons [] = []
all_reasons (r ∷ rs) = r.reason_codes ++ all_reasons rs

-- `_reason_codes`
unfoldable pub fallback_reason_codes : List IntentMatchResult → List String → List String
fallback_reason_codes rs fallback = unique (fallback ++ all_reasons rs)

abbrev identified : Option String → List String → List String
identified none ids = ids
identified (some s) ids = s ∷ ids

-- `_action_ids_for_state`
unfoldable pub action_ids_for_state : List IntentMatchResult → IntentMatchState → List String
action_ids_for_state [] s = []
action_ids_for_state (r ∷ rs) s =
    let rest = action_ids_for_state rs s in
    if match_state_eq r.match_state s then identified r.action_id rest else rest

unfoldable pub evaluate_intent_fallback :
    List IntentMatchResult → IntentContract → IntentFallbackEvaluation
unfolding recommended_fallback effective_hint fallback_reason_codes action_ids_for_state
evaluate_intent_fallback rs c =
    let found = recommended_fallback rs in
    record {
      contract_id = some c.contract_id;
      enforcement_mode = c.enforcement_mode;
      match_state = found.state;
      recommended_hint = found.hint;
      effective_hint = effective_hint found.hint c.enforcement_mode;
      reason_codes = fallback_reason_codes rs found.reasons;
      result_count = length rs;
      metadata = record {
        match_state_counts =
            counter (map (λ (r : IntentMatchResult). intent_match_state_value r.match_state) rs);
        decision_hint_counts =
            counter
              (map (λ (r : IntentMatchResult). intent_decision_hint_value r.decision_hint) rs);
        hard_sensitive_action_ids = action_ids_for_state rs IntentMatchState.hard_sensitive;
        unknown_action_ids = action_ids_for_state rs IntentMatchState.unknown;
        drift_action_ids = action_ids_for_state rs IntentMatchState.drift;
        conflict_action_ids = action_ids_for_state rs IntentMatchState.conflict;
      };
    }
