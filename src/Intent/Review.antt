-- ===== src/Intent/Review.antt =====
-- src/rygnal/intent_review.py: the kind of the decision that a reviewer is shown, and its counts.
pub mod Summaries
use rygnal_core.Common.{
  ℕ, zero, suc, ◌+◌, String, Bool, true, false, not, ◌&&◌, ◌||◌, List, [], ◌∷◌, ◌++◌, Option, some,
  if◌then◌else◌, ◌==◌, any, length, lookup, sort_by_text, ltb, map, nonempty, truthy, unique,
}
use rygnal_core.Models.{Value, list, text, Values, nil, item}
use rygnal_core.Intent.{
  IntentMatchState, IntentDecisionHint, IntentEnforcementMode, IntentContract, IntentMatchResult,
  NormalizedAction, ResourceScope, ResourceKind, resource_scope_type_value, match_state_eq, hint_eq,
  intent_operation_value, resource_kind_value, normalized_action_source_value,
  intent_match_state_value,
}
use rygnal_core.Intent.Fallback.{IntentFallbackEvaluation, Counter, all_reasons, counter}

pub data IntentReviewDecisionType : Type 0 where
  review_needed grouped_review_suggested scope_expansion_suggested : IntentReviewDecisionType
  policy_deny silent_permit shadow_only_trace : IntentReviewDecisionType

pub data IntentReviewNextAction : Type 0 where
  none permit review group_review request_scope_expansion_approval : IntentReviewNextAction
  deny inspect_shadow_trace : IntentReviewNextAction

abbrev pub is_expansion_state : IntentMatchState → Bool
is_expansion_state s =
    match_state_eq s IntentMatchState.drift || match_state_eq s IntentMatchState.unknown

-- `_has_scope_expansion_candidate`
abbrev pub has_scope_expansion_candidate : List IntentMatchResult → Bool
has_scope_expansion_candidate rs =
    any (λ (r : IntentMatchResult). is_expansion_state r.match_state) rs

abbrev named : Option String → List String → List String
named Option.none ids = ids
named (some s) ids = if truthy s then s ∷ ids else ids

abbrev review_ids : List IntentMatchResult → List String
review_ids [] = []
review_ids (r ∷ rs) =
    let rest = review_ids rs in
    if match_state_eq r.match_state IntentMatchState.exact_match
    then rest
    else named r.action_id rest

-- `_review_action_count`
unfoldable pub review_action_count : List IntentMatchResult → ℕ
review_action_count rs = length (unique (review_ids rs))

abbrev grouped_or :
    List IntentMatchResult
    → IntentReviewDecisionType × IntentReviewNextAction
    → IntentReviewDecisionType × IntentReviewNextAction
grouped_or rs other =
    if ltb 1 (review_action_count rs)
    then (IntentReviewDecisionType.grouped_review_suggested, IntentReviewNextAction.group_review)
    else other

abbrev pub needed : IntentReviewDecisionType × IntentReviewNextAction
needed = (IntentReviewDecisionType.review_needed, IntentReviewNextAction.review)

abbrev pub permitted : IntentReviewDecisionType × IntentReviewNextAction
permitted = (IntentReviewDecisionType.silent_permit, IntentReviewNextAction.permit)

-- `_decision_type_and_next_action`
unfoldable pub decision_type_and_next_action :
    List IntentMatchResult
    → IntentFallbackEvaluation
    → IntentReviewDecisionType × IntentReviewNextAction
decision_type_and_next_action rs e = elim (e.enforcement_mode) [
  | IntentEnforcementMode.shadow ↦
      (IntentReviewDecisionType.shadow_only_trace, IntentReviewNextAction.inspect_shadow_trace)
  | _ ↦ elim (e.effective_hint) [
    | IntentDecisionHint.none ↦ permitted
    | IntentDecisionHint.allow ↦ permitted
    | IntentDecisionHint.block ↦ (IntentReviewDecisionType.policy_deny, IntentReviewNextAction.deny)
    | IntentDecisionHint.require_approval ↦
        if has_scope_expansion_candidate rs
        then (
          IntentReviewDecisionType.scope_expansion_suggested,
          IntentReviewNextAction.request_scope_expansion_approval,
        )
        else grouped_or rs needed
    | IntentDecisionHint.audit ↦
        grouped_or rs (
          if match_state_eq e.match_state IntentMatchState.partial_match then needed else permitted)
  ]
]

pub record ActionSummary : Type 0 where
  pub action_count : ℕ
  pub path_count : ℕ
  pub operation_counts : Counter
  pub source_counts : Counter
  pub resource_kind_counts : Counter
  pub match_state_counts : Counter
  pub action_ids : List String

abbrev pub if_truthy : Option String → List String
if_truthy Option.none = []
if_truthy (some s) = if truthy s then s ∷ [] else []

-- The paths of an action, its old and its new path last.
abbrev pub candidate_paths : NormalizedAction → List String
candidate_paths a = a.affected_paths ++ if_truthy a.old_path ++ if_truthy a.new_path

abbrev path_total : List NormalizedAction → ℕ
path_total [] = 0
path_total (a ∷ actions) =
    length a.affected_paths
    + length (if_truthy a.old_path)
    + length (if_truthy a.new_path)
    + path_total actions

-- `_action_summary`
unfoldable pub action_summary : List NormalizedAction → List IntentMatchResult → ActionSummary
action_summary actions rs = record {
  action_count = length actions;
  path_count = path_total actions;
  operation_counts =
      counter (map (λ (a : NormalizedAction). intent_operation_value a.operation) actions);
  source_counts =
      counter (map (λ (a : NormalizedAction). normalized_action_source_value a.source) actions);
  resource_kind_counts =
      counter (map (λ (a : NormalizedAction). resource_kind_value a.resource_kind) actions);
  match_state_counts =
      counter (map (λ (r : IntentMatchResult). intent_match_state_value r.match_state) rs);
  action_ids = map (λ (a : NormalizedAction). a.action_id) actions;
}

-- `_reason_codes`
unfoldable pub review_reason_codes : List IntentMatchResult → IntentFallbackEvaluation → List String
review_reason_codes rs e = unique (e.reason_codes ++ all_reasons rs)

-- `_fallback_risk_level`
unfoldable pub fallback_risk_level : IntentFallbackEvaluation → String
fallback_risk_level e = elim (e.effective_hint) [
  | IntentDecisionHint.block ↦ "critical"
  | IntentDecisionHint.require_approval ↦ "high"
  | IntentDecisionHint.audit ↦ "medium"
  | _ ↦ "low"
]
