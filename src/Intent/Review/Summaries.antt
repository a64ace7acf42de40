-- ===== src/Intent/Review/Summaries.antt =====
-- src/rygnal/intent_review.py: what a review decision shows of resources and scopes. The redaction of
-- src/rygnal/security.py and SHA-256 are the section's parameters.
use rygnal_core.Common.{
  String, Bool, true, false, ◌&&◌, List, [], ◌∷◌, ◌++◌, Option, some, if◌then◌else◌, ◌==◌, any,
  lookup, sort_by_text, map, nonempty, truthy,
}
use rygnal_core.Models.{Value, list, text, Values, nil, item}
use rygnal_core.Intent.{
  IntentContract, IntentMatchResult, NormalizedAction, ResourceScope, ResourceKind,
  resource_scope_type_value, intent_operation_value, resource_kind_value, intent_match_state_value,
}
use rygnal_core.Intent.Fallback.{IntentFallbackEvaluation}
use rygnal_core.Intent.Review.{
  IntentReviewDecisionType, IntentReviewNextAction, ActionSummary, is_expansion_state, if_truthy,
  candidate_paths, decision_type_and_next_action, action_summary, review_reason_codes,
  fallback_risk_level,
}

pub record ResourceSummary : Type 0 where
  pub action_id : String
  pub operation : String
  pub resource_kind : String
  pub path : Option String
  pub path_sha256 : Option String
  pub role : String

pub record ScopeExpansion : Type 0 where
  pub value : String
  pub value_sha256 : String
  pub resource_kind : Option String
  pub source_action_id : Option String
  pub source_match_state : String
  pub requires_human_approval : Bool
  pub auto_apply : Bool

-- `actions_by_id.get(id)`: the last of the actions of an identifier.
abbrev pub action_by_id : String → List NormalizedAction → Option NormalizedAction
action_by_id k [] = Option.none
action_by_id k (a ∷ actions) = elim (action_by_id k actions) [
  | some b ↦ some b
  | Option.none ↦ if a.action_id == k then some a else Option.none
]

abbrev pub id_or_empty : Option String → String
id_or_empty Option.none = ""
id_or_empty (some s) = s

-- `str` of an optional text
abbrev shown : Option String → String
shown Option.none = "None"
shown (some s) = s

abbrev texts_of : Values → List String
texts_of nil = []
texts_of (item (text s) vs) = s ∷ texts_of vs
texts_of (item _ vs) = texts_of vs

-- `result.metadata.get("affected_paths", ())`, a list of texts
abbrev affected_of : Option Value → List String
affected_of (some (list vs)) = texts_of vs
affected_of _ = []

-- `_unique_dicts`: the first of the entries that print alike.
abbrev unique_by : {A : Type 0} → (A → A → Bool) → List A → List A → List A
unique_by same seen [] = []
unique_by same seen (x ∷ xs) =
    if any (same x) seen then unique_by same seen xs else x ∷ unique_by same (x ∷ seen) xs

abbrev pub same_expansion : ScopeExpansion → ScopeExpansion → Bool
same_expansion x y =
    x.value == y.value
    && (x.value_sha256 == y.value_sha256
        && (shown x.resource_kind == shown y.resource_kind
            && (shown x.source_action_id == shown y.source_action_id
                && x.source_match_state == y.source_match_state)))

pub record ScopeSummary : Type 0 where
  pub scope_type : String
  pub value : String
  pub value_sha256 : String
  pub resource_kind : Option String
  pub metadata_keys : List String

abbrev texts_eq : List String → List String → Bool
texts_eq [] [] = true
texts_eq (x ∷ xs) (y ∷ ys) = x == y && texts_eq xs ys
texts_eq _ _ = false

abbrev same_summary : ScopeSummary → ScopeSummary → Bool
same_summary x y =
    x.scope_type == y.scope_type
    && (x.value == y.value
        && (x.value_sha256 == y.value_sha256
            && (shown x.resource_kind == shown y.resource_kind
                && texts_eq x.metadata_keys y.metadata_keys)))

abbrev kind_text : Option ResourceKind → Option String
kind_text Option.none = Option.none
kind_text (some k) = some (resource_kind_value k)

abbrev pub flat_map : {A B : Type 0} → (A → List B) → List A → List B
flat_map f [] = []
flat_map f (x ∷ xs) = f x ++ flat_map f xs

pub record IntentReviewDecision : Type 0 where
  pub decision : IntentReviewDecisionType
  pub action_summary_of : ActionSummary
  pub affected_resources_of : List ResourceSummary
  pub current_intent_contract_id : String
  pub proposed_scope : List ScopeExpansion
  pub reason_codes : List String
  pub true_risk_level : String
  pub matched_scopes : List ScopeSummary
  pub unmatched_scopes : List ScopeSummary
  pub recommended_next_action : IntentReviewNextAction
  pub scope_auto_expanded : Bool
  pub approval_submitted : Bool

module _ (redact sha256 : String → String) where
  -- `_resource_summary`
  abbrev resource_summary : NormalizedAction → String → String → ResourceSummary
  resource_summary a role path = record {
    action_id = a.action_id;
    operation = intent_operation_value a.operation;
    resource_kind = resource_kind_value a.resource_kind;
    path = some (redact path);
    path_sha256 = some (sha256 path);
    role = role;
  }

  abbrev pathless_summary : NormalizedAction → ResourceSummary
  pathless_summary a = record {
    action_id = a.action_id;
    operation = intent_operation_value a.operation;
    resource_kind = resource_kind_value a.resource_kind;
    path = Option.none;
    path_sha256 = Option.none;
    role = "pathless_action";
  }

  -- `_affected_resources`
  unfoldable pub affected_resources : List NormalizedAction → List ResourceSummary
  affected_resources [] = []
  affected_resources (a ∷ actions) =
      map (resource_summary a "affected_path") a.affected_paths
      ++ map (resource_summary a "old_path") (if_truthy a.old_path)
      ++ map (resource_summary a "new_path") (if_truthy a.new_path)
      ++ (if nonempty (candidate_paths a) then [] else pathless_summary a ∷ [])
      ++ affected_resources actions

  -- `_scope_expansion_summary`
  abbrev pub scope_expansion_summary : IntentMatchResult → Option String → String → ScopeExpansion
  scope_expansion_summary r kind path = record {
    value = redact path;
    value_sha256 = sha256 path;
    resource_kind = kind;
    source_action_id = r.action_id;
    source_match_state = intent_match_state_value r.match_state;
    requires_human_approval = true;
    auto_apply = false;
  }

  -- One round of the loop of `_proposed_additional_scope`.
  abbrev pub expansions_of : List NormalizedAction → IntentMatchResult → List ScopeExpansion
  expansions_of actions r =
      if is_expansion_state r.match_state
      then elim (action_by_id (id_or_empty r.action_id) actions) [
        | Option.none ↦
            map (scope_expansion_summary r Option.none)
              (affected_of (lookup "affected_paths" r.metadata))
        | some a ↦
            map (scope_expansion_summary r (some (resource_kind_value a.resource_kind)))
              (candidate_paths a)
      ]
      else []

  unfoldable pub proposed_additional_scope :
      List IntentMatchResult → List NormalizedAction → List ScopeExpansion
  proposed_additional_scope rs actions =
      unique_by same_expansion [] (flat_map (expansions_of actions) rs)

  -- `_scope_summary`
  abbrev scope_summary : ResourceScope → ScopeSummary
  scope_summary s = record {
    scope_type = resource_scope_type_value s.scope_type;
    value = redact s.value;
    value_sha256 = sha256 s.value;
    resource_kind = kind_text s.resource_kind;
    metadata_keys = sort_by_text (λ k. k) (map (λ e. e.0) s.metadata);
  }

  -- `_scope_summaries`
  unfoldable pub scope_summaries : List ResourceScope → List ScopeSummary
  scope_summaries scopes = unique_by same_summary [] (map scope_summary scopes)

  abbrev or_level : Option String → String → String
  or_level Option.none level = level
  or_level (some l) level = if truthy l then l else level

  unfoldable pub build_intent_review_decision :
      IntentContract
      → List IntentMatchResult
      → IntentFallbackEvaluation
      → List NormalizedAction
      → Option String
      → IntentReviewDecision
  unfolding decision_type_and_next_action action_summary affected_resources
      proposed_additional_scope review_reason_codes fallback_risk_level scope_summaries
  build_intent_review_decision c rs e actions level =
      let decided = decision_type_and_next_action rs e in
      record {
        decision = decided.0;
        action_summary_of = action_summary actions rs;
        affected_resources_of = affected_resources actions;
        current_intent_contract_id = c.contract_id;
        proposed_scope = proposed_additional_scope rs actions;
        reason_codes = review_reason_codes rs e;
        true_risk_level = or_level level (fallback_risk_level e);
        matched_scopes =
            scope_summaries (flat_map (λ (r : IntentMatchResult). r.matched_scopes) rs);
        unmatched_scopes =
            scope_summaries (flat_map (λ (r : IntentMatchResult). r.unmatched_scopes) rs);
        recommended_next_action = decided.1;
        scope_auto_expanded = false;
        approval_submitted = false;
      }
