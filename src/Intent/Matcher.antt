-- ===== src/Intent/Matcher.antt =====
-- `match_action_to_contract` of src/rygnal/capability_matcher.py. The graph of the paths comes from
-- Intent.Graph, whose hash of an edge is the section's parameter.
use rygnal_core.Common.{
  ℕ, String, Bool, true, false, not, ◌&&◌, List, [], ◌∷◌, Option, none, some, if◌then◌else◌, ◌==◌,
  any, concat, decimal, filter, join_by, length, map, nonempty, unique, insert, Checked, ok, ◌>>=◌,
}
use rygnal_core.Models.{text, number, list, Values, nil, item}
use rygnal_core.Approval.Durable.{metadata_eq}
use rygnal_core.Intent.{
  IntentOperation, IntentMatchState, IntentDecisionHint, ResourceKind, ResourceScope,
  IntentContract, NormalizedAction, IntentMatchResult, Metadata, operation_eq, kind_eq,
  intent_operation_value, resource_kind_value, resource_scope_type_value,
}
use rygnal_core.Intent.Contract.{validate_match_result}
use rygnal_core.Intent.Graph.{ResourceGraph, build_resource_graph_from_paths}
use rygnal_core.Intent.Scopes.{
  is_config_kind, is_dependency_kind, matching_scopes, requires_path_or_graph_scope,
  action_paths_outside_target_scopes, normalized_action_paths,
}

pub record OperationMatch : Type 0 where
  pub allowed : Bool
  pub exact : Bool
  pub reason_codes : List String

-- `_MUTATING_OPERATIONS`
abbrev is_mutating_operation : IntentOperation → Bool
is_mutating_operation o =
    any (λ m. operation_eq m o)
      (IntentOperation.create ∷ IntentOperation.modify ∷ IntentOperation.delete_file
        ∷ IntentOperation.delete_folder ∷ IntentOperation.rename ∷ IntentOperation.move ∷ [])

-- `operation in contract.allowed_actions`
abbrev pub allows : IntentContract → IntentOperation → Bool
allows c o = any (λ x. operation_eq x o) c.allowed_actions

-- `_semantic_operation_reason`
unfoldable pub semantic_operation_reason : NormalizedAction → IntentContract → Option String
semantic_operation_reason a c =
    if allows c IntentOperation.config_change
      && (is_mutating_operation a.operation && is_config_kind a.resource_kind)
    then some "operation-semantic-match:config_change"
    else if allows c IntentOperation.dependency_change
        && (is_mutating_operation a.operation && is_dependency_kind a.resource_kind)
    then some "operation-semantic-match:dependency_change"
    else none

-- `_operation_allowed`
unfoldable pub operation_allowed : NormalizedAction → IntentContract → OperationMatch
operation_allowed a c =
    if allows c a.operation
    then record {
      allowed = true;
      exact = true;
      reason_codes = concat ("operation-exact:" ∷ intent_operation_value a.operation ∷ []) ∷ [];
    }
    else elim (semantic_operation_reason a c) [
      | some reason ↦ record { allowed = true; exact = false; reason_codes = reason ∷ [] }
      | none ↦ record {
        allowed = false;
        exact = false;
        reason_codes =
            "operation-not-allowed"
            ∷ concat ("action_operation:" ∷ intent_operation_value a.operation ∷ [])
            ∷ concat (
                "allowed_actions:"
                ∷ join_by "," (map intent_operation_value c.allowed_actions)
                ∷ [])
            ∷ [];
      }
    ]

abbrev texts_value : List String → Values
texts_value [] = nil
texts_value (s ∷ ss) = item (text s) (texts_value ss)

abbrev action_metadata : NormalizedAction → IntentContract → List String → Metadata
action_metadata a c paths =
    ("action_operation", text (intent_operation_value a.operation))
    ∷ ("action_resource_kind", text (resource_kind_value a.resource_kind))
    ∷ ("affected_paths", list (texts_value paths))
    ∷ ("target_scope_count", number (decimal (length c.target_scopes)))
    ∷ ("excluded_scope_count", number (decimal (length c.excluded_scopes)))
    ∷ []

-- A result of the contract and the action, with no scopes.
abbrev plain_result :
    NormalizedAction
    → IntentContract
    → Metadata
    → IntentMatchState
    → IntentDecisionHint
    → List String
    → IntentMatchResult
plain_result a c m state hint reasons = record {
  match_state = state;
  contract_id = some c.contract_id;
  action_id = some a.action_id;
  matched_scopes = [];
  unmatched_scopes = [];
  reason_codes = reasons;
  decision_hint = hint;
  metadata = m;
}

abbrev scope_kind_eq : Option ResourceKind → Option ResourceKind → Bool
scope_kind_eq none none = true
scope_kind_eq (some j) (some k) = kind_eq j k
scope_kind_eq _ _ = false

-- `==` on scopes
abbrev scope_eq : ResourceScope → ResourceScope → Bool
scope_eq s t =
    resource_scope_type_value s.scope_type == resource_scope_type_value t.scope_type
    && (s.value == t.value
        && (scope_kind_eq s.resource_kind t.resource_kind && metadata_eq s.metadata t.metadata))

abbrev count_entry : String → ℕ → Metadata → Metadata
count_entry key n m = insert key (number (decimal n)) m

-- The result where the target scopes are not empty and the operation is allowed.
unfoldable pub match_targets :
    NormalizedAction
    → IntentContract
    → List String
    → ResourceGraph
    → OperationMatch
    → IntentMatchResult
match_targets a c paths g o =
    let m = action_metadata a c paths in
    let matched = matching_scopes c.target_scopes a paths g in
    let counted = count_entry "matched_target_scope_count" (length matched) m in
    let outside = action_paths_outside_target_scopes c.target_scopes a paths g in
    if not (nonempty paths) && requires_path_or_graph_scope c.target_scopes
    then record (plain_result a c m IntentMatchState.unknown IntentDecisionHint.require_approval
        ("scope-unknown:no-affected-paths" ∷ [])) { unmatched_scopes = c.target_scopes }
    else if not (nonempty matched)
    then record (plain_result a c m IntentMatchState.drift IntentDecisionHint.require_approval
        ("target-scope-drift" ∷ [])) { unmatched_scopes = c.target_scopes }
    else if nonempty outside
    then record (plain_result a c (insert "out_of_scope_paths" (list (texts_value outside)) counted)
        IntentMatchState.partial_match IntentDecisionHint.audit
        (unique ("target-scope-partial" ∷ o.reason_codes))) {
          matched_scopes = matched;
          unmatched_scopes = filter (λ s. not (any (λ t. scope_eq t s) matched)) c.target_scopes;
        }
    else if o.exact
    then record (plain_result a c counted IntentMatchState.exact_match IntentDecisionHint.allow
        []) { matched_scopes = matched }
    else record (plain_result a c counted IntentMatchState.partial_match IntentDecisionHint.audit
        o.reason_codes) { matched_scopes = matched }

-- The result where no excluded scope matches.
unfoldable pub match_allowed :
    NormalizedAction → IntentContract → List String → ResourceGraph → IntentMatchResult
unfolding match_targets
match_allowed a c paths g =
    let m = action_metadata a c paths in
    let o = operation_allowed a c in
    if not o.allowed
    then plain_result a c m
        (if operation_eq a.operation IntentOperation.unknown
          then IntentMatchState.unknown
          else IntentMatchState.conflict)
        IntentDecisionHint.require_approval o.reason_codes
    else if nonempty c.target_scopes
    then match_targets a c paths g o
    else if o.exact
    then plain_result a c m IntentMatchState.exact_match IntentDecisionHint.allow []
    else plain_result a c m IntentMatchState.partial_match IntentDecisionHint.audit o.reason_codes

-- The result before pydantic validates it, from the paths, their reason codes and the graph.
unfoldable pub match_paths :
    NormalizedAction
    → IntentContract
    → List String
    → List String
    → ResourceGraph
    → IntentMatchResult
unfolding match_allowed
match_paths a c paths reasons g =
    let m = action_metadata a c paths in
    let excluded = matching_scopes c.excluded_scopes a paths g in
    if kind_eq a.resource_kind ResourceKind.sensitive
    then plain_result a c m IntentMatchState.hard_sensitive IntentDecisionHint.block (
        "hard-sensitive-resource"
        ∷ concat ("resource_kind:" ∷ resource_kind_value a.resource_kind ∷ [])
        ∷ [])
    else if nonempty reasons
    then plain_result a c m IntentMatchState.unknown IntentDecisionHint.require_approval reasons
    else if nonempty excluded
    then record (plain_result a c (count_entry "matched_excluded_scope_count" (length excluded) m)
        IntentMatchState.conflict IntentDecisionHint.require_approval
        ("excluded-scope-match" ∷ [])) { matched_scopes = excluded }
    else match_allowed a c paths g

module _ (stable_id : String → String → String → List String → String) where
  -- `_safe_graph_for_paths`
  unfoldable pub safe_graph_for_paths : List String → Checked ResourceGraph
  safe_graph_for_paths paths =
      if nonempty paths
      then build_resource_graph_from_paths stable_id paths
      else ok (record { nodes = []; edges = [] })

  unfoldable pub match_action_to_contract :
      NormalizedAction → IntentContract → Checked IntentMatchResult
  unfolding safe_graph_for_paths match_paths
  match_action_to_contract a c = do
    g ← safe_graph_for_paths (normalized_action_paths a).0
    validate_match_result
        (match_paths a c (normalized_action_paths a).0 (normalized_action_paths a).1 g)

  unfoldable pub match_actions_to_contract :
      List NormalizedAction → IntentContract → Checked (List IntentMatchResult)
  unfolding match_action_to_contract
  match_actions_to_contract [] c = ok []
  match_actions_to_contract (a ∷ actions) c = do
    r ← match_action_to_contract a c
    rs ← match_actions_to_contract actions c
    ok (r ∷ rs)
