-- ===== src/Intent/Tests.antt =====
-- A contract for the sources, actions inside and outside of it, and the theorems applied to them.
use rygnal_core.Common.{
  String, ◌≡◌, refl, List, [], ◌∷◌, ◌++◌, none, some, concat, strip, lower, includes, decimal, ok,
  err, Checked,
}
use rygnal_core.Paths.{with_slashes, normalize_repo_relative_path}
use rygnal_core.Paths.Glob.{fnmatchcase}
use rygnal_core.Intent.{
  IntentContract, IntentContractSource, IntentOperation, IntentEnforcementMode, ResourceScopeType,
  ResourceKind, NormalizedAction, NormalizedActionSource, IntentMatchResult, IntentMatchState,
  IntentDecisionHint, Metadata,
}
use rygnal_core.Intent.Contract.{checked_text, checked_option, checked_texts, validate_match_result}
use rygnal_core.Models.{text, number, list, nil, item}
use rygnal_core.Intent.Graph.{
  build_resource_graph_from_paths, add_path, nodes_for_path, file_node, classify_resource_path,
  classify_normal, python_module_name_for_path, rust_module_name_for_path, edges_for_path,
}
use rygnal_core.Intent.Scopes.{
  normalized_action_paths, matching_scopes, scope_matches, matches_path_glob,
  requires_path_or_graph_scope, action_paths_outside_target_scopes,
}
use rygnal_core.Intent.Matcher.{
  safe_graph_for_paths, match_paths, match_allowed, match_targets, operation_allowed,
}
use rygnal_core.Intent.Matcher.{match_action_to_contract, match_actions_to_contract}
use rygnal_core.Intent.Fallback.{evaluate_intent_fallback, recommended_fallback, effective_hint}
use rygnal_core.Intent.Gravity.{recommended-gravest}
use rygnal_core.Intent.Enforcement.{sensitive_blocked}

abbrev stable_id : String → String → String → List String → String
stable_id kind source target reasons = concat (kind ∷ ":" ∷ source ∷ ":" ∷ target ∷ [])

abbrev contract : IntentContract
contract = record {
  contract_id = "c";
  session_id = "s";
  source = IntentContractSource.cli;
  task_objective = "edit the sources";
  human_prompt = none;
  ai_plan = none;
  evidence_source = none;
  evidence_metadata = [];
  allowed_actions = IntentOperation.modify ∷ [];
  target_scopes =
      record {
        scope_type = ResourceScopeType.path_glob;
        value = "src/*";
        resource_kind = none;
        metadata = [];
      }
      ∷ [];
  excluded_scopes = [];
  risk_ceiling = 100;
  expires_at = none;
  enforcement_mode = IntentEnforcementMode.enforce;
  approved_by = none;
  metadata = [];
}

abbrev action : ResourceKind → List String → NormalizedAction
action kind paths = record {
  action_id = "a";
  source = NormalizedActionSource.patch;
  operation = IntentOperation.modify;
  affected_paths = paths;
  old_path = none;
  new_path = none;
  resource_kind = kind;
  raw_evidence = [];
  diff_metadata = [];
  reason_codes = [];
}

abbrev inside : NormalizedAction
inside = action ResourceKind.python_module ("src/a.py" ∷ [])

abbrev secret : NormalizedAction
secret = action ResourceKind.sensitive (".env" ∷ [])

abbrev results : Checked (List IntentMatchResult) → List IntentMatchResult
results (ok rs) = rs
results (err e) = []

abbrev result : Checked IntentMatchResult → List IntentMatchResult
result (ok r) = r ∷ []
result (err e) = []

abbrev result_metadata : String → String → Metadata
result_metadata kind path =
    ("action_operation", text "modify")
    ∷ ("action_resource_kind", text kind)
    ∷ ("affected_paths", list (item (text path) nil))
    ∷ ("target_scope_count", number "1")
    ∷ ("excluded_scope_count", number "0")
    ∷ []

abbrev inside_result : IntentMatchResult
inside_result = record {
  match_state = IntentMatchState.exact_match;
  contract_id = some "c";
  action_id = some "a";
  matched_scopes = contract.target_scopes;
  unmatched_scopes = [];
  reason_codes = [];
  decision_hint = IntentDecisionHint.allow;
  metadata =
      result_metadata "python_module" "src/a.py" ++ ("matched_target_scope_count", number "1") ∷ [];
}

abbrev secret_result : IntentMatchResult
secret_result = record {
  match_state = IntentMatchState.hard_sensitive;
  contract_id = some "c";
  action_id = some "a";
  matched_scopes = [];
  unmatched_scopes = [];
  reason_codes = "hard-sensitive-resource" ∷ "resource_kind:sensitive" ∷ [];
  decision_hint = IntentDecisionHint.block;
  metadata = result_metadata "sensitive" ".env";
}

inside_matched : match_action_to_contract stable_id inside contract ≡ ok inside_result
unfolding match_action_to_contract normalized_action_paths normalize_repo_relative_path strip
    with_slashes safe_graph_for_paths build_resource_graph_from_paths add_path nodes_for_path
    file_node classify_resource_path classify_normal python_module_name_for_path
    rust_module_name_for_path edges_for_path match_paths match_allowed match_targets
    operation_allowed matching_scopes scope_matches matches_path_glob fnmatchcase
    requires_path_or_graph_scope action_paths_outside_target_scopes validate_match_result
    checked_option checked_text checked_texts lower includes decimal
inside_matched = refl

secret_matched : match_action_to_contract stable_id secret contract ≡ ok secret_result
unfolding match_action_to_contract normalized_action_paths normalize_repo_relative_path strip
    with_slashes safe_graph_for_paths build_resource_graph_from_paths add_path nodes_for_path
    file_node classify_resource_path classify_normal python_module_name_for_path
    rust_module_name_for_path edges_for_path match_paths matching_scopes validate_match_result
    checked_option checked_text checked_texts lower includes decimal
secret_matched = refl

both_matched :
    match_actions_to_contract stable_id (inside ∷ secret ∷ []) contract
    ≡ ok (inside_result ∷ secret_result ∷ [])
unfolding match_actions_to_contract
both_matched = rw (inside_matched, secret_matched) refl

recommended-gravest_example :
    ((recommended_fallback (inside_result ∷ secret_result ∷ [])).state
      ≡ IntentMatchState.hard_sensitive)
    × ((recommended_fallback (inside_result ∷ secret_result ∷ [])).hint ≡ IntentDecisionHint.block)
recommended-gravest_example = recommended-gravest (inside_result ∷ secret_result ∷ []) refl

sensitive_blocked_example :
    (evaluate_intent_fallback (inside_result ∷ secret_result ∷ []) contract).effective_hint
    ≡ IntentDecisionHint.block
sensitive_blocked_example =
    sensitive_blocked stable_id (inside ∷ secret ∷ []) contract (inside_result ∷ secret_result ∷ [])
      refl both_matched refl
