-- ===== src/Intent/Scopes.antt =====
-- Which scopes an action meets (src/rygnal/capability_matcher.py).
use rygnal_core.Common.{
  String, Bool, true, false, not, ◌&&◌, ◌||◌, List, [], ◌∷◌, ◌++◌, Option, none, some,
  if◌then◌else◌, ◌==◌, any, concat, filter, lower, strip, truthy, text_in, starts_with, ends_with,
  nonempty, unique, ok, err,
}
use rygnal_core.Paths.{name_of, is_slash, with_slashes, normalize_repo_relative_path}
use rygnal_core.Paths.Glob.{fnmatchcase}
use rygnal_core.Intent.{
  ResourceScopeType, ResourceKind, ResourceScope, NormalizedAction, kind_eq, resource_kind_value,
}
use rygnal_core.Intent.Graph.{ResourceGraphNode, ResourceGraph}

abbrev pub is_config_kind : ResourceKind → Bool
is_config_kind k =
    any (λ j. kind_eq j k)
      (ResourceKind.config ∷ ResourceKind.ci_workflow ∷ ResourceKind.policy ∷ [])

abbrev pub is_dependency_kind : ResourceKind → Bool
is_dependency_kind k =
    any (λ j. kind_eq j k) (ResourceKind.dependency_manifest ∷ ResourceKind.lockfile ∷ [])

-- `_resource_kind_matches`
unfoldable pub resource_kind_matches : ResourceKind → NormalizedAction → Bool
resource_kind_matches expected a =
    kind_eq a.resource_kind expected
    || (kind_eq expected ResourceKind.config && is_config_kind a.resource_kind
        || kind_eq expected ResourceKind.dependency_manifest && is_dependency_kind a.resource_kind)

-- `_matches_exact_path`
unfoldable pub matches_exact_path : String → List String → Bool
matches_exact_path value paths = elim (normalize_repo_relative_path value) [
  | err e ↦ false
  | ok expected ↦ text_in expected paths
]

-- `s.lstrip("/")`
abbrev strip_slashes : String → String
strip_slashes String.[] = ""
strip_slashes (String.◌∷◌ c s) =
    let rest = strip_slashes s in if is_slash c then rest else String.◌∷◌ c s

-- `_matches_path_glob`
unfoldable pub matches_path_glob : String → List String → Bool
unfolding with_slashes
matches_path_glob value paths =
    let pattern = strip_slashes (with_slashes (strip value)) in
    any (λ p. fnmatchcase p pattern) paths

-- `_matches_file_type`
unfoldable pub matches_file_type : String → List String → Bool
matches_file_type value paths =
    let given = lower (strip value) in
    let suffix = if starts_with given "." then given else concat ("." ∷ given ∷ []) in
    truthy given && any (λ p. ends_with (lower (name_of p)) suffix) paths

abbrev resource_kinds : List ResourceKind
resource_kinds =
    ResourceKind.file ∷ ResourceKind.directory ∷ ResourceKind.python_module
    ∷ ResourceKind.python_symbol ∷ ResourceKind.rust_module ∷ ResourceKind.rust_symbol
    ∷ ResourceKind.config ∷ ResourceKind.dependency_manifest ∷ ResourceKind.lockfile
    ∷ ResourceKind.ci_workflow ∷ ResourceKind.sensitive ∷ ResourceKind.test ∷ ResourceKind.generated
    ∷ ResourceKind.database_migration ∷ ResourceKind.policy ∷ ResourceKind.documentation
    ∷ ResourceKind.unknown ∷ []

abbrev kind_among : String → List ResourceKind → Option ResourceKind
kind_among value [] = none
kind_among value (k ∷ ks) = if resource_kind_value k == value then some k else kind_among value ks

-- `_matches_resource_kind_scope`
unfoldable pub matches_resource_kind_scope : ResourceScope → NormalizedAction → Bool
unfolding resource_kind_matches
matches_resource_kind_scope s a = elim s.resource_kind [
  | some expected ↦ resource_kind_matches expected a
  | none ↦ elim (kind_among (lower (strip s.value)) resource_kinds) [
    | none ↦ false
    | some expected ↦ resource_kind_matches expected a
  ]
]

abbrev is_symbol_kind : ResourceKind → Bool
is_symbol_kind k =
    any (λ j. kind_eq j k)
      (ResourceKind.python_module ∷ ResourceKind.python_symbol ∷ ResourceKind.rust_module
        ∷ ResourceKind.rust_symbol ∷ [])

abbrev is_named : Option String → String → Bool
is_named none t = false
is_named (some s) t = s == t

-- `_matches_symbol`
unfoldable pub matches_symbol : String → ResourceGraph → Bool
matches_symbol value g =
    let expected = strip value in
    truthy expected
    && any
        (λ (n : ResourceGraphNode).
          is_symbol_kind n.kind && (is_named n.name expected || n.node_id == expected))
        g.nodes

abbrev kind_admits : Option ResourceKind → NormalizedAction → Bool
kind_admits none a = true
kind_admits (some k) a = resource_kind_matches k a

abbrev type_matches :
    ResourceScopeType → ResourceScope → NormalizedAction → List String → ResourceGraph → Bool
type_matches ResourceScopeType.exact_path s a paths g = matches_exact_path s.value paths
type_matches ResourceScopeType.path_glob s a paths g = matches_path_glob s.value paths
type_matches ResourceScopeType.file_type s a paths g = matches_file_type s.value paths
type_matches ResourceScopeType.resource_kind s a paths g = matches_resource_kind_scope s a
type_matches ResourceScopeType.symbol s a paths g = matches_symbol s.value g

-- `_scope_matches`
unfoldable pub scope_matches : NormalizedAction → ResourceGraph → List String → ResourceScope → Bool
scope_matches a g paths s = kind_admits s.resource_kind a && type_matches s.scope_type s a paths g

-- `_matching_scopes`
unfoldable pub matching_scopes :
    List ResourceScope → NormalizedAction → List String → ResourceGraph → List ResourceScope
matching_scopes scopes a paths g = filter (scope_matches a g paths) scopes

abbrev is_path_or_graph : ResourceScopeType → Bool
is_path_or_graph ResourceScopeType.resource_kind = false
is_path_or_graph _ = true

-- `_requires_path_or_graph_scope`
unfoldable pub requires_path_or_graph_scope : List ResourceScope → Bool
requires_path_or_graph_scope scopes =
    any (λ (s : ResourceScope). is_path_or_graph s.scope_type) scopes

-- `_action_paths_outside_target_scopes`
unfoldable pub action_paths_outside_target_scopes :
    List ResourceScope → NormalizedAction → List String → ResourceGraph → List String
unfolding requires_path_or_graph_scope
action_paths_outside_target_scopes scopes a paths g =
    if not (nonempty paths) || not (requires_path_or_graph_scope scopes)
    then []
    else filter (λ p. not (any (scope_matches a g (p ∷ [])) scopes)) paths

abbrev optional : Option String → List String
optional none = []
optional (some s) = s ∷ []

-- The loop of `_normalized_action_paths`, from the paths and the reason codes so far.
abbrev add_raw_paths : List String → List String → List String → List String × List String
add_raw_paths [] paths reasons = (paths, reasons)
add_raw_paths (raw ∷ raws) paths reasons = elim (normalize_repo_relative_path raw) [
  | err e ↦ add_raw_paths raws paths (reasons ++ "invalid-action-path" ∷ [])
  | ok p ↦ add_raw_paths raws (if text_in p paths then paths else paths ++ p ∷ []) reasons
]

-- `_normalized_action_paths`
unfoldable pub normalized_action_paths : NormalizedAction → List String × List String
normalized_action_paths a =
    let found =
      add_raw_paths (a.affected_paths ++ optional a.old_path ++ optional a.new_path) [] [] in
    (found.0, unique found.1)
