-- ===== src/Intent/Graph.antt =====
-- src/rygnal/resource_graph.py: the kind of a path, the modules that it declares, and the graph of a
-- list of paths. The identifier of an edge is a hash of JSON, and is an argument.
use rygnal_core.Common.{
  String, Bool, not, ◌||◌, List, [], ◌∷◌, ◌++◌, Option, none, some, if◌then◌else◌, ◌==◌, any,
  concat, includes, lower, text_in, starts_with, ends_with, remove_suffix, join_by, sort_by_text,
  Checked, ok, ◌>>=◌,
}
use rygnal_core.Models.{text}
use rygnal_core.Paths.{name_of, parts, normalize_repo_relative_path}
use rygnal_core.Intent.{ResourceKind, kind_eq, resource_kind_value, Metadata}

pub data ResourceGraphEdgeKind : Type 0 where
  contains declares configures tracks : ResourceGraphEdgeKind

abbrev pub edge_kind_value : ResourceGraphEdgeKind → String
edge_kind_value ResourceGraphEdgeKind.contains = "contains"
edge_kind_value ResourceGraphEdgeKind.declares = "declares"
edge_kind_value ResourceGraphEdgeKind.configures = "configures"
edge_kind_value ResourceGraphEdgeKind.tracks = "tracks"

pub record ResourceGraphNode : Type 0 where
  pub node_id : String
  pub kind : ResourceKind
  pub path : Option String
  pub name : Option String
  pub language : Option String
  pub metadata : Metadata

pub record ResourceGraphEdge : Type 0 where
  pub edge_id : String
  pub edge_kind : ResourceGraphEdgeKind
  pub source_id : String
  pub target_id : String
  pub reason_codes : List String

pub record ResourceGraph : Type 0 where
  pub nodes : List ResourceGraphNode
  pub edges : List ResourceGraphEdge

abbrev python_source_roots : List String
python_source_roots = "src" ∷ "lib" ∷ "tests" ∷ "test" ∷ []

abbrev config_suffixes : List String
config_suffixes = ".cfg" ∷ ".conf" ∷ ".ini" ∷ ".json" ∷ ".toml" ∷ ".yaml" ∷ ".yml" ∷ []

abbrev doc_suffixes : List String
doc_suffixes = ".md" ∷ ".rst" ∷ ".txt" ∷ []

abbrev secret_tokens : List String
secret_tokens =
    ".env" ∷ "credential" ∷ "credentials" ∷ "id_rsa" ∷ "private_key" ∷ "secret" ∷ "secrets"
    ∷ "token" ∷ []

abbrev dependency_manifests : List String
dependency_manifests =
    "Cargo.toml" ∷ "Gemfile" ∷ "go.mod" ∷ "package.json" ∷ "pnpm-workspace.yaml" ∷ "poetry.lock"
    ∷ "pyproject.toml" ∷ "requirements.txt" ∷ "setup.cfg" ∷ "setup.py" ∷ "uv.toml" ∷ []

abbrev lockfile_names : List String
lockfile_names =
    "Cargo.lock" ∷ "Gemfile.lock" ∷ "go.sum" ∷ "package-lock.json" ∷ "pnpm-lock.yaml"
    ∷ "poetry.lock" ∷ "uv.lock" ∷ "yarn.lock" ∷ []

abbrev is_secret_path : String → Bool
is_secret_path lowered = any (λ t. includes lowered t) secret_tokens

abbrev is_policy_path : String → Bool
is_policy_path lowered =
    starts_with lowered ".rygnal/"
    || (includes lowered "/policy"
        || (starts_with lowered "policies/"
            || (ends_with lowered "policy.yaml" || ends_with lowered "policy.yml")))

abbrev is_test_path : String → Bool
is_test_path lowered =
    let name = name_of lowered in
    starts_with lowered "tests/"
    || (starts_with lowered "test/"
        || (starts_with name "test_" || (ends_with name "_test.py" || ends_with name "_test.rs")))

-- The tests of `classify_resource_path` on a normalized path.
unfoldable pub classify_normal : String → ResourceKind
classify_normal normalized =
    let lowered = lower normalized in
    let name = name_of normalized in
    if is_secret_path lowered
    then ResourceKind.sensitive
    else if starts_with normalized ".github/workflows/"
    then ResourceKind.ci_workflow
    else if text_in name lockfile_names
    then ResourceKind.lockfile
    else if text_in name dependency_manifests
    then ResourceKind.dependency_manifest
    else if is_policy_path lowered
    then ResourceKind.policy
    else if is_test_path lowered
    then ResourceKind.test
    else if ends_with lowered ".py"
    then ResourceKind.python_module
    else if ends_with lowered ".rs"
    then ResourceKind.rust_module
    else if any (λ t. ends_with lowered t) config_suffixes
    then ResourceKind.config
    else if any (λ t. ends_with lowered t) doc_suffixes
    then ResourceKind.documentation
    else if not (includes name ".")
    then ResourceKind.directory
    else ResourceKind.file

unfoldable pub classify_resource_path : String → Checked ResourceKind
unfolding classify_normal
classify_resource_path path = do p ← normalize_repo_relative_path path; ok (classify_normal p)

abbrev without_root : (String → Bool) → List String → List String
without_root p [] = []
without_root p (x ∷ xs) = if p x then xs else x ∷ xs

abbrev without_last : String → List String → List String
without_last t [] = []
without_last t (p ∷ []) = if p == t then [] else p ∷ []
without_last t (p ∷ q ∷ ps) = p ∷ without_last t (q ∷ ps)

abbrev joined_parts : String → List String → Option String → Option String
joined_parts sep [] empty = empty
joined_parts sep (p ∷ ps) empty = some (join_by sep (p ∷ ps))

unfoldable pub python_module_name_for_path : String → Checked (Option String)
python_module_name_for_path path = do
  p ← normalize_repo_relative_path path
  if not (ends_with p ".py")
      then ok none
      else ok (
          joined_parts "."
            (without_last "__init__"
              (without_root (λ r. text_in r python_source_roots) (parts (remove_suffix p ".py"))))
            none)

abbrev rust_module : List String → Option String
rust_module [] = none
rust_module (p ∷ []) =
    if p == "lib"
    then some "crate"
    else if p == "main"
    then some "crate::main"
    else joined_parts "::" (without_last "mod" (p ∷ [])) (some "crate")
rust_module (p ∷ q ∷ ps) = joined_parts "::" (without_last "mod" (p ∷ q ∷ ps)) (some "crate")

unfoldable pub rust_module_name_for_path : String → Checked (Option String)
rust_module_name_for_path path = do
  p ← normalize_repo_relative_path path
  if not (ends_with p ".rs")
      then ok none
      else ok (rust_module (without_root (λ r. r == "src") (parts (remove_suffix p ".rs"))))

abbrev graph_node_id : String → String → String
graph_node_id namespace value = concat ("resource:" ∷ namespace ∷ ":" ∷ value ∷ [])

abbrev identifier : String → Metadata
identifier kind = ("identifier_kind", text kind) ∷ []

-- `_file_node`
unfoldable pub file_node : String → Checked ResourceGraphNode
unfolding classify_resource_path
file_node path = do
  p ← normalize_repo_relative_path path
  k ← classify_resource_path p
  ok (record {
    node_id = graph_node_id "file" p;
    kind = k;
    path = some p;
    name = some (name_of p);
    language = none;
    metadata = identifier "repo_relative_path";
  })

abbrev module_nodes :
    String → ResourceKind → String → String → Option String → List ResourceGraphNode
module_nodes namespace kind language path none = []
module_nodes namespace kind language path (some m) =
    record {
      node_id = graph_node_id namespace m;
      kind = kind;
      path = some path;
      name = some m;
      language = some language;
      metadata = identifier "module";
    }
    ∷ []

-- `_nodes_for_path`
unfoldable pub nodes_for_path : String → Checked (List ResourceGraphNode)
unfolding file_node python_module_name_for_path rust_module_name_for_path
nodes_for_path path = do
  f ← file_node path
  python ← python_module_name_for_path path
  rust ← rust_module_name_for_path path
  ok (
      f ∷ module_nodes "python_module" ResourceKind.python_module "python" path python
      ++ module_nodes "rust_module" ResourceKind.rust_module "rust" path rust)

abbrev is_configuring : ResourceKind → Bool
is_configuring k =
    any (λ j. kind_eq j k)
      (ResourceKind.config ∷ ResourceKind.ci_workflow ∷ ResourceKind.dependency_manifest
        ∷ ResourceKind.lockfile ∷ ResourceKind.policy ∷ ResourceKind.sensitive ∷ [])

-- `setdefault` for each: the first node, or edge, of an identifier is kept.
abbrev set_defaults : {A : Type 0} → (A → String) → List A → List A → List A
set_defaults key kept [] = kept
set_defaults key kept (x ∷ xs) =
    let more = kept ++ x ∷ [] in
    set_defaults key (if any (λ y. key y == key x) kept then kept else more) xs

module _ (stable_id : String → String → String → List String → String) where
  -- `_edge`
  abbrev pub edge : ResourceGraphEdgeKind → String → String → List String → ResourceGraphEdge
  edge kind source target reasons = record {
    edge_id = stable_id (edge_kind_value kind) source target reasons;
    edge_kind = kind;
    source_id = source;
    target_id = target;
    reason_codes = reasons;
  }

  abbrev module_edges : String → String → String → Option String → List ResourceGraphEdge
  module_edges namespace language source none = []
  module_edges namespace language source (some m) =
      edge ResourceGraphEdgeKind.declares source (graph_node_id namespace m)
        (concat ("language:" ∷ language ∷ []) ∷ "declares:module" ∷ [])
      ∷ []

  -- `_edges_for_path`
  unfoldable pub edges_for_path : String → String → Checked (List ResourceGraphEdge)
  unfolding classify_resource_path python_module_name_for_path rust_module_name_for_path
  edges_for_path path file = do
    python ← python_module_name_for_path path
    rust ← rust_module_name_for_path path
    kind ← classify_resource_path path
    ok (
        module_edges "python_module" "python" file python
        ++ module_edges "rust_module" "rust" file rust
        ++ (if is_configuring kind
            then edge ResourceGraphEdgeKind.configures file file
                (concat ("resource_kind:" ∷ resource_kind_value kind ∷ []) ∷ [])
              ∷ []
            else []))

  -- One round of the loop: the nodes and the edges of a path are added.
  unfoldable pub add_path : String → ResourceGraph → Checked ResourceGraph
  unfolding nodes_for_path file_node edges_for_path
  add_path raw_path g = do
    path ← normalize_repo_relative_path raw_path
    nodes ← nodes_for_path path
    f ← file_node path
    edges ← edges_for_path path f.node_id
    ok (record {
      nodes = set_defaults (λ (n : ResourceGraphNode). n.node_id) g.nodes nodes;
      edges = set_defaults (λ (n : ResourceGraphEdge). n.edge_id) g.edges edges;
    })

  abbrev add_paths : List String → ResourceGraph → Checked ResourceGraph
  add_paths [] g = ok g
  add_paths (p ∷ ps) g = do h ← add_path p g; add_paths ps h

  unfoldable pub build_resource_graph_from_paths : List String → Checked ResourceGraph
  unfolding add_path
  build_resource_graph_from_paths paths = do
    g ← add_paths paths (record { nodes = []; edges = [] })
    ok (record {
      nodes = sort_by_text (λ (n : ResourceGraphNode). n.node_id) g.nodes;
      edges = sort_by_text (λ (n : ResourceGraphEdge). n.edge_id) g.edges;
    })
