-- ===== src/Intent.antt =====
-- src/rygnal/intent_contract.py: intents, the actions that are held against them, and the results.
-- A metadata dictionary is a list of keys and JSON values.
pub mod Contract
pub mod Graph
pub mod Scopes
pub mod Matcher
pub mod Fallback
pub mod Review
pub mod Gravity
pub mod Enforcement
mod Tests
pub mod Coverage
use rygnal_core.Common.{ℕ, String, Bool, true, false, List, Option, ◌==◌}
use rygnal_core.Models.{Value}

pub data IntentContractSource : Type 0 where
  yaml cli json prompt_draft jit_expansion : IntentContractSource

abbrev pub intent_contract_source_value : IntentContractSource → String
intent_contract_source_value IntentContractSource.yaml = "yaml"
intent_contract_source_value IntentContractSource.cli = "cli"
intent_contract_source_value IntentContractSource.json = "json"
intent_contract_source_value IntentContractSource.prompt_draft = "prompt_draft"
intent_contract_source_value IntentContractSource.jit_expansion = "jit_expansion"

pub data IntentEnforcementMode : Type 0 where
  disabled shadow enforce : IntentEnforcementMode

abbrev pub intent_enforcement_mode_value : IntentEnforcementMode → String
intent_enforcement_mode_value IntentEnforcementMode.disabled = "disabled"
intent_enforcement_mode_value IntentEnforcementMode.shadow = "shadow"
intent_enforcement_mode_value IntentEnforcementMode.enforce = "enforce"

pub data IntentOperation : Type 0 where
  read create modify delete_file delete_folder rename move command : IntentOperation
  dependency_change config_change test build unknown : IntentOperation

abbrev pub intent_operation_value : IntentOperation → String
intent_operation_value IntentOperation.read = "read"
intent_operation_value IntentOperation.create = "create"
intent_operation_value IntentOperation.modify = "modify"
intent_operation_value IntentOperation.delete_file = "delete_file"
intent_operation_value IntentOperation.delete_folder = "delete_folder"
intent_operation_value IntentOperation.rename = "rename"
intent_operation_value IntentOperation.move = "move"
intent_operation_value IntentOperation.command = "command"
intent_operation_value IntentOperation.dependency_change = "dependency_change"
intent_operation_value IntentOperation.config_change = "config_change"
intent_operation_value IntentOperation.test = "test"
intent_operation_value IntentOperation.build = "build"
intent_operation_value IntentOperation.unknown = "unknown"

pub data ResourceScopeType : Type 0 where
  exact_path path_glob file_type resource_kind symbol : ResourceScopeType

abbrev pub resource_scope_type_value : ResourceScopeType → String
resource_scope_type_value ResourceScopeType.exact_path = "exact_path"
resource_scope_type_value ResourceScopeType.path_glob = "path_glob"
resource_scope_type_value ResourceScopeType.file_type = "file_type"
resource_scope_type_value ResourceScopeType.resource_kind = "resource_kind"
resource_scope_type_value ResourceScopeType.symbol = "symbol"

pub data ResourceKind : Type 0 where
  file directory python_module python_symbol rust_module rust_symbol : ResourceKind
  config dependency_manifest lockfile ci_workflow sensitive test : ResourceKind
  generated database_migration policy documentation unknown : ResourceKind

abbrev pub resource_kind_value : ResourceKind → String
resource_kind_value ResourceKind.file = "file"
resource_kind_value ResourceKind.directory = "directory"
resource_kind_value ResourceKind.python_module = "python_module"
resource_kind_value ResourceKind.python_symbol = "python_symbol"
resource_kind_value ResourceKind.rust_module = "rust_module"
resource_kind_value ResourceKind.rust_symbol = "rust_symbol"
resource_kind_value ResourceKind.config = "config"
resource_kind_value ResourceKind.dependency_manifest = "dependency_manifest"
resource_kind_value ResourceKind.lockfile = "lockfile"
resource_kind_value ResourceKind.ci_workflow = "ci_workflow"
resource_kind_value ResourceKind.sensitive = "sensitive"
resource_kind_value ResourceKind.test = "test"
resource_kind_value ResourceKind.generated = "generated"
resource_kind_value ResourceKind.database_migration = "database_migration"
resource_kind_value ResourceKind.policy = "policy"
resource_kind_value ResourceKind.documentation = "documentation"
resource_kind_value ResourceKind.unknown = "unknown"

pub data NormalizedActionSource : Type 0 where
  tool_call patch diff command filesystem rust_kernel unknown : NormalizedActionSource

abbrev pub normalized_action_source_value : NormalizedActionSource → String
normalized_action_source_value NormalizedActionSource.tool_call = "tool_call"
normalized_action_source_value NormalizedActionSource.patch = "patch"
normalized_action_source_value NormalizedActionSource.diff = "diff"
normalized_action_source_value NormalizedActionSource.command = "command"
normalized_action_source_value NormalizedActionSource.filesystem = "filesystem"
normalized_action_source_value NormalizedActionSource.rust_kernel = "rust_kernel"
normalized_action_source_value NormalizedActionSource.unknown = "unknown"

pub data IntentMatchState : Type 0 where
  exact_match partial_match drift conflict unknown hard_sensitive : IntentMatchState

abbrev pub intent_match_state_value : IntentMatchState → String
intent_match_state_value IntentMatchState.exact_match = "exact_match"
intent_match_state_value IntentMatchState.partial_match = "partial_match"
intent_match_state_value IntentMatchState.drift = "drift"
intent_match_state_value IntentMatchState.conflict = "conflict"
intent_match_state_value IntentMatchState.unknown = "unknown"
intent_match_state_value IntentMatchState.hard_sensitive = "hard_sensitive"

pub data IntentDecisionHint : Type 0 where
  none allow audit require_approval block : IntentDecisionHint

abbrev pub intent_decision_hint_value : IntentDecisionHint → String
intent_decision_hint_value IntentDecisionHint.none = "none"
intent_decision_hint_value IntentDecisionHint.allow = "allow"
intent_decision_hint_value IntentDecisionHint.audit = "audit"
intent_decision_hint_value IntentDecisionHint.require_approval = "require_approval"
intent_decision_hint_value IntentDecisionHint.block = "block"

-- `==` on members of a `StrEnum` compares their values.
abbrev pub operation_eq : IntentOperation → IntentOperation → Bool
operation_eq a b = intent_operation_value a == intent_operation_value b

abbrev pub kind_eq : ResourceKind → ResourceKind → Bool
kind_eq a b = resource_kind_value a == resource_kind_value b

abbrev pub match_state_eq : IntentMatchState → IntentMatchState → Bool
match_state_eq IntentMatchState.exact_match IntentMatchState.exact_match = true
match_state_eq IntentMatchState.partial_match IntentMatchState.partial_match = true
match_state_eq IntentMatchState.drift IntentMatchState.drift = true
match_state_eq IntentMatchState.conflict IntentMatchState.conflict = true
match_state_eq IntentMatchState.unknown IntentMatchState.unknown = true
match_state_eq IntentMatchState.hard_sensitive IntentMatchState.hard_sensitive = true
match_state_eq _ _ = false

abbrev pub hint_eq : IntentDecisionHint → IntentDecisionHint → Bool
hint_eq IntentDecisionHint.none IntentDecisionHint.none = true
hint_eq IntentDecisionHint.allow IntentDecisionHint.allow = true
hint_eq IntentDecisionHint.audit IntentDecisionHint.audit = true
hint_eq IntentDecisionHint.require_approval IntentDecisionHint.require_approval = true
hint_eq IntentDecisionHint.block IntentDecisionHint.block = true
hint_eq _ _ = false

abbrev pub Metadata : Type 0
Metadata = List (String × Value)

pub record ResourceScope : Type 0 where
  pub scope_type : ResourceScopeType
  pub value : String
  pub resource_kind : Option ResourceKind
  pub metadata : Metadata

pub record IntentContract : Type 0 where
  pub contract_id : String
  pub session_id : String
  pub source : IntentContractSource
  pub task_objective : String
  pub human_prompt : Option String
  pub ai_plan : Option String
  pub evidence_source : Option String
  pub evidence_metadata : Metadata
  pub allowed_actions : List IntentOperation
  pub target_scopes : List ResourceScope
  pub excluded_scopes : List ResourceScope
  pub risk_ceiling : ℕ
  pub expires_at : Option String
  pub enforcement_mode : IntentEnforcementMode
  pub approved_by : Option String
  pub metadata : Metadata

pub record NormalizedAction : Type 0 where
  pub action_id : String
  pub source : NormalizedActionSource
  pub operation : IntentOperation
  pub affected_paths : List String
  pub old_path : Option String
  pub new_path : Option String
  pub resource_kind : ResourceKind
  pub raw_evidence : Metadata
  pub diff_metadata : Metadata
  pub reason_codes : List String

pub record IntentMatchResult : Type 0 where
  pub match_state : IntentMatchState
  pub contract_id : Option String
  pub action_id : Option String
  pub matched_scopes : List ResourceScope
  pub unmatched_scopes : List ResourceScope
  pub reason_codes : List String
  pub decision_hint : IntentDecisionHint
  pub metadata : Metadata
