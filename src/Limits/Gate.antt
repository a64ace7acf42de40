-- ===== src/Limits/Gate.antt =====
-- The gate that blocks dangerous changes (src/rygnal/change_gate.py), on the report of
-- src/rygnal/change_risk.py. The evidence of a reason and the counts of a
-- file are not looked at, and are left out.
use rygnal_core.Common.{
  String, Bool, true, false, not, ◌||◌, ◌≡◌, refl, List, [], ◌∷◌, ◌++◌, Option, none, some, any,
  nonempty, map, arith, if◌then◌else◌, All,
}
use rygnal_core.Models.{Decision, Severity}
use rygnal_core.Limits.{RiskLevel, low, medium, high, critical, risk_level_eq, highest_risk}

pub record ChangeRiskReason : Type 0 where
  pub code : String
  pub risk_level : RiskLevel
  pub reason : String

pub record FileRiskClassification : Type 0 where
  pub path : String
  pub risk_level : RiskLevel
  pub reasons : List ChangeRiskReason
  pub binary : Bool
  pub old_mode : Option String
  pub new_mode : Option String
  pub mode_changed : Bool

pub record ChangeRiskReport : Type 0 where
  pub baseline_commit_sha : String
  pub patch_sha256 : String
  pub files : List FileRiskClassification
  pub report_reasons : List ChangeRiskReason

-- The levels of the files, and those of the report's own reasons.
abbrev pub overall_level : ChangeRiskReport → RiskLevel
overall_level r =
    highest_risk
      (map (λ (f : FileRiskClassification). f.risk_level) r.files
        ++ map (λ (x : ChangeRiskReason). x.risk_level) r.report_reasons)
      low

pub record GuardedChangeBlockReason : Type 0 where
  pub code : String
  pub risk_level : RiskLevel
  pub reason : String
  pub path : Option String

abbrev pub from_risk_reason : Option String → ChangeRiskReason → GuardedChangeBlockReason
from_risk_reason path r = record {
  code = r.code;
  risk_level = r.risk_level;
  reason = r.reason;
  path = path;
}

-- The loop that keeps the critical reasons, in front of the later ones.
abbrev pub block_reasons_of :
    Option String
    → List ChangeRiskReason
    → List GuardedChangeBlockReason
    → List GuardedChangeBlockReason
block_reasons_of path [] later = later
block_reasons_of path (r ∷ rs) later =
    let rest = block_reasons_of path rs later in
    if risk_level_eq r.risk_level critical then from_risk_reason path r ∷ rest else rest

abbrev pub file_block_reasons :
    List FileRiskClassification → List GuardedChangeBlockReason → List GuardedChangeBlockReason
file_block_reasons [] later = later
file_block_reasons (f ∷ fs) later =
    block_reasons_of (some f.path) f.reasons (file_block_reasons fs later)

-- `_collect_block_reasons`
abbrev pub collect_block_reasons : ChangeRiskReport → List GuardedChangeBlockReason
collect_block_reasons r = file_block_reasons r.files (block_reasons_of none r.report_reasons [])

pub data GuardedChangeGateOutcome : Type 0 where
  allow block : GuardedChangeGateOutcome

pub record GuardedChangeGateDecision : Type 0 where
  pub outcome : GuardedChangeGateOutcome
  pub risk_report : ChangeRiskReport
  pub block_reasons : List GuardedChangeBlockReason

unfoldable pub evaluate_guarded_change_gate : ChangeRiskReport → GuardedChangeGateDecision
evaluate_guarded_change_gate r = record {
  outcome = if nonempty (collect_block_reasons r) then block else allow;
  risk_report = r;
  block_reasons = collect_block_reasons r;
}

abbrev pub blocked : GuardedChangeGateDecision → Bool
blocked g = elim g.outcome [ block ↦ true | allow ↦ false ]

abbrev pub allowed_to_continue : GuardedChangeGateDecision → Bool
allowed_to_continue g = not (blocked g)

abbrev pub decision_of : GuardedChangeGateDecision → Decision
decision_of g = if blocked g then Decision.block else Decision.allow

abbrev pub severity_from_risk_level : RiskLevel → Severity
severity_from_risk_level critical = Severity.critical
severity_from_risk_level high = Severity.high
severity_from_risk_level medium = Severity.medium
severity_from_risk_level low = Severity.low

abbrev pub severity_of : GuardedChangeGateDecision → Severity
severity_of g = severity_from_risk_level (overall_level g.risk_report)

abbrev pub is_critical : ChangeRiskReason → Bool
is_critical r = risk_level_eq r.risk_level critical

-- Some reason of the report or of one of its files is critical.
abbrev pub has_critical : ChangeRiskReport → Bool
has_critical r =
    any (λ (f : FileRiskClassification). any is_critical f.reasons) r.files
    || any is_critical r.report_reasons

nonempty-block_reasons_of :
    (path : Option String) (rs : List ChangeRiskReason) (later : List GuardedChangeBlockReason)
    → nonempty (block_reasons_of path rs later) ≡ (any is_critical rs || nonempty later)
nonempty-block_reasons_of path [] later = refl
nonempty-block_reasons_of path (r ∷ rs) later =
    ground (arith, nonempty-block_reasons_of path rs later)

nonempty-file_block_reasons :
    (fs : List FileRiskClassification) (later : List GuardedChangeBlockReason)
    → nonempty (file_block_reasons fs later)
      ≡ (any (λ (f : FileRiskClassification). any is_critical f.reasons) fs || nonempty later)
nonempty-file_block_reasons [] later = refl
nonempty-file_block_reasons (f ∷ fs) later = ground (
  arith,
  nonempty-file_block_reasons fs later,
  nonempty-block_reasons_of (some f.path) f.reasons (file_block_reasons fs later),
)

block_reasons_of-critical :
    (path : Option String) (rs : List ChangeRiskReason) (later : List GuardedChangeBlockReason)
    → All (λ (x : GuardedChangeBlockReason). x.risk_level ≡ critical) later
    → All
        (λ (x : GuardedChangeBlockReason). x.risk_level ≡ critical)
        (block_reasons_of path rs later)
block_reasons_of-critical path [] later h = h
block_reasons_of-critical path (r ∷ rs) later h =
    ground (arith, block_reasons_of-critical path rs later h)

file_block_reasons-critical :
    (fs : List FileRiskClassification) (later : List GuardedChangeBlockReason)
    → All (λ (x : GuardedChangeBlockReason). x.risk_level ≡ critical) later
    → All (λ (x : GuardedChangeBlockReason). x.risk_level ≡ critical) (file_block_reasons fs later)
file_block_reasons-critical [] later h = h
file_block_reasons-critical (f ∷ fs) later h =
    block_reasons_of-critical (some f.path) f.reasons (file_block_reasons fs later)
      (file_block_reasons-critical fs later h)

-- A patch is blocked exactly where some reason of the report or of one of its files is critical, and
-- every reason that it is blocked for is critical.
pub blocked-has_critical :
    (r : ChangeRiskReport)
    → (blocked (evaluate_guarded_change_gate r) ≡ has_critical r)
      × All
          (λ (x : GuardedChangeBlockReason). x.risk_level ≡ critical)
          (evaluate_guarded_change_gate r).block_reasons
unfolding evaluate_guarded_change_gate
blocked-has_critical r = (
  ground (
    arith,
    nonempty-file_block_reasons r.files (block_reasons_of none r.report_reasons []),
    nonempty-block_reasons_of none r.report_reasons [],
  ),
  file_block_reasons-critical r.files (block_reasons_of none r.report_reasons [])
      (block_reasons_of-critical none r.report_reasons [] tt),
)
