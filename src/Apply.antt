-- ===== src/Apply.antt =====
-- src/rygnal/patch_approval.py: when a patch needs an approval, the request for one, and the decision
-- on it. The hash of receipts and the redaction are arguments.
pub mod Redaction
pub mod Granted
pub mod Approved
pub mod Effects
pub mod Replay
pub mod Redacted
pub mod Outcomes
pub mod Safe
pub mod Eligible
mod Tests
mod SafeTests
use rygnal_core.Common.{
  ℕ, String, Bool, true, false, not, ◌&&◌, ◌||◌, List, [], ◌∷◌, ◌++◌, Option, none, some,
  if◌then◌else◌, ◌==◌, all, any, map, nonempty, text_in, strip, truthy, lookup, nat_eq, Checked,
  Passed, ok, err, decimal, length,
}
use rygnal_core.Models.{
  Value, null, text, number, list, Values, nil, item, ApprovalStatus, ApprovalRequest,
  ApprovalDecision,
}
use rygnal_core.Policy.Equality.{value_eq}
use rygnal_core.Approval.Receipt.{Hasher, attach_approval_receipt}
use rygnal_core.Limits.{
  RiskLevel, low, medium, high, critical, risk_level_eq, PatchDiff, PatchFileDiff,
  changed_file_count,
}
use rygnal_core.Limits.Gate.{
  ChangeRiskReason, FileRiskClassification, ChangeRiskReport, overall_level,
  GuardedChangeGateDecision, blocked, evaluate_guarded_change_gate, severity_from_risk_level,
}

-- A patch with its text and the number of the changes that it leaves out.
pub record GuardedPatch : Type 0 where
  pub diff : PatchDiff
  pub patch : String
  pub ignored_file_count : ℕ

pub record PatchApprovalReason : Type 0 where
  pub code : String
  pub reason : String
  pub path : Option String
  pub risk_level : Option RiskLevel

abbrev path_eq : Option String → Option String → Bool
path_eq none none = true
path_eq (some a) (some b) = a == b
path_eq _ _ = false

abbrev same_reason : PatchApprovalReason → PatchApprovalReason → Bool
same_reason x y = x.code == y.code && path_eq x.path y.path

-- `_dedupe_reasons`: the first reason of a code and a path; `seen` are the earlier ones.
abbrev pub dedupe_reasons :
    List PatchApprovalReason → List PatchApprovalReason → List PatchApprovalReason
dedupe_reasons seen [] = []
dedupe_reasons seen (r ∷ rs) =
    let rest = dedupe_reasons seen rs in
    let more = dedupe_reasons (r ∷ seen) rs in if any (same_reason r) seen then rest else r ∷ more

abbrev is_safe_code : String → Bool
is_safe_code c = c == "documentation-change" || c == "test-change"

-- `_is_low_risk_docs_or_tests`
abbrev pub is_low_risk_docs_or_tests : FileRiskClassification → Bool
is_low_risk_docs_or_tests f =
    risk_level_eq f.risk_level low
    && (nonempty f.reasons && all (λ (r : ChangeRiskReason). is_safe_code r.code) f.reasons)

abbrev pub is_medium_or_high : RiskLevel → Bool
is_medium_or_high l = risk_level_eq l medium || risk_level_eq l high

abbrev pub reasons_of :
    Option String → (RiskLevel → Bool) → List ChangeRiskReason → List PatchApprovalReason
reasons_of path p [] = []
reasons_of path p (r ∷ rs) =
    let rest = reasons_of path p rs in
    if p r.risk_level
    then record { code = r.code; reason = r.reason; path = path; risk_level = some r.risk_level }
      ∷ rest
    else rest

-- `_file_approval_reasons`
unfoldable pub file_approval_reasons : FileRiskClassification → List PatchApprovalReason
file_approval_reasons f =
    (if is_low_risk_docs_or_tests f
      then []
      else record {
        code = "not-safe-auto-apply-file";
        reason = "Changed file is not eligible for safe auto-apply.";
        path = some f.path;
        risk_level = some f.risk_level;
      }
        ∷ [])
    ++ reasons_of (some f.path) is_medium_or_high f.reasons

abbrev pub files_approval_reasons : List FileRiskClassification → List PatchApprovalReason
files_approval_reasons [] = []
files_approval_reasons (f ∷ fs) = file_approval_reasons f ++ files_approval_reasons fs

-- `_approval_reasons`
unfoldable pub approval_reasons : GuardedPatch → ChangeRiskReport → List PatchApprovalReason
unfolding file_approval_reasons
approval_reasons p report = dedupe_reasons [] (
    (if nat_eq p.ignored_file_count 0
      then []
      else record {
        code = "ignored-workspace-changes";
        reason = "Workspace contains ignored changes outside the reviewable patch.";
        path = none;
        risk_level = none;
      }
        ∷ [])
    ++ (if risk_level_eq (overall_level report) low
        then []
        else record {
          code = "overall-risk";
          reason = "Patch risk is above the safe auto-apply threshold.";
          path = none;
          risk_level = some (overall_level report);
        }
          ∷ [])
    ++ reasons_of none (λ l. is_medium_or_high l || risk_level_eq l critical) report.report_reasons
    ++ files_approval_reasons report.files)

pub record PatchApprovalRequirement : Type 0 where
  pub required : Bool
  pub reasons : List PatchApprovalReason
  pub risk_report : ChangeRiskReport
  pub gate_decision : GuardedChangeGateDecision

-- The report and the gate's decision are those of the call.
unfoldable pub evaluate_patch_approval_requirement :
    GuardedPatch → ChangeRiskReport → GuardedChangeGateDecision → PatchApprovalRequirement
unfolding approval_reasons
evaluate_patch_approval_requirement p report gate =
    if blocked gate
    then record { required = false; reasons = []; risk_report = report; gate_decision = gate }
    else record {
      required = nonempty (approval_reasons p report);
      reasons = approval_reasons p report;
      risk_report = report;
      gate_decision = gate;
    }

abbrev blank_text : Option Value → Bool
blank_text (some (text s)) = not (truthy (strip s))
blank_text _ = true

-- `_decision_binding_metadata`
unfoldable pub decision_binding_metadata : ApprovalRequest → List (String × Value)
decision_binding_metadata r =
    ("patch_sha256", r.target) ∷ (elim (lookup "baseline_commit_sha" r.metadata) [
      | some (text s) ↦ if truthy (strip s) then ("baseline_commit_sha", text s) ∷ [] else []
      | _ ↦ []
    ])

abbrev digest_differs : Option String → Value → Bool
digest_differs none target = false
digest_differs (some sha) target = not (value_eq target (text sha))

-- `approve_patch_request`, at a time and with a reason that is redacted already. The receipt raises
-- where its payload has no canonical JSON.
unfoldable pub approve_patch_request :
    Hasher → ApprovalRequest → String → String → String → Option String → Checked ApprovalDecision
unfolding decision_binding_metadata
approve_patch_request h r decided_by decided_at reason patch_sha256 =
    if digest_differs patch_sha256 r.target
    then err "Approval request patch digest mismatch."
    else elim (attach_approval_receipt h r (record {
      approval_id = r.approval_id;
      status = ApprovalStatus.approved;
      approved = true;
      decided_by = some decided_by;
      decided_at = some decided_at;
      reason = reason;
      metadata = decision_binding_metadata r;
    })) [ none ↦ err "ApprovalReceiptPayloadError" | some d ↦ ok d ]

unfoldable pub reject_patch_request :
    ApprovalRequest → String → String → String → Option String → Checked ApprovalDecision
unfolding decision_binding_metadata
reject_patch_request r decided_by decided_at reason patch_sha256 =
    if digest_differs patch_sha256 r.target
    then err "Approval request patch digest mismatch."
    else ok (record {
      approval_id = r.approval_id;
      status = ApprovalStatus.rejected;
      approved = false;
      decided_by = some decided_by;
      decided_at = some decided_at;
      reason = reason;
      metadata = decision_binding_metadata r;
    })

abbrev paths_value : List PatchFileDiff → Values
paths_value [] = nil
paths_value (f ∷ fs) = item (text f.path) (paths_value fs)

-- Who asks, and the identifiers and the time that a new request gets.
pub record Requester : Type 0 where
  pub approval_id : String
  pub created_at : String
  pub requested_by : String
  pub agent_id : String
  pub environment : String
  pub trace_id : String

-- `create_patch_approval_request`, after the check of the paths' forms: its outcome and the summaries
-- of the risk are arguments.
unfoldable pub create_patch_approval_request :
    Passed
    → List (String × Value)
    → GuardedPatch
    → Requester
    → ChangeRiskReport
    → GuardedChangeGateDecision
    → Checked ApprovalRequest
unfolding evaluate_patch_approval_requirement
create_patch_approval_request (err e) summaries p q report gate = err e
create_patch_approval_request (ok done) summaries p q report gate =
    if blocked gate
    then err "Blocked patches cannot be approved."
    else if not (evaluate_patch_approval_requirement p report gate).required
    then err "Patch does not require approval."
    else ok (record {
      approval_id = q.approval_id;
      created_at = q.created_at;
      trace_id = q.trace_id;
      requested_by = q.requested_by;
      agent_id = q.agent_id;
      environment = q.environment;
      tool_name = "guarded_workspace";
      action = some "approve_patch_apply";
      target = text p.diff.patch_sha256;
      policy_id = some "guarded-workspace-risky-patch-approval";
      reason = "Risky guarded workspace patch requires approval before apply.";
      severity = severity_from_risk_level (overall_level report);
      risk_assessment = summaries;
      metadata =
          ("patch_sha256", text p.diff.patch_sha256)
          ∷ ("baseline_commit_sha", text p.diff.baseline_commit_sha)
          ∷ ("patch_size_bytes", number (decimal p.diff.patch_size_bytes))
          ∷ ("changed_file_count", number (decimal (changed_file_count p.diff)))
          ∷ ("files", list (paths_value p.diff.files))
          ∷ [];
    })
