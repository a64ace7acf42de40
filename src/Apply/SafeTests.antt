-- ===== src/Apply/SafeTests.antt =====
-- A change of documentation that is applied at once, one that is taken back, and a theorem applied to
-- the first.
use rygnal_core.Common.{true, false, ◌≡◌, refl, [], ◌∷◌, some, ok, err, arith}
use rygnal_core.Limits.{RiskLevel}
use rygnal_core.Limits.Gate.{
  ChangeRiskReport, GuardedChangeGateDecision, evaluate_guarded_change_gate,
}
use rygnal_core.Apply.{GuardedPatch, evaluate_patch_approval_requirement}
use rygnal_core.Apply.Safe.{
  SafePatchApplyOutcome, SafePatchApplyResult, SafeSurroundings, unsafe_mode_skip_reason,
  auto_apply_skip_reasons, confirm_applied, auto_apply_safe_patch,
}
use rygnal_core.Apply.Eligible.{auto_apply-unrequired}

abbrev readme : GuardedPatch
readme = record {
  diff = record {
    baseline_commit_sha = "base";
    patch_sha256 = "sha";
    patch_size_bytes = 10;
    files =
        record { path = "README.md"; additions = some 1; deletions = some 0; binary = false } ∷ [];
  };
  patch = "diff";
  ignored_file_count = 0;
}

abbrev report : ChangeRiskReport
report = record {
  baseline_commit_sha = "base";
  patch_sha256 = "sha";
  files =
      record {
        path = "README.md";
        risk_level = RiskLevel.low;
        reasons =
            record {
              code = "documentation-change";
              risk_level = RiskLevel.low;
              reason = "documentation";
            }
            ∷ [];
        binary = false;
        old_mode = some "100644";
        new_mode = some "100644";
        mode_changed = false;
      }
      ∷ [];
  report_reasons = [];
}

abbrev gate : GuardedChangeGateDecision
gate = record { outcome = rygnal_core.Limits.Gate.allow; risk_report = report; block_reasons = [] }

abbrev working : SafeSurroundings
working = record {
  checked = ok tt;
  patch_applies = ok tt;
  patch_applied = ok tt;
  verified = ok tt;
  has_logger = true;
  written = ok tt;
  undone = ok tt;
}

abbrev result : SafePatchApplyResult
result = record {
  outcome = SafePatchApplyOutcome.applied;
  target_repo_path = "/repo";
  patch_sha256 = "sha";
  baseline_commit_sha = "base";
  files = "README.md" ∷ [];
  risk_report = report;
  skip_reasons = [];
}

readme_applied : auto_apply_safe_patch working "/repo" readme report gate ≡ ok result
unfolding auto_apply_safe_patch auto_apply_skip_reasons unsafe_mode_skip_reason confirm_applied
readme_applied = refl

log_failure_undone :
    auto_apply_safe_patch (record working { written = err "disk full" }) "/repo" readme report gate
    ≡ err
        "Automatic apply failed after mutation; the trusted repository was rolled back safely: disk full"
unfolding auto_apply_safe_patch auto_apply_skip_reasons unsafe_mode_skip_reason confirm_applied
log_failure_undone = refl

auto_apply-unrequired_example :
    (evaluate_patch_approval_requirement readme report gate).required ≡ false
auto_apply-unrequired_example =
    auto_apply-unrequired working "/repo" readme report gate result ((omega arith, tt), tt)
      readme_applied refl
