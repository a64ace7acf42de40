-- ===== src/Apply/Safe.antt =====
-- src/rygnal/safe_apply.py: low-risk patches are applied without an approval, and a patch that cannot
-- be verified afterwards is taken back. Git's outcomes are arguments, as in Apply.Approved.
use rygnal_core.Common.{
  String, Bool, true, false, not, ◌&&◌, ◌||◌, List, [], ◌∷◌, ◌++◌, Option, none, some,
  if◌then◌else◌, ◌==◌, any, concat, map, nat_eq, nonempty, starts_with, truthy, Checked, Passed, ok,
  err, ◌>>=◌,
}
use rygnal_core.Limits.{low, risk_level_eq, PatchFileDiff, changed_file_count}
use rygnal_core.Limits.Gate.{
  ChangeRiskReason, FileRiskClassification, ChangeRiskReport, GuardedChangeGateDecision,
  overall_level, blocked,
}
use rygnal_core.Apply.{GuardedPatch, is_low_risk_docs_or_tests}

pub record SafePatchSkipReason : Type 0 where
  pub code : String
  pub reason : String
  pub path : Option String

abbrev skip_path_eq : Option String → Option String → Bool
skip_path_eq none none = true
skip_path_eq (some a) (some b) = a == b
skip_path_eq _ _ = false

abbrev same_skip : SafePatchSkipReason → SafePatchSkipReason → Bool
same_skip x y = x.code == y.code && skip_path_eq x.path y.path

-- `_dedupe_reasons`; `seen` are the earlier reasons.
abbrev pub dedupe_skips :
    List SafePatchSkipReason → List SafePatchSkipReason → List SafePatchSkipReason
dedupe_skips seen [] = []
dedupe_skips seen (r ∷ rs) =
    let rest = dedupe_skips seen rs in
    let more = dedupe_skips (r ∷ seen) rs in if any (same_skip r) seen then rest else r ∷ more

abbrev skip_when : Bool → String → String → Option String → List SafePatchSkipReason
skip_when true code reason path = record { code = code; reason = reason; path = path } ∷ []
skip_when false code reason path = []

-- A mode that is set and is not empty.
abbrev mode_is : Option String → String → Bool
mode_is none m = false
mode_is (some s) m = s == m

abbrev is_unsafe_mode : Option String → Bool
is_unsafe_mode none = false
is_unsafe_mode (some s) = truthy s && not (s == "100644")

-- `_unsafe_mode_skip_reason`, as a list of at most one reason.
unfoldable pub unsafe_mode_skip_reason : FileRiskClassification → List SafePatchSkipReason
unsafe_mode_skip_reason f =
    if mode_is f.old_mode "120000" || mode_is f.new_mode "120000"
    then skip_when true "symlink-mode" "Symlink metadata is not eligible for auto-apply."
        (some f.path)
    else if mode_is f.old_mode "100755" || mode_is f.new_mode "100755"
    then skip_when true "executable-mode" "Executable file metadata is not eligible for auto-apply."
        (some f.path)
    else if f.mode_changed
    then skip_when true "mode-change" "File mode changes are not eligible for auto-apply."
        (some f.path)
    else skip_when (is_unsafe_mode f.old_mode || is_unsafe_mode f.new_mode) "unsupported-file-mode"
        "Unsupported file mode is not eligible for auto-apply." (some f.path)

-- `_is_docs_or_tests_only` has the tests of `_is_low_risk_docs_or_tests`.
abbrev pub file_skip_reasons : List FileRiskClassification → List SafePatchSkipReason
file_skip_reasons [] = []
file_skip_reasons (f ∷ fs) =
    skip_when (not (is_low_risk_docs_or_tests f)) "not-docs-or-tests-only"
      "Only documentation and test-only patches may be auto-applied." (some f.path)
    ++ skip_when f.binary "binary-file-change" "Binary changes are not eligible for auto-apply."
        (some f.path)
    ++ unsafe_mode_skip_reason f
    ++ file_skip_reasons fs

abbrev is_diff_code : String → Bool
is_diff_code c = starts_with c "large-diff-" || starts_with c "hard-diff-"

abbrev pub report_skip_reasons : List ChangeRiskReason → List SafePatchSkipReason
report_skip_reasons [] = []
report_skip_reasons (r ∷ rs) =
    skip_when (is_diff_code r.code) r.code r.reason none ++ report_skip_reasons rs

-- The reasons of `_auto_apply_skip_reasons` before equal ones are dropped.
abbrev pub all_skip_reasons :
    GuardedPatch → ChangeRiskReport → GuardedChangeGateDecision → List SafePatchSkipReason
all_skip_reasons p report gate =
    skip_when (blocked gate) "blocked-by-change-gate"
      "Patch was blocked by the dangerous-change gate." none
    ++ skip_when (nat_eq (changed_file_count p.diff) 0) "empty-patch"
        "Patch has no changed files to apply." none
    ++ skip_when (not (nat_eq p.ignored_file_count 0)) "ignored-workspace-changes"
        "Guarded workspace contains ignored changes outside the patch." none
    ++ skip_when (not (risk_level_eq (overall_level report) low)) "not-low-risk"
        "Only low-risk patches may be auto-applied." none
    ++ report_skip_reasons report.report_reasons
    ++ file_skip_reasons report.files

-- `_auto_apply_skip_reasons`
unfoldable pub auto_apply_skip_reasons :
    GuardedPatch → ChangeRiskReport → GuardedChangeGateDecision → List SafePatchSkipReason
auto_apply_skip_reasons p report gate = dedupe_skips [] (all_skip_reasons p report gate)

pub data SafePatchApplyOutcome : Type 0 where
  applied skipped : SafePatchApplyOutcome

pub record SafePatchApplyResult : Type 0 where
  pub outcome : SafePatchApplyOutcome
  pub target_repo_path : String
  pub patch_sha256 : String
  pub baseline_commit_sha : String
  pub files : List String
  pub risk_report : ChangeRiskReport
  pub skip_reasons : List SafePatchSkipReason

-- What a call finds outside. `checked` is the outcome of the checks before the reasons: the
-- repository, the paths, the patch's digest and the baseline. `verified` compares the repository with
-- the patch; `undone` is the reverse application, the baseline and the status after it.
pub record SafeSurroundings : Type 0 where
  pub checked : Passed
  pub patch_applies : Passed
  pub patch_applied : Passed
  pub verified : Passed
  pub has_logger : Bool
  pub written : Passed
  pub undone : Passed

-- `_result`
abbrev safe_result :
    SafePatchApplyOutcome
    → String
    → GuardedPatch
    → ChangeRiskReport
    → List SafePatchSkipReason
    → SafePatchApplyResult
safe_result outcome target p report skips = record {
  outcome = outcome;
  target_repo_path = target;
  patch_sha256 = p.diff.patch_sha256;
  baseline_commit_sha = p.diff.baseline_commit_sha;
  files = map (λ (f : PatchFileDiff). f.path) p.diff.files;
  risk_report = report;
  skip_reasons = skips;
}

-- `_rollback_after_failed_apply` always raises.
abbrev rollback_after_failed_apply : SafeSurroundings → String → String
rollback_after_failed_apply w failure = elim (w.undone) [
  | err e ↦
      concat
        ("Automatic apply failed and rollback could not restore the trusted repository: " ∷ e ∷ [])
  | ok done ↦ concat (
      "Automatic apply failed after mutation; the trusted repository was rolled back safely: "
      ∷ failure ∷ [])
]

abbrev log_safe : SafeSurroundings → Passed
log_safe w = if w.has_logger then w.written else ok tt

-- The part after the patch was applied: it is verified and logged, or taken back.
unfoldable pub confirm_applied :
    SafeSurroundings → SafePatchApplyResult → Checked SafePatchApplyResult
confirm_applied w result = elim (w.verified >>= λ same. log_safe w) [
  | err e ↦ err (rollback_after_failed_apply w e)
  | ok done ↦ ok result
]

unfoldable pub auto_apply_safe_patch :
    SafeSurroundings
    → String
    → GuardedPatch
    → ChangeRiskReport
    → GuardedChangeGateDecision
    → Checked SafePatchApplyResult
unfolding auto_apply_skip_reasons confirm_applied
auto_apply_safe_patch w target p report gate =
    let skips = auto_apply_skip_reasons p report gate in
    w.checked >>= λ done.
    if nonempty skips
    then ok (safe_result skipped target p report skips)
    else w.patch_applies >>= λ fits.
        w.patch_applied >>= λ changed. confirm_applied w (safe_result applied target p report [])
