-- ===== src/Apply/Tests.antt =====
-- An approved patch, a Git that fails and one that works, and the theorems applied to them.
use rygnal_core.Common.{
  Bool, true, false, ◌≡◌, refl, arith, eq_iff, none, [], ◌∷◌, some, Checked, ok, err, strip, lower,
  includes, ◌==◌, if◌then◌else◌,
}
use rygnal_core.Models.{text, Severity, ApprovalStatus, ApprovalRequest, ApprovalDecision}
use rygnal_core.Policy.Equality.{value_eq}
use rygnal_core.Approval.State.{validate_transition}
use rygnal_core.Approval.Receipt.{Hasher, verify_approval_receipt, verify_expected}
use rygnal_core.Limits.{RiskLevel}
use rygnal_core.Limits.Gate.{ChangeRiskReport, evaluate_guarded_change_gate, blocked}
use rygnal_core.Apply.{
  GuardedPatch, Requester, file_approval_reasons, approval_reasons,
  evaluate_patch_approval_requirement, create_patch_approval_request,
}
use rygnal_core.Apply.Redaction.{redact_metadata, redact_sensitive_value, is_sensitive_key}
use rygnal_core.Apply.Granted.{
  Clock, ensure_times, ensure_patch_approval_not_expired, assert_approval_receipt_valid,
  ensure_bound, assert_patch_approval_granted,
}
use rygnal_core.Apply.Approved.{
  Surroundings, State, Call, approval_use_key, ensure_git_repo_root, validate_request_for_apply,
  ensure_target_at_baseline, ensure_applicable, event_matches_key,
  ensure_approval_not_previously_applied, log_applied, apply_reserved, apply_approved_patch,
  result_of,
}
use rygnal_core.Apply.Replay.{
  Distinct, Calls, done, call, used_once, Runs, finished, called, restarted, never_replayed,
}
use rygnal_core.Apply.Redacted.{apply-redacted}
use rygnal_core.Apply.Outcomes.{IsGranted, applied-IsGranted, recovered, apply-retry}

abbrev hasher : Hasher
hasher r d = some "hash"

abbrev clock : Clock
clock s = some (if s == "created" then 10 else 20)

abbrev patch : GuardedPatch
patch = record {
  diff = record {
    baseline_commit_sha = "base";
    patch_sha256 = "sha";
    patch_size_bytes = 10;
    files =
        record { path = "src/a.py"; additions = some 1; deletions = some 0; binary = false } ∷ [];
  };
  patch = "diff";
  ignored_file_count = 0;
}

abbrev report : ChangeRiskReport
report = record {
  baseline_commit_sha = "base";
  patch_sha256 = "sha";
  files =
      record {
        path = "src/a.py";
        risk_level = RiskLevel.high;
        reasons = [];
        binary = false;
        old_mode = none;
        new_mode = none;
        mode_changed = false;
      }
      ∷ [];
  report_reasons = [];
}

abbrev request : ApprovalRequest
request = record {
  approval_id = "a1";
  created_at = "created";
  trace_id = "t";
  requested_by = "ann";
  agent_id = "agent";
  environment = "local";
  tool_name = "guarded_workspace";
  action = some "approve_patch_apply";
  target = text "sha";
  policy_id = some "guarded-workspace-risky-patch-approval";
  reason = "a risky patch";
  severity = Severity.high;
  risk_assessment = [];
  metadata = ("baseline_commit_sha", text "base") ∷ [];
}

abbrev decision : ApprovalDecision
decision = record {
  approval_id = "a1";
  status = ApprovalStatus.approved;
  approved = true;
  decided_by = some "bob";
  decided_at = some "decided";
  reason = "reviewed";
  metadata =
      ("patch_sha256", text "sha")
      ∷ ("baseline_commit_sha", text "base")
      ∷ ("approval_receipt_hash", text "hash")
      ∷ [];
}

abbrev attempt : Call
attempt = record {
  target_repo = "/repo";
  patch = patch;
  request = request;
  decision = decision;
  report = report;
  now = 30;
}

abbrev failing : Surroundings
failing = record {
  is_directory = true;
  top_level = ok "/repo\n";
  paths_safe = ok tt;
  status = ok "";
  head = ok "BASE\n";
  patch_applies = err "error: patch does not apply";
  patch_applied = ok tt;
  has_logger = true;
  readable = ok tt;
  written = ok tt;
  redact_sensitive_string = λ s. s;
}

abbrev working : Surroundings
working = recovered failing

abbrev start : State
start = record { used = []; events = []; applied = [] }

checks_passed : ensure_applicable hasher clock failing attempt ≡ ok tt
unfolding ensure_applicable ensure_git_repo_root strip validate_request_for_apply
    ensure_target_at_baseline lower assert_patch_approval_granted ensure_bound
    ensure_patch_approval_not_expired ensure_times assert_approval_receipt_valid
    verify_approval_receipt verify_expected validate_transition value_eq
    evaluate_guarded_change_gate evaluate_patch_approval_requirement approval_reasons
    file_approval_reasons
checks_passed = refl

nothing_logged :
    ensure_approval_not_previously_applied failing (approval_use_key request patch) [] ≡ ok tt
unfolding ensure_approval_not_previously_applied
nothing_logged = refl

apply-retry_example :
    let t = (apply_approved_patch hasher clock failing attempt start).1 in
    (t ≡ start) × ((apply_approved_patch hasher clock working attempt t).0 ≡ ok (result_of attempt))
apply-retry_example =
    apply-retry hasher clock failing attempt start "error: patch does not apply" checks_passed
      nothing_logged refl refl

working_applied :
    (apply_approved_patch hasher clock working attempt start).1.applied
    ≡ approval_use_key request patch ∷ []
unfolding apply_approved_patch apply_reserved log_applied ensure_approval_not_previously_applied
    ensure_applicable ensure_git_repo_root strip validate_request_for_apply
    ensure_target_at_baseline lower assert_patch_approval_granted ensure_bound
    ensure_patch_approval_not_expired ensure_times assert_approval_receipt_valid
    verify_approval_receipt verify_expected validate_transition value_eq
    evaluate_guarded_change_gate evaluate_patch_approval_requirement approval_reasons
    file_approval_reasons event_matches_key
working_applied = refl

applied-IsGranted_example :
    (blocked (evaluate_guarded_change_gate report) ≡ false) × IsGranted hasher clock attempt
applied-IsGranted_example = applied-IsGranted hasher clock working attempt start working_applied

abbrev once : State
once = (apply_approved_patch hasher clock working attempt start).1

abbrev twice : State
twice = (apply_approved_patch hasher clock working attempt once).1

-- The second call is refused, after a restart too.
abbrev forgetful : State
forgetful = record once { used = [] }

replay_refused :
    (apply_approved_patch hasher clock working attempt forgetful).0
    ≡ err "Approval has already been used for this guarded patch."
unfolding apply_approved_patch apply_reserved log_applied ensure_approval_not_previously_applied
    ensure_applicable ensure_git_repo_root strip validate_request_for_apply
    ensure_target_at_baseline lower assert_patch_approval_granted ensure_bound
    ensure_patch_approval_not_expired ensure_times assert_approval_receipt_valid
    verify_approval_receipt verify_expected validate_transition value_eq
    evaluate_guarded_change_gate evaluate_patch_approval_requirement approval_reasons
    file_approval_reasons event_matches_key redact_metadata redact_sensitive_value is_sensitive_key
    includes
replay_refused = refl

two-Calls : Calls hasher clock start twice
two-Calls = call working attempt start (call working attempt once (done twice))

used_once_example : Distinct twice.applied
used_once_example = used_once hasher clock start twice refl two-Calls

-- A redaction of a text with a secret changes the identifier of the approval.
abbrev redacting : Surroundings
redacting = record working { redact_sensitive_string = λ s. if s == "a1" then "[REDACTED]" else s }

redacting_checks : ensure_applicable hasher clock redacting attempt ≡ ok tt
unfolding ensure_applicable ensure_git_repo_root strip validate_request_for_apply
    ensure_target_at_baseline lower assert_patch_approval_granted ensure_bound
    ensure_patch_approval_not_expired ensure_times assert_approval_receipt_valid
    verify_approval_receipt verify_expected validate_transition value_eq
    evaluate_guarded_change_gate evaluate_patch_approval_requirement approval_reasons
    file_approval_reasons
redacting_checks = refl

redacting_unlogged :
    ensure_approval_not_previously_applied redacting (approval_use_key request patch) [] ≡ ok tt
unfolding ensure_approval_not_previously_applied
redacting_unlogged = refl

apply-redacted_example :
    (apply_approved_patch hasher clock redacting attempt
      (record (apply_approved_patch hasher clock redacting attempt start).1 {
        used = [];
      })).1.applied
    ≡ approval_use_key request patch ∷ approval_use_key request patch ∷ []
apply-redacted_example =
    apply-redacted hasher clock redacting attempt start redacting_checks redacting_unlogged refl
      refl refl (λ e. ground (arith, eq_iff "[REDACTED]" "a1"))

abbrev later : State
later = (apply_approved_patch hasher clock working attempt forgetful).1

restarted-Runs : Runs hasher clock start later
restarted-Runs =
    called working attempt start refl (refl, refl, refl)
      (restarted once (called working attempt forgetful refl (refl, refl, refl) (finished later)))

never_replayed_example : Distinct later.applied
never_replayed_example = never_replayed hasher clock start later refl restarted-Runs

abbrev ann : Requester
ann = record {
  approval_id = "a1";
  created_at = "created";
  requested_by = "ann";
  agent_id = "agent";
  environment = "local";
  trace_id = "t";
}

abbrev raised : {A : Type 0} → Checked A → Bool
raised (ok a) = false
raised (err e) = true

request_created :
    raised (
      create_patch_approval_request
        (ok tt)
        []
        patch
        ann
        report
        (evaluate_guarded_change_gate report))
    ≡ false
unfolding create_patch_approval_request evaluate_guarded_change_gate
    evaluate_patch_approval_requirement approval_reasons file_approval_reasons
request_created = refl
