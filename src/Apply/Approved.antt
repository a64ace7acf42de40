-- ===== src/Apply/Approved.antt =====
-- `apply_approved_patch` of src/rygnal/approved_apply.py: a patch is applied under an approval, once.
-- The outcomes of Git, of the files and of the audit log's reads and writes are arguments of a call.
use rygnal_core.Common.{
  ℕ, String, Bool, true, false, not, ◌&&◌, List, [], ◌∷◌, ◌++◌, Option, none, some, if◌then◌else◌,
  ◌==◌, any, concat, filter, map, lookup, lower, strip, truthy, text_in, Checked, Passed, ok, err,
  ◌>>=◌,
}
use rygnal_core.Models.{
  Value, null, bool, number, text, list, dict, nil, item, end, field, ApprovalRequest,
  ApprovalDecision,
}
use rygnal_core.Approval.Receipt.{Hasher}
use rygnal_core.Limits.{PatchFileDiff}
use rygnal_core.Limits.Gate.{ChangeRiskReport, evaluate_guarded_change_gate, blocked}
use rygnal_core.Apply.{GuardedPatch, evaluate_patch_approval_requirement}
use rygnal_core.Apply.Redaction.{redact_metadata}
use rygnal_core.Apply.Granted.{Clock, is_text, assert_patch_approval_granted}

-- The approval, the patch's digest and its baseline.
abbrev pub UseKey : Type 0
UseKey = String × String × String

abbrev pub key_eq : UseKey → UseKey → Bool
key_eq j k = j.0 == k.0 && (j.1 == k.1 && j.2 == k.2)

abbrev pub key_in : UseKey → List UseKey → Bool
key_in k ks = any (key_eq k) ks

-- `_approval_use_key`
abbrev pub approval_use_key : ApprovalRequest → GuardedPatch → UseKey
approval_use_key r p = (r.approval_id, p.diff.patch_sha256, p.diff.baseline_commit_sha)

-- An audit event, as far as the replay protection reads it.
pub record ApplyEvent : Type 0 where
  pub policy_id : Option String
  pub metadata : List (String × Value)

abbrev apply_policy_id : String
apply_policy_id = "guarded-workspace-approved-patch-apply"

-- What a call finds outside: the check of the paths (src/rygnal/path_safety.py), Git's answers, with
-- the top level as a resolved path, whether the log can be read and written, and what redaction does
-- to a text.
pub record Surroundings : Type 0 where
  pub is_directory : Bool
  pub top_level : Checked String
  pub paths_safe : Passed
  pub status : Checked String
  pub head : Checked String
  pub patch_applies : Passed
  pub patch_applied : Passed
  pub has_logger : Bool
  pub readable : Passed
  pub written : Passed
  pub redact_sensitive_string : String → String

-- `_USED_PATCH_APPROVALS` of the process, the events of the log that this module writes (no other is
-- of its policy; all calls have the same log), and the uses for which Git has applied a patch, the latest first.
pub record State : Type 0 where
  pub used : List UseKey
  pub events : List ApplyEvent
  pub applied : List UseKey

pub record ApprovedPatchApplyResult : Type 0 where
  pub target_repo_path : String
  pub patch_sha256 : String
  pub baseline_commit_sha : String
  pub approval_id : String
  pub approved_by : Option String
  pub files : List String
  pub risk_report : ChangeRiskReport

-- What a call is given; the repository is a resolved path.
pub record Call : Type 0 where
  pub target_repo : String
  pub patch : GuardedPatch
  pub request : ApprovalRequest
  pub decision : ApprovalDecision
  pub report : ChangeRiskReport
  pub now : ℕ

abbrev supported_policy_ids : List String
supported_policy_ids =
    "guarded-workspace-risky-patch-approval" ∷ "guarded-workspace-intent-approval"
    ∷ "guarded-workspace-non-auto-apply-approval" ∷ "guarded-workspace-explicit-approval" ∷ []

abbrev is_supported : Option String → Bool
is_supported none = false
is_supported (some s) = text_in s supported_policy_ids

abbrev action_is : Option String → String → Bool
action_is none t = false
action_is (some s) t = s == t

-- `_validate_request_for_apply`
unfoldable pub validate_request_for_apply : ApprovalRequest → Passed
validate_request_for_apply r =
    if not (r.tool_name == "guarded_workspace")
    then err "Approval request tool mismatch."
    else if not (action_is r.action "approve_patch_apply")
    then err "Approval request action mismatch."
    else if not (is_supported r.policy_id)
    then err "Approval request policy mismatch."
    else ok tt

-- `_ensure_git_repo_root`
unfoldable pub ensure_git_repo_root : Surroundings → String → Passed
ensure_git_repo_root w path =
    if not w.is_directory
    then err (concat ("Target repository does not exist: " ∷ path ∷ []))
    else w.top_level >>= λ root.
        if strip root == path
        then ok tt
        else err (concat ("Target path is not the Git repository root: " ∷ path ∷ []))

-- `_ensure_clean_repo`
abbrev pub ensure_clean_repo : Surroundings → Passed
ensure_clean_repo w = w.status >>= λ out.
    if truthy (strip out) then err "Target repository must be clean before apply." else ok tt

-- `_ensure_target_at_baseline`
unfoldable pub ensure_target_at_baseline : Surroundings → String → Passed
ensure_target_at_baseline w baseline = w.head >>= λ out.
    if lower (strip out) == lower baseline
    then ok tt
    else err "Target repository HEAD does not match guarded patch baseline."

-- `bool(value)` of a JSON value: what is empty or zero, as Python prints it, is false.
abbrev pub truth : Value → Bool
truth null = false
truth (bool b) = b
truth (number n) = not (text_in n ("0" ∷ "0.0" ∷ "-0.0" ∷ []))
truth (text s) = truthy s
truth (list nil) = false
truth (list (item v vs)) = true
truth (dict end) = false
truth (dict (field key v f)) = true

-- `bool(metadata.get("forced_approval", False))`
abbrev pub is_forced : Option Value → Bool
is_forced none = false
is_forced (some v) = truth v

abbrev pub ensure_requirement : Call → Passed
ensure_requirement c =
    let gate = evaluate_guarded_change_gate c.report in
    if blocked gate
    then err "Blocked patches cannot be applied."
    else if not (evaluate_patch_approval_requirement c.patch c.report gate).required
        && not (is_forced (lookup "forced_approval" c.request.metadata))
    then err "Patch does not require approval; use the safe auto-apply flow."
    else ok tt

-- The checks before an approval is reserved.
unfoldable pub ensure_applicable : Hasher → Clock → Surroundings → Call → Passed
unfolding ensure_git_repo_root validate_request_for_apply ensure_target_at_baseline
ensure_applicable h clock w c = do
  root ← ensure_git_repo_root w c.target_repo
  safe ← w.paths_safe
  required ← ensure_requirement c
  granted ← assert_patch_approval_granted h clock c.request c.decision c.patch c.now 3600
  valid ← validate_request_for_apply c.request
  clean ← ensure_clean_repo w
  ensure_target_at_baseline w c.patch.diff.baseline_commit_sha

-- `_approved_patch_apply_event_matches_key`, of an event of the policy
unfoldable pub event_matches_key : UseKey → ApplyEvent → Bool
event_matches_key k e =
    action_is e.policy_id apply_policy_id
    && (is_text (lookup "approval_id" e.metadata) k.0
        && (is_text (lookup "patch_sha256" e.metadata) k.1
            && is_text (lookup "baseline_commit_sha" e.metadata) k.2))

abbrev already_used : String
already_used = "Approval has already been used for this guarded patch."

-- `_ensure_approval_not_previously_applied`
unfoldable pub ensure_approval_not_previously_applied :
    Surroundings → UseKey → List ApplyEvent → Passed
unfolding event_matches_key
ensure_approval_not_previously_applied w k events =
    if not w.has_logger
    then err "Approved patch apply requires an audit logger for durable replay protection."
    else w.readable >>= λ read. if any (event_matches_key k) events then err already_used else ok tt

-- `_release_approval_use`: `discard` of the key.
abbrev pub release_approval_use : UseKey → List UseKey → List UseKey
release_approval_use k ks = filter (λ j. not (key_eq k j)) ks

-- The event that `write_approved_patch_apply_audit_event` logs: the fields of its metadata that are
-- read again, as `log_decision` redacts them.
abbrev pub apply_event : Surroundings → UseKey → ApplyEvent
apply_event w k = record {
  policy_id = some apply_policy_id;
  metadata = redact_metadata w.redact_sensitive_string (
      ("approval_id", text k.0)
      ∷ ("patch_sha256", text k.1)
      ∷ ("baseline_commit_sha", text k.2)
      ∷ []);
}

abbrev pub result_of : Call → ApprovedPatchApplyResult
result_of c = record {
  target_repo_path = c.target_repo;
  patch_sha256 = c.patch.diff.patch_sha256;
  baseline_commit_sha = c.patch.diff.baseline_commit_sha;
  approval_id = c.request.approval_id;
  approved_by = c.decision.decided_by;
  files = map (λ (f : PatchFileDiff). f.path) c.patch.diff.files;
  risk_report = c.report;
}

-- The audit event of a patch that Git has applied; an error of the log is raised after it.
unfoldable pub log_applied :
    Surroundings → Call → UseKey → State → Checked ApprovedPatchApplyResult × State
log_applied w c k s = elim (w.written) [
  | err e ↦ (err e, s)
  | ok done ↦ (ok (result_of c), record s { events = s.events ++ apply_event w k ∷ [] })
]

-- The approval is reserved; it is released where Git fails.
unfoldable pub apply_reserved :
    Surroundings → Call → UseKey → State → Checked ApprovedPatchApplyResult × State
unfolding log_applied
apply_reserved w c k s =
    if key_in k s.used
    then (err already_used, s)
    else elim (w.patch_applies >>= λ done. w.patch_applied) [
      | err e ↦ (err e, record s { used = release_approval_use k (k ∷ s.used) })
      | ok done ↦ log_applied w c k (record s { used = k ∷ s.used; applied = k ∷ s.applied })
    ]

unfoldable pub apply_approved_patch :
    Hasher → Clock → Surroundings → Call → State → Checked ApprovedPatchApplyResult × State
unfolding ensure_applicable ensure_approval_not_previously_applied apply_reserved
apply_approved_patch h clock w c s =
    let k = approval_use_key c.request c.patch in
    elim (ensure_applicable h clock w c >>= λ done.
    ensure_approval_not_previously_applied w k s.events) [
      | err e ↦ (err e, s)
      | ok done ↦ apply_reserved w c k s
    ]
