-- ===== src/Apply/Granted.antt =====
-- `assert_patch_approval_granted` of src/rygnal/patch_approval.py. Times are microseconds; what
-- `datetime.fromisoformat` makes of a text, with UTC where it names no zone, is an argument.
use rygnal_core.Common.{
  ℕ, ◌+◌, String, Bool, false, not, ◌&&◌, Option, none, some, if◌then◌else◌, ◌==◌, lookup, strip,
  concat, ltb, [], ◌∷◌, Checked, Passed, ok, err, ◌>>=◌,
}
use Prim.Native.Nat.{◌*◌}
use rygnal_core.Models.{
  Value, text, ApprovalStatus, approval_status_eq, ApprovalRequest, ApprovalDecision,
}
use rygnal_core.Policy.Equality.{value_eq}
use rygnal_core.Approval.State.{validate_transition}
use rygnal_core.Approval.Receipt.{Hasher, ReceiptStatus, verify_approval_receipt}
use rygnal_core.Apply.{GuardedPatch}

-- `fromisoformat`, on the text with `+00:00` for a final `Z`; none is its `ValueError`.
abbrev pub Clock : Type 0
Clock = String → Option ℕ

-- `_parse_approval_timestamp`
abbrev pub parse_approval_timestamp : Clock → String → String → Checked ℕ
parse_approval_timestamp clock value field = elim (clock (strip value)) [
  | none ↦ err (concat ("Invalid " ∷ field ∷ "." ∷ []))
  | some t ↦ ok t
]

-- The tests on the times; `ttl` is in seconds.
unfoldable pub ensure_times : ℕ → ℕ → ℕ → ℕ → Passed
ensure_times created decided now ttl =
    if ltb decided created
    then err "Approval decision predates approval request."
    else if ltb now created
    then err "Approval request creation time is in the future."
    else if ltb now decided
    then err "Approval decision time is in the future."
    else if ltb (created + ttl * 1000000) now
    then err "Patch approval is stale or expired."
    else ok tt

abbrev pub decided_text : Option String → Checked String
decided_text none = err "Approval decision time is required."
decided_text (some s) = ok s

abbrev pub positive : ℕ → Passed
positive ttl = if ltb 0 ttl then ok tt else err "Patch approval TTL must be positive."

-- `_ensure_patch_approval_not_expired`
unfoldable pub ensure_patch_approval_not_expired :
    Clock → ApprovalRequest → ApprovalDecision → ℕ → ℕ → Passed
unfolding ensure_times
ensure_patch_approval_not_expired clock r d now ttl = do
  done ← positive ttl
  created ← parse_approval_timestamp clock r.created_at "approval request creation time"
  given ← decided_text d.decided_at
  decided ← parse_approval_timestamp clock given "approval decision time"
  ensure_times created decided now ttl

abbrev pub is_text : Option Value → String → Bool
is_text none s = false
is_text (some v) s = value_eq v (text s)

-- `assert_approval_receipt_valid`
unfoldable pub assert_approval_receipt_valid : Hasher → ApprovalRequest → ApprovalDecision → Passed
assert_approval_receipt_valid h r d = elim (verify_approval_receipt h r d) [
  | ReceiptStatus.valid ↦ ok tt
  | ReceiptStatus.missing ↦ err "ApprovalReceiptMissingError"
  | ReceiptStatus.tampered ↦ err "ApprovalReceiptTamperedError"
]

-- The tests before the times: that the request and the decision are about this patch.
unfoldable pub ensure_bound : ApprovalRequest → ApprovalDecision → GuardedPatch → Passed
ensure_bound r d p =
    let transition = validate_transition ApprovalStatus.pending d.status in
    if not transition.allowed
    then err transition.reason
    else if not (r.approval_id == d.approval_id)
    then err "Approval decision does not match request."
    else if not (value_eq r.target (text p.diff.patch_sha256))
    then err "Approval request is not bound to this patch digest."
    else if not (is_text (lookup "patch_sha256" d.metadata) p.diff.patch_sha256)
    then err "Approval decision is not bound to this patch digest."
    else if not (is_text (lookup "baseline_commit_sha" r.metadata) p.diff.baseline_commit_sha)
    then err "Approval request baseline does not match guarded patch."
    else if not (is_text (lookup "baseline_commit_sha" d.metadata) p.diff.baseline_commit_sha)
    then err "Approval decision baseline does not match guarded patch."
    else ok tt

abbrev pub ensure_approved : ApprovalDecision → Passed
ensure_approved d =
    if approval_status_eq d.status ApprovalStatus.approved && d.approved
    then ok tt
    else err "Patch approval was not granted."

unfoldable pub assert_patch_approval_granted :
    Hasher → Clock → ApprovalRequest → ApprovalDecision → GuardedPatch → ℕ → ℕ → Passed
unfolding ensure_bound ensure_patch_approval_not_expired assert_approval_receipt_valid
assert_patch_approval_granted h clock r d p now ttl = do
  bound ← ensure_bound r d p
  timely ← ensure_patch_approval_not_expired clock r d now ttl
  granted ← ensure_approved d
  assert_approval_receipt_valid h r d
