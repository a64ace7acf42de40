-- ===== src/Approval/State.antt =====
-- src/rygnal/approval_state.py: the transitions of an approval.
use rygnal_core.Common.{String, Bool, true, false, List, [], ◌∷◌, if◌then◌else◌, concat}
use rygnal_core.Models.{ApprovalStatus, approval_status_value}

pub record ApprovalStateTransitionResult : Type 0 where
  pub allowed : Bool
  pub reason : String
  pub metadata : List (String × String)

-- Membership of `_ALLOWED_TRANSITIONS`.
abbrev pub is_allowed_transition : ApprovalStatus → ApprovalStatus → Bool
is_allowed_transition ApprovalStatus.pending ApprovalStatus.approved = true
is_allowed_transition ApprovalStatus.pending ApprovalStatus.rejected = true
is_allowed_transition _ _ = false

unfoldable pub validate_transition : ApprovalStatus → ApprovalStatus → ApprovalStateTransitionResult
validate_transition current next =
    if is_allowed_transition current next
    then record {
      allowed = true;
      reason = "Approval state transition allowed.";
      metadata =
          ("current_status", approval_status_value current)
          ∷ ("next_status", approval_status_value next)
          ∷ [];
    }
    else record {
      allowed = false;
      reason = concat (
          "Invalid approval state transition: "
          ∷ approval_status_value current
          ∷ " -> "
          ∷ approval_status_value next
          ∷ "."
          ∷ []);
      metadata =
          ("guard", "approval-state-transition")
          ∷ ("current_status", approval_status_value current)
          ∷ ("next_status", approval_status_value next)
          ∷ [];
    }
