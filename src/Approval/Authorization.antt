-- ===== src/Approval/Authorization.antt =====
-- `ApprovalAuthorizationEngine` of src/rygnal/approval_authorization.py.
use rygnal_core.Common.{
  String, Bool, true, false, not, List, [], ◌∷◌, Option, none, some, if◌then◌else◌, concat, lower,
  strip, truthy, ◌==◌, nonempty, any, lookup, merge, text_in,
}
use rygnal_core.Models.{
  text, ApprovalStatus, approval_status_eq, Severity, severity_eq, RolePermission, ApprovalRequest,
  ApprovalDecision,
}
use rygnal_core.Approval.State.{validate_transition}

pub record ApprovalReviewerPermission : Type 0 where
  pub role : String
  pub can_approve : Bool

pub record ApprovalAuthorizationResult : Type 0 where
  pub allowed : Bool
  pub reason : String
  pub metadata : List (String × String)

pub record ApprovalAuthorizationEngine : Type 0 where
  pub reviewer_permissions : List (String × ApprovalReviewerPermission)
  pub role_permissions : List (String × RolePermission)

abbrev allow : String → List (String × String) → ApprovalAuthorizationResult
allow reason metadata = record { allowed = true; reason = reason; metadata = metadata }

abbrev deny : String → List (String × String) → ApprovalAuthorizationResult
deny reason metadata = record { allowed = false; reason = reason; metadata = metadata }

unfoldable pub deny_role_permission :
    String → String → List (String × String) → ApprovalAuthorizationResult
deny_role_permission role constraint metadata =
    deny
      (concat
        ("Reviewer role '" ∷ role ∷ "' is not permitted to approve this " ∷ constraint ∷ "." ∷ []))
      (merge metadata (("guard", "role-permission") ∷ ("denied_constraint", constraint) ∷ []))

-- `x not in allowed`, where None stands for no constraint.
abbrev pub action_permitted : Option String → Option (List String) → Bool
action_permitted a none = true
action_permitted none (some allowed) = false
action_permitted (some a) (some allowed) = text_in a allowed

abbrev pub environment_permitted : String → Option (List String) → Bool
environment_permitted e none = true
environment_permitted e (some allowed) = text_in e allowed

abbrev pub severity_permitted : Severity → List Severity → Bool
severity_permitted s allowed = any (severity_eq s) allowed

unfoldable pub authorize_role_constraints :
    ApprovalRequest → String → String → RolePermission → ApprovalAuthorizationResult
unfolding deny_role_permission
authorize_role_constraints r by role p =
    let metadata = ("reviewer_role", role) ∷ ("attempted_decided_by", by) ∷ [] in
    if not (severity_permitted r.severity p.allowed_severities)
    then deny_role_permission role "severity" metadata
    else if not (action_permitted r.action p.allowed_actions)
    then deny_role_permission role "action" metadata
    else if not (environment_permitted r.environment p.environments)
    then deny_role_permission role "environment" metadata
    else allow "Approval decision authorized." metadata

-- `metadata.get("reviewer_role")`, where it is a text.
abbrev pub reviewer_role : ApprovalDecision → Option String
reviewer_role d = elim (lookup "reviewer_role" d.metadata) [ some (text s) ↦ some s | _ ↦ none ]

unfoldable pub missing_role : String → ApprovalAuthorizationResult
missing_role by = deny "Approval decision is missing reviewer role." (
    ("guard", "role-permission")
    ∷ ("attempted_decided_by", by)
    ∷ ("denied_constraint", "reviewer_role")
    ∷ [])

-- `_authorize_role_permission`, once a role is given.
unfoldable pub authorize_role :
    ApprovalAuthorizationEngine → ApprovalRequest → String → String → ApprovalAuthorizationResult
unfolding authorize_role_constraints missing_role
authorize_role g r by role =
    if truthy (strip role)
    then elim (lookup (lower (strip role)) g.role_permissions) [
      | none ↦ deny (concat ("Reviewer role '" ∷ role ∷ "' is not configured." ∷ [])) (
          ("guard", "role-permission")
          ∷ ("attempted_decided_by", by)
          ∷ ("reviewer_role", lower (strip role))
          ∷ ("denied_constraint", "reviewer_role")
          ∷ [])
      | some p ↦ authorize_role_constraints r by (lower (strip role)) p
    ]
    else missing_role by

unfoldable pub authorize_role_permission :
    ApprovalAuthorizationEngine
    → ApprovalRequest
    → ApprovalDecision
    → String
    → Option ApprovalAuthorizationResult
unfolding authorize_role missing_role
authorize_role_permission g r d by =
    if nonempty g.role_permissions
    then elim (reviewer_role d) [
      | none ↦ some (missing_role by)
      | some role ↦ some (authorize_role g r by role)
    ]
    else none

unfoldable pub authorize_reviewer_permission :
    ApprovalAuthorizationEngine → String → Option ApprovalAuthorizationResult
authorize_reviewer_permission g by = elim (lookup by g.reviewer_permissions) [
  | none ↦
      if nonempty g.reviewer_permissions
      then some (
          deny "Reviewer does not have approval permission."
            (("guard", "reviewer-role") ∷ ("attempted_decided_by", by) ∷ []))
      else none
  | some p ↦ some (
      if p.can_approve
      then allow "Approval decision authorized." (("reviewer_role", lower (strip p.role)) ∷ [])
      else deny (concat ("Reviewer role '" ∷ p.role ∷ "' cannot approve protected actions." ∷ [])) (
          ("guard", "reviewer-role")
          ∷ ("attempted_decided_by", by)
          ∷ ("reviewer_role", lower (strip p.role))
          ∷ []))
]

-- The permissions of a reviewer who is not the requester.
unfoldable pub authorize_reviewer :
    ApprovalAuthorizationEngine
    → ApprovalRequest
    → ApprovalDecision
    → String
    → ApprovalAuthorizationResult
unfolding authorize_role_permission authorize_reviewer_permission
authorize_reviewer g r d by = elim (authorize_role_permission g r d by) [
  | some res ↦ res
  | none ↦ elim (authorize_reviewer_permission g by) [
    | some res ↦ res
    | none ↦ allow "Approval decision authorized." []
  ]
]

unfoldable pub authorize_decided_by :
    ApprovalAuthorizationEngine
    → ApprovalRequest
    → ApprovalDecision
    → Option String
    → ApprovalAuthorizationResult
unfolding authorize_reviewer
authorize_decided_by g r d none =
    deny "Approval decision is missing reviewer identity." (("guard", "reviewer-identity") ∷ [])
authorize_decided_by g r d (some by) =
    if by == r.requested_by
    then deny "Requester cannot approve their own approval request."
        (("guard", "self-approval") ∷ ("attempted_decided_by", by) ∷ [])
    else authorize_reviewer g r d by

unfoldable pub authorize :
    ApprovalAuthorizationEngine
    → ApprovalRequest
    → ApprovalDecision
    → ApprovalStatus
    → ApprovalAuthorizationResult
unfolding validate_transition authorize_decided_by
authorize g r d current =
    let transition = validate_transition current d.status in
    if not transition.allowed
    then deny transition.reason transition.metadata
    else if approval_status_eq d.status ApprovalStatus.rejected
    then allow "Approval rejection authorized." []
    else authorize_decided_by g r d d.decided_by
