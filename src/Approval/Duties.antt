-- ===== src/Approval/Duties.antt =====
-- Separation of duties: who may approve (src/rygnal/approval_authorization.py).
use rygnal_core.Common.{
  String, true, false, ◌≡◌, ◌≢◌, ◌⊎◌, inl, inr, none, some, lower, strip, nonempty, lookup, arith,
  eq_iff, Bool-cases, Option-cases,
}
use rygnal_core.Models.{ApprovalStatus, RolePermission, ApprovalRequest, ApprovalDecision}
use rygnal_core.Approval.State.{validate_transition}
use rygnal_core.Approval.Authorization.{
  ApprovalReviewerPermission, ApprovalAuthorizationEngine, reviewer_role, severity_permitted,
  action_permitted, environment_permitted, authorize_role_constraints, authorize_role,
  authorize_role_permission, authorize_reviewer_permission, authorize_reviewer,
  authorize_decided_by, authorize, deny_role_permission, missing_role,
}

-- The constraints of a role on a request.
pub record Permits (p : RolePermission) (r : ApprovalRequest) : Type 0 where
  pub severity_ok : severity_permitted r.severity p.allowed_severities ≡ true
  pub action_ok : action_permitted r.action p.allowed_actions ≡ true
  pub environment_ok : environment_permitted r.environment p.environments ≡ true

-- The decision names a configured role, and the role permits the request.
pub record HasRole (g : ApprovalAuthorizationEngine) (r : ApprovalRequest) (d : ApprovalDecision)
    : Type 0 where
  pub role : String
  pub permission : RolePermission
  pub named : reviewer_role d ≡ some role
  pub configured : lookup (lower (strip role)) g.role_permissions ≡ some permission
  pub permits : Permits permission r

-- Where reviewers are listed and no roles are configured, the reviewer is listed as an approver.
abbrev pub MayReview : ApprovalAuthorizationEngine → String → Type 0
MayReview g by =
    (nonempty g.reviewer_permissions ≡ false)
    ⊎ ((p : ApprovalReviewerPermission) × (lookup by g.reviewer_permissions ≡ some p)
        × (p.can_approve ≡ true))

abbrev pub IsEntitled :
    ApprovalAuthorizationEngine → ApprovalRequest → ApprovalDecision → String → Type 0
IsEntitled g r d by =
    (nonempty g.role_permissions ≡ true) × HasRole g r d
    ⊎ (nonempty g.role_permissions ≡ false) × MayReview g by

authorize_role_constraints-Permits :
    (r : ApprovalRequest) (by role : String) (p : RolePermission)
    → (authorize_role_constraints r by role p).allowed ≡ true
    → Permits p r
unfolding authorize_role_constraints deny_role_permission
authorize_role_constraints-Permits r by role p h = record {
  severity_ok = ground arith;
  action_ok = ground arith;
  environment_ok = ground arith;
}

authorize_role-HasRole :
    (g : ApprovalAuthorizationEngine) (r : ApprovalRequest) (d : ApprovalDecision)
    (by role : String)
    → reviewer_role d ≡ some role
    → (authorize_role g r by role).allowed ≡ true
    → HasRole g r d
unfolding authorize_role missing_role
authorize_role-HasRole g r d by role named h =
    elim (Option-cases (lookup (lower (strip role)) g.role_permissions)) [
      | inl absent ↦ ground arith
      | inr (p, found) ↦ record {
        role = role;
        permission = p;
        named = named;
        configured = found;
        permits = authorize_role_constraints-Permits r by (lower (strip role)) p (ground arith);
      }
    ]

authorize_reviewer_permission-MayReview :
    (g : ApprovalAuthorizationEngine) (by : String)
    → nonempty g.reviewer_permissions ≡ true
    → elim (authorize_reviewer_permission g by) [ none ↦ true | some res ↦ res.allowed ] ≡ true
    → (p : ApprovalReviewerPermission) × (lookup by g.reviewer_permissions ≡ some p)
      × (p.can_approve ≡ true)
unfolding authorize_reviewer_permission
authorize_reviewer_permission-MayReview g by listed h =
    elim (Option-cases (lookup by g.reviewer_permissions)) [
      | inl absent ↦ ground arith
      | inr (p, found) ↦ (p, found, ground arith)
    ]

authorize_reviewer-IsEntitled :
    (g : ApprovalAuthorizationEngine) (r : ApprovalRequest) (d : ApprovalDecision) (by : String)
    → (authorize_reviewer g r d by).allowed ≡ true
    → IsEntitled g r d by
unfolding authorize_reviewer authorize_role_permission missing_role
authorize_reviewer-IsEntitled g r d by h = elim (Bool-cases (nonempty g.role_permissions)) [
  | inl roles ↦ elim (Option-cases (reviewer_role d)) [
    | inl absent ↦ ground arith
    | inr (role, named) ↦ inl (roles, authorize_role-HasRole g r d by role named (ground arith))
  ]
  | inr roles ↦ elim (Bool-cases (nonempty g.reviewer_permissions)) [
    | inl listed ↦
        inr (roles, inr (authorize_reviewer_permission-MayReview g by listed (ground arith)))
    | inr empty ↦ inr (roles, inl empty)
  ]
]

-- A decision that lets an approval take effect was taken on a pending request, by a named reviewer
-- who is not the requester and whom the configured roles, or else the reviewer list, entitle.
pub authorize-approved :
    (g : ApprovalAuthorizationEngine) (r : ApprovalRequest) (d : ApprovalDecision)
    (current : ApprovalStatus)
    → d.status ≡ ApprovalStatus.approved
    → (authorize g r d current).allowed ≡ true
    → (current ≡ ApprovalStatus.pending)
      × ((by : String) × (d.decided_by ≡ some by) × (by ≢ r.requested_by) × IsEntitled g r d by)
unfolding authorize validate_transition authorize_decided_by
authorize-approved g r d current s h = elim (Option-cases d.decided_by) [
  | inl absent ↦ ground arith
  | inr (by, named) ↦ (
    ground arith,
    (
      by,
      named,
      λ same. ground (arith, eq_iff by r.requested_by, same),
      authorize_reviewer-IsEntitled g r d by (ground arith),
    ),
  )
]
