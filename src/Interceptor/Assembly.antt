-- ===== src/Interceptor/Assembly.antt =====
-- The interceptor with the policy engine and the approval workflow of this library: what a run of a
-- tool means for the policy and for the reviewer (src/rygnal/interceptor.py, approval.py).
use rygnal_core.Common.{
  String, true, ◌≡◌, ◌≢◌, sym, ap, ◌∙◌, ◌⊎◌, inl, inr, List, none, some, any, arith, Option-cases,
  eq_iff,
}
use mathlib.Core.Path.{subst}
use rygnal_core.Models.{
  Value, ApprovalStatus, Decision, RuntimeMode, ToolRequest, PolicyDecision, ApprovalRequest,
  ApprovalDecision,
}
use rygnal_core.Approval.State.{validate_transition}
use rygnal_core.Approval.Authorization.{
  ApprovalAuthorizationEngine, ApprovalAuthorizationResult, authorize,
}
use rygnal_core.Approval.Duties.{IsEntitled, authorize-approved}
use rygnal_core.Approval.Receipt.{Hasher, attach_approval_receipt}
use rygnal_core.Policy.{PolicyEngine, RiskContext, Runtime}
use rygnal_core.Policy.Evaluation.{evaluate}
use rygnal_core.Interceptor.Workflow.{
  Outside, approval_request, apply_authorization_result, request_approval, has_context,
}
use rygnal_core.Interceptor.Execution.{Tools}
use rygnal_core.Interceptor.Control.{Caught, ok, error, Parts, intercept}
use rygnal_core.Interceptor.Safety.{is_run, intercept-Cleared}

-- The receipt changes the metadata of a decision only.
attach_approval_receipt-keeps :
    (h : Hasher) (r : ApprovalRequest) (d e : ApprovalDecision)
    → attach_approval_receipt h r d ≡ some e
    → (e.status ≡ d.status) × (e.decided_by ≡ d.decided_by) × (e.approved ≡ d.approved)
unfolding attach_approval_receipt
attach_approval_receipt-keeps h r d e made = (ground arith, ground arith, ground arith)

apply_authorization_result-approved :
    (now : String) (d : ApprovalDecision) (a : ApprovalAuthorizationResult)
    → (apply_authorization_result now d a).status ≡ ApprovalStatus.approved
    → (a.allowed ≡ true)
      × (d.status ≡ ApprovalStatus.approved)
      × ((apply_authorization_result now d a).decided_by ≡ d.decided_by)
unfolding apply_authorization_result
apply_authorization_result-approved now d a s = ground arith

-- The decision that the workflow lets take effect, before its receipt.
abbrev effective : Outside → ApprovalAuthorizationEngine → ApprovalRequest → ApprovalDecision
effective o g r =
    apply_authorization_result o.utc_now_iso (o.resolver r)
      (authorize g r (o.resolver r) ApprovalStatus.pending)

request_approval-ok :
    (o : Outside) (g : ApprovalAuthorizationEngine) (q : ToolRequest) (p : PolicyDecision)
    (risk : List (String × Value)) (r : ApprovalRequest) (e : ApprovalDecision)
    → request_approval o g q p risk ≡ some (r, e)
    → (approval_request o q p risk ≡ r)
      × (attach_approval_receipt o.receipt_hash r (effective o g r) ≡ some e)
unfolding request_approval
request_approval-ok o g q p risk r e made =
    let x = approval_request o q p risk in
    elim (Option-cases (attach_approval_receipt o.receipt_hash x (effective o g x))) [
      | inl refused ↦ ground arith
      | inr (f, attached) ↦
          let same : x ≡ r = ground arith in
          let last : f ≡ e = ground arith in
          (
            same,
            subst (λ y. attach_approval_receipt o.receipt_hash y (effective o g y) ≡ some e) same
                (attached ∙ ap some last),
          )
    ]

-- An approval that the workflow returns with the status approved was given by a named reviewer who
-- is not the user of the request, and whom the roles or the reviewer list entitle.
pub request_approval-IsEntitled :
    (o : Outside) (g : ApprovalAuthorizationEngine) (q : ToolRequest) (p : PolicyDecision)
    (risk : List (String × Value)) (r : ApprovalRequest) (e : ApprovalDecision)
    → request_approval o g q p risk ≡ some (r, e)
    → e.status ≡ ApprovalStatus.approved
    → (by : String) × (e.decided_by ≡ some by) × (by ≢ q.user_id) × IsEntitled g r (o.resolver r) by
unfolding approval_request
request_approval-IsEntitled o g q p risk r e made s =
    let (same, attached) = request_approval-ok o g q p risk r e made in
    let (status, decided_by, _) =
      attach_approval_receipt-keeps o.receipt_hash r (effective o g r) e attached in
    let (allowed, approving, kept) =
      apply_authorization_result-approved o.utc_now_iso (o.resolver r)
        (authorize g r (o.resolver r) ApprovalStatus.pending) (sym status ∙ s) in
    let (_, (by, named, other, entitled)) =
      authorize-approved g r (o.resolver r) ApprovalStatus.pending approving allowed in
    (by, decided_by ∙ kept ∙ named, (λ it. other (it ∙ ap (λ x. x.requested_by) same)), entitled)

apply_authorization_result-flag :
    (now : String) (d : ApprovalDecision) (a : ApprovalAuthorizationResult)
    → (apply_authorization_result now d a).approved ≡ true
    → (d.approved ≡ true) × ((apply_authorization_result now d a).status ≡ d.status)
unfolding apply_authorization_result
apply_authorization_result-flag now d a h = ground arith

-- A resolver that never flags a decision as approved when its status is another.
abbrev pub IsCoherent : (ApprovalRequest → ApprovalDecision) → Type 0
IsCoherent resolver =
    (r : ApprovalRequest)
    → (resolver r).approved ≡ true
    → (resolver r).status ≡ ApprovalStatus.approved

request_approval-coherent :
    (o : Outside) (g : ApprovalAuthorizationEngine) (q : ToolRequest) (p : PolicyDecision)
    (risk : List (String × Value)) (r : ApprovalRequest) (e : ApprovalDecision)
    → IsCoherent o.resolver
    → request_approval o g q p risk ≡ some (r, e)
    → e.approved ≡ true
    → e.status ≡ ApprovalStatus.approved
request_approval-coherent o g q p risk r e coherent made flag =
    let (_, attached) = request_approval-ok o g q p risk r e made in
    let (status, _, approved) =
      attach_approval_receipt-keeps o.receipt_hash r (effective o g r) e attached in
    let (flagged, same) =
      apply_authorization_result-flag o.utc_now_iso (o.resolver r)
        (authorize g r (o.resolver r) ApprovalStatus.pending) (sym approved ∙ flag) in
    status ∙ same ∙ coherent r flagged

-- For a valid request, a rejection of the resolver with the request's identifier is returned as a
-- rejection with its flag as it is, whoever the reviewer is.
pub request_approval-flag :
    (o : Outside) (g : ApprovalAuthorizationEngine) (q : ToolRequest) (p : PolicyDecision)
    (risk : List (String × Value)) (r : ApprovalRequest)
    → approval_request o q p risk ≡ r
    → has_context r ≡ true
    → (o.resolver r).approval_id ≡ r.approval_id
    → (o.resolver r).status ≡ ApprovalStatus.rejected
    → (e : ApprovalDecision) × (request_approval o g q p risk ≡ some (r, e))
      × (e.status ≡ ApprovalStatus.rejected)
      × (e.approved ≡ (o.resolver r).approved)
unfolding request_approval apply_authorization_result attach_approval_receipt authorize
    validate_transition
request_approval-flag o g q p risk r made context same rejected = (
  effective o g r,
  rw made (ground (arith, eq_iff (o.resolver r).approval_id r.approval_id)),
  ground arith,
  ground arith,
)

-- `RygnalInterceptor` over an engine, a workflow and tools. The assessment of src/rygnal/risk_engine.py
-- and the log are arguments; an exception of the workflow is a `ValueError`.
pub record Setup : Type 0 where
  pub runtime_mode : RuntimeMode
  pub tools : Tools
  pub runtime : Runtime
  pub engine : PolicyEngine
  pub outside : Outside
  pub authorization : ApprovalAuthorizationEngine
  pub assess : ToolRequest → Caught (RiskContext × List (String × Value))
  pub audit : ToolRequest → PolicyDecision → Caught (Unit {0})

abbrev pub assembled : Setup → Parts (RiskContext × List (String × Value))
assembled s = record {
  runtime_mode = s.runtime_mode;
  tools = s.tools;
  assess = s.assess;
  evaluate = λ q r. ok (evaluate s.runtime s.engine q r.0);
  request_approval = λ q p r. elim (request_approval s.outside s.authorization q p r.1) [
    | none ↦ error "ValueError"
    | some x ↦ ok x
  ];
  audit = s.audit;
}

assembled-request :
    (s : Setup) (q : ToolRequest) (p : PolicyDecision) (risk : RiskContext × List (String × Value))
    (r : ApprovalRequest) (e : ApprovalDecision)
    → (assembled s).request_approval q p risk ≡ ok (r, e)
    → request_approval s.outside s.authorization q p risk.1 ≡ some (r, e)
assembled-request s q p risk r e h =
    elim (Option-cases (request_approval s.outside s.authorization q p risk.1)) [
      | inl none_made ↦ ground arith
      | inr (x, made) ↦ ground arith
    ]

-- Where the resolver never gives the flag of an approval to a decision with another status, a tool
-- that runs is allowed by the policy, or the workflow returned an approval, by its flag and by its
-- status, of an entitled reviewer who is not its user.
pub assembled-Cleared :
    (s : Setup) (q : ToolRequest)
    → IsCoherent s.outside.resolver
    → any is_run (intercept (assembled s) q).1 ≡ true
    → (risk : RiskContext × List (String × Value)) × (s.assess q ≡ ok risk)
      × (((evaluate s.runtime s.engine q risk.0).decision ≡ Decision.allow)
          ⊎ ((evaluate s.runtime s.engine q risk.0).decision ≡ Decision.require_approval)
            × ((r : ApprovalRequest) × (e : ApprovalDecision) × (request_approval s.outside
                    s.authorization q
                    (evaluate s.runtime s.engine q risk.0)
                    risk.1
                  ≡ some (r, e))
                × (e.approved ≡ true)
                × (e.status ≡ ApprovalStatus.approved)
                × ((by : String) × (e.decided_by ≡ some by)
                    × (by ≢ q.user_id)
                    × IsEntitled s.authorization r (s.outside.resolver r) by)))
assembled-Cleared s q coherent h =
    let done = intercept-Cleared (assembled s) q h in
    let same : evaluate s.runtime s.engine q done.risk.0 ≡ done.decision_of =
      ground (arith, done.evaluated) in
    (
      done.risk,
      done.assessed,
      elim done.permitted [
        | inl allows ↦ inl (ap (λ p. p.decision) same ∙ allows)
        | inr (asks, (r, e, given, flag)) ↦
            let made =
              assembled-request s q (evaluate s.runtime s.engine q done.risk.0) done.risk r e
                (ap (λ p. (assembled s).request_approval q p done.risk) same ∙ given) in
            let status =
              request_approval-coherent s.outside s.authorization q
                (evaluate s.runtime s.engine q done.risk.0) done.risk.1 r e coherent made flag in
            inr (
              ap (λ p. p.decision) same ∙ asks,
              (
                r,
                e,
                made,
                flag,
                status,
                request_approval-IsEntitled s.outside s.authorization q
                    (evaluate s.runtime s.engine q done.risk.0) done.risk.1 r e made status,
              ),
            )
      ],
    )
