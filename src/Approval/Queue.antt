-- ===== src/Approval/Queue.antt =====
-- `InMemoryApprovalQueue` of src/rygnal/approval_queue.py. A dictionary keeps the order in which
-- its keys were first set. The redaction of a reason (src/rygnal/security.py) is an argument.
use rygnal_core.Common.{
  String, Bool, true, false, not, List, [], ◌∷◌, Option, none, some, if◌then◌else◌, concat, ◌==◌,
  filter, find,
}
use rygnal_core.Models.{ApprovalStatus, approval_status_eq, ApprovalRequest, ApprovalDecision}
use rygnal_core.Approval.State.{validate_transition}
use rygnal_core.Approval.Authorization.{ApprovalAuthorizationEngine, authorize}

pub record QueuedApproval : Type 0 where
  pub request : ApprovalRequest
  pub status : ApprovalStatus
  pub decision : Option ApprovalDecision

abbrev pub id_of : QueuedApproval → String
id_of x = x.request.approval_id

-- The exceptions; `queue_error` is the base class.
pub data ApprovalFailure : Type 0 where
  not_found denied state_conflict queue_error : String → ApprovalFailure

pub data Answer (A : Type 0) : Type 0 where
  ok : A → Answer A
  err : ApprovalFailure → Answer A

-- `self._items[item.approval_id] = item`
abbrev pub store_item : QueuedApproval → List QueuedApproval → List QueuedApproval
store_item x [] = x ∷ []
store_item x (y ∷ ys) =
    let rest = store_item x ys in if id_of y == id_of x then x ∷ ys else y ∷ rest

abbrev pub submit : ApprovalRequest → List QueuedApproval → List QueuedApproval
submit r q = store_item (record { request = r; status = ApprovalStatus.pending; decision = none }) q

abbrev pub list_items : Option ApprovalStatus → List QueuedApproval → List QueuedApproval
list_items none q = q
list_items (some s) q = filter (λ (x : QueuedApproval). approval_status_eq x.status s) q

unfoldable pub get : String → List QueuedApproval → Answer QueuedApproval
get id q = elim (find id_of id q) [
  | none ↦ err (not_found (concat ("Approval request '" ∷ id ∷ "' was not found." ∷ [])))
  | some x ↦ ok x
]

-- The checks of `record_decision` on the item, in order, and the item that is stored.
unfoldable pub decide_item :
    ApprovalAuthorizationEngine → String → ApprovalDecision → QueuedApproval → Answer QueuedApproval
decide_item g id d x =
    if not (d.approval_id == id)
    then err (queue_error "Approval decision ID does not match the queued request.")
    else if not (validate_transition x.status d.status).allowed
    then err (state_conflict (validate_transition x.status d.status).reason)
    else if not (authorize g x.request d x.status).allowed
    then err (denied (authorize g x.request d x.status).reason)
    else ok (record { request = x.request; status = d.status; decision = some d })

abbrev pub stored :
    Answer QueuedApproval → List QueuedApproval → Answer QueuedApproval × List QueuedApproval
stored (ok x) q = (ok x, store_item x q)
stored (err e) q = (err e, q)

unfoldable pub record_decision :
    ApprovalAuthorizationEngine
    → String
    → ApprovalDecision
    → List QueuedApproval
    → Answer QueuedApproval × List QueuedApproval
unfolding get
record_decision g id d q = elim (get id q) [
  | err e ↦ (err e, q)
  | ok x ↦ stored (decide_item g id d x) q
]

-- `_decide`: `now` is the time of the decision.
unfoldable pub decide :
    ApprovalAuthorizationEngine
    → (String → String)
    → ApprovalStatus
    → Bool
    → String
    → String
    → String
    → String
    → List QueuedApproval
    → Answer QueuedApproval × List QueuedApproval
decide g redact status approved now by reason id q =
    record_decision g id
      (record {
        approval_id = id;
        status = status;
        approved = approved;
        decided_by = some by;
        decided_at = some now;
        reason = redact reason;
        metadata = [];
      })
      q

unfoldable pub approve :
    ApprovalAuthorizationEngine
    → (String → String)
    → String
    → String
    → String
    → String
    → List QueuedApproval
    → Answer QueuedApproval × List QueuedApproval
approve g redact now by reason id q =
    decide g redact ApprovalStatus.approved true now by reason id q

unfoldable pub reject :
    ApprovalAuthorizationEngine
    → (String → String)
    → String
    → String
    → String
    → String
    → List QueuedApproval
    → Answer QueuedApproval × List QueuedApproval
reject g redact now by reason id q =
    decide g redact ApprovalStatus.rejected false now by reason id q
