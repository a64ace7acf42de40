-- ===== src/Approval/Durable.antt =====
-- `SQLiteApprovalQueue` of src/rygnal/approval_queue.py: the rows of its table, and one transaction
-- for each method. A row keeps the request and the decision as they are after redaction and a round
-- through JSON; the redaction of src/rygnal/security.py and the JSON text are arguments.
use rygnal_core.Common.{
  String, Bool, true, false, not, ◌&&◌, List, [], ◌∷◌, ◌++◌, Option, none, some, if◌then◌else◌,
  concat, ◌==◌, nat_eq, map, find, update_where, count_where,
}
use rygnal_core.Models.{
  Value, dict, Fields, end, field, ApprovalStatus, approval_status_eq, ApprovalRequest,
  ApprovalDecision,
}
use rygnal_core.Policy.Equality.{value_eq}
use rygnal_core.Approval.State.{validate_transition}
use rygnal_core.Approval.Authorization.{ApprovalAuthorizationEngine, authorize}
use rygnal_core.Approval.Queue.{
  QueuedApproval, Answer, ok, err, not_found, denied, state_conflict, queue_error,
}

-- A row of `approval_queue`, in the order of the rows' identifiers.
pub record Row : Type 0 where
  pub approval_id : String
  pub status : ApprovalStatus
  pub request_json : String
  pub request : ApprovalRequest
  pub decision : Option ApprovalDecision

abbrev pub row_id : Row → String
row_id r = r.approval_id

-- `_redacted_model_json`, apart: what is kept of a request and of a decision, and the JSON text.
pub record Codec : Type 0 where
  pub redact_request : ApprovalRequest → ApprovalRequest
  pub redact_decision : ApprovalDecision → ApprovalDecision
  pub request_json : ApprovalRequest → String

abbrev pub fields_of : List (String × Value) → Fields
fields_of [] = end
fields_of ((k, v) ∷ m) = field k v (fields_of m)

abbrev pub metadata_eq : List (String × Value) → List (String × Value) → Bool
metadata_eq a b = value_eq (dict (fields_of a)) (dict (fields_of b))

abbrev pub decider_eq : Option String → Option String → Bool
decider_eq none none = true
decider_eq (some a) (some b) = a == b
decider_eq _ _ = false

abbrev pub flag_eq : Bool → Bool → Bool
flag_eq true b = b
flag_eq false b = not b

-- `_same_terminal_decision`
unfoldable pub same_terminal_decision : ApprovalDecision → ApprovalDecision → Bool
same_terminal_decision l r =
    l.approval_id == r.approval_id
    && (approval_status_eq l.status r.status
        && (flag_eq l.approved r.approved
            && (decider_eq l.decided_by r.decided_by
                && (l.reason == r.reason && metadata_eq l.metadata r.metadata))))

-- `submit`
unfoldable pub submit_row : Codec → ApprovalRequest → List Row → Answer ApprovalRequest × List Row
submit_row c r rows = elim (find row_id r.approval_id rows) [
  | some x ↦
      if x.request_json == c.request_json r
      then (ok r, rows)
      else (err (queue_error "Approval ID is already bound to a different request."), rows)
  | none ↦ (
    ok r,
    rows
        ++ record {
          approval_id = r.approval_id;
          status = ApprovalStatus.pending;
          request_json = c.request_json r;
          request = c.redact_request r;
          decision = none;
        }
          ∷ [],
  )
]

abbrev pub item_of : Row → QueuedApproval
item_of x = record { request = x.request; status = x.status; decision = x.decision }

-- The `WHERE` clause and the columns of the `UPDATE`.
abbrev pub still_pending : String → Row → Bool
still_pending id x = x.approval_id == id && approval_status_eq x.status ApprovalStatus.pending

abbrev pub write_decision : Codec → ApprovalDecision → Row → Row
write_decision c d x = record x { status = d.status; decision = some (c.redact_decision d) }

-- The branch on a decision that is there already.
unfoldable pub replay_decision :
    ApprovalDecision → Row → Option ApprovalDecision → Answer QueuedApproval
unfolding same_terminal_decision
replay_decision d x none =
    err (state_conflict "Approval already has a different terminal decision.")
replay_decision d x (some current) =
    if same_terminal_decision current d
    then ok (item_of x)
    else err (state_conflict "Approval already has a different terminal decision.")

-- The checks of a pending row, and the update.
unfoldable pub decide_row :
    Codec
    → ApprovalAuthorizationEngine
    → ApprovalDecision
    → Row
    → List Row
    → Answer QueuedApproval × List Row
decide_row c g d x rows =
    if not (validate_transition x.status d.status).allowed
    then (err (state_conflict (validate_transition x.status d.status).reason), rows)
    else if not (authorize g x.request d x.status).allowed
    then (err (denied (authorize g x.request d x.status).reason), rows)
    else if nat_eq (count_where (still_pending d.approval_id) rows) 1
    then (
      ok (record { request = x.request; status = d.status; decision = some d }),
      update_where (still_pending d.approval_id) (write_decision c d) rows,
    )
    else (err (state_conflict "Approval state changed concurrently."), rows)

-- `record_decision`
unfoldable pub record_row :
    Codec
    → ApprovalAuthorizationEngine
    → String
    → ApprovalDecision
    → List Row
    → Answer QueuedApproval × List Row
unfolding replay_decision decide_row
record_row c g id d rows =
    if not (d.approval_id == id)
    then (err (queue_error "Approval decision ID does not match the queued request."), rows)
    else elim (find row_id id rows) [
      | none ↦
          (err (not_found (concat ("Approval request '" ∷ id ∷ "' was not found." ∷ []))), rows)
      | some x ↦
          if approval_status_eq x.status ApprovalStatus.pending
          then decide_row c g d x rows
          else (replay_decision d x x.decision, rows)
    ]

-- `_load_items`
abbrev pub load_items : List Row → List QueuedApproval
load_items rows = map item_of rows
