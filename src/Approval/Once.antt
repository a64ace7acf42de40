-- ===== src/Approval/Once.antt =====
-- One terminal decision for each approval (the durable queue of src/rygnal/approval_queue.py).
use rygnal_core.Common.{
  String, false, ◌≡◌, ◌≢◌, refl, inl, inr, List, [], ◌∷◌, none, some, find, find-append,
  find-update_where, arith, eq_iff, eq_refl, Option-cases,
}
use rygnal_core.Models.{ApprovalStatus, approval_status_eq, ApprovalRequest, ApprovalDecision}
use rygnal_core.Approval.Authorization.{ApprovalAuthorizationEngine}
use rygnal_core.Approval.Queue.{err, state_conflict}
use rygnal_core.Approval.Durable.{
  Row, row_id, Codec, same_terminal_decision, submit_row, still_pending, write_decision,
  replay_decision, decide_row, record_row,
}

-- The transactions of any number of processes, one after the other.
pub data Transaction : Type 0 where
  submitted : ApprovalRequest → Transaction
  recorded : String → ApprovalDecision → Transaction

abbrev pub after : Codec → ApprovalAuthorizationEngine → Transaction → List Row → List Row
after c g (submitted r) rows = (submit_row c r rows).1
after c g (recorded id d) rows = (record_row c g id d rows).1

abbrev pub after_all : Codec → ApprovalAuthorizationEngine → List Transaction → List Row → List Row
after_all c g [] rows = rows
after_all c g (t ∷ ts) rows = after_all c g ts (after c g t rows)

module _ (c : Codec) (g : ApprovalAuthorizationEngine) (id : String) (x : Row)
    (settled : approval_status_eq x.status ApprovalStatus.pending ≡ false) where
  decide_row-decided :
      (d : ApprovalDecision) (y : Row) (rows : List Row)
      → find row_id id rows ≡ some x
      → find row_id id (decide_row c g d y rows).1 ≡ some x
  unfolding decide_row
  decide_row-decided d y rows there = ground (
    arith,
    find-update_where row_id (still_pending d.approval_id) (write_decision c d) id rows (λ r. refl),
  )

  after-decided :
      (t : Transaction) (rows : List Row)
      → find row_id id rows ≡ some x
      → find row_id id (after c g t rows) ≡ some x
  unfolding submit_row record_row
  after-decided (submitted r) rows there = ground (
    arith,
    find-append row_id id
        (record {
          approval_id = r.approval_id;
          status = ApprovalStatus.pending;
          request_json = c.request_json r;
          request = c.redact_request r;
          decision = none;
        })
        rows,
  )
  after-decided (recorded j d) rows there = elim (Option-cases (find row_id j rows)) [
    | inl absent ↦ ground arith
    | inr (y, found) ↦ ground (arith, decide_row-decided d y rows there)
  ]

-- Once an approval is decided in the durable queue, its row stays as it is through every later
-- transaction of any process, also when its request is submitted again or decided otherwise.
pub after_all-decided_row :
    (c : Codec) (g : ApprovalAuthorizationEngine) (ts : List Transaction) (id : String) (x : Row)
    (rows : List Row)
    → approval_status_eq x.status ApprovalStatus.pending ≡ false
    → find row_id id rows ≡ some x
    → find row_id id (after_all c g ts rows) ≡ some x
after_all-decided_row c g [] id x rows settled there = there
after_all-decided_row c g (t ∷ ts) id x rows settled there =
    after_all-decided_row c g ts id x (after c g t rows) settled
      (after-decided c g id x settled t rows there)

-- A decision that is recorded again after it has been stored is refused as a different one where
-- the redaction has changed its reason, and the table is left as it is.
pub record_row-redacted :
    (c : Codec) (g : ApprovalAuthorizationEngine) (d : ApprovalDecision) (x : Row) (rows : List Row)
    → find row_id d.approval_id rows ≡ some x
    → approval_status_eq x.status ApprovalStatus.pending ≡ false
    → x.decision ≡ some (c.redact_decision d)
    → (c.redact_decision d).reason ≢ d.reason
    → record_row c g d.approval_id d rows
      ≡ (err (state_conflict "Approval already has a different terminal decision."), rows)
unfolding record_row replay_decision same_terminal_decision
record_row-redacted c g d x rows there settled stored changed =
    ground (arith, eq_refl d.approval_id, eq_iff (c.redact_decision d).reason d.reason)
