-- ===== src/Operation/Processes/Settled.antt =====
-- What an applied operation keeps, whatever the processes do.
use rygnal_core.Common.{
  ℕ, ◌≡◌, refl, Bool, true, false, some, arith, eq_iff, find-key, find-append, find-update_where,
  String, Option-cases, Bool-cases, inl, inr,
}
use rygnal_core.Operation.{
  OperationState, reserved, applying, applied, failed, is_incomplete, OperationRecord,
  OperationReservation, Database, Host,
}
use rygnal_core.Operation.Store.{
  Attempt, operation_of, read_operation, clear_operation, acquire, resume, reserve_record,
  reserve_artifact_apply, new_record,
}
use rygnal_core.Operation.Transition.{
  Change, write, owned_by, apply_change, owned_transition, mark_applying, mark_applied, to_applying,
  to_applied, to_failed,
}
use rygnal_core.Operation.Recovery.{still_incomplete, recover_change, recover_terminal}
use rygnal_core.Operation.Consistent.{Consistent}
use rygnal_core.Operation.Consistent.Reserve.{
  with_rows, acquire-cases, reserve-cases, read_operation-clear_operation,
}
use rygnal_core.Operation.Processes.{
  System, Step, reserve, answer_reserved, begin, answer_begun, finish, read_failing,
  inspect_failing, fail, read_incomplete, find_evidence, inspect_incomplete, recover,
  closing_change,
}

module _ (k : String) (o : OperationRecord) (is_applied : o.state ≡ applied) where
  -- The row of the operation is there and is applied.
  abbrev pub Settled : Database → Type 0
  Settled db = read_operation k db ≡ some o

  owned_transition-Settled :
      (v : OperationReservation) (expected : OperationState) (c : Change) (release : Bool) (now : ℕ)
      (db : Database)
      → is_incomplete expected ≡ true
      → Settled db
      → Settled (owned_transition v expected c release now db).1
  unfolding owned_transition apply_change
  owned_transition-Settled v expected c release now db inc there = ground (
    arith,
    is_applied,
    find-update_where operation_of (owned_by v.record_of expected) (write c now) k db.operations
        (λ (x : OperationRecord). refl),
  )

  recover_terminal-Settled :
      (r : OperationRecord) (c : Change) (now : ℕ) (db : Database)
      → Settled db
      → Settled (recover_terminal r c now db).1
  unfolding recover_terminal recover_change
  recover_terminal-Settled r c now db there = ground (
    arith,
    is_applied,
    find-update_where operation_of (still_incomplete r) (write c now) k db.operations
        (λ (x : OperationRecord). refl),
  )

  acquire-Settled :
      (h : Host) (r : OperationRecord) (before db : Database)
      → Settled before
      → Settled db
      → Settled (acquire h r before db).1
  unfolding with_rows
  acquire-Settled h r before db old new = elim (acquire-cases h r before db) [
    | inl e ↦ rw e old
    | inr (fresh, free, e) ↦ rw e (ground (arith, find-append operation_of k r db.operations))
  ]

  resume-Settled :
      (h : Host) (r x : OperationRecord) (s : OperationState) (db : Database)
      → Consistent db
      → read_operation r.operation_key db ≡ some x
      → x.state ≡ s
      → Settled db
      → Settled (resume h r x s db).1
  unfolding resume
  resume-Settled h r x applied db cons found e there = there
  resume-Settled h r x reserved db cons found e there = there
  resume-Settled h r x applying db cons found e there = there
  resume-Settled h r x failed db cons found e there = elim (Bool-cases x.retryable) [
    | inl again ↦ rw again (
        acquire-Settled h r db (clear_operation r.operation_key db) there (
          ground (
            arith,
            is_applied,
            read_operation-clear_operation r.operation_key x db cons found (rw e refl) k,
            find-key operation_of k o db.operations there,
            eq_iff k r.operation_key,
          )))
    | inr never ↦ rw never there
  ]

  reserve_record-Settled :
      (h : Host) (r : OperationRecord) (db : Database)
      → Consistent db
      → Settled db
      → Settled (reserve_record h r db).1
  unfolding reserve_record
  reserve_record-Settled h r db cons there =
      elim (Option-cases (read_operation r.operation_key db)) [
        | inl absent ↦ rw (absent, reserve_record) (acquire-Settled h r db db there there)
        | inr (x, found) ↦
            rw (found, reserve_record) (resume-Settled h r x x.state db cons found refl there)
      ]

  reserve-Settled :
      (h : Host) (a : Attempt) (db : Database)
      → Consistent db
      → Settled db
      → Settled (reserve_artifact_apply h a db).1
  reserve-Settled h a db cons there = elim (reserve-cases h a db) [
    | inl (f, e) ↦ rw e there
    | inr (start, e) ↦ rw e (reserve_record-Settled h (new_record h a start) db cons there)
  ]

  -- An applied operation stays as it is, with its result, through every step of every process.
  pub Step-Settled : {s t : System} → Step s t → Consistent s.db → Settled s.db → Settled t.db
  unfolding mark_applying mark_applied
  Step-Settled {s} (reserve h a fresh) cons there = reserve-Settled h a s.db cons there
  Step-Settled {s} (begin v now m) cons there =
      owned_transition-Settled v reserved to_applying false now s.db refl there
  Step-Settled {s} (finish v result now m) cons there =
      owned_transition-Settled v applying (to_applied result) true now s.db refl there
  Step-Settled {s} (fail v error now p m) cons there =
      owned_transition-Settled v applying (to_failed error) true now s.db refl there
  Step-Settled {s} (recover r evidence now p) cons there =
      recover_terminal-Settled r (closing_change r evidence) now s.db there
  Step-Settled {s} (answer_reserved k p) cons there = there
  Step-Settled {s} (answer_begun k p) cons there = there
  Step-Settled {s} (read_failing v error o m found) cons there = there
  Step-Settled {s} (inspect_failing h v error o x p look clean) cons there = there
  Step-Settled {s} read_incomplete cons there = there
  Step-Settled {s} (find_evidence h r p gone) cons there = there
  Step-Settled {s} (inspect_incomplete h r x p gone look clean) cons there = there
