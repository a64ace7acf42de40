-- ===== src/Operation/Recovery.antt =====
-- Crash recovery of `SQLiteOperationStore` (src/rygnal/operation_store.py).
use rygnal_core.Common.{
  ℕ, String, concat, Bool, true, ◌&&◌, List, [], ◌∷◌, ◌==◌, if◌then◌else◌, nat_eq, filter,
  delete_where, update_where, count_where, sort_by,
}
use rygnal_core.Models.{Value, bool, text, dict, end, field}
use rygnal_core.Operation.{
  is_incomplete, OperationRecoveryStatus, active, released, applied_recovered, unresolved,
  OperationRecord, OperationRecoveryResult, Lease, Database, Failure, conflict, recovery_required,
  terminal, store, integrity, Result, ok, err, Host,
}
use rygnal_core.Operation.Identity.{
  owner_record_is_active, RepositoryState, inspect_repository_state,
}
use rygnal_core.Operation.Transition.{Change, write, to_applied, to_failed, untouched}

unfoldable pub list_incomplete : Database → List OperationRecord
list_incomplete db =
    sort_by (λ o. o.created_at_unix) (filter (λ o. is_incomplete o.state) db.operations)

-- The `WHERE` clause of the recovery's `UPDATE`.
abbrev pub still_incomplete : OperationRecord → OperationRecord → Bool
still_incomplete r o = o.operation_key == r.operation_key && is_incomplete o.state

unfoldable pub recover_change : OperationRecord → Change → ℕ → Database → Database
recover_change r c now db = record {
  operations = update_where (still_incomplete r) (write c now) db.operations;
  leases = delete_where (λ (l : Lease). l.operation_key == r.operation_key) db.leases;
}

unfoldable pub recover_terminal :
    OperationRecord → Change → ℕ → Database → Result (Unit {0}) × Database
unfolding recover_change
recover_terminal r c now db =
    if nat_eq (count_where (still_incomplete r) db.operations) 1
    then (ok tt, recover_change r c now db)
    else (err (conflict "Operation changed during recovery."), db)

unfoldable pub recovery_result :
    OperationRecord → OperationRecoveryStatus → String → OperationRecoveryResult
recovery_result r s m = record {
  operation_key = r.operation_key;
  artifact_id = r.artifact_id;
  status = s;
  message = m;
  target_repo_path = r.target_repo_path;
}

-- The result that is stored for a recovered operation.
unfoldable pub recovered_result : OperationRecord → Value
recovered_result r = dict (
    field "outcome" (text "applied") (
      field "applied" (bool true) (
        field "target_repo_path" (text r.target_repo_path) (
          field "patch_sha256" (text r.patch_sha256) (
            field "baseline_commit_sha" (text r.baseline_commit_sha) (
              field "approval_id" (text r.approval_id)
                (field "artifact_id" (text r.artifact_id) (field "recovered" (bool true) end))))))))

-- The two terminal writes of recovery.
unfoldable pub recovered_change : OperationRecord → Change
unfolding recovered_result
recovered_change r = to_applied (recovered_result r)

abbrev pub stale_error : String
stale_error = "Stale operation released because the trusted repository remained unmodified."

abbrev pub released_change : Change
released_change = to_failed stale_error

-- `str(exc)`
abbrev pub failure_text : Failure → String
failure_text (conflict s) = s
failure_text (recovery_required s) = s
failure_text (terminal s) = s
failure_text (store s) = s
failure_text (integrity s) = s

-- The text of a result once `_recover_terminal` has returned; an exception passes through.
abbrev recovered :
    OperationRecoveryResult
    → Result (Unit {0}) × Database
    → Result OperationRecoveryResult × Database
recovered res m = (elim m.0 [ ok _ ↦ ok res | err e ↦ err e ], m.1)

-- The end of a round, once the owner is gone and no evidence of an application is there.
unfoldable pub reconcile_inspected :
    OperationRecord
    → ℕ
    → Database
    → Result RepositoryState
    → Result OperationRecoveryResult × Database
unfolding recovery_result
reconcile_inspected r now db (err e) = (ok (recovery_result r unresolved (failure_text e)), db)
reconcile_inspected r now db (ok s) =
    if untouched s r
    then recovered (recovery_result r released "Released stale pre-mutation operation.")
        (recover_terminal r released_change now db)
    else (
      ok (
          recovery_result r unresolved (
            concat (
              "Operation owner is gone, but repository " ∷ "state is mutated or ambiguous and no "
              ∷ "durable completion evidence exists." ∷ []))),
      db,
    )

-- One round of the loop of `reconcile_incomplete`.
unfoldable pub reconcile_one :
    Host
    → (OperationRecord → Bool)
    → ℕ
    → OperationRecord
    → Database
    → Result OperationRecoveryResult × Database
unfolding recovery_result reconcile_inspected
reconcile_one h has_apply_evidence now r db =
    if owner_record_is_active h r
    then (ok (recovery_result r active "Operation owner process is still active."), db)
    else if has_apply_evidence r
    then recovered
        (recovery_result r applied_recovered
          "Recovered completed operation from durable approved-apply evidence.")
        (recover_terminal r (recovered_change r) now db)
    else reconcile_inspected r now db (inspect_repository_state h r.target_repo_path)

-- `results.append`, in front of what the later rounds append.
abbrev pub and_then :
    OperationRecoveryResult
    → Result (List OperationRecoveryResult) × Database
    → Result (List OperationRecoveryResult) × Database
and_then res m = (elim m.0 [ ok more ↦ ok (res ∷ more) | err e ↦ err e ], m.1)

unfoldable pub reconcile_from :
    Host
    → (OperationRecord → Bool)
    → ℕ
    → List OperationRecord
    → Database
    → Result (List OperationRecoveryResult) × Database
reconcile_from h evidence now [] db = (ok [], db)
reconcile_from h evidence now (r ∷ rs) db =
    let (res, after) = reconcile_one h evidence now r db in
    elim res [ ok x ↦ and_then x (reconcile_from h evidence now rs after) | err e ↦ (err e, after) ]

unfoldable pub reconcile_incomplete :
    Host
    → (OperationRecord → Bool)
    → ℕ
    → Database
    → Result (List OperationRecoveryResult) × Database
unfolding reconcile_from list_incomplete
reconcile_incomplete h evidence now db = reconcile_from h evidence now (list_incomplete db) db
