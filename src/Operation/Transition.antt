-- ===== src/Operation/Transition.antt =====
-- The owned transitions of `SQLiteOperationStore` (src/rygnal/operation_store.py).
use rygnal_core.Common.{
  ℕ, String, Bool, true, false, ◌&&◌, Option, none, some, lower, ◌==◌, if◌then◌else◌, nat_eq,
  delete_where, update_where, count_where,
}
use rygnal_core.Models.{Value}
use rygnal_core.Operation.{
  OperationState, reserved, applying, applied, failed, state_eq, OperationRecord,
  OperationReservation, Lease, Database, conflict, store, Result, ok, err, Host,
}
use rygnal_core.Operation.Identity.{RepositoryState, inspect_repository_state}
use rygnal_core.Operation.Store.{read_operation}

-- What a transition writes.
pub record Change : Type 0 where
  pub next_state : OperationState
  pub result : Option Value
  pub error : Option String
  pub retryable : Bool

-- The columns that the `UPDATE` sets.
abbrev pub write : Change → ℕ → OperationRecord → OperationRecord
write c now o = record o {
  state = c.next_state;
  updated_at_unix = now;
  result = c.result;
  error = c.error;
  retryable = c.retryable;
}

-- The `WHERE` clause of the `UPDATE`.
abbrev pub owned_by : OperationRecord → OperationState → OperationRecord → Bool
owned_by r expected o =
    o.operation_key == r.operation_key
    && (state_eq o.state expected && o.owner_token == r.owner_token)

-- The `WHERE` clause of the `DELETE` that releases the resource.
abbrev pub leased_by : OperationRecord → Lease → Bool
leased_by r l =
    l.resource_key == r.resource_key
    && (l.operation_key == r.operation_key && l.owner_token == r.owner_token)

unfoldable pub reload_updated : String → Database → Result OperationRecord
reload_updated k db = elim (read_operation k db) [
  | none ↦ err (store "Updated operation could not be reloaded.")
  | some o ↦ ok o
]

-- The tables after the statements of the transaction.
unfoldable pub apply_change :
    OperationRecord → OperationState → Change → Bool → ℕ → Database → Database
apply_change r expected c release now db = record {
  operations = update_where (owned_by r expected) (write c now) db.operations;
  leases = if release then delete_where (leased_by r) db.leases else db.leases;
}

unfoldable pub owned_transition :
    OperationReservation
    → OperationState
    → Change
    → Bool
    → ℕ
    → Database
    → Result OperationRecord × Database
unfolding reload_updated apply_change
owned_transition v expected c release now db =
    let r = v.record_of in
    let after = apply_change r expected c release now db in
    if nat_eq (count_where (owned_by r expected) db.operations) 1
    then (reload_updated r.operation_key after, after)
    else (err (conflict "Operation ownership or state changed."), db)

abbrev pub to_applying : Change
to_applying = record { next_state = applying; result = none; error = none; retryable = false }

abbrev pub to_applied : Value → Change
to_applied v = record { next_state = applied; result = some v; error = none; retryable = false }

abbrev pub to_failed : String → Change
to_failed e = record { next_state = failed; result = none; error = some e; retryable = true }

unfoldable pub mark_applying :
    OperationReservation → ℕ → Database → Result OperationRecord × Database
mark_applying v now db = owned_transition v reserved to_applying false now db

unfoldable pub mark_applied :
    OperationReservation → Value → ℕ → Database → Result OperationRecord × Database
mark_applied v result now db = owned_transition v applying (to_applied result) true now db

-- `repository["head"] == baseline.lower() and repository["clean"]`
abbrev pub untouched : RepositoryState → OperationRecord → Bool
untouched s o = s.head == lower o.baseline_commit_sha && s.clean

abbrev as_true : Result OperationRecord × Database → Result Bool × Database
as_true m = (elim m.0 [ ok _ ↦ ok true | err e ↦ err e ], m.1)

-- From the inspection on: `failing` is the transition to FAILED.
unfoldable pub fail_inspected :
    Result OperationRecord × Database
    → OperationRecord
    → Database
    → Result RepositoryState
    → Result Bool × Database
fail_inspected failing o db (err f) = (err f, db)
fail_inspected failing o db (ok s) = if untouched s o then as_true failing else (ok false, db)

unfoldable pub fail_or_preserve_ambiguous :
    Host → OperationReservation → String → ℕ → Database → Result Bool × Database
fail_or_preserve_ambiguous h v e now db = elim (read_operation v.record_of.operation_key db) [
  | none ↦ (err (store "Operation disappeared during failure handling."), db)
  | some o ↦
      fail_inspected (owned_transition v applying (to_failed e) true now db) o db
        (inspect_repository_state h o.target_repo_path)
]
