-- ===== src/Operation/Store.antt =====
-- `SQLiteOperationStore` of src/rygnal/operation_store.py. A method takes the tables and returns its
-- result with the tables as they are left; a rollback returns the old. These are the methods where
-- no other process acts meanwhile: several of them read again after a commit, or have several
-- transactions, which Processes takes apart.
use rygnal_core.Common.{
  ℕ, String, true, false, [], ◌∷◌, ◌++◌, Option, none, some, truthy, ◌==◌, if◌then◌else◌, any, find,
  delete_where,
}
use rygnal_core.Operation.{
  OperationState, reserved, applying, applied, failed, OperationRecord, OperationReservation, Lease,
  Database, Failure, conflict, recovery_required, terminal, store, integrity, Result, ok, err,
  ◌>>=◌, Host,
}
use rygnal_core.Operation.Identity.{
  artifact_apply_operation_key, repository_resource_key, process_identity_token,
  process_identity_matches, owner_record_is_active,
}

abbrev pub operation_of : OperationRecord → String
operation_of o = o.operation_key

abbrev pub resource_of : Lease → String
resource_of l = l.resource_key

-- `_read_operation`
abbrev pub read_operation : String → Database → Option OperationRecord
read_operation k db = find operation_of k db.operations

abbrev pub read_lease : String → Database → Option Lease
read_lease k db = find resource_of k db.leases

-- The arguments of `reserve_artifact_apply`, and what the process brings: a fresh token, its
-- identifier and the time.
pub record Attempt : Type 0 where
  pub artifact_id : String
  pub approval_id : String
  pub patch_sha256 : String
  pub baseline_commit_sha : String
  pub target_repo_path : String
  pub owner_token : String
  pub owner_pid : ℕ
  pub now : ℕ

-- `INSERT INTO operations`: the operation key is the primary key.
unfoldable pub insert_operation : OperationRecord → Database → Result Database
insert_operation o db = elim (read_operation o.operation_key db) [
  | some _ ↦ err (integrity "operations.operation_key")
  | none ↦ ok (record db { operations = db.operations ++ o ∷ [] })
]

-- `INSERT INTO resource_leases`: the resource is the primary key, and the operation is unique.
unfoldable pub insert_lease : Lease → Database → Result Database
insert_lease l db = elim (read_lease l.resource_key db) [
  | some _ ↦ err (integrity "resource_leases.resource_key")
  | none ↦
      if any (λ (x : Lease). x.operation_key == l.operation_key) db.leases
      then err (integrity "resource_leases.operation_key")
      else ok (record db { leases = db.leases ++ l ∷ [] })
]

-- The two `DELETE` statements for a failed operation that may be tried again.
unfoldable pub clear_operation : String → Database → Database
clear_operation k db = record {
  operations = delete_where (λ (o : OperationRecord). o.operation_key == k) db.operations;
  leases = delete_where (λ (l : Lease). l.operation_key == k) db.leases;
}

unfoldable pub new_record : Host → Attempt → String → OperationRecord
new_record h a start = record {
  operation_key =
      artifact_apply_operation_key h a.artifact_id a.approval_id a.patch_sha256
        a.baseline_commit_sha (h.resolve a.target_repo_path);
  resource_key = repository_resource_key h (h.resolve a.target_repo_path);
  artifact_id = a.artifact_id;
  approval_id = a.approval_id;
  patch_sha256 = a.patch_sha256;
  baseline_commit_sha = a.baseline_commit_sha;
  target_repo_path = h.resolve a.target_repo_path;
  state = reserved;
  owner_token = a.owner_token;
  owner_pid = a.owner_pid;
  owner_start_token = start;
  created_at_unix = a.now;
  updated_at_unix = a.now;
  retryable = false;
  result = none;
  error = none;
}

unfoldable pub new_lease : OperationRecord → Lease
new_lease o = record {
  resource_key = o.resource_key;
  operation_key = o.operation_key;
  owner_token = o.owner_token;
  owner_pid = o.owner_pid;
  owner_start_token = o.owner_start_token;
}

-- `self.get` after the commit
unfoldable pub reload : String → Database → Result OperationReservation
reload k db = elim (read_operation k db) [
  | none ↦ err (store "Reserved operation could not be reloaded.")
  | some o ↦ ok (record { record_of = o; acquired = true; replayed = false })
]

-- From the selection of the lease to the commit, over the tables `db`; `before` is what a rollback
-- restores.
unfoldable pub acquire :
    Host → OperationRecord → Database → Database → Result OperationReservation × Database
unfolding insert_operation insert_lease new_lease reload
acquire h o before db = elim (read_lease o.resource_key db) [
  | some l ↦ (
    err (
        if process_identity_matches h l.owner_pid l.owner_start_token
        then conflict "Trusted repository is already owned by another active mutation."
        else recovery_required "Trusted repository has a stale or ambiguous mutation lease."),
    before,
  )
  | none ↦ elim (insert_operation o db >>= insert_lease (new_lease o)) [
    | err e ↦ (err e, before)
    | ok after ↦ (reload o.operation_key after, after)
  ]
]

-- `existing.error or "..."`
abbrev error_or : Option String → String → String
error_or none d = d
error_or (some s) d = if truthy s then s else d

unfoldable pub busy : Host → OperationRecord → Failure
busy h existing =
    if owner_record_is_active h existing
    then conflict "Artifact application is already active in another process."
    else recovery_required "An incomplete artifact application must be reconciled before retry."

-- The branches on an operation that is there already.
unfoldable pub resume :
    Host
    → OperationRecord
    → OperationRecord
    → OperationState
    → Database
    → Result OperationReservation × Database
unfolding acquire clear_operation busy
resume h o existing applied db =
    (ok (record { record_of = existing; acquired = false; replayed = true }), db)
resume h o existing failed db =
    if existing.retryable
    then acquire h o db (clear_operation o.operation_key db)
    else (err (terminal (error_or existing.error "Artifact application previously failed.")), db)
resume h o existing reserved db = (err (busy h existing), db)
resume h o existing applying db = (err (busy h existing), db)

unfoldable pub reserve_record :
    Host → OperationRecord → Database → Result OperationReservation × Database
unfolding acquire resume
reserve_record h o db = elim (read_operation o.operation_key db) [
  | none ↦ acquire h o db db
  | some existing ↦ resume h o existing existing.state db
]

unfoldable pub reserve_artifact_apply :
    Host → Attempt → Database → Result OperationReservation × Database
unfolding reserve_record new_record
reserve_artifact_apply h a db = elim (process_identity_token h a.owner_pid) [
  | err e ↦ (err e, db)
  | ok start ↦ reserve_record h (new_record h a start) db
]
