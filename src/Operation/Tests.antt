-- ===== src/Operation/Tests.antt =====
-- Runs of the operation store on a small host, and the theorems applied to them.
use rygnal_core.Common.{
  true, false, ◌≡◌, ◌≢◌, refl, ◌⊎◌, lower, strip, decimal, [], ◌∷◌, none, some, any, ◌==◌,
  if◌then◌else◌,
}
use mathlib.Core.List.{Memᴰ}
use rygnal_core.Models.{null}
use rygnal_core.Operation.{
  reserved, released, OperationRecord, OperationReservation, OperationRecoveryResult, conflict, ok,
  err, ProcStat, fields, Host,
}
use rygnal_core.Operation.Identity.{
  artifact_apply_operation_key, repository_resource_key, process_identity_token,
  process_identity_matches, owner_record_is_active, inspect_repository_state,
}
use rygnal_core.Operation.Store.{
  read_operation, Attempt, insert_operation, insert_lease, new_record, new_lease, reload, acquire,
  reserve_record, reserve_artifact_apply,
}
use rygnal_core.Operation.Transition.{
  untouched, write, to_applying, to_applied, reload_updated, apply_change, owned_transition,
  mark_applying, mark_applied,
}
use rygnal_core.Operation.Recovery.{
  list_incomplete, released_change, recover_change, recover_terminal, recovery_result,
  reconcile_inspected, reconcile_one, reconcile_incomplete,
}
use rygnal_core.Operation.Outcomes.{
  IsGranted, HasReason, owned_transition-cases, reserve-IsGranted, reserve-refused,
  reconcile_one-HasReason,
}
use rygnal_core.Operation.Consistent.{Consistent}
use rygnal_core.Operation.Consistent.Reserve.{reserve-Consistent}
use rygnal_core.Operation.Consistent.Recover.{reconcile_incomplete-Consistent}
use rygnal_core.Operation.Processes.{
  System, start, reserving, beginning, listed, closing, with_reservation, with_record, with_replay,
  with_reserving, with_beginning, with_listed, reserve, answer_reserved, begin, answer_begun,
  finish, read_incomplete, inspect_incomplete, recover, Reach, here, next,
}
use rygnal_core.Operation.Processes.Exclusion.{
  IsSound, start-IsSound, Reach-IsSound, mutual_exclusion, applied_forever,
}

-- Every process is alive and started at tick x; the repository is clean at the commit "base".
abbrev host : Host
host = record {
  proc_stat = λ pid. fields (
      "1" ∷ "2" ∷ "3" ∷ "4" ∷ "5" ∷ "6" ∷ "7" ∷ "8" ∷ "9" ∷ "10" ∷ "11" ∷ "12" ∷ "13" ∷ "14" ∷ "15"
      ∷ "16" ∷ "17" ∷ "18" ∷ "19" ∷ "20" ∷ "21" ∷ "x" ∷ []);
  ps = none;
  words = λ s. [];
  sha256 = λ s. s;
  resolve = λ p. p;
  is_dir = λ p. true;
  git = some (λ repository args. record {
    succeeded = true;
    stdout =
        if any (λ a. a == "HEAD") args
        then "base"
        else if any (λ a. a == "status") args
        then ""
        else repository;
    stderr = "";
  });
}

-- The same machine once the processes are gone: another start time.
abbrev later_host : Host
later_host = record host { proc_stat = λ pid. ProcStat.missing }

abbrev attempt : Attempt
attempt = record {
  artifact_id = "a1";
  approval_id = "p1";
  patch_sha256 = "d1";
  baseline_commit_sha = "BASE";
  target_repo_path = "/r";
  owner_token = "t1";
  owner_pid = 7;
  now = 1;
}

-- Another approval for the same repository.
abbrev rival : Attempt
rival = record attempt { approval_id = "p2"; owner_token = "t2" }

abbrev row : OperationRecord
row = new_record host attempt "proc:7:x"

abbrev held : OperationReservation
held = record { record_of = row; acquired = true; replayed = false }

-- The reservation is committed, and then read and answered.
abbrev committed_system : System
committed_system = record {
  db = (reserve_artifact_apply host attempt start.db).1;
  issued = with_replay (reserve_artifact_apply host attempt start.db).0 [];
  pending = with_reserving (reserve_artifact_apply host attempt start.db).0 [];
}

abbrev reserved_system : System
reserved_system = record committed_system {
  issued = with_reservation (reload row.operation_key committed_system.db) committed_system.issued;
}

row_committed : Memᴰ (reserving row.operation_key) committed_system.pending
unfolding reserve_artifact_apply reserve_record acquire insert_operation insert_lease new_lease
    reload new_record artifact_apply_operation_key repository_resource_key process_identity_token
    lower decimal
row_committed = Memᴰ.head refl

run_of_reserved : Reach start reserved_system
run_of_reserved =
    next (next here (reserve host attempt tt)) (answer_reserved row.operation_key row_committed)

reserved_row : read_operation row.operation_key reserved_system.db ≡ some row
unfolding reserve_artifact_apply reserve_record acquire insert_operation insert_lease new_lease
    reload new_record artifact_apply_operation_key repository_resource_key process_identity_token
    lower decimal
reserved_row = refl

held_issued : Memᴰ held reserved_system.issued
unfolding reserve_artifact_apply reserve_record acquire insert_operation insert_lease new_lease
    reload new_record artifact_apply_operation_key repository_resource_key process_identity_token
    lower decimal
held_issued = Memᴰ.head refl

mutual_exclusion_example : row.operation_key ≡ row.operation_key
unfolding new_record
mutual_exclusion_example =
    mutual_exclusion row.operation_key row.operation_key row row run_of_reserved reserved_row
      reserved_row refl refl refl

-- The same operation once it is applying, and once it is applied.
abbrev begun_row : OperationRecord
begun_row = write to_applying 2 row

abbrev begun : OperationReservation
begun = record { record_of = begun_row; acquired = true; replayed = false }

abbrev beginning_system : System
beginning_system = record reserved_system {
  db = (mark_applying held 2 reserved_system.db).1;
  pending = with_beginning (mark_applying held 2 reserved_system.db).0 reserved_system.pending;
}

abbrev begun_system : System
begun_system = record beginning_system {
  issued =
      with_record (reload_updated row.operation_key beginning_system.db) beginning_system.issued;
}

row_begun : Memᴰ (beginning row.operation_key) beginning_system.pending
unfolding reserve_artifact_apply reserve_record acquire insert_operation insert_lease new_lease
    reload new_record artifact_apply_operation_key repository_resource_key process_identity_token
    lower decimal mark_applying owned_transition reload_updated apply_change
row_begun = Memᴰ.head refl

begun_issued : Memᴰ begun begun_system.issued
unfolding reserve_artifact_apply reserve_record acquire insert_operation insert_lease new_lease
    reload new_record artifact_apply_operation_key repository_resource_key process_identity_token
    lower decimal mark_applying owned_transition reload_updated apply_change
begun_issued = Memᴰ.head refl

abbrev applied_row : OperationRecord
applied_row = write (to_applied null) 3 begun_row

-- Recovery reads the row while it is applying, and takes its owner for gone and the repository for
-- untouched; only then does the owner finish.
abbrev listed_system : System
listed_system = record begun_system {
  pending = with_listed (list_incomplete begun_system.db) begun_system.pending;
}

row_listed : Memᴰ (listed begun_row) listed_system.pending
unfolding reserve_artifact_apply reserve_record acquire insert_operation insert_lease new_lease
    reload new_record artifact_apply_operation_key repository_resource_key process_identity_token
    lower decimal mark_applying owned_transition reload_updated apply_change list_incomplete
row_listed = Memᴰ.head refl

abbrev closing_system : System
closing_system = record listed_system { pending = closing begun_row false ∷ listed_system.pending }

begun_gone : owner_record_is_active later_host begun_row ≡ false
unfolding owner_record_is_active new_record process_identity_matches process_identity_token
begun_gone = refl

untouched_base :
    inspect_repository_state later_host begun_row.target_repo_path
    ≡ ok (record { head = "base"; clean = true })
unfolding inspect_repository_state new_record strip lower
untouched_base = refl

begun_untouched : untouched (record { head = "base"; clean = true }) begun_row ≡ true
unfolding new_record lower
begun_untouched = refl

abbrev applied_system : System
applied_system = record closing_system { db = (mark_applied begun null 3 closing_system.db).1 }

applied_found : read_operation row.operation_key applied_system.db ≡ some applied_row
unfolding reserve_artifact_apply reserve_record acquire insert_operation insert_lease new_lease
    reload new_record artifact_apply_operation_key repository_resource_key process_identity_token
    lower decimal mark_applying mark_applied owned_transition reload_updated apply_change
applied_found = refl

run_of_closing : Reach start closing_system
run_of_closing =
    next
      (next
        (next (next run_of_reserved (begin held 2 held_issued))
          (answer_begun row.operation_key row_begun))
        read_incomplete)
      (inspect_incomplete later_host begun_row (record { head = "base"; clean = true }) row_listed
        begun_gone untouched_base begun_untouched)

run_of_applied : Reach start applied_system
run_of_applied = next run_of_closing (finish begun null 3 begun_issued)

-- The transaction of recovery finds the row changed.
abbrev recovered_system : System
recovered_system = record applied_system {
  db = (recover_terminal begun_row released_change 4 applied_system.db).1;
}

changed_meanwhile :
    (recover_terminal begun_row released_change 4 applied_system.db).0
    ≡ err (conflict "Operation changed during recovery.")
unfolding reserve_artifact_apply reserve_record acquire insert_operation insert_lease new_lease
    reload new_record artifact_apply_operation_key repository_resource_key process_identity_token
    lower decimal mark_applying mark_applied owned_transition reload_updated apply_change
    recover_terminal
changed_meanwhile = refl

applied_forever_example : read_operation row.operation_key recovered_system.db ≡ some applied_row
applied_forever_example =
    applied_forever row.operation_key applied_row run_of_applied
      (next here (recover begun_row false 4 (Memᴰ.head refl))) applied_found refl

reserved-IsSound : IsSound reserved_system
reserved-IsSound = Reach-IsSound start-IsSound run_of_reserved

abbrev stale : OperationReservation
stale = record held { record_of = record row { owner_token = "t9" } }

owned_transition-cases_example :
    ((o : OperationRecord) × (read_operation row.operation_key reserved_system.db ≡ some o)
      × (o.state ≡ reserved)
      × (o.owner_token ≡ "t1")
      × ((owned_transition held reserved to_applying false 2 reserved_system.db).0
          ≡ ok (write to_applying 2 o))
      × (read_operation row.operation_key
            (owned_transition held reserved to_applying false 2 reserved_system.db).1
          ≡ some (write to_applying 2 o)))
    ⊎ ((o : OperationRecord)
        → read_operation row.operation_key reserved_system.db ≡ some o
        → o.state ≡ reserved
        → o.owner_token ≢ "t1")
      × (owned_transition held reserved to_applying false 2 reserved_system.db
          ≡ (err (conflict "Operation ownership or state changed."), reserved_system.db))
unfolding new_record
owned_transition-cases_example =
    owned_transition-cases held reserved to_applying false 2 reserved_system.db
      reserved-IsSound.consistent.operations_keyed

granted_first : (reserve_artifact_apply host attempt start.db).0 ≡ ok held
unfolding reserve_artifact_apply reserve_record acquire insert_operation insert_lease new_lease
    reload new_record artifact_apply_operation_key repository_resource_key process_identity_token
    lower decimal
granted_first = refl

reserve-IsGranted_example :
    IsGranted attempt held start.db (reserve_artifact_apply host attempt start.db).1
    × (read_operation row.operation_key (reserve_artifact_apply host attempt start.db).1 ≡ some row)
reserve-IsGranted_example = reserve-IsGranted host attempt start.db held granted_first

refused_rival :
    (reserve_artifact_apply host rival reserved_system.db).0
    ≡ err (conflict "Trusted repository is already owned by another active mutation.")
unfolding reserve_artifact_apply reserve_record acquire insert_operation insert_lease new_lease
    reload new_record artifact_apply_operation_key repository_resource_key process_identity_token
    lower decimal process_identity_matches
refused_rival = refl

reserve-refused_example :
    (reserve_artifact_apply host rival reserved_system.db).1 ≡ reserved_system.db
reserve-refused_example =
    reserve-refused host rival reserved_system.db
      (conflict "Trusted repository is already owned by another active mutation.") refused_rival

abbrev release_report : OperationRecoveryResult
release_report = recovery_result row released "Released stale pre-mutation operation."

released_report :
    (reconcile_one later_host (λ o. false) 9 row reserved_system.db).0 ≡ ok release_report
unfolding reserve_artifact_apply reserve_record acquire insert_operation insert_lease new_lease
    reload new_record artifact_apply_operation_key repository_resource_key process_identity_token
    lower decimal process_identity_matches owner_record_is_active inspect_repository_state
    recover_change recover_terminal recovery_result reconcile_inspected reconcile_one strip
released_report = refl

reconcile_one-HasReason_example : HasReason later_host (λ o. false) row released
unfolding recovery_result
reconcile_one-HasReason_example =
    reconcile_one-HasReason later_host (λ o. false) 9 row reserved_system.db release_report
      released_report

reserve-Consistent_example : Consistent (reserve_artifact_apply host rival reserved_system.db).1
reserve-Consistent_example =
    reserve-Consistent host rival reserved_system.db reserved-IsSound.consistent

reconcile_incomplete-Consistent_example :
    Consistent (reconcile_incomplete later_host (λ o. false) 9 reserved_system.db).1
reconcile_incomplete-Consistent_example =
    reconcile_incomplete-Consistent later_host (λ o. false) 9 reserved_system.db
      reserved-IsSound.consistent
