-- ===== src/Operation/Processes.antt =====
-- Processes that share one operation database (src/rygnal/operation_store.py and its caller
-- src/rygnal/approval_service.py): any interleaving of their connections to it. Each transaction,
-- each read on a connection of its own and each inspection of a process or of Git is one step, with
-- a host of its own, so that between any two of them other processes may act, start and end and the
-- repository may change. What a method has read or found is kept as work that is pending; it stays
-- when its step is taken, so the runs include those in which that step is taken again.
pub mod Settled
pub mod Owners
pub mod Exclusion
pub mod Methods
use rygnal_core.Common.{
  ℕ, String, Bool, true, false, List, [], ◌∷◌, ◌≡◌, ◌≢◌, All, some, if◌then◌else◌,
}
use rygnal_core.Models.{Value}
use rygnal_core.Operation.{
  applying, OperationRecord, OperationReservation, Database, Result, ok, err, Host,
}
use rygnal_core.Operation.Identity.{
  owner_record_is_active, RepositoryState, inspect_repository_state,
}
use mathlib.Core.List.{Memᴰ}
use rygnal_core.Operation.Store.{Attempt, read_operation, reload, reserve_artifact_apply}
use rygnal_core.Operation.Transition.{
  Change, untouched, to_failed, owned_transition, reload_updated, mark_applying, mark_applied,
}
use rygnal_core.Operation.Recovery.{
  list_incomplete, recover_terminal, recovered_change, released_change,
}

-- What a method of some process has done and not yet used.
pub data Pending : Type 0 where
  -- `reserve_artifact_apply` has committed the row of this key, and not yet read it.
  reserving : String → Pending
  -- `mark_applying` has committed the row of this key, and not yet read it.
  beginning : String → Pending
  -- `fail_or_preserve_ambiguous` has read this row of the reservation.
  failing : OperationReservation → String → OperationRecord → Pending
  -- It has found the repository untouched.
  unmodified : OperationReservation → String → Pending
  -- `reconcile_incomplete` has read this row.
  listed : OperationRecord → Pending
  -- It has found that the owner is gone, and that there is evidence (`true`) or that there is none
  -- and the repository is untouched (`false`). The caller's search for evidence may answer anything.
  closing : OperationRecord → Bool → Pending

-- The database, the reservations that processes hold, and their pending work.
pub record System : Type 0 where
  pub db : Database
  pub issued : List OperationReservation
  pub pending : List Pending

abbrev pub start : System
start = record { db = record { operations = []; leases = [] }; issued = []; pending = [] }

abbrev pub with_reservation :
    Result OperationReservation → List OperationReservation → List OperationReservation
with_reservation (ok v) vs = v ∷ vs
with_reservation (err e) vs = vs

-- `reservation.__class__(record=applying, acquired=True, replayed=False)`
abbrev pub with_record :
    Result OperationRecord → List OperationReservation → List OperationReservation
with_record (ok r) vs = record { record_of = r; acquired = true; replayed = false } ∷ vs
with_record (err e) vs = vs

-- A replay is answered inside the transaction.
abbrev pub with_replay :
    Result OperationReservation → List OperationReservation → List OperationReservation
with_replay (ok v) vs = if v.replayed then v ∷ vs else vs
with_replay (err e) vs = vs

-- A new reservation is answered only once its row is read again.
abbrev pub with_reserving : Result OperationReservation → List Pending → List Pending
with_reserving (ok v) ps = if v.replayed then ps else reserving v.record_of.operation_key ∷ ps
with_reserving (err e) ps = ps

abbrev pub with_beginning : Result OperationRecord → List Pending → List Pending
with_beginning (ok r) ps = beginning r.operation_key ∷ ps
with_beginning (err e) ps = ps

abbrev pub with_listed : List OperationRecord → List Pending → List Pending
with_listed [] ps = ps
with_listed (r ∷ rs) ps = listed r ∷ with_listed rs ps

-- What recovery writes, with and without evidence.
abbrev pub closing_change : OperationRecord → Bool → Change
closing_change r true = recovered_change r
closing_change r false = released_change

-- `uuid4().hex` is a token that no reservation has.
abbrev pub IsFresh : String → List OperationReservation → Type 0
IsFresh t vs = All (λ v. v.record_of.owner_token ≢ t) vs

pub data Step (s : System) : System → Type 0 where
  -- `reserve_artifact_apply`: the transaction, then `self.get` on another connection.
  reserve :
      (h : Host) (a : Attempt)
      → IsFresh a.owner_token s.issued
      → Step s (record {
        db = (reserve_artifact_apply h a s.db).1;
        issued = with_replay (reserve_artifact_apply h a s.db).0 s.issued;
        pending = with_reserving (reserve_artifact_apply h a s.db).0 s.pending;
      })
  answer_reserved :
      (k : String)
      → Memᴰ (reserving k) s.pending
      → Step s (record s { issued = with_reservation (reload k s.db) s.issued })
  -- `mark_applying`, in the same way.
  begin :
      (v : OperationReservation) (now : ℕ)
      → Memᴰ v s.issued
      → Step s (record s {
        db = (mark_applying v now s.db).1;
        pending = with_beginning (mark_applying v now s.db).0 s.pending;
      })
  answer_begun :
      (k : String)
      → Memᴰ (beginning k) s.pending
      → Step s (record s { issued = with_record (reload_updated k s.db) s.issued })
  -- `mark_applied`; its caller does not use the row that is read afterwards.
  finish :
      (v : OperationReservation) (result : Value) (now : ℕ)
      → Memᴰ v s.issued
      → Step s (record s { db = (mark_applied v result now s.db).1 })
  -- `fail_or_preserve_ambiguous`: the read, the inspection of Git, and the transaction.
  read_failing :
      (v : OperationReservation) (error : String) (o : OperationRecord)
      → Memᴰ v s.issued
      → read_operation v.record_of.operation_key s.db ≡ some o
      → Step s (record s { pending = failing v error o ∷ s.pending })
  inspect_failing :
      (h : Host) (v : OperationReservation) (error : String) (o : OperationRecord)
      (x : RepositoryState)
      → Memᴰ (failing v error o) s.pending
      → inspect_repository_state h o.target_repo_path ≡ ok x
      → untouched x o ≡ true
      → Step s (record s { pending = unmodified v error ∷ s.pending })
  fail :
      (v : OperationReservation) (error : String) (now : ℕ)
      → Memᴰ (unmodified v error) s.pending
      → Memᴰ v s.issued
      → Step s (record s { db = (owned_transition v applying (to_failed error) true now s.db).1 })
  -- `reconcile_incomplete`: the list, and for each of its rows, which may have changed meanwhile,
  -- what is found out and the transaction of `_recover_terminal`.
  read_incomplete : Step s (record s { pending = with_listed (list_incomplete s.db) s.pending })
  find_evidence :
      (h : Host) (r : OperationRecord)
      → Memᴰ (listed r) s.pending
      → owner_record_is_active h r ≡ false
      → Step s (record s { pending = closing r true ∷ s.pending })
  inspect_incomplete :
      (h : Host) (r : OperationRecord) (x : RepositoryState)
      → Memᴰ (listed r) s.pending
      → owner_record_is_active h r ≡ false
      → inspect_repository_state h r.target_repo_path ≡ ok x
      → untouched x r ≡ true
      → Step s (record s { pending = closing r false ∷ s.pending })
  recover :
      (r : OperationRecord) (evidence : Bool) (now : ℕ)
      → Memᴰ (closing r evidence) s.pending
      → Step s (record s { db = (recover_terminal r (closing_change r evidence) now s.db).1 })

pub data Reach (s : System) : System → Type 0 where
  here : Reach s s
  next : {t u : System} → Reach s t → Step t u → Reach s u
