-- ===== src/Operation/Processes/Owners.antt =====
-- The reservations that processes hold name the resource of the row that they own.
use rygnal_core.Common.{
  ℕ, String, ◌≡◌, ◌≢◌, refl, sym, Bool, true, false, List, [], ◌∷◌, All, some, arith, find-key,
  find-append, find-update_where, Option-cases, Bool-cases, inl, inr,
}
use rygnal_core.Operation.{
  OperationState, reserved, applying, applied, failed, OperationRecord, OperationReservation,
  Database, Result, ok, err, Host,
}
use rygnal_core.Operation.Store.{
  Attempt, operation_of, read_operation, clear_operation, acquire, resume, reserve_record,
  reserve_artifact_apply, new_record, reload,
}
use rygnal_core.Operation.Transition.{
  to_applying, to_applied, mark_applying, mark_applied, Change, write, owned_by, apply_change,
  reload_updated, owned_transition, to_failed,
}
use rygnal_core.Operation.Recovery.{still_incomplete, recover_change, recover_terminal}
use rygnal_core.Operation.Consistent.{Consistent}
use rygnal_core.Operation.Consistent.Reserve.{
  with_rows, acquire-cases, reserve-cases, read_operation-clear_operation,
}
use rygnal_core.Operation.Consistent.Update.{Genuine}
use rygnal_core.Operation.Processes.{
  System, Step, reserve, answer_reserved, begin, answer_begun, finish, read_failing,
  inspect_failing, fail, read_incomplete, find_evidence, inspect_incomplete, recover,
  closing_change, with_reservation, with_record, with_replay, IsFresh,
}

module _ (r : OperationRecord) where
  -- A row names its own resource.
  pub Genuine-row : (db : Database) → read_operation r.operation_key db ≡ some r → Genuine r db
  Genuine-row db there o found same = ground arith

  pub owned_transition-Genuine :
      (v : OperationReservation) (expected : OperationState) (c : Change) (release : Bool) (now : ℕ)
      (db : Database)
      → Genuine r db
      → Genuine r (owned_transition v expected c release now db).1
  unfolding owned_transition apply_change
  owned_transition-Genuine v expected c release now db g o found same =
      elim (Option-cases (read_operation r.operation_key db)) [
        | inl absent ↦ ground (
          arith,
          find-update_where operation_of (owned_by v.record_of expected) (write c now)
              r.operation_key db.operations (λ (x : OperationRecord). refl),
        )
        | inr (o', before) ↦ ground (
          arith,
          g o' before,
          find-update_where operation_of (owned_by v.record_of expected) (write c now)
              r.operation_key db.operations (λ (x : OperationRecord). refl),
        )
      ]

  recover_terminal-Genuine :
      (x : OperationRecord) (c : Change) (now : ℕ) (db : Database)
      → Genuine r db
      → Genuine r (recover_terminal x c now db).1
  unfolding recover_terminal recover_change
  recover_terminal-Genuine x c now db g o found same =
      elim (Option-cases (read_operation r.operation_key db)) [
        | inl absent ↦ ground (
          arith,
          find-update_where operation_of (still_incomplete x) (write c now) r.operation_key
              db.operations (λ (x : OperationRecord). refl),
        )
        | inr (o', before) ↦ ground (
          arith,
          g o' before,
          find-update_where operation_of (still_incomplete x) (write c now) r.operation_key
              db.operations (λ (x : OperationRecord). refl),
        )
      ]

  acquire-Genuine :
      (h : Host) (n : OperationRecord) (before db : Database)
      → n.owner_token ≢ r.owner_token
      → Genuine r before
      → Genuine r db
      → Genuine r (acquire h n before db).1
  acquire-Genuine h n before db fresh old new = elim (acquire-cases h n before db) [
    | inl e ↦ rw e old
    | inr (absent, free, e) ↦ rw e (
        unfold with_rows in
        λ o found same. elim (Option-cases (read_operation r.operation_key db)) [
          | inl gone ↦ ground (arith, find-append operation_of r.operation_key n db.operations)
          | inr (o', there) ↦
              ground (arith, new o' there, find-append operation_of r.operation_key n db.operations)
        ])
  ]

  resume-Genuine :
      (h : Host) (n x : OperationRecord) (s : OperationState) (db : Database)
      → Consistent db
      → read_operation n.operation_key db ≡ some x
      → x.state ≡ s
      → n.owner_token ≢ r.owner_token
      → Genuine r db
      → Genuine r (resume h n x s db).1
  unfolding resume
  resume-Genuine h n x applied db cons found e fresh g = g
  resume-Genuine h n x reserved db cons found e fresh g = g
  resume-Genuine h n x applying db cons found e fresh g = g
  resume-Genuine h n x failed db cons found e fresh g = elim (Bool-cases x.retryable) [
    | inl again ↦ rw again (
        acquire-Genuine h n db (clear_operation n.operation_key db) fresh g (λ o there same.
          g o
            (ground (
              arith,
              read_operation-clear_operation n.operation_key x db cons found (rw e refl)
                  r.operation_key,
            ))
            same))
    | inr never ↦ rw never g
  ]

  reserve_record-Genuine :
      (h : Host) (n : OperationRecord) (db : Database)
      → Consistent db
      → n.owner_token ≢ r.owner_token
      → Genuine r db
      → Genuine r (reserve_record h n db).1
  unfolding reserve_record
  reserve_record-Genuine h n db cons fresh g =
      elim (Option-cases (read_operation n.operation_key db)) [
        | inl absent ↦ rw (absent, reserve_record) (acquire-Genuine h n db db fresh g g)
        | inr (x, found) ↦
            rw (found, reserve_record) (resume-Genuine h n x x.state db cons found refl fresh g)
      ]

  reserve-Genuine :
      (h : Host) (a : Attempt) (db : Database)
      → Consistent db
      → r.owner_token ≢ a.owner_token
      → Genuine r db
      → Genuine r (reserve_artifact_apply h a db).1
  unfolding new_record
  reserve-Genuine h a db cons fresh g = elim (reserve-cases h a db) [
    | inl (f, e) ↦ rw e g
    | inr (start, e) ↦
        rw e (reserve_record-Genuine h (new_record h a start) db cons (λ p. fresh (sym p)) g)
  ]

-- The reservation that is returned is the row as it is stored.
acquire-row :
    (h : Host) (n : OperationRecord) (before db : Database) (v : OperationReservation)
    → (acquire h n before db).0 ≡ ok v
    → read_operation v.record_of.operation_key (acquire h n before db).1 ≡ some v.record_of
unfolding acquire
acquire-row h n before db v e =
    ground (
      arith,
      find-key operation_of n.operation_key v.record_of (acquire h n before db).1.operations,
    )

resume-row :
    (h : Host) (n x : OperationRecord) (s : OperationState) (db : Database)
    (v : OperationReservation)
    → read_operation n.operation_key db ≡ some x
    → (resume h n x s db).0 ≡ ok v
    → read_operation v.record_of.operation_key (resume h n x s db).1 ≡ some v.record_of
unfolding resume
resume-row h n x applied db v found e =
    ground (arith, find-key operation_of n.operation_key x db.operations found)
resume-row h n x reserved db v found e = cc
resume-row h n x applying db v found e = cc
resume-row h n x failed db v found e =
    ground (arith, acquire-row h n db (clear_operation n.operation_key db) v)

reserve_record-row :
    (h : Host) (n : OperationRecord) (db : Database) (v : OperationReservation)
    → (reserve_record h n db).0 ≡ ok v
    → read_operation v.record_of.operation_key (reserve_record h n db).1 ≡ some v.record_of
unfolding reserve_record
reserve_record-row h n db v e = elim (Option-cases (read_operation n.operation_key db)) [
  | inl absent ↦ ground (arith, acquire-row h n db db v)
  | inr (x, found) ↦ ground (arith, resume-row h n x x.state db v found)
]

-- What a successful reservation returns is the stored row of its operation.
pub reserve-row :
    (h : Host) (a : Attempt) (db : Database) (v : OperationReservation)
    → (reserve_artifact_apply h a db).0 ≡ ok v
    → read_operation v.record_of.operation_key (reserve_artifact_apply h a db).1 ≡ some v.record_of
reserve-row h a db v e = elim (reserve-cases h a db) [
  | inl (f, q) ↦ ground (arith, q)
  | inr (start, q) ↦ rw q (reserve_record-row h (new_record h a start) db v (rw q at e))
]

-- Every reservation that a process holds is genuine.
abbrev pub AllGenuine : Database → List OperationReservation → Type 0
AllGenuine db = All (λ v. Genuine v.record_of db)

-- What each reservation keeps, all of them keep.
AllGenuine-map :
    (db after : Database) (vs : List OperationReservation)
    → ((r : OperationRecord) → Genuine r db → Genuine r after)
    → AllGenuine db vs
    → AllGenuine after vs
AllGenuine-map db after [] keep g = tt
AllGenuine-map db after (v ∷ vs) keep g =
    (keep v.record_of g.0, AllGenuine-map db after vs keep g.1)

AllGenuine-fresh :
    (h : Host) (a : Attempt) (db : Database) (vs : List OperationReservation)
    → Consistent db
    → IsFresh a.owner_token vs
    → AllGenuine db vs
    → AllGenuine (reserve_artifact_apply h a db).1 vs
AllGenuine-fresh h a db [] cons fresh g = tt
AllGenuine-fresh h a db (v ∷ vs) cons fresh g = (
  reserve-Genuine v.record_of h a db cons fresh.0 g.0,
  AllGenuine-fresh h a db vs cons fresh.1 g.1,
)

with_reservation-AllGenuine :
    (db : Database) (res : Result OperationReservation) (vs : List OperationReservation)
    → AllGenuine db vs
    → ((v : OperationReservation) → res ≡ ok v → Genuine v.record_of db)
    → AllGenuine db (with_reservation res vs)
with_reservation-AllGenuine db (ok v) vs g new = (new v refl, g)
with_reservation-AllGenuine db (err e) vs g new = g

with_record-AllGenuine :
    (db : Database) (res : Result OperationRecord) (vs : List OperationReservation)
    → AllGenuine db vs
    → ((r : OperationRecord) → res ≡ ok r → Genuine r db)
    → AllGenuine db (with_record res vs)
with_record-AllGenuine db (ok r) vs g new = (new r refl, g)
with_record-AllGenuine db (err e) vs g new = g

with_replay-AllGenuine :
    (db : Database) (res : Result OperationReservation) (vs : List OperationReservation)
    → AllGenuine db vs
    → ((v : OperationReservation) → res ≡ ok v → Genuine v.record_of db)
    → AllGenuine db (with_replay res vs)
with_replay-AllGenuine db (ok v) vs g new = elim (Bool-cases v.replayed) [
  | inl again ↦ rw again (new v refl, g)
  | inr granted ↦ rw granted g
]
with_replay-AllGenuine db (err e) vs g new = g

-- What is read after a commit is the row that is stored then.
reload-row :
    (k : String) (db : Database) (v : OperationReservation)
    → reload k db ≡ ok v
    → read_operation v.record_of.operation_key db ≡ some v.record_of
unfolding reload
reload-row k db v e = ground (arith, find-key operation_of k v.record_of db.operations)

reload_updated-row :
    (k : String) (db : Database) (r : OperationRecord)
    → reload_updated k db ≡ ok r
    → read_operation r.operation_key db ≡ some r
unfolding reload_updated
reload_updated-row k db r e = ground (arith, find-key operation_of k r db.operations)

owned_transition-AllGenuine :
    (v : OperationReservation) (expected : OperationState) (c : Change) (release : Bool) (now : ℕ)
    (db : Database) (vs : List OperationReservation)
    → AllGenuine db vs
    → AllGenuine (owned_transition v expected c release now db).1 vs
owned_transition-AllGenuine v expected c release now db vs =
    AllGenuine-map db (owned_transition v expected c release now db).1 vs
      (λ r. owned_transition-Genuine r v expected c release now db)

-- Every step of every process keeps the reservations genuine.
pub Step-AllGenuine :
    {s t : System}
    → Step s t
    → Consistent s.db
    → AllGenuine s.db s.issued
    → AllGenuine t.db t.issued
unfolding mark_applying mark_applied
Step-AllGenuine {s} (reserve h a fresh) cons g =
    with_replay-AllGenuine (reserve_artifact_apply h a s.db).1 (reserve_artifact_apply h a s.db).0
      s.issued (AllGenuine-fresh h a s.db s.issued cons fresh g)
      (λ v e.
        Genuine-row v.record_of (reserve_artifact_apply h a s.db).1 (reserve-row h a s.db v e))
Step-AllGenuine {s} (answer_reserved k p) cons g =
    with_reservation-AllGenuine s.db (reload k s.db) s.issued g
      (λ v e. Genuine-row v.record_of s.db (reload-row k s.db v e))
Step-AllGenuine {s} (begin v now m) cons g =
    owned_transition-AllGenuine v reserved to_applying false now s.db s.issued g
Step-AllGenuine {s} (answer_begun k p) cons g =
    with_record-AllGenuine s.db (reload_updated k s.db) s.issued g
      (λ r e. Genuine-row r s.db (reload_updated-row k s.db r e))
Step-AllGenuine {s} (finish v result now m) cons g =
    owned_transition-AllGenuine v applying (to_applied result) true now s.db s.issued g
Step-AllGenuine {s} (fail v error now p m) cons g =
    owned_transition-AllGenuine v applying (to_failed error) true now s.db s.issued g
Step-AllGenuine {s} (recover x evidence now p) cons g =
    AllGenuine-map s.db (recover_terminal x (closing_change x evidence) now s.db).1 s.issued
      (λ r. recover_terminal-Genuine r x (closing_change x evidence) now s.db) g
Step-AllGenuine {s} (read_failing v error o m found) cons g = g
Step-AllGenuine {s} (inspect_failing h v error o x p look clean) cons g = g
Step-AllGenuine {s} read_incomplete cons g = g
Step-AllGenuine {s} (find_evidence h r p gone) cons g = g
Step-AllGenuine {s} (inspect_incomplete h r x p gone look clean) cons g = g
