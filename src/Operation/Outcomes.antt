-- ===== src/Operation/Outcomes.antt =====
-- What each method of the store answers, on every branch (src/rygnal/operation_store.py).
use rygnal_core.Common.{
  ℕ, String, Bool, true, false, ◌&&◌, ◌≡◌, ◌≢◌, refl, sym, ap, ◌∙◌, ◌⊎◌, inl, inr, some, ◌==◌,
  Unique, count-find, find-update_where, find-append, arith, eq_iff, eq_refl, eq_of_true, find-key,
  Bool-cases, Option-cases,
}
use mathlib.Core.Path.{subst}
use rygnal_core.Operation.{
  OperationState, reserved, applying, applied, failed, state_eq, OperationRecoveryStatus, active,
  released, applied_recovered, unresolved, OperationRecord, OperationReservation,
  OperationRecoveryResult, Database, Failure, conflict, Result, ok, err, Host,
}
use rygnal_core.Operation.Identity.{
  owner_record_is_active, RepositoryState, inspect_repository_state,
}
use rygnal_core.Operation.Store.{
  operation_of, read_operation, Attempt, acquire, resume, reserve_record, reserve_artifact_apply,
  new_record, insert_operation, insert_lease, new_lease, reload, clear_operation,
}
use rygnal_core.Operation.Consistent.Reserve.{reserve-cases}
use rygnal_core.Operation.Processes.Owners.{reserve-row}
use rygnal_core.Operation.Transition.{
  Change, write, owned_by, apply_change, owned_transition, reload_updated, untouched,
}
use rygnal_core.Operation.Recovery.{recovery_result, reconcile_one, reconcile_inspected}

state_eq_sound : (s t : OperationState) → state_eq s t ≡ true → s ≡ t
state_eq_sound s t h = ground arith

state_eq_refl : (s : OperationState) → state_eq s s ≡ true
state_eq_refl s = ground arith

not-owned :
    (r : OperationRecord) (expected : OperationState) (o : OperationRecord)
    → (state_eq o.state expected && o.owner_token == r.owner_token) ≡ false
    → (db : Database) → read_operation r.operation_key db ≡ some o
    → (x : OperationRecord) → read_operation r.operation_key db ≡ some x
    → x.state ≡ expected
    → x.owner_token ≢ r.owner_token
not-owned r expected o foreign db there x found s t =
    ground (arith, state_eq_refl expected, eq_iff o.owner_token r.owner_token)

-- In a table with unique keys, a transition by the owner from the expected state answers the row as
-- it was written and leaves that row in the table. Where there is no row of its key in that state with
-- that token, the transition is refused with a conflict and changes nothing.
pub owned_transition-cases :
    (v : OperationReservation) (expected : OperationState) (c : Change) (release : Bool) (now : ℕ)
    (db : Database)
    → Unique operation_of db.operations
    → ((o : OperationRecord) × (read_operation v.record_of.operation_key db ≡ some o)
        × (o.state ≡ expected)
        × (o.owner_token ≡ v.record_of.owner_token)
        × ((owned_transition v expected c release now db).0 ≡ ok (write c now o))
        × (read_operation v.record_of.operation_key (owned_transition v expected c release now db).1
            ≡ some (write c now o)))
      ⊎ ((o : OperationRecord)
          → read_operation v.record_of.operation_key db ≡ some o
          → o.state ≡ expected
          → o.owner_token ≢ v.record_of.owner_token)
        × ((owned_transition v expected c release now db)
            ≡ (err (conflict "Operation ownership or state changed."), db))
unfolding owned_transition reload_updated apply_change
owned_transition-cases v expected c release now db u =
    let r = v.record_of in
    let seen =
      find-update_where operation_of (owned_by r expected) (write c now) r.operation_key
        db.operations (λ x. refl) in
    let counted_rows =
      count-find operation_of (λ o. state_eq o.state expected && o.owner_token == r.owner_token)
        r.operation_key db.operations u in
    elim (Option-cases (read_operation r.operation_key db)) [
      | inl absent ↦ inr ((λ o there s. cc), ground arith)
      | inr (o, there) ↦
          elim (Bool-cases (state_eq o.state expected && o.owner_token == r.owner_token)) [
            | inl owned ↦
                let mine : owned_by r expected o ≡ true = ground (
                  arith,
                  find-key operation_of r.operation_key o db.operations there,
                  eq_iff o.operation_key r.operation_key,
                ) in
                let after : read_operation r.operation_key
                      (owned_transition v expected c release now db).1
                    ≡ some (write c now o) =
                  ground arith in
                inl (
                  o,
                  there,
                  state_eq_sound o.state expected (ground arith),
                  eq_of_true o.owner_token r.owner_token (ground arith),
                  ground arith,
                  after,
                )
            | inr foreign ↦ inr (not-owned r expected o foreign db there, ground arith)
          ]
    ]

acquire-refused :
    (h : Host) (o : OperationRecord) (before db : Database) (f : Failure)
    → (acquire h o before db).0 ≡ err f
    → (acquire h o before db).1 ≡ before
unfolding acquire insert_operation insert_lease new_lease reload
acquire-refused h o before db f e =
    ground
      (arith, find-append operation_of o.operation_key o db.operations, eq_refl o.operation_key)

resume-refused :
    (h : Host) (o x : OperationRecord) (s : OperationState) (db : Database) (f : Failure)
    → (resume h o x s db).0 ≡ err f
    → (resume h o x s db).1 ≡ db
unfolding resume
resume-refused h o x applied db f e = refl
resume-refused h o x reserved db f e = refl
resume-refused h o x applying db f e = refl
resume-refused h o x failed db f e =
    ground (arith, acquire-refused h o db (clear_operation o.operation_key db) f)

reserve_record-refused :
    (h : Host) (o : OperationRecord) (db : Database) (f : Failure)
    → (reserve_record h o db).0 ≡ err f
    → (reserve_record h o db).1 ≡ db
unfolding reserve_record
reserve_record-refused h o db f e = elim (Option-cases (read_operation o.operation_key db)) [
  | inl absent ↦ ground (arith, acquire-refused h o db db f)
  | inr (x, there) ↦ ground (arith, resume-refused h o x x.state db f)
]

-- A reservation that is refused, for whatever reason, leaves both tables as they were, also where
-- the rows of a failed operation had been deleted to try it again.
pub reserve-refused :
    (h : Host) (a : Attempt) (db : Database) (f : Failure)
    → (reserve_artifact_apply h a db).0 ≡ err f
    → (reserve_artifact_apply h a db).1 ≡ db
reserve-refused h a db f e = elim (reserve-cases h a db) [
  | inl (g, same) ↦ ap (λ m. m.1) same
  | inr (start, same) ↦
      ap (λ m. m.1) same
      ∙ reserve_record-refused h (new_record h a start) db f (sym (ap (λ m. m.0) same) ∙ e)
]

-- What a reservation that is granted says: it is new and holds the caller's token in the state
-- RESERVED, or it replays an applied operation and nothing is written.
abbrev pub IsGranted : Attempt → OperationReservation → Database → Database → Type 0
IsGranted a v before after =
    (v.acquired ≡ true)
      × (v.replayed ≡ false)
      × (v.record_of.state ≡ reserved)
      × (v.record_of.owner_token ≡ a.owner_token)
    ⊎ (v.acquired ≡ false) × (v.replayed ≡ true) × (v.record_of.state ≡ applied) × (after ≡ before)

acquire-granted :
    (h : Host) (a : Attempt) (start : String) (before db : Database) (v : OperationReservation)
    → (acquire h (new_record h a start) before db).0 ≡ ok v
    → (v.acquired ≡ true)
      × (v.replayed ≡ false)
      × (v.record_of.state ≡ reserved)
      × (v.record_of.owner_token ≡ a.owner_token)
unfolding acquire insert_operation insert_lease new_lease reload new_record
acquire-granted h a start before db v e = ground (
  arith,
  find-append operation_of (new_record h a start).operation_key (new_record h a start)
      db.operations,
  eq_refl (new_record h a start).operation_key,
)

resume-IsGranted :
    (h : Host) (a : Attempt) (start : String) (x : OperationRecord) (s : OperationState)
    (db : Database) (v : OperationReservation)
    → x.state ≡ s
    → (resume h (new_record h a start) x s db).0 ≡ ok v
    → IsGranted a v db (resume h (new_record h a start) x s db).1
unfolding resume
resume-IsGranted h a start x applied db v s e = ground arith
resume-IsGranted h a start x reserved db v s e = ground arith
resume-IsGranted h a start x applying db v s e = ground arith
resume-IsGranted h a start x failed db v s e = ground (
  arith,
  acquire-granted h a start db (clear_operation (new_record h a start).operation_key db) v,
)

-- A reservation that is granted is either new, RESERVED and held with the caller's token, or
-- replays an operation that is applied, and then nothing is written. It is the stored row.
pub reserve-IsGranted :
    (h : Host) (a : Attempt) (db : Database) (v : OperationReservation)
    → (reserve_artifact_apply h a db).0 ≡ ok v
    → IsGranted a v db (reserve_artifact_apply h a db).1
      × (read_operation v.record_of.operation_key (reserve_artifact_apply h a db).1
          ≡ some v.record_of)
unfolding reserve_record
reserve-IsGranted h a db v e = (
  elim (reserve-cases h a db) [
    | inl (g, same) ↦ ground (arith, same)
    | inr (start, same) ↦
        elim (Option-cases (read_operation (new_record h a start).operation_key db)) [
          | inl absent ↦ inl (acquire-granted h a start db db v (ground (arith, same)))
          | inr (x, there) ↦
              rw (same, reserve_record, there)
                (resume-IsGranted h a start x x.state db v refl (ground (arith, same)))
        ]
  ],
  reserve-row h a db v e,
)

-- What a round of the recovery has found, for each status that it reports.
abbrev pub HasReason :
    Host → (OperationRecord → Bool) → OperationRecord → OperationRecoveryStatus → Type 0
HasReason h evidence r active = owner_record_is_active h r ≡ true
HasReason h evidence r applied_recovered =
    (owner_record_is_active h r ≡ false) × (evidence r ≡ true)
HasReason h evidence r released =
    (owner_record_is_active h r ≡ false)
    × (evidence r ≡ false)
    × ((s : RepositoryState) × (inspect_repository_state h r.target_repo_path ≡ ok s)
        × (untouched s r ≡ true))
HasReason h evidence r unresolved =
    (owner_record_is_active h r ≡ false)
    × (evidence r ≡ false)
    × ((s : RepositoryState)
        → inspect_repository_state h r.target_repo_path ≡ ok s
        → untouched s r ≡ false)

inspected-HasReason :
    (h : Host) (evidence : OperationRecord → Bool) (now : ℕ) (r : OperationRecord) (db : Database)
    (seen : Result RepositoryState) (x : OperationRecoveryResult)
    → inspect_repository_state h r.target_repo_path ≡ seen
    → owner_record_is_active h r ≡ false
    → evidence r ≡ false
    → (reconcile_inspected r now db seen).0 ≡ ok x
    → HasReason h evidence r x.status
unfolding reconcile_inspected recovery_result
inspected-HasReason h evidence now r db (err f) x look gone none_kept e =
    let found_status : unresolved ≡ x.status = ground arith in
    subst (HasReason h evidence r) found_status (gone, none_kept, λ s found. ground (arith, look))
inspected-HasReason h evidence now r db (ok s) x look gone none_kept e =
    elim (Bool-cases (untouched s r)) [
      | inl clean ↦
          let found_status : released ≡ x.status = ground arith in
          subst (HasReason h evidence r) found_status (gone, none_kept, (s, look, clean))
      | inr touched ↦
          let found_status : unresolved ≡ x.status = ground arith in
          subst (HasReason h evidence r) found_status
            (gone, none_kept, λ t found. ground (arith, look))
    ]

-- What a round of the recovery reports is so: the owner is active, or is gone and there is evidence
-- of the application, or none and the repository is at its baseline and clean (and only then is the
-- operation released), or the repository is not known to be so.
pub reconcile_one-HasReason :
    (h : Host) (evidence : OperationRecord → Bool) (now : ℕ) (r : OperationRecord) (db : Database)
    (x : OperationRecoveryResult)
    → (reconcile_one h evidence now r db).0 ≡ ok x
    → HasReason h evidence r x.status
unfolding reconcile_one recovery_result
reconcile_one-HasReason h evidence now r db x e = elim (Bool-cases (owner_record_is_active h r)) [
  | inl live ↦
      let found_status : active ≡ x.status = ground arith in
      subst (HasReason h evidence r) found_status live
  | inr gone ↦ elim (Bool-cases (evidence r)) [
    | inl kept ↦
        let found_status : applied_recovered ≡ x.status = ground arith in
        subst (HasReason h evidence r) found_status (gone, kept)
    | inr none_kept ↦
        inspected-HasReason h evidence now r db (inspect_repository_state h r.target_repo_path) x
          refl gone none_kept (ground arith)
  ]
]
