-- ===== src/Operation/Consistent/Reserve.antt =====
-- A reservation keeps the tables of the operation store consistent.
use rygnal_core.Common.{
  ◌≡◌, refl, true, false, ◌==◌, [], ◌∷◌, ◌++◌, some, none, arith, eq_iff, eq_refl, kept, find-key,
  find-append, find-delete_where, Unique-append, Unique-delete_where, String, Option-cases,
  Bool-cases, inl, inr, ◌⊎◌, if◌then◌else◌,
}
use rygnal_core.Operation.{
  OperationState, reserved, applying, applied, failed, is_incomplete, OperationRecord, Lease,
  Database, Failure, Result, ok, err, Host,
}
use rygnal_core.Operation.Identity.{process_identity_token}
use rygnal_core.Operation.Store.{
  Attempt, operation_of, resource_of, read_operation, read_lease, new_lease, new_record,
  clear_operation, acquire, resume, reserve_record, reserve_artifact_apply,
}
use rygnal_core.Operation.Consistent.{Holds, Consistent}

-- The tables with the two new rows.
unfoldable pub with_rows : OperationRecord → Database → Database
unfolding new_lease
with_rows o db = record {
  operations = db.operations ++ o ∷ [];
  leases = db.leases ++ new_lease o ∷ [];
}

module _ (o : OperationRecord) (db : Database) (cons : Consistent db)
    (fresh : read_operation o.operation_key db ≡ none) (free : read_lease o.resource_key db ≡ none)
    (open_state : is_incomplete o.state ≡ true) where
  read_operation-with_rows :
      (k : String)
      → read_operation k (with_rows o db) ≡ elim (read_operation k db) [
        | some y ↦ some y
        | none ↦ if o.operation_key == k then some o else none
      ]
  unfolding with_rows
  read_operation-with_rows k = find-append operation_of k o db.operations

  read_lease-with_rows :
      (k : String)
      → read_lease k (with_rows o db) ≡ elim (read_lease k db) [
        | some y ↦ some y
        | none ↦ if o.resource_key == k then some (new_lease o) else none
      ]
  unfolding with_rows new_lease
  read_lease-with_rows k = find-append resource_of k (new_lease o) db.leases

  held_after :
      (k : String) (l : Lease)
      → read_lease k (with_rows o db) ≡ some l
      → (p : OperationRecord) × (read_operation l.operation_key (with_rows o db) ≡ some p)
        × Holds l p
  unfolding new_lease
  held_after k l e = elim (Option-cases (read_lease k db)) [
    | inl absent ↦ (
      o,
      ground (
        arith,
        read_lease-with_rows k,
        read_operation-with_rows l.operation_key,
        eq_refl o.operation_key,
      ),
      ground (arith, read_lease-with_rows k),
    )
    | inr (m, there) ↦
        let (p, found, h) = cons.held k m there in
        (
          p,
          ground (arith, read_lease-with_rows k, read_operation-with_rows l.operation_key),
          ground (arith, read_lease-with_rows k),
        )
  ]

  leased_after :
      (k : String) (p : OperationRecord)
      → read_operation k (with_rows o db) ≡ some p
      → is_incomplete p.state ≡ true
      → (l : Lease) × (read_lease p.resource_key (with_rows o db) ≡ some l) × (l.operation_key ≡ k)
  unfolding new_lease
  leased_after k p e inc = elim (Option-cases (read_operation k db)) [
    | inl absent ↦ (
      new_lease o,
      ground (
        arith,
        read_operation-with_rows k,
        read_lease-with_rows p.resource_key,
        eq_refl o.resource_key,
      ),
      ground (arith, read_operation-with_rows k, eq_iff o.operation_key k),
    )
    | inr (q, there) ↦
        let same : q ≡ p = ground (arith, read_operation-with_rows k) in
        let (l, lease, key) = cons.leased k q there (ground arith) in
        (l, ground (arith, read_lease-with_rows p.resource_key), key)
  ]

  pub with_rows-Consistent : Consistent (with_rows o db)
  unfolding with_rows new_lease
  with_rows-Consistent = record {
    operations_keyed = Unique-append operation_of o db.operations cons.operations_keyed fresh;
    leases_keyed = Unique-append resource_of (new_lease o) db.leases cons.leases_keyed free;
    held = held_after;
    leased = leased_after;
  }

-- Deleting a finished operation deletes no lease that another operation needs.
module _ (k : String) (x : OperationRecord) (db : Database) (cons : Consistent db)
    (there : read_operation k db ≡ some x) (finished : is_incomplete x.state ≡ false) where
  pub read_operation-clear_operation :
      (j : String)
      → read_operation j (clear_operation k db)
        ≡ kept (λ (o : OperationRecord). o.operation_key == k) (read_operation j db)
  unfolding clear_operation
  read_operation-clear_operation j =
      find-delete_where operation_of (λ (o : OperationRecord). o.operation_key == k) j db.operations
        cons.operations_keyed

  read_lease-clear_operation :
      (j : String)
      → read_lease j (clear_operation k db)
        ≡ kept (λ (l : Lease). l.operation_key == k) (read_lease j db)
  unfolding clear_operation
  read_lease-clear_operation j =
      find-delete_where resource_of (λ (l : Lease). l.operation_key == k) j db.leases
        cons.leases_keyed

  pub read_operation-cleared : read_operation k (clear_operation k db) ≡ none
  read_operation-cleared = ground (
    arith,
    read_operation-clear_operation k,
    find-key operation_of k x db.operations there,
    eq_refl k,
  )

  held_cleared :
      (j : String) (l : Lease)
      → read_lease j (clear_operation k db) ≡ some l
      → (p : OperationRecord) × (read_operation l.operation_key (clear_operation k db) ≡ some p)
        × Holds l p
  held_cleared j l e =
      let before : read_lease j db ≡ some l = ground (arith, read_lease-clear_operation j) in
      let left : (l.operation_key == k) ≡ false = ground (arith, read_lease-clear_operation j) in
      let (p, found, h) = cons.held j l before in
      (
        p,
        ground (
          arith,
          read_operation-clear_operation l.operation_key,
          find-key operation_of l.operation_key p db.operations found,
        ),
        h,
      )

  leased_cleared :
      (j : String) (p : OperationRecord)
      → read_operation j (clear_operation k db) ≡ some p
      → is_incomplete p.state ≡ true
      → (l : Lease) × (read_lease p.resource_key (clear_operation k db) ≡ some l)
        × (l.operation_key ≡ j)
  leased_cleared j p e inc =
      let before : read_operation j db ≡ some p =
        ground (arith, read_operation-clear_operation j) in
      let (l, lease, key) = cons.leased j p before inc in
      (
        l,
        ground (
          arith,
          read_lease-clear_operation p.resource_key,
          read_operation-clear_operation j,
          eq_iff l.operation_key k,
          find-key operation_of j p db.operations before,
        ),
        key,
      )

  pub clear_operation-Consistent : Consistent (clear_operation k db)
  unfolding clear_operation
  clear_operation-Consistent = record {
    operations_keyed = Unique-delete_where operation_of _ db.operations cons.operations_keyed;
    leases_keyed = Unique-delete_where resource_of _ db.leases cons.leases_keyed;
    held = held_cleared;
    leased = leased_cleared;
  }

-- What `acquire` leaves: the tables of the rollback, or those with the two new rows.
pub acquire-cases :
    (h : Host) (o : OperationRecord) (before db : Database)
    → ((acquire h o before db).1 ≡ before)
      ⊎ ((read_operation o.operation_key db ≡ none)
          × (read_lease o.resource_key db ≡ none)
          × ((acquire h o before db).1 ≡ with_rows o db))
unfolding acquire with_rows
acquire-cases h o before db = ground arith

-- `acquire` on consistent tables, with consistent tables to fall back on.
pub acquire-Consistent :
    (h : Host) (o : OperationRecord) (before db : Database)
    → Consistent before
    → Consistent db
    → is_incomplete o.state ≡ true
    → Consistent (acquire h o before db).1
acquire-Consistent h o before db old new open_state = elim (acquire-cases h o before db) [
  | inl e ↦ rw e old
  | inr (fresh, free, e) ↦ rw e (with_rows-Consistent o db new fresh free open_state)
]

resume-Consistent :
    (h : Host) (o x : OperationRecord) (s : OperationState) (db : Database)
    → Consistent db
    → read_operation o.operation_key db ≡ some x
    → x.state ≡ s
    → is_incomplete o.state ≡ true
    → Consistent (resume h o x s db).1
unfolding resume
resume-Consistent h o x applied db cons there e open_state = cons
resume-Consistent h o x reserved db cons there e open_state = cons
resume-Consistent h o x applying db cons there e open_state = cons
resume-Consistent h o x failed db cons there e open_state = elim (Bool-cases x.retryable) [
  | inl again ↦ rw again (
      acquire-Consistent h o db (clear_operation o.operation_key db) cons
        (clear_operation-Consistent o.operation_key x db cons there (rw e)) open_state)
  | inr never ↦ rw never cons
]

pub reserve_record-Consistent :
    (h : Host) (o : OperationRecord) (db : Database)
    → Consistent db
    → is_incomplete o.state ≡ true
    → Consistent (reserve_record h o db).1
unfolding reserve_record
reserve_record-Consistent h o db cons open_state =
    elim (Option-cases (read_operation o.operation_key db)) [
      | inl absent ↦ rw (absent, reserve_record) (acquire-Consistent h o db db cons cons open_state)
      | inr (x, there) ↦
          rw (there, reserve_record) (resume-Consistent h o x x.state db cons there refl open_state)
    ]

-- A reservation without a process identity writes nothing.
pub reserve-cases :
    (h : Host) (a : Attempt) (db : Database)
    → ((f : Failure) × (reserve_artifact_apply h a db ≡ (err f, db)))
      ⊎ ((start : String) × ((reserve_artifact_apply h a db)
            ≡ reserve_record h (new_record h a start) db))
unfolding reserve_artifact_apply
reserve-cases h a db = by_identity (process_identity_token h a.owner_pid) refl
  where
    by_identity :
        (t : Result String)
        → process_identity_token h a.owner_pid ≡ t
        → ((f : Failure) × (reserve_artifact_apply h a db ≡ (err f, db)))
          ⊎ ((start : String) × ((reserve_artifact_apply h a db)
                ≡ reserve_record h (new_record h a start) db))
    by_identity (ok start) e = inr (start, rw (e, reserve_artifact_apply) refl)
    by_identity (err f) e = inl (f, rw (e, reserve_artifact_apply) refl)

is_incomplete-new_record :
    (h : Host) (a : Attempt) (start : String) → is_incomplete (new_record h a start).state ≡ true
unfolding new_record
is_incomplete-new_record h a start = refl

-- Whether it is granted or refused, `reserve_artifact_apply` keeps the tables consistent.
pub reserve-Consistent :
    (h : Host) (a : Attempt) (db : Database)
    → Consistent db
    → Consistent (reserve_artifact_apply h a db).1
reserve-Consistent h a db cons = elim (reserve-cases h a db) [
  | inl (f, e) ↦ rw e cons
  | inr (start, e) ↦ rw e (
      reserve_record-Consistent h (new_record h a start) db cons
        (is_incomplete-new_record h a start))
]
