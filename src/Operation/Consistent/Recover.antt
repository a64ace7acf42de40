-- ===== src/Operation/Consistent/Recover.antt =====
-- Recovery keeps the tables of the operation store consistent.
use rygnal_core.Common.{
  ℕ, ◌≡◌, refl, Bool, true, false, ◌==◌, List, [], ◌∷◌, some, arith, changed, kept, nat_eq,
  count_where, find-key, find-update_where, find-delete_where, Unique-update_where,
  Unique-delete_where, String, Option-cases, Bool-cases, inl, inr, if◌then◌else◌,
}
use rygnal_core.Operation.{
  is_incomplete, applying, OperationRecord, OperationReservation, OperationRecoveryResult, Lease,
  Database, Result, ok, err, Host,
}
use rygnal_core.Operation.Identity.{
  owner_record_is_active, RepositoryState, inspect_repository_state,
}
use rygnal_core.Operation.Store.{operation_of, resource_of, read_operation, read_lease}
use rygnal_core.Operation.Transition.{
  Change, write, untouched, to_failed, owned_transition, fail_inspected, fail_or_preserve_ambiguous,
}
use rygnal_core.Operation.Recovery.{
  still_incomplete, recover_change, recover_terminal, reconcile_one, reconcile_from,
  reconcile_incomplete, list_incomplete, recovered_change, released_change, reconcile_inspected,
}
use rygnal_core.Operation.Consistent.{Holds, Consistent}

abbrev pub lease_for : OperationRecord → Lease → Bool
lease_for r l = l.operation_key == r.operation_key

module _ (r : OperationRecord) (c : Change) (now : ℕ) (db : Database) where
  read_operation-recover_change :
      (k : String)
      → read_operation k (recover_change r c now db)
        ≡ changed (still_incomplete r) (write c now) (read_operation k db)
  unfolding recover_change
  read_operation-recover_change k =
      find-update_where operation_of (still_incomplete r) (write c now) k db.operations (λ o. refl)

  module _ (cons : Consistent db) (closes : is_incomplete c.next_state ≡ false) where
    read_lease-recover_change :
        (k : String)
        → read_lease k (recover_change r c now db) ≡ kept (lease_for r) (read_lease k db)
    unfolding recover_change
    read_lease-recover_change k =
        find-delete_where resource_of (lease_for r) k db.leases cons.leases_keyed

    lease_before :
        (k : String) (l : Lease)
        → read_lease k (recover_change r c now db) ≡ some l
        → (read_lease k db ≡ some l) × (lease_for r l ≡ false)
    lease_before k l e = ground (arith, read_lease-recover_change k)

    held_after :
        (k : String) (l : Lease)
        → read_lease k (recover_change r c now db) ≡ some l
        → (o : OperationRecord) × (read_operation l.operation_key (recover_change r c now db)
            ≡ some o)
          × Holds l o
    held_after k l e =
        let (before, left) = lease_before k l e in
        let (o, found, h) = cons.held k l before in
        (
          o,
          ground (
            arith,
            read_operation-recover_change l.operation_key,
            find-key operation_of l.operation_key o db.operations found,
          ),
          h,
        )

    row_before :
        (k : String) (o : OperationRecord)
        → read_operation k (recover_change r c now db) ≡ some o
        → is_incomplete o.state ≡ true
        → (read_operation k db ≡ some o) × ((k == r.operation_key) ≡ false)
    row_before k o e inc = elim (Option-cases (read_operation k db)) [
      | inl none_there ↦ ground (arith, read_operation-recover_change k)
      | inr (o', found) ↦ ground (
        arith,
        read_operation-recover_change k,
        find-key operation_of k o' db.operations found,
        closes,
      )
    ]

    leased_after :
        (k : String) (o : OperationRecord)
        → read_operation k (recover_change r c now db) ≡ some o
        → is_incomplete o.state ≡ true
        → (l : Lease) × (read_lease o.resource_key (recover_change r c now db) ≡ some l)
          × (l.operation_key ≡ k)
    leased_after k o e inc =
        let (found, other) = row_before k o e inc in
        let (l, lease, key) = cons.leased k o found inc in
        (l, ground (arith, read_lease-recover_change o.resource_key), key)

    pub recover_change-Consistent : Consistent (recover_change r c now db)
    unfolding recover_change
    recover_change-Consistent = record {
      operations_keyed =
          Unique-update_where operation_of (still_incomplete r) (write c now) db.operations
            (λ o. refl) cons.operations_keyed;
      leases_keyed = Unique-delete_where resource_of (lease_for r) db.leases cons.leases_keyed;
      held = held_after;
      leased = leased_after;
    }

    pub recover_terminal-Consistent : Consistent (recover_terminal r c now db).1
    unfolding recover_terminal
    recover_terminal-Consistent =
        elim (Bool-cases (nat_eq (count_where (still_incomplete r) db.operations) 1)) [
          | inl g ↦ rw g recover_change-Consistent
          | inr g ↦ rw g cons
        ]

if_keeps :
    {A : Type 0} (P : Database → Type 0) (b : Bool) (x y : A × Database)
    → P x.1
    → P y.1
    → P (if b then x else y).1
if_keeps P true x y p q = p
if_keeps P false x y p q = q

fail_keeps_from :
    (P : Database → Type 0) (now : ℕ) (db after : Database) (e : Result OperationRecord)
    (o : OperationRecord) (s : Result RepositoryState)
    → P db
    → P after
    → P (fail_inspected (e, after) o db s).1
unfolding fail_inspected
fail_keeps_from P now db after e o (err f) p q = p
fail_keeps_from P now db after e o (ok s) p q = if_keeps {A = Result Bool} P (untouched s o) _ _ q p

-- What the handling of a failure keeps, if the transition to FAILED keeps it.
pub fail_keeps :
    (P : Database → Type 0) (h : Host) (v : OperationReservation) (error : String) (now : ℕ)
    (db : Database)
    → P db
    → P (owned_transition v applying (to_failed error) true now db).1
    → P (fail_or_preserve_ambiguous h v error now db).1
unfolding fail_or_preserve_ambiguous
fail_keeps P h v error now db p q =
    elim (Option-cases (read_operation v.record_of.operation_key db)) [
      | inl gone ↦ rw (gone, fail_or_preserve_ambiguous) p
      | inr (o, there) ↦
          rw (there, fail_or_preserve_ambiguous)
            (fail_keeps_from P now db _ _ o (inspect_repository_state h o.target_repo_path) p q)
    ]

-- What recovery keeps, if the two terminal writes to a listed operation keep it.
module _ (P : Database → Type 0) (h : Host) (evidence : OperationRecord → Bool) (now : ℕ)
    (keeps : (r : OperationRecord) (c : Change) (db : Database)
      → is_incomplete c.next_state ≡ false
      → P db
      → P (recover_terminal r c now db).1) where
  reconcile_inspected_keeps :
      (r : OperationRecord) (db : Database) (s : Result RepositoryState)
      → P db
      → P (reconcile_inspected r now db s).1
  unfolding reconcile_inspected
  reconcile_inspected_keeps r db (err e) p = p
  reconcile_inspected_keeps r db (ok s) p =
      if_keeps {A = Result OperationRecoveryResult} P (untouched s r) _ _
        (keeps r released_change db refl p) p

  pub reconcile_one_keeps :
      (r : OperationRecord) (db : Database) → P db → P (reconcile_one h evidence now r db).1
  unfolding reconcile_one
  reconcile_one_keeps r db p =
      if_keeps {A = Result OperationRecoveryResult} P (owner_record_is_active h r) _ _ p (
        if_keeps {A = Result OperationRecoveryResult} P (evidence r) _ _
          (keeps r (recovered_change r) db (unfold recovered_change in refl) p)
          (reconcile_inspected_keeps r db (inspect_repository_state h r.target_repo_path) p))

  round_keeps :
      (res : Result OperationRecoveryResult)
      (more : OperationRecoveryResult → Result (List OperationRecoveryResult) × Database)
      (after : Database)
      → P after
      → ((x : OperationRecoveryResult) → P (more x).1)
      → P
          (let y : Result (List OperationRecoveryResult) × Database = elim res [
            | ok x ↦ more x
            | err e ↦ (err e, after)
          ] in
            y).1
  round_keeps (ok x) more after p q = q x
  round_keeps (err e) more after p q = p

  pub reconcile_from_keeps :
      (rs : List OperationRecord) (db : Database) → P db → P (reconcile_from h evidence now rs db).1
  unfolding reconcile_from
  reconcile_from_keeps [] db p = p
  reconcile_from_keeps (r ∷ rs) db p =
      let q = reconcile_one_keeps r db p in
      round_keeps (reconcile_one h evidence now r db).0 _ _ q
        (λ x. reconcile_from_keeps rs (reconcile_one h evidence now r db).1 q)

-- Crash recovery keeps the tables consistent, however far it gets.
pub reconcile_incomplete-Consistent :
    (h : Host) (evidence : OperationRecord → Bool) (now : ℕ) (db : Database)
    → Consistent db
    → Consistent (reconcile_incomplete h evidence now db).1
unfolding reconcile_incomplete
reconcile_incomplete-Consistent h evidence now db cons =
    reconcile_from_keeps Consistent h evidence now
      (λ r c d closes k. recover_terminal-Consistent r c now d k closes) (list_incomplete db) db
      cons
