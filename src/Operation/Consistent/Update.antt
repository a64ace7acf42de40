-- ===== src/Operation/Consistent/Update.antt =====
-- A transition of a reservation keeps the tables consistent.
use rygnal_core.Common.{
  ℕ, ◌≡◌, refl, Bool, true, false, not, ◌&&◌, ◌==◌, some, arith, eq_iff, Unique, changed, kept,
  nat_eq, count_where, find-key, find-update_where, find-delete_where, count-find,
  Unique-update_where, Unique-delete_where, String, if◌then◌else◌, Option-cases, Bool-cases, inl,
  inr,
}
use rygnal_core.Operation.{
  is_incomplete, state_eq, OperationState, OperationRecord, OperationReservation, Lease, Database,
}
use rygnal_core.Operation.Store.{operation_of, resource_of, read_operation, read_lease}
use rygnal_core.Operation.Transition.{
  Change, write, owned_by, leased_by, apply_change, owned_transition,
}
use rygnal_core.Operation.Consistent.{Holds, Consistent}

-- The reservation names the resource of the row that it owns.
abbrev pub Genuine : OperationRecord → Database → Type 0
Genuine r db =
    (o : OperationRecord)
    → read_operation r.operation_key db ≡ some o
    → o.owner_token ≡ r.owner_token
    → o.resource_key ≡ r.resource_key

module _ (r : OperationRecord) (expected : OperationState) (c : Change) (release : Bool) (now : ℕ)
    (db : Database) where
  read_operation-apply_change :
      (k : String)
      → read_operation k (apply_change r expected c release now db)
        ≡ changed (owned_by r expected) (write c now) (read_operation k db)
  unfolding apply_change
  read_operation-apply_change k =
      find-update_where operation_of (owned_by r expected) (write c now) k db.operations (λ o. refl)

  read_lease-apply_change :
      (k : String)
      → Unique resource_of db.leases
      → read_lease k (apply_change r expected c release now db)
        ≡ (if release then kept (leased_by r) (read_lease k db) else read_lease k db)
  unfolding apply_change
  read_lease-apply_change k u =
      ground (arith, find-delete_where resource_of (leased_by r) k db.leases u)

  -- The row that the `UPDATE` found.
  pub owned_row :
      Unique operation_of db.operations
      → nat_eq (count_where (owned_by r expected) db.operations) 1 ≡ true
      → (o : OperationRecord) × (read_operation r.operation_key db ≡ some o)
        × (owned_by r expected o ≡ true)
  owned_row u g =
      let n =
        count-find operation_of
          (λ (o : OperationRecord). state_eq o.state expected && o.owner_token == r.owner_token)
          r.operation_key db.operations u in
      elim (Option-cases (read_operation r.operation_key db)) [
        | inl e ↦ ground (arith, n)
        | inr (o, e) ↦ (
          o,
          e,
          ground (
            arith,
            n,
            find-key operation_of r.operation_key o db.operations e,
            eq_iff o.operation_key r.operation_key,
          ),
        )
      ]

  module _ (cons : Consistent db) (genuine : Genuine r db)
      (guard : nat_eq (count_where (owned_by r expected) db.operations) 1 ≡ true)
      (closes : is_incomplete c.next_state ≡ not release)
      (opened : is_incomplete expected ≡ true) where
    -- A lease that is left was there before, and was not the one to release.
    lease_before :
        (k : String) (l : Lease)
        → read_lease k (apply_change r expected c release now db) ≡ some l
        → (read_lease k db ≡ some l) × ((release && leased_by r l) ≡ false)
    lease_before k l e = ground (arith, read_lease-apply_change k cons.leases_keyed)

    -- The owned row is not held through a lease that is left.
    Holds-write :
        (l : Lease) (o : OperationRecord)
        → (release && leased_by r l) ≡ false
        → read_operation l.operation_key db ≡ some o
        → Holds l o
        → Holds l (if owned_by r expected o then write c now o else o)
    Holds-write l o left found h = ground (
      arith,
      genuine o,
      find-key operation_of l.operation_key o db.operations found,
      eq_iff o.operation_key r.operation_key,
      eq_iff o.owner_token r.owner_token,
      eq_iff l.operation_key r.operation_key,
      eq_iff l.owner_token r.owner_token,
      eq_iff l.resource_key r.resource_key,
    )

    held_after :
        (k : String) (l : Lease)
        → read_lease k (apply_change r expected c release now db) ≡ some l
        → (o : OperationRecord) × (read_operation l.operation_key
              (apply_change r expected c release now db)
            ≡ some o)
          × Holds l o
    held_after k l e =
        let (before, left) = lease_before k l e in
        let (o, found, h) = cons.held k l before in
        (
          if owned_by r expected o then write c now o else o,
          rw (read_operation-apply_change, found) refl,
          Holds-write l o left found h,
        )

    -- The row before the transition, and whether it was the owned one.
    row_before :
        (k : String) (o : OperationRecord)
        → read_operation k (apply_change r expected c release now db) ≡ some o
        → is_incomplete o.state ≡ true
        → (o' : OperationRecord) × (read_operation k db ≡ some o')
          × (is_incomplete o'.state ≡ true)
          × (o'.resource_key ≡ o.resource_key)
          × ((release && owned_by r expected o') ≡ false)
    row_before k o e inc = elim (Option-cases (read_operation k db)) [
      | inl none_there ↦ ground (arith, read_operation-apply_change k)
      | inr (o', found) ↦ (
        o',
        found,
        ground (arith, read_operation-apply_change k),
        ground (arith, read_operation-apply_change k),
        ground (arith, read_operation-apply_change k),
      )
    ]

    leased_after :
        (k : String) (o : OperationRecord)
        → read_operation k (apply_change r expected c release now db) ≡ some o
        → is_incomplete o.state ≡ true
        → (l : Lease) × (read_lease o.resource_key (apply_change r expected c release now db)
            ≡ some l)
          × (l.operation_key ≡ k)
    leased_after k o e inc =
        let (o', found, inc', same, left) = row_before k o e inc in
        let (l, lease, key) = cons.leased k o' found inc' in
        let (mine, there, owned) = owned_row cons.operations_keyed guard in
        (
          l,
          ground (
            arith,
            read_lease-apply_change o.resource_key cons.leases_keyed,
            eq_iff l.operation_key r.operation_key,
          ),
          key,
        )

    pub apply_change-Consistent : Consistent (apply_change r expected c release now db)
    unfolding apply_change
    apply_change-Consistent = record {
      operations_keyed =
          Unique-update_where operation_of (owned_by r expected) (write c now) db.operations
            (λ o. refl) cons.operations_keyed;
      leases_keyed = ground (
        arith,
        cons.leases_keyed,
        Unique-delete_where resource_of (leased_by r) db.leases cons.leases_keyed,
      );
      held = held_after;
      leased = leased_after;
    }

-- Whether it commits or raises, a transition of a genuine reservation keeps the tables consistent.
pub owned_transition-Consistent :
    (v : OperationReservation) (expected : OperationState) (c : Change) (release : Bool) (now : ℕ)
    (db : Database)
    → Consistent db
    → Genuine v.record_of db
    → is_incomplete c.next_state ≡ not release
    → is_incomplete expected ≡ true
    → Consistent (owned_transition v expected c release now db).1
unfolding owned_transition
owned_transition-Consistent v expected c release now db cons genuine closes opened =
    elim (Bool-cases (nat_eq (count_where (owned_by v.record_of expected) db.operations) 1)) [
      | inl g ↦ rw g (
          apply_change-Consistent v.record_of expected c release now db cons genuine g closes
            opened)
      | inr g ↦ rw g cons
    ]
