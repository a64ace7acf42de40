-- ===== src/Operation/Consistent.antt =====
-- The invariant that ties the two tables of the operation store together.
pub mod Reserve
pub mod Update
pub mod Recover
use rygnal_core.Common.{String, ◌≡◌, Bool, true, none, some, Unique, find, [], refl, arith}
use rygnal_core.Operation.{is_incomplete, OperationRecord, Lease, Database}
use rygnal_core.Operation.Store.{operation_of, resource_of, read_operation, read_lease}

-- The operation that a lease is held for.
pub record Holds (l : Lease) (o : OperationRecord) : Type 0 where
  pub incomplete : is_incomplete o.state ≡ true
  pub same_resource : o.resource_key ≡ l.resource_key
  pub same_token : o.owner_token ≡ l.owner_token

pub record Consistent (db : Database) : Type 0 where
  pub operations_keyed : Unique operation_of db.operations
  pub leases_keyed : Unique resource_of db.leases
  -- Every lease is held by an incomplete operation.
  pub held :
      (r : String) (l : Lease)
      → read_lease r db ≡ some l
      → (o : OperationRecord) × (read_operation l.operation_key db ≡ some o) × Holds l o
  -- Every incomplete operation holds the lease of its resource.
  pub leased :
      (k : String) (o : OperationRecord)
      → read_operation k db ≡ some o
      → is_incomplete o.state ≡ true
      → (l : Lease) × (read_lease o.resource_key db ≡ some l) × (l.operation_key ≡ k)
