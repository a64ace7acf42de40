-- ===== src/Operation.antt =====
-- src/rygnal/operation_store.py: durable operations and repository leases.
-- The rows of the two tables, the errors, and the host that the code inspects. The time is a
-- number of ticks, and the result of an operation is JSON.
pub mod Identity
pub mod Store
pub mod Transition
pub mod Recovery
pub mod Consistent
pub mod Processes
pub mod Outcomes
mod Tests
use rygnal_core.Common.{ℕ, String, Bool, true, false, List, Option, ◌≡◌}
use rygnal_core.Models.{Value}

pub data OperationState : Type 0 where
  reserved applying applied failed : OperationState

abbrev pub state_eq : OperationState → OperationState → Bool
state_eq reserved reserved = true
state_eq applying applying = true
state_eq applied applied = true
state_eq failed failed = true
state_eq _ _ = false

-- The states of `list_incomplete`.
abbrev pub is_incomplete : OperationState → Bool
is_incomplete reserved = true
is_incomplete applying = true
is_incomplete _ = false

pub data OperationRecoveryStatus : Type 0 where
  active released applied_recovered unresolved : OperationRecoveryStatus

pub record OperationRecord : Type 0 where
  pub operation_key : String
  pub resource_key : String
  pub artifact_id : String
  pub approval_id : String
  pub patch_sha256 : String
  pub baseline_commit_sha : String
  pub target_repo_path : String
  pub state : OperationState
  pub owner_token : String
  pub owner_pid : ℕ
  pub owner_start_token : String
  pub created_at_unix : ℕ
  pub updated_at_unix : ℕ
  pub retryable : Bool
  pub result : Option Value
  pub error : Option String

pub record OperationReservation : Type 0 where
  pub record_of : OperationRecord
  pub acquired : Bool
  pub replayed : Bool

pub record OperationRecoveryResult : Type 0 where
  pub operation_key : String
  pub artifact_id : String
  pub status : OperationRecoveryStatus
  pub message : String
  pub target_repo_path : String

-- A row of `resource_leases`.
pub record Lease : Type 0 where
  pub resource_key : String
  pub operation_key : String
  pub owner_token : String
  pub owner_pid : ℕ
  pub owner_start_token : String

-- The durable state: the tables `operations` and `resource_leases`.
pub record Database : Type 0 where
  pub operations : List OperationRecord
  pub leases : List Lease

-- The exceptions; `integrity` is sqlite3's, for a row that breaks a constraint.
pub data Failure : Type 0 where
  conflict recovery_required terminal store integrity : String → Failure

pub data Result (A : Type 0) : Type 0 where
  ok : A → Result A
  err : Failure → Result A

infixl 5 ◌>>=◌
abbrev pub ◌>>=◌ : {A B : Type 0} → Result A → (A → Result B) → Result B
ok a >>= f = f a
err e >>= f = err e

-- `/proc/PID/stat`, split at white space.
pub data ProcStat : Type 0 where
  missing unreadable : ProcStat
  fields : List String → ProcStat

-- A finished subprocess: the exit code is 0, and the two streams.
pub record Completed : Type 0 where
  pub succeeded : Bool
  pub stdout : String
  pub stderr : String

-- What the code asks of the operating system and of hashlib.
pub record Host : Type 0 where
  pub proc_stat : ℕ → ProcStat
  pub ps : Option (ℕ → Completed)
  pub words : String → List String
  pub sha256 : String → String
  pub resolve : String → String
  pub is_dir : String → Bool
  pub git : Option (String → List String → Completed)
