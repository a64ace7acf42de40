-- ===== src/Audit.antt =====
-- The audit log of src/rygnal/audit_logger.py, as lines of a JSONL file: the hash chain, its append
-- and its verification. The canonical JSON and SHA-256 of an event are a function that is given.
pub mod Chain
pub mod Query
pub mod Pages
mod Tests
use rygnal_core.Common.{
  String, Bool, true, false, not, ◌&&◌, List, [], ◌∷◌, ◌++◌, Option, none, some, ◌==◌,
  if◌then◌else◌,
}
use rygnal_core.Models.{Value, Decision, Severity}

-- `AuditEvent` of src/rygnal/models.py. The version is optional here, since an event of the schema
-- audit.v1 is hashed without it.
pub record AuditEvent : Type 0 where
  pub schema_version : String
  pub rygnal_package_version : Option String
  pub event_id : String
  pub timestamp : String
  pub trace_id : String
  pub user_id : String
  pub agent_id : String
  pub environment : String
  pub tool_name : String
  pub action : Option String
  pub target : Value
  pub input : Value
  pub decision : Decision
  pub allowed : Bool
  pub severity : Severity
  pub policy_id : Option String
  pub reason : String
  pub metadata : List (String × Value)
  pub prev_event_hash : Option String
  pub event_hash : Option String

abbrev pub Digest : Type 0
Digest = AuditEvent → String

-- What is hashed of an event.
abbrev pub hashed_part : AuditEvent → AuditEvent
hashed_part e =
    if e.schema_version == "audit.v1"
    then record e { event_hash = none; rygnal_package_version = none }
    else record e { event_hash = none }

abbrev pub calculate_event_hash : Digest → AuditEvent → String
calculate_event_hash digest e = digest (hashed_part e)

-- `_last_hash_from_handle`: the hash of the last line; `before` is that of the lines before.
abbrev pub last_hash_from : Option String → List AuditEvent → Option String
last_hash_from before [] = before
last_hash_from before (e ∷ es) = last_hash_from e.event_hash es

-- The event with its place in the chain.
unfoldable pub finalize : Digest → Option String → AuditEvent → AuditEvent
finalize digest before e = record e {
  prev_event_hash = before;
  event_hash = some (calculate_event_hash digest (record e { prev_event_hash = before }));
}

-- `write_event` on the log, under its lock.
unfoldable pub write_event : Digest → AuditEvent → List AuditEvent → List AuditEvent
unfolding finalize
write_event digest e log = log ++ finalize digest (last_hash_from none log) e ∷ []

abbrev pub option_eq : Option String → Option String → Bool
option_eq none none = true
option_eq (some s) (some t) = s == t
option_eq _ _ = false

-- The loop of `verify_integrity`; `previous` is `previous_hash`.
unfoldable pub verify_from : Digest → Option String → List AuditEvent → Bool
verify_from digest previous [] = true
verify_from digest previous (e ∷ es) =
    let rest = verify_from digest e.event_hash es in
    if not (option_eq e.prev_event_hash previous)
    then false
    else if not (option_eq (some (calculate_event_hash digest e)) e.event_hash)
    then false
    else rest

unfoldable pub verify_integrity : Digest → List AuditEvent → Bool
unfolding verify_from
verify_integrity digest log = verify_from digest none log
