-- ===== src/Audit/Tests.antt =====
-- A log of two events, and the theorems applied to it.
use rygnal_core.Common.{
  ◌≤◌, true, false, ◌≡◌, refl, [], ◌∷◌, none, some, length, decimal, strip, ok, err,
}
use rygnal_core.Models.{null, Decision, Severity}
use rygnal_core.Audit.{AuditEvent, Digest, calculate_event_hash, verify_from, verify_integrity}
use rygnal_core.Audit.Chain.{write_events, write_events-verify_integrity, verify_integrity-binds}
use rygnal_core.Audit.Query.{
  pos, AuditQuery, AuditQueryResult, AuditSource, reader, Outside, validate_query,
  read_audit_events_safely, parse_optional_timestamp, matches_fields, matches_query,
  verify_integrity_if_requested, query_audit_events,
}
use rygnal_core.Audit.Pages.{query-bounds}

-- The hash of an event is its identifier.
abbrev digest : Digest
digest e = e.event_id

abbrev event : AuditEvent
event = record {
  schema_version = "audit.v2";
  rygnal_package_version = some "1";
  event_id = "evt_1";
  timestamp = "t";
  trace_id = "trace_1";
  user_id = "ann";
  agent_id = "agent";
  environment = "local";
  tool_name = "shell";
  action = none;
  target = null;
  input = null;
  decision = Decision.block;
  allowed = false;
  severity = Severity.high;
  policy_id = none;
  reason = "r";
  metadata = [];
  prev_event_hash = none;
  event_hash = none;
}

abbrev later : AuditEvent
later = record event { event_id = "evt_2" }

abbrev first_line : AuditEvent
first_line = record event { event_hash = some "evt_1" }

-- The first line with another reason, which this digest does not see.
abbrev changed_line : AuditEvent
changed_line = record first_line { reason = "s" }

abbrev second_line : AuditEvent
second_line = record later { prev_event_hash = some "evt_1"; event_hash = some "evt_2" }

two_lines : verify_integrity digest (first_line ∷ second_line ∷ []) ≡ true
unfolding verify_from verify_integrity
two_lines = refl

two_changed_lines : verify_integrity digest (changed_line ∷ second_line ∷ []) ≡ true
unfolding verify_from verify_integrity
two_changed_lines = refl

empty_log : verify_integrity digest [] ≡ true
unfolding verify_from verify_integrity
empty_log = refl

write_events-verify_integrity_example :
    verify_integrity digest (write_events digest (event ∷ later ∷ []) []) ≡ true
write_events-verify_integrity_example =
    write_events-verify_integrity digest (event ∷ later ∷ []) [] empty_log

verify_integrity-binds_example :
    calculate_event_hash digest first_line ≡ calculate_event_hash digest changed_line
verify_integrity-binds_example =
    verify_integrity-binds digest [] [] [] first_line changed_line second_line two_lines
      two_changed_lines

-- A query for the shell, of a source with one object that is no event.
abbrev shell_query : AuditQuery
shell_query = record {
  event_id = none;
  trace_id = none;
  decision = some "block";
  tool_name = some "shell";
  action = none;
  severity = none;
  policy_id = none;
  since = some " 1 ";
  until = none;
  limit = pos 900;
  offset = pos 1;
  max_limit = pos 500;
  newest_first = true;
}

abbrev outside : Outside
outside = record { parse_event = λ s. none; clock = λ s. some 1; redact = λ e. e }

abbrev source : AuditSource
source = reader (ok (some event ∷ none ∷ some later ∷ []))

abbrev shell_events : AuditQueryResult
shell_events = record {
  events = event ∷ [];
  total_scanned = 2;
  total_matching = 2;
  returned_count = 1;
  malformed_count = 1;
  warnings = "Skipped 1 malformed audit event(s)." ∷ [];
  limit = pos 500;
  offset = pos 1;
  newest_first = true;
  integrity_verified = none;
}

shell_found : query_audit_events outside source shell_query false none ≡ ok shell_events
unfolding query_audit_events validate_query read_audit_events_safely parse_optional_timestamp strip
    matches_query matches_fields verify_integrity_if_requested decimal
shell_found = refl

-- One event without a valid time fails the whole query.
undated_fails :
    query_audit_events
      (record outside { clock = λ s. none })
      source
      (record shell_query { since = none })
      false
      none
    ≡ err "Invalid audit query event timestamp."
unfolding query_audit_events validate_query read_audit_events_safely parse_optional_timestamp strip
    matches_query matches_fields verify_integrity_if_requested
undated_fails = refl

query-bounds_example :
    (shell_events.returned_count ≤ 500)
    × (length shell_events.events ≡ shell_events.returned_count)
    × (shell_events.returned_count ≤ shell_events.total_matching)
    × (shell_events.total_matching ≤ shell_events.total_scanned)
query-bounds_example = query-bounds outside source shell_query false none shell_events shell_found
