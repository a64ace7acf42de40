-- ===== src/Audit/Query.antt =====
-- src/rygnal/audit_query.py: read-only queries of the audit log. The parsing of JSON, of timestamps
-- and the redaction of src/rygnal/security.py are given as functions.
use rygnal_core.Common.{
  ℕ, zero, suc, String, Bool, true, false, not, ◌&&◌, List, [], ◌∷◌, ◌++◌, Option, none, some,
  if◌then◌else◌, ◌==◌, concat, decimal, drop, length, ltb, leb, map, strip, truthy, Checked, Passed,
  ok, err, ◌>>=◌,
}
use rygnal_core.Models.{Severity, decision_value}
use rygnal_core.Audit.{AuditEvent}

-- Python's integers, over the native numbers.
pub data ℤ : Type 0 where
  pos negsuc : ℕ → ℤ

abbrev pub is_negative : ℤ → Bool
is_negative (pos n) = false
is_negative (negsuc n) = true

-- The number of an integer that is not negative.
abbrev pub to_nat : ℤ → ℕ
to_nat (pos n) = n
to_nat (negsuc n) = 0

-- `a < b`
abbrev pub int_lt : ℤ → ℤ → Bool
int_lt (pos a) (pos b) = ltb a b
int_lt (pos a) (negsuc b) = false
int_lt (negsuc a) (pos b) = true
int_lt (negsuc a) (negsuc b) = ltb b a

pub record AuditQuery : Type 0 where
  pub event_id : Option String
  pub trace_id : Option String
  pub decision : Option String
  pub tool_name : Option String
  pub action : Option String
  pub severity : Option String
  pub policy_id : Option String
  pub since : Option String
  pub until : Option String
  pub limit : ℤ
  pub offset : ℤ
  pub max_limit : ℤ
  pub newest_first : Bool

pub record AuditQueryResult : Type 0 where
  pub events : List AuditEvent
  pub total_scanned : ℕ
  pub total_matching : ℕ
  pub returned_count : ℕ
  pub malformed_count : ℕ
  pub warnings : List String
  pub limit : ℤ
  pub offset : ℤ
  pub newest_first : Bool
  pub integrity_verified : Option Bool

-- `_normalize_query`
abbrev pub normalize_query : AuditQuery → AuditQuery
normalize_query q = if int_lt q.max_limit q.limit then record q { limit = q.max_limit } else q

-- `_validate_query`
unfoldable pub validate_query : AuditQuery → Passed
validate_query q =
    if is_negative q.limit
    then err "Audit query limit must not be negative."
    else if is_negative q.offset
    then err "Audit query offset must not be negative."
    else if not (int_lt (pos 0) q.max_limit)
    then err "Audit query max_limit must be positive."
    else ok tt

-- Where the events come from: the lines of a file, where there is one, a reader of objects of which
-- some are no events, or none of these.
pub data AuditSource : Type 0 where
  jsonl : Option (List String) → AuditSource
  reader : Checked (List (Option AuditEvent)) → AuditSource
  unsupported : AuditSource

pub record Outside : Type 0 where
  pub parse_event : String → Option AuditEvent
  pub clock : String → Option ℕ
  pub redact : AuditEvent → AuditEvent

-- Events that were read, and how many were not events.
abbrev counted_events : List (Option AuditEvent) → List AuditEvent × ℕ
counted_events [] = ([], 0)
counted_events (none ∷ xs) = let rest = counted_events xs in (rest.0, suc rest.1)
counted_events (some e ∷ xs) = let rest = counted_events xs in (e ∷ rest.0, rest.1)

abbrev parsed_lines : Outside → List String → List (Option AuditEvent)
parsed_lines o [] = []
parsed_lines o (line ∷ lines) =
    let rest = parsed_lines o lines in
    if truthy (strip line) then o.parse_event line ∷ rest else rest

-- `_read_audit_events_safely`, with the end of the warning for its source.
unfoldable pub read_audit_events_safely :
    Outside → AuditSource → Checked ((List AuditEvent × ℕ) × String)
read_audit_events_safely o (jsonl none) = ok (([], 0), "")
read_audit_events_safely o (jsonl (some lines)) =
    ok (counted_events (parsed_lines o lines), " malformed audit log line(s).")
read_audit_events_safely o (reader (err e)) = err "Could not read audit events from source."
read_audit_events_safely o (reader (ok xs)) = ok (counted_events xs, " malformed audit event(s).")
read_audit_events_safely o unsupported = err "Unsupported audit query source."

abbrev skip_warnings : ℕ → String → List String
skip_warnings zero noun = []
skip_warnings (suc n) noun = concat ("Skipped " ∷ decimal (suc n) ∷ noun ∷ []) ∷ []

abbrev severity_text : Severity → String
severity_text Severity.low = "low"
severity_text Severity.medium = "medium"
severity_text Severity.high = "high"
severity_text Severity.critical = "critical"

-- `_parse_optional_timestamp`
unfoldable pub parse_optional_timestamp : Outside → Option String → String → Checked (Option ℕ)
parse_optional_timestamp o none field = ok none
parse_optional_timestamp o (some value) field =
    if truthy (strip value)
    then elim (o.clock (strip value)) [
      | none ↦ err (concat ("Invalid audit query " ∷ field ∷ "." ∷ []))
      | some t ↦ ok (some t)
    ]
    else err (concat ("Audit query " ∷ field ∷ " must not be blank." ∷ []))

abbrev wanted : Option String → String → Bool
wanted none s = true
wanted (some w) s = s == w

abbrev wanted_option : Option String → Option String → Bool
wanted_option none s = true
wanted_option (some w) none = false
wanted_option (some w) (some s) = s == w

abbrev not_before : Option ℕ → Option ℕ → Bool
not_before (some bound) (some t) = leb bound t
not_before _ _ = true

abbrev not_after : Option ℕ → Option ℕ → Bool
not_after (some bound) (some t) = leb t bound
not_after _ _ = true

-- The tests of `_matches_query` before the times.
unfoldable pub matches_fields : AuditQuery → AuditEvent → Bool
matches_fields q e =
    wanted q.event_id e.event_id
    && (wanted q.trace_id e.trace_id
        && (wanted q.decision (decision_value e.decision)
            && (wanted q.tool_name e.tool_name
                && (wanted_option q.action e.action
                    && (wanted q.severity (severity_text e.severity)
                        && wanted_option q.policy_id e.policy_id)))))

-- `_matches_query`: the timestamp of an event is parsed where its fields match.
unfoldable pub matches_query :
    Outside → AuditQuery → Option ℕ → Option ℕ → AuditEvent → Checked Bool
unfolding matches_fields parse_optional_timestamp
matches_query o q since until e =
    if matches_fields q e
    then parse_optional_timestamp o (some e.timestamp) "event timestamp"
      >>= (λ t. ok (not_before since t && not_after until t))
    else ok false

abbrev pub keep_event : Bool → AuditEvent → List AuditEvent → List AuditEvent
keep_event true e es = e ∷ es
keep_event false e es = es

abbrev pub matching :
    Outside → AuditQuery → Option ℕ → Option ℕ → List AuditEvent → Checked (List AuditEvent)
matching o q since until [] = ok []
matching o q since until (e ∷ es) = do
  m ← matches_query o q since until e
  rest ← matching o q since until es
  ok (keep_event m e rest)

abbrev pub reverse_onto : List AuditEvent → List AuditEvent → List AuditEvent
reverse_onto [] later = later
reverse_onto (e ∷ es) later = reverse_onto es (e ∷ later)

abbrev pub take : ℕ → List AuditEvent → List AuditEvent
take zero es = []
take (suc n) [] = []
take (suc n) (e ∷ es) = e ∷ take n es

abbrev pub ordered : AuditQuery → List AuditEvent → List AuditEvent
ordered q es = if q.newest_first then reverse_onto es [] else es

-- `filtered[offset : offset + limit]`
abbrev pub page_of : AuditQuery → List AuditEvent → List AuditEvent
page_of q es = take (to_nat q.limit) (drop (to_nat q.offset) es)

-- `_verify_integrity_if_requested`; the verifier of the source, where it has one.
unfoldable pub verify_integrity_if_requested :
    Bool → Option (Checked Bool) → Option Bool × List String
verify_integrity_if_requested false verifier = (none, [])
verify_integrity_if_requested true none =
    (none, "Audit integrity verification is unavailable for this source." ∷ [])
verify_integrity_if_requested true (some (ok b)) = (some b, [])
verify_integrity_if_requested true (some (err e)) =
    (some false, "Audit integrity verification failed." ∷ [])

unfoldable pub query_audit_events :
    Outside → AuditSource → AuditQuery → Bool → Option (Checked Bool) → Checked AuditQueryResult
unfolding validate_query read_audit_events_safely parse_optional_timestamp matches_query
    verify_integrity_if_requested
query_audit_events o source query verify verifier = do
  valid ← validate_query (normalize_query query)
  found ← read_audit_events_safely o source
  since ← parse_optional_timestamp o (normalize_query query).since "since"
  until ← parse_optional_timestamp o (normalize_query query).until "until"
  filtered ← matching o (normalize_query query) since until found.0.0
  ok (
      let q = normalize_query query in
      let page = page_of q (ordered q filtered) in
      let integrity = verify_integrity_if_requested verify verifier in
      record {
        events = map o.redact page;
        total_scanned = length found.0.0;
        total_matching = length filtered;
        returned_count = length page;
        malformed_count = found.0.1;
        warnings = skip_warnings found.0.1 found.1 ++ integrity.1;
        limit = q.limit;
        offset = q.offset;
        newest_first = q.newest_first;
        integrity_verified = integrity.0;
      })
