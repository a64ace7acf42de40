-- ===== src/Audit/Pages.antt =====
-- The bounds of a page of a query (src/rygnal/audit_query.py).
use mathlib.Core.Path.{subst}
use rygnal_core.Common.{
  ℕ, zero, suc, ◌+◌, ◌≤◌, Bool, true, false, ◌≡◌, refl, ap, List, [], ◌∷◌, Option, drop, length,
  map, arith, Checked, ok, bind_ok, ok_inj,
}
use rygnal_core.Audit.{AuditEvent}
use rygnal_core.Audit.Query.{
  to_nat, AuditQuery, AuditQueryResult, normalize_query, validate_query, AuditSource, Outside,
  read_audit_events_safely, parse_optional_timestamp, matches_query, keep_event, matching,
  reverse_onto, take, ordered, page_of, query_audit_events,
}

length-take :
    (n : ℕ) (es : List AuditEvent) → (length (take n es) ≤ n) × (length (take n es) ≤ length es)
length-take zero es = omega arith
length-take (suc n) [] = omega arith
length-take (suc n) (e ∷ es) = omega (arith, length-take n es)

length-drop_le : (n : ℕ) (es : List AuditEvent) → length (drop n es) ≤ length es
length-drop_le zero es = omega arith
length-drop_le (suc n) [] = omega arith
length-drop_le (suc n) (e ∷ es) = omega (arith, length-drop_le n es)

length-reverse_onto :
    (es later : List AuditEvent) → length (reverse_onto es later) ≡ length es + length later
length-reverse_onto [] later = omega arith
length-reverse_onto (e ∷ es) later = omega (arith, length-reverse_onto es (e ∷ later))

length-map : (f : AuditEvent → AuditEvent) (es : List AuditEvent) → length (map f es) ≡ length es
length-map f [] = refl
length-map f (e ∷ es) = ap suc (length-map f es)

length-keep_event :
    (b : Bool) (e : AuditEvent) (es : List AuditEvent)
    → length (keep_event b e es) ≤ suc (length es)
length-keep_event true e es = omega arith
length-keep_event false e es = omega arith

length-matching :
    (o : Outside) (q : AuditQuery) (since until : Option ℕ) (es fs : List AuditEvent)
    → matching o q since until es ≡ ok fs
    → length fs ≤ length es
length-matching o q since until [] fs h = subst (λ gs. length gs ≤ 0) (ok_inj [] fs h) (omega arith)
length-matching o q since until (e ∷ es) fs h =
    let m = bind_ok (matches_query o q since until e) _ fs h in
    let rest = bind_ok (matching o q since until es) _ fs m.2 in
    subst (λ gs. length gs ≤ suc (length es)) (ok_inj _ fs rest.2)
      (omega
        (arith, length-keep_event m.0 e rest.0, length-matching o q since until es rest.0 rest.1))

limit_le :
    (q : AuditQuery)
    → validate_query (normalize_query q) ≡ ok tt
    → to_nat (normalize_query q).limit ≤ to_nat q.max_limit
unfolding validate_query
limit_le q h = ground arith

length-ordered : (q : AuditQuery) (es : List AuditEvent) → length (ordered q es) ≡ length es
length-ordered q es = ground (arith, length-reverse_onto es [])

-- What a query answers has at most as many events as its maximal limit, as many as it counts, no more
-- than match, and no more match than were read.
pub query-bounds :
    (o : Outside) (source : AuditSource) (q : AuditQuery) (verify : Bool)
    (verifier : Option (Checked Bool)) (r : AuditQueryResult)
    → query_audit_events o source q verify verifier ≡ ok r
    → (r.returned_count ≤ to_nat q.max_limit)
      × (length r.events ≡ r.returned_count)
      × (r.returned_count ≤ r.total_matching)
      × (r.total_matching ≤ r.total_scanned)
unfolding query_audit_events
query-bounds o source q verify verifier r h =
    let n = normalize_query q in
    let valid = bind_ok (validate_query n) _ r h in
    let found = bind_ok (read_audit_events_safely o source) _ r valid.2 in
    let since = bind_ok (parse_optional_timestamp o n.since "since") _ r found.2 in
    let until = bind_ok (parse_optional_timestamp o n.until "until") _ r since.2 in
    let filtered = bind_ok (matching o n since.0 until.0 found.0.0.0) _ r until.2 in
    let page = length-take (to_nat n.limit) (drop (to_nat n.offset) (ordered n filtered.0)) in
    subst
      (λ (x : AuditQueryResult).
        (x.returned_count ≤ to_nat q.max_limit)
        × (length x.events ≡ x.returned_count)
        × (x.returned_count ≤ x.total_matching)
        × (x.total_matching ≤ x.total_scanned))
      (ok_inj _ r filtered.2)
      (
        omega (arith, page.0, limit_le q valid.1),
        length-map o.redact (page_of n (ordered n filtered.0)),
        omega (
          arith,
          page.1,
          length-drop_le (to_nat n.offset) (ordered n filtered.0),
          length-ordered n filtered.0,
        ),
        length-matching o n since.0 until.0 found.0.0.0 filtered.0 filtered.1,
      )
