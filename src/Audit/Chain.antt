-- ===== src/Audit/Chain.antt =====
-- What the hash chain promises (src/rygnal/audit_logger.py).
use rygnal_core.Common.{
  String, true, ◌≡◌, refl, ap, sym, ◌∙◌, List, [], ◌∷◌, ◌++◌, Option, none, some, arith, eq_refl,
  eq_of_true,
}
use rygnal_core.Audit.{
  AuditEvent, Digest, calculate_event_hash, last_hash_from, finalize, write_event, option_eq,
  verify_from, verify_integrity,
}

option_eq_refl : (o : Option String) → option_eq o o ≡ true
option_eq_refl none = refl
option_eq_refl (some s) = eq_refl s

option_eq_sound : (o p : Option String) → option_eq o p ≡ true → o ≡ p
option_eq_sound none none h = refl
option_eq_sound (some s) (some t) h = ap some (eq_of_true s t h)
option_eq_sound none (some t) h = ground arith
option_eq_sound (some s) none h = ground arith

verify_from-finalize :
    (digest : Digest) (before : Option String) (e : AuditEvent)
    → verify_from digest before (finalize digest before e ∷ []) ≡ true
unfolding verify_from finalize
verify_from-finalize digest before e = ground (
  arith,
  option_eq_refl before,
  eq_refl (calculate_event_hash digest (record e { prev_event_hash = before })),
)

-- A list verifies if and only if its parts do, the second after the last hash of the first.
verify_from-append :
    (digest : Digest) (before : Option String) (xs ys : List AuditEvent)
    → verify_from digest before xs ≡ true
    → verify_from digest (last_hash_from before xs) ys ≡ true
    → verify_from digest before (xs ++ ys) ≡ true
unfolding verify_from
verify_from-append digest before [] ys h k = k
verify_from-append digest before (x ∷ xs) ys h k =
    ground (arith, verify_from-append digest x.event_hash xs ys)

verify_from-split :
    (digest : Digest) (before : Option String) (xs ys : List AuditEvent)
    → verify_from digest before (xs ++ ys) ≡ true
    → (verify_from digest before xs ≡ true)
      × (verify_from digest (last_hash_from before xs) ys ≡ true)
unfolding verify_from
verify_from-split digest before [] ys h = (refl, h)
verify_from-split digest before (x ∷ xs) ys h =
    ground (arith, verify_from-split digest x.event_hash xs ys)

-- The log after the events are written, one after the other.
abbrev pub write_events : Digest → List AuditEvent → List AuditEvent → List AuditEvent
write_events digest [] log = log
write_events digest (e ∷ es) log = write_events digest es (write_event digest e log)

write_event-verify_integrity :
    (digest : Digest) (e : AuditEvent) (log : List AuditEvent)
    → verify_integrity digest log ≡ true
    → verify_integrity digest (write_event digest e log) ≡ true
unfolding verify_integrity write_event
write_event-verify_integrity digest e log h =
    verify_from-append digest none log (finalize digest (last_hash_from none log) e ∷ []) h
      (verify_from-finalize digest (last_hash_from none log) e)

-- A log that verifies still does after any events are written to it.
pub write_events-verify_integrity :
    (digest : Digest) (es log : List AuditEvent)
    → verify_integrity digest log ≡ true
    → verify_integrity digest (write_events digest es log) ≡ true
write_events-verify_integrity digest [] log h = h
write_events-verify_integrity digest (e ∷ es) log h =
    write_events-verify_integrity digest es (write_event digest e log)
      (write_event-verify_integrity digest e log h)

some_inj : {s t : String} → some s ≡ some t → s ≡ t
some_inj p = ap (λ o. elim o [ none ↦ "" | some s ↦ s ]) p

next-hash :
    (digest : Digest) (before : Option String) (e n : AuditEvent) (ys : List AuditEvent)
    → verify_from digest before (e ∷ n ∷ ys) ≡ true
    → n.prev_event_hash ≡ some (calculate_event_hash digest e)
unfolding verify_from
next-hash digest before e n ys h =
    option_eq_sound n.prev_event_hash e.event_hash (ground arith)
    ∙ sym (option_eq_sound (some (calculate_event_hash digest e)) e.event_hash (ground arith))

-- Two logs that both verify and agree from some event on have, just before it, events with the same
-- hash.
pub verify_integrity-binds :
    (digest : Digest) (xs zs ys : List AuditEvent) (e f n : AuditEvent)
    → verify_integrity digest (xs ++ e ∷ n ∷ ys) ≡ true
    → verify_integrity digest (zs ++ f ∷ n ∷ ys) ≡ true
    → calculate_event_hash digest e ≡ calculate_event_hash digest f
unfolding verify_integrity
verify_integrity-binds digest xs zs ys e f n h k =
    let (_, a) = verify_from-split digest none xs (e ∷ n ∷ ys) h in
    let (_, b) = verify_from-split digest none zs (f ∷ n ∷ ys) k in
    let p = next-hash digest (last_hash_from none xs) e n ys a in
    let q = next-hash digest (last_hash_from none zs) f n ys b in some_inj (sym p ∙ q)
