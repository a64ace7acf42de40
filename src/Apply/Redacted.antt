-- ===== src/Apply/Redacted.antt =====
-- A replay that the redaction of the audit log hides (src/rygnal/approved_apply.py,
-- src/rygnal/audit_logger.py).
use rygnal_core.Common.{
  false, ◌≡◌, ◌≢◌, refl, ap, ◌∙◌, List, [], ◌∷◌, ◌++◌, ok, ◌>>=◌, arith, eq_iff,
}
use rygnal_core.Approval.Receipt.{Hasher}
use rygnal_core.Apply.Granted.{Clock}
use rygnal_core.Apply.Approved.{
  UseKey, key_in, approval_use_key, ApplyEvent, Surroundings, State, Call, ensure_applicable,
  event_matches_key, ensure_approval_not_previously_applied, apply_event, log_applied,
  apply_reserved, apply_approved_patch,
}
use rygnal_core.Apply.Replay.{any-append, event_matches_key-apply_event}

-- The state once Git has applied the patch of a use and the log has taken its event.
abbrev after_apply : Surroundings → UseKey → State → State
after_apply w k s = record {
  used = k ∷ s.used;
  events = s.events ++ apply_event w k ∷ [];
  applied = k ∷ s.applied;
}

reserved-after :
    (w : Surroundings) (c : Call) (k : UseKey) (s : State)
    → key_in k s.used ≡ false
    → (w.patch_applies >>= λ done. w.patch_applied) ≡ ok tt
    → w.written ≡ ok tt
    → (apply_reserved w c k s).1 ≡ after_apply w k s
unfolding apply_reserved log_applied
reserved-after w c k s fresh patched written = rw (fresh, patched, written) refl

apply-after :
    (h : Hasher) (clock : Clock) (w : Surroundings) (c : Call) (s : State)
    → ensure_applicable h clock w c ≡ ok tt
    → ensure_approval_not_previously_applied w (approval_use_key c.request c.patch) s.events ≡ ok tt
    → key_in (approval_use_key c.request c.patch) s.used ≡ false
    → (w.patch_applies >>= λ done. w.patch_applied) ≡ ok tt
    → w.written ≡ ok tt
    → (apply_approved_patch h clock w c s).1 ≡ after_apply w (approval_use_key c.request c.patch) s
unfolding apply_approved_patch
apply-after h clock w c s checked unlogged fresh patched written =
    rw (checked, unlogged, apply_approved_patch)
      (reserved-after w c (approval_use_key c.request c.patch) s fresh patched written)

-- An event whose approval is redacted does not make its use known.
still_unlogged :
    (w : Surroundings) (k : UseKey) (events : List ApplyEvent)
    → w.redact_sensitive_string k.0 ≢ k.0
    → ensure_approval_not_previously_applied w k events ≡ ok tt
    → ensure_approval_not_previously_applied w k (events ++ apply_event w k ∷ []) ≡ ok tt
unfolding ensure_approval_not_previously_applied
still_unlogged w k events changed h = ground (
  arith,
  any-append (event_matches_key k) events (apply_event w k ∷ []),
  event_matches_key-apply_event w k,
  eq_iff (w.redact_sensitive_string k.0) k.0,
)

-- A call that passes the checks under a new use, whose patch Git applies and whose event is written,
-- is applied a second time by the same call after a restart, where the redaction changes the
-- identifier of the approval and the repository and Git are again as they were.
pub apply-redacted :
    (h : Hasher) (clock : Clock) (w : Surroundings) (c : Call) (s : State)
    → ensure_applicable h clock w c ≡ ok tt
    → ensure_approval_not_previously_applied w (approval_use_key c.request c.patch) s.events ≡ ok tt
    → key_in (approval_use_key c.request c.patch) s.used ≡ false
    → (w.patch_applies >>= λ done. w.patch_applied) ≡ ok tt
    → w.written ≡ ok tt
    → w.redact_sensitive_string c.request.approval_id ≢ c.request.approval_id
    → let k = approval_use_key c.request c.patch in
      let t = (apply_approved_patch h clock w c s).1 in
      (apply_approved_patch h clock w c (record t { used = [] })).1.applied ≡ k ∷ k ∷ s.applied
apply-redacted h clock w c s checked unlogged fresh patched written changed =
    let k = approval_use_key c.request c.patch in
    let first = apply-after h clock w c s checked unlogged fresh patched written in
    let restarted = record (after_apply w k s) { used = [] } in
    let second =
      apply-after h clock w c restarted checked (still_unlogged w k s.events changed unlogged) refl
        patched written in
    ap (λ (t : State). (apply_approved_patch h clock w c (record t { used = [] })).1.applied) first
    ∙ ap (λ (t : State). t.applied) second
