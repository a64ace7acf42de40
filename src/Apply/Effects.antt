-- ===== src/Apply/Effects.antt =====
-- What a call of `apply_approved_patch` does to the state (src/rygnal/approved_apply.py).
use rygnal_core.Common.{
  String, true, false, ◌≡◌, refl, ap, ◌⊎◌, inl, inr, List, [], ◌∷◌, ◌++◌, any, ok, err, ◌>>=◌,
  bind_ok, Checked-cases, arith, eq_refl, Bool-cases,
}
use rygnal_core.Approval.Receipt.{Hasher}
use rygnal_core.Apply.Granted.{Clock}
use rygnal_core.Apply.Approved.{
  UseKey, key_eq, key_in, approval_use_key, ApplyEvent, Surroundings, State, Call,
  ensure_applicable, event_matches_key, ensure_approval_not_previously_applied,
  release_approval_use, apply_event, log_applied, apply_reserved, apply_approved_patch,
}

pub key_eq_refl : (k : UseKey) → key_eq k k ≡ true
key_eq_refl k = ground (arith, eq_refl k.0, eq_refl k.1, eq_refl k.2)

release-fresh :
    (k : UseKey) (ks : List UseKey) → key_in k ks ≡ false → release_approval_use k ks ≡ ks
release-fresh k [] h = refl
release-fresh k (j ∷ ks) h = ground (arith, release-fresh k ks)

-- Releasing a key that was just reserved undoes the reservation.
release-reserved :
    (k : UseKey) (ks : List UseKey) → key_in k ks ≡ false → release_approval_use k (k ∷ ks) ≡ ks
release-reserved k ks h = ground (arith, release-fresh k ks h, key_eq_refl k)

abbrev pub events_after : Surroundings → UseKey → List ApplyEvent → List ApplyEvent
events_after w k events = elim (w.written) [
  | err e ↦ events
  | ok done ↦ events ++ apply_event w k ∷ []
]

not_logged :
    (w : Surroundings) (k : UseKey) (events : List ApplyEvent)
    → ensure_approval_not_previously_applied w k events ≡ ok tt
    → any (event_matches_key k) events ≡ false
unfolding ensure_approval_not_previously_applied
not_logged w k events h = ground arith

-- The use is new to the process and to the log, and Git applied the patch for it.
abbrev pub IsApplied : Surroundings → UseKey → State → State → Type 0
IsApplied w k s t =
    (key_in k s.used ≡ false)
    × (any (event_matches_key k) s.events ≡ false)
    × (t.used ≡ k ∷ s.used)
    × (t.applied ≡ k ∷ s.applied)
    × (t.events ≡ events_after w k s.events)

log_applied-state :
    (w : Surroundings) (c : Call) (k : UseKey) (s : State)
    → (log_applied w c k s).1 ≡ record s { events = events_after w k s.events }
unfolding log_applied
log_applied-state w c k s = elim (Checked-cases w.written) [
  | inl failed ↦ rw (failed.1) refl
  | inr done ↦ rw (done.1) refl
]

-- Where Git fails, a use that is new to the process is as before.
pub apply_reserved-failed :
    (w : Surroundings) (c : Call) (k : UseKey) (s : State) (e : String)
    → key_in k s.used ≡ false
    → (w.patch_applies >>= λ done. w.patch_applied) ≡ err e
    → (apply_reserved w c k s).1 ≡ s
unfolding apply_reserved
apply_reserved-failed w c k s e fresh failed =
    rw (fresh, failed) (ap (λ ks. record s { used = ks }) (release-reserved k s.used fresh))

apply_reserved-cases :
    (w : Surroundings) (c : Call) (k : UseKey) (s : State)
    → any (event_matches_key k) s.events ≡ false
    → ((apply_reserved w c k s).1 ≡ s) ⊎ IsApplied w k s (apply_reserved w c k s).1
unfolding apply_reserved
apply_reserved-cases w c k s e = elim (Bool-cases (key_in k s.used)) [
  | inl taken ↦ inl (rw (taken) refl)
  | inr fresh ↦ elim (Checked-cases (w.patch_applies >>= λ done. w.patch_applied)) [
    | inl failed ↦ inl (apply_reserved-failed w c k s failed.0 fresh failed.1)
    | inr done ↦
        let after = record s {
          used = k ∷ s.used;
          applied = k ∷ s.applied;
          events = events_after w k s.events;
        } in
        let now : (apply_reserved w c k s).1 ≡ after =
          rw (fresh, done.1)
            (log_applied-state w c k (record s { used = k ∷ s.used; applied = k ∷ s.applied })) in
        inr (
          fresh,
          e,
          ap (λ (x : State). x.used) now,
          ap (λ (x : State). x.applied) now,
          ap (λ (x : State). x.events) now,
        )
  ]
]

-- A call leaves the state as it was, or it passed the checks, its use is new to the process and to the
-- log, and Git has applied its patch.
pub apply-cases :
    (h : Hasher) (clock : Clock) (w : Surroundings) (c : Call) (s : State)
    → ((apply_approved_patch h clock w c s).1 ≡ s)
      ⊎ ((ensure_applicable h clock w c ≡ ok tt)
          × IsApplied w
              (approval_use_key c.request c.patch)
              s
              (apply_approved_patch h clock w c s).1)
unfolding apply_approved_patch
apply-cases h clock w c s =
    let k = approval_use_key c.request c.patch in
    let checks = ensure_applicable h clock w c >>= λ done.
    ensure_approval_not_previously_applied w k s.events in
    elim (Checked-cases checks) [
      | inl failed ↦ inl (rw (failed.1, apply_approved_patch) refl)
      | inr done ↦
          let passed = bind_ok (ensure_applicable h clock w c) _ _ done.1 in
          let reserved = apply_reserved-cases w c k s (not_logged w k s.events passed.2) in
          elim reserved [
            | inl same ↦ inl (rw (done.1, apply_approved_patch) same)
            | inr applied ↦ inr (passed.1, rw (done.1, apply_approved_patch) applied)
          ]
    ]
